-- ===== src/Tcp/Trace.antt =====
-- The calls and events of a TcpConnection of core/tcp_connection.cpp, in any order.
use lin_socket_io.Base.{
  ℕ, ◌^◌, ◌<◌, Bool, true, false, ◌&&◌, Option, none, some, List, [], ◌∷◌, Bytes, length, Result,
  ok, err,
}
use lin_socket_io.Socket.{Sent, Received}
use lin_socket_io.Tcp.{TcpConnection, Handler, send, close}
use lin_socket_io.Tcp.Handling.{set_keepalive_timeout}
use lin_socket_io.Tcp.Opening.{Event, sel_reads, sel_writes, sel_timeout, handle}
use lin_socket_io.Tcp.Stream.{IsHonest}

-- what the system does during an event
pub record Net : Type 0 where
  pub sends : Bytes → Sent
  pub receives : ℕ → Received
  pub connect_fails : Bool
  pub now : ℕ

-- a call of the user, or an event of the selector
pub data Action : Type 0 where
  write : (net : Net) (dat : Bytes) → Action
  shut : Action
  keepalive : (msec : ℕ) → Action
  ready : (net : Net) (event : Event) → Action

abbrev pub is_ok {ℓ} : {A : Type ℓ} → Result A → Bool
is_ok (ok a) = true
is_ok (err e) = false

-- ::send takes no more than it is given, and the size of data is not negative as an `int`.
abbrev pub IsFair : Action → Type 0
IsFair (write net dat) = IsHonest net.sends × (length dat < 2 ^ 31)
IsFair shut = Unit
IsFair (keepalive msec) = Unit
IsFair (ready net event) = IsHonest net.sends

-- the data of the calls of send
abbrev pub data_of : Action → Bytes
data_of (write net dat) = dat
data_of _ = []

module _ (fresh : ℕ → ℕ) (handler : Handler) where
  -- An alarm goes off only if it is set, and is then not set any more.
  unfoldable pub go_off : Net → TcpConnection → Option ℕ → Option TcpConnection
  go_off net c none = some c
  go_off net c (some t) =
      handle fresh handler net.sends net.receives net.connect_fails net.now
        (record c { timer = none }) sel_timeout

  unfoldable pub dispatch : Net → TcpConnection → Event → Option TcpConnection
  dispatch net c sel_timeout = go_off net c c.timer
  dispatch net c sel_reads =
      handle fresh handler net.sends net.receives net.connect_fails net.now c sel_reads
  dispatch net c sel_writes =
      handle fresh handler net.sends net.receives net.connect_fails net.now c sel_writes

  -- `none`: the assertion of onTimeout fails
  unfoldable pub act : TcpConnection → Action → Option TcpConnection
  act c (write net dat) = some (send fresh net.now net.sends c dat).0
  act c shut = some (close c)
  act c (keepalive msec) = some (set_keepalive_timeout c msec)
  act c (ready net event) = dispatch net c event

  unfoldable pub run : List Action → Option TcpConnection → Option TcpConnection
  run [] c = c
  run (a ∷ trace) none = none
  run (a ∷ trace) (some c) = run trace (act c a)

  -- whether every send returns
  unfoldable pub returns : TcpConnection → Action → Bool
  returns c (write net dat) = is_ok (send fresh net.now net.sends c dat).1
  returns c _ = true

  unfoldable pub all_return : List Action → Option TcpConnection → Bool
  all_return [] c = true
  all_return (a ∷ trace) none = true
  all_return (a ∷ trace) (some c) = returns c a && all_return trace (act c a)
