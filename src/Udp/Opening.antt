-- ===== src/Udp/Opening.antt =====
-- The constructors of UdpConnection of core/udp_connection.cpp, UdpClientSocket, which gives an event to
-- its handler, and the calls and events of a connection in any order.
use lin_socket_io.Base.{
  ℕ, Bool, true, Option, none, some, List, [], ◌∷◌, ◌==◌, if◌then◌else◌, Bytes, ok, err,
}
use lin_socket_io.Buffer.{ByteBuffer}
use lin_socket_io.Manager.{established, connectting, socket_error}
use lin_socket_io.Socket.{
  sel_none, sel_read, sel_rw, Received, socket_helper, attach, detach, complete_nonblocking_connect,
}
use lin_socket_io.Tcp.{Handler}
use lin_socket_io.Tcp.Opening.{
  Event, sel_reads, sel_writes, sel_timeout, Connect, at_once, pending, refused,
}
use lin_socket_io.Udp.{
  UdpConnection, Sends, Outcome, select, send, close, on_connected_event, on_read, on_write_event,
  set_keepalive_timeout, on_timeout,
}

-- the end of the constructor over an accepted socket, after the call of select
unfoldable pub accepted_rest : UdpConnection → ℕ → Outcome Unit → UdpConnection
accepted_rest failed msec (c, err e) = failed
accepted_rest failed msec (c, ok _) = if msec == 0 then c else record c { timer = some msec }

-- the constructor over an accepted socket; `fails`: setblocking or getlocal throws
unfoldable pub accepted : Bool → ℕ → ℕ → ByteBuffer → UdpConnection
accepted fails now msec input =
    let c : UdpConnection = record {
      socket = attach socket_helper;
      status = established;
      timeout = msec;
      timer = none;
      last_recv = now;
      last_send = 0;
      send_bytes = 0;
      sent_bytes = 0;
      recv_bytes = 0;
      input = input;
      output = [];
      wire = [];
      told = [];
    } in
    let failed = record c { socket = detach c.socket; status = socket_error } in
    if fails then failed else accepted_rest failed msec (select c sel_none sel_read)

-- a client before it is connected; its timeout of -1 is written 0, which the code treats alike
abbrev pub unconnected : ℕ → ByteBuffer → UdpConnection
unconnected now input = record {
  socket = record socket_helper { valid = true };
  status = connectting;
  timeout = 0;
  timer = none;
  last_recv = now;
  last_send = 0;
  send_bytes = 0;
  sent_bytes = 0;
  recv_bytes = 0;
  input = input;
  output = [];
  wire = [];
  told = [];
}

-- the `catch` of the constructors that connect
pub or_failed : Outcome Unit → UdpConnection
or_failed (c, ok _) = c
or_failed (c, err e) = record c { status = socket_error }

-- the constructors that connect, with `select(0, SEL_CONNECTING)`
unfoldable pub connect : Sends → Connect → ℕ → ByteBuffer → UdpConnection
connect net at_once now input =
    let c = unconnected now input in
    on_connected_event net (record c { socket = record (c.socket) { connected = true } })
connect net pending now input = or_failed (select (unconnected now input) sel_none sel_rw)
connect net refused now input = record (unconnected now input) { status = socket_error }

-- what the system does during an event
pub record Net : Type 0 where
  pub sends : Sends
  pub receives : ℕ → Received
  pub connect_fails : Bool
  pub now : ℕ

-- `socket().complete_nonblocking_connect()`
abbrev pub completed : UdpConnection → Bool → UdpConnection
completed c failed = record c { socket = complete_nonblocking_connect c.socket failed }

-- UdpClientSocket::handle; `none` is the failed assertion of onTimeout.
unfoldable pub handle : (ℕ → ℕ) → Handler → Net → UdpConnection → Event → Option UdpConnection
handle fresh handler net c sel_reads = some (
    if c.socket.connected
    then on_read fresh handler net.receives net.now c
    else on_connected_event net.sends (completed c net.connect_fails))
handle fresh handler net c sel_writes = some (
    if c.socket.connected
    then on_write_event handler net.sends c
    else on_connected_event net.sends (completed c net.connect_fails))
handle fresh handler net c sel_timeout =
    if c.socket.connected then on_timeout net.now c else some (on_connected_event net.sends c)

-- a call of the user, or an event of the selector
pub data Action : Type 0 where
  write : (net : Net) (dat : Bytes) → Action
  shut : Action
  keepalive : (msec : ℕ) → Action
  ready : (net : Net) (event : Event) → Action

module _ (fresh : ℕ → ℕ) (handler : Handler) where
  -- An alarm goes off only if it is set, and is then not set any more.
  unfoldable pub go_off : Net → UdpConnection → Option ℕ → Option UdpConnection
  go_off net c none = some c
  go_off net c (some t) = handle fresh handler net (record c { timer = none }) sel_timeout

  unfoldable pub dispatch : Net → UdpConnection → Event → Option UdpConnection
  dispatch net c sel_timeout = go_off net c c.timer
  dispatch net c sel_reads = handle fresh handler net c sel_reads
  dispatch net c sel_writes = handle fresh handler net c sel_writes

  -- `none`: the assertion of onTimeout fails
  unfoldable pub act : UdpConnection → Action → Option UdpConnection
  act c (write net dat) = some (send net.sends net.now c dat)
  act c shut = some (close c)
  act c (keepalive msec) = some (set_keepalive_timeout c msec)
  act c (ready net event) = dispatch net c event

  unfoldable pub run : List Action → Option UdpConnection → Option UdpConnection
  run [] c = c
  run (a ∷ trace) none = none
  run (a ∷ trace) (some c) = run trace (act c a)
