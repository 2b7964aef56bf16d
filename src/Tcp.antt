-- ===== src/Tcp.antt =====
-- TcpConnection of core/tcp_connection.h and core/tcp_connection.cpp. What the
-- handler and the manager are told is recorded, and they do not call back. The time is an argument.
-- The counters are 64 bits wide; addresses, logging and dump() are left out.
pub mod Handling
pub mod Opening
pub mod Stream
pub mod Flow
pub mod Served
pub mod Kept
pub mod Keeping
pub mod Reading
pub mod Trace
pub mod Lifetime
mod Runs
use lin_socket_io.Base.{
  ℕ, ◌+◌, ◌-◌, ◌*◌, ◌%◌, ◌^◌, max, Bool, true, ◌&&◌, Option, none, some, List, [], ◌∷◌, ◌++◌, ◌==◌,
  if◌then◌else◌, ltb, Bytes, length, take, drop, remove, buffer_overflow, Result, ok, err,
}
use lin_socket_io.Buffer.{ByteBuffer}
use lin_socket_io.Buffer.Invariant.{contents}
use lin_socket_io.Buffer.Memory.{store}
use lin_socket_io.Manager.{Status, established, disconnected}
use lin_socket_io.Socket.{
  sel_rw, recv, sel_read, sel_write, Received, sel_all, sel_none, Socket, Sent, remove_socket,
  Events,
}
use lin_socket_io.Buffer
use lin_socket_io.Socket

-- what the connection calls in its handler and in the manager
pub data Callback : Type 0 where
  on_connected : Callback
  on_data : Bytes → Callback
  on_write : Callback
  on_close : Callback
  on_initiative_close : Callback

pub record TcpConnection : Type 0 where
  pub socket : Socket
  pub status : Status
  pub timeout : ℕ
  -- the alarm of select_timeout, in ms
  pub timer : Option ℕ
  pub last_recv : ℕ
  pub last_send : ℕ
  pub send_bytes : ℕ
  pub sent_bytes : ℕ
  pub recv_bytes : ℕ
  pub input : ByteBuffer
  pub output : ByteBuffer
  -- the bytes that ::send has taken, the oldest first
  pub wire : Bytes
  pub told : List Callback

abbrev pub tell : TcpConnection → Callback → TcpConnection
tell c callback = record c { told = c.told ++ callback ∷ [] }

-- how the handler answers: what onData consumes, `none` being a negative result or an exception, and
-- whether onConnected and onWrite throw socket_error
pub record Handler : Type 0 where
  pub consumes : Bytes → Option ℕ
  pub connected_throws : Bool
  pub write_throws : Bool

-- a call that changes the connection, and what it returns or throws
abbrev pub Outcome : Type 0 → Type 0
Outcome A = TcpConnection × Result A

-- the next statement, unless an exception has been thrown
abbrev pub and_then {ℓ κ} :
    {A : Type ℓ} {B : Type κ}
    → TcpConnection × Result A
    → (TcpConnection → A → TcpConnection × Result B)
    → TcpConnection × Result B
and_then (c, ok a) next = next c a
and_then (c, err e) next = (c, err e)

-- the result of a call of the socket
pub set_socket : TcpConnection → Result Socket → Outcome Unit
set_socket c (ok s) = (record c { socket = s }, ok tt)
set_socket c (err e) = (c, err e)

-- the call of select() on the connection's socket
pub select : TcpConnection → Events → Events → Outcome Unit
select c old add = set_socket c (Socket.select c.socket old add)

-- `select_timeout()` and `Socket::remove()`
abbrev pub unregister : TcpConnection → TcpConnection
unregister c = record c { timer = none; socket = remove_socket c.socket }

-- handleOnClose. An exception of the manager is caught after the same two calls, and makes the result
-- false.
pub handle_on_close : TcpConnection → TcpConnection
handle_on_close c = tell (unregister (record c { status = disconnected })) on_close

pub handle_on_initiative_close : TcpConnection → TcpConnection
handle_on_initiative_close c =
    tell (unregister (record c { status = disconnected })) on_initiative_close

-- close()
pub close : TcpConnection → TcpConnection
close c = handle_on_initiative_close c

-- the result of a call of the output buffer
pub set_output : TcpConnection → Result ByteBuffer → Outcome Unit
set_output c (ok b) = (record c { output = b }, ok tt)
set_output c (err e) = (c, err e)

-- `_lastSendTs`, `_sendBytes` and `_sentBytes` at the end of send
abbrev pub account : TcpConnection → ℕ → ℕ → ℕ → TcpConnection
account c now size n = record c {
  last_send = now;
  send_bytes = (c.send_bytes + size) % 2 ^ 64;
  sent_bytes = (c.sent_bytes + n) % 2 ^ 64;
}

module _ (fresh : ℕ → ℕ) (now : ℕ) where
  -- `_output.write(...)`
  pub write_output : TcpConnection → Bytes → Outcome Unit
  write_output c xs = set_output c (Buffer.write fresh c.output xs)

  -- the bytes that ::send has not taken
  pub queue_rest : TcpConnection → Bytes → Outcome Unit
  queue_rest c [] = (c, ok tt)
  queue_rest c (x ∷ xs) = and_then (write_output c (x ∷ xs)) (λ d _. select d sel_none sel_write)

  -- `if(n < (int)size)`: from 2^31 on, `(int)size` is negative and no `n` is below it
  pub queue_unsent : TcpConnection → Bytes → ℕ → Outcome Unit
  queue_unsent c dat n = if ltb (length dat) (2 ^ 31) then queue_rest c (drop n dat) else (c, ok tt)

  -- the end of send
  pub finish_send : ℕ → ℕ → TcpConnection → Unit {0} → Outcome ℕ
  finish_send size n c _ = (account c now size n, ok (Buffer.size c.output))

  -- `if(data && size > 0) _output.write(data, size)`
  pub write_some : TcpConnection → Bytes → Outcome Unit
  write_some c [] = (c, ok tt)
  write_some c (x ∷ xs) = write_output c (x ∷ xs)

  -- send after ::send has returned
  pub send_rest : TcpConnection → Bytes → Result ℕ → Outcome ℕ
  send_rest c dat (err e) = (c, err e)
  send_rest c dat (ok n) =
      and_then (queue_unsent (record c { wire = c.wire ++ take n dat }) dat n)
        (finish_send (length dat) n)

  -- send(data, size) of a 32-bit size; `net` is what ::send returns for the bytes
  pub send : (Bytes → Sent) → TcpConnection → Bytes → Outcome ℕ
  send net c dat =
      if c.socket.connected && Buffer.size c.output == 0
      then send_rest c dat (Socket.send (net dat))
      else and_then (write_some c dat) (finish_send (length dat) 0)

-- the end of flush
pub finish_flush : ℕ → TcpConnection → Unit {0} → Outcome Bool
finish_flush n c _ =
    (record c { sent_bytes = (c.sent_bytes + n) % 2 ^ 64 }, ok (Buffer.size c.output == 0))

-- `if(_output.empty()) select(SEL_WRITE, 0)`
pub deselect_write : TcpConnection → Outcome Unit
deselect_write c = if Buffer.size c.output == 0 then select c sel_write sel_none else (c, ok tt)

-- flush after ::send has returned
pub flush_rest : TcpConnection → Result ℕ → Outcome Bool
flush_rest c (err e) = (c, err e)
flush_rest c (ok n) =
    let sent = record c {
      wire = c.wire ++ take n (contents c.output);
      output = if n == 0 then c.output else (Buffer.erase c.output n).0;
    } in
    and_then (deselect_write sent) (finish_flush n)

pub flush : (Bytes → Sent) → TcpConnection → Outcome Bool
flush net c =
    if Buffer.size c.output == 0
    then (c, ok true)
    else flush_rest c (Socket.send (net (contents c.output)))
