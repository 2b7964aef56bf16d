-- ===== src/Udp.antt =====
-- UdpConnection of core/udp_connection.h and core/udp_connection.cpp. What the handler and the manager are
-- told is recorded, and they do not call back. The time is an argument. The counters are 64 bits wide;
-- addresses, logging and dump() are left out.
pub mod Opening
pub mod Queued
pub mod Sending
pub mod Blocked
pub mod Kept
pub mod Lifetime
mod Runs
use lin_socket_io.Base.{
  ℕ, zero, suc, ◌+◌, ◌-◌, ◌*◌, ◌%◌, ◌^◌, max, Bool, true, false, ◌&&◌, Option, none, some, List, [],
  ◌∷◌, ◌++◌, ◌==◌, if◌then◌else◌, Bytes, length, take, buffer_overflow, Result, ok, err,
}
use lin_socket_io.Buffer
use lin_socket_io.Buffer.{ByteBuffer}
use lin_socket_io.Buffer.Invariant.{contents}
use lin_socket_io.Buffer.Memory.{store}
use lin_socket_io.Manager.{Status, established, disconnected, connectting, socket_error}
use lin_socket_io.Socket
use lin_socket_io.Socket.{
  Socket, Events, sel_none, sel_read, sel_write, sel_rw, sel_all, Sent, Received, recv,
  remove_socket, attach, detach, socket_helper, complete_nonblocking_connect,
}
use lin_socket_io.Tcp.{Callback, on_data, on_write, on_close, on_initiative_close, Handler}
use lin_socket_io.Tcp.Opening.{Event, sel_reads, sel_writes, sel_timeout}

pub record UdpConnection : Type 0 where
  pub socket : Socket
  pub status : Status
  pub timeout : ℕ
  -- the alarm of select_timeout, in ms
  pub timer : Option ℕ
  pub last_recv : ℕ
  pub last_send : ℕ
  pub send_bytes : ℕ
  pub sent_bytes : ℕ
  pub recv_bytes : ℕ
  pub input : ByteBuffer
  -- the datagrams of `_output`, the oldest first
  pub output : List Bytes
  -- what ::send has taken of each datagram, the oldest first
  pub wire : List Bytes
  pub told : List Callback

-- `_output.empty()`
abbrev pub empty : List Bytes → Bool
empty [] = true
empty (d ∷ ds) = false

-- What ::send returns for the first of some datagrams.
abbrev pub Sends : Type 0
Sends = List Bytes → Sent

-- a call that changes the connection, and what it returns or throws
abbrev pub Outcome : Type 0 → Type 0
Outcome A = UdpConnection × Result A

abbrev pub tell : UdpConnection → Callback → UdpConnection
tell c callback = record c { told = c.told ++ callback ∷ [] }

-- the result of a call of the socket
unfoldable pub set_socket : UdpConnection → Result Socket → Outcome Unit
set_socket c (ok s) = (record c { socket = s }, ok tt)
set_socket c (err e) = (c, err e)

-- Socket::select on the connection's socket
unfoldable pub select : UdpConnection → Events → Events → Outcome Unit
select c old add = set_socket c (Socket.select c.socket old add)

-- `select_timeout()` and `Socket::remove()`
abbrev pub unregister : UdpConnection → UdpConnection
unregister c = record c { timer = none; socket = remove_socket c.socket }

-- handleOnClose; an exception of the manager is caught after the same two calls
pub handle_on_close : UdpConnection → UdpConnection
handle_on_close c = tell (unregister (record c { status = disconnected })) on_close

pub handle_on_initiative_close : UdpConnection → UdpConnection
handle_on_initiative_close c =
    tell (unregister (record c { status = disconnected })) on_initiative_close

-- close()
pub close : UdpConnection → UdpConnection
close c = handle_on_initiative_close c

-- `_output.push_back(std::string(data, size))`
abbrev pub push_back : UdpConnection → Bytes → UdpConnection
push_back c dat = record c { output = c.output ++ dat ∷ [] }

-- a datagram of which ::send has taken n bytes
abbrev pub sent : UdpConnection → Bytes → ℕ → UdpConnection
sent c dat n = record c {
  wire = c.wire ++ take n dat ∷ [];
  sent_bytes = (c.sent_bytes + n) % 2 ^ 64;
}

-- `_lastSendTs` and `_sendBytes` at the end of send, which an exception skips
unfoldable pub account : ℕ → ℕ → Outcome Unit → UdpConnection
account now size (c, ok _) = record c {
  last_send = now;
  send_bytes = (c.send_bytes + size) % 2 ^ 64;
}
account now size (c, err e) = c

-- send over a connected socket with nothing queued, after ::send has returned
unfoldable pub send_now : UdpConnection → Bytes → Result ℕ → Outcome Unit
send_now c dat (err e) = (c, err e)
send_now c dat (ok zero) = select (push_back c dat) sel_none sel_write
send_now c dat (ok (suc n)) = (sent c dat (suc n), ok tt)

-- `if(data && size > 0) _output.push_back(...)`
unfoldable pub queue_up : UdpConnection → Bytes → UdpConnection
queue_up c [] = c
queue_up c (x ∷ xs) = push_back c (x ∷ xs)

-- send(data, size) without its result, which is the number of queued datagrams
unfoldable pub send : Sends → ℕ → UdpConnection → Bytes → UdpConnection
send net now c dat = account now (length dat) (
    if c.socket.connected && empty c.output
    then send_now c dat (Socket.send (net (dat ∷ [])))
    else (queue_up c dat, ok tt))

-- `return _output.empty()` behind a call of select
pub emptied : Outcome Unit → Outcome Bool
emptied (c, ok _) = (c, ok true)
emptied (c, err e) = (c, err e)

-- the body of flush's loop after ::send has returned for the first datagram; `next` is the loop over
-- the others
unfoldable pub flush_sent :
    UdpConnection → Bytes → List Bytes → (UdpConnection → Outcome Bool) → Result ℕ → Outcome Bool
flush_sent c dat rest next (err e) = (c, err e)
flush_sent c dat rest next (ok zero) = (c, ok false)
flush_sent c dat [] next (ok (suc n)) =
    emptied (select (record (sent c dat (suc n)) { output = [] }) sel_write sel_none)
flush_sent c dat (d ∷ rest) next (ok (suc n)) =
    next (record (sent c dat (suc n)) { output = d ∷ rest })

-- flush over the datagrams that are queued
unfoldable pub flush_queue : Sends → UdpConnection → List Bytes → Outcome Bool
flush_queue net c [] = (c, ok true)
flush_queue net c (dat ∷ rest) =
    flush_sent c dat rest (λ d. flush_queue net d rest) (Socket.send (net (dat ∷ rest)))

-- flush()
unfoldable pub flush : Sends → UdpConnection → Outcome Bool
flush net c = flush_queue net c c.output

-- onConnected behind flush
unfoldable pub flushed_first : Outcome Bool → UdpConnection
flushed_first (c, err e) = c
flushed_first (c, ok true) = (select c sel_all sel_read).0
flushed_first (c, ok false) = (select c sel_all sel_rw).0

-- onConnected(desc)
unfoldable pub on_connected_event : Sends → UdpConnection → UdpConnection
on_connected_event net c =
    if c.socket.connected then flushed_first (flush net (record c { status = established })) else c

-- onRead after the handler has answered
pub consumed : UdpConnection → Option ℕ → UdpConnection
consumed c none = handle_on_initiative_close c
consumed c (some n) = record c { input = (Buffer.erase c.input n).0 }

-- handleOnData, and what onRead does with its result
pub consume : Handler → UdpConnection → UdpConnection
consume handler c =
    consumed (tell c (on_data (contents c.input))) (handler.consumes (contents c.input))

-- the `catch` clauses of onRead: after a buffer overflow the connection is closed and the function goes
-- on, and after an error of ::recv it returns
pub after_read : Handler → Outcome Unit → UdpConnection
after_read handler (c, ok _) = consume handler c
after_read handler (c, err buffer_overflow) = consume handler (handle_on_close c)
after_read handler (c, err e) = c

-- onWrite behind flush, which closes on an exception of the handler too
pub flushed_event : Handler → Outcome Bool → UdpConnection
flushed_event handler (c, err e) = handle_on_close c
flushed_event handler (c, ok true) =
    let d = tell c on_write in if handler.write_throws then handle_on_close d else d
flushed_event handler (c, ok false) = c

-- onWrite
pub on_write_event : Handler → Sends → UdpConnection → UdpConnection
on_write_event handler net c = flushed_event handler (flush net c)

module _ (fresh : ℕ → ℕ) where
  -- the bytes of recv, with a 0 behind them, in the room that reserve has made
  pub take_in : Bytes → UdpConnection → ByteBuffer → UdpConnection
  take_in [] c b = record c { input = b }
  take_in (x ∷ xs) c b =
      let n = length (x ∷ xs) in
      record c {
        input =
            (Buffer.advance fresh (record b { mem = store b.mem b.tail ((x ∷ xs) ++ 0 ∷ []) }) n).0;
        recv_bytes = (c.recv_bytes + n) % 2 ^ 64;
      }

  -- the part of onRead that may throw, after ::recv has returned and after reserve has
  pub received : UdpConnection → ByteBuffer → Result Bytes → Outcome Unit
  received c b (err e) = (record c { input = b }, err e)
  received c b (ok xs) = (take_in xs c b, ok tt)

  pub reserved : (ℕ → Received) → ℕ → UdpConnection → Result ByteBuffer → Outcome Unit
  reserved net sz c (err e) = (c, err e)
  reserved net sz c (ok b) = received c b (recv (net (sz - 1)))

  -- onRead; `net` is what ::recv returns for a length
  pub on_read : Handler → (ℕ → Received) → ℕ → UdpConnection → UdpConnection
  on_read handler net now c =
      let d = record c { last_recv = now } in
      let sz = max (Buffer.space d.input) (4 * 1024) in
      after_read handler (reserved net sz d (Buffer.reserve fresh d.input sz))

-- setKeepaliveTimeout
pub set_keepalive_timeout : UdpConnection → ℕ → UdpConnection
set_keepalive_timeout c msec =
    if msec == 0 then c else record c { timeout = msec; timer = some msec }

-- onTimeout. `ts` is `_timeout - (int)(time(0) - _lastRecvTs)*1000` where that is positive. `none` is the
-- failed assertion.
pub on_timeout : ℕ → UdpConnection → Option UdpConnection
on_timeout now c =
    let ts = c.timeout + c.last_recv * 1000 - now * 1000 in
    if c.timeout == 0
    then none
    else if ts == 0
    then some (handle_on_initiative_close c)
    else some (record c { timer = some ts })
