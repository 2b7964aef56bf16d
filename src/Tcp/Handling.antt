-- ===== src/Tcp/Handling.antt =====
-- The handlers of TcpConnection of core/tcp_connection.h and core/tcp_connection.cpp: what an event of
-- the selector does.
use lin_socket_io.Base.{
  ℕ, ◌+◌, ◌-◌, ◌*◌, ◌%◌, ◌^◌, max, Option, none, some, [], ◌∷◌, ◌++◌, ◌==◌, if◌then◌else◌, Bytes,
  length, buffer_overflow, Result, ok, err,
}
use lin_socket_io.Buffer.{ByteBuffer}
use lin_socket_io.Manager.{established}
use lin_socket_io.Socket.{sel_rw, sel_read, sel_all, recv, Sent, Received}
use lin_socket_io.Tcp.{
  select, contents, handle_on_initiative_close, tell, store, and_then, handle_on_close, flush,
  Outcome, Handler, TcpConnection, on_connected, on_data, on_write,
}
use lin_socket_io.Buffer

-- the `catch(socket_error&)` of onConnected and onWrite
unfoldable pub or_close {ℓ} :
    {A : Type ℓ} → TcpConnection × Result A → (TcpConnection → A → TcpConnection) → TcpConnection
or_close (c, err e) next = handle_on_close c
or_close (c, ok a) next = next c a

-- onRead after the handler has answered
unfoldable pub consumed : TcpConnection → Option ℕ → TcpConnection
consumed c none = handle_on_initiative_close c
consumed c (some n) = record c { input = (Buffer.erase c.input n).0 }

module _ (handler : Handler) where
  -- handleOnConnected
  unfoldable pub handle_on_connected : TcpConnection → TcpConnection
  handle_on_connected c =
      let d = tell c on_connected in if handler.connected_throws then handle_on_close d else d

  -- onConnected(desc) at the time `now`
  unfoldable pub on_connected_event : (Bytes → Sent) → ℕ → TcpConnection → TcpConnection
  on_connected_event net now c =
      let d = record c { timer = none } in
      let e = record d { status = established; last_recv = now } in
      if c.socket.connected
      then or_close
          (and_then (flush net e)
            (λ f flushed. select f sel_all (if flushed then sel_read else sel_rw)))
          (λ f _. handle_on_connected f)
      else handle_on_close d

  -- handleOnData, and what onRead does with its result
  unfoldable pub consume : TcpConnection → TcpConnection
  consume c = consumed (tell c (on_data (contents c.input))) (handler.consumes (contents c.input))

  -- the `catch` clauses of onRead: after a buffer overflow the connection is closed, and the function
  -- goes on
  unfoldable pub after_read : Outcome Unit → TcpConnection
  after_read (c, ok _) = consume c
  after_read (c, err buffer_overflow) = consume (handle_on_close c)
  after_read (c, err e) = handle_on_close c

  -- `_handler->onWrite(this)`, and its exception
  unfoldable pub handle_on_write : TcpConnection → TcpConnection
  handle_on_write c =
      let d = tell c on_write in if handler.write_throws then handle_on_close d else d

  -- onWrite
  unfoldable pub on_write_event : (Bytes → Sent) → TcpConnection → TcpConnection
  on_write_event net c =
      or_close (flush net c) (λ d flushed. if flushed then handle_on_write d else d)

module _ (fresh : ℕ → ℕ) where
  -- the bytes of recv, with a 0 behind them, in the room that reserve has made
  unfoldable pub take_in : Bytes → TcpConnection → ByteBuffer → TcpConnection
  take_in [] c b = record c { input = b }
  take_in (x ∷ xs) c b =
      let n = length (x ∷ xs) in
      record c {
        input =
            (Buffer.advance fresh (record b { mem = store b.mem b.tail ((x ∷ xs) ++ 0 ∷ []) }) n).0;
        recv_bytes = (c.recv_bytes + n) % 2 ^ 64;
      }

  -- the part of onRead that may throw, after ::recv has returned and after reserve has
  unfoldable pub received : TcpConnection → ByteBuffer → Result Bytes → Outcome Unit
  received c b (err e) = (record c { input = b }, err e)
  received c b (ok xs) = (take_in xs c b, ok tt)

  unfoldable pub reserved : (ℕ → Received) → ℕ → TcpConnection → Result ByteBuffer → Outcome Unit
  reserved net sz c (err e) = (c, err e)
  reserved net sz c (ok b) = received c b (recv (net (sz - 1)))

  unfoldable pub read_input : (ℕ → Received) → TcpConnection → Outcome Unit
  read_input net c =
      let sz = max (Buffer.space c.input) (4 * 1024) in
      reserved net sz c (Buffer.reserve fresh c.input sz)

  -- onRead; `net` is what ::recv returns for a length
  unfoldable pub on_read : Handler → (ℕ → Received) → ℕ → TcpConnection → TcpConnection
  on_read handler net now c = after_read handler (read_input net (record c { last_recv = now }))

-- setKeepaliveTimeout
unfoldable pub set_keepalive_timeout : TcpConnection → ℕ → TcpConnection
set_keepalive_timeout c msec =
    if msec == 0 then c else record c { timeout = msec; timer = some msec }

-- onTimeout. `ts` is `_timeout - (int)(time(0) - _lastRecvTs)*1000` where that is positive. `none` is the
-- failed assertion.
unfoldable pub on_timeout : ℕ → TcpConnection → Option TcpConnection
on_timeout now c =
    let ts = c.timeout + c.last_recv * 1000 - now * 1000 in
    if c.timeout == 0
    then none
    else if ts == 0
    then some (handle_on_initiative_close c)
    else some (record c { timer = some ts })
