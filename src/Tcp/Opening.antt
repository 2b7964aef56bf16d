-- ===== src/Tcp/Opening.antt =====
-- The constructors of TcpConnection of core/tcp_connection.cpp, and TcpClientSocket, which gives an event
-- to its handler.
use lin_socket_io.Base.{
  ℕ, ◌*◌, Bool, true, Option, none, some, [], ◌==◌, if◌then◌else◌, Bytes, ok, err,
}
use lin_socket_io.Buffer.{ByteBuffer}
use lin_socket_io.Manager.{connectting, established, socket_error}
use lin_socket_io.Socket.{
  sel_read, sel_rw, Received, detach, attach, complete_nonblocking_connect, socket_helper,
}
use lin_socket_io.Tcp.{unregister, sel_none, Sent, TcpConnection, Outcome, Handler, select}
use lin_socket_io.Tcp.Handling.{on_read, on_timeout, on_connected_event, on_write_event}

-- the end of the constructor over an accepted socket, after the call of select
unfoldable pub accepted_rest : TcpConnection → ℕ → Outcome Unit → TcpConnection
accepted_rest failed msec (c, err e) = failed
accepted_rest failed msec (c, ok _) = if msec == 0 then c else record c { timer = some msec }

-- the constructor over an accepted socket; `fails`: setblocking, getlocal or setnodelay throws
unfoldable pub accepted : Bool → ℕ → ℕ → ByteBuffer → ByteBuffer → TcpConnection
accepted fails now msec input output =
    let c : TcpConnection = record {
      socket = attach socket_helper;
      status = established;
      timeout = msec;
      timer = none;
      last_recv = now;
      last_send = 0;
      send_bytes = 0;
      sent_bytes = 0;
      recv_bytes = 0;
      input = input;
      output = output;
      wire = [];
      told = [];
    } in
    let failed = record c { socket = detach c.socket; status = socket_error } in
    if fails then failed else accepted_rest failed msec (select c sel_none sel_read)

-- what ::connect of a new socket does
pub data Connect : Type 0 where
  at_once pending refused : Connect

-- DEFAULT_CONNECT_TIMEOUT
abbrev pub default_connect_timeout : ℕ
default_connect_timeout = 5 * 1000

-- `select(0, SEL_CONNECTING)` of TcpClientSocket; `on_event` is onConnected
pub select_connecting : (TcpConnection → TcpConnection) → TcpConnection → Outcome Unit
select_connecting on_event c =
    if c.socket.connected then (on_event c, ok tt) else select c sel_none sel_rw

-- the `catch` of the constructors that connect
pub connect_failed : TcpConnection → TcpConnection
connect_failed c = unregister (record c { status = socket_error })

pub or_failed : Outcome Unit → TcpConnection
or_failed (c, ok _) = c
or_failed (c, err e) = connect_failed c

-- a connection over a new socket, before it is connected
abbrev pub unconnected : ByteBuffer → ByteBuffer → TcpConnection
unconnected input output = record {
  socket = record socket_helper { valid = true };
  status = connectting;
  timeout = 0;
  timer = none;
  last_recv = 0;
  last_send = 0;
  send_bytes = 0;
  sent_bytes = 0;
  recv_bytes = 0;
  input = input;
  output = output;
  wire = [];
  told = [];
}

-- the constructors that connect, after ::connect; `fails` says that setnodelay throws
pub connect_rest : (TcpConnection → TcpConnection) → Bool → TcpConnection → TcpConnection
connect_rest on_event fails c =
    if fails then connect_failed c else or_failed (select_connecting on_event c)

-- the constructors that connect, with the timeout `msec <= 0 ? DEFAULT_CONNECT_TIMEOUT : msec`
pub connect :
    (TcpConnection → TcpConnection) → Bool → Connect → ℕ → ByteBuffer → ByteBuffer → TcpConnection
connect on_event fails refused msec input output = connect_failed (unconnected input output)
connect on_event fails at_once msec input output =
    let c = unconnected input output in
    connect_rest on_event fails (record c { socket = record (c.socket) { connected = true } })
connect on_event fails pending msec input output =
    connect_rest on_event fails (record (unconnected input output) {
      timer = some (if msec == 0 then default_connect_timeout else msec);
    })

-- the events of a selector
pub data Event : Type 0 where
  sel_reads sel_writes sel_timeout : Event

-- `socket().complete_nonblocking_connect()`
abbrev pub completed : TcpConnection → Bool → TcpConnection
completed c failed = record c { socket = complete_nonblocking_connect c.socket failed }

-- TcpClientSocket::handle; `failed` says whether SO_ERROR names an error, and `none` is the failed
-- assertion of onTimeout.
unfoldable pub handle :
    (ℕ → ℕ)
    → Handler
    → (Bytes → Sent)
    → (ℕ → Received)
    → Bool
    → ℕ
    → TcpConnection
    → Event
    → Option TcpConnection
handle fresh handler net_send net_recv failed now c sel_reads = some (
    if c.socket.connected
    then on_read fresh handler net_recv now c
    else on_connected_event handler net_send now (completed c failed))
handle fresh handler net_send net_recv failed now c sel_writes = some (
    if c.socket.connected
    then on_write_event handler net_send c
    else on_connected_event handler net_send now (completed c failed))
handle fresh handler net_send net_recv failed now c sel_timeout =
    if c.socket.connected
    then on_timeout now c
    else some (on_connected_event handler net_send now c)
