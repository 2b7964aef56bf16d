-- ===== src/Tcp/Runs.antt =====
-- Runs of a TCP connection.
use lin_socket_io.Base.{
  ℕ, min, ◌≡◌, refl, true, false, none, some, List, [], ◌∷◌, ◌++◌, flat_map, arith, Bytes, length,
  All,
}
use lin_socket_io.Buffer.{ByteBuffer, init}
use lin_socket_io.Buffer.Invariant.{IsValid, contents}
use lin_socket_io.Manager.{established, disconnected}
use lin_socket_io.Socket.{Sent, Received, count, bytes}
use lin_socket_io.Tcp.{
  finish_flush, deselect_write, flush_rest, flush, write_some, finish_send, set_output,
  write_output, queue_rest, queue_unsent, send_rest, set_socket, select, send, TcpConnection,
  Handler, on_data, on_close, on_initiative_close,
}
use lin_socket_io.Tcp.Handling.{or_close, on_write_event, handle_on_write, on_read}
use lin_socket_io.Tcp.Lifetime.{run-IsServed, run-stream}
use lin_socket_io.Tcp.Opening.{accepted_rest, handle, accepted, sel_reads, sel_writes}
use lin_socket_io.Tcp.Reading.{on_read_lem, on_read_overflow}
use lin_socket_io.Tcp.Served.{IsServed}
use lin_socket_io.Tcp.Stream.{IsHonest, Accepted, send-Accepted}
use lin_socket_io.Tcp.Trace.{
  returns, act, dispatch, Net, Action, write, shut, ready, IsFair, run, all_return, data_of,
}
use lin_socket_io.Socket
use lin_socket_io.Buffer

abbrev zeros : ℕ → ℕ
zeros i = 0

abbrev buffer : ByteBuffer
buffer = record {
  mem = zeros;
  head = 0;
  tail = 0;
  cap = 1024;
  limit = 67108864;
  grow2x = true;
  high_water_mark = 0;
  on_stack = true;
}

buffer-IsValid : IsValid buffer
buffer-IsValid = ground arith

-- a handler that consumes all, and one that takes all for an error
abbrev eager : Handler
eager = record { consumes = λ xs. some (length xs); connected_throws = false; write_throws = false }

abbrev strict : Handler
strict = record { consumes = λ xs. none; connected_throws = false; write_throws = false }

-- ::send takes two bytes at most, and ::recv returns three.
abbrev two_at_most : Bytes → Sent
two_at_most xs = count (min 2 (length xs))

count-injective : (a b : ℕ) → count a ≡ count b → a ≡ b
count-injective a b e = cc

two_at_most-IsHonest : IsHonest two_at_most
two_at_most-IsHonest xs n e = omega (arith, count-injective (min 2 (length xs)) n e)

abbrev three : ℕ → Received
three n = bytes (7 ∷ 8 ∷ 9 ∷ [])

abbrev net : ℕ → Net
net now = record { sends = two_at_most; receives = three; connect_fails = false; now = now }

-- three bytes and two more, the rest of which goes out when the socket can be written
abbrev trace : List Action
trace =
    write (net 1) (1 ∷ 2 ∷ 3 ∷ [])
    ∷ write (net 2) (4 ∷ 5 ∷ [])
    ∷ ready (net 3) sel_writes
    ∷ ready (net 3) sel_reads
    ∷ ready (net 4) sel_writes
    ∷ shut
    ∷ []

trace-IsFair : All IsFair trace
trace-IsFair = (
  (two_at_most-IsHonest, omega arith),
  (
    (two_at_most-IsHonest, omega arith),
    (two_at_most-IsHonest, (two_at_most-IsHonest, (two_at_most-IsHonest, (tt, tt)))),
  ),
)

run-IsServed_example :
    (d : TcpConnection) × (run zeros eager trace (some (accepted false 0 5000 buffer buffer))
      ≡ some d)
    × IsServed d
run-IsServed_example =
    run-IsServed zeros eager trace 0 5000 buffer buffer buffer-IsValid refl trace-IsFair

trace_returns : all_return zeros eager trace (some (accepted false 0 5000 buffer buffer)) ≡ true
unfolding all_return act returns accepted accepted_rest select set_socket Socket.select send
    send_rest queue_unsent queue_rest write_output set_output finish_send write_some Socket.send
    dispatch handle on_write_event handle_on_write flush flush_rest deselect_write finish_flush
    or_close Buffer.write Buffer.reserve Buffer.erase Buffer.advance
trace_returns = refl

run-stream_example :
    (d : TcpConnection) × (run zeros eager trace (some (accepted false 0 5000 buffer buffer))
      ≡ some d)
    × (d.wire ++ contents d.output ≡ flat_map data_of trace)
run-stream_example =
    run-stream zeros eager trace 0 5000 buffer buffer buffer-IsValid refl trace-IsFair trace_returns

abbrev start : TcpConnection
start = record {
  socket = record {
    valid = true;
    connected = true;
    shutdown_send = false;
    shutdown_recv = false;
    selected = true;
    selevent = record { reads = true; writes = false };
  };
  status = established;
  timeout = 0;
  timer = none;
  last_recv = 0;
  last_send = 0;
  send_bytes = 0;
  sent_bytes = 0;
  recv_bytes = 0;
  input = buffer;
  output = buffer;
  wire = [];
  told = [];
}

send-Accepted_example :
    Accepted zeros 1 start (1 ∷ 2 ∷ 3 ∷ []) (send zeros 1 two_at_most start (1 ∷ 2 ∷ 3 ∷ []))
send-Accepted_example =
    send-Accepted zeros 1 two_at_most start (1 ∷ 2 ∷ 3 ∷ []) two_at_most-IsHonest buffer-IsValid
      (omega arith)

on_read_lem_example :
    (contents (on_read zeros eager three 1 start).input ≡ [])
    × ((on_read zeros eager three 1 start).told ≡ on_data (7 ∷ 8 ∷ 9 ∷ []) ∷ [])
    × ((on_read zeros eager three 1 start).recv_bytes ≡ 3)
unfolding Buffer.Memory.slice
on_read_lem_example =
    on_read_lem zeros eager three 1 3 7 (8 ∷ 9 ∷ []) start buffer-IsValid (omega arith) refl
      (omega arith) refl (omega arith)

abbrev narrow : TcpConnection
narrow = record start { input = record buffer { limit = 2048 } }

on_read_overflow_example :
    ((on_read zeros strict three 1 narrow).told ≡ on_close ∷ on_data [] ∷ on_initiative_close ∷ [])
    × ((on_read zeros strict three 1 narrow).status ≡ disconnected)
    × (contents (on_read zeros strict three 1 narrow).input ≡ [])
unfolding Buffer.Memory.slice
on_read_overflow_example =
    on_read_overflow zeros strict three 1 narrow (ground arith) (omega arith) (omega arith) refl
