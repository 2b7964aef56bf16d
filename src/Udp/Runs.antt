-- ===== src/Udp/Runs.antt =====
-- Runs of a UDP connection.
use lin_socket_io.Base.{
  flat_map, ℕ, ◌≡◌, refl, inr, true, false, some, List, [], ◌∷◌, ◌++◌, arith, codes, length,
}
use lin_socket_io.Buffer.{ByteBuffer}
use lin_socket_io.Socket.{count, send_failed, recv_failed, bytes}
use lin_socket_io.Socket.Selecting.{IsUsable}
use lin_socket_io.Tcp.{Handler}
use lin_socket_io.Tcp.Opening.{sel_reads, sel_writes}
use lin_socket_io.Udp.{UdpConnection, Sends, send, flush}
use lin_socket_io.Udp.Blocked.{send-empty_blocks}
use lin_socket_io.Udp.Kept.{IsServed}
use lin_socket_io.Udp.Lifetime.{
  accept_from, connect_to, opened, listening, run_udp-IsServed, run_udp-datagrams,
}
use lin_socket_io.Udp.Opening.{Net, Action, write, shut, ready, run}
use lin_socket_io.Udp.Queued.{IsWhole, Steady}
use lin_socket_io.Udp.Sending.{kept, send_lem}
use lin_socket_io.Buffer

abbrev zeros : ℕ → ℕ
zeros i = 0

abbrev buffer : ByteBuffer
buffer = Buffer.init zeros true

abbrev takes : Sends
takes [] = count 0
takes (d ∷ ds) = count (length d)

abbrev blocks : Sends
blocks ds = send_failed true

takes-IsWhole : IsWhole takes
takes-IsWhole d ds n e = inr (ground (arith, e))

blocks-IsWhole : IsWhole blocks
blocks-IsWhole d ds n e = cc

abbrev all_of : Handler
all_of = record {
  consumes = λ xs. some (length xs);
  connected_throws = false;
  write_throws = false;
}

abbrev open_net : Net
open_net = record {
  sends = takes;
  receives = λ n. bytes (1 ∷ 2 ∷ []);
  connect_fails = false;
  now = 7;
}

abbrev full_net : Net
full_net = record {
  sends = blocks;
  receives = λ n. recv_failed true;
  connect_fails = false;
  now = 5;
}

-- one datagram waits, the next queues behind it, and then both go
abbrev trace : List Action
trace =
    write full_net (codes "a")
    ∷ write open_net (codes "bc")
    ∷ ready open_net sel_reads
    ∷ ready open_net sel_writes
    ∷ shut
    ∷ []

run_udp-IsServed_example :
    (d : UdpConnection) × (run zeros all_of trace (some (opened (accept_from 3 9000) buffer))
      ≡ some d)
    × IsServed d
run_udp-IsServed_example =
    run_udp-IsServed zeros all_of trace (accept_from 3 9000) buffer
      (blocks-IsWhole, (takes-IsWhole, (takes-IsWhole, (takes-IsWhole, (tt, tt)))))

run_udp-datagrams_example :
    (d : UdpConnection) × (run zeros all_of trace (some (opened (connect_to takes 3) buffer))
      ≡ some d)
    × (d.wire ++ d.output ≡ codes "a" ∷ codes "bc" ∷ [])
unfolding flat_map
run_udp-datagrams_example = run_udp-datagrams zeros all_of trace (connect_to takes 3) buffer (
  (blocks-IsWhole, omega arith, λ e. cc),
  ((takes-IsWhole, omega arith, λ e. cc), (takes-IsWhole, (takes-IsWhole, (tt, tt)))),
)

abbrev client : UdpConnection
client = listening 3 0 buffer

client-IsUsable : IsUsable client.socket
client-IsUsable = record { is_valid = refl; sends = refl; receives = refl }

send_lem_example :
    Steady client (kept takes client (codes "abc")) (send takes 4 client (codes "abc"))
send_lem_example = send_lem takes 4 client (codes "abc") takes-IsWhole client-IsUsable refl

abbrev waiting : UdpConnection
waiting = record client { output = (send takes 4 client []).output ++ codes "x" ∷ [] }

send-empty_blocks_example : (flush takes waiting).0 ≡ waiting
send-empty_blocks_example =
    send-empty_blocks takes takes 4 client waiting (codes "x" ∷ []) refl refl refl takes-IsWhole
      refl
