-- ===== src/Buffer/Runs.antt =====
-- Runs of ByteBuffer at concrete inputs: the three bytes 1, 2, 3 behind a hole of one.
use lin_socket_io.Base.{
  ◌≤◌, ℕ, ◌<◌, ◌≡◌, refl, ◌↔◌, true, false, List, [], ◌∷◌, arith, buffer_overflow, ok, err,
}
use lin_socket_io.Buffer.{
  gc, ByteBuffer, reserve, compact, grow, move_to, alloc, alloc_size, blocked_size,
}
use lin_socket_io.Buffer.Fifo.{Op, append, consume, run_queue, Fits, run, run_refines}
use lin_socket_io.Buffer.Invariant.{IsValid, contents}
use lin_socket_io.Buffer.Memory.{slice, store}
use lin_socket_io.Buffer.Reserve.{Reserved, reserve-Reserved, reserve_throws}
use lin_socket_io.Buffer.Trim.{gc-Compacted, Compacted, compact_zero_hangs}

abbrev zeros : ℕ → ℕ
zeros i = 0

abbrev three : ByteBuffer
three = record {
  mem = λ i. i;
  head = 1;
  tail = 4;
  cap = 1024;
  limit = 8192;
  grow2x = true;
  high_water_mark = 4;
  on_stack = true;
}

three-IsValid : IsValid three
three-IsValid = ground arith

abbrev big : ByteBuffer
big = record three { cap = 8192; on_stack = false }

big-IsValid : IsValid big
big-IsValid = ground arith

abbrev empty : ByteBuffer
empty = record big { tail = 1 }

empty-IsValid : IsValid empty
empty-IsValid = ground arith

reserve-Reserved_example : Reserved three 2000 (move_to zeros three 4096)
unfolding reserve alloc alloc_size grow blocked_size
reserve-Reserved_example =
    reserve-Reserved zeros three (move_to zeros three 4096) 2000 three-IsValid (omega arith) refl

reserve_throws_example :
    (reserve zeros three 9000 ≡ err buffer_overflow) ↔ ((1024 < 9003) × (8192 < 9003))
reserve_throws_example = reserve_throws zeros three 9000 three-IsValid (omega arith)

abbrev five : ByteBuffer
five = record three { mem = store three.mem 4 (8 ∷ 9 ∷ []); tail = 6; high_water_mark = 5 }

compact_zero_hangs_example :
    ((compact zeros empty 0).0.cap ≡ 0) × (grow 100 (compact zeros empty 0).0.cap 1 < 1)
compact_zero_hangs_example =
    compact_zero_hangs zeros empty 100 1 empty-IsValid (omega arith) (omega arith) (omega arith)

abbrev ops : List Op
ops = append (7 ∷ 8 ∷ []) ∷ consume 4 ∷ append (9 ∷ []) ∷ []

ops-Fits : Fits 8192 (contents three) ops
unfolding Fits slice
ops-Fits = ground arith

run_refines_example :
    (out : ByteBuffer) × (run zeros three ops ≡ ok out)
    × IsValid out
    × (contents out ≡ run_queue (contents three) ops)
    × (out.limit ≡ 8192)
run_refines_example = run_refines zeros ops three three-IsValid ops-Fits

gc-Compacted_example : (m : ℕ) × (1024 ≤ m) × Compacted zeros big m (gc zeros big)
gc-Compacted_example = gc-Compacted zeros big big-IsValid
