-- ===== src/Queue/Wakeup/Runs.antt =====
-- Runs of the queue over a pipe of one page.
use lin_socket_io.Base.{ℕ, ◌≡◌, refl, ◌≢◌, true, false, [], ◌∷◌, arith}
use lin_socket_io.Queue.{read_all, is_empty, notify, Pipe, init, push}
use lin_socket_io.Queue.Wakeup.{
  wake, produce, here, next, queued_wakes, Reach, Reach-IsLive, IsLive, start, System,
}

abbrev pipe : Pipe
pipe = record { waiting = 0; capacity = 65536; closed = false }

-- Two pushes, and the consumer has read the signal but not yet taken the queue.
abbrev woken : System ℕ
woken = record {
  queue = record { messages = 5 ∷ 6 ∷ []; pipe = pipe; force = false };
  reading = true;
  pushed = 5 ∷ 6 ∷ [];
  taken = [];
}

woken-Reach : Reach (start pipe) woken
unfolding start init push notify is_empty read_all
woken-Reach = next (next (next here (produce 5)) (produce 6)) (wake refl (omega arith))

Reach-IsLive_example : IsLive woken
Reach-IsLive_example = Reach-IsLive pipe refl (omega arith) woken-Reach

woken-queued : woken.queue.messages ≢ []
woken-queued h = cc

queued_wakes_example :
    (u : System ℕ) × Reach woken u × (u.taken ≡ 5 ∷ 6 ∷ []) × (u.queue.messages ≡ [])
queued_wakes_example = queued_wakes pipe refl (omega arith) woken-Reach woken-queued
