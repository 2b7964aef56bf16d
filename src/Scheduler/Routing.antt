-- ===== src/Scheduler/Routing.antt =====
-- Where a task goes, and that a connection's id leads to the worker whose manager made it.
use lin_socket_io.Base.{
  ℕ, zero, suc, ◌+◌, ◌-◌, ◌*◌, ◌%◌, ◌^◌, ◌≤◌, ◌<◌, ◌≡◌, refl, ap, ◌∙◌, ◌⊎◌, inl, inr, true, false,
  some, List, [], ◌∷◌, ◌++◌, arith, ◌==◌, if◌then◌else◌, length, get_elem?,
}
use native.Mathlib.Decide.{dec_lt}
use native.Mathlib.Nat.{mod-lt}
use lin_socket_io.Queue
use lin_socket_io.Queue.Wakeup.{push_keeps}
use lin_socket_io.Manager.{Manager, get_connection_id}
use lin_socket_io.Manager.Residue.{get_connection_id-mod}
use lin_socket_io.Scheduler.{
  schedule, discard, add_task, add_at, set_worker, Scheduler, Worker, Worker, set_worker, index_of,
}

module _ {ℓ} {A : Type ℓ} where
  get_elem?_in : (xs : List A) (i : ℕ) → i < length xs → (x : A) × (get_elem? xs i ≡ some x)
  get_elem?_in [] i h = absurd (omega arith)
  get_elem?_in (x ∷ xs) zero h = (x, refl)
  get_elem?_in (x ∷ xs) (suc i) h = get_elem?_in xs i (omega arith)

get_elem?-set_worker :
    (ws : List Worker) (i j : ℕ) (w : Worker)
    → i < length ws
    → get_elem? (set_worker ws i w) j ≡ (if i == j then some w else get_elem? ws j)
get_elem?-set_worker [] i j w h = absurd (omega arith)
get_elem?-set_worker (x ∷ ws) zero zero w h = refl
get_elem?-set_worker (x ∷ ws) zero (suc j) w h = ground arith
get_elem?-set_worker (x ∷ ws) (suc i) zero w h = ground arith
get_elem?-set_worker (x ∷ ws) (suc i) (suc j) w h =
    get_elem?-set_worker ws i j w (omega arith) ∙ ground arith

-- Worker 0 is never chosen, and the index is in range.
index_of_bounds :
    (hashkey n : ℕ) → 2 ≤ n → n ≤ 2 ^ 32 → (0 < index_of hashkey n) × (index_of hashkey n < n)
unfolding index_of
index_of_bounds hashkey n h k = omega (arith, mod-lt hashkey {m = n - 1} (omega arith))

add_task_taken :
    (w : Worker) (c : ℕ)
    → Queue.size w.queue ≤ w.queue_limit
    → add_task w c ≡ (record w { queue = Queue.push w.queue c }, true)
unfolding add_task
add_task_taken w c h = ground arith

add_task_refused :
    (w : Worker) (c : ℕ) → w.queue_limit < Queue.size w.queue → add_task w c ≡ (w, false)
unfolding add_task
add_task_refused w c h = ground arith

-- Where a task goes that a running scheduler of at least two workers is given.
pub record Routed (s : Scheduler) (hashkey c i : ℕ) (w : Worker) : Type 0 where
  pub is_worker : get_elem? s.workers i ≡ some w
  pub not_main : 0 < i
  pub outcome :
      ((Queue.size w.queue ≤ w.queue_limit)
        × ((s' : Scheduler) × (w' : Worker) × (schedule s hashkey c ≡ some (s', true))
            × (w'.queue.messages ≡ w.queue.messages ++ c ∷ [])
            × (s'.deleted ≡ s.deleted)
            × ((j : ℕ)
                → get_elem? s'.workers j ≡ (if i == j then some w' else get_elem? s.workers j))))
      ⊎ ((w.queue_limit < Queue.size w.queue) × (schedule s hashkey c ≡ some (discard s c)))

-- schedule(hashkey, task) on a running scheduler of 2 to 2^32 workers picks a worker other than worker
-- 0 by the key. A queue that is not over its limit gets the task as its last message, and all other
-- queues are as before; otherwise the task is deleted, and nothing else changes.
pub schedule-Routed :
    (s : Scheduler) (hashkey c : ℕ)
    → s.quit ≡ false
    → 2 ≤ length s.workers
    → length s.workers ≤ 2 ^ 32
    → (w : Worker) × Routed s hashkey c (index_of hashkey (length s.workers)) w
unfolding schedule add_at
schedule-Routed s hashkey c runs two most = (
  w,
  record {
    is_worker = found;
    not_main = b.0;
    outcome = elim (dec_lt w.queue_limit (Queue.size w.queue)) [
      | yes over ↦ inr (over, goes ∙ rw (found, add_at, add_task_refused w c over))
      | no fits ↦ inl (omega arith, accepted (omega arith))
    ];
  },
)
  where
    i : ℕ
    i = index_of hashkey (length s.workers)

    b : (0 < i) × (i < length s.workers)
    b = index_of_bounds hashkey (length s.workers) two most

    w : Worker
    w = (get_elem?_in s.workers i b.1).0

    found : get_elem? s.workers i ≡ some w
    found = (get_elem?_in s.workers i b.1).1

    goes : schedule s hashkey c ≡ add_at s i c
    goes = ground arith

    accepted :
        Queue.size w.queue ≤ w.queue_limit
        → (s' : Scheduler) × (w' : Worker) × (schedule s hashkey c ≡ some (s', true))
          × (w'.queue.messages ≡ w.queue.messages ++ c ∷ [])
          × (s'.deleted ≡ s.deleted)
          × ((j : ℕ) → get_elem? s'.workers j ≡ (if i == j then some w' else get_elem? s.workers j))
    accepted room = (
      record s { workers = set_worker s.workers i (record w { queue = Queue.push w.queue c }) },
      record w { queue = Queue.push w.queue c },
      goes ∙ rw (found, add_at, add_task_taken w c room),
      (push_keeps w.queue c).2,
      refl,
      λ j. get_elem?-set_worker s.workers i j _ b.1,
    )

-- A scheduler that is stopping, or has no IO worker, deletes the task and says no.
pub schedule_refused :
    (s : Scheduler) (hashkey c : ℕ)
    → (s.quit ≡ true) ⊎ (length s.workers < 2)
    → schedule s hashkey c ≡ some (discard s c)
unfolding schedule
schedule_refused s hashkey c h = ground arith

-- Ids lead home. With `step` IO threads the scheduler has step + 1 workers, and the manager of worker k
-- starts its seed at k - 1. As long as its 32-bit seed does not wrap, each id that it hands out leads
-- schedule() to worker k, and its next id will too.
pub get_connection_id-index_of :
    (step k id : ℕ) (m m' : Manager)
    → 0 < step
    → step < 2 ^ 32 - 1
    → 0 < k
    → k ≤ step
    → m.seed % step ≡ k - 1
    → m.seed + step * (length m.connections + 2) < 2 ^ 32
    → get_connection_id step m ≡ some (id, m')
    → (index_of id (step + 1) ≡ k) × (m'.seed % step ≡ k - 1)
get_connection_id-index_of step k id m m' pos small k_pos k_le home room e =
    let (same, seed) = get_connection_id-mod step pos m m' id room e in
    (
      unfold index_of in rw (same_step, same, home) (omega arith),
      ap (λ t. t % step) seed ∙ same ∙ home,
    )
  where
    same_step : step + 1 - 1 ≡ step
    same_step = omega arith
