-- ===== src/Scheduler.antt =====
-- Scheduler of core/scheduler.h and core/scheduler.cpp, and Worker::addTask and Worker::onSignals of
-- core/worker.cpp. A task is a number. Logging is left out, and a worker's thread is the consumer of
-- Queue/Wakeup.antt.
pub mod Routing
mod Runs
use lin_socket_io.Base.{
  ℕ, zero, suc, ◌+◌, ◌-◌, ◌%◌, ◌^◌, Bool, true, false, Option, none, some, List, [], ◌∷◌, ◌++◌, ltb,
  ◌==◌, if◌then◌else◌, length, get_elem?,
}
use lin_socket_io.Queue
use lin_socket_io.Queue.{Queue}

pub record Worker : Type 0 where
  pub worker_id : ℕ
  pub queue_limit : ℕ
  pub queue : Queue ℕ

-- Worker::addTask. The test and the push each hold the lock of the queue, and no other producer is
-- taken to come in between.
pub add_task : Worker → ℕ → Worker × Bool
add_task w c =
    if ltb w.queue_limit (Queue.size w.queue)
    then (w, false)
    else (record w { queue = Queue.push w.queue c }, true)

-- What becomes of a task that is run: it returns true and keeps itself, returns false, or throws.
pub data Outcome : Type 0 where
  keeps finished throws : Outcome

-- the loop of Worker::onSignals: the tasks that it deletes, in order; 0 is the null pointer
pub run_tasks : (ℕ → Outcome) → List ℕ → List ℕ
run_tasks run [] = []
run_tasks run (c ∷ cs) =
    let deletes = elim (run c) as (λ o. List ℕ) [
      | keeps ↦ []
      | finished ↦ c ∷ []
      | throws ↦ c ∷ []
    ] in
    (if c == 0 then [] else deletes) ++ run_tasks run cs

pub on_signals : (ℕ → Outcome) → Worker → Worker × List ℕ
on_signals run w = let (q, cs) = Queue.get w.queue in (record w { queue = q }, run_tasks run cs)

pub record Scheduler : Type 0 where
  pub quit : Bool
  pub workers : List Worker
  -- the tasks that the scheduler has deleted
  pub deleted : List ℕ

abbrev pub set_worker : List Worker → ℕ → Worker → List Worker
set_worker [] i w = []
set_worker (x ∷ xs) zero w = w ∷ xs
set_worker (x ∷ xs) (suc i) w = x ∷ set_worker xs i w

abbrev pub discard : Scheduler → ℕ → Scheduler × Bool
discard s c = (record s { deleted = s.deleted ++ c ∷ [] }, false)

-- `_workers[index]->addTask(c)`, with `delete c` where it says no; `none` is an index out of range.
pub add_at : Scheduler → ℕ → ℕ → Option (Scheduler × Bool)
add_at s index c = elim (get_elem? s.workers index) [
  | none ↦ none
  | some worker ↦
      let (w, added) = add_task worker c in
      some
        (if added then (record s { workers = set_worker s.workers index w }, true) else discard s c)
]

-- schedule(Task*)
pub schedule_main : Scheduler → ℕ → Option (Scheduler × Bool)
schedule_main s c =
    if s.quit
    then some (discard s c)
    else if length s.workers == 0
    then some (discard s c)
    else add_at s 0 c

-- `hashkey % (_workers.size()-1) + 1`
pub index_of : ℕ → ℕ → ℕ
index_of hashkey workers = (hashkey % (workers - 1) + 1) % 2 ^ 32

-- schedule(hashkey, Task*)
pub schedule : Scheduler → ℕ → ℕ → Option (Scheduler × Bool)
schedule s hashkey c =
    if s.quit
    then some (discard s c)
    else if ltb (length s.workers) 2
    then some (discard s c)
    else add_at s (index_of hashkey (length s.workers)) c

-- stop(): the tasks in the queues go with the workers, whose destructors delete them.
pub queued : List Worker → List ℕ
queued [] = []
queued (w ∷ ws) = w.queue.messages ++ queued ws

pub stop : Scheduler → Scheduler
stop s = record { quit = true; workers = []; deleted = s.deleted ++ queued s.workers }
