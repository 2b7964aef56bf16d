-- ===== src/Scheduler/Runs.antt =====
-- Runs of a scheduler with two IO workers.
use lin_socket_io.Base.{ℕ, ◌%◌, ◌≡◌, refl, true, false, [], ◌∷◌, arith, find}
use lin_socket_io.Queue.{Pipe, init}
use lin_socket_io.Manager.{Manager, get_connection_id, free_id, next_seed}
use lin_socket_io.Scheduler.{Worker, Scheduler, index_of}
use lin_socket_io.Scheduler.Routing.{get_connection_id-index_of}

abbrev pipe : Pipe
pipe = record { waiting = 0; capacity = 65536; closed = false }

abbrev worker : ℕ → Worker
worker i = record { worker_id = i; queue_limit = 100; queue = init pipe }

abbrev scheduler : Scheduler
scheduler = record { quit = false; workers = worker 0 ∷ worker 1 ∷ worker 2 ∷ []; deleted = [] }

abbrev stopping : Scheduler
stopping = record scheduler { quit = true }

abbrev manager : Manager
manager = record { connections = []; seed = 1; events = [] }

get_connection_id-index_of_example : (index_of 3 3 ≡ 2) × (3 % 2 ≡ 1)
unfolding get_connection_id free_id next_seed find
get_connection_id-index_of_example =
    get_connection_id-index_of 2 2 3 manager (record manager { seed = 3 }) (omega arith)
      (omega arith) (omega arith) (omega arith) refl (omega arith) refl
