-- ===== src/Manager/Runs.antt =====
-- Runs of the manager of IO thread 1 of 3, which holds one connection.
use lin_socket_io.Base.{ℕ, ◌<◌, ◌≡◌, none, some, [], ◌∷◌, arith}
use lin_socket_io.Manager.{
  Manager, Connection, established, get_connection, get_connection_id, client, u32_mod,
}
use lin_socket_io.Manager.Ids.{get_connection_id_free}
use lin_socket_io.Manager.Lifecycle.{IdsLast}

abbrev first : Connection
first = client 1000 4 established 7

abbrev manager : Manager
manager = record { connections = (4, first) ∷ []; seed = 1; events = [] }

manager-IdsLast : IdsLast 3 manager
manager-IdsLast = record { step_pos = omega arith; step_small = omega arith; room = omega arith }

get_connection_id_free_example :
    (id : ℕ) × (get_connection_id 3 manager ≡ some (id, record manager { seed = id }))
    × (0 < id)
    × (id < u32_mod)
    × (get_connection manager id ≡ none)
get_connection_id_free_example =
    get_connection_id_free 3 manager (omega arith) (omega arith) (omega arith)
