-- ===== src/Manager.antt =====
-- class Manager of core/manager.h and core/manager.cpp: the connections of one IO thread by id. Logging
-- is left out. Callbacks are recorded in their order; that one of them calls the manager again is not
-- modelled.
pub mod Ids
pub mod Residue
pub mod Lifecycle
pub mod Udp
mod Runs
use lin_socket_io.Base.{
  Bytes, ℕ, zero, suc, ◌+◌, ◌%◌, ◌^◌, Bool, true, false, not, Option, none, some, List, [], ◌∷◌,
  ◌++◌, ◌==◌, if◌then◌else◌, length, Table, find, insert, remove,
}

-- IConnection::Status
pub data Status : Type 0 where
  connectting established disconnected socket_error : Status

-- What the manager sees of an IConnection: its address, its id, its status and its handler.
pub record Connection : Type 0 where
  pub ptr : ℕ
  pub conn_id : ℕ
  pub status : Status
  pub handler : ℕ

-- a call of an IClientHandler, with the handler and the connection that it is given, and the data of
-- onData; and `_recvBytes += n` of a connection, which wraps at 2^64
pub data Event : Type 0 where
  on_connected on_close on_initiative_close : ℕ → ℕ → Event
  on_data : ℕ → ℕ → Bytes → Event
  count_recv : ℕ → ℕ → Event

pub record Manager : Type 0 where
  pub connections : Table Connection
  pub seed : ℕ
  pub events : List Event

abbrev pub u32_mod : ℕ
u32_mod = 2 ^ 32

-- `_step` is static; `init(step)` sets it.
module _ (step : ℕ) where
  pub init : ℕ → Manager
  init id = record { connections = []; seed = id % step; events = [] }

  -- one round of the loop of getConnectionId, up to its test
  unfoldable pub next_seed : ℕ → ℕ
  next_seed seed =
      let first = (seed + step) % u32_mod in if first == 0 then (first + step) % u32_mod else first

  -- the loop of getConnectionId; `none` when the fuel runs out
  unfoldable pub free_id : ℕ → ℕ → Table Connection → Option ℕ
  free_id zero seed connections = none
  free_id (suc fuel) seed connections = elim (find (next_seed seed) connections) [
    | none ↦ some (next_seed seed)
    | some c ↦ free_id fuel (next_seed seed) connections
  ]

  -- Two rounds more than there are connections.
  unfoldable pub get_connection_id : Manager → Option (ℕ × Manager)
  get_connection_id m = elim (free_id (length m.connections + 2) m.seed m.connections) [
    | none ↦ none
    | some id ↦ some (id, record m { seed = id })
  ]

pub add_connection : Manager → Connection → Manager × Bool
add_connection m conn = elim (find conn.conn_id m.connections) [
  | some old ↦ (m, old.ptr == conn.ptr)
  | none ↦ (record m { connections = insert conn.conn_id conn m.connections }, true)
]

pub remove_connection : Manager → ℕ → Manager
remove_connection m connid = record m { connections = remove connid m.connections }

-- `none` is the null pointer.
pub get_connection : Manager → ℕ → Option Connection
get_connection m connid = find connid m.connections

pub get_connection_size : Manager → ℕ
get_connection_size m = length m.connections % u32_mod

abbrev pub call : Manager → Event → Manager
call m e = record m { events = m.events ++ e ∷ [] }

pub is_socket_error : Status → Bool
is_socket_error socket_error = true
is_socket_error _ = false

pub is_established : Status → Bool
is_established established = true
is_established _ = false

-- createTcpClient and createUdpClient up to the connected callback. `ptr` is where the new object
-- stands, and `status` what its constructor leaves in it.
abbrev pub client : ℕ → ℕ → Status → ℕ → Connection
client ptr id status handler = record {
  ptr = ptr;
  conn_id = id;
  status = status;
  handler = handler;
}

pub register_client : Manager → Connection → Manager × ℕ
register_client m conn =
    if is_socket_error conn.status
    then (call m (on_close conn.handler conn.ptr), 0)
    else let (m', added) = add_connection m conn in if added then (m', conn.conn_id) else (m', 0)

module _ (step : ℕ) where
  -- `none`: getConnectionId does not return.
  pub create_tcp_client : Manager → ℕ → Status → ℕ → Option (Manager × ℕ)
  create_tcp_client m ptr status handler = elim (get_connection_id step m) [
    | none ↦ none
    | some (id, m') ↦ some (register_client m' (client ptr id status handler))
  ]

  pub create_tcp_connection : Manager → ℕ → Status → ℕ → Option (Manager × ℕ)
  create_tcp_connection m ptr status handler = elim (get_connection_id step m) [
    | none ↦ none
    | some (id, m') ↦
        let conn = client ptr id status handler in
        let (m'', added) = add_connection m' conn in
        some (
          if not (is_established status)
          then (m', 0)
          else if added
          then (call m'' (on_connected handler ptr), id)
          else (m'', 0))
  ]

  -- handleOnConnected of the new connection calls its handler.
  pub create_udp_client : Manager → ℕ → Status → ℕ → Option (Manager × ℕ)
  create_udp_client m ptr status handler = elim (create_tcp_client m ptr status handler) [
    | none ↦ none
    | some (m', id) ↦ some (if id == 0 then (m', id) else (call m' (on_connected handler ptr), id))
  ]

pub on_close_connection : Manager → Connection → Manager
on_close_connection m conn =
    remove_connection (call m (on_close conn.handler conn.ptr)) conn.conn_id

pub on_initiative_close_connection : Manager → Connection → Manager
on_initiative_close_connection m conn =
    remove_connection (call m (on_initiative_close conn.handler conn.ptr)) conn.conn_id
