-- ===== src/Manager/Udp.antt =====
-- ISocketManager of core/connection.h, the peers that a UDP listener knows, and createUdpConnection of
-- core/manager.cpp. Each operation holds the spin lock, so it is one step.
pub mod Datagrams
mod Runs
use lin_socket_io.Base.{
  Bytes, length, take, ℕ, ◌*◌, ◌%◌, ◌^◌, bit_or, Bool, true, false, not, Option, none, some, ◌==◌,
  if◌then◌else◌, Table, find, insert, remove,
}
use lin_socket_io.Manager.{
  Manager, Connection, Status, Event, on_connected, on_data, count_recv, get_connection,
  get_connection_id, add_connection, call, client, is_established,
}

-- `((uint64_t)peerIp<<32) | peerPort`, for a port that is not negative
pub peer_key : ℕ → ℕ → ℕ
peer_key ip port = bit_or port (ip * 2 ^ 32 % 2 ^ 64)

-- the socket of a peer, and the id of its connection, 0 for none
pub record Peer : Type 0 where
  pub socket : ℕ
  pub conn_id : ℕ

-- `_sockets`
abbrev pub SocketManager : Type 0
SocketManager = Table Peer

-- find: 0 for a peer that is not known
pub find_socket : SocketManager → ℕ → ℕ → ℕ
find_socket l ip port = elim (find (peer_key ip port) l) [ none ↦ 0 | some peer ↦ peer.socket ]

pub add_socket : SocketManager → ℕ → ℕ → ℕ → SocketManager
add_socket l ip port s = insert (peer_key ip port) (record { socket = s; conn_id = 0 }) l

pub remove_socket : SocketManager → ℕ → ℕ → SocketManager
remove_socket l ip port = remove (peer_key ip port) l

pub set_conn_id : SocketManager → ℕ → ℕ → ℕ → SocketManager × Bool
set_conn_id l ip port id = elim (find (peer_key ip port) l) [
  | none ↦ (l, false)
  | some peer ↦ (insert (peer_key ip port) (record peer { conn_id = id }) l, true)
]

pub get_conn_id : SocketManager → ℕ → ℕ → ℕ
get_conn_id l ip port = elim (find (peer_key ip port) l) [ none ↦ 0 | some peer ↦ peer.conn_id ]

-- `if(curConnId)` and its connection
pub known : Manager → ℕ → Option Connection
known m id = if id == 0 then none else get_connection m id

-- what `data.data()` and `(uint32_t)data.size()` give the handler
abbrev pub passed : Bytes → Bytes
passed dat = take (length dat % 2 ^ 32) dat

-- the part of createUdpConnection behind getConnectionId
pub register_udp :
    Manager → SocketManager → ℕ → ℕ → Connection → Bytes → Manager × SocketManager × ℕ
register_udp m l ip port conn dat =
    let l' = (set_conn_id l ip port conn.conn_id).0 in
    let (m', added) = add_connection m conn in
    let told =
      call
        (call (call m' (on_connected conn.handler conn.ptr))
          (on_data conn.handler conn.ptr (passed dat)))
        (count_recv conn.ptr (length dat % 2 ^ 32)) in
    if not (is_established conn.status)
    then (m, l, 0)
    else if added
    then (told, l', conn.conn_id)
    else (m', l', 0)

-- `none`: getConnectionId does not return
module _ (step : ℕ) where
  pub create_udp_connection :
      Manager
      → SocketManager
      → ℕ
      → ℕ
      → Bytes
      → ℕ
      → Status
      → ℕ
      → Option (Manager × SocketManager × ℕ)
  create_udp_connection m l ip port dat ptr status handler =
      elim (known m (get_conn_id l ip port)) [
        | some conn ↦
            some (call m (on_data conn.handler conn.ptr (passed dat)), l, get_conn_id l ip port)
        | none ↦ elim (get_connection_id step m) [
          | none ↦ none
          | some (id, m') ↦ some (register_udp m' l ip port (client ptr id status handler) dat)
        ]
      ]
