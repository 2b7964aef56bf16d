-- ===== src/Manager/Udp/Runs.antt =====
-- Runs of a listener that knows one peer, on the manager of IO thread 1 of 3.
use lin_socket_io.Base.{Bytes, ℕ, ◌≡◌, refl, none, some, [], ◌∷◌, arith, find}
use lin_socket_io.Manager.{Manager, Status, established, client, call, on_data}
use lin_socket_io.Manager.Lifecycle.{IdsLast, Registered}
use lin_socket_io.Manager.Udp.{
  Peer, SocketManager, peer_key, get_conn_id, known, passed, create_udp_connection,
}
use lin_socket_io.Manager.Udp.Datagrams.{create_udp_connection_lem, first_events}

abbrev manager : Manager
manager = record { connections = []; seed = 1; events = [] }

manager-IdsLast : IdsLast 3 manager
manager-IdsLast = record { step_pos = omega arith; step_small = omega arith; room = omega arith }

abbrev peer : Peer
peer = record { socket = 7; conn_id = 0 }

abbrev peers : SocketManager
peers = (peer_key 1 53, peer) ∷ []

peer_found : find (peer_key 1 53) peers ≡ some peer
unfolding find
peer_found = ground arith

peer_new : known manager 0 ≡ none
unfolding known
peer_new = refl

abbrev greeting : Bytes
greeting = 104 ∷ 105 ∷ []

create_udp_connection_lem_example :
    (m' : Manager) × (l' : SocketManager) × (id : ℕ) × (create_udp_connection 3 manager peers 1 53
        greeting 2000 established 9
      ≡ some (m', l', id))
    × Registered manager (client 2000 id established 9) (first_events 9 2000 greeting) m'
    × (get_conn_id l' 1 53 ≡ id)
    × ((next : Bytes) (ptr' handler' : ℕ) (status : Status)
        → create_udp_connection 3 m' l' 1 53 next ptr' status handler'
          ≡ some (call m' (on_data 9 2000 (passed next)), l', id))
create_udp_connection_lem_example =
    create_udp_connection_lem 3 manager peers 1 53 greeting 2000 9 peer manager-IdsLast peer_found
      peer_new
