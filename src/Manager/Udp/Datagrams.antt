-- ===== src/Manager/Udp/Datagrams.antt =====
-- The peers of a listener, and where the datagrams of a peer go.
use lin_socket_io.Base.{
  Bytes, List, length, ◌%◌, ◌++◌, ℕ, ◌+◌, ◌*◌, ◌^◌, ◌<◌, ◌≡◌, refl, ap, ◌∙◌, ◌≢◌, ◌⊎◌, true, false,
  none, some, [], ◌∷◌, append_assoc, arith, ◌==◌, find, insert, find-insert,
}
use lin_socket_io.Manager.{
  client, get_connection_id, call, established, is_established, get_connection, Status, Connection,
  Manager, Event,
}
use lin_socket_io.Manager.Ids.{get_connection_id_free}
use lin_socket_io.Manager.Lifecycle.{insert-Registered, Registered, add_connection_new, IdsLast}
use lin_socket_io.Manager.Udp.{
  on_data, on_connected, count_recv, passed, create_udp_connection, known, register_udp, peer_key,
  Peer, SocketManager, find_socket, add_socket, set_conn_id, get_conn_id,
}
use lin_socket_io.Wire.Bits.{bit_or_join}

-- An IPv4 address and a port.
abbrev pub IsPeer : ℕ → ℕ → Type 0
IsPeer ip port = (ip < 2 ^ 32) × (port < 2 ^ 16)

peer_key_sum : (ip port : ℕ) → IsPeer ip port → peer_key ip port ≡ port + 2 ^ 32 * ip
unfolding peer_key
peer_key_sum ip port (h, k) = bit_or_join 32 ip port refl (omega arith) (omega arith)

-- Different peers have different keys.
peer_key-injective :
    (ip port ip' port' : ℕ)
    → IsPeer ip port
    → IsPeer ip' port'
    → peer_key ip port ≡ peer_key ip' port'
    → (ip ≡ ip') × (port ≡ port')
peer_key-injective ip port ip' port' h k e =
    omega (arith, peer_key_sum ip port h, peer_key_sum ip' port' k)

keys_differ :
    (ip port ip' port' : ℕ)
    → IsPeer ip port
    → IsPeer ip' port'
    → (ip ≢ ip') ⊎ (port ≢ port')
    → (peer_key ip port == peer_key ip' port') ≡ false
keys_differ ip port ip' port' h k apart = ground (arith, peer_key-injective ip port ip' port' h k)

find-add_socket :
    (l : SocketManager) (ip port s : ℕ)
    → find (peer_key ip port) (add_socket l ip port s) ≡ some (record { socket = s; conn_id = 0 })
unfolding add_socket
find-add_socket l ip port s = ground (
  arith,
  find-insert (peer_key ip port) (peer_key ip port) (record { socket = s; conn_id = 0 }) l,
)

set_conn_id-some :
    (l : SocketManager) (ip port id : ℕ) (peer : Peer)
    → find (peer_key ip port) l ≡ some peer
    → set_conn_id l ip port id ≡ (insert (peer_key ip port) (record peer { conn_id = id }) l, true)
unfolding set_conn_id
set_conn_id-some l ip port id peer e = rw (e, set_conn_id) refl

-- After setConnId on a peer that is known, getConnId gives the id.
pub get_conn_id-set_conn_id :
    (l : SocketManager) (ip port id : ℕ) (peer : Peer)
    → find (peer_key ip port) l ≡ some peer
    → get_conn_id (set_conn_id l ip port id).0 ip port ≡ id
unfolding get_conn_id
get_conn_id-set_conn_id l ip port id peer e = rw (set_conn_id-some l ip port id peer e) (
    ground
      (arith, find-insert (peer_key ip port) (peer_key ip port) (record peer { conn_id = id }) l))

-- A socket that is added has no connection. After that setConnId succeeds, and getConnId gives the id
-- that was set and find the socket; what is known of a peer with another address or port stays.
pub set_conn_id_lem :
    (l : SocketManager) (ip port s id ip' port' : ℕ)
    → IsPeer ip port
    → IsPeer ip' port'
    → (ip ≢ ip') ⊎ (port ≢ port')
    → let added = add_socket l ip port s in
      let set = set_conn_id added ip port id in
      (get_conn_id added ip port ≡ 0)
      × (set.1 ≡ true)
      × (get_conn_id set.0 ip port ≡ id)
      × (find_socket set.0 ip port ≡ s)
      × (get_conn_id set.0 ip' port' ≡ get_conn_id l ip' port')
      × (find_socket set.0 ip' port' ≡ find_socket l ip' port')
unfolding get_conn_id find_socket add_socket
set_conn_id_lem l ip port s id ip' port' h k apart =
    let new : Peer = record { socket = s; conn_id = 0 } in
    let set : Peer = record { socket = s; conn_id = id } in
    let key = peer_key ip port in
    let key' = peer_key ip' port' in
    rw
      (set_conn_id-some (insert key new l) ip port id new
        (unfold add_socket in find-add_socket l ip port s))
      (ground (
        arith,
        keys_differ ip port ip' port' h k apart,
        find-insert key key new l,
        find-insert key key' new l,
        find-insert key key set (insert key new l),
        find-insert key key' set (insert key new l),
      ))

register_udp_established :
    (m : Manager) (l : SocketManager) (ip port : ℕ) (c : Connection) (dat : Bytes)
    → is_established c.status ≡ true
    → get_connection m c.conn_id ≡ none
    → register_udp m l ip port c dat ≡ (
      call
          (call
            (call
              (record m { connections = insert c.conn_id c m.connections })
              (on_connected c.handler c.ptr))
            (on_data c.handler c.ptr (passed dat)))
          (count_recv c.ptr (length dat % 2 ^ 32)),
      (set_conn_id l ip port c.conn_id).0,
      c.conn_id,
    )
unfolding register_udp
register_udp_established m l ip port c dat good free = rw (good, add_connection_new m c free) refl

get_conn_id_found :
    (l : SocketManager) (ip port : ℕ) (peer : Peer)
    → find (peer_key ip port) l ≡ some peer
    → get_conn_id l ip port ≡ peer.conn_id
unfolding get_conn_id
get_conn_id_found l ip port peer e = rw (e, get_conn_id) refl

-- A datagram of a peer whose connection is registered goes to that connection, and nothing else
-- happens.
create_udp_connection_known :
    (step : ℕ) (m : Manager) (l : SocketManager) (ip port : ℕ) (dat : Bytes) (ptr : ℕ)
    (status : Status) (handler : ℕ) (c : Connection)
    → 0 < get_conn_id l ip port
    → get_connection m (get_conn_id l ip port) ≡ some c
    → create_udp_connection step m l ip port dat ptr status handler
      ≡ some (call m (on_data c.handler c.ptr (passed dat)), l, get_conn_id l ip port)
unfolding create_udp_connection get_conn_id
create_udp_connection_known step m l ip port dat ptr status handler c pos e =
    rw (is_known, create_udp_connection) refl
  where
    is_known : known m (get_conn_id l ip port) ≡ some c
    is_known = unfold known in ground (arith, e)

create_udp_connection_new :
    (step : ℕ) (m m' : Manager) (l : SocketManager) (ip port : ℕ) (dat : Bytes) (ptr : ℕ)
    (status : Status) (handler id : ℕ)
    → known m (get_conn_id l ip port) ≡ none
    → get_connection_id step m ≡ some (id, m')
    → create_udp_connection step m l ip port dat ptr status handler
      ≡ some (register_udp m' l ip port (client ptr id status handler) dat)
unfolding create_udp_connection get_conn_id
create_udp_connection_new step m m' l ip port dat ptr status handler id new e =
    rw (new, create_udp_connection) (rw e refl)

-- What happens to a connection that the datagram `dat` makes.
abbrev pub first_events : ℕ → ℕ → Bytes → List Event
first_events handler ptr dat =
    on_connected handler ptr
    ∷ on_data handler ptr (passed dat)
    ∷ count_recv ptr (length dat % 2 ^ 32)
    ∷ []

-- On a peer whose socket is known and which has no connection, createUdpConnection with an established
-- connection returns. It registers the connection under a free id, tells the handler, gives it the
-- data (the first `size % 2^32` bytes) and counts them; and any next datagram of the peer goes to that
-- connection, with its own data.
pub create_udp_connection_lem :
    (step : ℕ) (m : Manager) (l : SocketManager) (ip port : ℕ) (dat : Bytes) (ptr handler : ℕ)
    (peer : Peer)
    → IdsLast step m
    → find (peer_key ip port) l ≡ some peer
    → known m peer.conn_id ≡ none
    → (m' : Manager) × (l' : SocketManager) × (id : ℕ) × (create_udp_connection step m l ip port dat
          ptr established handler
        ≡ some (m', l', id))
      × Registered m (client ptr id established handler) (first_events handler ptr dat) m'
      × (get_conn_id l' ip port ≡ id)
      × ((next : Bytes) (ptr' handler' : ℕ) (status : Status)
          → create_udp_connection step m' l' ip port next ptr' status handler'
            ≡ some (call m' (on_data handler ptr (passed next)), l', id))
unfolding is_established
create_udp_connection_lem step m l ip port dat ptr handler peer ids e new =
    let (id, got, pos, small, free) =
      get_connection_id_free step m ids.step_pos ids.step_small ids.room in
    let c = client ptr id established handler in
    let l' : SocketManager = (set_conn_id l ip port id).0 in
    let given = on_data handler ptr (passed dat) in
    let counted = count_recv ptr (length dat % 2 ^ 32) in
    let m' : Manager =
      call
        (call
          (call (record m { seed = id; connections = insert id c m.connections })
            (on_connected handler ptr))
          given)
        counted in
    let there = insert-Registered m m' c (first_events handler ptr dat) pos free refl (
      append_assoc (m.events ++ on_connected handler ptr ∷ []) (given ∷ []) (counted ∷ [])
      ∙ append_assoc m.events (on_connected handler ptr ∷ []) (given ∷ counted ∷ [])) in
    let is_set = get_conn_id-set_conn_id l ip port id peer e in
    (
      m',
      l',
      id,
      create_udp_connection_new step m (record m { seed = id }) l ip port dat ptr established
            handler id (ap (known m) (get_conn_id_found l ip port peer e) ∙ new) got
          ∙ ap some (
              register_udp_established (record m { seed = id }) l ip port c dat refl
                (unfold get_connection in free)),
      there,
      is_set,
      λ next ptr' handler' status.
          create_udp_connection_known step m' l' ip port next ptr' status handler' c
            (omega (arith, is_set, pos)) (ap (get_connection m') is_set ∙ there.is_there)
          ∙ ap (λ i. some (call m' (on_data handler ptr (passed next)), l', i)) is_set,
    )
