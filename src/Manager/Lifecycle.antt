-- ===== src/Manager/Lifecycle.antt =====
-- The connections that a Manager knows, from creation to close.
use lin_socket_io.Base.{
  ◌⊎◌, ℕ, ◌+◌, ◌*◌, ◌<◌, ◌≡◌, refl, sym, ap, ◌∙◌, ◌↔◌, inl, inr, true, false, none, some, List, [],
  ◌∷◌, ◌++◌, append-nil, arith, ◌==◌, if◌then◌else◌, ==_iff, Bool-cases, length, insert,
  find-insert, find-remove, length-insert_new,
}
use lin_socket_io.Manager.{
  Status, Connection, Event, on_connected, on_close, on_initiative_close, Manager, u32_mod,
  add_connection, remove_connection, get_connection, call, is_socket_error, is_established, client,
  register_client, create_tcp_client, create_tcp_connection, on_close_connection,
  on_initiative_close_connection,
}
use lin_socket_io.Manager.Ids.{get_connection_id_free}

-- `m'` is `m` with the connection `c` under an id that was free, and the calls `es` made.
pub record Registered (m : Manager) (c : Connection) (es : List Event) (m' : Manager) : Type 0 where
  pub id_pos : 0 < c.conn_id
  pub was_free : get_connection m c.conn_id ≡ none
  pub is_there : get_connection m' c.conn_id ≡ some c
  pub table :
      (id : ℕ) → get_connection m' id ≡ (if c.conn_id == id then some c else get_connection m id)
  pub one_more : length m'.connections ≡ length m.connections + 1
  pub calls : m'.events ≡ m.events ++ es

pub add_connection_new :
    (m : Manager) (c : Connection)
    → get_connection m c.conn_id ≡ none
    → add_connection m c ≡ (record m { connections = insert c.conn_id c m.connections }, true)
unfolding add_connection get_connection
add_connection_new m c h = rw (h, add_connection)

-- addConnection says no exactly to another object under an id in use, and changes nothing then.
pub add_connection_rejects :
    (m : Manager) (c old : Connection)
    → get_connection m c.conn_id ≡ some old
    → ((add_connection m c).1 ≡ true ↔ (old.ptr ≡ c.ptr)) × ((add_connection m c).0 ≡ m)
unfolding add_connection get_connection
add_connection_rejects m c old h = rw (h, add_connection) (==_iff old.ptr c.ptr, refl)

pub insert-Registered :
    (m m' : Manager) (c : Connection) (es : List Event)
    → 0 < c.conn_id
    → get_connection m c.conn_id ≡ none
    → m'.connections ≡ insert c.conn_id c m.connections
    → m'.events ≡ m.events ++ es
    → Registered m c es m'
unfolding get_connection
insert-Registered m m' c es pos free e es' = record {
  id_pos = pos;
  was_free = free;
  is_there = rw e (ground (arith, find-insert c.conn_id c.conn_id c m.connections));
  table = λ id. rw e (find-insert c.conn_id id c m.connections);
  one_more = ap length e ∙ length-insert_new c.conn_id c m.connections free;
  calls = es';
}

-- What is assumed of the ids: the step is a positive uint32_t, and going on by at most twice the step
-- for each connection and two more does not lead round the 32-bit seed.
pub record IdsLast (step : ℕ) (m : Manager) : Type 0 where
  pub step_pos : 0 < step
  pub step_small : step < u32_mod
  pub room : (length m.connections + 2) * (2 * step) < u32_mod

register_client_failed :
    (m : Manager) (c : Connection)
    → is_socket_error c.status ≡ true
    → register_client m c ≡ (call m (on_close c.handler c.ptr), 0)
unfolding register_client
register_client_failed m c h = rw h

register_client_kept :
    (m : Manager) (c : Connection)
    → is_socket_error c.status ≡ false
    → get_connection m c.conn_id ≡ none
    → register_client m c ≡ (record m { connections = insert c.conn_id c m.connections }, c.conn_id)
unfolding register_client
register_client_kept m c h free = rw (h, add_connection_new m c free)

module _ (step : ℕ) (m : Manager) (ids : IdsLast step m) (ptr handler : ℕ) where
  -- createTcpClient returns. A connection whose socket failed is not kept: the result is 0, its
  -- handler hears of the close, and the table is as before. Any other is registered under the id
  -- that is returned, which was free and is not 0, and no handler is called.
  pub create_tcp_client_lem :
      (status : Status)
      → (m' : Manager) × (id : ℕ) × (create_tcp_client step m ptr status handler ≡ some (m', id))
        × (((is_socket_error status ≡ true)
              × (id ≡ 0)
              × (m'.connections ≡ m.connections)
              × (m'.events ≡ m.events ++ on_close handler ptr ∷ []))
            ⊎ ((is_socket_error status ≡ false)
                × Registered m (client ptr id status handler) [] m'))
  unfolding create_tcp_client register_client
  create_tcp_client_lem status =
      let (id, e, pos, small, free) =
        get_connection_id_free step m ids.step_pos ids.step_small ids.room in
      let c = client ptr id status handler in
      let m1 : Manager = record m { seed = id } in
      elim (Bool-cases (is_socket_error status)) [
        | inl bad ↦ (
          call m1 (on_close handler ptr),
          0,
          rw (e, create_tcp_client) (ap some (register_client_failed m1 c bad)),
          inl (bad, refl, refl, refl),
        )
        | inr good ↦ (
          record m1 { connections = insert id c m.connections },
          id,
          rw (e, create_tcp_client)
              (ap some (register_client_kept m1 c good (unfold get_connection in free))),
          inr (good, insert-Registered m _ c [] pos free refl (sym (append-nil m.events))),
        )
      ]

  -- createTcpConnection returns. Unless the constructor has established the connection, the result is
  -- 0 and table and calls are as before. Otherwise the connection is registered under the id that is
  -- returned, which was free and is not 0, and after that its handler is told.
  pub create_tcp_connection_lem :
      (status : Status)
      → (m' : Manager) × (id : ℕ) × (create_tcp_connection step m ptr status handler
          ≡ some (m', id))
        × (((is_established status ≡ false)
              × (id ≡ 0)
              × (m'.connections ≡ m.connections)
              × (m'.events ≡ m.events))
            ⊎ ((is_established status ≡ true)
                × Registered m (client ptr id status handler) (on_connected handler ptr ∷ []) m'))
  unfolding create_tcp_connection
  create_tcp_connection_lem status =
      let (id, e, pos, small, free) =
        get_connection_id_free step m ids.step_pos ids.step_small ids.room in
      let c = client ptr id status handler in
      let m1 : Manager = record m { seed = id } in
      elim (Bool-cases (is_established status)) [
        | inl good ↦ (
          call (record m1 { connections = insert id c m.connections }) (on_connected handler ptr),
          id,
          rw (e, create_tcp_connection)
              (rw (good, add_connection_new m1 c (unfold get_connection in free))),
          inr (good, insert-Registered m _ c (on_connected handler ptr ∷ []) pos free refl refl),
        )
        | inr bad ↦ (m1, 0, rw (e, create_tcp_connection) (rw bad), inl (bad, refl, refl, refl))
      ]

-- After a close of either kind its id is free, all other ids are as before, and the connection's
-- handler has had one call, of that kind, made while it was still registered.
pub close_lem :
    (m : Manager) (c : Connection) (id : ℕ)
    → (get_connection (on_close_connection m c) id
        ≡ (if c.conn_id == id then none else get_connection m id))
      × (get_connection (on_initiative_close_connection m c) id
          ≡ (if c.conn_id == id then none else get_connection m id))
      × ((on_close_connection m c).events ≡ m.events ++ on_close c.handler c.ptr ∷ [])
      × ((on_initiative_close_connection m c).events
          ≡ m.events ++ on_initiative_close c.handler c.ptr ∷ [])
unfolding on_close_connection on_initiative_close_connection get_connection remove_connection
close_lem m c id =
    (find-remove c.conn_id id m.connections, find-remove c.conn_id id m.connections, refl, refl)
