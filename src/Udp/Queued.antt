-- ===== src/Udp/Queued.antt =====
-- The datagrams of a UdpConnection of core/udp_connection.cpp: those that ::send has taken, and those that
-- are queued behind them.
use lin_socket_io.Base.{
  ℕ, zero, suc, ◌≡◌, refl, sym, ap, ◌∙◌, ◌⊎◌, inl, inr, Bool, true, false, not, List, [], ◌∷◌, ◌++◌,
  append_assoc, append-nil, arith, Bytes, length, take, ok, err,
}
use lin_socket_io.Socket
use lin_socket_io.Socket.{
  Socket, Events, Sent, count, send_failed, sel_none, sel_read, sel_write, sel_rw, sel_all, join,
  minus,
}
use lin_socket_io.Socket.Selecting.{IsUsable, select-IsUsable}
use lin_socket_io.Tcp.Stream.{take_all}
use lin_socket_io.Udp.{
  UdpConnection, Sends, Outcome, empty, set_socket, select, sent, emptied, flush_sent, flush_queue,
}

-- all datagrams, in order
abbrev pub datagrams : UdpConnection → List Bytes
datagrams c = c.wire ++ c.output

-- ::send takes a datagram whole, or it takes nothing.
abbrev pub IsWhole : Sends → Type 0
IsWhole net =
    (d : Bytes) (ds : List Bytes) (n : ℕ) → net (d ∷ ds) ≡ count n → (n ≡ 0) ⊎ (n ≡ length d)

-- what a connection has selected: reading, and writing while something is queued
abbrev pub wanted : UdpConnection → Events
wanted c = record { reads = true; writes = not (empty c.output) }

-- A step that adds the datagrams `xs`, and keeps the socket in order.
pub record Steady (c : UdpConnection) (xs : List Bytes) (d : UdpConnection) : Type 0 where
  pub grown : datagrams d ≡ datagrams c ++ xs
  pub usable : IsUsable d.socket
  pub connected : d.socket.connected ≡ c.socket.connected
  pub status : d.status ≡ c.status
  pub timer : d.timer ≡ c.timer
  pub timeout : d.timeout ≡ c.timeout
  pub still_wanted : c.socket.selevent ≡ wanted c → d.socket.selevent ≡ wanted d

pub select_lem :
    (c : UdpConnection) (old add : Events)
    → IsUsable c.socket
    → (s : Socket) × (select c old add ≡ (record c { socket = s }, ok tt))
      × (s.selevent ≡ join (minus c.socket.selevent old) add)
      × (s.connected ≡ c.socket.connected)
      × IsUsable s
unfolding select set_socket
select_lem c old add u =
    let (s, e, sel, conn, usable) = select-IsUsable c.socket old add u in
    (s, rw e refl, sel, conn, usable)

pub Steady-refl : (c : UdpConnection) → IsUsable c.socket → Steady c [] c
Steady-refl c u = record {
  grown = sym (append-nil (datagrams c));
  usable = u;
  connected = refl;
  status = refl;
  timer = refl;
  timeout = refl;
  still_wanted = λ e. e;
}

pub Steady-trans :
    (c d e : UdpConnection) (xs ys : List Bytes)
    → Steady c xs d
    → Steady d ys e
    → Steady c (xs ++ ys) e
Steady-trans c d e xs ys p q = record {
  grown = q.grown ∙ ap (λ s. s ++ ys) p.grown ∙ append_assoc (datagrams c) xs ys;
  usable = q.usable;
  connected = q.connected ∙ p.connected;
  status = q.status ∙ p.status;
  timer = q.timer ∙ p.timer;
  timeout = q.timeout ∙ p.timeout;
  still_wanted = λ w. q.still_wanted (p.still_wanted w);
}

-- what flush answers
abbrev pub Answer : Outcome Bool → Type 0
Answer (d, ok b) = b ≡ (empty d.output)
Answer (d, err e) = Unit

pub whole : (d : Bytes) (n : ℕ) → (suc n ≡ 0) ⊎ (suc n ≡ length d) → take (suc n) d ≡ d
whole d n (inl e) = absurd (omega (arith, e))
whole d n (inr e) = ap (λ k. take k d) e ∙ take_all d

-- The first datagram moves from the queue to the wire.
moved :
    (wire output rest : List Bytes) (dat d : Bytes)
    → output ≡ dat ∷ rest
    → d ≡ dat
    → (wire ++ d ∷ []) ++ rest ≡ (wire ++ output) ++ []
moved wire output rest dat d e same =
    append_assoc wire (d ∷ []) rest
    ∙ ap (λ x. wire ++ x ∷ rest) same
    ∙ ap (◌++◌ wire) (sym e)
    ∙ sym (append-nil (wire ++ output))

module _ (c : UdpConnection) (dat : Bytes) (n : ℕ) (u : IsUsable c.socket)
    (taken : (suc n ≡ 0) ⊎ (suc n ≡ length dat)) where
  -- the last datagram
  last_sent :
      (next : UdpConnection → Outcome Bool)
      → c.output ≡ dat ∷ []
      → Steady c [] (flush_sent c dat [] next (ok (suc n))).0
        × Answer (flush_sent c dat [] next (ok (suc n)))
  unfolding flush_sent emptied
  last_sent next e =
      let d = record (sent c dat (suc n)) { output = [] } in
      let (s, done, sel, conn, usable) = select_lem d sel_write sel_none u in
      rw done (
        record {
          grown = moved c.wire c.output [] dat _ e (whole dat n taken);
          usable = usable;
          connected = conn;
          status = refl;
          timer = refl;
          timeout = refl;
          still_wanted = λ w.
              sel
              ∙ ap (λ ev. join (minus ev sel_write) sel_none)
                  (w ∙ ap (λ ds. record { reads = true; writes = not (empty ds) }) e);
        },
        refl,
      )

  -- another one
  first_sent :
      (next : Bytes) (rest : List Bytes)
      → c.output ≡ dat ∷ next ∷ rest
      → Steady c [] (record (sent c dat (suc n)) { output = next ∷ rest })
  first_sent next rest e = record {
    grown = moved c.wire c.output (next ∷ rest) dat _ e (whole dat n taken);
    usable = u;
    connected = refl;
    status = refl;
    timer = refl;
    timeout = refl;
    still_wanted = λ w. w ∙ ap (λ ds. record { reads = true; writes = not (empty ds) }) e;
  }

module _ (net : Sends) (honest : IsWhole net) where
  -- Flushing changes no datagram and their order, and its answer is right.
  pub flush_queue_lem :
      (ds : List Bytes) (c : UdpConnection)
      → c.output ≡ ds
      → IsUsable c.socket
      → Steady c [] (flush_queue net c ds).0 × Answer (flush_queue net c ds)
  unfolding flush_queue flush_sent Socket.send
  flush_queue_lem [] c e u = (Steady-refl c u, rw e refl)
  flush_queue_lem (dat ∷ rest) c e u =
      loop rest e (λ d e'. flush_queue_lem rest d e') (net (dat ∷ rest)) (honest dat rest)
    where
      loop :
          (ds : List Bytes)
          → c.output ≡ dat ∷ ds
          → ((d : UdpConnection)
              → d.output ≡ ds
              → IsUsable d.socket
              → Steady d [] (flush_queue net d ds).0 × Answer (flush_queue net d ds))
          → (s : Sent) → ((n : ℕ) → s ≡ count n → (n ≡ 0) ⊎ (n ≡ length dat))
          → Steady c [] (flush_sent c dat ds (λ d. flush_queue net d ds) (Socket.send s)).0
            × Answer (flush_sent c dat ds (λ d. flush_queue net d ds) (Socket.send s))
      loop [] e' next (count (suc n)) taken =
          last_sent c dat n u (taken (suc n) refl) (λ d. flush_queue net d []) e'
      loop (d ∷ ds) e' next (count (suc n)) taken =
          let first = first_sent c dat n u (taken (suc n) refl) d ds e' in
          let (rest, answer) = next (record (sent c dat (suc n)) { output = d ∷ ds }) refl u in
          (Steady-trans c _ _ [] [] first rest, answer)
      loop ds e' next (count zero) taken = (Steady-refl c u, rw e' refl)
      loop ds e' next (send_failed true) taken = (Steady-refl c u, rw e' refl)
      loop ds e' next (send_failed false) taken = (Steady-refl c u, tt)
