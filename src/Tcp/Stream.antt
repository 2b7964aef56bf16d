-- ===== src/Tcp/Stream.antt =====
-- The bytes that TcpConnection of core/tcp_connection.cpp sends: what ::send has taken, and what the
-- output buffer still holds, in this order.
use lin_socket_io.Buffer.{ByteBuffer}
use lin_socket_io.Base.{
  ◌==◌, io_error, ◌&&◌, Bool-cases, length-drop, take-append-drop, subst, append_assoc, ◌∙◌, ap,
  arith, drop, ◌∷◌, take, err, Error, ◌^◌, append-nil, ◌<◌, ◌⊎◌, Result, ok, sym, [], ℕ, ◌≤◌, ◌≡◌,
  refl, ltb, if_either, inl, inr, ◌++◌, Bytes, length, Result-cases, true, false,
}
use lin_socket_io.Buffer.Contents.{contents-write}
use lin_socket_io.Buffer.Invariant.{IsValid, contents}
use lin_socket_io.Buffer.Memory.{slice}
use lin_socket_io.Socket.{sel_write, sel_none, send_failed, count, Socket, Events, Sent}
use lin_socket_io.Tcp.{
  send_rest, and_then, write_some, finish_send, queue_rest, queue_unsent, set_output, Outcome,
  set_socket, write_output, TcpConnection, select, send,
}
use lin_socket_io.Buffer
use lin_socket_io.Socket
use lin_socket_io.Socket

unfoldable pub stream : TcpConnection → Bytes
stream c = c.wire ++ contents c.output

-- ::send never takes more than it was given.
abbrev pub IsHonest : (Bytes → Sent) → Type 0
IsHonest net = (xs : Bytes) (n : ℕ) → net xs ≡ count n → n ≤ length xs

-- A step that adds `xs` to the stream.
pub record Streamed (c : TcpConnection) (xs : Bytes) (d : TcpConnection) : Type 0 where
  pub still_valid : IsValid d.output
  pub grown : stream d ≡ stream c ++ xs
  pub same_limit : d.output.limit ≡ c.output.limit

-- A call that may throw, whose bytes are in the stream if it returns.
abbrev pub Puts : TcpConnection → Bytes → Outcome Unit → Type 0
Puts c xs (d, r) =
    ((r ≡ ok tt) × Streamed c xs d)
    ⊎ ((e : Error) × (r ≡ err e) × (Streamed c [] d ⊎ Streamed c xs d))

pub Streamed-refl : (c : TcpConnection) → IsValid c.output → Streamed c [] c
unfolding stream
Streamed-refl c v = record {
  still_valid = v;
  grown = sym (append-nil (stream c));
  same_limit = refl;
}

pub set_socket_lem :
    (c d : TcpConnection) (xs : Bytes) (r : Result Socket)
    → Streamed c xs d
    → Puts c xs (set_socket d r)
unfolding set_socket stream
set_socket_lem c d xs (ok s) st =
    inl
      (refl, record { still_valid = st.still_valid; grown = st.grown; same_limit = st.same_limit })
set_socket_lem c d xs (err e) st = inr (e, refl, inr st)

pub Streamed-trans :
    (c d e : TcpConnection) (xs ys : Bytes)
    → Streamed c xs d
    → Streamed d ys e
    → Streamed c (xs ++ ys) e
Streamed-trans c d e xs ys first second = record {
  still_valid = second.still_valid;
  grown = second.grown ∙ ap (λ s. s ++ ys) first.grown ∙ append_assoc (stream c) xs ys;
  same_limit = second.same_limit ∙ first.same_limit;
}

pub take_all : (xs : Bytes) → take (length xs) xs ≡ xs
take_all [] = refl
take_all (x ∷ xs) = ap (◌∷◌ x) (take_all xs)

-- The first part of the data and then the rest.
complete :
    (c b d : TcpConnection) (dat : Bytes) (n : ℕ)
    → Streamed c (take n dat) b
    → Streamed b (drop n dat) d
    → Streamed c (take (length dat) dat) d
complete c b d dat n first rest =
    subst (λ xs. Streamed c xs d) (take-append-drop n dat ∙ sym (take_all dat))
      (Streamed-trans c b d (take n dat) (drop n dat) first rest)

pub no_contents : (b : ByteBuffer) → Buffer.size b ≡ 0 → contents b ≡ []
unfolding slice
no_contents b empty = ap (slice b.mem b.head) empty

module _ (fresh : ℕ → ℕ) (now : ℕ) where
  write_output_lem :
      (c : TcpConnection) (xs : Bytes)
      → IsValid c.output
      → length xs < 2 ^ 32
      → ((write_output fresh now c xs).1 ≡ ok tt × Streamed c xs (write_output fresh now c xs).0)
        ⊎ ((e : Error) × (write_output fresh now c xs ≡ (c, err e)))
  unfolding write_output set_output stream
  write_output_lem c xs v small = elim (Result-cases (Buffer.write fresh c.output xs)) [
    | inl (b, e) ↦
        let (valid, same, limit) =
          contents-write fresh c.output b xs v (omega (arith, v.inside, v.small_cap)) e in
        inl (
          rw e (
            refl,
            record {
              still_valid = valid;
              grown = ap (λ q. c.wire ++ q) same ∙ sym (append_assoc c.wire (contents c.output) xs);
              same_limit = limit;
            },
          ))
    | inr (x, e) ↦ inr (x, rw e refl)
  ]

  -- What ::send has not taken goes to the output buffer.
  queue_rest_lem :
      (c : TcpConnection) (xs : Bytes)
      → IsValid c.output
      → length xs < 2 ^ 32
      → Puts c xs (queue_rest fresh now c xs)
  unfolding queue_rest select
  queue_rest_lem c [] v small = inl (refl, Streamed-refl c v)
  queue_rest_lem c (x ∷ xs) v small = elim (write_output_lem c (x ∷ xs) v small) [
    | inl (e, st) ↦ rest (write_output fresh now c (x ∷ xs)) e st
    | inr (err_, e) ↦ rw e (inr (err_, refl, inl (Streamed-refl c v)))
  ]
    where
      rest :
          (out : Outcome Unit)
          → out.1 ≡ ok tt
          → Streamed c (x ∷ xs) out.0
          → Puts c (x ∷ xs) (and_then out (λ d _. select d sel_none sel_write))
      rest (d, ok _) e st = set_socket_lem c d (x ∷ xs) _ st
      rest (d, err _) e st = cc

  -- As an `int` the size is what it is.
  queue_unsent_lem :
      (c : TcpConnection) (dat : Bytes) (n : ℕ)
      → IsValid c.output
      → length dat < 2 ^ 31
      → Puts c (drop n dat) (queue_unsent fresh now c dat n)
  unfolding queue_unsent
  queue_unsent_lem c dat n v small =
      if_either (Puts c (drop n dat)) (ltb (length dat) (2 ^ 31)) _ _
        (λ _. queue_rest_lem c (drop n dat) v (omega (arith, length-drop n dat)))
        (λ large. ground (arith, large))

  write_some_lem :
      (c : TcpConnection) (xs : Bytes)
      → IsValid c.output
      → length xs < 2 ^ 32
      → Puts c xs (write_some fresh now c xs)
  unfolding write_some
  write_some_lem c [] v small = inl (refl, Streamed-refl c v)
  write_some_lem c (x ∷ xs) v small = elim (write_output_lem c (x ∷ xs) v small) [
    | inl done ↦ inl done
    | inr (err_, e) ↦ rw e (inr (err_, refl, inl (Streamed-refl c v)))
  ]

  -- What send says, and how much of the data is in the stream then.
  pub record Accepted (c : TcpConnection) (dat : Bytes) (out : Outcome ℕ) : Type 0 where
    pub taken : ℕ
    pub taken_le : taken ≤ length dat
    pub streamed : Streamed c (take taken dat) out.0
    pub answer :
        ((taken ≡ length dat) × (out.1 ≡ ok (Buffer.size out.0.output)))
        ⊎ ((e : Error) × (out.1 ≡ err e))

  -- The end of send. The connection `b` has `n` bytes of the data in its stream.
  finish_lem :
      (c b : TcpConnection) (dat : Bytes) (n k : ℕ) (out : Outcome Unit)
      → n ≤ length dat
      → Streamed c (take n dat) b
      → Puts b (drop n dat) out
      → Accepted c dat (and_then out (finish_send fresh now (length dat) k))
  unfolding finish_send stream
  finish_lem c b dat n k (d, ok _) le first (inl (e, st)) = record {
    taken = length dat;
    taken_le = omega arith;
    streamed = record {
      still_valid = st.still_valid;
      grown = (complete c b d dat n first st).grown;
      same_limit = st.same_limit ∙ first.same_limit;
    };
    answer = inl (refl, refl);
  }
  finish_lem c b dat n k (d, err _) le first (inl (e, st)) = cc
  finish_lem c b dat n k (d, ok _) le first (inr (x, e, st)) = cc
  finish_lem c b dat n k (d, err x) le first (inr (_, e, inl st)) = record {
    taken = n;
    taken_le = le;
    streamed =
        subst (λ xs. Streamed c xs d) (append-nil (take n dat)) (Streamed-trans c b d _ _ first st);
    answer = inr (x, refl);
  }
  finish_lem c b dat n k (d, err x) le first (inr (_, e, inr st)) = record {
    taken = length dat;
    taken_le = omega arith;
    streamed = complete c b d dat n first st;
    answer = inr (x, refl);
  }

  -- ::send takes bytes only while the output buffer is empty.
  taken_first :
      (c : TcpConnection) (xs : Bytes)
      → IsValid c.output
      → Buffer.size c.output ≡ 0
      → Streamed c xs (record c { wire = c.wire ++ xs })
  unfolding stream
  taken_first c xs v empty = record {
    still_valid = v;
    grown =
        rw (no_contents c.output empty)
          (append-nil (c.wire ++ xs) ∙ ap (λ w. w ++ xs) (sym (append-nil c.wire)));
    same_limit = refl;
  }

  send_rest_lem :
      (c : TcpConnection) (dat : Bytes) (sent : Sent)
      → IsValid c.output
      → length dat < 2 ^ 31
      → Buffer.size c.output ≡ 0
      → ((n : ℕ) → sent ≡ count n → n ≤ length dat)
      → Accepted c dat (send_rest fresh now c dat (Socket.send sent))
  unfolding send_rest Socket.send
  send_rest_lem c dat (count n) v small empty honest =
      finish_lem c (record c { wire = c.wire ++ take n dat }) dat n n _ (honest n refl)
        (taken_first c (take n dat) v empty)
        (queue_unsent_lem (record c { wire = c.wire ++ take n dat }) dat n v small)
  send_rest_lem c dat (send_failed true) v small empty honest =
      finish_lem c (record c { wire = c.wire ++ [] }) dat 0 0 _ (omega arith)
        (taken_first c [] v empty)
        (queue_unsent_lem (record c { wire = c.wire ++ [] }) dat 0 v small)
  send_rest_lem c dat (send_failed false) v small empty honest = record {
    taken = 0;
    taken_le = omega arith;
    streamed = Streamed-refl c v;
    answer = inr (io_error, refl);
  }

  -- send(data, size) of fewer than 2^31 bytes on a connection with a valid output buffer, over a ::send
  -- that takes no more than it is given. If it returns, all of the data has joined the stream, behind
  -- what was in it, and the result is the size of the output buffer. If it throws, the first bytes of
  -- the data have, all or none or those that ::send has taken.
  pub send-Accepted :
      (net : Bytes → Sent) (c : TcpConnection) (dat : Bytes)
      → IsHonest net
      → IsValid c.output
      → length dat < 2 ^ 31
      → Accepted c dat (send fresh now net c dat)
  unfolding send
  send-Accepted net c dat honest v small =
      elim (Bool-cases (c.socket.connected && Buffer.size c.output == 0)) [
        | inl direct ↦
            rw direct (send_rest_lem c dat (net dat) v small (ground (arith, direct)) (honest dat))
        | inr queued ↦ rw queued (
            finish_lem c c dat 0 0 _ (omega arith) (Streamed-refl c v)
              (write_some_lem c dat v (omega arith)))
      ]
