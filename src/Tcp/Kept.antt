-- ===== src/Tcp/Kept.antt =====
-- send of core/tcp_connection.cpp keeps what holds between the events of a connection.
use lin_socket_io.Base.{
  ltb, if_either, ℕ, ◌^◌, ◌<◌, ◌≡◌, refl, sym, ap, ◌∙◌, subst, inl, inr, Bool, true, false, ◌&&◌,
  ◌||◌, not, [], ◌∷◌, ◌++◌, arith, ◌==◌, Bool-cases, Bytes, length, take, drop, length-append,
  length-drop, Result, ok, err, Result-cases,
}
use lin_socket_io.Buffer.{ByteBuffer}
use lin_socket_io.Buffer.Contents.{contents-write, length-contents}
use lin_socket_io.Buffer.Invariant.{IsValid, contents}
use lin_socket_io.Socket.{
  Sent, count, send_failed, Socket, Events, sel_none, sel_write, sel_rw, join, minus,
}
use lin_socket_io.Socket.Selecting.{IsUsable}
use lin_socket_io.Tcp.{
  send, TcpConnection, Outcome, and_then, set_output, write_output, queue_rest, queue_unsent,
  write_some, finish_send, send_rest,
}
use lin_socket_io.Tcp.Served.{IsServed, Steady-IsServed, wanted, select_lem}
use lin_socket_io.Buffer
use lin_socket_io.Socket

-- An update of the times, counters, callbacks and input alone.
pub same-IsServed :
    (c d : TcpConnection)
    → IsServed c
    → d.output ≡ c.output
    → d.socket ≡ c.socket
    → d.status ≡ c.status
    → d.timer ≡ c.timer
    → d.timeout ≡ c.timeout
    → IsServed d
same-IsServed c d served output socket status timer timeout = record {
  valid = subst IsValid (sym output) served.valid;
  usable = subst IsUsable (sym socket) served.usable;
  polls = λ e.
      let (conn, sel) = served.polls (sym status ∙ e) in
      (
        ap (λ s. s.connected) socket ∙ conn,
        ap (λ s. s.selevent) socket
            ∙ sel
            ∙ ap (λ b. record { reads = true; writes = not (Buffer.size b == 0) }) (sym output),
      );
  alarmed = elim served.alarmed [
    | inl t ↦ inl (timer ∙ t)
    | inr (inl p) ↦ inr (inl (subst (λ t. 0 < t) (sym timeout) p))
    | inr (inr n) ↦ inr (inr (ap (λ s. s.connected) socket ∙ n))
  ];
}

pub or_true : (b : Bool) → (b || true) ≡ true
or_true true = refl
or_true false = refl

-- The writing of some bytes leaves the buffer with bytes in it.
write_not_empty :
    (fresh : ℕ → ℕ) (b b' : ByteBuffer) (x : ℕ) (xs : Bytes)
    → IsValid b
    → length (x ∷ xs) < 2 ^ 32
    → Buffer.write fresh b (x ∷ xs) ≡ ok b'
    → IsValid b' × ((Buffer.size b' == 0) ≡ false)
write_not_empty fresh b b' x xs v small e =
    let (valid, same, _) =
      contents-write fresh b b' (x ∷ xs) v (omega (arith, v.inside, v.small_cap)) e in
    (
      valid,
      ground (arith, sym (length-contents b'), ap length same, length-append (contents b) (x ∷ xs)),
    )

writes_now :
    (c : TcpConnection) (b : ByteBuffer)
    → (Buffer.size b == 0) ≡ false
    → join (minus (wanted c) sel_none) sel_write ≡ wanted (record c { output = b })
writes_now c b some_left =
    ap (λ w. record { reads = true; writes = w }) (or_true _ ∙ ap not (sym some_left))

behind : (conn empty : Bool) → conn ≡ true → (conn && empty) ≡ false → empty ≡ false
behind true empty is queued = queued
behind false empty is queued = cc

module _ (fresh : ℕ → ℕ) (now : ℕ) where
  queue_rest-IsServed :
      (c : TcpConnection) (xs : Bytes)
      → IsServed c
      → length xs < 2 ^ 32
      → IsServed (queue_rest fresh now c xs).0
  unfolding queue_rest write_output set_output
  queue_rest-IsServed c [] served small = served
  queue_rest-IsServed c (x ∷ xs) served small =
      elim (Result-cases (Buffer.write fresh c.output (x ∷ xs))) [
        | inr (_, e) ↦ rw e served
        | inl (b, e) ↦
            let (valid, some_left) = write_not_empty fresh c.output b x xs served.valid small e in
            let (s, done, sel, conn, usable) =
              select_lem (record c { output = b }) sel_none sel_write served.usable in
            let d = record c { output = b; socket = s } in
            rw (e, done)
              (Steady-IsServed c d served
                (record {
                  valid = valid;
                  usable = usable;
                  status = refl;
                  connected = conn;
                  timer = refl;
                  timeout = refl;
                })
                (λ est.
                  sel
                  ∙ ap (λ x. join (minus x sel_none) sel_write) (served.polls est).1
                  ∙ writes_now c b some_left))
      ]

  -- Bytes are added behind others, or before the connection is established.
  write_some-IsServed :
      (c : TcpConnection) (xs : Bytes)
      → IsServed c
      → length xs < 2 ^ 32
      → (c.socket.connected && Buffer.size c.output == 0) ≡ false
      → IsServed (write_some fresh now c xs).0
  unfolding write_some write_output set_output
  write_some-IsServed c [] served small queued = served
  write_some-IsServed c (x ∷ xs) served small queued =
      elim (Result-cases (Buffer.write fresh c.output (x ∷ xs))) [
        | inr (_, e) ↦ rw e served
        | inl (b, e) ↦
            let (valid, some_left) = write_not_empty fresh c.output b x xs served.valid small e in
            rw e (
              Steady-IsServed c (record c { output = b }) served
                (record {
                  valid = valid;
                  usable = served.usable;
                  status = refl;
                  connected = refl;
                  timer = refl;
                  timeout = refl;
                })
                (λ est.
                  let (conn, sel) = served.polls est in
                  sel
                  ∙ ap (λ k. record { reads = true; writes = not k })
                      (behind c.socket.connected (Buffer.size c.output == 0) conn queued
                        ∙ sym some_left)))
      ]

  -- the counters at the end of send
  finish_send-IsServed :
      (size n : ℕ) (out : Outcome Unit)
      → IsServed out.0
      → IsServed (and_then out (finish_send fresh now size n)).0
  unfolding finish_send
  finish_send-IsServed size n (c, ok _) served = same-IsServed c _ served refl refl refl refl refl
  finish_send-IsServed size n (c, err e) served = served

  queue_unsent-IsServed :
      (c : TcpConnection) (dat : Bytes) (n : ℕ)
      → IsServed c
      → length dat < 2 ^ 32
      → IsServed (queue_unsent fresh now c dat n).0
  unfolding queue_unsent
  queue_unsent-IsServed c dat n served small =
      if_either {A = Outcome Unit} (λ o. IsServed o.0) (ltb (length dat) (2 ^ 31)) _ _
        (λ _. queue_rest-IsServed c (drop n dat) served (omega (arith, length-drop n dat)))
        (λ _. served)

  send_rest-IsServed :
      (c : TcpConnection) (dat : Bytes) (sent : Result ℕ)
      → IsServed c
      → length dat < 2 ^ 32
      → IsServed (send_rest fresh now c dat sent).0
  unfolding send_rest
  send_rest-IsServed c dat (err e) served small = served
  send_rest-IsServed c dat (ok n) served small = finish_send-IsServed (length dat) n _ (
      queue_unsent-IsServed (record c { wire = c.wire ++ take n dat }) dat n
        (same-IsServed c _ served refl refl refl refl refl) small)

  pub send-IsServed :
      (net : Bytes → Sent) (c : TcpConnection) (dat : Bytes)
      → IsServed c
      → length dat < 2 ^ 32
      → IsServed (send fresh now net c dat).0
  unfolding send
  send-IsServed net c dat served small =
      elim (Bool-cases (c.socket.connected && Buffer.size c.output == 0)) [
        | inl direct ↦ rw direct (send_rest-IsServed c dat (Socket.send (net dat)) served small)
        | inr queued ↦
            rw queued (
              finish_send-IsServed (length dat) 0 _ (write_some-IsServed c dat served small queued))
      ]
