-- ===== src/Tcp/Served.antt =====
-- What holds of a TcpConnection of core/tcp_connection.cpp between its events.
use lin_socket_io.Base.{
  ℕ, ◌≤◌, ◌<◌, ◌≡◌, refl, sym, ap, ap₂, ◌∙◌, subst, ◌⊎◌, inl, inr, Bool, true, false, ◌||◌, not,
  none, ◌++◌, arith, ◌==◌, if◌then◌else◌, Bool-cases, Bytes, take, Error, io_error, ok, err,
}
use lin_socket_io.Buffer.{ByteBuffer}
use lin_socket_io.Buffer.Contents.{length-contents}
use lin_socket_io.Buffer.Invariant.{IsValid, contents}
use lin_socket_io.Manager.{established}
use lin_socket_io.Socket.{
  sel_rw, Sent, count, send_failed, Socket, Events, sel_none, sel_write, join, minus,
}
use lin_socket_io.Socket.Selecting.{IsUsable, select-IsUsable}
use lin_socket_io.Tcp.{
  TcpConnection, Outcome, and_then, flush, flush_rest, finish_flush, deselect_write, select,
  set_socket,
}
use lin_socket_io.Tcp.Flow.{taken}
use lin_socket_io.Tcp.Stream.{IsHonest}
use lin_socket_io.Buffer
use lin_socket_io.Socket

-- what an established connection has selected: reading, and writing while it has output
abbrev pub wanted : TcpConnection → Events
wanted c = record { reads = true; writes = not (Buffer.size c.output == 0) }

pub record IsServed (c : TcpConnection) : Type 0 where
  pub valid : IsValid c.output
  pub usable : IsUsable c.socket
  pub polls : c.status ≡ established → (c.socket.connected ≡ true) × (c.socket.selevent ≡ wanted c)
  -- An alarm of a connected socket is the keepalive alarm.
  pub alarmed : (c.timer ≡ none) ⊎ ((0 < c.timeout) ⊎ (c.socket.connected ≡ false))

-- A step that leaves the status, the flag `connected` and the timers as they are.
pub record Steady (c d : TcpConnection) : Type 0 where
  pub valid : IsValid d.output
  pub usable : IsUsable d.socket
  pub status : d.status ≡ c.status
  pub connected : d.socket.connected ≡ c.socket.connected
  pub timer : d.timer ≡ c.timer
  pub timeout : d.timeout ≡ c.timeout

pub Steady-refl : (c : TcpConnection) → IsValid c.output → IsUsable c.socket → Steady c c
Steady-refl c v u = record {
  valid = v;
  usable = u;
  status = refl;
  connected = refl;
  timer = refl;
  timeout = refl;
}

pub Steady-IsServed :
    (c d : TcpConnection)
    → IsServed c
    → Steady c d
    → (c.status ≡ established → d.socket.selevent ≡ wanted d)
    → IsServed d
Steady-IsServed c d served st sel = record {
  valid = st.valid;
  usable = st.usable;
  polls = λ e. let was = sym st.status ∙ e in (st.connected ∙ (served.polls was).0, sel was);
  alarmed = elim served.alarmed [
    | inl t ↦ inl (st.timer ∙ t)
    | inr (inl p) ↦ inr (inl (omega (arith, p, st.timeout)))
    | inr (inr n) ↦ inr (inr (st.connected ∙ n))
  ];
}

-- select() on a usable socket.
pub select_lem :
    (c : TcpConnection) (old add : Events)
    → IsUsable c.socket
    → (s : Socket) × (select c old add ≡ (record c { socket = s }, ok tt))
      × (s.selevent ≡ join (minus c.socket.selevent old) add)
      × (s.connected ≡ c.socket.connected)
      × IsUsable s
unfolding select set_socket
select_lem c old add u =
    let (s, e, sel, conn, usable) = select-IsUsable c.socket old add u in
    (s, rw e refl, sel, conn, usable)

-- What flush does. `d` is the connection afterwards.
pub record Flushed (c : TcpConnection) (out : Outcome Bool) : Type 0 where
  pub steady : Steady c out.0
  pub answer : (out.1 ≡ ok (Buffer.size out.0.output == 0)) ⊎ ((e : Error) × (out.1 ≡ err e))
  pub still_wanted : c.socket.selevent ≡ wanted c → out.0.socket.selevent ≡ wanted out.0

join_none : (e : Events) → join e sel_none ≡ e
join_none e = ap₂ (λ r w. record { reads = r; writes = w }) (or_false e.reads) (or_false e.writes)
  where
    or_false : (b : Bool) → (b || false) ≡ b
    or_false true = refl
    or_false false = refl

deselect_write_lem :
    (c : TcpConnection)
    → IsUsable c.socket
    → (s : Socket) × (deselect_write c ≡ (record c { socket = s }, ok tt))
      × (s.connected ≡ c.socket.connected)
      × IsUsable s
      × (s.selevent ≡ (
          if Buffer.size c.output == 0
          then minus c.socket.selevent sel_write
          else c.socket.selevent))
unfolding deselect_write
deselect_write_lem c u = elim (Bool-cases (Buffer.size c.output == 0)) [
  | inl none_left ↦
      let (s, e, sel, conn, usable) = select_lem c sel_write sel_none u in
      rw none_left (s, e, conn, usable, sel ∙ join_none (minus c.socket.selevent sel_write))
  | inr some_left ↦ rw some_left (c.socket, refl, refl, u, refl)
]

flush_rest-Flushed :
    (c : TcpConnection) (n : ℕ)
    → IsValid c.output
    → IsUsable c.socket
    → n ≤ Buffer.size c.output
    → (Buffer.size c.output == 0) ≡ false
    → Flushed c (flush_rest c (ok n))
unfolding flush_rest finish_flush
flush_rest-Flushed c n v u le some_left =
    let (s, e, conn, usable, sel) = deselect_write_lem sent u in
    subst (Flushed c) (sym (ap (λ o. and_then o (finish_flush n)) e)) (record {
      steady = record {
        valid = (taken c n v le).still_valid;
        usable = usable;
        status = refl;
        connected = conn;
        timer = refl;
        timeout = refl;
      };
      answer = inl refl;
      still_wanted = λ was. sel ∙ after (Buffer.size sent.output == 0) (was ∙ all_wanted some_left);
    })
  where
    sent : TcpConnection
    sent = record c {
      wire = c.wire ++ take n (contents c.output);
      output = if n == 0 then c.output else (Buffer.erase c.output n).0;
    }

    all_wanted : (Buffer.size c.output == 0) ≡ false → wanted c ≡ sel_rw
    all_wanted e = ap (λ b. record { reads = true; writes = not b }) e

    after :
        (b : Bool)
        → c.socket.selevent ≡ sel_rw
        → (if b then minus c.socket.selevent sel_write else c.socket.selevent)
          ≡ record { reads = true; writes = not b }
    after true e = ap (λ x. minus x sel_write) e
    after false e = e

flush_sent :
    (c : TcpConnection)
    → IsValid c.output
    → IsUsable c.socket
    → (sent : Sent) → (Buffer.size c.output == 0) ≡ false
    → ((n : ℕ) → sent ≡ count n → n ≤ Buffer.size c.output)
    → Flushed c (flush_rest c (Socket.send sent))
unfolding flush_rest Socket.send
flush_sent c v u (count n) some_left le = flush_rest-Flushed c n v u (le n refl) some_left
flush_sent c v u (send_failed true) some_left le =
    flush_rest-Flushed c 0 v u (omega arith) some_left
flush_sent c v u (send_failed false) some_left le = record {
  steady = Steady-refl c v u;
  answer = inr (io_error, refl);
  still_wanted = λ was. was;
}

pub flush-Flushed :
    (net : Bytes → Sent) (c : TcpConnection)
    → IsHonest net
    → IsValid c.output
    → IsUsable c.socket
    → Flushed c (flush net c)
unfolding flush Socket.send
flush-Flushed net c honest v u = elim (Bool-cases (Buffer.size c.output == 0)) [
  | inl none_left ↦ rw none_left (record {
    steady = Steady-refl c v u;
    answer = inl (ap ok (sym none_left));
    still_wanted = λ was. was;
  })
  | inr some_left ↦ rw some_left (
      flush_sent c v u (net (contents c.output)) some_left
        (λ n e. omega (arith, honest (contents c.output) n e, length-contents c.output)))
]
