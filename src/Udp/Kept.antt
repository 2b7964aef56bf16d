-- ===== src/Udp/Kept.antt =====
-- What the calls and events of a UdpConnection of core/udp_connection.cpp keep: its datagrams, and what it
-- has selected.
use lin_socket_io.Base.{
  ap₂, max, ◌*◌, ◌-◌, ◌+◌, not_enough_data, buffer_overflow, position_out_of_range,
  offset_out_of_range, io_error, pack_error, unpack_error, unknown_type, bad_version, out_of_fuel,
  ℕ, ◌<◌, ◌≡◌, refl, sym, ap, ◌∙◌, subst, ◌⊎◌, inl, inr, Bool, true, false, not, Option, none, some,
  List, [], ◌∷◌, ◌++◌, append_assoc, append-nil, arith, ◌==◌, if_either, Bytes, Result, ok, err,
}
use lin_socket_io.Buffer.{ByteBuffer}
use lin_socket_io.Buffer.Invariant.{contents}
use lin_socket_io.Manager.{established, disconnected}
use lin_socket_io.Socket.{Received, recv}
use lin_socket_io.Socket.Selecting.{IsUsable, remove_socket-IsUsable, remove_socket-connected}
use lin_socket_io.Tcp.{on_write, Handler, Callback, on_data, on_close, on_initiative_close}
use lin_socket_io.Udp.{
  tell, unregister, flush_queue, UdpConnection, Sends, Outcome, empty, handle_on_close,
  handle_on_initiative_close, flush, flushed_event, consumed, consume, after_read, take_in,
  received, reserved, on_read, on_write_event, set_keepalive_timeout, on_timeout,
}
use lin_socket_io.Udp.Queued.{datagrams, IsWhole, wanted, Steady, flush_queue_lem}
use lin_socket_io.Buffer

-- What holds between the events: an established connection waits for reading, and for writing exactly
-- while something is queued.
pub record IsServed (c : UdpConnection) : Type 0 where
  pub usable : IsUsable c.socket
  pub connected : c.socket.connected ≡ true
  pub polls : c.status ≡ established → c.socket.selevent ≡ wanted c
  -- An alarm is the keepalive alarm.
  pub alarmed : (c.timer ≡ none) ⊎ (0 < c.timeout)

-- A step that adds datagrams.
pub record Adds (c : UdpConnection) (xs : List Bytes) (d : UdpConnection) : Type 0 where
  pub served : IsServed d
  pub grown : datagrams d ≡ datagrams c ++ xs

pub Steady-Adds : (c d : UdpConnection) (xs : List Bytes) → IsServed c → Steady c xs d → Adds c xs d
Steady-Adds c d xs served st = record {
  served = record {
    usable = st.usable;
    connected = st.connected ∙ served.connected;
    polls = λ e. st.still_wanted (served.polls (sym st.status ∙ e));
    alarmed = elim served.alarmed [
      | inl t ↦ inl (st.timer ∙ t)
      | inr p ↦ inr (omega (arith, p, st.timeout))
    ];
  };
  grown = st.grown;
}

pub Adds-trans :
    (c d e : UdpConnection) (xs ys : List Bytes) → Adds c xs d → Adds d ys e → Adds c (xs ++ ys) e
Adds-trans c d e xs ys p q = record {
  served = q.served;
  grown = q.grown ∙ ap (λ s. s ++ ys) p.grown ∙ append_assoc (datagrams c) xs ys;
}

-- A connection with the datagrams, the socket, the status and the timers of another one.
pub same_Adds :
    (c d : UdpConnection)
    → IsServed c
    → d.wire ≡ c.wire
    → d.output ≡ c.output
    → d.socket ≡ c.socket
    → d.status ≡ c.status
    → d.timer ≡ c.timer
    → d.timeout ≡ c.timeout
    → Adds c [] d
same_Adds c d served w o so st ti to = record {
  served = record {
    usable = subst IsUsable (sym so) served.usable;
    connected = ap (λ s. s.connected) so ∙ served.connected;
    polls = λ e.
        ap (λ s. s.selevent) so
        ∙ served.polls (sym st ∙ e)
        ∙ ap (λ ds. record { reads = true; writes = not (empty ds) }) (sym o);
    alarmed = elim served.alarmed [ inl t ↦ inl (ti ∙ t) | inr p ↦ inr (omega (arith, p, to)) ];
  };
  grown = ap₂ (λ a b. a ++ b) w o ∙ sym (append-nil (datagrams c));
}

-- Closing keeps the datagrams, and the connection is not established any more.
pub closed-Adds :
    (c : UdpConnection)
    → IsServed c
    → Adds c [] (handle_on_close c) × Adds c [] (handle_on_initiative_close c)
unfolding handle_on_close handle_on_initiative_close
closed-Adds c served = (closed on_close, closed on_initiative_close)
  where
    closed :
        (callback : Callback)
        → Adds c [] (tell (unregister (record c { status = disconnected })) callback)
    closed callback = record {
      served = record {
        usable = remove_socket-IsUsable c.socket served.usable;
        connected = remove_socket-connected c.socket ∙ served.connected;
        polls = λ e. cc;
        alarmed = inl refl;
      };
      grown = sym (append-nil (datagrams c));
    }

-- A step, and then the connection is closed.
then_close :
    (c d : UdpConnection)
    → Adds c [] d
    → Adds c [] (handle_on_close d) × Adds c [] (handle_on_initiative_close d)
then_close c d a =
    let (x, y) = closed-Adds d a.served in (Adds-trans c d _ [] [] a x, Adds-trans c d _ [] [] a y)

pub on_write_event-Adds :
    (handler : Handler) (c : UdpConnection) (net : Sends)
    → IsServed c
    → IsWhole net
    → Adds c [] (on_write_event handler net c)
unfolding on_write_event flush flushed_event
on_write_event-Adds handler c net served honest =
    let (steady, _) = flush_queue_lem net honest c.output c refl served.usable in
    answered (flush_queue net c c.output) (Steady-Adds c _ [] served steady)
  where
    answered : (out : Outcome Bool) → Adds c [] out.0 → Adds c [] (flushed_event handler out)
    answered (d, err e) a = (then_close c d a).0
    answered (d, ok true) a =
        let told =
          Adds-trans c d _ [] [] a (same_Adds d _ a.served refl refl refl refl refl refl) in
        if_either (Adds c []) handler.write_throws _ _
          (λ _. (then_close c (tell d on_write) told).0) (λ _. told)
    answered (d, ok false) a = a

-- What onRead does with the input.
module _ (handler : Handler) where
  consume-Adds : (c d : UdpConnection) → Adds c [] d → Adds c [] (consume handler d)
  unfolding consume consumed
  consume-Adds c d a = answer (handler.consumes (contents d.input))
    where
      told : UdpConnection
      told = tell d (on_data (contents d.input))

      told_adds : Adds c [] told
      told_adds =
          Adds-trans c d told [] [] a (same_Adds d told a.served refl refl refl refl refl refl)

      answer : (n : Option ℕ) → Adds c [] (consumed told n)
      answer none = (then_close c told told_adds).1
      answer (some n) =
          Adds-trans c told _ [] [] told_adds
            (same_Adds told _ told_adds.served refl refl refl refl refl refl)

  after_read-Adds :
      (c : UdpConnection) (out : Outcome Unit)
      → Adds c [] out.0
      → Adds c [] (after_read handler out)
  unfolding after_read
  after_read-Adds c (d, ok _) a = consume-Adds c d a
  after_read-Adds c (d, err buffer_overflow) a =
      consume-Adds c (handle_on_close d) (then_close c d a).0
  after_read-Adds c (d, err not_enough_data) a = a
  after_read-Adds c (d, err position_out_of_range) a = a
  after_read-Adds c (d, err offset_out_of_range) a = a
  after_read-Adds c (d, err io_error) a = a
  after_read-Adds c (d, err pack_error) a = a
  after_read-Adds c (d, err unpack_error) a = a
  after_read-Adds c (d, err unknown_type) a = a
  after_read-Adds c (d, err bad_version) a = a
  after_read-Adds c (d, err out_of_fuel) a = a

  pub on_read-Adds :
      (fresh : ℕ → ℕ) (net : ℕ → Received) (now : ℕ) (c : UdpConnection)
      → IsServed c
      → Adds c [] (on_read fresh handler net now c)
  unfolding on_read reserved received take_in
  on_read-Adds fresh net now c served =
      after_read-Adds c _ (with_room (Buffer.reserve fresh c.input sz))
    where
      sz : ℕ
      sz = max (Buffer.space c.input) (4 * 1024)

      read : UdpConnection
      read = record c { last_recv = now }

      got : (b : ByteBuffer) (r : Result Bytes) → Adds c [] (received fresh read b r).0
      got b (err e) = same_Adds c _ served refl refl refl refl refl refl
      got b (ok []) = same_Adds c _ served refl refl refl refl refl refl
      got b (ok (x ∷ xs)) = same_Adds c _ served refl refl refl refl refl refl

      with_room : (r : Result ByteBuffer) → Adds c [] (reserved fresh net sz read r).0
      with_room (err e) = same_Adds c _ served refl refl refl refl refl refl
      with_room (ok b) = got b (recv (net (sz - 1)))

pub set_keepalive_timeout-Adds :
    (c : UdpConnection) (msec : ℕ) → IsServed c → Adds c [] (set_keepalive_timeout c msec)
unfolding set_keepalive_timeout
set_keepalive_timeout-Adds c msec served =
    if_either (Adds c []) (msec == 0) _ _ (λ _. same_Adds c c served refl refl refl refl refl refl)
      (λ set. record {
        served = record {
          usable = served.usable;
          connected = served.connected;
          polls = served.polls;
          alarmed = inr (ground (arith, set));
        };
        grown = sym (append-nil (datagrams c));
      })

-- The assertion of onTimeout holds when a keepalive timeout is set.
pub on_timeout-Adds :
    (now : ℕ) (c : UdpConnection)
    → IsServed c
    → 0 < c.timeout
    → (d : UdpConnection) × (on_timeout now c ≡ some d) × Adds c [] d
unfolding on_timeout
on_timeout-Adds now c served pos =
    let Fine : Option UdpConnection → Type 0 =
      λ o. (d : UdpConnection) × (o ≡ some d) × Adds c [] d in
    if_either Fine (c.timeout == 0) _ _ (λ zero. absurd (ground (arith, zero, pos)))
      (λ _.
        if_either Fine (c.timeout + c.last_recv * 1000 - now * 1000 == 0) _ _
          (λ _. (_, refl, (closed-Adds c served).1))
          (λ _. (
            _,
            refl,
            record {
              served = record {
                usable = served.usable;
                connected = served.connected;
                polls = served.polls;
                alarmed = inr pos;
              };
              grown = sym (append-nil (datagrams c));
            },
          )))
