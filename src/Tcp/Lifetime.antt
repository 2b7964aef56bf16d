-- ===== src/Tcp/Lifetime.antt =====
-- A TcpConnection of core/tcp_connection.cpp from its constructor on: what holds after any calls and
-- events, in any order.
use lin_socket_io.Base.{
  ℕ, ◌<◌, ◌≡◌, refl, sym, ap, ◌∙◌, subst, ◌⊎◌, inl, inr, Bool, true, false, ◌&&◌, not, Option, none,
  some, List, [], ◌∷◌, ◌++◌, flat_map, arith, ◌==◌, if_either, take, All, ok, err,
}
use lin_socket_io.Buffer.{ByteBuffer}
use lin_socket_io.Buffer.Invariant.{IsValid, contents}
use lin_socket_io.Socket.{Socket, Sent, Received}
use lin_socket_io.Socket.Selecting.{IsUsable}
use lin_socket_io.Tcp.{set_socket, TcpConnection, Outcome, Handler, send, close, select}
use lin_socket_io.Tcp.Flow.{Same-trans, same_output}
use lin_socket_io.Tcp.Handling.{on_connected_event}
use lin_socket_io.Tcp.Keeping.{
  Keeps-trans, Keeps, handle_on_close-Keeps, on_connected_event-Keeps, on_write_event-Keeps,
  set_keepalive_timeout-Keeps, on_timeout-Keeps,
}
use lin_socket_io.Tcp.Kept.{send-IsServed}
use lin_socket_io.Tcp.Opening.{
  accepted_rest, Event, sel_reads, sel_writes, sel_timeout, handle, accepted, completed,
}
use lin_socket_io.Tcp.Reading.{on_read-Keeps}
use lin_socket_io.Tcp.Served.{IsServed}
use lin_socket_io.Tcp.Stream.{
  no_contents, take_all, stream, IsHonest, Streamed, Accepted, send-Accepted, Streamed-trans,
  Streamed-refl,
}
use lin_socket_io.Tcp.Trace.{
  Net, Action, write, shut, keepalive, ready, is_ok, IsFair, data_of, go_off, dispatch, act, run,
  returns, all_return,
}
use lin_socket_io.Buffer
use lin_socket_io.Socket

connected-IsUsable : (s : Socket) → IsUsable s → IsUsable (record s { connected = true })
connected-IsUsable s u = record { is_valid = u.is_valid; sends = u.sends; receives = u.receives }

both_true : (a b : Bool) → a && b ≡ true → (a ≡ true) × (b ≡ true)
both_true true b e = (refl, e)
both_true false b e = cc

module _ (fresh : ℕ → ℕ) (handler : Handler) where
  reconnected :
      (net : Net) (c : TcpConnection)
      → IsHonest net.sends
      → IsServed c
      → Keeps c (on_connected_event handler net.sends net.now (completed c net.connect_fails))
  reconnected net c honest served =
      let d = completed c net.connect_fails in
      let keeps = on_connected_event-Keeps handler net.sends net.now d honest served.valid (
        if_either IsUsable net.connect_fails _ _ (λ _. served.usable)
          (λ _. connected-IsUsable c.socket served.usable)) in
      record {
        served = keeps.served;
        same = Same-trans c d _ (same_output c d served.valid refl refl) keeps.same;
      }

  dispatch-Keeps :
      (net : Net) (c : TcpConnection) (event : Event)
      → IsHonest net.sends
      → IsServed c
      → (d : TcpConnection) × (dispatch fresh handler net c event ≡ some d) × Keeps c d
  unfolding dispatch handle go_off
  dispatch-Keeps net c sel_reads honest served = (
    _,
    refl,
    if_either (Keeps c) c.socket.connected _ _
        (λ _. on_read-Keeps fresh handler net.receives net.now c served)
        (λ _. reconnected net c honest served),
  )
  dispatch-Keeps net c sel_writes honest served = (
    _,
    refl,
    if_either (Keeps c) c.socket.connected _ _
        (λ _. on_write_event-Keeps handler net.sends c honest served)
        (λ _. reconnected net c honest served),
  )
  dispatch-Keeps net c sel_timeout honest served = alarm c.timer served.alarmed
    where
      unset : TcpConnection
      unset = record c { timer = none }

      unset_keeps : Keeps c unset
      unset_keeps = record {
        served = record {
          valid = served.valid;
          usable = served.usable;
          polls = served.polls;
          alarmed = inl refl;
        };
        same = same_output c unset served.valid refl refl;
      }

      alarm :
          (timer : Option ℕ)
          → (timer ≡ none) ⊎ ((0 < c.timeout) ⊎ (c.socket.connected ≡ false))
          → (d : TcpConnection) × (go_off fresh handler net c timer ≡ some d) × Keeps c d
      alarm none alarmed =
          (c, refl, record { served = served; same = same_output c c served.valid refl refl })
      alarm (some t) (inl e) = cc
      alarm (some t) (inr why) =
          if_either (λ o. (d : TcpConnection) × (o ≡ some d) × Keeps c d) c.socket.connected _ _
            (λ is. elim why [
              | inl pos ↦
                  let (d, e, keeps) = on_timeout-Keeps net.now unset unset_keeps.served pos in
                  (d, e, Keeps-trans c unset d unset_keeps keeps)
              | inr isnt ↦ cc
            ])
            (λ isnt. (
              _,
              refl,
              Keeps-trans c unset _ unset_keeps (
                  on_connected_event-Keeps handler net.sends net.now unset honest served.valid
                    served.usable),
            ))

  -- One action: the assertion of onTimeout holds, and a send that returns has put its data in the stream.
  act_lem :
      (c : TcpConnection) (a : Action)
      → IsFair a
      → IsServed c
      → (d : TcpConnection) × (act fresh handler c a ≡ some d)
        × IsServed d
        × (returns fresh handler c a ≡ true → Streamed c (data_of a) d)
  unfolding act returns close
  act_lem c (write net dat) (honest, small) served = (
    _,
    refl,
    send-IsServed fresh net.now net.sends c dat served (omega arith),
    all_taken (send fresh net.now net.sends c dat)
        (send-Accepted fresh net.now net.sends c dat honest served.valid small),
  )
    where
      all_taken :
          (out : Outcome ℕ)
          → Accepted fresh net.now c dat out
          → is_ok out.1 ≡ true
          → Streamed c dat out.0
      all_taken (d, ok k) acc is = elim acc.answer [
        | inl (all, e) ↦
            subst (λ xs. Streamed c xs d) (ap (λ n. take n dat) all ∙ take_all dat) acc.streamed
        | inr (x, e) ↦ cc
      ]
      all_taken (d, err e) acc is = cc
  act_lem c shut fair served =
      let keeps =
        (handle_on_close-Keeps c c (same_output c c served.valid refl refl) served.usable).1 in
      (_, refl, keeps.served, λ _. keeps.same)
  act_lem c (keepalive msec) fair served =
      let keeps = set_keepalive_timeout-Keeps c msec served in
      (_, refl, keeps.served, λ _. keeps.same)
  act_lem c (ready net event) fair served =
      let (d, e, keeps) = dispatch-Keeps net c event fair served in
      (d, e, keeps.served, λ _. keeps.same)

  run_lem :
      (trace : List Action) (c : TcpConnection)
      → All IsFair trace
      → IsServed c
      → (d : TcpConnection) × (run fresh handler trace (some c) ≡ some d)
        × IsServed d
        × (all_return fresh handler trace (some c) ≡ true → Streamed c (flat_map data_of trace) d)
  unfolding run all_return flat_map
  run_lem [] c fair served = (c, refl, served, λ _. Streamed-refl c served.valid)
  run_lem (a ∷ trace) c (one, fair) served =
      let (b, e, kept, first) = act_lem c a one served in
      let (d, e', done, rest) = run_lem trace b fair kept in
      (
        d,
        ap (run fresh handler trace) e ∙ e',
        done,
        λ all.
            let (now_, later) = both_true (returns fresh handler c a) _ all in
            Streamed-trans c b d (data_of a) (flat_map data_of trace) (first now_)
              (rest (ap (all_return fresh handler trace) (sym e) ∙ later)),
      )

accepted-IsServed :
    (now msec : ℕ) (input output : ByteBuffer)
    → IsValid output
    → Buffer.size output ≡ 0
    → IsServed (accepted false now msec input output)
unfolding accepted accepted_rest select set_socket Socket.select
accepted-IsServed now msec input output v empty =
    if_either IsServed (msec == 0) _ _
      (λ no_timeout. record {
        valid = v;
        usable = record { is_valid = refl; sends = refl; receives = refl };
        polls = λ e. (refl, ap (λ n. record { reads = true; writes = not n }) none_yet);
        alarmed = inl refl;
      })
      (λ timeout. record {
        valid = v;
        usable = record { is_valid = refl; sends = refl; receives = refl };
        polls = λ e. (refl, ap (λ n. record { reads = true; writes = not n }) none_yet);
        alarmed = inr (inl (ground (arith, timeout)));
      })
  where
    none_yet : true ≡ (Buffer.size output == 0)
    none_yet = ground (arith, empty)

stream-accepted :
    (now msec : ℕ) (input output : ByteBuffer)
    → Buffer.size output ≡ 0
    → stream (accepted false now msec input output) ≡ []
unfolding stream accepted accepted_rest select set_socket Socket.select
stream-accepted now msec input output empty =
    if_either (λ c. stream c ≡ []) (msec == 0) _ _ (λ _. no_contents output empty)
      (λ _. no_contents output empty)

-- A connection over an accepted socket, whose output buffer starts empty. Whatever the calls of send,
-- close and setKeepaliveTimeout and the events that follow, in any order and with any results of the
-- system calls: the assertion of onTimeout never fails; while the connection is established its
-- socket is connected and selects reading, and writing exactly while the output buffer holds bytes;
-- and a set alarm is the keepalive alarm. Needed is that ::send takes no more than it is given, and
-- that each call of send has less than 2^31 bytes.
pub run-IsServed :
    (fresh : ℕ → ℕ) (handler : Handler) (trace : List Action) (now msec : ℕ)
    (input output : ByteBuffer)
    → IsValid output
    → Buffer.size output ≡ 0
    → All IsFair trace
    → (d : TcpConnection) × (run fresh handler trace (some (accepted false now msec input output))
        ≡ some d)
      × IsServed d
run-IsServed fresh handler trace now msec input output v empty fair =
    let (d, e, served, _) =
      run_lem fresh handler trace (accepted false now msec input output) fair
        (accepted-IsServed now msec input output v empty) in
    (d, e, served)

-- A connection over an accepted socket, whose output buffer starts valid and empty, and any sequence of
-- calls and events in which every send has less than 2^31 bytes and returns, and ::send takes no more
-- than it is given: the bytes that ::send has taken, followed by those in the output buffer, are the
-- data of the sends, in order, whatever else happens between them.
pub run-stream :
    (fresh : ℕ → ℕ) (handler : Handler) (trace : List Action) (now msec : ℕ)
    (input output : ByteBuffer)
    → IsValid output
    → Buffer.size output ≡ 0
    → All IsFair trace
    → all_return fresh handler trace (some (accepted false now msec input output)) ≡ true
    → (d : TcpConnection) × (run fresh handler trace (some (accepted false now msec input output))
        ≡ some d)
      × (d.wire ++ contents d.output ≡ flat_map data_of trace)
unfolding stream
run-stream fresh handler trace now msec input output v empty fair all =
    let (d, e, _, streamed) =
      run_lem fresh handler trace (accepted false now msec input output) fair
        (accepted-IsServed now msec input output v empty) in
    (
      d,
      e,
      (streamed all).grown
          ∙ ap (λ xs. xs ++ flat_map data_of trace) (stream-accepted now msec input output empty),
    )
