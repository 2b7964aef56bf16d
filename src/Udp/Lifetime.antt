-- ===== src/Udp/Lifetime.antt =====
-- A UdpConnection of core/udp_connection.cpp from its constructor on: what holds after any calls and
-- events, in any order.
use lin_socket_io.Base.{
  ℕ, ◌<◌, ◌≡◌, ◌≢◌, refl, sym, ap, ◌∙◌, ◌⊎◌, inl, inr, Bool, true, false, Option, none, some, List,
  [], ◌∷◌, ◌++◌, append-nil, arith, ◌==◌, if_either, Bytes, length, flat_map, All, All-map,
}
use lin_socket_io.Buffer.{ByteBuffer}
use lin_socket_io.Socket
use lin_socket_io.Manager.{established}
use lin_socket_io.Socket.{attach, socket_helper, send_failed, Sent, count, sel_none, sel_read}
use lin_socket_io.Tcp.{Handler}
use lin_socket_io.Tcp.Opening.{Event, sel_reads, sel_writes, sel_timeout, at_once}
use lin_socket_io.Udp.{
  close, set_socket, on_connected_event, flushed_first, UdpConnection, Sends, empty, flush,
  flush_queue, select,
}
use lin_socket_io.Udp.Opening.{
  Net, Action, write, shut, keepalive, ready, go_off, dispatch, act, run, handle, accepted,
  accepted_rest, connect,
}
use lin_socket_io.Udp.Queued.{datagrams, IsWhole}
use lin_socket_io.Udp.Sending.{kept, kept_of, queued_of, send_lem}
use lin_socket_io.Udp.Kept.{
  IsServed, Adds, Steady-Adds, Adds-trans, same_Adds, closed-Adds, on_write_event-Adds,
  on_read-Adds, set_keepalive_timeout-Adds, on_timeout-Adds,
}

-- ::send takes a datagram whole or not at all.
abbrev pub IsFair : Action → Type 0
IsFair (write net dat) = IsWhole net.sends
IsFair shut = Unit
IsFair (keepalive msec) = Unit
IsFair (ready net event) = IsWhole net.sends

-- the datagrams that an action adds
abbrev pub kept_by : UdpConnection → Action → List Bytes
kept_by c (write net dat) = kept net.sends c dat
kept_by c _ = []

impossible : {b : Bool} → b ≡ true → b ≡ false → ⊥
impossible e e' = cc

module _ (fresh : ℕ → ℕ) (handler : Handler) where
  dispatch-Adds :
      (net : Net) (c : UdpConnection) (event : Event)
      → IsWhole net.sends
      → IsServed c
      → (d : UdpConnection) × (dispatch fresh handler net c event ≡ some d) × Adds c [] d
  unfolding dispatch handle go_off
  dispatch-Adds net c sel_reads honest served = (
    _,
    refl,
    if_either (Adds c []) c.socket.connected _ _
        (λ _. on_read-Adds handler fresh net.receives net.now c served)
        (λ isnt. absurd (impossible served.connected isnt)),
  )
  dispatch-Adds net c sel_writes honest served = (
    _,
    refl,
    if_either (Adds c []) c.socket.connected _ _
        (λ _. on_write_event-Adds handler c net.sends served honest)
        (λ isnt. absurd (impossible served.connected isnt)),
  )
  dispatch-Adds net c sel_timeout honest served = alarm c.timer served.alarmed
    where
      unset : UdpConnection
      unset = record c { timer = none }

      unset_adds : Adds c [] unset
      unset_adds = record {
        served = record {
          usable = served.usable;
          connected = served.connected;
          polls = served.polls;
          alarmed = inl refl;
        };
        grown = sym (append-nil (datagrams c));
      }

      alarm :
          (timer : Option ℕ)
          → (timer ≡ none) ⊎ (0 < c.timeout)
          → (d : UdpConnection) × (go_off fresh handler net c timer ≡ some d) × Adds c [] d
      alarm none alarmed = (c, refl, same_Adds c c served refl refl refl refl refl refl)
      alarm (some t) (inl e) = cc
      alarm (some t) (inr pos) =
          if_either (λ o. (d : UdpConnection) × (o ≡ some d) × Adds c [] d) c.socket.connected _ _
            (λ _.
              let (d, e, a) = on_timeout-Adds net.now unset unset_adds.served pos in
              (d, e, Adds-trans c unset d [] [] unset_adds a))
            (λ isnt. absurd (impossible served.connected isnt))

  act-Adds :
      (c : UdpConnection) (a : Action)
      → IsFair a
      → IsServed c
      → (d : UdpConnection) × (act fresh handler c a ≡ some d) × Adds c (kept_by c a) d
  unfolding act close
  act-Adds c (write net dat) fair served = (
    _,
    refl,
    Steady-Adds c _ _ served (send_lem net.sends net.now c dat fair served.usable served.connected),
  )
  act-Adds c shut fair served = (_, refl, (closed-Adds c served).1)
  act-Adds c (keepalive msec) fair served = (_, refl, set_keepalive_timeout-Adds c msec served)
  act-Adds c (ready net event) fair served = dispatch-Adds net c event fair served

  -- the datagrams that a trace adds
  unfoldable pub all_kept : List Action → Option UdpConnection → List Bytes
  all_kept [] c = []
  all_kept (a ∷ trace) none = []
  all_kept (a ∷ trace) (some c) = kept_by c a ++ all_kept trace (act fresh handler c a)

  run-Adds :
      (trace : List Action) (c : UdpConnection)
      → All IsFair trace
      → IsServed c
      → (d : UdpConnection) × (run fresh handler trace (some c) ≡ some d)
        × Adds c (all_kept trace (some c)) d
  unfolding run all_kept
  run-Adds [] c fair served = (c, refl, same_Adds c c served refl refl refl refl refl refl)
  run-Adds (a ∷ trace) c (fair, fairs) served =
      let (d, e, first) = act-Adds c a fair served in
      let (f, e', rest) = run-Adds trace d fairs first.served in
      rw e (f, e', Adds-trans c d f (kept_by c a) (all_kept trace (some d)) first rest)

-- the constructors after which a connection is established
pub data Start : Type 0 where
  accept_from : (now msec : ℕ) → Start
  connect_to : (net : Sends) (now : ℕ) → Start

abbrev pub opened : Start → ByteBuffer → UdpConnection
opened (accept_from now msec) input = accepted false now msec input
opened (connect_to net now) input = connect net at_once now input

-- the accepted connection, but for its alarm
abbrev pub listening : ℕ → ℕ → ByteBuffer → UdpConnection
listening now msec input = record {
  socket = record (attach socket_helper) { selected = true; selevent = sel_read };
  status = established;
  timeout = msec;
  timer = none;
  last_recv = now;
  last_send = 0;
  send_bytes = 0;
  sent_bytes = 0;
  recv_bytes = 0;
  input = input;
  output = [];
  wire = [];
  told = [];
}

opened-IsServed : (start : Start) (input : ByteBuffer) → IsServed (opened start input)
unfolding accepted accepted_rest connect on_connected_event flushed_first flush flush_queue select
    set_socket Socket.select
opened-IsServed (accept_from now msec) input =
    if_either IsServed (msec == 0) (listening now msec input)
      (record (listening now msec input) { timer = some msec })
      (λ _. record {
        usable = record { is_valid = refl; sends = refl; receives = refl };
        connected = refl;
        polls = λ e. refl;
        alarmed = inl refl;
      })
      (λ set.
        let pos : 0 < msec = ground (arith, set) in
        record {
          usable = record { is_valid = refl; sends = refl; receives = refl };
          connected = refl;
          polls = λ e. refl;
          alarmed = inr pos;
        })
opened-IsServed (connect_to net now) input = record {
  usable = record { is_valid = refl; sends = refl; receives = refl };
  connected = refl;
  polls = λ e. refl;
  alarmed = inl refl;
}

opened-datagrams : (start : Start) (input : ByteBuffer) → datagrams (opened start input) ≡ []
unfolding accepted accepted_rest connect on_connected_event flushed_first flush flush_queue select
    set_socket Socket.select
opened-datagrams (accept_from now msec) input =
    if_either (λ c. datagrams c ≡ []) (msec == 0) (listening now msec input)
      (record (listening now msec input) { timer = some msec }) (λ _. refl) (λ _. refl)
opened-datagrams (connect_to net now) input = refl

-- A connection over an accepted socket, or one that has connected at once. Whatever the calls of send,
-- close and setKeepaliveTimeout and the events that follow, in any order and with any results of the
-- system calls but that ::send takes a datagram whole or not at all: the assertion of
-- onTimeout never fails, and while the connection is established its socket selects reading, and writing exactly while a datagram is
-- queued; and a set alarm is the keepalive alarm.
pub run_udp-IsServed :
    (fresh : ℕ → ℕ) (handler : Handler) (trace : List Action) (start : Start) (input : ByteBuffer)
    → All IsFair trace
    → (d : UdpConnection) × (run fresh handler trace (some (opened start input)) ≡ some d)
      × IsServed d
run_udp-IsServed fresh handler trace start input fair =
    let (d, e, a) =
      run-Adds fresh handler trace (opened start input) fair (opened-IsServed start input) in
    (d, e, a.served)

-- A send of some bytes whose call of ::send, if it makes one, does not fail.
abbrev pub IsSound : Action → Type 0
IsSound (write net dat) =
    IsWhole net.sends × (0 < length dat) × (net.sends (dat ∷ []) ≢ send_failed false)
IsSound shut = Unit
IsSound (keepalive msec) = Unit
IsSound (ready net event) = IsWhole net.sends

-- the datagrams of the calls of send
abbrev pub sent_by : Action → List Bytes
sent_by (write net dat) = dat ∷ []
sent_by _ = []

IsSound-IsFair : (a : Action) → IsSound a → IsFair a
IsSound-IsFair (write net dat) h = h.0
IsSound-IsFair shut h = tt
IsSound-IsFair (keepalive msec) h = tt
IsSound-IsFair (ready net event) h = h

kept_by-sent_by : (c : UdpConnection) (a : Action) → IsSound a → kept_by c a ≡ sent_by a
kept_by-sent_by c (write net dat) (_, some_bytes, fine) =
    if_either (λ ds. ds ≡ dat ∷ []) (empty c.output) _ _ (λ _. of_call (net.sends (dat ∷ [])) fine)
      (λ _. of_queue dat some_bytes)
  where
    of_call : (s : Sent) → s ≢ send_failed false → kept_of s dat ≡ dat ∷ []
    of_call (count n) h = refl
    of_call (send_failed true) h = refl
    of_call (send_failed false) h = absurd (h refl)

    of_queue : (xs : Bytes) → 0 < length xs → queued_of xs ≡ xs ∷ []
    of_queue [] h = absurd (omega arith)
    of_queue (x ∷ xs) h = refl
kept_by-sent_by c shut h = refl
kept_by-sent_by c (keepalive msec) h = refl
kept_by-sent_by c (ready net event) h = refl

all_kept-sent :
    (fresh : ℕ → ℕ) (handler : Handler) (trace : List Action) (c : UdpConnection)
    → IsServed c
    → All IsSound trace
    → all_kept fresh handler trace (some c) ≡ flat_map sent_by trace
unfolding all_kept flat_map
all_kept-sent fresh handler [] c served h = refl
all_kept-sent fresh handler (a ∷ trace) c served (h, hs) =
    let (d, e, adds) = act-Adds fresh handler c a (IsSound-IsFair a h) served in
    rw (e, kept_by-sent_by c a h)
      (ap (◌++◌ (sent_by a)) (all_kept-sent fresh handler trace d adds.served hs))

-- A connection over an accepted socket, or one that has connected at once, where ::send takes a
-- datagram whole or not at all. If no datagram is empty, and no ::send that send makes fails (one
-- that would block does not), then no datagram is lost, doubled, cut, merged or overtaken: those
-- that ::send has taken, followed by those in the output queue, are the data of all calls of send,
-- one datagram for each, in order, whatever else happens between them, failures of ::send in flush
-- included.
pub run_udp-datagrams :
    (fresh : ℕ → ℕ) (handler : Handler) (trace : List Action) (start : Start) (input : ByteBuffer)
    → All IsSound trace
    → (d : UdpConnection) × (run fresh handler trace (some (opened start input)) ≡ some d)
      × (d.wire ++ d.output ≡ flat_map sent_by trace)
run_udp-datagrams fresh handler trace start input sound =
    let c = opened start input in
    let served = opened-IsServed start input in
    let fair = All-map IsSound IsFair trace IsSound-IsFair sound in
    let (d, e, a) = run-Adds fresh handler trace c fair served in
    (
      d,
      e,
      a.grown
          ∙ ap (λ x. x ++ all_kept fresh handler trace (some c)) (opened-datagrams start input)
          ∙ all_kept-sent fresh handler trace c served sound,
    )
