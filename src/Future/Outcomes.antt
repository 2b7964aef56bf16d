-- ===== src/Future/Outcomes.antt =====
-- What a caller gets: replies, errors and the calls of done().
use lin_socket_io.Base.{
  ℕ, ◌+◌, ◌≡◌, refl, ap, ◌∙◌, inl, inr, true, false, none, some, [], ◌∷◌, arith, ◌==◌,
  if◌then◌else◌, Bool-cases, Option-cases, Table, find, insert, remove, find-insert, find-remove,
}
use lin_socket_io.Future.{
  promise_set_value, promise_set_exception, Future, set_exception, set_value, internal_error,
  timeout_code, connection_closed, Calls, push, pop, remove_call, clear_from, clear, timeout,
  future_at, update_future, store_in,
}

-- set_value takes effect once: on a future that is not done it calls done() once, leaves the error
-- alone and replaces what the codec's reference holds by the reply; after that it changes nothing.
pub set_value_once :
    (f : Future) (a b : ℕ)
    → f.promise.done ≡ false
    → (set_value (set_value f a) b ≡ set_value f a)
      × ((set_value f a).dones ≡ f.dones + 1)
      × ((set_value f a).promise.ex ≡ f.promise.ex)
      × ((set_value f a).promise.done ≡ true)
      × ((set_value f a).promise.slot ≡ store_in f.promise.slot a)
unfolding set_value promise_set_value
set_value_once f a b h = ground arith

-- set_exception is not held back by a future that is done: a reply that has been delivered is
-- followed by the error, and done() is called a second time.
pub set_exception_overrides :
    (f : Future) (a e : ℕ)
    → f.promise.done ≡ false
    → let g = set_exception (set_value f a) e in
      (g.promise.ex ≡ e) × (g.dones ≡ f.dones + 2) × (g.promise.slot ≡ (set_value f a).promise.slot)
unfolding set_exception set_value promise_set_value promise_set_exception
set_exception_overrides f a e h = ground arith

-- A future that has failed with a code, and one that has not been touched.
abbrev pub HasFailed : Future → ℕ → Type 0
HasFailed f code = (f.promise.done ≡ true) × (f.promise.ex ≡ code)

set_exception-HasFailed : (f : Future) (e : ℕ) → HasFailed (set_exception f e) e
unfolding set_exception promise_set_exception
set_exception-HasFailed f e = (refl, refl)

future_at-update_future :
    (c : Calls) (p q : ℕ) (change : Future → Future)
    → future_at (update_future c p change) q
      ≡ (if p == q then change (future_at c p) else future_at c q)
future_at-update_future c p q change =
    ground (arith, find-insert p q (change (future_at c p)) c.heap)

-- Failing a future leaves it failed.
updated-HasFailed :
    (c : Calls) (p e : ℕ) → HasFailed (future_at (update_future c p (λ f. set_exception f e)) p) e
updated-HasFailed c p e =
    rw (future_at-update_future c p p (λ f. set_exception f e))
      (ground (arith, set_exception-HasFailed (future_at c p) e))

push_new :
    (c : Calls) (sn f : ℕ)
    → find sn c.futures ≡ none
    → push c sn f ≡ record c { futures = insert sn f c.futures }
unfolding push
push_new c sn f h = rw h

push_repeated :
    (c : Calls) (sn f old : ℕ)
    → find sn c.futures ≡ some old
    → push c sn f ≡ record c {
      futures = insert sn f (remove sn c.futures);
      heap = insert old (set_exception (future_at c old) internal_error) c.heap;
    }
unfolding push
push_repeated c sn f old h = rw h

-- push(sn, f) where `old` waits under sn: f takes its place, futures under other numbers stay, `old`
-- fails with INTERNAL_ERROR, and no other future changes.
pub push_lem :
    (c : Calls) (sn f k old p : ℕ)
    → find sn c.futures ≡ some old
    → (find k (push c sn f).futures ≡ (if sn == k then some f else find k c.futures))
      × HasFailed (future_at (push c sn f) old) internal_error
      × (future_at (push c sn f) p
          ≡ (if old == p then set_exception (future_at c old) internal_error else future_at c p))
push_lem c sn f k old p h = (
  rw (push_repeated c sn f old h)
      (ground (arith, find-insert sn k f (remove sn c.futures), find-remove sn k c.futures)),
  rw (push_repeated c sn f old h) (updated-HasFailed c old internal_error),
  rw (push_repeated c sn f old h)
      (future_at-update_future c old p (λ g. set_exception g internal_error)),
)

-- push(sn, f) where nothing waits under sn adds f and changes no future.
pub push_unused :
    (c : Calls) (sn f k : ℕ)
    → find sn c.futures ≡ none
    → (find k (push c sn f).futures ≡ (if sn == k then some f else find k c.futures))
      × ((push c sn f).heap ≡ c.heap)
push_unused c sn f k h = rw (push_new c sn f h) (find-insert sn k f c.futures, refl)

-- pop(sn) gives the future of sn, once: a second pop finds none, and other numbers keep theirs.
pub pop_lem :
    (c : Calls) (sn k : ℕ)
    → ((pop c sn).1 ≡ find sn c.futures)
      × (find k (pop c sn).0.futures ≡ (if sn == k then none else find k c.futures))
      × ((pop c sn).0.heap ≡ c.heap)
unfolding pop
pop_lem c sn k = elim (Option-cases (find sn c.futures)) [
  | inl h ↦ rw (h, pop) (refl, ground arith, refl)
  | inr (f, h) ↦ rw (h, pop) (refl, find-remove sn k c.futures, refl)
]

-- Failing stays failing while the rest of the map is cleared.
clear_from-HasFailed :
    (t : Table ℕ) (c : Calls) (p : ℕ)
    → HasFailed (future_at c p) connection_closed
    → HasFailed (future_at (clear_from t c) p) connection_closed
unfolding clear_from
clear_from-HasFailed [] c p h = h
clear_from-HasFailed ((sn, f) ∷ t) c p h =
    let close : Future → Future = λ g. set_exception g connection_closed in
    clear_from-HasFailed t (update_future c f close) p (elim (Bool-cases (f == p)) [
      | inl same ↦
          rw (future_at-update_future c f p close, same)
            (set_exception-HasFailed (future_at c f) connection_closed)
      | inr other ↦ rw (future_at-update_future c f p close, other) h
    ])

clear_from_all :
    (t : Table ℕ) (c : Calls) (sn p : ℕ)
    → find sn t ≡ some p
    → HasFailed (future_at (clear_from t c) p) connection_closed
unfolding clear_from find
clear_from_all [] c sn p h = cc
clear_from_all ((k, f) ∷ t) c sn p h =
    let close : Future → Future = λ g. set_exception g connection_closed in
    elim (Bool-cases (k == sn)) [
      | inl here ↦ clear_from-HasFailed t (update_future c f close) p (
          rw (future_at-update_future c f p close)
            (ground (arith, set_exception-HasFailed (future_at c f) connection_closed)))
      | inr later ↦ clear_from_all t (update_future c f close) sn p (ground arith)
    ]

clear_from_empties : (t : Table ℕ) (c : Calls) → (clear_from t c).futures ≡ []
unfolding clear_from
clear_from_empties [] c = refl
clear_from_empties ((sn, f) ∷ t) c =
    clear_from_empties t (update_future c f (λ g. set_exception g connection_closed))

-- The destructor of a connection empties the map, and every future that waited in it fails with
-- CONNECTION_CLOSED: no caller is left waiting.
pub clear_fails_all :
    (c : Calls) (sn p : ℕ)
    → find sn c.futures ≡ some p
    → HasFailed (future_at (clear c) p) connection_closed × ((clear c).futures ≡ [])
unfolding clear
clear_fails_all c sn p h = (clear_from_all c.futures c sn p h, clear_from_empties c.futures c)

timeout_done : (c : Calls) (sn f : ℕ) → (future_at c f).promise.done ≡ true → timeout c sn f ≡ c
unfolding timeout
timeout_done c sn f h = ground arith

-- A number that has been taken out of the map is not popped.
pop-removed : (c d : Calls) (sn : ℕ) → d.futures ≡ remove sn c.futures → (pop d sn).1 ≡ none
pop-removed c d sn h =
    (pop_lem d sn sn).0 ∙ ap (λ t. find sn t) h ∙ ground (arith, find-remove sn sn c.futures)

timeout_waiting :
    (c : Calls) (sn f : ℕ)
    → (future_at c f).promise.done ≡ false
    → HasFailed (future_at (timeout c sn f) f) timeout_code × ((pop (timeout c sn f) sn).1 ≡ none)
unfolding timeout remove_call
timeout_waiting c sn f h =
    let failed : Calls = update_future (remove_call c sn) f (λ g. set_exception g timeout_code) in
    rw h (updated-HasFailed (remove_call c sn) f timeout_code, pop-removed c failed sn refl)

-- A timeout of a synchronous call that is not done fails the call with TIMEOUT and takes its number
-- out of the map, so that a late reply finds no future; a second timeout changes nothing.
pub timeout_lem :
    (c : Calls) (sn f : ℕ)
    → (future_at c f).promise.done ≡ false
    → HasFailed (future_at (timeout c sn f) f) timeout_code
      × ((pop (timeout c sn f) sn).1 ≡ none)
      × (timeout (timeout c sn f) sn f ≡ timeout c sn f)
timeout_lem c sn f h =
    let (failed, gone) = timeout_waiting c sn f h in
    (failed, gone, timeout_done (timeout c sn f) sn f failed.0)
