-- ===== src/Queue/Wakeup.antt =====
-- Producers push at any time; the consumer is the worker's event loop: the pipe is readable, its
-- signals are read, then onSignals takes all messages.
mod Runs
use lin_socket_io.Base.{
  ◌<◌, ◌≡◌, refl, sym, ap, ◌∙◌, ◌≢◌, ◌⊎◌, inl, inr, Bool, true, false, List, [], ◌∷◌, ◌++◌,
  append-nil, append_assoc, arith, Bool-cases,
}
use lin_socket_io.Queue.{Pipe, read_all, Queue, init, push, get}

pub record System {ℓ} (A : Type ℓ) : Type ℓ where
  pub queue : Queue A
  -- the signals are read, and the messages are not yet taken
  pub reading : Bool
  -- all that was pushed, and all that the consumer took, in order
  pub pushed : List A
  pub taken : List A

module _ {ℓ} {A : Type ℓ} where
  pub data Step (s : System A) : System A → Type ℓ where
    produce :
        (msg : A) → Step s (record s { queue = push s.queue msg; pushed = s.pushed ++ msg ∷ [] })
    wake :
        s.reading ≡ false
        → 0 < s.queue.pipe.waiting
        → Step s
            (record s { queue = record (s.queue) { pipe = read_all s.queue.pipe }; reading = true })
    consume :
        s.reading ≡ true
        → Step s (record s {
          queue = (get s.queue).0;
          reading = false;
          taken = s.taken ++ (get s.queue).1;
        })

  pub data Reach (s : System A) : System A → Type ℓ where
    here : Reach s s
    next : {t u : System A} → Reach s t → Step t u → Reach s u

  pub start : Pipe → System A
  start p = record { queue = init p; reading = false; pushed = []; taken = [] }

  -- A message in the queue has a signal under way, and nothing is lost, doubled or reordered.
  pub record IsLive (s : System A) : Type ℓ where
    pub signalled : (s.queue.messages ≡ []) ⊎ ((0 < s.queue.pipe.waiting) ⊎ (s.reading ≡ true))
    pub in_order : s.pushed ≡ s.taken ++ s.queue.messages
    pub works : s.queue.pipe.closed ≡ false
    pub holds : 0 < s.queue.pipe.capacity

  -- A push leaves a signal under way, whatever was in the queue.
  push_signals :
      (q : Queue A) (msg : A) (reading : Bool)
      → ((q.messages ≡ []) ⊎ ((0 < q.pipe.waiting) ⊎ (reading ≡ true)))
      → q.pipe.closed ≡ false
      → 0 < q.pipe.capacity
      → (0 < (push q msg).pipe.waiting) ⊎ (reading ≡ true)
  unfolding push
  push_signals q msg reading h works cap = ground arith

  pub push_keeps :
      (q : Queue A) (msg : A)
      → ((push q msg).pipe.closed ≡ q.pipe.closed)
        × ((push q msg).pipe.capacity ≡ q.pipe.capacity)
        × ((push q msg).messages ≡ q.messages ++ msg ∷ [])
  unfolding push
  push_keeps q msg = ground arith

  Step-IsLive : {s t : System A} → Step s t → IsLive s → IsLive t
  unfolding get read_all
  Step-IsLive {s} (produce msg) v =
      let keeps = push_keeps s.queue msg in
      record {
        signalled = inr (push_signals s.queue msg s.reading v.signalled v.works v.holds);
        in_order =
            ap (λ l. l ++ msg ∷ []) v.in_order
            ∙ append_assoc s.taken s.queue.messages (msg ∷ [])
            ∙ ap (λ l. s.taken ++ l) (sym keeps.2);
        works = keeps.0 ∙ v.works;
        holds = omega (arith, keeps.1);
      }
  Step-IsLive (wake p w) v = record {
    signalled = inr (inr refl);
    in_order = v.in_order;
    works = v.works;
    holds = v.holds;
  }
  Step-IsLive (consume p) v = record {
    signalled = inl refl;
    in_order = v.in_order ∙ sym (append-nil _);
    works = v.works;
    holds = v.holds;
  }

  -- From an empty queue over a pipe that works and holds a signal, however pushes and the consumer's
  -- steps interleave: what was taken and what is still queued is what was pushed, in order; and while
  -- a message is queued, a signal is in the pipe or the consumer is about to take the queue.
  pub Reach-IsLive :
      (p : Pipe) {t : System A} → p.closed ≡ false → 0 < p.capacity → Reach (start p) t → IsLive t
  unfolding init start
  Reach-IsLive p works holds here = record {
    signalled = inl refl;
    in_order = refl;
    works = works;
    holds = holds;
  }
  Reach-IsLive p works holds (next r st) = Step-IsLive st (Reach-IsLive p works holds r)

  -- From there the queue can be emptied: with a message queued the consumer has a step, and its next
  -- consume takes all that was pushed.
  pub queued_wakes :
      (p : Pipe) {t : System A}
      → p.closed ≡ false
      → 0 < p.capacity
      → Reach (start p) t
      → t.queue.messages ≢ []
      → (u : System A) × Reach t u × (u.taken ≡ t.pushed) × (u.queue.messages ≡ [])
  unfolding get
  queued_wakes p {t} works holds r ne =
      let v = Reach-IsLive p works holds r in
      elim v.signalled [
        | inl empty ↦ absurd (ne empty)
        | inr (inl waits) ↦ elim (Bool-cases t.reading) [
          | inl reads ↦ (_, next here (consume reads), sym v.in_order, refl)
          | inr free ↦ (_, next (next here (wake free waits)) (consume refl), sym v.in_order, refl)
        ]
        | inr (inr reads) ↦ (_, next here (consume reads), sym v.in_order, refl)
      ]
