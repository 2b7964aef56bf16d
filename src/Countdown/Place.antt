-- ===== src/Countdown/Place.antt =====
-- Where the timer of a registered handler stands, and what the list operations of core/countdown.h do
-- to its list.
use lin_socket_io.Base.{
  ℕ, zero, suc, ◌+◌, ◌-◌, ◌≤◌, ◌<◌, ◌≡◌, refl, sym, ◌∙◌, ◌≢◌, inl, inr, true, false, none, some,
  List, [], ◌∷◌, arith, ◌==◌, if◌then◌else◌, Bool-cases, All,
}
use native.Mathlib.Decide.{ℕ_discrete}
use lin_socket_io.Countdown.{
  Timeout, Fall, Countdown, put, erase_timer, set_count, node_in, node_below, pos_fallidx,
  falls_size,
}
use lin_socket_io.Countdown.Invariant.{Fits, TimersFit, IsWheel, is_handler}
use lin_socket_io.Countdown.Weights.{
  tally, sum_below, sum_below_congr, put_same, put_other, sum_below_replace, sum_below_le,
}

-- the weights, but 0 for one handler
abbrev pub without : ℕ → (ℕ → ℕ → ℕ) → ℕ → ℕ → ℕ
without h w g r = if g == h then 0 else w g r

-- how many timers of a handler a list has
abbrev pub timers_of : ℕ → List Timeout → ℕ
timers_of h ts = tally (λ g r. is_handler h g) 0 ts

pub tally-timers_of :
    (h spent : ℕ) (ts : List Timeout) → tally (λ g r. is_handler h g) spent ts ≡ timers_of h ts
tally-timers_of h spent [] = refl
tally-timers_of h spent (t ∷ ts) = omega (arith, tally-timers_of h spent ts)

pub tally_absent :
    (h : ℕ) (w : ℕ → ℕ → ℕ) (spent : ℕ) (ts : List Timeout)
    → timers_of h ts ≡ 0
    → tally w spent ts ≡ tally (without h w) spent ts
tally_absent h w spent [] absent = refl
tally_absent h w spent (t ∷ ts) absent = ground (arith, tally_absent h w spent ts)

pub tally-erase_timer :
    (h : ℕ) (w : ℕ → ℕ → ℕ) (spent : ℕ) (ts : List Timeout)
    → timers_of h ts ≡ 1
    → tally w spent (erase_timer ts h) ≡ tally (without h w) spent ts
unfolding erase_timer
tally-erase_timer h w spent [] one = absurd (omega arith)
tally-erase_timer h w spent (t ∷ ts) one =
    ground (arith, tally-erase_timer h w spent ts, tally_absent h w spent ts)

pub tally-set_count :
    (h : ℕ) (w : ℕ → ℕ → ℕ) (spent count : ℕ) (ts : List Timeout)
    → timers_of h ts ≡ 1
    → tally w spent (set_count ts h count) ≡ tally (without h w) spent ts + w h (count - spent)
unfolding set_count
tally-set_count h w spent count [] one = absurd (omega arith)
tally-set_count h w spent count (t ∷ ts) one =
    ground (arith, tally-set_count h w spent count ts, tally_absent h w spent ts)

pub All-erase_timer :
    (P : Timeout → Type 0) (ts : List Timeout) (h : ℕ) → All P ts → All P (erase_timer ts h)
unfolding erase_timer
All-erase_timer P [] h a = tt
All-erase_timer P (t ∷ ts) h (p, a) = elim (Bool-cases (t.handler == h)) [
  | inl e ↦ rw e a
  | inr e ↦ rw e (p, All-erase_timer P ts h a)
]

pub All-set_count :
    (P : Timeout → Type 0) (ts : List Timeout) (h count : ℕ)
    → ((t : Timeout) → P t → P (record t { count = count }))
    → All P ts
    → All P (set_count ts h count)
unfolding set_count
All-set_count P [] h count f a = tt
All-set_count P (t ∷ ts) h count f (p, a) = elim (Bool-cases (t.handler == h)) [
  | inl e ↦ rw e (f t p, a)
  | inr e ↦ rw e (p, All-set_count P ts h count f a)
]

skip :
    (t : Timeout) (ts : List Timeout) (h : ℕ) (u : Timeout)
    → (t.handler == h) ≡ false
    → node_in ts h ≡ some u
    → node_in (t ∷ ts) h ≡ some u
unfolding node_in
skip t ts h u other at = rw other at

node_in_found :
    (P : Timeout → Type 0) (ts : List Timeout) (h : ℕ)
    → All P ts
    → 0 < timers_of h ts
    → (t : Timeout) × (node_in ts h ≡ some t) × P t
unfolding node_in
node_in_found P [] h a some_one = absurd (omega (arith, some_one))
node_in_found P (t ∷ ts) h (p, a) some_one = elim (Bool-cases (t.handler == h)) [
  | inl e ↦ (t, rw e refl, p)
  | inr e ↦
      let (u, at, q) = node_in_found P ts h a (ground (arith, some_one, e)) in
      (u, skip t ts h u e at, q)
]

node_in_absent : (ts : List Timeout) (h : ℕ) → timers_of h ts ≡ 0 → node_in ts h ≡ none
unfolding node_in
node_in_absent [] h absent = refl
node_in_absent (t ∷ ts) h absent = ground (arith, node_in_absent ts h)

node_below_skip :
    (n h : ℕ) (falls : ℕ → Fall)
    → node_in (falls n).timers h ≡ none
    → node_below (suc n) falls h ≡ node_below n falls h
unfolding node_below
node_below_skip n h falls at = rw (at, node_below) refl

node_below_here :
    (n h : ℕ) (falls : ℕ → Fall) (t : Timeout)
    → node_in (falls n).timers h ≡ some t
    → node_below (suc n) falls h ≡ some t
unfolding node_below
node_below_here n h falls t at = rw (at, node_below) refl

pos_fallidx_found :
    (c : Countdown) (h : ℕ) (t : Timeout)
    → node_below falls_size c.falls h ≡ some t
    → pos_fallidx c h ≡ t.fallidx
unfolding pos_fallidx
pos_fallidx_found c h t at = rw (at, pos_fallidx) refl

node_below_found :
    (n h : ℕ) (falls : ℕ → Fall)
    → TimersFit falls
    → 0 < sum_below n (λ j. timers_of h (falls j).timers)
    → (i : ℕ) × (t : Timeout) × (i < n)
      × (node_below n falls h ≡ some t)
      × (t.fallidx ≡ i)
      × (0 < timers_of h (falls i).timers)
unfolding node_below sum_below
node_below_found zero h falls fit some_one = absurd (omega (arith, some_one))
node_below_found (suc n) h falls fit some_one = elim (ℕ_discrete (timers_of h (falls n).timers) 0) [
  | yes z ↦
      let (i, t, lt, at, idx, here) = node_below_found n h falls fit (omega (arith, some_one, z)) in
      (
        i,
        t,
        omega (arith, lt),
        node_below_skip n h falls (node_in_absent (falls n).timers h z) ∙ at,
        idx,
        here,
      )
  | no nz ↦
      let (t, at, fits) = node_in_found (Fits n) (falls n).timers h (fit n) (omega (arith, nz)) in
      (n, t, omega arith, node_below_here n h falls t at, fits.0, omega (arith, nz))
]

-- The one fall in which the timer of a registered handler stands.
pub record Placed (c : Countdown) (h i : ℕ) : Type 0 where
  pub in_range : i < falls_size
  pub position : pos_fallidx c h ≡ i
  pub here : timers_of h (c.falls i).timers ≡ 1
  pub elsewhere : (j : ℕ) → j < falls_size → j ≢ i → timers_of h (c.falls j).timers ≡ 0

sum_timers_of :
    (c : Countdown) (h : ℕ)
    → IsWheel c
    → sum_below falls_size (λ j. timers_of h (c.falls j).timers) ≡ (if c.registered h then 1 else 0)
sum_timers_of c h wheel =
    sum_below_congr falls_size (λ j. timers_of h (c.falls j).timers)
      (λ j. tally (λ g r. is_handler h g) (c.falls j).elapsed (c.falls j).timers)
      (λ j lt. sym (tally-timers_of h (c.falls j).elapsed (c.falls j).timers))
    ∙ wheel.single h

-- Two terms of a sum.
sum_below_two : (n i j : ℕ) (f : ℕ → ℕ) → i < n → j < n → j ≢ i → f i + f j ≤ sum_below n f
sum_below_two n i j f lt k ne = omega (
  arith,
  sum_below_replace n i f (put f i 0) lt (λ l _ other. sym (put_other f i l 0 other)),
  put_same f i 0,
  put_other f i j 0 ne,
  sum_below_le n j (put f i 0) k,
)

pub registered-Placed :
    (c : Countdown) (h : ℕ) → IsWheel c → c.registered h ≡ true → (i : ℕ) × Placed c h i
unfolding pos_fallidx
registered-Placed c h wheel is =
    let (i, t, lt, at, idx, here) =
      node_below_found falls_size h c.falls wheel.timers_fit
        (ground (arith, sum_timers_of c h wheel, is)) in
    (
      i,
      record {
        in_range = lt;
        position = pos_fallidx_found c h t at ∙ idx;
        here = ground (
          arith,
          sum_timers_of c h wheel,
          is,
          here,
          sum_below_le falls_size i (λ j. timers_of h (c.falls j).timers) lt,
        );
        elsewhere = λ j k ne. ground (
          arith,
          sum_timers_of c h wheel,
          is,
          here,
          sum_below_two falls_size i j (λ j. timers_of h (c.falls j).timers) lt k ne,
        );
      },
    )

pub unregistered_absent :
    (c : Countdown) (h : ℕ)
    → IsWheel c
    → c.registered h ≡ false
    → (j : ℕ) → j < falls_size
    → timers_of h (c.falls j).timers ≡ 0
unregistered_absent c h wheel is j lt = ground (
  arith,
  sum_timers_of c h wheel,
  sum_below_le falls_size j (λ j. timers_of h (c.falls j).timers) lt,
)
