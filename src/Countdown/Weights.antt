-- ===== src/Countdown/Weights.antt =====
-- Sums over the timers of a wheel: each handler and the time it has left weigh a number.
use native.Mathlib.Decide.{ℕ_discrete}
use lin_socket_io.Base.{
  ap₂, ◌∙◌, ℕ, zero, suc, ◌+◌, ◌-◌, ◌≤◌, ◌<◌, ◌≡◌, refl, ap, ◌≢◌, List, [], ◌∷◌, ◌++◌, arith,
}
use lin_socket_io.Countdown.{put, Timeout, Fall, falls_size}

-- the timers of one list, of which `spent` has passed
abbrev pub tally : (ℕ → ℕ → ℕ) → ℕ → List Timeout → ℕ
tally w spent [] = 0
tally w spent (t ∷ ts) = w t.handler (t.count - spent) + tally w spent ts

unfoldable pub sum_below : ℕ → (ℕ → ℕ) → ℕ
sum_below zero f = 0
sum_below (suc n) f = sum_below n f + f n

-- the weights of all timers of the wheel
abbrev pub weigh : (ℕ → ℕ → ℕ) → (ℕ → Fall) → ℕ
weigh w falls = sum_below falls_size (λ i. tally w (falls i).elapsed (falls i).timers)

-- the weights of a list of handlers
abbrev pub weigh_all : (ℕ → ℕ) → List ℕ → ℕ
weigh_all v [] = 0
weigh_all v (h ∷ hs) = v h + weigh_all v hs

pub weigh_all-append :
    (v : ℕ → ℕ) (xs ys : List ℕ) → weigh_all v (xs ++ ys) ≡ weigh_all v xs + weigh_all v ys
weigh_all-append v [] ys = omega arith
weigh_all-append v (x ∷ xs) ys = omega (arith, weigh_all-append v xs ys)

pub weigh_all_zero : (xs : List ℕ) → weigh_all (λ h. 0) xs ≡ 0
weigh_all_zero [] = refl
weigh_all_zero (x ∷ xs) = omega (arith, weigh_all_zero xs)

pub tally-append :
    (w : ℕ → ℕ → ℕ) (spent : ℕ) (xs ys : List Timeout)
    → tally w spent (xs ++ ys) ≡ tally w spent xs + tally w spent ys
tally-append w spent [] ys = omega arith
tally-append w spent (x ∷ xs) ys = omega (arith, tally-append w spent xs ys)

pub sum_below_congr :
    (n : ℕ) (f g : ℕ → ℕ) → ((j : ℕ) → j < n → f j ≡ g j) → sum_below n f ≡ sum_below n g
unfolding sum_below
sum_below_congr zero f g same = refl
sum_below_congr (suc n) f g same =
    omega (arith, sum_below_congr n f g (λ j lt. same j (omega arith)), same n (omega arith))

-- The last term alone differs.
sum_below_last :
    (n i : ℕ) (f g : ℕ → ℕ)
    → n ≡ i
    → sum_below n f ≡ sum_below n g
    → sum_below (suc n) f + g i ≡ sum_below (suc n) g + f i
unfolding sum_below
sum_below_last n i f g e below = omega (arith, below, ap f e, ap g e)

-- Two sums that differ in one term.
pub sum_below_replace :
    (n i : ℕ) (f g : ℕ → ℕ)
    → i < n
    → ((j : ℕ) → j < n → j ≢ i → f j ≡ g j)
    → sum_below n f + g i ≡ sum_below n g + f i
unfolding sum_below
sum_below_replace zero i f g lt same = absurd (omega arith)
sum_below_replace (suc n) i f g lt same = elim (ℕ_discrete n i) [
  | yes e ↦
      let below =
        sum_below_congr n f g (λ j k. same j (omega arith) (λ eq. absurd (omega arith))) in
      sum_below_last n i f g e below
  | no ne ↦ omega (
    arith,
    sum_below_replace n i f g (omega arith) (λ j k. same j (omega arith)),
    same n (omega arith) ne,
  )
]

-- A term is at most the sum.
pub sum_below_le : (n i : ℕ) (f : ℕ → ℕ) → i < n → f i ≤ sum_below n f
unfolding sum_below
sum_below_le zero i f lt = absurd (omega arith)
sum_below_le (suc n) i f lt = elim (ℕ_discrete n i) [
  | yes e ↦ omega (arith, ap f e)
  | no ne ↦ omega (arith, sum_below_le n i f (omega arith))
]

pub put_same {ℓ} : {A : Type ℓ} (f : ℕ → A) (k : ℕ) (a : A) → put f k a k ≡ a
put_same f k a = ground arith

pub put_other {ℓ} : {A : Type ℓ} (f : ℕ → A) (k j : ℕ) (a : A) → j ≢ k → put f k a j ≡ f j
put_other f k j a ne = ground arith

-- A sum over the falls, one of which is changed.
pub sum_below-put :
    (n k : ℕ) (T : ℕ → Fall → ℕ) (falls : ℕ → Fall) (f : Fall)
    → k < n
    → sum_below n (λ j. T j (put falls k f j)) + T k (falls k)
      ≡ sum_below n (λ j. T j (falls j)) + T k f
sum_below-put n k T falls f lt =
    sum_below_replace n k (λ j. T j (put falls k f j)) (λ j. T j (falls j)) lt
      (λ j _ ne. ap (T j) (put_other falls k j f ne))
    ∙ ap (λ g. sum_below n (λ j. T j (falls j)) + T k g) (put_same falls k f)

pub tally_congr :
    (g g' : ℕ → ℕ → ℕ) (x x' : ℕ) (ts : List Timeout)
    → g ≡ g'
    → x ≡ x'
    → tally g x ts ≡ tally g' x' ts
tally_congr g g' x x' ts same equal = ap₂ (λ h y. tally h y ts) same equal

pub tally_pointwise :
    (w w' : ℕ → ℕ → ℕ) (spent : ℕ) (ts : List Timeout)
    → ((h r : ℕ) → w h r ≡ w' h r)
    → tally w spent ts ≡ tally w' spent ts
tally_pointwise w w' spent [] same = refl
tally_pointwise w w' spent (t ∷ ts) same =
    ap₂ (λ a b. a + b) (same t.handler (t.count - spent)) (tally_pointwise w w' spent ts same)

pub weigh_pointwise :
    (w w' : ℕ → ℕ → ℕ) (falls : ℕ → Fall)
    → ((h r : ℕ) → w h r ≡ w' h r)
    → weigh w falls ≡ weigh w' falls
weigh_pointwise w w' falls same =
    sum_below_congr falls_size (λ j. tally w (falls j).elapsed (falls j).timers)
      (λ j. tally w' (falls j).elapsed (falls j).timers)
      (λ j lt. tally_pointwise w w' (falls j).elapsed (falls j).timers same)

tally_zero : (spent : ℕ) (ts : List Timeout) → tally (λ h r. 0) spent ts ≡ 0
tally_zero spent [] = refl
tally_zero spent (t ∷ ts) = omega (arith, tally_zero spent ts)

sum_below_zero : (n : ℕ) (f : ℕ → ℕ) → ((j : ℕ) → f j ≡ 0) → sum_below n f ≡ 0
unfolding sum_below
sum_below_zero zero f z = refl
sum_below_zero (suc n) f z = omega (arith, sum_below_zero n f z, z n)

pub weigh_zero : (w : ℕ → ℕ → ℕ) (falls : ℕ → Fall) → ((h r : ℕ) → w h r ≡ 0) → weigh w falls ≡ 0
weigh_zero w falls none_weighs =
    weigh_pointwise w (λ h r. 0) falls none_weighs
    ∙ sum_below_zero falls_size (λ j. tally (λ h r. 0) (falls j).elapsed (falls j).timers)
        (λ j. tally_zero (falls j).elapsed (falls j).timers)
