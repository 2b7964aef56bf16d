-- ===== src/Base/Tables.antt =====
-- Facts about every value of a small range, checked by evaluation.
use Prim.Native.Nat.{ℕ, zero, suc, ◌<◌}
use mathlib.Core.Path.{◌≡◌}
use mathlib.Core.Bool.{Bool, true, ◌&&◌}
use native.Mathlib.Omega.{arith}
use lin_socket_io.Base.Tests.{◌==◌, Bool-cases}

unfoldable pub all_below : ℕ → (ℕ → Bool) → Bool
all_below zero test = true
all_below (suc bound) test = all_below bound test && test bound

-- What the check says of one value.
pub all_below_sound :
    (bound : ℕ) (test : ℕ → Bool) (i : ℕ) → all_below bound test ≡ true → i < bound → test i ≡ true
unfolding all_below
all_below_sound (suc bound) test i h lt =
    let below = all_below_sound bound test i in ground (arith, below, Bool-cases (test i))
all_below_sound zero test i h lt = absurd (omega arith)

-- Two functions that agree below a bound.
pub agree_below :
    (f g : ℕ → ℕ) (n : ℕ) → all_below n (λ x. f x == g x) ≡ true → (x : ℕ) → x < n → f x ≡ g x
agree_below f g n h x lt = ground (arith, all_below_sound n (λ i. f i == g i) x)
