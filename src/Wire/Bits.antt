-- ===== src/Wire/Bits.antt =====
-- Masks of whole bytes, and unions of separate bytes, as arithmetic.
use lin_socket_io.Base.{
  ℕ, zero, suc, ◌+◌, ◌*◌, ◌/◌, ◌%◌, ◌^◌, ◌≤◌, ◌<◌, min, max, bit_and, bit_or, ◌≡◌, refl, sym, ap,
  ap₂, ◌∙◌, arith,
}
use native.Mathlib.Nat.{pow-suc, div-div-eq-div-mul}
use Prim.Native.Nat.{digits, bit_and-bitwise, bit_or-bitwise}

-- The native operations work digit by digit, with `last` where the first number has no digit left, and
-- with `join` on two digits. The number of rounds does not matter, as long as it is enough.
module _ (last : ℕ → ℕ) (join : ℕ → ℕ → ℕ) where
  no_digits : (i y : ℕ) → digits last join i 0 y ≡ last y
  no_digits zero y = refl
  no_digits (suc i) y = refl

  rounds : (i j x y : ℕ) → x ≤ i → x ≤ j → digits last join i x y ≡ digits last join j x y
  rounds i j zero y h k = no_digits i y ∙ sym (no_digits j y)
  rounds (suc i) (suc j) (suc x) y h k =
      ap (λ t. t * 2 + join (suc x % 2) (y % 2))
        (rounds i j (suc x / 2) (y / 2) (omega arith) (omega arith))
  rounds zero j (suc x) y h k = absurd (omega arith)
  rounds i zero (suc x) y h k = absurd (omega arith)

  -- one round: the digits above the lowest, and the lowest
  peel :
      (x y : ℕ)
      → last y ≡ last (y / 2) * 2 + join 0 (y % 2)
      → digits last join x x y ≡ digits last join (x / 2) (x / 2) (y / 2) * 2 + join (x % 2) (y % 2)
  peel zero y e = e
  peel (suc x) y e =
      ap (λ t. t * 2 + join (suc x % 2) (y % 2))
        (rounds x (suc x / 2) (suc x / 2) (y / 2) (omega arith) (omega arith))

bit_and_step : (x y : ℕ) → bit_and x y ≡ bit_and (x / 2) (y / 2) * 2 + min (x % 2) (y % 2)
bit_and_step x y =
    bit_and-bitwise x y
    ∙ peel (λ b. 0) min x y (omega arith)
    ∙ ap (λ t. t * 2 + min (x % 2) (y % 2)) (sym (bit_and-bitwise (x / 2) (y / 2)))

bit_or_step : (x y : ℕ) → bit_or x y ≡ bit_or (x / 2) (y / 2) * 2 + max (x % 2) (y % 2)
bit_or_step x y =
    bit_or-bitwise x y
    ∙ peel (λ b. b) max x y (omega arith)
    ∙ ap (λ t. t * 2 + max (x % 2) (y % 2)) (sym (bit_or-bitwise (x / 2) (y / 2)))

zero-bit_or : (y : ℕ) → bit_or 0 y ≡ y
zero-bit_or y = bit_or-bitwise 0 y

and_rounds_zero : (i x : ℕ) → digits (λ b. 0) min i x 0 ≡ 0
and_rounds_zero zero x = refl
and_rounds_zero (suc i) zero = refl
and_rounds_zero (suc i) (suc x) = omega (arith, and_rounds_zero i (suc x / 2))

bit_and-zero : (x : ℕ) → bit_and x 0 ≡ 0
bit_and-zero x = bit_and-bitwise x 0 ∙ and_rounds_zero x x

or_rounds_zero : (i x : ℕ) → x ≤ i → digits (λ b. b) max i x 0 ≡ x
or_rounds_zero i zero h = no_digits (λ b. b) max i 0
or_rounds_zero zero (suc x) h = absurd (omega arith)
or_rounds_zero (suc i) (suc x) h = omega (arith, or_rounds_zero i (suc x / 2) (omega arith))

bit_or-zero : (x : ℕ) → bit_or x 0 ≡ x
bit_or-zero x = bit_or-bitwise x 0 ∙ or_rounds_zero x x (omega arith)

-- A mask with its lowest bit clear, then with two, four and eight.
bit_and-double : (x m : ℕ) → bit_and x (2 * m) ≡ 2 * bit_and (x / 2) m
bit_and-double x m = omega (arith, bit_and_step x (2 * m), ap (bit_and (x / 2)) (halved m))
  where
    halved : (m : ℕ) → 2 * m / 2 ≡ m
    halved m = omega arith

bit_and-quad : (x m : ℕ) → bit_and x (4 * m) ≡ 4 * bit_and (x / 4) m
bit_and-quad x m =
    ap (bit_and x) (omega arith)
    ∙ bit_and-double x (2 * m)
    ∙ ap (λ t. 2 * t) (bit_and-double (x / 2) m)
    ∙ ap (λ y. 2 * (2 * bit_and y m)) (let e : x / 2 / 2 ≡ x / 4 = omega arith in e)
    ∙ omega arith

bit_and-sixteen : (x m : ℕ) → bit_and x (16 * m) ≡ 16 * bit_and (x / 16) m
bit_and-sixteen x m =
    ap (bit_and x) (omega arith)
    ∙ bit_and-quad x (4 * m)
    ∙ ap (λ t. 4 * t) (bit_and-quad (x / 4) m)
    ∙ ap (λ y. 4 * (4 * bit_and y m)) (let e : x / 4 / 4 ≡ x / 16 = omega arith in e)
    ∙ omega arith

pub bit_and-byte : (x m : ℕ) → bit_and x (256 * m) ≡ 256 * bit_and (x / 256) m
bit_and-byte x m =
    ap (bit_and x) (omega arith)
    ∙ bit_and-sixteen x (16 * m)
    ∙ ap (λ t. 16 * t) (bit_and-sixteen (x / 16) m)
    ∙ ap (λ y. 16 * (16 * bit_and y m)) (let e : x / 16 / 16 ≡ x / 256 = omega arith in e)
    ∙ omega arith

-- the mask of the lowest byte
bit_and-nibble : (x : ℕ) → bit_and x 15 ≡ x % 16
bit_and-nibble x = omega (
  arith,
  bit_and_step x 15,
  bit_and_step (x / 2) 7,
  bit_and_step (x / 2 / 2) 3,
  bit_and_step (x / 2 / 2 / 2) 1,
  bit_and-zero (x / 2 / 2 / 2 / 2),
)

pub bit_and-ff : (x : ℕ) → bit_and x 0xff ≡ x % 256
bit_and-ff x = omega (
  arith,
  bit_and_step x 255,
  bit_and_step (x / 2) 127,
  bit_and_step (x / 2 / 2) 63,
  bit_and_step (x / 2 / 2 / 2) 31,
  bit_and-nibble (x / 2 / 2 / 2 / 2),
)

-- The mask of byte `k`.
pub bit_and-mask : (k x : ℕ) → bit_and x (0xff * 256 ^ k) ≡ x / 256 ^ k % 256 * 256 ^ k
bit_and-mask zero x = bit_and-ff x ∙ omega arith
bit_and-mask (suc k) x =
    ap (bit_and x) raised
    ∙ bit_and-byte x (0xff * 256 ^ k)
    ∙ ap (λ t. 256 * t) (bit_and-mask k (x / 256))
    ∙ ap (λ t. 256 * (t % 256 * 256 ^ k)) lowered
    ∙ omega (arith, pow-suc 256 k, ap (λ (t : ℕ). x / 256 ^ suc k % 256 * t) (pow-suc 256 k))
  where
    raised : 0xff * 256 ^ suc k ≡ 256 * (0xff * 256 ^ k)
    raised = omega (arith, pow-suc 256 k)

    lowered : x / 256 / 256 ^ k ≡ x / 256 ^ suc k
    lowered =
        div-div-eq-div-mul x 256 (256 ^ k)
        ∙ ap (λ d. x / d) (let e : 256 * 256 ^ k ≡ 256 ^ suc k = omega (arith, pow-suc 256 k) in e)

-- `a` moved up by `k` bits
shl : ℕ → ℕ → ℕ
shl zero a = a
shl (suc k) a = 2 * shl k a

low-bit_or : (k a b : ℕ) → b < shl k 1 → bit_or b (shl k a) ≡ b + shl k a
unfolding shl
low-bit_or zero a b h = ap (λ t. bit_or t a) (omega arith) ∙ zero-bit_or a ∙ omega arith
low-bit_or (suc k) a b h = omega (
  arith,
  bit_or_step b (2 * shl k a),
  ap (bit_or (b / 2)) (let e : 2 * shl k a / 2 ≡ shl k a = omega arith in e),
  low-bit_or k a (b / 2) (omega arith),
)

shl-pow : (k a : ℕ) → shl k a ≡ 2 ^ k * a
unfolding shl
shl-pow zero a = omega arith
shl-pow (suc k) a = omega (arith, shl-pow k a, ap (λ (t : ℕ). t * a) (pow-suc 2 k))

-- The union of a number below 2^k and a multiple of 2^k is their sum.
pub bit_or_join :
    (k a b : ℕ) {p q : ℕ} → p ≡ b → q ≡ 2 ^ k * a → b < 2 ^ k → bit_or p q ≡ b + 2 ^ k * a
bit_or_join k a b ep eq h =
    ap₂ bit_or ep (eq ∙ sym (shl-pow k a))
    ∙ low-bit_or k a b (omega (arith, shl-pow k 1))
    ∙ ap (λ t. b + t) (shl-pow k a)
