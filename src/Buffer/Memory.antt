-- ===== src/Buffer/Memory.antt =====
-- A block of memory as a function from offsets to bytes, and the part of it that a list describes.
use native.Mathlib.Nat.{pow-suc}
use lin_socket_io.Base.{
  ℕ, zero, suc, ◌+◌, ◌-◌, ◌*◌, ◌/◌, ◌%◌, ◌^◌, ◌≤◌, ◌<◌, ◌≡◌, refl, ap, ap₂, ◌∙◌, subst, ◌&&◌, [],
  ◌∷◌, ◌++◌, arith, ltb, leb, if◌then◌else◌, Bytes, IsByte, length, get_or, take, drop, All,
}

-- memcpy, or memmove, of `n` bytes at `from` in `src` to the start of `dst`
unfoldable pub copy : (ℕ → ℕ) → ℕ → ℕ → (ℕ → ℕ) → ℕ → ℕ
copy src from n dst j = if ltb j n then src (from + j) else dst j

-- memcpy of a list to offset `i` of a block
unfoldable pub store : (ℕ → ℕ) → ℕ → Bytes → ℕ → ℕ
store f i xs j = if leb i j && ltb j (i + length xs) then get_or xs (j - i) 0 else f j

-- The `k` bytes of an unsigned number in the host's order, the lowest first.
unfoldable pub le_bytes : ℕ → ℕ → Bytes
le_bytes zero v = []
le_bytes (suc k) v = v % 256 ∷ le_bytes k (v / 256)

-- the `n` bytes from offset `i` on
unfoldable pub slice : (ℕ → ℕ) → ℕ → ℕ → Bytes
slice f i zero = []
slice f i (suc n) = f i ∷ slice f (i + 1) n

pub length-slice : (f : ℕ → ℕ) (i n : ℕ) → length (slice f i n) ≡ n
unfolding slice
length-slice f i zero = refl
length-slice f i (suc n) = ap suc (length-slice f (i + 1) n)

pub length-le_bytes : (k v : ℕ) → length (le_bytes k v) ≡ k
unfolding le_bytes
length-le_bytes zero v = refl
length-le_bytes (suc k) v = ap suc (length-le_bytes k (v / 256))

-- Slices are equal if the bytes are, one by one.
pub slice_ext :
    (f g : ℕ → ℕ) (i k n : ℕ)
    → ((j : ℕ) → j < n → f (i + j) ≡ g (k + j))
    → slice f i n ≡ slice g k n
unfolding slice
slice_ext f g i k zero h = refl
slice_ext f g i k (suc n) h = ap₂ ◌∷◌ first (slice_ext f g (i + 1) (k + 1) n later)
  where
    first : f i ≡ g k
    first =
        subst (λ a. f a ≡ g k) (omega arith)
          (subst (λ a. f (i + 0) ≡ g a) (omega arith) (h 0 (omega arith)))

    later : (j : ℕ) → j < n → f (i + 1 + j) ≡ g (k + 1 + j)
    later j lt =
        subst (λ a. f a ≡ g (k + 1 + j)) (omega arith)
          (subst (λ a. f (i + suc j) ≡ g a) (omega arith) (h (suc j) (omega arith)))

pub slice-add : (f : ℕ → ℕ) (i n m : ℕ) → slice f i (n + m) ≡ slice f i n ++ slice f (i + n) m
unfolding slice
slice-add f i zero m = ap₂ (slice f) (omega arith) (omega arith)
slice-add f i (suc n) m =
    ap (slice f i) grown
    ∙ ap (◌∷◌ (f i))
        (slice-add f (i + 1) n m ∙ ap (λ k. slice f (i + 1) n ++ slice f k m) (omega arith))
  where
    grown : suc n + m ≡ suc (n + m)
    grown = omega arith

pub drop-slice : (f : ℕ → ℕ) (i n k : ℕ) → k ≤ n → drop k (slice f i n) ≡ slice f (i + k) (n - k)
unfolding slice
drop-slice f i n zero h = ap₂ (slice f) (omega arith) (omega arith)
drop-slice f i zero (suc k) h = absurd (omega arith)
drop-slice f i (suc n) (suc k) h =
    drop-slice f (i + 1) n k (omega arith) ∙ ap₂ (slice f) (omega arith) (omega arith)

pub take-slice : (f : ℕ → ℕ) (i n k : ℕ) → k ≤ n → take k (slice f i n) ≡ slice f i k
unfolding slice
take-slice f i n zero h = refl
take-slice f i zero (suc k) h = absurd (omega arith)
take-slice f i (suc n) (suc k) h = ap (◌∷◌ (f i)) (take-slice f (i + 1) n k (omega arith))

slice-get_or : (xs : Bytes) → slice (λ j. get_or xs j 0) 0 (length xs) ≡ xs
unfolding slice
slice-get_or [] = refl
slice-get_or (x ∷ xs) = ap (◌∷◌ x) (
    slice_ext (λ j. get_or (x ∷ xs) j 0) (λ j. get_or xs j 0) 1 0 (length xs) later
    ∙ slice-get_or xs)
  where
    later : (j : ℕ) → j < length xs → get_or (x ∷ xs) (1 + j) 0 ≡ get_or xs (0 + j) 0
    later j lt =
        ap (λ k. get_or (x ∷ xs) k 0) (let e : 1 + j ≡ suc j = omega arith in e)
        ∙ ap (λ k. get_or xs k 0) (omega arith)

pub slice-store_self : (f : ℕ → ℕ) (i : ℕ) (xs : Bytes) → slice (store f i xs) i (length xs) ≡ xs
unfolding store
slice-store_self f i xs =
    slice_ext (store f i xs) (λ j. get_or xs j 0) i 0 (length xs) (λ j lt. ground (arith))
    ∙ slice-get_or xs

pub slice-store_below :
    (f : ℕ → ℕ) (i : ℕ) (xs : Bytes) (k n : ℕ) → k + n ≤ i → slice (store f i xs) k n ≡ slice f k n
unfolding store
slice-store_below f i xs k n h = slice_ext (store f i xs) f k k n (λ j lt. ground arith)

pub slice-copy : (src dst : ℕ → ℕ) (from n : ℕ) → slice (copy src from n dst) 0 n ≡ slice src from n
unfolding copy
slice-copy src dst from n = slice_ext (copy src from n dst) src 0 from n (λ j lt. ground arith)

-- The number that a list of bytes stands for, the lowest byte first.
unfoldable pub from_le : Bytes → ℕ
from_le [] = 0
from_le (b ∷ bs) = b + 256 * from_le bs

pub from_le-le_bytes : (k v : ℕ) → v < 256 ^ k → from_le (le_bytes k v) ≡ v
unfolding from_le le_bytes
from_le-le_bytes zero v h = omega arith
from_le-le_bytes (suc k) v h =
    omega (arith, pow-suc 256 k, from_le-le_bytes k (v / 256) (omega (arith, pow-suc 256 k)))

pub le_bytes-IsByte : (k v : ℕ) → All IsByte (le_bytes k v)
unfolding le_bytes
le_bytes-IsByte zero v = tt
le_bytes-IsByte (suc k) v = (omega arith, le_bytes-IsByte k (v / 256))
