-- ===== src/Wire/Order.antt =====
-- A byte swap, and what it makes of the bytes of a word.
use lin_socket_io.Base.{
  refl, length-append, length, ℕ, zero, suc, ◌+◌, ◌*◌, ◌/◌, ◌%◌, ◌^◌, ◌<◌, ◌≡◌, [], ◌∷◌, ◌++◌,
  arith, ◌==◌, if◌then◌else◌, Bytes,
}
use lin_socket_io.Buffer.Memory.{length-le_bytes, le_bytes}
use lin_socket_io.Wire.{hton64, hton32, little_endian, hton16, bswap16, bswap32, bswap64}
use lin_socket_io.Wire.Bits.{bit_and-mask, bit_or_join, bit_and-ff}

-- The `k` bytes of an unsigned number, the highest first.
unfoldable pub be_bytes : ℕ → ℕ → Bytes
be_bytes zero v = []
be_bytes (suc k) v = be_bytes k (v / 256) ++ v % 256 ∷ []

-- byte `k` of a number
abbrev byte : ℕ → ℕ → ℕ
byte x k = x / 256 ^ k % 256

bswap16_sum : (x : ℕ) → bswap16 x ≡ byte x 1 + 2 ^ 8 * byte x 0
unfolding bswap16
bswap16_sum x =
    bit_or_join 8 (byte x 0) (byte x 1) (bit_and-ff (x / 2 ^ 8)) (omega (arith, bit_and-ff x))
      (omega arith)

bswap32_sum :
    (x : ℕ) → bswap32 x ≡ byte x 3 + 2 ^ 8 * byte x 2 + 2 ^ 16 * byte x 1 + 2 ^ 24 * byte x 0
unfolding bswap32
bswap32_sum x =
    bit_or_join 24 (byte x 0) _
      (bit_or_join 16 (byte x 1) _
        (bit_or_join 8 (byte x 2) (byte x 3) (omega (arith, bit_and-mask 3 x))
          (omega (arith, bit_and-mask 2 x)) (omega arith))
        (omega (arith, bit_and-mask 1 x)) (omega arith))
      (omega (arith, bit_and-mask 0 x)) (omega arith)

bswap64_sum :
    (x : ℕ)
    → bswap64 x
      ≡ byte x 7
        + 2 ^ 8 * byte x 6
        + 2 ^ 16 * byte x 5
        + 2 ^ 24 * byte x 4
        + 2 ^ 32 * byte x 3
        + 2 ^ 40 * byte x 2
        + 2 ^ 48 * byte x 1
        + 2 ^ 56 * byte x 0
unfolding bswap64
bswap64_sum x =
    bit_or_join 56 (byte x 0) _
      (bit_or_join 48 (byte x 1) _
        (bit_or_join 40 (byte x 2) _
          (bit_or_join 32 (byte x 3) _
            (bit_or_join 24 (byte x 4) _
              (bit_or_join 16 (byte x 5) _
                (bit_or_join 8 (byte x 6) (byte x 7) (omega (arith, bit_and-mask 7 x))
                  (omega (arith, bit_and-mask 6 x)) (omega arith))
                (omega (arith, bit_and-mask 5 x)) (omega arith))
              (omega (arith, bit_and-mask 4 x)) (omega arith))
            (omega (arith, bit_and-mask 3 x)) (omega arith))
          (omega (arith, bit_and-mask 2 x)) (omega arith))
        (omega (arith, bit_and-mask 1 x)) (omega arith))
      (omega (arith, bit_and-mask 0 x)) (omega arith)

-- A swapped word stands in memory with its highest byte first.
le_bytes-bswap16 : (x : ℕ) → le_bytes 2 (bswap16 x) ≡ be_bytes 2 x
unfolding le_bytes be_bytes
le_bytes-bswap16 x = rw (bswap16_sum x) (ground arith)

le_bytes-bswap32 : (x : ℕ) → le_bytes 4 (bswap32 x) ≡ be_bytes 4 x
unfolding le_bytes be_bytes
le_bytes-bswap32 x = rw (bswap32_sum x) (ground arith)

le_bytes-bswap64 : (x : ℕ) → le_bytes 8 (bswap64 x) ≡ be_bytes 8 x
unfolding le_bytes be_bytes
le_bytes-bswap64 x = rw (bswap64_sum x) (ground arith)

-- Swapping twice changes nothing.
bswap16-bswap16 : (x : ℕ) → x < 2 ^ 16 → bswap16 (bswap16 x) ≡ x
bswap16-bswap16 x h = omega (arith, bswap16_sum x, bswap16_sum (bswap16 x))

bswap32-bswap32 : (x : ℕ) → x < 2 ^ 32 → bswap32 (bswap32 x) ≡ x
bswap32-bswap32 x h = omega (arith, bswap32_sum x, bswap32_sum (bswap32 x))

bswap64-bswap64 : (x : ℕ) → x < 2 ^ 64 → bswap64 (bswap64 x) ≡ x
bswap64-bswap64 x h = omega (arith, bswap64_sum x, bswap64_sum (bswap64 x))

-- The `k` bytes of a number in the order that the int `bo` names: any but LITTLE_ENDIAN is big.
unfoldable pub ordered_bytes : ℕ → ℕ → ℕ → Bytes
ordered_bytes k v bo = if bo == little_endian then le_bytes k v else be_bytes k v

-- hton* puts the bytes of a word into memory in the order named.
pub le_bytes-hton :
    (v bo : ℕ)
    → (le_bytes 2 (hton16 v bo) ≡ ordered_bytes 2 v bo)
      × (le_bytes 4 (hton32 v bo) ≡ ordered_bytes 4 v bo)
      × (le_bytes 8 (hton64 v bo) ≡ ordered_bytes 8 v bo)
unfolding hton16 hton32 hton64 ordered_bytes
le_bytes-hton v bo = ground (arith, le_bytes-bswap16 v, le_bytes-bswap32 v, le_bytes-bswap64 v)

pub hton-hton_each :
    (v bo : ℕ)
    → (v < 2 ^ 16 → hton16 (hton16 v bo) bo ≡ v)
      × (v < 2 ^ 32 → hton32 (hton32 v bo) bo ≡ v)
      × (v < 2 ^ 64 → hton64 (hton64 v bo) bo ≡ v)
unfolding hton16 hton32 hton64
hton-hton_each v bo = (
  λ h. ground (arith, bswap16-bswap16 v),
  λ h. ground (arith, bswap32-bswap32 v),
  λ h. ground (arith, bswap64-bswap64 v),
)

-- ntoh* has the body of hton*, and undoes it on the words of each width.
pub hton-hton :
    (u v w bo : ℕ)
    → u < 2 ^ 16
    → v < 2 ^ 32
    → w < 2 ^ 64
    → (hton16 (hton16 u bo) bo ≡ u) × (hton32 (hton32 v bo) bo ≡ v) × (hton64 (hton64 w bo) bo ≡ w)
hton-hton u v w bo h k l =
    ((hton-hton_each u bo).0 h, (hton-hton_each v bo).1 k, (hton-hton_each w bo).2 l)

-- Words stay words.
pub hton_bounds :
    (v bo : ℕ)
    → (v < 2 ^ 16 → hton16 v bo < 2 ^ 16)
      × (v < 2 ^ 32 → hton32 v bo < 2 ^ 32)
      × (v < 2 ^ 64 → hton64 v bo < 2 ^ 64)
unfolding hton16 hton32 hton64
hton_bounds v bo = (
  λ h. ground (arith, bswap16_sum v),
  λ h. ground (arith, bswap32_sum v),
  λ h. ground (arith, bswap64_sum v),
)

length-be_bytes : (k v : ℕ) → length (be_bytes k v) ≡ k
unfolding be_bytes
length-be_bytes zero v = refl
length-be_bytes (suc k) v =
    omega (arith, length-be_bytes k (v / 256), length-append (be_bytes k (v / 256)) (v % 256 ∷ []))

pub length-ordered_bytes : (k v bo : ℕ) → length (ordered_bytes k v bo) ≡ k
unfolding ordered_bytes
length-ordered_bytes k v bo = ground (arith, length-be_bytes k v, length-le_bytes k v)
