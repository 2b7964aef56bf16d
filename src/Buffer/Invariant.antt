-- ===== src/Buffer/Invariant.antt =====
-- The representation invariant of a ByteBuffer, and the operations that allocate nothing.
use lin_socket_io.Base.{ℕ, ◌%◌, ◌^◌, ◌≤◌, ◌<◌, ◌≡◌, ◌⊎◌, Bool, false, [], arith, Bytes}
use lin_socket_io.Buffer.{
  ByteBuffer, block_size, size, init, set_limit, erase, recycle, advance, back,
}
use lin_socket_io.Buffer.Memory.{slice}

pub record IsValid (b : ByteBuffer) : Type 0 where
  pub ordered : b.head ≤ b.tail
  pub inside : b.tail ≤ b.cap
  pub some_cap : 1024 ≤ b.cap
  pub small_cap : b.cap ≤ 2 ^ 31
  pub small_limit : b.limit < 2 ^ 30
  pub marked : b.high_water_mark ≤ b.cap
  pub blocks : (b.cap ≡ 1024) ⊎ (b.cap % block_size ≡ 0)
  pub stack : (b.on_stack ≡ false) ⊎ (b.cap ≡ 1024)

-- the bytes that a buffer holds, the oldest first
abbrev pub contents : ByteBuffer → Bytes
contents b = slice b.mem b.head (size b)

pub init-IsValid :
    (stack : ℕ → ℕ) (grow2x : Bool)
    → IsValid (init stack grow2x) × (contents (init stack grow2x) ≡ [])
unfolding init slice
init-IsValid stack grow2x = ground arith

-- Below 2^30 limit(n) keeps the invariant, and the limit is never below what is held.
pub set_limit-IsValid :
    (b : ByteBuffer) (n : ℕ)
    → IsValid b
    → n < 2 ^ 30
    → size b < 2 ^ 30
    → IsValid (set_limit b n) × (size b ≤ (set_limit b n).limit) × (n ≤ (set_limit b n).limit)
unfolding set_limit
set_limit-IsValid b n v h k = ground arith

pub erase-IsValid : (b : ByteBuffer) (n : ℕ) → IsValid b → IsValid (erase b n).0
unfolding erase
erase-IsValid b n v = ground arith

pub erase_limit : (b : ByteBuffer) (n : ℕ) → (erase b n).0.limit ≡ b.limit
unfolding erase
erase_limit b n = ground arith

pub recycle-IsValid : (b : ByteBuffer) → IsValid b → IsValid (recycle b)
unfolding recycle
recycle-IsValid b v = ground arith

module _ (fresh : ℕ → ℕ) where
  pub advance-IsValid : (b : ByteBuffer) (n : ℕ) → IsValid b → IsValid (advance fresh b n).0
  unfolding advance
  advance-IsValid b n v = ground arith

  pub back-IsValid : (b : ByteBuffer) (n : ℕ) → IsValid b → IsValid (back fresh b n).0
  unfolding back
  back-IsValid b n v = ground arith
