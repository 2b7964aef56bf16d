-- ===== src/Buffer/Reserve.antt =====
-- Making room: the size of a new block, alloc and reserve.
use lin_socket_io.Base.{
  ℕ, zero, suc, ◌+◌, ◌-◌, ◌*◌, ◌%◌, ◌^◌, ◌≤◌, ◌<◌, ◌≡◌, refl, sym, ap, ◌∙◌, subst, ◌↔◌, inl, inr,
  false, arith, ltb, leb, ltb→lt, leb→le, Bool-cases, buffer_overflow, Result, ok, err,
  ok-injective, >>=-eq-ok,
}
use lin_socket_io.Buffer.{
  ByteBuffer, size_mod, block_size, size, space, blocked_size, grow, grow_fuel, alloc_size, recycle,
  move_to, alloc, reserve,
}
use lin_socket_io.Buffer.Invariant.{IsValid, contents, recycle-IsValid}
use lin_socket_io.Buffer.Memory.{slice, slice-copy}
use native.Mathlib.Nat.{pow-suc}

-- Whole blocks, at least as many bytes as asked for and less than a block more.
pub blocked_size_bounds :
    (sz : ℕ)
    → sz ≤ 2 ^ 33
    → (sz ≤ blocked_size sz)
      × (blocked_size sz < sz + block_size)
      × (blocked_size sz % block_size ≡ 0)
unfolding blocked_size
blocked_size_bounds sz h = omega arith

grow_done : (fuel n sz : ℕ) → sz ≤ n → grow fuel n sz ≡ n
unfolding grow
grow_done zero n sz h = refl
grow_done (suc fuel) n sz h = ground arith

-- Enough rounds of doubling reach the size, and stop below twice of it.
grow_bounds :
    (fuel n sz : ℕ)
    → n < sz
    → sz ≤ 2 ^ 30
    → sz ≤ n * 2 ^ fuel
    → (sz ≤ grow fuel n sz) × (grow fuel n sz < 2 * sz)
unfolding grow
grow_bounds zero n sz lt h k = absurd (omega arith)
grow_bounds (suc fuel) n sz lt h k = elim (Bool-cases (ltb (n * 2 % size_mod) sz)) [
  | inl more ↦ ground (
    arith,
    doubled,
    grow_bounds fuel (n * 2 % size_mod) sz (ltb→lt _ _ more) h
        (subst (λ t. sz ≤ t * 2 ^ fuel) (sym doubled) (omega (arith, pow))),
  )
  | inr done ↦ ground (arith, doubled, grow_done fuel (n * 2 % size_mod) sz)
]
  where
    doubled : n * 2 % size_mod ≡ n * 2
    doubled = omega arith

    pow : n * 2 ^ suc fuel ≡ n * 2 * 2 ^ fuel
    pow = omega (arith, ap (λ (t : ℕ). n * t) (pow-suc 2 fuel))

pub alloc_size_bounds :
    (b : ByteBuffer) (sz n : ℕ)
    → IsValid b
    → b.cap < sz
    → alloc_size b sz ≡ ok n
    → (sz ≤ n) × (n ≤ 2 ^ 31) × (n % block_size ≡ 0)
unfolding alloc_size
alloc_size_bounds b sz n v lt e = ground (
  arith,
  grow_bounds grow_fuel b.cap sz,
  blocked_size_bounds sz,
  blocked_size_bounds (grow grow_fuel b.cap sz),
)

-- What a call that makes room for `n` bytes leaves: the same bytes, with room behind them.
pub record Reserved (b : ByteBuffer) (n : ℕ) (b' : ByteBuffer) : Type 0 where
  pub valid : IsValid b'
  pub room : n ≤ space b'
  pub kept : contents b' ≡ contents b
  pub same_size : size b' ≡ size b
  pub same_limit : b'.limit ≡ b.limit
  pub same_mark : b'.high_water_mark ≡ b.high_water_mark

contents-recycle : (b : ByteBuffer) → contents (recycle b) ≡ contents b
unfolding recycle
contents-recycle b = ap (slice _ 0) (omega arith) ∙ slice-copy b.mem b.mem b.head (size b)

recycle-Reserved :
    (b : ByteBuffer) (n : ℕ) → IsValid b → n ≤ b.head + b.cap - b.tail → Reserved b n (recycle b)
unfolding recycle
recycle-Reserved b n v h = record {
  valid = unfold recycle in recycle-IsValid b v;
  room = omega arith;
  kept = contents-recycle b;
  same_size = omega arith;
  same_limit = refl;
  same_mark = refl;
}

module _ (fresh : ℕ → ℕ) where
  pub contents-move_to : (b : ByteBuffer) (n : ℕ) → contents (move_to fresh b n) ≡ contents b
  contents-move_to b n = ap (slice _ 0) (omega arith) ∙ slice-copy b.mem fresh b.head (size b)

  move_to-Reserved :
      (b : ByteBuffer) (n k : ℕ)
      → IsValid b
      → b.cap < size b + n
      → size b + n ≤ k
      → k ≤ 2 ^ 31
      → k % block_size ≡ 0
      → Reserved b n (move_to fresh b k)
  move_to-Reserved b n k v lt le high block = record {
    valid = ground arith;
    room = omega arith;
    kept = contents-move_to b k;
    same_size = omega arith;
    same_limit = refl;
    same_mark = refl;
  }

  -- alloc gives the room or throws, and throws only above the limit.
  pub alloc-Reserved :
      (b b' : ByteBuffer) (n : ℕ)
      → IsValid b
      → size b + n < size_mod
      → alloc fresh b n ≡ ok b'
      → Reserved b n b'
  unfolding alloc
  alloc-Reserved b b' n v small e = elim (Bool-cases (leb n (b.head + b.cap - b.tail))) [
    | inl fits ↦
        subst (Reserved b n) (ok-injective (rw fits at e))
          (recycle-Reserved b n v (leb→le _ _ fits))
    | inr full ↦ grown full (>>=-eq-ok (alloc_size b ((size b + n) % size_mod)) _ (rw full at e))
  ]
    where
      grown :
          leb n (b.head + b.cap - b.tail) ≡ false
          → (k : ℕ) × (alloc_size b ((size b + n) % size_mod) ≡ ok k)
            × (◌≡◌ {A = Result ByteBuffer} (ok (move_to fresh b k)) (ok b'))
          → Reserved b n b'
      grown full (k, got, moved) =
          let exact : (size b + n) % size_mod ≡ size b + n = omega arith in
          let short : b.cap < size b + n = ground arith in
          let bounds = alloc_size_bounds b (size b + n) k v short (rw exact at got) in
          subst (Reserved b n) (ok-injective moved)
            (move_to-Reserved b n k v short bounds.0 bounds.1 bounds.2)

  -- reserve(n) that returns leaves the bytes as they are and `n` bytes of room behind them.
  pub reserve-Reserved :
      (b b' : ByteBuffer) (n : ℕ)
      → IsValid b
      → size b + n < size_mod
      → reserve fresh b n ≡ ok b'
      → Reserved b n b'
  unfolding reserve
  reserve-Reserved b b' n v small e = elim (Bool-cases (leb n (space b))) [
    | inl fits ↦ subst (Reserved b n) (ok-injective (rw fits at e)) (stays (leb→le _ _ fits))
    | inr full ↦ alloc-Reserved b b' n v small (rw full at e)
  ]
    where
      stays : n ≤ space b → Reserved b n b
      stays fits = record {
        valid = v;
        room = fits;
        kept = refl;
        same_size = refl;
        same_limit = refl;
        same_mark = refl;
      }

  -- reserve(n) throws exactly when the bytes and the room fit neither the block nor the limit.
  pub reserve_throws :
      (b : ByteBuffer) (n : ℕ)
      → IsValid b
      → size b + n < size_mod
      → (reserve fresh b n ≡ err buffer_overflow) ↔ ((b.cap < size b + n) × (b.limit < size b + n))
  unfolding reserve alloc alloc_size
  reserve_throws b n v small = (λ e. ground arith, λ h. ground arith)
