-- ===== src/Buffer/Trim.antt =====
-- compact and gc: giving memory back keeps the bytes.
use lin_socket_io.Base.{
  ℕ, zero, suc, ◌+◌, ◌-◌, ◌/◌, ◌%◌, ◌≤◌, ◌<◌, min, ◌≡◌, refl, ◌⊎◌, inl, inr, arith, ltb, Bool-cases,
}
use native.Mathlib.Decide.{dec_lt}
use native.Mathlib.Nat.{le_refl}
use lin_socket_io.Buffer.{
  gc, grow, u32_mod, move_to, ByteBuffer, u32_mod, block_size, xmax, size, blocked_size, grow,
  compact, gc, move_to,
}
use lin_socket_io.Buffer.Invariant.{IsValid, contents}
use lin_socket_io.Buffer.Reserve.{blocked_size_bounds, contents-move_to}

module _ (fresh : ℕ → ℕ) where
  -- Compacting is a move to whole blocks below the old capacity.
  compact_moves :
      (b : ByteBuffer) (m : ℕ)
      → m < b.cap
      → 1024 < b.cap - size b
      → compact fresh b m ≡ (
        record (move_to fresh b (blocked_size (xmax (size b) m))) { high_water_mark = size b },
        b.cap - blocked_size (xmax (size b) m),
      )
  unfolding compact
  compact_moves b m h k = ground arith

  new_cap_bounds :
      (b : ByteBuffer) (m : ℕ)
      → IsValid b
      → m < b.cap
      → 1024 < b.cap - size b
      → 0 < size b + m
      → (m ≤ blocked_size (xmax (size b) m))
        × (size b ≤ blocked_size (xmax (size b) m))
        × (block_size ≤ blocked_size (xmax (size b) m))
        × (blocked_size (xmax (size b) m) ≤ b.cap)
        × (blocked_size (xmax (size b) m) % block_size ≡ 0)
  new_cap_bounds b m v h k pos = ground (arith, blocked_size_bounds (xmax (size b) m))

  compact_stays :
      (b : ByteBuffer) (m : ℕ) → (b.cap ≤ m) ⊎ (b.cap - size b ≤ 1024) → compact fresh b m ≡ (b, 0)
  unfolding compact
  compact_stays b m h = ground arith

  -- What compact(m) leaves: the same bytes and limit in a valid buffer, the returned number of
  -- bytes less of capacity, and at least m unless there was less.
  pub record Compacted (b : ByteBuffer) (m : ℕ) (out : ByteBuffer × ℕ) : Type 0 where
    pub valid : IsValid out.0
    pub kept : contents out.0 ≡ contents b
    pub released : out.0.cap + out.1 ≡ b.cap
    pub enough : min m b.cap ≤ out.0.cap
    pub same_limit : out.0.limit ≡ b.limit

  stays-Compacted : (b : ByteBuffer) (m : ℕ) → IsValid b → Compacted b m (b, 0)
  stays-Compacted b m v = record {
    valid = v;
    kept = refl;
    released = omega arith;
    enough = omega arith;
    same_limit = refl;
  }

  moves-Compacted :
      (b : ByteBuffer) (m k : ℕ)
      → IsValid b
      → (m ≤ k) × (size b ≤ k) × (block_size ≤ k) × (k ≤ b.cap) × (k % block_size ≡ 0)
      → Compacted b m (record (move_to fresh b k) { high_water_mark = size b }, b.cap - k)
  moves-Compacted b m k v h = record {
    valid = ground arith;
    kept = contents-move_to fresh b k;
    released = omega arith;
    enough = omega arith;
    same_limit = refl;
  }

  -- compact(m), on a valid buffer that holds bytes or with 0 < m, keeps the bytes, the invariant and
  -- the limit; it returns by how much the capacity fell, and leaves at least m unless it was less.
  pub compact-Compacted :
      (b : ByteBuffer) (m : ℕ) → IsValid b → 0 < size b + m → Compacted b m (compact fresh b m)
  compact-Compacted b m v pos = elim (dec_lt m b.cap) [
    | yes h ↦ elim (dec_lt 1024 (b.cap - size b)) [
      | yes k ↦
          rw (compact_moves b m h k)
            (moves-Compacted b m (blocked_size (xmax (size b) m)) v (new_cap_bounds b m v h k pos))
      | no k ↦ rw (compact_stays b m (inr (omega arith))) (stays-Compacted b m v)
    ]
    | no h ↦ rw (compact_stays b m (inl (omega arith))) (stays-Compacted b m v)
  ]

  -- gc() keeps the bytes, the invariant and the limit, and never asks for an empty block.
  pub gc-Compacted :
      (b : ByteBuffer) → IsValid b → (m : ℕ) × (1024 ≤ m) × Compacted b m (gc fresh b)
  unfolding gc
  gc-Compacted b v =
      elim (Bool-cases (ltb ((b.cap + u32_mod - b.high_water_mark) % u32_mod / 2) 1024)) [
        | inl few ↦ rw few (1024, le_refl 1024, stays-Compacted b 1024 v)
        | inr many ↦ rw many (
          size b + (b.cap + u32_mod - b.high_water_mark) % u32_mod / 2,
          ground arith,
          compact-Compacted b _ v (ground arith),
        )
      ]

-- A loop that starts at 0 never grows.
grow-zero : (fuel sz : ℕ) → grow fuel 0 sz ≡ 0
unfolding grow
grow-zero zero sz = refl
grow-zero (suc fuel) sz = ground (arith, grow-zero fuel sz)

-- compact(0) of an empty valid buffer above 1024 bytes leaves capacity 0, and from there the doubling
-- loop of alloc_size has not reached a positive size after any number of rounds.
pub compact_zero_hangs :
    (fresh : ℕ → ℕ) (b : ByteBuffer) (fuel sz : ℕ)
    → IsValid b
    → size b ≡ 0
    → 1024 < b.cap
    → 0 < sz
    → ((compact fresh b 0).0.cap ≡ 0) × (grow fuel (compact fresh b 0).0.cap sz < sz)
compact_zero_hangs fresh b fuel sz v empty big pos =
    let gone : (compact fresh b 0).0.cap ≡ 0 = unfold compact blocked_size in ground arith in
    (gone, rw (gone, grow-zero) pos)
