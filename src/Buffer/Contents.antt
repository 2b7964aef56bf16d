-- ===== src/Buffer/Contents.antt =====
-- A valid buffer is a queue of bytes: what each operation does to `contents`.
use lin_socket_io.Base.{
  take-length_append, length-append, ℕ, ◌+◌, ◌-◌, ◌≤◌, ◌<◌, min, ◌≡◌, sym, ap, ap₂, ◌∙◌, subst, [],
  ◌++◌, arith, Bytes, length, take, drop, drop_of_le, ok, ok-injective, >>=-eq-ok,
}
use lin_socket_io.Buffer.{
  advance, npos, forward, back, erase, ByteBuffer, size_mod, size, space, reserve, write,
  write_word, mark,
}
use lin_socket_io.Buffer.Invariant.{IsValid, contents}
use lin_socket_io.Buffer.Memory.{
  drop-slice, take-slice, slice, store, le_bytes, length-slice, length-le_bytes, slice-add,
  slice-store_self, slice-store_below,
}
use lin_socket_io.Buffer.Reserve.{Reserved, reserve-Reserved}
use native.Mathlib.Decide.{dec_lt}

pub length-contents : (b : ByteBuffer) → length (contents b) ≡ size b
length-contents b = length-slice b.mem b.head (size b)

-- Bytes stored behind the tail are the last of the contents.
slice-store_tail :
    (f : ℕ → ℕ) (head tail : ℕ) (xs : Bytes)
    → head ≤ tail
    → slice (store f tail xs) head (tail + length xs - head) ≡ slice f head (tail - head) ++ xs
slice-store_tail f head tail xs h =
    ap (slice (store f tail xs) head) (omega arith)
    ∙ slice-add (store f tail xs) head (tail - head) (length xs)
    ∙ ap₂ ◌++◌ (slice-store_below f tail xs head (tail - head) (omega arith))
        (ap (λ k. slice (store f tail xs) k (length xs)) (omega arith) ∙ slice-store_self f tail xs)

-- As before, where more bytes are stored than count.
slice-store_front :
    (f : ℕ → ℕ) (head tail : ℕ) (xs more : Bytes)
    → head ≤ tail
    → slice (store f tail (xs ++ more)) head (tail + length xs - head)
      ≡ slice f head (tail - head) ++ xs
slice-store_front f head tail xs more h =
    ap (slice (store f tail (xs ++ more)) head) (omega arith)
    ∙ slice-add (store f tail (xs ++ more)) head (tail - head) (length xs)
    ∙ ap₂ ◌++◌ (slice-store_below f tail (xs ++ more) head (tail - head) (omega arith)) (
        ap (λ k. slice (store f tail (xs ++ more)) k (length xs)) (omega arith)
        ∙ sym (
            take-slice (store f tail (xs ++ more)) tail (length (xs ++ more)) (length xs)
              (omega (arith, length-append xs more)))
        ∙ ap (take (length xs)) (slice-store_self f tail (xs ++ more))
        ∙ take-length_append xs more)

module _ (fresh : ℕ → ℕ) where
  -- Room for the bytes, then the bytes: what write and the write_u* share.
  pub appended : ByteBuffer → Bytes → ByteBuffer
  appended b xs = mark (record b { mem = store b.mem b.tail xs; tail = b.tail + length xs })

  appended_lem :
      (b b' : ByteBuffer) (xs : Bytes)
      → Reserved b (length xs) b'
      → IsValid (appended b' xs)
        × (contents (appended b' xs) ≡ contents b ++ xs)
        × ((appended b' xs).limit ≡ b.limit)
  unfolding appended
  appended_lem b b' xs r =
      let v : IsValid b' = r.valid in
      let room : length xs ≤ space b' = r.room in
      (
        ground arith,
        slice-store_tail b'.mem b'.head b'.tail xs v.ordered ∙ ap (λ t. t ++ xs) r.kept,
        r.same_limit,
      )

  -- Bytes that are put behind the tail join the contents when advance counts them.
  pub contents-advance :
      (b : ByteBuffer) (xs more : Bytes)
      → IsValid b
      → length xs ≤ space b
      → contents (advance fresh (record b { mem = store b.mem b.tail (xs ++ more) }) (length xs)).0
        ≡ contents b ++ xs
  unfolding advance
  contents-advance b xs more v room =
      ap (λ t. slice (store b.mem b.tail (xs ++ more)) b.head (t - b.head))
        (ground (arith, v.inside))
      ∙ slice-store_front b.mem b.head b.tail xs more v.ordered

  -- write(dat, n) that returns has appended exactly the bytes given.
  pub contents-write :
      (b b' : ByteBuffer) (xs : Bytes)
      → IsValid b
      → size b + length xs < size_mod
      → write fresh b xs ≡ ok b'
      → IsValid b' × (contents b' ≡ contents b ++ xs) × (b'.limit ≡ b.limit)
  unfolding write appended
  contents-write b b' xs v small e =
      let (c, got, done) = >>=-eq-ok (reserve fresh b (length xs)) _ e in
      subst (λ d. IsValid d × (contents d ≡ contents b ++ xs) × (d.limit ≡ b.limit))
        (ok-injective done)
        (appended_lem b c xs (reserve-Reserved fresh b c (length xs) v small got))

  -- A word is written as the bytes that stand for it, the lowest first.
  pub write_word-write :
      (b : ByteBuffer) (k v : ℕ) → write_word fresh b k v ≡ write fresh b (le_bytes k v)
  unfolding write
  write_word-write b k v = rw (length-le_bytes k v)

  pub contents-write_word :
      (b b' : ByteBuffer) (k v : ℕ)
      → IsValid b
      → size b + k < size_mod
      → write_word fresh b k v ≡ ok b'
      → IsValid b' × (contents b' ≡ contents b ++ le_bytes k v) × (b'.limit ≡ b.limit)
  contents-write_word b b' k v valid small e =
      contents-write b b' (le_bytes k v) valid (omega (arith, length-le_bytes k v))
        (sym (write_word-write b k v) ∙ e)

erase_some :
    (b : ByteBuffer) (n : ℕ)
    → n < size b
    → n < npos
    → erase b n ≡ (record b { head = b.head + n }, n)
unfolding erase
erase_some b n h k = ground arith

erase_rest :
    (b : ByteBuffer) (n : ℕ)
    → IsValid b
    → size b ≤ n
    → n < npos
    → erase b n ≡ (record b { head = 0; tail = 0 }, size b)
unfolding erase
erase_rest b n v h k = ground arith

-- erase(n) takes the first n bytes away, all of them if there are fewer, and says how many.
pub contents-erase :
    (b : ByteBuffer) (n : ℕ)
    → IsValid b
    → n < npos
    → (contents (erase b n).0 ≡ drop n (contents b)) × ((erase b n).1 ≡ min n (size b))
unfolding slice
contents-erase b n v h = elim (dec_lt n (size b)) [
  | yes lt ↦ rw (erase_some b n lt h) (some_left lt, omega arith)
  | no ge ↦
      rw (erase_rest b n v (omega arith) h)
        (sym (drop_of_le n (contents b) (omega (arith, length-contents b))), omega arith)
]
  where
    some_left : n < size b → slice b.mem (b.head + n) (b.tail - (b.head + n)) ≡ drop n (contents b)
    some_left lt =
        ap (slice b.mem (b.head + n)) (omega arith)
        ∙ sym (drop-slice b.mem b.head (size b) n (omega arith))

-- erase(-1) takes all bytes away and returns -1.
pub erase-npos : (b : ByteBuffer) → (contents (erase b npos).0 ≡ []) × ((erase b npos).1 ≡ npos)
unfolding erase slice
erase-npos b = ground arith

module _ (fresh : ℕ → ℕ) where
  back_some :
      (b : ByteBuffer) (n : ℕ) → n ≤ size b → (back fresh b n).0 ≡ record b { tail = b.tail - n }
  unfolding back
  back_some b n h = ground arith

  -- back(n) takes the last n bytes away if there are as many, and nothing else.
  pub contents-back :
      (b : ByteBuffer) (n : ℕ)
      → n ≤ size b
      → contents (back fresh b n).0 ≡ take (size b - n) (contents b)
  unfolding back
  contents-back b n h = rw (back_some b n h) (
      ap (slice b.mem b.head) (omega arith)
      ∙ sym (take-slice b.mem b.head (size b) (size b - n) (omega arith)))

  -- forward(n) that returns leaves room for n bytes behind what was held, and takes it.
  pub contents-forward :
      (b b' : ByteBuffer) (n p : ℕ)
      → IsValid b
      → size b + n < size_mod
      → forward fresh b n ≡ ok (b', p)
      → IsValid b' × (size b' ≡ size b + n) × (take (size b) (contents b') ≡ contents b)
  unfolding forward
  contents-forward b b' n p v small e =
      let (c, got, done) = >>=-eq-ok (reserve fresh b n) _ e in
      let r = reserve-Reserved fresh b c n v small got in
      subst (λ d. IsValid d × (size d ≡ size b + n) × (take (size b) (contents d) ≡ contents b))
        (ap (λ q. q.0) (ok-injective done)) (moved c r)
    where
      moved :
          (c : ByteBuffer)
          → Reserved b n c
          → let d : ByteBuffer = record c { tail = c.tail + n } in
            IsValid d × (size d ≡ size b + n) × (take (size b) (contents d) ≡ contents b)
      moved c r =
          let w : IsValid c = r.valid in
          let room : n ≤ space c = r.room in
          let same : size c ≡ size b = r.same_size in
          (
            ground arith,
            omega arith,
            take-slice c.mem c.head (c.tail + n - c.head) (size b) (omega arith)
                ∙ ap (slice c.mem c.head) (omega arith)
                ∙ r.kept,
          )
