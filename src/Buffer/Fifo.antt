-- ===== src/Buffer/Fifo.antt =====
-- A ByteBuffer against what it is for: a queue of bytes with writes at the tail and reads at the head.
use lin_socket_io.Base.{
  ℕ, ◌+◌, ◌≤◌, ◌<◌, ◌≡◌, refl, sym, ap, ◌∙◌, inl, inr, List, [], ◌∷◌, ◌++◌, arith, Bytes, length,
  drop, length-append, Error, Result, ok, err, ◌>>=◌, Result-cases,
}
use mathlib.Core.Path.{subst₂}
use lin_socket_io.Buffer.{
  ByteBuffer, size_mod, npos, size, erase, reserve, write, alloc, alloc_size,
}
use lin_socket_io.Buffer.Invariant.{erase_limit, IsValid, contents, erase-IsValid}
use lin_socket_io.Buffer.Contents.{contents-write, contents-erase, length-contents}

pub data Op : Type 0 where
  append : Bytes → Op
  consume : ℕ → Op

-- the queue
unfoldable pub run_queue : Bytes → List Op → Bytes
run_queue q [] = q
run_queue q (append xs ∷ ops) = run_queue (q ++ xs) ops
run_queue q (consume n ∷ ops) = run_queue (drop n q) ops

-- No more than `limit` bytes are ever held, and no count is `(size_t)-1`.
unfoldable pub Fits : ℕ → Bytes → List Op → Type 0
Fits limit q [] = Unit
Fits limit q (append xs ∷ ops) = (length (q ++ xs) ≤ limit) × Fits limit (q ++ xs) ops
Fits limit q (consume n ∷ ops) = (n < npos) × Fits limit (drop n q) ops

module _ (fresh : ℕ → ℕ) where
  pub run : ByteBuffer → List Op → Result ByteBuffer
  run b [] = ok b
  run b (append xs ∷ ops) = write fresh b xs >>= λ b'. run b' ops
  run b (consume n ∷ ops) = run (erase b n).0 ops

  reserve_err :
      (b : ByteBuffer) (n : ℕ) (e : Error)
      → size b + n < size_mod
      → reserve fresh b n ≡ err e
      → b.limit < size b + n
  unfolding reserve alloc alloc_size
  reserve_err b n e small h = ground arith

  pub reserve_ok :
      (b : ByteBuffer) (n : ℕ)
      → IsValid b
      → size b + n ≤ b.limit
      → (b' : ByteBuffer) × (reserve fresh b n ≡ ok b')
  reserve_ok b n v h = elim (Result-cases (reserve fresh b n)) [
    | inl (c, e) ↦ (c, e)
    | inr (x, e) ↦ absurd (omega (arith, reserve_err b n x (omega arith) e))
  ]

  pub write_ok :
      (b : ByteBuffer) (xs : Bytes)
      → IsValid b
      → size b + length xs ≤ b.limit
      → (b' : ByteBuffer) × (write fresh b xs ≡ ok b')
  unfolding write
  write_ok b xs v h = elim (Result-cases (reserve fresh b (length xs))) [
    | inl (c, e) ↦ rw e (_, refl)
    | inr (x, e) ↦ absurd (omega (arith, reserve_err b (length xs) x (omega arith) e))
  ]

  -- Any sequence of writes and erases that keeps within the limit runs through without an exception,
  -- keeps the invariant and the limit, and leaves the bytes that the queue holds.
  pub run_refines :
      (ops : List Op) (b : ByteBuffer)
      → IsValid b
      → Fits b.limit (contents b) ops
      → (out : ByteBuffer) × (run b ops ≡ ok out)
        × IsValid out
        × (contents out ≡ run_queue (contents b) ops)
        × (out.limit ≡ b.limit)
  unfolding run run_queue Fits
  run_refines [] b v h = (b, refl, v, refl, refl)
  run_refines (append xs ∷ ops) b v (fits, h) =
      let held = length-append (contents b) xs in
      let (c, wrote) = write_ok b xs v (omega (arith, held, length-contents b)) in
      let (w, bytes, same) =
        contents-write fresh b c xs v (omega (arith, held, length-contents b)) wrote in
      let h' : Fits c.limit (contents c) ops =
        subst₂ (λ l q. Fits l q ops) (sym same) (sym bytes) h in
      let (out, ran, valid, queue, limit) = run_refines ops c w h' in
      (out, rw wrote ran, valid, queue ∙ ap (λ q. run_queue q ops) bytes, limit ∙ same)
  run_refines (consume n ∷ ops) b v (small, h) =
      let c : ByteBuffer = (erase b n).0 in
      let bytes = (contents-erase b n v small).0 in
      let h' : Fits c.limit (contents c) ops =
        subst₂ (λ l q. Fits l q ops) (sym (erase_limit b n)) (sym bytes) h in
      let (out, ran, valid, queue, limit) = run_refines ops c (erase-IsValid b n v) h' in
      (out, ran, valid, queue ∙ ap (λ q. run_queue q ops) bytes, limit ∙ erase_limit b n)
