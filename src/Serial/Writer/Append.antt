-- ===== src/Serial/Writer/Append.antt =====
-- What the writing operations of a Serializer add to its data.
use lin_socket_io.Base.{
  ℕ, ◌%◌, ◌^◌, ◌≤◌, ◌<◌, ◌≡◌, refl, ap, ◌∙◌, subst, Bool, [], ◌++◌, append_assoc, arith,
  if◌then◌else◌, Bytes, length, drop, length-append, length-drop, drop_of_le, drop-append, Result,
  ok, ok-injective, >>=-eq-ok,
}
use lin_socket_io.Wire.{hton16, hton32, hton64}
use lin_socket_io.Wire.Order.{ordered_bytes, le_bytes-hton}
use native.Mathlib.Nat.{le_refl}
use lin_socket_io.Buffer
use lin_socket_io.Buffer.{ByteBuffer, size_mod, npos}
use lin_socket_io.Buffer.Memory.{le_bytes}
use lin_socket_io.Buffer.Invariant.{IsValid, contents}
use lin_socket_io.Buffer.Contents.{contents-write, contents-write_word, length-contents}
use lin_socket_io.Serial.Writer.{
  Serializer, serializer, data_bytes, update, write, write_bool, write_byte, write_uint16,
  write_uint32, write_uint64, write_string16, write_string32, size,
}

-- the bytes behind the offset
abbrev pub written : Serializer → Bytes
written s = drop s.offset (contents s.buffer)

pub record IsOpen (s : Serializer) : Type 0 where
  pub buffer_valid : IsValid s.buffer
  pub offset_in : s.offset ≤ Buffer.size s.buffer

-- On an open serializer data() does not throw, and size() counts what it points at.
pub data_bytes-written :
    (s : Serializer) → IsOpen s → (data_bytes s ≡ ok (written s)) × (size s ≡ length (written s))
unfolding data_bytes size
data_bytes-written s o =
    ground (arith, length-drop s.offset (contents s.buffer), length-contents s.buffer)

-- A new serializer is open and holds nothing.
pub serializer-IsOpen :
    (b : ByteBuffer) (bo : ℕ)
    → IsValid b
    → IsOpen (serializer b bo) × (written (serializer b bo) ≡ [])
unfolding serializer
serializer-IsOpen b bo v = (
  record { buffer_valid = v; offset_in = le_refl (Buffer.size b) },
  drop_of_le (Buffer.size b) (contents b) (omega (arith, length-contents b)),
)

-- `s'` is `s` with `xs` written.
pub record Wrote (s : Serializer) (xs : Bytes) (s' : Serializer) : Type 0 where
  pub still_open : IsOpen s'
  pub bytes : written s' ≡ written s ++ xs
  pub same_bo : s'.bo ≡ s.bo
  pub same_offset : s'.offset ≡ s.offset
  pub same_limit : s'.buffer.limit ≡ s.buffer.limit

pub Wrote-trans :
    (s t u : Serializer) (xs ys : Bytes) → Wrote s xs t → Wrote t ys u → Wrote s (xs ++ ys) u
Wrote-trans s t u xs ys p q = record {
  still_open = q.still_open;
  bytes = q.bytes ∙ ap (λ w. w ++ ys) p.bytes ∙ append_assoc (written s) xs ys;
  same_bo = q.same_bo ∙ p.same_bo;
  same_offset = q.same_offset ∙ p.same_offset;
  same_limit = q.same_limit ∙ p.same_limit;
}

appended-Wrote :
    (s : Serializer) (b : ByteBuffer) (xs : Bytes)
    → IsOpen s
    → IsValid b × (contents b ≡ contents s.buffer ++ xs) × (b.limit ≡ s.buffer.limit)
    → Wrote s xs (record s { buffer = b })
appended-Wrote s b xs o (v, e, l) = record {
  still_open = record { buffer_valid = v; offset_in = longer };
  bytes =
      ap (drop s.offset) e
      ∙ drop-append s.offset (contents s.buffer) xs (omega (arith, length-contents s.buffer));
  same_bo = refl;
  same_offset = refl;
  same_limit = l;
}
  where
    longer : s.offset ≤ Buffer.size b
    longer = omega (
      arith,
      length-contents b,
      length-contents s.buffer,
      ap length e,
      length-append (contents s.buffer) xs,
      o.offset_in,
    )

update-Wrote :
    (s s' : Serializer) (xs : Bytes) (r : Result ByteBuffer)
    → IsOpen s
    → ((b : ByteBuffer)
        → r ≡ ok b
        → IsValid b × (contents b ≡ contents s.buffer ++ xs) × (b.limit ≡ s.buffer.limit))
    → update s r ≡ ok s'
    → Wrote s xs s'
update-Wrote s s' xs r o h e =
    let (b, got, done) = >>=-eq-ok r _ e in
    subst (Wrote s xs) (ok-injective done) (appended-Wrote s b xs o (h b got))

module _ (fresh : ℕ → ℕ) (s s' : Serializer) (o : IsOpen s) where
  pub write-Wrote : (xs : Bytes) → length xs < 2 ^ 63 → write fresh s xs ≡ ok s' → Wrote s xs s'
  unfolding write
  write-Wrote xs small = update-Wrote s s' xs (Buffer.write fresh s.buffer xs) o (λ b e.
      contents-write fresh s.buffer b xs o.buffer_valid
        (let v : IsValid s.buffer = o.buffer_valid in omega arith) e)

  word-Wrote :
      (k v : ℕ)
      → k ≤ 8
      → update s (Buffer.write_word fresh s.buffer k v) ≡ ok s'
      → Wrote s (le_bytes k v) s'
  word-Wrote k v small =
      update-Wrote s s' (le_bytes k v) (Buffer.write_word fresh s.buffer k v) o (λ b e.
        contents-write_word fresh s.buffer b k v o.buffer_valid
          (let w : IsValid s.buffer = o.buffer_valid in omega arith) e)

  pub write_byte-Wrote : (u : ℕ) → write_byte fresh s u ≡ ok s' → Wrote s (le_bytes 1 u) s'
  unfolding write_byte Buffer.write_u8
  write_byte-Wrote u e = word-Wrote 1 u (omega arith) e

  pub write_uint16-Wrote :
      (u : ℕ) → write_uint16 fresh s u ≡ ok s' → Wrote s (ordered_bytes 2 u s.bo) s'
  unfolding write_uint16 Buffer.write_u16
  write_uint16-Wrote u e =
      subst (λ xs. Wrote s xs s') (le_bytes-hton u s.bo).0
        (word-Wrote 2 (hton16 u s.bo) (omega arith) e)

  pub write_uint32-Wrote :
      (u : ℕ) → write_uint32 fresh s u ≡ ok s' → Wrote s (ordered_bytes 4 u s.bo) s'
  unfolding write_uint32 Buffer.write_u32
  write_uint32-Wrote u e =
      subst (λ xs. Wrote s xs s') (le_bytes-hton u s.bo).1
        (word-Wrote 4 (hton32 u s.bo) (omega arith) e)

  pub write_uint64-Wrote :
      (u : ℕ) → write_uint64 fresh s u ≡ ok s' → Wrote s (ordered_bytes 8 u s.bo) s'
  unfolding write_uint64 Buffer.write_u64
  write_uint64-Wrote u e =
      subst (λ xs. Wrote s xs s') (le_bytes-hton u s.bo).2
        (word-Wrote 8 (hton64 u s.bo) (omega arith) e)

  pub write_bool-Wrote :
      (b : Bool) → write_bool fresh s b ≡ ok s' → Wrote s (le_bytes 1 (if b then 1 else 0)) s'
  unfolding write_bool Buffer.write_u8
  write_bool-Wrote b e = word-Wrote 1 (if b then 1 else 0) (omega arith) e

-- A length, cut to the width of its field, and the bytes.
module _ (fresh : ℕ → ℕ) (s s' : Serializer) (o : IsOpen s) (str : Bytes) where
  pub write_string16-Wrote :
      length str < 2 ^ 16
      → write_string16 fresh s str ≡ ok s'
      → Wrote s (ordered_bytes 2 (length str) s.bo ++ str) s'
  unfolding write_string16
  write_string16-Wrote small e =
      let (t, first, second) = >>=-eq-ok (write_uint16 fresh s (length str % 2 ^ 16)) _ e in
      let p = write_uint16-Wrote fresh s t o (length str % 2 ^ 16) first in
      let q = write-Wrote fresh t s' p.still_open str (omega arith) second in
      subst (λ n. Wrote s (ordered_bytes 2 n s.bo ++ str) s') (omega arith)
        (Wrote-trans s t s' _ str p q)

  pub write_string32-Wrote :
      length str < 2 ^ 32
      → write_string32 fresh s str ≡ ok s'
      → Wrote s (ordered_bytes 4 (length str) s.bo ++ str) s'
  unfolding write_string32
  write_string32-Wrote small e =
      let (t, first, second) = >>=-eq-ok (write_uint32 fresh s (length str % 2 ^ 32)) _ e in
      let p = write_uint32-Wrote fresh s t o (length str % 2 ^ 32) first in
      let q = write-Wrote fresh t s' p.still_open str (omega arith) second in
      subst (λ n. Wrote s (ordered_bytes 4 n s.bo ++ str) s') (omega arith)
        (Wrote-trans s t s' _ str p q)
