-- ===== src/Serial/Writer/Room.antt =====
-- Below the buffer's limit no writing operation throws.
use lin_socket_io.Wire.Order.{length-ordered_bytes}
use lin_socket_io.Base.{
  ℕ, ◌+◌, ◌%◌, ◌^◌, ◌≤◌, ◌≡◌, ap, ◌∙◌, Bool, arith, if◌then◌else◌, Bytes, length, length-append,
  length-drop, ok,
}
use lin_socket_io.Buffer
use lin_socket_io.Buffer.{ByteBuffer}
use lin_socket_io.Buffer.Memory.{le_bytes, length-le_bytes}
use lin_socket_io.Buffer.Invariant.{contents}
use lin_socket_io.Buffer.Contents.{write_word-write, length-contents}
use lin_socket_io.Buffer.Fifo.{write_ok}
use lin_socket_io.Serial.Writer.{
  Serializer, update, write, write_bool, write_byte, write_uint16, write_uint32, write_uint64,
  write_string16, write_string32,
}
use lin_socket_io.Serial.Writer.Append.{
  IsOpen, Wrote, written, write_uint16-Wrote, write_uint32-Wrote,
}

-- `n` more bytes stay within the limit.
abbrev pub HasRoom : Serializer → ℕ → Type 0
HasRoom s n = Buffer.size s.buffer + n ≤ s.buffer.limit

-- Writing makes the buffer longer by what is written.
pub size-Wrote :
    (s t : Serializer) (xs : Bytes)
    → IsOpen s
    → Wrote s xs t
    → Buffer.size t.buffer ≡ Buffer.size s.buffer + length xs
size-Wrote s t xs o w = omega (
  arith,
  o.offset_in,
  (w.still_open).offset_in,
  w.same_offset,
  length-contents s.buffer,
  length-contents t.buffer,
  length-drop s.offset (contents s.buffer),
  length-drop t.offset (contents t.buffer),
  ap length w.bytes,
  length-append (written s) xs,
)

pub HasRoom-Wrote :
    (s t : Serializer) (xs : Bytes) (n : ℕ)
    → IsOpen s
    → Wrote s xs t
    → HasRoom s (length xs + n)
    → HasRoom t n
HasRoom-Wrote s t xs n o w h = omega (arith, size-Wrote s t xs o w, w.same_limit)

module _ (fresh : ℕ → ℕ) where
  pub write_some :
      (s : Serializer) (xs : Bytes)
      → IsOpen s
      → HasRoom s (length xs)
      → (t : Serializer) × (write fresh s xs ≡ ok t)
  unfolding write
  write_some s xs o h =
      let (b, e) = write_ok fresh s.buffer xs o.buffer_valid h in (record s { buffer = b }, rw e)

  word_some :
      (s : Serializer) (k v : ℕ)
      → IsOpen s
      → HasRoom s k
      → (t : Serializer) × (update s (Buffer.write_word fresh s.buffer k v) ≡ ok t)
  word_some s k v o h =
      let (b, e) =
        write_ok fresh s.buffer (le_bytes k v) o.buffer_valid
          (omega (arith, length-le_bytes k v)) in
      (record s { buffer = b }, ap (update s) (write_word-write fresh s.buffer k v ∙ e))

  pub write_byte_some :
      (s : Serializer) (v : ℕ)
      → IsOpen s
      → HasRoom s 1
      → (t : Serializer) × (write_byte fresh s v ≡ ok t)
  unfolding write_byte Buffer.write_u8
  write_byte_some s v o h = word_some s 1 v o h

  pub write_bool_some :
      (s : Serializer) (b : Bool)
      → IsOpen s
      → HasRoom s 1
      → (t : Serializer) × (write_bool fresh s b ≡ ok t)
  unfolding write_bool Buffer.write_u8
  write_bool_some s b o h = word_some s 1 (if b then 1 else 0) o h

  pub write_uint16_some :
      (s : Serializer) (v : ℕ)
      → IsOpen s
      → HasRoom s 2
      → (t : Serializer) × (write_uint16 fresh s v ≡ ok t)
  unfolding write_uint16 Buffer.write_u16
  write_uint16_some s v o h = word_some s 2 _ o h

  pub write_uint32_some :
      (s : Serializer) (v : ℕ)
      → IsOpen s
      → HasRoom s 4
      → (t : Serializer) × (write_uint32 fresh s v ≡ ok t)
  unfolding write_uint32 Buffer.write_u32
  write_uint32_some s v o h = word_some s 4 _ o h

  pub write_uint64_some :
      (s : Serializer) (v : ℕ)
      → IsOpen s
      → HasRoom s 8
      → (t : Serializer) × (write_uint64 fresh s v ≡ ok t)
  unfolding write_uint64 Buffer.write_u64
  write_uint64_some s v o h = word_some s 8 _ o h

  pub write_string16_some :
      (s : Serializer) (str : Bytes)
      → IsOpen s
      → HasRoom s (2 + length str)
      → (t : Serializer) × (write_string16 fresh s str ≡ ok t)
  unfolding write_string16
  write_string16_some s str o h =
      let (u, e) = write_uint16_some s (length str % 2 ^ 16) o (omega arith) in
      let w = write_uint16-Wrote fresh s u o (length str % 2 ^ 16) e in
      let (t, e') = write_some u str w.still_open (
        HasRoom-Wrote s u _ (length str) o w
          (omega (arith, length-ordered_bytes 2 (length str % 2 ^ 16) s.bo))) in
      (t, rw e e')

  pub write_string32_some :
      (s : Serializer) (str : Bytes)
      → IsOpen s
      → HasRoom s (4 + length str)
      → (t : Serializer) × (write_string32 fresh s str ≡ ok t)
  unfolding write_string32
  write_string32_some s str o h =
      let (u, e) = write_uint32_some s (length str % 2 ^ 32) o (omega arith) in
      let w = write_uint32-Wrote fresh s u o (length str % 2 ^ 32) e in
      let (t, e') = write_some u str w.still_open (
        HasRoom-Wrote s u _ (length str) o w
          (omega (arith, length-ordered_bytes 4 (length str % 2 ^ 32) s.bo))) in
      (t, rw e e')
