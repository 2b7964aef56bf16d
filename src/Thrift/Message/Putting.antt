-- ===== src/Thrift/Message/Putting.antt =====
-- What the calls of a big endian serializer append, one after the other.
use lin_socket_io.Base.{
  ℕ, ◌^◌, ◌<◌, ◌≡◌, subst, ◌∙◌, ◌++◌, arith, Bytes, length, length-append, Result, ok, ◌>>=◌,
}
use lin_socket_io.Buffer.Memory.{le_bytes, length-le_bytes}
use lin_socket_io.Wire.{big_endian}
use lin_socket_io.Wire.Order.{ordered_bytes, length-ordered_bytes}
use lin_socket_io.Serial.Writer.{Serializer, write_byte, write_uint16, write_uint32, write_string32}
use lin_socket_io.Serial.Writer.Append.{
  IsOpen, Wrote, Wrote-trans, write_byte-Wrote, write_uint16-Wrote, write_uint32-Wrote,
  write_string32-Wrote,
}
use lin_socket_io.Serial.Writer.Room.{
  HasRoom, HasRoom-Wrote, write_byte_some, write_uint16_some, write_uint32_some,
  write_string32_some,
}
use lin_socket_io.Thrift.Values.{
  delimited_image, Fields, field, end, text, number, string, scalar, i32, image, fields_image,
}
use lin_socket_io.Thrift.Message.{write_header, write_exception}

-- the header of a message
abbrev pub header_image : ℕ → Bytes → ℕ → Bytes
header_image version fname sn =
    ordered_bytes 4 version big_endian ++ (delimited_image fname ++ ordered_bytes 4 sn big_endian)

-- An exception is a struct of its reason and its code.
abbrev pub exception_fields : Bytes → ℕ → Fields
exception_fields reason code =
    field string 1 (text reason) (field (scalar i32) 2 (number i32 code) end)

-- On a big endian serializer with room, `w` returns, and it appends `xs`.
abbrev pub Puts : (Serializer → Result Serializer) → Bytes → Type 0
Puts w xs =
    (s : Serializer)
    → IsOpen s
    → s.bo ≡ big_endian
    → HasRoom s (length xs)
    → (t : Serializer) × (w s ≡ ok t) × Wrote s xs t

pub Puts-then :
    (w w' : Serializer → Result Serializer) (xs ys : Bytes)
    → Puts w xs
    → Puts w' ys
    → Puts (λ s. w s >>= w') (xs ++ ys)
Puts-then w w' xs ys h k s o big room =
    let (u, e, a) = h s o big (omega (arith, length-append xs ys)) in
    let (t, e', b) =
      k u a.still_open (a.same_bo ∙ big)
        (HasRoom-Wrote s u xs _ o a (omega (arith, length-append xs ys))) in
    (t, rw e e', Wrote-trans s u t xs ys a b)

module _ (fresh : ℕ → ℕ) where
  write_byte-Puts : (v : ℕ) → Puts (λ s. write_byte fresh s v) (le_bytes 1 v)
  write_byte-Puts v s o big room =
      let (t, e) = write_byte_some fresh s v o (omega (arith, length-le_bytes 1 v)) in
      (t, e, write_byte-Wrote fresh s t o v e)

  write_uint16-Puts : (v : ℕ) → Puts (λ s. write_uint16 fresh s v) (ordered_bytes 2 v big_endian)
  write_uint16-Puts v s o big room =
      let (t, e) =
        write_uint16_some fresh s v o (omega (arith, length-ordered_bytes 2 v big_endian)) in
      (
        t,
        e,
        subst (λ bo. Wrote s (ordered_bytes 2 v bo) t) big (write_uint16-Wrote fresh s t o v e),
      )

  write_uint32-Puts : (v : ℕ) → Puts (λ s. write_uint32 fresh s v) (ordered_bytes 4 v big_endian)
  write_uint32-Puts v s o big room =
      let (t, e) =
        write_uint32_some fresh s v o (omega (arith, length-ordered_bytes 4 v big_endian)) in
      (
        t,
        e,
        subst (λ bo. Wrote s (ordered_bytes 4 v bo) t) big (write_uint32-Wrote fresh s t o v e),
      )

  write_string32-Puts :
      (xs : Bytes) → length xs < 2 ^ 32 → Puts (λ s. write_string32 fresh s xs) (delimited_image xs)
  write_string32-Puts xs h s o big room =
      let len = ordered_bytes 4 (length xs) big_endian in
      let (t, e) =
        write_string32_some fresh s xs o
          (omega (arith, length-append len xs, length-ordered_bytes 4 (length xs) big_endian)) in
      (
        t,
        e,
        subst (λ bo. Wrote s (ordered_bytes 4 (length xs) bo ++ xs) t) big
            (write_string32-Wrote fresh s t o xs h e),
      )

  pub write_header-Puts :
      (version : ℕ) (fname : Bytes) (sn : ℕ)
      → length fname < 2 ^ 32
      → Puts (write_header fresh version fname sn) (header_image version fname sn)
  unfolding write_header
  write_header-Puts version fname sn h =
      Puts-then (λ s. write_uint32 fresh s version) _ _ _ (write_uint32-Puts version)
        (Puts-then (λ s. write_string32 fresh s fname) (λ s. write_uint32 fresh s sn) _ _
          (write_string32-Puts fname h) (write_uint32-Puts sn))

  pub write_exception-Puts :
      (reason : Bytes) (code : ℕ)
      → length reason < 2 ^ 32
      → Puts (write_exception fresh reason code) (fields_image (exception_fields reason code))
  unfolding write_exception image
  write_exception-Puts reason code h =
      Puts-then (λ s. write_byte fresh s 11) _ _ _ (write_byte-Puts 11)
        (Puts-then (λ s. write_uint16 fresh s 1) _ _ _ (write_uint16-Puts 1)
          (Puts-then (λ s. write_string32 fresh s reason) _ _ _ (write_string32-Puts reason h)
            (Puts-then (λ s. write_byte fresh s 8) _ _ _ (write_byte-Puts 8)
              (Puts-then (λ s. write_uint16 fresh s 2) _ _ _ (write_uint16-Puts 2)
                (Puts-then (λ s. write_uint32 fresh s code) (λ s. write_byte fresh s 0) _ _
                  (write_uint32-Puts code) (write_byte-Puts 0))))))
