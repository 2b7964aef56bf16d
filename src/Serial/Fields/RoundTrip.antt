-- ===== src/Serial/Fields/RoundTrip.antt =====
-- What a reader finds of the fields that a serializer has taken.
use lin_socket_io.Base.{
  ℕ, ◌≡◌, refl, sym, ap, ◌∙◌, subst, List, [], ◌∷◌, ◌++◌, map, append-nil, append_assoc, arith,
  if◌then◌else◌, Bytes, length, length-append, All, ok, ok-injective, >>=-eq-ok,
}
use lin_socket_io.Buffer.Memory.{length-le_bytes}
use lin_socket_io.Serial.Reader.Reads.{
  reader, read_byte-le_bytes, read_bool-le_bytes, read_uint16-ordered_bytes,
  read_uint32-ordered_bytes, read_uint64-ordered_bytes, read_string16-ordered_bytes,
  read_string32-ordered_bytes,
}
use lin_socket_io.Serial.Writer.{Serializer, data_bytes}
use lin_socket_io.Serial.Writer.Append.{
  IsOpen, Wrote, Wrote-trans, written, data_bytes-written, write_byte-Wrote, write_uint16-Wrote,
  write_uint32-Wrote, write_uint64-Wrote, write_bool-Wrote, write_string16-Wrote,
  write_string32-Wrote,
}
use lin_socket_io.Serial.Writer.Room.{
  HasRoom, HasRoom-Wrote, write_bool_some, write_byte_some, write_uint16_some, write_uint32_some,
  write_uint64_some, write_string16_some, write_string32_some,
}
use lin_socket_io.Wire.Order.{length-ordered_bytes, ordered_bytes}
use lin_socket_io.Serial.Fields.{
  Field, a_bool, a_byte, a_uint16, a_uint32, a_uint64, a_string16, a_string32, kind, FitsWidth,
  width, widths, image, images, read_field, unmarshal, write_field, marshal,
}

module _ (fresh : ℕ → ℕ) where
  write_field-Wrote :
      (s t : Serializer) (f : Field)
      → IsOpen s
      → FitsWidth f
      → write_field fresh s f ≡ ok t
      → Wrote s (image s.bo f) t
  unfolding write_field
  write_field-Wrote s t (a_bool b) o h e = write_bool-Wrote fresh s t o b e
  write_field-Wrote s t (a_byte v) o h e = write_byte-Wrote fresh s t o v e
  write_field-Wrote s t (a_uint16 v) o h e = write_uint16-Wrote fresh s t o v e
  write_field-Wrote s t (a_uint32 v) o h e = write_uint32-Wrote fresh s t o v e
  write_field-Wrote s t (a_uint64 v) o h e = write_uint64-Wrote fresh s t o v e
  write_field-Wrote s t (a_string16 str) o h e = write_string16-Wrote fresh s t o str h e
  write_field-Wrote s t (a_string32 str) o h e = write_string32-Wrote fresh s t o str h e

  pub marshal-Wrote :
      (fs : List Field) (s t : Serializer)
      → IsOpen s
      → All FitsWidth fs
      → marshal fresh s fs ≡ ok t
      → Wrote s (images s.bo fs) t
  unfolding marshal
  marshal-Wrote [] s t o h e = subst (Wrote s []) (ok-injective e) (record {
    still_open = o;
    bytes = sym (append-nil (written s));
    same_bo = refl;
    same_offset = refl;
    same_limit = refl;
  })
  marshal-Wrote (f ∷ fs) s t o (p, h) e =
      let (u, first, rest) = >>=-eq-ok (write_field fresh s f) _ e in
      let w = write_field-Wrote s u f o p first in
      let v = marshal-Wrote fs u t w.still_open h rest in
      Wrote-trans s u t (image s.bo f) (images s.bo fs) w
        (subst (λ bo. Wrote u (images bo fs) t) w.same_bo v)

read_field-image :
    (f : Field) (more : Bytes) (bo : ℕ)
    → FitsWidth f
    → read_field (kind f) (reader (image bo f ++ more) bo) ≡ ok (f, reader more bo)
unfolding read_field
read_field-image (a_bool b) more bo h = rw (read_bool-le_bytes b more bo)
read_field-image (a_byte v) more bo h = rw (read_byte-le_bytes v more bo h)
read_field-image (a_uint16 v) more bo h = rw (read_uint16-ordered_bytes v more bo h)
read_field-image (a_uint32 v) more bo h = rw (read_uint32-ordered_bytes v more bo h)
read_field-image (a_uint64 v) more bo h = rw (read_uint64-ordered_bytes v more bo h)
read_field-image (a_string16 str) more bo h =
    rw (append_assoc, read_string16-ordered_bytes str more bo h)
read_field-image (a_string32 str) more bo h =
    rw (append_assoc, read_string32-ordered_bytes str more bo h)

unmarshal-images :
    (fs : List Field) (more : Bytes) (bo : ℕ)
    → All FitsWidth fs
    → unmarshal (map kind fs) (reader (images bo fs ++ more) bo) ≡ ok (fs, reader more bo)
unfolding unmarshal
unmarshal-images [] more bo h = refl
unmarshal-images (f ∷ fs) more bo (p, h) = rw (
  append_assoc (image bo f) (images bo fs) more,
  read_field-image f (images bo fs ++ more) bo p,
  unmarshal-images fs more bo h,
)

image-length : (f : Field) (bo : ℕ) → length (image bo f) ≡ width f
image-length (a_bool b) bo = length-le_bytes 1 (if b then 1 else 0)
image-length (a_byte v) bo = length-le_bytes 1 v
image-length (a_uint16 v) bo = length-ordered_bytes 2 v bo
image-length (a_uint32 v) bo = length-ordered_bytes 4 v bo
image-length (a_uint64 v) bo = length-ordered_bytes 8 v bo
image-length (a_string16 str) bo = omega (
  arith,
  length-append (ordered_bytes 2 (length str) bo) str,
  length-ordered_bytes 2 (length str) bo,
)
image-length (a_string32 str) bo = omega (
  arith,
  length-append (ordered_bytes 4 (length str) bo) str,
  length-ordered_bytes 4 (length str) bo,
)

module _ (fresh : ℕ → ℕ) where
  write_field_some :
      (s : Serializer) (f : Field)
      → IsOpen s
      → HasRoom s (width f)
      → (t : Serializer) × (write_field fresh s f ≡ ok t)
  unfolding write_field
  write_field_some s (a_bool b) o h = write_bool_some fresh s b o h
  write_field_some s (a_byte v) o h = write_byte_some fresh s v o h
  write_field_some s (a_uint16 v) o h = write_uint16_some fresh s v o h
  write_field_some s (a_uint32 v) o h = write_uint32_some fresh s v o h
  write_field_some s (a_uint64 v) o h = write_uint64_some fresh s v o h
  write_field_some s (a_string16 str) o h = write_string16_some fresh s str o h
  write_field_some s (a_string32 str) o h = write_string32_some fresh s str o h

  marshal_some :
      (fs : List Field) (s : Serializer)
      → IsOpen s
      → All FitsWidth fs
      → HasRoom s (widths fs)
      → (t : Serializer) × (marshal fresh s fs ≡ ok t)
  unfolding marshal
  marshal_some [] s o h room = (s, refl)
  marshal_some (f ∷ fs) s o (p, h) room =
      let (u, e) = write_field_some s f o (omega arith) in
      let w = write_field-Wrote fresh s u f o p e in
      let rest : HasRoom u (widths fs) =
        HasRoom-Wrote s u (image s.bo f) (widths fs) o w (omega (arith, image-length f s.bo)) in
      let (t, e') = marshal_some fs u w.still_open h rest in (t, rw e e')

-- A serializer that holds nothing takes any list of fields that fit their widths and the buffer's
-- limit, without an exception; a reader of the same byte order reads the fields back from its
-- data, one by one, and stops at whatever follows.
pub unmarshal-marshal :
    (fresh : ℕ → ℕ) (fs : List Field) (s : Serializer) (more : Bytes)
    → IsOpen s
    → written s ≡ []
    → All FitsWidth fs
    → HasRoom s (widths fs)
    → (t : Serializer) × (xs : Bytes) × (marshal fresh s fs ≡ ok t)
      × (data_bytes t ≡ ok xs)
      × (unmarshal (map kind fs) (reader (xs ++ more) s.bo) ≡ ok (fs, reader more s.bo))
unmarshal-marshal fresh fs s more o empty h room =
    let (t, e) = marshal_some fresh fs s o h room in
    let w = marshal-Wrote fresh fs s t o h e in
    let found : written t ≡ images s.bo fs = w.bytes ∙ ap (λ x. x ++ images s.bo fs) empty in
    (
      t,
      images s.bo fs,
      e,
      (data_bytes-written t w.still_open).0 ∙ ap ok found,
      unmarshal-images fs more s.bo h,
    )
