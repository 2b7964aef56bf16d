-- ===== src/Thrift/Skipping.antt =====
-- skip on the bytes of a value.
use lin_socket_io.Base.{
  ℕ, zero, suc, ◌+◌, ◌^◌, ◌<◌, ◌≡◌, refl, ◌∙◌, ◌++◌, append_assoc, arith, Bytes, length,
  length-append, ok, true,
}
use lin_socket_io.Buffer.Memory.{le_bytes}
use lin_socket_io.Wire.{big_endian}
use lin_socket_io.Wire.Order.{ordered_bytes, length-ordered_bytes}
use lin_socket_io.Thrift.{
  t_stop, layout, after_loop, items, entries, fields, field_rest, skip_as, skip_struct, skip_nested,
  skip,
}
use lin_socket_io.Thrift.Values.{
  Scalar, bool, byte, i16, i32, u64, i64, double, width, Ttype, code, Value, number, text, text8,
  text16, record_of, map, set, list, Items, nil, cons, Entries, no_entry, entry, Fields, end, field,
  count, pairs, image, items_image, entries_image, fields_image,
}
use lin_socket_io.Thrift.Parts.{
  list_image, at, layout-scalar_code, code-bound, skip_fixed-append, skip_delimited-append,
  skip_list-append, skip_map-append, unless_zero-append, field_rest-append, fields-byte, code-pos,
  count-le, pairs-le, length-byte, length-word, image-pos, skipped-append,
}

width-le : (s : Scalar) → width s < 2 ^ 32
width-le bool = omega arith
width-le byte = omega arith
width-le i16 = omega arith
width-le i32 = omega arith
width-le u64 = omega arith
width-le i64 = omega arith
width-le double = omega arith

mutual
  unfolding skip_nested skip_as layout image items_image entries_image fields_image items entries
      skip_struct after_loop field_rest

  nested :
      {t : Ttype} (x : Value t) (fuel : ℕ) (more : Bytes)
      → length (image x) < 2 ^ 31
      → length (image x) < fuel
      → skip_nested fuel (code t) (at (image x ++ more)) ≡ ok (length (image x), at more)
  nested x zero more h g = absurd (omega arith)
  nested (number s n) (suc f) more h g = rw (layout-scalar_code s) (
      skip_fixed-append (width s) (ordered_bytes (width s) n big_endian) more
        (length-ordered_bytes (width s) n big_endian) (width-le s))
  nested (text xs) (suc f) more h g = skip_delimited-append xs more h
  nested (text8 xs) (suc f) more h g = skip_delimited-append xs more h
  nested (text16 xs) (suc f) more h g = skip_delimited-append xs more h
  nested (record_of fs) (suc f) more h g =
      let e =
        nested_fields fs f (length (fields_image fs ++ more) + 1) more h (omega arith)
          (omega (arith, length-append (fields_image fs) more)) in
      rw e (skipped-append (fields_image fs ++ more) (fields_image fs) more refl (omega arith))
  nested (map k v es) (suc f) more h g =
      let size = length-byte (code k) (list_image (code v) (pairs es) (entries_image es)) in
      let size' =
        length-byte (code v) (ordered_bytes 4 (pairs es) big_endian ++ entries_image es) in
      let size'' = length-word 4 (pairs es) (entries_image es) in
      let small : length (entries_image es) < f = omega arith in
      skip_map-append (skip_nested f) (code k) (code v) (pairs es) (entries_image es) more
        (code-bound k) (code-bound v) (omega (arith, pairs-le es)) h
        (nested_entries es f more (omega arith) small)
  nested (set t xs) (suc f) more h g =
      let size = length-byte (code t) (ordered_bytes 4 (count xs) big_endian ++ items_image xs) in
      let size' = length-word 4 (count xs) (items_image xs) in
      skip_list-append (skip_nested f) (code t) (count xs) (items_image xs) more (code-bound t)
        (omega (arith, count-le xs)) h (nested_items xs f more (omega arith) (omega arith))
  nested (list t xs) (suc f) more h g =
      let size = length-byte (code t) (ordered_bytes 4 (count xs) big_endian ++ items_image xs) in
      let size' = length-word 4 (count xs) (items_image xs) in
      skip_list-append (skip_nested f) (code t) (count xs) (items_image xs) more (code-bound t)
        (omega (arith, count-le xs)) h (nested_items xs f more (omega arith) (omega arith))

  nested_items :
      {t : Ttype} (xs : Items t) (f : ℕ) (more : Bytes)
      → length (items_image xs) < 2 ^ 31
      → length (items_image xs) < f
      → items (skip_nested f) (code t) (count xs) (at (items_image xs ++ more)) ≡ ok (true, at more)
  nested_items nil f more h g = refl
  nested_items {t} (cons x xs) f more h g =
      let size = length-append (image x) (items_image xs) in
      rw (append_assoc (image x) (items_image xs) more) (
        unless_zero-append (skip_nested f) (code t) (image x) (items_image xs ++ more)
          (items (skip_nested f) (code t) (count xs)) (image-pos x)
          (nested x f (items_image xs ++ more) (omega arith) (omega arith))
        ∙ nested_items xs f more (omega arith) (omega arith))

  nested_entries :
      {k v : Ttype} (es : Entries k v) (f : ℕ) (more : Bytes)
      → length (entries_image es) < 2 ^ 31
      → length (entries_image es) < f
      → entries (skip_nested f) (code k) (code v) (pairs es) (at (entries_image es ++ more))
        ≡ ok (true, at more)
  nested_entries no_entry f more h g = refl
  nested_entries {k} {v} (entry x y es) f more h g =
      let size = length-append (image x) (image y ++ entries_image es) in
      let size' = length-append (image y) (entries_image es) in
      rw (append_assoc (image x) (image y ++ entries_image es) more) (
        rw (append_assoc (image y) (entries_image es) more) (
          unless_zero-append (skip_nested f) (code k) (image x)
            (image y ++ (entries_image es ++ more)) _ (image-pos x)
            (nested x f (image y ++ (entries_image es ++ more)) (omega arith) (omega arith))
          ∙ unless_zero-append (skip_nested f) (code v) (image y) (entries_image es ++ more) _
              (image-pos y) (nested y f (entries_image es ++ more) (omega arith) (omega arith))
          ∙ nested_entries es f more (omega arith) (omega arith)))

  nested_fields :
      (fs : Fields) (f g : ℕ) (more : Bytes)
      → length (fields_image fs) < 2 ^ 31
      → length (fields_image fs) < suc f
      → length (fields_image fs) < g
      → fields (skip_nested f) g (at (fields_image fs ++ more)) ≡ ok (true, at more)
  nested_fields fs f zero more h k g = absurd (omega arith)
  nested_fields end f (suc n) more h k g = fields-byte (skip_nested f) n t_stop more (omega arith)
  nested_fields (field t id x fs) f (suc n) more h k g =
      let num = ordered_bytes 2 id big_endian in
      let rest = fields_image fs ++ more in
      let size = length-byte (code t) (num ++ (image x ++ fields_image fs)) in
      let size' = length-word 2 id (image x ++ fields_image fs) in
      let size'' = length-append (image x) (fields_image fs) in
      rw (append_assoc (le_bytes 1 (code t)) (num ++ (image x ++ fields_image fs)) more) (
        rw (append_assoc num (image x ++ fields_image fs) more) (
          rw (append_assoc (image x) (fields_image fs) more) (
            fields-byte (skip_nested f) n (code t) (num ++ (image x ++ rest)) (code-bound t)
            ∙ field_rest-append (skip_nested f) (code t) id (image x) rest
                (fields (skip_nested f) n) (code-pos t) (image-pos x)
                (nested x f rest (omega arith) (omega arith))
            ∙ nested_fields fs f n more (omega arith) (omega arith) (omega arith))))

-- skip on the bytes of a value, of any type and nesting, that has less than 2^31 of them: it returns
-- how many they are, and what follows them is left.
pub skip-image :
    {t : Ttype} (x : Value t) (more : Bytes)
    → length (image x) < 2 ^ 31
    → skip (at (image x ++ more)) (code t) ≡ ok (length (image x), at more)
unfolding skip
skip-image x more h =
    nested x (length (image x ++ more) + 1) more h (omega (arith, length-append (image x) more))
