-- ===== src/Thrift/Parts.antt =====
-- What the parts of skip do with the parts of a value's bytes.
use lin_socket_io.Base.{
  ℕ, zero, suc, ◌+◌, ◌^◌, ◌≤◌, ◌<◌, ◌≡◌, refl, ap, ◌∙◌, true, false, ◌++◌, append_assoc, arith, ltb,
  ◌==◌, Bytes, length, length-append, ok, ◌>>=◌,
}
use lin_socket_io.Buffer.Memory.{le_bytes, length-le_bytes}
use lin_socket_io.Wire.{big_endian}
use lin_socket_io.Wire.Order.{ordered_bytes, length-ordered_bytes}
use lin_socket_io.Serial.Reader.{Deserializer}
use lin_socket_io.Serial.Reader.Reads.{
  reader, read_append, read_byte-le_bytes, read_uint32-ordered_bytes,
}
use lin_socket_io.Thrift.{
  t_stop, fixed, layout, Skip, Loop, skipped, skip_fixed, skip_delimited, after_loop, unless_zero,
  items, entries, field_rest, fields, skip_list, skip_map,
}
use lin_socket_io.Thrift.Values.{
  Scalar, bool, byte, i16, i32, u64, i64, double, width, Ttype, scalar, string, utf8, utf16,
  a_struct, a_map, a_set, a_list, scalar_code, code, Value, number, text, text8, text16, record_of,
  map, set, list, Items, nil, cons, Entries, no_entry, entry, Fields, end, field, count, pairs,
  delimited_image, image, items_image, entries_image, fields_image,
}

-- a big endian reader
abbrev pub at : Bytes → Deserializer
at xs = reader xs big_endian

pub layout-scalar_code : (s : Scalar) → layout (scalar_code s) ≡ fixed (width s)
unfolding layout
layout-scalar_code bool = refl
layout-scalar_code byte = refl
layout-scalar_code i16 = refl
layout-scalar_code i32 = refl
layout-scalar_code u64 = refl
layout-scalar_code i64 = refl
layout-scalar_code double = refl

pub code-bound : (t : Ttype) → code t < 2 ^ 8
code-bound (scalar bool) = omega arith
code-bound (scalar byte) = omega arith
code-bound (scalar i16) = omega arith
code-bound (scalar i32) = omega arith
code-bound (scalar u64) = omega arith
code-bound (scalar i64) = omega arith
code-bound (scalar double) = omega arith
code-bound string = omega arith
code-bound utf8 = omega arith
code-bound utf16 = omega arith
code-bound a_struct = omega arith
code-bound a_map = omega arith
code-bound a_set = omega arith
code-bound a_list = omega arith

pub skipped-append :
    (ys xs more : Bytes)
    → xs ++ more ≡ ys
    → length xs < 2 ^ 32
    → skipped (at ys) (at more) ≡ ok (length xs, at more)
skipped-append ys xs more e h =
    ap (λ n. ok (n, at more)) (omega (arith, length-append xs more, ap length e))

pub skip_fixed-append :
    (k : ℕ) (xs more : Bytes)
    → length xs ≡ k
    → k < 2 ^ 32
    → skip_fixed k (at (xs ++ more)) ≡ ok (length xs, at more)
skip_fixed-append k xs more e h =
    let enough : ltb (length (xs ++ more)) k ≡ false = ground (arith, length-append xs more) in
    rw (enough, read_append xs more big_endian k e)
      (skipped-append (xs ++ more) xs more refl (omega arith))

pub skip_delimited-append :
    (xs more : Bytes)
    → length (delimited_image xs) < 2 ^ 31
    → skip_delimited (at (delimited_image xs ++ more)) ≡ ok (length (delimited_image xs), at more)
unfolding skip_delimited
skip_delimited-append xs more h =
    let len = ordered_bytes 4 (length xs) big_endian in
    let total = length-append len xs in
    let small : length xs < 2 ^ 31 = omega (arith, total) in
    let room : ltb (length (len ++ (xs ++ more))) 4 ≡ false =
      ground
        (arith, length-append len (xs ++ more), length-ordered_bytes 4 (length xs) big_endian) in
    let enough : ltb (length (xs ++ more)) (length xs) ≡ false =
      ground (arith, length-append xs more) in
    rw (append_assoc len xs more, room)
      (rw (read_uint32-ordered_bytes (length xs) (xs ++ more) big_endian (omega arith)) (
        rw (enough, read_append xs more big_endian (length xs) refl)
          (skipped-append (len ++ (xs ++ more)) (delimited_image xs) more (append_assoc len xs more)
            (omega arith))))

unless_zero-pos :
    (next : Deserializer → Loop) (n : ℕ) (d : Deserializer)
    → 0 < n
    → unless_zero next (n, d) ≡ next d
unfolding unless_zero
unless_zero-pos next zero d h = absurd (omega arith)
unless_zero-pos next (suc n) d h = refl

width-pos : (s : Scalar) → 0 < width s
width-pos bool = omega arith
width-pos byte = omega arith
width-pos i16 = omega arith
width-pos i32 = omega arith
width-pos u64 = omega arith
width-pos i64 = omega arith
width-pos double = omega arith

delimited-pos : (xs : Bytes) → 0 < length (delimited_image xs)
delimited-pos xs = omega (
  arith,
  length-append (ordered_bytes 4 (length xs) big_endian) xs,
  length-ordered_bytes 4 (length xs) big_endian,
)

pub length-byte : (c : ℕ) (xs : Bytes) → length (le_bytes 1 c ++ xs) ≡ 1 + length xs
length-byte c xs = omega (arith, length-append (le_bytes 1 c) xs, length-le_bytes 1 c)

pub length-word :
    (k n : ℕ) (xs : Bytes) → length (ordered_bytes k n big_endian ++ xs) ≡ k + length xs
length-word k n xs =
    omega
      (arith, length-append (ordered_bytes k n big_endian) xs, length-ordered_bytes k n big_endian)

-- The image of a value has a byte at least.
mutual
  unfolding image

  pub image-pos : {t : Ttype} (x : Value t) → 0 < length (image x)
  image-pos (number s n) = omega (arith, length-ordered_bytes (width s) n big_endian, width-pos s)
  image-pos (text xs) = delimited-pos xs
  image-pos (text8 xs) = delimited-pos xs
  image-pos (text16 xs) = delimited-pos xs
  image-pos (record_of fs) = fields_image-pos fs
  image-pos (map k v es) = omega (arith, length-byte (code k) _)
  image-pos (set t xs) = omega (arith, length-byte (code t) _)
  image-pos (list t xs) = omega (arith, length-byte (code t) _)

  fields_image-pos : (fs : Fields) → 0 < length (fields_image fs)
  fields_image-pos end = omega (arith, length-le_bytes 1 t_stop)
  fields_image-pos (field t id x fs) = omega (arith, length-byte (code t) _)

-- a list's head, and its loop
abbrev pub list_image : ℕ → ℕ → Bytes → Bytes
list_image c n xs = le_bytes 1 c ++ (ordered_bytes 4 n big_endian ++ xs)

module _ (skip_one : ℕ → Deserializer → Skip) where
  pub skip_list-append :
      (c n : ℕ) (xs more : Bytes)
      → c < 2 ^ 8
      → n < 2 ^ 32
      → length (list_image c n xs) < 2 ^ 31
      → items skip_one c n (at (xs ++ more)) ≡ ok (true, at more)
      → skip_list skip_one (at (list_image c n xs ++ more))
        ≡ ok (length (list_image c n xs), at more)
  unfolding skip_list after_loop
  skip_list-append c n xs more hc hn small e =
      let num = ordered_bytes 4 n big_endian in
      let whole : list_image c n xs ++ more ≡ le_bytes 1 c ++ (num ++ (xs ++ more)) =
        append_assoc (le_bytes 1 c) (num ++ xs) more
        ∙ ap (◌++◌ (le_bytes 1 c)) (append_assoc num xs more) in
      let room : ltb (length (le_bytes 1 c ++ (num ++ (xs ++ more)))) (1 + 4) ≡ false =
        ground (arith, length-byte c (num ++ (xs ++ more)), length-word 4 n (xs ++ more)) in
      rw whole (
        rw room (
          rw (read_byte-le_bytes c (num ++ (xs ++ more)) big_endian hc) (
            rw (read_uint32-ordered_bytes n (xs ++ more) big_endian hn) (
              rw e (
                skipped-append (le_bytes 1 c ++ (num ++ (xs ++ more))) (list_image c n xs) more
                  whole (omega arith))))))

  -- a map's head, and its loop
  pub skip_map-append :
      (k v n : ℕ) (xs more : Bytes)
      → k < 2 ^ 8
      → v < 2 ^ 8
      → n < 2 ^ 32
      → length (le_bytes 1 k ++ list_image v n xs) < 2 ^ 31
      → entries skip_one k v n (at (xs ++ more)) ≡ ok (true, at more)
      → skip_map skip_one (at ((le_bytes 1 k ++ list_image v n xs) ++ more))
        ≡ ok (length (le_bytes 1 k ++ list_image v n xs), at more)
  unfolding skip_map after_loop
  skip_map-append k v n xs more hk hv hn small e =
      let num = ordered_bytes 4 n big_endian in
      let tail = le_bytes 1 v ++ (num ++ (xs ++ more)) in
      let whole : (le_bytes 1 k ++ list_image v n xs) ++ more ≡ le_bytes 1 k ++ tail =
        append_assoc (le_bytes 1 k) (list_image v n xs) more
        ∙ ap (◌++◌ (le_bytes 1 k)) (
            append_assoc (le_bytes 1 v) (num ++ xs) more
            ∙ ap (◌++◌ (le_bytes 1 v)) (append_assoc num xs more)) in
      let room : ltb (length (le_bytes 1 k ++ tail)) (1 + 1 + 2) ≡ false = ground (
        arith,
        length-byte k tail,
        length-byte v (num ++ (xs ++ more)),
        length-word 4 n (xs ++ more),
      ) in
      rw whole (
        rw room (
          rw (read_byte-le_bytes k tail big_endian hk) (
            rw (read_byte-le_bytes v (num ++ (xs ++ more)) big_endian hv) (
              rw (read_uint32-ordered_bytes n (xs ++ more) big_endian hn) (
                rw e (
                  skipped-append (le_bytes 1 k ++ tail) (le_bytes 1 k ++ list_image v n xs) more
                    whole (omega arith)))))))

  -- one value of a loop
  pub unless_zero-append :
      (ftype : ℕ) (xs more : Bytes) (next : Deserializer → Loop)
      → 0 < length xs
      → skip_one ftype (at (xs ++ more)) ≡ ok (length xs, at more)
      → (skip_one ftype (at (xs ++ more)) >>= unless_zero next) ≡ next (at more)
  unless_zero-append ftype xs more next h e = rw e (unless_zero-pos next (length xs) (at more) h)

  -- the head of a field
  pub field_rest-append :
      (ftype id : ℕ) (xs more : Bytes) (next : Deserializer → Loop)
      → 0 < ftype
      → 0 < length xs
      → skip_one ftype (at (xs ++ more)) ≡ ok (length xs, at more)
      → field_rest skip_one ftype next (at (ordered_bytes 2 id big_endian ++ (xs ++ more)))
        ≡ next (at more)
  unfolding field_rest
  field_rest-append ftype id xs more next pos h e =
      let num = ordered_bytes 2 id big_endian in
      let goes_on : (ftype == t_stop) ≡ false = ground arith in
      let room : ltb (length (num ++ (xs ++ more))) 2 ≡ false =
        ground (arith, length-word 2 id (xs ++ more)) in
      rw goes_on (
        rw room (
          rw (read_append num (xs ++ more) big_endian 2 (length-ordered_bytes 2 id big_endian))
            (unless_zero-append ftype xs more next h e)))

  pub fields-byte :
      (fuel c : ℕ) (xs : Bytes)
      → c < 2 ^ 8
      → fields skip_one (suc fuel) (at (le_bytes 1 c ++ xs))
        ≡ field_rest skip_one c (fields skip_one fuel) (at xs)
  unfolding fields
  fields-byte fuel c xs h =
      let room : ltb (length (le_bytes 1 c ++ xs)) 1 ≡ false = ground (arith, length-byte c xs) in
      rw room (rw (read_byte-le_bytes c xs big_endian h) refl)

pub code-pos : (t : Ttype) → 0 < code t
code-pos (scalar bool) = omega arith
code-pos (scalar byte) = omega arith
code-pos (scalar i16) = omega arith
code-pos (scalar i32) = omega arith
code-pos (scalar u64) = omega arith
code-pos (scalar i64) = omega arith
code-pos (scalar double) = omega arith
code-pos string = omega arith
code-pos utf8 = omega arith
code-pos utf16 = omega arith
code-pos a_struct = omega arith
code-pos a_map = omega arith
code-pos a_set = omega arith
code-pos a_list = omega arith

pub count-le : {t : Ttype} (xs : Items t) → count xs ≤ length (items_image xs)
unfolding items_image
count-le nil = omega arith
count-le (cons x xs) =
    omega (arith, count-le xs, image-pos x, length-append (image x) (items_image xs))

pub pairs-le : {k v : Ttype} (es : Entries k v) → pairs es ≤ length (entries_image es)
unfolding entries_image
pairs-le no_entry = omega arith
pairs-le (entry x y es) = omega (
  arith,
  pairs-le es,
  image-pos x,
  length-append (image x) (image y ++ entries_image es),
  length-append (image y) (entries_image es),
)
