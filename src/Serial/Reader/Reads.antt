-- ===== src/Serial/Reader/Reads.antt =====
-- What the reading operations of a Deserializer find in bytes of known form.
use lin_socket_io.Base.{
  ℕ, ◌^◌, ◌≤◌, ◌<◌, ◌≡◌, refl, subst, Bool, true, false, Option, none, some, ◌++◌, arith,
  if◌then◌else◌, Bytes, length, take, drop, length-append, take-append-drop, length-take,
  length-drop, take-length_append, drop-length_append, Result, ok, err, ◌>>=◌,
}
use lin_socket_io.Buffer.Memory.{le_bytes, from_le-le_bytes, length-le_bytes}
use lin_socket_io.Serial.Reader.{
  short_of, peek_uint64_at, peek_uint32_at, peek_uint16_at, peek_uint8_at, skip, Deserializer, size,
  read, read_byte, read_bool, read_uint16, read_uint32, read_uint64, read_string16, read_string32,
}
use lin_socket_io.Wire.{hton16, hton32, hton64}
use lin_socket_io.Wire.Order.{ordered_bytes, le_bytes-hton, hton-hton_each, hton_bounds}

abbrev pub reader : Bytes → ℕ → Deserializer
reader xs bo = record { rest = xs; bo = bo }

pub read_append :
    (xs more : Bytes) (bo n : ℕ)
    → length xs ≡ n
    → read (reader (xs ++ more) bo) n ≡ ok (xs, reader more bo)
unfolding read
read_append xs more bo n e =
    subst (λ k. read (reader (xs ++ more) bo) k ≡ ok (xs, reader more bo)) e
      (ground
        (arith, length-append xs more, take-length_append xs more, drop-length_append xs more))

take-word : (k v : ℕ) (more : Bytes) → take k (le_bytes k v ++ more) ≡ le_bytes k v
take-word k v more =
    subst (λ n. take n (le_bytes k v ++ more) ≡ le_bytes k v) (length-le_bytes k v)
      (take-length_append (le_bytes k v) more)

drop-word : (k v : ℕ) (more : Bytes) → drop k (le_bytes k v ++ more) ≡ more
drop-word k v more =
    subst (λ n. drop n (le_bytes k v ++ more) ≡ more) (length-le_bytes k v)
      (drop-length_append (le_bytes k v) more)

length-word : (k v : ℕ) (more : Bytes) → k ≤ length (le_bytes k v ++ more)
length-word k v more = omega (arith, length-append (le_bytes k v) more, length-le_bytes k v)

pub read_byte-le_bytes :
    (v : ℕ) (more : Bytes) (bo : ℕ)
    → v < 2 ^ 8
    → read_byte (reader (le_bytes 1 v ++ more) bo) ≡ ok (v, reader more bo)
unfolding read_byte
read_byte-le_bytes v more bo h =
    ground
      (arith, length-word 1 v more, take-word 1 v more, drop-word 1 v more, from_le-le_bytes 1 v)

pub read_uint16-ordered_bytes :
    (v : ℕ) (more : Bytes) (bo : ℕ)
    → v < 2 ^ 16
    → read_uint16 (reader (ordered_bytes 2 v bo ++ more) bo) ≡ ok (v, reader more bo)
unfolding read_uint16
read_uint16-ordered_bytes v more bo h =
    let w = hton16 v bo in
    rw (← (le_bytes-hton v bo).0) (
      ground (
        arith,
        length-word 2 w more,
        take-word 2 w more,
        drop-word 2 w more,
        from_le-le_bytes 2 w ((hton_bounds v bo).0 h),
        (hton-hton_each v bo).0 h,
      ))

pub read_uint32-ordered_bytes :
    (v : ℕ) (more : Bytes) (bo : ℕ)
    → v < 2 ^ 32
    → read_uint32 (reader (ordered_bytes 4 v bo ++ more) bo) ≡ ok (v, reader more bo)
unfolding read_uint32
read_uint32-ordered_bytes v more bo h =
    let w = hton32 v bo in
    rw (← (le_bytes-hton v bo).1) (
      ground (
        arith,
        length-word 4 w more,
        take-word 4 w more,
        drop-word 4 w more,
        from_le-le_bytes 4 w ((hton_bounds v bo).1 h),
        (hton-hton_each v bo).1 h,
      ))

pub read_uint64-ordered_bytes :
    (v : ℕ) (more : Bytes) (bo : ℕ)
    → v < 2 ^ 64
    → read_uint64 (reader (ordered_bytes 8 v bo ++ more) bo) ≡ ok (v, reader more bo)
unfolding read_uint64
read_uint64-ordered_bytes v more bo h =
    let w = hton64 v bo in
    rw (← (le_bytes-hton v bo).2) (
      ground (
        arith,
        length-word 8 w more,
        take-word 8 w more,
        drop-word 8 w more,
        from_le-le_bytes 8 w ((hton_bounds v bo).2 h),
        (hton-hton_each v bo).2 h,
      ))

pub read_bool-le_bytes :
    (b : Bool) (more : Bytes) (bo : ℕ)
    → read_bool (reader (le_bytes 1 (if b then 1 else 0) ++ more) bo) ≡ ok (b, reader more bo)
unfolding read_bool
read_bool-le_bytes true more bo = rw (read_byte-le_bytes 1 more bo (omega arith))
read_bool-le_bytes false more bo = rw (read_byte-le_bytes 0 more bo (omega arith))

pub read_string16-ordered_bytes :
    (str more : Bytes) (bo : ℕ)
    → length str < 2 ^ 16
    → read_string16 (reader (ordered_bytes 2 (length str) bo ++ (str ++ more)) bo)
      ≡ ok (str, reader more bo)
unfolding read_string16
read_string16-ordered_bytes str more bo h =
    rw (read_uint16-ordered_bytes (length str) (str ++ more) bo h) (read_append str more bo _ refl)

pub read_string32-ordered_bytes :
    (str more : Bytes) (bo : ℕ)
    → length str < 2 ^ 32
    → read_string32 (reader (ordered_bytes 4 (length str) bo ++ (str ++ more)) bo)
      ≡ ok (str, reader more bo)
unfolding read_string32
read_string32-ordered_bytes str more bo h =
    rw (read_uint32-ordered_bytes (length str) (str ++ more) bo h) (read_append str more bo _ refl)

-- Reading takes from the front what it returns: nothing is skipped, and nothing is made up.
pub read_splits :
    (d e : Deserializer) (n : ℕ) (xs : Bytes)
    → read d n ≡ ok (xs, e)
    → (d.rest ≡ xs ++ e.rest) × (length xs ≡ n) × (e.bo ≡ d.bo)
unfolding read
read_splits d e n xs h = ground (arith, take-append-drop n d.rest, length-take n d.rest)

-- the value of a read that succeeds
abbrev pub found {ℓ} : {A : Type ℓ} → Result (A × Deserializer) → Option A
found (ok (a, d)) = some a
found (err e) = none

-- peek_*(pos) sees the word that a reader finds after it skips `pos` bytes, and nothing where that
-- reader would throw. The view holds less than 2^31 bytes and `pos` is below 2^31.
pub peek-skip :
    (d : Deserializer) (pos : ℕ)
    → size d < 2 ^ 31
    → pos < 2 ^ 31
    → (peek_uint8_at d pos ≡ found (skip d pos >>= read_byte))
      × (peek_uint16_at d pos ≡ found (skip d pos >>= read_uint16))
      × (peek_uint32_at d pos ≡ found (skip d pos >>= read_uint32))
      × (peek_uint64_at d pos ≡ found (skip d pos >>= read_uint64))
unfolding skip read_byte read_uint16 read_uint32 read_uint64 peek_uint8_at peek_uint16_at
    peek_uint32_at peek_uint64_at short_of
peek-skip d pos h k = (
  ground (arith, length-drop pos d.rest),
  ground (arith, length-drop pos d.rest),
  ground (arith, length-drop pos d.rest),
  ground (arith, length-drop pos d.rest),
)
