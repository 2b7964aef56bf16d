-- ===== src/Packet/RoundTrip.antt =====
-- A packet is read back as the value that was written.
use lin_socket_io.Base.{
  ◌*◌, ℕ, ◌^◌, ◌<◌, ◌≤◌, ◌≡◌, refl, ap, ◌∙◌, subst, Bool, true, false, List, [], ◌∷◌, ◌++◌, arith,
  append_assoc, append-nil, if◌then◌else◌, Bytes, length, length-append, take-length_append,
  drop-length_append, All, All-map, Result, ok, some,
}
use lin_socket_io.Buffer.Invariant.{init-IsValid}
use lin_socket_io.Buffer.Memory.{le_bytes}
use lin_socket_io.Packet.{
  Shape, bool, uint8, uint16, uint32, uint64, varstr, varstr32, pair, container, Value, pop_uint8,
  pop_uint16, pop_uint32, pop_uint64, pop_fetch_ptr, pop_varstr, pop_varstr32, pop_bool, pop_all,
  unmarshal_container, pop_pair, pop_value, packet_to_string, string_to_packet, caught,
}
use lin_socket_io.Packet.Images.{FitsShape, joined, image}
use lin_socket_io.Packet.Pushing.{push_value-Appends}
use lin_socket_io.Serial.Reader.{Deserializer, skip}
use lin_socket_io.Serial.Reader.Reads.{
  reader, read_byte-le_bytes, read_uint16-ordered_bytes, read_uint32-ordered_bytes,
  read_uint64-ordered_bytes,
}
use lin_socket_io.Serial.Writer.{serializer}
use lin_socket_io.Serial.Writer.Append.{data_bytes-written, serializer-IsOpen}
use lin_socket_io.Wire.{little_endian}
use lin_socket_io.Wire.Order.{ordered_bytes}
use lin_socket_io.Buffer

-- `get` finds the value behind its image, and stops at what follows.
abbrev pub Finds :
    {A : Type 0} → (Deserializer → Result (A × Deserializer)) → (ℕ → A → Bytes) → A → Type 0
Finds get im a =
    (more : Bytes) (bo : ℕ) → get (reader (im bo a ++ more) bo) ≡ ok (a, reader more bo)

pop_uint8-Finds : (v : ℕ) → v < 2 ^ 8 → Finds pop_uint8 (λ bo. le_bytes 1) v
unfolding pop_uint8
pop_uint8-Finds v h more bo = read_byte-le_bytes v more bo h

pop_uint16-Finds : (v : ℕ) → v < 2 ^ 16 → Finds pop_uint16 (λ bo u. ordered_bytes 2 u bo) v
unfolding pop_uint16
pop_uint16-Finds v h more bo = read_uint16-ordered_bytes v more bo h

pop_uint32-Finds : (v : ℕ) → v < 2 ^ 32 → Finds pop_uint32 (λ bo u. ordered_bytes 4 u bo) v
unfolding pop_uint32
pop_uint32-Finds v h more bo = read_uint32-ordered_bytes v more bo h

pop_uint64-Finds : (v : ℕ) → v < 2 ^ 64 → Finds pop_uint64 (λ bo u. ordered_bytes 8 u bo) v
unfolding pop_uint64
pop_uint64-Finds v h more bo = read_uint64-ordered_bytes v more bo h

pop_bool-Finds : (b : Bool) → Finds pop_bool (λ bo s. le_bytes 1 (if s then 1 else 0)) b
unfolding pop_bool
pop_bool-Finds true more bo = rw (pop_uint8-Finds 1 (omega arith) more bo)
pop_bool-Finds false more bo = rw (pop_uint8-Finds 0 (omega arith) more bo)

pop_fetch_ptr-append :
    (str more : Bytes) (bo : ℕ)
    → pop_fetch_ptr (reader (str ++ more) bo) (length str) ≡ ok (str, reader more bo)
unfolding pop_fetch_ptr skip
pop_fetch_ptr-append str more bo =
    ground (arith, length-append str more, take-length_append str more, drop-length_append str more)

-- A Varstr keeps a size of 16 bits: packet.h describes its member as a uint16_t.
abbrev pub KeepsSizes : (ℕ → ℕ) → Type 0
KeepsSizes stored = (n : ℕ) → n < 2 ^ 16 → stored n ≡ n

pop_varstr-Finds :
    (stored : ℕ → ℕ) (str : Bytes)
    → KeepsSizes stored
    → length str < 2 ^ 16
    → Finds (pop_varstr stored) (λ bo x. ordered_bytes 2 (length x) bo ++ x) str
unfolding pop_varstr
pop_varstr-Finds stored str keeps h more bo =
    rw (append_assoc, pop_uint16-Finds (length str) h (str ++ more) bo, keeps (length str) h)
      (pop_fetch_ptr-append str more bo)

pop_varstr32-Finds :
    (stored : ℕ → ℕ) (str : Bytes)
    → KeepsSizes stored
    → length str < 2 ^ 16
    → Finds (pop_varstr32 stored) (λ bo x. ordered_bytes 4 (length x) bo ++ x) str
unfolding pop_varstr32
pop_varstr32-Finds stored str keeps h more bo =
    rw
      (
        append_assoc,
        pop_uint32-Finds (length str) (omega arith) (str ++ more) bo,
        keeps (length str) h,
      )
      (pop_fetch_ptr-append str more bo)

module _ {A : Type 0} (get : Deserializer → Result (A × Deserializer)) (im : ℕ → A → Bytes) where
  pop_all-Finds :
      (xs : List A) (more : Bytes) (bo : ℕ)
      → All (Finds get im) xs
      → pop_all get (length xs) (reader (joined (im bo) xs ++ more) bo) ≡ ok (xs, reader more bo)
  unfolding pop_all
  pop_all-Finds [] more bo h = refl
  pop_all-Finds (x ∷ xs) more bo (h, hs) = rw (
    append_assoc (im bo x) (joined (im bo) xs) more,
    h (joined (im bo) xs ++ more) bo,
    pop_all-Finds xs more bo hs,
  )

  unmarshal_container-Finds :
      (xs : List A)
      → length xs < 2 ^ 32
      → All (Finds get im) xs
      → Finds
          (unmarshal_container get)
          (λ bo c. ordered_bytes 4 (length c) bo ++ joined (im bo) c)
          xs
  unfolding unmarshal_container
  unmarshal_container-Finds xs small h more bo =
      rw (append_assoc, pop_uint32-Finds (length xs) small (joined (im bo) xs ++ more) bo)
        (pop_all-Finds xs more bo h)

-- A value that fits its shape is popped from its image.
pub pop_value-Finds :
    (stored : ℕ → ℕ) (s : Shape) (v : Value s)
    → KeepsSizes stored
    → FitsShape s v
    → Finds (pop_value stored s) (image s) v
unfolding pop_value pop_pair
pop_value-Finds stored bool v keeps h = pop_bool-Finds v
pop_value-Finds stored uint8 v keeps h = pop_uint8-Finds v h
pop_value-Finds stored uint16 v keeps h = pop_uint16-Finds v h
pop_value-Finds stored uint32 v keeps h = pop_uint32-Finds v h
pop_value-Finds stored uint64 v keeps h = pop_uint64-Finds v h
pop_value-Finds stored varstr v keeps h = pop_varstr-Finds stored v keeps h
pop_value-Finds stored varstr32 v keeps h = pop_varstr32-Finds stored v keeps h
pop_value-Finds stored (pair s t) (a, b) keeps (h, k) = λ more bo. rw (
  append_assoc (image s bo a) (image t bo b) more,
  pop_value-Finds stored s a keeps h (image t bo b ++ more) bo,
  pop_value-Finds stored t b keeps k more bo,
)
pop_value-Finds stored (container s) c keeps (small, h) =
    unmarshal_container-Finds (pop_value stored s) (image s) c small
      (All-map (FitsShape s) _ c (λ x fits. pop_value-Finds stored s x keeps fits) h)

pub pop_value-image :
    (stored : ℕ → ℕ) (s : Shape) (v : Value s)
    → KeepsSizes stored
    → FitsShape s v
    → pop_value stored s (reader (image s little_endian v) little_endian)
      ≡ ok (v, reader [] little_endian)
pop_value-image stored s v keeps h =
    subst (λ xs. pop_value stored s (reader xs little_endian) ≡ ok (v, reader [] little_endian))
      (append-nil (image s little_endian v)) (pop_value-Finds stored s v keeps h [] little_endian)

-- Where a Varstr keeps a size of 16 bits: PacketToString writes a value as its image, and
-- StringToPacket reads the value back from it, if its strings have less than 2^16 bytes, its
-- containers less than 2^32 elements, and its image fits the 64 MB of a buffer. This holds for every
-- nesting of pairs and containers.
pub string_to_packet-packet_to_string :
    (fresh mem stored : ℕ → ℕ) (s : Shape) (v : Value s)
    → KeepsSizes stored
    → FitsShape s v
    → length (image s little_endian v) ≤ 64 * 1024 * 1024
    → (packet_to_string fresh mem s v ≡ ok (image s little_endian v))
      × (string_to_packet stored s (image s little_endian v) ≡ ok (some v))
unfolding packet_to_string string_to_packet caught serializer Buffer.init
string_to_packet-packet_to_string fresh mem stored s v keeps h room =
    let b = Buffer.init mem true in
    let (o, empty) = serializer-IsOpen b little_endian (init-IsValid mem true).0 in
    let (t, e, w) = push_value-Appends fresh s v h (serializer b little_endian) o (omega arith) in
    (
      rw e (
          (data_bytes-written t w.still_open).0
          ∙ ap ok (w.bytes ∙ ap (λ x. x ++ image s little_endian v) empty)),
      rw (pop_value-image stored s v keeps h) refl,
    )
