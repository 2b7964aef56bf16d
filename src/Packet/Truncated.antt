-- ===== src/Packet/Truncated.antt =====
-- A packet that is cut short is not taken for a packet: what a reader finds in some bytes, it finds in
-- every extension of them.
use lin_socket_io.Base.{
  unknown_type, bad_version, out_of_fuel, buffer_overflow, position_out_of_range,
  offset_out_of_range, io_error, pack_error, unpack_error, true, false, Error, not_enough_data,
  ◌==◌, ◌>>=◌, ℕ, ◌≤◌, ◌≡◌, ◌≢◌, refl, sym, ap, ◌∙◌, subst, [], ◌∷◌, ◌++◌, arith, Bytes, length,
  length-append, take, drop-append, Result, ok, err, some, ok-injective, >>=-eq-ok, ltb,
  if◌then◌else◌, zero, suc,
}
use lin_socket_io.Buffer.Memory.{from_le}
use lin_socket_io.Packet.{
  Shape, bool, uint8, uint16, uint32, uint64, varstr, varstr32, pair, container, Value, pop_uint8,
  pop_uint16, pop_uint32, pop_uint64, pop_fetch_ptr, pop_varstr, pop_varstr32, pop_bool, pop_all,
  unmarshal_container, pop_pair, pop_value, string_to_packet, caught,
}
use lin_socket_io.Packet.Images.{FitsShape, image}
use lin_socket_io.Packet.RoundTrip.{pop_value-image, KeepsSizes}
use lin_socket_io.Serial.Reader.{
  Deserializer, skip, read_byte, read_uint16, read_uint32, read_uint64, advanced, size,
}
use lin_socket_io.Serial.Reader.Reads.{reader}
use lin_socket_io.Wire.{little_endian, hton16, hton32, hton64}

-- the reader with more bytes behind its own
abbrev pub extended : Deserializer → Bytes → Deserializer
extended d ys = record d { rest = d.rest ++ ys }

-- What `get` returns it returns with more bytes behind as well, and it leaves those.
abbrev pub Extends : {A : Type 0} → (Deserializer → Result (A × Deserializer)) → Type 0
Extends {A} get =
    (d : Deserializer) (a : A) (e : Deserializer) (ys : Bytes)
    → get d ≡ ok (a, e)
    → get (extended d ys) ≡ ok (a, extended e ys)

take-append : (n : ℕ) (xs ys : Bytes) → n ≤ length xs → take n (xs ++ ys) ≡ take n xs
take-append zero xs ys h = refl
take-append (suc n) [] ys h = absurd (omega arith)
take-append (suc n) (x ∷ xs) ys h = ap (◌∷◌ x) (take-append n xs ys (omega arith))

-- the shape of a reading function: `k` bytes, from which `f` makes the value, or an exception
abbrev pub taken : {A : Type 0} → ℕ → Error → (Bytes → A) → Deserializer → Result (A × Deserializer)
taken k x f d = if ltb (size d) k then err x else ok (f (take k d.rest), advanced d k)

taken-Extends : {A : Type 0} (k : ℕ) (x : Error) (f : Bytes → A) → Extends (taken k x f)
taken-Extends k x f d a e ys h =
    ground (arith, length-append d.rest ys, take-append k d.rest ys, drop-append k d.rest ys)

pop_uint8-Extends : Extends pop_uint8
unfolding pop_uint8 read_byte
pop_uint8-Extends = taken-Extends 1 not_enough_data from_le

pop_uint16-Extends : Extends pop_uint16
unfolding pop_uint16 read_uint16
pop_uint16-Extends d = taken-Extends 2 not_enough_data (λ xs. hton16 (from_le xs) d.bo) d

pop_uint32-Extends : Extends pop_uint32
unfolding pop_uint32 read_uint32
pop_uint32-Extends d = taken-Extends 4 not_enough_data (λ xs. hton32 (from_le xs) d.bo) d

pop_uint64-Extends : Extends pop_uint64
unfolding pop_uint64 read_uint64
pop_uint64-Extends d = taken-Extends 8 not_enough_data (λ xs. hton64 (from_le xs) d.bo) d

-- one call after another
then-Extends :
    {A B : Type 0} (get : Deserializer → Result (A × Deserializer))
    (get' : A → Deserializer → Result (B × Deserializer))
    → Extends get
    → ((a : A) → Extends (get' a))
    → Extends (λ d. get d >>= λ r. get' r.0 r.1)
then-Extends get get' h k d b e ys eq =
    let ((a, d'), first, second) = >>=-eq-ok (get d) _ eq in
    rw (h d a d' ys first) (k a d' b e ys second)

-- a value made of what another call has found
ok-Extends : {A : Type 0} (a : A) → Extends (λ d. ok (a, d))
ok-Extends a d b e ys eq =
    let same : (a, d) ≡ (b, e) = ok-injective eq in ap (λ r. ok (r.0, extended r.1 ys)) same

pop_bool-Extends : Extends pop_bool
unfolding pop_bool
pop_bool-Extends =
    then-Extends pop_uint8 (λ u d. ok (if u == 0 then false else true, d)) pop_uint8-Extends
      (λ u. ok-Extends (if u == 0 then false else true))

pop_fetch_ptr-Extends : (k : ℕ) → Extends (λ d. pop_fetch_ptr d k)
unfolding pop_fetch_ptr skip
pop_fetch_ptr-Extends k d a e ys h =
    ground (arith, length-append d.rest ys, take-append k d.rest ys, drop-append k d.rest ys)

pop_varstr-Extends : (stored : ℕ → ℕ) → Extends (pop_varstr stored)
unfolding pop_varstr
pop_varstr-Extends stored =
    then-Extends pop_uint16 (λ size d. pop_fetch_ptr d (stored size)) pop_uint16-Extends
      (λ size. pop_fetch_ptr-Extends (stored size))

pop_varstr32-Extends : (stored : ℕ → ℕ) → Extends (pop_varstr32 stored)
unfolding pop_varstr32
pop_varstr32-Extends stored =
    then-Extends pop_uint32 (λ size d. pop_fetch_ptr d (stored size)) pop_uint32-Extends
      (λ size. pop_fetch_ptr-Extends (stored size))

pop_all-Extends :
    {A : Type 0} (get : Deserializer → Result (A × Deserializer)) (n : ℕ)
    → Extends get
    → Extends (pop_all get n)
unfolding pop_all
pop_all-Extends get zero h = ok-Extends []
pop_all-Extends get (suc n) h =
    then-Extends get (λ x d. pop_all get n d >>= λ r. ok (x ∷ r.0, r.1)) h
      (λ x.
        then-Extends (pop_all get n) (λ xs d. ok (x ∷ xs, d)) (pop_all-Extends get n h)
          (λ xs. ok-Extends (x ∷ xs)))

pop_value-Extends : (stored : ℕ → ℕ) (s : Shape) → Extends (pop_value stored s)
unfolding pop_value pop_pair unmarshal_container
pop_value-Extends stored bool = pop_bool-Extends
pop_value-Extends stored uint8 = pop_uint8-Extends
pop_value-Extends stored uint16 = pop_uint16-Extends
pop_value-Extends stored uint32 = pop_uint32-Extends
pop_value-Extends stored uint64 = pop_uint64-Extends
pop_value-Extends stored varstr = pop_varstr-Extends stored
pop_value-Extends stored varstr32 = pop_varstr32-Extends stored
pop_value-Extends stored (pair s t) =
    then-Extends (pop_value stored s) (λ a d. pop_value stored t d >>= λ r. ok ((a, r.0), r.1))
      (pop_value-Extends stored s)
      (λ a.
        then-Extends (pop_value stored t) (λ b d. ok ((a, b), d)) (pop_value-Extends stored t)
          (λ b. ok-Extends (a, b)))
pop_value-Extends stored (container s) =
    then-Extends pop_uint32 (λ count d. pop_all (pop_value stored s) count d) pop_uint32-Extends
      (λ count. pop_all-Extends (pop_value stored s) count (pop_value-Extends stored s))

caught-eq-some :
    {A : Type 0} (r : Result (A × Deserializer)) (a : A)
    → caught r ≡ ok (some a)
    → (d : Deserializer) × (r ≡ ok (a, d))
unfolding caught
caught-eq-some (ok (b, d)) a e = (d, cc)
caught-eq-some (err not_enough_data) a e = cc
caught-eq-some (err buffer_overflow) a e = cc
caught-eq-some (err position_out_of_range) a e = cc
caught-eq-some (err offset_out_of_range) a e = cc
caught-eq-some (err io_error) a e = cc
caught-eq-some (err pack_error) a e = cc
caught-eq-some (err unpack_error) a e = cc
caught-eq-some (err unknown_type) a e = cc
caught-eq-some (err bad_version) a e = cc
caught-eq-some (err out_of_fuel) a e = cc

-- Where a Varstr keeps a size of 16 bits: of the image of a value whose strings have less than 2^16
-- bytes and whose containers less than 2^32 elements, StringToPacket does not take a part that lacks
-- bytes at the end for a packet. It never returns true for one, whatever the value read.
pub string_to_packet_truncated :
    (stored : ℕ → ℕ) (s : Shape) (v found : Value s) (xs : Bytes) (y : ℕ) (ys : Bytes)
    → KeepsSizes stored
    → FitsShape s v
    → xs ++ y ∷ ys ≡ image s little_endian v
    → string_to_packet stored s xs ≢ ok (some found)
unfolding string_to_packet caught
string_to_packet_truncated stored s v found xs y ys keeps h cut e =
    let (d, got) = caught-eq-some (pop_value stored s (reader xs little_endian)) found e in
    let whole : pop_value stored s (reader (xs ++ y ∷ ys) little_endian)
        ≡ ok (v, reader [] little_endian) =
      subst (λ bs. pop_value stored s (reader bs little_endian) ≡ ok (v, reader [] little_endian))
        (sym cut) (pop_value-image stored s v keeps h) in
    let same =
      ok-injective
        (sym (pop_value-Extends stored s (reader xs little_endian) found d (y ∷ ys) got) ∙ whole) in
    let left : length (d.rest ++ y ∷ ys) ≡ 0 = ap (λ r. length (r.1).rest) same in
    absurd (omega (arith, length-append d.rest (y ∷ ys)))
