-- ===== src/Packet.antt =====
-- Pack, Unpack and the container helpers of utils/packet.h. Signed numbers are the unsigned number
-- with their bits; fields of type double are left out.
pub mod Images
pub mod Pushing
pub mod RoundTrip
pub mod Truncated
pub mod Composite
mod Runs
use lin_socket_io.Base.{
  unknown_type, bad_version, out_of_fuel, ◌>>=◌, ℕ, zero, suc, ◌%◌, ◌^◌, Bool, true, false, Option,
  none, some, List, [], ◌∷◌, ltb, ◌==◌, if◌then◌else◌, Bytes, length, take, not_enough_data,
  buffer_overflow, position_out_of_range, offset_out_of_range, io_error, pack_error, unpack_error,
  Result, ok, err,
}
use lin_socket_io.Buffer
use lin_socket_io.Buffer.Memory.{le_bytes}
use lin_socket_io.Serial.Reader
use lin_socket_io.Serial.Reader.{
  Deserializer, skip, read_byte, read_uint16, read_uint32, read_uint64,
}
use lin_socket_io.Serial.Writer.{
  Serializer, serializer, data_bytes, write, write_uint16, write_uint32, write_uint64,
}
use lin_socket_io.Wire.{little_endian}

module _ (fresh : ℕ → ℕ) where
  -- push(s, n)
  pub push : Serializer → Bytes → Result Serializer
  push p xs = write fresh p xs

  pub push_uint8 : Serializer → ℕ → Result Serializer
  push_uint8 p u8 = push p (le_bytes 1 u8)

  pub push_uint16 : Serializer → ℕ → Result Serializer
  push_uint16 p u16 = write_uint16 fresh p u16

  pub push_uint32 : Serializer → ℕ → Result Serializer
  push_uint32 p u32 = write_uint32 fresh p u32

  pub push_uint64 : Serializer → ℕ → Result Serializer
  push_uint64 p u64 = write_uint64 fresh p u64

  pub push_varstr : Serializer → Bytes → Result Serializer
  push_varstr p str =
      if ltb 65535 (length str)
      then err pack_error
      else push_uint16 p (length str % 2 ^ 16) >>= λ p'. push p' str

  pub push_varstr32 : Serializer → Bytes → Result Serializer
  push_varstr32 p str =
      if ltb 4294967295 (length str)
      then err pack_error
      else push_uint32 p (length str % 2 ^ 32) >>= λ p'. push p' str

pub pop_uint8 : Deserializer → Result (ℕ × Deserializer)
pop_uint8 d = read_byte d

pub pop_uint16 : Deserializer → Result (ℕ × Deserializer)
pop_uint16 d = read_uint16 d

pub pop_uint32 : Deserializer → Result (ℕ × Deserializer)
pop_uint32 d = read_uint32 d

pub pop_uint64 : Deserializer → Result (ℕ × Deserializer)
pop_uint64 d = read_uint64 d

-- pop_fetch_ptr(k), with the k bytes behind the returned pointer
pub pop_fetch_ptr : Deserializer → ℕ → Result (Bytes × Deserializer)
pop_fetch_ptr d k =
    if ltb (Reader.size d) k then err unpack_error else skip d k >>= λ d'. ok (take k d.rest, d')

-- `stored n` is what the member m_size of a Varstr keeps of a size n. The type is declared in a header
-- that is not in the repository.

-- pop_varstr_ptr and pop_varstr
pub pop_varstr : (ℕ → ℕ) → Deserializer → Result (Bytes × Deserializer)
pop_varstr stored d = do (size, d') ← pop_uint16 d; pop_fetch_ptr d' (stored size)

-- pop_varstr32_ptr and pop_varstr32
pub pop_varstr32 : (ℕ → ℕ) → Deserializer → Result (Bytes × Deserializer)
pop_varstr32 stored d = do (size, d') ← pop_uint32 d; pop_fetch_ptr d' (stored size)

pub finish : Deserializer → Result (Unit {0})
finish d = if Reader.size d == 0 then ok tt else err unpack_error

-- the stream operators of bool
pub push_bool : (ℕ → ℕ) → Serializer → Bool → Result Serializer
push_bool fresh p sign = push_uint8 fresh p (if sign then 1 else 0)

pub pop_bool : Deserializer → Result (Bool × Deserializer)
pop_bool d = do (u8, d') ← pop_uint8 d; ok (if u8 == 0 then false else true, d')

-- A container is the sequence that its iterators run over; a value is pushed by `put` and popped by
-- `get`, which stand for the operators of its type.
module _ {A : Type 0} (fresh : ℕ → ℕ) (put : Serializer → A → Result Serializer) where
  -- the loop of marshal_container
  pub push_all : Serializer → List A → Result Serializer
  push_all p [] = ok p
  push_all p (x ∷ xs) = put p x >>= λ p'. push_all p' xs

  pub marshal_container : Serializer → List A → Result Serializer
  marshal_container p c = push_uint32 fresh p (length c % 2 ^ 32) >>= λ p'. push_all p' c

module _ {A : Type 0} (get : Deserializer → Result (A × Deserializer)) where
  -- the loop of unmarshal_container, with what it gives its output iterator
  pub pop_all : ℕ → Deserializer → Result (List A × Deserializer)
  pop_all zero d = ok ([], d)
  pop_all (suc count) d = do (tmp, d') ← get d; (c, d'') ← pop_all count d'; ok (tmp ∷ c, d'')

  pub unmarshal_container : Deserializer → Result (List A × Deserializer)
  unmarshal_container d = do (count, d') ← pop_uint32 d; pop_all count d'

-- operator<< and operator>> of a pair
pub push_pair :
    {A B : Type 0}
    → (Serializer → A → Result Serializer)
    → (Serializer → B → Result Serializer)
    → Serializer
    → A × B
    → Result Serializer
push_pair put put' p (a, b) = put p a >>= λ p'. put' p' b

pub pop_pair :
    {A B : Type 0}
    → (Deserializer → Result (A × Deserializer))
    → (Deserializer → Result (B × Deserializer))
    → Deserializer
    → Result ((A × B) × Deserializer)
pop_pair get get' d = do (a, d') ← get d; (b, d'') ← get' d'; ok ((a, b), d'')

-- The types that the operators are defined for. A set, a vector, a list and a map of pairs are
-- written alike, and so are a list of maps and a map of maps.
pub data Shape : Type 0 where
  bool uint8 uint16 uint32 uint64 varstr varstr32 : Shape
  pair : Shape → Shape → Shape
  container : Shape → Shape

abbrev pub Value : Shape → Type 0
Value bool = Bool
Value uint8 = ℕ
Value uint16 = ℕ
Value uint32 = ℕ
Value uint64 = ℕ
Value varstr = Bytes
Value varstr32 = Bytes
Value (pair s t) = Value s × Value t
Value (container s) = List (Value s)

-- operator<<
pub push_value : (ℕ → ℕ) → (s : Shape) → Serializer → Value s → Result Serializer
push_value fresh bool = push_bool fresh
push_value fresh uint8 = push_uint8 fresh
push_value fresh uint16 = push_uint16 fresh
push_value fresh uint32 = push_uint32 fresh
push_value fresh uint64 = push_uint64 fresh
push_value fresh varstr = push_varstr fresh
push_value fresh varstr32 = push_varstr32 fresh
push_value fresh (pair s t) = push_pair (push_value fresh s) (push_value fresh t)
push_value fresh (container s) = marshal_container fresh (push_value fresh s)

-- operator>>
pub pop_value : (ℕ → ℕ) → (s : Shape) → Deserializer → Result (Value s × Deserializer)
pop_value stored bool = pop_bool
pop_value stored uint8 = pop_uint8
pop_value stored uint16 = pop_uint16
pop_value stored uint32 = pop_uint32
pop_value stored uint64 = pop_uint64
pop_value stored varstr = pop_varstr stored
pop_value stored varstr32 = pop_varstr32 stored
pop_value stored (pair s t) = pop_pair (pop_value stored s) (pop_value stored t)
pop_value stored (container s) = unmarshal_container (pop_value stored s)

-- PacketToString; `mem` is the memory that the new buffer finds.
pub packet_to_string : (ℕ → ℕ) → (ℕ → ℕ) → (s : Shape) → Value s → Result Bytes
packet_to_string fresh mem s obj_in =
    push_value fresh s (serializer (Buffer.init mem true) little_endian) obj_in >>= data_bytes

-- Only an UnpackError is caught; `none` is the result false.
pub caught : {A : Type 0} → Result (A × Deserializer) → Result (Option A)
caught (ok r) = ok (some r.0)
caught (err not_enough_data) = err not_enough_data
caught (err buffer_overflow) = err buffer_overflow
caught (err position_out_of_range) = err position_out_of_range
caught (err offset_out_of_range) = err offset_out_of_range
caught (err io_error) = err io_error
caught (err pack_error) = err pack_error
caught (err unpack_error) = ok none
caught (err unknown_type) = err unknown_type
caught (err bad_version) = err bad_version
caught (err out_of_fuel) = err out_of_fuel

-- StringToPacket
pub string_to_packet : (ℕ → ℕ) → (s : Shape) → Bytes → Result (Option (Value s))
string_to_packet stored s str_in =
    caught (pop_value stored s (record { rest = str_in; bo = little_endian }))
