-- ===== src/Serial/Reader.antt =====
-- class Deserializer of utils/serializer.h: a view of bytes that reading shortens. Signed results are
-- the unsigned number with their bits. After an exception the view is not looked at again.
pub mod Reads
use lin_socket_io.Base.{
  ◌>>=◌, ℕ, ◌+◌, ◌-◌, ◌%◌, ◌^◌, Bool, ◌||◌, not, Option, none, some, ltb, leb, ◌==◌, if◌then◌else◌,
  Bytes, length, take, drop, not_enough_data, Result, ok, err,
}
use lin_socket_io.Wire.{hton16, hton32, hton64}
use lin_socket_io.Buffer.Memory.{from_le}

pub record Deserializer : Type 0 where
  -- the `size_` bytes at `data_`
  pub rest : Bytes
  pub bo : ℕ

abbrev pub size : Deserializer → ℕ
size d = length d.rest

abbrev pub advanced : Deserializer → ℕ → Deserializer
advanced d k = record d { rest = drop k d.rest }

unfoldable pub skip : Deserializer → ℕ → Result Deserializer
skip d k = if ltb (size d) k then err not_enough_data else ok (advanced d k)

-- read(k), with the k bytes behind the returned pointer; read_raw copies them.
unfoldable pub read : Deserializer → ℕ → Result (Bytes × Deserializer)
read d k = if ltb (size d) k then err not_enough_data else ok (take k d.rest, advanced d k)

unfoldable pub read_byte : Deserializer → Result (ℕ × Deserializer)
read_byte d =
    if ltb (size d) 1 then err not_enough_data else ok (from_le (take 1 d.rest), advanced d 1)

pub read_bool : Deserializer → Result (Bool × Deserializer)
read_bool d = do (u, d') ← read_byte d; ok (not (u == 0), d')

unfoldable pub read_uint16 : Deserializer → Result (ℕ × Deserializer)
read_uint16 d =
    if ltb (size d) 2
    then err not_enough_data
    else ok (hton16 (from_le (take 2 d.rest)) d.bo, advanced d 2)

unfoldable pub read_uint32 : Deserializer → Result (ℕ × Deserializer)
read_uint32 d =
    if ltb (size d) 4
    then err not_enough_data
    else ok (hton32 (from_le (take 4 d.rest)) d.bo, advanced d 4)

unfoldable pub read_uint64 : Deserializer → Result (ℕ × Deserializer)
read_uint64 d =
    if ltb (size d) 8
    then err not_enough_data
    else ok (hton64 (from_le (take 8 d.rest)) d.bo, advanced d 8)

pub read_int16 : Deserializer → Result (ℕ × Deserializer)
read_int16 d =
    if ltb (size d) 2
    then err not_enough_data
    else ok (hton16 (from_le (take 2 d.rest)) d.bo, advanced d 2)

pub read_int32 : Deserializer → Result (ℕ × Deserializer)
read_int32 d =
    if ltb (size d) 4
    then err not_enough_data
    else ok (hton32 (from_le (take 4 d.rest)) d.bo, advanced d 4)

pub read_int64 : Deserializer → Result (ℕ × Deserializer)
read_int64 d =
    if ltb (size d) 8
    then err not_enough_data
    else ok (hton64 (from_le (take 8 d.rest)) d.bo, advanced d 8)

-- both read_bytes32
pub read_bytes32 : Deserializer → Result (Bytes × Deserializer)
read_bytes32 d = do (len, d') ← read_uint32 d; read d' len

pub read_string16 : Deserializer → Result (Bytes × Deserializer)
read_string16 d = do (len, d') ← read_uint16 d; read d' len

pub read_string32 : Deserializer → Result (Bytes × Deserializer)
read_string32 d = do (len, d') ← read_uint32 d; read d' len

-- `int(size_ - pos) < n`: the difference of two size_t, cut to a signed 32-bit number
pub short_of : Deserializer → ℕ → ℕ → Bool
short_of d pos n =
    let left = (size d + 2 ^ 64 - pos) % 2 ^ 64 % 2 ^ 32 in leb (2 ^ 31) left || ltb left n

-- A peek that returns false is `none`.
pub peek_uint8 : Deserializer → Option ℕ
peek_uint8 d = if ltb (size d) 1 then none else some (from_le (take 1 d.rest))

pub peek_uint16 : Deserializer → Option ℕ
peek_uint16 d = if ltb (size d) 2 then none else some (hton16 (from_le (take 2 d.rest)) d.bo)

pub peek_uint32 : Deserializer → Option ℕ
peek_uint32 d = if ltb (size d) 4 then none else some (hton32 (from_le (take 4 d.rest)) d.bo)

pub peek_uint64 : Deserializer → Option ℕ
peek_uint64 d = if ltb (size d) 8 then none else some (hton64 (from_le (take 8 d.rest)) d.bo)

pub peek_uint8_at : Deserializer → ℕ → Option ℕ
peek_uint8_at d pos = if short_of d pos 1 then none else some (from_le (take 1 (drop pos d.rest)))

pub peek_uint16_at : Deserializer → ℕ → Option ℕ
peek_uint16_at d pos =
    if short_of d pos 2 then none else some (hton16 (from_le (take 2 (drop pos d.rest))) d.bo)

pub peek_uint32_at : Deserializer → ℕ → Option ℕ
peek_uint32_at d pos =
    if short_of d pos 4 then none else some (hton32 (from_le (take 4 (drop pos d.rest))) d.bo)

pub peek_uint64_at : Deserializer → ℕ → Option ℕ
peek_uint64_at d pos =
    if short_of d pos 8 then none else some (hton64 (from_le (take 8 (drop pos d.rest))) d.bo)
