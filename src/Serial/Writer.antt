-- ===== src/Serial/Writer.antt =====
-- class Serializer of utils/serializer.h. A signed or floating argument is given as the unsigned
-- number with its bits, which is what the casts of the source make of it.
pub mod Append
pub mod Room
use lin_socket_io.Base.{
  ◌>>=◌, ℕ, ◌+◌, ◌-◌, ◌%◌, ◌^◌, Bool, [], ◌∷◌, ltb, ◌==◌, if◌then◌else◌, Bytes, length, drop,
  replicate, position_out_of_range, offset_out_of_range, Result, ok, err,
}
use lin_socket_io.Wire.{hton16, hton32, hton64}
use lin_socket_io.Buffer
use lin_socket_io.Buffer.{ByteBuffer, size_mod, npos}
use lin_socket_io.Buffer.Memory.{store, le_bytes}
use lin_socket_io.Buffer.Invariant.{contents}

pub record Serializer : Type 0 where
  -- what `buffer_` points at
  pub buffer : ByteBuffer
  pub offset : ℕ
  pub bo : ℕ

-- the constructor over a given buffer
unfoldable pub serializer : ByteBuffer → ℕ → Serializer
serializer b byte_order = record { buffer = b; offset = Buffer.size b; bo = byte_order }

pub size : Serializer → ℕ
size s = if ltb (Buffer.size s.buffer) s.offset then 0 else Buffer.size s.buffer - s.offset

-- The bytes that data() points at, of which there are size().
pub data_bytes : Serializer → Result Bytes
data_bytes s =
    if ltb (Buffer.size s.buffer) s.offset
    then err offset_out_of_range
    else ok (drop s.offset (contents s.buffer))

abbrev pub position : Serializer → ℕ
position = size

-- replace(pos, data, n): `(*buffer_)[pos]` counts from the head of the buffer.
pub replace : Serializer → ℕ → Bytes → Result (Serializer × ℕ)
replace s pos xs =
    let b = s.buffer in
    let b' = record b { mem = store b.mem (b.head + pos) xs } in
    if length xs == 0
    then ok (s, 0)
    else if ltb (size s) ((pos + length xs) % size_mod)
    then err position_out_of_range
    else ok (record s { buffer = b' }, (pos + length xs) % size_mod)

pub replace_uint8 : Serializer → ℕ → ℕ → Result (Serializer × ℕ)
replace_uint8 s pos u8 = replace s pos (le_bytes 1 u8)

pub replace_uint16 : Serializer → ℕ → ℕ → Result (Serializer × ℕ)
replace_uint16 s pos u16 = replace s pos (le_bytes 2 (hton16 u16 s.bo))

pub replace_uint32 : Serializer → ℕ → ℕ → Result (Serializer × ℕ)
replace_uint32 s pos u32 = replace s pos (le_bytes 4 (hton32 u32 s.bo))

pub replace_uint64 : Serializer → ℕ → ℕ → Result (Serializer × ℕ)
replace_uint64 s pos u64 = replace s pos (le_bytes 8 (hton64 u64 s.bo))

-- Clear()
pub clear : Serializer → Serializer
clear s = record s { buffer = (Buffer.erase s.buffer npos).0 }

-- `buffer_` is changed by a call that may throw.
abbrev pub update : Serializer → Result ByteBuffer → Result Serializer
update s r = do b ← r; ok (record s { buffer = b })

module _ (fresh : ℕ → ℕ) where
  -- write(const void*, size_t) and write(const std::string&)
  pub write : Serializer → Bytes → Result Serializer
  write s xs = update s (Buffer.write fresh s.buffer xs)

  pub write_bool : Serializer → Bool → Result Serializer
  write_bool s b = update s (Buffer.write_u8 fresh s.buffer (if b then 1 else 0))

  pub write_byte : Serializer → ℕ → Result Serializer
  write_byte s u = update s (Buffer.write_u8 fresh s.buffer u)

  pub write_uint16 : Serializer → ℕ → Result Serializer
  write_uint16 s u = update s (Buffer.write_u16 fresh s.buffer (hton16 u s.bo))

  pub write_uint32 : Serializer → ℕ → Result Serializer
  write_uint32 s u = update s (Buffer.write_u32 fresh s.buffer (hton32 u s.bo))

  pub write_uint64 : Serializer → ℕ → Result Serializer
  write_uint64 s u = update s (Buffer.write_u64 fresh s.buffer (hton64 u s.bo))

  pub write_int16 : Serializer → ℕ → Result Serializer
  write_int16 s i = update s (Buffer.write_u16 fresh s.buffer (hton16 i s.bo))

  pub write_int32 : Serializer → ℕ → Result Serializer
  write_int32 s i = update s (Buffer.write_u32 fresh s.buffer (hton32 i s.bo))

  pub write_int64 : Serializer → ℕ → Result Serializer
  write_int64 s i = update s (Buffer.write_u64 fresh s.buffer (hton64 i s.bo))

  -- The length is cut to the width of its field.
  pub write_bytes32 : Serializer → Bytes → Result Serializer
  write_bytes32 s xs = do s' ← write_uint32 s (length xs % 2 ^ 32); write s' xs

  pub write_string16 : Serializer → Bytes → Result Serializer
  write_string16 s str = do s' ← write_uint16 s (length str % 2 ^ 16); write s' str

  pub write_string32 : Serializer → Bytes → Result Serializer
  write_string32 s str = do s' ← write_uint32 s (length str % 2 ^ 32); write s' str

  -- Put(c): one byte at the place that forward(1) returns
  pub put : Serializer → ℕ → Result Serializer
  put s c = do
    (b, p) ← Buffer.forward fresh s.buffer 1
    ok (record s { buffer = record b { mem = store b.mem p (c ∷ []) } })

  -- Push(count); the second part is the offset of the returned pointer.
  pub push : Serializer → ℕ → Result (Serializer × ℕ)
  push s count = do (b, p) ← Buffer.forward fresh s.buffer count; ok (record s { buffer = b }, p)

  -- Pop(count)
  pub pop : Serializer → ℕ → Serializer
  pop s count = record s { buffer = (Buffer.back fresh s.buffer count).0 }

  -- Reserve(count)
  pub reserve : Serializer → ℕ → Result Serializer
  reserve s count = update s (Buffer.reserve fresh s.buffer count)

  -- ShrinkToFit(): a 0 is written behind the data and taken back.
  pub shrink_to_fit : Serializer → Result Serializer
  shrink_to_fit s = do
    (s', p) ← push s 1
    let b = s'.buffer
    ok (pop (record s' { buffer = record b { mem = store b.mem p (0 ∷ []) } }) 1)

  -- memset(count, c): the bytes are set from the tail on that Push has moved.
  pub memset : Serializer → ℕ → ℕ → Result Serializer
  memset s count c = do
    (s', p) ← push s count
    let b = s'.buffer
    ok (record s' { buffer = record b { mem = store b.mem b.tail (replicate count c) } })
