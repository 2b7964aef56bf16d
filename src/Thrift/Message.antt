-- ===== src/Thrift/Message.antt =====
-- Whole messages of the namespace thrift of utils/serializer.h. On false the out parameters are not
-- looked at.
pub mod Putting
pub mod Delivery
use lin_socket_io.Base.{
  ℕ, ◌+◌, ◌-◌, ◌%◌, ◌^◌, Bool, true, false, Option, none, some, Bytes, ltb, leb, ◌==◌,
  if◌then◌else◌, bit_and, bit_or, length, Result, ok, err, ◌>>=◌,
}
use lin_socket_io.Buffer
use lin_socket_io.Wire.{big_endian}
use lin_socket_io.Serial.Reader.{Deserializer, size, read, read_byte, read_uint16, read_uint32}
use lin_socket_io.Serial.Writer.{
  Serializer, serializer, data_bytes, write_byte, write_uint16, write_uint32, write_string32,
}
use lin_socket_io.Thrift.{t_stop, t_i32, t_string, t_struct, skip}
use lin_socket_io.Thrift.Protocol.{version_1}

-- MsgType
pub data MsgType : Type 0 where
  call replay exception oneway : MsgType

abbrev pub msg_code : MsgType → ℕ
msg_code call = 1
msg_code replay = 2
msg_code exception = 3
msg_code oneway = 4

pub record Message : Type 0 where
  pub fname : Bytes
  pub mtype : ℕ
  pub sn : ℕ
  pub header_length : ℕ
  pub body_length : ℕ

-- what read_message_begin returns; false is `none`
abbrev pub Found : Type 0
Found = Result (Option Message)

-- `if (upk.size() < n) return false;`
abbrev pub needs : ℕ → Deserializer → Found → Found
needs n d next = if ltb (size d) n then ok none else next

-- `if (pos < 0) return false; bodyLength = (uint32_t)pos;`
pub body_found : Message → ℕ × Deserializer → Found
body_found m r = if leb (2 ^ 31) r.0 then ok none else ok (some (record m { body_length = r.0 }))

-- read_message_begin behind the header; `d` is the reader of the whole message
pub read_body : Deserializer → Bytes → ℕ → ℕ → Deserializer → Found
read_body d fname mtype sn e =
    let m : Message = record {
      fname = fname;
      mtype = mtype;
      sn = sn;
      header_length = (size d - size e) % 2 ^ 32;
      body_length = 0;
    } in
    skip e t_struct >>= body_found m

-- the header with a version
pub read_strict : Deserializer → ℕ → Deserializer → Found
read_strict d sz e = needs 4 e (
    read_uint32 e >>= λ len. needs len.0 len.1 (
      read len.1 len.0 >>= λ fname.
      needs 4 fname.1
        (read_uint32 fname.1 >>= λ sn. read_body d fname.0 (bit_and sz 0xff) sn.0 sn.1)))

-- the header without a version; `sz` is read again
pub read_old : Deserializer → Deserializer → Found
read_old d e = needs 4 e (
    read_uint32 e >>= λ len. read len.1 len.0 >>= λ fname. needs (1 + 4) fname.1 (
      read_byte fname.1 >>= λ mtype.
      read_uint32 mtype.1 >>= λ sn. read_body d fname.0 mtype.0 sn.0 sn.1))

-- read_message_begin(data, size, ...)
pub read_message_begin : Bytes → Found
read_message_begin dat =
    let d : Deserializer = record { rest = dat; bo = big_endian } in
    needs 4 d (
      read_uint32 d >>= λ sz.
      if bit_and sz.0 0x80000000 == 0 then read_old d sz.1 else read_strict d sz.0 sz.1)

-- read_field_begin: whether the struct ends, the type and the id
pub read_field_begin : Deserializer → Result ((Bool × ℕ × ℕ) × Deserializer)
read_field_begin d = do
  (ftype, e) ← read_byte d
  if ftype == t_stop
      then ok ((true, ftype, 0), e)
      else read_uint16 e >>= λ id. ok ((false, ftype, id.0), id.1)

module _ (fresh : ℕ → ℕ) where
  -- the first three calls of both build functions
  pub write_header : ℕ → Bytes → ℕ → Serializer → Result Serializer
  write_header version fname sn pk = do
    a ← write_uint32 fresh pk version
    b ← write_string32 fresh a fname
    write_uint32 fresh b sn

  -- the fields of an exception
  pub write_exception : Bytes → ℕ → Serializer → Result Serializer
  write_exception reason code pk = do
    a ← write_byte fresh pk t_string
    b ← write_uint16 fresh a 1
    c ← write_string32 fresh b reason
    d ← write_byte fresh c t_i32
    e ← write_uint16 fresh d 2
    f ← write_uint32 fresh e code
    write_byte fresh f t_stop

-- `Serializer pk(0, BIG_ENDIAN)`; `stack` is the memory that its buffer finds.
abbrev pub new_pack : (ℕ → ℕ) → Serializer
new_pack stack = serializer (Buffer.init stack true) big_endian

module _ (fresh : ℕ → ℕ) (stack : ℕ → ℕ) where
  -- build_message; `marshal` is the object's
  pub build_message : Bytes → MsgType → ℕ → (Serializer → Result Serializer) → Result Bytes
  build_message fname mtype sn marshal = do
    a ←
        write_header fresh (bit_or version_1 (bit_and (msg_code mtype) 0xff)) fname sn
          (new_pack stack)
    b ← marshal a
    data_bytes b

  -- build_exception_message
  pub build_exception_message : Bytes → ℕ → Bytes → ℕ → Result Bytes
  build_exception_message fname sn reason code = do
    a ← write_header fresh (bit_or version_1 (msg_code exception)) fname sn (new_pack stack)
    b ← write_exception fresh reason code a
    data_bytes b
