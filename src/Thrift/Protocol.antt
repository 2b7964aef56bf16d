-- ===== src/Thrift/Protocol.antt =====
-- The functions read...Begin and write...Begin of the namespace thrift of utils/serializer.h. A type is
-- given by its 8 bits, and an id by its 16.
use lin_socket_io.Base.{
  ℕ, ◌-◌, ◌%◌, ◌^◌, Bytes, ◌==◌, if◌then◌else◌, bit_and, bit_or, Result, ok, err, ◌>>=◌,
  bad_version,
}
use lin_socket_io.Serial.Reader.{
  Deserializer, size, read_byte, read_int16, read_int32, read_uint32, read_string32,
}
use lin_socket_io.Serial.Writer.{
  Serializer, write_byte, write_int16, write_int32, write_uint32, write_string32,
}
use lin_socket_io.Thrift.{t_stop}

-- VERSION_MASK and VERSION_1
abbrev pub version_mask : ℕ
version_mask = 0xffff0000

abbrev pub version_1 : ℕ
version_1 = 0x80010000

-- `s - up.size()`, of a uint32_t
abbrev pub taken_from : Deserializer → Deserializer → ℕ
taken_from d e = (size d - size e) % 2 ^ 32

pub record FieldBegin : Type 0 where
  pub field_type : ℕ
  pub field_id : ℕ
  pub taken : ℕ

-- readFieldBegin
pub read_field_begin : Deserializer → Result (FieldBegin × Deserializer)
read_field_begin d = do
  (type, e) ← read_byte d
  if type == t_stop
      then ok (record { field_type = type; field_id = 0; taken = taken_from d e }, e)
      else read_int16 e >>= λ id.
          ok (record { field_type = type; field_id = id.0; taken = taken_from d id.1 }, id.1)

-- readMapBegin: the types of the keys and of the values, and the size
pub read_map_begin : Deserializer → Result ((ℕ × ℕ × ℕ) × Deserializer)
read_map_begin d = do
  (k, d') ← read_byte d
  (v, d'') ← read_byte d'
  (n, e) ← read_uint32 d''
  ok ((k, v, n), e)

-- readListBegin and readSetBegin
pub read_list_begin : Deserializer → Result ((ℕ × ℕ) × Deserializer)
read_list_begin d = do (t, d') ← read_byte d; (n, e) ← read_uint32 d'; ok ((t, n), e)

pub record MessageBegin : Type 0 where
  pub name : Bytes
  pub message_type : ℕ
  pub seqid : ℕ
  pub taken : ℕ

-- readMessageBegin behind the version
pub read_named : Deserializer → ℕ → Deserializer → Result (MessageBegin × Deserializer)
read_named d sz d' = do
  (name, d'') ← read_string32 d'
  (seqid, e) ← read_int32 d''
  ok (
    record {
      name = name;
      message_type = bit_and sz 0x000000ff;
      seqid = seqid;
      taken = taken_from d e;
    },
    e,
  )

-- readMessageBegin
pub read_message_begin : Deserializer → Result (MessageBegin × Deserializer)
read_message_begin d = do
  (sz, d') ← read_int32 d
  if bit_and sz version_mask == version_1 then read_named d sz d' else err bad_version

module _ (fresh : ℕ → ℕ) where
  -- writeMessageBegin
  pub write_message_begin : Serializer → Bytes → ℕ → ℕ → Result Serializer
  write_message_begin pk name message_type seqid = do
    a ← write_int32 fresh pk (bit_or version_1 message_type)
    b ← write_string32 fresh a name
    write_int32 fresh b seqid

  -- writeFieldBegin
  pub write_field_begin : Serializer → ℕ → ℕ → Result Serializer
  write_field_begin pk field_type field_id = do
    a ← write_byte fresh pk field_type
    write_int16 fresh a field_id

  -- writeMapBegin
  pub write_map_begin : Serializer → ℕ → ℕ → ℕ → Result Serializer
  write_map_begin pk key_type val_type size = do
    a ← write_byte fresh pk key_type
    b ← write_byte fresh a val_type
    write_uint32 fresh b size

  -- writeListBegin and writeSetBegin
  pub write_list_begin : Serializer → ℕ → ℕ → Result Serializer
  write_list_begin pk elem_type size = do
    a ← write_byte fresh pk elem_type
    write_uint32 fresh a size
