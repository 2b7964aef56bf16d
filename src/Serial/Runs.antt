-- ===== src/Serial/Runs.antt =====
-- Runs of the serializer and its reader over a new buffer.
use lin_socket_io.Base.{ℕ, ◌≡◌, true, List, [], ◌∷◌, ◌++◌, map, arith, Bytes, codes, ok, ◌>>=◌}
use lin_socket_io.Wire.{big_endian}
use lin_socket_io.Buffer.{ByteBuffer}
use lin_socket_io.Buffer.Invariant.{IsValid}
use lin_socket_io.Serial.Writer.{Serializer, serializer, data_bytes}
use lin_socket_io.Serial.Writer.Append.{IsOpen, written, serializer-IsOpen}
use lin_socket_io.Serial.Writer.Room.{HasRoom}
use lin_socket_io.Serial.Reader.{
  Deserializer, skip, read_byte, read_uint16, read_uint32, read_uint64, peek_uint8_at,
  peek_uint16_at, peek_uint32_at, peek_uint64_at,
}
use lin_socket_io.Serial.Reader.Reads.{reader, found, peek-skip}
use lin_socket_io.Serial.Fields.RoundTrip.{unmarshal-marshal}
use lin_socket_io.Serial.Fields.{
  Field, a_bool, a_uint32, a_string16, kind, widths, marshal, unmarshal,
}

abbrev zeros : ℕ → ℕ
zeros i = 0

abbrev buffer : ByteBuffer
buffer = record {
  mem = zeros;
  head = 0;
  tail = 0;
  cap = 1024;
  limit = 65536;
  grow2x = true;
  high_water_mark = 0;
  on_stack = true;
}

buffer-IsValid : IsValid buffer
buffer-IsValid = ground arith

abbrev writer : Serializer
writer = serializer buffer big_endian

writer-IsOpen : IsOpen writer × (written writer ≡ [])
writer-IsOpen = serializer-IsOpen buffer big_endian buffer-IsValid

abbrev fields : List Field
fields = a_uint32 258 ∷ a_bool true ∷ a_string16 (codes "lin") ∷ []

writer-HasRoom : HasRoom writer (widths fields)
unfolding serializer
writer-HasRoom = omega arith

unmarshal-marshal_example :
    (t : Serializer) × (xs : Bytes) × (marshal zeros writer fields ≡ ok t)
    × (data_bytes t ≡ ok xs)
    × (unmarshal (map kind fields) (reader (xs ++ 7 ∷ []) writer.bo)
        ≡ ok (fields, reader (7 ∷ []) writer.bo))
unmarshal-marshal_example =
    unmarshal-marshal zeros fields writer (7 ∷ []) writer-IsOpen.0 writer-IsOpen.1 (ground arith)
      writer-HasRoom

abbrev view : Deserializer
view = reader (1 ∷ 2 ∷ 3 ∷ 4 ∷ 5 ∷ []) big_endian

peek-skip_example :
    (peek_uint8_at view 2 ≡ found (skip view 2 >>= read_byte))
    × (peek_uint16_at view 2 ≡ found (skip view 2 >>= read_uint16))
    × (peek_uint32_at view 2 ≡ found (skip view 2 >>= read_uint32))
    × (peek_uint64_at view 2 ≡ found (skip view 2 >>= read_uint64))
peek-skip_example = peek-skip view 2 (omega arith) (omega arith)
