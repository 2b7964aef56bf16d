-- ===== src/Thrift/Message/Delivery.antt =====
-- A message that was built is found.
use lin_socket_io.Base.{
  ℕ, ◌+◌, ◌-◌, ◌*◌, ◌%◌, ◌^◌, ◌<◌, ◌≤◌, ◌≡◌, refl, ap, ◌∙◌, ◌++◌, append_assoc, arith, true, false,
  some, ltb, leb, ◌==◌, bit_and, bit_or, Bytes, length, length-append, Result, ok, ◌>>=◌,
}
use lin_socket_io.Buffer
use lin_socket_io.Buffer.Invariant.{init-IsValid}
use lin_socket_io.Buffer.Memory.{le_bytes, length-le_bytes}
use lin_socket_io.Thrift.{t_stop, t_i32}
use lin_socket_io.Wire.{big_endian}
use lin_socket_io.Wire.Order.{ordered_bytes, length-ordered_bytes}
use lin_socket_io.Serial.Reader.{Deserializer, size}
use lin_socket_io.Serial.Reader.Reads.{read_append, read_uint32-ordered_bytes}
use lin_socket_io.Serial.Writer.{Serializer, serializer, data_bytes}
use lin_socket_io.Serial.Writer.Append.{data_bytes-written, serializer-IsOpen}
use lin_socket_io.Serial.Writer.Room.{HasRoom, HasRoom-Wrote}
use lin_socket_io.Thrift.Protocol.{version_1}
use lin_socket_io.Thrift.Values.{Fields, record_of, image, fields_image, delimited_image}
use lin_socket_io.Thrift.Parts.{length-byte, at, length-word}
use lin_socket_io.Thrift.Skipping.{skip-image}
use lin_socket_io.Thrift.Message.{
  MsgType, call, replay, exception, oneway, msg_code, Message, read_message_begin, read_strict,
  read_body, body_found, new_pack, write_header, build_message, write_exception,
  build_exception_message,
}
use lin_socket_io.Thrift.Message.Putting.{
  Puts, header_image, write_header-Puts, exception_fields, write_exception-Puts,
}

abbrev pub message : Bytes → ℕ → ℕ → Fields → Message
message fname mtype sn fs = record {
  fname = fname;
  mtype = mtype;
  sn = sn;
  header_length = 12 + length fname;
  body_length = length (fields_image fs);
}

-- the body, and what is counted
read_body-image :
    (d : Deserializer) (fname : Bytes) (mtype sn : ℕ) (fs : Fields) (more : Bytes)
    → length (fields_image fs) < 2 ^ 31
    → size d ≡ 12 + length fname + length (fields_image fs ++ more)
    → 12 + length fname < 2 ^ 32
    → read_body d fname mtype sn (at (fields_image fs ++ more))
      ≡ ok (some (message fname mtype sn fs))
unfolding read_body body_found image
read_body-image d fname mtype sn fs more h total small =
    let body : leb (2 ^ 31) (length (fields_image fs)) ≡ false = ground arith in
    let head : (size d - length (fields_image fs ++ more)) % 2 ^ 32 ≡ 12 + length fname =
      omega arith in
    rw (skip-image (record_of fs) more h) (rw (body, head) refl)

-- the bytes of a message, and what follows it
abbrev message_bytes : ℕ → Bytes → ℕ → Bytes → Bytes
message_bytes version fname sn rest =
    ordered_bytes 4 version big_endian
    ++ (ordered_bytes 4 (length fname) big_endian
        ++ (fname ++ (ordered_bytes 4 sn big_endian ++ rest)))

message_bytes-append :
    (version : ℕ) (fname : Bytes) (sn : ℕ) (body more : Bytes)
    → (header_image version fname sn ++ body) ++ more
      ≡ message_bytes version fname sn (body ++ more)
message_bytes-append version fname sn body more = simp append_assoc

module _ (version : ℕ) (fname : Bytes) (sn : ℕ) (fs : Fields) (more : Bytes)
    (version_fits : version < 2 ^ 32) (strict : (bit_and version 0x80000000 == 0) ≡ false)
    (name_fits : 12 + length fname < 2 ^ 32) (sn_fits : sn < 2 ^ 32)
    (body_fits : length (fields_image fs) < 2 ^ 31) where
  read_message_begin-bytes :
      read_message_begin (message_bytes version fname sn (fields_image fs ++ more))
      ≡ ok (some (message fname (bit_and version 0xff) sn fs))
  unfolding read_message_begin read_strict
  read_message_begin-bytes =
      let rest = fields_image fs ++ more in
      let num = ordered_bytes 4 sn big_endian ++ rest in
      let named = ordered_bytes 4 (length fname) big_endian ++ (fname ++ num) in
      let whole = message_bytes version fname sn rest in
      let size0 = length-word 4 version named in
      let size1 = length-word 4 (length fname) (fname ++ num) in
      let size2 = length-append fname num in
      let size3 = length-word 4 sn rest in
      let room0 : ltb (length whole) 4 ≡ false = ground arith in
      let room1 : ltb (length named) 4 ≡ false = ground arith in
      let room2 : ltb (length (fname ++ num)) (length fname) ≡ false = ground arith in
      let room3 : ltb (length num) 4 ≡ false = ground arith in
      rw room0 (
        rw (read_uint32-ordered_bytes version named big_endian version_fits) (
          rw (strict, room1)
            (rw (read_uint32-ordered_bytes (length fname) (fname ++ num) big_endian (omega arith)) (
              rw (room2, read_append fname num big_endian (length fname) refl)
                (rw (room3, read_uint32-ordered_bytes sn rest big_endian sn_fits)
                  (read_body-image (at whole) fname (bit_and version 0xff) sn fs more body_fits
                    (omega arith) name_fits))))))

-- A body is put behind a header into a new buffer.
module _ (fresh stack : ℕ → ℕ) (version : ℕ) (fname : Bytes) (sn : ℕ)
    (marshal : Serializer → Result Serializer) (fs : Fields) (puts : Puts marshal (fields_image fs))
    (name_fits : length fname < 2 ^ 32)
    (room : 12 + length fname + length (fields_image fs) ≤ 64 * 1024 * 1024) where
  built :
      (write_header fresh version fname sn (new_pack stack) >>= λ a. marshal a >>= data_bytes)
      ≡ ok (header_image version fname sn ++ fields_image fs)
  unfolding serializer Buffer.init
  built =
      let b = Buffer.init stack true in
      let (o, empty) = serializer-IsOpen b big_endian (init-IsValid stack true).0 in
      let head = header_image version fname sn in
      let size0 = length-word 4 version (delimited_image fname ++ ordered_bytes 4 sn big_endian) in
      let size1 = length-append (delimited_image fname) (ordered_bytes 4 sn big_endian) in
      let size2 = length-word 4 (length fname) fname in
      let size3 = length-ordered_bytes 4 sn big_endian in
      let (u, e, w) =
        write_header-Puts fresh version fname sn name_fits (new_pack stack) o refl (omega arith) in
      let left : HasRoom u (length (fields_image fs)) =
        HasRoom-Wrote (new_pack stack) u head _ o w (omega arith) in
      let (t, e', w') = puts u w.still_open w.same_bo left in
      rw e (
        rw e' (
          (data_bytes-written t w'.still_open).0
          ∙ ap ok
              (w'.bytes ∙ ap (λ x. x ++ fields_image fs) (w.bytes ∙ ap (λ x. x ++ head) empty))))

-- the version that a message is built with
abbrev version_of : MsgType → ℕ
version_of m = bit_or version_1 (bit_and (msg_code m) 0xff)

version_of_lem :
    (m : MsgType)
    → (version_of m < 2 ^ 32)
      × ((bit_and (version_of m) 0x80000000 == 0) ≡ false)
      × (bit_and (version_of m) 0xff ≡ msg_code m)
version_of_lem call = (omega arith, refl, refl)
version_of_lem replay = (omega arith, refl, refl)
version_of_lem exception = (omega arith, refl, refl)
version_of_lem oneway = (omega arith, refl, refl)

-- build_message returns for a message that fits the 64 MB of a buffer and whose object marshals as a
-- struct, and read_message_begin finds in what it returns, whatever follows: the name, the type, the
-- number, and how long the header and the body are.
pub read_message_begin-build_message :
    (fresh stack : ℕ → ℕ) (fname : Bytes) (mtype : MsgType) (sn : ℕ)
    (marshal : Serializer → Result Serializer) (fs : Fields) (more : Bytes)
    → Puts marshal (fields_image fs)
    → sn < 2 ^ 32
    → 12 + length fname + length (fields_image fs) ≤ 64 * 1024 * 1024
    → (raw : Bytes) × (build_message fresh stack fname mtype sn marshal ≡ ok raw)
      × (read_message_begin (raw ++ more) ≡ ok (some (message fname (msg_code mtype) sn fs)))
unfolding build_message
read_message_begin-build_message fresh stack fname mtype sn marshal fs more puts small room =
    let v = version_of mtype in
    let (fits, strict, type) = version_of_lem mtype in
    (
      header_image v fname sn ++ fields_image fs,
      built fresh stack v fname sn marshal fs puts (omega arith) room,
      ap read_message_begin (message_bytes-append v fname sn (fields_image fs) more)
          ∙ read_message_begin-bytes v fname sn fs more fits strict (omega arith) small
              (omega arith)
          ∙ ap (λ m. ok (some (message fname m sn fs))) type,
    )

exception-length :
    (reason : Bytes) (code : ℕ)
    → length (fields_image (exception_fields reason code)) ≡ 15 + length reason
unfolding image
exception-length reason code =
    let rest = ordered_bytes 4 code big_endian ++ le_bytes 1 t_stop in
    let second = le_bytes 1 t_i32 ++ (ordered_bytes 2 2 big_endian ++ rest) in
    omega (
      arith,
      length-byte 11 (ordered_bytes 2 1 big_endian ++ (delimited_image reason ++ second)),
      length-word 2 1 (delimited_image reason ++ second),
      length-append (delimited_image reason) second,
      length-word 4 (length reason) reason,
      length-byte t_i32 (ordered_bytes 2 2 big_endian ++ rest),
      length-word 2 2 rest,
      length-word 4 code (le_bytes 1 t_stop),
      length-le_bytes 1 t_stop,
    )

-- build_exception_message returns for a name and a reason that fit the buffer, and read_message_begin
-- finds in what it returns, whatever follows, an exception with that name and number, whose body is
-- the struct of the reason and the code.
pub read_message_begin-build_exception_message :
    (fresh stack : ℕ → ℕ) (fname : Bytes) (sn : ℕ) (reason : Bytes) (code : ℕ) (more : Bytes)
    → sn < 2 ^ 32
    → 27 + length fname + length reason ≤ 64 * 1024 * 1024
    → (raw : Bytes) × (build_exception_message fresh stack fname sn reason code ≡ ok raw)
      × (read_message_begin (raw ++ more)
          ≡ ok (some (message fname 3 sn (exception_fields reason code))))
unfolding build_exception_message
read_message_begin-build_exception_message fresh stack fname sn reason code more small room =
    let fs = exception_fields reason code in
    let (fits, strict, type) = version_of_lem exception in
    let puts = write_exception-Puts fresh reason code (omega arith) in
    let size : length (fields_image fs) ≡ 15 + length reason = exception-length reason code in
    (
      header_image (version_of exception) fname sn ++ fields_image fs,
      built fresh stack (version_of exception) fname sn (write_exception fresh reason code) fs puts
          (omega arith) (omega arith),
      ap read_message_begin
            (message_bytes-append (version_of exception) fname sn (fields_image fs) more)
          ∙ read_message_begin-bytes (version_of exception) fname sn fs more fits strict
              (omega arith) small (omega arith),
    )
