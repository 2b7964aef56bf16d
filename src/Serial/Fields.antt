-- ===== src/Serial/Fields.antt =====
-- A record of fields, as the marshal and unmarshal functions of a message write and read it: one call
-- for each field, in the same order.
pub mod RoundTrip
use lin_socket_io.Base.{
  ℕ, ◌+◌, ◌^◌, ◌<◌, Bool, List, [], ◌∷◌, ◌++◌, if◌then◌else◌, Bytes, length, Result, ok, ◌>>=◌,
}
use lin_socket_io.Buffer.Memory.{le_bytes}
use lin_socket_io.Serial.Reader.{
  Deserializer, read_bool, read_byte, read_uint16, read_uint32, read_uint64, read_string16,
  read_string32,
}
use lin_socket_io.Serial.Writer.{
  Serializer, write_bool, write_byte, write_uint16, write_uint32, write_uint64, write_string16,
  write_string32,
}
use lin_socket_io.Wire.Order.{ordered_bytes}

pub data Kind : Type 0 where
  bool byte uint16 uint32 uint64 string16 string32 : Kind

pub data Field : Type 0 where
  a_bool : Bool → Field
  a_byte : ℕ → Field
  a_uint16 : ℕ → Field
  a_uint32 : ℕ → Field
  a_uint64 : ℕ → Field
  a_string16 : Bytes → Field
  a_string32 : Bytes → Field

abbrev pub kind : Field → Kind
kind (a_bool b) = bool
kind (a_byte v) = byte
kind (a_uint16 v) = uint16
kind (a_uint32 v) = uint32
kind (a_uint64 v) = uint64
kind (a_string16 str) = string16
kind (a_string32 str) = string32

-- A number fits its width, and a string its length field.
abbrev pub FitsWidth : Field → Type 0
FitsWidth (a_bool b) = Unit
FitsWidth (a_byte v) = v < 2 ^ 8
FitsWidth (a_uint16 v) = v < 2 ^ 16
FitsWidth (a_uint32 v) = v < 2 ^ 32
FitsWidth (a_uint64 v) = v < 2 ^ 64
FitsWidth (a_string16 str) = length str < 2 ^ 16
FitsWidth (a_string32 str) = length str < 2 ^ 32

-- how many bytes a field takes
abbrev pub width : Field → ℕ
width (a_bool b) = 1
width (a_byte v) = 1
width (a_uint16 v) = 2
width (a_uint32 v) = 4
width (a_uint64 v) = 8
width (a_string16 str) = 2 + length str
width (a_string32 str) = 4 + length str

abbrev pub widths : List Field → ℕ
widths [] = 0
widths (f ∷ fs) = width f + widths fs

-- the bytes of a field on the wire
abbrev pub image : ℕ → Field → Bytes
image bo (a_bool b) = le_bytes 1 (if b then 1 else 0)
image bo (a_byte v) = le_bytes 1 v
image bo (a_uint16 v) = ordered_bytes 2 v bo
image bo (a_uint32 v) = ordered_bytes 4 v bo
image bo (a_uint64 v) = ordered_bytes 8 v bo
image bo (a_string16 str) = ordered_bytes 2 (length str) bo ++ str
image bo (a_string32 str) = ordered_bytes 4 (length str) bo ++ str

abbrev pub images : ℕ → List Field → Bytes
images bo [] = []
images bo (f ∷ fs) = image bo f ++ images bo fs

abbrev pub read_as {ℓ} :
    {A : Type ℓ} → (A → Field) → Result (A × Deserializer) → Result (Field × Deserializer)
read_as make r = r >>= λ p. ok (make p.0, p.1)

pub read_field : Kind → Deserializer → Result (Field × Deserializer)
read_field bool d = read_as a_bool (read_bool d)
read_field byte d = read_as a_byte (read_byte d)
read_field uint16 d = read_as a_uint16 (read_uint16 d)
read_field uint32 d = read_as a_uint32 (read_uint32 d)
read_field uint64 d = read_as a_uint64 (read_uint64 d)
read_field string16 d = read_as a_string16 (read_string16 d)
read_field string32 d = read_as a_string32 (read_string32 d)

pub unmarshal : List Kind → Deserializer → Result (List Field × Deserializer)
unmarshal [] d = ok ([], d)
unmarshal (k ∷ ks) d = do (f, d') ← read_field k d; (fs, d'') ← unmarshal ks d'; ok (f ∷ fs, d'')

module _ (fresh : ℕ → ℕ) where
  pub write_field : Serializer → Field → Result Serializer
  write_field s (a_bool b) = write_bool fresh s b
  write_field s (a_byte v) = write_byte fresh s v
  write_field s (a_uint16 v) = write_uint16 fresh s v
  write_field s (a_uint32 v) = write_uint32 fresh s v
  write_field s (a_uint64 v) = write_uint64 fresh s v
  write_field s (a_string16 str) = write_string16 fresh s str
  write_field s (a_string32 str) = write_string32 fresh s str

  pub marshal : Serializer → List Field → Result Serializer
  marshal s [] = ok s
  marshal s (f ∷ fs) = write_field s f >>= λ t. marshal t fs
