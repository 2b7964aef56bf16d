-- ===== src/Thrift/Values.antt =====
-- The values of thrift's binary protocol, indexed by their type, and their bytes.
use lin_socket_io.Base.{[], ℕ, suc, ◌++◌, Bytes, length}
use lin_socket_io.Buffer.Memory.{le_bytes}
use lin_socket_io.Thrift.{
  t_stop, t_bool, t_byte, t_double, t_i16, t_i32, t_u64, t_i64, t_string, t_struct, t_map, t_set,
  t_list, t_utf8, t_utf16,
}
use lin_socket_io.Wire.{big_endian}
use lin_socket_io.Wire.Order.{ordered_bytes}

pub data Scalar : Type 0 where
  bool byte i16 i32 u64 i64 double : Scalar

abbrev pub width : Scalar → ℕ
width bool = 1
width byte = 1
width i16 = 2
width i32 = 4
width u64 = 8
width i64 = 8
width double = 8

pub data Ttype : Type 0 where
  scalar : Scalar → Ttype
  string utf8 utf16 a_struct a_map a_set a_list : Ttype

abbrev pub scalar_code : Scalar → ℕ
scalar_code bool = t_bool
scalar_code byte = t_byte
scalar_code i16 = t_i16
scalar_code i32 = t_i32
scalar_code u64 = t_u64
scalar_code i64 = t_i64
scalar_code double = t_double

abbrev pub code : Ttype → ℕ
code (scalar s) = scalar_code s
code string = t_string
code utf8 = t_utf8
code utf16 = t_utf16
code a_struct = t_struct
code a_map = t_map
code a_set = t_set
code a_list = t_list

-- A struct is its fields, with their ids, up to the stop; the values of a list have one type.
mutual
  pub data Value : Ttype → Type 0 where
    number : (s : Scalar) → ℕ → Value (scalar s)
    text : Bytes → Value string
    text8 : Bytes → Value utf8
    text16 : Bytes → Value utf16
    record_of : Fields → Value a_struct
    map : (k v : Ttype) → Entries k v → Value a_map
    set : (t : Ttype) → Items t → Value a_set
    list : (t : Ttype) → Items t → Value a_list

  pub data Items : Ttype → Type 0 where
    nil : {t : Ttype} → Items t
    cons : {t : Ttype} → Value t → Items t → Items t

  pub data Entries : Ttype → Ttype → Type 0 where
    no_entry : {k v : Ttype} → Entries k v
    entry : {k v : Ttype} → Value k → Value v → Entries k v → Entries k v

  pub data Fields : Type 0 where
    end : Fields
    field : (t : Ttype) → ℕ → Value t → Fields → Fields

abbrev pub count : {t : Ttype} → Items t → ℕ
count nil = 0
count (cons x xs) = suc (count xs)

abbrev pub pairs : {k v : Ttype} → Entries k v → ℕ
pairs no_entry = 0
pairs (entry x y xs) = suc (pairs xs)

abbrev pub delimited_image : Bytes → Bytes
delimited_image xs = ordered_bytes 4 (length xs) big_endian ++ xs

unfoldable mutual
  pub image : {t : Ttype} → Value t → Bytes
  image (number s n) = ordered_bytes (width s) n big_endian
  image (text xs) = delimited_image xs
  image (text8 xs) = delimited_image xs
  image (text16 xs) = delimited_image xs
  image (record_of fs) = fields_image fs
  image (map k v es) =
      le_bytes 1 (code k)
      ++ (le_bytes 1 (code v) ++ (ordered_bytes 4 (pairs es) big_endian ++ entries_image es))
  image (set t xs) =
      le_bytes 1 (code t) ++ (ordered_bytes 4 (count xs) big_endian ++ items_image xs)
  image (list t xs) =
      le_bytes 1 (code t) ++ (ordered_bytes 4 (count xs) big_endian ++ items_image xs)

  pub items_image : {t : Ttype} → Items t → Bytes
  items_image nil = []
  items_image (cons x xs) = image x ++ items_image xs

  pub entries_image : {k v : Ttype} → Entries k v → Bytes
  entries_image no_entry = []
  entries_image (entry x y es) = image x ++ (image y ++ entries_image es)

  pub fields_image : Fields → Bytes
  fields_image end = le_bytes 1 t_stop
  fields_image (field t id x fs) =
      le_bytes 1 (code t) ++ (ordered_bytes 2 id big_endian ++ (image x ++ fields_image fs))
