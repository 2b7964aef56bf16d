-- ===== src/Thrift.antt =====
-- The namespace thrift of utils/serializer.h: the types of fields, and skip. An int is given by its 32
-- bits.
pub mod Values
pub mod Parts
pub mod Skipping
pub mod Progress
pub mod Short
pub mod Protocol
pub mod Message
mod Runs
use lin_socket_io.Base.{
  ℕ, zero, suc, ◌+◌, ◌-◌, ◌%◌, ◌^◌, Bool, true, false, ◌||◌, ltb, ◌==◌, if◌then◌else◌, Result, ok,
  err, ◌>>=◌, unknown_type, out_of_fuel,
}
use lin_socket_io.Serial.Reader.{Deserializer, read, read_byte, read_uint32, size}

-- TType
abbrev pub t_stop : ℕ
t_stop = 0

abbrev pub t_void : ℕ
t_void = 1

abbrev pub t_bool : ℕ
t_bool = 2

abbrev pub t_byte : ℕ
t_byte = 3

abbrev pub t_double : ℕ
t_double = 4

abbrev pub t_i16 : ℕ
t_i16 = 6

abbrev pub t_i32 : ℕ
t_i32 = 8

abbrev pub t_u64 : ℕ
t_u64 = 9

abbrev pub t_i64 : ℕ
t_i64 = 10

abbrev pub t_string : ℕ
t_string = 11

abbrev pub t_struct : ℕ
t_struct = 12

abbrev pub t_map : ℕ
t_map = 13

abbrev pub t_set : ℕ
t_set = 14

abbrev pub t_list : ℕ
t_list = 15

abbrev pub t_utf8 : ℕ
t_utf8 = 16

abbrev pub t_utf16 : ℕ
t_utf16 = 17

-- the case of skip's switch that a type takes
pub data Layout : Type 0 where
  no_bytes : Layout
  fixed : ℕ → Layout
  delimited : Layout
  map_of : Layout
  list_of : Layout
  struct_of : Layout
  unknown : Layout

unfoldable pub layout : ℕ → Layout
layout t =
    if t == t_stop || t == t_void
    then no_bytes
    else if t == t_bool || t == t_byte
    then fixed 1
    else if t == t_i16
    then fixed 2
    else if t == t_i32
    then fixed 4
    else if t == t_i64 || t == t_u64 || t == t_double
    then fixed 8
    else if t == t_string || t == t_utf8 || t == t_utf16
    then delimited
    else if t == t_map
    then map_of
    else if t == t_set || t == t_list
    then list_of
    else if t == t_struct
    then struct_of
    else unknown

-- `return -1`
abbrev pub minus_one : ℕ
minus_one = 2 ^ 32 - 1

-- what a skip returns, and the reader after it
abbrev pub Skip : Type 0
Skip = Result (ℕ × Deserializer)

-- `return (int)(size - upk.size())`, the size of `d` having been looked at first
abbrev pub skipped : Deserializer → Deserializer → Skip
skipped d e = ok ((size d - size e) % 2 ^ 32, e)

abbrev pub skip_fixed : ℕ → Deserializer → Skip
skip_fixed k d = if ltb (size d) k then ok (minus_one, d) else read d k >>= λ r. skipped d r.1

pub skip_delimited : Deserializer → Skip
skip_delimited d =
    if ltb (size d) 4
    then ok (minus_one, d)
    else read_uint32 d >>= λ r.
        if ltb (size r.1) r.0 then ok (minus_one, r.1) else read r.1 r.0 >>= λ r'. skipped d r'.1

-- A loop's result: whether it has run to its end, and the reader.
abbrev pub Loop : Type 0
Loop = Result (Bool × Deserializer)

-- `return -1`, or what stands behind the loop
pub after_loop : Deserializer → Bool × Deserializer → Skip
after_loop d (true, e) = skipped d e
after_loop d (false, e) = ok (minus_one, e)

-- `if (!skip(...)) return -1;`
pub unless_zero : (Deserializer → Loop) → ℕ × Deserializer → Loop
unless_zero next (zero, d) = ok (false, d)
unless_zero next (suc n, d) = next d

module _ (skip_one : ℕ → Deserializer → Skip) where
  -- the loop of a list or a set
  unfoldable pub items : ℕ → ℕ → Deserializer → Loop
  items vtype zero d = ok (true, d)
  items vtype (suc num) d = skip_one vtype d >>= unless_zero (items vtype num)

  -- the loop of a map
  unfoldable pub entries : ℕ → ℕ → ℕ → Deserializer → Loop
  entries ktype vtype zero d = ok (true, d)
  entries ktype vtype (suc num) d =
      skip_one ktype d
      >>= unless_zero (λ d'. skip_one vtype d' >>= unless_zero (entries ktype vtype num))

  -- the body of a struct's loop behind the type
  pub field_rest : ℕ → (Deserializer → Loop) → Deserializer → Loop
  field_rest ftype next d =
      if ftype == t_stop
      then ok (true, d)
      else if ltb (size d) 2
      then ok (false, d)
      else read d 2 >>= λ r. skip_one ftype r.1 >>= unless_zero next

  -- the loop of a struct
  unfoldable pub fields : ℕ → Deserializer → Loop
  fields zero d = err out_of_fuel
  fields (suc fuel) d =
      if ltb (size d) 1
      then ok (false, d)
      else read_byte d >>= λ r. field_rest r.0 (fields fuel) r.1

  pub skip_list : Deserializer → Skip
  skip_list d =
      if ltb (size d) (1 + 4)
      then ok (minus_one, d)
      else read_byte d >>= λ v. read_uint32 v.1 >>= λ num. items v.0 num.0 num.1 >>= after_loop d

  pub skip_map : Deserializer → Skip
  skip_map d =
      if ltb (size d) (1 + 1 + 2)
      then ok (minus_one, d)
      else read_byte d >>= λ k. read_byte k.1 >>= λ v.
          read_uint32 v.1 >>= λ num. entries k.0 v.0 num.0 num.1 >>= after_loop d

  -- one round of the loop takes a byte at least
  pub skip_struct : Deserializer → Skip
  skip_struct d = fields (size d + 1) d >>= after_loop d

  -- the body of skip's switch
  pub skip_as : Layout → Deserializer → Skip
  skip_as no_bytes d = skipped d d
  skip_as (fixed k) d = skip_fixed k d
  skip_as delimited d = skip_delimited d
  skip_as map_of d = skip_map d
  skip_as list_of d = skip_list d
  skip_as struct_of d = skip_struct d
  skip_as unknown d = err unknown_type

-- skip with fuel for the nesting
pub skip_nested : ℕ → ℕ → Deserializer → Skip
skip_nested zero ftype d = err out_of_fuel
skip_nested (suc fuel) ftype d = skip_as (skip_nested fuel) (layout ftype) d

-- skip(upk, ftype): a level of nesting takes a byte at least
unfoldable pub skip : Deserializer → ℕ → Skip
skip d ftype = skip_nested (size d + 1) ftype d
