-- ===== src/Thrift/Runs.antt =====
-- Runs of skip and of the message functions.
use lin_socket_io.Base.{
  out_of_fuel, ℕ, ◌+◌, ◌*◌, ◌^◌, ◌≤◌, ◌<◌, ◌≡◌, ◌≢◌, some, [], ◌∷◌, ◌++◌, arith, Bytes, codes,
  length, ok, err,
}
use lin_socket_io.Buffer.Memory.{le_bytes}
use lin_socket_io.Serial.Reader.{Deserializer, size}
use lin_socket_io.Thrift.{skip, t_list, t_map}
use lin_socket_io.Thrift.Message.{call, read_message_begin, build_message, write_exception}
use lin_socket_io.Thrift.Message.Delivery.{message, read_message_begin-build_message}
use lin_socket_io.Thrift.Message.Putting.{exception_fields, write_exception-Puts}
use lin_socket_io.Thrift.Parts.{at}
use lin_socket_io.Thrift.Progress.{skip_terminates}
use lin_socket_io.Thrift.Short.{skip_list_short}
use lin_socket_io.Thrift.Skipping.{skip-image}
use lin_socket_io.Thrift.Values.{
  Value, a_list, a_map, string, i32, scalar, image, fields_image, map, list, cons, nil, entry,
  no_entry, number, text,
}
use lin_socket_io.Wire.{big_endian}
use lin_socket_io.Wire.Order.{ordered_bytes, be_bytes}

abbrev zeros : ℕ → ℕ
zeros i = 0

-- a map from a name to a list of numbers
abbrev scores : Value a_map
scores = map string a_list (
    entry (text (codes "io")) (list (scalar i32) (cons (number i32 7) (cons (number i32 8) nil)))
      no_entry)

scores-length : length (image scores) < 2 ^ 31
unfolding image ordered_bytes be_bytes le_bytes
scores-length = omega arith

skip-image_example :
    skip (at (image scores ++ 9 ∷ [])) t_map ≡ ok (length (image scores), at (9 ∷ []))
skip-image_example = skip-image scores (9 ∷ []) scores-length

skip_terminates_example :
    (skip (at (8 ∷ 0 ∷ [])) t_list ≢ err out_of_fuel)
    × ((n : ℕ) (e : Deserializer) → skip (at (8 ∷ 0 ∷ [])) t_list ≡ ok (n, e) → size e ≤ 2)
skip_terminates_example = skip_terminates (at (8 ∷ 0 ∷ [])) t_list

skip_list_short_example :
    skip (at (le_bytes 1 8 ++ ordered_bytes 4 3 big_endian)) t_list ≡ ok (5, at [])
skip_list_short_example = skip_list_short i32 3 (omega arith)

exception-room : 12 + 3 + length (fields_image (exception_fields (codes "no") 5)) ≤ 64 * 1024 * 1024
unfolding image ordered_bytes be_bytes le_bytes
exception-room = omega arith

read_message_begin-build_message_example :
    (raw : Bytes) × (build_message zeros zeros
        (codes "add")
        call
        7
        (write_exception zeros (codes "no") 5)
      ≡ ok raw)
    × (read_message_begin (raw ++ 1 ∷ [])
        ≡ ok (some (message (codes "add") 1 7 (exception_fields (codes "no") 5))))
read_message_begin-build_message_example =
    read_message_begin-build_message zeros zeros (codes "add") call 7
      (write_exception zeros (codes "no") 5) (exception_fields (codes "no") 5) (1 ∷ [])
      (write_exception-Puts zeros (codes "no") 5 (omega arith)) (omega arith) exception-room
