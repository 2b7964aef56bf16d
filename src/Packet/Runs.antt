-- ===== src/Packet/Runs.antt =====
-- Runs of packets: a map from numbers to strings, and packets that are cut short.
use lin_socket_io.Base.{
  ◌++◌, ◌%◌, ◌^◌, ◌≢◌, length, ◌≤◌, ◌*◌, ℕ, ◌≡◌, refl, [], ◌∷◌, arith, codes, not_enough_data, ok,
  err, some, none,
}
use lin_socket_io.Buffer.Memory.{le_bytes, from_le}
use lin_socket_io.Packet.{
  caught, pop_value, pop_varstr, pop_uint16, pop_uint32, pop_fetch_ptr, Shape, uint16, uint32,
  varstr, pair, container, Value, packet_to_string, string_to_packet,
}
use lin_socket_io.Packet.Images.{image, FitsShape}
use lin_socket_io.Packet.RoundTrip.{string_to_packet-packet_to_string, KeepsSizes}
use lin_socket_io.Packet.Truncated.{string_to_packet_truncated}
use lin_socket_io.Serial.Reader.{read_uint16, read_uint32}
use lin_socket_io.Wire.{hton16, hton32, little_endian}
use lin_socket_io.Wire.Order.{ordered_bytes}

abbrev zeros : ℕ → ℕ
zeros i = 0

-- a member of 16 bits
abbrev sizes : ℕ → ℕ
sizes n = n % 2 ^ 16

sizes-KeepsSizes : KeepsSizes sizes
sizes-KeepsSizes n h = omega arith

abbrev a_map : Shape
a_map = container (pair uint16 varstr)

abbrev names : Value a_map
names = (1, codes "lin") ∷ (258, codes "io") ∷ []

names-FitsShape : FitsShape a_map names
names-FitsShape = (omega arith, ((omega arith, omega arith), ((omega arith, omega arith), tt)))

names-length : length (image a_map little_endian names) ≤ 64 * 1024 * 1024
unfolding ordered_bytes le_bytes
names-length = omega arith

string_to_packet-packet_to_string_example :
    (packet_to_string zeros zeros a_map names ≡ ok (image a_map little_endian names))
    × (string_to_packet sizes a_map (image a_map little_endian names) ≡ ok (some names))
string_to_packet-packet_to_string_example =
    string_to_packet-packet_to_string zeros zeros sizes a_map names sizes-KeepsSizes names-FitsShape
      names-length

cut_string : string_to_packet sizes varstr (2 ∷ 0 ∷ 7 ∷ []) ≡ ok none
unfolding string_to_packet caught pop_value pop_varstr pop_uint16 pop_uint32 pop_fetch_ptr
    read_uint16 read_uint32 hton16 hton32 from_le
cut_string = refl

cut_number : string_to_packet sizes uint32 (2 ∷ 0 ∷ []) ≡ err not_enough_data
unfolding string_to_packet caught pop_value pop_varstr pop_uint16 pop_uint32 pop_fetch_ptr
    read_uint16 read_uint32 hton16 hton32 from_le
cut_number = refl

cut_image : (2 ∷ 0 ∷ 7 ∷ []) ++ 8 ∷ [] ≡ image varstr little_endian (7 ∷ 8 ∷ [])
unfolding ordered_bytes le_bytes
cut_image = refl

string_to_packet_truncated_example : string_to_packet sizes varstr (2 ∷ 0 ∷ 7 ∷ []) ≢ ok (some [])
string_to_packet_truncated_example =
    string_to_packet_truncated sizes varstr (7 ∷ 8 ∷ []) [] (2 ∷ 0 ∷ 7 ∷ []) 8 [] sizes-KeepsSizes
      (omega arith) cut_image
