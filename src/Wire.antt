-- ===== src/Wire.antt =====
-- utils/byteorder.h and the struct BO of utils/serializer.h, on a little-endian host.
pub mod Bits
pub mod Order
use lin_socket_io.Base.{ℕ, ◌*◌, ◌/◌, ◌^◌, bit_and, bit_or, ◌==◌, if◌then◌else◌}

-- The values of <endian.h>.
abbrev pub little_endian : ℕ
little_endian = 1234

abbrev pub big_endian : ℕ
big_endian = 4321

-- __bswap_16, on a uint16_t
pub bswap16 : ℕ → ℕ
bswap16 x = bit_or (bit_and (x / 2 ^ 8) 0xff) (bit_and x 0xff * 2 ^ 8)

-- __bswap_32, on a uint32_t
pub bswap32 : ℕ → ℕ
bswap32 x =
    bit_or
      (bit_or (bit_or (bit_and x 0xff000000 / 2 ^ 24) (bit_and x 0x00ff0000 / 2 ^ 8))
        (bit_and x 0x0000ff00 * 2 ^ 8))
      (bit_and x 0x000000ff * 2 ^ 24)

-- __bswap_64, on a uint64_t
pub bswap64 : ℕ → ℕ
bswap64 x =
    let high =
      bit_or
        (bit_or
          (bit_or (bit_and x 0xff00000000000000 / 2 ^ 56) (bit_and x 0x00ff000000000000 / 2 ^ 40))
          (bit_and x 0x0000ff0000000000 / 2 ^ 24))
        (bit_and x 0x000000ff00000000 / 2 ^ 8) in
    bit_or
      (bit_or
        (bit_or (bit_or high (bit_and x 0x00000000ff000000 * 2 ^ 8))
          (bit_and x 0x0000000000ff0000 * 2 ^ 24))
        (bit_and x 0x000000000000ff00 * 2 ^ 40))
      (bit_and x 0x00000000000000ff * 2 ^ 56)

-- BO::hton16 and BO::ntoh16 have one body, and so on; h2le16(x) is x.
unfoldable pub hton16 : ℕ → ℕ → ℕ
hton16 i bo = if bo == little_endian then i else bswap16 i

unfoldable pub hton32 : ℕ → ℕ → ℕ
hton32 i bo = if bo == little_endian then i else bswap32 i

unfoldable pub hton64 : ℕ → ℕ → ℕ
hton64 i bo = if bo == little_endian then i else bswap64 i
