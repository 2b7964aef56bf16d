-- ===== src/Url/Escape.antt =====
-- EncodeURL and DecodeURL of utils/url_parser.h. A `std::string` is the list of its bytes; `char`
-- is signed, as on the platforms that the build names.
pub mod RoundTrip
use lin_socket_io.Base.{
  length, ◌^◌, ℕ, ◌+◌, ◌-◌, ◌*◌, ◌/◌, ◌%◌, Bool, false, ◌&&◌, ◌||◌, [], ◌∷◌, ◌++◌, Option, none,
  some, Bytes, codes, ltb, leb, ◌==◌, if◌then◌else◌,
}

-- CharToHex, its sum cut to `unsigned char`
pub char_to_hex : ℕ → ℕ
char_to_hex x = if ltb 9 x then (x + 55) % 256 else (x + 48) % 256

-- IsAlphaNumberChar
pub is_alpha_number_char : ℕ → Bool
is_alpha_number_char c =
    (leb b'a' c && leb c b'z') || (leb b'A' c && leb c b'Z') || (leb b'0' c && leb c b'9')

pub contains : Bytes → ℕ → Bool
contains [] c = false
contains (x ∷ xs) c = x == c || contains xs c

-- `strchr("-_.!~*'()", ch)` is not null. The search looks at the terminating 0 too.
pub is_mark : ℕ → Bool
unfolding contains
is_mark c = contains (codes "-_.!~*'()" ++ 0 ∷ []) c

-- what one round of EncodeURL appends
pub encode_char : ℕ → Bytes
encode_char ch =
    if ch == b' '
    then codes "%20"
    else if is_alpha_number_char ch || is_mark ch
    then ch ∷ []
    else b'%' ∷ char_to_hex (ch / 16) ∷ char_to_hex (ch % 16) ∷ []

encode_loop : Bytes → Bytes → Bytes
encode_loop dst [] = dst
encode_loop dst (ch ∷ src) = encode_loop (dst ++ encode_char ch) src

-- `none`: the `uint32_t` index never reaches the size, and the loop does not end
pub encode_url : Bytes → Option Bytes
encode_url src = if ltb (length src) (2 ^ 32) then some (encode_loop [] src) else none

-- `p - 48 - ((p >= 'A') ? 7 : 0) - ((p >= 'a') ? 32 : 0)` cut to `char`. A byte from 128 on is
-- negative as a `char`, and passes neither test.
pub from_hex : ℕ → ℕ
from_hex p =
    let upper = if leb b'A' p && ltb p 128 then 7 else 0 in
    let lower = if leb b'a' p && ltb p 128 then 32 else 0 in (p + 256 - 48 - upper - lower) % 256

-- `(unsigned char)(p[0] * 16 + p[1])`
pub hex_byte : ℕ → ℕ → ℕ
unfolding from_hex
hex_byte p q = (from_hex p * 16 + from_hex q) % 256

-- The loop of DecodeURL. `src[src.size()]` is the terminating 0. `none` is a read behind it, which is
-- undefined in C++: a `%` as the last byte makes one. A `%` with one byte behind it takes the index to
-- the size and one more, which is 0 again if the size is the greatest (`full`): the loop then does not
-- end.
decode_loop : Bool → Bytes → Bytes → Option Bytes
decode_loop full dst [] = some dst
decode_loop full dst (c ∷ []) = if c == b'%' then none else some (dst ++ c ∷ [])
decode_loop full dst (c ∷ p ∷ []) =
    let plain = decode_loop full (dst ++ c ∷ []) (p ∷ []) in
    let cut = if full then none else some (dst ++ hex_byte p 0 ∷ []) in
    if c == b'%' then cut else plain
decode_loop full dst (c ∷ p ∷ q ∷ src) =
    let escaped = decode_loop full (dst ++ hex_byte p q ∷ []) src in
    let plain = decode_loop full (dst ++ c ∷ []) (p ∷ q ∷ src) in
    if c == b'%' then escaped else plain

-- DecodeURL; `none` also where the index never reaches the size
pub decode_url : Bytes → Option Bytes
decode_url src =
    if ltb (length src) (2 ^ 32) then decode_loop (length src == 2 ^ 32 - 1) [] src else none
