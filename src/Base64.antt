-- ===== src/Base64.antt =====
-- utils/base64.cpp. Bytes and characters are numbers; `isalnum` is that of the C locale.
pub mod Bits
pub mod RoundTrip
mod Runs
use lin_socket_io.Base.{
  Option, some, none, ltb, take, length, ◌^◌, ℕ, ◌+◌, ◌*◌, ◌/◌, ◌%◌, bit_and, Bool, ◌&&◌, ◌||◌, not,
  [], ◌∷◌, ◌++◌, leb, ◌==◌, if◌then◌else◌, Bytes, codes, get_or,
}

-- base64_chars
abbrev pub base64_chars : Bytes
base64_chars = codes "ABCDEFGHIJKLMNOPQRSTUVWXYZabcdefghijklmnopqrstuvwxyz0123456789+/"

-- base64_chars[v]; past the end stands the terminating 0.
pub char_of : ℕ → ℕ
char_of v = get_or base64_chars v 0

find_from : Bytes → ℕ → ℕ → ℕ
find_from [] c i = 255
find_from (x ∷ xs) c i = let later = find_from xs c (i + 1) in if x == c then i else later

-- base64_chars.find(c), cut to `unsigned char`: `npos` becomes 255.
pub value_of : ℕ → ℕ
unfolding find_from
value_of c = find_from base64_chars c 0

pub is_base64 : ℕ → Bool
is_base64 c =
    (leb b'0' c && leb c b'9')
    || (leb b'A' c && leb c b'Z')
    || (leb b'a' c && leb c b'z')
    || (c == b'+')
    || (c == b'/')

-- The four entries of `char_array_4` that base64_encode computes from `char_array_3`.
pub sextet0 : ℕ → ℕ
sextet0 a = bit_and a 0xfc / 4

pub sextet1 : ℕ → ℕ → ℕ
sextet1 a b = bit_and a 0x03 * 16 + bit_and b 0xf0 / 16

pub sextet2 : ℕ → ℕ → ℕ
sextet2 b c = bit_and b 0x0f * 4 + bit_and c 0xc0 / 64

pub sextet3 : ℕ → ℕ
sextet3 c = bit_and c 0x3f

-- `char_array_3[0..i)` between two rounds of the loop, where `i` is 0, 1 or 2.
pub data Held : Type 0 where
  held0 : Held
  held1 : ℕ → Held
  held2 : ℕ → ℕ → Held

pub encode_group : ℕ → ℕ → ℕ → Bytes
encode_group a b c =
    char_of (sextet0 a) ∷ char_of (sextet1 a b) ∷ char_of (sextet2 b c) ∷ char_of (sextet3 c) ∷ []

-- What follows the loop: the missing bytes are 0, `i + 1` characters are written, then `=` up to 3.
pub encode_tail : Held → Bytes
encode_tail held0 = []
encode_tail (held1 a) = char_of (sextet0 a) ∷ char_of (sextet1 a 0) ∷ b'=' ∷ b'=' ∷ []
encode_tail (held2 a b) =
    char_of (sextet0 a) ∷ char_of (sextet1 a b) ∷ char_of (sextet2 b 0) ∷ b'=' ∷ []

encode_loop : Bytes → Held → Bytes → Bytes
encode_loop ret h [] = ret ++ encode_tail h
encode_loop ret held0 (x ∷ xs) = encode_loop ret (held1 x) xs
encode_loop ret (held1 a) (x ∷ xs) = encode_loop ret (held2 a x) xs
encode_loop ret (held2 a b) (x ∷ xs) = encode_loop (ret ++ encode_group a b x) held0 xs

-- `in_len` is the size as an `unsigned int`.
pub base64_encode : Bytes → Bytes
base64_encode bytes = encode_loop [] held0 (take (length bytes % 2 ^ 32) bytes)

-- The three entries of `char_array_3` that base64_decode computes, each cut to `unsigned char`.
pub octet0 : ℕ → ℕ → ℕ
octet0 u v = (u * 4 + bit_and v 0x30 / 16) % 256

pub octet1 : ℕ → ℕ → ℕ
octet1 v w = (bit_and v 0x0f * 16 + bit_and w 0x3c / 4) % 256

pub octet2 : ℕ → ℕ → ℕ
octet2 w x = (bit_and w 0x03 * 64 + x) % 256

-- `char_array_4[0..i)` between two rounds, as characters.
pub data Chars : Type 0 where
  chars0 : Chars
  chars1 : ℕ → Chars
  chars2 : ℕ → ℕ → Chars
  chars3 : ℕ → ℕ → ℕ → Chars

pub decode_group : ℕ → ℕ → ℕ → ℕ → Bytes
decode_group p q r s =
    octet0 (value_of p) (value_of q)
    ∷ octet1 (value_of q) (value_of r)
    ∷ octet2 (value_of r) (value_of s)
    ∷ []

-- What follows the loop: the missing characters are 0, and `i - 1` bytes are written.
pub decode_tail : Chars → Bytes
decode_tail chars0 = []
decode_tail (chars1 p) = []
decode_tail (chars2 p q) = octet0 (value_of p) (value_of q) ∷ []
decode_tail (chars3 p q r) =
    octet0 (value_of p) (value_of q) ∷ octet1 (value_of q) (value_of r) ∷ []

-- the loop's condition on the next character
pub goes_on : ℕ → Bool
goes_on c = not (c == b'=') && is_base64 c

decode_loop : Bytes → Chars → Bytes → Bytes
decode_loop ret h [] = ret ++ decode_tail h
decode_loop ret chars0 (c ∷ cs) =
    let rest = decode_loop ret (chars1 c) cs in
    if goes_on c then rest else ret ++ decode_tail chars0
decode_loop ret (chars1 p) (c ∷ cs) =
    let rest = decode_loop ret (chars2 p c) cs in
    if goes_on c then rest else ret ++ decode_tail (chars1 p)
decode_loop ret (chars2 p q) (c ∷ cs) =
    let rest = decode_loop ret (chars3 p q c) cs in
    if goes_on c then rest else ret ++ decode_tail (chars2 p q)
decode_loop ret (chars3 p q r) (c ∷ cs) =
    let rest = decode_loop (ret ++ decode_group p q r c) chars0 cs in
    if goes_on c then rest else ret ++ decode_tail (chars3 p q r)

-- the rounds of the loop of base64_decode, which are what `in_` becomes
pub rounds : Bytes → ℕ
rounds [] = 0
rounds (c ∷ cs) = let n = rounds cs in if goes_on c then 1 + n else 0

-- `none`: the `int` in_ overflows, which is undefined
pub base64_decode : Bytes → Option Bytes
base64_decode encoded_string =
    if ltb (rounds encoded_string) (2 ^ 31)
    then some (decode_loop [] chars0 encoded_string)
    else none
