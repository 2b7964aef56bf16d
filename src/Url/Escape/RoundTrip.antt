-- ===== src/Url/Escape/RoundTrip.antt =====
-- DecodeURL undoes EncodeURL.
use lin_socket_io.Base.{
  Bool, if_either, ltb, ◌==◌, length, length-append, ◌^◌, ◌*◌, ◌-◌, ◌≤◌, ℕ, ◌/◌, ◌%◌, ◌<◌, ◌≡◌, ◌≢◌,
  refl, ◌∙◌, ap, sym, [], ◌∷◌, ◌++◌, append-nil, append_assoc, some, flat_map, Bytes, IsByte, All,
  arith, true, all_below, agree_below, ◌||◌,
}
use lin_socket_io.Url.Escape.{
  is_alpha_number_char, is_mark, char_to_hex, hex_byte, encode_char, encode_loop, encode_url,
  decode_loop, decode_url,
}

encode_loop-flat_map : (dst src : Bytes) → encode_loop dst src ≡ dst ++ flat_map encode_char src
unfolding encode_loop flat_map
encode_loop-flat_map dst [] = sym (append-nil dst)
encode_loop-flat_map dst (ch ∷ src) =
    encode_loop-flat_map (dst ++ encode_char ch) src
    ∙ append_assoc dst (encode_char ch) (flat_map encode_char src)

encode_url-flat_map :
    (src : Bytes) → length src < 2 ^ 32 → encode_url src ≡ some (flat_map encode_char src)
unfolding encode_url
encode_url-flat_map src small =
    if_either (λ o. o ≡ some (flat_map encode_char src)) (ltb (length src) (2 ^ 32)) _ _
      (λ _. ap some (encode_loop-flat_map [] src)) (λ large. ground (arith, large))

-- The two digits of a byte are read back as the byte.
pub hex_byte-char_to_hex :
    (ch : ℕ) → ch < 256 → hex_byte (char_to_hex (ch / 16)) (char_to_hex (ch % 16)) ≡ ch
unfolding hex_byte char_to_hex all_below
hex_byte-char_to_hex =
    agree_below (λ ch. hex_byte (char_to_hex (ch / 16)) (char_to_hex (ch % 16))) (λ ch. ch) 256 refl

hex_byte_space : hex_byte b'2' b'0' ≡ b' '
unfolding hex_byte
hex_byte_space = refl

decode_loop_plain :
    (full : Bool) (c : ℕ) (src dst : Bytes)
    → c ≢ b'%'
    → decode_loop full dst (c ∷ src) ≡ decode_loop full (dst ++ c ∷ []) src
unfolding decode_loop
decode_loop_plain full c [] dst h = ground arith
decode_loop_plain full c (p ∷ []) dst h = ground arith
decode_loop_plain full c (p ∷ q ∷ src) dst h = ground arith

-- A `%` and two digits are one byte.
decode_loop_escape :
    (full : Bool) (p q : ℕ) (src dst : Bytes)
    → decode_loop full dst (b'%' ∷ p ∷ q ∷ src) ≡ decode_loop full (dst ++ hex_byte p q ∷ []) src
unfolding decode_loop
decode_loop_escape full p q src dst = refl

-- A byte that is copied is no `%`.
safe-ne-percent : (ch : ℕ) → (is_alpha_number_char ch || is_mark ch) ≡ true → ch ≢ b'%'
unfolding is_alpha_number_char is_mark
safe-ne-percent ch h = ground arith

decode_loop-encode_char :
    (full : Bool) (ch : ℕ) (src dst : Bytes)
    → ch < 256
    → decode_loop full dst (encode_char ch ++ src) ≡ decode_loop full (dst ++ ch ∷ []) src
unfolding encode_char
decode_loop-encode_char full ch src dst h = ground (
  arith,
  safe-ne-percent ch,
  decode_loop_plain full ch src dst,
  decode_loop_escape full b'2' b'0' src dst,
  decode_loop_escape full (char_to_hex (ch / 16)) (char_to_hex (ch % 16)) src dst,
  hex_byte-char_to_hex ch,
  hex_byte_space,
)

decode_loop-flat_map :
    (full : Bool) (src dst : Bytes)
    → All IsByte src
    → decode_loop full dst (flat_map encode_char src) ≡ some (dst ++ src)
unfolding flat_map
decode_loop-flat_map full [] dst h = rw append-nil (unfold decode_loop in refl)
decode_loop-flat_map full (ch ∷ src) dst (b, h) =
    decode_loop-encode_char full ch (flat_map encode_char src) dst b
    ∙ decode_loop-flat_map full src (dst ++ ch ∷ []) h
    ∙ ap some (append_assoc dst (ch ∷ []) src)

length-encode_char : (ch : ℕ) → length (encode_char ch) ≤ 3
unfolding encode_char
length-encode_char ch = ground arith

length-flat_map-encode_char : (src : Bytes) → length (flat_map encode_char src) ≤ 3 * length src
unfolding flat_map
length-flat_map-encode_char [] = omega arith
length-flat_map-encode_char (ch ∷ src) = omega (
  arith,
  length-append (encode_char ch) (flat_map encode_char src),
  length-encode_char ch,
  length-flat_map-encode_char src,
)

-- EncodeURL returns for every byte string of less than 2^32 / 3 bytes, and DecodeURL gives the string
-- back, and reads nothing behind its end.
pub decode_url-encode_url :
    (src : Bytes)
    → All IsByte src
    → 3 * length src < 2 ^ 32
    → (url : Bytes) × (encode_url src ≡ some url) × (decode_url url ≡ some src)
unfolding decode_url
decode_url-encode_url src h small =
    let url = flat_map encode_char src in
    let size = length-flat_map-encode_char src in
    (
      url,
      encode_url-flat_map src (omega arith),
      if_either (λ o. o ≡ some src) (ltb (length url) (2 ^ 32)) _ _
          (λ _. decode_loop-flat_map (length url == 2 ^ 32 - 1) src [] h)
          (λ large. ground (arith, large)),
    )
