-- ===== src/Base64/Runs.antt =====
-- Runs of base64 at concrete strings.
use lin_socket_io.Base.{◌≡◌, refl, some, [], ◌∷◌, arith, codes}
use lin_socket_io.Base64.{
  base64_encode, base64_decode, encode_loop, encode_group, encode_tail, char_of, sextet0, sextet1,
  sextet2, sextet3,
}
use lin_socket_io.Base64.RoundTrip.{base64_decode-base64_encode}

base64_encode_run : base64_encode (codes "lin") ≡ codes "bGlu"
unfolding base64_encode encode_loop encode_group encode_tail char_of sextet0 sextet1 sextet2 sextet3
base64_encode_run = refl

base64_decode-base64_encode_example :
    base64_decode (base64_encode (255 ∷ 0 ∷ 7 ∷ 128 ∷ [])) ≡ some (255 ∷ 0 ∷ 7 ∷ 128 ∷ [])
base64_decode-base64_encode_example =
    base64_decode-base64_encode (255 ∷ 0 ∷ 7 ∷ 128 ∷ []) (ground arith) (omega arith)
