-- ===== src/Url/Runs.antt =====
-- Runs of UrlParser at concrete strings.
use lin_socket_io.Base.{Bytes, ◌≡◌, some, [], ◌∷◌, arith}
use lin_socket_io.Url.Escape.{encode_url, decode_url}
use lin_socket_io.Url.Escape.RoundTrip.{decode_url-encode_url}

abbrev a_text : Bytes
a_text = 32 ∷ 37 ∷ 255 ∷ 97 ∷ []

decode_url-encode_url_example :
    (url : Bytes) × (encode_url a_text ≡ some url) × (decode_url url ≡ some a_text)
decode_url-encode_url_example = decode_url-encode_url a_text (ground arith) (omega arith)
