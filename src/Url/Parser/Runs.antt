-- ===== src/Url/Parser/Runs.antt =====
-- Runs of Build and Parse at a concrete URL.
use lin_socket_io.Base.{
  Bytes, length, ◌^◌, ◌*◌, ◌<◌, ◌≡◌, refl, true, some, [], ◌∷◌, arith, ◌==◌, IsByte, codes, All,
}
use lin_socket_io.Url.Params.{less}
use lin_socket_io.Url.Parser.{
  UrlParser, new_parser, build_text, build, parse, build_params, is_scheme_char, all_scheme_chars,
}
use lin_socket_io.Url.Parser.Query.{Free}
use lin_socket_io.Url.Parser.RoundTrip.{IsBuildable, parsed, parse-build}

abbrev url : UrlParser
url = record {
  protocol = codes "ws";
  host = codes "h.io";
  port = codes "80";
  path = codes "a/b";
  username = [];
  password = [];
  params = (codes "k", codes "v") ∷ (codes "n", codes "2") ∷ [];
}

url-IsBuildable : IsBuildable url
unfolding all_scheme_chars is_scheme_char less
url-IsBuildable = record {
  scheme = refl;
  no_colon = ground arith;
  no_bracket = ground arith;
  no_user = ground arith;
  no_slash = ground arith;
  no_mark = ground arith;
  fit = ground arith;
  sorted = ground arith;
}

url_bytes : All IsByte (build_text url) × Free (λ c. c == 0) (build_text url)
unfolding build_text build_params
url_bytes = ground arith

url_small : 3 * length (build_text url) < 2 ^ 32
unfolding build_text build_params
url_small = omega arith

parse-build_example :
    (text : Bytes) × (build url ≡ some text) × (parse new_parser text ≡ some (parsed url, true))
parse-build_example = parse-build url url-IsBuildable url_bytes.0 url_bytes.1 url_small
