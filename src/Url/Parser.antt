-- ===== src/Url/Parser.antt =====
-- UrlParser::Build and UrlParser::Parse. A `const char*` is the list of the bytes before its 0, so
-- the end of the list is where the source reads '\0'.
pub mod Query
pub mod RoundTrip
mod Runs
use lin_socket_io.Base.{
  length, ltb, ◌^◌, ℕ, Bool, true, false, ◌&&◌, ◌||◌, not, Option, none, some, [], ◌∷◌, ◌++◌, leb,
  ◌==◌, if◌then◌else◌, Bytes, codes,
}
use mathlib.Core.Option.{bind}
use lin_socket_io.Url.Escape.{encode_url, decode_url}
use lin_socket_io.Url.Params.{Params, assign}

pub record UrlParser : Type 0 where
  pub protocol : Bytes
  pub host : Bytes
  pub port : Bytes
  pub path : Bytes
  pub username : Bytes
  pub password : Bytes
  pub params : Params

pub new_parser : UrlParser
new_parser = record {
  protocol = [];
  host = [];
  port = [];
  path = [];
  username = [];
  password = [];
  params = [];
}

-- the loop over `_params`, with its `flag`
pub build_params : Bytes → Params → Bytes
build_params flag [] = []
build_params flag ((name, value) ∷ rest) =
    flag ++ name ++ b'=' ∷ value ++ build_params (codes "&") rest

-- `if(!_port.empty())`
abbrev pub port_text : Bytes → Bytes
port_text [] = []
port_text (c ∷ s) = b':' ∷ c ∷ s

-- the `url` that Build makes before EncodeURL
pub build_text : UrlParser → Bytes
build_text u =
    u.protocol
    ++ b':' ∷ b'/' ∷ b'/' ∷ u.host
    ++ port_text u.port
    ++ b'/' ∷ u.path
    ++ b'?' ∷ build_params [] u.params

pub build : UrlParser → Option Bytes
build u = encode_url (build_text u)

-- `while('\0' != *tmpstr && !stop(*tmpstr)) tmpstr++`: what is passed over, and what is left
pub scan : (ℕ → Bool) → Bytes → Bytes × Bytes
scan stop [] = ([], [])
scan stop (c ∷ s) = let rest = scan stop s in if stop c then ([], c ∷ s) else (c ∷ rest.0, rest.1)

-- IsSchemeChar, in the C locale
pub is_scheme_char : ℕ → Bool
is_scheme_char c =
    (leb b'a' c && leb c b'z') || (leb b'A' c && leb c b'Z') || c == b'+' || c == b'-' || c == b'.'

pub all_scheme_chars : Bytes → Bool
all_scheme_chars [] = true
all_scheme_chars (c ∷ s) = is_scheme_char c && all_scheme_chars s

-- one '/' of the loop that eats "//"
pub eat : ℕ → Bytes → Option Bytes
eat x [] = none
eat x (c ∷ s) = if c == x then some s else none

-- The checks of the scheme and "//": what is left if none of them fails
pub take_scheme : UrlParser → Bytes × Bytes → UrlParser × Option Bytes
take_scheme u (scheme, []) = (u, none)
take_scheme u (scheme, colon ∷ rest) =
    if all_scheme_chars scheme
    then (record u { protocol = scheme }, bind (eat b'/' rest) (λ s. eat b'/' s))
    else (u, none)

pub parse_scheme : UrlParser → Bytes → UrlParser × Option Bytes
parse_scheme u url = take_scheme u (scan (λ c. c == b':') url)

-- userpass_flag
pub has_user : Bytes → Bool
has_user [] = false
has_user (c ∷ s) = c == b'@' || (not (c == b'/') && has_user s)

-- the password, where a ':' stands before it
pub parse_password : UrlParser → Bytes → UrlParser × Bytes
parse_password u [] = (u, [])
parse_password u (c ∷ s) =
    let found = scan (λ d. d == b'@') s in
    if c == b':' then (record u { password = found.0 }, found.1) else (u, c ∷ s)

-- user and password
pub parse_user : UrlParser → Bytes → UrlParser × Option Bytes
parse_user u s =
    let found = scan (λ c. c == b':' || c == b'@') s in
    let next = parse_password (record u { username = found.0 }) found.1 in
    if has_user s then (next.0, eat b'@' next.1) else (u, some s)

-- the host loop of an address in brackets, whose ']' belongs to the host
pub scan_bracket : Bytes → Bytes × Bytes
scan_bracket [] = ([], [])
scan_bracket (c ∷ s) =
    let rest = scan_bracket s in if c == b']' then (c ∷ [], s) else (c ∷ rest.0, rest.1)

pub bracket_flag : Bytes → Bool
bracket_flag [] = false
bracket_flag (c ∷ s) = c == b'['

pub take_host : UrlParser → Bytes × Bytes → UrlParser × Bytes
take_host u found = (record u { host = found.0 }, found.1)

pub parse_host : UrlParser → Bytes → UrlParser × Bytes
parse_host u s =
    take_host u (if bracket_flag s then scan_bracket s else scan (λ c. c == b':' || c == b'/') s)

pub take_port : UrlParser → Bytes × Bytes → UrlParser × Bytes
take_port u found = (record u { port = found.0 }, found.1)

pub parse_port : UrlParser → Bytes → UrlParser × Bytes
parse_port u [] = (u, [])
parse_port u (c ∷ s) = if c == b':' then take_port u (scan (λ d. d == b'/') s) else (u, c ∷ s)

-- A parameter is kept if it has a '='.
pub keep_found : Bytes × Bytes → Params → Params
keep_found (name, []) ps = ps
keep_found (name, eq ∷ value) ps = assign name value ps

pub keep_param : Bytes → Params → Params
keep_param param ps = keep_found (scan (λ c. c == b'=') param) ps

-- the loop of the query, with the bytes from curstr to tmpstr
pub parse_query : Bytes → Bytes → Params → Params
parse_query param [] ps = keep_param param ps
parse_query param (c ∷ s) ps =
    let next : Bytes × Params =
      if◌then◌else◌ {A = Bytes × Params} (c == b'&') ([], keep_param param ps)
        (param ++ c ∷ [], ps) in
    parse_query next.0 s next.1

-- The path is all up to the '?', its '/' included.
pub take_path : UrlParser → Bytes × Bytes → UrlParser
take_path u (path, []) = record u { path = path }
take_path u (path, mark ∷ query) = record u { path = path; params = parse_query [] query u.params }

pub parse_path : UrlParser → Bytes → UrlParser
parse_path u s = take_path u (scan (λ c. c == b'?') s)

-- what follows the host and the port, up to `return true`
pub take_address : UrlParser × Bytes → UrlParser
take_address (u, []) = u
take_address (u, c ∷ s) = parse_path u (c ∷ s)

pub parse_address : UrlParser → Bytes → UrlParser
parse_address u s = let hosted = parse_host u s in take_address (parse_port hosted.0 hosted.1)

abbrev pub parse_rest : UrlParser × Option Bytes → UrlParser × Bool
parse_rest (u, none) = (u, false)
parse_rest (u, some s) = (parse_address u s, true)

abbrev pub parse_after_scheme : UrlParser × Option Bytes → UrlParser × Bool
parse_after_scheme (u, none) = (u, false)
parse_after_scheme (u, some s) = parse_rest (parse_user u s)

-- Parse(const char*): the parser keeps what it read before it gave up. Lengths and positions are of the
-- type `int`; `none` is a text that one may not hold.
pub parse_text : UrlParser → Bytes → Option (UrlParser × Bool)
parse_text u url =
    if ltb (length url) (2 ^ 31) then some (parse_after_scheme (parse_scheme u url)) else none

-- `data.c_str()`
pub c_str : Bytes → Bytes
c_str s = (scan (λ c. c == 0) s).0

-- Parse(const string&)
pub parse : UrlParser → Bytes → Option (UrlParser × Bool)
parse u url = bind (decode_url url) (λ text. parse_text u (c_str text))
