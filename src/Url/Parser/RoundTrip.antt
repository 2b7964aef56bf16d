-- ===== src/Url/Parser/RoundTrip.antt =====
-- What Parse reads from the text that Build makes.
use mathlib.Core.Option.{bind}
use lin_socket_io.Base.{
  if_either, ltb, length, ◌^◌, ◌*◌, ◌<◌, ℕ, ◌≡◌, refl, sym, ap, ◌∙◌, Bool, true, false, ◌||◌, some,
  [], ◌∷◌, ◌++◌, append_assoc, arith, ◌==◌, if◌then◌else◌, Bytes, IsByte, All,
}
use lin_socket_io.Url.Escape.RoundTrip.{decode_url-encode_url}
use lin_socket_io.Url.Params.Order.{IsSorted}
use lin_socket_io.Url.Parser.{
  UrlParser, new_parser, build_params, port_text, build_text, build, scan, is_scheme_char,
  all_scheme_chars, eat, parse_scheme, has_user, parse_user, bracket_flag, parse_host, scan_bracket,
  parse_port, take_scheme, take_host, take_port, take_address, parse_path, parse_address,
  parse_text, parse_rest, parse_after_scheme, c_str, parse,
}
use lin_socket_io.Url.Parser.Query.{Free, scan_stop, scan_all, IsParam, parse_path-build}

scheme-Free : (a : Bytes) → all_scheme_chars a ≡ true → Free (λ c. c == b':') a
unfolding all_scheme_chars is_scheme_char
scheme-Free [] h = tt
scheme-Free (c ∷ a) h = (ground arith, scheme-Free a (ground arith))

parse_scheme-build :
    (u : UrlParser) (a s : Bytes)
    → all_scheme_chars a ≡ true
    → parse_scheme u (a ++ b':' ∷ b'/' ∷ b'/' ∷ s) ≡ (record u { protocol = a }, some s)
unfolding parse_scheme eat mathlib.Core.Option.bind
parse_scheme-build u a s h =
    ap (take_scheme u) (scan_stop (λ c. c == b':') a (b'/' ∷ b'/' ∷ s) b':' (scheme-Free a h) refl)
    ∙ (unfold take_scheme in rw h refl)

has_user-slash : (a s : Bytes) → Free (λ c. c == b'@') a → has_user (a ++ b'/' ∷ s) ≡ false
unfolding has_user
has_user-slash [] s h = refl
has_user-slash (c ∷ a) s (p, h) = rw (p, has_user-slash a s h) (ground arith)

-- A host that is a name or an IPv4 address
abbrev pub host_stop : ℕ → Bool
host_stop c = c == b':' || c == b'/'

-- The conditions on the fields under which Build's text can be taken apart again: no field holds a
-- byte that ends it, and the names of the parameters are in the order that the map keeps.
pub record IsBuildable (u : UrlParser) : Type 0 where
  pub scheme : all_scheme_chars u.protocol ≡ true
  pub no_colon : Free (λ c. c == b':' || c == b'/') u.host
  pub no_bracket : Free (λ c. c == b'[') u.host
  pub no_user : Free (λ c. c == b'@') (u.host ++ port_text u.port)
  pub no_slash : Free (λ c. c == b'/') u.port
  pub no_mark : Free (λ c. c == b'?') u.path
  pub fit : All IsParam u.params
  pub sorted : IsSorted u.params

-- the text from the '/' of the path on, and from the host on
abbrev tail_text : UrlParser → Bytes
tail_text u = b'/' ∷ u.path ++ b'?' ∷ build_params [] u.params

build_text_split :
    (u : UrlParser)
    → build_text u
      ≡ u.protocol ++ b':' ∷ b'/' ∷ b'/' ∷ ((u.host ++ port_text u.port) ++ tail_text u)
unfolding build_text
build_text_split u = simp append_assoc

-- The host ends at the '/' that follows it, or at the ':' of a port.
parse_host-build :
    (u : UrlParser) (a s : Bytes) (c : ℕ)
    → Free (λ d. d == b':' || d == b'/') a
    → Free (λ d. d == b'[') a
    → (c == b'[') ≡ false
    → (c == b':' || c == b'/') ≡ true
    → parse_host u (a ++ c ∷ s) ≡ (record u { host = a }, c ∷ s)
unfolding parse_host bracket_flag
parse_host-build u a s c h k other stop =
    ap (take_host u) (
      ap
        (λ b.
          if b then scan_bracket (a ++ c ∷ s) else scan (λ d. d == b':' || d == b'/') (a ++ c ∷ s))
        (no_bracket_flag a k)
      ∙ scan_stop (λ d. d == b':' || d == b'/') a s c h stop)
    ∙ (unfold take_host in refl)
  where
    no_bracket_flag : (a : Bytes) → Free (λ d. d == b'[') a → bracket_flag (a ++ c ∷ s) ≡ false
    no_bracket_flag [] k = other
    no_bracket_flag (x ∷ a) (k, ks) = k

-- With a '/' behind it, the port ends there; without a port the text is left as it is.
parse_port-build :
    (u : UrlParser) (port s : Bytes)
    → u.port ≡ []
    → Free (λ d. d == b'/') port
    → parse_port u (port_text port ++ b'/' ∷ s) ≡ (record u { port = port }, b'/' ∷ s)
unfolding parse_port take_port
parse_port-build u [] s empty h = rw (sym empty) refl
parse_port-build u (c ∷ port) s empty h =
    ap (take_port u) (scan_stop (λ d. d == b'/') (c ∷ port) s b'/' h refl)

parse_host-ported :
    (u : UrlParser) (a port s : Bytes)
    → Free (λ d. d == b':' || d == b'/') a
    → Free (λ d. d == b'[') a
    → parse_host u (a ++ (port_text port ++ b'/' ∷ s))
      ≡ (record u { host = a }, port_text port ++ b'/' ∷ s)
parse_host-ported u a [] s h k = parse_host-build u a s b'/' h k refl refl
parse_host-ported u a (c ∷ port) s h k =
    parse_host-build u a (c ∷ port ++ b'/' ∷ s) b':' h k refl refl

parse_address-build :
    (u : UrlParser) (a port s : Bytes)
    → u.port ≡ []
    → Free (λ d. d == b':' || d == b'/') a
    → Free (λ d. d == b'[') a
    → Free (λ d. d == b'/') port
    → parse_address u (a ++ (port_text port ++ b'/' ∷ s))
      ≡ parse_path (record u { host = a; port = port }) (b'/' ∷ s)
unfolding parse_address take_address
parse_address-build u a port s empty h k p =
    ap (λ r. take_address (parse_port r.0 r.1)) (parse_host-ported u a port s h k)
    ∙ ap take_address (parse_port-build (record u { host = a }) port s empty p)

parse_user-none : (u : UrlParser) (s : Bytes) → has_user s ≡ false → parse_user u s ≡ (u, some s)
unfolding parse_user
parse_user-none u s h = rw h refl

-- What Parse gives back: the '/' before the path is part of it, and there is no user.
abbrev pub parsed : UrlParser → UrlParser
parsed u = record u { path = b'/' ∷ u.path; username = []; password = [] }

parse_after_scheme-build_text :
    (u : UrlParser)
    → IsBuildable u
    → parse_after_scheme (parse_scheme new_parser (build_text u)) ≡ (parsed u, true)
unfolding new_parser
parse_after_scheme-build_text u b =
    ap (λ s. parse_after_scheme (parse_scheme new_parser s)) (build_text_split u)
    ∙ ap parse_after_scheme (
        parse_scheme-build new_parser u.protocol ((u.host ++ port_text u.port) ++ tail_text u)
          b.scheme)
    ∙ ap parse_rest (
        parse_user-none v ((u.host ++ port_text u.port) ++ tail_text u) (
          has_user-slash (u.host ++ port_text u.port) (u.path ++ b'?' ∷ build_params [] u.params)
            b.no_user))
    ∙ ap (λ w. (w, true))
        (ap (parse_address v) (append_assoc u.host (port_text u.port) (tail_text u))
          ∙ parse_address-build v u.host u.port (u.path ++ b'?' ∷ build_params [] u.params) refl
              b.no_colon b.no_bracket b.no_slash
          ∙ parse_path-build (record v { host = u.host; port = u.port }) u.path u.params refl
              b.no_mark b.fit b.sorted)
  where
    v : UrlParser
    v = record new_parser { protocol = u.protocol }

parse_text-build_text :
    (u : UrlParser)
    → IsBuildable u
    → length (build_text u) < 2 ^ 31
    → parse_text new_parser (build_text u) ≡ some (parsed u, true)
unfolding parse_text
parse_text-build_text u b small =
    if_either (λ o. o ≡ some (parsed u, true)) (ltb (length (build_text u)) (2 ^ 31)) _ _
      (λ _. ap some (parse_after_scheme-build_text u b)) (λ large. ground (arith, large))

c_str-plain : (s : Bytes) → Free (λ c. c == 0) s → c_str s ≡ s
unfolding c_str
c_str-plain s h = ap (λ r. r.0) (scan_all (λ c. c == 0) s h)

-- For a buildable URL whose text has only bytes, none of them 0, and less than 2^32 / 3 of them, Build
-- returns. Parse of what it makes succeeds, on a new parser, and gives back protocol, host, port and
-- parameters; the path comes back with a '/' before it, and user and password, which Build leaves
-- out, are empty.
pub parse-build :
    (u : UrlParser)
    → IsBuildable u
    → All IsByte (build_text u)
    → Free (λ c. c == 0) (build_text u)
    → 3 * length (build_text u) < 2 ^ 32
    → (url : Bytes) × (build u ≡ some url) × (parse new_parser url ≡ some (parsed u, true))
unfolding parse build mathlib.Core.Option.bind
parse-build u b bytes plain small =
    let (url, built, decoded) = decode_url-encode_url (build_text u) bytes small in
    (
      url,
      built,
      ap (λ o. bind o (λ text. parse_text new_parser (c_str text))) decoded
          ∙ ap (parse_text new_parser) (c_str-plain (build_text u) plain)
          ∙ parse_text-build_text u b (omega arith),
    )
