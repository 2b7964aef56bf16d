-- ===== src/Url/Parser/Query.antt =====
-- The query: parse_query gives back the parameters that build_params wrote.
use lin_socket_io.Base.{
  ℕ, ◌≡◌, refl, sym, ap, ◌∙◌, Bool, true, false, [], ◌∷◌, ◌++◌, append-nil, append_assoc, ◌==◌,
  Bytes, All, All-append,
}
use lin_socket_io.Url.Params.{Params, less, assign}
use lin_socket_io.Url.Params.Order.{Before, After, IsSorted, assign_last}
use lin_socket_io.Url.Parser.{
  UrlParser, build_params, scan, keep_param, keep_found, take_path, parse_query, parse_path,
}

-- No byte of the string is one that the test names.
abbrev pub Free : (ℕ → Bool) → Bytes → Type 0
Free stop s = All (λ c. stop c ≡ false) s

pub scan_stop :
    (stop : ℕ → Bool) (a s : Bytes) (c : ℕ)
    → Free stop a
    → stop c ≡ true
    → scan stop (a ++ c ∷ s) ≡ (a, c ∷ s)
unfolding scan
scan_stop stop [] s c h k = rw k refl
scan_stop stop (x ∷ a) s c (p, h) k = rw (p, scan_stop stop a s c h k) refl

pub scan_all : (stop : ℕ → Bool) (a : Bytes) → Free stop a → scan stop a ≡ (a, [])
unfolding scan
scan_all stop [] h = refl
scan_all stop (x ∷ a) (p, h) = rw (p, scan_all stop a h) refl

keep_param-pair :
    (n v : Bytes) (ps : Params)
    → Free (λ c. c == b'=') n
    → keep_param (n ++ b'=' ∷ v) ps ≡ assign n v ps
unfolding keep_param
keep_param-pair n v ps h =
    ap (λ found. keep_found found ps) (scan_stop (λ c. c == b'=') n v b'=' h refl)
    ∙ (unfold keep_found in refl)

parse_query-plain :
    (c : ℕ) (param s : Bytes) (ps : Params)
    → (c == b'&') ≡ false
    → parse_query param (c ∷ s) ps ≡ parse_query (param ++ c ∷ []) s ps
unfolding parse_query
parse_query-plain c param s ps h = rw h refl

parse_query-Free :
    (a param s : Bytes) (ps : Params)
    → Free (λ c. c == b'&') a
    → parse_query param (a ++ s) ps ≡ parse_query (param ++ a) s ps
unfolding parse_query
parse_query-Free [] param s ps h = rw (append-nil param) refl
parse_query-Free (c ∷ a) param s ps (p, h) =
    parse_query-plain c param (a ++ s) ps p
    ∙ parse_query-Free a (param ++ c ∷ []) s ps h
    ∙ ap (λ q. parse_query q s ps) (append_assoc param (c ∷ []) a)

-- A parameter as it stands in the query, and one that can stand there
abbrev pub param_text : Bytes × Bytes → Bytes
param_text (n, v) = n ++ b'=' ∷ v

abbrev pub IsParam : Bytes × Bytes → Type 0
IsParam p = Free (λ c. c == b'=') p.0 × Free (λ c. c == b'&') (param_text p)

parse_query-last :
    (p : Bytes × Bytes) (acc : Params)
    → IsParam p
    → parse_query [] (param_text p) acc ≡ assign p.0 p.1 acc
parse_query-last p acc (h, k) =
    ap (λ s. parse_query [] s acc) (sym (append-nil (param_text p)))
    ∙ parse_query-Free (param_text p) [] [] acc k
    ∙ (unfold parse_query in keep_param-pair p.0 p.1 acc h)

parse_query-next :
    (p : Bytes × Bytes) (s : Bytes) (acc : Params)
    → IsParam p
    → parse_query [] (param_text p ++ b'&' ∷ s) acc ≡ parse_query [] s (assign p.0 p.1 acc)
parse_query-next p s acc (h, k) =
    parse_query-Free (param_text p) [] (b'&' ∷ s) acc k
    ∙ (unfold parse_query in ap (λ ps. parse_query [] s ps) (keep_param-pair p.0 p.1 acc h))

-- After one more name the others still come later than all that are kept.
Before-append :
    (n v : Bytes) (acc t : Params)
    → All (λ p. Before p.0 acc) t
    → After n t
    → All (λ p. Before p.0 (acc ++ (n, v) ∷ [])) t
Before-append n v acc [] h k = tt
Before-append n v acc ((m, w) ∷ t) (h, hs) (k, ks) =
    (All-append (λ p. less p.0 m ≡ true) acc ((n, v) ∷ []) h (k, tt), Before-append n v acc t hs ks)

build_params_one : (n v : Bytes) → build_params [] ((n, v) ∷ []) ≡ param_text (n, v)
unfolding build_params
build_params_one n v = append-nil (param_text (n, v))

build_params_more :
    (n v : Bytes) (q : Bytes × Bytes) (t : Params)
    → build_params [] ((n, v) ∷ q ∷ t) ≡ param_text (n, v) ++ b'&' ∷ build_params [] (q ∷ t)
unfolding build_params
build_params_more n v q t = refl

parse_query-build_params :
    (t acc : Params)
    → All IsParam t
    → IsSorted t
    → All (λ p. Before p.0 acc) t
    → parse_query [] (build_params [] t) acc ≡ acc ++ t
parse_query-build_params [] acc fit sorted later =
    (unfold build_params parse_query keep_param keep_found scan in sym (append-nil acc))
parse_query-build_params ((n, v) ∷ []) acc (fit, fits) sorted (late, later) =
    ap (λ s. parse_query [] s acc) (build_params_one n v)
    ∙ parse_query-last (n, v) acc fit
    ∙ assign_last n v acc late
parse_query-build_params ((n, v) ∷ q ∷ t) acc (fit, fits) (after, sorted) (late, later) =
    let rest : Bytes = build_params [] (q ∷ t) in
    ap (λ s. parse_query [] s acc) (build_params_more n v q t)
    ∙ parse_query-next (n, v) rest acc fit
    ∙ ap (λ ps. parse_query [] rest ps) (assign_last n v acc late)
    ∙ parse_query-build_params (q ∷ t) (acc ++ (n, v) ∷ []) fits sorted
        (Before-append n v acc (q ∷ t) later after)
    ∙ append_assoc acc ((n, v) ∷ []) (q ∷ t)

pub parse_path-build :
    (u : UrlParser) (path : Bytes) (t : Params)
    → u.params ≡ []
    → Free (λ c. c == b'?') path
    → All IsParam t
    → IsSorted t
    → parse_path u (b'/' ∷ path ++ b'?' ∷ build_params [] t)
      ≡ record u { path = b'/' ∷ path; params = t }
unfolding parse_path
parse_path-build u path t empty h fit sorted =
    ap (take_path u)
      (scan_stop (λ c. c == b'?') (b'/' ∷ path) (build_params [] t) b'?' (refl, h) refl)
    ∙ (unfold take_path in
        rw (empty, parse_query-build_params t [] fit sorted (Before-empty t)) refl)
  where
    Before-empty : (t : Params) → All (λ p. Before p.0 []) t
    Before-empty [] = tt
    Before-empty (p ∷ t) = (tt, Before-empty t)
