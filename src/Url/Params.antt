-- ===== src/Url/Params.antt =====
-- The `map<string,string>` of UrlParser: in the order of the names, byte by byte.
pub mod Order
use lin_socket_io.Base.{
  ℕ, Bool, true, false, ◌&&◌, ◌||◌, List, [], ◌∷◌, ltb, ◌==◌, if◌then◌else◌, Bytes,
}

abbrev pub Params : Type 0
Params = List (Bytes × Bytes)

-- `operator<` of std::string, for bytes
unfoldable pub less : Bytes → Bytes → Bool
less s [] = false
less [] (d ∷ t) = true
less (c ∷ s) (d ∷ t) = ltb c d || ((c == d) && less s t)

-- `_params[name] = value`
pub assign : Bytes → Bytes → Params → Params
assign name value [] = (name, value) ∷ []
assign name value ((n, v) ∷ rest) =
    if less n name
    then (n, v) ∷ assign name value rest
    else if less name n
    then (name, value) ∷ (n, v) ∷ rest
    else (name, value) ∷ rest

-- GetParam: "" for a name that is not there
pub get_param : Bytes → Params → Bytes
get_param key [] = []
get_param key ((n, v) ∷ rest) = if less n key || less key n then get_param key rest else v
