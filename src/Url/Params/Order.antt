-- ===== src/Url/Params/Order.antt =====
-- Names in order: an assignment of a later name appends, and what is assigned is found.
use lin_socket_io.Base.{◌≡◌, refl, true, false, [], ◌∷◌, ◌++◌, arith, Bytes, All}
use lin_socket_io.Url.Params.{Params, less, assign, get_param}

-- Every name is less than the name k.
abbrev pub Before : Bytes → Params → Type 0
Before k t = All (λ p. less p.0 k ≡ true) t

abbrev pub After : Bytes → Params → Type 0
After k t = All (λ p. less k p.0 ≡ true) t

-- The names are in strict order.
abbrev pub IsSorted : Params → Type 0
IsSorted [] = Unit
IsSorted ((n, v) ∷ t) = After n t × IsSorted t

pub assign_last : (k w : Bytes) (t : Params) → Before k t → assign k w t ≡ t ++ (k, w) ∷ []
unfolding assign
assign_last k w [] h = refl
assign_last k w ((n, v) ∷ t) (p, h) = rw (p, assign_last k w t h) refl

less-irreflexive : (s : Bytes) → less s s ≡ false
unfolding less
less-irreflexive [] = refl
less-irreflexive (c ∷ s) = ground (arith, less-irreflexive s)

pub less_trans : (s t u : Bytes) → less s t ≡ true → less t u ≡ true → less s u ≡ true
unfolding less
less_trans s [] u h k = cc
less_trans s t [] h k = cc
less_trans [] (d ∷ t) (e ∷ u) h k = refl
less_trans (c ∷ s) (d ∷ t) (e ∷ u) h k = ground (arith, less_trans s t u)

-- An assigned value is what GetParam gives.
pub get_param-assign : (k w : Bytes) (t : Params) → get_param k (assign k w t) ≡ w
unfolding get_param assign
get_param-assign k w [] = rw less-irreflexive refl
get_param-assign k w ((n, v) ∷ t) = ground (arith, less-irreflexive k, get_param-assign k w t)
