-- ===== src/Base/Maps.antt =====
-- std::map with an integer key, as an association list in which a key stands once.
use Prim.Native.Nat.{ℕ, ◌+◌, ◌≤◌, ◌<◌}
use mathlib.Core.Path.{◌≡◌, refl}
use mathlib.Core.Option.{Option, none, some}
use mathlib.Core.List.{List, [], ◌∷◌}
use native.Mathlib.Omega.{arith}
use lin_socket_io.Base.Tests.{◌==◌, if◌then◌else◌}
use lin_socket_io.Base.Lists.{length}

abbrev pub Table {ℓ} : Type ℓ → Type ℓ
Table V = List (ℕ × V)

module _ {ℓ} {V : Type ℓ} where
  unfoldable pub find : ℕ → Table V → Option V
  find k [] = none
  find k ((j, v) ∷ t) = if j == k then some v else find k t

  -- `t[k] = v`
  unfoldable pub insert : ℕ → V → Table V → Table V
  insert k v [] = (k, v) ∷ []
  insert k v ((j, w) ∷ t) = if j == k then (k, v) ∷ t else (j, w) ∷ insert k v t

  -- `t.erase(k)`
  unfoldable pub remove : ℕ → Table V → Table V
  remove k [] = []
  remove k ((j, w) ∷ t) = if j == k then remove k t else (j, w) ∷ remove k t

  pub find-insert :
      (k j : ℕ) (v : V) (t : Table V)
      → find j (insert k v t) ≡ (if k == j then some v else find j t)
  unfolding find insert
  find-insert k j v [] = refl
  find-insert k j v ((i, w) ∷ t) = ground (arith, find-insert k j v t)

  pub find-remove :
      (k j : ℕ) (t : Table V) → find j (remove k t) ≡ (if k == j then none else find j t)
  unfolding find remove
  find-remove k j [] = ground arith
  find-remove k j ((i, w) ∷ t) = ground (arith, find-remove k j t)

  pub length-remove : (k : ℕ) (t : Table V) → length (remove k t) ≤ length t
  unfolding remove
  length-remove k [] = omega arith
  length-remove k ((i, w) ∷ t) = ground (arith, length-remove k t)

  -- A removal takes an entry away if the key is there.
  pub length-remove_found :
      (k : ℕ) (v : V) (t : Table V) → find k t ≡ some v → length (remove k t) < length t
  unfolding find remove
  length-remove_found k v [] h = cc
  length-remove_found k v ((i, w) ∷ t) h =
      ground (arith, length-remove_found k v t, length-remove k t)

  pub length-insert_new :
      (k : ℕ) (v : V) (t : Table V) → find k t ≡ none → length (insert k v t) ≡ length t + 1
  unfolding find insert
  length-insert_new k v [] h = omega arith
  length-insert_new k v ((i, w) ∷ t) h = ground (arith, length-insert_new k v t)
