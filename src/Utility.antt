-- ===== src/Utility.antt =====
-- utils/utility.h: DiffNewOldMap. A map is the list of its entries in the order of their keys, which
-- is the order of its iterators; a value is left as it is.
pub mod Reported
mod Runs
use lin_socket_io.Base.{
  ℕ, zero, suc, ◌<◌, max, Bool, List, [], ◌∷◌, ◌==◌, ltb, if◌then◌else◌, length,
}

abbrev pub Entries : Type 0 → Type 0
Entries V = List (ℕ × V)

-- the vectors add and rem
pub record Difference (V : Type 0) : Type 0 where
  pub added : Entries V
  pub removed : Entries V

module _ {V : Type 0} where
  abbrev pub push_added : ℕ × V → Difference V → Difference V
  push_added x d = record { added = x ∷ d.added; removed = d.removed }

  abbrev pub push_removed : ℕ × V → Difference V → Difference V
  push_removed y d = record { added = d.added; removed = y ∷ d.removed }

  -- the loop, with the rounds that are left, from two iterators on
  pub diff_loop : ℕ → Entries V → Entries V → Difference V
  diff_loop zero new old = record { added = []; removed = [] }
  diff_loop (suc n) [] old = record { added = []; removed = old }
  diff_loop (suc n) (x ∷ new) [] = record { added = x ∷ new; removed = [] }
  diff_loop (suc n) (x ∷ new) (y ∷ old) =
      let both = diff_loop n new old in
      let only_old = diff_loop n (x ∷ new) old in
      let only_new = diff_loop n new (y ∷ old) in
      if x.0 == y.0
      then both
      else if ltb (y.0) (x.0)
      then push_removed y only_old
      else push_added x only_new

  pub diff_new_old_map : Entries V → Entries V → Difference V
  diff_new_old_map new old = diff_loop (max (length new) (length old)) new old
