-- ===== src/Utility/Reported.antt =====
-- What DiffNewOldMap of utils/utility.h reports.
use lin_socket_io.Base.{
  ℕ, zero, suc, ◌<◌, ◌≤◌, max, ◌≡◌, ◌≢◌, refl, ◌⊎◌, inl, inr, [], ◌∷◌, ◌==◌, ltb, if_either, length,
  All, All-map, arith,
}
use lin_socket_io.Utility.{
  Entries, Difference, push_added, push_removed, diff_loop, diff_new_old_map,
}

module _ {V : Type 0} where
  -- The keys are in order, and no key is there twice.
  abbrev pub IsSorted : Entries V → Type 0
  IsSorted [] = Unit
  IsSorted (x ∷ xs) = All (λ y. x.0 < y.0) xs × IsSorted xs

  abbrev pub IsAmong : Entries V → ℕ × V → Type 0
  IsAmong [] x = ⊥
  IsAmong (y ∷ ys) x = (x ≡ y) ⊎ IsAmong ys x

  -- No entry has the key.
  abbrev pub IsAbsent : Entries V → ℕ × V → Type 0
  IsAbsent ys x = All (λ y. y.0 ≢ x.0) ys

  all-IsAmong : (xs : Entries V) → All (IsAmong xs) xs
  all-IsAmong [] = tt
  all-IsAmong (x ∷ xs) = (inl refl, All-map _ _ xs (λ y here. inr here) (all-IsAmong xs))

  -- What is true of all entries of a map is true of those that are reported of it.
  diff_loop-from :
      (P Q : ℕ × V → Type 0) (n : ℕ) (new old : Entries V)
      → All P new
      → All Q old
      → All P (diff_loop n new old).added × All Q (diff_loop n new old).removed
  unfolding diff_loop
  diff_loop-from P Q zero new old p q = (tt, tt)
  diff_loop-from P Q (suc n) [] old p q = (tt, q)
  diff_loop-from P Q (suc n) (x ∷ new) [] p q = (p, tt)
  diff_loop-from P Q (suc n) (x ∷ new) (y ∷ old) (px, p) (qy, q) =
      let both = diff_loop-from P Q n new old p q in
      let only_old = diff_loop-from P Q n (x ∷ new) old (px, p) q in
      let only_new = diff_loop-from P Q n new (y ∷ old) p (qy, q) in
      if_either (λ d. All P (d.added) × All Q (d.removed)) (x.0 == y.0) (diff_loop n new old) _
        (λ _. both)
        (λ _.
          if_either (λ d. All P (d.added) × All Q (d.removed)) (ltb (y.0) (x.0))
            (push_removed y (diff_loop n (x ∷ new) old)) (push_added x (diff_loop n new (y ∷ old)))
            (λ _. (only_old.0, (qy, only_old.1))) (λ _. ((px, only_new.0), only_new.1)))

  IsAbsent-cons :
      (y : ℕ × V) (ys xs : Entries V)
      → All (λ x. y.0 ≢ x.0) xs
      → All (IsAbsent ys) xs
      → All (IsAbsent (y ∷ ys)) xs
  IsAbsent-cons y ys [] other h = tt
  IsAbsent-cons y ys (x ∷ xs) (o, other) (a, h) = ((o, a), IsAbsent-cons y ys xs other h)

  -- Later keys are greater than an earlier key, and so other keys.
  later : (k m : ℕ) (xs : Entries V) → m ≤ k → All (λ x. k < x.0) xs → All (λ x. m ≢ x.0) xs
  later k m xs h = All-map _ _ xs (λ x greater. omega arith)

  later-IsAbsent :
      (k : ℕ) (x : ℕ × V) (xs : Entries V) → x.0 ≤ k → All (λ y. k < y.0) xs → IsAbsent xs x
  later-IsAbsent k x xs h = All-map _ _ xs (λ y greater. omega arith)

  diff_loop-IsAbsent :
      (n : ℕ) (new old : Entries V)
      → IsSorted new
      → IsSorted old
      → All (IsAbsent old) (diff_loop n new old).added
        × All (IsAbsent new) (diff_loop n new old).removed
  unfolding diff_loop
  diff_loop-IsAbsent zero new old s t = (tt, tt)
  diff_loop-IsAbsent (suc n) [] old s t = (tt, All-map _ _ old (λ x a. tt) (all-IsAmong old))
  diff_loop-IsAbsent (suc n) (x ∷ new) [] s t =
      (All-map _ _ (x ∷ new) (λ y a. tt) (all-IsAmong (x ∷ new)), tt)
  diff_loop-IsAbsent (suc n) (x ∷ new) (y ∷ old) (lx, s) (ly, t) =
      let both = diff_loop-IsAbsent n new old s t in
      let only_old = diff_loop-IsAbsent n (x ∷ new) old (lx, s) t in
      let only_new = diff_loop-IsAbsent n new (y ∷ old) s (ly, t) in
      if_either Fine (x.0 == y.0) (diff_loop n new old) _
        (λ same.
          let greater = diff_loop-from (λ e. x.0 < e.0) (λ e. y.0 < e.0) n new old lx ly in
          (
            IsAbsent-cons y old _ (later (x.0) (y.0) _ (ground (arith, same)) (greater.0)) (both.0),
            IsAbsent-cons x new _ (later (y.0) (x.0) _ (ground (arith, same)) (greater.1)) (both.1),
          ))
        (λ differ.
          if_either Fine (ltb (y.0) (x.0)) (push_removed y (diff_loop n (x ∷ new) old))
            (push_added x (diff_loop n new (y ∷ old)))
            (λ less.
              let below : y.0 < x.0 = ground (arith, less) in
              let up = All-map _ (λ e. y.0 < e.0) new (λ e greater. omega arith) lx in
              let greater =
                diff_loop-from (λ e. y.0 < e.0) (λ e. y.0 < e.0) n (x ∷ new) old (below, up) ly in
              (
                IsAbsent-cons y old _ (later (y.0) (y.0) _ (omega arith) (greater.0)) (only_old.0),
                ((omega arith, later-IsAbsent (x.0) y new (omega arith) lx), only_old.1),
              ))
            (λ more.
              let below : x.0 < y.0 = ground (arith, more, differ) in
              let up = All-map _ (λ e. x.0 < e.0) old (λ e greater. omega arith) ly in
              let greater =
                diff_loop-from (λ e. x.0 < e.0) (λ e. x.0 < e.0) n new (y ∷ old) lx (below, up) in
              (
                ((omega arith, later-IsAbsent (y.0) x old (omega arith) ly), only_new.0),
                IsAbsent-cons x new _ (later (x.0) (x.0) _ (omega arith) (greater.1)) (only_new.1),
              )))
    where
      Fine : Difference V → Type 0
      Fine d = All (IsAbsent (y ∷ old)) (d.added) × All (IsAbsent (x ∷ new)) (d.removed)

  both_hold :
      (P Q : ℕ × V → Type 0) (xs : Entries V) → All P xs → All Q xs → All (λ x. P x × Q x) xs
  both_hold P Q [] p q = tt
  both_hold P Q (x ∷ xs) (px, p) (qx, q) = ((px, qx), both_hold P Q xs p q)

  -- DiffNewOldMap of two maps: what it reports as added is an entry of the new map, with a key that
  -- the old map does not have, and what it reports as removed is one of the old map, with a key
  -- that the new map does not have.
  pub diff_new_old_map_lem :
      (new old : Entries V)
      → IsSorted new
      → IsSorted old
      → All (λ x. IsAmong new x × IsAbsent old x) (diff_new_old_map new old).added
        × All (λ x. IsAmong old x × IsAbsent new x) (diff_new_old_map new old).removed
  unfolding diff_new_old_map
  diff_new_old_map_lem new old s t =
      let n = max (length new) (length old) in
      let from =
        diff_loop-from (IsAmong new) (IsAmong old) n new old (all-IsAmong new) (all-IsAmong old) in
      let absent = diff_loop-IsAbsent n new old s t in
      (
        both_hold (IsAmong new) (IsAbsent old) _ (from.0) (absent.0),
        both_hold (IsAmong old) (IsAbsent new) _ (from.1) (absent.1),
      )
