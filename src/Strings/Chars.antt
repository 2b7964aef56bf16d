-- ===== src/Strings/Chars.antt =====
-- Split, Count and Replace of utils/string_helper.h with a character.
use lin_socket_io.Base.{
  ◌<◌, take, ◌^◌, ℕ, zero, suc, ◌+◌, ◌≤◌, ◌≡◌, ◌≢◌, refl, sym, ap, ap₂, ◌∙◌, subst, false,
  Bool-cases, none, some, Option-cases, inl, inr, [], ◌∷◌, ◌++◌, arith, ◌==◌, if◌then◌else◌,
  if_either, Bytes, length, length-append, All, map,
}
use lin_socket_io.Strings.{
  int_rounds, count_char, char_at, found_at, find_first, split_loop, is_empty, split_char,
  count_found, count_loop, replace_found, replace_loop, count_in, replace_char,
}
use lin_socket_io.Strings.Search.{
  found_at-none, join, Lacks, char_at-IsSeparator, find_first-cuts, join-split_loop,
  split_loop-Lacks, length-split_loop, replace_loop_lem,
}
use mathlib.Core.List.{map-append}

split_char-cons :
    (dat : Bytes) (ch : ℕ)
    → is_empty dat ≡ false
    → ch ≢ 0
    → split_char dat ch ≡ split_loop (char_at ch) (length dat) dat
unfolding split_char
split_char-cons [] ch e real = cc
split_char-cons (x ∷ dat) ch e real = ground arith

count_in-append : (xs ys : Bytes) (c : ℕ) → count_in (xs ++ ys) c ≡ count_in xs c + count_in ys c
unfolding count_in
count_in-append [] ys c = omega arith
count_in-append (x ∷ xs) ys c = ground (arith, count_in-append xs ys c)

-- Where no search finds the character, none is counted, and none is replaced.
char_free :
    (c : ℕ) (xs : Bytes)
    → find_first (char_at c) xs ≡ none
    → (count_in xs c ≡ 0) × ((d : ℕ) → map (λ x. if x == c then d else x) xs ≡ xs)
unfolding count_in find_first char_at found_at
char_free c [] e = (refl, λ d. refl)
char_free c (x ∷ xs) e = elim (Bool-cases (x == c)) [
  | inl is ↦
      (let miss = (found_at-none x (char_at c (x ∷ xs)) (find_first (char_at c) xs) e).0 in
        ground (arith, is, miss))
  | inr isnt ↦
      let none_later = (found_at-none x (char_at c (x ∷ xs)) (find_first (char_at c) xs) e).1 in
      let ih = char_free c xs none_later in rw isnt (ih.0, λ d. ap (◌∷◌ x) (ih.1 d))
]

-- What one round of a loop cuts off.
abbrev Rest : ℕ → Bytes → ℕ → Bytes → Bytes → Type 0
Rest c cur fuel s rest =
    (count_in cur c ≡ 1 + count_in rest c)
    × ((d : ℕ)
        → map (λ x. if x == c then d else x) cur
          ≡ s ++ (d ∷ map (λ x. if x == c then d else x) rest))
    × (length rest ≤ fuel)

cuts-Rest :
    (c : ℕ) (cur : Bytes) (fuel : ℕ) (s rest : Bytes)
    → find_first (char_at c) cur ≡ some (s, rest)
    → length cur ≤ suc fuel
    → Rest c cur fuel s rest
unfolding count_in
cuts-Rest c cur fuel s rest e enough =
    let cut = find_first-cuts (char_at c) c [] (char_at-IsSeparator c) cur s rest e in
    let free = char_free c s (cut.1) in
    let size = ap length (cut.0) ∙ length-append s (c ∷ rest) in
    let counted = ap (λ xs. count_in xs c) (cut.0) ∙ count_in-append s (c ∷ rest) c in
    (
      ground (arith, counted, free.0),
      λ d.
          let put : ℕ → ℕ = λ x. if x == c then d else x in
          ap (map put) (cut.0)
          ∙ map-append put s (c ∷ rest)
          ∙ ap₂ ◌++◌ (free.1 d) (ap (λ y. y ∷ map put rest) (ground arith)),
      omega arith,
    )

count_loop-count_in :
    (c fuel : ℕ) (cur : Bytes)
    → length cur ≤ fuel
    → count_loop (char_at c) fuel cur ≡ count_in cur c
unfolding count_loop count_found count_in
count_loop-count_in c zero [] enough = refl
count_loop-count_in c zero (x ∷ cur) enough = omega arith
count_loop-count_in c (suc fuel) cur enough = elim (Option-cases (find_first (char_at c) cur)) [
  | inl e ↦ rw e (sym (char_free c cur e).0)
  | inr ((s, rest), e) ↦
      let cut = cuts-Rest c cur fuel s rest e enough in
      rw e (ap (λ n. 1 + n) (count_loop-count_in c fuel rest (cut.2)) ∙ sym (cut.0))
]

replace_loop-map :
    (c d fuel : ℕ) (cur : Bytes)
    → length cur ≤ fuel
    → replace_loop (char_at c) (d ∷ []) fuel cur ≡ map (λ x. if x == c then d else x) cur
unfolding replace_loop replace_found
replace_loop-map c d zero [] enough = refl
replace_loop-map c d zero (x ∷ cur) enough = absurd (omega arith)
replace_loop-map c d (suc fuel) cur enough = elim (Option-cases (find_first (char_at c) cur)) [
  | inl e ↦ rw e (sym ((char_free c cur e).1 d))
  | inr ((s, rest), e) ↦
      let cut = cuts-Rest c cur fuel s rest e enough in
      rw e (ap (λ xs. s ++ (d ∷ xs)) (replace_loop-map c d fuel rest (cut.2)) ∙ sym (cut.1 d))
]

count_char-small : (dat : Bytes) (c : ℕ) → length dat < 2 ^ 31 → count_char dat c ≡ count_in dat c
unfolding count_char int_rounds
count_char-small dat c small =
    ap (λ n. count_in (take n dat) c) whole ∙ ap (λ xs. count_in xs c) (take_whole dat)
  where
    whole : int_rounds (length dat) ≡ length dat
    whole = ground arith

    take_whole : (xs : Bytes) → take (length xs) xs ≡ xs
    take_whole [] = refl
    take_whole (x ∷ xs) = ap (◌∷◌ x) (take_whole xs)

-- Split, Count and Replace of the same character, which is not 0, in data that is not empty and has
-- less than 2^31 characters. The parts put together again, with that character between them, are the
-- data; it stands in none of the parts; Count is one less than the number of parts; Replace by
-- another character puts the parts together with that one between them.
pub split_char_lem :
    (dat : Bytes) (ch d : ℕ)
    → is_empty dat ≡ false
    → ch ≢ 0
    → length dat < 2 ^ 31
    → (join (ch ∷ []) (split_char dat ch) ≡ dat)
      × All (Lacks (ch ∷ [])) (split_char dat ch)
      × (length (split_char dat ch) ≡ count_char dat ch + 1)
      × (replace_char dat ch d ≡ join (d ∷ []) (split_char dat ch))
unfolding replace_char
split_char_lem dat ch d full real small =
    let is = char_at-IsSeparator ch in
    let whole = join-split_loop (char_at ch) ch [] is (length dat) dat in
    let counted =
      length-split_loop (char_at ch) (length dat) dat
      ∙ ap (λ n. n + 1)
          (count_loop-count_in ch (length dat) dat (omega arith)
            ∙ sym (count_char-small dat ch small)) in
    rw (split_char-cons dat ch full real) (
      whole,
      split_loop-Lacks (char_at ch) ch [] is (length dat) dat (omega arith),
      counted,
      if_either (λ xs. xs ≡ join (d ∷ []) (split_loop (char_at ch) (length dat) dat)) (ch == d) dat
          _
          (λ same.
            subst (λ k. dat ≡ join (k ∷ []) (split_loop (char_at ch) (length dat) dat))
              (ground (arith, same)) (sym whole))
          (λ other.
            sym (replace_loop-map ch d (length dat) dat (omega arith))
            ∙ replace_loop_lem (char_at ch) (d ∷ []) (length dat) dat),
    )
