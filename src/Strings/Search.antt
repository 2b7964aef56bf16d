-- ===== src/Strings/Search.antt =====
-- Searching, splitting, counting and replacing of utils/string_helper.h, for any separator.
use lin_socket_io.Base.{
  ℕ, zero, suc, ◌+◌, ◌≤◌, ◌≡◌, ◌≢◌, refl, sym, ap, ap₂, ◌∙◌, subst, Bool-cases, Option, none, some,
  Option-cases, some-eq-some, inl, inr, List, [], ◌∷◌, ◌++◌, append_assoc, arith, ◌==◌, Bytes,
  length, length-append, All,
}
use lin_socket_io.Strings.{
  Separator, char_at, string_at, found_at, find_first, split_found, split_loop, count_found,
  count_loop, replace_found, replace_loop,
}

-- `parts` with `bs` between them
unfoldable pub join : Bytes → List Bytes → Bytes
join bs [] = []
join bs (p ∷ []) = p
join bs (p ∷ q ∷ ps) = p ++ (bs ++ join bs (q ∷ ps))

-- `bs` stands nowhere in a string.
abbrev pub Lacks : Bytes → Bytes → Type 0
Lacks bs xs = (before after : Bytes) → ¬ (xs ≡ before ++ (bs ++ after))

-- A separator finds the characters `b ∷ bs` and nothing else, whatever follows.
pub record IsSeparator (sep : Separator) (b : ℕ) (bs : Bytes) : Type 0 where
  pub finds : (xs rest : Bytes) → sep xs ≡ some rest → xs ≡ b ∷ bs ++ rest
  pub found : (rest : Bytes) → sep (b ∷ bs ++ rest) ≡ some rest

pub char_at-IsSeparator : (ch : ℕ) → IsSeparator (char_at ch) ch []
unfolding char_at
char_at-IsSeparator ch = record { finds = finds; found = λ rest. ground arith }
  where
    finds : (xs rest : Bytes) → char_at ch xs ≡ some rest → xs ≡ ch ∷ rest
    finds [] rest e = cc
    finds (x ∷ xs) rest e = elim (Bool-cases (x == ch)) [
      | inl is ↦ ap₂ ◌∷◌ (ground (arith, is)) (ground (arith, is, e))
      | inr isnt ↦ ground (arith, isnt, e)
    ]

string_at-finds : (str xs rest : Bytes) → string_at str xs ≡ some rest → xs ≡ str ++ rest
unfolding string_at
string_at-finds [] xs rest e = some-eq-some e
string_at-finds (s ∷ str) [] rest e = cc
string_at-finds (s ∷ str) (x ∷ xs) rest e = elim (Bool-cases (x == s)) [
  | inl is ↦ ap₂ ◌∷◌ (ground (arith, is)) (string_at-finds str xs rest (ground (arith, is, e)))
  | inr isnt ↦ ground (arith, isnt, e)
]

string_at-found : (str rest : Bytes) → string_at str (str ++ rest) ≡ some rest
unfolding string_at
string_at-found [] rest = refl
string_at-found (s ∷ str) rest = ground (arith, string_at-found str rest)

pub string_at-IsSeparator : (s : ℕ) (str : Bytes) → IsSeparator (string_at (s ∷ str)) s str
string_at-IsSeparator s str = record {
  finds = string_at-finds (s ∷ str);
  found = string_at-found (s ∷ str);
}

pub found_at-none :
    (x : ℕ) (hit : Option Bytes) (later : Option (Bytes × Bytes))
    → found_at x hit later ≡ none
    → (hit ≡ none) × (later ≡ none)
unfolding found_at
found_at-none x (some rest) later e = cc
found_at-none x none none e = (refl, refl)
found_at-none x none (some found) e = cc

-- The parts of a split are never none at all, so that `bs` stands behind one in front of them.
join-split_loop_cons :
    (sep : Separator) (bs s : Bytes) (fuel : ℕ) (cur : Bytes)
    → join bs (s ∷ split_loop sep fuel cur) ≡ s ++ (bs ++ join bs (split_loop sep fuel cur))
unfolding join split_loop split_found
join-split_loop_cons sep bs s zero cur = refl
join-split_loop_cons sep bs s (suc fuel) cur = elim (Option-cases (find_first sep cur)) [
  | inl e ↦ rw e refl
  | inr (p, e) ↦ rw e refl
]

module _ (sep : Separator) (b : ℕ) (bs : Bytes) (is : IsSeparator sep b bs) where
  -- What is found at the front is found there in a longer string too.
  extends : (xs rest more : Bytes) → sep xs ≡ some rest → sep (xs ++ more) ≡ some (rest ++ more)
  extends xs rest more e =
      ap sep (ap (λ zs. zs ++ more) (is.finds xs rest e) ∙ append_assoc (b ∷ bs) rest more)
      ∙ is.found (rest ++ more)

  misses : (xs more : Bytes) → sep (xs ++ more) ≡ none → sep xs ≡ none
  misses xs more miss = elim (Option-cases (sep xs)) [
    | inl e ↦ e
    | inr (rest, e) ↦ (let longer = extends xs rest more e in cc)
  ]

  -- What a search finds, and that it is the first.
  pub find_first-cuts :
      (xs s rest : Bytes)
      → find_first sep xs ≡ some (s, rest)
      → (xs ≡ s ++ (b ∷ bs ++ rest)) × (find_first sep s ≡ none)
  unfolding find_first found_at
  find_first-cuts [] s rest e = cc
  find_first-cuts (x ∷ xs) s rest e =
      step (λ t after l. find_first-cuts xs t after l) (sep (x ∷ xs)) refl (find_first sep xs) refl
        e
    where
      Cut : Bytes × Bytes → Type 0
      Cut p = (x ∷ xs ≡ p.0 ++ (b ∷ bs ++ p.1)) × (find_first sep p.0 ≡ none)

      step :
          ((t after : Bytes)
            → find_first sep xs ≡ some (t, after)
            → (xs ≡ t ++ (b ∷ bs ++ after)) × (find_first sep t ≡ none))
          → (hit : Option Bytes) → sep (x ∷ xs) ≡ hit
          → (later : Option (Bytes × Bytes)) → find_first sep xs ≡ later
          → found_at x hit later ≡ some (s, rest)
          → Cut (s, rest)
      step ih (some after) h later l e =
          subst Cut (some-eq-some e) (is.finds (x ∷ xs) after h, refl)
      step ih none h none l e = cc
      step ih none h (some (t, after)) l e =
          let cut = ih t after l in
          let miss =
            misses (x ∷ t) (b ∷ bs ++ after) (subst (λ zs. sep (x ∷ zs) ≡ none) (cut.0) h) in
          subst Cut (some-eq-some e) (ap (◌∷◌ x) (cut.0), ap₂ (found_at x) miss (cut.1))

  find_first-found : (before after : Bytes) → find_first sep (before ++ (b ∷ bs ++ after)) ≢ none
  unfolding find_first found_at
  find_first-found [] after e =
      (let hit = is.found after in let miss = (found_at-none b _ _ e).0 in cc)
  find_first-found (x ∷ before) after e = find_first-found before after (found_at-none x _ _ e).1

  find_first-Lacks : (xs : Bytes) → find_first sep xs ≡ none → Lacks (b ∷ bs) xs
  find_first-Lacks xs none_found before after e =
      find_first-found before after (ap (find_first sep) (sym e) ∙ none_found)

  pub join-split_loop : (fuel : ℕ) (cur : Bytes) → join (b ∷ bs) (split_loop sep fuel cur) ≡ cur
  unfolding join split_loop split_found
  join-split_loop zero cur = refl
  join-split_loop (suc fuel) cur = elim (Option-cases (find_first sep cur)) [
    | inl e ↦ rw e refl
    | inr ((s, rest), e) ↦
        rw (e, join-split_loop_cons sep (b ∷ bs) s fuel rest, join-split_loop fuel rest)
          (sym (find_first-cuts cur s rest e).0)
  ]

  pub split_loop-Lacks :
      (fuel : ℕ) (cur : Bytes) → length cur ≤ fuel → All (Lacks (b ∷ bs)) (split_loop sep fuel cur)
  unfolding split_loop split_found find_first
  split_loop-Lacks zero [] enough = (find_first-Lacks [] refl, tt)
  split_loop-Lacks zero (x ∷ cur) enough = omega arith
  split_loop-Lacks (suc fuel) cur enough = elim (Option-cases (find_first sep cur)) [
    | inl e ↦ rw e (find_first-Lacks cur e, tt)
    | inr ((s, rest), e) ↦
        let cut = find_first-cuts cur s rest e in
        let size = ap length (cut.0) ∙ length-append s (b ∷ bs ++ rest) in
        let more = length-append (b ∷ bs) rest in
        rw e (find_first-Lacks s (cut.1), split_loop-Lacks fuel rest (omega arith))
  ]

pub length-split_loop :
    (sep : Separator) (fuel : ℕ) (cur : Bytes)
    → length (split_loop sep fuel cur) ≡ count_loop sep fuel cur + 1
unfolding split_loop split_found count_loop count_found
length-split_loop sep zero cur = refl
length-split_loop sep (suc fuel) cur = elim (Option-cases (find_first sep cur)) [
  | inl e ↦ rw e refl
  | inr ((s, rest), e) ↦ rw e (omega (arith, length-split_loop sep fuel rest))
]

pub replace_loop_lem :
    (sep : Separator) (dst : Bytes) (fuel : ℕ) (cur : Bytes)
    → replace_loop sep dst fuel cur ≡ join dst (split_loop sep fuel cur)
unfolding replace_loop replace_found split_loop split_found join
replace_loop_lem sep dst zero cur = refl
replace_loop_lem sep dst (suc fuel) cur = elim (Option-cases (find_first sep cur)) [
  | inl e ↦ rw e refl
  | inr ((s, rest), e) ↦
      rw (e, join-split_loop_cons sep dst s fuel rest, replace_loop_lem sep dst fuel rest) refl
]
