-- ===== src/Strings/Trimmed.antt =====
-- Trim, TrimLeft and TrimRight of utils/string_helper.h, of a character and of a string of characters.
use lin_socket_io.Base.{
  ℕ, ◌≡◌, refl, sym, ap, ◌∙◌, Bool, true, false, none, some, [], ◌∷◌, ◌++◌, append_assoc, Bytes,
  All,
}
use lin_socket_io.Strings.{
  first_not_of, last_at, last_not_of, or_same, trim_left_of, trim_right_of, trim_of,
}

-- Every character is one of those to trim.
abbrev pub AreAll : (ℕ → Bool) → Bytes → Type 0
AreAll of xs = All (λ x. of x ≡ true) xs

first_not_of-skips :
    (of : ℕ → Bool) (before : Bytes) (x : ℕ) (xs : Bytes)
    → AreAll of before
    → of x ≡ false
    → first_not_of of (before ++ (x ∷ xs)) ≡ some (x ∷ xs)
unfolding first_not_of
first_not_of-skips of [] x xs blank other = rw other refl
first_not_of-skips of (b ∷ before) x xs (is, blank) other =
    rw is (first_not_of-skips of before x xs blank other)

first_not_of-none : (of : ℕ → Bool) (xs : Bytes) → AreAll of xs → first_not_of of xs ≡ none
unfolding first_not_of
first_not_of-none of [] blank = refl
first_not_of-none of (x ∷ xs) (is, blank) = rw is (first_not_of-none of xs blank)

last_not_of-none : (of : ℕ → Bool) (xs : Bytes) → AreAll of xs → last_not_of of xs ≡ none
unfolding last_not_of last_at
last_not_of-none of [] blank = refl
last_not_of-none of (x ∷ xs) (is, blank) = rw (last_not_of-none of xs blank) (rw is refl)

last_not_of-skips :
    (of : ℕ → Bool) (ys : Bytes) (y : ℕ) (after : Bytes)
    → AreAll of after
    → of y ≡ false
    → last_not_of of (ys ++ (y ∷ after)) ≡ some (ys ++ (y ∷ []))
unfolding last_not_of last_at
last_not_of-skips of [] y after blank other = rw (last_not_of-none of after blank) (rw other refl)
last_not_of-skips of (x ∷ ys) y after blank other =
    rw (last_not_of-skips of ys y after blank other) refl

-- Trim on a string whose middle begins and ends with characters that are not to be trimmed, where
-- all that stands before and behind the middle is to be trimmed: what is left is the middle.
pub trim_lem :
    (of : ℕ → Bool) (before mid after : Bytes) (x : ℕ) (xs ys : Bytes) (y : ℕ)
    → AreAll of before
    → AreAll of after
    → mid ≡ x ∷ xs
    → of x ≡ false
    → mid ≡ ys ++ (y ∷ [])
    → of y ≡ false
    → trim_of of (before ++ (mid ++ after)) ≡ mid
unfolding trim_of trim_left_of trim_right_of
trim_lem of before mid after x xs ys y blank_before blank_after begins first ends last =
    ap (λ dat. or_same dat (last_not_of of dat))
      (ap (or_same (before ++ (mid ++ after))) (
          ap (λ m. first_not_of of (before ++ (m ++ after))) begins
          ∙ first_not_of-skips of before x (xs ++ after) blank_before first)
        ∙ ap (λ m. m ++ after) (sym begins ∙ ends)
        ∙ append_assoc ys (y ∷ []) after)
    ∙ ap (or_same (ys ++ (y ∷ after))) (last_not_of-skips of ys y after blank_after last)
    ∙ sym ends

-- Trim of a string of nothing else.
trim_blank : (of : ℕ → Bool) (dat : Bytes) → AreAll of dat → trim_of of dat ≡ dat
unfolding trim_of trim_left_of trim_right_of
trim_blank of dat blank =
    ap (λ xs. or_same xs (last_not_of of xs)) (ap (or_same dat) (first_not_of-none of dat blank))
    ∙ ap (or_same dat) (last_not_of-none of dat blank)
