-- ===== src/Strings/Runs.antt =====
-- Runs of utils/string_helper.h at concrete strings.
use lin_socket_io.Base.{◌≡◌, refl, ◌+◌, [], ◌∷◌, ◌++◌, ◌==◌, Bytes, length, All, arith}
use lin_socket_io.Strings.{
  split_char, split_loop, split_found, find_first, found_at, char_at, count_char, replace_char,
  trim_of,
}
use lin_socket_io.Strings.Search.{join, Lacks}
use lin_socket_io.Strings.Chars.{split_char_lem}
use lin_socket_io.Strings.Trimmed.{trim_lem}

-- "a,,b,": a part that is empty, and one at the end
abbrev data_commas : Bytes
data_commas = 97 ∷ 44 ∷ 44 ∷ 98 ∷ 44 ∷ []

abbrev commas : Bytes
commas = 44 ∷ 44 ∷ []

abbrev dash : Bytes
dash = 45 ∷ []

split_char_lem_example :
    (join (44 ∷ []) (split_char data_commas 44) ≡ data_commas)
    × All (Lacks (44 ∷ [])) (split_char data_commas 44)
    × (length (split_char data_commas 44) ≡ count_char data_commas 44 + 1)
    × (replace_char data_commas 44 45 ≡ join (45 ∷ []) (split_char data_commas 44))
split_char_lem_example = split_char_lem data_commas 44 45 refl (omega arith) (omega arith)

-- "  a b " without its spaces
trim_lem_example :
    trim_of (λ x. x == 32) ((32 ∷ 32 ∷ []) ++ ((97 ∷ 32 ∷ 98 ∷ []) ++ (32 ∷ [])))
    ≡ 97 ∷ 32 ∷ 98 ∷ []
trim_lem_example =
    trim_lem (λ x. x == 32) (32 ∷ 32 ∷ []) (97 ∷ 32 ∷ 98 ∷ []) (32 ∷ []) 97 (32 ∷ 98 ∷ [])
      (97 ∷ 32 ∷ []) 98 (refl, (refl, tt)) (refl, tt) refl refl refl refl

-- "a,,b,": three commas, and the parts "a", "", "b" and ""
split_char_commas : split_char data_commas 44 ≡ (97 ∷ []) ∷ [] ∷ (98 ∷ []) ∷ [] ∷ []
unfolding split_char split_loop split_found find_first found_at char_at
split_char_commas = refl
