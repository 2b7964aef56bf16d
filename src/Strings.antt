-- ===== src/Strings.antt =====
-- utils/string_helper.h: replacing, trimming, splitting and counting. A string is the list of its
-- characters; a position in it is given by what stands from there on.
pub mod Search
pub mod Separated
pub mod Chars
pub mod Trimmed
mod Runs
use lin_socket_io.Base.{
  ltb, take, ◌%◌, ◌^◌, ℕ, zero, suc, ◌+◌, Bool, true, false, ◌||◌, Option, none, some, List, [],
  ◌∷◌, ◌++◌, map, ◌==◌, if◌then◌else◌, Bytes, length,
}

-- What stands behind a separator at the front of a string, if there is one.
abbrev pub Separator : Type 0
Separator = Bytes → Option Bytes

-- a character
pub char_at : ℕ → Separator
char_at ch [] = none
char_at ch (x ∷ xs) = if x == ch then some xs else none

-- a string
pub string_at : Bytes → Separator
string_at [] xs = some xs
string_at (s ∷ str) [] = none
string_at (s ∷ str) (x ∷ xs) = if x == s then string_at str xs else none

-- one place of find
pub found_at : ℕ → Option Bytes → Option (Bytes × Bytes) → Option (Bytes × Bytes)
found_at x (some rest) later = some ([], rest)
found_at x none none = none
found_at x none (some found) = some (x ∷ found.0, found.1)

-- data.find: what stands before the first separator, and what stands behind it
pub find_first : Separator → Bytes → Option (Bytes × Bytes)
find_first sep [] = none
find_first sep (x ∷ xs) = found_at x (sep (x ∷ xs)) (find_first sep xs)

-- the body of Split's loop, and what stands behind it
pub split_found : Bytes → (Bytes → List Bytes) → Option (Bytes × Bytes) → List Bytes
split_found cur next none = cur ∷ []
split_found cur next (some (s, rest)) = s ∷ next rest

-- the loop of Split, on fuel
pub split_loop : Separator → ℕ → Bytes → List Bytes
split_loop sep zero cur = cur ∷ []
split_loop sep (suc fuel) cur = split_found cur (split_loop sep fuel) (find_first sep cur)

-- `data.empty()`
abbrev pub is_empty : Bytes → Bool
is_empty [] = true
is_empty (x ∷ xs) = false

-- Split(data, ch)
pub split_char : Bytes → ℕ → List Bytes
split_char dat ch = if is_empty dat || ch == 0 then [] else split_loop (char_at ch) (length dat) dat

-- Split(data, str)
pub split : Bytes → Bytes → List Bytes
split dat str =
    if is_empty dat || is_empty str then [] else split_loop (string_at str) (length dat) dat

-- the body of Count's loop
pub count_found : (Bytes → ℕ) → Option (Bytes × Bytes) → ℕ
count_found next none = 0
count_found next (some (s, rest)) = 1 + next rest

pub count_loop : Separator → ℕ → Bytes → ℕ
count_loop sep zero cur = 0
count_loop sep (suc fuel) cur = count_found (count_loop sep fuel) (find_first sep cur)

-- Count(data, str)
pub count : Bytes → Bytes → ℕ
count dat str = if is_empty str then 0 else count_loop (string_at str) (length dat) dat

-- the loop of Count(data, c)
pub count_in : Bytes → ℕ → ℕ
count_in [] c = 0
count_in (x ∷ xs) c = let n = count_in xs c in if x == c then n + 1 else n

-- the rounds up to `(int)data.size()`, none if it is negative
pub int_rounds : ℕ → ℕ
int_rounds size = if ltb (size % 2 ^ 32) (2 ^ 31) then size % 2 ^ 32 else 0

-- Count(data, c)
pub count_char : Bytes → ℕ → ℕ
count_char dat c = count_in (take (int_rounds (length dat)) dat) c

-- the body of Replace's loop: the string up to `pos` is done
pub replace_found : Bytes → Bytes → (Bytes → Bytes) → Option (Bytes × Bytes) → Bytes
replace_found dst cur next none = cur
replace_found dst cur next (some (s, rest)) = s ++ (dst ++ next rest)

pub replace_loop : Separator → Bytes → ℕ → Bytes → Bytes
replace_loop sep dst zero cur = cur
replace_loop sep dst (suc fuel) cur =
    replace_found dst cur (replace_loop sep dst fuel) (find_first sep cur)

-- `src == dst`
pub same : Bytes → Bytes → Bool
same [] [] = true
same [] (y ∷ ys) = false
same (x ∷ xs) [] = false
same (x ∷ xs) (y ∷ ys) = if x == y then same xs ys else false

-- Replace(data, src, dst) of strings
pub replace : Bytes → Bytes → Bytes → Bytes
replace dat src dst =
    if same src dst || is_empty src then dat else replace_loop (string_at src) dst (length dat) dat

-- Replace(data, src, dst) of characters
pub replace_char : Bytes → ℕ → ℕ → Bytes
replace_char dat src dst = if src == dst then dat else map (λ x. if x == src then dst else x) dat

-- `find_first_not_of` of the characters that `of` tells: the string from there on
pub first_not_of : (ℕ → Bool) → Bytes → Option Bytes
first_not_of of [] = none
first_not_of of (x ∷ xs) = if of x then first_not_of of xs else some (x ∷ xs)

-- one place of find_last_not_of
pub last_at : (ℕ → Bool) → ℕ → Option Bytes → Option Bytes
last_at of x (some ys) = some (x ∷ ys)
last_at of x none = if of x then none else some (x ∷ [])

-- `find_last_not_of`: the string up to there
pub last_not_of : (ℕ → Bool) → Bytes → Option Bytes
last_not_of of [] = none
last_not_of of (x ∷ xs) = last_at of x (last_not_of of xs)

-- npos leaves the string as it is.
abbrev pub or_same : Bytes → Option Bytes → Bytes
or_same dat none = dat
or_same dat (some xs) = xs

-- the bodies of TrimLeft, TrimRight and Trim
pub trim_left_of : (ℕ → Bool) → Bytes → Bytes
trim_left_of of dat = or_same dat (first_not_of of dat)

pub trim_right_of : (ℕ → Bool) → Bytes → Bytes
trim_right_of of dat = or_same dat (last_not_of of dat)

pub trim_of : (ℕ → Bool) → Bytes → Bytes
trim_of of dat = trim_right_of of (trim_left_of of dat)

-- of a character
trim_left : Bytes → ℕ → Bytes
trim_left dat ch = trim_left_of (λ x. x == ch) dat

trim_right : Bytes → ℕ → Bytes
trim_right dat ch = trim_right_of (λ x. x == ch) dat

trim : Bytes → ℕ → Bytes
trim dat ch = trim_of (λ x. x == ch) dat

-- of the characters of a string
any_of : Bytes → ℕ → Bool
any_of [] x = false
any_of (s ∷ str) x = x == s || any_of str x

trim_left_any : Bytes → Bytes → Bytes
trim_left_any dat str = trim_left_of (any_of str) dat

trim_right_any : Bytes → Bytes → Bytes
trim_right_any dat str = trim_right_of (any_of str) dat

trim_any : Bytes → Bytes → Bytes
trim_any dat str = trim_of (any_of str) dat
