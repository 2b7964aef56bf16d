-- ===== src/Thrift/Short.antt =====
-- A list that is cut off behind its head. The loop of skip stops at a result of 0 only, and the result
-- of an item that is not there is -1.
use lin_socket_io.Base.{
  sym, ℕ, zero, suc, ◌+◌, ◌^◌, ◌<◌, ◌≡◌, refl, ◌++◌, arith, ok, true, [], ap, ◌∙◌, length,
  append-nil,
}
use lin_socket_io.Buffer.Memory.{le_bytes}
use lin_socket_io.Wire.{big_endian}
use lin_socket_io.Wire.Order.{ordered_bytes, length-ordered_bytes}
use lin_socket_io.Thrift.{layout, items, unless_zero, skip_as, skip_nested, skip, t_list, minus_one}
use lin_socket_io.Thrift.Values.{Scalar, bool, byte, i16, i32, u64, i64, double, scalar, code}
use lin_socket_io.Thrift.Parts.{at, code-bound, list_image, skip_list-append, length-byte}

-- `return -1` before anything is read
absent :
    (s : Scalar) (f : ℕ) → skip_nested (suc f) (code (scalar s)) (at []) ≡ ok (minus_one, at [])
unfolding skip_nested skip_as layout
absent bool f = refl
absent byte f = refl
absent i16 f = refl
absent i32 f = refl
absent u64 f = refl
absent i64 f = refl
absent double f = refl

items-absent :
    (s : Scalar) (f num : ℕ)
    → items (skip_nested (suc f)) (code (scalar s)) num (at []) ≡ ok (true, at [])
unfolding items unless_zero
items-absent s f zero = refl
items-absent s f (suc num) = rw (absent s f) (items-absent s f num)

-- skip takes the head of a list of numbers without any of its items for a whole list: whatever number
-- of items the head announces, skip returns 5, the length of the head, and not -1.
pub skip_list_short :
    (s : Scalar) (num : ℕ)
    → num < 2 ^ 32
    → skip (at (le_bytes 1 (code (scalar s)) ++ ordered_bytes 4 num big_endian)) t_list
      ≡ ok (5, at [])
unfolding skip skip_nested skip_as layout
skip_list_short s num h =
    let c = code (scalar s) in
    let head = le_bytes 1 c ++ ordered_bytes 4 num big_endian in
    let size : length head ≡ 5 = omega (
      arith,
      length-byte c (ordered_bytes 4 num big_endian),
      length-ordered_bytes 4 num big_endian,
    ) in
    let same : list_image c num [] ++ [] ≡ head = simp append-nil in
    let size' : length (list_image c num []) ≡ 5 =
      ap length (◌∙◌ (sym (append-nil (list_image c num []))) same) ∙ size in
    let fuel : length (list_image c num [] ++ []) + 1 ≡ 6 = omega (arith, ap length same) in
    ap (λ xs. skip (at xs) t_list) (sym same)
    ∙ ap (λ n. skip_nested n t_list (at (list_image c num [] ++ []))) fuel
    ∙ skip_list-append (skip_nested 5) c num [] [] (code-bound (scalar s)) h (omega arith)
        (items-absent s 4 num)
    ∙ ap (λ n. ok (n, at [])) size'
