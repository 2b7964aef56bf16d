-- ===== src/Thrift/Progress.antt =====
-- skip comes to an end on any bytes.
use lin_socket_io.Base.{
  ok-injective, err-injective, ap, ℕ, zero, suc, ◌+◌, ◌-◌, ◌<◌, ◌≤◌, ◌≡◌, ◌≢◌, arith, Bool, true,
  false, ltb, ◌==◌, if_either, length-drop, Result, ok, err, ◌>>=◌, not_enough_data, out_of_fuel,
}
use native.Mathlib.Nat.{le_refl}
use lin_socket_io.Serial.Reader.{Deserializer, size, read, read_byte, read_uint32}
use lin_socket_io.Thrift.{
  Layout, no_bytes, fixed, delimited, map_of, list_of, struct_of, unknown, layout, Skip, Loop,
  skip_fixed, skip_delimited, after_loop, unless_zero, items, entries, field_rest, fields,
  skip_list, skip_map, skip_struct, skip_as, skip_nested, skip, t_stop,
}

-- No fuel is used up, and at most `n` bytes are left.
abbrev pub Within : {A : Type 0} → ℕ → Result (A × Deserializer) → Type 0
Within n (ok r) = size r.1 ≤ n
Within n (err x) = x ≢ out_of_fuel

Within-mono :
    {A : Type 0} (n m : ℕ) (r : Result (A × Deserializer)) → n ≤ m → Within n r → Within m r
Within-mono n m (ok r) h w = omega arith
Within-mono n m (err x) h w = w

Within-bind :
    {A B : Type 0} (n m : ℕ) (r : Result (A × Deserializer))
    (next : A × Deserializer → Result (B × Deserializer))
    → Within n r
    → ((a : A × Deserializer) → size a.1 ≤ n → Within m (next a))
    → Within m (r >>= next)
Within-bind n m (ok a) next w h = h a w
Within-bind n m (err x) next w h = w

thrown : not_enough_data ≢ out_of_fuel
thrown = λ e. cc

read-Within : (k : ℕ) (d : Deserializer) → Within (size d - k) (read d k)
unfolding read
read-Within k d =
    if_either (Within (size d - k)) (ltb (size d) k) _ _ (λ _. thrown)
      (λ _. omega (arith, length-drop k d.rest))

read_byte-Within : (d : Deserializer) → Within (size d - 1) (read_byte d)
unfolding read_byte
read_byte-Within d =
    if_either (Within (size d - 1)) (ltb (size d) 1) _ _ (λ _. thrown)
      (λ _. omega (arith, length-drop 1 d.rest))

read_uint32-Within : (d : Deserializer) → Within (size d - 4) (read_uint32 d)
unfolding read_uint32
read_uint32-Within d =
    if_either (Within (size d - 4)) (ltb (size d) 4) _ _ (λ _. thrown)
      (λ _. omega (arith, length-drop 4 d.rest))

skip_fixed-Within : (k : ℕ) (d : Deserializer) → Within (size d) (skip_fixed k d)
skip_fixed-Within k d =
    if_either (Within (size d)) (ltb (size d) k) _ _ (λ _. le_refl (size d))
      (λ _. Within-bind (size d - k) (size d) (read d k) _ (read-Within k d) (λ r h. omega arith))

skip_delimited-Within : (d : Deserializer) → Within (size d) (skip_delimited d)
unfolding skip_delimited
skip_delimited-Within d =
    if_either (Within (size d)) (ltb (size d) 4) _ _ (λ _. le_refl (size d))
      (λ _. Within-bind (size d - 4) (size d) (read_uint32 d) _ (read_uint32-Within d) (λ r h.
        if_either (Within (size d)) (ltb (size r.1) r.0) _ _ (λ _. omega arith)
          (λ _.
            Within-bind (size r.1 - r.0) (size d) (read r.1 r.0) _ (read-Within r.0 r.1)
              (λ r' h'. omega arith))))

after_loop-Within :
    (n : ℕ) (d : Deserializer) (r : Bool × Deserializer) → size r.1 ≤ n → Within n (after_loop d r)
unfolding after_loop
after_loop-Within n d (true, e) h = h
after_loop-Within n d (false, e) h = h

unless_zero-Within :
    (n : ℕ) (next : Deserializer → Loop) (r : ℕ × Deserializer)
    → size r.1 ≤ n
    → Within n (next r.1)
    → Within n (unless_zero next r)
unfolding unless_zero
unless_zero-Within n next (zero, d) h w = h
unless_zero-Within n next (suc k, d) h w = w

-- The loops over values that are skipped within any reader of less than `f` bytes.
module _ (skip_one : ℕ → Deserializer → Skip) (f : ℕ)
    (one : (t : ℕ) (d : Deserializer) → size d < f → Within (size d) (skip_one t d)) where
  -- a value, and then the loop
  skip_next :
      (n t : ℕ) (d : Deserializer) (next : Deserializer → Loop)
      → size d ≤ n
      → n < f
      → ((e : Deserializer) → size e ≤ size d → Within n (next e))
      → Within n (skip_one t d >>= unless_zero next)
  skip_next n t d next small bound h =
      Within-bind (size d) n (skip_one t d) _ (one t d (omega arith))
        (λ r le. unless_zero-Within n next r (omega arith) (h r.1 le))

  items-Within :
      (n t num : ℕ) (d : Deserializer) → size d ≤ n → n < f → Within n (items skip_one t num d)
  unfolding items
  items-Within n t zero d small bound = small
  items-Within n t (suc num) d small bound =
      skip_next n t d (items skip_one t num) small bound
        (λ e le. items-Within n t num e (omega arith) bound)

  entries-Within :
      (n k v num : ℕ) (d : Deserializer)
      → size d ≤ n
      → n < f
      → Within n (entries skip_one k v num d)
  unfolding entries
  entries-Within n k v zero d small bound = small
  entries-Within n k v (suc num) d small bound = skip_next n k d _ small bound (λ e le.
      skip_next n v e (entries skip_one k v num) (omega arith) bound
        (λ e' le'. entries-Within n k v num e' (omega arith) bound))

  fields-Within :
      (n fuel : ℕ) (d : Deserializer)
      → size d ≤ n
      → n ≤ f
      → size d < fuel
      → Within n (fields skip_one fuel d)
  unfolding fields field_rest
  fields-Within n zero d small bound fuel = absurd (omega arith)
  fields-Within n (suc g) d small bound fuel =
      if_either (Within n) (ltb (size d) 1) _ _ (λ _. small)
        (λ some_left. Within-bind (size d - 1) n (read_byte d) _ (read_byte-Within d) (λ r h.
          if_either (Within n) (r.0 == t_stop) _ _ (λ _. omega arith)
            (λ _.
              if_either (Within n) (ltb (size r.1) 2) _ _ (λ _. omega arith)
                (λ _. Within-bind (size r.1 - 2) n (read r.1 2) _ (read-Within 2 r.1) (λ r' h'.
                  let less : size d - 1 < f = ground (arith, some_left) in
                  let less' : size d - 1 < g = ground (arith, some_left) in
                  Within-mono (size d - 1) n _ (omega arith) (
                    skip_next (size d - 1) r.0 r'.1 (fields skip_one g) (omega arith) less (λ e le.
                      Within-mono (size e) (size d - 1) _ (omega arith) (
                        fields-Within (size e) g e (le_refl (size e)) (omega arith)
                          (omega arith)))))))))

  skip_as-Within :
      (l : Layout) (d : Deserializer) → size d ≤ f → Within (size d) (skip_as skip_one l d)
  unfolding skip_as skip_list skip_map skip_struct
  skip_as-Within no_bytes d h = le_refl (size d)
  skip_as-Within (fixed k) d h = skip_fixed-Within k d
  skip_as-Within delimited d h = skip_delimited-Within d
  skip_as-Within map_of d h =
      if_either (Within (size d)) (ltb (size d) 4) _ _ (λ _. le_refl (size d))
        (λ enough. Within-bind (size d - 1) (size d) (read_byte d) _ (read_byte-Within d) (λ k hk.
          Within-bind (size k.1 - 1) (size d) (read_byte k.1) _ (read_byte-Within k.1) (λ v hv.
            Within-bind (size v.1 - 4) (size d) (read_uint32 v.1) _ (read_uint32-Within v.1)
              (λ n hn.
                let less : size n.1 < f = ground (arith, enough) in
                Within-bind (size n.1) (size d) _ _
                  (entries-Within (size n.1) k.0 v.0 n.0 n.1 (le_refl (size n.1)) less)
                  (λ r hr. after_loop-Within (size d) d r (omega arith))))))
  skip_as-Within list_of d h =
      if_either (Within (size d)) (ltb (size d) 5) _ _ (λ _. le_refl (size d))
        (λ enough. Within-bind (size d - 1) (size d) (read_byte d) _ (read_byte-Within d) (λ v hv.
          Within-bind (size v.1 - 4) (size d) (read_uint32 v.1) _ (read_uint32-Within v.1) (λ n hn.
            let less : size n.1 < f = ground (arith, enough) in
            Within-bind (size n.1) (size d) _ _
              (items-Within (size n.1) v.0 n.0 n.1 (le_refl (size n.1)) less)
              (λ r hr. after_loop-Within (size d) d r (omega arith)))))
  skip_as-Within struct_of d h =
      Within-bind (size d) (size d) _ _
        (fields-Within (size d) (size d + 1) d (le_refl (size d)) h (omega arith))
        (λ r hr. after_loop-Within (size d) d r hr)
  skip_as-Within unknown d h = λ e. cc

skip_nested-Within : (f t : ℕ) (d : Deserializer) → size d < f → Within (size d) (skip_nested f t d)
unfolding skip_nested
skip_nested-Within zero t d h = absurd (omega arith)
skip_nested-Within (suc f) t d h =
    skip_as-Within (skip_nested f) f (skip_nested-Within f) (layout t) d (omega arith)

Within-sound :
    {A : Type 0} (n : ℕ) (r : Result (A × Deserializer))
    → Within n r
    → (r ≢ err out_of_fuel) × ((a : A) (e : Deserializer) → r ≡ ok (a, e) → size e ≤ n)
Within-sound n (ok r) w = (λ e. cc, λ a e h. omega (arith, ap (λ q. size q.1) (ok-injective h)))
Within-sound n (err x) w = (λ e. w (err-injective e), λ a e h. cc)

-- skip comes to an end on any bytes and for any type, however they are nested: its fuel is never used
-- up, it returns or throws, and the reader that it leaves is no longer than the one it was given.
pub skip_terminates :
    (d : Deserializer) (ftype : ℕ)
    → (skip d ftype ≢ err out_of_fuel)
      × ((n : ℕ) (e : Deserializer) → skip d ftype ≡ ok (n, e) → size e ≤ size d)
unfolding skip
skip_terminates d ftype =
    Within-sound (size d) _ (skip_nested-Within (size d + 1) ftype d (omega arith))
