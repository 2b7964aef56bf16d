-- ===== src/Packet/Pushing.antt =====
-- What the pushing operations of a packet append.
use lin_socket_io.Base.{
  All-map, false, ℕ, ◌^◌, ◌<◌, ◌≡◌, refl, sym, ap, subst, Bool, List, [], ◌∷◌, ◌++◌, arith,
  append-nil, if◌then◌else◌, Bytes, length, length-append, All, Result, ok, ltb, ◌%◌, ◌>>=◌,
}
use lin_socket_io.Buffer.Memory.{le_bytes, length-le_bytes}
use lin_socket_io.Packet.{
  push_pair, Shape, bool, uint8, uint16, uint32, uint64, varstr, varstr32, pair, container, Value,
  push, push_uint8, push_uint16, push_uint32, push_uint64, push_varstr, push_varstr32, push_bool,
  push_all, marshal_container, push_value,
}
use lin_socket_io.Packet.Images.{FitsShape, joined, image}
use lin_socket_io.Serial.Writer.{Serializer}
use lin_socket_io.Serial.Writer.Append.{
  IsOpen, Wrote, Wrote-trans, written, write-Wrote, write_uint16-Wrote, write_uint32-Wrote,
  write_uint64-Wrote,
}
use lin_socket_io.Serial.Writer.Room.{
  HasRoom, HasRoom-Wrote, write_some, write_uint16_some, write_uint32_some, write_uint64_some,
}
use lin_socket_io.Wire.Order.{ordered_bytes, length-ordered_bytes}

-- A call of `put` that has room returns, and it appends the image of its argument.
abbrev pub Appends :
    {A : Type 0} → (Serializer → A → Result Serializer) → (ℕ → A → Bytes) → A → Type 0
Appends put im a =
    (p : Serializer)
    → IsOpen p
    → HasRoom p (length (im p.bo a))
    → (t : Serializer) × (put p a ≡ ok t) × Wrote p (im p.bo a) t

-- one call after another
Appends-then :
    {A B : Type 0} (put : Serializer → A → Result Serializer)
    (put' : Serializer → B → Result Serializer) (im : ℕ → A → Bytes) (im' : ℕ → B → Bytes) (a : A)
    (b : B)
    → Appends put im a
    → Appends put' im' b
    → Appends
        (λ p (c : A × B). put p c.0 >>= λ p'. put' p' c.1)
        (λ bo (c : A × B). im bo c.0 ++ im' bo c.1)
        (a, b)
Appends-then put put' im im' a b h k p o room =
    let (u, e, w) = h p o (omega (arith, length-append (im p.bo a) (im' p.bo b))) in
    let (t, e', w') = k u w.still_open (
      HasRoom-Wrote p u (im p.bo a) _ o w (
        omega (
          arith,
          length-append (im p.bo a) (im' p.bo b),
          ap (λ bo. length (im' bo b)) w.same_bo,
        ))) in
    (t, rw e e', Wrote-trans p u t _ _ w (subst (λ bo. Wrote u (im' bo b) t) w.same_bo w'))

-- a number that is cut to its width, and then another call
cut-Appends :
    {B : Type 0} (put : Serializer → ℕ → Result Serializer)
    (put' : Serializer → B → Result Serializer) (im : ℕ → ℕ → Bytes) (im' : ℕ → B → Bytes)
    (n cut : ℕ) (b : B)
    → cut ≡ n
    → Appends put im n
    → Appends put' im' b
    → Appends (λ p x. put p cut >>= λ p'. put' p' x) (λ bo x. im bo n ++ im' bo x) b
cut-Appends put put' im im' n cut b e h k =
    subst (λ m. Appends (λ p x. put p m >>= λ p'. put' p' x) (λ bo x. im bo n ++ im' bo x) b)
      (sym e) (Appends-then put put' im im' n b h k)

module _ (fresh : ℕ → ℕ) where
  push-Appends : (xs : Bytes) → length xs < 2 ^ 63 → Appends (push fresh) (λ bo x. x) xs
  unfolding push
  push-Appends xs small p o room =
      let (t, e) = write_some fresh p xs o room in (t, e, write-Wrote fresh p t o xs small e)

  push_uint8-Appends : (v : ℕ) → Appends (push_uint8 fresh) (λ bo. le_bytes 1) v
  unfolding push_uint8
  push_uint8-Appends v = push-Appends (le_bytes 1 v) (omega (arith, length-le_bytes 1 v))

  push_uint16-Appends : (v : ℕ) → Appends (push_uint16 fresh) (λ bo u. ordered_bytes 2 u bo) v
  unfolding push_uint16
  push_uint16-Appends v p o room =
      let (t, e) = write_uint16_some fresh p v o (omega (arith, length-ordered_bytes 2 v p.bo)) in
      (t, e, write_uint16-Wrote fresh p t o v e)

  push_uint32-Appends : (v : ℕ) → Appends (push_uint32 fresh) (λ bo u. ordered_bytes 4 u bo) v
  unfolding push_uint32
  push_uint32-Appends v p o room =
      let (t, e) = write_uint32_some fresh p v o (omega (arith, length-ordered_bytes 4 v p.bo)) in
      (t, e, write_uint32-Wrote fresh p t o v e)

  push_uint64-Appends : (v : ℕ) → Appends (push_uint64 fresh) (λ bo u. ordered_bytes 8 u bo) v
  unfolding push_uint64
  push_uint64-Appends v p o room =
      let (t, e) = write_uint64_some fresh p v o (omega (arith, length-ordered_bytes 8 v p.bo)) in
      (t, e, write_uint64-Wrote fresh p t o v e)

  push_varstr-Appends :
      (str : Bytes)
      → length str < 2 ^ 16
      → Appends (push_varstr fresh) (λ bo x. ordered_bytes 2 (length x) bo ++ x) str
  unfolding push_varstr
  push_varstr-Appends str h p o room =
      let fits : ltb 65535 (length str) ≡ false = ground arith in
      let (t, e, w) =
        cut-Appends (push_uint16 fresh) (push fresh) (λ bo u. ordered_bytes 2 u bo) (λ bo x. x)
          (length str) (length str % 2 ^ 16) str (omega arith) (push_uint16-Appends (length str))
          (push-Appends str (omega arith)) p o room in
      (t, rw fits e, w)

  push_varstr32-Appends :
      (str : Bytes)
      → length str < 2 ^ 32
      → Appends (push_varstr32 fresh) (λ bo x. ordered_bytes 4 (length x) bo ++ x) str
  unfolding push_varstr32
  push_varstr32-Appends str h p o room =
      let fits : ltb 4294967295 (length str) ≡ false = ground arith in
      let (t, e, w) =
        cut-Appends (push_uint32 fresh) (push fresh) (λ bo u. ordered_bytes 4 u bo) (λ bo x. x)
          (length str) (length str % 2 ^ 32) str (omega arith) (push_uint32-Appends (length str))
          (push-Appends str (omega arith)) p o room in
      (t, rw fits e, w)

  push_bool-Appends :
      (b : Bool) → Appends (push_bool fresh) (λ bo s. le_bytes 1 (if s then 1 else 0)) b
  unfolding push_bool
  push_bool-Appends b = push_uint8-Appends (if b then 1 else 0)

  module _ {A : Type 0} (put : Serializer → A → Result Serializer) (im : ℕ → A → Bytes) where
    push_all-Appends :
        (xs : List A)
        → All (Appends put im) xs
        → Appends (push_all fresh put) (λ bo. joined (im bo)) xs
    unfolding push_all
    push_all-Appends [] h p o room = (
      p,
      refl,
      record {
        still_open = o;
        bytes = sym (append-nil (written p));
        same_bo = refl;
        same_offset = refl;
        same_limit = refl;
      },
    )
    push_all-Appends (x ∷ xs) (h, hs) p o room =
        Appends-then put (push_all fresh put) im (λ bo. joined (im bo)) x xs h
          (push_all-Appends xs hs) p o room

    marshal_container-Appends :
        (xs : List A)
        → length xs < 2 ^ 32
        → All (Appends put im) xs
        → Appends
            (marshal_container fresh put)
            (λ bo c. ordered_bytes 4 (length c) bo ++ joined (im bo) c)
            xs
    unfolding marshal_container
    marshal_container-Appends xs small h =
        cut-Appends (push_uint32 fresh) (push_all fresh put) (λ bo u. ordered_bytes 4 u bo)
          (λ bo. joined (im bo)) (length xs) (length xs % 2 ^ 32) xs (omega arith)
          (push_uint32-Appends (length xs)) (push_all-Appends xs h)

  -- A value that fits its shape is pushed as its image.
  pub push_value-Appends :
      (s : Shape) (v : Value s) → FitsShape s v → Appends (push_value fresh s) (image s) v
  unfolding push_value push_pair
  push_value-Appends bool v h = push_bool-Appends v
  push_value-Appends uint8 v h = push_uint8-Appends v
  push_value-Appends uint16 v h = push_uint16-Appends v
  push_value-Appends uint32 v h = push_uint32-Appends v
  push_value-Appends uint64 v h = push_uint64-Appends v
  push_value-Appends varstr v h = push_varstr-Appends v h
  push_value-Appends varstr32 v h =
      push_varstr32-Appends v (let small : length v < 2 ^ 16 = h in omega arith)
  push_value-Appends (pair s t) (a, b) (h, k) =
      Appends-then (push_value fresh s) (push_value fresh t) (image s) (image t) a b
        (push_value-Appends s a h) (push_value-Appends t b k)
  push_value-Appends (container s) c (small, h) =
      marshal_container-Appends (push_value fresh s) (image s) c small
        (All-map (FitsShape s) _ c (push_value-Appends s) h)
