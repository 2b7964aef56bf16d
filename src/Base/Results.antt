-- ===== src/Base/Results.antt =====
-- Code that throws: a result or the exception that ends the call.
use mathlib.Core.Path.{◌≡◌, refl}
use mathlib.Core.Logic.{◌⊎◌, inl, inr}

-- Which throw statement was reached.
pub data Error : Type 0 where
  -- RuntimeException "not enough data" of the Deserializer
  not_enough_data : Error
  -- ResourceLimitException "buffer overflow" of the ByteBuffer
  buffer_overflow : Error
  -- RuntimeException "position out of range" of Serializer::replace
  position_out_of_range : Error
  -- RuntimeException "offset out of range" of Serializer::data
  offset_out_of_range : Error
  -- socket_error of a socket call that failed
  io_error : Error
  -- PackError and UnpackError of a packet
  pack_error : Error
  unpack_error : Error
  -- RuntimeExceptions of the thrift helpers
  unknown_type : Error
  bad_version : Error
  -- no exception: a loop's fuel is used up
  out_of_fuel : Error

pub data Result {ℓ} (A : Type ℓ) : Type ℓ where
  ok : A → Result A
  err : Error → Result A

infixl 5 ◌>>=◌
abbrev pub ◌>>=◌ {ℓ κ} : {A : Type ℓ} {B : Type κ} → Result A → (A → Result B) → Result B
ok a >>= f = f a
err e >>= f = err e

pub ok-injective {ℓ} : {A : Type ℓ} {a b : A} → ok a ≡ ok b → a ≡ b
ok-injective h = cc

pub err-injective {ℓ} : {A : Type ℓ} {a b : Error} → ◌≡◌ {A = Result A} (err a) (err b) → a ≡ b
err-injective h = cc

pub Result-cases {ℓ} :
    {A : Type ℓ} (r : Result A) → ((a : A) × (r ≡ ok a)) ⊎ ((e : Error) × (r ≡ err e))
Result-cases (ok a) = inl (a, refl)
Result-cases (err e) = inr (e, refl)

-- A chain returns what its second part returns for the value of its first part.
pub >>=-eq-ok {ℓ κ} :
    {A : Type ℓ} {B : Type κ} (first : Result A) (next : A → Result B) {value : B}
    → (first >>= next) ≡ ok value
    → (a : A) × (first ≡ ok a) × (next a ≡ ok value)
>>=-eq-ok (err e) next chain = cc
>>=-eq-ok (ok a) next chain = (a, refl, chain)

-- A chain throws what its first part throws, or else its second part.
pub >>=-eq-err {ℓ κ} :
    {A : Type ℓ} {B : Type κ} (first : Result A) (next : A → Result B) {thrown : Error}
    → (first >>= next) ≡ err thrown
    → (first ≡ err thrown) ⊎ ((a : A) × (first ≡ ok a) × (next a ≡ err thrown))
>>=-eq-err (err e) next chain = inl (cc)
>>=-eq-err (ok a) next chain = inr (a, refl, chain)
