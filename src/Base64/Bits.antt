-- ===== src/Base64/Bits.antt =====
-- The masks and the alphabet of base64.cpp as arithmetic: tables over a byte and over a sextet.
use lin_socket_io.Base.{
  ℕ, ◌+◌, ◌*◌, ◌/◌, ◌%◌, ◌<◌, bit_and, ◌≡◌, refl, true, arith, IsByte, all_below, all_below_sound,
  agree_below,
}
use lin_socket_io.Base64.{
  char_of, value_of, goes_on, is_base64, sextet0, sextet1, sextet2, sextet3, octet0, octet1, octet2,
}

and_fc : (a : ℕ) → a < 256 → bit_and a 0xfc / 4 ≡ a / 4
unfolding all_below
and_fc = agree_below (λ a. bit_and a 0xfc / 4) (λ a. a / 4) 256 refl

and_03 : (a : ℕ) → a < 256 → bit_and a 0x03 ≡ a % 4
unfolding all_below
and_03 = agree_below (λ a. bit_and a 0x03) (λ a. a % 4) 256 refl

and_f0 : (a : ℕ) → a < 256 → bit_and a 0xf0 / 16 ≡ a / 16
unfolding all_below
and_f0 = agree_below (λ a. bit_and a 0xf0 / 16) (λ a. a / 16) 256 refl

and_0f : (a : ℕ) → a < 256 → bit_and a 0x0f ≡ a % 16
unfolding all_below
and_0f = agree_below (λ a. bit_and a 0x0f) (λ a. a % 16) 256 refl

and_c0 : (a : ℕ) → a < 256 → bit_and a 0xc0 / 64 ≡ a / 64
unfolding all_below
and_c0 = agree_below (λ a. bit_and a 0xc0 / 64) (λ a. a / 64) 256 refl

and_3f : (a : ℕ) → a < 256 → bit_and a 0x3f ≡ a % 64
unfolding all_below
and_3f = agree_below (λ a. bit_and a 0x3f) (λ a. a % 64) 256 refl

and_30 : (a : ℕ) → a < 64 → bit_and a 0x30 / 16 ≡ a / 16
unfolding all_below
and_30 = agree_below (λ a. bit_and a 0x30 / 16) (λ a. a / 16) 64 refl

and_3c : (a : ℕ) → a < 64 → bit_and a 0x3c / 4 ≡ a / 4
unfolding all_below
and_3c = agree_below (λ a. bit_and a 0x3c / 4) (λ a. a / 4) 64 refl

-- The alphabet is read back, and none of its characters ends the loop.
pub value_of-char_of : (v : ℕ) → v < 64 → value_of (char_of v) ≡ v
unfolding all_below value_of char_of
value_of-char_of = agree_below (λ v. value_of (char_of v)) (λ v. v) 64 refl

pub goes_on-char_of : (v : ℕ) → v < 64 → goes_on (char_of v) ≡ true
unfolding all_below goes_on is_base64 char_of
goes_on-char_of v h = all_below_sound 64 (λ i. goes_on (char_of i)) v refl h

module _ (a b c : ℕ) (ha : IsByte a) (hb : IsByte b) (hc : IsByte c) where
  pub sextets :
      (sextet0 a ≡ a / 4)
      × (sextet1 a b ≡ a % 4 * 16 + b / 16)
      × (sextet2 b c ≡ b % 16 * 4 + c / 64)
      × (sextet3 c ≡ c % 64)
  unfolding sextet0 sextet1 sextet2 sextet3
  sextets =
      omega (arith, and_fc a ha, and_03 a ha, and_f0 b hb, and_0f b hb, and_c0 c hc, and_3f c hc)

  pub sextets_small : (sextet0 a < 64) × (sextet1 a b < 64) × (sextet2 b c < 64) × (sextet3 c < 64)
  sextets_small = omega (arith, sextets)

module _ (u v w x : ℕ) (hu : u < 64) (hv : v < 64) (hw : w < 64) (hx : x < 64) where
  pub octets :
      (octet0 u v ≡ u * 4 + v / 16)
      × (octet1 v w ≡ v % 16 * 16 + w / 4)
      × (octet2 w x ≡ w % 4 * 64 + x)
  unfolding octet0 octet1 octet2
  octets = omega (arith, and_30 v hv, and_0f v (omega arith), and_3c w hw, and_03 w (omega arith))

-- Three bytes are read back from their four sextets.
module _ (a b c : ℕ) (ha : IsByte a) (hb : IsByte b) (hc : IsByte c) where
  pub octets-sextets :
      (octet0 (sextet0 a) (sextet1 a b) ≡ a)
      × (octet1 (sextet1 a b) (sextet2 b c) ≡ b)
      × (octet2 (sextet2 b c) (sextet3 c) ≡ c)
  octets-sextets =
      let small = sextets_small a b c ha hb hc in
      omega (
        arith,
        sextets a b c ha hb hc,
        octets (sextet0 a) (sextet1 a b) (sextet2 b c) (sextet3 c) small.0 small.1 small.2 small.3,
      )
