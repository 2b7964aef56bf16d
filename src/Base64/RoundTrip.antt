-- ===== src/Base64/RoundTrip.antt =====
-- base64_decode undoes base64_encode.
use lin_socket_io.Base.{
  ◌+◌, ◌*◌, ◌≤◌, ◌^◌, ltb, length, length-append, take, some, if_either, ℕ, ◌≡◌, refl, sym, ap, ◌∙◌,
  true, [], ◌∷◌, ◌++◌, append-nil, append_assoc, arith, Bytes, IsByte, All,
}
use lin_socket_io.Base64.{
  rounds, char_of, value_of, goes_on, sextet0, sextet1, sextet2, sextet3, octet0, octet1, octet2,
  Held, held0, held1, held2, encode_group, encode_tail, encode_loop, base64_encode, chars0, chars2,
  chars3, decode_group, decode_tail, decode_loop, base64_decode,
}
use lin_socket_io.Base64.Bits.{value_of-char_of, goes_on-char_of, sextets_small, octets-sextets}

-- The characters of sextets are taken one by one; the fourth gives three bytes.
decode_loop-decode_group :
    (ret cs : Bytes) (p q r s : ℕ)
    → goes_on p ≡ true
    → goes_on q ≡ true
    → goes_on r ≡ true
    → goes_on s ≡ true
    → decode_loop ret chars0 (p ∷ q ∷ r ∷ s ∷ cs)
      ≡ decode_loop (ret ++ decode_group p q r s) chars0 cs
unfolding decode_loop
decode_loop-decode_group ret cs p q r s hp hq hr hs = rw (hp, hq, hr, hs)

-- A `=` ends the loop after two or three characters.
decode_loop_two :
    (ret : Bytes) (p q : ℕ)
    → goes_on p ≡ true
    → goes_on q ≡ true
    → decode_loop ret chars0 (p ∷ q ∷ b'=' ∷ b'=' ∷ []) ≡ ret ++ decode_tail (chars2 p q)
unfolding decode_loop goes_on
decode_loop_two ret p q hp hq = rw (hp, hq)

decode_loop_three :
    (ret : Bytes) (p q r : ℕ)
    → goes_on p ≡ true
    → goes_on q ≡ true
    → goes_on r ≡ true
    → decode_loop ret chars0 (p ∷ q ∷ r ∷ b'=' ∷ []) ≡ ret ++ decode_tail (chars3 p q r)
unfolding decode_loop goes_on
decode_loop_three ret p q r hp hq hr = rw (hp, hq, hr)

encode_loop-append :
    (ret : Bytes) (h : Held) (xs : Bytes) → encode_loop ret h xs ≡ ret ++ encode_loop [] h xs
unfolding encode_loop
encode_loop-append ret h [] = refl
encode_loop-append ret held0 (x ∷ xs) = encode_loop-append ret (held1 x) xs
encode_loop-append ret (held1 a) (x ∷ xs) = encode_loop-append ret (held2 a x) xs
encode_loop-append ret (held2 a b) (x ∷ xs) =
    encode_loop-append (ret ++ encode_group a b x) held0 xs
    ∙ append_assoc ret (encode_group a b x) (encode_loop [] held0 xs)
    ∙ ap (λ t. ret ++ t) (sym (encode_loop-append (encode_group a b x) held0 xs))

module _ (a b c : ℕ) (ha : IsByte a) (hb : IsByte b) (hc : IsByte c) where
  group_goes_on :
      (goes_on (char_of (sextet0 a)) ≡ true)
      × (goes_on (char_of (sextet1 a b)) ≡ true)
      × (goes_on (char_of (sextet2 b c)) ≡ true)
      × (goes_on (char_of (sextet3 c)) ≡ true)
  group_goes_on =
      let small = sextets_small a b c ha hb hc in
      (
        goes_on-char_of _ small.0,
        goes_on-char_of _ small.1,
        goes_on-char_of _ small.2,
        goes_on-char_of _ small.3,
      )

  group_octets :
      (octet0 (value_of (char_of (sextet0 a))) (value_of (char_of (sextet1 a b))) ≡ a)
      × (octet1 (value_of (char_of (sextet1 a b))) (value_of (char_of (sextet2 b c))) ≡ b)
      × (octet2 (value_of (char_of (sextet2 b c))) (value_of (char_of (sextet3 c))) ≡ c)
  group_octets =
      let small = sextets_small a b c ha hb hc in
      rw
        (
          value_of-char_of (sextet0 a) small.0,
          value_of-char_of (sextet1 a b) small.1,
          value_of-char_of (sextet2 b c) small.2,
          value_of-char_of (sextet3 c) small.3,
        )
        (octets-sextets a b c ha hb hc)

  decode_loop-encode_group :
      (ret cs : Bytes)
      → decode_loop ret chars0 (encode_group a b c ++ cs)
        ≡ decode_loop (ret ++ a ∷ b ∷ c ∷ []) chars0 cs
  unfolding encode_group decode_group
  decode_loop-encode_group ret cs =
      let go = group_goes_on in
      decode_loop-decode_group ret cs _ _ _ _ go.0 go.1 go.2 go.3
      ∙ rw (group_octets.0, group_octets.1, group_octets.2)

-- the bytes that the encoder holds back
held_bytes : Held → Bytes
held_bytes held0 = []
held_bytes (held1 a) = a ∷ []
held_bytes (held2 a b) = a ∷ b ∷ []

decode_loop-encode_tail :
    (ret : Bytes) (h : Held)
    → All IsByte (held_bytes h)
    → decode_loop ret chars0 (encode_tail h) ≡ ret ++ held_bytes h
unfolding encode_tail held_bytes
decode_loop-encode_tail ret held0 v = unfold decode_loop decode_tail in refl
decode_loop-encode_tail ret (held1 a) v =
    let go = group_goes_on a 0 0 v.0 (omega arith) (omega arith) in
    decode_loop_two ret _ _ go.0 go.1
    ∙ unfold decode_tail in rw ((group_octets a 0 0 v.0 (omega arith) (omega arith)).0)
decode_loop-encode_tail ret (held2 a b) v =
    let go = group_goes_on a b 0 v.0 v.1.0 (omega arith) in
    let back = group_octets a b 0 v.0 v.1.0 (omega arith) in
    decode_loop_three ret _ _ _ go.0 go.1 go.2 ∙ unfold decode_tail in rw (back.0, back.1)

decode_loop-encode_loop :
    (ret : Bytes) (h : Held) (xs : Bytes)
    → All IsByte (held_bytes h)
    → All IsByte xs
    → decode_loop ret chars0 (encode_loop [] h xs) ≡ ret ++ (held_bytes h ++ xs)
unfolding encode_loop held_bytes
decode_loop-encode_loop ret h [] v w = decode_loop-encode_tail ret h v ∙ rw append-nil
decode_loop-encode_loop ret held0 (x ∷ xs) v (p, w) =
    decode_loop-encode_loop ret (held1 x) xs (p, tt) w
decode_loop-encode_loop ret (held1 a) (x ∷ xs) v (p, w) =
    decode_loop-encode_loop ret (held2 a x) xs (v.0, (p, tt)) w
decode_loop-encode_loop ret (held2 a b) (x ∷ xs) v (p, w) =
    ap (decode_loop ret chars0) (encode_loop-append (encode_group a b x) held0 xs)
    ∙ decode_loop-encode_group a b x v.0 v.1.0 p ret (encode_loop [] held0 xs)
    ∙ decode_loop-encode_loop (ret ++ a ∷ b ∷ x ∷ []) held0 xs tt w
    ∙ append_assoc ret (a ∷ b ∷ x ∷ []) xs

-- Three bytes are four characters, and so are one or two at the end.
length-encode_loop :
    (h : Held) (xs : Bytes)
    → 3 * length (encode_loop [] h xs) ≤ 4 * (length (held_bytes h) + length xs) + 8
unfolding encode_loop encode_tail held_bytes
length-encode_loop held0 [] = omega arith
length-encode_loop (held1 a) [] = omega arith
length-encode_loop (held2 a b) [] = omega arith
length-encode_loop held0 (x ∷ xs) = omega (arith, length-encode_loop (held1 x) xs)
length-encode_loop (held1 a) (x ∷ xs) = omega (arith, length-encode_loop (held2 a x) xs)
length-encode_loop (held2 a b) (x ∷ xs) = rw (encode_loop-append (encode_group a b x) held0 xs) (
    let four : length (encode_group a b x) ≡ 4 = unfold encode_group in refl in
    omega (
      arith,
      four,
      length-append (encode_group a b x) (encode_loop [] held0 xs),
      length-encode_loop held0 xs,
    ))

rounds-le : (cs : Bytes) → rounds cs ≤ length cs
unfolding rounds
rounds-le [] = omega arith
rounds-le (c ∷ cs) = ground (arith, rounds-le cs)

take_whole : (xs : Bytes) → take (length xs) xs ≡ xs
take_whole [] = refl
take_whole (x ∷ xs) = ap (◌∷◌ x) (take_whole xs)

-- base64_decode gives back every string of at most 1610612733 bytes that base64_encode was given: up
-- to there the index of base64_decode does not overflow.
pub base64_decode-base64_encode :
    (bytes : Bytes)
    → All IsByte bytes
    → length bytes ≤ 1610612733
    → base64_decode (base64_encode bytes) ≡ some bytes
unfolding base64_decode base64_encode held_bytes
base64_decode-base64_encode bytes h small =
    ap (λ n. base64_decode (encode_loop [] held0 (take n bytes))) (omega arith)
    ∙ ap (λ xs. base64_decode (encode_loop [] held0 xs)) (take_whole bytes)
    ∙ if_either (λ o. o ≡ some bytes) (ltb (rounds (encode_loop [] held0 bytes)) (2 ^ 31)) _ _
        (λ _. ap some (decode_loop-encode_loop [] held0 bytes tt h))
        (λ large.
          let chars = length-encode_loop held0 bytes in
          let few = rounds-le (encode_loop [] held0 bytes) in ground (arith, large))
