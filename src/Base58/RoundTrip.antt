-- ===== src/Base58/RoundTrip.antt =====
-- `DecodeBase58` of what `EncodeBase58` makes.
use build_env_jenkins.Common.{
  ℕ, suc, ◌*◌, ◌^◌, ◌<◌, ◌≤◌, ◌≡◌, ◌∙◌, refl, sym, ap, ap₂, subst, Bytes, IsByte, All, [], ◌∷◌,
  ◌++◌, reverse, map, false, some, length, replicate, from_le, leb, ◌==◌, ==_iff, if◌then◌else◌,
  Bool-cases, inl, inr, reverse-cons, reverse-reverse, length-reverse, All-append, arith,
}
use native.Mathlib.Nat.{pow-suc}
use build_env_jenkins.Common.Int.{pos}
use build_env_jenkins.OpenSsl.{OpenSsl}
use build_env_jenkins.Bignum.{get_vch}
use build_env_jenkins.Bignum.Mpi.{
  HasMpi, signed, get_vch-zero, get_vch-above, set_vch-unsigned, from_le-zero,
}
use build_env_jenkins.Base58.{
  char_at, encode_digits, count_leading, encode_base58, trim_front, trim_sign, decode_base58,
}
use build_env_jenkins.Base58.Digits.{skip_space-digits, c_str-digits}
use build_env_jenkins.Base58.Written.{
  written, written-small, decode_loop-written, count_leading-written, reverse-digits,
}

-- The bytes behind the zeros at the start.
abbrev strip : Bytes → Bytes
strip [] = []
strip (x ∷ v) = let rest = strip v in if x == 0 then rest else x ∷ v

strip-zeros : (v : Bytes) → replicate (count_leading 0 v) 0 ++ strip v ≡ v
unfolding count_leading
strip-zeros [] = refl
strip-zeros (x ∷ v) = elim (Bool-cases (x == 0)) [
  | inl zero_byte ↦
      rw zero_byte (ap₂ (λ a b. a ∷ b) (sym ((==_iff x 0).0 zero_byte)) (strip-zeros v))
  | inr other ↦ rw other
]

-- What the bytes behind the zeros are.
abbrev IsStripped : Bytes → Type 0
IsStripped [] = Unit
IsStripped (b ∷ v) = (1 ≤ b) × (b < 256) × All IsByte v

strip-IsStripped : (v : Bytes) → All IsByte v → IsStripped (strip v)
strip-IsStripped [] h = tt
strip-IsStripped (x ∷ v) h = elim (Bool-cases (x == 0)) [
  | inl zero_byte ↦ rw zero_byte (strip-IsStripped v h.1)
  | inr other ↦ rw other (ground arith, h.0, h.1)
]

from_be-strip : (v : Bytes) → from_le (reverse (strip v)) ≡ from_le (reverse v)
from_be-strip [] = refl
from_be-strip (x ∷ v) = elim (Bool-cases (x == 0)) [
  | inl zero_byte ↦ rw zero_byte (
      from_be-strip v
      ∙ sym (from_le-zero (reverse v))
      ∙ ap (λ b. from_le (reverse v ++ b ∷ [])) (sym ((==_iff x 0).0 zero_byte))
      ∙ ap from_le (sym (reverse-cons x v)))
  | inr other ↦ rw other
]

length-strip : (v : Bytes) → length (strip v) ≤ length v
length-strip [] = omega arith
length-strip (x ∷ v) = elim (Bool-cases (x == 0)) [
  | inl zero_byte ↦ rw zero_byte (omega (arith, length-strip v))
  | inr other ↦ rw other (omega arith)
]

-- Two digits hold a byte.
from_le_bound : (v : Bytes) → All IsByte v → from_le v < 58 ^ (2 * length v)
from_le_bound [] h = omega arith
from_le_bound (x ∷ v) h =
    rw (double (length v), pow-suc 58 (suc (2 * length v)), pow-suc 58 (2 * length v))
      (omega (arith, h.0, from_le_bound v h.1))
  where
    double : (n : ℕ) → 2 * suc n ≡ suc (suc (2 * n))
    double n = omega arith

All-reverse-IsByte : (v : Bytes) → All IsByte v → All IsByte (reverse v)
All-reverse-IsByte [] h = tt
All-reverse-IsByte (x ∷ v) h =
    rw reverse-cons (All-append IsByte (reverse v) (x ∷ []) (All-reverse-IsByte v h.1) (h.0, tt))

-- The byte of the sign, where there is one, is taken away.
trim-signed : (b : ℕ) (v : Bytes) → 1 ≤ b → reverse (trim_sign (reverse (signed (b ∷ v)))) ≡ b ∷ v
unfolding trim_sign
trim-signed b v h =
    reverse-reverse (trim_front (reverse (reverse (signed (b ∷ v)))))
    ∙ ap trim_front (reverse-reverse (signed (b ∷ v)))
    ∙ front v
  where
    not_zero : (b : ℕ) → 1 ≤ b → (b == 0) ≡ false
    not_zero b h = ground arith

    no_zero : (v : Bytes) → trim_front (b ∷ v) ≡ b ∷ v
    no_zero [] = refl
    no_zero (y ∷ v) = rw (not_zero b h)

    front : (v : Bytes) → trim_front (signed (b ∷ v)) ≡ b ∷ v
    front v = elim (Bool-cases (leb 128 b)) [
      | inl high ↦ rw (high, high)
      | inr low ↦ rw low (no_zero v)
    ]

module _ (ssl : OpenSsl) (mpi : HasMpi ssl) where
  -- The bytes that the decoder gets from the number that the bytes behind the zeros are.
  number_bytes :
      (v : Bytes)
      → IsStripped v
      → length v < 2 ^ 31
      → reverse (trim_sign (get_vch ssl (pos (from_le (reverse v))))) ≡ v
  unfolding trim_sign
  number_bytes [] h n = rw (get_vch-zero ssl mpi)
  number_bytes (b ∷ v) (above, byte, bytes) n =
      ap (λ x. reverse (trim_sign x)) (get_vch-above ssl mpi b v above byte bytes (omega arith))
      ∙ trim-signed b v above

  encode_base58-written :
      (v : Bytes)
      → All IsByte v
      → length v < 2 ^ 31
      → encode_base58 ssl v
        ≡ map char_at (written (count_leading 0 v) (2 * length v) (from_le (reverse v)))
  unfolding encode_base58 encode_digits
  encode_base58-written v h n =
      rw (set_vch-unsigned ssl mpi v h n)
        (reverse-digits (count_leading 0 v) (2 * length v) (from_le (reverse v)))

  -- What the decoder makes of a number behind some zeros.
  decode_base58-written :
      (zeros fuel n : ℕ)
      → n < 58 ^ fuel
      → decode_base58 ssl (map char_at (written zeros fuel n))
        ≡ some (replicate zeros 0 ++ reverse (trim_sign (get_vch ssl (pos n))))
  unfolding decode_base58
  decode_base58-written zeros fuel n h = rw (
    decode_base58,
    c_str-digits (written zeros fuel n) (written-small zeros fuel n),
    skip_space-digits (written zeros fuel n) (written-small zeros fuel n),
    decode_loop-written zeros fuel n h,
    c_str-digits (written zeros fuel n) (written-small zeros fuel n),
    skip_space-digits (written zeros fuel n) (written-small zeros fuel n),
    count_leading-written zeros fuel n h,
  )

  -- Bytes come back from their base 58 string, with the zeros that they start with, where there
  -- are less than 2^31 of them.
  pub decode_base58-encode_base58 :
      (v : Bytes)
      → All IsByte v
      → length v < 2 ^ 31
      → decode_base58 ssl (encode_base58 ssl v) ≡ some v
  decode_base58-encode_base58 v h n =
      ap (decode_base58 ssl) (encode_base58-written v h n)
      ∙ decode_base58-written (count_leading 0 v) (2 * length v) (from_le (reverse v))
          (reversed_bound v h)
      ∙ ap some (
          ap (λ w. replicate (count_leading 0 v) 0 ++ w)
            (ap (λ k. reverse (trim_sign (get_vch ssl (pos k)))) (sym (from_be-strip v))
              ∙ number_bytes (strip v) (strip-IsStripped v h) (omega (arith, length-strip v)))
          ∙ strip-zeros v)
    where
      reversed_bound : (v : Bytes) → All IsByte v → from_le (reverse v) < 58 ^ (2 * length v)
      reversed_bound v h =
          subst (λ k. from_le (reverse v) < 58 ^ (2 * k)) (length-reverse v)
            (from_le_bound (reverse v) (All-reverse-IsByte v h))
