-- ===== src/Base58/Check.antt =====
-- `DecodeBase58Check` of what `EncodeBase58Check` makes.
use build_env_jenkins.Common.{
  ℕ, zero, suc, ◌-◌, ◌^◌, ◌<◌, ◌≤◌, ◌≡◌, refl, sym, ap, Bytes, IsByte, All, [], ◌∷◌, ◌++◌, false,
  some, length, take, drop, bytes_eq_refl, ltb, All-append, length-append, arith,
}
use build_env_jenkins.OpenSsl.{OpenSsl}
use build_env_jenkins.Bignum.Mpi.{HasMpi}
use build_env_jenkins.Script.SigHash.{hash}
use build_env_jenkins.Base58.{encode_base58_check, checked, decode_base58_check}
use build_env_jenkins.Base58.RoundTrip.{decode_base58-encode_base58}

-- SHA-256 gives 32 bytes.
pub record HasSha256 (ssl : OpenSsl) : Type 0 where
  pub bytes : (v : Bytes) → All IsByte (ssl.sha256 v)
  pub size : (v : Bytes) → length (ssl.sha256 v) ≡ 32

take_some : (v : Bytes) (n : ℕ) → n ≤ length v → length (take n v) ≡ n
take_some v zero h = refl
take_some [] (suc n) h = absurd (omega arith)
take_some (x ∷ v) (suc n) h = ap suc (take_some v n (omega arith))

All-take : (n : ℕ) (v : Bytes) → All IsByte v → All IsByte (take n v)
All-take zero v h = tt
All-take (suc n) [] h = tt
All-take (suc n) (x ∷ v) h = (h.0, All-take n v h.1)

take-append : (v w : Bytes) → take (length v) (v ++ w) ≡ v
take-append [] w = refl
take-append (x ∷ v) w = ap (λ u. x ∷ u) (take-append v w)

drop-append : (v w : Bytes) → drop (length v) (v ++ w) ≡ w
drop-append [] w = refl
drop-append (x ∷ v) w = drop-append v w

checked-with :
    (ssl : OpenSsl) (v w : Bytes)
    → length w ≡ 4
    → w ≡ take 4 (hash ssl v)
    → checked ssl (v ++ w) ≡ some v
unfolding checked
checked-with ssl v w four same =
    rw (enough, checked, size, take-append v w, drop-append v w, sym same, bytes_eq_refl w)
  where
    size : length (v ++ w) - 4 ≡ length v
    size = omega (arith, length-append v w, four)

    not_below : (n : ℕ) → 4 ≤ n → ltb n 4 ≡ false
    not_below n h = ground arith

    enough : ltb (length (v ++ w)) 4 ≡ false
    enough = not_below (length (v ++ w)) (omega (arith, length-append v w, four))

module _ (ssl : OpenSsl) (mpi : HasMpi ssl) (sha : HasSha256 ssl) where
  check_bytes : (v : Bytes) → All IsByte (take 4 (hash ssl v))
  unfolding hash
  check_bytes v = All-take 4 (ssl.sha256 (ssl.sha256 v)) (sha.bytes (ssl.sha256 v))

  check_size : (v : Bytes) → length (take 4 (hash ssl v)) ≡ 4
  unfolding hash
  check_size v = take_some (ssl.sha256 (ssl.sha256 v)) 4 (omega (arith, sha.size (ssl.sha256 v)))

  -- Bytes come back from their base 58 string with a check, where there are less than 2^30.
  pub decode_base58_check-encode_base58_check :
      (v : Bytes)
      → All IsByte v
      → length v < 2 ^ 30
      → decode_base58_check ssl (encode_base58_check ssl v) ≡ some v
  unfolding decode_base58_check encode_base58_check
  decode_base58_check-encode_base58_check v h n =
      rw
        (
          decode_base58_check,
          decode_base58-encode_base58 ssl mpi (v ++ take 4 (hash ssl v))
              (All-append IsByte v (take 4 (hash ssl v)) h (check_bytes v))
              (omega (arith, length-append v (take 4 (hash ssl v)), check_size v)),
        )
        (checked-with ssl v (take 4 (hash ssl v)) (check_size v) refl)
