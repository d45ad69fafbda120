-- ===== src/Script/Ops/Crypto/Multisig.antt =====
-- The loop of `OP_CHECKMULTISIG` finds a matching of signatures to keys whenever there is one.
use build_env_jenkins.Common.{
  ◌≤◌, ◌≡◌, ◌↔◌, inl, inr, refl, Bytes, List, [], ◌∷◌, Bool, true, false, length, arith, Bool-cases,
}
use build_env_jenkins.Script.Ops.Crypto.{match_sigs}

module _ (test : Bytes → Bytes → Bool) where
  -- The signatures can be given to keys in the order of both lists, each to a key that it fits.
  pub data Matching : List Bytes → List Bytes → Type 0 where
    done : {keys : List Bytes} → Matching [] keys
    fits :
        {sig key : Bytes} {sigs keys : List Bytes}
        → test sig key ≡ true
        → Matching sigs keys
        → Matching (sig ∷ sigs) (key ∷ keys)
    skip : {sigs keys : List Bytes} {key : Bytes} → Matching sigs keys → Matching sigs (key ∷ keys)

  Matching-tail :
      {sig : Bytes} {sigs keys : List Bytes} → Matching (sig ∷ sigs) keys → Matching sigs keys
  Matching-tail (fits e m) = skip m
  Matching-tail (skip m) = skip (Matching-tail m)

  Matching-length : {sigs keys : List Bytes} → Matching sigs keys → length sigs ≤ length keys
  Matching-length done = omega arith
  Matching-length (fits e m) = omega (arith, Matching-length m)
  Matching-length (skip m) = omega (arith, Matching-length m)

  Matching-skipped :
      {sig key : Bytes} {sigs keys : List Bytes}
      → test sig key ≡ false
      → Matching (sig ∷ sigs) (key ∷ keys)
      → Matching (sig ∷ sigs) keys
  Matching-skipped no_fit (fits e m) = cc (e, no_fit)
  Matching-skipped no_fit (skip m) = m

  match_sigs_sound :
      (sigs keys : List Bytes) → match_sigs test sigs keys ≡ true → Matching sigs keys
  unfolding match_sigs
  match_sigs_sound [] keys h = done
  match_sigs_sound (sig ∷ sigs) [] h = cc
  match_sigs_sound (sig ∷ sigs) (key ∷ keys) h = elim (Bool-cases (test sig key)) [
    | inl fit ↦ fits fit (match_sigs_sound sigs keys (ground arith))
    | inr no_fit ↦ skip (match_sigs_sound (sig ∷ sigs) keys (ground arith))
  ]

  match_sigs_complete :
      (sigs keys : List Bytes) → Matching sigs keys → match_sigs test sigs keys ≡ true
  unfolding match_sigs
  match_sigs_complete [] keys m = refl
  match_sigs_complete (sig ∷ sigs) [] m = absurd (omega (arith, Matching-length m))
  match_sigs_complete (sig ∷ sigs) (key ∷ keys) m = elim (Bool-cases (test sig key)) [
    | inl fit ↦ ground (arith, match_sigs_complete sigs keys (tail m), Matching-length (tail m))
    | inr no_fit ↦ ground (
      arith,
      match_sigs_complete (sig ∷ sigs) keys (Matching-skipped no_fit m),
      Matching-length (Matching-skipped no_fit m),
    )
  ]
    where
      tail : Matching (sig ∷ sigs) (key ∷ keys) → Matching sigs keys
      tail (fits e n) = n
      tail (skip n) = Matching-tail n

  -- The loop, which never goes back, accepts exactly the signatures that can be matched to the
  -- keys in order.
  pub match_sigs_iff :
      (sigs keys : List Bytes) → (match_sigs test sigs keys ≡ true) ↔ Matching sigs keys
  match_sigs_iff sigs keys = (match_sigs_sound sigs keys, match_sigs_complete sigs keys)
