-- ===== src/Signing/Combine/Matched.antt =====
-- What `CombineMultisig` merges.
use build_env_jenkins.Common.{
  ℕ, suc, ◌+◌, ◌-◌, ◌≤◌, ◌≡◌, ◌∙◌, refl, sym, ap₂, subst, Bytes, List, [], ◌∷◌, ◌++◌, reverse,
  replicate, append_assoc, append-nil, Bool, true, false, Option, none, some, some-injective,
  length, bytes_eq, bytes_eq_sound, leb, leb→lt, if◌then◌else◌, All, arith,
}
use build_env_jenkins.OpenSsl.{OpenSsl}
use build_env_jenkins.Transaction.{Transaction}
use build_env_jenkins.Script.Opcode.{op_0}
use build_env_jenkins.Script.Builder.{push_data, push_all}
use build_env_jenkins.Script.Ops.Crypto.Multisig.{Matching, done, fits, skip}
use build_env_jenkins.Script.Solver.{front}
use build_env_jenkins.Signing.{keys_of}
use build_env_jenkins.Signing.Combine.{
  collect_sigs, SigMap, sig_of, assign_sig, assign_sigs, merge_sigs, fits_key, combine_multisig,
}

module _ (test : Bytes → Bytes → Bool) where
  -- Every signature of the map fits its key.
  abbrev Fits : SigMap → Type 0
  Fits m = All (λ e. test e.1 e.0 ≡ true) m

  sig_of-Fits :
      (key sig : Bytes) (m : SigMap) → Fits m → sig_of key m ≡ some sig → test sig key ≡ true
  unfolding sig_of
  sig_of-Fits key sig [] h e = cc e
  sig_of-Fits key sig ((k, s) ∷ m) h e = by_key (bytes_eq key k) refl e (sig_of-Fits key sig m h.1)
    where
      by_key :
          (same : Bool)
          → bytes_eq key k ≡ same
          → (if same then some s else sig_of key m) ≡ some sig
          → (sig_of key m ≡ some sig → test sig key ≡ true)
          → test sig key ≡ true
      by_key true eq e rest =
          subst (λ x. test x key ≡ true) (some-injective _ _ e)
            (subst (λ x. test s x ≡ true) (sym (bytes_eq_sound key k eq)) h.0)
      by_key false eq e rest = rest e

  assign_sig-Fits :
      (sig : Bytes) (keys : List Bytes) (m : SigMap) → Fits m → Fits (assign_sig test sig keys m)
  unfolding assign_sig
  assign_sig-Fits sig [] m h = h
  assign_sig-Fits sig (key ∷ keys) m h =
      by_known (sig_of key m) (test sig key) refl (assign_sig-Fits sig keys m h)
    where
      by_known :
          (o : Option Bytes) (fit : Bool)
          → test sig key ≡ fit
          → Fits (assign_sig test sig keys m)
          → Fits (elim o as (λ x. SigMap) [
            | some other ↦ assign_sig test sig keys m
            | none ↦ if fit then (key, sig) ∷ m else assign_sig test sig keys m
          ])
      by_known (some other) fit e rest = rest
      by_known none true e rest = (e, h)
      by_known none false e rest = rest

  assign_sigs-Fits :
      (sigs keys : List Bytes) (m : SigMap) → Fits m → Fits (assign_sigs test sigs keys m)
  unfolding assign_sigs
  assign_sigs-Fits [] keys m h = h
  assign_sigs-Fits (sig ∷ sigs) keys m h =
      assign_sigs-Fits sigs keys (assign_sig test sig keys m) (assign_sig-Fits sig keys m h)

  -- What the merging of signatures appends: signatures that fit the keys in their order, no more than
  -- are asked for.
  pub record IsMerged (required : ℕ) (keys : List Bytes) (before : ℕ) (script : Bytes)
      (r : Bytes × ℕ) : Type 0 where
    pub sigs : List Bytes
    pub appended : r.0 ≡ script ++ push_all sigs
    pub counted : r.1 ≡ before + length sigs
    pub bounded : r.1 ≤ required
    pub matching : Matching test sigs keys

  merge_sigs-IsMerged :
      (required : ℕ) (keys : List Bytes) (m : SigMap) (have : ℕ) (script : Bytes)
      → Fits m
      → have ≤ required
      → IsMerged required keys have script (merge_sigs required keys m have script)
  unfolding merge_sigs push_all
  merge_sigs-IsMerged required [] m have script h le = record {
    sigs = [];
    appended = sym (append-nil script);
    counted = omega arith;
    bounded = le;
    matching = done;
  }
  merge_sigs-IsMerged required (key ∷ keys) m have script h le =
      by_room (leb required have) refl (sig_of key m) refl
        (λ n s k. merge_sigs-IsMerged required keys m n s h k)
    where
      Rest : Type 0
      Rest =
          (n : ℕ) (s : Bytes)
          → n ≤ required
          → IsMerged required keys n s (merge_sigs required keys m n s)

      by_sig :
          (o : Option Bytes)
          → sig_of key m ≡ o
          → leb required have ≡ false
          → Rest
          → IsMerged required (key ∷ keys) have script (elim o as (λ x. Bytes × ℕ) [
            | none ↦ merge_sigs required keys m have script
            | some sig ↦ merge_sigs required keys m (suc have) (script ++ push_data sig)
          ])
      by_sig none e room rest =
          let r = rest have script le in
          record {
            sigs = r.sigs;
            appended = r.appended;
            counted = r.counted;
            bounded = r.bounded;
            matching = skip r.matching;
          }
      by_sig (some sig) e room rest =
          let r = rest (suc have) (script ++ push_data sig) (leb→lt required have room) in
          record {
            sigs = sig ∷ r.sigs;
            appended = r.appended ∙ append_assoc script (push_data sig) (push_all r.sigs);
            counted = omega (arith, r.counted);
            bounded = r.bounded;
            matching = fits (sig_of-Fits key sig m h e) r.matching;
          }

      by_room :
          (full : Bool)
          → leb required have ≡ full
          → (o : Option Bytes) → sig_of key m ≡ o
          → Rest
          → IsMerged required (key ∷ keys) have script (
              if full then (script, have) else elim o as (λ x. Bytes × ℕ) [
                | none ↦ merge_sigs required keys m have script
                | some sig ↦ merge_sigs required keys m (suc have) (script ++ push_data sig)
              ])
      by_room true k o e rest = record {
        sigs = [];
        appended = sym (append-nil script);
        counted = omega arith;
        bounded = le;
        matching = done;
      }
      by_room false k o e rest = by_sig o e k rest

-- `CombineMultisig` gives a script that pushes an empty value, then signatures that fit the keys in
-- their order, and then an empty value for each one that is missing of those that are asked for.
pub combine_multisig-Matching :
    (ssl : OpenSsl) (script_pub_key : Bytes) (tx : Transaction) (n_in : ℕ)
    (sols sigs1 sigs2 : List Bytes)
    → (sigs : List Bytes) × (combine_multisig ssl script_pub_key tx n_in sols sigs1 sigs2
        ≡ op_0 ∷ (push_all sigs ++ replicate (front sols - length sigs) op_0))
      × (length sigs ≤ front sols)
      × Matching (fits_key ssl script_pub_key tx n_in) sigs (keys_of sols)
unfolding combine_multisig
combine_multisig-Matching ssl script_pub_key tx n_in sols sigs1 sigs2 =
    let r =
      merge_sigs-IsMerged (fits_key ssl script_pub_key tx n_in) (front sols) (keys_of sols) m 0
        (op_0 ∷ [])
        (assign_sigs-Fits (fits_key ssl script_pub_key tx n_in) all_sigs (keys_of sols) [] tt)
        (omega arith) in
    let same_count : (merge_sigs (front sols) (keys_of sols) m 0 (op_0 ∷ [])).1 ≡ length r.sigs =
      omega (arith, r.counted) in
    (
      r.sigs,
      ap₂ (λ (script : Bytes) (have : ℕ). script ++ replicate (front sols - have) op_0) r.appended
          same_count,
      omega (arith, r.bounded, r.counted),
      r.matching,
    )
  where
    all_sigs : List Bytes
    all_sigs = collect_sigs (reverse sigs2) (collect_sigs (reverse sigs1) [])

    m : SigMap
    m = assign_sigs (fits_key ssl script_pub_key tx n_in) all_sigs (keys_of sols) []
