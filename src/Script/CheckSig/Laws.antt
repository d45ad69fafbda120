-- ===== src/Script/CheckSig/Laws.antt =====
-- The cache of signatures does not change what `CheckSig` answers.
use build_env_jenkins.Common.{
  ℕ, ◌≡◌, refl, Bytes, [], true, Option, none, some, All, Bool-cases, inl, inr,
}
use build_env_jenkins.OpenSsl.{OpenSsl}
use build_env_jenkins.Transaction.{Transaction}
use build_env_jenkins.Script.SigCache.{SigData, Cache, get}
use build_env_jenkins.Script.SigCache.Laws.{get-All, cache_set-All}
use build_env_jenkins.Script.CheckSig.{
  key_verifies, sig_data, check_entry, check_sig_cached, check_sig,
}

module _ (ssl : OpenSsl) where
  -- Every entry of the cache is a signature that verifies.
  abbrev pub IsCoherent : Cache → Type 0
  IsCoherent = All (λ k. key_verifies ssl k ≡ true)

  found_verifies :
      (k : SigData) (c : Cache) → IsCoherent c → get k c ≡ true → key_verifies ssl k ≡ true
  found_verifies k c h e = get-All (λ k. key_verifies ssl k ≡ true) k c h e

  check_entry-eq :
      (max_size : ℕ) (draws : ℕ → Bytes) (c : Cache) (o : Option SigData)
      → IsCoherent c
      → let (answer, left) = check_entry ssl max_size draws c o in
        (answer ≡ (check_entry ssl 0 (λ _. []) [] o).0) × IsCoherent left
  unfolding check_entry get
  check_entry-eq max_size draws c none h = (refl, h)
  check_entry-eq max_size draws c (some k) h = elim (Bool-cases (get k c)) [
    | inl hit ↦ rw (hit, found_verifies k c h hit) (refl, h)
    | inr miss ↦ elim (Bool-cases (key_verifies ssl k)) [
      | inl good ↦
          rw (miss, good)
            (refl, cache_set-All (λ e. key_verifies ssl e ≡ true) max_size draws k c good h)
      | inr bad ↦ rw (miss, bad) (refl, h)
    ]
  ]

  -- With a cache whose entries all verify `CheckSig` answers as it does with no cache at all,
  -- whatever its size limit and the entries evicted, and the cache that it leaves has only
  -- entries that verify.
  pub check_sig_cached-eq :
      (max_size : ℕ) (draws : ℕ → Bytes) (c : Cache) (sig pub_key code : Bytes) (tx : Transaction)
      (n_in hash_type : ℕ)
      → IsCoherent c
      → let (answer, left) =
          check_sig_cached ssl max_size draws c sig pub_key code tx n_in hash_type in
        (answer ≡ check_sig ssl sig pub_key code tx n_in hash_type) × IsCoherent left
  unfolding check_sig check_sig_cached
  check_sig_cached-eq max_size draws c sig pub_key code tx n_in hash_type h =
      check_entry-eq max_size draws c (sig_data ssl sig pub_key code tx n_in hash_type) h
