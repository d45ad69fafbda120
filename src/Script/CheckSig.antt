-- ===== src/Script/CheckSig.antt =====
-- `CheckSig` of src/script.cpp and `SetPubKey` and `Verify` of src/key.cpp.
pub mod Laws
use build_env_jenkins.Common.{
  ℕ, Bytes, [], ◌∷◌, Option, none, some, Bool, true, false, ◌==◌, if◌then◌else◌, ◌&&◌,
}
use build_env_jenkins.OpenSsl.{OpenSsl}
use build_env_jenkins.Transaction.{Transaction}
use build_env_jenkins.Script.SigHash.{signature_hash}
use build_env_jenkins.Script.SigCache.{SigData, Cache, get, cache_set}

-- The last byte of a signature and what stands before it (`back`, `pop_back`).
unfoldable pub split_last : Bytes → Option (Bytes × ℕ)
split_last [] = none
split_last (b ∷ []) = some ([], b)
split_last (b ∷ c ∷ v) = elim (split_last (c ∷ v)) [ none ↦ none | some (w, l) ↦ some (b ∷ w, l) ]

-- `key.SetPubKey(vchPubKey) && key.Verify(sighash, vchSig)`
unfoldable pub key_verifies : OpenSsl → SigData → Bool
key_verifies ssl k = ssl.check_key k.pub_key && ssl.ecdsa_verify k.pub_key k.sighash k.sig

-- The hash type that is used: the signature's own, unless the caller demands another one.
unfoldable pub used_hash_type : ℕ → ℕ → Option ℕ
used_hash_type wanted last =
    if wanted == 0 then some last else if wanted == last then some wanted else none

-- The entry that `CheckSig` looks up and verifies; `none` is a refusal before that.
unfoldable pub sig_data : OpenSsl → Bytes → Bytes → Bytes → Transaction → ℕ → ℕ → Option SigData
sig_data ssl sig pub_key code tx n_in hash_type = elim (split_last sig) [
  | none ↦ none
  | some (body, last) ↦ elim (used_hash_type hash_type last) [
    | none ↦ none
    | some used ↦
        some
          (record { sighash = signature_hash ssl code tx n_in used; sig = body; pub_key = pub_key })
  ]
]

-- The entry is looked up in the cache, or verified and put there.
unfoldable pub check_entry : OpenSsl → ℕ → (ℕ → Bytes) → Cache → Option SigData → Bool × Cache
check_entry ssl max_cache_size draws cache none = (false, cache)
check_entry ssl max_cache_size draws cache (some k) =
    if get k cache
    then (true, cache)
    else if key_verifies ssl k
    then (true, cache_set max_cache_size draws k cache)
    else (false, cache)

-- `CheckSig` with the cache that it keeps, the cache's size limit and the random hashes drawn.
unfoldable pub check_sig_cached :
    OpenSsl → ℕ → (ℕ → Bytes) → Cache → Bytes → Bytes → Bytes → Transaction → ℕ → ℕ → Bool × Cache
check_sig_cached ssl max_cache_size draws cache sig pub_key code tx n_in hash_type =
    check_entry ssl max_cache_size draws cache (sig_data ssl sig pub_key code tx n_in hash_type)

-- The result of `CheckSig` while its cache is off.
unfoldable pub check_sig : OpenSsl → Bytes → Bytes → Bytes → Transaction → ℕ → ℕ → Bool
check_sig ssl sig pub_key code tx n_in hash_type =
    (check_sig_cached ssl 0 (λ _. []) [] sig pub_key code tx n_in hash_type).0
