-- ===== src/Signing/Accepted.antt =====
-- A signature that `CKey::Sign` makes is accepted by `CheckSig`.
use build_env_jenkins.Common.{
  ℕ, zero, suc, ◌%◌, ◌<◌, ◌≡◌, ◌∙◌, refl, ap, ap₂, Bytes, List, [], ◌∷◌, ◌++◌, Bool, true, some,
  length, arith,
}
use build_env_jenkins.OpenSsl.{OpenSsl}
use build_env_jenkins.Transaction.{TxIn, Transaction}
use build_env_jenkins.Script.SigHash.{put_sig, signature_hash}
use build_env_jenkins.Script.SigHash.Blanking.{SameInputs, SameButSigs, signature_hash-SameButSigs}
use build_env_jenkins.Script.SigCache.{get}
use build_env_jenkins.Script.CheckSig.{
  split_last, key_verifies, used_hash_type, sig_data, check_entry, check_sig_cached, check_sig,
}
use build_env_jenkins.KeyStore.{Key, get_pub_key}
use build_env_jenkins.KeyStore.Sealed.{HasPublicKeys}
use build_env_jenkins.Signing.{with_type, with_script}

-- What a secret signs its public key verifies.
pub record HasEcdsa (ssl : OpenSsl) : Type 0 where
  pub verifies :
      (secret hashed sig : Bytes) (compressed : Bool)
      → length secret ≡ 32
      → ssl.ecdsa_sign secret hashed ≡ some sig
      → ssl.ecdsa_verify (ssl.public_key secret compressed) hashed sig ≡ true

split_last-append : (v : Bytes) (b : ℕ) → split_last (v ++ b ∷ []) ≡ some (v, b)
unfolding split_last
split_last-append [] b = refl
split_last-append (x ∷ []) b = refl
split_last-append (x ∷ y ∷ v) b = rw (split_last-append (y ∷ v) b, split_last) refl

SameInputs-refl : (ins : List TxIn) → SameInputs ins ins
SameInputs-refl [] = tt
SameInputs-refl (i ∷ ins) = (refl, refl, SameInputs-refl ins)

put_sig-SameInputs : (n : ℕ) (code : Bytes) (ins : List TxIn) → SameInputs (put_sig n code ins) ins
unfolding put_sig
put_sig-SameInputs n code [] = tt
put_sig-SameInputs zero code (i ∷ ins) = (refl, refl, SameInputs-refl ins)
put_sig-SameInputs (suc n) code (i ∷ ins) = (refl, refl, put_sig-SameInputs n code ins)

with_script-SameButSigs :
    (tx : Transaction) (n_in : ℕ) (script_sig : Bytes)
    → SameButSigs (with_script tx n_in script_sig) tx
with_script-SameButSigs tx n_in script_sig = record {
  same_version = refl;
  same_time = refl;
  same_inputs = put_sig-SameInputs n_in script_sig tx.vin;
  same_outputs = refl;
  same_lock_time = refl;
}

sig_data-signed :
    (ssl : OpenSsl) (pub_key : Bytes) (tx : Transaction) (n_in hash_type : ℕ)
    (code script_sig sig : Bytes)
    → hash_type < 256
    → sig_data ssl (with_type sig hash_type) pub_key code (with_script tx n_in script_sig) n_in 0
      ≡ some (record {
        sighash = signature_hash ssl code tx n_in hash_type;
        sig = sig;
        pub_key = pub_key;
      })
unfolding sig_data used_hash_type
sig_data-signed ssl pub_key tx n_in hash_type code script_sig sig small =
    rw (sig_data, split_last-append sig (hash_type % 256))
      (ap₂
        (λ (used : ℕ) (hashed : Bytes).
          some (record { sighash = hashed; sig = sig; pub_key = pub_key }))
        (same_type)
        (signature_hash-SameButSigs ssl code n_in (hash_type % 256)
            (with_script-SameButSigs tx n_in script_sig)
          ∙ ap (λ t. signature_hash ssl code tx n_in t) same_type))
  where
    same_type : hash_type % 256 ≡ hash_type
    same_type = omega arith

module _ (ssl : OpenSsl) (ecdsa : HasEcdsa ssl) (public : HasPublicKeys ssl) (key : Key)
    (is_secret : length key.secret ≡ 32) where
  -- `CheckSig` accepts what the key has signed, with its hash type, for the same script and input.
  pub check_sig-signed :
      (tx : Transaction) (n_in hash_type : ℕ) (code script_sig sig : Bytes)
      → hash_type < 256
      → ssl.ecdsa_sign key.secret (signature_hash ssl code tx n_in hash_type) ≡ some sig
      → check_sig ssl
          (with_type sig hash_type)
          (get_pub_key ssl key)
          code
          (with_script tx n_in script_sig)
          n_in
          0
        ≡ true
  unfolding check_sig check_sig_cached check_entry key_verifies get get_pub_key
  check_sig-signed tx n_in hash_type code script_sig sig small made =
      rw
        (
          check_sig,
          check_sig_cached,
          sig_data-signed ssl (get_pub_key ssl key) tx n_in hash_type code script_sig sig small,
          public.readable key.secret key.compressed,
          ecdsa.verifies key.secret (signature_hash ssl code tx n_in hash_type) sig key.compressed
              is_secret made,
        )
        refl
