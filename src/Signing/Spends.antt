-- ===== src/Signing/Spends.antt =====
-- A key that is in the store spends the outputs to its address.
use build_env_jenkins.Common.{
  ℕ, ◌%◌, ◌≤◌, ◌<◌, ◌≡◌, ◌≢◌, ◌∙◌, refl, sym, ap, subst, Bytes, [], ◌∷◌, ◌++◌, Bool, true, false,
  Option, some, length, from_le, lookup-put_same, bytes_eq_refl, length-append, append-nil, lt→leb,
  ◌||◌, arith,
}
use build_env_jenkins.OpenSsl.{OpenSsl}
use build_env_jenkins.Transaction.{Transaction}
use build_env_jenkins.Script.Builder.{push_data, push_all}
use build_env_jenkins.Script.SigHash.{hash160, signature_hash}
use build_env_jenkins.Script.Ops.Crypto.{check}
use build_env_jenkins.Script.Machine.{Context}
use build_env_jenkins.Script.Verify.PubKeyHash.{verify_pub_key_hash}
use build_env_jenkins.Script.Solver.{pubkeyhash, key_id, set_destination}
use build_env_jenkins.Script.Solver.RoundTrip.{solver_key_id}
use build_env_jenkins.KeyStore.{
  Key, reset, set_secret, get_pub_key, get_id, KeyStore, found, get_key, get_basic_key,
  get_stored_pub_key, add_basic_key, add_key,
}
use build_env_jenkins.KeyStore.Sealed.{HasPublicKeys}
use build_env_jenkins.Signing.{
  signed, with_type, with_script, sign1, append_key, solve_as, solve, test_solution, sign_solved,
  sign_signature,
}
use build_env_jenkins.Signing.Untouched.{find_and_delete-key_id}
use build_env_jenkins.Signing.Accepted.{HasEcdsa, check_sig-signed}

push_all_two : (v w : Bytes) → push_all (v ∷ w ∷ []) ≡ push_data v ++ push_data w
unfolding push_all
push_all_two v w = ap (λ t. push_data v ++ t) (append-nil (push_data w))

-- What the store has of a key.
record IsStored (ssl : OpenSsl) (store : KeyStore) (key : Key) : Type 0 where
  stored : get_key ssl (from_le (hash160 ssl (get_pub_key ssl key))) store ≡ found key
  public_stored :
      get_stored_pub_key ssl (from_le (hash160 ssl (get_pub_key ssl key))) store
      ≡ some (get_pub_key ssl key)

module _ (ssl : OpenSsl) (ecdsa : HasEcdsa ssl) (public : HasPublicKeys ssl) (store : KeyStore)
    (key : Key) (is_secret : length key.secret ≡ 32) where
  abbrev pub_key : Bytes
  pub_key = get_pub_key ssl key

  abbrev id : Bytes
  id = hash160 ssl pub_key

  -- The script that pays to the key.
  abbrev script : Bytes
  script = set_destination (key_id id)

  solve_as-signed :
      (hashed sig : Bytes) (hash_type : ℕ)
      → IsStored ssl store key
      → ssl.ecdsa_sign key.secret hashed ≡ some sig
      → solve_as ssl store hashed hash_type pubkeyhash (id ∷ [])
        ≡ signed true (push_all (with_type sig hash_type ∷ pub_key ∷ []))
  unfolding solve_as sign1 append_key
  solve_as-signed hashed sig hash_type s made =
      rw (solve_as, sign1, s.stored, made, s.public_stored)
        (ap (signed true) (sym (push_all_two (with_type sig hash_type) pub_key)))

  solve-signed :
      (hashed sig : Bytes) (hash_type : ℕ)
      → IsStored ssl store key
      → length id ≡ 20
      → ssl.ecdsa_sign key.secret hashed ≡ some sig
      → solve ssl store script hashed hash_type
        ≡ (signed true (push_all (with_type sig hash_type ∷ pub_key ∷ [])), pubkeyhash)
  unfolding solve
  solve-signed hashed sig hash_type s h made =
      rw (solve, solver_key_id id h)
        (ap (λ a. (a, pubkeyhash)) (solve_as-signed hashed sig hash_type s made))

  pub_key-short : length pub_key ≤ 520
  unfolding get_pub_key
  pub_key-short = by_form key.compressed
    where
      by_form : (compressed : Bool) → length (ssl.public_key key.secret compressed) ≤ 520
      by_form true = omega (arith, public.short key.secret)
      by_form false = omega (arith, public.long key.secret)

  test_solution-signed :
      (tx : Transaction) (n_in hash_type : ℕ) (sig : Bytes)
      → length id ≡ 20
      → hash_type < 256
      → length sig ≤ 519
      → with_type sig hash_type ≢ id
      → ssl.ecdsa_sign key.secret (signature_hash ssl script tx n_in hash_type) ≡ some sig
      → test_solution ssl script tx n_in (push_all (with_type sig hash_type ∷ pub_key ∷ []))
        ≡ signed true (push_all (with_type sig hash_type ∷ pub_key ∷ []))
  unfolding test_solution check
  test_solution-signed tx n_in hash_type sig h small short other made =
      rw
        (
          test_solution,
          verify_pub_key_hash ctx pub_key (with_type sig hash_type) id true pub_key-short
              (omega (arith, length-append sig (hash_type % 256 ∷ []))) h,
          bytes_eq_refl id,
          find_and_delete-key_id (with_type sig hash_type) id h other,
          check_sig-signed ssl ecdsa public key is_secret tx n_in hash_type script script_sig sig
              small made,
        )
        refl
    where
      script_sig : Bytes
      script_sig = push_all (with_type sig hash_type ∷ pub_key ∷ [])

      ctx : Context
      ctx = record { ssl = ssl; tx = with_script tx n_in script_sig; n_in = n_in; hash_type = 0 }

  sign_signature-stored :
      (tx : Transaction) (n_in hash_type : ℕ) (sig : Bytes)
      → IsStored ssl store key
      → length id ≡ 20
      → n_in < length tx.vin
      → hash_type < 256
      → length sig ≤ 519
      → with_type sig hash_type ≢ id
      → ssl.ecdsa_sign key.secret (signature_hash ssl script tx n_in hash_type) ≡ some sig
      → sign_signature ssl store script tx n_in hash_type
        ≡ signed true (push_all (with_type sig hash_type ∷ pub_key ∷ []))
  unfolding sign_signature sign_solved
  sign_signature-stored tx n_in hash_type sig s h there small short other made =
      rw (sign_signature, lt→leb (length tx.vin) n_in there)
        (ap (sign_solved ssl store script tx n_in hash_type)
            (solve-signed (signature_hash ssl script tx n_in hash_type) sig hash_type s h made)
          ∙ test_solution-signed tx n_in hash_type sig h small short other made)

add_key-plain :
    (ssl : OpenSsl) (key : Key) (store : KeyStore)
    → store.use_crypto ≡ false
    → add_key ssl key store ≡ (true, add_basic_key ssl key store)
unfolding add_key
add_key-plain ssl key store plain = rw (add_key, plain) refl

module _ (ssl : OpenSsl) (key : Key) (is_secret : length key.secret ≡ 32) where
  same_key : set_secret key.secret key.compressed reset ≡ some key
  unfolding set_secret
  same_key = rw (set_secret, is_secret) (by_form key.compressed)
    where
      by_form :
          (compressed : Bool)
          → ◌≡◌ {A = Option Key}
              (some (record { secret = key.secret; compressed = compressed || false }))
              (some (record { secret = key.secret; compressed = compressed }))
      by_form true = refl
      by_form false = refl

  read_basic :
      (store : KeyStore)
      → get_basic_key (get_id ssl (get_pub_key ssl key)) (add_basic_key ssl key store) ≡ found key
  unfolding get_basic_key add_basic_key
  read_basic store =
      rw
        (
          get_basic_key,
          lookup-put_same (get_id ssl (get_pub_key ssl key)) (key.secret, key.compressed)
              store.map_keys,
          same_key,
        )
        refl

  added-IsStored :
      (store : KeyStore) → store.use_crypto ≡ false → IsStored ssl (add_basic_key ssl key store) key
  unfolding get_key get_stored_pub_key get_id add_basic_key get_basic_key
  added-IsStored store plain = record {
    stored = rw (get_key, plain) (read_basic store);
    public_stored = rw (get_stored_pub_key, plain, read_basic store) refl;
  }

-- Where the store is not crypted, adding a key lets `SignSignature` sign an input for the output to
-- the key's address: it returns true, with the signature and the public key in the input. The
-- identifier has 20 bytes, the secret 32, the signature at most 519 and it is not the identifier.
pub sign_signature-add_key :
    (ssl : OpenSsl) (store : KeyStore) (key : Key) (tx : Transaction) (n_in hash_type : ℕ)
    (sig : Bytes)
    → HasEcdsa ssl
    → HasPublicKeys ssl
    → length key.secret ≡ 32
    → store.use_crypto ≡ false
    → length (hash160 ssl (get_pub_key ssl key)) ≡ 20
    → n_in < length tx.vin
    → hash_type < 256
    → length sig ≤ 519
    → with_type sig hash_type ≢ hash160 ssl (get_pub_key ssl key)
    → ssl.ecdsa_sign key.secret (
        signature_hash ssl
          (set_destination (key_id (hash160 ssl (get_pub_key ssl key))))
          tx
          n_in
          hash_type)
      ≡ some sig
    → sign_signature ssl
        (add_key ssl key store).1
        (set_destination (key_id (hash160 ssl (get_pub_key ssl key))))
        tx
        n_in
        hash_type
      ≡ signed true (push_all (with_type sig hash_type ∷ get_pub_key ssl key ∷ []))
sign_signature-add_key ssl store key tx n_in hash_type sig ecdsa public is_secret plain =
    sign_signature-stored ssl ecdsa public (add_key ssl key store).1 key is_secret tx n_in hash_type
      sig
      (subst (λ r. IsStored ssl r.1 key) (sym (add_key-plain ssl key store plain))
        (added-IsStored ssl key is_secret store plain))
