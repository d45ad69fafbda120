-- ===== src/KeyStore/Consistent.antt =====
-- What holds of a store between two calls: the two modes of `CCryptoKeyStore` exclude each other,
-- and every entry stands under the identifier of its key.
use build_env_jenkins.Common.{
  ℕ, ◌≡◌, refl, Bytes, List, [], ◌∷◌, Bool, true, false, length, put, put-All, put-IsSorted,
  IsSorted, All, if◌then◌else◌,
}
use build_env_jenkins.OpenSsl.{OpenSsl}
use build_env_jenkins.KeyStore.{
  Key, get_id, KeyStore, empty_store, returned, set_crypted, lock, unlock, add_crypted_key, add_key,
  add_script, encrypt_keys,
}

module _ (ssl : OpenSsl) where
  -- An entry of `mapKeys` and one of `mapCryptedKeys`.
  abbrev pub IsKeyEntry : ℕ × (Bytes × Bool) → Type 0
  IsKeyEntry (id, (secret, compressed)) =
      (id ≡ get_id ssl (ssl.public_key secret compressed)) × (length secret ≡ 32)

  abbrev pub IsCryptedEntry : ℕ × (Bytes × Bytes) → Type 0
  IsCryptedEntry (id, (pub_key, coded)) = id ≡ get_id ssl pub_key

  pub record IsConsistent (s : KeyStore) : Type 0 where
    pub no_plain : s.use_crypto ≡ true → s.map_keys ≡ []
    pub no_master : s.use_crypto ≡ false → s.master_key ≡ []
    pub no_crypted : s.use_crypto ≡ false → s.map_crypted_keys ≡ []
    pub keys_sorted : IsSorted s.map_keys
    pub keys_entered : All IsKeyEntry s.map_keys
    pub crypted_sorted : IsSorted s.map_crypted_keys
    pub crypted_entered : All IsCryptedEntry s.map_crypted_keys

  -- The calls of the wallet, with what they leave. A key has a secret of 32 bytes, and
  -- `EncryptKeys` is followed only where it returns true: the wallet exits otherwise.
  infix 40 ◌⟶◌
  pub data ◌⟶◌ : KeyStore → KeyStore → Type 0 where
    locks : {s : KeyStore} → s ⟶ (lock s).1
    unlocks :
        {s t : KeyStore} {ok : Bool} (master_key : Bytes)
        → unlock ssl master_key s ≡ returned ok t
        → s ⟶ t
    adds : {s : KeyStore} (key : Key) → length key.secret ≡ 32 → s ⟶ (add_key ssl key s).1
    adds_crypted :
        {s : KeyStore} (pub_key coded : Bytes) → s ⟶ (add_crypted_key ssl pub_key coded s).1
    adds_script : {s : KeyStore} (script : Bytes) → s ⟶ add_script ssl script s
    encrypts :
        {s t : KeyStore} (master_key : Bytes)
        → encrypt_keys ssl master_key s ≡ returned true t
        → s ⟶ t

  pub data IsReachable : KeyStore → Type 0 where
    starts : IsReachable empty_store
    follows : {s t : KeyStore} → IsReachable s → s ⟶ t → IsReachable t

  pub empty-IsConsistent : IsConsistent empty_store
  empty-IsConsistent = record {
    no_plain = λ e. cc;
    no_master = λ e. refl;
    no_crypted = λ e. refl;
    keys_sorted = tt;
    keys_entered = tt;
    crypted_sorted = tt;
    crypted_entered = tt;
  }

  -- `SetCrypted` leaves the store as it was, or turns an empty one to its other mode.
  pub data Turned (s : KeyStore) : Bool × KeyStore → Type 0 where
    already : s.use_crypto ≡ true → Turned s (true, s)
    turned : s.map_keys ≡ [] → Turned s (true, record s { use_crypto = true })
    stays : Turned s (false, s)

  pub set_crypted-Turned : (s : KeyStore) → Turned s (set_crypted s)
  unfolding set_crypted
  set_crypted-Turned s = by_mode s.use_crypto refl
    where
      from_keys :
          (keys : List (ℕ × (Bytes × Bool)))
          → s.map_keys ≡ keys
          → Turned s
              (elim keys [ [] ↦ (true, record s { use_crypto = true }) | k ∷ ks ↦ (false, s) ])
      from_keys [] e = turned e
      from_keys (k ∷ ks) e = stays

      by_mode :
          (crypted : Bool)
          → s.use_crypto ≡ crypted
          → Turned s (
              if crypted then (true, s) else elim s.map_keys [
                | [] ↦ (true, record s { use_crypto = true })
                | k ∷ ks ↦ (false, s)
              ])
      by_mode true e = already e
      by_mode false e = from_keys s.map_keys refl

  -- What `SetCrypted` leaves where it returns true.
  pub record IsCryptedStore (s : KeyStore) : Type 0 where
    pub crypted : s.use_crypto ≡ true
    pub consistent : IsConsistent s

  turn-IsConsistent :
      (s : KeyStore)
      → IsConsistent s
      → s.map_keys ≡ []
      → IsConsistent (record s { use_crypto = true })
  turn-IsConsistent s h e = record {
    no_plain = λ t. e;
    no_master = λ f. cc;
    no_crypted = λ f. cc;
    keys_sorted = h.keys_sorted;
    keys_entered = h.keys_entered;
    crypted_sorted = h.crypted_sorted;
    crypted_entered = h.crypted_entered;
  }

  pub Turned-crypted :
      {s : KeyStore} {r : Bool × KeyStore}
      → Turned s r
      → IsConsistent s
      → r.0 ≡ true
      → IsCryptedStore r.1
  Turned-crypted (already c) h e = record { crypted = c; consistent = h }
  Turned-crypted {s} (turned k) h e = record {
    crypted = refl;
    consistent = turn-IsConsistent s h k;
  }
  Turned-crypted stays h e = cc

  pub Turned-IsConsistent :
      {s : KeyStore} {r : Bool × KeyStore} → Turned s r → IsConsistent s → IsConsistent r.1
  Turned-IsConsistent (already c) h = h
  Turned-IsConsistent {s} (turned k) h = turn-IsConsistent s h k
  Turned-IsConsistent stays h = h

  -- In the crypted mode the master key is free.
  pub master-IsConsistent :
      (s : KeyStore) (master_key : Bytes) (mint_only : Bool)
      → IsCryptedStore s
      → IsConsistent (record s { master_key = master_key; unlock_mint_only = mint_only })
  master-IsConsistent s master_key mint_only c = record {
    no_plain = c.consistent.no_plain;
    no_master = λ f. cc (c.crypted, f);
    no_crypted = λ f. cc (c.crypted, f);
    keys_sorted = c.consistent.keys_sorted;
    keys_entered = c.consistent.keys_entered;
    crypted_sorted = c.consistent.crypted_sorted;
    crypted_entered = c.consistent.crypted_entered;
  }

  pub entry-IsConsistent :
      (s : KeyStore) (pub_key coded : Bytes)
      → IsCryptedStore s
      → IsConsistent (record s {
        map_crypted_keys = put (get_id ssl pub_key) (pub_key, coded) s.map_crypted_keys;
      })
  entry-IsConsistent s pub_key coded c = record {
    no_plain = c.consistent.no_plain;
    no_master = c.consistent.no_master;
    no_crypted = λ f. cc (c.crypted, f);
    keys_sorted = c.consistent.keys_sorted;
    keys_entered = c.consistent.keys_entered;
    crypted_sorted =
        put-IsSorted (get_id ssl pub_key) (pub_key, coded) s.map_crypted_keys
          c.consistent.crypted_sorted;
    crypted_entered =
        put-All IsCryptedEntry (get_id ssl pub_key) (pub_key, coded) s.map_crypted_keys refl
          c.consistent.crypted_entered;
  }
