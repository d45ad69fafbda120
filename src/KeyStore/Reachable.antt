-- ===== src/KeyStore/Reachable.antt =====
-- Every call keeps a store consistent.
use build_env_jenkins.Common.{
  ℕ, ◌≡◌, refl, sym, subst, Bytes, [], Bool, true, false, Option, none, some, length, put-All,
  put-IsSorted, if◌then◌else◌, Bool-cases, inl, inr, arith,
}
use build_env_jenkins.OpenSsl.{OpenSsl}
use build_env_jenkins.Script.SigHash.{hash}
use build_env_jenkins.KeyStore.{
  Key, get_pub_key, encrypt_secret, KeyStore, Outcome, returned, thrown, set_crypted, is_locked,
  lock, opens_first, unlock, add_crypted_key, add_basic_key, add_encrypted, add_key, add_script,
  encrypt_keys, decrypt_secret, get_key, get_crypted_key, missing,
}
use build_env_jenkins.KeyStore.Encrypting.{encrypt_keys-sealed, Encrypted-kept}
use build_env_jenkins.KeyStore.Consistent.{
  IsKeyEntry, IsConsistent, IsCryptedStore, ◌⟶◌, locks, unlocks, adds, adds_crypted, adds_script,
  encrypts, IsReachable, starts, follows, empty-IsConsistent, set_crypted-Turned, Turned-crypted,
  Turned-IsConsistent, master-IsConsistent, entry-IsConsistent,
}

module _ (ssl : OpenSsl) where
  -- What `SetCrypted` leaves, by its result.
  set_crypted-crypted :
      (s : KeyStore)
      → IsConsistent ssl s
      → (set_crypted s).0 ≡ true
      → IsCryptedStore ssl (set_crypted s).1
  set_crypted-crypted s h e = Turned-crypted ssl (set_crypted-Turned ssl s) h e

  set_crypted-IsConsistent :
      (s : KeyStore) → IsConsistent ssl s → IsConsistent ssl (set_crypted s).1
  set_crypted-IsConsistent s h = Turned-IsConsistent ssl (set_crypted-Turned ssl s) h

  lock-IsConsistent : (s : KeyStore) → IsConsistent ssl s → IsConsistent ssl (lock s).1
  unfolding lock
  lock-IsConsistent s h = elim (Bool-cases (set_crypted s).0) [
    | inl ok ↦
        rw ok (master-IsConsistent ssl (set_crypted s).1 [] false (set_crypted-crypted s h ok))
    | inr refused ↦ rw refused (set_crypted-IsConsistent s h)
  ]

  -- A call that may throw.
  abbrev Kept : Outcome → Type 0
  Kept (returned ok t) = IsConsistent ssl t
  Kept (thrown t) = IsConsistent ssl t

  unlock-Kept :
      (s : KeyStore) (master_key : Bytes) → IsConsistent ssl s → Kept (unlock ssl master_key s)
  unfolding unlock
  unlock-Kept s master_key h = elim (Bool-cases (set_crypted s).0) [
    | inl ok ↦ rw ok (
        after (opens_first ssl master_key (set_crypted s).1.map_crypted_keys)
          (set_crypted-crypted s h ok))
    | inr refused ↦ rw refused (set_crypted-IsConsistent s h)
  ]
    where
      after :
          (o : Option Bool)
          → IsCryptedStore ssl (set_crypted s).1
          → Kept (elim o [
            | none ↦ thrown (set_crypted s).1
            | some true ↦ returned true (record (set_crypted s).1 { master_key = master_key })
            | some false ↦ returned false (set_crypted s).1
          ])
      after none c = c.consistent
      after (some true) c =
          master-IsConsistent ssl (set_crypted s).1 master_key (set_crypted s).1.unlock_mint_only c
      after (some false) c = c.consistent

  add_crypted_key-IsConsistent :
      (s : KeyStore) (pub_key coded : Bytes)
      → IsConsistent ssl s
      → IsConsistent ssl (add_crypted_key ssl pub_key coded s).1
  unfolding add_crypted_key
  add_crypted_key-IsConsistent s pub_key coded h = elim (Bool-cases (set_crypted s).0) [
    | inl ok ↦
        rw ok (entry-IsConsistent ssl (set_crypted s).1 pub_key coded (set_crypted-crypted s h ok))
    | inr refused ↦ rw refused (set_crypted-IsConsistent s h)
  ]

  add_basic_key-IsConsistent :
      (s : KeyStore) (key : Key)
      → length key.secret ≡ 32
      → s.use_crypto ≡ false
      → IsConsistent ssl s
      → IsConsistent ssl (add_basic_key ssl key s)
  unfolding add_basic_key get_pub_key
  add_basic_key-IsConsistent s key size plain h = record {
    no_plain = λ e. cc (plain, e);
    no_master = h.no_master;
    no_crypted = h.no_crypted;
    keys_sorted = put-IsSorted _ (key.secret, key.compressed) s.map_keys h.keys_sorted;
    keys_entered =
        put-All (IsKeyEntry ssl) _ (key.secret, key.compressed) s.map_keys (refl, size)
          h.keys_entered;
    crypted_sorted = h.crypted_sorted;
    crypted_entered = h.crypted_entered;
  }

  add_encrypted-IsConsistent :
      (s : KeyStore) (pub_key : Bytes) (o : Option Bytes)
      → IsConsistent ssl s
      → IsConsistent ssl (add_encrypted ssl pub_key o s).1
  unfolding add_encrypted
  add_encrypted-IsConsistent s pub_key none h = h
  add_encrypted-IsConsistent s pub_key (some coded) h =
      add_crypted_key-IsConsistent s pub_key coded h

  add_key-IsConsistent :
      (s : KeyStore) (key : Key)
      → length key.secret ≡ 32
      → IsConsistent ssl s
      → IsConsistent ssl (add_key ssl key s).1
  unfolding add_key
  add_key-IsConsistent s key size h = by_mode s.use_crypto refl
    where
      tried : Bool × KeyStore
      tried =
          add_encrypted ssl (get_pub_key ssl key)
            (encrypt_secret ssl s.master_key key.secret (hash ssl (get_pub_key ssl key))) s

      by_lock : (locked : Bool) → IsConsistent ssl (if locked then (false, s) else tried).1
      by_lock true = h
      by_lock false = add_encrypted-IsConsistent s (get_pub_key ssl key) _ h

      by_mode :
          (crypted : Bool)
          → s.use_crypto ≡ crypted
          → IsConsistent ssl
              (if crypted
                then (if is_locked s then (false, s) else tried)
                else (true, add_basic_key ssl key s)).1
      by_mode true e = by_lock (is_locked s)
      by_mode false e = add_basic_key-IsConsistent s key size e h

  add_script-IsConsistent :
      (s : KeyStore) (script : Bytes)
      → IsConsistent ssl s
      → IsConsistent ssl (add_script ssl script s)
  unfolding add_script
  add_script-IsConsistent s script h = record {
    no_plain = h.no_plain;
    no_master = h.no_master;
    no_crypted = h.no_crypted;
    keys_sorted = h.keys_sorted;
    keys_entered = h.keys_entered;
    crypted_sorted = h.crypted_sorted;
    crypted_entered = h.crypted_entered;
  }

  encrypt_keys-IsConsistent :
      (s : KeyStore) {t : KeyStore} (master_key : Bytes)
      → IsConsistent ssl s
      → encrypt_keys ssl master_key s ≡ returned true t
      → IsConsistent ssl t
  encrypt_keys-IsConsistent s master_key h e =
      let (plain, (m, grown, left)) = encrypt_keys-sealed ssl master_key s e in
      let kept = Encrypted-kept ssl master_key grown (tt, tt) in
      subst (IsConsistent ssl) (sym left) (record {
        no_plain = λ c. refl;
        no_master = λ f. cc f;
        no_crypted = λ f. cc f;
        keys_sorted = tt;
        keys_entered = tt;
        crypted_sorted = kept.0;
        crypted_entered = kept.1;
      })

  pub ⟶-IsConsistent : {s t : KeyStore} → ◌⟶◌ ssl s t → IsConsistent ssl s → IsConsistent ssl t
  ⟶-IsConsistent {s} locks h = lock-IsConsistent s h
  ⟶-IsConsistent {s} (unlocks master_key e) h = subst Kept e (unlock-Kept s master_key h)
  ⟶-IsConsistent {s} (adds key size) h = add_key-IsConsistent s key size h
  ⟶-IsConsistent {s} (adds_crypted pub_key coded) h = add_crypted_key-IsConsistent s pub_key coded h
  ⟶-IsConsistent {s} (adds_script script) h = add_script-IsConsistent s script h
  ⟶-IsConsistent {s} (encrypts master_key e) h = encrypt_keys-IsConsistent s master_key h e

  -- A store that is reached from the empty one by `Lock`, `Unlock`, `AddKey` of a secret of 32 bytes,
  -- `AddCryptedKey`, `AddCScript` and `EncryptKeys` that returns true is consistent: the plain keys
  -- are gone where encryption is on, the master key and the crypted keys are not there where it is
  -- off, and the entries are in the order of their identifiers, each under that of its own key. What
  -- is left by a call that throws, or by an `EncryptKeys` that returns false, is not among them.
  pub Reachable-IsConsistent : {s : KeyStore} → IsReachable ssl s → IsConsistent ssl s
  Reachable-IsConsistent starts = empty-IsConsistent ssl
  Reachable-IsConsistent (follows r step) = ⟶-IsConsistent step (Reachable-IsConsistent r)

  -- A locked store gives no key, whatever the identifier, and takes no key.
  pub locked_refuses :
      (s : KeyStore) (id : ℕ) (key : Key)
      → is_locked s ≡ true
      → (get_key ssl id s ≡ missing) × (add_key ssl key s ≡ (false, s))
  unfolding is_locked get_key get_crypted_key decrypt_secret add_key
  locked_refuses s id key h = (ground arith, ground arith)
