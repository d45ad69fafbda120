-- ===== src/KeyStore/Encrypting.antt =====
-- `EncryptKeys`, as a fold of the plain keys into the crypted ones.
use build_env_jenkins.Common.{
  ℕ, ◌≡◌, ◌∙◌, refl, sym, ap, subst, Bytes, List, [], ◌∷◌, Bool, true, false, Option, none, some,
  length, put, put-All, put-IsSorted, IsSorted, All, ◌==◌, ◌||◌, if◌then◌else◌, Bool-cases, inl,
  inr,
}
use build_env_jenkins.OpenSsl.{OpenSsl}
use build_env_jenkins.Script.SigHash.{hash}
use build_env_jenkins.KeyStore.{
  reset, set_secret, get_pub_key, get_id, encrypt_secret, KeyStore, Outcome, returned, thrown,
  set_crypted, add_crypted_key, add_encrypted, encrypt_key, encrypt_loop, clear_keys, encrypt_keys,
}
use build_env_jenkins.KeyStore.Consistent.{IsCryptedEntry}

returned-injective : {a b : Bool} {s t : KeyStore} → returned a s ≡ returned b t → s ≡ t
returned-injective e = cc e

module _ (ssl : OpenSsl) (master_key : Bytes) where
  abbrev pub pub_key_of : Bytes × Bool → Bytes
  pub_key_of (secret, compressed) = ssl.public_key secret compressed

  -- What a plain entry becomes.
  abbrev pub coded_entry : Bytes × Bool → Bytes → Bytes × Bytes
  coded_entry e coded = (pub_key_of e, coded)

  -- How the crypted keys grow, entry by entry.
  pub data Encrypted
      : List (ℕ × (Bytes × Bool))
        → List (ℕ × (Bytes × Bytes))
        → List (ℕ × (Bytes × Bytes))
        → Type 0 where
    ends : {m : List (ℕ × (Bytes × Bytes))} → Encrypted [] m m
    takes :
        {id : ℕ} {e : Bytes × Bool} {keys : List (ℕ × (Bytes × Bool))}
        {m m' : List (ℕ × (Bytes × Bytes))} (coded : Bytes)
        → encrypt_secret ssl master_key e.0 (hash ssl (pub_key_of e)) ≡ some coded
        → Encrypted keys (put (get_id ssl (pub_key_of e)) (coded_entry e coded) m) m'
        → Encrypted ((id, e) ∷ keys) m m'

  -- One entry, where the loop goes on.
  abbrev Adds : Bytes × Bool → KeyStore → Outcome → Type 0
  Adds e s (returned true t) =
      (coded : Bytes) × (encrypt_secret ssl master_key e.0 (hash ssl (pub_key_of e)) ≡ some coded)
      × (t ≡ record s {
        map_crypted_keys = put (get_id ssl (pub_key_of e)) (coded_entry e coded) s.map_crypted_keys;
      })
  Adds e s (returned false t) = Unit
  Adds e s (thrown t) = Unit

  pub set_crypted-crypted : (s : KeyStore) → s.use_crypto ≡ true → set_crypted s ≡ (true, s)
  unfolding set_crypted
  set_crypted-crypted s c =
      ap
        (λ b. if b then (true, s) else elim s.map_keys as (λ k. Bool × KeyStore) [
          | [] ↦ (true, record s { use_crypto = true })
          | k ∷ ks ↦ (false, s)
        ])
        c

  add_encrypted-Adds :
      (e : Bytes × Bool) (s : KeyStore) (o : Option Bytes)
      → s.use_crypto ≡ true
      → encrypt_secret ssl master_key e.0 (hash ssl (pub_key_of e)) ≡ o
      → Adds e s (
          returned
            (add_encrypted ssl (pub_key_of e) o s).0
            (add_encrypted ssl (pub_key_of e) o s).1)
  unfolding add_encrypted add_crypted_key
  add_encrypted-Adds e s none c h = tt
  add_encrypted-Adds e s (some coded) c h = rw (Adds, set_crypted-crypted s c) (coded, h, refl)

  encrypt_key-Adds :
      (secret : Bytes) (compressed : Bool) (s : KeyStore)
      → s.use_crypto ≡ true
      → Adds
          (secret, compressed)
          s
          (encrypt_key ssl master_key (set_secret secret compressed reset) s)
  unfolding encrypt_key set_secret get_pub_key
  encrypt_key-Adds secret compressed s c = elim (Bool-cases (length secret == 32)) [
    | inl whole ↦ rw (Adds, whole) (by_form compressed)
    | inr broken ↦ rw (Adds, broken) tt
  ]
    where
      by_form :
          (b : Bool)
          → Adds
              (secret, b)
              s
              (encrypt_key ssl master_key
                (some (record { secret = secret; compressed = b || false }))
                s)
      by_form true = add_encrypted-Adds (secret, true) s _ c refl
      by_form false = add_encrypted-Adds (secret, false) s _ c refl

  -- The loop, where it returns true.
  abbrev pub Grows : List (ℕ × (Bytes × Bool)) → KeyStore → Outcome → Type 0
  Grows keys s (returned true t) =
      (m : List (ℕ × (Bytes × Bytes))) × Encrypted keys s.map_crypted_keys m
      × (t ≡ record s { map_crypted_keys = m })
  Grows keys s (returned false t) = Unit
  Grows keys s (thrown t) = Unit

  pub encrypt_loop-Grows :
      (keys : List (ℕ × (Bytes × Bool))) (s : KeyStore)
      → s.use_crypto ≡ true
      → Grows keys s (encrypt_loop ssl master_key keys s)
  unfolding encrypt_loop
  encrypt_loop-Grows [] s c = (s.map_crypted_keys, ends, refl)
  encrypt_loop-Grows ((id, (secret, compressed)) ∷ keys) s c =
      after (encrypt_key ssl master_key (set_secret secret compressed reset) s)
        (encrypt_key-Adds secret compressed s c) (encrypt_loop-Grows keys)
    where
      extend :
          (t : KeyStore) (o : Outcome)
          → Adds (secret, compressed) s (returned true t)
          → Grows keys t o
          → Grows ((id, (secret, compressed)) ∷ keys) s o
      extend t (returned true u) (coded, h, e) (m, grown, left) = (
        m,
        takes coded h (subst (λ v. Encrypted keys v.map_crypted_keys m) e grown),
        left ∙ ap {A = KeyStore} {B = KeyStore} (λ v. record v { map_crypted_keys = m }) e,
      )
      extend t (returned false u) a g = tt
      extend t (thrown u) a g = tt

      after :
          (o : Outcome)
          → Adds (secret, compressed) s o
          → ((t : KeyStore)
              → t.use_crypto ≡ true
              → Grows keys t (encrypt_loop ssl master_key keys t))
          → Grows ((id, (secret, compressed)) ∷ keys) s (elim o [
            | thrown t ↦ thrown t
            | returned false t ↦ returned false t
            | returned true t ↦ encrypt_loop ssl master_key keys t
          ])
      after (thrown t) a ih = tt
      after (returned false t) a ih = tt
      after (returned true t) a ih =
          extend t (encrypt_loop ssl master_key keys t) a (ih t (ap (λ v. v.use_crypto) a.2 ∙ c))

  -- The keys that are already crypted keep their order and places.
  pub Encrypted-kept :
      {keys : List (ℕ × (Bytes × Bool))} {m m' : List (ℕ × (Bytes × Bytes))}
      → Encrypted keys m m'
      → (IsSorted m × All (IsCryptedEntry ssl) m)
      → (IsSorted m' × All (IsCryptedEntry ssl) m')
  Encrypted-kept ends h = h
  Encrypted-kept {m = m} (takes {e = e} coded enc more) h =
      Encrypted-kept more
        (put-IsSorted _ _ m h.0, put-All (IsCryptedEntry ssl) _ (coded_entry e coded) m refl h.1)

  -- What `EncryptKeys` leaves where it returns true.
  abbrev pub sealed : KeyStore → List (ℕ × (Bytes × Bytes)) → KeyStore
  sealed s m = record s { use_crypto = true; map_crypted_keys = m; map_keys = [] }

  pub encrypt_keys-sealed :
      (s : KeyStore) {t : KeyStore}
      → encrypt_keys ssl master_key s ≡ returned true t
      → (s.use_crypto ≡ false)
        × ((m : List (ℕ × (Bytes × Bytes))) × Encrypted s.map_keys [] m × (t ≡ sealed s m))
  unfolding encrypt_keys clear_keys
  encrypt_keys-sealed s {t} h = by_mode s.use_crypto refl h
    where
      after :
          (o : Outcome)
          → Grows s.map_keys (record s { use_crypto = true }) o
          → s.map_crypted_keys ≡ []
          → clear_keys o ≡ returned true t
          → (m : List (ℕ × (Bytes × Bytes))) × Encrypted s.map_keys [] m × (t ≡ sealed s m)
      after (returned true u) (m, grown, left) none_yet e = (
        m,
        subst (λ l. Encrypted s.map_keys l m) none_yet grown,
        sym (returned-injective e)
            ∙ ap {A = KeyStore} {B = KeyStore} (λ v. record v { map_keys = [] }) left,
      )
      after (returned false u) g none_yet e = cc e
      after (thrown u) g none_yet e = cc e

      from_list :
          (l : List (ℕ × (Bytes × Bytes)))
          → s.map_crypted_keys ≡ l
          → (elim l as (λ k. Outcome) [
            | k ∷ ks ↦ returned false s
            | [] ↦
                clear_keys (encrypt_loop ssl master_key s.map_keys (record s { use_crypto = true }))
          ])
            ≡ returned true t
          → (m : List (ℕ × (Bytes × Bytes))) × Encrypted s.map_keys [] m × (t ≡ sealed s m)
      from_list [] none_yet e =
          after _ (encrypt_loop-Grows s.map_keys (record s { use_crypto = true }) refl) none_yet e
      from_list (k ∷ ks) none_yet e = cc e

      by_mode :
          (b : Bool)
          → s.use_crypto ≡ b
          → (if b then returned false s else elim s.map_crypted_keys as (λ k. Outcome) [
            | k ∷ ks ↦ returned false s
            | [] ↦
                clear_keys (encrypt_loop ssl master_key s.map_keys (record s { use_crypto = true }))
          ])
            ≡ returned true t
          → (s.use_crypto ≡ false)
            × ((m : List (ℕ × (Bytes × Bytes))) × Encrypted s.map_keys [] m × (t ≡ sealed s m))
      by_mode true plain e = cc e
      by_mode false plain e = (plain, from_list s.map_crypted_keys refl e)
