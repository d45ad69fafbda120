-- ===== src/KeyStore/Sealed.antt =====
-- A store that has been encrypted and unlocked gives the keys that it gave before.
use build_env_jenkins.Common.{
  ℕ, ◌≡◌, ◌∙◌, refl, sym, ap, subst, Bytes, List, [], ◌∷◌, Bool, true, false, none, some, length,
  lookup, put, put-All, lookup-below, lookup-put_same, lookup-put_other, IsSorted, All, ◌==◌,
  ==_iff, if◌then◌else◌, Bool-cases, Option-cases, inl, inr, bytes_eq_refl, some-injective,
}
use build_env_jenkins.OpenSsl.{OpenSsl}
use build_env_jenkins.Script.SigHash.{hash}
use build_env_jenkins.KeyStore.{
  reset, set_pub_key, set_secret, get_pub_key, get_id, encrypt_secret, decrypt_secret, KeyStore,
  returned, set_crypted, opens, opens_first, unlock, encrypt_keys, get_basic_key, get_crypted_key,
  get_key, found,
}
use build_env_jenkins.KeyStore.Consistent.{IsKeyEntry, IsConsistent}
use build_env_jenkins.KeyStore.Encrypting.{
  pub_key_of, coded_entry, Encrypted, ends, takes, sealed, encrypt_keys-sealed,
}

-- What the store relies on. AES gives back what it was given, under one key and one initial vector.
pub record HasAes (ssl : OpenSsl) : Type 0 where
  pub decrypts :
      (key iv plain coded : Bytes)
      → ssl.aes_encrypt key iv plain ≡ some coded
      → ssl.aes_decrypt key iv coded ≡ some plain

-- A public key is read back, and has 33 bytes where it is compressed and 65 where it is not.
pub record HasPublicKeys (ssl : OpenSsl) : Type 0 where
  pub readable :
      (secret : Bytes) (compressed : Bool) → ssl.check_key (ssl.public_key secret compressed) ≡ true
  pub short : (secret : Bytes) → length (ssl.public_key secret true) ≡ 33
  pub long : (secret : Bytes) → length (ssl.public_key secret false) ≡ 65

module _ (ssl : OpenSsl) (aes : HasAes ssl) (keys : HasPublicKeys ssl) (master_key : Bytes) where
  -- A crypted entry that comes from a plain one.
  abbrev IsCoded : ℕ × (Bytes × Bytes) → Type 0
  IsCoded (id, (pub_key, coded)) =
      (e : Bytes × Bool) × (length e.0 ≡ 32)
      × (pub_key ≡ pub_key_of ssl master_key e)
      × (encrypt_secret ssl master_key e.0 (hash ssl (pub_key_of ssl master_key e)) ≡ some coded)

  Encrypted-IsCoded :
      {plain : List (ℕ × (Bytes × Bool))} {m m' : List (ℕ × (Bytes × Bytes))}
      → Encrypted ssl master_key plain m m'
      → All (IsKeyEntry ssl) plain
      → All IsCoded m
      → All IsCoded m'
  Encrypted-IsCoded ends p h = h
  Encrypted-IsCoded {m = m} (takes {e = e} coded enc more) p h =
      Encrypted-IsCoded more p.1
        (put-All IsCoded _ (coded_entry ssl master_key e coded) m (e, p.0.1, refl, enc) h)

  -- An identifier that no plain key has keeps its entry.
  lookup-Encrypted-none :
      {plain : List (ℕ × (Bytes × Bool))} {m m' : List (ℕ × (Bytes × Bytes))} (id : ℕ)
      → Encrypted ssl master_key plain m m'
      → All (IsKeyEntry ssl) plain
      → lookup id plain ≡ none
      → lookup id m' ≡ lookup id m
  lookup-Encrypted-none id ends p h = refl
  lookup-Encrypted-none {m = m} id (takes {id = j} {e = e} coded enc more) p h =
      elim (Bool-cases (id == j)) [
        | inl here ↦ cc (rw here at h)
        | inr there ↦
            lookup-Encrypted-none id more p.1 (rw there at h)
            ∙ lookup-put_other id _ (coded_entry ssl master_key e coded) m
                (subst (λ n. (id == n) ≡ false) p.0.0 there)
      ]

  -- One that a plain key has gets the entry made of it.
  lookup-Encrypted-some :
      {plain : List (ℕ × (Bytes × Bool))} {m m' : List (ℕ × (Bytes × Bytes))} (id : ℕ)
      (e : Bytes × Bool)
      → Encrypted ssl master_key plain m m'
      → All (IsKeyEntry ssl) plain
      → IsSorted plain
      → lookup id plain ≡ some e
      → (coded : Bytes) × (encrypt_secret ssl master_key e.0
            (hash ssl (pub_key_of ssl master_key e))
          ≡ some coded)
        × (length e.0 ≡ 32)
        × (lookup id m' ≡ some (coded_entry ssl master_key e coded))
  lookup-Encrypted-some id e ends p o h = cc
  lookup-Encrypted-some {m = m} {m' = m'} id e (takes {id = j} {e = f} coded enc more) p o h =
      elim (Bool-cases (id == j)) [
        | inl here ↦
            let same : f ≡ e = some-injective f e (rw here at h) in
            let at_id : lookup j m' ≡ some (coded_entry ssl master_key f coded) =
              lookup-Encrypted-none j more p.1 (lookup-below j _ o.0)
              ∙ subst
                  (λ n.
                    lookup n (
                      put (get_id ssl (pub_key_of ssl master_key f))
                        (coded_entry ssl master_key f coded) m)
                    ≡ some (coded_entry ssl master_key f coded))
                  (sym p.0.0) (lookup-put_same _ _ m) in
            subst
              (λ g.
                (c : Bytes) × (encrypt_secret ssl master_key g.0
                    (hash ssl (pub_key_of ssl master_key g))
                  ≡ some c)
                × (length g.0 ≡ 32)
                × (lookup id m' ≡ some (coded_entry ssl master_key g c)))
              same
              (
                coded,
                enc,
                p.0.1,
                subst (λ n. lookup n m' ≡ some (coded_entry ssl master_key f coded))
                    (sym ((==_iff id j).0 here)) at_id,
              )
        | inr there ↦ lookup-Encrypted-some id e more p.1 o.1 (rw there at h)
      ]

  -- The key that is made of a coded entry is the plain one.
  opened_key :
      (e : Bytes × Bool)
      → length e.0 ≡ 32
      → set_secret e.0 false (set_pub_key ssl (pub_key_of ssl master_key e) reset)
        ≡ some (record { secret = e.0; compressed = e.1 })
  unfolding set_secret set_pub_key
  opened_key (secret, true) h = rw (h, keys.readable secret true, keys.short secret)
  opened_key (secret, false) h = rw (h, keys.readable secret false, keys.long secret)

  decrypted :
      (plain iv coded : Bytes)
      → encrypt_secret ssl master_key plain iv ≡ some coded
      → decrypt_secret ssl master_key coded iv ≡ some plain
  unfolding encrypt_secret decrypt_secret
  decrypted plain iv coded h = elim (Bool-cases (length master_key == 32)) [
    | inl whole ↦ rw whole (aes.decrypts master_key iv plain coded (rw whole at h))
    | inr broken ↦ cc (rw broken at h)
  ]

  opens_coded :
      (id : ℕ) (entry : Bytes × Bytes)
      → IsCoded (id, entry)
      → opens ssl master_key entry ≡ some true
  unfolding opens get_pub_key
  opens_coded id (pub_key, coded) (e, size, same, enc) =
      subst (λ k. opens ssl master_key (k, coded) ≡ some true) (sym same)
        (rw (
          decrypted e.0 (hash ssl (pub_key_of ssl master_key e)) coded enc,
          opens,
          size,
          opened_key e size,
          bytes_eq_refl (pub_key_of ssl master_key e),
        ))

  opens-All :
      (m : List (ℕ × (Bytes × Bytes))) → All IsCoded m → opens_first ssl master_key m ≡ some true
  unfolding opens_first
  opens-All [] h = refl
  opens-All ((id, entry) ∷ m) h = opens_coded id entry h.0

  -- A sealed store, unlocked.
  unlock-sealed :
      (s : KeyStore) (m : List (ℕ × (Bytes × Bytes)))
      → All IsCoded m
      → unlock ssl master_key (sealed ssl master_key s m)
        ≡ returned true (record (sealed ssl master_key s m) { master_key = master_key })
  unfolding unlock set_crypted
  unlock-sealed s m h = rw (opens-All m h, unlock)

  get_basic_key-some :
      (s : KeyStore) (id : ℕ) (e : Bytes × Bool)
      → lookup id s.map_keys ≡ some e
      → length e.0 ≡ 32
      → get_basic_key id s ≡ found (record { secret = e.0; compressed = e.1 })
  unfolding get_basic_key set_secret
  get_basic_key-some s id (secret, true) h size = rw (h, get_basic_key, size)
  get_basic_key-some s id (secret, false) h size = rw (h, get_basic_key, size)

  get_crypted_key-some :
      (s : KeyStore) (id : ℕ) (e : Bytes × Bool) (coded : Bytes)
      → s.master_key ≡ master_key
      → lookup id s.map_crypted_keys ≡ some (coded_entry ssl master_key e coded)
      → encrypt_secret ssl master_key e.0 (hash ssl (pub_key_of ssl master_key e)) ≡ some coded
      → length e.0 ≡ 32
      → get_crypted_key ssl id s ≡ found (record { secret = e.0; compressed = e.1 })
  unfolding get_crypted_key
  get_crypted_key-some s id e coded k h enc size = rw (
    h,
    get_crypted_key,
    k,
    decrypted e.0 (hash ssl (pub_key_of ssl master_key e)) coded enc,
    size,
    opened_key e size,
  )

  get_key-sealed :
      (s : KeyStore) (m : List (ℕ × (Bytes × Bytes))) (id : ℕ)
      → Encrypted ssl master_key s.map_keys [] m
      → All (IsKeyEntry ssl) s.map_keys
      → IsSorted s.map_keys
      → get_crypted_key ssl id (record (sealed ssl master_key s m) { master_key = master_key })
        ≡ get_basic_key id s
  unfolding get_crypted_key get_basic_key
  get_key-sealed s m id grown p o = elim (Option-cases (lookup id s.map_keys)) [
    | inl none_there ↦
        rw (none_there, get_basic_key)
          (rw (lookup-Encrypted-none id grown p none_there, get_crypted_key))
    | inr (e, there) ↦
        let (coded, enc, size, at_id) = lookup-Encrypted-some id e grown p o there in
        get_crypted_key-some (record (sealed ssl master_key s m) { master_key = master_key }) id e
          coded refl at_id enc size
        ∙ sym (get_basic_key-some s id e there size)
  ]

  get_key-plain :
      (s : KeyStore) (id : ℕ) → s.use_crypto ≡ false → get_key ssl id s ≡ get_basic_key id s
  unfolding get_key
  get_key-plain s id plain =
      ap (λ b. if b then get_crypted_key ssl id s else get_basic_key id s) plain

  -- A consistent store that is encrypted and then unlocked, with one master key, gives under every
  -- identifier what it gave before; `Unlock` accepts the key.
  pub get_key-encrypted :
      (s : KeyStore) {t : KeyStore}
      → IsConsistent ssl s
      → encrypt_keys ssl master_key s ≡ returned true t
      → (u : KeyStore) × (unlock ssl master_key t ≡ returned true u)
        × ((id : ℕ) → get_key ssl id u ≡ get_key ssl id s)
  unfolding get_key
  get_key-encrypted s {t} h e =
      let (plain, (m, grown, left)) = encrypt_keys-sealed ssl master_key s e in
      (
        record (sealed ssl master_key s m) { master_key = master_key },
        ap (λ v. unlock ssl master_key v) left
            ∙ unlock-sealed s m (Encrypted-IsCoded grown h.keys_entered tt),
        λ id.
            get_key-sealed s m id grown h.keys_entered h.keys_sorted
            ∙ sym (get_key-plain s id plain),
      )
