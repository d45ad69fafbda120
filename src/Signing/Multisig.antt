-- ===== src/Signing/Multisig.antt =====
-- `SignN` takes the first signatures that the store can make, as many as are asked for.
use build_env_jenkins.Common.{
  ℕ, zero, suc, ◌+◌, ◌-◌, ◌<◌, ◌≡◌, ◌≢◌, ◌∙◌, refl, sym, ap, ap₂, subst, Bytes, List, [], ◌∷◌, ◌++◌,
  Bool, true, false, Option, none, some, length, take, append_assoc, append-nil, ltb, ltb→lt, ◌==◌,
  arith,
}
use build_env_jenkins.OpenSsl.{OpenSsl}
use build_env_jenkins.KeyStore.{get_id, KeyStore, Found, found, missing, failed, get_key}
use build_env_jenkins.Script.Builder.{push_data, push_all}
use build_env_jenkins.Script.Solver.{front}
use build_env_jenkins.Signing.{
  Signed, signed, raised, sign, with_type, sign1, sign_loop, keys_of, sign_n,
}

take_nil : (m : ℕ) → take {A = Bytes} m [] ≡ []
take_nil zero = refl
take_nil (suc m) = refl

enough : (n required : ℕ) → ltb n required ≡ false → required - n ≡ 0
enough n required k = ground arith

module _ (ssl : OpenSsl) (store : KeyStore) (hashed : Bytes) (hash_type : ℕ) where
  -- The signature by a public key, where the store has its secret.
  abbrev by_found : Found → Option Bytes
  by_found missing = none
  by_found failed = none
  by_found (found key) = elim (sign ssl key hashed) [
    | none ↦ none
    | some sig ↦ some (with_type sig hash_type)
  ]

  abbrev pub signature_by : Bytes → Option Bytes
  signature_by pub_key = by_found (get_key ssl (get_id ssl pub_key) store)

  abbrev with_next : Option Bytes → List Bytes → List Bytes
  with_next none sigs = sigs
  with_next (some sig) sigs = sig ∷ sigs

  abbrev pub signatures : List Bytes → List Bytes
  signatures [] = []
  signatures (pub_key ∷ keys) = with_next (signature_by pub_key) (signatures keys)

  -- What `Sign1` appends.
  abbrev appended : Option Bytes → Bytes → Signed
  appended none script_sig = signed false script_sig
  appended (some sig) script_sig = signed true (script_sig ++ push_data sig)

  sign1-appended :
      (pub_key script_sig : Bytes)
      → get_key ssl (get_id ssl pub_key) store ≢ failed
      → sign1 ssl store (get_id ssl pub_key) hashed hash_type script_sig
        ≡ appended (signature_by pub_key) script_sig
  unfolding sign1
  sign1-appended pub_key script_sig fine = by_key (get_key ssl (get_id ssl pub_key) store) fine
    where
      by_sig :
          (o : Option Bytes)
          → (elim o as (λ x. Signed) [
            | none ↦ signed false script_sig
            | some sig ↦ signed true (script_sig ++ push_data (with_type sig hash_type))
          ])
            ≡ appended
                (elim o as (λ x. Option Bytes) [
                  | none ↦ none
                  | some sig ↦ some (with_type sig hash_type)
                ])
                script_sig
      by_sig none = refl
      by_sig (some sig) = refl

      by_key :
          (f : Found)
          → f ≢ failed
          → (elim f as (λ x. Signed) [
            | missing ↦ signed false script_sig
            | failed ↦ raised
            | found key ↦ elim (sign ssl key hashed) as (λ x. Signed) [
              | none ↦ signed false script_sig
              | some sig ↦ signed true (script_sig ++ push_data (with_type sig hash_type))
            ]
          ])
            ≡ appended (by_found f) script_sig
      by_key missing fine = refl
      by_key failed fine = absurd (fine refl)
      by_key (found key) fine = by_sig (sign ssl key hashed)

  -- What the loop gives: the signatures that are still asked for, behind the script.
  abbrev loop_gives : ℕ → List Bytes → ℕ → Bytes → Signed
  loop_gives required sigs n script_sig =
      signed (n + length (take (required - n) sigs) == required)
        (script_sig ++ push_all (take (required - n) sigs))

  loop_gives-cons :
      (required n : ℕ) (sig : Bytes) (sigs : List Bytes) (script_sig : Bytes)
      → n < required
      → loop_gives required sigs (suc n) (script_sig ++ push_data sig)
        ≡ loop_gives required (sig ∷ sigs) n script_sig
  unfolding push_all
  loop_gives-cons required n sig sigs script_sig below =
      subst
        (λ m.
          loop_gives required sigs (suc n) (script_sig ++ push_data sig)
          ≡ signed (n + length (take m (sig ∷ sigs)) == required)
              (script_sig ++ push_all (take m (sig ∷ sigs))))
        one_more
        (ap₂ (λ (c : ℕ) (s : Bytes). signed (c == required) s) (omega arith)
          (append_assoc script_sig (push_data sig) (push_all (take (required - suc n) sigs))))
    where
      one_more : suc (required - suc n) ≡ required - n
      one_more = omega (arith, below)

  gives_nil :
      (required n : ℕ) (script_sig : Bytes)
      → signed (n == required) script_sig
        ≡ signed (n + length {A = Bytes} [] == required) (script_sig ++ push_all [])
  unfolding push_all
  gives_nil required n script_sig =
      ap₂ (λ (c : ℕ) (s : Bytes). signed (c == required) s) (omega arith)
        (sym (append-nil script_sig))

  loop_gives-end :
      (required n : ℕ) (sigs : List Bytes) (script_sig : Bytes)
      → required - n ≡ 0
      → signed (n == required) script_sig ≡ loop_gives required sigs n script_sig
  unfolding push_all
  loop_gives-end required n sigs script_sig e =
      subst
        (λ m.
          signed (n == required) script_sig
          ≡ signed (n + length (take m sigs) == required) (script_sig ++ push_all (take m sigs)))
        (sym e) (gives_nil required n script_sig)

  sign_loop_takes :
      (required : ℕ) (keys : List Bytes) (n : ℕ) (script_sig : Bytes)
      → ((id : ℕ) → get_key ssl id store ≢ failed)
      → sign_loop ssl store hashed hash_type required keys n script_sig
        ≡ loop_gives required (signatures keys) n script_sig
  unfolding sign_loop
  sign_loop_takes required [] n script_sig fine =
      subst
        (λ sigs.
          signed (n == required) script_sig
          ≡ signed (n + length sigs == required) (script_sig ++ push_all sigs))
        (sym (take_nil (required - n))) (gives_nil required n script_sig)
  sign_loop_takes required (pub_key ∷ keys) n script_sig fine =
      by_below (ltb n required) refl (λ m s. sign_loop_takes required keys m s fine)
    where
      Rest : Type 0
      Rest =
          (m : ℕ) (s : Bytes)
          → sign_loop ssl store hashed hash_type required keys m s
            ≡ loop_gives required (signatures keys) m s

      by_next :
          (o : Option Bytes)
          → n < required
          → Rest
          → (elim (appended o script_sig) as (λ x. Signed) [
            | raised ↦ raised
            | signed true s ↦ sign_loop ssl store hashed hash_type required keys (suc n) s
            | signed false s ↦ sign_loop ssl store hashed hash_type required keys n s
          ])
            ≡ loop_gives required (with_next o (signatures keys)) n script_sig
      by_next none below rest = rest n script_sig
      by_next (some sig) below rest =
          rest (suc n) (script_sig ++ push_data sig)
          ∙ loop_gives-cons required n sig (signatures keys) script_sig below

      by_below :
          (below : Bool)
          → ltb n required ≡ below
          → Rest
          → (elim below as (λ x. Signed) [
            | false ↦ signed (n == required) script_sig
            | true ↦
                elim (sign1 ssl store (get_id ssl pub_key) hashed hash_type script_sig)
                  as (λ x. Signed) [
                    | raised ↦ raised
                    | signed true s ↦ sign_loop ssl store hashed hash_type required keys (suc n) s
                    | signed false s ↦ sign_loop ssl store hashed hash_type required keys n s
                  ]
          ])
            ≡ loop_gives required (signatures (pub_key ∷ keys)) n script_sig
      by_below false k rest =
          loop_gives-end required n (signatures (pub_key ∷ keys)) script_sig (enough n required k)
      by_below true k rest =
          rw (sign1-appended pub_key script_sig (fine (get_id ssl pub_key)))
            (by_next (signature_by pub_key) (ltb→lt n required k) rest)

  -- Where no key of the store throws, `SignN` appends the first signatures that the store can make,
  -- in the order of the keys and at most as many as are asked for, and it is true exactly when these
  -- are as many.
  pub sign_n_takes :
      (sols : List Bytes) (script_sig : Bytes)
      → ((id : ℕ) → get_key ssl id store ≢ failed)
      → sign_n ssl store sols hashed hash_type script_sig
        ≡ signed
            (length (take (front sols) (signatures (keys_of sols))) == front sols)
            (script_sig ++ push_all (take (front sols) (signatures (keys_of sols))))
  unfolding sign_n
  sign_n_takes sols script_sig fine =
      sign_loop_takes (front sols) (keys_of sols) 0 script_sig fine
      ∙ ap
          (λ m.
            signed (0 + length (take m (signatures (keys_of sols))) == front sols)
              (script_sig ++ push_all (take m (signatures (keys_of sols)))))
          (omega arith)
      ∙ ap
          (λ c.
            signed (c == front sols)
              (script_sig ++ push_all (take (front sols) (signatures (keys_of sols)))))
          (omega arith)
