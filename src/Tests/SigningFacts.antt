-- ===== src/Tests/SigningFacts.antt =====
-- An output to a key of the store is signed.
use build_env_jenkins.Common.{
  ◌≡◌, ◌≢◌, ◌↔◌, refl, ap, subst, Bytes, List, [], ◌∷◌, ◌++◌, Bool, true, false, Option, some,
  some-injective, length, replicate, arith, if◌then◌else◌, ◌≤◌, ◌-◌, ◌==◌, ℕ, none, length-append,
  take, bytes_eq, bytes_eq_refl,
}
use build_env_jenkins.Script.Builder.{push_all}
use build_env_jenkins.Script.SigHash.{hash160, signature_hash}
use build_env_jenkins.Script.Solver.{key_id, set_destination}
use build_env_jenkins.KeyStore.{Key, get_pub_key, empty_store, add_key}
use build_env_jenkins.Signing.{signed, with_type, sign_signature}
use build_env_jenkins.Signing.Accepted.{HasEcdsa}
use build_env_jenkins.Signing.Spends.{sign_signature-add_key}
use build_env_jenkins.KeyStore.{
  get_id, get_script, reset, missing, found_or_failed, Found, failed, get_key, add_basic_key,
  get_basic_key, set_secret,
}
use build_env_jenkins.Script.Opcode.{op_0}
use build_env_jenkins.Script.Solver.{front}
use build_env_jenkins.Script.Ops.Crypto.Multisig.{Matching}
use build_env_jenkins.Signing.{keys_of, sign_n}
use build_env_jenkins.Signing.Multisig.{signatures, sign_n_takes}
use build_env_jenkins.Signing.Mine.{is_mine}
use build_env_jenkins.Signing.Mine.Decides.{Ends, Mine, is_mine_decides}
use build_env_jenkins.Signing.Combine.{fits_key, combine_multisig, combine_signatures}
use build_env_jenkins.Signing.Combine.Kept.{combine_signatures-signed}
use build_env_jenkins.Signing.Combine.Matched.{combine_multisig-Matching}
use build_env_jenkins.Tests.Toy.{toy, spend}
use build_env_jenkins.Tests.KeyStoreFacts.{toy-HasPublicKeys}

toy-HasEcdsa : HasEcdsa toy
toy-HasEcdsa = record {
  verifies = λ secret hashed sig compressed h made.
      subst (λ s. bytes_eq (take 2 s) (take 2 hashed) ≡ true) (some-injective _ _ made)
        (twice hashed);
}
  where
    twice : (v : Bytes) → bytes_eq (take 2 (take 2 v)) (take 2 v) ≡ true
    twice [] = refl
    twice (x ∷ []) = bytes_eq_refl (x ∷ [])
    twice (x ∷ y ∷ v) = bytes_eq_refl (x ∷ y ∷ [])

abbrev owner : Key
owner = record { secret = replicate 32 5; compressed = true }

abbrev owner_id : Bytes
owner_id = hash160 toy (get_pub_key toy owner)

abbrev made : Bytes
made = take 2 (signature_hash toy (set_destination (key_id owner_id)) spend 1 1)

owner_id_size : length owner_id ≡ 20
unfolding hash160
owner_id_size = refl

two_at_most : (v : Bytes) → length (take 2 v) ≤ 2
two_at_most [] = omega arith
two_at_most (x ∷ []) = omega arith
two_at_most (x ∷ y ∷ v) = omega arith

other_than_id : with_type made 1 ≢ owner_id
other_than_id e = absurd (
    omega (
      arith,
      ap length e,
      owner_id_size,
      length-append made (1 ∷ []),
      two_at_most (signature_hash toy (set_destination (key_id owner_id)) spend 1 1),
    ))

sign_signature-add_key_example :
    sign_signature toy
      (add_key toy owner empty_store).1
      (set_destination (key_id owner_id))
      spend
      1
      1
    ≡ signed true (push_all (with_type made 1 ∷ get_pub_key toy owner ∷ []))
sign_signature-add_key_example =
    sign_signature-add_key toy empty_store owner spend 1 1 made toy-HasEcdsa toy-HasPublicKeys refl
      refl owner_id_size (omega arith) (omega arith)
      (omega
        (arith, two_at_most (signature_hash toy (set_destination (key_id owner_id)) spend 1 1)))
      other_than_id refl

-- Two keys, of which the store has the second, and one signature is asked for.
abbrev two_keys : List Bytes
two_keys = (1 ∷ []) ∷ (2 ∷ replicate 32 7) ∷ get_pub_key toy owner ∷ (2 ∷ []) ∷ []

owner_store-no_failure : (id : ℕ) → get_key toy id (add_key toy owner empty_store).1 ≢ failed
unfolding get_key get_basic_key add_key add_basic_key set_secret
owner_store-no_failure id = by_key (id == get_id toy (get_pub_key toy owner))
  where
    by_key :
        (here : Bool)
        → ◌≢◌ {A = Found}
            (elim (if◌then◌else◌ {A = Option (Bytes × Bool)} here (some (owner.secret, true)) none)
              as (λ x. Found) [
                | none ↦ missing
                | some e ↦ found_or_failed (set_secret e.0 e.1 reset)
              ])
            failed
    by_key true e = cc e
    by_key false e = cc e

sign_n_takes_example :
    sign_n toy (add_key toy owner empty_store).1 two_keys owner_id 1 (op_0 ∷ [])
    ≡ signed
        (length (
            take
              (front two_keys)
              (signatures toy (add_key toy owner empty_store).1 owner_id 1 (keys_of two_keys)))
          == front two_keys)
        (op_0
          ∷ push_all (
              take
                (front two_keys)
                (signatures toy (add_key toy owner empty_store).1 owner_id 1 (keys_of two_keys))))
sign_n_takes_example =
    sign_n_takes toy (add_key toy owner empty_store).1 owner_id 1 two_keys (op_0 ∷ [])
      owner_store-no_failure

-- The store of the key has no scripts.
key_script-Ends : Ends toy (add_key toy owner empty_store).1 1 (set_destination (key_id owner_id))
unfolding get_script add_key add_basic_key
key_script-Ends v sols subscript e known = cc known

is_mine_decides_example :
    (b : Bool) × (is_mine toy
        (add_key toy owner empty_store).1
        5
        (set_destination (key_id owner_id))
      ≡ some b)
    × ((b ≡ true) ↔ Mine toy (add_key toy owner empty_store).1 (set_destination (key_id owner_id)))
is_mine_decides_example =
    is_mine_decides toy (add_key toy owner empty_store).1 1 5 (set_destination (key_id owner_id))
      (omega arith) key_script-Ends

combine_signatures-signed_example :
    (combine_signatures toy 9
        (set_destination (key_id owner_id))
        spend
        1
        (push_all ((7 ∷ 1 ∷ []) ∷ owner_id ∷ []))
        []
      ≡ push_all ((7 ∷ 1 ∷ []) ∷ owner_id ∷ []))
    × (combine_signatures toy 9
          (set_destination (key_id owner_id))
          spend
          1
          (push_all ([] ∷ owner_id ∷ []))
          (push_all ((7 ∷ 1 ∷ []) ∷ owner_id ∷ []))
        ≡ push_all ((7 ∷ 1 ∷ []) ∷ owner_id ∷ []))
combine_signatures-signed_example =
    combine_signatures-signed toy 9 spend 1 7 (1 ∷ []) owner_id owner_id [] owner_id_size
      (omega arith) (omega (arith, owner_id_size))

combine_multisig-Matching_example :
    (sigs : List Bytes) × (combine_multisig toy (op_0 ∷ []) spend 1 two_keys ((7 ∷ 1 ∷ []) ∷ []) []
      ≡ op_0 ∷ (push_all sigs ++ replicate (front two_keys - length sigs) op_0))
    × (length sigs ≤ front two_keys)
    × Matching (fits_key toy (op_0 ∷ []) spend 1) sigs (keys_of two_keys)
combine_multisig-Matching_example =
    combine_multisig-Matching toy (op_0 ∷ []) spend 1 two_keys ((7 ∷ 1 ∷ []) ∷ []) []
