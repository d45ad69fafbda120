-- ===== src/Signing.antt =====
-- Signing over a store of keys: `Sign1`, `SignN`, `Solver` and `SignSignature` of src/script.cpp, with
-- `CKey::Sign` of src/key.cpp.
pub mod Mine
pub mod Combine
pub mod Untouched
pub mod Accepted
pub mod Spends
pub mod Multisig
use build_env_jenkins.Common.{
  ℕ, suc, get_elem?, bytes_eq, ◌+◌, ◌-◌, ◌%◌, Bytes, List, [], ◌∷◌, ◌++◌, Bool, true, false, Option,
  none, some, length, take, drop, from_le, get_or, ltb, leb, ◌==◌, if◌then◌else◌, ◌&&◌,
}
use build_env_jenkins.OpenSsl.{OpenSsl}
use build_env_jenkins.Transaction.{TxIn, TxOut, Transaction, null_out}
use build_env_jenkins.Merkle.{get_hash}
use build_env_jenkins.KeyStore.{
  Key, get_id, KeyStore, Found, found, missing, failed, get_key, get_stored_pub_key, get_script,
}
use build_env_jenkins.Script.Opcode.{op_0}
use build_env_jenkins.Script.Builder.{push_data}
use build_env_jenkins.Script.SigHash.{put_sig, signature_hash}
use build_env_jenkins.Script.Solver.{
  TxnOutType, nonstandard, pubkey, pubkeyhash, scripthash, multisig, null_data, front, solver,
}
use build_env_jenkins.Script.Machine.{Context}
use build_env_jenkins.Script.Verify.{verify_script}

-- What a signing function does: it returns with the script that it leaves, or a key of the store
-- throws an exception or an assertion fails.
pub data Signed : Type 0 where
  signed : Bool → Bytes → Signed
  raised : Signed

-- `CKey::Sign`; `none` is false.
abbrev pub sign : OpenSsl → Key → Bytes → Option Bytes
sign ssl key hashed = ssl.ecdsa_sign key.secret hashed

-- A signature with its hash type.
abbrev pub with_type : Bytes → ℕ → Bytes
with_type sig hash_type = sig ++ hash_type % 256 ∷ []

-- `Sign1`
unfoldable pub sign1 : OpenSsl → KeyStore → ℕ → Bytes → ℕ → Bytes → Signed
sign1 ssl store id hashed hash_type script_sig = elim (get_key ssl id store) [
  | missing ↦ signed false script_sig
  | failed ↦ raised
  | found key ↦ elim (sign ssl key hashed) [
    | none ↦ signed false script_sig
    | some sig ↦ signed true (script_sig ++ push_data (with_type sig hash_type))
  ]
]

-- The loop of `SignN` over the keys, with `nSigned`.
unfoldable pub sign_loop : OpenSsl → KeyStore → Bytes → ℕ → ℕ → List Bytes → ℕ → Bytes → Signed
sign_loop ssl store hashed hash_type n_required [] n_signed script_sig =
    signed (n_signed == n_required) script_sig
sign_loop ssl store hashed hash_type n_required (pub_key ∷ keys) n_signed script_sig =
    elim (ltb n_signed n_required) [
      | false ↦ signed (n_signed == n_required) script_sig
      | true ↦ elim (sign1 ssl store (get_id ssl pub_key) hashed hash_type script_sig) [
        | raised ↦ raised
        | signed true script_sig' ↦
            sign_loop ssl store hashed hash_type n_required keys (suc n_signed) script_sig'
        | signed false script_sig' ↦
            sign_loop ssl store hashed hash_type n_required keys n_signed script_sig'
      ]
    ]

-- The keys among the solutions of a multisig script, between the two numbers.
abbrev pub keys_of : List Bytes → List Bytes
keys_of sols = take (length sols - 2) (drop 1 sols)

-- `SignN`
unfoldable pub sign_n : OpenSsl → KeyStore → List Bytes → Bytes → ℕ → Bytes → Signed
sign_n ssl store sols hashed hash_type script_sig =
    sign_loop ssl store hashed hash_type (front sols) (keys_of sols) 0 script_sig

-- The public key behind the signature. The result of `GetPubKey` is not looked at.
unfoldable pub append_key : Option Bytes → Signed → Signed
append_key pub_key (signed true script_sig) =
    signed true (script_sig ++ push_data (elim pub_key [ none ↦ [] | some v ↦ v ]))
append_key pub_key other = other

-- The script of a script hash, which `GetCScript` stores.
abbrev pub found_script : Option Bytes → Signed
found_script none = signed false []
found_script (some script) = signed true script

-- The switch of `Solver`, on the cleared script.
unfoldable pub solve_as : OpenSsl → KeyStore → Bytes → ℕ → TxnOutType → List Bytes → Signed
solve_as ssl store hashed hash_type nonstandard sols = signed false []
solve_as ssl store hashed hash_type null_data sols = signed false []
solve_as ssl store hashed hash_type pubkey (v ∷ sols) =
    sign1 ssl store (get_id ssl v) hashed hash_type []
solve_as ssl store hashed hash_type pubkeyhash (v ∷ sols) =
    append_key (get_stored_pub_key ssl (from_le v) store)
      (sign1 ssl store (from_le v) hashed hash_type [])
solve_as ssl store hashed hash_type scripthash (v ∷ sols) =
    found_script (get_script (from_le v) store)
solve_as ssl store hashed hash_type multisig sols =
    sign_n ssl store sols hashed hash_type (op_0 ∷ [])
solve_as ssl store hashed hash_type _ [] = raised

-- `Solver` over a store, with the type that it stores.
unfoldable pub solve : OpenSsl → KeyStore → Bytes → Bytes → ℕ → Signed × TxnOutType
solve ssl store script_pub_key hashed hash_type =
    let (ok, t, sols) = solver script_pub_key in
    (if ok then solve_as ssl store hashed hash_type t sols else signed false [], t)

-- The transaction with a script in one of its inputs.
abbrev pub with_script : Transaction → ℕ → Bytes → Transaction
with_script tx n_in script_sig = record tx { vin = put_sig n_in script_sig tx.vin }

-- "Test solution": `VerifyScript` on the transaction with the script.
unfoldable pub test_solution : OpenSsl → Bytes → Transaction → ℕ → Bytes → Signed
test_solution ssl from_pub_key tx n_in script_sig =
    elim (verify_script
      (record { ssl = ssl; tx = with_script tx n_in script_sig; n_in = n_in; hash_type = 0 })
      script_sig from_pub_key true) [ none ↦ raised | some b ↦ signed b script_sig ]

-- The part for a script hash: the subscript is signed, and appended.
unfoldable pub sign_subscript : OpenSsl → KeyStore → Bytes → Transaction → ℕ → ℕ → Bytes → Signed
sign_subscript ssl store from_pub_key tx n_in hash_type subscript =
    let hashed = signature_hash ssl subscript (with_script tx n_in subscript) n_in hash_type in
    let (answer, t) = solve ssl store subscript hashed hash_type in
    elim answer [
      | raised ↦ raised
      | signed ok script_sig ↦
          let appended = script_sig ++ push_data subscript in
          elim (ok && not_script_hash t) [
            | false ↦ signed false appended
            | true ↦ test_solution ssl from_pub_key tx n_in appended
          ]
    ]
  where
    not_script_hash : TxnOutType → Bool
    not_script_hash scripthash = false
    not_script_hash _ = true

-- What follows the first `Solver`, by what it has given.
unfoldable pub sign_solved :
    OpenSsl → KeyStore → Bytes → Transaction → ℕ → ℕ → Signed × TxnOutType → Signed
sign_solved ssl store from_pub_key tx n_in hash_type (raised, t) = raised
sign_solved ssl store from_pub_key tx n_in hash_type (signed false script_sig, t) =
    signed false script_sig
sign_solved ssl store from_pub_key tx n_in hash_type (signed true script_sig, scripthash) =
    sign_subscript ssl store from_pub_key tx n_in hash_type script_sig
sign_solved ssl store from_pub_key tx n_in hash_type (signed true script_sig, _) =
    test_solution ssl from_pub_key tx n_in script_sig

-- `SignSignature`: what it returns, and the script that it leaves in the input.
unfoldable pub sign_signature : OpenSsl → KeyStore → Bytes → Transaction → ℕ → ℕ → Signed
sign_signature ssl store from_pub_key tx n_in hash_type =
    if leb (length tx.vin) n_in
    then raised
    else sign_solved ssl store from_pub_key tx n_in hash_type
        (solve ssl store from_pub_key (signature_hash ssl from_pub_key tx n_in hash_type) hash_type)

-- `SignSignature` of the output that an input names.
unfoldable pub sign_spending : OpenSsl → KeyStore → Transaction → Transaction → ℕ → ℕ → Signed
sign_spending ssl store tx_from tx n_in hash_type = elim (get_elem? tx.vin n_in) [
  | none ↦ raised
  | some i ↦ elim (get_elem? tx_from.vout i.prevout.n) [
    | none ↦ raised
    | some out ↦
        if bytes_eq i.prevout.hash (get_hash ssl tx_from)
        then sign_signature ssl store out.script_pub_key tx n_in hash_type
        else raised
  ]
]
