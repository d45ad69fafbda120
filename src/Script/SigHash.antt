-- ===== src/Script/SigHash.antt =====
-- `SignatureHash` of src/script.cpp, and `Hash` and `Hash160` of src/util.h.
pub mod Blanking
use build_env_jenkins.Common.{
  ℕ, zero, suc, ◌/◌, ◌%◌, Bytes, List, [], ◌∷◌, ◌++◌, Option, none, some, map, length, to_le,
  get_elem?, replicate, leb, ◌==◌, if◌then◌else◌,
}
use build_env_jenkins.OpenSsl.{OpenSsl}
use build_env_jenkins.Transaction.{TxIn, null_out, Transaction, write_transaction}
use build_env_jenkins.Script.Opcode.{op_codeseparator}
use build_env_jenkins.Script.FindAndDelete.{find_and_delete}

unfoldable pub hash : OpenSsl → Bytes → Bytes
hash ssl b = ssl.sha256 (ssl.sha256 b)

unfoldable pub hash160 : OpenSsl → Bytes → Bytes
hash160 ssl b = ssl.ripemd160 (ssl.sha256 b)

abbrev pub sighash_none : ℕ
sighash_none = 2

abbrev pub sighash_single : ℕ
sighash_single = 3

-- The `uint256` 1, which stands for an index out of range.
abbrev pub hash_one : Bytes
hash_one = 1 ∷ replicate 31 0

-- Blank out the inputs' signatures.
abbrev pub blank_sig : TxIn → TxIn
blank_sig i = record i { script_sig = [] }

unfoldable pub blank_sigs : List TxIn → List TxIn
blank_sigs = map blank_sig

-- `txTmp.vin[nIn].scriptSig = scriptCode` on top of that.
unfoldable pub put_sig : ℕ → Bytes → List TxIn → List TxIn
put_sig n code [] = []
put_sig zero code (i ∷ ins) = record i { script_sig = code } ∷ ins
put_sig (suc n) code (i ∷ ins) = i ∷ put_sig n code ins

-- "Let the others update at will": the sequence numbers of all inputs but one.
abbrev pub clear_sequence : TxIn → TxIn
clear_sequence i = record i { n_sequence = 0 }

unfoldable pub clear_sequences : ℕ → List TxIn → List TxIn
clear_sequences n [] = []
clear_sequences zero (i ∷ ins) = i ∷ map clear_sequence ins
clear_sequences (suc n) (i ∷ ins) = clear_sequence i ∷ clear_sequences n ins

-- `txTmp.vin[0] = txTmp.vin[nIn]; txTmp.vin.resize(1)`
unfoldable pub only_input : ℕ → List TxIn → List TxIn
only_input n ins = elim (get_elem? ins n) [ none ↦ [] | some i ↦ i ∷ [] ]

-- The transaction that is hashed, after the outputs have been blanked; `none` is the output index
-- out of range under `SIGHASH_SINGLE`.
unfoldable pub blank_outputs : ℕ → ℕ → Transaction → Option Transaction
blank_outputs n_in hash_type tx =
    if hash_type % 32 == sighash_none
    then some (record tx { vin = clear_sequences n_in tx.vin; vout = [] })
    else if hash_type % 32 == sighash_single
    then elim (get_elem? tx.vout n_in) [
      | none ↦ none
      | some out ↦ some (record tx {
        vin = clear_sequences n_in tx.vin;
        vout = replicate n_in null_out ++ out ∷ [];
      })
    ]
    else some tx

-- `nHashType & SIGHASH_ANYONECANPAY`
unfoldable pub blank_inputs : ℕ → ℕ → Transaction → Transaction
blank_inputs n_in hash_type tx =
    if hash_type / 128 % 2 == 1 then record tx { vin = only_input n_in tx.vin } else tx

-- The copy with all signatures blank, but for the script code in the input that is signed.
unfoldable pub place_code : Bytes → ℕ → Transaction → Transaction
place_code code n_in tx =
    let code' = (find_and_delete (op_codeseparator ∷ []) code).0 in
    record tx { vin = put_sig n_in code' (blank_sigs tx.vin) }

-- "Serialize and hash"
unfoldable pub hash_copy : OpenSsl → ℕ → ℕ → Option Transaction → Bytes
hash_copy ssl n_in hash_type none = hash_one
hash_copy ssl n_in hash_type (some tmp) =
    hash ssl (write_transaction (blank_inputs n_in hash_type tmp) ++ to_le 4 hash_type)

unfoldable pub signature_hash : OpenSsl → Bytes → Transaction → ℕ → ℕ → Bytes
signature_hash ssl code tx n_in hash_type =
    if leb (length tx.vin) n_in
    then hash_one
    else hash_copy ssl n_in hash_type (blank_outputs n_in hash_type (place_code code n_in tx))
