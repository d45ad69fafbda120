-- ===== src/Script/SigHash/Blanking.antt =====
-- What `SignatureHash` does not depend on.
use build_env_jenkins.Common.{
  ℕ, zero, suc, ◌%◌, ◌≡◌, refl, ap, ap₂, ==_iff, lt→leb, ◌<◌, ◌+◌, Bytes, List, [], ◌∷◌, length,
  leb, if◌then◌else◌, arith,
}
use build_env_jenkins.Script.Opcode.{op_codeseparator}
use build_env_jenkins.Script.FindAndDelete.{find_and_delete}
use build_env_jenkins.OpenSsl.{OpenSsl}
use build_env_jenkins.Transaction.{TxIn, TxOut, Transaction}
use build_env_jenkins.Script.SigHash.{
  blank_sigs, put_sig, sighash_none, hash_one, only_input, place_code, hash_copy, blank_outputs,
  blank_inputs, signature_hash,
}

-- Inputs that take the same outputs, one by one, with the same sequence numbers.
abbrev pub SameInputs : List TxIn → List TxIn → Type 0
SameInputs [] [] = Unit
SameInputs (i ∷ ins) (j ∷ js) =
    (i.prevout ≡ j.prevout) × (i.n_sequence ≡ j.n_sequence) × SameInputs ins js
SameInputs _ _ = ⊥

-- Two transactions that differ at most in the signatures of their inputs.
pub record SameButSigs (tx tx' : Transaction) : Type 0 where
  pub same_version : tx.n_version ≡ tx'.n_version
  pub same_time : tx.n_time ≡ tx'.n_time
  pub same_inputs : SameInputs tx.vin tx'.vin
  pub same_outputs : tx.vout ≡ tx'.vout
  pub same_lock_time : tx.n_lock_time ≡ tx'.n_lock_time

blank_sigs-SameInputs : (ins js : List TxIn) → SameInputs ins js → blank_sigs ins ≡ blank_sigs js
unfolding blank_sigs
blank_sigs-SameInputs [] [] h = refl
blank_sigs-SameInputs [] (j ∷ js) h = absurd h
blank_sigs-SameInputs (i ∷ ins) [] h = absurd h
blank_sigs-SameInputs (i ∷ ins) (j ∷ js) (point, sequence, rest) = λ k.
    record { prevout = point k; script_sig = []; n_sequence = sequence k }
    ∷ blank_sigs-SameInputs ins js rest k

length-SameInputs : (ins js : List TxIn) → SameInputs ins js → length ins ≡ length js
length-SameInputs [] [] h = refl
length-SameInputs [] (j ∷ js) h = absurd h
length-SameInputs (i ∷ ins) [] h = absurd h
length-SameInputs (i ∷ ins) (j ∷ js) h = ap suc (length-SameInputs ins js h.2)

place_code-eq :
    (code : Bytes) (n_in : ℕ) {tx tx' : Transaction}
    → SameButSigs tx tx'
    → place_code code n_in tx ≡ place_code code n_in tx'
unfolding place_code
place_code-eq code n_in {tx} {tx'} same = λ i. record {
  n_version = same.same_version i;
  n_time = same.same_time i;
  vin =
      put_sig n_in (find_and_delete (op_codeseparator ∷ []) code).0
        (blank_sigs-SameInputs tx.vin tx'.vin same.same_inputs i);
  vout = same.same_outputs i;
  n_lock_time = same.same_lock_time i;
}

-- The signatures in the inputs of a transaction are not hashed: two transactions with the same
-- version, time, outputs and lock time, whose inputs have the same outpoints and sequence numbers
-- one by one, have the same hash to sign, whatever their signatures are.
pub signature_hash-SameButSigs :
    (ssl : OpenSsl) (code : Bytes) (n_in hash_type : ℕ) {tx tx' : Transaction}
    → SameButSigs tx tx'
    → signature_hash ssl code tx n_in hash_type ≡ signature_hash ssl code tx' n_in hash_type
unfolding signature_hash
signature_hash-SameButSigs ssl code n_in hash_type {tx} {tx'} same =
    ap₂
      (λ (k : ℕ) (t : Transaction).
        if leb k n_in
        then hash_one
        else hash_copy ssl n_in hash_type (blank_outputs n_in hash_type t))
      (length-SameInputs tx.vin tx'.vin same.same_inputs) (place_code-eq code n_in same)

-- Under `SIGHASH_NONE` the outputs are not hashed: the signer lets anyone choose them.
pub signature_hash_none :
    (ssl : OpenSsl) (code : Bytes) (tx : Transaction) (n_in hash_type : ℕ) (outs : List TxOut)
    → hash_type % 32 ≡ sighash_none
    → signature_hash ssl code (record tx { vout = outs }) n_in hash_type
      ≡ signature_hash ssl code tx n_in hash_type
unfolding signature_hash blank_outputs place_code
signature_hash_none ssl code tx n_in hash_type outs e =
    rw ((==_iff (hash_type % 32) sighash_none).1 e)

-- An input of the same transaction at another place of the list of inputs.
only_input-put_sig :
    (n : ℕ) (code : Bytes) (ins : List TxIn)
    → only_input n (put_sig n code (blank_sigs ins))
      ≡ only_input 0 (put_sig 0 code (blank_sigs (only_input n ins)))
unfolding only_input put_sig blank_sigs
only_input-put_sig n code [] = refl
only_input-put_sig zero code (i ∷ ins) = refl
only_input-put_sig (suc n) code (i ∷ ins) = only_input-put_sig n code ins

length-only_input : (n : ℕ) (ins : List TxIn) → n < length ins → length (only_input n ins) ≡ 1
unfolding only_input
length-only_input n [] h = absurd (omega arith)
length-only_input zero (i ∷ ins) h = refl
length-only_input (suc n) (i ∷ ins) h = length-only_input n ins (omega arith)

-- Under `SIGHASH_ALL | SIGHASH_ANYONECANPAY` the other inputs are not hashed, nor is the place of
-- the input that is signed: the hash is that of the transaction with this input alone.
pub signature_hash_anyone :
    (ssl : OpenSsl) (code : Bytes) (tx : Transaction) (n_in : ℕ)
    → n_in < length tx.vin
    → signature_hash ssl code tx n_in (128 + 1)
      ≡ signature_hash ssl code (record tx { vin = only_input n_in tx.vin }) 0 (128 + 1)
unfolding signature_hash blank_outputs place_code hash_copy blank_inputs
signature_hash_anyone ssl code tx n_in h = rw (
  lt→leb (length tx.vin) n_in h,
  lt→leb (length (only_input n_in tx.vin)) 0 (omega (arith, length-only_input n_in tx.vin h)),
  only_input-put_sig n_in (find_and_delete (op_codeseparator ∷ []) code).0 tx.vin,
)
