-- ===== src/Tests/ScriptFacts.antt =====
-- The properties of the scripts at concrete inputs where their hypotheses hold.
use build_env_jenkins.Common.{
  ℕ, ◌≤◌, ◌+◌, ◌≡◌, ◌↔◌, refl, Bytes, List, [], ◌∷◌, ◌++◌, Bool, true, false, some, length,
  replicate, bytes_eq, ◌&&◌, arith,
}
use build_env_jenkins.Transaction.{TxIn, Transaction}
use build_env_jenkins.Script.Opcode.{op_1, op_2, op_if, op_add, op_cat}
use build_env_jenkins.Script.Builder.{push_data, push_all}
use build_env_jenkins.Script.GetOp.{fetched, get_op}
use build_env_jenkins.Script.GetOp.RoundTrip.{push_opcode, get_op-push_data}
use build_env_jenkins.Script.Walk.{run}
use build_env_jenkins.Script.FindAndDelete.{find_and_delete}
use build_env_jenkins.Script.SigCache.{SigData, cache_set}
use build_env_jenkins.Script.SigCache.Laws.{cache_set_bound}
use build_env_jenkins.Script.SigHash.{signature_hash, only_input}
use build_env_jenkins.Script.SigHash.Blanking.{signature_hash-SameButSigs, signature_hash_anyone}
use build_env_jenkins.Script.CheckSig.{key_verifies, check_sig, check_sig_cached}
use build_env_jenkins.Script.CheckSig.Laws.{IsCoherent, check_sig_cached-eq}
use build_env_jenkins.Script.Ops.Crypto.{match_sigs, check}
use build_env_jenkins.Script.Ops.Crypto.Multisig.{Matching, match_sigs_iff}
use build_env_jenkins.Script.Eval.{
  eval_step, eval_script, count_op, all_true, execute, limit_size, eval_end,
}
use build_env_jenkins.Script.Eval.Limits.{eval_script_limits}
use build_env_jenkins.Script.Eval.Disabled.{here, later, eval_script-disabled}
use build_env_jenkins.Script.Eval.Pushes.{eval_script-push_all}
use build_env_jenkins.Bignum.{get_vch}
use build_env_jenkins.Script.Cast.{cast_to_big_num}
use build_env_jenkins.Script.Ops.Control.{push_number}
use build_env_jenkins.Script.Ops.Numeric.{binary, binary_from, finish_binary}
use build_env_jenkins.Script.Switch.{switch}
use build_env_jenkins.Script.Scan.{is_push_only}
use build_env_jenkins.Script.Verify.{verify_script}
use build_env_jenkins.Script.Verify.PubKeyHash.{verify_pub_key_hash}
use build_env_jenkins.Script.Verify.ScriptHash.{accepts, verify_script_hash}
use build_env_jenkins.Script.Verify.Defined.{verify_script-defined}
use build_env_jenkins.Script.SigHash.{hash160}
use build_env_jenkins.Script.Solver.{key_id, script_id, set_destination, extract_destination}
use build_env_jenkins.Script.Solver.RoundTrip.{extract_set_destination}
use build_env_jenkins.Tests.Toy.{toy, context, spend, key}

abbrev id : Bytes
id = replicate 20 3

abbrev sig : Bytes
sig = 9 ∷ 1 ∷ []

-- 1 2 ADD
abbrev sum : Bytes
sum = op_1 ∷ op_2 ∷ op_add ∷ []

verify_pub_key_hash_example :
    verify_script context (push_all (sig ∷ key ∷ [])) (set_destination (key_id id)) true
    ≡ some (
        bytes_eq (hash160 toy key) id
        && check context (find_and_delete (push_data sig) (set_destination (key_id id))).0 sig key)
verify_pub_key_hash_example =
    verify_pub_key_hash context key sig id true (omega arith) (omega arith) refl

verify_script-defined_example : (b : Bool) × (verify_script context [] sum true ≡ some b)
verify_script-defined_example = verify_script-defined context [] sum true

eval_script_limits_example : length (eval_script context [] sum).1 ≤ 1000
unfolding eval_script run get_op eval_step count_op execute all_true limit_size switch push_number
    binary binary_from cast_to_big_num get_vch finish_binary eval_end
eval_script_limits_example = eval_script_limits context [] sum (omega arith) refl

eval_script-disabled_example : (eval_script context [] (op_1 ∷ op_if ∷ op_cat ∷ [])).0 ≡ false
unfolding get_op
eval_script-disabled_example =
    eval_script-disabled context [] {opcode = op_cat} {script = op_1 ∷ op_if ∷ op_cat ∷ []}
      (omega arith) (later refl (later refl (here refl))) refl

eval_script-push_all_example :
    eval_script context (id ∷ []) (push_all (sig ∷ key ∷ [])) ≡ (true, key ∷ sig ∷ id ∷ [])
unfolding push_all push_data
eval_script-push_all_example =
    eval_script-push_all context (id ∷ []) (sig ∷ key ∷ []) (omega arith)
      (omega arith, (omega arith, tt)) (omega arith)

get_op-push_data_example :
    get_op (push_data (replicate 300 7) ++ sum)
    ≡ fetched (push_opcode (replicate 300 7)) (replicate 300 7) sum
get_op-push_data_example = get_op-push_data (replicate 300 7) sum (omega arith)

match_sigs_iff_example :
    (match_sigs bytes_eq (sig ∷ key ∷ []) (id ∷ sig ∷ key ∷ []) ≡ true)
    ↔ Matching bytes_eq (sig ∷ key ∷ []) (id ∷ sig ∷ key ∷ [])
match_sigs_iff_example = match_sigs_iff bytes_eq (sig ∷ key ∷ []) (id ∷ sig ∷ key ∷ [])

-- An entry that verifies.
abbrev entry : SigData
entry = record { sighash = replicate 32 4; sig = 4 ∷ 4 ∷ []; pub_key = key }

abbrev no_draws : ℕ → Bytes
no_draws i = []

check_sig_cached-eq_example :
    let (answer, left) = check_sig_cached toy 100 no_draws (entry ∷ []) sig key sum spend 0 0 in
    (answer ≡ check_sig toy sig key sum spend 0 0) × IsCoherent toy left
unfolding key_verifies
check_sig_cached-eq_example =
    check_sig_cached-eq toy 100 no_draws (entry ∷ []) sig key sum spend 0 0 (refl, tt)

cache_set_bound_example : length (cache_set 1 no_draws entry (entry ∷ entry ∷ [])) ≤ 1 + 1
cache_set_bound_example = cache_set_bound 1 no_draws entry (entry ∷ entry ∷ []) (omega arith)

-- The transaction with another signature.
abbrev resigned : Transaction
resigned = record spend { vin = map_sigs spend.vin }
  where
    map_sigs : List TxIn → List TxIn
    map_sigs [] = []
    map_sigs (i ∷ ins) = record i { script_sig = sum } ∷ ins

signature_hash-SameButSigs_example :
    signature_hash toy sum spend 0 1 ≡ signature_hash toy sum resigned 0 1
signature_hash-SameButSigs_example =
    signature_hash-SameButSigs toy sum 0 1 {tx = spend} {tx' = resigned} (record {
      same_version = refl;
      same_time = refl;
      same_inputs = (refl, refl, (refl, refl, tt));
      same_outputs = refl;
      same_lock_time = refl;
    })

signature_hash_anyone_example :
    signature_hash toy sum spend 1 (128 + 1)
    ≡ signature_hash toy sum (record spend { vin = only_input 1 spend.vin }) 0 (128 + 1)
signature_hash_anyone_example = signature_hash_anyone toy sum spend 1 (omega arith)

extract_set_destination_example :
    (extract_destination toy (set_destination (key_id id)) ≡ some (key_id id))
    × (extract_destination toy (set_destination (script_id id)) ≡ some (script_id id))
extract_set_destination_example = extract_set_destination toy id refl

-- An input that pushes a number and the script `1`.
verify_script_hash_example :
    (verify_script context
        (push_all ((7 ∷ []) ∷ (op_1 ∷ []) ∷ []))
        (set_destination (script_id id))
        true
      ≡ some (
          bytes_eq (hash160 toy (op_1 ∷ [])) id
          && (is_push_only (push_all ((7 ∷ []) ∷ (op_1 ∷ []) ∷ []))
              && accepts context ((7 ∷ []) ∷ []) (op_1 ∷ []))))
    × (verify_script context
          (push_all ((7 ∷ []) ∷ (op_1 ∷ []) ∷ []))
          (set_destination (script_id id))
          false
        ≡ some (bytes_eq (hash160 toy (op_1 ∷ [])) id))
unfolding push_all push_data
verify_script_hash_example =
    verify_script_hash context (push_all ((7 ∷ []) ∷ (op_1 ∷ []) ∷ [])) id (op_1 ∷ [])
      ((7 ∷ []) ∷ []) refl (omega arith)
      (eval_script-push_all context [] ((7 ∷ []) ∷ (op_1 ∷ []) ∷ []) (omega arith)
        (omega arith, (omega arith, tt)) (omega arith))
