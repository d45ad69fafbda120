-- ===== src/Script/Verify/Defined.antt =====
-- `VerifyScript` never reads the back of an empty vector.
use build_env_jenkins.Common.{
  ℕ, ◌≡◌, ◌≢◌, refl, Bytes, List, [], ◌∷◌, Bool, true, false, none, some, length, ltb, arith,
  Bool-cases, Option-cases, inl, inr,
}
use build_env_jenkins.Script.Opcode.{op_hash160}
use build_env_jenkins.Script.Walk.{run}
use build_env_jenkins.Script.Machine.{Context}
use build_env_jenkins.Script.Ops.Crypto.{hash_op, hash_from}
use build_env_jenkins.Script.Switch.{switch}
use build_env_jenkins.Script.Eval.{limit_size, eval_loop, start, eval_script, all_true}
use build_env_jenkins.Script.Eval.Steps.{run-opcode}
use build_env_jenkins.Script.Scan.{is_pay_to_script_hash}
use build_env_jenkins.Script.Verify.{verify_subscript, verify_pub_key, verify_script}

run-hash160_empty :
    (ctx : Context) (rest code : Bytes)
    → run (eval_loop ctx) (op_hash160 ∷ rest) (start [] code) ≡ (false, [])
unfolding switch limit_size hash_op hash_from all_true
run-hash160_empty ctx rest code =
    run-opcode ctx op_hash160 rest (start [] code) (omega arith) refl refl (omega arith)

head_is_hash160 : (c : ℕ) (rest : Bytes) → is_pay_to_script_hash (c ∷ rest) ≡ true → c ≡ op_hash160
unfolding is_pay_to_script_hash
head_is_hash160 c rest h = ground arith

-- A pay-to-script-hash script needs a value to hash.
eval_script_hash_empty :
    (ctx : Context) (script : Bytes)
    → is_pay_to_script_hash script ≡ true
    → (eval_script ctx [] script).0 ≡ false
unfolding eval_script is_pay_to_script_hash
eval_script_hash_empty ctx [] h = cc
eval_script_hash_empty ctx (c ∷ rest) h =
    rw (head_is_hash160 c rest h) (elim (Bool-cases (ltb 10000 (length (op_hash160 ∷ rest)))) [
      | inl long ↦ rw long
      | inr short ↦ rw (short, run-hash160_empty ctx rest (op_hash160 ∷ rest))
    ])

verify_pub_key-defined :
    (ctx : Context) (script_sig script_pub_key : Bytes) (validate_p2sh : Bool) (copy : List Bytes)
    → verify_pub_key ctx script_sig script_pub_key validate_p2sh copy ≢ none
unfolding verify_pub_key verify_subscript
verify_pub_key-defined ctx script_sig script_pub_key validate_p2sh [] =
    ground (arith, eval_script_hash_empty ctx script_pub_key)
verify_pub_key-defined ctx script_sig script_pub_key validate_p2sh (x ∷ copy) = ground arith

-- `VerifyScript` never takes `back()` of an empty `stackCopy`, which is the `none` of the model: its
-- result is another than that on every input.
pub verify_script-defined :
    (ctx : Context) (script_sig script_pub_key : Bytes) (validate_p2sh : Bool)
    → (b : Bool) × (verify_script ctx script_sig script_pub_key validate_p2sh ≡ some b)
unfolding verify_script
verify_script-defined ctx script_sig script_pub_key validate_p2sh =
    elim (Option-cases (verify_script ctx script_sig script_pub_key validate_p2sh)) [
      | inl undefined ↦ absurd (
          ground (
            arith,
            verify_pub_key-defined ctx script_sig script_pub_key validate_p2sh
                (eval_script ctx [] script_sig).1,
          ))
      | inr found ↦ found
    ]
