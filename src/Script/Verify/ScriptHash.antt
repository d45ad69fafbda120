-- ===== src/Script/Verify/ScriptHash.antt =====
-- Spending a pay-to-script-hash output.
use build_env_jenkins.Common.{
  ℕ, ◌+◌, ◌≤◌, ◌≡◌, ◌∙◌, refl, Bytes, List, [], ◌∷◌, ◌++◌, Bool, true, false, Option, some, length,
  if◌then◌else◌, ◌&&◌, arith, bytes_eq, length-append, le→ltb,
}
use build_env_jenkins.Script.Opcode.{op_hash160, op_equal}
use build_env_jenkins.Script.Builder.{push_data}
use build_env_jenkins.Script.SigHash.{hash160}
use build_env_jenkins.Script.Cast.{cast_to_bool}
use build_env_jenkins.Script.Walk.{run}
use build_env_jenkins.Script.Walk.Laws.{run-nil}
use build_env_jenkins.Script.Machine.{Machine, Context, vch_bool}
use build_env_jenkins.Script.Ops.Stack.{equal, equal_from}
use build_env_jenkins.Script.Ops.Crypto.{hash_op, hash_from, digest}
use build_env_jenkins.Script.Switch.{switch}
use build_env_jenkins.Script.Eval.{eval_loop, eval_end, eval_script, all_true}
use build_env_jenkins.Script.Eval.Steps.{run-opcode_put, run-push_data}
use build_env_jenkins.Script.Scan.{is_pay_to_script_hash, is_push_only}
use build_env_jenkins.Script.Solver.{script_id, set_destination}
use build_env_jenkins.Script.Solver.RoundTrip.{script_hash_form}
use build_env_jenkins.Script.Verify.{top_is_true, verify_subscript, verify_pub_key, verify_script}

-- The rest of the script once the redeeming script has been hashed.
abbrev after_hash : Bytes → Bytes
after_hash id = push_data id ++ op_equal ∷ []

set_destination-push :
    (id : Bytes) → length id ≡ 20 → set_destination (script_id id) ≡ op_hash160 ∷ after_hash id
unfolding set_destination push_data
set_destination-push id h = rw h

module _ (ctx : Context) (code redeem : Bytes) (copy : List Bytes) (room : length copy ≤ 998) where
  abbrev state : List Bytes → ℕ → Machine
  state stack ops = record {
    stack = stack;
    alt_stack = [];
    vf_exec = [];
    op_count = ops;
    code = code;
  }

  run-hash160 :
      (rest : Bytes)
      → run (eval_loop ctx) (op_hash160 ∷ rest) (state (redeem ∷ copy) 0)
        ≡ run (eval_loop ctx) rest (state (hash160 ctx.ssl redeem ∷ copy) 1)
  unfolding switch hash_op hash_from digest all_true
  run-hash160 rest =
      run-opcode_put ctx op_hash160 rest (state (redeem ∷ copy) 0) (hash160 ctx.ssl redeem ∷ copy)
        (omega arith) refl refl (omega arith) (omega arith) refl

  run-id :
      (id hashed rest : Bytes)
      → length id ≡ 20
      → run (eval_loop ctx) (push_data id ++ rest) (state (hashed ∷ copy) 1)
        ≡ run (eval_loop ctx) rest (state (id ∷ hashed ∷ copy) 1)
  unfolding all_true
  run-id id hashed rest h =
      run-push_data ctx id rest (state (hashed ∷ copy) 1)
        (record { executed = refl; small = omega arith; room = omega arith })

  run-equal :
      (id hashed : Bytes)
      → run (eval_loop ctx) (op_equal ∷ []) (state (id ∷ hashed ∷ copy) 1)
        ≡ (true, vch_bool (bytes_eq hashed id) ∷ copy)
  unfolding switch equal equal_from eval_end all_true
  run-equal id hashed =
      run-opcode_put ctx op_equal [] (state (id ∷ hashed ∷ copy) 1)
        (vch_bool (bytes_eq hashed id) ∷ copy) (omega arith) refl refl (omega arith) (omega arith)
        refl
      ∙ run-nil (eval_loop ctx) (state (vch_bool (bytes_eq hashed id) ∷ copy) 2)

  run-pay_to_script_hash :
      (id : Bytes)
      → length id ≡ 20
      → run (eval_loop ctx) (set_destination (script_id id)) (state (redeem ∷ copy) 0)
        ≡ (true, vch_bool (bytes_eq (hash160 ctx.ssl redeem) id) ∷ copy)
  run-pay_to_script_hash id h = rw (set_destination-push id h) (
      run-hash160 (after_hash id)
      ∙ run-id id (hash160 ctx.ssl redeem) (op_equal ∷ []) h
      ∙ run-equal id (hash160 ctx.ssl redeem))

is_script_hash :
    (id : Bytes) → length id ≡ 20 → is_pay_to_script_hash (set_destination (script_id id)) ≡ true
unfolding set_destination
is_script_hash id h = script_hash_form id h

length-set_destination : (id : Bytes) → length (set_destination (script_id id)) ≡ length id + 3
unfolding set_destination
length-set_destination id = omega (arith, length-append id (op_equal ∷ []))

eval_pay_to_script_hash :
    (ctx : Context) (redeem id : Bytes) (copy : List Bytes)
    → length copy ≤ 998
    → length id ≡ 20
    → eval_script ctx (redeem ∷ copy) (set_destination (script_id id))
      ≡ (true, vch_bool (bytes_eq (hash160 ctx.ssl redeem) id) ∷ copy)
unfolding eval_script
eval_pay_to_script_hash ctx redeem id copy room h =
    rw
      (le→ltb 10000 (length (set_destination (script_id id)))
        (omega (arith, length-set_destination id)))
      (run-pay_to_script_hash ctx (set_destination (script_id id)) redeem copy room id h)

top-vch_bool : (b : Bool) (s : List Bytes) → top_is_true (vch_bool b ∷ s) ≡ b
unfolding top_is_true cast_to_bool
top-vch_bool true s = refl
top-vch_bool false s = refl

-- Whether a script accepts a stack.
abbrev pub accepts : Context → List Bytes → Bytes → Bool
accepts ctx stack script = let (ok, left) = eval_script ctx stack script in ok && top_is_true left

answer :
    (same pushes ok top : Bool)
    → ◌≡◌ {A = Option Bool}
        (if same
          then (if pushes then some (if ok then top else false) else some false)
          else some false)
        (some (same && (pushes && (ok && top))))
answer true true true top = refl
answer true true false top = refl
answer true false ok top = refl
answer false pushes ok top = refl

unvalidated :
    (same : Bool) → ◌≡◌ {A = Option Bool} (if same then some true else some false) (some same)
unvalidated true = refl
unvalidated false = refl

-- An output to a script's hash of 20 bytes, where the input's script leaves a script on the top of at most 998
-- values. With pay-to-script-hash validated it is spent exactly when that script has the hash, the
-- input only pushes, and that script accepts the values below it. Without, the hash decides alone.
pub verify_script_hash :
    (ctx : Context) (script_sig id redeem : Bytes) (copy : List Bytes)
    → length id ≡ 20
    → length copy ≤ 998
    → eval_script ctx [] script_sig ≡ (true, redeem ∷ copy)
    → (verify_script ctx script_sig (set_destination (script_id id)) true
        ≡ some (
            bytes_eq (hash160 ctx.ssl redeem) id
            && (is_push_only script_sig && accepts ctx copy redeem)))
      × (verify_script ctx script_sig (set_destination (script_id id)) false
          ≡ some (bytes_eq (hash160 ctx.ssl redeem) id))
unfolding verify_script verify_pub_key verify_subscript
verify_script_hash ctx script_sig id redeem copy h room e = (
  rw
      (
        e,
        eval_pay_to_script_hash ctx redeem id copy room h,
        top-vch_bool (bytes_eq (hash160 ctx.ssl redeem) id) copy,
        is_script_hash id h,
      )
      (answer (bytes_eq (hash160 ctx.ssl redeem) id) (is_push_only script_sig)
        (eval_script ctx copy redeem).0 (top_is_true (eval_script ctx copy redeem).1)),
  rw
      (
        e,
        eval_pay_to_script_hash ctx redeem id copy room h,
        top-vch_bool (bytes_eq (hash160 ctx.ssl redeem) id) copy,
      )
      (unvalidated (bytes_eq (hash160 ctx.ssl redeem) id)),
)
