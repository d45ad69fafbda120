-- ===== src/Script/Eval/Steps.antt =====
-- One instruction of `EvalScript` at a time, where every branch is executed.
use build_env_jenkins.Common.{
  ℕ, suc, ◌+◌, ◌≤◌, ◌<◌, ◌≡◌, ◌∙◌, List, Bytes, [], ◌∷◌, ◌++◌, true, false, length, arith, le→ltb,
  lt→ltb, le→leb, lt→leb,
}
use build_env_jenkins.Script.Opcode.{op_16, op_pushdata4}
use build_env_jenkins.Script.Builder.{push_data}
use build_env_jenkins.Script.GetOp.{fetched, get_op}
use build_env_jenkins.Script.GetOp.RoundTrip.{push_opcode, get_op-push_data}
use build_env_jenkins.Script.Walk.{run}
use build_env_jenkins.Script.Walk.Laws.{run-fetched, continue}
use build_env_jenkins.Script.Machine.{Machine, Context, put}
use build_env_jenkins.Script.Switch.{switch}
use build_env_jenkins.Script.Eval.{
  contains, disabled_opcodes, limit_size, all_true, execute, count_op, eval_step, eval_loop,
}

-- The state in which the next push is executed and fits.
pub record CanPush (pushed : Bytes) (m : Machine) : Type 0 where
  pub executed : all_true m.vf_exec ≡ true
  pub small : length pushed ≤ 520
  pub room : length m.stack + length m.alt_stack < 1000

push_opcode-le : (b : Bytes) → push_opcode b ≤ op_pushdata4
push_opcode-le b = ground arith

pushes_are_enabled : (opcode : ℕ) → opcode ≤ op_pushdata4 → contains opcode disabled_opcodes ≡ false
pushes_are_enabled opcode h = ground arith

pub eval_step-push :
    (ctx : Context) (opcode : ℕ) (pushed rest : Bytes) (m : Machine)
    → opcode ≤ op_pushdata4
    → CanPush pushed m
    → eval_step ctx opcode pushed rest m ≡ put m (pushed ∷ m.stack)
unfolding eval_step execute count_op limit_size
eval_step-push ctx opcode pushed rest m h c = rw (
  le→ltb 520 (length pushed) c.small,
  le→ltb op_16 opcode (omega arith),
  pushes_are_enabled opcode h,
  c.executed,
  le→leb opcode op_pushdata4 h,
  le→ltb 1000 (suc (length m.stack) + length m.alt_stack) (omega (arith, c.room)),
)

-- The loop at a push that `push_data` has written.
pub run-push_data :
    (ctx : Context) (b rest : Bytes) (m : Machine)
    → CanPush b m
    → run (eval_loop ctx) (push_data b ++ rest) m
      ≡ run (eval_loop ctx) rest (record m { stack = b ∷ m.stack })
run-push_data ctx b rest m c =
    run-fetched (eval_loop ctx) (push_data b ++ rest) m
      (get_op-push_data b rest (omega (arith, c.small)))
    ∙ rw (eval_step-push ctx (push_opcode b) b rest m (push_opcode-le b) c)

-- An opcode above the pushes has no data.
pub get_op-opcode :
    (opcode : ℕ) (rest : Bytes)
    → op_pushdata4 < opcode
    → get_op (opcode ∷ rest) ≡ fetched opcode [] rest
unfolding get_op
get_op-opcode opcode rest h = rw (lt→leb opcode op_pushdata4 h)

pub eval_step-opcode :
    (ctx : Context) (opcode : ℕ) (rest : Bytes) (m : Machine)
    → op_16 < opcode
    → contains opcode disabled_opcodes ≡ false
    → all_true m.vf_exec ≡ true
    → m.op_count < 201
    → eval_step ctx opcode [] rest m
      ≡ limit_size (switch true opcode ctx rest (record m { op_count = m.op_count + 1 }))
unfolding eval_step execute count_op
eval_step-opcode ctx opcode rest m above enabled executed few = rw (
  lt→ltb op_16 opcode above,
  le→ltb 201 (m.op_count + 1) (omega arith),
  enabled,
  executed,
  lt→leb opcode op_pushdata4 (omega arith),
)

-- An opcode that is counted, with every branch executed: the case of the switch and the limits.
pub run-opcode :
    (ctx : Context) (opcode : ℕ) (rest : Bytes) (m : Machine)
    → op_16 < opcode
    → contains opcode disabled_opcodes ≡ false
    → all_true m.vf_exec ≡ true
    → m.op_count < 201
    → run (eval_loop ctx) (opcode ∷ rest) m
      ≡ continue
          (eval_loop ctx)
          rest
          (limit_size (switch true opcode ctx rest (record m { op_count = m.op_count + 1 })))
run-opcode ctx opcode rest m above enabled executed few =
    run-fetched (eval_loop ctx) (opcode ∷ rest) m (get_op-opcode opcode rest (omega arith))
    ∙ rw (eval_step-opcode ctx opcode rest m above enabled executed few)

-- The limit on the values does not stop a stack that fits.
limit_size-put :
    (m : Machine) (s : List Bytes)
    → length s + length m.alt_stack ≤ 1000
    → limit_size (put m s) ≡ put m s
unfolding limit_size
limit_size-put m s h = rw (le→ltb 1000 (length s + length m.alt_stack) h)

-- An opcode whose case leaves a stack that fits.
pub run-opcode_put :
    (ctx : Context) (opcode : ℕ) (rest : Bytes) (m : Machine) (s : List Bytes)
    → op_16 < opcode
    → contains opcode disabled_opcodes ≡ false
    → all_true m.vf_exec ≡ true
    → m.op_count < 201
    → length s + length m.alt_stack ≤ 1000
    → switch true opcode ctx rest (record m { op_count = m.op_count + 1 })
      ≡ put (record m { op_count = m.op_count + 1 }) s
    → run (eval_loop ctx) (opcode ∷ rest) m
      ≡ run (eval_loop ctx) rest (record m { op_count = m.op_count + 1; stack = s })
run-opcode_put ctx opcode rest m s above enabled executed few fits e =
    run-opcode ctx opcode rest m above enabled executed few
    ∙ rw (e, limit_size-put (record m { op_count = m.op_count + 1 }) s fits)
