-- ===== src/Script/Eval/Disabled.antt =====
-- The disabled opcodes, in branches that are not executed too.
use build_env_jenkins.Common.{
  ℕ, ◌≤◌, ◌≡◌, inl, inr, Bytes, List, true, false, length, ltb, ◌&&◌, arith, Bool-cases,
}
use build_env_jenkins.Script.Opcode.{op_16}
use build_env_jenkins.Script.GetOp.{fetched, get_op}
use build_env_jenkins.Script.Walk.{go, halt, run}
use build_env_jenkins.Script.Walk.Laws.{run-fetched, continue}
use build_env_jenkins.Script.Machine.{Machine, Context, Step, fail}
use build_env_jenkins.Script.Eval.{
  contains, disabled_opcodes, count_op, eval_step, eval_loop, start, eval_script,
}
use build_env_jenkins.Script.Eval.Limits.{IsWithin, Leaves, eval_step-Leaves}

-- The opcode stands at an instruction of the script, executed or not.
pub data Occurs (opcode : ℕ) : Bytes → Type 0 where
  here :
      {script pushed rest : Bytes}
      → get_op script ≡ fetched opcode pushed rest
      → Occurs opcode script
  later :
      {other : ℕ} {script pushed rest : Bytes}
      → get_op script ≡ fetched other pushed rest
      → Occurs opcode rest
      → Occurs opcode script

eval_step-disabled :
    (ctx : Context) (opcode : ℕ) (pushed rest : Bytes) (m : Machine)
    → contains opcode disabled_opcodes ≡ true
    → eval_step ctx opcode pushed rest m ≡ fail m.stack
unfolding eval_step
eval_step-disabled ctx opcode pushed rest m h = elim (Bool-cases (ltb 520 (length pushed))) [
  | inl long ↦ rw long
  | inr short ↦ elim (Bool-cases (ltb op_16 opcode && ltb 201 (count_op opcode m).op_count)) [
    | inl many ↦ rw (short, many)
    | inr few ↦ rw (short, few, h)
  ]
]

run-disabled :
    (ctx : Context) {opcode : ℕ} {script : Bytes}
    → Occurs opcode script
    → contains opcode disabled_opcodes ≡ true
    → (m : Machine) → IsWithin m
    → (run (eval_loop ctx) script m).0 ≡ false
run-disabled ctx {opcode} {script} (here {pushed = pushed} {rest = rest} e) h m w =
    rw (run-fetched (eval_loop ctx) script m e, eval_step-disabled ctx opcode pushed rest m h)
run-disabled ctx {opcode} {script} (later {other = other} {pushed = pushed} {rest = rest} e o) h m
      w =
    rw (run-fetched (eval_loop ctx) script m e) (
      after (run-disabled ctx o h) (eval_step ctx other pushed rest m)
        (eval_step-Leaves ctx other pushed rest m w))
  where
    after :
        ((n : Machine) → IsWithin n → (run (eval_loop ctx) rest n).0 ≡ false)
        → (t : Step) → Leaves t
        → (continue (eval_loop ctx) rest t).0 ≡ false
    after ih (go n) k = ih n k
    after ih (halt v) k = k

-- A script that has a disabled opcode at one of its instructions is refused on every stack of at
-- most 1000 values, also where the instruction stands in a branch that is not executed.
pub eval_script-disabled :
    (ctx : Context) (stack : List Bytes) {opcode : ℕ} {script : Bytes}
    → length stack ≤ 1000
    → Occurs opcode script
    → contains opcode disabled_opcodes ≡ true
    → (eval_script ctx stack script).0 ≡ false
unfolding eval_script
eval_script-disabled ctx stack {opcode} {script} h o d =
    elim (Bool-cases (ltb 10000 (length script))) [
      | inl long ↦ rw long
      | inr short ↦ rw short (
          run-disabled ctx o d (start stack script)
            (record { values = omega arith; ops = omega arith }))
    ]
