-- ===== src/Script/Eval.antt =====
-- `EvalScript` of src/script.cpp: the loop over the script, its limits and its result.
pub mod Limits
pub mod Steps
pub mod Disabled
pub mod Pushes
use build_env_jenkins.Common.{
  ℕ, ◌+◌, Bytes, List, [], ◌∷◌, Bool, true, false, length, ltb, leb, ◌==◌, if◌then◌else◌, ◌&&◌,
  ◌||◌,
}
use build_env_jenkins.Script.Opcode.{
  op_16, op_2div, op_2mul, op_and, op_cat, op_div, op_endif, op_if, op_invert, op_left, op_lshift,
  op_mod, op_mul, op_or, op_pushdata4, op_right, op_rshift, op_substr, op_xor,
}
use build_env_jenkins.Script.Switch.{switch}
use build_env_jenkins.Script.Walk.{go, halt, Loop, run}
use build_env_jenkins.Script.Machine.{Machine, Context, Verdict, Step, fail, put}

-- The opcodes that are refused wherever they stand.
abbrev pub disabled_opcodes : List ℕ
disabled_opcodes =
    op_cat ∷ op_substr ∷ op_left ∷ op_right ∷ op_invert ∷ op_and ∷ op_or ∷ op_xor ∷ op_2mul
    ∷ op_2div ∷ op_mul ∷ op_div ∷ op_mod ∷ op_lshift ∷ op_rshift ∷ []

abbrev pub contains : ℕ → List ℕ → Bool
contains k [] = false
contains k (j ∷ js) = k == j || contains k js

-- "Size limits", behind every instruction.
unfoldable pub limit_size : Step → Step
limit_size (halt v) = halt v
limit_size (go m) = if ltb 1000 (length m.stack + length m.alt_stack) then fail m.stack else go m

-- `!count(vfExec.begin(), vfExec.end(), false)`
unfoldable pub all_true : List Bool → Bool
all_true [] = true
all_true (b ∷ bs) = b && all_true bs

-- A push, a case of the switch, or an instruction that is passed over.
unfoldable pub execute : Context → ℕ → Bytes → Bytes → Machine → Step
execute ctx opcode pushed rest m =
    let executed = all_true m.vf_exec in
    if executed && leb opcode op_pushdata4
    then put m (pushed ∷ m.stack)
    else if executed || leb op_if opcode && leb opcode op_endif
    then switch executed opcode ctx rest m
    else go m

-- `if (opcode > OP_16 && ++nOpCount > 201)`: the count goes up only behind the first test.
unfoldable pub count_op : ℕ → Machine → Machine
count_op opcode m = if ltb op_16 opcode then record m { op_count = m.op_count + 1 } else m

-- The body of the loop, behind `GetOp`.
unfoldable pub eval_step : Context → ℕ → Bytes → Bytes → Machine → Step
eval_step ctx opcode pushed rest m =
    if ltb 520 (length pushed)
    then fail m.stack
    else if ltb op_16 opcode && ltb 201 (count_op opcode m).op_count
    then fail m.stack
    else if contains opcode disabled_opcodes
    then fail m.stack
    else limit_size (execute ctx opcode pushed rest (count_op opcode m))

-- "if (!vfExec.empty()) return false;"
unfoldable pub eval_end : Machine → Verdict
eval_end m = elim m.vf_exec [ [] ↦ (true, m.stack) | b ∷ bs ↦ (false, m.stack) ]

abbrev pub eval_loop : Context → Loop Machine Verdict
eval_loop ctx = record { step = eval_step ctx; bad = λ m. (false, m.stack); finish = eval_end }

abbrev pub start : List Bytes → Bytes → Machine
start stack script = record {
  stack = stack;
  alt_stack = [];
  vf_exec = [];
  op_count = 0;
  code = script;
}

-- The result, and the stack as it is left.
unfoldable pub eval_script : Context → List Bytes → Bytes → Verdict
eval_script ctx stack script =
    if ltb 10000 (length script)
    then (false, stack)
    else run (eval_loop ctx) script (start stack script)
