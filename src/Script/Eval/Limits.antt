-- ===== src/Script/Eval/Limits.antt =====
-- The limits of `EvalScript`: at most 1000 values on the two stacks, at most 201 operations.
pub mod Handlers
use build_env_jenkins.Common.{
  ℕ, ◌+◌, ◌≤◌, ◌≡◌, refl, Bytes, List, [], ◌∷◌, ◌++◌, Bool, true, false, Option, none, some, length,
  All, ◌▸◌, All-append, lookup, lookup-All, ltb, leb, ◌==◌, if◌then◌else◌, arith, tests, Bool-cases,
  inl, inr, Option-cases, ◌&&◌, ltb→lt, ltb→le,
}
use build_env_jenkins.Script.Walk.{Turn, go, halt, run}
use build_env_jenkins.Script.Walk.Laws.{run_inv, Keeps}
use build_env_jenkins.Script.Machine.{Machine, Context, Verdict, Step, Handler, fail, put}
use build_env_jenkins.Script.Opcode.{
  op_0notequal, op_1, op_10, op_11, op_12, op_13, op_14, op_15, op_16, op_1add, op_1negate, op_1sub,
  op_2, op_3, op_4, op_5, op_6, op_7, op_8, op_9, op_abs, op_add, op_booland, op_boolor,
  op_checkmultisig, op_checkmultisigverify, op_checksig, op_checksigverify, op_endif, op_equal,
  op_equalverify, op_greaterthan, op_greaterthanorequal, op_hash160, op_hash256, op_if, op_lessthan,
  op_lessthanorequal, op_max, op_min, op_negate, op_not, op_notif, op_numequal, op_numequalverify,
  op_numnotequal, op_pick, op_pushdata4, op_ripemd160, op_roll, op_sha1, op_sha256, op_sub,
}
use build_env_jenkins.Script.Ops.Stack.{
  drop1, drop2, dup, dup2, dup3, if_dup, nip, over, over2, rot, rot2, swap, swap2, tuck,
}
use build_env_jenkins.Script.Switch.{switch}
use build_env_jenkins.Script.Switch.Rule.{switch_rule}
use build_env_jenkins.Script.Eval.{
  limit_size, execute, count_op, eval_step, eval_end, eval_loop, start, eval_script, all_true,
  contains, disabled_opcodes,
}
use build_env_jenkins.Script.Eval.Limits.Handlers.{
  CountsOps, KeepsCount, on_stack-KeepsCount, push_number-KeepsCount, nop-KeepsCount,
  if_op-KeepsCount, else_op-KeepsCount, endif_op-KeepsCount, verify-KeepsCount,
  return_op-KeepsCount, to_alt_stack-KeepsCount, from_alt_stack-KeepsCount, depth-KeepsCount,
  size-KeepsCount, pick-KeepsCount, equal-KeepsCount, unary-KeepsCount, binary-KeepsCount,
  within-KeepsCount, hash_op-KeepsCount, code_separator-KeepsCount, check_sig_op-KeepsCount,
  check_multisig-KeepsCount,
}

switch-KeepsCount : (executed : Bool) (opcode : ℕ) → KeepsCount (switch executed opcode)
switch-KeepsCount executed = switch_rule KeepsCount executed (record {
  in_push =
      push_number-KeepsCount op_1negate
      ▸ push_number-KeepsCount op_1
      ▸ push_number-KeepsCount op_2
      ▸ push_number-KeepsCount op_3
      ▸ push_number-KeepsCount op_4
      ▸ push_number-KeepsCount op_5
      ▸ push_number-KeepsCount op_6
      ▸ push_number-KeepsCount op_7
      ▸ push_number-KeepsCount op_8
      ▸ push_number-KeepsCount op_9
      ▸ push_number-KeepsCount op_10
      ▸ push_number-KeepsCount op_11
      ▸ push_number-KeepsCount op_12
      ▸ push_number-KeepsCount op_13
      ▸ push_number-KeepsCount op_14
      ▸ push_number-KeepsCount op_15
      ▸ push_number-KeepsCount op_16
      ▸ tt;
  in_nop =
      nop-KeepsCount ▸ nop-KeepsCount ▸ nop-KeepsCount ▸ nop-KeepsCount ▸ nop-KeepsCount
      ▸ nop-KeepsCount ▸ nop-KeepsCount ▸ nop-KeepsCount ▸ nop-KeepsCount ▸ nop-KeepsCount
      ▸ nop-KeepsCount ▸ tt;
  in_control =
      if_op-KeepsCount op_if executed
      ▸ if_op-KeepsCount op_notif executed
      ▸ else_op-KeepsCount
      ▸ endif_op-KeepsCount
      ▸ verify-KeepsCount
      ▸ return_op-KeepsCount
      ▸ tt;
  in_stack =
      to_alt_stack-KeepsCount
      ▸ from_alt_stack-KeepsCount
      ▸ on_stack-KeepsCount drop2
      ▸ on_stack-KeepsCount dup2
      ▸ on_stack-KeepsCount dup3
      ▸ on_stack-KeepsCount over2
      ▸ on_stack-KeepsCount rot2
      ▸ on_stack-KeepsCount swap2
      ▸ on_stack-KeepsCount if_dup
      ▸ on_stack-KeepsCount drop1
      ▸ on_stack-KeepsCount dup
      ▸ on_stack-KeepsCount nip
      ▸ on_stack-KeepsCount over
      ▸ on_stack-KeepsCount rot
      ▸ on_stack-KeepsCount swap
      ▸ on_stack-KeepsCount tuck
      ▸ depth-KeepsCount
      ▸ pick-KeepsCount op_pick
      ▸ pick-KeepsCount op_roll
      ▸ size-KeepsCount
      ▸ equal-KeepsCount op_equal
      ▸ equal-KeepsCount op_equalverify
      ▸ tt;
  in_numeric =
      unary-KeepsCount op_1add
      ▸ unary-KeepsCount op_1sub
      ▸ unary-KeepsCount op_negate
      ▸ unary-KeepsCount op_abs
      ▸ unary-KeepsCount op_not
      ▸ unary-KeepsCount op_0notequal
      ▸ binary-KeepsCount op_add
      ▸ binary-KeepsCount op_sub
      ▸ binary-KeepsCount op_booland
      ▸ binary-KeepsCount op_boolor
      ▸ binary-KeepsCount op_numequal
      ▸ binary-KeepsCount op_numequalverify
      ▸ binary-KeepsCount op_numnotequal
      ▸ binary-KeepsCount op_lessthan
      ▸ binary-KeepsCount op_greaterthan
      ▸ binary-KeepsCount op_lessthanorequal
      ▸ binary-KeepsCount op_greaterthanorequal
      ▸ binary-KeepsCount op_min
      ▸ binary-KeepsCount op_max
      ▸ within-KeepsCount
      ▸ tt;
  in_crypto =
      hash_op-KeepsCount op_ripemd160
      ▸ hash_op-KeepsCount op_sha1
      ▸ hash_op-KeepsCount op_sha256
      ▸ hash_op-KeepsCount op_hash160
      ▸ hash_op-KeepsCount op_hash256
      ▸ code_separator-KeepsCount
      ▸ check_sig_op-KeepsCount op_checksig
      ▸ check_sig_op-KeepsCount op_checksigverify
      ▸ check_multisig-KeepsCount op_checkmultisig
      ▸ check_multisig-KeepsCount op_checkmultisigverify
      ▸ tt;
  in_default = λ ctx rest m h. refl;
})

-- What holds between two instructions.
pub record IsWithin (m : Machine) : Type 0 where
  pub values : length m.stack + length m.alt_stack ≤ 1000
  pub ops : m.op_count ≤ 201

execute-CountsOps :
    (ctx : Context) (opcode : ℕ) (pushed rest : Bytes) (m : Machine)
    → m.op_count ≤ 201
    → CountsOps (execute ctx opcode pushed rest m)
unfolding execute
execute-CountsOps ctx opcode pushed rest m h =
    ground (arith, switch-KeepsCount (all_true m.vf_exec) opcode ctx rest m h)

-- What a turn leaves.
abbrev pub Leaves : Step → Type 0
Leaves (go m) = IsWithin m
Leaves (halt v) = v.0 ≡ false

limit_size-Leaves : (t : Step) → CountsOps t → Leaves (limit_size t)
unfolding limit_size
limit_size-Leaves (halt v) h = h
limit_size-Leaves (go m) h = elim (Bool-cases (ltb 1000 (length m.stack + length m.alt_stack))) [
  | inl over ↦ rw over
  | inr fits ↦ rw fits (record { values = ltb→le _ _ fits; ops = h })
]

count_op_le :
    (opcode : ℕ) (m : Machine)
    → m.op_count ≤ 201
    → (ltb op_16 opcode && ltb 201 (count_op opcode m).op_count) ≡ false
    → (count_op opcode m).op_count ≤ 201
unfolding count_op
count_op_le opcode m h e = ground arith

-- One instruction, from a state within both limits, keeps them or makes `EvalScript` return false.
pub eval_step-Leaves :
    (ctx : Context) (opcode : ℕ) (pushed rest : Bytes) (m : Machine)
    → IsWithin m
    → Leaves (eval_step ctx opcode pushed rest m)
unfolding eval_step
eval_step-Leaves ctx opcode pushed rest m h = elim (Bool-cases (ltb 520 (length pushed))) [
  | inl long ↦ rw long
  | inr short ↦ elim (Bool-cases (ltb op_16 opcode && ltb 201 (count_op opcode m).op_count)) [
    | inl many ↦ rw (short, many)
    | inr few ↦ elim (Bool-cases (contains opcode disabled_opcodes)) [
      | inl off ↦ rw (short, few, off)
      | inr on ↦
          rw (short, few, on)
            (limit_size-Leaves (execute ctx opcode pushed rest (count_op opcode m)) (
              execute-CountsOps ctx opcode pushed rest (count_op opcode m)
                (count_op_le opcode m h.ops few)))
    ]
  ]
]

-- What the limits make of a result: an accepted script leaves at most 1000 values.
abbrev IsBounded : Verdict → Type 0
IsBounded v = v.0 ≡ true → length v.1 ≤ 1000

eval_end-IsBounded : (m : Machine) → IsWithin m → IsBounded (eval_end m)
unfolding eval_end
eval_end-IsBounded m h = ground arith

Leaves-Keeps : (ctx : Context) (t : Step) → Leaves t → Keeps (eval_loop ctx) IsWithin IsBounded t
Leaves-Keeps ctx (go m) h = h
Leaves-Keeps ctx (halt v) h = λ e. cc (e, h)

-- Started on at most 1000 values, `EvalScript` returns true only with at most 1000 values on the
-- stack, whatever the script.
pub eval_script_limits :
    (ctx : Context) (stack : List Bytes) (script : Bytes)
    → length stack ≤ 1000
    → (eval_script ctx stack script).0 ≡ true
    → length (eval_script ctx stack script).1 ≤ 1000
unfolding eval_script
eval_script_limits ctx stack script h = elim (Bool-cases (ltb 10000 (length script))) [
  | inl long ↦ rw long (λ e. cc)
  | inr short ↦ rw short (
      run_inv (eval_loop ctx) IsWithin IsBounded
        (λ opcode b rest m k.
          Leaves-Keeps ctx (eval_step ctx opcode b rest m) (eval_step-Leaves ctx opcode b rest m k))
        (λ m k e. cc) eval_end-IsBounded script (start stack script)
        (record { values = omega arith; ops = omega arith }))
]
