-- ===== src/Script/Switch.antt =====
-- The switch of `EvalScript` of src/script.cpp, as a table from its labels to its cases.
pub mod Rule
use build_env_jenkins.Common.{Option, none, some, ℕ, List, [], ◌∷◌, ◌++◌, Bool, none, some, lookup}
use build_env_jenkins.Script.Opcode.{
  op_0notequal, op_1, op_10, op_11, op_12, op_13, op_14, op_15, op_16, op_1add, op_1negate, op_1sub,
  op_2, op_2drop, op_2dup, op_2over, op_2rot, op_2swap, op_3, op_3dup, op_4, op_5, op_6, op_7, op_8,
  op_9, op_abs, op_add, op_booland, op_boolor, op_checkmultisig, op_checkmultisigverify,
  op_checksig, op_checksigverify, op_codeseparator, op_depth, op_drop, op_dup, op_else, op_endif,
  op_equal, op_equalverify, op_fromaltstack, op_greaterthan, op_greaterthanorequal, op_hash160,
  op_hash256, op_if, op_ifdup, op_lessthan, op_lessthanorequal, op_max, op_min, op_negate, op_nip,
  op_nop, op_nop1, op_nop10, op_nop2, op_nop3, op_nop4, op_nop5, op_nop6, op_nop7, op_nop8, op_nop9,
  op_not, op_notif, op_numequal, op_numequalverify, op_numnotequal, op_over, op_pick, op_return,
  op_ripemd160, op_roll, op_rot, op_sha1, op_sha256, op_size, op_sub, op_swap, op_toaltstack,
  op_tuck, op_verify, op_within,
}
use build_env_jenkins.Script.Machine.{Handler, fail, on_stack}
use build_env_jenkins.Script.Ops.Stack.{
  drop2, dup2, dup3, over2, rot2, swap2, if_dup, drop1, dup, nip, over, rot, swap, tuck, depth,
  size, pick, equal,
}
use build_env_jenkins.Script.Ops.Control.{
  push_number, nop, if_op, else_op, endif_op, verify, return_op, to_alt_stack, from_alt_stack,
}
use build_env_jenkins.Script.Ops.Numeric.{unary, binary, within}
use build_env_jenkins.Script.Ops.Crypto.{hash_op, code_separator, check_sig_op, check_multisig}

-- The cases of the switch, in the order of the source.
abbrev pub push_cases : List (ℕ × Handler)
push_cases =
    (op_1negate, push_number op_1negate)
    ∷ (op_1, push_number op_1)
    ∷ (op_2, push_number op_2)
    ∷ (op_3, push_number op_3)
    ∷ (op_4, push_number op_4)
    ∷ (op_5, push_number op_5)
    ∷ (op_6, push_number op_6)
    ∷ (op_7, push_number op_7)
    ∷ (op_8, push_number op_8)
    ∷ (op_9, push_number op_9)
    ∷ (op_10, push_number op_10)
    ∷ (op_11, push_number op_11)
    ∷ (op_12, push_number op_12)
    ∷ (op_13, push_number op_13)
    ∷ (op_14, push_number op_14)
    ∷ (op_15, push_number op_15)
    ∷ (op_16, push_number op_16)
    ∷ []

abbrev pub nop_cases : List (ℕ × Handler)
nop_cases =
    (op_nop, nop)
    ∷ (op_nop1, nop)
    ∷ (op_nop2, nop)
    ∷ (op_nop3, nop)
    ∷ (op_nop4, nop)
    ∷ (op_nop5, nop)
    ∷ (op_nop6, nop)
    ∷ (op_nop7, nop)
    ∷ (op_nop8, nop)
    ∷ (op_nop9, nop)
    ∷ (op_nop10, nop)
    ∷ []

-- The cases that are reached in a branch that is not executed too: they are told.
abbrev pub control_cases : Bool → List (ℕ × Handler)
control_cases executed =
    (op_if, if_op op_if executed)
    ∷ (op_notif, if_op op_notif executed)
    ∷ (op_else, else_op)
    ∷ (op_endif, endif_op)
    ∷ (op_verify, verify)
    ∷ (op_return, return_op)
    ∷ []

abbrev pub stack_cases : List (ℕ × Handler)
stack_cases =
    (op_toaltstack, to_alt_stack)
    ∷ (op_fromaltstack, from_alt_stack)
    ∷ (op_2drop, on_stack drop2)
    ∷ (op_2dup, on_stack dup2)
    ∷ (op_3dup, on_stack dup3)
    ∷ (op_2over, on_stack over2)
    ∷ (op_2rot, on_stack rot2)
    ∷ (op_2swap, on_stack swap2)
    ∷ (op_ifdup, on_stack if_dup)
    ∷ (op_drop, on_stack drop1)
    ∷ (op_dup, on_stack dup)
    ∷ (op_nip, on_stack nip)
    ∷ (op_over, on_stack over)
    ∷ (op_rot, on_stack rot)
    ∷ (op_swap, on_stack swap)
    ∷ (op_tuck, on_stack tuck)
    ∷ (op_depth, depth)
    ∷ (op_pick, pick op_pick)
    ∷ (op_roll, pick op_roll)
    ∷ (op_size, size)
    ∷ (op_equal, equal op_equal)
    ∷ (op_equalverify, equal op_equalverify)
    ∷ []

abbrev pub numeric_cases : List (ℕ × Handler)
numeric_cases =
    (op_1add, unary op_1add)
    ∷ (op_1sub, unary op_1sub)
    ∷ (op_negate, unary op_negate)
    ∷ (op_abs, unary op_abs)
    ∷ (op_not, unary op_not)
    ∷ (op_0notequal, unary op_0notequal)
    ∷ (op_add, binary op_add)
    ∷ (op_sub, binary op_sub)
    ∷ (op_booland, binary op_booland)
    ∷ (op_boolor, binary op_boolor)
    ∷ (op_numequal, binary op_numequal)
    ∷ (op_numequalverify, binary op_numequalverify)
    ∷ (op_numnotequal, binary op_numnotequal)
    ∷ (op_lessthan, binary op_lessthan)
    ∷ (op_greaterthan, binary op_greaterthan)
    ∷ (op_lessthanorequal, binary op_lessthanorequal)
    ∷ (op_greaterthanorequal, binary op_greaterthanorequal)
    ∷ (op_min, binary op_min)
    ∷ (op_max, binary op_max)
    ∷ (op_within, within)
    ∷ []

abbrev pub crypto_cases : List (ℕ × Handler)
crypto_cases =
    (op_ripemd160, hash_op op_ripemd160)
    ∷ (op_sha1, hash_op op_sha1)
    ∷ (op_sha256, hash_op op_sha256)
    ∷ (op_hash160, hash_op op_hash160)
    ∷ (op_hash256, hash_op op_hash256)
    ∷ (op_codeseparator, code_separator)
    ∷ (op_checksig, check_sig_op op_checksig)
    ∷ (op_checksigverify, check_sig_op op_checksigverify)
    ∷ (op_checkmultisig, check_multisig op_checkmultisig)
    ∷ (op_checkmultisigverify, check_multisig op_checkmultisigverify)
    ∷ []

abbrev pub switch_cases : Bool → List (ℕ × Handler)
switch_cases executed =
    push_cases
    ++ (nop_cases ++ (control_cases executed ++ (stack_cases ++ (numeric_cases ++ crypto_cases))))

-- `default: return false`
abbrev pub case_of : Option Handler → Handler
case_of none ctx rest m = fail m.stack
case_of (some f) ctx rest m = f ctx rest m

unfoldable pub switch : Bool → ℕ → Handler
switch executed opcode = case_of (lookup opcode (switch_cases executed))
