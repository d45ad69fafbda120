-- ===== src/Script/Eval/Limits/Handlers.antt =====
-- No case of the switch of `EvalScript` leaves more than 201 operations counted.
use build_env_jenkins.Common.{ℕ, ◌≤◌, ◌≡◌, refl, Bytes, List, Bool, true, false, Option, arith}
use build_env_jenkins.Script.Walk.{go, halt}
use build_env_jenkins.Script.Machine.{Machine, Context, Step, Handler, on_stack, conclude}
use build_env_jenkins.Script.Ops.Stack.{depth, size, pick_nth, pick_from, pick, equal_from, equal}
use build_env_jenkins.Script.Ops.Control.{
  push_number, nop, branch, if_op, flip, else_op, leave, endif_op, verify_from, verify, return_op,
  to_alt, to_alt_stack, from_alt, from_alt_stack,
}
use build_env_jenkins.Script.Ops.Numeric.{
  unary_from, unary, finish_binary, binary_from, binary, within_from, within,
}
use build_env_jenkins.Script.Ops.Crypto.{
  hash_from, hash_op, code_separator, check_sig_from, check_sig_op, multisig_sigs, multisig_keys,
  multisig_from, check_multisig,
}

-- A step that goes on leaves at most 201 operations counted, and one that returns returns false.
abbrev pub CountsOps : Step → Type 0
CountsOps (go m) = m.op_count ≤ 201
CountsOps (halt v) = v.0 ≡ false

abbrev pub KeepsCount : Handler → Type 0
KeepsCount f =
    (ctx : Context) (rest : Bytes) (m : Machine) → m.op_count ≤ 201 → CountsOps (f ctx rest m)

pub on_stack-KeepsCount : (f : List Bytes → Option (List Bytes)) → KeepsCount (on_stack f)
on_stack-KeepsCount f ctx rest m h = ground arith

conclude-CountsOps :
    (verify value : Bool) (m : Machine) (s : List Bytes)
    → m.op_count ≤ 201
    → CountsOps (conclude verify value m s)
conclude-CountsOps true true m s h = h
conclude-CountsOps true false m s h = refl
conclude-CountsOps false value m s h = h

pub push_number-KeepsCount : (n : ℕ) → KeepsCount (push_number n)
unfolding push_number
push_number-KeepsCount n ctx rest m h = h

pub nop-KeepsCount : KeepsCount nop
unfolding nop
nop-KeepsCount ctx rest m h = h

pub if_op-KeepsCount : (n : ℕ) (executed : Bool) → KeepsCount (if_op n executed)
unfolding if_op branch
if_op-KeepsCount n executed ctx rest m h = ground arith

pub else_op-KeepsCount : KeepsCount else_op
unfolding else_op flip
else_op-KeepsCount ctx rest m h = ground arith

pub endif_op-KeepsCount : KeepsCount endif_op
unfolding endif_op leave
endif_op-KeepsCount ctx rest m h = ground arith

pub verify-KeepsCount : KeepsCount verify
unfolding verify verify_from
verify-KeepsCount ctx rest m h = ground arith

pub return_op-KeepsCount : KeepsCount return_op
unfolding return_op
return_op-KeepsCount ctx rest m h = refl

pub to_alt_stack-KeepsCount : KeepsCount to_alt_stack
unfolding to_alt_stack to_alt
to_alt_stack-KeepsCount ctx rest m h = ground arith

pub from_alt_stack-KeepsCount : KeepsCount from_alt_stack
unfolding from_alt_stack from_alt
from_alt_stack-KeepsCount ctx rest m h = ground arith

pub depth-KeepsCount : KeepsCount depth
unfolding depth
depth-KeepsCount ctx rest m h = h

pub size-KeepsCount : KeepsCount size
unfolding size
size-KeepsCount ctx rest m h = ground arith

pub pick-KeepsCount : (n : ℕ) → KeepsCount (pick n)
unfolding pick pick_from pick_nth
pick-KeepsCount n ctx rest m h = ground arith

pub equal-KeepsCount : (n : ℕ) → KeepsCount (equal n)
unfolding equal equal_from
equal-KeepsCount n ctx rest m h = ground arith

pub unary-KeepsCount : (n : ℕ) → KeepsCount (unary n)
unfolding unary unary_from
unary-KeepsCount n ctx rest m h = ground arith

pub binary-KeepsCount : (n : ℕ) → KeepsCount (binary n)
unfolding binary binary_from finish_binary
binary-KeepsCount n ctx rest m h = ground arith

pub within-KeepsCount : KeepsCount within
unfolding within within_from
within-KeepsCount ctx rest m h = ground arith

pub hash_op-KeepsCount : (n : ℕ) → KeepsCount (hash_op n)
unfolding hash_op hash_from
hash_op-KeepsCount n ctx rest m h = ground arith

pub code_separator-KeepsCount : KeepsCount code_separator
unfolding code_separator
code_separator-KeepsCount ctx rest m h = h

pub check_sig_op-KeepsCount : (n : ℕ) → KeepsCount (check_sig_op n)
unfolding check_sig_op check_sig_from
check_sig_op-KeepsCount n ctx rest m h = ground arith

-- Here the count goes up by the number of keys, behind a test of its own.
pub check_multisig-KeepsCount : (n : ℕ) → KeepsCount (check_multisig n)
unfolding check_multisig multisig_from multisig_keys multisig_sigs
check_multisig-KeepsCount n ctx rest m h = ground arith
