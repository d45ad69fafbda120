-- ===== src/Script/Machine.antt =====
-- The state of `EvalScript` of src/script.cpp.
use build_env_jenkins.Common.{ℕ, Bytes, List, [], ◌∷◌, Bool, true, false, Option, none, some}
use build_env_jenkins.OpenSsl.{OpenSsl}
use build_env_jenkins.Transaction.{Transaction}
use build_env_jenkins.Script.Walk.{Turn, go, halt}

-- The stacks have their top first, and `vf_exec` its innermost branch. `code` is the script from
-- `pbegincodehash` to its end.
pub record Machine : Type 0 where
  pub stack : List Bytes
  pub alt_stack : List Bytes
  pub vf_exec : List Bool
  pub op_count : ℕ
  pub code : Bytes

-- The other arguments of `EvalScript`, and OpenSSL.
pub record Context : Type 0 where
  pub ssl : OpenSsl
  pub tx : Transaction
  pub n_in : ℕ
  pub hash_type : ℕ

-- What `EvalScript` returns, with the stack as it leaves it.
abbrev pub Verdict : Type 0
Verdict = Bool × List Bytes

-- What one instruction does: go on, or return. `return false` and a caught exception are one.
abbrev pub Step : Type 0
Step = Turn Machine Verdict

abbrev pub fail : List Bytes → Step
fail stack = halt (false, stack)

-- A case of the switch: it is given the script behind the instruction.
abbrev pub Handler : Type 0
Handler = Context → Bytes → Machine → Step

abbrev pub put : Machine → List Bytes → Step
put m stack = go (record m { stack = stack })

-- An operation on the stack alone, which returns false where it does nothing.
abbrev pub on_stack : (List Bytes → Option (List Bytes)) → Handler
on_stack f ctx rest m = elim (f m.stack) [ none ↦ fail m.stack | some s ↦ put m s ]

abbrev pub vch_true : Bytes
vch_true = 1 ∷ []

abbrev pub vch_false : Bytes
vch_false = []

abbrev pub vch_bool : Bool → Bytes
vch_bool true = vch_true
vch_bool false = vch_false

-- The end of a test: its result is pushed, and a `VERIFY` form takes it off again or fails.
abbrev pub conclude : Bool → Bool → Machine → List Bytes → Step
conclude true true m s = put m s
conclude true false m s = fail (vch_false ∷ s)
conclude false value m s = put m (vch_bool value ∷ s)
