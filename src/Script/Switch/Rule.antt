-- ===== src/Script/Switch/Rule.antt =====
-- What holds of every case of the switch holds of the switch.
use build_env_jenkins.Common.{
  ℕ, ◌≡◌, refl, List, ◌++◌, Bool, Option, none, some, All, All-append, lookup, lookup-All,
}
use build_env_jenkins.Script.Machine.{Handler}
use build_env_jenkins.Script.Switch.{
  push_cases, nop_cases, control_cases, stack_cases, numeric_cases, crypto_cases, switch_cases,
  case_of, switch,
}

module _ (P : Handler → Type 0) (executed : Bool) where
  abbrev pub AllCases : List (ℕ × Handler) → Type 0
  AllCases = All (λ e. P e.1)

  pub record Cases : Type 0 where
    pub in_push : AllCases push_cases
    pub in_nop : AllCases nop_cases
    pub in_control : AllCases (control_cases executed)
    pub in_stack : AllCases stack_cases
    pub in_numeric : AllCases numeric_cases
    pub in_crypto : AllCases crypto_cases
    pub in_default : P (case_of none)

  join : (xs ys : List (ℕ × Handler)) → AllCases xs → AllCases ys → AllCases (xs ++ ys)
  join xs ys = All-append (λ e. P e.1) xs ys

  all_cases : Cases → AllCases (switch_cases executed)
  all_cases c = join push_cases rest1 c.in_push (
      join nop_cases rest2 c.in_nop (
        join (control_cases executed) rest3 c.in_control (
          join stack_cases (numeric_cases ++ crypto_cases) c.in_stack
            (join numeric_cases crypto_cases c.in_numeric c.in_crypto))))
    where
      rest3 : List (ℕ × Handler)
      rest3 = stack_cases ++ (numeric_cases ++ crypto_cases)

      rest2 : List (ℕ × Handler)
      rest2 = control_cases executed ++ rest3

      rest1 : List (ℕ × Handler)
      rest1 = nop_cases ++ rest2

  pub switch_rule : Cases → (opcode : ℕ) → P (switch executed opcode)
  unfolding switch
  switch_rule c opcode = found (lookup opcode (switch_cases executed)) refl
    where
      found : (o : Option Handler) → lookup opcode (switch_cases executed) ≡ o → P (case_of o)
      found none e = c.in_default
      found (some f) e = lookup-All P opcode (switch_cases executed) (all_cases c) e
