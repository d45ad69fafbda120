-- ===== src/Spending/Fee.antt =====
-- The end of `ConnectInputs`: what a transaction pays.
use build_env_jenkins.Common.{
  ℕ, ◌+◌, ◌-◌, ◌≤◌, ◌≡◌, refl, Bool, true, false, Option, none, some, ltb, if◌then◌else◌, arith,
}
use build_env_jenkins.Transaction.{Transaction}
use build_env_jenkins.Transaction.Check.{money_range, get_value_out}
use build_env_jenkins.Spending.{Progress, done, rejected, aborted, get_min_fee}
use build_env_jenkins.Spending.Connect.{Environment, check_value}
use build_env_jenkins.Spending.Tally.{guard_done, ltb-false}

module _ (env : Environment) (tx : Transaction) where
  -- A transaction that is not a coin stake pays at least the fee.
  pub check_value-done :
      (value_in : ℕ)
      → check_value env tx value_in ≡ done tt
      → (value_out : ℕ) × (get_value_out tx ≡ some value_out)
        × (value_out + get_min_fee tx 1 0 ≤ value_in)
  unfolding check_value
  check_value-done value_in e = by_value (get_value_out tx) refl e
    where
      by_value :
          (o : Option ℕ)
          → get_value_out tx ≡ o
          → (elim o as (λ x. Progress Unit) [
            | none ↦ aborted
            | some value_out ↦
                if ltb value_in value_out
                then rejected 100
                else if ltb (value_in - value_out) (get_min_fee tx 1 0)
                then (if env.mode.block then rejected 100 else rejected 0)
                else if money_range (value_in - value_out)
                then done tt
                else rejected 100
          ])
            ≡ done tt
          → (value_out : ℕ) × (get_value_out tx ≡ some value_out)
            × (value_out + get_min_fee tx 1 0 ≤ value_in)
      by_value none known e = cc e
      by_value (some value_out) known e =
          let (enough, e1) = guard_done _ 100 e in
          (
            value_out,
            known,
            by_fee (ltb (value_in - value_out) (get_min_fee tx 1 0)) refl (ltb-false _ _ enough) e1,
          )
        where
          by_fee :
              (short : Bool)
              → ltb (value_in - value_out) (get_min_fee tx 1 0) ≡ short
              → value_out ≤ value_in
              → (if short
                  then (if env.mode.block then rejected 100 else rejected 0)
                  else if money_range (value_in - value_out)
                  then done tt
                  else rejected 100)
                ≡ done tt
              → value_out + get_min_fee tx 1 0 ≤ value_in
          by_fee true k le e = absurd (either env.mode.block e)
            where
              either : (b : Bool) → (if b then rejected 100 else rejected 0) ≡ done tt → ⊥
              either true e = cc e
              either false e = cc e
          by_fee false k le e = omega (arith, ltb-false _ _ k, le)
