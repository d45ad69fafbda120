-- ===== src/Spending/Run.antt =====
-- The two loops of `ConnectInputs` where it returns true.
use build_env_jenkins.Common.{ℕ, ◌≡◌, refl, ap, Bool, true, false, if◌then◌else◌}
use build_env_jenkins.Transaction.{Transaction}
use build_env_jenkins.Transaction.Check.{is_coin_base, is_coin_stake}
use build_env_jenkins.Spending.{PrevTxs, Indexes, Progress, done, rejected, aborted}
use build_env_jenkins.Spending.Connect.{
  Environment, tally_loop, Spent, spend_loop, check_value, check_stake, connect_spending,
  connect_inputs,
}

module _ (env : Environment) (tx : Transaction) where
  -- What the loops give, and what the end has checked.
  pub record IsRun (prevs : PrevTxs) (pool pool' : Indexes) : Type 0 where
    pub value_in : ℕ
    pub end : Spent
    pub tallied : tally_loop env tx prevs tx.vin 0 ≡ done value_in
    pub spent : spend_loop env tx 0 tx.vin (record { prevs = prevs; pool = pool }) ≡ (done tt, end)
    pub kept : end.pool ≡ pool'
    pub valued : is_coin_stake tx ≡ false → check_value env tx value_in ≡ done tt

  connect_spending-IsRun :
      (prevs : PrevTxs) (pool pool' : Indexes)
      → connect_spending env tx prevs pool ≡ (done tt, pool')
      → IsRun prevs pool pool'
  unfolding connect_spending
  connect_spending-IsRun prevs pool pool' e = by_tally (tally_loop env tx prevs tx.vin 0) refl e
    where
      by_end :
          (value_in : ℕ) (s : Spent) (stake : Bool)
          → is_coin_stake tx ≡ stake
          → tally_loop env tx prevs tx.vin 0 ≡ done value_in
          → spend_loop env tx 0 tx.vin (record { prevs = prevs; pool = pool }) ≡ (done tt, s)
          → ◌≡◌ {A = Progress Unit × Indexes}
              (if stake then check_stake env tx value_in else check_value env tx value_in, s.pool)
              (done tt, pool')
          → IsRun prevs pool pool'
      by_end value_in s true k t c e = record {
        value_in = value_in;
        end = s;
        tallied = t;
        spent = c;
        kept = ap (λ x. x.1) e;
        valued = λ plain. cc (plain, k);
      }
      by_end value_in s false k t c e = record {
        value_in = value_in;
        end = s;
        tallied = t;
        spent = c;
        kept = ap (λ x. x.1) e;
        valued = λ plain. ap (λ x. x.0) e;
      }

      by_spend :
          (value_in : ℕ) (p : Progress Unit) (s : Spent)
          → tally_loop env tx prevs tx.vin 0 ≡ done value_in
          → spend_loop env tx 0 tx.vin (record { prevs = prevs; pool = pool }) ≡ (p, s)
          → (elim p as (λ x. Progress Unit × Indexes) [
            | rejected dos ↦ (rejected dos, s.pool)
            | aborted ↦ (aborted, s.pool)
            | done u ↦ (
              if is_coin_stake tx then check_stake env tx value_in else check_value env tx value_in,
              s.pool,
            )
          ])
            ≡ (done tt, pool')
          → IsRun prevs pool pool'
      by_spend value_in (rejected dos) s t c e = cc (ap (λ x. x.0) e)
      by_spend value_in aborted s t c e = cc (ap (λ x. x.0) e)
      by_spend value_in (done u) s t c e = by_end value_in s (is_coin_stake tx) refl t c e

      by_tally :
          (p : Progress ℕ)
          → tally_loop env tx prevs tx.vin 0 ≡ p
          → (elim p as (λ x. Progress Unit × Indexes) [
            | rejected dos ↦ (rejected dos, pool)
            | aborted ↦ (aborted, pool)
            | done value_in ↦
                let (progress, s) =
                  spend_loop env tx 0 tx.vin (record { prevs = prevs; pool = pool }) in
                elim progress as (λ x. Progress Unit × Indexes) [
                  | rejected dos ↦ (rejected dos, s.pool)
                  | aborted ↦ (aborted, s.pool)
                  | done u ↦ (
                    if is_coin_stake tx
                        then check_stake env tx value_in
                        else check_value env tx value_in,
                    s.pool,
                  )
                ]
          ])
            ≡ (done tt, pool')
          → IsRun prevs pool pool'
      by_tally (rejected dos) t e = cc (ap (λ x. x.0) e)
      by_tally aborted t e = cc (ap (λ x. x.0) e)
      by_tally (done value_in) t e =
          let r = spend_loop env tx 0 tx.vin (record { prevs = prevs; pool = pool }) in
          by_spend value_in r.0 r.1 t refl e

  pub connect_inputs-IsRun :
      (prevs : PrevTxs) (pool pool' : Indexes)
      → is_coin_base tx ≡ false
      → connect_inputs env tx prevs pool ≡ (done tt, pool')
      → IsRun prevs pool pool'
  unfolding connect_inputs
  connect_inputs-IsRun prevs pool pool' spending e =
      connect_spending-IsRun prevs pool pool' (rw spending at e)
