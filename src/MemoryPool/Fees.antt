-- ===== src/MemoryPool/Fees.antt =====
-- The fees that `accept` reckons, on inputs whose values are in range.
use build_env_jenkins.Common.{
  ℕ, ◌+◌, ◌≤◌, ◌<◌, ◌≡◌, ◌⊎◌, ◌∙◌, refl, ap, subst, List, [], ◌∷◌, Bool, true, false, not, Option,
  none, some, some-injective, inl, inr, length, leb, if◌then◌else◌, ◌&&◌, arith, All,
}
use build_env_jenkins.OpenSsl.{OpenSsl}
use build_env_jenkins.Transaction.{TxIn, TxOut, Transaction}
use build_env_jenkins.Transaction.Check.{max_money, is_negative, add64, get_value_out}
use build_env_jenkins.Spending.{PrevTxs, Progress, done, rejected, aborted, output_at}
use build_env_jenkins.Spending.Connect.{Environment}
use build_env_jenkins.Spending.Standard.{
  get_output_for, value_in_loop, get_value_in, are_inputs_standard,
}
use build_env_jenkins.Spending.Tally.{guard_done, add64_in_range, IsTallied, value_of, sum_of}
use build_env_jenkins.MemoryPool.{Node, sub64, less_fee, relay_fee, fees_of, check_rate, check_fees}

module _ (env : Environment) (tx : Transaction) (prevs : PrevTxs) where
  output_of_tallied :
      (i : TxIn)
      → IsTallied env tx prevs i
      → (o : TxOut) × (get_output_for i prevs ≡ some o) × (o.n_value ≡ value_of env tx prevs i)
  unfolding get_output_for
  output_of_tallied i t = (
    output_at t.prev i.prevout.n,
    rw (get_output_for, t.known, not_behind (length t.prev.vout) i.prevout.n t.in_vout) refl,
    rw (value_of, t.known) refl,
  )
    where
      not_behind : (a b : ℕ) → b < a → leb a b ≡ false
      not_behind a b h = ground arith

  -- Where the sum is in range, `GetValueIn` does not wrap around.
  pub value_in_loop-sum_of :
      (ins : List TxIn) (result : ℕ)
      → All (IsTallied env tx prevs) ins
      → result + sum_of env tx prevs ins ≤ max_money
      → value_in_loop prevs result ins ≡ some (result + sum_of env tx prevs ins)
  unfolding value_in_loop
  value_in_loop-sum_of [] result h le = ap some (omega arith)
  value_in_loop-sum_of (i ∷ ins) result h le =
      let (o, got, same) = output_of_tallied i h.0 in
      let exact : add64 result o.n_value ≡ result + value_of env tx prevs i =
        rw same (
          add64_in_range result (value_of env tx prevs i) (omega (arith, le))
            (omega (arith, le))) in
      rw (value_in_loop, got, exact)
        (value_in_loop-sum_of ins (result + value_of env tx prevs i) h.1 (omega (arith, le))
          ∙ ap some (omega arith))

-- The difference is the fee, where it is not negative.
pub less_fee-false :
    (value_in value_out least : ℕ)
    → value_in ≤ max_money
    → value_out ≤ value_in
    → less_fee (sub64 value_in value_out) least ≡ false
    → value_out + least ≤ value_in
unfolding sub64 is_negative
less_fee-false value_in value_out least le under e = ground arith

module _ (ssl : OpenSsl) (node : Node) (tx : Transaction) where
  pub fees_of-sub64 :
      (prevs : PrevTxs) (value_in value_out : ℕ)
      → get_value_in tx prevs ≡ some value_in
      → get_value_out tx ≡ some value_out
      → fees_of tx prevs ≡ some (sub64 value_in value_out)
  unfolding fees_of
  fees_of-sub64 prevs value_in value_out brought given = rw (fees_of, brought, given) refl

  pub check_fees-done :
      (prevs : PrevTxs) (fees : ℕ)
      → fees_of tx prevs ≡ some fees
      → check_fees ssl node tx prevs ≡ done tt
      → ((are_inputs_standard ssl tx prevs ≡ some true) ⊎ (node.test_net ≡ true))
        × (less_fee fees (relay_fee tx) ≡ false)
  unfolding check_fees check_rate
  check_fees-done prevs fees known e =
      by_standard (are_inputs_standard ssl tx prevs) refl (fees_of tx prevs) known e
    where
      by_standard :
          (o : Option Bool)
          → are_inputs_standard ssl tx prevs ≡ o
          → (p : Option ℕ) → p ≡ some fees
          → (elim o as (λ x. Progress Unit) [
            | none ↦ aborted
            | some standard ↦
                if not standard && not node.test_net
                then rejected 0
                else elim p as (λ x. Progress Unit) [
                  | none ↦ aborted
                  | some f ↦ check_rate node tx f
                ]
          ])
            ≡ done tt
          → ((are_inputs_standard ssl tx prevs ≡ some true) ⊎ (node.test_net ≡ true))
            × (less_fee fees (relay_fee tx) ≡ false)
      by_standard none k p same e = cc e
      by_standard (some standard) k none same e = cc same
      by_standard (some standard) k (some f) same e =
          let (fine, e1) = guard_done _ 0 e in
          (
            either standard node.test_net k fine,
            subst (λ x. less_fee x (relay_fee tx) ≡ false) (some-injective _ _ same)
                (guard_done _ 0 e1).0,
          )
        where
          either :
              (a b : Bool)
              → are_inputs_standard ssl tx prevs ≡ some a
              → (not a && not b) ≡ false
              → (are_inputs_standard ssl tx prevs ≡ some true) ⊎ (b ≡ true)
          either true b k e = inl k
          either false true k e = inr refl
          either false false k e = cc e
