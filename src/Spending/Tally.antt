-- ===== src/Spending/Tally.antt =====
-- The first loop of `ConnectInputs`: what it has checked, and what it adds up.
use build_env_jenkins.Common.{
  ℕ, ◌+◌, ◌≤◌, ◌<◌, ◌≡◌, ◌∙◌, refl, sym, ap, subst, List, [], ◌∷◌, Bool, true, false, not, Option,
  none, some, length, lookup, ltb, leb, if◌then◌else◌, ◌||◌, arith, All,
}
use build_env_jenkins.Transaction.{TxIn, Transaction}
use build_env_jenkins.Transaction.Check.{max_money, is_negative, money_range, add64}
use build_env_jenkins.Spending.{
  TxIndex, key_of, PrevTxs, Progress, done, rejected, aborted, output_at,
}
use build_env_jenkins.Spending.Connect.{Environment, tally_input, tally_loop}

-- A result behind a guard.
pub guard_done :
    {A : Type 0} {x : A} {q : Progress A} (b : Bool) (dos : ℕ)
    → (if b then rejected dos else q) ≡ done x
    → (b ≡ false) × (q ≡ done x)
guard_done true dos e = cc e
guard_done false dos e = (refl, e)

pub done_injective : {A : Type 0} {x y : A} → done x ≡ done y → x ≡ y
done_injective {A} {x} e = ap result e
  where
    result : Progress A → A
    result (done y) = y
    result (rejected dos) = x
    result aborted = x

pub neither : (a b : Bool) → (a || b) ≡ false → (a ≡ false) × (b ≡ false)
neither true b e = cc e
neither false b e = (refl, e)

pub not-false : (b : Bool) → not b ≡ false → b ≡ true
not-false true e = refl
not-false false e = cc e

leb-false : (a b : ℕ) → leb a b ≡ false → b < a
leb-false a b e = ground arith

pub ltb-false : (a b : ℕ) → ltb a b ≡ false → b ≤ a
ltb-false a b e = ground arith

pub money_range_le : (v : ℕ) → money_range v ≡ true → v ≤ max_money
unfolding money_range is_negative
money_range_le v e = ground arith

pub add64_in_range : (a b : ℕ) → a ≤ max_money → b ≤ max_money → add64 a b ≡ a + b
unfolding add64
add64_in_range a b h k = omega arith

module _ (env : Environment) (tx : Transaction) where
  -- What the first loop has checked of an input.
  pub record IsTallied (prevs : PrevTxs) (i : TxIn) : Type 0 where
    pub index : TxIndex
    pub prev : Transaction
    pub known : lookup (key_of i.prevout.hash) prevs ≡ some (index, prev)
    pub in_vout : i.prevout.n < length prev.vout
    pub in_spent : i.prevout.n < length index.v_spent
    pub earlier : prev.n_time ≤ tx.n_time

  -- What an input brings in, as far as it is known.
  abbrev pub value_of : PrevTxs → TxIn → ℕ
  value_of prevs i = elim (lookup (key_of i.prevout.hash) prevs) [
    | none ↦ 0
    | some (index, prev) ↦ (output_at prev i.prevout.n).n_value
  ]

  abbrev pub sum_of : PrevTxs → List TxIn → ℕ
  sum_of prevs [] = 0
  sum_of prevs (i ∷ ins) = value_of prevs i + sum_of prevs ins

  tally_input-done :
      (i : TxIn) (value_in value : ℕ) (index : TxIndex) (prev : Transaction)
      → tally_input env tx i value_in (index, prev) ≡ done value
      → value_in ≤ max_money
      → (i.prevout.n < length prev.vout)
        × (i.prevout.n < length index.v_spent)
        × (prev.n_time ≤ tx.n_time)
        × (value ≤ max_money)
        × (value ≡ value_in + (output_at prev i.prevout.n).n_value)
  unfolding tally_input
  tally_input-done i value_in value index prev e le =
      let (range, e1) = guard_done _ 100 e in
      let (mature, e2) = guard_done _ 0 e1 in
      let (time, e3) = guard_done _ 100 e2 in
      let (money, e4) = guard_done _ 100 e3 in
      let (in_vout, in_spent) = neither _ _ range in
      let (one, sum) = neither _ _ money in
      let exact =
        add64_in_range value_in (output_at prev i.prevout.n).n_value le
          (money_range_le _ (not-false _ one)) in
      let same = sym (done_injective e4) in
      (
        leb-false _ _ in_vout,
        leb-false _ _ in_spent,
        ltb-false _ _ time,
        subst (λ v. v ≤ max_money) (sym same) (money_range_le _ (not-false _ sum)),
        same ∙ exact,
      )

  pub tally_loop_sound :
      (prevs : PrevTxs) (ins : List TxIn) (value_in value : ℕ)
      → tally_loop env tx prevs ins value_in ≡ done value
      → value_in ≤ max_money
      → All (IsTallied prevs) ins × (value ≡ value_in + sum_of prevs ins) × (value ≤ max_money)
  unfolding tally_loop
  tally_loop_sound prevs [] value_in value e le =
      (tt, omega (arith, done_injective e), omega (arith, done_injective e))
  tally_loop_sound prevs (i ∷ ins) value_in value e le =
      by_lookup (lookup (key_of i.prevout.hash) prevs) refl e (tally_loop_sound prevs ins)
    where
      Rest : Type 0
      Rest =
          (v w : ℕ)
          → tally_loop env tx prevs ins v ≡ done w
          → v ≤ max_money
          → All (IsTallied prevs) ins × (w ≡ v + sum_of prevs ins) × (w ≤ max_money)

      by_step :
          (index : TxIndex) (prev : Transaction) (p : Progress ℕ)
          → lookup (key_of i.prevout.hash) prevs ≡ some (index, prev)
          → tally_input env tx i value_in (index, prev) ≡ p
          → (elim p as (λ x. Progress ℕ) [
            | done v ↦ tally_loop env tx prevs ins v
            | rejected dos ↦ rejected dos
            | aborted ↦ aborted
          ])
            ≡ done value
          → Rest
          → All (IsTallied prevs) (i ∷ ins)
            × (value ≡ value_in + sum_of prevs (i ∷ ins))
            × (value ≤ max_money)
      by_step index prev (rejected dos) known t e rest = cc e
      by_step index prev aborted known t e rest = cc e
      by_step index prev (done v) known t e rest =
          let (in_vout, in_spent, earlier, le', exact) =
            tally_input-done i value_in v index prev t le in
          let (all, sum, bound) = rest v value e le' in
          (
            (
              record {
                index = index;
                prev = prev;
                known = known;
                in_vout = in_vout;
                in_spent = in_spent;
                earlier = earlier;
              },
              all,
            ),
            omega (arith, sum, exact, ap brings known),
            bound,
          )
        where
          brings : Option (TxIndex × Transaction) → ℕ
          brings none = 0
          brings (some (index, prev)) = (output_at prev i.prevout.n).n_value

      by_lookup :
          (o : Option (TxIndex × Transaction))
          → lookup (key_of i.prevout.hash) prevs ≡ o
          → (elim o as (λ x. Progress ℕ) [
            | none ↦ aborted
            | some prev ↦ elim (tally_input env tx i value_in prev) as (λ x. Progress ℕ) [
              | done v ↦ tally_loop env tx prevs ins v
              | rejected dos ↦ rejected dos
              | aborted ↦ aborted
            ]
          ])
            ≡ done value
          → Rest
          → All (IsTallied prevs) (i ∷ ins)
            × (value ≡ value_in + sum_of prevs (i ∷ ins))
            × (value ≤ max_money)
      by_lookup none known e rest = cc e
      by_lookup (some (index, prev)) known e rest =
          by_step index prev (tally_input env tx i value_in (index, prev)) known refl e rest
