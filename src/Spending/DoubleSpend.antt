-- ===== src/Spending/DoubleSpend.antt =====
-- No output is spent twice: what `FetchInputs` finds in the proposed changes, and what
-- `ConnectInputs` makes of it.
use build_env_jenkins.Common.{
  ℕ, zero, suc, ◌≡◌, ◌≢◌, ◌∙◌, sym, ap, subst, List, [], ◌∷◌, true, false, some, some-injective,
  get_or, get_elem?, lookup, All,
}
use build_env_jenkins.Transaction.{TxIn, Transaction}
use build_env_jenkins.Transaction.Check.{is_coin_base}
use build_env_jenkins.Spending.{null_pos, is_null_pos, key_of, PrevTxs, Indexes, done}
use build_env_jenkins.Spending.Fetch.{Store, keeps_changes, fetch_inputs}
use build_env_jenkins.Spending.Connect.{Environment, connect_inputs}
use build_env_jenkins.Spending.Checked.{IsChecked, AreChecked}
use build_env_jenkins.Spending.Coherent.{fetch_index-pool, fetch_inputs-IsCoherent}
use build_env_jenkins.Spending.Sound.{connect_inputs-IsConnected}

-- What holds of all inputs holds of each.
All-at :
    (P : TxIn → Type 0) (ins : List TxIn) (n : ℕ) (i : TxIn)
    → All P ins
    → get_elem? ins n ≡ some i
    → P i
All-at P [] n i h e = cc e
All-at P (j ∷ ins) zero i h e = subst P (some-injective _ _ e) h.0
All-at P (j ∷ ins) (suc n) i h e = All-at P ins n i h.1 e

AreChecked-at :
    (env : Environment) (tx : Transaction) (prevs : PrevTxs) (n_in : ℕ) (ins : List TxIn) (n : ℕ)
    (i : TxIn)
    → AreChecked env tx prevs n_in ins
    → get_elem? ins n ≡ some i
    → (m : ℕ) × IsChecked env tx prevs m i
AreChecked-at env tx prevs n_in [] n i h e = cc e
AreChecked-at env tx prevs n_in (j ∷ ins) zero i h e =
    (n_in, subst (λ k. IsChecked env tx prevs n_in k) (some-injective _ _ e) h.0)
AreChecked-at env tx prevs n_in (j ∷ ins) (suc n) i h e =
    AreChecked-at env tx prevs (suc n_in) ins n i h.1 e

-- Of two transactions that take the same output the second is not accepted: where `ConnectInputs`
-- has accepted the first and keeps its changes, and `FetchInputs` reads the inputs of the second
-- with these changes, `ConnectInputs` does not return true for the second. Neither is a coin base,
-- and their positions are not null.
pub no_double_spend :
    (env env' : Environment) (tx tx' : Transaction) (store : Store) (prevs prevs' : PrevTxs)
    (pool between after : Indexes) (n n' : ℕ) (i i' : TxIn)
    → is_null_pos env.pos_this_tx ≡ false
    → is_null_pos env'.pos_this_tx ≡ false
    → is_coin_base tx ≡ false
    → is_coin_base tx' ≡ false
    → keeps_changes env.mode ≡ true
    → keeps_changes env'.mode ≡ true
    → connect_inputs env tx prevs pool ≡ (done tt, between)
    → fetch_inputs store env'.mode between tx' ≡ done prevs'
    → get_elem? tx.vin n ≡ some i
    → get_elem? tx'.vin n' ≡ some i'
    → i.prevout ≡ i'.prevout
    → connect_inputs env' tx' prevs' between ≢ (done tt, after)
no_double_spend env env' tx tx' store prevs prevs' pool between after n n' i i' real real' base
      base' keeps keeps' first fetched at at' same second =
    let before = connect_inputs-IsConnected env tx prevs pool between real base first in
    let (index, pooled, marked) = All-at _ tx.vin n i (before.marked keeps) at in
    let later = connect_inputs-IsConnected env' tx' prevs' between after real' base' second in
    let (m, c) = AreChecked-at env' tx' prevs' 0 tx'.vin n' i' later.checked at' in
    let found : c.index ≡ index = some-injective _ _ (
      sym (
        fetch_inputs-IsCoherent store env'.mode between keeps' tx' prevs' fetched
          (key_of i'.prevout.hash) c.index c.prev c.known)
      ∙ fetch_index-pool store env'.mode between keeps' (key_of i'.prevout.hash) index
          (subst (λ p. lookup (key_of p.hash) between ≡ some index) same pooled)) in
    let spent : get_or c.index.v_spent i'.prevout.n null_pos ≡ env.pos_this_tx =
      ap (λ x. get_or x.v_spent i'.prevout.n null_pos) found
      ∙ subst (λ p. get_or index.v_spent p.n null_pos ≡ env.pos_this_tx) same marked in
    cc (sym (ap is_null_pos spent) ∙ c.unspent, real)
