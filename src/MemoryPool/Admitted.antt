-- ===== src/MemoryPool/Admitted.antt =====
-- What `accept` has made sure of where it checks the inputs.
use build_env_jenkins.Common.{
  ℕ, suc, ◌+◌, ◌≤◌, ◌≡◌, ◌⊎◌, ◌∙◌, refl, ap, List, [], ◌∷◌, Bool, true, false, some, inl, inr,
  lookup, get_or, arith, All,
}
use build_env_jenkins.OpenSsl.{OpenSsl}
use build_env_jenkins.Transaction.{TxIn, Transaction}
use build_env_jenkins.Transaction.Check.{max_money, is_coin_base, is_coin_stake, get_value_out}
use build_env_jenkins.Merkle.{get_hash}
use build_env_jenkins.Spending.{
  null_pos, is_null_pos, TxIndex, key_of, PrevTxs, Progress, done, rejected, aborted,
  verify_signature,
}
use build_env_jenkins.Spending.Fetch.{fetch_inputs}
use build_env_jenkins.Spending.Connect.{connect_inputs}
use build_env_jenkins.Spending.Standard.{get_value_in, are_inputs_standard}
use build_env_jenkins.Spending.Tally.{IsTallied, sum_of}
use build_env_jenkins.Spending.Checked.{AreChecked}
use build_env_jenkins.Spending.Sound.{IsConnected, connect_inputs-IsConnected}
use build_env_jenkins.MemoryPool.{
  TxMemPool, add_unchecked, Node, loose, store_of, environment_of, sub64, relay_fee, check_fees,
  admit_inputs, may_enter, accept,
}
use build_env_jenkins.MemoryPool.Accepted.{may_enter-Guards}
use build_env_jenkins.MemoryPool.Fees.{
  value_in_loop-sum_of, less_fee-false, fees_of-sub64, check_fees-done,
}

-- An output that input `n_in` may take: it is there, not spent, and its script accepts the input.
pub record IsTaken (ssl : OpenSsl) (tx : Transaction) (prevs : PrevTxs) (n_in : ℕ) (i : TxIn)
    : Type 0 where
  pub index : TxIndex
  pub prev : Transaction
  pub known : lookup (key_of i.prevout.hash) prevs ≡ some (index, prev)
  pub unspent : is_null_pos (get_or index.v_spent i.prevout.n null_pos) ≡ true
  pub signed : verify_signature ssl prev tx n_in i true ≡ some true

abbrev pub AreTaken : OpenSsl → Transaction → PrevTxs → ℕ → List TxIn → Type 0
AreTaken ssl tx prevs n_in [] = Unit
AreTaken ssl tx prevs n_in (i ∷ ins) =
    IsTaken ssl tx prevs n_in i × AreTaken ssl tx prevs (suc n_in) ins

-- What holds of a transaction that is taken with its inputs checked.
pub record IsAdmitted (ssl : OpenSsl) (node : Node) (tx : Transaction) (pool : TxMemPool)
    : Type 0 where
  pub prevs : PrevTxs
  pub fetched : fetch_inputs (store_of node pool) loose [] tx ≡ done prevs
  pub standard : (are_inputs_standard ssl tx prevs ≡ some true) ⊎ (node.test_net ≡ true)
  pub tallied : All (IsTallied (environment_of ssl node tx) tx prevs) tx.vin
  pub taken : AreTaken ssl tx prevs 0 tx.vin
  pub value_out : ℕ
  pub given : get_value_out tx ≡ some value_out
  pub pays : value_out + relay_fee tx ≤ sum_of (environment_of ssl node tx) tx prevs tx.vin
  pub in_range : sum_of (environment_of ssl node tx) tx prevs tx.vin ≤ max_money

module _ (ssl : OpenSsl) (node : Node) (tx : Transaction) where
  -- No signature is passed over, since the mode is not that of a block.
  checked-AreTaken :
      (prevs : PrevTxs) (n_in : ℕ) (ins : List TxIn)
      → AreChecked (environment_of ssl node tx) tx prevs n_in ins
      → AreTaken ssl tx prevs n_in ins
  checked-AreTaken prevs n_in [] h = tt
  checked-AreTaken prevs n_in (i ∷ ins) h =
      (taken h.0.signed, checked-AreTaken prevs (suc n_in) ins h.1)
    where
      taken :
          (◌≡◌ {A = Bool} false true) ⊎ (verify_signature ssl h.0.prev tx n_in i true ≡ some true)
          → IsTaken ssl tx prevs n_in i
      taken (inl e) = cc e
      taken (inr e) = record {
        index = h.0.index;
        prev = h.0.prev;
        known = h.0.known;
        unspent = h.0.unspent;
        signed = e;
      }

  connected-IsAdmitted :
      (pool : TxMemPool) (prevs : PrevTxs)
      → is_coin_base tx ≡ false
      → is_coin_stake tx ≡ false
      → fetch_inputs (store_of node pool) loose [] tx ≡ done prevs
      → check_fees ssl node tx prevs ≡ done tt
      → IsConnected
          (environment_of ssl node tx)
          tx
          prevs
          (connect_inputs (environment_of ssl node tx) tx prevs []).1
      → IsAdmitted ssl node tx pool
  unfolding get_value_in
  connected-IsAdmitted pool prevs spending plain fetched fees c =
      let sum = sum_of (environment_of ssl node tx) tx prevs tx.vin in
      let (value_out, given, enough) = c.pays plain in
      let under : value_out ≤ sum = omega (arith, enough) in
      let brought : get_value_in tx prevs ≡ some sum =
        rw (get_value_in, spending)
          (value_in_loop-sum_of (environment_of ssl node tx) tx prevs tx.vin 0 c.tallied
              (omega (arith, c.in_range))
            ∙ ap some (omega arith)) in
      let (standard, paid) =
        check_fees-done ssl node tx prevs (sub64 sum value_out)
          (fees_of-sub64 ssl node tx prevs sum value_out brought given) fees in
      record {
        prevs = prevs;
        fetched = fetched;
        standard = standard;
        tallied = c.tallied;
        taken = checked-AreTaken prevs 0 tx.vin c.checked;
        value_out = value_out;
        given = given;
        pays = less_fee-false sum value_out (relay_fee tx) c.in_range under paid;
        in_range = c.in_range;
      }

  admit_inputs-IsAdmitted :
      (pool : TxMemPool)
      → is_coin_base tx ≡ false
      → is_coin_stake tx ≡ false
      → admit_inputs ssl node tx pool ≡ done tt
      → IsAdmitted ssl node tx pool
  unfolding admit_inputs
  admit_inputs-IsAdmitted pool spending plain e =
      by_fetch (fetch_inputs (store_of node pool) loose [] tx) refl e
    where
      by_fees :
          (prevs : PrevTxs) (p : Progress Unit)
          → fetch_inputs (store_of node pool) loose [] tx ≡ done prevs
          → check_fees ssl node tx prevs ≡ p
          → (elim p as (λ x. Progress Unit) [
            | rejected dos ↦ rejected dos
            | aborted ↦ aborted
            | done u ↦ (connect_inputs (environment_of ssl node tx) tx prevs []).0
          ])
            ≡ done tt
          → IsAdmitted ssl node tx pool
      by_fees prevs (rejected dos) f k e = cc e
      by_fees prevs aborted f k e = cc e
      by_fees prevs (done u) f k e =
          let pool' = (connect_inputs (environment_of ssl node tx) tx prevs []).1 in
          connected-IsAdmitted pool prevs spending plain f k (
            connect_inputs-IsConnected (environment_of ssl node tx) tx prevs [] pool' refl spending
              (ap (λ x. (x, pool')) e))

      by_fetch :
          (p : Progress PrevTxs)
          → fetch_inputs (store_of node pool) loose [] tx ≡ p
          → (elim p as (λ x. Progress Unit) [
            | rejected dos ↦ rejected dos
            | aborted ↦ aborted
            | done prevs ↦ elim (check_fees ssl node tx prevs) as (λ x. Progress Unit) [
              | rejected dos ↦ rejected dos
              | aborted ↦ aborted
              | done u ↦ (connect_inputs (environment_of ssl node tx) tx prevs []).0
            ]
          ])
            ≡ done tt
          → IsAdmitted ssl node tx pool
      by_fetch (rejected dos) f e = cc e
      by_fetch aborted f e = cc e
      by_fetch (done prevs) f e = by_fees prevs (check_fees ssl node tx prevs) f refl e

-- A transaction that `accept` takes into the pool with its inputs checked has only inputs that
-- `FetchInputs` finds, in the database or in the pool; each takes an output that is not spent and
-- not later than the transaction, by a script that `VerifySignature` accepts; the inputs are
-- standard, unless this is the test network; and their values, which come to at most the money
-- there is, pay the outputs and the fee for relaying the size that it has.
pub accept-IsAdmitted :
    (ssl : OpenSsl) (node : Node) (tx : Transaction) (pool pool' : TxMemPool)
    → accept ssl node true tx pool ≡ (done tt, pool')
    → IsAdmitted ssl node tx pool
unfolding accept
accept-IsAdmitted ssl node tx pool pool' e = by_answer (may_enter ssl node true tx pool) refl e
  where
    key : ℕ
    key = key_of (get_hash ssl tx)

    by_answer :
        (p : Progress Unit)
        → may_enter ssl node true tx pool ≡ p
        → ◌≡◌ {A = Progress Unit × TxMemPool}
            (elim p as (λ x. Progress Unit × TxMemPool) [
              | rejected dos ↦ (rejected dos, pool)
              | aborted ↦ (aborted, pool)
              | done u ↦ (done tt, add_unchecked key tx pool)
            ])
            (done tt, pool')
        → IsAdmitted ssl node tx pool
    by_answer (rejected dos) k e = cc (ap (λ x. x.0) e)
    by_answer aborted k e = cc (ap (λ x. x.0) e)
    by_answer (done u) k e =
        let guards = may_enter-Guards ssl node true tx pool k in
        admit_inputs-IsAdmitted ssl node tx pool guards.spending guards.plain guards.admitted
