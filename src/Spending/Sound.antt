-- ===== src/Spending/Sound.antt =====
-- What holds of the inputs of a transaction that `ConnectInputs` accepts.
use build_env_jenkins.Common.{
  ℕ, suc, ◌+◌, ◌≤◌, ◌<◌, ◌≡◌, refl, ap, subst, List, [], ◌∷◌, true, false, Option, none, some,
  length, lookup, get_or, arith, All,
}
use build_env_jenkins.Transaction.{TxIn, Transaction}
use build_env_jenkins.Transaction.Check.{max_money, is_coin_base, is_coin_stake, get_value_out}
use build_env_jenkins.Spending.{
  null_pos, is_null_pos, TxIndex, key_of, PrevTxs, Indexes, Progress, done, rejected, aborted,
  get_min_fee,
}
use build_env_jenkins.Spending.Fetch.{keeps_changes}
use build_env_jenkins.Spending.Connect.{
  Environment, Spent, mark_spent, check_input, spend_loop, connect_inputs,
}
use build_env_jenkins.Spending.Fee.{check_value-done}
use build_env_jenkins.Spending.Run.{IsRun, connect_inputs-IsRun}
use build_env_jenkins.Spending.Tally.{IsTallied, sum_of, tally_loop_sound}
use build_env_jenkins.Spending.Checked.{AreChecked, Entry, entry_injective, check_input-done}
use build_env_jenkins.Spending.Marks.{
  IsMarked, HasRoom, IsChecked-before, mark-IsMarked, mark-fresh, mark-HasRoom,
}

module _ (env : Environment) (tx : Transaction) where
  -- What the second loop leaves of the inputs that it has gone through.
  record IsSpentFrom (s t : Spent) (n_in : ℕ) (ins : List TxIn) : Type 0 where
    checked : AreChecked env tx s.prevs n_in ins
    marked : All (λ i. IsMarked env tx t (key_of i.prevout.hash) i.prevout.n) ins
    kept : (key n : ℕ) → IsMarked env tx s key n → IsMarked env tx t key n

  AreChecked-before :
      (s : Spent) (n_in : ℕ) (i : TxIn) (js : List TxIn) (index : TxIndex) (prev : Transaction)
      → is_null_pos env.pos_this_tx ≡ false
      → lookup (key_of i.prevout.hash) s.prevs ≡ some (index, prev)
      → AreChecked env tx (mark_spent env i (index, prev) s).prevs n_in js
      → AreChecked env tx s.prevs n_in js
  AreChecked-before s n_in i [] index prev real known h = tt
  AreChecked-before s n_in i (j ∷ js) index prev real known h = (
    IsChecked-before env tx s n_in i j index prev real known h.0,
    AreChecked-before s (suc n_in) i js index prev real known h.1,
  )

  All-HasRoom :
      (s : Spent) (i : TxIn) (js : List TxIn) (index : TxIndex) (prev : Transaction)
      → lookup (key_of i.prevout.hash) s.prevs ≡ some (index, prev)
      → All (HasRoom env tx s.prevs) js
      → All (HasRoom env tx (mark_spent env i (index, prev) s).prevs) js
  All-HasRoom s i [] index prev known h = tt
  All-HasRoom s i (j ∷ js) index prev known h =
      (mark-HasRoom env tx s i j index prev known h.0, All-HasRoom s i js index prev known h.1)

  spend_loop-IsSpentFrom :
      (n_in : ℕ) (ins : List TxIn) (s t : Spent)
      → is_null_pos env.pos_this_tx ≡ false
      → All (HasRoom env tx s.prevs) ins
      → spend_loop env tx n_in ins s ≡ (done tt, t)
      → IsSpentFrom s t n_in ins
  unfolding spend_loop
  spend_loop-IsSpentFrom n_in [] s t real room e = record {
    checked = tt;
    marked = tt;
    kept = λ key n m. subst (λ u. IsMarked env tx u key n) (ap (λ x. x.1) e) m;
  }
  spend_loop-IsSpentFrom n_in (i ∷ ins) s t real room e =
      by_lookup (lookup (key_of i.prevout.hash) s.prevs) refl e
        (λ s'. spend_loop-IsSpentFrom (suc n_in) ins s' t real)
    where
      Rest : Type 0
      Rest =
          (s' : Spent)
          → All (HasRoom env tx s'.prevs) ins
          → spend_loop env tx (suc n_in) ins s' ≡ (done tt, t)
          → IsSpentFrom s' t (suc n_in) ins

      by_check :
          (prev : Entry) (p : Progress Unit)
          → lookup (key_of i.prevout.hash) s.prevs ≡ some prev
          → check_input env tx n_in i prev ≡ p
          → (elim p as (λ x. Progress Unit × Spent) [
            | done u ↦ spend_loop env tx (suc n_in) ins (mark_spent env i prev s)
            | rejected dos ↦ (rejected dos, s)
            | aborted ↦ (aborted, s)
          ])
            ≡ (done tt, t)
          → Rest
          → IsSpentFrom s t n_in (i ∷ ins)
      by_check prev (rejected dos) known c e rest = cc (ap (λ x. x.0) e)
      by_check prev aborted known c e rest = cc (ap (λ x. x.0) e)
      by_check (index, prev) (done u) known c e rest =
          let later =
            rest (mark_spent env i (index, prev) s) (All-HasRoom s i ins index prev known room.1)
              e in
          record {
            checked = (
              check_input-done env tx s.prevs n_in i index prev known c,
              AreChecked-before s (suc n_in) i ins index prev real known later.checked,
            );
            marked = (
              later.kept (key_of i.prevout.hash) i.prevout.n
                  (mark-fresh env tx s i index prev (room.0 index prev known)),
              later.marked,
            );
            kept = λ key n m. later.kept key n (mark-IsMarked env tx s i index prev key n m known);
          }

      by_lookup :
          (o : Option Entry)
          → lookup (key_of i.prevout.hash) s.prevs ≡ o
          → (elim o as (λ x. Progress Unit × Spent) [
            | none ↦ (aborted, s)
            | some prev ↦ elim (check_input env tx n_in i prev) as (λ x. Progress Unit × Spent) [
              | done u ↦ spend_loop env tx (suc n_in) ins (mark_spent env i prev s)
              | rejected dos ↦ (rejected dos, s)
              | aborted ↦ (aborted, s)
            ]
          ])
            ≡ (done tt, t)
          → Rest
          → IsSpentFrom s t n_in (i ∷ ins)
      by_lookup none known e rest = cc (ap (λ x. x.0) e)
      by_lookup (some prev) known e rest =
          by_check prev (check_input env tx n_in i prev) known refl e rest

  -- What `ConnectInputs` has made sure of where it returns true.
  pub record IsConnected (prevs : PrevTxs) (pool : Indexes) : Type 0 where
    pub tallied : All (IsTallied env tx prevs) tx.vin
    pub in_range : sum_of env tx prevs tx.vin ≤ max_money
    pub checked : AreChecked env tx prevs 0 tx.vin
    pub marked :
        keeps_changes env.mode ≡ true
        → All
            (λ i.
              (index : TxIndex) × (lookup (key_of i.prevout.hash) pool ≡ some index)
              × (get_or index.v_spent i.prevout.n null_pos ≡ env.pos_this_tx))
            tx.vin
    pub pays :
        is_coin_stake tx ≡ false
        → (value_out : ℕ) × (get_value_out tx ≡ some value_out)
          × (value_out + get_min_fee tx 1 0 ≤ sum_of env tx prevs tx.vin)

  tallied-HasRoom :
      (prevs : PrevTxs) (ins : List TxIn)
      → All (IsTallied env tx prevs) ins
      → All (HasRoom env tx prevs) ins
  tallied-HasRoom prevs [] h = tt
  tallied-HasRoom prevs (i ∷ ins) h = (
    λ index prev known.
        subst (λ x. i.prevout.n < length x.v_spent) (entry_injective _ h.0.known known).0
          h.0.in_spent,
    tallied-HasRoom prevs ins h.1,
  )

  marked_in_pool :
      (s : Spent) (ins : List TxIn)
      → keeps_changes env.mode ≡ true
      → All (λ i. IsMarked env tx s (key_of i.prevout.hash) i.prevout.n) ins
      → All
          (λ i.
            (index : TxIndex) × (lookup (key_of i.prevout.hash) s.pool ≡ some index)
            × (get_or index.v_spent i.prevout.n null_pos ≡ env.pos_this_tx))
          ins
  marked_in_pool s [] k h = tt
  marked_in_pool s (i ∷ ins) k h =
      ((h.0.index, h.0.pooled k, h.0.marked), marked_in_pool s ins k h.1)

  run-IsConnected :
      (prevs : PrevTxs) (pool pool' : Indexes)
      → is_null_pos env.pos_this_tx ≡ false
      → IsRun env tx prevs pool pool'
      → IsConnected prevs pool'
  run-IsConnected prevs pool pool' real r =
      let s : Spent = r.end in
      let (tallied, sum, bound) =
        tally_loop_sound env tx prevs tx.vin 0 r.value_in r.tallied (omega arith) in
      let spent =
        spend_loop-IsSpentFrom 0 tx.vin (record { prevs = prevs; pool = pool }) s real
          (tallied-HasRoom prevs tx.vin tallied) r.spent in
      record {
        tallied = tallied;
        in_range = omega (arith, sum, bound);
        checked = spent.checked;
        marked = λ k.
            subst
              (λ q.
                All
                  (λ i.
                    (index : TxIndex) × (lookup (key_of i.prevout.hash) q ≡ some index)
                    × (get_or index.v_spent i.prevout.n null_pos ≡ env.pos_this_tx))
                  tx.vin)
              r.kept (marked_in_pool s tx.vin k spent.marked);
        pays = λ plain.
            let (value_out, known, enough) = check_value-done env tx r.value_in (r.valued plain) in
            (value_out, known, omega (arith, sum, enough));
      }

  -- A transaction other than a coin base that `ConnectInputs` accepts takes outputs that it knows,
  -- that are not spent, that are not later than it is and whose values are in range together; the
  -- scripts accept, unless signatures are passed over; where changes are kept every output that it
  -- takes is marked; and unless it is a coin stake it pays the fee. Its own position is not null.
  pub connect_inputs-IsConnected :
      (prevs : PrevTxs) (pool pool' : Indexes)
      → is_null_pos env.pos_this_tx ≡ false
      → is_coin_base tx ≡ false
      → connect_inputs env tx prevs pool ≡ (done tt, pool')
      → IsConnected prevs pool'
  connect_inputs-IsConnected prevs pool pool' real spending e =
      run-IsConnected prevs pool pool' real
        (connect_inputs-IsRun env tx prevs pool pool' spending e)
