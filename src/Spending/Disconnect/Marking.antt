-- ===== src/Spending/Disconnect/Marking.antt =====
-- The second loop of `ConnectInputs` writes the outputs that the inputs take, and no others.
use build_env_jenkins.Common.{
  ℕ, suc, ◌≡◌, ◌∙◌, refl, sym, ap, subst, List, [], ◌∷◌, true, false, Option, none, some, lookup,
  put, IsSorted, put-IsSorted, lookup-put_same, lookup-put_other, ◌==◌, ==_iff, Bool-cases, inl,
  inr,
}
use build_env_jenkins.Transaction.{TxIn, Transaction}
use build_env_jenkins.Spending.{TxIndex, key_of, Indexes, Progress, done, rejected, aborted}
use build_env_jenkins.Spending.Fetch.{Store, keeps_changes, fetch_index}
use build_env_jenkins.Spending.Connect.{Environment, Spent, mark_spent, check_input, spend_loop}
use build_env_jenkins.Spending.Checked.{Entry, entry_injective}
use build_env_jenkins.Spending.Coherent.{IsCoherent, fetch_index-pool}
use build_env_jenkins.Spending.Disconnect.Slots.{View, Writes, WritesAll, written}

module _ (env : Environment) (tx : Transaction) (store : Store)
    (keeps : keeps_changes env.mode ≡ true) where
  -- The indexes as `FetchInputs` reads them, with the changes that are queued.
  abbrev pub view : Indexes → View
  view pool = λ k. fetch_index store env.mode pool k

  view-put :
      (key k : ℕ) (x : TxIndex) (pool : Indexes)
      → (k == key) ≡ false
      → view (put key x pool) k ≡ view pool k
  unfolding fetch_index
  view-put key k x pool other = rw (fetch_index, keeps, lookup-put_other k key x pool other) refl

  pool_marked :
      (s : Spent) (i : TxIn) (index : TxIndex) (prev : Transaction)
      → (mark_spent env i (index, prev) s).pool
        ≡ put (key_of i.prevout.hash) (written index i.prevout.n env.pos_this_tx) s.pool
  pool_marked s i index prev = rw keeps refl

  mark-Writes :
      (s : Spent) (i : TxIn) (index : TxIndex) (prev : Transaction)
      → lookup (key_of i.prevout.hash) s.prevs ≡ some (index, prev)
      → IsCoherent store env.mode s.pool s.prevs
      → Writes
          (view s.pool)
          (view (mark_spent env i (index, prev) s).pool)
          (key_of i.prevout.hash)
          i.prevout.n
          env.pos_this_tx
  mark-Writes s i index prev known coherent =
      subst (λ q. Writes (view s.pool) (view q) key i.prevout.n env.pos_this_tx)
        (sym (pool_marked s i index prev))
        (record {
          index = index;
          before = coherent key index prev known;
          after =
              fetch_index-pool store env.mode (put key marked s.pool) keeps key marked
                (lookup-put_same key marked s.pool);
          others = λ k other. view-put key k marked s.pool other;
        })
    where
      key : ℕ
      key = key_of i.prevout.hash

      marked : TxIndex
      marked = written index i.prevout.n env.pos_this_tx

  mark-IsCoherent :
      (s : Spent) (i : TxIn) (index : TxIndex) (prev : Transaction)
      → IsCoherent store env.mode s.pool s.prevs
      → IsCoherent store env.mode
          (mark_spent env i (index, prev) s).pool
          (mark_spent env i (index, prev) s).prevs
  mark-IsCoherent s i index prev coherent k x p found =
      ap (λ q. view q k) (pool_marked s i index prev) ∙ elim (Bool-cases (k == key)) [
        | inl same ↦
            let named : k ≡ key = (==_iff k key).0 same in
            ap (view (put key marked s.pool)) named
            ∙ fetch_index-pool store env.mode (put key marked s.pool) keeps key marked
                (lookup-put_same key marked s.pool)
            ∙ ap some
                (entry_injective _ (lookup-put_same key (marked, prev) s.prevs) (
                  subst (λ m. lookup m (put key (marked, prev) s.prevs) ≡ some (x, p)) named
                    found)).0
        | inr other ↦
            view-put key k marked s.pool other
            ∙ coherent k x p (sym (lookup-put_other k key (marked, prev) s.prevs other) ∙ found)
      ]
    where
      key : ℕ
      key = key_of i.prevout.hash

      marked : TxIndex
      marked = written index i.prevout.n env.pos_this_tx

  -- The marks, and that the changes stay sorted by their keys.
  pub spend_loop-WritesAll :
      (n_in : ℕ) (ins : List TxIn) (s t : Spent)
      → IsCoherent store env.mode s.pool s.prevs
      → IsSorted s.pool
      → spend_loop env tx n_in ins s ≡ (done tt, t)
      → WritesAll (view s.pool) (view t.pool) env.pos_this_tx ins × IsSorted t.pool
  unfolding spend_loop
  spend_loop-WritesAll n_in [] s t coherent sorted e =
      let same : s ≡ t = ap (λ x. x.1) e in
      (λ k. ap (λ x. view x.pool k) (sym same), subst (λ x. IsSorted x.pool) same sorted)
  spend_loop-WritesAll n_in (i ∷ ins) s t coherent sorted e =
      by_lookup (lookup (key_of i.prevout.hash) s.prevs) refl e
        (λ s'. spend_loop-WritesAll (suc n_in) ins s' t)
    where
      Rest : Type 0
      Rest =
          (s' : Spent)
          → IsCoherent store env.mode s'.pool s'.prevs
          → IsSorted s'.pool
          → spend_loop env tx (suc n_in) ins s' ≡ (done tt, t)
          → WritesAll (view s'.pool) (view t.pool) env.pos_this_tx ins × IsSorted t.pool

      by_check :
          (prev : Entry) (p : Progress Unit)
          → lookup (key_of i.prevout.hash) s.prevs ≡ some prev
          → (elim p as (λ x. Progress Unit × Spent) [
            | done u ↦ spend_loop env tx (suc n_in) ins (mark_spent env i prev s)
            | rejected dos ↦ (rejected dos, s)
            | aborted ↦ (aborted, s)
          ])
            ≡ (done tt, t)
          → Rest
          → WritesAll (view s.pool) (view t.pool) env.pos_this_tx (i ∷ ins) × IsSorted t.pool
      by_check prev (rejected dos) known e rest = cc (ap (λ x. x.0) e)
      by_check prev aborted known e rest = cc (ap (λ x. x.0) e)
      by_check (index, prev) (done u) known e rest =
          let marked = mark_spent env i (index, prev) s in
          let kept : IsSorted marked.pool =
            subst IsSorted (sym (pool_marked s i index prev)) (put-IsSorted _ _ s.pool sorted) in
          let (writes, end) = rest marked (mark-IsCoherent s i index prev coherent) kept e in
          ((view marked.pool, mark-Writes s i index prev known coherent, writes), end)

      by_lookup :
          (o : Option Entry)
          → lookup (key_of i.prevout.hash) s.prevs ≡ o
          → (elim o as (λ x. Progress Unit × Spent) [
            | none ↦ (aborted, s)
            | some prev ↦ elim (check_input env tx n_in i prev) as (λ x. Progress Unit × Spent) [
              | done u ↦ spend_loop env tx (suc n_in) ins (mark_spent env i prev s)
              | rejected dos ↦ (rejected dos, s)
              | aborted ↦ (aborted, s)
            ]
          ])
            ≡ (done tt, t)
          → Rest
          → WritesAll (view s.pool) (view t.pool) env.pos_this_tx (i ∷ ins) × IsSorted t.pool
      by_lookup none known e rest = cc (ap (λ x. x.0) e)
      by_lookup (some prev) known e rest =
          by_check prev (check_input env tx n_in i prev) known e rest
