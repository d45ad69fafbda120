-- ===== src/Spending/Disconnect/Undone.antt =====
-- `DisconnectInputs` undoes what `ConnectInputs` has done.
use build_env_jenkins.Common.{
  ℕ, suc, ◌≡◌, ◌∙◌, refl, sym, ap, subst, List, [], ◌∷◌, Bool, true, false, Option, none, some,
  length, replicate, lookup, put, erase_key, IsSorted, put-IsSorted, lookup-put_other,
  lookup-erase_same, lookup-erase_other, ◌==◌, ==_iff, Bool-cases, inl, inr, All,
}
use build_env_jenkins.Transaction.{TxIn, Transaction}
use build_env_jenkins.Transaction.Check.{is_coin_base}
use build_env_jenkins.Merkle.{get_hash}
use build_env_jenkins.Spending.{null_pos, is_null_pos, TxIndex, key_of, PrevTxs, Indexes, done}
use build_env_jenkins.Spending.Fetch.{Store, keeps_changes, fetch_index, fetch_inputs}
use build_env_jenkins.Spending.Connect.{Environment, connect_inputs}
use build_env_jenkins.Spending.Tally.{IsTallied}
use build_env_jenkins.Spending.Checked.{AreChecked}
use build_env_jenkins.Spending.Coherent.{IsCoherent, fetch_inputs-IsCoherent}
use build_env_jenkins.Spending.Run.{connect_inputs-IsRun}
use build_env_jenkins.Spending.Sound.{connect_inputs-IsConnected}
use build_env_jenkins.Spending.Disconnect.{
  disconnect_loop, disconnect_inputs, queue_index, write_changes,
}
use build_env_jenkins.Spending.Disconnect.Slots.{
  View, pos_at, HasSlot, takes, WritesAll, WritesAll-miss, WritesAll-hit, WritesAll-HasSlot,
}
use build_env_jenkins.Spending.Disconnect.Marking.{view, spend_loop-WritesAll}
use build_env_jenkins.Spending.Disconnect.Freed.{
  overlaid, lookup-write_changes, disconnect_loop-WritesAll,
}

module _ (env : Environment) (tx : Transaction) (store : Store) (db : Indexes)
    (keeps : keeps_changes env.mode ≡ true)
    (reads : (k : ℕ) → store.read_tx_index k ≡ lookup k db) where
  view-empty : (k : ℕ) → view env tx store keeps [] k ≡ lookup k db
  unfolding fetch_index
  view-empty k = rw (fetch_index, keeps, reads k) refl

  view-overlaid :
      (changes : Indexes) (k : ℕ)
      → view env tx store keeps changes k ≡ overlaid (lookup k db) (lookup k changes)
  unfolding fetch_index
  view-overlaid changes k = rw (fetch_index, keeps) (by_entry (lookup k changes))
    where
      by_entry :
          (o : Option TxIndex)
          → (elim o as (λ x. Option TxIndex) [ none ↦ store.read_tx_index k | some x ↦ some x ])
            ≡ overlaid (lookup k db) o
      by_entry none = reads k
      by_entry (some x) = refl

  -- The outputs that were taken were there, and were not spent.
  tallied-HasSlot :
      (prevs : PrevTxs) (ins : List TxIn)
      → IsCoherent store env.mode [] prevs
      → All (IsTallied env tx prevs) ins
      → All (λ i. HasSlot (view env tx store keeps []) (key_of i.prevout.hash) i.prevout.n) ins
  tallied-HasSlot prevs [] coherent h = tt
  tallied-HasSlot prevs (i ∷ ins) coherent h = (
    (h.0.index, coherent _ h.0.index h.0.prev h.0.known, h.0.in_spent),
    tallied-HasSlot prevs ins coherent h.1,
  )

  checked-unspent :
      (prevs : PrevTxs) (n_in : ℕ) (ins : List TxIn) (k m : ℕ)
      → IsCoherent store env.mode [] prevs
      → AreChecked env tx prevs n_in ins
      → takes ins k m ≡ true
      → is_null_pos (pos_at (view env tx store keeps [] k) m) ≡ true
  checked-unspent prevs n_in [] k m coherent h e = cc e
  checked-unspent prevs n_in (i ∷ ins) k m coherent h e =
      elim (Bool-cases (k == key_of i.prevout.hash)) [
        | inl same ↦ elim (Bool-cases (m == i.prevout.n)) [
          | inl here ↦
              ap (λ x. is_null_pos (pos_at (view env tx store keeps [] x) m))
                ((==_iff k (key_of i.prevout.hash)).0 same)
              ∙ ap
                  (λ x. is_null_pos (pos_at (view env tx store keeps [] (key_of i.prevout.hash)) x))
                  ((==_iff m i.prevout.n).0 here)
              ∙ ap (λ o. is_null_pos (pos_at o i.prevout.n))
                  (coherent _ h.0.index h.0.prev h.0.known)
              ∙ h.0.unspent
          | inr there ↦
              checked-unspent prevs (suc n_in) ins k m coherent h.1 (rw (same, there) at e)
        ]
        | inr other ↦ checked-unspent prevs (suc n_in) ins k m coherent h.1 (rw other at e)
      ]

  module _ (own : ℕ) (x : TxIndex) (changes : Indexes) (sorted : IsSorted changes) where
    -- The database that a transaction is connected to, away from the transaction itself.
    abbrev connected : View
    connected = λ k. lookup k (write_changes (put own x changes) db)

    connected-view : (k : ℕ) → (k == own) ≡ false → connected k ≡ view env tx store keeps changes k
    connected-view k other =
        lookup-write_changes k (put own x changes) db (put-IsSorted own x changes sorted)
        ∙ ap (overlaid (lookup k db)) (lookup-put_other k own x changes other)
        ∙ sym (view-overlaid changes k)

    connected-HasSlot :
        (ins all : List TxIn)
        → WritesAll
            (view env tx store keeps [])
            (view env tx store keeps changes)
            env.pos_this_tx
            all
        → All (λ i. (key_of i.prevout.hash == own) ≡ false) ins
        → All (λ i. HasSlot (view env tx store keeps []) (key_of i.prevout.hash) i.prevout.n) ins
        → All (λ i. HasSlot connected (key_of i.prevout.hash) i.prevout.n) ins
    connected-HasSlot [] all w apart h = tt
    connected-HasSlot (i ∷ ins) all w apart h =
        let (index, known, room) =
          WritesAll-HasSlot _ _ env.pos_this_tx all (key_of i.prevout.hash) i.prevout.n w h.0 in
        (
          (index, connected-view (key_of i.prevout.hash) apart.0 ∙ known, room),
          connected-HasSlot ins all w apart.1 h.1,
        )

    -- Freed outputs were not spent, and the others are as they were.
    freed_as_before :
        (prevs : PrevTxs) (db' : Indexes) (k m : ℕ)
        → IsCoherent store env.mode [] prevs
        → AreChecked env tx prevs 0 tx.vin
        → WritesAll
            (view env tx store keeps [])
            (view env tx store keeps changes)
            env.pos_this_tx
            tx.vin
        → WritesAll connected (λ j. lookup j db') null_pos tx.vin
        → All (λ i. HasSlot connected (key_of i.prevout.hash) i.prevout.n) tx.vin
        → (k == own) ≡ false
        → is_null_pos (pos_at (lookup k db') m) ≡ is_null_pos (pos_at (lookup k db) m)
    freed_as_before prevs db' k m coherent checked marks frees slots other =
        elim (Bool-cases (takes tx.vin k m)) [
          | inl taken ↦
              ap is_null_pos (WritesAll-hit connected _ null_pos tx.vin k m frees slots taken)
              ∙ sym (checked-unspent prevs 0 tx.vin k m coherent checked taken)
              ∙ ap (λ o. is_null_pos (pos_at o m)) (view-empty k)
          | inr left ↦ ap is_null_pos (
              WritesAll-miss connected _ null_pos tx.vin k m frees left
              ∙ ap (λ o. pos_at o m) (connected-view k other)
              ∙ WritesAll-miss _ _ env.pos_this_tx tx.vin k m marks left
              ∙ ap (λ o. pos_at o m) (view-empty k))
        ]

-- What disconnecting gives, where `db` is the database before the transaction was connected: it
-- returns true, the entry of the transaction is gone, and every output of another is spent or
-- unspent as it was.
pub record IsUndone (own : ℕ) (db : Indexes) (result : Bool × Indexes) : Type 0 where
  pub succeeds : result.0 ≡ true
  pub gone : lookup own result.1 ≡ none
  pub as_before :
      (k m : ℕ)
      → (k == own) ≡ false
      → is_null_pos (pos_at (lookup k result.1) m) ≡ is_null_pos (pos_at (lookup k db) m)

-- A transaction that is connected to a database, with its changes and its own entry written, and
-- then disconnected leaves every output of the other transactions spent or unspent as it was, and
-- no entry of its own; `DisconnectInputs` returns true. The transaction is not a coin base, its
-- position is not null, changes are kept, and no input has its own hash.
pub connect_disconnect :
    (env : Environment) (tx : Transaction) (store : Store) (db changes : Indexes) (prevs : PrevTxs)
    → is_null_pos env.pos_this_tx ≡ false
    → is_coin_base tx ≡ false
    → keeps_changes env.mode ≡ true
    → ((k : ℕ) → store.read_tx_index k ≡ lookup k db)
    → All (λ i. (key_of i.prevout.hash == key_of (get_hash env.ssl tx)) ≡ false) tx.vin
    → fetch_inputs store env.mode [] tx ≡ done prevs
    → connect_inputs env tx prevs [] ≡ (done tt, changes)
    → IsUndone (key_of (get_hash env.ssl tx)) db (
        disconnect_inputs env.ssl tx
          (write_changes (queue_index env.ssl env.pos_this_tx tx changes) db))
unfolding disconnect_inputs
connect_disconnect env tx store db changes prevs real spending keeps reads apart fetched done_so =
    let run = connect_inputs-IsRun env tx prevs [] changes spending done_so in
    let c = connect_inputs-IsConnected env tx prevs [] changes real spending done_so in
    let coherent = fetch_inputs-IsCoherent store env.mode [] keeps tx prevs fetched in
    let (marks, sorted) =
      subst (λ q. WritesAll (seen []) (seen q) env.pos_this_tx tx.vin × IsSorted q) run.kept
        (spend_loop-WritesAll env tx store keeps 0 tx.vin (record { prevs = prevs; pool = [] })
          run.end coherent tt run.spent) in
    let slots =
      connected-HasSlot env tx store db keeps reads own entry changes sorted tx.vin tx.vin marks
        apart (tallied-HasSlot env tx store db keeps reads prevs tx.vin coherent c.tallied) in
    let (db', ends, frees) = disconnect_loop-WritesAll tx.vin written_db slots in
    subst (IsUndone own db) (sym (ended db' ends)) (record {
      succeeds = refl;
      gone = lookup-erase_same own db';
      as_before = λ k m other.
          ap (λ o. is_null_pos (pos_at o m)) (lookup-erase_other k own db' other)
          ∙ freed_as_before env tx store db keeps reads own entry changes sorted prevs db' k m
              coherent c.checked marks frees slots other;
    })
  where
    own : ℕ
    own = key_of (get_hash env.ssl tx)

    entry : TxIndex
    entry = record { pos = env.pos_this_tx; v_spent = replicate (length tx.vout) null_pos }

    written_db : Indexes
    written_db = write_changes (put own entry changes) db

    seen : Indexes → View
    seen = view env tx store keeps

    ended :
        (db' : Indexes)
        → disconnect_loop tx.vin written_db ≡ (true, db')
        → disconnect_inputs env.ssl tx written_db ≡ (true, erase_key own db')
    ended db' e = rw (disconnect_inputs, spending, e) refl
