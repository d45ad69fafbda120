-- ===== src/Spending/Disconnect/Freed.antt =====
-- What the loops of `DisconnectInputs` and of the written changes leave in a database.
use build_env_jenkins.Common.{
  ℕ, ◌≡◌, ◌∙◌, refl, sym, subst, List, [], ◌∷◌, true, Option, none, some, length, lookup, put,
  IsSorted, lookup-below, lookup-put_same, lookup-put_other, lt→leb, ◌==◌, ==_iff, Bool-cases, inl,
  inr, All,
}
use build_env_jenkins.Transaction.{TxIn}
use build_env_jenkins.Spending.{null_pos, TxIndex, key_of, Indexes}
use build_env_jenkins.Spending.Disconnect.{disconnect_loop, write_changes}
use build_env_jenkins.Spending.Disconnect.Slots.{HasSlot, Writes, WritesAll, written, All-HasSlot}

abbrev pub overlaid : Option TxIndex → Option TxIndex → Option TxIndex
overlaid below none = below
overlaid below (some x) = some x

-- What is written counts before what was there.
pub lookup-write_changes :
    (k : ℕ) (changes db : Indexes)
    → IsSorted changes
    → lookup k (write_changes changes db) ≡ overlaid (lookup k db) (lookup k changes)
unfolding write_changes
lookup-write_changes k [] db h = refl
lookup-write_changes k ((j, x) ∷ m) db h =
    lookup-write_changes k m (put j x db) h.1 ∙ elim (Bool-cases (k == j)) [
      | inl same ↦
          let named : k ≡ j = (==_iff k j).0 same in
          let absent : lookup k m ≡ none =
            subst (λ n. lookup n m ≡ none) (sym named) (lookup-below j m h.0) in
          let stored : lookup k (put j x db) ≡ some x =
            subst (λ n. lookup n (put j x db) ≡ some x) (sym named) (lookup-put_same j x db) in
          rw (same, absent) stored
      | inr other ↦ rw (other, lookup-put_other k j x db other) refl
    ]

-- The loop ends with success where the outputs are there, and frees them.
pub disconnect_loop-WritesAll :
    (ins : List TxIn) (db : Indexes)
    → All (λ i. HasSlot (λ k. lookup k db) (key_of i.prevout.hash) i.prevout.n) ins
    → (db' : Indexes) × (disconnect_loop ins db ≡ (true, db'))
      × WritesAll (λ k. lookup k db) (λ k. lookup k db') null_pos ins
unfolding disconnect_loop
disconnect_loop-WritesAll [] db h = (db, refl, λ k. refl)
disconnect_loop-WritesAll (i ∷ ins) db h =
    let (index, known, room) = h.0 in
    let freed : TxIndex = written index i.prevout.n null_pos in
    let first : Writes (λ k. lookup k db) (λ k. lookup k (put (key_of i.prevout.hash) freed db))
        (key_of i.prevout.hash) i.prevout.n null_pos =
      record {
        index = index;
        before = known;
        after = lookup-put_same (key_of i.prevout.hash) freed db;
        others = λ k other. lookup-put_other k (key_of i.prevout.hash) freed db other;
      } in
    let (db', ends, writes) =
      disconnect_loop-WritesAll ins (put (key_of i.prevout.hash) freed db)
        (All-HasSlot first ins h.1) in
    (
      db',
      rw (disconnect_loop, known, lt→leb (length index.v_spent) i.prevout.n room) ends,
      (λ k. lookup k (put (key_of i.prevout.hash) freed db), first, writes),
    )
