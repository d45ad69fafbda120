-- ===== src/Spending/Disconnect.antt =====
-- `CTransaction::DisconnectInputs` of src/main.cpp, and how `CBlock::ConnectBlock` writes what
-- `ConnectInputs` has queued. The database is its map of indexes, and its writes succeed.
pub mod Slots
pub mod Marking
pub mod Freed
pub mod Undone
use build_env_jenkins.Common.{
  ℕ, List, [], ◌∷◌, Bool, true, false, Option, none, some, length, replicate, set, lookup, put,
  erase_key, leb, if◌then◌else◌,
}
use build_env_jenkins.OpenSsl.{OpenSsl}
use build_env_jenkins.Transaction.{TxIn, Transaction}
use build_env_jenkins.Transaction.Check.{is_coin_base}
use build_env_jenkins.Merkle.{get_hash}
use build_env_jenkins.Spending.{DiskTxPos, null_pos, TxIndex, key_of, Indexes}

-- The loop over the inputs, with the database as it leaves it.
unfoldable pub disconnect_loop : List TxIn → Indexes → Bool × Indexes
disconnect_loop [] db = (true, db)
disconnect_loop (i ∷ ins) db =
    let key = key_of i.prevout.hash in
    elim (lookup key db) [
      | none ↦ (false, db)
      | some index ↦
          let freed = record index { v_spent = set index.v_spent i.prevout.n null_pos } in
          let rest = disconnect_loop ins (put key freed db) in
          if leb (length index.v_spent) i.prevout.n then (false, db) else rest
    ]

-- "Remove transaction from index"
abbrev pub erase_tx_index : OpenSsl → Transaction → Bool × Indexes → Bool × Indexes
erase_tx_index ssl tx (true, db) = (true, erase_key (key_of (get_hash ssl tx)) db)
erase_tx_index ssl tx (false, db) = (false, db)

-- `DisconnectInputs`
unfoldable pub disconnect_inputs : OpenSsl → Transaction → Indexes → Bool × Indexes
disconnect_inputs ssl tx db =
    erase_tx_index ssl tx (if is_coin_base tx then (true, db) else disconnect_loop tx.vin db)

-- The entry of a transaction that is connected, in `mapQueuedChanges`.
abbrev pub queue_index : OpenSsl → DiskTxPos → Transaction → Indexes → Indexes
queue_index ssl pos tx changes =
    put (key_of (get_hash ssl tx))
      (record { pos = pos; v_spent = replicate (length tx.vout) null_pos }) changes

-- "Write queued txindex changes"
unfoldable pub write_changes : Indexes → Indexes → Indexes
write_changes [] db = db
write_changes ((key, index) ∷ changes) db = write_changes changes (put key index db)
