-- ===== src/Spending/Fetch.antt =====
-- `CTransaction::FetchInputs` of src/main.cpp.
use build_env_jenkins.Common.{
  ℕ, List, [], ◌∷◌, Bool, Option, none, some, length, replicate, lookup, put, leb, if◌then◌else◌,
  ◌||◌,
}
use build_env_jenkins.Transaction.{TxIn, Transaction}
use build_env_jenkins.Transaction.Check.{is_coin_base}
use build_env_jenkins.Spending.{
  DiskTxPos, null_pos, pos_eq, memory_pos, TxIndex, key_of, PrevTxs, Indexes, Progress, done,
  rejected, aborted,
}

-- What is read from the database, from the disk and from the memory pool.
pub record Store : Type 0 where
  pub read_tx_index : ℕ → Option TxIndex
  pub read_from_disk : DiskTxPos → Option Transaction
  pub memory_pool : ℕ → Option Transaction

-- `fBlock` and `fMiner`.
pub record Mode : Type 0 where
  pub block : Bool
  pub miner : Bool

abbrev pub keeps_changes : Mode → Bool
keeps_changes m = m.block || m.miner

-- The index of a previous transaction, from the proposed changes first.
unfoldable pub fetch_index : Store → Mode → Indexes → ℕ → Option TxIndex
fetch_index store mode pool key =
    if keeps_changes mode
    then elim (lookup key pool) [ none ↦ store.read_tx_index key | some index ↦ some index ]
    else store.read_tx_index key

-- The previous transaction, with its index.
unfoldable pub fetch_prev : Store → Mode → ℕ → Option TxIndex → Option (TxIndex × Transaction)
fetch_prev store mode key none = if keeps_changes mode then none else elim (store.memory_pool key) [
  | none ↦ none
  | some tx ↦ some (record { pos = null_pos; v_spent = replicate (length tx.vout) null_pos }, tx)
]
fetch_prev store mode key (some index) =
    elim (if pos_eq index.pos memory_pos
      then store.memory_pool key
      else store.read_from_disk index.pos) [ none ↦ none | some tx ↦ some (index, tx) ]

-- The first loop.
unfoldable pub fetch_loop : Store → Mode → Indexes → List TxIn → PrevTxs → Option PrevTxs
fetch_loop store mode pool [] prevs = some prevs
fetch_loop store mode pool (i ∷ ins) prevs =
    let key = key_of i.prevout.hash in
    elim (lookup key prevs) [
      | some prev ↦ fetch_loop store mode pool ins prevs
      | none ↦ elim (fetch_prev store mode key (fetch_index store mode pool key)) [
        | none ↦ none
        | some prev ↦ fetch_loop store mode pool ins (put key prev prevs)
      ]
    ]

-- The second loop, with `fInvalid` where it returns false.
unfoldable pub check_ranges : List TxIn → PrevTxs → Progress PrevTxs
check_ranges [] prevs = done prevs
check_ranges (i ∷ ins) prevs =
    let rest = check_ranges ins prevs in
    elim (lookup (key_of i.prevout.hash) prevs) [
      | none ↦ aborted
      | some (index, prev) ↦
          if leb (length prev.vout) i.prevout.n || leb (length index.v_spent) i.prevout.n
          then rejected 100
          else rest
    ]

-- `FetchInputs`, into an empty map.
unfoldable pub fetch_inputs : Store → Mode → Indexes → Transaction → Progress PrevTxs
fetch_inputs store mode pool tx =
    if is_coin_base tx then done [] else elim (fetch_loop store mode pool tx.vin []) [
      | none ↦ rejected 0
      | some prevs ↦ check_ranges tx.vin prevs
    ]
