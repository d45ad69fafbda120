-- ===== src/MemoryPool.antt =====
-- `CTxMemPool` of src/main.h and src/main.cpp: the transactions that wait for a block.
pub mod Entries
pub mod Distinct
pub mod Consistent
pub mod Accepted
pub mod Fees
pub mod Admitted
use build_env_jenkins.Common.{
  ℕ, zero, suc, ◌+◌, ◌-◌, ◌*◌, ◌^◌, ◌%◌, List, [], ◌∷◌, Bool, true, false, not, Option, none, some,
  from_le, lookup, put, erase_key, ltb, length, if◌then◌else◌, ◌&&◌, ◌||◌,
}
use build_env_jenkins.Common.Int.{ℤ}
use build_env_jenkins.OpenSsl.{OpenSsl}
use build_env_jenkins.Transaction.{OutPoint, TxIn, Transaction, write_transaction}
use build_env_jenkins.Transaction.Check.{
  accepted, refused, is_negative, is_coin_base, is_coin_stake, check_transaction, get_value_out,
}
use build_env_jenkins.Merkle.{get_hash}
use build_env_jenkins.Spending.{
  DiskTxPos, memory_pos, TxIndex, key_of, PrevTxs, Progress, done, rejected, aborted, min_tx_fee,
  get_min_fee,
}
use build_env_jenkins.Spending.Fetch.{Store, Mode, fetch_inputs}
use build_env_jenkins.Spending.Connect.{BlockPlace, Environment, connect_inputs}
use build_env_jenkins.Spending.Standard.{is_standard_tx, get_value_in, are_inputs_standard}

-- `CInPoint`: the transaction, which the code has a pointer to in `mapTx`, by its key there.
pub record InPoint : Type 0 where
  pub ptx : ℕ
  pub n : ℕ

-- An outpoint as a key, in the order of its `operator<`, for an index of 32 bits.
abbrev pub point_key : OutPoint → ℕ
point_key p = from_le p.hash * 2 ^ 32 + p.n

-- `mapTx`, `mapNextTx` and the global `nTransactionsUpdated`.
pub record TxMemPool : Type 0 where
  pub map_tx : List (ℕ × Transaction)
  pub map_next_tx : List (ℕ × InPoint)
  pub n_transactions_updated : ℕ

-- The loop of `addUnchecked` over the inputs, from input `n` on.
unfoldable pub enter_inputs : ℕ → ℕ → List TxIn → List (ℕ × InPoint) → List (ℕ × InPoint)
enter_inputs key n [] m = m
enter_inputs key n (i ∷ ins) m =
    enter_inputs key (suc n) ins (put (point_key i.prevout) (record { ptx = key; n = n }) m)

-- `addUnchecked`
unfoldable pub add_unchecked : ℕ → Transaction → TxMemPool → TxMemPool
add_unchecked key tx pool = record {
  map_tx = put key tx pool.map_tx;
  map_next_tx = enter_inputs key 0 tx.vin pool.map_next_tx;
  n_transactions_updated = pool.n_transactions_updated + 1;
}

-- The loop of `remove` over the inputs.
unfoldable pub erase_inputs : List TxIn → List (ℕ × InPoint) → List (ℕ × InPoint)
erase_inputs [] m = m
erase_inputs (i ∷ ins) m = erase_inputs ins (erase_key (point_key i.prevout) m)

-- `remove`
unfoldable pub remove : OpenSsl → Transaction → TxMemPool → TxMemPool
remove ssl tx pool = elim (lookup (key_of (get_hash ssl tx)) pool.map_tx) [
  | none ↦ pool
  | some other ↦ record {
    map_tx = erase_key (key_of (get_hash ssl tx)) pool.map_tx;
    map_next_tx = erase_inputs tx.vin pool.map_next_tx;
    n_transactions_updated = pool.n_transactions_updated + 1;
  }
]

-- `clear`
abbrev pub clear : TxMemPool → TxMemPool
clear pool = record {
  map_tx = [];
  map_next_tx = [];
  n_transactions_updated = pool.n_transactions_updated + 1;
}

abbrev pub is_known : ℕ → TxMemPool → Bool
is_known key pool = elim (lookup key pool.map_tx) [ none ↦ false | some tx ↦ true ]

-- "Check for conflicts with in-memory transactions": no replacement, so that any input counts.
unfoldable pub conflicts : List TxIn → List (ℕ × InPoint) → Bool
conflicts [] m = false
conflicts (i ∷ ins) m =
    let rest = conflicts ins m in
    elim (lookup (point_key i.prevout) m) [ none ↦ rest | some point ↦ true ]

-- What `accept` reads of the node: `fTestNet`, the database and the disk, the best block, and
-- what the rate limiter makes of a transaction without a fee.
pub record Node : Type 0 where
  pub test_net : Bool
  pub contains_tx : ℕ → Bool
  pub read_tx_index : ℕ → Option TxIndex
  pub read_from_disk : DiskTxPos → Option Transaction
  pub blocks : List BlockPlace
  pub coinbase_maturity : ℕ
  pub best_height : ℕ
  pub total_blocks_estimate : ℕ
  pub coin_age : Transaction → Option ℕ
  pub stake_reward : ℕ → ℤ
  pub allows_free : Transaction → Bool

-- The modes of `FetchInputs` and `ConnectInputs`.
abbrev pub loose : Mode
loose = record { block = false; miner = false }

-- What `FetchInputs` reads, the pool among it.
abbrev pub store_of : Node → TxMemPool → Store
store_of node pool = record {
  read_tx_index = node.read_tx_index;
  read_from_disk = node.read_from_disk;
  memory_pool = λ key. lookup key pool.map_tx;
}

-- The arguments of `ConnectInputs`.
abbrev pub environment_of : OpenSsl → Node → Transaction → Environment
environment_of ssl node tx = record {
  ssl = ssl;
  mode = loose;
  pos_this_tx = memory_pos;
  blocks = node.blocks;
  strict_p2sh = true;
  coinbase_maturity = node.coinbase_maturity;
  best_height = node.best_height;
  total_blocks_estimate = node.total_blocks_estimate;
  coin_age = node.coin_age tx;
  stake_reward = node.stake_reward;
}

-- `nFees`, an `int64`.
unfoldable pub sub64 : ℕ → ℕ → ℕ
sub64 a b = (a + (2 ^ 64 - b)) % 2 ^ 64

abbrev pub less_fee : ℕ → ℕ → Bool
less_fee fees least = is_negative fees || ltb fees least

-- The fee that is asked for, with the size of the transaction.
abbrev pub relay_fee : Transaction → ℕ
relay_fee tx = get_min_fee tx 1000 (length (write_transaction tx))

-- `GetValueIn` less `GetValueOut`; `none` is an exception of one of them.
unfoldable pub fees_of : Transaction → PrevTxs → Option ℕ
fees_of tx prevs = elim (get_value_in tx prevs) [
  | none ↦ none
  | some value_in ↦ elim (get_value_out tx) [
    | none ↦ none
    | some value_out ↦ some (sub64 value_in value_out)
  ]
]

-- The fee that is asked for, and the rate limiter.
unfoldable pub check_rate : Node → Transaction → ℕ → Progress Unit
check_rate node tx fees =
    if less_fee fees (relay_fee tx)
    then rejected 0
    else if less_fee fees min_tx_fee && not (node.allows_free tx)
    then rejected 0
    else done tt

-- From `AreInputsStandard` to the rate limiter.
unfoldable pub check_fees : OpenSsl → Node → Transaction → PrevTxs → Progress Unit
check_fees ssl node tx prevs = elim (are_inputs_standard ssl tx prevs) [
  | none ↦ aborted
  | some standard ↦
      if not standard && not node.test_net
      then rejected 0
      else elim (fees_of tx prevs) [ none ↦ aborted | some fees ↦ check_rate node tx fees ]
]

-- What `accept` does where `fCheckInputs` is set.
unfoldable pub admit_inputs : OpenSsl → Node → Transaction → TxMemPool → Progress Unit
admit_inputs ssl node tx pool = elim (fetch_inputs (store_of node pool) loose [] tx) [
  | rejected dos ↦ rejected dos
  | aborted ↦ aborted
  | done prevs ↦ elim (check_fees ssl node tx prevs) [
    | rejected dos ↦ rejected dos
    | aborted ↦ aborted
    | done u ↦ (connect_inputs (environment_of ssl node tx) tx prevs []).0
  ]
]

-- The conditions of `accept`, in their order.
unfoldable pub may_enter : OpenSsl → Node → Bool → Transaction → TxMemPool → Progress Unit
may_enter ssl node check_inputs tx pool =
    let key = key_of (get_hash ssl tx) in
    elim (check_transaction tx) [
      | refused dos ↦ rejected dos
      | accepted ↦
          if is_coin_base tx
          then rejected 100
          else if is_coin_stake tx
          then rejected 100
          else if ltb (2 ^ 31 - 1) tx.n_lock_time
          then rejected 0
          else if not node.test_net && not (is_standard_tx tx)
          then rejected 0
          else if is_known key pool
          then rejected 0
          else if check_inputs && node.contains_tx key
          then rejected 0
          else if conflicts tx.vin pool.map_next_tx
          then rejected 0
          else if check_inputs
          then admit_inputs ssl node tx pool
          else done tt
    ]

-- `accept`. `ptxOld` is never set, since a conflict ends the function.
unfoldable pub accept : OpenSsl → Node → Bool → Transaction → TxMemPool → Progress Unit × TxMemPool
accept ssl node check_inputs tx pool = elim (may_enter ssl node check_inputs tx pool) [
  | rejected dos ↦ (rejected dos, pool)
  | aborted ↦ (aborted, pool)
  | done u ↦ (done tt, add_unchecked (key_of (get_hash ssl tx)) tx pool)
]
