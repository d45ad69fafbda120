-- ===== src/Tests/SpendingFacts.antt =====
-- Two transactions that take the output of a third, one of them behind the other.
use build_env_jenkins.Common.{ℕ, ◌≡◌, ◌≢◌, refl, [], ◌∷◌, true, false, none, some, lookup}
use build_env_jenkins.Common.Int.{pos}
use build_env_jenkins.Serialize.{write_vector, write_compact_size, write_items, write_bytes}
use build_env_jenkins.Merkle.{get_hash}
use build_env_jenkins.Script.SigHash.{hash}
use build_env_jenkins.Transaction.{
  TxOut, Transaction, write_transaction, write_tx_in, write_out_point, write_tx_out,
}
use build_env_jenkins.Transaction.Check.{
  is_coin_base, is_coin_stake, money_range, is_negative, is_null, add64, value_loop, get_value_out,
}
use build_env_jenkins.Spending.{
  DiskTxPos, null_pos, TxIndex, Indexes, key_of, done, rejected, get_min_fee,
}
use build_env_jenkins.Spending.Fetch.{
  Store, fetch_index, fetch_prev, fetch_loop, check_ranges, fetch_inputs,
}
use build_env_jenkins.Spending.Connect.{
  Environment, tally_input, tally_loop, check_input, spend_loop, check_value, connect_spending,
  connect_inputs,
}
use build_env_jenkins.Spending.Sound.{IsConnected, connect_inputs-IsConnected}
use build_env_jenkins.Spending.DoubleSpend.{no_double_spend}
use build_env_jenkins.Spending.Disconnect.{disconnect_inputs, queue_index, write_changes}
use build_env_jenkins.Spending.Disconnect.Undone.{IsUndone, connect_disconnect}
use build_env_jenkins.Tests.Toy.{toy, point, input}

abbrev pays : ℕ → TxOut
pays value = record { n_value = value; script_pub_key = 0x51 ∷ [] }

abbrev source : Transaction
source = record {
  n_version = 1;
  n_time = 1300000000;
  vin = [];
  vout = pays 50000 ∷ pays 70000 ∷ [];
  n_lock_time = 0;
}

-- It takes the second output of `source`.
abbrev taker : ℕ → Transaction
taker value = record {
  n_version = 1;
  n_time = 1400000000;
  vin = input 1 [] ∷ [];
  vout = pays value ∷ [];
  n_lock_time = 0;
}

abbrev at_place : ℕ → DiskTxPos
at_place n = record { n_file = 2; n_block_pos = n; n_tx_pos = 3 }

abbrev source_index : TxIndex
source_index = record { pos = at_place 4; v_spent = null_pos ∷ null_pos ∷ [] }

abbrev source_key : ℕ
source_key = key_of (point 1).hash

abbrev marked_index : TxIndex
marked_index = record { pos = at_place 4; v_spent = null_pos ∷ at_place 5 ∷ [] }

-- Blocks before the last checkpoint, where signatures are passed over.
abbrev at_node : ℕ → Environment
at_node n = record {
  ssl = toy;
  mode = record { block = true; miner = false };
  pos_this_tx = at_place n;
  blocks = [];
  strict_p2sh = true;
  coinbase_maturity = 50;
  best_height = 6;
  total_blocks_estimate = 10;
  coin_age = none;
  stake_reward = λ age. pos 0;
}

abbrev store : Store
store = record {
  read_tx_index = λ key. some source_index;
  read_from_disk = λ p. some source;
  memory_pool = λ key. none;
}

first_taken :
    connect_inputs (at_node 5) (taker 60000) ((source_key, (source_index, source)) ∷ []) []
    ≡ (done tt, (source_key, marked_index) ∷ [])
unfolding connect_inputs connect_spending tally_loop tally_input spend_loop check_input check_value
    get_value_out get_min_fee is_coin_base is_coin_stake money_range add64 is_null is_negative
    value_loop
first_taken = refl

second_fetched :
    fetch_inputs store (at_node 6).mode ((source_key, marked_index) ∷ []) (taker 40000)
    ≡ done ((source_key, (marked_index, source)) ∷ [])
unfolding fetch_inputs fetch_loop fetch_prev fetch_index check_ranges is_coin_base is_null
second_fetched = refl

connect_inputs-IsConnected_example :
    IsConnected
      (at_node 5)
      (taker 60000)
      ((source_key, (source_index, source)) ∷ [])
      ((source_key, marked_index) ∷ [])
unfolding is_coin_base is_null
connect_inputs-IsConnected_example =
    connect_inputs-IsConnected (at_node 5) (taker 60000) ((source_key, (source_index, source)) ∷ [])
      [] ((source_key, marked_index) ∷ []) refl refl first_taken

no_double_spend_example :
    connect_inputs
      (at_node 6)
      (taker 40000)
      ((source_key, (marked_index, source)) ∷ [])
      ((source_key, marked_index) ∷ [])
    ≢ (done tt, [])
unfolding is_coin_base is_null
no_double_spend_example =
    no_double_spend (at_node 5) (at_node 6) (taker 60000) (taker 40000) store
      ((source_key, (source_index, source)) ∷ []) ((source_key, (marked_index, source)) ∷ []) []
      ((source_key, marked_index) ∷ []) [] 0 0 (input 1 []) (input 1 []) refl refl refl refl refl
      refl first_taken second_fetched refl refl refl

-- The second is refused, with no score for its sender.
second_refused :
    (connect_inputs
      (at_node 6)
      (taker 40000)
      ((source_key, (marked_index, source)) ∷ [])
      ((source_key, marked_index) ∷ [])).0
    ≡ rejected 0
unfolding connect_inputs connect_spending tally_loop tally_input spend_loop check_input is_coin_base
    is_coin_stake money_range add64 is_null is_negative
second_refused = refl

-- One that leaves a fee below the least.
fee_short :
    (connect_inputs (at_node 5) (taker 60001) ((source_key, (source_index, source)) ∷ []) []).0
    ≡ rejected 100
unfolding connect_inputs connect_spending tally_loop tally_input spend_loop check_input check_value
    get_value_out get_min_fee is_coin_base is_coin_stake money_range add64 is_null is_negative
    value_loop
fee_short = refl

-- The same database as a map.
abbrev database : Indexes
database = (source_key, source_index) ∷ []

abbrev database_store : Store
database_store = record store { read_tx_index = λ key. lookup key database }

from_database :
    fetch_inputs database_store (at_node 5).mode [] (taker 60000)
    ≡ done ((source_key, (source_index, source)) ∷ [])
unfolding fetch_inputs fetch_loop fetch_prev fetch_index check_ranges is_coin_base is_null
from_database = refl

connect_disconnect_example : IsUndone (key_of (get_hash toy (taker 60000))) database (
    disconnect_inputs toy (taker 60000) (
      write_changes
        (queue_index toy (at_place 5) (taker 60000) ((source_key, marked_index) ∷ []))
        database))
unfolding is_coin_base is_null get_hash hash write_transaction write_vector write_compact_size
    write_items write_tx_in write_out_point write_bytes write_tx_out
connect_disconnect_example =
    connect_disconnect (at_node 5) (taker 60000) database_store database
      ((source_key, marked_index) ∷ []) ((source_key, (source_index, source)) ∷ []) refl refl refl
      (λ key. refl) (refl, tt) from_database first_taken
