-- ===== src/Tests/MemoryPoolFacts.antt =====
-- A memory pool with one transaction.
use build_env_jenkins.Common.{
  ℕ, zero, suc, All, IsByte, replicate, ◌≡◌, refl, [], ◌∷◌, true, false, some, lookup, arith,
}
use build_env_jenkins.Merkle.{get_hash}
use build_env_jenkins.Script.SigHash.{hash}
use build_env_jenkins.Spending.{rejected}
use build_env_jenkins.Spending.{key_of}
use build_env_jenkins.Serialize.{write_vector, write_compact_size, write_items, write_bytes}
use build_env_jenkins.Transaction.{
  Transaction, write_transaction, write_tx_in, write_out_point, write_tx_out,
}
use build_env_jenkins.Transaction.Check.{
  check_transaction, check_outputs, check_duplicates, check_prevouts, contains_point, point_eq,
  is_null, is_empty, is_negative, money_range, add64, is_coin_base, is_coin_stake,
}
use build_env_jenkins.MemoryPool.{
  point_key, TxMemPool, enter_inputs, add_unchecked, conflicts, may_enter, accept,
}
use build_env_jenkins.MemoryPool.Accepted.{
  IsReachable, starts, accepts, empty_pool, reachable_taken_once,
}
use build_env_jenkins.MemoryPool.Admitted.{IsAdmitted, accept-IsAdmitted}
use build_env_jenkins.MemoryPool.Distinct.{IsPoint}
use build_env_jenkins.Tests.Transfer.{node, transfer, is_accepted}
use build_env_jenkins.Tests.Toy.{toy, spend, point, input}

abbrev payment : Transaction
payment = record spend { vout = record { n_value = 50000; script_pub_key = 0x51 ∷ [] } ∷ [] }

abbrev payment_key : ℕ
payment_key = key_of (get_hash toy payment)

abbrev one_waiting : TxMemPool
one_waiting = (accept toy (node true) false payment empty_pool).1

is_entered : lookup payment_key one_waiting.map_tx ≡ some payment
unfolding accept may_enter add_unchecked conflicts check_transaction write_transaction write_vector
    write_compact_size write_items write_tx_in write_out_point write_bytes write_tx_out
    check_outputs check_duplicates check_prevouts contains_point point_eq is_null is_empty
    is_negative money_range add64 is_coin_base is_coin_stake enter_inputs get_hash hash
is_entered = refl

one_waiting-IsReachable : IsReachable toy one_waiting
one_waiting-IsReachable = accepts (node true) false payment starts (first_point, (second_point, tt))
  where
    nines : (n : ℕ) → All IsByte (replicate n 9)
    nines zero = tt
    nines (suc n) = (omega arith, nines n)

    first_point : IsPoint (point 0)
    first_point = record { size = refl; bytes = nines 32; index = omega arith }

    second_point : IsPoint (point 1)
    second_point = record { size = refl; bytes = nines 32; index = omega arith }

reachable_taken_once_example : (payment_key ≡ payment_key) × (◌≡◌ {A = ℕ} 1 1)
reachable_taken_once_example =
    reachable_taken_once toy one_waiting payment_key payment_key payment payment 1 1
      (point_key (point 1)) one_waiting-IsReachable is_entered is_entered (input 1 [], refl, refl)
      (input 1 [], refl, refl)

-- It is not taken a second time.
not_again : (accept toy (node true) false payment one_waiting).0 ≡ rejected 0
unfolding accept may_enter add_unchecked conflicts check_transaction write_transaction write_vector
    write_compact_size write_items write_tx_in write_out_point write_bytes write_tx_out
    check_outputs check_duplicates check_prevouts contains_point point_eq is_null is_empty
    is_negative money_range add64 is_coin_base is_coin_stake enter_inputs get_hash hash
not_again = refl

accept-IsAdmitted_example : IsAdmitted toy (node false) transfer empty_pool
accept-IsAdmitted_example =
    accept-IsAdmitted toy (node false) transfer empty_pool
      (add_unchecked (key_of (get_hash toy transfer)) transfer empty_pool) is_accepted
