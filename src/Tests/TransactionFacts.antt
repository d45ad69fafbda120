-- ===== src/Tests/TransactionFacts.antt =====
-- The properties of the checks of a transaction at a concrete input.
use build_env_jenkins.Common.{
  ℕ, ◌<◌, ◌≤◌, ◌^◌, ◌≡◌, ◌↔◌, refl, Bytes, [], ◌∷◌, ◌++◌, map, some, length, arith,
}
use build_env_jenkins.Serialize.{
  write_bytes, write_vector, write_items, write_compact_size, max_size,
}
use build_env_jenkins.Transaction.Read.{read_transaction}
use build_env_jenkins.Transaction.Read.RoundTrip.{InputFits, Fits, read-write_transaction}
use build_env_jenkins.Transaction.{
  Transaction, write_transaction, write_tx_in, write_tx_out, write_out_point,
}
use build_env_jenkins.Transaction.Check.{
  accepted, refused, check_transaction, check_outputs, check_duplicates, check_prevouts,
  contains_point, point_eq, is_null, is_empty, is_negative, money_range, add64, is_coin_base,
  is_coin_stake,
}
use build_env_jenkins.Transaction.Check.Valid.{IsValid, check_transaction_iff}
use build_env_jenkins.Tests.Toy.{input, spend}

-- Two outputs.
abbrev payment : Transaction
payment = record spend {
  vout =
      record { n_value = 50_000; script_pub_key = 0x51 ∷ [] }
      ∷ record { n_value = 70_000; script_pub_key = [] }
      ∷ [];
}

check_transaction_iff_example : (check_transaction payment ≡ accepted) ↔ IsValid payment
check_transaction_iff_example = check_transaction_iff payment

-- The same input twice, no output, and an output below the minimum.
refusals :
    map check_transaction (
      record payment { vin = payment.vin ++ payment.vin }
      ∷ record payment { vout = [] }
      ∷ spend
      ∷ [])
    ≡ (refused 0 ∷ refused 10 ∷ refused 100 ∷ [])
unfolding check_transaction write_transaction check_outputs check_duplicates check_prevouts
    contains_point point_eq is_null is_empty is_negative money_range add64 is_coin_base
    is_coin_stake write_vector write_items write_tx_in write_tx_out write_bytes write_out_point
    write_compact_size
refusals = refl

spend-Fits : Fits spend
spend-Fits = record {
  n_version = omega arith;
  n_time = omega arith;
  vin = (
    omega arith,
    (input_fits 0 _ (omega arith) (omega arith), (input_fits 1 [] (omega arith) (omega arith), tt)),
  );
  vout = (omega arith, (record { n_value = omega arith; script_pub_key = omega arith }, tt));
  n_lock_time = omega arith;
}
  where
    input_fits :
        (n : ℕ) (script : Bytes)
        → n < 2 ^ 32
        → length script ≤ max_size
        → InputFits (input n script)
    input_fits n script h k = record {
      prevout = record { hash = refl; n = h };
      script_sig = k;
      n_sequence = omega arith;
    }

read-write_transaction_example :
    read_transaction (write_transaction spend ++ 7 ∷ []) ≡ some (spend, 7 ∷ [])
read-write_transaction_example = read-write_transaction spend (7 ∷ []) spend-Fits
