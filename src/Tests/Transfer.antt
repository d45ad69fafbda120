-- ===== src/Tests/Transfer.antt =====
-- A transaction with a signature, and a node that takes it into its memory pool.
use build_env_jenkins.Common.{
  ℕ, Bytes, replicate, ◌≡◌, refl, [], ◌∷◌, true, false, Bool, none, some, ◌++◌,
}
use build_env_jenkins.Merkle.{get_hash}
use build_env_jenkins.Script.SigHash.{
  hash, signature_hash, hash_copy, blank_outputs, blank_inputs, place_code, put_sig, blank_sigs,
}
use build_env_jenkins.Script.Builder.{push_data}
use build_env_jenkins.Script.Ops.Crypto.{check_sig_op, check_sig_from, check}
use build_env_jenkins.Script.CheckSig.{
  check_sig, check_sig_cached, check_entry, sig_data, split_last, used_hash_type, key_verifies,
}
use build_env_jenkins.Script.SigCache.{get}
use build_env_jenkins.Script.FindAndDelete.{starts_with, find_loop, find_and_delete}
use build_env_jenkins.Script.Scan.{is_push_only, is_pay_to_script_hash}
use build_env_jenkins.Script.Walk.{run}
use build_env_jenkins.Script.GetOp.{get_op, take_data}
use build_env_jenkins.Script.Cast.{cast_to_bool}
use build_env_jenkins.Script.Switch.{switch}
use build_env_jenkins.Script.Eval.{
  limit_size, all_true, execute, count_op, eval_step, eval_end, eval_script,
}
use build_env_jenkins.Script.Verify.{verify_script, verify_pub_key, top_is_true}
use build_env_jenkins.Script.Solver.{
  is_standard, solver, scan_templates, match_ops, match_op, found_match,
}
use build_env_jenkins.Signing.Mine.{script_sig_args_expected}
use build_env_jenkins.Script.Opcode.{op_checksig}
use build_env_jenkins.Common.Int.{pos}
use build_env_jenkins.Spending.{null_pos, TxIndex, PrevTxs, get_min_fee, done, verify_signature}
use build_env_jenkins.Spending.Fetch.{
  fetch_index, fetch_prev, fetch_loop, check_ranges, fetch_inputs,
}
use build_env_jenkins.Spending.Standard.{
  inputs_push_only, outputs_standard, is_standard_tx, get_output_for, value_in_loop, get_value_in,
  args_of, nested_args, is_standard_input, standard_loop, are_inputs_standard,
}
use build_env_jenkins.Spending.{key_of}
use build_env_jenkins.Serialize.{write_vector, write_compact_size, write_items, write_bytes}
use build_env_jenkins.Transaction.{
  TxIn, TxOut, Transaction, write_transaction, write_tx_in, write_out_point, write_tx_out,
}
use build_env_jenkins.Transaction.Check.{
  value_loop, get_value_out, accepted, check_transaction, check_outputs, check_duplicates,
  check_prevouts, contains_point, point_eq, is_null, is_empty, is_negative, money_range, add64,
  is_coin_base, is_coin_stake,
}
use build_env_jenkins.MemoryPool.{
  add_unchecked, conflicts, Node, loose, store_of, sub64, fees_of, environment_of, check_fees,
  admit_inputs, check_rate, may_enter, accept,
}
use build_env_jenkins.MemoryPool.Accepted.{empty_pool}
use build_env_jenkins.Spending.Connect.{
  Environment, mark_spent, tally_input, tally_loop, check_signature, check_input, spend_loop,
  check_value, connect_spending, connect_inputs,
}
use build_env_jenkins.Tests.Toy.{toy, key, spend, input}

-- An output to a key.
abbrev to_key : ℕ → TxOut
to_key value = record { n_value = value; script_pub_key = 33 ∷ (key ++ op_checksig ∷ []) }

abbrev funding : Transaction
funding = record spend { vin = input 1 [] ∷ []; vout = to_key 100000 ∷ [] }

abbrev funding_hash : Bytes
funding_hash = 30 ∷ 3 ∷ 0 ∷ 0 ∷ 0 ∷ 238 ∷ 224 ∷ 248 ∷ 64 ∷ 185 ∷ replicate 22 186

is_funding_hash : get_hash toy funding ≡ funding_hash
unfolding get_hash hash write_transaction write_vector write_compact_size write_items write_tx_in
    write_out_point write_bytes write_tx_out
is_funding_hash = refl

-- A payment with the signature of its key.
abbrev signed_input : TxIn
signed_input = record {
  prevout = record { hash = funding_hash; n = 0 };
  script_sig = 3 ∷ 47 ∷ 4 ∷ 1 ∷ [];
  n_sequence = 7;
}

abbrev pub transfer : Transaction
transfer = record spend { vin = signed_input ∷ []; vout = to_key 60000 ∷ [] }

abbrev funding_index : TxIndex
funding_index = record {
  pos = record { n_file = 2; n_block_pos = 4; n_tx_pos = 3 };
  v_spent = null_pos ∷ [];
}

-- A node that has the transaction that is spent in its database.
abbrev pub node : Bool → Node
node test_net = record {
  test_net = test_net;
  contains_tx = λ key. false;
  read_tx_index = λ key. some funding_index;
  read_from_disk = λ p. some funding;
  blocks = [];
  coinbase_maturity = 50;
  best_height = 6;
  total_blocks_estimate = 10;
  coin_age = λ tx. none;
  stake_reward = λ age. pos 0;
  allows_free = λ tx. false;
}

abbrev found : PrevTxs
found = (key_of funding_hash, (funding_index, funding)) ∷ []

is_fetched : fetch_inputs (store_of (node false) empty_pool) loose [] transfer ≡ done found
unfolding fetch_inputs is_coin_base is_null fetch_loop fetch_prev fetch_index check_ranges
is_fetched = refl

are_standard : are_inputs_standard toy transfer found ≡ some true
unfolding are_inputs_standard is_coin_base is_null standard_loop get_output_for is_standard_input
    args_of solver is_pay_to_script_hash scan_templates match_ops match_op found_match
    script_sig_args_expected nested_args eval_script run get_op take_data eval_step count_op execute
    all_true limit_size switch eval_end
are_standard = refl

leaves_fee : fees_of transfer found ≡ some 40000
unfolding fees_of get_value_in is_coin_base is_null value_in_loop get_output_for sub64 add64
    get_value_out is_negative money_range value_loop
leaves_fee = refl

pays_fee : check_rate (node false) transfer 40000 ≡ done tt
unfolding check_rate is_negative get_min_fee money_range write_transaction write_vector
    write_compact_size write_items write_tx_in write_out_point write_bytes write_tx_out
pays_fee = refl

is_verified : verify_signature toy funding transfer 0 signed_input true ≡ some true
unfolding verify_signature get_hash hash write_transaction write_vector write_compact_size
    write_items write_tx_in write_out_point write_bytes write_tx_out verify_script verify_pub_key
    top_is_true cast_to_bool is_pay_to_script_hash eval_script run get_op take_data eval_step
    count_op execute all_true limit_size switch eval_end check_sig_op check_sig_from check check_sig
    check_sig_cached check_entry sig_data split_last used_hash_type get key_verifies signature_hash
    hash_copy blank_outputs blank_inputs place_code put_sig blank_sigs find_and_delete find_loop
    starts_with push_data
is_verified = refl

is_valid : check_transaction transfer ≡ accepted
unfolding check_transaction check_outputs is_empty is_negative money_range add64 check_duplicates
    check_prevouts contains_point is_coin_base is_coin_stake is_null point_eq write_transaction
    write_vector write_compact_size write_items write_tx_in write_out_point write_bytes write_tx_out
is_valid = refl

pays_standard : is_standard_tx transfer ≡ true
unfolding is_standard_tx inputs_push_only is_push_only run get_op take_data outputs_standard
    is_standard solver is_pay_to_script_hash scan_templates match_ops match_op found_match
pays_standard = refl

abbrev environment : Environment
environment = environment_of toy (node false) transfer

signature_checked : check_signature environment transfer 0 signed_input funding ≡ done tt
unfolding check_signature
signature_checked = rw (check_signature, is_verified) refl

input_checked : check_input environment transfer 0 signed_input (funding_index, funding) ≡ done tt
unfolding check_input
input_checked = signature_checked

is_spent : spend_loop environment transfer 0 transfer.vin (record { prevs = found; pool = [] }) ≡ (
  done tt,
  mark_spent environment signed_input
      (funding_index, funding)
      (record { prevs = found; pool = [] }),
)
unfolding spend_loop
is_spent = rw (spend_loop, input_checked) refl

is_tallied : tally_loop environment transfer found transfer.vin 0 ≡ done 100000
unfolding tally_loop tally_input is_coin_base is_coin_stake money_range add64 is_null is_negative
is_tallied = refl

pays_enough : check_value environment transfer 100000 ≡ done tt
unfolding check_value get_value_out get_min_fee money_range add64 is_negative value_loop
pays_enough = refl

are_connected : (connect_inputs environment transfer found []).0 ≡ done tt
unfolding connect_inputs connect_spending is_coin_base is_coin_stake is_null
are_connected = rw (connect_spending, is_tallied, is_spent, pays_enough) refl

fees_checked : check_fees toy (node false) transfer found ≡ done tt
unfolding check_fees
fees_checked = rw (check_fees, are_standard, leaves_fee, pays_fee) refl

inputs_admitted : admit_inputs toy (node false) transfer empty_pool ≡ done tt
unfolding admit_inputs
inputs_admitted = rw (admit_inputs, is_fetched, fees_checked, are_connected) refl

may_enter_first : may_enter toy (node false) true transfer empty_pool ≡ done tt
unfolding may_enter is_coin_base is_coin_stake is_null conflicts
may_enter_first = rw (may_enter, is_valid, pays_standard, inputs_admitted) refl

pub is_accepted :
    accept toy (node false) true transfer empty_pool
    ≡ (done tt, add_unchecked (key_of (get_hash toy transfer)) transfer empty_pool)
unfolding accept
is_accepted = rw (accept, may_enter_first) refl
