-- ===== src/Transaction/Read.antt =====
-- The reading of transactions, as `IMPLEMENT_SERIALIZE` of src/main.h makes it.
pub mod RoundTrip
use build_env_jenkins.Common.{ℕ}
use build_env_jenkins.Serialize.{read_number}
use build_env_jenkins.Serialize.Reader.{
  Reader, feed, ◌>>=◌, pure, read_flat, read_bytes, read_vector,
}
use build_env_jenkins.Transaction.{OutPoint, TxIn, TxOut, Transaction}

-- `FLATDATA` of an outpoint: the 32 bytes of the hash and the 4 of the index.
unfoldable pub read_out_point : Reader OutPoint
read_out_point = do hash ← read_flat 32; n ← read_number 4; pure (record { hash = hash; n = n })

unfoldable pub read_tx_in : Reader TxIn
read_tx_in = do
  prevout ← read_out_point
  script_sig ← read_bytes
  n_sequence ← read_number 4
  pure (record { prevout = prevout; script_sig = script_sig; n_sequence = n_sequence })

unfoldable pub read_tx_out : Reader TxOut
read_tx_out = do
  n_value ← read_number 8
  script_pub_key ← read_bytes
  pure (record { n_value = n_value; script_pub_key = script_pub_key })

unfoldable pub read_transaction : Reader Transaction
read_transaction = do
  n_version ← read_number 4
  n_time ← read_number 4
  vin ← read_vector read_tx_in
  vout ← read_vector read_tx_out
  n_lock_time ← read_number 4
  pure (record {
    n_version = n_version;
    n_time = n_time;
    vin = vin;
    vout = vout;
    n_lock_time = n_lock_time;
  })
