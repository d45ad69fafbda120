-- ===== src/Transaction.antt =====
-- `COutPoint`, `CTxIn`, `CTxOut` and `CTransaction` of src/main.h. A `uint256` is its 32 bytes in
-- memory; an `int` or `int64` is the number that its bits stand for.
pub mod Check
pub mod Read
use build_env_jenkins.Common.{ℕ, ◌-◌, ◌^◌, Bytes, List, [], ◌++◌, to_le}
use build_env_jenkins.Serialize.{write_bytes, write_vector}

pub record OutPoint : Type 0 where
  pub hash : Bytes
  pub n : ℕ

pub record TxIn : Type 0 where
  pub prevout : OutPoint
  pub script_sig : Bytes
  pub n_sequence : ℕ

pub record TxOut : Type 0 where
  pub n_value : ℕ
  pub script_pub_key : Bytes

pub record Transaction : Type 0 where
  pub n_version : ℕ
  pub n_time : ℕ
  pub vin : List TxIn
  pub vout : List TxOut
  pub n_lock_time : ℕ

-- `CTxOut::SetNull`: the value is -1.
abbrev pub null_out : TxOut
null_out = record { n_value = 2 ^ 64 - 1; script_pub_key = [] }

unfoldable pub write_out_point : OutPoint → Bytes
write_out_point p = p.hash ++ to_le 4 p.n

unfoldable pub write_tx_in : TxIn → Bytes
write_tx_in i = write_out_point i.prevout ++ (write_bytes i.script_sig ++ to_le 4 i.n_sequence)

unfoldable pub write_tx_out : TxOut → Bytes
write_tx_out o = to_le 8 o.n_value ++ write_bytes o.script_pub_key

unfoldable pub write_transaction : Transaction → Bytes
write_transaction tx =
    to_le 4 tx.n_version
    ++ (to_le 4 tx.n_time
        ++ (write_vector write_tx_in tx.vin
            ++ (write_vector write_tx_out tx.vout ++ to_le 4 tx.n_lock_time)))
