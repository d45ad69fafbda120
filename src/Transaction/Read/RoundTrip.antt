-- ===== src/Transaction/Read/RoundTrip.antt =====
-- A transaction is read back from the bytes that are written of it.
use build_env_jenkins.Common.{
  ◌<◌, ◌≤◌, ◌^◌, ◌≡◌, ◌∙◌, refl, ap, subst, Bytes, ◌++◌, some, length, to_le, All, append_assoc,
}
use build_env_jenkins.Serialize.{read_number, write_bytes, write_vector, max_size}
use build_env_jenkins.Serialize.RoundTrip.{read_number-to_le}
use build_env_jenkins.Serialize.Reader.{feed, read_flat, read_bytes}
use build_env_jenkins.Serialize.Reader.RoundTrip.{
  Reads, bind-reads, read_flat-append, read-write_bytes, read-write_vector,
}
use build_env_jenkins.Transaction.{
  OutPoint, TxIn, TxOut, Transaction, write_out_point, write_tx_in, write_tx_out, write_transaction,
}
use build_env_jenkins.Transaction.Read.{read_out_point, read_tx_in, read_tx_out, read_transaction}

-- The sizes of the fields, and vectors within the limit of what is read.
pub record PointFits (p : OutPoint) : Type 0 where
  pub hash : length p.hash ≡ 32
  pub n : p.n < 2 ^ 32

pub record InputFits (i : TxIn) : Type 0 where
  pub prevout : PointFits i.prevout
  pub script_sig : length i.script_sig ≤ max_size
  pub n_sequence : i.n_sequence < 2 ^ 32

pub record OutputFits (o : TxOut) : Type 0 where
  pub n_value : o.n_value < 2 ^ 64
  pub script_pub_key : length o.script_pub_key ≤ max_size

pub record Fits (tx : Transaction) : Type 0 where
  pub n_version : tx.n_version < 2 ^ 32
  pub n_time : tx.n_time < 2 ^ 32
  pub vin : (length tx.vin ≤ max_size) × All InputFits tx.vin
  pub vout : (length tx.vout ≤ max_size) × All OutputFits tx.vout
  pub n_lock_time : tx.n_lock_time < 2 ^ 32

read-write_out_point : Reads read_out_point write_out_point PointFits
unfolding read_out_point write_out_point
read-write_out_point p rest h =
    bind-reads (read_flat 32) _ p.hash (to_le 4 p.n) rest (
      subst
        (λ n. read_flat n (p.hash ++ (to_le 4 p.n ++ rest)) ≡ some (p.hash, to_le 4 p.n ++ rest))
        h.hash (read_flat-append p.hash (to_le 4 p.n ++ rest)))
    ∙ ap (feed _) (read_number-to_le 4 p.n rest h.n)

read-write_tx_in : Reads read_tx_in write_tx_in InputFits
unfolding read_tx_in write_tx_in
read-write_tx_in i rest h =
    bind-reads read_out_point _ (write_out_point i.prevout) _ rest
      (read-write_out_point i.prevout _ h.prevout)
    ∙ bind-reads read_bytes _ (write_bytes i.script_sig) (to_le 4 i.n_sequence) rest
        (read-write_bytes i.script_sig _ h.script_sig)
    ∙ ap (feed _) (read_number-to_le 4 i.n_sequence rest h.n_sequence)

read-write_tx_out : Reads read_tx_out write_tx_out OutputFits
unfolding read_tx_out write_tx_out
read-write_tx_out o rest h =
    bind-reads (read_number 8) _ (to_le 8 o.n_value) _ rest
      (read_number-to_le 8 o.n_value _ h.n_value)
    ∙ ap (feed _) (read-write_bytes o.script_pub_key rest h.script_pub_key)

-- A transaction whose fields have their sizes, and whose vectors are within the limit of 32 MiB, is
-- read back from the bytes that are written of it, and what follows it in the stream is left.
pub read-write_transaction :
    (tx : Transaction) (rest : Bytes)
    → Fits tx
    → read_transaction (write_transaction tx ++ rest) ≡ some (tx, rest)
unfolding read_transaction write_transaction
read-write_transaction tx rest h =
    let lock : Bytes = to_le 4 tx.n_lock_time in
    let outs : Bytes = write_vector write_tx_out tx.vout ++ lock in
    let ins : Bytes = write_vector write_tx_in tx.vin ++ outs in
    rw
      (
        read_transaction,
        write_transaction,
        append_assoc (to_le 4 tx.n_version) (to_le 4 tx.n_time ++ ins) rest,
        read_number-to_le 4 tx.n_version ((to_le 4 tx.n_time ++ ins) ++ rest) h.n_version,
        append_assoc (to_le 4 tx.n_time) ins rest,
        read_number-to_le 4 tx.n_time (ins ++ rest) h.n_time,
        append_assoc (write_vector write_tx_in tx.vin) outs rest,
        read-write_vector read_tx_in write_tx_in InputFits read-write_tx_in tx.vin (outs ++ rest)
            h.vin,
        append_assoc (write_vector write_tx_out tx.vout) lock rest,
        read-write_vector read_tx_out write_tx_out OutputFits read-write_tx_out tx.vout
            (lock ++ rest) h.vout,
        read_number-to_le 4 tx.n_lock_time rest h.n_lock_time,
      )
      refl
