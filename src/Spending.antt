-- ===== src/Spending.antt =====
-- How a transaction takes over the outputs of others: the calls of src/main.cpp that read them.
pub mod Fetch
pub mod Connect
pub mod Tally
pub mod Checked
pub mod Marks
pub mod Run
pub mod Fee
pub mod Sound
pub mod Coherent
pub mod DoubleSpend
pub mod Standard
pub mod Disconnect
use build_env_jenkins.Common.{
  ℕ, ◌+◌, ◌-◌, ◌*◌, ◌/◌, ◌%◌, ◌^◌, Bytes, List, [], ◌∷◌, Bool, true, false, not, Option, none, some,
  length, from_le, get_or, lookup, ltb, leb, ◌==◌, if◌then◌else◌, ◌&&◌, ◌||◌, bytes_eq,
}
use build_env_jenkins.OpenSsl.{OpenSsl}
use build_env_jenkins.Transaction.{OutPoint, TxIn, TxOut, Transaction, null_out}
use build_env_jenkins.Transaction.Check.{
  cent, is_negative, is_coin_base, money_range, max_money, max_block_size,
}
use build_env_jenkins.Merkle.{get_hash}
use build_env_jenkins.Script.Machine.{Context}
use build_env_jenkins.Script.Verify.{verify_script}

-- `CDiskTxPos`
pub record DiskTxPos : Type 0 where
  pub n_file : ℕ
  pub n_block_pos : ℕ
  pub n_tx_pos : ℕ

-- `SetNull`, with the file -1.
abbrev pub null_pos : DiskTxPos
null_pos = record { n_file = 2 ^ 32 - 1; n_block_pos = 0; n_tx_pos = 0 }

abbrev pub is_null_pos : DiskTxPos → Bool
is_null_pos p = p.n_file == 2 ^ 32 - 1

abbrev pub pos_eq : DiskTxPos → DiskTxPos → Bool
pos_eq p q = p.n_file == q.n_file && (p.n_block_pos == q.n_block_pos && p.n_tx_pos == q.n_tx_pos)

-- The position of a transaction that stands in memory only.
abbrev pub memory_pos : DiskTxPos
memory_pos = record { n_file = 1; n_block_pos = 1; n_tx_pos = 1 }

-- `CTxIndex`
pub record TxIndex : Type 0 where
  pub pos : DiskTxPos
  pub v_spent : List DiskTxPos

-- A `uint256` as a key, which a map keeps in the order of the number that it is.
abbrev pub key_of : Bytes → ℕ
key_of hash = from_le hash

-- `MapPrevTx`, and a map from hashes to indexes.
abbrev pub PrevTxs : Type 0
PrevTxs = List (ℕ × (TxIndex × Transaction))

abbrev pub Indexes : Type 0
Indexes = List (ℕ × TxIndex)

-- What a function of these does: it ends with a result, it returns false with what it adds to
-- `nDoS`, or an assertion fails or an exception is thrown.
pub data Progress (A : Type 0) : Type 0 where
  done : A → Progress A
  rejected : ℕ → Progress A
  aborted : Progress A

-- The output that an outpoint names; the null output where it is out of range.
abbrev pub output_at : Transaction → ℕ → TxOut
output_at tx n = get_or tx.vout n null_out

-- `VerifySignature`; `none` as in `VerifyScript`.
unfoldable pub verify_signature :
    OpenSsl → Transaction → Transaction → ℕ → TxIn → Bool → Option Bool
verify_signature ssl tx_from tx_to n_in i validate_p2sh =
    if leb (length tx_from.vout) i.prevout.n
    then some false
    else if not (bytes_eq i.prevout.hash (get_hash ssl tx_from))
    then some false
    else verify_script (record { ssl = ssl; tx = tx_to; n_in = n_in; hash_type = 0 }) i.script_sig
        (output_at tx_from i.prevout.n).script_pub_key validate_p2sh

abbrev pub min_tx_fee : ℕ
min_tx_fee = 10000

-- The loop over the outputs that raises a fee below the base fee.
unfoldable pub dust_fee : List TxOut → ℕ → ℕ
dust_fee [] fee = fee
dust_fee (o ∷ outs) fee =
    dust_fee outs (if is_negative o.n_value || ltb o.n_value cent then min_tx_fee else fee)

-- `GetMinFee`. `GMF_BLOCK` and `GMF_RELAY` have the same base fee, and `fAllowFree` is not read.
unfoldable pub get_min_fee : Transaction → ℕ → ℕ → ℕ
get_min_fee tx block_size bytes =
    let new_size = (block_size + bytes) % 2 ^ 32 in
    let base = (1 + bytes / 1000) * min_tx_fee in
    let fee = if ltb base min_tx_fee then dust_fee tx.vout base else base in
    let limit = max_block_size / 2 in
    let raised = fee * (limit / (limit - new_size)) in
    if not (block_size == 1) && leb (limit / 2) new_size
    then (if leb limit new_size
        then max_money
        else if money_range raised
        then raised
        else max_money)
    else if money_range fee
    then fee
    else max_money
