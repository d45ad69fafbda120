-- ===== src/Spending/Connect.antt =====
-- `CTransaction::ConnectInputs` of src/main.cpp. What `GetCoinAge` and `GetProofOfStakeReward` give,
-- and the height and the checkpoints of the node, are fields of its environment.
use build_env_jenkins.Common.{
  ℕ, suc, ◌-◌, List, [], ◌∷◌, Bool, true, false, not, Option, none, some, length, get_or, set,
  lookup, put, ltb, leb, ◌==◌, if◌then◌else◌, ◌&&◌, ◌||◌,
}
use build_env_jenkins.Common.Int.{ℤ, pos, sub_ℕ, ◌+ℤ◌, ◌-ℤ◌, ltb_ℤ}
use build_env_jenkins.OpenSsl.{OpenSsl}
use build_env_jenkins.Transaction.{TxIn, Transaction}
use build_env_jenkins.Transaction.Check.{
  is_coin_base, is_coin_stake, money_range, add64, get_value_out,
}
use build_env_jenkins.Spending.{
  DiskTxPos, null_pos, is_null_pos, TxIndex, key_of, PrevTxs, Indexes, Progress, done, rejected,
  aborted, output_at, verify_signature, min_tx_fee, get_min_fee,
}
use build_env_jenkins.Spending.Fetch.{Mode, keeps_changes}

-- What is read of a `CBlockIndex`; the blocks before it are the rest of a list.
pub record BlockPlace : Type 0 where
  pub n_height : ℕ
  pub n_file : ℕ
  pub n_block_pos : ℕ

-- The arguments of `ConnectInputs`, and what it reads of the node.
pub record Environment : Type 0 where
  pub ssl : OpenSsl
  pub mode : Mode
  pub pos_this_tx : DiskTxPos
  pub blocks : List BlockPlace
  pub strict_p2sh : Bool
  pub coinbase_maturity : ℕ
  pub best_height : ℕ
  pub total_blocks_estimate : ℕ
  pub coin_age : Option ℕ
  pub stake_reward : ℕ → ℤ

-- The loop over the blocks that a coin base or a coin stake must lie behind.
unfoldable pub is_immature : ℕ → ℕ → DiskTxPos → List BlockPlace → Bool
is_immature maturity height p [] = false
is_immature maturity height p (b ∷ blocks) =
    let rest = is_immature maturity height p blocks in
    if ltb (height - b.n_height) maturity
    then (if b.n_block_pos == p.n_block_pos && b.n_file == p.n_file then true else rest)
    else false

abbrev pub height_of : List BlockPlace → ℕ
height_of [] = 0
height_of (b ∷ blocks) = b.n_height

-- The body of the first loop, with `nValueIn`.
unfoldable pub tally_input :
    Environment → Transaction → TxIn → ℕ → TxIndex × Transaction → Progress ℕ
tally_input env tx i value_in (index, prev) =
    let value = (output_at prev i.prevout.n).n_value in
    if leb (length prev.vout) i.prevout.n || leb (length index.v_spent) i.prevout.n
    then rejected 100
    else if (is_coin_base prev || is_coin_stake prev)
        && is_immature env.coinbase_maturity (height_of env.blocks) index.pos env.blocks
    then rejected 0
    else if ltb tx.n_time prev.n_time
    then rejected 100
    else if not (money_range value) || not (money_range (add64 value_in value))
    then rejected 100
    else done (add64 value_in value)

unfoldable pub tally_loop : Environment → Transaction → PrevTxs → List TxIn → ℕ → Progress ℕ
tally_loop env tx prevs [] value_in = done value_in
tally_loop env tx prevs (i ∷ ins) value_in = elim (lookup (key_of i.prevout.hash) prevs) [
  | none ↦ aborted
  | some prev ↦ elim (tally_input env tx i value_in prev) [
    | done value ↦ tally_loop env tx prevs ins value
    | rejected dos ↦ rejected dos
    | aborted ↦ aborted
  ]
]

-- Whether signatures are passed over, before the last checkpoint.
abbrev pub skips_signatures : Environment → Bool
skips_signatures env = env.mode.block && ltb env.best_height env.total_blocks_estimate

-- The check of a signature, and what its failure means.
unfoldable pub check_signature : Environment → Transaction → ℕ → TxIn → Transaction → Progress Unit
check_signature env tx n_in i prev =
    elim (verify_signature env.ssl prev tx n_in i env.strict_p2sh) [
      | none ↦ aborted
      | some true ↦ done tt
      | some false ↦
          if env.strict_p2sh
          then elim (verify_signature env.ssl prev tx n_in i false) [
            | none ↦ aborted
            | some true ↦ rejected 0
            | some false ↦ rejected 100
          ]
          else rejected 100
    ]

-- The inputs and `mapTestPool`, which the second loop changes.
pub record Spent : Type 0 where
  pub prevs : PrevTxs
  pub pool : Indexes

-- "Mark outpoints as spent" and "Write back".
abbrev pub mark_spent : Environment → TxIn → TxIndex × Transaction → Spent → Spent
mark_spent env i (index, prev) s =
    let key = key_of i.prevout.hash in
    let marked = record index { v_spent = set index.v_spent i.prevout.n env.pos_this_tx } in
    record {
      prevs = put key (marked, prev) s.prevs;
      pool = if keeps_changes env.mode then put key marked s.pool else s.pool;
    }

-- The body of the second loop, up to the marks.
unfoldable pub check_input :
    Environment → Transaction → ℕ → TxIn → TxIndex × Transaction → Progress Unit
check_input env tx n_in i (index, prev) =
    if not (is_null_pos (get_or index.v_spent i.prevout.n null_pos))
    then rejected 0
    else if skips_signatures env
    then done tt
    else check_signature env tx n_in i prev

-- The second loop, from input `n_in` on, with what it leaves.
unfoldable pub spend_loop :
    Environment → Transaction → ℕ → List TxIn → Spent → Progress Unit × Spent
spend_loop env tx n_in [] s = (done tt, s)
spend_loop env tx n_in (i ∷ ins) s = elim (lookup (key_of i.prevout.hash) s.prevs) [
  | none ↦ (aborted, s)
  | some prev ↦ elim (check_input env tx n_in i prev) [
    | done u ↦ spend_loop env tx (suc n_in) ins (mark_spent env i prev s)
    | rejected dos ↦ (rejected dos, s)
    | aborted ↦ (aborted, s)
  ]
]

-- The end: what a coin stake may earn, and what another transaction must pay.
unfoldable pub check_value : Environment → Transaction → ℕ → Progress Unit
check_value env tx value_in = elim (get_value_out tx) [
  | none ↦ aborted
  | some value_out ↦
      if ltb value_in value_out
      then rejected 100
      else if ltb (value_in - value_out) (get_min_fee tx 1 0)
      then (if env.mode.block then rejected 100 else rejected 0)
      else if money_range (value_in - value_out)
      then done tt
      else rejected 100
]

unfoldable pub check_stake : Environment → Transaction → ℕ → Progress Unit
check_stake env tx value_in = elim env.coin_age [
  | none ↦ rejected 0
  | some age ↦ elim (get_value_out tx) [
    | none ↦ aborted
    | some value_out ↦
        if ltb_ℤ (env.stake_reward age -ℤ pos (get_min_fee tx 1 0) +ℤ pos min_tx_fee)
          (sub_ℕ value_out value_in)
        then rejected 100
        else done tt
  ]
]

-- The two loops and the end, of a transaction that is not a coin base.
unfoldable pub connect_spending :
    Environment → Transaction → PrevTxs → Indexes → Progress Unit × Indexes
connect_spending env tx prevs pool = elim (tally_loop env tx prevs tx.vin 0) [
  | rejected dos ↦ (rejected dos, pool)
  | aborted ↦ (aborted, pool)
  | done value_in ↦
      let (progress, s) = spend_loop env tx 0 tx.vin (record { prevs = prevs; pool = pool }) in
      elim progress [
        | rejected dos ↦ (rejected dos, s.pool)
        | aborted ↦ (aborted, s.pool)
        | done u ↦ (
          if is_coin_stake tx then check_stake env tx value_in else check_value env tx value_in,
          s.pool,
        )
      ]
]

-- `ConnectInputs`, with `mapTestPool` as it leaves it.
unfoldable pub connect_inputs :
    Environment → Transaction → PrevTxs → Indexes → Progress Unit × Indexes
connect_inputs env tx prevs pool =
    if is_coin_base tx then (done tt, pool) else connect_spending env tx prevs pool
