-- ===== src/Transaction/Check.antt =====
-- The checks of a transaction that depend on no context: `CTransaction::CheckTransaction` of
-- src/main.cpp, and the functions of src/main.h that it calls.
pub mod Laws
pub mod Valid
use build_env_jenkins.Common.{
  ℕ, ◌+◌, ◌-◌, ◌*◌, ◌%◌, ◌^◌, Bytes, List, [], ◌∷◌, Bool, true, false, not, ◌&&◌, ◌||◌, Option,
  none, some, length, replicate, bytes_eq, ltb, leb, ◌==◌, if◌then◌else◌,
}
use build_env_jenkins.Transaction.{OutPoint, TxIn, TxOut, Transaction, write_transaction}

abbrev pub coin : ℕ
coin = 1_000_000

abbrev pub cent : ℕ
cent = 10_000

abbrev pub max_money : ℕ
max_money = 30_000_000_000 * coin

abbrev pub min_txout_amount : ℕ
min_txout_amount = 10_000

abbrev pub max_block_size : ℕ
max_block_size = 1_000_000

-- The sign of an `int64`, and its sum.
unfoldable pub is_negative : ℕ → Bool
is_negative v = leb (2 ^ 63) v

unfoldable pub add64 : ℕ → ℕ → ℕ
add64 a b = (a + b) % 2 ^ 64

-- `MoneyRange`
unfoldable pub money_range : ℕ → Bool
money_range v = not (is_negative v) && leb v max_money

-- `COutPoint::IsNull`
unfoldable pub is_null : OutPoint → Bool
is_null p = bytes_eq p.hash (replicate 32 0) && p.n == 2 ^ 32 - 1

-- `operator==` of outpoints
unfoldable pub point_eq : OutPoint → OutPoint → Bool
point_eq p q = bytes_eq p.hash q.hash && p.n == q.n

-- `CTxOut::IsEmpty`
unfoldable pub is_empty : TxOut → Bool
is_empty o = o.n_value == 0 && length o.script_pub_key == 0

-- `IsCoinBase`
unfoldable pub is_coin_base : Transaction → Bool
is_coin_base tx = elim tx.vin [
  | [] ↦ false
  | i ∷ ins ↦ length ins == 0 && (is_null i.prevout && leb 1 (length tx.vout))
]

-- `IsCoinStake`
unfoldable pub is_coin_stake : Transaction → Bool
is_coin_stake tx = elim tx.vin [
  | [] ↦ false
  | i ∷ ins ↦
      not (is_null i.prevout)
      && elim tx.vout [ [] ↦ false | o ∷ outs ↦ leb 1 (length outs) && is_empty o ]
]

-- `true`, or `false` with what is added to `nDoS`.
pub data Answer : Type 0 where
  accepted : Answer
  refused : ℕ → Answer

-- The loop over the outputs, with `nValueOut`; `special` tells a coin base or coin stake.
unfoldable pub check_outputs : Bool → ℕ → List TxOut → Answer
check_outputs special n_value_out [] = accepted
check_outputs special n_value_out (o ∷ outs) =
    let more = check_outputs special (add64 n_value_out o.n_value) outs in
    if is_empty o && not special
    then refused 100
    else if not (is_empty o) && (is_negative o.n_value || ltb o.n_value min_txout_amount)
    then refused 100
    else if not (is_negative o.n_value) && ltb max_money o.n_value
    then refused 100
    else if money_range (add64 n_value_out o.n_value)
    then more
    else refused 100

unfoldable pub contains_point : OutPoint → List OutPoint → Bool
contains_point p [] = false
contains_point p (q ∷ seen) = point_eq p q || contains_point p seen

-- The loop over the inputs, with `vInOutPoints`.
unfoldable pub check_duplicates : List OutPoint → List TxIn → Answer
check_duplicates seen [] = accepted
check_duplicates seen (i ∷ ins) =
    let more = check_duplicates (i.prevout ∷ seen) ins in
    if contains_point i.prevout seen then refused 0 else more

unfoldable pub check_prevouts : List TxIn → Answer
check_prevouts [] = accepted
check_prevouts (i ∷ ins) =
    let more = check_prevouts ins in if is_null i.prevout then refused 10 else more

unfoldable pub check_script_size : List TxIn → Answer
check_script_size [] = accepted
check_script_size (i ∷ ins) =
    if ltb (length i.script_sig) 2 || ltb 100 (length i.script_sig) then refused 100 else accepted

-- One check, then the rest.
abbrev pub and_then : Answer → Answer → Answer
and_then accepted next = next
and_then (refused dos) next = refused dos

unfoldable pub check_transaction : Transaction → Answer
check_transaction tx =
    if length tx.vin == 0
    then refused 10
    else if length tx.vout == 0
    then refused 10
    else if ltb max_block_size (length (write_transaction tx))
    then refused 100
    else and_then (check_outputs (is_coin_base tx || is_coin_stake tx) 0 tx.vout) (
        and_then (check_duplicates [] tx.vin)
          (if is_coin_base tx then check_script_size tx.vin else check_prevouts tx.vin))

-- `GetValueOut`; `none` is the exception.
unfoldable pub value_loop : ℕ → List TxOut → Option ℕ
value_loop n_value_out [] = some n_value_out
value_loop n_value_out (o ∷ outs) =
    let more = value_loop (add64 n_value_out o.n_value) outs in
    if not (money_range o.n_value) || not (money_range (add64 n_value_out o.n_value))
    then none
    else more

unfoldable pub get_value_out : Transaction → Option ℕ
get_value_out tx = value_loop 0 tx.vout
