-- ===== src/Transaction/Check/Valid.antt =====
-- `CheckTransaction` against a description of the transactions that are valid by themselves.
use build_env_jenkins.Common.{
  ℕ, ◌+◌, ◌≤◌, ◌≡◌, ◌↔◌, ◌⊎◌, inl, inr, refl, ap, ◌∙◌, List, [], ◌∷◌, Bool, true, false, ◌||◌, some,
  length, ltb, ◌==◌, if◌then◌else◌, All, arith, tests, Bool-cases, le→ltb,
}
use build_env_jenkins.Transaction.{TxIn, TxOut, Transaction, write_transaction}
use build_env_jenkins.Transaction.Check.{
  max_money, max_block_size, is_negative, add64, money_range, is_null, is_empty, is_coin_base,
  is_coin_stake, Answer, accepted, refused, check_outputs, check_duplicates, check_prevouts,
  check_script_size, and_then, check_transaction, value_loop, get_value_out,
}
use build_env_jenkins.Transaction.Check.Laws.{
  total, IsPayable, IsDistinct, points_onto, check_outputs_sound, check_outputs_complete,
  check_duplicates_iff,
}

-- The script of a coin base.
abbrev pub HasScriptSize : List TxIn → Type 0
HasScriptSize [] = Unit
HasScriptSize (i ∷ ins) = (2 ≤ length i.script_sig) × (length i.script_sig ≤ 100)

abbrev pub IsSpending : TxIn → Type 0
IsSpending i = is_null i.prevout ≡ false

-- A coin base has a script of 2 to 100 bytes; the inputs of another transaction all spend.
abbrev pub HasGoodInputs : Transaction → Type 0
HasGoodInputs tx =
    ((is_coin_base tx ≡ true) × HasScriptSize tx.vin)
    ⊎ ((is_coin_base tx ≡ false) × All IsSpending tx.vin)

pub record IsValid (tx : Transaction) : Type 0 where
  pub some_inputs : 1 ≤ length tx.vin
  pub some_outputs : 1 ≤ length tx.vout
  pub size : length (write_transaction tx) ≤ max_block_size
  pub outputs : All (IsPayable (is_coin_base tx || is_coin_stake tx)) tx.vout
  pub sum : total tx.vout ≤ max_money
  pub distinct : IsDistinct (points_onto [] tx.vin)
  pub inputs : HasGoodInputs tx

-- A coin base or a coin stake.
abbrev is_special : Transaction → Bool
is_special tx = is_coin_base tx || is_coin_stake tx

check_script_size_iff : (ins : List TxIn) → (check_script_size ins ≡ accepted) ↔ HasScriptSize ins
unfolding check_script_size
check_script_size_iff [] = (λ e. tt, λ h. refl)
check_script_size_iff (i ∷ ins) = (λ e. (ground arith, ground arith), λ h. ground (arith, h.0, h.1))

check_prevouts_iff : (ins : List TxIn) → (check_prevouts ins ≡ accepted) ↔ All IsSpending ins
unfolding check_prevouts
check_prevouts_iff [] = (λ e. tt, λ h. refl)
check_prevouts_iff (i ∷ ins) = elim (Bool-cases (is_null i.prevout)) [
  | inl null ↦ rw null (λ e. cc e, λ h. cc (h.0))
  | inr spending ↦
      rw spending (λ e. (refl, (check_prevouts_iff ins).0 e), λ h. (check_prevouts_iff ins).1 h.1)
]

check_inputs_iff :
    (tx : Transaction)
    → ((if is_coin_base tx then check_script_size tx.vin else check_prevouts tx.vin) ≡ accepted)
      ↔ HasGoodInputs tx
check_inputs_iff tx = elim (Bool-cases (is_coin_base tx)) [
  | inl base ↦ rw base (
    λ e. inl (refl, (check_script_size_iff tx.vin).0 e),
    λ h. elim h [
      | inl (b, size) ↦ (check_script_size_iff tx.vin).1 size
      | inr (b, spending) ↦ cc b
    ],
  )
  | inr other ↦ rw other (
    λ e. inr (refl, (check_prevouts_iff tx.vin).0 e),
    λ h. elim h [
      | inl (b, size) ↦ cc b
      | inr (b, spending) ↦ (check_prevouts_iff tx.vin).1 spending
    ],
  )
]

guard_iff :
    (b : Bool) (dos : ℕ) (x : Answer)
    → ((if b then refused dos else x) ≡ accepted) ↔ ((b ≡ false) × (x ≡ accepted))
guard_iff true dos x = (λ e. cc e, λ h. cc (h.0))
guard_iff false dos x = (λ e. (refl, e), λ h. h.1)

and_then_iff : (a b : Answer) → (and_then a b ≡ accepted) ↔ ((a ≡ accepted) × (b ≡ accepted))
and_then_iff accepted b = (λ e. (refl, e), λ h. h.1)
and_then_iff (refused dos) b = (λ e. cc e, λ h. cc (h.0))

check_transaction_sound : (tx : Transaction) → check_transaction tx ≡ accepted → IsValid tx
unfolding check_transaction
check_transaction_sound tx e =
    let (inputs, e1) = (guard_iff (length tx.vin == 0) 10 _).0 e in
    let (outputs, e2) = (guard_iff (length tx.vout == 0) 10 _).0 e1 in
    let (short, e3) = (guard_iff (ltb max_block_size (length (write_transaction tx))) 100 _).0 e2 in
    let (values, e4) = (and_then_iff (check_outputs (is_special tx) 0 tx.vout) _).0 e3 in
    let (once, good) = (and_then_iff (check_duplicates [] tx.vin) _).0 e4 in
    let paid = check_outputs_sound (is_special tx) 0 tx.vout (omega arith) values in
    record {
      some_inputs = ground arith;
      some_outputs = ground arith;
      size = omega tests;
      outputs = paid.0;
      sum = omega (arith, paid.1);
      distinct = (check_duplicates_iff [] tx.vin tt).0 once;
      inputs = (check_inputs_iff tx).0 good;
    }

check_transaction_complete : (tx : Transaction) → IsValid tx → check_transaction tx ≡ accepted
unfolding check_transaction
check_transaction_complete tx v = (guard_iff (length tx.vin == 0) 10 _).1 (
  ground (arith, v.some_inputs),
  (guard_iff (length tx.vout == 0) 10 _).1 (
    ground (arith, v.some_outputs),
    (guard_iff (ltb max_block_size (length (write_transaction tx))) 100 _).1 (
      le→ltb _ _ v.size,
      (and_then_iff (check_outputs (is_special tx) 0 tx.vout) _).1 (
        check_outputs_complete (is_special tx) 0 tx.vout v.outputs (omega (arith, v.sum)),
        (and_then_iff (check_duplicates [] tx.vin) _).1
            ((check_duplicates_iff [] tx.vin tt).1 v.distinct, (check_inputs_iff tx).1 v.inputs),
      ),
    ),
  ),
)

-- `CheckTransaction` accepts the transactions that are valid by themselves: there is an input and an
-- output, the size is within the limit, each output is payable, the values add up, with no
-- wrap-around, to at most the money there is, no input stands twice, and the inputs are those of a
-- coin base with a script of 2 to 100 bytes or all spend something.
pub check_transaction_iff : (tx : Transaction) → (check_transaction tx ≡ accepted) ↔ IsValid tx
check_transaction_iff tx = (check_transaction_sound tx, check_transaction_complete tx)

value_loop-total :
    (special : Bool) (n : ℕ) (outs : List TxOut)
    → All (IsPayable special) outs
    → n + total outs ≤ max_money
    → value_loop n outs ≡ some (n + total outs)
unfolding value_loop money_range is_negative add64 is_empty
value_loop-total special n [] p h = ap (λ k. some k) (omega arith)
value_loop-total special n (o ∷ outs) p h =
    ground (arith, value_loop-total special (n + o.n_value) outs p.1 (omega arith))

-- `GetValueOut` of a transaction that `CheckTransaction` has accepted does not throw: it is the sum
-- of the values, with no wrap-around.
pub get_value_out-total :
    (tx : Transaction) → check_transaction tx ≡ accepted → get_value_out tx ≡ some (total tx.vout)
unfolding get_value_out
get_value_out-total tx e =
    let valid = (check_transaction_iff tx).0 e in
    value_loop-total _ 0 tx.vout valid.outputs (omega (arith, valid.sum))
    ∙ ap (λ k. some k) (omega arith)
