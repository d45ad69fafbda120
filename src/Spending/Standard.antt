-- ===== src/Spending/Standard.antt =====
-- `IsStandard`, `AreInputsStandard`, `GetOutputFor` and `GetValueIn` of src/main.cpp: what the node
-- asks of a transaction before it relays it.
use build_env_jenkins.Common.{
  ℕ, suc, ◌+◌, ◌^◌, Bytes, List, [], ◌∷◌, Bool, true, false, not, Option, none, some, length,
  lookup, ltb, leb, ◌==◌, if◌then◌else◌, ◌&&◌, ◌||◌,
}
use build_env_jenkins.OpenSsl.{OpenSsl}
use build_env_jenkins.Transaction.{TxIn, TxOut, Transaction}
use build_env_jenkins.Transaction.Check.{is_coin_base, add64}
use build_env_jenkins.Script.Machine.{Context}
use build_env_jenkins.Script.Scan.{is_push_only}
use build_env_jenkins.Script.Solver.{TxnOutType, scripthash, solver, is_standard}
use build_env_jenkins.Script.Eval.{eval_script}
use build_env_jenkins.Signing.Mine.{script_sig_args_expected}
use build_env_jenkins.Spending.{key_of, PrevTxs, output_at}

unfoldable pub inputs_push_only : List TxIn → Bool
inputs_push_only [] = true
inputs_push_only (i ∷ ins) =
    not (ltb 500 (length i.script_sig)) && (is_push_only i.script_sig && inputs_push_only ins)

unfoldable pub outputs_standard : List TxOut → Bool
outputs_standard [] = true
outputs_standard (o ∷ outs) =
    is_standard o.script_pub_key && (not (o.n_value == 0) && outputs_standard outs)

-- `CTransaction::IsStandard`. The version is signed.
unfoldable pub is_standard_tx : Transaction → Bool
is_standard_tx tx =
    (leb (2 ^ 31) tx.n_version || leb tx.n_version 1)
    && (inputs_push_only tx.vin && outputs_standard tx.vout)

-- `GetOutputFor`; `none` is an exception.
unfoldable pub get_output_for : TxIn → PrevTxs → Option TxOut
get_output_for i prevs = elim (lookup (key_of i.prevout.hash) prevs) [
  | none ↦ none
  | some (index, prev) ↦
      if leb (length prev.vout) i.prevout.n then none else some (output_at prev i.prevout.n)
]

-- The loop of `GetValueIn`, with `nResult`.
unfoldable pub value_in_loop : PrevTxs → ℕ → List TxIn → Option ℕ
value_in_loop prevs result [] = some result
value_in_loop prevs result (i ∷ ins) = elim (get_output_for i prevs) [
  | none ↦ none
  | some o ↦ value_in_loop prevs (add64 result o.n_value) ins
]

-- `GetValueIn`
unfoldable pub get_value_in : Transaction → PrevTxs → Option ℕ
get_value_in tx prevs = if is_coin_base tx then some 0 else value_in_loop prevs 0 tx.vin

-- The type of a script, and how many values it expects of an input.
unfoldable pub args_of : Bytes → Option (TxnOutType × ℕ)
args_of script =
    let (ok, t, sols) = solver script in
    if ok
    then elim (script_sig_args_expected t sols) [ none ↦ none | some n ↦ some (t, n) ]
    else none

-- What a script may expect that stands on the stack for a script hash.
abbrev own_args : TxnOutType × ℕ → Option ℕ
own_args (scripthash, n) = none
own_args (_, n) = some n

-- The values that are expected on top of those of the output's script.
unfoldable pub nested_args : TxnOutType → List Bytes → Option ℕ
nested_args scripthash [] = none
nested_args scripthash (top ∷ stack) = elim (args_of top) [
  | none ↦ none
  | some found ↦ own_args found
]
nested_args _ stack = some 0

-- The body of the loop of `AreInputsStandard`.
unfoldable pub is_standard_input : Context → Bytes → Bytes → Bool
is_standard_input ctx script_sig prev_script = elim (args_of prev_script) [
  | none ↦ false
  | some (t, n) ↦
      let (ok, stack) = eval_script ctx [] script_sig in
      ok && elim (nested_args t stack) [ none ↦ false | some more ↦ length stack == n + more ]
]

unfoldable pub standard_loop : OpenSsl → Transaction → PrevTxs → ℕ → List TxIn → Option Bool
standard_loop ssl tx prevs n_in [] = some true
standard_loop ssl tx prevs n_in (i ∷ ins) =
    let rest = standard_loop ssl tx prevs (suc n_in) ins in
    elim (get_output_for i prevs) [
      | none ↦ none
      | some o ↦
          if is_standard_input (record { ssl = ssl; tx = tx; n_in = n_in; hash_type = 0 })
            i.script_sig o.script_pub_key
          then rest
          else some false
    ]

-- `AreInputsStandard`; `none` is an exception.
unfoldable pub are_inputs_standard : OpenSsl → Transaction → PrevTxs → Option Bool
are_inputs_standard ssl tx prevs =
    if is_coin_base tx then some true else standard_loop ssl tx prevs 0 tx.vin
