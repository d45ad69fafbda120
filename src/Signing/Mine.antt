-- ===== src/Signing/Mine.antt =====
-- Whose an output is: `HaveKeys`, `IsMine`, `ScriptSigArgsExpected`, `ExtractDestinations` and
-- `ExtractAffectedKeys` of src/script.cpp.
pub mod Decides
use build_env_jenkins.Common.{
  ℕ, zero, suc, ◌+◌, Bytes, List, [], ◌∷◌, ◌++◌, map, Bool, true, false, Option, none, some, length,
  from_le, get_or, lookup, ◌==◌, if◌then◌else◌,
}
use build_env_jenkins.OpenSsl.{OpenSsl}
use build_env_jenkins.KeyStore.{get_id, KeyStore, have_key, get_script}
use build_env_jenkins.Script.SigHash.{hash160}
use build_env_jenkins.Script.Solver.{
  TxnOutType, nonstandard, pubkey, pubkeyhash, scripthash, multisig, null_data, front, solver,
  TxDestination, no_destination, key_id, script_id, extract_destination,
}
use build_env_jenkins.Signing.{keys_of}

-- `HaveKeys`
unfoldable pub have_keys : OpenSsl → List Bytes → KeyStore → ℕ
have_keys ssl [] store = 0
have_keys ssl (pub_key ∷ keys) store =
    let rest = have_keys ssl keys store in
    if have_key (get_id ssl pub_key) store then suc rest else rest

-- `HaveCScript`
abbrev pub have_script : ℕ → KeyStore → Bool
have_script id store = elim (lookup id store.map_scripts) [ none ↦ false | some script ↦ true ]

-- `IsMine` of a destination.
unfoldable pub is_mine_destination : KeyStore → TxDestination → Bool
is_mine_destination store no_destination = false
is_mine_destination store (key_id id) = have_key (from_le id) store
is_mine_destination store (script_id id) = have_script (from_le id) store

-- The script of a script hash, where it is found, as `IsMine` has it.
abbrev by_script : (Bytes → Option Bool) → Option Bytes → Option Bool
by_script mine none = some false
by_script mine (some subscript) = mine subscript

-- The switch of `IsMine`, with `IsMine` of a subscript. `none` is a read out of range, which the
-- solutions of a type do not lead to, or the end of the fuel.
unfoldable pub mine_as :
    OpenSsl → KeyStore → (Bytes → Option Bool) → TxnOutType → List Bytes → Option Bool
mine_as ssl store mine nonstandard sols = some false
mine_as ssl store mine null_data sols = some false
mine_as ssl store mine pubkey (v ∷ sols) = some (have_key (get_id ssl v) store)
mine_as ssl store mine pubkeyhash (v ∷ sols) = some (have_key (from_le v) store)
mine_as ssl store mine scripthash (v ∷ sols) = by_script mine (get_script (from_le v) store)
mine_as ssl store mine multisig sols =
    some (have_keys ssl (keys_of sols) store == length (keys_of sols))
mine_as ssl store mine _ [] = none

-- `IsMine` of a script. A script hash leads to a script of the store, and so on; the fuel is the number
-- of scripts that are looked at.
unfoldable pub is_mine : OpenSsl → KeyStore → ℕ → Bytes → Option Bool
is_mine ssl store zero script = none
is_mine ssl store (suc fuel) script =
    let (ok, t, sols) = solver script in
    if ok then mine_as ssl store (is_mine ssl store fuel) t sols else some false

-- `ScriptSigArgsExpected`; `none` is -1.
unfoldable pub script_sig_args_expected : TxnOutType → List Bytes → Option ℕ
script_sig_args_expected nonstandard sols = none
script_sig_args_expected null_data sols = some 1
script_sig_args_expected pubkey sols = some 1
script_sig_args_expected pubkeyhash sols = some 2
script_sig_args_expected scripthash sols = some 1
script_sig_args_expected multisig [] = none
script_sig_args_expected multisig ([] ∷ sols) = none
script_sig_args_expected multisig ((m ∷ v) ∷ sols) = some (m + 1)

-- What `ExtractDestinations` stores where it returns true.
pub record Destinations : Type 0 where
  pub type : TxnOutType
  pub addresses : List TxDestination
  pub n_required : ℕ

-- The one address of a type other than multisig, with `ExtractDestination`.
abbrev with_address : TxnOutType → Option TxDestination → Option Destinations
with_address t none = none
with_address t (some address) = some (record { type = t; addresses = address ∷ []; n_required = 1 })

unfoldable pub extract_as : OpenSsl → Bytes → ℕ → TxnOutType → List Bytes → Option Destinations
extract_as ssl script before null_data sols =
    some (record { type = null_data; addresses = []; n_required = before })
extract_as ssl script before multisig sols = some (record {
  type = multisig;
  addresses = map (λ v. key_id (hash160 ssl v)) (keys_of sols);
  n_required = front sols;
})
extract_as ssl script before t sols = with_address t (extract_destination ssl script)

-- `ExtractDestinations`, with the number that `nRequiredRet` has before; `none` is false.
unfoldable pub extract_destinations : OpenSsl → Bytes → ℕ → Option Destinations
extract_destinations ssl script before =
    let (ok, t, sols) = solver script in if ok then extract_as ssl script before t sols else none

-- The keys of a subscript, where it is found.
abbrev keys_by_script : (Bytes → Option (List ℕ)) → Option Bytes → Option (List ℕ)
keys_by_script process none = some []
keys_by_script process (some script) = process script

-- The visitor of `ExtractAffectedKeys` on the addresses, with `Process` of a subscript. `none` is the
-- end of the fuel.
unfoldable pub visit_addresses :
    KeyStore → (Bytes → Option (List ℕ)) → List TxDestination → Option (List ℕ)
visit_addresses store process [] = some []
visit_addresses store process (no_destination ∷ addresses) = visit_addresses store process addresses
visit_addresses store process (key_id id ∷ addresses) =
    elim (visit_addresses store process addresses) [
      | none ↦ none
      | some ids ↦ some (if have_key (from_le id) store then from_le id ∷ ids else ids)
    ]
visit_addresses store process (script_id id ∷ addresses) =
    elim (keys_by_script process (get_script (from_le id) store)) [
      | none ↦ none
      | some first ↦ elim (visit_addresses store process addresses) [
        | none ↦ none
        | some ids ↦ some (first ++ ids)
      ]
    ]

-- `ExtractAffectedKeys`
unfoldable pub affected_keys : OpenSsl → KeyStore → ℕ → Bytes → Option (List ℕ)
affected_keys ssl store zero script = none
affected_keys ssl store (suc fuel) script = elim (extract_destinations ssl script 0) [
  | none ↦ some []
  | some found ↦ visit_addresses store (affected_keys ssl store fuel) found.addresses
]
