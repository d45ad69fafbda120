-- ===== src/Script/Solver.antt =====
-- `Solver`, `ExtractDestination`, `IsStandard` and `SetDestination` of src/script.cpp.
pub mod RoundTrip
pub mod Growth
pub mod Solutions
use build_env_jenkins.Common.{
  ℕ, zero, suc, ◌+◌, ◌-◌, Bytes, List, [], ◌∷◌, ◌++◌, Option, none, some, Bool, true, false, not,
  length, take, drop, get_or, ltb, leb, ◌==◌, if◌then◌else◌, ◌&&◌, ◌||◌, bytes_eq,
}
use build_env_jenkins.OpenSsl.{OpenSsl}
use build_env_jenkins.Script.Opcode.{
  op_0, op_1, op_16, op_checksig, op_checkmultisig, op_dup, op_hash160, op_pubkeyhash,
  op_equalverify, op_equal, op_smallinteger, op_smalldata, op_pubkeys, op_pubkey, op_return,
  op_invalidopcode,
}
use build_env_jenkins.Script.Builder.{decode_op_n}
use build_env_jenkins.Script.GetOp.{Fetch, fetched, refused, get_op}
use build_env_jenkins.Script.SigHash.{hash160}
use build_env_jenkins.Script.Scan.{is_pay_to_script_hash}

-- `enum txnouttype`
pub data TxnOutType : Type 0 where
  nonstandard pubkey pubkeyhash scripthash multisig null_data : TxnOutType

-- `mTemplates`, in the order of the map.
abbrev pub templates : List (TxnOutType × Bytes)
templates =
    (pubkey, op_pubkey ∷ op_checksig ∷ [])
    ∷ (pubkeyhash, op_dup ∷ op_hash160 ∷ op_pubkeyhash ∷ op_equalverify ∷ op_checksig ∷ [])
    ∷ (multisig, op_smallinteger ∷ op_pubkeys ∷ op_smallinteger ∷ op_checkmultisig ∷ [])
    ∷ (null_data, op_return ∷ op_smalldata ∷ [])
    ∷ []

-- The script that is matched: an iterator into it, or the instruction that has been read last.
pub data Cursor : Type 0 where
  at : Bytes → Cursor
  behind : ℕ → Bytes → Bytes → Cursor

abbrev fetch_at : Cursor → Fetch
fetch_at (at pc) = get_op pc
fetch_at (behind opcode pushed rest) = fetched opcode pushed rest

abbrev pub is_key_size : Bytes → Bool
is_key_size v = leb 33 (length v) && leb (length v) 120

-- The loop at `OP_PUBKEYS`: the keys read, and the instruction that ends them. A `GetOp` that
-- fails ends them too, with its invalid opcode.
unfoldable pub collect_keys : ℕ → ℕ → Bytes → Bytes → List Bytes → List Bytes × Cursor
collect_keys zero opcode pushed rest sols = (sols, behind opcode pushed rest)
collect_keys (suc fuel) opcode pushed rest sols = elim (is_key_size pushed) [
  | false ↦ (sols, behind opcode pushed rest)
  | true ↦ elim (get_op rest) [
    | refused rest' ↦ (sols ++ pushed ∷ [], behind op_invalidopcode [] rest')
    | fetched opcode' pushed' rest' ↦ collect_keys fuel opcode' pushed' rest' (sols ++ pushed ∷ [])
  ]
]

-- "Template matching opcodes", but for `OP_PUBKEYS`: the solutions after one instruction.
unfoldable pub match_op : ℕ → ℕ → Bytes → List Bytes → Option (List Bytes)
match_op template opcode pushed sols =
    if template == op_pubkey
    then (if is_key_size pushed then some (sols ++ pushed ∷ []) else none)
    else if template == op_pubkeyhash
    then (if length pushed == 20 then some (sols ++ pushed ∷ []) else none)
    else if template == op_smallinteger
    then (if opcode == op_0 || leb op_1 opcode && leb opcode op_16
        then elim (decode_op_n opcode) [ none ↦ none | some n ↦ some (sols ++ (n ∷ []) ∷ []) ]
        else none)
    else if template == op_smalldata
    then (if leb (length pushed) 80 then some sols else none)
    else if opcode == template && bytes_eq pushed []
    then some sols
    else none

-- "Compare". Every instruction of a template is one byte and pushes nothing, so that the template
-- is the list of its opcodes.
unfoldable pub match_ops : Bytes → Cursor → List Bytes → Option (List Bytes)
match_ops [] (at []) sols = some sols
match_ops [] c sols = none
match_ops (t ∷ ts) c sols = elim (fetch_at c) [
  | refused _ ↦ none
  | fetched opcode pushed rest ↦ elim (t == op_pubkeys) [
    | true ↦
        let (sols', c') = collect_keys (suc (length rest)) opcode pushed rest sols in
        match_ops ts c' sols'
    | false ↦ elim (match_op t opcode pushed sols) [
      | none ↦ none
      | some sols' ↦ match_ops ts (at rest) sols'
    ]
  ]
]

abbrev pub front : List Bytes → ℕ
front [] = 0
front (v ∷ vs) = get_or v 0 0

abbrev pub back : List Bytes → ℕ
back [] = 0
back (v ∷ []) = get_or v 0 0
back (v ∷ w ∷ vs) = back (w ∷ vs)

-- What `Solver` returns, with the type and the solutions that it stores.
abbrev pub Solution : Type 0
Solution = Bool × TxnOutType × List Bytes

-- "Additional checks for TX_MULTISIG"
unfoldable pub found_match : TxnOutType → List Bytes → Solution
found_match multisig sols =
    let m = front sols in
    let n = back sols in
    (not (ltb m 1 || (ltb n 1 || (ltb n m || not (length sols - 2 == n)))), multisig, sols)
found_match t sols = (true, t, sols)

unfoldable pub scan_templates : List (TxnOutType × Bytes) → Bytes → Solution
scan_templates [] script = (false, nonstandard, [])
scan_templates ((t, template) ∷ ts) script = elim (match_ops template (at script) []) [
  | none ↦ scan_templates ts script
  | some sols ↦ found_match t sols
]

unfoldable pub solver : Bytes → Solution
solver script =
    if is_pay_to_script_hash script
    then (true, scripthash, take 20 (drop 2 script) ∷ [])
    else scan_templates templates script

-- `CTxDestination`
pub data TxDestination : Type 0 where
  no_destination : TxDestination
  key_id script_id : Bytes → TxDestination

-- The one type that has a destination each; the others have none.
unfoldable pub destination_of : OpenSsl → TxnOutType → List Bytes → Option TxDestination
destination_of ssl pubkey (v ∷ vs) = some (key_id (hash160 ssl v))
destination_of ssl pubkeyhash (v ∷ vs) = some (key_id v)
destination_of ssl scripthash (v ∷ vs) = some (script_id v)
destination_of ssl _ _ = none

-- `ExtractDestination`; `none` is false.
unfoldable pub extract_destination : OpenSsl → Bytes → Option TxDestination
extract_destination ssl script =
    let (ok, t, sols) = solver script in if ok then destination_of ssl t sols else none

-- `IsStandard`
unfoldable pub is_standard : Bytes → Bool
is_standard script =
    let (ok, t, sols) = solver script in
    ok && elim t [
      | multisig ↦
          leb 1 (back sols)
          && leb (back sols) 3
          && (leb 1 (front sols) && leb (front sols) (back sols))
      | nonstandard ↦ false
      | _ ↦ true
    ]

-- `SetDestination`, with `CScriptVisitor`. A `uint160` is pushed as its size and its bytes.
unfoldable pub set_destination : TxDestination → Bytes
set_destination no_destination = []
set_destination (key_id id) = op_dup ∷ op_hash160 ∷ 20 ∷ (id ++ op_equalverify ∷ op_checksig ∷ [])
set_destination (script_id id) = op_hash160 ∷ 20 ∷ (id ++ op_equal ∷ [])
