-- ===== src/Script/GetOp.antt =====
-- Reading one instruction: `CScript::GetOp2` of src/script.h.
-- An iterator into a script is the list of the bytes that it has before it.
pub mod RoundTrip
pub mod Shrinks
use build_env_jenkins.Common.{
  ℕ, zero, suc, ◌+◌, ◌≤◌, Bytes, List, [], ◌∷◌, ◌++◌, Option, none, some, Bool, true, false, length,
  take, drop, from_le, ltb, leb, ◌==◌, if◌then◌else◌, ◌&&◌, ◌||◌, bytes_eq, get_elem?,
}
use build_env_jenkins.Script.Opcode.{
  op_0, op_1, op_16, op_pushdata1, op_pushdata2, op_pushdata4, op_checksig, op_checksigverify,
  op_checkmultisig, op_checkmultisigverify, op_hash160, op_equal, op_invalidopcode,
}
use build_env_jenkins.Script.Builder.{decode_op_n}

-- What `GetOp2` gives: true with the opcode, its data and the iterator behind them, or false with
-- the iterator where it stopped (the opcode is then `OP_INVALIDOPCODE` and the data empty).
pub data Fetch : Type 0 where
  fetched : ℕ → Bytes → Bytes → Fetch
  refused : Bytes → Fetch

-- The end of `GetOp2`: `nSize` bytes of data.
unfoldable pub take_data : ℕ → ℕ → Bytes → Fetch
take_data opcode size pc =
    if ltb (length pc) size then refused pc else fetched opcode (take size pc) (drop size pc)

-- A push whose length stands in the next `width` bytes.
unfoldable pub sized_data : ℕ → ℕ → Bytes → Fetch
sized_data opcode width pc =
    if ltb (length pc) width
    then refused pc
    else take_data opcode (from_le (take width pc)) (drop width pc)

unfoldable pub get_op : Bytes → Fetch
get_op [] = refused []
get_op (opcode ∷ pc) =
    if leb opcode op_pushdata4
    then (if ltb opcode op_pushdata1
        then take_data opcode opcode pc
        else if opcode == op_pushdata1
        then sized_data opcode 1 pc
        else if opcode == op_pushdata2
        then sized_data opcode 2 pc
        else sized_data opcode 4 pc)
    else fetched opcode [] pc
