-- ===== src/Script/Builder.antt =====
-- Writing scripts: `CScript::operator<<` and the small integers of src/script.h.
pub mod Length
use build_env_jenkins.Common.{
  ℕ, ◌+◌, ◌-◌, Bytes, List, [], ◌∷◌, ◌++◌, Option, none, some, length, to_le, ltb, leb, ◌==◌,
  if◌then◌else◌, ◌&&◌,
}
use build_env_jenkins.Script.Opcode.{op_0, op_1, op_16, op_pushdata1, op_pushdata2, op_pushdata4}

-- `operator<<(const std::vector<unsigned char>&)`: what it appends to the script. A length that
-- does not fit is cut to the two or four bytes of its field.
unfoldable pub push_data : Bytes → Bytes
push_data b =
    if ltb (length b) op_pushdata1
    then length b ∷ b
    else if leb (length b) 0xff
    then op_pushdata1 ∷ length b ∷ b
    else if leb (length b) 0xffff
    then op_pushdata2 ∷ (to_le 2 (length b) ++ b)
    else op_pushdata4 ∷ (to_le 4 (length b) ++ b)

-- `DecodeOP_N`; `none` is the failed assertion.
unfoldable pub decode_op_n : ℕ → Option ℕ
decode_op_n opcode =
    if opcode == op_0
    then some 0
    else if leb op_1 opcode && leb opcode op_16
    then some (opcode - (op_1 - 1))
    else none

-- `EncodeOP_N` of a number that is not negative; `none` is the failed assertion.
unfoldable pub encode_op_n : ℕ → Option ℕ
encode_op_n n = if leb n 16 then (if n == 0 then some op_0 else some (op_1 + n - 1)) else none

-- `PushAll` of src/script.cpp.
unfoldable pub push_all : List Bytes → Bytes
push_all [] = []
push_all (v ∷ vs) = push_data v ++ push_all vs
