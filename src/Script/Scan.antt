-- ===== src/Script/Scan.antt =====
-- The walks over a script of src/script.h and src/script.cpp that only read it.
pub mod Counts
pub mod Pushes
use build_env_jenkins.Common.{
  ℕ, ◌+◌, ◌%◌, ◌^◌, Bytes, List, [], ◌∷◌, Option, none, some, Bool, true, false, not, length,
  get_elem?, get_or, ltb, leb, ◌==◌, if◌then◌else◌, ◌&&◌, ◌||◌,
}
use build_env_jenkins.Script.Opcode.{
  op_0, op_1, op_16, op_pushdata1, op_pushdata2, op_pushdata4, op_checksig, op_checksigverify,
  op_checkmultisig, op_checkmultisigverify, op_hash160, op_equal, op_invalidopcode,
}
use build_env_jenkins.Script.Builder.{decode_op_n}
use build_env_jenkins.Script.Walk.{Turn, go, halt, Loop, run}

abbrev pub push_only_loop : Loop (Unit {0}) Bool
push_only_loop = record {
  step = λ opcode pushed rest s. if ltb op_16 opcode then halt false else go tt;
  bad = λ s. false;
  finish = λ s. true;
}

-- `IsPushOnly`
unfoldable pub is_push_only : Bytes → Bool
is_push_only script = run push_only_loop script tt

-- The pushes that a shorter form could have made.
unfoldable pub is_wasteful : ℕ → Bytes → Bool
is_wasteful opcode pushed =
    (ltb opcode op_pushdata1
      && ltb op_0 opcode
      && (length pushed == 1 && leb (get_or pushed 0 0) 16))
    || (opcode == op_pushdata1 && ltb (length pushed) op_pushdata1)
    || (opcode == op_pushdata2 && leb (length pushed) 0xff)
    || (opcode == op_pushdata4 && leb (length pushed) 0xffff)

abbrev pub canonical_loop : Loop (Unit {0}) Bool
canonical_loop = record {
  step = λ opcode pushed rest s.
      if ltb op_16 opcode then go tt else if is_wasteful opcode pushed then halt false else go tt;
  bad = λ s. false;
  finish = λ s. true;
}

-- `HasCanonicalPushes`
unfoldable pub has_canonical_pushes : Bytes → Bool
has_canonical_pushes script = run canonical_loop script tt

-- An `unsigned int`.
abbrev pub add32 : ℕ → ℕ → ℕ
add32 a b = (a + b) % 2 ^ 32

-- What one instruction adds to `GetSigOpCount`, behind the opcode `last`.
unfoldable pub sig_ops_of : Bool → ℕ → ℕ → ℕ
sig_ops_of accurate last opcode =
    if opcode == op_checksig || opcode == op_checksigverify
    then 1
    else if opcode == op_checkmultisig || opcode == op_checkmultisigverify
    then (if accurate && (leb op_1 last && leb last op_16)
        then elim (decode_op_n last) [ none ↦ 0 | some n ↦ n ]
        else 20)
    else 0

abbrev pub sig_op_loop : Bool → Loop (ℕ × ℕ) ℕ
sig_op_loop accurate = record {
  step = λ opcode pushed rest s. go (add32 s.0 (sig_ops_of accurate s.1 opcode), opcode);
  bad = λ s. s.0;
  finish = λ s. s.0;
}

-- `GetSigOpCount(bool)`
unfoldable pub get_sig_op_count : Bool → Bytes → ℕ
get_sig_op_count accurate script = run (sig_op_loop accurate) script (0, op_invalidopcode)

-- `IsPayToScriptHash`
unfoldable pub is_pay_to_script_hash : Bytes → Bool
is_pay_to_script_hash script =
    length script == 23
    && (get_or script 0 0 == op_hash160
        && (get_or script 1 0 == 0x14 && get_or script 22 0 == op_equal))

abbrev pub last_push_loop : Loop Bytes (Option Bytes)
last_push_loop = record {
  step = λ opcode pushed rest s. if ltb op_16 opcode then halt none else go pushed;
  bad = λ s. none;
  finish = λ s. some s;
}

-- `GetSigOpCount(const CScript& scriptSig)` of a `scriptPubKey`.
unfoldable pub get_p2sh_sig_op_count : Bytes → Bytes → ℕ
get_p2sh_sig_op_count script_pub_key script_sig =
    if not (is_pay_to_script_hash script_pub_key)
    then get_sig_op_count true script_pub_key
    else elim (run last_push_loop script_sig []) [
      | none ↦ 0
      | some subscript ↦ get_sig_op_count true subscript
    ]
