-- ===== src/Script/Ops/Crypto.antt =====
-- "Crypto" of `EvalScript`.
pub mod Multisig
use build_env_jenkins.Common.{
  ℕ, ◌+◌, Bytes, List, [], ◌∷◌, Bool, true, false, Option, none, some, length, take, drop, ltb,
  ◌==◌, if◌then◌else◌,
}
use build_env_jenkins.Common.Int.{ℤ, pos, negsuc}
use build_env_jenkins.OpenSsl.{OpenSsl}
use build_env_jenkins.Bignum.{get_int}
use build_env_jenkins.Script.Opcode.{
  op_ripemd160, op_sha1, op_sha256, op_hash160, op_checksigverify, op_checkmultisigverify,
}
use build_env_jenkins.Script.Builder.{push_data}
use build_env_jenkins.Script.FindAndDelete.{find_and_delete}
use build_env_jenkins.Script.SigHash.{hash, hash160}
use build_env_jenkins.Script.CheckSig.{check_sig}
use build_env_jenkins.Script.Cast.{cast_to_big_num}
use build_env_jenkins.Script.Walk.{go}
use build_env_jenkins.Script.Machine.{Machine, Context, Step, Handler, fail, put, conclude}

unfoldable pub digest : ℕ → OpenSsl → Bytes → Bytes
digest opcode ssl vch =
    if opcode == op_ripemd160
    then ssl.ripemd160 vch
    else if opcode == op_sha1
    then ssl.sha1 vch
    else if opcode == op_sha256
    then ssl.sha256 vch
    else if opcode == op_hash160
    then hash160 ssl vch
    else hash ssl vch

unfoldable pub hash_from : ℕ → Context → Machine → List Bytes → Step
hash_from opcode ctx m [] = fail []
hash_from opcode ctx m (vch ∷ s) = put m (digest opcode ctx.ssl vch ∷ s)

unfoldable pub hash_op : ℕ → Handler
hash_op opcode ctx rest m = hash_from opcode ctx m m.stack

-- "Hash starts after the code separator"
unfoldable pub code_separator : Handler
code_separator ctx rest m = go (record m { code = rest })

-- `CheckSig` with the transaction of the run.
unfoldable pub check : Context → Bytes → Bytes → Bytes → Bool
check ctx code sig pub_key = check_sig ctx.ssl sig pub_key code ctx.tx ctx.n_in ctx.hash_type

unfoldable pub check_sig_from : Bool → Context → Machine → List Bytes → Step
check_sig_from verify ctx m (pub_key ∷ sig ∷ s) =
    conclude verify (check ctx (find_and_delete (push_data sig) m.code).0 sig pub_key) m s
check_sig_from verify ctx m s = fail s

unfoldable pub check_sig_op : ℕ → Handler
check_sig_op opcode ctx rest m = check_sig_from (opcode == op_checksigverify) ctx m m.stack

-- "Drop the signatures, since there's no way for a signature to sign itself"
unfoldable pub drop_sigs : List Bytes → Bytes → Bytes
drop_sigs [] code = code
drop_sigs (sig ∷ sigs) code = drop_sigs sigs (find_and_delete (push_data sig) code).0

-- The loop over signatures and keys, both from the top of the stack: `isig` and `ikey` are the
-- heads of what is left, and it fails once more signatures than keys are left.
unfoldable pub match_sigs : (Bytes → Bytes → Bool) → List Bytes → List Bytes → Bool
match_sigs test [] keys = true
match_sigs test (sig ∷ sigs) [] = false
match_sigs test (sig ∷ sigs) (key ∷ keys) =
    let left = if test sig key then sigs else sig ∷ sigs in
    let more = match_sigs test left keys in if ltb (length keys) (length left) then false else more

-- A count on the stack: an integer from 0 up to a limit.
unfoldable pub count_up_to : ℕ → Option ℤ → Option ℕ
count_up_to limit none = none
count_up_to limit (some bn) = elim (get_int bn) [
  | negsuc _ ↦ none
  | pos n ↦ if ltb limit n then none else some n
]

-- With the number of signatures read: `s` holds the signatures, and one value more that is popped.
unfoldable pub multisig_sigs : Bool → Context → Machine → List Bytes → ℕ → List Bytes → Step
multisig_sigs verify ctx m keys sigs_count s =
    if ltb (length s) (sigs_count + 1)
    then fail m.stack
    else let sigs = take sigs_count s in
      let code = drop_sigs sigs m.code in
      conclude verify (match_sigs (check ctx code) sigs keys) m (drop (sigs_count + 1) s)

-- With the number of keys read: `s` holds the keys and then the number of signatures.
unfoldable pub multisig_keys : Bool → Context → Machine → ℕ → List Bytes → Step
multisig_keys verify ctx m keys_count s = elim (drop keys_count s) [
  | [] ↦ fail m.stack
  | top ∷ rest ↦ elim (count_up_to keys_count (cast_to_big_num ctx.ssl top)) [
    | none ↦ fail m.stack
    | some sigs_count ↦ multisig_sigs verify ctx m (take keys_count s) sigs_count rest
  ]
]

unfoldable pub multisig_from : Bool → Context → Machine → List Bytes → Step
multisig_from verify ctx m [] = fail m.stack
multisig_from verify ctx m (top ∷ s) = elim (count_up_to 20 (cast_to_big_num ctx.ssl top)) [
  | none ↦ fail m.stack
  | some keys_count ↦
      if ltb 201 (m.op_count + keys_count)
      then fail m.stack
      else multisig_keys verify ctx (record m { op_count = m.op_count + keys_count }) keys_count s
]

unfoldable pub check_multisig : ℕ → Handler
check_multisig opcode ctx rest m = multisig_from (opcode == op_checkmultisigverify) ctx m m.stack
