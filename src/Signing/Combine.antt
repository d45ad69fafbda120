-- ===== src/Signing/Combine.antt =====
-- Merging the signatures of two inputs: `CombineMultisig` and `CombineSignatures` of src/script.cpp.
-- A stack has its top first, where the code has its top at the back.
pub mod Matched
pub mod Kept
use build_env_jenkins.Common.{
  ℕ, zero, suc, ◌+◌, ◌-◌, Bytes, List, [], ◌∷◌, ◌++◌, reverse, replicate, Bool, true, false, Option,
  none, some, length, bytes_eq, leb, ◌==◌, if◌then◌else◌, ◌||◌,
}
use build_env_jenkins.OpenSsl.{OpenSsl}
use build_env_jenkins.Transaction.{Transaction}
use build_env_jenkins.Script.Opcode.{op_0}
use build_env_jenkins.Script.Builder.{push_data, push_all}
use build_env_jenkins.Script.SigCache.{bytes_lt}
use build_env_jenkins.Script.CheckSig.{check_sig}
use build_env_jenkins.Script.Solver.{
  TxnOutType, nonstandard, pubkey, pubkeyhash, scripthash, multisig, null_data, front, solver,
}
use build_env_jenkins.Script.Eval.{eval_script}
use build_env_jenkins.Signing.{keys_of}

-- `allsigs.insert` on a `std::set` of byte vectors, in their order.
unfoldable pub insert_sig : Bytes → List Bytes → List Bytes
insert_sig v [] = v ∷ []
insert_sig v (w ∷ set) =
    let rest = insert_sig v set in
    if bytes_eq v w then w ∷ set else if bytes_lt v w then v ∷ w ∷ set else w ∷ rest

-- The values of a vector that are not empty, put into the set.
unfoldable pub collect_sigs : List Bytes → List Bytes → List Bytes
collect_sigs [] set = set
collect_sigs ([] ∷ sigs) set = collect_sigs sigs set
collect_sigs ((b ∷ v) ∷ sigs) set = collect_sigs sigs (insert_sig (b ∷ v) set)

-- The map from a public key to its signature.
abbrev pub SigMap : Type 0
SigMap = List (Bytes × Bytes)

unfoldable pub sig_of : Bytes → SigMap → Option Bytes
sig_of key [] = none
sig_of key ((k, sig) ∷ m) = if bytes_eq key k then some sig else sig_of key m

-- The inner loop: the first key without a signature that the signature fits gets it.
unfoldable pub assign_sig : (Bytes → Bytes → Bool) → Bytes → List Bytes → SigMap → SigMap
assign_sig test sig [] m = m
assign_sig test sig (key ∷ keys) m =
    let rest = assign_sig test sig keys m in
    elim (sig_of key m) [ some other ↦ rest | none ↦ if test sig key then (key, sig) ∷ m else rest ]

unfoldable pub assign_sigs : (Bytes → Bytes → Bool) → List Bytes → List Bytes → SigMap → SigMap
assign_sigs test [] keys m = m
assign_sigs test (sig ∷ sigs) keys m = assign_sigs test sigs keys (assign_sig test sig keys m)

-- "Now build a merged CScript", with `nSigsHave`.
unfoldable pub merge_sigs : ℕ → List Bytes → SigMap → ℕ → Bytes → Bytes × ℕ
merge_sigs required [] m have script = (script, have)
merge_sigs required (key ∷ keys) m have script =
    if leb required have then (script, have) else elim (sig_of key m) [
      | none ↦ merge_sigs required keys m have script
      | some sig ↦ merge_sigs required keys m (suc have) (script ++ push_data sig)
    ]

-- `CheckSig` of a signature and a key.
abbrev pub fits_key : OpenSsl → Bytes → Transaction → ℕ → Bytes → Bytes → Bool
fits_key ssl script_pub_key tx n_in sig key = check_sig ssl sig key script_pub_key tx n_in 0

-- `CombineMultisig`
unfoldable pub combine_multisig :
    OpenSsl → Bytes → Transaction → ℕ → List Bytes → List Bytes → List Bytes → Bytes
combine_multisig ssl script_pub_key tx n_in sols sigs1 sigs2 =
    let all_sigs = collect_sigs (reverse sigs2) (collect_sigs (reverse sigs1) []) in
    let m = assign_sigs (fits_key ssl script_pub_key tx n_in) all_sigs (keys_of sols) [] in
    let (script, have) = merge_sigs (front sols) (keys_of sols) m 0 (op_0 ∷ []) in
    script ++ replicate (front sols - have) op_0

-- `PushAll` of a stack.
abbrev pub push_stack : List Bytes → Bytes
push_stack stack = push_all (reverse stack)

-- `sigs1.empty() || sigs1[0].empty()`, of the bottom of the stack.
unfoldable pub is_unsigned : List Bytes → Bool
is_unsigned [] = true
is_unsigned (v ∷ []) = length v == 0
is_unsigned (v ∷ w ∷ stack) = is_unsigned (w ∷ stack)

-- `CombineSignatures` of two stacks.
unfoldable pub combine_as :
    OpenSsl → Transaction → ℕ → List Bytes → List Bytes → Bytes → TxnOutType → List Bytes → Bytes
combine_as ssl tx n_in sigs1 sigs2 script_pub_key nonstandard sols =
    if leb (length sigs2) (length sigs1) then push_stack sigs1 else push_stack sigs2
combine_as ssl tx n_in sigs1 sigs2 script_pub_key null_data sols =
    if leb (length sigs2) (length sigs1) then push_stack sigs1 else push_stack sigs2
combine_as ssl tx n_in sigs1 sigs2 script_pub_key pubkey sols =
    if is_unsigned sigs1 then push_stack sigs2 else push_stack sigs1
combine_as ssl tx n_in sigs1 sigs2 script_pub_key pubkeyhash sols =
    if is_unsigned sigs1 then push_stack sigs2 else push_stack sigs1
combine_as ssl tx n_in sigs1 sigs2 script_pub_key multisig sols =
    combine_multisig ssl script_pub_key tx n_in sols sigs1 sigs2
combine_as ssl tx n_in [] sigs2 script_pub_key scripthash sols = push_stack sigs2
combine_as ssl tx n_in ([] ∷ sigs1) sigs2 script_pub_key scripthash sols = push_stack sigs2
combine_as ssl tx n_in ((b ∷ v) ∷ sigs1) [] script_pub_key scripthash sols =
    push_stack ((b ∷ v) ∷ sigs1)
combine_as ssl tx n_in ((b ∷ v) ∷ sigs1) ([] ∷ sigs2) script_pub_key scripthash sols =
    push_stack ((b ∷ v) ∷ sigs1)
combine_as ssl tx n_in ((b ∷ v) ∷ sigs1) ((c ∷ w) ∷ sigs2) script_pub_key scripthash sols =
    let (ok, t, sols') = solver (b ∷ v) in
    combine_as ssl tx n_in sigs1 sigs2 (b ∷ v) t sols' ++ push_data (b ∷ v)

-- `CTransaction()`, with the time that it takes from the clock.
abbrev pub new_transaction : ℕ → Transaction
new_transaction now = record { n_version = 1; n_time = now; vin = []; vout = []; n_lock_time = 0 }

-- The stack that a script leaves; the result of `EvalScript` is not looked at.
unfoldable pub stack_of : OpenSsl → ℕ → Bytes → List Bytes
stack_of ssl now script_sig =
    (eval_script (record { ssl = ssl; tx = new_transaction now; n_in = 0; hash_type = 0 }) []
      script_sig).1

-- `CombineSignatures` of two scripts.
unfoldable pub combine_signatures : OpenSsl → ℕ → Bytes → Transaction → ℕ → Bytes → Bytes → Bytes
combine_signatures ssl now script_pub_key tx n_in script_sig1 script_sig2 =
    let (ok, t, sols) = solver script_pub_key in
    combine_as ssl tx n_in (stack_of ssl now script_sig1) (stack_of ssl now script_sig2)
      script_pub_key t sols
