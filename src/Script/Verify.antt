-- ===== src/Script/Verify.antt =====
-- `VerifyScript` of src/script.cpp.
pub mod PubKeyHash
pub mod ScriptHash
pub mod Defined
use build_env_jenkins.Common.{
  ℕ, Bytes, List, [], ◌∷◌, Option, none, some, Bool, true, false, if◌then◌else◌, ◌&&◌,
}
use build_env_jenkins.Script.Cast.{cast_to_bool}
use build_env_jenkins.Script.Machine.{Context}
use build_env_jenkins.Script.Eval.{eval_script}
use build_env_jenkins.Script.Scan.{is_push_only, is_pay_to_script_hash}

-- An empty stack is false.
unfoldable pub top_is_true : List Bytes → Bool
top_is_true [] = false
top_is_true (x ∷ s) = cast_to_bool x

-- The evaluation of the script that `stackCopy` has on its top; `none` is the undefined `back()`
-- of an empty vector.
unfoldable pub verify_subscript : Context → List Bytes → Option Bool
verify_subscript ctx [] = none
verify_subscript ctx (pub_key2 ∷ copy) =
    let (ok, stack) = eval_script ctx copy pub_key2 in
    some (if ok then top_is_true stack else false)

-- `copy` is the stack that `scriptSig` has left.
unfoldable pub verify_pub_key : Context → Bytes → Bytes → Bool → List Bytes → Option Bool
verify_pub_key ctx script_sig script_pub_key validate_p2sh copy =
    let (ok, stack) = eval_script ctx copy script_pub_key in
    if ok && top_is_true stack
    then (if validate_p2sh && is_pay_to_script_hash script_pub_key
        then (if is_push_only script_sig then verify_subscript ctx copy else some false)
        else some true)
    else some false

unfoldable pub verify_script : Context → Bytes → Bytes → Bool → Option Bool
verify_script ctx script_sig script_pub_key validate_p2sh =
    let (ok, copy) = eval_script ctx [] script_sig in
    if ok then verify_pub_key ctx script_sig script_pub_key validate_p2sh copy else some false
