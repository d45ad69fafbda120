-- ===== src/Script/Solver/RoundTrip.antt =====
-- Destinations are read back from the scripts that are made for them.
use build_env_jenkins.Common.{
  ℕ, ◌<◌, ◌≡◌, ◌∙◌, refl, subst, Bytes, List, [], ◌∷◌, ◌++◌, true, false, none, some, length, take,
  get_or, ◌==◌, arith, length-append, take-append_left, lt→ltb,
}
use build_env_jenkins.OpenSsl.{OpenSsl}
use build_env_jenkins.Script.Opcode.{
  op_dup, op_hash160, op_equal, op_equalverify, op_checksig, op_pubkey, op_pubkeyhash, op_pubkeys,
  op_pushdata4, op_smalldata,
}
use build_env_jenkins.Script.Builder.{push_data}
use build_env_jenkins.Script.GetOp.{fetched, get_op}
use build_env_jenkins.Script.GetOp.RoundTrip.{get_op-push_data}
use build_env_jenkins.Script.Eval.Steps.{get_op-opcode}
use build_env_jenkins.Script.Scan.{is_pay_to_script_hash}
use build_env_jenkins.Script.Solver.{
  TxnOutType, pubkey, pubkeyhash, at, match_op, match_ops, found_match, scan_templates, solver,
  key_id, script_id, destination_of, extract_destination, set_destination,
}

get_or-append : (xs : Bytes) (y : ℕ) (ys : Bytes) → get_or (xs ++ y ∷ ys) (length xs) 0 ≡ y
get_or-append [] y ys = refl
get_or-append (x ∷ xs) y ys = get_or-append xs y ys

pub script_hash_form :
    (id : Bytes)
    → length id ≡ 20
    → is_pay_to_script_hash (op_hash160 ∷ 20 ∷ (id ++ op_equal ∷ [])) ≡ true
unfolding is_pay_to_script_hash
script_hash_form id h = ground (
  arith,
  length-append id (op_equal ∷ []),
  subst (λ n. get_or (id ++ op_equal ∷ []) n 0 ≡ op_equal) h (get_or-append id op_equal []),
)

first_20 : (id rest : Bytes) → length id ≡ 20 → take 20 (id ++ rest) ≡ id
first_20 id rest h = subst (λ n. take n (id ++ rest) ≡ id) h (take-append_left id rest)

-- The destination of a script hash survives the script that is made for it.
extract_script_id :
    (ssl : OpenSsl) (id : Bytes)
    → length id ≡ 20
    → extract_destination ssl (set_destination (script_id id)) ≡ some (script_id id)
unfolding extract_destination solver destination_of set_destination
extract_script_id ssl id h = rw (script_hash_form id h, first_20 id (op_equal ∷ []) h)

-- One instruction of a template, where the script has one that it matches.
match_step :
    (t : ℕ) (ts pc : Bytes) (sols : List Bytes) {opcode : ℕ} {pushed rest : Bytes}
    {sols' : List Bytes}
    → (t == op_pubkeys) ≡ false
    → get_op pc ≡ fetched opcode pushed rest
    → match_op t opcode pushed sols ≡ some sols'
    → match_ops (t ∷ ts) (at pc) sols ≡ match_ops ts (at rest) sols'
unfolding match_ops
match_step t ts pc sols plain e m = rw (e, match_ops, plain, m)

-- One instruction of a template that the script does not match.
match_fail :
    (t : ℕ) (ts pc : Bytes) (sols : List Bytes) {opcode : ℕ} {pushed rest : Bytes}
    → (t == op_pubkeys) ≡ false
    → get_op pc ≡ fetched opcode pushed rest
    → match_op t opcode pushed sols ≡ none
    → match_ops (t ∷ ts) (at pc) sols ≡ none
unfolding match_ops
match_fail t ts pc sols plain e m = rw (e, match_ops, plain, m)

matches_itself : (t : ℕ) (sols : List Bytes) → t < op_smalldata → match_op t t [] sols ≡ some sols
unfolding match_op
matches_itself t sols below = ground arith

-- An opcode of a template that stands for itself.
match_same :
    (t : ℕ) (ts rest : Bytes) (sols : List Bytes)
    → op_pushdata4 < t
    → t < op_smalldata
    → match_ops (t ∷ ts) (at (t ∷ rest)) sols ≡ match_ops ts (at rest) sols
match_same t ts rest sols above below =
    match_step t ts (t ∷ rest) sols (ground arith) (get_op-opcode t rest above)
      (matches_itself t sols below)

end_of_template : (sols : List Bytes) → match_ops [] (at []) sols ≡ some sols
unfolding match_ops
end_of_template sols = refl

-- An identifier of 20 bytes is a push of 20 bytes.
direct :
    (id rest : Bytes)
    → length id < 76
    → get_op (length id ∷ (id ++ rest)) ≡ fetched (length id) id rest
unfolding push_data
direct id rest h = rw (lt→ltb (length id) 76 h) at (get_op-push_data id rest (omega arith))

pub read_id : (id rest : Bytes) → length id ≡ 20 → get_op (20 ∷ (id ++ rest)) ≡ fetched 20 id rest
read_id id rest h =
    subst (λ n. get_op (n ∷ (id ++ rest)) ≡ fetched n id rest) h (direct id rest (omega arith))

take_id : (id : Bytes) → length id ≡ 20 → match_op op_pubkeyhash 20 id [] ≡ some (id ∷ [])
unfolding match_op
take_id id h = rw h

not_script_hash : (id : Bytes) → is_pay_to_script_hash (set_destination (key_id id)) ≡ false
unfolding is_pay_to_script_hash set_destination
not_script_hash id = ground arith

not_pubkey :
    (id : Bytes)
    → match_ops (op_pubkey ∷ op_checksig ∷ []) (at (set_destination (key_id id))) [] ≡ none
unfolding set_destination match_op
not_pubkey id =
    match_fail op_pubkey (op_checksig ∷ []) (set_destination (key_id id)) [] refl
      (get_op-opcode op_dup _ (omega arith)) refl

key_hash_matches :
    (id : Bytes)
    → length id ≡ 20
    → match_ops
        (op_dup ∷ op_hash160 ∷ op_pubkeyhash ∷ op_equalverify ∷ op_checksig ∷ [])
        (at (set_destination (key_id id)))
        []
      ≡ some (id ∷ [])
unfolding set_destination
key_hash_matches id h =
    match_same op_dup _ _ [] (omega arith) (omega arith)
    ∙ match_same op_hash160 _ _ [] (omega arith) (omega arith)
    ∙ match_step op_pubkeyhash (op_equalverify ∷ op_checksig ∷ [])
        (20 ∷ (id ++ op_equalverify ∷ op_checksig ∷ [])) [] refl (read_id id _ h) (take_id id h)
    ∙ match_same op_equalverify _ _ (id ∷ []) (omega arith) (omega arith)
    ∙ match_same op_checksig [] [] (id ∷ []) (omega arith) (omega arith)
    ∙ end_of_template (id ∷ [])

scan_skip :
    (t : TxnOutType) (template : Bytes) (ts : List (TxnOutType × Bytes)) (script : Bytes)
    → match_ops template (at script) [] ≡ none
    → scan_templates ((t, template) ∷ ts) script ≡ scan_templates ts script
unfolding scan_templates
scan_skip t template ts script e = rw (e, scan_templates)

scan_hit :
    (t : TxnOutType) (template : Bytes) (ts : List (TxnOutType × Bytes)) (script : Bytes)
    {sols : List Bytes}
    → match_ops template (at script) [] ≡ some sols
    → scan_templates ((t, template) ∷ ts) script ≡ found_match t sols
unfolding scan_templates
scan_hit t template ts script e = rw (e, scan_templates)

-- The script for a key's hash of 20 bytes is recognised, with the hash as its solution.
pub solver_key_id :
    (id : Bytes)
    → length id ≡ 20
    → solver (set_destination (key_id id)) ≡ (true, pubkeyhash, id ∷ [])
unfolding solver found_match
solver_key_id id h = rw (not_script_hash id) (
    scan_skip pubkey _ _ (set_destination (key_id id)) (not_pubkey id)
    ∙ scan_hit pubkeyhash _ _ (set_destination (key_id id)) (key_hash_matches id h))

-- Both kinds of destination, of 20 bytes, are read back from the script that `SetDestination` makes for them.
pub extract_set_destination :
    (ssl : OpenSsl) (id : Bytes)
    → length id ≡ 20
    → (extract_destination ssl (set_destination (key_id id)) ≡ some (key_id id))
      × (extract_destination ssl (set_destination (script_id id)) ≡ some (script_id id))
unfolding extract_destination destination_of
extract_set_destination ssl id h = (rw (solver_key_id id h), extract_script_id ssl id h)
