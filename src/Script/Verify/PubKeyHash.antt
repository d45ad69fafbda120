-- ===== src/Script/Verify/PubKeyHash.antt =====
-- Spending a pay-to-pubkey-hash output.
use build_env_jenkins.Common.{
  ℕ, ◌+◌, ◌≤◌, ◌≡◌, ◌∙◌, refl, Bytes, List, [], ◌∷◌, ◌++◌, Bool, true, false, Option, some, length,
  if◌then◌else◌, ◌&&◌, arith, bytes_eq, length-append, le→ltb,
}
use build_env_jenkins.Script.Opcode.{op_dup, op_hash160, op_equalverify, op_checksig}
use build_env_jenkins.Script.Builder.{push_data, push_all}
use build_env_jenkins.Script.Builder.Length.{length-push_all_two}
use build_env_jenkins.Script.FindAndDelete.{find_and_delete}
use build_env_jenkins.Script.SigHash.{hash160}
use build_env_jenkins.Script.Cast.{cast_to_bool}
use build_env_jenkins.Script.Walk.{run}
use build_env_jenkins.Script.Walk.Laws.{run-nil, continue}
use build_env_jenkins.Script.Machine.{Machine, Context, Verdict, vch_bool, vch_false, conclude}
use build_env_jenkins.Script.Ops.Stack.{dup, equal, equal_from}
use build_env_jenkins.Script.Ops.Crypto.{
  hash_op, hash_from, digest, check, check_sig_op, check_sig_from,
}
use build_env_jenkins.Script.Switch.{switch}
use build_env_jenkins.Script.Eval.{limit_size, eval_loop, eval_end, eval_script, all_true}
use build_env_jenkins.Script.Eval.Steps.{run-opcode, run-push_data}
use build_env_jenkins.Script.Eval.Pushes.{eval_script-push_all}
use build_env_jenkins.Script.Scan.{is_pay_to_script_hash}
use build_env_jenkins.Script.Solver.{key_id, set_destination}
use build_env_jenkins.Script.Verify.{top_is_true, verify_pub_key, verify_script}

-- The rest of the script once the public key has been hashed.
abbrev after_hash : Bytes → Bytes
after_hash id = push_data id ++ op_equalverify ∷ op_checksig ∷ []

-- An identifier of 20 bytes is pushed as its size and its bytes.
set_destination-push :
    (id : Bytes)
    → length id ≡ 20
    → set_destination (key_id id) ≡ op_dup ∷ op_hash160 ∷ after_hash id
unfolding set_destination push_data
set_destination-push id h = rw h

module _ (ctx : Context) (code pub_key sig : Bytes) where
  -- The state after some operations of the script.
  abbrev state : List Bytes → ℕ → Machine
  state stack ops = record {
    stack = stack;
    alt_stack = [];
    vf_exec = [];
    op_count = ops;
    code = code;
  }

  run-dup :
      (rest : Bytes)
      → run (eval_loop ctx) (op_dup ∷ rest) (state (pub_key ∷ sig ∷ []) 0)
        ≡ run (eval_loop ctx) rest (state (pub_key ∷ pub_key ∷ sig ∷ []) 1)
  unfolding switch limit_size dup all_true
  run-dup rest =
      run-opcode ctx op_dup rest (state (pub_key ∷ sig ∷ []) 0) (omega arith) refl refl
        (omega arith)

  run-hash160 :
      (rest : Bytes)
      → run (eval_loop ctx) (op_hash160 ∷ rest) (state (pub_key ∷ pub_key ∷ sig ∷ []) 1)
        ≡ run (eval_loop ctx) rest (state (hash160 ctx.ssl pub_key ∷ pub_key ∷ sig ∷ []) 2)
  unfolding switch limit_size hash_op hash_from digest all_true
  run-hash160 rest =
      run-opcode ctx op_hash160 rest (state (pub_key ∷ pub_key ∷ sig ∷ []) 1) (omega arith) refl
        refl (omega arith)

  run-id :
      (id hashed rest : Bytes)
      → length id ≡ 20
      → run (eval_loop ctx) (push_data id ++ rest) (state (hashed ∷ pub_key ∷ sig ∷ []) 2)
        ≡ run (eval_loop ctx) rest (state (id ∷ hashed ∷ pub_key ∷ sig ∷ []) 2)
  unfolding all_true
  run-id id hashed rest h =
      run-push_data ctx id rest (state (hashed ∷ pub_key ∷ sig ∷ []) 2)
        (record { executed = refl; small = omega arith; room = omega arith })

  -- `CheckSig` as the script calls it: without the signature in the script that is hashed.
  abbrev pub signs : Bool
  signs = check ctx (find_and_delete (push_data sig) code).0 sig pub_key

  run-checksig :
      run (eval_loop ctx) (op_checksig ∷ []) (state (pub_key ∷ sig ∷ []) 3)
      ≡ (true, vch_bool signs ∷ [])
  unfolding switch limit_size check_sig_op check_sig_from eval_end all_true
  run-checksig =
      run-opcode ctx op_checksig [] (state (pub_key ∷ sig ∷ []) 3) (omega arith) refl refl
        (omega arith)
      ∙ run-nil (eval_loop ctx) (state (vch_bool signs ∷ []) 4)

  -- `OP_EQUALVERIFY`, by whether the hashes are equal.
  abbrev compared : Bool → Verdict
  compared true = (true, vch_bool signs ∷ [])
  compared false = (false, vch_false ∷ pub_key ∷ sig ∷ [])

  after_compare :
      (before : List Bytes) (same : Bool)
      → continue
          (eval_loop ctx)
          (op_checksig ∷ [])
          (limit_size (conclude true same (state before 3) (pub_key ∷ sig ∷ [])))
        ≡ compared same
  unfolding limit_size
  after_compare before true = run-checksig
  after_compare before false = refl

  run-equalverify :
      (id hashed : Bytes)
      → run
          (eval_loop ctx)
          (op_equalverify ∷ op_checksig ∷ [])
          (state (id ∷ hashed ∷ pub_key ∷ sig ∷ []) 2)
        ≡ compared (bytes_eq hashed id)
  unfolding switch equal equal_from all_true
  run-equalverify id hashed =
      run-opcode ctx op_equalverify (op_checksig ∷ []) (state (id ∷ hashed ∷ pub_key ∷ sig ∷ []) 2)
        (omega arith) refl refl (omega arith)
      ∙ after_compare (id ∷ hashed ∷ pub_key ∷ sig ∷ []) (bytes_eq hashed id)

  -- The whole script on the two values that the input has pushed.
  run-pay_to_pub_key_hash :
      (id : Bytes)
      → length id ≡ 20
      → run (eval_loop ctx) (set_destination (key_id id)) (state (pub_key ∷ sig ∷ []) 0)
        ≡ compared (bytes_eq (hash160 ctx.ssl pub_key) id)
  run-pay_to_pub_key_hash id h = rw (set_destination-push id h) (
      run-dup (op_hash160 ∷ after_hash id)
      ∙ run-hash160 (after_hash id)
      ∙ run-id id (hash160 ctx.ssl pub_key) (op_equalverify ∷ op_checksig ∷ []) h
      ∙ run-equalverify id (hash160 ctx.ssl pub_key))

  accepts_compared :
      (same : Bool) → ((compared same).0 && top_is_true (compared same).1) ≡ (same && signs)
  unfolding top_is_true cast_to_bool
  accepts_compared true = accepts signs
    where
      accepts : (b : Bool) → cast_to_bool (vch_bool b) ≡ b
      accepts true = refl
      accepts false = refl
  accepts_compared false = refl

length-set_destination : (id : Bytes) → length (set_destination (key_id id)) ≡ length id + 5
unfolding set_destination
length-set_destination id = omega (arith, length-append id (op_equalverify ∷ op_checksig ∷ []))

not_script_hash : (id : Bytes) → is_pay_to_script_hash (set_destination (key_id id)) ≡ false
unfolding is_pay_to_script_hash set_destination
not_script_hash id = ground arith

eval_pay_to_pub_key_hash :
    (ctx : Context) (pub_key sig id : Bytes)
    → length id ≡ 20
    → eval_script ctx (pub_key ∷ sig ∷ []) (set_destination (key_id id))
      ≡ compared ctx
          (set_destination (key_id id))
          pub_key
          sig
          (bytes_eq (hash160 ctx.ssl pub_key) id)
unfolding eval_script
eval_pay_to_pub_key_hash ctx pub_key sig id h =
    rw
      (le→ltb 10000 (length (set_destination (key_id id)))
        (omega (arith, length-set_destination id)))
      (run-pay_to_pub_key_hash ctx (set_destination (key_id id)) pub_key sig id h)

eval_two_pushes :
    (ctx : Context) (pub_key sig : Bytes)
    → length pub_key ≤ 520
    → length sig ≤ 520
    → eval_script ctx [] (push_all (sig ∷ pub_key ∷ [])) ≡ (true, pub_key ∷ sig ∷ [])
eval_two_pushes ctx pub_key sig hp hs =
    eval_script-push_all ctx [] (sig ∷ pub_key ∷ [])
      (omega (arith, length-push_all_two sig pub_key)) (hs, (hp, tt)) (omega arith)

answer :
    (b validate_p2sh : Bool) (p2sh : Option Bool)
    → ◌≡◌ {A = Option Bool}
        (if b then (if validate_p2sh && false then p2sh else some true) else some false)
        (some b)
answer true true p2sh = refl
answer true false p2sh = refl
answer false v p2sh = refl

-- An output to a key's hash of 20 bytes is spent by a signature and a public key, of at most 520
-- bytes each, exactly when the key has that hash and `CheckSig` accepts the signature, with or
-- without pay-to-script-hash.
pub verify_pub_key_hash :
    (ctx : Context) (pub_key sig id : Bytes) (validate_p2sh : Bool)
    → length pub_key ≤ 520
    → length sig ≤ 520
    → length id ≡ 20
    → verify_script ctx (push_all (sig ∷ pub_key ∷ [])) (set_destination (key_id id)) validate_p2sh
      ≡ some (
          bytes_eq (hash160 ctx.ssl pub_key) id
          && check ctx
              (find_and_delete (push_data sig) (set_destination (key_id id))).0
              sig
              pub_key)
unfolding verify_script verify_pub_key
verify_pub_key_hash ctx pub_key sig id validate_p2sh hp hs hi =
    rw
      (
        eval_two_pushes ctx pub_key sig hp hs,
        eval_pay_to_pub_key_hash ctx pub_key sig id hi,
        accepts_compared ctx (set_destination (key_id id)) pub_key sig
            (bytes_eq (hash160 ctx.ssl pub_key) id),
        not_script_hash id,
      )
      (answer _ validate_p2sh _)
