-- ===== src/Signing/Combine/Kept.antt =====
-- Where one of two inputs for a key hash is signed, `CombineSignatures` gives that one back.
use build_env_jenkins.Common.{
  ℕ, suc, ◌==◌, ◌≤◌, ◌≡◌, refl, ap, Bytes, [], ◌∷◌, false, length, arith,
}
use build_env_jenkins.OpenSsl.{OpenSsl}
use build_env_jenkins.Transaction.{Transaction}
use build_env_jenkins.Script.Builder.{push_all}
use build_env_jenkins.Script.Builder.Length.{length-push_all_two}
use build_env_jenkins.Script.Solver.{key_id, set_destination}
use build_env_jenkins.Script.Solver.RoundTrip.{solver_key_id}
use build_env_jenkins.Script.Eval.Pushes.{eval_script-push_all}
use build_env_jenkins.Signing.Combine.{
  is_unsigned, combine_as, new_transaction, stack_of, combine_signatures,
}

stack_of-push_all :
    (ssl : OpenSsl) (now : ℕ) (sig pub_key : Bytes)
    → length sig ≤ 520
    → length pub_key ≤ 520
    → stack_of ssl now (push_all (sig ∷ pub_key ∷ [])) ≡ pub_key ∷ sig ∷ []
unfolding stack_of
stack_of-push_all ssl now sig pub_key hs hp =
    ap (λ r. r.1)
      (eval_script-push_all
        (record { ssl = ssl; tx = new_transaction now; n_in = 0; hash_type = 0 }) []
        (sig ∷ pub_key ∷ []) (omega (arith, length-push_all_two sig pub_key)) (hs, (hp, tt))
        (omega arith))

not_zero : (n : ℕ) → (suc n == 0) ≡ false
not_zero n = ground arith

-- For an output to a key hash of 20 bytes, of an input that pushes a signature that is not empty and
-- a key, of at most 520 bytes each, and any other input, the signed one is kept; and so it is where it
-- is the second and the first pushes an empty placeholder and the key.
pub combine_signatures-signed :
    (ssl : OpenSsl) (now : ℕ) (tx : Transaction) (n_in b : ℕ) (sig pub_key id other : Bytes)
    → length id ≡ 20
    → length (b ∷ sig) ≤ 520
    → length pub_key ≤ 520
    → (combine_signatures ssl now
          (set_destination (key_id id))
          tx
          n_in
          (push_all ((b ∷ sig) ∷ pub_key ∷ []))
          other
        ≡ push_all ((b ∷ sig) ∷ pub_key ∷ []))
      × (combine_signatures ssl now
            (set_destination (key_id id))
            tx
            n_in
            (push_all ([] ∷ pub_key ∷ []))
            (push_all ((b ∷ sig) ∷ pub_key ∷ []))
          ≡ push_all ((b ∷ sig) ∷ pub_key ∷ []))
unfolding combine_signatures combine_as is_unsigned
combine_signatures-signed ssl now tx n_in b sig pub_key id other h hs hp = (
  rw (combine_signatures, solver_key_id id h, stack_of-push_all ssl now (b ∷ sig) pub_key hs hp)
      (rw (not_zero (length sig)) refl),
  rw
      (
        combine_signatures,
        solver_key_id id h,
        stack_of-push_all ssl now [] pub_key (omega arith) hp,
        stack_of-push_all ssl now (b ∷ sig) pub_key hs hp,
      )
      refl,
)
