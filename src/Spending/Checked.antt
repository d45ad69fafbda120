-- ===== src/Spending/Checked.antt =====
-- What the second loop of `ConnectInputs` has checked of an input.
use build_env_jenkins.Common.{
  ℕ, suc, ◌≡◌, ◌∙◌, ◌⊎◌, refl, sym, ap, List, [], ◌∷◌, Bool, true, false, Option, none, some,
  some-injective, get_or, lookup, if◌then◌else◌, inl, inr,
}
use build_env_jenkins.Transaction.{TxIn, Transaction}
use build_env_jenkins.Spending.{
  null_pos, is_null_pos, TxIndex, key_of, PrevTxs, Progress, done, rejected, aborted,
  verify_signature,
}
use build_env_jenkins.Spending.Connect.{Environment, skips_signatures, check_signature, check_input}
use build_env_jenkins.Spending.Tally.{guard_done, not-false}

abbrev pub Entry : Type 0
Entry = TxIndex × Transaction

pub entry_injective :
    {a c : TxIndex} {b d : Transaction} (o : Option Entry)
    → o ≡ some (a, b)
    → o ≡ some (c, d)
    → (a ≡ c) × (b ≡ d)
entry_injective {a} {c} {b} {d} o e k = (ap (λ p. p.0) same, ap (λ p. p.1) same)
  where
    same : ◌≡◌ {A = Entry} (a, b) (c, d)
    same = some-injective _ _ (sym e ∙ k)

module _ (env : Environment) (tx : Transaction) where
  -- What the second loop has checked of input `n_in`, on the inputs as they were.
  pub record IsChecked (prevs : PrevTxs) (n_in : ℕ) (i : TxIn) : Type 0 where
    pub index : TxIndex
    pub prev : Transaction
    pub known : lookup (key_of i.prevout.hash) prevs ≡ some (index, prev)
    pub unspent : is_null_pos (get_or index.v_spent i.prevout.n null_pos) ≡ true
    pub signed :
        (skips_signatures env ≡ true)
        ⊎ (verify_signature env.ssl prev tx n_in i env.strict_p2sh ≡ some true)

  abbrev pub AreChecked : PrevTxs → ℕ → List TxIn → Type 0
  AreChecked prevs n_in [] = Unit
  AreChecked prevs n_in (i ∷ ins) = IsChecked prevs n_in i × AreChecked prevs (suc n_in) ins

  check_signature-done :
      (n_in : ℕ) (i : TxIn) (prev : Transaction)
      → check_signature env tx n_in i prev ≡ done tt
      → verify_signature env.ssl prev tx n_in i env.strict_p2sh ≡ some true
  unfolding check_signature
  check_signature-done n_in i prev e =
      by_result (verify_signature env.ssl prev tx n_in i env.strict_p2sh)
        (verify_signature env.ssl prev tx n_in i false) env.strict_p2sh e
    where
      by_result :
          (o o' : Option Bool) (strict : Bool)
          → (elim o as (λ x. Progress Unit) [
            | none ↦ aborted
            | some true ↦ done tt
            | some false ↦
                if strict
                then elim o' as (λ x. Progress Unit) [
                  | none ↦ aborted
                  | some true ↦ rejected 0
                  | some false ↦ rejected 100
                ]
                else rejected 100
          ])
            ≡ done tt
          → o ≡ some true
      by_result none o' strict e = cc e
      by_result (some true) o' strict e = refl
      by_result (some false) o' false e = cc e
      by_result (some false) none true e = cc e
      by_result (some false) (some true) true e = cc e
      by_result (some false) (some false) true e = cc e

  pub check_input-done :
      (prevs : PrevTxs) (n_in : ℕ) (i : TxIn) (index : TxIndex) (prev : Transaction)
      → lookup (key_of i.prevout.hash) prevs ≡ some (index, prev)
      → check_input env tx n_in i (index, prev) ≡ done tt
      → IsChecked prevs n_in i
  unfolding check_input
  check_input-done prevs n_in i index prev known e =
      let (unspent, e1) = guard_done _ 0 e in
      record {
        index = index;
        prev = prev;
        known = known;
        unspent = not-false _ unspent;
        signed = by_skip (skips_signatures env) refl e1;
      }
    where
      by_skip :
          (skips : Bool)
          → skips_signatures env ≡ skips
          → (if skips then done tt else check_signature env tx n_in i prev) ≡ done tt
          → (skips_signatures env ≡ true)
            ⊎ (verify_signature env.ssl prev tx n_in i env.strict_p2sh ≡ some true)
      by_skip true k e = inl k
      by_skip false k e = inr (check_signature-done n_in i prev e)
