-- ===== src/Signing/Mine/Decides.antt =====
-- Which outputs are mine: what `IsMine` decides, through the script hashes of the store.
use build_env_jenkins.Common.{
  ℕ, zero, suc, ◌≤◌, ◌≡◌, ◌∙◌, ◌↔◌, refl, sym, ap, ap₂, subst, some-injective, Bytes, List, [], ◌∷◌,
  Bool, true, false, Option, none, some, length, from_le, ◌==◌, ==_iff, Bool-cases, inl, inr,
  if◌then◌else◌, arith, All,
}
use build_env_jenkins.OpenSsl.{OpenSsl}
use build_env_jenkins.KeyStore.{get_id, KeyStore, have_key, get_script}
use build_env_jenkins.Script.Solver.{
  TxnOutType, nonstandard, pubkey, pubkeyhash, scripthash, multisig, null_data, solver, Solution,
}
use build_env_jenkins.Script.Solver.Solutions.{IsNamed, solver-IsNamed}
use build_env_jenkins.Signing.{keys_of}
use build_env_jenkins.Signing.Mine.{by_script, have_keys, mine_as, is_mine}

abbrev answer : TxnOutType → List Bytes → Solution
answer t sols = (true, t, sols)

module _ (ssl : OpenSsl) (store : KeyStore) where
  -- A script from which at most `n` scripts are reached, itself included: each script hash names a
  -- script of the store, or none.
  abbrev pub Ends : ℕ → Bytes → Type 0
  Ends zero script = ⊥
  Ends (suc n) script =
      (v : Bytes) (sols : List Bytes) (subscript : Bytes)
      → solver script ≡ (true, scripthash, v ∷ sols)
      → get_script (from_le v) store ≡ some subscript
      → Ends n subscript

  -- The store has the key.
  abbrev pub Holds : ℕ → Type 0
  Holds id = have_key id store ≡ true

  -- An output is mine where the store has its key, the key of its hash, all its keys, or the script
  -- of its hash, which is mine.
  pub data Mine : Bytes → Type 0 where
    by_key :
        {script v : Bytes} {sols : List Bytes}
        → solver script ≡ (true, pubkey, v ∷ sols)
        → Holds (get_id ssl v)
        → Mine script
    by_key_hash :
        {script v : Bytes} {sols : List Bytes}
        → solver script ≡ (true, pubkeyhash, v ∷ sols)
        → Holds (from_le v)
        → Mine script
    by_all_keys :
        {script : Bytes} {sols : List Bytes}
        → solver script ≡ (true, multisig, sols)
        → All (λ k. Holds (get_id ssl k)) (keys_of sols)
        → Mine script
    by_script_hash :
        {script v subscript : Bytes} {sols : List Bytes}
        → solver script ≡ (true, scripthash, v ∷ sols)
        → get_script (from_le v) store ≡ some subscript
        → Mine subscript
        → Mine script

  have_keys_le : (keys : List Bytes) → have_keys ssl keys store ≤ length keys
  unfolding have_keys
  have_keys_le [] = omega arith
  have_keys_le (k ∷ keys) = elim (Bool-cases (have_key (get_id ssl k) store)) [
    | inl has ↦ rw has (omega (arith, have_keys_le keys))
    | inr lacks ↦ rw lacks (omega (arith, have_keys_le keys))
  ]

  have_keys-All :
      (keys : List Bytes)
      → have_keys ssl keys store ≡ length keys
      → All (λ k. Holds (get_id ssl k)) keys
  unfolding have_keys
  have_keys-All [] e = tt
  have_keys-All (k ∷ keys) e = elim (Bool-cases (have_key (get_id ssl k) store)) [
    | inl has ↦ (has, have_keys-All keys (omega (arith, rw has at e)))
    | inr lacks ↦ absurd (omega (arith, rw lacks at e, have_keys_le keys))
  ]

  All-have_keys :
      (keys : List Bytes)
      → All (λ k. Holds (get_id ssl k)) keys
      → have_keys ssl keys store ≡ length keys
  unfolding have_keys
  All-have_keys [] h = refl
  All-have_keys (k ∷ keys) h = rw h.0 (ap suc (All-have_keys keys h.1))

  -- What makes an output mine, by its solution.
  abbrev Owned : Solution → Type 0
  Owned (true, pubkey, v ∷ sols) = Holds (get_id ssl v)
  Owned (true, pubkeyhash, v ∷ sols) = Holds (from_le v)
  Owned (true, multisig, sols) = All (λ k. Holds (get_id ssl k)) (keys_of sols)
  Owned (true, scripthash, v ∷ sols) =
      (subscript : Bytes) × (get_script (from_le v) store ≡ some subscript) × Mine subscript
  Owned _ = ⊥

  Mine→Owned : {script : Bytes} → Mine script → Owned (solver script)
  Mine→Owned (by_key e h) = subst Owned (sym e) h
  Mine→Owned (by_key_hash e h) = subst Owned (sym e) h
  Mine→Owned (by_all_keys e h) = subst Owned (sym e) h
  Mine→Owned (by_script_hash {subscript = subscript} e known h) =
      subst Owned (sym e) (subscript, known, h)

  Owned→Mine : {script : Bytes} (r : Solution) → solver script ≡ r → Owned r → Mine script
  Owned→Mine (false, t, sols) e h = absurd h
  Owned→Mine (true, nonstandard, sols) e h = absurd h
  Owned→Mine (true, null_data, sols) e h = absurd h
  Owned→Mine (true, pubkey, []) e h = absurd h
  Owned→Mine (true, pubkey, v ∷ sols) e h = by_key e h
  Owned→Mine (true, pubkeyhash, []) e h = absurd h
  Owned→Mine (true, pubkeyhash, v ∷ sols) e h = by_key_hash e h
  Owned→Mine (true, scripthash, []) e h = absurd h
  Owned→Mine (true, scripthash, v ∷ sols) e h = by_script_hash e h.1 h.2
  Owned→Mine (true, multisig, sols) e h = by_all_keys e h

  -- A result that is there and is true where the proposition holds.
  abbrev Decides : Option Bool → Type 0 → Type 0
  Decides o p = (b : Bool) × (o ≡ some b) × ((b ≡ true) ↔ p)

  refuses : {p : Type 0} → (p → ⊥) → Decides (some false) p
  refuses never = (false, refl, ((λ e. cc e), (λ h. absurd (never h))))

  tests : (b : Bool) → Decides (some b) (b ≡ true)
  tests b = (b, refl, ((λ e. e), (λ e. e)))

  mine_as-Decides :
      (mine : Bytes → Option Bool) (t : TxnOutType) (sols : List Bytes)
      → IsNamed t sols
      → ((v : Bytes) (rest : List Bytes) (subscript : Bytes)
          → t ≡ scripthash
          → sols ≡ v ∷ rest
          → get_script (from_le v) store ≡ some subscript
          → Decides (mine subscript) (Mine subscript))
      → Decides (mine_as ssl store mine t sols) (Owned (true, t, sols))
  unfolding mine_as
  mine_as-Decides mine nonstandard sols named sub = refuses (λ h. h)
  mine_as-Decides mine null_data sols named sub = refuses (λ h. h)
  mine_as-Decides mine pubkey [] named sub = absurd named
  mine_as-Decides mine pubkey (v ∷ sols) named sub = tests _
  mine_as-Decides mine pubkeyhash [] named sub = absurd named
  mine_as-Decides mine pubkeyhash (v ∷ sols) named sub = tests _
  mine_as-Decides mine multisig sols named sub = (
    have_keys ssl (keys_of sols) store == length (keys_of sols),
    refl,
    (
      (λ e. have_keys-All (keys_of sols) ((==_iff _ _).0 e)),
      (λ h. (==_iff _ _).1 (All-have_keys (keys_of sols) h)),
    ),
  )
  mine_as-Decides mine scripthash [] named sub = absurd named
  mine_as-Decides mine scripthash (v ∷ sols) named sub =
      by_found (get_script (from_le v) store) refl
    where
      by_found :
          (o : Option Bytes)
          → get_script (from_le v) store ≡ o
          → Decides (by_script mine o) (
              (subscript : Bytes) × (get_script (from_le v) store ≡ some subscript)
              × Mine subscript)
      by_found none e = refuses (λ h. cc (e, h.1))
      by_found (some subscript) e =
          let d = sub v sols subscript refl refl e in
          (
            d.0,
            d.1,
            (
              (λ b. (subscript, e, d.2.0 b)),
              (λ h. d.2.1 (subst Mine (some-injective _ _ (sym h.1 ∙ e)) h.2)),
            ),
          )

  -- Where the script hashes from the script on lead through at most `n` scripts, itself included, and
  -- the fuel is not less, `IsMine` has a result, and it is true exactly where the output is mine: where
  -- the store has its key, the key of its hash, all its keys, or the script of its hash, which is mine
  -- in turn.
  pub is_mine_decides :
      (n fuel : ℕ) (script : Bytes)
      → n ≤ fuel
      → Ends n script
      → (b : Bool) × (is_mine ssl store fuel script ≡ some b) × ((b ≡ true) ↔ Mine script)
  unfolding is_mine
  is_mine_decides zero fuel script le ends = absurd ends
  is_mine_decides (suc n) zero script le ends = absurd (omega (arith, le))
  is_mine_decides (suc n) (suc fuel) script le ends =
      by_solution (solver script) refl
        (λ subscript h. is_mine_decides n fuel subscript (omega (arith, le)) h)
    where
      over :
          {o : Option Bool} (r : Solution)
          → solver script ≡ r
          → Decides o (Owned r)
          → Decides o (Mine script)
      over r e d =
          (d.0, d.1, ((λ b. Owned→Mine r e (d.2.0 b)), (λ h. d.2.1 (subst Owned e (Mine→Owned h)))))

      by_solution :
          (r : Solution)
          → solver script ≡ r
          → ((subscript : Bytes)
              → Ends n subscript
              → Decides (is_mine ssl store fuel subscript) (Mine subscript))
          → Decides
              (if r.0 then mine_as ssl store (is_mine ssl store fuel) r.1 r.2 else some false)
              (Mine script)
      by_solution (false, t, sols) e rest = over (false, t, sols) e (refuses (λ h. h))
      by_solution (true, t, sols) e rest =
          over (true, t, sols) e
            (mine_as-Decides (is_mine ssl store fuel) t sols (solver-IsNamed script e)
              (λ v vs subscript is_hash is_first found. rest subscript (
                ends v vs subscript
                  (e ∙ ap₂ (λ (x : TxnOutType) (ys : List Bytes). answer x ys) is_hash is_first)
                  found)))
