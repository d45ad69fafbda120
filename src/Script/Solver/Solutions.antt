-- ===== src/Script/Solver/Solutions.antt =====
-- A solution that names a key or a script is there where `Solver` returns true.
use build_env_jenkins.Common.{
  ◌≤◌, ◌≡◌, refl, subst, Bytes, List, [], ◌∷◌, Option, none, some, Bool, true, false, length, take,
  drop, if◌then◌else◌, arith, All,
}
use build_env_jenkins.Script.Scan.{is_pay_to_script_hash}
use build_env_jenkins.Script.Solver.{
  TxnOutType, nonstandard, pubkey, pubkeyhash, scripthash, multisig, null_data, at, match_ops,
  Solution, found_match, scan_templates, templates, solver,
}
use build_env_jenkins.Script.Solver.Growth.{adds_all, match_ops_grows}

-- The types whose solution is a key, its hash or the hash of a script have one.
abbrev pub IsNamed : TxnOutType → List Bytes → Type 0
IsNamed pubkey [] = ⊥
IsNamed pubkeyhash [] = ⊥
IsNamed scripthash [] = ⊥
IsNamed _ _ = Unit

abbrev AreNamed : Solution → Type 0
AreNamed (ok, t, sols) = IsNamed t sols

-- What a template adds is enough for its type.
abbrev IsEnough : TxnOutType × Bytes → Type 0
IsEnough (t, template) =
    (sols : List Bytes) → adds_all template ≤ length sols → AreNamed (found_match t sols)

found_match-AreNamed :
    (t : TxnOutType) (sols : List Bytes) → IsNamed t sols → AreNamed (found_match t sols)
unfolding found_match
found_match-AreNamed nonstandard sols h = tt
found_match-AreNamed pubkey sols h = h
found_match-AreNamed pubkeyhash sols h = h
found_match-AreNamed scripthash sols h = h
found_match-AreNamed multisig sols h = tt
found_match-AreNamed null_data sols h = tt

scan_templates-AreNamed :
    (ts : List (TxnOutType × Bytes)) (script : Bytes)
    → All IsEnough ts
    → AreNamed (scan_templates ts script)
unfolding scan_templates
scan_templates-AreNamed [] script h = tt
scan_templates-AreNamed ((t, template) ∷ ts) script h =
    by_match (match_ops template (at script) []) refl (scan_templates-AreNamed ts script h.1)
  where
    by_match :
        (o : Option (List Bytes))
        → match_ops template (at script) [] ≡ o
        → AreNamed (scan_templates ts script)
        → AreNamed (elim o as (λ x. Solution) [
          | none ↦ scan_templates ts script
          | some sols ↦ found_match t sols
        ])
    by_match none e rest = rest
    by_match (some sols) e rest =
        h.0 sols (omega (arith, match_ops_grows template (at script) [] {sols' = sols} e))

templates-IsEnough : All IsEnough templates
templates-IsEnough = (
  λ sols h. found_match-AreNamed pubkey sols (named sols (omega (arith, h))).0,
  (
    λ sols h. found_match-AreNamed pubkeyhash sols (named sols (omega (arith, h))).1,
    (
      λ sols h. found_match-AreNamed multisig sols tt,
      (λ sols h. found_match-AreNamed null_data sols tt, tt),
    ),
  ),
)
  where
    named : (sols : List Bytes) → 1 ≤ length sols → IsNamed pubkey sols × IsNamed pubkeyhash sols
    named [] h = absurd (omega arith)
    named (v ∷ sols) h = (tt, tt)

-- Of an output to a key, a key hash or a script hash `Solver` gives the key or the hash.
pub solver-IsNamed :
    (script : Bytes) {ok : Bool} {t : TxnOutType} {sols : List Bytes}
    → solver script ≡ (ok, t, sols)
    → IsNamed t sols
unfolding solver
solver-IsNamed script {ok} {t} {sols} e = subst AreNamed e (by_hash (is_pay_to_script_hash script))
  where
    by_hash :
        (b : Bool)
        → AreNamed (
            if b
            then (true, scripthash, take 20 (drop 2 script) ∷ [])
            else scan_templates templates script)
    by_hash true = tt
    by_hash false = scan_templates-AreNamed templates script templates-IsEnough
