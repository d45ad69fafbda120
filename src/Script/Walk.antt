-- ===== src/Script/Walk.antt =====
-- The loop `while (pc < end()) { if (!GetOp(pc, opcode, data)) ...; ... }`, which the script code
-- repeats: its body once, with what each use does in its place.
pub mod Laws
pub mod Simulation
use build_env_jenkins.Common.{ℕ, zero, suc, Bytes, [], ◌∷◌, length}
use build_env_jenkins.Script.GetOp.{fetched, refused, get_op}

-- One turn goes on with a new state, or returns from the loop.
pub data Turn (S R : Type 0) : Type 0 where
  go : S → Turn S R
  halt : R → Turn S R

-- `step opcode data rest` is the rest of the body, `bad` the exit when `GetOp` fails, and
-- `finish` the exit at the end of the script.
pub record Loop (S R : Type 0) : Type 0 where
  pub step : ℕ → Bytes → Bytes → S → Turn S R
  pub bad : S → R
  pub finish : S → R

-- The body, over what follows it.
abbrev pub walk_body : {S R : Type 0} → Loop S R → (Bytes → S → R) → Bytes → S → R
walk_body l next [] s = l.finish s
walk_body l next (c ∷ pc) s = elim (get_op (c ∷ pc)) [
  | refused _ ↦ l.bad s
  | fetched opcode b rest ↦ elim (l.step opcode b rest s) [ go s' ↦ next rest s' | halt r ↦ r ]
]

-- With fuel. Each turn reads a byte at least, so that `run` gives enough.
pub walk : {S R : Type 0} → Loop S R → ℕ → Bytes → S → R
walk l zero pc s = l.bad s
walk l (suc fuel) pc s = walk_body l (walk l fuel) pc s

unfoldable pub run : {S R : Type 0} → Loop S R → Bytes → S → R
unfolding walk
run l pc s = walk l (suc (length pc)) pc s
