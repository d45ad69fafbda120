-- ===== src/Script/Walk/Simulation.antt =====
-- Two loops over one script that stay in step.
use build_env_jenkins.Common.{ℕ, zero, suc, ◌<◌, Bytes, [], ◌∷◌, length, arith}
use build_env_jenkins.Script.GetOp.{Fetch, fetched, refused, get_op}
use build_env_jenkins.Script.GetOp.Shrinks.{LeavesAtMost, get_op-LeavesAtMost}
use build_env_jenkins.Script.Walk.{Turn, go, halt, Loop, walk, run}

-- `P` relates the states by how many bytes are left, and `Q` the results.
module _ {S T R U : Type 0} (l : Loop S R) (k : Loop T U) (P : ℕ → S → T → Type 0)
    (Q : R → U → Type 0) where
  abbrev pub InStep : ℕ → Turn S R → Turn T U → Type 0
  InStep n (go s) (go t) = P n s t
  InStep n (halt r) (halt u) = Q r u
  InStep n _ _ = ⊥

  -- What the bodies of the two loops keep.
  pub record Simulates : Type 0 where
    pub step :
        (opcode : ℕ) (b rest : Bytes) (n : ℕ) (s : S) (t : T)
        → length rest < n
        → P n s t
        → InStep (length rest) (l.step opcode b rest s) (k.step opcode b rest t)
    pub bad : (n : ℕ) (s : S) (t : T) → P n s t → Q (l.bad s) (k.bad t)
    pub finish : (n : ℕ) (s : S) (t : T) → P n s t → Q (l.finish s) (k.finish t)

  walk_sim :
      Simulates
      → (fuel : ℕ) (pc : Bytes) (s : S) (t : T) → P (length pc) s t
      → Q (walk l fuel pc s) (walk k fuel pc t)
  unfolding walk
  walk_sim sim zero pc s t p = sim.bad (length pc) s t p
  walk_sim sim (suc fuel) [] s t p = sim.finish 0 s t p
  walk_sim sim (suc fuel) (c ∷ pc) s t p =
      after (walk_sim sim fuel) (get_op (c ∷ pc)) (get_op-LeavesAtMost c pc)
    where
      turn :
          ((pc : Bytes) (s : S) (t : T)
            → P (length pc) s t
            → Q (walk l fuel pc s) (walk k fuel pc t))
          → (rest : Bytes) (x : Turn S R) (y : Turn T U) → InStep (length rest) x y
          → Q
              (elim x [ go s' ↦ walk l fuel rest s' | halt r ↦ r ])
              (elim y [ go t' ↦ walk k fuel rest t' | halt u ↦ u ])
      turn next rest (go s') (go t') h = next rest s' t' h
      turn next rest (go s') (halt u) h = absurd h
      turn next rest (halt r) (go t') h = absurd h
      turn next rest (halt r) (halt u) h = h

      after :
          ((pc : Bytes) (s : S) (t : T)
            → P (length pc) s t
            → Q (walk l fuel pc s) (walk k fuel pc t))
          → (r : Fetch) → LeavesAtMost (length pc) r
          → Q
              (elim r [
                | refused _ ↦ l.bad s
                | fetched opcode b rest ↦ elim (l.step opcode b rest s) [
                  | go s' ↦ walk l fuel rest s'
                  | halt r ↦ r
                ]
              ])
              (elim r [
                | refused _ ↦ k.bad t
                | fetched opcode b rest ↦ elim (k.step opcode b rest t) [
                  | go t' ↦ walk k fuel rest t'
                  | halt u ↦ u
                ]
              ])
      after next (refused rest) h = sim.bad (length (c ∷ pc)) s t p
      after next (fetched opcode b rest) h =
          turn next rest (l.step opcode b rest s) (k.step opcode b rest t)
            (sim.step opcode b rest (length (c ∷ pc)) s t (omega arith) p)

  -- Started in related states, the two loops give related results.
  pub run_sim :
      Simulates → (pc : Bytes) (s : S) (t : T) → P (length pc) s t → Q (run l pc s) (run k pc t)
  unfolding run
  run_sim sim pc s t p = walk_sim sim (suc (length pc)) pc s t p
