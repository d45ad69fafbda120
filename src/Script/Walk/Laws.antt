-- ===== src/Script/Walk/Laws.antt =====
-- The loop over a script without its fuel, and what it does at its first instruction.
use build_env_jenkins.Common.{ℕ, zero, suc, ◌≤◌, ◌<◌, ◌≡◌, ◌∙◌, refl, Bytes, [], ◌∷◌, length, arith}
use build_env_jenkins.Script.GetOp.{Fetch, fetched, refused, get_op}
use build_env_jenkins.Script.GetOp.Shrinks.{LeavesAtMost, get_op-LeavesAtMost}
use build_env_jenkins.Script.Walk.{Turn, go, halt, Loop, walk_body, walk, run}

get_op-nil : get_op [] ≡ refused []
unfolding get_op
get_op-nil = refl

module _ {S R : Type 0} (l : Loop S R) where
  -- Two continuations that agree on shorter scripts give the same round.
  walk_body_congr :
      (f g : Bytes → S → R) (pc : Bytes) (s : S)
      → ((rest : Bytes) (t : S) → length rest < length pc → f rest t ≡ g rest t)
      → walk_body l f pc s ≡ walk_body l g pc s
  walk_body_congr f g [] s same = refl
  walk_body_congr f g (c ∷ pc) s same = after (get_op (c ∷ pc)) (get_op-LeavesAtMost c pc)
    where
      turn :
          (rest : Bytes)
          → length rest ≤ length pc
          → (t : Turn S R)
          → ◌≡◌ {A = R}
              (elim t [ go s' ↦ f rest s' | halt r ↦ r ])
              (elim t [ go s' ↦ g rest s' | halt r ↦ r ])
      turn rest h (go s') = same rest s' (omega arith)
      turn rest h (halt r) = refl

      after :
          (r : Fetch)
          → LeavesAtMost (length pc) r
          → ◌≡◌ {A = R}
              (elim r [
                | refused _ ↦ l.bad s
                | fetched opcode b rest ↦ elim (l.step opcode b rest s) [
                  | go s' ↦ f rest s'
                  | halt r ↦ r
                ]
              ])
              (elim r [
                | refused _ ↦ l.bad s
                | fetched opcode b rest ↦ elim (l.step opcode b rest s) [
                  | go s' ↦ g rest s'
                  | halt r ↦ r
                ]
              ])
      after (refused rest) h = refl
      after (fetched opcode b rest) h = turn rest h (l.step opcode b rest s)

  walk_enough :
      (n m : ℕ) (pc : Bytes) (s : S) → length pc < n → length pc < m → walk l n pc s ≡ walk l m pc s
  unfolding walk
  walk_enough zero m pc s h k = absurd (omega arith)
  walk_enough (suc n) zero pc s h k = absurd (omega arith)
  walk_enough (suc n) (suc m) pc s h k =
      walk_body_congr (walk l n) (walk l m) pc s
        (λ rest t lt. walk_enough n m rest t (omega arith) (omega arith))

  -- The loop satisfies its own equation, with no fuel in it.
  pub run_unroll : (pc : Bytes) (s : S) → run l pc s ≡ walk_body l (run l) pc s
  unfolding run
  run_unroll pc s =
      walk_body_congr (walk l (length pc)) (run l) pc s
        (λ rest t lt. walk_enough (length pc) (suc (length rest)) rest t lt (omega arith))

  -- The rest of a turn, by what the body of the loop has done.
  abbrev pub continue : Bytes → Turn S R → R
  continue rest (go s) = run l rest s
  continue rest (halt r) = r

  -- At an instruction the loop takes one turn.
  pub run-fetched :
      (pc : Bytes) (s : S) {opcode : ℕ} {b rest : Bytes}
      → get_op pc ≡ fetched opcode b rest
      → run l pc s ≡ continue rest (l.step opcode b rest s)
  run-fetched [] s e = cc (get_op-nil, e)
  run-fetched (c ∷ pc) s {opcode = opcode} {b = b} {rest = rest} e =
      run_unroll (c ∷ pc) s ∙ rw (e, walk_body) (same (l.step opcode b rest s))
    where
      same :
          (t : Turn S R)
          → ◌≡◌ {A = R} (elim t [ go s' ↦ run l rest s' | halt r ↦ r ]) (continue rest t)
      same (go s') = refl
      same (halt r) = refl

  pub run-nil : (s : S) → run l [] s ≡ l.finish s
  run-nil s = run_unroll [] s

module _ {S R : Type 0} (l : Loop S R) (P : S → Type 0) (Q : R → Type 0) where
  -- What a turn leaves: a state that keeps the invariant, or a good result.
  abbrev pub Keeps : Turn S R → Type 0
  Keeps (go s) = P s
  Keeps (halt r) = Q r

  walk_inv :
      ((opcode : ℕ) (b rest : Bytes) (s : S) → P s → Keeps (l.step opcode b rest s))
      → ((s : S) → P s → Q (l.bad s))
      → ((s : S) → P s → Q (l.finish s))
      → (n : ℕ) (pc : Bytes) (s : S) → P s
      → Q (walk l n pc s)
  unfolding walk
  walk_inv keep bad finish zero pc s h = bad s h
  walk_inv keep bad finish (suc n) [] s h = finish s h
  walk_inv keep bad finish (suc n) (c ∷ pc) s h =
      after (get_op (c ∷ pc)) (walk_inv keep bad finish n)
    where
      turn :
          (rest : Bytes) (t : Turn S R)
          → Keeps t
          → ((pc : Bytes) (s : S) → P s → Q (walk l n pc s))
          → Q (elim t [ go s' ↦ walk l n rest s' | halt r ↦ r ])
      turn rest (go s') k next = next rest s' k
      turn rest (halt r) k next = k

      after :
          (r : Fetch)
          → ((pc : Bytes) (s : S) → P s → Q (walk l n pc s))
          → Q (elim r [
            | refused _ ↦ l.bad s
            | fetched opcode b rest ↦ elim (l.step opcode b rest s) [
              | go s' ↦ walk l n rest s'
              | halt r ↦ r
            ]
          ])
      after (refused rest) next = bad s h
      after (fetched opcode b rest) next =
          turn rest (l.step opcode b rest s) (keep opcode b rest s h) next

  -- An invariant of the turns holds at the end.
  pub run_inv :
      ((opcode : ℕ) (b rest : Bytes) (s : S) → P s → Keeps (l.step opcode b rest s))
      → ((s : S) → P s → Q (l.bad s))
      → ((s : S) → P s → Q (l.finish s))
      → (pc : Bytes) (s : S) → P s
      → Q (run l pc s)
  unfolding run
  run_inv keep bad finish pc s h = walk_inv keep bad finish (suc (length pc)) pc s h
