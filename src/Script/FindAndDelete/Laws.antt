-- ===== src/Script/FindAndDelete/Laws.antt =====
-- `FindAndDelete` ends by itself.
use build_env_jenkins.Common.{
  ℕ, zero, suc, ◌-◌, ◌<◌, ◌≡◌, refl, ap, sym, ◌∙◌, Bytes, [], ◌∷◌, Bool, true, false, length, take,
  drop, length-drop, arith,
}
use build_env_jenkins.Script.GetOp.{Fetch, fetched, refused, get_op}
use build_env_jenkins.Script.GetOp.Shrinks.{LeavesAtMost, get_op-LeavesAtMost}
use build_env_jenkins.Script.FindAndDelete.{
  starts_with, keep, count, find_round, find_loop, find_and_delete,
}

find_round-nil : (f : Bytes → Bytes × ℕ) (x : ℕ) (b : Bytes) → find_round f (x ∷ b) [] ≡ ([], 0)
unfolding starts_with get_op
find_round-nil f x b = refl

module _ (x : ℕ) (b : Bytes) where
  find_round_congr :
      (f g : Bytes → Bytes × ℕ) (pc : Bytes)
      → ((rest : Bytes) → length rest < length pc → f rest ≡ g rest)
      → find_round f (x ∷ b) pc ≡ find_round g (x ∷ b) pc
  find_round_congr f g [] same = find_round-nil f x b ∙ sym (find_round-nil g x b)
  find_round_congr f g (c ∷ pc) same =
      erased (starts_with (x ∷ b) (c ∷ pc)) (get_op (c ∷ pc)) (get_op-LeavesAtMost c pc)
    where
      stepped :
          (r : Fetch)
          → LeavesAtMost (length pc) r
          → ◌≡◌ {A = Bytes × ℕ}
              (elim r [
                | refused _ ↦ (c ∷ pc, 0)
                | fetched _ _ rest ↦ keep (take (length (c ∷ pc) - length rest) (c ∷ pc)) (f rest)
              ])
              (elim r [
                | refused _ ↦ (c ∷ pc, 0)
                | fetched _ _ rest ↦ keep (take (length (c ∷ pc) - length rest) (c ∷ pc)) (g rest)
              ])
      stepped (refused rest) h = refl
      stepped (fetched opcode pushed rest) h =
          ap (keep (take (length (c ∷ pc) - length rest) (c ∷ pc))) (same rest (omega arith))

      erased :
          (found : Bool) (r : Fetch)
          → LeavesAtMost (length pc) r
          → ◌≡◌ {A = Bytes × ℕ}
              (elim found [
                | true ↦ count (f (drop (length (x ∷ b)) (c ∷ pc)))
                | false ↦ elim r [
                  | refused _ ↦ (c ∷ pc, 0)
                  | fetched _ _ rest ↦ keep (take (length (c ∷ pc) - length rest) (c ∷ pc)) (f rest)
                ]
              ])
              (elim found [
                | true ↦ count (g (drop (length (x ∷ b)) (c ∷ pc)))
                | false ↦ elim r [
                  | refused _ ↦ (c ∷ pc, 0)
                  | fetched _ _ rest ↦ keep (take (length (c ∷ pc) - length rest) (c ∷ pc)) (g rest)
                ]
              ])
      erased true r h =
          ap count (same (drop (length b) pc) (omega (arith, length-drop (length b) pc)))
      erased false r h = stepped r h

  find_enough :
      (n m : ℕ) (pc : Bytes)
      → length pc < n
      → length pc < m
      → find_loop n (x ∷ b) pc ≡ find_loop m (x ∷ b) pc
  unfolding find_loop
  find_enough zero m pc h k = absurd (omega arith)
  find_enough (suc n) zero pc h k = absurd (omega arith)
  find_enough (suc n) (suc m) pc h k =
      find_round_congr (find_loop n (x ∷ b)) (find_loop m (x ∷ b)) pc
        (λ rest lt. find_enough n m rest (omega arith) (omega arith))

  -- `FindAndDelete` of bytes that are not empty satisfies the equation of its loop, with no fuel in
  -- it: it always ends, by a `GetOp` that fails.
  pub find_unroll :
      (script : Bytes)
      → (find_and_delete (x ∷ b) script) ≡ find_round (find_and_delete (x ∷ b)) (x ∷ b) script
  unfolding find_and_delete find_loop
  find_unroll script =
      find_round_congr (find_loop (length script) (x ∷ b)) (find_and_delete (x ∷ b)) script
        (λ rest lt. find_enough (length script) (suc (length rest)) rest lt (omega arith))
