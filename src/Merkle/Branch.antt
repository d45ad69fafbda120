-- ===== src/Merkle/Branch.antt =====
-- A branch of the merkle tree leads from a transaction to the root.
use build_env_jenkins.Common.{
  ℕ, zero, suc, ◌+◌, ◌/◌, ◌≤◌, ◌<◌, ◌≡◌, ◌∙◌, refl, sym, ap, subst, Bytes, List, [], ◌∷◌, ◌++◌,
  length, get_or, map, get_elem?, some, length-append, arith, ltb, if◌then◌else◌, Bool-cases, inl,
  inr, tests,
}
use build_env_jenkins.Common.Int.{pos}
use build_env_jenkins.OpenSsl.{OpenSsl}
use build_env_jenkins.Transaction.{Transaction}
use build_env_jenkins.Merkle.{
  hash_two, get_hash, tree_loop, merkle_tree, back_or_zero, build_merkle_tree, sibling, branch_loop,
  get_merkle_branch, is_odd, half, climb, check_merkle_branch,
}
use build_env_jenkins.Merkle.Levels.{
  Holds, pairs, length-pairs, tree_loop-step, tree_loop-end, tree_loop-Holds, Holds-above,
}

sibling-first : (n : ℕ) → ◌≡◌ {A = ℕ} (sibling (suc (suc n)) 0) 1
unfolding sibling
sibling-first n = ground arith

sibling-second : (n : ℕ) → ◌≡◌ {A = ℕ} (sibling (suc (suc n)) 1) 0
unfolding sibling
sibling-second n = ground arith

sibling-later :
    (size k : ℕ)
    → k < size
    → ◌≡◌ {A = ℕ} (sibling (suc (suc size)) (suc (suc k))) (suc (suc (sibling size k)))
unfolding sibling
sibling-later size k h = ground arith

sibling-inside : (size k : ℕ) → k < size → sibling size k < size
unfolding sibling
sibling-inside size k h = ground arith

is_odd-later : (k : ℕ) → is_odd (pos (suc (suc k))) ≡ is_odd (pos k)
unfolding is_odd
is_odd-later k = ground arith

module _ (ssl : OpenSsl) where
  -- What `CheckMerkleBranch` hashes at a place of a level.
  abbrev joined : ℕ → List Bytes → ℕ → Bytes
  joined size level index =
      if is_odd (pos index)
      then hash_two ssl (get_or level (sibling size index) []) (get_or level index [])
      else hash_two ssl (get_or level index []) (get_or level (sibling size index) [])

  -- It is the hash above that place.
  pairs-joined :
      (level : List Bytes) (index : ℕ)
      → index < length level
      → get_or (pairs ssl level) (index / 2) [] ≡ joined (length level) level index
  unfolding is_odd sibling
  pairs-joined [] index h = absurd (omega arith)
  pairs-joined (a ∷ []) zero h = refl
  pairs-joined (a ∷ []) (suc index) h = absurd (omega arith)
  pairs-joined (a ∷ b ∷ level) zero h = rw (sibling-first (length level))
  pairs-joined (a ∷ b ∷ level) (suc zero) h = rw (sibling-second (length level))
  pairs-joined (a ∷ b ∷ level) (suc (suc index)) h =
      rw (half-later, is_odd-later index, sibling-later (length level) index (omega arith))
        (pairs-joined level index (omega arith))
    where
      half-later : ◌≡◌ {A = ℕ} (suc (suc index) / 2) (suc (index / 2))
      half-later = omega arith

  back-tree :
      (tree level : List Bytes) (j : ℕ)
      → Holds tree j level
      → ◌≡◌ {A = ℕ} (length tree) (j + 1)
      → 0 < length level
      → back_or_zero tree ≡ get_or level 0 []
  unfolding back_or_zero
  back-tree [] level j h l full = absurd (omega (arith, h.inside))
  back-tree (x ∷ tree) level j h l full = h.same (length tree) 0 full (omega arith)

  -- From any level on, with the whole tree.
  climb-branch :
      (fuel j size index : ℕ) (whole tree level : List Bytes)
      → Holds tree j level
      → ◌≡◌ {A = List Bytes} (tree_loop ssl fuel j size tree) whole
      → ◌≡◌ {A = ℕ} size (length level)
      → ◌≡◌ {A = ℕ} (length tree) (j + size)
      → size ≤ fuel
      → index < size
      → climb ssl (get_or level index []) (branch_loop fuel whole j size index) (pos index)
        ≡ back_or_zero whole
  unfolding branch_loop climb half
  climb-branch zero j size index whole tree level h w e l le lt = absurd (omega arith)
  climb-branch (suc fuel) j size index whole tree level h w e l le lt =
      elim (Bool-cases (ltb 1 size)) [
        | inl many ↦
            let known : Holds whole j level =
              subst (λ t. Holds t j level) w
                (tree_loop-Holds ssl (suc fuel) j size tree level h e l h) in
            rw
              (
                many,
                known.same (j + sibling size index) (sibling size index)
                    (omega (arith, sibling-inside size index lt)) refl,
              )
              (subst
                (λ x.
                  climb ssl x (branch_loop fuel whole (j + size) ((size + 1) / 2) (index / 2))
                    (pos (index / 2))
                  ≡ back_or_zero whole)
                (subst (λ n. get_or (pairs ssl level) (index / 2) [] ≡ joined n level index) (sym e)
                  (pairs-joined level index (omega arith)))
                (climb-branch fuel (j + size) ((size + 1) / 2) (index / 2) whole
                  (tree ++ pairs ssl level) (pairs ssl level) (Holds-above ssl tree level j size l)
                  (sym (tree_loop-step ssl fuel j size tree level h e (omega tests)) ∙ w)
                  (omega (arith, length-pairs ssl level))
                  (omega (arith, length-append tree (pairs ssl level), length-pairs ssl level))
                  (omega tests) (omega arith)))
        | inr one ↦ rw one (
            ap (λ i. get_or level i []) (omega tests)
            ∙ sym (
                back-tree whole level j
                  (subst (λ t. Holds t j level) w
                    (tree_loop-Holds ssl (suc fuel) j size tree level h e l h))
                  (omega (
                    tests,
                    ap length (sym w ∙ tree_loop-end ssl (suc fuel) j size tree (omega tests)),
                  ))
                  (omega tests)))
      ]

Holds-all : (tree : List Bytes) → Holds tree 0 tree
Holds-all tree = record {
  inside = omega arith;
  same = λ n k lt e. ap (λ i. get_or tree i []) (omega arith);
}

length-hashes :
    (ssl : OpenSsl) (vtx : List Transaction) → length (map (get_hash ssl) vtx) ≡ length vtx
length-hashes ssl [] = refl
length-hashes ssl (tx ∷ vtx) = ap suc (length-hashes ssl vtx)

get_or-hashes :
    (ssl : OpenSsl) (vtx : List Transaction) (index : ℕ) {tx : Transaction}
    → get_elem? vtx index ≡ some tx
    → (index < length vtx) × (get_or (map (get_hash ssl) vtx) index [] ≡ get_hash ssl tx)
get_or-hashes ssl [] index e = cc
get_or-hashes ssl (tx ∷ vtx) zero e = (omega arith, cc e)
get_or-hashes ssl (tx ∷ vtx) (suc index) e =
    let (lt, found) = get_or-hashes ssl vtx index e in (omega arith, found)

-- The branch that `GetMerkleBranch` gives for a transaction of a block leads `CheckMerkleBranch`
-- from its hash to the root that `BuildMerkleTree` gives for the block.
pub check-get_merkle_branch :
    (ssl : OpenSsl) (vtx : List Transaction) (index : ℕ) {tx : Transaction}
    → get_elem? vtx index ≡ some tx
    → check_merkle_branch ssl (get_hash ssl tx) (get_merkle_branch ssl vtx index) (pos index)
      ≡ build_merkle_tree ssl vtx
unfolding check_merkle_branch get_merkle_branch build_merkle_tree merkle_tree
check-get_merkle_branch ssl vtx index {tx} e =
    let (lt, found) = get_or-hashes ssl vtx index e in
    let leaves : List Bytes = map (get_hash ssl) vtx in
    subst
      (λ x. climb ssl x (get_merkle_branch ssl vtx index) (pos index) ≡ build_merkle_tree ssl vtx)
      found
      (climb-branch ssl (length vtx) 0 (length vtx) index (merkle_tree ssl vtx) leaves leaves
        (Holds-all leaves) refl (sym (length-hashes ssl vtx)) (omega (arith, length-hashes ssl vtx))
        (omega arith) lt)
