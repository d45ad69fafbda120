-- ===== src/Merkle/Binding.antt =====
-- What `CheckMerkleBranch` proves of a transaction: a branch binds the root to one leaf, as far as
-- two particular strings that it hashes do not collide.
use build_env_jenkins.Common.{
  ℕ, ◌/◌, ◌%◌, ◌≡◌, ◌≢◌, ◌∙◌, ◌⊎◌, inl, inr, refl, sym, ap, Bytes, List, [], ◌∷◌, ◌++◌, some,
  get_elem?, Bool, true, false, Bool-cases, bytes_eq, bytes_eq_sound, bytes_eq_refl, ◌==◌,
  if◌then◌else◌, append_cancel_left, append_cancel_right,
}
use build_env_jenkins.Common.Int.{pos}
use build_env_jenkins.OpenSsl.{OpenSsl}
use build_env_jenkins.Transaction.{Transaction}
use build_env_jenkins.Merkle.{
  hash_two, is_odd, half, climb, check_merkle_branch, get_hash, get_merkle_branch,
  build_merkle_tree,
}
use build_env_jenkins.Merkle.Branch.{check-get_merkle_branch}

-- The string of a pair in the tree: a node of odd index is the right one of its pair.
abbrev pub pair_at : ℕ → Bytes → Bytes → Bytes
pair_at index other a = if index % 2 == 1 then other ++ a else a ++ other

-- On the ways up from two nodes of one index, two different pairs with one double digest.
abbrev pub Clash : OpenSsl → List Bytes → ℕ → Bytes → Bytes → Type 0
Clash ssl [] index a b = ⊥
Clash ssl (other ∷ branch) index a b =
    let left = pair_at index other a in
    let right = pair_at index other b in
    ((left ≢ right) × (ssl.sha256 (ssl.sha256 left) ≡ ssl.sha256 (ssl.sha256 right)))
    ⊎ Clash ssl branch (index / 2) (ssl.sha256 (ssl.sha256 left)) (ssl.sha256 (ssl.sha256 right))

same_or_not : (a b : Bytes) → (a ≡ b) ⊎ (a ≢ b)
same_or_not a b = elim (Bool-cases (bytes_eq a b)) [
  | inl same ↦ inl (bytes_eq_sound a b same)
  | inr other ↦ inr (λ e. cc (other, ap (bytes_eq a) e, bytes_eq_refl a))
]

pair_at-injective :
    (index : ℕ) (other a b : Bytes) → pair_at index other a ≡ pair_at index other b → a ≡ b
pair_at-injective index other a b = by_side (index % 2 == 1)
  where
    by_side :
        (odd : Bool)
        → (if odd then other ++ a else a ++ other) ≡ (if odd then other ++ b else b ++ other)
        → a ≡ b
    by_side true e = append_cancel_left other a b e
    by_side false e = append_cancel_right a b other e

module _ (ssl : OpenSsl) where
  climb-pair_at :
      (other : Bytes) (branch : List Bytes) (index : ℕ) (a : Bytes)
      → climb ssl a (other ∷ branch) (pos index)
        ≡ climb ssl (ssl.sha256 (ssl.sha256 (pair_at index other a))) branch (pos (index / 2))
  unfolding climb is_odd half hash_two
  climb-pair_at other branch index a =
      ap (λ x. climb ssl x branch (pos (index / 2))) (by_side (index % 2 == 1))
    where
      by_side :
          (odd : Bool)
          → (if odd then hash_two ssl other a else hash_two ssl a other)
            ≡ ssl.sha256 (ssl.sha256 (if odd then other ++ a else a ++ other))
      by_side true = refl
      by_side false = refl

  climb_binds :
      (branch : List Bytes) (index : ℕ) (a b : Bytes)
      → climb ssl a branch (pos index) ≡ climb ssl b branch (pos index)
      → (a ≡ b) ⊎ Clash ssl branch index a b
  unfolding climb
  climb_binds [] index a b e = inl e
  climb_binds (other ∷ branch) index a b e =
      elim (climb_binds branch (index / 2) _ _
        (sym (climb-pair_at other branch index a) ∙ e ∙ climb-pair_at other branch index b)) [
          | inl agree ↦ elim (same_or_not (pair_at index other a) (pair_at index other b)) [
            | inl same ↦ inl (pair_at-injective index other a b same)
            | inr differ ↦ inr (inl (differ, agree))
          ]
          | inr found ↦ inr (inr found)
        ]

-- Where `CheckMerkleBranch` leads a hash, by the branch that `GetMerkleBranch` gives for a
-- transaction of a block and from its index, to the root that `BuildMerkleTree` gives, the hash is
-- that of the transaction, or on the ways up from the two hashes there are two different pairs with
-- one double digest.
pub check_merkle_branch_proves :
    (ssl : OpenSsl) (vtx : List Transaction) (index : ℕ) (hash : Bytes) {tx : Transaction}
    → get_elem? vtx index ≡ some tx
    → check_merkle_branch ssl hash (get_merkle_branch ssl vtx index) (pos index)
      ≡ build_merkle_tree ssl vtx
    → (hash ≡ get_hash ssl tx)
      ⊎ Clash ssl (get_merkle_branch ssl vtx index) index hash (get_hash ssl tx)
unfolding check_merkle_branch
check_merkle_branch_proves ssl vtx index hash {tx} e root =
    climb_binds ssl (get_merkle_branch ssl vtx index) index hash (get_hash ssl tx)
      (root ∙ sym (check-get_merkle_branch ssl vtx index e))
