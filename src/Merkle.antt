-- ===== src/Merkle.antt =====
-- The merkle tree of a block: `BuildMerkleTree`, `GetMerkleBranch` and `CheckMerkleBranch` of
-- src/main.h, with `Hash` of two ranges and `SerializeHash` of src/util.h and src/serialize.h.
pub mod Levels
pub mod Branch
pub mod Binding
use build_env_jenkins.Common.{
  ℕ, zero, suc, ◌+◌, ◌-◌, ◌/◌, ◌%◌, min, Bytes, List, [], ◌∷◌, ◌++◌, map, replicate, Bool, length,
  get_or, ltb, ◌==◌, if◌then◌else◌,
}
use build_env_jenkins.Common.Int.{ℤ, pos, negsuc}
use build_env_jenkins.OpenSsl.{OpenSsl}
use build_env_jenkins.Transaction.{Transaction, write_transaction}
use build_env_jenkins.Script.SigHash.{hash}

-- `Hash(p1begin, p1end, p2begin, p2end)`
unfoldable pub hash_two : OpenSsl → Bytes → Bytes → Bytes
hash_two ssl a b = ssl.sha256 (ssl.sha256 (a ++ b))

-- `CTransaction::GetHash`
unfoldable pub get_hash : OpenSsl → Transaction → Bytes
get_hash ssl tx = hash ssl (write_transaction tx)

-- The `uint256` 0.
abbrev pub zero_hash : Bytes
zero_hash = replicate 32 0

-- `for (int i = 0; i < nSize; i += 2)`, which appends to the tree what it hashes.
unfoldable pub level_loop : OpenSsl → ℕ → ℕ → ℕ → ℕ → List Bytes → List Bytes
level_loop ssl zero j size i tree = tree
level_loop ssl (suc fuel) j size i tree =
    let pair =
      hash_two ssl (get_or tree (j + i) []) (get_or tree (j + min (i + 1) (size - 1)) []) in
    let more = level_loop ssl fuel j size (i + 2) (tree ++ pair ∷ []) in
    if ltb i size then more else tree

-- `for (int nSize = vtx.size(); nSize > 1; nSize = (nSize + 1) / 2)`, where `j` is the place of a
-- level in the tree. A level of n hashes takes at most n turns of the inner loop.
unfoldable pub tree_loop : OpenSsl → ℕ → ℕ → ℕ → List Bytes → List Bytes
tree_loop ssl zero j size tree = tree
tree_loop ssl (suc fuel) j size tree =
    let more = tree_loop ssl fuel (j + size) ((size + 1) / 2) (level_loop ssl size j size 0 tree) in
    if ltb 1 size then more else tree

-- `vMerkleTree` as `BuildMerkleTree` leaves it.
unfoldable pub merkle_tree : OpenSsl → List Transaction → List Bytes
merkle_tree ssl vtx = tree_loop ssl (length vtx) 0 (length vtx) (map (get_hash ssl) vtx)

-- `vMerkleTree.empty() ? 0 : vMerkleTree.back()`
unfoldable pub back_or_zero : List Bytes → Bytes
back_or_zero [] = zero_hash
back_or_zero (x ∷ tree) = get_or (x ∷ tree) (length tree) []

unfoldable pub build_merkle_tree : OpenSsl → List Transaction → Bytes
build_merkle_tree ssl vtx = back_or_zero (merkle_tree ssl vtx)

-- `std::min(nIndex^1, nSize-1)`
unfoldable pub sibling : ℕ → ℕ → ℕ
sibling size index = min (if index % 2 == 0 then index + 1 else index - 1) (size - 1)

-- The loop of `GetMerkleBranch`.
unfoldable pub branch_loop : ℕ → List Bytes → ℕ → ℕ → ℕ → List Bytes
branch_loop zero tree j size index = []
branch_loop (suc fuel) tree j size index =
    let more = branch_loop fuel tree (j + size) ((size + 1) / 2) (index / 2) in
    if ltb 1 size then get_or tree (j + sibling size index) [] ∷ more else []

-- `GetMerkleBranch` of an index that is not negative.
unfoldable pub get_merkle_branch : OpenSsl → List Transaction → ℕ → List Bytes
get_merkle_branch ssl vtx index =
    branch_loop (length vtx) (merkle_tree ssl vtx) 0 (length vtx) index

-- `nIndex & 1` and `nIndex >> 1`, in two's complement.
unfoldable pub is_odd : ℤ → Bool
is_odd (pos n) = n % 2 == 1
is_odd (negsuc n) = n % 2 == 0

unfoldable pub half : ℤ → ℤ
half (pos n) = pos (n / 2)
half (negsuc n) = negsuc (n / 2)

-- The loop of `CheckMerkleBranch`.
unfoldable pub climb : OpenSsl → Bytes → List Bytes → ℤ → Bytes
climb ssl hash [] index = hash
climb ssl hash (other ∷ branch) index =
    climb ssl (if is_odd index then hash_two ssl other hash else hash_two ssl hash other) branch
      (half index)

unfoldable pub check_merkle_branch : OpenSsl → Bytes → List Bytes → ℤ → Bytes
check_merkle_branch ssl hash branch (negsuc zero) = zero_hash
check_merkle_branch ssl hash branch index = climb ssl hash branch index
