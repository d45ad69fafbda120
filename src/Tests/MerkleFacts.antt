-- ===== src/Tests/MerkleFacts.antt =====
-- The properties of the merkle tree at concrete inputs, and a run of its definitions.
use build_env_jenkins.Common.{◌≡◌, ◌⊎◌, refl, List, [], ◌∷◌}
use build_env_jenkins.Common.Int.{pos}
use build_env_jenkins.Script.SigHash.{hash}
use build_env_jenkins.Serialize.{write_vector, write_compact_size, write_items, write_bytes}
use build_env_jenkins.Transaction.{
  Transaction, write_transaction, write_tx_in, write_out_point, write_tx_out,
}
use build_env_jenkins.Merkle.{
  get_hash, build_merkle_tree, get_merkle_branch, check_merkle_branch, zero_hash, sibling,
  branch_loop, back_or_zero, climb, merkle_tree, tree_loop, level_loop, is_odd, hash_two, half,
}
use build_env_jenkins.Merkle.Branch.{check-get_merkle_branch}
use build_env_jenkins.Merkle.Binding.{Clash, check_merkle_branch_proves}
use build_env_jenkins.Tests.Toy.{toy, spend}

-- Three transactions.
abbrev block : List Transaction
block = spend ∷ record spend { n_time = 5 } ∷ record spend { n_lock_time = 8 } ∷ []

check-get_merkle_branch_example :
    check_merkle_branch toy
      (get_hash toy (record spend { n_time = 5 }))
      (get_merkle_branch toy block 1)
      (pos 1)
    ≡ build_merkle_tree toy block
check-get_merkle_branch_example =
    check-get_merkle_branch toy block 1 {tx = record spend { n_time = 5 }} refl

-- The places that are read for the last of five: 4 in the first level, which is its own sibling, 5 + 2
-- in the next one and 8 + 0 in the last.
last_of_five :
    branch_loop 5
      ((0 ∷ [])
        ∷ (1 ∷ [])
        ∷ (2 ∷ [])
        ∷ (3 ∷ [])
        ∷ (4 ∷ [])
        ∷ (5 ∷ [])
        ∷ (6 ∷ [])
        ∷ (7 ∷ [])
        ∷ (8 ∷ [])
        ∷ (9 ∷ [])
        ∷ [])
      0
      5
      4
    ≡ ((4 ∷ []) ∷ (7 ∷ []) ∷ (8 ∷ []) ∷ [])
unfolding branch_loop sibling
last_of_five = refl

abbrev two : List Transaction
two = spend ∷ record spend { n_time = 5 } ∷ []

-- The toy digest does not depend on the second half of a pair, so that any hash leads from an odd
-- index to the root.
any_hash :
    check_merkle_branch toy zero_hash (get_merkle_branch toy two 1) (pos 1)
    ≡ build_merkle_tree toy two
unfolding build_merkle_tree check_merkle_branch back_or_zero climb merkle_tree get_merkle_branch
    tree_loop branch_loop level_loop is_odd hash_two half sibling get_hash hash write_transaction
    write_vector write_compact_size write_items write_tx_in write_out_point write_bytes write_tx_out
any_hash = refl

check_merkle_branch_proves_example :
    (zero_hash ≡ get_hash toy (record spend { n_time = 5 }))
    ⊎ Clash toy
        (get_merkle_branch toy two 1)
        1
        zero_hash
        (get_hash toy (record spend { n_time = 5 }))
check_merkle_branch_proves_example =
    check_merkle_branch_proves toy two 1 zero_hash {tx = record spend { n_time = 5 }} refl any_hash
