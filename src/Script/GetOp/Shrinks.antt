-- ===== src/Script/GetOp/Shrinks.antt =====
-- `GetOp2` moves forward: what bounds the rounds of every loop over a script.
use build_env_jenkins.Common.{ℕ, ◌≤◌, Bytes, ◌∷◌, length, take, drop, length-drop, arith, from_le}
use build_env_jenkins.Script.GetOp.{Fetch, fetched, refused, take_data, sized_data, get_op}

-- The iterator behind an instruction has at most `n` bytes before it.
abbrev pub LeavesAtMost : ℕ → Fetch → Type 0
LeavesAtMost n (fetched opcode b rest) = length rest ≤ n
LeavesAtMost n (refused rest) = length rest ≤ n

take_data-LeavesAtMost :
    (opcode size : ℕ) (pc : Bytes) → LeavesAtMost (length pc) (take_data opcode size pc)
unfolding take_data
take_data-LeavesAtMost opcode size pc = ground (arith, length-drop size pc)

sized_data-LeavesAtMost :
    (opcode width : ℕ) (pc : Bytes) → LeavesAtMost (length pc) (sized_data opcode width pc)
unfolding sized_data
sized_data-LeavesAtMost opcode width pc = ground (
  arith,
  take_data-LeavesAtMost opcode (from_le (take width pc)) (drop width pc),
  length-drop width pc,
)

pub get_op-LeavesAtMost :
    (opcode : ℕ) (pc : Bytes) → LeavesAtMost (length pc) (get_op (opcode ∷ pc))
unfolding get_op
get_op-LeavesAtMost opcode pc = ground (
  arith,
  take_data-LeavesAtMost opcode opcode pc,
  sized_data-LeavesAtMost opcode 1 pc,
  sized_data-LeavesAtMost opcode 2 pc,
  sized_data-LeavesAtMost opcode 4 pc,
)
