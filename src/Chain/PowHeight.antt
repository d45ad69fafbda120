-- ===== src/Chain/PowHeight.antt =====
-- `GetPowHeight`, `GetPosHeight` and `CountPowDelta` of src/main.cpp.
pub mod Counts
pub mod Delta
use build_env_jenkins.Common.{
  ℕ, zero, suc, ◌+◌, ◌-◌, List, [], ◌∷◌, reverse, Bool, true, false, Option, none, some, ltb,
  if◌then◌else◌,
}
use build_env_jenkins.Common.Int.{ℤ, sub_ℕ}

-- What is read of a `CBlockIndex`. The `pprev` of a block is the rest of the list.
pub record BlockIndex : Type 0 where
  pub n_height : ℕ
  pub is_proof_of_stake : Bool

-- `checkpointPoWHeight`: a height, and how many blocks of proof of work there are up to it.
abbrev pub checkpoint_pow_height : List (ℕ × ℕ)
checkpoint_pow_height =
    (25000, 5587)
    ∷ (50000, 9027)
    ∷ (75000, 12354)
    ∷ (100000, 15639)
    ∷ (125000, 18946)
    ∷ (150000, 22309)
    ∷ (175000, 25648)
    ∷ (200000, 28918)
    ∷ (225000, 32194)
    ∷ (250000, 35406)
    ∷ (275000, 38599)
    ∷ (300000, 41591)
    ∷ (325000, 44482)
    ∷ (350000, 47332)
    ∷ (375000, 50160)
    ∷ (400000, 53062)
    ∷ (425000, 55947)
    ∷ (450000, 61201)
    ∷ (475000, 65087)
    ∷ (500000, 68169)
    ∷ (525000, 71250)
    ∷ (550000, 74229)
    ∷ (575000, 77161)
    ∷ (600000, 80039)
    ∷ []

-- The search for the last checkpoint below a height, on the table from its end.
unfoldable pub find_checkpoint : ℕ → List (ℕ × ℕ) → Option (ℕ × ℕ)
find_checkpoint height [] = none
find_checkpoint height ((h, c) ∷ table) =
    let rest = find_checkpoint height table in if ltb h height then some (h, c) else rest

abbrev pub count_block : BlockIndex → ℕ
count_block b = if b.is_proof_of_stake then 0 else 1

-- The loop over `max_check` blocks; `none` where it would read behind the genesis block.
unfoldable pub count_back : ℕ → List BlockIndex → Option ℕ
count_back zero chain = some 0
count_back (suc max_check) [] = none
count_back (suc max_check) (b ∷ chain) = elim (count_back max_check chain) [
  | none ↦ none
  | some count ↦ some (count_block b + count)
]

abbrev pub add_count : ℕ → Option ℕ → Option ℕ
add_count n none = none
add_count n (some count) = some (count + n)

-- `GetPowHeight`, for a table of checkpoints.
unfoldable pub get_pow_height : List (ℕ × ℕ) → List BlockIndex → Option ℕ
get_pow_height table [] = none
get_pow_height table (b ∷ chain) = elim (find_checkpoint b.n_height (reverse table)) [
  | none ↦ add_count 1 (count_back b.n_height (b ∷ chain))
  | some (h, c) ↦ add_count c (count_back (b.n_height - h) (b ∷ chain))
]

-- `GetPosHeight`
unfoldable pub get_pos_height : List (ℕ × ℕ) → List BlockIndex → Option ℤ
get_pos_height table [] = none
get_pos_height table (b ∷ chain) = elim (get_pow_height table (b ∷ chain)) [
  | none ↦ none
  | some pow ↦ some (sub_ℕ b.n_height pow)
]

-- The loop of `CountPowDelta`, which ends at the genesis block or above a block below the height.
unfoldable pub delta_loop : ℕ → List BlockIndex → ℕ
delta_loop super_block [] = 0
delta_loop super_block (b ∷ chain) =
    let rest = delta_loop super_block chain in
    elim chain [
      | [] ↦ count_block b
      | p ∷ ps ↦ if ltb p.n_height super_block then count_block b else count_block b + rest
    ]

-- `CountPowDelta`, from a block and those before it.
unfoldable pub count_pow_delta : ℕ → BlockIndex → List BlockIndex → ℕ
count_pow_delta super_block b chain =
    if ltb super_block (b.n_height + 1) then delta_loop super_block (b ∷ chain) else 0
