-- ===== src/Chain/Target.antt =====
-- The targets of the proofs: `SetCompact` and `GetCompact` of src/bignum.h, `ComputeMaxBits`,
-- `GetLastBlockIndex`, `GetNextTargetRequired` and `CheckProofOfWork` of src/main.cpp.
pub mod Compact
pub mod Bounds
use build_env_jenkins.Common.{
  ℕ, zero, suc, ◌+◌, ◌-◌, ◌*◌, ◌/◌, ◌%◌, ◌^◌, Bytes, List, [], ◌∷◌, Bool, true, false, not, Option,
  none, some, from_le, ltb, leb, ◌==◌, if◌then◌else◌, ◌&&◌, ◌||◌,
}
use build_env_jenkins.Common.Int.{ℤ, pos, negsuc, nat_abs, sub_ℕ, ltb_ℤ, leb_ℤ}
use build_env_jenkins.OpenSsl.{OpenSsl}

-- A number with a sign, as `BN_set_negative` gives it: zero has none.
abbrev pub with_sign : Bool → ℕ → ℤ
with_sign negative n = if negative then sub_ℕ 0 n else pos n

-- The magnitude of `SetCompact`, by its size and its word.
unfoldable pub expand : ℕ → ℕ → ℕ
expand size word = if leb size 3 then word / 2 ^ (8 * (3 - size)) else word * 2 ^ (8 * (size - 3))

-- `SetCompact`
unfoldable pub set_compact : ℕ → ℤ
set_compact compact =
    with_sign (compact / 2 ^ 23 % 2 == 1) (expand (compact / 2 ^ 24) (compact % 2 ^ 23))

abbrev pub is_negative_ℤ : ℤ → Bool
is_negative_ℤ a = ltb_ℤ a (pos 0)

-- The first part of `GetCompact`: the three leading bytes of the magnitude.
unfoldable pub leading : ℕ → ℕ → ℕ
leading size n =
    if leb size 3 then n * 2 ^ (8 * (3 - size)) % 2 ^ 32 else n / 2 ^ (8 * (size - 3)) % 2 ^ 32

-- "Thus, if it is already set, divide the mantissa by 256 and increase the exponent." The three parts
-- have no bits in common, so that `|=` adds.
unfoldable pub join : ℕ → ℕ → Bool → ℕ
join size word negative =
    let high = word / 2 ^ 23 % 2 == 1 in
    let word' = if high then word / 256 else word in
    let size' = if high then size + 1 else size in
    word' + size' * 2 ^ 24 % 2 ^ 32 + (if negative then 2 ^ 23 else 0)

-- `GetCompact`
unfoldable pub get_compact : OpenSsl → ℤ → ℕ
get_compact ssl bn =
    let size = ssl.bn_num_bytes bn in join size (leading size (nat_abs bn)) (is_negative_ℤ bn)

-- `bnProofOfWorkLimit` and `bnProofOfStakeLimit`
abbrev pub target_limit : ℕ
target_limit = (2 ^ 256 - 1) / 2 ^ 20

-- What is read of a `CBlockIndex`; the blocks before it are the rest of a list.
pub record BlockHead : Type 0 where
  pub n_bits : ℕ
  pub n_time : ℕ
  pub is_proof_of_stake : Bool

abbrev same_kind : Bool → Bool → Bool
same_kind a b = if a then b else not b

-- `GetLastBlockIndex`: the block it ends at, with those before it.
unfoldable pub get_last_block_index : Bool → List BlockHead → List BlockHead
get_last_block_index stake [] = []
get_last_block_index stake (b ∷ []) = b ∷ []
get_last_block_index stake (b ∷ c ∷ chain) =
    let rest = get_last_block_index stake (c ∷ chain) in
    if same_kind b.is_proof_of_stake stake then b ∷ c ∷ chain else rest

abbrev pub n_stake_target_spacing : ℕ
n_stake_target_spacing = 20

abbrev pub n_work_target_spacing : ℕ
n_work_target_spacing = 120

-- `nActualSpacing`, brought into its range.
unfoldable pub actual_spacing : ℕ → ℕ → ℕ
actual_spacing time before =
    if ltb time before then 1 else if ltb 960 (time - before) then 960 else time - before

-- A `CBigNum` times and then by a positive number; the division is toward zero.
unfoldable pub scale : ℤ → ℕ → ℕ → ℤ
scale a m d = with_sign (is_negative_ℤ a) (nat_abs a * m / d)

-- `bnNew`, up to the limit.
unfoldable pub next_target : Bool → ℕ → ℕ → ℤ
next_target stake bits spacing =
    let target_spacing = if stake then n_stake_target_spacing else n_work_target_spacing in
    let bn =
      scale (set_compact bits) (29 * target_spacing + spacing + spacing) (31 * target_spacing) in
    if ltb_ℤ (pos target_limit) bn then pos target_limit else bn

-- The end of `GetNextTargetRequired`, by the chain back from `pindexPrevPrev`, and from `pindexPrev`.
unfoldable pub target_by_two : OpenSsl → Bool → BlockHead → List BlockHead → ℕ
target_by_two ssl stake prev [] = get_compact ssl (pos target_limit)
target_by_two ssl stake prev (prev_prev ∷ []) = get_compact ssl (pos target_limit)
target_by_two ssl stake prev (prev_prev ∷ b ∷ bs) =
    get_compact ssl (next_target stake prev.n_bits (actual_spacing prev.n_time prev_prev.n_time))

unfoldable pub target_by_one : OpenSsl → Bool → List BlockHead → ℕ
target_by_one ssl stake [] = get_compact ssl (pos target_limit)
target_by_one ssl stake (prev ∷ []) = get_compact ssl (pos target_limit)
target_by_one ssl stake (prev ∷ b ∷ bs) =
    target_by_two ssl stake prev (get_last_block_index stake (b ∷ bs))

-- `GetNextTargetRequired`, from the last block of a chain back.
unfoldable pub get_next_target_required : OpenSsl → Bool → List BlockHead → ℕ
get_next_target_required ssl stake chain =
    target_by_one ssl stake (get_last_block_index stake chain)

-- The loop of `ComputeMaxBits`, on the number of days that begin before the time is over.
unfoldable pub max_bits_loop : ℕ → ℤ → ℤ → ℤ
max_bits_loop zero limit bn = bn
max_bits_loop (suc days) limit bn =
    let rest = max_bits_loop days limit (scale bn 2 1) in if ltb_ℤ bn limit then rest else bn

-- `ComputeMaxBits`, of a time that is not negative.
unfoldable pub compute_max_bits : OpenSsl → ℤ → ℕ → ℕ → ℕ
compute_max_bits ssl limit base time =
    let bn = max_bits_loop ((time + 86399) / 86400) limit (scale (set_compact base) 2 1) in
    get_compact ssl (if ltb_ℤ limit bn then limit else bn)

-- `CheckProofOfWork`. A target within the limit is what `getuint256` gives.
unfoldable pub check_proof_of_work : Bytes → ℕ → Bool
check_proof_of_work hash bits =
    let target = set_compact bits in
    if leb_ℤ target (pos 0) || ltb_ℤ (pos target_limit) target
    then false
    else not (ltb (nat_abs target) (from_le hash))
