-- ===== src/Chain/Target/Bounds.antt =====
-- The next target is within the limit.
use build_env_jenkins.Common.{
  ℕ, ◌+◌, ◌*◌, ◌/◌, ◌%◌, ◌^◌, ◌≤◌, ◌≡◌, ◌∙◌, refl, ap, List, [], ◌∷◌, Bool, true, false, ltb,
  le→ltb, if◌then◌else◌, arith, All,
}
use build_env_jenkins.Common.Int.{ℤ, pos, ltb_ℤ}
use build_env_jenkins.OpenSsl.{OpenSsl}
use build_env_jenkins.Chain.Target.{
  expand, set_compact, get_compact, target_limit, BlockHead, same_kind, get_last_block_index,
  actual_spacing, scale, next_target, target_by_two, target_by_one, get_next_target_required,
}
use build_env_jenkins.Chain.Target.Compact.{HasNumBytes, set_compact-get_compact}

-- A compact target without the bit for the sign.
abbrev pub IsPositive : BlockHead → Type 0
IsPositive b = b.n_bits / 2 ^ 23 % 2 ≡ 0

set_compact-pos :
    (bits : ℕ)
    → bits / 2 ^ 23 % 2 ≡ 0
    → set_compact bits ≡ pos (expand (bits / 2 ^ 24) (bits % 2 ^ 23))
unfolding set_compact
set_compact-pos bits e = rw (set_compact, e) refl

scale-pos : (n m d : ℕ) → scale (pos n) m d ≡ pos ((n + 0) * m / d)
unfolding scale
scale-pos n m d = rw (scale, le→ltb (n + 0) 0 (omega arith)) refl

-- A number within the limit.
abbrev IsWithin : ℤ → Type 0
IsWithin a = (n : ℕ) × (a ≡ pos n) × (n ≤ target_limit)

cut : (n : ℕ) → IsWithin (if ltb_ℤ (pos target_limit) (pos n) then pos target_limit else pos n)
cut n = by_test (ltb_ℤ (pos target_limit) (pos n)) refl
  where
    by_test :
        (above : Bool)
        → ltb_ℤ (pos target_limit) (pos n) ≡ above
        → IsWithin (if above then pos target_limit else pos n)
    by_test true e = (target_limit, refl, omega arith)
    by_test false e = (n, refl, within target_limit n e)
      where
        within : (l n : ℕ) → ltb (l + 0) (n + 0) ≡ false → n ≤ l
        within l n e = ground arith

next_target-IsWithin :
    (stake : Bool) (bits spacing : ℕ)
    → bits / 2 ^ 23 % 2 ≡ 0
    → IsWithin (next_target stake bits spacing)
unfolding next_target
next_target-IsWithin stake bits spacing e =
    rw (next_target, set_compact-pos bits e, scale-pos) (cut _)

get_last_block_index-All :
    (stake : Bool) (chain : List BlockHead)
    → All IsPositive chain
    → All IsPositive (get_last_block_index stake chain)
unfolding get_last_block_index
get_last_block_index-All stake [] h = h
get_last_block_index-All stake (b ∷ []) h = h
get_last_block_index-All stake (b ∷ c ∷ chain) h =
    by_kind (same_kind b.is_proof_of_stake stake) (get_last_block_index-All stake (c ∷ chain) h.1)
  where
    by_kind :
        (same : Bool)
        → All IsPositive (get_last_block_index stake (c ∷ chain))
        → All IsPositive (if same then b ∷ c ∷ chain else get_last_block_index stake (c ∷ chain))
    by_kind true rest = h
    by_kind false rest = rest

module _ (ssl : OpenSsl) (bytes : HasNumBytes ssl) where
  compact-IsWithin : (a : ℤ) → IsWithin a → IsWithin (set_compact (get_compact ssl a))
  compact-IsWithin a (n, e, le) =
      let (m, read, below) = set_compact-get_compact ssl n bytes (omega (arith, le)) in
      (m, ap (λ x. set_compact (get_compact ssl x)) e ∙ read, omega (arith, below, le))

  limit-IsWithin : IsWithin (set_compact (get_compact ssl (pos target_limit)))
  limit-IsWithin = compact-IsWithin (pos target_limit) (target_limit, refl, omega arith)

  target_by_two-IsWithin :
      (stake : Bool) (prev : BlockHead) (prevs : List BlockHead)
      → IsPositive prev
      → IsWithin (set_compact (target_by_two ssl stake prev prevs))
  unfolding target_by_two
  target_by_two-IsWithin stake prev [] h = limit-IsWithin
  target_by_two-IsWithin stake prev (p ∷ []) h = limit-IsWithin
  target_by_two-IsWithin stake prev (p ∷ b ∷ bs) h =
      compact-IsWithin _
        (next_target-IsWithin stake prev.n_bits (actual_spacing prev.n_time p.n_time) h)

  target_by_one-IsWithin :
      (stake : Bool) (prevs : List BlockHead)
      → All IsPositive prevs
      → IsWithin (set_compact (target_by_one ssl stake prevs))
  unfolding target_by_one
  target_by_one-IsWithin stake [] h = limit-IsWithin
  target_by_one-IsWithin stake (prev ∷ []) h = limit-IsWithin
  target_by_one-IsWithin stake (prev ∷ b ∷ bs) h =
      target_by_two-IsWithin stake prev (get_last_block_index stake (b ∷ bs)) h.0

-- `GetNextTargetRequired` gives a compact target that stands for a number from 0 to the limit,
-- whatever the times of the blocks are, where the targets of the chain are not negative.
pub get_next_target_required_bounded :
    (ssl : OpenSsl) (stake : Bool) (chain : List BlockHead)
    → HasNumBytes ssl
    → All IsPositive chain
    → (n : ℕ) × (set_compact (get_next_target_required ssl stake chain) ≡ pos n)
      × (n ≤ target_limit)
unfolding get_next_target_required
get_next_target_required_bounded ssl stake chain bytes positive =
    target_by_one-IsWithin ssl bytes stake (get_last_block_index stake chain)
      (get_last_block_index-All stake chain positive)
