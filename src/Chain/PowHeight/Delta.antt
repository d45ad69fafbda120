-- ===== src/Chain/PowHeight/Delta.antt =====
-- `CountPowDelta` counts the blocks of proof of work from a height on.
use build_env_jenkins.Common.{
  ℕ, ◌+◌, ◌≤◌, ◌<◌, ◌≡◌, ◌∙◌, refl, sym, ap, List, [], ◌∷◌, Bool, true, false, length, ltb,
  if◌then◌else◌, Bool-cases, inl, inr, arith,
}
use build_env_jenkins.Chain.PowHeight.{BlockIndex, count_block, delta_loop, count_pow_delta}
use build_env_jenkins.Chain.PowHeight.Counts.{IsChain}

-- How many blocks of proof of work a chain has at a height and above.
abbrev pub count_from : ℕ → List BlockIndex → ℕ
count_from height [] = 0
count_from height (b ∷ chain) =
    (if ltb b.n_height height then 0 else count_block b) + count_from height chain

below : (n k : ℕ) → n < k → ltb n k ≡ true
below n k h = ground arith

above : (n k : ℕ) → k ≤ n → ltb n k ≡ false
above n k h = ground arith

-- A chain that is too short has none.
count_from-short :
    (height : ℕ) (chain : List BlockIndex)
    → IsChain chain
    → length chain ≤ height
    → count_from height chain ≡ 0
count_from-short height [] valid h = refl
count_from-short height (b ∷ chain) valid h = omega (
  arith,
  ap (λ t. if t then 0 else count_block b) (below b.n_height height (omega (arith, valid.0, h))),
  count_from-short height chain valid.1 (omega (arith, h)),
)

counted :
    (height : ℕ) (b : BlockIndex)
    → height ≤ b.n_height
    → (if ltb b.n_height height then 0 else count_block b) ≡ count_block b
counted height b h = ap (λ t. if t then 0 else count_block b) (above b.n_height height h)

delta_loop-count :
    (height : ℕ) (b : BlockIndex) (chain : List BlockIndex)
    → IsChain (b ∷ chain)
    → height ≤ b.n_height
    → delta_loop height (b ∷ chain) ≡ count_from height (b ∷ chain)
unfolding delta_loop
delta_loop-count height b [] valid h = omega (arith, counted height b h)
delta_loop-count height b (p ∷ ps) valid h = elim (Bool-cases (ltb p.n_height height)) [
  | inl low ↦ goes low ∙ omega (arith, counted height b h, short low)
  | inr high ↦
      goes high
      ∙ omega (arith, counted height b h, delta_loop-count height p ps valid.1 (long high))
]
  where
    goes :
        {t : Bool}
        → ltb p.n_height height ≡ t
        → (if ltb p.n_height height
            then count_block b
            else count_block b + delta_loop height (p ∷ ps))
          ≡ (if t then count_block b else count_block b + delta_loop height (p ∷ ps))
    goes e = ap (λ t. if t then count_block b else count_block b + delta_loop height (p ∷ ps)) e

    under : ltb p.n_height height ≡ true → p.n_height < height
    under e = ground arith

    long : ltb p.n_height height ≡ false → height ≤ p.n_height
    long e = ground arith

    short : ltb p.n_height height ≡ true → count_from height (p ∷ ps) ≡ 0
    short e = count_from-short height (p ∷ ps) valid.1 (omega (arith, under e, valid.1.0))

-- On a chain `CountPowDelta` is the number of its blocks of proof of work at the height of the
-- super block and above.
pub count_pow_delta-count :
    (super_block : ℕ) (b : BlockIndex) (chain : List BlockIndex)
    → IsChain (b ∷ chain)
    → count_pow_delta super_block b chain ≡ count_from super_block (b ∷ chain)
unfolding count_pow_delta
count_pow_delta-count super_block b chain valid = by_delta (ltb super_block (b.n_height + 1)) refl
  where
    reached : ltb super_block (b.n_height + 1) ≡ true → super_block ≤ b.n_height
    reached e = ground arith

    missed : ltb super_block (b.n_height + 1) ≡ false → b.n_height < super_block
    missed e = ground arith

    by_delta :
        (positive : Bool)
        → ltb super_block (b.n_height + 1) ≡ positive
        → (if positive then delta_loop super_block (b ∷ chain) else 0)
          ≡ count_from super_block (b ∷ chain)
    by_delta true e = delta_loop-count super_block b chain valid (reached e)
    by_delta false e =
        sym (count_from-short super_block (b ∷ chain) valid (omega (arith, missed e, valid.0)))
