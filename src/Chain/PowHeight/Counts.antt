-- ===== src/Chain/PowHeight/Counts.antt =====
-- `GetPowHeight` and `GetPosHeight` count the blocks of the whole chain.
use build_env_jenkins.Common.{
  ℕ, zero, suc, ◌+◌, ◌-◌, ◌≤◌, ◌<◌, ◌≡◌, ◌∙◌, refl, sym, ap, List, [], ◌∷◌, reverse, reverse-cons,
  Bool, true, false, Option, none, some, length, drop, take, All, All-append, ltb, leb,
  if◌then◌else◌, Bool-cases, inl, inr, arith,
}
use build_env_jenkins.Common.Int.{sub_ℕ, pos_part, neg_part, eq_of_parts}
use build_env_jenkins.Chain.PowHeight.{
  BlockIndex, find_checkpoint, count_block, count_back, add_count, get_pow_height, get_pos_height,
}

-- How many blocks of each kind a chain has.
abbrev pub count_pow : List BlockIndex → ℕ
count_pow [] = 0
count_pow (b ∷ chain) = count_block b + count_pow chain

abbrev pub count_pos : List BlockIndex → ℕ
count_pos [] = 0
count_pos (b ∷ chain) = (if b.is_proof_of_stake then 1 else 0) + count_pos chain

-- Every block stands one above the block before it, and the last, the genesis block, at 0.
abbrev pub IsChain : List BlockIndex → Type 0
IsChain [] = Unit
IsChain (b ∷ chain) = (b.n_height ≡ length chain) × IsChain chain

-- The part of a chain up to a height.
abbrev pub up_to : ℕ → List BlockIndex → List BlockIndex
up_to height chain = drop (length chain - suc height) chain

-- A checkpoint below the tip has the count of the chain up to it.
abbrev pub Agrees : List BlockIndex → ℕ × ℕ → Type 0
Agrees chain (h, c) = suc h < length chain → count_pow (up_to h chain) ≡ c

count_back-take :
    (n : ℕ) (chain : List BlockIndex)
    → n ≤ length chain
    → count_back n chain ≡ some (count_pow (take n chain))
unfolding count_back
count_back-take zero chain h = refl
count_back-take (suc n) [] h = absurd (omega arith)
count_back-take (suc n) (b ∷ chain) h = rw (count_back, count_back-take n chain (omega arith))

count_pow-split :
    (n : ℕ) (chain : List BlockIndex)
    → count_pow (take n chain) + count_pow (drop n chain) ≡ count_pow chain
count_pow-split zero chain = omega arith
count_pow-split (suc n) [] = omega arith
count_pow-split (suc n) (b ∷ chain) = omega (arith, count_pow-split n chain)

add_count-split :
    (n c : ℕ) (chain : List BlockIndex)
    → n ≤ length chain
    → count_pow (drop n chain) ≡ c
    → add_count c (count_back n chain) ≡ some (count_pow chain)
add_count-split n c chain h e =
    ap (add_count c) (count_back-take n chain h)
    ∙ ap (λ k. some k) (ap (λ k. count_pow (take n chain) + k) (sym e) ∙ count_pow-split n chain)

-- What the search finds is in the table, and below the height.
abbrev IsFound : List BlockIndex → ℕ → Option (ℕ × ℕ) → Type 0
IsFound chain height none = Unit
IsFound chain height (some (h, c)) = (h < height) × Agrees chain (h, c)

find_checkpoint-IsFound :
    (chain : List BlockIndex) (height : ℕ) (table : List (ℕ × ℕ))
    → All (Agrees chain) table
    → IsFound chain height (find_checkpoint height table)
unfolding find_checkpoint
find_checkpoint-IsFound chain height [] h = tt
find_checkpoint-IsFound chain height ((k, c) ∷ table) h = elim (Bool-cases (ltb k height)) [
  | inl below ↦ rw (find_checkpoint, below) (ground arith, h.0)
  | inr above ↦ rw (find_checkpoint, above) (find_checkpoint-IsFound chain height table h.1)
]

All-reverse : (P : ℕ × ℕ → Type 0) (table : List (ℕ × ℕ)) → All P table → All P (reverse table)
All-reverse P [] h = tt
All-reverse P (e ∷ table) h =
    rw reverse-cons (All-append P (reverse table) (e ∷ []) (All-reverse P table h.1) (h.0, tt))

count_blocks : (chain : List BlockIndex) → count_pow chain + count_pos chain ≡ length chain
count_blocks [] = omega arith
count_blocks (b ∷ chain) = omega (arith, one_of b.is_proof_of_stake, count_blocks chain)
  where
    one_of : (s : Bool) → (if s then 0 else 1) + (if s then 1 else 0) ≡ 1
    one_of true = omega arith
    one_of false = omega arith

pos_sub : (a b : ℕ) → pos_part (sub_ℕ a b) ≡ a - b
pos_sub a b = elim (Bool-cases (leb b a)) [
  | inl fits ↦ rw fits
  | inr short ↦ rw short (zero_left short)
]
  where
    zero_left : leb b a ≡ false → 0 ≡ a - b
    zero_left e = ground arith

neg_sub : (a b : ℕ) → neg_part (sub_ℕ a b) ≡ b - a
neg_sub a b = elim (Bool-cases (leb b a)) [
  | inl fits ↦ rw fits (zero_left fits)
  | inr short ↦ rw short (one_back short)
]
  where
    zero_left : leb b a ≡ true → 0 ≡ b - a
    zero_left e = ground arith

    one_back : leb b a ≡ false → suc (b - a - 1) ≡ b - a
    one_back e = ground arith

-- Differences are the same where the sums across are.
sub_balance : (a b c d : ℕ) → a + d ≡ c + b → sub_ℕ a b ≡ sub_ℕ c d
sub_balance a b c d h =
    eq_of_parts (sub_ℕ a b) (sub_ℕ c d)
      (omega (arith, pos_sub a b, neg_sub c d, pos_sub c d, neg_sub a b, h))

module _ (b : BlockIndex) (chain : List BlockIndex) where
  get_pow_height-count :
      (table : List (ℕ × ℕ))
      → b.n_height ≡ length chain
      → count_pow (up_to 0 (b ∷ chain)) ≡ 1
      → All (Agrees (b ∷ chain)) table
      → get_pow_height table (b ∷ chain) ≡ some (count_pow (b ∷ chain))
  unfolding get_pow_height
  get_pow_height-count table height genesis agrees =
      by_found (find_checkpoint b.n_height (reverse table)) (
        find_checkpoint-IsFound (b ∷ chain) b.n_height (reverse table)
          (All-reverse (Agrees (b ∷ chain)) table agrees))
    where
      by_found :
          (found : Option (ℕ × ℕ))
          → IsFound (b ∷ chain) b.n_height found
          → (elim found as (λ x. Option ℕ) [
            | none ↦ add_count 1 (count_back b.n_height (b ∷ chain))
            | some (h, c) ↦ add_count c (count_back (b.n_height - h) (b ∷ chain))
          ])
            ≡ some (count_pow (b ∷ chain))
      by_found none f =
          add_count-split b.n_height 1 (b ∷ chain) (omega (arith, height))
            (ap (λ n. count_pow (drop n (b ∷ chain))) (omega (arith, height)) ∙ genesis)
      by_found (some (h, c)) (below, agree) =
          add_count-split (b.n_height - h) c (b ∷ chain) (omega (arith, height)) (
            ap (λ n. count_pow (drop n (b ∷ chain))) (omega (arith, height))
            ∙ agree (omega (arith, below, height)))

  -- On a chain whose genesis block is of proof of work, and whose checkpoints agree with it,
  -- `GetPowHeight` is the number of all its blocks of proof of work, whichever checkpoint it
  -- starts from, and `GetPosHeight` is one less than the number of the others.
  pub pow_height_counts :
      (table : List (ℕ × ℕ))
      → IsChain (b ∷ chain)
      → count_pow (up_to 0 (b ∷ chain)) ≡ 1
      → All (Agrees (b ∷ chain)) table
      → (get_pow_height table (b ∷ chain) ≡ some (count_pow (b ∷ chain)))
        × (get_pos_height table (b ∷ chain) ≡ some (sub_ℕ (count_pos (b ∷ chain)) 1))
  unfolding get_pos_height
  pow_height_counts table valid genesis agrees =
      let counted = get_pow_height-count table valid.0 genesis agrees in
      (counted, rw (get_pos_height, counted) (ap (λ z. some z) (balance valid.0)))
    where
      balance :
          b.n_height ≡ length chain
          → sub_ℕ b.n_height (count_pow (b ∷ chain)) ≡ sub_ℕ (count_pos (b ∷ chain)) 1
      balance height =
          sub_balance b.n_height (count_pow (b ∷ chain)) (count_pos (b ∷ chain)) 1
            (omega (arith, height, count_blocks (b ∷ chain)))
