-- ===== src/Merkle/Levels.antt =====
-- The tree as a list of levels, each made of the pairs of the one before it.
use build_env_jenkins.Common.{
  ℕ, zero, suc, ◌+◌, ◌-◌, ◌/◌, ◌≤◌, ◌<◌, ◌≡◌, ◌∙◌, refl, sym, ap, subst, min, Bytes, List, [], ◌∷◌,
  ◌++◌, length, get_or, arith, append-nil, append_assoc, length-append, lt→ltb, le→ltb, ltb,
  Bool-cases, inl, inr, tests,
}
use build_env_jenkins.OpenSsl.{OpenSsl}
use build_env_jenkins.Merkle.{hash_two, level_loop, tree_loop}

pub get_or-append_left :
    (xs ys : List Bytes) (n : ℕ) → n < length xs → get_or (xs ++ ys) n [] ≡ get_or xs n []
get_or-append_left [] ys n h = absurd (omega arith)
get_or-append_left (x ∷ xs) ys zero h = refl
get_or-append_left (x ∷ xs) ys (suc n) h = get_or-append_left xs ys n (omega arith)

pub get_or-append_right :
    (xs ys : List Bytes) (n k : ℕ)
    → ◌≡◌ {A = ℕ} n (length xs + k)
    → get_or (xs ++ ys) n [] ≡ get_or ys k []
get_or-append_right [] ys n k e = ap (λ i. get_or ys i []) (omega arith)
get_or-append_right (x ∷ xs) ys zero k e = absurd (omega arith)
get_or-append_right (x ∷ xs) ys (suc n) k e = get_or-append_right xs ys n k (omega arith)

-- A part of the tree, from a place on.
pub record Holds (tree : List Bytes) (place : ℕ) (part : List Bytes) : Type 0 where
  pub inside : place + length part ≤ length tree
  pub same :
      (n k : ℕ) → k < length part → ◌≡◌ {A = ℕ} n (place + k) → get_or tree n [] ≡ get_or part k []

pub Holds-append :
    {tree part : List Bytes} {place : ℕ} (more : List Bytes)
    → Holds tree place part
    → Holds (tree ++ more) place part
Holds-append {tree} {part} {place} more h = record {
  inside = omega (arith, length-append tree more, h.inside);
  same = λ n k lt e. get_or-append_left tree more n (omega (arith, h.inside)) ∙ h.same n k lt e;
}

pub Holds-new : (tree more : List Bytes) → Holds (tree ++ more) (length tree) more
Holds-new tree more = record {
  inside = omega (arith, length-append tree more);
  same = λ n k lt e. get_or-append_right tree more n k e;
}

module _ (ssl : OpenSsl) where
  -- The level above a level: an odd last hash is paired with itself.
  abbrev pub pairs : List Bytes → List Bytes
  pairs [] = []
  pairs (a ∷ []) = hash_two ssl a a ∷ []
  pairs (a ∷ b ∷ level) = hash_two ssl a b ∷ pairs level

  pub length-pairs : (level : List Bytes) → length (pairs level) ≡ (length level + 1) / 2
  length-pairs [] = omega arith
  length-pairs (a ∷ []) = omega arith
  length-pairs (a ∷ b ∷ level) = omega (arith, length-pairs level)

  level_loop-end :
      (fuel j size i : ℕ) (tree : List Bytes) → size ≤ i → level_loop ssl fuel j size i tree ≡ tree
  unfolding level_loop
  level_loop-end zero j size i tree h = refl
  level_loop-end (suc fuel) j size i tree h = rw (le→ltb i size h)

  -- The inner loop appends the pairs of the part of the level that is left.
  level_loop-pairs :
      (fuel j size i : ℕ) (tree rest : List Bytes)
      → Holds tree (j + i) rest
      → ◌≡◌ {A = ℕ} size (i + length rest)
      → length rest ≤ fuel
      → level_loop ssl fuel j size i tree ≡ tree ++ pairs rest
  unfolding level_loop
  level_loop-pairs fuel j size i tree [] h e le =
      level_loop-end fuel j size i tree (omega arith) ∙ sym (append-nil tree)
  level_loop-pairs zero j size i tree (a ∷ rest) h e le = absurd (omega arith)
  level_loop-pairs (suc fuel) j size i tree (a ∷ []) h e le =
      rw
        (
          lt→ltb i size (omega arith),
          h.same (j + i) 0 (omega arith) (omega arith),
          h.same (j + min (i + 1) (size - 1)) 0 (omega arith) (omega arith),
        )
        (level_loop-end fuel j size (i + 2) (tree ++ hash_two ssl a a ∷ []) (omega arith))
  level_loop-pairs (suc fuel) j size i tree (a ∷ b ∷ rest) h e le =
      rw
        (
          lt→ltb i size (omega arith),
          h.same (j + i) 0 (omega arith) (omega arith),
          h.same (j + min (i + 1) (size - 1)) 1 (omega arith) (omega arith),
        )
        (level_loop-pairs fuel j size (i + 2) (tree ++ hash_two ssl a b ∷ []) rest
            (Holds-append (hash_two ssl a b ∷ []) (Holds-later h)) (omega arith) (omega arith)
          ∙ append_assoc tree (hash_two ssl a b ∷ []) (pairs rest))
    where
      Holds-later : Holds tree (j + i) (a ∷ b ∷ rest) → Holds tree (j + (i + 2)) rest
      Holds-later h = record {
        inside = omega (arith, h.inside);
        same = λ n k lt e. h.same n (suc (suc k)) (omega arith) (omega arith);
      }

  -- One turn of the outer loop, on a tree whose last level is known.
  pub tree_loop-step :
      (fuel j size : ℕ) (tree level : List Bytes)
      → Holds tree j level
      → ◌≡◌ {A = ℕ} size (length level)
      → 1 < size
      → tree_loop ssl (suc fuel) j size tree
        ≡ tree_loop ssl fuel (j + size) ((size + 1) / 2) (tree ++ pairs level)
  unfolding tree_loop
  tree_loop-step fuel j size tree level h e many = rw (
    lt→ltb 1 size many,
    level_loop-pairs size j size 0 tree level
        (record {
          inside = omega (arith, h.inside);
          same = λ n k lt e. h.same n k lt (omega arith);
        })
        (omega arith) (omega arith),
  )

  pub tree_loop-end :
      (fuel j size : ℕ) (tree : List Bytes) → size ≤ 1 → tree_loop ssl fuel j size tree ≡ tree
  unfolding tree_loop
  tree_loop-end zero j size tree h = refl
  tree_loop-end (suc fuel) j size tree h = rw (le→ltb 1 size h)

  -- The level above stands where the level ends.
  pub Holds-above :
      (tree level : List Bytes) (j size : ℕ)
      → ◌≡◌ {A = ℕ} (length tree) (j + size)
      → Holds (tree ++ pairs level) (j + size) (pairs level)
  Holds-above tree level j size l =
      subst (λ n. Holds (tree ++ pairs level) n (pairs level)) l (Holds-new tree (pairs level))

  -- What the tree holds it goes on to hold.
  pub tree_loop-Holds :
      (fuel j size : ℕ) (tree level : List Bytes) {place : ℕ} {part : List Bytes}
      → Holds tree j level
      → ◌≡◌ {A = ℕ} size (length level)
      → ◌≡◌ {A = ℕ} (length tree) (j + size)
      → Holds tree place part
      → Holds (tree_loop ssl fuel j size tree) place part
  unfolding tree_loop
  tree_loop-Holds zero j size tree level h e l known = known
  tree_loop-Holds (suc fuel) j size tree level {place} {part} h e l known =
      elim (Bool-cases (ltb 1 size)) [
        | inl many ↦
            subst (λ t. Holds t place part)
              (sym (tree_loop-step fuel j size tree level h e (omega tests)))
              (tree_loop-Holds fuel (j + size) ((size + 1) / 2) (tree ++ pairs level) (pairs level)
                (Holds-above tree level j size l) (omega (arith, length-pairs level))
                (omega (arith, length-append tree (pairs level), length-pairs level))
                (Holds-append (pairs level) known))
        | inr one ↦ rw one known
      ]
