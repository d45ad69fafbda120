-- ===== src/Wallet/Coins/Subsets.antt =====
-- What `ApproximateBestSubset` keeps of its sums and flags.
use build_env_jenkins.Common.{
  ℕ, zero, suc, ◌+◌, ◌-◌, ◌≤◌, ◌<◌, ◌≡◌, ◌∙◌, refl, sym, ap, List, [], ◌∷◌, Bool, true, false, not,
  length, get_or, set, replicate, ltb, leb, ◌==◌, if◌then◌else◌, Bool-cases, inl, inr, arith,
}
use build_env_jenkins.Wallet.Coins.{
  Output, Subset, value_at, add_coin, turn, pass, drawn, left_out, cleared_flags, round,
  approximate, best_subset, chosen, sum_values,
}

length-set : (fs : List Bool) (i : ℕ) (b : Bool) → length (set fs i b) ≡ length fs
length-set [] i b = refl
length-set (f ∷ fs) zero b = refl
length-set (f ∷ fs) (suc i) b = ap suc (length-set fs i b)

length-replicate : (n : ℕ) (b : Bool) → length (replicate n b) ≡ n
length-replicate zero b = refl
length-replicate (suc n) b = ap suc (length-replicate n b)

set_back : (fs : List Bool) (i : ℕ) → get_or fs i false ≡ false → set (set fs i true) i false ≡ fs
set_back [] i h = refl
set_back (f ∷ fs) zero h = ap (λ b. b ∷ fs) (sym h)
set_back (f ∷ fs) (suc i) h = ap (λ v. f ∷ v) (set_back fs i h)

get_or-set :
    (fs : List Bool) (i j : ℕ) (b : Bool) → i < j → get_or (set fs i b) j false ≡ get_or fs j false
get_or-set [] i j b h = refl
get_or-set (f ∷ fs) i zero b h = absurd (omega arith)
get_or-set (f ∷ fs) zero (suc j) b h = refl
get_or-set (f ∷ fs) (suc i) (suc j) b h = get_or-set fs i j b (omega arith)

get_or-replicate : (n j : ℕ) → get_or (replicate n false) j false ≡ false
get_or-replicate zero j = refl
get_or-replicate (suc n) zero = refl
get_or-replicate (suc n) (suc j) = get_or-replicate n j

-- A coin that comes in adds its value.
sum-set :
    (cs : List Output) (fs : List Bool) (i : ℕ)
    → length fs ≡ length cs
    → i < length cs
    → get_or fs i false ≡ false
    → sum_values (chosen cs (set fs i true)) ≡ sum_values (chosen cs fs) + value_at cs i
sum-set [] fs i n h out = absurd (omega arith)
sum-set (c ∷ cs) [] i n h out = absurd (omega (arith, n))
sum-set (c ∷ cs) (true ∷ fs) zero n h out = cc out
sum-set (c ∷ cs) (false ∷ fs) zero n h out = omega arith
sum-set (c ∷ cs) (true ∷ fs) (suc i) n h out =
    omega (arith, sum-set cs fs i (omega (arith, n)) (omega arith) out)
sum-set (c ∷ cs) (false ∷ fs) (suc i) n h out = sum-set cs fs i (omega (arith, n)) (omega arith) out

sum-none : (cs : List Output) → sum_values (chosen cs (replicate (length cs) false)) ≡ 0
sum-none [] = refl
sum-none (c ∷ cs) = sum-none cs

pub sum-all :
    (cs : List Output) → sum_values (chosen cs (replicate (length cs) true)) ≡ sum_values cs
sum-all [] = refl
sum-all (c ∷ cs) = ap (λ n. c.n_value + n) (sum-all cs)

module _ (coins : List Output) (target : ℕ) where
  -- The best sum so far is that of its flags, and reaches the target.
  pub record IsBest (s : Subset) : Type 0 where
    pub sized : length s.best_included ≡ length coins
    pub summed : s.best ≡ sum_values (chosen coins s.best_included)
    pub reaches : target ≤ s.best

  -- So is the sum of the turn.
  record IsSummed (s : Subset) : Type 0 where
    best : IsBest s
    sized : length s.included ≡ length coins
    summed : s.total ≡ sum_values (chosen coins s.included)

  -- A sum that reaches the target is kept where it is less than the best.
  better :
      (less : Bool) (i : ℕ) (s : Subset)
      → i < length coins
      → get_or s.included i false ≡ false
      → target ≤ s.total + value_at coins i
      → IsSummed s
      → IsSummed (record {
        total = s.total + value_at coins i - value_at coins i;
        included = set (set s.included i true) i false;
        reached = true;
        best = if less then s.total + value_at coins i else s.best;
        best_included = if less then set s.included i true else s.best_included;
      })
  better less i s h out over summed = record {
    best = best less;
    sized =
        length-set (set s.included i true) i false ∙ length-set s.included i true ∙ summed.sized;
    summed =
        cancel s.total (value_at coins i)
        ∙ summed.summed
        ∙ ap (λ fs. sum_values (chosen coins fs)) (sym (set_back s.included i out));
  }
    where
      cancel : (a b : ℕ) → a + b - b ≡ a
      cancel a b = omega arith

      best :
          (less : Bool)
          → IsBest (record {
            total = s.total + value_at coins i - value_at coins i;
            included = set (set s.included i true) i false;
            reached = true;
            best = if less then s.total + value_at coins i else s.best;
            best_included = if less then set s.included i true else s.best_included;
          })
      best true = record {
        sized = length-set s.included i true ∙ summed.sized;
        summed =
            ap (λ n. n + value_at coins i) summed.summed
            ∙ sym (sum-set coins s.included i summed.sized h out);
        reaches = over;
      }
      best false = record {
        sized = summed.best.sized;
        summed = summed.best.summed;
        reaches = summed.best.reaches;
      }

  add_coin-IsSummed :
      (i : ℕ) (s : Subset)
      → i < length coins
      → get_or s.included i false ≡ false
      → IsSummed s
      → IsSummed (add_coin coins target i s)
  unfolding add_coin
  add_coin-IsSummed i s h out summed = elim (Bool-cases (leb target (s.total + value_at coins i))) [
    | inl over ↦
        rw over (better (ltb (s.total + value_at coins i) s.best) i s h out (reached over) summed)
    | inr under ↦ rw under (record {
      best = record {
        sized = summed.best.sized;
        summed = summed.best.summed;
        reaches = summed.best.reaches;
      };
      sized = length-set s.included i true ∙ summed.sized;
      summed =
          ap (λ n. n + value_at coins i) summed.summed
          ∙ sym (sum-set coins s.included i summed.sized h out);
    })
  ]
    where
      reached : leb target (s.total + value_at coins i) ≡ true → target ≤ s.total + value_at coins i
      reached e = ground arith

  -- A pass adds coins that are out only, so it keeps the sums.
  abbrev AddsOut : (ℕ → Bool → Bool) → ℕ → List Bool → Type 0
  AddsOut adds i fs =
      (j : ℕ) → i ≤ j → adds j (get_or fs j false) ≡ true → get_or fs j false ≡ false

  turn-IsSummed :
      (adds : ℕ → Bool → Bool) (i : ℕ) (s : Subset)
      → i < length coins
      → AddsOut adds i s.included
      → IsSummed s
      → IsSummed (turn adds coins target i s)
  turn-IsSummed adds i s h out summed = elim (Bool-cases (adds i (get_or s.included i false))) [
    | inl added ↦ rw added (add_coin-IsSummed i s h (out i (omega arith) added) summed)
    | inr skipped ↦ rw skipped summed
  ]

  -- A turn leaves the flags behind its position alone.
  turn-other :
      (adds : ℕ → Bool → Bool) (i j : ℕ) (s : Subset)
      → i < j
      → get_or (turn adds coins target i s).included j false ≡ get_or s.included j false
  unfolding add_coin
  turn-other adds i j s h = elim (Bool-cases (adds i (get_or s.included i false))) [
    | inr skipped ↦ rw skipped
    | inl added ↦ rw added (elim (Bool-cases (leb target (s.total + value_at coins i))) [
      | inl over ↦
          rw over
            (get_or-set (set s.included i true) i j false h ∙ get_or-set s.included i j true h)
      | inr under ↦ rw under (get_or-set s.included i j true h)
    ])
  ]

  turn-AddsOut :
      (adds : ℕ → Bool → Bool) (i : ℕ) (s : Subset)
      → AddsOut adds i s.included
      → AddsOut adds (suc i) (turn adds coins target i s).included
  turn-AddsOut adds i s out j h = rw (turn-other adds i j s (omega arith)) (out j (omega arith))

  pass-IsSummed :
      (adds : ℕ → Bool → Bool) (n i : ℕ) (s : Subset)
      → i + n ≡ length coins
      → AddsOut adds i s.included
      → IsSummed s
      → IsSummed (pass adds coins target n i s)
  unfolding pass
  pass-IsSummed adds zero i s h out summed = summed
  pass-IsSummed adds (suc n) i s h out summed =
      pass-IsSummed adds n (suc i) (turn adds coins target i s) (omega (arith, h))
        (turn-AddsOut adds i s out) (turn-IsSummed adds i s (omega (arith, h)) out summed)

  round-IsBest : (draws : ℕ → Bool) (s : Subset) → IsBest s → IsBest (round draws coins target s)
  unfolding round
  round-IsBest draws s best = by_pass (pass (drawn draws) coins target (length coins) 0 start) first
    where
      start : Subset
      start = record s { total = 0; included = cleared_flags coins; reached = false }

      first : IsSummed (pass (drawn draws) coins target (length coins) 0 start)
      first =
          pass-IsSummed (drawn draws) (length coins) 0 start (omega arith)
            (λ j le e. get_or-replicate (length coins) j)
            (record {
              best = record { sized = best.sized; summed = best.summed; reaches = best.reaches };
              sized = length-replicate (length coins) false;
              summed = sym (sum-none coins);
            })

      left : (b : Bool) → not b ≡ true → b ≡ false
      left true e = cc e
      left false e = refl

      either : {t u : Subset} (done : Bool) → IsBest t → IsBest u → IsBest (if done then t else u)
      either true h k = h
      either false h k = k

      by_pass :
          (t : Subset)
          → IsSummed t
          → IsBest (if t.reached then t else pass left_out coins target (length coins) 0 t)
      by_pass t summed =
          either t.reached summed.best
            (pass-IsSummed left_out (length coins) 0 t (omega arith)
              (λ j le e. left (get_or t.included j false) e) summed).best

  approximate-IsBest :
      (draws : ℕ → ℕ → Bool) (n rep : ℕ) (s : Subset)
      → IsBest s
      → IsBest (approximate draws coins target n rep s)
  unfolding approximate
  approximate-IsBest draws zero rep s best = best
  approximate-IsBest draws (suc n) rep s best = elim (Bool-cases (s.best == target)) [
    | inl met ↦ rw (approximate, met) best
    | inr unmet ↦
        rw (approximate, unmet)
          (approximate-IsBest draws n (suc rep) (round (draws rep) coins target s)
            (round-IsBest (draws rep) s best))
  ]

  -- The sum of all the coins has to reach the target.
  pub best_subset-IsBest :
      (draws : ℕ → ℕ → Bool) (total_lower : ℕ)
      → total_lower ≡ sum_values coins
      → target ≤ total_lower
      → IsBest (best_subset draws coins total_lower target)
  unfolding best_subset
  best_subset-IsBest draws total_lower e h =
      approximate-IsBest draws 1000 0
        (record {
          total = 0;
          included = [];
          reached = false;
          best = total_lower;
          best_included = replicate (length coins) true;
        })
        (record {
          sized = length-replicate (length coins) true;
          summed = e ∙ sym (sum-all coins);
          reaches = h;
        })
