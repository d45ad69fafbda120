-- ===== src/Wallet/Coins/Scan.antt =====
-- What the loop of `SelectCoinsMinConf` over the outputs leaves.
use build_env_jenkins.Common.{
  ℕ, ◌+◌, ◌≤◌, ◌<◌, ◌≡◌, ◌∙◌, refl, sym, ap, subst, List, [], ◌∷◌, ◌++◌, Bool, true, false, Option,
  none, some, All, ltb, ◌==◌, ==_iff, if◌then◌else◌, ◌&&◌, append_assoc, append-nil, All-append,
  arith,
}
use mathlib.Core.List.{Subperm, sublist-append_left, sublist-append_right, Subperm-append_right}
use mathlib.Core.List.Subperm
use mathlib.Core.List.Sublist
use build_env_jenkins.Transaction.Check.{cent}
use build_env_jenkins.Wallet.Coins.{
  Output, Request, eligible, Candidates, no_candidates, place, Scanned, exact, scanned, scan_loop,
  sum_by, sum_values,
}

-- The value of an output that the loop looks at.
abbrev pub weight : Request → Output → ℕ
weight r o = if eligible r o then o.n_value else 0

-- What all the outputs that the loop looks at come to.
abbrev pub sum_eligible : Request → List Output → ℕ
sum_eligible r os = sum_by (weight r) os

sum_eligible-snoc :
    (r : Request) (os : List Output) (o : Output)
    → sum_eligible r (os ++ o ∷ []) ≡ sum_eligible r os + weight r o
sum_eligible-snoc r [] o = omega arith
sum_eligible-snoc r (x ∷ os) o = omega (arith, sum_eligible-snoc r os o)

sum_values-snoc :
    (os : List Output) (o : Output) → sum_values (os ++ o ∷ []) ≡ sum_values os + o.n_value
sum_values-snoc [] o = omega arith
sum_values-snoc (x ∷ os) o = omega (arith, sum_values-snoc os o)

module _ (r : Request) where
  -- The coin above the others, once there is one; before, every eligible output is below.
  pub data IsLarger (seen : List Output) (c : Candidates) : Option Output → Type 0 where
    none_yet :
        c.larger_value ≡ 9223372036854775807
        → c.total_lower ≡ sum_eligible r seen
        → IsLarger seen c none
    larger_is :
        {o : Output}
        → c.larger_value ≡ o.n_value
        → r.target + cent ≤ o.n_value
        → eligible r o ≡ true
        → o.n_value ≤ sum_eligible r seen
        → Subperm (o ∷ []) seen
        → IsLarger seen c (some o)

  pub record IsScan (seen : List Output) (c : Candidates) : Type 0 where
    pub summed : c.total_lower ≡ sum_values c.lower
    pub bounded : c.total_lower ≤ sum_eligible r seen
    pub part : Subperm c.lower seen
    pub are_eligible : All (λ o. eligible r o ≡ true) c.lower
    pub above : IsLarger seen c c.larger

  weight_of : (o : Output) → eligible r o ≡ true → weight r o ≡ o.n_value
  weight_of o e = ap (λ b. if b then o.n_value else 0) e

  no_weight : (o : Output) → eligible r o ≡ false → weight r o ≡ 0
  no_weight o e = ap (λ b. if b then o.n_value else 0) e

  before :
      (seen : List Output) (o : Output) {xs : List Output}
      → Subperm xs seen
      → Subperm xs (seen ++ o ∷ [])
  before seen o h = Subperm.trans h (Sublist.subperm (sublist-append_left seen (o ∷ [])))

  -- One output more, which does not become the coin above.
  carry :
      (seen : List Output) (o : Output) (c c' : Candidates) {m : Option Output}
      → c'.larger_value ≡ c.larger_value
      → c'.total_lower ≡ c.total_lower + weight r o
      → IsLarger seen c m
      → IsLarger (seen ++ o ∷ []) c' m
  carry seen o c c' same total (none_yet value all) =
      none_yet (same ∙ value) (omega (arith, total, all, sum_eligible-snoc r seen o))
  carry seen o c c' same total (larger_is value far e bound part) =
      larger_is (same ∙ value) far e (omega (arith, bound, sum_eligible-snoc r seen o))
        (before seen o part)

  place-low :
      (seen : List Output) (o : Output) (c : Candidates)
      → eligible r o ≡ true
      → IsScan seen c
      → IsScan
          (seen ++ o ∷ [])
          (record c { lower = c.lower ++ o ∷ []; total_lower = c.total_lower + o.n_value })
  place-low seen o c e h = record {
    summed = ap (λ n. n + o.n_value) h.summed ∙ sym (sum_values-snoc c.lower o);
    bounded = omega (arith, h.bounded, sum_eligible-snoc r seen o, weight_of o e);
    part = (Subperm-append_right (o ∷ [])).1 h.part;
    are_eligible = All-append (λ x. eligible r x ≡ true) c.lower (o ∷ []) h.are_eligible (e, tt);
    above =
        carry seen o c
          (record c { lower = c.lower ++ o ∷ []; total_lower = c.total_lower + o.n_value }) refl
          (ap (λ n. c.total_lower + n) (sym (weight_of o e))) h.above;
  }

  kept :
      (seen : List Output) (o : Output) (c : Candidates)
      → IsScan seen c
      → IsLarger (seen ++ o ∷ []) c c.larger
      → IsScan (seen ++ o ∷ []) c
  kept seen o c h above = record {
    summed = h.summed;
    bounded = omega (arith, h.bounded, sum_eligible-snoc r seen o);
    part = before seen o h.part;
    are_eligible = h.are_eligible;
    above = above;
  }

  skip-IsScan :
      (seen : List Output) (o : Output) (c : Candidates)
      → eligible r o ≡ false
      → IsScan seen c
      → IsScan (seen ++ o ∷ []) c
  skip-IsScan seen o c e h =
      kept seen o c h (carry seen o c c refl (nothing (no_weight o e)) h.above)
    where
      nothing : weight r o ≡ 0 → c.total_lower ≡ c.total_lower + weight r o
      nothing z = omega (arith, z)

  -- A large output that is not below the coin above leaves that coin, which then is one.
  keeps_IsLarger :
      (seen : List Output) (o : Output) (c : Candidates) {m : Option Output}
      → o.n_value < 9223372036854775807
      → ltb o.n_value c.larger_value ≡ false
      → IsLarger seen c m
      → IsLarger (seen ++ o ∷ []) c m
  keeps_IsLarger seen o c small e (none_yet value all) =
      absurd (impossible o.n_value c.larger_value value small e)
    where
      impossible :
          (a b : ℕ) → b ≡ 9223372036854775807 → a < 9223372036854775807 → ltb a b ≡ false → ⊥
      impossible a b h k e = ground arith
  keeps_IsLarger seen o c small e (larger_is value far ok bound part) =
      larger_is value far ok (omega (arith, bound, sum_eligible-snoc r seen o)) (before seen o part)

  place-high :
      (seen : List Output) (o : Output) (c : Candidates) (less : Bool)
      → ltb o.n_value c.larger_value ≡ less
      → eligible r o ≡ true
      → o.n_value < 9223372036854775807
      → r.target + cent ≤ o.n_value
      → IsScan seen c
      → IsScan
          (seen ++ o ∷ [])
          (if less then record c { larger_value = o.n_value; larger = some o } else c)
  place-high seen o c false less e small far h =
      kept seen o c h (keeps_IsLarger seen o c small less h.above)
  place-high seen o c true less e small far h = record {
    summed = h.summed;
    bounded = omega (arith, h.bounded, sum_eligible-snoc r seen o);
    part = before seen o h.part;
    are_eligible = h.are_eligible;
    above =
        larger_is refl far e (omega (arith, sum_eligible-snoc r seen o, weight_of o e))
          (Sublist.subperm (sublist-append_right seen (o ∷ [])));
  }

  place-IsScan :
      (seen : List Output) (o : Output) (c : Candidates)
      → eligible r o ≡ true
      → o.n_value < 9223372036854775807
      → IsScan seen c
      → IsScan (seen ++ o ∷ []) (place r.target o c)
  place-IsScan seen o c e small h = by_size (ltb o.n_value (r.target + cent)) refl
    where
      far : ltb o.n_value (r.target + cent) ≡ false → r.target + cent ≤ o.n_value
      far k = ground arith

      by_size :
          (low : Bool)
          → ltb o.n_value (r.target + cent) ≡ low
          → IsScan (seen ++ o ∷ []) (
              if low
              then record c { lower = c.lower ++ o ∷ []; total_lower = c.total_lower + o.n_value }
              else if ltb o.n_value c.larger_value
              then record c { larger_value = o.n_value; larger = some o }
              else c)
      by_size true k = place-low seen o c e h
      by_size false k = place-high seen o c (ltb o.n_value c.larger_value) refl e small (far k) h

  -- What the loop ends with: an output of the target's value, or the candidates among all.
  pub data IsScanned (all : List Output) : Scanned → Type 0 where
    is_exact :
        {o : Output}
        → o.n_value ≡ r.target
        → eligible r o ≡ true
        → o.n_value ≤ sum_eligible r all
        → Subperm (o ∷ []) all
        → IsScanned all (exact o)
    is_scanned : {c : Candidates} → IsScan all c → IsScanned all (scanned c)

  both : (a b : Bool) → (a && b) ≡ true → (a ≡ true) × (b ≡ true)
  both true b e = (refl, e)
  both false b e = cc e

  step-IsScan :
      (seen : List Output) (o : Output) (c : Candidates) (looks : Bool)
      → eligible r o ≡ looks
      → o.n_value < 9223372036854775807
      → IsScan seen c
      → IsScan (seen ++ o ∷ []) (if looks then place r.target o c else c)
  step-IsScan seen o c true e small h = place-IsScan seen o c e small h
  step-IsScan seen o c false e small h = skip-IsScan seen o c e h

  pub scan_loop-IsScanned :
      (seen os : List Output) (c : Candidates)
      → All (λ o. o.n_value < 9223372036854775807) os
      → IsScan seen c
      → IsScanned (seen ++ os) (scan_loop r os c)
  unfolding scan_loop
  scan_loop-IsScanned seen [] c small h =
      is_scanned (subst (λ s. IsScan s c) (sym (append-nil seen)) h)
  scan_loop-IsScanned seen (o ∷ os) c small h =
      by_value (eligible r o && o.n_value == r.target) refl (
        subst (λ s. IsScanned s (scan_loop r os (if eligible r o then place r.target o c else c)))
          (append_assoc seen (o ∷ []) os)
          (scan_loop-IsScanned (seen ++ o ∷ []) os (if eligible r o then place r.target o c else c)
            small.1 (step-IsScan seen o c (eligible r o) refl small.0 h)))
    where
      within : (xs : List Output) → sum_eligible r (o ∷ os) ≤ sum_eligible r (xs ++ o ∷ os)
      within [] = omega arith
      within (x ∷ xs) = omega (arith, within xs)

      found_here :
          (eligible r o ≡ true) × ((o.n_value == r.target) ≡ true)
          → IsScanned (seen ++ o ∷ os) (exact o)
      found_here (e, same) =
          is_exact ((==_iff o.n_value r.target).0 same) e
            (omega (arith, within seen, weight_of o e))
            (Subperm.trans (Sublist.subperm (sublist-append_left (o ∷ []) os))
              (Sublist.subperm (sublist-append_right seen (o ∷ os))))

      by_value :
          {rest : Scanned} (hit : Bool)
          → (eligible r o && o.n_value == r.target) ≡ hit
          → IsScanned (seen ++ o ∷ os) rest
          → IsScanned (seen ++ o ∷ os) (if hit then exact o else rest)
      by_value true e later = found_here (both (eligible r o) (o.n_value == r.target) e)
      by_value false e later = later

  pub no_candidates-IsScan : IsScan [] no_candidates
  no_candidates-IsScan = record {
    summed = refl;
    bounded = omega arith;
    part = Subperm.refl [];
    are_eligible = tt;
    above = none_yet refl refl;
  }
