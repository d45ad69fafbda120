-- ===== src/Wallet/Coins/Decide.antt =====
-- What `SelectCoinsMinConf` makes of its candidates.
use build_env_jenkins.Common.{
  ℕ, ◌+◌, ◌≤◌, ◌<◌, ◌≡◌, ◌∙◌, refl, sym, List, [], ◌∷◌, Bool, true, false, not, Option, none, some,
  ltb, leb, ◌==◌, ==_iff, if◌then◌else◌, ◌&&◌, arith,
}
use mathlib.Core.List.{Subperm}
use mathlib.Core.List.Perm
use mathlib.Core.List.Subperm
use build_env_jenkins.Transaction.Check.{cent}
use build_env_jenkins.Wallet.Coins.{
  Output, Request, eligible, Candidates, sum_values, chosen, Subset, best_subset, Selection, select,
  Choices, find_subset, prefers_larger, decide,
}
use build_env_jenkins.Wallet.Coins.Subsets.{IsBest, best_subset-IsBest}
use build_env_jenkins.Wallet.Coins.Scan.{sum_eligible, IsScan, IsLarger, none_yet, larger_is}
use build_env_jenkins.Wallet.Coins.Order.{
  IsFair, sum_by-Perm, All-Perm, AreEligible, AreEligible-chosen, chosen-Subperm,
}

-- What the call leaves, among the outputs that it is given.
pub data Verdict (r : Request) (all : List Output) : Selection → Type 0 where
  refused :
      sum_eligible r all < r.target → Verdict r all (record { done = false; coins = []; value = 0 })
  paid :
      {coins : List Output}
      → Subperm coins all
      → AreEligible r coins
      → r.target ≤ sum_values coins
      → r.target ≤ sum_eligible r all
      → Verdict r all (select coins)

module _ (ch : Choices) (fair : IsFair ch) (r : Request) where
  -- The best subset of the sorted coins reaches the target.
  find_subset-pays :
      (total_lower : ℕ) (coins : List Output)
      → total_lower ≡ sum_values coins
      → r.target ≤ total_lower
      → r.target
        ≤ sum_values (chosen coins (find_subset ch r.target total_lower coins).best_included)
  unfolding find_subset
  find_subset-pays total_lower coins e h =
      by_first
        (not ((best_subset (ch.draws false) coins total_lower r.target).best == r.target)
          && leb (r.target + cent) total_lower)
        refl
    where
      first : Subset
      first = best_subset (ch.draws false) coins total_lower r.target

      pays :
          {target : ℕ} {s : Subset}
          → r.target ≤ target
          → IsBest coins target s
          → r.target ≤ sum_values (chosen coins s.best_included)
      pays le b = omega (arith, le, b.summed, b.reaches)

      second_part : (a b : Bool) → (a && b) ≡ true → b ≡ true
      second_part true b k = k
      second_part false b k = cc k

      enough : leb (r.target + cent) total_lower ≡ true → r.target + cent ≤ total_lower
      enough k = ground arith

      by_first :
          (again : Bool)
          → (not (first.best == r.target) && leb (r.target + cent) total_lower) ≡ again
          → r.target
            ≤ sum_values (
                chosen coins
                  (if again
                    then best_subset (ch.draws true) coins total_lower (r.target + cent)
                    else first).best_included)
      by_first true k = pays (omega arith) (
          best_subset-IsBest coins (r.target + cent) (ch.draws true) total_lower e (
            enough
              (second_part (not (first.best == r.target)) (leb (r.target + cent) total_lower) k)))
      by_first false k =
          pays (omega arith) (best_subset-IsBest coins r.target (ch.draws false) total_lower e h)

  pub decide-Verdict :
      (all : List Output) (c : Candidates) → IsScan r all c → Verdict r all (decide ch r.target c)
  unfolding decide
  decide-Verdict all c h =
      by_total (c.total_lower == r.target) (ltb c.total_lower r.target) refl refl
    where
      sorted : List Output
      sorted = ch.sort c.lower

      best : List Bool
      best = (find_subset ch r.target c.total_lower sorted).best_included

      sorted-AreEligible : AreEligible r sorted
      sorted-AreEligible = All-Perm (eligible r) (fair.sorts c.lower) h.are_eligible

      subset_pays : r.target ≤ c.total_lower → Verdict r all (select (chosen sorted best))
      subset_pays le =
          paid
            (Subperm.trans (chosen-Subperm sorted best)
              (Subperm.trans (Perm.subperm (fair.sorts c.lower)) h.part))
            (AreEligible-chosen r sorted best sorted-AreEligible)
            (find_subset-pays c.total_lower sorted
              (h.summed ∙ sym (sum_by-Perm (λ o. o.n_value) (fair.sorts c.lower))) le)
            (omega (arith, le, h.bounded))

      alone :
          {o : Output}
          → r.target + cent ≤ o.n_value
          → eligible r o ≡ true
          → o.n_value ≤ sum_eligible r all
          → Subperm (o ∷ []) all
          → Verdict r all (select (o ∷ []))
      alone far ok bound part = paid part (ok, tt) (omega (arith, far)) (omega (arith, far, bound))

      if_below :
          (m : Option Output)
          → IsLarger r all c m
          → c.total_lower < r.target
          → Verdict r all (elim m [
            | none ↦ record { done = false; coins = []; value = 0 }
            | some o ↦ select (o ∷ [])
          ])
      if_below none (none_yet value none_left) lt = refused (omega (arith, lt, none_left))
      if_below (some o) (larger_is value far ok bound part) lt = alone far ok bound part

      either :
          {s t : Selection} (b : Bool)
          → Verdict r all s
          → Verdict r all t
          → Verdict r all (if b then s else t)
      either true h k = h
      either false h k = k

      if_above :
          (m : Option Output)
          → IsLarger r all c m
          → r.target ≤ c.total_lower
          → Verdict r all (elim m [
            | none ↦ select (chosen sorted best)
            | some o ↦
                if prefers_larger r.target c (find_subset ch r.target c.total_lower sorted).best
                then select (o ∷ [])
                else select (chosen sorted best)
          ])
      if_above none above le = subset_pays le
      if_above (some o) (larger_is value far ok bound part) le =
          either (prefers_larger r.target c (find_subset ch r.target c.total_lower sorted).best)
            (alone far ok bound part) (subset_pays le)

      below : ltb c.total_lower r.target ≡ true → c.total_lower < r.target
      below e = ground arith

      not_below : ltb c.total_lower r.target ≡ false → r.target ≤ c.total_lower
      not_below e = ground arith

      all_lower : (c.total_lower == r.target) ≡ true → Verdict r all (select c.lower)
      all_lower e =
          let same = (==_iff c.total_lower r.target).0 e in
          paid h.part h.are_eligible (omega (arith, same, h.summed))
            (omega (arith, same, h.bounded))

      by_total :
          (met less : Bool)
          → (c.total_lower == r.target) ≡ met
          → ltb c.total_lower r.target ≡ less
          → Verdict r all (
              if met
              then select c.lower
              else if less
              then elim c.larger [
                | none ↦ record { done = false; coins = []; value = 0 }
                | some o ↦ select (o ∷ [])
              ]
              else elim c.larger [
                | none ↦ select (chosen sorted best)
                | some o ↦
                    if prefers_larger r.target c (find_subset ch r.target c.total_lower sorted).best
                    then select (o ∷ [])
                    else select (chosen sorted best)
              ])
      by_total true less e k = all_lower e
      by_total false true e k = if_below c.larger h.above (below k)
      by_total false false e k = if_above c.larger h.above (not_below k)
