-- ===== src/Wallet/Coins/Paid.antt =====
-- What `SelectCoinsMinConf` chooses: coins that pay, where there are any.
use build_env_jenkins.Common.{◌≤◌, ◌≡◌, refl, List, [], ◌∷◌, true, All, arith, ◌↔◌}
use mathlib.Core.List.{Perm, Subperm}
use mathlib.Core.List.Perm
use mathlib.Core.List.Subperm
use build_env_jenkins.Wallet.Coins.{
  Output, Request, no_candidates, Scanned, exact, scanned, scan_loop, sum_values, Selection, select,
  Choices, decide, select_coins_min_conf,
}
use build_env_jenkins.Wallet.Coins.Scan.{
  weight, sum_eligible, IsScanned, is_exact, is_scanned, scan_loop-IsScanned, no_candidates-IsScan,
}
use build_env_jenkins.Wallet.Coins.Order.{
  IsFair, sum_by-Perm, IsSmall, All-IsSmall-Perm, AreEligible,
}
use build_env_jenkins.Wallet.Coins.Decide.{Verdict, refused, paid, decide-Verdict}

module _ (ch : Choices) (fair : IsFair ch) (r : Request) where
  -- The same for all the outputs, in the order of the shuffle or not.
  reorder-Verdict :
      {xs ys : List Output} {s : Selection} → Perm xs ys → Verdict r xs s → Verdict r ys s
  reorder-Verdict p (refused lt) = refused (omega (arith, lt, sum_by-Perm (weight r) p))
  reorder-Verdict p (paid part ok pays within) =
      paid (Subperm.trans part (Perm.subperm p)) ok pays
        (omega (arith, within, sum_by-Perm (weight r) p))

  select-Verdict :
      (coins : List Output) → All IsSmall coins → Verdict r coins (select_coins_min_conf ch r coins)
  unfolding select_coins_min_conf
  select-Verdict coins small = reorder-Verdict (fair.shuffles coins) (
      by_scan (scan_loop r (ch.shuffle coins) no_candidates) (
        scan_loop-IsScanned r [] (ch.shuffle coins) no_candidates
          (All-IsSmall-Perm (fair.shuffles coins) small) (no_candidates-IsScan r)))
    where
      by_scan :
          (result : Scanned)
          → IsScanned r (ch.shuffle coins) result
          → Verdict r
              (ch.shuffle coins)
              (elim result [ exact o ↦ select (o ∷ []) | scanned c ↦ decide ch r.target c ])
      by_scan (exact o) (is_exact same ok bound part) =
          paid part (ok, tt) (omega (arith, same)) (omega (arith, same, bound))
      by_scan (scanned c) (is_scanned h) = decide-Verdict ch fair r (ch.shuffle coins) c h

  -- A selection that is done chooses eligible outputs among those that it is given, none of them
  -- more often than it is given, and their values come to the value that it returns, which
  -- reaches the target. The values are below the largest `int64`.
  pub min_conf-pays :
      (coins : List Output)
      → All IsSmall coins
      → (select_coins_min_conf ch r coins).done ≡ true
      → Subperm (select_coins_min_conf ch r coins).coins coins
        × AreEligible r (select_coins_min_conf ch r coins).coins
        × ((select_coins_min_conf ch r coins).value
            ≡ sum_values (select_coins_min_conf ch r coins).coins)
        × (r.target ≤ (select_coins_min_conf ch r coins).value)
  min_conf-pays coins small e = read (select-Verdict coins small) e
    where
      read :
          {s : Selection}
          → Verdict r coins s
          → s.done ≡ true
          → Subperm s.coins coins
            × AreEligible r s.coins
            × (s.value ≡ sum_values s.coins)
            × (r.target ≤ s.value)
      read (refused lt) e = cc e
      read (paid part ok pays within) e = (part, ok, refl, pays)

  -- A selection is done exactly when the eligible outputs together reach the target, where the
  -- values are below the largest `int64`.
  pub min_conf-done_iff :
      (coins : List Output)
      → All IsSmall coins
      → ((select_coins_min_conf ch r coins).done ≡ true) ↔ (r.target ≤ sum_eligible r coins)
  min_conf-done_iff coins small = read (select-Verdict coins small)
    where
      read :
          {s : Selection} → Verdict r coins s → (s.done ≡ true) ↔ (r.target ≤ sum_eligible r coins)
      read (refused lt) = (λ e. cc e, λ le. absurd (omega (arith, lt, le)))
      read (paid part ok pays within) = (λ e. within, λ le. refl)
