-- ===== src/Wallet/Payment/Laws.antt =====
-- What `SelectCoins` chooses from the wallet.
use build_env_jenkins.Common.{
  ℕ, ◌≤◌, ◌≡◌, refl, List, [], ◌∷◌, Bool, true, false, Option, All, leb, if◌then◌else◌, arith, ◌↔◌,
}
use mathlib.Core.List.{Subperm}
use mathlib.Core.List.Subperm
use build_env_jenkins.Wallet.Coins.{Output, Choices, Selection, sum_values, select_coins_min_conf}
use build_env_jenkins.Wallet.Coins.Scan.{weight, sum_eligible}
use build_env_jenkins.Wallet.Coins.Order.{IsFair, IsSmall}
use build_env_jenkins.Wallet.Coins.Paid.{min_conf-pays, min_conf-done_iff}
use build_env_jenkins.Wallet.Payment.{
  CoinControl, has_selected, WalletTx, available_coins, first_done, request, select_coins,
}

-- A request that asks for less looks at no fewer outputs.
weight_mono :
    (target spend_time : ℕ) (mine theirs : ℕ) (o : Output)
    → 1 ≤ theirs
    → weight (request target spend_time mine theirs) o ≤ weight (request target spend_time 0 1) o
weight_mono target spend_time mine theirs o k = ground arith

sum_eligible_mono :
    (target spend_time : ℕ) (mine theirs : ℕ) (os : List Output)
    → 1 ≤ theirs
    → sum_eligible (request target spend_time mine theirs) os
      ≤ sum_eligible (request target spend_time 0 1) os
sum_eligible_mono target spend_time mine theirs [] k = omega arith
sum_eligible_mono target spend_time mine theirs (o ∷ os) k = omega (
  arith,
  weight_mono target spend_time mine theirs o k,
  sum_eligible_mono target spend_time mine theirs os k,
)

-- What a selection that is done promises, of one of two and of the first of three.
module _ (P : Selection → Type 0) where
  abbrev Promises : Selection → Type 0
  Promises s = s.done ≡ true → P s

  one_of : (d : Bool) (s t : Selection) → Promises s → Promises t → Promises (if d then s else t)
  one_of true s t hs ht = hs
  one_of false s t hs ht = ht

  first_done-Promises :
      (a b c : Selection) → Promises a → Promises b → Promises c → Promises (first_done a b c)
  first_done-Promises a b c ha hb hc =
      one_of a.done a (if b.done then b else c) ha (one_of b.done b c hb hc)

-- The last of the three is enough.
else_done : (s t : Selection) → t.done ≡ true → (if s.done then s else t).done ≡ true
else_done s t ht = by_done s.done refl
  where
    by_done : (d : Bool) → s.done ≡ d → (if d then s else t).done ≡ true
    by_done true e = e
    by_done false e = ht

first_done-last : (a b c : Selection) → c.done ≡ true → (first_done a b c).done ≡ true
first_done-last a b c h = else_done a (if b.done then b else c) (else_done b c h)

module _ (choices : ℕ → Choices) (fair : (n : ℕ) → IsFair (choices n)) (target spend_time : ℕ) where
  -- A choice of coins that is done takes outputs that are available, none of them more often than
  -- it is, and their values come to the value that it returns, which reaches the target. This
  -- holds with outputs that the user has selected and without, for values below the largest `int64`.
  pub select_coins-pays :
      (control : Option CoinControl) (wallet : List WalletTx)
      → All IsSmall (available_coins true control wallet)
      → (select_coins choices target spend_time control wallet).done ≡ true
      → Subperm
          (select_coins choices target spend_time control wallet).coins
          (available_coins true control wallet)
        × ((select_coins choices target spend_time control wallet).value
            ≡ sum_values (select_coins choices target spend_time control wallet).coins)
        × (target ≤ (select_coins choices target spend_time control wallet).value)
  unfolding select_coins
  select_coins-pays control wallet small = by_control (has_selected control)
    where
      coins : List Output
      coins = available_coins true control wallet

      Pays : Selection → Type 0
      Pays s = Subperm s.coins coins × (s.value ≡ sum_values s.coins) × (target ≤ s.value)

      all_of : leb target (sum_values coins) ≡ true → target ≤ sum_values coins
      all_of e = ground arith

      attempt :
          (n mine theirs : ℕ)
          → Promises Pays
              (select_coins_min_conf (choices n) (request target spend_time mine theirs) coins)
      attempt n mine theirs e =
          let (part, ok, sum, pays) =
            min_conf-pays (choices n) (fair n) (request target spend_time mine theirs) coins small
              e in
          (part, sum, pays)

      by_control :
          (b : Bool)
          → Promises Pays (
              if b
              then record {
                done = leb target (sum_values coins);
                coins = coins;
                value = sum_values coins;
              }
              else first_done
                  (select_coins_min_conf (choices 0) (request target spend_time 1 6) coins)
                  (select_coins_min_conf (choices 1) (request target spend_time 1 1) coins)
                  (select_coins_min_conf (choices 2) (request target spend_time 0 1) coins))
      by_control true e = (Subperm.refl coins, refl, all_of e)
      by_control false e =
          first_done-Promises Pays
            (select_coins_min_conf (choices 0) (request target spend_time 1 6) coins)
            (select_coins_min_conf (choices 1) (request target spend_time 1 1) coins)
            (select_coins_min_conf (choices 2) (request target spend_time 0 1) coins)
            (attempt 0 1 6) (attempt 1 1 1) (attempt 2 0 1) e

  -- Where the user has selected nothing, the choice is done exactly when the available outputs of
  -- the last attempt (own ones at any depth, others from depth 1 on) reach the target together, for
  -- values below the largest `int64`.
  pub select_coins-done_iff :
      (control : Option CoinControl) (wallet : List WalletTx)
      → has_selected control ≡ false
      → All IsSmall (available_coins true control wallet)
      → ((select_coins choices target spend_time control wallet).done ≡ true) ↔ (
          target
          ≤ sum_eligible (request target spend_time 0 1) (available_coins true control wallet))
  unfolding select_coins
  select_coins-done_iff control wallet none_selected small =
      by_control (has_selected control) none_selected
    where
      coins : List Output
      coins = available_coins true control wallet

      Reach : Type 0
      Reach = target ≤ sum_eligible (request target spend_time 0 1) coins

      attempt :
          (n mine theirs : ℕ)
          → 1 ≤ theirs
          → Promises
              (λ s. Reach)
              (select_coins_min_conf (choices n) (request target spend_time mine theirs) coins)
      attempt n mine theirs k e = omega (
        arith,
        (min_conf-done_iff (choices n) (fair n) (request target spend_time mine theirs) coins
              small).0
            e,
        sum_eligible_mono target spend_time mine theirs coins k,
      )

      by_control :
          (b : Bool)
          → b ≡ false
          → ((if b
                then record {
                  done = leb target (sum_values coins);
                  coins = coins;
                  value = sum_values coins;
                }
                else first_done
                    (select_coins_min_conf (choices 0) (request target spend_time 1 6) coins)
                    (select_coins_min_conf (choices 1) (request target spend_time 1 1) coins)
                    (select_coins_min_conf (choices 2) (request target spend_time 0 1) coins)).done
              ≡ true)
            ↔ Reach
      by_control true e = cc e
      by_control false e = (
        first_done-Promises (λ s. Reach)
            (select_coins_min_conf (choices 0) (request target spend_time 1 6) coins)
            (select_coins_min_conf (choices 1) (request target spend_time 1 1) coins)
            (select_coins_min_conf (choices 2) (request target spend_time 0 1) coins)
            (attempt 0 1 6 (omega arith)) (attempt 1 1 1 (omega arith))
            (attempt 2 0 1 (omega arith)),
        λ le.
            first_done-last
              (select_coins_min_conf (choices 0) (request target spend_time 1 6) coins)
              (select_coins_min_conf (choices 1) (request target spend_time 1 1) coins)
              (select_coins_min_conf (choices 2) (request target spend_time 0 1) coins)
              ((min_conf-done_iff (choices 2) (fair 2) (request target spend_time 0 1) coins
                  small).1
                le),
      )
