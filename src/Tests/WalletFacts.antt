-- ===== src/Tests/WalletFacts.antt =====
-- The properties of the choice of coins at a concrete wallet, and a run.
use build_env_jenkins.Common.{ℕ, ◌≡◌, ◌≤◌, refl, List, [], ◌∷◌, true, false, none, All, arith, ◌↔◌}
use mathlib.Core.List.{Subperm}
use mathlib.Core.List.Perm
use build_env_jenkins.Wallet.Coins.{
  Choices, sum_values, select_coins_min_conf, scan_loop, decide, find_subset, best_subset,
  approximate, round, pass, add_coin,
}
use build_env_jenkins.Wallet.Coins.Scan.{sum_eligible}
use build_env_jenkins.Wallet.Coins.Order.{IsFair, IsSmall}
use build_env_jenkins.Wallet.Payment.{
  WalletOut, WalletTx, available_outputs, available_coins, request, select_coins,
}
use build_env_jenkins.Wallet.Payment.Laws.{select_coins-pays, select_coins-done_iff}

-- Choices that keep the order and draw every coin.
abbrev in_order : ℕ → Choices
in_order n = record { shuffle = λ os. os; sort = λ os. os; draws = λ again turn i. true }

in_order-IsFair : (n : ℕ) → IsFair (in_order n)
in_order-IsFair n = record { shuffles = λ os. Perm.refl os; sorts = λ os. Perm.refl os }

abbrev own : ℕ → WalletOut
own n = record { n_value = n; is_spent = false; is_mine = true }

-- A transaction with outputs of 4, 5 and 7, and one of 100 that is spent, and a fresh coin base.
abbrev wallet : List WalletTx
wallet =
    record {
      id = 1;
      n_time = 10;
      from_me = true;
      is_final = true;
      is_confirmed = true;
      is_coin_base = false;
      is_coin_stake = false;
      blocks_to_maturity = 0;
      depth = 2;
      vout = own 4 ∷ own 5 ∷ record { n_value = 100; is_spent = true; is_mine = true } ∷ own 7 ∷ [];
    }
    ∷ record {
      id = 2;
      n_time = 11;
      from_me = false;
      is_final = true;
      is_confirmed = true;
      is_coin_base = true;
      is_coin_stake = false;
      blocks_to_maturity = 30;
      depth = 1;
      vout = own 50 ∷ [];
    }
    ∷ []

wallet-IsSmall : All IsSmall (available_coins true none wallet)
unfolding available_coins available_outputs
wallet-IsSmall = (omega arith, (omega arith, (omega arith, tt)))

-- 9 is paid by 4 and 5, and 17 is too much.
run_of_nine :
    ((select_coins in_order 9 20 none wallet).done ≡ true)
    × ((select_coins in_order 9 20 none wallet).value ≡ 9)
    × ((select_coins in_order 17 20 none wallet).done ≡ false)
unfolding select_coins select_coins_min_conf available_coins available_outputs scan_loop decide
    find_subset best_subset approximate round pass add_coin
run_of_nine = (refl, refl, refl)

nine_done : (select_coins in_order 9 20 none wallet).done ≡ true
nine_done = run_of_nine.0

select_coins-pays_example :
    Subperm (select_coins in_order 9 20 none wallet).coins (available_coins true none wallet)
    × ((select_coins in_order 9 20 none wallet).value
        ≡ sum_values (select_coins in_order 9 20 none wallet).coins)
    × (9 ≤ (select_coins in_order 9 20 none wallet).value)
select_coins-pays_example =
    select_coins-pays in_order in_order-IsFair 9 20 none wallet wallet-IsSmall nine_done

select_coins-done_iff_example :
    ((select_coins in_order 17 20 none wallet).done ≡ true)
    ↔ (17 ≤ sum_eligible (request 17 20 0 1) (available_coins true none wallet))
select_coins-done_iff_example =
    select_coins-done_iff in_order in_order-IsFair 17 20 none wallet refl wallet-IsSmall
