-- ===== src/Wallet/Payment.antt =====
-- `AvailableCoins` and `SelectCoins` of src/wallet.cpp.
pub mod Laws
use build_env_jenkins.Common.{
  ℕ, zero, suc, List, [], ◌∷◌, ◌++◌, Bool, true, false, not, Option, none, some, ltb, leb, ◌==◌,
  if◌then◌else◌, ◌&&◌, ◌||◌,
}
use build_env_jenkins.Wallet.Coins.{
  Output, Request, Choices, Selection, sum_values, select_coins_min_conf,
}

-- What the calls on an output of a wallet transaction give: `nValue`, `IsSpent` and `IsMine`.
pub record WalletOut : Type 0 where
  pub n_value : ℕ
  pub is_spent : Bool
  pub is_mine : Bool

-- A `CWalletTx` of `mapWallet`, by what its calls give.
pub record WalletTx : Type 0 where
  pub id : ℕ
  pub n_time : ℕ
  pub from_me : Bool
  pub is_final : Bool
  pub is_confirmed : Bool
  pub is_coin_base : Bool
  pub is_coin_stake : Bool
  pub blocks_to_maturity : ℕ
  pub depth : ℕ
  pub vout : List WalletOut

-- `CCoinControl`: the outputs that the user has selected.
abbrev pub CoinControl : Type 0
CoinControl = List (ℕ × ℕ)

-- `coinControl && coinControl->HasSelected()`
abbrev pub has_selected : Option CoinControl → Bool
has_selected none = false
has_selected (some []) = false
has_selected (some (p ∷ ps)) = true

unfoldable pub is_selected : ℕ → ℕ → CoinControl → Bool
is_selected id i [] = false
is_selected id i ((j, k) ∷ ps) = (id == j && i == k) || is_selected id i ps

abbrev pub selected_in : ℕ → ℕ → Option CoinControl → Bool
selected_in id i none = false
selected_in id i (some ps) = is_selected id i ps

-- The loop over the outputs of a transaction.
unfoldable pub available_outputs : Option CoinControl → WalletTx → ℕ → List WalletOut → List Output
available_outputs control t i [] = []
available_outputs control t i (o ∷ os) =
    let rest = available_outputs control t (suc i) os in
    if not o.is_spent
      && (o.is_mine
          && (ltb 0 o.n_value && (not (has_selected control) || selected_in t.id i control)))
    then record {
      tx = t.id;
      i = i;
      n_depth = t.depth;
      from_me = t.from_me;
      n_time = t.n_time;
      n_value = o.n_value;
    }
      ∷ rest
    else rest

-- Whether the loop over the transactions goes on to the next one.
abbrev pub passes_over : Bool → WalletTx → Bool
passes_over only_confirmed t =
    not t.is_final
    || ((only_confirmed && not t.is_confirmed)
        || ((t.is_coin_base && ltb 0 t.blocks_to_maturity)
            || (t.is_coin_stake && ltb 0 t.blocks_to_maturity)))

-- `AvailableCoins`
unfoldable pub available_coins : Bool → Option CoinControl → List WalletTx → List Output
available_coins only_confirmed control [] = []
available_coins only_confirmed control (t ∷ ts) =
    let rest = available_coins only_confirmed control ts in
    if passes_over only_confirmed t then rest else available_outputs control t 0 t.vout ++ rest

-- The first of three selections that is done.
abbrev pub first_done : Selection → Selection → Selection → Selection
first_done a b c = if a.done then a else if b.done then b else c

abbrev pub request : ℕ → ℕ → ℕ → ℕ → Request
request target spend_time mine theirs = record {
  target = target;
  spend_time = spend_time;
  conf_mine = mine;
  conf_theirs = theirs;
}

-- `SelectCoins`, from nothing chosen. The three calls make choices of their own.
unfoldable pub select_coins : (ℕ → Choices) → ℕ → ℕ → Option CoinControl → List WalletTx → Selection
select_coins choices target spend_time control wallet =
    let coins = available_coins true control wallet in
    if has_selected control
    then record { done = leb target (sum_values coins); coins = coins; value = sum_values coins }
    else first_done (select_coins_min_conf (choices 0) (request target spend_time 1 6) coins)
        (select_coins_min_conf (choices 1) (request target spend_time 1 1) coins)
        (select_coins_min_conf (choices 2) (request target spend_time 0 1) coins)
