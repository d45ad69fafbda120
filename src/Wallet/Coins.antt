-- ===== src/Wallet/Coins.antt =====
-- `SelectCoinsMinConf` and `ApproximateBestSubset` of src/wallet.cpp. The sums are natural numbers:
-- those of the code stand in an `int64`, whose overflow C++ leaves undefined.
pub mod Subsets
pub mod Scan
pub mod Order
pub mod Decide
pub mod Paid
use build_env_jenkins.Common.{
  ℕ, zero, suc, ◌+◌, ◌-◌, List, [], ◌∷◌, ◌++◌, Bool, true, false, not, Option, none, some, length,
  get_or, set, replicate, ltb, leb, ◌==◌, if◌then◌else◌, ◌&&◌, ◌||◌,
}
use build_env_jenkins.Transaction.Check.{cent}

-- `COutput`, with what the choice reads of its transaction.
pub record Output : Type 0 where
  pub tx : ℕ
  pub i : ℕ
  pub n_depth : ℕ
  pub from_me : Bool
  pub n_time : ℕ
  pub n_value : ℕ

-- What a call asks for: `nTargetValue`, `nSpendTime`, `nConfMine` and `nConfTheirs`.
pub record Request : Type 0 where
  pub target : ℕ
  pub spend_time : ℕ
  pub conf_mine : ℕ
  pub conf_theirs : ℕ

-- Whether the loop looks at an output.
abbrev pub eligible : Request → Output → Bool
eligible r o =
    not (ltb o.n_depth (if o.from_me then r.conf_mine else r.conf_theirs))
    && not (ltb r.spend_time o.n_time)

-- `coinLowestLarger`, `vValue` and `nTotalLower`.
pub record Candidates : Type 0 where
  pub larger_value : ℕ
  pub larger : Option Output
  pub lower : List Output
  pub total_lower : ℕ

-- The largest `int64` stands where there is no larger coin yet.
abbrev pub no_candidates : Candidates
no_candidates = record {
  larger_value = 9223372036854775807;
  larger = none;
  lower = [];
  total_lower = 0;
}

-- What the loop does with an eligible output that is not the target itself.
abbrev pub place : ℕ → Output → Candidates → Candidates
place target o c =
    if ltb o.n_value (target + cent)
    then record c { lower = c.lower ++ o ∷ []; total_lower = c.total_lower + o.n_value }
    else if ltb o.n_value c.larger_value
    then record c { larger_value = o.n_value; larger = some o }
    else c

pub data Scanned : Type 0 where
  exact : Output → Scanned
  scanned : Candidates → Scanned

-- The loop over the outputs, which an output of the target's value ends.
unfoldable pub scan_loop : Request → List Output → Candidates → Scanned
scan_loop r [] c = scanned c
scan_loop r (o ∷ os) c =
    let rest = scan_loop r os (if eligible r o then place r.target o c else c) in
    if eligible r o && o.n_value == r.target then exact o else rest

-- The local variables of `ApproximateBestSubset`.
pub record Subset : Type 0 where
  pub total : ℕ
  pub included : List Bool
  pub reached : Bool
  pub best : ℕ
  pub best_included : List Bool

abbrev pub value_at : List Output → ℕ → ℕ
value_at [] i = 0
value_at (o ∷ os) zero = o.n_value
value_at (o ∷ os) (suc i) = value_at os i

-- The body of the inner loop, for a coin that the pass adds.
unfoldable pub add_coin : List Output → ℕ → ℕ → Subset → Subset
add_coin coins target i s =
    let total = s.total + value_at coins i in
    let included = set s.included i true in
    if leb target total
    then record {
      total = total - value_at coins i;
      included = set included i false;
      reached = true;
      best = if ltb total s.best then total else s.best;
      best_included = if ltb total s.best then included else s.best_included;
    }
    else record s { total = total; included = included }

-- One turn of the inner loop. The first pass goes by `rand() % 2`, the second adds what is left.
abbrev pub turn : (ℕ → Bool → Bool) → List Output → ℕ → ℕ → Subset → Subset
turn adds coins target i s =
    if adds i (get_or s.included i false) then add_coin coins target i s else s

-- The inner loop, for `n` coins from position `i` on.
unfoldable pub pass : (ℕ → Bool → Bool) → List Output → ℕ → ℕ → ℕ → Subset → Subset
pass adds coins target zero i s = s
pass adds coins target (suc n) i s = pass adds coins target n (suc i) (turn adds coins target i s)

abbrev pub drawn : (ℕ → Bool) → ℕ → Bool → Bool
drawn draws i is_in = draws i

abbrev pub left_out : ℕ → Bool → Bool
left_out i is_in = not is_in

abbrev pub cleared_flags : List Output → List Bool
cleared_flags coins = replicate (length coins) false

-- The body of the outer loop.
unfoldable pub round : (ℕ → Bool) → List Output → ℕ → Subset → Subset
round draws coins target s =
    let start = record s { total = 0; included = cleared_flags coins; reached = false } in
    let first = pass (drawn draws) coins target (length coins) 0 start in
    if first.reached then first else pass left_out coins target (length coins) 0 first

-- The outer loop, for `n` turns more. `draws` gives the numbers drawn, by turn and position.
unfoldable pub approximate : (ℕ → ℕ → Bool) → List Output → ℕ → ℕ → ℕ → Subset → Subset
approximate draws coins target zero rep s = s
approximate draws coins target (suc n) rep s = elim (s.best == target) [
  | true ↦ s
  | false ↦ approximate draws coins target n (suc rep) (round (draws rep) coins target s)
]

-- `ApproximateBestSubset`, by 1000 turns.
unfoldable pub best_subset : (ℕ → ℕ → Bool) → List Output → ℕ → ℕ → Subset
best_subset draws coins total_lower target = approximate draws coins target 1000 0 (record {
  total = 0;
  included = [];
  reached = false;
  best = total_lower;
  best_included = replicate (length coins) true;
})

-- The coins that the flags choose.
abbrev pub chosen : List Output → List Bool → List Output
chosen [] fs = []
chosen (o ∷ os) [] = []
chosen (o ∷ os) (true ∷ fs) = o ∷ chosen os fs
chosen (o ∷ os) (false ∷ fs) = chosen os fs

abbrev pub sum_by : (Output → ℕ) → List Output → ℕ
sum_by f [] = 0
sum_by f (o ∷ os) = f o + sum_by f os

abbrev pub sum_values : List Output → ℕ
sum_values os = sum_by (λ o. o.n_value) os

-- What the call leaves: its result, `setCoinsRet` in the order of insertion, and `nValueRet`.
pub record Selection : Type 0 where
  pub done : Bool
  pub coins : List Output
  pub value : ℕ

abbrev pub select : List Output → Selection
select coins = record { done = true; coins = coins; value = sum_values coins }

-- The functions that the choice leaves to the library: `random_shuffle`, `sort` from the largest
-- value on, and the numbers that `rand` gives in the two calls of `ApproximateBestSubset`.
pub record Choices : Type 0 where
  pub shuffle : List Output → List Output
  pub sort : List Output → List Output
  pub draws : Bool → ℕ → ℕ → Bool

-- The two calls of `ApproximateBestSubset`, on the sorted coins.
unfoldable pub find_subset : Choices → ℕ → ℕ → List Output → Subset
find_subset ch target total_lower coins =
    let first = best_subset (ch.draws false) coins total_lower target in
    if not (first.best == target) && leb (target + cent) total_lower
    then best_subset (ch.draws true) coins total_lower (target + cent)
    else first

-- Whether the larger coin is taken in place of the best subset.
abbrev pub prefers_larger : ℕ → Candidates → ℕ → Bool
prefers_larger target c best =
    (not (best == target) && ltb best (target + cent)) || leb c.larger_value best

-- What is done with the candidates.
unfoldable pub decide : Choices → ℕ → Candidates → Selection
decide ch target c =
    let sorted = ch.sort c.lower in
    let found = find_subset ch target c.total_lower sorted in
    if c.total_lower == target
    then select c.lower
    else if ltb c.total_lower target
    then elim c.larger [
      | none ↦ record { done = false; coins = []; value = 0 }
      | some o ↦ select (o ∷ [])
    ]
    else elim c.larger [
      | none ↦ select (chosen sorted found.best_included)
      | some o ↦
          if prefers_larger target c found.best
          then select (o ∷ [])
          else select (chosen sorted found.best_included)
    ]

-- `SelectCoinsMinConf`
unfoldable pub select_coins_min_conf : Choices → Request → List Output → Selection
select_coins_min_conf ch r coins = elim (scan_loop r (ch.shuffle coins) no_candidates) [
  | exact o ↦ select (o ∷ [])
  | scanned c ↦ decide ch r.target c
]
