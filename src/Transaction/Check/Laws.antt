-- ===== src/Transaction/Check/Laws.antt =====
-- What `CheckTransaction` accepts.
use build_env_jenkins.Common.{
  ℕ, ◌+◌, ◌≤◌, ◌≡◌, ◌≢◌, ◌↔◌, ◌⊎◌, inl, inr, refl, ap, List, [], ◌∷◌, Bool, true, false,
  bytes_eq_sound, bytes_eq_refl, All, arith, Bool-cases,
}
use build_env_jenkins.Transaction.{OutPoint, TxIn, TxOut}
use build_env_jenkins.Transaction.Check.{
  max_money, min_txout_amount, is_negative, add64, money_range, point_eq, is_empty, accepted,
  check_outputs, contains_point, check_duplicates,
}

-- The sum of the values, with no bound.
abbrev pub total : List TxOut → ℕ
total [] = 0
total (o ∷ outs) = o.n_value + total outs

-- An output that is empty, which only a coin base or coin stake may have, or that has a value
-- within the limits.
abbrev pub IsPayable : Bool → TxOut → Type 0
IsPayable special o =
    ((special ≡ true) × (is_empty o ≡ true))
    ⊎ ((min_txout_amount ≤ o.n_value) × (o.n_value ≤ max_money))

output_IsPayable :
    (special : Bool) (n : ℕ) (o : TxOut) (outs : List TxOut)
    → check_outputs special n (o ∷ outs) ≡ accepted
    → IsPayable special o
unfolding check_outputs is_empty is_negative
output_IsPayable special n o outs e = elim (Bool-cases (is_empty o)) [
  | inl empty ↦ inl (ground arith)
  | inr full ↦ inr (ground arith)
]

output_value_le :
    (special : Bool) (n : ℕ) (o : TxOut) (outs : List TxOut)
    → check_outputs special n (o ∷ outs) ≡ accepted
    → o.n_value ≤ max_money
unfolding check_outputs is_empty is_negative
output_value_le special n o outs e = ground arith

output_sum_le :
    (special : Bool) (n : ℕ) (o : TxOut) (outs : List TxOut)
    → n ≤ max_money
    → check_outputs special n (o ∷ outs) ≡ accepted
    → o.n_value ≤ max_money
    → (n + o.n_value ≤ max_money) × (check_outputs special (n + o.n_value) outs ≡ accepted)
unfolding check_outputs add64 money_range
output_sum_le special n o outs h e v = ground arith

pub check_outputs_sound :
    (special : Bool) (n : ℕ) (outs : List TxOut)
    → n ≤ max_money
    → check_outputs special n outs ≡ accepted
    → All (IsPayable special) outs × (n + total outs ≤ max_money)
check_outputs_sound special n [] h e = (tt, omega arith)
check_outputs_sound special n (o ∷ outs) h e =
    let (le, more) = output_sum_le special n o outs h e (output_value_le special n o outs e) in
    let (good, sum) = check_outputs_sound special (n + o.n_value) outs le more in
    ((output_IsPayable special n o outs e, good), omega arith)

pub check_outputs_complete :
    (special : Bool) (n : ℕ) (outs : List TxOut)
    → All (IsPayable special) outs
    → n + total outs ≤ max_money
    → check_outputs special n outs ≡ accepted
unfolding check_outputs is_empty is_negative add64 money_range
check_outputs_complete special n [] p h = refl
check_outputs_complete special n (o ∷ outs) p h =
    ground (arith, check_outputs_complete special (n + o.n_value) outs p.1)

-- No outpoint stands twice in a list.
abbrev pub IsDistinct : List OutPoint → Type 0
IsDistinct [] = Unit
IsDistinct (p ∷ ps) = All (λ q. p ≢ q) ps × IsDistinct ps

-- The outpoints of inputs, the last one first.
abbrev pub points_onto : List OutPoint → List TxIn → List OutPoint
points_onto seen [] = seen
points_onto seen (i ∷ ins) = points_onto (i.prevout ∷ seen) ins

point_eq_refl : (p : OutPoint) → point_eq p p ≡ true
unfolding point_eq
point_eq_refl p = ground (arith, bytes_eq_refl p.hash)

point_eq_sound : (p q : OutPoint) → point_eq p q ≡ true → p ≡ q
unfolding point_eq
point_eq_sound p q e =
    let same : p.hash ≡ q.hash = bytes_eq_sound p.hash q.hash (ground arith) in
    let at : ◌≡◌ {A = ℕ} p.n q.n = ground arith in λ i. record { hash = same i; n = at i }

contains_point_iff :
    (p : OutPoint) (seen : List OutPoint) → (contains_point p seen ≡ false) ↔ All (λ q. p ≢ q) seen
unfolding contains_point
contains_point_iff p [] = (λ e. tt, λ h. refl)
contains_point_iff p (q ∷ seen) = elim (Bool-cases (point_eq p q)) [
  | inl same ↦ (λ e. cc (rw same at e), λ h. absurd (h.0 (point_eq_sound p q same)))
  | inr other ↦ rw other (
    λ e. (λ s. cc (other, ap (point_eq p) s, point_eq_refl p), (contains_point_iff p seen).0 e),
    λ h. (contains_point_iff p seen).1 h.1,
  )
]

pub IsDistinct-tail :
    (seen : List OutPoint) (ins : List TxIn) → IsDistinct (points_onto seen ins) → IsDistinct seen
IsDistinct-tail seen [] d = d
IsDistinct-tail seen (i ∷ ins) d = (IsDistinct-tail (i.prevout ∷ seen) ins d).1

pub check_duplicates_iff :
    (seen : List OutPoint) (ins : List TxIn)
    → IsDistinct seen
    → (check_duplicates seen ins ≡ accepted) ↔ IsDistinct (points_onto seen ins)
unfolding check_duplicates
check_duplicates_iff seen [] d = (λ e. d, λ h. refl)
check_duplicates_iff seen (i ∷ ins) d = elim (Bool-cases (contains_point i.prevout seen)) [
  | inl twice ↦ rw twice (
    λ e. cc e,
    λ h.
        cc (
          (contains_point_iff i.prevout seen).1 (IsDistinct-tail (i.prevout ∷ seen) ins h).0,
          twice,
        ),
  )
  | inr fresh ↦
      rw fresh (
        check_duplicates_iff (i.prevout ∷ seen) ins
          ((contains_point_iff i.prevout seen).0 fresh, d))
]
