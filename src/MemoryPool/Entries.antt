-- ===== src/MemoryPool/Entries.antt =====
-- The loops of the memory pool over the inputs of a transaction.
use build_env_jenkins.Common.{
  ℕ, zero, suc, ◌+◌, ◌≡◌, ◌≢◌, ◌∙◌, ◌⊎◌, refl, sym, ap, subst, List, [], ◌∷◌, false, none, some,
  some-injective, get_elem?, lookup, put, lookup-put_same, lookup-put_other, erase_key,
  lookup-erase_same, lookup-erase_other, ◌==◌, ==_iff, Bool-cases, inl, inr, arith,
}
use build_env_jenkins.Transaction.{TxIn}
use build_env_jenkins.MemoryPool.{InPoint, point_key, enter_inputs, erase_inputs}

abbrev pub Points : Type 0
Points = List (ℕ × InPoint)

-- One of the inputs takes the output of a key.
abbrev pub Takes : List TxIn → ℕ → ℕ → Type 0
Takes ins j p = (i : TxIn) × (get_elem? ins j ≡ some i) × (point_key i.prevout ≡ p)

-- No two inputs take the same output.
abbrev pub AreDistinct : List TxIn → Type 0
AreDistinct ins = (j k p : ℕ) → Takes ins j p → Takes ins k p → j ≡ k

AreDistinct-tail : (i : TxIn) (ins : List TxIn) → AreDistinct (i ∷ ins) → AreDistinct ins
AreDistinct-tail i ins h j k p t u = omega (arith, h (suc j) (suc k) p t u)

other_key : (a b : ℕ) → a ≢ b → (a == b) ≡ false
other_key a b h = elim (Bool-cases (a == b)) [
  | inl same ↦ absurd (h ((==_iff a b).0 same))
  | inr other ↦ other
]

-- An output that no input takes keeps its entry.
pub lookup-enter_other :
    (key n : ℕ) (ins : List TxIn) (m : Points) (p : ℕ)
    → ((j : ℕ) → Takes ins j p → ⊥)
    → lookup p (enter_inputs key n ins m) ≡ lookup p m
unfolding enter_inputs
lookup-enter_other key n [] m p h = refl
lookup-enter_other key n (i ∷ ins) m p h =
    lookup-enter_other key (suc n) ins _ p (λ j t. h (suc j) t)
    ∙ lookup-put_other p (point_key i.prevout) (record { ptx = key; n = n }) m
        (other_key p (point_key i.prevout) (λ e. h 0 (i, refl, sym e)))

-- An output that an input takes gets the entry of that input.
pub lookup-enter_taken :
    (key n : ℕ) (ins : List TxIn) (m : Points) (j p : ℕ)
    → AreDistinct ins
    → Takes ins j p
    → lookup p (enter_inputs key n ins m) ≡ some (record { ptx = key; n = n + j })
unfolding enter_inputs
lookup-enter_taken key n [] m j p h t = cc t.1
lookup-enter_taken key n (i ∷ ins) m zero p h t =
    lookup-enter_other key (suc n) ins _ p (λ j u. absurd (omega (arith, h 0 (suc j) p t u)))
    ∙ subst
        (λ q.
          lookup q (put (point_key i.prevout) (record { ptx = key; n = n }) m)
          ≡ some (record { ptx = key; n = n + 0 }))
        (ap (λ (x : TxIn). point_key x.prevout) (some-injective _ _ t.1) ∙ t.2)
        (lookup-put_same (point_key i.prevout) (record { ptx = key; n = n }) m
          ∙ ap (λ (k : ℕ). some (record { ptx = key; n = k })) (omega arith))
lookup-enter_taken key n (i ∷ ins) m (suc j) p h t =
    lookup-enter_taken key (suc n) ins _ j p (AreDistinct-tail i ins h) t
    ∙ ap (λ (k : ℕ). some (record { ptx = key; n = k })) (omega arith)

-- Whether an output is taken by one of the inputs.
pub taken_or_not :
    (ins : List TxIn) (p : ℕ) → ((j : ℕ) × Takes ins j p) ⊎ ((j : ℕ) → Takes ins j p → ⊥)
taken_or_not [] p = inr (λ j t. cc t.1)
taken_or_not (i ∷ ins) p = elim (Bool-cases (p == point_key i.prevout)) [
  | inl same ↦ inl (0, (i, refl, sym ((==_iff p (point_key i.prevout)).0 same)))
  | inr other ↦ elim (taken_or_not ins p) [
    | inl found ↦ inl (suc found.0, found.1)
    | inr none_of ↦ inr (nowhere other none_of)
  ]
]
  where
    nowhere :
        (p == point_key i.prevout) ≡ false
        → ((j : ℕ) → Takes ins j p → ⊥)
        → (j : ℕ) → Takes (i ∷ ins) j p
        → ⊥
    nowhere other none_of zero t = cc (
      (==_iff p (point_key i.prevout)).1
          (sym (ap (λ (x : TxIn). point_key x.prevout) (some-injective _ _ t.1) ∙ t.2)),
      other,
    )
    nowhere other none_of (suc j) t = none_of j t

-- `remove` leaves the outputs that are not taken, and only these.
pub lookup-erase_inputs_other :
    (ins : List TxIn) (m : Points) (p : ℕ)
    → ((j : ℕ) → Takes ins j p → ⊥)
    → lookup p (erase_inputs ins m) ≡ lookup p m
unfolding erase_inputs
lookup-erase_inputs_other [] m p h = refl
lookup-erase_inputs_other (i ∷ ins) m p h =
    lookup-erase_inputs_other ins _ p (λ j t. h (suc j) t)
    ∙ lookup-erase_other p (point_key i.prevout) m
        (other_key p (point_key i.prevout) (λ e. h 0 (i, refl, sym e)))

lookup-erase_none :
    (ins : List TxIn) (m : Points) (p : ℕ)
    → lookup p m ≡ none
    → lookup p (erase_inputs ins m) ≡ none
unfolding erase_inputs
lookup-erase_none [] m p e = e
lookup-erase_none (i ∷ ins) m p e =
    lookup-erase_none ins _ p (elim (Bool-cases (p == point_key i.prevout)) [
      | inl same ↦
          subst (λ q. lookup p (erase_key q m) ≡ none) ((==_iff p (point_key i.prevout)).0 same)
            (lookup-erase_same p m)
      | inr other ↦ lookup-erase_other p (point_key i.prevout) m other ∙ e
    ])

pub lookup-erase_inputs_taken :
    (ins : List TxIn) (m : Points) (j p : ℕ) → Takes ins j p → lookup p (erase_inputs ins m) ≡ none
unfolding erase_inputs
lookup-erase_inputs_taken [] m j p t = cc t.1
lookup-erase_inputs_taken (i ∷ ins) m zero p t = lookup-erase_none ins _ p (
    subst (λ q. lookup p (erase_key q m) ≡ none)
      (sym (ap (λ (x : TxIn). point_key x.prevout) (some-injective _ _ t.1) ∙ t.2))
      (lookup-erase_same p m))
lookup-erase_inputs_taken (i ∷ ins) m (suc j) p t = lookup-erase_inputs_taken ins _ j p t
