-- ===== src/Common/Maps.antt =====
-- Association lists keyed by numbers: the first entry of a key counts.
use Prim.Native.Nat.{ℕ, ◌<◌}
use mathlib.Core.Path.{◌≡◌, refl, sym, subst}
use mathlib.Core.Option.{Option, none, some, some-injective}
use mathlib.Core.List.{List, [], ◌∷◌}
use build_env_jenkins.Common.Tests.{◌==◌, ltb, if◌then◌else◌, Bool-cases, ==_iff, ==_refl, ltb→lt}
use native.Mathlib.Omega.{arith}
use mathlib.Core.Bool.{false}
use mathlib.Core.Logic.{inl, inr}
use build_env_jenkins.Common.Lists.{All}

module _ {ℓ} {V : Type ℓ} where
  abbrev pub lookup : ℕ → List (ℕ × V) → Option V
  lookup k [] = none
  lookup k ((j, v) ∷ m) = if k == j then some v else lookup k m

  -- A value that is found stands in the list.
  pub lookup-All :
      (P : V → Type 0) (k : ℕ) (m : List (ℕ × V)) {v : V}
      → All (λ e. P e.1) m
      → lookup k m ≡ some v
      → P v
  lookup-All P k [] h e = cc
  lookup-All P k ((j, w) ∷ m) h e = elim (Bool-cases (k == j)) [
    | inl same ↦ subst P {x = w} (some-injective _ _ (rw same at e)) h.0
    | inr other ↦ lookup-All P k m h.1 (rw other at e)
  ]

  -- `std::map::operator[]` with an assignment: the keys stay in their order.
  abbrev pub put : ℕ → V → List (ℕ × V) → List (ℕ × V)
  put k v [] = (k, v) ∷ []
  put k v ((j, w) ∷ m) =
      let rest = put k v m in
      if k == j then (k, v) ∷ m else if ltb k j then (k, v) ∷ (j, w) ∷ m else (j, w) ∷ rest

  abbrev pub IsSorted : List (ℕ × V) → Type 0
  IsSorted [] = Unit
  IsSorted ((k, v) ∷ m) = All (λ e. k < e.0) m × IsSorted m

  pub put-All {κ} :
      (P : ℕ × V → Type κ) (k : ℕ) (v : V) (m : List (ℕ × V))
      → P (k, v)
      → All P m
      → All P (put k v m)
  put-All P k v [] p h = (p, tt)
  put-All P k v ((j, w) ∷ m) p h = elim (Bool-cases (k == j)) [
    | inl same ↦ rw same (p, h.1)
    | inr other ↦ elim (Bool-cases (ltb k j)) [
      | inl before ↦ rw (other, before) (p, h)
      | inr behind ↦ rw (other, behind) (h.0, put-All P k v m p h.1)
    ]
  ]

  below-All : (k j : ℕ) (m : List (ℕ × V)) → k < j → All (λ e. j < e.0) m → All (λ e. k < e.0) m
  below-All k j [] lt h = tt
  below-All k j (e ∷ m) lt h = (omega (arith, h.0), below-All k j m lt h.1)

  pub put-IsSorted : (k : ℕ) (v : V) (m : List (ℕ × V)) → IsSorted m → IsSorted (put k v m)
  put-IsSorted k v [] h = (tt, tt)
  put-IsSorted k v ((j, w) ∷ m) h = elim (Bool-cases (k == j)) [
    | inl same ↦ rw same (subst (λ n. All (λ e. n < e.0) m) (sym ((==_iff k j).0 same)) h.0, h.1)
    | inr other ↦ elim (Bool-cases (ltb k j)) [
      | inl before ↦
          rw (other, before) ((ltb→lt k j before, below-All k j m (ltb→lt k j before) h.0), h)
      | inr behind ↦
          rw (other, behind)
            (put-All (λ e. j < e.0) k v m (ground arith) h.0, put-IsSorted k v m h.1)
    ]
  ]

  -- A key below all others is not found.
  pub lookup-below : (k : ℕ) (m : List (ℕ × V)) → All (λ e. k < e.0) m → lookup k m ≡ none
  lookup-below k [] h = refl
  lookup-below k ((j, w) ∷ m) h = elim (Bool-cases (k == j)) [
    | inl same ↦ absurd (omega (arith, h.0, (==_iff k j).0 same))
    | inr other ↦ rw other (lookup-below k m h.1)
  ]

  pub lookup-put_same : (k : ℕ) (v : V) (m : List (ℕ × V)) → lookup k (put k v m) ≡ some v
  lookup-put_same k v [] = rw (==_refl k)
  lookup-put_same k v ((j, w) ∷ m) = elim (Bool-cases (k == j)) [
    | inl same ↦ rw (same, ==_refl k)
    | inr other ↦ elim (Bool-cases (ltb k j)) [
      | inl before ↦ rw (other, before, ==_refl k)
      | inr behind ↦ rw (other, behind, other) (lookup-put_same k v m)
    ]
  ]

  pub lookup-put_other :
      (i k : ℕ) (v : V) (m : List (ℕ × V)) → (i == k) ≡ false → lookup i (put k v m) ≡ lookup i m
  lookup-put_other i k v [] h = rw h
  lookup-put_other i k v ((j, w) ∷ m) h = elim (Bool-cases (k == j)) [
    | inl same ↦ rw (same, h, subst (λ n. (i == n) ≡ false) ((==_iff k j).0 same) h)
    | inr other ↦ elim (Bool-cases (ltb k j)) [
      | inl before ↦ rw (other, before, h)
      | inr behind ↦ elim (Bool-cases (i == j)) [
        | inl here ↦ rw (other, behind, here)
        | inr there ↦ rw (other, behind, there) (lookup-put_other i k v m h)
      ]
    ]
  ]

  -- `std::map::erase` of a key.
  abbrev pub erase_key : ℕ → List (ℕ × V) → List (ℕ × V)
  erase_key k [] = []
  erase_key k ((j, w) ∷ m) = let rest = erase_key k m in if k == j then rest else (j, w) ∷ rest

  pub lookup-erase_same : (k : ℕ) (m : List (ℕ × V)) → lookup k (erase_key k m) ≡ none
  lookup-erase_same k [] = refl
  lookup-erase_same k ((j, w) ∷ m) = elim (Bool-cases (k == j)) [
    | inl same ↦ rw same (lookup-erase_same k m)
    | inr other ↦ rw (other, other) (lookup-erase_same k m)
  ]

  pub lookup-erase_other :
      (i k : ℕ) (m : List (ℕ × V)) → (i == k) ≡ false → lookup i (erase_key k m) ≡ lookup i m
  lookup-erase_other i k [] h = refl
  lookup-erase_other i k ((j, w) ∷ m) h = elim (Bool-cases (k == j)) [
    | inl same ↦
        rw (same, subst (λ n. (i == n) ≡ false) ((==_iff k j).0 same) h)
          (lookup-erase_other i k m h)
    | inr other ↦ elim (Bool-cases (i == j)) [
      | inl here ↦ rw (other, here)
      | inr there ↦ rw (other, there) (lookup-erase_other i k m h)
    ]
  ]
