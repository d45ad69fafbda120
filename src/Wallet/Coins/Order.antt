-- ===== src/Wallet/Coins/Order.antt =====
-- Sums and tests of outputs in another order, and of those that flags choose.
use build_env_jenkins.Common.{
  ℕ, ◌+◌, ◌<◌, ◌≡◌, ◌∙◌, refl, ap, ap₂, List, [], ◌∷◌, Bool, true, false, All, ltb, arith,
}
use native.Mathlib.Nat.{ℕ_set}
use mathlib.Core.Logic.{∥∥₁_elim}
use mathlib.Core.List.{Perm, Permᴰ, Subperm, nil-Subperm}
use mathlib.Core.List.Subperm
use build_env_jenkins.Wallet.Coins.{Output, Request, eligible, sum_by, chosen, Choices}

-- `random_shuffle` and `sort` give their elements in another order.
pub record IsFair (ch : Choices) : Type 0 where
  pub shuffles : (os : List Output) → Perm (ch.shuffle os) os
  pub sorts : (os : List Output) → Perm (ch.sort os) os

pub sum_by-Perm : (f : Output → ℕ) {xs ys : List Output} → Perm xs ys → sum_by f xs ≡ sum_by f ys
sum_by-Perm f {xs} {ys} p = ∥∥₁_elim p (ℕ_set (sum_by f xs) (sum_by f ys)) reordered
  where
    reordered : {xs ys : List Output} → Permᴰ xs ys → sum_by f xs ≡ sum_by f ys
    reordered Permᴰ.nil = refl
    reordered (Permᴰ.cons e d) = ap₂ (λ o n. f o + n) e (reordered d)
    reordered (Permᴰ.swap e1 e2) = omega (arith, ap f e1, ap f e2)
    reordered (Permᴰ.trans d1 d2) = reordered d1 ∙ reordered d2

-- Whether a test holds of all outputs does not depend on their order.
module _ (ok : Output → Bool) where
  abbrev fault_of : Bool → ℕ
  fault_of true = 0
  fault_of false = 1

  abbrev fault : Output → ℕ
  fault o = fault_of (ok o)

  no_fault : (os : List Output) → All (λ o. ok o ≡ true) os → sum_by fault os ≡ 0
  no_fault [] h = refl
  no_fault (o ∷ os) h = omega (arith, ap fault_of h.0, no_fault os h.1)

  faultless : (os : List Output) → sum_by fault os ≡ 0 → All (λ o. ok o ≡ true) os
  faultless [] h = tt
  faultless (o ∷ os) h = (one (ok o) (omega (arith, h)), faultless os (omega (arith, h)))
    where
      one : (b : Bool) → fault_of b ≡ 0 → b ≡ true
      one true e = refl
      one false e = absurd (omega (arith, e))

  pub All-Perm :
      {xs ys : List Output} → Perm xs ys → All (λ o. ok o ≡ true) ys → All (λ o. ok o ≡ true) xs
  All-Perm {xs} {ys} p h = faultless xs (sum_by-Perm fault p ∙ no_fault ys h)

-- Every value is below the largest `int64`, as it is of an output that has been accepted.
abbrev pub IsSmall : Output → Type 0
IsSmall o = o.n_value < 9223372036854775807

pub All-IsSmall-Perm : {xs ys : List Output} → Perm xs ys → All IsSmall ys → All IsSmall xs
All-IsSmall-Perm {xs} {ys} p h = back xs (All-Perm is_small p (forth ys h))
  where
    is_small : Output → Bool
    is_small o = ltb o.n_value 9223372036854775807

    down : (n : ℕ) → n < 9223372036854775807 → ltb n 9223372036854775807 ≡ true
    down n h = ground arith

    up : (n : ℕ) → ltb n 9223372036854775807 ≡ true → n < 9223372036854775807
    up n h = ground arith

    forth : (os : List Output) → All IsSmall os → All (λ o. is_small o ≡ true) os
    forth [] h = tt
    forth (o ∷ os) h = (down o.n_value h.0, forth os h.1)

    back : (os : List Output) → All (λ o. is_small o ≡ true) os → All IsSmall os
    back [] h = tt
    back (o ∷ os) h = (up o.n_value h.0, back os h.1)

-- The outputs that the loop looks at.
module _ (r : Request) where
  abbrev pub AreEligible : List Output → Type 0
  AreEligible os = All (λ o. eligible r o ≡ true) os

  pub AreEligible-chosen :
      (os : List Output) (fs : List Bool) → AreEligible os → AreEligible (chosen os fs)
  AreEligible-chosen [] fs h = tt
  AreEligible-chosen (o ∷ os) [] h = tt
  AreEligible-chosen (o ∷ os) (true ∷ fs) h = (h.0, AreEligible-chosen os fs h.1)
  AreEligible-chosen (o ∷ os) (false ∷ fs) h = AreEligible-chosen os fs h.1

pub chosen-Subperm : (os : List Output) (fs : List Bool) → Subperm (chosen os fs) os
chosen-Subperm [] fs = Subperm.refl []
chosen-Subperm (o ∷ os) [] = nil-Subperm
chosen-Subperm (o ∷ os) (true ∷ fs) = Subperm.cons o (chosen-Subperm os fs)
chosen-Subperm (o ∷ os) (false ∷ fs) = Subperm.cons_right o (chosen-Subperm os fs)
