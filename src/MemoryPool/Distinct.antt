-- ===== src/MemoryPool/Distinct.antt =====
-- The inputs of a transaction that `CheckTransaction` accepts are distinct as keys, too.
use build_env_jenkins.Common.{
  ℕ, zero, suc, ◌^◌, ◌<◌, ◌≡◌, ◌≢◌, ◌∙◌, refl, sym, ap, ap₂, subst, Bytes, IsByte, List, [], ◌∷◌,
  some, some-injective, length, from_le, get_elem?, All, arith,
}
use build_env_jenkins.Transaction.{OutPoint, TxIn, Transaction}
use build_env_jenkins.Transaction.Check.{accepted, check_transaction}
use build_env_jenkins.Transaction.Check.Laws.{IsDistinct, points_onto, IsDistinct-tail}
use build_env_jenkins.Transaction.Check.Valid.{check_transaction_iff}
use build_env_jenkins.MemoryPool.{point_key}
use build_env_jenkins.MemoryPool.Entries.{AreDistinct}

-- An outpoint with a hash of 32 bytes and an index of 32 bits.
pub record IsPoint (p : OutPoint) : Type 0 where
  pub size : length p.hash ≡ 32
  pub bytes : All IsByte p.hash
  pub index : p.n < 2 ^ 32

from_le_injective :
    (a b : Bytes)
    → All IsByte a
    → All IsByte b
    → length a ≡ length b
    → from_le a ≡ from_le b
    → a ≡ b
from_le_injective [] [] h k l e = refl
from_le_injective [] (y ∷ b) h k l e = absurd (omega (arith, l))
from_le_injective (x ∷ a) [] h k l e = absurd (omega (arith, l))
from_le_injective (x ∷ a) (y ∷ b) h k l e =
    ap₂ (λ (c : ℕ) (v : Bytes). c ∷ v) (omega (arith, e, h.0, k.0))
      (from_le_injective a b h.1 k.1 (omega (arith, l)) (omega (arith, e, h.0, k.0)))

point_key_injective : (p q : OutPoint) → IsPoint p → IsPoint q → point_key p ≡ point_key q → p ≡ q
point_key_injective p q h k e = λ i. record { hash = same_hash i; n = same_n i }
  where
    same_n : p.n ≡ q.n
    same_n = omega (arith, e, h.index, k.index)

    same_hash : p.hash ≡ q.hash
    same_hash =
        from_le_injective p.hash q.hash h.bytes k.bytes (omega (arith, h.size, k.size))
          (omega (arith, e, h.index, k.index))

not_seen :
    (seen : List OutPoint) (ins : List TxIn) (j : ℕ) (i : TxIn)
    → IsDistinct (points_onto seen ins)
    → get_elem? ins j ≡ some i
    → All (λ q. i.prevout ≢ q) seen
not_seen seen [] j i d e = cc e
not_seen seen (x ∷ ins) zero i d e =
    subst (λ y. All (λ q. y.prevout ≢ q) seen) (some-injective _ _ e)
      (IsDistinct-tail (x.prevout ∷ seen) ins d).0
not_seen seen (x ∷ ins) (suc j) i d e = (not_seen (x.prevout ∷ seen) ins j i d e).1

never_twice :
    (seen : List OutPoint) (ins : List TxIn) (j k : ℕ) (i i' : TxIn)
    → IsDistinct (points_onto seen ins)
    → get_elem? ins j ≡ some i
    → get_elem? ins k ≡ some i'
    → i.prevout ≡ i'.prevout
    → j ≡ k
never_twice seen [] j k i i' d e e' same = cc e
never_twice seen (x ∷ ins) zero zero i i' d e e' same = refl
never_twice seen (x ∷ ins) zero (suc k) i i' d e e' same = absurd (
    (not_seen (x.prevout ∷ seen) ins k i' d e').0
      (sym same ∙ sym (ap (λ (y : TxIn). y.prevout) (some-injective _ _ e))))
never_twice seen (x ∷ ins) (suc j) zero i i' d e e' same = absurd (
    (not_seen (x.prevout ∷ seen) ins j i d e).0
      (same ∙ sym (ap (λ (y : TxIn). y.prevout) (some-injective _ _ e'))))
never_twice seen (x ∷ ins) (suc j) (suc k) i i' d e e' same =
    ap suc (never_twice (x.prevout ∷ seen) ins j k i i' d e e' same)

All-at :
    (ins : List TxIn) (j : ℕ) (i : TxIn)
    → All (λ x. IsPoint x.prevout) ins
    → get_elem? ins j ≡ some i
    → IsPoint i.prevout
All-at [] j i h e = cc e
All-at (x ∷ ins) zero i h e = subst (λ y. IsPoint y.prevout) (some-injective _ _ e) h.0
All-at (x ∷ ins) (suc j) i h e = All-at ins j i h.1 e

pub check_transaction-AreDistinct :
    (tx : Transaction)
    → All (λ x. IsPoint x.prevout) tx.vin
    → check_transaction tx ≡ accepted
    → AreDistinct tx.vin
check_transaction-AreDistinct tx h e j k p t u =
    never_twice [] tx.vin j k t.0 u.0 ((check_transaction_iff tx).0 e).distinct t.1 u.1 (
      point_key_injective t.0.prevout u.0.prevout (All-at tx.vin j t.0 h t.1)
        (All-at tx.vin k u.0 h u.1) (t.2 ∙ sym u.2))
