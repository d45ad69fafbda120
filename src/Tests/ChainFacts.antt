-- ===== src/Tests/ChainFacts.antt =====
-- The counts of the blocks of a chain at a concrete chain and a table of one checkpoint.
use build_env_jenkins.Common.{
  ℕ, zero, suc, ◌+◌, ◌*◌, ◌/◌, ◌%◌, ◌^◌, ◌<◌, ◌==◌, ==_iff, Bool, Bytes, length, subst, sym, arith,
  ◌≤◌, ◌≡◌, refl, List, [], ◌∷◌, true, false, some,
}
use build_env_jenkins.Common.Int.{pos, sub_ℕ}
use build_env_jenkins.Chain.PowHeight.{
  BlockIndex, checkpoint_pow_height, count_pow_delta, get_pow_height, get_pos_height,
  find_checkpoint, count_back,
}
use build_env_jenkins.Chain.PowHeight.Delta.{count_from, count_pow_delta-count}
use build_env_jenkins.Chain.PowHeight.Counts.{count_pow, count_pos, pow_height_counts}
use build_env_jenkins.Chain.Target.{set_compact, target_limit, BlockHead, get_next_target_required}
use build_env_jenkins.Chain.Target.Compact.{HasNumBytes, two_pow_add}
use build_env_jenkins.Chain.Target.Bounds.{get_next_target_required_bounded}
use build_env_jenkins.Tests.Toy.{toy, minimal}
use native.Mathlib.Nat.{div-lt_iff_lt-mul}

abbrev work : ℕ → BlockIndex
work n = record { n_height = n; is_proof_of_stake = false }

abbrev stake : ℕ → BlockIndex
stake n = record { n_height = n; is_proof_of_stake = true }

abbrev tail : List BlockIndex
tail = stake 3 ∷ work 2 ∷ stake 1 ∷ work 0 ∷ []

pow_height_counts_example :
    (get_pow_height ((2, 2) ∷ []) (work 4 ∷ tail) ≡ some (count_pow (work 4 ∷ tail)))
    × (get_pos_height ((2, 2) ∷ []) (work 4 ∷ tail) ≡ some (sub_ℕ (count_pos (work 4 ∷ tail)) 1))
pow_height_counts_example =
    pow_height_counts (work 4) tail ((2, 2) ∷ []) (refl, (refl, (refl, (refl, (refl, tt))))) refl
      ((λ below. refl), tt)

-- By the table of the daemon, a chain below its first checkpoint is counted to its end.
short_chain : get_pow_height checkpoint_pow_height (work 4 ∷ tail) ≡ some 3
unfolding get_pow_height find_checkpoint count_back
short_chain = refl

count_pow_delta-count_example : count_pow_delta 1 (work 4) tail ≡ count_from 1 (work 4 ∷ tail)
count_pow_delta-count_example =
    count_pow_delta-count 1 (work 4) tail (refl, (refl, (refl, (refl, (refl, tt)))))

abbrev head : ℕ → ℕ → BlockHead
head bits time = record { n_bits = bits; n_time = time; is_proof_of_stake = false }

one_byte_more : (k : ℕ) → 2 ^ (8 * suc k) ≡ 2 ^ (8 * k) * 256
one_byte_more k = subst (λ m. 2 ^ m ≡ 2 ^ (8 * k) * 256) moved (two_pow_add (8 * k) 8)
  where
    moved : 8 * k + 8 ≡ 8 * suc k
    moved = omega arith

minimal_fits : (fuel n : ℕ) → n ≤ fuel → n < 2 ^ (8 * length (minimal fuel n))
minimal_fits zero n le = omega (arith, le)
minimal_fits (suc fuel) n le = by_zero (n == 0) refl (minimal_fits fuel (n / 256))
  where
    not_zero : (n : ℕ) → (n == 0) ≡ false → 0 < n
    not_zero n e = ground arith

    by_zero :
        (none_left : Bool)
        → (n == 0) ≡ none_left
        → (n / 256 ≤ fuel → n / 256 < 2 ^ (8 * length (minimal fuel (n / 256))))
        → n
          < 2
            ^ (8
                * length (elim none_left as (λ x. Bytes) [
                  | true ↦ []
                  | false ↦ n % 256 ∷ minimal fuel (n / 256)
                ]))
    by_zero true e rest = subst (λ m. m < 1) (sym ((==_iff n 0).0 e)) (omega arith)
    by_zero false e rest =
        subst (λ m. n < m) (sym (one_byte_more (length (minimal fuel (n / 256)))))
          ((div-lt_iff_lt-mul (omega arith)).0 (rest (omega (arith, le, not_zero n e))))

minimal_least : (fuel n k : ℕ) → n < 2 ^ (8 * k) → length (minimal fuel n) ≤ k
minimal_least zero n k h = omega arith
minimal_least (suc fuel) n k h = by_zero (n == 0) refl k h (minimal_least fuel (n / 256))
  where
    by_zero :
        (none_left : Bool)
        → (n == 0) ≡ none_left
        → (k : ℕ) → n < 2 ^ (8 * k)
        → ((j : ℕ) → n / 256 < 2 ^ (8 * j) → length (minimal fuel (n / 256)) ≤ j)
        → length (elim none_left as (λ x. Bytes) [
          | true ↦ []
          | false ↦ n % 256 ∷ minimal fuel (n / 256)
        ])
          ≤ k
    by_zero true e k h rest = omega arith
    by_zero false e zero h rest = absurd (not_both n e h)
      where
        not_both : (n : ℕ) → (n == 0) ≡ false → n < 1 → ⊥
        not_both n e h = ground arith
    by_zero false e (suc j) h rest =
        let below : n / 256 < 2 ^ (8 * j) =
          (div-lt_iff_lt-mul (omega arith)).1 (subst (λ m. n < m) (one_byte_more j) h) in
        let shorter : length (minimal fuel (n / 256)) ≤ j = rest j below in omega (arith, shorter)

toy-HasNumBytes : HasNumBytes toy
toy-HasNumBytes = record {
  fits = λ n.
      subst (λ m. m < 2 ^ (8 * length (minimal (n + 0) (n + 0)))) (plain n)
        (minimal_fits (n + 0) (n + 0) (omega arith));
  least = λ n k h. minimal_least (n + 0) (n + 0) k (subst (λ m. m < 2 ^ (8 * k)) (sym (plain n)) h);
}
  where
    plain : (n : ℕ) → n + 0 ≡ n
    plain n = omega arith

-- Three blocks of work, the last of which came 100 seconds after the one before it.
get_next_target_required_bounded_example :
    (n : ℕ) × (set_compact (
        get_next_target_required toy false
          (head 0x1e0fffff 900 ∷ head 0x1e0fffff 800 ∷ head 0x1e0fffff 700 ∷ []))
      ≡ pos n)
    × (n ≤ target_limit)
get_next_target_required_bounded_example =
    get_next_target_required_bounded toy false
      (head 0x1e0fffff 900 ∷ head 0x1e0fffff 800 ∷ head 0x1e0fffff 700 ∷ []) toy-HasNumBytes
      (refl, (refl, (refl, tt)))
