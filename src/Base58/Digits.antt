-- ===== src/Base58/Digits.antt =====
-- The digits of a number, to a string and back.
use build_env_jenkins.Common.{
  ℕ, zero, suc, ◌+◌, ◌*◌, ◌/◌, ◌%◌, ◌^◌, ◌<◌, ◌≤◌, ◌≡◌, ◌∙◌, refl, sym, ap, List, [], ◌∷◌, ◌++◌,
  reverse, map, Bool, true, false, Option, none, some, length, All, ◌==◌, if◌then◌else◌, not, subst,
  ◌&&◌, ◌||◌, arith, Bool-cases, inl, inr, ==_iff, reverse-cons, length-reverse,
}
use native.Mathlib.Nat.{pow-suc}
use build_env_jenkins.Base58.{
  alphabet, char_at, digits, is_space, index_of, decode_loop, skip_space, c_str,
}

-- What the decoder asks of a character, for all the digits at once.
abbrev good_digit : ℕ → Bool
good_digit d = elim (index_of (char_at d) alphabet) [
  | none ↦ false
  | some i ↦
      i == d
      && (not (is_space (char_at d))
          && (not (char_at d == 0) && ((d == 0) || not (char_at d == 49))))
]

abbrev all_good : ℕ → Bool
all_good zero = true
all_good (suc d) = good_digit d && all_good d

all_good_58 : all_good 58 ≡ true
unfolding index_of is_space
all_good_58 = refl

and_true : (a b : Bool) → (a && b) ≡ true → (a ≡ true) × (b ≡ true)
and_true true b h = (refl, h)
and_true false b h = cc h

below_suc : (d n : ℕ) → d < suc n → (d == n) ≡ false → d < n
below_suc d n lt other = ground arith

all_good-good : (n d : ℕ) → all_good n ≡ true → d < n → good_digit d ≡ true
all_good-good zero d h lt = absurd (omega arith)
all_good-good (suc n) d h lt = elim (Bool-cases (d == n)) [
  | inl here ↦ subst (λ k. good_digit k ≡ true) (sym ((==_iff d n).0 here)) (and_true _ _ h).0
  | inr below ↦ all_good-good n d (and_true _ _ h).1 (below_suc d n lt below)
]

-- What the decoder finds at a digit's character.
pub record IsDigitChar (d : ℕ) : Type 0 where
  pub index : index_of (char_at d) alphabet ≡ some d
  pub no_space : is_space (char_at d) ≡ false
  pub no_end : (char_at d == 0) ≡ false
  pub no_one : 1 ≤ d → (char_at d == 49) ≡ false

pub digit_char : (d : ℕ) → d < 58 → IsDigitChar d
digit_char d h = from_good (index_of (char_at d) alphabet) refl (all_good-good 58 d all_good_58 h)
  where
    not_true : (b : Bool) → not b ≡ true → b ≡ false
    not_true true e = cc e
    not_true false e = refl

    from_good :
        (o : Option ℕ)
        → index_of (char_at d) alphabet ≡ o
        → (elim o as (λ x. Bool) [
          | none ↦ false
          | some i ↦
              i == d
              && (not (is_space (char_at d))
                  && (not (char_at d == 0) && (d == 0 || not (char_at d == 49))))
        ])
          ≡ true
        → IsDigitChar d
    from_good none e g = cc g
    from_good (some i) e g =
        let (same, g1) = and_true _ _ g in
        let (space, g2) = and_true _ _ g1 in
        let (end, one) = and_true _ _ g2 in
        record {
          index = e ∙ ap (λ k. some k) ((==_iff i d).0 same);
          no_space = not_true _ space;
          no_end = not_true _ end;
          no_one = λ p. ground (arith, one);
        }

-- The digits as numbers.
abbrev pub raw_digits : ℕ → ℕ → List ℕ
raw_digits zero n = []
raw_digits (suc fuel) n =
    let rest = raw_digits fuel (n / 58) in if n == 0 then [] else n % 58 ∷ rest

raw_digits-zero : (fuel : ℕ) → raw_digits fuel 0 ≡ []
raw_digits-zero zero = refl
raw_digits-zero (suc fuel) = refl

raw_digits-suc : (fuel n : ℕ) → 1 ≤ n → raw_digits (suc fuel) n ≡ n % 58 ∷ raw_digits fuel (n / 58)
raw_digits-suc fuel n h = rw (not_zero n h)
  where
    not_zero : (n : ℕ) → 1 ≤ n → (n == 0) ≡ false
    not_zero n h = ground arith

pub digits-raw : (fuel n : ℕ) → digits fuel n ≡ map char_at (raw_digits fuel n)
unfolding digits
digits-raw zero n = refl
digits-raw (suc fuel) n = elim (Bool-cases (n == 0)) [
  | inl none_left ↦ rw none_left
  | inr more ↦ rw more (ap (λ s. char_at (n % 58) ∷ s) (digits-raw fuel (n / 58)))
]

pub raw_digits-small : (fuel n : ℕ) → All (λ d. d < 58) (raw_digits fuel n)
raw_digits-small zero n = tt
raw_digits-small (suc fuel) n = elim (Bool-cases (n == 0)) [
  | inl none_left ↦ rw none_left tt
  | inr more ↦ rw more (omega arith, raw_digits-small fuel (n / 58))
]

-- Horner's rule, the highest digit first.
abbrev pub horner : ℕ → List ℕ → ℕ
horner acc [] = acc
horner acc (d ∷ ds) = horner (acc * 58 + d) ds

horner-snoc : (acc d : ℕ) (ds : List ℕ) → horner acc (ds ++ d ∷ []) ≡ horner acc ds * 58 + d
horner-snoc acc d [] = refl
horner-snoc acc d (x ∷ ds) = horner-snoc (acc * 58 + x) d ds

-- Enough digits give the number back.
pub horner-digits : (fuel n : ℕ) → n < 58 ^ fuel → horner 0 (reverse (raw_digits fuel n)) ≡ n
horner-digits zero n h = omega arith
horner-digits (suc fuel) n h = elim (Bool-cases (n == 0)) [
  | inl none_left ↦ rw none_left (sym ((==_iff n 0).0 none_left))
  | inr more ↦
      rw (more, reverse-cons, horner-snoc)
        (step (horner-digits fuel (n / 58) (omega (arith, pow-suc 58 fuel))))
]
  where
    step :
        horner 0 (reverse (raw_digits fuel (n / 58))) ≡ n / 58
        → horner 0 (reverse (raw_digits fuel (n / 58))) * 58 + n % 58 ≡ n
    step e = omega arith

pub decode_loop-digits :
    (acc : ℕ) (ds : List ℕ)
    → All (λ d. d < 58) ds
    → decode_loop acc (map char_at ds) ≡ some (horner acc ds)
unfolding decode_loop
decode_loop-digits acc [] h = refl
decode_loop-digits acc (d ∷ ds) h =
    rw ((digit_char d h.0).index, decode_loop) (decode_loop-digits (acc * 58 + d) ds h.1)

-- A string of digits has no space and no end in it.
pub skip_space-digits :
    (ds : List ℕ) → All (λ d. d < 58) ds → skip_space (map char_at ds) ≡ map char_at ds
unfolding skip_space
skip_space-digits [] h = refl
skip_space-digits (d ∷ ds) h = rw (digit_char d h.0).no_space

pub c_str-digits : (ds : List ℕ) → All (λ d. d < 58) ds → c_str (map char_at ds) ≡ map char_at ds
unfolding c_str
c_str-digits [] h = refl
c_str-digits (d ∷ ds) h =
    rw (digit_char d h.0).no_end (ap (λ s. char_at d ∷ s) (c_str-digits ds h.1))

-- The first of the digits, the highest, is not 0.
abbrev pub StartsAbove : List ℕ → Type 0
StartsAbove [] = Unit
StartsAbove (d ∷ ds) = 1 ≤ d

StartsAbove-append : (xs ys : List ℕ) → 1 ≤ length xs → StartsAbove xs → StartsAbove (xs ++ ys)
StartsAbove-append [] ys n h = absurd (omega arith)
StartsAbove-append (x ∷ xs) ys n h = h

length-raw_digits : (fuel n : ℕ) → 1 ≤ n → n < 58 ^ fuel → 1 ≤ length (raw_digits fuel n)
length-raw_digits zero n h lt = absurd (omega arith)
length-raw_digits (suc fuel) n h lt = rw (raw_digits-suc fuel n h) (omega arith)

pub raw_digits-StartsAbove :
    (fuel n : ℕ) → n < 58 ^ fuel → StartsAbove (reverse (raw_digits fuel n))
raw_digits-StartsAbove zero n h = tt
raw_digits-StartsAbove (suc fuel) n h = elim (Bool-cases (n == 0)) [
  | inl none_left ↦ rw none_left tt
  | inr more ↦
      let positive : 1 ≤ n = ground arith in
      rw (more, reverse-cons)
        (elim (Bool-cases (n / 58 == 0)) [
          | inl last ↦
              rw ((==_iff (n / 58) 0).0 last, raw_digits-zero fuel)
                (omega (arith, (==_iff (n / 58) 0).0 last))
          | inr deeper ↦
              let above : 1 ≤ n / 58 = ground arith in
              StartsAbove-append (reverse (raw_digits fuel (n / 58))) (n % 58 ∷ [])
                (omega (
                  arith,
                  length-reverse (raw_digits fuel (n / 58)),
                  length-raw_digits fuel (n / 58) above (omega (arith, pow-suc 58 fuel)),
                ))
                (raw_digits-StartsAbove fuel (n / 58) (omega (arith, pow-suc 58 fuel)))
        ])
]
