-- ===== src/Base58/Written.antt =====
-- The digits as `EncodeBase58` writes them, and what `DecodeBase58` makes of them.
use build_env_jenkins.Common.{
  ℕ, zero, suc, ◌^◌, ◌<◌, ◌≡◌, ◌∙◌, refl, sym, ap, ap₂, List, [], ◌∷◌, ◌++◌, reverse, map, some,
  replicate, All, reverse-cons, reverse-append, All-append, arith,
}
use build_env_jenkins.Base58.{char_at, digits, count_leading, decode_loop}
use build_env_jenkins.Base58.Digits.{
  digit_char, raw_digits, raw_digits-small, raw_digits-StartsAbove, digits-raw, horner,
  horner-digits, decode_loop-digits, StartsAbove,
}

-- The digits that are written, the highest first, behind as many zeros as the bytes start with.
abbrev pub written : ℕ → ℕ → ℕ → List ℕ
written zeros fuel n = replicate zeros 0 ++ reverse (raw_digits fuel n)

All-reverse : (P : ℕ → Type 0) (xs : List ℕ) → All P xs → All P (reverse xs)
All-reverse P [] h = tt
All-reverse P (x ∷ xs) h =
    rw reverse-cons (All-append P (reverse xs) (x ∷ []) (All-reverse P xs h.1) (h.0, tt))

All-replicate : (P : ℕ → Type 0) (n a : ℕ) → P a → All P (replicate n a)
All-replicate P zero a h = tt
All-replicate P (suc n) a h = (h, All-replicate P n a h)

pub written-small : (zeros fuel n : ℕ) → All (λ d. d < 58) (written zeros fuel n)
written-small zeros fuel n =
    All-append (λ d. d < 58) (replicate zeros 0) (reverse (raw_digits fuel n))
      (All-replicate (λ d. d < 58) zeros 0 (omega arith))
      (All-reverse (λ d. d < 58) (raw_digits fuel n) (raw_digits-small fuel n))

horner-zeros : (zeros : ℕ) (ds : List ℕ) → horner 0 (replicate zeros 0 ++ ds) ≡ horner 0 ds
horner-zeros zero ds = refl
horner-zeros (suc zeros) ds = horner-zeros zeros ds

pub decode_loop-written :
    (zeros fuel n : ℕ) → n < 58 ^ fuel → decode_loop 0 (map char_at (written zeros fuel n)) ≡ some n
decode_loop-written zeros fuel n h =
    decode_loop-digits 0 (written zeros fuel n) (written-small zeros fuel n)
    ∙ ap (λ k. some k) (horner-zeros zeros (reverse (raw_digits fuel n)) ∙ horner-digits fuel n h)

count_leading-zeros :
    (zeros : ℕ) (ds : List ℕ)
    → All (λ d. d < 58) ds
    → StartsAbove ds
    → count_leading (char_at 0) (map char_at (replicate zeros 0 ++ ds)) ≡ zeros
unfolding count_leading
count_leading-zeros zero [] h s = refl
count_leading-zeros zero (d ∷ ds) h s = rw ((digit_char d h.0).no_one s)
count_leading-zeros (suc zeros) ds h s = ap suc (count_leading-zeros zeros ds h s)

pub count_leading-written :
    (zeros fuel n : ℕ)
    → n < 58 ^ fuel
    → count_leading (char_at 0) (map char_at (written zeros fuel n)) ≡ zeros
count_leading-written zeros fuel n h =
    count_leading-zeros zeros (reverse (raw_digits fuel n))
      (All-reverse (λ d. d < 58) (raw_digits fuel n) (raw_digits-small fuel n))
      (raw_digits-StartsAbove fuel n h)

reverse-map : (ds : List ℕ) → reverse (map char_at ds) ≡ map char_at (reverse ds)
reverse-map [] = refl
reverse-map (d ∷ ds) =
    reverse-cons (char_at d) (map char_at ds)
    ∙ ap (λ s. s ++ char_at d ∷ []) (reverse-map ds)
    ∙ sym (map-snoc (reverse ds))
    ∙ ap (map char_at) (sym (reverse-cons d ds))
  where
    map-snoc : (xs : List ℕ) → map char_at (xs ++ d ∷ []) ≡ map char_at xs ++ char_at d ∷ []
    map-snoc [] = refl
    map-snoc (x ∷ xs) = ap (λ s. char_at x ∷ s) (map-snoc xs)

replicate-snoc : (n a : ℕ) → replicate n a ++ a ∷ [] ≡ a ∷ replicate n a
replicate-snoc zero a = refl
replicate-snoc (suc n) a = ap (λ s. a ∷ s) (replicate-snoc n a)

reverse-replicate : (n a : ℕ) → reverse (replicate n a) ≡ replicate n a
reverse-replicate zero a = refl
reverse-replicate (suc n) a =
    reverse-cons a (replicate n a)
    ∙ ap (λ s. s ++ a ∷ []) (reverse-replicate n a)
    ∙ replicate-snoc n a

map-written :
    (zeros : ℕ) (ds : List ℕ)
    → map char_at (replicate zeros 0 ++ ds) ≡ replicate zeros (char_at 0) ++ map char_at ds
map-written zero ds = refl
map-written (suc zeros) ds = ap (λ s. char_at 0 ∷ s) (map-written zeros ds)

-- What `EncodeBase58` makes of the number and the zeros.
pub reverse-digits :
    (zeros fuel n : ℕ)
    → reverse (digits fuel n ++ replicate zeros (char_at 0)) ≡ map char_at (written zeros fuel n)
reverse-digits zeros fuel n =
    reverse-append (digits fuel n) (replicate zeros (char_at 0))
    ∙ ap₂ (λ a b. a ++ b) (reverse-replicate zeros (char_at 0))
        (ap reverse (digits-raw fuel n) ∙ reverse-map (raw_digits fuel n))
    ∙ sym (map-written zeros (reverse (raw_digits fuel n)))
