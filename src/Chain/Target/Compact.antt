-- ===== src/Chain/Target/Compact.antt =====
-- A compact target stands for at most the number that it is made of.
use build_env_jenkins.Common.{
  ℕ, zero, suc, ◌+◌, ◌-◌, ◌*◌, ◌/◌, ◌%◌, ◌^◌, ◌≤◌, ◌<◌, ◌≡◌, ◌∙◌, refl, sym, ap, ap₂, subst, Bool,
  true, false, leb, ltb, le→ltb, lt→leb, leb→le, leb→lt, ◌==◌, if◌then◌else◌, arith,
}
use native.Mathlib.Nat.{
  le_trans, mul_assoc, mul-le-mul_right, pow-succ', div-mul-le_self, div-lt_iff_lt-mul, one-le-pow,
}
use build_env_jenkins.Common.Int.{pos}
use build_env_jenkins.OpenSsl.{OpenSsl}
use build_env_jenkins.Chain.Target.{expand, set_compact, leading, join, get_compact}

-- The size of a number in bytes: the number fits, and it fits in no fewer.
pub record HasNumBytes (ssl : OpenSsl) : Type 0 where
  pub fits : (n : ℕ) → n < 2 ^ (8 * ssl.bn_num_bytes (pos n))
  pub least : (n k : ℕ) → n < 2 ^ (8 * k) → ssl.bn_num_bytes (pos n) ≤ k

set_compact-sum :
    (size word : ℕ)
    → word < 2 ^ 23
    → size < 256
    → set_compact (word + size * 2 ^ 24 % 2 ^ 32 + 0) ≡ pos (expand size word)
unfolding set_compact
set_compact-sum size word small short = rw (sign_part, size_part, word_part) refl
  where
    compact : ℕ
    compact = word + size * 2 ^ 24 % 2 ^ 32 + 0

    size_part : compact / 2 ^ 24 ≡ size
    size_part = omega arith

    word_part : compact % 2 ^ 23 ≡ word
    word_part = omega arith

    sign_part : (compact / 2 ^ 23 % 2 == 1) ≡ false
    sign_part = not_one (compact / 2 ^ 23 % 2) (omega arith)
      where
        not_one : (a : ℕ) → a ≡ 0 → (a == 1) ≡ false
        not_one a e = ground (arith, e)

-- What the parts of `GetCompact` have to be.
record IsNormal (n : ℕ) (compact : ℕ) : Type 0 where
  size : ℕ
  word : ℕ
  sum : compact ≡ word + size * 2 ^ 24 % 2 ^ 32 + 0
  small : word < 2 ^ 23
  short : size < 256
  below : expand size word ≤ n

not_high : (word : ℕ) → word < 2 ^ 24 → (word / 2 ^ 23 % 2 == 1) ≡ false → word < 2 ^ 23
not_high word small e = below (word / 2 ^ 23) (omega arith) (omega arith) e
  where
    below : (q : ℕ) → q ≤ 1 → (q ≡ 0 → word < 2 ^ 23) → (q % 2 == 1) ≡ false → word < 2 ^ 23
    below zero le h e = h refl
    below (suc zero) le h e = cc e
    below (suc (suc q)) le h e = absurd (omega (arith, le))

join-IsNormal :
    (n size word : ℕ)
    → word < 2 ^ 24
    → size < 255
    → expand size word ≤ n
    → expand (size + 1) (word / 256) ≤ n
    → IsNormal n (join size word false)
unfolding join
join-IsNormal n size word small short le le' = by_high (word / 2 ^ 23 % 2 == 1) refl
  where
    by_high :
        (high : Bool)
        → (word / 2 ^ 23 % 2 == 1) ≡ high
        → IsNormal n (
            (if high then word / 256 else word)
            + (if high then size + 1 else size) * 2 ^ 24 % 2 ^ 32
            + 0)
    by_high true e = record {
      size = size + 1;
      word = word / 256;
      sum = refl;
      small = omega (arith, small);
      short = omega (arith, short);
      below = le';
    }
    by_high false e = record {
      size = size;
      word = word;
      sum = refl;
      small = not_high word small e;
      short = omega (arith, short);
      below = le;
    }

-- What the leading bytes of a number give.
record IsLeading (n size : ℕ) : Type 0 where
  small : leading size n < 2 ^ 24
  here : expand size (leading size n) ≤ n
  next : expand (size + 1) (leading size n / 256) ≤ n

lead_of_short : (n size : ℕ) → size ≤ 3 → n < 2 ^ (8 * size) → IsLeading n size
unfolding leading expand
lead_of_short n zero le h = record {
  small = omega (arith, h);
  here = omega (arith, h);
  next = omega (arith, h);
}
lead_of_short n (suc zero) le h = record {
  small = omega (arith, h);
  here = omega (arith, h);
  next = omega (arith, h);
}
lead_of_short n (suc (suc zero)) le h = record {
  small = omega (arith, h);
  here = omega (arith, h);
  next = omega (arith, h);
}
lead_of_short n (suc (suc (suc zero))) le h = record {
  small = omega (arith, h);
  here = omega (arith, h);
  next = omega (arith, h);
}
lead_of_short n (suc (suc (suc (suc k)))) le h = absurd (omega (arith, le))

-- With the unit `p` of the last of the three bytes.
leading-unit :
    (n p : ℕ)
    → 0 < p
    → n < 2 ^ 24 * p
    → (n / p < 2 ^ 24) × (n / p * p ≤ n) × (n / p / 256 * (256 * p) ≤ n)
leading-unit n p positive h = (
  (div-lt_iff_lt-mul positive).1 h,
  div-mul-le_self n p,
  le_trans
      (subst (λ t. t ≤ n / p * p) (mul_assoc (n / p / 256) 256 p)
        (mul-le-mul_right p (div-mul-le_self (n / p) 256)))
      (div-mul-le_self n p),
)

pub two_pow_add : (a b : ℕ) → 2 ^ (a + b) ≡ 2 ^ a * 2 ^ b
two_pow_add zero b = subst (λ m. 2 ^ m ≡ 1 * 2 ^ b) plain (times_one (2 ^ b))
  where
    plain : b ≡ 0 + b
    plain = omega arith

    times_one : (m : ℕ) → m ≡ 1 * m
    times_one m = omega arith
two_pow_add (suc a) b =
    subst (λ m. 2 ^ m ≡ 2 ^ suc a * 2 ^ b) moved
      (pow-succ' 2 (a + b)
        ∙ ap (λ m. 2 * m) (two_pow_add a b)
        ∙ sym (mul_assoc 2 (2 ^ a) (2 ^ b))
        ∙ ap (λ m. m * 2 ^ b) (sym (pow-succ' 2 a)))
  where
    moved : suc (a + b) ≡ suc a + b
    moved = omega arith

lead_of_long : (n size : ℕ) → 3 < size → n < 2 ^ (8 * size) → IsLeading n size
unfolding leading expand
lead_of_long n size long h =
    let p = 2 ^ (8 * (size - 3)) in
    let room : n < 2 ^ 24 * p =
      subst (λ m. n < m) (ap (λ m. 2 ^ m) (omega (arith, long)) ∙ two_pow_add 24 (8 * (size - 3)))
        h in
    let (small, here, next) = leading-unit n p (one-le-pow (8 * (size - 3)) 2 (omega arith)) room in
    let whole : n / p % 2 ^ 32 ≡ n / p = omega (arith, small) in
    let next_unit : 2 ^ (8 * (size + 1 - 3)) ≡ 256 * p =
      ap (λ m. 2 ^ m) (omega (arith, long)) ∙ two_pow_add 8 (8 * (size - 3)) in
    record {
      small = rw (leading, lt→leb size 3 long, whole) small;
      here = rw (leading, expand, lt→leb size 3 long, whole) here;
      next =
          rw
            (
              leading,
              expand,
              lt→leb size 3 long,
              lt→leb (size + 1) 3 (omega (arith, long)),
              whole,
              next_unit,
            )
            next;
    }

-- A number below 2^256, written as a compact target, is read back as at most that number.
pub set_compact-get_compact :
    (ssl : OpenSsl) (n : ℕ)
    → HasNumBytes ssl
    → n < 2 ^ 256
    → (m : ℕ) × (set_compact (get_compact ssl (pos n)) ≡ pos m) × (m ≤ n)
unfolding get_compact
set_compact-get_compact ssl n bytes below = read normal
  where
    size : ℕ
    size = ssl.bn_num_bytes (pos n)

    short : size ≤ 32
    short = bytes.least n 32 below

    by_size : (long : Bool) → leb size 3 ≡ long → IsLeading n size
    by_size true e = lead_of_short n size (leb→le size 3 e) (bytes.fits n)
    by_size false e = lead_of_long n size (leb→lt size 3 e) (bytes.fits n)

    normal : IsNormal n (join size (leading size n) false)
    normal =
        let l = by_size (leb size 3) refl in
        join-IsNormal n size (leading size n) l.small (omega (arith, short)) l.here l.next

    magnitude : n + 0 ≡ n
    magnitude = omega arith

    same : join size (leading size (n + 0)) (ltb (n + 0) 0) ≡ join size (leading size n) false
    same =
        ap₂ (λ (m : ℕ) (negative : Bool). join size (leading size m) negative) magnitude
          (le→ltb (n + 0) 0 (omega arith))

    read :
        IsNormal n (join size (leading size n) false)
        → (m : ℕ) × (set_compact (join size (leading size (n + 0)) (ltb (n + 0) 0)) ≡ pos m)
          × (m ≤ n)
    read r = (
      expand r.size r.word,
      ap set_compact (same ∙ r.sum) ∙ set_compact-sum r.size r.word r.small r.short,
      r.below,
    )
