-- ===== src/Serialize/RoundTrip.antt =====
-- `ReadCompactSize` reads what `WriteCompactSize` has written.
use build_env_jenkins.Common.{
  ℕ, ◌≤◌, ◌<◌, ◌^◌, ◌%◌, ◌≡◌, subst, Bytes, ◌++◌, some, length, to_le, from_le, from_le-to_le,
  length-to_le, length-append, take-append_left, drop-append_left, le→ltb, le→leb, ltb, leb,
  Bool-cases, inl, inr, arith, tests, true,
}
use build_env_jenkins.Serialize.{
  write_compact_size, get_size_of_compact_size, read_number, bounded_size, read_compact_size,
  max_size,
}

read_number_field :
    (field rest : Bytes) → read_number (length field) (field ++ rest) ≡ some (from_le field, rest)
unfolding read_number
read_number_field field rest = rw (
  le→ltb (length (field ++ rest)) (length field) (omega (arith, length-append field rest)),
  take-append_left,
  drop-append_left,
)

pub read_number-to_le :
    (width n : ℕ) (rest : Bytes)
    → n < 256 ^ width
    → read_number width (to_le width n ++ rest) ≡ some (n, rest)
read_number-to_le width n rest h =
    subst (λ w. read_number w (to_le width n ++ rest) ≡ some (n, rest)) (length-to_le width n)
      (rw (from_le-to_le width n h) at (read_number_field (to_le width n) rest))

bounded_size-some :
    (n : ℕ) (rest : Bytes) → n ≤ max_size → bounded_size (some (n, rest)) ≡ some (n, rest)
unfolding bounded_size
bounded_size-some n rest h = rw (le→ltb max_size n h)

-- A size up to the limit of 32 MiB is read back, and what follows it in the stream is left.
pub read-write_compact_size :
    (n : ℕ) (rest : Bytes)
    → n ≤ max_size
    → read_compact_size (write_compact_size n ++ rest) ≡ some (n, rest)
unfolding read_compact_size write_compact_size
read-write_compact_size n rest h = elim (Bool-cases (ltb n 253)) [
  | inl byte ↦ rw (byte, modulo n byte, byte) (bounded_size-some n rest h)
  | inr more ↦ elim (Bool-cases (leb n 0xffff)) [
    | inl two ↦
        rw (more, two, read_number-to_le 2 n rest (omega tests)) (bounded_size-some n rest h)
    | inr four ↦
        rw
          (more, four, le→leb n 0xffff_ffff (omega tests), read_number-to_le 4 n rest (omega tests))
          (bounded_size-some n rest h)
  ]
]
  where
    modulo : (n : ℕ) → ltb n 253 ≡ true → ◌≡◌ {A = ℕ} (n % 256) n
    modulo n b = omega tests

-- `GetSizeOfCompactSize` is the number of bytes that `WriteCompactSize` writes.
pub length-write_compact_size : (n : ℕ) → length (write_compact_size n) ≡ get_size_of_compact_size n
unfolding write_compact_size get_size_of_compact_size
length-write_compact_size n = elim (Bool-cases (ltb n 253)) [
  | inl a ↦ rw a
  | inr a ↦ elim (Bool-cases (leb n 0xffff)) [
    | inl b ↦ rw (a, b)
    | inr b ↦ elim (Bool-cases (leb n 0xffff_ffff)) [ inl c ↦ rw (a, b, c) | inr c ↦ rw (a, b, c) ]
  ]
]
