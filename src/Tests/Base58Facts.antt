-- ===== src/Tests/Base58Facts.antt =====
-- The properties of base 58 at concrete inputs, and runs. The numbers in MPI format and the digests
-- of the tests are as the properties ask.
use build_env_jenkins.Common.{
  ℕ, zero, suc, ◌+◌, ◌*◌, ◌/◌, ◌%◌, ◌<◌, ◌≤◌, ◌≡◌, ◌∙◌, refl, sym, ap, ap₂, Bytes, IsByte, All, [],
  ◌∷◌, ◌++◌, reverse, length, true, false, some, none, from_le, to_le, to_le-IsByte, length-to_le,
  leb, ◌==◌, reverse-cons, reverse-reverse, All-append, arith,
}
use build_env_jenkins.Common.Int.{pos}
use build_env_jenkins.Bignum.{set_vch, get_vch}
use build_env_jenkins.Bignum.Mpi.{HasMpi, mpi_header, signed}
use build_env_jenkins.Script.Solver.{script_id}
use build_env_jenkins.Base58.{
  encode_base58, decode_base58, encode_digits, digits, count_leading, decode_loop, skip_space,
  c_str, is_space, index_of, trim_sign,
}
use build_env_jenkins.Base58.RoundTrip.{decode_base58-encode_base58}
use build_env_jenkins.Base58.Check.{HasSha256}
use build_env_jenkins.Base58.Address.{
  Base58Data, cleared, set_string, to_string, set_address, is_valid, get_destination, set_secret,
  get_secret, set_secret_string,
}
use build_env_jenkins.Base58.Address.RoundTrip.{address_string, secret_string}
use build_env_jenkins.Tests.Toy.{toy, minimal, magnitude}

minimal-step : (fuel n : ℕ) → 1 ≤ n → minimal (suc fuel) n ≡ n % 256 ∷ minimal fuel (n / 256)
minimal-step fuel n h = rw (minimal, not_zero n h)
  where
    not_zero : (n : ℕ) → 1 ≤ n → (n == 0) ≡ false
    not_zero n h = ground arith

minimal-zero : (fuel : ℕ) → minimal fuel 0 ≡ []
minimal-zero zero = refl
minimal-zero (suc fuel) = refl

from_le_above : (u : Bytes) (b : ℕ) → 1 ≤ b → 1 ≤ from_le (u ++ b ∷ [])
from_le_above [] b h = omega arith
from_le_above (x ∷ u) b h = omega (arith, from_le_above u b h)

minimal-bytes :
    (u : Bytes) (b fuel : ℕ)
    → All IsByte u
    → 1 ≤ b
    → b < 256
    → from_le (u ++ b ∷ []) ≤ fuel
    → minimal fuel (from_le (u ++ b ∷ [])) ≡ u ++ b ∷ []
minimal-bytes u b zero h above byte enough = absurd (omega (arith, from_le_above u b above))
minimal-bytes [] b (suc fuel) h above byte enough =
    minimal-step fuel (from_le (b ∷ [])) (omega arith)
    ∙ ap₂ (λ x v. x ∷ v) low (ap (minimal fuel) high ∙ minimal-zero fuel)
  where
    low : (b + 256 * 0) % 256 ≡ b
    low = omega arith

    high : (b + 256 * 0) / 256 ≡ 0
    high = omega arith
minimal-bytes (x ∷ u) b (suc fuel) h above byte enough =
    minimal-step fuel (from_le (x ∷ u ++ b ∷ [])) (omega (arith, from_le_above u b above))
    ∙ ap₂ (λ y v. y ∷ v) (low (from_le (u ++ b ∷ [])))
        (ap (minimal fuel) (high (from_le (u ++ b ∷ [])))
          ∙ minimal-bytes u b fuel h.1 above byte (omega (arith, from_le_above u b above)))
  where
    low : (m : ℕ) → (x + 256 * m) % 256 ≡ x
    low m = omega (arith, h.0)

    high : (m : ℕ) → (x + 256 * m) / 256 ≡ m
    high m = omega (arith, h.0)

mirror : (v : Bytes) (b : ℕ) → All IsByte v → All IsByte (reverse v)
mirror [] b h = tt
mirror (x ∷ v) b h =
    rw reverse-cons (All-append IsByte (reverse v) (x ∷ []) (mirror v b h.1) (h.0, tt))

magnitude-bytes :
    (b : ℕ) (v : Bytes)
    → 1 ≤ b
    → b < 256
    → All IsByte v
    → magnitude (from_le (reverse (b ∷ v))) ≡ signed (b ∷ v)
magnitude-bytes b v above byte h =
    ap (λ w. signed (reverse w))
      (ap (λ w. minimal (from_le w) (from_le w)) (reverse-cons b v)
        ∙ minimal-bytes (reverse v) b (from_le (reverse v ++ b ∷ [])) (mirror v b h) above byte
            (omega arith)
        ∙ sym (reverse-cons b v))
    ∙ ap signed (reverse-reverse (b ∷ v))

positive :
    (b : ℕ) (v : Bytes)
    → b < 128
    → toy.mpi_to_bn (mpi_header (length (b ∷ v)) ++ b ∷ v) ≡ pos (from_le (reverse (b ∷ v)))
positive b v h = rw (not_above b h)
  where
    not_above : (b : ℕ) → b < 128 → leb 128 b ≡ false
    not_above b h = ground arith

toy-HasMpi : HasMpi toy
toy-HasMpi = record {
  reads = λ b v h hv n. positive b v h;
  writes_zero = refl;
  writes = λ b v h h' hv n. ap (λ w. mpi_header (length w) ++ w) (magnitude-bytes b v h h' hv);
}

toy-HasSha256 : HasSha256 toy
toy-HasSha256 = record {
  bytes = λ v. to_le-IsByte 32 (3 + 7 * from_le v + length v);
  size = λ v. length-to_le 32 (3 + 7 * from_le v + length v);
}

-- A zero and 511: "19p".
encoded : encode_base58 toy (0 ∷ 1 ∷ 255 ∷ []) ≡ 49 ∷ 57 ∷ 112 ∷ []
unfolding encode_base58 encode_digits digits count_leading set_vch
encoded = refl

-- White space before the digits and behind them is passed over, and nothing else.
decoded :
    (decode_base58 toy (32 ∷ 57 ∷ 112 ∷ 10 ∷ []) ≡ some (1 ∷ 255 ∷ []))
    × (decode_base58 toy (57 ∷ 32 ∷ 112 ∷ []) ≡ none)
unfolding decode_base58 decode_loop skip_space c_str is_space index_of count_leading trim_sign
    get_vch
decoded = (refl, refl)

decode_base58-encode_base58_example :
    decode_base58 toy (encode_base58 toy (0 ∷ 0 ∷ 200 ∷ 1 ∷ [])) ≡ some (0 ∷ 0 ∷ 200 ∷ 1 ∷ [])
decode_base58-encode_base58_example =
    decode_base58-encode_base58 toy toy-HasMpi (0 ∷ 0 ∷ 200 ∷ 1 ∷ [])
      (omega arith, (omega arith, (omega arith, (omega arith, tt)))) (omega arith)

address_string_example :
    (address : Base58Data) × (set_string toy
        (to_string toy (set_address false (script_id (to_le 20 77)) cleared).1)
      ≡ (true, address))
    × (is_valid false address ≡ true)
    × (is_valid true address ≡ false)
    × (get_destination false address ≡ script_id (to_le 20 77))
address_string_example =
    address_string toy toy-HasMpi toy-HasSha256 false (script_id (to_le 20 77)) cleared
      (to_le-IsByte 20 77, length-to_le 20 77)

secret_string_example :
    (read : Base58Data) × (set_secret_string toy true
        (to_string toy (set_secret true (to_le 32 9) true))
      ≡ (true, read))
    × (get_secret read ≡ (to_le 32 9, true))
secret_string_example =
    secret_string toy toy-HasMpi toy-HasSha256 true (to_le 32 9) true (to_le-IsByte 32 9)
      (length-to_le 32 9)
