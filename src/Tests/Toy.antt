-- ===== src/Tests/Toy.antt =====
-- An OpenSSL made of small functions, for the tests: the MPI format as it is documented, digests
-- that only have the right sizes, and signatures that repeat the hash and the key.
use build_env_jenkins.Common.{
  Bool, some, true, false, ℕ, zero, suc, ◌+◌, ◌-◌, ◌*◌, ◌/◌, ◌%◌, Bytes, [], ◌∷◌, ◌++◌, length,
  reverse, replicate, from_le, to_le, drop, take, bytes_eq, leb, ◌==◌, if◌then◌else◌,
}
use build_env_jenkins.Common.Int.{nat_abs, ℤ, pos, negsuc}
use build_env_jenkins.OpenSsl.{OpenSsl}
use build_env_jenkins.Bignum.Mpi.{mpi_header, signed}
use build_env_jenkins.Transaction.{OutPoint, TxIn, Transaction}
use build_env_jenkins.Script.Machine.{Context}

-- The bytes of a number, the lowest first, as many as it has.
abbrev pub minimal : ℕ → ℕ → Bytes
minimal zero n = []
minimal (suc fuel) n = elim (n == 0) [ true ↦ [] | false ↦ n % 256 ∷ minimal fuel (n / 256) ]

abbrev pub magnitude : ℕ → Bytes
magnitude n = signed (reverse (minimal n n))

abbrev sign_first : ℕ → Bytes → Bytes
sign_first bit [] = []
sign_first bit (b ∷ v) = (b + bit) ∷ v

abbrev encode_mpi : ℤ → Bytes
encode_mpi (pos n) = let v = magnitude n in mpi_header (length v) ++ v
encode_mpi (negsuc n) = let v = magnitude (n + 1) in mpi_header (length v) ++ sign_first 128 v

abbrev negate_ℕ : ℕ → ℤ
negate_ℕ zero = pos 0
negate_ℕ (suc n) = negsuc n

abbrev decode_body : Bytes → ℤ
decode_body [] = pos 0
decode_body (b ∷ v) =
    if leb 128 b
    then negate_ℕ (from_le (reverse ((b - 128) ∷ v)))
    else pos (from_le (reverse (b ∷ v)))

abbrev digest_of : ℕ → ℕ → Bytes → Bytes
digest_of size salt v = to_le size (salt + 7 * from_le v + length v)

abbrev pub toy_public_key : Bytes → Bool → Bytes
toy_public_key secret true = 2 ∷ to_le 32 (from_le secret)
toy_public_key secret false = 4 ∷ to_le 64 (from_le secret)

abbrev pub toy : OpenSsl
toy = record {
  mpi_to_bn = λ v. decode_body (drop 4 v);
  bn_num_bytes = λ a. length (minimal (nat_abs a) (nat_abs a));
  bn_to_mpi = encode_mpi;
  ripemd160 = digest_of 20 1;
  sha1 = digest_of 20 2;
  sha256 = digest_of 32 3;
  check_key = λ k. leb 33 (length k);
  ecdsa_verify = λ key hashed sig. bytes_eq (take 2 sig) (take 2 hashed);
  ecdsa_sign = λ secret hashed. some (take 2 hashed);
  public_key = toy_public_key;
  aes_encrypt = λ key iv plain. some plain;
  aes_decrypt = λ key iv coded. some coded;
}

abbrev pub key : Bytes
key = 2 ∷ replicate 32 5

abbrev pub point : ℕ → OutPoint
point n = record { hash = replicate 32 9; n = n }

abbrev pub input : ℕ → Bytes → TxIn
input n script = record { prevout = point n; script_sig = script; n_sequence = 7 }

-- Two inputs and one output.
abbrev pub spend : Transaction
spend = record {
  n_version = 1;
  n_time = 1400000000;
  vin = input 0 (1 ∷ 17 ∷ []) ∷ input 1 [] ∷ [];
  vout = record { n_value = 5000; script_pub_key = 0x51 ∷ [] } ∷ [];
  n_lock_time = 0;
}

abbrev pub context : Context
context = record { ssl = toy; tx = spend; n_in = 0; hash_type = 0 }
