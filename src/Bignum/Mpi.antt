-- ===== src/Bignum/Mpi.antt =====
-- The MPI format as OpenSSL documents it: the size in four bytes, then the number from its highest
-- byte on, behind a zero byte where the highest bit of that byte is the sign's.
use build_env_jenkins.Common.{
  ℕ, suc, ◌/◌, ◌%◌, ◌^◌, ◌<◌, ◌≤◌, ◌≡◌, ◌∙◌, refl, sym, ap, Bytes, IsByte, All, [], ◌∷◌, ◌++◌,
  reverse, length, leb, if◌then◌else◌, from_le, reverse-cons, reverse-reverse, length-reverse,
  arith, false,
}
use build_env_jenkins.Common.Int.{pos}
use build_env_jenkins.OpenSsl.{OpenSsl}
use build_env_jenkins.Bignum.{set_vch, get_vch}

abbrev pub mpi_header : ℕ → Bytes
mpi_header size = size / 2 ^ 24 % 256 ∷ size / 2 ^ 16 % 256 ∷ size / 2 ^ 8 % 256 ∷ size % 256 ∷ []

-- The bytes of a number that is not negative, from the highest on.
abbrev pub signed : Bytes → Bytes
signed [] = []
signed (b ∷ v) = if leb 128 b then 0 ∷ b ∷ v else b ∷ v

-- What the daemon relies on of `BN_mpi2bn` and `BN_bn2mpi`, for numbers that are not negative.
pub record HasMpi (ssl : OpenSsl) : Type 0 where
  pub reads :
      (b : ℕ) (v : Bytes)
      → b < 128
      → All IsByte v
      → length v < 2 ^ 31
      → ssl.mpi_to_bn (mpi_header (length (b ∷ v)) ++ b ∷ v) ≡ pos (from_le (reverse (b ∷ v)))
  pub writes_zero : ssl.bn_to_mpi (pos 0) ≡ mpi_header 0
  pub writes :
      (b : ℕ) (v : Bytes)
      → 1 ≤ b
      → b < 256
      → All IsByte v
      → length v < 2 ^ 31
      → ssl.bn_to_mpi (pos (from_le (reverse (b ∷ v))))
        ≡ mpi_header (length (signed (b ∷ v))) ++ signed (b ∷ v)

get_body :
    (w : Bytes) → (if leb (suc (suc (suc (suc (length w))))) 4 then [] else reverse w) ≡ reverse w
get_body [] = refl
get_body (x ∷ v) = rw (too_long (length v))
  where
    too_long : (n : ℕ) → leb (suc (suc (suc (suc (suc n))))) 4 ≡ false
    too_long n = ground arith

-- A zero byte at the end adds nothing.
pub from_le-zero : (v : Bytes) → from_le (v ++ 0 ∷ []) ≡ from_le v
from_le-zero [] = refl
from_le-zero (x ∷ v) = rw (from_le-zero v)

module _ (ssl : OpenSsl) (mpi : HasMpi ssl) where
  pub get_vch-zero : get_vch ssl (pos 0) ≡ []
  unfolding get_vch
  get_vch-zero = rw mpi.writes_zero

  pub get_vch-above :
      (b : ℕ) (v : Bytes)
      → 1 ≤ b
      → b < 256
      → All IsByte v
      → length v < 2 ^ 31
      → get_vch ssl (pos (from_le (reverse (b ∷ v)))) ≡ reverse (signed (b ∷ v))
  unfolding get_vch
  get_vch-above b v h h' hv n = rw (mpi.writes b v h h' hv n) (get_body (signed (b ∷ v)))

  -- The encoder puts a zero byte before the bytes, so the number is not negative.
  pub set_vch-unsigned :
      (v : Bytes)
      → All IsByte v
      → length v < 2 ^ 31
      → set_vch ssl (reverse v ++ 0 ∷ []) ≡ pos (from_le (reverse v))
  unfolding set_vch
  set_vch-unsigned v hv n =
      rw (sym (reverse-cons 0 v), set_vch, length-reverse (0 ∷ v), reverse-reverse (0 ∷ v))
        (mpi.reads 0 v (omega arith) hv n
          ∙ ap pos (ap from_le (reverse-cons 0 v) ∙ from_le-zero (reverse v)))
