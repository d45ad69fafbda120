-- ===== src/OpenSsl.antt =====
-- The functions of OpenSSL that the daemon calls. OpenSSL is not part of the repository, so they
-- are parameters.
use build_env_jenkins.Common.{ℕ, Bytes, Bool, Option}
use build_env_jenkins.Common.Int.{ℤ}

-- A `BIGNUM` is the integer that it stands for. `check_key` tells whether bytes are a public key
-- (`o2i_ECPublicKey`), and `ecdsa_verify key hash sig` is `ECDSA_verify(...) == 1`.
-- `bn_num_bytes` is the size of a number in bytes. `ecdsa_sign secret hash` is the signature of `ECDSA_sign`, `none` where it fails.
-- `public_key secret compressed` is the serialized public key of a secret, and `aes_encrypt key iv`
-- and `aes_decrypt key iv` are the three `EVP_*` calls of `CCrypter`, `none` where one of them fails.
pub record OpenSsl : Type 0 where
  pub mpi_to_bn : Bytes → ℤ
  pub bn_num_bytes : ℤ → ℕ
  pub bn_to_mpi : ℤ → Bytes
  pub ripemd160 : Bytes → Bytes
  pub sha1 : Bytes → Bytes
  pub sha256 : Bytes → Bytes
  pub check_key : Bytes → Bool
  pub ecdsa_verify : Bytes → Bytes → Bytes → Bool
  pub ecdsa_sign : Bytes → Bytes → Option Bytes
  pub public_key : Bytes → Bool → Bytes
  pub aes_encrypt : Bytes → Bytes → Bytes → Option Bytes
  pub aes_decrypt : Bytes → Bytes → Bytes → Option Bytes
