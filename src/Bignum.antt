-- ===== src/Bignum.antt =====
-- `CBigNum` of src/bignum.h, over the integers that its `BIGNUM` stands for.
pub mod Mpi
use build_env_jenkins.Common.{
  ℕ, ◌+◌, ◌/◌, ◌%◌, ◌^◌, Bytes, [], ◌∷◌, reverse, length, drop, ltb, leb, if◌then◌else◌,
}
use build_env_jenkins.Common.Int.{ℤ, pos, negsuc}
use build_env_jenkins.OpenSsl.{OpenSsl}

-- `setvch`: the size in four bytes, big-endian, then the bytes in reverse order, read as an MPI.
-- `nSize >> 24` and the like are cut to a byte each.
unfoldable pub set_vch : OpenSsl → Bytes → ℤ
set_vch ssl vch =
    let size = length vch in
    ssl.mpi_to_bn
      (size / 2 ^ 24 % 256 ∷ size / 2 ^ 16 % 256 ∷ size / 2 ^ 8 % 256 ∷ size % 256 ∷ reverse vch)

-- `getvch`: the MPI without its four bytes of size, in reverse order.
unfoldable pub get_vch : OpenSsl → ℤ → Bytes
get_vch ssl bn =
    let mpi = ssl.bn_to_mpi bn in if leb (length mpi) 4 then [] else reverse (drop 4 mpi)

abbrev int_max : ℕ
int_max = 2147483647

-- `getint`, which stops at the ends of the range of `int`.
unfoldable pub get_int : ℤ → ℤ
get_int (pos n) = if ltb int_max n then pos int_max else pos n
get_int (negsuc n) = if ltb int_max (n + 1) then negsuc int_max else negsuc n
