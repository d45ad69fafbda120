-- ===== src/Script/Cast.antt =====
-- `CastToBool` and `CastToBigNum` of src/script.cpp.
use build_env_jenkins.Common.{
  ℕ, Bytes, [], ◌∷◌, Bool, true, false, Option, none, some, length, ltb, ◌==◌, if◌then◌else◌,
}
use build_env_jenkins.Common.Int.{ℤ}
use build_env_jenkins.OpenSsl.{OpenSsl}
use build_env_jenkins.Bignum.{set_vch, get_vch}

-- The loop from the least significant byte on: any byte but 0 is true, but for a last byte 0x80.
unfoldable pub cast_to_bool : Bytes → Bool
cast_to_bool [] = false
cast_to_bool (b ∷ []) = if b == 0 then false else if b == 0x80 then false else true
cast_to_bool (b ∷ c ∷ v) = if b == 0 then cast_to_bool (c ∷ v) else true

abbrev pub max_num_size : ℕ
max_num_size = 4

-- `none` is the exception of an operand that is too long.
unfoldable pub cast_to_big_num : OpenSsl → Bytes → Option ℤ
cast_to_big_num ssl vch =
    if ltb max_num_size (length vch)
    then none
    else some (set_vch ssl (get_vch ssl (set_vch ssl vch)))
