-- ===== src/Base58.antt =====
-- Base 58 of src/base58.h: `EncodeBase58`, `DecodeBase58` and their forms with a check. A string is
-- the list of the codes of its characters.
pub mod Digits
pub mod Written
pub mod RoundTrip
pub mod Check
pub mod Address
use build_env_jenkins.Common.{
  ℕ, zero, suc, ◌+◌, ◌-◌, ◌*◌, ◌/◌, ◌%◌, Bytes, List, [], ◌∷◌, ◌++◌, reverse, map, Bool, true,
  false, Option, none, some, length, take, drop, replicate, get_or, bytes_eq, ltb, leb, ◌==◌,
  if◌then◌else◌, ◌&&◌, ◌||◌,
}
use build_env_jenkins.Common.Int.{ℤ, pos, negsuc}
use build_env_jenkins.OpenSsl.{OpenSsl}
use build_env_jenkins.Bignum.{set_vch, get_vch}
use build_env_jenkins.Script.SigHash.{hash}

-- `pszBase58`
abbrev pub alphabet : Bytes
alphabet =
    49 ∷ 50 ∷ 51 ∷ 52 ∷ 53 ∷ 54 ∷ 55 ∷ 56 ∷ 57 ∷ 65 ∷ 66 ∷ 67 ∷ 68 ∷ 69 ∷ 70 ∷ 71 ∷ 72 ∷ 74 ∷ 75
    ∷ 76 ∷ 77 ∷ 78 ∷ 80 ∷ 81 ∷ 82 ∷ 83 ∷ 84 ∷ 85 ∷ 86 ∷ 87 ∷ 88 ∷ 89 ∷ 90 ∷ 97 ∷ 98 ∷ 99 ∷ 100 ∷ 101
    ∷ 102 ∷ 103 ∷ 104 ∷ 105 ∷ 106 ∷ 107 ∷ 109 ∷ 110 ∷ 111 ∷ 112 ∷ 113 ∷ 114 ∷ 115 ∷ 116 ∷ 117 ∷ 118
    ∷ 119 ∷ 120 ∷ 121 ∷ 122 ∷ []

abbrev pub char_at : ℕ → ℕ
char_at d = get_or alphabet d 0

-- The loop of `EncodeBase58` on a number that is not negative, the lowest digit first.
unfoldable pub digits : ℕ → ℕ → Bytes
digits zero n = []
digits (suc fuel) n =
    let rest = digits fuel (n / 58) in if n == 0 then [] else char_at (n % 58) ∷ rest

-- `while (bn > bn0)`
unfoldable pub encode_digits : ℕ → ℤ → Bytes
encode_digits fuel (pos n) = digits fuel n
encode_digits fuel (negsuc n) = []

-- "Leading zeroes encoded as base58 zeros": how many there are of a byte at the start.
unfoldable pub count_leading : ℕ → Bytes → ℕ
count_leading c [] = 0
count_leading c (x ∷ v) = let rest = count_leading c v in if x == c then suc rest else 0

-- `EncodeBase58`. Two digits hold more than a byte.
unfoldable pub encode_base58 : OpenSsl → Bytes → Bytes
encode_base58 ssl v = reverse (
    encode_digits (2 * length v) (set_vch ssl (reverse v ++ 0 ∷ []))
    ++ replicate (count_leading 0 v) (char_at 0))

-- `isspace` in the "C" locale.
unfoldable pub is_space : ℕ → Bool
is_space c = c == 32 || leb 9 c && leb c 13

unfoldable pub skip_space : Bytes → Bytes
skip_space [] = []
skip_space (c ∷ s) = let rest = skip_space s in if is_space c then rest else c ∷ s

-- A string ends at its first null character.
unfoldable pub c_str : Bytes → Bytes
c_str [] = []
c_str (c ∷ s) = let rest = c_str s in if c == 0 then [] else c ∷ rest

-- `strchr(pszBase58, c) - pszBase58`
unfoldable pub index_of : ℕ → Bytes → Option ℕ
index_of c [] = none
index_of c (x ∷ s) =
    if c == x then some 0 else elim (index_of c s) [ none ↦ none | some i ↦ some (suc i) ]

-- The loop of `DecodeBase58`.
unfoldable pub decode_loop : ℕ → Bytes → Option ℕ
decode_loop bn [] = some bn
decode_loop bn (c ∷ s) = elim (index_of c alphabet) [
  | some d ↦ decode_loop (bn * 58 + d) s
  | none ↦ if length (skip_space (c ∷ s)) == 0 then some bn else none
]

-- "Trim off sign byte if present", from the end.
abbrev pub trim_front : Bytes → Bytes
trim_front (x ∷ y ∷ v) = if x == 0 && leb 128 y then y ∷ v else x ∷ y ∷ v
trim_front v = v

unfoldable pub trim_sign : Bytes → Bytes
trim_sign v = reverse (trim_front (reverse v))

-- `DecodeBase58`; `none` is false, with `vchRet` empty.
unfoldable pub decode_base58 : OpenSsl → Bytes → Option Bytes
decode_base58 ssl s =
    let psz = skip_space (c_str s) in
    elim (decode_loop 0 psz) [
      | none ↦ none
      | some bn ↦ some (
          replicate (count_leading (char_at 0) psz) 0 ++ reverse (trim_sign (get_vch ssl (pos bn))))
    ]

-- `EncodeBase58Check`
unfoldable pub encode_base58_check : OpenSsl → Bytes → Bytes
encode_base58_check ssl v = encode_base58 ssl (v ++ take 4 (hash ssl v))

-- `DecodeBase58Check`; `none` is false, with `vchRet` empty.
unfoldable pub checked : OpenSsl → Bytes → Option Bytes
checked ssl v =
    let size = length v - 4 in
    if ltb (length v) 4
    then none
    else if bytes_eq (take 4 (hash ssl (take size v))) (drop size v)
    then some (take size v)
    else none

unfoldable pub decode_base58_check : OpenSsl → Bytes → Option Bytes
decode_base58_check ssl s = elim (decode_base58 ssl s) [ none ↦ none | some v ↦ checked ssl v ]
