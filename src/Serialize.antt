-- ===== src/Serialize.antt =====
-- Compact sizes and vectors of src/serialize.h, as the bytes that a stream gets.
pub mod RoundTrip
pub mod Reader
use build_env_jenkins.Common.{
  ℕ, ◌+◌, Bytes, List, [], ◌∷◌, ◌++◌, Option, none, some, length, to_le, from_le, take, drop, ltb,
  leb, ◌==◌, if◌then◌else◌,
}

-- `WriteCompactSize`
unfoldable pub write_compact_size : ℕ → Bytes
write_compact_size size =
    if ltb size 253
    then to_le 1 size
    else if leb size 0xffff
    then to_le 1 253 ++ to_le 2 size
    else if leb size 0xffff_ffff
    then to_le 1 254 ++ to_le 4 size
    else to_le 1 255 ++ to_le 8 size

-- `GetSizeOfCompactSize`
unfoldable pub get_size_of_compact_size : ℕ → ℕ
get_size_of_compact_size size =
    if ltb size 253
    then 1
    else if leb size 0xffff
    then 1 + 2
    else if leb size 0xffff_ffff
    then 1 + 4
    else 1 + 8

-- `READDATA` of a number of `width` bytes; `none` is the exception at the end of the stream.
unfoldable pub read_number : ℕ → Bytes → Option (ℕ × Bytes)
read_number width s =
    if ltb (length s) width then none else some (from_le (take width s), drop width s)

abbrev pub max_size : ℕ
max_size = 0x0200_0000

-- `ReadCompactSize`; `none` is an exception.
unfoldable pub bounded_size : Option (ℕ × Bytes) → Option (ℕ × Bytes)
bounded_size none = none
bounded_size (some (size, rest)) = if ltb max_size size then none else some (size, rest)

unfoldable pub read_compact_size : Bytes → Option (ℕ × Bytes)
read_compact_size [] = none
read_compact_size (ch ∷ s) =
    if ltb ch 253
    then bounded_size (some (ch, s))
    else if ch == 253
    then bounded_size (read_number 2 s)
    else if ch == 254
    then bounded_size (read_number 4 s)
    else bounded_size (read_number 8 s)

-- A vector of bytes: its size and the bytes.
unfoldable pub write_bytes : Bytes → Bytes
write_bytes v = write_compact_size (length v) ++ v

-- A vector of other elements: its size and each element in turn.
unfoldable pub write_items {ℓ} : {A : Type ℓ} → (A → Bytes) → List A → Bytes
write_items write [] = []
write_items write (x ∷ xs) = write x ++ write_items write xs

unfoldable pub write_vector {ℓ} : {A : Type ℓ} → (A → Bytes) → List A → Bytes
write_vector write xs = write_compact_size (length xs) ++ write_items write xs
