-- ===== src/Serialize/Reader.antt =====
-- The reading of vectors, `Unserialize` of src/serialize.h: a stream is the bytes that are left of
-- it, and `none` is the exception at its end.
pub mod RoundTrip
use build_env_jenkins.Common.{
  ℕ, zero, suc, ◌+◌, ◌-◌, ◌/◌, Bytes, List, [], ◌∷◌, ◌++◌, Option, none, some, length, take, drop,
  ltb, if◌then◌else◌,
}
use build_env_jenkins.Serialize.{read_compact_size}

abbrev pub Reader {ℓ} : Type ℓ → Type ℓ
Reader A = Bytes → Option (A × Bytes)

abbrev pub pure {ℓ} : {A : Type ℓ} → A → Reader A
pure x = λ s. some (x, s)

abbrev pub feed {ℓ κ} :
    {A : Type ℓ} {B : Type κ} → (A → Reader B) → Option (A × Bytes) → Option (B × Bytes)
feed k none = none
feed k (some (x, s)) = k x s

infixl 1 ◌>>=◌
abbrev pub ◌>>=◌ {ℓ κ} : {A : Type ℓ} {B : Type κ} → Reader A → (A → Reader B) → Reader B
r >>= k = λ s. feed k (r s)

-- `read` of the stream.
unfoldable pub read_flat : ℕ → Reader Bytes
read_flat n s = if ltb (length s) n then none else some (take n s, drop n s)

-- The most bytes that one call reads.
abbrev pub block_size : ℕ
block_size = 5_000_000

-- The loop over the blocks of a vector of bytes, with the bytes that are left to read.
unfoldable pub read_blocks : ℕ → ℕ → Reader Bytes
read_blocks fuel zero = pure []
read_blocks zero (suc left) = λ s. none
read_blocks (suc fuel) (suc left) =
    let blk = if ltb (suc left) block_size then suc left else block_size in
    do first ← read_flat blk; others ← read_blocks fuel (suc left - blk); pure (first ++ others)

-- A vector of bytes.
unfoldable pub read_bytes : Reader Bytes
read_bytes = do size ← read_compact_size; read_blocks (size / block_size + 1) size

-- The loop over the elements of another vector, which is resized ahead of it in steps.
unfoldable pub read_items {ℓ} : {A : Type ℓ} → Reader A → ℕ → Reader (List A)
read_items read zero = pure []
read_items read (suc n) = do x ← read; xs ← read_items read n; pure (x ∷ xs)

unfoldable pub read_vector {ℓ} : {A : Type ℓ} → Reader A → Reader (List A)
read_vector read = do size ← read_compact_size; read_items read size
