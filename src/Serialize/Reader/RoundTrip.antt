-- ===== src/Serialize/Reader/RoundTrip.antt =====
-- What is written of a vector is read back.
use build_env_jenkins.Common.{
  ℕ, zero, suc, ◌+◌, ◌-◌, ◌*◌, ◌/◌, ◌≤◌, ◌≡◌, ◌∙◌, refl, sym, ap, Bytes, List, [], ◌∷◌, ◌++◌, some,
  length, take, drop, length-take, length-drop, length-append, take-append_left, drop-append_left,
  append_assoc, le→ltb, ltb, if◌then◌else◌, arith, All,
}
use build_env_jenkins.Serialize.{
  write_compact_size, write_bytes, write_items, write_vector, read_compact_size, max_size,
}
use build_env_jenkins.Serialize.RoundTrip.{read-write_compact_size}
use build_env_jenkins.Serialize.Reader.{
  Reader, feed, ◌>>=◌, pure, read_flat, block_size, read_blocks, read_bytes, read_items,
  read_vector,
}

-- A reader takes off what was written of a value.
abbrev pub Reads {ℓ} : {A : Type ℓ} → Reader A → (A → Bytes) → (A → Type 0) → Type ℓ
Reads {A = A} read write P = (x : A) (rest : Bytes) → P x → read (write x ++ rest) ≡ some (x, rest)

-- A reader that starts a chain, on the first of the parts that were written.
pub bind-reads {ℓ κ} :
    {A : Type ℓ} {B : Type κ} (r : Reader A) (k : A → Reader B) (a b rest : Bytes) {x : A}
    → r (a ++ (b ++ rest)) ≡ some (x, b ++ rest)
    → (r >>= k) ((a ++ b) ++ rest) ≡ k x (b ++ rest)
bind-reads r k a b rest h = ap (λ s. feed k (r s)) (append_assoc a b rest) ∙ ap (feed k) h

pub read_flat-append : (a b : Bytes) → read_flat (length a) (a ++ b) ≡ some (a, b)
unfolding read_flat
read_flat-append a b = rw (
  le→ltb (length (a ++ b)) (length a) (omega (arith, length-append a b)),
  take-append_left,
  drop-append_left,
)

take-drop : (n : ℕ) (v : Bytes) → take n v ++ drop n v ≡ v
take-drop zero v = refl
take-drop (suc n) [] = refl
take-drop (suc n) (x ∷ v) = ap (λ w. x ∷ w) (take-drop n v)

read_flat-take :
    (n : ℕ) (v rest : Bytes)
    → n ≤ length v
    → read_flat n (v ++ rest) ≡ some (take n v, drop n v ++ rest)
read_flat-take n v rest h =
    ap (λ s. read_flat n (s ++ rest)) (sym (take-drop n v))
    ∙ ap (read_flat n) (append_assoc (take n v) (drop n v) rest)
    ∙ ap (λ m. read_flat m (take n v ++ (drop n v ++ rest))) (omega (arith, length-take n v))
    ∙ read_flat-append (take n v) (drop n v ++ rest)

-- The fuel is one for each block, and one for a part of a block.
read_blocks_whole :
    (fuel n : ℕ) (v rest : Bytes)
    → length v ≡ n
    → n ≤ fuel * block_size
    → read_blocks fuel n (v ++ rest) ≡ some (v, rest)
unfolding read_blocks
read_blocks_whole fuel zero [] rest e h = refl
read_blocks_whole fuel zero (x ∷ v) rest e h = absurd (omega (arith, e))
read_blocks_whole zero (suc n) v rest e h = absurd (omega (arith, h))
read_blocks_whole (suc fuel) (suc n) v rest e h =
    by_block (if ltb (suc n) block_size then suc n else block_size) (ground arith) (ground arith)
      (read_blocks_whole fuel)
  where
    by_block :
        (blk : ℕ)
        → blk ≤ suc n
        → suc n - blk ≤ fuel * block_size
        → ((m : ℕ) (w s : Bytes)
            → length w ≡ m
            → m ≤ fuel * block_size
            → read_blocks fuel m (w ++ s) ≡ some (w, s))
        → (read_flat blk >>= λ first.
              read_blocks fuel (suc n - blk) >>= λ others. pure (first ++ others))
            (v ++ rest)
          ≡ some (v, rest)
    by_block blk le left all =
        ap (feed _) (read_flat-take blk v rest (omega (arith, e, le)))
        ∙ ap (feed _)
            (all (suc n - blk) (drop blk v) rest (omega (arith, length-drop blk v, e)) left)
        ∙ ap (λ w. some (w, rest)) (take-drop blk v)

pub read-write_bytes : Reads read_bytes write_bytes (λ v. length v ≤ max_size)
unfolding read_bytes write_bytes
read-write_bytes v rest h =
    bind-reads read_compact_size _ (write_compact_size (length v)) v rest
      (read-write_compact_size (length v) (v ++ rest) h)
    ∙ read_blocks_whole (length v / block_size + 1) (length v) v rest refl (omega arith)

module _ {ℓ} {A : Type ℓ} (read : Reader A) (write : A → Bytes) (P : A → Type 0)
    (reads : Reads read write P) where
  read_items_whole :
      (xs : List A) (rest : Bytes)
      → All P xs
      → read_items read (length xs) (write_items write xs ++ rest) ≡ some (xs, rest)
  unfolding read_items write_items
  read_items_whole [] rest h = refl
  read_items_whole (x ∷ xs) rest h =
      bind-reads read _ (write x) (write_items write xs) rest
        (reads x (write_items write xs ++ rest) h.0)
      ∙ ap (feed _) (read_items_whole xs rest h.1)

  pub read-write_vector :
      Reads (read_vector read) (write_vector write) (λ xs. (length xs ≤ max_size) × All P xs)
  unfolding read_vector write_vector
  read-write_vector xs rest h =
      bind-reads read_compact_size _ (write_compact_size (length xs)) (write_items write xs) rest
        (read-write_compact_size (length xs) (write_items write xs ++ rest) h.0)
      ∙ read_items_whole xs rest h.1
