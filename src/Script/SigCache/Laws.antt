-- ===== src/Script/SigCache/Laws.antt =====
-- What `CSignatureCache` keeps of its entries and of its size.
use build_env_jenkins.Common.{
  ℕ, zero, suc, ◌+◌, ◌-◌, ◌≤◌, ◌≡◌, Bytes, [], ◌∷◌, true, All, length, arith, bytes_eq_sound,
  Bool-cases, inl, inr, sym, subst,
}
use build_env_jenkins.Script.SigCache.{
  SigData, Cache, sig_data_eq, get, insert, erase_at_or_after, has_at_or_after, erase_first, evict,
  evict_loop, cache_set,
}

sig_data_eq_sound : (a b : SigData) → sig_data_eq a b ≡ true → a ≡ b
sig_data_eq_sound a b h = ground (
  arith,
  bytes_eq_sound a.sighash b.sighash,
  bytes_eq_sound a.sig b.sig,
  bytes_eq_sound a.pub_key b.pub_key,
)

module _ (P : SigData → Type 0) where
  -- An entry that is found has what every entry has.
  pub get-All : (k : SigData) (c : Cache) → All P c → get k c ≡ true → P k
  unfolding get
  get-All k [] h e = cc
  get-All k (x ∷ c) h e = elim (Bool-cases (sig_data_eq k x)) [
    | inl same ↦ subst P (sym (sig_data_eq_sound k x same)) h.0
    | inr other ↦ get-All k c h.1 (ground arith)
  ]

  insert-All : (k : SigData) (c : Cache) → P k → All P c → All P (insert k c)
  unfolding insert
  insert-All k [] p h = (p, tt)
  insert-All k (e ∷ c) p h = ground (arith, insert-All k c p h.1)

  erase-All : (random : Bytes) (c : Cache) → All P c → All P (erase_at_or_after random c)
  unfolding erase_at_or_after
  erase-All random [] h = tt
  erase-All random (e ∷ c) h = ground (arith, erase-All random c h.1)

  evict-All : (random : Bytes) (c : Cache) → All P c → All P (evict random c)
  unfolding evict erase_first
  evict-All random [] h = ground (arith, erase-All random [] h)
  evict-All random (e ∷ c) h = ground (arith, erase-All random (e ∷ c) h)

  evict_loop-All : (n : ℕ) (draws : ℕ → Bytes) (c : Cache) → All P c → All P (evict_loop n draws c)
  unfolding evict_loop
  evict_loop-All zero draws c h = h
  evict_loop-All (suc n) draws c h =
      evict_loop-All n (λ i. draws (suc i)) (evict (draws 0) c) (evict-All (draws 0) c h)

  -- `Set` keeps what all entries have, if the new one has it.
  pub cache_set-All :
      (max_size : ℕ) (draws : ℕ → Bytes) (k : SigData) (c : Cache)
      → P k
      → All P c
      → All P (cache_set max_size draws k c)
  unfolding cache_set
  cache_set-All max_size draws k c p h = ground (
    arith,
    insert-All k (evict_loop (length c - max_size) draws c) p
        (evict_loop-All (length c - max_size) draws c h),
  )

length-insert : (k : SigData) (c : Cache) → length (insert k c) ≤ length c + 1
unfolding insert
length-insert k [] = omega arith
length-insert k (e ∷ c) = ground (arith, length-insert k c)

length-erase :
    (random : Bytes) (c : Cache)
    → has_at_or_after random c ≡ true
    → length (erase_at_or_after random c) + 1 ≡ length c
unfolding erase_at_or_after has_at_or_after
length-erase random [] h = cc
length-erase random (e ∷ c) h = ground (arith, length-erase random c)

length-evict : (random : Bytes) (c : Cache) → length (evict random c) ≡ length c - 1
unfolding evict erase_first
length-evict random [] = ground (arith, length-erase random [])
length-evict random (e ∷ c) = ground (arith, length-erase random (e ∷ c))

length-evict_loop :
    (n : ℕ) (draws : ℕ → Bytes) (c : Cache) → length (evict_loop n draws c) ≡ length c - n
unfolding evict_loop
length-evict_loop zero draws c = omega arith
length-evict_loop (suc n) draws c =
    omega (
      arith,
      length-evict_loop n (λ i. draws (suc i)) (evict (draws 0) c),
      length-evict (draws 0) c,
    )

-- However large the cache was, behind `Set` it has at most one entry more than its limit, while
-- the limit is not 0.
pub cache_set_bound :
    (max_size : ℕ) (draws : ℕ → Bytes) (k : SigData) (c : Cache)
    → 1 ≤ max_size
    → length (cache_set max_size draws k c) ≤ max_size + 1
unfolding cache_set
cache_set_bound max_size draws k c h = ground (
  arith,
  length-insert k (evict_loop (length c - max_size) draws c),
  length-evict_loop (length c - max_size) draws c,
)
