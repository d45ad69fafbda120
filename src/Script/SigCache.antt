-- ===== src/Script/SigCache.antt =====
-- `CSignatureCache` of src/script.cpp. `setValid` is the list of its entries in their order.
pub mod Laws
use build_env_jenkins.Common.{
  ℕ, zero, suc, ◌-◌, Bytes, List, [], ◌∷◌, Bool, true, false, length, from_le, bytes_eq, ltb, ◌==◌,
  if◌then◌else◌, ◌&&◌, ◌||◌, not,
}

-- `sigdata_type`: the signature hash, the signature and the public key.
pub record SigData : Type 0 where
  pub sighash : Bytes
  pub sig : Bytes
  pub pub_key : Bytes

abbrev pub Cache : Type 0
Cache = List SigData

abbrev pub sig_data_eq : SigData → SigData → Bool
sig_data_eq a b =
    bytes_eq a.sighash b.sighash && (bytes_eq a.sig b.sig && bytes_eq a.pub_key b.pub_key)

-- `operator<` of byte vectors, then of the tuples. A `uint256` is compared as a number.
unfoldable pub bytes_lt : Bytes → Bytes → Bool
bytes_lt a [] = false
bytes_lt [] (y ∷ b) = true
bytes_lt (x ∷ a) (y ∷ b) = ltb x y || x == y && bytes_lt a b

unfoldable pub sig_data_lt : SigData → SigData → Bool
sig_data_lt a b =
    ltb (from_le a.sighash) (from_le b.sighash)
    || (bytes_eq a.sighash b.sighash
        && (bytes_lt a.sig b.sig || bytes_eq a.sig b.sig && bytes_lt a.pub_key b.pub_key))

-- `Get`
unfoldable pub get : SigData → Cache → Bool
get k [] = false
get k (e ∷ c) = sig_data_eq k e || get k c

-- `setValid.insert(k)`
unfoldable pub insert : SigData → Cache → Cache
insert k [] = k ∷ []
insert k (e ∷ c) =
    if sig_data_eq k e then e ∷ c else if sig_data_lt k e then k ∷ e ∷ c else e ∷ insert k c

-- `setValid.lower_bound(sigdata_type(randomHash, unused, unused))` split the cache: what stands
-- before it, and it with the rest.
unfoldable pub erase_at_or_after : Bytes → Cache → Cache
erase_at_or_after random [] = []
erase_at_or_after random (e ∷ c) =
    if ltb (from_le e.sighash) (from_le random) then e ∷ erase_at_or_after random c else c

unfoldable pub has_at_or_after : Bytes → Cache → Bool
has_at_or_after random [] = false
has_at_or_after random (e ∷ c) =
    not (ltb (from_le e.sighash) (from_le random)) || has_at_or_after random c

unfoldable pub erase_first : Cache → Cache
erase_first [] = []
erase_first (e ∷ c) = c

-- One eviction: the entry at the random place, or the first one if that place is the end.
unfoldable pub evict : Bytes → Cache → Cache
evict random c = if has_at_or_after random c then erase_at_or_after random c else erase_first c

-- The loop of `Set`: `count` evictions, each by the next result of `GetRandHash`.
unfoldable pub evict_loop : ℕ → (ℕ → Bytes) → Cache → Cache
evict_loop zero draws c = c
evict_loop (suc count) draws c = evict_loop count (λ i. draws (suc i)) (evict (draws 0) c)

-- `Set`, under `-maxsigcachesize`, a size that is not positive being 0.
unfoldable pub cache_set : ℕ → (ℕ → Bytes) → SigData → Cache → Cache
cache_set max_cache_size draws k c =
    if max_cache_size == 0 then c else insert k (evict_loop (length c - max_cache_size) draws c)
