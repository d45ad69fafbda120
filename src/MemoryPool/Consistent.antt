-- ===== src/MemoryPool/Consistent.antt =====
-- What holds of the memory pool between two calls: `mapNextTx` is the index of the inputs in `mapTx`.
use build_env_jenkins.Common.{
  ℕ, ◌+◌, ◌≡◌, ◌≢◌, ◌∙◌, refl, sym, ap, ap₂, subst, false, Option, none, some, some-injective,
  lookup, put, lookup-put_same, lookup-put_other, erase_key, lookup-erase_same, lookup-erase_other,
  ◌==◌, ==_iff, Bool-cases, inl, inr, arith,
}
use build_env_jenkins.OpenSsl.{OpenSsl}
use build_env_jenkins.Transaction.{Transaction}
use build_env_jenkins.Merkle.{get_hash}
use build_env_jenkins.Spending.{key_of}
use build_env_jenkins.MemoryPool.{
  InPoint, TxMemPool, enter_inputs, add_unchecked, erase_inputs, remove, clear,
}
use build_env_jenkins.MemoryPool.Entries.{
  Takes, AreDistinct, lookup-enter_other, lookup-enter_taken, taken_or_not,
  lookup-erase_inputs_other, lookup-erase_inputs_taken,
}

-- Every entry of `mapNextTx` is an input of a transaction in the pool, and every input has its entry.
pub record IsConsistent (pool : TxMemPool) : Type 0 where
  pub backed :
      (p : ℕ) (point : InPoint)
      → lookup p pool.map_next_tx ≡ some point
      → (tx : Transaction) × (lookup point.ptx pool.map_tx ≡ some tx) × Takes tx.vin point.n p
  pub entered :
      (key : ℕ) (tx : Transaction) (j p : ℕ)
      → lookup key pool.map_tx ≡ some tx
      → Takes tx.vin j p
      → lookup p pool.map_next_tx ≡ some (record { ptx = key; n = j })

-- In a consistent pool no output is taken twice.
pub taken_once :
    (pool : TxMemPool) (key key' : ℕ) (tx tx' : Transaction) (j j' p : ℕ)
    → IsConsistent pool
    → lookup key pool.map_tx ≡ some tx
    → lookup key' pool.map_tx ≡ some tx'
    → Takes tx.vin j p
    → Takes tx'.vin j' p
    → (key ≡ key') × (j ≡ j')
taken_once pool key key' tx tx' j j' p h known known' t t' =
    (ap (λ q. q.ptx) same, ap (λ q. q.n) same)
  where
    same : ◌≡◌ {A = InPoint} (record { ptx = key; n = j }) (record { ptx = key'; n = j' })
    same =
        some-injective _ _ (sym (h.entered key tx j p known t) ∙ h.entered key' tx' j' p known' t')

pub clear-IsConsistent : (pool : TxMemPool) → IsConsistent (clear pool)
clear-IsConsistent pool = record { backed = λ p point e. cc e; entered = λ key tx j p e t. cc e }

key_differs : (a b : ℕ) → a ≢ b → (a == b) ≡ false
key_differs a b h = elim (Bool-cases (a == b)) [
  | inl same ↦ absurd (h ((==_iff a b).0 same))
  | inr other ↦ other
]

module _ (pool : TxMemPool) (key : ℕ) (tx : Transaction) (h : IsConsistent pool) where
  pub add_unchecked-IsConsistent :
      lookup key pool.map_tx ≡ none
      → AreDistinct tx.vin
      → ((j p : ℕ) → Takes tx.vin j p → lookup p pool.map_next_tx ≡ none)
      → IsConsistent (add_unchecked key tx pool)
  unfolding add_unchecked
  add_unchecked-IsConsistent fresh distinct free = record { backed = backed; entered = entered }
    where
      from_zero : (j : ℕ) → 0 + j ≡ j
      from_zero j = omega arith

      backed :
          (p : ℕ) (point : InPoint)
          → lookup p (enter_inputs key 0 tx.vin pool.map_next_tx) ≡ some point
          → (t : Transaction) × (lookup point.ptx (put key tx pool.map_tx) ≡ some t)
            × Takes t.vin point.n p
      backed p point e = elim (taken_or_not tx.vin p) [
        | inl (j, t) ↦
            let is_point : ◌≡◌ {A = InPoint} (record { ptx = key; n = 0 + j }) point =
              some-injective _ _
                (sym (lookup-enter_taken key 0 tx.vin pool.map_next_tx j p distinct t) ∙ e) in
            (
              tx,
              subst (λ q. lookup q.ptx (put key tx pool.map_tx) ≡ some tx) is_point
                  (lookup-put_same key tx pool.map_tx),
              subst (λ q. Takes tx.vin q.n p) is_point
                  (subst (λ n. Takes tx.vin n p) (sym (from_zero j)) t),
            )
        | inr free_of ↦
            let (t, known, takes) =
              h.backed p point
                (sym (lookup-enter_other key 0 tx.vin pool.map_next_tx p free_of) ∙ e) in
            (
              t,
              lookup-put_other point.ptx key tx pool.map_tx (
                    key_differs point.ptx key
                      (λ same. cc (sym known ∙ ap (λ k. lookup k pool.map_tx) same ∙ fresh)))
                  ∙ known,
              takes,
            )
      ]

      entered :
          (key' : ℕ) (t : Transaction) (j p : ℕ)
          → lookup key' (put key tx pool.map_tx) ≡ some t
          → Takes t.vin j p
          → lookup p (enter_inputs key 0 tx.vin pool.map_next_tx)
            ≡ some (record { ptx = key'; n = j })
      entered key' t j p known takes = elim (Bool-cases (key' == key)) [
        | inl same ↦
            let named : key' ≡ key = (==_iff key' key).0 same in
            let is_tx : t ≡ tx = some-injective _ _ (
              sym known
              ∙ ap (λ k. lookup k (put key tx pool.map_tx)) named
              ∙ lookup-put_same key tx pool.map_tx) in
            lookup-enter_taken key 0 tx.vin pool.map_next_tx j p distinct
              (subst (λ x. Takes x.vin j p) is_tx takes)
            ∙ ap₂ (λ (k n : ℕ). some (record { ptx = k; n = n })) (sym named) (from_zero j)
        | inr other ↦
            let before : lookup p pool.map_next_tx ≡ some (record { ptx = key'; n = j }) =
              h.entered key' t j p (sym (lookup-put_other key' key tx pool.map_tx other) ∙ known)
                takes in
            lookup-enter_other key 0 tx.vin pool.map_next_tx p
              (λ k u. cc (sym (free k p u) ∙ before))
            ∙ before
      ]

  -- The transaction that is removed is the one of the pool, where the pool has its hash.
  pub remove-IsConsistent :
      (ssl : OpenSsl)
      → ((other : Transaction)
          → lookup (key_of (get_hash ssl tx)) pool.map_tx ≡ some other
          → other ≡ tx)
      → IsConsistent (remove ssl tx pool)
  unfolding remove
  remove-IsConsistent ssl own = by_known (lookup (key_of (get_hash ssl tx)) pool.map_tx) refl
    where
      gone : ℕ
      gone = key_of (get_hash ssl tx)

      backed :
          lookup gone pool.map_tx ≡ some tx
          → (p : ℕ) (point : InPoint) → lookup p (erase_inputs tx.vin pool.map_next_tx) ≡ some point
          → (t : Transaction) × (lookup point.ptx (erase_key gone pool.map_tx) ≡ some t)
            × Takes t.vin point.n p
      backed is_tx p point e = elim (taken_or_not tx.vin p) [
        | inl (j, t) ↦ cc (sym (lookup-erase_inputs_taken tx.vin pool.map_next_tx j p t) ∙ e)
        | inr free_of ↦
            let (t, known, takes) =
              h.backed p point
                (sym (lookup-erase_inputs_other tx.vin pool.map_next_tx p free_of) ∙ e) in
            (
              t,
              lookup-erase_other point.ptx gone pool.map_tx (
                    key_differs point.ptx gone (λ same.
                      let is_it : t ≡ tx =
                        some-injective _ _
                          (sym known ∙ ap (λ k. lookup k pool.map_tx) same ∙ is_tx) in
                      free_of point.n (subst (λ x. Takes x.vin point.n p) is_it takes)))
                  ∙ known,
              takes,
            )
      ]

      entered :
          lookup gone pool.map_tx ≡ some tx
          → (key' : ℕ) (t : Transaction) (j p : ℕ)
          → lookup key' (erase_key gone pool.map_tx) ≡ some t
          → Takes t.vin j p
          → lookup p (erase_inputs tx.vin pool.map_next_tx) ≡ some (record { ptx = key'; n = j })
      entered is_tx key' t j p known takes = elim (Bool-cases (key' == gone)) [
        | inl same ↦ cc (
            sym known
            ∙ ap (λ k. lookup k (erase_key gone pool.map_tx)) ((==_iff key' gone).0 same)
            ∙ lookup-erase_same gone pool.map_tx)
        | inr other ↦
            let before : lookup key' pool.map_tx ≡ some t =
              sym (lookup-erase_other key' gone pool.map_tx other) ∙ known in
            lookup-erase_inputs_other tx.vin pool.map_next_tx p (λ k u. cc (
              (==_iff key' gone).1 (taken_once pool key' gone t tx j k p h before is_tx takes u).0,
              other,
            ))
            ∙ h.entered key' t j p before takes
      ]

      by_known :
          (o : Option Transaction)
          → lookup gone pool.map_tx ≡ o
          → IsConsistent (elim o as (λ x. TxMemPool) [
            | none ↦ pool
            | some other ↦ record {
              map_tx = erase_key gone pool.map_tx;
              map_next_tx = erase_inputs tx.vin pool.map_next_tx;
              n_transactions_updated = pool.n_transactions_updated + 1;
            }
          ])
      by_known none e = h
      by_known (some other) e =
          let is_tx : lookup gone pool.map_tx ≡ some tx = e ∙ ap (λ x. some x) (own other e) in
          record { backed = backed is_tx; entered = entered is_tx }
