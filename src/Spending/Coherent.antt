-- ===== src/Spending/Coherent.antt =====
-- What `FetchInputs` finds in the proposed changes and in the database.
use build_env_jenkins.Common.{
  ℕ, ◌≡◌, ◌∙◌, refl, sym, ap, subst, List, [], ◌∷◌, Bool, true, false, Option, none, some,
  some-injective, length, lookup, put, lookup-put_same, lookup-put_other, leb, ◌==◌, ==_iff,
  if◌then◌else◌, ◌||◌, Bool-cases, inl, inr,
}
use build_env_jenkins.Transaction.{TxIn, Transaction}
use build_env_jenkins.Transaction.Check.{is_coin_base}
use build_env_jenkins.Spending.{
  pos_eq, memory_pos, TxIndex, key_of, PrevTxs, Indexes, Progress, done, rejected, aborted,
}
use build_env_jenkins.Spending.Fetch.{
  Store, Mode, keeps_changes, fetch_index, fetch_prev, fetch_loop, check_ranges, fetch_inputs,
}
use build_env_jenkins.Spending.Tally.{done_injective, guard_done}
use build_env_jenkins.Spending.Checked.{Entry, entry_injective}

-- The second loop of `FetchInputs` changes nothing.
check_ranges-same :
    (ins : List TxIn) (prevs prevs' : PrevTxs)
    → check_ranges ins prevs ≡ done prevs'
    → prevs' ≡ prevs
unfolding check_ranges
check_ranges-same [] prevs prevs' e = sym (done_injective e)
check_ranges-same (i ∷ ins) prevs prevs' e =
    by_lookup (lookup (key_of i.prevout.hash) prevs) (check_ranges-same ins prevs prevs') e
  where
    by_lookup :
        (o : Option Entry)
        → (check_ranges ins prevs ≡ done prevs' → prevs' ≡ prevs)
        → (elim o as (λ x. Progress PrevTxs) [
          | none ↦ aborted
          | some (index, prev) ↦
              if leb (length prev.vout) i.prevout.n || leb (length index.v_spent) i.prevout.n
              then rejected 100
              else check_ranges ins prevs
        ])
          ≡ done prevs'
        → prevs' ≡ prevs
    by_lookup none rest e = cc e
    by_lookup (some (index, prev)) rest e = rest (guard_done _ 100 e).1

module _ (store : Store) (mode : Mode) (pool : Indexes) where
  -- Every index that is fetched is the present one: that of the proposed changes, where they have
  -- one, or that of the database.
  abbrev pub IsCoherent : PrevTxs → Type 0
  IsCoherent prevs =
      (key : ℕ) (x : TxIndex) (prev : Transaction)
      → lookup key prevs ≡ some (x, prev)
      → fetch_index store mode pool key ≡ some x

  module _ (keeps : keeps_changes mode ≡ true) where
    pub fetch_index-pool :
        (key : ℕ) (index : TxIndex)
        → lookup key pool ≡ some index
        → fetch_index store mode pool key ≡ some index
    unfolding fetch_index
    fetch_index-pool key index h = rw (fetch_index, keeps, h)

    fetch_prev-index :
        (key : ℕ) (o : Option TxIndex) (x : TxIndex) (prev : Transaction)
        → fetch_prev store mode key o ≡ some (x, prev)
        → o ≡ some x
    unfolding fetch_prev
    fetch_prev-index key none x prev e = cc (rw keeps at e)
    fetch_prev-index key (some index) x prev e =
        by_read
          (if pos_eq index.pos memory_pos
            then store.memory_pool key
            else store.read_from_disk index.pos)
          e
      where
        by_read :
            (o : Option Transaction)
            → (elim o as (λ t. Option Entry) [ none ↦ none | some tx ↦ some (index, tx) ])
              ≡ some (x, prev)
            → ◌≡◌ {A = Option TxIndex} (some index) (some x)
        by_read none e = cc e
        by_read (some tx) e = ap some (entry_injective _ refl e).0

    put-IsCoherent :
        (key : ℕ) (prevs : PrevTxs) (x : TxIndex) (prev : Transaction)
        → IsCoherent prevs
        → fetch_prev store mode key (fetch_index store mode pool key) ≡ some (x, prev)
        → IsCoherent (put key (x, prev) prevs)
    put-IsCoherent key prevs x prev h e k y p found = elim (Bool-cases (k == key)) [
      | inl same ↦
          let named : k ≡ key = (==_iff k key).0 same in
          let stored : lookup k (put key (x, prev) prevs) ≡ some (x, prev) =
            subst (λ m. lookup m (put key (x, prev) prevs) ≡ some (x, prev)) (sym named)
              (lookup-put_same key (x, prev) prevs) in
          ap (fetch_index store mode pool) named
          ∙ fetch_prev-index key _ x prev e
          ∙ ap some (entry_injective _ stored found).0
      | inr other ↦ h k y p (sym (lookup-put_other k key (x, prev) prevs other) ∙ found)
    ]

    fetch_loop-IsCoherent :
        (ins : List TxIn) (prevs prevs' : PrevTxs)
        → IsCoherent prevs
        → fetch_loop store mode pool ins prevs ≡ some prevs'
        → IsCoherent prevs'
    unfolding fetch_loop
    fetch_loop-IsCoherent [] prevs prevs' h e = subst IsCoherent (some-injective _ _ e) h
    fetch_loop-IsCoherent (i ∷ ins) prevs prevs' h e =
        by_lookup (lookup (key_of i.prevout.hash) prevs) (fetch_loop-IsCoherent ins) e
      where
        Rest : Type 0
        Rest =
            (qs qs' : PrevTxs)
            → IsCoherent qs
            → fetch_loop store mode pool ins qs ≡ some qs'
            → IsCoherent qs'

        by_fetch :
            (o : Option Entry)
            → fetch_prev store mode
                (key_of i.prevout.hash)
                (fetch_index store mode pool (key_of i.prevout.hash))
              ≡ o
            → Rest
            → (elim o as (λ x. Option PrevTxs) [
              | none ↦ none
              | some prev ↦ fetch_loop store mode pool ins (put (key_of i.prevout.hash) prev prevs)
            ])
              ≡ some prevs'
            → IsCoherent prevs'
        by_fetch none known rest e = cc e
        by_fetch (some (x, prev)) known rest e =
            rest _ prevs' (put-IsCoherent (key_of i.prevout.hash) prevs x prev h known) e

        by_lookup :
            (o : Option Entry)
            → Rest
            → (elim o as (λ x. Option PrevTxs) [
              | some prev ↦ fetch_loop store mode pool ins prevs
              | none ↦
                  elim (fetch_prev store mode
                      (key_of i.prevout.hash)
                      (fetch_index store mode pool (key_of i.prevout.hash)))
                    as (λ x. Option PrevTxs) [
                      | none ↦ none
                      | some prev ↦
                          fetch_loop store mode pool ins (put (key_of i.prevout.hash) prev prevs)
                    ]
            ])
              ≡ some prevs'
            → IsCoherent prevs'
        by_lookup (some prev) rest e = rest prevs prevs' h e
        by_lookup none rest e = by_fetch _ refl rest e

    pub fetch_inputs-IsCoherent :
        (tx : Transaction) (prevs : PrevTxs)
        → fetch_inputs store mode pool tx ≡ done prevs
        → IsCoherent prevs
    unfolding fetch_inputs
    fetch_inputs-IsCoherent tx prevs e = by_base (is_coin_base tx) e
      where
        by_fetch :
            (o : Option PrevTxs)
            → fetch_loop store mode pool tx.vin [] ≡ o
            → (elim o as (λ x. Progress PrevTxs) [
              | none ↦ rejected 0
              | some qs ↦ check_ranges tx.vin qs
            ])
              ≡ done prevs
            → IsCoherent prevs
        by_fetch none known e = cc e
        by_fetch (some qs) known e =
            subst IsCoherent (sym (check_ranges-same tx.vin qs prevs e))
              (fetch_loop-IsCoherent tx.vin [] qs (λ k x prev f. cc f) known)

        by_base :
            (base : Bool)
            → (if base
                then done []
                else elim (fetch_loop store mode pool tx.vin []) as (λ x. Progress PrevTxs) [
                  | none ↦ rejected 0
                  | some qs ↦ check_ranges tx.vin qs
                ])
              ≡ done prevs
            → IsCoherent prevs
        by_base true e = subst IsCoherent (done_injective e) (λ k x prev f. cc f)
        by_base false e = by_fetch _ refl e
