-- ===== src/MemoryPool/Accepted.antt =====
-- What `accept` keeps of the memory pool.
use build_env_jenkins.Common.{
  ℕ, zero, suc, ◌^◌, ◌-◌, ◌≡◌, ◌∙◌, refl, sym, ap, List, [], ◌∷◌, Bool, true, false, not, Option,
  none, some, some-injective, lookup, ltb, if◌then◌else◌, ◌&&◌, All,
}
use build_env_jenkins.OpenSsl.{OpenSsl}
use build_env_jenkins.Transaction.{TxIn, Transaction}
use build_env_jenkins.Transaction.Check.{
  Answer, accepted, refused, is_coin_base, is_coin_stake, check_transaction,
}
use build_env_jenkins.Merkle.{get_hash}
use build_env_jenkins.Spending.{key_of, Progress, done, rejected, aborted}
use build_env_jenkins.Spending.Standard.{is_standard_tx}
use build_env_jenkins.Spending.Tally.{guard_done}
use build_env_jenkins.MemoryPool.{
  InPoint, point_key, TxMemPool, add_unchecked, remove, clear, is_known, conflicts, Node,
  admit_inputs, may_enter, accept,
}
use build_env_jenkins.MemoryPool.Entries.{Points, Takes}
use build_env_jenkins.MemoryPool.Distinct.{IsPoint, check_transaction-AreDistinct}
use build_env_jenkins.MemoryPool.Consistent.{
  taken_once, IsConsistent, clear-IsConsistent, add_unchecked-IsConsistent, remove-IsConsistent,
}

unknown : (key : ℕ) (pool : TxMemPool) → is_known key pool ≡ false → lookup key pool.map_tx ≡ none
unknown key pool e = by_entry (lookup key pool.map_tx) e
  where
    by_entry :
        (o : Option Transaction)
        → (elim o as (λ x. Bool) [ none ↦ false | some tx ↦ true ]) ≡ false
        → o ≡ none
    by_entry none e = refl
    by_entry (some tx) e = cc e

conflicts-free :
    (ins : List TxIn) (m : Points) (j p : ℕ)
    → conflicts ins m ≡ false
    → Takes ins j p
    → lookup p m ≡ none
unfolding conflicts
conflicts-free [] m j p e t = cc t.1
conflicts-free (i ∷ ins) m j p e t =
    by_entry (lookup (point_key i.prevout) m) refl e j t (λ k e u. conflicts-free ins m k p e u)
  where
    by_entry :
        (o : Option InPoint)
        → lookup (point_key i.prevout) m ≡ o
        → (elim o as (λ x. Bool) [ none ↦ conflicts ins m | some point ↦ true ]) ≡ false
        → (j : ℕ) → Takes (i ∷ ins) j p
        → ((k : ℕ) → conflicts ins m ≡ false → Takes ins k p → lookup p m ≡ none)
        → lookup p m ≡ none
    by_entry (some point) known e j t rest = cc e
    by_entry none known e zero t rest =
        ap (λ q. lookup q m)
          (sym (ap (λ (x : TxIn). point_key x.prevout) (some-injective _ _ t.1) ∙ t.2))
        ∙ known
    by_entry none known e (suc j) t rest = rest j e t

-- What `may_enter` has checked.
pub record Guards (ssl : OpenSsl) (node : Node) (check_inputs : Bool) (tx : Transaction)
    (pool : TxMemPool) : Type 0 where
  pub valid : check_transaction tx ≡ accepted
  pub spending : is_coin_base tx ≡ false
  pub plain : is_coin_stake tx ≡ false
  pub unheard : is_known (key_of (get_hash ssl tx)) pool ≡ false
  pub apart : conflicts tx.vin pool.map_next_tx ≡ false
  pub admitted : (if check_inputs then admit_inputs ssl node tx pool else done tt) ≡ done tt

pub may_enter-Guards :
    (ssl : OpenSsl) (node : Node) (check_inputs : Bool) (tx : Transaction) (pool : TxMemPool)
    → may_enter ssl node check_inputs tx pool ≡ done tt
    → Guards ssl node check_inputs tx pool
unfolding may_enter
may_enter-Guards ssl node check_inputs tx pool e = by_check (check_transaction tx) refl e
  where
    key : ℕ
    key = key_of (get_hash ssl tx)

    by_check :
        (a : Answer)
        → check_transaction tx ≡ a
        → (elim a as (λ x. Progress Unit) [
          | refused dos ↦ rejected dos
          | accepted ↦
              if is_coin_base tx
              then rejected 100
              else if is_coin_stake tx
              then rejected 100
              else if ltb (2 ^ 31 - 1) tx.n_lock_time
              then rejected 0
              else if not node.test_net && not (is_standard_tx tx)
              then rejected 0
              else if is_known key pool
              then rejected 0
              else if check_inputs && node.contains_tx key
              then rejected 0
              else if conflicts tx.vin pool.map_next_tx
              then rejected 0
              else if check_inputs
              then admit_inputs ssl node tx pool
              else done tt
        ])
          ≡ done tt
        → Guards ssl node check_inputs tx pool
    by_check (refused dos) k e = cc e
    by_check accepted k e =
        let (base, e1) = guard_done _ 100 e in
        let (stake, e2) = guard_done _ 100 e1 in
        let (time, e3) = guard_done _ 0 e2 in
        let (standard, e4) = guard_done _ 0 e3 in
        let (fresh, e5) = guard_done _ 0 e4 in
        let (unstored, e6) = guard_done _ 0 e5 in
        let (free_of, e7) = guard_done _ 0 e6 in
        record {
          valid = k;
          spending = base;
          plain = stake;
          unheard = fresh;
          apart = free_of;
          admitted = e7;
        }

-- `accept` leaves a consistent pool, whether it takes the transaction or not.
accept-IsConsistent :
    (ssl : OpenSsl) (node : Node) (check_inputs : Bool) (tx : Transaction) (pool : TxMemPool)
    → IsConsistent pool
    → All (λ x. IsPoint x.prevout) tx.vin
    → IsConsistent (accept ssl node check_inputs tx pool).1
unfolding accept
accept-IsConsistent ssl node check_inputs tx pool h points =
    by_answer (may_enter ssl node check_inputs tx pool) refl
  where
    key : ℕ
    key = key_of (get_hash ssl tx)

    chosen : Progress Unit → Progress Unit × TxMemPool
    chosen p = elim p as (λ x. Progress Unit × TxMemPool) [
      | rejected dos ↦ (rejected dos, pool)
      | aborted ↦ (aborted, pool)
      | done u ↦ (done tt, add_unchecked key tx pool)
    ]

    by_answer :
        (p : Progress Unit)
        → may_enter ssl node check_inputs tx pool ≡ p
        → IsConsistent (chosen p).1
    by_answer (rejected dos) e = h
    by_answer aborted e = h
    by_answer (done u) e =
        let guards = may_enter-Guards ssl node check_inputs tx pool e in
        add_unchecked-IsConsistent pool key tx h (unknown key pool guards.unheard)
          (check_transaction-AreDistinct tx points guards.valid)
          (λ j p t. conflicts-free tx.vin pool.map_next_tx j p guards.apart t)

abbrev pub empty_pool : TxMemPool
empty_pool = record { map_tx = []; map_next_tx = []; n_transactions_updated = 0 }

module _ (ssl : OpenSsl) where
  -- The pools that the node can have. What `remove` is given is the transaction of the pool, where
  -- the pool has one of its hash.
  pub data IsReachable : TxMemPool → Type 0 where
    starts : IsReachable empty_pool
    accepts :
        {pool : TxMemPool} (node : Node) (check_inputs : Bool) (tx : Transaction)
        → IsReachable pool
        → All (λ x. IsPoint x.prevout) tx.vin
        → IsReachable (accept ssl node check_inputs tx pool).1
    removes :
        {pool : TxMemPool} (tx : Transaction)
        → IsReachable pool
        → ((other : Transaction)
            → lookup (key_of (get_hash ssl tx)) pool.map_tx ≡ some other
            → other ≡ tx)
        → IsReachable (remove ssl tx pool)
    clears : {pool : TxMemPool} → IsReachable pool → IsReachable (clear pool)

  Reachable-IsConsistent : (pool : TxMemPool) → IsReachable pool → IsConsistent pool
  Reachable-IsConsistent pool starts = record {
    backed = λ p point e. cc e;
    entered = λ key tx j p e t. cc e;
  }
  Reachable-IsConsistent pool (accepts {pool = q} node check_inputs tx r points) =
      accept-IsConsistent ssl node check_inputs tx q (Reachable-IsConsistent q r) points
  Reachable-IsConsistent pool (removes {pool = q} tx r own) =
      remove-IsConsistent q 0 tx (Reachable-IsConsistent q r) ssl own
  Reachable-IsConsistent pool (clears {pool = q} r) = clear-IsConsistent q

-- In a memory pool that is reached from the empty one by `accept`, `remove` and `clear` no output is
-- taken by two inputs, of one transaction or of two.
pub reachable_taken_once :
    (ssl : OpenSsl) (pool : TxMemPool) (key key' : ℕ) (tx tx' : Transaction) (j j' p : ℕ)
    → IsReachable ssl pool
    → lookup key pool.map_tx ≡ some tx
    → lookup key' pool.map_tx ≡ some tx'
    → Takes tx.vin j p
    → Takes tx'.vin j' p
    → (key ≡ key') × (j ≡ j')
reachable_taken_once ssl pool key key' tx tx' j j' p r =
    taken_once pool key key' tx tx' j j' p (Reachable-IsConsistent ssl pool r)
