-- ===== src/Spending/Marks.antt =====
-- The outputs that the second loop of `ConnectInputs` marks.
use build_env_jenkins.Common.{
  ℕ, zero, suc, ◌<◌, ◌≡◌, ◌∙◌, ◌⊎◌, refl, sym, ap, subst, List, [], ◌∷◌, true, false, some, length,
  get_or, set, lookup, put, lookup-put_same, lookup-put_other, ◌==◌, ==_iff, if◌then◌else◌,
  Bool-cases, inl, inr, arith,
}
use build_env_jenkins.Transaction.{TxIn, Transaction}
use build_env_jenkins.Spending.{
  DiskTxPos, null_pos, is_null_pos, TxIndex, key_of, PrevTxs, verify_signature,
}
use build_env_jenkins.Spending.Fetch.{keeps_changes}
use build_env_jenkins.Spending.Connect.{Environment, skips_signatures, Spent, mark_spent}
use build_env_jenkins.Spending.Checked.{entry_injective, IsChecked}

-- Where a list is read behind a write: what was written, or what was there.
get_or-set :
    (v : List DiskTxPos) (i j : ℕ) (p : DiskTxPos)
    → (get_or (set v i p) j null_pos ≡ p) ⊎ (get_or (set v i p) j null_pos ≡ get_or v j null_pos)
get_or-set [] i j p = inr refl
get_or-set (x ∷ v) zero zero p = inl refl
get_or-set (x ∷ v) zero (suc j) p = inr refl
get_or-set (x ∷ v) (suc i) zero p = inr refl
get_or-set (x ∷ v) (suc i) (suc j) p = get_or-set v i j p

pub get_or-set_same :
    (v : List DiskTxPos) (i : ℕ) (p : DiskTxPos) → i < length v → get_or (set v i p) i null_pos ≡ p
get_or-set_same [] i p h = absurd (omega arith)
get_or-set_same (x ∷ v) zero p h = refl
get_or-set_same (x ∷ v) (suc i) p h = get_or-set_same v i p (omega arith)

pub length-set : (v : List DiskTxPos) (i : ℕ) (p : DiskTxPos) → length (set v i p) ≡ length v
length-set [] i p = refl
length-set (x ∷ v) zero p = refl
length-set (x ∷ v) (suc i) p = ap suc (length-set v i p)

module _ (env : Environment) (tx : Transaction) where
  -- An output that is marked as spent by this transaction, among the inputs and in the pool.
  pub record IsMarked (s : Spent) (key n : ℕ) : Type 0 where
    pub index : TxIndex
    pub prev : Transaction
    pub known : lookup key s.prevs ≡ some (index, prev)
    pub pooled : keeps_changes env.mode ≡ true → lookup key s.pool ≡ some index
    pub marked : get_or index.v_spent n null_pos ≡ env.pos_this_tx

  -- An index that has room for an output.
  abbrev pub HasRoom : PrevTxs → TxIn → Type 0
  HasRoom prevs i =
      (index : TxIndex) (prev : Transaction)
      → lookup (key_of i.prevout.hash) prevs ≡ some (index, prev)
      → i.prevout.n < length index.v_spent

  -- The index that a mark leaves.
  abbrev marked_of : TxIn → TxIndex → TxIndex
  marked_of i index = record index { v_spent = set index.v_spent i.prevout.n env.pos_this_tx }

  -- The other inputs find the same transaction behind a mark, and no other output unspent.
  pub IsChecked-before :
      (s : Spent) (n_in : ℕ) (i j : TxIn) (index : TxIndex) (prev : Transaction)
      → is_null_pos env.pos_this_tx ≡ false
      → lookup (key_of i.prevout.hash) s.prevs ≡ some (index, prev)
      → IsChecked env tx (mark_spent env i (index, prev) s).prevs n_in j
      → IsChecked env tx s.prevs n_in j
  IsChecked-before s n_in i j index prev real known h =
      elim (Bool-cases (key_of j.prevout.hash == key_of i.prevout.hash)) [
        | inl same ↦ at_same ((==_iff _ _).0 same)
        | inr other ↦ record {
          index = h.index;
          prev = h.prev;
          known =
              sym (
                lookup-put_other (key_of j.prevout.hash) (key_of i.prevout.hash)
                  (marked_of i index, prev) s.prevs other)
              ∙ h.known;
          unspent = h.unspent;
          signed = h.signed;
        }
      ]
    where
      still_null :
          is_null_pos (get_or (set index.v_spent i.prevout.n env.pos_this_tx) j.prevout.n null_pos)
            ≡ true
          → is_null_pos (get_or index.v_spent j.prevout.n null_pos) ≡ true
      still_null u = elim (get_or-set index.v_spent i.prevout.n j.prevout.n env.pos_this_tx) [
        | inl written ↦ cc (real, ap is_null_pos written, u)
        | inr there ↦ ap is_null_pos (sym there) ∙ u
      ]

      at_same : key_of j.prevout.hash ≡ key_of i.prevout.hash → IsChecked env tx s.prevs n_in j
      at_same same =
          let (index_same, prev_same) = entry_injective _ h.known (
            ap (λ k. lookup k (put (key_of i.prevout.hash) (marked_of i index, prev) s.prevs)) same
            ∙ lookup-put_same (key_of i.prevout.hash) (marked_of i index, prev) s.prevs) in
          record {
            index = index;
            prev = prev;
            known = ap (λ k. lookup k s.prevs) same ∙ known;
            unspent = still_null (
                subst (λ x. is_null_pos (get_or x.v_spent j.prevout.n null_pos) ≡ true) index_same
                  h.unspent);
            signed =
                subst
                  (λ x.
                    (skips_signatures env ≡ true)
                    ⊎ (verify_signature env.ssl x tx n_in j env.strict_p2sh ≡ some true))
                  prev_same h.signed;
          }

  -- The pool behind a mark, where changes are kept.
  pooled_after :
      (s : Spent) (i : TxIn) (index : TxIndex) (prev : Transaction) (key : ℕ)
      → keeps_changes env.mode ≡ true
      → lookup key (mark_spent env i (index, prev) s).pool
        ≡ lookup key (put (key_of i.prevout.hash) (marked_of i index) s.pool)
  pooled_after s i index prev key k =
      ap
        (λ b.
          lookup key (if b then put (key_of i.prevout.hash) (marked_of i index) s.pool else s.pool))
        k

  pub mark-IsMarked :
      (s : Spent) (i : TxIn) (index : TxIndex) (prev : Transaction) (key n : ℕ)
      → IsMarked s key n
      → lookup (key_of i.prevout.hash) s.prevs ≡ some (index, prev)
      → IsMarked (mark_spent env i (index, prev) s) key n
  mark-IsMarked s i index prev key n h known = elim (Bool-cases (key == key_of i.prevout.hash)) [
    | inl same ↦ at_same ((==_iff _ _).0 same)
    | inr other ↦ record {
      index = h.index;
      prev = h.prev;
      known =
          lookup-put_other key (key_of i.prevout.hash) (marked_of i index, prev) s.prevs other
          ∙ h.known;
      pooled = λ k.
          pooled_after s i index prev key k
          ∙ lookup-put_other key (key_of i.prevout.hash) (marked_of i index) s.pool other
          ∙ h.pooled k;
      marked = h.marked;
    }
  ]
    where
      still :
          index ≡ h.index
          → get_or (set index.v_spent i.prevout.n env.pos_this_tx) n null_pos ≡ env.pos_this_tx
      still e = elim (get_or-set index.v_spent i.prevout.n n env.pos_this_tx) [
        | inl written ↦ written
        | inr there ↦ there ∙ ap (λ x. get_or x.v_spent n null_pos) e ∙ h.marked
      ]

      at_same : key ≡ key_of i.prevout.hash → IsMarked (mark_spent env i (index, prev) s) key n
      at_same same =
          let (index_same, prev_same) =
            entry_injective (lookup key s.prevs) (ap (λ k. lookup k s.prevs) same ∙ known)
              h.known in
          record {
            index = marked_of i index;
            prev = prev;
            known =
                ap (λ k. lookup k (put (key_of i.prevout.hash) (marked_of i index, prev) s.prevs))
                  same
                ∙ lookup-put_same (key_of i.prevout.hash) (marked_of i index, prev) s.prevs;
            pooled = λ k.
                pooled_after s i index prev key k
                ∙ ap (λ k. lookup k (put (key_of i.prevout.hash) (marked_of i index) s.pool)) same
                ∙ lookup-put_same (key_of i.prevout.hash) (marked_of i index) s.pool;
            marked = still index_same;
          }

  pub mark-fresh :
      (s : Spent) (i : TxIn) (index : TxIndex) (prev : Transaction)
      → i.prevout.n < length index.v_spent
      → IsMarked (mark_spent env i (index, prev) s) (key_of i.prevout.hash) i.prevout.n
  mark-fresh s i index prev room = record {
    index = marked_of i index;
    prev = prev;
    known = lookup-put_same (key_of i.prevout.hash) (marked_of i index, prev) s.prevs;
    pooled = λ k.
        pooled_after s i index prev (key_of i.prevout.hash) k
        ∙ lookup-put_same (key_of i.prevout.hash) (marked_of i index) s.pool;
    marked = get_or-set_same index.v_spent i.prevout.n env.pos_this_tx room;
  }

  pub mark-HasRoom :
      (s : Spent) (i j : TxIn) (index : TxIndex) (prev : Transaction)
      → lookup (key_of i.prevout.hash) s.prevs ≡ some (index, prev)
      → HasRoom s.prevs j
      → HasRoom (mark_spent env i (index, prev) s).prevs j
  mark-HasRoom s i j index prev known h x p e =
      elim (Bool-cases (key_of j.prevout.hash == key_of i.prevout.hash)) [
        | inl same ↦ at_same ((==_iff _ _).0 same)
        | inr other ↦ h x p (
            sym (
              lookup-put_other (key_of j.prevout.hash) (key_of i.prevout.hash)
                (marked_of i index, prev) s.prevs other)
            ∙ e)
      ]
    where
      at_same : key_of j.prevout.hash ≡ key_of i.prevout.hash → j.prevout.n < length x.v_spent
      at_same same =
          let (index_same, prev_same) = entry_injective _ e (
            ap (λ k. lookup k (put (key_of i.prevout.hash) (marked_of i index, prev) s.prevs)) same
            ∙ lookup-put_same (key_of i.prevout.hash) (marked_of i index, prev) s.prevs) in
          subst (λ y. j.prevout.n < length y.v_spent) (sym index_same)
            (omega (
              arith,
              length-set index.v_spent i.prevout.n env.pos_this_tx,
              h index prev (ap (λ k. lookup k s.prevs) same ∙ known),
            ))
