-- ===== src/Spending/Disconnect/Slots.antt =====
-- Writes to single outputs of the indexes, in what a map of them is read as.
use build_env_jenkins.Common.{
  ℕ, ◌<◌, ◌≡◌, ◌∙◌, refl, sym, ap, List, [], ◌∷◌, Bool, true, false, Option, none, some,
  some-injective, zero, suc, length, get_or, set, ◌==◌, ==_iff, ◌&&◌, ◌||◌, Bool-cases, inl, inr,
  All, arith,
}
use build_env_jenkins.Transaction.{TxIn}
use build_env_jenkins.Spending.{DiskTxPos, null_pos, TxIndex, key_of}
use build_env_jenkins.Spending.Marks.{get_or-set_same, length-set}
use build_env_jenkins.Spending.Tally.{neither}

abbrev pub View : Type 0
View = ℕ → Option TxIndex

-- What the index says of an output: where it is spent, or nothing.
abbrev pub pos_at : Option TxIndex → ℕ → DiskTxPos
pos_at none n = null_pos
pos_at (some index) n = get_or index.v_spent n null_pos

abbrev pub written : TxIndex → ℕ → DiskTxPos → TxIndex
written index n p = record index { v_spent = set index.v_spent n p }

abbrev pub HasSlot : View → ℕ → ℕ → Type 0
HasSlot v key n = (index : TxIndex) × (v key ≡ some index) × (n < length index.v_spent)

-- One output of one index is written.
pub record Writes (v w : View) (key n : ℕ) (p : DiskTxPos) : Type 0 where
  pub index : TxIndex
  pub before : v key ≡ some index
  pub after : w key ≡ some (written index n p)
  pub others : (k : ℕ) → (k == key) ≡ false → w k ≡ v k

abbrev pub is_at : TxIn → ℕ → ℕ → Bool
is_at i k m = k == key_of i.prevout.hash && m == i.prevout.n

-- Whether one of the inputs takes an output.
abbrev pub takes : List TxIn → ℕ → ℕ → Bool
takes [] k m = false
takes (i ∷ ins) k m = is_at i k m || takes ins k m

-- The outputs that the inputs take are written in turn.
abbrev pub WritesAll : View → View → DiskTxPos → List TxIn → Type 0
WritesAll v w p [] = (k : ℕ) → w k ≡ v k
WritesAll v w p (i ∷ ins) =
    (u : View) × Writes v u (key_of i.prevout.hash) i.prevout.n p × WritesAll u w p ins

get_or-set_other :
    (v : List DiskTxPos) (n m : ℕ) (p : DiskTxPos)
    → (m == n) ≡ false
    → get_or (set v n p) m null_pos ≡ get_or v m null_pos
get_or-set_other [] n m p h = refl
get_or-set_other (x ∷ v) zero zero p h = cc h
get_or-set_other (x ∷ v) zero (suc m) p h = refl
get_or-set_other (x ∷ v) (suc n) zero p h = refl
get_or-set_other (x ∷ v) (suc n) (suc m) p h = get_or-set_other v n m p (ground arith)

module _ {v w : View} {key n : ℕ} {p : DiskTxPos} (h : Writes v w key n p) where
  Writes-HasSlot : (k m : ℕ) → HasSlot v k m → HasSlot w k m
  Writes-HasSlot k m (index, known, room) = elim (Bool-cases (k == key)) [
    | inl same ↦
        let named : k ≡ key = (==_iff k key).0 same in
        let this : index ≡ h.index = some-injective _ _ (sym known ∙ ap v named ∙ h.before) in
        (
          written h.index n p,
          ap w named ∙ h.after,
          omega (arith, length-set h.index.v_spent n p, ap (λ x. length x.v_spent) this, room),
        )
    | inr other ↦ (index, h.others k other ∙ known, room)
  ]

  Writes-miss : (k m : ℕ) → (k == key && m == n) ≡ false → pos_at (w k) m ≡ pos_at (v k) m
  Writes-miss k m e = elim (Bool-cases (k == key)) [
    | inl same ↦
        let named : k ≡ key = (==_iff k key).0 same in
        ap (λ x. pos_at (w x) m) named
        ∙ ap (λ o. pos_at o m) h.after
        ∙ get_or-set_other h.index.v_spent n m p (rw same at e)
        ∙ sym (ap (λ x. pos_at (v x) m) named ∙ ap (λ o. pos_at o m) h.before)
    | inr other ↦ ap (λ o. pos_at o m) (h.others k other)
  ]

  Writes-hit : (k m : ℕ) → HasSlot v key n → (k == key && m == n) ≡ true → pos_at (w k) m ≡ p
  Writes-hit k m (index, known, room) e =
      let (same, here) = both (k == key) (m == n) e in
      let this : index ≡ h.index = some-injective _ _ (sym known ∙ h.before) in
      ap (λ x. pos_at (w x) m) ((==_iff k key).0 same)
      ∙ ap (λ o. pos_at o m) h.after
      ∙ ap (λ x. get_or (set h.index.v_spent n p) x null_pos) ((==_iff m n).0 here)
      ∙ get_or-set_same h.index.v_spent n p (omega (arith, ap (λ x. length x.v_spent) this, room))
    where
      both : (a b : Bool) → (a && b) ≡ true → (a ≡ true) × (b ≡ true)
      both true b e = (refl, e)
      both false b e = cc e

pub All-HasSlot :
    {v w : View} {key n : ℕ} {p : DiskTxPos} (h : Writes v w key n p) (ins : List TxIn)
    → All (λ i. HasSlot v (key_of i.prevout.hash) i.prevout.n) ins
    → All (λ i. HasSlot w (key_of i.prevout.hash) i.prevout.n) ins
All-HasSlot h [] a = tt
All-HasSlot h (i ∷ ins) a =
    (Writes-HasSlot h (key_of i.prevout.hash) i.prevout.n a.0, All-HasSlot h ins a.1)

-- An output that no input takes is left.
pub WritesAll-miss :
    (v w : View) (p : DiskTxPos) (ins : List TxIn) (k m : ℕ)
    → WritesAll v w p ins
    → takes ins k m ≡ false
    → pos_at (w k) m ≡ pos_at (v k) m
WritesAll-miss v w p [] k m h e = ap (λ o. pos_at o m) (h k)
WritesAll-miss v w p (i ∷ ins) k m (u, first, rest) e =
    let (here, later) = neither (is_at i k m) (takes ins k m) e in
    WritesAll-miss u w p ins k m rest later ∙ Writes-miss first k m here

-- An output that an input takes holds what is written.
pub WritesAll-hit :
    (v w : View) (p : DiskTxPos) (ins : List TxIn) (k m : ℕ)
    → WritesAll v w p ins
    → All (λ i. HasSlot v (key_of i.prevout.hash) i.prevout.n) ins
    → takes ins k m ≡ true
    → pos_at (w k) m ≡ p
WritesAll-hit v w p [] k m h room e = cc e
WritesAll-hit v w p (i ∷ ins) k m (u, first, rest) room e = elim (Bool-cases (takes ins k m)) [
  | inl later ↦ WritesAll-hit u w p ins k m rest (All-HasSlot first ins room.1) later
  | inr never ↦
      WritesAll-miss u w p ins k m rest never
      ∙ Writes-hit first k m room.0 (first_of (is_at i k m) (takes ins k m) e never)
]
  where
    first_of : (a b : Bool) → (a || b) ≡ true → b ≡ false → a ≡ true
    first_of true b e h = refl
    first_of false b e h = cc (e, h)

pub WritesAll-HasSlot :
    (v w : View) (p : DiskTxPos) (ins : List TxIn) (k m : ℕ)
    → WritesAll v w p ins
    → HasSlot v k m
    → HasSlot w k m
WritesAll-HasSlot v w p [] k m h (index, known, room) = (index, h k ∙ known, room)
WritesAll-HasSlot v w p (i ∷ ins) k m (u, first, rest) s =
    WritesAll-HasSlot u w p ins k m rest (Writes-HasSlot first k m s)
