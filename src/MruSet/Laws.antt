-- ===== src/MruSet/Laws.antt =====
-- The set and the queue of an `mruset` hold the same elements, at most as many as its limit.
use build_env_jenkins.Common.{
  ℕ, suc, ◌≤◌, ◌≡◌, refl, sym, ap, subst, List, [], ◌∷◌, ◌++◌, Bool, true, false, length, ltb, ◌==◌,
  ◌&&◌, ◌||◌, not, arith, ltb→le, ◌∙◌, Bool-cases, inl, inr, length-append,
}
use build_env_jenkins.MruSet.{MruSet, member, erase, pop_front, enqueue, insert, trim, set_max_size}

module _ {ℓ} {A : Type ℓ} (eq : A → A → Bool) (eq_refl : (a : A) → eq a a ≡ true)
    (eq_sound : (a b : A) → eq a b ≡ true → a ≡ b) where
  abbrev pub IsDistinct : List A → Type 0
  IsDistinct [] = Unit
  IsDistinct (x ∷ q) = (member eq x q ≡ false) × IsDistinct q

  abbrev pub SameMembers : List A → List A → Type ℓ
  SameMembers s q = (y : A) → member eq y s ≡ member eq y q

  -- No element stands twice in the queue, and it holds what the set holds.
  pub record IsInSync (s q : List A) : Type ℓ where
    pub distinct : IsDistinct q
    pub same : SameMembers s q

  -- What every operation keeps.
  pub record IsMru (m : MruSet A) : Type ℓ where
    pub in_sync : IsInSync m.elements m.queue
    pub bounded : 1 ≤ m.n_max_size → length m.queue ≤ m.n_max_size

  not_both : (x y z : A) → eq y x ≡ true → eq y z ≡ true → eq z x ≡ true
  not_both x y z a b = subst (λ w. eq w x ≡ true) (eq_sound y z b) a

  eq-false_sym : (x z : A) → eq x z ≡ false → eq z x ≡ false
  eq-false_sym x z h = elim (Bool-cases (eq z x)) [
    | inl same ↦ cc (h, ap (eq x) (eq_sound z x same), eq_refl x)
    | inr other ↦ other
  ]

  member-snoc : (y x : A) (q : List A) → member eq y (q ++ x ∷ []) ≡ (member eq y q || eq y x)
  unfolding member
  member-snoc y x [] = ground arith
  member-snoc y x (z ∷ q) = ground (arith, member-snoc y x q)

  member-erase :
      (y z : A) (s : List A) → member eq y (erase eq z s) ≡ (member eq y s && not (eq y z))
  unfolding member erase
  member-erase y z [] = refl
  member-erase y z (x ∷ s) = elim (Bool-cases (eq z x)) [
    | inl same ↦ rw same (ground (arith, member-erase y z s, ap (eq y) (eq_sound z x same)))
    | inr other ↦ elim (Bool-cases (eq y x)) [
      | inl here ↦ elim (Bool-cases (eq y z)) [
        | inl both ↦ cc (not_both x y z here both, other)
        | inr single ↦ ground (arith, member-erase y z s)
      ]
      | inr there ↦ ground (arith, member-erase y z s)
    ]
  ]

  IsDistinct-snoc :
      (x : A) (q : List A) → member eq x q ≡ false → IsDistinct q → IsDistinct (q ++ x ∷ [])
  unfolding member
  IsDistinct-snoc x [] h d = (refl, tt)
  IsDistinct-snoc x (z ∷ q) h d = (
    ground (arith, member-snoc z x q, eq-false_sym x z (ground arith), d.0),
    IsDistinct-snoc x q (ground arith) d.1,
  )

  -- Popping the front keeps the two parts together.
  SameMembers-pop :
      (s : List A) (z : A) (q : List A)
      → member eq z q ≡ false
      → SameMembers s (z ∷ q)
      → SameMembers (erase eq z s) q
  unfolding member
  SameMembers-pop s z q fresh h y = elim (Bool-cases (eq y z)) [
    | inl same ↦
        let out : member eq y q ≡ false =
          subst (λ w. member eq w q ≡ false) (sym (eq_sound y z same)) fresh in
        ground (arith, member-erase y z s)
    | inr other ↦ ground (arith, member-erase y z s, h y)
  ]

  pop-IsInSync : (s : List A) (z : A) (q : List A) → IsInSync s (z ∷ q) → IsInSync (erase eq z s) q
  pop-IsInSync s z q h = record {
    distinct = h.distinct.1;
    same = SameMembers-pop s z q h.distinct.0 h.same;
  }

  push-IsInSync :
      (x : A) (s q : List A) → member eq x s ≡ false → IsInSync s q → IsInSync (x ∷ s) (q ++ x ∷ [])
  unfolding member
  push-IsInSync x s q fresh h = record {
    distinct = IsDistinct-snoc x q (sym (h.same x) ∙ fresh) h.distinct;
    same = λ y. ground (arith, member-snoc y x q, h.same y);
  }

  -- A new element, with the front evicted where the queue is full.
  enqueue-IsMru :
      (x : A) (s q : List A) (n : ℕ)
      → IsInSync (x ∷ s) (q ++ x ∷ [])
      → (1 ≤ n → length q ≤ n)
      → IsMru (enqueue eq x (record { elements = x ∷ s; queue = q; n_max_size = n }))
  unfolding enqueue pop_front
  enqueue-IsMru x s [] n h b = elim (Bool-cases (not (n == 0) && 0 == n)) [
    | inl full ↦ absurd (ground arith)
    | inr room ↦ rw room (record { in_sync = h; bounded = λ k. omega arith })
  ]
  enqueue-IsMru x s (z ∷ q) n h b = elim (Bool-cases (not (n == 0) && suc (length q) == n)) [
    | inl full ↦ rw full (record {
      in_sync = pop-IsInSync (x ∷ s) z (q ++ x ∷ []) h;
      bounded = λ k. omega (arith, b k, length-append q (x ∷ []));
    })
    | inr room ↦
        rw room
          (record { in_sync = h; bounded = λ k. ground (arith, b k, length-append q (x ∷ [])) })
  ]

  -- `insert` keeps a set that is in order: its set and its queue hold the same elements, the queue
  -- none twice and at most as many as the limit where there is one.
  pub insert-IsMru : (x : A) (m : MruSet A) → IsMru m → IsMru (insert eq x m)
  unfolding insert
  insert-IsMru x m h = elim (Bool-cases (member eq x m.elements)) [
    | inl known ↦ rw known h
    | inr fresh ↦ rw fresh (
        enqueue-IsMru x m.elements m.queue m.n_max_size
          (push-IsInSync x m.elements m.queue fresh h.in_sync) h.bounded)
  ]

  trim-IsInSync :
      (n : ℕ) (s q : List A) → IsInSync s q → IsInSync (trim eq n s q).0 (trim eq n s q).1
  unfolding trim
  trim-IsInSync n s [] h = h
  trim-IsInSync n s (z ∷ q) h = elim (Bool-cases (ltb n (suc (length q)))) [
    | inl over ↦ rw over (trim-IsInSync n (erase eq z s) q (pop-IsInSync s z q h))
    | inr fits ↦ rw fits h
  ]

  trim-bounded : (n : ℕ) (s q : List A) → length (trim eq n s q).1 ≤ n
  unfolding trim
  trim-bounded n s [] = omega arith
  trim-bounded n s (z ∷ q) = elim (Bool-cases (ltb n (suc (length q)))) [
    | inl over ↦ rw over (trim-bounded n (erase eq z s) q)
    | inr fits ↦ rw fits (ltb→le _ _ fits)
  ]

  -- `max_size` keeps a set in order, under its new limit.
  pub set_max_size-IsMru : (n : ℕ) (m : MruSet A) → IsMru m → IsMru (set_max_size eq n m)
  unfolding set_max_size
  set_max_size-IsMru n m h = elim (Bool-cases (n == 0)) [
    | inl unlimited ↦ rw unlimited (record { in_sync = h.in_sync; bounded = λ k. ground arith })
    | inr limited ↦ rw limited (record {
      in_sync = trim-IsInSync n m.elements m.queue h.in_sync;
      bounded = λ k. trim-bounded n m.elements m.queue;
    })
  ]

  -- What has been inserted into a set that is in order is found, whatever has been evicted for it.
  pub member-insert : (x : A) (m : MruSet A) → IsMru m → member eq x (insert eq x m).elements ≡ true
  unfolding insert enqueue
  member-insert x m h = elim (Bool-cases (member eq x m.elements)) [
    | inl known ↦ rw known known
    | inr fresh ↦ rw fresh (
        (enqueue-IsMru x m.elements m.queue m.n_max_size
            (push-IsInSync x m.elements m.queue fresh h.in_sync) h.bounded).in_sync.same
          x
        ∙ member-snoc x x _
        ∙ at_end _)
  ]
    where
      at_end : (b : Bool) → (b || eq x x) ≡ true
      at_end b = ground (arith, eq_refl x)
