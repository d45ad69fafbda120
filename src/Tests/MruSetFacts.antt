-- ===== src/Tests/MruSetFacts.antt =====
-- The properties of `mruset` at a concrete input, and a run.
use build_env_jenkins.Common.{ℕ, ◌≡◌, refl, [], ◌∷◌, Bool, true, ◌==◌, ==_iff, ==_refl, arith}
use build_env_jenkins.MruSet.{MruSet, member, erase, pop_front, enqueue, insert}
use build_env_jenkins.MruSet.Laws.{IsMru, insert-IsMru}

abbrev equal : ℕ → ℕ → Bool
equal a b = a == b

equal_sound : (a b : ℕ) → equal a b ≡ true → a ≡ b
equal_sound a b e = (==_iff a b).0 e

abbrev empty : MruSet ℕ
empty = record { elements = []; queue = []; n_max_size = 1 }

empty-IsMru : IsMru equal ==_refl equal_sound empty
empty-IsMru = record {
  in_sync = record { distinct = tt; same = λ y. refl };
  bounded = λ k. omega arith;
}

four-IsMru : IsMru equal ==_refl equal_sound (insert equal 4 empty)
four-IsMru = insert-IsMru equal ==_refl equal_sound 4 empty empty-IsMru

insert-IsMru_example : IsMru equal ==_refl equal_sound (insert equal 9 (insert equal 4 empty))
insert-IsMru_example = insert-IsMru equal ==_refl equal_sound 9 (insert equal 4 empty) four-IsMru

-- 4 and 5 with room for one.
evicted :
    (insert equal 5 (insert equal 4 empty))
    ≡ record { elements = 5 ∷ []; queue = 5 ∷ []; n_max_size = 1 }
unfolding insert enqueue pop_front erase member
evicted = refl
