-- ===== src/MruSet.antt =====
-- `mruset` of src/mruset.h, a set that keeps the most recent elements. The order in which the
-- `std::set` inside is walked is not modelled.
pub mod Laws
use build_env_jenkins.Common.{
  ℕ, ◌≡◌, List, [], ◌∷◌, ◌++◌, Bool, true, false, length, ltb, ◌==◌, if◌then◌else◌, ◌&&◌, ◌||◌, not,
}

-- The elements of the set and the queue, its front first.
pub record MruSet {ℓ} (A : Type ℓ) : Type ℓ where
  pub elements : List A
  pub queue : List A
  pub n_max_size : ℕ

module _ {ℓ} {A : Type ℓ} (eq : A → A → Bool) where
  -- `set.count(k)`
  unfoldable pub member : A → List A → Bool
  member k [] = false
  member k (x ∷ s) = eq k x || member k s

  -- `set.erase(k)`
  unfoldable pub erase : A → List A → List A
  erase k [] = []
  erase k (x ∷ s) = let rest = erase k s in if eq k x then rest else x ∷ rest

  -- `set.erase(queue.front()); queue.pop_front();`
  unfoldable pub pop_front : MruSet A → MruSet A
  pop_front m = elim m.queue [
    | [] ↦ m
    | x ∷ q ↦ record m { elements = erase x m.elements; queue = q }
  ]

  -- A new element, behind `set.insert(x)`.
  unfoldable pub enqueue : A → MruSet A → MruSet A
  enqueue x m =
      let room =
        if not (m.n_max_size == 0) && length m.queue == m.n_max_size then pop_front m else m in
      record room { queue = room.queue ++ x ∷ [] }

  -- `insert`
  unfoldable pub insert : A → MruSet A → MruSet A
  insert x m = if member x m.elements then m else enqueue x (record m { elements = x ∷ m.elements })

  -- `while (queue.size() > s)`
  unfoldable pub trim : ℕ → List A → List A → List A × List A
  trim s elements [] = (elements, [])
  trim s elements (x ∷ q) =
      let rest = trim s (erase x elements) q in
      if ltb s (length (x ∷ q)) then rest else (elements, x ∷ q)

  -- `max_size(s)`
  unfoldable pub set_max_size : ℕ → MruSet A → MruSet A
  set_max_size s m =
      if s == 0
      then record m { n_max_size = s }
      else let (elements, queue) = trim s m.elements m.queue in
        record { elements = elements; queue = queue; n_max_size = s }
