-- ===== src/Container/Stop.antt =====
-- `StopManagedContainers` of container/deploy.go.
use mathlib.Core.Path.{ap₂}
use dewy.Common.{
  ℕ, ◌+◌, ◌≡◌, refl, ap, ◌∙◌, inl, inr, Bool, ◌&&◌, Option, none, some, List, [], ◌∷◌, arith,
  if◌then◌else◌, Bool-cases, Text,
}

-- How many containers pass a test.
pub count_of : (Text → Bool) → List Text → ℕ
count_of p [] = 0
count_of p (id ∷ ids) = (if p id then 1 else 0) + count_of p ids

module _ (can_stop can_remove : Text → Bool) where
  -- The loop over the containers, with the counts of those stopped and removed.
  unfoldable pub stop_all : List Text → ℕ → ℕ → ℕ × ℕ
  stop_all [] stopped removed = (stopped, removed)
  stop_all (id ∷ ids) stopped removed =
      let failed = stop_all ids stopped removed in
      let kept = stop_all ids (stopped + 1) removed in
      let gone = stop_all ids (stopped + 1) (removed + 1) in
      if can_stop id then if can_remove id then gone else kept else failed

  -- `none` is the error of the search for the containers.
  unfoldable pub stop_managed_containers : Option (List Text) → Option (ℕ × ℕ)
  stop_managed_containers none = none
  stop_managed_containers (some []) = some (0, 0)
  stop_managed_containers (some (id ∷ ids)) = some (stop_all (id ∷ ids) 0 0)

  stop_all-count :
      (ids : List Text) (s r : ℕ)
      → stop_all ids s r
        ≡ (s + count_of can_stop ids, r + count_of (λ id. can_stop id && can_remove id) ids)
  unfolding stop_all count_of
  stop_all-count [] s r = ap₂ (λ (a b : ℕ). (a, b)) (omega arith) (omega arith)
  stop_all-count (id ∷ ids) s r = elim (Bool-cases (can_stop id)) [
    | inr n ↦ rw (n, stop_all-count ids s r) (ap₂ (λ (a b : ℕ). (a, b)) (omega arith) (omega arith))
    | inl y ↦ elim (Bool-cases (can_remove id)) [
      | inl z ↦
          rw (y, z, stop_all-count ids (s + 1) (r + 1))
            (ap₂ (λ (a b : ℕ). (a, b)) (omega arith) (omega arith))
      | inr n ↦
          rw (y, n, stop_all-count ids (s + 1) r)
            (ap₂ (λ (a b : ℕ). (a, b)) (omega arith) (omega arith))
    ]
  ]

  -- The two counts are of the containers that can be stopped, and of those that can be stopped and
  -- removed: a container that cannot be stopped is passed over, and the rest is still stopped.
  pub stop_managed_containers-count :
      (ids : List Text)
      → stop_managed_containers (some ids)
        ≡ some (count_of can_stop ids, count_of (λ id. can_stop id && can_remove id) ids)
  unfolding stop_managed_containers count_of
  stop_managed_containers-count [] = refl
  stop_managed_containers-count (id ∷ ids) =
      ap some
        (stop_all-count (id ∷ ids) 0 0 ∙ ap₂ (λ (a b : ℕ). (a, b)) (omega arith) (omega arith))
