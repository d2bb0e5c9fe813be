-- ===== src/LiveIds.antt =====
-- `LiveIds` of src/sidecar.rs: the live ids of one segment, sorted and without repetitions. `le` is
-- the order of the ids, and `contains` stands for `binary_search` on the sorted vector.
pub mod Canonical
use segstore.Base.{ℕ, Bool, true, List, [], ◌∷◌, ◌≡◌, ◌⊎◌, if◌then◌else◌, length, is_empty}
unfoldable use segstore.Base.{insert_by, sort_by}
use segstore.Base.Assoc.{contains, eqb}

-- `ids`
abbrev pub LiveIds : Type 0 → Type 0
LiveIds Key = List Key

-- `Ord`, as the tests that the sort makes.
pub record TotalOrder {Key : Type 0} (le : Key → Key → Bool) : Type 0 where
  pub total : (a b : Key) → (le a b ≡ true) ⊎ (le b a ≡ true)
  pub trans : (a b c : Key) → le a b ≡ true → le b c ≡ true → le a c ≡ true
  pub antisym : (a b : Key) → le a b ≡ true → le b a ≡ true → a ≡ b

module _ {Key : Type 0} (dec : Discrete Key) where
  -- `Vec::dedup`: of equal neighbours the first is kept.
  unfoldable pub dedup : List Key → List Key
  dedup [] = []
  dedup (x ∷ []) = x ∷ []
  dedup (x ∷ y ∷ l) = if eqb dec x y then dedup (y ∷ l) else x ∷ dedup (y ∷ l)

  unfoldable pub live_ids_new : (Key → Key → Bool) → List Key → LiveIds Key
  unfolding sort_by dedup
  live_ids_new le l = dedup (sort_by le l)

  abbrev pub live_ids_contains : LiveIds Key → Key → Bool
  live_ids_contains ids id = contains dec ids id

abbrev pub live_ids_len : {Key : Type 0} → LiveIds Key → ℕ
live_ids_len ids = length ids

abbrev pub live_ids_is_empty : {Key : Type 0} → LiveIds Key → Bool
live_ids_is_empty ids = is_empty ids
