-- ===== src/Base/Assoc.antt =====
-- `HashSet` as a list, and `HashMap` as an association list, over keys with a decidable equality.
-- The order of the list stands for the iteration order, which the hash tables leave open.
use mathlib.Core.Path.{◌≡◌, refl, ap}
use mathlib.Core.Logic.{ite}
use mathlib.Core.Bool.{Bool, true, false, ◌||◌}
use mathlib.Core.Option.{Option, none, some}
use mathlib.Core.List.{List, [], ◌∷◌, ◌++◌, map}
use native.Mathlib.Omega.{arith}
use segstore.Base.Tests.{if◌then◌else◌}
use segstore.Base.Lists.{keep}

-- `a == b`
abbrev pub eqb : {K : Type 0} → Discrete K → K → K → Bool
eqb dec a b = elim (dec a b) [ yes _ ↦ true | no _ ↦ false ]

module _ {K : Type 0} (dec : Discrete K) where
  unfoldable pub contains : List K → K → Bool
  contains [] k = false
  contains (x ∷ s) k = ite (dec x k) true (contains s k)

  -- `set.insert(k)`
  unfoldable pub set_insert : K → List K → List K
  unfolding contains
  set_insert k s = if contains s k then s else k ∷ s

  -- `set.remove(&k)`
  unfoldable pub set_remove : K → List K → List K
  set_remove k [] = []
  set_remove k (x ∷ s) = ite (dec x k) (set_remove k s) (x ∷ set_remove k s)

  -- `collect` into a set
  unfoldable pub set_of : List K → List K
  unfolding set_insert
  set_of [] = []
  set_of (k ∷ l) = set_insert k (set_of l)

  pub contains-set_insert :
      (k j : K) (s : List K) → contains (set_insert k s) j ≡ ite (dec k j) true (contains s j)
  unfolding contains set_insert
  contains-set_insert k j s = elim (dec k j) [
    | yes p ↦ ground (arith, contains s k)
    | no p ↦ ground (arith, contains s k)
  ]

  pub contains-set_remove :
      (k j : K) (s : List K) → contains (set_remove k s) j ≡ ite (dec k j) false (contains s j)
  unfolding contains set_remove
  contains-set_remove k j [] = ground arith
  contains-set_remove k j (x ∷ s) = ground (arith, contains-set_remove k j s)

  pub contains-append :
      (s t : List K) (j : K) → contains (s ++ t) j ≡ (contains s j || contains t j)
  unfolding contains
  contains-append [] t j = refl
  contains-append (x ∷ s) t j = ground (arith, contains-append s t j)

  pub contains-set_of : (l : List K) (j : K) → contains (set_of l) j ≡ contains l j
  unfolding contains set_of
  contains-set_of [] j = refl
  contains-set_of (k ∷ l) j =
      ground (arith, contains-set_insert k j (set_of l), contains-set_of l j)

module _ {K V : Type 0} (dec : Discrete K) where
  unfoldable pub get : List (K × V) → K → Option V
  get [] k = none
  get ((j, v) ∷ m) k = ite (dec j k) (some v) (get m k)

  unfoldable pub remove : K → List (K × V) → List (K × V)
  remove k [] = []
  remove k ((j, v) ∷ m) = ite (dec j k) (remove k m) ((j, v) ∷ remove k m)

  unfoldable pub insert : K → V → List (K × V) → List (K × V)
  unfolding remove
  insert k v m = (k, v) ∷ remove k m

  -- `map.retain(|k, _| p(k))`
  abbrev pub retain : (K → Bool) → List (K × V) → List (K × V)
  retain p = keep (λ e. p e.0)

  abbrev pub keys : List (K × V) → List K
  keys = map (λ e. e.0)

  unfoldable pub contains_key : List (K × V) → K → Bool
  unfolding get
  contains_key m k = elim (get m k) [ none ↦ false | some _ ↦ true ]

  pub get-remove : (k j : K) (m : List (K × V)) → get (remove k m) j ≡ ite (dec k j) none (get m j)
  unfolding get remove
  get-remove k j [] = ground arith
  get-remove k j ((i, v) ∷ m) = ground (arith, get-remove k j m)

  pub get-insert :
      (k j : K) (v : V) (m : List (K × V)) → get (insert k v m) j ≡ ite (dec k j) (some v) (get m j)
  unfolding get insert
  get-insert k j v m = ground (arith, get-remove k j m)

  pub get-retain :
      (p : K → Bool) (j : K) (m : List (K × V))
      → get (retain p m) j ≡ (if p j then get m j else none)
  unfolding get
  get-retain p j [] = ground arith
  get-retain p j ((i, v) ∷ m) = ground (arith, get-retain p j m, ap p {x = i} {y = j})
