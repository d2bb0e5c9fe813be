-- ===== src/LiveIds/Canonical.antt =====
-- The canonical form of `LiveIds` (src/sidecar.rs).
use segstore.Base.{
  ◌≡◌, Bool, true, false, ◌||◌, List, [], ◌∷◌, arith, refl, ap₂, sym, ◌∙◌, insert_by, sort_by, inl,
  inr, Bool-cases,
}
use segstore.Base.Assoc.{contains, eqb}
use segstore.LiveIds.{TotalOrder, dedup, live_ids_new, live_ids_contains}

module _ {Key : Type 0} (dec : Discrete Key) where
  contains-insert_by :
      (le : Key → Key → Bool) (x j : Key) (l : List Key)
      → contains dec (insert_by le x l) j ≡ (eqb dec x j || contains dec l j)
  unfolding contains insert_by
  contains-insert_by le x j [] = ground arith
  contains-insert_by le x j (y ∷ l) = ground (arith, contains-insert_by le x j l)

  contains-sort_by :
      (le : Key → Key → Bool) (j : Key) (l : List Key)
      → contains dec (sort_by le l) j ≡ contains dec l j
  unfolding contains sort_by
  contains-sort_by le j [] = refl
  contains-sort_by le j (x ∷ l) =
      ground (arith, contains-insert_by le x j (sort_by le l), contains-sort_by le j l)

  contains-dedup : (j : Key) (l : List Key) → contains dec (dedup dec l) j ≡ contains dec l j
  unfolding contains dedup
  contains-dedup j [] = refl
  contains-dedup j (x ∷ []) = refl
  contains-dedup j (x ∷ y ∷ l) = ground (arith, contains-dedup j (y ∷ l), dec x y)

  pub contains-live_ids_new :
      (le : Key → Key → Bool) (l : List Key) (j : Key)
      → contains dec (live_ids_new dec le l) j ≡ contains dec l j
  unfolding live_ids_new
  contains-live_ids_new le l j = contains-dedup j (sort_by le l) ∙ contains-sort_by le j l

  -- Every element is at or above `x`.
  abbrev AtLeast : (Key → Key → Bool) → Key → List Key → Type 0
  AtLeast le x l = (j : Key) → contains dec l j ≡ true → le x j ≡ true

  abbrev Sorted : (Key → Key → Bool) → List Key → Type 0
  Sorted le [] = Unit
  Sorted le (x ∷ l) = AtLeast le x l × Sorted le l

  -- Sorted, and each element once.
  abbrev pub Ascending : (Key → Key → Bool) → List Key → Type 0
  Ascending le [] = Unit
  Ascending le (x ∷ l) = AtLeast le x l × (contains dec l x ≡ false) × Ascending le l

  module _ (le : Key → Key → Bool) (order : TotalOrder le) where
    le_refl : (x : Key) → le x x ≡ true
    le_refl x = ground (arith, order.total x x)

    insert_by-Sorted : (x : Key) (l : List Key) → Sorted le l → Sorted le (insert_by le x l)
    unfolding insert_by contains
    insert_by-Sorted x [] s = ((λ j h. absurd (cc)), tt)
    insert_by-Sorted x (y ∷ l) s = elim (Bool-cases (le x y)) [
      | inl below ↦ rw below ((λ j h. ground (arith, s.0 j, order.trans x y j, below, dec y j)), s)
      | inr above ↦ rw above (
        (λ j h. ground (arith, contains-insert_by le x j l, s.0 j, order.total x y, dec x j)),
        insert_by-Sorted x l s.1,
      )
    ]

    sort_by-Sorted : (l : List Key) → Sorted le (sort_by le l)
    unfolding sort_by
    sort_by-Sorted [] = tt
    sort_by-Sorted (x ∷ l) = insert_by-Sorted x (sort_by le l) (sort_by-Sorted l)

    dedup-Ascending : (l : List Key) → Sorted le l → Ascending le (dedup dec l)
    unfolding dedup contains
    dedup-Ascending [] s = tt
    dedup-Ascending (x ∷ []) s = ((λ j h. absurd (cc)), refl, tt)
    dedup-Ascending (x ∷ y ∷ l) s = elim (Bool-cases (eqb dec x y)) [
      | inl same ↦ rw same (dedup-Ascending (y ∷ l) s.1)
      | inr differ ↦ rw differ (
        (λ j h. ground (arith, contains-dedup j (y ∷ l), s.0 j, dec y j)),
        ground (
          arith,
          contains-dedup x (y ∷ l),
          s.0 y,
          s.1.0 x,
          order.antisym x y,
          dec x y,
          dec y x,
          le_refl x,
          dec y y,
        ),
        dedup-Ascending (y ∷ l) s.1,
      )
    ]

    pub live_ids_new-Ascending : (l : List Key) → Ascending le (live_ids_new dec le l)
    unfolding live_ids_new
    live_ids_new-Ascending l = dedup-Ascending (sort_by le l) (sort_by-Sorted l)

    Ascending-unique :
        (a b : List Key)
        → Ascending le a
        → Ascending le b
        → ((j : Key) → contains dec a j ≡ contains dec b j)
        → a ≡ b
    unfolding contains
    Ascending-unique [] [] sa sb same = refl
    Ascending-unique [] (y ∷ b) sa sb same = absurd (ground (arith, same y, dec y y))
    Ascending-unique (x ∷ a) [] sa sb same = absurd (ground (arith, same x, dec x x))
    Ascending-unique (x ∷ a) (y ∷ b) sa sb same =
        let first : x ≡ y =
          order.antisym x y (ground (arith, same y, sa.0 y, dec x y, dec y y, le_refl x))
            (ground (arith, same x, sb.0 x, dec y x, dec x x, le_refl x)) in
        ap₂ (◌∷◌) first (
          Ascending-unique a b sa.2 sb.2
            (λ j. ground (arith, same j, sa.1, sb.1, first, dec x j, dec y j)))

    -- When the order of the ids is total, two enumerations of the same ids give the same `LiveIds`,
    -- which has exactly those ids and lists each once in ascending order.
    pub live_ids_new-canonical :
        (l m : List Key)
        → ((j : Key) → contains dec l j ≡ contains dec m j)
        → (live_ids_new dec le l ≡ live_ids_new dec le m)
          × Ascending le (live_ids_new dec le l)
          × ((j : Key) → live_ids_contains dec (live_ids_new dec le l) j ≡ contains dec l j)
    live_ids_new-canonical l m same = (
      Ascending-unique (live_ids_new dec le l) (live_ids_new dec le m) (live_ids_new-Ascending l)
          (live_ids_new-Ascending m)
          (λ j. contains-live_ids_new le l j ∙ same j ∙ sym (contains-live_ids_new le m j)),
      live_ids_new-Ascending l,
      contains-live_ids_new le l,
    )
