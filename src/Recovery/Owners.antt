-- ===== src/Recovery/Owners.antt =====
-- The owners that `open_with_options` of src/lib.rs finds among the ids of one segment.
use mathlib.Core.Path.{subst, ap, ◌∙◌}
use mathlib.Core.Logic.{◌⊎◌}
use segstore.Base.{
  ℕ, ◌≡◌, inl, inr, true, false, ◌&&◌, ◌||◌, List, [], ◌∷◌, some, ◌==◌, arith, refl, Option-cases,
  Bool-cases, ℕ_discrete,
}
use segstore.Base.Assoc.{get, insert, get-insert, eqb}
use segstore.Base.Result.{ok, ok-injective}
use segstore.Payload.{Store, items_of, ids}
use segstore.Manifest.{superseded_in, copy_is_live, add_superseded, superseded_in-add_superseded}
use segstore.Tables.Supersede.{owner_is}
use segstore.Recovery.{own_ids}

module _ {Key Item Segment : Type 0} (dec : Discrete Key) (store : Store Key Item Segment)
    (ts : List Key) (seg : ℕ) where
  -- What the ids of the segment do to the owner and the marks of one id: nothing, if no live copy is
  -- there, or else the segment owns its only copy and the older one is marked.
  abbrev Untouched :
      List (Key × Item)
      → List (Key × ℕ)
      → List (ℕ × List Key)
      → List (Key × ℕ)
      → List (ℕ × List Key)
      → Key
      → Type 0
  Untouched es owners sup owners' sup' j =
      ((copy_is_live dec ts sup seg j ≡ false) ⊎ (items_of dec j es ≡ []))
      × (get dec owners' j ≡ get dec owners j)
      × ((s : ℕ) → superseded_in dec sup' s j ≡ superseded_in dec sup s j)

  abbrev Taken :
      List (Key × Item)
      → List (Key × ℕ)
      → List (ℕ × List Key)
      → List (Key × ℕ)
      → List (ℕ × List Key)
      → Key
      → Type 0
  Taken es owners sup owners' sup' j =
      (copy_is_live dec ts sup seg j ≡ true)
      × ((x : Item) × (items_of dec j es ≡ x ∷ []))
      × (owner_is (get dec owners j) seg ≡ false)
      × (get dec owners' j ≡ some seg)
      × ((s : ℕ)
          → superseded_in dec sup' s j
            ≡ (owner_is (get dec owners j) s || superseded_in dec sup s j))

  abbrev pub Owning :
      List (Key × Item)
      → List (Key × ℕ)
      → List (ℕ × List Key)
      → List (Key × ℕ)
      → List (ℕ × List Key)
      → Key
      → Type 0
  Owning es owners sup owners' sup' j =
      Untouched es owners sup owners' sup' j ⊎ Taken es owners sup owners' sup' j

  -- An id that is skipped.
  skip-Owning :
      (i : Key) (x : Item) (es : List (Key × Item)) (owners owners' : List (Key × ℕ))
      (sup sup' : List (ℕ × List Key)) (j : Key)
      → copy_is_live dec ts sup seg i ≡ false
      → Owning es owners sup owners' sup' j
      → Owning ((i, x) ∷ es) owners sup owners' sup' j
  unfolding items_of
  skip-Owning i x es owners owners' sup sup' j dead (inl (why, own, mark)) = inl (
    ground (arith, why, dead, dec i j, ap (copy_is_live dec ts sup seg) {x = i} {y = j}),
    own,
    mark,
  )
  skip-Owning i x es owners owners' sup sup' j dead (inr (live, (y, one), free, own, mark)) = inr (
    live,
    (y, ground (arith, one, live, dead, dec i j, ap (copy_is_live dec ts sup seg) {x = i} {y = j})),
    free,
    own,
    mark,
  )

  -- An id that the segment comes to own: `sup1` marks its copy in the older owner.
  module _ (i : Key) (x : Item) (es : List (Key × Item)) (owners owners' : List (Key × ℕ))
      (sup sup1 sup' : List (ℕ × List Key)) (live : copy_is_live dec ts sup seg i ≡ true)
      (fresh : owner_is (get dec owners i) seg ≡ false)
      (marks : (s : ℕ) (k : Key)
        → superseded_in dec sup1 s k
          ≡ ((owner_is (get dec owners i) s && eqb dec i k) || superseded_in dec sup s k)) where
    claimed : get dec (insert dec i seg owners) i ≡ some seg
    claimed = ground (arith, get-insert dec i i seg owners, dec i i)

    marked :
        (s : ℕ)
        → superseded_in dec sup1 s i ≡ (owner_is (get dec owners i) s || superseded_in dec sup s i)
    marked s = ground (arith, marks s i, dec i i)

    live_there : copy_is_live dec ts sup1 seg i ≡ true
    unfolding copy_is_live
    live_there = ground (arith, live, marked seg, fresh)

    claim_same :
        Owning es (insert dec i seg owners) sup1 owners' sup' i
        → Owning ((i, x) ∷ es) owners sup owners' sup' i
    unfolding items_of
    claim_same (inl (inl dead, own, mark)) = absurd (ground (arith, dead, live_there))
    claim_same (inl (inr nothing, own, mark)) =
        inr (
          live,
          (x, ground (arith, nothing, dec i i)),
          fresh,
          own ∙ claimed,
          λ s. mark s ∙ marked s,
        )
    claim_same (inr (live', one, free, own, mark)) =
        absurd (ground (arith, claimed, free, ℕ_discrete seg seg))

    claim_other :
        (j : Key)
        → eqb dec i j ≡ false
        → Owning es (insert dec i seg owners) sup1 owners' sup' j
        → Owning ((i, x) ∷ es) owners sup owners' sup' j
    unfolding items_of copy_is_live
    claim_other j differ o =
        let kept : get dec (insert dec i seg owners) j ≡ get dec owners j =
          ground (arith, get-insert dec i j seg owners, differ) in
        let unmarked : ((s : ℕ) → superseded_in dec sup1 s j ≡ superseded_in dec sup s j) =
          λ s. ground (arith, marks s j, differ) in
        elim o [
          | inl (why, own, mark) ↦
              inl (ground (arith, why, differ, unmarked seg), own ∙ kept, λ s. mark s ∙ unmarked s)
          | inr (live', (y, one), free, own, mark) ↦ inr (
            ground (arith, live', unmarked seg),
            (y, ground (arith, one, differ)),
            ground (arith, free, kept),
            own,
            λ s. ground (arith, mark s, unmarked s, kept),
          )
        ]

    claim-Owning :
        (j : Key)
        → Owning es (insert dec i seg owners) sup1 owners' sup' j
        → Owning ((i, x) ∷ es) owners sup owners' sup' j
    claim-Owning j = elim (dec i j) [
      | yes same ↦
          subst
            (λ k.
              Owning es (insert dec i seg owners) sup1 owners' sup' k
              → Owning ((i, x) ∷ es) owners sup owners' sup' k)
            same claim_same
      | no differ ↦ claim_other j (ground (arith, differ))
    ]

  -- The loop over the ids of the segment, when it returns.
  pub own_ids-Owning :
      (es : List (Key × Item)) (owners owners' : List (Key × ℕ)) (sup sup' : List (ℕ × List Key))
      (j : Key)
      → own_ids dec store ts seg (ids es) owners sup ≡ ok (owners', sup')
      → Owning es owners sup owners' sup' j
  unfolding own_ids
  own_ids-Owning [] owners owners' sup sup' j = λ e.
      subst (λ r. Owning [] owners sup r.0 r.1 j) (ok-injective e)
        (inl (inr (unfold items_of in refl), refl, λ s. refl))
  own_ids-Owning ((i, x) ∷ es) owners owners' sup sup' j =
      elim (Bool-cases (copy_is_live dec ts sup seg i)) [
        | inr dead ↦
            rw (own_ids, dead)
              (λ e.
                skip-Owning i x es owners owners' sup sup' j dead
                  (own_ids-Owning es owners owners' sup sup' j e))
        | inl live ↦ elim (Option-cases (get dec owners i)) [
          | inl unowned ↦
              rw (own_ids, live, unowned)
                (λ e.
                  claim-Owning i x es owners owners' sup sup sup' live (ground (arith, unowned))
                    (λ s k. ground (arith, unowned)) j
                    (own_ids-Owning es (insert dec i seg owners) owners' sup sup' j e))
          | inr (older, owned) ↦ elim (Bool-cases (older == seg)) [
            | inl twice ↦ rw (own_ids, live, owned, twice) (λ e. absurd (cc))
            | inr elsewhere ↦
                rw (own_ids, live, owned, elsewhere)
                  (λ e.
                    claim-Owning i x es owners owners' sup (add_superseded dec older i sup) sup'
                      live (ground (arith, owned, elsewhere, ℕ_discrete older seg))
                      (λ s k.
                        ground (arith, owned, superseded_in-add_superseded dec older s i k sup))
                      j
                      (own_ids-Owning es (insert dec i seg owners) owners'
                        (add_superseded dec older i sup) sup' j e))
          ]
        ]
      ]
