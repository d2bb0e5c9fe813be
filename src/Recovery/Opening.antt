-- ===== src/Recovery/Opening.antt =====
-- The state that `open_with_options` of src/lib.rs loads before it replays the log.
use mathlib.Core.Path.{subst, sym, ◌∙◌}
use segstore.Base.{
  ℕ, ◌≤◌, ◌<◌, ◌≡◌, ◌⊎◌, inl, inr, true, false, List, [], ◌∷◌, none, some, arith, Option-cases,
  ℕ_discrete,
}
use segstore.Base.Assoc.{get, contains}
use segstore.Base.Result.{ok, ok-injective, Result-cases}
use segstore.Payload.{Store, StoreLaws, items_of, ids}
use segstore.Manifest.{superseded_in, copy_is_live}
use segstore.Tables.Invariant.{All, All-imp, OwnedIn}
use segstore.Recovery.{own_ids, own_segments}
use segstore.Recovery.Owners.{Owning, own_ids-Owning}

module _ {Key Item Segment : Type 0} (dec : Discrete Key) (entries : Segment → List (Key × Item))
    (ts : List Key) where
  -- No copy of a tombstoned id is left unmarked in the segment.
  abbrev pub Accounted : List (ℕ × List Key) → Key → ℕ × Segment → Type 0
  Accounted sup j (s, seg) =
      (contains dec ts j ≡ false)
      ⊎ (superseded_in dec sup s j ≡ true)
      ⊎ (items_of dec j (entries seg) ≡ [])

  -- Owners and marks are below `hi`.
  abbrev pub Bounded : ℕ → List (Key × ℕ) → List (ℕ × List Key) → Key → Type 0
  Bounded hi owners sup j =
      ((o : ℕ) → get dec owners j ≡ some o → o < hi)
      × ((s : ℕ) → hi ≤ s → superseded_in dec sup s j ≡ false)

module _ {Key Item Segment : Type 0} (dec : Discrete Key) (store : Store Key Item Segment)
    (laws : StoreLaws dec store) (ts : List Key) (s : ℕ) (seg : Segment)
    (owners owners' : List (Key × ℕ)) (sup sup' : List (ℕ × List Key)) (j : Key)
    (owning : Owning dec store ts s (laws.entries seg) owners sup owners' sup' j) where
  open laws use {entries}

  -- Marks are never lifted.
  grows : (r : ℕ) → superseded_in dec sup r j ≡ true → superseded_in dec sup' r j ≡ true
  grows r h = elim owning [
    | inl (why, own, mark) ↦ mark r ∙ h
    | inr (live, one, free, own, mark) ↦ ground (arith, mark r, h)
  ]

  pub grows-Accounted :
      (p : ℕ × Segment) → Accounted dec entries ts sup j p → Accounted dec entries ts sup' j p
  grows-Accounted p (inl alive) = inl alive
  grows-Accounted p (inr (inl marked)) = inr (inl (grows p.0 marked))
  grows-Accounted p (inr (inr nothing)) = inr (inr nothing)

  pub step-Bounded :
      (hi : ℕ)
      → s < hi
      → Bounded dec entries ts hi owners sup j
      → Bounded dec entries ts hi owners' sup' j
  step-Bounded hi below (own_below, unmarked) = elim owning [
    | inl (why, own, mark) ↦ (λ o e. own_below o (sym own ∙ e), λ r h. mark r ∙ unmarked r h)
    | inr (live, one, free, own, mark) ↦ (
      λ o e. ground (arith, own, e, below),
      λ r h. elim (Option-cases (get dec owners j)) [
        | inl unowned ↦ ground (arith, mark r, unmarked r h, unowned)
        | inr (o, owned) ↦
            ground (arith, mark r, unmarked r h, owned, own_below o owned, ℕ_discrete o r, h)
      ],
    )
  ]

  -- What was owned before is owned, marked or absent after.
  pub keeps_owned :
      (p : ℕ × Segment)
      → OwnedIn dec entries sup (get dec owners j) j p
      → OwnedIn dec entries sup' (get dec owners' j) j p
  keeps_owned p (inl marked) = inl (grows p.0 marked)
  keeps_owned p (inr (inl nothing)) = inr (inl nothing)
  keeps_owned p (inr (inr (x, one, owner))) = elim owning [
    | inl (why, own, mark) ↦ inr (inr (x, one, own ∙ owner))
    | inr (live, here, free, own, mark) ↦ inl (ground (arith, mark p.0, owner, ℕ_discrete p.0 p.0))
  ]

  -- A tombstoned id gets no new owner.
  skips_buried : contains dec ts j ≡ true → get dec owners' j ≡ get dec owners j
  unfolding copy_is_live
  skips_buried dead = elim owning [
    | inl (why, own, mark) ↦ own
    | inr (live, one, free, own, mark) ↦ absurd (ground (arith, live, dead))
  ]

  pub now_owned :
      Accounted dec entries ts sup j (s, seg)
      → OwnedIn dec entries sup' (get dec owners' j) j (s, seg)
  unfolding copy_is_live
  now_owned accounted = elim owning [
    | inl (inr nothing, own, mark) ↦ inr (inl nothing)
    | inl (inl dead, own, mark) ↦ elim accounted [
      | inl alive ↦ inl (ground (arith, dead, alive, mark s))
      | inr (inl marked) ↦ inl (mark s ∙ marked)
      | inr (inr nothing) ↦ inr (inl nothing)
    ]
    | inr (live, (x, one), free, own, mark) ↦ inr (inr (x, one, own))
  ]

module _ {Key Item Segment : Type 0} (dec : Discrete Key) (store : Store Key Item Segment)
    (laws : StoreLaws dec store) (ts : List Key) where
  open laws use {entries}

  -- What the loop over the segments `ps` makes of the ownership of `j`.
  abbrev pub Assigned :
      ℕ
      → List (ℕ × Segment)
      → List (Key × ℕ)
      → List (ℕ × List Key)
      → List (Key × ℕ)
      → List (ℕ × List Key)
      → Key
      → Type 0
  Assigned hi ps owners sup owners' sup' j =
      All (OwnedIn dec entries sup' (get dec owners' j) j) ps
      × Bounded dec entries ts hi owners' sup' j
      × ((p : ℕ × Segment)
          → OwnedIn dec entries sup (get dec owners j) j p
          → OwnedIn dec entries sup' (get dec owners' j) j p)
      × (contains dec ts j ≡ true → get dec owners' j ≡ get dec owners j)

  own_segments-step :
      (hi s : ℕ) (seg : Segment) (ps : List (ℕ × Segment)) (owners owners1 owners' : List (Key × ℕ))
      (sup sup1 sup' : List (ℕ × List Key)) (j : Key)
      → All (λ p. (p.0 < hi) × Accounted dec entries ts sup j p) ((s, seg) ∷ ps)
      → Bounded dec entries ts hi owners sup j
      → Owning dec store ts s (entries seg) owners sup owners1 sup1 j
      → (All (λ p. (p.0 < hi) × Accounted dec entries ts sup1 j p) ps
          → Bounded dec entries ts hi owners1 sup1 j
          → Assigned hi ps owners1 sup1 owners' sup' j)
      → Assigned hi ((s, seg) ∷ ps) owners sup owners' sup' j
  own_segments-step hi s seg ps owners owners1 owners' sup sup1 sup' j all bounded owning next =
      let (rest, below, keeps, buried) =
        next
          (All-imp (λ p. (p.0 < hi) × Accounted dec entries ts sup j p)
            (λ p. (p.0 < hi) × Accounted dec entries ts sup1 j p) ps
            (λ p h.
              (h.0, grows-Accounted dec store laws ts s seg owners owners1 sup sup1 j owning p h.1))
            all.1)
          (step-Bounded dec store laws ts s seg owners owners1 sup sup1 j owning hi all.0.0
            bounded) in
      (
        (
          keeps (s, seg)
              (now_owned dec store laws ts s seg owners owners1 sup sup1 j owning all.0.1),
          rest,
        ),
        below,
        λ p h. keeps p (keeps_owned dec store laws ts s seg owners owners1 sup sup1 j owning p h),
        λ dead.
            buried dead
            ∙ skips_buried dec store laws ts s seg owners owners1 sup sup1 j owning dead,
      )

  pub own_segments-Assigned :
      (hi : ℕ) (ps : List (ℕ × Segment)) (owners owners' : List (Key × ℕ))
      (sup sup' : List (ℕ × List Key)) (j : Key)
      → All (λ p. (p.0 < hi) × Accounted dec entries ts sup j p) ps
      → Bounded dec entries ts hi owners sup j
      → own_segments dec store ts ps owners sup ≡ ok (some owners', sup')
      → Assigned hi ps owners sup owners' sup' j
  unfolding own_segments
  own_segments-Assigned hi [] owners owners' sup sup' j all bounded = λ e.
      subst (λ r. elim r.0 [ none ↦ Unit | some o ↦ Assigned hi [] owners sup o r.1 j ])
        (ok-injective e) (tt, bounded, λ p h. h, λ dead. λ i. get dec owners j)
  own_segments-Assigned hi ((s, seg) ∷ ps) owners owners' sup sup' j all bounded =
      elim (Result-cases (own_ids dec store ts s (ids (entries seg)) owners sup)) [
        | inr (failure, failed) ↦
            rw (own_segments, laws.item_ids-entries seg, failed) (λ e. absurd (cc))
        | inl ((owners1, sup1), returned) ↦
            rw (own_segments, laws.item_ids-entries seg, returned)
              (λ e.
                own_segments-step hi s seg ps owners owners1 owners' sup sup1 sup' j all bounded
                  (own_ids-Owning dec store ts s (entries seg) owners owners1 sup sup1 j returned)
                  (λ a b. own_segments-Assigned hi ps owners1 owners' sup1 sup' j a b e))
      ]
