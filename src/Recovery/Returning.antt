-- ===== src/Recovery/Returning.antt =====
-- The owners that `open_with_options` of src/lib.rs looks for are found.
use mathlib.Core.Path.{subst, sym, ap, ◌∙◌}
use segstore.Base.{
  ℕ, suc, ◌≤◌, ◌<◌, ◌≡◌, ◌⊎◌, inl, inr, true, false, List, [], ◌∷◌, some, map, length, arith, refl,
  Option-cases, Bool-cases, ◌==◌, ℕ_discrete,
}
use segstore.Base.Assoc.{get, insert, get-insert, eqb}
use segstore.Base.Result.{ok}
use segstore.Payload.{Store, StoreLaws, items_of, ids}
use segstore.Manifest.{superseded_in, copy_is_live, add_superseded, superseded_in-add_superseded}
use segstore.Tables.Invariant.{All, All-imp, Ascending}
use segstore.Tables.Supersede.{owner_is}
use segstore.Recovery.{own_ids, own_segments}
use segstore.Recovery.Owners.{Owning, own_ids-Owning}

module _ {Key Item Segment : Type 0} (dec : Discrete Key) (store : Store Key Item Segment)
    (ts : List Key) where
  -- No live id is twice among the entries, and none that is there is the segment's yet.
  abbrev Claimable : ℕ → List (Key × Item) → List (Key × ℕ) → List (ℕ × List Key) → Type 0
  Claimable seg es owners sup =
      (j : Key)
      → copy_is_live dec ts sup seg j ≡ true
      → (items_of dec j es ≡ [])
        ⊎ ((length (items_of dec j es) ≤ 1) × (owner_is (get dec owners j) seg ≡ false))

  at_most_one : (x : Item) (l : List Item) → length (x ∷ l) ≤ 1 → l ≡ []
  at_most_one x [] h = refl
  at_most_one x (y ∷ l) h = absurd (omega arith)

  module _ (seg : ℕ) (i : Key) (x : Item) (es : List (Key × Item)) (owners : List (Key × ℕ))
      (sup : List (ℕ × List Key)) (h : Claimable seg ((i, x) ∷ es) owners sup) where
    skip-Claimable : copy_is_live dec ts sup seg i ≡ false → Claimable seg es owners sup
    unfolding items_of
    skip-Claimable dead j live =
        ground
          (arith, h j live, dead, live, dec i j, ap (copy_is_live dec ts sup seg) {x = i} {y = j})

    once :
        copy_is_live dec ts sup seg i ≡ true
        → (items_of dec i es ≡ []) × (owner_is (get dec owners i) seg ≡ false)
    unfolding items_of
    once live = elim (h i live) [
      | inl nothing ↦ absurd (ground (arith, nothing, dec i i))
      | inr (one, unowned) ↦
          (at_most_one x (items_of dec i es) (ground (arith, one, dec i i)), unowned)
    ]

    claim-Claimable :
        (sup1 : List (ℕ × List Key))
        → copy_is_live dec ts sup seg i ≡ true
        → ((j : Key)
            → eqb dec i j ≡ false
            → superseded_in dec sup1 seg j ≡ superseded_in dec sup seg j)
        → Claimable seg es (insert dec i seg owners) sup1
    unfolding items_of copy_is_live
    claim-Claimable sup1 live unmarked j live' = elim (dec i j) [
      | yes same ↦ inl (subst (λ k. items_of dec k es ≡ []) same ((once live).0))
      | no differ ↦ ground (
        arith,
        h j (ground (arith, live', unmarked j, differ)),
        get-insert dec i j seg owners,
        differ,
      )
    ]

  own_ids-returns :
      (seg : ℕ) (es : List (Key × Item)) (owners : List (Key × ℕ)) (sup : List (ℕ × List Key))
      → Claimable seg es owners sup
      → (r : List (Key × ℕ) × List (ℕ × List Key)) × (own_ids dec store ts seg (ids es) owners sup
          ≡ ok r)
  unfolding own_ids items_of copy_is_live
  own_ids-returns seg [] owners sup h = ((owners, sup), refl)
  own_ids-returns seg ((i, x) ∷ es) owners sup h =
      elim (Bool-cases (copy_is_live dec ts sup seg i)) [
        | inr dead ↦
            rw (own_ids, dead)
              (own_ids-returns seg es owners sup (skip-Claimable seg i x es owners sup h dead))
        | inl live ↦ elim (Option-cases (get dec owners i)) [
          | inl unowned ↦
              rw (own_ids, live, unowned)
                (own_ids-returns seg es (insert dec i seg owners) sup
                  (claim-Claimable seg i x es owners sup h sup live (λ j differ. refl)))
          | inr (older, owned) ↦ elim (Bool-cases (older == seg)) [
            | inl twice ↦ absurd (
                ground
                  (arith, once seg i x es owners sup h live, owned, twice, ℕ_discrete older seg))
            | inr elsewhere ↦
                rw (own_ids, live, owned, elsewhere)
                  (own_ids-returns seg es (insert dec i seg owners) (add_superseded dec older i sup)
                    (claim-Claimable seg i x es owners sup h (add_superseded dec older i sup) live
                      (λ j differ.
                        ground
                          (arith, superseded_in-add_superseded dec older seg i j sup, differ))))
          ]
        ]
      ]

module _ {Key Item Segment : Type 0} (dec : Discrete Key) (entries : Segment → List (Key × Item))
    (ts : List Key) where
  -- A segment holds at most one copy of a live id.
  abbrev pub Once : List (ℕ × List Key) → Key → ℕ × Segment → Type 0
  Once sup j (s, seg) =
      copy_is_live dec ts sup s j ≡ true → length (items_of dec j (entries seg)) ≤ 1

module _ {Key Item Segment : Type 0} (dec : Discrete Key) (store : Store Key Item Segment)
    (laws : StoreLaws dec store) (ts : List Key) where
  open laws use {entries}

  abbrev pub OwnersBelow : ℕ → List (Key × ℕ) → Type 0
  OwnersBelow lo owners = (j : Key) (o : ℕ) → get dec owners j ≡ some o → o < lo

  module _ (lo s : ℕ) (seg : Segment) (owners : List (Key × ℕ)) (sup : List (ℕ × List Key))
      (least : lo ≤ s) (below : OwnersBelow lo owners) where
    segment-Claimable :
        ((j : Key) → Once dec entries ts sup j (s, seg))
        → Claimable dec store ts s (entries seg) owners sup
    segment-Claimable once j live = elim (Option-cases (get dec owners j)) [
      | inl unowned ↦ inr (once j live, ground (arith, unowned))
      | inr (o, owned) ↦
          inr (once j live, ground (arith, owned, below j o owned, least, ℕ_discrete o s))
    ]

    pub step-OwnersBelow :
        (owners1 : List (Key × ℕ)) (sup1 : List (ℕ × List Key))
        → ((j : Key) → Owning dec store ts s (entries seg) owners sup owners1 sup1 j)
        → OwnersBelow (suc s) owners1
    step-OwnersBelow owners1 sup1 owning j o e = elim (owning j) [
      | inl (why, own, mark) ↦ let h = below j o (sym own ∙ e) in omega arith
      | inr (live, one, free, own, mark) ↦ ground (arith, own, e)
    ]

  step-Once :
      (s : ℕ) (seg : Segment) (owners owners1 : List (Key × ℕ)) (sup sup1 : List (ℕ × List Key))
      (j : Key) (p : ℕ × Segment)
      → Owning dec store ts s (entries seg) owners sup owners1 sup1 j
      → Once dec entries ts sup j p
      → Once dec entries ts sup1 j p
  unfolding copy_is_live
  step-Once s seg owners owners1 sup sup1 j p owning once live = elim owning [
    | inl (why, own, mark) ↦ once (ground (arith, live, mark p.0))
    | inr (live', one, free, own, mark) ↦ once (ground (arith, live, mark p.0))
  ]

  pub own_segments-returns :
      (lo hi : ℕ) (ps : List (ℕ × Segment)) (owners : List (Key × ℕ)) (sup : List (ℕ × List Key))
      → Ascending lo hi (map (λ p. p.0) ps)
      → OwnersBelow lo owners
      → ((j : Key) → All (Once dec entries ts sup j) ps)
      → (owners' : List (Key × ℕ)) × (sup' : List (ℕ × List Key)) × (own_segments dec store ts ps
            owners sup
          ≡ ok (some owners', sup'))
  unfolding own_segments
  own_segments-returns lo hi [] owners sup ascending below once = (owners, sup, refl)
  own_segments-returns lo hi ((s, seg) ∷ ps) owners sup ascending below once =
      let (r, returned) =
        own_ids-returns dec store ts s (entries seg) owners sup
          (segment-Claimable lo s seg owners sup ascending.0 below (λ j. (once j).0)) in
      let owning : ((j : Key) → Owning dec store ts s (entries seg) owners sup r.0 r.1 j) =
        λ j. own_ids-Owning dec store ts s (entries seg) owners r.0 sup r.1 j returned in
      rw (own_segments, laws.item_ids-entries seg, returned)
        (own_segments-returns (suc s) hi ps r.0 r.1 ascending.1
          (step-OwnersBelow lo s seg owners sup ascending.0 below r.0 r.1 owning)
          (λ j.
            All-imp (Once dec entries ts sup j) (Once dec entries ts r.1 j) ps
              (λ p. step-Once s seg owners r.0 sup r.1 j p (owning j)) (once j).1))
