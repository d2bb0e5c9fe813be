-- ===== src/Recovery/Newest.antt =====
-- The copies that readers see once `open_with_options` of src/lib.rs has found the owners.
use mathlib.Core.Path.{subst, ◌∙◌}
use segstore.Base.{
  ℕ, suc, ◌≤◌, ◌<◌, ◌≡◌, ◌⊎◌, inl, inr, true, false, ◌||◌, List, [], ◌∷◌, ◌++◌, some, map, arith,
  refl, Option-cases, ℕ_discrete, append-nil,
}
use segstore.Base.Assoc.{get}
use segstore.Base.Result.{ok, ok-injective, Result-cases}
use segstore.Payload.{Store, StoreLaws, items_of, ids}
use segstore.Manifest.{superseded_in, copy_is_live}
use segstore.Tables.Live.{live_items, sealed_items}
use segstore.Tables.Invariant.{All, All-imp, Ascending, OwnedIn}
use segstore.Tables.Supersede.{owner_is}
use segstore.Recovery.{own_ids, own_segments}
use segstore.Recovery.Owners.{Owning, own_ids-Owning}
use segstore.Recovery.Returning.{OwnersBelow, step-OwnersBelow}
use segstore.Recovery.Opening.{Accounted, grows-Accounted, keeps_owned, now_owned}

abbrev pub over {ℓ} : {A : Type ℓ} → List A → List A → List A
over [] older = older
over (x ∷ xs) older = x ∷ xs

-- An older copy is hidden once there is a newer one.
abbrev unless_newer {ℓ} : {A : Type ℓ} → List A → List A → List A
unless_newer [] older = older
unless_newer (x ∷ xs) older = []

over_unless {ℓ} :
    {A : Type ℓ} (newer older : List A) → unless_newer newer older ++ newer ≡ over newer older
over_unless [] older = append-nil older
over_unless (x ∷ xs) older = refl

over_nothing {ℓ} : {A : Type ℓ} (newer : List A) → over newer [] ≡ newer
over_nothing [] = refl
over_nothing (x ∷ xs) = refl

hides {ℓ} :
    {A : Type ℓ} (newer : List A) (x : A) (older : List A)
    → unless_newer newer [] ≡ unless_newer (over newer (x ∷ [])) older
hides [] x older = refl
hides (y ∷ ys) x older = refl

module _ {Key Item Segment : Type 0} (dec : Discrete Key) (entries : Segment → List (Key × Item))
    (ts : List Key) where
  -- The live copies of an id in the last segment that has one.
  unfoldable pub newest : List (ℕ × List Key) → List (ℕ × Segment) → Key → List Item
  newest sup [] j = []
  newest sup (p ∷ ps) j = over (newest sup ps j) (live_items dec entries ts sup j p)

  live_items-congr :
      (sup sup' : List (ℕ × List Key)) (j : Key) (p : ℕ × Segment)
      → superseded_in dec sup p.0 j ≡ superseded_in dec sup' p.0 j
      → live_items dec entries ts sup j p ≡ live_items dec entries ts sup' j p
  unfolding live_items copy_is_live
  live_items-congr sup sup' j p e = rw e

  live_items-marked :
      (sup : List (ℕ × List Key)) (j : Key) (p : ℕ × Segment)
      → superseded_in dec sup p.0 j ≡ true
      → live_items dec entries ts sup j p ≡ []
  unfolding live_items copy_is_live
  live_items-marked sup j p e = ground (arith, e)

  live_items-dead :
      (sup : List (ℕ × List Key)) (j : Key) (p : ℕ × Segment)
      → (copy_is_live dec ts sup p.0 j ≡ false) ⊎ (items_of dec j (entries p.1) ≡ [])
      → live_items dec entries ts sup j p ≡ []
  unfolding live_items
  live_items-dead sup j p h = ground (arith, h)

  live_items-one :
      (sup : List (ℕ × List Key)) (j : Key) (p : ℕ × Segment) {x : Item}
      → copy_is_live dec ts sup p.0 j ≡ true
      → items_of dec j (entries p.1) ≡ x ∷ []
      → live_items dec entries ts sup j p ≡ x ∷ []
  unfolding live_items
  live_items-one sup j p live one = ground (arith, live, one)

  newest-congr :
      (sup sup' : List (ℕ × List Key)) (lo hi : ℕ) (ps : List (ℕ × Segment)) (j : Key)
      → Ascending lo hi (map (λ p. p.0) ps)
      → ((s : ℕ) → lo ≤ s → superseded_in dec sup s j ≡ superseded_in dec sup' s j)
      → newest sup ps j ≡ newest sup' ps j
  unfolding newest
  newest-congr sup sup' lo hi [] j ascending same = refl
  newest-congr sup sup' lo hi (p ∷ ps) j ascending same = rw (
    newest-congr sup sup' (suc p.0) hi ps j ascending.1
        (λ s h. let least = ascending.0 in same s (omega arith)),
    live_items-congr sup sup' j p (same p.0 ascending.0),
  )

  abbrev Chosen :
      List (ℕ × Segment) → List (Key × ℕ) → List (ℕ × List Key) → List (ℕ × List Key) → Key → Type 0
  Chosen ps owners sup sup' j =
      (sealed_items dec entries ts sup' ps j ≡ newest sup ps j)
      × ((q : ℕ × Segment)
          → OwnedIn dec entries sup (get dec owners j) j q
          → live_items dec entries ts sup' j q
            ≡ unless_newer (newest sup ps j) (live_items dec entries ts sup j q))

module _ {Key Item Segment : Type 0} (dec : Discrete Key) (store : Store Key Item Segment)
    (laws : StoreLaws dec store) (ts : List Key) where
  open laws use {entries}

  -- One segment, and then the segments `ps` behind it.
  module _ (hi s : ℕ) (seg : Segment) (ps : List (ℕ × Segment)) (owners owners1 : List (Key × ℕ))
      (sup sup1 sup' : List (ℕ × List Key)) (j : Key)
      (ascending : Ascending (suc s) hi (map (λ p. p.0) ps))
      (below : (o : ℕ) → get dec owners j ≡ some o → o < s)
      (owning : Owning dec store ts s (entries seg) owners sup owners1 sup1 j)
      (rest : Chosen dec entries ts ps owners1 sup1 sup' j) where
    not_later : (r : ℕ) → s ≤ r → owner_is (get dec owners j) r ≡ false
    not_later r h = elim (Option-cases (get dec owners j)) [
      | inl unowned ↦ ground (arith, unowned)
      | inr (o, owned) ↦ ground (arith, owned, below o owned, h, ℕ_discrete o r)
    ]

    same_later : (r : ℕ) → s ≤ r → superseded_in dec sup1 r j ≡ superseded_in dec sup r j
    same_later r h = elim owning [
      | inl (why, own, mark) ↦ mark r
      | inr (live, one, free, own, mark) ↦ ground (arith, mark r, not_later r h)
    ]

    newest_later : newest dec entries ts sup1 ps j ≡ newest dec entries ts sup ps j
    newest_later =
        newest-congr dec entries ts sup1 sup (suc s) hi ps j ascending
          (λ r h. same_later r (omega arith))

    live_here : live_items dec entries ts sup1 j (s, seg) ≡ live_items dec entries ts sup j (s, seg)
    live_here = live_items-congr dec entries ts sup1 sup j (s, seg) (same_later s (omega arith))

    sealed_here :
        Accounted dec entries ts sup j (s, seg)
        → sealed_items dec entries ts sup' ((s, seg) ∷ ps) j
          ≡ newest dec entries ts sup ((s, seg) ∷ ps) j
    unfolding sealed_items newest
    sealed_here accounted =
        rw
          (
            rest.0,
            rest.1 (s, seg)
                (now_owned dec store laws ts s seg owners owners1 sup sup1 j owning accounted),
            live_here,
            newest_later,
          )
          (over_unless (newest dec entries ts sup ps j) (live_items dec entries ts sup j (s, seg)))

    marked_or_absent :
        (q : ℕ × Segment)
        → ((r : ℕ)
            → superseded_in dec sup1 r j
              ≡ (owner_is (get dec owners j) r || superseded_in dec sup r j))
        → OwnedIn dec entries sup (get dec owners j) j q
        → live_items dec entries ts sup1 j q ≡ []
    marked_or_absent q mark (inl marked) =
        live_items-marked dec entries ts sup1 j q (ground (arith, mark q.0, marked))
    marked_or_absent q mark (inr (inl nothing)) =
        live_items-dead dec entries ts sup1 j q (inr nothing)
    marked_or_absent q mark (inr (inr (x, one, owner))) =
        live_items-marked dec entries ts sup1 j q
          (ground (arith, mark q.0, owner, ℕ_discrete q.0 q.0))

    hidden :
        (q : ℕ × Segment)
        → OwnedIn dec entries sup (get dec owners j) j q
        → live_items dec entries ts sup' j q
          ≡ unless_newer
              (newest dec entries ts sup ((s, seg) ∷ ps) j)
              (live_items dec entries ts sup j q)
    unfolding newest
    hidden q owned =
        rest.1 q (keeps_owned dec store laws ts s seg owners owners1 sup sup1 j owning q owned)
        ∙ elim owning [
          | inl (why, own, mark) ↦ rw (
            live_items-dead dec entries ts sup j (s, seg) why,
            over_nothing (newest dec entries ts sup ps j),
            newest_later,
            live_items-congr dec entries ts sup1 sup j q (mark q.0),
          )
          | inr (live, (x, one), free, own, mark) ↦
              rw
                (
                  live_items-one dec entries ts sup j (s, seg) live one,
                  newest_later,
                  marked_or_absent q mark owned,
                )
                (hides (newest dec entries ts sup ps j) x (live_items dec entries ts sup j q))
        ]

  pub own_segments-Chosen :
      (lo hi : ℕ) (ps : List (ℕ × Segment)) (owners owners' : List (Key × ℕ))
      (sup sup' : List (ℕ × List Key)) (j : Key)
      → Ascending lo hi (map (λ p. p.0) ps)
      → OwnersBelow dec store laws ts lo owners
      → All (Accounted dec entries ts sup j) ps
      → own_segments dec store ts ps owners sup ≡ ok (some owners', sup')
      → Chosen dec entries ts ps owners sup sup' j
  unfolding own_segments
  own_segments-Chosen lo hi [] owners owners' sup sup' j ascending below all = λ e.
      subst (λ r. Chosen dec entries ts [] owners sup r.1 j) (ok-injective e)
        (unfold sealed_items newest in (refl, λ q h. refl))
  own_segments-Chosen lo hi ((s, seg) ∷ ps) owners owners' sup sup' j ascending below all =
      elim (Result-cases (own_ids dec store ts s (ids (entries seg)) owners sup)) [
        | inr (failure, failed) ↦
            rw (own_segments, laws.item_ids-entries seg, failed) (λ e. absurd (cc))
        | inl ((owners1, sup1), returned) ↦
            rw (own_segments, laws.item_ids-entries seg, returned)
              (λ e.
                let owning : ((i : Key)
                    → Owning dec store ts s (entries seg) owners sup owners1 sup1 i) =
                  λ i.
                    own_ids-Owning dec store ts s (entries seg) owners owners1 sup sup1 i
                      returned in
                let rest =
                  own_segments-Chosen (suc s) hi ps owners1 owners' sup1 sup' j ascending.1
                    (step-OwnersBelow dec store laws ts lo s seg owners sup ascending.0 below
                      owners1 sup1 owning)
                    (All-imp (Accounted dec entries ts sup j) (Accounted dec entries ts sup1 j) ps
                      (grows-Accounted dec store laws ts s seg owners owners1 sup sup1 j (owning j))
                      all.1)
                    e in
                let lower : ((o : ℕ) → get dec owners j ≡ some o → o < s) =
                  λ o owned. (let h = below j o owned in let k = ascending.0 in omega arith) in
                (
                  sealed_here hi s seg ps owners owners1 sup sup1 sup' j ascending.1 lower
                      (owning j) rest all.0,
                  hidden hi s seg ps owners owners1 sup sup1 sup' j ascending.1 lower (owning j)
                      rest,
                ))
      ]
