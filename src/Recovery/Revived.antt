-- ===== src/Recovery/Revived.antt =====
-- `open_with_options` of src/lib.rs on a manifest of the old layout, which marks no copies.
use mathlib.Core.Path.{subst, ap, ap₂, ◌∙◌}
use segstore.Base.{ℕ, ◌≡◌, inl, inr, true, false, List, [], ◌∷◌, ◌++◌, none, some, map, arith, refl}
use segstore.Base.Assoc.{get, contains, contains-set_remove, set_remove}
use segstore.Base.Result.{ok, ok-injective, Result-cases}
use segstore.Payload.{Store, StoreLaws, items_of, ids, flatten}
use segstore.Manifest.{LoadedManifest, superseded_in, copy_is_live}
use segstore.Disk.{Disk}
use segstore.Tables.{apply, add}
use segstore.Tables.Live.{sealed_items, live_items, copies}
use segstore.Tables.Supersede.{add-fields, quiet, supersede-superseded}
use segstore.Tables.Invariant.{live_segment_of}
use segstore.Writer.{Options}
use segstore.Recovery.{own_ids, own_segments, loaded_tables}
use segstore.Recovery.Owners.{own_ids-Owning}
use segstore.Recovery.Loaded.{zip-map}

module _ {Key Item Segment : Type 0} (dec : Discrete Key) (store : Store Key Item Segment)
    (laws : StoreLaws dec store) where
  open laws use {entries}

  -- The loop over the segments passes over a tombstoned id.
  own_segments-skips :
      (ts : List Key) (ps : List (ℕ × Segment)) (owners owners' : List (Key × ℕ))
      (sup sup' : List (ℕ × List Key)) (j : Key)
      → contains dec ts j ≡ true
      → own_segments dec store ts ps owners sup ≡ ok (some owners', sup')
      → (get dec owners' j ≡ get dec owners j)
        × ((s : ℕ) → superseded_in dec sup' s j ≡ superseded_in dec sup s j)
  unfolding own_segments copy_is_live
  own_segments-skips ts [] owners owners' sup sup' j dead = λ e.
      subst
        (λ r. elim r.0 [
          | none ↦ Unit
          | some o ↦
              (get dec o j ≡ get dec owners j)
              × ((s : ℕ) → superseded_in dec r.1 s j ≡ superseded_in dec sup s j)
        ])
        (ok-injective e) ((λ i. get dec owners j), λ s. refl)
  own_segments-skips ts ((s, seg) ∷ ps) owners owners' sup sup' j dead =
      elim (Result-cases (own_ids dec store ts s (ids (entries seg)) owners sup)) [
        | inr (failure, failed) ↦
            rw (own_segments, laws.item_ids-entries seg, failed) (λ e. absurd (cc))
        | inl ((owners1, sup1), returned) ↦
            rw (own_segments, laws.item_ids-entries seg, returned)
              (λ e.
                let (owner, marks) = own_segments-skips ts ps owners1 owners' sup1 sup' j dead e in
                elim (own_ids-Owning dec store ts s (entries seg) owners owners1 sup sup1 j
                  returned) [
                    | inl (why, own, mark) ↦ (owner ∙ own, λ r. marks r ∙ mark r)
                    | inr (live, one, free, own, mark) ↦ absurd (ground (arith, live, dead))
                  ])
      ]

  -- With no tombstone and no mark, every copy is live.
  sealed_items-unmarked :
      (ts : List Key) (sup : List (ℕ × List Key)) (ps : List (ℕ × Segment)) (j : Key)
      → contains dec ts j ≡ false
      → ((s : ℕ) → superseded_in dec sup s j ≡ false)
      → sealed_items dec entries ts sup ps j ≡ flatten (map (λ p. items_of dec j (entries p.1)) ps)
  unfolding sealed_items live_items copy_is_live
  sealed_items-unmarked ts sup [] j alive unmarked = refl
  sealed_items-unmarked ts sup ((s, seg) ∷ ps) j alive unmarked =
      rw (sealed_items-unmarked ts sup ps j alive unmarked, alive, unmarked s)

  module _ {D F : Type 0} (disk : Disk D Key Item Segment) (opts : Options F) where
    -- When the loop over the segments finds owners for a loaded manifest that marks no copy, as one
    -- of the old layout is loaded, adding an id that the manifest has a tombstone for leaves as its
    -- live copies every copy of it in the segments, in their order, and then the new one.
    pub add-Revives :
        (m : LoadedManifest Key) (segs : List (ℕ × Segment)) (owners : List (Key × ℕ))
        (sup : List (ℕ × List Key)) (id : Key) (item : Item)
        → contains dec m.tombstones id ≡ true
        → m.superseded ≡ []
        → own_segments dec store m.tombstones segs [] m.superseded ≡ ok (some owners, sup)
        → copies dec entries
            (apply dec (add id item) (loaded_tables dec store disk opts m segs (some owners) sup))
            id
          ≡ flatten (map (λ p. items_of dec id (entries p.1)) segs) ++ item ∷ []
    unfolding copies items_of superseded_in get contains live_segment_of
    add-Revives m segs owners sup id item dead legacy found =
        let t = loaded_tables dec store disk opts m segs (some owners) sup in
        let f = add-fields dec id t item in
        let (owner, marks) =
          own_segments-skips m.tombstones segs [] owners m.superseded sup id dead found in
        let unowned : live_segment_of dec t id ≡ none = owner in
        let unmarked : ((s : ℕ) → superseded_in dec sup s id ≡ false) =
          λ s. marks s ∙ ap (λ l. superseded_in dec l s id) legacy in
        let stays : ((s : ℕ) → superseded_in dec (quiet dec id t).superseded s id ≡ false) =
          λ s. supersede-superseded dec id t s id ∙ rw (unowned, unmarked s) refl in
        rw (f.0, f.2, f.3, f.5, f.6, zip-map segs)
          (ap₂ (λ a b. a ++ b)
            (sealed_items-unmarked (set_remove dec id m.tombstones) (quiet dec id t).superseded segs
              id (ground (arith, contains-set_remove dec id id m.tombstones, dec id id)) stays)
            (ground (arith, dec id id)))
