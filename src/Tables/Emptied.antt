-- ===== src/Tables/Emptied.antt =====
-- The live copies under `merge_group` of src/lib.rs when its output is empty.
use mathlib.Core.Path.{subst₂}
use segstore.Base.{
  ℕ, ◌≡◌, false, List, [], ◌∷◌, none, some, length, arith, refl, ℕ_discrete, append-nil, ap, ap₂,
  ◌∙◌, sym,
}
use segstore.Base.Assoc.{contains}
use segstore.Payload.{Store, StoreLaws, items_of, ids}
use segstore.Tables.{Tables, zip, select, drop_at, remove_all, install_merged}
use segstore.Tables.Live.{copies}
use segstore.Tables.Invariant.{All, OwnedIn, IsValid, live_segment_of, live_segment_of-congr}
use segstore.Tables.Select.{Distinct, Ascending-drop_at}
use segstore.Tables.Unique.{superseded_in-remove_all, length-drop_at, All-zip}
use segstore.Tables.Merge.{rest, merged, outside, sealed-rest, sealed-split, owned-parts, All-imp₂}

module _ {Key Item Segment : Type 0} (dec : Discrete Key) (store : Store Key Item Segment)
    (laws : StoreLaws dec store) (t : Tables Key Item Segment) (v : IsValid dec (laws.entries) t)
    (indices group : List ℕ) (segs : List Segment) (distinct : Distinct indices)
    (ids_picked : select t.segment_ids indices ≡ some group)
    (segs_picked : select t.segments indices ≡ some segs)
    (empty : store.segment_len
        (merged dec store laws t v indices group segs distinct ids_picked segs_picked)
      ≡ 0) where
  open laws use {entries}

  abbrev left : List (ℕ × Segment)
  left = rest dec store laws t v indices group segs distinct ids_picked segs_picked

  abbrev out : Segment
  out = merged dec store laws t v indices group segs distinct ids_picked segs_picked

  abbrev dropped : Tables Key Item Segment
  dropped = install_merged dec store indices group none out t

  dropped-fields :
      (dropped.buffer ≡ t.buffer)
      × (dropped.buffer_ids ≡ t.buffer_ids)
      × (dropped.tombstones ≡ t.tombstones)
      × (dropped.superseded ≡ remove_all group t.superseded)
      × (dropped.next_seg_id ≡ t.next_seg_id)
      × (dropped.segments ≡ drop_at indices 0 t.segments)
      × (dropped.segment_ids ≡ drop_at indices 0 t.segment_ids)
      × (dropped.owners ≡ t.owners)
  unfolding install_merged
  dropped-fields = (refl, refl, refl, refl, refl, refl, refl, refl)

  no_entries : (l : List (Key × Item)) → length l ≡ 0 → (j : Key) → items_of dec j l ≡ []
  unfolding items_of
  no_entries [] e j = refl
  no_entries (x ∷ l) e j = absurd (omega arith)

  pub copies-dropped : (j : Key) → copies dec entries dropped j ≡ copies dec entries t j
  unfolding copies
  copies-dropped j =
      let f = dropped-fields in
      rw (f.0, f.2, f.3, f.5, f.6)
        (rw
          (
            sealed-rest dec store laws t v indices group segs distinct ids_picked segs_picked j,
            ← sealed-split dec store laws t v indices group segs distinct ids_picked segs_picked j,
            no_entries (entries out) (sym (laws.segment_len-entries out) ∙ empty) j,
            append-nil,
          )
          refl)

  owned-left :
      (j : Key) (p : ℕ × Segment)
      → contains ℕ_discrete group p.0 ≡ false
      → OwnedIn dec entries t.superseded (live_segment_of dec t j) j p
      → OwnedIn dec entries (remove_all group t.superseded) (live_segment_of dec dropped j) j p
  owned-left j (s, seg) o w = ground (
    arith,
    o,
    w,
    superseded_in-remove_all dec group t.superseded s j,
    live_segment_of-congr dec dropped t j (dropped-fields.7),
  )

  pub dropped-IsValid : IsValid dec entries dropped
  dropped-IsValid =
      let f = dropped-fields in
      let own = λ (j : Key). live_segment_of-congr dec dropped t j f.7 in
      record {
        lockstep = rw (f.5, f.6) (length-drop_at indices 0 t.segments t.segment_ids v.lockstep);
        ascending =
            rw (f.6, f.4) (Ascending-drop_at indices 0 0 t.next_seg_id t.segment_ids v.ascending);
        fresh = λ s j h.
            rw f.3 (
              ground
                (arith, superseded_in-remove_all dec group t.superseded s j, v.fresh s j, f.4));
        indexed = λ j. rw (f.0, f.1) (v.indexed j);
        single = λ j. rw f.0 (v.single j);
        revived = λ j h. rw f.2 (v.revived j (ground (arith, f.0)));
        buried = λ j h. own j ∙ v.buried j (ap (λ l. contains dec l j) (sym f.2) ∙ h);
        tracked = rw f.7 (v.tracked);
        bounded = λ j s h. ground (arith, f.4, own j, v.bounded j s);
        owned = λ j.
            subst₂ (λ sup ps. All (OwnedIn dec entries sup (live_segment_of dec dropped j) j) ps)
              (sym f.3) (ap₂ zip (sym f.6) (sym f.5))
              (All-imp₂ _ _ _ left (owned-left j)
                (All-zip (λ s. contains ℕ_discrete group s ≡ false)
                  (drop_at indices 0 t.segment_ids) (drop_at indices 0 t.segments)
                  (outside dec store laws t v indices group segs distinct ids_picked segs_picked))
                (owned-parts dec store laws t v indices group segs distinct ids_picked segs_picked
                  j).1);
        moved = λ j h. own j ∙ v.moved j (ap (λ b. contains dec (ids b) j) (sym f.0) ∙ h);
      }
