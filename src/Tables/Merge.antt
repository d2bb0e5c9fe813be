-- ===== src/Tables/Merge.antt =====
-- The live copies under `merge_group` of src/lib.rs when its output is kept.
use mathlib.Core.Path.{subst₂}
use mathlib.Core.List.{Permᴰ}
use mathlib.Core.List.Permᴰ as Perm
use segstore.Base.{
  none, ℕ, suc, ◌≤◌, ◌≡◌, inl, inr, true, false, List, [], ◌∷◌, ◌++◌, some, length, arith,
  if◌then◌else◌, refl, ℕ_discrete, Option-cases, Bool-cases, append-nil, ap, ◌∙◌, sym,
  length-append,
}
use segstore.Base.Assoc.{contains}
use segstore.Payload.{Store, StoreLaws, items_of, ids}
use segstore.Manifest.{copy_is_live}
use segstore.Tables.{
  Tables, zip, own_all, select, drop_at, remove_all, merge_output, install_merged,
  owners_after_merge,
}
use segstore.Tables.Live.{
  sealed, live_items, sealed_items, copies, sealed_items-append, contains_of-items, absent_of-items,
}
use segstore.Tables.Invariant.{
  All, All-imp, All-append, OwnedIn, IsValid, live_segment_of, is_some, Ascending-snoc,
  sealed_items-congr,
}
use segstore.Tables.Flush.{zip-snoc, get-own_all, short_cases}
use segstore.Tables.Select.{
  Distinct, select-perm, select-zip, All-perm, All-split, short-perm, zip-drop_at,
  Ascending-Distinct, Ascending-drop_at, Distinct-perm, Distinct-apart,
}
use segstore.Tables.Merged.{items-merge_output}
use segstore.Tables.Unique.{
  superseded_in-remove_all, length-drop_at, length-select, All-zip, sealed_items-perm,
  sealed_items-tombstoned, sealed_items-short, chosen-owner,
}

pub All-imp₂ {ℓ κ} :
    {A : Type ℓ} (P Q R : A → Type κ) (xs : List A)
    → ((x : A) → P x → Q x → R x)
    → All P xs
    → All Q xs
    → All R xs
All-imp₂ P Q R [] f h k = tt
All-imp₂ P Q R (x ∷ xs) f h k = (f x h.0 k.0, All-imp₂ P Q R xs f h.1 k.1)

module _ {Key Item Segment : Type 0} (dec : Discrete Key) (store : Store Key Item Segment)
    (laws : StoreLaws dec store) (t : Tables Key Item Segment) (v : IsValid dec (laws.entries) t)
    (indices group : List ℕ) (segs : List Segment) (distinct : Distinct indices)
    (ids_picked : select t.segment_ids indices ≡ some group)
    (segs_picked : select t.segments indices ≡ some segs) where
  open laws use {entries}

  abbrev pub rest : List (ℕ × Segment)
  rest = zip (drop_at indices 0 t.segment_ids) (drop_at indices 0 t.segments)

  abbrev pub sup' : List (ℕ × List Key)
  sup' = remove_all group t.superseded

  abbrev pub merged : Segment
  merged = merge_output dec store t group segs

  chosen-perm : Permᴰ (sealed dec entries t) (zip group segs ++ rest)
  chosen-perm = rw (zip-drop_at indices 0 t.segment_ids t.segments v.lockstep) (
      select-perm indices (sealed dec entries t) (zip group segs) distinct
        (select-zip t.segment_ids t.segments indices group segs ids_picked segs_picked))

  lengths : length segs ≡ length group
  lengths =
      length-select indices t.segments segs segs_picked
      ∙ sym (length-select indices t.segment_ids group ids_picked)

  pub outside : All (λ s. contains ℕ_discrete group s ≡ false) (drop_at indices 0 t.segment_ids)
  outside = Distinct-apart group (drop_at indices 0 t.segment_ids) (
      Distinct-perm (select-perm indices t.segment_ids group distinct ids_picked)
        (Ascending-Distinct 0 t.next_seg_id t.segment_ids v.ascending))

  pub items-merged :
      (j : Key)
      → items_of dec j (entries merged)
        ≡ sealed_items dec entries t.tombstones t.superseded (zip group segs) j
  items-merged j = items-merge_output dec store laws t j group segs lengths

  -- The untouched segments keep their marks.
  pub sealed-rest :
      (j : Key)
      → sealed_items dec entries t.tombstones sup' rest j
        ≡ sealed_items dec entries t.tombstones t.superseded rest j
  sealed-rest j =
      sealed_items-congr dec entries t.tombstones t.tombstones sup' t.superseded j rest refl (
        All-imp _ _ rest
          (λ (s, seg) out. ground (arith, out, superseded_in-remove_all dec group t.superseded s j))
          (All-zip (λ s. contains ℕ_discrete group s ≡ false) (drop_at indices 0 t.segment_ids)
            (drop_at indices 0 t.segments) outside))

  -- The live copies of the whole are those of the rest and those of the group.
  pub sealed-split :
      (j : Key)
      → sealed_items dec entries t.tombstones t.superseded rest j ++ items_of dec j (entries merged)
        ≡ sealed_items dec entries t.tombstones t.superseded (sealed dec entries t) j
  sealed-split j =
      rw (items-merged j)
        (elim (short_cases
          (sealed_items dec entries t.tombstones t.superseded (sealed dec entries t) j)
          whole-short) [
            | inl e ↦ (short-perm parts).0 e ∙ sym e
            | inr (x, e) ↦ (short-perm parts).1 x e ∙ sym e
          ])
    where
      whole-short :
          length (sealed_items dec entries t.tombstones t.superseded (sealed dec entries t) j) ≤ 1
      whole-short =
          sealed_items-short dec entries t.tombstones t.superseded j (live_segment_of dec t j) 0
            t.next_seg_id t.segment_ids t.segments v.ascending (v.owned j)

      parts : Permᴰ (sealed_items dec entries t.tombstones t.superseded (sealed dec entries t) j) (
          sealed_items dec entries t.tombstones t.superseded rest j
          ++ sealed_items dec entries t.tombstones t.superseded (zip group segs) j)
      parts = Perm.trans (sealed_items-perm dec entries t.tombstones t.superseded j chosen-perm) (
          rw (sealed_items-append dec entries t.tombstones t.superseded (zip group segs) rest j) (
            Perm.append_comm (sealed_items dec entries t.tombstones t.superseded (zip group segs) j)
              (sealed_items dec entries t.tombstones t.superseded rest j)))

  pub owned-parts :
      (j : Key)
      → All (OwnedIn dec entries t.superseded (live_segment_of dec t j) j) (zip group segs)
        × All (OwnedIn dec entries t.superseded (live_segment_of dec t j) j) rest
  owned-parts j = All-split _ (zip group segs) rest (All-perm _ chosen-perm (v.owned j))

  -- The id of a merged copy had its owner in the group, so no other segment owned it.
  pub absent-merged :
      (j : Key)
      → sealed_items dec entries t.tombstones t.superseded (zip group segs) j ≡ []
      → contains dec (ids (entries merged)) j ≡ false
  absent-merged j e = absent_of-items dec j (entries merged) (items-merged j ∙ e)

  abbrev pub allocated : Tables Key Item Segment
  allocated = record t { next_seg_id = suc t.next_seg_id }

  abbrev pub installed : Tables Key Item Segment
  installed = install_merged dec store indices group (some t.next_seg_id) merged allocated

  installed-fields :
      (installed.buffer ≡ t.buffer)
      × (installed.buffer_ids ≡ t.buffer_ids)
      × (installed.tombstones ≡ t.tombstones)
      × (installed.superseded ≡ sup')
      × (installed.next_seg_id ≡ suc t.next_seg_id)
      × (installed.segments ≡ drop_at indices 0 t.segments ++ merged ∷ [])
      × (installed.segment_ids ≡ drop_at indices 0 t.segment_ids ++ t.next_seg_id ∷ [])
      × (installed.owners ≡ owners_after_merge dec store allocated t.next_seg_id merged)
  unfolding install_merged
  installed-fields = (refl, refl, refl, refl, refl, refl, refl, refl)

  merge-owners :
      (o : List (Key × ℕ))
      → t.owners ≡ some o
      → owners_after_merge dec store allocated t.next_seg_id merged
        ≡ some (own_all dec t.next_seg_id (ids (entries merged)) o)
  unfolding owners_after_merge
  merge-owners o e = ground (arith, e, laws.item_ids-entries merged)

  installed-owners :
      (is_some installed.owners ≡ true)
      × ((j : Key)
          → live_segment_of dec installed j ≡ (
              if contains dec (ids (entries merged)) j
              then some t.next_seg_id
              else live_segment_of dec t j))
  unfolding merge_output
  installed-owners = elim (Option-cases t.owners) [
    | inl e ↦ absurd (ground (arith, v.tracked))
    | inr (o, e) ↦
        let e' : installed.owners ≡ some (own_all dec t.next_seg_id (ids (entries merged)) o) =
          installed-fields.7 ∙ merge-owners o e in
        (
          rw e' refl,
          λ j.
              unfold live_segment_of in
              rw (e', e) (get-own_all dec t.next_seg_id (ids (entries merged)) o j),
        )
  ]

  sealed-installed : sealed dec entries installed ≡ rest ++ (t.next_seg_id, merged) ∷ []
  sealed-installed =
      let f = installed-fields in
      rw (f.5, f.6)
        (zip-snoc (drop_at indices 0 t.segment_ids) (drop_at indices 0 t.segments) t.next_seg_id
          merged (length-drop_at indices 0 t.segments t.segment_ids v.lockstep))

  live-merged :
      (j : Key)
      → live_items dec entries t.tombstones sup' j (t.next_seg_id, merged)
        ≡ items_of dec j (entries merged)
  unfolding live_items copy_is_live
  live-merged j = elim (Bool-cases (contains dec t.tombstones j)) [
    | inl h ↦ rw h (
        sym (
          items-merged j
          ∙ sealed_items-tombstoned dec entries t.tombstones t.superseded j (zip group segs) h))
    | inr h ↦ ground (
      arith,
      h,
      superseded_in-remove_all dec group t.superseded t.next_seg_id j,
      v.fresh t.next_seg_id j,
    )
  ]

  pub copies-installed : (j : Key) → copies dec entries installed j ≡ copies dec entries t j
  unfolding copies
  copies-installed j =
      let f = installed-fields in
      rw (sealed-installed, f.0, f.2, f.3)
        (rw
          (
            sealed_items-append dec entries t.tombstones sup' rest ((t.next_seg_id, merged) ∷ []) j,
            sealed-rest j,
            ← sealed-split j,
          )
          (unfold sealed_items in simp (live-merged, append-nil)))

  owned-rest :
      (j : Key) (p : ℕ × Segment)
      → contains ℕ_discrete group p.0 ≡ false
      → OwnedIn dec entries t.superseded (live_segment_of dec t j) j p
      → OwnedIn dec entries sup' (live_segment_of dec installed j) j p
  owned-rest j (s, seg) out w =
      elim (chosen-owner dec entries t.tombstones t.superseded j (live_segment_of dec t j) group
        segs (owned-parts j).0) [
          | inl dead ↦ ground (
            arith,
            w,
            out,
            superseded_in-remove_all dec group t.superseded s j,
            installed-owners.1 j,
            absent-merged j dead,
          )
          | inr (g, at, inside) ↦
              ground
                (arith, w, out, at, inside, superseded_in-remove_all dec group t.superseded s j)
        ]

  owned-merged :
      (j : Key)
      → OwnedIn dec entries sup' (live_segment_of dec installed j) j (t.next_seg_id, merged)
  owned-merged j =
      elim (short_cases (items_of dec j (entries merged)) (rw (items-merged j) (group-short j))) [
        | inl e ↦ inr (inl e)
        | inr (x, e) ↦
            inr (inr (x, e, installed-owners.1 j ∙ rw (contains_of-items dec j (entries merged) e)))
      ]
    where
      group-short :
          (j : Key)
          → length (sealed_items dec entries t.tombstones t.superseded (zip group segs) j) ≤ 1
      group-short j = ground (
        arith,
        sealed_items-short dec entries t.tombstones t.superseded j (live_segment_of dec t j) 0
            t.next_seg_id t.segment_ids t.segments v.ascending (v.owned j),
        ap length (sealed-split j),
        ap length (items-merged j),
        length-append (sealed_items dec entries t.tombstones t.superseded rest j)
            (items_of dec j (entries merged)),
      )

  -- An id without an owner gets none.
  unowned : (j : Key) → live_segment_of dec t j ≡ none → live_segment_of dec installed j ≡ none
  unowned j clear =
      elim (chosen-owner dec entries t.tombstones t.superseded j (live_segment_of dec t j) group
        segs (owned-parts j).0) [
          | inl dead ↦ ground (arith, installed-owners.1 j, clear, absent-merged j dead)
          | inr (g, at, inside) ↦ absurd (ground (arith, at, clear))
        ]

  pub installed-IsValid : IsValid dec entries installed
  installed-IsValid =
      let f = installed-fields in
      let own = installed-owners.1 in
      record {
        lockstep =
            rw (f.5, f.6)
              (omega (
                arith,
                length-drop_at indices 0 t.segments t.segment_ids v.lockstep,
                length-append (drop_at indices 0 t.segments) (merged ∷ []),
                length-append (drop_at indices 0 t.segment_ids) (t.next_seg_id ∷ []),
              ));
        ascending =
            rw (f.6, f.4)
              (Ascending-snoc 0 t.next_seg_id (drop_at indices 0 t.segment_ids)
                (Ascending-drop_at indices 0 0 t.next_seg_id t.segment_ids v.ascending));
        fresh = λ s j h.
            rw f.3 (
              ground
                (arith, superseded_in-remove_all dec group t.superseded s j, v.fresh s j, f.4));
        indexed = λ j. rw (f.0, f.1) (v.indexed j);
        single = λ j. rw f.0 (v.single j);
        revived = λ j h. rw f.2 (v.revived j (ground (arith, f.0)));
        buried = λ j h. unowned j (v.buried j (ap (λ l. contains dec l j) (sym f.2) ∙ h));
        tracked = installed-owners.0;
        bounded = λ j s h. ground (arith, f.4, own j, v.bounded j s);
        owned = λ j.
            subst₂ (λ sup ps. All (OwnedIn dec entries sup (live_segment_of dec installed j) j) ps)
              (sym f.3) (sym sealed-installed)
              (All-append (OwnedIn dec entries sup' (live_segment_of dec installed j) j) rest
                ((t.next_seg_id, merged) ∷ [])
                (All-imp₂ _ _ _ rest (owned-rest j)
                  (All-zip (λ s. contains ℕ_discrete group s ≡ false)
                    (drop_at indices 0 t.segment_ids) (drop_at indices 0 t.segments) outside)
                  (owned-parts j).1)
                (owned-merged j, tt));
        moved = λ j h. unowned j (v.moved j (ap (λ b. contains dec (ids b) j) (sym f.0) ∙ h));
      }
