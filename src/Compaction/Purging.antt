-- ===== src/Compaction/Purging.antt =====
-- The state that `compact` of src/lib.rs purges the marks of: no segment holds a dead copy.
use mathlib.Core.Path.{ap, ◌∙◌}
use segstore.Base.{
  ℕ, zero, suc, ◌+◌, ◌≤◌, ◌≡◌, ◌⊎◌, inl, inr, Bool, true, false, not, ◌&&◌, ◌||◌, List, [], ◌∷◌,
  ◌++◌, Option, none, some, length, is_empty, arith, refl, Bool-cases, ◌==◌, ltb, ℕ_discrete,
}
use segstore.Base.Assoc.{contains, get}
use segstore.Payload.{Store, StoreLaws, items_of}
use segstore.Manifest.{superseded_in, copy_is_live}
use segstore.Tables.{Tables, zip, drop_at, merge_output, install_merged, remove_all}
use segstore.Tables.Live.{sealed, live_items, sealed_items, copies}
use segstore.Tables.Invariant.{Ascending, All, All-of, OwnedIn, IsValid, live_segment_of}
use segstore.Tables.Merged.{items-merge_output}
use segstore.Tables.Merge.{All-imp₂}
use segstore.Tables.Select.{drop_at_below}
use segstore.Tables.Unique.{sealed_items-tombstoned, superseded_in-remove_all}
use segstore.Writer.Merging.{Keeps}
use segstore.Compaction.{range}

pub range-Ascending : (i n hi : ℕ) → i + n ≤ hi → Ascending i hi (range i n)
range-Ascending i zero hi h = omega arith
range-Ascending i (suc n) hi h = (omega arith, range-Ascending (suc i) n hi (omega arith))

contains-range-first : (i n : ℕ) → contains ℕ_discrete (range i (suc n)) i ≡ true
unfolding contains
contains-range-first i n = ground (arith, ℕ_discrete i i)

drop_at-range {ℓ} : {A : Type ℓ} (k : ℕ) (l : List A) → drop_at (range k (length l)) k l ≡ []
unfolding drop_at
drop_at-range k [] = refl
drop_at-range k (x ∷ l) =
    rw (contains-range-first k (length l))
      (drop_at_below (range (suc k) (length l)) k (suc k) l (omega arith) ∙ drop_at-range (suc k) l)

module _ {Key Item Segment : Type 0} (dec : Discrete Key)
    (entries : Segment → List (Key × Item)) where
  abbrev pub LiveIn : Tables Key Item Segment → Key → ℕ × Segment → Type 0
  LiveIn t j (s, seg) =
      (copy_is_live dec t.tombstones t.superseded s j ≡ true) ⊎ (items_of dec j (entries seg) ≡ [])

  -- No segment holds a dead copy of the id.
  abbrev pub Clean : Tables Key Item Segment → Key → Type 0
  Clean t j = All (LiveIn t j) (sealed dec entries t)

  abbrev pub purged : Tables Key Item Segment → Tables Key Item Segment
  purged t = record t { tombstones = []; superseded = [] }

  unmarked : (s : ℕ) (j : Key) → superseded_in dec [] s j ≡ false
  unfolding superseded_in get
  unmarked s j = refl

  sealed_items-purged :
      (t : Tables Key Item Segment) (j : Key) (ps : List (ℕ × Segment))
      → All (LiveIn t j) ps
      → sealed_items dec entries [] [] ps j
        ≡ sealed_items dec entries t.tombstones t.superseded ps j
  unfolding sealed_items live_items copy_is_live contains
  sealed_items-purged t j [] h = refl
  sealed_items-purged t j ((s, seg) ∷ ps) h =
      ground (arith, h.0, unmarked s j, sealed_items-purged t j ps h.1)

  OwnedIn-purged :
      (t : Tables Key Item Segment) (j : Key) (owner : Option ℕ) (p : ℕ × Segment)
      → LiveIn t j p
      → OwnedIn dec entries t.superseded owner j p
      → OwnedIn dec entries [] owner j p
  unfolding copy_is_live
  OwnedIn-purged t j owner (s, seg) (inr empty) o = inr (inl empty)
  OwnedIn-purged t j owner (s, seg) (inl live) (inl marked) = absurd (ground arith)
  OwnedIn-purged t j owner (s, seg) (inl live) (inr rest) = inr rest

  pub purged-Keeps :
      (t : Tables Key Item Segment)
      → IsValid dec entries t
      → ((j : Key) → Clean t j)
      → Keeps dec entries t (purged t)
  unfolding copies live_segment_of contains
  purged-Keeps t v clean = (
    record {
      lockstep = v.lockstep;
      ascending = v.ascending;
      fresh = λ s j h. unmarked s j;
      indexed = v.indexed;
      single = v.single;
      revived = λ j h. refl;
      buried = λ j h. absurd (cc);
      tracked = v.tracked;
      bounded = v.bounded;
      owned = λ j.
          All-imp₂ _ _ _ (sealed dec entries t)
            (λ p live o. OwnedIn-purged t j (live_segment_of dec t j) p live o) (clean j)
            (v.owned j);
      moved = v.moved;
    },
    λ j.
        ap (λ l. l ++ items_of dec j t.buffer)
          (sealed_items-purged t j (sealed dec entries t) (clean j)),
  )

module _ {Key Item Segment : Type 0} (dec : Discrete Key) (store : Store Key Item Segment)
    (laws : StoreLaws dec store) where
  open laws use {entries}

  -- Every copy in a merge output is live there.
  merged-LiveIn :
      (t : Tables Key Item Segment) (group : List ℕ) (segs : List Segment) (j : Key)
      → IsValid dec entries t
      → length segs ≡ length group
      → LiveIn dec entries
          (record t { superseded = remove_all group t.superseded })
          j
          (t.next_seg_id, merge_output dec store t group segs)
  unfolding copy_is_live
  merged-LiveIn t group segs j v lens = elim (Bool-cases (contains dec t.tombstones j)) [
    | inl dead ↦ inr (
        items-merge_output dec store laws t j group segs lens
        ∙ sealed_items-tombstoned dec entries t.tombstones t.superseded j (zip group segs) dead)
    | inr alive ↦ inl (
        ground (
          arith,
          alive,
          superseded_in-remove_all dec group t.superseded t.next_seg_id j,
          v.fresh t.next_seg_id j (omega arith),
        ))
  ]

  pub installed-Clean :
      (t : Tables Key Item Segment) (group : List ℕ) (segs : List Segment) (id : Option ℕ) (j : Key)
      → IsValid dec entries t
      → length segs ≡ length group
      → (id ≡ none) ⊎ (id ≡ some t.next_seg_id)
      → (n : ℕ)
      → Clean dec entries
          (install_merged dec store
            (range 0 (length t.segments))
            group
            id
            (merge_output dec store t group segs)
            (record t { next_seg_id = n }))
          j
  unfolding install_merged zip
  installed-Clean t group segs id j v lens which n =
      let no_segs : drop_at (range 0 (length t.segments)) 0 t.segments ≡ [] =
        drop_at-range 0 t.segments in
      let no_ids : drop_at (range 0 (length t.segments)) 0 t.segment_ids ≡ [] =
        ap (λ k. drop_at (range 0 k) 0 t.segment_ids) v.lockstep ∙ drop_at-range 0 t.segment_ids in
      elim which [
        | inl e ↦ rw (e, no_segs, no_ids) tt
        | inr e ↦ rw (e, no_segs, no_ids) (merged-LiveIn t group segs j v lens, tt)
      ]

  nothing_dead :
      (t : Tables Key Item Segment) (j : Key)
      → t.tombstones ≡ []
      → t.superseded ≡ []
      → Clean dec entries t j
  unfolding copy_is_live contains
  nothing_dead t j no_tombs no_marks = All-of _ (sealed dec entries t) (λ p. inl (
      ground (
        arith,
        ap (λ l. contains dec l j) no_tombs,
        ap (λ m. superseded_in dec m p.0 j) no_marks,
        unmarked dec entries p.0 j,
      )))

  no_segments :
      (P : ℕ × Segment → Type 0) (ids : List ℕ) (segs : List Segment)
      → length segs ≡ 0
      → All P (zip ids segs)
  unfolding zip
  no_segments P [] segs e = tt
  no_segments P (i ∷ ids) [] e = tt
  no_segments P (i ∷ ids) (x ∷ segs) e = absurd (omega arith)

  empty_list : {A : Type 0} (l : List A) → is_empty l ≡ true → l ≡ []
  empty_list [] e = refl
  empty_list (x ∷ l) e = absurd (cc)

  abbrev pub has_work : Tables Key Item Segment → Bool
  has_work t =
      ltb 1 (length t.segments)
      || (length t.segments == 1 && (not (is_empty t.tombstones) || not (is_empty t.superseded)))

  pub unmerged-Clean :
      (t : Tables Key Item Segment) (j : Key) → has_work t ≡ false → Clean dec entries t j
  unmerged-Clean t j few = elim (Bool-cases (length t.segments == 1)) [
    | inl one ↦
        nothing_dead t j (empty_list t.tombstones (ground arith))
          (empty_list t.superseded (ground arith))
    | inr not_one ↦ no_segments _ t.segment_ids t.segments (ground arith)
  ]
