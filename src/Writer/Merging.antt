-- ===== src/Writer/Merging.antt =====
-- The live copies under `merge_group` of src/lib.rs, its write included.
use segstore.Base.{
  ℕ, suc, ◌≡◌, inl, inr, List, [], ◌∷◌, some, arith, refl, Option-cases, Bool-cases, ◌==◌,
}
use segstore.Base.Result.{Result-cases}
use segstore.Payload.{Store, StoreLaws}
use segstore.Disk.{Disk}
use segstore.Names.{seg_path, manifest_path}
use segstore.Tables.{Tables, select, merge_output}
use segstore.Tables.Live.{copies}
use segstore.Tables.Invariant.{IsValid, Ascending, live_segment_of}
use segstore.Tables.Select.{Distinct}
use segstore.Tables.Merge.{copies-installed, installed-IsValid}
use segstore.Tables.Emptied.{copies-dropped, dropped-IsValid}
use segstore.Writer.{Writer, merge_group, merge_selected, persist_segment}

module _ {Key Item Segment : Type 0} (dec : Discrete Key)
    (entries : Segment → List (Key × Item)) where
  -- Nothing a reader could see differs, and the state stays valid.
  abbrev pub Keeps : Tables Key Item Segment → Tables Key Item Segment → Type 0
  Keeps t t' =
      IsValid dec entries t' × ((j : Key) → copies dec entries t' j ≡ copies dec entries t j)

  -- Allocating an id for a write that fails changes no copy.
  pub allocate-Keeps :
      (t : Tables Key Item Segment)
      → IsValid dec entries t
      → Keeps t (record t { next_seg_id = suc t.next_seg_id })
  unfolding copies live_segment_of
  allocate-Keeps t v = (
    record {
      lockstep = v.lockstep;
      ascending = later 0 t.next_seg_id t.segment_ids v.ascending;
      fresh = λ s j h. v.fresh s j (omega arith);
      indexed = v.indexed;
      single = v.single;
      revived = v.revived;
      buried = v.buried;
      tracked = v.tracked;
      bounded = λ j s h. omega (arith, v.bounded j s h);
      owned = v.owned;
      moved = v.moved;
    },
    λ j. refl,
  )
    where
      later : (lo hi : ℕ) (l : List ℕ) → Ascending lo hi l → Ascending lo (suc hi) l
      later lo hi [] h = omega arith
      later lo hi (s ∷ l) h = (h.0, later (suc s) hi l h.1)

module _ {D F Key Item Segment : Type 0} (dec : Discrete Key) (store : Store Key Item Segment)
    (laws : StoreLaws dec store) (disk : Disk D Key Item Segment) where
  open laws use {entries}

  merge_selected-Keeps :
      (w : Writer D F Key Item Segment) (indices group : List ℕ) (segs : List Segment)
      → IsValid dec entries w.tables
      → Distinct indices
      → select w.tables.segment_ids indices ≡ some group
      → select w.tables.segments indices ≡ some segs
      → Keeps dec entries w.tables (merge_selected dec store disk indices group segs w).1.tables
  unfolding merge_selected persist_segment
  merge_selected-Keeps w indices group segs v d p q =
      elim (Bool-cases (store.segment_len (merge_output dec store w.tables group segs) == 0)) [
        | inl e ↦
            let zero_len : store.segment_len (merge_output dec store w.tables group segs) ≡ 0 =
              ground (arith, e) in
            rw e (
              dropped-IsValid dec store laws w.tables v indices group segs d p q zero_len,
              copies-dropped dec store laws w.tables v indices group segs d p q zero_len,
            )
        | inr e ↦
            rw e
              (elim (Result-cases
                (disk.write_segment (disk.has_path manifest_path) (seg_path w.tables.next_seg_id) 0
                  (merge_output dec store w.tables group segs) w.dir).0) [
                    | inl (u, f) ↦ rw f (
                      installed-IsValid dec store laws w.tables v indices group segs d p q,
                      copies-installed dec store laws w.tables v indices group segs d p q,
                    )
                    | inr (x, f) ↦ rw f (allocate-Keeps dec entries w.tables v)
                  ])
      ]

  -- From a valid state and for distinct indices, `merge_group` leaves a valid state with the live
  -- copies of every id as they were, whether the merge is written, is empty, fails to be written,
  -- or an index is out of range.
  pub merge_group-Keeps :
      (w : Writer D F Key Item Segment) (indices : List ℕ)
      → IsValid dec entries w.tables
      → Distinct indices
      → Keeps dec entries w.tables (merge_group dec store disk indices w).1.tables
  unfolding merge_group
  merge_group-Keeps w indices v d = elim (Option-cases (select w.tables.segment_ids indices)) [
    | inl p ↦ rw (merge_group, p) (v, λ j. refl)
    | inr (group, p) ↦ elim (Option-cases (select w.tables.segments indices)) [
      | inl q ↦ rw (merge_group, p, q) (v, λ j. refl)
      | inr (segs, q) ↦ rw (merge_group, p, q) (merge_selected-Keeps w indices group segs v d p q)
    ]
  ]
