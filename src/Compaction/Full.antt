-- ===== src/Compaction/Full.antt =====
-- The live copies under `compact` of src/lib.rs.
use mathlib.Core.Path.{sym, ◌∙◌}
use segstore.Base.{
  ℕ, suc, ◌≡◌, inl, inr, List, none, some, length, arith, refl, Option-cases, Bool-cases, ◌==◌,
}
use segstore.Base.Result.{ok, Result-cases}
use segstore.Base.Exec.{Exec, ◌>>=◌, ◌>>◌}
use segstore.Names.{seg_path, manifest_path}
use segstore.Payload.{Store, StoreLaws}
use segstore.Disk.{Disk}
use segstore.Tables.{select, merge_output}
use segstore.Tables.Invariant.{IsValid}
use segstore.Tables.Select.{Ascending-Distinct}
use segstore.Tables.Unique.{length-select}
use segstore.Tiers.{Float}
use segstore.Writer.{Writer, merge_group, merge_selected, persist_segment, seal, checkpoint}
use segstore.Writer.Merging.{Keeps, merge_group-Keeps}
use segstore.Writer.Preserving.{
  Preserving, Preserving-then, Keeps-trans, seal-Preserving, checkpoint-Preserving,
}
use segstore.Compaction.{range, merge_everything, purge, compact, finish, CompactionStats}
use segstore.Compaction.Keeping.{finish-Preserving}
use segstore.Compaction.Purging.{
  range-Ascending, Clean, purged, purged-Keeps, installed-Clean, has_work, unmerged-Clean,
}

module _ {D F Key Item Segment : Type 0} (dec : Discrete Key) (store : Store Key Item Segment)
    (laws : StoreLaws dec store) (disk : Disk D Key Item Segment) (float : Float F) where
  open laws use {entries}

  merge_selected-Clean :
      (w : Writer D F Key Item Segment) (group : List ℕ) (segs : List Segment) (n : ℕ) (j : Key)
      → IsValid dec entries w.tables
      → length segs ≡ length group
      → (merge_selected dec store disk (range 0 (length w.tables.segments)) group segs w).0 ≡ ok n
      → Clean dec entries
          (merge_selected dec store disk (range 0 (length w.tables.segments)) group segs w).1.tables
          j
  unfolding merge_selected persist_segment
  merge_selected-Clean w group segs n j v lens =
      elim (Bool-cases (store.segment_len (merge_output dec store w.tables group segs) == 0)) [
        | inl e ↦ rw e (λ done.
            installed-Clean dec store laws w.tables group segs none j v lens (inl refl)
              w.tables.next_seg_id)
        | inr e ↦
            rw e
              (elim (Result-cases
                (disk.write_segment (disk.has_path manifest_path) (seg_path w.tables.next_seg_id) 0
                  (merge_output dec store w.tables group segs) w.dir).0) [
                    | inl (u, f) ↦ rw f (λ done.
                        installed-Clean dec store laws w.tables group segs
                          (some w.tables.next_seg_id) j v lens (inr refl)
                          (suc w.tables.next_seg_id))
                    | inr (x, f) ↦ rw f (λ done. absurd (cc))
                  ])
      ]

  merge_group-Clean :
      (w : Writer D F Key Item Segment) (n : ℕ) (j : Key)
      → IsValid dec entries w.tables
      → (merge_group dec store disk (range 0 (length w.tables.segments)) w).0 ≡ ok n
      → Clean dec entries
          (merge_group dec store disk (range 0 (length w.tables.segments)) w).1.tables
          j
  unfolding merge_group
  merge_group-Clean w n j v =
      let idx = range 0 (length w.tables.segments) in
      elim (Option-cases (select w.tables.segment_ids idx)) [
        | inl p ↦ rw (merge_group, p) (λ done. absurd (cc))
        | inr (group, p) ↦ elim (Option-cases (select w.tables.segments idx)) [
          | inl q ↦ rw (merge_group, p, q) (λ done. absurd (cc))
          | inr (segs, q) ↦
              rw (merge_group, p, q)
                (merge_selected-Clean w group segs n j v (
                  length-select idx w.tables.segments segs q
                  ∙ sym (length-select idx w.tables.segment_ids group p)))
        ]
      ]

  merge_everything-Keeps :
      (w : Writer D F Key Item Segment)
      → IsValid dec entries w.tables
      → Keeps dec entries w.tables (merge_everything dec store disk float w).1.tables
  unfolding merge_everything
  merge_everything-Keeps w v = elim (Bool-cases (has_work dec store laws w.tables)) [
    | inl busy ↦
        let merged =
          merge_group-Keeps dec store laws disk w (range 0 (length w.tables.segments)) v (
            Ascending-Distinct 0 (length w.tables.segments) _ (
              range-Ascending 0 (length w.tables.segments) (length w.tables.segments)
                (omega arith))) in
        rw (merge_everything, busy)
          (elim (Result-cases
            (merge_group dec store disk (range 0 (length w.tables.segments)) w).0) [
              | inl (n, e) ↦ rw e merged
              | inr (x, e) ↦ rw e merged
            ])
    | inr idle ↦ rw (merge_everything, idle) (v, λ j. refl)
  ]

  merge_everything-Clean :
      (w : Writer D F Key Item Segment) (stats : CompactionStats) (j : Key)
      → IsValid dec entries w.tables
      → (merge_everything dec store disk float w).0 ≡ ok stats
      → Clean dec entries (merge_everything dec store disk float w).1.tables j
  unfolding merge_everything
  merge_everything-Clean w stats j v = elim (Bool-cases (has_work dec store laws w.tables)) [
    | inl busy ↦
        rw (merge_everything, busy)
          (elim (Result-cases
            (merge_group dec store disk (range 0 (length w.tables.segments)) w).0) [
              | inl (n, e) ↦ rw e (λ done. merge_group-Clean w n j v e)
              | inr (x, e) ↦ rw e (λ done. absurd (cc))
            ])
    | inr idle ↦ rw (merge_everything, idle) (λ done. unmerged-Clean dec store laws w.tables j idle)
  ]

  purge_rest-Preserving :
      (stats : CompactionStats) (w : Writer D F Key Item Segment)
      → IsValid dec entries w.tables
      → ((j : Key) → Clean dec entries w.tables j)
      → Keeps dec entries w.tables
          ((purge dec store disk float
              >> (checkpoint dec store disk >> finish dec store disk float stats))
            w).1.tables
  unfolding purge
  purge_rest-Preserving stats w v clean =
      let k = purged-Keeps dec entries w.tables v clean in
      Keeps-trans dec entries _ _ _ k (
        Preserving-then dec entries (checkpoint dec store disk) (finish dec store disk float stats)
          (checkpoint-Preserving dec store laws disk)
          (finish-Preserving dec store laws disk float stats)
          (record w { tables = purged dec entries w.tables }) k.0)

  abbrev merge_and_purge : Exec (Writer D F Key Item Segment) CompactionStats
  merge_and_purge = merge_everything dec store disk float >>= (λ stats.
      purge dec store disk float
      >> (checkpoint dec store disk >> finish dec store disk float stats))

  merge_and_purge-Preserving : Preserving dec entries {D = D} {F = F} merge_and_purge
  merge_and_purge-Preserving w v =
      let k = merge_everything-Keeps w v in
      elim (Result-cases (merge_everything dec store disk float w).0) [
        | inl (stats, e) ↦ rw e (
            Keeps-trans dec entries _ _ _ k (
              purge_rest-Preserving stats (merge_everything dec store disk float w).1 k.0
                (λ j. merge_everything-Clean w stats j v e)))
        | inr (x, e) ↦ rw e k
      ]

  pub compact-Preserving : Preserving dec entries {D = D} {F = F} (compact dec store disk float)
  unfolding compact
  compact-Preserving =
      Preserving-then dec entries (seal dec store disk) merge_and_purge
        (seal-Preserving dec store laws disk) merge_and_purge-Preserving

  -- From a valid state, `compact` leaves a valid state with the live copies of every id as they
  -- were, although it clears the tombstones and the superseded sets, whether it returns or stops at
  -- an error.
  pub compact-Keeps :
      (w : Writer D F Key Item Segment)
      → IsValid dec entries w.tables
      → Keeps dec entries w.tables (compact dec store disk float w).1.tables
  compact-Keeps w v = compact-Preserving w v
