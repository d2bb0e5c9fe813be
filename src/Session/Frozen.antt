-- ===== src/Session/Frozen.antt =====
-- What `SegmentedStore` of src/lib.rs still does once it is poisoned.
use mathlib.Core.Path.{◌∙◌, subst, sym}
use segstore.Base.{
  ℕ, zero, suc, ◌≡◌, inl, inr, Bool, true, List, [], ◌∷◌, some, length, ltb, leb, ◌==◌, refl, not,
  ◌&&◌, ◌||◌, is_empty, Option-cases, Bool-cases,
}
use segstore.Base.Result.{err, Result-cases, invalid_state, store_poisoned}
use segstore.Base.Exec.{Exec, ◌>>=◌, ◌>>◌, return}
use segstore.Names.{seg_path}
use segstore.Payload.{Store}
use segstore.Disk.{Disk}
use segstore.Tables.{Tables, select, merge_output, install_merged}
use segstore.Tiers.{Float}
use segstore.Writer.{
  Writer, check_poisoned, seal, persist_segment, put_tables, merge_selected, merge_group,
  checkpoint,
}
use segstore.Compaction.{
  CompactionStats, next_group, finish, commit_merges, merge_everything, purge, compact, tier_rounds,
  compact_tiers, force_rounds, force_group, force_merge_to, reclaim_targets, reclaim_tombstones,
  no_merges, count_merge, targets, range,
}

module _ {D Key Item Segment : Type 0} (disk : Disk D Key Item Segment) where
  -- The directory after some writes of segment files, whether they succeed or fail.
  pub data SegmentWrites (d : D) : D → Type 0 where
    unwritten : SegmentWrites d d
    wrote :
        {e : D} (durable : Bool) (id epoch : ℕ) (seg : Segment)
        → SegmentWrites d e
        → SegmentWrites d (disk.write_segment durable (seg_path id) epoch seg e).1

  pub SegmentWrites-trans : {c d e : D} → SegmentWrites c d → SegmentWrites d e → SegmentWrites c e
  SegmentWrites-trans a unwritten = a
  SegmentWrites-trans a (wrote durable id epoch seg b) =
      wrote durable id epoch seg (SegmentWrites-trans a b)

module _ {D F Key Item Segment : Type 0} (disk : Disk D Key Item Segment) where
  -- Still poisoned, with the old readers' state, epoch and log, and nothing done to the directory but
  -- writes of segment files.
  pub record Frozen (w u : Writer D F Key Item Segment) : Type 0 where
    pub poisoned : u.poisoned ≡ true
    pub published : u.published ≡ w.published
    pub epoch : u.epoch ≡ w.epoch
    pub wal : u.wal ≡ w.wal
    pub writes : SegmentWrites disk w.dir u.dir

  pub Frozen-same : (w : Writer D F Key Item Segment) → w.poisoned ≡ true → Frozen w w
  Frozen-same w p = record {
    poisoned = p;
    published = refl;
    epoch = refl;
    wal = refl;
    writes = SegmentWrites.unwritten;
  }

  pub Frozen-trans : (w u x : Writer D F Key Item Segment) → Frozen w u → Frozen u x → Frozen w x
  Frozen-trans w u x a b = record {
    poisoned = b.poisoned;
    published = b.published ∙ a.published;
    epoch = b.epoch ∙ a.epoch;
    wal = b.wal ∙ a.wal;
    writes = SegmentWrites-trans disk a.writes b.writes;
  }

  abbrev pub Freezes : {A : Type 0} → Exec (Writer D F Key Item Segment) A → Type 0
  Freezes m = (w : Writer D F Key Item Segment) → w.poisoned ≡ true → Frozen w (m w).1

  bind-Freezes :
      {A B : Type 0} (m : Exec (Writer D F Key Item Segment) A)
      (k : A → Exec (Writer D F Key Item Segment) B)
      → Freezes m
      → ((a : A) → Freezes (k a))
      → Freezes (m >>= k)
  bind-Freezes m k f g w p = elim (Result-cases (m w).0) [
    | inl (a, e) ↦
        rw e (Frozen-trans w (m w).1 (k a (m w).1).1 (f w p) (g a (m w).1 (f w p).poisoned))
    | inr (x, e) ↦ rw e (f w p)
  ]

  pub then-Freezes :
      {A B : Type 0} (m : Exec (Writer D F Key Item Segment) A)
      (k : Exec (Writer D F Key Item Segment) B)
      → Freezes m
      → Freezes k
      → Freezes (m >> k)
  then-Freezes m k f g = bind-Freezes m (λ _. k) f (λ _. g)

  pub return-Freezes : {A : Type 0} (a : A) → Freezes (return a)
  return-Freezes a w p = Frozen-same w p

module _ {D F Key Item Segment : Type 0} (dec : Discrete Key) (store : Store Key Item Segment)
    (disk : Disk D Key Item Segment) where
  -- Only the tables change.
  put_tables-Frozen :
      (w : Writer D F Key Item Segment) (t : Tables Key Item Segment)
      → w.poisoned ≡ true
      → Frozen disk w (record w { tables = t })
  put_tables-Frozen w t p = record {
    poisoned = p;
    published = refl;
    epoch = refl;
    wal = refl;
    writes = SegmentWrites.unwritten;
  }

  seal-Freezes : Freezes {F = F} disk (seal dec store disk)
  unfolding seal
  seal-Freezes w p = put_tables-Frozen w _ p

  persist_segment-Freezes :
      (id : ℕ) (seg : Segment) → Freezes {F = F} disk (persist_segment dec store disk id seg)
  unfolding persist_segment
  persist_segment-Freezes id seg w p = record {
    poisoned = p;
    published = refl;
    epoch = refl;
    wal = refl;
    writes = SegmentWrites.wrote _ id 0 seg SegmentWrites.unwritten;
  }

  merge_selected-Freezes :
      (indices group : List ℕ) (segs : List Segment)
      → Freezes {F = F} disk (merge_selected dec store disk indices group segs)
  unfolding merge_selected
  merge_selected-Freezes indices group segs w p =
      let merged = merge_output dec store w.tables group segs in
      let n = store.segment_len merged in
      let id = w.tables.next_seg_id in
      let allocated = record w.tables { next_seg_id = suc id } in
      elim (Bool-cases (n == 0)) [
        | inl empty ↦ rw (merge_selected, empty) (put_tables-Frozen w _ p)
        | inr full ↦
            rw (merge_selected, full)
              (then-Freezes disk (put_tables dec store disk allocated)
                (persist_segment dec store disk id merged
                  >> (put_tables dec store disk
                        (install_merged dec store indices group (some id) merged allocated)
                      >> return n))
                (λ u q. put_tables-Frozen u allocated q)
                (then-Freezes disk (persist_segment dec store disk id merged)
                  (put_tables dec store disk
                      (install_merged dec store indices group (some id) merged allocated)
                    >> return n)
                  (persist_segment-Freezes id merged) (λ u q. put_tables-Frozen u _ q))
                w p)
      ]

  merge_group-Freezes :
      (indices : List ℕ) → Freezes {F = F} disk (merge_group dec store disk indices)
  unfolding merge_group
  merge_group-Freezes indices w p = elim (Option-cases (select w.tables.segment_ids indices)) [
    | inl no_ids ↦ rw (merge_group, no_ids) (Frozen-same disk w p)
    | inr (group, e) ↦ elim (Option-cases (select w.tables.segments indices)) [
      | inl no_segs ↦ rw (merge_group, e, no_segs) (Frozen-same disk w p)
      | inr (segs, f) ↦ rw (merge_group, e, f) (merge_selected-Freezes indices group segs w p)
    ]
  ]

  -- A call that begins with `check_poisoned` returns its error and changes nothing.
  pub check_poisoned-refuses :
      (k : Exec (Writer D F Key Item Segment) (Unit {0})) (w : Writer D F Key Item Segment)
      → w.poisoned ≡ true
      → (check_poisoned dec store disk >> k) w ≡ (err (invalid_state store_poisoned), w)
  unfolding check_poisoned
  check_poisoned-refuses k w p = rw p refl

  pub checkpoint-refused :
      (w : Writer D F Key Item Segment)
      → w.poisoned ≡ true
      → checkpoint dec store disk w ≡ (err (invalid_state store_poisoned), w)
  unfolding checkpoint
  checkpoint-refused w p = check_poisoned-refuses _ w p

  checkpoint-Freezes : Freezes {F = F} disk (checkpoint dec store disk)
  checkpoint-Freezes w p =
      subst (λ r. Frozen disk w r.1) (sym (checkpoint-refused w p)) (Frozen-same disk w p)

module _ {D F Key Item Segment : Type 0} (dec : Discrete Key) (store : Store Key Item Segment)
    (disk : Disk D Key Item Segment) (float : Float F) where
  finish-Freezes :
      (stats : CompactionStats) → Freezes {F = F} disk (finish dec store disk float stats)
  finish-Freezes stats w p = Frozen-same disk w p

  checkpointed-Freezes :
      (stats : CompactionStats)
      → Freezes {F = F} disk (checkpoint dec store disk >> finish dec store disk float stats)
  checkpointed-Freezes stats =
      then-Freezes disk (checkpoint dec store disk) (finish dec store disk float stats)
        (checkpoint-Freezes dec store disk) (finish-Freezes stats)

  commit_merges-Freezes :
      (stats : CompactionStats) → Freezes {F = F} disk (commit_merges dec store disk float stats)
  commit_merges-Freezes stats w p = elim (Bool-cases (stats.merges == 0)) [
    | inl none_done ↦ rw none_done (Frozen-same disk w p)
    | inr some_done ↦ rw some_done (checkpointed-Freezes stats w p)
  ]

  merge_everything-Freezes : Freezes {F = F} disk (merge_everything dec store disk float)
  unfolding merge_everything
  merge_everything-Freezes w p =
      let before = length w.tables.segments in
      let has_dead = not (is_empty w.tables.tombstones) || not (is_empty w.tables.superseded) in
      elim (Bool-cases (ltb 1 before || (before == 1 && has_dead))) [
        | inl e ↦
            rw (merge_everything, e)
              (bind-Freezes disk (merge_group dec store disk (range 0 before))
                (λ n. return (count_merge n (no_merges before)))
                (merge_group-Freezes dec store disk (range 0 before))
                (λ n. return-Freezes disk (count_merge n (no_merges before))) w p)
        | inr e ↦ rw (merge_everything, e) (Frozen-same disk w p)
      ]

  purge-Freezes : Freezes {F = F} disk (purge dec store disk float)
  unfolding purge
  purge-Freezes w p = put_tables-Frozen dec store disk w _ p

  pub compact-Freezes : Freezes {F = F} disk (compact dec store disk float)
  unfolding compact
  compact-Freezes =
      let checkpointed : (CompactionStats → Exec (Writer D F Key Item Segment) CompactionStats) =
        λ stats. checkpoint dec store disk >> finish dec store disk float stats in
      then-Freezes disk (seal dec store disk)
        (merge_everything dec store disk float
          >>= (λ stats. purge dec store disk float >> checkpointed stats))
        (seal-Freezes dec store disk)
        (bind-Freezes disk (merge_everything dec store disk float)
          (λ stats. purge dec store disk float >> checkpointed stats) merge_everything-Freezes
          (λ stats.
            then-Freezes disk (purge dec store disk float) (checkpointed stats) purge-Freezes
              (checkpointed-Freezes stats)))

  tier_rounds-Freezes :
      (fuel : ℕ) (stats : CompactionStats)
      → Freezes {F = F} disk (tier_rounds dec store disk float fuel stats)
  unfolding tier_rounds
  tier_rounds-Freezes zero stats w p = Frozen-same disk w p
  tier_rounds-Freezes (suc fuel) stats w p =
      elim (Option-cases (next_group dec store disk float w)) [
        | inl none_left ↦ rw (tier_rounds, none_left) (Frozen-same disk w p)
        | inr (group, e) ↦
            rw (tier_rounds, e)
              (bind-Freezes disk (merge_group dec store disk group)
                (λ n. tier_rounds dec store disk float fuel (count_merge n stats))
                (merge_group-Freezes dec store disk group)
                (λ n. tier_rounds-Freezes fuel (count_merge n stats)) w p)
      ]

  force_rounds-Freezes :
      (fuel max_segments : ℕ) (stats : CompactionStats)
      → Freezes {F = F} disk (force_rounds dec store disk float fuel max_segments stats)
  unfolding force_rounds
  force_rounds-Freezes zero max_segments stats w p = Frozen-same disk w p
  force_rounds-Freezes (suc fuel) max_segments stats w p =
      elim (Bool-cases (ltb max_segments (length w.tables.segments))) [
        | inl e ↦
            rw (force_rounds, e)
              (bind-Freezes disk
                (merge_group dec store disk (force_group dec store disk float max_segments w))
                (λ n. force_rounds dec store disk float fuel max_segments (count_merge n stats))
                (merge_group-Freezes dec store disk
                  (force_group dec store disk float max_segments w))
                (λ n. force_rounds-Freezes fuel max_segments (count_merge n stats)) w p)
        | inr e ↦ rw (force_rounds, e) (Frozen-same disk w p)
      ]

  -- Rounds that start from the number of segments, and their checkpoint.
  rounds-Freezes :
      (rounds : ℕ → CompactionStats → Exec (Writer D F Key Item Segment) CompactionStats)
      → ((n : ℕ) (stats : CompactionStats) → Freezes disk (rounds n stats))
      → Freezes {F = F} disk (
          seal dec store disk >> (λ w.
            (rounds (length w.tables.segments) (no_merges (length w.tables.segments))
                >>= commit_merges dec store disk float)
              w))
  rounds-Freezes rounds f =
      then-Freezes disk (seal dec store disk)
        (λ w.
          (rounds (length w.tables.segments) (no_merges (length w.tables.segments))
              >>= commit_merges dec store disk float)
            w)
        (seal-Freezes dec store disk)
        (λ w p.
          let n = length w.tables.segments in
          bind-Freezes disk (rounds n (no_merges n)) (commit_merges dec store disk float)
            (f n (no_merges n)) commit_merges-Freezes w p)

  pub compact_tiers-Freezes : Freezes {F = F} disk (compact_tiers dec store disk float)
  unfolding compact_tiers
  compact_tiers-Freezes =
      rounds-Freezes (λ n stats. tier_rounds dec store disk float n stats) tier_rounds-Freezes

  pub force_merge_to-Freezes :
      (max_segments : ℕ) → Freezes {F = F} disk (force_merge_to dec store disk float max_segments)
  unfolding force_merge_to
  force_merge_to-Freezes max_segments w p = elim (Bool-cases (leb max_segments 1)) [
    | inl all ↦ rw (force_merge_to, all) (compact-Freezes w p)
    | inr some_left ↦
        rw (force_merge_to, some_left)
          (rounds-Freezes (λ n stats. force_rounds dec store disk float n max_segments stats)
            (λ n stats. force_rounds-Freezes n max_segments stats) w p)
  ]

  reclaim_targets-Freezes :
      (ratio : F) → Freezes {F = F} disk (reclaim_targets dec store disk float ratio)
  unfolding reclaim_targets
  reclaim_targets-Freezes ratio w p =
      elim (Option-cases (
        targets dec store float ratio w.tables.tombstones w.tables.superseded 0 w.tables.segments
          w.tables.segment_ids)) [
            | inl unknown ↦ rw (reclaim_targets, unknown) (Frozen-same disk w p)
            | inr ([], e) ↦ rw (reclaim_targets, e) (Frozen-same disk w p)
            | inr (i ∷ is, e) ↦
                let stats = no_merges (length w.tables.segments) in
                rw (reclaim_targets, e)
                  (bind-Freezes disk (merge_group dec store disk (i ∷ is))
                    (λ n.
                      checkpoint dec store disk
                      >> finish dec store disk float (count_merge n stats))
                    (merge_group-Freezes dec store disk (i ∷ is))
                    (λ n. checkpointed-Freezes (count_merge n stats)) w p)
          ]

  pub reclaim_tombstones-Freezes :
      (ratio : F) → Freezes {F = F} disk (reclaim_tombstones dec store disk float ratio)
  unfolding reclaim_tombstones
  reclaim_tombstones-Freezes ratio =
      then-Freezes disk (seal dec store disk) (reclaim_targets dec store disk float ratio)
        (seal-Freezes dec store disk) (reclaim_targets-Freezes ratio)
