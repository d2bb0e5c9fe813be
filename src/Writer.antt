-- ===== src/Writer.antt =====
-- `SegmentedStore` of src/lib.rs over its directory: writing segments, `merge_group`, the garbage
-- collection, and `checkpoint`, the commit point.
pub mod Merging
pub mod Preserving
pub mod Committing
use segstore.Base.{
  ℕ, zero, suc, ◌+◌, Bool, true, false, not, ◌&&◌, ◌||◌, List, [], ◌∷◌, ◌++◌, map, Option, none,
  some, if◌then◌else◌, ◌==◌, leb, ℕ_discrete, keep, length,
}
unfoldable use segstore.Base.{insert_by, sort_by}
use segstore.Base.Assoc.{contains, set_insert, set_of, retain}
use segstore.Base.Result.{Result, ok, err, Error, panicked, invalid_state, store_poisoned}
use segstore.Base.Exec.{Exec, ◌>>=◌, ◌>>◌, return}
use segstore.Names.{
  Name, wal_path, seg_path, manifest_path, wal_prefix, seg_prefix, strip_prefix, parse_u64,
  idx_seg_id,
}
use segstore.Payload.{Store}
use segstore.Manifest.{ManifestV2, manifest_ext_version}
use segstore.Disk.{Disk, size_cap_context, delete_files_best_effort}
use segstore.Tables.{Tables, Op, select, flush_buffer, merge_output, install_merged}
use segstore.Tiers.{TierConfig}

pub data SyncPolicy : Type 0 where
  flush fsync : SyncPolicy

pub record Options (F : Type 0) : Type 0 where
  pub flush_threshold : ℕ
  pub sync : SyncPolicy
  pub tiering : TierConfig F
  pub auto_compact : Bool

-- What readers see until the next checkpoint.
pub record PubState (Key Segment : Type 0) : Type 0 where
  pub segments : List Segment
  pub segment_ids : List ℕ
  pub tombstones : List Key
  pub superseded : List (ℕ × List Key)

-- `wal` is the path that the log writer is open on. `lock` tells whether the lock file is held.
pub record Writer (D F Key Item Segment : Type 0) : Type 0 where
  pub tables : Tables Key Item Segment
  pub dir : D
  pub published : PubState Key Segment
  pub wal : Name
  pub epoch : ℕ
  pub sync : SyncPolicy
  pub flush_threshold : ℕ
  pub tiering : TierConfig F
  pub auto_compact : Bool
  pub persisted_ids : List ℕ
  pub poisoned : Bool
  pub lock : Bool

abbrev pub snapshot : {Key Item Segment : Type 0} → Tables Key Item Segment → PubState Key Segment
snapshot t = record {
  segments = t.segments;
  segment_ids = t.segment_ids;
  tombstones = t.tombstones;
  superseded = t.superseded;
}

abbrev pub id_after : Name → Name → Option ℕ
id_after prefix name = elim (strip_prefix prefix name) [ none ↦ none | some s ↦ parse_u64 s ]

-- Whether the collection after a checkpoint takes a file, given the segments to keep.
unfoldable pub is_orphan : List ℕ → Name → Bool
is_orphan kept name = elim (id_after seg_prefix name) [
  | some k ↦ not (contains ℕ_discrete kept k)
  | none ↦ elim (idx_seg_id name) [ some k ↦ not (contains ℕ_discrete kept k) | none ↦ false ]
]

abbrev pub listed : Result (List Name) → List Name
listed (ok names) = names
listed (err e) = []

-- Index and id of the segments that no file holds yet, from index `i`.
unfoldable pub unwritten : List ℕ → ℕ → List ℕ → List (ℕ × ℕ)
unwritten persisted i [] = []
unwritten persisted i (id ∷ l) =
    if contains ℕ_discrete persisted id
    then unwritten persisted (suc i) l
    else (i, id) ∷ unwritten persisted (suc i) l

abbrev pub write_outcome : Result (Unit {0}) → Result (Unit {0})
write_outcome (ok u) = ok u
write_outcome (err e) = err (size_cap_context e)

-- The manifest that `checkpoint` writes, its superseded sets in the order of segment ids.
unfoldable pub manifest_of : {Key Item Segment : Type 0} → Tables Key Item Segment → ManifestV2 Key
unfolding sort_by
manifest_of t = record {
  next_seg_id = t.next_seg_id;
  segment_ids = t.segment_ids;
  tombstones = t.tombstones;
  ext = record {
    version = manifest_ext_version;
    superseded = sort_by (λ a b. leb a.0 b.0) t.superseded;
  };
}

abbrev pub persisted_after : ℕ → Result (Unit {0}) → List ℕ → List ℕ
persisted_after id (ok u) l = set_insert ℕ_discrete id l
persisted_after id (err e) l = l

module _ {D F Key Item Segment : Type 0} (dec : Discrete Key) (store : Store Key Item Segment)
    (disk : Disk D Key Item Segment) where
  unfoldable pub check_poisoned : Exec (Writer D F Key Item Segment) (Unit {0})
  check_poisoned w = if w.poisoned then (err (invalid_state store_poisoned), w) else (ok tt, w)

  unfoldable pub seal : Exec (Writer D F Key Item Segment) (Unit {0})
  seal w = (ok tt, record w { tables = flush_buffer dec store w.tables })

  unfoldable pub sync_wal : Exec (Writer D F Key Item Segment) (Unit {0})
  sync_wal w = elim w.sync [
    | flush ↦ (let r = disk.flush w.wal w.dir in (r.0, record w { dir = r.1 }))
    | fsync ↦ (let r = disk.flush_and_sync w.wal w.dir in (r.0, record w { dir = r.1 }))
  ]

  -- `wal.append_postcard(&op)`
  unfoldable pub log : Op Key Item → Exec (Writer D F Key Item Segment) (Unit {0})
  log op w = let r = disk.append w.wal op w.dir in (r.0, record w { dir = r.1 })

  unfoldable pub persist_segment : ℕ → Segment → Exec (Writer D F Key Item Segment) (Unit {0})
  persist_segment id seg w =
      let r = disk.write_segment (disk.has_path manifest_path) (seg_path id) 0 seg w.dir in
      (
        write_outcome r.0,
        record w { dir = r.1; persisted_ids = persisted_after id r.0 w.persisted_ids },
      )

  abbrev pub put_tables : Tables Key Item Segment → Exec (Writer D F Key Item Segment) (Unit {0})
  put_tables t w = (ok tt, record w { tables = t })

  -- The rest of `merge_group` once the inputs are picked out.
  unfoldable pub merge_selected :
      List ℕ → List ℕ → List Segment → Exec (Writer D F Key Item Segment) ℕ
  unfolding persist_segment
  merge_selected indices group segs w =
      let merged = merge_output dec store w.tables group segs in
      let n = store.segment_len merged in
      if n == 0
      then (put_tables (install_merged dec store indices group none merged w.tables) >> return n) w
      else let id = w.tables.next_seg_id in
        let allocated = record w.tables { next_seg_id = suc id } in
        (put_tables allocated
            >> (persist_segment id merged
                >> (put_tables (install_merged dec store indices group (some id) merged allocated)
                    >> return n)))
          w

  -- An index out of range panics before any change.
  unfoldable pub merge_group : List ℕ → Exec (Writer D F Key Item Segment) ℕ
  unfolding merge_selected
  merge_group indices w = elim (select w.tables.segment_ids indices) [
    | none ↦ (err panicked, w)
    | some group ↦ elim (select w.tables.segments indices) [
      | none ↦ (err panicked, w)
      | some segs ↦ merge_selected indices group segs w
    ]
  ]

  unfoldable pub gc_orphan_segments :
      List ℕ → Bool → List Name → Exec (Writer D F Key Item Segment) (Unit {0})
  unfolding is_orphan
  gc_orphan_segments kept durable garbage w = (
    ok tt,
    record w {
      persisted_ids = keep (contains ℕ_discrete kept) w.persisted_ids;
      dir =
          delete_files_best_effort disk
            (garbage ++ keep (is_orphan kept) (listed (disk.list_dir w.dir))) durable w.dir;
    },
  )

  abbrev pub republish : Exec (Writer D F Key Item Segment) (Unit {0})
  republish w = (ok tt, record w { published = snapshot w.tables })

  abbrev pub write_first : ℕ → List Segment → Exec (Writer D F Key Item Segment) (Unit {0})
  write_first id [] w = (ok tt, w)
  write_first id (seg ∷ segs) w = persist_segment id seg w

  -- Step 1 of `checkpoint`, for each `(idx, id)`.
  unfoldable pub persist_all : List (ℕ × ℕ) → Exec (Writer D F Key Item Segment) (Unit {0})
  unfolding persist_segment select
  persist_all [] w = (ok tt, w)
  persist_all ((idx, id) ∷ l) w = elim (select w.tables.segments (idx ∷ [])) [
    | none ↦ (err panicked, w)
    | some segs ↦ (write_first id segs >> persist_all l) w
  ]

  -- Steps 3 to 5, past the commit point.
  unfoldable pub rotate : List ℕ → Exec (Writer D F Key Item Segment) (Unit {0})
  unfolding gc_orphan_segments
  rotate kept w =
      let new_epoch = suc w.epoch in
      (gc_orphan_segments kept (disk.has_path manifest_path) (wal_path w.epoch ∷ []) >> republish)
        (record w { wal = wal_path new_epoch; epoch = new_epoch })

  -- Steps 2 to 5.
  unfoldable pub commit : Exec (Writer D F Key Item Segment) (Unit {0})
  unfolding rotate manifest_of
  commit w =
      let kept = set_of ℕ_discrete w.tables.segment_ids in
      let t = record w.tables {
        superseded = retain ℕ_discrete (contains ℕ_discrete kept) w.tables.superseded;
      } in
      let r =
        disk.write_manifest (disk.has_path manifest_path) manifest_path (suc w.epoch)
          (manifest_of t) w.dir in
      let written = record w { tables = t; dir = r.1 } in
      elim r.0 [
        | err e ↦ (err (size_cap_context e), record written { poisoned = true })
        | ok _ ↦ rotate kept written
      ]

  unfoldable pub checkpoint : Exec (Writer D F Key Item Segment) (Unit {0})
  unfolding check_poisoned seal persist_all commit unwritten
  checkpoint =
      check_poisoned
      >> (seal
          >> (λ w. (persist_all (unwritten w.persisted_ids 0 w.tables.segment_ids) >> commit) w))
