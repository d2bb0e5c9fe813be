-- ===== src/Recovery.antt =====
-- `open_with_options` of src/lib.rs: load the manifest and its segments, find the owners, collect the
-- crash leftovers, and replay the log.
pub mod Replay
pub mod Garbage
pub mod Owners
pub mod Opening
pub mod Returning
pub mod Newest
pub mod Loaded
pub mod Committed
pub mod Reopened
pub mod Revived
use segstore.Base.{
  ℕ, zero, suc, Bool, true, false, not, ◌&&◌, ◌||◌, List, [], ◌∷◌, ◌++◌, map, Option, none, some,
  if◌then◌else◌, leb, length, ℕ_discrete, keep, ◌==◌,
}
use segstore.Base.Assoc.{contains, get, insert, set_of}
use segstore.Base.Result.{
  Result, ok, err, Error, format, invalid_config, duplicate_live_id, fsync_needs_filesystem, ◌>>=◌,
  ◌>>◌, guard,
}
use segstore.Names.{
  Name, wal_path, seg_path, manifest_path, wal_prefix, seg_prefix, strip_prefix, strip_tmp,
  parse_u64, idx_seg_id,
}
use segstore.Payload.{Store}
use segstore.Manifest.{LoadedManifest, copy_is_live, add_superseded}
use segstore.Disk.{
  Disk, reject_legacy_formats, acquire_store_lock, read_manifest, delete_files_best_effort,
}
use segstore.Tables.{Tables, Op, apply, flush_buffer}
use segstore.Tiers.{Float}
use segstore.Writer.{Writer, Options, SyncPolicy, PubState, snapshot, id_after, listed}

-- The state before a manifest is found.
abbrev pub fresh_manifest : {Key : Type 0} → LoadedManifest Key
fresh_manifest = record {
  has_ownership_metadata = true;
  epoch = 0;
  next_seg_id = 0;
  segment_ids = [];
  tombstones = [];
  superseded = [];
}

abbrev pub or_fresh : {Key : Type 0} → Option (LoadedManifest Key) → LoadedManifest Key
or_fresh none = fresh_manifest
or_fresh (some m) = m

abbrev pub is_fsync : SyncPolicy → Bool
is_fsync SyncPolicy.flush = false
is_fsync SyncPolicy.fsync = true

-- Whether opening at `epoch` with the segments `kept` collects a file.
unfoldable pub is_leftover : ℕ → List ℕ → Name → Bool
is_leftover epoch kept name = elim (id_after wal_prefix name) [
  | some k ↦ not (k == epoch)
  | none ↦
      if elim (strip_prefix seg_prefix name) [
        | none ↦ false
        | some s ↦ elim (strip_tmp s) [
          | none ↦ false
          | some n ↦ elim (parse_u64 n) [ none ↦ false | some _ ↦ true ]
        ]
      ]
      then true
      else elim (id_after seg_prefix name) [
        | some k ↦ not (contains ℕ_discrete kept k)
        | none ↦ elim (idx_seg_id name) [ some k ↦ not (contains ℕ_discrete kept k) | none ↦ false ]
      ]
]

module _ {Key Item Segment : Type 0} (dec : Discrete Key) (store : Store Key Item Segment) where
  -- The loop over the ids of one segment, on the owners and the superseded copies.
  unfoldable pub own_ids :
      List Key
      → ℕ
      → List Key
      → List (Key × ℕ)
      → List (ℕ × List Key)
      → Result (List (Key × ℕ) × List (ℕ × List Key))
  unfolding add_superseded
  own_ids ts seg [] owners sup = ok (owners, sup)
  own_ids ts seg (id ∷ l) owners sup =
      if copy_is_live dec ts sup seg id
      then elim (get dec owners id) [
        | none ↦ own_ids ts seg l (insert dec id seg owners) sup
        | some older ↦
            if older == seg
            then err (format (duplicate_live_id seg))
            else own_ids ts seg l (insert dec id seg owners) (add_superseded dec older id sup)
      ]
      else own_ids ts seg l owners sup

  -- The loop over the segments. A segment that cannot list its ids ends it with no owners.
  unfoldable pub own_segments :
      List Key
      → List (ℕ × Segment)
      → List (Key × ℕ)
      → List (ℕ × List Key)
      → Result (Option (List (Key × ℕ)) × List (ℕ × List Key))
  unfolding own_ids
  own_segments ts [] owners sup = ok (some owners, sup)
  own_segments ts ((seg_id, seg) ∷ segs) owners sup = elim (store.item_ids seg) [
    | none ↦ ok (none, sup)
    | some l ↦ own_ids ts seg_id l owners sup >>= λ r. own_segments ts segs r.0 r.1
  ]

  -- One step of the replay.
  unfoldable pub replay_one : ℕ → Op Key Item → Tables Key Item Segment → Tables Key Item Segment
  unfolding apply flush_buffer
  replay_one threshold op t =
      let t' = apply dec op t in
      if leb threshold (length t'.buffer) then flush_buffer dec store t' else t'

  unfoldable pub replay : ℕ → List (Op Key Item) → Tables Key Item Segment → Tables Key Item Segment
  unfolding replay_one
  replay threshold [] t = t
  replay threshold (op ∷ ops) t = replay threshold ops (replay_one threshold op t)

module _ {D Key Item Segment : Type 0} (disk : Disk D Key Item Segment) where
  unfoldable pub read_segments : D → List ℕ → Result (List (ℕ × Segment))
  read_segments d [] = ok []
  read_segments d (id ∷ l) =
      disk.read_segment d (seg_path id) >>= λ r. read_segments d l >>= λ rest. ok ((id, r.1) ∷ rest)

  unfoldable pub read_log : D → Name → Result (List (Op Key Item))
  read_log d name = if disk.exists d name then disk.read_all d name else ok []

  unfoldable pub collect_leftovers : ℕ → List ℕ → D → D
  unfolding is_leftover delete_files_best_effort
  collect_leftovers epoch kept d =
      delete_files_best_effort disk (keep (is_leftover epoch kept) (listed (disk.list_dir d)))
        (disk.has_path manifest_path) d

module _ {D F Key Item Segment : Type 0} (dec : Discrete Key) (store : Store Key Item Segment)
    (disk : Disk D Key Item Segment) (opts : Options F) where
  -- The tables as the last checkpoint left them.
  abbrev pub loaded_tables :
      LoadedManifest Key
      → List (ℕ × Segment)
      → Option (List (Key × ℕ))
      → List (ℕ × List Key)
      → Tables Key Item Segment
  loaded_tables m segs owners sup = record {
    buffer = [];
    segments = map (λ p. p.1) segs;
    tombstones = m.tombstones;
    buffer_ids = [];
    superseded = sup;
    owners = owners;
    segment_ids = map (λ p. p.0) segs;
    next_seg_id = m.next_seg_id;
  }

  abbrev pub recovered :
      LoadedManifest Key
      → Bool
      → Tables Key Item Segment
      → List (Op Key Item)
      → D
      → Writer D F Key Item Segment
  recovered m lock t ops d =
      let kept = set_of ℕ_discrete t.segment_ids in
      record {
        tables = replay dec store opts.flush_threshold ops t;
        dir = collect_leftovers disk m.epoch kept d;
        published = snapshot t;
        wal = wal_path m.epoch;
        epoch = m.epoch;
        sync = opts.sync;
        flush_threshold = opts.flush_threshold;
        tiering = opts.tiering;
        auto_compact = opts.auto_compact;
        persisted_ids = kept;
        poisoned = false;
        lock = lock;
      }

  unfoldable pub load : Bool → D → Result (Writer D F Key Item Segment)
  unfolding read_manifest read_segments own_segments read_log replay collect_leftovers
  load lock d = do
    found ← read_manifest disk dec d
    segs ← read_segments disk d (or_fresh found).segment_ids
    own ← own_segments dec store (or_fresh found).tombstones segs [] (or_fresh found).superseded
    ops ← read_log disk d (wal_path (or_fresh found).epoch)
    ok (recovered (or_fresh found) lock (loaded_tables (or_fresh found) segs own.0 own.1) ops d)

  -- What `D` is after a failed open is of no use to the store; the lock falls with it.
  unfoldable pub open_with_options : D → Result (Writer D F Key Item Segment)
  unfolding load
  open_with_options d =
      guard (not (is_fsync opts.sync && not (disk.has_path manifest_path)))
        (invalid_config fsync_needs_filesystem)
      >> (reject_legacy_formats disk d
          >> (let r = acquire_store_lock disk d in r.0 >>= λ lock. load lock r.1))
