-- ===== src/Disk.antt =====
-- What src/lib.rs asks of `durability`: the `Directory` that backs a store, and the typed reads and
-- writes of `CheckpointFile` and `RecordLogWriter` on it. They are the parameter `Disk` of every
-- definition that calls them. The helpers of src/lib.rs over them are in this file.
use segstore.Base.{
  ℕ, Bool, true, false, not, ◌&&◌, ◌||◌, List, [], ◌∷◌, Option, none, some, if◌then◌else◌, ◌==◌,
  ℕ_discrete,
}
use segstore.Base.Assoc.{set_of, insert}
use segstore.Base.Result.{
  Result, ok, err, Error, format, invalid_config, payload_too_large, over_blob_limit, legacy_wal,
  legacy_checkpoint, decode, lock_failed, unsupported_manifest_extension, ◌>>=◌, ◌>>◌, guard, is_ok,
}
use segstore.Names.{Name, legacy_wal_path, legacy_ckpt_path, manifest_path, lock_path}
use segstore.Manifest.{Manifest, ManifestV2, LoadedManifest, manifest_ext_version}
use segstore.Tables.{Op}

-- `D` is the state of the directory with the logs that are open on it. A call that fails may have
-- changed it.
pub record Disk (D Key Item Segment : Type 0) : Type 0 where
  -- whether `file_path(name)` is `Some`, and whether a file is there
  pub has_path : Name → Bool
  pub exists : D → Name → Bool
  pub delete : Name → D → Result (Unit {0}) × D
  pub list_dir : D → Result (List Name)
  pub durable_sync_parent_dir : Name → D → Result (Unit {0}) × D
  -- `read_postcard` at the two manifest layouts and at a segment
  pub read_manifest_v2 : D → Name → Result (ℕ × ManifestV2 Key)
  pub read_manifest_v1 : D → Name → Result (ℕ × Manifest Key)
  pub read_segment : D → Name → Result (ℕ × Segment)
  -- `write_postcard_durable`, or `write_postcard` when the flag is false
  pub write_manifest : Bool → Name → ℕ → ManifestV2 Key → D → Result (Unit {0}) × D
  pub write_segment : Bool → Name → ℕ → Segment → D → Result (Unit {0}) × D
  -- `RecordLogWriter` on a path, and `read_all_postcard`
  pub append : Name → Op Key Item → D → Result (Unit {0}) × D
  pub flush : Name → D → Result (Unit {0}) × D
  pub flush_and_sync : Name → D → Result (Unit {0}) × D
  pub read_all : D → Name → Result (List (Op Key Item))
  -- create and open the lock file, and `try_lock_exclusive`
  pub try_lock : Name → D → Result Bool × D

-- Which errors `size_cap_context` adds its text to.
abbrev pub size_cap_context : Error → Error
size_cap_context (format payload_too_large) = format (over_blob_limit payload_too_large)
size_cap_context (format (over_blob_limit m)) = format (over_blob_limit (over_blob_limit m))
size_cap_context e = e

module _ {D Key Item Segment : Type 0} (disk : Disk D Key Item Segment) where
  abbrev pub reject_legacy_formats : D → Result (Unit {0})
  reject_legacy_formats d = do
    guard (not (disk.exists d legacy_wal_path)) (invalid_config legacy_wal)
    guard (not (disk.exists d legacy_ckpt_path && not (disk.exists d manifest_path)))
        (invalid_config legacy_checkpoint)

  -- The lock that was taken, if the backend has files.
  abbrev pub lock_outcome : Result Bool → Result Bool
  lock_outcome (err e) = err e
  lock_outcome (ok true) = ok true
  lock_outcome (ok false) = err lock_failed

  abbrev pub acquire_store_lock : D → Result Bool × D
  acquire_store_lock d =
      if disk.has_path lock_path
      then (let r = disk.try_lock lock_path d in (lock_outcome r.0, r.1))
      else (ok false, d)

  -- The loop: whether a file was deleted.
  unfoldable pub delete_all : List Name → Bool → D → Bool × D
  delete_all [] deleted d = (deleted, d)
  delete_all (name ∷ names) deleted d =
      if disk.exists d name
      then (let r = disk.delete name d in delete_all names (deleted || is_ok r.0) r.1)
      else delete_all names deleted d

  unfoldable pub delete_files_best_effort : List Name → Bool → D → D
  unfolding delete_all
  delete_files_best_effort names durable d =
      let r = delete_all names false d in
      if durable && r.0 then (disk.durable_sync_parent_dir manifest_path r.1).1 else r.1

  module _ (dec : Discrete Key) where
    -- `collect` of the pairs into a `HashMap` of sets: a later pair replaces an earlier one.
    unfoldable pub superseded_map : List (ℕ × List Key) → List (ℕ × List Key) → List (ℕ × List Key)
    superseded_map [] m = m
    superseded_map ((seg, l) ∷ ps) m = superseded_map ps (insert ℕ_discrete seg (set_of dec l) m)

    abbrev pub load_v2 : ℕ × ManifestV2 Key → Result (Option (LoadedManifest Key))
    load_v2 (epoch, m) =
        if m.ext.version == manifest_ext_version
        then ok (
            some (record {
              has_ownership_metadata = true;
              epoch = epoch;
              next_seg_id = m.next_seg_id;
              segment_ids = m.segment_ids;
              tombstones = set_of dec m.tombstones;
              superseded = superseded_map m.ext.superseded [];
            }))
        else err (format unsupported_manifest_extension)

    abbrev pub load_v1 : ℕ × Manifest Key → Result (Option (LoadedManifest Key))
    load_v1 (epoch, m) = ok (
        some (record {
          has_ownership_metadata = false;
          epoch = epoch;
          next_seg_id = m.next_seg_id;
          segment_ids = m.segment_ids;
          tombstones = set_of dec m.tombstones;
          superseded = [];
        }))

    abbrev pub load_manifest :
        D → Result (ℕ × ManifestV2 Key) → Result (Option (LoadedManifest Key))
    load_manifest d (ok m) = load_v2 m
    load_manifest d (err decode) = disk.read_manifest_v1 d manifest_path >>= load_v1
    load_manifest d (err e) = err e

    unfoldable pub read_manifest : D → Result (Option (LoadedManifest Key))
    unfolding superseded_map
    read_manifest d =
        if disk.exists d manifest_path
        then load_manifest d (disk.read_manifest_v2 d manifest_path)
        else ok none
