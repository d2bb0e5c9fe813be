-- ===== src/Tests/Reopening.antt =====
-- The theorems on opening, applied to a directory with a manifest, two segments and a log.
use mathlib.Core.Path.{subst, ap, ◌∙◌}
use segstore.Base.{
  ℕ, ◌≡◌, inl, inr, true, false, List, [], ◌∷◌, some, arith, refl, ℕ_discrete, if◌then◌else◌,
}
use segstore.Base.Assoc.{get, insert, contains, set_insert, set_of, eqb, set_remove}
use segstore.Base.Result.{ok}
use segstore.Names.{Name, Name-discrete, wal_path, manifest_path, seg_path, decimal}
use segstore.Manifest.{ManifestV2, LoadedManifest, superseded_in, copy_is_live, add_superseded}
use segstore.Payload.{items_of}
use segstore.Disk.{Disk, read_manifest, reject_legacy_formats, acquire_store_lock, superseded_map}
use segstore.Tables.{Tables, Op, apply, zip}
use segstore.Tables.Live.{copies, sealed}
use segstore.Tables.Invariant.{IsValid}
use segstore.Writer.{Writer, Options, SyncPolicy, manifest_of}
use segstore.Recovery.{
  read_segments, read_log, replay, own_segments, own_ids, loaded_tables, open_with_options,
}
use segstore.Recovery.Loaded.{IsCoherent, open-Recovers}
use segstore.Recovery.Newest.{newest}
use segstore.Recovery.Replay.{history, replay-history}
use segstore.Tests.Data.{Batch, store, laws, disk, tiers, tables, empty_tables, empty-IsValid}
use segstore.Recovery.Reopened.{open-Reopens}
use segstore.Recovery.Revived.{add-Revives}

abbrev manifest : ManifestV2 ℕ
manifest = record {
  next_seg_id = 2;
  segment_ids = 0 ∷ 1 ∷ [];
  tombstones = 2 ∷ [];
  ext = record { version = 1; superseded = (0, 2 ∷ []) ∷ [] };
}

abbrev segments : List (ℕ × Batch)
segments = (0, (1, 10) ∷ (2, 20) ∷ []) ∷ (1, (1, 11) ∷ (3, 30) ∷ []) ∷ []

abbrev log : List (Op ℕ ℕ)
log = Op.add 4 40 ∷ Op.delete 3 ∷ []

abbrev directory : ManifestV2 ℕ → Disk (List Name) ℕ ℕ Batch
directory m = record {
  has_path = disk.has_path;
  exists = disk.exists;
  delete = disk.delete;
  list_dir = disk.list_dir;
  durable_sync_parent_dir = disk.durable_sync_parent_dir;
  read_manifest_v2 = λ d name. ok (3, m);
  read_manifest_v1 = disk.read_manifest_v1;
  read_segment = λ d name. ok (
    0,
    if eqb Name-discrete name (seg_path 0) then (1, 10) ∷ (2, 20) ∷ [] else (1, 11) ∷ (3, 30) ∷ [],
  );
  write_manifest = disk.write_manifest;
  write_segment = disk.write_segment;
  append = disk.append;
  flush = disk.flush;
  flush_and_sync = disk.flush_and_sync;
  read_all = λ d name. ok log;
  try_lock = disk.try_lock;
}

abbrev options : Options ℕ
options = record {
  flush_threshold = 2;
  sync = SyncPolicy.fsync;
  tiering = tiers;
  auto_compact = true;
}

abbrev files : List Name
files = manifest_path ∷ wal_path 3 ∷ seg_path 0 ∷ seg_path 1 ∷ []

abbrev loaded : LoadedManifest ℕ
loaded = record {
  has_ownership_metadata = true;
  epoch = 3;
  next_seg_id = 2;
  segment_ids = 0 ∷ 1 ∷ [];
  tombstones = 2 ∷ [];
  superseded = (0, 2 ∷ []) ∷ [];
}

found : read_manifest (directory manifest) ℕ_discrete files ≡ ok (some loaded)
unfolding ℕ_discrete Name-discrete read_manifest superseded_map contains set_of set_insert insert
    get
found = refl

read : (m : ManifestV2 ℕ) → read_segments (directory m) files (0 ∷ 1 ∷ []) ≡ ok segments
unfolding read_segments ℕ_discrete Name-discrete seg_path decimal
read m = refl

logged : (m : ManifestV2 ℕ) → read_log (directory m) files (wal_path 3) ≡ ok log
unfolding read_log contains ℕ_discrete Name-discrete wal_path decimal
logged m = refl

modern : (m : ManifestV2 ℕ) → reject_legacy_formats (directory m) files ≡ ok tt
unfolding contains ℕ_discrete Name-discrete wal_path seg_path
modern m = refl

locked : (m : ManifestV2 ℕ) → acquire_store_lock (directory m) files ≡ (ok true, files)
locked m = refl

loaded-IsCoherent : IsCoherent ℕ_discrete (laws.entries) loaded segments
unfolding superseded_in get contains items_of copy_is_live
loaded-IsCoherent = record {
  ascending = omega arith;
  fresh = λ s j h. ground (arith, h, ℕ_discrete 0 s);
  accounted = λ j. (elim (ℕ_discrete 2 j) [
    | yes same ↦ (
      inr (inl (ground (arith, ℕ_discrete 2 j, same))),
      (inr (inr (ground (arith, same, ℕ_discrete 1 j, ℕ_discrete 3 j))), tt),
    )
    | no differ ↦ (inl (ground (arith, differ)), (inl (ground (arith, differ)), tt))
  ]);
  once = λ j. (
    λ live. ground (arith, ℕ_discrete 1 j, ℕ_discrete 2 j),
    (λ live. ground (arith, ℕ_discrete 1 j, ℕ_discrete 3 j), tt),
  );
}

open-Recovers_example :
    (w : Writer (List Name) ℕ ℕ ℕ Batch) × (open_with_options ℕ_discrete store
        (directory manifest)
        options
        files
      ≡ ok w)
    × IsValid ℕ_discrete (laws.entries) w.tables
    × ((j : ℕ)
        → copies ℕ_discrete (laws.entries) w.tables j
          ≡ history ℕ_discrete log j
              (newest ℕ_discrete (laws.entries) loaded.tombstones loaded.superseded segments j))
open-Recovers_example =
    open-Recovers ℕ_discrete store laws (directory manifest) options files files true (some loaded)
      segments log refl (modern manifest) (locked manifest) found (read manifest) (logged manifest)
      loaded-IsCoherent

-- The state of Tests/Data without its buffered item.
abbrev unbuffered : Tables ℕ ℕ Batch
unbuffered = record tables { buffer = []; buffer_ids = [] }

abbrev writes : List (Op ℕ ℕ)
writes = Op.add 1 10 ∷ Op.add 2 20 ∷ Op.add 1 11 ∷ Op.add 3 30 ∷ Op.delete 2 ∷ []

replay-writes : replay ℕ_discrete store 2 writes empty_tables ≡ unbuffered
unfolding replay ℕ_discrete contains get set_insert insert set_remove add_superseded
replay-writes = refl

unbuffered-IsValid : IsValid ℕ_discrete (laws.entries) unbuffered
unbuffered-IsValid =
    subst (IsValid ℕ_discrete (laws.entries)) replay-writes
      (replay-history ℕ_discrete store laws 2 writes empty_tables empty-IsValid).0

sealed_pairs : segments ≡ sealed ℕ_discrete (laws.entries) unbuffered
unfolding zip
sealed_pairs = refl

open-Reopens_example :
    (w : Writer (List Name) ℕ ℕ ℕ Batch) × (open_with_options ℕ_discrete store
        (directory (manifest_of unbuffered))
        options
        files
      ≡ ok w)
    × IsValid ℕ_discrete (laws.entries) w.tables
    × ((j : ℕ)
        → copies ℕ_discrete (laws.entries) w.tables j
          ≡ history ℕ_discrete log j (copies ℕ_discrete (laws.entries) unbuffered j))
unfolding contains Name-discrete ℕ_discrete
open-Reopens_example =
    open-Reopens ℕ_discrete store laws (directory (manifest_of unbuffered)) options files files true
      3 unbuffered log refl (modern (manifest_of unbuffered)) (locked (manifest_of unbuffered)) refl
      refl (read (manifest_of unbuffered) ∙ ap ok sealed_pairs) (logged (manifest_of unbuffered))
      unbuffered-IsValid refl (refl, tt)

-- A manifest of the old layout.
abbrev legacy : LoadedManifest ℕ
legacy = record loaded { has_ownership_metadata = false; superseded = [] }

owned :
    own_segments ℕ_discrete store legacy.tombstones segments [] legacy.superseded
    ≡ ok (some ((3, 1) ∷ (1, 1) ∷ []), (0, 1 ∷ []) ∷ [])
unfolding own_segments own_ids copy_is_live superseded_in contains get insert add_superseded
    set_insert ℕ_discrete
owned = refl

add-Revives_example :
    copies ℕ_discrete
      (laws.entries)
      (apply ℕ_discrete (Op.add 2 21) (
        loaded_tables ℕ_discrete store disk options legacy segments
          (some ((3, 1) ∷ (1, 1) ∷ []))
          ((0, 1 ∷ []) ∷ [])))
      2
    ≡ 20 ∷ 21 ∷ []
unfolding items_of ℕ_discrete
add-Revives_example =
    add-Revives ℕ_discrete store laws disk options legacy segments ((3, 1) ∷ (1, 1) ∷ [])
      ((0, 1 ∷ []) ∷ []) 2 21 (unfold contains ℕ_discrete in refl) refl owned
