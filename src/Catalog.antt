-- ===== src/Catalog.antt =====
-- The read side of src/lib.rs: `SegmentCatalog`, `View` and `Reader`.
-- `binary_search` on a sorted vector tells whether the element is there.
pub mod Reading
use segstore.Base.{
  ℕ, Bool, true, false, not, ◌&&◌, List, [], ◌∷◌, Option, none, some, if◌then◌else◌, keep, length,
  is_empty, ℕ_discrete, suc, ◌==◌, get_elem?,
}
use segstore.Base.Assoc.{contains, eqb}
use segstore.Base.Result.{
  Result, ok, err, format, not_found, no_ownership_metadata, unknown_segment, panicked, and_then,
  ◌>>=◌, ◌>>◌, guard, or_panic,
}
use segstore.LiveIds.{LiveIds}
unfoldable use segstore.LiveIds.{live_ids_new}
use segstore.Names.{Name, seg_path, index_sidecar_name}
use segstore.Manifest.{LoadedManifest, copy_is_live}
use segstore.Payload.{Store}
use segstore.Tables.{Tables}
use segstore.Directory.{Directory}
use segstore.Blob.{SegmentPayloadInfo, read_checkpoint_payload, read_checkpoint_payload_info}
unfoldable use segstore.Blob.{read_checkpoint_payload_into}
use segstore.Disk.{Disk, reject_legacy_formats, read_manifest}
use segstore.Writer.{Writer, PubState}
use segstore.Recovery.{or_fresh}

pub record SegmentCatalog (D Key : Type 0) : Type 0 where
  pub dir : D
  pub epoch : ℕ
  pub next_segment_id : ℕ
  pub segment_ids : List ℕ
  pub tombstones : List Key
  pub superseded : List (ℕ × List Key)

pub record View (D Key Segment : Type 0) : Type 0 where
  pub segments : List Segment
  pub segment_ids : List ℕ
  pub tombstones : List Key
  pub superseded : List (ℕ × List Key)
  pub dir : D

abbrev pub binary_search : List ℕ → ℕ → Bool
binary_search l id = contains ℕ_discrete l id

module _ {D Key Item Segment : Type 0} (disk : Disk D Key Item Segment) (dec : Discrete Key) where
  abbrev pub catalog_of : D → LoadedManifest Key → SegmentCatalog D Key
  catalog_of d m = record {
    dir = d;
    epoch = m.epoch;
    next_segment_id = m.next_seg_id;
    segment_ids = m.segment_ids;
    tombstones = m.tombstones;
    superseded = m.superseded;
  }

  unfoldable pub catalog_open : D → Result (SegmentCatalog D Key)
  unfolding read_manifest
  catalog_open d = do
    reject_legacy_formats disk d
    found ← read_manifest disk dec d
    guard
        (not (
          not (or_fresh found).has_ownership_metadata
          && not (is_empty (or_fresh found).segment_ids)))
        (format no_ownership_metadata)
    ok (catalog_of d (or_fresh found))

  unfoldable pub read_catalog_segment : SegmentCatalog D Key → ℕ → Result Segment
  read_catalog_segment c id =
      guard (binary_search c.segment_ids id) (not_found (unknown_segment id))
      >> (disk.read_segment c.dir (seg_path id) >>= λ r. ok r.1)

module _ {D Key : Type 0} (dec : Discrete Key) where
  unfoldable pub ensure_segment_id : SegmentCatalog D Key → ℕ → Result (Unit {0})
  ensure_segment_id c id = guard (binary_search c.segment_ids id) (not_found (unknown_segment id))

  unfoldable pub segment_name : SegmentCatalog D Key → ℕ → Result Name
  unfolding ensure_segment_id
  segment_name c id = ensure_segment_id c id >> ok (seg_path id)

  unfoldable pub catalog_index_name : SegmentCatalog D Key → ℕ → Name → Result Name
  unfolding ensure_segment_id
  catalog_index_name c id kind = ensure_segment_id c id >> index_sidecar_name id kind

  abbrev pub catalog_index_name_or_panic : SegmentCatalog D Key → ℕ → Name → Result Name
  catalog_index_name_or_panic c id kind = or_panic (catalog_index_name c id kind)

  abbrev pub catalog_is_live : SegmentCatalog D Key → Key → Bool
  catalog_is_live c id = not (contains dec c.tombstones id)

  abbrev pub catalog_is_live_in : SegmentCatalog D Key → ℕ → Key → Bool
  catalog_is_live_in c = copy_is_live dec c.tombstones c.superseded

  unfoldable pub catalog_live_ids :
      (Key → Key → Bool) → SegmentCatalog D Key → ℕ → List Key → LiveIds Key
  unfolding live_ids_new
  catalog_live_ids le c segment_id l =
      live_ids_new dec le (keep (catalog_is_live_in c segment_id) l)

abbrev pub catalog_segment_count : {D Key : Type 0} → SegmentCatalog D Key → ℕ
catalog_segment_count c = length c.segment_ids

abbrev pub catalog_tombstone_count : {D Key : Type 0} → SegmentCatalog D Key → ℕ
catalog_tombstone_count c = length c.tombstones

-- The readers of one segment's file. An open file is the bytes that it yields.
module _ {D Key FilePath : Type 0} (dec : Discrete Key) (dir : Directory D (List ℕ) FilePath)
    (max_payload : ℕ) (crc : List ℕ → ℕ) where
  unfoldable pub segment_file_path : SegmentCatalog D Key → ℕ → Result (Option FilePath)
  unfolding segment_name
  segment_file_path c id = segment_name dec c id >>= λ name. ok (dir.file_path name)

  unfoldable pub open_segment_file : SegmentCatalog D Key → ℕ → Result (List ℕ)
  unfolding segment_name
  open_segment_file c id = segment_name dec c id >>= λ name. dir.open_file c.dir name

  unfoldable pub segment_payload_info : SegmentCatalog D Key → ℕ → Result SegmentPayloadInfo
  unfolding segment_name
  segment_payload_info c id = segment_name dec c id >>= λ name.
      read_checkpoint_payload_info max_payload crc (dir.open_file c.dir name)

  unfoldable pub read_segment_payload : SegmentCatalog D Key → ℕ → Result (List ℕ)
  unfolding segment_name
  read_segment_payload c id = segment_name dec c id >>= λ name.
      read_checkpoint_payload max_payload crc (dir.open_file c.dir name)

  -- An unknown segment leaves the buffer as it is.
  unfoldable pub read_segment_payload_into :
      SegmentCatalog D Key → ℕ → List ℕ → Result (Unit {0}) × List ℕ
  unfolding segment_name read_checkpoint_payload_into
  read_segment_payload_into c id payload = elim (segment_name dec c id) [
    | ok name ↦ read_checkpoint_payload_into max_payload crc (dir.open_file c.dir name) payload
    | err e ↦ (err e, payload)
  ]

module _ {D F Key Item Segment : Type 0} where
  -- `Reader::view` of the writer's reader.
  abbrev pub view : Writer D F Key Item Segment → View D Key Segment
  view w = record {
    segments = w.published.segments;
    segment_ids = w.published.segment_ids;
    tombstones = w.published.tombstones;
    superseded = w.published.superseded;
    dir = w.dir;
  }

module _ {D Key Segment : Type 0} (dec : Discrete Key) where
  unfoldable pub view_index_name : View D Key Segment → ℕ → Name → Result Name
  view_index_name v id kind =
      guard (binary_search v.segment_ids id) (not_found (unknown_segment id))
      >> index_sidecar_name id kind

  abbrev pub view_index_name_or_panic : View D Key Segment → ℕ → Name → Result Name
  view_index_name_or_panic v id kind = or_panic (view_index_name v id kind)

  abbrev pub view_is_live_in : View D Key Segment → ℕ → Key → Bool
  view_is_live_in v = copy_is_live dec v.tombstones v.superseded

  abbrev pub view_is_live : View D Key Segment → Key → Bool
  view_is_live v id = not (contains dec v.tombstones id)

  unfoldable pub view_live_ids :
      (Key → Key → Bool) → View D Key Segment → ℕ → List Key → LiveIds Key
  unfolding live_ids_new
  view_live_ids le v segment_id l = live_ids_new dec le (keep (view_is_live_in v segment_id) l)

abbrev pub view_segment_count : {D Key Segment : Type 0} → View D Key Segment → ℕ
view_segment_count v = length v.segments
