-- ===== src/Tests/Formats.antt =====
-- The theorems on names, selections, envelopes, payloads and catalogs, applied to small data.
use segstore.Base.{
  ℕ, ◌%◌, ◌^◌, ◌≡◌, false, not, ◌&&◌, List, [], ◌∷◌, ◌++◌, some, length, arith, refl, sort_by, leb,
  ◌==◌, ℕ_discrete,
}
use segstore.Base.Assoc.{contains}
use segstore.Base.Result.{ok}
use segstore.Names.{
  Name, bytes, wal_path, seg_path, manifest_path, lock_path, index_sidecar_name, idx_seg_id,
  decimal,
}
use segstore.Tiers.{next_members, eligible, first_group, bucket, join, choose}
use segstore.Tiers.Choice.{next_members-Chosen, Chosen, Candidate}
use segstore.Writer.{is_orphan}
use segstore.Recovery.{is_leftover}
use segstore.Recovery.Garbage.{is_leftover-exact, is_orphan-exact}
use segstore.Names.RoundTrip.{idx_seg_id-index_sidecar_name}
use segstore.Envelope.{encode, decode}
use segstore.Envelope.RoundTrip.{decode-encode}
use segstore.Blob.{read_checkpoint_payload_into}
use segstore.Blob.Checked.{Checked, read_checkpoint_payload_into-Checked}
use segstore.Catalog.{SegmentCatalog, catalog_live_ids, catalog_is_live_in}
use segstore.Catalog.Reading.{contains-catalog_live_ids}
use segstore.Tests.Data.{halves, tiers, both}

abbrev sizes : List ℕ
sizes = 5 ∷ 90 ∷ 4 ∷ []

chosen_sizes : next_members halves tiers 2 sizes ≡ some ((4, 2) ∷ (5, 0) ∷ [])
unfolding next_members eligible first_group sort_by bucket join choose
chosen_sizes = refl

next_members-Chosen_example :
    Chosen halves tiers (Candidate halves tiers sizes) 2 ((4, 2) ∷ (5, 0) ∷ [])
next_members-Chosen_example =
    next_members-Chosen halves tiers 2 sizes ((4, 2) ∷ (5, 0) ∷ []) chosen_sizes

abbrev hnsw_name : Name
hnsw_name = bytes "segstore.idx.7.hnsw"

named : index_sidecar_name 7 (bytes "hnsw") ≡ ok hnsw_name
unfolding index_sidecar_name decimal
named = refl

idx_seg_id-index_sidecar_name_example : idx_seg_id hnsw_name ≡ some 7
idx_seg_id-index_sidecar_name_example =
    idx_seg_id-index_sidecar_name 7 (bytes "hnsw") hnsw_name (omega arith) named

is_leftover-exact_example :
    (is_leftover 3 both manifest_path ≡ false)
    × (is_leftover 3 both lock_path ≡ false)
    × (is_leftover 3 both (wal_path 7) ≡ not (7 == 3))
    × (is_leftover 3 both (seg_path 7) ≡ not (contains ℕ_discrete both 7))
    × (is_leftover 3 both hnsw_name ≡ not (contains ℕ_discrete both 7))
is_leftover-exact_example = is_leftover-exact 3 7 both (bytes "hnsw") hnsw_name (omega arith) named

is_orphan-exact_example :
    (is_orphan both manifest_path ≡ false)
    × (is_orphan both lock_path ≡ false)
    × (is_orphan both (seg_path 7) ≡ not (contains ℕ_discrete both 7))
    × (is_orphan both hnsw_name ≡ not (contains ℕ_discrete both 7))
is_orphan-exact_example = is_orphan-exact 7 both (bytes "hnsw") hnsw_name (omega arith) named

-- A checksum for the tests: the length.
abbrev toy_crc : List ℕ → ℕ
toy_crc l = length l % 2 ^ 32

decode-encode_example :
    (bytes' : List ℕ) × (encode toy_crc (bytes "SIDECAR1") 1 7 (1 ∷ 2 ∷ []) (9 ∷ 8 ∷ [])
      ≡ ok bytes')
    × (decode toy_crc (bytes "SIDECAR1") 1 7 (1 ∷ 2 ∷ []) bytes' ≡ ok (9 ∷ 8 ∷ []))
decode-encode_example =
    decode-encode toy_crc (λ l. omega arith) (bytes "SIDECAR1") 1 7 (1 ∷ 2 ∷ []) (9 ∷ 8 ∷ []) refl
      (omega arith) (omega arith) (omega arith)

abbrev blob : List ℕ
blob =
    bytes "VCKP"
    ++ (1 ∷ 0 ∷ 0 ∷ 0 ∷ 0 ∷ 0 ∷ 0 ∷ 0 ∷ 0 ∷ 0 ∷ 0 ∷ 0 ∷ 2 ∷ 0 ∷ 0 ∷ 0 ∷ 0 ∷ 0 ∷ 0 ∷ 0 ∷ 2 ∷ 0 ∷ 0
        ∷ 0 ∷ 5 ∷ 6 ∷ [])

read_checkpoint_payload_into-Checked_example :
    Checked 1000 toy_crc
      (ok blob)
      (7 ∷ [])
      (read_checkpoint_payload_into 1000 toy_crc (ok blob) (7 ∷ []))
read_checkpoint_payload_into-Checked_example =
    read_checkpoint_payload_into-Checked 1000 toy_crc (ok blob) (7 ∷ [])

-- Without a header the buffer keeps its byte.
headless : (read_checkpoint_payload_into 1000 toy_crc (ok (1 ∷ 2 ∷ [])) (7 ∷ [])).1 ≡ 7 ∷ []
unfolding read_checkpoint_payload_into
headless = refl

abbrev catalog : SegmentCatalog (List Name) ℕ
catalog = record {
  dir = [];
  epoch = 3;
  next_segment_id = 2;
  segment_ids = both;
  tombstones = 2 ∷ [];
  superseded = (0, 2 ∷ 1 ∷ []) ∷ [];
}

contains-catalog_live_ids_example :
    contains ℕ_discrete (catalog_live_ids ℕ_discrete leb catalog 1 (3 ∷ 1 ∷ [])) 3
    ≡ (catalog_is_live_in ℕ_discrete catalog 1 3 && contains ℕ_discrete (3 ∷ 1 ∷ []) 3)
contains-catalog_live_ids_example =
    contains-catalog_live_ids ℕ_discrete leb catalog 1 (3 ∷ 1 ∷ []) 3
