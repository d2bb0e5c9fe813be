-- ===== src/Lib.antt =====
-- segstore: a durable, segmented, mutable store. Writes go to a write-ahead log and a buffer, full
-- buffers become immutable segments, compactions merge segments, and a checkpoint commits a manifest
-- that names the segment files. All of it is the crate in src/lib.rs, with caches in src/sidecar.rs.
--
-- Base: lists, tests on numbers, `HashSet` and `HashMap` as lists, and the two shapes of fallible
--   code, `Result` and `Exec` (a method on its object, which keeps what was written before an error).
-- Names: the file names, `wal_path`, `seg_path`, `idx_seg_id`, `index_sidecar_name`, with `format!`
--   and `parse::<u64>` of numbers in Names/Decimal.
-- Payload: the trait `Store` as a record, with the laws that its documentation states, and
--   `DefaultStore` with an instance of them.
-- Manifest: the manifest layouts and `copy_is_live`.
-- Tables: the fields of `SegmentedStore` that live in memory, and the methods that touch only them:
--   `apply`, `supersede_sealed_copy`, `flush_buffer`, and `merge_group` before and after its write.
--   Live defines the live copies that a reader finds, Invariant the valid states; the others prove.
-- Disk: the parameter for `durability` (a directory, its checkpoint files and its logs), with
--   `read_manifest`, `delete_files_best_effort`, `acquire_store_lock` and the other helpers over it.
--   Nothing is assumed of a directory but where a theorem says so.
-- Tiers: `next_merge_group`. The `f64` operations are a parameter of which nothing is assumed.
-- Writer: the store with its directory: `persist_segment`, `merge_group`, `checkpoint`.
-- Compaction: `compact`, `compact_tiers`, `force_merge_to`, `reclaim_tombstones`.
-- Ingest: `add`, `extend`, `delete`.
-- Recovery: `open_with_options`: loading, ownership, garbage collection, replay. Owners, Opening,
--   Returning and Newest follow the loop that finds the owners, Committed the manifest from
--   `checkpoint` to `read_manifest`, Loaded, Reopened and Revived what an open leaves.
-- Envelope: `SidecarEnvelope`. Blob: the payload readers. Catalog: `SegmentCatalog`, `View` and
--   `Reader`. Reads: the read methods of `SegmentedStore`.
-- Directory: the parameter for a directory of byte files, with the laws that the program relies on.
-- LiveIds, Sidecar: src/sidecar.rs: the canonical sets of live ids, the hosts, and in Sidecar/Cache
--   `SidecarCache`. A cache asks a host for a name, the directory for the file, Envelope for the frame
--   and the codec, a parameter, for the index. Sidecar/Coherence has the step relation of a cache that
--   several threads share, one step for each call or foreign change of the directory. A call is taken
--   as uninterrupted, where the source drops the lock on the map before `invalidate`, `persist` and
--   `persist_missing` reach the directory.
-- Session: a client that makes any calls in any order, the writes that it may count on, and what its
--   calls still do to a poisoned store.
-- Tests: small runs, and the theorems applied to them.
--
-- Numbers: ids, epochs and counts are natural numbers. A segment id grows by one for each segment
-- and an epoch for each checkpoint, so neither reaches 2^64 in a run. An index out of range panics in
-- the source; here the method returns the error `panicked`. `decimal n` runs on n + 1 units of fuel, one
-- for each digit or more. The loops of `compact_tiers` and `force_merge_to` run on one unit for each
-- segment, and every round leaves fewer segments. A set or map is a list in some order, where the hash
-- tables leave the order open. A valid state is one of a store whose `item_ids` lists its ids.
--
-- Not modelled: src/conformance.rs, the bytes of the postcard encoding and of `durability`, the
-- threads that share a `Reader` (a view is taken at one instant), benches, examples and fuzz targets.
pub mod Base
pub mod Names
pub mod Payload
pub mod Manifest
pub mod Tables
pub mod Directory
pub mod Disk
pub mod Tiers
pub mod Writer
pub mod Compaction
pub mod Ingest
pub mod Recovery
pub mod Envelope
pub mod LiveIds
pub mod Sidecar
pub mod Blob
pub mod Catalog
pub mod Reads
pub mod Session
pub mod Tests
