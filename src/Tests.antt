-- ===== src/Tests.antt =====
-- Small runs of the model, and the theorems applied to them: the writer.
mod Data
mod Sidecars
mod Sessions
mod Formats
mod Reopening
use mathlib.Core.Path.{subst}
use segstore.Base.{
  ℕ, ◌+◌, ◌*◌, ◌/◌, ◌%◌, ◌^◌, ◌≤◌, ◌≡◌, ◌≢◌, true, false, not, ◌&&◌, List, [], ◌∷◌, ◌++◌, none,
  some, length, arith, refl, sort_by, ltb, leb, ◌==◌, ℕ_discrete,
}
use segstore.Base.Assoc.{get, insert, contains, set_insert, set_remove}
use segstore.Base.Result.{ok, err, Error, is_ok, invalid_state, store_poisoned}
use segstore.Names.{
  Name, bytes, Name-discrete, wal_path, seg_path, manifest_path, lock_path, index_sidecar_name,
  idx_seg_id, decimal,
}
use segstore.Manifest.{superseded_in, add_superseded}
use segstore.Payload.{Store, StoreLaws, items_of}
use segstore.Payload.Default.{default_store, default_laws}
use segstore.Disk.{Disk}
use segstore.Tables.{Tables, Op, apply, select, flush_buffer, merge_output, zip}
use segstore.Reads.{store_live_ids}
use segstore.Reads.Unchanged.{live_ids-apply}
use segstore.Tables.Live.{copies, sealed_items}
use segstore.Tables.Invariant.{IsValid, live_segment_of}
use segstore.Tables.Select.{Distinct}
use segstore.Tables.Unique.{copies_at_most_one}
use segstore.Tables.Flush.{copies-flush_buffer}
use segstore.Tables.Merged.{items-merge_output}
use segstore.Tiers.{Float, TierConfig, next_members, eligible, first_group, bucket, join, choose}
use segstore.Tiers.Choice.{next_members-Chosen, Chosen, Candidate}
use segstore.Writer.{Writer, SyncPolicy, snapshot, merge_group, checkpoint, is_orphan}
use segstore.Writer.Merging.{Keeps, merge_group-Keeps}
use segstore.Writer.Preserving.{checkpoint-Keeps}
use segstore.Writer.Committing.{AllOrNothing, checkpoint-AllOrNothing}
use segstore.Compaction.{
  compact_tiers, reclaim_tombstones, force_rounds, tier_rounds, next_group, no_merges,
}
use segstore.Compaction.Keeping.{compact_tiers-Keeps}
use segstore.Compaction.Progress.{tier_rounds-finishes, merge_group-progress}
use segstore.Ingest.{add, delete, extend}
use segstore.Ingest.Batch.{TakesPrefix, extend-TakesPrefix}
use segstore.Compaction.Reclaim.{reclaim_tombstones-Keeps}
use segstore.Ingest.Writes.{TakesEffect, add-TakesEffect, delete-TakesEffect}
use segstore.Recovery.{replay, is_leftover}
use segstore.Recovery.Replay.{history, replay-history}
use segstore.Recovery.Garbage.{is_leftover-exact, is_orphan-exact}
use segstore.Names.RoundTrip.{idx_seg_id-index_sidecar_name}
use segstore.Envelope.{encode, decode}
use segstore.Envelope.RoundTrip.{decode-encode}
use segstore.Blob.{read_checkpoint_payload_into}
use segstore.Blob.Checked.{Checked, read_checkpoint_payload_into-Checked}
use segstore.Catalog.{SegmentCatalog, catalog_live_ids, catalog_is_live_in}
use segstore.Catalog.Reading.{contains-catalog_live_ids}
use segstore.Tests.Data.{
  Batch, store, laws, disk, halves, tiers, empty_tables, empty-IsValid, ops, tables, tables-IsValid,
  writer, both, both-Distinct, both_picked,
}

add-TakesEffect_example :
    TakesEffect ℕ_discrete store laws disk halves
      (Op.add 1 12)
      writer
      (add ℕ_discrete store disk halves 1 12 writer).1.tables
add-TakesEffect_example =
    add-TakesEffect ℕ_discrete store laws disk halves 1 12 writer tables-IsValid

delete-TakesEffect_example :
    TakesEffect ℕ_discrete store laws disk halves
      (Op.delete 3)
      writer
      (delete ℕ_discrete store disk halves 3 writer).1.tables
delete-TakesEffect_example =
    delete-TakesEffect ℕ_discrete store laws disk halves 3 writer tables-IsValid

replay-history_example :
    IsValid ℕ_discrete (laws.entries) (replay ℕ_discrete store 2 ops empty_tables)
    × ((j : ℕ)
        → copies ℕ_discrete (laws.entries) (replay ℕ_discrete store 2 ops empty_tables) j
          ≡ history ℕ_discrete ops j (copies ℕ_discrete (laws.entries) empty_tables j))
replay-history_example = replay-history ℕ_discrete store laws 2 ops empty_tables empty-IsValid

merge_group-Keeps_example :
    Keeps ℕ_discrete (laws.entries) tables (merge_group ℕ_discrete store disk both writer).1.tables
merge_group-Keeps_example =
    merge_group-Keeps ℕ_discrete store laws disk writer both tables-IsValid both-Distinct

merge_group-progress_example :
    (is_ok (merge_group ℕ_discrete store disk both writer).0 ≡ true)
    × (length both + length (merge_group ℕ_discrete store disk both writer).1.tables.segments ≤ 3)
merge_group-progress_example =
    merge_group-progress ℕ_discrete store laws disk halves writer both tables.segments
      (λ durable name epoch seg d. refl) refl both-Distinct both_picked

copies_at_most_one_example : length (copies ℕ_discrete (laws.entries) tables 1) ≤ 1
copies_at_most_one_example = copies_at_most_one ℕ_discrete (laws.entries) tables 1 tables-IsValid

copies-flush_buffer_example :
    copies ℕ_discrete (laws.entries) (flush_buffer ℕ_discrete store tables) 4
    ≡ copies ℕ_discrete (laws.entries) tables 4
copies-flush_buffer_example = copies-flush_buffer ℕ_discrete store laws tables 4 tables-IsValid

items-merge_output_example :
    items_of ℕ_discrete 1 (laws.entries (merge_output ℕ_discrete store tables both tables.segments))
    ≡ sealed_items ℕ_discrete
        (laws.entries)
        tables.tombstones
        tables.superseded
        (zip both tables.segments)
        1
items-merge_output_example =
    items-merge_output ℕ_discrete store laws tables 1 both tables.segments refl

checkpoint-Keeps_example :
    Keeps ℕ_discrete (laws.entries) tables (checkpoint ℕ_discrete store disk writer).1.tables
checkpoint-Keeps_example = checkpoint-Keeps ℕ_discrete store laws disk writer tables-IsValid

checkpoint-AllOrNothing_example : AllOrNothing writer (checkpoint ℕ_discrete store disk writer)
checkpoint-AllOrNothing_example = checkpoint-AllOrNothing ℕ_discrete store disk writer

compact_tiers-Keeps_example :
    Keeps ℕ_discrete
      (laws.entries)
      tables
      (compact_tiers ℕ_discrete store disk halves writer).1.tables
compact_tiers-Keeps_example =
    compact_tiers-Keeps ℕ_discrete store laws disk halves writer tables-IsValid

tier_rounds-finishes_example :
    (is_ok (tier_rounds ℕ_discrete store disk halves 2 (no_merges 2) writer).0 ≡ true)
    × (next_group ℕ_discrete store disk halves
          (tier_rounds ℕ_discrete store disk halves 2 (no_merges 2) writer).1
        ≡ none)
tier_rounds-finishes_example =
    tier_rounds-finishes ℕ_discrete store laws disk halves 2 (no_merges 2) writer
      (λ durable name epoch seg d. refl) tables-IsValid (omega arith)

extend-TakesPrefix_example :
    TakesPrefix ℕ_discrete store laws disk halves
      ((5, 50) ∷ (1, 13) ∷ [])
      writer
      (extend ℕ_discrete store disk halves ((5, 50) ∷ (1, 13) ∷ []) writer)
extend-TakesPrefix_example =
    extend-TakesPrefix ℕ_discrete store laws disk halves ((5, 50) ∷ (1, 13) ∷ []) writer
      tables-IsValid

reclaim_tombstones-Keeps_example :
    Keeps ℕ_discrete
      (laws.entries)
      tables
      (reclaim_tombstones ℕ_discrete store disk halves 1 writer).1.tables
reclaim_tombstones-Keeps_example =
    reclaim_tombstones-Keeps ℕ_discrete store laws disk halves 1 writer tables-IsValid

owned_elsewhere : live_segment_of ℕ_discrete tables 3 ≢ some 0
unfolding live_segment_of get ℕ_discrete
owned_elsewhere = λ e. cc

live_ids-apply_example :
    store_live_ids ℕ_discrete leb store (apply ℕ_discrete (Op.delete 3) tables) 0
    ≡ store_live_ids ℕ_discrete leb store tables 0
live_ids-apply_example =
    live_ids-apply ℕ_discrete store laws (Op.delete 3) tables tables-IsValid 0 owned_elsewhere leb
