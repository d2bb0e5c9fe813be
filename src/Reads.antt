-- ===== src/Reads.antt =====
-- The read methods of `SegmentedStore` (src/lib.rs), but `live_segment_of`, which is in
-- Tables/Invariant.
pub mod Unchanged
use segstore.Base.{
  ℕ, suc, Bool, not, List, [], ◌∷◌, Option, none, some, if◌then◌else◌, ◌==◌, keep, get_elem?,
  length,
}
use segstore.Base.Assoc.{contains}
use segstore.Base.Result.{Result, ok, err, panicked, and_then}
use segstore.Payload.{Store}
use segstore.Manifest.{copy_is_live}
use segstore.Tables.{Tables}
use segstore.LiveIds.{LiveIds}
unfoldable use segstore.LiveIds.{live_ids_new}

-- `iter().position(|&id| id == segment_id)`
unfoldable pub position : List ℕ → ℕ → Option ℕ
position [] id = none
position (x ∷ l) id =
    if x == id then some 0 else (elim (position l id) [ none ↦ none | some i ↦ some (suc i) ])

module _ {Key Item Segment : Type 0} (dec : Discrete Key) where
  abbrev pub store_is_live : Tables Key Item Segment → Key → Bool
  store_is_live t id = not (contains dec t.tombstones id)

  abbrev pub store_is_live_in : Tables Key Item Segment → ℕ → Key → Bool
  store_is_live_in t = copy_is_live dec t.tombstones t.superseded

  abbrev pub live_ids_at :
      (Key → Key → Bool)
      → Store Key Item Segment
      → Tables Key Item Segment
      → ℕ
      → Option Segment
      → Result (Option (LiveIds Key))
  live_ids_at le store t segment_id none = err panicked
  live_ids_at le store t segment_id (some segment) = ok (
      and_then (store.item_ids segment)
        (λ l. some (live_ids_new dec le (keep (store_is_live_in t segment_id) l))))

  -- From the segment's position on.
  abbrev pub live_ids_from :
      (Key → Key → Bool)
      → Store Key Item Segment
      → Tables Key Item Segment
      → ℕ
      → Option ℕ
      → Result (Option (LiveIds Key))
  live_ids_from le store t segment_id none = ok none
  live_ids_from le store t segment_id (some i) =
      live_ids_at le store t segment_id (get_elem? t.segments i)

  unfoldable pub store_live_ids :
      (Key → Key → Bool)
      → Store Key Item Segment
      → Tables Key Item Segment
      → ℕ
      → Result (Option (LiveIds Key))
  unfolding live_ids_new position
  store_live_ids le store t segment_id =
      live_ids_from le store t segment_id (position t.segment_ids segment_id)

abbrev pub store_segment_count : {Key Item Segment : Type 0} → Tables Key Item Segment → ℕ
store_segment_count t = length t.segments

abbrev pub store_tombstone_count : {Key Item Segment : Type 0} → Tables Key Item Segment → ℕ
store_tombstone_count t = length t.tombstones
