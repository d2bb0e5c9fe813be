-- ===== src/Catalog/Reading.antt =====
-- The live ids of `SegmentCatalog` (src/lib.rs).
use segstore.Base.{ℕ, ◌≡◌, Bool, ◌&&◌, List, [], ◌∷◌, keep, arith, ap, ◌∙◌}
use segstore.Base.Assoc.{contains}
use segstore.LiveIds.Canonical.{contains-live_ids_new}
use segstore.Catalog.{SegmentCatalog, catalog_live_ids, catalog_is_live_in}

module _ {Key : Type 0} (dec : Discrete Key) (le : Key → Key → Bool) where
  pub contains-keep :
      (p : Key → Bool) (j : Key) (l : List Key)
      → contains dec (keep p l) j ≡ (p j && contains dec l j)
  unfolding contains
  contains-keep p j [] = ground arith
  contains-keep p j (x ∷ l) = ground (arith, contains-keep p j l, ap p {x = x} {y = j})

  -- The live ids that a catalog computes for a segment contain an id exactly when it is among the
  -- given ids and its copy in that segment is live.
  pub contains-catalog_live_ids :
      {D : Type 0} (c : SegmentCatalog D Key) (segment_id : ℕ) (l : List Key) (j : Key)
      → contains dec (catalog_live_ids dec le c segment_id l) j
        ≡ (catalog_is_live_in dec c segment_id j && contains dec l j)
  unfolding catalog_live_ids
  contains-catalog_live_ids c segment_id l j =
      contains-live_ids_new dec le (keep (catalog_is_live_in dec c segment_id) l) j
      ∙ contains-keep (catalog_is_live_in dec c segment_id) j l
