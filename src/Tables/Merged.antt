-- ===== src/Tables/Merged.antt =====
-- The output of `merge_group` of src/lib.rs.
use segstore.Base.{
  ℕ, ◌≡◌, refl, false, not, List, [], ◌∷◌, arith, if◌then◌else◌, append-nil, length, Bool-cases,
  inl, inr, map,
}
use segstore.Base.Assoc.{contains, contains_key}
use segstore.Payload.{Store, StoreLaws, items_of, flatten}
use segstore.Manifest.{copy_is_live, superseded_in}
use segstore.Tables.{Tables, zip, merge_output, any_superseded}
use segstore.Tables.Live.{live_items, sealed_items, items-append}

module _ {Key Item Segment : Type 0} (dec : Discrete Key) (store : Store Key Item Segment)
    (laws : StoreLaws dec store) (t : Tables Key Item Segment) (j : Key) where
  open laws use {entries}

  filtered-items :
      (qs : List (ℕ × Segment))
      → items_of dec j (
          flatten (
            map entries (
              map
                (λ p.
                  store.merge_segments (p.1 ∷ []) (copy_is_live dec t.tombstones t.superseded p.0))
                qs)))
        ≡ sealed_items dec entries t.tombstones t.superseded qs j
  unfolding sealed_items live_items items_of
  filtered-items [] = refl
  filtered-items ((g, seg) ∷ qs) =
      simp (items-append, laws.items-merge_segments, filtered-items qs, append-nil)

  unfiltered-items :
      (group : List ℕ) (segs : List Segment)
      → length segs ≡ length group
      → any_superseded group t.superseded ≡ false
      → (if not (contains dec t.tombstones j)
          then items_of dec j (flatten (map entries segs))
          else [])
        ≡ sealed_items dec entries t.tombstones t.superseded (zip group segs) j
  unfolding sealed_items live_items items_of zip copy_is_live superseded_in contains_key
  unfiltered-items [] [] e h = ground arith
  unfiltered-items [] (x ∷ segs) e h = absurd (omega arith)
  unfiltered-items (g ∷ group) [] e h = absurd (omega arith)
  unfiltered-items (g ∷ group) (seg ∷ segs) e h = ground (
    arith,
    unfiltered-items group segs,
    items-append dec j (entries seg) (flatten (map entries segs)),
  )

  -- Over a store that keeps the documented laws, with one segment for each id of the group, the
  -- merged segment has for every id exactly the copies of the inputs that are live, in their order,
  -- on both paths of the code.
  pub items-merge_output :
      (group : List ℕ) (segs : List Segment)
      → length segs ≡ length group
      → items_of dec j (entries (merge_output dec store t group segs))
        ≡ sealed_items dec entries t.tombstones t.superseded (zip group segs) j
  items-merge_output group segs e = elim (Bool-cases (any_superseded group t.superseded)) [
    | inl h ↦
        unfold merge_output in rw h (rw laws.items-merge_segments (filtered-items (zip group segs)))
    | inr h ↦
        unfold merge_output in rw h (rw laws.items-merge_segments (unfiltered-items group segs e h))
  ]
