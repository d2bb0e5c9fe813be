-- ===== src/Tables/Apply.antt =====
-- The live copies under `apply` of src/lib.rs.
use segstore.Base.{◌≡◌, false, List, [], ◌∷◌, ◌++◌, arith, if◌then◌else◌, append-nil}
use segstore.Base.Assoc.{
  eqb, contains, set_insert, set_remove, contains-set_insert, contains-set_remove,
}
use segstore.Payload.{items_of, ids}
use segstore.Manifest.{superseded_in}
use segstore.Tables.{Tables, add, delete, apply, supersede_sealed_copy, drop_buffered}
use segstore.Tables.Live.{
  sealed, sealed_items, copies, items-append, items-drop_buffered, items_of-absent,
}
use segstore.Tables.Invariant.{All-of, Owned, IsValid, sealed_items-unowned, sealed_items-congr}
use segstore.Tables.Supersede.{supersede-superseded, supersede-quiet, add-fields, delete-fields}

module _ {Key Item Segment : Type 0} (dec : Discrete Key)
    (entries : Segment → List (Key × Item)) where
  -- The sealed copies after the id's owner was superseded.
  sealed-quiet :
      (id j : Key) (ts : List Key) (t : Tables Key Item Segment)
      → Owned dec entries t j
      → (eqb dec id j ≡ false → contains dec ts j ≡ contains dec t.tombstones j)
      → sealed_items dec entries ts
          (supersede_sealed_copy dec id t).superseded
          (sealed dec entries t)
          j
        ≡ (if eqb dec id j
            then []
            else sealed_items dec entries t.tombstones t.superseded (sealed dec entries t) j)
  sealed-quiet id j ts t o e = elim (dec id j) [
    | yes p ↦ ground (
      arith,
      sealed_items-unowned dec entries ts (supersede_sealed_copy dec id t).superseded j
          (sealed dec entries t) (supersede-quiet dec entries id j t p o),
    )
    | no p ↦
        let ne : eqb dec id j ≡ false = ground arith in
        rw ne (
          sealed_items-congr dec entries ts t.tombstones (supersede_sealed_copy dec id t).superseded
            t.superseded j (sealed dec entries t) (e ne)
            (All-of
              (λ q.
                superseded_in dec (supersede_sealed_copy dec id t).superseded q.0 j
                ≡ superseded_in dec t.superseded q.0 j)
              (sealed dec entries t) λ q. ground (arith, ne, supersede-superseded dec id t q.0 j)))
  ]

  pub buffer-add :
      (id j : Key) (item : Item) (t : Tables Key Item Segment)
      → contains dec t.buffer_ids id ≡ contains dec (ids t.buffer) id
      → items_of dec j (
          (if contains dec t.buffer_ids id then drop_buffered dec id t.buffer else t.buffer)
          ++ (id, item) ∷ [])
        ≡ (if eqb dec id j then item ∷ [] else items_of dec j t.buffer)
  unfolding items_of
  buffer-add id j item t e = ground (
    arith,
    items-append dec j (drop_buffered dec id t.buffer) ((id, item) ∷ []),
    items-append dec j t.buffer ((id, item) ∷ []),
    items-drop_buffered dec id j t.buffer,
    items_of-absent dec j t.buffer,
    append-nil (items_of dec j t.buffer),
    dec id j,
  )

  pub buffer-delete :
      (id j : Key) (t : Tables Key Item Segment)
      → contains dec t.buffer_ids id ≡ contains dec (ids t.buffer) id
      → items_of dec j
          (if contains dec t.buffer_ids id then drop_buffered dec id t.buffer else t.buffer)
        ≡ (if eqb dec id j then [] else items_of dec j t.buffer)
  buffer-delete id j t e =
      ground
        (arith, items-drop_buffered dec id j t.buffer, items_of-absent dec j t.buffer, dec id j)

  -- An add leaves exactly one live copy of its id, the new value, and does not touch other ids.
  pub copies-add :
      (t : Tables Key Item Segment) (id j : Key) (item : Item)
      → IsValid dec entries t
      → copies dec entries (apply dec (add id item) t) j
        ≡ (if eqb dec id j then item ∷ [] else copies dec entries t j)
  unfolding copies
  copies-add t id j item v =
      let f = add-fields dec id t item in
      rw (f.0, f.2, f.3, f.5, f.6)
        (ground (
          arith,
          sealed-quiet id j (set_remove dec id t.tombstones) t (v.owned j)
              (λ ne. ground (arith, ne, contains-set_remove dec id j t.tombstones)),
          buffer-add id j item t (v.indexed id),
        ))

  pub copies-delete :
      (t : Tables Key Item Segment) (id j : Key)
      → IsValid dec entries t
      → copies dec entries (apply dec (delete id) t) j
        ≡ (if eqb dec id j then [] else copies dec entries t j)
  unfolding copies
  copies-delete t id j v =
      let f = delete-fields dec id t in
      rw (f.0, f.2, f.3, f.5, f.6)
        (ground (
          arith,
          sealed-quiet id j (set_insert dec id t.tombstones) t (v.owned j)
              (λ ne. ground (arith, ne, contains-set_insert dec id j t.tombstones)),
          buffer-delete id j t (v.indexed id),
        ))
