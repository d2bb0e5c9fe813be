-- ===== src/Tables.antt =====
-- The in-memory state of `SegmentedStore` (src/lib.rs) and the parts of its methods that touch
-- nothing else: `apply`, `supersede_sealed_copy`, `flush_buffer`, `alloc_id`, and the two halves of
-- `merge_group` around the write of the merged segment. Ids and counts do not wrap: segment ids
-- grow by one per segment, and a run never makes 2^64 of them.
pub mod Live
pub mod Invariant
pub mod Supersede
pub mod Apply
pub mod Applied
pub mod Flush
pub mod Select
pub mod Merge
pub mod Merged
pub mod Unique
pub mod Emptied
use segstore.Base.{
  ℕ, ◌+◌, zero, suc, ◌≡◌, Bool, true, false, not, ◌&&◌, ◌||◌, List, [], ◌∷◌, ◌++◌, map, Option,
  none, some, keep, is_empty, get_elem?, if◌then◌else◌, ℕ_discrete,
}
use segstore.Base.Assoc.{eqb, contains, set_insert, set_remove, get, remove, insert, contains_key}
use segstore.Payload.{Store, ids}
use segstore.Manifest.{copy_is_live, add_superseded}

-- `Op`, one record of the write-ahead log.
pub data Op (Key Item : Type 0) : Type 0 where
  add : Key → Item → Op Key Item
  delete : Key → Op Key Item

pub record Tables (Key Item Segment : Type 0) : Type 0 where
  pub buffer : List (Key × Item)
  pub segments : List Segment
  pub tombstones : List Key
  pub buffer_ids : List Key
  pub superseded : List (ℕ × List Key)
  pub owners : Option (List (Key × ℕ))
  pub segment_ids : List ℕ
  pub next_seg_id : ℕ

-- `a.iter().zip(b)`
unfoldable pub zip {ℓ κ} : {A : Type ℓ} {B : Type κ} → List A → List B → List (A × B)
zip [] bs = []
zip (a ∷ as') [] = []
zip (a ∷ as') (b ∷ bs) = (a, b) ∷ zip as' bs

module _ {Key Item : Type 0} (dec : Discrete Key) where
  -- `buffer.retain(|(bid, _)| bid != &id)`
  unfoldable pub drop_buffered : Key → List (Key × Item) → List (Key × Item)
  drop_buffered id = keep (λ e. not (eqb dec e.0 id))

module _ {Key : Type 0} (dec : Discrete Key) where
  -- `for id in ids { owners.insert(id, seg); }`
  unfoldable pub own_all : ℕ → List Key → List (Key × ℕ) → List (Key × ℕ)
  own_all seg [] owners = owners
  own_all seg (id ∷ l) owners = own_all seg l (insert dec id seg owners)

abbrev pub any_superseded : {Key : Type 0} → List ℕ → List (ℕ × List Key) → Bool
any_superseded [] superseded = false
any_superseded (g ∷ group) superseded =
    contains_key ℕ_discrete superseded g || any_superseded group superseded

module _ {Key Item Segment : Type 0} (dec : Discrete Key) where
  abbrev pub supersede_owned :
      Key → Tables Key Item Segment → List (Key × ℕ) → Option ℕ → Tables Key Item Segment
  supersede_owned id t owners none = t
  supersede_owned id t owners (some seg) = record t {
    owners = some (remove dec id owners);
    superseded = add_superseded dec seg id t.superseded;
  }

  unfoldable pub supersede_sealed_copy : Key → Tables Key Item Segment → Tables Key Item Segment
  supersede_sealed_copy id t = elim t.owners [
    | none ↦ t
    | some owners ↦ supersede_owned id t owners (get dec owners id)
  ]

  unfoldable pub apply : Op Key Item → Tables Key Item Segment → Tables Key Item Segment
  unfolding supersede_sealed_copy drop_buffered
  apply (add id item) t =
      let revived = record t { tombstones = set_remove dec id t.tombstones } in
      let replaced =
        if contains dec t.buffer_ids id
        then record revived { buffer = drop_buffered dec id t.buffer }
        else record revived { buffer_ids = set_insert dec id t.buffer_ids } in
      let quiet = supersede_sealed_copy id replaced in
      record quiet { buffer = quiet.buffer ++ (id, item) ∷ [] }
  apply (delete id) t =
      let unbuffered =
        if contains dec t.buffer_ids id
        then record t {
          buffer_ids = set_remove dec id t.buffer_ids;
          buffer = drop_buffered dec id t.buffer;
        }
        else t in
      let quiet = supersede_sealed_copy id unbuffered in
      record quiet { tombstones = set_insert dec id quiet.tombstones }

  module _ (store : Store Key Item Segment) where
    -- Probe `item_ids` on the first segment sealed, then give the sealed ids to segment `id`.
    unfoldable pub owners_after_seal :
        Tables Key Item Segment → ℕ → Segment → Option (List (Key × ℕ))
    unfolding own_all
    owners_after_seal t id seg = elim t.owners [
      | none ↦ none
      | some owners ↦ elim (is_empty t.segments) [
        | true ↦ elim (store.item_ids seg) [
          | none ↦ none
          | some _ ↦ some (own_all dec id (ids t.buffer) owners)
        ]
        | false ↦ some (own_all dec id (ids t.buffer) owners)
      ]
    ]

    unfoldable pub flush_buffer : Tables Key Item Segment → Tables Key Item Segment
    unfolding owners_after_seal
    flush_buffer t =
        if is_empty t.buffer
        then t
        else let seg = store.build_segment t.buffer in
          let id = t.next_seg_id in
          record t {
            next_seg_id = suc id;
            owners = owners_after_seal t id seg;
            segments = t.segments ++ seg ∷ [];
            segment_ids = t.segment_ids ++ id ∷ [];
            buffer = [];
            buffer_ids = [];
          }

    -- The merged segment: with superseded copies in the group each input is filtered by its own
    -- predicate first.
    unfoldable pub merge_output : Tables Key Item Segment → List ℕ → List Segment → Segment
    merge_output t group segs =
        if any_superseded group t.superseded
        then store.merge_segments
            (map
              (λ p.
                store.merge_segments (p.1 ∷ []) (copy_is_live dec t.tombstones t.superseded p.0))
              (zip group segs))
            (λ _. true)
        else store.merge_segments segs (λ id. not (contains dec t.tombstones id))

    -- Every id in the merge output had its live copy in the group.
    unfoldable pub owners_after_merge :
        Tables Key Item Segment → ℕ → Segment → Option (List (Key × ℕ))
    unfolding own_all
    owners_after_merge t id merged = elim t.owners [
      | none ↦ none
      | some owners ↦ elim (store.item_ids merged) [
        | none ↦ none
        | some l ↦ some (own_all dec id l owners)
      ]
    ]

module _ {ℓ} {A : Type ℓ} where
  -- `indices.iter().map(|&i| l[i])`; an index out of bounds panics, here `none`.
  unfoldable pub select : List A → List ℕ → Option (List A)
  select l [] = some []
  select l (i ∷ is) = elim (get_elem? l i) [
    | none ↦ none
    | some x ↦ elim (select l is) [ none ↦ none | some xs ↦ some (x ∷ xs) ]
  ]

  -- `enumerate().filter(|(i, _)| merged_idx.binary_search(i).is_err())`, from index `i` on.
  unfoldable pub drop_at : List ℕ → ℕ → List A → List A
  drop_at idx i [] = []
  drop_at idx i (x ∷ xs) =
      if contains ℕ_discrete idx i then drop_at idx (suc i) xs else x ∷ drop_at idx (suc i) xs

unfoldable pub remove_all : {V : Type 0} → List ℕ → List (ℕ × V) → List (ℕ × V)
remove_all [] m = m
remove_all (g ∷ group) m = remove_all group (remove ℕ_discrete g m)

module _ {Key Item Segment : Type 0} (dec : Discrete Key) (store : Store Key Item Segment) where
  -- After the merged segment is on disk, under `merged_id` unless it is empty.
  unfoldable pub install_merged :
      List ℕ → List ℕ → Option ℕ → Segment → Tables Key Item Segment → Tables Key Item Segment
  unfolding drop_at remove_all owners_after_merge
  install_merged indices group merged_id merged t =
      let kept = record t {
        superseded = remove_all group t.superseded;
        segments = drop_at indices 0 t.segments;
        segment_ids = drop_at indices 0 t.segment_ids;
      } in
      elim merged_id [
        | none ↦ kept
        | some id ↦ record kept {
          owners = owners_after_merge dec store t id merged;
          segments = kept.segments ++ merged ∷ [];
          segment_ids = kept.segment_ids ++ id ∷ [];
        }
      ]
