-- ===== src/Tables/Supersede.antt =====
-- `supersede_sealed_copy`, and the fields of the state after `apply`.
use segstore.Base.{
  ℕ, ◌≡◌, inl, inr, Bool, false, ◌&&◌, ◌||◌, List, [], ◌∷◌, ◌++◌, Option, none, some, arith,
  if◌then◌else◌, ℕ_discrete, Option-cases,
}
use segstore.Base.Assoc.{eqb, contains, get, set_insert, set_remove, get-remove}
use segstore.Manifest.{superseded_in, superseded_in-add_superseded}
use segstore.Tables.{Tables, add, delete, apply, supersede_sealed_copy, drop_buffered}
use segstore.Tables.Live.{sealed}
use segstore.Tables.Invariant.{All, All-imp, OwnedIn, Owned, live_segment_of, is_some}

-- `owner == Some(s)`
abbrev pub owner_is : Option ℕ → ℕ → Bool
owner_is none s = false
owner_is (some o) s = eqb ℕ_discrete o s

module _ {Key Item Segment : Type 0} (dec : Discrete Key) where
  -- The quiet state: the id's owner is forgotten, and its copy there is marked.
  module _ (id : Key) (t : Tables Key Item Segment) where
    pub supersede-owner :
        (j : Key)
        → live_segment_of dec (supersede_sealed_copy dec id t) j
          ≡ (if eqb dec id j then none else live_segment_of dec t j)
    unfolding live_segment_of supersede_sealed_copy
    supersede-owner j = elim (Option-cases t.owners) [
      | inl e ↦ ground arith
      | inr (o, e) ↦ elim (Option-cases (get dec o id)) [
        | inl e2 ↦ ground arith
        | inr (seg, e2) ↦ ground (arith, get-remove dec id j o)
      ]
    ]

    pub supersede-superseded :
        (s : ℕ) (j : Key)
        → superseded_in dec (supersede_sealed_copy dec id t).superseded s j ≡ (
            (owner_is (live_segment_of dec t id) s && eqb dec id j)
            || superseded_in dec t.superseded s j)
    unfolding live_segment_of supersede_sealed_copy
    supersede-superseded s j = elim (Option-cases t.owners) [
      | inl e ↦ ground arith
      | inr (o, e) ↦ elim (Option-cases (get dec o id)) [
        | inl e2 ↦ ground arith
        | inr (seg, e2) ↦ ground (arith, superseded_in-add_superseded dec seg s id j t.superseded)
      ]
    ]

    pub supersede-rest :
        let q = supersede_sealed_copy dec id t in
        (q.buffer ≡ t.buffer)
        × (q.buffer_ids ≡ t.buffer_ids)
        × (q.tombstones ≡ t.tombstones)
        × (q.segments ≡ t.segments)
        × (q.segment_ids ≡ t.segment_ids)
        × (q.next_seg_id ≡ t.next_seg_id)
        × (is_some q.owners ≡ is_some t.owners)
    unfolding supersede_sealed_copy
    supersede-rest = ground arith

module _ {Key Item Segment : Type 0} (dec : Discrete Key)
    (entries : Segment → List (Key × Item)) where
  -- After `supersede_sealed_copy` no live copy of the id is left in any segment.
  pub supersede-quiet :
      (id j : Key) (t : Tables Key Item Segment)
      → id ≡ j
      → Owned dec entries t j
      → All
          (OwnedIn dec entries (supersede_sealed_copy dec id t).superseded none j)
          (sealed dec entries t)
  supersede-quiet id j t p =
      All-imp _ _ (sealed dec entries t)
        (λ (s, seg) o. ground (arith, o, p, supersede-superseded dec id t s j))

  pub supersede-Owned_ne :
      (id j : Key) (t : Tables Key Item Segment)
      → eqb dec id j ≡ false
      → Owned dec entries t j
      → All
          (OwnedIn dec entries
            (supersede_sealed_copy dec id t).superseded
            (live_segment_of dec t j)
            j)
          (sealed dec entries t)
  supersede-Owned_ne id j t ne =
      All-imp _ _ (sealed dec entries t)
        (λ (s, seg) o. ground (arith, o, ne, supersede-superseded dec id t s j))

module _ {Key Item Segment : Type 0} (dec : Discrete Key) (id : Key)
    (t : Tables Key Item Segment) where
  abbrev pub quiet : Tables Key Item Segment
  quiet = supersede_sealed_copy dec id t

  -- The fields after an add, by what they are computed from.
  pub add-fields :
      (item : Item)
      → let t' = apply dec (add id item) t in
        (t'.buffer
          ≡ (if contains dec t.buffer_ids id then drop_buffered dec id t.buffer else t.buffer)
            ++ (id, item) ∷ [])
        × (t'.buffer_ids ≡ (
            if contains dec t.buffer_ids id then t.buffer_ids else set_insert dec id t.buffer_ids))
        × (t'.tombstones ≡ set_remove dec id t.tombstones)
        × (t'.superseded ≡ quiet.superseded)
        × (t'.owners ≡ quiet.owners)
        × (t'.segments ≡ t.segments)
        × (t'.segment_ids ≡ t.segment_ids)
        × (t'.next_seg_id ≡ t.next_seg_id)
  unfolding apply
  add-fields item = ground arith

  pub delete-fields :
      let t' = apply dec (delete id) t in
      (t'.buffer
        ≡ (if contains dec t.buffer_ids id then drop_buffered dec id t.buffer else t.buffer))
      × (t'.buffer_ids
          ≡ (if contains dec t.buffer_ids id then set_remove dec id t.buffer_ids else t.buffer_ids))
      × (t'.tombstones ≡ set_insert dec id t.tombstones)
      × (t'.superseded ≡ quiet.superseded)
      × (t'.owners ≡ quiet.owners)
      × (t'.segments ≡ t.segments)
      × (t'.segment_ids ≡ t.segment_ids)
      × (t'.next_seg_id ≡ t.next_seg_id)
  unfolding apply
  delete-fields = ground arith
