-- ===== src/Tables/Applied.antt =====
-- The valid states under `apply` of src/lib.rs.
use segstore.Base.{
  ap, ℕ, ◌≤◌, ◌<◌, ◌≡◌, inl, inr, true, false, ◌||◌, List, [], ◌∷◌, ◌++◌, none, some, arith,
  if◌then◌else◌, Option-cases, ◌∙◌,
}
use segstore.Base.Assoc.{eqb, contains, contains-set_insert, contains-set_remove}
use segstore.Payload.{ids}
use segstore.Manifest.{superseded_in}
use segstore.Tables.{Tables, add, delete, apply, supersede_sealed_copy, drop_buffered}
use segstore.Tables.Live.{contains-drop_buffered}
use segstore.Tables.Invariant.{Owned, IsValid, live_segment_of, live_segment_of-congr, is_some}
use segstore.Tables.Apply.{buffer-add, buffer-delete}
use segstore.Tables.Supersede.{
  supersede-owner, supersede-superseded, supersede-rest, supersede-quiet, supersede-Owned_ne,
  add-fields, delete-fields,
}

-- A state whose sealed part is that of `supersede_sealed_copy`.
record IsQuietened {Key Item Segment : Type 0} (dec : Discrete Key) (id : Key)
    (t t' : Tables Key Item Segment) : Type 0 where
  superseded : t'.superseded ≡ (supersede_sealed_copy dec id t).superseded
  owners : t'.owners ≡ (supersede_sealed_copy dec id t).owners
  segments : t'.segments ≡ t.segments
  segment_ids : t'.segment_ids ≡ t.segment_ids
  next_seg_id : t'.next_seg_id ≡ t.next_seg_id

module _ {Key Item Segment : Type 0} (dec : Discrete Key) (entries : Segment → List (Key × Item))
    (id : Key) (t t' : Tables Key Item Segment) (q : IsQuietened dec id t t')
    (v : IsValid dec entries t) where
  owner-after :
      (j : Key)
      → live_segment_of dec t' j ≡ (if eqb dec id j then none else live_segment_of dec t j)
  owner-after j =
      live_segment_of-congr dec t' (supersede_sealed_copy dec id t) j q.owners
      ∙ supersede-owner dec id t j

  Owned-after : (j : Key) → Owned dec entries t' j
  Owned-after j =
      rw (owner-after j, q.superseded, q.segments, q.segment_ids)
        (elim (dec id j) [
          | yes p ↦
              let e : eqb dec id j ≡ true = ground arith in
              rw e (supersede-quiet dec entries id j t p (v.owned j))
          | no p ↦
              let ne : eqb dec id j ≡ false = ground arith in
              rw ne (supersede-Owned_ne dec entries id j t ne (v.owned j))
        ])

  fresh-after : (s : ℕ) (j : Key) → t'.next_seg_id ≤ s → superseded_in dec t'.superseded s j ≡ false
  fresh-after s j h = rw q.superseded (elim (Option-cases (live_segment_of dec t id)) [
    | inl e ↦ ground (arith, q.next_seg_id, supersede-superseded dec id t s j, v.fresh s j)
    | inr (o, e) ↦
        ground
          (arith, q.next_seg_id, supersede-superseded dec id t s j, v.fresh s j, v.bounded id o e)
  ])

  bounded-after : (j : Key) (s : ℕ) → live_segment_of dec t' j ≡ some s → s < t'.next_seg_id
  bounded-after j s e = ground (arith, q.next_seg_id, owner-after j, v.bounded j s)

  tracked-after : is_some t'.owners ≡ true
  tracked-after = rw q.owners ((supersede-rest dec id t).6 ∙ v.tracked)

module _ {Key Item Segment : Type 0} (dec : Discrete Key)
    (entries : Segment → List (Key × Item)) where
  add-IsQuietened :
      (id : Key) (item : Item) (t : Tables Key Item Segment)
      → IsQuietened dec id t (apply dec (add id item) t)
  add-IsQuietened id item t =
      let f = add-fields dec id t item in
      record {
        superseded = f.3;
        owners = f.4;
        segments = f.5;
        segment_ids = f.6;
        next_seg_id = f.7;
      }

  delete-IsQuietened :
      (id : Key) (t : Tables Key Item Segment) → IsQuietened dec id t (apply dec (delete id) t)
  delete-IsQuietened id t =
      let f = delete-fields dec id t in
      record {
        superseded = f.3;
        owners = f.4;
        segments = f.5;
        segment_ids = f.6;
        next_seg_id = f.7;
      }

  listed-snoc :
      (i j : Key) (x : Item) (l : List (Key × Item))
      → contains dec (ids (l ++ (i, x) ∷ [])) j ≡ (contains dec (ids l) j || eqb dec i j)
  unfolding contains
  listed-snoc i j x [] = ground arith
  listed-snoc i j x ((k, y) ∷ l) = ground (arith, listed-snoc i j x l)

  listed-add :
      (id j : Key) (item : Item) (t : Tables Key Item Segment)
      → contains dec t.buffer_ids id ≡ contains dec (ids t.buffer) id
      → contains dec
          (ids (
            (if contains dec t.buffer_ids id then drop_buffered dec id t.buffer else t.buffer)
            ++ (id, item) ∷ []))
          j
        ≡ (if eqb dec id j then true else contains dec (ids t.buffer) j)
  listed-add id j item t e = ground (
    arith,
    listed-snoc id j item (drop_buffered dec id t.buffer),
    listed-snoc id j item t.buffer,
    contains-drop_buffered dec id j t.buffer,
    dec id j,
  )

  listed-delete :
      (id j : Key) (t : Tables Key Item Segment)
      → contains dec t.buffer_ids id ≡ contains dec (ids t.buffer) id
      → contains dec
          (ids (if contains dec t.buffer_ids id then drop_buffered dec id t.buffer else t.buffer))
          j
        ≡ (if eqb dec id j then false else contains dec (ids t.buffer) j)
  listed-delete id j t e = ground (arith, contains-drop_buffered dec id j t.buffer, dec id j)

  -- An add keeps the state valid.
  pub add-IsValid :
      (t : Tables Key Item Segment) (id : Key) (item : Item)
      → IsValid dec entries t
      → IsValid dec entries (apply dec (add id item) t)
  add-IsValid t id item v =
      let t' = apply dec (add id item) t in
      let f = add-fields dec id t item in
      let q = add-IsQuietened id item t in
      let listed : (j : Key)
          → contains dec (ids t'.buffer) j
            ≡ (if eqb dec id j then true else contains dec (ids t.buffer) j) =
        λ j. rw f.0 (listed-add id j item t (v.indexed id)) in
      record {
        lockstep = rw (f.5, f.6) v.lockstep;
        ascending = rw (f.6, f.7) v.ascending;
        fresh = fresh-after dec entries id t t' q v;
        indexed = λ j. rw (listed j) (
            ground (
              arith,
              f.1,
              v.indexed id,
              v.indexed j,
              contains-set_insert dec id j t.buffer_ids,
              dec id j,
            ));
        single = λ j.
            rw f.0
              (rw (buffer-add dec entries id j item t (v.indexed id)) (ground (arith, v.single j)));
        revived = λ j h.
            rw f.2
              (ground (arith, listed j, v.revived j, contains-set_remove dec id j t.tombstones));
        buried = λ j h. rw (owner-after dec entries id t t' q v j) (
            ground (
              arith,
              v.buried j,
              dec id j,
              contains-set_remove dec id j t.tombstones,
              ap (λ l. contains dec l j) f.2,
              h,
            ));
        tracked = tracked-after dec entries id t t' q v;
        bounded = bounded-after dec entries id t t' q v;
        owned = Owned-after dec entries id t t' q v;
        moved =
            λ j h. rw (owner-after dec entries id t t' q v j) (ground (arith, listed j, v.moved j));
      }

  -- A delete keeps the state valid.
  pub delete-IsValid :
      (t : Tables Key Item Segment) (id : Key)
      → IsValid dec entries t
      → IsValid dec entries (apply dec (delete id) t)
  delete-IsValid t id v =
      let t' = apply dec (delete id) t in
      let f = delete-fields dec id t in
      let q = delete-IsQuietened id t in
      let listed : (j : Key)
          → contains dec (ids t'.buffer) j
            ≡ (if eqb dec id j then false else contains dec (ids t.buffer) j) =
        λ j. rw f.0 (listed-delete id j t (v.indexed id)) in
      record {
        lockstep = rw (f.5, f.6) v.lockstep;
        ascending = rw (f.6, f.7) v.ascending;
        fresh = fresh-after dec entries id t t' q v;
        indexed = λ j. rw (listed j) (
            ground (
              arith,
              f.1,
              v.indexed id,
              v.indexed j,
              contains-set_remove dec id j t.buffer_ids,
              dec id j,
            ));
        single = λ j.
            rw f.0
              (rw (buffer-delete dec entries id j t (v.indexed id)) (ground (arith, v.single j)));
        revived = λ j h.
            rw f.2
              (ground (arith, listed j, v.revived j, contains-set_insert dec id j t.tombstones));
        buried = λ j h. rw (owner-after dec entries id t t' q v j) (
            ground (
              arith,
              v.buried j,
              dec id j,
              contains-set_insert dec id j t.tombstones,
              ap (λ l. contains dec l j) f.2,
              h,
            ));
        tracked = tracked-after dec entries id t t' q v;
        bounded = bounded-after dec entries id t t' q v;
        owned = Owned-after dec entries id t t' q v;
        moved =
            λ j h. rw (owner-after dec entries id t t' q v j) (ground (arith, listed j, v.moved j));
      }
