-- ===== src/Reads/Unchanged.antt =====
-- `SegmentedStore::live_ids` of src/lib.rs across writes.
use mathlib.Core.Path.{subst, sym, ap, ap₂, ◌∙◌}
use mathlib.Core.Option.{some-injective}
use segstore.Base.{
  ℕ, suc, ◌≡◌, ◌≢◌, ◌⊎◌, inl, inr, Bool, true, false, ◌&&◌, ◌||◌, List, [], ◌∷◌, Option, none, some,
  ◌==◌, keep, get_elem?, arith, refl, Option-cases, Bool-cases,
}
use segstore.Base.Assoc.{contains, eqb, contains-set_insert, contains-set_remove}
use segstore.Base.Result.{ok}
use segstore.Payload.{Store, StoreLaws, ids}
use segstore.Manifest.{superseded_in, copy_is_live}
use segstore.Tables.{Tables, Op, add, delete, apply, zip}
use segstore.Tables.Live.{absent_of-items}
use segstore.Tables.Invariant.{All, OwnedIn, IsValid, live_segment_of}
use segstore.Tables.Supersede.{add-fields, delete-fields, supersede-superseded, owner_is}
use segstore.LiveIds.{live_ids_new}
use segstore.Reads.{position, live_ids_at, live_ids_from, store_live_ids, store_is_live_in}

abbrev pub op_id : {Key Item : Type 0} → Op Key Item → Key
op_id (add id item) = id
op_id (delete id) = id

position-cons :
    (y : ℕ) (l : List ℕ) (s i : ℕ)
    → position (y ∷ l) s ≡ some i
    → ((y ≡ s) × (i ≡ 0)) ⊎ ((k : ℕ) × (position l s ≡ some k) × (i ≡ suc k))
unfolding position
position-cons y l s i = elim (Bool-cases (y == s)) [
  | inl here ↦ rw here (λ at. inl (ground arith, sym (some-injective 0 i at)))
  | inr elsewhere ↦ rw elsewhere (elim (Option-cases (position l s)) [
    | inl nowhere ↦ rw nowhere (λ at. absurd (cc))
    | inr (k, later) ↦ rw later (λ at. inr (k, refl, sym (some-injective (suc k) i at)))
  ])
]

All-position :
    {A : Type 0} (P : ℕ × A → Type 0) (l : List ℕ) (m : List A) (s i : ℕ) (x : A)
    → All P (zip l m)
    → position l s ≡ some i
    → get_elem? m i ≡ some x
    → P (s, x)
unfolding zip position
All-position P [] m s i x all at got = absurd (cc)
All-position P (y ∷ l) [] s i x all at got = absurd (cc)
All-position P (y ∷ l) (z ∷ m) s i x all at got = elim (position-cons y l s i at) [
  | inl (here, start) ↦
      let first : z ≡ x = some-injective z x (sym (ap (get_elem? (z ∷ m)) start) ∙ got) in
      subst (λ p. P p) (ap₂ (λ a b. (a, b)) here first) all.0
  | inr (k, later, next) ↦
      All-position P l m s k x all.1 later (sym (ap (get_elem? (z ∷ m)) next) ∙ got)
]

module _ {Key : Type 0} (dec : Discrete Key) where
  keep-congr :
      (p q : Key → Bool) (l : List Key)
      → ((j : Key) → contains dec l j ≡ true → p j ≡ q j)
      → keep p l ≡ keep q l
  unfolding contains
  keep-congr p q [] same = refl
  keep-congr p q (x ∷ l) same =
      ground (arith, same x, dec x x, keep-congr p q l (λ j h. same j (ground arith)))

module _ {Key Item Segment : Type 0} (dec : Discrete Key) where
  -- What a write does to the marks of an id.
  apply-marks :
      (op : Op Key Item) (t : Tables Key Item Segment) (s : ℕ) (j : Key)
      → (superseded_in dec (apply dec op t).superseded s j ≡ (
          (owner_is (live_segment_of dec t (op_id op)) s && eqb dec (op_id op) j)
          || superseded_in dec t.superseded s j))
        × (eqb dec (op_id op) j ≡ false
            → contains dec (apply dec op t).tombstones j ≡ contains dec t.tombstones j)
  apply-marks (add id item) t s j = (
    ap (λ sup. superseded_in dec sup s j) (add-fields dec id t item).3
        ∙ supersede-superseded dec id t s j,
    λ ne.
        ap (λ ts. contains dec ts j) (add-fields dec id t item).2
        ∙ ground (arith, contains-set_remove dec id j t.tombstones, ne),
  )
  apply-marks (delete id) t s j = (
    ap (λ sup. superseded_in dec sup s j) (delete-fields dec id t).3
        ∙ supersede-superseded dec id t s j,
    λ ne.
        ap (λ ts. contains dec ts j) (delete-fields dec id t).2
        ∙ ground (arith, contains-set_insert dec id j t.tombstones, ne),
  )

  apply-segments :
      (op : Op Key Item) (t : Tables Key Item Segment)
      → ((apply dec op t).segments ≡ t.segments) × ((apply dec op t).segment_ids ≡ t.segment_ids)
  apply-segments (add id item) t = ((add-fields dec id t item).5, (add-fields dec id t item).6)
  apply-segments (delete id) t = ((delete-fields dec id t).5, (delete-fields dec id t).6)

module _ {Key Item Segment : Type 0} (dec : Discrete Key) (store : Store Key Item Segment)
    (laws : StoreLaws dec store) (op : Op Key Item) (t : Tables Key Item Segment)
    (valid : IsValid dec (laws.entries) t) (s : ℕ)
    (elsewhere : live_segment_of dec t (op_id op) ≢ some s) where
  -- The written id is not live in the segment, or has no copy there.
  stays-dead :
      (seg : Segment)
      → OwnedIn dec
          (laws.entries)
          t.superseded
          (live_segment_of dec t (op_id op))
          (op_id op)
          (s, seg)
      → contains dec (ids (laws.entries seg)) (op_id op) ≡ true
      → superseded_in dec t.superseded s (op_id op) ≡ true
  stays-dead seg (inl marked) there = marked
  stays-dead seg (inr (inl nothing)) there =
      absurd (ground (arith, absent_of-items dec (op_id op) (laws.entries seg) nothing))
  stays-dead seg (inr (inr (x, one, owner))) there = absurd (elsewhere owner)

  same-live :
      (seg : Segment) (j : Key)
      → OwnedIn dec
          (laws.entries)
          t.superseded
          (live_segment_of dec t (op_id op))
          (op_id op)
          (s, seg)
      → contains dec (ids (laws.entries seg)) j ≡ true
      → store_is_live_in dec (apply dec op t) s j ≡ store_is_live_in dec t s j
  unfolding copy_is_live
  same-live seg j owned there = elim (Bool-cases (eqb dec (op_id op) j)) [
    | inl same ↦
        let p : op_id op ≡ j = ground arith in
        let dead : superseded_in dec t.superseded s j ≡ true =
          ap (superseded_in dec t.superseded s) (sym p)
          ∙ stays-dead seg owned (ap (contains dec (ids (laws.entries seg))) p ∙ there) in
        ground (arith, dead, (apply-marks dec op t s j).0)
    | inr differ ↦
        ground (arith, differ, (apply-marks dec op t s j).0, (apply-marks dec op t s j).1 differ)
  ]

  live_ids_at_same :
      (le : Key → Key → Bool) (i : ℕ)
      → position t.segment_ids s ≡ some i
      → live_ids_at dec le store (apply dec op t) s (get_elem? t.segments i)
        ≡ live_ids_at dec le store t s (get_elem? t.segments i)
  live_ids_at_same le i at = elim (Option-cases (get_elem? t.segments i)) [
    | inl outside ↦ rw outside refl
    | inr (seg, got) ↦
        let owned =
          All-position
            (OwnedIn dec (laws.entries) t.superseded (live_segment_of dec t (op_id op)) (op_id op))
            t.segment_ids t.segments s i seg (valid.owned (op_id op)) at got in
        rw (got, laws.item_ids-entries seg)
          (ap (λ l. ok (some (live_ids_new dec le l)))
            (keep-congr dec (store_is_live_in dec (apply dec op t) s) (store_is_live_in dec t s)
              (ids (laws.entries seg)) (λ j. same-live seg j owned)))
  ]

  live_ids_from_same :
      (le : Key → Key → Bool) (at : Option ℕ)
      → position t.segment_ids s ≡ at
      → live_ids_from dec le store (apply dec op t) s at ≡ live_ids_from dec le store t s at
  live_ids_from_same le none e = refl
  live_ids_from_same le (some i) e =
      ap (λ segs. live_ids_at dec le store (apply dec op t) s (get_elem? segs i))
        (apply-segments dec op t).0
      ∙ live_ids_at_same le i e

  -- In a valid state an add or a delete of an id leaves the live ids of every segment as they are
  -- but of the one that `live_segment_of` names for that id before the write.
  pub live_ids-apply :
      (le : Key → Key → Bool)
      → store_live_ids dec le store (apply dec op t) s ≡ store_live_ids dec le store t s
  unfolding store_live_ids
  live_ids-apply le =
      ap (λ l. live_ids_from dec le store (apply dec op t) s (position l s))
        (apply-segments dec op t).1
      ∙ live_ids_from_same le (position t.segment_ids s) refl
