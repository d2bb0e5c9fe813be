-- ===== src/Tables/Flush.antt =====
-- The live copies under `flush_buffer` of src/lib.rs.
use mathlib.Core.Path.{subst₂}
use segstore.Base.{
  ℕ, suc, ◌≤◌, ◌≡◌, ◌⊎◌, inl, inr, true, false, List, [], ◌∷◌, ◌++◌, some, length, arith,
  if◌then◌else◌, refl, Option-cases, Bool-cases, append-nil, ap, ◌∙◌, sym, is_empty, length-append,
}
use segstore.Base.Assoc.{contains, get, insert, get-insert}
use segstore.Payload.{Store, StoreLaws, items_of, ids}
use segstore.Manifest.{copy_is_live}
use segstore.Tables.{Tables, zip, own_all, flush_buffer, owners_after_seal}
use segstore.Tables.Live.{
  sealed, live_items, sealed_items, copies, sealed_items-append, items_of-absent, contains_of-items,
}
use segstore.Tables.Invariant.{
  All, All-imp, All-append, OwnedIn, IsValid, live_segment_of, is_some, Ascending-snoc,
}

pub zip-snoc {ℓ κ} :
    {A : Type ℓ} {B : Type κ} (l : List A) (m : List B) (a : A) (b : B)
    → length m ≡ length l
    → zip (l ++ a ∷ []) (m ++ b ∷ []) ≡ zip l m ++ (a, b) ∷ []
unfolding zip
zip-snoc [] [] a b e = refl
zip-snoc [] (y ∷ m) a b e = absurd (omega arith)
zip-snoc (x ∷ l) [] a b e = absurd (omega arith)
zip-snoc (x ∷ l) (y ∷ m) a b e = ap (◌∷◌ (x, y)) (zip-snoc l m a b (omega arith))

pub get-own_all :
    {Key : Type 0} (dec : Discrete Key) (s : ℕ) (l : List Key) (owners : List (Key × ℕ)) (j : Key)
    → get dec (own_all dec s l owners) j ≡ (if contains dec l j then some s else get dec owners j)
unfolding own_all contains
get-own_all dec s [] owners j = refl
get-own_all dec s (id ∷ l) owners j =
    ground (
      arith,
      get-own_all dec s l (insert dec id s owners) j,
      get-insert dec id j s owners,
      dec id j,
    )

pub short_cases {ℓ} : {A : Type ℓ} (l : List A) → length l ≤ 1 → (l ≡ []) ⊎ ((x : A) × (l ≡ x ∷ []))
short_cases [] h = inl refl
short_cases (x ∷ []) h = inr (x, refl)
short_cases (x ∷ y ∷ l) h = absurd (omega arith)

module _ {Key Item Segment : Type 0} (dec : Discrete Key) (store : Store Key Item Segment)
    (laws : StoreLaws dec store) where
  open laws use {entries}

  module _ (t : Tables Key Item Segment) (v : IsValid dec entries t)
      (full : is_empty t.buffer ≡ false) where
    abbrev flushed : Tables Key Item Segment
    flushed = flush_buffer dec store t

    flush-fields :
        (flushed.buffer ≡ [])
        × (flushed.buffer_ids ≡ [])
        × (flushed.tombstones ≡ t.tombstones)
        × (flushed.superseded ≡ t.superseded)
        × (flushed.segments ≡ t.segments ++ store.build_segment t.buffer ∷ [])
        × (flushed.segment_ids ≡ t.segment_ids ++ t.next_seg_id ∷ [])
        × (flushed.next_seg_id ≡ suc t.next_seg_id)
    unfolding flush_buffer
    flush-fields = rw full (refl, refl, refl, refl, refl, refl, refl)

    flush-owners_eq :
        flushed.owners ≡ owners_after_seal dec store t t.next_seg_id (store.build_segment t.buffer)
    unfolding flush_buffer
    flush-owners_eq = rw full

    seal-owners :
        (o : List (Key × ℕ))
        → t.owners ≡ some o
        → owners_after_seal dec store t t.next_seg_id (store.build_segment t.buffer)
          ≡ some (own_all dec t.next_seg_id (ids t.buffer) o)
    unfolding owners_after_seal
    seal-owners o e = ground (arith, e, laws.item_ids-entries (store.build_segment t.buffer))

    flush-owners :
        (is_some flushed.owners ≡ true)
        × ((j : Key)
            → live_segment_of dec flushed j ≡ (
                if contains dec (ids t.buffer) j
                then some t.next_seg_id
                else live_segment_of dec t j))
    flush-owners = elim (Option-cases t.owners) [
      | inl e ↦ absurd (ground (arith, v.tracked))
      | inr (o, e) ↦
          let e' : flushed.owners ≡ some (own_all dec t.next_seg_id (ids t.buffer) o) =
            flush-owners_eq ∙ seal-owners o e in
          (
            rw e' refl,
            λ j.
                unfold live_segment_of in
                rw (e', e) (get-own_all dec t.next_seg_id (ids t.buffer) o j),
          )
    ]

    sealed-flush :
        sealed dec entries flushed
        ≡ sealed dec entries t ++ (t.next_seg_id, store.build_segment t.buffer) ∷ []
    sealed-flush =
        let f = flush-fields in
        rw (f.4, f.5)
          (zip-snoc t.segment_ids t.segments t.next_seg_id (store.build_segment t.buffer)
            v.lockstep)

    -- The new segment holds what the buffer held, all of it live.
    live-build :
        (j : Key)
        → live_items dec entries t.tombstones t.superseded j
            (t.next_seg_id, store.build_segment t.buffer)
          ≡ items_of dec j t.buffer
    unfolding live_items copy_is_live
    live-build j = elim (Bool-cases (contains dec (ids t.buffer) j)) [
      | inl h ↦
          rw (v.revived j h, v.fresh t.next_seg_id j (omega arith))
            (laws.items-build_segment t.buffer j)
      | inr h ↦
          ground (arith, items_of-absent dec j t.buffer h, laws.items-build_segment t.buffer j)
    ]

    copies-flush_full : (j : Key) → copies dec entries flushed j ≡ copies dec entries t j
    unfolding copies items_of
    copies-flush_full j =
        let f = flush-fields in
        rw (sealed-flush, f.0, f.2, f.3)
          (rw
            (sealed_items-append dec entries t.tombstones t.superseded (sealed dec entries t)
              ((t.next_seg_id, store.build_segment t.buffer) ∷ []) j)
            (unfold sealed_items in simp (live-build, append-nil)))

    owned-build :
        (j : Key)
        → OwnedIn dec entries t.superseded
            (live_segment_of dec flushed j)
            j
            (t.next_seg_id, store.build_segment t.buffer)
    owned-build j = elim (short_cases (items_of dec j t.buffer) (v.single j)) [
      | inl e ↦ inr (inl (laws.items-build_segment t.buffer j ∙ e))
      | inr (x, e) ↦ inr (
          inr (
            x,
            laws.items-build_segment t.buffer j ∙ e,
            flush-owners.1 j ∙ rw (contains_of-items dec j t.buffer e),
          ))
    ]

    owned-old :
        (j : Key) (p : ℕ × Segment)
        → OwnedIn dec entries t.superseded (live_segment_of dec t j) j p
        → OwnedIn dec entries t.superseded (live_segment_of dec flushed j) j p
    owned-old j (s, seg) o = ground (arith, o, flush-owners.1 j, v.moved j)

    nothing : (j : Key) → contains dec (ids flushed.buffer) j ≡ true → ⊥
    unfolding contains
    nothing j h = ground (arith, flush-fields.0)

    flush-IsValid_full : IsValid dec entries flushed
    flush-IsValid_full =
        let f = flush-fields in
        let own = flush-owners.1 in
        record {
          lockstep =
              rw (f.4, f.5)
                (omega (
                  arith,
                  v.lockstep,
                  length-append t.segments (store.build_segment t.buffer ∷ []),
                  length-append t.segment_ids (t.next_seg_id ∷ []),
                ));
          ascending = rw (f.5, f.6) (Ascending-snoc 0 t.next_seg_id t.segment_ids v.ascending);
          fresh = λ s j h. rw f.3 (v.fresh s j (ground (arith, f.6)));
          indexed = λ j. rw (f.0, f.1) refl;
          single = λ j. rw f.0 (unfold items_of in omega arith);
          revived = λ j h. absurd (nothing j h);
          buried = λ j h. ground (arith, own j, v.revived j, v.buried j, f.2, h);
          tracked = flush-owners.0;
          bounded = λ j s h. ground (arith, f.6, own j, v.bounded j s);
          owned = λ j.
              subst₂ (λ sup ps. All (OwnedIn dec entries sup (live_segment_of dec flushed j) j) ps)
                (sym f.3) (sym sealed-flush)
                (All-append (OwnedIn dec entries t.superseded (live_segment_of dec flushed j) j)
                  (sealed dec entries t) ((t.next_seg_id, store.build_segment t.buffer) ∷ [])
                  (All-imp _ _ (sealed dec entries t) (owned-old j) (v.owned j))
                  (owned-build j, tt));
          moved = λ j h. absurd (nothing j h);
        }

  -- From a valid state, sealing the buffer leaves the live copies of every id as they were.
  pub copies-flush_buffer :
      (t : Tables Key Item Segment) (j : Key)
      → IsValid dec entries t
      → copies dec entries (flush_buffer dec store t) j ≡ copies dec entries t j
  copies-flush_buffer t j v = elim (Bool-cases (is_empty t.buffer)) [
    | inl e ↦ unfold flush_buffer in rw e
    | inr e ↦ copies-flush_full t v e j
  ]

  -- And it keeps the state valid.
  pub flush_buffer-IsValid :
      (t : Tables Key Item Segment)
      → IsValid dec entries t
      → IsValid dec entries (flush_buffer dec store t)
  flush_buffer-IsValid t v = elim (Bool-cases (is_empty t.buffer)) [
    | inl e ↦ unfold flush_buffer in rw e v
    | inr e ↦ flush-IsValid_full t v e
  ]
