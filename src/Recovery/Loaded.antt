-- ===== src/Recovery/Loaded.antt =====
-- `open_with_options` of src/lib.rs, from the manifest that it reads to the writer that it returns.
use mathlib.Core.Path.{subst, sym, ap, ◌∙◌}
use segstore.Base.{
  ℕ, suc, ◌≤◌, ◌<◌, ◌≡◌, inl, inr, Bool, false, not, ◌&&◌, List, [], ◌∷◌, Option, some, map, length,
  arith, refl, append-nil,
}
use segstore.Base.Assoc.{get, contains}
use segstore.Base.Result.{ok, ok-injective, Result-cases}
use segstore.Names.{wal_path, seg_path, manifest_path}
use segstore.Payload.{Store, StoreLaws, items_of}
use segstore.Manifest.{LoadedManifest, superseded_in}
use segstore.Disk.{Disk, read_manifest, reject_legacy_formats, acquire_store_lock}
use segstore.Tables.{Tables, Op, zip}
use segstore.Tables.Live.{sealed_items, copies}
use segstore.Tables.Invariant.{All, Ascending, OwnedIn, IsValid, live_segment_of}
use segstore.Writer.{Writer, Options}
use segstore.Recovery.{
  own_segments, read_segments, read_log, or_fresh, loaded_tables, recovered, load, is_fsync,
  open_with_options,
}
use segstore.Recovery.Opening.{Accounted, Assigned, own_segments-Assigned}
use segstore.Recovery.Returning.{Once, own_segments-returns}
use segstore.Recovery.Newest.{newest, own_segments-Chosen}
use segstore.Recovery.Replay.{history, replay-history}

module _ {Key Item Segment : Type 0} (dec : Discrete Key)
    (entries : Segment → List (Key × Item)) where
  -- The manifest lists its segments in the order of their ids, marks none from the next id on, has
  -- the copies of its tombstones marked, and no segment holds two live copies of an id.
  pub record IsCoherent (m : LoadedManifest Key) (segs : List (ℕ × Segment)) : Type 0 where
    pub ascending : Ascending 0 m.next_seg_id m.segment_ids
    pub fresh : (s : ℕ) (j : Key) → m.next_seg_id ≤ s → superseded_in dec m.superseded s j ≡ false
    pub accounted : (j : Key) → All (Accounted dec entries m.tombstones m.superseded j) segs
    pub once : (j : Key) → All (Once dec entries m.tombstones m.superseded j) segs

module _ {ℓ κ} {A : Type ℓ} {B : Type κ} where
  pub zip-map : (ps : List (A × B)) → zip (map (λ p. p.0) ps) (map (λ p. p.1) ps) ≡ ps
  unfolding zip
  zip-map [] = refl
  zip-map (p ∷ ps) = ap (◌∷◌ p) (zip-map ps)

  length-maps : (ps : List (A × B)) → length (map (λ p. p.1) ps) ≡ length (map (λ p. p.0) ps)
  length-maps [] = refl
  length-maps (p ∷ ps) = ap suc (length-maps ps)

Ascending-least : (lo hi : ℕ) (l : List ℕ) → Ascending lo hi l → lo ≤ hi
Ascending-least lo hi [] h = h
Ascending-least lo hi (s ∷ l) h =
    let least = h.0 in let above = Ascending-least (suc s) hi l h.1 in omega arith

All-both {ℓ κ μ} :
    {A : Type ℓ} (P : A → Type κ) (Q : A → Type μ) (xs : List A)
    → All P xs
    → All Q xs
    → All (λ x. P x × Q x) xs
All-both P Q [] h k = tt
All-both P Q (x ∷ xs) h k = ((h.0, k.0), All-both P Q xs h.1 k.1)

All-below :
    {Segment : Type 0} (lo hi : ℕ) (ps : List (ℕ × Segment))
    → Ascending lo hi (map (λ p. p.0) ps)
    → All (λ p. p.0 < hi) ps
All-below lo hi [] h = tt
All-below lo hi (p ∷ ps) h =
    (Ascending-least (suc p.0) hi (map (λ q. q.0) ps) h.1, All-below (suc p.0) hi ps h.1)

read_segments-ids :
    {D Key Item Segment : Type 0} (disk : Disk D Key Item Segment) (d : D) (l : List ℕ)
    (segs : List (ℕ × Segment))
    → read_segments disk d l ≡ ok segs
    → map (λ p. p.0) segs ≡ l
unfolding read_segments
read_segments-ids disk d [] segs = λ e. ap (map (λ p. p.0)) (sym (ok-injective e))
read_segments-ids disk d (id ∷ l) segs = elim (Result-cases (disk.read_segment d (seg_path id))) [
  | inr (failure, failed) ↦ rw (read_segments, failed) (λ e. absurd (cc))
  | inl (r, found) ↦ elim (Result-cases (read_segments disk d l)) [
    | inr (failure, failed) ↦ rw (read_segments, found, failed) (λ e. absurd (cc))
    | inl (rest, returned) ↦
        rw (read_segments, found, returned)
          (λ e.
            ap (map (λ p. p.0)) (sym (ok-injective e))
            ∙ ap (◌∷◌ id) (read_segments-ids disk d l rest returned))
  ]
]

module _ {D F Key Item Segment : Type 0} (dec : Discrete Key) (store : Store Key Item Segment)
    (laws : StoreLaws dec store) (disk : Disk D Key Item Segment) (opts : Options F) where
  open laws use {entries}

  module _ (m : LoadedManifest Key) (segs : List (ℕ × Segment)) (owners : List (Key × ℕ))
      (sup : List (ℕ × List Key)) (listed : map (λ p. p.0) segs ≡ m.segment_ids)
      (coherent : IsCoherent dec entries m segs)
      (found : own_segments dec store m.tombstones segs [] m.superseded
        ≡ ok (some owners, sup)) where
    abbrev opened : Tables Key Item Segment
    opened = loaded_tables dec store disk opts m segs (some owners) sup

    order : Ascending 0 m.next_seg_id (map (λ p. p.0) segs)
    order = subst (Ascending 0 m.next_seg_id) (sym listed) coherent.ascending

    assigned :
        (j : Key)
        → Assigned dec store laws m.tombstones m.next_seg_id segs [] m.superseded owners sup j
    assigned j =
        own_segments-Assigned dec store laws m.tombstones m.next_seg_id segs [] owners m.superseded
          sup j
          (All-both (λ p. p.0 < m.next_seg_id) (Accounted dec entries m.tombstones m.superseded j)
            segs (All-below 0 m.next_seg_id segs order) (coherent.accounted j))
          (λ o. unfold get in λ e. absurd (cc), λ s. coherent.fresh s j) found

    opened-IsValid : IsValid dec entries opened
    unfolding live_segment_of contains items_of get
    opened-IsValid = record {
      lockstep = length-maps segs;
      ascending = order;
      fresh = λ s j. (assigned j).1.1 s;
      indexed = λ j. refl;
      single = λ j. omega arith;
      revived = λ j h. absurd (cc);
      buried = λ j dead. (assigned j).3 dead;
      tracked = refl;
      bounded = λ j. (assigned j).1.0;
      owned = λ j.
          subst (All (OwnedIn dec entries sup (get dec owners j) j)) (sym (zip-map segs))
            ((assigned j).0);
      moved = λ j h. absurd (cc);
    }

    copies-opened :
        (j : Key)
        → copies dec entries opened j ≡ newest dec entries m.tombstones m.superseded segs j
    unfolding copies items_of
    copies-opened j = rw (zip-map segs) (
        append-nil (sealed_items dec entries m.tombstones sup segs j)
        ∙ (own_segments-Chosen dec store laws m.tombstones 0 m.next_seg_id segs [] owners
            m.superseded sup j order (λ i o. unfold get in λ e. absurd (cc)) (coherent.accounted j)
            found).0)

  load-Recovers :
      (lock : Bool) (d : D) (found : Option (LoadedManifest Key)) (segs : List (ℕ × Segment))
      (ops : List (Op Key Item))
      → read_manifest disk dec d ≡ ok found
      → read_segments disk d (or_fresh found).segment_ids ≡ ok segs
      → read_log disk d (wal_path (or_fresh found).epoch) ≡ ok ops
      → IsCoherent dec entries (or_fresh found) segs
      → (w : Writer D F Key Item Segment) × (load dec store disk opts lock d ≡ ok w)
        × IsValid dec entries w.tables
        × ((j : Key)
            → copies dec entries w.tables j
              ≡ history dec ops j (
                  newest dec entries
                    (or_fresh found).tombstones
                    (or_fresh found).superseded
                    segs
                    j))
  unfolding load
  load-Recovers lock d found segs ops manifest segments log coherent =
      let m = or_fresh found in
      let listed = read_segments-ids disk d m.segment_ids segs segments in
      let (owners, sup, returned) =
        own_segments-returns dec store laws m.tombstones 0 m.next_seg_id segs [] m.superseded
          (subst (Ascending 0 m.next_seg_id) (sym listed) coherent.ascending)
          (λ j o. unfold get in λ e. absurd (cc)) coherent.once in
      let t = opened m segs owners sup listed coherent returned in
      let (valid, seen) =
        replay-history dec store laws opts.flush_threshold ops t
          (opened-IsValid m segs owners sup listed coherent returned) in
      (
        recovered dec store disk opts m lock t ops d,
        rw (load, manifest, segments, returned, log) refl,
        valid,
        λ j.
            seen j
            ∙ ap (history dec ops j) (copies-opened m segs owners sup listed coherent returned j),
      )

  -- When the sync policy suits the backend, no file of an old format is there, the lock is taken,
  -- and the manifest, its segments and its log are read, `open_with_options` returns a writer, if
  -- the manifest lists the segments in the order of their ids and marks none from the next id on,
  -- the copies of its tombstones are marked, and no segment holds two live copies of an id; the
  -- state is valid, and the live copies of every id are what the logged operations make, in order,
  -- of the live copies in the last segment that has any.
  pub open-Recovers :
      (d d' : D) (lock : Bool) (found : Option (LoadedManifest Key)) (segs : List (ℕ × Segment))
      (ops : List (Op Key Item))
      → (is_fsync opts.sync && not (disk.has_path manifest_path)) ≡ false
      → reject_legacy_formats disk d ≡ ok tt
      → acquire_store_lock disk d ≡ (ok lock, d')
      → read_manifest disk dec d' ≡ ok found
      → read_segments disk d' (or_fresh found).segment_ids ≡ ok segs
      → read_log disk d' (wal_path (or_fresh found).epoch) ≡ ok ops
      → IsCoherent dec entries (or_fresh found) segs
      → (w : Writer D F Key Item Segment) × (open_with_options dec store disk opts d ≡ ok w)
        × IsValid dec entries w.tables
        × ((j : Key)
            → copies dec entries w.tables j
              ≡ history dec ops j (
                  newest dec entries
                    (or_fresh found).tombstones
                    (or_fresh found).superseded
                    segs
                    j))
  unfolding open_with_options
  open-Recovers d d' lock found segs ops suits modern locked manifest segments log coherent =
      let (w, loaded, valid, seen) =
        load-Recovers lock d' found segs ops manifest segments log coherent in
      (w, rw (open_with_options, suits, modern, locked) loaded, valid, seen)
