-- ===== src/Recovery/Committed.antt =====
-- The manifest that `checkpoint` of src/lib.rs writes, as `read_manifest` loads it.
use mathlib.Core.Path.{sym, ◌∙◌}
use mathlib.Core.List.{Permᴰ}
use mathlib.Core.List.Permᴰ as Perm
use segstore.Base.{
  ℕ, ◌≤◌, ◌≡◌, inl, inr, true, false, List, [], ◌∷◌, ◌++◌, some, map, length, arith, refl,
  append-nil, Bool-cases, ℕ_discrete, if◌then◌else◌, leb, length-append, sort_by,
}
use segstore.Base.Assoc.{get, insert, get-insert, contains, contains-set_of, set_of}
use segstore.Base.Result.{ok}
use segstore.Payload.{items_of}
use segstore.Manifest.{LoadedManifest, superseded_in, copy_is_live}
use segstore.Disk.{Disk, load_v2, superseded_map}
use segstore.Tables.{Tables}
use segstore.Tables.Live.{sealed, sealed_items, live_items, copies}
use segstore.Tables.Invariant.{
  All-imp, All-of, sealed_items-congr, OwnedIn, IsValid, live_segment_of,
}
use segstore.Tables.Select.{Distinct, Distinct-perm, contains-perm}
use segstore.Tables.Unique.{copies_at_most_one}
use segstore.Tiers.Shuffle.{sort_by-perm, map-perm}
use segstore.Writer.{manifest_of}
use segstore.Recovery.Opening.{Accounted}
use segstore.Recovery.Returning.{Once}
use segstore.Recovery.Newest.{newest, over}
use segstore.Recovery.Loaded.{IsCoherent}

-- Superseded sets as a list of pairs, one for each segment.
module _ {Key : Type 0} (dec : Discrete Key) where
  abbrev segments_of : List (ℕ × List Key) → List ℕ
  segments_of = map (λ p. p.0)

  get-perm :
      {l m : List (ℕ × List Key)} (s : ℕ)
      → Permᴰ l m
      → Distinct (segments_of l)
      → get ℕ_discrete l s ≡ get ℕ_discrete m s
  unfolding get contains
  get-perm s Perm.nil d = refl
  get-perm s (Perm.cons e p) d = rw (get-perm s p d.1, e) refl
  get-perm s (Perm.swap {a = a} {b = b} e f) d =
      rw (← e, ← f) (ground (arith, d.0, ℕ_discrete a.0 s, ℕ_discrete b.0 s))
  get-perm s (Perm.trans p q) d =
      get-perm s p d ∙ get-perm s q (Distinct-perm (map-perm (λ p. p.0) p) d)

  superseded_in-same :
      (l m : List (ℕ × List Key)) (s : ℕ) (j : Key)
      → get ℕ_discrete l s ≡ get ℕ_discrete m s
      → superseded_in dec l s j ≡ superseded_in dec m s j
  unfolding superseded_in
  superseded_in-same l m s j e = rw (superseded_in, e) refl

  superseded_in-absent :
      (sup : List (ℕ × List Key)) (s : ℕ) (j : Key)
      → contains ℕ_discrete (segments_of sup) s ≡ false
      → superseded_in dec sup s j ≡ false
  unfolding superseded_in get contains
  superseded_in-absent [] s j h = refl
  superseded_in-absent ((i, l) ∷ sup) s j h = ground (arith, superseded_in-absent sup s j)

  superseded_in-superseded_map :
      {D Item Segment : Type 0} (disk : Disk D Key Item Segment) (ps m : List (ℕ × List Key))
      (s : ℕ) (j : Key)
      → Distinct (segments_of ps)
      → superseded_in dec (superseded_map disk dec ps m) s j ≡ (
          if contains ℕ_discrete (segments_of ps) s
          then superseded_in dec ps s j
          else superseded_in dec m s j)
  unfolding superseded_map superseded_in get contains
  superseded_in-superseded_map disk [] m s j d = refl
  superseded_in-superseded_map disk ((i, l) ∷ ps) m s j d = ground (
    arith,
    superseded_in-superseded_map disk ps (insert ℕ_discrete i (set_of dec l) m) s j d.1,
    get-insert ℕ_discrete i s (set_of dec l) m,
    contains-set_of dec l j,
    ℕ_discrete i s,
    d.0,
  )

  -- Writing the superseded sets in the order of segment ids and loading them loses no mark.
  superseded_in-reloaded :
      {D Item Segment : Type 0} (disk : Disk D Key Item Segment) (sup : List (ℕ × List Key)) (s : ℕ)
      (j : Key)
      → Distinct (segments_of sup)
      → superseded_in dec (superseded_map disk dec (sort_by (λ a b. leb a.0 b.0) sup) []) s j
        ≡ superseded_in dec sup s j
  unfolding superseded_in get
  superseded_in-reloaded disk sup s j d =
      let listed = sort_by (λ a b. leb a.0 b.0) sup in
      let p = sort_by-perm (λ a b. leb a.0 b.0) sup in
      let d' = Distinct-perm (Perm.symm (map-perm (λ q. q.0) p)) d in
      superseded_in-superseded_map disk listed [] s j d'
      ∙ elim (Bool-cases (contains ℕ_discrete (segments_of listed) s)) [
        | inl h ↦ rw h (superseded_in-same listed sup s j (get-perm s p d'))
        | inr h ↦
            rw h (
              sym
                (superseded_in-absent sup s j (sym (contains-perm s (map-perm (λ q. q.0) p)) ∙ h)))
      ]

over_append {ℓ} :
    {A : Type ℓ} (newer older : List A)
    → length (older ++ newer) ≤ 1
    → over newer older ≡ older ++ newer
over_append [] older h = sym (append-nil older)
over_append (x ∷ newer) [] h = refl
over_append (x ∷ newer) (y ∷ older) h = absurd (omega (arith, length-append older (x ∷ newer)))

module _ {Key Item Segment : Type 0} (dec : Discrete Key)
    (entries : Segment → List (Key × Item)) where
  newest-sealed_items :
      (ts : List Key) (sup : List (ℕ × List Key)) (ps : List (ℕ × Segment)) (j : Key)
      → length (sealed_items dec entries ts sup ps j) ≤ 1
      → newest dec entries ts sup ps j ≡ sealed_items dec entries ts sup ps j
  unfolding newest sealed_items
  newest-sealed_items ts sup [] j h = refl
  newest-sealed_items ts sup (p ∷ ps) j h =
      let tail : length (sealed_items dec entries ts sup ps j) ≤ 1 = omega (
        arith,
        h,
        length-append (live_items dec entries ts sup j p) (sealed_items dec entries ts sup ps j),
      ) in
      rw (newest-sealed_items ts sup ps j tail)
        (over_append (sealed_items dec entries ts sup ps j) (live_items dec entries ts sup j p) h)

  -- What a valid state has of an id in one segment, as loading it asks.
  module _ (t : Tables Key Item Segment) (v : IsValid dec entries t) (ts : List Key)
      (sup : List (ℕ × List Key)) (j : Key) (dead : contains dec ts j ≡ contains dec t.tombstones j)
      (marks : (s : ℕ) → superseded_in dec sup s j ≡ superseded_in dec t.superseded s j) where
    owned-Accounted :
        (p : ℕ × Segment)
        → OwnedIn dec entries t.superseded (live_segment_of dec t j) j p
        → Accounted dec entries ts sup j p
    owned-Accounted p (inl marked) = inr (inl (marks p.0 ∙ marked))
    owned-Accounted p (inr (inl nothing)) = inr (inr nothing)
    owned-Accounted p (inr (inr (x, one, owner))) =
        elim (Bool-cases (contains dec t.tombstones j)) [
          | inl buried ↦ absurd (ground (arith, owner, v.buried j buried))
          | inr alive ↦ inl (dead ∙ alive)
        ]

    owned-Once :
        (p : ℕ × Segment)
        → OwnedIn dec entries t.superseded (live_segment_of dec t j) j p
        → Once dec entries ts sup j p
    unfolding copy_is_live
    owned-Once p (inl marked) live = absurd (ground (arith, live, marks p.0, marked))
    owned-Once p (inr (inl nothing)) live = rw nothing (omega arith)
    owned-Once p (inr (inr (x, one, owner))) live = rw one (omega arith)

    newest-copies :
        t.buffer ≡ [] → newest dec entries ts sup (sealed dec entries t) j ≡ copies dec entries t j
    unfolding copies items_of
    newest-copies sealed_up =
        let same =
          sealed_items-congr dec entries ts t.tombstones sup t.superseded j (sealed dec entries t)
            dead (All-of _ (sealed dec entries t) (λ p. marks p.0)) in
        let short = copies_at_most_one dec entries t j v in
        newest-sealed_items ts sup (sealed dec entries t) j (
          rw same (
            omega (
              arith,
              short,
              length-append
                  (sealed_items dec entries t.tombstones t.superseded (sealed dec entries t) j)
                  (items_of dec j t.buffer),
            )))
        ∙ same
        ∙ rw sealed_up (sym (append-nil _))

  -- The manifest of a valid state with an empty buffer loads, is coherent with the segments of that
  -- state, and describes its live copies.
  pub manifest-Committed :
      {D : Type 0} (disk : Disk D Key Item Segment) (epoch : ℕ) (t : Tables Key Item Segment)
      → IsValid dec entries t
      → t.buffer ≡ []
      → Distinct (map (λ p. p.0) t.superseded)
      → (m : LoadedManifest Key) × (load_v2 disk dec (epoch, manifest_of t) ≡ ok (some m))
        × (m.epoch ≡ epoch)
        × (m.segment_ids ≡ t.segment_ids)
        × IsCoherent dec entries m (sealed dec entries t)
        × ((j : Key)
            → newest dec entries m.tombstones m.superseded (sealed dec entries t) j
              ≡ copies dec entries t j)
  unfolding manifest_of
  manifest-Committed disk epoch t v sealed_up distinct =
      let ts = set_of dec t.tombstones in
      let sup = superseded_map disk dec (sort_by (λ a b. leb a.0 b.0) t.superseded) [] in
      let dead : ((j : Key) → contains dec ts j ≡ contains dec t.tombstones j) =
        contains-set_of dec t.tombstones in
      let marks : ((s : ℕ) (j : Key)
          → superseded_in dec sup s j ≡ superseded_in dec t.superseded s j) =
        λ s j. superseded_in-reloaded dec disk t.superseded s j distinct in
      (
        record {
          has_ownership_metadata = true;
          epoch = epoch;
          next_seg_id = t.next_seg_id;
          segment_ids = t.segment_ids;
          tombstones = ts;
          superseded = sup;
        },
        refl,
        refl,
        refl,
        record {
          ascending = v.ascending;
          fresh = λ s j h. marks s j ∙ v.fresh s j h;
          accounted = λ j.
              All-imp (OwnedIn dec entries t.superseded (live_segment_of dec t j) j)
                (Accounted dec entries ts sup j) (sealed dec entries t)
                (owned-Accounted t v ts sup j (dead j) (λ s. marks s j)) (v.owned j);
          once = λ j.
              All-imp (OwnedIn dec entries t.superseded (live_segment_of dec t j) j)
                (Once dec entries ts sup j) (sealed dec entries t)
                (owned-Once t v ts sup j (dead j) (λ s. marks s j)) (v.owned j);
        },
        λ j. newest-copies t v ts sup j (dead j) (λ s. marks s j) sealed_up,
      )
