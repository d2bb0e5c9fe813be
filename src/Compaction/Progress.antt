-- ===== src/Compaction/Progress.antt =====
-- The segment count under `merge_group` and the loop of `compact_tiers` of src/lib.rs.
use mathlib.Core.List.{Permᴰ}
use mathlib.Core.List.Permᴰ as Perm
use segstore.Base.{
  ℕ, zero, suc, ◌+◌, ◌≤◌, ◌≡◌, inl, inr, Bool, true, List, [], ◌∷◌, Option, none, some, length,
  arith, refl, Option-cases, Bool-cases, ap, ◌∙◌, ◌==◌, length-append, get_elem?,
}
use segstore.Base.Result.{Result-cases, is_ok}
use segstore.Names.{seg_path, manifest_path, Name}
use segstore.Payload.{Store, StoreLaws}
use segstore.Disk.{Disk}
use segstore.Tables.{Tables, select, drop_at, merge_output, install_merged}
use segstore.Tables.Invariant.{All-imp, IsValid}
use segstore.Tables.Select.{Distinct, select-perm, select-cons}
use segstore.Tables.Unique.{length-select}
use segstore.Tiers.{Float, next_merge_group, next_members}
use segstore.Tiers.Choice.{next_members-Chosen, select-Chosen, indices_of}
use segstore.Writer.{Writer, merge_group, merge_selected, persist_segment}
use segstore.Writer.Merging.{merge_group-Keeps}
use segstore.Compaction.{segment_sizes, next_group, tier_rounds, CompactionStats, count_merge}

pub length-perm {ℓ} : {A : Type ℓ} {l m : List A} → Permᴰ l m → length l ≡ length m
length-perm Perm.nil = refl
length-perm (Perm.cons e p) = ap suc (length-perm p)
length-perm (Perm.swap e f) = refl
length-perm (Perm.trans p q) = length-perm p ∙ length-perm q

get_elem-total {ℓ κ} :
    {A : Type ℓ} {B : Type κ} (l : List A) (m : List B) (i : ℕ) {x : A}
    → length l ≡ length m
    → get_elem? l i ≡ some x
    → (y : B) × (get_elem? m i ≡ some y)
get_elem-total [] m i e h = absurd (cc)
get_elem-total (x ∷ l) [] i e h = absurd (omega arith)
get_elem-total (x ∷ l) (y ∷ m) zero e h = (y, refl)
get_elem-total (x ∷ l) (y ∷ m) (suc i) e h = get_elem-total l m i (omega arith) h

-- Lists of one length have the same indices in range.
select-total {ℓ κ} :
    {A : Type ℓ} {B : Type κ} (l : List A) (m : List B) (idx : List ℕ) (xs : List A)
    → length l ≡ length m
    → select l idx ≡ some xs
    → (ys : List B) × (select m idx ≡ some ys)
unfolding select
select-total l m [] xs e h = ([], refl)
select-total l m (i ∷ idx) xs e h =
    let (x, xs', g, s, c) = select-cons l i idx xs h in
    let (ys, t) = select-total l m idx xs' e s in
    let (y, f) = get_elem-total l m i e g in (y ∷ ys, ground (arith, f, t))

module _ {D F Key Item Segment : Type 0} (dec : Discrete Key) (store : Store Key Item Segment)
    (laws : StoreLaws dec store) (disk : Disk D Key Item Segment) (float : Float F) where
  open laws use {entries}

  abbrev pub Works : Type 0
  Works =
      (durable : Bool) (name : Name) (epoch : ℕ) (seg : Segment) (d : D)
      → is_ok (disk.write_segment durable name epoch seg d).0 ≡ true

  count-installed :
      (indices group : List ℕ) (id : Option ℕ) (out : Segment) (t : Tables Key Item Segment)
      → length (install_merged dec store indices group id out t).segments
        ≤ suc (length (drop_at indices 0 t.segments))
  unfolding install_merged
  count-installed indices group none out t = omega arith
  count-installed indices group (some id) out t =
      omega (arith, length-append (drop_at indices 0 t.segments) (out ∷ []))

  merge_selected-progress :
      (w : Writer D F Key Item Segment) (indices group : List ℕ) (segs : List Segment)
      → Works
      → (is_ok (merge_selected dec store disk indices group segs w).0 ≡ true)
        × (length (merge_selected dec store disk indices group segs w).1.tables.segments
            ≤ suc (length (drop_at indices 0 w.tables.segments)))
  unfolding merge_selected persist_segment
  merge_selected-progress w indices group segs works =
      elim (Bool-cases (store.segment_len (merge_output dec store w.tables group segs) == 0)) [
        | inl e ↦ rw e (
          refl,
          count-installed indices group none (merge_output dec store w.tables group segs) w.tables,
        )
        | inr e ↦
            rw e
              (elim (Result-cases
                (disk.write_segment (disk.has_path manifest_path) (seg_path w.tables.next_seg_id) 0
                  (merge_output dec store w.tables group segs) w.dir).0) [
                    | inl (u, f) ↦ rw f (
                      refl,
                      count-installed indices group (some w.tables.next_seg_id)
                          (merge_output dec store w.tables group segs)
                          (record w.tables { next_seg_id = suc w.tables.next_seg_id }),
                    )
                    | inr (x, f) ↦ absurd (
                        ground (
                          arith,
                          f,
                          works (disk.has_path manifest_path) (seg_path w.tables.next_seg_id) 0
                              (merge_output dec store w.tables group segs) w.dir,
                        ))
                  ])
      ]

  -- With a directory that takes every segment write, as many segments as segment ids, and distinct
  -- indices in range, `merge_group` returns a result, and the indices and the segments that are
  -- left number at most one more than the segments before.
  pub merge_group-progress :
      (w : Writer D F Key Item Segment) (indices : List ℕ) (segs : List Segment)
      → Works
      → length w.tables.segments ≡ length w.tables.segment_ids
      → Distinct indices
      → select w.tables.segments indices ≡ some segs
      → (is_ok (merge_group dec store disk indices w).0 ≡ true)
        × (length indices + length (merge_group dec store disk indices w).1.tables.segments
            ≤ suc (length w.tables.segments))
  unfolding merge_group
  merge_group-progress w indices segs works lock d q =
      let (group, p) = select-total w.tables.segments w.tables.segment_ids indices segs lock q in
      let r = merge_selected-progress w indices group segs works in
      let n = length-perm (select-perm indices w.tables.segments segs d q) in
      let a = length-append segs (drop_at indices 0 w.tables.segments) in
      let b = length-select indices w.tables.segments segs q in
      rw (merge_group, p, q) (r.0, omega (arith, r.1, n, a, b))

  -- A chosen group names two or more different segments that exist.
  pub next_group-picks :
      (w : Writer D F Key Item Segment) (group : List ℕ)
      → next_group dec store disk float w ≡ some group
      → Distinct group
        × (2 ≤ length group)
        × ((segs : List Segment) × (select w.tables.segments group ≡ some segs))
  unfolding next_merge_group
  next_group-picks w group e =
      elim (Option-cases
        (next_members float w.tiering w.flush_threshold (segment_sizes dec store w.tables))) [
          | inl n ↦ absurd (ground (arith, e, n))
          | inr (chosen, n) ↦
              let (d, a, enough, most, total) =
                next_members-Chosen float w.tiering w.flush_threshold
                  (segment_sizes dec store w.tables) chosen n in
              let (segs, s, sizes) =
                select-Chosen w.tables.segments store.segment_len chosen
                  (All-imp _ _ chosen (λ m c. c.0) a) in
              let same : indices_of chosen ≡ group = ground (arith, e, n) in
              rw (← same) (d, omega (arith, enough, length-map chosen), (segs, s))
        ]
    where
      length-map : (l : List (ℕ × ℕ)) → length (indices_of l) ≡ length l
      length-map [] = refl
      length-map (x ∷ l) = ap suc (length-map l)

  no_group :
      (w : Writer D F Key Item Segment)
      → length w.tables.segments ≤ 0
      → next_group dec store disk float w ≡ none
  no_group w h = elim (Option-cases (next_group dec store disk float w)) [
    | inl e ↦ e
    | inr (group, e) ↦
        let (d, two, (segs, s)) = next_group-picks w group e in
        absurd (
          omega (
            arith,
            h,
            length-perm (select-perm group w.tables.segments segs d s),
            length-append segs (drop_at group 0 w.tables.segments),
            length-select group w.tables.segments segs s,
            two,
          ))
  ]

  -- From a valid state, with fuel for as many rounds as there are segments and a directory that
  -- takes every segment write, the loop of `compact_tiers` returns a result, and then no bucket is
  -- eligible.
  pub tier_rounds-finishes :
      (fuel : ℕ) (stats : CompactionStats) (w : Writer D F Key Item Segment)
      → Works
      → IsValid dec entries w.tables
      → length w.tables.segments ≤ fuel
      → (is_ok (tier_rounds dec store disk float fuel stats w).0 ≡ true)
        × (next_group dec store disk float (tier_rounds dec store disk float fuel stats w).1 ≡ none)
  unfolding tier_rounds
  tier_rounds-finishes zero stats w works v h = (refl, no_group w h)
  tier_rounds-finishes (suc fuel) stats w works v h =
      elim (Option-cases (next_group dec store disk float w)) [
        | inl e ↦ rw (tier_rounds, e) (refl, e)
        | inr (group, e) ↦
            let (d, two, (segs, s)) = next_group-picks w group e in
            let (fine, fewer) = merge_group-progress w group segs works v.lockstep d s in
            elim (Result-cases (merge_group dec store disk group w).0) [
              | inl (n, f) ↦
                  rw (tier_rounds, e, f)
                    (tier_rounds-finishes fuel (count_merge n stats)
                      (merge_group dec store disk group w).1 works
                      (merge_group-Keeps dec store laws disk w group v d).0
                      (omega (arith, fewer, two, h)))
              | inr (x, f) ↦ absurd (ground (arith, f, fine))
            ]
      ]
