-- ===== src/Compaction/Forced.antt =====
-- `force_merge_to` of src/lib.rs.
use mathlib.Core.Path.{subst}
use mathlib.Core.List.Permᴰ as Perm
use segstore.Base.{
  ℕ, zero, suc, ◌+◌, ◌-◌, ◌≤◌, ◌<◌, ◌≡◌, inl, inr, true, List, [], ◌∷◌, some, length, take, map,
  max, min, get_elem?, arith, refl, ap, Bool-cases, ltb, leb, sort_by,
}
use segstore.Base.Result.{Result-cases, is_ok}
use segstore.Base.Exec.{Exec, ◌>>=◌}
use segstore.Payload.{Store, StoreLaws}
use segstore.Disk.{Disk}
use segstore.Tables.{select}
use segstore.Tables.Invariant.{All, IsValid}
use segstore.Tables.Select.{All-perm, Distinct}
use segstore.Tiers.{Float}
use segstore.Tiers.Shuffle.{sort_by-perm, map-perm}
use segstore.Writer.{Writer, merge_group, seal}
use segstore.Writer.Merging.{Keeps, merge_group-Keeps}
use segstore.Writer.Preserving.{Preserving, Preserving-bind, Preserving-then, seal-Preserving}
use segstore.Compaction.{
  CompactionStats, count_merge, no_merges, force_group, force_rounds, force_merge_to, commit_merges,
  smallest, enumerate, segment_sizes,
}
use segstore.Compaction.Keeping.{
  commit_merges-Preserving, force_rounds-Preserving, smallest-Distinct,
}
use segstore.Compaction.Full.{compact-Preserving}
use segstore.Compaction.Progress.{Works, merge_group-progress, length-perm}

All-take : (n k : ℕ) (l : List ℕ) → All (λ i. i < n) l → All (λ i. i < n) (take k l)
All-take n zero l h = tt
All-take n (suc k) [] h = tt
All-take n (suc k) (x ∷ l) h = (h.0, All-take n k l h.1)

length-take : {A : Type 0} (k : ℕ) (l : List A) → k ≤ length l → length (take k l) ≡ k
length-take zero l h = refl
length-take (suc k) [] h = absurd (omega arith)
length-take (suc k) (x ∷ l) h = ap suc (length-take k l (omega arith))

length-map : {A B : Type 0} (f : A → B) (l : List A) → length (map f l) ≡ length l
length-map f [] = refl
length-map f (x ∷ l) = ap suc (length-map f l)

length-enumerate : (i : ℕ) (sizes : List ℕ) → length (enumerate i sizes) ≡ length sizes
length-enumerate i [] = refl
length-enumerate i (x ∷ sizes) = ap suc (length-enumerate (suc i) sizes)

enumerate-below :
    (i hi : ℕ) (sizes : List ℕ)
    → i + length sizes ≤ hi
    → All (λ k. k < hi) (map (λ m. m.1) (enumerate i sizes))
enumerate-below i hi [] h = tt
enumerate-below i hi (x ∷ sizes) h = (omega arith, enumerate-below (suc i) hi sizes (omega arith))

smallest-below : (k : ℕ) (sizes : List ℕ) → All (λ i. i < length sizes) (smallest k sizes)
unfolding smallest
smallest-below k sizes = All-take (length sizes) k _ (
    All-perm (λ i. i < length sizes)
      (map-perm (λ m. m.1) (Perm.symm (sort_by-perm (λ a b. leb a.0 b.0) (enumerate 0 sizes))))
      (enumerate-below 0 (length sizes) sizes (omega arith)))

length-smallest : (k : ℕ) (sizes : List ℕ) → k ≤ length sizes → length (smallest k sizes) ≡ k
unfolding smallest
length-smallest k sizes h = length-take k _ (
    omega (
      arith,
      h,
      length-map (λ m. m.1) (sort_by (λ a b. leb a.0 b.0) (enumerate 0 sizes)),
      length-perm (sort_by-perm (λ a b. leb a.0 b.0) (enumerate 0 sizes)),
      length-enumerate 0 sizes,
    ))

get_elem-below :
    {A : Type 0} (l : List A) (i : ℕ) → i < length l → (x : A) × (get_elem? l i ≡ some x)
get_elem-below [] i h = absurd (omega arith)
get_elem-below (x ∷ l) zero h = (x, refl)
get_elem-below (x ∷ l) (suc i) h = get_elem-below l i (omega arith)

select-below :
    {A : Type 0} (l : List A) (idx : List ℕ)
    → All (λ i. i < length l) idx
    → (xs : List A) × (select l idx ≡ some xs)
unfolding select
select-below l [] h = ([], refl)
select-below l (i ∷ idx) h =
    let (x, g) = get_elem-below l i h.0 in
    let (xs, s) = select-below l idx h.1 in (x ∷ xs, ground (arith, g, s))

module _ {D F Key Item Segment : Type 0} (dec : Discrete Key) (store : Store Key Item Segment)
    (laws : StoreLaws dec store) (disk : Disk D Key Item Segment) (float : Float F) where
  open laws use {entries}

  abbrev all_rounds : ℕ → Exec (Writer D F Key Item Segment) CompactionStats
  all_rounds max_segments w =
      (force_rounds dec store disk float (length w.tables.segments) max_segments
            (no_merges (length w.tables.segments))
          >>= commit_merges dec store disk float)
        w

  all_rounds-Preserving :
      (max_segments : ℕ) → Preserving dec entries {D = D} {F = F} (all_rounds max_segments)
  all_rounds-Preserving max_segments w =
      Preserving-bind dec entries
        (force_rounds dec store disk float (length w.tables.segments) max_segments
          (no_merges (length w.tables.segments)))
        (commit_merges dec store disk float)
        (force_rounds-Preserving dec store laws disk float (length w.tables.segments) max_segments
          (no_merges (length w.tables.segments)))
        (commit_merges-Preserving dec store laws disk float) w

  -- From a valid state, `force_merge_to` leaves a valid state with the live copies of every id as
  -- they were, also when it merges everything and clears the tombstones, whether it returns or
  -- stops at an error.
  pub force_merge_to-Keeps :
      (max_segments : ℕ) (w : Writer D F Key Item Segment)
      → IsValid dec entries w.tables
      → Keeps dec entries w.tables (force_merge_to dec store disk float max_segments w).1.tables
  unfolding force_merge_to
  force_merge_to-Keeps max_segments w v = elim (Bool-cases (leb max_segments 1)) [
    | inl one ↦ rw (force_merge_to, one) (compact-Preserving dec store laws disk float w v)
    | inr many ↦
        rw (force_merge_to, many)
          (Preserving-then dec entries (seal dec store disk) (all_rounds max_segments)
            (seal-Preserving dec store laws disk) (all_rounds-Preserving max_segments) w v)
  ]

  length-force_group :
      (max_segments : ℕ) (w : Writer D F Key Item Segment)
      → 1 ≤ max_segments
      → max_segments < length w.tables.segments
      → 2 ≤ length (force_group dec store disk float max_segments w)
  unfolding force_group
  length-force_group max_segments w some_left over = omega (
    arith,
    length-smallest
        (min (min (suc (length w.tables.segments - max_segments)) (max w.tiering.max_merge 2))
          (length w.tables.segments))
        (segment_sizes dec store w.tables)
        (omega (arith, length-map store.segment_len w.tables.segments)),
    some_left,
    over,
  )

  force_group-Distinct :
      (max_segments : ℕ) (w : Writer D F Key Item Segment)
      → Distinct (force_group dec store disk float max_segments w)
  unfolding force_group
  force_group-Distinct max_segments w = smallest-Distinct _ (segment_sizes dec store w.tables)

  force_group-picks :
      (max_segments : ℕ) (w : Writer D F Key Item Segment)
      → (segs : List Segment) × (select w.tables.segments
            (force_group dec store disk float max_segments w)
          ≡ some segs)
  unfolding force_group
  force_group-picks max_segments w = select-below w.tables.segments _ (
      subst (λ n. All (λ i. i < n) (force_group dec store disk float max_segments w))
        (length-map store.segment_len w.tables.segments)
        (smallest-below _ (segment_sizes dec store w.tables)))

  -- From a valid state, with fuel for as many rounds as there are segments, a bound of at least one
  -- and a directory that takes every segment write, the loop of `force_merge_to` returns a result,
  -- and then no more segments are left than the bound.
  pub force_rounds-finishes :
      (fuel max_segments : ℕ) (stats : CompactionStats) (w : Writer D F Key Item Segment)
      → Works dec store laws disk float
      → IsValid dec entries w.tables
      → 1 ≤ max_segments
      → length w.tables.segments ≤ fuel
      → (is_ok (force_rounds dec store disk float fuel max_segments stats w).0 ≡ true)
        × (length (force_rounds dec store disk float fuel max_segments stats w).1.tables.segments
            ≤ max_segments)
  unfolding force_rounds
  force_rounds-finishes zero max_segments stats w works v positive h = (refl, omega arith)
  force_rounds-finishes (suc fuel) max_segments stats w works v positive h =
      elim (Bool-cases (ltb max_segments (length w.tables.segments))) [
        | inl over ↦
            let group = force_group dec store disk float max_segments w in
            let (segs, picked) = force_group-picks max_segments w in
            let distinct = force_group-Distinct max_segments w in
            let two = length-force_group max_segments w positive (ground arith) in
            let (fine, fewer) =
              merge_group-progress dec store laws disk float w group segs works v.lockstep distinct
                picked in
            elim (Result-cases (merge_group dec store disk group w).0) [
              | inl (n, f) ↦
                  rw (force_rounds, over, f)
                    (force_rounds-finishes fuel max_segments (count_merge n stats)
                      (merge_group dec store disk group w).1 works
                      (merge_group-Keeps dec store laws disk w group v distinct).0 positive
                      (omega (arith, fewer, two, h)))
              | inr (x, f) ↦ absurd (ground (arith, f, fine))
            ]
        | inr few ↦ rw (force_rounds, few) (refl, ground arith)
      ]
