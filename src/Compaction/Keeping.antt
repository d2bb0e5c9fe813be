-- ===== src/Compaction/Keeping.antt =====
-- The live copies under `compact_tiers` and `force_merge_to` of src/lib.rs.
use mathlib.Core.List.Permᴰ as Perm
use segstore.Base.{
  ℕ, zero, suc, ◌+◌, ◌≤◌, ◌≡◌, inl, inr, false, List, [], ◌∷◌, length, take, arith, refl,
  Option-cases, Bool-cases, ◌==◌, ℕ_discrete, map, leb, ltb,
}
use segstore.Base.Assoc.{contains}
use segstore.Base.Exec.{Exec, ◌>>=◌}
use segstore.Payload.{Store, StoreLaws}
use segstore.Disk.{Disk}
use segstore.Tables.Invariant.{IsValid, Ascending}
use segstore.Tables.Select.{Distinct, Distinct-perm, Ascending-Distinct}
use segstore.Tiers.{Float}
use segstore.Tiers.Shuffle.{sort_by-perm, map-perm}
use segstore.Writer.{Writer, merge_group, seal, checkpoint}
use segstore.Writer.Merging.{Keeps, merge_group-Keeps}
use segstore.Writer.Preserving.{
  Preserving, Preserving-bind, Preserving-then, Preserving-same, seal-Preserving,
  checkpoint-Preserving,
}
use segstore.Compaction.{
  segment_sizes, next_group, tier_rounds, CompactionStats, count_merge, compact_tiers,
  commit_merges, finish, no_merges, force_group, force_rounds, smallest, enumerate,
}
use segstore.Compaction.Progress.{next_group-picks}

enumerate-Ascending :
    (i hi : ℕ) (sizes : List ℕ)
    → i + length sizes ≤ hi
    → Ascending i hi (map (λ m. m.1) (enumerate i sizes))
enumerate-Ascending i hi [] h = omega arith
enumerate-Ascending i hi (x ∷ sizes) h =
    (omega arith, enumerate-Ascending (suc i) hi sizes (omega arith))

absent-take :
    (k i : ℕ) (l : List ℕ)
    → contains ℕ_discrete l i ≡ false
    → contains ℕ_discrete (take k l) i ≡ false
unfolding contains
absent-take zero i l h = refl
absent-take (suc k) i [] h = refl
absent-take (suc k) i (x ∷ l) h = ground (arith, h, absent-take k i l)

Distinct-take : (k : ℕ) (l : List ℕ) → Distinct l → Distinct (take k l)
Distinct-take zero l h = tt
Distinct-take (suc k) [] h = tt
Distinct-take (suc k) (x ∷ l) h = (absent-take k x l h.0, Distinct-take k l h.1)

pub smallest-Distinct : (k : ℕ) (sizes : List ℕ) → Distinct (smallest k sizes)
unfolding smallest
smallest-Distinct k sizes = Distinct-take k _ (
    Distinct-perm
      (map-perm (λ m. m.1) (Perm.symm (sort_by-perm (λ a b. leb a.0 b.0) (enumerate 0 sizes))))
      (Ascending-Distinct 0 (length sizes) _
        (enumerate-Ascending 0 (length sizes) sizes (omega arith))))

module _ {D F Key Item Segment : Type 0} (dec : Discrete Key) (store : Store Key Item Segment)
    (laws : StoreLaws dec store) (disk : Disk D Key Item Segment) (float : Float F) where
  open laws use {entries}

  pub finish-Preserving :
      (stats : CompactionStats)
      → Preserving dec entries {D = D} {F = F} (finish dec store disk float stats)
  finish-Preserving stats =
      Preserving-same dec entries (finish dec store disk float stats) (λ w. refl)

  pub commit_merges-Preserving :
      (stats : CompactionStats)
      → Preserving dec entries {D = D} {F = F} (commit_merges dec store disk float stats)
  commit_merges-Preserving stats = elim (Bool-cases (stats.merges == 0)) [
    | inl e ↦ rw e (finish-Preserving stats)
    | inr e ↦ rw e (
        Preserving-then dec entries (checkpoint dec store disk) (finish dec store disk float stats)
          (checkpoint-Preserving dec store laws disk) (finish-Preserving stats))
  ]

  tier_rounds-Preserving :
      (fuel : ℕ) (stats : CompactionStats)
      → Preserving dec entries {D = D} {F = F} (tier_rounds dec store disk float fuel stats)
  unfolding tier_rounds
  tier_rounds-Preserving zero stats w v = (v, λ j. refl)
  tier_rounds-Preserving (suc fuel) stats w v =
      elim (Option-cases (next_group dec store disk float w)) [
        | inl e ↦ rw (tier_rounds, e) (v, λ j. refl)
        | inr (group, e) ↦
            rw (tier_rounds, e)
              (Preserving-bind dec entries (merge_group dec store disk group)
                (λ n. tier_rounds dec store disk float fuel (count_merge n stats))
                (λ u p.
                  merge_group-Keeps dec store laws disk u group p
                    (next_group-picks dec store laws disk float w group e).0)
                (λ n. tier_rounds-Preserving fuel (count_merge n stats)) w v)
      ]

  pub compact_tiers-Preserving :
      Preserving dec entries {D = D} {F = F} (compact_tiers dec store disk float)
  unfolding compact_tiers
  compact_tiers-Preserving =
      Preserving-then dec entries (seal dec store disk) rounds (seal-Preserving dec store laws disk)
        (λ w.
          Preserving-bind dec entries
            (tier_rounds dec store disk float (length w.tables.segments)
              (no_merges (length w.tables.segments)))
            (commit_merges dec store disk float)
            (tier_rounds-Preserving (length w.tables.segments)
              (no_merges (length w.tables.segments)))
            commit_merges-Preserving w)
    where
      rounds : Exec (Writer D F Key Item Segment) CompactionStats
      rounds w =
          (tier_rounds dec store disk float (length w.tables.segments)
                (no_merges (length w.tables.segments))
              >>= commit_merges dec store disk float)
            w

  pub force_rounds-Preserving :
      (fuel max_segments : ℕ) (stats : CompactionStats)
      → Preserving dec entries {D = D} {F = F}
          (force_rounds dec store disk float fuel max_segments stats)
  unfolding force_rounds
  force_rounds-Preserving zero max_segments stats w v = (v, λ j. refl)
  force_rounds-Preserving (suc fuel) max_segments stats w v =
      elim (Bool-cases (ltb max_segments (length w.tables.segments))) [
        | inl e ↦
            rw (force_rounds, e)
              (Preserving-bind dec entries
                (merge_group dec store disk (force_group dec store disk float max_segments w))
                (λ n. force_rounds dec store disk float fuel max_segments (count_merge n stats))
                (λ u p.
                  merge_group-Keeps dec store laws disk u
                    (force_group dec store disk float max_segments w) p
                    (unfold force_group in smallest-Distinct _ (segment_sizes dec store w.tables)))
                (λ n. force_rounds-Preserving fuel max_segments (count_merge n stats)) w v)
        | inr e ↦ rw (force_rounds, e) (v, λ j. refl)
      ]

  -- From a valid state, `compact_tiers` leaves a valid state with the live copies of every id as
  -- they were, whether it returns or stops at an error.
  pub compact_tiers-Keeps :
      (w : Writer D F Key Item Segment)
      → IsValid dec entries w.tables
      → Keeps dec entries w.tables (compact_tiers dec store disk float w).1.tables
  compact_tiers-Keeps w v = compact_tiers-Preserving w v
