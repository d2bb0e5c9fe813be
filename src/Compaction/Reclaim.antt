-- ===== src/Compaction/Reclaim.antt =====
-- The live copies under `reclaim_tombstones` of src/lib.rs.
use mathlib.Core.Path.{subst}
use segstore.Base.{
  ℕ, suc, ◌+◌, ◌≤◌, ◌≡◌, inl, inr, List, [], ◌∷◌, some, length, arith, refl, Option-cases,
  Bool-cases, ◌==◌,
}
use segstore.Base.Exec.{◌>>◌}
use segstore.Payload.{Store, StoreLaws}
use segstore.Manifest.{copy_is_live}
use segstore.Disk.{Disk}
use segstore.Tables.Invariant.{IsValid, Ascending}
use segstore.Tables.Select.{Ascending-Distinct, Ascending-weaken}
use segstore.Tiers.{Float}
use segstore.Writer.{Writer, merge_group, seal, checkpoint}
use segstore.Writer.Merging.{Keeps, merge_group-Keeps}
use segstore.Writer.Preserving.{
  Preserving, Preserving-bind, Preserving-then, seal-Preserving, checkpoint-Preserving,
}
use segstore.Compaction.{
  targets, reclaim_targets, reclaim_tombstones, finish, count_merge, no_merges,
}
use segstore.Compaction.Keeping.{finish-Preserving}

module _ {D F Key Item Segment : Type 0} (dec : Discrete Key) (store : Store Key Item Segment)
    (laws : StoreLaws dec store) (disk : Disk D Key Item Segment) (float : Float F) where
  open laws use {entries}

  targets-Ascending :
      (ratio : F) (ts : List Key) (sup : List (ℕ × List Key)) (i hi : ℕ) (segs : List Segment)
      (is l : List ℕ)
      → i + length segs ≤ hi
      → targets dec store float ratio ts sup i segs is ≡ some l
      → Ascending i hi l
  unfolding targets
  targets-Ascending ratio ts sup i hi [] is l h e =
      let s : [] ≡ l = cc in subst (Ascending i hi) s (omega arith)
  targets-Ascending ratio ts sup i hi (seg ∷ segs) [] l h e =
      let s : [] ≡ l = cc in subst (Ascending i hi) s (omega arith)
  targets-Ascending ratio ts sup i hi (seg ∷ segs) (s ∷ is) l h e =
      let later =
        λ (m : List ℕ) (f : targets dec store float ratio ts sup (suc i) segs is ≡ some m).
          targets-Ascending ratio ts sup (suc i) hi segs is m (omega arith) f in
      let weak = λ (f : targets dec store float ratio ts sup (suc i) segs is ≡ some l).
        Ascending-weaken (suc i) i hi l (omega arith) (later l f) in
      elim (Bool-cases (store.segment_len seg == 0)) [
        | inl z ↦ weak (ground (arith, e, z))
        | inr z ↦ elim (Option-cases (store.live_len seg (copy_is_live dec ts sup s))) [
          | inl n ↦ absurd (ground (arith, e, z, n))
          | inr (live, n) ↦
              elim (Bool-cases (
                float.lt (float.of_ℕ live)
                  (float.mul ratio (float.of_ℕ (store.segment_len seg))))) [
                    | inl low ↦
                        elim (Option-cases (targets dec store float ratio ts sup (suc i) segs is)) [
                          | inl f ↦ absurd (ground (arith, e, z, n, low, f))
                          | inr (m, f) ↦
                              let c : i ∷ m ≡ l = ground (arith, e, z, n, low, f) in
                              subst (Ascending i hi) c (omega arith, later m f)
                        ]
                    | inr high ↦ weak (ground (arith, e, z, n, high))
                  ]
        ]
      ]

  reclaim_targets-Preserving :
      (ratio : F)
      → Preserving dec entries {D = D} {F = F} (reclaim_targets dec store disk float ratio)
  unfolding reclaim_targets
  reclaim_targets-Preserving ratio w v =
      elim (Option-cases (
        targets dec store float ratio w.tables.tombstones w.tables.superseded 0 w.tables.segments
          w.tables.segment_ids)) [
            | inl e ↦ rw (reclaim_targets, e) (v, λ j. refl)
            | inr ([], e) ↦ rw (reclaim_targets, e) (v, λ j. refl)
            | inr (i ∷ is, e) ↦
                let d = Ascending-Distinct 0 (length w.tables.segments) (i ∷ is) (
                  targets-Ascending ratio w.tables.tombstones w.tables.superseded 0
                    (length w.tables.segments) w.tables.segments w.tables.segment_ids (i ∷ is)
                    (omega arith) e) in
                rw (reclaim_targets, e)
                  (Preserving-bind dec entries (merge_group dec store disk (i ∷ is))
                    (λ n.
                      checkpoint dec store disk
                      >> finish dec store disk float
                          (count_merge n (no_merges (length w.tables.segments))))
                    (λ u p. merge_group-Keeps dec store laws disk u (i ∷ is) p d)
                    (λ n.
                      Preserving-then dec entries (checkpoint dec store disk)
                        (finish dec store disk float
                          (count_merge n (no_merges (length w.tables.segments))))
                        (checkpoint-Preserving dec store laws disk)
                        (finish-Preserving dec store laws disk float
                          (count_merge n (no_merges (length w.tables.segments)))))
                    w v)
          ]

  -- From a valid state, `reclaim_tombstones` leaves a valid state with the live copies of every id
  -- as they were, whether it returns or stops at an error.
  pub reclaim_tombstones-Keeps :
      (ratio : F) (w : Writer D F Key Item Segment)
      → IsValid dec entries w.tables
      → Keeps dec entries w.tables (reclaim_tombstones dec store disk float ratio w).1.tables
  unfolding reclaim_tombstones
  reclaim_tombstones-Keeps ratio w v =
      Preserving-then dec entries (seal dec store disk) (reclaim_targets dec store disk float ratio)
        (seal-Preserving dec store laws disk) (reclaim_targets-Preserving ratio) w v
