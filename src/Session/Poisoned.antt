-- ===== src/Session/Poisoned.antt =====
-- Runs of calls on a poisoned `SegmentedStore` of src/lib.rs.
use mathlib.Core.Path.{◌∙◌, subst, sym}
use segstore.Base.{◌≡◌, Bool, true, false, ◌&&◌, List, [], ◌∷◌, refl, arith, inl, inr}
use segstore.Base.Result.{Result, err, Result-cases, is_ok, invalid_state, store_poisoned}
use segstore.Base.Exec.{Exec, ◌>>◌, return}
use segstore.Payload.{Store, StoreLaws}
use segstore.Disk.{Disk}
use segstore.Tables.Invariant.{IsValid}
use segstore.Tiers.{Float}
use segstore.Writer.{Writer}
use segstore.Writer.Merging.{Keeps}
use segstore.Compaction.{compact, compact_tiers, force_merge_to, reclaim_tombstones}
use segstore.Compaction.Full.{compact-Keeps}
use segstore.Compaction.Forced.{force_merge_to-Keeps}
use segstore.Compaction.Keeping.{compact_tiers-Keeps}
use segstore.Compaction.Reclaim.{reclaim_tombstones-Keeps}
use segstore.Ingest.{add, delete, extend}
use segstore.Session.{
  Call, adding, deleting, extending, compacting, merging_tiers, checkpointing, forcing, reclaiming,
  perform, run_calls,
}
use segstore.Session.Frozen.{
  Frozen, Frozen-same, Frozen-trans, Freezes, check_poisoned-refuses, checkpoint-refused,
  compact-Freezes, compact_tiers-Freezes, force_merge_to-Freezes, reclaim_tombstones-Freezes,
}

-- The calls that would log a record or commit a manifest.
abbrev pub is_write : {F Key Item : Type 0} → Call F Key Item → Bool
is_write (adding id item) = true
is_write (deleting id) = true
is_write (extending items) = true
is_write compacting = false
is_write merging_tiers = false
is_write checkpointing = true
is_write (forcing n) = false
is_write (reclaiming ratio) = false

-- None of them returns without an error.
abbrev pub AllRefused : {F Key Item : Type 0} → List (Call F Key Item) → List Bool → Type 0
AllRefused [] acks = Unit
AllRefused (call ∷ calls) [] = ⊥
AllRefused (call ∷ calls) (ack ∷ acks) = ((is_write call && ack) ≡ false) × AllRefused calls acks

module _ {D F Key Item Segment : Type 0} (dec : Discrete Key) (store : Store Key Item Segment)
    (laws : StoreLaws dec store) (disk : Disk D Key Item Segment) (float : Float F) where
  open laws use {entries}

  abbrev Stalls :
      Call F Key Item
      → Writer D F Key Item Segment
      → Result (Unit {0}) × Writer D F Key Item Segment
      → Type 0
  Stalls call w r =
      Frozen disk w r.1
      × Keeps dec entries w.tables r.1.tables
      × ((is_write call && is_ok r.0) ≡ false)

  refused-Stalls :
      (call : Call F Key Item) (w : Writer D F Key Item Segment)
      (r : Result (Unit {0}) × Writer D F Key Item Segment)
      → w.poisoned ≡ true
      → IsValid dec entries w.tables
      → r ≡ (err (invalid_state store_poisoned), w)
      → Stalls call w r
  refused-Stalls call w r p v e =
      subst (Stalls call w) (sym e) (Frozen-same disk w p, (v, λ j. refl), ground arith)

  maintenance-Stalls :
      {A : Type 0} (call : Call F Key Item) (m : Exec (Writer D F Key Item Segment) A)
      (w : Writer D F Key Item Segment)
      → is_write call ≡ false
      → w.poisoned ≡ true
      → Freezes disk m
      → Keeps dec entries w.tables (m w).1.tables
      → Stalls call w ((m >> return tt) w)
  maintenance-Stalls call m w quiet p freezes keeps =
      let same : ((m >> return tt) w).1 ≡ (m w).1 = elim (Result-cases (m w).0) [
        | inl (a, e) ↦ rw e refl
        | inr (x, e) ↦ rw e refl
      ] in
      (
        subst (Frozen disk w) (sym same) (freezes w p),
        subst (λ u. Keeps dec entries w.tables u.tables) (sym same) keeps,
        ground (arith, quiet),
      )

  perform-Stalls :
      (call : Call F Key Item) (w : Writer D F Key Item Segment)
      → w.poisoned ≡ true
      → IsValid dec entries w.tables
      → Stalls call w (perform dec store disk float call w)
  unfolding perform add delete extend
  perform-Stalls (adding id item) w p v =
      refused-Stalls (adding id item) w _ p v (check_poisoned-refuses dec store disk _ w p)
  perform-Stalls (deleting id) w p v =
      refused-Stalls (deleting id) w _ p v (check_poisoned-refuses dec store disk _ w p)
  perform-Stalls (extending items) w p v =
      refused-Stalls (extending items) w _ p v (check_poisoned-refuses dec store disk _ w p)
  perform-Stalls checkpointing w p v =
      refused-Stalls checkpointing w _ p v (checkpoint-refused dec store disk w p)
  perform-Stalls compacting w p v =
      maintenance-Stalls compacting (compact dec store disk float) w refl p
        (compact-Freezes dec store disk float) (compact-Keeps dec store laws disk float w v)
  perform-Stalls merging_tiers w p v =
      maintenance-Stalls merging_tiers (compact_tiers dec store disk float) w refl p
        (compact_tiers-Freezes dec store disk float)
        (compact_tiers-Keeps dec store laws disk float w v)
  perform-Stalls (forcing n) w p v =
      maintenance-Stalls (forcing n) (force_merge_to dec store disk float n) w refl p
        (force_merge_to-Freezes dec store disk float n)
        (force_merge_to-Keeps dec store laws disk float n w v)
  perform-Stalls (reclaiming ratio) w p v =
      maintenance-Stalls (reclaiming ratio) (reclaim_tombstones dec store disk float ratio) w refl p
        (reclaim_tombstones-Freezes dec store disk float ratio)
        (reclaim_tombstones-Keeps dec store laws disk float ratio w v)

  -- From a valid state of a poisoned store, a run of any calls of the writer in any order, going on
  -- after errors, leaves the store poisoned and valid, with the readers' state, the epoch, the log
  -- in use and the live copies of every id as they were and nothing done to the directory but
  -- writes of segment files; every `add`, `delete`, `extend` and `checkpoint` among the calls
  -- fails.
  pub run_calls-Frozen :
      (calls : List (Call F Key Item)) (w : Writer D F Key Item Segment)
      → w.poisoned ≡ true
      → IsValid dec entries w.tables
      → Frozen disk w (run_calls dec store disk float calls w).1
        × Keeps dec entries w.tables (run_calls dec store disk float calls w).1.tables
        × AllRefused calls (run_calls dec store disk float calls w).0
  unfolding run_calls
  run_calls-Frozen [] w p v = (Frozen-same disk w p, (v, λ j. refl), tt)
  run_calls-Frozen (call ∷ calls) w p v =
      let u = (perform dec store disk float call w).1 in
      let (frozen, keeps, refused) = perform-Stalls call w p v in
      let (later, keeps', rest) = run_calls-Frozen calls u frozen.poisoned keeps.0 in
      (
        Frozen-trans disk w u (run_calls dec store disk float calls u).1 frozen later,
        (keeps'.0, λ j. keeps'.1 j ∙ keeps.1 j),
        (refused, rest),
      )
