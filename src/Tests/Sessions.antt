-- ===== src/Tests/Sessions.antt =====
-- The theorems on compactions and runs of calls, applied to the store of Tests/Data.
use segstore.Base.{ℕ, ◌≡◌, ◌≤◌, true, List, [], ◌∷◌, length, arith, refl, ℕ_discrete}
use segstore.Base.Result.{is_ok}
use segstore.Tables.{Op}
use segstore.Tables.Live.{copies}
use segstore.Tables.Invariant.{IsValid}
use segstore.Writer.Merging.{Keeps}
use segstore.Recovery.Replay.{history}
use segstore.Compaction.{compact, force_merge_to, force_rounds, no_merges}
use segstore.Compaction.Full.{compact-Keeps}
use segstore.Compaction.Forced.{force_merge_to-Keeps, force_rounds-finishes}
use segstore.Session.{
  Call, adding, deleting, extending, compacting, forcing, checkpointing, TookInOrder, run_calls,
}
use segstore.Session.Refinement.{run_calls-Refines}
use segstore.Names.{Name}
use segstore.Writer.{Writer}
use segstore.Session.Frozen.{Frozen}
use segstore.Session.Poisoned.{AllRefused, run_calls-Frozen}
use segstore.Tests.Data.{Batch, store, laws, disk, halves, tables, tables-IsValid, writer}

compact-Keeps_example :
    Keeps ℕ_discrete (laws.entries) tables (compact ℕ_discrete store disk halves writer).1.tables
compact-Keeps_example = compact-Keeps ℕ_discrete store laws disk halves writer tables-IsValid

force_merge_to-Keeps_example :
    Keeps ℕ_discrete
      (laws.entries)
      tables
      (force_merge_to ℕ_discrete store disk halves 1 writer).1.tables
force_merge_to-Keeps_example =
    force_merge_to-Keeps ℕ_discrete store laws disk halves 1 writer tables-IsValid

force_rounds-finishes_example :
    (is_ok (force_rounds ℕ_discrete store disk halves 2 1 (no_merges 2) writer).0 ≡ true)
    × (length (force_rounds ℕ_discrete store disk halves 2 1 (no_merges 2) writer).1.tables.segments
        ≤ 1)
force_rounds-finishes_example =
    force_rounds-finishes ℕ_discrete store laws disk halves 2 1 (no_merges 2) writer
      (λ durable name epoch seg d. refl) tables-IsValid (omega arith) (omega arith)

abbrev session : List (Call ℕ ℕ ℕ)
session =
    adding 5 50
    ∷ deleting 1
    ∷ compacting
    ∷ extending ((1, 13) ∷ (6, 60) ∷ [])
    ∷ checkpointing
    ∷ forcing 1
    ∷ []

run_calls-Refines_example :
    IsValid ℕ_discrete
      (laws.entries)
      (run_calls ℕ_discrete store disk halves session writer).1.tables
    × (ops : List (Op ℕ ℕ)) × TookInOrder session
        (run_calls ℕ_discrete store disk halves session writer).0
        ops
    × ((j : ℕ)
        → copies ℕ_discrete
            (laws.entries)
            (run_calls ℕ_discrete store disk halves session writer).1.tables
            j
          ≡ history ℕ_discrete ops j (copies ℕ_discrete (laws.entries) tables j))
run_calls-Refines_example =
    run_calls-Refines ℕ_discrete store laws disk halves session writer tables-IsValid

abbrev broken : Writer (List Name) ℕ ℕ ℕ Batch
broken = record writer { poisoned = true }

run_calls-Frozen_example :
    Frozen disk broken (run_calls ℕ_discrete store disk halves session broken).1
    × Keeps ℕ_discrete
        (laws.entries)
        tables
        (run_calls ℕ_discrete store disk halves session broken).1.tables
    × AllRefused session (run_calls ℕ_discrete store disk halves session broken).0
run_calls-Frozen_example =
    run_calls-Frozen ℕ_discrete store laws disk halves session broken refl tables-IsValid
