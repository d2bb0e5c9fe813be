-- ===== src/Session.antt =====
-- A client of `SegmentedStore` (src/lib.rs) that makes any calls in any order and goes on after an
-- error, and the map of ids to values that it may expect.
pub mod Refinement
pub mod Frozen
pub mod Poisoned
use segstore.Base.{ℕ, ◌≡◌, ◌⊎◌, Bool, false, List, [], ◌∷◌, ◌++◌}
use segstore.Base.Result.{is_ok}
use segstore.Base.Exec.{Exec, ◌>>◌, return}
use segstore.Payload.{Store}
use segstore.Disk.{Disk}
use segstore.Tables.{Op}
use segstore.Tiers.{Float}
use segstore.Writer.{Writer}
unfoldable use segstore.Writer.{checkpoint}
unfoldable use segstore.Compaction.{compact, compact_tiers, force_merge_to, reclaim_tombstones}
unfoldable use segstore.Ingest.{add, delete, extend}
use segstore.Ingest.Batch.{adds}

-- `F` is the type of `f64`.
pub data Call (F Key Item : Type 0) : Type 0 where
  adding : Key → Item → Call F Key Item
  deleting : Key → Call F Key Item
  extending : List (Key × Item) → Call F Key Item
  compacting merging_tiers checkpointing : Call F Key Item
  forcing : ℕ → Call F Key Item
  reclaiming : F → Call F Key Item

-- The writes that a call asks for.
abbrev pub writes_of : {F Key Item : Type 0} → Call F Key Item → List (Op Key Item)
writes_of (adding id item) = Op.add id item ∷ []
writes_of (deleting id) = Op.delete id ∷ []
writes_of (extending items) = adds items
writes_of compacting = []
writes_of merging_tiers = []
writes_of checkpointing = []
writes_of (forcing n) = []
writes_of (reclaiming ratio) = []

-- The writes that took effect are the first ones asked for, and all of them if the call returned
-- without an error.
abbrev pub Took : {F Key Item : Type 0} → Call F Key Item → Bool → List (Op Key Item) → Type 0
Took {Key = Key} {Item = Item} call acknowledged ops =
    (lost : List (Op Key Item)) × (writes_of call ≡ ops ++ lost)
    × ((acknowledged ≡ false) ⊎ (lost ≡ []))

-- The same of a run of calls.
abbrev pub TookInOrder :
    {F Key Item : Type 0} → List (Call F Key Item) → List Bool → List (Op Key Item) → Type 0
TookInOrder [] acks ops = ops ≡ []
TookInOrder (call ∷ calls) [] ops = ⊥
TookInOrder {Key = Key} {Item = Item} (call ∷ calls) (ack ∷ acks) ops =
    (first later : List (Op Key Item)) × (ops ≡ first ++ later)
    × Took call ack first
    × TookInOrder calls acks later

module _ {D F Key Item Segment : Type 0} (dec : Discrete Key) (store : Store Key Item Segment)
    (disk : Disk D Key Item Segment) (float : Float F) where
  unfoldable pub perform : Call F Key Item → Exec (Writer D F Key Item Segment) (Unit {0})
  unfolding add delete extend compact compact_tiers force_merge_to reclaim_tombstones checkpoint
  perform (adding id item) = add dec store disk float id item
  perform (deleting id) = delete dec store disk float id
  perform (extending items) = extend dec store disk float items
  perform compacting = compact dec store disk float >> return tt
  perform merging_tiers = compact_tiers dec store disk float >> return tt
  perform checkpointing = checkpoint dec store disk
  perform (forcing n) = force_merge_to dec store disk float n >> return tt
  perform (reclaiming ratio) = reclaim_tombstones dec store disk float ratio >> return tt

  -- Which calls returned without an error, and the store after them.
  unfoldable pub run_calls :
      List (Call F Key Item) → Writer D F Key Item Segment → List Bool × Writer D F Key Item Segment
  unfolding perform
  run_calls [] w = ([], w)
  run_calls (call ∷ calls) w =
      let r = perform call w in let later = run_calls calls r.1 in (is_ok r.0 ∷ later.0, later.1)
