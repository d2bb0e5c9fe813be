-- ===== src/Ingest.antt =====
-- `add`, `extend` and `delete` of src/lib.rs: log, make durable, apply, seal.
pub mod Writes
pub mod Batch
use segstore.Base.{
  ℕ, Bool, true, false, ◌&&◌, List, [], ◌∷◌, Option, none, some, if◌then◌else◌, leb, length,
}
use segstore.Base.Result.{Result, ok, err}
use segstore.Base.Exec.{Exec, ◌>>=◌, ◌>>◌, return}
use segstore.Payload.{Store}
use segstore.Disk.{Disk}
use segstore.Tables.{Tables, Op, apply}
use segstore.Tiers.{Float, has_eligible_tier}
use segstore.Writer.{Writer, seal, check_poisoned, sync_wal, log}
use segstore.Compaction.{compact_tiers, segment_sizes}

module _ {D F Key Item Segment : Type 0} (dec : Discrete Key) (store : Store Key Item Segment)
    (disk : Disk D Key Item Segment) (float : Float F) where
  unfoldable pub apply_op : Op Key Item → Exec (Writer D F Key Item Segment) (Unit {0})
  unfolding apply
  apply_op op w = (ok tt, record w { tables = apply dec op w.tables })

  -- `compact_tiers()?` after `before`, if a bucket is eligible.
  unfoldable pub compact_if_due :
      Exec (Writer D F Key Item Segment) (Unit {0}) → Exec (Writer D F Key Item Segment) (Unit {0})
  unfolding compact_tiers
  compact_if_due before w =
      if w.auto_compact
        && has_eligible_tier float w.tiering w.flush_threshold (segment_sizes dec store w.tables)
      then (before >> (compact_tiers dec store disk float >> return tt)) w
      else (ok tt, w)

  unfoldable pub seal_if_full :
      Exec (Writer D F Key Item Segment) (Unit {0}) → Exec (Writer D F Key Item Segment) (Unit {0})
  unfolding seal compact_if_due
  seal_if_full before w =
      if leb w.flush_threshold (length w.tables.buffer)
      then (seal dec store disk >> compact_if_due before) w
      else (ok tt, w)

  unfoldable pub add : Key → Item → Exec (Writer D F Key Item Segment) (Unit {0})
  unfolding check_poisoned log sync_wal apply_op seal_if_full
  add id item =
      check_poisoned dec store disk
      >> (log dec store disk (Op.add id item)
          >> (sync_wal dec store disk >> (apply_op (Op.add id item) >> seal_if_full (return tt))))

  unfoldable pub delete : Key → Exec (Writer D F Key Item Segment) (Unit {0})
  unfolding check_poisoned log sync_wal apply_op
  delete id =
      check_poisoned dec store disk
      >> (log dec store disk (Op.delete id) >> (sync_wal dec store disk >> apply_op (Op.delete id)))

  -- One round of the loop of `extend`.
  unfoldable pub extend_one : Key → Item → Exec (Writer D F Key Item Segment) (Unit {0})
  unfolding log sync_wal apply_op seal_if_full
  extend_one id item =
      log dec store disk (Op.add id item)
      >> (apply_op (Op.add id item) >> seal_if_full (sync_wal dec store disk))

  unfoldable pub extend_all : List (Key × Item) → Exec (Writer D F Key Item Segment) (Unit {0})
  unfolding extend_one
  extend_all [] w = (ok tt, w)
  extend_all ((id, item) ∷ items) w = (extend_one id item >> extend_all items) w

  -- `any` tells whether a batch is empty.
  abbrev pub sync_after : List (Key × Item) → Exec (Writer D F Key Item Segment) (Unit {0})
  sync_after [] w = (ok tt, w)
  sync_after (item ∷ items) w = sync_wal dec store disk w

  unfoldable pub extend : List (Key × Item) → Exec (Writer D F Key Item Segment) (Unit {0})
  unfolding check_poisoned extend_all
  extend items = check_poisoned dec store disk >> (extend_all items >> sync_after items)
