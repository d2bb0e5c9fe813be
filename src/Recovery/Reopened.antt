-- ===== src/Recovery/Reopened.antt =====
-- `open_with_options` of src/lib.rs on what `checkpoint` left, and the log written since.
use mathlib.Core.Path.{ap, ◌∙◌}
use segstore.Base.{ℕ, ◌≡◌, Bool, true, false, not, ◌&&◌, List, [], map, some}
use segstore.Base.Result.{ok}
use segstore.Names.{wal_path, manifest_path}
use segstore.Payload.{Store, StoreLaws}
use segstore.Disk.{Disk, read_manifest, reject_legacy_formats, acquire_store_lock}
use segstore.Tables.{Tables, Op}
use segstore.Tables.Live.{sealed, copies}
use segstore.Tables.Invariant.{IsValid}
use segstore.Tables.Select.{Distinct}
use segstore.Writer.{Writer, Options, manifest_of}
use segstore.Recovery.{read_segments, read_log, is_fsync, open_with_options}
use segstore.Recovery.Replay.{history}
use segstore.Recovery.Loaded.{open-Recovers}
use segstore.Recovery.Committed.{manifest-Committed}

module _ {D F Key Item Segment : Type 0} (dec : Discrete Key) (store : Store Key Item Segment)
    (laws : StoreLaws dec store) (disk : Disk D Key Item Segment) (opts : Options F) where
  open laws use {entries}

  -- When the sync policy suits the backend, no file of an old format is there and the lock is
  -- taken, `open_with_options` returns a writer from a directory that reads back the manifest that
  -- `checkpoint` writes for a valid state with an empty buffer, with one superseded set for each
  -- segment at most, that state's segments, and a log; the state is valid, and the live copies of
  -- every id are what the logged operations make, in order, of the live copies in the state that
  -- was written.
  pub open-Reopens :
      (d d' : D) (lock : Bool) (epoch : ℕ) (t : Tables Key Item Segment) (ops : List (Op Key Item))
      → (is_fsync opts.sync && not (disk.has_path manifest_path)) ≡ false
      → reject_legacy_formats disk d ≡ ok tt
      → acquire_store_lock disk d ≡ (ok lock, d')
      → disk.exists d' manifest_path ≡ true
      → disk.read_manifest_v2 d' manifest_path ≡ ok (epoch, manifest_of t)
      → read_segments disk d' t.segment_ids ≡ ok (sealed dec entries t)
      → read_log disk d' (wal_path epoch) ≡ ok ops
      → IsValid dec entries t
      → t.buffer ≡ []
      → Distinct (map (λ p. p.0) t.superseded)
      → (w : Writer D F Key Item Segment) × (open_with_options dec store disk opts d ≡ ok w)
        × IsValid dec entries w.tables
        × ((j : Key) → copies dec entries w.tables j ≡ history dec ops j (copies dec entries t j))
  unfolding read_manifest
  open-Reopens d d' lock epoch t ops suits modern locked there manifest segments log v sealed_up
        distinct =
      let (m, loaded, at, listed, coherent, seen) =
        manifest-Committed dec entries disk epoch t v sealed_up distinct in
      let (w, opened, valid, found) =
        open-Recovers dec store laws disk opts d d' lock (some m) (sealed dec entries t) ops suits
          modern locked (rw (read_manifest, there, manifest) loaded) (rw listed segments)
          (rw at log) coherent in
      (w, opened, valid, λ j. found j ∙ ap (history dec ops j) (seen j))
