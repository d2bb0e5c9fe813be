-- ===== src/Writer/Committing.antt =====
-- The readers' state, the epoch and the log under `checkpoint` of src/lib.rs.
use segstore.Base.{
  ℕ, suc, ◌≡◌, inl, inr, List, [], ◌∷◌, arith, refl, Option-cases, ap, ◌∙◌, ℕ_discrete,
}
use segstore.Base.Assoc.{contains, set_of, retain}
use segstore.Base.Result.{Result, ok, err, Result-cases}
use segstore.Base.Exec.{Exec, ◌>>◌}
use segstore.Payload.{Store}
use segstore.Disk.{Disk}
use segstore.Names.{manifest_path, wal_path}
use segstore.Tables.{select}
use segstore.Writer.{
  Writer, snapshot, seal, persist_segment, persist_all, write_first, commit, rotate, check_poisoned,
  checkpoint, gc_orphan_segments, manifest_of, unwritten,
}

module _ {D F Key Item Segment : Type 0} where
  -- The readers' state, the epoch and the log are the old ones.
  abbrev pub Uncommitted : Writer D F Key Item Segment → Writer D F Key Item Segment → Type 0
  Uncommitted w u = (u.published ≡ w.published) × (u.epoch ≡ w.epoch) × (u.wal ≡ w.wal)

  -- Readers see the tables, and the log is the fresh one of the next epoch.
  abbrev pub Committed : Writer D F Key Item Segment → Writer D F Key Item Segment → Type 0
  Committed w u =
      (u.published ≡ snapshot u.tables) × (u.epoch ≡ suc w.epoch) × (u.wal ≡ wal_path (suc w.epoch))

  abbrev pub AllOrNothing :
      Writer D F Key Item Segment → Result (Unit {0}) × Writer D F Key Item Segment → Type 0
  AllOrNothing w (ok u, w') = Committed w w'
  AllOrNothing w (err e, w') = Uncommitted w w'

  then-AllOrNothing :
      (m k : Exec (Writer D F Key Item Segment) (Unit {0}))
      → ((w : Writer D F Key Item Segment) → Uncommitted w (m w).1)
      → ((w : Writer D F Key Item Segment) → AllOrNothing w (k w))
      → (w : Writer D F Key Item Segment) → AllOrNothing w ((m >> k) w)
  then-AllOrNothing m k p q w = elim (Result-cases (m w).0) [
    | inl (a, e) ↦ rw e (move w (m w).1 (k (m w).1) (p w) (q (m w).1))
    | inr (x, e) ↦ rw e (p w)
  ]
    where
      move :
          (w u : Writer D F Key Item Segment) (r : Result (Unit {0}) × Writer D F Key Item Segment)
          → Uncommitted w u
          → AllOrNothing u r
          → AllOrNothing w r
      move w u (ok a, s) h c = (c.0, c.1 ∙ ap suc h.1, c.2 ∙ ap (λ n. wal_path (suc n)) h.1)
      move w u (err e, s) h c = (c.0 ∙ h.0, c.1 ∙ h.1, c.2 ∙ h.2)

  then-Uncommitted :
      (m k : Exec (Writer D F Key Item Segment) (Unit {0}))
      → ((w : Writer D F Key Item Segment) → Uncommitted w (m w).1)
      → ((w : Writer D F Key Item Segment) → Uncommitted w (k w).1)
      → (w : Writer D F Key Item Segment) → Uncommitted w ((m >> k) w).1
  then-Uncommitted m k p q w = elim (Result-cases (m w).0) [
    | inl (a, e) ↦ rw e ((q (m w).1).0 ∙ (p w).0, (q (m w).1).1 ∙ (p w).1, (q (m w).1).2 ∙ (p w).2)
    | inr (x, e) ↦ rw e (p w)
  ]

module _ {D F Key Item Segment : Type 0} (dec : Discrete Key) (store : Store Key Item Segment)
    (disk : Disk D Key Item Segment) where
  check_poisoned-Uncommitted :
      (w : Writer D F Key Item Segment) → Uncommitted w (check_poisoned dec store disk w).1
  unfolding check_poisoned
  check_poisoned-Uncommitted w = ground arith

  seal-Uncommitted : (w : Writer D F Key Item Segment) → Uncommitted w (seal dec store disk w).1
  unfolding seal
  seal-Uncommitted w = (refl, refl, refl)

  write_first-Uncommitted :
      (id : ℕ) (segs : List Segment) (w : Writer D F Key Item Segment)
      → Uncommitted w (write_first dec store disk id segs w).1
  unfolding persist_segment
  write_first-Uncommitted id [] w = (refl, refl, refl)
  write_first-Uncommitted id (seg ∷ segs) w = (refl, refl, refl)

  persist_all-Uncommitted :
      (l : List (ℕ × ℕ)) (w : Writer D F Key Item Segment)
      → Uncommitted w (persist_all dec store disk l w).1
  unfolding persist_all
  persist_all-Uncommitted [] w = (refl, refl, refl)
  persist_all-Uncommitted ((idx, id) ∷ l) w =
      elim (Option-cases (select w.tables.segments (idx ∷ []))) [
        | inl e ↦ rw (persist_all, e) (refl, refl, refl)
        | inr (segs, e) ↦
            rw (persist_all, e)
              (then-Uncommitted (write_first dec store disk id segs) (persist_all dec store disk l)
                (write_first-Uncommitted id segs) (persist_all-Uncommitted l) w)
      ]

  commit-AllOrNothing : (w : Writer D F Key Item Segment) → AllOrNothing w (commit dec store disk w)
  unfolding commit rotate gc_orphan_segments
  commit-AllOrNothing w =
      let t = record w.tables {
        superseded =
            retain ℕ_discrete (contains ℕ_discrete (set_of ℕ_discrete w.tables.segment_ids))
              w.tables.superseded;
      } in
      elim (Result-cases
        (disk.write_manifest (disk.has_path manifest_path) manifest_path (suc w.epoch)
          (manifest_of t) w.dir).0) [
            | inl (u, e) ↦ rw (commit, e) (refl, refl, refl)
            | inr (x, e) ↦ rw (commit, e) (refl, refl, refl)
          ]

  -- When `checkpoint` returns, the readers' state is the segments, tombstones and superseded copies
  -- of the writer and the log is the one of the next epoch; when it fails, readers' state, epoch
  -- and log are the old ones.
  pub checkpoint-AllOrNothing :
      (w : Writer D F Key Item Segment) → AllOrNothing w (checkpoint dec store disk w)
  unfolding checkpoint
  checkpoint-AllOrNothing =
      then-AllOrNothing (check_poisoned dec store disk) (seal dec store disk >> writes)
        check_poisoned-Uncommitted
        (then-AllOrNothing (seal dec store disk) writes seal-Uncommitted (λ w.
          then-AllOrNothing
            (persist_all dec store disk (unwritten w.persisted_ids 0 w.tables.segment_ids))
            (commit dec store disk)
            (persist_all-Uncommitted (unwritten w.persisted_ids 0 w.tables.segment_ids))
            commit-AllOrNothing w))
    where
      writes : Exec (Writer D F Key Item Segment) (Unit {0})
      writes w =
          (persist_all dec store disk (unwritten w.persisted_ids 0 w.tables.segment_ids)
              >> commit dec store disk)
            w
