-- ===== src/Ingest/Writes.antt =====
-- The live copies under `add` and `delete` of src/lib.rs.
use mathlib.Core.Path.{subst}
use segstore.Base.{
  ◌≡◌, inl, inr, length, arith, if◌then◌else◌, refl, Bool-cases, ap, ◌∙◌, sym, leb, ◌&&◌,
}
use segstore.Base.Result.{Result-cases, is_ok}
use segstore.Base.Exec.{Exec, ◌>>◌, return}
use segstore.Payload.{Store, StoreLaws}
use segstore.Disk.{Disk}
use segstore.Tables.{Tables, Op, apply}
use segstore.Tables.Live.{copies}
use segstore.Tables.Invariant.{IsValid}
use segstore.Recovery.Replay.{effect, apply-IsValid, copies-apply}
use segstore.Tiers.{Float, has_eligible_tier}
use segstore.Writer.{Writer, seal, check_poisoned, sync_wal, log}
use segstore.Writer.Preserving.{
  Preserving, Preserving-then, Preserving-same, then-tables, seal-Preserving,
}
use segstore.Compaction.{compact_tiers, segment_sizes}
use segstore.Compaction.Keeping.{compact_tiers-Preserving}
use segstore.Ingest.{apply_op, compact_if_due, seal_if_full, add, delete}

module _ {D F Key Item Segment : Type 0} (dec : Discrete Key) (store : Store Key Item Segment)
    (laws : StoreLaws dec store) (disk : Disk D Key Item Segment) (float : Float F) where
  open laws use {entries}

  compact_if_due-Preserving :
      (before : Exec (Writer D F Key Item Segment) (Unit {0}))
      → Preserving dec entries before
      → Preserving dec entries {D = D} {F = F} (compact_if_due dec store disk float before)
  unfolding compact_if_due
  compact_if_due-Preserving before p w v =
      elim (Bool-cases (
        w.auto_compact
        && has_eligible_tier float w.tiering w.flush_threshold
            (segment_sizes dec store w.tables))) [
              | inl e ↦
                  rw (compact_if_due, e)
                    (Preserving-then dec entries before
                      (compact_tiers dec store disk float >> return tt) p
                      (Preserving-then dec entries (compact_tiers dec store disk float) (return tt)
                        (compact_tiers-Preserving dec store laws disk float)
                        (Preserving-same dec entries (return tt) (λ u. refl)))
                      w v)
              | inr e ↦ rw (compact_if_due, e) (v, λ j. refl)
            ]

  pub seal_if_full-Preserving :
      (before : Exec (Writer D F Key Item Segment) (Unit {0}))
      → Preserving dec entries before
      → Preserving dec entries {D = D} {F = F} (seal_if_full dec store disk float before)
  unfolding seal_if_full
  seal_if_full-Preserving before p w v =
      elim (Bool-cases (leb w.flush_threshold (length w.tables.buffer))) [
        | inl e ↦
            rw (seal_if_full, e)
              (Preserving-then dec entries (seal dec store disk)
                (compact_if_due dec store disk float before) (seal-Preserving dec store laws disk)
                (compact_if_due-Preserving before p) w v)
        | inr e ↦ rw (seal_if_full, e) (v, λ j. refl)
      ]

  -- The log has the record, durable as the policy asks.
  abbrev pub logged : Op Key Item → Exec (Writer D F Key Item Segment) (Unit {0})
  logged op = check_poisoned dec store disk >> (log dec store disk op >> sync_wal dec store disk)

  pub check_poisoned-tables :
      (w : Writer D F Key Item Segment) → (check_poisoned dec store disk w).1.tables ≡ w.tables
  unfolding check_poisoned
  check_poisoned-tables w = ground arith

  pub log-tables :
      (op : Op Key Item) (w : Writer D F Key Item Segment)
      → (log dec store disk op w).1.tables ≡ w.tables
  unfolding log
  log-tables op w = refl

  pub sync_wal-tables :
      (w : Writer D F Key Item Segment) → (sync_wal dec store disk w).1.tables ≡ w.tables
  unfolding sync_wal
  sync_wal-tables w = ground arith

  logged-tables :
      (op : Op Key Item) (w : Writer D F Key Item Segment) → (logged op w).1.tables ≡ w.tables
  logged-tables op =
      then-tables dec entries (check_poisoned dec store disk)
        (log dec store disk op >> sync_wal dec store disk) check_poisoned-tables
        (then-tables dec entries (log dec store disk op) (sync_wal dec store disk) (log-tables op)
          sync_wal-tables)

  pub regroup :
      {A B C : Type 0} (a : Exec (Writer D F Key Item Segment) A)
      (b : Exec (Writer D F Key Item Segment) B) (c : Exec (Writer D F Key Item Segment) C)
      (k : Exec (Writer D F Key Item Segment) (Unit {0})) (w : Writer D F Key Item Segment)
      → (a >> (b >> (c >> k))) w ≡ ((a >> (b >> c)) >> k) w
  regroup a b c k w = elim (Result-cases (a w).0) [
    | inl (x, e) ↦
        rw e (elim (Result-cases (b (a w).1).0) [ inl (y, f) ↦ rw f refl | inr (y, f) ↦ rw f refl ])
    | inr (x, e) ↦ rw e refl
  ]

  -- The state after a write, from whether it was logged.
  abbrev pub TakesEffect :
      Op Key Item → Writer D F Key Item Segment → Tables Key Item Segment → Type 0
  TakesEffect op w t =
      IsValid dec entries t
      × ((j : Key)
          → copies dec entries t j ≡ (
              if is_ok (logged op w).0
              then effect dec op j (copies dec entries w.tables j)
              else copies dec entries w.tables j))

  write-effect :
      (op : Op Key Item) (after : Exec (Writer D F Key Item Segment) (Unit {0}))
      (w : Writer D F Key Item Segment)
      → Preserving dec entries after
      → IsValid dec entries w.tables
      → TakesEffect op w ((logged op >> (apply_op dec store disk float op >> after)) w).1.tables
  unfolding apply_op
  write-effect op after w p v = elim (Result-cases (logged op w).0) [
    | inl (x, e) ↦
        let same = logged-tables op w in
        let u = record (logged op w).1 { tables = apply dec op (logged op w).1.tables } in
        let v' =
          subst (λ t. IsValid dec entries (apply dec op t)) (sym same)
            (apply-IsValid dec store laws op w.tables v) in
        let k = p u v' in
        rw e (
          k.0,
          λ j.
              k.1 j
              ∙ ap (λ t. copies dec entries (apply dec op t) j) same
              ∙ copies-apply dec store laws op w.tables j v,
        )
    | inr (x, e) ↦ rw e (rw (logged-tables op w) (v, λ j. refl))
  ]

  -- From a valid state, `add` leaves a valid state in which, if the record was logged and synced,
  -- the id has exactly the new value and every other id the values it had, also when a compaction
  -- that it starts fails; if it was not, every id has the values it had.
  pub add-TakesEffect :
      (id : Key) (item : Item) (w : Writer D F Key Item Segment)
      → IsValid dec entries w.tables
      → TakesEffect (Op.add id item) w (add dec store disk float id item w).1.tables
  unfolding add
  add-TakesEffect id item w v =
      let op = Op.add id item in
      let after = seal_if_full dec store disk float (return tt) in
      let tail = apply_op dec store disk float op >> after in
      subst (λ r. TakesEffect op w r.1.tables)
        (sym (
          regroup (check_poisoned dec store disk) (log dec store disk op) (sync_wal dec store disk)
            tail w))
        (write-effect op after w (seal_if_full-Preserving (return tt) (λ u q. (q, λ j. refl))) v)

  -- From a valid state, `delete` leaves a valid state in which, if the record was logged and
  -- synced, the id has no value and every other id the values it had; if it was not, every id has
  -- the values it had.
  pub delete-TakesEffect :
      (id : Key) (w : Writer D F Key Item Segment)
      → IsValid dec entries w.tables
      → TakesEffect (Op.delete id) w (delete dec store disk float id w).1.tables
  unfolding delete apply_op
  delete-TakesEffect id w v =
      let op = Op.delete id in
      subst (λ r. TakesEffect op w r.1.tables)
        (sym (
          regroup (check_poisoned dec store disk) (log dec store disk op) (sync_wal dec store disk)
            (apply_op dec store disk float op >> return tt) w))
        (write-effect op (return tt) w (λ u q. (q, λ j. refl)) v)
