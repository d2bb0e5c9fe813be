-- ===== src/Session/Refinement.antt =====
-- Runs of calls on `SegmentedStore` (src/lib.rs) against the map of ids to values.
use mathlib.Core.Path.{sym, ap, ◌∙◌}
use segstore.Base.{
  ℕ, zero, suc, ◌≤◌, ◌≡◌, inl, inr, false, List, [], ◌∷◌, ◌++◌, length, take, drop, arith, refl,
  Bool-cases, if◌then◌else◌,
}
use segstore.Base.Result.{Result, Result-cases, is_ok}
use segstore.Base.Exec.{Exec, ◌>>◌, return}
use segstore.Payload.{Store, StoreLaws}
use segstore.Disk.{Disk}
use segstore.Tables.{Op}
use segstore.Tables.Live.{copies}
use segstore.Tables.Invariant.{IsValid}
use segstore.Tiers.{Float}
use segstore.Recovery.Replay.{effect, history}
use segstore.Writer.{Writer, check_poisoned, log, sync_wal}
use segstore.Writer.Merging.{Keeps}
use segstore.Writer.Preserving.{Preserving, Preserving-then, Preserving-same, checkpoint-Preserving}
use segstore.Compaction.{compact, compact_tiers, force_merge_to, reclaim_tombstones}
use segstore.Compaction.Full.{compact-Preserving}
use segstore.Compaction.Keeping.{compact_tiers-Preserving}
use segstore.Compaction.Forced.{force_merge_to-Keeps}
use segstore.Compaction.Reclaim.{reclaim_tombstones-Keeps}
use segstore.Ingest.{add, delete, extend, apply_op, seal_if_full}
use segstore.Ingest.Writes.{logged, regroup, TakesEffect, add-TakesEffect, delete-TakesEffect}
use segstore.Ingest.Batch.{adds, TakesPrefix, extend-TakesPrefix}
use segstore.Session.{
  Call, adding, deleting, extending, compacting, merging_tiers, checkpointing, forcing, reclaiming,
  writes_of, Took, TookInOrder, perform, run_calls,
}

adds-split :
    {Key Item : Type 0} (n : ℕ) (items : List (Key × Item))
    → adds items ≡ adds (take n items) ++ adds (drop n items)
adds-split zero items = refl
adds-split (suc n) [] = refl
adds-split (suc n) (x ∷ items) = ap (◌∷◌ (Op.add x.0 x.1)) (adds-split n items)

drop-all : {A : Type 0} (n : ℕ) (l : List A) → length l ≤ n → drop n l ≡ []
drop-all zero [] h = refl
drop-all zero (x ∷ l) h = absurd (omega arith)
drop-all (suc n) [] h = refl
drop-all (suc n) (x ∷ l) h = drop-all n l (omega arith)

history-append :
    {Key Item : Type 0} (dec : Discrete Key) (a b : List (Op Key Item)) (j : Key) (l : List Item)
    → history dec (a ++ b) j l ≡ history dec b j (history dec a j l)
history-append dec [] b j l = refl
history-append dec (op ∷ a) b j l = history-append dec a b j (effect dec op j l)

module _ {D F Key Item Segment : Type 0} (dec : Discrete Key) (store : Store Key Item Segment)
    (laws : StoreLaws dec store) (disk : Disk D Key Item Segment) (float : Float F) where
  open laws use {entries}

  -- The outcome of one call: the store is valid, and holds what some of the writes made of it.
  abbrev Outcome :
      Call F Key Item
      → Writer D F Key Item Segment
      → Result (Unit {0}) × Writer D F Key Item Segment
      → Type 0
  Outcome call w r =
      IsValid dec entries r.1.tables
      × (ops : List (Op Key Item)) × Took call (is_ok r.0) ops
      × ((j : Key)
          → copies dec entries r.1.tables j ≡ history dec ops j (copies dec entries w.tables j))

  maintenance-Outcome :
      (call : Call F Key Item) (w : Writer D F Key Item Segment)
      (r : Result (Unit {0}) × Writer D F Key Item Segment)
      → writes_of call ≡ []
      → Keeps dec entries w.tables r.1.tables
      → Outcome call w r
  maintenance-Outcome call w r none_asked k = (k.0, [], ([], none_asked, inr refl), k.1)

  quietly :
      {A : Type 0} (m : Exec (Writer D F Key Item Segment) A)
      → Preserving dec entries m
      → Preserving dec entries (m >> return tt)
  quietly m p =
      Preserving-then dec entries m (return tt) p
        (Preserving-same dec entries (return tt) (λ u. refl))

  write-Outcome :
      (call : Call F Key Item) (op : Op Key Item) (w : Writer D F Key Item Segment)
      (r : Result (Unit {0}) × Writer D F Key Item Segment)
      → writes_of call ≡ op ∷ []
      → (is_ok (logged dec store laws disk float op w).0 ≡ false → is_ok r.0 ≡ false)
      → TakesEffect dec store laws disk float op w r.1.tables
      → Outcome call w r
  write-Outcome call op w r asked refused t =
      elim (Bool-cases (is_ok (logged dec store laws disk float op w).0)) [
        | inl e ↦ (
          t.0,
          op ∷ [],
          ([], asked, inr refl),
          λ j.
              t.1 j
              ∙ ap
                  (λ b.
                    if b
                    then effect dec op j (copies dec entries w.tables j)
                    else copies dec entries w.tables j)
                  e,
        )
        | inr e ↦ (
          t.0,
          [],
          (op ∷ [], asked, inl (refused e)),
          λ j.
              t.1 j
              ∙ ap
                  (λ b.
                    if b
                    then effect dec op j (copies dec entries w.tables j)
                    else copies dec entries w.tables j)
                  e,
        )
      ]

  -- A call that stops where its log record failed reports the error.
  then-refused :
      {A : Type 0} (m : Exec (Writer D F Key Item Segment) A)
      (k : Exec (Writer D F Key Item Segment) (Unit {0})) (w : Writer D F Key Item Segment)
      → is_ok (m w).0 ≡ false
      → is_ok ((m >> k) w).0 ≡ false
  then-refused m k w bad = elim (Result-cases (m w).0) [
    | inl (a, e) ↦ absurd (ground (arith, e, bad))
    | inr (x, e) ↦ rw e refl
  ]

  extend-Outcome :
      (items : List (Key × Item)) (w : Writer D F Key Item Segment)
      (r : Result (Unit {0}) × Writer D F Key Item Segment)
      → TakesPrefix dec store laws disk float items w r
      → Outcome (extending items) w r
  extend-Outcome items w r (v, n, holds, whole) = (
    v,
    adds (take n items),
    (
      adds (drop n items),
      adds-split n items,
      elim whole [ inl bad ↦ inl bad | inr reached ↦ inr (ap adds (drop-all n items reached)) ],
    ),
    holds,
  )

  perform-Outcome :
      (call : Call F Key Item) (w : Writer D F Key Item Segment)
      → IsValid dec entries w.tables
      → Outcome call w (perform dec store disk float call w)
  unfolding perform
  perform-Outcome (adding id item) w v =
      let op = Op.add id item in
      write-Outcome (adding id item) op w (add dec store disk float id item w) refl
        (λ bad.
          unfold add in
          ap (λ r. is_ok r.0)
            (regroup dec store laws disk float (check_poisoned dec store disk)
              (log dec store disk op) (sync_wal dec store disk)
              (apply_op dec store disk float op >> seal_if_full dec store disk float (return tt)) w)
          ∙ then-refused (logged dec store laws disk float op)
              (apply_op dec store disk float op >> seal_if_full dec store disk float (return tt)) w
              bad)
        (add-TakesEffect dec store laws disk float id item w v)
  perform-Outcome (deleting id) w v =
      let op = Op.delete id in
      write-Outcome (deleting id) op w (delete dec store disk float id w) refl
        (λ bad.
          unfold delete in
          ap (λ r. is_ok r.0)
            (regroup dec store laws disk float (check_poisoned dec store disk)
              (log dec store disk op) (sync_wal dec store disk) (apply_op dec store disk float op)
              w)
          ∙ then-refused (logged dec store laws disk float op) (apply_op dec store disk float op) w
              bad)
        (delete-TakesEffect dec store laws disk float id w v)
  perform-Outcome (extending items) w v =
      extend-Outcome items w (extend dec store disk float items w)
        (extend-TakesPrefix dec store laws disk float items w v)
  perform-Outcome compacting w v =
      maintenance-Outcome compacting w (perform dec store disk float compacting w) refl
        (quietly (compact dec store disk float) (compact-Preserving dec store laws disk float) w v)
  perform-Outcome merging_tiers w v =
      maintenance-Outcome merging_tiers w (perform dec store disk float merging_tiers w) refl (
        quietly (compact_tiers dec store disk float)
          (compact_tiers-Preserving dec store laws disk float) w v)
  perform-Outcome checkpointing w v =
      maintenance-Outcome checkpointing w (perform dec store disk float checkpointing w) refl
        (checkpoint-Preserving dec store laws disk w v)
  perform-Outcome (forcing n) w v =
      maintenance-Outcome (forcing n) w (perform dec store disk float (forcing n) w) refl (
        quietly (force_merge_to dec store disk float n)
          (force_merge_to-Keeps dec store laws disk float n) w v)
  perform-Outcome (reclaiming ratio) w v =
      maintenance-Outcome (reclaiming ratio) w (perform dec store disk float (reclaiming ratio) w)
        refl
        (quietly (reclaim_tombstones dec store disk float ratio)
          (reclaim_tombstones-Keeps dec store laws disk float ratio) w v)

  -- From a valid state, a run of any calls of the writer in any order, going on after errors,
  -- leaves a valid state in which the live copies of every id are what a sequence of writes makes
  -- of them in order, where each call that returned contributes all the writes it asks for and each
  -- call that failed contributes some of the first of them.
  pub run_calls-Refines :
      (calls : List (Call F Key Item)) (w : Writer D F Key Item Segment)
      → IsValid dec entries w.tables
      → IsValid dec entries (run_calls dec store disk float calls w).1.tables
        × (ops : List (Op Key Item)) × TookInOrder calls
            (run_calls dec store disk float calls w).0
            ops
        × ((j : Key)
            → copies dec entries (run_calls dec store disk float calls w).1.tables j
              ≡ history dec ops j (copies dec entries w.tables j))
  unfolding run_calls
  run_calls-Refines [] w v = (v, [], refl, λ j. refl)
  run_calls-Refines (call ∷ calls) w v =
      let (v', first, took, holds) = perform-Outcome call w v in
      let (v'', later, order, holds') =
        run_calls-Refines calls (perform dec store disk float call w).1 v' in
      (
        v'',
        first ++ later,
        (first, later, refl, took, order),
        λ j.
            holds' j
            ∙ ap (history dec later j) (holds j)
            ∙ sym (history-append dec first later j (copies dec entries w.tables j)),
      )
