-- ===== src/Ingest/Batch.antt =====
-- The live copies under `extend` of src/lib.rs.
use mathlib.Core.Path.{subst}
use segstore.Base.{
  ℕ, suc, ◌≤◌, ◌≡◌, ◌⊎◌, inl, inr, false, List, [], ◌∷◌, length, take, map, arith, if◌then◌else◌,
  refl, Bool-cases, ap, ◌∙◌, sym,
}
use segstore.Base.Result.{Result, ok, err, Result-cases, is_ok, invalid_state, store_poisoned}
use segstore.Base.Exec.{continue, ◌>>◌}
use segstore.Payload.{Store, StoreLaws}
use segstore.Disk.{Disk}
use segstore.Tables.{Op, apply}
use segstore.Tables.Live.{copies}
use segstore.Tables.Invariant.{IsValid}
use segstore.Recovery.Replay.{effect, history, apply-IsValid, copies-apply}
use segstore.Tiers.{Float}
use segstore.Writer.{Writer, check_poisoned, sync_wal, log}
use segstore.Writer.Preserving.{Preserving-same}
use segstore.Ingest.{apply_op, seal_if_full, extend, extend_one, extend_all, sync_after}
use segstore.Ingest.Writes.{seal_if_full-Preserving, sync_wal-tables, log-tables}

abbrev pub adds : {Key Item : Type 0} → List (Key × Item) → List (Op Key Item)
adds = map (λ e. Op.add e.0 e.1)

module _ {D F Key Item Segment : Type 0} (dec : Discrete Key) (store : Store Key Item Segment)
    (laws : StoreLaws dec store) (disk : Disk D Key Item Segment) (float : Float F) where
  open laws use {entries}

  -- The tables are valid and hold the first `n` items on top of those of `w`, all when it succeeded.
  abbrev pub TakesPrefix :
      List (Key × Item)
      → Writer D F Key Item Segment
      → Result (Unit {0}) × Writer D F Key Item Segment
      → Type 0
  TakesPrefix items w r =
      IsValid dec entries r.1.tables
      × (n : ℕ) × ((j : Key)
          → copies dec entries r.1.tables j
            ≡ history dec (adds (take n items)) j (copies dec entries w.tables j))
      × ((is_ok r.0 ≡ false) ⊎ (length items ≤ n))

  applied :
      (id : Key) (item : Item) (w : Writer D F Key Item Segment)
      → IsValid dec entries w.tables
      → let u =
          ((apply_op dec store disk float (Op.add id item))
              >> seal_if_full dec store disk float (sync_wal dec store disk))
            w in
        IsValid dec entries u.1.tables
        × ((j : Key)
            → copies dec entries u.1.tables j
              ≡ effect dec (Op.add id item) j (copies dec entries w.tables j))
  unfolding apply_op
  applied id item w v =
      let op = Op.add id item in
      let k =
        seal_if_full-Preserving dec store laws disk float (sync_wal dec store disk)
          (Preserving-same dec entries (sync_wal dec store disk)
            (sync_wal-tables dec store laws disk float))
          (record w { tables = apply dec op w.tables })
          (apply-IsValid dec store laws op w.tables v) in
      (k.0, λ j. k.1 j ∙ copies-apply dec store laws op w.tables j v)

  extend_one-step :
      (id : Key) (item : Item) (w : Writer D F Key Item Segment)
      → IsValid dec entries w.tables
      → let u = extend_one dec store disk float id item w in
        IsValid dec entries u.1.tables
        × (((is_ok u.0 ≡ false)
              × ((j : Key) → copies dec entries u.1.tables j ≡ copies dec entries w.tables j))
            ⊎ ((j : Key)
                → copies dec entries u.1.tables j
                  ≡ effect dec (Op.add id item) j (copies dec entries w.tables j)))
  unfolding extend_one
  extend_one-step id item w v =
      let op = Op.add id item in
      let same = log-tables dec store laws disk float op w in
      elim (Result-cases (log dec store disk op w).0) [
        | inl (x, e) ↦
            let a =
              applied id item (log dec store disk op w).1
                (subst (IsValid dec entries) (sym same) v) in
            rw e (a.0, inr (λ j. a.1 j ∙ ap (λ t. effect dec op j (copies dec entries t j)) same))
        | inr (x, e) ↦ rw e (
          subst (IsValid dec entries) (sym same) v,
          inl (refl, λ j. ap (λ t. copies dec entries t j) same),
        )
      ]

  extend_all-prefix :
      (items : List (Key × Item)) (w : Writer D F Key Item Segment)
      → IsValid dec entries w.tables
      → TakesPrefix items w (extend_all dec store disk float items w)
  unfolding extend_all
  extend_all-prefix [] w v = (v, 0, λ j. refl, inr (omega arith))
  extend_all-prefix ((id, item) ∷ items) w v =
      let step = extend_one-step id item w v in
      elim (Result-cases (extend_one dec store disk float id item w).0) [
        | inr (x, e) ↦
            rw (extend_all, e)
              (elim step.1 [
                | inl (bad, same) ↦ (step.0, 0, same, inl refl)
                | inr takes ↦ (step.0, 1, takes, inl refl)
              ])
        | inl (x, e) ↦
            let rest =
              extend_all-prefix items (extend_one dec store disk float id item w).1 step.0 in
            elim step.1 [
              | inl (bad, same) ↦ absurd (ground (arith, e, bad))
              | inr takes ↦
                  rw (extend_all, e)
                    (
                      rest.0,
                      suc rest.1,
                      λ j. rest.2 j ∙ ap (history dec (adds (take rest.1 items)) j) (takes j),
                      elim rest.3 [ inl b ↦ inl b | inr l ↦ inr (omega (arith, l)) ],
                    )
            ]
      ]

  sync_after-tables :
      (items : List (Key × Item)) (w : Writer D F Key Item Segment)
      → (sync_after dec store disk float items w).1.tables ≡ w.tables
  sync_after-tables [] w = refl
  sync_after-tables (x ∷ items) w = sync_wal-tables dec store laws disk float w

  unpoisoned :
      (items : List (Key × Item)) (w : Writer D F Key Item Segment)
      → IsValid dec entries w.tables
      → TakesPrefix items w
          ((extend_all dec store disk float items >> sync_after dec store disk float items) w)
  unpoisoned items w v =
      let all = extend_all-prefix items w v in
      elim (Result-cases (extend_all dec store disk float items w).0) [
        | inr (x, e) ↦ rw e (all.0, all.1, all.2, inl refl)
        | inl (x, e) ↦
            let same = sync_after-tables items (extend_all dec store disk float items w).1 in
            rw e (
              subst (IsValid dec entries) (sym same) all.0,
              all.1,
              λ j. ap (λ t. copies dec entries t j) same ∙ all.2 j,
              elim all.3 [ inl bad ↦ absurd (ground (arith, e, bad)) | inr l ↦ inr l ],
            )
      ]

  checked :
      (w : Writer D F Key Item Segment)
      → (check_poisoned dec store disk w ≡ (err (invalid_state store_poisoned), w))
        ⊎ (check_poisoned dec store disk w ≡ (ok tt, w))
  unfolding check_poisoned
  checked w = elim (Bool-cases w.poisoned) [
    | inl e ↦ inl (ap (λ b. if b then (err (invalid_state store_poisoned), w) else (ok tt, w)) e)
    | inr e ↦ inr (ap (λ b. if b then (err (invalid_state store_poisoned), w) else (ok tt, w)) e)
  ]

  -- From a valid state, `extend` leaves a valid state in which the live copies of every id are what
  -- adding some prefix of the batch in order makes of them; when it returns without an error the
  -- prefix is the whole batch.
  pub extend-TakesPrefix :
      (items : List (Key × Item)) (w : Writer D F Key Item Segment)
      → IsValid dec entries w.tables
      → TakesPrefix items w (extend dec store disk float items w)
  unfolding extend
  extend-TakesPrefix items w v =
      let after = extend_all dec store disk float items >> sync_after dec store disk float items in
      elim (checked w) [
        | inl e ↦
            subst (λ r. TakesPrefix items w (continue r.0 (λ _. after) r.1)) (sym e)
              (v, 0, λ j. refl, inl refl)
        | inr e ↦
            subst (λ r. TakesPrefix items w (continue r.0 (λ _. after) r.1)) (sym e)
              (unpoisoned items w v)
      ]
