-- ===== src/Writer/Preserving.antt =====
-- Methods composed as the code composes them, and the live copies under `checkpoint` of src/lib.rs.
use segstore.Base.{
  ℕ, suc, ◌≡◌, inl, inr, Bool, true, false, List, [], ◌∷◌, ◌++◌, none, arith, if◌then◌else◌, refl,
  Option-cases, ap, ◌∙◌, ℕ_discrete, keep,
}
use segstore.Base.Assoc.{contains, get, retain, set_of, contains-set_of}
use segstore.Base.Result.{Result-cases}
use segstore.Base.Exec.{Exec, ◌>>=◌, ◌>>◌}
use segstore.Payload.{Store, StoreLaws, items_of}
use segstore.Manifest.{superseded_in}
use segstore.Disk.{Disk}
use segstore.Names.{manifest_path}
use segstore.Tables.{Tables, select}
use segstore.Tables.Live.{copies, sealed}
use segstore.Tables.Invariant.{All, All-imp, IsValid, live_segment_of, sealed_items-congr}
use segstore.Tables.Flush.{copies-flush_buffer, flush_buffer-IsValid}
use segstore.Tables.Unique.{All-zip}
use segstore.Tables.Merge.{All-imp₂}
use segstore.Writer.{
  Writer, seal, persist_segment, persist_all, write_first, commit, rotate, check_poisoned,
  checkpoint, gc_orphan_segments, manifest_of, unwritten,
}
use segstore.Writer.Merging.{Keeps}

module _ {Key Item Segment : Type 0} (dec : Discrete Key)
    (entries : Segment → List (Key × Item)) where
  pub Keeps-trans :
      (t u s : Tables Key Item Segment)
      → Keeps dec entries t u
      → Keeps dec entries u s
      → Keeps dec entries t s
  Keeps-trans t u s k l = (l.0, λ j. l.1 j ∙ k.1 j)

  module _ {D F : Type 0} where
    abbrev pub Preserving : {A : Type 0} → Exec (Writer D F Key Item Segment) A → Type 0
    Preserving m =
        (w : Writer D F Key Item Segment)
        → IsValid dec entries w.tables
        → Keeps dec entries w.tables (m w).1.tables

    pub Preserving-bind :
        {A B : Type 0} (m : Exec (Writer D F Key Item Segment) A)
        (f : A → Exec (Writer D F Key Item Segment) B)
        → Preserving m
        → ((a : A) → Preserving (f a))
        → Preserving (m >>= f)
    Preserving-bind m f p q w v = elim (Result-cases (m w).0) [
      | inl (a, e) ↦ rw e (Keeps-trans _ _ _ (p w v) (q a (m w).1 (p w v).0))
      | inr (x, e) ↦ rw e (p w v)
    ]

    pub Preserving-then :
        {A B : Type 0} (m : Exec (Writer D F Key Item Segment) A)
        (k : Exec (Writer D F Key Item Segment) B)
        → Preserving m
        → Preserving k
        → Preserving (m >> k)
    Preserving-then m k p q w v = elim (Result-cases (m w).0) [
      | inl (a, e) ↦ rw e (Keeps-trans _ _ _ (p w v) (q (m w).1 (p w v).0))
      | inr (x, e) ↦ rw e (p w v)
    ]

    pub then-tables :
        {A B : Type 0} (m : Exec (Writer D F Key Item Segment) A)
        (k : Exec (Writer D F Key Item Segment) B)
        → ((w : Writer D F Key Item Segment) → (m w).1.tables ≡ w.tables)
        → ((w : Writer D F Key Item Segment) → (k w).1.tables ≡ w.tables)
        → (w : Writer D F Key Item Segment) → ((m >> k) w).1.tables ≡ w.tables
    then-tables m k p q w = elim (Result-cases (m w).0) [
      | inl (a, e) ↦ rw e (q (m w).1 ∙ p w)
      | inr (x, e) ↦ rw e (p w)
    ]

    -- A method that leaves the tables alone.
    pub Preserving-same :
        {A : Type 0} (m : Exec (Writer D F Key Item Segment) A)
        → ((w : Writer D F Key Item Segment) → (m w).1.tables ≡ w.tables)
        → Preserving m
    Preserving-same m e w v = rw (e w) (v, λ j. refl)

module _ {Key : Type 0} (dec : Discrete Key) where
  get-keep :
      (p : ℕ → Bool) (s : ℕ) {V : Type 0} (m : List (ℕ × V))
      → get ℕ_discrete (keep (λ e. p e.0) m) s ≡ (if p s then get ℕ_discrete m s else none)
  unfolding get
  get-keep p s [] = ground arith
  get-keep p s ((k, x) ∷ m) = ground (arith, get-keep p s m, ap p {x = k} {y = s})

  superseded_in-retain :
      (p : ℕ → Bool) (sup : List (ℕ × List Key)) (s : ℕ) (j : Key)
      → superseded_in dec (retain ℕ_discrete p sup) s j
        ≡ (if p s then superseded_in dec sup s j else false)
  unfolding superseded_in
  superseded_in-retain p sup s j = ground (arith, get-keep p s sup)

All-contained :
    (l m : List ℕ)
    → ((s : ℕ) → contains ℕ_discrete l s ≡ true → contains ℕ_discrete m s ≡ true)
    → All (λ s. contains ℕ_discrete m s ≡ true) l
unfolding contains
All-contained [] m h = tt
All-contained (x ∷ l) m h = (h x (ground arith), All-contained l m (λ s e. h s (ground (arith, e))))

module _ {Key Item Segment : Type 0} (dec : Discrete Key)
    (entries : Segment → List (Key × Item)) where
  -- Forgetting the marks of segments that are gone changes nothing.
  retain-Keeps :
      (t : Tables Key Item Segment)
      → IsValid dec entries t
      → Keeps dec entries t (record t {
        superseded =
            retain ℕ_discrete (contains ℕ_discrete (set_of ℕ_discrete t.segment_ids)) t.superseded;
      })
  unfolding copies live_segment_of
  retain-Keeps t v = (
    record {
      lockstep = v.lockstep;
      ascending = v.ascending;
      fresh = λ s j h. ground (arith, superseded_in-retain dec p t.superseded s j, v.fresh s j h);
      indexed = v.indexed;
      single = v.single;
      revived = v.revived;
      buried = v.buried;
      tracked = v.tracked;
      bounded = v.bounded;
      owned = λ j.
          All-imp₂ _ _ _ (sealed dec entries t)
            (λ q inside o. ground (arith, o, inside, superseded_in-retain dec p t.superseded q.0 j))
            here (v.owned j);
      moved = v.moved;
    },
    λ j.
        ap (λ l. l ++ items_of dec j t.buffer)
          (sealed_items-congr dec entries t.tombstones t.tombstones
            (retain ℕ_discrete p t.superseded) t.superseded j (sealed dec entries t) refl
            (All-imp _ _ (sealed dec entries t)
              (λ q inside. ground (arith, inside, superseded_in-retain dec p t.superseded q.0 j))
              here)),
  )
    where
      p : ℕ → Bool
      p = contains ℕ_discrete (set_of ℕ_discrete t.segment_ids)

      here : All (λ q. p q.0 ≡ true) (sealed dec entries t)
      here =
          All-zip (λ s. p s ≡ true) t.segment_ids t.segments
            (All-contained t.segment_ids (set_of ℕ_discrete t.segment_ids)
              (λ s e. contains-set_of ℕ_discrete t.segment_ids s ∙ e))

module _ {D F Key Item Segment : Type 0} (dec : Discrete Key) (store : Store Key Item Segment)
    (laws : StoreLaws dec store) (disk : Disk D Key Item Segment) where
  open laws use {entries}

  pub seal-Preserving : Preserving dec entries {D = D} {F = F} (seal dec store disk)
  unfolding seal
  seal-Preserving w v = (
    flush_buffer-IsValid dec store laws w.tables v,
    λ j. copies-flush_buffer dec store laws w.tables j v,
  )

  persist_segment-tables :
      (id : ℕ) (seg : Segment) (w : Writer D F Key Item Segment)
      → (persist_segment dec store disk id seg w).1.tables ≡ w.tables
  unfolding persist_segment
  persist_segment-tables id seg w = refl

  write_first-tables :
      (id : ℕ) (segs : List Segment) (w : Writer D F Key Item Segment)
      → (write_first dec store disk id segs w).1.tables ≡ w.tables
  write_first-tables id [] w = refl
  write_first-tables id (seg ∷ segs) w = persist_segment-tables id seg w

  pub persist_all-tables :
      (l : List (ℕ × ℕ)) (w : Writer D F Key Item Segment)
      → (persist_all dec store disk l w).1.tables ≡ w.tables
  unfolding persist_all
  persist_all-tables [] w = refl
  persist_all-tables ((idx, id) ∷ l) w = elim (Option-cases (select w.tables.segments (idx ∷ []))) [
    | inl e ↦ rw (persist_all, e) refl
    | inr (segs, e) ↦
        rw (persist_all, e)
          (then-tables dec entries (write_first dec store disk id segs)
            (persist_all dec store disk l) (write_first-tables id segs) (persist_all-tables l) w)
  ]

  commit-Preserving : Preserving dec entries {D = D} {F = F} (commit dec store disk)
  unfolding commit rotate gc_orphan_segments
  commit-Preserving w v =
      let k = retain-Keeps dec entries w.tables v in
      let t = record w.tables {
        superseded =
            retain ℕ_discrete (contains ℕ_discrete (set_of ℕ_discrete w.tables.segment_ids))
              w.tables.superseded;
      } in
      elim (Result-cases
        (disk.write_manifest (disk.has_path manifest_path) manifest_path (suc w.epoch)
          (manifest_of t) w.dir).0) [
            | inl (u, e) ↦ rw (commit, e) k
            | inr (x, e) ↦ rw (commit, e) k
          ]

  check_poisoned-tables :
      (w : Writer D F Key Item Segment) → (check_poisoned dec store disk w).1.tables ≡ w.tables
  unfolding check_poisoned
  check_poisoned-tables w = ground arith

  -- A checkpoint, finished or cut short by an error, loses no live copy.
  pub checkpoint-Preserving : Preserving dec entries {D = D} {F = F} (checkpoint dec store disk)
  unfolding checkpoint
  checkpoint-Preserving =
      Preserving-then dec entries (check_poisoned dec store disk) (seal dec store disk >> writes)
        (Preserving-same dec entries (check_poisoned dec store disk) check_poisoned-tables)
        (Preserving-then dec entries (seal dec store disk) writes seal-Preserving (λ w.
          Preserving-then dec entries
            (persist_all dec store disk (unwritten w.persisted_ids 0 w.tables.segment_ids))
            (commit dec store disk)
            (Preserving-same dec entries
              (persist_all dec store disk (unwritten w.persisted_ids 0 w.tables.segment_ids))
              (persist_all-tables (unwritten w.persisted_ids 0 w.tables.segment_ids)))
            commit-Preserving w))
    where
      writes : Exec (Writer D F Key Item Segment) (Unit {0})
      writes w =
          (persist_all dec store disk (unwritten w.persisted_ids 0 w.tables.segment_ids)
              >> commit dec store disk)
            w

  -- From a valid state, `checkpoint` leaves a valid state with the live copies of every id as they
  -- were, whether it returns or stops at an error.
  pub checkpoint-Keeps :
      (w : Writer D F Key Item Segment)
      → IsValid dec entries w.tables
      → Keeps dec entries w.tables (checkpoint dec store disk w).1.tables
  checkpoint-Keeps w v = checkpoint-Preserving w v
