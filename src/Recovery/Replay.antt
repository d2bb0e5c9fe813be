-- ===== src/Recovery/Replay.antt =====
-- The replay of the log in `open_with_options` of src/lib.rs, against an abstract history.
use segstore.Base.{
  ℕ, ◌≡◌, inl, inr, List, [], ◌∷◌, length, if◌then◌else◌, refl, Bool-cases, ap, ◌∙◌, leb,
}
use segstore.Base.Assoc.{eqb}
use segstore.Payload.{Store, StoreLaws}
use segstore.Tables.{Tables, Op, add, delete, apply}
use segstore.Tables.Live.{copies}
use segstore.Tables.Invariant.{IsValid}
use segstore.Tables.Apply.{copies-add, copies-delete}
use segstore.Tables.Applied.{add-IsValid, delete-IsValid}
use segstore.Tables.Flush.{copies-flush_buffer, flush_buffer-IsValid}
use segstore.Recovery.{replay, replay_one}

module _ {Key Item : Type 0} (dec : Discrete Key) where
  -- What one operation does to the values of `j`: the last write wins.
  abbrev pub effect : Op Key Item → Key → List Item → List Item
  effect (add id item) j l = if eqb dec id j then item ∷ [] else l
  effect (delete id) j l = if eqb dec id j then [] else l

  abbrev pub history : List (Op Key Item) → Key → List Item → List Item
  history [] j l = l
  history (op ∷ ops) j l = history ops j (effect op j l)

module _ {Key Item Segment : Type 0} (dec : Discrete Key) (store : Store Key Item Segment)
    (laws : StoreLaws dec store) where
  open laws use {entries}

  pub apply-IsValid :
      (op : Op Key Item) (t : Tables Key Item Segment)
      → IsValid dec entries t
      → IsValid dec entries (apply dec op t)
  apply-IsValid (add id item) t v = add-IsValid dec entries t id item v
  apply-IsValid (delete id) t v = delete-IsValid dec entries t id v

  pub copies-apply :
      (op : Op Key Item) (t : Tables Key Item Segment) (j : Key)
      → IsValid dec entries t
      → copies dec entries (apply dec op t) j ≡ effect dec op j (copies dec entries t j)
  copies-apply (add id item) t j v = copies-add dec entries t id j item v
  copies-apply (delete id) t j v = copies-delete dec entries t id j v

  replay_one-keeps :
      (threshold : ℕ) (op : Op Key Item) (t : Tables Key Item Segment)
      → IsValid dec entries t
      → IsValid dec entries (replay_one dec store threshold op t)
        × ((j : Key)
            → copies dec entries (replay_one dec store threshold op t) j
              ≡ effect dec op j (copies dec entries t j))
  unfolding replay_one
  replay_one-keeps threshold op t v =
      let u = apply-IsValid op t v in
      elim (Bool-cases (leb threshold (length (apply dec op t).buffer))) [
        | inl e ↦ rw e (
          flush_buffer-IsValid dec store laws (apply dec op t) u,
          λ j. copies-flush_buffer dec store laws (apply dec op t) j u ∙ copies-apply op t j v,
        )
        | inr e ↦ rw e (u, λ j. copies-apply op t j v)
      ]

  -- From a valid state, the replay of a log leaves a valid state in which the live copies of every
  -- id are what the operations make of them in order, the last write winning, whatever the flush
  -- threshold.
  pub replay-history :
      (threshold : ℕ) (ops : List (Op Key Item)) (t : Tables Key Item Segment)
      → IsValid dec entries t
      → IsValid dec entries (replay dec store threshold ops t)
        × ((j : Key)
            → copies dec entries (replay dec store threshold ops t) j
              ≡ history dec ops j (copies dec entries t j))
  unfolding replay
  replay-history threshold [] t v = (v, λ j. refl)
  replay-history threshold (op ∷ ops) t v =
      let (u, e) = replay_one-keeps threshold op t v in
      let (x, f) = replay-history threshold ops (replay_one dec store threshold op t) u in
      (x, λ j. f j ∙ ap (history dec ops j) (e j))
