-- ===== src/Payload.antt =====
-- `Store` of src/lib.rs, the consumer's payload model: what it must provide, and what the
-- documentation of its methods asks of them. `DefaultStore` is the one that the program ships.
pub mod Default
use segstore.Base.{ℕ, ◌≡◌, Bool, List, [], ◌∷◌, ◌++◌, map, Option, some, length, if◌then◌else◌}
use segstore.Base.Assoc.{eqb}

-- The trait's default bodies of `live_len` and `item_ids` return `none`.
pub record Store (Key Item Segment : Type 0) : Type 0 where
  pub build_segment : List (Key × Item) → Segment
  pub merge_segments : List Segment → (Key → Bool) → Segment
  pub segment_len : Segment → ℕ
  pub live_len : Segment → (Key → Bool) → Option ℕ
  pub item_ids : Segment → Option (List Key)

module _ {ℓ} {A : Type ℓ} where
  abbrev pub flatten : List (List A) → List A
  flatten [] = []
  flatten (l ∷ ls) = l ++ flatten ls

module _ {Key Item : Type 0} where
  abbrev pub ids : List (Key × Item) → List Key
  ids = map (λ e. e.0)

module _ {Key Item : Type 0} (dec : Discrete Key) where
  -- The values stored for one id, oldest first.
  unfoldable pub items_of : Key → List (Key × Item) → List Item
  items_of j [] = []
  items_of j ((i, x) ∷ l) = if eqb dec i j then x ∷ items_of j l else items_of j l

-- `entries` lists the copies in a segment. A segment may order different ids as it likes: the laws
-- speak of one id at a time.
pub record StoreLaws {Key Item Segment : Type 0} (dec : Discrete Key)
    (store : Store Key Item Segment) : Type 0 where
  pub entries : Segment → List (Key × Item)
  pub items-build_segment :
      (batch : List (Key × Item)) (j : Key)
      → items_of dec j (entries (store.build_segment batch)) ≡ items_of dec j batch
  pub items-merge_segments :
      (segs : List Segment) (live : Key → Bool) (j : Key)
      → items_of dec j (entries (store.merge_segments segs live))
        ≡ (if live j then items_of dec j (flatten (map entries segs)) else [])
  pub segment_len-entries : (seg : Segment) → store.segment_len seg ≡ length (entries seg)
  pub item_ids-entries : (seg : Segment) → store.item_ids seg ≡ some (ids (entries seg))
