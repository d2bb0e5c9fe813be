-- ===== src/Tables/Live.antt =====
-- What readers see: the live copies of an id, as a reader finds them that scans every segment
-- with `is_live_in` and then the buffer.
use segstore.Base.{
  ℕ, ◌≡◌, refl, true, false, List, [], ◌∷◌, ◌++◌, arith, if◌then◌else◌, append_assoc,
}
use segstore.Base.Assoc.{eqb, contains}
use segstore.Payload.{items_of, ids}
use segstore.Manifest.{copy_is_live}
use segstore.Tables.{Tables, zip, drop_buffered}

module _ {Key Item : Type 0} (dec : Discrete Key) where
  pub items-append :
      (j : Key) (a b : List (Key × Item))
      → items_of dec j (a ++ b) ≡ items_of dec j a ++ items_of dec j b
  unfolding items_of
  items-append j [] b = refl
  items-append j ((i, x) ∷ a) b = ground (arith, items-append j a b)

  pub items-drop_buffered :
      (id j : Key) (l : List (Key × Item))
      → items_of dec j (drop_buffered dec id l) ≡ (if eqb dec id j then [] else items_of dec j l)
  unfolding items_of drop_buffered
  items-drop_buffered id j [] = ground arith
  items-drop_buffered id j ((i, x) ∷ l) =
      ground (arith, items-drop_buffered id j l, dec i id, dec i j, dec id j)

  pub contains-drop_buffered :
      (id j : Key) (l : List (Key × Item))
      → contains dec (ids (drop_buffered dec id l)) j
        ≡ (if eqb dec id j then false else contains dec (ids l) j)
  unfolding contains drop_buffered
  contains-drop_buffered id j [] = ground arith
  contains-drop_buffered id j ((i, x) ∷ l) =
      ground (arith, contains-drop_buffered id j l, dec i id, dec i j, dec id j)

  -- An id is listed exactly when it has a value.
  pub items_of-absent :
      (j : Key) (l : List (Key × Item)) → contains dec (ids l) j ≡ false → items_of dec j l ≡ []
  unfolding items_of contains
  items_of-absent j [] h = refl
  items_of-absent j ((i, x) ∷ l) h = ground (arith, items_of-absent j l)

  pub absent_of-items :
      (j : Key) (l : List (Key × Item)) → items_of dec j l ≡ [] → contains dec (ids l) j ≡ false
  unfolding items_of contains
  absent_of-items j [] h = refl
  absent_of-items j ((i, x) ∷ l) h = ground (arith, absent_of-items j l)

  pub contains_of-items :
      (j : Key) (l : List (Key × Item)) {x : Item} {xs : List Item}
      → items_of dec j l ≡ x ∷ xs
      → contains dec (ids l) j ≡ true
  unfolding items_of contains
  contains_of-items j [] h = cc
  contains_of-items j ((i, y) ∷ l) {x} {xs} h =
      ground (arith, contains_of-items j l {x = x} {xs = xs})

module _ {Key Item Segment : Type 0} (dec : Discrete Key)
    (entries : Segment → List (Key × Item)) where
  -- `is_live_in` lets the copies of `j` in one segment through.
  unfoldable pub live_items : List Key → List (ℕ × List Key) → Key → ℕ × Segment → List Item
  live_items tombstones superseded j (s, seg) =
      if copy_is_live dec tombstones superseded s j then items_of dec j (entries seg) else []

  unfoldable pub sealed_items :
      List Key → List (ℕ × List Key) → List (ℕ × Segment) → Key → List Item
  sealed_items tombstones superseded [] j = []
  sealed_items tombstones superseded (p ∷ ps) j =
      live_items tombstones superseded j p ++ sealed_items tombstones superseded ps j

  abbrev pub sealed : Tables Key Item Segment → List (ℕ × Segment)
  sealed t = zip t.segment_ids t.segments

  -- Every live copy of an id, oldest first.
  unfoldable pub copies : Tables Key Item Segment → Key → List Item
  copies t j = sealed_items t.tombstones t.superseded (sealed t) j ++ items_of dec j t.buffer

  pub sealed_items-append :
      (ts : List Key) (sup : List (ℕ × List Key)) (ps qs : List (ℕ × Segment)) (j : Key)
      → sealed_items ts sup (ps ++ qs) j ≡ sealed_items ts sup ps j ++ sealed_items ts sup qs j
  unfolding sealed_items
  sealed_items-append ts sup [] qs j = refl
  sealed_items-append ts sup (p ∷ ps) qs j = simp (sealed_items-append ts sup ps qs j, append_assoc)
