-- ===== src/Tables/Invariant.antt =====
-- The well-formedness of the in-memory state, for a store whose `item_ids` lists its ids.
use segstore.Base.{
  ℕ, suc, ◌≤◌, ◌<◌, ◌≡◌, ◌⊎◌, Bool, true, false, List, [], ◌∷◌, ◌++◌, Option, none, some, length,
  arith, refl,
}
use segstore.Base.Assoc.{contains, get}
use segstore.Payload.{items_of, ids}
use segstore.Manifest.{superseded_in, copy_is_live}
use segstore.Tables.{Tables}
use segstore.Tables.Live.{sealed, live_items, sealed_items}

abbrev pub All {ℓ κ} : {A : Type ℓ} → (A → Type κ) → List A → Type κ
All P [] = Unit
All P (x ∷ xs) = P x × All P xs

-- Segment ids grow along the list, from `lo` on, and stay below `hi`.
abbrev pub Ascending : ℕ → ℕ → List ℕ → Type 0
Ascending lo hi [] = lo ≤ hi
Ascending lo hi (s ∷ ss) = (lo ≤ s) × Ascending (suc s) hi ss

pub Ascending-snoc :
    (lo hi : ℕ) (ss : List ℕ) → Ascending lo hi ss → Ascending lo (suc hi) (ss ++ hi ∷ [])
Ascending-snoc lo hi [] h = (omega arith, omega arith)
Ascending-snoc lo hi (s ∷ ss) h = (h.0, Ascending-snoc (suc s) hi ss h.1)

abbrev pub is_some {ℓ} : {A : Type ℓ} → Option A → Bool
is_some none = false
is_some (some a) = true

module _ {Key Item Segment : Type 0} (dec : Discrete Key) where
  -- `owners.as_ref()?.get(id).copied()`
  unfoldable pub live_segment_of : Tables Key Item Segment → Key → Option ℕ
  live_segment_of t id = elim t.owners [ none ↦ none | some owners ↦ get dec owners id ]

  pub live_segment_of-congr :
      (t u : Tables Key Item Segment) (j : Key)
      → t.owners ≡ u.owners
      → live_segment_of t j ≡ live_segment_of u j
  unfolding live_segment_of
  live_segment_of-congr t u j e = rw e

module _ {Key Item Segment : Type 0} (dec : Discrete Key)
    (entries : Segment → List (Key × Item)) where
  -- The segment's copy of `j` is superseded, or there is none, or it is the only one and the
  -- segment owns `j`.
  abbrev pub OwnedIn : List (ℕ × List Key) → Option ℕ → Key → ℕ × Segment → Type 0
  OwnedIn superseded owner j (s, seg) =
      (superseded_in dec superseded s j ≡ true)
      ⊎ (items_of dec j (entries seg) ≡ [])
      ⊎ ((x : Item) × (items_of dec j (entries seg) ≡ x ∷ []) × (owner ≡ some s))

  abbrev pub Owned : Tables Key Item Segment → Key → Type 0
  Owned t j = All (OwnedIn t.superseded (live_segment_of dec t j) j) (sealed dec entries t)

  pub record IsValid (t : Tables Key Item Segment) : Type 0 where
    pub lockstep : length t.segments ≡ length t.segment_ids
    pub ascending : Ascending 0 t.next_seg_id t.segment_ids
    pub fresh : (s : ℕ) (j : Key) → t.next_seg_id ≤ s → superseded_in dec t.superseded s j ≡ false
    pub indexed : (j : Key) → contains dec t.buffer_ids j ≡ contains dec (ids t.buffer) j
    pub single : (j : Key) → length (items_of dec j t.buffer) ≤ 1
    pub revived :
        (j : Key) → contains dec (ids t.buffer) j ≡ true → contains dec t.tombstones j ≡ false
    pub buried : (j : Key) → contains dec t.tombstones j ≡ true → live_segment_of dec t j ≡ none
    pub tracked : is_some t.owners ≡ true
    pub bounded : (j : Key) (s : ℕ) → live_segment_of dec t j ≡ some s → s < t.next_seg_id
    pub owned : (j : Key) → Owned t j
    pub moved : (j : Key) → contains dec (ids t.buffer) j ≡ true → live_segment_of dec t j ≡ none

  -- With no owner, every copy in the segments is superseded.
  pub sealed_items-unowned :
      (ts : List Key) (sup : List (ℕ × List Key)) (j : Key) (ps : List (ℕ × Segment))
      → All (OwnedIn sup none j) ps
      → sealed_items dec entries ts sup ps j ≡ []
  unfolding sealed_items live_items copy_is_live
  sealed_items-unowned ts sup j [] h = refl
  sealed_items-unowned ts sup j ((s, seg) ∷ ps) h =
      ground (arith, sealed_items-unowned ts sup j ps h.1, h.0)

  -- The sealed copies of an id depend on its own marks only.
  pub sealed_items-congr :
      (ts ts' : List Key) (sup sup' : List (ℕ × List Key)) (j : Key) (ps : List (ℕ × Segment))
      → contains dec ts j ≡ contains dec ts' j
      → All (λ p. superseded_in dec sup p.0 j ≡ superseded_in dec sup' p.0 j) ps
      → sealed_items dec entries ts sup ps j ≡ sealed_items dec entries ts' sup' ps j
  unfolding sealed_items live_items copy_is_live
  sealed_items-congr ts ts' sup sup' j [] e h = refl
  sealed_items-congr ts ts' sup sup' j ((s, seg) ∷ ps) e h =
      rw (sealed_items-congr ts ts' sup sup' j ps e h.1, e, h.0)

pub All-of {ℓ κ} : {A : Type ℓ} (P : A → Type κ) (xs : List A) → ((x : A) → P x) → All P xs
All-of P [] h = tt
All-of P (x ∷ xs) h = (h x, All-of P xs h)

pub All-append {ℓ κ} :
    {A : Type ℓ} (P : A → Type κ) (xs ys : List A) → All P xs → All P ys → All P (xs ++ ys)
All-append P [] ys h k = k
All-append P (x ∷ xs) ys h k = (h.0, All-append P xs ys h.1 k)

pub All-imp {ℓ κ} :
    {A : Type ℓ} (P Q : A → Type κ) (xs : List A) → ((x : A) → P x → Q x) → All P xs → All Q xs
All-imp P Q [] f h = tt
All-imp P Q (x ∷ xs) f h = (f x h.0, All-imp P Q xs f h.1)
