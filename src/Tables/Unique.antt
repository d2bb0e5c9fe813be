-- ===== src/Tables/Unique.antt =====
-- The number of live copies of an id, and the sealed copies when segments are rearranged.
use mathlib.Core.Path.{subst}
use mathlib.Core.List.{Permᴰ}
use mathlib.Core.List.Permᴰ as Perm
use segstore.Base.{
  ℕ, suc, ◌≤◌, ◌<◌, ◌≡◌, ◌⊎◌, inl, inr, true, false, List, [], ◌∷◌, ◌++◌, Option, some, length,
  arith, if◌then◌else◌, refl, ℕ_discrete, Bool-cases, append-nil, ap, append_assoc,
}
use segstore.Base.Assoc.{contains, remove}
use segstore.Payload.{ids}
use segstore.Manifest.{superseded_in, copy_is_live, superseded_in-remove}
use segstore.Tables.{Tables, zip, select, drop_at, remove_all}
use segstore.Tables.Live.{sealed, live_items, sealed_items, copies, items_of-absent}
use segstore.Tables.Invariant.{
  All, OwnedIn, IsValid, live_segment_of, Ascending, sealed_items-unowned,
}
use segstore.Tables.Select.{select-cons}

pub superseded_in-remove_all :
    {Key : Type 0} (dec : Discrete Key) (group : List ℕ) (sup : List (ℕ × List Key)) (s : ℕ)
    (j : Key)
    → superseded_in dec (remove_all group sup) s j
      ≡ (if contains ℕ_discrete group s then false else superseded_in dec sup s j)
unfolding remove_all contains
superseded_in-remove_all dec [] sup s j = refl
superseded_in-remove_all dec (g ∷ group) sup s j = ground (
  arith,
  superseded_in-remove_all dec group (remove ℕ_discrete g sup) s j,
  superseded_in-remove dec g s j sup,
)

pub length-drop_at {ℓ κ} :
    {A : Type ℓ} {B : Type κ} (idx : List ℕ) (k : ℕ) (l : List A) (m : List B)
    → length l ≡ length m
    → length (drop_at idx k l) ≡ length (drop_at idx k m)
unfolding drop_at
length-drop_at idx k [] [] e = refl
length-drop_at idx k [] (y ∷ m) e = absurd (omega arith)
length-drop_at idx k (x ∷ l) [] e = absurd (omega arith)
length-drop_at idx k (x ∷ l) (y ∷ m) e = ground (arith, length-drop_at idx (suc k) l m)

pub length-select {ℓ} :
    {A : Type ℓ} (idx : List ℕ) (l xs : List A) → select l idx ≡ some xs → length xs ≡ length idx
length-select [] l xs e = let n : [] ≡ xs = unfold select in cc in rw (← n) refl
length-select (i ∷ idx) l xs e =
    let (x, xs', g, s, c) = select-cons l i idx xs e in rw c (ap suc (length-select idx l xs' s))

pub swap_append {ℓ} : {A : Type ℓ} (a b l : List A) → Permᴰ (a ++ (b ++ l)) (b ++ (a ++ l))
swap_append a b l =
    rw (← append_assoc a b l, ← append_assoc b a l) (Perm.append_right l (Perm.append_comm a b))

pub All-zip {ℓ κ} :
    {A : Type ℓ} {B : Type κ} (P : A → Type 0) (l : List A) (m : List B)
    → All P l
    → All (λ p. P p.0) (zip l m)
unfolding zip
All-zip P [] m h = tt
All-zip P (x ∷ l) [] h = tt
All-zip P (x ∷ l) (y ∷ m) h = (h.0, All-zip P l m h.1)

module _ {Key Item Segment : Type 0} (dec : Discrete Key)
    (entries : Segment → List (Key × Item)) where
  pub sealed_items-perm :
      (ts : List Key) (sup : List (ℕ × List Key)) (j : Key) {ps qs : List (ℕ × Segment)}
      → Permᴰ ps qs
      → Permᴰ (sealed_items dec entries ts sup ps j) (sealed_items dec entries ts sup qs j)
  unfolding sealed_items
  sealed_items-perm ts sup j Perm.nil = Perm.nil
  sealed_items-perm ts sup j (Perm.cons e p) =
      rw e (Perm.append_left _ (sealed_items-perm ts sup j p))
  sealed_items-perm ts sup j (Perm.swap {a = a} {b = b} {l = l} e f) =
      rw (← e, ← f)
        (swap_append (live_items dec entries ts sup j a) (live_items dec entries ts sup j b)
          (sealed_items dec entries ts sup l j))
  sealed_items-perm ts sup j (Perm.trans p q) =
      Perm.trans (sealed_items-perm ts sup j p) (sealed_items-perm ts sup j q)

  pub sealed_items-tombstoned :
      (ts : List Key) (sup : List (ℕ × List Key)) (j : Key) (ps : List (ℕ × Segment))
      → contains dec ts j ≡ true
      → sealed_items dec entries ts sup ps j ≡ []
  unfolding sealed_items live_items copy_is_live
  sealed_items-tombstoned ts sup j [] h = refl
  sealed_items-tombstoned ts sup j ((s, seg) ∷ ps) h =
      ground (arith, sealed_items-tombstoned ts sup j ps h)

  -- An owner below the ids leaves nothing live.
  sealed_items-past :
      (ts : List Key) (sup : List (ℕ × List Key)) (j : Key) (o lo hi : ℕ) (l : List ℕ)
      (m : List Segment)
      → o < lo
      → Ascending lo hi l
      → All (OwnedIn dec entries sup (some o) j) (zip l m)
      → sealed_items dec entries ts sup (zip l m) j ≡ []
  unfolding sealed_items live_items copy_is_live zip
  sealed_items-past ts sup j o lo hi [] m h a w = refl
  sealed_items-past ts sup j o lo hi (s ∷ l) [] h a w = refl
  sealed_items-past ts sup j o lo hi (s ∷ l) (seg ∷ m) h a w =
      ground (arith, sealed_items-past ts sup j o (suc s) hi l m, w.0, a.0, w.1, a.1)

  -- At most one segment shows a live copy.
  pub sealed_items-short :
      (ts : List Key) (sup : List (ℕ × List Key)) (j : Key) (owner : Option ℕ) (lo hi : ℕ)
      (l : List ℕ) (m : List Segment)
      → Ascending lo hi l
      → All (OwnedIn dec entries sup owner j) (zip l m)
      → length (sealed_items dec entries ts sup (zip l m) j) ≤ 1
  unfolding sealed_items live_items copy_is_live zip
  sealed_items-short ts sup j owner lo hi [] m a w = omega arith
  sealed_items-short ts sup j owner lo hi (s ∷ l) [] a w = omega arith
  sealed_items-short ts sup j owner lo hi (s ∷ l) (seg ∷ m) a w = elim w.0 [
    | inl marked ↦ ground (arith, marked, sealed_items-short ts sup j owner (suc s) hi l m a.1 w.1)
    | inr (inl none_here) ↦
        ground (arith, none_here, sealed_items-short ts sup j owner (suc s) hi l m a.1 w.1)
    | inr (inr (x, one, here)) ↦
        let rest =
          sealed_items-past ts sup j s (suc s) hi l m (omega arith) a.1
            (subst (λ o. All (OwnedIn dec entries sup o j) (zip l m)) here w.1) in
        ground (arith, one, rest)
  ]

  -- In a valid state every id has at most one live copy, over all the segments and the buffer.
  pub copies_at_most_one :
      (t : Tables Key Item Segment) (j : Key)
      → IsValid dec entries t
      → length (copies dec entries t j) ≤ 1
  unfolding copies
  copies_at_most_one t j v = elim (Bool-cases (contains dec (ids t.buffer) j)) [
    | inl h ↦
        let unsealed =
          sealed_items-unowned dec entries t.tombstones t.superseded j (sealed dec entries t) (
            subst (λ o. All (OwnedIn dec entries t.superseded o j) (sealed dec entries t))
              (v.moved j h) (v.owned j)) in
        rw unsealed (v.single j)
    | inr h ↦
        rw (items_of-absent dec j t.buffer h, append-nil)
          (sealed_items-short t.tombstones t.superseded j (live_segment_of dec t j) 0 t.next_seg_id
            t.segment_ids t.segments v.ascending (v.owned j))
  ]

  -- Either nothing of the group is live, or the owner is in the group.
  pub chosen-owner :
      (ts : List Key) (sup : List (ℕ × List Key)) (j : Key) (owner : Option ℕ) (group : List ℕ)
      (segs : List Segment)
      → All (OwnedIn dec entries sup owner j) (zip group segs)
      → (sealed_items dec entries ts sup (zip group segs) j ≡ [])
        ⊎ ((s : ℕ) × (owner ≡ some s) × (contains ℕ_discrete group s ≡ true))
  unfolding sealed_items live_items copy_is_live zip contains
  chosen-owner ts sup j owner [] segs w = inl refl
  chosen-owner ts sup j owner (g ∷ group) [] w = inl refl
  chosen-owner ts sup j owner (g ∷ group) (seg ∷ segs) w =
      ground (arith, w.0, chosen-owner ts sup j owner group segs w.1)
