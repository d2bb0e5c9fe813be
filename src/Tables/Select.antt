-- ===== src/Tables/Select.antt =====
-- Picking a group of indices out of the segment list: what is picked and what stays is a
-- rearrangement of the list.
use mathlib.Core.List.{Permᴰ}
use mathlib.Core.List.Permᴰ as Perm
use segstore.Base.{
  ℕ, zero, suc, ◌+◌, ◌≤◌, ◌<◌, ◌≡◌, inl, inr, true, false, List, [], ◌∷◌, ◌++◌, some, length, arith,
  refl, ℕ_discrete, Option-cases, Bool-cases, ap, ◌∙◌, get_elem?,
}
use segstore.Base.Assoc.{eqb, contains, contains-append}
use segstore.Tables.{zip, select, drop_at}
use segstore.Tables.Invariant.{All, Ascending}

abbrev pub Distinct : List ℕ → Type 0
Distinct [] = Unit
Distinct (i ∷ l) = (contains ℕ_discrete l i ≡ false) × Distinct l

module _ {ℓ} {A : Type ℓ} where
  -- Indices below the start do not matter.
  pub drop_at_below :
      (idx : List ℕ) (i k : ℕ) (l : List A) → i < k → drop_at (i ∷ idx) k l ≡ drop_at idx k l
  unfolding drop_at contains
  drop_at_below idx i k [] h = refl
  drop_at_below idx i k (x ∷ l) h = ground (arith, drop_at_below idx i (suc k) l)

  drop_at-nil : (k : ℕ) (l : List A) → drop_at [] k l ≡ l
  unfolding drop_at contains
  drop_at-nil k [] = refl
  drop_at-nil k (x ∷ l) = ap (◌∷◌ x) (drop_at-nil (suc k) l)

  pick-perm :
      (idx : List ℕ) (i k n : ℕ) (l : List A) {x : A}
      → k + i ≡ n
      → contains ℕ_discrete idx n ≡ false
      → get_elem? l i ≡ some x
      → Permᴰ (drop_at idx k l) (x ∷ drop_at (n ∷ idx) k l)
  unfolding drop_at
  pick-perm idx i k n [] e h g = absurd (ground arith)
  pick-perm idx zero k n (y ∷ l) {x} e h g =
      let stays : contains ℕ_discrete idx k ≡ false = ground arith in
      let goes : contains ℕ_discrete (n ∷ idx) k ≡ true = unfold contains in ground arith in
      rw (stays, goes, drop_at_below idx n (suc k) l (omega arith))
        (Perm.cons (ground arith) (Perm.refl _))
  pick-perm idx (suc i) k n (y ∷ l) {x} e h g =
      let same : contains ℕ_discrete (n ∷ idx) k ≡ contains ℕ_discrete idx k =
        unfold contains in ground arith in
      let rest = pick-perm idx i (suc k) n l {x = x} (omega arith) h g in
      elim (Bool-cases (contains ℕ_discrete idx k)) [
        | inl goes ↦ rw (same, goes) rest
        | inr stays ↦ rw (same, stays) (Perm.trans (Perm.cons refl rest) (Perm.swap refl refl))
      ]

  -- Inversion of a successful `select`.
  pub select-cons :
      (l : List A) (i : ℕ) (idx : List ℕ) (chosen : List A)
      → select l (i ∷ idx) ≡ some chosen
      → (x : A) × (xs : List A) × (get_elem? l i ≡ some x)
        × (select l idx ≡ some xs)
        × (chosen ≡ x ∷ xs)
  unfolding select
  select-cons l i idx chosen e = elim (Option-cases (get_elem? l i)) [
    | inl m ↦ absurd (ground arith)
    | inr (x, g) ↦ elim (Option-cases (select l idx)) [
      | inl m ↦ absurd (ground arith)
      | inr (xs, s) ↦ (x, xs, g, s, ground arith)
    ]
  ]

  pub select-cons_of :
      (l : List A) (i : ℕ) (idx : List ℕ) (x : A) (xs : List A)
      → get_elem? l i ≡ some x
      → select l idx ≡ some xs
      → select l (i ∷ idx) ≡ some (x ∷ xs)
  unfolding select
  select-cons_of l i idx x xs g s = ground arith

  -- What `select` picks and what `drop_at` leaves make up the list.
  pub select-perm :
      (idx : List ℕ) (l chosen : List A)
      → Distinct idx
      → select l idx ≡ some chosen
      → Permᴰ l (chosen ++ drop_at idx 0 l)
  select-perm [] l chosen d e =
      let nothing : [] ≡ chosen = unfold select in cc in
      rw (← nothing, drop_at-nil 0 l) (Perm.refl l)
  select-perm (i ∷ idx) l chosen d e =
      let (x, xs, g, s, c) = select-cons l i idx chosen e in
      rw c (
        Perm.trans (select-perm idx l xs d.1 s) (
          Perm.trans (Perm.append_left xs (pick-perm idx i 0 i l {x = x} (omega arith) d.0 g))
            (Perm.middle x xs (drop_at (i ∷ idx) 0 l))))

module _ {ℓ κ} {A : Type ℓ} (P : A → Type κ) where
  pub All-perm : {l m : List A} → Permᴰ l m → All P l → All P m
  All-perm Perm.nil h = tt
  All-perm (Perm.cons e p) h = (rw (← e) h.0, All-perm p h.1)
  All-perm (Perm.swap e f) h = (rw (← f) h.1.0, (rw (← e) h.0, h.1.1))
  All-perm (Perm.trans p q) h = All-perm q (All-perm p h)

  pub All-split : (l m : List A) → All P (l ++ m) → All P l × All P m
  All-split [] m h = (tt, h)
  All-split (x ∷ l) m h = let r = All-split l m h.1 in ((h.0, r.0), r.1)

pub short-perm {ℓ} :
    {A : Type ℓ} {l m : List A}
    → Permᴰ l m
    → (l ≡ [] → m ≡ []) × ((x : A) → l ≡ x ∷ [] → m ≡ x ∷ [])
short-perm Perm.nil = (λ e. refl, λ x e. cc)
short-perm (Perm.cons e p) = (λ h. cc, λ x h. cc (e, (short-perm p).0 (cc)))
short-perm (Perm.swap e f) = (λ h. cc, λ x h. absurd (cc))
short-perm (Perm.trans p q) =
    let (a, b) = short-perm p in let (c, d) = short-perm q in (λ h. c (a h), λ x h. d x (b x h))

module _ {ℓ κ} {A : Type ℓ} {B : Type κ} where
  pub zip-drop_at :
      (idx : List ℕ) (k : ℕ) (l : List A) (m : List B)
      → length m ≡ length l
      → zip (drop_at idx k l) (drop_at idx k m) ≡ drop_at idx k (zip l m)
  unfolding zip drop_at
  zip-drop_at idx k [] m e = refl
  zip-drop_at idx k (x ∷ l) [] e = absurd (omega arith)
  zip-drop_at idx k (x ∷ l) (y ∷ m) e = ground (arith, zip-drop_at idx (suc k) l m)

  get_elem?-zip :
      (l : List A) (m : List B) (i : ℕ) {x : A} {y : B}
      → get_elem? l i ≡ some x
      → get_elem? m i ≡ some y
      → get_elem? (zip l m) i ≡ some (x, y)
  unfolding zip
  get_elem?-zip [] m i e f = cc
  get_elem?-zip (a ∷ l) [] i e f = cc
  get_elem?-zip (a ∷ l) (b ∷ m) zero e f = cc
  get_elem?-zip (a ∷ l) (b ∷ m) (suc i) e f = get_elem?-zip l m i e f

  pub select-zip :
      (l : List A) (m : List B) (idx : List ℕ) (xs : List A) (ys : List B)
      → select l idx ≡ some xs
      → select m idx ≡ some ys
      → select (zip l m) idx ≡ some (zip xs ys)
  unfolding zip
  select-zip l m [] xs ys e f =
      let a : [] ≡ xs = unfold select in cc in rw (← a) (unfold select in refl)
  select-zip l m (i ∷ idx) xs ys e f =
      let (x, xs', g, s, c) = select-cons l i idx xs e in
      let (y, ys', h, u, d) = select-cons m i idx ys f in
      rw (c, d)
        (select-cons_of (zip l m) i idx (x, y) (zip xs' ys')
          (get_elem?-zip l m i {x = x} {y = y} g h) (select-zip l m idx xs' ys' s u))

-- Ids that ascend are distinct.
Ascending-above :
    (lo hi i : ℕ) (l : List ℕ) → Ascending lo hi l → i < lo → contains ℕ_discrete l i ≡ false
unfolding contains
Ascending-above lo hi i [] a h = refl
Ascending-above lo hi i (s ∷ l) a h = ground (arith, Ascending-above (suc s) hi i l a.1)

pub Ascending-Distinct : (lo hi : ℕ) (l : List ℕ) → Ascending lo hi l → Distinct l
Ascending-Distinct lo hi [] a = tt
Ascending-Distinct lo hi (s ∷ l) a =
    (Ascending-above (suc s) hi s l a.1 (omega arith), Ascending-Distinct (suc s) hi l a.1)

pub Ascending-weaken :
    (lo lo' hi : ℕ) (l : List ℕ) → lo' ≤ lo → Ascending lo hi l → Ascending lo' hi l
Ascending-weaken lo lo' hi [] h a = omega arith
Ascending-weaken lo lo' hi (s ∷ l) h a = (omega arith, a.1)

pub Ascending-drop_at :
    (idx : List ℕ) (k lo hi : ℕ) (l : List ℕ)
    → Ascending lo hi l
    → Ascending lo hi (drop_at idx k l)
unfolding drop_at
Ascending-drop_at idx k lo hi [] a = a
Ascending-drop_at idx k lo hi (s ∷ l) a = elim (Bool-cases (contains ℕ_discrete idx k)) [
  | inl goes ↦ rw goes (
      Ascending-weaken (suc s) lo hi _ (omega arith)
        (Ascending-drop_at idx (suc k) (suc s) hi l a.1))
  | inr stays ↦ rw stays (a.0, Ascending-drop_at idx (suc k) (suc s) hi l a.1)
]

pub contains-perm :
    {l m : List ℕ} (i : ℕ) → Permᴰ l m → contains ℕ_discrete l i ≡ contains ℕ_discrete m i
unfolding contains
contains-perm i Perm.nil = refl
contains-perm i (Perm.cons e p) = ground (arith, contains-perm i p)
contains-perm i (Perm.swap e f) = ground arith
contains-perm i (Perm.trans p q) = contains-perm i p ∙ contains-perm i q

pub Distinct-perm : {l m : List ℕ} → Permᴰ l m → Distinct l → Distinct m
Distinct-perm Perm.nil d = tt
Distinct-perm (Perm.cons {b = b} e p) d = (rw (← e, ← contains-perm _ p) d.0, Distinct-perm p d.1)
Distinct-perm (Perm.swap e f) d = unfold contains in ground (arith, e, f, d.0, d.1.0, d.1.1)
Distinct-perm (Perm.trans p q) d = Distinct-perm q (Distinct-perm p d)

absent-All :
    (i : ℕ) (l : List ℕ) → contains ℕ_discrete l i ≡ false → All (λ j. eqb ℕ_discrete i j ≡ false) l
unfolding contains
absent-All i [] h = tt
absent-All i (j ∷ l) h = (ground arith, absent-All i l (ground arith))

apart-step :
    (x : ℕ) (front back : List ℕ)
    → All (λ j. eqb ℕ_discrete x j ≡ false) back
    → All (λ i. contains ℕ_discrete front i ≡ false) back
    → All (λ i. contains ℕ_discrete (x ∷ front) i ≡ false) back
unfolding contains
apart-step x front [] h a = tt
apart-step x front (j ∷ back) h a = (ground (arith, h.0, a.0), apart-step x front back h.1 a.1)

-- In a list of distinct ids the ids of the back are not in the front.
pub Distinct-apart :
    (front back : List ℕ)
    → Distinct (front ++ back)
    → All (λ i. contains ℕ_discrete front i ≡ false) back
Distinct-apart [] [] d = tt
Distinct-apart [] (i ∷ back) d = (unfold contains in refl, Distinct-apart [] back d.1)
Distinct-apart (x ∷ front) back d =
    apart-step x front back
      (absent-All x back (ground (arith, d.0, contains-append ℕ_discrete front back x)))
      (Distinct-apart front back d.1)
