-- ===== src/Tiers/Choice.antt =====
-- The members that `next_merge_group` of src/lib.rs chooses.
use mathlib.Core.Path.{subst}
use mathlib.Core.List.{Permᴰ}
use mathlib.Core.List.Permᴰ as Perm
use segstore.Base.{
  ℕ, zero, suc, ◌+◌, ◌/◌, ◌≤◌, ◌≡◌, inl, inr, false, not, ◌&&◌, List, [], ◌∷◌, ◌++◌, some, length,
  arith, refl, ℕ_discrete, Bool-cases, ap, map, append-nil, append_assoc, ltb, leb, ◌==◌, max, ap₂,
  get_elem?, sort_by,
}
use segstore.Base.Assoc.{contains}
use segstore.Tables.{select}
use segstore.Tables.Invariant.{All, All-imp, Ascending}
use segstore.Tables.Select.{
  Distinct, All-perm, All-split, Distinct-perm, Ascending-Distinct, Ascending-weaken,
}
use segstore.Payload.{flatten}
use segstore.Tiers.{
  Float, TierConfig, eligible, join, bucket, choose, first_group, next_members, smallest_first,
}
use segstore.Tiers.Shuffle.{
  sort_by-perm, middle, map-perm, flatten-perm, Distinct-front, Distinct-back, map-append,
}

abbrev pub indices_of : List (ℕ × ℕ) → List ℕ
indices_of = map (λ m. m.1)

abbrev pub sizes_of : List (ℕ × ℕ) → List ℕ
sizes_of = map (λ m. m.0)

abbrev pub sum : List ℕ → ℕ
sum [] = 0
sum (x ∷ xs) = x + sum xs

module _ {F : Type 0} (float : Float F) (cfg : TierConfig F) where
  abbrev members : List (F × List (ℕ × ℕ)) → List (ℕ × ℕ)
  members bs = flatten (map (λ b. b.1) bs)

  abbrev pairs : List (ℕ × F × ℕ) → List (ℕ × ℕ)
  pairs = map (λ e. (e.0, e.2))

  join-perm :
      (raw : ℕ) (sz : F) (idx : ℕ) (bs : List (F × List (ℕ × ℕ)))
      → Permᴰ (members (join float cfg (raw, sz, idx) bs)) ((raw, idx) ∷ members bs)
  unfolding join
  join-perm raw sz idx [] = Perm.refl _
  join-perm raw sz idx ((avg, ms) ∷ bs) =
      elim (Bool-cases (
        float.lt (float.mul avg cfg.bucket_low) sz
        && float.lt sz (float.mul avg cfg.bucket_high))) [
          | inl e ↦ rw e (
              rw (append_assoc ms ((raw, idx) ∷ []) (members bs))
                (middle (raw, idx) ms (members bs)))
          | inr e ↦ rw e (
              Perm.trans (Perm.append_left ms (join-perm raw sz idx bs))
                (middle (raw, idx) ms (members bs)))
        ]

  choose-length :
      (count total : ℕ) (ms : List (ℕ × ℕ))
      → count ≤ cfg.max_merge
      → count + length (choose float cfg count total ms) ≤ cfg.max_merge
  unfolding choose
  choose-length count total [] h = omega arith
  choose-length count total ((raw, idx) ∷ ms) h =
      ground (arith, choose-length (suc count) (total + raw) ms)

  choose-total :
      (count total : ℕ) (ms : List (ℕ × ℕ))
      → total ≤ cfg.max_merged_len
      → All (λ m. m.0 ≤ cfg.max_merged_len / 2) ms
      → (count ≡ 0 → total ≡ 0)
      → total + sum (sizes_of (choose float cfg count total ms)) ≤ cfg.max_merged_len
  unfolding choose
  choose-total count total [] h a z = omega arith
  choose-total count total ((raw, idx) ∷ ms) h a z =
      ground (arith, a.0, choose-total (suc count) (total + raw) ms)

  choose-All :
      (P : ℕ × ℕ → Type 0) (count total : ℕ) (ms : List (ℕ × ℕ))
      → All P ms
      → All P (choose float cfg count total ms)
  unfolding choose
  choose-All P count total [] a = tt
  choose-All P count total ((raw, idx) ∷ ms) a = elim (Bool-cases (leb cfg.max_merge count)) [
    | inl e ↦ rw e tt
    | inr e ↦ rw e (elim (Bool-cases (not (count == 0) && ltb cfg.max_merged_len (total + raw))) [
      | inl f ↦ rw f tt
      | inr f ↦ rw f (a.0, choose-All P (suc count) (total + raw) ms a.1)
    ])
  ]

  choose-absent :
      (i count total : ℕ) (ms : List (ℕ × ℕ))
      → contains ℕ_discrete (indices_of ms) i ≡ false
      → contains ℕ_discrete (indices_of (choose float cfg count total ms)) i ≡ false
  unfolding choose contains
  choose-absent i count total [] h = refl
  choose-absent i count total ((raw, idx) ∷ ms) h =
      ground (arith, h, choose-absent i (suc count) (total + raw) ms)

  choose-Distinct :
      (count total : ℕ) (ms : List (ℕ × ℕ))
      → Distinct (indices_of ms)
      → Distinct (indices_of (choose float cfg count total ms))
  unfolding choose
  choose-Distinct count total [] h = tt
  choose-Distinct count total ((raw, idx) ∷ ms) h = elim (Bool-cases (leb cfg.max_merge count)) [
    | inl e ↦ rw e tt
    | inr e ↦ rw e (elim (Bool-cases (not (count == 0) && ltb cfg.max_merged_len (total + raw))) [
      | inl f ↦ rw f tt
      | inr f ↦ rw f (
        choose-absent idx (suc count) (total + raw) ms h.0,
        choose-Distinct (suc count) (total + raw) ms h.1,
      )
    ])
  ]

  bucket-perm :
      (es : List (ℕ × F × ℕ)) (bs : List (F × List (ℕ × ℕ)))
      → Permᴰ (members (bucket float cfg es bs)) (pairs es ++ members bs)
  unfolding bucket
  bucket-perm [] bs = Perm.refl _
  bucket-perm ((raw, sz, idx) ∷ es) bs =
      Perm.trans (bucket-perm es (join float cfg (raw, sz, idx) bs)) (
        Perm.trans (Perm.append_left (pairs es) (join-perm raw sz idx bs))
          (middle (raw, idx) (pairs es) (members bs)))

  eligible-All :
      (P : ℕ × ℕ → Type 0) (floor i : ℕ) (sizes : List ℕ)
      → ((k raw : ℕ) → get_elem? sizes k ≡ some raw → raw ≤ cfg.max_merged_len / 2 → P (raw, i + k))
      → All P (pairs (eligible float cfg floor i sizes))
  unfolding eligible
  eligible-All P floor i [] h = tt
  eligible-All P floor i (raw ∷ sizes) h =
      let later =
        eligible-All P floor (suc i) sizes
          (λ k r g le. subst (λ n. P (r, n)) (omega arith) (h (suc k) r g le)) in
      elim (Bool-cases (leb raw (cfg.max_merged_len / 2))) [
        | inl e ↦
            rw e (subst (λ n. P (raw, n)) (omega arith) (h 0 raw refl (ground (arith, e))), later)
        | inr e ↦ rw e later
      ]

  eligible-Ascending :
      (floor i hi : ℕ) (sizes : List ℕ)
      → i + length sizes ≤ hi
      → Ascending i hi (indices_of (pairs (eligible float cfg floor i sizes)))
  unfolding eligible
  eligible-Ascending floor i hi [] h = omega arith
  eligible-Ascending floor i hi (raw ∷ sizes) h =
      let later = eligible-Ascending floor (suc i) hi sizes (omega arith) in
      elim (Bool-cases (leb raw (cfg.max_merged_len / 2))) [
        | inl e ↦ rw e (omega arith, later)
        | inr e ↦ rw e (Ascending-weaken (suc i) i hi _ (omega arith) later)
      ]

  -- What the chosen members satisfy, for a property `P` of every candidate.
  abbrev pub Chosen : (ℕ × ℕ → Type 0) → ℕ → List (ℕ × ℕ) → Type 0
  Chosen P min_merge chosen =
      Distinct (indices_of chosen)
      × All P chosen
      × (min_merge ≤ length chosen)
      × (length chosen ≤ cfg.max_merge)
      × (sum (sizes_of chosen) ≤ cfg.max_merged_len)

  choose-Chosen :
      (P : ℕ × ℕ → Type 0) (min_merge : ℕ) (ms chosen : List (ℕ × ℕ))
      → ((m : ℕ × ℕ) → P m → m.0 ≤ cfg.max_merged_len / 2)
      → All P ms
      → Distinct (indices_of ms)
      → chosen ≡ choose float cfg 0 0 (smallest_first ms)
      → min_merge ≤ length chosen
      → Chosen P min_merge chosen
  choose-Chosen P min_merge ms chosen small a d e enough =
      let p = sort_by-perm (λ a b. leb a.0 b.0) ms in
      let a' = All-perm P (Perm.symm p) a in
      (
        rw e (
            choose-Distinct 0 0 (smallest_first ms)
              (Distinct-perm (map-perm (λ m. m.1) (Perm.symm p)) d)),
        rw e (choose-All P 0 0 (smallest_first ms) a'),
        enough,
        omega (arith, ap length e, choose-length 0 0 (smallest_first ms) (omega arith)),
        omega (
          arith,
          ap (λ c. sum (sizes_of c)) e,
          choose-total 0 0 (smallest_first ms) (omega arith)
              (All-imp P _ (smallest_first ms) small a') (λ _. refl),
        ),
      )

  first_group-Chosen :
      (P : ℕ × ℕ → Type 0) (min_merge : ℕ) (bs : List (F × List (ℕ × ℕ))) (chosen : List (ℕ × ℕ))
      → ((m : ℕ × ℕ) → P m → m.0 ≤ cfg.max_merged_len / 2)
      → All P (members bs)
      → Distinct (indices_of (members bs))
      → first_group float cfg min_merge bs ≡ some chosen
      → Chosen P min_merge chosen
  unfolding first_group
  first_group-Chosen P min_merge [] chosen small a d e = absurd (cc)
  first_group-Chosen P min_merge ((avg, ms) ∷ bs) chosen small a d e =
      let parts = subst Distinct (map-append (λ m. m.1) ms (members bs)) d in
      let later =
        first_group-Chosen P min_merge bs chosen small (All-split P ms (members bs) a).1
          (Distinct-back (indices_of ms) (indices_of (members bs)) parts) in
      elim (Bool-cases (ltb (length ms) min_merge)) [
        | inl few ↦ later (ground (arith, e, few))
        | inr many ↦
            elim (Bool-cases (leb min_merge (length (choose float cfg 0 0 (smallest_first ms))))) [
              | inl enough ↦
                  let same : chosen ≡ choose float cfg 0 0 (smallest_first ms) =
                    ground (arith, e, many, enough) in
                  choose-Chosen P min_merge ms chosen small (All-split P ms (members bs) a).0
                    (Distinct-front (indices_of ms) (indices_of (members bs)) parts) same
                    (ground (arith, same, enough))
              | inr short ↦ later (ground (arith, e, many, short))
            ]
      ]

  -- Every candidate is a segment of its size, under half the cap.
  abbrev pub Candidate : List ℕ → ℕ × ℕ → Type 0
  Candidate sizes m = (get_elem? sizes m.1 ≡ some m.0) × (m.0 ≤ cfg.max_merged_len / 2)

  -- The members that the size-tiered selection chooses have different indices; each is the size and
  -- index of a segment and at most half the cap; there are at least `min_merge` and at least two,
  -- and at most `max_merge`; and their sizes add up to at most `max_merged_len`.
  pub next_members-Chosen :
      (flush_threshold : ℕ) (sizes : List ℕ) (chosen : List (ℕ × ℕ))
      → next_members float cfg flush_threshold sizes ≡ some chosen
      → Chosen (Candidate sizes) (max cfg.min_merge 2) chosen
  unfolding next_members
  next_members-Chosen flush_threshold sizes chosen e =
      let elig = eligible float cfg (max flush_threshold 1) 0 sizes in
      let by_size = sort_by (λ a b. float.le a.1 b.1) elig in
      let bs = bucket float cfg by_size [] in
      let sorted = sort_by (λ a b. float.le a.0 b.0) bs in
      let p : Permᴰ (members sorted) (pairs elig) =
        Perm.trans (flatten-perm (map-perm (λ b. b.1) (sort_by-perm (λ a b. float.le a.0 b.0) bs)))
          (Perm.trans (bucket-perm by_size []) (
            rw (append-nil (pairs by_size))
              (map-perm (λ x. (x.0, x.2)) (sort_by-perm (λ a b. float.le a.1 b.1) elig)))) in
      elim (Bool-cases (ltb (length elig) (max cfg.min_merge 2))) [
        | inl few ↦ absurd (ground (arith, e, few))
        | inr many ↦
            first_group-Chosen (Candidate sizes) (max cfg.min_merge 2) sorted chosen (λ m c. c.1)
              (All-perm (Candidate sizes) (Perm.symm p) (
                eligible-All (Candidate sizes) (max flush_threshold 1) 0 sizes
                  (λ k raw g le. (subst (λ n. get_elem? sizes n ≡ some raw) (omega arith) g, le))))
              (Distinct-perm (map-perm (λ m. m.1) (Perm.symm p)) (
                Ascending-Distinct 0 (length sizes) _ (
                  eligible-Ascending (max flush_threshold 1) 0 (length sizes) sizes (omega arith))))
              (ground (arith, e, many))
      ]

get_elem-map {ℓ} :
    {A : Type ℓ} (l : List A) (size : A → ℕ) (i raw : ℕ)
    → get_elem? (map size l) i ≡ some raw
    → (x : A) × (get_elem? l i ≡ some x) × (size x ≡ raw)
get_elem-map [] size i raw h = absurd (cc)
get_elem-map (x ∷ l) size zero raw h = (x, refl, cc)
get_elem-map (x ∷ l) size (suc i) raw h = get_elem-map l size i raw h

select-step {ℓ} :
    {A : Type ℓ} (l : List A) (i : ℕ) (is : List ℕ) {x : A} {xs : List A}
    → get_elem? l i ≡ some x
    → select l is ≡ some xs
    → select l (i ∷ is) ≡ some (x ∷ xs)
unfolding select
select-step l i is g e = ground (arith, g, e)

-- A list indexed like its sizes gives the chosen elements.
pub select-Chosen {ℓ} :
    {A : Type ℓ} (l : List A) (size : A → ℕ) (chosen : List (ℕ × ℕ))
    → All (λ m. get_elem? (map size l) m.1 ≡ some m.0) chosen
    → (xs : List A) × (select l (indices_of chosen) ≡ some xs) × (map size xs ≡ sizes_of chosen)
unfolding select
select-Chosen l size [] h = ([], refl, refl)
select-Chosen l size ((raw, idx) ∷ chosen) h =
    let (xs, e, s) = select-Chosen l size chosen h.1 in
    let (x, g, r) = get_elem-map l size idx raw h.0 in
    (x ∷ xs, select-step l idx (indices_of chosen) g e, ap₂ ◌∷◌ r s)
