-- ===== src/Tiers.antt =====
-- Size-tiered selection: `TierConfig` and `next_merge_group` of src/lib.rs. The `f64` arithmetic is
-- the parameter `Float`, of which nothing is assumed.
pub mod Shuffle
pub mod Choice
use segstore.Base.{
  ℕ, zero, suc, ◌+◌, ◌-◌, ◌/◌, max, min, Bool, true, false, not, ◌&&◌, List, [], ◌∷◌, ◌++◌, map,
  Option, none, some, if◌then◌else◌, ltb, leb, ◌==◌, length, take,
}
unfoldable use segstore.Base.{insert_by, sort_by}

pub record Float (F : Type 0) : Type 0 where
  pub of_ℕ : ℕ → F
  pub add : F → F → F
  pub mul : F → F → F
  pub div : F → F → F
  pub lt : F → F → Bool
  -- `total_cmp` is not `Greater`
  pub le : F → F → Bool
  pub infinity : F

pub record TierConfig (F : Type 0) : Type 0 where
  pub min_merge : ℕ
  pub max_merge : ℕ
  pub bucket_low : F
  pub bucket_high : F
  pub max_merged_len : ℕ

-- `TierConfig::default`, with 0.5 and 1.5 as quotients.
abbrev pub default_tiering : {F : Type 0} → Float F → TierConfig F
default_tiering float = record {
  min_merge = 4;
  max_merge = 32;
  bucket_low = float.div (float.of_ℕ 1) (float.of_ℕ 2);
  bucket_high = float.div (float.of_ℕ 3) (float.of_ℕ 2);
  max_merged_len = 10000000;
}

-- `members.sort_by_key(|&(raw, _)| raw)`
abbrev pub smallest_first : List (ℕ × ℕ) → List (ℕ × ℕ)
smallest_first = sort_by (λ a b. leb a.0 b.0)

module _ {F : Type 0} (float : Float F) (cfg : TierConfig F) where
  -- Raw size, floored size and index of the segments that the cap does not freeze, from index `i`.
  unfoldable pub eligible : ℕ → ℕ → List ℕ → List (ℕ × F × ℕ)
  eligible floor i [] = []
  eligible floor i (raw ∷ sizes) =
      if leb raw (cfg.max_merged_len / 2)
      then (raw, float.of_ℕ (max raw floor), i) ∷ eligible floor (suc i) sizes
      else eligible floor (suc i) sizes

  -- Join the first bucket whose running average is within the band, or open one.
  unfoldable pub join : ℕ × F × ℕ → List (F × List (ℕ × ℕ)) → List (F × List (ℕ × ℕ))
  join (raw, sz, idx) [] = (sz, (raw, idx) ∷ []) ∷ []
  join (raw, sz, idx) ((avg, ms) ∷ bs) =
      if float.lt (float.mul avg cfg.bucket_low) sz && float.lt sz (float.mul avg cfg.bucket_high)
      then (
        float.div (float.add (float.mul avg (float.of_ℕ (length ms))) sz)
            (float.add (float.of_ℕ (length ms)) (float.of_ℕ 1)),
        ms ++ (raw, idx) ∷ [],
      )
        ∷ bs
      else (avg, ms) ∷ join (raw, sz, idx) bs

  unfoldable pub bucket : List (ℕ × F × ℕ) → List (F × List (ℕ × ℕ)) → List (F × List (ℕ × ℕ))
  bucket [] bs = bs
  bucket (e ∷ es) bs = bucket es (join e bs)

  -- The members chosen after `count` others of `total` items.
  unfoldable pub choose : ℕ → ℕ → List (ℕ × ℕ) → List (ℕ × ℕ)
  choose count total [] = []
  choose count total ((raw, idx) ∷ ms) =
      if leb cfg.max_merge count
      then []
      else if not (count == 0) && ltb cfg.max_merged_len (total + raw)
      then []
      else (raw, idx) ∷ choose (suc count) (total + raw) ms

  unfoldable pub first_group : ℕ → List (F × List (ℕ × ℕ)) → Option (List (ℕ × ℕ))
  first_group min_merge [] = none
  first_group min_merge ((avg, ms) ∷ bs) =
      if ltb (length ms) min_merge
      then first_group min_merge bs
      else let chosen = choose 0 0 (smallest_first ms) in
        if leb min_merge (length chosen) then some chosen else first_group min_merge bs

  -- Sizes and indices of the group, and the indices alone.
  unfoldable pub next_members : ℕ → List ℕ → Option (List (ℕ × ℕ))
  next_members flush_threshold sizes =
      let min_merge = max cfg.min_merge 2 in
      let elig = eligible (max flush_threshold 1) 0 sizes in
      if ltb (length elig) min_merge
      then none
      else first_group min_merge
          (sort_by (λ a b. float.le a.0 b.0) (bucket (sort_by (λ a b. float.le a.1 b.1) elig) []))

  unfoldable pub next_merge_group : ℕ → List ℕ → Option (List ℕ)
  unfolding next_members
  next_merge_group flush_threshold sizes = elim (next_members flush_threshold sizes) [
    | none ↦ none
    | some chosen ↦ some (map (λ m. m.1) chosen)
  ]

  unfoldable pub has_eligible_tier : ℕ → List ℕ → Bool
  unfolding next_merge_group
  has_eligible_tier flush_threshold sizes = elim (next_merge_group flush_threshold sizes) [
    | none ↦ false
    | some _ ↦ true
  ]
