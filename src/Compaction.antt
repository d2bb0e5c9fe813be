-- ===== src/Compaction.antt =====
-- The compactions of src/lib.rs: `compact`, `compact_tiers`, `force_merge_to` and
-- `reclaim_tombstones`, with the size reports they decide on. The two `while` loops run on fuel,
-- one unit for each segment: every round leaves at least one segment less.
pub mod Progress
pub mod Keeping
pub mod Reclaim
pub mod Purging
pub mod Full
pub mod Forced
use segstore.Base.{
  ℕ, zero, suc, ◌+◌, ◌-◌, max, min, Bool, true, false, not, ◌&&◌, ◌||◌, List, [], ◌∷◌, ◌++◌, map,
  Option, none, some, if◌then◌else◌, ◌==◌, leb, ltb, length, take, is_empty,
}
unfoldable use segstore.Base.{insert_by, sort_by}
use segstore.Base.Result.{Result, ok, err}
use segstore.Base.Exec.{Exec, ◌>>=◌, ◌>>◌, return}
use segstore.Payload.{Store}
use segstore.Manifest.{copy_is_live}
use segstore.Disk.{Disk}
use segstore.Tables.{Tables}
use segstore.Tiers.{Float, TierConfig, next_merge_group}
use segstore.Writer.{Writer, seal, merge_group, checkpoint, put_tables}

pub record CompactionStats : Type 0 where
  pub merges : ℕ
  pub segments_before : ℕ
  pub segments_after : ℕ
  pub items_merged : ℕ

abbrev pub no_merges : ℕ → CompactionStats
no_merges before = record {
  merges = 0;
  segments_before = before;
  segments_after = 0;
  items_merged = 0;
}

abbrev pub count_merge : ℕ → CompactionStats → CompactionStats
count_merge n stats = record stats {
  items_merged = stats.items_merged + n;
  merges = suc stats.merges;
}

-- `(i .. i + n).collect()`
abbrev pub range : ℕ → ℕ → List ℕ
range i zero = []
range i (suc n) = i ∷ range (suc i) n

abbrev pub enumerate : ℕ → List ℕ → List (ℕ × ℕ)
enumerate i [] = []
enumerate i (size ∷ sizes) = (size, i) ∷ enumerate (suc i) sizes

-- The `k` smallest segments, ties by position.
unfoldable pub smallest : ℕ → List ℕ → List ℕ
unfolding sort_by
smallest k sizes = take k (map (λ m. m.1) (sort_by (λ a b. leb a.0 b.0) (enumerate 0 sizes)))

module _ {Key Item Segment : Type 0} (dec : Discrete Key) (store : Store Key Item Segment) where
  abbrev pub segment_sizes : Tables Key Item Segment → List ℕ
  segment_sizes t = map store.segment_len t.segments

  abbrev pub sum_of : List ℕ → ℕ
  sum_of [] = 0
  sum_of (n ∷ l) = n + sum_of l

  abbrev pub stored_len : Tables Key Item Segment → ℕ
  stored_len t = sum_of (segment_sizes t) + length t.buffer

  -- `store.live_len` of each segment with its own predicate, unless one of them cannot tell.
  unfoldable pub live_lens : List Key → List (ℕ × List Key) → List Segment → List ℕ → Option ℕ
  live_lens ts sup [] is = some 0
  live_lens ts sup (seg ∷ segs) [] = some 0
  live_lens ts sup (seg ∷ segs) (i ∷ is) = elim (store.live_len seg (copy_is_live dec ts sup i)) [
    | none ↦ none
    | some l ↦ elim (live_lens ts sup segs is) [ none ↦ none | some rest ↦ some (l + rest) ]
  ]

  -- `zip` stops at the shorter list, so the stored items are those of the listed segments.
  unfoldable pub space_amplification : {F : Type 0} → Float F → Tables Key Item Segment → Option F
  unfolding live_lens
  space_amplification float t =
      elim (live_lens t.tombstones t.superseded t.segments t.segment_ids) [
        | none ↦ none
        | some l ↦
            let stored =
              sum_of (map store.segment_len (take (length t.segment_ids) t.segments))
              + length t.buffer in
            let live = l + length t.buffer in
            if live == 0
            then (if stored == 0 then some (float.of_ℕ 1) else some float.infinity)
            else some (float.div (float.of_ℕ stored) (float.of_ℕ live))
      ]

  module _ {F : Type 0} (float : Float F) where
    -- The indices, from `i` on, of the segments whose live ratio is too low; `none` when the consumer
    -- cannot count live items.
    unfoldable pub targets :
        F → List Key → List (ℕ × List Key) → ℕ → List Segment → List ℕ → Option (List ℕ)
    targets ratio ts sup i [] is = some []
    targets ratio ts sup i (seg ∷ segs) [] = some []
    targets ratio ts sup i (seg ∷ segs) (s ∷ is) =
        let later = targets ratio ts sup (suc i) segs is in
        let total = store.segment_len seg in
        if total == 0 then later else elim (store.live_len seg (copy_is_live dec ts sup s)) [
          | none ↦ none
          | some l ↦
              if float.lt (float.of_ℕ l) (float.mul ratio (float.of_ℕ total))
              then (elim later [ none ↦ none | some rest ↦ some (i ∷ rest) ])
              else later
        ]

module _ {D F Key Item Segment : Type 0} (dec : Discrete Key) (store : Store Key Item Segment)
    (disk : Disk D Key Item Segment) (float : Float F) where
  abbrev pub next_group : Writer D F Key Item Segment → Option (List ℕ)
  next_group w =
      next_merge_group float w.tiering w.flush_threshold (segment_sizes dec store w.tables)

  abbrev pub finish : CompactionStats → Exec (Writer D F Key Item Segment) CompactionStats
  finish stats w = (ok (record stats { segments_after = length w.tables.segments }), w)

  -- `if stats.merges > 0 { self.checkpoint()? }`
  abbrev pub commit_merges : CompactionStats → Exec (Writer D F Key Item Segment) CompactionStats
  commit_merges stats =
      if stats.merges == 0 then finish stats else (checkpoint dec store disk >> finish stats)

  -- What `compact` does to the sealed segments before it purges.
  unfoldable pub merge_everything : Exec (Writer D F Key Item Segment) CompactionStats
  unfolding merge_group
  merge_everything w =
      let before = length w.tables.segments in
      let has_dead = not (is_empty w.tables.tombstones) || not (is_empty w.tables.superseded) in
      if ltb 1 before || (before == 1 && has_dead)
      then (merge_group dec store disk (range 0 before)
            >>= (λ n. return (count_merge n (no_merges before))))
          w
      else (ok (no_merges before), w)

  -- `tombstones.clear(); superseded.clear();`
  unfoldable pub purge : Exec (Writer D F Key Item Segment) (Unit {0})
  purge w = (ok tt, record w { tables = record w.tables { tombstones = []; superseded = [] } })

  unfoldable pub compact : Exec (Writer D F Key Item Segment) CompactionStats
  unfolding merge_everything purge seal
  compact =
      seal dec store disk
      >> (merge_everything >>= (λ stats. purge >> (checkpoint dec store disk >> finish stats)))

  unfoldable pub tier_rounds :
      ℕ → CompactionStats → Exec (Writer D F Key Item Segment) CompactionStats
  unfolding merge_group
  tier_rounds zero stats w = (ok stats, w)
  tier_rounds (suc fuel) stats w = elim (next_group w) [
    | none ↦ (ok stats, w)
    | some group ↦
        (merge_group dec store disk group >>= (λ n. tier_rounds fuel (count_merge n stats))) w
  ]

  unfoldable pub compact_tiers : Exec (Writer D F Key Item Segment) CompactionStats
  unfolding seal tier_rounds
  compact_tiers = seal dec store disk >> (λ w.
      (tier_rounds (length w.tables.segments) (no_merges (length w.tables.segments))
          >>= commit_merges)
        w)

  unfoldable pub force_group : ℕ → Writer D F Key Item Segment → List ℕ
  unfolding smallest
  force_group max_segments w =
      let n = length w.tables.segments in
      smallest (min (min (suc (n - max_segments)) (max w.tiering.max_merge 2)) n)
        (segment_sizes dec store w.tables)

  unfoldable pub force_rounds :
      ℕ → ℕ → CompactionStats → Exec (Writer D F Key Item Segment) CompactionStats
  unfolding merge_group force_group
  force_rounds zero max_segments stats w = (ok stats, w)
  force_rounds (suc fuel) max_segments stats w =
      if ltb max_segments (length w.tables.segments)
      then (merge_group dec store disk (force_group max_segments w)
            >>= (λ n. force_rounds fuel max_segments (count_merge n stats)))
          w
      else (ok stats, w)

  unfoldable pub force_merge_to : ℕ → Exec (Writer D F Key Item Segment) CompactionStats
  unfolding force_rounds compact
  force_merge_to max_segments =
      if leb max_segments 1
      then compact
      else (seal dec store disk >> (λ w.
          (force_rounds (length w.tables.segments) max_segments
                (no_merges (length w.tables.segments))
              >>= commit_merges)
            w))

  unfoldable pub reclaim_targets : F → Exec (Writer D F Key Item Segment) CompactionStats
  unfolding targets merge_group
  reclaim_targets ratio w =
      let stats = no_merges (length w.tables.segments) in
      elim (targets dec store float ratio w.tables.tombstones w.tables.superseded 0
        w.tables.segments w.tables.segment_ids) [
          | none ↦ finish stats w
          | some [] ↦ finish stats w
          | some (i ∷ is) ↦
              (merge_group dec store disk (i ∷ is)
                  >>= (λ n. checkpoint dec store disk >> finish (count_merge n stats)))
                w
        ]

  unfoldable pub reclaim_tombstones : F → Exec (Writer D F Key Item Segment) CompactionStats
  unfolding reclaim_targets
  reclaim_tombstones ratio = seal dec store disk >> reclaim_targets ratio
