-- ===== src/Manifest.antt =====
-- The checkpoint manifest of src/lib.rs: its two layouts, and `copy_is_live`.
use segstore.Base.{
  ℕ, ◌≡◌, Bool, false, not, ◌&&◌, ◌||◌, List, [], ◌∷◌, none, some, Option-cases, inl, inr,
  if◌then◌else◌, arith, ℕ_discrete,
}
use segstore.Base.Assoc.{
  contains, get, insert, remove, set_insert, eqb, get-insert, get-remove, contains-set_insert,
}

pub record Manifest (Key : Type 0) : Type 0 where
  pub next_seg_id : ℕ
  pub segment_ids : List ℕ
  pub tombstones : List Key

abbrev pub manifest_ext_version : ℕ
manifest_ext_version = 1

pub record ManifestExt (Key : Type 0) : Type 0 where
  pub version : ℕ
  pub superseded : List (ℕ × List Key)

-- Also `ManifestRef` with `ManifestExtRef`, the same bytes on the writing side.
pub record ManifestV2 (Key : Type 0) : Type 0 where
  pub next_seg_id : ℕ
  pub segment_ids : List ℕ
  pub tombstones : List Key
  pub ext : ManifestExt Key

pub record LoadedManifest (Key : Type 0) : Type 0 where
  pub has_ownership_metadata : Bool
  pub epoch : ℕ
  pub next_seg_id : ℕ
  pub segment_ids : List ℕ
  pub tombstones : List Key
  pub superseded : List (ℕ × List Key)

module _ {Key : Type 0} (dec : Discrete Key) where
  -- `matches!(superseded.get(&seg), Some(ids) if ids.contains(id))`
  unfoldable pub superseded_in : List (ℕ × List Key) → ℕ → Key → Bool
  superseded_in superseded seg id = elim (get ℕ_discrete superseded seg) [
    | none ↦ false
    | some ids ↦ contains dec ids id
  ]

  unfoldable pub copy_is_live : List Key → List (ℕ × List Key) → ℕ → Key → Bool
  copy_is_live tombstones superseded seg id =
      not (contains dec tombstones id) && not (superseded_in superseded seg id)

  -- `superseded.entry(seg).or_default().insert(id)`
  unfoldable pub add_superseded : ℕ → Key → List (ℕ × List Key) → List (ℕ × List Key)
  add_superseded seg id superseded = elim (get ℕ_discrete superseded seg) [
    | none ↦ insert ℕ_discrete seg (id ∷ []) superseded
    | some ids ↦ insert ℕ_discrete seg (set_insert dec id ids) superseded
  ]

  pub superseded_in-add_superseded :
      (seg s : ℕ) (id j : Key) (superseded : List (ℕ × List Key))
      → superseded_in (add_superseded seg id superseded) s j
        ≡ ((eqb ℕ_discrete seg s && eqb dec id j) || superseded_in superseded s j)
  unfolding superseded_in add_superseded contains
  superseded_in-add_superseded seg s id j superseded =
      elim (Option-cases (get ℕ_discrete superseded seg)) [
        | inl e ↦
            rw (e, add_superseded, superseded_in)
              (ground (arith, e, get-insert ℕ_discrete seg s (id ∷ []) superseded))
        | inr (ids, e) ↦
            rw (e, add_superseded, superseded_in)
              (ground (
                arith,
                e,
                get-insert ℕ_discrete seg s (set_insert dec id ids) superseded,
                contains-set_insert dec id j ids,
              ))
      ]

  pub superseded_in-remove :
      (seg s : ℕ) (j : Key) (superseded : List (ℕ × List Key))
      → superseded_in (remove ℕ_discrete seg superseded) s j
        ≡ (if eqb ℕ_discrete seg s then false else superseded_in superseded s j)
  unfolding superseded_in
  superseded_in-remove seg s j superseded = ground (arith, get-remove ℕ_discrete seg s superseded)
