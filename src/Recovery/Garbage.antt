-- ===== src/Recovery/Garbage.antt =====
-- The files that the two garbage collections of src/lib.rs take.
use mathlib.Core.Path.{subst}
use segstore.Base.{
  ℕ, ◌^◌, ◌<◌, ◌≡◌, inl, inr, false, not, List, [], ◌∷◌, ◌++◌, none, some, arith, refl, ◌∙◌,
  ℕ_discrete, ◌==◌, if_neg,
}
use segstore.Base.Assoc.{contains}
use segstore.Base.Result.{ok}
use segstore.Names.{
  Name, bytes, Name-discrete, manifest_path, lock_path, wal_path, seg_path, strip_prefix, strip_tmp,
  idx_seg_id, index_sidecar_name, decimal, wal_prefix, seg_prefix, idx_prefix, parse-decimal,
  AllDigits, AllDigits-decimal,
}
use segstore.Names.RoundTrip.{
  strip_prefix-append, idx_seg_id-index_sidecar_name, index_sidecar_name_cases,
}
use segstore.Writer.{is_orphan, id_after}
use segstore.Recovery.{is_leftover}

strip_tmp-digits : (cs : Name) → AllDigits cs → strip_tmp cs ≡ none
unfolding strip_tmp
strip_tmp-digits [] a = refl
strip_tmp-digits (c ∷ cs) a = elim (Name-discrete (c ∷ cs) (bytes ".tmp")) [
  | yes p ↦ absurd (ground (arith, p, a.0))
  | no n ↦ if_neg (Name-discrete (c ∷ cs) (bytes ".tmp")) n _ _ ∙ rw (strip_tmp-digits cs a.2) refl
]

leftover-manifest :
    (epoch : ℕ) (kept : List ℕ)
    → (is_leftover epoch kept manifest_path ≡ false) × (is_leftover epoch kept lock_path ≡ false)
unfolding is_leftover strip_prefix idx_seg_id ℕ_discrete
leftover-manifest epoch kept = (refl, refl)

orphan-manifest :
    (kept : List ℕ) → (is_orphan kept manifest_path ≡ false) × (is_orphan kept lock_path ≡ false)
unfolding is_orphan strip_prefix idx_seg_id ℕ_discrete
orphan-manifest kept = (refl, refl)

id_after-path :
    (prefix : Name) (k : ℕ) → k < 2 ^ 64 → id_after prefix (prefix ++ decimal k) ≡ some k
id_after-path prefix k h = ground (arith, strip_prefix-append prefix (decimal k), parse-decimal k h)

leftover-wal :
    (epoch k : ℕ) (kept : List ℕ)
    → k < 2 ^ 64
    → is_leftover epoch kept (wal_path k) ≡ not (k == epoch)
unfolding is_leftover wal_path
leftover-wal epoch k kept h = ground (arith, id_after-path wal_prefix k h)

wal_prefix-seg_path : (k : ℕ) → strip_prefix wal_prefix (seg_path k) ≡ none
unfolding strip_prefix seg_path ℕ_discrete
wal_prefix-seg_path k = refl

leftover-seg :
    (epoch k : ℕ) (kept : List ℕ)
    → k < 2 ^ 64
    → is_leftover epoch kept (seg_path k) ≡ not (contains ℕ_discrete kept k)
unfolding is_leftover seg_path
leftover-seg epoch k kept h = ground (
  arith,
  wal_prefix-seg_path k,
  strip_prefix-append seg_prefix (decimal k),
  strip_tmp-digits (decimal k) (AllDigits-decimal k),
  parse-decimal k h,
)

orphan-seg :
    (k : ℕ) (kept : List ℕ)
    → k < 2 ^ 64
    → is_orphan kept (seg_path k) ≡ not (contains ℕ_discrete kept k)
unfolding is_orphan seg_path
orphan-seg k kept h = ground (arith, id_after-path seg_prefix k h)

prefixes :
    (id : ℕ) (rest : Name)
    → (strip_prefix wal_prefix (idx_prefix ++ rest) ≡ none)
      × (strip_prefix seg_prefix (idx_prefix ++ rest) ≡ none)
unfolding strip_prefix ℕ_discrete
prefixes id rest = (refl, refl)

sidecar :
    (epoch id : ℕ) (kept : List ℕ) (kind name : Name)
    → id < 2 ^ 64
    → index_sidecar_name id kind ≡ ok name
    → (is_leftover epoch kept name ≡ not (contains ℕ_discrete kept id))
      × (is_orphan kept name ≡ not (contains ℕ_discrete kept id))
unfolding is_leftover is_orphan
sidecar epoch id kept kind name h e = elim (index_sidecar_name_cases id kind) [
  | inl (ne, good, named) ↦
      let same : idx_prefix ++ (decimal id ++ (b'.' ∷ kind)) ≡ name = cc in
      let both = prefixes id (decimal id ++ (b'.' ∷ kind)) in
      let p = subst (λ n. strip_prefix wal_prefix n ≡ none) same both.0 in
      let q = subst (λ n. strip_prefix seg_prefix n ≡ none) same both.1 in
      let i = idx_seg_id-index_sidecar_name id kind name h e in
      (ground (arith, p, q, i), ground (arith, q, i))
  | inr (inl (_, refused)) ↦ absurd (cc)
  | inr (inr (_, _, refused)) ↦ absurd (cc)
]

-- For an id below 2^64, the collection at open takes neither the manifest nor the lock, takes the
-- log of an epoch exactly when it is another epoch's, and takes the segment file and every nameable
-- sidecar of a segment exactly when the segment is not kept.
pub is_leftover-exact :
    (epoch id : ℕ) (kept : List ℕ) (kind name : Name)
    → id < 2 ^ 64
    → index_sidecar_name id kind ≡ ok name
    → (is_leftover epoch kept manifest_path ≡ false)
      × (is_leftover epoch kept lock_path ≡ false)
      × (is_leftover epoch kept (wal_path id) ≡ not (id == epoch))
      × (is_leftover epoch kept (seg_path id) ≡ not (contains ℕ_discrete kept id))
      × (is_leftover epoch kept name ≡ not (contains ℕ_discrete kept id))
is_leftover-exact epoch id kept kind name h e = (
  (leftover-manifest epoch kept).0,
  (leftover-manifest epoch kept).1,
  leftover-wal epoch id kept h,
  leftover-seg epoch id kept h,
  (sidecar epoch id kept kind name h e).0,
)

-- For an id below 2^64, the collection after a checkpoint takes neither the manifest nor the lock,
-- and takes the segment file and every nameable sidecar of a segment exactly when the segment is
-- not kept.
pub is_orphan-exact :
    (id : ℕ) (kept : List ℕ) (kind name : Name)
    → id < 2 ^ 64
    → index_sidecar_name id kind ≡ ok name
    → (is_orphan kept manifest_path ≡ false)
      × (is_orphan kept lock_path ≡ false)
      × (is_orphan kept (seg_path id) ≡ not (contains ℕ_discrete kept id))
      × (is_orphan kept name ≡ not (contains ℕ_discrete kept id))
is_orphan-exact id kept kind name h e = (
  (orphan-manifest kept).0,
  (orphan-manifest kept).1,
  orphan-seg id kept h,
  (sidecar 0 id kept kind name h e).1,
)
