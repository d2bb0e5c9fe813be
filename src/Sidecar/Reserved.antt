-- ===== src/Sidecar/Reserved.antt =====
-- The names that the hosts of src/sidecar.rs give, against the reserved names of src/lib.rs.
use mathlib.Core.Path.{sym, ap, ◌∙◌}
use mathlib.Core.Option.{some-injective}
use segstore.Base.{ℕ, ◌≡◌, ◌≢◌, ◌<◌, ◌^◌, Bool, true, false}
use segstore.Base.Result.{Result, ok, Error, guard, ◌>>=◌}
use segstore.Names.{Name, tmp_path, index_sidecar_name, idx_seg_id}
use segstore.Names.Temporary.{reserved_apart}
use segstore.Names.RoundTrip.{idx_seg_id-index_sidecar_name}
use segstore.Directory.{Directory}
use segstore.Catalog.{SegmentCatalog, View, catalog_index_name, view_index_name, ensure_segment_id}
use segstore.Sidecar.{SidecarHost, writer_host, catalog_host, view_host}

-- A name that the host gives is the reserved one.
abbrev pub NamesReserved : {D File FilePath : Type 0} → SidecarHost D File FilePath → Type 0
NamesReserved host =
    (segment_id : ℕ) (kind name : Name)
    → host.try_sidecar_name segment_id kind ≡ ok name
    → index_sidecar_name segment_id kind ≡ ok name

-- Not the temporary file of a name that the host gives.
abbrev pub NotTemporary : {D File FilePath : Type 0} → SidecarHost D File FilePath → Name → Type 0
NotTemporary host other =
    (segment_id : ℕ) (kind name : Name)
    → host.try_sidecar_name segment_id kind ≡ ok name
    → tmp_path name ≢ other

guard-ok :
    {A : Type 0} (b : Bool) (e : Error) (r : Result A) (a : A)
    → (guard b e >>= λ _. r) ≡ ok a
    → r ≡ ok a
guard-ok true e r a h = h
guard-ok false e r a h = absurd (cc)

module _ {D File FilePath : Type 0} (dir : Directory D File FilePath) where
  pub writer_host-NamesReserved : NamesReserved (writer_host dir)
  writer_host-NamesReserved segment_id kind name e = e

  pub catalog_host-NamesReserved :
      {C Key : Type 0} (dec : Discrete Key) (c : SegmentCatalog C Key)
      → NamesReserved (catalog_host dir dec c)
  unfolding catalog_index_name ensure_segment_id
  catalog_host-NamesReserved dec c segment_id kind name e = guard-ok _ _ _ name e

  pub view_host-NamesReserved :
      {C Key Segment : Type 0} (dec : Discrete Key) (v : View C Key Segment)
      → NamesReserved (view_host dir dec v)
  unfolding view_index_name
  view_host-NamesReserved dec v segment_id kind name e = guard-ok _ _ _ name e

module _ {D File FilePath : Type 0} (host : SidecarHost D File FilePath)
    (reserved : NamesReserved host) where
  pub names_differ :
      (s t : ℕ) (kind m n : Name)
      → s < 2 ^ 64
      → t < 2 ^ 64
      → s ≢ t
      → host.try_sidecar_name s kind ≡ ok m
      → host.try_sidecar_name t kind ≡ ok n
      → m ≢ n
  names_differ s t kind m n hs ht differ named_m named_n same = differ (
      some-injective s t (
        sym (idx_seg_id-index_sidecar_name s kind m hs (reserved s kind m named_m))
        ∙ ap idx_seg_id same
        ∙ idx_seg_id-index_sidecar_name t kind n ht (reserved t kind n named_n)))

  -- No name that the host gives is that of another's temporary file.
  pub given-NotTemporary :
      (segment_id : ℕ) (kind other : Name)
      → host.try_sidecar_name segment_id kind ≡ ok other
      → NotTemporary host other
  given-NotTemporary t l n named s k m given =
      reserved_apart s t k l m n (reserved s k m given) (reserved t l n named)
