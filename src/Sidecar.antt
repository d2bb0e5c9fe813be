-- ===== src/Sidecar.antt =====
-- src/sidecar.rs: `SidecarKey`, `SidecarCodec`, `SidecarHost`, `SidecarCache`. The cache is in
-- Sidecar/Cache.
pub mod Cache
pub mod Lookup
pub mod Coherence
pub mod Serving
pub mod Files
pub mod Invalidating
pub mod Reserved
pub mod Missing
pub mod Elsewhere
use segstore.Base.{
  ℕ, Bool, true, false, not, List, [], ◌∷◌, Option, none, some, if◌then◌else◌, ◌+◌, ◌==◌, keep,
  length, is_empty, ℕ_discrete,
}
use segstore.Base.Assoc.{get, insert, contains, contains_key, retain}
unfoldable use segstore.Base.Assoc.{remove}
use segstore.Base.Result.{
  or_panic, Result, ok, err, Error, invalid_config, not_found, unknown_segment, codec_cannot_encode,
  ◌>>=◌, ◌>>◌, to_option,
}
use segstore.Base.Exec.{Exec, continue, return}
use segstore.Names.{Name, index_sidecar_name}
use segstore.Directory.{Directory}
use segstore.LiveIds.{LiveIds}
use segstore.Catalog.{SegmentCatalog, View, catalog_index_name, view_index_name}
use segstore.Envelope.{encode, decode}

pub record SidecarKey (Key : Type 0) : Type 0 where
  pub segment_id : ℕ
  pub live_ids : LiveIds Key

abbrev pub SidecarKey-discrete : {Key : Type 0} → Discrete Key → Discrete (SidecarKey Key)
SidecarKey-discrete dec = hlevel (dec, ℕ_discrete)

-- The consumer's format and acceptance rule.
pub record SidecarCodec (Key Index : Type 0) : Type 0 where
  pub magic : List ℕ
  pub version : ℕ
  pub kind : Name
  pub recipe : List ℕ
  pub encode : Index → Option (List ℕ)
  pub decode : List ℕ → Option Index
  pub accepts : Index → LiveIds Key → Bool

-- The required methods of the trait; `sidecar_dir` gives the directory.
pub record SidecarHost (D File FilePath : Type 0) : Type 0 where
  pub sidecar_dir : Directory D File FilePath
  pub try_sidecar_name : ℕ → Name → Result Name

module _ {D File FilePath : Type 0} (host : SidecarHost D File FilePath) where
  abbrev pub sidecar_name : ℕ → Name → Result Name
  sidecar_name segment_id kind = or_panic (host.try_sidecar_name segment_id kind)

  unfoldable pub sidecar_file_path : ℕ → Name → Result (Option FilePath)
  sidecar_file_path segment_id kind =
      host.try_sidecar_name segment_id kind >>= λ name. ok (host.sidecar_dir.file_path name)

  abbrev pub sidecar_exists : D → Name → Bool
  sidecar_exists d name = host.sidecar_dir.exists d name

  unfoldable pub read_sidecar : D → Name → Result (Option (List ℕ))
  read_sidecar d name =
      if host.sidecar_dir.exists d name
      then (host.sidecar_dir.open_file d name >>= λ file.
          host.sidecar_dir.read_to_end file >>= λ bytes. ok (some bytes))
      else ok none

  abbrev pub write_sidecar : Name → List ℕ → Exec D (Unit {0})
  write_sidecar name bytes = host.sidecar_dir.atomic_write name bytes

  unfoldable pub delete_sidecar : Name → Exec D (Unit {0})
  delete_sidecar name d =
      if host.sidecar_dir.exists d name then host.sidecar_dir.delete name d else (ok tt, d)

-- The implementations: the writer, the catalog and a view.
module _ {D File FilePath : Type 0} (dir : Directory D File FilePath) where
  abbrev pub writer_host : SidecarHost D File FilePath
  writer_host = record { sidecar_dir = dir; try_sidecar_name = index_sidecar_name }

  abbrev pub catalog_host :
      {C Key : Type 0} → Discrete Key → SegmentCatalog C Key → SidecarHost D File FilePath
  catalog_host dec c = record { sidecar_dir = dir; try_sidecar_name = catalog_index_name dec c }

  abbrev pub view_host :
      {C Key Segment : Type 0} → Discrete Key → View C Key Segment → SidecarHost D File FilePath
  view_host dec v = record { sidecar_dir = dir; try_sidecar_name = view_index_name dec v }
