-- ===== src/Sidecar/Invalidating.antt =====
-- `SidecarCache::invalidate` of src/sidecar.rs, in memory and in the directory.
use mathlib.Core.Path.{subst, sym, ap, ◌∙◌}
use segstore.Base.{
  ℕ, ◌≡◌, ◌≢◌, ◌==◌, false, List, Option, none, some, if◌then◌else◌, arith, refl, inl, inr,
  Bool-cases,
}
use segstore.Base.Assoc.{get-retain}
use segstore.Base.Result.{ok}
use segstore.Base.Exec.{continue-ok}
use segstore.Names.{Name}
use segstore.Directory.{DirectoryLaws}
use segstore.Sidecar.{
  SidecarKey, SidecarKey-discrete, SidecarCodec, SidecarHost, read_sidecar, delete_sidecar,
}
use segstore.Sidecar.Lookup.{get_or_build-miss}
use segstore.Sidecar.Files.{read_sidecar-contents, read_sidecar_same}
use segstore.Sidecar.Cache.{
  SidecarCache, cached, or_insert, load, get_or_build, invalidate, without_segment, other_segment,
}

module _ {D File FilePath : Type 0} (host : SidecarHost D File FilePath)
    (files : DirectoryLaws host.sidecar_dir) where
  exists-delete_sidecar :
      (name : Name) (d : D)
      → (delete_sidecar host name d).0 ≡ ok tt
      → host.sidecar_dir.exists (delete_sidecar host name d).1 name ≡ false
  unfolding delete_sidecar
  exists-delete_sidecar name d = elim (Bool-cases (host.sidecar_dir.exists d name)) [
    | inl there ↦
        let deleted : delete_sidecar host name d ≡ host.sidecar_dir.delete name d =
          rw (delete_sidecar, there) refl in
        subst (λ r. r.0 ≡ ok tt → host.sidecar_dir.exists r.1 name ≡ false) (sym deleted)
          (files.exists-delete name d)
    | inr absent ↦
        let kept : delete_sidecar host name d ≡ (ok tt, d) = rw (delete_sidecar, absent) refl in
        subst (λ r. r.0 ≡ ok tt → host.sidecar_dir.exists r.1 name ≡ false) (sym kept) (λ _. absent)
  ]

  pub delete_sidecar_elsewhere :
      (name other : Name) (d : D)
      → name ≢ other
      → read_sidecar host (delete_sidecar host name d).1 other ≡ read_sidecar host d other
  unfolding delete_sidecar
  delete_sidecar_elsewhere name other d differ =
      elim (Bool-cases (host.sidecar_dir.exists d name)) [
        | inl there ↦
            let deleted : delete_sidecar host name d ≡ host.sidecar_dir.delete name d =
              rw (delete_sidecar, there) refl in
            ap (λ r. read_sidecar host r.1 other) deleted
            ∙ read_sidecar_same host d (host.sidecar_dir.delete name d).1 other
                (files.delete_elsewhere name other d differ).0
                (files.delete_elsewhere name other d differ).1
        | inr absent ↦
            let kept : delete_sidecar host name d ≡ (ok tt, d) = rw (delete_sidecar, absent) refl in
            ap (λ r. read_sidecar host r.1 other) kept
      ]

module _ {Key Index : Type 0} (dec : Discrete Key) where
  only_built :
      (cache : SidecarCache Key Index) (key : SidecarKey Key) (build : Option Index)
      → (or_insert dec cache key build (none, cache)).0 ≡ build
  only_built cache key none = refl
  only_built cache key (some index) = refl

module _ {Key Index D File FilePath : Type 0} (dec : Discrete Key) (crc : List ℕ → ℕ)
    (host : SidecarHost D File FilePath) where
  -- With no file of the name there is nothing to load.
  pub load-absent :
      (codec : SidecarCodec Key Index) (d : D) (key : SidecarKey Key) (name : Name)
      → host.try_sidecar_name key.segment_id codec.kind ≡ ok name
      → host.sidecar_dir.exists d name ≡ false
      → load dec crc host codec d key ≡ none
  unfolding load
  load-absent codec d key name named absent =
      let nothing : read_sidecar host d name ≡ ok none =
        rw (read_sidecar-contents host d name, absent) refl in
      rw (named, nothing) refl

  pub cached-invalidate :
      (segment_id : ℕ) (cache : SidecarCache Key Index) (d : D) (k : SidecarKey Key)
      → cached dec (invalidate dec crc host segment_id cache d).1 k
        ≡ (if k.segment_id == segment_id then none else cached dec cache k)
  unfolding invalidate
  cached-invalidate segment_id cache d k =
      ground
        (arith, get-retain (SidecarKey-discrete dec) (other_segment segment_id) k cache.entries)

  module _ (files : DirectoryLaws host.sidecar_dir) where
    -- When `invalidate` returns, over a directory that keeps the stated laws, no entry of the
    -- segment is cached and none can be loaded: for a key of the segment `get_or_build` returns
    -- what the closure builds, and nothing else.
    pub invalidate-Forgets :
        (segment_id : ℕ) (cache : SidecarCache Key Index) (d : D) (key : SidecarKey Key)
        (build : Option Index)
        → (invalidate dec crc host segment_id cache d).0 ≡ ok tt
        → key.segment_id ≡ segment_id
        → (cached dec (invalidate dec crc host segment_id cache d).1 key ≡ none)
          × (load dec crc host cache.codec (invalidate dec crc host segment_id cache d).2 key
              ≡ none)
          × ((get_or_build dec crc host
                (invalidate dec crc host segment_id cache d).2
                key
                build
                (invalidate dec crc host segment_id cache d).1).0
              ≡ build)
    unfolding invalidate
    invalidate-Forgets segment_id cache d key build done same =
        let codec = cache.codec in
        let (name, named, e) =
          continue-ok (host.try_sidecar_name segment_id codec.kind) (delete_sidecar host) d tt
            done in
        let after = (delete_sidecar host name d).1 in
        let gone = exists-delete_sidecar host files name d (sym (ap (λ r. r.0) e) ∙ done) in
        let missing : cached dec (without_segment dec segment_id cache) key ≡ none =
          cached-invalidate segment_id cache d key ∙ ground (arith, same) in
        let unloaded =
          load-absent codec after key name
            (ap (λ s. host.try_sidecar_name s codec.kind) same ∙ named) gone in
        let unloaded_after : load dec crc host codec (invalidate dec crc host segment_id cache d).2
              key
            ≡ none =
          ap (λ r. load dec crc host codec r.1 key) e ∙ unloaded in
        (
          missing,
          unloaded_after,
          ap (λ r. r.0)
                (get_or_build-miss dec crc host (invalidate dec crc host segment_id cache d).2 key
                  build (without_segment dec segment_id cache) missing)
              ∙ ap
                  (λ o.
                    (or_insert dec (without_segment dec segment_id cache) key o (
                      or_insert dec (without_segment dec segment_id cache) key build
                        (none, without_segment dec segment_id cache))).0)
                  unloaded_after
              ∙ only_built dec (without_segment dec segment_id cache) key build,
        )
