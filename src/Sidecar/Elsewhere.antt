-- ===== src/Sidecar/Elsewhere.antt =====
-- `persist` and `invalidate` of src/sidecar.rs on the files of other segments, for hosts that name
-- files as src/lib.rs does.
use mathlib.Core.Path.{ap, ◌∙◌}
use segstore.Base.{ℕ, ◌≡◌, ◌≢◌, ◌<◌, ◌^◌, true, List, some, arith, refl, inl, inr, Option-cases}
use segstore.Base.Result.{ok, Result-cases}
use segstore.Base.Exec.{return, ◌>>◌}
use segstore.Sidecar.Missing.{then_return}
use segstore.Names.{Name, tmp_path}
use segstore.Directory.{DirectoryLaws}
use segstore.Sidecar.{SidecarKey, SidecarCodec, SidecarHost, read_sidecar, write_sidecar}
use segstore.Sidecar.Reserved.{NamesReserved, names_differ, given-NotTemporary}
use segstore.Sidecar.Files.{read_sidecar_same}
use segstore.Sidecar.Invalidating.{delete_sidecar_elsewhere, cached-invalidate}
use segstore.Sidecar.Cache.{
  SidecarCache, cached, encode_envelope, load, invalidate, persist, persist_found,
}

module _ {D File FilePath : Type 0} (host : SidecarHost D File FilePath)
    (files : DirectoryLaws host.sidecar_dir) where
  write_elsewhere :
      (name other : Name) (bytes : List ℕ) (d : D)
      → name ≢ other
      → tmp_path name ≢ other
      → read_sidecar host ((write_sidecar host name bytes >> return true) d).1 other
        ≡ read_sidecar host d other
  write_elsewhere name other bytes d differ apart =
      let kept = files.atomic_write_elsewhere name other bytes d differ apart in
      ap (λ e. read_sidecar host e other) (then_return (write_sidecar host name bytes) true d)
      ∙ read_sidecar_same host d (write_sidecar host name bytes d).1 other kept.0 kept.1

module _ {Key Index D File FilePath : Type 0} (dec : Discrete Key) (crc : List ℕ → ℕ)
    (host : SidecarHost D File FilePath) where
  -- `load` reads only the file under its name.
  load_same :
      (codec : SidecarCodec Key Index) (d e : D) (key : SidecarKey Key)
      → ((name : Name)
          → host.try_sidecar_name key.segment_id codec.kind ≡ ok name
          → read_sidecar host e name ≡ read_sidecar host d name)
      → load dec crc host codec e key ≡ load dec crc host codec d key
  unfolding load
  load_same codec d e key same =
      elim (Result-cases (host.try_sidecar_name key.segment_id codec.kind)) [
        | inl (name, named) ↦ rw (named, same name named) refl
        | inr (failure, refused) ↦ rw refused refl
      ]

  module _ (files : DirectoryLaws host.sidecar_dir) (reserved : NamesReserved host) where
    -- Over a directory that keeps the stated laws, `invalidate` leaves the cached and the persisted
    -- index of every key of another segment as they are, whether it returns or fails, where the
    -- host gives reserved names and both segment ids are below 2^64.
    pub invalidate_elsewhere :
        (segment_id : ℕ) (cache : SidecarCache Key Index) (d : D) (key : SidecarKey Key)
        → segment_id < 2 ^ 64
        → key.segment_id < 2 ^ 64
        → segment_id ≢ key.segment_id
        → (cached dec (invalidate dec crc host segment_id cache d).1 key ≡ cached dec cache key)
          × (load dec crc host cache.codec (invalidate dec crc host segment_id cache d).2 key
              ≡ load dec crc host cache.codec d key)
    unfolding invalidate
    invalidate_elsewhere segment_id cache d key hs hk differ = (
      cached-invalidate dec crc host segment_id cache d key ∙ ground (arith, differ),
      load_same cache.codec d _ key (λ name named.
          elim (Result-cases (host.try_sidecar_name segment_id cache.codec.kind)) [
            | inl (gone, named_gone) ↦ rw named_gone (
                delete_sidecar_elsewhere host files gone name d (
                  names_differ host reserved segment_id key.segment_id cache.codec.kind gone name hs
                    hk differ named_gone named))
            | inr (failure, refused) ↦ rw refused refl
          ]),
    )

    persist-cached :
        (key : SidecarKey Key) (cache : SidecarCache Key Index) (d : D) (index : Index)
        → cached dec cache key ≡ some index
        → persist dec crc host key cache d ≡ persist_found dec crc host key cache.codec index d
    unfolding persist
    persist-cached key cache d index found = rw (persist, found) refl

    persist_found_elsewhere :
        (key k : SidecarKey Key) (codec : SidecarCodec Key Index) (index : Index) (d : D)
        (name : Name)
        → key.segment_id < 2 ^ 64
        → k.segment_id < 2 ^ 64
        → key.segment_id ≢ k.segment_id
        → host.try_sidecar_name k.segment_id codec.kind ≡ ok name
        → read_sidecar host (persist_found dec crc host key codec index d).1 name
          ≡ read_sidecar host d name
    unfolding persist_found
    persist_found_elsewhere key k codec index d name hs hk differ named =
        elim (Result-cases (encode_envelope crc codec key index)) [
          | inl (bytes, framed) ↦
              rw framed (elim (Result-cases (host.try_sidecar_name key.segment_id codec.kind)) [
                | inl (mine, named_mine) ↦ rw named_mine (
                    write_elsewhere host files mine name bytes d
                      (names_differ host reserved key.segment_id k.segment_id codec.kind mine name
                        hs hk differ named_mine named)
                      (given-NotTemporary host reserved k.segment_id codec.kind name named
                        key.segment_id codec.kind mine named_mine))
                | inr (failure, refused) ↦ rw refused refl
              ])
          | inr (failure, refused) ↦ rw refused refl
        ]

    -- Over a directory that keeps the stated laws, `persist` leaves the persisted index of every
    -- key of another segment as it is, whether it returns or fails, where the host gives reserved
    -- names and both segment ids are below 2^64.
    pub persist_elsewhere :
        (key k : SidecarKey Key) (cache : SidecarCache Key Index) (d : D)
        → key.segment_id < 2 ^ 64
        → k.segment_id < 2 ^ 64
        → key.segment_id ≢ k.segment_id
        → load dec crc host cache.codec (persist dec crc host key cache d).1 k
          ≡ load dec crc host cache.codec d k
    unfolding persist persist_found
    persist_elsewhere key k cache d hs hk differ = load_same cache.codec d _ k (λ name named.
        elim (Option-cases (cached dec cache key)) [
          | inl missing ↦ rw (persist, missing) refl
          | inr (index, found) ↦
              ap (λ r. read_sidecar host r.1 name) (persist-cached key cache d index found)
              ∙ persist_found_elsewhere key k cache.codec index d name hs hk differ named
        ])
