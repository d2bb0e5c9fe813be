-- ===== src/Sidecar/Files.antt =====
-- The files of `SidecarCache` (src/sidecar.rs): what `persist` writes is what `load` reads.
use mathlib.Core.Path.{sym, ap, ◌∙◌}
use segstore.Base.{
  ℕ, ◌≡◌, ◌<◌, ◌^◌, true, List, Option, none, some, if◌then◌else◌, length, refl, inl, inr,
}
use segstore.Base.Result.{ok-injective, ok, ◌>>=◌, Result-cases}
use segstore.Base.Exec.{continue, return, ◌>>◌, continue-ok}
use segstore.Names.{Name}
use segstore.Envelope.RoundTrip.{decode-encode}
use segstore.Directory.{DirectoryLaws, contents}
use segstore.Sidecar.{SidecarKey, SidecarCodec, SidecarHost, read_sidecar, write_sidecar}
use segstore.Base.Assoc.{get}
use segstore.Sidecar.Lookup.{get_or_build-miss}
use segstore.Sidecar.Cache.{
  or_insert, SidecarCache, new_cache, cached, encode_envelope, validate, load, get_or_build,
  persist, persist_found,
}

-- The tags of a codec fit the fields of the envelope: a magic of type `[u8; 8]`, a version of type
-- `u32`, and a recipe whose length has 32 bits.
pub record TagsFit {Key Index : Type 0} (codec : SidecarCodec Key Index) : Type 0 where
  pub magic_len : length codec.magic ≡ 8
  pub version_fits : codec.version < 2 ^ 32
  pub recipe_fits : length codec.recipe < 2 ^ 32

module _ {D File FilePath : Type 0} (host : SidecarHost D File FilePath) where
  pub read_sidecar-contents :
      (d : D) (name : Name)
      → read_sidecar host d name ≡ (
          if host.sidecar_dir.exists d name
          then (contents host.sidecar_dir d name >>= λ bytes. ok (some bytes))
          else ok none)
  unfolding read_sidecar
  read_sidecar-contents d name = elim (Result-cases (host.sidecar_dir.open_file d name)) [
    | inl (file, e) ↦ rw (contents, e) refl
    | inr (failure, e) ↦ rw (contents, e) refl
  ]

  -- A file that is as it was reads as it did.
  pub read_sidecar_same :
      (d e : D) (name : Name)
      → host.sidecar_dir.exists e name ≡ host.sidecar_dir.exists d name
      → contents host.sidecar_dir e name ≡ contents host.sidecar_dir d name
      → read_sidecar host e name ≡ read_sidecar host d name
  read_sidecar_same d e name there holds =
      read_sidecar-contents e name ∙ rw (there, holds) refl ∙ sym (read_sidecar-contents d name)

module _ {Key Index : Type 0} (crc : List ℕ → ℕ) (small : (bytes : List ℕ) → crc bytes < 2 ^ 32)
    (codec : SidecarCodec Key Index) (tags : TagsFit codec) where
  pub validate-encode_envelope :
      (key : SidecarKey Key) (index : Index) (payload bytes : List ℕ)
      → key.segment_id < 2 ^ 64
      → codec.encode index ≡ some payload
      → codec.decode payload ≡ some index
      → codec.accepts index key.live_ids ≡ true
      → encode_envelope crc codec key index ≡ ok bytes
      → validate crc codec key bytes ≡ some index
  unfolding encode_envelope validate
  validate-encode_envelope key index payload bytes fits encodes decodes good e =
      let (framed, encoded, decoded) =
        decode-encode crc small codec.magic codec.version key.segment_id codec.recipe payload
          tags.magic_len tags.version_fits fits tags.recipe_fits in
      let same : framed ≡ bytes =
        ok-injective (sym encoded ∙ rw (encode_envelope, encodes) refl ∙ e) in
      rw (sym same, decoded, decodes, good) refl

module _ {Key Index D File FilePath : Type 0} (dec : Discrete Key) (crc : List ℕ → ℕ)
    (host : SidecarHost D File FilePath) where
  -- A `persist` that wrote, step by step.
  persist-wrote :
      (key : SidecarKey Key) (index : Index) (cache : SidecarCache Key Index) (d : D)
      → cached dec cache key ≡ some index
      → (persist dec crc host key cache d).0 ≡ ok true
      → (bytes : List ℕ) × (name : Name) × (encode_envelope crc cache.codec key index ≡ ok bytes)
        × (host.try_sidecar_name key.segment_id cache.codec.kind ≡ ok name)
        × ((write_sidecar host name bytes d).0 ≡ ok tt)
        × ((persist dec crc host key cache d).1 ≡ (write_sidecar host name bytes d).1)
  unfolding persist persist_found
  persist-wrote key index cache d found done =
      let codec = cache.codec in
      let opened : persist dec crc host key cache d ≡ persist_found dec crc host key codec index d =
        rw (persist, found) refl in
      let (bytes, framed, e1) =
        continue-ok (encode_envelope crc codec key index)
          (λ bytes.
            continue (host.try_sidecar_name key.segment_id codec.kind)
              (λ name. write_sidecar host name bytes >> return true))
          d true (sym (ap (λ r. r.0) opened) ∙ done) in
      let (name, named, e2) =
        continue-ok (host.try_sidecar_name key.segment_id codec.kind)
          (λ name. write_sidecar host name bytes >> return true) d true
          (sym (ap (λ r. r.0) (opened ∙ e1)) ∙ done) in
      let r = write_sidecar host name bytes d in
      let (unit, wrote, e3) =
        continue-ok r.0 (λ _. return true) r.1 true
          (sym (ap (λ r. r.0) (opened ∙ e1 ∙ e2)) ∙ done) in
      (bytes, name, framed, named, wrote, ap (λ r. r.1) (opened ∙ e1 ∙ e2 ∙ e3))

  -- What `load` makes of a file with these contents.
  load-contents :
      (codec : SidecarCodec Key Index) (d : D) (key : SidecarKey Key) (name : Name) (bytes : List ℕ)
      → host.try_sidecar_name key.segment_id codec.kind ≡ ok name
      → host.sidecar_dir.exists d name ≡ true
      → contents host.sidecar_dir d name ≡ ok bytes
      → load dec crc host codec d key ≡ validate crc codec key bytes
  unfolding load
  load-contents codec d key name bytes named there holds =
      let whole : read_sidecar host d name ≡ ok (some bytes) =
        rw (read_sidecar-contents host d name, there, holds) refl in
      rw (named, whole) refl

  module _ (small : (bytes : List ℕ) → crc bytes < 2 ^ 32)
      (files : DirectoryLaws host.sidecar_dir) where
    -- A file written for an accepted index is what `load` returns.
    load-persist :
        (d : D) (key : SidecarKey Key) (index : Index) (cache : SidecarCache Key Index)
        (payload : List ℕ)
        → TagsFit cache.codec
        → key.segment_id < 2 ^ 64
        → cache.codec.encode index ≡ some payload
        → cache.codec.decode payload ≡ some index
        → cache.codec.accepts index key.live_ids ≡ true
        → cached dec cache key ≡ some index
        → (persist dec crc host key cache d).0 ≡ ok true
        → load dec crc host cache.codec (persist dec crc host key cache d).1 key ≡ some index
    load-persist d key index cache payload tags fits encodes decodes good found done =
        let (bytes, name, framed, named, wrote, after) =
          persist-wrote key index cache d found done in
        ap (λ e. load dec crc host cache.codec e key) after
        ∙ load-contents cache.codec (write_sidecar host name bytes d).1 key name bytes named
            (files.exists-atomic_write name bytes d wrote)
            (files.contents-atomic_write name bytes d wrote)
        ∙ validate-encode_envelope crc small cache.codec tags key index payload bytes fits encodes
            decodes good framed

    persist-writes :
        (d : D) (key : SidecarKey Key) (index : Index) (cache : SidecarCache Key Index)
        (payload : List ℕ) (name : Name)
        → TagsFit cache.codec
        → key.segment_id < 2 ^ 64
        → cached dec cache key ≡ some index
        → cache.codec.encode index ≡ some payload
        → host.try_sidecar_name key.segment_id cache.codec.kind ≡ ok name
        → ((bytes : List ℕ) → (write_sidecar host name bytes d).0 ≡ ok tt)
        → (persist dec crc host key cache d).0 ≡ ok true
    unfolding persist persist_found encode_envelope
    persist-writes d key index cache payload name tags fits found encodes named takes =
        let codec = cache.codec in
        let (framed, encoded, _) =
          decode-encode crc small codec.magic codec.version key.segment_id codec.recipe payload
            tags.magic_len tags.version_fits fits tags.recipe_fits in
        let framing : encode_envelope crc codec key index ≡ ok framed =
          rw (encode_envelope, encodes) encoded in
        rw (persist, found, persist_found, framing, named, takes framed) refl

    -- Over a directory that keeps the stated laws and takes the write, `persist` of a cached index,
    -- which the codec encodes to bytes that it decodes back to that index, and accepts for the live
    -- ids of its key, returns true, and a new cache then loads that index for the key, whatever the
    -- closure would build; for a codec whose tags fit the envelope (eight bytes of magic, a version
    -- and a recipe length below 2^32), a segment id below 2^64, a name that the host gives and a
    -- checksum below 2^32.
    pub persist-Reloads :
        (d : D) (key : SidecarKey Key) (index : Index) (cache : SidecarCache Key Index)
        (payload : List ℕ) (name : Name) (build : Option Index)
        → TagsFit cache.codec
        → key.segment_id < 2 ^ 64
        → cached dec cache key ≡ some index
        → cache.codec.accepts index key.live_ids ≡ true
        → cache.codec.encode index ≡ some payload
        → cache.codec.decode payload ≡ some index
        → host.try_sidecar_name key.segment_id cache.codec.kind ≡ ok name
        → ((bytes : List ℕ) → (write_sidecar host name bytes d).0 ≡ ok tt)
        → ((persist dec crc host key cache d).0 ≡ ok true)
          × ((get_or_build dec crc host
                (persist dec crc host key cache d).1
                key
                build
                (new_cache cache.codec)).0
              ≡ some index)
    unfolding get
    persist-Reloads d key index cache payload name build tags fits found good encodes decodes named
          takes =
        let done =
          persist-writes d key index cache payload name tags fits found encodes named takes in
        let e = (persist dec crc host key cache d).1 in
        let loaded =
          load-persist d key index cache payload tags fits encodes decodes good found done in
        (
          done,
          ap (λ r. r.0) (get_or_build-miss dec crc host e key build (new_cache cache.codec) refl)
              ∙ ap
                  (λ o.
                    (or_insert dec (new_cache cache.codec) key o (
                      or_insert dec (new_cache cache.codec) key build
                        (none, new_cache cache.codec))).0)
                  loaded,
        )
