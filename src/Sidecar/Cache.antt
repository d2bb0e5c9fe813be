-- ===== src/Sidecar/Cache.antt =====
-- `SidecarCache` of src/sidecar.rs, its map an association list. A definition is a call that nothing
-- interrupts: `get_or_build` and `retain` hold the lock on the map throughout, and `invalidate`,
-- `persist` and `persist_missing` drop it before they reach the directory.
use segstore.Base.{
  ℕ, Bool, true, false, not, List, [], ◌∷◌, Option, none, some, if◌then◌else◌, ◌+◌, ◌==◌, keep,
  length, is_empty, ℕ_discrete,
}
use segstore.Base.Assoc.{get, insert, contains, contains_key, retain}
use segstore.Base.Result.{Result, ok, err, invalid_config, codec_cannot_encode, to_option, and_then}
use segstore.Base.Exec.{Exec, continue, return, ◌>>◌}
use segstore.Names.{Name}
use segstore.Envelope.{encode, decode}
use segstore.Sidecar.{
  SidecarKey, SidecarKey-discrete, SidecarCodec, SidecarHost, sidecar_exists, read_sidecar,
  write_sidecar, delete_sidecar,
}

-- `EntryMap`
abbrev pub EntryMap : Type 0 → Type 0 → Type 0
EntryMap Key Index = List (SidecarKey Key × Index)

pub record SidecarCache (Key Index : Type 0) : Type 0 where
  pub codec : SidecarCodec Key Index
  pub entries : EntryMap Key Index

abbrev pub new_cache : {Key Index : Type 0} → SidecarCodec Key Index → SidecarCache Key Index
new_cache c = record { codec = c; entries = [] }

abbrev pub other_segment : {Key : Type 0} → ℕ → SidecarKey Key → Bool
other_segment segment_id key = not (key.segment_id == segment_id)

module _ {Key Index : Type 0} where
  unfoldable pub encode_envelope :
      (List ℕ → ℕ) → SidecarCodec Key Index → SidecarKey Key → Index → Result (List ℕ)
  unfolding encode
  encode_envelope crc codec key index = elim (codec.encode index) [
    | none ↦ err (invalid_config codec_cannot_encode)
    | some payload ↦ encode crc codec.magic codec.version key.segment_id codec.recipe payload
  ]

  abbrev pub accept : SidecarCodec Key Index → SidecarKey Key → Index → Option Index
  accept codec key index = if codec.accepts index key.live_ids then some index else none

  -- `load` on the bytes of the file.
  unfoldable pub validate :
      (List ℕ → ℕ) → SidecarCodec Key Index → SidecarKey Key → List ℕ → Option Index
  unfolding decode
  validate crc codec key bytes =
      and_then (to_option (decode crc codec.magic codec.version key.segment_id codec.recipe bytes))
        (λ payload. and_then (codec.decode payload) (accept codec key))

module _ {Key Index : Type 0} (dec : Discrete Key) where
  abbrev pub cached : SidecarCache Key Index → SidecarKey Key → Option Index
  cached cache key = get (SidecarKey-discrete dec) cache.entries key

  abbrev pub cache_contains : SidecarCache Key Index → SidecarKey Key → Bool
  cache_contains cache key = contains_key (SidecarKey-discrete dec) cache.entries key

  abbrev pub cache_len : SidecarCache Key Index → ℕ
  cache_len cache = length cache.entries

  abbrev pub cache_is_empty : SidecarCache Key Index → Bool
  cache_is_empty cache = is_empty cache.entries

  -- `SidecarCache::insert`
  unfoldable pub insert_entry : SidecarKey Key → Index → EntryMap Key Index → EntryMap Key Index
  unfolding insert
  insert_entry key index entries =
      insert (SidecarKey-discrete dec) key index
        (retain (SidecarKey-discrete dec) (other_segment key.segment_id) entries)

  -- `SidecarCache::retain`
  unfoldable pub retain_segments : List ℕ → SidecarCache Key Index → SidecarCache Key Index
  unfolding contains
  retain_segments segment_ids cache = record cache {
    entries =
        retain (SidecarKey-discrete dec) (λ key. contains ℕ_discrete segment_ids key.segment_id)
          cache.entries;
  }

  abbrev pub with_entry :
      SidecarCache Key Index → SidecarKey Key → Index → Option Index × SidecarCache Key Index
  with_entry cache key index =
      (some index, record cache { entries = insert_entry key index cache.entries })

  -- What is found is cached and returned.
  abbrev pub or_insert :
      SidecarCache Key Index
      → SidecarKey Key
      → Option Index
      → Option Index × SidecarCache Key Index
      → Option Index × SidecarCache Key Index
  or_insert cache key (some index) otherwise = with_entry cache key index
  or_insert cache key none otherwise = otherwise

  abbrev pub without_segment : ℕ → SidecarCache Key Index → SidecarCache Key Index
  without_segment segment_id cache = record cache {
    entries = retain (SidecarKey-discrete dec) (other_segment segment_id) cache.entries;
  }

  module _ {D File FilePath : Type 0} (crc : List ℕ → ℕ) (host : SidecarHost D File FilePath) where
    unfoldable pub load : SidecarCodec Key Index → D → SidecarKey Key → Option Index
    unfolding read_sidecar validate
    load codec d key =
        and_then (to_option (host.try_sidecar_name key.segment_id codec.kind)) (λ name.
          and_then (to_option (read_sidecar host d name))
            (λ found. and_then found (validate crc codec key)))

    -- `build` is what the closure returns if it is called.
    unfoldable pub get_or_build :
        D
        → SidecarKey Key
        → Option Index
        → SidecarCache Key Index
        → Option Index × SidecarCache Key Index
    unfolding load insert_entry
    get_or_build d key build cache = elim (cached cache key) [
      | some hit ↦ (some hit, cache)
      | none ↦
          or_insert cache key (load cache.codec d key) (or_insert cache key build (none, cache))
    ]

    unfoldable pub invalidate :
        ℕ → SidecarCache Key Index → D → Result (Unit {0}) × SidecarCache Key Index × D
    unfolding delete_sidecar
    invalidate segment_id cache d =
        let r =
          continue (host.try_sidecar_name segment_id cache.codec.kind) (delete_sidecar host) d in
        (r.0, without_segment segment_id cache, r.1)

    unfoldable pub persist_found : SidecarKey Key → SidecarCodec Key Index → Index → Exec D Bool
    unfolding encode_envelope
    persist_found key codec index = continue (encode_envelope crc codec key index) (λ bytes.
        continue (host.try_sidecar_name key.segment_id codec.kind)
          (λ name. write_sidecar host name bytes >> return true))

    unfoldable pub persist : SidecarKey Key → SidecarCache Key Index → Exec D Bool
    unfolding persist_found
    persist key cache d = elim (cached cache key) [
      | none ↦ (ok false, d)
      | some index ↦ persist_found key cache.codec index d
    ]

    abbrev pub write_entry :
        SidecarCodec Key Index → SidecarKey Key × Index → Name → Exec D (Unit {0})
    write_entry codec entry name =
        continue (encode_envelope crc codec entry.0 entry.1)
          (λ bytes. write_sidecar host name bytes)

    -- The body of the loop in `persist_missing`: how many files it wrote.
    abbrev pub persist_absent : SidecarCodec Key Index → SidecarKey Key × Index → Name → Exec D ℕ
    persist_absent codec entry name d =
        if sidecar_exists host d name
        then (ok 0, d)
        else (write_entry codec entry name >> return 1) d

    unfoldable pub persist_entry : SidecarCodec Key Index → SidecarKey Key × Index → Exec D ℕ
    unfolding encode_envelope
    persist_entry codec entry =
        continue (host.try_sidecar_name entry.0.segment_id codec.kind) (persist_absent codec entry)

    unfoldable pub persist_pending : SidecarCodec Key Index → EntryMap Key Index → ℕ → Exec D ℕ
    unfolding persist_entry
    persist_pending codec [] written d = (ok written, d)
    persist_pending codec (entry ∷ pending) written d =
        let r = persist_entry codec entry d in
        continue r.0 (λ n. persist_pending codec pending (written + n)) r.1

    unfoldable pub persist_missing : List ℕ → SidecarCache Key Index → Exec D ℕ
    unfolding persist_pending contains
    persist_missing segment_ids cache =
        persist_pending cache.codec
          (keep (λ e. contains ℕ_discrete segment_ids e.0.segment_id) cache.entries) 0
