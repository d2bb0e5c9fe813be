-- ===== src/Sidecar/Lookup.antt =====
-- What each operation of `SidecarCache` (src/sidecar.rs) does to the entries found by key.
use segstore.Base.{
  ℕ, ◌≡◌, List, Option, none, some, if◌then◌else◌, ite, ◌==◌, arith, refl, ℕ_discrete,
}
use segstore.Base.Assoc.{get, contains, get-insert, get-retain, retain}
use segstore.Sidecar.{SidecarKey, SidecarKey-discrete, SidecarHost}
use segstore.Sidecar.Cache.{
  EntryMap, SidecarCache, cached, insert_entry, retain_segments, other_segment, get_or_build, load,
  or_insert,
}

module _ {Key Index : Type 0} (dec : Discrete Key) where
  pub get-insert_entry :
      (key k : SidecarKey Key) (index : Index) (entries : EntryMap Key Index)
      → get (SidecarKey-discrete dec) (insert_entry dec key index entries) k
        ≡ ite (SidecarKey-discrete dec key k) (some index) (
            if k.segment_id == key.segment_id
            then none
            else get (SidecarKey-discrete dec) entries k)
  unfolding insert_entry
  get-insert_entry key k index entries = ground (
    arith,
    get-insert (SidecarKey-discrete dec) key k index
        (retain (SidecarKey-discrete dec) (other_segment key.segment_id) entries),
    get-retain (SidecarKey-discrete dec) (other_segment key.segment_id) k entries,
  )

  pub cached-retain_segments :
      (segment_ids : List ℕ) (cache : SidecarCache Key Index) (k : SidecarKey Key)
      → cached dec (retain_segments dec segment_ids cache) k
        ≡ (if contains ℕ_discrete segment_ids k.segment_id then cached dec cache k else none)
  unfolding retain_segments
  cached-retain_segments segment_ids cache k =
      get-retain (SidecarKey-discrete dec) (λ key. contains ℕ_discrete segment_ids key.segment_id) k
        cache.entries

  module _ {D File FilePath : Type 0} (crc : List ℕ → ℕ) (host : SidecarHost D File FilePath)
      (d : D) (key : SidecarKey Key) (build : Option Index) (cache : SidecarCache Key Index) where
    pub get_or_build-hit :
        (hit : Index)
        → cached dec cache key ≡ some hit
        → get_or_build dec crc host d key build cache ≡ (some hit, cache)
    unfolding get_or_build
    get_or_build-hit hit e = rw (get_or_build, e) refl

    pub get_or_build-miss :
        cached dec cache key ≡ none
        → get_or_build dec crc host d key build cache
          ≡ or_insert dec cache key
              (load dec crc host cache.codec d key)
              (or_insert dec cache key build (none, cache))
    unfolding get_or_build load
    get_or_build-miss e = rw (get_or_build, e) refl
