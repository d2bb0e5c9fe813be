-- ===== src/Sidecar/Serving.antt =====
-- `SidecarCache::get_or_build` of src/sidecar.rs: what it returns and what it leaves in the cache.
use mathlib.Core.Path.{subst, sym, ap, ◌∙◌}
use segstore.Base.{
  ℕ, ◌≡◌, ◌≢◌, true, List, [], ◌∷◌, Option, none, some, arith, refl, inl, inr, Option-cases,
}
use segstore.Base.Assoc.{get}
use segstore.Sidecar.{SidecarKey, SidecarKey-discrete, SidecarCodec, SidecarHost}
use segstore.Sidecar.Lookup.{get_or_build-hit, get_or_build-miss, get-insert_entry}
use segstore.Sidecar.Cache.{EntryMap, SidecarCache, cached, or_insert, load, get_or_build}
use segstore.Sidecar.Coherence.{
  AllAccepted, Accepted, IsCoherent, get_or_built, later, Reach, Reach-IsCoherent, load-Accepted,
}

module _ {Key Index : Type 0} (dec : Discrete Key) where
  cached-accepted :
      (codec : SidecarCodec Key Index) (key : SidecarKey Key) (index : Index)
      (entries : EntryMap Key Index)
      → AllAccepted codec entries
      → get (SidecarKey-discrete dec) entries key ≡ some index
      → codec.accepts index key.live_ids ≡ true
  unfolding get
  cached-accepted codec key index [] all e = absurd (cc)
  cached-accepted codec key index ((k, i) ∷ entries) all e = elim (SidecarKey-discrete dec k key) [
    | yes p ↦
        let same : i ≡ index = ground arith in
        subst (λ j. codec.accepts j key.live_ids ≡ true) same
          (subst (λ j. codec.accepts i j.live_ids ≡ true) p all.0)
    | no p ↦ cached-accepted codec key index entries all.1 (ground arith)
  ]

  -- What `or_insert` returns is then in the cache, and other segments are not touched.
  or_insert-Serves :
      (cache : SidecarCache Key Index) (key : SidecarKey Key) (found : Option Index)
      (otherwise : Option Index × SidecarCache Key Index) (index : Index)
      → (otherwise.0 ≡ some index → cached dec otherwise.1 key ≡ some index)
      → (or_insert dec cache key found otherwise).0 ≡ some index
      → cached dec (or_insert dec cache key found otherwise).1 key ≡ some index
  or_insert-Serves cache key none otherwise index h e = h e
  or_insert-Serves cache key (some i) otherwise index h e =
      ground (arith, get-insert_entry dec key key i cache.entries, SidecarKey-discrete dec key key)

  or_insert-elsewhere :
      (cache : SidecarCache Key Index) (key k : SidecarKey Key) (found : Option Index)
      (otherwise : Option Index × SidecarCache Key Index)
      → key.segment_id ≢ k.segment_id
      → cached dec otherwise.1 k ≡ cached dec cache k
      → cached dec (or_insert dec cache key found otherwise).1 k ≡ cached dec cache k
  or_insert-elsewhere cache key k none otherwise differ h = h
  or_insert-elsewhere cache key k (some i) otherwise differ h =
      ground (
        arith,
        get-insert_entry dec key k i cache.entries,
        ap (λ x. x.segment_id) {x = key} {y = k},
      )

  or_insert-Accepted :
      (cache : SidecarCache Key Index) (key : SidecarKey Key) (found : Option Index)
      (otherwise : Option Index × SidecarCache Key Index)
      → Accepted cache.codec key found
      → Accepted cache.codec key otherwise.0
      → Accepted cache.codec key (or_insert dec cache key found otherwise).0
  or_insert-Accepted cache key none otherwise good rest = rest
  or_insert-Accepted cache key (some i) otherwise good rest = good

  module _ {D File FilePath : Type 0} (crc : List ℕ → ℕ) (host : SidecarHost D File FilePath) where
    -- A cache that is shared with a directory, whatever the order of the calls and of foreign
    -- writes to the directory, serves only an index that the codec accepts for the live ids asked
    -- for, if what is built is accepted; and it keeps at most one entry for each segment, each
    -- accepted for its live ids.
    pub served-Accepted :
        {codec : SidecarCodec Key Index} {s : SidecarCache Key Index × D}
        → Reach dec crc host codec s
        → (key : SidecarKey Key) (build : Option Index) (index : Index)
        → Accepted s.0.codec key build
        → (get_or_build dec crc host s.1 key build s.0).0 ≡ some index
        → (s.0.codec.accepts index key.live_ids ≡ true)
          × IsCoherent (get_or_build dec crc host s.1 key build s.0).1
    served-Accepted {s = s} reached key build index good e =
        let coherent =
          Reach-IsCoherent dec crc host (later reached (get_or_built key build good)) in
        elim (Option-cases (cached dec s.0 key)) [
          | inl missing ↦ (
            subst (Accepted s.0.codec key)
                (sym (ap (λ r. r.0) (get_or_build-miss dec crc host s.1 key build s.0 missing)) ∙ e)
                (or_insert-Accepted s.0 key (load dec crc host s.0.codec s.1 key) _
                  (load-Accepted dec crc host s.0.codec s.1 key)
                  (or_insert-Accepted s.0 key build (none, s.0) good tt)),
            coherent,
          )
          | inr (hit, found) ↦ (
            cached-accepted s.0.codec key index s.0.entries
                (Reach-IsCoherent dec crc host reached).1
                (found
                  ∙ sym (ap (λ r. r.0) (get_or_build-hit dec crc host s.1 key build s.0 hit found))
                  ∙ e),
            coherent,
          )
        ]

    get_or_build-cached :
        (d : D) (key : SidecarKey Key) (build : Option Index) (cache : SidecarCache Key Index)
        (index : Index)
        → (get_or_build dec crc host d key build cache).0 ≡ some index
        → cached dec (get_or_build dec crc host d key build cache).1 key ≡ some index
    get_or_build-cached d key build cache index = elim (Option-cases (cached dec cache key)) [
      | inl missing ↦
          subst (λ r. r.0 ≡ some index → cached dec r.1 key ≡ some index)
            (sym (get_or_build-miss dec crc host d key build cache missing))
            (or_insert-Serves cache key (load dec crc host cache.codec d key) _ index
              (or_insert-Serves cache key build (none, cache) index (λ h. absurd (cc))))
      | inr (hit, found) ↦
          subst (λ r. r.0 ≡ some index → cached dec r.1 key ≡ some index)
            (sym (get_or_build-hit dec crc host d key build cache hit found)) (λ h. found ∙ h)
    ]

    get_or_build_elsewhere :
        (d : D) (key k : SidecarKey Key) (build : Option Index) (cache : SidecarCache Key Index)
        → key.segment_id ≢ k.segment_id
        → cached dec (get_or_build dec crc host d key build cache).1 k ≡ cached dec cache k
    get_or_build_elsewhere d key k build cache differ = elim (Option-cases (cached dec cache key)) [
      | inl missing ↦
          subst (λ r. cached dec r.1 k ≡ cached dec cache k)
            (sym (get_or_build-miss dec crc host d key build cache missing))
            (or_insert-elsewhere cache key k (load dec crc host cache.codec d key) _ differ
              (or_insert-elsewhere cache key k build (none, cache) differ refl))
      | inr (hit, found) ↦
          subst (λ r. cached dec r.1 k ≡ cached dec cache k)
            (sym (get_or_build-hit dec crc host d key build cache hit found)) refl
    ]

    -- After `get_or_build` returned an index, a later call for the key returns it again and leaves
    -- the cache as it is, whatever the directory holds and the closure returns by then; and the
    -- entries of the other segments are as they were.
    pub get_or_build-again :
        (d e : D) (key : SidecarKey Key) (build again : Option Index)
        (cache : SidecarCache Key Index) (index : Index)
        → (get_or_build dec crc host d key build cache).0 ≡ some index
        → (get_or_build dec crc host e key again (get_or_build dec crc host d key build cache).1
            ≡ (some index, (get_or_build dec crc host d key build cache).1))
          × ((k : SidecarKey Key)
              → key.segment_id ≢ k.segment_id
              → cached dec (get_or_build dec crc host d key build cache).1 k ≡ cached dec cache k)
    get_or_build-again d e key build again cache index h = (
      get_or_build-hit dec crc host e key again _ index
          (get_or_build-cached d key build cache index h),
      λ k differ. get_or_build_elsewhere d key k build cache differ,
    )
