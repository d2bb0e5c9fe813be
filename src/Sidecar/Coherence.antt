-- ===== src/Sidecar/Coherence.antt =====
-- What a `SidecarCache` (src/sidecar.rs) holds while it is shared: calls on it in any order, with a
-- directory that other threads and processes change in between.
use segstore.Base.{
  ℕ, ◌≡◌, Bool, true, false, List, [], ◌∷◌, Option, none, some, keep, map, if◌then◌else◌, arith,
  refl, inl, inr, ℕ_discrete, Bool-cases, Option-cases,
}
use mathlib.Core.Path.{subst, sym}
use mathlib.Core.Option.{some-injective}
use segstore.Base.Result.{and_then, and_then-some, to_option}
use segstore.Envelope.{decode}
use segstore.Base.Assoc.{contains, remove, insert}
use segstore.Tables.Select.{Distinct}
use segstore.Sidecar.{SidecarKey, SidecarKey-discrete, SidecarCodec, SidecarHost, read_sidecar}
use segstore.Sidecar.Lookup.{get_or_build-hit, get_or_build-miss}
use segstore.Sidecar.Cache.{
  EntryMap, SidecarCache, new_cache, or_insert, accept, validate, cached, insert_entry,
  retain_segments, load, get_or_build, invalidate, persist, persist_missing, other_segment,
}

-- The segment of each entry.
abbrev pub segments : {Key Index : Type 0} → EntryMap Key Index → List ℕ
segments entries = map (λ e. e.0.segment_id) entries

-- Every index is one that the codec accepts for the live ids that it is kept under.
abbrev pub AllAccepted : {Key Index : Type 0} → SidecarCodec Key Index → EntryMap Key Index → Type 0
AllAccepted codec [] = Unit
AllAccepted codec (e ∷ entries) =
    (codec.accepts e.1 e.0.live_ids ≡ true) × AllAccepted codec entries

-- An index that is returned is accepted for the live ids.
abbrev pub Accepted :
    {Key Index : Type 0} → SidecarCodec Key Index → SidecarKey Key → Option Index → Type 0
Accepted codec key none = Unit
Accepted codec key (some index) = codec.accepts index key.live_ids ≡ true

abbrev pub IsCoherent : {Key Index : Type 0} → SidecarCache Key Index → Type 0
IsCoherent cache = Distinct (segments cache.entries) × AllAccepted cache.codec cache.entries

module _ {Key Index : Type 0} where
  contains-segments-keep :
      (p : SidecarKey Key × Index → Bool) (entries : EntryMap Key Index) (s : ℕ)
      → contains ℕ_discrete (segments entries) s ≡ false
      → contains ℕ_discrete (segments (keep p entries)) s ≡ false
  unfolding contains
  contains-segments-keep p [] s h = refl
  contains-segments-keep p (e ∷ entries) s h = ground (arith, contains-segments-keep p entries s)

  keep-Distinct :
      (p : SidecarKey Key × Index → Bool) (entries : EntryMap Key Index)
      → Distinct (segments entries)
      → Distinct (segments (keep p entries))
  keep-Distinct p [] h = tt
  keep-Distinct p (e ∷ entries) h = elim (Bool-cases (p e)) [
    | inl stays ↦
        rw stays (contains-segments-keep p entries e.0.segment_id h.0, keep-Distinct p entries h.1)
    | inr goes ↦ rw goes (keep-Distinct p entries h.1)
  ]

  keep-AllAccepted :
      (codec : SidecarCodec Key Index) (p : SidecarKey Key × Index → Bool)
      (entries : EntryMap Key Index)
      → AllAccepted codec entries
      → AllAccepted codec (keep p entries)
  keep-AllAccepted codec p [] h = tt
  keep-AllAccepted codec p (e ∷ entries) h = elim (Bool-cases (p e)) [
    | inl stays ↦ rw stays (h.0, keep-AllAccepted codec p entries h.1)
    | inr goes ↦ rw goes (keep-AllAccepted codec p entries h.1)
  ]

  -- The entries of one segment are gone.
  gone :
      (s : ℕ) (entries : EntryMap Key Index)
      → contains ℕ_discrete (segments (keep (λ e. other_segment s e.0) entries)) s ≡ false
  unfolding contains
  gone s [] = refl
  gone s (e ∷ entries) = ground (arith, gone s entries)

module _ {Key Index : Type 0} (dec : Discrete Key) where
  remove-keep :
      (key : SidecarKey Key) (entries : EntryMap Key Index)
      → remove (SidecarKey-discrete dec) key entries
        ≡ keep (λ e. elim (SidecarKey-discrete dec e.0 key) [ yes _ ↦ false | no _ ↦ true ]) entries
  unfolding remove
  remove-keep key [] = refl
  remove-keep key (e ∷ entries) = ground (arith, remove-keep key entries)

  insert_entry-IsCoherent :
      (codec : SidecarCodec Key Index) (key : SidecarKey Key) (index : Index)
      (entries : EntryMap Key Index)
      → codec.accepts index key.live_ids ≡ true
      → IsCoherent (record { codec = codec; entries = entries })
      → IsCoherent (record { codec = codec; entries = insert_entry dec key index entries })
  unfolding insert_entry insert contains
  insert_entry-IsCoherent codec key index entries a h =
      let others = keep (λ e. other_segment key.segment_id e.0) entries in
      rw (remove-keep key others) (
        (
          contains-segments-keep _ others key.segment_id (gone key.segment_id entries),
          keep-Distinct _ others (keep-Distinct _ entries h.0),
        ),
        (a, keep-AllAccepted codec _ others (keep-AllAccepted codec _ entries h.1)),
      )

  Accepted-of :
      (codec : SidecarCodec Key Index) (key : SidecarKey Key) (found : Option Index)
      → ((index : Index) → found ≡ some index → codec.accepts index key.live_ids ≡ true)
      → Accepted codec key found
  Accepted-of codec key none h = tt
  Accepted-of codec key (some index) h = h index refl

  or_insert-IsCoherent :
      (cache : SidecarCache Key Index) (key : SidecarKey Key) (found : Option Index)
      (otherwise : Option Index × SidecarCache Key Index)
      → Accepted cache.codec key found
      → IsCoherent cache
      → IsCoherent otherwise.1
      → IsCoherent (or_insert dec cache key found otherwise).1
  or_insert-IsCoherent cache key none otherwise good h rest = rest
  or_insert-IsCoherent cache key (some index) otherwise good h rest =
      insert_entry-IsCoherent cache.codec key index cache.entries good h

  if-some : (b : Bool) {i j : Index} → (if b then some i else none) ≡ some j → (b ≡ true) × (i ≡ j)
  if-some true {i} {j} h = (refl, some-injective i j h)
  if-some false h = absurd (cc)

  accept-accepted :
      (codec : SidecarCodec Key Index) (key : SidecarKey Key) (loaded index : Index)
      → accept codec key loaded ≡ some index
      → codec.accepts index key.live_ids ≡ true
  accept-accepted codec key loaded index h =
      let (accepted, same) = if-some (codec.accepts loaded key.live_ids) h in
      subst (λ i. codec.accepts i key.live_ids ≡ true) same accepted

  validate-accepted :
      (crc : List ℕ → ℕ) (codec : SidecarCodec Key Index) (key : SidecarKey Key) (bytes : List ℕ)
      (index : Index)
      → validate crc codec key bytes ≡ some index
      → codec.accepts index key.live_ids ≡ true
  unfolding validate
  validate-accepted crc codec key bytes index h =
      let (payload, _, h1) =
        and_then-some
          (to_option (decode crc codec.magic codec.version key.segment_id codec.recipe bytes))
          (λ payload. and_then (codec.decode payload) (accept codec key)) h in
      let (loaded, _, h2) = and_then-some (codec.decode payload) (accept codec key) h1 in
      accept-accepted codec key loaded index h2

  module _ {D File FilePath : Type 0} (crc : List ℕ → ℕ) (host : SidecarHost D File FilePath) where
    -- What is loaded is accepted.
    pub load-Accepted :
        (codec : SidecarCodec Key Index) (d : D) (key : SidecarKey Key)
        → Accepted codec key (load dec crc host codec d key)
    unfolding load
    load-Accepted codec d key = Accepted-of codec key _ (λ index h.
        let (name, _, h1) =
          and_then-some (to_option (host.try_sidecar_name key.segment_id codec.kind))
            (λ name.
              and_then (to_option (read_sidecar host d name))
                (λ found. and_then found (validate crc codec key)))
            h in
        let (found, _, h2) =
          and_then-some (to_option (read_sidecar host d name))
            (λ found. and_then found (validate crc codec key)) h1 in
        let (bytes, _, h3) = and_then-some found (validate crc codec key) h2 in
        validate-accepted crc codec key bytes index h3)

    -- Where a call and a foreign change of the directory lead. `build` returns
    -- indexes that the codec accepts for the live ids they are built from.
    pub data CacheStep (s : SidecarCache Key Index × D) : SidecarCache Key Index × D → Type 0 where
      get_or_built :
          (key : SidecarKey Key) (build : Option Index)
          → Accepted s.0.codec key build
          → CacheStep s ((get_or_build dec crc host s.1 key build s.0).1, s.1)
      invalidated :
          (segment_id : ℕ)
          → CacheStep s (
            (invalidate dec crc host segment_id s.0 s.1).1,
            (invalidate dec crc host segment_id s.0 s.1).2,
          )
      retained : (segment_ids : List ℕ) → CacheStep s (retain_segments dec segment_ids s.0, s.1)
      persisted : (key : SidecarKey Key) → CacheStep s (s.0, (persist dec crc host key s.0 s.1).1)
      persisted_missing :
          (segment_ids : List ℕ)
          → CacheStep s (s.0, (persist_missing dec crc host segment_ids s.0 s.1).1)
      directory_changed : (d : D) → CacheStep s (s.0, d)

    pub data Reach (codec : SidecarCodec Key Index) : SidecarCache Key Index × D → Type 0 where
      opened : (d : D) → Reach codec (new_cache codec, d)
      later : {s t : SidecarCache Key Index × D} → Reach codec s → CacheStep s t → Reach codec t

    get_or_build-IsCoherent :
        (d : D) (key : SidecarKey Key) (build : Option Index) (cache : SidecarCache Key Index)
        → Accepted cache.codec key build
        → IsCoherent cache
        → IsCoherent (get_or_build dec crc host d key build cache).1
    unfolding get_or_build
    get_or_build-IsCoherent d key build cache good h = elim (Option-cases (cached dec cache key)) [
      | inl missing ↦
          subst (λ r. IsCoherent r.1)
            (sym (get_or_build-miss dec crc host d key build cache missing))
            (or_insert-IsCoherent cache key (load dec crc host cache.codec d key) _
              (load-Accepted cache.codec d key) h
              (or_insert-IsCoherent cache key build (none, cache) good h h))
      | inr (hit, e) ↦
          subst (λ r. IsCoherent r.1) (sym (get_or_build-hit dec crc host d key build cache hit e))
            h
    ]

    CacheStep-IsCoherent :
        {s t : SidecarCache Key Index × D} → CacheStep s t → IsCoherent s.0 → IsCoherent t.0
    unfolding invalidate retain_segments
    CacheStep-IsCoherent {s} (get_or_built key build good) h =
        get_or_build-IsCoherent s.1 key build s.0 good h
    CacheStep-IsCoherent {s} (invalidated segment_id) h =
        (keep-Distinct _ s.0.entries h.0, keep-AllAccepted s.0.codec _ s.0.entries h.1)
    CacheStep-IsCoherent {s} (retained segment_ids) h =
        (keep-Distinct _ s.0.entries h.0, keep-AllAccepted s.0.codec _ s.0.entries h.1)
    CacheStep-IsCoherent (persisted key) h = h
    CacheStep-IsCoherent (persisted_missing segment_ids) h = h
    CacheStep-IsCoherent (directory_changed d) h = h

    pub Reach-IsCoherent :
        {codec : SidecarCodec Key Index} {s : SidecarCache Key Index × D}
        → Reach codec s
        → IsCoherent s.0
    Reach-IsCoherent (opened d) = (tt, tt)
    Reach-IsCoherent (later r step) = CacheStep-IsCoherent step (Reach-IsCoherent r)
