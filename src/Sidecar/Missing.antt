-- ===== src/Sidecar/Missing.antt =====
-- `SidecarCache::persist_missing` of src/sidecar.rs.
use mathlib.Core.Path.{subst, sym, ap, ◌∙◌}
use segstore.Base.{
  ℕ, ◌≡◌, ◌≢◌, ◌+◌, Bool, true, false, List, [], ◌∷◌, keep, some, arith, refl, inl, inr, Bool-cases,
  ℕ_discrete,
}
use segstore.Base.Assoc.{contains, get}
use segstore.Base.Result.{ok, Result-cases}
use segstore.Base.Exec.{Exec, continue-ok, return, ◌>>◌}
use segstore.Names.{Name, Name-discrete, tmp_path}
use segstore.Directory.{Directory, DirectoryLaws, contents}
use segstore.Sidecar.{SidecarKey, SidecarKey-discrete, SidecarCodec, SidecarHost, write_sidecar}
use segstore.Sidecar.Reserved.{NamesReserved, NotTemporary, given-NotTemporary}
use segstore.Sidecar.Cache.{
  EntryMap, SidecarCache, cached, encode_envelope, write_entry, persist_absent, persist_entry,
  persist_pending, persist_missing,
}

module _ {D File FilePath : Type 0} (dir : Directory D File FilePath) where
  -- The file is in `e`, with the contents that it has in `d`.
  abbrev pub KeepsFile : Name → D → D → Type 0
  KeepsFile name d e = (dir.exists e name ≡ true) × (contents dir e name ≡ contents dir d name)

  KeepsFile-trans :
      {name : Name} (c d e : D) → KeepsFile name c d → KeepsFile name d e → KeepsFile name c e
  KeepsFile-trans c d e first second = (second.0, second.1 ∙ first.1)

  module _ (files : DirectoryLaws dir) where
    -- A write to a name that has no file.
    atomic_write-KeepsFile :
        (name other : Name) (bytes : List ℕ) (d : D)
        → dir.exists d name ≡ false
        → tmp_path name ≢ other
        → dir.exists d other ≡ true
        → KeepsFile other d (dir.atomic_write name bytes d).1
    atomic_write-KeepsFile name other bytes d absent apart there = elim (Name-discrete name other) [
      | yes same ↦ absurd (ground (arith, ap (dir.exists d) same))
      | no differ ↦
          let kept = files.atomic_write_elsewhere name other bytes d differ apart in
          (kept.0 ∙ there, kept.1)
    ]

module _ {D A : Type 0} where
  -- What follows a call in `m >> return a` changes nothing.
  pub then_return : (m : Exec D (Unit {0})) (a : A) (d : D) → ((m >> return a) d).1 ≡ (m d).1
  then_return m a d = elim (Result-cases (m d).0) [
    | inl (unit, e) ↦ rw e refl
    | inr (failure, e) ↦ rw e refl
  ]

module _ {Key Index D File FilePath : Type 0} (dec : Discrete Key) (crc : List ℕ → ℕ)
    (host : SidecarHost D File FilePath) (files : DirectoryLaws host.sidecar_dir) where
  write_entry-KeepsFile :
      (codec : SidecarCodec Key Index) (entry : SidecarKey Key × Index) (name other : Name) (d : D)
      → host.sidecar_dir.exists d name ≡ false
      → tmp_path name ≢ other
      → host.sidecar_dir.exists d other ≡ true
      → KeepsFile host.sidecar_dir other d (write_entry dec crc host codec entry name d).1
  write_entry-KeepsFile codec entry name other d absent apart there =
      elim (Result-cases (encode_envelope crc codec entry.0 entry.1)) [
        | inl (bytes, e) ↦
            rw e
              (atomic_write-KeepsFile host.sidecar_dir files name other bytes d absent apart there)
        | inr (failure, e) ↦ rw e (there, refl)
      ]

  persist_entry-KeepsFile :
      (codec : SidecarCodec Key Index) (entry : SidecarKey Key × Index) (other : Name) (d : D)
      → NotTemporary host other
      → host.sidecar_dir.exists d other ≡ true
      → KeepsFile host.sidecar_dir other d (persist_entry dec crc host codec entry d).1
  unfolding persist_entry
  persist_entry-KeepsFile codec entry other d apart there =
      elim (Result-cases (host.try_sidecar_name entry.0.segment_id codec.kind)) [
        | inl (name, e) ↦ rw e (elim (Bool-cases (host.sidecar_dir.exists d name)) [
          | inl present ↦ rw present (there, refl)
          | inr absent ↦ rw absent (
              subst (KeepsFile host.sidecar_dir other d)
                (sym (then_return (write_entry dec crc host codec entry name) 1 d))
                (write_entry-KeepsFile codec entry name other d absent
                  (apart entry.0.segment_id codec.kind name e) there))
        ])
        | inr (failure, e) ↦ rw e (there, refl)
      ]

  persist_pending-KeepsFile :
      (codec : SidecarCodec Key Index) (pending : EntryMap Key Index) (n : ℕ) (other : Name) (d : D)
      → NotTemporary host other
      → host.sidecar_dir.exists d other ≡ true
      → KeepsFile host.sidecar_dir other d (persist_pending dec crc host codec pending n d).1
  unfolding persist_pending
  persist_pending-KeepsFile codec [] n other d apart there = (there, refl)
  persist_pending-KeepsFile codec (entry ∷ pending) n other d apart there =
      let first = persist_entry-KeepsFile codec entry other d apart there in
      let r = persist_entry dec crc host codec entry d in
      elim (Result-cases r.0) [
        | inl (m, e) ↦ rw e (
            KeepsFile-trans host.sidecar_dir d r.1 _ first
              (persist_pending-KeepsFile codec pending (n + m) other r.1 apart first.0))
        | inr (failure, e) ↦ rw e first
      ]

  -- Over a directory that keeps the stated laws, `persist_missing` leaves every file that exists
  -- where it is and with its contents, unless it is the temporary file of a name that the host
  -- gives, whether it returns or stops at an error.
  pub persist_missing-KeepsFile :
      (segment_ids : List ℕ) (cache : SidecarCache Key Index) (d : D) (name : Name)
      → NotTemporary host name
      → host.sidecar_dir.exists d name ≡ true
      → KeepsFile host.sidecar_dir name d (persist_missing dec crc host segment_ids cache d).1
  unfolding persist_missing
  persist_missing-KeepsFile segment_ids cache d name apart there =
      persist_pending-KeepsFile cache.codec _ 0 name d apart there

  -- The name of the entry has a file.
  abbrev pub HasFile : SidecarCodec Key Index → SidecarKey Key → D → Type 0
  HasFile codec key d =
      (name : Name) × (host.try_sidecar_name key.segment_id codec.kind ≡ ok name)
      × (host.sidecar_dir.exists d name ≡ true)

  abbrev AllHaveFiles : SidecarCodec Key Index → EntryMap Key Index → D → Type 0
  AllHaveFiles codec [] d = Unit
  AllHaveFiles codec (entry ∷ pending) d = HasFile codec entry.0 d × AllHaveFiles codec pending d

  abbrev written : SidecarCodec Key Index → SidecarKey Key × Index → Name → Exec D ℕ
  written codec entry name = write_entry dec crc host codec entry name >> return 1

  write_entry-wrote :
      (codec : SidecarCodec Key Index) (entry : SidecarKey Key × Index) (name : Name) (d : D)
      (n : ℕ)
      → (written codec entry name d).0 ≡ ok n
      → host.sidecar_dir.exists (written codec entry name d).1 name ≡ true
  write_entry-wrote codec entry name d n done =
      let (unit, wrote, e) =
        continue-ok (write_entry dec crc host codec entry name d).0 (λ _. return 1)
          (write_entry dec crc host codec entry name d).1 n done in
      let (bytes, framed, f) =
        continue-ok (encode_envelope crc codec entry.0 entry.1)
          (λ bytes. write_sidecar host name bytes) d unit wrote in
      ap (λ r. host.sidecar_dir.exists r.1 name) e
      ∙ ap (λ r. host.sidecar_dir.exists r.1 name) f
      ∙ files.exists-atomic_write name bytes d (sym (ap (λ r. r.0) f) ∙ wrote)

  persist_absent-present :
      (codec : SidecarCodec Key Index) (entry : SidecarKey Key × Index) (name : Name) (d : D)
      (n : ℕ)
      → (persist_absent dec crc host codec entry name d).0 ≡ ok n
      → host.sidecar_dir.exists (persist_absent dec crc host codec entry name d).1 name ≡ true
  persist_absent-present codec entry name d n = elim (Bool-cases (host.sidecar_dir.exists d name)) [
    | inl present ↦ rw present (λ _. present)
    | inr absent ↦ rw absent (write_entry-wrote codec entry name d n)
  ]

  persist_entry-HasFile :
      (codec : SidecarCodec Key Index) (entry : SidecarKey Key × Index) (d : D) (n : ℕ)
      → (persist_entry dec crc host codec entry d).0 ≡ ok n
      → HasFile codec entry.0 (persist_entry dec crc host codec entry d).1
  unfolding persist_entry
  persist_entry-HasFile codec entry d n done =
      let (name, named, e) =
        continue-ok (host.try_sidecar_name entry.0.segment_id codec.kind)
          (persist_absent dec crc host codec entry) d n done in
      (
        name,
        named,
        ap (λ r. host.sidecar_dir.exists r.1 name) e
            ∙ persist_absent-present codec entry name d n (sym (ap (λ r. r.0) e) ∙ done),
      )

  HasFile-KeepsFile :
      (reserved : NamesReserved host) (codec : SidecarCodec Key Index) (key : SidecarKey Key)
      (d e : D)
      → ((name : Name)
          → NotTemporary host name
          → host.sidecar_dir.exists d name ≡ true
          → KeepsFile host.sidecar_dir name d e)
      → HasFile codec key d
      → HasFile codec key e
  HasFile-KeepsFile reserved codec key d e keeps (name, named, there) = (
    name,
    named,
    (keeps name (given-NotTemporary host reserved key.segment_id codec.kind name named) there).0,
  )

  persist_pending-AllHaveFiles :
      (reserved : NamesReserved host) (codec : SidecarCodec Key Index)
      (pending : EntryMap Key Index) (n m : ℕ) (d : D)
      → (persist_pending dec crc host codec pending n d).0 ≡ ok m
      → AllHaveFiles codec pending (persist_pending dec crc host codec pending n d).1
  unfolding persist_pending
  persist_pending-AllHaveFiles reserved codec [] n m d done = tt
  persist_pending-AllHaveFiles reserved codec (entry ∷ pending) n m d done =
      let r = persist_entry dec crc host codec entry d in
      let (k, wrote, e) =
        continue-ok r.0 (λ k. persist_pending dec crc host codec pending (n + k)) r.1 m done in
      let rest = persist_pending dec crc host codec pending (n + k) r.1 in
      let all : HasFile codec entry.0 rest.1 × AllHaveFiles codec pending rest.1 = (
        HasFile-KeepsFile reserved codec entry.0 r.1 rest.1
            (λ name apart there.
              persist_pending-KeepsFile codec pending (n + k) name r.1 apart there)
            (persist_entry-HasFile codec entry d k wrote),
        persist_pending-AllHaveFiles reserved codec pending (n + k) m r.1
            (sym (ap (λ r. r.0) e) ∙ done),
      ) in
      subst (λ d. HasFile codec entry.0 d × AllHaveFiles codec pending d) (sym (ap (λ r. r.1) e))
        all

  cached-HasFile :
      (codec : SidecarCodec Key Index) (p : SidecarKey Key → Bool) (entries : EntryMap Key Index)
      (key : SidecarKey Key) (index : Index) (d : D)
      → AllHaveFiles codec (keep (λ e. p e.0) entries) d
      → p key ≡ true
      → get (SidecarKey-discrete dec) entries key ≡ some index
      → HasFile codec key d
  unfolding get
  cached-HasFile codec p [] key index d = λ all picked found. absurd (cc)
  cached-HasFile codec p ((k, i) ∷ entries) key index d = elim (Bool-cases (p k)) [
    | inl stays ↦ rw stays (λ all picked found. elim (SidecarKey-discrete dec k key) [
      | yes same ↦ subst (λ x. HasFile codec x d) same all.0
      | no differ ↦ cached-HasFile codec p entries key index d all.1 picked (ground arith)
    ])
    | inr goes ↦ rw goes (λ all picked found. elim (SidecarKey-discrete dec k key) [
      | yes same ↦ absurd (ground (arith, ap p same))
      | no differ ↦ cached-HasFile codec p entries key index d all picked (ground arith)
    ])
  ]

  -- When `persist_missing` returns, over a directory that keeps the stated laws, every cached entry
  -- of the given segments has a file under its name, where the host gives reserved names.
  pub persist_missing-HasFile :
      (reserved : NamesReserved host) (segment_ids : List ℕ) (cache : SidecarCache Key Index)
      (d : D) (n : ℕ) (key : SidecarKey Key) (index : Index)
      → (persist_missing dec crc host segment_ids cache d).0 ≡ ok n
      → cached dec cache key ≡ some index
      → contains ℕ_discrete segment_ids key.segment_id ≡ true
      → HasFile cache.codec key (persist_missing dec crc host segment_ids cache d).1
  unfolding persist_missing
  persist_missing-HasFile reserved segment_ids cache d n key index done found asked =
      cached-HasFile cache.codec (λ k. contains ℕ_discrete segment_ids k.segment_id) cache.entries
        key index _ (persist_pending-AllHaveFiles reserved cache.codec _ 0 n d done) asked found
