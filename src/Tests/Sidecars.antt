-- ===== src/Tests/Sidecars.antt =====
-- The theorems on live ids and sidecar caches, applied to a directory of named byte lists and a
-- codec whose index is the list of live ids, as in the tests of src/sidecar.rs.
use segstore.Base.{
  ℕ, ◌≡◌, ◌≢◌, ◌^◌, ◌%◌, ◌<◌, true, List, [], ◌∷◌, none, some, arith, refl, length, leb, ℕ_discrete,
}
use segstore.Base.Assoc.{get, insert, remove, contains, contains_key, eqb, get-insert, get-remove}
use segstore.Base.Result.{ok, err, io}
use segstore.Names.{Name, bytes, Name-discrete, index_sidecar_name, decimal}
use segstore.Directory.{Directory, DirectoryLaws}
use segstore.LiveIds.{TotalOrder, live_ids_new, live_ids_contains}
use segstore.LiveIds.Canonical.{Ascending, live_ids_new-canonical}
use segstore.Sidecar.{
  delete_sidecar, read_sidecar, SidecarKey-discrete, SidecarKey, SidecarCodec, SidecarHost,
  writer_host,
}
use segstore.Sidecar.Cache.{
  SidecarCache, cached, get_or_build, invalidate, load, persist, persist_missing, new_cache,
}
use segstore.Sidecar.Coherence.{IsCoherent, opened, later, directory_changed}
use segstore.Sidecar.Serving.{served-Accepted, get_or_build-again}
use segstore.Sidecar.Files.{TagsFit, persist-Reloads}
use segstore.Sidecar.Invalidating.{invalidate-Forgets}
use segstore.Sidecar.Missing.{
  KeepsFile, HasFile, persist_missing-KeepsFile, persist_missing-HasFile,
}
use segstore.Sidecar.Reserved.{writer_host-NamesReserved, given-NotTemporary}
use segstore.Sidecar.Elsewhere.{invalidate_elsewhere, persist_elsewhere}

abbrev Files : Type 0
Files = List (Name × List ℕ)

abbrev memory : Directory Files (List ℕ) Name
memory = record {
  exists = λ d name. contains_key Name-discrete d name;
  open_file = λ d name. elim (get Name-discrete d name) [ none ↦ err io | some b ↦ ok b ];
  read_to_end = λ file. ok file;
  atomic_write = λ name b d. (ok tt, insert Name-discrete name b d);
  delete = λ name d. (ok tt, remove Name-discrete name d);
  file_path = λ name. none;
}

memory-laws : DirectoryLaws memory
unfolding contains_key
memory-laws = record {
  exists-atomic_write =
      λ name b d h. ground (arith, get-insert Name-discrete name name b d, Name-discrete name name);
  contents-atomic_write =
      λ name b d h. ground (arith, get-insert Name-discrete name name b d, Name-discrete name name);
  exists-delete =
      λ name d h. ground (arith, get-remove Name-discrete name name d, Name-discrete name name);
  atomic_write_elsewhere =
      λ name other b d h _. ground (arith, get-insert Name-discrete name other b d);
  delete_elsewhere = λ name other d h. ground (arith, get-remove Name-discrete name other d);
}

leb-TotalOrder : TotalOrder leb
leb-TotalOrder = record {
  total = λ a b. ground arith;
  trans = λ a b c h k. ground arith;
  antisym = λ a b h k. ground arith;
}

abbrev id_list : SidecarCodec ℕ (List ℕ)
id_list = record {
  magic = bytes "TOYIDX01";
  version = 1;
  kind = bytes "toy";
  recipe = bytes "u32-id-list-v1";
  encode = λ index. some index;
  decode = λ payload. some payload;
  accepts = λ index live. eqb Name-discrete index live;
}

id_list-TagsFit : TagsFit id_list
id_list-TagsFit = record { magic_len = refl; version_fits = omega arith; recipe_fits = omega arith }

-- The length stands for the checksum.
abbrev sum : List ℕ → ℕ
sum l = length l % 2 ^ 32

sum_small : (l : List ℕ) → sum l < 2 ^ 32
sum_small l = omega arith

abbrev host : SidecarHost Files (List ℕ) Name
host = writer_host memory

abbrev key : SidecarKey ℕ
key = record { segment_id = 1; live_ids = 1 ∷ 3 ∷ [] }

abbrev neighbour : SidecarKey ℕ
neighbour = record { segment_id = 2; live_ids = 4 ∷ [] }

abbrev cache : SidecarCache ℕ (List ℕ)
cache = record { codec = id_list; entries = (key, 1 ∷ 3 ∷ []) ∷ (neighbour, 4 ∷ []) ∷ [] }

abbrev name : Name
name = bytes "segstore.idx.1.toy"

named : index_sidecar_name 1 (bytes "toy") ≡ ok name
unfolding index_sidecar_name decimal
named = refl

key_found : cached ℕ_discrete cache key ≡ some (1 ∷ 3 ∷ [])
unfolding get
key_found = ground (arith, SidecarKey-discrete ℕ_discrete key key)

same_ids : (j : ℕ) → contains ℕ_discrete (3 ∷ 1 ∷ 3 ∷ []) j ≡ contains ℕ_discrete (1 ∷ 3 ∷ []) j
unfolding contains
same_ids j = ground (arith, ℕ_discrete 3 j, ℕ_discrete 1 j)

accepted : id_list.accepts (1 ∷ 3 ∷ []) key.live_ids ≡ true
accepted = ground (arith, Name-discrete (1 ∷ 3 ∷ []) (1 ∷ 3 ∷ []))

live_ids_new-canonical_example :
    (live_ids_new ℕ_discrete leb (3 ∷ 1 ∷ 3 ∷ []) ≡ live_ids_new ℕ_discrete leb (1 ∷ 3 ∷ []))
    × Ascending ℕ_discrete leb (live_ids_new ℕ_discrete leb (3 ∷ 1 ∷ 3 ∷ []))
    × ((j : ℕ)
        → live_ids_contains ℕ_discrete (live_ids_new ℕ_discrete leb (3 ∷ 1 ∷ 3 ∷ [])) j
          ≡ contains ℕ_discrete (3 ∷ 1 ∷ 3 ∷ []) j)
live_ids_new-canonical_example =
    live_ids_new-canonical ℕ_discrete leb leb-TotalOrder (3 ∷ 1 ∷ 3 ∷ []) (1 ∷ 3 ∷ []) same_ids

built :
    (get_or_build ℕ_discrete sum host [] key (some (1 ∷ 3 ∷ [])) (new_cache id_list)).0
    ≡ some (1 ∷ 3 ∷ [])
unfolding get_or_build load read_sidecar get contains_key index_sidecar_name
built = refl

served-Accepted_example :
    (id_list.accepts (1 ∷ 3 ∷ []) key.live_ids ≡ true)
    × IsCoherent (get_or_build ℕ_discrete sum host [] key (some (1 ∷ 3 ∷ [])) (new_cache id_list)).1
served-Accepted_example =
    served-Accepted ℕ_discrete sum host (later (opened []) (directory_changed [])) key
      (some (1 ∷ 3 ∷ [])) (1 ∷ 3 ∷ []) accepted built

get_or_build-again_example :
    (get_or_build ℕ_discrete sum host [] key none
        (get_or_build ℕ_discrete sum host [] key (some (1 ∷ 3 ∷ [])) (new_cache id_list)).1
      ≡ (
        some (1 ∷ 3 ∷ []),
        (get_or_build ℕ_discrete sum host [] key (some (1 ∷ 3 ∷ [])) (new_cache id_list)).1,
      ))
    × ((k : SidecarKey ℕ)
        → 1 ≢ k.segment_id
        → cached ℕ_discrete
            (get_or_build ℕ_discrete sum host [] key (some (1 ∷ 3 ∷ [])) (new_cache id_list)).1
            k
          ≡ cached ℕ_discrete (new_cache id_list) k)
get_or_build-again_example =
    get_or_build-again ℕ_discrete sum host [] [] key (some (1 ∷ 3 ∷ [])) none (new_cache id_list)
      (1 ∷ 3 ∷ []) built

persist-Reloads_example :
    ((persist ℕ_discrete sum host key cache []).0 ≡ ok true)
    × ((get_or_build ℕ_discrete sum host
          (persist ℕ_discrete sum host key cache []).1
          key
          none
          (new_cache id_list)).0
        ≡ some (1 ∷ 3 ∷ []))
persist-Reloads_example =
    persist-Reloads ℕ_discrete sum host sum_small memory-laws [] key (1 ∷ 3 ∷ []) cache (1 ∷ 3 ∷ [])
      name none id_list-TagsFit (omega arith) key_found accepted refl refl named (λ _. refl)

abbrev stored : Files
stored = (name, 7 ∷ []) ∷ []

invalidated : (invalidate ℕ_discrete sum host 1 cache stored).0 ≡ ok tt
unfolding invalidate delete_sidecar index_sidecar_name contains_key get Name-discrete ℕ_discrete
    decimal
invalidated = refl

invalidate-Forgets_example :
    (cached ℕ_discrete (invalidate ℕ_discrete sum host 1 cache stored).1 key ≡ none)
    × (load ℕ_discrete sum host id_list (invalidate ℕ_discrete sum host 1 cache stored).2 key
        ≡ none)
    × ((get_or_build ℕ_discrete sum host
          (invalidate ℕ_discrete sum host 1 cache stored).2
          key
          (some [])
          (invalidate ℕ_discrete sum host 1 cache stored).1).0
        ≡ some [])
invalidate-Forgets_example =
    invalidate-Forgets ℕ_discrete sum host memory-laws 1 cache stored key (some []) invalidated refl

invalidate_elsewhere_example :
    (cached ℕ_discrete (invalidate ℕ_discrete sum host 1 cache stored).1 neighbour
      ≡ cached ℕ_discrete cache neighbour)
    × (load ℕ_discrete sum host id_list (invalidate ℕ_discrete sum host 1 cache stored).2 neighbour
        ≡ load ℕ_discrete sum host id_list stored neighbour)
invalidate_elsewhere_example =
    invalidate_elsewhere ℕ_discrete sum host memory-laws (writer_host-NamesReserved memory) 1 cache
      stored neighbour (omega arith) (omega arith) (λ e. omega (arith, e))

persist_elsewhere_example :
    load ℕ_discrete sum host id_list (persist ℕ_discrete sum host key cache stored).1 neighbour
    ≡ load ℕ_discrete sum host id_list stored neighbour
persist_elsewhere_example =
    persist_elsewhere ℕ_discrete sum host memory-laws (writer_host-NamesReserved memory) key
      neighbour cache stored (omega arith) (omega arith) (λ e. omega (arith, e))

stored_there : memory.exists stored name ≡ true
unfolding contains_key get Name-discrete ℕ_discrete
stored_there = refl

persist_missing-KeepsFile_example :
    KeepsFile memory name stored (persist_missing ℕ_discrete sum host (1 ∷ 2 ∷ []) cache stored).1
persist_missing-KeepsFile_example =
    persist_missing-KeepsFile ℕ_discrete sum host memory-laws (1 ∷ 2 ∷ []) cache stored name
      (given-NotTemporary host (writer_host-NamesReserved memory) 1 (bytes "toy") name named)
      stored_there

wrote_one : (persist_missing ℕ_discrete sum host (1 ∷ 2 ∷ []) cache stored).0 ≡ ok 1
unfolding persist_missing contains ℕ_discrete index_sidecar_name contains_key get Name-discrete
    decimal
wrote_one = refl

persist_missing-HasFile_example :
    HasFile ℕ_discrete sum host memory-laws id_list key
      (persist_missing ℕ_discrete sum host (1 ∷ 2 ∷ []) cache stored).1
unfolding contains ℕ_discrete
persist_missing-HasFile_example =
    persist_missing-HasFile ℕ_discrete sum host memory-laws (writer_host-NamesReserved memory)
      (1 ∷ 2 ∷ []) cache stored 1 key (1 ∷ 3 ∷ []) wrote_one key_found refl
