-- ===== src/Tests/Data.antt =====
-- A store of two sealed segments and a buffered item over a directory that remembers the names of
-- its files.
use mathlib.Core.Path.{subst}
use segstore.Base.{
  ℕ, ◌+◌, ◌*◌, ◌/◌, ◌≡◌, true, false, List, [], ◌∷◌, some, arith, refl, ltb, leb, ℕ_discrete,
}
use segstore.Base.Assoc.{get, insert, contains, set_insert, set_remove}
use segstore.Base.Result.{ok, err, Error}
use segstore.Names.{Name, Name-discrete, wal_path, manifest_path}
use segstore.Manifest.{superseded_in, add_superseded}
use segstore.Payload.{Store, StoreLaws, items_of}
use segstore.Payload.Default.{default_store, default_laws}
use segstore.Disk.{Disk}
use segstore.Tables.{Tables, Op, select, zip}
use segstore.Tables.Invariant.{IsValid, live_segment_of}
use segstore.Tables.Select.{Distinct}
use segstore.Tiers.{Float, TierConfig}
use segstore.Writer.{Writer, SyncPolicy, snapshot}
use segstore.Recovery.{replay}
use segstore.Recovery.Replay.{replay-history}

abbrev pub Batch : Type 0
Batch = List (ℕ × ℕ)

abbrev pub store : Store ℕ ℕ Batch
store = default_store

abbrev pub laws : StoreLaws ℕ_discrete store
laws = default_laws ℕ_discrete

-- A directory with files, of which it keeps the names.
abbrev pub disk : Disk (List Name) ℕ ℕ Batch
disk = record {
  has_path = λ name. true;
  exists = λ d name. contains Name-discrete d name;
  delete = λ name d. (ok tt, set_remove Name-discrete name d);
  list_dir = λ d. ok d;
  durable_sync_parent_dir = λ name d. (ok tt, d);
  read_manifest_v2 = λ d name. err Error.decode;
  read_manifest_v1 = λ d name. err Error.decode;
  read_segment = λ d name. err Error.decode;
  write_manifest = λ durable name epoch m d. (ok tt, set_insert Name-discrete name d);
  write_segment = λ durable name epoch seg d. (ok tt, set_insert Name-discrete name d);
  append = λ name op d. (ok tt, set_insert Name-discrete name d);
  flush = λ name d. (ok tt, d);
  flush_and_sync = λ name d. (ok tt, d);
  read_all = λ d name. ok [];
  try_lock = λ name d. (ok true, d);
}

-- Whole numbers, with factors in halves.
abbrev pub halves : Float ℕ
halves = record {
  of_ℕ = λ n. n;
  add = λ a b. a + b;
  mul = λ a b. a * b / 2;
  div = λ a b. a / b;
  lt = ltb;
  le = leb;
  infinity = 1000000;
}

abbrev pub tiers : TierConfig ℕ
tiers = record {
  min_merge = 2;
  max_merge = 4;
  bucket_low = 1;
  bucket_high = 3;
  max_merged_len = 100;
}

abbrev pub empty_tables : Tables ℕ ℕ Batch
empty_tables = record {
  buffer = [];
  segments = [];
  tombstones = [];
  buffer_ids = [];
  superseded = [];
  owners = some [];
  segment_ids = [];
  next_seg_id = 0;
}

pub empty-IsValid : IsValid ℕ_discrete (laws.entries) empty_tables
unfolding live_segment_of get superseded_in contains items_of zip
empty-IsValid = record {
  lockstep = refl;
  ascending = omega arith;
  fresh = λ s j h. refl;
  indexed = λ j. refl;
  single = λ j. omega arith;
  revived = λ j h. refl;
  buried = λ j h. refl;
  tracked = refl;
  bounded = λ j s h. absurd (cc);
  owned = λ j. tt;
  moved = λ j h. refl;
}

abbrev pub ops : List (Op ℕ ℕ)
ops = Op.add 1 10 ∷ Op.add 2 20 ∷ Op.add 1 11 ∷ Op.add 3 30 ∷ Op.delete 2 ∷ Op.add 4 40 ∷ []

-- Ids 1 and 2 in segment 0, 1 again and 3 in segment 1, 2 deleted, 4 in the buffer.
abbrev pub tables : Tables ℕ ℕ Batch
tables = record {
  buffer = (4, 40) ∷ [];
  segments = ((1, 10) ∷ (2, 20) ∷ []) ∷ ((1, 11) ∷ (3, 30) ∷ []) ∷ [];
  tombstones = 2 ∷ [];
  buffer_ids = 4 ∷ [];
  superseded = (0, 2 ∷ 1 ∷ []) ∷ [];
  owners = some ((3, 1) ∷ (1, 1) ∷ []);
  segment_ids = 0 ∷ 1 ∷ [];
  next_seg_id = 2;
}

replay-ops : replay ℕ_discrete store 2 ops empty_tables ≡ tables
unfolding replay ℕ_discrete contains get set_insert insert set_remove add_superseded
replay-ops = refl

pub tables-IsValid : IsValid ℕ_discrete (laws.entries) tables
tables-IsValid =
    subst (IsValid ℕ_discrete (laws.entries)) replay-ops
      (replay-history ℕ_discrete store laws 2 ops empty_tables empty-IsValid).0

abbrev pub writer : Writer (List Name) ℕ ℕ ℕ Batch
writer = record {
  tables = tables;
  dir = wal_path 3 ∷ manifest_path ∷ [];
  published = snapshot empty_tables;
  wal = wal_path 3;
  epoch = 3;
  sync = SyncPolicy.fsync;
  flush_threshold = 2;
  tiering = tiers;
  auto_compact = true;
  persisted_ids = 0 ∷ [];
  poisoned = false;
  lock = true;
}

abbrev pub both : List ℕ
both = 0 ∷ 1 ∷ []

pub both-Distinct : Distinct both
unfolding contains ℕ_discrete
both-Distinct = (refl, (refl, tt))

pub both_picked : select tables.segments both ≡ some tables.segments
unfolding select
both_picked = refl
