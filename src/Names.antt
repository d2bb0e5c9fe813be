-- ===== src/Names.antt =====
-- File names, `wal_path` to `index_sidecar_name` of src/lib.rs. A name is its list of bytes.
mod Decimal
pub mod RoundTrip
pub mod Temporary
pub use Decimal.{AllDigits, AllDigits-decimal, parse-decimal}
unfoldable pub use Decimal.{decimal, parse_u64}
use Prim.Native.Char.{code}
use Prim.Native.String.{String}
use segstore.Base.{
  ℕ, Bool, true, false, ◌&&◌, ◌||◌, not, List, [], ◌∷◌, ◌++◌, Option, none, some, ite, ℕ_discrete,
  ltb, leb, ◌==◌, if◌then◌else◌, is_empty,
}
use segstore.Base.Result.{
  Result, ok, err, invalid_config, kind_empty, kind_characters, ◌>>=◌, ◌>>◌, guard, or_panic,
}

abbrev pub Name : Type 0
Name = List ℕ

abbrev pub bytes : String → Name
bytes String.[] = []
bytes (String.◌∷◌ c s) = code c ∷ bytes s

abbrev pub wal_prefix : Name
wal_prefix = bytes "segstore.wal."

abbrev pub legacy_wal_path : Name
legacy_wal_path = bytes "segstore.wal"

abbrev pub legacy_ckpt_path : Name
legacy_ckpt_path = bytes "segstore.ckpt"

abbrev pub manifest_path : Name
manifest_path = bytes "segstore.manifest"

abbrev pub lock_path : Name
lock_path = bytes "segstore.lock"

abbrev pub seg_prefix : Name
seg_prefix = bytes "segstore.seg."

-- Where an atomic write to the name keeps its bytes until they are complete.
abbrev pub tmp_path : Name → Name
tmp_path name = name ++ bytes ".tmp"

abbrev pub idx_prefix : Name
idx_prefix = bytes "segstore.idx."

unfoldable pub wal_path : ℕ → Name
wal_path epoch = wal_prefix ++ decimal epoch

unfoldable pub seg_path : ℕ → Name
seg_path id = seg_prefix ++ decimal id

-- `str::strip_prefix`
unfoldable pub strip_prefix : Name → Name → Option Name
strip_prefix [] s = some s
strip_prefix (p ∷ ps) [] = none
strip_prefix (p ∷ ps) (c ∷ cs) = ite (ℕ_discrete p c) (strip_prefix ps cs) none

-- `str::split_once`
unfoldable pub split_once : ℕ → Name → Option (Name × Name)
split_once sep [] = none
split_once sep (c ∷ cs) =
    ite (ℕ_discrete c sep) (some ([], cs))
      (elim (split_once sep cs) [ none ↦ none | some (a, b) ↦ some (c ∷ a, b) ])

unfoldable pub Name-discrete : Discrete Name
Name-discrete = hlevel ℕ_discrete

-- `str::strip_suffix(".tmp")`
unfoldable pub strip_tmp : Name → Option Name
strip_tmp [] = none
strip_tmp (c ∷ cs) =
    ite (Name-discrete (c ∷ cs) (bytes ".tmp")) (some [])
      (elim (strip_tmp cs) [ none ↦ none | some a ↦ some (c ∷ a) ])

abbrev pub id_of_parts : Option (Name × Name) → Option ℕ
id_of_parts none = none
id_of_parts (some (id, kind)) = if is_empty kind then none else parse_u64 id

abbrev pub id_after_prefix : Option Name → Option ℕ
id_after_prefix none = none
id_after_prefix (some rest) = id_of_parts (split_once b'.' rest)

-- Both `?` return `none`.
unfoldable pub idx_seg_id : Name → Option ℕ
idx_seg_id name = id_after_prefix (strip_prefix idx_prefix name)

abbrev pub is_kind_byte : ℕ → Bool
is_kind_byte b =
    (leb b'0' b && leb b b'9')
    || (leb b'A' b && leb b b'Z')
    || (leb b'a' b && leb b b'z')
    || (b == b'_')
    || (b == b'-')

abbrev pub all {ℓ} : {A : Type ℓ} → (A → Bool) → List A → Bool
all p [] = true
all p (x ∷ xs) = p x && all p xs

unfoldable pub validate_index_kind : Name → Result (Unit {0})
validate_index_kind kind = do
  guard (not (is_empty kind)) (invalid_config kind_empty)
  guard (all is_kind_byte kind) (invalid_config kind_characters)

unfoldable pub index_sidecar_name : ℕ → Name → Result Name
unfolding validate_index_kind
index_sidecar_name id kind = do
  validate_index_kind kind
  ok (idx_prefix ++ (decimal id ++ (b'.' ∷ kind)))

abbrev pub index_name : ℕ → Name → Result Name
index_name id kind = or_panic (index_sidecar_name id kind)
