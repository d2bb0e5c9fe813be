-- ===== src/Directory.antt =====
-- What src/sidecar.rs and `SegmentCatalog` of src/lib.rs ask of `durability::Directory`: files of
-- bytes under names. It is a parameter, in its state `D`, of every definition that calls it.
use segstore.Base.{ℕ, ◌≡◌, ◌≢◌, Bool, true, false, List, Option}
use segstore.Base.Result.{Result, ok, ◌>>=◌}
use segstore.Base.Exec.{Exec}
use segstore.Names.{Name, tmp_path}

-- A failed call may have changed the state. `File` is an open file, and `FilePath` a `PathBuf`.
pub record Directory (D File FilePath : Type 0) : Type 0 where
  pub exists : D → Name → Bool
  pub open_file : D → Name → Result File
  pub read_to_end : File → Result (List ℕ)
  pub atomic_write : Name → List ℕ → Exec D (Unit {0})
  pub delete : Name → Exec D (Unit {0})
  pub file_path : Name → Option FilePath

-- `open_file`, then `read_to_end`
abbrev pub contents :
    {D File FilePath : Type 0} → Directory D File FilePath → D → Name → Result (List ℕ)
contents dir d name = dir.open_file d name >>= λ file. dir.read_to_end file

-- What the program relies on: a write that returns is what a read then finds, a delete that returns
-- leaves no file, and whether they return or fail, a delete touches no other name and a write no other
-- name but that of its temporary file.
pub record DirectoryLaws {D File FilePath : Type 0} (dir : Directory D File FilePath) : Type 0 where
  pub exists-atomic_write :
      (name : Name) (bytes : List ℕ) (d : D)
      → (dir.atomic_write name bytes d).0 ≡ ok tt
      → dir.exists (dir.atomic_write name bytes d).1 name ≡ true
  pub contents-atomic_write :
      (name : Name) (bytes : List ℕ) (d : D)
      → (dir.atomic_write name bytes d).0 ≡ ok tt
      → contents dir (dir.atomic_write name bytes d).1 name ≡ ok bytes
  pub exists-delete :
      (name : Name) (d : D)
      → (dir.delete name d).0 ≡ ok tt
      → dir.exists (dir.delete name d).1 name ≡ false
  pub atomic_write_elsewhere :
      (name other : Name) (bytes : List ℕ) (d : D)
      → name ≢ other
      → tmp_path name ≢ other
      → (dir.exists (dir.atomic_write name bytes d).1 other ≡ dir.exists d other)
        × (contents dir (dir.atomic_write name bytes d).1 other ≡ contents dir d other)
  pub delete_elsewhere :
      (name other : Name) (d : D)
      → name ≢ other
      → (dir.exists (dir.delete name d).1 other ≡ dir.exists d other)
        × (contents dir (dir.delete name d).1 other ≡ contents dir d other)
