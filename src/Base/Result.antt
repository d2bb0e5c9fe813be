-- ===== src/Base/Result.antt =====
-- `PersistenceResult`: the errors that the program builds or passes on.
use Prim.Native.Nat.{ℕ}
use mathlib.Core.Path.{◌≡◌, refl, ap}
use mathlib.Core.Logic.{◌⊎◌, inl, inr}
use mathlib.Core.Bool.{Bool, true, false}
use mathlib.Core.Option.{Option, none, some}

-- The texts of `Format`, `InvalidConfig`, `NotFound` and `InvalidState` errors.
pub data Message : Type 0 where
  payload_too_large : Message
  over_blob_limit : Message → Message
  other_format : Message
  unsupported_manifest_extension : Message
  duplicate_live_id : ℕ → Message
  no_ownership_metadata : Message
  segment_length_mismatch checkpoint_truncated checkpoint_magic : Message
  checkpoint_version : ℕ → Message
  payload_len_overflow : Message
  envelope_header_truncated envelope_magic envelope_version envelope_segment_id : Message
  recipe_length_overflow envelope_recipe_truncated envelope_recipe recipe_too_large : Message
  legacy_wal legacy_checkpoint fsync_needs_filesystem : Message
  kind_empty kind_characters : Message
  store_poisoned : Message
  unknown_segment : ℕ → Message
  codec_cannot_encode : Message

-- `durability::PersistenceError`. An index out of bounds stops the thread with no such value: that
-- outcome is `panicked`.
pub data Error : Type 0 where
  format invalid_config not_found invalid_state : Message → Error
  crc_mismatch : ℕ → ℕ → Error
  decode io lock_failed panicked : Error

pub data Result {ℓ} (A : Type ℓ) : Type ℓ where
  ok : A → Result A
  err : Error → Result A

abbrev pub is_ok {ℓ} : {A : Type ℓ} → Result A → Bool
is_ok (ok a) = true
is_ok (err e) = false

-- `.ok()`
abbrev pub to_option {ℓ} : {A : Type ℓ} → Result A → Option A
to_option (ok a) = some a
to_option (err e) = none

-- `unwrap_or_else(|e| panic!(..))`
abbrev pub or_panic {ℓ} : {A : Type ℓ} → Result A → Result A
or_panic (ok a) = ok a
or_panic (err e) = err panicked

-- `?` on an `Option`
abbrev pub and_then {κ ℓ} : {T : Type κ} {U : Type ℓ} → Option T → (T → Option U) → Option U
and_then none next = none
and_then (some value) next = next value

-- The `?` operator: the first error is the outcome.
infixl 5 ◌>>=◌ ◌>>◌
abbrev pub ◌>>=◌ {κ ℓ} : {T : Type κ} {U : Type ℓ} → Result T → (T → Result U) → Result U
err failure >>= next = err failure
ok value >>= next = next value

abbrev pub guard : Bool → Error → Result (Unit {0})
guard false failure = err failure
guard true failure = ok tt

abbrev pub ◌>>◌ {ℓ} : {T : Type ℓ} → Result (Unit {0}) → Result T → Result T
first >> next = first >>= λ _. next

pub Result-cases {ℓ} :
    {A : Type ℓ} (r : Result A) → ((a : A) × (r ≡ ok a)) ⊎ ((e : Error) × (r ≡ err e))
Result-cases (ok a) = inl (a, refl)
Result-cases (err e) = inr (e, refl)

pub and_then-some {κ ℓ} :
    {T : Type κ} {U : Type ℓ} (o : Option T) (next : T → Option U) {u : U}
    → and_then o next ≡ some u
    → (t : T) × (o ≡ some t) × (next t ≡ some u)
and_then-some none next e = absurd (cc)
and_then-some (some t) next e = (t, refl, e)

pub ok-injective {ℓ} : {A : Type ℓ} {a b : A} → ok a ≡ ok b → a ≡ b
ok-injective {a = a} e = ap (λ r. elim r [ ok x ↦ x | err _ ↦ a ]) e
