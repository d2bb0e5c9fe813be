-- ===== src/Names/Temporary.antt =====
-- The reserved names of src/lib.rs and the temporary files of an atomic write.
use mathlib.Core.Path.{sym, ap, ◌∙◌}
use mathlib.Core.Option.{some-injective}
use segstore.Base.{ℕ, ◌≡◌, ◌≢◌, false, true, [], ◌∷◌, ◌++◌, arith, refl, inl, inr, append_assoc}
use segstore.Base.Result.{ok, ok-injective}
use segstore.Names.{
  Name, bytes, tmp_path, idx_prefix, strip_prefix, split_once, index_sidecar_name, decimal,
  AllDigits-decimal, all, is_kind_byte,
}
use segstore.Names.RoundTrip.{strip_prefix-append, split_once-digits, index_sidecar_name_cases}

-- No kind ends in `.tmp`.
kind_tmp : (kind : Name) → all is_kind_byte (kind ++ bytes ".tmp") ≡ false
kind_tmp [] = refl
kind_tmp (c ∷ kind) = ground (arith, kind_tmp kind)

-- What follows the id in a name.
reserved_parts :
    (id : ℕ) (kind name : Name)
    → index_sidecar_name id kind ≡ ok name
    → (all is_kind_byte kind ≡ true) × (name ≡ idx_prefix ++ (decimal id ++ (b'.' ∷ kind)))
reserved_parts id kind name e = elim (index_sidecar_name_cases id kind) [
  | inl (ne, good, named) ↦ (good, ok-injective (sym e ∙ named))
  | inr (inl (_, refused)) ↦ cc
  | inr (inr (_, _, refused)) ↦ cc
]

same_kind :
    (s t : ℕ) (k l : Name)
    → idx_prefix ++ (decimal s ++ (b'.' ∷ k)) ≡ idx_prefix ++ (decimal t ++ (b'.' ∷ l))
    → k ≡ l
same_kind s t k l e =
    let rest : decimal s ++ (b'.' ∷ k) ≡ decimal t ++ (b'.' ∷ l) = some-injective _ _ (
      sym (strip_prefix-append idx_prefix (decimal s ++ (b'.' ∷ k)))
      ∙ ap (strip_prefix idx_prefix) e
      ∙ strip_prefix-append idx_prefix (decimal t ++ (b'.' ∷ l))) in
    ap (λ p. p.1)
      (some-injective _ _ (
        sym (split_once-digits (decimal s) k (AllDigits-decimal s))
        ∙ ap (split_once b'.') rest
        ∙ split_once-digits (decimal t) l (AllDigits-decimal t)))

-- The temporary file of a reserved name has no reserved name.
pub reserved_apart :
    (s t : ℕ) (k l m n : Name)
    → index_sidecar_name s k ≡ ok m
    → index_sidecar_name t l ≡ ok n
    → tmp_path m ≢ n
reserved_apart s t k l m n named_m named_n same =
    let (good_k, is_m) = reserved_parts s k m named_m in
    let (good_l, is_n) = reserved_parts t l n named_n in
    let longer : tmp_path m ≡ idx_prefix ++ (decimal s ++ (b'.' ∷ (k ++ bytes ".tmp"))) =
      ap tmp_path is_m ∙ simp (append_assoc) in
    let kinds : k ++ bytes ".tmp" ≡ l =
      same_kind s t (k ++ bytes ".tmp") l (sym longer ∙ same ∙ is_n) in
    absurd (ground (arith, ap (all is_kind_byte) kinds, kind_tmp k, good_l))
