-- ===== src/Names/RoundTrip.antt =====
-- What the name builders write, the collector's parsers read back.
use mathlib.Core.Path.{subst}
use segstore.Base.{
  ℕ, ◌^◌, ◌<◌, ◌≡◌, refl, true, false, [], ◌∷◌, ◌++◌, some, arith, if_pos, ℕ_discrete, is_empty,
  Bool-cases, inl, inr, ◌⊎◌, ap, ◌∙◌,
}
use segstore.Base.Result.{ok, err, invalid_config, kind_empty, kind_characters}
use segstore.Names.{
  Name, idx_prefix, strip_prefix, split_once, idx_seg_id, index_sidecar_name, decimal,
  parse-decimal, AllDigits, AllDigits-decimal, id_after_prefix, id_of_parts, all, is_kind_byte,
}

pub strip_prefix-append : (p s : Name) → strip_prefix p (p ++ s) ≡ some s
unfolding strip_prefix
strip_prefix-append [] s = refl
strip_prefix-append (c ∷ p) s = rw (if_pos (ℕ_discrete c c) refl) (strip_prefix-append p s)

pub split_once-digits :
    (cs kind : Name) → AllDigits cs → split_once b'.' (cs ++ (b'.' ∷ kind)) ≡ some (cs, kind)
unfolding split_once
split_once-digits [] kind a = if_pos (ℕ_discrete b'.' b'.') refl _ _
split_once-digits (c ∷ cs) kind a = ground (arith, split_once-digits cs kind a.2)

pub idx_seg_id-append :
    (id : ℕ) (kind : Name)
    → id < 2 ^ 64
    → is_empty kind ≡ false
    → idx_seg_id (idx_prefix ++ (decimal id ++ (b'.' ∷ kind))) ≡ some id
unfolding idx_seg_id
idx_seg_id-append id kind h ne =
    ap id_after_prefix (strip_prefix-append idx_prefix (decimal id ++ (b'.' ∷ kind)))
    ∙ ap id_of_parts (split_once-digits (decimal id) kind (AllDigits-decimal id))
    ∙ rw ne (parse-decimal id h)

-- `index_sidecar_name` names exactly the kinds that are non-empty and made of the documented bytes.
pub index_sidecar_name_cases :
    (id : ℕ) (kind : Name)
    → ((is_empty kind ≡ false)
        × (all is_kind_byte kind ≡ true)
        × (index_sidecar_name id kind ≡ ok (idx_prefix ++ (decimal id ++ (b'.' ∷ kind)))))
      ⊎ ((is_empty kind ≡ true) × (index_sidecar_name id kind ≡ err (invalid_config kind_empty)))
      ⊎ ((is_empty kind ≡ false)
          × (all is_kind_byte kind ≡ false)
          × (index_sidecar_name id kind ≡ err (invalid_config kind_characters)))
unfolding index_sidecar_name
index_sidecar_name_cases id [] = inr (inl (refl, refl))
index_sidecar_name_cases id (c ∷ kind) = elim (Bool-cases (all is_kind_byte (c ∷ kind))) [
  | inl good ↦ inl (refl, good, rw good)
  | inr bad ↦ inr (inr (refl, bad, rw bad))
]

-- For a segment id below 2^64, `idx_seg_id` maps every name that `index_sidecar_name` accepts back
-- to the id it was made for.
pub idx_seg_id-index_sidecar_name :
    (id : ℕ) (kind name : Name)
    → id < 2 ^ 64
    → index_sidecar_name id kind ≡ ok name
    → idx_seg_id name ≡ some id
idx_seg_id-index_sidecar_name id kind name h e = elim (index_sidecar_name_cases id kind) [
  | inl (ne, good, named) ↦
      subst (λ n. idx_seg_id n ≡ some id) (cc) (idx_seg_id-append id kind h ne)
  | inr (inl (_, refused)) ↦ cc
  | inr (inr (_, _, refused)) ↦ cc
]
