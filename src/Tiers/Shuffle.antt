-- ===== src/Tiers/Shuffle.antt =====
-- Permutations behind the sorting and bucketing of `next_merge_group` of src/lib.rs.
use mathlib.Core.List.{Permᴰ}
use mathlib.Core.List.Permᴰ as Perm
use segstore.Base.{
  ℕ, ◌≡◌, inl, inr, Bool, List, [], ◌∷◌, ◌++◌, arith, refl, ℕ_discrete, Bool-cases, ap, map,
  insert_by, sort_by,
}
use segstore.Base.Assoc.{contains, contains-append}
use segstore.Tables.Unique.{swap_append}
use segstore.Tables.Select.{Distinct}
use segstore.Payload.{flatten}

module _ {A : Type 0} (le : A → A → Bool) where
  insert_by-perm : (x : A) (l : List A) → Permᴰ (insert_by le x l) (x ∷ l)
  unfolding insert_by
  insert_by-perm x [] = Perm.refl _
  insert_by-perm x (y ∷ l) = elim (Bool-cases (le x y)) [
    | inl e ↦ rw e (Perm.refl _)
    | inr e ↦ rw e (Perm.trans (Perm.cons refl (insert_by-perm x l)) (Perm.swap refl refl))
  ]

  pub sort_by-perm : (l : List A) → Permᴰ (sort_by le l) l
  unfolding sort_by
  sort_by-perm [] = Perm.nil
  sort_by-perm (x ∷ l) =
      Perm.trans (insert_by-perm x (sort_by le l)) (Perm.cons refl (sort_by-perm l))

pub middle : {A : Type 0} (x : A) (ms l : List A) → Permᴰ (ms ++ x ∷ l) (x ∷ (ms ++ l))
middle x [] l = Perm.refl _
middle x (y ∷ ms) l = Perm.trans (Perm.cons refl (middle x ms l)) (Perm.swap refl refl)

pub map-perm : {A B : Type 0} (f : A → B) {l m : List A} → Permᴰ l m → Permᴰ (map f l) (map f m)
map-perm f Perm.nil = Perm.nil
map-perm f (Perm.cons e p) = Perm.cons (ap f e) (map-perm f p)
map-perm f (Perm.swap e g) = Perm.swap (ap f e) (ap f g)
map-perm f (Perm.trans p q) = Perm.trans (map-perm f p) (map-perm f q)

pub flatten-perm : {A : Type 0} {l m : List (List A)} → Permᴰ l m → Permᴰ (flatten l) (flatten m)
flatten-perm Perm.nil = Perm.nil
flatten-perm (Perm.cons e p) = rw e (Perm.append_left _ (flatten-perm p))
flatten-perm (Perm.swap {a = a} {b = b} {l = l} e f) = rw (← e, ← f) (swap_append a b (flatten l))
flatten-perm (Perm.trans p q) = Perm.trans (flatten-perm p) (flatten-perm q)

pub Distinct-front : (l m : List ℕ) → Distinct (l ++ m) → Distinct l
unfolding contains
Distinct-front [] m h = tt
Distinct-front (x ∷ l) m h =
    (ground (arith, h.0, contains-append ℕ_discrete l m x), Distinct-front l m h.1)

pub Distinct-back : (l m : List ℕ) → Distinct (l ++ m) → Distinct m
Distinct-back [] m h = h
Distinct-back (x ∷ l) m h = Distinct-back l m h.1

pub map-append : {A B : Type 0} (f : A → B) (l m : List A) → map f (l ++ m) ≡ map f l ++ map f m
map-append f [] m = refl
map-append f (x ∷ l) m = ap (◌∷◌ (f x)) (map-append f l m)
