-- ===== src/Names/Decimal.antt =====
-- `{id}` of `format!`, and `str::parse::<u64>`, on lists of bytes.
use Prim.Native.Nat.{zero, suc, ◌-◌, ◌/◌, ◌%◌}
use mathlib.Core.Path.{subst}
use segstore.Base.{
  ℕ, ◌+◌, ◌*◌, ◌^◌, ◌<◌, ◌≤◌, ◌≡◌, ◌≢◌, refl, ◌&&◌, List, [], ◌∷◌, ◌++◌, Option, none, some, arith,
  ltb, leb, ◌==◌, if◌then◌else◌, is_empty, Bool-cases, inl, inr,
}

-- Each round drops one digit, so `n + 1` rounds are enough.
unfoldable pub decimal_rounds : ℕ → ℕ → List ℕ
decimal_rounds zero n = []
decimal_rounds (suc f) n =
    let more = decimal_rounds f (n / 10) ++ (48 + n % 10) ∷ [] in
    if ltb n 10 then (48 + n) ∷ [] else more

unfoldable pub decimal : ℕ → List ℕ
unfolding decimal_rounds
decimal n = decimal_rounds (suc n) n

-- The multiplication and the addition are checked: an overflow is an error.
unfoldable pub parse_digits : ℕ → List ℕ → Option ℕ
parse_digits acc [] = some acc
parse_digits acc (c ∷ cs) =
    let rest = parse_digits (acc * 10 + (c - 48)) cs in
    if leb 48 c && leb c 57 && ltb (acc * 10 + (c - 48)) (2 ^ 64) then rest else none

unfoldable pub parse_u64 : List ℕ → Option ℕ
unfolding parse_digits
parse_u64 [] = none
parse_u64 (c ∷ cs) =
    if c == b'+' then (if is_empty cs then none else parse_digits 0 cs) else parse_digits 0 (c ∷ cs)

-- One more digit at the end of a number that parses.
parse_digits-snoc :
    (acc n d : ℕ) (cs : List ℕ)
    → parse_digits acc cs ≡ some n
    → d < 10
    → n * 10 + d < 2 ^ 64
    → parse_digits acc (cs ++ (48 + d) ∷ []) ≡ some (n * 10 + d)
unfolding parse_digits
parse_digits-snoc acc n d [] e hd h = ground arith
parse_digits-snoc acc n d (c ∷ cs) e hd h =
    ground (arith, parse_digits-snoc (acc * 10 + (c - 48)) n d cs)

parse-rounds : (f n : ℕ) → n < f → n < 2 ^ 64 → parse_digits 0 (decimal_rounds f n) ≡ some n
unfolding decimal_rounds
parse-rounds zero n h b = absurd (omega arith)
parse-rounds (suc f) n h b = elim (Bool-cases (ltb n 10)) [
  | inl small ↦ rw small (unfold parse_digits in ground arith)
  | inr big ↦
      let e : n / 10 * 10 + n % 10 ≡ n = omega arith in
      rw big (
        subst (λ k. parse_digits 0 (decimal_rounds f (n / 10) ++ (48 + n % 10) ∷ []) ≡ some k) e
          (parse_digits-snoc 0 (n / 10) (n % 10) (decimal_rounds f (n / 10))
            (parse-rounds f (n / 10) (ground arith) (omega arith)) (omega arith) (omega arith)))
]

abbrev pub AllDigits : List ℕ → Type 0
AllDigits [] = Unit
AllDigits (c ∷ cs) = (48 ≤ c) × (c ≤ 57) × AllDigits cs

AllDigits-snoc : (cs : List ℕ) (d : ℕ) → d < 10 → AllDigits cs → AllDigits (cs ++ (48 + d) ∷ [])
AllDigits-snoc [] d h a = (omega arith, omega arith, tt)
AllDigits-snoc (c ∷ cs) d h a = (a.0, a.1, AllDigits-snoc cs d h a.2)

AllDigits-rounds : (f n : ℕ) → AllDigits (decimal_rounds f n)
unfolding decimal_rounds
AllDigits-rounds zero n = tt
AllDigits-rounds (suc f) n = elim (Bool-cases (ltb n 10)) [
  | inl small ↦ rw small (ground arith)
  | inr big ↦ rw big (
      AllDigits-snoc (decimal_rounds f (n / 10)) (n % 10) (omega arith)
        (AllDigits-rounds f (n / 10)))
]

pub AllDigits-decimal : (n : ℕ) → AllDigits (decimal n)
unfolding decimal
AllDigits-decimal n = AllDigits-rounds (suc n) n

parse_u64-digits :
    (cs : List ℕ) (n : ℕ)
    → AllDigits cs
    → cs ≢ []
    → parse_digits 0 cs ≡ some n
    → parse_u64 cs ≡ some n
unfolding parse_u64
parse_u64-digits [] n a ne e = absurd (ne refl)
parse_u64-digits (c ∷ cs) n a ne e = ground arith

snoc_nonempty : (cs : List ℕ) (d : ℕ) → cs ++ d ∷ [] ≢ []
snoc_nonempty [] d e = cc
snoc_nonempty (c ∷ cs) d e = cc

rounds_nonempty : (f n : ℕ) → decimal_rounds (suc f) n ≢ []
unfolding decimal_rounds
rounds_nonempty f n = elim (Bool-cases (ltb n 10)) [
  | inl small ↦ rw small (λ e. cc)
  | inr big ↦ rw big (snoc_nonempty (decimal_rounds f (n / 10)) _)
]

-- What `format!` prints, `parse` reads back.
pub parse-decimal : (n : ℕ) → n < 2 ^ 64 → parse_u64 (decimal n) ≡ some n
parse-decimal n h =
    unfold decimal in
    parse_u64-digits (decimal_rounds (suc n) n) n (AllDigits-rounds (suc n) n) (rounds_nonempty n n)
      (parse-rounds (suc n) n (omega arith) h)
