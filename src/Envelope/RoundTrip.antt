-- ===== src/Envelope/RoundTrip.antt =====
-- `SidecarEnvelope::encode` against `decode` of src/lib.rs.
use segstore.Base.{
  ℕ, zero, suc, ◌+◌, ◌/◌, ◌^◌, ◌≡◌, ◌<◌, true, List, [], ◌∷◌, ◌++◌, take, drop, length, leb, ltb,
  ◌==◌, refl, ap, ap₂, ◌∙◌, arith, append_assoc, length-append,
}
use segstore.Base.Assoc.{eqb}
use segstore.Base.Result.{ok}
use segstore.Names.{Name-discrete}
use segstore.Envelope.{
  le_bytes, from_le, slice, same_bytes, encode, decode, check_header, sidecar_envelope_crc,
}

take-length : (n : ℕ) (xs ys : List ℕ) → length xs ≡ n → take n (xs ++ ys) ≡ xs
take-length zero [] ys e = refl
take-length zero (x ∷ xs) ys e = absurd (omega arith)
take-length (suc n) [] ys e = absurd (omega arith)
take-length (suc n) (x ∷ xs) ys e = ap (◌∷◌ x) (take-length n xs ys (omega arith))

drop-length : (k m : ℕ) (xs ys : List ℕ) → k ≡ length xs + m → drop k (xs ++ ys) ≡ drop m ys
drop-length k m [] ys e = ap (λ n. drop n ys) (omega arith)
drop-length zero m (x ∷ xs) ys e = absurd (omega arith)
drop-length (suc k) m (x ∷ xs) ys e = drop-length k m xs ys (omega arith)

length-le_bytes : (n v : ℕ) → length (le_bytes n v) ≡ n
unfolding le_bytes
length-le_bytes zero v = refl
length-le_bytes (suc n) v = ap suc (length-le_bytes n (v / 256))

from_le-le_bytes4 : (v : ℕ) → v < 2 ^ 32 → from_le (le_bytes 4 v) ≡ v
unfolding le_bytes from_le
from_le-le_bytes4 v h = omega arith

from_le-le_bytes8 : (v : ℕ) → v < 2 ^ 64 → from_le (le_bytes 8 v) ≡ v
unfolding le_bytes from_le
from_le-le_bytes8 v h = omega arith

abbrev frame : List ℕ → List ℕ → List ℕ → List ℕ → List ℕ → List ℕ → List ℕ
frame m v s l c t = (m ++ (v ++ (s ++ l))) ++ (c ++ t)

module _ (m v s l c t : List ℕ) (m8 : length m ≡ 8) (v4 : length v ≡ 4) (s8 : length s ≡ 8)
    (l4 : length l ≡ 4) (c4 : length c ≡ 4) where
  flat : (frame m v s l c t) ≡ m ++ (v ++ (s ++ (l ++ (c ++ t))))
  flat =
      append_assoc m (v ++ (s ++ l)) (c ++ t)
      ∙ ap (λ r. m ++ r)
          (append_assoc v (s ++ l) (c ++ t) ∙ ap (λ r. v ++ r) (append_assoc s l (c ++ t)))

  head24 : length (m ++ (v ++ (s ++ l))) ≡ 24
  head24 = omega (
    arith,
    length-append m (v ++ (s ++ l)),
    length-append v (s ++ l),
    length-append s l,
    m8,
    v4,
    s8,
    l4,
  )

  after_m :
      (k n : ℕ) → k ≡ 8 + n → drop k (frame m v s l c t) ≡ drop n (v ++ (s ++ (l ++ (c ++ t))))
  after_m k n e = ap (drop k) flat ∙ drop-length k n m _ (omega (arith, e, m8))

  after_v : (k n : ℕ) → k ≡ 12 + n → drop k (frame m v s l c t) ≡ drop n (s ++ (l ++ (c ++ t)))
  after_v k n e =
      after_m k (4 + n) (omega (arith, e)) ∙ drop-length (4 + n) n v _ (omega (arith, v4))

  after_s : (k n : ℕ) → k ≡ 20 + n → drop k (frame m v s l c t) ≡ drop n (l ++ (c ++ t))
  after_s k n e =
      after_v k (8 + n) (omega (arith, e)) ∙ drop-length (8 + n) n s _ (omega (arith, s8))

  after_l : (k n : ℕ) → k ≡ 24 + n → drop k (frame m v s l c t) ≡ drop n (c ++ t)
  after_l k n e =
      after_s k (4 + n) (omega (arith, e)) ∙ drop-length (4 + n) n l _ (omega (arith, l4))

  after_c : (k n : ℕ) → k ≡ 28 + n → drop k (frame m v s l c t) ≡ drop n t
  after_c k n e =
      after_l k (4 + n) (omega (arith, e)) ∙ drop-length (4 + n) n c _ (omega (arith, c4))

  fields :
      (take 8 (frame m v s l c t) ≡ m)
      × (slice 8 12 (frame m v s l c t) ≡ v)
      × (slice 12 20 (frame m v s l c t) ≡ s)
      × (slice 20 24 (frame m v s l c t) ≡ l)
      × (slice 24 28 (frame m v s l c t) ≡ c)
      × (take 24 (frame m v s l c t) ≡ m ++ (v ++ (s ++ l)))
      × (drop 28 (frame m v s l c t) ≡ t)
      × (length (frame m v s l c t) ≡ 28 + length t)
  fields = (
    ap (take 8) flat ∙ take-length 8 m _ m8,
    ap (take 4) (after_m 8 0 refl) ∙ take-length 4 v _ v4,
    ap (take 8) (after_v 12 0 refl) ∙ take-length 8 s _ s8,
    ap (take 4) (after_s 20 0 refl) ∙ take-length 4 l _ l4,
    ap (take 4) (after_l 24 0 refl) ∙ take-length 4 c _ c4,
    take-length 24 (m ++ (v ++ (s ++ l))) (c ++ t) head24,
    after_c 28 0 refl,
    omega (arith, head24, length-append (m ++ (v ++ (s ++ l))) (c ++ t), length-append c t, c4),
  )

eqb_refl : {K : Type 0} (dec : Discrete K) (k : K) → eqb dec k k ≡ true
eqb_refl dec k = ground arith

same_bytes_refl : (a : List ℕ) → same_bytes a a ≡ true
same_bytes_refl a = eqb_refl Name-discrete a

==_refl : (a : ℕ) → (a == a) ≡ true
==_refl a = ground arith

-- `decode` on bytes that pass every check.
decode-passing :
    (crc : List ℕ → ℕ) (magic : List ℕ) (version segment_id : ℕ) (recipe bytes : List ℕ) (n : ℕ)
    → leb 28 (length bytes) ≡ true
    → same_bytes (take 8 bytes) magic ≡ true
    → (from_le (slice 8 12 bytes) == version) ≡ true
    → (from_le (slice 12 20 bytes) == segment_id) ≡ true
    → from_le (slice 20 24 bytes) ≡ n
    → ltb (28 + n) (2 ^ 64) ≡ true
    → leb (28 + n) (length bytes) ≡ true
    → (sidecar_envelope_crc crc bytes == from_le (slice 24 28 bytes)) ≡ true
    → same_bytes (slice 28 (28 + n) bytes) recipe ≡ true
    → decode crc magic version segment_id recipe bytes ≡ ok (drop (28 + n) bytes)
unfolding decode check_header
decode-passing crc magic version segment_id recipe bytes n a b c d e f g h i =
    rw (a, b, c, d, e, f, g, h, i) refl

module _ (crc : List ℕ → ℕ) (small : (bytes : List ℕ) → crc bytes < 2 ^ 32) where
  -- With a checksum below 2^32, a magic of eight bytes, a version below 2^32, a segment id below
  -- 2^64 and a recipe shorter than 2^32, `encode` returns bytes, and `decode` under the same
  -- expectations returns the payload from them.
  pub decode-encode :
      (magic : List ℕ) (version segment_id : ℕ) (recipe payload : List ℕ)
      → length magic ≡ 8
      → version < 2 ^ 32
      → segment_id < 2 ^ 64
      → length recipe < 2 ^ 32
      → (bytes : List ℕ) × (encode crc magic version segment_id recipe payload ≡ ok bytes)
        × (decode crc magic version segment_id recipe bytes ≡ ok payload)
  unfolding encode decode check_header
  decode-encode magic version segment_id recipe payload m8 hv hs hr =
      let v = le_bytes 4 version in
      let s = le_bytes 8 segment_id in
      let l = le_bytes 4 (length recipe) in
      let t = recipe ++ payload in
      let z =
        fields magic v s l (le_bytes 4 0) t m8 (length-le_bytes 4 version)
          (length-le_bytes 8 segment_id) (length-le_bytes 4 (length recipe))
          (length-le_bytes 4 0) in
      let sum = crc ((magic ++ (v ++ (s ++ l))) ++ t) in
      let c = le_bytes 4 sum in
      let f =
        fields magic v s l c t m8 (length-le_bytes 4 version) (length-le_bytes 8 segment_id)
          (length-le_bytes 4 (length recipe)) (length-le_bytes 4 sum) in
      let fits : ltb (length recipe) (2 ^ 32) ≡ true = ground (arith, hr) in
      (
        frame magic v s l c t,
        rw (fits) (ap ok (rw (z.5, z.6) refl)),
        decode-passing crc magic version segment_id recipe (frame magic v s l c t) (length recipe)
              (rw f.7 (ground arith)) (rw f.0 (same_bytes_refl magic))
              (rw (f.1, from_le-le_bytes4 version hv) (==_refl version))
              (rw (f.2, from_le-le_bytes8 segment_id hs) (==_refl segment_id))
              (ap from_le f.3 ∙ from_le-le_bytes4 (length recipe) hr) (ground (arith, hr))
              (rw (f.7, length-append recipe payload) (ground arith))
              (rw (f.4, from_le-le_bytes4 sum (small _)) (rw (f.5, f.6) (==_refl sum)))
              (ap (λ b. same_bytes b recipe)
                  (ap₂ take (omega arith) f.6 ∙ take-length (length recipe) recipe payload refl)
                ∙ same_bytes_refl recipe)
            ∙ ap ok (
                after_c magic v s l c t m8 (length-le_bytes 4 version)
                  (length-le_bytes 8 segment_id) (length-le_bytes 4 (length recipe))
                  (length-le_bytes 4 sum) (28 + length recipe) (length recipe) refl
                ∙ drop-length (length recipe) 0 recipe payload (omega arith)),
      )
