-- ===== src/Envelope.antt =====
-- `SidecarEnvelope` of src/lib.rs: the framing of a sidecar file. Bytes are numbers, and `crc` stands
-- for `crc32fast`, a parameter with values below 2^32.
pub mod RoundTrip
use segstore.Base.{
  ℕ, zero, suc, ◌+◌, ◌-◌, ◌*◌, ◌/◌, ◌%◌, ◌^◌, Bool, true, false, not, List, [], ◌∷◌, ◌++◌, take,
  drop, length, leb, ltb, ◌==◌, if◌then◌else◌, ℕ_discrete, Option, none, some,
}
use segstore.Base.Assoc.{eqb}
use segstore.Base.Result.{
  Result, ok, err, Error, format, invalid_config, crc_mismatch, envelope_header_truncated,
  envelope_magic, envelope_version, envelope_segment_id, recipe_length_overflow,
  envelope_recipe_truncated, envelope_recipe, recipe_too_large, ◌>>=◌, ◌>>◌, guard, io,
}
use segstore.Names.{Name, Name-discrete}

abbrev pub header_bytes : ℕ
header_bytes = 28

-- `to_le_bytes` and `from_le_bytes`
unfoldable pub le_bytes : ℕ → ℕ → List ℕ
le_bytes zero v = []
le_bytes (suc n) v = v % 256 ∷ le_bytes n (v / 256)

unfoldable pub from_le : List ℕ → ℕ
from_le [] = 0
from_le (b ∷ bs) = b + 256 * from_le bs

-- `&bytes[a..b]`
abbrev pub slice : ℕ → ℕ → List ℕ → List ℕ
slice a b bytes = take (b - a) (drop a bytes)

abbrev pub same_bytes : List ℕ → List ℕ → Bool
same_bytes a b = eqb Name-discrete a b

pub record SidecarPayloadInfo : Type 0 where
  pub payload_offset : ℕ
  pub payload_len : ℕ
  pub crc32 : ℕ

-- `read_exact` on the bytes that are left.
abbrev pub read_exact : ℕ → List ℕ → Result (List ℕ × List ℕ)
read_exact n bytes = if leb n (length bytes) then ok (take n bytes, drop n bytes) else err io

module _ (crc : List ℕ → ℕ) where
  -- The checksum of all but its own field.
  abbrev pub sidecar_envelope_crc : List ℕ → ℕ
  sidecar_envelope_crc bytes = crc (take 24 bytes ++ drop 28 bytes)

  abbrev pub zeroed : List ℕ → ℕ → ℕ → List ℕ → List ℕ → List ℕ
  zeroed magic version segment_id recipe payload =
      (magic ++ (le_bytes 4 version ++ (le_bytes 8 segment_id ++ le_bytes 4 (length recipe))))
      ++ (le_bytes 4 0 ++ (recipe ++ payload))

  abbrev pub with_crc : List ℕ → List ℕ
  with_crc bytes = take 24 bytes ++ (le_bytes 4 (sidecar_envelope_crc bytes) ++ drop 28 bytes)

  unfoldable pub encode : List ℕ → ℕ → ℕ → List ℕ → List ℕ → Result (List ℕ)
  unfolding le_bytes
  encode magic version segment_id recipe payload =
      guard (ltb (length recipe) (2 ^ 32)) (invalid_config recipe_too_large)
      >> ok (with_crc (zeroed magic version segment_id recipe payload))

  -- The checks that `decode` and `payload_info` share, on the header.
  unfoldable pub check_header : List ℕ → ℕ → ℕ → List ℕ → Result (Unit {0})
  unfolding from_le
  check_header magic version segment_id header = do
    guard (same_bytes (take 8 header) magic) (format envelope_magic)
    guard (from_le (slice 8 12 header) == version) (format envelope_version)
    guard (from_le (slice 12 20 header) == segment_id) (format envelope_segment_id)

  unfoldable pub decode : List ℕ → ℕ → ℕ → List ℕ → List ℕ → Result (List ℕ)
  unfolding check_header from_le
  decode magic version segment_id recipe bytes = do
    guard (leb header_bytes (length bytes)) (format envelope_header_truncated)
    check_header magic version segment_id bytes
    guard (ltb (header_bytes + from_le (slice 20 24 bytes)) (2 ^ 64))
        (format recipe_length_overflow)
    guard (leb (header_bytes + from_le (slice 20 24 bytes)) (length bytes))
        (format envelope_recipe_truncated)
    guard (sidecar_envelope_crc bytes == from_le (slice 24 28 bytes))
        (crc_mismatch (from_le (slice 24 28 bytes)) (sidecar_envelope_crc bytes))
    guard
        (same_bytes (slice header_bytes (header_bytes + from_le (slice 20 24 bytes)) bytes) recipe)
        (format envelope_recipe)
    ok (drop (header_bytes + from_le (slice 20 24 bytes)) bytes)

  unfoldable pub payload_info : List ℕ → ℕ → ℕ → List ℕ → List ℕ → ℕ → Result SidecarPayloadInfo
  unfolding check_header from_le
  payload_info magic version segment_id recipe reader sidecar_len = do
    guard (leb header_bytes sidecar_len) (format envelope_header_truncated)
    read ← read_exact header_bytes reader
    check_header magic version segment_id read.0
    guard (ltb (header_bytes + from_le (slice 20 24 read.0)) (2 ^ 64))
        (format recipe_length_overflow)
    guard (leb (header_bytes + from_le (slice 20 24 read.0)) sidecar_len)
        (format envelope_recipe_truncated)
    guard (from_le (slice 20 24 read.0) == length recipe) (format envelope_recipe)
    rest ← read_exact (length recipe) read.1
    guard (same_bytes rest.0 recipe) (format envelope_recipe)
    ok (record {
      payload_offset = header_bytes + from_le (slice 20 24 read.0);
      payload_len = sidecar_len - (header_bytes + from_le (slice 20 24 read.0));
      crc32 = from_le (slice 24 28 read.0);
    })
