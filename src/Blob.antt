-- ===== src/Blob.antt =====
-- The payload readers of src/lib.rs for checkpoint blobs: `SegmentPayloadInfo`,
-- `CheckpointPayloadHeader` and `read_checkpoint_payload*`. `crc` stands for `crc32fast`, and
-- `max_payload` for `MAX_CHECKPOINT_PAYLOAD_BYTES` of durability. A reader is the bytes left in it.
pub mod Checked
use segstore.Base.{
  ℕ, ◌+◌, ◌^◌, Bool, true, false, ◌||◌, List, [], ◌∷◌, ◌++◌, take, drop, length, leb, ltb, ◌==◌,
  if◌then◌else◌, min,
}
use segstore.Base.Result.{
  Result, ok, err, Error, format, crc_mismatch, segment_length_mismatch, checkpoint_truncated,
  checkpoint_magic, checkpoint_version, payload_len_overflow, payload_too_large, io, ◌>>=◌, ◌>>◌,
  guard,
}
use segstore.Names.{Name, bytes}
use segstore.Envelope.{le_bytes, from_le, same_bytes, read_exact}

pub record SegmentPayloadInfo : Type 0 where
  pub payload_offset : ℕ
  pub payload_len : ℕ
  pub payload_crc32 : ℕ

pub record CheckpointPayloadHeader : Type 0 where
  pub version : ℕ
  pub last_applied_id : ℕ
  pub payload_len_u64 : ℕ
  pub payload_len : ℕ
  pub checksum : ℕ

abbrev pub checkpoint_magic_bytes : List ℕ
checkpoint_magic_bytes = bytes "VCKP"

abbrev pub checkpoint_header_bytes : ℕ
checkpoint_header_bytes = 28

module _ (crc : List ℕ → ℕ) where
  unfoldable pub verify_segment_payload : SegmentPayloadInfo → List ℕ → Result (Unit {0})
  verify_segment_payload info payload = do
    guard (length payload == info.payload_len) (format segment_length_mismatch)
    guard (crc payload == info.payload_crc32) (crc_mismatch info.payload_crc32 (crc payload))

  -- The checksum of the payload, with the header fields in version 2.
  unfoldable pub expected_crc : CheckpointPayloadHeader → List ℕ → ℕ
  unfolding le_bytes
  expected_crc h payload =
      if h.version == 1
      then crc payload
      else crc (
          checkpoint_magic_bytes
          ++ (le_bytes 4 h.version
              ++ (le_bytes 8 h.last_applied_id ++ (le_bytes 8 h.payload_len_u64 ++ payload))))

  unfoldable pub verify_payload : CheckpointPayloadHeader → List ℕ → Result (Unit {0})
  unfolding expected_crc
  verify_payload h payload = do
    guard (length payload == h.payload_len) (format checkpoint_truncated)
    guard (expected_crc h payload == h.checksum) (crc_mismatch h.checksum (expected_crc h payload))

  abbrev pub payload_info_of : CheckpointPayloadHeader → List ℕ → SegmentPayloadInfo
  payload_info_of h payload = record {
    payload_offset = checkpoint_header_bytes;
    payload_len = h.payload_len;
    payload_crc32 = crc payload;
  }

  -- `take(payload_len).read_to_end`, then the checks. What the buffer holds after an error is second.
  unfoldable pub read_payload_into_reader :
      List ℕ → CheckpointPayloadHeader → Result (Unit {0}) × List ℕ
  unfolding verify_payload
  read_payload_into_reader reader h =
      let payload = take h.payload_len reader in
      if ltb (length payload) h.payload_len
      then (err (format checkpoint_truncated), payload)
      else (verify_payload h payload, payload)

module _ (max_payload : ℕ) where
  unfoldable pub read_payload_header : List ℕ → Result (CheckpointPayloadHeader × List ℕ)
  unfolding from_le
  read_payload_header f0 = do
    magic ← read_exact 4 f0
    guard (same_bytes magic.0 checkpoint_magic_bytes) (format checkpoint_magic)
    version ← read_exact 4 magic.1
    guard ((from_le version.0 == 1) || (from_le version.0 == 2))
        (format (checkpoint_version (from_le version.0)))
    last ← read_exact 8 version.1
    len ← read_exact 8 last.1
    guard (ltb (from_le len.0) (2 ^ 64)) (format payload_len_overflow)
    guard (leb (from_le len.0) max_payload) (format payload_too_large)
    sum ← read_exact 4 len.1
    ok (
      record {
        version = from_le version.0;
        last_applied_id = from_le last.0;
        payload_len_u64 = from_le len.0;
        payload_len = from_le len.0;
        checksum = from_le sum.0;
      },
      sum.1,
    )

  module _ (crc : List ℕ → ℕ) where
    abbrev pub clear_on_error : Result (Unit {0}) × List ℕ → Result (Unit {0}) × List ℕ
    clear_on_error (ok u, payload) = (ok u, payload)
    clear_on_error (err e, payload) = (err e, [])

    abbrev pub read_into :
        Result (CheckpointPayloadHeader × List ℕ) → List ℕ → Result (Unit {0}) × List ℕ
    read_into (err e) payload = (err e, payload)
    read_into (ok (h, rest)) payload = clear_on_error (read_payload_into_reader crc rest h)

    -- `opened` is the outcome of `dir.open_file(path)`.
    unfoldable pub read_checkpoint_payload_into :
        Result (List ℕ) → List ℕ → Result (Unit {0}) × List ℕ
    unfolding read_payload_header
    read_checkpoint_payload_into (err e) payload = (err e, payload)
    read_checkpoint_payload_into (ok f) payload = read_into (read_payload_header f) payload

    abbrev pub read_checkpoint_payload : Result (List ℕ) → Result (List ℕ)
    read_checkpoint_payload opened =
        let r = read_checkpoint_payload_into opened [] in r.0 >>= λ _. ok r.1

    abbrev pub read_checkpoint_payload_info : Result (List ℕ) → Result SegmentPayloadInfo
    read_checkpoint_payload_info opened = opened >>= λ f. read_payload_header f >>= λ h.
        let r = read_payload_into_reader crc h.1 h.0 in
        r.0 >>= λ _. ok (payload_info_of crc h.0 r.1)
