-- ===== src/Blob/Checked.antt =====
-- The buffer of `read_checkpoint_payload_into` of src/lib.rs.
use segstore.Base.{
  ℕ, ◌≡◌, ◌≢◌, ◌⊎◌, inl, inr, List, [], take, length, ltb, arith, refl, Bool-cases, ℕ_discrete,
}
use segstore.Base.Result.{Result, ok, err, Error, Result-cases, ◌>>=◌}
use segstore.Blob.{
  CheckpointPayloadHeader, expected_crc, verify_payload, read_payload_into_reader,
  read_payload_header, read_checkpoint_payload_into,
}

verify_payload-ok :
    (crc : List ℕ → ℕ) (h : CheckpointPayloadHeader) (payload : List ℕ) (u : Unit {0})
    → verify_payload crc h payload ≡ ok u
    → (length payload ≡ h.payload_len) × (expected_crc crc h payload ≡ h.checksum)
unfolding verify_payload
verify_payload-ok crc h payload u e = ground (arith, e)

verify_payload-err :
    (crc : List ℕ → ℕ) (h : CheckpointPayloadHeader) (payload : List ℕ) (e : Error)
    → verify_payload crc h payload ≡ err e
    → (length payload ≢ h.payload_len) ⊎ (expected_crc crc h payload ≢ h.checksum)
unfolding verify_payload
verify_payload-err crc h payload e refused = elim (ℕ_discrete (length payload) h.payload_len) [
  | no differ ↦ inl differ
  | yes same ↦ elim (ℕ_discrete (expected_crc crc h payload) h.checksum) [
    | no differ ↦ inr differ
    | yes sums ↦ absurd (ground (arith, refused, same, sums))
  ]
]

module _ (max_payload : ℕ) (crc : List ℕ → ℕ) where
  abbrev header_of : Result (List ℕ) → Result (CheckpointPayloadHeader × List ℕ)
  header_of opened = opened >>= λ f. read_payload_header max_payload f

  -- The bytes after the header are the payload that it announces.
  abbrev Whole : CheckpointPayloadHeader → List ℕ → Type 0
  Whole h payload = (length payload ≡ h.payload_len) × (expected_crc crc h payload ≡ h.checksum)

  abbrev Broken : CheckpointPayloadHeader → List ℕ → Type 0
  Broken h payload = (length payload ≢ h.payload_len) ⊎ (expected_crc crc h payload ≢ h.checksum)

  -- What `read_checkpoint_payload_into` leaves. On an error the buffer is as it was if no header was
  -- read, and empty if one was.
  abbrev pub Checked : Result (List ℕ) → List ℕ → Result (Unit {0}) × List ℕ → Type 0
  Checked opened buffer (ok u, payload) =
      (h : CheckpointPayloadHeader) × (rest : List ℕ) × (header_of opened ≡ ok (h, rest))
      × (payload ≡ take h.payload_len rest)
      × Whole h payload
  Checked opened buffer (err e, payload) =
      ((header_of opened ≡ err e) × (payload ≡ buffer))
      ⊎ ((h : CheckpointPayloadHeader) × (rest : List ℕ) × (header_of opened ≡ ok (h, rest))
          × Broken h (take h.payload_len rest)
          × (payload ≡ []))

  -- When `read_checkpoint_payload_into` succeeds, the file was opened, its header parsed, and the
  -- buffer holds the bytes after it, as many as the header says and with the checksum it states;
  -- when it fails, either the file was not opened or its header did not parse, and the buffer is as
  -- it was, or the header parsed, the bytes after it are too few or do not have that checksum, and
  -- the buffer is empty.
  pub read_checkpoint_payload_into-Checked :
      (opened : Result (List ℕ)) (buffer : List ℕ)
      → Checked opened buffer (read_checkpoint_payload_into max_payload crc opened buffer)
  unfolding read_checkpoint_payload_into read_payload_into_reader
  read_checkpoint_payload_into-Checked (err e) buffer = inl (refl, refl)
  read_checkpoint_payload_into-Checked (ok f) buffer =
      elim (Result-cases (read_payload_header max_payload f)) [
        | inl ((h, rest), e) ↦
            elim (Bool-cases (ltb (length (take h.payload_len rest)) h.payload_len)) [
              | inl short ↦
                  rw (read_checkpoint_payload_into, e, read_payload_into_reader, short)
                    (inr (h, rest, e, inl (λ whole. ground (arith, short, whole)), refl))
              | inr enough ↦ elim (Result-cases (verify_payload crc h (take h.payload_len rest))) [
                | inl (u, good) ↦
                    rw (read_checkpoint_payload_into, e, read_payload_into_reader, enough, good)
                      (h, rest, e, refl, verify_payload-ok crc h (take h.payload_len rest) u good)
                | inr (x, bad) ↦
                    rw (read_checkpoint_payload_into, e, read_payload_into_reader, enough, bad)
                      (inr (
                        h,
                        rest,
                        e,
                        verify_payload-err crc h (take h.payload_len rest) x bad,
                        refl,
                      ))
              ]
            ]
        | inr (x, e) ↦ rw (read_checkpoint_payload_into, e) (inl (e, refl))
      ]
