-- ===== src/Nbd/ReadYourWrites.antt =====
-- The bridge over a caching engine: a client of the device reads what it has written.
use temporal_nbd.Prelude.{
  ℕ, ◌/◌, ◌≤◌, ◌≡◌, refl, ◌⊎◌, inl, inr, [], Result, ok, err, length, u32_max,
}
use temporal_nbd.Errors.{EngineError, eio}
use temporal_nbd.Transport.{BackendTransport, Bytes}
use temporal_nbd.Transport.Laws.{BlockStore}
use temporal_nbd.Engine.State.{Engine}
use temporal_nbd.Engine.Flushing.{Clock}
use temporal_nbd.Engine.Reading.{read_blocks}
use temporal_nbd.Engine.Operations.{write_blocks, caching_engine}
use temporal_nbd.Engine.View.{IsValid}
use temporal_nbd.Engine.WriteLaws.{Fits}
use temporal_nbd.Engine.ReadLoop.{Reads, errno-ReadFailed}
use temporal_nbd.Engine.Coherence.{read-write_blocks}
use temporal_nbd.Bridge.{
  BridgeResponse, read, write, handle_request, answer_data, offset_len_to_lba,
}
use temporal_nbd.Nbd.Wire.{validate_range}
use temporal_nbd.Nbd.Range.{validate_range_exact, validate_range-Translates}

-- The response has these bytes, or it is an I/O error without data.
abbrev pub Responds : Bytes → BridgeResponse → Type 0
Responds bytes r =
    ((r.error_number ≡ 0) × (r.response_data ≡ bytes))
    ⊎ ((r.error_number ≡ eio) × (r.response_data ≡ []))

Responds-Reads :
    (T : BackendTransport) (bytes : Bytes) (answer : Result Bytes EngineError)
    → Reads T bytes answer
    → Responds bytes (answer_data answer)
Responds-Reads T bytes (ok out) h = inl (refl, h)
Responds-Reads T bytes (err x) failed = inr (errno-ReadFailed T x failed, refl)

module _ {T : BackendTransport} {block_size : ℕ} (S : BlockStore T block_size) (C : Clock T)
    (offset : ℕ) (bytes : Bytes) (e : Engine T) (v : IsValid S e) where
  abbrev size : ℕ
  size = e.geometry.block_size_bytes

  module _ (lba count : ℕ)
      (there : offset_len_to_lba offset (length bytes) size ≡ ok (lba, count)) where
    written_state :
        (handle_request (caching_engine T C) size (write offset bytes) e).2
        ≡ (write_blocks T C lba bytes e).1
    unfolding handle_request
    written_state = rw (there, handle_request) refl

    read_response :
        (e' : Engine T)
        → (handle_request (caching_engine T C) size (read offset (length bytes)) e').0
          ≡ answer_data (read_blocks T lba count e').0
    unfolding handle_request
    read_response e' = rw (there, handle_request) refl

  -- For an engine that satisfies its invariant, a range of at most 32 bits of length that the
  -- server lets through is written and then read: whatever the write was answered, also where the
  -- flush that it forced has failed, the read answers with the bytes that were written, or with an
  -- I/O error and no data.
  pub handle_read-write :
      length bytes ≤ u32_max
      → validate_range e.geometry offset (length bytes) ≡ ok tt
      → let E = caching_engine T C in
        let written = (handle_request E size (write offset bytes) e).2 in
        Responds bytes (handle_request E size (read offset (length bytes)) written).0
  handle_read-write b h =
      let lba = offset / size in
      let count = length bytes / size in
      let there = validate_range-Translates e.geometry offset (length bytes) v.sized b h in
      let range = (validate_range_exact e.geometry offset (length bytes) v.sized).0.0 h in
      let fits : Fits e.geometry lba bytes = record {
        some_bytes = range.some_bytes;
        whole = range.whole;
        inside = there.2;
      } in
      rw (written_state lba count there.0, read_response lba count there.0)
        (Responds-Reads T bytes _ (read-write_blocks S C lba bytes e v fits))
