-- ===== src/Bridge.antt =====
-- src/bridge.rs: commands in bytes are turned into block operations of the engine, one at a time,
-- by a loop that ends with a disconnect.
pub mod Acceptance
pub mod Address
pub mod Loop
pub mod Queue
pub mod Represents
pub mod Refinement
pub mod Runs
pub mod Durability
pub mod Spec
use temporal_nbd.Prelude.{
  ℕ, ◌+◌, ◌/◌, Bool, true, false, not, Option, none, some, List, [], ◌∷◌, ◌==◌, if◌then◌else◌, ◌<>◌,
  show, Result, ok, err, ◌>>=◌, ◌>>◌, fail_if, ok_or_else, length, is_multiple_of, to_u32,
}
use temporal_nbd.Errors.{EngineError, invalid_request, errno}
use temporal_nbd.Transport.{Bytes}
use temporal_nbd.Engine.Operations.{BlockDeviceEngine}

pub data BridgeCommand : Type 0 where
  read : (offset_bytes length_bytes : ℕ) → BridgeCommand
  write : (offset_bytes : ℕ) → Bytes → BridgeCommand
  flush : BridgeCommand
  disconnect : BridgeCommand

pub record BridgeResponse : Type 0 where
  pub error_number : ℕ
  pub response_data : Bytes

-- `BridgeResponse::ok`
abbrev pub response_ok : Bytes → BridgeResponse
response_ok bytes = record { error_number = 0; response_data = bytes }

abbrev pub from_error : EngineError → BridgeResponse
from_error e = record { error_number = errno e; response_data = [] }

unfoldable pub offset_len_to_lba : ℕ → ℕ → ℕ → Result (ℕ × ℕ) EngineError
offset_len_to_lba offset_bytes length_bytes block_size = do
  fail_if (block_size == 0) (invalid_request "block size must be > 0")
  fail_if (length_bytes == 0) (invalid_request "request length must be > 0")
  fail_if (not (is_multiple_of offset_bytes block_size)) (
      invalid_request
        ("offset " <> (show offset_bytes <> (" is not aligned to block size " <> show block_size))))
  fail_if (not (is_multiple_of length_bytes block_size)) (
      invalid_request
        ("length " <> (show length_bytes <> (" is not aligned to block size " <> show block_size))))
  block_count ←
      ok_or_else (to_u32 (length_bytes / block_size))
        (invalid_request "block_count does not fit into u32")
  ok (offset_bytes / block_size, block_count)

-- What `handle_request` answers where the engine's operation has no data.
abbrev pub answer_done : Result (Unit {0}) EngineError → BridgeResponse
answer_done (ok _) = response_ok []
answer_done (err x) = from_error x

-- What it answers to a read.
abbrev pub answer_data : Result Bytes EngineError → BridgeResponse
answer_data (ok bytes) = response_ok bytes
answer_data (err x) = from_error x

-- What the loop over the queue meets: a request, or the cancellation of the token. After the last
-- event every sender is gone.
pub data Event : Type 0 where
  arrived : BridgeCommand → Event
  cancelled : Event

module _ (E : BlockDeviceEngine) (block_size : ℕ) where
  -- The response, whether the loop has to exit, and the engine.
  unfoldable pub handle_request : BridgeCommand → E.State → BridgeResponse × Bool × E.State
  handle_request (read offset length_bytes) s =
      elim (offset_len_to_lba offset length_bytes block_size) [
        | ok (start_lba, block_count) ↦
            let (answer, s') = E.read_blocks start_lba block_count s in
            (answer_data answer, false, s')
        | err x ↦ (from_error x, false, s)
      ]
  handle_request (write offset bytes) s =
      elim (offset_len_to_lba offset (length bytes) block_size) [
        | ok (start_lba, block_count) ↦
            let (answer, s') = E.write_blocks start_lba bytes s in (answer_done answer, false, s')
        | err x ↦ (from_error x, false, s)
      ]
  handle_request flush s = let (answer, s') = E.flush s in (answer_done answer, false, s')
  handle_request disconnect s = let (answer, s') = E.disconnect s in (answer_done answer, true, s')

  -- The loop of `run_engine_loop`: the responses that it sends, `did_disconnect`, and the engine.
  unfoldable pub engine_loop : List Event → E.State → List BridgeResponse × Bool × E.State
  engine_loop [] s = ([], false, s)
  engine_loop (cancelled ∷ events) s = ([], false, s)
  engine_loop (arrived command ∷ events) s =
      let (response, should_exit, s') = handle_request command s in
      let rest = engine_loop events s' in
      if should_exit then (response ∷ [], true, s') else (response ∷ rest.0, rest.1, rest.2)

  unfoldable pub run_engine_loop : List Event → E.State → List BridgeResponse × E.State
  run_engine_loop events s =
      let (responses, did_disconnect, s') = engine_loop events s in
      (responses, if did_disconnect then s' else (E.disconnect s').1)
