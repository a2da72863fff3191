-- ===== src/Scenarios/BridgeRuns.antt =====
-- The tests at the end of src/bridge.rs over an engine that only notes its disconnect.
use temporal_nbd.Prelude.{
  ℕ, ◌*◌, Bool, true, false, ◌&&◌, List, [], ◌∷◌, ◌==◌, Result, ok, err, length, replicate,
}
use temporal_nbd.Errors.{EngineError}
use temporal_nbd.Engine.Operations.{BlockDeviceEngine}
use temporal_nbd.Bridge.{
  BridgeResponse, read, disconnect, arrived, cancelled, offset_len_to_lba, run_engine_loop,
}
use temporal_nbd.Scenarios.EngineRuns.{fails_invalid}

-- `FakeEngine`: its state is whether it was disconnected.
abbrev pub fake_engine : BlockDeviceEngine
fake_engine = record {
  State = Bool;
  read_blocks = λ start_lba block_count s. (ok (replicate (block_count * 4096) 0), s);
  write_blocks = λ start_lba payload s. (ok tt, s);
  flush = λ s. (ok tt, s);
  disconnect = λ s. (ok tt, true);
}

unfoldable pub offset_len_to_lba_rejects_unaligned_offset : Bool
offset_len_to_lba_rejects_unaligned_offset = fails_invalid (offset_len_to_lba 3 4096 4096)

abbrev pub translates_to : ℕ → ℕ → Result (ℕ × ℕ) EngineError → Bool
translates_to lba count (ok range) = (range.0 == lba) && (range.1 == count)
translates_to lba count (err x) = false

unfoldable pub offset_len_to_lba_translates_aligned_ranges : Bool
offset_len_to_lba_translates_aligned_ranges = translates_to 2 3 (offset_len_to_lba 8192 12288 4096)

-- The only response, by its error and the length of its data.
abbrev pub only_response : ℕ → ℕ → List BridgeResponse → Bool
only_response errno len [] = false
only_response errno len (r ∷ []) = (r.error_number == errno) && (length r.response_data == len)
only_response errno len (r ∷ s ∷ rs) = false

unfoldable pub run_engine_loop_disconnects_on_command : Bool
run_engine_loop_disconnects_on_command =
    let (responses, disconnected) =
      run_engine_loop fake_engine 4096 (arrived disconnect ∷ []) false in
    only_response 0 0 responses && disconnected

unfoldable pub read_command_returns_data : Bool
read_command_returns_data =
    let (responses, disconnected) =
      run_engine_loop fake_engine 4096 (arrived (read 0 4096) ∷ cancelled ∷ []) false in
    only_response 0 4096 responses
