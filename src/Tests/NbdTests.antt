-- ===== src/Tests/NbdTests.antt =====
-- The theorems on the NBD server at concrete inputs.
use temporal_nbd.Prelude.{
  List, Option, none, is_err, ℕ, ◌+◌, ◌/◌, ◌≡◌, ◌≢◌, ◌≤◌, ◌<◌, refl, Bool, true, false, some, [],
  ◌∷◌, ◌++◌, arith, ok, length, ◌<>◌, into_bytes,
}
use temporal_nbd.Errors.{eio}
use temporal_nbd.Transport.Mock.{mock_transport}
use temporal_nbd.Engine.Operations.{caching_engine}
use temporal_nbd.Transport.Mock.Laws.{mock_store}
use temporal_nbd.Bridge.{read, write, handle_request, offset_len_to_lba}
use temporal_nbd.Nbd.Wire.{
  RequestHeader, UnixStream, unexpected_eof, read_request_header, validate_range,
}
use temporal_nbd.Nbd.WireLaws.{request_bytes, IsHeader, read_request_header-request_bytes}
use temporal_nbd.Nbd.Range.{validate_range-Translates}
use temporal_nbd.Nbd.Server.{continue, Turn, Setting, Server, serve_read, serve_blocking}
use temporal_nbd.Nbd.Termination.{serve_blocking_stops}
use temporal_nbd.Nbd.Replies.{Replied, serve_read_unframed}
use temporal_nbd.Nbd.Device.{configure_device}
use temporal_nbd.Nbd.DeviceLaws.{is_some, device_calls, run_calls, configure_device_calls}
use temporal_nbd.Nbd.ReadYourWrites.{Responds, handle_read-write}
use temporal_nbd.Tests.Setup.{payload, engine-IsValid, clock, engine, geometry, geometry-IsSized}

abbrev setting : Setting
setting = record {
  E = caching_engine mock_transport clock;
  geometry = geometry;
  closed = "channel closed";
  dropped = "channel closed";
  show_io = λ x. "socket";
}

-- A read of the bytes 4 to 12.
abbrev header : RequestHeader
header = record {
  cmd_type = 0;
  handle = 1 ∷ 2 ∷ 3 ∷ 4 ∷ 5 ∷ 6 ∷ 7 ∷ 8 ∷ [];
  offset_bytes = 4;
  length_bytes = 8;
}

header-IsHeader : IsHeader header
header-IsHeader = record {
  cmd_bound = omega arith;
  handle_length = refl;
  offset_bound = omega arith;
  length_bound = omega arith;
}

abbrev stream : UnixStream
stream = record {
  incoming = request_bytes header ++ (9 ∷ []);
  ending = unexpected_eof;
  outgoing = [];
  write_errors = [];
}

abbrev server : Bool → Server setting
server running = record { stream = stream; queue = record { engine = engine; running = running } }

in_volume : validate_range geometry 4 8 ≡ ok tt
unfolding validate_range
in_volume = refl

validate_range-Translates_example :
    (offset_len_to_lba 4 8 4 ≡ ok (4 / 4, 8 / 4)) × (0 < 8 / 4) × (4 / 4 + 8 / 4 ≤ 16)
validate_range-Translates_example =
    validate_range-Translates geometry 4 8 geometry-IsSized (omega arith) in_volume

read_request_header-request_bytes_example :
    read_request_header stream ≡ (ok (some header), record stream { incoming = 9 ∷ [] })
read_request_header-request_bytes_example =
    read_request_header-request_bytes header (9 ∷ []) stream header-IsHeader refl

abbrev turns : ℕ → Turn
turns i = record { shutdown_cancelled = false; engine_cancelled = false }

serve_blocking_stops_example :
    let (flow, s') = serve_blocking setting turns (server true) in
    (flow ≢ continue) × (s'.queue.running ≡ false)
serve_blocking_stops_example = serve_blocking_stops setting turns (server true)

serve_read_unframed_example :
    let message = into_bytes ("bridge queue closed: " <> "channel closed") in
    Replied header eio message (server false) (serve_read setting false header (server false))
    × (0 < length message)
serve_read_unframed_example = serve_read_unframed setting header (server false) refl refl in_volume

-- Every call succeeds and is recorded.
abbrev recorded : ℕ → ℕ → ℕ → List (ℕ × ℕ) → Option ℕ × List (ℕ × ℕ)
recorded fd request argument calls = (none, calls ++ ((request, argument) ∷ []))

configure_device_calls_example :
    let (answer, s') = configure_device recorded 3 4 geometry 30 [] in
    let (failure, s'') = run_calls recorded 3 (device_calls 4 geometry 30) [] in
    (s' ≡ s'') × (is_err answer ≡ is_some failure)
configure_device_calls_example = configure_device_calls recorded 3 4 geometry 30 []

written_in_volume : validate_range geometry 20 8 ≡ ok tt
unfolding validate_range
written_in_volume = refl

handle_read-write_example :
    let E = caching_engine mock_transport clock in
    let written = (handle_request E 4 (write 20 payload) engine).2 in
    Responds payload (handle_request E 4 (read 20 8) written).0
handle_read-write_example =
    handle_read-write (mock_store 4) clock 20 payload engine engine-IsValid (omega arith)
      written_in_volume
