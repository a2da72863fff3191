-- ===== src/Tests/ConversationTests.antt =====
-- A client of the server, at concrete inputs.
use temporal_nbd.Prelude.{
  ℕ, ◌%◌, ◌<◌, ◌≢◌, sym, ◌∙◌, length, ◌==◌, if◌then◌else◌, ◌≡◌, refl, true, List, [], ◌∷◌, ◌++◌,
  arith, All, String,
}
use temporal_nbd.Transport.{Bytes}
use temporal_nbd.Transport.Mock.Laws.{mock_store}
use temporal_nbd.Bridge.{BridgeResponse, disconnect}
use temporal_nbd.Bridge.Spec.{Device, Step}
use temporal_nbd.Bridge.Represents.{device_of}
use temporal_nbd.Nbd.Wire.{IoError, unexpected_eof}
use temporal_nbd.Nbd.Server.{stop, Setting, Server, serve_blocking}
use temporal_nbd.Nbd.Exchange.{closing, NbdRequest, IsRequest, all_sent, Exchanges}
use temporal_nbd.Nbd.Requests.{over_engine, IsReady}
use temporal_nbd.Nbd.Rounds.{undisturbed}
use temporal_nbd.Nbd.Conversation.{serve_blocking_converses}
use temporal_nbd.Tests.Setup.{clock, engine, engine-IsValid, payload, geometry}

abbrev pub show_io : IoError → String
show_io x = "socket"

abbrev pub ask_for : ℕ → ℕ → Bytes → ℕ → NbdRequest
ask_for code offset bytes len = record {
  header = record {
    cmd_type = code;
    handle = code ∷ 2 ∷ 3 ∷ 4 ∷ 5 ∷ 6 ∷ 7 ∷ 8 ∷ [];
    offset_bytes = offset;
    length_bytes = len;
  };
  payload = bytes;
}

-- A write of the bytes 20 to 28, a read of them, a flush, a read that is not aligned, and a trim,
-- which is not known.
abbrev pub requests : List NbdRequest
requests =
    ask_for 1 20 payload 8
    ∷ ask_for 0 20 [] 8
    ∷ ask_for 3 0 [] 0
    ∷ ask_for 0 3 [] 8
    ∷ ask_for 4 0 [] 8
    ∷ []

pub ask_for-IsRequest :
    (code offset : ℕ) (bytes : Bytes) (len : ℕ)
    → (code < 65536) × (code ≢ 2) × (offset < 65536) × (len < 65536)
    → length bytes ≡ (if code == 1 then len else 0)
    → IsRequest (ask_for code offset bytes len)
ask_for-IsRequest code offset bytes len b l =
    let plain : code % 65536 ≡ code = omega arith in
    record {
      header_ok = record {
        cmd_bound = omega arith;
        handle_length = refl;
        offset_bound = omega arith;
        length_bound = omega arith;
      };
      payload_length = rw plain l;
      stays = λ h. b.1 (sym plain ∙ h);
    }

pub requests-IsRequest : All IsRequest requests
requests-IsRequest = (
  ask_for-IsRequest 1 20 payload 8 (omega arith, (λ h. omega arith), omega arith, omega arith) refl,
  (
    ask_for-IsRequest 0 20 [] 8 (omega arith, (λ h. omega arith), omega arith, omega arith) refl,
    (
      ask_for-IsRequest 3 0 [] 0 (omega arith, (λ h. omega arith), omega arith, omega arith) refl,
      (
        ask_for-IsRequest 0 3 [] 8 (omega arith, (λ h. omega arith), omega arith, omega arith) refl,
        (
          ask_for-IsRequest 4 0 [] 8 (omega arith, (λ h. omega arith), omega arith, omega arith)
              refl,
          tt,
        ),
      ),
    ),
  ),
)

abbrev pub setting : Setting
setting = over_engine (mock_store 4) clock geometry "channel closed" "channel closed" show_io

abbrev pub server : Server setting
server = record {
  stream = record {
    incoming = all_sent requests ++ [];
    ending = unexpected_eof;
    outgoing = [];
    write_errors = [];
  };
  queue = record { engine = engine; running = true };
}

server-IsReady :
    IsReady (mock_store 4) clock geometry "channel closed" "channel closed" show_io server
server-IsReady = record {
  valid = engine-IsValid;
  same_geometry = refl;
  running = refl;
  writable = refl;
  closes = refl;
}

serve_blocking_converses_example :
    let (flow, s') = serve_blocking setting (λ _. undisturbed) server in
    (flow ≡ stop)
    × (d : Device) × (replies : Bytes) × (r : BridgeResponse) × Exchanges geometry
        (device_of (mock_store 4) engine)
        d
        requests
        replies
    × (s'.stream.outgoing ≡ [] ++ replies)
    × Step geometry d (device_of (mock_store 4) s'.queue.engine) disconnect r
serve_blocking_converses_example =
    serve_blocking_converses (mock_store 4) clock geometry "channel closed" "channel closed" show_io
      requests [] server server-IsReady requests-IsRequest (closing refl) refl
