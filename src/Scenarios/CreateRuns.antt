-- ===== src/Scenarios/CreateRuns.antt =====
-- The tests at the end of src/create.rs, over any process.
use Prim.Native.String.{len}
use text.Mathlib.Text.{starts_with}
use temporal_nbd.Prelude.{Bool, ◌&&◌, ltb}
use temporal_nbd.Session.Opening.{same_text}
use temporal_nbd.Create.{CreateService, normalize_endpoint, default_request_id}

unfoldable pub normalize_endpoint_adds_http_when_missing : Bool
normalize_endpoint_adds_http_when_missing =
    same_text (normalize_endpoint "127.0.0.1:7233") "http://127.0.0.1:7233"

unfoldable pub normalize_endpoint_keeps_existing_scheme : Bool
normalize_endpoint_keeps_existing_scheme =
    same_text (normalize_endpoint "http://127.0.0.1:7233") "http://127.0.0.1:7233"
    && same_text (normalize_endpoint "https://example.com:443") "https://example.com:443"

unfoldable pub default_request_id_has_expected_prefix : (W : CreateService) → W.State → Bool
default_request_id_has_expected_prefix W w =
    let request_id = default_request_id W w in
    starts_with request_id "temporal-nbd-create-"
    && ltb (len "temporal-nbd-create-") (len request_id)
