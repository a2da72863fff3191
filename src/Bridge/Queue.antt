-- ===== src/Bridge/Queue.antt =====
-- `request` of src/bridge.rs: the way of one request through the queue to the loop and back.
use temporal_nbd.Prelude.{ℕ, Bool, false, not, String, ◌<>◌, if◌then◌else◌, into_bytes}
use temporal_nbd.Errors.{eio}
use temporal_nbd.Engine.Operations.{BlockDeviceEngine}
use temporal_nbd.Bridge.{BridgeCommand, BridgeResponse, handle_request}

-- What stands behind the queue: the engine that `run_engine_loop` owns, and whether that loop still
-- takes requests from its receiver.
pub record BridgeQueue (E : BlockDeviceEngine) : Type 0 where
  pub engine : E.State
  pub running : Bool

abbrev pub eio_response : String → BridgeResponse
eio_response message = record { error_number = eio; response_data = into_bytes message }

-- `closed` and `dropped` are the displays of the errors of tokio's queues. `cancelled` says that
-- the request is in the queue when the receiver goes: the loop meets the cancelled token before it
-- takes the request, or it has ended but still disconnects the engine when the request is sent.
-- Where the loop has ended and `cancelled` is false, the receiver was gone before.
unfoldable pub request :
    (E : BlockDeviceEngine) (block_size : ℕ) (closed dropped : String) (cancelled : Bool)
    → BridgeCommand
    → BridgeQueue E
    → BridgeResponse × BridgeQueue E
request E block_size closed dropped cancelled command queue =
    let s = queue.engine in
    let (response, should_exit, s') = handle_request E block_size command s in
    if not queue.running
    then (
      eio_response (
          if cancelled
          then "bridge response dropped: " <> dropped
          else "bridge queue closed: " <> closed),
      queue,
    )
    else if cancelled
    then (
      eio_response ("bridge response dropped: " <> dropped),
      record { engine = (E.disconnect s).1; running = false },
    )
    else (response, record { engine = s'; running = not should_exit })
