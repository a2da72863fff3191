-- ===== src/Nbd/Server.antt =====
-- `serve_blocking` of src/nbd.rs: the loop that reads requests from the socket, passes them to the
-- bridge and writes the replies, and what follows it. The commands to the kernel's device are left
-- out.
use temporal_nbd.Prelude.{
  ℕ, zero, suc, pos, ◌%◌, Bool, not, ◌&&◌, none, some, [], ◌==◌, if◌then◌else◌, String, ◌<>◌, ok,
  err, length,
}
use temporal_nbd.Errors.{einval, eio}
use temporal_nbd.Geometry.{VolumeGeometry}
use temporal_nbd.Transport.{Bytes}
use temporal_nbd.Engine.Operations.{BlockDeviceEngine}
use temporal_nbd.Bridge.{BridgeCommand, read, write, flush, disconnect, BridgeResponse}
use temporal_nbd.Bridge.Queue.{BridgeQueue, request}
use temporal_nbd.Nbd.Wire.{
  RequestHeader, UnixStream, IoError, nbd_cmd_read, nbd_cmd_write, nbd_cmd_disc, nbd_cmd_flush,
  read_exact, read_request_header, write_reply, validate_range,
}

-- How a round ends: with the next one, with a `break`, or with an error and a `break`.
pub data Flow : Type 0 where
  continue : Flow
  stop : Flow
  fail : String → Flow

-- What a round finds of the tokens: whether `shutdown` is cancelled, and whether the receiver of the
-- engine's loop goes with the request in its queue, as the loop meets its own cancelled token first.
pub record Turn : Type 0 where
  pub shutdown_cancelled : Bool
  pub engine_cancelled : Bool

-- What the loop uses: the engine, the volume's geometry, and the displays of errors of tokio's
-- queues and of `io::Error`.
pub record Setting : Type 1 where
  pub E : BlockDeviceEngine
  pub geometry : VolumeGeometry
  pub closed : String
  pub dropped : String
  pub show_io : IoError → String

pub record Server (C : Setting) : Type 0 where
  pub stream : UnixStream
  pub queue : BridgeQueue C.E

module _ (C : Setting) where
  -- A request to the bridge: the response, and the server with the queue after it.
  unfoldable pub ask : Bool → BridgeCommand → Server C → BridgeResponse × Server C
  ask cancelled command server =
      let (response, queue) =
        request C.E C.geometry.block_size_bytes C.closed C.dropped cancelled command server.queue in
      (response, record server { queue = queue })

  -- A reply, with the message of the error where it cannot be written.
  unfoldable pub reply : String → Bytes → ℕ → Bytes → Server C → Flow × Server C
  reply failure handle errno payload server =
      let (answer, stream) = write_reply handle (pos errno) payload server.stream in
      let server' : Server C = record server { stream = stream } in
      elim answer [ ok _ ↦ (continue, server') | err x ↦ (fail (failure <> C.show_io x), server') ]

  unfoldable pub serve_read : Bool → RequestHeader → Server C → Flow × Server C
  serve_read cancelled h server = elim (validate_range C.geometry h.offset_bytes h.length_bytes) [
    | err errno ↦ reply "failed to write read error reply: " h.handle errno [] server
    | ok _ ↦
        let (response, server') = ask cancelled (read h.offset_bytes h.length_bytes) server in
        if (response.error_number == 0) && not (length response.response_data == h.length_bytes)
        then reply "failed to write read-size error reply: " h.handle eio [] server'
        else reply "failed to write read reply: " h.handle response.error_number
            response.response_data server'
  ]

  unfoldable pub serve_write : Bool → RequestHeader → Server C → Flow × Server C
  serve_write cancelled h server =
      let (payload, stream) = read_exact h.length_bytes server.stream in
      let server' : Server C = record server { stream = stream } in
      elim payload [
        | err x ↦ (fail ("failed to read write payload: " <> C.show_io x), server')
        | ok bytes ↦ elim (validate_range C.geometry h.offset_bytes h.length_bytes) [
          | err errno ↦ reply "failed to write write error reply: " h.handle errno [] server'
          | ok _ ↦
              let (response, server'') = ask cancelled (write h.offset_bytes bytes) server' in
              reply "failed to write write reply: " h.handle response.error_number [] server''
        ]
      ]

  unfoldable pub serve_flush : Bool → RequestHeader → Server C → Flow × Server C
  serve_flush cancelled h server =
      let (response, server') = ask cancelled flush server in
      reply "failed to write flush reply: " h.handle response.error_number [] server'

  -- The `match` on the command, whose upper half has flags.
  unfoldable pub serve_request : Bool → RequestHeader → Server C → Flow × Server C
  serve_request cancelled h server =
      let command = h.cmd_type % 65536 in
      if command == nbd_cmd_read
      then serve_read cancelled h server
      else if command == nbd_cmd_write
      then serve_write cancelled h server
      else if command == nbd_cmd_flush
      then serve_flush cancelled h server
      else if command == nbd_cmd_disc
      then (stop, (ask cancelled disconnect server).1)
      else reply "failed to write unsupported-cmd reply: " h.handle einval [] server

  -- One round of the loop.
  unfoldable pub serve_round : Turn → Server C → Flow × Server C
  serve_round turn server =
      let (header, stream) = read_request_header server.stream in
      let server' : Server C = record server { stream = stream } in
      if turn.shutdown_cancelled then (stop, server) else elim header [
        | err x ↦ (fail ("failed to read nbd request header: " <> C.show_io x), server')
        | ok none ↦ (stop, server')
        | ok (some h) ↦ serve_request turn.engine_cancelled h server'
      ]

  -- The loop, of which a round that continues reads a header at least: more rounds than there are
  -- bytes to read are enough.
  unfoldable pub request_loop : ℕ → (ℕ → Turn) → Server C → Flow × Server C
  request_loop zero turns server = (continue, server)
  request_loop (suc fuel) turns server =
      let (flow, server') = serve_round (turns fuel) server in
      elim flow [
        | continue ↦ request_loop fuel turns server'
        | stop ↦ (stop, server')
        | fail message ↦ (fail message, server')
      ]

  -- `serve_blocking` from the loop on: the error of the loop, if any, and the server.
  unfoldable pub serve_blocking : (ℕ → Turn) → Server C → Flow × Server C
  serve_blocking turns server =
      let (flow, server') = request_loop (suc (length server.stream.incoming)) turns server in
      (flow, (ask (turns 0).engine_cancelled disconnect server').1)
