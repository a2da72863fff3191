-- ===== src/Lib.antt =====
-- Verification of temporal-nbd, a client that shows a Temporal volume as a Linux network block
-- device. The kernel's requests pass through four parts, each of which has its modules here.
--
-- * src/nbd.rs, in Nbd: the loop of `serve_blocking` reads request headers from a socket, checks
--   their ranges, asks the bridge and writes replies. Nbd/Wire.antt has `read_request_header`,
--   `write_reply` and `validate_range`, Nbd/Server.antt the loop, one function for each arm of its
--   `match`. The socket is its unread input, its output and the errors of its next writes.
-- * src/bridge.rs, in Bridge: `handle_request` turns bytes into blocks (`offset_len_to_lba`) and
--   calls the engine; `run_engine_loop` does so for one request after the other and disconnects the
--   engine at its end; `request` is the client's side of the queue, in Bridge/Queue.antt.
-- * src/engine.rs, in Engine: `CachingBlockEngine`, a write-back cache of whole blocks over a
--   transport. Engine/State.antt has its state and checks, Engine/Reading.antt `read_blocks`,
--   Engine/Flushing.antt `flush_once` and `flush_with_deadline`, Engine/Operations.antt the other
--   operations and the trait `BlockDeviceEngine`. Geometry.antt has `VolumeGeometry::new`.
-- * src/session.rs, in Session: `VolumeSession`, the transport over gRPC. Session/Backoff.antt has
--   the delays, Session/Retry.antt the loop that `connect_and_open` and the two requests share,
--   Session/Opening.antt and Session/Requests.antt these.
--
-- * src/attach.rs, in Attach.antt: `run_attach` opens the session, puts an engine over it behind the
--   bridge and serves the device with the whole of `serve_blocking` (Nbd/Serve.antt), whose calls that
--   set the device up are in Nbd/Device.antt. What is asked of the kernel is a parameter.
--
-- The command `create-volume` of src/create.rs stands apart, in Create.antt. CommandLine.antt has the
-- arguments of src/main.rs and their conversions. Build.antt has the script build.rs, and
-- Build/Versions.antt the tests of src/lib.rs on the files of the workspace.
--
-- Two abstract views join the parts. Bridge/Spec.antt has a device, with the blocks that a client
-- sees, those that the volume holds and the addresses where the two may differ, and the steps that a
-- request may take on it; Nbd/Exchange.antt has the bytes of requests and replies over such steps.
-- Bridge/Refinement.antt, Bridge/Runs.antt, Nbd/Rounds.antt, Nbd/Conversation.antt and
-- Attach/Laws.antt follow the code from one request up to a whole attachment that nothing interrupts.
-- For cancelled tokens and a socket that fails, Nbd/Taking.antt, Nbd/Leaving.antt, Nbd/Prefix.antt and
-- Attach/Interruptions.antt do the same; Attach/Saving.antt joins this with a session that repeats its
-- requests (Session/Lasting.antt).
--
-- Transport.antt has the trait `BackendTransport` as a record of state-passing operations. What the
-- engine may assume of it is the record `BlockStore` (Transport/Laws.antt): a volume, a function from
-- addresses to blocks, that reads return and acknowledged batches write, while a failed batch may be
-- stored in part. Two transports fill it: `MockTransport` of the unit tests (Transport/Mock.antt),
-- over which the tests here run, and the session (Session/Store.antt), if the service behind it
-- satisfies `VolumeService` (Session/Volume.antt). The abstract view of an engine is the volume of
-- its transport under its dirty blocks (Engine/View.antt).
--
-- Scenarios has the unit tests of src/engine.rs, src/bridge.rs and src/create.rs as functions into
-- Bool, and Tests proves that they hold, with the theorems at concrete inputs.
--
-- Numbers are natural numbers; the checked and saturating operations of the machine integers are
-- written out (Prelude/Words.antt), `usize` having 64 bits. A `BTreeMap` is an association list in
-- ascending order (BTree.antt).
--
-- Loops. `flush_batches` has as much fuel as there are dirty blocks, of which a round removes one at
-- least. The loop to the deadline is recursion on accessibility: the time that is left falls from
-- attempt to attempt, by the law of `Clock`, a parameter. `read_chunks` has as much fuel as blocks are
-- asked for, `write_chunks` as there are writes. The request loop has more fuel than bytes are left
-- to read, of which a round takes a header.
--
-- Parameters. The generated client, tonic and tokio's timers are the record `Service`, `f64` is the
-- record `Floats`, the displays of foreign errors are texts or functions. The outcomes of
-- `tokio::select!` and of cancellation are given from outside, as the sequence of events that a loop
-- meets.
--
-- Not modelled: the parsing of arguments by clap (src/main.rs), the panics of tasks and the signals of
-- systems other than Unix (src/attach.rs), the capacity of the queue (src/bridge.rs), the generated
-- bindings (src/lib.rs), the thread of src/nbd.rs that watches for the cancellation, the closing of
-- descriptors, and what is printed to stderr.
pub mod Prelude
pub mod BTree
pub mod Errors
pub mod Geometry
pub mod Transport
pub mod Engine
pub mod Bridge
pub mod Session
pub mod Nbd
pub mod Create
pub mod Attach
pub mod CommandLine
pub mod Build
pub mod Scenarios
mod Tests
