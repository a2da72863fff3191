-- ===== src/Nbd.antt =====
-- src/nbd.rs: the requests of the kernel's NBD client over a socket.
pub mod Wire
pub mod Range
pub mod WireLaws
pub mod Server
pub mod Termination
pub mod Replies
pub mod Exchange
pub mod StepLaws
pub mod Requests
pub mod Commands
pub mod Rounds
pub mod Farewell
pub mod Loop
pub mod Writing
pub mod Taking
pub mod Interrupted
pub mod Leaving
pub mod Prefix
pub mod Interruptions
pub mod Conversation
pub mod ReadYourWrites
pub mod Device
pub mod DeviceLaws
pub mod Serve
