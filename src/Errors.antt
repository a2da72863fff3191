-- ===== src/Errors.antt =====
-- src/errors.rs: the errors of the transport and of the engine.
use temporal_nbd.Prelude.{ℕ, String, Bool, true, false}

pub data TransportError : Type 0 where
  retryable : String → TransportError
  terminal : String → TransportError

abbrev pub is_retryable : TransportError → Bool
is_retryable (retryable message) = true
is_retryable (terminal message) = false

pub data EngineError : Type 0 where
  invalid_request : String → EngineError
  io : String → EngineError

-- The numbers of `libc::EINVAL` and `libc::EIO`.
abbrev pub einval : ℕ
einval = 22

abbrev pub eio : ℕ
eio = 5

abbrev pub errno : EngineError → ℕ
errno (invalid_request message) = einval
errno (io message) = eio
