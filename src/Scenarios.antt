-- ===== src/Scenarios.antt =====
-- The unit tests of src/engine.rs, src/bridge.rs and src/create.rs as functions into Bool, over the
-- definitions here.
pub mod EngineRuns
pub mod LargeRuns
pub mod BridgeRuns
pub mod CreateRuns
