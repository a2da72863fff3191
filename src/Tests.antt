-- ===== src/Tests.antt =====
-- The theorems at concrete inputs, and runs of the tests that stand beside the code.
mod Setup
mod EngineTests
mod RecoveryTests
mod BridgeTests
mod RefinementTests
mod ServiceSetup
mod SessionTests
mod NbdTests
mod ConversationTests
mod CreateTests
mod AttachTests
mod CommandLineTests
mod ScenarioTests
mod OutlastingTests
mod InterruptionTests
mod BuildTests
mod LargeTests
mod LargeReadTests
