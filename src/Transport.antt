-- ===== src/Transport.antt =====
-- The trait `BackendTransport` of src/engine.rs, as a record of state-passing operations, and
-- what a volume behind it keeps: a block for each address.
pub mod Blocks
pub mod Laws
pub mod Batches
pub mod Mock
use temporal_nbd.Prelude.{
  ℕ, zero, suc, ◌+◌, ◌≡◌, Bool, List, [], ◌∷◌, ◌++◌, ◌==◌, if◌then◌else◌, Result,
}
use temporal_nbd.Errors.{TransportError}

abbrev pub Bytes : Type 0
Bytes = List ℕ

pub record BlockWrite : Type 0 where
  pub lba : ℕ
  pub block_data : Bytes

pub record BackendTransport : Type 1 where
  pub State : Type 0
  pub read_blocks : ℕ → ℕ → State → Result Bytes TransportError × State
  pub write_batch : List BlockWrite → State → Result (Unit {0}) TransportError × State
  pub disconnect : State → Result (Unit {0}) TransportError × State

-- The contents of a volume: the block at each address.
abbrev pub Volume : Type 0
Volume = ℕ → Bytes

-- The volume after one block is written.
abbrev pub store : ℕ → Bytes → Volume → Volume
store lba block v j = if j == lba then block else v j

-- The volume after the writes of a batch, in order.
abbrev pub store_all : List BlockWrite → Volume → Volume
store_all [] v = v
store_all (w ∷ ws) v = store_all ws (store w.lba w.block_data v)

-- The bytes of `count` blocks from address `start` on.
abbrev pub blocks : Volume → ℕ → ℕ → Bytes
blocks v start zero = []
blocks v start (suc count) = v start ++ blocks v (suc start) count
