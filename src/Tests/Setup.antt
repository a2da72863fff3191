-- ===== src/Tests/Setup.antt =====
-- A small volume behind a `MockTransport`, and an engine with one dirty block over it, as in the
-- tests of src/engine.rs.
use temporal_nbd.Prelude.{ℕ, suc, ◌+◌, ◌*◌, ◌<◌, [], ◌∷◌, arith, refl}
use temporal_nbd.Errors.{terminal}
use temporal_nbd.Geometry.{VolumeGeometry}
use temporal_nbd.Geometry.Laws.{IsSized}
use temporal_nbd.Transport.{Bytes}
use temporal_nbd.Transport.Mock.{MockTransport, new, with_block, mock_transport}
use temporal_nbd.Transport.Mock.Laws.{mock_store}
use temporal_nbd.Engine.State.{EngineConfig, Engine}
use temporal_nbd.Engine.Flushing.{Clock}
use temporal_nbd.Engine.View.{IsValid}

abbrev pub geometry : VolumeGeometry
geometry = record { size_bytes = 64; block_size_bytes = 4; total_blocks = 16 }

pub geometry-IsSized : IsSized geometry
geometry-IsSized = omega arith

abbrev pub transport : MockTransport
transport = with_block 1 0x11 (with_block 2 0x22 (with_block 3 0x33 (new 4)))

-- The same volume, which refuses the first batch for good.
abbrev pub refusing : MockTransport
refusing = record transport { fail_writes = terminal "no space" ∷ [] }

-- A mark of two blocks, 50 ms until the deadline, 1 ms between attempts.
abbrev pub config : EngineConfig
config = record {
  dirty_high_watermark_blocks = 2;
  flush_retry_deadline = 50_000_000;
  flush_retry_interval = 1_000_000;
}

pub tick : (i : ℕ) → (i + 1) * 1_000_000 < (suc i + 1) * 1_000_000
tick i = omega arith

abbrev pub clock : Clock mock_transport
clock = record { elapsed = λ s i. (i + 1) * 1_000_000; progress = λ s i. tick i }

abbrev pub block : Bytes
block = 0xaa ∷ 0xbb ∷ 0xcc ∷ 0xdd ∷ []

abbrev pub engine_over : MockTransport → Engine mock_transport
engine_over t = record {
  geometry = geometry;
  transport = t;
  config = config;
  dirty = (2, block) ∷ [];
}

abbrev pub engine : Engine mock_transport
engine = engine_over transport

pub transport-IsSound : (mock_store 4).IsSound transport
unfolding mock_store
transport-IsSound = (refl, (refl, (refl, (refl, tt))))

pub refusing-IsSound : (mock_store 4).IsSound refusing
unfolding mock_store
refusing-IsSound = (refl, (refl, (refl, (refl, tt))))

pub engine_over-IsValid :
    (t : MockTransport) → (mock_store 4).IsSound t → IsValid (mock_store 4) (engine_over t)
engine_over-IsValid t h = record {
  block_eq = refl;
  sized = geometry-IsSized;
  sorted = (tt, tt);
  cached = ((omega arith, refl), tt);
  watermark_pos = omega arith;
  sound = h;
}

pub engine-IsValid : IsValid (mock_store 4) engine
engine-IsValid = engine_over-IsValid transport transport-IsSound

-- Two blocks for the addresses 5 and 6.
abbrev pub payload : Bytes
payload = 1 ∷ 2 ∷ 3 ∷ 4 ∷ 5 ∷ 6 ∷ 7 ∷ 8 ∷ []
