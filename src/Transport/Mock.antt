-- ===== src/Transport/Mock.antt =====
-- `MockTransport`, the in-memory transport of the tests in src/engine.rs.
pub mod Laws
use temporal_nbd.Prelude.{
  ℕ, zero, suc, ◌+◌, ◌*◌, Bool, true, false, Option, none, some, List, [], ◌∷◌, ◌++◌, map, ◌==◌,
  if◌then◌else◌, Result, ok, err, replicate, is_empty, saturating_add,
}
use temporal_nbd.BTree.{BTreeMap, lookup, insert}
use temporal_nbd.Errors.{TransportError}
use temporal_nbd.Transport.{Bytes, BlockWrite, BackendTransport}

pub record MockTransport : Type 0 where
  pub block_size : ℕ
  pub backend : BTreeMap Bytes
  pub read_calls : List (ℕ × ℕ)
  pub write_batches : List (List ℕ)
  pub write_calls : ℕ
  pub fail_on_write_calls : List ℕ
  pub fail_writes : List TransportError
  pub disconnected : Bool

abbrev pub new : ℕ → MockTransport
new block_size = record {
  block_size = block_size;
  backend = [];
  read_calls = [];
  write_batches = [];
  write_calls = 0;
  fail_on_write_calls = [];
  fail_writes = [];
  disconnected = false;
}

abbrev pub with_block : ℕ → ℕ → MockTransport → MockTransport
with_block lba fill m = record m { backend = insert lba (replicate m.block_size fill) m.backend }

-- The block at an address: zeros where none was written.
abbrev pub block_at : MockTransport → ℕ → Bytes
block_at m lba = elim (lookup lba m.backend) [
  | some block ↦ block
  | none ↦ replicate m.block_size 0
]

-- The loop over `0..block_count`, which extends `out` block by block.
pub read_loop : MockTransport → ℕ → ℕ → Bytes → Bytes
read_loop m lba zero out = out
read_loop m lba (suc count) out = read_loop m (suc lba) count (out ++ block_at m lba)

unfoldable pub read_blocks : ℕ → ℕ → MockTransport → Result Bytes TransportError × MockTransport
unfolding read_loop
read_blocks start_lba block_count m = (
  ok (read_loop m start_lba block_count []),
  record m { read_calls = m.read_calls ++ ((start_lba, block_count) ∷ []) },
)

-- The failure that a call injects, by the two queues, and the queues that are left.
pub injected :
    ℕ → List ℕ → List TransportError → Option TransportError × List ℕ × List TransportError
injected call [] [] = (none, [], [])
injected call [] (e ∷ es) = (some e, [], es)
injected call (c ∷ cs) [] = if c == call then (none, cs, []) else (none, c ∷ cs, [])
injected call (c ∷ cs) (e ∷ es) = if c == call then (some e, cs, es) else (none, c ∷ cs, e ∷ es)

pub insert_writes : List BlockWrite → BTreeMap Bytes → BTreeMap Bytes
insert_writes [] d = d
insert_writes (w ∷ ws) d = insert_writes ws (insert w.lba w.block_data d)

unfoldable pub write_batch :
    List BlockWrite → MockTransport → Result (Unit {0}) TransportError × MockTransport
unfolding injected insert_writes
write_batch writes m =
    let calls : ℕ = saturating_add m.write_calls 1 in
    let (failure, on_calls, failures) = injected calls m.fail_on_write_calls m.fail_writes in
    let m' : MockTransport = record m {
      write_calls = calls;
      fail_on_write_calls = on_calls;
      fail_writes = failures;
    } in
    elim failure [
      | some e ↦ (err e, m')
      | none ↦ (
        ok tt,
        record m' {
          write_batches = m.write_batches ++ (map (λ w. w.lba) writes ∷ []);
          backend = insert_writes writes m.backend;
        },
      )
    ]

unfoldable pub disconnect : MockTransport → Result (Unit {0}) TransportError × MockTransport
disconnect m = (ok tt, record m { disconnected = true })

abbrev pub mock_transport : BackendTransport
mock_transport = record {
  State = MockTransport;
  read_blocks = read_blocks;
  write_batch = write_batch;
  disconnect = disconnect;
}
