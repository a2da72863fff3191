-- ===== src/Tests/RecoveryTests.antt =====
-- A flush over a transport that is busy twice.
use temporal_nbd.Prelude.{
  ℕ, zero, suc, ◌≡◌, refl, ◌⊎◌, inl, inr, String, List, [], ◌∷◌, ok, err, arith,
}
use temporal_nbd.Errors.{TransportError, retryable}
use temporal_nbd.Transport.{BlockWrite}
use temporal_nbd.Transport.Mock.{MockTransport, mock_transport, write_batch}
use temporal_nbd.Transport.Mock.Laws.{mock_store}
use temporal_nbd.Engine.State.{Engine}
use temporal_nbd.Engine.Operations.{flush}
use temporal_nbd.Engine.View.{view}
use temporal_nbd.Engine.Recovery.{Failing, flush_recovers}
use temporal_nbd.Tests.Setup.{transport, engine_over, engine_over-IsValid, clock}

abbrev pub busy : ℕ → List TransportError
busy zero = []
busy (suc n) = retryable "busy" ∷ busy n

abbrev pub IsBusy : ℕ → MockTransport → Type 0
IsBusy n t = (t.fail_on_write_calls ≡ []) × (t.fail_writes ≡ busy n)

pub IsBusy-write_batch :
    (n : ℕ) (ws : List BlockWrite) (t : MockTransport)
    → IsBusy n t
    → (((write_batch ws t).0 ≡ ok tt) × IsBusy n (write_batch ws t).1)
      ⊎ ((m : ℕ) × (message : String) × (n ≡ suc m)
          × ((write_batch ws t).0 ≡ err (retryable message))
          × IsBusy m (write_batch ws t).1)
unfolding write_batch
IsBusy-write_batch zero ws t (c, f) = inl (rw (c, f) (refl, (refl, refl)))
IsBusy-write_batch (suc m) ws t (c, f) =
    inr (m, "busy", refl, rw (c, f) refl, rw (c, f) (refl, refl))

abbrev mock_failing : Failing mock_transport
mock_failing = record { AtMost = IsBusy; writes = IsBusy-write_batch }

abbrev busy_engine : Engine mock_transport
busy_engine = engine_over (record transport { fail_writes = busy 2 })

busy-IsSound : (mock_store 4).IsSound (record transport { fail_writes = busy 2 })
unfolding mock_store
busy-IsSound = (refl, (refl, (refl, (refl, tt))))

flush_recovers_example :
    let (answer, e') = flush mock_transport clock busy_engine in
    (answer ≡ ok tt)
    × (e'.dirty ≡ [])
    × ((lba : ℕ) → (mock_store 4).contents e'.transport lba ≡ view (mock_store 4) busy_engine lba)
flush_recovers_example =
    flush_recovers mock_failing (mock_store 4) clock 2 busy_engine
      (engine_over-IsValid (record transport { fail_writes = busy 2 }) busy-IsSound) (refl, refl)
      (λ j l. omega arith)
