-- ===== src/Engine/Batches.antt =====
-- A flush in one piece: the dirty blocks are cut into batches first, and the batches are sent one
-- after another until one fails.
use temporal_nbd.Prelude.{
  ℕ, zero, suc, ◌≤◌, ◌≡◌, refl, ap, sym, ◌∙◌, inl, inr, List, [], ◌∷◌, ◌++◌, Result, ok, err,
  map_err, Result-cases, Bool, Bool-cases, length, is_empty, take, drop, arith, if◌then◌else◌,
  nil_of_length, nil_of_is_empty, take-append-drop, length-drop-lt,
}
use temporal_nbd.BTree.Laws.{remove_all-take}
use temporal_nbd.Errors.{TransportError, EngineError}
use temporal_nbd.Transport.{BackendTransport}
use temporal_nbd.Engine.State.{Engine, DirtyCache, max_blocks_per_rpc, map_transport}
use temporal_nbd.Engine.Flushing.{to_writes, flush_batch, flush_batches, flush_once}

-- The blocks in ascending order, cut into batches of as many blocks as a request may have.
abbrev pub batches_of : ℕ → DirtyCache → List DirtyCache
batches_of zero d = []
batches_of (suc fuel) d =
    if is_empty d
    then []
    else take max_blocks_per_rpc d ∷ batches_of fuel (drop max_blocks_per_rpc d)

abbrev pub in_batches : DirtyCache → List DirtyCache
in_batches d = batches_of (length d) d

abbrev pub joined : List DirtyCache → DirtyCache
joined [] = []
joined (b ∷ bs) = b ++ joined bs

pub joined-batches_of :
    (fuel : ℕ) (d : DirtyCache) → length d ≤ fuel → joined (batches_of fuel d) ≡ d
joined-batches_of zero d h = sym (nil_of_length d h)
joined-batches_of (suc fuel) d h = elim (Bool-cases (is_empty d)) [
  | inl p ↦ rw (p, batches_of) (sym (nil_of_is_empty d p))
  | inr p ↦
      rw (p, batches_of)
        (ap (λ rest. take max_blocks_per_rpc d ++ rest)
            (joined-batches_of fuel (drop max_blocks_per_rpc d) (length-drop-lt 511 fuel d p h))
          ∙ take-append-drop max_blocks_per_rpc d)
]

module _ (T : BackendTransport) where
  -- Batches one after another until one fails: the answer, the batches that are left, and the
  -- transport.
  unfoldable pub send_all :
      List DirtyCache → T.State → Result (Unit {0}) TransportError × List DirtyCache × T.State
  send_all [] t = (ok tt, [], t)
  send_all (b ∷ bs) t =
      let (answer, t') = T.write_batch (to_writes b) t in
      elim answer [ ok _ ↦ send_all bs t' | err x ↦ (err x, b ∷ bs, t') ]

  -- What an engine makes of that.
  abbrev pub sent :
      Engine T
      → Result (Unit {0}) TransportError × List DirtyCache × T.State
      → Result (Unit {0}) (EngineError × Bool) × Engine T
  sent e out = (map_err map_transport out.0, record e { transport = out.2; dirty = joined out.1 })

  flush_batch_ok :
      (e : Engine T)
      → let out = T.write_batch (to_writes (take max_blocks_per_rpc e.dirty)) e.transport in
        out.0 ≡ ok tt
        → flush_batch T e
          ≡ (ok tt, record e { transport = out.1; dirty = drop max_blocks_per_rpc e.dirty })
  unfolding flush_batch
  flush_batch_ok e q =
      rw (q, flush_batch)
        (ap
          (λ d. (
            ok tt,
            record e {
              transport =
                  (T.write_batch (to_writes (take max_blocks_per_rpc e.dirty)) e.transport).1;
              dirty = d;
            },
          ))
          (remove_all-take max_blocks_per_rpc e.dirty))

  flush_batch_err :
      (e : Engine T) {x : TransportError}
      → let out = T.write_batch (to_writes (take max_blocks_per_rpc e.dirty)) e.transport in
        out.0 ≡ err x → flush_batch T e ≡ (err (map_transport x), record e { transport = out.1 })
  unfolding flush_batch
  flush_batch_err e q = rw (q, flush_batch) refl

  flush_batches-send_all :
      (fuel : ℕ) (e : Engine T)
      → length e.dirty ≤ fuel
      → flush_batches T fuel e ≡ sent e (send_all (batches_of fuel e.dirty) e.transport)
  unfolding flush_batches flush_batch send_all
  flush_batches-send_all zero e h =
      ap (λ d. (ok tt, record e { dirty = d })) (nil_of_length e.dirty h)
  flush_batches-send_all (suc fuel) e h = elim (Bool-cases (is_empty e.dirty)) [
    | inl p ↦
        rw (p, flush_batches, batches_of)
          (ap (λ d. (ok tt, record e { dirty = d })) (nil_of_is_empty e.dirty p))
    | inr p ↦
        let batch = take max_blocks_per_rpc e.dirty in
        let left = drop max_blocks_per_rpc e.dirty in
        let t = (T.write_batch (to_writes batch) e.transport).1 in
        let shorter : length left ≤ fuel = length-drop-lt 511 fuel e.dirty p h in
        elim (Result-cases (T.write_batch (to_writes batch) e.transport).0) [
          | inl (u, q) ↦
              rw (p, q, flush_batches, batches_of)
                (rw (flush_batch_ok e q)
                  (flush_batches-send_all fuel (record e { transport = t; dirty = left }) shorter))
          | inr (x, q) ↦
              rw (p, q, flush_batches, batches_of)
                (rw (flush_batch_err e q) (
                  ap (λ d. (err (map_transport x), record e { transport = t; dirty = d }))
                    (sym (
                      ap (λ rest. batch ++ rest) (joined-batches_of fuel left shorter)
                      ∙ take-append-drop max_blocks_per_rpc e.dirty))))
        ]
  ]

  -- An attempt to flush is the batches of the dirty blocks, sent one after another until one fails:
  -- each batch has as many blocks as a request may have, but for the last one, in ascending order of
  -- addresses; the answer is that of the last batch that is sent, and the cache keeps exactly the
  -- batches from the failed one on.
  pub flush_once-send_all :
      (e : Engine T) → flush_once T e ≡ sent e (send_all (in_batches e.dirty) e.transport)
  unfolding flush_once send_all
  flush_once-send_all e = elim (Bool-cases (is_empty e.dirty)) [
    | inl p ↦ let none_left = nil_of_is_empty e.dirty p in rw (p, flush_once) (rw none_left refl)
    | inr p ↦ rw (p, flush_once) (flush_batches-send_all (length e.dirty) e (omega arith))
  ]
