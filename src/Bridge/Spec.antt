-- ===== src/Bridge/Spec.antt =====
-- What the bridge promises: a device of blocks with a volume behind it, the steps that a request
-- may take on it, and the runs of a list of requests.
use temporal_nbd.Prelude.{
  ℕ, ◌+◌, ◌-◌, ◌/◌, ◌≡◌, refl, ◌∙◌, ap, Bool, true, false, ◌&&◌, List, [], ◌∷◌, length, All,
  is_multiple_of, leb, ltb, if◌then◌else◌, u32_max,
}
use temporal_nbd.Errors.{eio, einval}
use temporal_nbd.Geometry.{VolumeGeometry}
use temporal_nbd.Transport.{Bytes, Volume, blocks}
use temporal_nbd.Engine.Chunks.{slice}
use temporal_nbd.Bridge.{BridgeCommand, read, write, flush, disconnect, BridgeResponse, response_ok}

-- The blocks that a client sees, those that the volume behind the device holds, and the addresses
-- at which the two may differ.
pub record Device : Type 0 where
  pub seen : Volume
  pub stored : Volume
  pub pending : ℕ → Bool

-- The response of a request that fails: an error number without data.
abbrev pub failure : ℕ → BridgeResponse
failure errno = record { error_number = errno; response_data = [] }

-- A positive number of whole blocks that lie in the volume, and whose number fits into 32 bits.
abbrev pub accepts : VolumeGeometry → ℕ → ℕ → Bool
accepts g offset len =
    let size = g.block_size_bytes in
    ltb 0 len
    && (is_multiple_of offset size
        && (is_multiple_of len size
            && (leb (offset / size + len / size) g.total_blocks && leb (len / size) u32_max)))

-- The address is one of those that a payload at `start` covers.
abbrev pub in_payload : (size start len lba : ℕ) → Bool
in_payload size start len lba = leb start lba && ltb lba (start + len / size)

-- The volume after the blocks of a payload are put at `start` and the addresses that follow.
abbrev pub put : (size start : ℕ) → Bytes → Volume → Volume
put size start payload v lba =
    if in_payload size start (length payload) lba then slice size (lba - start) payload else v lba

-- The volume that a client sees after a request.
abbrev pub effect : VolumeGeometry → BridgeCommand → Volume → Volume
effect g (write offset bytes) v =
    let size = g.block_size_bytes in
    if accepts g offset (length bytes) then put size (offset / size) bytes v else v
effect g (read offset len) v = v
effect g flush v = v
effect g disconnect v = v

-- The volume that a client sees after some requests.
abbrev pub effects : VolumeGeometry → List BridgeCommand → Volume → Volume
effects g [] v = v
effects g (c ∷ cs) v = effects g cs (effect g c v)

-- A request is an accepted write to the address.
abbrev pub writes_to : VolumeGeometry → ℕ → BridgeCommand → Bool
writes_to g lba (write offset bytes) =
    let size = g.block_size_bytes in
    accepts g offset (length bytes) && in_payload size (offset / size) (length bytes) lba
writes_to g lba (read offset len) = false
writes_to g lba flush = false
writes_to g lba disconnect = false

-- The block at an address that is not pending stays where it is, in the volume, until a write to
-- the address.
abbrev pub Settled : VolumeGeometry → Device → Device → BridgeCommand → Type 0
Settled g d d' command =
    (lba : ℕ)
    → writes_to g lba command ≡ false
    → d.pending lba ≡ false
    → (d'.pending lba ≡ false) × (d'.stored lba ≡ d.stored lba)

-- One request: the device before and after it, and its response. A write that reports an I/O error
-- has taken place for the client, and may have reached the volume in part; a flush that reports one
-- may have stored some of the blocks.
pub data Step (g : VolumeGeometry) (d d' : Device) : BridgeCommand → BridgeResponse → Type 0 where
  read_done :
      {offset len : ℕ}
      → accepts g offset len ≡ true
      → d'.seen ≡ d.seen
      → d'.stored ≡ d.stored
      → {r : BridgeResponse}
      → r ≡ response_ok (blocks d.seen (offset / g.block_size_bytes) (len / g.block_size_bytes))
      → Step g d d' (read offset len) r
  read_failed :
      {offset len : ℕ}
      → accepts g offset len ≡ true
      → d'.seen ≡ d.seen
      → d'.stored ≡ d.stored
      → {r : BridgeResponse} → r ≡ failure eio
      → Step g d d' (read offset len) r
  read_refused :
      {offset len : ℕ}
      → accepts g offset len ≡ false
      → d' ≡ d
      → {r : BridgeResponse} → r ≡ failure einval
      → Step g d d' (read offset len) r
  write_done :
      {offset : ℕ} {bytes : Bytes}
      → accepts g offset (length bytes) ≡ true
      → d'.seen ≡ put g.block_size_bytes (offset / g.block_size_bytes) bytes d.seen
      → {r : BridgeResponse} → r ≡ response_ok []
      → Step g d d' (write offset bytes) r
  write_failed :
      {offset : ℕ} {bytes : Bytes}
      → accepts g offset (length bytes) ≡ true
      → d'.seen ≡ put g.block_size_bytes (offset / g.block_size_bytes) bytes d.seen
      → {r : BridgeResponse} → r ≡ failure eio
      → Step g d d' (write offset bytes) r
  write_refused :
      {offset : ℕ} {bytes : Bytes}
      → accepts g offset (length bytes) ≡ false
      → d' ≡ d
      → {r : BridgeResponse} → r ≡ failure einval
      → Step g d d' (write offset bytes) r
  flush_done :
      d'.seen ≡ d.seen
      → d'.stored ≡ d.seen
      → ((lba : ℕ) → d'.pending lba ≡ false)
      → {r : BridgeResponse} → r ≡ response_ok []
      → Step g d d' flush r
  flush_failed : d'.seen ≡ d.seen → {r : BridgeResponse} → r ≡ failure eio → Step g d d' flush r
  disconnect_done :
      d'.seen ≡ d.seen
      → d'.stored ≡ d.seen
      → ((lba : ℕ) → d'.pending lba ≡ false)
      → {r : BridgeResponse} → r ≡ response_ok []
      → Step g d d' disconnect r
  disconnect_failed :
      d'.seen ≡ d.seen → {r : BridgeResponse} → r ≡ failure eio → Step g d d' disconnect r

-- Requests one after another, with their responses.
pub data Run (g : VolumeGeometry)
    : Device → Device → List BridgeCommand → List BridgeResponse → Type 0 where
  here : {d : Device} → Run g d d [] []
  next :
      {d d' d'' : Device} {c : BridgeCommand} {r : BridgeResponse} {cs : List BridgeCommand}
      {rs : List BridgeResponse}
      → Step g d d' c r
      → Settled g d d' c
      → Run g d' d'' cs rs
      → Run g d d'' (c ∷ cs) (r ∷ rs)

module _ {g : VolumeGeometry} where
  pub Step-effect :
      {d d' : Device} {c : BridgeCommand} {r : BridgeResponse}
      → Step g d d' c r
      → d'.seen ≡ effect g c d.seen
  Step-effect (read_done a h s e) = h
  Step-effect (read_failed a h s e) = h
  Step-effect (read_refused a h e) = ap (λ d. d.seen) h
  Step-effect (write_done a h e) = rw (a, h) refl
  Step-effect (write_failed a h e) = rw (a, h) refl
  Step-effect (write_refused a h e) = rw a (ap (λ d. d.seen) h)
  Step-effect (flush_done h s p e) = h
  Step-effect (flush_failed h e) = h
  Step-effect (disconnect_done h s p e) = h
  Step-effect (disconnect_failed h e) = h

  -- Whatever the responses of a run, the client sees the effects of its requests.
  pub Run-effects :
      {d d' : Device} {cs : List BridgeCommand} {rs : List BridgeResponse}
      → Run g d d' cs rs
      → d'.seen ≡ effects g cs d.seen
  Run-effects here = refl
  Run-effects (next {cs = cs} s k r) = Run-effects r ∙ ap (effects g cs) (Step-effect s)

  -- What is settled at an address stays in the volume through a run without an accepted write there.
  pub Run-settled :
      {d d' : Device} {cs : List BridgeCommand} {rs : List BridgeResponse} (lba : ℕ)
      → Run g d d' cs rs
      → All (λ c. writes_to g lba c ≡ false) cs
      → d.pending lba ≡ false
      → (d'.pending lba ≡ false) × (d'.stored lba ≡ d.stored lba)
  Run-settled lba here a p = (p, refl)
  Run-settled lba (next s k r) a p =
      let (pending, stored) = k lba a.0 p in
      let (pending', stored') = Run-settled lba r a.1 pending in (pending', stored' ∙ stored)
