-- ===== src/Nbd/StepLaws.antt =====
-- The steps of the device as the server sees them: which ranges are refused, and what data a response
-- has.
use temporal_nbd.Prelude.{
  ℕ, ◌+◌, ◌/◌, ◌≡◌, refl, ap, false, not, ◌&&◌, ◌%◌, [], err, arith, Bool-cases, inl, inr, length,
  ◌==◌,
}
use native.Mathlib.Nat.{mul-le-mul_right, add-mul, div-add-mod'}
use temporal_nbd.Errors.{einval}
use temporal_nbd.Geometry.{VolumeGeometry}
use temporal_nbd.Geometry.Laws.{IsSized}
use temporal_nbd.Transport.{Bytes}
use temporal_nbd.Bridge.{read, write, flush, BridgeResponse}
use temporal_nbd.Bridge.Spec.{
  Device, Step, accepts, read_done, read_failed, read_refused, write_done, write_failed,
  write_refused, flush_done, flush_failed,
}
use temporal_nbd.Nbd.Wire.{validate_range}
use temporal_nbd.Nbd.Range.{InVolume, validate_range_exact}
use temporal_nbd.Transport.Blocks.{IsUniform, length-blocks}

-- A range that the server refuses is not one that the bridge accepts.
pub refused-accepts :
    (g : VolumeGeometry) (offset len : ℕ)
    → IsSized g
    → validate_range g offset len ≡ err einval
    → accepts g offset len ≡ false
refused-accepts g offset len s h =
    let size = g.block_size_bytes in
    elim (Bool-cases (accepts g offset len)) [
      | inr a ↦ a
      | inl a ↦
          let v : InVolume g offset len = record {
            some_bytes = ground arith;
            aligned = ground arith;
            whole = ground arith;
            inside = omega (
              arith,
              s.tiles,
              div-add-mod' offset size,
              div-add-mod' len size,
              add-mul (offset / size) (len / size) size,
              mul-le-mul_right {m = offset / size + len / size} {n = g.total_blocks} size
                  (ground arith),
              (let z : offset % size ≡ 0 = ground arith in z),
              (let z : len % size ≡ 0 = ground arith in z),
            );
          } in
          let accepted = (validate_range_exact g offset len s).0.1 v in cc
    ]

-- A read that succeeds has as many bytes as it asks for.
pub read-length :
    {g : VolumeGeometry} {d d' : Device} {offset len : ℕ} {r : BridgeResponse}
    → IsUniform g.block_size_bytes d.seen
    → Step g d d' (read offset len) r
    → ((r.error_number == 0) && not (length r.response_data == len)) ≡ false
read-length {g} {d} {d'} {offset} {len} u (read_done a h s e) =
    let size = g.block_size_bytes in
    let all = length-blocks d.seen (offset / size) (len / size) u in
    rw e (ground (arith, all, div-add-mod' len size))
read-length u (read_failed a h s e) = rw e refl
read-length u (read_refused a h e) = rw e refl

pub write-no_data :
    {g : VolumeGeometry} {d d' : Device} {offset : ℕ} {bytes : Bytes} {r : BridgeResponse}
    → Step g d d' (write offset bytes) r
    → r.response_data ≡ []
write-no_data (write_done a h e) = ap (λ r. r.response_data) e
write-no_data (write_failed a h e) = ap (λ r. r.response_data) e
write-no_data (write_refused a h e) = ap (λ r. r.response_data) e

pub flush-no_data :
    {g : VolumeGeometry} {d d' : Device} {r : BridgeResponse}
    → Step g d d' flush r
    → r.response_data ≡ []
flush-no_data (flush_done h s p e) = ap (λ r. r.response_data) e
flush-no_data (flush_failed h e) = ap (λ r. r.response_data) e
