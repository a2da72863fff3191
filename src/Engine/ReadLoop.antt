-- ===== src/Engine/ReadLoop.antt =====
-- The loop of `read_blocks` over the requests to the transport: it yields the blocks of the volume
-- in order, or the error of a request that the transport failed.
use mathlib.Core.List.{append_assoc}
use native.Mathlib.Nat.{mul-le-mul_right, add-mul, zero-mul, le_trans}
use temporal_nbd.Prelude.{
  ℕ, zero, suc, ◌+◌, ◌-◌, ◌*◌, ◌≤◌, ◌<◌, min, ◌≡◌, refl, ◌∙◌, sym, ap, subst₂, inl, inr, ◌++◌,
  arith, length, length-append, length-replicate, replicate_add, replicate, Result, ok, err,
  Result-cases, u64_max, usize_max,
}
use temporal_nbd.Errors.{EngineError, errno, eio, TransportError, retryable, terminal}
use temporal_nbd.Transport.{BackendTransport, Bytes, Volume, blocks}
use temporal_nbd.Transport.Blocks.{
  IsUniform, length-blocks, blocks_ext, blocks-append, copy_into, copy_into_append,
}
use temporal_nbd.Transport.Laws.{BlockStore}
use temporal_nbd.Engine.State.{map_transport, max_blocks_per_rpc}
use temporal_nbd.Engine.Reading.{accept_chunk, read_chunks}

-- The error is that of a read request which the transport failed.
abbrev pub ReadFailed : BackendTransport → EngineError → Type 0
ReadFailed T x =
    (lba count : ℕ) × (s : T.State) × (y : TransportError) × ((T.read_blocks lba count s).0 ≡ err y)
    × (x ≡ (map_transport y).0)

pub errno-map_transport : (y : TransportError) → errno (map_transport y).0 ≡ eio
errno-map_transport (retryable m) = refl
errno-map_transport (terminal m) = refl

pub errno-ReadFailed : (T : BackendTransport) (x : EngineError) → ReadFailed T x → errno x ≡ eio
errno-ReadFailed T x (lba, count, s, y, h, p) = ap errno p ∙ errno-map_transport y

-- What a read that goes on from the bytes `front` yields.
abbrev pub Reads : BackendTransport → Bytes → Result Bytes EngineError → Type 0
Reads T expected (ok out) = out ≡ expected
Reads T expected (err x) = ReadFailed T x

accept_chunk-ok :
    (size count : ℕ) (chunk : Bytes)
    → length chunk ≡ count * size
    → count * size ≤ usize_max
    → accept_chunk size count chunk ≡ ok (count * size)
accept_chunk-ok size count chunk h k = ground arith

-- One chunk is copied over the zeros that follow what is read so far.
copy_into-zeros :
    (front chunk : Bytes) (size m n k : ℕ)
    → length chunk ≡ m * size
    → k ≡ m + n
    → copy_into (front ++ replicate (k * size) 0) (length front) chunk
      ≡ (front ++ chunk) ++ replicate (n * size) 0
copy_into-zeros front chunk size m n k l e =
    let total : k * size ≡ m * size + n * size = ap (λ i. i * size) e ∙ add-mul m n size in
    ap (λ i. copy_into (front ++ replicate i 0) (length front) chunk) total
    ∙ ap (λ xs. copy_into (front ++ xs) (length front) chunk)
        (replicate_add (m * size) (n * size) 0)
    ∙ copy_into_append front (replicate (m * size) 0) (replicate (n * size) 0) chunk refl
        (length-replicate (m * size) 0 ∙ sym l)
    ∙ sym (append_assoc front chunk _)

module _ {T : BackendTransport} {size : ℕ} (S : BlockStore T size) where
  -- The transport is sound and holds the volume `v`.
  abbrev pub Holds : Volume → T.State → Type 0
  Holds v t = S.IsSound t × ((lba : ℕ) → S.contents t lba ≡ v lba)

  read-Holds :
      (v : Volume) (lba count : ℕ) (t : T.State) → Holds v t → Holds v (T.read_blocks lba count t).1
  read-Holds v lba count t h =
      (S.read-IsSound lba count t h.0, λ j. S.read_keeps lba count j t h.0 ∙ h.1 j)

  read_answer :
      (v : Volume) (lba count : ℕ) (t : T.State) {chunk : Bytes}
      → Holds v t
      → (T.read_blocks lba count t).0 ≡ ok chunk
      → chunk ≡ blocks v lba count
  read_answer v lba count t h e =
      S.read_answer lba count t h.0 e ∙ blocks_ext _ v lba count (λ j _ _. h.1 j)

  abbrev request_count : ℕ → ℕ
  request_count remaining = min remaining max_blocks_per_rpc

  -- A round that gets the right answer leaves the rest of the loop.
  pub read_chunks-step :
      (fuel remaining lba offset : ℕ) (output chunk : Bytes) (t : T.State)
      → let count = request_count remaining in
        0 < remaining
        → (T.read_blocks lba count t).0 ≡ ok chunk
        → length chunk ≡ count * size
        → count * size ≤ usize_max
        → lba + count ≤ u64_max
        → read_chunks T (suc fuel) size remaining lba offset output t
          ≡ read_chunks T fuel size
              (remaining - count)
              (lba + count)
              (offset + count * size)
              (copy_into output offset chunk)
              (T.read_blocks lba count t).1
  unfolding read_chunks
  read_chunks-step fuel remaining lba offset output chunk t p e l b c =
      ground (arith, accept_chunk-ok size (request_count remaining) chunk l b)

  read_chunks-fail :
      (fuel remaining lba offset : ℕ) (output : Bytes) (t : T.State) {y : TransportError}
      → let count = request_count remaining in
        0 < remaining
        → (T.read_blocks lba count t).0 ≡ err y
        → read_chunks T (suc fuel) size remaining lba offset output t
          ≡ (err (map_transport y).0, (T.read_blocks lba count t).1)
  unfolding read_chunks
  read_chunks-fail fuel remaining lba offset output t p e = ground arith

  pub read_chunks-done :
      (fuel lba offset : ℕ) (output : Bytes) (t : T.State)
      → read_chunks T fuel size 0 lba offset output t ≡ (ok output, t)
  unfolding read_chunks
  read_chunks-done zero lba offset output t = refl
  read_chunks-done (suc fuel) lba offset output t = refl

  module _ (v : Volume) (u : IsUniform size v) where
    abbrev pub ReadPost : Bytes → Result Bytes EngineError × T.State → Type 0
    ReadPost expected out = Holds v out.1 × Reads T expected out.0

    joined :
        (front chunk : Bytes) (lba count rest total : ℕ)
        → chunk ≡ blocks v lba count
        → count + rest ≡ total
        → (front ++ chunk) ++ blocks v (lba + count) rest ≡ front ++ blocks v lba total
    joined front chunk lba count rest total answer e =
        append_assoc front chunk _
        ∙ ap (◌++◌ front) (
            ap (λ xs. xs ++ blocks v (lba + count) rest) answer
            ∙ sym (blocks-append v lba count rest)
            ∙ ap (blocks v lba) e)

    pub read_chunks-ReadPost :
        (fuel remaining lba : ℕ) (front : Bytes) (t : T.State) {offset : ℕ}
        → offset ≡ length front
        → remaining ≤ fuel
        → lba + remaining ≤ u64_max
        → remaining * size ≤ usize_max
        → Holds v t
        → ReadPost (front ++ blocks v lba remaining) (
            read_chunks T fuel size remaining lba offset
              (front ++ replicate (remaining * size) 0)
              t)
    read_chunks-ReadPost fuel zero lba front t o f b c h =
        rw read_chunks-done (h, ap (λ n. front ++ replicate n 0) (zero-mul size))
    read_chunks-ReadPost zero (suc more) lba front t o f b c h = absurd (omega arith)
    read_chunks-ReadPost (suc fuel) (suc more) lba front t {offset} o f b c h =
        let remaining : ℕ = suc more in
        let count = request_count remaining in
        let rest : ℕ = remaining - count in
        let output = front ++ replicate (remaining * size) 0 in
        let t' = (T.read_blocks lba count t).1 in
        let h' = read-Holds v lba count t h in
        elim (Result-cases (T.read_blocks lba count t).0) [
          | inr (y, e) ↦
              rw (read_chunks-fail fuel remaining lba offset output t (omega arith) e)
                (h', (lba, count, t, y, e, refl))
          | inl (chunk, e) ↦
              let answer = read_answer v lba count t h e in
              let l : length chunk ≡ count * size =
                ap length answer ∙ length-blocks v lba count u in
              let small : count * size ≤ usize_max =
                le_trans (mul-le-mul_right size (omega arith)) c in
              let split : count + rest ≡ remaining = omega arith in
              let written : copy_into output offset chunk
                  ≡ (front ++ chunk) ++ replicate (rest * size) 0 =
                ap (λ i. copy_into output i chunk) o
                ∙ copy_into-zeros front chunk size count rest remaining l (sym split) in
              rw
                (read_chunks-step fuel remaining lba offset output chunk t (omega arith) e l small
                  (omega arith))
                (subst₂
                  (λ expected bytes.
                    ReadPost expected
                      (read_chunks T fuel size rest (lba + count) (offset + count * size) bytes t'))
                  (joined front chunk lba count rest remaining answer split) (sym written)
                  (read_chunks-ReadPost fuel rest (lba + count) (front ++ chunk) t'
                    (omega (arith, length-append front chunk)) (omega arith) (omega arith)
                    (le_trans (mul-le-mul_right size (omega arith)) c) h'))
        ]
