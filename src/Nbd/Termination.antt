-- ===== src/Nbd/Termination.antt =====
-- The loop of `serve_blocking` ends, and after it the engine is disconnected.
use temporal_nbd.Prelude.{
  ℕ, zero, suc, ℤ, pos, ◌+◌, ◌≤◌, ◌<◌, ◌≡◌, ◌≢◌, refl, sym, ap, ◌∙◌, ◌⊎◌, inl, inr, false, some,
  Bool, String, ok, err, Result-cases, Option-cases, Bool-cases, arith, length, leb, leb→le, take,
  length-drop,
}
use temporal_nbd.Transport.{Bytes}
use temporal_nbd.Bridge.{BridgeCommand, disconnect, handle_request}
use temporal_nbd.Bridge.Queue.{request}
use temporal_nbd.Nbd.Wire.{
  RequestHeader, UnixStream, IoError, unexpected_eof, invalid_data, other_error, read_exact,
  write_all, read_request_header, reply_header, write_reply,
}
use temporal_nbd.Nbd.Server.{
  Flow, continue, stop, fail, Turn, Setting, Server, ask, reply, serve_read, serve_write,
  serve_flush, serve_request, serve_round, request_loop, serve_blocking,
}

write_all-incoming : (b : Bytes) (s : UnixStream) → (write_all b s).1.incoming ≡ s.incoming
unfolding write_all
write_all-incoming b s = ground arith

pub write_reply-incoming :
    (handle : Bytes) (e : ℤ) (payload : Bytes) (s : UnixStream)
    → (write_reply handle e payload s).1.incoming ≡ s.incoming
unfolding write_reply
write_reply-incoming handle e payload s =
    let header = reply_header handle e in
    ground (arith, write_all-incoming header s, write_all-incoming payload (write_all header s).1)

read_exact-incoming :
    (n : ℕ) (s : UnixStream) → length (read_exact n s).1.incoming ≤ length s.incoming
unfolding read_exact
read_exact-incoming n s = ground (arith, length-drop n s.incoming)

-- Bytes that were read are gone, or else there were too few.
read_exact-cases :
    (n : ℕ) (s : UnixStream)
    → ((bytes : Bytes) × ((read_exact n s).0 ≡ ok bytes)
        × (length (read_exact n s).1.incoming + n ≤ length s.incoming))
      ⊎ ((read_exact n s).0 ≡ err s.ending)
unfolding read_exact
read_exact-cases n s = elim (Bool-cases (leb n (length s.incoming))) [
  | inl h ↦
      rw (h, read_exact)
        (inl (
          take n s.incoming,
          refl,
          omega (arith, length-drop n s.incoming, leb→le n (length s.incoming) h),
        ))
  | inr h ↦ rw (h, read_exact) (inr refl)
]

IoError-cases :
    (x : IoError)
    → (x ≡ unexpected_eof) ⊎ ((m : String) × ((x ≡ invalid_data m) ⊎ (x ≡ other_error m)))
IoError-cases unexpected_eof = inl refl
IoError-cases (invalid_data m) = inr (m, inl refl)
IoError-cases (other_error m) = inr (m, inr refl)

-- A header that was read is 28 bytes.
header-unread :
    (s : UnixStream) {h : RequestHeader}
    → (read_request_header s).0 ≡ ok (some h)
    → length (read_request_header s).1.incoming + 28 ≤ length s.incoming
unfolding read_request_header
header-unread s e = elim (read_exact-cases 28 s) [
  | inl (bytes, p, l) ↦ rw (p, read_request_header) l
  | inr p ↦ elim (IoError-cases s.ending) [
    | inl q ↦ ground (arith, p, q)
    | inr (m, inl q) ↦ ground (arith, p, q)
    | inr (m, inr q) ↦ ground (arith, p, q)
  ]
]

pub Flow-cases : (f : Flow) → (f ≡ continue) ⊎ (f ≡ stop) ⊎ ((m : String) × (f ≡ fail m))
Flow-cases continue = inl refl
Flow-cases stop = inr (inl refl)
Flow-cases (fail m) = inr (inr (m, refl))

module _ (C : Setting) where
  abbrev unread : Server C → ℕ
  unread server = length server.stream.incoming

  reply-unread :
      (failure : String) (handle : Bytes) (e : ℕ) (payload : Bytes) (s : Server C)
      → unread (reply C failure handle e payload s).1 ≡ unread s
  unfolding reply
  reply-unread failure handle e payload s =
      ground (arith, write_reply-incoming handle (pos e) payload s.stream)

  ask-unread :
      (c : Bool) (command : BridgeCommand) (s : Server C) → unread (ask C c command s).1 ≡ unread s
  unfolding ask
  ask-unread c command s = refl

  serve_read-unread :
      (c : Bool) (h : RequestHeader) (s : Server C) → unread (serve_read C c h s).1 ≤ unread s
  unfolding serve_read
  serve_read-unread c h s = grind (arith, reply-unread, ask-unread)

  serve_write-unread :
      (c : Bool) (h : RequestHeader) (s : Server C) → unread (serve_write C c h s).1 ≤ unread s
  unfolding serve_write
  serve_write-unread c h s =
      grind (arith, reply-unread, ask-unread, read_exact-incoming h.length_bytes s.stream)

  serve_request-unread :
      (c : Bool) (h : RequestHeader) (s : Server C) → unread (serve_request C c h s).1 ≤ unread s
  unfolding serve_request serve_flush
  serve_request-unread c h s =
      grind (arith, reply-unread, ask-unread, serve_read-unread c h s, serve_write-unread c h s)

  serve_round-unread :
      (t : Turn) (s : Server C)
      → (serve_round C t s).0 ≡ continue
      → unread (serve_round C t s).1 < unread s
  unfolding serve_round
  serve_round-unread t s e =
      let (header, stream) = read_request_header s.stream in
      elim (Bool-cases t.shutdown_cancelled) [
        | inl h ↦ ground arith
        | inr h ↦ elim (Result-cases header) [
          | inr (x, q) ↦ ground arith
          | inl (o, q) ↦ elim (Option-cases o) [
            | inl r ↦ ground arith
            | inr (r, k) ↦
                let found : header ≡ ok (some r) = q ∙ ap ok k in
                ground (
                  arith,
                  header-unread s.stream found,
                  serve_request-unread t.engine_cancelled r (record s { stream = stream }),
                )
          ]
        ]
      ]

  request_loop-ends :
      (fuel : ℕ) (turns : ℕ → Turn) (s : Server C)
      → unread s < fuel
      → (request_loop C fuel turns s).0 ≢ continue
  unfolding request_loop
  request_loop-ends zero turns s l e = omega arith
  request_loop-ends (suc fuel) turns s l e =
      let s' = (serve_round C (turns fuel) s).1 in
      elim (Flow-cases (serve_round C (turns fuel) s).0) [
        | inr (inl h) ↦ ground arith
        | inr (inr (m, h)) ↦ ground arith
        | inl h ↦
            let less = serve_round-unread (turns fuel) s h in
            let same : (request_loop C (suc fuel) turns s).0 ≡ (request_loop C fuel turns s').0 =
              rw (h, request_loop) refl in
            request_loop-ends fuel turns s' (omega (arith, less, l)) (sym same ∙ e)
      ]

  disconnect_stops : (c : Bool) (s : Server C) → (ask C c disconnect s).1.queue.running ≡ false
  unfolding ask request handle_request
  disconnect_stops c s = ground arith

  -- However the tokens are cancelled and however the socket fails, the loop of `serve_blocking`
  -- ends by a `break`, with an error or without, and afterwards the bridge takes no more requests.
  pub serve_blocking_stops :
      (turns : ℕ → Turn) (s : Server C)
      → let (flow, s') = serve_blocking C turns s in (flow ≢ continue) × (s'.queue.running ≡ false)
  unfolding serve_blocking
  serve_blocking_stops turns s =
      (request_loop-ends (suc (unread s)) turns s (omega arith), disconnect_stops _ _)
