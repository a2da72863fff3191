-- ===== src/Nbd/Writing.antt =====
-- The reply on a socket whose writes may fail: it is written, or the beginning of it is and the loop
-- of `serve_blocking` ends.
use mathlib.Core.List.{append-nil, append_assoc}
use temporal_nbd.Prelude.{
  ℕ, ℤ, pos, ◌≡◌, ◌≢◌, refl, sym, ap, ◌∙◌, ◌⊎◌, inl, inr, ◌++◌, String, ok, err, is_empty, arith,
  Bool-cases, nil_of_is_empty,
}
use temporal_nbd.Transport.{Bytes}
use temporal_nbd.Nbd.Wire.{UnixStream, IoError, write_all, write_reply, reply_header}
use temporal_nbd.Nbd.Termination.{write_reply-incoming}
use temporal_nbd.Nbd.Server.{Flow, continue, Setting, Server, reply}

-- The second bytes are a beginning of the first.
abbrev pub StartsWith : Bytes → Bytes → Type 0
StartsWith bytes start = (rest : Bytes) × (start ++ rest ≡ bytes)

write_all-cases :
    (b : Bytes) (s : UnixStream)
    → (((write_all b s).0 ≡ ok tt) × ((write_all b s).1.outgoing ≡ s.outgoing ++ b))
      ⊎ ((x : IoError) × ((write_all b s).0 ≡ err x) × ((write_all b s).1.outgoing ≡ s.outgoing))
unfolding write_all
write_all-cases b s = ground arith

write_reply-cases :
    (handle : Bytes) (e : ℤ) (payload : Bytes) (s : UnixStream)
    → let (answer, s') = write_reply handle e payload s in
      let bytes = s.outgoing ++ (reply_header handle e ++ payload) in
      ((answer ≡ ok tt) × (s'.outgoing ≡ bytes))
      ⊎ ((x : IoError) × (answer ≡ err x) × StartsWith bytes s'.outgoing)
unfolding write_reply
write_reply-cases handle e payload s =
    let header = reply_header handle e in
    let s1 = (write_all header s).1 in
    elim (write_all-cases header s) [
      | inr (x, p, q) ↦
          rw (p, write_reply)
            (inr (x, refl, (header ++ payload, ap (λ b. b ++ (header ++ payload)) q)))
      | inl (p, q) ↦ elim (Bool-cases (is_empty payload)) [
        | inl k ↦
            let none_left = nil_of_is_empty payload k in
            rw (p, k, write_reply)
              (inl (
                refl,
                q
                    ∙ ap (λ b. s.outgoing ++ b)
                        (sym (append-nil header) ∙ ap (λ b. header ++ b) (sym none_left)),
              ))
        | inr k ↦ elim (write_all-cases payload s1) [
          | inl (p', q') ↦
              rw (p, k, p', write_reply)
                (inl (refl, q' ∙ ap (λ b. b ++ payload) q ∙ append_assoc s.outgoing header payload))
          | inr (x, p', q') ↦
              rw (p, k, p', write_reply)
                (inr (
                  x,
                  refl,
                  (
                    payload,
                    ap (λ b. b ++ payload) (q' ∙ q) ∙ append_assoc s.outgoing header payload,
                  ),
                ))
        ]
      ]
    ]

module _ (C : Setting) where
  -- The bytes are written, or the beginning of them and the loop ends.
  abbrev pub Wrote : Bytes → Server C → Flow × Server C → Type 0
  Wrote bytes s out =
      ((out.0 ≡ continue) × (out.1.stream.outgoing ≡ s.stream.outgoing ++ bytes))
      ⊎ ((out.0 ≢ continue) × StartsWith (s.stream.outgoing ++ bytes) out.1.stream.outgoing)

  pub reply-Wrote :
      (message : String) (handle : Bytes) (e : ℕ) (payload : Bytes) (s : Server C)
      → Wrote (reply_header handle (pos e) ++ payload) s (reply C message handle e payload s)
  unfolding reply
  reply-Wrote message handle e payload s =
      elim (write_reply-cases handle (pos e) payload s.stream) [
        | inl (p, q) ↦ rw (p, reply) (inl (refl, q))
        | inr (x, p, q) ↦ rw (p, reply) (inr ((λ h. cc), q))
      ]

  pub reply-incoming :
      (failure : String) (handle : Bytes) (e : ℕ) (payload : Bytes) (s : Server C)
      → (reply C failure handle e payload s).1.stream.incoming ≡ s.stream.incoming
  unfolding reply
  reply-incoming failure handle e payload s =
      ground (arith, write_reply-incoming handle (pos e) payload s.stream)
