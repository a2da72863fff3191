-- ===== src/Nbd/Loop.antt =====
-- How the loop of `serve_blocking` goes on after a round, and what a reply leaves as it is.
use temporal_nbd.Prelude.{ℕ, suc, true, ◌≡◌, ◌≢◌, refl, inl, inr, String, arith}
use temporal_nbd.Transport.{Bytes}
use temporal_nbd.Nbd.Termination.{Flow-cases}
use temporal_nbd.Nbd.Server.{
  continue, stop, Turn, Setting, Server, reply, serve_round, request_loop,
}

module _ (C : Setting) where
  pub reply-queue :
      (failure : String) (handle : Bytes) (e : ℕ) (payload : Bytes) (s : Server C)
      → (reply C failure handle e payload s).1.queue ≡ s.queue
  unfolding reply
  reply-queue failure handle e payload s = ground arith

  pub loop_stops :
      (fuel : ℕ) (turns : ℕ → Turn) (s : Server C)
      → (serve_round C (turns fuel) s).0 ≢ continue
      → (request_loop C (suc fuel) turns s).1 ≡ (serve_round C (turns fuel) s).1
  unfolding request_loop
  loop_stops fuel turns s n = elim (Flow-cases (serve_round C (turns fuel) s).0) [
    | inl h ↦ absurd (n h)
    | inr (inl h) ↦ rw (h, request_loop) refl
    | inr (inr (m, h)) ↦ rw (h, request_loop) refl
  ]

  pub loop_continues :
      (fuel : ℕ) (turns : ℕ → Turn) (s : Server C)
      → (serve_round C (turns fuel) s).0 ≡ continue
      → request_loop C (suc fuel) turns s
        ≡ request_loop C fuel turns (serve_round C (turns fuel) s).1
  unfolding request_loop
  loop_continues fuel turns s h = rw (h, request_loop) refl

  pub shutdown_round :
      (t : Turn) (s : Server C) → t.shutdown_cancelled ≡ true → serve_round C t s ≡ (stop, s)
  unfolding serve_round
  shutdown_round t s k = rw (k, serve_round) refl
