-- ===== src/Attach/Success.antt =====
-- Where the kernel does what it is asked, an attachment that opens its volume succeeds.
use temporal_nbd.Prelude.{ℕ, ◌≡◌, inl, inr, none, some, String, ok, arith, Bool-cases, ltb}
use temporal_nbd.Geometry.{VolumeGeometry}
use temporal_nbd.Nbd.Device.{configure_device}
use temporal_nbd.Nbd.Server.{stop, Turn, Setting, Server, serve_blocking}
use temporal_nbd.Nbd.Serve.{Kernel, NbdConfig, clear_device, serve, serve_device}

-- Every call on the device succeeds, and the thread that runs it ends without an error.
pub record IsWorking (K : Kernel) : Type 0 where
  pub opens : (path : String) (k : K.State) → (fd : ℕ) × ((K.open_device path k).0 ≡ some fd)
  pub pairs : (k : K.State) → (fd : ℕ) × ((K.socket_pair k).0 ≡ some fd)
  pub controls : (fd request argument : ℕ) (k : K.State) → (K.ioctl fd request argument k).0 ≡ none
  pub dups : (fd : ℕ) (k : K.State) → (copy : ℕ) × ((K.dup fd k).0 ≡ some copy)
  pub joins : (k : K.State) → (K.join_do_it k).0 ≡ some none

module _ (K : Kernel) (works : IsWorking K) where
  configured :
      (fd sock_fd : ℕ) (g : VolumeGeometry) (timeout_secs : ℕ) (k : K.State)
      → (configure_device K.ioctl fd sock_fd g timeout_secs k).0 ≡ ok tt
  unfolding configure_device
  configured fd sock_fd g timeout_secs k = elim (Bool-cases (ltb 0 timeout_secs)) [
    | inl h ↦ grind (arith, works.controls)
    | inr h ↦ grind (arith, works.controls)
  ]

  module _ (C : Setting) (turns : ℕ → Turn) (server : Server C)
      (stops : (serve_blocking C turns server).0 ≡ stop) where
    device_succeeds : (fd : ℕ) (k : K.State) → (serve_device K C fd turns server k).0 ≡ ok tt
    unfolding serve_device
    device_succeeds fd k =
        let joined = works.joins (clear_device K fd k) in ground (arith, joined, stops)

    pub serve_succeeds :
        (config : NbdConfig) (k : K.State) → (serve K C config turns server k).0 ≡ ok tt
    unfolding serve
    serve_succeeds config k =
        let path = config.device_path in
        let (fd, o) = works.opens path k in
        let k1 = (K.open_device path k).1 in
        let (sock_fd, p) = works.pairs k1 in
        let k2 = (K.socket_pair k1).1 in
        let c = configured fd sock_fd C.geometry config.timeout_secs k2 in
        let k3 = (configure_device K.ioctl fd sock_fd C.geometry config.timeout_secs k2).1 in
        let (do_it_fd, d) = works.dups fd k3 in
        let k4 = (K.dup fd k3).1 in
        let (disconnect_fd, w) = works.dups fd k4 in
        rw (o, p, c, d, w, serve) (device_succeeds fd (K.dup fd k4).1)
