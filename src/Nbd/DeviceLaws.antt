-- ===== src/Nbd/DeviceLaws.antt =====
-- What `configure_device` asks of the kernel.
use temporal_nbd.Prelude.{
  ℕ, Bool, ◌≡◌, inl, inr, true, false, Bool-cases, Option, none, some, List, [], ◌∷◌, ◌++◌, ltb,
  if◌then◌else◌, arith, is_err,
}
use temporal_nbd.Geometry.{VolumeGeometry}
use temporal_nbd.Nbd.Device.{
  nbd_set_sock, nbd_set_blksize, nbd_set_size_blocks, nbd_set_timeout, nbd_set_flags, nbd_flags,
  configure_device,
}

abbrev pub is_some : Option ℕ → Bool
is_some (some a) = true
is_some none = false

-- The calls that set a device up, in order: the socket is handed over last.
abbrev pub device_calls : ℕ → VolumeGeometry → ℕ → List (ℕ × ℕ)
device_calls sock_fd g timeout_secs =
    (nbd_set_blksize, g.block_size_bytes)
    ∷ (nbd_set_size_blocks, g.total_blocks)
    ∷ ((if ltb 0 timeout_secs then (nbd_set_timeout, timeout_secs) ∷ [] else [])
        ++ ((nbd_set_flags, nbd_flags) ∷ (nbd_set_sock, sock_fd) ∷ []))

module _ {S : Type 0} (ioctl : ℕ → ℕ → ℕ → S → Option ℕ × S) (fd : ℕ) where
  -- Calls in order, up to the first that fails.
  abbrev pub run_calls : List (ℕ × ℕ) → S → Option ℕ × S
  run_calls [] s = (none, s)
  run_calls (c ∷ cs) s =
      let (failure, s') = ioctl fd c.0 c.1 s in
      elim failure [ none ↦ run_calls cs s' | some errno ↦ (some errno, s') ]

  -- The device is set up by these calls in this order, and by no other, up to the first that fails,
  -- which is the one case of failure; the timeout is left as it is where none is configured.
  pub configure_device_calls :
      (sock_fd : ℕ) (g : VolumeGeometry) (timeout_secs : ℕ) (s : S)
      → let (answer, s') = configure_device ioctl fd sock_fd g timeout_secs s in
        let (failure, s'') = run_calls (device_calls sock_fd g timeout_secs) s in
        (s' ≡ s'') × (is_err answer ≡ is_some failure)
  unfolding configure_device
  configure_device_calls sock_fd g timeout_secs s = elim (Bool-cases (ltb 0 timeout_secs)) [
    | inl h ↦ (ground arith, ground arith)
    | inr h ↦ (ground arith, ground arith)
  ]
