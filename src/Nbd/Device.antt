-- ===== src/Nbd/Device.antt =====
-- The commands of src/nbd.rs to the kernel's device, and its checks before an attachment. The
-- system calls are a parameter: a call has the descriptor, the request and its argument, and fails
-- with an error number.
use temporal_nbd.Prelude.{
  ◌+◌, ℕ, Bool, true, false, not, ◌||◌, ◌==◌, ltb, if◌then◌else◌, Option, none, some, String, ◌<>◌,
  Result, ok, err, ◌>>◌, fail_if,
}
use temporal_nbd.Errors.{einval}
use temporal_nbd.Geometry.{VolumeGeometry}

abbrev pub nbd_set_sock : ℕ
nbd_set_sock = 0xAB00

abbrev pub nbd_set_blksize : ℕ
nbd_set_blksize = 0xAB01

abbrev pub nbd_set_size_blocks : ℕ
nbd_set_size_blocks = 0xAB07

abbrev pub nbd_set_timeout : ℕ
nbd_set_timeout = 0xAB09

abbrev pub nbd_set_flags : ℕ
nbd_set_flags = 0xAB0A

abbrev pub nbd_flag_has_flags : ℕ
nbd_flag_has_flags = 1

abbrev pub nbd_flag_send_flush : ℕ
nbd_flag_send_flush = 4

-- `NBD_FLAG_HAS_FLAGS | NBD_FLAG_SEND_FLUSH`, which have no bit in common.
abbrev pub nbd_flags : ℕ
nbd_flags = nbd_flag_has_flags + nbd_flag_send_flush

-- The device node and the module exist.
abbrev pub preflight : (String → Bool) → String → Result (Unit {0}) String
preflight exists device_path = do
  fail_if (not (exists device_path)) ("NBD device " <> (device_path <> " does not exist"))
  fail_if (not (exists "/sys/module/nbd"))
      "nbd kernel module is not loaded (missing /sys/module/nbd). Run: sudo modprobe nbd max_part=0"

module _ {S : Type 0} (ioctl : ℕ → ℕ → ℕ → S → Option ℕ × S) where
  -- `ioctl_with_arg`, with the context that `configure_device` gives its error.
  abbrev pub ioctl_with_arg : String → ℕ → ℕ → ℕ → S → Result (Unit {0}) String × S
  ioctl_with_arg context fd request argument s =
      let (failure, s') = ioctl fd request argument s in
      elim failure [ none ↦ (ok tt, s') | some errno ↦ (err context, s') ]

  -- The next step, where the last one has succeeded.
  abbrev pub then_do :
      Result (Unit {0}) String × S
      → (S → Result (Unit {0}) String × S)
      → Result (Unit {0}) String × S
  then_do (ok _, s) next = next s
  then_do (err x, s) next = (err x, s)

  -- A step that is only taken under a condition.
  abbrev pub only_if : Bool → (S → Result (Unit {0}) String × S) → S → Result (Unit {0}) String × S
  only_if true step s = step s
  only_if false step s = (ok tt, s)

  -- The sizes of a `VolumeGeometry` and the timeout fit into an argument of 64 bits.
  unfoldable pub configure_device :
      (nbd_fd sock_fd : ℕ) → VolumeGeometry → ℕ → S → Result (Unit {0}) String × S
  configure_device nbd_fd sock_fd geometry timeout_secs s =
      then_do
        (then_do
          (then_do
            (then_do
              (ioctl_with_arg "NBD_SET_BLKSIZE failed" nbd_fd nbd_set_blksize
                geometry.block_size_bytes s)
              (ioctl_with_arg "NBD_SET_SIZE_BLOCKS failed" nbd_fd nbd_set_size_blocks
                geometry.total_blocks))
            (only_if (ltb 0 timeout_secs)
              (ioctl_with_arg "NBD_SET_TIMEOUT failed" nbd_fd nbd_set_timeout timeout_secs)))
          (ioctl_with_arg "NBD_SET_FLAGS failed" nbd_fd nbd_set_flags nbd_flags))
        (ioctl_with_arg "NBD_SET_SOCK failed" nbd_fd nbd_set_sock sock_fd)

-- `libc::ENOTCONN` and `libc::EPIPE`
abbrev pub enotconn : ℕ
enotconn = 107

abbrev pub epipe : ℕ
epipe = 32

-- What `run_nbd_do_it` makes of the result of its call: a device whose socket is gone has been
-- disconnected.
abbrev pub do_it_result : (ℕ → String) → Option ℕ → Result (Unit {0}) String
do_it_result show_os_error none = ok tt
do_it_result show_os_error (some errno) =
    if errno == enotconn || (errno == einval || errno == epipe)
    then ok tt
    else err ("NBD_DO_IT failed: " <> show_os_error errno)

-- The end of `serve_blocking`: the error of the loop, if any, and the result of the thread that
-- runs the device, which is missing where the thread panicked.
abbrev pub combine_results :
    Option String → Option (Result (Unit {0}) String) → Result (Unit {0}) String
combine_results loop_error none = err "NBD_DO_IT thread panicked"
combine_results (some loop_error) (some (err x)) = err ("NBD_DO_IT also failed: " <> x)
combine_results none (some (err x)) = err x
combine_results (some loop_error) (some (ok _)) = err loop_error
combine_results none (some (ok _)) = ok tt
