-- ===== src/Nbd/Serve.antt =====
-- The whole of `serve_blocking` of src/nbd.rs: the device is opened and set up, the loop runs, and
-- the device is cleared. What the code asks of the kernel is a parameter; the thread that runs the
-- device is its outcome.
use mathlib.Core.Option
use temporal_nbd.Prelude.{ℕ, Option, none, some, String, ◌<>◌, Result, ok, err}
use temporal_nbd.Nbd.Device.{configure_device, do_it_result, combine_results}
use temporal_nbd.Nbd.Server.{Flow, continue, stop, fail, Turn, Setting, Server, serve_blocking}

pub record NbdConfig : Type 0 where
  pub device_path : String
  pub timeout_secs : ℕ

-- The calls of the system. `open_device` and `dup` yield descriptors, `socket_pair` that of the
-- kernel's end; `ioctl` fails with an error number. `join_do_it` yields the result of the call in
-- the thread of `run_nbd_do_it`, which is missing where the thread has panicked.
pub record Kernel : Type 1 where
  pub State : Type 0
  pub open_device : String → State → Option ℕ × State
  pub socket_pair : State → Option ℕ × State
  pub ioctl : (fd request argument : ℕ) → State → Option ℕ × State
  pub dup : ℕ → State → Option ℕ × State
  pub join_do_it : State → Option (Option ℕ) × State
  pub show_os_error : ℕ → String

abbrev pub nbd_clear_sock : ℕ
nbd_clear_sock = 0xAB04

abbrev pub nbd_clear_que : ℕ
nbd_clear_que = 0xAB05

abbrev pub nbd_disconnect : ℕ
nbd_disconnect = 0xAB08

-- `request_loop_error`
abbrev pub loop_error : Flow → Option String
loop_error continue = none
loop_error stop = none
loop_error (fail message) = some message

module _ (K : Kernel) where
  -- `ioctl_noarg`, whose result the code ignores.
  abbrev pub ioctl_noarg : ℕ → ℕ → K.State → K.State
  ioctl_noarg fd request k = (K.ioctl fd request 0 k).1

  abbrev pub clear_device : ℕ → K.State → K.State
  clear_device fd k =
      ioctl_noarg fd nbd_clear_sock (ioctl_noarg fd nbd_clear_que (ioctl_noarg fd nbd_disconnect k))

  module _ (C : Setting) where
    -- The loop over the device with the descriptor `fd`, and what follows.
    unfoldable pub serve_device :
        ℕ → (ℕ → Turn) → Server C → K.State → Result (Unit {0}) String × Server C × K.State
    serve_device fd turns server k =
        let (flow, server') = serve_blocking C turns server in
        let (outcome, k') = K.join_do_it (clear_device fd k) in
        (
          combine_results (loop_error flow) (Option.map (do_it_result K.show_os_error) outcome),
          server',
          k',
        )

    unfoldable pub serve :
        NbdConfig → (ℕ → Turn) → Server C → K.State → Result (Unit {0}) String × Server C × K.State
    serve config turns server k =
        let (device, k1) = K.open_device config.device_path k in
        elim device [
          | none ↦ (err ("failed to open " <> config.device_path), server, k1)
          | some fd ↦
              let (pair, k2) = K.socket_pair k1 in
              elim pair [
                | none ↦ (err "failed to create nbd socketpair", server, k2)
                | some sock_fd ↦
                    let (configured, k3) =
                      configure_device K.ioctl fd sock_fd C.geometry config.timeout_secs k2 in
                    elim configured [
                      | err x ↦ (err "failed to configure nbd device", server, k3)
                      | ok _ ↦
                          let (do_it_fd, k4) = K.dup fd k3 in
                          elim do_it_fd [
                            | none ↦ (err "failed to dup nbd fd for NBD_DO_IT", server, k4)
                            | some _ ↦
                                let (disconnect_fd, k5) = K.dup fd k4 in
                                elim disconnect_fd [
                                  | none ↦ (
                                    err "failed to dup nbd fd for disconnect watcher",
                                    server,
                                    k5,
                                  )
                                  | some _ ↦ serve_device fd turns server k5
                                ]
                          ]
                    ]
              ]
        ]
