-- ===== src/Nbd/Exchange.antt =====
-- The NBD protocol over a device: the bytes of a request and of its reply, and what the two say of
-- the device.
use temporal_nbd.Prelude.{
  ℕ, pos, ◌%◌, ◌≡◌, ◌≢◌, refl, sym, ap, ◌∙◌, Option, none, some, List, [], ◌∷◌, ◌++◌, ◌==◌,
  if◌then◌else◌, length,
}
use temporal_nbd.Errors.{einval}
use temporal_nbd.Geometry.{VolumeGeometry}
use temporal_nbd.Transport.{Bytes}
use temporal_nbd.Bridge.{BridgeCommand, read, write, flush, BridgeResponse}
use temporal_nbd.Bridge.Spec.{Device, failure, Step, Settled, effects, Step-effect}
use temporal_nbd.Nbd.Wire.{
  RequestHeader, reply_header, nbd_cmd_read, nbd_cmd_write, nbd_cmd_disc, nbd_cmd_flush,
}
use temporal_nbd.Nbd.WireLaws.{request_bytes, IsHeader}

-- A request of a client: its header, and the bytes that it writes.
pub record NbdRequest : Type 0 where
  pub header : RequestHeader
  pub payload : Bytes

-- The command, without the flags in its upper half.
abbrev pub command_code : RequestHeader → ℕ
command_code h = h.cmd_type % 65536

-- The fields have their widths, exactly a write has a payload, of the length in the header, and the
-- request is not a disconnect.
pub record IsRequest (q : NbdRequest) : Type 0 where
  pub header_ok : IsHeader q.header
  pub payload_length :
      length q.payload
      ≡ (if command_code q.header == nbd_cmd_write then q.header.length_bytes else 0)
  pub stays : command_code q.header ≢ nbd_cmd_disc

-- The bytes of a request, as the client sends them.
abbrev pub sent_bytes : NbdRequest → Bytes
sent_bytes q = request_bytes q.header ++ q.payload

abbrev pub all_sent : List NbdRequest → Bytes
all_sent [] = []
all_sent (q ∷ qs) = sent_bytes q ++ all_sent qs

-- How a client leaves: it closes, or it sends a disconnect, whatever follows.
pub data Farewell (bytes : Bytes) : Type 0 where
  closing : bytes ≡ [] → Farewell bytes
  leaving :
      (h : RequestHeader) (rest : Bytes)
      → IsHeader h
      → command_code h ≡ nbd_cmd_disc
      → bytes ≡ request_bytes h ++ rest
      → Farewell bytes

-- What a request asks of the device.
abbrev pub asked : NbdRequest → Option BridgeCommand
asked q =
    let code = command_code q.header in
    if code == nbd_cmd_read
    then some (read q.header.offset_bytes q.header.length_bytes)
    else if code == nbd_cmd_write
    then some (write q.header.offset_bytes q.payload)
    else if code == nbd_cmd_flush
    then some flush
    else none

-- What some requests ask of the device, without those that are not known.
abbrev pub commands : List NbdRequest → List BridgeCommand
commands [] = []
commands (q ∷ qs) = elim (asked q) [ some c ↦ c ∷ commands qs | none ↦ commands qs ]

-- The bytes of a reply: the header with the handle of the request, and the data.
abbrev pub reply_bytes : NbdRequest → BridgeResponse → Bytes
reply_bytes q r = reply_header q.header.handle (pos r.error_number) ++ r.response_data

-- A request and the bytes of its reply: a step of the device that it asks for, with the response of
-- that step, or, where the command is unknown, `EINVAL` and no step.
pub data Exchange (g : VolumeGeometry) (d d' : Device) (q : NbdRequest) (bytes : Bytes)
    : Type 0 where
  answered :
      {c : BridgeCommand} {r : BridgeResponse}
      → asked q ≡ some c
      → Step g d d' c r
      → Settled g d d' c
      → bytes ≡ reply_bytes q r
      → Exchange g d d' q bytes
  unsupported :
      asked q ≡ none → d' ≡ d → bytes ≡ reply_bytes q (failure einval) → Exchange g d d' q bytes

-- Requests one after another, and the bytes of their replies in the same order.
pub data Exchanges (g : VolumeGeometry) : Device → Device → List NbdRequest → Bytes → Type 0 where
  none_left : {d : Device} → Exchanges g d d [] []
  and_then :
      {d d' d'' : Device} {q : NbdRequest} {qs : List NbdRequest} {bytes rest : Bytes}
      → Exchange g d d' q bytes
      → Exchanges g d' d'' qs rest
      → Exchanges g d d'' (q ∷ qs) (bytes ++ rest)

commands-some :
    (q : NbdRequest) (qs : List NbdRequest) {c : BridgeCommand}
    → asked q ≡ some c
    → commands (q ∷ qs) ≡ c ∷ commands qs
commands-some q qs a = rw (a, commands) refl

commands-none :
    (q : NbdRequest) (qs : List NbdRequest) → asked q ≡ none → commands (q ∷ qs) ≡ commands qs
commands-none q qs a = rw (a, commands) refl

module _ {g : VolumeGeometry} where
  -- A client sees the effects of what its requests have asked for.
  pub Exchanges-effects :
      {d d' : Device} {qs : List NbdRequest} {bytes : Bytes}
      → Exchanges g d d' qs bytes
      → d'.seen ≡ effects g (commands qs) d.seen
  Exchanges-effects none_left = refl
  Exchanges-effects (and_then {d = d} {q = q} {qs = qs} (answered {c = c} a s k b) x) =
      Exchanges-effects x
      ∙ ap (effects g (commands qs)) (Step-effect s)
      ∙ ap (λ cs. effects g cs d.seen) (sym (commands-some q qs a))
  Exchanges-effects (and_then {d = d} {q = q} {qs = qs} (unsupported a e b) x) =
      Exchanges-effects x
      ∙ ap (λ d. effects g (commands qs) d.seen) e
      ∙ ap (λ cs. effects g cs d.seen) (sym (commands-none q qs a))
