-- ===== src/Nbd/WireLaws.antt =====
-- The formats as the NBD protocol describes them: a request that a client sends is read as it was
-- meant, and a reply is what a client can take apart.
use temporal_nbd.Prelude.{
  ℕ, zero, leb, le→leb, true, ap₂, ℤ, suc, ◌^◌, ◌<◌, ◌≡◌, refl, sym, ap, ◌∙◌, some, [], ◌∷◌, ◌++◌,
  ok, arith, length, length-append, take, drop, take_append, drop_append, drop-drop, to_be_bytes,
  from_be_bytes, from_be_bytes-to_be_bytes,
}
use mathlib.Core.List.{append-nil, append_assoc}
use temporal_nbd.Transport.{Bytes}
use temporal_nbd.Nbd.Wire.{
  RequestHeader, UnixStream, nbd_request_magic, parse_header, read_exact, read_request_header,
  reply_header, write_all, write_reply,
}

-- The 28 bytes of a request.
abbrev pub request_bytes : RequestHeader → Bytes
request_bytes h =
    to_be_bytes 4 nbd_request_magic
    ++ (to_be_bytes 4 h.cmd_type
        ++ (h.handle ++ (to_be_bytes 8 h.offset_bytes ++ to_be_bytes 4 h.length_bytes)))

-- The fields have their widths.
pub record IsHeader (h : RequestHeader) : Type 0 where
  pub cmd_bound : h.cmd_type < 2 ^ 32
  pub handle_length : length h.handle ≡ 8
  pub offset_bound : h.offset_bytes < 2 ^ 64
  pub length_bound : h.length_bytes < 2 ^ 32

pub length-to_be_bytes : (n x : ℕ) → length (to_be_bytes n x) ≡ n
length-to_be_bytes zero x = refl
length-to_be_bytes (suc n) x = ap suc (length-to_be_bytes n x)

header_ext :
    {c c' o o' l l' : ℕ} {b b' : Bytes}
    → c ≡ c'
    → b ≡ b'
    → o ≡ o'
    → l ≡ l'
    → let h : RequestHeader = record {
      cmd_type = c;
      handle = b;
      offset_bytes = o;
      length_bytes = l;
    } in
      let h' : RequestHeader = record {
        cmd_type = c';
        handle = b';
        offset_bytes = o';
        length_bytes = l';
      } in
      h ≡ h'
header_ext p q r t =
    λ i. record { cmd_type = p i; handle = q i; offset_bytes = r i; length_bytes = t i }

parse_header-request_bytes :
    (h : RequestHeader) → IsHeader h → parse_header (request_bytes h) ≡ ok h
unfolding parse_header
parse_header-request_bytes h v =
    let numbers = to_be_bytes 8 h.offset_bytes ++ to_be_bytes 4 h.length_bytes in
    let raw = request_bytes h in
    let eight : 8 ≡ length h.handle = sym v.handle_length in
    let past : drop 8 (h.handle ++ numbers) ≡ numbers = drop_append h.handle numbers eight in
    let past_both : drop 16 (h.handle ++ numbers) ≡ to_be_bytes 4 h.length_bytes =
      sym (drop-drop 8 8 (h.handle ++ numbers)) ∙ ap (drop 8) past in
    let handle : take 8 (drop 8 raw) ≡ h.handle = take_append h.handle numbers eight in
    let cmd : from_be_bytes (take 4 (drop 4 raw)) ≡ h.cmd_type =
      from_be_bytes-to_be_bytes 4 h.cmd_type v.cmd_bound in
    let offset : from_be_bytes (take 8 (drop 16 raw)) ≡ h.offset_bytes =
      ap (λ b. from_be_bytes (take 8 b)) past
      ∙ from_be_bytes-to_be_bytes 8 h.offset_bytes v.offset_bound in
    let len : from_be_bytes (take 4 (drop 24 raw)) ≡ h.length_bytes =
      ap (λ b. from_be_bytes (take 4 b)) past_both
      ∙ from_be_bytes-to_be_bytes 4 h.length_bytes v.length_bound in
    ap ok (header_ext cmd handle offset len)

pub length-request_bytes : (h : RequestHeader) → IsHeader h → length (request_bytes h) ≡ 28
length-request_bytes h v = omega (
  arith,
  length-append h.handle (to_be_bytes 8 h.offset_bytes ++ to_be_bytes 4 h.length_bytes),
  v.handle_length,
)

-- Bytes that are there are read, and the others stay.
pub read_exact-append :
    (n : ℕ) (xs rest : Bytes) (stream : UnixStream)
    → n ≡ length xs
    → stream.incoming ≡ xs ++ rest
    → read_exact n stream ≡ (ok xs, record stream { incoming = rest })
unfolding read_exact
read_exact-append n xs rest stream l e =
    let enough : leb n (length stream.incoming) ≡ true =
      le→leb n (length stream.incoming) (omega (arith, ap length e, length-append xs rest, l)) in
    let taken : take n stream.incoming ≡ xs = ap (take n) e ∙ take_append xs rest l in
    let left : drop n stream.incoming ≡ rest = ap (drop n) e ∙ drop_append xs rest l in
    rw enough (ap₂ (λ t r. (ok t, record stream { incoming = r })) taken left)

-- From a stream that begins with a request whose fields have their widths, the header is read as
-- the client meant it, and the bytes after it stay.
pub read_request_header-request_bytes :
    (h : RequestHeader) (rest : Bytes) (stream : UnixStream)
    → IsHeader h
    → stream.incoming ≡ request_bytes h ++ rest
    → read_request_header stream ≡ (ok (some h), record stream { incoming = rest })
unfolding read_request_header
read_request_header-request_bytes h rest stream v e =
    let exact =
      read_exact-append 28 (request_bytes h) rest stream (sym (length-request_bytes h v)) e in
    rw (ap (λ p. p.0) exact, parse_header-request_bytes h v, read_request_header)
      (ap (λ p. (ok (some h), p.1)) exact)

write_all-outgoing :
    (bytes : Bytes) (stream : UnixStream)
    → stream.write_errors ≡ []
    → write_all bytes stream ≡ (ok tt, record stream { outgoing = stream.outgoing ++ bytes })
unfolding write_all
write_all-outgoing bytes stream h = rw (h, write_all) (rw h refl)

-- A reply on a stream that takes all writes is its header, followed by the payload, also where the
-- two are written at once or apart.
pub write_reply-outgoing :
    (handle : Bytes) (e : ℤ) (payload : Bytes) (stream : UnixStream)
    → stream.write_errors ≡ []
    → write_reply handle e payload stream
      ≡ (ok tt, record stream { outgoing = stream.outgoing ++ (reply_header handle e ++ payload) })
unfolding write_reply
write_reply-outgoing handle e [] stream h =
    let header = reply_header handle e in
    let exact = write_all-outgoing header stream h in
    rw (ap (λ p. p.0) exact, write_reply)
      (ap (λ p. (ok tt, p.1)) exact
        ∙ ap (λ b. (ok tt, record stream { outgoing = stream.outgoing ++ b }))
            (sym (append-nil header)))
write_reply-outgoing handle e (x ∷ xs) stream h =
    let header = reply_header handle e in
    let exact = write_all-outgoing header stream h in
    let written : UnixStream = record stream { outgoing = stream.outgoing ++ header } in
    rw (ap (λ p. p.0) exact, write_reply)
      (ap (λ p. write_all (x ∷ xs) p.1) exact
        ∙ write_all-outgoing (x ∷ xs) written h
        ∙ ap (λ b. (ok tt, record stream { outgoing = b }))
            (append_assoc stream.outgoing header (x ∷ xs)))
