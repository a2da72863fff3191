-- ===== src/Nbd/Wire.antt =====
-- The formats of src/nbd.rs: the header of a request, the check of its range, and the reply. The
-- numbers are in network order.
use temporal_nbd.Prelude.{
  ℕ, zero, ℤ, pos, negsuc, suc, ◌/◌, ◌%◌, ◌^◌, not, Option, none, some, List, [], ◌∷◌, ◌++◌, ◌==◌,
  leb, if◌then◌else◌, String, ◌<>◌, Result, ok, err, ◌>>=◌, ◌>>◌, fail_if, ok_or_else, length,
  is_empty, take, drop, is_multiple_of, checked_add, to_be_bytes, from_be_bytes,
}
use temporal_nbd.Errors.{einval, eio}
use temporal_nbd.Geometry.{VolumeGeometry}
use temporal_nbd.Transport.{Bytes}

abbrev pub nbd_request_magic : ℕ
nbd_request_magic = 0x25609513

abbrev pub nbd_reply_magic : ℕ
nbd_reply_magic = 0x67446698

abbrev pub nbd_cmd_read : ℕ
nbd_cmd_read = 0

abbrev pub nbd_cmd_write : ℕ
nbd_cmd_write = 1

abbrev pub nbd_cmd_disc : ℕ
nbd_cmd_disc = 2

abbrev pub nbd_cmd_flush : ℕ
nbd_cmd_flush = 3

pub record RequestHeader : Type 0 where
  pub cmd_type : ℕ
  pub handle : Bytes
  pub offset_bytes : ℕ
  pub length_bytes : ℕ

-- `io::Error`, by what the source tells apart.
pub data IoError : Type 0 where
  unexpected_eof : IoError
  invalid_data : String → IoError
  other_error : String → IoError

-- The userspace end of the socket pair: the bytes that the kernel sends, how the stream ends after
-- them (an end of file, or an error), the bytes written, and the errors of the next writes.
pub record UnixStream : Type 0 where
  pub incoming : Bytes
  pub ending : IoError
  pub outgoing : Bytes
  pub write_errors : List (Option IoError)

unfoldable pub read_exact : ℕ → UnixStream → Result Bytes IoError × UnixStream
read_exact n stream =
    if leb n (length stream.incoming)
    then (ok (take n stream.incoming), record stream { incoming = drop n stream.incoming })
    else (err stream.ending, record stream { incoming = [] })

unfoldable pub write_all : Bytes → UnixStream → Result (Unit {0}) IoError × UnixStream
write_all bytes stream = elim stream.write_errors [
  | [] ↦ (ok tt, record stream { outgoing = stream.outgoing ++ bytes })
  | none ∷ later ↦
      (ok tt, record stream { outgoing = stream.outgoing ++ bytes; write_errors = later })
  | some x ∷ later ↦ (err x, record stream { write_errors = later })
]

abbrev pub hex_digits : List String
hex_digits =
    "0" ∷ "1" ∷ "2" ∷ "3" ∷ "4" ∷ "5" ∷ "6" ∷ "7" ∷ "8" ∷ "9" ∷ "a" ∷ "b" ∷ "c" ∷ "d" ∷ "e" ∷ "f"
    ∷ []

abbrev pub first_or_empty : List String → String
first_or_empty [] = ""
first_or_empty (s ∷ ss) = s

-- `{:08x}` of a number of 32 bits, from its lowest `n` digits.
abbrev pub show_hex : ℕ → ℕ → String
show_hex zero x = ""
show_hex (suc n) x = first_or_empty (drop (x / 16 ^ n % 16) hex_digits) <> show_hex n x

-- The header in the 28 bytes that were read.
unfoldable pub parse_header : Bytes → Result RequestHeader IoError
parse_header raw =
    let magic = from_be_bytes (take 4 raw) in
    if magic == nbd_request_magic
    then ok (record {
      cmd_type = from_be_bytes (take 4 (drop 4 raw));
      handle = take 8 (drop 8 raw);
      offset_bytes = from_be_bytes (take 8 (drop 16 raw));
      length_bytes = from_be_bytes (take 4 (drop 24 raw));
    })
    else err (invalid_data ("invalid request magic: 0x" <> show_hex 8 magic))

unfoldable pub read_request_header : UnixStream → Result (Option RequestHeader) IoError × UnixStream
read_request_header stream =
    let (raw, stream') = read_exact 28 stream in
    elim raw [
      | ok bytes ↦ (parse_header bytes >>= λ header. ok (some header), stream')
      | err unexpected_eof ↦ (ok none, stream')
      | err (invalid_data m) ↦ (err (invalid_data m), stream')
      | err (other_error m) ↦ (err (other_error m), stream')
    ]

-- `u32::try_from(sanitized_errno).unwrap_or(u32::MAX)`, for an `i32`.
abbrev pub sanitized_errno : ℤ → ℕ
sanitized_errno (pos e) = e
sanitized_errno (negsuc e) = eio

abbrev pub reply_header : Bytes → ℤ → Bytes
reply_header handle errno =
    to_be_bytes 4 nbd_reply_magic ++ (to_be_bytes 4 (sanitized_errno errno) ++ handle)

unfoldable pub write_reply : Bytes → ℤ → Bytes → UnixStream → Result (Unit {0}) IoError × UnixStream
write_reply handle errno payload stream =
    let (answer, stream') = write_all (reply_header handle errno) stream in
    elim answer [
      | err x ↦ (err x, stream')
      | ok _ ↦ if is_empty payload then (ok tt, stream') else write_all payload stream'
    ]

-- The error is an `errno`.
unfoldable pub validate_range : VolumeGeometry → ℕ → ℕ → Result (Unit {0}) ℕ
validate_range geometry offset_bytes length_bytes = do
  fail_if (length_bytes == 0) einval
  fail_if (not (is_multiple_of offset_bytes geometry.block_size_bytes)) einval
  fail_if (not (is_multiple_of length_bytes geometry.block_size_bytes)) einval
  end ← ok_or_else (checked_add offset_bytes length_bytes) einval
  fail_if (not (leb end geometry.size_bytes)) einval
