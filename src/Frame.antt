-- ===== src/Frame.antt =====
-- frame.go: frame headers, and frames written to and read from a transport.
mod Tests
pub mod HeaderBytes
pub mod RoundTrip
pub mod Reading
use adaptivemsg_go.Bytes.{Bytes, get_u32, get_u64, put_u32, put_u64}
use adaptivemsg_go.Codecs.{Codec}
use adaptivemsg_go.Errors.{
  Error, Result, err, frame_too_large, invalid_message, ok, unsupported_frame_version,
}
use adaptivemsg_go.Port.{FrameCounters, Io, lift, read_full, return, write_full, ◌>>=◌, ◌>>◌}
use adaptivemsg_go.Prelude.{
  Bool, bit_and, copy_at, false, get_or, if◌then◌else◌, length, ltb, not, replicate, set, slice,
  take, true, ℕ, ◌%◌, ◌+◌, ◌-◌, ◌==◌, ◌^◌,
}

abbrev pub frame_header_len : ℕ
frame_header_len = 10

abbrev pub frame_header_len_v3 : ℕ
frame_header_len_v3 = 18

abbrev pub protocol_version_v2 : ℕ
protocol_version_v2 = 2

abbrev pub protocol_version_v3 : ℕ
protocol_version_v3 = 3

-- `^uint32(0)`
abbrev pub max_u32 : ℕ
max_u32 = 2 ^ 32 - 1

abbrev pub control_stream_id : ℕ
control_stream_id = max_u32

-- FrameFlagFIN, and the complement of supportedFrameFlags in a byte.
abbrev pub frame_flag_fin : ℕ
frame_flag_fin = 1

abbrev pub unsupported_frame_flags : ℕ
unsupported_frame_flags = 254

-- connConfig of connection.go
pub record ConnConfig : Type 0 where
  pub version : ℕ
  pub codec_id : ℕ
  pub codec : Codec
  pub max_frame : ℕ
  pub header_len : ℕ

-- A frame as the reader returns it and the writer takes it.
pub record Frame : Type 0 where
  pub stream_id : ℕ
  pub seq : ℕ
  pub flags : ℕ
  pub payload : Bytes

unfoldable pub frame_header_len_for_version : ℕ → Result ℕ
frame_header_len_for_version version =
    if version == protocol_version_v2
    then ok frame_header_len
    else if version == protocol_version_v3
    then ok frame_header_len_v3
    else err (unsupported_frame_version version)

-- `Connection.headerLen`
pub conn_header_len : ConnConfig → Result ℕ
unfolding frame_header_len_for_version
conn_header_len config =
    if ltb 0 config.header_len
    then ok config.header_len
    else frame_header_len_for_version config.version

-- The array of 18 bytes that `buildHeader` fills.
pub header_array : ConnConfig → ℕ → ℕ → ℕ → ℕ → Bytes
header_array config stream_id seq flags payload_len =
    let header = replicate frame_header_len_v3 0 in
    let header = set header 0 config.version in
    let header = set header 1 flags in
    let header = copy_at header 2 (put_u32 stream_id) in
    let header = copy_at header 6 (put_u32 payload_len) in
    if config.version == protocol_version_v3 then copy_at header 10 (put_u64 seq) else header

-- `payloadLen` is the length of a slice, so it is not negative.
pub build_header : ConnConfig → ℕ → ℕ → ℕ → ℕ → Result (Bytes × ℕ)
unfolding header_array conn_header_len
build_header config stream_id seq flags payload_len =
    if ltb max_u32 payload_len
    then err (frame_too_large payload_len)
    else if ltb config.max_frame payload_len
    then err (frame_too_large payload_len)
    else elim (conn_header_len config) [
      | err e ↦ err e
      | ok header_len ↦ ok (header_array config stream_id seq flags payload_len, header_len)
    ]

pub record Header : Type 0 where
  pub stream_id : ℕ
  pub seq : ℕ
  pub flags : ℕ
  pub payload_len : ℕ

pub parse_header : ConnConfig → Bytes → Result Header
parse_header config header =
    let version = get_or header 0 0 in
    let flags = get_or header 1 0 in
    if not (version == config.version)
    then err (unsupported_frame_version version)
    else if not (bit_and flags unsupported_frame_flags == 0)
    then err (invalid_message "unsupported frame flags")
    else ok (record {
      stream_id = get_u32 (slice header 2 6);
      seq = if version == protocol_version_v3 then get_u64 (slice header 10 18) else 0;
      flags = flags;
      payload_len = get_u32 (slice header 6 10);
    })

abbrev pub add_u64 : ℕ → ℕ → ℕ
add_u64 a b = (a + b) % 2 ^ 64

-- The counters that a written or a read frame adds to.
pub count_written : ℕ → ℕ → FrameCounters → FrameCounters
count_written stream_id size k = record k {
  frames_written = add_u64 k.frames_written 1;
  bytes_written = add_u64 k.bytes_written size;
  control_frames_written =
      if stream_id == control_stream_id
      then add_u64 k.control_frames_written 1
      else k.control_frames_written;
}

pub count_read : ℕ → ℕ → FrameCounters → FrameCounters
count_read stream_id size k = record k {
  frames_read = add_u64 k.frames_read 1;
  bytes_read = add_u64 k.bytes_read size;
  control_frames_read =
      if stream_id == control_stream_id
      then add_u64 k.control_frames_read 1
      else k.control_frames_read;
}

abbrev count : (FrameCounters → FrameCounters) → Io (Unit {0})
count f p = (ok tt, record p { counters = f p.counters })

-- `writeFrameNoFlush`
pub write_frame_no_flush : ConnConfig → Frame → Io (Unit {0})
unfolding build_header
write_frame_no_flush config frame = do
  (header, header_len) ← lift (build_header config frame.stream_id frame.seq frame.flags size)
  write_full (take header_len header)
  write_full frame.payload
  count (count_written frame.stream_id (header_len + size))
  where
    size : ℕ
    size = length frame.payload

-- `isMalformedFrameError`
unfoldable pub is_malformed_frame_error : Error → Bool
is_malformed_frame_error (invalid_message reason) = true
is_malformed_frame_error (unsupported_frame_version v) = true
is_malformed_frame_error (frame_too_large n) = true
is_malformed_frame_error _ = false

-- The part of `readFrameFrom` behind the header.
pub read_payload : ConnConfig → ℕ → Header → Io Frame
read_payload config header_len h = do
  lift (if ltb config.max_frame h.payload_len then err (frame_too_large h.payload_len) else ok tt)
  payload ← read_full h.payload_len
  count (count_read h.stream_id (header_len + length payload))
  return (record { stream_id = h.stream_id; seq = h.seq; flags = h.flags; payload = payload })

-- `readFrameFrom`
pub read_frame_from : ConnConfig → Io Frame
unfolding conn_header_len parse_header read_payload
read_frame_from config = do
  header_len ← lift (conn_header_len config)
  header ← read_full header_len
  h ← lift (parse_header config header)
  read_payload config header_len h
