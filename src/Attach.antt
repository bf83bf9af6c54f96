-- ===== src/Attach.antt =====
-- recovery_protocol.go: the attach exchange of version 3, and the payloads of control frames.
mod Tests
pub mod Options
mod Fronts
mod Responses
pub mod RoundTrip
pub mod Control
pub mod Sending
use adaptivemsg_go.Bytes.{Bytes, get_u32, get_u64, put_u32, put_u64}
use adaptivemsg_go.Duration.{double, is_not_positive, millisecond, signed_lt}
use adaptivemsg_go.Errors.{Result, and_then, err, invalid_message, ok}
use adaptivemsg_go.Frame.{max_u32}
use adaptivemsg_go.Port.{Io, lift, read_full, return, write_full, ◌>>=◌, ◌>>◌}
use adaptivemsg_go.Prelude.{
  [], copy_at, get_or, if◌then◌else◌, length, ltb, not, replicate, set, slice, take, ℕ, ◌%◌, ◌*◌,
  ◌/◌, ◌==◌, ◌^◌, ◌∷◌,
}
use adaptivemsg_go.Recovery.{NegotiatedRecoveryOptions, normalized_negotiated}

abbrev pub control_type_ack : ℕ
control_type_ack = 1

abbrev pub control_type_ping : ℕ
control_type_ping = 2

abbrev pub control_type_close : ℕ
control_type_close = 3

abbrev pub attach_mode_new : ℕ
attach_mode_new = 1

abbrev pub attach_mode_resume : ℕ
attach_mode_resume = 2

abbrev pub attach_status_ok : ℕ
attach_status_ok = 1

abbrev pub attach_status_rejected : ℕ
attach_status_rejected = 2

abbrev pub recovery_token_len : ℕ
recovery_token_len = 16

abbrev pub attach_request_len : ℕ
attach_request_len = 44

abbrev pub attach_response_len : ℕ
attach_response_len = 60

abbrev pub control_ack_frame_len : ℕ
control_ack_frame_len = 9

-- A token is an array of 16 bytes.
pub record AttachRequest : Type 0 where
  pub mode : ℕ
  pub connection_id : Bytes
  pub resume_secret : Bytes
  pub last_recv_seq : ℕ

pub record AttachResponse : Type 0 where
  pub status : ℕ
  pub connection_id : Bytes
  pub resume_secret : Bytes
  pub last_recv_seq : ℕ
  pub options : NegotiatedRecoveryOptions

unfoldable pub attach_request_bytes : AttachRequest → Bytes
attach_request_bytes req =
    let buf = replicate attach_request_len 0 in
    let buf = set buf 0 req.mode in
    let buf = copy_at buf 4 (take recovery_token_len req.connection_id) in
    let buf = copy_at buf 20 (take recovery_token_len req.resume_secret) in
    copy_at buf 36 (put_u64 req.last_recv_seq)

unfoldable pub write_attach_request : AttachRequest → Io (Unit {0})
unfolding attach_request_bytes
write_attach_request req = write_full (attach_request_bytes req)

unfoldable pub parse_attach_request : Bytes → AttachRequest
parse_attach_request buf = record {
  mode = get_or buf 0 0;
  connection_id = slice buf 4 20;
  resume_secret = slice buf 20 36;
  last_recv_seq = get_u64 (slice buf 36 44);
}

unfoldable pub read_attach_request : Io AttachRequest
unfolding parse_attach_request
read_attach_request = do buf ← read_full attach_request_len; return (parse_attach_request buf)

pub record EncodedOptions : Type 0 where
  pub ack_every : ℕ
  pub ack_delay_ms : ℕ
  pub heartbeat_interval_ms : ℕ
  pub heartbeat_timeout_ms : ℕ

unfoldable pub duration_to_millis : ℕ → Result ℕ
duration_to_millis d =
    let ms = if d / millisecond == 0 then 1 else d / millisecond in
    if is_not_positive d
    then err (invalid_message "recovery duration must be positive")
    else if ltb max_u32 ms
    then err (invalid_message "recovery duration too large")
    else ok ms

unfoldable pub encode_options : NegotiatedRecoveryOptions → Result EncodedOptions
encode_options options =
    let opts = normalized_negotiated options in
    and_then (duration_to_millis opts.ack_delay) λ delay.
      and_then (duration_to_millis opts.heartbeat_interval) λ interval.
        and_then (duration_to_millis opts.heartbeat_timeout) λ timeout. ok (record {
          ack_every = opts.ack_every;
          ack_delay_ms = delay;
          heartbeat_interval_ms = interval;
          heartbeat_timeout_ms = timeout;
        })

-- `time.Duration(v) * time.Millisecond` of a uint32
abbrev pub from_millis : ℕ → ℕ
from_millis ms = ms * millisecond % 2 ^ 64

unfoldable pub decode_options : EncodedOptions → Result NegotiatedRecoveryOptions
decode_options e =
    let opts : NegotiatedRecoveryOptions = record {
      ack_every = e.ack_every;
      ack_delay = from_millis e.ack_delay_ms;
      heartbeat_interval = from_millis e.heartbeat_interval_ms;
      heartbeat_timeout = from_millis e.heartbeat_timeout_ms;
    } in
    if opts.ack_every == 0
    then err (invalid_message "negotiated ack_every must be positive")
    else if is_not_positive opts.ack_delay
    then err (invalid_message "negotiated ack_delay must be positive")
    else if is_not_positive opts.heartbeat_interval
    then err (invalid_message "negotiated heartbeat_interval must be positive")
    else if signed_lt opts.heartbeat_timeout (double opts.heartbeat_interval)
    then err (invalid_message "negotiated heartbeat_timeout too small")
    else ok opts

unfoldable pub attach_response_bytes : AttachResponse → EncodedOptions → Bytes
attach_response_bytes resp options =
    let buf = replicate attach_response_len 0 in
    let buf = set buf 0 resp.status in
    let buf = copy_at buf 4 (take recovery_token_len resp.connection_id) in
    let buf = copy_at buf 20 (take recovery_token_len resp.resume_secret) in
    let buf = copy_at buf 36 (put_u64 resp.last_recv_seq) in
    let buf = copy_at buf 44 (put_u32 options.ack_every) in
    let buf = copy_at buf 48 (put_u32 options.ack_delay_ms) in
    let buf = copy_at buf 52 (put_u32 options.heartbeat_interval_ms) in
    copy_at buf 56 (put_u32 options.heartbeat_timeout_ms)

unfoldable pub write_attach_response : AttachResponse → Io (Unit {0})
write_attach_response resp = do
  options ← lift (encode_options resp.options)
  write_full (attach_response_bytes resp options)

unfoldable pub encoded_options : Bytes → EncodedOptions
encoded_options buf = record {
  ack_every = get_u32 (slice buf 44 48);
  ack_delay_ms = get_u32 (slice buf 48 52);
  heartbeat_interval_ms = get_u32 (slice buf 52 56);
  heartbeat_timeout_ms = get_u32 (slice buf 56 60);
}

unfoldable pub read_attach_response : Io AttachResponse
read_attach_response = do
  buf ← read_full attach_response_len
  options ← lift (decode_options (encoded_options buf))
  return (record {
    status = get_or buf 0 0;
    connection_id = slice buf 4 20;
    resume_secret = slice buf 20 36;
    last_recv_seq = get_u64 (slice buf 36 44);
    options = options;
  })

unfoldable pub build_ack_control_payload : ℕ → Bytes
build_ack_control_payload last_recv_seq =
    let buf = replicate control_ack_frame_len 0 in
    copy_at (set buf 0 control_type_ack) 1 (put_u64 last_recv_seq)

unfoldable pub build_ping_control_payload : Bytes
build_ping_control_payload = control_type_ping ∷ []

unfoldable pub build_close_control_payload : Bytes
build_close_control_payload = control_type_close ∷ []

unfoldable pub parse_control_payload : Bytes → Result (ℕ × ℕ)
parse_control_payload payload =
    let kind = get_or payload 0 0 in
    if length payload == 0
    then err (invalid_message "empty control payload")
    else if kind == control_type_ack
    then if not (length payload == control_ack_frame_len)
      then err (invalid_message "invalid ack control payload length")
      else ok (kind, get_u64 (slice payload 1 9))
    else if kind == control_type_ping
    then if not (length payload == 1)
      then err (invalid_message "invalid heartbeat control payload length")
      else ok (kind, 0)
    else if kind == control_type_close
    then if not (length payload == 1)
      then err (invalid_message "invalid close control payload length")
      else ok (kind, 0)
    else err (invalid_message "unknown control frame type")
