-- ===== src/Attach/Tests.antt =====
-- Attach messages and control frames at concrete inputs.
use adaptivemsg_go.Attach.{
  AttachRequest, AttachResponse, attach_mode_resume, attach_status_ok, parse_control_payload,
  read_attach_request, read_attach_response, write_attach_request, write_attach_response,
}
use adaptivemsg_go.Attach.Control.{
  Built, ack_control, control_payload, parse_control_payload-build, parse_control_payload_ok,
}
use adaptivemsg_go.Attach.Options.{FitsWire}
use adaptivemsg_go.Attach.RoundTrip.{
  IsRequest, read_attach_request-write_attach_request, read_attach_response-write_attach_response,
}
use adaptivemsg_go.Bytes.{All-IsByte, Bytes}
use adaptivemsg_go.Duration.{second}
use adaptivemsg_go.Errors.{ok}
use adaptivemsg_go.Port.{Port}
use adaptivemsg_go.Prelude.{[], arith, none, refl, replicate, ◌*◌, ◌++◌, ◌∷◌, ◌≡◌}
use adaptivemsg_go.Recovery.{NegotiatedRecoveryOptions}

abbrev idle_port : Bytes → Port
idle_port input = record {
  input = input;
  ending = none;
  script = [];
  written = [];
  counters = record {
    frames_written = 0;
    bytes_written = 0;
    control_frames_written = 0;
    frames_read = 0;
    bytes_read = 0;
    control_frames_read = 0;
  };
}

abbrev resume_request : AttachRequest
resume_request = record {
  mode = attach_mode_resume;
  connection_id = replicate 16 7;
  resume_secret = replicate 16 9;
  last_recv_seq = 300;
}

resume_request-IsRequest : IsRequest resume_request
resume_request-IsRequest = record { id_length = refl; secret_length = refl; seq_u64 = omega arith }

abbrev request_port : Port
request_port =
    idle_port ((write_attach_request resume_request (idle_port [])).1.written ++ (3 ∷ []))

read_attach_request-write_attach_request_example :
    read_attach_request request_port ≡ (ok resume_request, record request_port { input = 3 ∷ [] })
read_attach_request-write_attach_request_example =
    read_attach_request-write_attach_request resume_request (idle_port []) request_port (3 ∷ [])
      resume_request-IsRequest refl refl refl

-- A delay of one and a half milliseconds.
abbrev sent_options : NegotiatedRecoveryOptions
sent_options = record {
  ack_every = 64;
  ack_delay = 1_500_000;
  heartbeat_interval = 30 * second;
  heartbeat_timeout = 90 * second;
}

sent_options-FitsWire : FitsWire sent_options
sent_options-FitsWire = record {
  usable = record {
    ack_every_positive = omega arith;
    ack_delay_positive = (omega arith, omega arith);
    interval_positive = (omega arith, omega arith);
    timeout_positive = (omega arith, omega arith);
    timeout_enough = omega arith;
  };
  ack_every_u32 = omega arith;
  ack_delay_fits = omega arith;
  interval_fits = omega arith;
  timeout_fits = omega arith;
}

abbrev response : AttachResponse
response = record {
  status = attach_status_ok;
  connection_id = replicate 16 7;
  resume_secret = replicate 16 9;
  last_recv_seq = 12;
  options = sent_options;
}

abbrev response_port : Port
response_port = idle_port ((write_attach_response response (idle_port [])).1.written)

read_attach_response-write_attach_response_example :
    read_attach_response
      (idle_port ((write_attach_response response (idle_port [])).1.written ++ []))
    ≡ (
      ok (record response { options = record sent_options { ack_delay = 1_000_000 } }),
      idle_port [],
    )
read_attach_response-write_attach_response_example =
    read_attach_response-write_attach_response response
      (record {
        id_length = refl;
        secret_length = refl;
        seq_u64 = omega arith;
        options_fit = sent_options-FitsWire;
        interval_whole = omega arith;
      })
      (idle_port []) (idle_port ((write_attach_response response (idle_port [])).1.written ++ []))
      [] refl refl refl

-- 0.9 and 1.8 milliseconds.
abbrev short_options : NegotiatedRecoveryOptions
short_options = record {
  ack_every = 1;
  ack_delay = 1_000;
  heartbeat_interval = 900_000;
  heartbeat_timeout = 1_800_000;
}

abbrev short_response : AttachResponse
short_response = record response { options = short_options }

parse_control_payload-build_example :
    parse_control_payload (control_payload (ack_control 513)) ≡ ok (1, 513)
parse_control_payload-build_example = parse_control_payload-build (ack_control 513) (omega arith)

ack_513_parsed : parse_control_payload (1 ∷ 0 ∷ 0 ∷ 0 ∷ 0 ∷ 0 ∷ 0 ∷ 2 ∷ 1 ∷ []) ≡ ok (1, 513)
unfolding parse_control_payload
ack_513_parsed = refl

parse_control_payload_ok_example : Built (1 ∷ 0 ∷ 0 ∷ 0 ∷ 0 ∷ 0 ∷ 0 ∷ 2 ∷ 1 ∷ []) (1, 513)
parse_control_payload_ok_example =
    parse_control_payload_ok (1 ∷ 0 ∷ 0 ∷ 0 ∷ 0 ∷ 0 ∷ 0 ∷ 2 ∷ 1 ∷ []) {result = (1, 513)}
      (All-IsByte (1 ∷ 0 ∷ 0 ∷ 0 ∷ 0 ∷ 0 ∷ 0 ∷ 2 ∷ 1 ∷ []) refl) ack_513_parsed
