-- ===== src/Sessions/Tests.antt =====
-- A session that is resumed with its secret, and a peer that guesses.
use adaptivemsg_go.Attach.{
  AttachRequest, attach_request_bytes, attach_response_bytes, decode_options, duration_to_millis,
  encode_options, encoded_options, parse_attach_request, read_attach_request, read_attach_response,
  write_attach_request, write_attach_response,
}
use adaptivemsg_go.Attach.RoundTrip.{IsResponse, rounded}
use adaptivemsg_go.Bytes.{Bytes}
use adaptivemsg_go.Duration.{millisecond}
use adaptivemsg_go.Errors.{err, ok, resume_rejected}
use adaptivemsg_go.Port.{Port, read_full, write_full}
use adaptivemsg_go.Prelude.{
  String, [], ap, arith, none, refl, some, sym, true, ℕ, ◌*◌, ◌++◌, ◌∙◌, ◌∷◌, ◌≡◌, ◌≢◌,
}
use adaptivemsg_go.Reconnect.{is_terminal}
use adaptivemsg_go.Recovery.{NegotiatedRecoveryOptions, normalized_negotiated}
use adaptivemsg_go.Sessions.{
  ClientSession, NewSession, Session, Sessions, attach_resume, attach_to, find_session,
  handle_recovery_conn, reject_attach, rejected_response, resume_exchange, resume_response,
  update_session,
}
use adaptivemsg_go.Sessions.Authority.{session_kept}
use adaptivemsg_go.Sessions.Refusing.{refused_resume_is_told, wrong_secret}
use adaptivemsg_go.Sessions.Resuming.{IsResuming, resume_attaches_both}
use adaptivemsg_go.Transport.{attach_transport, new_transport}

abbrev token : ℕ → Bytes
token b = b ∷ 0 ∷ 0 ∷ 0 ∷ 0 ∷ 0 ∷ 0 ∷ 0 ∷ 0 ∷ 0 ∷ 0 ∷ 0 ∷ 0 ∷ 0 ∷ 0 ∷ 7 ∷ []

abbrev some_options : NegotiatedRecoveryOptions
some_options = record {
  ack_every = 8;
  ack_delay = 20 * millisecond;
  heartbeat_interval = 1000 * millisecond;
  heartbeat_timeout = 3000 * millisecond;
}

abbrev some_session : Session
some_session = record {
  connection_id = token 1;
  resume_secret = token 2;
  codec_id = 1;
  last_received = 300;
  options = some_options;
  transport = new_transport;
}

abbrev some_table : Sessions
some_table = (token 1, some_session) ∷ []

abbrev some_new : NewSession
some_new = record {
  connection_id = ok (token 3);
  resume_secret = ok (token 4);
  options = some_options;
  on_connect = none;
}

abbrev client_with : Bytes → ClientSession
client_with secret = record {
  connection_id = token 1;
  resume_secret = secret;
  last_received = 5;
  options = some_options;
  transport = new_transport;
}

abbrev quiet_port : Bytes → Port
quiet_port input = record {
  input = input;
  ending = none;
  script = [];
  written = [];
  counters = record {
    frames_written = 0;
    bytes_written = 0;
    control_frames_written = 0;
    frames_read = 0;
    bytes_read = 0;
    control_frames_read = 0;
  };
}

abbrev request_bytes : Bytes → Bytes
request_bytes secret =
    (2 ∷ 0 ∷ 0 ∷ 0 ∷ []) ++ (token 1 ++ (secret ++ (0 ∷ 0 ∷ 0 ∷ 0 ∷ 0 ∷ 0 ∷ 0 ∷ 5 ∷ [])))

abbrev response_bytes : Bytes
response_bytes =
    (1 ∷ 0 ∷ 0 ∷ 0 ∷ [])
    ++ (token 1
        ++ (token 2
            ++ ((0 ∷ 0 ∷ 0 ∷ 0 ∷ 0 ∷ 0 ∷ 1 ∷ 44 ∷ [])
                ++ (0 ∷ 0 ∷ 0 ∷ 8 ∷ 0 ∷ 0 ∷ 0 ∷ 20 ∷ 0 ∷ 0 ∷ 3 ∷ 232 ∷ 0 ∷ 0 ∷ 11 ∷ 184 ∷ []))))

resuming :
    IsResuming
      (client_with (token 2))
      40
      some_new
      some_table
      50
      1
      (quiet_port response_bytes)
      (quiet_port (request_bytes (token 2)))
unfolding resume_exchange handle_recovery_conn write_attach_request read_attach_request
    write_attach_response read_attach_response attach_resume encode_options duration_to_millis
    normalized_negotiated attach_response_bytes write_full read_full attach_request_bytes
    decode_options encoded_options
resuming = record {
  client_writes = refl;
  server_writes = refl;
  client_fresh = refl;
  server_fresh = refl;
  request = record { id_length = refl; secret_length = refl; seq_u64 = omega arith };
  later_up = [];
  later_down = [];
  up = refl;
  down = refl;
}

sendable : IsResponse (resume_response some_session)
unfolding normalized_negotiated
sendable = record {
  id_length = refl;
  secret_length = refl;
  seq_u64 = omega arith;
  options_fit = record {
    usable = record {
      ack_every_positive = omega arith;
      ack_delay_positive = (omega arith, omega arith);
      interval_positive = (omega arith, omega arith);
      timeout_positive = (omega arith, omega arith);
      timeout_enough = omega arith;
    };
    ack_every_u32 = omega arith;
    ack_delay_fits = omega arith;
    interval_fits = omega arith;
    timeout_fits = omega arith;
  };
  interval_whole = omega arith;
}

resume_attaches_both_example :
    ((handle_recovery_conn some_new some_table 50 1 (quiet_port (request_bytes (token 2)))).0.0
      ≡ ok tt)
    × ((handle_recovery_conn some_new some_table 50 1 (quiet_port (request_bytes (token 2)))).1
        ≡ update_session (token 1) (attach_to some_session 50 5) some_table)
    × ((resume_exchange (client_with (token 2)) 40 (quiet_port response_bytes)).0
        ≡ ok (record (client_with (token 2)) {
          options = normalized_negotiated (rounded some_options);
          transport = attach_transport new_transport 40 300;
        }))
resume_attaches_both_example =
    resume_attaches_both (client_with (token 2)) 40 some_new some_table 50 1
      (quiet_port response_bytes) (quiet_port (request_bytes (token 2))) resuming some_session refl
      refl refl refl sendable

abbrev refusal_bytes : Bytes
refusal_bytes = (write_attach_response rejected_response (quiet_port [])).1.written

guessing :
    IsResuming
      (client_with (token 9))
      40
      some_new
      some_table
      50
      1
      (quiet_port refusal_bytes)
      (quiet_port (request_bytes (token 9)))
unfolding resume_exchange handle_recovery_conn write_attach_request read_attach_request
    write_attach_response read_attach_response attach_resume encode_options duration_to_millis
    normalized_negotiated attach_response_bytes write_full read_full attach_request_bytes
    decode_options encoded_options reject_attach
guessing = record {
  client_writes = refl;
  server_writes = refl;
  client_fresh = refl;
  server_fresh = refl;
  request = record { id_length = refl; secret_length = refl; seq_u64 = omega arith };
  later_up = [];
  later_down = [];
  up = refl;
  down = refl;
}

ok-inj : {x y : AttachRequest} → ok x ≡ ok y → x ≡ y
ok-inj e = cc

tokens_differ : token 2 ≢ token 9
tokens_differ = λ e. absurd (ground arith)

refused_resume_is_told_example :
    ((reason : String) × ((handle_recovery_conn some_new some_table 50 1
          (quiet_port (request_bytes (token 9)))).0.0
        ≡ err (resume_rejected reason)))
    × ((handle_recovery_conn some_new some_table 50 1 (quiet_port (request_bytes (token 9)))).1
        ≡ some_table)
    × ((resume_exchange (client_with (token 9)) 40 (quiet_port refusal_bytes)).0
        ≡ err (resume_rejected ""))
    × (is_terminal (resume_rejected "") ≡ true)
refused_resume_is_told_example =
    refused_resume_is_told (client_with (token 9)) 40 some_new some_table 50 1
      (quiet_port refusal_bytes) (quiet_port (request_bytes (token 9))) guessing
      (wrong_secret some_session refl tokens_differ)

guessed_request :
    (read_attach_request (quiet_port (request_bytes (token 9)))).0
    ≡ ok (record { mode = 2; connection_id = token 1; resume_secret = token 9; last_recv_seq = 5 })
unfolding read_attach_request read_full parse_attach_request
guessed_request = refl

guessed_wrong :
    (req : AttachRequest)
    → (read_attach_request (quiet_port (request_bytes (token 9)))).0 ≡ ok req
    → token 2 ≢ req.resume_secret
guessed_wrong req e same =
    tokens_differ
      (same ∙ ap (λ (r : AttachRequest). r.resume_secret) (ok-inj (sym e ∙ guessed_request)))

session_kept_example :
    find_session
      (token 1)
      (handle_recovery_conn some_new some_table 50 1 (quiet_port (request_bytes (token 9)))).1
    ≡ some some_session
session_kept_example =
    session_kept (token 1) some_session some_new some_table 50 1
      (quiet_port (request_bytes (token 9))) refl (λ e. absurd (ground arith)) guessed_wrong
