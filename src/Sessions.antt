-- ===== src/Sessions.antt =====
-- server.go and client.go: how a connection with recovery starts, and how it gets a new transport.
mod Tests
pub mod Authority
pub mod Resuming
pub mod Refusing
use adaptivemsg_go.Attach.{
  AttachRequest, AttachResponse, attach_mode_new, attach_mode_resume, attach_status_ok,
  attach_status_rejected, read_attach_request, read_attach_response, recovery_token_len,
  write_attach_request, write_attach_response,
}
use adaptivemsg_go.Bytes.{Bytes, same_bytes}
use adaptivemsg_go.Codecs.{CodecRegistry}
use adaptivemsg_go.Errors.{Error, Result, err, ok, resume_rejected}
use adaptivemsg_go.Frame.{ConnConfig}
use adaptivemsg_go.Handshake.{handshake_client}
use adaptivemsg_go.Port.{Io, Port, fail, ignore, ◌>>=◌, ◌>>◌}
use adaptivemsg_go.Prelude.{
  List, Option, String, [], if◌then◌else◌, none, not, replicate, some, ℕ, ◌==◌, ◌∷◌,
}
use adaptivemsg_go.Recovery.{NegotiatedRecoveryOptions, normalized_negotiated}
use adaptivemsg_go.Transport.{Transport, attach_transport, new_transport}

-- A recovery connection of the server: the tokens of its recoveryState, what lastReceived and
-- negotiated return, the codec of its config, and its transport. `closed` of the connection is
-- `is_closed` of the transport.
pub record Session : Type 0 where
  pub connection_id : Bytes
  pub resume_secret : Bytes
  pub codec_id : ℕ
  pub last_received : ℕ
  pub options : NegotiatedRecoveryOptions
  pub transport : Transport

-- `recoveryConns`, an association list by the connection's ID
abbrev pub Sessions : Type 0
Sessions = List (Bytes × Session)

abbrev pub find_session : Bytes → Sessions → Option Session
find_session id [] = none
find_session id ((i, s) ∷ table) = if same_bytes i id then some s else find_session id table

-- `s.recoveryConns[id] = connection` for a new ID, and a change of the connection that is there.
abbrev pub store_session : Bytes → Session → Sessions → Sessions
store_session id s table = (id, s) ∷ table

abbrev pub update_session : Bytes → Session → Sessions → Sessions
update_session id s [] = []
update_session id s ((i, t) ∷ table) =
    if same_bytes i id then (i, s) ∷ table else (i, t) ∷ update_session id s table

-- `removeRecoveryConnection`, where the connection is the one in the table.
abbrev pub remove_session : Bytes → Sessions → Sessions
remove_session id [] = []
remove_session id ((i, s) ∷ table) =
    if same_bytes i id then remove_session id table else (i, s) ∷ remove_session id table

abbrev pub attach_to : Session → ℕ → ℕ → Session
attach_to s conn seq = record s { transport = attach_transport s.transport conn seq }

-- The result for handleConn, the transport, and the sessions.
abbrev pub Outcome : Type 0
Outcome = (Result (Unit {0}) × Port) × Sessions

abbrev pub rejected_response : AttachResponse
rejected_response = record {
  status = attach_status_rejected;
  connection_id = replicate recovery_token_len 0;
  resume_secret = replicate recovery_token_len 0;
  last_recv_seq = 0;
  options = record { ack_every = 0; ack_delay = 0; heartbeat_interval = 0; heartbeat_timeout = 0 };
}

-- `rejectAttach`
unfoldable pub reject_attach : String → Io (Unit {0})
reject_attach reason = do
  ignore (write_attach_response rejected_response)
  fail (resume_rejected reason)

abbrev pub resume_response : Session → AttachResponse
resume_response s = record {
  status = attach_status_ok;
  connection_id = s.connection_id;
  resume_secret = s.resume_secret;
  last_recv_seq = s.last_received;
  options = s.options;
}

-- The end of `attachResume`, with what the writing of the response came to.
abbrev pub resumed : Sessions → ℕ → AttachRequest → Session → Result (Unit {0}) × Port → Outcome
resumed table conn req s (err e, p) = ((err e, p), table)
resumed table conn req s (ok u, p) =
    ((ok u, p), update_session req.connection_id (attach_to s conn req.last_recv_seq) table)

abbrev pub resume_found : Sessions → ℕ → ℕ → AttachRequest → Session → Port → Outcome
resume_found table conn codec_id req s p =
    if s.transport.is_closed
    then (reject_attach "connection not found" p, table)
    else if not (same_bytes s.resume_secret req.resume_secret)
    then (reject_attach "resume secret mismatch" p, table)
    else if not (s.codec_id == codec_id)
    then (reject_attach "codec mismatch" p, table)
    else resumed table conn req s (write_attach_response (resume_response s) p)

abbrev pub resume_in : Option Session → Sessions → ℕ → ℕ → AttachRequest → Port → Outcome
resume_in none table conn codec_id req p = (reject_attach "connection not found" p, table)
resume_in (some s) table conn codec_id req p = resume_found table conn codec_id req s p

-- `attachResume`
unfoldable pub attach_resume : Sessions → ℕ → ℕ → AttachRequest → Port → Outcome
attach_resume table conn codec_id req p =
    resume_in (find_session req.connection_id table) table conn codec_id req p

-- What `attachNew` takes from elsewhere: the two random tokens, the options of the server, and what
-- OnConnect returns.
pub record NewSession : Type 0 where
  pub connection_id : Result Bytes
  pub resume_secret : Result Bytes
  pub options : NegotiatedRecoveryOptions
  pub on_connect : Option Error

abbrev pub fresh_session : NewSession → ℕ → Bytes → Bytes → Session
fresh_session new codec_id id secret = record {
  connection_id = id;
  resume_secret = secret;
  codec_id = codec_id;
  last_received = 0;
  options = normalized_negotiated new.options;
  transport = new_transport;
}

-- A connection that OnConnect refuses is marked as closed, and removed by onClosed.
abbrev pub connected : Option Error → Sessions → ℕ → Bytes → Session → Port → Outcome
connected none table conn id s p = ((ok tt, p), store_session id (attach_to s conn 0) table)
connected (some e) table conn id s p = ((err e, p), remove_session id (store_session id s table))

abbrev pub new_written :
    NewSession → Sessions → ℕ → Bytes → Session → Result (Unit {0}) × Port → Outcome
new_written new table conn id s (err e, p) =
    ((err e, p), remove_session id (store_session id s table))
new_written new table conn id s (ok u, p) = connected new.on_connect table conn id s p

abbrev pub new_with_tokens :
    NewSession → Sessions → ℕ → ℕ → Result Bytes → Result Bytes → Port → Outcome
new_with_tokens new table conn codec_id (err e) secret p = ((err e, p), table)
new_with_tokens new table conn codec_id (ok id) (err e) p = ((err e, p), table)
new_with_tokens new table conn codec_id (ok id) (ok secret) p =
    let s = fresh_session new codec_id id secret in
    new_written new table conn id s
      (write_attach_response (record (resume_response s) { options = new.options }) p)

-- `attachNew`, up to the start of the connection's loops.
unfoldable pub attach_new : NewSession → Sessions → ℕ → ℕ → Port → Outcome
attach_new new table conn codec_id p =
    new_with_tokens new table conn codec_id new.connection_id new.resume_secret p

abbrev pub by_mode : NewSession → Sessions → ℕ → ℕ → Result AttachRequest × Port → Outcome
by_mode new table conn codec_id (err e, p) = ((err e, p), table)
by_mode new table conn codec_id (ok req, p) =
    if req.mode == attach_mode_new
    then attach_new new table conn codec_id p
    else if req.mode == attach_mode_resume
    then attach_resume table conn codec_id req p
    else (reject_attach "invalid attach mode" p, table)

-- `handleRecoveryConn`; on an error handleConn closes the transport.
unfoldable pub handle_recovery_conn : NewSession → Sessions → ℕ → ℕ → Port → Outcome
handle_recovery_conn new table conn codec_id p =
    by_mode new table conn codec_id (read_attach_request p)

-- The client's end: its recoveryState and its transport.
pub record ClientSession : Type 0 where
  pub connection_id : Bytes
  pub resume_secret : Bytes
  pub last_received : ℕ
  pub options : NegotiatedRecoveryOptions
  pub transport : Transport

abbrev pub zero_token : Bytes
zero_token = replicate recovery_token_len 0

abbrev pub started : ℕ → Port → AttachResponse → Result ClientSession × Port
started conn p resp =
    if not (resp.status == attach_status_ok)
    then (err (resume_rejected "initial attach rejected"), p)
    else (
      ok (record {
        connection_id = resp.connection_id;
        resume_secret = resp.resume_secret;
        last_received = 0;
        options = normalized_negotiated resp.options;
        transport = attach_transport new_transport conn resp.last_recv_seq;
      }),
      p,
    )

-- `startRecoveryConnection`
unfoldable pub start_recovery_connection : ℕ → Io ClientSession
start_recovery_connection conn = do
  write_attach_request (record {
    mode = attach_mode_new;
    connection_id = zero_token;
    resume_secret = zero_token;
    last_recv_seq = 0;
  })
  resp ← read_attach_response
  λ p. started conn p resp

abbrev pub resume_request : ClientSession → AttachRequest
resume_request s = record {
  mode = attach_mode_resume;
  connection_id = s.connection_id;
  resume_secret = s.resume_secret;
  last_recv_seq = s.last_received;
}

abbrev pub accepted : ClientSession → ℕ → AttachResponse → Io ClientSession
accepted s conn resp p =
    if not (resp.status == attach_status_ok) then (err (resume_rejected ""), p) else (
      ok (record s {
        options = normalized_negotiated resp.options;
        transport = attach_transport s.transport conn resp.last_recv_seq;
      }),
      p,
    )

-- `resumeClientTransport` behind the handshake: on an error the new transport is closed.
unfoldable pub resume_exchange : ClientSession → ℕ → Io ClientSession
resume_exchange s conn = do
  write_attach_request (resume_request s)
  resp ← read_attach_response
  accepted s conn resp

-- And the handshake, on a transport that was dialed.
abbrev pub same_codec : ℕ → ConnConfig → Io (Unit {0})
same_codec codec_id config p =
    if config.codec_id == codec_id
    then (ok tt, p)
    else (err (resume_rejected "codec changed on resume"), p)

pub resume_client_transport : CodecRegistry → ℕ → ℕ → ClientSession → ℕ → Io ClientSession
resume_client_transport registry codec_id max_frame s conn = do
  config ← handshake_client registry (codec_id ∷ []) max_frame 3
  same_codec codec_id config
  resume_exchange s conn
