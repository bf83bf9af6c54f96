-- ===== src/Attach/RoundTrip.antt =====
-- Attach requests and responses are read back.
use adaptivemsg_go.Attach.{
  AttachRequest, AttachResponse, attach_request_bytes, parse_attach_request, read_attach_request,
  read_attach_response, write_attach_request, write_attach_response,
}
use adaptivemsg_go.Attach.Fronts.{filled, front, length-front, read_id, read_secret}
use adaptivemsg_go.Attach.Options.{FitsWire, decode_options-encode_options, whole_millis}
use adaptivemsg_go.Attach.Responses.{IsWritable, response_received}
use adaptivemsg_go.Bytes.{Bytes, get_u64, get_u64-put_u64, put_u64}
use adaptivemsg_go.Duration.{millisecond}
use adaptivemsg_go.Errors.{Result, ok}
use adaptivemsg_go.Port.{>>=-ok, Port, read_full}
use adaptivemsg_go.Port.Transfer.{read_full-append, write_full_all}
use adaptivemsg_go.Prelude.{
  [], ap, arith, copy_at, copy_at-skip, length, length-append, replicate, slice-skip, sym, ◌++◌,
  ◌<◌, ◌^◌, ◌∙◌, ◌≡◌, ◌≤◌,
}
use adaptivemsg_go.Recovery.{NegotiatedRecoveryOptions}

pub record IsRequest (req : AttachRequest) : Type 0 where
  pub id_length : length req.connection_id ≡ 16
  pub secret_length : length req.resume_secret ≡ 16
  pub seq_u64 : req.last_recv_seq < 2 ^ 64

pub record IsResponse (resp : AttachResponse) : Type 0 where
  pub id_length : length resp.connection_id ≡ 16
  pub secret_length : length resp.resume_secret ≡ 16
  pub seq_u64 : resp.last_recv_seq < 2 ^ 64
  pub options_fit : FitsWire resp.options
  pub interval_whole : millisecond ≤ resp.options.heartbeat_interval

request_bytes-eq :
    (req : AttachRequest)
    → IsRequest req
    → attach_request_bytes req
      ≡ front req.mode req.connection_id req.resume_secret ++ put_u64 req.last_recv_seq
unfolding attach_request_bytes
request_bytes-eq req v =
    ap (λ t. copy_at t 36 (put_u64 req.last_recv_seq))
      (filled req.mode req.connection_id req.resume_secret v.id_length v.secret_length
        (replicate 8 0))
    ∙ copy_at-skip (front req.mode req.connection_id req.resume_secret) (replicate 8 0)
        (put_u64 req.last_recv_seq) 36 0
        (omega (
          arith,
          length-front req.mode req.connection_id req.resume_secret v.id_length v.secret_length,
        ))

-- The server reads the request that the client wrote, and leaves what follows it.
pub read_attach_request-write_attach_request :
    (req : AttachRequest) (p q : Port) (rest : Bytes)
    → IsRequest req
    → p.script ≡ []
    → p.written ≡ []
    → q.input ≡ (write_attach_request req p).1.written ++ rest
    → read_attach_request q ≡ (ok req, record q { input = rest })
unfolding write_attach_request read_attach_request
read_attach_request-write_attach_request req p q rest v e w i =
    >>=-ok (read_full 44) _
      (ap (λ n. read_full n q) (sym size) ∙ read_full-append bytes rest q given)
    ∙ ap (λ r. (ok r, record q { input = rest })) parsed
  where
    bytes : Bytes
    bytes = front req.mode req.connection_id req.resume_secret ++ put_u64 req.last_recv_seq

    given : q.input ≡ bytes ++ rest
    given =
        i
        ∙ ap (λ (r : Result (Unit {0}) × Port). r.1.written ++ rest)
            (write_full_all (attach_request_bytes req) p e)
        ∙ ap (λ t. (t ++ attach_request_bytes req) ++ rest) w
        ∙ ap (λ t. t ++ rest) (request_bytes-eq req v)

    size : length bytes ≡ 44
    size = omega (
      arith,
      length-append (front req.mode req.connection_id req.resume_secret)
          (put_u64 req.last_recv_seq),
      length-front req.mode req.connection_id req.resume_secret v.id_length v.secret_length,
    )

    parsed : parse_attach_request bytes ≡ req
    parsed = λ j. record {
      mode = req.mode;
      connection_id =
          read_id req.mode req.connection_id req.resume_secret v.id_length v.secret_length
            (put_u64 req.last_recv_seq) j;
      resume_secret =
          read_secret req.mode req.connection_id req.resume_secret v.id_length v.secret_length
            (put_u64 req.last_recv_seq) j;
      last_recv_seq =
          (ap get_u64 (
                slice-skip (front req.mode req.connection_id req.resume_secret)
                  (put_u64 req.last_recv_seq) 36 44 0 8
                  (omega (
                    arith,
                    length-front req.mode req.connection_id req.resume_secret v.id_length
                        v.secret_length,
                  ))
                  (omega (
                    arith,
                    length-front req.mode req.connection_id req.resume_secret v.id_length
                        v.secret_length,
                  )))
              ∙ get_u64-put_u64 req.last_recv_seq v.seq_u64)
            j;
    }

IsResponse-IsWritable : (resp : AttachResponse) → IsResponse resp → IsWritable resp
IsResponse-IsWritable resp v = record {
  id_length = v.id_length;
  secret_length = v.secret_length;
  seq_u64 = v.seq_u64;
  options_fit = v.options_fit;
}

-- The options in whole milliseconds
abbrev pub rounded : NegotiatedRecoveryOptions → NegotiatedRecoveryOptions
rounded o = record {
  ack_every = o.ack_every;
  ack_delay = whole_millis o.ack_delay;
  heartbeat_interval = whole_millis o.heartbeat_interval;
  heartbeat_timeout = whole_millis o.heartbeat_timeout;
}

-- A response with tokens of 16 bytes, and options that are usable, whose durations in whole
-- milliseconds fit 32 bits, and whose heartbeat interval is at least a millisecond: the client reads
-- the response that the server wrote, the status, the tokens and the sequence number as they are, the
-- durations in whole milliseconds, rounded down, and up to one where they are below it.
pub read_attach_response-write_attach_response :
    (resp : AttachResponse)
    → IsResponse resp
    → (p q : Port) (rest : Bytes) → p.script ≡ []
    → p.written ≡ []
    → q.input ≡ (write_attach_response resp p).1.written ++ rest
    → read_attach_response q
      ≡ (ok (record resp { options = rounded resp.options }), record q { input = rest })
read_attach_response-write_attach_response resp v p q rest e w i =
    (response_received resp (IsResponse-IsWritable resp v) p q rest e w i
      (ok (rounded resp.options))
      (decode_options-encode_options resp.options v.options_fit v.interval_whole)).1
