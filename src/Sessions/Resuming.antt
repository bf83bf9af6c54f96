-- ===== src/Sessions/Resuming.antt =====
-- Both ends of a resume.
use adaptivemsg_go.Attach.{
  AttachResponse, attach_request_bytes, attach_response_bytes, read_attach_response,
  write_attach_request, write_attach_response,
}
use adaptivemsg_go.Attach.Options.{encoded}
use adaptivemsg_go.Attach.RoundTrip.{
  IsRequest, IsResponse, read_attach_request-write_attach_request,
  read_attach_response-write_attach_response, rounded,
}
use adaptivemsg_go.Attach.Sending.{
  continue-written, read_attach_response-written, write_attach_request-ok, write_attach_response-ok,
}
use adaptivemsg_go.Bytes.{Bytes, same_bytes, same_bytes_refl}
use adaptivemsg_go.Errors.{Result, ok}
use adaptivemsg_go.Port.{>>=-ok, Port}
use adaptivemsg_go.Prelude.{
  ==_iff, Bool, Bool-cases, Option, [], ap, false, if◌then◌else◌, inl, inr, not, refl, some, sym, ℕ,
  ◌++◌, ◌==◌, ◌∙◌, ◌≡◌,
}
use adaptivemsg_go.Recovery.{normalized_negotiated}
use adaptivemsg_go.Sessions.{
  ClientSession, NewSession, Outcome, Session, Sessions, accepted, attach_resume, attach_to,
  by_mode, find_session, handle_recovery_conn, reject_attach, resume_exchange, resume_found,
  resume_in, resume_request, resume_response, resumed, update_session,
}
use adaptivemsg_go.Transport.{attach_transport}

accepted-written :
    (s : ClientSession) (conn : ℕ) (resp : AttachResponse) (p : Port)
    → (accepted s conn resp p).1.written ≡ p.written
accepted-written s conn resp p = elim (Bool-cases (resp.status == 1)) [
  | inl e ↦ rw e refl
  | inr e ↦ rw e refl
]

-- What the client sends is its request.
resume_exchange-written :
    (s : ClientSession) (conn : ℕ) (p : Port)
    → (resume_exchange s conn p).1.written ≡ (write_attach_request (resume_request s) p).1.written
unfolding resume_exchange
resume_exchange-written s conn p =
    continue-written (write_attach_request (resume_request s) p) _ λ u q.
      continue-written (read_attach_response q) (accepted s conn) (accepted-written s conn)
      ∙ read_attach_response-written q

test_false : (b : Bool) (x y : Outcome) → b ≡ false → (if b then x else y) ≡ y
test_false b x y e = rw e

-- A client that resumes on a transport after the handshake, and the server at its other end, before
-- anything of the attach exchange is sent; what comes after it may be there already.
pub record IsResuming (c : ClientSession) (conn : ℕ) (new : NewSession) (table : Sessions)
    (peer_conn codec : ℕ) (p q : Port) : Type 0 where
  pub client_writes : p.script ≡ []
  pub server_writes : q.script ≡ []
  pub client_fresh : p.written ≡ []
  pub server_fresh : q.written ≡ []
  pub request : IsRequest (resume_request c)
  pub later_up : Bytes
  pub later_down : Bytes
  pub up : q.input ≡ (resume_exchange c conn p).1.written ++ later_up
  pub down : p.input ≡ (handle_recovery_conn new table peer_conn codec q).0.1.written ++ later_down

module _ (c : ClientSession) (conn : ℕ) (new : NewSession) (table : Sessions) (peer_conn codec : ℕ)
    (p q : Port) (j : IsResuming c conn new table peer_conn codec p q) where
  abbrev pub behind : Port
  behind = record q { input = j.later_up }

  -- The server reads the request, and comes to the lookup.
  pub server-lookup :
      handle_recovery_conn new table peer_conn codec q
      ≡ resume_in
          (find_session c.connection_id table)
          table
          peer_conn
          codec
          (resume_request c)
          behind
  unfolding handle_recovery_conn attach_resume
  server-lookup = ap (by_mode new table peer_conn codec) (
      read_attach_request-write_attach_request (resume_request c) p q j.later_up j.request
        j.client_writes j.client_fresh
        (j.up ∙ ap (λ (b : Bytes). b ++ j.later_up) (resume_exchange-written c conn p)))

  module _ (s : Session) (found : find_session c.connection_id table ≡ some s)
      (live : s.transport.is_closed ≡ false) (secret : s.resume_secret ≡ c.resume_secret)
      (codec_kept : s.codec_id ≡ codec) where
    server-found :
        handle_recovery_conn new table peer_conn codec q
        ≡ resumed table peer_conn
            (resume_request c)
            s
            (write_attach_response (resume_response s) behind)
    server-found =
        server-lookup
        ∙ (ap (λ (o : Option Session). resume_in o table peer_conn codec (resume_request c) behind)
              found
            ∙ (found_live ∙ (found_secret ∙ found_codec)))
      where
        tail_tests : Outcome
        tail_tests =
            if not (s.codec_id == codec)
            then (reject_attach "codec mismatch" behind, table)
            else resumed table peer_conn (resume_request c) s
                (write_attach_response (resume_response s) behind)

        found_live : resume_found table peer_conn codec (resume_request c) s behind ≡ (
            if not (same_bytes s.resume_secret c.resume_secret)
            then (reject_attach "resume secret mismatch" behind, table)
            else tail_tests)
        found_live = test_false s.transport.is_closed _ _ live

        found_secret :
            (if not (same_bytes s.resume_secret c.resume_secret)
              then (reject_attach "resume secret mismatch" behind, table)
              else tail_tests)
            ≡ tail_tests
        found_secret = test_false (not (same_bytes s.resume_secret c.resume_secret)) _ _ (
            ap not (
              ap (λ (b : Bytes). same_bytes b c.resume_secret) secret
              ∙ same_bytes_refl c.resume_secret))

        found_codec :
            tail_tests
            ≡ resumed table peer_conn
                (resume_request c)
                s
                (write_attach_response (resume_response s) behind)
        found_codec =
            test_false (not (s.codec_id == codec)) _ _
              (ap not ((==_iff s.codec_id codec).1 codec_kept))

    module _ (sendable : IsResponse (resume_response s)) where
      written_response : Port
      written_response = record behind {
        written = q.written ++ attach_response_bytes (resume_response s) (encoded s.options);
      }

      server_sent : write_attach_response (resume_response s) behind ≡ (ok tt, written_response)
      unfolding written_response
      server_sent =
          write_attach_response-ok (resume_response s) behind sendable.options_fit j.server_writes

      server_out : handle_recovery_conn new table peer_conn codec q ≡ (
        (ok tt, written_response),
        update_session c.connection_id (attach_to s peer_conn c.last_received) table,
      )
      server_out = server-found ∙ ap (resumed table peer_conn (resume_request c) s) server_sent

      -- The client reads what the server server_sent.
      sent_request : Port
      sent_request = record p { written = p.written ++ attach_request_bytes (resume_request c) }

      client-read : read_attach_response sent_request ≡ (
        ok (record (resume_response s) { options = rounded s.options }),
        record sent_request { input = j.later_down },
      )
      unfolding sent_request
      client-read =
          read_attach_response-write_attach_response (resume_response s) sendable behind
            sent_request j.later_down j.server_writes j.server_fresh
            (j.down
              ∙ ap (λ (o : Outcome). o.0.1.written ++ j.later_down) server_out
              ∙ ap (λ (r : Result (Unit {0}) × Port). r.1.written ++ j.later_down)
                  (sym server_sent))

      client_out :
          (resume_exchange c conn p).0
          ≡ ok (record c {
            options = normalized_negotiated (rounded s.options);
            transport = attach_transport c.transport conn s.last_received;
          })
      unfolding resume_exchange sent_request
      client_out =
          ap (λ (r : Result ClientSession × Port). r.0)
            (>>=-ok (write_attach_request (resume_request c)) _
                (write_attach_request-ok (resume_request c) p j.client_writes)
              ∙ >>=-ok read_attach_response (accepted c conn) client-read)

-- A client resumes on a new transport, and the server has a live session with its ID, its secret and
-- the codec of the handshake, whose response can be sent and read: the tokens have 16 bytes, the
-- options are usable, their durations in whole milliseconds fit 32 bits, and the heartbeat interval is
-- at least a millisecond. Then the server attaches its end of the transport to that session, with what
-- the client received last, and the client attaches its own end, with what the server received last,
-- so each side replays what the other is missing. The client takes the session's options, in whole
-- milliseconds and normalised.
pub resume_attaches_both :
    (c : ClientSession) (conn : ℕ) (new : NewSession) (table : Sessions) (peer_conn codec : ℕ)
    (p q : Port)
    → IsResuming c conn new table peer_conn codec p q
    → (s : Session) → find_session c.connection_id table ≡ some s
    → s.transport.is_closed ≡ false
    → s.resume_secret ≡ c.resume_secret
    → s.codec_id ≡ codec
    → IsResponse (resume_response s)
    → ((handle_recovery_conn new table peer_conn codec q).0.0 ≡ ok tt)
      × ((handle_recovery_conn new table peer_conn codec q).1
          ≡ update_session c.connection_id (attach_to s peer_conn c.last_received) table)
      × ((resume_exchange c conn p).0
          ≡ ok (record c {
            options = normalized_negotiated (rounded s.options);
            transport = attach_transport c.transport conn s.last_received;
          }))
resume_attaches_both c conn new table peer_conn codec p q j s found live secret kept_codec
      sendable =
    let out =
      server_out c conn new table peer_conn codec p q j s found live secret kept_codec sendable in
    (
      ap (λ (o : Outcome). o.0.0) out,
      ap (λ (o : Outcome). o.1) out,
      client_out c conn new table peer_conn codec p q j s found live secret kept_codec sendable,
    )
