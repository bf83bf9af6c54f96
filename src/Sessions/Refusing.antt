-- ===== src/Sessions/Refusing.antt =====
-- A resume that the server refuses.
use adaptivemsg_go.Attach.{
  AttachRequest, AttachResponse, read_attach_response, write_attach_request, write_attach_response,
}
use adaptivemsg_go.Attach.RoundTrip.{IsResponse, read_attach_response-write_attach_response}
use adaptivemsg_go.Attach.Sending.{write_attach_request-ok, write_attach_response-normalized}
use adaptivemsg_go.Bytes.{Bytes, same_bytes, same_bytes-eq}
use adaptivemsg_go.Errors.{Result, err, resume_rejected}
use adaptivemsg_go.Port.{>>=-ok, Port}
use adaptivemsg_go.Prelude.{
  Bool, Bool-cases, String, ap, arith, false, if◌then◌else◌, inl, inr, none, not, refl, some, true,
  ℕ, ◌++◌, ◌==◌, ◌∙◌, ◌≡◌, ◌≢◌, ◌⊎◌,
}
use adaptivemsg_go.Reconnect.{is_terminal}
use adaptivemsg_go.Recovery.{normalized_negotiated}
use adaptivemsg_go.Recovery.Defaults.{IsUsable, normalized_negotiated-IsUsable}
use adaptivemsg_go.Sessions.{
  ClientSession, NewSession, Outcome, Session, Sessions, accepted, find_session,
  handle_recovery_conn, reject_attach, rejected_response, resume_exchange, resume_found, resume_in,
  resume_request, resume_response, resumed,
}
use adaptivemsg_go.Sessions.Resuming.{IsResuming, behind, server-lookup}

-- There is no live session with the client's ID, secret and codec.
pub data IsRefused (c : ClientSession) (table : Sessions) (codec : ℕ) : Type 0 where
  no_session : find_session c.connection_id table ≡ none → IsRefused c table codec
  not_live :
      (s : Session)
      → find_session c.connection_id table ≡ some s
      → s.transport.is_closed ≡ true
      → IsRefused c table codec
  wrong_secret :
      (s : Session)
      → find_session c.connection_id table ≡ some s
      → s.resume_secret ≢ c.resume_secret
      → IsRefused c table codec
  wrong_codec :
      (s : Session)
      → find_session c.connection_id table ≡ some s
      → s.codec_id ≢ codec
      → IsRefused c table codec

-- A refusal of the request, whatever the reason given.
abbrev Refuses : Sessions → Port → Outcome → Type 0
Refuses table p out = (reason : String) × (out ≡ (reject_attach reason p, table))

differ : (a b : ℕ) → a ≢ b → (a == b) ≡ false
differ a b h = ground arith

same_bytes-false : (bs cs : Bytes) → bs ≢ cs → same_bytes bs cs ≡ false
same_bytes-false bs cs ne = elim (Bool-cases (same_bytes bs cs)) [
  | inl e ↦ absurd (ne (same_bytes-eq bs cs e))
  | inr e ↦ e
]

module _ (table : Sessions) (p : Port) where
  -- The first test that fails gives the reason.
  by_tests :
      (closed wrong other : Bool) (out : Outcome)
      → (closed ≡ true) ⊎ ((wrong ≡ true) ⊎ (other ≡ true))
      → Refuses table p (
          if closed
          then (reject_attach "connection not found" p, table)
          else if wrong
          then (reject_attach "resume secret mismatch" p, table)
          else if other
          then (reject_attach "codec mismatch" p, table)
          else out)
  by_tests true wrong other out h = ("connection not found", refl)
  by_tests false true other out h = ("resume secret mismatch", refl)
  by_tests false false true out h = ("codec mismatch", refl)
  by_tests false false false out (inl h) = absurd (cc)
  by_tests false false false out (inr (inl h)) = absurd (cc)
  by_tests false false false out (inr (inr h)) = absurd (cc)

found-Refuses :
    (table : Sessions) (conn codec : ℕ) (req : AttachRequest) (p : Port) (s : Session)
    → (s.transport.is_closed ≡ true)
      ⊎ ((not (same_bytes s.resume_secret req.resume_secret) ≡ true)
          ⊎ (not (s.codec_id == codec) ≡ true))
    → Refuses table p (resume_found table conn codec req s p)
found-Refuses table conn codec req p s h =
    by_tests table p s.transport.is_closed (not (same_bytes s.resume_secret req.resume_secret))
      (not (s.codec_id == codec))
      (resumed table conn req s (write_attach_response (resume_response s) p)) h

resume_in-Refuses :
    (c : ClientSession) (table : Sessions) (conn codec : ℕ) (p : Port)
    → IsRefused c table codec
    → Refuses table p
        (resume_in (find_session c.connection_id table) table conn codec (resume_request c) p)
resume_in-Refuses c table conn codec p (no_session e) = rw e ("connection not found", refl)
resume_in-Refuses c table conn codec p (not_live s e h) =
    rw e (found-Refuses table conn codec (resume_request c) p s (inl h))
resume_in-Refuses c table conn codec p (wrong_secret s e h) = rw e (
    found-Refuses table conn codec (resume_request c) p s
      (inr (inl (ap not (same_bytes-false s.resume_secret c.resume_secret h)))))
resume_in-Refuses c table conn codec p (wrong_codec s e h) = rw e (
    found-Refuses table conn codec (resume_request c) p s
      (inr (inr (ap not (differ s.codec_id codec h)))))

-- The response of a refusal, with the options that the encoding makes of none.
abbrev refusal : AttachResponse
refusal = record rejected_response { options = normalized_negotiated rejected_response.options }

usable : IsUsable (normalized_negotiated rejected_response.options)
usable = normalized_negotiated-IsUsable rejected_response.options (record {
  ack_delay_i64 = omega arith;
  interval_i64 = omega arith;
  timeout_i64 = omega arith;
  interval_doubles = inr (omega arith);
})

refusal-IsResponse : IsResponse refusal
unfolding normalized_negotiated
refusal-IsResponse = record {
  id_length = refl;
  secret_length = refl;
  seq_u64 = omega arith;
  options_fit = record {
    usable = usable;
    ack_every_u32 = omega arith;
    ack_delay_fits = omega arith;
    interval_fits = omega arith;
    timeout_fits = omega arith;
  };
  interval_whole = omega arith;
}

module _ (c : ClientSession) (conn : ℕ) (new : NewSession) (table : Sessions) (peer_conn codec : ℕ)
    (p q : Port) (j : IsResuming c conn new table peer_conn codec p q) where
  refused_client :
      (reason : String)
      → handle_recovery_conn new table peer_conn codec q
        ≡ (reject_attach reason (behind c conn new table peer_conn codec p q j), table)
      → (resume_exchange c conn p).0 ≡ err (resume_rejected "")
  unfolding resume_exchange reject_attach
  refused_client reason out =
      ap (λ (r : Result ClientSession × Port). r.0)
        (>>=-ok (write_attach_request (resume_request c)) _
            (write_attach_request-ok (resume_request c) p j.client_writes)
          ∙ >>=-ok read_attach_response (accepted c conn) (
              read_attach_response-write_attach_response refusal refusal-IsResponse
                (record q { input = j.later_up }) _ j.later_down j.server_writes j.server_fresh
                (j.down
                  ∙ ap (λ (o : Outcome). o.0.1.written ++ j.later_down) out
                  ∙ ap (λ (r : Result (Unit {0}) × Port). r.1.written ++ j.later_down)
                      (write_attach_response-normalized rejected_response
                        (record q { input = j.later_up }) usable))))

-- A client resumes on a new transport, and the server has no session with its ID, or one that is
-- closed, has another secret, or another codec than the handshake gave: the server keeps its sessions
-- as they are and reports an error, for which it closes the transport, and the client learns that the
-- resume is rejected, the error for which it stops reconnecting.
pub refused_resume_is_told :
    (c : ClientSession) (conn : ℕ) (new : NewSession) (table : Sessions) (peer_conn codec : ℕ)
    (p q : Port)
    → IsResuming c conn new table peer_conn codec p q
    → IsRefused c table codec
    → ((reason : String) × ((handle_recovery_conn new table peer_conn codec q).0.0
          ≡ err (resume_rejected reason)))
      × ((handle_recovery_conn new table peer_conn codec q).1 ≡ table)
      × ((resume_exchange c conn p).0 ≡ err (resume_rejected ""))
      × (is_terminal (resume_rejected "") ≡ true)
unfolding reject_attach
refused_resume_is_told c conn new table peer_conn codec p q j h =
    let (reason, e) =
      resume_in-Refuses c table peer_conn codec (behind c conn new table peer_conn codec p q j) h in
    let out = server-lookup c conn new table peer_conn codec p q j ∙ e in
    (
      (reason, ap (λ (o : Outcome). o.0.0) out),
      ap (λ (o : Outcome). o.1) out,
      refused_client c conn new table peer_conn codec p q j reason out,
      refl,
    )
