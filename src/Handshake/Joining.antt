-- ===== src/Handshake/Joining.antt =====
-- A client and a server joined back to back: what each reads of the other.
use adaptivemsg_go.Bytes.{Bytes, get_u32-put_u32}
use adaptivemsg_go.Codecs.{CodecRegistry}
use adaptivemsg_go.Errors.{Error, Result, err, no_common_codec, ok, unsupported_frame_version}
use adaptivemsg_go.Frame.{ConnConfig}
use adaptivemsg_go.Handshake.{
  accept_reply, agree, answer, client_request, discard_handshake_codecs, handshake_client,
  handshake_server, is_supported_protocol_version, new_conn_config, refuse, select_codec,
  server_reply, supported_protocol_version, validate_codec_list, write_handshake_reply,
}
use adaptivemsg_go.Handshake.Ends.{
  handshake_client-eq, handshake_client-written, handshake_server-eq, request_header,
}
use adaptivemsg_go.Handshake.Replies.{validate_codec_list_short}
use adaptivemsg_go.Handshake.Selection.{negotiate_max_frame-eq-min}
use adaptivemsg_go.Port.{>>=-ok, Port, read_full, return, write_full}
use adaptivemsg_go.Port.Transfer.{read_full-append, write_full_all}
use adaptivemsg_go.Prelude.{
  ==_iff, Bool, Bool-cases, List, [], ap, arith, false, inl, inr, leb-false, length, ltb, min, none,
  not, refl, some, true, ℕ, ◌&&◌, ◌++◌, ◌<◌, ◌==◌, ◌^◌, ◌∙◌, ◌≡◌,
}

-- A client and a server with their transports joined, before anything is sent. What either side
-- sends after the handshake may already be there to be read.
pub record IsJoined (registry : CodecRegistry) (offered codecs : List ℕ)
    (client_max server_max version : ℕ) (recovery : Bool) (p q : Port) : Type 0 where
  pub client_list : validate_codec_list registry offered ≡ none
  pub server_list : validate_codec_list registry codecs ≡ none
  pub version_known : is_supported_protocol_version version ≡ true
  pub client_max_u32 : client_max < 2 ^ 32
  pub server_max_u32 : server_max < 2 ^ 32
  pub client_writes : p.script ≡ []
  pub server_writes : q.script ≡ []
  pub client_fresh : p.written ≡ []
  pub server_fresh : q.written ≡ []
  pub later_up : Bytes
  pub later_down : Bytes
  pub up : q.input ≡ (handshake_client registry offered client_max version p).1.written ++ later_up
  pub down :
      p.input ≡ (handshake_server registry codecs server_max recovery q).1.written ++ later_down

module _ (registry : CodecRegistry) (offered codecs : List ℕ) (client_max server_max version : ℕ)
    (recovery : Bool) (p q : Port)
    (j : IsJoined registry offered codecs client_max server_max version recovery p q) where
  header : Bytes
  header = request_header (length offered) client_max version

  server_start :
      handshake_server registry codecs server_max recovery q
      ≡ answer registry codecs server_max recovery header
          (record q { input = offered ++ j.later_up })
  unfolding header
  server_start =
      handshake_server-eq registry offered codecs client_max server_max version recovery q
        j.later_up j.server_list
        (omega (arith, validate_codec_list_short registry offered j.client_list))
        (j.up
          ∙ ap (λ b. b ++ j.later_up)
              (handshake_client-written registry offered client_max version p j.client_list
                  j.version_known j.client_writes
                ∙ ap (λ b. b ++ client_request offered client_max version) j.client_fresh))

  -- Once it is known what the server sends, the client's result is its answer to that.
  pub client_end :
      (reply : Bytes)
      → length reply ≡ 12
      → (handshake_server registry codecs server_max recovery q).1.written ≡ reply
      → (handshake_client registry offered client_max version p).0
        ≡ accept_reply registry offered version reply
  client_end reply hl hw =
      ap (λ (r : Result ConnConfig × Port). r.0)
        (handshake_client-eq registry offered client_max version p reply j.later_down j.client_list
          j.version_known j.client_writes hl (j.down ∙ ap (λ b. b ++ j.later_down) hw))

  read_codecs :
      read_full (length offered) (record q { input = offered ++ j.later_up })
      ≡ (ok offered, record q { input = j.later_up })
  read_codecs =
      read_full-append offered j.later_up (record q { input = offered ++ j.later_up }) refl

  -- A request in a version that the server accepts comes to the choice of the codec.
  answer-agree :
      ((version ≡ 3) → (recovery ≡ true))
      → answer registry codecs server_max recovery header
          (record q { input = offered ++ j.later_up })
        ≡ agree registry codecs server_max version client_max offered
            (record q { input = j.later_up })
  unfolding answer header
  answer-agree h =
      rw
        (
          j.version_known,
          version_ok h,
          counted.0,
          counted.1,
          get_u32-put_u32 client_max j.client_max_u32,
        )
        (>>=-ok (read_full (length offered)) (agree registry codecs server_max version client_max)
          read_codecs)
    where
      counted : ((length offered == 0) ≡ false) × (ltb 16 (length offered) ≡ false)
      counted = ground (arith, validate_codec_list_short registry offered j.client_list)

      version_ok : ((version ≡ 3) → (recovery ≡ true)) → ((version == 3) && not recovery) ≡ false
      version_ok h = elim (Bool-cases (version == 3)) [
        | inl e ↦ rw (e, h ((==_iff version 3).0 e)) refl
        | inr e ↦ rw e refl
      ]

  -- The server's side, for each outcome of the choice.
  pub server-selected :
      (s : ℕ)
      → ((version ≡ 3) → (recovery ≡ true))
      → select_codec offered codecs ≡ some s
      → handshake_server registry codecs server_max recovery q ≡ (
        new_conn_config registry version s (min client_max server_max),
        record q {
          input = j.later_up;
          written = server_reply 1 version s (min client_max server_max);
        },
      )
  unfolding agree write_handshake_reply
  server-selected s h e =
      server_start
      ∙ answer-agree h
      ∙ rw (e, agree, negotiate_max_frame-eq-min client_max server_max)
          (>>=-ok (write_full reply) _
              (write_full_all reply (record q { input = j.later_up }) j.server_writes)
            ∙ ap
                (λ w. (
                  new_conn_config registry version s (min client_max server_max),
                  record q { input = j.later_up; written = w ++ reply },
                ))
                j.server_fresh)
    where
      reply : Bytes
      reply = server_reply 1 version s (min client_max server_max)

  refuse-eq :
      (other : ℕ) (x : Error) (q' : Port)
      → q'.script ≡ []
      → q'.written ≡ []
      → refuse other x q' ≡ (err x, record q' { written = server_reply 0 other 0 0 })
  unfolding refuse write_handshake_reply
  refuse-eq other x q' e w =
      rw (write_full_all (server_reply 0 other 0 0) q' e)
        (ap (λ (b : Bytes). (err x, record q' { written = b ++ server_reply 0 other 0 0 })) w)

  pub server-none :
      ((version ≡ 3) → (recovery ≡ true))
      → select_codec offered codecs ≡ none
      → handshake_server registry codecs server_max recovery q ≡ (
        err no_common_codec,
        record q { input = j.later_up; written = server_reply 0 version 0 0 },
      )
  unfolding agree
  server-none h e =
      server_start
      ∙ answer-agree h
      ∙ rw (e, agree)
          (refuse-eq version no_common_codec (record q { input = j.later_up }) j.server_writes
            j.server_fresh)

  discard-eq :
      discard_handshake_codecs (length offered) (record q { input = offered ++ j.later_up })
      ≡ (ok tt, record q { input = j.later_up })
  unfolding discard_handshake_codecs
  discard-eq =
      rw (leb-false (length offered) 0 (validate_codec_list_short registry offered j.client_list).0)
        (>>=-ok (read_full (length offered)) (λ bytes. return tt) read_codecs)

  -- A server without recovery discards the codecs and refuses version 3 with its own version.
  pub server_old :
      version ≡ 3
      → recovery ≡ false
      → handshake_server registry codecs server_max recovery q ≡ (
        err (unsupported_frame_version 3),
        record q { input = j.later_up; written = server_reply 0 2 0 0 },
      )
  unfolding answer header supported_protocol_version is_supported_protocol_version refuse
  server_old e r =
      server_start
      ∙ rw (e, r)
          (>>=-ok (discard_handshake_codecs (length offered))
              (λ u. refuse 2 (unsupported_frame_version 3)) discard-eq
            ∙ refuse-eq 2 (unsupported_frame_version 3) (record q { input = j.later_up })
                j.server_writes j.server_fresh)
