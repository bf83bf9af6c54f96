-- ===== src/Handshake/Agreement.antt =====
-- A client and a server agree, or they fail in the same way.
use adaptivemsg_go.Codecs.{Codec, CodecRegistry, codec_by_id}
use adaptivemsg_go.Errors.{Result, err, ok, unsupported_frame_version}
use adaptivemsg_go.Frame.{ConnConfig, frame_header_len_for_version}
use adaptivemsg_go.Frame.HeaderBytes.{IsValidConfig, header_len_of}
use adaptivemsg_go.Handshake.{
  contains_codec, handshake_client, handshake_server, is_supported_protocol_version,
  new_conn_config, select_codec, server_reply,
}
use adaptivemsg_go.Handshake.Joining.{IsJoined, client_end, server-selected, server_old}
use adaptivemsg_go.Handshake.Replies.{
  accept_reply-ok, accept_reply_version, new_conn_config-eq, validate_codec_ids_registered,
  validate_codec_list_short,
}
use adaptivemsg_go.Handshake.Selection.{
  FirstCommon, contains_codec_append, select_codec-FirstCommon,
}
use adaptivemsg_go.Port.{Port}
use adaptivemsg_go.Prelude.{
  Bool, List, ap, arith, false, min, refl, some, true, ℕ, ◌<◌, ◌^◌, ◌∙◌, ◌≡◌,
}

-- What the two ends have after a handshake that succeeds.
pub record Agreed (registry : CodecRegistry) (offered codecs : List ℕ)
    (client_max server_max version : ℕ) (client server : Result ConnConfig) : Type 0 where
  pub config : ConnConfig
  pub client_has : client ≡ ok config
  pub server_has : server ≡ ok config
  pub valid : IsValidConfig config
  pub same_version : config.version ≡ version
  pub smaller_max : config.max_frame ≡ min client_max server_max
  pub first_common : FirstCommon offered codecs config.codec_id

module _ (registry : CodecRegistry) (offered codecs : List ℕ) (client_max server_max version : ℕ)
    (recovery : Bool) (p q : Port)
    (j : IsJoined registry offered codecs client_max server_max version recovery p q) where
  -- Where the server takes the client's version and supports a codec that the client offers, both
  -- sides end with the same valid config: the client's version, its first codec that the server
  -- supports, and the smaller of the two frame limits.
  pub handshake-Agreed :
      {s : ℕ}
      → ((version ≡ 3) → (recovery ≡ true))
      → select_codec offered codecs ≡ some s
      → Agreed registry offered codecs client_max server_max version
          (handshake_client registry offered client_max version p).0
          (handshake_server registry codecs server_max recovery q).0
  handshake-Agreed {s} h e = go (select_codec-FirstCommon offered codecs e)
    where
      m : ℕ
      m = min client_max server_max

      server : handshake_server registry codecs server_max recovery q ≡ (
        new_conn_config registry version s m,
        record q { input = j.later_up; written = server_reply 1 version s m },
      )
      server =
          server-selected registry offered codecs client_max server_max version recovery p q j s h e

      go :
          FirstCommon offered codecs s
          → Agreed registry offered codecs client_max server_max version
              (handshake_client registry offered client_max version p).0
              (handshake_server registry codecs server_max recovery q).0
      go first = build (
          validate_codec_ids_registered registry codecs s
            (validate_codec_list_short registry codecs j.server_list).2 first.supported_too)
        where
          build :
              (c : Codec) × (codec_by_id registry s ≡ some c)
              → Agreed registry offered codecs client_max server_max version
                  (handshake_client registry offered client_max version p).0
                  (handshake_server registry codecs server_max recovery q).0
          build (c, found) = record {
            config = config;
            client_has =
                client_end registry offered codecs client_max server_max version recovery p q j
                  (server_reply 1 version s m) (unfold server_reply in refl)
                  (ap (λ (r : Result ConnConfig × Port). r.1.written) server)
                ∙ accept_reply-ok registry offered version s m small (
                    ap (λ t. contains_codec t s) first.offered
                    ∙ contains_codec_append first.before first.after s)
                ∙ made;
            server_has = ap (λ (r : Result ConnConfig × Port). r.0) server ∙ made;
            valid = record {
              version_known =
                  unfold is_supported_protocol_version in ground (arith, j.version_known);
              header_len_fits =
                  unfold frame_header_len_for_version header_len_of is_supported_protocol_version in
                  ground (arith, j.version_known);
              max_frame_u32 = small;
            };
            same_version = refl;
            smaller_max = refl;
            first_common = first;
          }
            where
              small : m < 2 ^ 32
              small = omega (arith, j.client_max_u32)

              config : ConnConfig
              config = record {
                version = version;
                codec_id = s;
                codec = c;
                max_frame = m;
                header_len = header_len_of version;
              }

              made : new_conn_config registry version s m ≡ ok config
              made = new_conn_config-eq registry version s m c j.version_known found

  -- A server without recovery answers a version 3 client with its own version 2, and the client's
  -- error names that version: the case in which connectAttempt of client.go falls back to version 2.
  pub handshake_old_server :
      version ≡ 3
      → recovery ≡ false
      → ((handshake_client registry offered client_max version p).0
          ≡ err (unsupported_frame_version 2))
        × ((handshake_server registry codecs server_max recovery q).0
            ≡ err (unsupported_frame_version 3))
  handshake_old_server e r = (
    client_end registry offered codecs client_max server_max version recovery p q j
          (server_reply 0 2 0 0) (unfold server_reply in refl)
          (ap (λ (t : Result ConnConfig × Port). t.1.written) server)
        ∙ accept_reply_version registry offered version 2 (ground arith),
    ap (λ (t : Result ConnConfig × Port). t.0) server,
  )
    where
      server : handshake_server registry codecs server_max recovery q ≡ (
        err (unsupported_frame_version 3),
        record q { input = j.later_up; written = server_reply 0 2 0 0 },
      )
      server = server_old registry offered codecs client_max server_max version recovery p q j e r
