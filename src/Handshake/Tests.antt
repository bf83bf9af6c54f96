-- ===== src/Handshake/Tests.antt =====
-- Handshakes at concrete inputs.
use adaptivemsg_go.Bytes.{Bytes}
use adaptivemsg_go.Codecs.{CodecRegistry, codec_by_id}
use adaptivemsg_go.Errors.{err, unsupported_frame_version}
use adaptivemsg_go.Handshake.{
  agree, bad_magic, discard_handshake_codecs, handshake_client, handshake_server,
  is_supported_protocol_version, negotiate_max_frame, refuse, select_codec,
  supported_protocol_version, validate_codec_list,
}
use adaptivemsg_go.Handshake.Agreement.{Agreed, handshake-Agreed, handshake_old_server}
use adaptivemsg_go.Handshake.Joining.{IsJoined}
use adaptivemsg_go.Handshake.Selection.{FirstCommon, select_codec-FirstCommon}
use adaptivemsg_go.Port.{Port, read_full, write_full}
use adaptivemsg_go.Prelude.{[], arith, false, none, refl, true, ◌∷◌, ◌≡◌}

abbrev codec_registry : CodecRegistry
codec_registry = record {
  codecs = (1, record { id = 1; name = "compact" }) ∷ (2, record { id = 2; name = "map" }) ∷ [];
}

abbrev idle_port : Bytes → Port
idle_port input = record {
  input = input;
  ending = none;
  script = [];
  written = [];
  counters = record {
    frames_written = 0;
    bytes_written = 0;
    control_frames_written = 0;
    frames_read = 0;
    bytes_read = 0;
    control_frames_read = 0;
  };
}

-- A version 3 request of the codecs 1 and 2, frames of up to 1024 bytes.
abbrev request : Bytes
request = 65 ∷ 77 ∷ 3 ∷ 2 ∷ 0 ∷ 0 ∷ 0 ∷ 0 ∷ 0 ∷ 0 ∷ 4 ∷ 0 ∷ 1 ∷ 2 ∷ []

abbrev client_port : Bytes → Port
client_port reply = idle_port reply

abbrev server_port : Port
server_port = idle_port request

abbrev accepted : Bytes
accepted = 65 ∷ 77 ∷ 1 ∷ 3 ∷ 2 ∷ 0 ∷ 0 ∷ 0 ∷ 0 ∷ 0 ∷ 2 ∷ 0 ∷ []

joined :
    IsJoined codec_registry (1 ∷ 2 ∷ []) (2 ∷ []) 1024 512 3 true (client_port accepted) server_port
unfolding codec_by_id write_full read_full bad_magic is_supported_protocol_version
    discard_handshake_codecs refuse supported_protocol_version agree select_codec
    negotiate_max_frame
joined = record {
  client_list = unfold validate_codec_list in refl;
  server_list = unfold validate_codec_list in refl;
  version_known = unfold is_supported_protocol_version in refl;
  client_max_u32 = omega arith;
  server_max_u32 = omega arith;
  client_writes = refl;
  server_writes = refl;
  client_fresh = refl;
  server_fresh = refl;
  later_up = [];
  later_down = [];
  up = unfold handshake_client in refl;
  down = unfold handshake_server in refl;
}

handshake-Agreed_example :
    Agreed codec_registry
      (1 ∷ 2 ∷ [])
      (2 ∷ [])
      1024
      512
      3
      (handshake_client codec_registry (1 ∷ 2 ∷ []) 1024 3 (client_port accepted)).0
      (handshake_server codec_registry (2 ∷ []) 512 true server_port).0
handshake-Agreed_example =
    handshake-Agreed codec_registry (1 ∷ 2 ∷ []) (2 ∷ []) 1024 512 3 true (client_port accepted)
      server_port joined {s = 2} (λ e. refl) (unfold select_codec in refl)

abbrev refused : Bytes
refused = 65 ∷ 77 ∷ 0 ∷ 3 ∷ 0 ∷ 0 ∷ 0 ∷ 0 ∷ 0 ∷ 0 ∷ 0 ∷ 0 ∷ []

abbrev other_request : Bytes
other_request = 65 ∷ 77 ∷ 3 ∷ 1 ∷ 0 ∷ 0 ∷ 0 ∷ 0 ∷ 0 ∷ 0 ∷ 4 ∷ 0 ∷ 1 ∷ []

abbrev refused_version : Bytes
refused_version = 65 ∷ 77 ∷ 0 ∷ 2 ∷ 0 ∷ 0 ∷ 0 ∷ 0 ∷ 0 ∷ 0 ∷ 0 ∷ 0 ∷ []

old-IsJoined :
    IsJoined codec_registry
      (1 ∷ 2 ∷ [])
      (2 ∷ [])
      1024
      512
      3
      false
      (client_port refused_version)
      server_port
unfolding codec_by_id write_full read_full bad_magic is_supported_protocol_version
    discard_handshake_codecs refuse supported_protocol_version agree select_codec
    negotiate_max_frame
old-IsJoined = record {
  client_list = unfold validate_codec_list in refl;
  server_list = unfold validate_codec_list in refl;
  version_known = unfold is_supported_protocol_version in refl;
  client_max_u32 = omega arith;
  server_max_u32 = omega arith;
  client_writes = refl;
  server_writes = refl;
  client_fresh = refl;
  server_fresh = refl;
  later_up = [];
  later_down = [];
  up = unfold handshake_client in refl;
  down = unfold handshake_server in refl;
}

handshake_old_server_example :
    ((handshake_client codec_registry (1 ∷ 2 ∷ []) 1024 3 (client_port refused_version)).0
      ≡ err (unsupported_frame_version 2))
    × ((handshake_server codec_registry (2 ∷ []) 512 false server_port).0
        ≡ err (unsupported_frame_version 3))
handshake_old_server_example =
    handshake_old_server codec_registry (1 ∷ 2 ∷ []) (2 ∷ []) 1024 512 3 false
      (client_port refused_version) server_port old-IsJoined refl refl

select_codec-FirstCommon_example : FirstCommon (1 ∷ 2 ∷ []) (2 ∷ []) 2
select_codec-FirstCommon_example =
    select_codec-FirstCommon (1 ∷ 2 ∷ []) (2 ∷ []) {s = 2} (unfold select_codec in refl)
