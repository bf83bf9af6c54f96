-- ===== src/Frame/Tests.antt =====
-- Frames at concrete inputs.
use adaptivemsg_go.Bytes.{All-IsByte}
use adaptivemsg_go.Errors.{ok}
use adaptivemsg_go.Frame.{
  ConnConfig, Frame, count_read, frame_header_len_for_version, read_frame_from,
}
use adaptivemsg_go.Frame.HeaderBytes.{IsSendable, IsValidConfig, received}
use adaptivemsg_go.Frame.Reading.{ReadFrame, read_frame_from-ReadFrame}
use adaptivemsg_go.Frame.RoundTrip.{read_frames, read_frames-write_frames, write_frames}
use adaptivemsg_go.Port.{FrameCounters, Port, read_full}
use adaptivemsg_go.Prelude.{All, [], arith, inr, map, none, refl, ◌++◌, ◌∷◌, ◌≡◌}

abbrev idle_counters : FrameCounters
idle_counters = record {
  frames_written = 0;
  bytes_written = 0;
  control_frames_written = 0;
  frames_read = 0;
  bytes_read = 0;
  control_frames_read = 0;
}

abbrev idle_port : Port
idle_port = record {
  input = [];
  ending = none;
  script = [];
  written = [];
  counters = idle_counters;
}

abbrev v3_config : ConnConfig
v3_config = record {
  version = 3;
  codec_id = 1;
  codec = record { id = 1; name = "msgpack" };
  max_frame = 1024;
  header_len = 18;
}

abbrev first_frame : Frame
first_frame = record { stream_id = 1; seq = 1; flags = 0; payload = 10 ∷ 20 ∷ [] }

abbrev last_frame : Frame
last_frame = record { stream_id = 1; seq = 2; flags = 1; payload = [] }

v3_config-IsValidConfig : IsValidConfig v3_config
v3_config-IsValidConfig = record {
  version_known = inr refl;
  header_len_fits = inr (unfold frame_header_len_for_version in refl);
  max_frame_u32 = omega arith;
}

first_frame-IsSendable : IsSendable v3_config first_frame
first_frame-IsSendable = record {
  stream_id_u32 = omega arith;
  seq_u64 = omega arith;
  flags_known = omega arith;
  payload_fits = omega arith;
}

last_frame-IsSendable : IsSendable v3_config last_frame
last_frame-IsSendable = record {
  stream_id_u32 = omega arith;
  seq_u64 = omega arith;
  flags_known = omega arith;
  payload_fits = omega arith;
}

frames-IsSendable : All (IsSendable v3_config) (first_frame ∷ last_frame ∷ [])
frames-IsSendable = (first_frame-IsSendable, (last_frame-IsSendable, tt))

abbrev sent_port : Port
sent_port = record idle_port {
  input = (write_frames v3_config (first_frame ∷ last_frame ∷ []) idle_port).1.written ++ (99 ∷ []);
}

read_frames-write_frames_example :
    ((read_frames v3_config 2 sent_port).0
      ≡ ok (map (received v3_config) (first_frame ∷ last_frame ∷ [])))
    × ((read_frames v3_config 2 sent_port).1.input ≡ 99 ∷ [])
read_frames-write_frames_example =
    read_frames-write_frames v3_config (first_frame ∷ last_frame ∷ []) idle_port sent_port (99 ∷ [])
      v3_config-IsValidConfig frames-IsSendable refl refl refl

-- The bytes of `first_frame`, and one that belongs to the next frame.
abbrev one_frame_port : Port
one_frame_port = record idle_port {
  input = 3 ∷ 0 ∷ 0 ∷ 0 ∷ 0 ∷ 1 ∷ 0 ∷ 0 ∷ 0 ∷ 2 ∷ 0 ∷ 0 ∷ 0 ∷ 0 ∷ 0 ∷ 0 ∷ 0 ∷ 1 ∷ 10 ∷ 20 ∷ 99 ∷ [];
}

abbrev after_port : Port
after_port = record one_frame_port {
  input = 99 ∷ [];
  counters = record idle_counters { frames_read = 1; bytes_read = 20 };
}

one_frame_read : read_frame_from v3_config one_frame_port ≡ (ok first_frame, after_port)
unfolding read_frame_from read_full count_read
one_frame_read = refl

read_frame_from-ReadFrame_example : ReadFrame v3_config one_frame_port first_frame after_port
read_frame_from-ReadFrame_example =
    read_frame_from-ReadFrame v3_config one_frame_port v3_config-IsValidConfig
      (All-IsByte one_frame_port.input refl) one_frame_read
