-- ===== src/Port/Tests.antt =====
-- A transport that takes one byte, then fails.
use adaptivemsg_go.Errors.{transport_failed}
use adaptivemsg_go.Port.{Port, write_full}
use adaptivemsg_go.Port.Transfer.{Sent, write_full-Sent}
use adaptivemsg_go.Prelude.{[], none, some, ◌∷◌}

abbrev failing_port : Port
failing_port = record {
  input = [];
  ending = none;
  script =
      record { taken = 1; failure = none }
      ∷ record { taken = 0; failure = some (transport_failed 5) }
      ∷ [];
  written = [];
  counters = record {
    frames_written = 0;
    bytes_written = 0;
    control_frames_written = 0;
    frames_read = 0;
    bytes_read = 0;
    control_frames_read = 0;
  };
}

write_full-Sent_example :
    Sent (1 ∷ 2 ∷ 3 ∷ []) failing_port (write_full (1 ∷ 2 ∷ 3 ∷ []) failing_port)
write_full-Sent_example = write_full-Sent (1 ∷ 2 ∷ 3 ∷ []) failing_port
