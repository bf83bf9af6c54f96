-- ===== src/Connecting/Tests.antt =====
-- A client that waits for its server, and falls back to version 2.
use adaptivemsg_go.Connecting.{
  Clock, Connected, World, connect, connect_attempt, connect_error, connect_failed, connect_loop,
  connect_round, connect_version, connect_versions, established, failed_with, is_connected,
  try_failed, unreachable,
}
use adaptivemsg_go.Connecting.Ending.{connect_returns}
use adaptivemsg_go.Errors.{connect_timeout, unsupported_frame_version}
use adaptivemsg_go.Prelude.{arith, false, if◌then◌else◌, ltb, refl, some, true, ◌==◌, ◌≡◌}

-- The server is not there for three calls; then it is, and speaks version 2 only.
abbrev late_server : World
late_server n version =
    if ltb n 3
    then (try_failed unreachable, 1000000)
    else if version == 3
    then (try_failed (failed_with (unsupported_frame_version 2)), 1000000)
    else (established, 1000000)

abbrev started : Clock
started = record { now = 0; calls = 0 }

-- Three waits of 100, 200 and 400 ms, and five calls of one millisecond
late_server_found :
    connect 52 late_server 5000000000 true started
    ≡ some (is_connected, record { now = 705000000; calls = 5 })
unfolding connect connect_loop connect_round connect_attempt connect_versions connect_version
    connect_error
late_server_found = refl

-- Nobody answers, and the deadline of half a second passes.
no_server : World
no_server n version = (try_failed unreachable, 1000000)

no_server_reported :
    connect 7 no_server 500000000 false started
    ≡ some (
      connect_failed (failed_with connect_timeout) (some unreachable),
      record { now = 500000000; calls = 3 },
    )
unfolding no_server connect connect_loop connect_round connect_attempt connect_versions
    connect_version connect_error
no_server_reported = refl

connect_returns_example :
    (q : Connected × Clock) × (connect 52 late_server 5000000000 true started ≡ some q)
connect_returns_example = connect_returns 52 late_server 5000000000 true started (omega arith)
