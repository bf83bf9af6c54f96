-- ===== src/Replay/Tests.antt =====
-- The buffer at concrete inputs.
use adaptivemsg_go.Frame.{frame_header_len_for_version}
use adaptivemsg_go.Prelude.{[], none, some, ◌∷◌, ◌≡◌}
use adaptivemsg_go.Replay.{OutboundFrame, ReplayBuffer, new_replay_buffer, stage}
use adaptivemsg_go.Replay.Operations.{stage_refines}
use adaptivemsg_go.Replay.Refine.{IsValid, new_replay_buffer-IsValid}
use adaptivemsg_go.Replay.Run.{acknowledge, measure, put, resume_from, run, run_refines, view_run}

abbrev hello : OutboundFrame
hello = record {
  stream_id = 1;
  seq = 0;
  flags = 0;
  payload = 104 ∷ 105 ∷ [];
  queued = some 7;
  closing = none;
}

abbrev empty_buffer : ReplayBuffer
empty_buffer = new_replay_buffer 3 100

abbrev one_kept : ReplayBuffer
one_kept = (stage empty_buffer hello 1).1

abbrev two_kept : ReplayBuffer
two_kept = (stage one_kept hello 2).1

empty_buffer-IsValid : IsValid empty_buffer
empty_buffer-IsValid = (new_replay_buffer-IsValid 3 100).0

one_kept-IsValid : IsValid one_kept
one_kept-IsValid = (stage_refines empty_buffer hello 1 empty_buffer-IsValid).2

two_kept-IsValid : IsValid two_kept
two_kept-IsValid = (stage_refines one_kept hello 2 one_kept-IsValid).2

run_refines_example :
    run
      (new_replay_buffer 3 45)
      (put hello 1 ∷ put hello 2 ∷ put hello 3 ∷ acknowledge 1 ∷ resume_from 1 ∷ measure ∷ [])
    ≡ view_run
        (record { header_len = 18; max_bytes = 45; last_acked = 0; records = [] })
        (put hello 1 ∷ put hello 2 ∷ put hello 3 ∷ acknowledge 1 ∷ resume_from 1 ∷ measure ∷ [])
unfolding new_replay_buffer frame_header_len_for_version
run_refines_example =
    run_refines 3 45
      (put hello 1 ∷ put hello 2 ∷ put hello 3 ∷ acknowledge 1 ∷ resume_from 1 ∷ measure ∷ [])
