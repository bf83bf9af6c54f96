-- ===== src/Runtime/Tests.antt =====
-- A message over two transports: the first one loses it.
use adaptivemsg_go.AckSchedule.{new_ack_state, note_received, take_pending_control}
use adaptivemsg_go.Duration.{millisecond, second}
use adaptivemsg_go.Frame.{Frame, frame_header_len_for_version}
use adaptivemsg_go.Prelude.{
  [], arith, false, length, map, none, refl, suc, take, true, ◌*◌, ◌++◌, ◌<◌, ◌^◌, ◌∷◌, ◌≡◌, ◌⊎◌,
}
use adaptivemsg_go.Recovery.{NegotiatedRecoveryOptions, normalized_negotiated}
use adaptivemsg_go.Replay.{
  OutboundFrame, ack, compact, drop_acked, last_acked_seq, new_replay_buffer, search_loop,
  snapshot_from, sort_search, stage,
}
use adaptivemsg_go.Replay.Queue.{newer}
use adaptivemsg_go.Replay.Refine.{queue}
use adaptivemsg_go.Runtime.{
  frame_of, handle_frame, handle_recovery_data_frame, new_endpoint, peer_closed, prepare_resume,
  proceed, resume_first, start_transport, write_next, writer_stage,
}
use adaptivemsg_go.Runtime.Delivery.{
  delivered_in_order, never_rejected, quiescent_delivered, undelivered_kept,
}
use adaptivemsg_go.Runtime.Log.{Consecutive}
use adaptivemsg_go.Runtime.System.{
  Reachable, System, after_step, at_start, attach, lose, new_system, read, submit, swap, swapped,
  write,
}
use adaptivemsg_go.Runtime.Writing.{frames_of}

abbrev shared_options : NegotiatedRecoveryOptions
shared_options = record {
  ack_every = 1;
  ack_delay = 20 * millisecond;
  heartbeat_interval = 30 * second;
  heartbeat_timeout = 90 * second;
}

abbrev message : OutboundFrame
message = record {
  stream_id = 1;
  seq = 0;
  flags = 0;
  payload = 7 ∷ [];
  queued = none;
  closing = none;
}

abbrev begun : System
begun = new_system 1_000 1_000 shared_options

abbrev queued_one : System
queued_one = record begun { a = record begun.a { outbound = message ∷ [] } }

abbrev attached_one : System
attached_one = record queued_one { a = start_transport queued_one.a 0; a_live = true }

abbrev written_one : System
written_one = record attached_one {
  a = (write_next attached_one.a 10 10).1;
  ab = frames_of (write_next attached_one.a 10 10).0;
}

abbrev lost_one : System
lost_one = record written_one { ab = []; a_live = false }

abbrev resumed_one : System
resumed_one = record lost_one { a = start_transport lost_one.a 0; a_live = true }

abbrev written_again : System
written_again = record resumed_one {
  a = (write_next resumed_one.a 20 20).1;
  ab = frames_of (write_next resumed_one.a 20 20).0;
}

abbrev sent_frame : Frame
sent_frame = record { stream_id = 1; seq = 1; flags = 0; payload = 7 ∷ [] }

abbrev delivered_one : System
delivered_one = record written_again {
  b = (handle_frame written_again.b 30 none sent_frame).1;
  ab = [];
}

first_room : suc (length attached_one.a.log) < 2 ^ 64
unfolding new_endpoint new_ack_state normalized_negotiated new_replay_buffer
    frame_header_len_for_version start_transport prepare_resume ack snapshot_from write_next
    take_pending_control resume_first writer_stage stage handle_frame handle_recovery_data_frame
    note_received last_acked_seq drop_acked compact sort_search search_loop
first_room = omega arith

second_room : suc (length resumed_one.a.log) < 2 ^ 64
unfolding new_endpoint new_ack_state normalized_negotiated new_replay_buffer
    frame_header_len_for_version start_transport prepare_resume ack snapshot_from write_next
    take_pending_control resume_first writer_stage stage handle_frame handle_recovery_data_frame
    note_received last_acked_seq drop_acked compact sort_search search_loop
second_room = omega arith

lost_and_written-Reachable : Reachable begun written_again
unfolding new_endpoint new_ack_state normalized_negotiated new_replay_buffer
    frame_header_len_for_version start_transport prepare_resume ack snapshot_from write_next
    take_pending_control resume_first writer_stage stage handle_frame handle_recovery_data_frame
    note_received last_acked_seq drop_acked compact sort_search search_loop
lost_and_written-Reachable =
    after_step
      (after_step
        (after_step
          (after_step
            (after_step (after_step at_start (submit message refl)) (attach 0 (omega arith) refl))
            (write 10 10 first_room))
          (lose 0))
        (attach 0 (omega arith) refl))
      (write 20 20 second_room)

delivered_one-Reachable : Reachable begun delivered_one
unfolding new_endpoint new_ack_state normalized_negotiated new_replay_buffer
    frame_header_len_for_version start_transport prepare_resume ack snapshot_from write_next
    take_pending_control resume_first writer_stage stage handle_frame handle_recovery_data_frame
    note_received last_acked_seq drop_acked compact sort_search search_loop
delivered_one-Reachable = after_step lost_and_written-Reachable (swapped (read 30 refl refl))

delivered_in_order_example :
    (delivered_one.b.delivered ≡ take delivered_one.b.acks.last_recv_seq delivered_one.a.log)
    × (delivered_one.a.delivered ≡ take delivered_one.a.acks.last_recv_seq delivered_one.b.log)
    × Consecutive 0 delivered_one.a.log
    × Consecutive 0 delivered_one.b.log
delivered_in_order_example = delivered_in_order 1_000 1_000 shared_options delivered_one-Reachable

undelivered_kept_example :
    written_again.b.delivered
      ++ map frame_of (newer written_again.b.acks.last_recv_seq (queue written_again.a.replay))
    ≡ written_again.a.log
undelivered_kept_example = undelivered_kept 1_000 1_000 shared_options lost_and_written-Reachable

quiescent_delivered_example : delivered_one.b.delivered ≡ delivered_one.a.log
unfolding new_endpoint new_ack_state normalized_negotiated new_replay_buffer
    frame_header_len_for_version start_transport prepare_resume ack snapshot_from write_next
    take_pending_control resume_first writer_stage stage handle_frame handle_recovery_data_frame
    note_received last_acked_seq drop_acked compact sort_search search_loop
quiescent_delivered_example =
    quiescent_delivered 1_000 1_000 shared_options delivered_one-Reachable refl refl refl

-- The same the other way round: `b` sends, and `a` is about to read.
mirrored-Reachable : Reachable begun (swap written_again)
unfolding new_endpoint new_ack_state normalized_negotiated new_replay_buffer
    frame_header_len_for_version start_transport prepare_resume ack snapshot_from write_next
    take_pending_control resume_first writer_stage stage handle_frame handle_recovery_data_frame
    note_received last_acked_seq drop_acked compact sort_search search_loop
mirrored-Reachable =
    after_step
      (after_step
        (after_step
          (after_step
            (after_step (after_step at_start (swapped (submit message refl)))
              (swapped (attach 0 (omega arith) refl)))
            (swapped (write 10 10 first_room)))
          (swapped (lose 0)))
        (swapped (attach 0 (omega arith) refl)))
      (swapped (write 20 20 second_room))

sent_frame_arrives : (swap written_again).ba ≡ sent_frame ∷ []
unfolding new_endpoint new_ack_state normalized_negotiated new_replay_buffer
    frame_header_len_for_version start_transport prepare_resume ack snapshot_from write_next
    take_pending_control resume_first writer_stage stage handle_frame handle_recovery_data_frame
    note_received last_acked_seq drop_acked compact sort_search search_loop
sent_frame_arrives = refl

never_rejected_example :
    ((handle_frame written_again.b 30 none sent_frame).0 ≡ proceed)
    ⊎ ((handle_frame written_again.b 30 none sent_frame).0 ≡ peer_closed)
never_rejected_example =
    never_rejected 1_000 1_000 shared_options 30 mirrored-Reachable sent_frame_arrives
