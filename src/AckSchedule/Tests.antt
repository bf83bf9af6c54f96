-- ===== src/AckSchedule/Tests.antt =====
-- The schedule at concrete inputs.
use adaptivemsg_go.AckSchedule.{AckState, new_ack_state, note_received, take_pending_control}
use adaptivemsg_go.AckSchedule.Timely.{
  Decreasing, IsScheduled, Run, Run-Decreasing, Run-IsScheduled, begin, newest, poll, push, receive,
  take_pending_control_in_time,
}
use adaptivemsg_go.Duration.{millisecond, second}
use adaptivemsg_go.Prelude.{[], arith, false, inr, refl, some, ◌*◌, ◌≡◌}
use adaptivemsg_go.Recovery.{NegotiatedRecoveryOptions, normalized_negotiated}

abbrev two_or_20ms : NegotiatedRecoveryOptions
two_or_20ms = record {
  ack_every = 2;
  ack_delay = 20 * millisecond;
  heartbeat_interval = 30 * second;
  heartbeat_timeout = 90 * second;
}

abbrev fresh : AckState
fresh = new_ack_state two_or_20ms

abbrev one_received : AckState
one_received = (note_received fresh 1_000 1).1

-- One frame is received; a poll in time acknowledges it.
one_acked :
    Run fresh
      (take_pending_control one_received 20_001_000 20_001_000).1
      20_001_000
      (push (take_pending_control one_received 20_001_000 20_001_000).0 [])
unfolding new_ack_state normalized_negotiated
one_acked =
    poll 20_001_000 20_001_000
      (receive 1_000 1 (begin 0) (omega arith) (omega arith) (omega arith) (omega arith)
        (omega arith))
      (omega arith) (omega arith)

Run-IsScheduled_example :
    IsScheduled (take_pending_control one_received 20_001_000 20_001_000).1 20_001_000
Run-IsScheduled_example = Run-IsScheduled two_or_20ms one_acked

Run-Decreasing_example :
    (newest (push (take_pending_control one_received 20_001_000 20_001_000).0 [])
      ≡ (take_pending_control one_received 20_001_000 20_001_000).1.last_ack_sent)
    × Decreasing
        (take_pending_control one_received 20_001_000 20_001_000).1.last_recv_seq
        (push (take_pending_control one_received 20_001_000 20_001_000).0 [])
Run-Decreasing_example = Run-Decreasing two_or_20ms one_acked

abbrev one_waiting : AckState
one_waiting = record {
  ack_every = 2;
  ack_delay = 20 * millisecond;
  last_recv_seq = 5;
  last_ack_sent = 4;
  ack_pending = 1;
  ack_due = false;
  ack_due_at = 20_001_000;
}

one_waiting-IsScheduled : IsScheduled one_waiting 1_000
one_waiting-IsScheduled = record {
  sent_below = omega arith;
  pending = refl;
  soon = omega arith;
  owed = λ h. inr (omega arith, omega arith);
}

take_pending_control_in_time_example : take_pending_control one_waiting 20_001_000 20_002_000 ≡ (
  some 5,
  record one_waiting { last_ack_sent = 5; ack_pending = 0; ack_due = false; ack_due_at = 0 },
)
take_pending_control_in_time_example =
    take_pending_control_in_time one_waiting 1_000 20_001_000 20_002_000 one_waiting-IsScheduled
      (omega arith) (omega arith) (omega arith)
