-- ===== src/AckSchedule.antt =====
-- recovery_runtime.go: when an end of a connection acknowledges what it received.
mod Tests
pub mod Timely
use adaptivemsg_go.Duration.{is_not_positive}
use adaptivemsg_go.Prelude.{
  Bool, Option, false, if◌then◌else◌, leb, ltb, none, not, some, true, ℕ, ◌%◌, ◌&&◌, ◌+◌, ◌-◌, ◌==◌,
  ◌^◌, ◌||◌,
}
use adaptivemsg_go.Recovery.{NegotiatedRecoveryOptions, normalized_negotiated}

-- The fields of recoveryState that the schedule uses. Times are Unix nanoseconds, `ack_due_at` is 0
-- while no ACK is scheduled; `ack_delay` is an int64 pattern. The atomics and the fields under the
-- mutex are one state: each function is one step.
pub record AckState : Type 0 where
  pub ack_every : ℕ
  pub ack_delay : ℕ
  pub last_recv_seq : ℕ
  pub last_ack_sent : ℕ
  pub ack_pending : ℕ
  pub ack_due : Bool
  pub ack_due_at : ℕ

-- `setNegotiated` on a new state
unfoldable pub new_ack_state : NegotiatedRecoveryOptions → AckState
new_ack_state shared =
    let opts = normalized_negotiated shared in
    record {
      ack_every = opts.ack_every;
      ack_delay = opts.ack_delay;
      last_recv_seq = 0;
      last_ack_sent = 0;
      ack_pending = 0;
      ack_due = false;
      ack_due_at = 0;
    }

abbrev due_now : AckState → AckState
due_now s = record s { ack_due = true; ack_due_at = 0 }

-- `noteReceived`: whether the writer is signalled, and the new state.
unfoldable pub note_received : AckState → ℕ → ℕ → Bool × AckState
note_received s now seq =
    let s' = record s { last_recv_seq = seq; ack_pending = (s.ack_pending + 1) % 2 ^ 32 } in
    if leb seq s.last_recv_seq
    then (true, if ltb s.last_ack_sent s.last_recv_seq then record s { ack_due = true } else s)
    else if leb s.ack_every 1 || leb s.ack_every s'.ack_pending
    then (true, due_now s')
    else if is_not_positive s.ack_delay
    then (true, due_now s')
    else if s.ack_due_at == 0
    then (true, record s' { ack_due_at = (now + s.ack_delay) % 2 ^ 64 })
    else (false, s')

-- `nextAckWait`, where 0 means no wait. `max` with 0 is the subtraction of natural numbers.
unfoldable pub next_ack_wait : AckState → ℕ → ℕ
next_ack_wait s now = if s.ack_due then 0 else if s.ack_due_at == 0 then 0 else s.ack_due_at - now

-- The test that `takePendingControl` makes without the mutex, and again with it.
abbrev pub is_due : AckState → ℕ → Bool
is_due s now = s.ack_due || (not (s.ack_due_at == 0) && leb s.ack_due_at now)

-- `takePendingControl`: the number to acknowledge. The second test may come at a later time.
unfoldable pub take_pending_control : AckState → ℕ → ℕ → Option ℕ × AckState
take_pending_control s now later =
    if not (is_due s now)
    then (none, s)
    else if leb s.last_recv_seq s.last_ack_sent
    then (none, record s { ack_due = false; ack_due_at = 0 })
    else if not (is_due s later)
    then (none, s)
    else (
      some s.last_recv_seq,
      record s {
        last_ack_sent = s.last_recv_seq;
        ack_pending = 0;
        ack_due = false;
        ack_due_at = 0;
      },
    )
