-- ===== src/Runtime.antt =====
-- recovery_runtime.go: the writer and the reader of an end of a version 3 connection.
mod Tests
pub mod Log
mod Settling
pub mod Sender
pub mod Writing
mod Live
mod Detached
pub mod Next
pub mod Starting
pub mod System
pub mod Direction
pub mod Receiving
pub mod Delivery
use adaptivemsg_go.AckSchedule.{AckState, new_ack_state, note_received, take_pending_control}
use adaptivemsg_go.Attach.{
  build_ack_control_payload, build_close_control_payload, build_ping_control_payload,
  control_type_ack, control_type_close, control_type_ping, parse_control_payload,
}
use adaptivemsg_go.Bytes.{Bytes}
use adaptivemsg_go.Errors.{Error, Result, err, invalid_message, ok}
use adaptivemsg_go.Frame.{Frame, control_stream_id}
use adaptivemsg_go.Prelude.{
  List, Option, [], if◌then◌else◌, leb, length, min, none, not, some, ℕ, ◌%◌, ◌++◌, ◌+◌, ◌==◌, ◌^◌,
  ◌||◌, ◌∷◌,
}
use adaptivemsg_go.Recovery.{NegotiatedRecoveryOptions}
use adaptivemsg_go.Replay.{
  FrameRecord, OutboundFrame, ReplayBuffer, Staged, ack, failed, held, kept, last_acked_seq,
  new_replay_buffer, snapshot_from, stage,
}
use adaptivemsg_go.Replay.Refine.{queue}

-- The state of an end: recoveryState, recoveryWriter and the parts of Connection that they use.
-- `outbound` holds the frames queued in the channel, `verdicts` what was sent on the channels
-- `queued` of the frames, `closed_channels` the channels `closing` that were closed, and `delivered`
-- the frames that acceptFrame took. `log` has the frames that were numbered, in order; no code reads
-- it. `last_recv_seq` of the reader is the one of `acks`.
pub record Endpoint : Type 0 where
  pub next_send_seq : ℕ
  pub replay : ReplayBuffer
  pub acks : AckState
  pub held_frame : Option OutboundFrame
  pub outbound : List OutboundFrame
  pub last_sent_seq : ℕ
  pub resume : List FrameRecord
  pub resume_depth : ℕ
  pub verdicts : List (ℕ × Option Error)
  pub closed_channels : List ℕ
  pub delivered : List Frame
  pub log : List Frame

pub new_endpoint : ℕ → NegotiatedRecoveryOptions → Endpoint
new_endpoint max_replay_bytes shared = record {
  next_send_seq = 0;
  replay = new_replay_buffer 3 max_replay_bytes;
  acks = new_ack_state shared;
  held_frame = none;
  outbound = [];
  last_sent_seq = 0;
  resume = [];
  resume_depth = 0;
  verdicts = [];
  closed_channels = [];
  delivered = [];
  log = [];
}

-- `prepareResume`
unfoldable pub prepare_resume : Endpoint → ℕ → List FrameRecord × Endpoint
prepare_resume e last_seq =
    let (released, replay) = ack e.replay last_seq in
    let frames = snapshot_from replay last_seq in
    (frames, record e { replay = replay; resume_depth = length frames })

-- The start of `writeTransport`, for a transport that was attached with the peer's `resume_seq`.
unfoldable pub start_transport : Endpoint → ℕ → Endpoint
start_transport e resume_seq =
    let last_sent = min resume_seq e.next_send_seq in
    let (frames, e) = prepare_resume e last_sent in
    record e { last_sent_seq = last_sent; resume = frames }

abbrev pub frame_of : FrameRecord → Frame
frame_of r = record { stream_id = r.stream_id; seq = r.seq; flags = r.flags; payload = r.payload }

-- `if frame.queued != nil { frame.queued <- err }`
abbrev pub tell : Option ℕ → Option Error → Endpoint → Endpoint
tell none verdict e = e
tell (some channel) verdict e = record e { verdicts = e.verdicts ++ ((channel, verdict) ∷ []) }

-- What `recoveryWriter.stage` makes of the buffer's answer.
abbrev pub settle : Endpoint → OutboundFrame → ℕ → Staged → Option FrameRecord × Endpoint
settle e frame seq held = (none, record e { held_frame = some frame })
settle e frame seq (kept r) = (
  some r,
  tell frame.queued none (record e { next_send_seq = seq; log = e.log ++ (frame_of r ∷ []) }),
)
settle e frame seq (failed x) = (none, tell frame.queued (some x) e)

-- `recoveryWriter.stage`
unfoldable pub writer_stage : Endpoint → OutboundFrame → Option FrameRecord × Endpoint
writer_stage e frame =
    let seq = (e.next_send_seq + 1) % 2 ^ 64 in
    let (outcome, replay) = stage e.replay frame seq in
    settle (record e { replay = replay }) frame seq outcome

-- What a step of the writer comes to: a frame that is written, more to do, nothing to do, or the
-- end of the writer. A frame that is written may get lost with its transport.
pub data Written : Type 0 where
  wrote : Frame → Written
  skipped : Written
  idle : Written
  writer_done : Frame → Written
  writer_done_silently : Written

abbrev pub control_frame : Bytes → Frame
control_frame payload = record {
  stream_id = control_stream_id;
  seq = 0;
  flags = 0;
  payload = payload;
}

-- `writeLive`, once the frame is staged.
abbrev pub write_staged : Option FrameRecord → Endpoint → Written × Endpoint
write_staged none e = (skipped, e)
write_staged (some r) e =
    if leb r.seq e.last_sent_seq
    then (skipped, e)
    else (wrote (frame_of r), record e { last_sent_seq = r.seq })

-- `writeLive`
abbrev pub write_live : Endpoint → OutboundFrame → Written × Endpoint
write_live e frame = let (r, e) = writer_stage e frame in write_staged r e

-- The part of `writeResume` behind the taking of the first frame.
unfoldable pub resume_first : Endpoint → FrameRecord → List FrameRecord → Written × Endpoint
resume_first e r rest =
    let e = record e { resume = rest; resume_depth = length rest } in
    if leb r.seq e.last_sent_seq || leb r.seq (last_acked_seq e.replay)
    then (skipped, e)
    else (wrote (frame_of r), record e { last_sent_seq = r.seq })

-- `writeResume`; it is called with frames left.
abbrev pub write_resume : Endpoint → List FrameRecord → Written × Endpoint
write_resume e [] = (idle, e)
write_resume e (r ∷ rest) = resume_first e r rest

-- `takeFrame`, on the held frame and the queue.
abbrev pub take_frame :
    Endpoint → Option OutboundFrame → List OutboundFrame → Option OutboundFrame × Endpoint
take_frame e (some frame) queue = (some frame, record e { held_frame = none })
take_frame e none [] = (none, e)
take_frame e none (frame ∷ queue) = (some frame, record e { outbound = queue })

-- `finishRecoveryWriter`: its CLOSE frame may get lost too.
abbrev pub finish_recovery_writer : Endpoint → ℕ → Written × Endpoint
finish_recovery_writer e done = (
  writer_done (control_frame build_close_control_payload),
  record e { closed_channels = e.closed_channels ++ (done ∷ []) },
)

-- A frame that was taken from the queue, and its `closing`.
abbrev pub write_kind : Endpoint → OutboundFrame → Option ℕ → Written × Endpoint
write_kind e frame (some done) = finish_recovery_writer e done
write_kind e frame none = write_live e frame

abbrev pub write_taken : Endpoint → OutboundFrame → Written × Endpoint
write_taken e frame = write_kind e frame frame.closing

abbrev pub write_if_taken : Option OutboundFrame × Endpoint → Written × Endpoint
write_if_taken (none, e) = (idle, e)
write_if_taken (some frame, e) = write_taken e frame

-- `writeNext` behind its look at the pending ACK.
abbrev pub write_other : Endpoint → List FrameRecord → Written × Endpoint
write_other e (r ∷ rest) = write_resume e (r ∷ rest)
write_other e [] = write_if_taken (take_frame e e.held_frame e.outbound)

-- The ACK frame of `writeNext`, if there is one.
abbrev pub write_pending : Option ℕ → Endpoint → Written × Endpoint
write_pending (some seq) e = (wrote (control_frame (build_ack_control_payload seq)), e)
write_pending none e = write_other e e.resume

-- `writeNext`, at the times at which it looks for an ACK.
unfoldable pub write_next : Endpoint → ℕ → ℕ → Written × Endpoint
write_next e now later =
    let (pending, acks) = take_pending_control e.acks now later in
    write_pending pending (record e { acks = acks })

-- The ping that `wait` writes after the heartbeat interval.
abbrev pub write_ping : Endpoint → Written × Endpoint
write_ping e = (wrote (control_frame build_ping_control_payload), e)

-- The end of the writer, or a frame that is staged.
abbrev pub stage_taken : Endpoint → OutboundFrame → Option ℕ → Written × Endpoint
stage_taken e frame (some done) =
    (writer_done_silently, record e { closed_channels = e.closed_channels ++ (done ∷ []) })
stage_taken e frame none = (skipped, (writer_stage e frame).1)

-- `stageWhileDetached` for a frame that it gets; `outbound` gives none while one is held.
abbrev pub stage_while_detached :
    Endpoint → Option OutboundFrame → List OutboundFrame → Written × Endpoint
stage_while_detached e (some frame) queue = (idle, e)
stage_while_detached e none [] = (idle, e)
stage_while_detached e none (frame ∷ queue) =
    stage_taken (record e { outbound = queue }) frame frame.closing

-- What the reader makes of a frame.
pub data Handled : Type 0 where
  proceed : Handled
  peer_closed : Handled
  rejected : Error → Handled

-- The `switch` of `handleControlFrame`
abbrev pub apply_control : Endpoint → Result (ℕ × ℕ) → Handled × Endpoint
apply_control e (err x) = (rejected x, e)
apply_control e (ok (kind, value)) =
    if kind == control_type_ack
    then (proceed, record e { replay = (ack e.replay value).1 })
    else if kind == control_type_ping
    then (proceed, e)
    else if kind == control_type_close
    then (peer_closed, e)
    else (rejected (invalid_message "unknown control frame type"), e)

-- `handleControlFrame`
unfoldable pub handle_control_frame : Endpoint → Bytes → Handled × Endpoint
handle_control_frame e payload = apply_control e (parse_control_payload payload)

-- `handleRecoveryDataFrame`. `refusal` is what acceptFrame returns.
unfoldable pub handle_recovery_data_frame : Endpoint → ℕ → Option Error → Frame → Handled × Endpoint
handle_recovery_data_frame e now refusal f =
    let last = e.acks.last_recv_seq in
    let noted = record e { acks = (note_received e.acks now f.seq).1 } in
    if f.seq == 0
    then (rejected (invalid_message "recovery data frame missing seq"), e)
    else if leb f.seq last
    then (proceed, noted)
    else if not (f.seq == (last + 1) % 2 ^ 64)
    then (rejected (invalid_message "recovery frame sequence gap"), e)
    else elim refusal [
      | some x ↦ (rejected x, e)
      | none ↦ (proceed, record noted { delivered = e.delivered ++ (f ∷ []) })
    ]

-- The part of `recoveryReaderLoop` that handles a frame read from the transport.
unfoldable pub handle_frame : Endpoint → ℕ → Option Error → Frame → Handled × Endpoint
handle_frame e now refusal f =
    if f.stream_id == control_stream_id
    then handle_control_frame e f.payload
    else handle_recovery_data_frame e now refusal f
