-- ===== src/Runtime/Next.antt =====
-- The next step of the writer on its transport, whatever it is.
use adaptivemsg_go.AckSchedule.{AckState, take_pending_control}
use adaptivemsg_go.Attach.Control.{ack_control, ping_control}
use adaptivemsg_go.Prelude.{
  All, List, Option, [], ap, append-nil, arith, length, none, refl, some, subst, suc, sym, ℕ, ◌++◌,
  ◌<◌, ◌^◌, ◌∙◌, ◌∷◌, ◌≡◌, ◌≤◌,
}
use adaptivemsg_go.Replay.{FrameRecord, OutboundFrame}
use adaptivemsg_go.Replay.Refine.{queue}
use adaptivemsg_go.Runtime.{
  Endpoint, Written, idle, take_frame, write_if_taken, write_next, write_other, write_pending,
  write_ping,
}
use adaptivemsg_go.Runtime.Live.{set_acks-IsSender, set_queue-IsSender, write_taken-Sends}
use adaptivemsg_go.Runtime.Log.{arrived, control}
use adaptivemsg_go.Runtime.Sender.{IsHeldQueued, IsQueued, IsReady, IsSender}
use adaptivemsg_go.Runtime.Writing.{
  Good, Sends, frames_of, good_control, quiet-Sends, resume_first-Sends,
}

-- A step on an end that differs in the queues or the times of acknowledgement only.
retarget-Sends :
    (e e1 : Endpoint) (horizon : ℕ) {out : Written × Endpoint}
    → e1.acks.last_recv_seq ≡ e.acks.last_recv_seq
    → e1.delivered ≡ e.delivered
    → e1.replay.last_acked ≡ e.replay.last_acked
    → e1.log ≡ e.log
    → (IsReady e horizon → IsReady e1 horizon)
    → Sends e1 horizon out
    → Sends e horizon out
retarget-Sends e e1 horizon {out} a d k l ready s = record {
  sender = s.sender;
  same_received = s.same_received ∙ a;
  same_delivered = s.same_delivered ∙ d;
  same_acked = s.same_acked ∙ k;
  more = s.more;
  short = s.short;
  grown = s.grown ∙ ap (λ t. t ++ s.more) l;
  good = subst (λ (n : ℕ). All (Good n) (frames_of out.0)) a s.good;
  end = s.end;
  flow = λ r. s.flow (ready r);
  ready = λ r. s.ready (ready r);
  end_within = λ r. s.end_within (ready r);
}

take_pending_control-last :
    (s : AckState) (now later : ℕ)
    → ((take_pending_control s now later).1.last_recv_seq ≡ s.last_recv_seq)
      × ((n : ℕ) → (take_pending_control s now later).0 ≡ some n → n ≡ s.last_recv_seq)
unfolding take_pending_control
take_pending_control-last s now later = (ground arith, λ n h. ground (arith, h))

module _ (e : Endpoint) (horizon : ℕ) (v : IsSender e) (below : horizon ≤ length e.log)
    (room : suc (length e.log) < 2 ^ 64) (acked : e.replay.last_acked ≤ horizon) where
  -- A frame that is taken from where it waits.
  write_if_taken-Sends :
      (waiting : Option OutboundFrame) (queue : List OutboundFrame)
      → e.held_frame ≡ waiting
      → e.outbound ≡ queue
      → e.resume ≡ []
      → Sends e horizon (write_if_taken (take_frame e waiting queue))
  write_if_taken-Sends (some frame) queue h o t =
      retarget-Sends e (record e { held_frame = none }) horizon refl refl refl refl
        (λ r. record { sent = r.sent; within = r.within; ending = r.ending; reached = r.reached })
        (write_taken-Sends (record e { held_frame = none }) horizon
          (set_queue-IsSender e e.outbound none v.queued tt v) below room frame
          (subst IsHeldQueued h v.held_queued) t)
  write_if_taken-Sends none [] h o t =
      quiet-Sends e e horizon idle refl v refl refl refl refl below (λ r. r)
  write_if_taken-Sends none (frame ∷ queue) h o t =
      let q : All IsQueued (frame ∷ queue) = subst (All IsQueued) o v.queued in
      retarget-Sends e (record e { outbound = queue }) horizon refl refl refl refl
        (λ r. record { sent = r.sent; within = r.within; ending = r.ending; reached = r.reached })
        (write_taken-Sends (record e { outbound = queue }) horizon
          (set_queue-IsSender e queue e.held_frame q.1 v.held_queued v) below room frame q.0 t)

  write_other-Sends :
      (frames : List FrameRecord) → e.resume ≡ frames → Sends e horizon (write_other e frames)
  write_other-Sends [] t = write_if_taken-Sends e.held_frame e.outbound refl refl t
  write_other-Sends (r ∷ rest) t = resume_first-Sends e horizon v below acked r rest t

  -- An acknowledgement names the last number received.
  write_pending-Sends :
      (pending : Option ℕ)
      → ((n : ℕ) → pending ≡ some n → n ≡ e.acks.last_recv_seq)
      → Sends e horizon (write_pending pending e)
  write_pending-Sends none p = write_other-Sends e.resume refl
  write_pending-Sends (some seq) p = record {
    sender = v;
    same_received = refl;
    same_delivered = refl;
    same_acked = refl;
    more = [];
    short = omega arith;
    grown = sym (append-nil e.log);
    good = (good_control (ack_control seq) refl refl (omega (arith, p seq refl)), tt);
    end = horizon;
    flow = λ ready. control refl arrived;
    ready = λ ready. ready;
    end_within = λ ready. below;
  }

-- The next step of the writer sends no gap, whatever it is: an acknowledgement, a frame to replay, a
-- new frame, or the end.
pub write_next-Sends :
    (e : Endpoint) (horizon now later : ℕ)
    → IsSender e
    → horizon ≤ length e.log
    → suc (length e.log) < 2 ^ 64
    → e.replay.last_acked ≤ horizon
    → Sends e horizon (write_next e now later)
unfolding write_next
write_next-Sends e horizon now later v below room acked =
    let (same, names) = take_pending_control-last e.acks now later in
    let polled : Endpoint = record e { acks = (take_pending_control e.acks now later).1 } in
    retarget-Sends e polled horizon same refl refl refl
      (λ r. record { sent = r.sent; within = r.within; ending = r.ending; reached = r.reached })
      (write_pending-Sends polled horizon (set_acks-IsSender e _ v) below room acked
        (take_pending_control e.acks now later).0 (λ n h. names n h ∙ sym same))

-- A ping sends nothing of the log.
pub write_ping-Sends :
    (e : Endpoint) (horizon : ℕ)
    → IsSender e
    → horizon ≤ length e.log
    → Sends e horizon (write_ping e)
write_ping-Sends e horizon v below = record {
  sender = v;
  same_received = refl;
  same_delivered = refl;
  same_acked = refl;
  more = [];
  short = omega arith;
  grown = sym (append-nil e.log);
  good = (good_control ping_control refl refl tt, tt);
  end = horizon;
  flow = λ ready. control refl arrived;
  ready = λ ready. ready;
  end_within = λ ready. below;
}
