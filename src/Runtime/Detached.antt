-- ===== src/Runtime/Detached.antt =====
-- A frame that is staged without a transport.
use adaptivemsg_go.AckSchedule.{AckState}
use adaptivemsg_go.Frame.{Frame}
use adaptivemsg_go.Prelude.{
  All, List, Option, [], ap, append-nil, arith, length, none, refl, some, subst, suc, sym, ℕ, ◌++◌,
  ◌<◌, ◌^◌, ◌∙◌, ◌∷◌, ◌≡◌, ◌≤◌,
}
use adaptivemsg_go.Replay.{FrameRecord, OutboundFrame}
use adaptivemsg_go.Replay.Refine.{queue}
use adaptivemsg_go.Runtime.{Endpoint, frame_of, stage_taken, stage_while_detached, writer_stage}
use adaptivemsg_go.Runtime.Live.{set_closed-IsSender, set_queue-IsSender}
use adaptivemsg_go.Runtime.Sender.{IsQueued, IsSender}
use adaptivemsg_go.Runtime.Settling.{IsStill, Joined, joins, stays, writer_stage-Settled}

-- Without a transport a frame is staged, or waits.
pub record Stages (e e' : Endpoint) : Type 0 where
  pub sender : IsSender e'
  pub same_received : e'.acks.last_recv_seq ≡ e.acks.last_recv_seq
  pub same_delivered : e'.delivered ≡ e.delivered
  pub same_acked : e'.replay.last_acked ≡ e.replay.last_acked
  pub more : List Frame
  pub short : length more ≤ 1
  pub grown : e'.log ≡ e.log ++ more

settled-Stages :
    (e : Endpoint) {o : Option FrameRecord} (e' : Endpoint)
    → IsSender e'
    → IsStill e e'
    → Joined e o e'
    → Stages e e'
settled-Stages e e' s still (stays l) = record {
  sender = s;
  same_received = ap (λ (a : AckState). a.last_recv_seq) still.same_acks;
  same_delivered = still.same_delivered;
  same_acked = still.same_acked;
  more = [];
  short = omega arith;
  grown = l ∙ sym (append-nil e.log);
}
settled-Stages e e' s still (joins r l n d) = record {
  sender = s;
  same_received = ap (λ (a : AckState). a.last_recv_seq) still.same_acks;
  same_delivered = still.same_delivered;
  same_acked = still.same_acked;
  more = frame_of r ∷ [];
  short = omega arith;
  grown = l;
}

pub stage_while_detached-Stages :
    (e : Endpoint) (waiting : Option OutboundFrame) (queue : List OutboundFrame)
    → IsSender e
    → suc (length e.log) < 2 ^ 64
    → e.held_frame ≡ waiting
    → e.outbound ≡ queue
    → Stages e (stage_while_detached e waiting queue).1
stage_while_detached-Stages e (some frame) queue v room h o = record {
  sender = v;
  same_received = refl;
  same_delivered = refl;
  same_acked = refl;
  more = [];
  short = omega arith;
  grown = sym (append-nil e.log);
}
stage_while_detached-Stages e none [] v room h o = record {
  sender = v;
  same_received = refl;
  same_delivered = refl;
  same_acked = refl;
  more = [];
  short = omega arith;
  grown = sym (append-nil e.log);
}
stage_while_detached-Stages e none (frame ∷ queue) v room h o = go frame.closing
  where
    q : All IsQueued (frame ∷ queue)
    q = subst (All IsQueued) o v.queued

    popped : Endpoint
    popped = record e { outbound = queue }

    v1 : IsSender popped
    v1 = set_queue-IsSender e queue e.held_frame q.1 v.held_queued v

    go : (c : Option ℕ) → Stages e (stage_taken popped frame c).1
    go (some done) = record {
      sender = set_closed-IsSender popped _ v1;
      same_received = refl;
      same_delivered = refl;
      same_acked = refl;
      more = [];
      short = omega arith;
      grown = sym (append-nil e.log);
    }
    go none =
        let s = writer_stage-Settled popped frame v1 q.0 room in
        let t = settled-Stages popped (writer_stage popped frame).1 s.sender s.still s.joined in
        record {
          sender = t.sender;
          same_received = t.same_received;
          same_delivered = t.same_delivered;
          same_acked = t.same_acked;
          more = t.more;
          short = t.short;
          grown = t.grown;
        }
