-- ===== src/Runtime/Live.antt =====
-- A frame that is written to the transport, from the replay buffer or new.
use adaptivemsg_go.AckSchedule.{AckState}
use adaptivemsg_go.Attach.Control.{close_control}
use adaptivemsg_go.Prelude.{
  All, Bool-cases, List, Option, [], ap, append-nil, ap₂, arith, drop, drop_all, get_elem?, inl,
  inr, leb, leb→le, length, length-append, map, none, refl, some, suc, sym, ℕ, ◌-◌, ◌<◌, ◌^◌, ◌∙◌,
  ◌∷◌, ◌≡◌, ◌≤◌,
}
use adaptivemsg_go.Replay.{FrameRecord, OutboundFrame}
use adaptivemsg_go.Replay.Refine.{queue}
use adaptivemsg_go.Runtime.{
  Endpoint, frame_of, skipped, write_kind, write_live, write_staged, write_taken, writer_stage,
}
use adaptivemsg_go.Runtime.Log.{arrived, control, get_elem?-last, next}
use adaptivemsg_go.Runtime.Sender.{IsHeldQueued, IsQueued, IsReady, IsSender}
use adaptivemsg_go.Runtime.Settling.{IsStill, Joined, joins, stays, writer_stage-Settled}
use adaptivemsg_go.Runtime.Writing.{Sends, good_control, good_data, quiet-Sends}

-- Changes that the sender's invariant does not see.
set_last-IsSender : (e : Endpoint) (n : ℕ) → IsSender e → IsSender (record e { last_sent_seq = n })
set_last-IsSender e n v = record {
  numbered = v.numbered;
  data_only = v.data_only;
  counted = v.counted;
  valid = v.valid;
  acked = v.acked;
  remembered = v.remembered;
  queued = v.queued;
  held_queued = v.held_queued;
  resume_data = v.resume_data;
}

pub set_acks-IsSender :
    (e : Endpoint) (a : AckState) → IsSender e → IsSender (record e { acks = a })
set_acks-IsSender e a v = record {
  numbered = v.numbered;
  data_only = v.data_only;
  counted = v.counted;
  valid = v.valid;
  acked = v.acked;
  remembered = v.remembered;
  queued = v.queued;
  held_queued = v.held_queued;
  resume_data = v.resume_data;
}

pub set_closed-IsSender :
    (e : Endpoint) (c : List ℕ) → IsSender e → IsSender (record e { closed_channels = c })
set_closed-IsSender e c v = record {
  numbered = v.numbered;
  data_only = v.data_only;
  counted = v.counted;
  valid = v.valid;
  acked = v.acked;
  remembered = v.remembered;
  queued = v.queued;
  held_queued = v.held_queued;
  resume_data = v.resume_data;
}

pub set_queue-IsSender :
    (e : Endpoint) (queue : List OutboundFrame) (waiting : Option OutboundFrame)
    → All IsQueued queue
    → IsHeldQueued waiting
    → IsSender e
    → IsSender (record e { outbound = queue; held_frame = waiting })
set_queue-IsSender e queue waiting q h v = record {
  numbered = v.numbered;
  data_only = v.data_only;
  counted = v.counted;
  valid = v.valid;
  acked = v.acked;
  remembered = v.remembered;
  queued = q;
  held_queued = h;
  resume_data = v.resume_data;
}

still-IsReady :
    (e e' : Endpoint) (horizon : ℕ)
    → IsStill e e'
    → e'.log ≡ e.log
    → IsReady e horizon
    → IsReady e' horizon
still-IsReady e e' horizon s l ready = record {
  sent = omega (arith, ready.sent, s.same_last_sent);
  within = omega (arith, ready.within, ap length l, ap length s.same_resume);
  ending =
      ap (map frame_of) s.same_resume
      ∙ ready.ending
      ∙ ap₂ drop {x = length e.log - length e.resume}
          (omega (arith, ap length l, ap length s.same_resume)) (sym l);
  reached = omega (arith, ready.reached, ap length l, ap length s.same_resume);
}

module _ (e : Endpoint) (horizon : ℕ) (below : horizon ≤ length e.log)
    (all_resumed : e.resume ≡ []) where
  -- With nothing left to resume, everything in the log has been sent.
  pub all_sent : IsReady e horizon → horizon ≡ length e.log
  all_sent ready = omega (arith, ready.reached, below, ap length all_resumed)

  write_staged-Sends :
      {o : Option FrameRecord} (e' : Endpoint)
      → IsSender e'
      → IsStill e e'
      → Joined e o e'
      → Sends e horizon (write_staged o e')
  write_staged-Sends e' s still (stays l) =
      quiet-Sends e e' horizon skipped refl s
        (ap (λ (a : AckState). a.last_recv_seq) still.same_acks) still.same_delivered
        still.same_acked l below (still-IsReady e e' horizon still l)
  write_staged-Sends e' s still (joins r l n d) = elim (Bool-cases (leb r.seq e'.last_sent_seq)) [
    | inl sent_before ↦ rw sent_before (record {
      sender = s;
      same_received = ap (λ (a : AckState). a.last_recv_seq) still.same_acks;
      same_delivered = still.same_delivered;
      same_acked = still.same_acked;
      more = frame_of r ∷ [];
      short = omega arith;
      grown = l;
      good = tt;
      end = horizon;
      flow = λ ready. arrived;
      ready = λ ready. absurd (
          omega (
            arith,
            ready.sent,
            still.same_last_sent,
            below,
            n,
            leb→le r.seq e'.last_sent_seq sent_before,
          ));
      end_within = λ ready. omega (arith, below, longer);
    })
    | inr fresh ↦ rw fresh (record {
      sender = set_last-IsSender e' r.seq s;
      same_received = ap (λ (a : AckState). a.last_recv_seq) still.same_acks;
      same_delivered = still.same_delivered;
      same_acked = still.same_acked;
      more = frame_of r ∷ [];
      short = omega arith;
      grown = l;
      good = (good_data d, tt);
      end = suc horizon;
      flow = λ ready.
          next d (omega (arith, n, all_sent ready))
            (ap₂ get_elem? l (all_sent ready) ∙ get_elem?-last e.log (frame_of r)) arrived;
      ready = λ ready. record {
        sent = omega (arith, n, all_sent ready);
        within = omega (arith, nothing_left);
        ending =
            ap (map frame_of) no_resume
            ∙ sym (drop_all e'.log)
            ∙ ap (λ (k : ℕ). drop k e'.log) {x = length e'.log} (omega (arith, nothing_left));
        reached = omega (arith, all_sent ready, longer);
      };
      end_within = λ ready. omega (arith, all_sent ready, longer);
    })
  ]
    where
      longer : length e'.log ≡ suc (length e.log)
      longer = omega (arith, ap length l, length-append e.log (frame_of r ∷ []))

      no_resume : e'.resume ≡ []
      no_resume = still.same_resume ∙ all_resumed

      nothing_left : length e'.resume ≡ 0
      nothing_left = ap length no_resume

-- Steps that begin on an end with other queues, or other times of acknowledgement.
module _ (e : Endpoint) (horizon : ℕ) (v : IsSender e) (below : horizon ≤ length e.log)
    (room : suc (length e.log) < 2 ^ 64) where
  write_live-Sends :
      (frame : OutboundFrame)
      → IsQueued frame
      → e.resume ≡ []
      → Sends e horizon (write_live e frame)
  write_live-Sends frame q t =
      let s = writer_stage-Settled e frame v q room in
      write_staged-Sends e horizon below t (writer_stage e frame).1 s.sender s.still s.joined

  pub write_taken-Sends :
      (frame : OutboundFrame)
      → IsQueued frame
      → e.resume ≡ []
      → Sends e horizon (write_taken e frame)
  write_taken-Sends frame q t = go frame.closing
    where
      go : (c : Option ℕ) → Sends e horizon (write_kind e frame c)
      go none = write_live-Sends frame q t
      go (some done) = record {
        sender = set_closed-IsSender e _ v;
        same_received = refl;
        same_delivered = refl;
        same_acked = refl;
        more = [];
        short = omega arith;
        grown = sym (append-nil e.log);
        good = (good_control close_control refl refl tt, tt);
        end = horizon;
        flow = λ ready. control refl arrived;
        ready = λ ready. record {
          sent = ready.sent;
          within = ready.within;
          ending = ready.ending;
          reached = ready.reached;
        };
        end_within = λ ready. below;
      }
