-- ===== src/Runtime/Delivery.antt =====
-- Delivery over any number of transports, whatever frames they lose.
use adaptivemsg_go.AckSchedule.{AckState, new_ack_state}
use adaptivemsg_go.Frame.{Frame}
use adaptivemsg_go.Prelude.{
  All, All-append, Bool, List, [], ap, ap₂, arith, drop, false, inl, inr, length, length-append,
  map, none, refl, subst, suc, take, take-append-drop, take_all, true, ℕ, ◌++◌, ◌<◌, ◌^◌, ◌∙◌, ◌∷◌,
  ◌≡◌, ◌≤◌, ◌⊎◌,
}
use adaptivemsg_go.Recovery.{NegotiatedRecoveryOptions}
use adaptivemsg_go.Replay.{new_replay_buffer}
use adaptivemsg_go.Replay.Queue.{newer}
use adaptivemsg_go.Replay.Refine.{queue}
use adaptivemsg_go.Runtime.{
  Endpoint, Handled, Written, frame_of, handle_frame, new_endpoint, peer_closed, proceed,
  stage_while_detached, start_transport,
}
use adaptivemsg_go.Runtime.Detached.{stage_while_detached-Stages}
use adaptivemsg_go.Runtime.Direction.{
  All-take, Direction, attach-Direction, back-Direction, idle-Direction, lose-Direction,
  same-Direction, stage-Direction, submit-Direction, write-Direction,
}
use adaptivemsg_go.Runtime.Live.{all_sent}
use adaptivemsg_go.Runtime.Log.{Consecutive, Flows, Flows-le, arrived}
use adaptivemsg_go.Runtime.Next.{write_next-Sends, write_ping-Sends}
use adaptivemsg_go.Runtime.Receiving.{Reads, closes, handle_frame-Reads, takes}
use adaptivemsg_go.Runtime.Sender.{new_endpoint-IsSender, newer-log}
use adaptivemsg_go.Runtime.Starting.{start_transport-same}
use adaptivemsg_go.Runtime.System.{
  Reachable, Step, System, after_step, at_start, attach, carry, detach, lose, new_system, ping,
  read, stage_detached, submit, swap, swapped, write,
}
use adaptivemsg_go.Runtime.Writing.{Good, Sends, frames_of}

pub record IsSound (s : System) : Type 0 where
  pub forth : Direction s.a s.b s.ab s.ba s.a_live
  pub back : Direction s.b s.a s.ba s.ab s.b_live

swap-IsSound : {s : System} → IsSound s → IsSound (swap s)
swap-IsSound v = record { forth = v.back; back = v.forth }

new_endpoint-Direction :
    (bytes other_bytes : ℕ) (shared : NegotiatedRecoveryOptions)
    → Direction (new_endpoint bytes shared) (new_endpoint other_bytes shared) [] [] false
unfolding new_endpoint new_ack_state
new_endpoint-Direction bytes other_bytes shared = record {
  sender = new_endpoint-IsSender bytes shared;
  small = omega arith;
  acked = unfold new_replay_buffer in omega arith;
  got = omega arith;
  delivered = refl;
  acks_back = tt;
  end = 0;
  flows = arrived;
  end_within = omega arith;
  ready = λ e. absurd (cc);
}

-- Frames that the writer adds are good for the peer.
carried :
    (live : Bool) (n : ℕ) (flight fs : List Frame)
    → All (Good n) flight
    → All (Good n) fs
    → All (Good n) (carry live flight fs)
carried true n flight fs g h = All-append (Good n) flight fs g h
carried false n flight fs g h = g

-- A step of the writer of `a`.
written-IsSound :
    {s : System} {out : Written × Endpoint} (v : IsSound s)
    → length out.1.log < 2 ^ 64
    → Sends s.a v.forth.end out
    → IsSound (record s { a = out.1; ab = carry s.a_live s.ab (frames_of out.0) })
written-IsSound {s} {out} v fits t = record {
  forth = write-Direction v.forth fits t;
  back =
      same-Direction out.1 (carry s.a_live s.ab (frames_of out.0)) v.back t.same_received
        t.same_delivered
        (carried s.a_live s.a.acks.last_recv_seq s.ab (frames_of out.0) v.back.acks_back t.good);
}

acked_by : {s : System} (v : IsSound s) → s.a.replay.last_acked ≤ v.forth.end
acked_by v = omega (arith, v.forth.acked, Flows-le v.forth.flows)

-- One more frame fits.
one_more :
    {e : Endpoint} {horizon : ℕ} {out : Written × Endpoint}
    → suc (length e.log) < 2 ^ 64
    → Sends e horizon out
    → length out.1.log < 2 ^ 64
one_more {e} room t = omega (arith, room, t.short, ap length t.grown, length-append e.log t.more)

-- Whatever an end reads next, it is not refused.
pub read-IsSound :
    {s : System} {f : Frame} {rest : List Frame} (now : ℕ)
    → IsSound s
    → s.ba ≡ f ∷ rest
    → Reads s.b s.ab rest s.a_live s.b_live
        (handle_frame s.a now none f).0
        (handle_frame s.a now none f).1
read-IsSound {s} {f} {rest} now v e =
    handle_frame-Reads now (subst (λ fs. Direction s.a s.b s.ab fs s.a_live) e v.forth)
      (subst (λ fs. Direction s.b s.a fs s.ab s.b_live) e v.back)

took :
    (s : System) {rest : List Frame} {h : Handled} {e' : Endpoint}
    → Reads s.b s.ab rest s.a_live s.b_live h e'
    → h ≡ proceed
    → IsSound (record s { a = e'; ba = rest })
took s (takes f b) e = record { forth = f; back = b }
took s closes e = absurd (cc)

Step-IsSound : {s t : System} → Step s t → IsSound s → IsSound t
Step-IsSound (submit {s = s} frame q) v = record {
  forth = submit-Direction frame q v.forth;
  back =
      same-Direction (record s.a { outbound = s.a.outbound ++ (frame ∷ []) }) s.ab v.back refl refl
        v.back.acks_back;
}
Step-IsSound (write {s = s} now later room) v =
    let t =
      write_next-Sends s.a v.forth.end now later v.forth.sender v.forth.end_within room
        (acked_by v) in
    written-IsSound v (one_more room t) t
Step-IsSound (ping {s = s}) v =
    written-IsSound v v.forth.small
      (write_ping-Sends s.a v.forth.end v.forth.sender v.forth.end_within)
Step-IsSound (stage_detached {s = s} off room) v =
    let t =
      stage_while_detached-Stages s.a s.a.held_frame s.a.outbound v.forth.sender room refl refl in
    record {
      forth = stage-Direction v.forth off room t;
      back =
          same-Direction (stage_while_detached s.a s.a.held_frame s.a.outbound).1 s.ab v.back
            t.same_received t.same_delivered v.back.acks_back;
    }
Step-IsSound (read {s = s} now e p) v = took s (read-IsSound now v e) p
Step-IsSound (attach {s = s} resume_seq h none_left) v =
    let same = start_transport-same s.a resume_seq v.forth.sender in
    record {
      forth = attach-Direction v.forth resume_seq none_left h;
      back =
          same-Direction (start_transport s.a resume_seq) s.ab v.back
            (ap (λ (k : AckState). k.last_recv_seq) same.0) same.1 v.back.acks_back;
    }
Step-IsSound (detach {s = s}) v = record {
  forth = idle-Direction v.forth;
  back = lose-Direction 0 v.back;
}
Step-IsSound (lose {s = s} n) v = record {
  forth = lose-Direction n v.forth;
  back = back-Direction (take n s.ab) v.back (All-take _ n s.ab v.back.acks_back);
}
Step-IsSound (swapped t) v = swap-IsSound (Step-IsSound t (swap-IsSound v))

pub Reachable-IsSound :
    (client_bytes server_bytes : ℕ) (shared : NegotiatedRecoveryOptions) {s : System}
    → Reachable (new_system client_bytes server_bytes shared) s
    → IsSound s
Reachable-IsSound client_bytes server_bytes shared at_start = record {
  forth = new_endpoint-Direction client_bytes server_bytes shared;
  back = new_endpoint-Direction server_bytes client_bytes shared;
}
Reachable-IsSound client_bytes server_bytes shared (after_step r t) =
    Step-IsSound t (Reachable-IsSound client_bytes server_bytes shared r)

-- Each end has delivered the frames that its peer numbered, in order and each once, up to the last
-- number that it received, however often transports were lost and replaced.
pub delivered_in_order :
    (client_bytes server_bytes : ℕ) (shared : NegotiatedRecoveryOptions) {s : System}
    → Reachable (new_system client_bytes server_bytes shared) s
    → (s.b.delivered ≡ take s.b.acks.last_recv_seq s.a.log)
      × (s.a.delivered ≡ take s.a.acks.last_recv_seq s.b.log)
      × Consecutive 0 s.a.log
      × Consecutive 0 s.b.log
delivered_in_order client_bytes server_bytes shared r =
    let v = Reachable-IsSound client_bytes server_bytes shared r in
    (v.forth.delivered, v.back.delivered, v.forth.sender.numbered, v.back.sender.numbered)

not_refused :
    {peer e' : Endpoint} {flight rest : List Frame} {live back_live : Bool} {h : Handled}
    → Reads peer flight rest live back_live h e'
    → (h ≡ proceed) ⊎ (h ≡ peer_closed)
not_refused (takes f b) = inl refl
not_refused closes = inr refl

-- No frame that an end reads from its peer is refused, while the streams take it: there is no gap in
-- the numbers, and every control frame is understood. The reader goes on, or it was the peer's CLOSE.
pub never_rejected :
    (client_bytes server_bytes : ℕ) (shared : NegotiatedRecoveryOptions) {s : System} {f : Frame}
    {rest : List Frame} (now : ℕ)
    → Reachable (new_system client_bytes server_bytes shared) s
    → s.ba ≡ f ∷ rest
    → ((handle_frame s.a now none f).0 ≡ proceed) ⊎ ((handle_frame s.a now none f).0 ≡ peer_closed)
never_rejected client_bytes server_bytes shared now r e =
    not_refused (read-IsSound now (Reachable-IsSound client_bytes server_bytes shared r) e)

-- What is not delivered yet is still in the sender's replay buffer.
pub undelivered_kept :
    (client_bytes server_bytes : ℕ) (shared : NegotiatedRecoveryOptions) {s : System}
    → Reachable (new_system client_bytes server_bytes shared) s
    → s.b.delivered ++ map frame_of (newer s.b.acks.last_recv_seq (queue s.a.replay)) ≡ s.a.log
undelivered_kept client_bytes server_bytes shared {s} r =
    let v = Reachable-IsSound client_bytes server_bytes shared r in
    ap₂ ◌++◌ v.forth.delivered (
      newer-log s.a s.b.acks.last_recv_seq v.forth.sender
      ∙ ap (λ (k : ℕ). drop k s.a.log) (omega (arith, v.forth.acked)))
    ∙ take-append-drop s.b.acks.last_recv_seq s.a.log

-- Once the writer has nothing to resume and the transport has carried what was written, everything
-- is delivered: the log of `a`, whole and in order.
pub quiescent_delivered :
    (client_bytes server_bytes : ℕ) (shared : NegotiatedRecoveryOptions) {s : System}
    → Reachable (new_system client_bytes server_bytes shared) s
    → s.a_live ≡ true
    → s.a.resume ≡ []
    → s.ab ≡ []
    → s.b.delivered ≡ s.a.log
quiescent_delivered client_bytes server_bytes shared {s} r on all_resumed all_read =
    let v = Reachable-IsSound client_bytes server_bytes shared r in
    v.forth.delivered
    ∙ ap (λ (k : ℕ). take k s.a.log) {y = length s.a.log}
        (omega (
          arith,
          v.forth.got,
          all_sent s.a v.forth.end v.forth.end_within all_resumed (v.forth.ready on),
          at_end (
              subst (λ fs. Flows s.a.log s.b.acks.last_recv_seq fs v.forth.end) all_read
                v.forth.flows),
        ))
    ∙ take_all s.a.log
  where
    at_end : {log : List Frame} {h end : ℕ} → Flows log h [] end → h ≡ end
    at_end arrived = refl
