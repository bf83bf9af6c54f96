-- ===== src/Runtime/Direction.antt =====
-- The invariant of one direction, and what the steps of either end do to it.
use adaptivemsg_go.Attach.Control.{ack_control, close_control, ping_control}
use adaptivemsg_go.Frame.{Frame}
use adaptivemsg_go.Prelude.{
  All, All-append, Bool, List, [], ap, arith, false, length, length-append, refl, subst, suc, sym,
  take, true, zero, ℕ, ◌++◌, ◌+◌, ◌<◌, ◌^◌, ◌∙◌, ◌∷◌, ◌≡◌, ◌≤◌,
}
use adaptivemsg_go.Replay.{OutboundFrame}
use adaptivemsg_go.Runtime.{Endpoint, Written, start_transport}
use adaptivemsg_go.Runtime.Detached.{Stages}
use adaptivemsg_go.Runtime.Log.{
  Flows, Flows-append, Flows-log, Flows-take, arrived, take-append_short,
}
use adaptivemsg_go.Runtime.Sender.{IsQueued, IsReady, IsSender}
use adaptivemsg_go.Runtime.Starting.{
  start_transport-IsReady, start_transport-IsSender, start_transport-last_acked,
  start_transport-same,
}
use adaptivemsg_go.Runtime.System.{carry}
use adaptivemsg_go.Runtime.Writing.{Good, Sends, frames_of, good_control, good_data}

-- What the receiver has delivered is the beginning of the sender's log; the frames on their way
-- continue it without a gap, and a sender whose frames get there has sent all up to `end`.
pub record Direction (snd rcv : Endpoint) (flight back : List Frame) (live : Bool) : Type 0 where
  pub sender : IsSender snd
  pub small : length snd.log < 2 ^ 64
  pub acked : snd.replay.last_acked ≤ rcv.acks.last_recv_seq
  pub got : rcv.acks.last_recv_seq ≤ length snd.log
  pub delivered : rcv.delivered ≡ take rcv.acks.last_recv_seq snd.log
  pub acks_back : All (Good rcv.acks.last_recv_seq) back
  pub end : ℕ
  pub flows : Flows snd.log rcv.acks.last_recv_seq flight end
  pub end_within : end ≤ length snd.log
  pub ready : live ≡ true → IsReady snd end

pub Good-weaken : (n m : ℕ) (fs : List Frame) → n ≤ m → All (Good n) fs → All (Good m) fs
Good-weaken n m [] h g = tt
Good-weaken n m (f ∷ fs) h (good_data d, gs) = (good_data d, Good-weaken n m fs h gs)
Good-weaken n m (f ∷ fs) h (good_control (ack_control seq) c p a, gs) =
    (good_control (ack_control seq) c p (omega (arith, h, a)), Good-weaken n m fs h gs)
Good-weaken n m (f ∷ fs) h (good_control ping_control c p a, gs) =
    (good_control ping_control c p tt, Good-weaken n m fs h gs)
Good-weaken n m (f ∷ fs) h (good_control close_control c p a, gs) =
    (good_control close_control c p tt, Good-weaken n m fs h gs)

pub All-take {ℓ κ} :
    {A : Type ℓ} (P : A → Type κ) (n : ℕ) (xs : List A) → All P xs → All P (take n xs)
All-take P zero xs h = tt
All-take P (suc n) [] h = tt
All-take P (suc n) (x ∷ xs) h = (h.0, All-take P n xs h.1)

-- The receiver's other parts do not count.
pub same-Direction :
    {snd rcv : Endpoint} {flight back : List Frame} {live : Bool} (rcv' : Endpoint)
    (back' : List Frame)
    → Direction snd rcv flight back live
    → rcv'.acks.last_recv_seq ≡ rcv.acks.last_recv_seq
    → rcv'.delivered ≡ rcv.delivered
    → All (Good rcv.acks.last_recv_seq) back'
    → Direction snd rcv' flight back' live
same-Direction {snd} {rcv} {flight} rcv' back' d a e g = record {
  sender = d.sender;
  small = d.small;
  acked = omega (arith, d.acked, a);
  got = omega (arith, d.got, a);
  delivered = e ∙ d.delivered ∙ ap (λ (k : ℕ). take k snd.log) (sym a);
  acks_back = subst (λ (k : ℕ). All (Good k) back') (sym a) g;
  end = d.end;
  flows = subst (λ (k : ℕ). Flows snd.log k flight d.end) (sym a) d.flows;
  end_within = d.end_within;
  ready = d.ready;
}

module _ {snd rcv : Endpoint} {back : List Frame} where
  -- A step of the sender's writer, its frames carried or not.
  pub write-Direction :
      {flight : List Frame} {live : Bool} {out : Written × Endpoint}
      (d : Direction snd rcv flight back live)
      → length out.1.log < 2 ^ 64
      → Sends snd d.end out
      → Direction out.1 rcv (carry live flight (frames_of out.0)) back live
  write-Direction {flight} {live} {out} d fits s = go live d.ready
    where
      longer : length out.1.log ≡ length snd.log + length s.more
      longer = ap length s.grown ∙ length-append snd.log s.more

      old_flows : Flows out.1.log rcv.acks.last_recv_seq flight d.end
      old_flows =
          subst (λ t. Flows t rcv.acks.last_recv_seq flight d.end) (sym s.grown)
            (Flows-log s.more d.flows)

      build :
          (l : Bool) (flight' : List Frame) (end' : ℕ)
          → Flows out.1.log rcv.acks.last_recv_seq flight' end'
          → end' ≤ length out.1.log
          → (l ≡ true → IsReady out.1 end')
          → Direction out.1 rcv flight' back l
      build l flight' end' f w r = record {
        sender = s.sender;
        small = fits;
        acked = omega (arith, d.acked, s.same_acked);
        got = omega (arith, d.got, longer);
        delivered =
            d.delivered
            ∙ sym (take-append_short snd.log s.more rcv.acks.last_recv_seq d.got)
            ∙ ap (take rcv.acks.last_recv_seq) (sym s.grown);
        acks_back = d.acks_back;
        end = end';
        flows = f;
        end_within = w;
        ready = r;
      }

      go :
          (l : Bool)
          → (l ≡ true → IsReady snd d.end)
          → Direction out.1 rcv (carry l flight (frames_of out.0)) back l
      go true r =
          build true _ s.end (Flows-append old_flows (s.flow (r refl))) (s.end_within (r refl))
            (λ e. s.ready (r refl))
      go false r =
          build false flight d.end old_flows (omega (arith, d.end_within, longer))
            (λ e. absurd (cc))

  -- A frame that is staged without a transport.
  pub stage-Direction :
      {flight : List Frame} {live : Bool} {snd' : Endpoint} (d : Direction snd rcv flight back live)
      → live ≡ false
      → suc (length snd.log) < 2 ^ 64
      → Stages snd snd'
      → Direction snd' rcv flight back live
  stage-Direction {flight} {live} {snd'} d off room s = record {
    sender = s.sender;
    small = omega (arith, longer, room, s.short);
    acked = omega (arith, d.acked, s.same_acked);
    got = omega (arith, d.got, longer);
    delivered =
        d.delivered
        ∙ sym (take-append_short snd.log s.more rcv.acks.last_recv_seq d.got)
        ∙ ap (take rcv.acks.last_recv_seq) (sym s.grown);
    acks_back = d.acks_back;
    end = d.end;
    flows =
        subst (λ t. Flows t rcv.acks.last_recv_seq flight d.end) (sym s.grown)
          (Flows-log s.more d.flows);
    end_within = omega (arith, d.end_within, longer);
    ready = λ e. absurd (cc);
  }
    where
      longer : length snd'.log ≡ length snd.log + length s.more
      longer = ap length s.grown ∙ length-append snd.log s.more

  -- The sender starts on a new transport.
  pub attach-Direction :
      {flight : List Frame} {live : Bool} (d : Direction snd rcv flight back live) (resume_seq : ℕ)
      → flight ≡ []
      → resume_seq ≤ rcv.acks.last_recv_seq
      → Direction (start_transport snd resume_seq) rcv flight back true
  attach-Direction d resume_seq none_left h = record {
    sender = start_transport-IsSender snd resume_seq d.sender;
    small = omega (arith, d.small, ap length same);
    acked = omega (arith, d.acked, h, start_transport-last_acked snd resume_seq d.sender);
    got = omega (arith, d.got, ap length same);
    delivered = d.delivered ∙ ap (take rcv.acks.last_recv_seq) (sym same);
    acks_back = d.acks_back;
    end = rcv.acks.last_recv_seq;
    flows =
        subst
          (λ fs.
            Flows (start_transport snd resume_seq).log rcv.acks.last_recv_seq fs
              rcv.acks.last_recv_seq)
          (sym none_left) arrived;
    end_within = omega (arith, d.got, ap length same);
    ready = λ e. start_transport-IsReady snd resume_seq d.sender rcv.acks.last_recv_seq h d.acked;
  }
    where
      same : (start_transport snd resume_seq).log ≡ snd.log
      same = (start_transport-same snd resume_seq d.sender).2

  -- Frames are lost.
  pub lose-Direction :
      {flight : List Frame} {live : Bool} (n : ℕ)
      → Direction snd rcv flight back live
      → Direction snd rcv (take n flight) back false
  lose-Direction n d =
      let (last, below, kept_flows) = Flows-take n d.flows in
      record {
        sender = d.sender;
        small = d.small;
        acked = d.acked;
        got = d.got;
        delivered = d.delivered;
        acks_back = d.acks_back;
        end = last;
        flows = kept_flows;
        end_within = omega (arith, below, d.end_within);
        ready = λ e. absurd (cc);
      }

  pub back-Direction :
      {flight : List Frame} {live : Bool} (back' : List Frame)
      → Direction snd rcv flight back live
      → All (Good rcv.acks.last_recv_seq) back'
      → Direction snd rcv flight back' live
  back-Direction back' d g = same-Direction rcv back' d refl refl g

  -- The sender gives its transport up.
  pub idle-Direction :
      {flight : List Frame} {live : Bool}
      → Direction snd rcv flight back live
      → Direction snd rcv flight [] false
  idle-Direction d = record {
    sender = d.sender;
    small = d.small;
    acked = d.acked;
    got = d.got;
    delivered = d.delivered;
    acks_back = tt;
    end = d.end;
    flows = d.flows;
    end_within = d.end_within;
    ready = λ e. absurd (cc);
  }

  -- A frame is queued.
  pub submit-Direction :
      {flight : List Frame} {live : Bool} (frame : OutboundFrame)
      → IsQueued frame
      → Direction snd rcv flight back live
      → Direction (record snd { outbound = snd.outbound ++ (frame ∷ []) }) rcv flight back live
  submit-Direction frame q d = record {
    sender = record {
      numbered = d.sender.numbered;
      data_only = d.sender.data_only;
      counted = d.sender.counted;
      valid = d.sender.valid;
      acked = d.sender.acked;
      remembered = d.sender.remembered;
      queued = All-append IsQueued snd.outbound (frame ∷ []) d.sender.queued (q, tt);
      held_queued = d.sender.held_queued;
      resume_data = d.sender.resume_data;
    };
    small = d.small;
    acked = d.acked;
    got = d.got;
    delivered = d.delivered;
    acks_back = d.acks_back;
    end = d.end;
    flows = d.flows;
    end_within = d.end_within;
    ready = λ l.
        let r = d.ready l in
        record { sent = r.sent; within = r.within; ending = r.ending; reached = r.reached };
  }
