-- ===== src/Runtime/Receiving.antt =====
-- What a frame that is read does to the invariant of either direction.
use adaptivemsg_go.AckSchedule.{AckState, note_received}
use adaptivemsg_go.Attach.{parse_control_payload}
use adaptivemsg_go.Attach.Control.{
  Control, ack_control, close_control, control_payload, parse_control_payload-build, ping_control,
}
use adaptivemsg_go.Frame.{Frame}
use adaptivemsg_go.Prelude.{
  Bool, List, [], ap, arith, false, get_elem?, leb-false, le→leb, none, some, subst, suc, sym, take,
  true, ℕ, ◌%◌, ◌++◌, ◌+◌, ◌<◌, ◌==◌, ◌^◌, ◌∙◌, ◌∷◌, ◌≡◌, ◌≤◌,
}
use adaptivemsg_go.Replay.{ack}
use adaptivemsg_go.Runtime.{
  Endpoint, Handled, apply_control, handle_control_frame, handle_frame, handle_recovery_data_frame,
  peer_closed, proceed,
}
use adaptivemsg_go.Runtime.Direction.{Direction, Good-weaken, back-Direction}
use adaptivemsg_go.Runtime.Log.{Flows, Flows-le, control, get_elem?-lt, next, old, take-grow}
use adaptivemsg_go.Runtime.Sender.{ack-IsSender, ack-last_acked}
use adaptivemsg_go.Runtime.Writing.{Acknowledges, Good, good_control, good_data}

note_received-old :
    (s : AckState) (now seq : ℕ)
    → seq ≤ s.last_recv_seq
    → (note_received s now seq).1.last_recv_seq ≡ s.last_recv_seq
unfolding note_received
note_received-old s now seq h = ground (arith, h)

note_received-next :
    (s : AckState) (now seq : ℕ)
    → s.last_recv_seq < seq
    → (note_received s now seq).1.last_recv_seq ≡ seq
unfolding note_received
note_received-next s now seq h = ground (arith, h)

abbrev acknowledged : Endpoint → ℕ → Endpoint
acknowledged e n = record e { replay = (ack e.replay n).1 }

ack-Direction :
    {e rcv : Endpoint} {flight back : List Frame} {live : Bool} (n : ℕ)
    → n ≤ rcv.acks.last_recv_seq
    → Direction e rcv flight back live
    → Direction (acknowledged e n) rcv flight back live
ack-Direction {e} {rcv} n h d = record {
  sender = ack-IsSender e n d.sender (omega (arith, h, d.got));
  small = d.small;
  acked = omega (arith, h, d.acked, ack-last_acked e n d.sender (omega (arith, h, d.got)));
  got = d.got;
  delivered = d.delivered;
  acks_back = d.acks_back;
  end = d.end;
  flows = d.flows;
  end_within = d.end_within;
  ready = λ l.
      let r = d.ready l in
      record { sent = r.sent; within = r.within; ending = r.ending; reached = r.reached };
}

-- The sender's times of acknowledgement and deliveries do not count.
sender-Direction :
    {e rcv : Endpoint} {flight back : List Frame} {live : Bool} (a : AckState) (ds : List Frame)
    → Direction e rcv flight back live
    → Direction (record e { acks = a; delivered = ds }) rcv flight back live
sender-Direction {e} a ds d = record {
  sender = record {
    numbered = d.sender.numbered;
    data_only = d.sender.data_only;
    counted = d.sender.counted;
    valid = d.sender.valid;
    acked = d.sender.acked;
    remembered = d.sender.remembered;
    queued = d.sender.queued;
    held_queued = d.sender.held_queued;
    resume_data = d.sender.resume_data;
  };
  small = d.small;
  acked = d.acked;
  got = d.got;
  delivered = d.delivered;
  acks_back = d.acks_back;
  end = d.end;
  flows = d.flows;
  end_within = d.end_within;
  ready = λ l.
      let r = d.ready l in
      record { sent = r.sent; within = r.within; ending = r.ending; reached = r.reached };
}

-- The receiver's state after a frame that changes nothing for the sender `snd`, or delivers.
rest-Direction :
    {snd rcv : Endpoint} {f : Frame} {rest back : List Frame} {live : Bool}
    (d : Direction snd rcv (f ∷ rest) back live) (rcv' : Endpoint)
    → Flows snd.log rcv'.acks.last_recv_seq rest d.end
    → rcv.acks.last_recv_seq ≤ rcv'.acks.last_recv_seq
    → rcv'.delivered ≡ take rcv'.acks.last_recv_seq snd.log
    → Direction snd rcv' rest back live
rest-Direction {rcv = rcv} {back = back} d rcv' flows grows delivered = record {
  sender = d.sender;
  small = d.small;
  acked = omega (arith, d.acked, grows);
  got = omega (arith, Flows-le flows, d.end_within);
  delivered = delivered;
  acks_back = Good-weaken rcv.acks.last_recv_seq rcv'.acks.last_recv_seq back grows d.acks_back;
  end = d.end;
  flows = flows;
  end_within = d.end_within;
  ready = d.ready;
}

-- An end `e` reads a frame of its peer: the frame is taken and both directions stay sound, or it is
-- the peer's CLOSE. It is never refused.
pub data Reads (peer : Endpoint) (flight rest : List Frame) (live back_live : Bool)
    : Handled → Endpoint → Type 0 where
  takes :
      {e' : Endpoint}
      → Direction e' peer flight rest live
      → Direction peer e' rest flight back_live
      → Reads peer flight rest live back_live proceed e'
  closes : {e' : Endpoint} → Reads peer flight rest live back_live peer_closed e'

module _ {e peer : Endpoint} {f : Frame} {flight rest : List Frame} {live back_live : Bool}
    (now : ℕ) (d : Direction e peer flight (f ∷ rest) live)
    (r : Direction peer e (f ∷ rest) flight back_live) where
  abbrev Out : Handled × Endpoint → Type 0
  Out out = Reads peer flight rest live back_live out.0 out.1

  forward : Direction e peer flight rest live
  forward = back-Direction rest d d.acks_back.1

  -- A control frame was built by the peer.
  control-Reads :
      (c : Control)
      → f.payload ≡ control_payload c
      → Acknowledges peer.acks.last_recv_seq c
      → Flows peer.log e.acks.last_recv_seq rest r.end
      → Out (handle_control_frame e f.payload)
  unfolding handle_control_frame
  control-Reads (ack_control seq) p a t =
      subst (λ o. Out (apply_control e o))
        (sym (
          ap parse_control_payload p
          ∙ parse_control_payload-build (ack_control seq) (omega (arith, a, d.got, d.small))))
        (takes (ack-Direction seq a forward)
          (rest-Direction r (acknowledged e seq) t (omega arith) r.delivered))
  control-Reads ping_control p a t =
      subst (λ o. Out (apply_control e o))
        (sym (ap parse_control_payload p ∙ parse_control_payload-build ping_control tt))
        (takes forward (rest-Direction r e t (omega arith) r.delivered))
  control-Reads close_control p a t =
      subst (λ o. Out (apply_control e o))
        (sym (ap parse_control_payload p ∙ parse_control_payload-build close_control tt)) closes

  abbrev noted : Endpoint
  noted = record e { acks = (note_received e.acks now f.seq).1 }

  old-Reads :
      0 < f.seq
      → f.seq ≤ e.acks.last_recv_seq
      → Flows peer.log e.acks.last_recv_seq rest r.end
      → Out (handle_recovery_data_frame e now none f)
  unfolding handle_recovery_data_frame
  old-Reads p l t =
      rw (ne, le→leb f.seq e.acks.last_recv_seq l)
        (takes (sender-Direction (note_received e.acks now f.seq).1 e.delivered forward) (
          rest-Direction r noted (subst (λ (k : ℕ). Flows peer.log k rest r.end) (sym same) t)
            (omega (arith, same)) (r.delivered ∙ ap (λ (k : ℕ). take k peer.log) (sym same))))
    where
      ne : (f.seq == 0) ≡ false
      ne = ground (arith, p)

      same : (note_received e.acks now f.seq).1.last_recv_seq ≡ e.acks.last_recv_seq
      same = note_received-old e.acks now f.seq l

  next-Reads :
      f.seq ≡ suc e.acks.last_recv_seq
      → get_elem? peer.log e.acks.last_recv_seq ≡ some f
      → Flows peer.log (suc e.acks.last_recv_seq) rest r.end
      → Out (handle_recovery_data_frame e now none f)
  unfolding handle_recovery_data_frame
  next-Reads n g t =
      rw (ne, leb-false f.seq e.acks.last_recv_seq (omega (arith, n)), exact)
        (takes
          (sender-Direction (note_received e.acks now f.seq).1 (e.delivered ++ (f ∷ [])) forward)
          (rest-Direction r (record noted { delivered = e.delivered ++ (f ∷ []) })
            (subst (λ (k : ℕ). Flows peer.log k rest r.end) (sym now_last) t)
            (omega (arith, now_last))
            (ap (λ t. t ++ (f ∷ [])) r.delivered
              ∙ sym (take-grow peer.log e.acks.last_recv_seq g)
              ∙ ap (λ (k : ℕ). take k peer.log) (sym now_last))))
    where
      ne : (f.seq == 0) ≡ false
      ne = ground (arith, n)

      exact : (f.seq == (e.acks.last_recv_seq + 1) % 2 ^ 64) ≡ true
      exact = ground (arith, n, get_elem?-lt peer.log e.acks.last_recv_seq g, r.small)

      now_last : (note_received e.acks now f.seq).1.last_recv_seq ≡ suc e.acks.last_recv_seq
      now_last = note_received-next e.acks now f.seq (omega (arith, n)) ∙ n

  pub handle_frame-Reads : Out (handle_frame e now none f)
  unfolding handle_frame
  handle_frame-Reads = go r.flows d.acks_back.0
    where
      go :
          Flows peer.log e.acks.last_recv_seq (f ∷ rest) r.end
          → Good peer.acks.last_recv_seq f
          → Out (handle_frame e now none f)
      go (control c t) (good_data k) = absurd (cc)
      go (control c t) (good_control ctl c' p a) = rw c (control-Reads ctl p a t)
      go (old k p l t) g = rw k (old-Reads p l t)
      go (next k n g t) _ = rw k (next-Reads n g t)
