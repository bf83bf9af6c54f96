-- ===== src/Runtime/Starting.antt =====
-- The start on a new transport: what is left to resume is what the peer does not have.
use adaptivemsg_go.Frame.{Frame}
use adaptivemsg_go.Prelude.{
  All, List, [], ap, arith, drop, length, length-drop, length-map, map, max, min, refl, subst, suc,
  sym, zero, ℕ, ◌-◌, ◌∙◌, ◌∷◌, ◌≡◌, ◌≤◌,
}
use adaptivemsg_go.Replay.{FrameRecord, ack, snapshot_from}
use adaptivemsg_go.Replay.Operations.{snapshot_refines}
use adaptivemsg_go.Replay.Queue.{view_snapshot}
use adaptivemsg_go.Runtime.{Endpoint, frame_of, prepare_resume, start_transport}
use adaptivemsg_go.Runtime.Log.{IsData}
use adaptivemsg_go.Runtime.Sender.{IsReady, IsSender, ack-IsSender, ack-last_acked, newer-log}

All-unmap :
    (rs : List FrameRecord) → All IsData (map frame_of rs) → All (λ r. IsData (frame_of r)) rs
All-unmap [] h = tt
All-unmap (r ∷ rs) h = (h.0, All-unmap rs h.1)

All-drop : (n : ℕ) (fs : List Frame) → All IsData fs → All IsData (drop n fs)
All-drop zero fs h = h
All-drop (suc n) [] h = tt
All-drop (suc n) (f ∷ fs) h = All-drop n fs h.1

-- `resume_seq` is what the peer says that it has.
module _ (e : Endpoint) (resume_seq : ℕ) (v : IsSender e) where
  abbrev known : ℕ
  known = min resume_seq e.next_send_seq

  within : known ≤ length e.log
  within = omega (arith, v.counted)

  abbrev acked_end : Endpoint
  acked_end = record e { replay = (ack e.replay known).1 }

  acked_end-IsSender : IsSender acked_end
  acked_end-IsSender = ack-IsSender e known v within

  abbrev left : List FrameRecord
  left = snapshot_from (ack e.replay known).1 known

  abbrev place : ℕ
  place = max known (ack e.replay known).1.last_acked

  left-log : map frame_of left ≡ drop place e.log
  unfolding view_snapshot
  left-log =
      ap (map frame_of) (snapshot_refines (ack e.replay known).1 known acked_end-IsSender.valid)
      ∙ newer-log acked_end known acked_end-IsSender

  place_within : place ≤ length e.log
  place_within = omega (arith, within, acked_end-IsSender.acked)

  place-eq : length e.log - length left ≡ place
  place-eq =
      omega
        (arith, place_within, ap length left-log, length-map frame_of left, length-drop place e.log)

  pub start_transport-IsSender : IsSender (start_transport e resume_seq)
  unfolding start_transport prepare_resume
  start_transport-IsSender = record {
    numbered = v.numbered;
    data_only = v.data_only;
    counted = v.counted;
    valid = acked_end-IsSender.valid;
    acked = acked_end-IsSender.acked;
    remembered = acked_end-IsSender.remembered;
    queued = v.queued;
    held_queued = v.held_queued;
    resume_data =
        All-unmap left (subst (All IsData) (sym left-log) (All-drop place e.log v.data_only));
  }

  pub start_transport-last_acked :
      (start_transport e resume_seq).replay.last_acked ≡ max known e.replay.last_acked
  unfolding start_transport prepare_resume
  start_transport-last_acked = ack-last_acked e known v within

  -- The writer is ready from what the peer has.
  pub start_transport-IsReady :
      (horizon : ℕ)
      → resume_seq ≤ horizon
      → e.replay.last_acked ≤ horizon
      → IsReady (start_transport e resume_seq) horizon
  unfolding start_transport prepare_resume
  start_transport-IsReady horizon a b = record {
    sent = omega (arith, a);
    within = omega (arith, ap length left-log, length-map frame_of left, length-drop place e.log);
    ending = left-log ∙ ap (λ (k : ℕ). drop k e.log) (sym place-eq);
    reached = omega (arith, place-eq, a, b, ack-last_acked e known v within);
  }

  pub start_transport-same :
      ((start_transport e resume_seq).acks ≡ e.acks)
      × ((start_transport e resume_seq).delivered ≡ e.delivered)
      × ((start_transport e resume_seq).log ≡ e.log)
  unfolding start_transport prepare_resume
  start_transport-same = (refl, refl, refl)
