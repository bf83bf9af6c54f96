-- ===== src/Runtime/Writing.antt =====
-- What each step of the writer sends, and that the receiver is never sent a gap.
use adaptivemsg_go.Attach.Control.{
  Control, ack_control, close_control, control_payload, ping_control,
}
use adaptivemsg_go.Frame.{Frame, control_stream_id}
use adaptivemsg_go.Prelude.{
  All, Bool-cases, List, [], ap, append-nil, arith, drop, get_elem?, inl, inr, leb, leb→le, length,
  map, max, refl, some, subst, suc, sym, true, ℕ, ◌++◌, ◌+◌, ◌-◌, ◌==◌, ◌||◌, ◌∙◌, ◌∷◌, ◌≡◌, ◌≤◌,
}
use adaptivemsg_go.Replay.{FrameRecord, last_acked_seq}
use adaptivemsg_go.Runtime.{
  Endpoint, Written, frame_of, idle, resume_first, skipped, writer_done, writer_done_silently,
  wrote,
}
use adaptivemsg_go.Runtime.Log.{Consecutive-get_elem?, Flows, IsData, arrived, drop_cons, next, old}
use adaptivemsg_go.Runtime.Sender.{IsReady, IsSender}

abbrev pub frames_of : Written → List Frame
frames_of (wrote f) = f ∷ []
frames_of skipped = []
frames_of idle = []
frames_of (writer_done f) = f ∷ []
frames_of writer_done_silently = []

-- A control frame that was built, and acknowledges no more than `n`.
abbrev pub Acknowledges : ℕ → Control → Type 0
Acknowledges n (ack_control seq) = seq ≤ n
Acknowledges n ping_control = Unit {0}
Acknowledges n close_control = Unit {0}

pub data Good (n : ℕ) (f : Frame) : Type 0 where
  good_data : IsData f → Good n f
  good_control :
      (c : Control)
      → (f.stream_id == control_stream_id) ≡ true
      → f.payload ≡ control_payload c
      → Acknowledges n c
      → Good n f

-- A step of the writer that starts where everything before `horizon` has been sent.
pub record Sends (e : Endpoint) (horizon : ℕ) (out : Written × Endpoint) : Type 0 where
  pub sender : IsSender out.1
  pub same_received : out.1.acks.last_recv_seq ≡ e.acks.last_recv_seq
  pub same_delivered : out.1.delivered ≡ e.delivered
  pub same_acked : out.1.replay.last_acked ≡ e.replay.last_acked
  pub more : List Frame
  pub short : length more ≤ 1
  pub grown : out.1.log ≡ e.log ++ more
  pub good : All (Good e.acks.last_recv_seq) (frames_of out.0)
  pub end : ℕ
  pub flow : IsReady e horizon → Flows out.1.log horizon (frames_of out.0) end
  pub ready : IsReady e horizon → IsReady out.1 end
  pub end_within : IsReady e horizon → end ≤ length out.1.log

-- A step that sends nothing and leaves the log alone.
module _ (e e' : Endpoint) (horizon : ℕ) (w : Written) (none_sent : frames_of w ≡ []) where
  pub quiet-Sends :
      IsSender e'
      → e'.acks.last_recv_seq ≡ e.acks.last_recv_seq
      → e'.delivered ≡ e.delivered
      → e'.replay.last_acked ≡ e.replay.last_acked
      → e'.log ≡ e.log
      → horizon ≤ length e.log
      → (IsReady e horizon → IsReady e' horizon)
      → Sends e horizon (w, e')
  quiet-Sends s a d k l below ready = record {
    sender = s;
    same_received = a;
    same_delivered = d;
    same_acked = k;
    more = [];
    short = omega arith;
    grown = l ∙ sym (append-nil e.log);
    good = subst (All (Good e.acks.last_recv_seq)) (sym none_sent) tt;
    end = horizon;
    flow = λ h. subst (λ fs. Flows e'.log horizon fs horizon) (sym none_sent) arrived;
    ready = ready;
    end_within = λ h. omega (arith, below, ap length l);
  }

-- `write_resume` sends the next frame of the log that is not known to have arrived.
module _ (e : Endpoint) (horizon : ℕ) (v : IsSender e) (below : horizon ≤ length e.log)
    (acked : e.replay.last_acked ≤ horizon) where
  abbrev popped : FrameRecord → List FrameRecord → Endpoint
  popped r rest = record e { resume = rest; resume_depth = length rest }

  popped-IsSender :
      (r : FrameRecord) (rest : List FrameRecord) (last : ℕ)
      → All (λ x. IsData (frame_of x)) rest
      → IsSender (record (popped r rest) { last_sent_seq = last })
  popped-IsSender r rest last d = record {
    numbered = v.numbered;
    data_only = v.data_only;
    counted = v.counted;
    valid = v.valid;
    acked = v.acked;
    remembered = v.remembered;
    queued = v.queued;
    held_queued = v.held_queued;
    resume_data = d;
  }

  -- The place of the frame in the log.
  module _ (r : FrameRecord) (rest : List FrameRecord) (t : e.resume ≡ r ∷ rest)
      (ready : IsReady e horizon) where
    abbrev place : ℕ
    place = length e.log - suc (length rest)

    place-eq : length e.log - length e.resume ≡ place
    place-eq = omega (arith, ap length t)

    in_log :
        (get_elem? e.log place ≡ some (frame_of r)) × (drop (suc place) e.log ≡ map frame_of rest)
    in_log =
        drop_cons place e.log (map frame_of rest)
          (ap (λ (k : ℕ). drop k e.log) (sym place-eq) ∙ sym ready.ending ∙ ap (map frame_of) t)

    seq-place : r.seq ≡ suc place
    seq-place = omega (arith, Consecutive-get_elem? 0 place e.log v.numbered in_log.0)

    place_within : suc place + length rest ≡ length e.log
    place_within = omega (arith, ready.within, ap length t)

    rest-IsReady :
        (last : ℕ) (end : ℕ)
        → last ≤ end
        → suc place ≤ end
        → IsReady (record (popped r rest) { last_sent_seq = last }) end
    rest-IsReady last end a b = record {
      sent = a;
      within = omega (arith, place_within);
      ending =
          sym in_log.1 ∙ ap (λ (k : ℕ). drop k e.log) {x = suc place} (omega (arith, place_within));
      reached = omega (arith, place_within, b);
    }

    first-Flows : IsData (frame_of r) → Flows e.log horizon (frame_of r ∷ []) (max horizon r.seq)
    first-Flows d = elim (Bool-cases (leb r.seq horizon)) [
      | inl known ↦
          subst (Flows e.log horizon (frame_of r ∷ [])) {x = horizon}
            (omega (arith, leb→le r.seq horizon known))
            (old d (omega (arith, seq-place)) (leb→le r.seq horizon known) arrived)
      | inr fresh ↦
          let here : place ≡ horizon = ground (arith, fresh, seq-place, ready.reached, place-eq) in
          subst (Flows e.log horizon (frame_of r ∷ [])) {x = suc horizon}
            (omega (arith, here, seq-place))
            (next d (omega (arith, here, seq-place)) (ap (get_elem? e.log) (sym here) ∙ in_log.0)
              arrived)
    ]

  -- The first frame is not sent if it is known to have arrived.
  pub resume_first-Sends :
      (r : FrameRecord) (rest : List FrameRecord)
      → e.resume ≡ r ∷ rest
      → Sends e horizon (resume_first e r rest)
  unfolding resume_first last_acked_seq
  resume_first-Sends r rest t =
      let d : All (λ x. IsData (frame_of x)) (r ∷ rest) =
        subst (All (λ x. IsData (frame_of x))) t v.resume_data in
      elim (Bool-cases (leb r.seq e.last_sent_seq || leb r.seq e.replay.last_acked)) [
        | inl arrived_already ↦ rw arrived_already (
            quiet-Sends e (popped r rest) horizon skipped refl
              (popped-IsSender r rest e.last_sent_seq d.1) refl refl refl refl below
              (λ ready.
                rest-IsReady r rest t ready e.last_sent_seq horizon ready.sent
                  (ground (arith, arrived_already, seq-place r rest t ready, ready.sent, acked))))
        | inr fresh ↦ rw fresh (record {
          sender = popped-IsSender r rest r.seq d.1;
          same_received = refl;
          same_delivered = refl;
          same_acked = refl;
          more = [];
          short = omega arith;
          grown = sym (append-nil e.log);
          good = (good_data d.0, tt);
          end = max horizon r.seq;
          flow = λ ready. first-Flows r rest t ready d.0;
          ready = λ ready.
              rest-IsReady r rest t ready r.seq (max horizon r.seq) (omega arith)
                (omega (arith, seq-place r rest t ready));
          end_within =
              λ ready. omega (arith, below, seq-place r rest t ready, place_within r rest t ready);
        })
      ]
