-- ===== src/Runtime/Sender.antt =====
-- The sending side: the log, the replay buffer behind it, and the frames still to be written.
use adaptivemsg_go.Frame.{control_stream_id}
use adaptivemsg_go.Prelude.{
  All, Bool-cases, Option, ap, arith, drop, false, inl, inr, leb, leb→le, length, map, max, none,
  refl, some, sym, ℕ, ◌+◌, ◌-◌, ◌==◌, ◌∙◌, ◌≡◌, ◌≤◌,
}
use adaptivemsg_go.Recovery.{NegotiatedRecoveryOptions}
use adaptivemsg_go.Replay.{OutboundFrame, ack, new_replay_buffer}
use adaptivemsg_go.Replay.Operations.{ack_refines}
use adaptivemsg_go.Replay.Queue.{View, newer, newer_all, view_ack}
use adaptivemsg_go.Replay.Refine.{IsValid, new_replay_buffer-IsValid, queue, view}
use adaptivemsg_go.Runtime.{Endpoint, frame_of, new_endpoint}
use adaptivemsg_go.Runtime.Log.{
  Consecutive, Consecutive-drop, IsData, drop-drop, map-newer, newer_frames, newer_frames-drop,
}

-- Frames of the application, as the streams queue them: not on the control stream.
abbrev pub IsQueued : OutboundFrame → Type 0
IsQueued f = (f.stream_id == control_stream_id) ≡ false

abbrev pub IsHeldQueued : Option OutboundFrame → Type 0
IsHeldQueued none = Unit {0}
IsHeldQueued (some f) = IsQueued f

-- The log has the numbers from 1 on, and the replay buffer its end, behind what is acknowledged.
pub record IsSender (e : Endpoint) : Type 0 where
  pub numbered : Consecutive 0 e.log
  pub data_only : All IsData e.log
  pub counted : e.next_send_seq ≡ length e.log
  pub valid : IsValid e.replay
  pub acked : e.replay.last_acked ≤ length e.log
  pub remembered : map frame_of (queue e.replay) ≡ drop e.replay.last_acked e.log
  pub queued : All IsQueued e.outbound
  pub held_queued : IsHeldQueued e.held_frame
  pub resume_data : All (λ r. IsData (frame_of r)) e.resume

-- The writer has sent everything before `horizon`, and will send all that is behind it: `resume`
-- is the end of the log.
pub record IsReady (e : Endpoint) (horizon : ℕ) : Type 0 where
  pub sent : e.last_sent_seq ≤ horizon
  pub within : length e.resume ≤ length e.log
  pub ending : map frame_of e.resume ≡ drop (length e.log - length e.resume) e.log
  pub reached : length e.log - length e.resume ≤ horizon

pub new_endpoint-IsSender :
    (max_replay_bytes : ℕ) (shared : NegotiatedRecoveryOptions)
    → IsSender (new_endpoint max_replay_bytes shared)
unfolding new_endpoint
new_endpoint-IsSender max_replay_bytes shared = record {
  numbered = tt;
  data_only = tt;
  counted = refl;
  valid = (new_replay_buffer-IsValid 3 max_replay_bytes).0;
  acked = unfold new_replay_buffer in omega arith;
  remembered = unfold new_replay_buffer in refl;
  queued = tt;
  held_queued = tt;
  resume_data = tt;
}

-- The records behind a number are the end of the log.
pub newer-log :
    (e : Endpoint) (n : ℕ)
    → IsSender e
    → map frame_of (newer n (queue e.replay)) ≡ drop (max n e.replay.last_acked) e.log
newer-log e n v =
    map-newer n (queue e.replay)
    ∙ ap (newer_frames n) v.remembered
    ∙ newer_frames-drop n (0 + e.replay.last_acked) (drop e.replay.last_acked e.log)
        (Consecutive-drop 0 e.replay.last_acked e.log v.numbered)
    ∙ drop-drop (n - (0 + e.replay.last_acked)) e.replay.last_acked e.log
    ∙ ap (λ (k : ℕ). drop k e.log) {x = e.replay.last_acked + (n - (0 + e.replay.last_acked))}
        (omega arith)

-- What an acknowledgement leaves in the buffer.
module _ (e : Endpoint) (n : ℕ) (v : IsSender e) (known : n ≤ length e.log) where
  abbrev after : Endpoint
  after = record e { replay = (ack e.replay n).1 }

  acked_view : view (ack e.replay n).1 ≡ (view_ack (view e.replay) n).1
  acked_view = (ack_refines e.replay n v.valid).1

  pub ack-last_acked : (ack e.replay n).1.last_acked ≡ max n e.replay.last_acked
  unfolding view_ack
  ack-last_acked =
      ap (λ (w : View). w.last_acked) acked_view ∙ elim (Bool-cases (leb n e.replay.last_acked)) [
        | inl h ↦ rw h (ground (arith, h))
        | inr h ↦ rw h (ground (arith, h))
      ]

  ack-queue : queue (ack e.replay n).1 ≡ newer n (queue e.replay)
  unfolding view_ack
  ack-queue =
      ap (λ (w : View). w.records) acked_view ∙ elim (Bool-cases (leb n e.replay.last_acked)) [
        | inl h ↦ rw h (
            sym (
              newer_all n e.replay.last_acked (queue e.replay) (leb→le n e.replay.last_acked h)
                v.valid.increasing))
        | inr h ↦ rw h refl
      ]

  pub ack-IsSender : IsSender after
  ack-IsSender = record {
    numbered = v.numbered;
    data_only = v.data_only;
    counted = v.counted;
    valid = (ack_refines e.replay n v.valid).2;
    acked = omega (arith, ack-last_acked, v.acked);
    remembered =
        ap (map frame_of) ack-queue
        ∙ newer-log e n v
        ∙ ap (λ (k : ℕ). drop k e.log) (sym ack-last_acked);
    queued = v.queued;
    held_queued = v.held_queued;
    resume_data = v.resume_data;
  }
