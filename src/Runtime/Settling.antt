-- ===== src/Runtime/Settling.antt =====
-- A frame that the writer stages.
use adaptivemsg_go.Errors.{Error}
use adaptivemsg_go.Prelude.{
  All-append, Bool-cases, Option, [], ap, arith, drop, inl, inr, leb, length, length-append, ltb,
  map, map-append, none, refl, some, subst, suc, sym, ℕ, ◌%◌, ◌&&◌, ◌++◌, ◌+◌, ◌<◌, ◌^◌, ◌∙◌, ◌∷◌,
  ◌≡◌,
}
use adaptivemsg_go.Replay.{
  FrameRecord, OutboundFrame, ReplayBuffer, Staged, failed, held, kept, stage,
}
use adaptivemsg_go.Replay.Operations.{stage_refines}
use adaptivemsg_go.Replay.Queue.{View, last_seq_of, record_of, total, view_stage}
use adaptivemsg_go.Replay.Refine.{IsValid, queue, view}
use adaptivemsg_go.Runtime.{Endpoint, frame_of, settle, tell, writer_stage}
use adaptivemsg_go.Runtime.Log.{Consecutive-append, IsData, drop-append_short}
use adaptivemsg_go.Runtime.Sender.{IsQueued, IsSender}
use adaptivemsg_go.Sessions.Resuming.{behind}

-- The parts that staging a frame leaves alone.
pub record IsStill (e e' : Endpoint) : Type 0 where
  pub same_acks : e'.acks ≡ e.acks
  pub same_delivered : e'.delivered ≡ e.delivered
  pub same_last_sent : e'.last_sent_seq ≡ e.last_sent_seq
  pub same_resume : e'.resume ≡ e.resume
  pub same_acked : e'.replay.last_acked ≡ e.replay.last_acked

-- The answers of the buffer, on the queue that it stands for.
data Answer (v : View) (frame : OutboundFrame) (seq : ℕ) : Staged → View → Type 0 where
  is_kept :
      Answer v frame seq
        (kept (record_of v.header_len frame seq))
        (record v { records = v.records ++ (record_of v.header_len frame seq ∷ []) })
  is_held : Answer v frame seq held v
  is_failed : (x : Error) → Answer v frame seq (failed x) v

view_stage-Answer :
    (v : View) (frame : OutboundFrame) (seq : ℕ)
    → Answer v frame seq (view_stage v frame seq).0 (view_stage v frame seq).1
unfolding view_stage
view_stage-Answer v frame seq =
    elim (Bool-cases (
      ltb 0 v.max_bytes
      && ltb v.max_bytes (total v.records + (v.header_len + length frame.payload)))) [
        | inl full ↦
            rw full (elim (Bool-cases (leb (v.header_len + length frame.payload) v.max_bytes)) [
              | inl fits ↦ rw fits is_held
              | inr large ↦ rw large (is_failed _)
            ])
        | inr room ↦ rw room (elim (Bool-cases (leb seq v.last_acked)) [
          | inl old_one ↦ rw old_one (is_failed _)
          | inr new ↦ rw new (elim (Bool-cases (leb seq (last_seq_of v.last_acked v.records))) [
            | inl behind ↦ rw behind (is_failed _)
            | inr above ↦ rw above is_kept
          ])
        ])
      ]

-- A frame that is staged joins the log; one that is held or refused does not.
pub data Joined (e : Endpoint) : Option FrameRecord → Endpoint → Type 0 where
  stays : {e' : Endpoint} → e'.log ≡ e.log → Joined e none e'
  joins :
      {e' : Endpoint} (r : FrameRecord)
      → e'.log ≡ e.log ++ (frame_of r ∷ [])
      → r.seq ≡ suc (length e.log)
      → IsData (frame_of r)
      → Joined e (some r) e'

pub record Settled (e : Endpoint) (out : Option FrameRecord × Endpoint) : Type 0 where
  pub sender : IsSender out.1
  pub still : IsStill e out.1
  pub joined : Joined e out.0 out.1

-- Telling the sender of a frame changes none of this.
tell-Settled :
    (e e' : Endpoint) (o : Option FrameRecord) (channel : Option ℕ) (verdict : Option Error)
    → Settled e (o, e')
    → Settled e (o, tell channel verdict e')
tell-Settled e e' o none verdict t = t
tell-Settled e e' o (some c) verdict t = record {
  sender = told t.sender;
  still = record {
    same_acks = t.still.same_acks;
    same_delivered = t.still.same_delivered;
    same_last_sent = t.still.same_last_sent;
    same_resume = t.still.same_resume;
    same_acked = t.still.same_acked;
  };
  joined = move o t.joined;
}
  where
    after_tell : Endpoint
    after_tell = tell (some c) verdict e'

    move : (o : Option FrameRecord) → Joined e o e' → Joined e o after_tell
    move none (stays h) = stays h
    move (some _) (joins r h n d) = joins r h n d

    told : IsSender e' → IsSender after_tell
    told s = record {
      numbered = s.numbered;
      data_only = s.data_only;
      counted = s.counted;
      valid = s.valid;
      acked = s.acked;
      remembered = s.remembered;
      queued = s.queued;
      held_queued = s.held_queued;
      resume_data = s.resume_data;
    }

-- Another buffer with the same content.
same-IsSender :
    (e : Endpoint) (b : ReplayBuffer)
    → IsSender e
    → view b ≡ view e.replay
    → IsValid b
    → IsSender (record e { replay = b })
same-IsSender e b v same valid = record {
  numbered = v.numbered;
  data_only = v.data_only;
  counted = v.counted;
  valid = valid;
  acked = omega (arith, v.acked, ap (λ (w : View). w.last_acked) same);
  remembered =
      ap (λ (w : View). map frame_of w.records) same
      ∙ v.remembered
      ∙ ap (λ (w : View). drop w.last_acked e.log) (sym same);
  queued = v.queued;
  held_queued = v.held_queued;
  resume_data = v.resume_data;
}

module _ (e : Endpoint) (frame : OutboundFrame) (v : IsSender e) (q : IsQueued frame)
    (room : suc (length e.log) < 2 ^ 64) where
  abbrev seq : ℕ
  seq = (e.next_send_seq + 1) % 2 ^ 64

  seq-eq : seq ≡ suc (length e.log)
  seq-eq = omega (arith, v.counted, room)

  abbrev r : FrameRecord
  r = record_of e.replay.header_len frame seq

  kept-IsSender :
      (b : ReplayBuffer)
      → view b ≡ record (view e.replay) { records = queue e.replay ++ (r ∷ []) }
      → IsValid b
      → IsSender (record e { replay = b; next_send_seq = seq; log = e.log ++ (frame_of r ∷ []) })
  kept-IsSender b same valid = record {
    numbered = Consecutive-append 0 e.log (frame_of r) v.numbered (omega (arith, seq-eq));
    data_only = All-append IsData e.log (frame_of r ∷ []) v.data_only (q, tt);
    counted = omega (arith, seq-eq, length-append e.log (frame_of r ∷ []));
    valid = valid;
    acked = omega (arith, v.acked, last, length-append e.log (frame_of r ∷ []));
    remembered =
        ap (λ (w : View). map frame_of w.records) same
        ∙ map-append frame_of (queue e.replay) (r ∷ [])
        ∙ ap (λ t. t ++ (frame_of r ∷ [])) v.remembered
        ∙ sym (drop-append_short e.log (frame_of r ∷ []) e.replay.last_acked v.acked)
        ∙ ap (λ (k : ℕ). drop k (e.log ++ (frame_of r ∷ []))) (sym last);
    queued = v.queued;
    held_queued = v.held_queued;
    resume_data = v.resume_data;
  }
    where
      last : b.last_acked ≡ e.replay.last_acked
      last = ap (λ (w : View). w.last_acked) same

  holding :
      {b : ReplayBuffer}
      → IsSender (record e { replay = b })
      → IsSender (record e { replay = b; held_frame = some frame })
  holding t = record {
    numbered = t.numbered;
    data_only = t.data_only;
    counted = t.counted;
    valid = t.valid;
    acked = t.acked;
    remembered = t.remembered;
    queued = t.queued;
    held_queued = q;
    resume_data = t.resume_data;
  }

  settle-Settled :
      {s : Staged} {w : View} (b : ReplayBuffer)
      → Answer (view e.replay) frame seq s w
      → view b ≡ w
      → IsValid b
      → Settled e (settle (record e { replay = b }) frame seq s)
  settle-Settled b is_kept same valid = tell-Settled e kept_end (some r) frame.queued none (record {
    sender = kept-IsSender b same valid;
    still = record {
      same_acks = refl;
      same_delivered = refl;
      same_last_sent = refl;
      same_resume = refl;
      same_acked = ap (λ (w : View). w.last_acked) same;
    };
    joined = joins r refl seq-eq q;
  })
    where
      kept_end : Endpoint
      kept_end = record e { replay = b; next_send_seq = seq; log = e.log ++ (frame_of r ∷ []) }
  settle-Settled b is_held same valid = record {
    sender = holding (same-IsSender e b v same valid);
    still = record {
      same_acks = refl;
      same_delivered = refl;
      same_last_sent = refl;
      same_resume = refl;
      same_acked = ap (λ (w : View). w.last_acked) same;
    };
    joined = stays refl;
  }
  settle-Settled b (is_failed x) same valid =
      tell-Settled e (record e { replay = b }) none frame.queued (some x)
        (record {
          sender = same-IsSender e b v same valid;
          still = record {
            same_acks = refl;
            same_delivered = refl;
            same_last_sent = refl;
            same_resume = refl;
            same_acked = ap (λ (w : View). w.last_acked) same;
          };
          joined = stays refl;
        })

  pub writer_stage-Settled : Settled e (writer_stage e frame)
  unfolding writer_stage
  writer_stage-Settled =
      let refined = stage_refines e.replay frame seq v.valid in
      settle-Settled (stage e.replay frame seq).1
        (subst (λ s. Answer (view e.replay) frame seq s (view_stage (view e.replay) frame seq).1)
          (sym refined.0) (view_stage-Answer (view e.replay) frame seq))
        refined.1 refined.2
