-- ===== src/Replay/Run.antt =====
-- Any sequence of calls of the buffer.
use adaptivemsg_go.Prelude.{List, [], ap, ap₂, arith, length, refl, ℕ, ◌-◌, ◌∙◌, ◌∷◌, ◌≡◌}
use adaptivemsg_go.Replay.{
  FrameRecord, OutboundFrame, ReplayBuffer, Staged, ack, bytes_used, count, last_acked_seq,
  new_replay_buffer, snapshot_from, stage,
}
use adaptivemsg_go.Replay.Operations.{ack_refines, snapshot_refines, stage_refines}
use adaptivemsg_go.Replay.Queue.{View, total, view_ack, view_snapshot, view_stage}
use adaptivemsg_go.Replay.Refine.{IsValid, length-frames, new_replay_buffer-IsValid, queue, view}

pub data Op : Type 0 where
  put : OutboundFrame → ℕ → Op
  acknowledge : ℕ → Op
  resume_from : ℕ → Op
  measure : Op

pub data Reply : Type 0 where
  staged : Staged → Reply
  freed : ℕ → Reply
  replayed : List FrameRecord → Reply
  measured : ℕ → ℕ → ℕ → Reply

-- `bytesUsed`, `count` and `lastAckedSeq` are read together.
step : ReplayBuffer → Op → Reply × ReplayBuffer
step b (put frame seq) = let (s, b') = stage b frame seq in (staged s, b')
step b (acknowledge n) = let (k, b') = ack b n in (freed k, b')
step b (resume_from n) = (replayed (snapshot_from b n), b)
step b measure = (measured (bytes_used b) (count b) (last_acked_seq b), b)

view_step : View → Op → Reply × View
view_step v (put frame seq) = let (s, v') = view_stage v frame seq in (staged s, v')
view_step v (acknowledge n) = let (k, v') = view_ack v n in (freed k, v')
view_step v (resume_from n) = (replayed (view_snapshot v n), v)
view_step v measure = (measured (total v.records) (length v.records) v.last_acked, v)

step_refines :
    (b : ReplayBuffer) (op : Op)
    → IsValid b
    → ((step b op).0 ≡ (view_step (view b) op).0)
      × (view (step b op).1 ≡ (view_step (view b) op).1)
      × IsValid (step b op).1
unfolding step view_step bytes_used count last_acked_seq
step_refines b (put frame seq) v = let s = stage_refines b frame seq v in (ap staged s.0, s.1, s.2)
step_refines b (acknowledge n) v = let s = ack_refines b n v in (ap freed s.0, s.1, s.2)
step_refines b (resume_from n) v = (ap replayed (snapshot_refines b n v), refl, v)
step_refines b measure v = ((λ i. measured (v.used i) (left i) b.last_acked), refl, v)
  where
    left : length b.frames - b.head ≡ length (queue b)
    left = omega (arith, length-frames b v)

pub run : ReplayBuffer → List Op → List Reply
unfolding step
run b [] = []
run b (op ∷ ops) = let (r, b') = step b op in r ∷ run b' ops

pub view_run : View → List Op → List Reply
unfolding view_step
view_run v [] = []
view_run v (op ∷ ops) = let (r, v') = view_step v op in r ∷ view_run v' ops

run_valid : (b : ReplayBuffer) (ops : List Op) → IsValid b → run b ops ≡ view_run (view b) ops
unfolding run view_run
run_valid b [] v = refl
run_valid b (op ∷ ops) v =
    let s = step_refines b op v in
    ap₂ ◌∷◌ s.0 (run_valid (step b op).1 ops s.2 ∙ ap (λ w. view_run w ops) s.1)

-- No sequence of calls on a new buffer tells it from a queue of records in sequence order: what is
-- kept, held or refused, the bytes that an acknowledgement frees, the frames to replay, and the
-- counts that it reports are those of the queue.
pub run_refines :
    (version max_bytes : ℕ) (ops : List Op)
    → run (new_replay_buffer version max_bytes) ops
      ≡ view_run
          (record {
            header_len = (new_replay_buffer version max_bytes).header_len;
            max_bytes = max_bytes;
            last_acked = 0;
            records = [];
          })
          ops
unfolding new_replay_buffer
run_refines version max_bytes ops =
    run_valid (new_replay_buffer version max_bytes) ops
      (new_replay_buffer-IsValid version max_bytes).0
