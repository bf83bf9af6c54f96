-- ===== src/Streams/Demultiplex.antt =====
-- The frames of each stream arrive in its queue, in order, and nowhere else.
use adaptivemsg_go.Bytes.{Bytes}
use adaptivemsg_go.Errors.{Error}
use adaptivemsg_go.Frame.{Frame}
use adaptivemsg_go.Prelude.{
  ==_iff, Bool-cases, List, Option, [], if◌then◌else◌, inl, inr, none, refl, some, subst, sym, ℕ,
  ◌==◌, ◌∷◌,
}
use adaptivemsg_go.Streams.{StreamTable, accept_frame, accept_with, is_fin}
use adaptivemsg_go.Streams.Others.{accept_with-other}
use adaptivemsg_go.Streams.Queueing.{IsServed, Serves, accept_with-own, add_items, queue_of}

-- An error ends the reading of frames.
abbrev pub after_frame :
    Option Error → StreamTable → Option Error × StreamTable → Option Error × StreamTable
after_frame (some e) t rest = (some e, t)
after_frame none t rest = rest

-- The frames that the reader hands to `acceptFrame`, one after the other.
unfoldable pub accept_frames : StreamTable → List Frame → Option Error × StreamTable
accept_frames t [] = (none, t)
accept_frames t (f ∷ fs) =
    let (error, t') = accept_frame t f.stream_id f.flags f.payload in
    after_frame error t' (accept_frames t' fs)

-- What the frames add to the queue of `id`: those with that ID, in order.
abbrev pub all_items : ℕ → List Frame → Option (List (Option Bytes)) → Option (List (Option Bytes))
all_items id [] q = q
all_items id (f ∷ fs) q =
    all_items id fs (if id == f.stream_id then add_items (is_fin id f.flags) f.payload q else q)

accept_frame-Serves :
    (id : ℕ) (f : Frame) (t : StreamTable)
    → IsServed id t
    → Serves id
        (if id == f.stream_id
          then add_items (is_fin id f.flags) f.payload (queue_of id t)
          else queue_of id t)
        (accept_frame t f.stream_id f.flags f.payload)
unfolding accept_frame
accept_frame-Serves id f t v = elim (Bool-cases (id == f.stream_id)) [
  | inl same ↦ rw same (
      subst
        (λ (k : ℕ).
          Serves id (add_items (is_fin id f.flags) f.payload (queue_of id t))
            (accept_with (is_fin k f.flags) t k f.payload))
        ((==_iff id f.stream_id).0 same) (accept_with-own (is_fin id f.flags) id f.payload t v))
  | inr other ↦ rw other (
      accept_with-other id f.stream_id (queue_of id t) other (is_fin f.stream_id f.flags) f.payload
        t (record { serves = v; same_queue = refl }))
]

-- Whatever frames come in on an open connection, for any number of streams, the queue of a stream
-- of the peer gets exactly its own payloads and its FIN, in the order in which they came, and no
-- frame is an error. `id` is not opened, nor closed, by this side.
pub accept_frames-Serves :
    (id : ℕ) (fs : List Frame) (t : StreamTable)
    → IsServed id t
    → Serves id (all_items id fs (queue_of id t)) (accept_frames t fs)
unfolding accept_frames
accept_frames-Serves id [] t v = record { no_error = refl; served = v; holds = refl }
accept_frames-Serves id (f ∷ fs) t v =
    let s = accept_frame-Serves id f t v in
    let r = accept_frames-Serves id fs (accept_frame t f.stream_id f.flags f.payload).1 s.served in
    let t' = (accept_frame t f.stream_id f.flags f.payload).1 in
    subst
      (λ o.
        Serves id (all_items id (f ∷ fs) (queue_of id t)) (after_frame o t' (accept_frames t' fs)))
      (sym s.no_error) (subst (λ q. Serves id (all_items id fs q) (accept_frames t' fs)) s.holds r)
