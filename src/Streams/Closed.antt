-- ===== src/Streams/Closed.antt =====
-- A stream that this side opened and closed stays closed.
use adaptivemsg_go.Bytes.{Bytes}
use adaptivemsg_go.Errors.{Error, conn_closed}
use adaptivemsg_go.Frame.{Frame}
use adaptivemsg_go.Prelude.{
  ==_iff, Bool, Bool-cases, List, Option, Option-cases, [], arith, false, if◌then◌else◌, inl, inr,
  length, lt→ltb, none, refl, some, subst, suc, sym, true, ℕ, ◌++◌, ◌==◌, ◌||◌, ◌∷◌, ◌≡◌,
}
use adaptivemsg_go.Streams.{
  Stream, StreamTable, accept_frame, accept_in, accept_queued, accept_with, fin_if, find_stream,
  get_stream_ctx, incoming_q, is_fin, is_member, opened_stream, queue_in, release_id, update_stream,
}
use adaptivemsg_go.Streams.Demultiplex.{accept_frames, after_frame}
use adaptivemsg_go.Streams.Queueing.{
  added, get_stream_ctx-found, get_stream_ctx-missing, missing-lem,
}

-- The stream `id` was opened by NewStream, and is not in the table any more.
pub record IsGone (id : ℕ) (t : StreamTable) : Type 0 where
  pub is_open : t.is_closed ≡ false
  pub opened_here : opened_stream t id ≡ true
  pub absent : find_stream id t.streams ≡ none

find_stream-update_none :
    (id key : ℕ) (u : Stream) (m : List (ℕ × Stream))
    → find_stream id m ≡ none
    → find_stream id (update_stream key u m) ≡ none
find_stream-update_none id key u [] e = refl
find_stream-update_none id key u ((i, s) ∷ m) e =
    ground (arith, e, find_stream-update_none id key u m)

module _ (id : ℕ) where
  incoming_q-IsGone :
      (t : StreamTable) (key : ℕ) (item : Option Bytes)
      → IsGone id t
      → IsGone id (incoming_q t key item).1
  unfolding incoming_q
  incoming_q-IsGone t key item g = elim (Option-cases (find_stream key t.streams)) [
    | inl e ↦
        subst (λ (o : Option Error × StreamTable). IsGone id o.1) (sym (missing-lem t key item e)) g
    | inr (s, e) ↦
        subst (λ o. IsGone id (queue_in t key item o).1) (sym e)
          (elim (Bool-cases (s.closed || t.is_closed)) [
            | inl dropped ↦ rw dropped g
            | inr queued ↦ rw queued (record {
              is_open = g.is_open;
              opened_here = g.opened_here;
              absent =
                  find_stream-update_none id key (record s { incoming = s.incoming ++ (item ∷ []) })
                    t.streams g.absent;
            })
          ])
  ]

  release-IsGone : (t : StreamTable) (key : ℕ) → IsGone id t → IsGone id (release_id t key)
  release-IsGone t key g = record {
    is_open = g.is_open;
    opened_here = g.opened_here;
    absent = g.absent;
  }

  fin_if-IsGone :
      (fin : Bool) (t : StreamTable) (key : ℕ) → IsGone id t → IsGone id (fin_if fin t key)
  fin_if-IsGone true t key g = incoming_q-IsGone t key none g
  fin_if-IsGone false t key g = g

  -- No error, and the stream is still gone.
  pub record Refuses (out : Option Error × StreamTable) : Type 0 where
    pub no_error : out.0 ≡ none
    pub gone : IsGone id out.1

  accept_queued-Refuses :
      (fin : Bool) (key : ℕ) (t : StreamTable) (o : Option Error × StreamTable)
      → IsGone id o.1
      → Refuses (accept_queued fin key t o)
  accept_queued-Refuses fin key t (none, t') g = record {
    no_error = refl;
    gone = fin_if-IsGone fin t' key g;
  }
  accept_queued-Refuses fin key t (some e, t') g =
      subst (λ b. Refuses (if b then (some e, t') else (none, t'))) (sym g.is_open)
        (record { no_error = refl; gone = g })

  accept_in-Refuses :
      (fin : Bool) (key : ℕ) (payload : Bytes) (o : Option Stream × StreamTable)
      → IsGone id o.1
      → Refuses (accept_in fin key payload o)
  accept_in-Refuses true key payload (none, t) g =
      subst (λ b. Refuses (if b then (some conn_closed, t) else (none, release_id t key)))
        (sym g.is_open) (record { no_error = refl; gone = release-IsGone t key g })
  accept_in-Refuses false key payload (none, t) g =
      subst (λ b. Refuses (if b then (some conn_closed, t) else (none, t))) (sym g.is_open)
        (record { no_error = refl; gone = g })
  accept_in-Refuses fin key [] (some s, t) g = record {
    no_error = refl;
    gone = fin_if-IsGone fin t key g;
  }
  accept_in-Refuses fin key (b ∷ bs) (some s, t) g = rw (lt→ltb 0 (suc (length bs)) (omega arith)) (
      accept_queued-Refuses fin key t (incoming_q t key (some (b ∷ bs)))
        (incoming_q-IsGone t key (some (b ∷ bs)) g))

  get_stream_ctx-IsGone :
      (t : StreamTable) (key : ℕ) → IsGone id t → IsGone id (get_stream_ctx t key true).1
  get_stream_ctx-IsGone t key g = elim (Option-cases (find_stream key t.streams)) [
    | inr (s, e) ↦
        subst (λ (o : Option Stream × StreamTable). IsGone id o.1)
          (sym (get_stream_ctx-found t key {s = s} g.is_open e)) g
    | inl e ↦
        subst (λ (o : Option Stream × StreamTable). IsGone id o.1)
          (sym (get_stream_ctx-missing t key g.is_open e))
          (elim (Bool-cases (is_member key t.closed_peer_streams || opened_stream t key)) [
            | inl refuses ↦ rw refuses g
            | inr opens ↦ rw opens (record {
              is_open = g.is_open;
              opened_here = g.opened_here;
              absent = elsewhere opens;
            })
          ])
  ]
    where
      contra : (p q : Bool) → q ≡ true → (p || q) ≡ false → true ≡ false
      contra p q a b = ground (arith, a, b)

      elsewhere :
          (is_member key t.closed_peer_streams || opened_stream t key) ≡ false
          → find_stream id (added t key).streams ≡ none
      elsewhere opens = elim (Bool-cases (key == id)) [
        | inl same ↦ absurd (
            cc (
              contra _ _
                (subst (λ (k : ℕ). opened_stream t k ≡ true) (sym ((==_iff key id).0 same))
                  g.opened_here)
                opens))
        | inr other ↦ rw other g.absent
      ]

  accept_with-Refuses :
      (fin : Bool) (key : ℕ) (payload : Bytes) (t : StreamTable)
      → IsGone id t
      → Refuses (accept_with fin t key payload)
  accept_with-Refuses true key [] t g = record {
    no_error = refl;
    gone = incoming_q-IsGone (release_id t key) key none (release-IsGone t key g);
  }
  accept_with-Refuses false key payload t g =
      accept_in-Refuses false key payload (get_stream_ctx t key true)
        (get_stream_ctx-IsGone t key g)
  accept_with-Refuses true key (b ∷ bs) t g = rw (==-suc (length bs)) (
      accept_in-Refuses true key (b ∷ bs) (get_stream_ctx t key true)
        (get_stream_ctx-IsGone t key g))
    where
      ==-suc : (m : ℕ) → (suc m == 0) ≡ false
      ==-suc m = ground arith

  -- Once this side has closed a stream that it opened, no frame of the peer opens it again, and none
  -- is an error: frames that were on their way are dropped.
  pub accept_frames-Refuses :
      (fs : List Frame) (t : StreamTable) → IsGone id t → Refuses (accept_frames t fs)
  unfolding accept_frames accept_frame
  accept_frames-Refuses [] t g = record { no_error = refl; gone = g }
  accept_frames-Refuses (f ∷ fs) t g =
      let s = accept_with-Refuses (is_fin f.stream_id f.flags) f.stream_id f.payload t g in
      let t' = (accept_frame t f.stream_id f.flags f.payload).1 in
      subst (λ o. Refuses (after_frame o t' (accept_frames t' fs))) (sym s.no_error)
        (accept_frames-Refuses fs t' s.gone)
