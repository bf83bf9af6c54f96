-- ===== src/Serving/Sending.antt =====
-- What is sent by a stream that is open, and by one that is closed or whose connection closes.
use adaptivemsg_go.Bytes.{Bytes}
use adaptivemsg_go.Errors.{Error, Result, err, frame_too_large, ok}
use adaptivemsg_go.Prelude.{
  Bool, Bool-cases, List, Option, [], ap, append-nil, false, if◌then◌else◌, inl, inr, length, ltb,
  refl, some, sym, true, ◌++◌, ◌||◌, ◌∷◌, ◌≡◌,
}
use adaptivemsg_go.Serving.{
  App, Queued, StreamLoops, close_if, close_stream, enqueue_frame, enqueue_if, fin_frame,
  message_frame, send_boxed, send_encoded, send_if,
}
use adaptivemsg_go.Serving.Expected.{frame_for}

-- FIN, by the side that opened the stream
abbrev pub fin_frames : Bool → List Queued
fin_frames own = if own then fin_frame ∷ [] else []

module _ {Msg : Type 0} where
  abbrev pub has_stopped : StreamLoops Msg → Bool
  has_stopped s = s.closed || s.stopping

  abbrev pub IsOpen : StreamLoops Msg → Type 0
  IsOpen s = (s.closed ≡ false) × (s.stopping ≡ false)

  enqueue_if-open :
      (b : Bool) (s : StreamLoops Msg) (f : Queued) (v : Option Error)
      → b ≡ false
      → (enqueue_if b s f v).1 ≡ record s { outbound = s.outbound ++ (f ∷ []) }
  enqueue_if-open true s f v e = absurd (cc)
  enqueue_if-open false s f v e = refl

  fits-open :
      (b : Bool) (s : StreamLoops Msg) (p : Bytes) (e : Error) (v : Option Error)
      → s.stopping ≡ false
      → (if b then (some e, s) else enqueue_frame s (message_frame p) v).1
        ≡ record s { outbound = s.outbound ++ (if b then [] else message_frame p ∷ []) }
  unfolding enqueue_frame
  fits-open true s p e v o = ap (λ fs. record s { outbound = fs }) (sym (append-nil s.outbound))
  fits-open false s p e v o = enqueue_if-open s.stopping s (message_frame p) v o

  send_encoded-open :
      (app : App Msg) (s : StreamLoops Msg) (r : Result Bytes) (v : Option Error)
      → s.stopping ≡ false
      → (send_encoded app s r v).1 ≡ record s { outbound = s.outbound ++ frame_for app r }
  send_encoded-open app s (err e) v o =
      ap (λ fs. record s { outbound = fs }) (sym (append-nil s.outbound))
  send_encoded-open app s (ok p) v o =
      fits-open (ltb app.max_frame (length p)) s p (frame_too_large (length p)) v o

  send_if-open :
      (b : Bool) (app : App Msg) (s : StreamLoops Msg) (m : Msg) (v : Option Error)
      → b ≡ false
      → s.stopping ≡ false
      → (send_if b app s m v).1 ≡ record s { outbound = s.outbound ++ frame_for app (app.encode m) }
  send_if-open true app s m v e o = absurd (cc)
  send_if-open false app s m v e o = send_encoded-open app s (app.encode m) v o

  pub send_boxed-open :
      (app : App Msg) (s : StreamLoops Msg) (m : Msg) (v : Option Error)
      → IsOpen s
      → (send_boxed app s m v).1
        ≡ record s { outbound = s.outbound ++ frame_for app (app.encode m) }
  unfolding send_boxed
  send_boxed-open app s m v o = send_if-open s.closed app s m v o.0 o.1

  close_if-open :
      (own closed : Bool) (s : StreamLoops Msg) (v : Option Error)
      → closed ≡ false
      → s.stopping ≡ false
      → close_if own closed s v
        ≡ record s { closed = true; outbound = s.outbound ++ fin_frames own }
  unfolding enqueue_frame
  close_if-open false closed s v e o =
      ap (λ fs. record s { closed = true; outbound = fs }) (sym (append-nil s.outbound))
  close_if-open true true s v e o = absurd (cc)
  close_if-open true false s v e o =
      enqueue_if-open s.stopping (record s { closed = true }) fin_frame v o

  pub close_stream-open :
      (s : StreamLoops Msg) (v : Option Error)
      → IsOpen s
      → close_stream s v ≡ record s { closed = true; outbound = s.outbound ++ fin_frames s.own }
  unfolding close_stream
  close_stream-open s v o = close_if-open s.own s.closed s v o.0 o.1

  -- Nothing more is sent, and what is stopped stays so.
  abbrev pub IsFrozen : StreamLoops Msg → StreamLoops Msg → Type 0
  IsFrozen s t = (t.outbound ≡ s.outbound) × (t.consumed ≡ s.consumed) × (has_stopped t ≡ true)

  enqueue_if-IsFrozen :
      (b : Bool) (s : StreamLoops Msg) (f : Queued) (v : Option Error)
      → b ≡ true
      → (enqueue_if b s f v).1 ≡ s
  enqueue_if-IsFrozen true s f v e = refl
  enqueue_if-IsFrozen false s f v e = absurd (cc)

  send_encoded-stopping :
      (app : App Msg) (s : StreamLoops Msg) (r : Result Bytes) (v : Option Error)
      → s.stopping ≡ true
      → (send_encoded app s r v).1 ≡ s
  unfolding enqueue_frame
  send_encoded-stopping app s (err e) v o = refl
  send_encoded-stopping app s (ok p) v o = elim (Bool-cases (ltb app.max_frame (length p))) [
    | inl large ↦ rw large refl
    | inr fits ↦ rw fits (enqueue_if-IsFrozen s.stopping s (message_frame p) v o)
  ]

  send_if-stopped :
      (b : Bool) (app : App Msg) (s : StreamLoops Msg) (m : Msg) (v : Option Error)
      → b || s.stopping ≡ true
      → (send_if b app s m v).1 ≡ s
  send_if-stopped true app s m v h = refl
  send_if-stopped false app s m v h = send_encoded-stopping app s (app.encode m) v h

  pub send_boxed-stopped :
      (app : App Msg) (s : StreamLoops Msg) (m : Msg) (v : Option Error)
      → has_stopped s ≡ true
      → (send_boxed app s m v).1 ≡ s
  unfolding send_boxed
  send_boxed-stopped app s m v h = send_if-stopped s.closed app s m v h

  close_if-stopped :
      (own closed : Bool) (s : StreamLoops Msg) (v : Option Error)
      → closed ≡ s.closed
      → closed || s.stopping ≡ true
      → close_if own closed s v ≡ record s { closed = true }
  unfolding enqueue_frame
  close_if-stopped false closed s v e h = refl
  close_if-stopped true true s v e h = ap (λ b. record s { closed = b }) (sym e)
  close_if-stopped true false s v e h =
      enqueue_if-IsFrozen s.stopping (record s { closed = true }) fin_frame v h

  pub close_stream-stopped :
      (s : StreamLoops Msg) (v : Option Error)
      → has_stopped s ≡ true
      → close_stream s v ≡ record s { closed = true }
  unfolding close_stream
  close_stream-stopped s v h = close_if-stopped s.own s.closed s v refl h
