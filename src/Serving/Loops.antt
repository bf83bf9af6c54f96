-- ===== src/Serving/Loops.antt =====
-- One round of the decode loop, on an open stream and on one that is closed.
use adaptivemsg_go.Bytes.{Bytes}
use adaptivemsg_go.Errors.{Error, Result, err, ok}
use adaptivemsg_go.Prelude.{
  Bool, Bool-cases, List, Option, [], ap, false, inl, inr, none, refl, some, subst, sym, true, ◌++◌,
  ◌∷◌, ◌≡◌,
}
use adaptivemsg_go.Receive.{RawMessage}
use adaptivemsg_go.Serving.{
  App, DecodeRound, Handler, HandlerJob, Queued, StreamLoops, decode_payload,
  decode_raw_with_registry, decode_taken, dispatch_decoded, dispatch_message, dispatch_to,
  dispatched, fail_decoding, handler_q, ignoring_closed, inbox_q, protocol_error, refuses,
}
use adaptivemsg_go.Serving.Expected.{
  Received, at_fin, frame_for, item_decoded, item_of, item_read, item_to, to_handler, to_inbox,
  undecodable,
}
use adaptivemsg_go.Serving.Sending.{
  IsFrozen, IsOpen, has_stopped, send_boxed-open, send_boxed-stopped,
}

module _ {Msg : Type 0} (app : App Msg) where
  -- The reply to a payload that cannot be decoded
  abbrev pub error_frames : Error → List Queued
  error_frames e = frame_for app (app.encode (app.error_reply "codec_error" (app.error_text e)))

  -- A round of the decode loop of an open stream
  abbrev pub after_item : Received Msg → StreamLoops Msg → StreamLoops Msg
  after_item (to_handler job) s = record s { handler_ch = s.handler_ch ++ (job ∷ []) }
  after_item (to_inbox raw) s = record s { inbox = s.inbox ++ (raw ∷ []) }
  after_item (undecodable e) s = record s {
    failing = true;
    outbound = s.outbound ++ error_frames e;
  }
  after_item at_fin s = record s { closed = true; decoding = false }

  fail_decoding-open :
      (s : StreamLoops Msg) (e : Error) (r : DecodeRound)
      → IsOpen s
      → fail_decoding app s e r ≡ after_item (undecodable e) s
  unfolding protocol_error
  fail_decoding-open s e r o =
      ap (λ (t : StreamLoops Msg). record t { failing = true })
        (send_boxed-open app s (app.error_reply "codec_error" (app.error_text e)) r.verdict o)

  refuses-open : (s : StreamLoops Msg) (lost : Bool) → IsOpen s → refuses s lost ≡ false
  refuses-open s lost o = rw o.0 (rw o.1 refl)

  handler_q-open :
      (s : StreamLoops Msg) (lost : Bool) (job : HandlerJob Msg)
      → IsOpen s
      → handler_q s lost job ≡ (none, record s { handler_ch = s.handler_ch ++ (job ∷ []) })
  unfolding handler_q
  handler_q-open s lost job o = rw (refuses-open s lost o) refl

  inbox_q-open :
      (s : StreamLoops Msg) (lost : Bool) (raw : RawMessage)
      → IsOpen s
      → inbox_q s lost raw ≡ (none, record s { inbox = s.inbox ++ (raw ∷ []) })
  unfolding inbox_q
  inbox_q-open s lost raw o = rw (refuses-open s lost o) refl

  dispatch_decoded-open :
      (s : StreamLoops Msg) (h : Handler Msg) (m : Result Msg) (r : DecodeRound)
      → IsOpen s
      → dispatched app (dispatch_decoded s r.lost h m) r ≡ after_item (item_decoded app h m) s
  dispatch_decoded-open s h (err e) r o = fail_decoding-open s e r o
  dispatch_decoded-open s h (ok msg) r o =
      ap (λ q. dispatched app (ignoring_closed q) r)
        (handler_q-open s r.lost (record { handler = h; msg = msg }) o)

  dispatch_to-open :
      (s : StreamLoops Msg) (raw : RawMessage) (h : Option (Handler Msg)) (r : DecodeRound)
      → IsOpen s
      → dispatched app (dispatch_to app s r.lost raw h) r ≡ after_item (item_to app raw h) s
  dispatch_to-open s raw (some h) r o =
      dispatch_decoded-open s h (decode_raw_with_registry app raw) r o
  dispatch_to-open s raw none r o =
      ap (λ q. dispatched app (ignoring_closed q) r) (inbox_q-open s r.lost raw o)

  decode_payload-open :
      (s : StreamLoops Msg) (e : Result RawMessage) (r : DecodeRound)
      → IsOpen s
      → decode_payload app s e r ≡ after_item (item_read app e) s
  unfolding dispatch_message
  decode_payload-open s (err e) r o = fail_decoding-open s e r o
  decode_payload-open s (ok raw) r o = dispatch_to-open s raw (app.handler raw.wire) r o

  pub decode_taken-open :
      (s : StreamLoops Msg) (p : Option Bytes) (r : DecodeRound)
      → IsOpen s
      → decode_taken app s p r ≡ after_item (item_of app p) s
  decode_taken-open s none r o = refl
  decode_taken-open s (some payload) r o = decode_payload-open s (app.decode_envelope payload) r o

  fail_decoding-IsFrozen :
      (s t : StreamLoops Msg) (e : Error) (r : DecodeRound)
      → IsFrozen s t
      → IsFrozen s (fail_decoding app t e r)
  unfolding protocol_error
  fail_decoding-IsFrozen s t e r f =
      subst (λ (u : StreamLoops Msg). IsFrozen s (record u { failing = true }))
        (sym (
          send_boxed-stopped app t (app.error_reply "codec_error" (app.error_text e)) r.verdict
            f.2))
        f

  handler_q-IsFrozen :
      (s : StreamLoops Msg) (lost : Bool) (job : HandlerJob Msg)
      → has_stopped s ≡ true
      → IsFrozen s (handler_q s lost job).1
  unfolding handler_q
  handler_q-IsFrozen s lost job h = elim (Bool-cases (refuses s lost)) [
    | inl e ↦ rw e (refl, refl, h)
    | inr n ↦ rw n (refl, refl, h)
  ]

  inbox_q-IsFrozen :
      (s : StreamLoops Msg) (lost : Bool) (raw : RawMessage)
      → has_stopped s ≡ true
      → IsFrozen s (inbox_q s lost raw).1
  unfolding inbox_q
  inbox_q-IsFrozen s lost raw h = elim (Bool-cases (refuses s lost)) [
    | inl e ↦ rw e (refl, refl, h)
    | inr n ↦ rw n (refl, refl, h)
  ]

  dispatch_decoded-IsFrozen :
      (s : StreamLoops Msg) (lost : Bool) (h : Handler Msg) (m : Result Msg)
      → has_stopped s ≡ true
      → IsFrozen s (dispatch_decoded s lost h m).1
  dispatch_decoded-IsFrozen s lost h (err e) k = (refl, refl, k)
  dispatch_decoded-IsFrozen s lost h (ok msg) k =
      handler_q-IsFrozen s lost (record { handler = h; msg = msg }) k

  dispatch_to-IsFrozen :
      (s : StreamLoops Msg) (lost : Bool) (raw : RawMessage) (h : Option (Handler Msg))
      → has_stopped s ≡ true
      → IsFrozen s (dispatch_to app s lost raw h).1
  dispatch_to-IsFrozen s lost raw (some h) k =
      dispatch_decoded-IsFrozen s lost h (decode_raw_with_registry app raw) k
  dispatch_to-IsFrozen s lost raw none k = inbox_q-IsFrozen s lost raw k

  dispatched-IsFrozen :
      (s : StreamLoops Msg) (q : Option Error × StreamLoops Msg) (r : DecodeRound)
      → IsFrozen s q.1
      → IsFrozen s (dispatched app q r)
  dispatched-IsFrozen s (some e, t) r f = fail_decoding-IsFrozen s t e r f
  dispatched-IsFrozen s (none, t) r f = f

  decode_payload-IsFrozen :
      (s : StreamLoops Msg) (e : Result RawMessage) (r : DecodeRound)
      → has_stopped s ≡ true
      → IsFrozen s (decode_payload app s e r)
  unfolding dispatch_message
  decode_payload-IsFrozen s (err e) r h = fail_decoding-IsFrozen s s e r (refl, refl, h)
  decode_payload-IsFrozen s (ok raw) r h =
      dispatched-IsFrozen s (dispatch_to app s r.lost raw (app.handler raw.wire)) r
        (dispatch_to-IsFrozen s r.lost raw (app.handler raw.wire) h)

  pub decode_taken-IsFrozen :
      (s : StreamLoops Msg) (p : Option Bytes) (r : DecodeRound)
      → has_stopped s ≡ true
      → IsFrozen s (decode_taken app s p r)
  decode_taken-IsFrozen s none r h = (refl, refl, refl)
  decode_taken-IsFrozen s (some payload) r h =
      decode_payload-IsFrozen s (app.decode_envelope payload) r h
