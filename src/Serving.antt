-- ===== src/Serving.antt =====
-- connection.go and stream.go: what the loops of a stream do with the payloads that it receives.
mod Tests
mod Expected
mod Sending
mod Loops
mod Holding
mod Items
mod Invariant
pub mod Answers
use adaptivemsg_go.Bytes.{Bytes}
use adaptivemsg_go.Errors.{Error, Result, conn_closed, err, frame_too_large, ok, unknown_message}
use adaptivemsg_go.Prelude.{
  Bool, List, Option, String, [], false, if◌then◌else◌, length, ltb, none, some, str_eq, true, ℕ,
  ◌&&◌, ◌++◌, ◌||◌, ◌∷◌, ◌≡◌,
}
use adaptivemsg_go.Receive.{RawMessage}

-- A handler is the application's. It may keep a state of its own, so it is told how many calls came
-- before. It answers with a message, with nothing, or with an error.
abbrev pub Handler : Type 0 → Type 0
Handler Msg = ℕ → Msg → Result (Option Msg)

-- The negotiated codec, with the type that DecodeInto fills, the registry, and the messages that the
-- library makes itself. `error_text` is Error().
pub record App (Msg : Type 0) : Type 0 where
  pub decode_envelope : Bytes → Result RawMessage
  pub decode_into : String → Bytes → Result Msg
  pub encode : Msg → Result Bytes
  pub message_type : String → Option String
  pub handler : String → Option (Handler Msg)
  pub ok_reply : Msg
  pub error_reply : String → String → Msg
  pub error_text : Error → String
  pub max_frame : ℕ

-- `handlerJob`
pub record HandlerJob (Msg : Type 0) : Type 0 where
  pub handler : Handler Msg
  pub msg : Msg

-- A frame that the stream queues: a message, or FIN without a payload.
pub data Queued : Type 0 where
  message_frame : Bytes → Queued
  fin_frame : Queued

-- The stream with its two loops. `stopping` is that enqueueFrame refuses, by Close or by markClosed.
-- `own` is openedStream. `inbox` has all that was put into it, `outbound` all frames that were put into
-- the channel, `consumed` the payloads that the decode loop took, and `handled` the jobs that the
-- handler loop took.
pub record StreamLoops (Msg : Type 0) : Type 0 where
  pub own : Bool
  pub recovery : Bool
  pub closed : Bool
  pub stopping : Bool
  pub decoding : Bool
  pub failing : Bool
  pub incoming : List (Option Bytes)
  pub consumed : List (Option Bytes)
  pub inbox : List RawMessage
  pub handler_ch : List (HandlerJob Msg)
  pub handled : List (HandlerJob Msg)
  pub outbound : List Queued

abbrev pub new_stream_loops : {Msg : Type 0} → Bool → Bool → StreamLoops Msg
new_stream_loops own recovery = record {
  own = own;
  recovery = recovery;
  closed = false;
  stopping = false;
  decoding = true;
  failing = false;
  incoming = [];
  consumed = [];
  inbox = [];
  handler_ch = [];
  handled = [];
  outbound = [];
}

-- What a round of the decode loop meets: whether a queue that is closed takes the message, and the
-- verdict on an error reply.
pub record DecodeRound : Type 0 where
  pub lost : Bool
  pub verdict : Option Error

-- `dispatchMessage`: ErrClosed of a queue is no error.
abbrev pub unless_closed : Option Error → Option Error
unless_closed (some conn_closed) = none
unless_closed r = r

-- The code of an error reply
abbrev pub error_code : String → String
error_code code = if str_eq code "" then "protocol_error" else code

module _ {Msg : Type 0} where
  -- `enqueueFrame`. With recovery, the answer is the verdict of the writer on the frame.
  abbrev pub enqueue_if :
      Bool → StreamLoops Msg → Queued → Option Error → Option Error × StreamLoops Msg
  enqueue_if true s frame verdict = (some conn_closed, s)
  enqueue_if false s frame verdict =
      (if s.recovery then verdict else none, record s { outbound = s.outbound ++ (frame ∷ []) })

  unfoldable pub enqueue_frame :
      StreamLoops Msg → Queued → Option Error → Option Error × StreamLoops Msg
  enqueue_frame s frame verdict = enqueue_if s.stopping s frame verdict

  -- `sendBoxed` behind the encoding
  abbrev pub send_encoded :
      App Msg → StreamLoops Msg → Result Bytes → Option Error → Option Error × StreamLoops Msg
  send_encoded app s (err e) verdict = (some e, s)
  send_encoded app s (ok payload) verdict =
      if ltb app.max_frame (length payload)
      then (some (frame_too_large (length payload)), s)
      else enqueue_frame s (message_frame payload) verdict

  abbrev pub send_if :
      Bool → App Msg → StreamLoops Msg → Msg → Option Error → Option Error × StreamLoops Msg
  send_if true app s msg verdict = (some conn_closed, s)
  send_if false app s msg verdict = send_encoded app s (app.encode msg) verdict

  -- `sendBoxed`
  unfoldable pub send_boxed :
      App Msg → StreamLoops Msg → Msg → Option Error → Option Error × StreamLoops Msg
  send_boxed app s msg verdict = send_if s.closed app s msg verdict

  -- `Stream.Close`, on whether this side opened the stream and on whether it is closed
  abbrev pub close_if : Bool → Bool → StreamLoops Msg → Option Error → StreamLoops Msg
  close_if false closed s verdict = record s { closed = true }
  close_if true true s verdict = s
  close_if true false s verdict = (enqueue_frame (record s { closed = true }) fin_frame verdict).1

  unfoldable pub close_stream : StreamLoops Msg → Option Error → StreamLoops Msg
  close_stream s verdict = close_if s.own s.closed s verdict

  -- `protocolError`, up to the return of sendBoxed, which gives up the send lock
  unfoldable pub protocol_error :
      App Msg → StreamLoops Msg → String → String → Option Error → StreamLoops Msg
  protocol_error app s code text verdict =
      record (send_boxed app s (app.error_reply (error_code code) text) verdict).1 {
        failing = true;
      }

  -- `protocolError`, its call of Close, with which the decode loop ends
  unfoldable pub protocol_close : StreamLoops Msg → Option Error → StreamLoops Msg
  protocol_close s verdict = record (close_stream s verdict) { failing = false; decoding = false }

  -- `handlerQ` and `inboxQ`: a stream or a connection that is closed may take the message or not, as
  -- select chooses.
  abbrev pub refuses : StreamLoops Msg → Bool → Bool
  refuses s lost = (s.closed || s.stopping) && lost

  unfoldable pub handler_q :
      StreamLoops Msg → Bool → HandlerJob Msg → Option Error × StreamLoops Msg
  handler_q s lost job =
      if refuses s lost
      then (some conn_closed, s)
      else (none, record s { handler_ch = s.handler_ch ++ (job ∷ []) })

  unfoldable pub inbox_q : StreamLoops Msg → Bool → RawMessage → Option Error × StreamLoops Msg
  inbox_q s lost raw =
      if refuses s lost
      then (some conn_closed, s)
      else (none, record s { inbox = s.inbox ++ (raw ∷ []) })

  -- `decodeRawWithRegistry`
  abbrev pub decode_as : App Msg → RawMessage → Option String → Result Msg
  decode_as app raw none = err (unknown_message raw.wire)
  decode_as app raw (some type) = app.decode_into type raw.body

  unfoldable pub decode_raw_with_registry : App Msg → RawMessage → Result Msg
  decode_raw_with_registry app raw = decode_as app raw (app.message_type raw.wire)

  -- `dispatchMessage`
  abbrev pub ignoring_closed : Option Error × StreamLoops Msg → Option Error × StreamLoops Msg
  ignoring_closed (r, s) = (unless_closed r, s)

  abbrev pub dispatch_decoded :
      StreamLoops Msg → Bool → Handler Msg → Result Msg → Option Error × StreamLoops Msg
  dispatch_decoded s lost h (err e) = (some e, s)
  dispatch_decoded s lost h (ok msg) =
      ignoring_closed (handler_q s lost (record { handler = h; msg = msg }))

  abbrev pub dispatch_to :
      App Msg
      → StreamLoops Msg
      → Bool
      → RawMessage
      → Option (Handler Msg)
      → Option Error × StreamLoops Msg
  dispatch_to app s lost raw (some h) = dispatch_decoded s lost h (decode_raw_with_registry app raw)
  dispatch_to app s lost raw none = ignoring_closed (inbox_q s lost raw)

  unfoldable pub dispatch_message :
      App Msg → StreamLoops Msg → Bool → RawMessage → Option Error × StreamLoops Msg
  dispatch_message app s lost raw = dispatch_to app s lost raw (app.handler raw.wire)

  abbrev pub fail_decoding : App Msg → StreamLoops Msg → Error → DecodeRound → StreamLoops Msg
  fail_decoding app s e r = protocol_error app s "codec_error" (app.error_text e) r.verdict

  abbrev pub dispatched : App Msg → Option Error × StreamLoops Msg → DecodeRound → StreamLoops Msg
  dispatched app (some e, s) r = fail_decoding app s e r
  dispatched app (none, s) r = s

  abbrev pub decode_payload :
      App Msg → StreamLoops Msg → Result RawMessage → DecodeRound → StreamLoops Msg
  decode_payload app s (err e) r = fail_decoding app s e r
  decode_payload app s (ok raw) r = dispatched app (dispatch_message app s r.lost raw) r

  -- `decodeLoop`, one payload. The nil payload is FIN: removeStream.
  abbrev pub decode_taken : App Msg → StreamLoops Msg → Option Bytes → DecodeRound → StreamLoops Msg
  decode_taken app s none r = record s { closed = true; decoding = false }
  decode_taken app s (some payload) r = decode_payload app s (app.decode_envelope payload) r

  -- The payload that is next leaves the channel.
  abbrev pub take_payload : StreamLoops Msg → Option Bytes → List (Option Bytes) → StreamLoops Msg
  take_payload s p ps = record s { incoming = ps; consumed = s.consumed ++ (p ∷ []) }

  abbrev pub decode_from :
      App Msg → StreamLoops Msg → List (Option Bytes) → DecodeRound → StreamLoops Msg
  decode_from app s [] r = s
  decode_from app s (p ∷ ps) r = decode_taken app (take_payload s p ps) p r

  unfoldable pub decode_next : App Msg → StreamLoops Msg → DecodeRound → StreamLoops Msg
  decode_next app s r = decode_from app s s.incoming r

  -- `handlerLoop`, one job
  abbrev pub reply_of : App Msg → Result (Option Msg) → Msg
  reply_of app (err e) = app.error_reply "handler_error" (app.error_text e)
  reply_of app (ok none) = app.ok_reply
  reply_of app (ok (some reply)) = reply

  abbrev pub handle_job :
      App Msg → StreamLoops Msg → HandlerJob Msg → Option Error → StreamLoops Msg
  handle_job app s job verdict =
      let reply = reply_of app (job.handler (length s.handled) job.msg) in
      (send_boxed app (record s { handled = s.handled ++ (job ∷ []) }) reply verdict).1

  abbrev pub handle_from :
      App Msg → StreamLoops Msg → List (HandlerJob Msg) → Option Error → StreamLoops Msg
  handle_from app s [] verdict = s
  handle_from app s (job ∷ jobs) verdict =
      handle_job app (record s { handler_ch = jobs }) job verdict

  unfoldable pub handle_next : App Msg → StreamLoops Msg → Option Error → StreamLoops Msg
  handle_next app s verdict = handle_from app s s.handler_ch verdict

  -- The loops run side by side, and other goroutines close the stream or the connection. Between the
  -- two halves of protocolError anything else may happen. A handler's call and the sending of its reply
  -- are one step, at the time of the sending: no other goroutine sees the job in between. A sending
  -- that has found the stream open counts as done before a close that overtakes it. The application
  -- sends nothing else on the stream.
  pub data Step (app : App Msg) (s : StreamLoops Msg) : StreamLoops Msg → Type 0 where
    arrive_step : (p : Option Bytes) → Step app s (record s { incoming = s.incoming ++ (p ∷ []) })
    decode_step :
        (r : DecodeRound) → s.decoding ≡ true → s.failing ≡ false → Step app s (decode_next app s r)
    protocol_close_step :
        (verdict : Option Error) → s.failing ≡ true → Step app s (protocol_close s verdict)
    leave_step :
        s.closed || s.stopping ≡ true
        → s.failing ≡ false
        → Step app s (record s { decoding = false })
    handle_step : (verdict : Option Error) → Step app s (handle_next app s verdict)
    close_step : (verdict : Option Error) → Step app s (close_stream s verdict)
    release_step : Step app s (record s { closed = true })
    stop_step : Step app s (record s { stopping = true })

  pub data Reach (app : App Msg) (s : StreamLoops Msg) : StreamLoops Msg → Type 0 where
    no_steps : Reach app s s
    then_step : {t u : StreamLoops Msg} → Reach app s t → Step app t u → Reach app s u
