-- ===== src/Serving/Tests.antt =====
-- A stream that serves two requests and then meets a payload that it cannot decode.
use adaptivemsg_go.Bytes.{Bytes}
use adaptivemsg_go.Errors.{Result, codec_failed, err, ok}
use adaptivemsg_go.Prelude.{
  Option, [], false, if◌then◌else◌, none, refl, some, str_eq, true, ◌++◌, ◌==◌, ◌∷◌, ◌≡◌, ◌⊎◌,
}
use adaptivemsg_go.Receive.{RawMessage}
use adaptivemsg_go.Serving.{
  App, DecodeRound, Handler, Reach, StreamLoops, arrive_step, close_stream, decode_next,
  decode_raw_with_registry, decode_step, dispatch_message, enqueue_frame, handle_next, handle_step,
  handler_q, inbox_q, message_frame, new_stream_loops, no_steps, protocol_close,
  protocol_close_step, protocol_error, send_boxed, then_step,
}
use adaptivemsg_go.Serving.Answers.{open_stream_serves, replies_in_order}
use adaptivemsg_go.Serving.Expected.{jobs_of, messages_of, replies_from}
use adaptivemsg_go.Serving.Holding.{IsAnswered}

-- A message is a list of bytes. The first byte of a payload tells whether it is a to_handler, a message
-- for Recv, or nothing that can be decoded.
abbrev read_demo : Bytes → Result RawMessage
read_demo [] = err (codec_failed "empty")
read_demo (b ∷ bs) =
    if b == 1
    then ok (record { wire = "demo.Request"; body = bs })
    else if b == 2
    then ok (record { wire = "demo.Event"; body = bs })
    else err (codec_failed "unknown")

-- The handler answers with the number of the calls before and the message.
abbrev demo_handler : Handler Bytes
demo_handler n m = ok (some (n ∷ m))

abbrev demo_app : App Bytes
demo_app = record {
  decode_envelope = read_demo;
  decode_into = λ type body. ok body;
  encode = λ m. ok m;
  message_type = λ wire. some wire;
  handler = λ wire. if str_eq wire "demo.Request" then some demo_handler else none;
  ok_reply = 200 ∷ [];
  error_reply = λ code text. 255 ∷ [];
  error_text = λ e. "failed";
  max_frame = 4;
}

abbrev proceeding : DecodeRound
proceeding = record { lost = false; verdict = none }

abbrev arrived : StreamLoops Bytes → Option Bytes → StreamLoops Bytes
arrived s p = record s { incoming = s.incoming ++ (p ∷ []) }

-- Two requests and an event arrive; both requests are decoded and one is answered.
abbrev one_answered : StreamLoops Bytes
one_answered =
    let s =
      arrived (arrived (arrived (new_stream_loops false true) (some (1 ∷ 7 ∷ []))) (some (2 ∷ [])))
        (some (1 ∷ 8 ∷ [])) in
    let decoded =
      decode_next demo_app (decode_next demo_app (decode_next demo_app s proceeding) proceeding)
        proceeding in
    handle_next demo_app decoded none

one_answered-Reach : Reach demo_app (new_stream_loops false true) one_answered
unfolding decode_next handle_next dispatch_message handler_q inbox_q decode_raw_with_registry
one_answered-Reach =
    then_step
      (then_step
        (then_step
          (then_step
            (then_step
              (then_step (then_step no_steps (arrive_step (some (1 ∷ 7 ∷ []))))
                (arrive_step (some (2 ∷ []))))
              (arrive_step (some (1 ∷ 8 ∷ []))))
            (decode_step proceeding refl refl))
          (decode_step proceeding refl refl))
        (decode_step proceeding refl refl))
      (handle_step none)

one_answered_sent : one_answered.outbound ≡ message_frame (0 ∷ 7 ∷ []) ∷ []
unfolding decode_next handle_next dispatch_message handler_q inbox_q decode_raw_with_registry
    send_boxed enqueue_frame
one_answered_sent = refl

open_stream_serves_example :
    (one_answered.handled ++ one_answered.handler_ch ≡ jobs_of demo_app one_answered.consumed)
    × (one_answered.inbox ≡ messages_of demo_app one_answered.consumed)
    × ((one_answered.outbound ≡ replies_from demo_app 0 one_answered.handled)
        ⊎ (one_answered.failing ≡ true))
unfolding decode_next handle_next dispatch_message handler_q inbox_q decode_raw_with_registry
    send_boxed enqueue_frame
open_stream_serves_example = open_stream_serves demo_app false true one_answered-Reach refl refl

-- A payload that cannot be decoded arrives while the second request waits; its reply comes between
-- the error reply and the end.
abbrev failed_decoding : StreamLoops Bytes
failed_decoding =
    let failing = decode_next demo_app (arrived one_answered (some (9 ∷ []))) proceeding in
    protocol_close (handle_next demo_app failing none) none

failed_decoding-Reach : Reach demo_app (new_stream_loops false true) failed_decoding
unfolding decode_next handle_next dispatch_message handler_q inbox_q decode_raw_with_registry
    send_boxed enqueue_frame protocol_error
failed_decoding-Reach =
    then_step
      (then_step
        (then_step (then_step one_answered-Reach (arrive_step (some (9 ∷ []))))
          (decode_step proceeding refl refl))
        (handle_step none))
      (protocol_close_step none refl)

failed_decoding_sent :
    failed_decoding.outbound
    ≡ message_frame (0 ∷ 7 ∷ []) ∷ message_frame (255 ∷ []) ∷ message_frame (1 ∷ 8 ∷ []) ∷ []
unfolding decode_next handle_next dispatch_message handler_q inbox_q decode_raw_with_registry
    send_boxed enqueue_frame protocol_error protocol_close close_stream
failed_decoding_sent = refl

replies_in_order_example : IsAnswered demo_app failed_decoding.consumed failed_decoding.outbound
replies_in_order_example = replies_in_order demo_app false true failed_decoding-Reach
