-- ===== src/Serving/Answers.antt =====
-- Requests are handled and answered in order.
use adaptivemsg_go.Prelude.{Bool, false, inl, inr, true, ◌++◌, ◌≡◌, ◌⊎◌}
use adaptivemsg_go.Serving.{App, Reach, StreamLoops, new_stream_loops}
use adaptivemsg_go.Serving.Expected.{jobs_of, messages_of, replies_from}
use adaptivemsg_go.Serving.Holding.{Inv, IsAnswered, fails, runs, stopped}
use adaptivemsg_go.Serving.Invariant.{Reach-Inv, halts, new_stream_loops-Inv}

module _ {Msg : Type 0} (app : App Msg) where
  open_stream :
      {s : StreamLoops Msg}
      → Inv app s
      → s.closed ≡ false
      → s.stopping ≡ false
      → (s.handled ++ s.handler_ch ≡ jobs_of app s.consumed)
        × (s.inbox ≡ messages_of app s.consumed)
        × ((s.outbound ≡ replies_from app 0 s.handled) ⊎ (s.failing ≡ true))
  open_stream (runs r) o p = (r.jobs, r.messages, inl r.sent)
  open_stream (fails r) o p = (r.jobs, r.messages, inr r.failing)
  open_stream (stopped h a) o p = absurd (cc)

-- For every codec, registry and handlers, in every order in which payloads arrive and the two loops
-- of a stream run, as long as the stream is open and its connection not stopping: each request that
-- the decode loop took before FIN or a payload that cannot be decoded was handed to its handler once,
-- in the order of the payloads, or waits for it; every other message is in the inbox, in order; and
-- unless the decode loop has met a payload that it cannot decode and is in protocolError, what was
-- sent is one reply per handled request, in the order of the requests, except that a reply that cannot
-- be encoded or is too large is left out.
pub open_stream_serves :
    {Msg : Type 0} (app : App Msg) (own recovery : Bool) {s : StreamLoops Msg}
    → Reach app (new_stream_loops own recovery) s
    → s.closed ≡ false
    → s.stopping ≡ false
    → (s.handled ++ s.handler_ch ≡ jobs_of app s.consumed)
      × (s.inbox ≡ messages_of app s.consumed)
      × ((s.outbound ≡ replies_from app 0 s.handled) ⊎ (s.failing ≡ true))
open_stream_serves app own recovery r o p =
    open_stream app (Reach-Inv app r (new_stream_loops-Inv app own recovery)) o p

-- For every codec, registry and handlers, in every order in which payloads arrive, the loops run,
-- and the stream or its connection is closed, also between the error reply of protocolError and its
-- Close: what the stream ever sent is the replies to the first of the requests before FIN or the first
-- payload that cannot be decoded, in order and one for each that can be encoded and is not too large;
-- somewhere among them at most one codec_error reply, only for such a payload and with its error;
-- and at most one FIN, behind everything else.
pub replies_in_order :
    {Msg : Type 0} (app : App Msg) (own recovery : Bool) {s : StreamLoops Msg}
    → Reach app (new_stream_loops own recovery) s
    → IsAnswered app s.consumed s.outbound
replies_in_order app own recovery {s} r =
    halts app s (Reach-Inv app r (new_stream_loops-Inv app own recovery))
