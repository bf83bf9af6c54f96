-- ===== src/Serving/Expected.antt =====
-- What a stream is to do with the payloads that it receives, in order.
use adaptivemsg_go.Bytes.{Bytes}
use adaptivemsg_go.Errors.{Error, Result, err, ok}
use adaptivemsg_go.Prelude.{
  &&_left, &&_right, Bool, List, Option, [], ap, append-nil, append_assoc, arith, false,
  if◌then◌else◌, length, ltb, none, refl, some, suc, sym, true, ℕ, ◌&&◌, ◌++◌, ◌+◌, ◌∙◌, ◌∷◌, ◌≡◌,
}
use adaptivemsg_go.Receive.{RawMessage}
use adaptivemsg_go.Serving.{
  App, Handler, HandlerJob, Queued, decode_raw_with_registry, message_frame, reply_of,
}

-- A payload is a request for a handler, a message for Recv, undecodable, or FIN.
pub data Received (Msg : Type 0) : Type 0 where
  to_handler : HandlerJob Msg → Received Msg
  to_inbox : RawMessage → Received Msg
  undecodable : Error → Received Msg
  at_fin : Received Msg

module _ {Msg : Type 0} (app : App Msg) where
  abbrev pub item_decoded : Handler Msg → Result Msg → Received Msg
  item_decoded h (err e) = undecodable e
  item_decoded h (ok msg) = to_handler (record { handler = h; msg = msg })

  abbrev pub item_to : RawMessage → Option (Handler Msg) → Received Msg
  item_to raw none = to_inbox raw
  item_to raw (some h) = item_decoded h (decode_raw_with_registry app raw)

  abbrev pub item_read : Result RawMessage → Received Msg
  item_read (err e) = undecodable e
  item_read (ok raw) = item_to raw (app.handler raw.wire)

  abbrev pub item_of : Option Bytes → Received Msg
  item_of none = at_fin
  item_of (some payload) = item_read (app.decode_envelope payload)

  -- The first payload that is FIN or undecodable ends the stream.
  abbrev pub jobs_then : Received Msg → List (HandlerJob Msg) → List (HandlerJob Msg)
  jobs_then (to_handler job) jobs = job ∷ jobs
  jobs_then (to_inbox raw) jobs = jobs
  jobs_then (undecodable e) jobs = []
  jobs_then at_fin jobs = []

  unfoldable pub jobs_of : List (Option Bytes) → List (HandlerJob Msg)
  jobs_of [] = []
  jobs_of (p ∷ ps) = jobs_then (item_of p) (jobs_of ps)

  abbrev pub messages_then : Received Msg → List RawMessage → List RawMessage
  messages_then (to_inbox raw) ms = raw ∷ ms
  messages_then (to_handler job) ms = ms
  messages_then (undecodable e) ms = []
  messages_then at_fin ms = []

  unfoldable pub messages_of : List (Option Bytes) → List RawMessage
  messages_of [] = []
  messages_of (p ∷ ps) = messages_then (item_of p) (messages_of ps)

  abbrev pub error_then : Received Msg → Option Error → Option Error
  error_then (to_handler job) rest = rest
  error_then (to_inbox raw) rest = rest
  error_then (undecodable e) rest = some e
  error_then at_fin rest = none

  -- Why the first payload that ends the stream cannot be decoded, if it is not FIN.
  unfoldable pub first_error : List (Option Bytes) → Option Error
  first_error [] = none
  first_error (p ∷ ps) = error_then (item_of p) (first_error ps)

  abbrev pub is_good : Received Msg → Bool
  is_good (to_handler job) = true
  is_good (to_inbox raw) = true
  is_good (undecodable e) = false
  is_good at_fin = false

  abbrev pub all_good : List (Option Bytes) → Bool
  all_good [] = true
  all_good (p ∷ ps) = is_good (item_of p) && all_good ps

  -- The frame for a message, if it can be encoded and fits.
  abbrev pub frame_for : Result Bytes → List Queued
  frame_for (err e) = []
  frame_for (ok payload) =
      if ltb app.max_frame (length payload) then [] else message_frame payload ∷ []

  -- The reply to a job, after `n` calls of handlers.
  abbrev pub reply_frames : ℕ → HandlerJob Msg → List Queued
  reply_frames n job = frame_for (app.encode (reply_of app (job.handler n job.msg)))

  -- The replies to the jobs, after `n` calls.
  unfoldable pub replies_from : ℕ → List (HandlerJob Msg) → List Queued
  replies_from n [] = []
  replies_from n (job ∷ jobs) = reply_frames n job ++ replies_from (suc n) jobs

module _ {Msg : Type 0} (app : App Msg) where
  jobs_then-good :
      (i : Received Msg) (rest js ks : List (HandlerJob Msg))
      → is_good app i ≡ true
      → rest ≡ js ++ ks
      → jobs_then app i rest ≡ jobs_then app i js ++ ks
  jobs_then-good (to_handler job) rest js ks g e = ap (λ ls. job ∷ ls) e
  jobs_then-good (to_inbox raw) rest js ks g e = e
  jobs_then-good (undecodable x) rest js ks g e = absurd (cc)
  jobs_then-good at_fin rest js ks g e = absurd (cc)

  messages_then-good :
      (i : Received Msg) (rest ms ns : List RawMessage)
      → is_good app i ≡ true
      → rest ≡ ms ++ ns
      → messages_then app i rest ≡ messages_then app i ms ++ ns
  messages_then-good (to_handler job) rest ms ns g e = e
  messages_then-good (to_inbox raw) rest ms ns g e = ap (λ ls. raw ∷ ls) e
  messages_then-good (undecodable x) rest ms ns g e = absurd (cc)
  messages_then-good at_fin rest ms ns g e = absurd (cc)

  and-both : (a b : Bool) → a ≡ true → b ≡ true → a && b ≡ true
  and-both a b h k = rw h k

  pub jobs_of-good :
      (ps qs : List (Option Bytes))
      → all_good app ps ≡ true
      → jobs_of app (ps ++ qs) ≡ jobs_of app ps ++ jobs_of app qs
  unfolding jobs_of
  jobs_of-good [] qs g = refl
  jobs_of-good (p ∷ ps) qs g =
      jobs_then-good (item_of app p) _ _ _
        (&&_left (is_good app (item_of app p)) (all_good app ps) g)
        (jobs_of-good ps qs (&&_right (is_good app (item_of app p)) (all_good app ps) g))

  pub messages_of-good :
      (ps qs : List (Option Bytes))
      → all_good app ps ≡ true
      → messages_of app (ps ++ qs) ≡ messages_of app ps ++ messages_of app qs
  unfolding messages_of
  messages_of-good [] qs g = refl
  messages_of-good (p ∷ ps) qs g =
      messages_then-good (item_of app p) _ _ _
        (&&_left (is_good app (item_of app p)) (all_good app ps) g)
        (messages_of-good ps qs (&&_right (is_good app (item_of app p)) (all_good app ps) g))

  pub all_good-append :
      (ps qs : List (Option Bytes))
      → all_good app ps ≡ true
      → all_good app qs ≡ true
      → all_good app (ps ++ qs) ≡ true
  all_good-append [] qs g h = h
  all_good-append (p ∷ ps) qs g h =
      and-both (is_good app (item_of app p)) (all_good app (ps ++ qs))
        (&&_left (is_good app (item_of app p)) (all_good app ps) g)
        (all_good-append ps qs (&&_right (is_good app (item_of app p)) (all_good app ps) g) h)

  jobs_then-more :
      (i : Received Msg) (rest js : List (HandlerJob Msg))
      → ((ks : List (HandlerJob Msg)) × (rest ≡ js ++ ks))
      → (ks : List (HandlerJob Msg)) × (jobs_then app i rest ≡ jobs_then app i js ++ ks)
  jobs_then-more (to_handler job) rest js (ks, e) = (ks, ap (λ ls. job ∷ ls) e)
  jobs_then-more (to_inbox raw) rest js (ks, e) = (ks, e)
  jobs_then-more (undecodable x) rest js (ks, e) = ([], refl)
  jobs_then-more at_fin rest js (ks, e) = ([], refl)

  -- More payloads never take a job away.
  pub jobs_of-more :
      (ps qs : List (Option Bytes))
      → (ks : List (HandlerJob Msg)) × (jobs_of app (ps ++ qs) ≡ jobs_of app ps ++ ks)
  unfolding jobs_of
  jobs_of-more [] qs = (jobs_of app qs, refl)
  jobs_of-more (p ∷ ps) qs = jobs_then-more (item_of app p) _ _ (jobs_of-more ps qs)

  error_then-good :
      (i : Received Msg) (rest more : Option Error)
      → is_good app i ≡ true
      → rest ≡ more
      → error_then app i rest ≡ more
  error_then-good (to_handler job) rest more g e = e
  error_then-good (to_inbox raw) rest more g e = e
  error_then-good (undecodable x) rest more g e = absurd (cc)
  error_then-good at_fin rest more g e = absurd (cc)

  pub first_error-good :
      (ps qs : List (Option Bytes))
      → all_good app ps ≡ true
      → first_error app (ps ++ qs) ≡ first_error app qs
  unfolding first_error
  first_error-good [] qs g = refl
  first_error-good (p ∷ ps) qs g =
      error_then-good (item_of app p) _ _
        (&&_left (is_good app (item_of app p)) (all_good app ps) g)
        (first_error-good ps qs (&&_right (is_good app (item_of app p)) (all_good app ps) g))

  error_then-more :
      (i : Received Msg) (rest more : Option Error) (x : Error)
      → (rest ≡ some x → more ≡ some x)
      → error_then app i rest ≡ some x
      → error_then app i more ≡ some x
  error_then-more (to_handler job) rest more x f e = f e
  error_then-more (to_inbox raw) rest more x f e = f e
  error_then-more (undecodable y) rest more x f e = e
  error_then-more at_fin rest more x f e = absurd (cc)

  pub first_error-more :
      (ps qs : List (Option Bytes)) (x : Error)
      → first_error app ps ≡ some x
      → first_error app (ps ++ qs) ≡ some x
  unfolding first_error
  first_error-more [] qs x e = absurd (cc)
  first_error-more (p ∷ ps) qs x e =
      error_then-more (item_of app p) (first_error app ps) _ x (first_error-more ps qs x) e

  pub replies_from-append :
      (n : ℕ) (jobs : List (HandlerJob Msg)) (job : HandlerJob Msg)
      → replies_from app n (jobs ++ (job ∷ []))
        ≡ replies_from app n jobs ++ reply_frames app (n + length jobs) job
  unfolding replies_from
  replies_from-append n [] job =
      append-nil (reply_frames app n job) ∙ ap (λ k. reply_frames app k job) (omega arith)
  replies_from-append n (j ∷ jobs) job =
      ap (λ fs. reply_frames app n j ++ fs)
        (replies_from-append (suc n) jobs job
          ∙ ap (λ k. replies_from app (suc n) jobs ++ reply_frames app k job) (omega arith))
      ∙ sym (
          append_assoc (reply_frames app n j) (replies_from app (suc n) jobs)
            (reply_frames app (n + suc (length jobs)) job))
