-- ===== src/Serving/Invariant.antt =====
-- Every step of a stream keeps what holds of it.
use adaptivemsg_go.Bytes.{Bytes}
use adaptivemsg_go.Errors.{Error}
use adaptivemsg_go.Prelude.{
  Bool, List, Option, [], ap, append-nil, append_assoc, ap₂, arith, false, length, length-append,
  refl, subst, sym, true, ◌++◌, ◌||◌, ◌∙◌, ◌∷◌, ◌≡◌,
}
use adaptivemsg_go.Serving.{
  App, DecodeRound, HandlerJob, Queued, Reach, Step, StreamLoops, arrive_step, close_step,
  close_stream, decode_from, decode_next, decode_step, decode_taken, handle_from, handle_job,
  handle_next, handle_step, leave_step, new_stream_loops, no_steps, protocol_close,
  protocol_close_step, release_step, reply_of, stop_step, take_payload, then_step,
}
use adaptivemsg_go.Serving.Expected.{
  Received, all_good-append, at_fin, first_error-good, frame_for, item_of, jobs_of, jobs_of-good,
  messages_of, messages_of-good, replies_from, replies_from-append, reply_frames, to_handler,
  to_inbox, undecodable,
}
use adaptivemsg_go.Serving.Holding.{
  Inv, IsAnswered, IsAnswered-more, IsFailing-stops, IsRunning, IsRunning-stops, fails,
  fin_frames-IsFin, no_fin, runs, stopped, without_fin,
}
use adaptivemsg_go.Serving.Items.{
  item-good, to_handler-jobs, to_handler-messages, to_inbox-jobs, to_inbox-messages,
  undecodable-error, undecodable-jobs, undecodable-messages,
}
use adaptivemsg_go.Serving.Loops.{
  after_item, decode_taken-IsFrozen, decode_taken-open, error_frames,
}
use adaptivemsg_go.Serving.Sending.{
  IsFrozen, close_stream-open, close_stream-stopped, fin_frames, send_boxed-open,
  send_boxed-stopped,
}

module _ {Msg : Type 0} (app : App Msg) where
  pub new_stream_loops-Inv : (own recovery : Bool) → Inv app (new_stream_loops own recovery)
  unfolding jobs_of messages_of replies_from
  new_stream_loops-Inv own recovery = runs (record {
    is_open = (refl, refl);
    still_decoding = refl;
    not_failing = refl;
    good = refl;
    jobs = refl;
    messages = refl;
    sent = refl;
  })

  after_item-Inv :
      (s : StreamLoops Msg) (p : Option Bytes) (ps : List (Option Bytes)) (i : Received Msg)
      → item_of app p ≡ i
      → IsRunning app s
      → Inv app (after_item app i (take_payload s p ps))
  unfolding replies_from
  after_item-Inv s p ps (to_handler job) e r = runs (record {
    is_open = r.is_open;
    still_decoding = r.still_decoding;
    not_failing = r.not_failing;
    good = all_good-append app s.consumed (p ∷ []) r.good (item-good app p (to_handler job) e refl);
    jobs =
        sym (append_assoc s.handled s.handler_ch (job ∷ []))
        ∙ ap₂ (λ js ks. js ++ ks) r.jobs (sym (to_handler-jobs app p job e))
        ∙ sym (jobs_of-good app s.consumed (p ∷ []) r.good);
    messages =
        sym (append-nil s.inbox)
        ∙ ap₂ (λ ms ns. ms ++ ns) r.messages (sym (to_handler-messages app p job e))
        ∙ sym (messages_of-good app s.consumed (p ∷ []) r.good);
    sent = r.sent;
  })
  after_item-Inv s p ps (to_inbox raw) e r = runs (record {
    is_open = r.is_open;
    still_decoding = r.still_decoding;
    not_failing = r.not_failing;
    good = all_good-append app s.consumed (p ∷ []) r.good (item-good app p (to_inbox raw) e refl);
    jobs =
        sym (append-nil (s.handled ++ s.handler_ch))
        ∙ ap₂ (λ js ks. js ++ ks) r.jobs (sym (to_inbox-jobs app p raw e))
        ∙ sym (jobs_of-good app s.consumed (p ∷ []) r.good);
    messages =
        ap₂ (λ ms ns. ms ++ ns) r.messages (sym (to_inbox-messages app p raw e))
        ∙ sym (messages_of-good app s.consumed (p ∷ []) r.good);
    sent = r.sent;
  })
  after_item-Inv s p ps (undecodable x) e r = fails (record {
    is_open = r.is_open;
    failing = refl;
    jobs =
        sym (append-nil (s.handled ++ s.handler_ch))
        ∙ ap₂ (λ js ks. js ++ ks) r.jobs (sym (undecodable-jobs app p x e))
        ∙ sym (jobs_of-good app s.consumed (p ∷ []) r.good);
    messages =
        sym (append-nil s.inbox)
        ∙ ap₂ (λ ms ns. ms ++ ns) r.messages (sym (undecodable-messages app p x e))
        ∙ sym (messages_of-good app s.consumed (p ∷ []) r.good);
    error = x;
    found = first_error-good app s.consumed (p ∷ []) r.good ∙ undecodable-error app p x e;
    before = s.handled;
    after = [];
    both = append-nil s.handled;
    sent =
        ap (λ fs. fs ++ error_frames app x) r.sent
        ∙ ap (λ fs. replies_from app 0 s.handled ++ fs) (sym (append-nil (error_frames app x)));
  })
  after_item-Inv s p ps at_fin e r = stopped refl (
      IsAnswered-more app s.consumed (p ∷ []) s.outbound
        (without_fin app s (IsRunning-stops app s [] r no_fin)))

  frozen-Inv :
      (s t : StreamLoops Msg) → IsAnswered app s.consumed s.outbound → IsFrozen s t → Inv app t
  frozen-Inv s t a f = stopped f.2 (
      subst (λ ps. IsAnswered app ps t.outbound) (sym f.1)
        (subst (λ fs. IsAnswered app s.consumed fs) (sym f.0) a))

  decode_from-Inv :
      (s : StreamLoops Msg) (qs : List (Option Bytes)) (r : DecodeRound)
      → s.failing ≡ false
      → Inv app s
      → Inv app (decode_from app s qs r)
  decode_from-Inv s [] r n i = i
  decode_from-Inv s (p ∷ ps) r n (runs i) =
      subst (λ t. Inv app t) (sym (decode_taken-open app (take_payload s p ps) p r i.is_open))
        (after_item-Inv s p ps (item_of app p) refl i)
  decode_from-Inv s (p ∷ ps) r n (fails i) = absurd (cc (n, i.failing))
  decode_from-Inv s (p ∷ ps) r n (stopped h a) =
      frozen-Inv (take_payload s p ps) (decode_taken app (take_payload s p ps) p r)
        (IsAnswered-more app s.consumed (p ∷ []) s.outbound a)
        (decode_taken-IsFrozen app (take_payload s p ps) p r h)

  -- One more reply behind the error reply
  late_reply :
      (before after : List (HandlerJob Msg)) (job : HandlerJob Msg) (error : List Queued)
      (handled : List (HandlerJob Msg))
      → before ++ after ≡ handled
      → (replies_from app 0 before ++ (error ++ replies_from app (length before) after))
          ++ reply_frames app (length handled) job
        ≡ replies_from app 0 before
          ++ (error ++ replies_from app (length before) (after ++ (job ∷ [])))
  late_reply before after job error handled both =
      append_assoc (replies_from app 0 before) _ (reply_frames app (length handled) job)
      ∙ ap (λ fs. replies_from app 0 before ++ fs)
          (append_assoc error (replies_from app (length before) after)
              (reply_frames app (length handled) job)
            ∙ ap (λ fs. error ++ fs)
                (ap (λ k. replies_from app (length before) after ++ reply_frames app k job)
                    (sym (ap length both) ∙ length-append before after)
                  ∙ sym (replies_from-append app (length before) after job)))

  handle_job-Inv :
      (s : StreamLoops Msg) (job : HandlerJob Msg) (jobs : List (HandlerJob Msg)) (v : Option Error)
      → s.handler_ch ≡ job ∷ jobs
      → Inv app s
      → Inv app (handle_job app (record s { handler_ch = jobs }) job v)
  handle_job-Inv s job jobs v e (runs i) =
      let reply = reply_of app (job.handler (length s.handled) job.msg) in
      let t = record s { handler_ch = jobs; handled = s.handled ++ (job ∷ []) } in
      subst (λ u. Inv app u) (sym (send_boxed-open app t reply v i.is_open))
        (runs (record {
          is_open = i.is_open;
          still_decoding = i.still_decoding;
          not_failing = i.not_failing;
          good = i.good;
          jobs =
              append_assoc s.handled (job ∷ []) jobs ∙ ap (λ js. s.handled ++ js) (sym e) ∙ i.jobs;
          messages = i.messages;
          sent =
              ap (λ fs. fs ++ frame_for app (app.encode reply)) i.sent
              ∙ ap (λ k. replies_from app 0 s.handled ++ reply_frames app k job) (omega arith)
              ∙ sym (replies_from-append app 0 s.handled job);
        }))
  handle_job-Inv s job jobs v e (fails i) =
      let reply = reply_of app (job.handler (length s.handled) job.msg) in
      let t = record s { handler_ch = jobs; handled = s.handled ++ (job ∷ []) } in
      subst (λ u. Inv app u) (sym (send_boxed-open app t reply v i.is_open))
        (fails (record {
          is_open = i.is_open;
          failing = i.failing;
          jobs =
              append_assoc s.handled (job ∷ []) jobs ∙ ap (λ js. s.handled ++ js) (sym e) ∙ i.jobs;
          messages = i.messages;
          error = i.error;
          found = i.found;
          before = i.before;
          after = i.after ++ (job ∷ []);
          both =
              sym (append_assoc i.before i.after (job ∷ [])) ∙ ap (λ js. js ++ (job ∷ [])) i.both;
          sent =
              ap (λ fs. fs ++ frame_for app (app.encode reply)) i.sent
              ∙ late_reply i.before i.after job (error_frames app i.error) s.handled i.both;
        }))
  handle_job-Inv s job jobs v e (stopped h a) =
      let reply = reply_of app (job.handler (length s.handled) job.msg) in
      let t = record s { handler_ch = jobs; handled = s.handled ++ (job ∷ []) } in
      subst (λ u. Inv app u) (sym (send_boxed-stopped app t reply v h)) (stopped h a)

  handle_from-Inv :
      (s : StreamLoops Msg) (js : List (HandlerJob Msg)) (v : Option Error)
      → s.handler_ch ≡ js
      → Inv app s
      → Inv app (handle_from app s js v)
  handle_from-Inv s [] v e i = i
  handle_from-Inv s (job ∷ jobs) v e i = handle_job-Inv s job jobs v e i

  close_stream-Inv :
      (s : StreamLoops Msg) (v : Option Error) → Inv app s → Inv app (close_stream s v)
  close_stream-Inv s v (runs i) =
      subst (λ t. Inv app t) (sym (close_stream-open s v i.is_open))
        (stopped refl (IsRunning-stops app s (fin_frames s.own) i (fin_frames-IsFin s.own)))
  close_stream-Inv s v (fails i) =
      subst (λ t. Inv app t) (sym (close_stream-open s v i.is_open))
        (stopped refl (IsFailing-stops app s (fin_frames s.own) i (fin_frames-IsFin s.own)))
  close_stream-Inv s v (stopped h a) =
      subst (λ t. Inv app t) (sym (close_stream-stopped s v h)) (stopped refl a)

  -- The second half of protocolError
  protocol_close-Inv :
      (s : StreamLoops Msg) (v : Option Error)
      → s.failing ≡ true
      → Inv app s
      → Inv app (protocol_close s v)
  unfolding protocol_close
  protocol_close-Inv s v f (runs i) = absurd (cc (f, i.not_failing))
  protocol_close-Inv s v f (fails i) =
      subst (λ (t : StreamLoops Msg). Inv app (record t { failing = false; decoding = false }))
        (sym (close_stream-open s v i.is_open))
        (stopped refl (IsFailing-stops app s (fin_frames s.own) i (fin_frames-IsFin s.own)))
  protocol_close-Inv s v f (stopped h a) =
      subst (λ (t : StreamLoops Msg). Inv app (record t { failing = false; decoding = false }))
        (sym (close_stream-stopped s v h)) (stopped refl a)

  -- Stopped without a word
  pub halts : (s : StreamLoops Msg) → Inv app s → IsAnswered app s.consumed s.outbound
  halts s (runs i) = without_fin app s (IsRunning-stops app s [] i no_fin)
  halts s (fails i) = without_fin app s (IsFailing-stops app s [] i no_fin)
  halts s (stopped h a) = a

  or-true : (b : Bool) → b || true ≡ true
  or-true true = refl
  or-true false = refl

  Step-Inv : (s t : StreamLoops Msg) → Step app s t → Inv app s → Inv app t
  unfolding decode_next handle_next
  Step-Inv s _ (arrive_step p) (runs i) = runs (record {
    is_open = i.is_open;
    still_decoding = i.still_decoding;
    not_failing = i.not_failing;
    good = i.good;
    jobs = i.jobs;
    messages = i.messages;
    sent = i.sent;
  })
  Step-Inv s _ (arrive_step p) (fails i) = fails (record {
    is_open = i.is_open;
    failing = i.failing;
    jobs = i.jobs;
    messages = i.messages;
    error = i.error;
    found = i.found;
    before = i.before;
    after = i.after;
    both = i.both;
    sent = i.sent;
  })
  Step-Inv s _ (arrive_step p) (stopped h a) = stopped h a
  Step-Inv s _ (decode_step r d n) i = decode_from-Inv s s.incoming r n i
  Step-Inv s _ (protocol_close_step v f) i = protocol_close-Inv s v f i
  Step-Inv s _ (leave_step k n) (runs i) = absurd (cc)
  Step-Inv s _ (leave_step k n) (fails i) = absurd (cc)
  Step-Inv s _ (leave_step k n) (stopped h a) = stopped h a
  Step-Inv s _ (handle_step v) i = handle_from-Inv s s.handler_ch v refl i
  Step-Inv s _ (close_step v) i = close_stream-Inv s v i
  Step-Inv s _ release_step i = stopped refl (halts s i)
  Step-Inv s _ stop_step i = stopped (or-true s.closed) (halts s i)

  pub Reach-Inv : {s t : StreamLoops Msg} → Reach app s t → Inv app s → Inv app t
  Reach-Inv no_steps i = i
  Reach-Inv (then_step {t} {u} r step) i = Step-Inv t u step (Reach-Inv r i)
