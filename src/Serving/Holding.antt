-- ===== src/Serving/Holding.antt =====
-- What holds of a stream in every state, while its loops run and after they end.
use adaptivemsg_go.Bytes.{Bytes}
use adaptivemsg_go.Errors.{Error}
use adaptivemsg_go.Prelude.{
  Bool, List, Option, [], ap, append-nil, append_assoc, false, length, some, subst, sym, true, ◌++◌,
  ◌∙◌, ◌∷◌, ◌≡◌,
}
use adaptivemsg_go.Serving.{App, HandlerJob, Queued, StreamLoops, fin_frame}
use adaptivemsg_go.Serving.Expected.{
  all_good, first_error, first_error-more, jobs_of, jobs_of-more, messages_of, replies_from,
}
use adaptivemsg_go.Serving.Loops.{error_frames}
use adaptivemsg_go.Serving.Sending.{IsOpen, fin_frames, has_stopped}

-- No error reply, or the one for the payload that ends the stream, if it can be encoded and fits.
pub data IsErrorReply {Msg : Type 0} (app : App Msg) (ps : List (Option Bytes))
    : List Queued → Type 0 where
  no_error : IsErrorReply app ps []
  an_error : (e : Error) → first_error app ps ≡ some e → IsErrorReply app ps (error_frames app e)

pub data IsFin : List Queued → Type 0 where
  no_fin : IsFin []
  a_fin : IsFin (fin_frame ∷ [])

pub fin_frames-IsFin : (own : Bool) → IsFin (fin_frames own)
fin_frames-IsFin true = a_fin
fin_frames-IsFin false = no_fin

-- The replies to the first of the requests, perhaps with an error reply somewhere among them, and
-- perhaps FIN behind them.
pub data IsAnswered {Msg : Type 0} (app : App Msg) (ps : List (Option Bytes)) (sent : List Queued)
    : Type 0 where
  answers :
      (before after rest : List (HandlerJob Msg)) (error fin : List Queued)
      → (before ++ after) ++ rest ≡ jobs_of app ps
      → sent
        ≡ replies_from app 0 before ++ (error ++ (replies_from app (length before) after ++ fin))
      → IsErrorReply app ps error
      → IsFin fin
      → IsAnswered app ps sent

-- An open stream whose decode loop runs has handled or queued every request that it took, and has
-- answered those that it has handled.
pub record IsRunning {Msg : Type 0} (app : App Msg) (s : StreamLoops Msg) : Type 0 where
  pub is_open : IsOpen s
  pub still_decoding : s.decoding ≡ true
  pub not_failing : s.failing ≡ false
  pub good : all_good app s.consumed ≡ true
  pub jobs : s.handled ++ s.handler_ch ≡ jobs_of app s.consumed
  pub messages : s.inbox ≡ messages_of app s.consumed
  pub sent : s.outbound ≡ replies_from app 0 s.handled

-- An open stream whose decode loop has sent its error reply and is about to close it.
pub record IsFailing {Msg : Type 0} (app : App Msg) (s : StreamLoops Msg) : Type 0 where
  pub is_open : IsOpen s
  pub failing : s.failing ≡ true
  pub jobs : s.handled ++ s.handler_ch ≡ jobs_of app s.consumed
  pub messages : s.inbox ≡ messages_of app s.consumed
  pub error : Error
  pub found : first_error app s.consumed ≡ some error
  pub before : List (HandlerJob Msg)
  pub after : List (HandlerJob Msg)
  pub both : before ++ after ≡ s.handled
  pub sent :
      s.outbound
      ≡ replies_from app 0 before
        ++ (error_frames app error ++ replies_from app (length before) after)

pub data Inv {Msg : Type 0} (app : App Msg) (s : StreamLoops Msg) : Type 0 where
  runs : IsRunning app s → Inv app s
  fails : IsFailing app s → Inv app s
  stopped : has_stopped s ≡ true → IsAnswered app s.consumed s.outbound → Inv app s

module _ {Msg : Type 0} (app : App Msg) where
  IsErrorReply-more :
      (ps qs : List (Option Bytes)) (error : List Queued)
      → IsErrorReply app ps error
      → IsErrorReply app (ps ++ qs) error
  IsErrorReply-more ps qs _ no_error = no_error
  IsErrorReply-more ps qs _ (an_error e f) = an_error e (first_error-more app ps qs e f)

  pub IsAnswered-more :
      (ps qs : List (Option Bytes)) (sent : List Queued)
      → IsAnswered app ps sent
      → IsAnswered app (ps ++ qs) sent
  IsAnswered-more ps qs sent (answers before after rest error fin e f g h) =
      let (ks, more) = jobs_of-more app ps qs in
      answers before after (rest ++ ks) error fin
        (sym (append_assoc (before ++ after) rest ks) ∙ ap (λ js. js ++ ks) e ∙ sym more) f
        (IsErrorReply-more ps qs error g) h

  -- A stream that stops, with what it sends then.
  pub IsRunning-stops :
      (s : StreamLoops Msg) (fin : List Queued)
      → IsRunning app s
      → IsFin fin
      → IsAnswered app s.consumed (s.outbound ++ fin)
  unfolding replies_from
  IsRunning-stops s fin r g =
      answers s.handled [] s.handler_ch [] fin
        (ap (λ js. js ++ s.handler_ch) (append-nil s.handled) ∙ r.jobs)
        (ap (λ fs. fs ++ fin) r.sent) no_error g

  pub IsFailing-stops :
      (s : StreamLoops Msg) (fin : List Queued)
      → IsFailing app s
      → IsFin fin
      → IsAnswered app s.consumed (s.outbound ++ fin)
  IsFailing-stops s fin r g =
      answers r.before r.after s.handler_ch (error_frames app r.error) fin
        (ap (λ js. js ++ s.handler_ch) r.both ∙ r.jobs)
        (ap (λ fs. fs ++ fin) r.sent
          ∙ append_assoc (replies_from app 0 r.before) _ fin
          ∙ ap (λ fs. replies_from app 0 r.before ++ fs)
              (append_assoc (error_frames app r.error) (replies_from app (length r.before) r.after)
                fin))
        (an_error r.error r.found) g

  pub without_fin :
      (s : StreamLoops Msg)
      → IsAnswered app s.consumed (s.outbound ++ [])
      → IsAnswered app s.consumed s.outbound
  without_fin s a = subst (λ fs. IsAnswered app s.consumed fs) (append-nil s.outbound) a
