-- ===== src/Serving/Items.antt =====
-- What one more payload adds to the requests, the messages and the error.
use adaptivemsg_go.Bytes.{Bytes}
use adaptivemsg_go.Errors.{Error}
use adaptivemsg_go.Prelude.{Option, [], ap, none, refl, some, true, ◌∙◌, ◌∷◌, ◌≡◌}
use adaptivemsg_go.Receive.{RawMessage}
use adaptivemsg_go.Serving.{App, HandlerJob}
use adaptivemsg_go.Serving.Expected.{
  Received, all_good, error_then, first_error, is_good, item_of, jobs_of, jobs_then, messages_of,
  messages_then, to_handler, to_inbox, undecodable,
}

module _ {Msg : Type 0} (app : App Msg) where
  pub to_handler-jobs :
      (p : Option Bytes) (job : HandlerJob Msg)
      → item_of app p ≡ to_handler job
      → jobs_of app (p ∷ []) ≡ job ∷ []
  unfolding jobs_of
  to_handler-jobs p job e = ap (λ i. jobs_then app i []) e

  pub to_inbox-jobs :
      (p : Option Bytes) (raw : RawMessage)
      → item_of app p ≡ to_inbox raw
      → jobs_of app (p ∷ []) ≡ []
  unfolding jobs_of
  to_inbox-jobs p raw e = ap (λ i. jobs_then app i []) e

  pub to_handler-messages :
      (p : Option Bytes) (job : HandlerJob Msg)
      → item_of app p ≡ to_handler job
      → messages_of app (p ∷ []) ≡ []
  unfolding messages_of
  to_handler-messages p job e = ap (λ i. messages_then app i []) e

  pub to_inbox-messages :
      (p : Option Bytes) (raw : RawMessage)
      → item_of app p ≡ to_inbox raw
      → messages_of app (p ∷ []) ≡ raw ∷ []
  unfolding messages_of
  to_inbox-messages p raw e = ap (λ i. messages_then app i []) e

  pub undecodable-jobs :
      (p : Option Bytes) (x : Error) → item_of app p ≡ undecodable x → jobs_of app (p ∷ []) ≡ []
  unfolding jobs_of
  undecodable-jobs p x e = ap (λ i. jobs_then app i []) e

  pub undecodable-messages :
      (p : Option Bytes) (x : Error) → item_of app p ≡ undecodable x → messages_of app (p ∷ []) ≡ []
  unfolding messages_of
  undecodable-messages p x e = ap (λ i. messages_then app i []) e

  pub undecodable-error :
      (p : Option Bytes) (x : Error)
      → item_of app p ≡ undecodable x
      → first_error app (p ∷ []) ≡ some x
  unfolding first_error
  undecodable-error p x e = ap (λ i. error_then app i none) e

  pub item-good :
      (p : Option Bytes) (i : Received Msg)
      → item_of app p ≡ i
      → is_good app i ≡ true
      → all_good app (p ∷ []) ≡ true
  item-good p i e g = rw (ap (λ j. is_good app j) e ∙ g) refl
