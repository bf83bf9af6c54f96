-- ===== src/Reconnect.antt =====
-- recovery_runtime.go: the loop that reconnects a client, reconnectUntilAttached.
mod Tests
pub mod Backoff
use adaptivemsg_go.Duration.{double, signed_lt}
use adaptivemsg_go.Errors.{Error, resume_rejected, unsupported_frame_version}
use adaptivemsg_go.Prelude.{
  Bool, List, Option, [], false, if◌then◌else◌, none, some, true, ℕ, ◌+◌, ◌∷◌,
}
use adaptivemsg_go.Recovery.{at_least, default_client_recovery_options, or_default}

-- What a round of the loop meets: whether the connection is closed at its start, the error of
-- resumeClientTransport, and whether the connection in_wait before the timer fires.
pub record Round : Type 0 where
  pub is_closed : Bool
  pub resume_error : Option Error
  pub closes_in_wait : Bool

-- How the loop ends; `still_running` when the list of rounds ends before it.
pub data Ended : Type 0 where
  closed_elsewhere : Ended
  attached : Ended
  marked_closed : Error → Ended
  still_running : Ended

-- The end, the number of attempts, and the durations of the timers.
pub record Reconnect : Type 0 where
  pub ended : Ended
  pub attempts : ℕ
  pub waits : List ℕ

abbrev pub is_terminal : Error → Bool
is_terminal (resume_rejected reason) = true
is_terminal (unsupported_frame_version version) = true
is_terminal failure = false

-- `backoff *= 2`, and the bound
abbrev pub next_backoff : ℕ → ℕ → ℕ
next_backoff backoff max_backoff =
    if signed_lt max_backoff (double backoff) then max_backoff else double backoff

abbrev pub waited : ℕ → Reconnect → Reconnect
waited backoff r = record r { attempts = r.attempts + 1; waits = backoff ∷ r.waits }

-- A round that failed, and the rest of the loop, which runs after the wait.
abbrev pub after_failure : Bool → Error → Bool → ℕ → Reconnect → Reconnect
after_failure true failure in_wait backoff rest = record {
  ended = marked_closed failure;
  attempts = 1;
  waits = [];
}
after_failure false failure true backoff rest = record {
  ended = closed_elsewhere;
  attempts = 1;
  waits = backoff ∷ [];
}
after_failure false failure false backoff rest = waited backoff rest

abbrev pub attempt : Option Error → Bool → ℕ → Reconnect → Reconnect
attempt none in_wait backoff rest = record { ended = attached; attempts = 1; waits = [] }
attempt (some failure) in_wait backoff rest =
    after_failure (is_terminal failure) failure in_wait backoff rest

abbrev pub round : Bool → Round → ℕ → Reconnect → Reconnect
round true r backoff rest = record { ended = closed_elsewhere; attempts = 0; waits = [] }
round false r backoff rest = attempt r.resume_error r.closes_in_wait backoff rest

unfoldable pub reconnect_rounds : ℕ → ℕ → List Round → Reconnect
reconnect_rounds max_backoff backoff [] = record { ended = still_running; attempts = 0; waits = [] }
reconnect_rounds max_backoff backoff (r ∷ rs) =
    let rest = reconnect_rounds max_backoff (next_backoff backoff max_backoff) rs in
    round r.is_closed r backoff rest

-- `reconnectUntilAttached`, by the two bounds of the recovery state.
unfoldable pub reconnect_until_attached : ℕ → ℕ → List Round → Reconnect
reconnect_until_attached min_backoff max_backoff rounds =
    let backoff = or_default min_backoff default_client_recovery_options.reconnect_min_backoff in
    reconnect_rounds (at_least max_backoff backoff) backoff rounds
