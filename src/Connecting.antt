-- ===== src/Connecting.antt =====
-- client.go: how Client.connect reaches a server: the versions that it tries, and its retries.
mod Tests
pub mod Ending
use adaptivemsg_go.Errors.{Error, connect_timeout, unsupported_frame_version}
use adaptivemsg_go.Prelude.{
  Bool, List, Option, [], false, if◌then◌else◌, leb, min, none, some, suc, true, zero, ℕ, ◌&&◌, ◌*◌,
  ◌+◌, ◌-◌, ◌==◌, ◌∷◌,
}
use adaptivemsg_go.Replay.Layout.{older}
use adaptivemsg_go.Transport.{calls}

-- Why an attempt fails. `unreachable` is what isDialError reports, other than a timeout;
-- `net_timed_out` is any error of the network whose Timeout() is true: with a deadline, connectError
-- has replaced it before isDialError sees it, and without one isDialError makes no difference.
pub data Failure : Type 0 where
  unreachable : Failure
  net_timed_out : Failure
  failed_with : Error → Failure

pub data Tried : Type 0 where
  established : Tried
  try_failed : Failure → Tried

-- What dialing and the handshake come to, with the nanoseconds that they take, from how many calls of
-- connectVersion got as far before, and from the version.
abbrev pub World : Type 0
World = ℕ → ℕ → Tried × ℕ

pub record Clock : Type 0 where
  pub now : ℕ
  pub calls : ℕ

abbrev pub connect_retry_min_backoff : ℕ
connect_retry_min_backoff = 100000000

abbrev pub connect_retry_max_backoff : ℕ
connect_retry_max_backoff = 2000000000

abbrev pub advance : ℕ → Clock → Clock
advance t c = record { now = c.now + t; calls = c.calls + 1 }

-- In `dialBefore`: the deadline is over. The zero time is no deadline.
abbrev pub is_over : Option ℕ → ℕ → Bool
is_over none now = false
is_over (some deadline) now = leb deadline now

-- `connectError`
unfoldable pub connect_error : Option ℕ → Failure → Failure
connect_error (some deadline) net_timed_out = failed_with connect_timeout
connect_error deadline f = f

abbrev pub after_dial : Option ℕ → Tried × ℕ → Clock → Tried × Clock
after_dial deadline (established, t) c = (established, advance t c)
after_dial deadline (try_failed f, t) c = (try_failed (connect_error deadline f), advance t c)

-- `connectVersion`
unfoldable pub connect_version : World → Option ℕ → ℕ → Clock → Tried × Clock
connect_version world deadline version c =
    if is_over deadline c.now
    then (try_failed (failed_with connect_timeout), c)
    else after_dial deadline (world c.calls version) c

-- The server supports version 2 only.
abbrev pub is_old_server : Failure → Bool
is_old_server (failed_with (unsupported_frame_version version)) = version == 2
is_old_server f = false

-- The loop of `connectAttempt`, after `last` failed
abbrev pub or_older : ℕ → (Failure → Clock → Tried × Clock) → Tried × Clock → Tried × Clock
or_older version older (established, c) = (established, c)
or_older version older (try_failed f, c) =
    let rest = older f c in if (version == 3) && is_old_server f then rest else (try_failed f, c)

unfoldable pub connect_versions : World → Option ℕ → List ℕ → Failure → Clock → Tried × Clock
connect_versions world deadline [] last c = (try_failed last, c)
connect_versions world deadline (v ∷ vs) last c =
    or_older v (connect_versions world deadline vs) (connect_version world deadline v c)

-- `connectAttempt`. There is always a version to try.
unfoldable pub connect_attempt : World → Option ℕ → Bool → Clock → Tried × Clock
connect_attempt world deadline recovery c =
    connect_versions world deadline (if recovery then 3 ∷ 2 ∷ [] else 2 ∷ []) net_timed_out c

-- `isDialError`
abbrev pub is_dial_error : Failure → Bool
is_dial_error unreachable = true
is_dial_error net_timed_out = false
is_dial_error (failed_with e) = false

abbrev pub is_connect_timeout : Failure → Bool
is_connect_timeout (failed_with connect_timeout) = true
is_connect_timeout f = false

-- What `connect` returns: a failure, and the one before that it wraps.
pub data Connected : Type 0 where
  is_connected : Connected
  connect_failed : Failure → Option Failure → Connected

-- A round of the loop of `connect`: it returns, or goes on.
pub data Next : Type 0 where
  returns : Connected → Clock → Next
  again : ℕ → Failure → Clock → Next

-- `time.Sleep(min(backoff, time.Until(deadline)))`
abbrev pub sleep_until : ℕ → ℕ → Clock → Clock
sleep_until backoff deadline c = record c { now = c.now + min backoff (deadline - c.now) }

abbrev pub retry_if : Option ℕ → Bool → ℕ → Failure → Clock → Next
retry_if (some deadline) true backoff f c =
    again (min (2 * backoff) connect_retry_max_backoff) f (sleep_until backoff deadline c)
retry_if deadline retriable backoff f c = returns (connect_failed f none) c

abbrev pub unless_timed_out : Option ℕ → Option Failure → ℕ → Failure → Clock → Next
unless_timed_out deadline none backoff f c = retry_if deadline (is_dial_error f) backoff f c
unless_timed_out deadline (some last) backoff f c =
    if is_connect_timeout f
    then returns (connect_failed f (some last)) c
    else retry_if deadline (is_dial_error f) backoff f c

abbrev pub after_attempt : Option ℕ → Option Failure → ℕ → Tried × Clock → Next
after_attempt deadline last backoff (established, c) = returns is_connected c
after_attempt deadline last backoff (try_failed f, c) = unless_timed_out deadline last backoff f c

unfoldable pub connect_round : World → Option ℕ → Bool → ℕ → Option Failure → Clock → Next
connect_round world deadline recovery backoff last c =
    after_attempt deadline last backoff (connect_attempt world deadline recovery c)

abbrev pub then_round :
    (ℕ → Failure → Clock → Option (Connected × Clock)) → Next → Option (Connected × Clock)
then_round go_on (returns r c) = some (r, c)
then_round go_on (again backoff f c) = go_on backoff f c

-- The loop of `connect`, on fuel
unfoldable pub connect_loop :
    ℕ → World → Option ℕ → Bool → ℕ → Option Failure → Clock → Option (Connected × Clock)
connect_loop zero world deadline recovery backoff last c = none
connect_loop (suc n) world deadline recovery backoff last c =
    then_round (λ b f d. connect_loop n world deadline recovery b (some f) d)
      (connect_round world deadline recovery backoff last c)

-- A timeout that is not positive is 0 here.
abbrev pub deadline_for : ℕ → Clock → Option ℕ
deadline_for timeout c = if timeout == 0 then none else some (c.now + timeout)

-- `connect`
unfoldable pub connect : ℕ → World → ℕ → Bool → Clock → Option (Connected × Clock)
connect fuel world timeout recovery c =
    connect_loop fuel world (deadline_for timeout c) recovery connect_retry_min_backoff none c
