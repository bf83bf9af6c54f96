-- ===== src/Connecting/Ending.antt =====
-- Client.connect returns.
use adaptivemsg_go.Connecting.{
  Clock, Connected, Failure, Next, Tried, World, after_attempt, after_dial, again, connect,
  connect_attempt, connect_failed, connect_loop, connect_retry_max_backoff,
  connect_retry_min_backoff, connect_round, connect_version, connect_versions, established,
  failed_with, is_connect_timeout, is_connected, is_dial_error, is_old_server, is_over,
  net_timed_out, or_older, retry_if, returns, sleep_until, then_round, try_failed, unless_timed_out,
}
use adaptivemsg_go.Errors.{connect_timeout}
use adaptivemsg_go.Prelude.{
  Bool, Bool-cases, List, Option, [], arith, false, if◌then◌else◌, inl, inr, min, none, refl, some,
  subst, suc, sym, true, zero, ℕ, ◌&&◌, ◌*◌, ◌+◌, ◌-◌, ◌/◌, ◌==◌, ◌∷◌, ◌≡◌, ◌≤◌,
}
use adaptivemsg_go.Replay.Layout.{older}

-- The clock never goes back.
after_dial-now :
    (deadline : Option ℕ) (r : Tried × ℕ) (c : Clock) → c.now ≤ (after_dial deadline r c).1.now
after_dial-now deadline (established, t) c = omega arith
after_dial-now deadline (try_failed f, t) c = omega arith

connect_version-now :
    (world : World) (deadline : Option ℕ) (version : ℕ) (c : Clock)
    → c.now ≤ (connect_version world deadline version c).1.now
unfolding connect_version
connect_version-now world deadline version c = elim (Bool-cases (is_over deadline c.now)) [
  | inl e ↦ rw e (omega arith)
  | inr n ↦ rw n (after_dial-now deadline (world c.calls version) c)
]

or_older-now :
    (v : ℕ) (older : Failure → Clock → Tried × Clock) (r : Tried × Clock) (m : ℕ)
    → m ≤ r.1.now
    → ((f : Failure) (c : Clock) → c.now ≤ (older f c).1.now)
    → m ≤ (or_older v older r).1.now
or_older-now v older (established, c) m h k = h
or_older-now v older (try_failed f, c) m h k = elim (Bool-cases ((v == 3) && is_old_server f)) [
  | inl e ↦ rw e (omega (arith, h, k f c))
  | inr n ↦ rw n h
]

connect_versions-now :
    (world : World) (deadline : Option ℕ) (vs : List ℕ) (last : Failure) (c : Clock)
    → c.now ≤ (connect_versions world deadline vs last c).1.now
unfolding connect_versions
connect_versions-now world deadline [] last c = omega arith
connect_versions-now world deadline (v ∷ vs) last c =
    or_older-now v (connect_versions world deadline vs) (connect_version world deadline v c) c.now
      (connect_version-now world deadline v c) (connect_versions-now world deadline vs)

-- Once the deadline is over, an attempt ends at once.
over-stops :
    (world : World) (deadline : Option ℕ) (v : ℕ) (vs : List ℕ) (last : Failure) (c : Clock)
    → is_over deadline c.now ≡ true
    → connect_versions world deadline (v ∷ vs) last c
      ≡ (try_failed (failed_with connect_timeout), c)
unfolding connect_versions connect_version
over-stops world deadline v vs last c e = elim (Bool-cases (v == 3)) [
  | inl h ↦ rw e (rw h refl)
  | inr h ↦ rw e (rw h refl)
]

attempt_over :
    (world : World) (deadline : Option ℕ) (recovery : Bool) (c : Clock)
    → is_over deadline c.now ≡ true
    → connect_attempt world deadline recovery c ≡ (try_failed (failed_with connect_timeout), c)
unfolding connect_attempt
attempt_over world deadline true c e = over-stops world deadline 3 (2 ∷ []) net_timed_out c e
attempt_over world deadline false c e = over-stops world deadline 2 [] net_timed_out c e

-- A round returns, or goes on with a time to the deadline that `n` of the least backoffs cover.
data GoesOn (deadline n : ℕ) : Next → Type 0 where
  it_returns : (r : Connected) (c : Clock) → GoesOn deadline n (returns r c)
  it_goes_on :
      (b : ℕ) (f : Failure) (c : Clock)
      → connect_retry_min_backoff ≤ b
      → deadline - c.now ≤ n * connect_retry_min_backoff
      → GoesOn deadline n (again b f c)

module _ (deadline n backoff now : ℕ) (bounded : connect_retry_min_backoff ≤ backoff)
    (near : deadline - now ≤ suc n * connect_retry_min_backoff) where
  retry_if-GoesOn :
      (retriable : Bool) (f : Failure) (c : Clock)
      → now ≤ c.now
      → GoesOn deadline n (retry_if (some deadline) retriable backoff f c)
  retry_if-GoesOn true f c h =
      it_goes_on (min (2 * backoff) connect_retry_max_backoff) f (sleep_until backoff deadline c)
        (omega (arith, bounded)) (omega (arith, bounded, near, h))
  retry_if-GoesOn false f c h = it_returns (connect_failed f none) c

  unless_timed_out-GoesOn :
      (last : Option Failure) (f : Failure) (c : Clock)
      → now ≤ c.now
      → GoesOn deadline n (unless_timed_out (some deadline) last backoff f c)
  unless_timed_out-GoesOn none f c h = retry_if-GoesOn (is_dial_error f) f c h
  unless_timed_out-GoesOn (some last) f c h = elim (Bool-cases (is_connect_timeout f)) [
    | inl e ↦ rw e (it_returns (connect_failed f (some last)) c)
    | inr m ↦ rw m (retry_if-GoesOn (is_dial_error f) f c h)
  ]

  after_attempt-GoesOn :
      (last : Option Failure) (r : Tried × Clock)
      → now ≤ r.1.now
      → GoesOn deadline n (after_attempt (some deadline) last backoff r)
  after_attempt-GoesOn last (established, c) h = it_returns is_connected c
  after_attempt-GoesOn last (try_failed f, c) h = unless_timed_out-GoesOn last f c h

connect_round-GoesOn :
    (world : World) (deadline n : ℕ) (recovery : Bool) (backoff : ℕ) (last : Option Failure)
    (c : Clock)
    → connect_retry_min_backoff ≤ backoff
    → deadline - c.now ≤ suc n * connect_retry_min_backoff
    → GoesOn deadline n (connect_round world (some deadline) recovery backoff last c)
unfolding connect_round connect_attempt
connect_round-GoesOn world deadline n recovery backoff last c h k =
    after_attempt-GoesOn deadline n backoff c.now h k last
      (connect_attempt world (some deadline) recovery c)
      (connect_versions-now world (some deadline) (if recovery then 3 ∷ 2 ∷ [] else 2 ∷ [])
        net_timed_out c)

-- It returns.
abbrev Ends : Option (Connected × Clock) → Type 0
Ends r = (q : Connected × Clock) × (r ≡ some q)

then_round-Ends :
    (deadline n : ℕ) (go_on : ℕ → Failure → Clock → Option (Connected × Clock)) (r : Next)
    → GoesOn deadline n r
    → ((b : ℕ) (f : Failure) (c : Clock)
        → connect_retry_min_backoff ≤ b
        → deadline - c.now ≤ n * connect_retry_min_backoff
        → Ends (go_on b f c))
    → Ends (then_round go_on r)
then_round-Ends deadline n go_on _ (it_returns r c) k = ((r, c), refl)
then_round-Ends deadline n go_on _ (it_goes_on b f c h g) k = k b f c h g

timed_out_round :
    (deadline backoff : ℕ) (last : Option Failure) (c : Clock)
    (go_on : ℕ → Failure → Clock → Option (Connected × Clock))
    → Ends (
        then_round go_on
          (unless_timed_out (some deadline) last backoff (failed_with connect_timeout) c))
timed_out_round deadline backoff none c go_on =
    ((connect_failed (failed_with connect_timeout) none, c), refl)
timed_out_round deadline backoff (some last) c go_on =
    ((connect_failed (failed_with connect_timeout) (some last), c), refl)

connect_loop-Ends :
    (n fuel : ℕ) (world : World) (deadline : ℕ) (recovery : Bool) (backoff : ℕ)
    (last : Option Failure) (c : Clock)
    → suc n ≤ fuel
    → connect_retry_min_backoff ≤ backoff
    → deadline - c.now ≤ n * connect_retry_min_backoff
    → Ends (connect_loop fuel world (some deadline) recovery backoff last c)
unfolding connect_loop connect_round
connect_loop-Ends n zero world deadline recovery backoff last c l h k = absurd (omega (arith, l))
connect_loop-Ends zero (suc fuel) world deadline recovery backoff last c l h k =
    let go_on = λ (b : ℕ) (f : Failure) (d : Clock).
      connect_loop fuel world (some deadline) recovery b (some f) d in
    subst
      (λ (r : Tried × Clock).
        Ends (then_round go_on (after_attempt (some deadline) last backoff r)))
      (sym (attempt_over world (some deadline) recovery c (ground (arith, k))))
      (timed_out_round deadline backoff last c go_on)
connect_loop-Ends (suc n) (suc fuel) world deadline recovery backoff last c l h k =
    then_round-Ends deadline n
      (λ b f d. connect_loop fuel world (some deadline) recovery b (some f) d)
      (connect_round world (some deadline) recovery backoff last c)
      (connect_round-GoesOn world deadline n recovery backoff last c h k)
      (λ b f d g e.
        connect_loop-Ends n fuel world deadline recovery b (some f) d (omega (arith, l)) g e)

-- Without a deadline there is one attempt.
no_deadline-returns :
    (last : Option Failure) (backoff : ℕ) (r : Tried × Clock)
    (go_on : ℕ → Failure → Clock → Option (Connected × Clock))
    → Ends (then_round go_on (after_attempt none last backoff r))
no_deadline-returns last backoff (established, c) go_on = ((is_connected, c), refl)
no_deadline-returns none backoff (try_failed f, c) go_on = ((connect_failed f none, c), refl)
no_deadline-returns (some last) backoff (try_failed f, c) go_on =
    elim (Bool-cases (is_connect_timeout f)) [
      | inl e ↦ rw e ((connect_failed f (some last), c), refl)
      | inr n ↦ rw n ((connect_failed f none, c), refl)
    ]

one_attempt :
    (fuel : ℕ) (world : World) (recovery : Bool) (backoff : ℕ) (c : Clock)
    → 1 ≤ fuel
    → Ends (connect_loop fuel world none recovery backoff none c)
unfolding connect_loop connect_round
one_attempt zero world recovery backoff c h = absurd (omega (arith, h))
one_attempt (suc fuel) world recovery backoff c h =
    no_deadline-returns none backoff (connect_attempt world none recovery c)
      (λ b f d. connect_loop fuel world none recovery b (some f) d)

-- The rounds that are enough: one without a timeout, and otherwise as many as the least backoff fits
-- into the timeout, and two.
abbrev pub enough_rounds : ℕ → ℕ
enough_rounds timeout = if timeout == 0 then 1 else timeout / connect_retry_min_backoff + 2

-- Whatever dialing and the handshakes come to and however long they take, connect returns: one
-- round is enough without a timeout, and otherwise as many rounds as the least backoff fits into
-- the timeout, and two.
pub connect_returns :
    (fuel : ℕ) (world : World) (timeout : ℕ) (recovery : Bool) (c : Clock)
    → enough_rounds timeout ≤ fuel
    → (q : Connected × Clock) × (connect fuel world timeout recovery c ≡ some q)
unfolding connect
connect_returns fuel world timeout recovery c h = elim (Bool-cases (timeout == 0)) [
  | inl e ↦ rw e (one_attempt fuel world recovery connect_retry_min_backoff c (rw e at h))
  | inr n ↦ rw n (
      connect_loop-Ends (timeout / connect_retry_min_backoff + 1) fuel world (c.now + timeout)
        recovery connect_retry_min_backoff none c (omega (arith, rw n at h)) (omega arith)
        (omega arith))
]
