-- ===== src/Reconnect/Backoff.antt =====
-- The timers of reconnectUntilAttached.
use native.Mathlib.Nat.{mul_assoc, pow-suc}
use adaptivemsg_go.Errors.{Error}
use adaptivemsg_go.Prelude.{
  Bool, Bool-cases, List, Option, [], ap, arith, false, get_elem?, inl, inr, leb, min, none, some,
  some-inj, subst, suc, sym, true, zero, ℕ, ◌*◌, ◌<◌, ◌^◌, ◌∙◌, ◌∷◌, ◌≡◌, ◌≤◌,
}
use adaptivemsg_go.Reconnect.{
  Reconnect, Round, after_failure, attempt, is_terminal, next_backoff, reconnect_rounds,
  reconnect_until_attached, round,
}
use adaptivemsg_go.Recovery.{at_least, default_client_recovery_options, or_default}

mul_grows : (m p : ℕ) → 1 ≤ p → m ≤ m * p
mul_grows m zero h = ground arith
mul_grows m (suc q) h = omega arith

twice : (x : ℕ) → 2 * x ≡ x * 2
twice x = omega arith

regroup : (b p : ℕ) → 2 * b * p ≡ b * (p * 2)
regroup b p = mul_assoc 2 b p ∙ twice (b * p) ∙ mul_assoc b p 2

min_is_right : (a m : ℕ) → m ≤ a → min a m ≡ m
min_is_right a m h = omega arith

min_is_left : (a m : ℕ) → a ≤ m → min a m ≡ a
min_is_left a m h = omega arith

capped_small : (d m p : ℕ) → d ≤ m → min (min d m * p) m ≡ min (d * p) m
capped_small d m p h = ap (λ (x : ℕ). min (x * p) m) (min_is_left d m h)

capped_large : (d m p : ℕ) → m ≤ m * p → m ≤ d * p → m ≤ d → min (min d m * p) m ≡ min (d * p) m
capped_large d m p h k l =
    ap (λ (x : ℕ). min (x * p) m) (min_is_right d m l)
    ∙ (min_is_right (m * p) m h ∙ sym (min_is_right (d * p) m k))

le_mul : (m d p : ℕ) → 1 ≤ p → m ≤ d → m ≤ d * p
le_mul m d p h k = let grown = mul_grows d p h in omega arith

capped : (d m p : ℕ) → 1 ≤ p → min (min d m * p) m ≡ min (d * p) m
capped d m p h = elim (Bool-cases (leb d m)) [
  | inl le ↦ capped_small d m p (ground arith)
  | inr gt ↦ capped_large d m p (mul_grows m p h) (le_mul m d p h (ground arith)) (ground arith)
]

next_backoff-min : (b m : ℕ) → b ≤ m → m < 2 ^ 62 → next_backoff b m ≡ min (2 * b) m
next_backoff-min b m h k = ground arith

double_pos : (x : ℕ) → 1 ≤ x → 1 ≤ x * 2
double_pos x h = omega arith

pow_pos : (k : ℕ) → 1 ≤ 2 ^ k
pow_pos zero = ground arith
pow_pos (suc k) = subst (λ (x : ℕ). 1 ≤ x) (sym (pow-suc 2 k)) (double_pos (2 ^ k) (pow_pos k))

-- The timer of a wait is the first one doubled once for each wait before it, up to the bound.
abbrev pub IsDoubling : ℕ → ℕ → List ℕ → Type 0
IsDoubling b m waits = (k w : ℕ) → get_elem? waits k ≡ some w → w ≡ min (b * 2 ^ k) m

one_later :
    (b m k : ℕ) → b ≤ m → m < 2 ^ 62 → min (next_backoff b m * 2 ^ k) m ≡ min (b * 2 ^ suc k) m
one_later b m k h bound =
    ap (λ (x : ℕ). min (x * 2 ^ k) m) (next_backoff-min b m h bound)
    ∙ (capped (2 * b) m (2 ^ k) (pow_pos k)
        ∙ ap (λ (x : ℕ). min x m) (regroup b (2 ^ k) ∙ ap (λ (x : ℕ). b * x) (sym (pow-suc 2 k))))

first_wait : (b m : ℕ) → b ≤ m → b ≡ min (b * 2 ^ 0) m
first_wait b m h = ground arith

waits-IsDoubling :
    (b m : ℕ) (ws : List ℕ)
    → b ≤ m
    → m < 2 ^ 62
    → IsDoubling (next_backoff b m) m ws
    → IsDoubling b m (b ∷ ws)
waits-IsDoubling b m ws h bound doubling zero w e =
    subst (λ (x : ℕ). x ≡ min (b * 2 ^ 0) m) (some-inj e) (first_wait b m h)
waits-IsDoubling b m ws h bound doubling (suc k) w e = doubling k w e ∙ one_later b m k h bound

none-IsDoubling : (b m : ℕ) → IsDoubling b m []
none-IsDoubling b m k w e = absurd (cc)

after_failure-IsDoubling :
    (terminal : Bool) (failure : Error) (in_wait : Bool) (b m : ℕ) (rest : Reconnect)
    → b ≤ m
    → m < 2 ^ 62
    → IsDoubling (next_backoff b m) m rest.waits
    → IsDoubling b m (after_failure terminal failure in_wait b rest).waits
after_failure-IsDoubling true failure in_wait b m rest h bound d = none-IsDoubling b m
after_failure-IsDoubling false failure true b m rest h bound d =
    waits-IsDoubling b m [] h bound (none-IsDoubling (next_backoff b m) m)
after_failure-IsDoubling false failure false b m rest h bound d =
    waits-IsDoubling b m rest.waits h bound d

attempt-IsDoubling :
    (o : Option Error) (in_wait : Bool) (b m : ℕ) (rest : Reconnect)
    → b ≤ m
    → m < 2 ^ 62
    → IsDoubling (next_backoff b m) m rest.waits
    → IsDoubling b m (attempt o in_wait b rest).waits
attempt-IsDoubling none in_wait b m rest h bound d = none-IsDoubling b m
attempt-IsDoubling (some failure) in_wait b m rest h bound d =
    after_failure-IsDoubling (is_terminal failure) failure in_wait b m rest h bound d

round-IsDoubling :
    (closed : Bool) (r : Round) (b m : ℕ) (rest : Reconnect)
    → b ≤ m
    → m < 2 ^ 62
    → IsDoubling (next_backoff b m) m rest.waits
    → IsDoubling b m (round closed r b rest).waits
round-IsDoubling true r b m rest h bound d = none-IsDoubling b m
round-IsDoubling false r b m rest h bound d =
    attempt-IsDoubling r.resume_error r.closes_in_wait b m rest h bound d

next_backoff-le : (b m : ℕ) → b ≤ m → m < 2 ^ 62 → next_backoff b m ≤ m
next_backoff-le b m h k = ground arith

rounds-IsDoubling :
    (rs : List Round) (b m : ℕ)
    → b ≤ m
    → m < 2 ^ 62
    → IsDoubling b m (reconnect_rounds m b rs).waits
unfolding reconnect_rounds
rounds-IsDoubling [] b m h bound = none-IsDoubling b m
rounds-IsDoubling (r ∷ rs) b m h bound =
    let later = next_backoff b m in
    round-IsDoubling r.is_closed r b m (reconnect_rounds m later rs) h bound
      (rounds-IsDoubling rs later m (next_backoff-le b m h bound) bound)

usable :
    (b m : ℕ)
    → 0 < b
    → b ≤ m
    → m < 2 ^ 62
    → Path
        (ℕ × ℕ)
        (
          or_default b default_client_recovery_options.reconnect_min_backoff,
          at_least m (or_default b default_client_recovery_options.reconnect_min_backoff),
        )
        (b, m)
usable b m pos h k = ground arith

-- With a positive smallest backoff that is no larger than the largest one, which is below 2 ^ 62
-- nanoseconds, whatever the attempts come to: the k-th wait (from 0) of the reconnect loop takes
-- the smallest backoff times 2 ^ k, or the largest backoff when that is less.
pub backoff_doubles :
    (min_backoff max_backoff : ℕ) (rounds : List Round) (k wait : ℕ)
    → 0 < min_backoff
    → min_backoff ≤ max_backoff
    → max_backoff < 2 ^ 62
    → get_elem? (reconnect_until_attached min_backoff max_backoff rounds).waits k ≡ some wait
    → wait ≡ min (min_backoff * 2 ^ k) max_backoff
unfolding reconnect_until_attached
backoff_doubles b m rounds k wait pos h bound e = rounds-IsDoubling rounds b m h bound k wait (
    subst (λ (s : ℕ × ℕ). get_elem? (reconnect_rounds s.1 s.0 rounds).waits k ≡ some wait)
      (usable b m pos h bound) e)
