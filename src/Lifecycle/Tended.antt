-- ===== src/Lifecycle/Tended.antt =====
-- What Shutdown closes: what is tracked before it begins, what it has listed, and what comes later.
use adaptivemsg_go.Prelude.{Bool, List, [], arith, false, true, ℕ, ◌++◌, ◌==◌, ◌∙◌, ◌∷◌, ◌≡◌}
use adaptivemsg_go.Streams.{is_member, without}
use adaptivemsg_go.Streams.Table.{is_member-without_other}

-- The server is not stopping and tracks it, Shutdown has still to close it, or it was closed.
pub data Tended (stopping : Bool) (tracked pending closed : List ℕ) (c : ℕ) : Type 0 where
  is_tracked :
      stopping ≡ false → is_member c tracked ≡ true → Tended stopping tracked pending closed c
  is_pending : is_member c pending ≡ true → Tended stopping tracked pending closed c
  was_closed : is_member c closed ≡ true → Tended stopping tracked pending closed c

pub is_member-left :
    (c : ℕ) (xs ys : List ℕ) → is_member c xs ≡ true → is_member c (xs ++ ys) ≡ true
is_member-left c [] ys h = absurd (cc)
is_member-left c (x ∷ xs) ys h = ground (arith, is_member-left c xs ys)

pub is_member-right :
    (c : ℕ) (xs ys : List ℕ) → is_member c ys ≡ true → is_member c (xs ++ ys) ≡ true
is_member-right c [] ys h = h
is_member-right c (x ∷ xs) ys h = ground (arith, is_member-right c xs ys h)

pub is_member-cons : (c d : ℕ) (xs : List ℕ) → is_member c xs ≡ true → is_member c (d ∷ xs) ≡ true
is_member-cons c d xs h = ground arith

pub is_member_self : (c d : ℕ) (xs : List ℕ) → c == d ≡ true → is_member c (d ∷ xs) ≡ true
is_member_self c d xs h = ground arith

module _ {b : Bool} {tracked pending closed : List ℕ} {c : ℕ} where
  pub track-Tended :
      (d : ℕ) → Tended b tracked pending closed c → Tended b (d ∷ tracked) pending closed c
  track-Tended d (is_tracked e h) = is_tracked e (is_member-cons c d tracked h)
  track-Tended d (is_pending h) = is_pending h
  track-Tended d (was_closed h) = was_closed h

  pub close-Tended :
      (d : ℕ) → Tended b tracked pending closed c → Tended b tracked pending (d ∷ closed) c
  close-Tended d (is_tracked e h) = is_tracked e h
  close-Tended d (is_pending h) = is_pending h
  close-Tended d (was_closed h) = was_closed (is_member-cons c d closed h)

  pub untrack-Tended :
      (d : ℕ)
      → c == d ≡ false
      → Tended b tracked pending closed c
      → Tended b (without d tracked) pending closed c
  untrack-Tended d n (is_tracked e h) = is_tracked e (is_member-without_other c d tracked n ∙ h)
  untrack-Tended d n (is_pending h) = is_pending h
  untrack-Tended d n (was_closed h) = was_closed h

  pub shutdown-Tended :
      Tended b tracked pending closed c → Tended true tracked (tracked ++ pending) closed c
  shutdown-Tended (is_tracked e h) = is_pending (is_member-left c tracked pending h)
  shutdown-Tended (is_pending h) = is_pending (is_member-right c tracked pending h)
  shutdown-Tended (was_closed h) = was_closed h

  pub close_all-Tended :
      Tended b tracked pending closed c → Tended b tracked [] (pending ++ closed) c
  close_all-Tended (is_tracked e h) = is_tracked e h
  close_all-Tended (is_pending h) = was_closed (is_member-left c pending closed h)
  close_all-Tended (was_closed h) = was_closed (is_member-right c pending closed h)

  -- Once the server is stopping and nothing is left to close, it was closed.
  pub Tended-closed :
      b ≡ true → pending ≡ [] → Tended b tracked pending closed c → is_member c closed ≡ true
  Tended-closed e n (is_tracked f h) = absurd (cc)
  Tended-closed e n (is_pending h) = absurd (cc)
  Tended-closed e n (was_closed h) = h
