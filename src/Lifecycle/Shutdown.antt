-- ===== src/Lifecycle/Shutdown.antt =====
-- Server.Shutdown stops what the server runs.
use adaptivemsg_go.Lifecycle.{
  Lifecycle, Phase, Reach, ended, handshaking, new_lifecycle, not_running, serving, starting,
}
use adaptivemsg_go.Lifecycle.Steps.{Reach-Inv}
use adaptivemsg_go.Lifecycle.Stopping.{Inv, is_early, is_live, is_serving, new_lifecycle-Inv}
use adaptivemsg_go.Lifecycle.Tended.{Tended-closed}
use adaptivemsg_go.Prelude.{
  Bool, Bool-cases, List, [], ap, arith, false, inl, inr, length, not, refl, true, ℕ, ◌||◌, ◌∷◌,
  ◌≡◌, ◌≤◌, ◌⊎◌,
}
use adaptivemsg_go.Streams.{is_member}

-- What a stopped server has done about a transport, from the phase of the goroutine that serves it
abbrev pub is_stopped_in : Phase → Lifecycle → ℕ → Bool
is_stopped_in not_running s c = true
is_stopped_in ended s c = true
is_stopped_in handshaking s c = is_member c s.closed_conns
is_stopped_in starting s c = is_member c s.closed_conns
is_stopped_in serving s c = is_member c s.finished || is_member c s.closing

unfoldable pub is_stopped : Lifecycle → ℕ → Bool
is_stopped s c = is_stopped_in (s.phase c) s c

-- A listener is not served any more, or it is closed.
unfoldable pub is_shut : Lifecycle → ℕ → Bool
is_shut s l = not (s.accepting l) || is_member l s.closed_listeners

or-left : (a b : Bool) → a ≡ true → a || b ≡ true
or-left a b h = ground arith

or-right : (a b : Bool) → b ≡ true → a || b ≡ true
or-right true b h = refl
or-right false b h = h

is_stopped_in-Inv :
    (p : Phase) (s : Lifecycle) (c : ℕ)
    → s.phase c ≡ p
    → s.stopping ≡ true
    → s.handshakes_to_close ≡ []
    → s.conns_to_close ≡ []
    → Inv s
    → is_stopped_in p s c ≡ true
is_stopped_in-Inv not_running s c e b hs cs i = refl
is_stopped_in-Inv ended s c e b hs cs i = refl
is_stopped_in-Inv handshaking s c e b hs cs i = Tended-closed b hs (i.early c (ap is_early e))
is_stopped_in-Inv starting s c e b hs cs i = Tended-closed b hs (i.early c (ap is_early e))
is_stopped_in-Inv serving s c e b hs cs i = elim (i.served c (ap is_serving e)) [
  | inl f ↦ or-left (is_member c s.finished) (is_member c s.closing) f
  | inr t ↦ or-right (is_member c s.finished) (is_member c s.closing) (Tended-closed b cs t)
]

is_shut-Inv :
    (s : Lifecycle) (l : ℕ)
    → s.stopping ≡ true
    → s.listeners_to_close ≡ []
    → Inv s
    → is_shut s l ≡ true
unfolding is_shut
is_shut-Inv s l b ls i = elim (Bool-cases (s.accepting l)) [
  | inl e ↦ rw e (Tended-closed b ls (i.listening l e))
  | inr n ↦ rw n refl
]

length-member : (c : ℕ) (ds : List ℕ) → is_member c ds ≡ true → 1 ≤ length ds
length-member c [] h = absurd (cc)
length-member c (d ∷ ds) h = omega arith

live-running : (s : Lifecycle) (c : ℕ) → Inv s → (is_live (s.phase c) ≡ false) ⊎ (1 ≤ s.running)
live-running s c i = elim (Bool-cases (is_live (s.phase c))) [
  | inl e ↦ inr (omega (arith, i.counted, length-member c s.goroutines (i.live c e)))
  | inr n ↦ inl n
]

-- In every order of the steps in which the server listens, accepts, serves and stops: once
-- Shutdown has begun and has closed what it listed, every listener that is still served is closed,
-- every transport before trackConn is closed, every connection behind it is closed for good or
-- Close was called on it, and as long as a goroutine serves a transport, the count that Shutdown
-- waits for is not 0. A listener or a transport that came while Shutdown began is no exception.
pub shutdown_stops_all :
    {s : Lifecycle} (c l : ℕ)
    → Reach new_lifecycle s
    → s.stopping ≡ true
    → s.listeners_to_close ≡ []
    → s.handshakes_to_close ≡ []
    → s.conns_to_close ≡ []
    → (is_stopped s c ≡ true)
      × (is_shut s l ≡ true)
      × ((is_live (s.phase c) ≡ false) ⊎ (1 ≤ s.running))
unfolding is_stopped
shutdown_stops_all {s} c l r b ls hs cs =
    let i = Reach-Inv r new_lifecycle-Inv in
    (is_stopped_in-Inv (s.phase c) s c refl b hs cs i, is_shut-Inv s l b ls i, live-running s c i)
