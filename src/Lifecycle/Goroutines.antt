-- ===== src/Lifecycle/Goroutines.antt =====
-- Listening, accepting, and the ends of the goroutines keep what holds of the server.
use adaptivemsg_go.Lifecycle.{
  Lifecycle, Phase, accept_with_result, await_close, begin_handshake_if, end_handshake, ended,
  handler_fails, hands_over, handshaking, listen_with, starting, starts, stop_listening,
  track_listener_if, untrack_conn, untrack_listener,
}
use adaptivemsg_go.Lifecycle.Stopping.{
  Inv, goroutine_done-Inv, is_early, is_live, is_serving, set_at-elim,
}
use adaptivemsg_go.Lifecycle.Tended.{
  close-Tended, is_member-cons, is_member_self, is_tracked, track-Tended, untrack-Tended,
}
use adaptivemsg_go.Prelude.{
  ==_iff, Bool, ap, arith, false, inl, inr, subst, sym, true, ℕ, ◌==◌, ◌∷◌, ◌≡◌,
}
use adaptivemsg_go.Streams.{without}

pub listen_with-Inv :
    (b : Bool) (s : Lifecycle) (l : ℕ)
    → s.stopping ≡ b
    → Inv s
    → Inv (listen_with l (track_listener_if b s l))
listen_with-Inv true s l e i = record {
  counted = i.counted;
  live = i.live;
  early = i.early;
  served = i.served;
  listening = λ m h. close-Tended l (i.listening m h);
}
listen_with-Inv false s l e i = record {
  counted = i.counted;
  live = i.live;
  early = i.early;
  served = i.served;
  listening = λ m h.
      set_at-elim s.accepting l true m (λ b. b) h
        (λ same k. is_tracked e (is_member_self m l s.listeners same))
        (λ n k. track-Tended l (i.listening m k));
}

pub stop_listening-Inv : (s : Lifecycle) (l : ℕ) → Inv s → Inv (stop_listening s l)
unfolding stop_listening untrack_listener
stop_listening-Inv s l i = record {
  counted = i.counted;
  live = i.live;
  early = i.early;
  served = i.served;
  listening = λ m h.
      set_at-elim s.accepting l false m (λ b. b) h (λ same k. absurd (cc))
        (λ n k. close-Tended l (untrack-Tended l n (i.listening m k)));
}

pub accept-Inv :
    (b : Bool) (s : Lifecycle) (c : ℕ)
    → s.stopping ≡ b
    → Inv s
    → Inv (accept_with_result c (begin_handshake_if b s c))
accept-Inv true s c e i = record {
  counted = i.counted;
  live = λ d h. set_at-elim s.phase c ended d is_live h (λ same k. absurd (cc)) (λ n k. i.live d k);
  early = λ d h.
      set_at-elim s.phase c ended d is_early h (λ same k. absurd (cc))
        (λ n k. close-Tended c (i.early d k));
  served = λ d h.
      set_at-elim s.phase c ended d is_serving h (λ same k. absurd (cc)) (λ n k. i.served d k);
  listening = i.listening;
}
accept-Inv false s c e i = record {
  counted = omega (arith, i.counted);
  live = λ d h.
      set_at-elim s.phase c handshaking d is_live h (λ same k. is_member_self d c s.goroutines same)
        (λ n k. is_member-cons d c s.goroutines (i.live d k));
  early = λ d h.
      set_at-elim s.phase c handshaking d is_early h
        (λ same k. is_tracked e (is_member_self d c s.handshakes same))
        (λ n k. track-Tended c (i.early d k));
  served = λ d h.
      set_at-elim s.phase c handshaking d is_serving h (λ same k. absurd (cc))
        (λ n k. i.served d k);
  listening = i.listening;
}

pub handler_fails-Inv :
    (s : Lifecycle) (c : ℕ) → is_live (s.phase c) ≡ true → Inv s → Inv (handler_fails s c)
unfolding handler_fails end_handshake
handler_fails-Inv s c own i =
    goroutine_done-Inv
      (record s { closed_conns = c ∷ s.closed_conns; handshakes = without c s.handshakes }) c
      i.counted i.live own (λ d n k. close-Tended c (untrack-Tended c n (i.early d k)))
      (λ d n k. i.served d k) i.listening

pub hands_over-Inv :
    (s : Lifecycle) (c : ℕ) → is_live (s.phase c) ≡ true → Inv s → Inv (hands_over s c)
unfolding hands_over end_handshake
hands_over-Inv s c own i =
    goroutine_done-Inv (record s { handshakes = without c s.handshakes }) c i.counted i.live own
      (λ d n k. untrack-Tended c n (i.early d k)) (λ d n k. i.served d k) i.listening

pub await_close-Inv :
    (s : Lifecycle) (c : ℕ) → is_live (s.phase c) ≡ true → Inv s → Inv (await_close s c)
unfolding await_close end_handshake untrack_conn
await_close-Inv s c own i =
    goroutine_done-Inv (record s { conns = without c s.conns; handshakes = without c s.handshakes })
      c i.counted i.live own (λ d n k. untrack-Tended c n (i.early d k))
      (λ d n k. elim (i.served d k) [ inl h ↦ inl h | inr h ↦ inr (untrack-Tended c n h) ])
      i.listening

-- The phase of `c` holds of `d`, when they are the same.
pub at_same :
    (s : Lifecycle) (c d : ℕ) (q : Phase → Bool)
    → d == c ≡ true
    → q (s.phase c) ≡ true
    → q (s.phase d) ≡ true
at_same s c d q same h = subst (λ e. q (s.phase e) ≡ true) (sym ((==_iff d c).0 same)) h

pub starts-Inv : (s : Lifecycle) (c : ℕ) → s.phase c ≡ handshaking → Inv s → Inv (starts s c)
unfolding starts
starts-Inv s c p i = record {
  counted = i.counted;
  live = λ d h.
      set_at-elim s.phase c starting d is_live h
        (λ same k. i.live d (at_same s c d is_live same (ap is_live p))) (λ n k. i.live d k);
  early = λ d h.
      set_at-elim s.phase c starting d is_early h
        (λ same k. i.early d (at_same s c d is_early same (ap is_early p))) (λ n k. i.early d k);
  served = λ d h.
      set_at-elim s.phase c starting d is_serving h (λ same k. absurd (cc)) (λ n k. i.served d k);
  listening = i.listening;
}
