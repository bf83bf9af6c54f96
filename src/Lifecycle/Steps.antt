-- ===== src/Lifecycle/Steps.antt =====
-- Every step keeps what holds of the server's state.
use adaptivemsg_go.Lifecycle.{
  Lifecycle, Reach, Step, accept_conn, accept_step, await_step, begin_handshake, begin_shutdown,
  close_listed, close_step, fail_step, finish_step, finishes, hand_over_step, listen, listen_step,
  no_steps, serving, set_at, shutdown_step, start_step, starting, stop_listening_step, then_step,
  track_conn, track_conn_if, track_listener, track_step, tracked_with, tracks,
}
use adaptivemsg_go.Lifecycle.Goroutines.{
  accept-Inv, at_same, await_close-Inv, handler_fails-Inv, hands_over-Inv, listen_with-Inv,
  starts-Inv, stop_listening-Inv,
}
use adaptivemsg_go.Lifecycle.Stopping.{Inv, is_early, is_live, is_serving, set_at-elim}
use adaptivemsg_go.Lifecycle.Tended.{
  Tended, close-Tended, close_all-Tended, is_member-cons, is_member_self, is_tracked,
  shutdown-Tended, track-Tended, untrack-Tended, was_closed,
}
use adaptivemsg_go.Prelude.{Bool, ap, false, inl, inr, refl, true, ℕ, ◌≡◌}
use adaptivemsg_go.Streams.{is_member, without}

-- After trackConn, the transport is no longer one of those in the handshake.
served-early :
    (s : Lifecycle) (c d : ℕ)
    → Inv s
    → is_early (set_at s.phase c serving d) ≡ true
    → Tended s.stopping (without c s.handshakes) s.handshakes_to_close s.closed_conns d
served-early s c d i h =
    set_at-elim s.phase c serving d is_early h (λ same k. absurd (cc))
      (λ n k. untrack-Tended c n (i.early d k))

served-live :
    (s : Lifecycle) (c d : ℕ)
    → s.phase c ≡ starting
    → Inv s
    → is_live (set_at s.phase c serving d) ≡ true
    → is_member d s.goroutines ≡ true
served-live s c d p i h =
    set_at-elim s.phase c serving d is_live h
      (λ same k. i.live d (at_same s c d is_live same (ap is_live p))) (λ n k. i.live d k)

tracked_with-Inv :
    (b : Bool) (s : Lifecycle) (c : ℕ)
    → s.stopping ≡ b
    → s.phase c ≡ starting
    → Inv s
    → Inv (tracked_with c (track_conn_if b s c))
tracked_with-Inv true s c e p i = record {
  counted = i.counted;
  live = λ d h. served-live s c d p i h;
  early = λ d h. served-early s c d i h;
  served = λ d h.
      set_at-elim s.phase c serving d is_serving h
        (λ same k. inr (was_closed (is_member_self d c s.closing same)))
        (λ n k. elim (i.served d k) [ inl f ↦ inl f | inr t ↦ inr (close-Tended c t) ]);
  listening = i.listening;
}
tracked_with-Inv false s c e p i = record {
  counted = i.counted;
  live = λ d h. served-live s c d p i h;
  early = λ d h. served-early s c d i h;
  served = λ d h.
      set_at-elim s.phase c serving d is_serving h
        (λ same k. inr (is_tracked e (is_member_self d c s.conns same)))
        (λ n k. elim (i.served d k) [ inl f ↦ inl f | inr t ↦ inr (track-Tended c t) ]);
  listening = i.listening;
}

finishes-Inv : (s : Lifecycle) (c : ℕ) → Inv s → Inv (finishes s c)
unfolding finishes
finishes-Inv s c i = record {
  counted = i.counted;
  live = i.live;
  early = i.early;
  served =
      λ d h. elim (i.served d h) [ inl f ↦ inl (is_member-cons d c s.finished f) | inr t ↦ inr t ];
  listening = i.listening;
}

begin_shutdown-Inv : (s : Lifecycle) → Inv s → Inv (begin_shutdown s)
unfolding begin_shutdown
begin_shutdown-Inv s i = record {
  counted = i.counted;
  live = i.live;
  early = λ d h. shutdown-Tended (i.early d h);
  served = λ d h. elim (i.served d h) [ inl f ↦ inl f | inr t ↦ inr (shutdown-Tended t) ];
  listening = λ l h. shutdown-Tended (i.listening l h);
}

close_listed-Inv : (s : Lifecycle) → Inv s → Inv (close_listed s)
unfolding close_listed
close_listed-Inv s i = record {
  counted = i.counted;
  live = i.live;
  early = λ d h. close_all-Tended (i.early d h);
  served = λ d h. elim (i.served d h) [ inl f ↦ inl f | inr t ↦ inr (close_all-Tended t) ];
  listening = λ l h. close_all-Tended (i.listening l h);
}

Step-Inv : (s t : Lifecycle) → Step s t → Inv s → Inv t
unfolding listen track_listener accept_conn begin_handshake tracks track_conn
Step-Inv s _ (listen_step l o) i = listen_with-Inv s.stopping s l refl i
Step-Inv s _ (stop_listening_step l o) i = stop_listening-Inv s l i
Step-Inv s _ (accept_step c p) i = accept-Inv s.stopping s c refl i
Step-Inv s _ (fail_step c p) i = handler_fails-Inv s c (ap is_live p) i
Step-Inv s _ (hand_over_step c p) i = hands_over-Inv s c (ap is_live p) i
Step-Inv s _ (start_step c p) i = starts-Inv s c p i
Step-Inv s _ (track_step c p) i = tracked_with-Inv s.stopping s c refl p i
Step-Inv s _ (finish_step c p) i = finishes-Inv s c i
Step-Inv s _ (await_step c p f) i = await_close-Inv s c (ap is_live p) i
Step-Inv s _ shutdown_step i = begin_shutdown-Inv s i
Step-Inv s _ close_step i = close_listed-Inv s i

pub Reach-Inv : {s t : Lifecycle} → Reach s t → Inv s → Inv t
Reach-Inv no_steps i = i
Reach-Inv (then_step {t} {u} r step) i = Step-Inv t u step (Reach-Inv r i)
