-- ===== src/Lifecycle/Refusing.antt =====
-- A server that stops takes nothing new.
use adaptivemsg_go.Lifecycle.{Lifecycle}
use adaptivemsg_go.Lifecycle.Stopping.{is_live}
use adaptivemsg_go.Prelude.{true, ℕ, ◌≡◌, ◌≤◌}
use adaptivemsg_go.Streams.{is_member}

-- What `t` serves, listens on and tracks, `s` does too.
record Within (s t : Lifecycle) : Type 0 where
  fewer : t.running ≤ s.running
  phases : (c : ℕ) → is_live (t.phase c) ≡ true → is_live (s.phase c) ≡ true
  accepts : (l : ℕ) → t.accepting l ≡ true → s.accepting l ≡ true
  tracked : (c : ℕ) → is_member c t.conns ≡ true → is_member c s.conns ≡ true
