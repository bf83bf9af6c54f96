-- ===== src/Lifecycle/Stopping.antt =====
-- What holds in every state of the server, while Shutdown runs too.
use adaptivemsg_go.Lifecycle.{
  Lifecycle, Phase, ended, goroutine_done, handshaking, new_lifecycle, not_running, remove_one,
  serving, set_at, starting,
}
use adaptivemsg_go.Lifecycle.Tended.{Tended}
use adaptivemsg_go.Prelude.{
  Bool, Bool-cases, List, [], ap, arith, false, inl, inr, length, refl, suc, true, ℕ, ◌==◌, ◌∷◌,
  ◌≡◌, ◌⊎◌,
}
use adaptivemsg_go.Streams.{is_member}

abbrev pub is_live : Phase → Bool
is_live not_running = false
is_live ended = false
is_live _ = true

-- Before trackConn
abbrev pub is_early : Phase → Bool
is_early handshaking = true
is_early starting = true
is_early _ = false

abbrev pub is_serving : Phase → Bool
is_serving serving = true
is_serving _ = false

pub record Inv (s : Lifecycle) : Type 0 where
  pub counted : s.running ≡ length s.goroutines
  pub live : (c : ℕ) → is_live (s.phase c) ≡ true → is_member c s.goroutines ≡ true
  pub early :
      (c : ℕ)
      → is_early (s.phase c) ≡ true
      → Tended s.stopping s.handshakes s.handshakes_to_close s.closed_conns c
  pub served :
      (c : ℕ)
      → is_serving (s.phase c) ≡ true
      → (is_member c s.finished ≡ true) ⊎ Tended s.stopping s.conns s.conns_to_close s.closing c
  pub listening :
      (l : ℕ)
      → s.accepting l ≡ true
      → Tended s.stopping s.listeners s.listeners_to_close s.closed_listeners l

pub new_lifecycle-Inv : Inv new_lifecycle
new_lifecycle-Inv = record {
  counted = refl;
  live = λ c h. absurd (cc);
  early = λ c h. absurd (cc);
  served = λ c h. absurd (cc);
  listening = λ l h. absurd (cc);
}

pub set_at-elim :
    {A : Type 0} (f : ℕ → A) (c : ℕ) (a : A) (d : ℕ) (q : A → Bool) {Goal : Type 0}
    → q (set_at f c a d) ≡ true
    → (d == c ≡ true → q a ≡ true → Goal)
    → (d == c ≡ false → q (f d) ≡ true → Goal)
    → Goal
set_at-elim f c a d q h at_c elsewhere = elim (Bool-cases (d == c)) [
  | inl e ↦ at_c e (rw e at h)
  | inr n ↦ elsewhere n (rw n at h)
]

length-remove_one :
    (c : ℕ) (ds : List ℕ) → is_member c ds ≡ true → suc (length (remove_one c ds)) ≡ length ds
length-remove_one c [] h = absurd (cc)
length-remove_one c (d ∷ ds) h = elim (Bool-cases (d == c)) [
  | inl e ↦ rw e refl
  | inr n ↦ rw n (ap suc (length-remove_one c ds (rw n at h)))
]

is_member-remove_one :
    (c d : ℕ) (ds : List ℕ)
    → d == c ≡ false
    → is_member d ds ≡ true
    → is_member d (remove_one c ds) ≡ true
is_member-remove_one c d [] n h = h
is_member-remove_one c d (e ∷ ds) n h = ground (arith, n, h, is_member-remove_one c d ds n)

is_live-early : (p : Phase) → is_early p ≡ true → is_live p ≡ true
is_live-early not_running h = absurd (cc)
is_live-early ended h = absurd (cc)
is_live-early handshaking h = refl
is_live-early starting h = refl
is_live-early serving h = refl

-- The goroutine of `c` ends: the others keep what they had.
pub goroutine_done-Inv :
    (s : Lifecycle) (c : ℕ)
    → s.running ≡ length s.goroutines
    → ((d : ℕ) → is_live (s.phase d) ≡ true → is_member d s.goroutines ≡ true)
    → is_live (s.phase c) ≡ true
    → ((d : ℕ)
        → d == c ≡ false
        → is_early (s.phase d) ≡ true
        → Tended s.stopping s.handshakes s.handshakes_to_close s.closed_conns d)
    → ((d : ℕ)
        → d == c ≡ false
        → is_serving (s.phase d) ≡ true
        → (is_member d s.finished ≡ true) ⊎ Tended s.stopping s.conns s.conns_to_close s.closing d)
    → ((l : ℕ)
        → s.accepting l ≡ true
        → Tended s.stopping s.listeners s.listeners_to_close s.closed_listeners l)
    → Inv (goroutine_done s c)
goroutine_done-Inv s c counts lives own earlies serves listens = record {
  counted = omega (arith, counts, length-remove_one c s.goroutines (lives c own));
  live = λ d h.
      set_at-elim s.phase c ended d is_live h (λ e k. absurd (cc))
        (λ n k. is_member-remove_one c d s.goroutines n (lives d k));
  early =
      λ d h. set_at-elim s.phase c ended d is_early h (λ e k. absurd (cc)) (λ n k. earlies d n k);
  served =
      λ d h. set_at-elim s.phase c ended d is_serving h (λ e k. absurd (cc)) (λ n k. serves d n k);
  listening = listens;
}
