-- ===== src/AckSchedule/Timely.antt =====
-- Every frame that is received is acknowledged in time.
use adaptivemsg_go.AckSchedule.{
  AckState, is_due, new_ack_state, next_ack_wait, note_received, take_pending_control,
}
use adaptivemsg_go.Duration.{second}
use adaptivemsg_go.Prelude.{
  Bool-cases, List, Option, [], arith, false, if◌then◌else◌, inl, inr, leb, leb-false, ltb, none,
  refl, some, sym, true, ℕ, ◌+◌, ◌-◌, ◌<◌, ◌^◌, ◌∙◌, ◌∷◌, ◌≡◌, ◌≤◌, ◌⊎◌,
}
use adaptivemsg_go.Recovery.{NegotiatedRecoveryOptions}

-- What is owed is due, or scheduled within the delay. Frames come in sequence, so that the pending
-- count is what is owed.
pub record IsScheduled (s : AckState) (now : ℕ) : Type 0 where
  pub sent_below : s.last_ack_sent ≤ s.last_recv_seq
  pub pending : s.ack_pending ≡ s.last_recv_seq - s.last_ack_sent
  pub soon : s.ack_due_at ≤ now + s.ack_delay
  pub owed :
      s.last_ack_sent < s.last_recv_seq
      → (s.ack_due ≡ true) ⊎ ((0 < s.ack_due_at) × (s.ack_pending < s.ack_every))

abbrev pub push : Option ℕ → List ℕ → List ℕ
push none sent = sent
push (some n) sent = n ∷ sent

-- The numbers acknowledged so far are in `sent`. Time does not go back; it and the delay are far
-- from the end of int64, and fewer than 2 ^ 32 frames are owed. A frame received is the next one,
-- or one received before.
pub data Run (start : AckState) : AckState → ℕ → List ℕ → Type 0 where
  begin : (now : ℕ) → Run start start now []
  receive :
      {s : AckState} {now : ℕ} {sent : List ℕ} (later seq : ℕ)
      → Run start s now sent
      → now ≤ later
      → 0 < later
      → later + s.ack_delay < 2 ^ 63
      → seq ≤ s.last_recv_seq + 1
      → s.last_recv_seq + 1 < s.last_ack_sent + 2 ^ 32
      → Run start (note_received s later seq).1 later sent
  poll :
      {s : AckState} {now : ℕ} {sent : List ℕ} (first second : ℕ)
      → Run start s now sent
      → now ≤ first
      → first ≤ second
      → Run start
          (take_pending_control s first second).1
          second
          (push (take_pending_control s first second).0 sent)

module _ (s : AckState) (now later seq : ℕ) (v : IsScheduled s now) where
  -- A frame received is owed, and what was owed stays scheduled.
  note_received-IsScheduled :
      now ≤ later
      → 0 < later
      → later + s.ack_delay < 2 ^ 63
      → seq ≤ s.last_recv_seq + 1
      → s.last_recv_seq + 1 < s.last_ack_sent + 2 ^ 32
      → IsScheduled (note_received s later seq).1 later
  unfolding note_received
  note_received-IsScheduled a b c d e = record {
    sent_below = ground (arith, v.sent_below);
    pending = ground (arith, v.sent_below, v.pending);
    soon = ground (arith, v.soon);
    owed = λ h. ground (arith, v.owed, v.sent_below, v.pending, h);
  }

take_pending_control-IsScheduled :
    (s : AckState) (now first second : ℕ)
    → IsScheduled s now
    → now ≤ first
    → first ≤ second
    → IsScheduled (take_pending_control s first second).1 second
unfolding take_pending_control
take_pending_control-IsScheduled s now first second v a b = record {
  sent_below = ground (arith, v.sent_below);
  pending = ground (arith, v.sent_below, v.pending);
  soon = ground (arith, v.soon);
  owed = λ h. ground (arith, v.owed, v.sent_below, v.pending, h);
}

-- In every run on a new state the owed acknowledgement is due or scheduled, at most one delay
-- away, and fewer frames than `ack_every` wait for the delay.
pub Run-IsScheduled :
    (shared : NegotiatedRecoveryOptions) {s : AckState} {now : ℕ} {sent : List ℕ}
    → Run (new_ack_state shared) s now sent
    → IsScheduled s now
unfolding new_ack_state
Run-IsScheduled shared (begin now) = record {
  sent_below = omega arith;
  pending = omega arith;
  soon = omega arith;
  owed = λ h. absurd (omega arith);
}
Run-IsScheduled shared (receive {s = s} {now = now} later seq r a b c d e) =
    note_received-IsScheduled s now later seq (Run-IsScheduled shared r) a b c d e
Run-IsScheduled shared (poll {s = s} {now = now} first second r a b) =
    take_pending_control-IsScheduled s now first second (Run-IsScheduled shared r) a b

-- One delay after the last event the writer gets what is owed: the last number received.
pub take_pending_control_in_time :
    (s : AckState) (now first second : ℕ)
    → IsScheduled s now
    → s.last_ack_sent < s.last_recv_seq
    → now + s.ack_delay ≤ first
    → first ≤ second
    → take_pending_control s first second ≡ (
      some s.last_recv_seq,
      record s {
        last_ack_sent = s.last_recv_seq;
        ack_pending = 0;
        ack_due = false;
        ack_due_at = 0;
      },
    )
unfolding take_pending_control
take_pending_control_in_time s now first second v o a b = elim (v.owed o) [
  | inl due ↦ rw due (rw (leb-false s.last_recv_seq s.last_ack_sent o) refl)
  | inr waiting ↦ ground (arith, waiting, v.soon, o)
]

-- The writer's wait ends when the acknowledgement is due, and not before.
pub next_ack_wait_due :
    (s : AckState) (now later : ℕ)
    → s.last_ack_sent < s.last_recv_seq
    → IsScheduled s now
    → now ≤ later
    → (take_pending_control s later later).0
      ≡ (if ltb (later - now) (next_ack_wait s now) then none else some s.last_recv_seq)
unfolding take_pending_control next_ack_wait
next_ack_wait_due s now later o v a = ground (arith, v.owed, v.soon, o)

-- The last number sent, and the numbers sent, the newest first: each is larger than the one before
-- it, and none is above what was received.
abbrev pub newest : List ℕ → ℕ
newest [] = 0
newest (n ∷ sent) = n

abbrev pub Decreasing : ℕ → List ℕ → Type 0
Decreasing top [] = Unit {0}
Decreasing top (n ∷ sent) = (n ≤ top) × ((newest sent < n) × Decreasing n sent)

Decreasing-weaken :
    (low top : ℕ) (sent : List ℕ) → low ≤ top → Decreasing low sent → Decreasing top sent
Decreasing-weaken low top [] h d = tt
Decreasing-weaken low top (n ∷ sent) h d = (omega (arith, h, d.0), d.1)

note_received_grows :
    (s : AckState) (now seq : ℕ)
    → (s.last_recv_seq ≤ (note_received s now seq).1.last_recv_seq)
      × ((note_received s now seq).1.last_ack_sent ≡ s.last_ack_sent)
unfolding note_received
note_received_grows s now seq = ground arith

-- What a poll sends.
poll_sends :
    (s : AckState) (first second : ℕ) (sent : List ℕ)
    → newest sent ≡ s.last_ack_sent
    → Decreasing s.last_recv_seq sent
    → (newest (push (take_pending_control s first second).0 sent)
        ≡ (take_pending_control s first second).1.last_ack_sent)
      × Decreasing
          (take_pending_control s first second).1.last_recv_seq
          (push (take_pending_control s first second).0 sent)
unfolding take_pending_control
poll_sends s first second sent e d = elim (Bool-cases (is_due s first)) [
  | inr early ↦ rw early (e, d)
  | inl due ↦ rw due (elim (Bool-cases (leb s.last_recv_seq s.last_ack_sent)) [
    | inl nothing ↦ rw nothing (e, d)
    | inr owed ↦ rw owed (elim (Bool-cases (is_due s second)) [
      | inr gone ↦ rw gone (e, d)
      | inl still ↦ rw still (refl, (omega arith, (ground (arith, owed, e), d)))
    ])
  ])
]

-- Each acknowledgement that is sent names a larger number than the one before it, and never one
-- that was not received.
pub Run-Decreasing :
    (shared : NegotiatedRecoveryOptions) {s : AckState} {now : ℕ} {sent : List ℕ}
    → Run (new_ack_state shared) s now sent
    → (newest sent ≡ s.last_ack_sent) × Decreasing s.last_recv_seq sent
unfolding new_ack_state
Run-Decreasing shared (begin now) = (refl, tt)
Run-Decreasing shared (receive {s = s} {sent = sent} later seq r a b c d e) =
    let (known, sorted) = Run-Decreasing shared r in
    let (grows, same) = note_received_grows s later seq in
    (known ∙ sym same, Decreasing-weaken _ _ sent grows sorted)
Run-Decreasing shared (poll {s = s} {sent = sent} first second r a b) =
    let (known, sorted) = Run-Decreasing shared r in poll_sends s first second sent known sorted
