-- ===== src/Replay/Refine.antt =====
-- The buffer behaves as the queue of the records that it keeps.
use adaptivemsg_go.Prelude.{
  All, Bool-cases, List, [], ap, arith, drop, false, get_elem?, inl, inr, leb, leb-false, length,
  ltb, ltb-false, ltb→lt, lt→ltb, refl, subst, suc, sym, true, ℕ, ◌&&◌, ◌+◌, ◌-◌, ◌<◌, ◌∙◌, ◌∷◌,
  ◌≡◌, ◌≤◌,
}
use adaptivemsg_go.Replay.{
  Dropping, FrameRecord, ReplayBuffer, deref, drop_acked, new_replay_buffer, seq_of,
}
use adaptivemsg_go.Replay.Layout.{
  deref-map, drop-layout, get_elem?-layout, last-layout, layout, length-layout, older,
  older-cons_old, set-layout,
}
use adaptivemsg_go.Replay.Queue.{
  Increasing, View, last_seq_of, newer, newer_all, total, total-newer-le,
}

-- The queue that a buffer stands for.
abbrev pub queue : ReplayBuffer → List FrameRecord
queue b = deref (drop b.head b.frames)

abbrev pub HasSize : ℕ → FrameRecord → Type 0
HasSize header_len r = r.size ≡ header_len + length r.payload

pub record IsValid (b : ReplayBuffer) : Type 0 where
  pub arranged : b.frames ≡ layout b.head (queue b)
  pub increasing : Increasing b.last_acked (queue b)
  pub sized : All (HasSize b.header_len) (queue b)
  pub used : b.used_bytes ≡ total (queue b)
  pub bounded : 0 < b.max_bytes → b.used_bytes ≤ b.max_bytes

-- The queue of an array that is arranged.
pub queue-layout : (h : ℕ) (q : List FrameRecord) → deref (drop h (layout h q)) ≡ q
queue-layout h q = ap deref (drop-layout h q) ∙ deref-map q

pub new_replay_buffer-IsValid :
    (version max_bytes : ℕ)
    → IsValid (new_replay_buffer version max_bytes)
      × (queue (new_replay_buffer version max_bytes) ≡ [])
unfolding new_replay_buffer
new_replay_buffer-IsValid version max_bytes = (
  record { arranged = refl; increasing = tt; sized = tt; used = refl; bounded = λ h. omega arith },
  refl,
)

pub length-frames : (b : ReplayBuffer) → IsValid b → length b.frames ≡ b.head + length (queue b)
length-frames b v = ap length v.arranged ∙ length-layout b.head (queue b)

-- The state of the loop of `ack` with the records `q` left.
abbrev pub taking : ℕ → ℕ → List FrameRecord → Dropping
taking dropped h q = record { dropped = dropped; frames = layout h q; head = h }

taking-eq :
    (d d' h h' : ℕ) (q q' : List FrameRecord)
    → d ≡ d'
    → h ≡ h'
    → q ≡ q'
    → taking d h q ≡ taking d' h' q'
taking-eq d d' h h' q q' e f g = λ i. taking (e i) (f i) (g i)

drop_acked_new :
    (n last_seq d h : ℕ) (r : FrameRecord) (q : List FrameRecord)
    → ltb last_seq r.seq ≡ true
    → drop_acked (suc n) last_seq (taking d h (r ∷ q)) ≡ taking d h (r ∷ q)
unfolding drop_acked
drop_acked_new n last_seq d h r q new =
    rw (get_elem?-layout h r q, drop_acked)
      (rw (leb-false r.seq last_seq (ltb→lt last_seq r.seq new)) refl)

drop_acked_old :
    (n last_seq d h : ℕ) (r : FrameRecord) (q : List FrameRecord)
    → ltb last_seq r.seq ≡ false
    → drop_acked (suc n) last_seq (taking d h (r ∷ q))
      ≡ drop_acked n last_seq (taking (d + r.size) (h + 1) q)
unfolding drop_acked
drop_acked_old n last_seq d h r q old =
    rw (get_elem?-layout h r q, drop_acked)
      (rw (le_of_not_lt) (
        ap (λ f. drop_acked n last_seq (record { dropped = d + r.size; frames = f; head = h + 1 }))
          (set-layout h r q ∙ ap (λ (k : ℕ). layout k q) {x = suc h} {y = h + 1} (omega arith))))
  where
    le_of_not_lt : leb r.seq last_seq ≡ true
    le_of_not_lt = ground (arith, old)

-- The loop of `ack` takes the old records off the front, and adds up their sizes.
pub drop_acked-layout :
    (q : List FrameRecord) (last_seq lo h d : ℕ)
    → Increasing lo q
    → drop_acked (length q) last_seq (taking d h q)
      ≡ taking (d + (total q - total (newer last_seq q))) (h + older last_seq q) (newer last_seq q)
drop_acked-layout [] last_seq lo h d i =
    unfold drop_acked in taking-eq d _ h _ [] [] (omega arith) (omega arith) refl
drop_acked-layout (r ∷ q) last_seq lo h d i = elim (Bool-cases (ltb last_seq r.seq)) [
  | inl new ↦
      drop_acked_new (length q) last_seq d h r q new
      ∙ (let all_new : newer last_seq (r ∷ q) ≡ r ∷ q =
            newer_all last_seq last_seq (r ∷ q) (omega arith) (ltb→lt last_seq r.seq new, i.1) in
          taking-eq d _ h _ (r ∷ q) _ (omega (arith, ap total all_new))
            (omega (arith, ap length all_new)) (sym all_new))
  | inr old ↦
      drop_acked_old (length q) last_seq d h r q old
      ∙ drop_acked-layout q last_seq r.seq (h + 1) (d + r.size) i.1
      ∙ (let shorter : newer last_seq (r ∷ q) ≡ newer last_seq q = rw old refl in
          taking-eq (d + r.size + (total q - total (newer last_seq q))) _ (h + 1 + older last_seq q)
            _ (newer last_seq q) _ (omega (arith, ap total shorter, total-newer-le last_seq q))
            (omega (arith, ap length shorter, older-cons_old last_seq r q old)) (sym shorter))
]

abbrev pub view : ReplayBuffer → View
view b = record {
  header_len = b.header_len;
  max_bytes = b.max_bytes;
  last_acked = b.last_acked;
  records = queue b;
}

-- A buffer whose array holds the queue `q` behind `h` nil entries is valid if `q` is in order.
pub build-IsValid :
    (b : ReplayBuffer) (q : List FrameRecord)
    → b.frames ≡ layout b.head q
    → Increasing b.last_acked q
    → All (HasSize b.header_len) q
    → b.used_bytes ≡ total q
    → (0 < b.max_bytes → b.used_bytes ≤ b.max_bytes)
    → IsValid b × (queue b ≡ q)
build-IsValid b q a i s u m = (
  record {
    arranged = a ∙ ap (layout b.head) (sym same);
    increasing = subst (Increasing b.last_acked) (sym same) i;
    sized = subst (All (HasSize b.header_len)) (sym same) s;
    used = u ∙ ap total (sym same);
    bounded = m;
  },
  same,
)
  where
    same : queue b ≡ q
    same = ap (λ t. deref (drop b.head t)) a ∙ queue-layout b.head q

-- The last entry of the array is the last record of the queue.
pub last_entry :
    (b : ReplayBuffer) (seq : ℕ)
    → IsValid b
    → leb seq b.last_acked ≡ false
    → (ltb b.head (length b.frames) && leb seq (seq_of (get_elem? b.frames (length b.frames - 1))))
      ≡ leb seq (last_seq_of b.last_acked (queue b))
last_entry b seq v above = go (queue b) v.arranged
  where
    go :
        (q : List FrameRecord)
        → b.frames ≡ layout b.head q
        → (ltb b.head (length b.frames)
            && leb seq (seq_of (get_elem? b.frames (length b.frames - 1))))
          ≡ leb seq (last_seq_of b.last_acked q)
    go [] a =
        rw
          (ltb-false b.head (length b.frames) (omega (arith, ap length a, length-layout b.head [])))
          (sym above)
    go (r ∷ q) a =
        rw
          (lt→ltb b.head (length b.frames)
            (omega (arith, ap length a, length-layout b.head (r ∷ q))))
          (ap (λ (k : ℕ). leb seq (seq_of (get_elem? b.frames k))) {y = b.head + length q}
              (omega (arith, ap length a, length-layout b.head (r ∷ q)))
            ∙ ap (λ f. leb seq (seq_of (get_elem? f (b.head + length q)))) a
            ∙ ap (leb seq) (last-layout b.head b.last_acked r q))
