-- ===== src/Replay/Queue.antt =====
-- What the buffer promises: a queue of records in sequence order.
use adaptivemsg_go.Errors.{frame_too_large, invalid_message}
use adaptivemsg_go.Prelude.{
  All, Bool-cases, List, [], ap, arith, if◌then◌else◌, inl, inr, leb, length, ltb, ltb→lt, lt→ltb,
  refl, ℕ, ◌&&◌, ◌++◌, ◌+◌, ◌-◌, ◌<◌, ◌∷◌, ◌≡◌, ◌≤◌,
}
use adaptivemsg_go.Replay.{FrameRecord, OutboundFrame, Staged, failed, held, kept}

-- The records behind `last_seq`.
abbrev pub newer : ℕ → List FrameRecord → List FrameRecord
newer last_seq [] = []
newer last_seq (r ∷ rs) = if ltb last_seq r.seq then r ∷ newer last_seq rs else newer last_seq rs

abbrev pub total : List FrameRecord → ℕ
total [] = 0
total (r ∷ rs) = r.size + total rs

-- Sequence numbers grow strictly, from above `lo`.
abbrev pub Increasing : ℕ → List FrameRecord → Type 0
Increasing lo [] = Unit {0}
Increasing lo (r ∷ rs) = (lo < r.seq) × Increasing r.seq rs

abbrev pub last_seq_of : ℕ → List FrameRecord → ℕ
last_seq_of lo [] = lo
last_seq_of lo (r ∷ rs) = last_seq_of r.seq rs

pub Increasing-weaken :
    (lo lo' : ℕ) (rs : List FrameRecord) → lo' ≤ lo → Increasing lo rs → Increasing lo' rs
Increasing-weaken lo lo' [] h i = tt
Increasing-weaken lo lo' (r ∷ rs) h i = (omega arith, i.1)

pub last_seq_of-le : (lo : ℕ) (rs : List FrameRecord) → Increasing lo rs → lo ≤ last_seq_of lo rs
last_seq_of-le lo [] i = omega arith
last_seq_of-le lo (r ∷ rs) i = omega (arith, last_seq_of-le r.seq rs i.1)

pub Increasing-append :
    (lo : ℕ) (rs : List FrameRecord) (r : FrameRecord)
    → Increasing lo rs
    → last_seq_of lo rs < r.seq
    → Increasing lo (rs ++ (r ∷ []))
Increasing-append lo [] r i h = (h, tt)
Increasing-append lo (x ∷ rs) r i h = (i.0, Increasing-append x.seq rs r i.1 h)

pub last_seq_of-append :
    (lo : ℕ) (rs : List FrameRecord) (r : FrameRecord) → last_seq_of lo (rs ++ (r ∷ [])) ≡ r.seq
last_seq_of-append lo [] r = refl
last_seq_of-append lo (x ∷ rs) r = last_seq_of-append x.seq rs r

pub total-append : (rs ss : List FrameRecord) → total (rs ++ ss) ≡ total rs + total ss
total-append [] ss = omega arith
total-append (r ∷ rs) ss = omega (arith, total-append rs ss)

-- In a growing queue above `last_seq` nothing is old.
pub newer_all :
    (last_seq lo : ℕ) (rs : List FrameRecord)
    → last_seq ≤ lo
    → Increasing lo rs
    → newer last_seq rs ≡ rs
newer_all last_seq lo [] h i = refl
newer_all last_seq lo (r ∷ rs) h i =
    rw (lt→ltb last_seq r.seq (omega arith))
      (ap (λ t. r ∷ t) (newer_all last_seq r.seq rs (omega arith) i.1))

pub newer-Increasing :
    (last_seq lo : ℕ) (rs : List FrameRecord)
    → Increasing lo rs
    → Increasing last_seq (newer last_seq rs)
newer-Increasing last_seq lo [] i = tt
newer-Increasing last_seq lo (r ∷ rs) i = elim (Bool-cases (ltb last_seq r.seq)) [
  | inl h ↦ rw h (
    ltb→lt last_seq r.seq h,
    rw (newer_all last_seq r.seq rs (omega (arith, ltb→lt last_seq r.seq h)) i.1) i.1,
  )
  | inr h ↦ rw h (newer-Increasing last_seq r.seq rs i.1)
]

pub newer-All {κ} :
    (P : FrameRecord → Type κ) (last_seq : ℕ) (rs : List FrameRecord)
    → All P rs
    → All P (newer last_seq rs)
newer-All P last_seq [] h = tt
newer-All P last_seq (r ∷ rs) h = elim (Bool-cases (ltb last_seq r.seq)) [
  | inl e ↦ rw e (h.0, newer-All P last_seq rs h.1)
  | inr e ↦ rw e (newer-All P last_seq rs h.1)
]

pub total-newer-le : (last_seq : ℕ) (rs : List FrameRecord) → total (newer last_seq rs) ≤ total rs
total-newer-le last_seq [] = omega arith
total-newer-le last_seq (r ∷ rs) = ground (arith, total-newer-le last_seq rs)

pub newer_twice : (a b : ℕ) (rs : List FrameRecord) → a ≤ b → newer b (newer a rs) ≡ newer b rs
newer_twice a b [] h = refl
newer_twice a b (r ∷ rs) h = ground (arith, newer_twice a b rs)

-- The buffer as a client sees it.
pub record View : Type 0 where
  pub header_len : ℕ
  pub max_bytes : ℕ
  pub last_acked : ℕ
  pub records : List FrameRecord

abbrev pub record_of : ℕ → OutboundFrame → ℕ → FrameRecord
record_of header_len frame seq = record {
  stream_id = frame.stream_id;
  seq = seq;
  flags = frame.flags;
  payload = frame.payload;
  size = header_len + length frame.payload;
}

-- A frame has to fit next to the records kept, and to come behind all of them.
unfoldable pub view_stage : View → OutboundFrame → ℕ → Staged × View
view_stage v frame seq =
    let r = record_of v.header_len frame seq in
    if ltb 0 v.max_bytes && ltb v.max_bytes (total v.records + r.size)
    then (
      if leb r.size v.max_bytes then held else failed (frame_too_large (length frame.payload)),
      v,
    )
    else if leb seq v.last_acked
    then (failed (invalid_message "replay frame seq already acknowledged"), v)
    else if leb seq (last_seq_of v.last_acked v.records)
    then (failed (invalid_message "replay frame seq must increase monotonically"), v)
    else (kept r, record v { records = v.records ++ (r ∷ []) })

-- An acknowledgement drops the records up to its number, and says how many bytes that frees.
unfoldable pub view_ack : View → ℕ → ℕ × View
view_ack v last_seq = if leb last_seq v.last_acked then (0, v) else (
  total v.records - total (newer last_seq v.records),
  record v { last_acked = last_seq; records = newer last_seq v.records },
)

-- What is sent again to a peer that has everything up to `last_seq`.
unfoldable pub view_snapshot : View → ℕ → List FrameRecord
view_snapshot v last_seq = newer last_seq v.records
