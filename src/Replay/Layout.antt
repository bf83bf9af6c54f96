-- ===== src/Replay/Layout.antt =====
-- The array behind the queue: nil entries up to `head`, then the records kept.
use adaptivemsg_go.Prelude.{
  Bool-cases, List, Option, [], ap, arith, drop, false, get_elem?, inl, inr, leb, leb-false, length,
  length-map, le→leb, ltb, ltb→lt, lt→ltb, map, none, refl, set, some, suc, sym, true, zero, ℕ,
  ◌++◌, ◌+◌, ◌-◌, ◌<◌, ◌∙◌, ◌∷◌, ◌≡◌, ◌≤◌,
}
use adaptivemsg_go.Replay.{FrameRecord, deref, seq_of}
use adaptivemsg_go.Replay.Queue.{Increasing, last_seq_of, newer, newer_all}

abbrev pub Entries : Type 0
Entries = List (Option FrameRecord)

abbrev pub layout : ℕ → List FrameRecord → Entries
layout zero q = map some q
layout (suc h) q = none ∷ layout h q

pub length-layout : (h : ℕ) (q : List FrameRecord) → length (layout h q) ≡ h + length q
length-layout zero q = omega (arith, length-map {0, 0} {A = FrameRecord} some q)
length-layout (suc h) q = omega (arith, length-layout h q)

pub drop-layout : (h : ℕ) (q : List FrameRecord) → drop h (layout h q) ≡ map some q
drop-layout zero q = refl
drop-layout (suc h) q = drop-layout h q

pub get_elem?-layout_end : (h : ℕ) → get_elem? (layout h []) h ≡ none
get_elem?-layout_end zero = refl
get_elem?-layout_end (suc h) = get_elem?-layout_end h

pub get_elem?-layout :
    (h : ℕ) (r : FrameRecord) (q : List FrameRecord)
    → get_elem? (layout h (r ∷ q)) h ≡ some (some r)
get_elem?-layout zero r q = refl
get_elem?-layout (suc h) r q = get_elem?-layout h r q

pub set-layout :
    (h : ℕ) (r : FrameRecord) (q : List FrameRecord)
    → set (layout h (r ∷ q)) h none ≡ layout (suc h) q
set-layout zero r q = refl
set-layout (suc h) r q = ap (λ t. none ∷ t) (set-layout h r q)

pub layout-append :
    (h : ℕ) (q : List FrameRecord) (r : FrameRecord)
    → layout h q ++ (some r ∷ []) ≡ layout h (q ++ (r ∷ []))
layout-append zero [] r = refl
layout-append zero (x ∷ q) r = ap (λ t. some x ∷ t) (layout-append zero q r)
layout-append (suc h) q r = ap (λ t. none ∷ t) (layout-append h q r)

last-map :
    (lo : ℕ) (r : FrameRecord) (q : List FrameRecord)
    → seq_of (get_elem? (map some (r ∷ q)) (length q)) ≡ last_seq_of lo (r ∷ q)
last-map lo r [] = refl
last-map lo r (x ∷ q) = last-map r.seq x q

-- The entry that `stage` compares with.
pub last-layout :
    (h lo : ℕ) (r : FrameRecord) (q : List FrameRecord)
    → seq_of (get_elem? (layout h (r ∷ q)) (h + length q)) ≡ last_seq_of lo (r ∷ q)
last-layout zero lo r q =
    ap (λ (k : ℕ). seq_of (get_elem? (map some (r ∷ q)) k)) {x = 0 + length q} {y = length q}
      (omega arith)
    ∙ last-map lo r q
last-layout (suc h) lo r q =
    ap (λ (k : ℕ). seq_of (get_elem? (none ∷ layout h (r ∷ q)) k)) {x = suc h + length q}
      {y = suc (h + length q)} (omega arith)
    ∙ last-layout h lo r q

pub deref-map : (q : List FrameRecord) → deref (map some q) ≡ q
deref-map [] = refl
deref-map (r ∷ q) = ap (λ t. r ∷ t) (deref-map q)

pub drop-map : (n : ℕ) (q : List FrameRecord) → drop n (map some q) ≡ map some (drop n q)
drop-map zero q = refl
drop-map (suc n) [] = refl
drop-map (suc n) (r ∷ q) = drop-map n q

-- How many records of the queue are acknowledged by `last_seq`.
abbrev pub older : ℕ → List FrameRecord → ℕ
older last_seq q = length q - length (newer last_seq q)

length-newer-le : (last_seq : ℕ) (q : List FrameRecord) → length (newer last_seq q) ≤ length q
length-newer-le last_seq [] = omega arith
length-newer-le last_seq (r ∷ q) = ground (arith, length-newer-le last_seq q)

pub drop-older :
    (last_seq lo : ℕ) (q : List FrameRecord)
    → Increasing lo q
    → drop (older last_seq q) q ≡ newer last_seq q
drop-older last_seq lo [] i = refl
drop-older last_seq lo (r ∷ q) i = elim (Bool-cases (ltb last_seq r.seq)) [
  | inl h ↦
      rw (h, newer_all last_seq r.seq q (omega (arith, ltb→lt last_seq r.seq h)) i.1)
        (ap (λ (k : ℕ). drop k (r ∷ q)) {x = length (r ∷ q) - length (r ∷ q)} {y = zero}
          (omega arith))
  | inr h ↦ rw h (
      ap (λ (k : ℕ). drop k (r ∷ q)) {x = length (r ∷ q) - length (newer last_seq q)}
        {y = suc (older last_seq q)} (omega (arith, length-newer-le last_seq q))
      ∙ drop-older last_seq r.seq q i.1)
]

Increasing-get_elem? :
    (lo : ℕ) (q : List FrameRecord) (k : ℕ)
    → Increasing lo q
    → k < length q
    → lo < seq_of (get_elem? (map some q) k)
Increasing-get_elem? lo [] k i h = elim h [ ]
Increasing-get_elem? lo (r ∷ q) zero i h = i.0
Increasing-get_elem? lo (r ∷ q) (suc k) i h =
    omega (arith, Increasing-get_elem? r.seq q k i.1 (omega arith), i.0)

pub older-cons_old :
    (last_seq : ℕ) (r : FrameRecord) (q : List FrameRecord)
    → ltb last_seq r.seq ≡ false
    → older last_seq (r ∷ q) ≡ suc (older last_seq q)
older-cons_old last_seq r q old = rw old (omega (arith, length-newer-le last_seq q))

threshold_new :
    (last_seq lo : ℕ) (r : FrameRecord) (q : List FrameRecord) (k : ℕ)
    → Increasing lo (r ∷ q)
    → k < length (r ∷ q)
    → ltb last_seq r.seq ≡ true
    → ltb last_seq (seq_of (get_elem? (map some (r ∷ q)) k)) ≡ leb (older last_seq (r ∷ q)) k
threshold_new last_seq lo r q k i h new =
    lt→ltb _ _ (Increasing-get_elem? last_seq (r ∷ q) k (ltb→lt last_seq r.seq new, i.1) h)
    ∙ sym (
        le→leb _ _ (
          omega (
            arith,
            ap length (
                newer_all last_seq last_seq (r ∷ q) (omega arith) (ltb→lt last_seq r.seq new, i.1)),
          )))

threshold_old :
    (last_seq : ℕ) (r : FrameRecord) (q : List FrameRecord) (k : ℕ)
    → ltb last_seq r.seq ≡ false
    → k < length (r ∷ q)
    → ((k' : ℕ)
        → k' < length q
        → ltb last_seq (seq_of (get_elem? (map some q) k')) ≡ leb (older last_seq q) k')
    → ltb last_seq (seq_of (get_elem? (map some (r ∷ q)) k)) ≡ leb (older last_seq (r ∷ q)) k
threshold_old last_seq r q zero old h ih =
    old ∙ sym (leb-false _ _ (omega (arith, older-cons_old last_seq r q old)))
threshold_old last_seq r q (suc k) old h ih =
    ih k (omega arith)
    ∙ sym (ap (λ (n : ℕ). leb n (suc k)) (older-cons_old last_seq r q old) ∙ ground arith)

-- The test that `snapshot_from` searches with has its threshold there.
pub threshold :
    (last_seq lo : ℕ) (q : List FrameRecord) (k : ℕ)
    → Increasing lo q
    → k < length q
    → ltb last_seq (seq_of (get_elem? (map some q) k)) ≡ leb (older last_seq q) k
threshold last_seq lo [] k i h = elim h [ ]
threshold last_seq lo (r ∷ q) k i h = elim (Bool-cases (ltb last_seq r.seq)) [
  | inl new ↦ threshold_new last_seq lo r q k i h new
  | inr old ↦ threshold_old last_seq r q k old h (λ k' h'. threshold last_seq r.seq q k' i.1 h')
]

pub older-le : (last_seq : ℕ) (q : List FrameRecord) → older last_seq q ≤ length q
older-le last_seq q = omega arith
