-- ===== src/Runtime/Log.antt =====
-- The frames of one direction by their numbers, and what a transport still carries of them.
use adaptivemsg_go.Frame.{Frame, control_stream_id}
use adaptivemsg_go.Prelude.{
  All, Bool-cases, List, [], ap, arith, drop, false, get_elem?, if◌then◌else◌, inl, inr, length,
  ltb, ltb→lt, map, refl, some, some-inj, subst, suc, sym, take, true, zero, ℕ, ◌++◌, ◌+◌, ◌-◌, ◌<◌,
  ◌==◌, ◌∙◌, ◌∷◌, ◌≡◌, ◌≤◌,
}
use adaptivemsg_go.Replay.{FrameRecord}
use adaptivemsg_go.Replay.Queue.{newer}
use adaptivemsg_go.Runtime.{frame_of}

abbrev pub IsData : Frame → Type 0
IsData f = (f.stream_id == control_stream_id) ≡ false

-- Numbers without a gap, from above `lo`.
abbrev pub Consecutive : ℕ → List Frame → Type 0
Consecutive lo [] = Unit {0}
Consecutive lo (f ∷ fs) = (f.seq ≡ suc lo) × Consecutive (suc lo) fs

abbrev pub newer_frames : ℕ → List Frame → List Frame
newer_frames n [] = []
newer_frames n (f ∷ fs) = if ltb n f.seq then f ∷ newer_frames n fs else newer_frames n fs

pub map-newer :
    (n : ℕ) (rs : List FrameRecord) → map frame_of (newer n rs) ≡ newer_frames n (map frame_of rs)
map-newer n [] = refl
map-newer n (r ∷ rs) = elim (Bool-cases (ltb n r.seq)) [
  | inl h ↦ rw h (ap (λ t. frame_of r ∷ t) (map-newer n rs))
  | inr h ↦ rw h (map-newer n rs)
]

pub Consecutive-append :
    (lo : ℕ) (fs : List Frame) (f : Frame)
    → Consecutive lo fs
    → f.seq ≡ lo + length fs + 1
    → Consecutive lo (fs ++ (f ∷ []))
Consecutive-append lo [] f c e = (omega (arith, e), tt)
Consecutive-append lo (g ∷ fs) f c e =
    (c.0, Consecutive-append (suc lo) fs f c.1 (omega (arith, e)))

pub drop_nil {ℓ} : {A : Type ℓ} (n : ℕ) → drop {A = A} n [] ≡ []
drop_nil zero = refl
drop_nil (suc n) = refl

-- Numbers above `n` are those behind the first `n - lo` frames.
pub newer_frames-drop :
    (n lo : ℕ) (fs : List Frame) → Consecutive lo fs → newer_frames n fs ≡ drop (n - lo) fs
newer_frames-drop n lo [] c = sym (drop_nil (n - lo))
newer_frames-drop n lo (f ∷ fs) c = elim (Bool-cases (ltb n f.seq)) [
  | inl h ↦
      let low : n ≤ lo = omega (arith, ltb→lt n f.seq h, c.0) in
      rw h (
        ap (λ t. f ∷ t)
          (newer_frames-drop n (suc lo) fs c.1 ∙ ap (λ (k : ℕ). drop k fs) {y = 0} (omega arith))
        ∙ ap (λ (k : ℕ). drop k (f ∷ fs)) {x = 0} (omega arith))
  | inr h ↦
      let high : lo < n = ground (arith, h, c.0) in
      rw h (
        newer_frames-drop n (suc lo) fs c.1
        ∙ ap (λ (k : ℕ). drop k (f ∷ fs)) {x = suc (n - suc lo)} (omega arith))
]

pub Consecutive-drop :
    (lo n : ℕ) (fs : List Frame) → Consecutive lo fs → Consecutive (lo + n) (drop n fs)
Consecutive-drop lo zero fs c =
    subst (λ (k : ℕ). Consecutive k fs) {x = lo} {y = lo + 0} (omega arith) c
Consecutive-drop lo (suc n) [] c = tt
Consecutive-drop lo (suc n) (f ∷ fs) c =
    subst (λ (k : ℕ). Consecutive k (drop n fs)) {x = suc lo + n} {y = lo + suc n} (omega arith)
      (Consecutive-drop (suc lo) n fs c.1)

-- What is on its way to a receiver that has the first `h` frames: it drops old ones, gets the next
-- one each time, and ends with the first `end` frames. Control frames do not count.
pub data Flows (log : List Frame) : ℕ → List Frame → ℕ → Type 0 where
  arrived : {h : ℕ} → Flows log h [] h
  control :
      {h end : ℕ} {f : Frame} {fs : List Frame}
      → (f.stream_id == control_stream_id) ≡ true
      → Flows log h fs end
      → Flows log h (f ∷ fs) end
  old :
      {h end : ℕ} {f : Frame} {fs : List Frame}
      → IsData f
      → 0 < f.seq
      → f.seq ≤ h
      → Flows log h fs end
      → Flows log h (f ∷ fs) end
  next :
      {h end : ℕ} {f : Frame} {fs : List Frame}
      → IsData f
      → f.seq ≡ suc h
      → get_elem? log h ≡ some f
      → Flows log (suc h) fs end
      → Flows log h (f ∷ fs) end

pub Flows-le : {log : List Frame} {h end : ℕ} {fs : List Frame} → Flows log h fs end → h ≤ end
Flows-le arrived = omega arith
Flows-le (control c r) = Flows-le r
Flows-le (old d p l r) = Flows-le r
Flows-le (next d e g r) = omega (arith, Flows-le r)

-- More frames at the end.
pub Flows-append :
    {log : List Frame} {h end last : ℕ} {fs gs : List Frame}
    → Flows log h fs end
    → Flows log end gs last
    → Flows log h (fs ++ gs) last
Flows-append arrived t = t
Flows-append (control c r) t = control c (Flows-append r t)
Flows-append (old d p l r) t = old d p l (Flows-append r t)
Flows-append (next d e g r) t = next d e g (Flows-append r t)

-- A transport that is lost carries a front of it.
pub Flows-take :
    {log : List Frame} {h end : ℕ} {fs : List Frame} (n : ℕ)
    → Flows log h fs end
    → (last : ℕ) × (last ≤ end) × Flows log h (take n fs) last
Flows-take {h = h} zero r = (h, Flows-le r, arrived)
Flows-take {h = h} (suc n) arrived = (h, omega arith, arrived)
Flows-take (suc n) (control c r) = let (last, l, t) = Flows-take n r in (last, l, control c t)
Flows-take (suc n) (old d p k r) = let (last, l, t) = Flows-take n r in (last, l, old d p k t)
Flows-take (suc n) (next d e g r) = let (last, l, t) = Flows-take n r in (last, l, next d e g t)

pub get_elem?-append {ℓ} :
    {A : Type ℓ} (xs ys : List A) (i : ℕ) {a : A}
    → get_elem? xs i ≡ some a
    → get_elem? (xs ++ ys) i ≡ some a
get_elem?-append [] ys i e = absurd (cc)
get_elem?-append (x ∷ xs) ys zero e = e
get_elem?-append (x ∷ xs) ys (suc i) e = get_elem?-append xs ys i e

-- A longer log changes nothing for what is on its way.
pub Flows-log :
    {log : List Frame} (more : List Frame) {h end : ℕ} {fs : List Frame}
    → Flows log h fs end
    → Flows (log ++ more) h fs end
Flows-log more arrived = arrived
Flows-log more (control c r) = control c (Flows-log more r)
Flows-log more (old d p l r) = old d p l (Flows-log more r)
Flows-log {log} more (next {h = h} d e g r) =
    next d e (get_elem?-append log more h g) (Flows-log more r)

pub take-grow {ℓ} :
    {A : Type ℓ} (xs : List A) (n : ℕ) {a : A}
    → get_elem? xs n ≡ some a
    → take (suc n) xs ≡ take n xs ++ (a ∷ [])
take-grow [] n e = absurd (cc)
take-grow (x ∷ xs) zero e = ap (λ t. t ∷ []) (some-inj e)
take-grow (x ∷ xs) (suc n) e = ap (λ t. x ∷ t) (take-grow xs n e)

pub take-append_short {ℓ} :
    {A : Type ℓ} (xs ys : List A) (n : ℕ) → n ≤ length xs → take n (xs ++ ys) ≡ take n xs
take-append_short xs ys zero h = refl
take-append_short [] ys (suc n) h = absurd (omega arith)
take-append_short (x ∷ xs) ys (suc n) h = ap (λ t. x ∷ t) (take-append_short xs ys n (omega arith))

pub drop-append_short {ℓ} :
    {A : Type ℓ} (xs ys : List A) (n : ℕ) → n ≤ length xs → drop n (xs ++ ys) ≡ drop n xs ++ ys
drop-append_short xs ys zero h = refl
drop-append_short [] ys (suc n) h = absurd (omega arith)
drop-append_short (x ∷ xs) ys (suc n) h = drop-append_short xs ys n (omega arith)

pub drop-drop {ℓ} : {A : Type ℓ} (n m : ℕ) (xs : List A) → drop n (drop m xs) ≡ drop (m + n) xs
drop-drop n zero xs = ap (λ (k : ℕ). drop k xs) {x = n} {y = 0 + n} (omega arith)
drop-drop n (suc m) [] = drop_nil n ∙ sym (drop_nil (suc m + n))
drop-drop n (suc m) (x ∷ xs) =
    drop-drop n m xs
    ∙ ap (λ (k : ℕ). drop k (x ∷ xs)) {x = suc (m + n)} {y = suc m + n} (omega arith)

-- The first frame of what is left, and its number.
pub drop_cons {ℓ} :
    {A : Type ℓ} (k : ℕ) (xs ys : List A) {y : A}
    → drop k xs ≡ y ∷ ys
    → (get_elem? xs k ≡ some y) × (drop (suc k) xs ≡ ys)
drop_cons zero [] ys e = absurd (cc)
drop_cons zero (x ∷ xs) ys e = (cc, cc)
drop_cons (suc k) [] ys e = absurd (cc)
drop_cons (suc k) (x ∷ xs) ys e = drop_cons k xs ys e

pub Consecutive-get_elem? :
    (lo k : ℕ) (fs : List Frame) {f : Frame}
    → Consecutive lo fs
    → get_elem? fs k ≡ some f
    → f.seq ≡ suc (lo + k)
Consecutive-get_elem? lo k [] c e = absurd (cc)
Consecutive-get_elem? lo zero (g ∷ fs) c e =
    omega (arith, c.0, ap (λ (t : Frame). t.seq) (some-inj e))
Consecutive-get_elem? lo (suc k) (g ∷ fs) c e =
    omega (arith, Consecutive-get_elem? (suc lo) k fs c.1 e)

pub All-get_elem? {ℓ κ} :
    {A : Type ℓ} (P : A → Type κ) (xs : List A) (k : ℕ) {a : A}
    → All P xs
    → get_elem? xs k ≡ some a
    → P a
All-get_elem? P [] k h e = absurd (cc)
All-get_elem? P (x ∷ xs) zero h e = subst P (some-inj e) h.0
All-get_elem? P (x ∷ xs) (suc k) h e = All-get_elem? P xs k h.1 e

pub get_elem?-last {ℓ} :
    {A : Type ℓ} (xs : List A) (a : A) → get_elem? (xs ++ (a ∷ [])) (length xs) ≡ some a
get_elem?-last [] a = refl
get_elem?-last (x ∷ xs) a = get_elem?-last xs a

pub get_elem?-lt {ℓ} :
    {A : Type ℓ} (xs : List A) (k : ℕ) {a : A} → get_elem? xs k ≡ some a → k < length xs
get_elem?-lt [] k e = absurd (cc)
get_elem?-lt (x ∷ xs) zero e = omega arith
get_elem?-lt (x ∷ xs) (suc k) e = omega (arith, get_elem?-lt xs k e)
