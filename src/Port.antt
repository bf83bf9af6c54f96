-- ===== src/Port.antt =====
-- A net.Conn as the code uses it: io.ReadFull, and writeFull of frame.go over Write calls that may
-- take less than they are given.
mod Tests
pub mod Transfer
use adaptivemsg_go.Bytes.{Bytes}
use adaptivemsg_go.Errors.{Error, Result, eof, err, ok, short_write, unexpected_eof}
use adaptivemsg_go.Prelude.{
  List, Option, [], ap, drop, if◌then◌else◌, leb, length, min, none, refl, some, take, ℕ, ◌++◌,
  ◌==◌, ◌∷◌, ◌≡◌,
}

-- What one call of Write does: it takes at most `taken` bytes, and may fail.
pub record WriteOutcome : Type 0 where
  pub taken : ℕ
  pub failure : Option Error

-- connectionDebugCounters, the part that frame.go counts. The counters are uint64.
pub record FrameCounters : Type 0 where
  pub frames_written : ℕ
  pub bytes_written : ℕ
  pub control_frames_written : ℕ
  pub frames_read : ℕ
  pub bytes_read : ℕ
  pub control_frames_read : ℕ

-- `input` is what the peer sends; after it the transport ends, with io.EOF if `ending` is `none`.
-- `script` tells what the next calls of Write do; after it each call takes all.
pub record Port : Type 0 where
  pub input : Bytes
  pub ending : Option Error
  pub script : List WriteOutcome
  pub written : Bytes
  pub counters : FrameCounters

-- A function with a net.Conn: the effects on the transport stay also when it fails.
abbrev pub Io {ℓ} : Type ℓ → Type ℓ
Io A = Port → Result A × Port

abbrev pub continue : {A B : Type 0} → Result A × Port → (A → Io B) → Result B × Port
continue (ok a, p) f = f a p
continue (err e, p) f = (err e, p)

infixl 5 ◌>>=◌ ◌>>◌
abbrev pub ◌>>=◌ : {A B : Type 0} → Io A → (A → Io B) → Io B
◌>>=◌ m f p = continue (m p) f

abbrev pub ◌>>◌ : {A B : Type 0} → Io A → Io B → Io B
m >> k = m >>= λ _. k

abbrev pub return : {A : Type 0} → A → Io A
return a p = (ok a, p)

abbrev pub fail : {A : Type 0} → Error → Io A
fail e p = (err e, p)

abbrev pub lift : {A : Type 0} → Result A → Io A
lift r p = (r, p)

-- `_ = f(conn)`: the result is dropped, the effects stay.
abbrev pub ignore : {A : Type 0} → Io A → Io (Unit {0})
ignore m p = (ok tt, (m p).1)

-- What `io.ReadFull` returns where the transport ends after some bytes, or after none.
abbrev short_read : Option Error → Bytes → Error
short_read (some e) got = e
short_read none [] = eof
short_read none (b ∷ bs) = unexpected_eof

-- `io.ReadFull` into a buffer of `n` bytes
unfoldable pub read_full : ℕ → Io Bytes
read_full n p =
    if leb n (length p.input)
    then (ok (take n p.input), record p { input = drop n p.input })
    else (err (short_read p.ending p.input), record p { input = [] })

-- The rounds of `writeFull` while the script lasts. The list of outcomes gets shorter in every
-- round; when it is used up, one call of Write takes the rest.
write_loop : List WriteOutcome → Bytes → Io (Unit {0})
write_loop script [] p = (ok tt, record p { script = script })
write_loop [] (b ∷ bs) p = (ok tt, record p { script = []; written = p.written ++ (b ∷ bs) })
write_loop (o ∷ script) (b ∷ bs) p =
    let n = min o.taken (length (b ∷ bs)) in
    let p' = record p { script = script; written = p.written ++ take n (b ∷ bs) } in
    let rest = write_loop script (drop n (b ∷ bs)) p' in
    elim o.failure [ some e ↦ (err e, p') | none ↦ if n == 0 then (err short_write, p') else rest ]

unfoldable pub write_full : Bytes → Io (Unit {0})
unfolding write_loop
write_full buf p = write_loop p.script buf p

-- One step of a `do` block, once the outcome of its first action is known.
pub >>=-ok :
    {A B : Type 0} (m : Io A) (f : A → Io B) {p p' : Port} {a : A}
    → m p ≡ (ok a, p')
    → (m >>= f) p ≡ f a p'
>>=-ok m f e = ap (λ r. continue r f) e

pub >>=-err :
    {A B : Type 0} (m : Io A) (f : A → Io B) {p p' : Port} {e : Error}
    → m p ≡ (err e, p')
    → (m >>= f) p ≡ (err e, p')
>>=-err m f h = ap (λ r. continue r f) h

-- A `do` block that succeeds: its first action did.
pub >>=-eq-ok :
    {A B : Type 0} (m : Io A) (f : A → Io B) {p q : Port} {b : B}
    → (m >>= f) p ≡ (ok b, q)
    → (a : A) × (p' : Port) × (m p ≡ (ok a, p')) × (f a p' ≡ (ok b, q))
>>=-eq-ok {A} {B} m f {p} {q} {b} h = go (m p) refl h
  where
    go :
        (r : Result A × Port)
        → m p ≡ r
        → continue r f ≡ (ok b, q)
        → (a : A) × (p' : Port) × (m p ≡ (ok a, p')) × (f a p' ≡ (ok b, q))
    go (ok a, p') e t = (a, p', e, t)
    go (err x, p') e t = absurd (cc)

-- A last step that only looks at the value leaves the transport as it is.
pub >>=-lift :
    {A B : Type 0} (m : Io A) (f : A → Result B) (p : Port)
    → ((m >>= λ a. lift (f a)) p).1 ≡ (m p).1
>>=-lift {A} m f p = go (m p)
  where
    go : (r : Result A × Port) → (continue r (λ a. lift (f a))).1 ≡ r.1
    go (ok a, q) = refl
    go (err e, q) = refl
