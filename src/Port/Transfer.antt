-- ===== src/Port/Transfer.antt =====
-- What `read_full` and `write_full` transfer.
use adaptivemsg_go.Bytes.{Bytes}
use adaptivemsg_go.Errors.{Error, Result, err, ok, short_write}
use adaptivemsg_go.Port.{Port, WriteOutcome, read_full, write_full, write_loop}
use adaptivemsg_go.Prelude.{
  Bool-cases, List, Option-cases, [], ap, append-nil, append_assoc, arith, drop, drop-append, false,
  inl, inr, leb, length, length-append, length-take, le→leb, min, none, refl, some, sym, take,
  take-append, take-append-drop, true, ℕ, ◌++◌, ◌+◌, ◌==◌, ◌∙◌, ◌∷◌, ◌≡◌, ◌⊎◌,
}

pub read_full-append :
    (xs rest : Bytes) (p : Port)
    → p.input ≡ xs ++ rest
    → read_full (length xs) p ≡ (ok xs, record p { input = rest })
unfolding read_full
read_full-append xs rest p e =
    rw
      (
        e,
        length-append xs rest,
        le→leb (length xs) (length xs + length rest) (omega arith),
        take-append,
        drop-append,
      )
      refl

-- A read that succeeds returns the bytes asked for, and leaves those behind them.
pub read_full_ok :
    (n : ℕ) (p : Port) {xs : Bytes} {q : Port}
    → read_full n p ≡ (ok xs, q)
    → (length xs ≡ n)
      × (p.input ≡ xs ++ q.input)
      × (q.written ≡ p.written)
      × (q.counters ≡ p.counters)
unfolding read_full
read_full_ok n p {xs} {q} e = elim (Bool-cases (leb n (length p.input))) [
  | inl h ↦ ground (arith, length-take n p.input, take-append-drop n p.input)
  | inr h ↦ ground (arith)
]

pub write_full_all :
    (buf : Bytes) (p : Port)
    → p.script ≡ []
    → write_full buf p ≡ (ok tt, record p { written = p.written ++ buf })
unfolding write_full write_loop
write_full_all [] p e = rw (e, append-nil) refl
write_full_all (b ∷ bs) p e = rw e refl

-- What a write leaves behind: `front` went out, `back` did not.
pub record Sent (buf : Bytes) (p : Port) (out : Result (Unit {0}) × Port) : Type 0 where
  pub front : Bytes
  pub back : Bytes
  pub split : buf ≡ front ++ back
  pub grown : out.1.written ≡ p.written ++ front
  pub all_out : out.0 ≡ ok tt → back ≡ []
  pub input_kept : out.1.input ≡ p.input

write_loop-Sent :
    (script : List WriteOutcome) (buf : Bytes) (p : Port) → Sent buf p (write_loop script buf p)
unfolding write_loop
write_loop-Sent script [] p = record {
  front = [];
  back = [];
  split = refl;
  grown = sym (append-nil p.written);
  all_out = λ e. refl;
  input_kept = refl;
}
write_loop-Sent [] (b ∷ bs) p = record {
  front = b ∷ bs;
  back = [];
  split = sym (append-nil _);
  grown = refl;
  all_out = λ e. refl;
  input_kept = refl;
}
write_loop-Sent (o ∷ script) (b ∷ bs) p =
    go (Option-cases o.failure) (Bool-cases (n == 0)) (write_loop-Sent script (drop n (b ∷ bs)) p')
  where
    n : ℕ
    n = min o.taken (length (b ∷ bs))

    p' : Port
    p' = record p { script = script; written = p.written ++ take n (b ∷ bs) }

    stopped : (e : Error) → Sent (b ∷ bs) p (err e, p')
    stopped e = record {
      front = take n (b ∷ bs);
      back = drop n (b ∷ bs);
      split = sym (take-append-drop n (b ∷ bs));
      grown = refl;
      all_out = λ h. cc;
      input_kept = refl;
    }

    go :
        ((o.failure ≡ none) ⊎ ((e : Error) × (o.failure ≡ some e)))
        → ((n == 0) ≡ true) ⊎ ((n == 0) ≡ false)
        → Sent (drop n (b ∷ bs)) p' (write_loop script (drop n (b ∷ bs)) p')
        → Sent (b ∷ bs) p (write_loop (o ∷ script) (b ∷ bs) p)
    go (inr (e, h)) t s = rw h (stopped e)
    go (inl h) (inl t) s = rw (h, t) (stopped short_write)
    go (inl h) (inr t) s =
        rw (h, t)
          (record {
            front = take n (b ∷ bs) ++ s.front;
            back = s.back;
            split =
                sym (take-append-drop n (b ∷ bs))
                ∙ ap (λ r. take n (b ∷ bs) ++ r) s.split
                ∙ sym (append_assoc (take n (b ∷ bs)) s.front s.back);
            grown = s.grown ∙ append_assoc p.written (take n (b ∷ bs)) s.front;
            all_out = s.all_out;
            input_kept = s.input_kept;
          })

-- However the transport splits the writes, what `write_full` sends is a prefix of the buffer, the
-- whole buffer if it succeeds, and the bytes to read are left alone.
pub write_full-Sent : (buf : Bytes) (p : Port) → Sent buf p (write_full buf p)
unfolding write_full
write_full-Sent buf p = write_loop-Sent p.script buf p

pub read_full-written : (n : ℕ) (p : Port) → (read_full n p).1.written ≡ p.written
unfolding read_full
read_full-written n p = ground arith
