-- ===== src/Streams/Table.antt =====
-- Looking up in the table.
use adaptivemsg_go.Prelude.{
  All, Bool-cases, List, [], arith, false, inl, inr, refl, some, some-inj, subst, sym, ℕ, ◌==◌, ◌∙◌,
  ◌∷◌, ◌≡◌,
}
use adaptivemsg_go.Streams.{Stream, find_stream, is_member, update_stream, without}

pub find_stream-update :
    (id : ℕ) (t : Stream) (m : List (ℕ × Stream)) {s : Stream}
    → find_stream id m ≡ some s
    → find_stream id (update_stream id t m) ≡ some t
find_stream-update id t [] e = absurd (cc)
find_stream-update id t ((i, u) ∷ m) {s} e = elim (Bool-cases (i == id)) [
  | inl h ↦ rw h (rw h refl)
  | inr h ↦ rw h (rw h (find_stream-update id t m {s = s} (sym (rw h refl) ∙ e)))
]

pub find_stream-update_other :
    (id other : ℕ) (t : Stream) (m : List (ℕ × Stream))
    → (other == id) ≡ false
    → find_stream other (update_stream id t m) ≡ find_stream other m
find_stream-update_other id other t [] n = refl
find_stream-update_other id other t ((i, u) ∷ m) n =
    ground (arith, n, find_stream-update_other id other t m n)

pub is_member-without :
    (id other : ℕ) (is : List ℕ) → is_member id is ≡ false → is_member id (without other is) ≡ false
is_member-without id other [] h = refl
is_member-without id other (i ∷ is) h = ground (arith, h, is_member-without id other is)

pub is_member-without_other :
    (id other : ℕ) (is : List ℕ)
    → (id == other) ≡ false
    → is_member id (without other is) ≡ is_member id is
is_member-without_other id other [] h = refl
is_member-without_other id other (i ∷ is) h =
    ground (arith, h, is_member-without_other id other is h)

-- Every stream in the table is open.
abbrev pub AllOpen : List (ℕ × Stream) → Type 0
AllOpen m = All (λ p. p.1.closed ≡ false) m

pub find_stream-open :
    (id : ℕ) (m : List (ℕ × Stream)) {s : Stream}
    → AllOpen m
    → find_stream id m ≡ some s
    → s.closed ≡ false
find_stream-open id [] o e = absurd (cc)
find_stream-open id ((i, u) ∷ m) {s} o e = elim (Bool-cases (i == id)) [
  | inl h ↦ subst (λ (t : Stream). t.closed ≡ false) {x = u} (some-inj (rw h at e)) o.0
  | inr h ↦ find_stream-open id m {s = s} o.1 (rw h at e)
]

pub update_stream-AllOpen :
    (id : ℕ) (t : Stream) (m : List (ℕ × Stream))
    → t.closed ≡ false
    → AllOpen m
    → AllOpen (update_stream id t m)
update_stream-AllOpen id t [] h o = tt
update_stream-AllOpen id t ((i, u) ∷ m) h o = elim (Bool-cases (i == id)) [
  | inl e ↦ rw e (h, o.1)
  | inr e ↦ rw e (o.0, update_stream-AllOpen id t m h o.1)
]
