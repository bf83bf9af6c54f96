-- ===== src/Compact/Headers.antt =====
-- readArrayHeader and readStringValue against the MessagePack format.
use adaptivemsg_go.Bytes.{Bytes}
use adaptivemsg_go.Compact.Envelope.{
  array16_code, array_header_from, is_fixed_array, read_array_header, read_string_header,
  read_string_value, string_behind,
}
use adaptivemsg_go.Prelude.{
  Bool-cases, [], ap, arith, drop-append, false, inl, inr, length, length-append, ltb-false, refl,
  some, take-append, true, ℕ, ◌*◌, ◌++◌, ◌+◌, ◌<◌, ◌==◌, ◌∙◌, ◌∷◌, ◌≡◌, ◌⊎◌,
}

-- The headers that the format has for an array of `n` elements: the length in the first byte, or in
-- two or four bytes behind it.
pub data ArrayHeader (n : ℕ) (h : Bytes) : Type 0 where
  array_short : n < 16 → h ≡ (0x90 + n) ∷ [] → ArrayHeader n h
  array_two : (a b : ℕ) → n ≡ a * 256 + b → h ≡ 0xdc ∷ a ∷ b ∷ [] → ArrayHeader n h
  array_four :
      (a b c d : ℕ)
      → n ≡ ((a * 256 + b) * 256 + c) * 256 + d
      → h ≡ 0xdd ∷ a ∷ b ∷ c ∷ d ∷ []
      → ArrayHeader n h

-- And those for a string, or for bytes, of length `n`.
pub data StringHeader (n : ℕ) (h : Bytes) : Type 0 where
  string_short : n < 32 → h ≡ (0xa0 + n) ∷ [] → StringHeader n h
  string_one : (t : ℕ) → (t ≡ 0xd9) ⊎ (t ≡ 0xc4) → h ≡ t ∷ n ∷ [] → StringHeader n h
  string_two :
      (t a b : ℕ)
      → (t ≡ 0xda) ⊎ (t ≡ 0xc5)
      → n ≡ a * 256 + b
      → h ≡ t ∷ a ∷ b ∷ []
      → StringHeader n h
  string_four :
      (t a b c d : ℕ)
      → (t ≡ 0xdb) ⊎ (t ≡ 0xc6)
      → n ≡ ((a * 256 + b) * 256 + c) * 256 + d
      → h ≡ t ∷ a ∷ b ∷ c ∷ d ∷ []
      → StringHeader n h

-- The reader takes every header of the format.
pub read_array_header-ArrayHeader :
    {n : ℕ} {h : Bytes} (rest : Bytes)
    → ArrayHeader n h
    → read_array_header (h ++ rest) ≡ some (n, rest)
unfolding read_array_header
read_array_header-ArrayHeader rest (array_short lt e) = rw e (ground arith)
read_array_header-ArrayHeader rest (array_two a b en e) = rw e (ground arith)
read_array_header-ArrayHeader rest (array_four a b c d en e) = rw e (ground arith)

read_string_header-StringHeader :
    {n : ℕ} {h : Bytes} (rest : Bytes)
    → StringHeader n h
    → read_string_header (h ++ rest) ≡ some (n, rest)
unfolding read_string_header
read_string_header-StringHeader rest (string_short lt e) = rw e (ground arith)
read_string_header-StringHeader rest (string_one t et e) = rw e (ground arith)
read_string_header-StringHeader rest (string_two t a b et en e) = rw e (ground arith)
read_string_header-StringHeader rest (string_four t a b c d et en e) = rw e (ground arith)

string_behind-append :
    (s rest : Bytes) → string_behind (some (length s, s ++ rest)) ≡ some (s, rest)
string_behind-append s rest =
    rw (ltb-false (length (s ++ rest)) (length s) (omega (arith, length-append s rest)))
      (rw (take-append s rest) (rw (drop-append s rest)))

pub read_string_value-StringHeader :
    (s : Bytes) {h : Bytes} (rest : Bytes)
    → StringHeader (length s) h
    → read_string_value (h ++ (s ++ rest)) ≡ some (s, rest)
unfolding read_string_value
read_string_value-StringHeader s rest sh =
    ap string_behind (read_string_header-StringHeader (s ++ rest) sh) ∙ string_behind-append s rest

-- A header behind the first byte, where that is no short one.
array_two_by :
    (c a b : ℕ) (bs : Bytes) {n : ℕ} {rest : Bytes}
    → is_fixed_array c ≡ false
    → (c == array16_code) ≡ true
    → array_header_from c (a ∷ b ∷ bs) ≡ some (n, rest)
    → (h : Bytes) × ArrayHeader n h × (c ∷ a ∷ b ∷ bs ≡ h ++ rest)
array_two_by c a b bs other two e =
    (0xdc ∷ a ∷ b ∷ [], array_two a b (ground arith) refl, ground arith)

array_long_by :
    (c : ℕ) (bs : Bytes) {n : ℕ} {rest : Bytes}
    → is_fixed_array c ≡ false
    → array_header_from c bs ≡ some (n, rest)
    → (h : Bytes) × ArrayHeader n h × (c ∷ bs ≡ h ++ rest)
array_long_by c [] other e = absurd (ground arith)
array_long_by c (a ∷ []) other e = absurd (ground arith)
array_long_by c (a ∷ b ∷ []) other e = array_two_by c a b [] other (ground arith) e
array_long_by c (a ∷ b ∷ x ∷ []) other e = array_two_by c a b (x ∷ []) other (ground arith) e
array_long_by c (a ∷ b ∷ x ∷ y ∷ bs) other e = elim (Bool-cases (c == array16_code)) [
  | inl two ↦ array_two_by c a b (x ∷ y ∷ bs) other two e
  | inr four ↦ (0xdd ∷ a ∷ b ∷ x ∷ y ∷ [], array_four a b x y (ground arith) refl, ground arith)
]

header_by :
    (c : ℕ) (bs : Bytes) {n : ℕ} {rest : Bytes}
    → array_header_from c bs ≡ some (n, rest)
    → (h : Bytes) × ArrayHeader n h × (c ∷ bs ≡ h ++ rest)
header_by c bs {n} {rest} e = elim (Bool-cases (is_fixed_array c)) [
  | inl fix ↦ (c ∷ [], array_short (ground arith) (ground arith), ground arith)
  | inr other ↦ array_long_by c bs other e
]

-- And takes nothing else.
pub ArrayHeader-read_array_header :
    (bs : Bytes) {n : ℕ} {rest : Bytes}
    → read_array_header bs ≡ some (n, rest)
    → (h : Bytes) × ArrayHeader n h × (bs ≡ h ++ rest)
unfolding read_array_header
ArrayHeader-read_array_header [] e = absurd (cc)
ArrayHeader-read_array_header (c ∷ bs) e = header_by c bs e
