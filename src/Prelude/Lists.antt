-- ===== src/Prelude/Lists.antt =====
-- Lists measured and indexed by native numbers, under the library's names.
use Prim.Native.Nat.{ℕ, zero, suc, ◌+◌, ◌-◌, min}
use mathlib.Core.Path.{◌≡◌, refl, ap, ◌∙◌}
use mathlib.Core.List.{List, [], ◌∷◌, ◌++◌, map}
use mathlib.Core.Option.{Option, none, some}
use native.Mathlib.Omega.{arith}

module _ {ℓ} {A : Type ℓ} where
  abbrev pub length : List A → ℕ
  length [] = 0
  length (x ∷ xs) = suc (length xs)

  abbrev pub get_elem? : List A → ℕ → Option A
  get_elem? [] i = none
  get_elem? (x ∷ xs) zero = some x
  get_elem? (x ∷ xs) (suc i) = get_elem? xs i

  abbrev pub get_or : List A → ℕ → A → A
  get_or [] i d = d
  get_or (x ∷ xs) zero d = x
  get_or (x ∷ xs) (suc i) d = get_or xs i d

  -- A write out of bounds changes nothing.
  abbrev pub set : List A → ℕ → A → List A
  set [] i v = []
  set (x ∷ xs) zero v = v ∷ xs
  set (x ∷ xs) (suc i) v = x ∷ set xs i v

  abbrev pub take : ℕ → List A → List A
  take zero xs = []
  take (suc n) [] = []
  take (suc n) (x ∷ xs) = x ∷ take n xs

  abbrev pub drop : ℕ → List A → List A
  drop zero xs = xs
  drop (suc n) [] = []
  drop (suc n) (x ∷ xs) = drop n xs

  abbrev pub replicate : ℕ → A → List A
  replicate zero a = []
  replicate (suc n) a = a ∷ replicate n a

  abbrev pub All {κ} : (A → Type κ) → List A → Type κ
  All P [] = Unit {κ}
  All P (x ∷ xs) = P x × All P xs

module _ {ℓ} {A : Type ℓ} where
  -- `xs[lo:hi]`
  abbrev pub slice : List A → ℕ → ℕ → List A
  slice xs lo hi = take (hi - lo) (drop lo xs)

  -- `copy(dst, src)`, and `copy(dst[i:], src)`: what does not fit is left out.
  abbrev pub overwrite : List A → List A → List A
  overwrite dst [] = dst
  overwrite [] (y ∷ src) = []
  overwrite (x ∷ dst) (y ∷ src) = y ∷ overwrite dst src

  abbrev pub copy_at : List A → ℕ → List A → List A
  copy_at dst zero src = overwrite dst src
  copy_at [] (suc i) src = []
  copy_at (x ∷ dst) (suc i) src = x ∷ copy_at dst i src

  pub length-append : (xs ys : List A) → length (xs ++ ys) ≡ length xs + length ys
  length-append [] ys = omega arith
  length-append (x ∷ xs) ys = omega (arith, length-append xs ys)

  pub take-append-drop : (n : ℕ) (xs : List A) → take n xs ++ drop n xs ≡ xs
  take-append-drop zero xs = refl
  take-append-drop (suc n) [] = refl
  take-append-drop (suc n) (x ∷ xs) = rw (take-append-drop n xs)

  pub length-take : (n : ℕ) (xs : List A) → length (take n xs) ≡ min n (length xs)
  length-take zero xs = omega arith
  length-take (suc n) [] = omega arith
  length-take (suc n) (x ∷ xs) = omega (arith, length-take n xs)

  pub length-drop : (n : ℕ) (xs : List A) → length (drop n xs) ≡ length xs - n
  length-drop zero xs = omega arith
  length-drop (suc n) [] = omega arith
  length-drop (suc n) (x ∷ xs) = omega (arith, length-drop n xs)

  pub length-replicate : (n : ℕ) (a : A) → length (replicate n a) ≡ n
  length-replicate zero a = refl
  length-replicate (suc n) a = ap suc (length-replicate n a)

  pub take-append : (xs ys : List A) → take (length xs) (xs ++ ys) ≡ xs
  take-append [] ys = refl
  take-append (x ∷ xs) ys = ap (λ t. x ∷ t) (take-append xs ys)

  pub drop-append : (xs ys : List A) → drop (length xs) (xs ++ ys) ≡ ys
  drop-append [] ys = refl
  drop-append (x ∷ xs) ys = drop-append xs ys

  pub take_all : (xs : List A) → take (length xs) xs ≡ xs
  take_all [] = refl
  take_all (x ∷ xs) = ap (λ t. x ∷ t) (take_all xs)

  pub drop_all : (xs : List A) → drop (length xs) xs ≡ []
  drop_all [] = refl
  drop_all (x ∷ xs) = drop_all xs

pub length-map {ℓ κ} :
    {A : Type ℓ} {B : Type κ} (f : A → B) (xs : List A) → length (map f xs) ≡ length xs
length-map f [] = refl
length-map f (x ∷ xs) = ap suc (length-map f xs)

module _ {ℓ κ} {A : Type ℓ} where
  pub All-append :
      (P : A → Type κ) (front back : List A) → All P front → All P back → All P (front ++ back)
  All-append P [] back f b = b
  All-append P (a ∷ front) back (f, fs) b = (f, All-append P front back fs b)

  pub All-left : (P : A → Type κ) (xs ys : List A) → All P (xs ++ ys) → All P xs
  All-left P [] ys h = tt
  All-left P (x ∷ xs) ys h = (h.0, All-left P xs ys h.1)

  pub All-right : (P : A → Type κ) (xs ys : List A) → All P (xs ++ ys) → All P ys
  All-right P [] ys h = h
  All-right P (x ∷ xs) ys h = All-right P xs ys h.1

-- Reads and writes behind a front `xs`.
module _ {ℓ} {A : Type ℓ} where
  pub overwrite-append :
      (ys zs src : List A) → length ys ≡ length src → overwrite (ys ++ zs) src ≡ src ++ zs
  overwrite-append [] zs [] e = refl
  overwrite-append [] zs (s ∷ src) e = absurd (omega (arith, e))
  overwrite-append (y ∷ ys) zs [] e = absurd (omega (arith, e))
  overwrite-append (y ∷ ys) zs (s ∷ src) e =
      ap (λ t. s ∷ t) (overwrite-append ys zs src (omega (arith, e)))

  pub copy_at-skip :
      (xs ys src : List A) (n j : ℕ)
      → n ≡ length xs + j
      → copy_at (xs ++ ys) n src ≡ xs ++ copy_at ys j src
  copy_at-skip [] ys src n j e = ap (λ (k : ℕ). copy_at ys k src) (omega (arith, e))
  copy_at-skip (x ∷ xs) ys src zero j e = absurd (omega (arith, e))
  copy_at-skip (x ∷ xs) ys src (suc n) j e =
      ap (λ t. x ∷ t) (copy_at-skip xs ys src n j (omega (arith, e)))

  pub drop-skip : (xs ys : List A) (n j : ℕ) → n ≡ length xs + j → drop n (xs ++ ys) ≡ drop j ys
  drop-skip [] ys n j e = ap (λ (k : ℕ). drop k ys) (omega (arith, e))
  drop-skip (x ∷ xs) ys zero j e = absurd (omega (arith, e))
  drop-skip (x ∷ xs) ys (suc n) j e = drop-skip xs ys n j (omega (arith, e))

  pub slice-skip :
      (xs ys : List A) (lo hi l h : ℕ)
      → lo ≡ length xs + l
      → hi ≡ length xs + h
      → slice (xs ++ ys) lo hi ≡ slice ys l h
  slice-skip xs ys lo hi l h e f =
      ap (take (hi - lo)) (drop-skip xs ys lo l e)
      ∙ ap (λ (k : ℕ). take k (drop l ys)) (omega (arith, e, f))

  pub slice_front : (xs ys : List A) (n : ℕ) → n ≡ length xs → slice (xs ++ ys) 0 n ≡ xs
  slice_front xs ys n e =
      ap (λ (k : ℕ). take k (xs ++ ys)) {y = length xs} (omega (arith, e)) ∙ take-append xs ys
