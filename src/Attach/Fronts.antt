-- ===== src/Attach/Fronts.antt =====
-- What the two attach messages begin with.
use adaptivemsg_go.Bytes.{Bytes}
use adaptivemsg_go.Prelude.{
  ap, append_assoc, ap₂, arith, copy_at, copy_at-skip, length, length-append, overwrite-append,
  replicate, slice, slice-skip, slice_front, sym, take, take_all, ℕ, ◌++◌, ◌∙◌, ◌∷◌, ◌≡◌,
}

-- The fields that an attach message begins with: the mode or the status, and the two tokens.
abbrev pub front : ℕ → Bytes → Bytes → Bytes
front mode id secret = mode ∷ 0 ∷ 0 ∷ 0 ∷ (id ++ secret)

module _ (mode : ℕ) (id secret : Bytes) (a : length id ≡ 16) (b : length secret ≡ 16) where
  pub length-front : length (front mode id secret) ≡ 36
  length-front = omega (arith, length-append id secret)

  token_whole : (t : Bytes) → length t ≡ 16 → take 16 t ≡ t
  token_whole t e = ap (λ (n : ℕ). take n t) (sym e) ∙ take_all t

  -- Copying the tokens into the zeroed array.
  pub filled :
      (zeros : Bytes)
      → copy_at
          (copy_at
            (mode ∷ 0 ∷ 0 ∷ 0 ∷ (replicate 16 0 ++ (replicate 16 0 ++ zeros)))
            4
            (take 16 id))
          20
          (take 16 secret)
        ≡ front mode id secret ++ zeros
  filled zeros =
      ap₂
        (λ s t.
          copy_at (copy_at (mode ∷ 0 ∷ 0 ∷ 0 ∷ (replicate 16 0 ++ (replicate 16 0 ++ zeros))) 4 s)
            20 t)
        (token_whole id a) (token_whole secret b)
      ∙ ap (λ t. copy_at (mode ∷ 0 ∷ 0 ∷ 0 ∷ t) 20 secret)
          (overwrite-append (replicate 16 0) (replicate 16 0 ++ zeros) id (sym a))
      ∙ copy_at-skip (mode ∷ 0 ∷ 0 ∷ 0 ∷ id) (replicate 16 0 ++ zeros) secret 20 0
          (omega (arith, a))
      ∙ ap (λ t. mode ∷ 0 ∷ 0 ∷ 0 ∷ (id ++ t))
          (overwrite-append (replicate 16 0) zeros secret (sym b))
      ∙ ap (λ t. mode ∷ 0 ∷ 0 ∷ 0 ∷ t) (sym (append_assoc id secret zeros))

  -- The tokens, read from the front.
  pub read_id : (tail : Bytes) → slice (front mode id secret ++ tail) 4 20 ≡ id
  read_id tail =
      ap (λ t. slice (mode ∷ 0 ∷ 0 ∷ 0 ∷ t) 4 20) (append_assoc id secret tail)
      ∙ slice_front id (secret ++ tail) 16 (sym a)

  pub read_secret : (tail : Bytes) → slice (front mode id secret ++ tail) 20 36 ≡ secret
  read_secret tail =
      ap (λ t. slice (mode ∷ 0 ∷ 0 ∷ 0 ∷ t) 20 36) (append_assoc id secret tail)
      ∙ slice-skip (mode ∷ 0 ∷ 0 ∷ 0 ∷ id) (secret ++ tail) 20 36 0 16 (omega (arith, a))
          (omega (arith, a))
      ∙ slice_front secret tail 16 (sym b)
