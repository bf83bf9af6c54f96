-- ===== src/Bytes.antt =====
-- Big-endian integers in byte slices, as encoding/binary writes and reads them.
use adaptivemsg_go.Prelude.{
  All, Bool, List, [], arith, eq_refl, false, ltb, refl, take, true, ℕ, ◌%◌, ◌&&◌, ◌*◌, ◌+◌, ◌/◌,
  ◌<◌, ◌==◌, ◌^◌, ◌∷◌, ◌≡◌,
}

abbrev pub IsByte : ℕ → Type 0
IsByte b = b < 256

abbrev pub Bytes : Type 0
Bytes = List ℕ

-- To check a literal.
abbrev pub all_bytes : Bytes → Bool
all_bytes [] = true
all_bytes (b ∷ bs) = ltb b 256 && all_bytes bs

pub All-IsByte : (bs : Bytes) → all_bytes bs ≡ true → All IsByte bs
All-IsByte [] h = tt
All-IsByte (b ∷ bs) h = (ground (arith, h), All-IsByte bs (ground (arith, h)))

-- `binary.BigEndian.PutUint32` and `PutUint64`
abbrev pub put_u32 : ℕ → Bytes
put_u32 v = v / 2 ^ 24 % 256 ∷ v / 2 ^ 16 % 256 ∷ v / 2 ^ 8 % 256 ∷ v % 256 ∷ []

abbrev pub put_u64 : ℕ → Bytes
put_u64 v =
    v / 2 ^ 56 % 256
    ∷ v / 2 ^ 48 % 256
    ∷ v / 2 ^ 40 % 256
    ∷ v / 2 ^ 32 % 256
    ∷ v / 2 ^ 24 % 256
    ∷ v / 2 ^ 16 % 256
    ∷ v / 2 ^ 8 % 256
    ∷ v % 256
    ∷ []

-- `binary.BigEndian.Uint32` and `Uint64`, most significant byte first. The callers pass slices of
-- the right length.
abbrev pub big_endian : ℕ → Bytes → ℕ
big_endian acc [] = acc
big_endian acc (b ∷ bs) = big_endian (acc * 256 + b) bs

abbrev pub get_u32 : Bytes → ℕ
get_u32 bs = big_endian 0 (take 4 bs)

abbrev pub get_u64 : Bytes → ℕ
get_u64 bs = big_endian 0 (take 8 bs)

pub get_u32-put_u32 : (v : ℕ) → v < 2 ^ 32 → get_u32 (put_u32 v) ≡ v
get_u32-put_u32 v h = omega arith

pub get_u64-put_u64 : (v : ℕ) → v < 2 ^ 64 → get_u64 (put_u64 v) ≡ v
get_u64-put_u64 v h = omega arith

-- `==` on strings and on arrays of bytes.
abbrev pub same_bytes : Bytes → Bytes → Bool
same_bytes [] [] = true
same_bytes [] (c ∷ cs) = false
same_bytes (b ∷ bs) [] = false
same_bytes (b ∷ bs) (c ∷ cs) = b == c && same_bytes bs cs

pub same_bytes-eq : (bs cs : Bytes) → same_bytes bs cs ≡ true → bs ≡ cs
same_bytes-eq [] [] h = refl
same_bytes-eq [] (c ∷ cs) h = cc
same_bytes-eq (b ∷ bs) [] h = cc
same_bytes-eq (b ∷ bs) (c ∷ cs) h = ground (arith, same_bytes-eq bs cs)

pub same_bytes_refl : (bs : Bytes) → same_bytes bs bs ≡ true
same_bytes_refl [] = refl
same_bytes_refl (b ∷ bs) = rw (eq_refl b) (same_bytes_refl bs)
