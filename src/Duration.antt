-- ===== src/Duration.antt =====
-- time.Duration: an int64 of nanoseconds, as its bit pattern. A pattern of 2 ^ 63 or more is a
-- negative number.
use adaptivemsg_go.Prelude.{Bool, leb, ltb, ℕ, ◌%◌, ◌*◌, ◌+◌, ◌<◌, ◌==◌, ◌^◌, ◌||◌}

abbrev pub millisecond : ℕ
millisecond = 1_000_000

abbrev pub second : ℕ
second = 1_000_000_000

-- `d <= 0`
abbrev pub is_not_positive : ℕ → Bool
is_not_positive d = d == 0 || leb (2 ^ 63) d

-- `a < b` on int64
abbrev pub signed_lt : ℕ → ℕ → Bool
signed_lt a b = ltb ((a + 2 ^ 63) % 2 ^ 64) ((b + 2 ^ 63) % 2 ^ 64)

-- `2 * d`, which wraps
abbrev pub double : ℕ → ℕ
double d = 2 * d % 2 ^ 64

-- A positive duration.
abbrev pub IsPositive : ℕ → Type 0
IsPositive d = (0 < d) × (d < 2 ^ 63)
