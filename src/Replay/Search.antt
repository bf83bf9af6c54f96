-- ===== src/Replay/Search.antt =====
-- sort.Search finds the threshold of a monotone test.
use adaptivemsg_go.Prelude.{
  Bool, Bool-cases, arith, inl, inr, leb, leb→le, ltb, ltb→lt, suc, zero, ℕ, ◌+◌, ◌/◌, ◌<◌, ◌≡◌,
  ◌≤◌,
}
use adaptivemsg_go.Replay.{search_loop, sort_search}

search_loop-eq :
    (fuel : ℕ) (f : ℕ → Bool) (m n i j : ℕ)
    → ((k : ℕ) → k < n → f k ≡ leb m k)
    → i ≤ m
    → m ≤ j
    → j ≤ n
    → j ≤ i + fuel
    → search_loop fuel f i j ≡ m
unfolding search_loop
search_loop-eq zero f m n i j e hi hj hn hf = omega arith
search_loop-eq (suc fuel) f m n i j e hi hj hn hf = elim (Bool-cases (ltb i j)) [
  | inr stop ↦ rw stop (ground arith)
  | inl more ↦
      rw (more, e ((i + j) / 2) (omega (arith, ltb→lt i j more)))
        (elim (Bool-cases (leb m ((i + j) / 2))) [
          | inl t ↦ rw t (
              search_loop-eq fuel f m n i ((i + j) / 2) e hi (leb→le m _ t)
                (omega (arith, ltb→lt i j more)) (omega (arith, ltb→lt i j more)))
          | inr t ↦ rw t (
              search_loop-eq fuel f m n ((i + j) / 2 + 1) j e (ground arith) hj hn
                (omega (arith, ltb→lt i j more)))
        ])
]

-- The search returns the threshold `m`, whatever the test does at or behind `n`.
pub sort_search-eq :
    (n m : ℕ) (f : ℕ → Bool) → m ≤ n → ((k : ℕ) → k < n → f k ≡ leb m k) → sort_search n f ≡ m
unfolding sort_search
sort_search-eq n m f h e = search_loop-eq n f m n 0 n e (omega arith) h (omega arith) (omega arith)
