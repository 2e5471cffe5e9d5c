-- ===== src/Random/Tests.antt =====
-- The theorems on randomness with short sources.
use pq_key_establishment_mav.Base.{ℕ, ◌<◌, arith, true, false, [], ◌∷◌}
use pq_key_establishment_mav.Random.{got, interrupted, failed, Sources, randombytes}
use pq_key_establishment_mav.Random.Buffer.{
  IsRandom, randombytes-IsRandom, IsReturned, randombytes-IsReturned,
}

abbrev flaky : Sources
flaky = record {
  getrandom = got (7 ∷ []) ∷ interrupted ∷ failed ∷ failed ∷ [];
  opens = true;
  urandom = interrupted ∷ got (8 ∷ 9 ∷ []) ∷ failed ∷ failed ∷ [];
}

abbrev IsByte : ℕ → Type 0
IsByte b = b < 256

randombytes-IsRandom_example : IsRandom IsByte 3 false (randombytes flaky false (0 ∷ 0 ∷ 0 ∷ []))
randombytes-IsRandom_example =
    randombytes-IsRandom IsByte flaky false (0 ∷ 0 ∷ 0 ∷ []) ((omega arith, tt), tt)
      ((omega arith, (omega arith, tt)), tt)

randombytes-IsReturned_example : IsReturned (randombytes flaky false (0 ∷ 0 ∷ 0 ∷ []))
randombytes-IsReturned_example =
    randombytes-IsReturned flaky false (0 ∷ 0 ∷ 0 ∷ []) (omega arith) (omega arith)
