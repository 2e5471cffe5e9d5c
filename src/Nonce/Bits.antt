-- ===== src/Nonce/Bits.antt =====
-- Single bits of a shifted word and of a word cut to its width.
use pq_key_establishment_mav.Base.{
  ℕ, zero, suc, ◌+◌, ◌*◌, ◌/◌, ◌%◌, ◌^◌, ◌<◌, ◌≡◌, refl, sym, ap, ◌∙◌, false, arith, test_bit,
}
use native.Mathlib.Nat.{pow-suc, mul_assoc, mod-add-div'}

pow_twice : (q n : ℕ) → q * 2 ^ suc n ≡ q * 2 ^ n * 2
pow_twice q n = rw (pow-suc 2 n) (sym (mul_assoc q (2 ^ n) 2))

-- Bits below `n` do not see a multiple of 2 ^ n.
pub test_bit-add : (n i r q : ℕ) → i < n → test_bit (r + q * 2 ^ n) i ≡ test_bit r i
unfolding test_bit
test_bit-add zero i r q h = absurd (omega arith)
test_bit-add (suc n) zero r q h = rw (pow_twice q n) (ground arith)
test_bit-add (suc n) (suc i) r q h =
    let half : (r + q * 2 ^ n * 2) / 2 ≡ r / 2 + q * 2 ^ n = omega arith in
    rw (pow_twice q n) (rw half (test_bit-add n i (r / 2) q (omega arith)))

pub test_bit-mod : (n i m : ℕ) → i < n → test_bit (m % 2 ^ n) i ≡ test_bit m i
test_bit-mod n i m h =
    sym (test_bit-add n i (m % 2 ^ n) (m / 2 ^ n) h)
    ∙ ap (λ (t : ℕ). test_bit t i) (mod-add-div' m (2 ^ n))

twice : (x i : ℕ) → test_bit (x * 2) (suc i) ≡ test_bit x i
unfolding test_bit
twice x i = let half : x * 2 / 2 ≡ x = omega arith in rw half refl

pub test_bit-shift : (k j m : ℕ) → test_bit (m * 2 ^ k) (k + j) ≡ test_bit m j
test_bit-shift zero j m =
    let one : m * 2 ^ 0 ≡ m = omega arith in
    let same : 0 + j ≡ j = omega arith in rw (one, same) refl
test_bit-shift (suc k) j m =
    let next : suc k + j ≡ suc (k + j) = omega arith in
    rw (pow_twice m k, next) (twice (m * 2 ^ k) (k + j) ∙ test_bit-shift k j m)

pub test_bit-shift_low : (k i m : ℕ) → i < k → test_bit (m * 2 ^ k) i ≡ false
unfolding test_bit
test_bit-shift_low zero i m h = absurd (omega arith)
test_bit-shift_low (suc k) zero m h = rw (pow_twice m k) (ground arith)
test_bit-shift_low (suc k) (suc i) m h =
    rw (pow_twice m k) (twice (m * 2 ^ k) i ∙ test_bit-shift_low k i m (omega arith))
