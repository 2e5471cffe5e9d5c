-- ===== src/Base/Bits.antt =====
-- Single bits of a machine word, by recursion on the position, and the zero tests of `|` and `^`.
use native.Mathlib.Nat.{pow-suc}
use Prim.Native.Nat.{ℕ, zero, suc, ◌+◌, ◌*◌, ◌/◌, ◌%◌, ◌^◌, ◌≤◌, ◌<◌, max, differ, bit_or, bit_xor}
use Prim.Native.Nat.{digits, bit_or-bitwise, bit_xor-bitwise}
use mathlib.Core.Path.{◌≡◌, refl, sym, ap, ◌∙◌}
use mathlib.Core.Logic.{◌↔◌}
use mathlib.Core.Bool.{Bool, true, false}
use native.Mathlib.Omega.{arith}
use pq_key_establishment_mav.Base.Tests.{◌==◌, if◌then◌else◌}

-- (m >> i) & 1
unfoldable pub test_bit : ℕ → ℕ → Bool
test_bit m zero = m % 2 == 1
test_bit m (suc i) = test_bit (m / 2) i

-- m | (1 << i)
unfoldable pub set_bit : ℕ → ℕ → ℕ
set_bit m zero = m / 2 * 2 + 1
set_bit m (suc i) = set_bit (m / 2) i * 2 + m % 2

-- m & ~(1 << i)
unfoldable pub clear_bit : ℕ → ℕ → ℕ
clear_bit m zero = m / 2 * 2
clear_bit m (suc i) = clear_bit (m / 2) i * 2 + m % 2

pub test_bit-set_bit :
    (m i j : ℕ) → test_bit (set_bit m i) j ≡ (if i == j then true else test_bit m j)
unfolding test_bit set_bit
test_bit-set_bit m zero zero = ground arith
test_bit-set_bit m zero (suc j) = ground arith
test_bit-set_bit m (suc i) zero = ground arith
test_bit-set_bit m (suc i) (suc j) = ground (arith, test_bit-set_bit (m / 2) i j)

pub test_bit-clear_bit :
    (m i j : ℕ) → test_bit (clear_bit m i) j ≡ (if i == j then false else test_bit m j)
unfolding test_bit clear_bit
test_bit-clear_bit m zero zero = ground arith
test_bit-clear_bit m zero (suc j) = ground arith
test_bit-clear_bit m (suc i) zero = ground arith
test_bit-clear_bit m (suc i) (suc j) = ground (arith, test_bit-clear_bit (m / 2) i j)

pub test_bit-zero : (i : ℕ) → test_bit 0 i ≡ false
unfolding test_bit
test_bit-zero zero = refl
test_bit-zero (suc i) = test_bit-zero i

-- Both operations go through the binary digits of their first argument, on fuel.
or_digits-eq-zero : (fuel x y : ℕ) → x ≤ fuel → digits (λ t. t) max fuel x y ≡ 0 → (x ≡ 0) × (y ≡ 0)
or_digits-eq-zero zero x y p h = (omega arith, h)
or_digits-eq-zero (suc fuel) zero y p h = (refl, h)
or_digits-eq-zero (suc fuel) (suc x) y p h =
    ground (arith, h, or_digits-eq-zero fuel (suc x / 2) (y / 2))

-- `x | y` is zero only if both are.
pub bit_or-eq-zero : (x y : ℕ) → bit_or x y ≡ 0 → (x ≡ 0) × (y ≡ 0)
bit_or-eq-zero x y h = or_digits-eq-zero x x y (omega arith) (sym (bit_or-bitwise x y) ∙ h)

differ-eq-zero : (x y : ℕ) → differ x y ≡ 0 → x ≡ y
differ-eq-zero zero y h = sym h
differ-eq-zero (suc x) zero h = h
differ-eq-zero (suc x) (suc y) h = ap suc (differ-eq-zero x y h)

differ_self : (x : ℕ) → differ x x ≡ 0
differ_self zero = refl
differ_self (suc x) = differ_self x

xor_digits-eq-zero : (fuel x y : ℕ) → x ≤ fuel → digits (λ t. t) differ fuel x y ≡ 0 → x ≡ y
xor_digits-eq-zero zero x y p h = omega (arith, h)
xor_digits-eq-zero (suc fuel) zero y p h = sym h
xor_digits-eq-zero (suc fuel) (suc x) y p h =
    ground
      (arith, h, differ-eq-zero (suc x % 2) (y % 2), xor_digits-eq-zero fuel (suc x / 2) (y / 2))

xor_digits_self : (fuel x : ℕ) → x ≤ fuel → digits (λ t. t) differ fuel x x ≡ 0
xor_digits_self zero x p = omega arith
xor_digits_self (suc fuel) zero p = refl
xor_digits_self (suc fuel) (suc x) p =
    omega (arith, differ_self (suc x % 2), xor_digits_self fuel (suc x / 2) (omega arith))

-- `x ^ y` is zero exactly if the two are equal.
pub bit_xor-eq-zero_iff : (x y : ℕ) → (bit_xor x y ≡ 0) ↔ (x ≡ y)
bit_xor-eq-zero_iff x y = (
  λ h. xor_digits-eq-zero x x y (omega arith) (sym (bit_xor-bitwise x y) ∙ h),
  λ e. rw e (bit_xor-bitwise y y ∙ xor_digits_self y y (omega arith)),
)

differ_lt : (x y : ℕ) → x < 2 → y < 2 → differ x y < 2
differ_lt zero y h k = k
differ_lt (suc x) zero h k = h
differ_lt (suc x) (suc y) h k = differ_lt x y (omega arith) (omega arith)

xor_digits_lt : (fuel n x y : ℕ) → x < 2 ^ n → y < 2 ^ n → digits (λ t. t) differ fuel x y < 2 ^ n
xor_digits_lt zero n x y h k = k
xor_digits_lt (suc fuel) n zero y h k = k
xor_digits_lt (suc fuel) zero (suc x) y h k = absurd (omega arith)
xor_digits_lt (suc fuel) (suc n) (suc x) y h k =
    let twice : 2 ^ suc n ≡ 2 ^ n * 2 = pow-suc 2 n in
    omega (
      arith,
      twice,
      h,
      k,
      differ_lt (suc x % 2) (y % 2) (omega arith) (omega arith),
      xor_digits_lt fuel n (suc x / 2) (y / 2) (omega (arith, twice, h)) (omega (arith, twice, k)),
    )

-- `x ^ y` fits in a word if both do.
pub bit_xor_lt : (n x y : ℕ) → x < 2 ^ n → y < 2 ^ n → bit_xor x y < 2 ^ n
bit_xor_lt n x y h k = rw (bit_xor-bitwise x y) (xor_digits_lt x n x y h k)
