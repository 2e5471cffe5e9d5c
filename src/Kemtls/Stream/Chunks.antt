-- ===== src/Kemtls/Stream/Chunks.antt =====
-- The fragments of a stream: how many there are, where they start, and that a window of them
-- stays in the buffer.
use native.Mathlib.Nat.{le-div_iff_mul-le, div-mul-le_self}
use pq_key_establishment_mav.Base.{ℕ, suc, ◌+◌, ◌-◌, ◌*◌, ◌/◌, ◌^◌, ◌≤◌, ◌<◌, ◌≡◌, ◌↔◌, ap, arith}
use pq_key_establishment_mav.Kemtls.Types.{chunks_of}

chunks_of_exact :
    (len mtu : ℕ) → 0 < mtu → len + mtu ≤ 2 ^ 32 → chunks_of len mtu ≡ (len + mtu - 1) / mtu
unfolding chunks_of
chunks_of_exact len mtu p h = ap (λ (t : ℕ). t / mtu) (omega arith)

-- With a positive mtu, and length and mtu together within 32 bits, fragment `i` exists exactly if
-- it starts below the length.
pub chunks_of_iff :
    (len mtu i : ℕ) → 0 < mtu → len + mtu ≤ 2 ^ 32 → (i < chunks_of len mtu) ↔ (i * mtu < len)
chunks_of_iff len mtu i p h = rw (chunks_of_exact len mtu p h) (
  λ q. omega (arith, (le-div_iff_mul-le {x = suc i} {y = len + mtu - 1} p).0 q),
  λ q. (le-div_iff_mul-le {x = suc i} {y = len + mtu - 1} p).1 (omega arith),
)

pub div-lt-chunks_of :
    (off len mtu : ℕ) → 0 < mtu → len + mtu ≤ 2 ^ 32 → off < len → off / mtu < chunks_of len mtu
div-lt-chunks_of off len mtu p h q =
    (chunks_of_iff len mtu (off / mtu) p h).1 (omega (arith, div-mul-le_self off mtu))
