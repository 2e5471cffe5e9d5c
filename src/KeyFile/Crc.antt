-- ===== src/KeyFile/Crc.antt =====
-- The CRC is a word of 32 bits, and that of no bytes is 0.
use pq_key_establishment_mav.Base.{
  ℕ, zero, suc, ◌/◌, ◌%◌, ◌^◌, ◌<◌, ◌≡◌, ◌==◌, false, if◌then◌else◌, refl, List, [], ◌∷◌, length,
  arith, bit_xor, bit_xor_lt,
}
use pq_key_establishment_mav.KeyFile.{crc32_rounds, crc32_bytes, crc32_buf}

crc32_rounds_lt : (n x : ℕ) → x < 2 ^ 32 → crc32_rounds n x < 2 ^ 32
unfolding crc32_rounds
crc32_rounds_lt zero x h = h
crc32_rounds_lt (suc n) x h =
    crc32_rounds_lt n (bit_xor (x / 2) (if x % 2 == 1 then 0xEDB88320 else 0)) (
      bit_xor_lt 32 (x / 2) (if x % 2 == 1 then 0xEDB88320 else 0) (omega (arith, h))
        (ground arith))

crc32_bytes_lt : (bs : List ℕ) (crc : ℕ) → crc < 2 ^ 32 → crc32_bytes crc bs < 2 ^ 32
unfolding crc32_bytes
crc32_bytes_lt [] crc h = h
crc32_bytes_lt (b ∷ bs) crc h =
    let x : ℕ = bit_xor crc b % 256 in
    crc32_bytes_lt bs (bit_xor (crc / 256) (crc32_rounds 8 x)) (
      bit_xor_lt 32 (crc / 256) (crc32_rounds 8 x) (omega (arith, h))
        (crc32_rounds_lt 8 x (omega arith)))

crc32_buf_lt : (bs : List ℕ) → crc32_buf bs < 2 ^ 32
unfolding crc32_buf
crc32_buf_lt bs =
    bit_xor_lt 32 (crc32_bytes 0xFFFFFFFF bs) 0xFFFFFFFF
      (crc32_bytes_lt bs 0xFFFFFFFF (omega arith)) (omega arith)

crc32_empty : crc32_buf [] ≡ 0
unfolding crc32_buf crc32_bytes
crc32_empty = refl

pub stored_crc_lt : (pk : List ℕ) → (if length pk == 0 then 0 else crc32_buf pk) < 2 ^ 32
stored_crc_lt [] = omega arith
stored_crc_lt (b ∷ pk) =
    let some_key : (length (b ∷ pk) == 0) ≡ false = ground arith in
    rw some_key (crc32_buf_lt (b ∷ pk))

pub stored_crc : (pk : List ℕ) → crc32_buf pk ≡ (if length pk == 0 then 0 else crc32_buf pk)
stored_crc [] = crc32_empty
stored_crc (b ∷ pk) =
    let some_key : (length (b ∷ pk) == 0) ≡ false = ground arith in rw some_key refl
