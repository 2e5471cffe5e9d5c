-- ===== src/Base/Bytes.antt =====
-- Words and byte strings: casts, little-endian fields, zero fill, slices and the codes of a text.
pub mod Laws
use Prim.Native.Char.{code}
use Prim.Native.String.{String}
use pq_key_establishment_mav.Base.{
  ℕ, zero, suc, ◌+◌, ◌-◌, ◌*◌, ◌/◌, ◌%◌, ◌^◌, ◌≡◌, refl, ap, List, [], ◌∷◌, replicate, length,
  Option, none, some,
}

abbrev pub u8 : ℕ → ℕ
u8 n = n % 2 ^ 8

abbrev pub u16 : ℕ → ℕ
u16 n = n % 2 ^ 16

abbrev pub u32 : ℕ → ℕ
u32 n = n % 2 ^ 32

-- uint32_t a - b, which wraps.
abbrev pub sub32 : ℕ → ℕ → ℕ
sub32 a b = (a + 2 ^ 32 - b) % 2 ^ 32

abbrev pub zeros : ℕ → List ℕ
zeros n = replicate n 0

-- The low `n` bytes of `v`, lowest first.
unfoldable pub le_bytes : ℕ → ℕ → List ℕ
le_bytes zero v = []
le_bytes (suc n) v = v % 256 ∷ le_bytes n (v / 256)

-- The number that the bytes stand for, lowest first.
unfoldable pub le_value : List ℕ → ℕ
le_value [] = 0
le_value (b ∷ bs) = b + le_value bs * 256

pub length-le_bytes : (n v : ℕ) → length (le_bytes n v) ≡ n
unfolding le_bytes
length-le_bytes zero v = refl
length-le_bytes (suc n) v = ap suc (length-le_bytes n (v / 256))

abbrev push : ℕ → Option (List ℕ) → Option (List ℕ)
push b none = none
push b (some bs) = some (b ∷ bs)

-- memcpy(dst + off, data, ...) into a buffer of known size: `none` is a write past its end.
unfoldable pub write_at : List ℕ → ℕ → List ℕ → Option (List ℕ)
write_at dst zero [] = some dst
write_at [] zero (b ∷ bs) = none
write_at (d ∷ dst) zero (b ∷ bs) = push b (write_at dst zero bs)
write_at [] (suc off) bs = none
write_at (d ∷ dst) (suc off) bs = push d (write_at dst off bs)

-- The codes of a text: its bytes, if it is ASCII.
abbrev pub codes : String → List ℕ
codes String.[] = []
codes (String.◌∷◌ c s) = code c ∷ codes s
