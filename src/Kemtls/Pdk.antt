-- ===== src/Kemtls/Pdk.antt =====
-- GCS_KEMTLS.cpp, `GCS_MAVLINK::handle_hqc_hello`: the file with the pre-distributed key.
use pq_key_establishment_mav.Base.{
  ℕ, ◌+◌, ◌-◌, List, [], ◌∷◌, ◌==◌, if◌then◌else◌, take, drop, ltb, length, Bool, true, false, ◌&&◌,
  ◌||◌, not, Option, none, some, get_or,
}
use pq_key_establishment_mav.Base.Bytes.{u32, le_value, write_at}
use pq_key_establishment_mav.Kemtls.Session.{Entropy}

-- What the handler meets outside: the clock, what `malloc` and `calloc` give, the file
-- APM/CFG/kemtls_pk.bin (its size at the two calls of `stat`, whether it opens, the bytes that the
-- read of the header returns, then those of each further read; no bytes stand for a result <= 0),
-- and the KEM's entropy.
pub record HelloEnv : Type 0 where
  pub now : ℕ
  pub chan : ℕ
  pub malloc_pke : Option (List ℕ)
  pub stat : Option ℕ
  pub opens : Bool
  pub header : List ℕ
  pub stat2 : Option ℕ
  pub calloc_pks : Bool
  pub reads : List (List ℕ)
  pub malloc_cts : Option (List ℕ)
  pub entropy : Entropy

unfoldable pub bytes_eq : List ℕ → List ℕ → Bool
bytes_eq [] [] = true
bytes_eq [] (y ∷ ys) = false
bytes_eq (x ∷ xs) [] = false
bytes_eq (x ∷ xs) (y ∷ ys) = x == y && bytes_eq xs ys

-- A file that is missing or smaller than `size`.
unfoldable pub below_size : Option ℕ → ℕ → Bool
below_size none size = true
below_size (some n) size = ltb n size

-- while (got < pksz) { r = read(fd, pks + got, pksz - got); if (r <= 0) short; got += r; }
-- A read that would write past the buffer is an overrun.
pub data PdkRead : Type 0 where
  full : List ℕ → PdkRead
  short overrun : PdkRead

unfoldable pub read_pks : List (List ℕ) → ℕ → ℕ → List ℕ → PdkRead
read_pks [] pksz got pks = if ltb got pksz then short else full pks
read_pks (r ∷ rs) pksz got pks =
    let bytes = take (pksz - got) r in
    let next = elim (write_at pks got bytes) as (λ _. PdkRead) [
      | none ↦ overrun
      | some pks' ↦ read_pks rs pksz (got + length bytes) pks'
    ] in
    if ltb got pksz then (if length bytes == 0 then short else next) else full pks

-- The header of the file.
unfoldable pub pdk_magic : List ℕ → ℕ
pdk_magic hdr = le_value (take 4 hdr)

unfoldable pub pdk_version : List ℕ → ℕ
pdk_version hdr = le_value (take 2 (drop 4 hdr))

unfoldable pub pdk_size : List ℕ → ℕ
pdk_size hdr = le_value (take 4 (drop 16 hdr))

unfoldable pub pdk_fingerprint : List ℕ → List ℕ
pdk_fingerprint hdr = take 32 (drop 20 hdr)

-- The header is refused: wrong magic, version or suite, a file too small, a key size out of range.
unfoldable pub pdk_bad : HelloEnv → Bool
unfolding pdk_magic pdk_version pdk_size below_size
pdk_bad env =
    not (pdk_magic env.header == 0x544D454B)
    || (not (pdk_version env.header == 1)
        || (not (get_or env.header 6 0 == 1)
            || (below_size env.stat2 (u32 (56 + pdk_size env.header))
                || (pdk_size env.header == 0 || ltb 65536 (pdk_size env.header)))))
