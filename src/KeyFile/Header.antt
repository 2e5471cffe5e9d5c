-- ===== src/KeyFile/Header.antt =====
-- The header read back from its bytes.
use pq_key_establishment_mav.Base.{
  ℕ, zero, suc, ◌^◌, ◌<◌, ◌≡◌, refl, ap, ◌∙◌, List, [], ◌∷◌, ◌++◌, length, take, drop,
  length-append, append_nil, arith,
}
use pq_key_establishment_mav.Base.Bytes.{le_bytes, le_value}
use pq_key_establishment_mav.Base.Bytes.Laws.{le_value-le_bytes}
use pq_key_establishment_mav.KeyFile.{KemtlsPkFileHdr, header_bytes, read_header}

pub take-append : (n : ℕ) (xs ys : List ℕ) → length xs ≡ n → take n (xs ++ ys) ≡ xs
take-append zero [] ys h = refl
take-append zero (x ∷ xs) ys h = absurd (omega (arith, h))
take-append (suc n) [] ys h = absurd (omega (arith, h))
take-append (suc n) (x ∷ xs) ys h =
    ap (λ (t : List ℕ). x ∷ t) (take-append n xs ys (omega (arith, h)))

pub drop-append : (n : ℕ) (xs ys : List ℕ) → length xs ≡ n → drop n (xs ++ ys) ≡ ys
drop-append zero [] ys h = refl
drop-append zero (x ∷ xs) ys h = absurd (omega (arith, h))
drop-append (suc n) [] ys h = absurd (omega (arith, h))
drop-append (suc n) (x ∷ xs) ys h = drop-append n xs ys (omega (arith, h))

pub take_whole : (n : ℕ) (xs : List ℕ) → length xs ≡ n → take n xs ≡ xs
take_whole n xs h =
    let e : take n (xs ++ []) ≡ xs = take-append n xs [] h in rw (append_nil xs) at e

-- Each number fits its field, and the fingerprint has 32 bytes.
pub record IsHeader (h : KemtlsPkFileHdr) : Type 0 where
  pub magic : h.magic < 2 ^ 32
  pub version : h.version < 2 ^ 16
  pub suite_id : h.suite_id < 2 ^ 8
  pub alg : h.alg < 2 ^ 8
  pub created_unix : h.created_unix < 2 ^ 64
  pub pk_len : h.pk_len < 2 ^ 32
  pub fingerprint : length h.pk_fingerprint ≡ 32
  pub crc32 : h.crc32 < 2 ^ 32

pub length-header_bytes :
    (h : KemtlsPkFileHdr) → length h.pk_fingerprint ≡ 32 → length (header_bytes h) ≡ 56
unfolding header_bytes le_bytes
length-header_bytes h e = omega (arith, e, length-append h.pk_fingerprint (le_bytes 4 h.crc32))

pub read_header-header_bytes : (h : KemtlsPkFileHdr) → IsHeader h → read_header (header_bytes h) ≡ h
unfolding header_bytes read_header le_bytes
read_header-header_bytes h v =
    let fp : take 32 (h.pk_fingerprint ++ le_bytes 4 h.crc32) ≡ h.pk_fingerprint =
      take-append 32 h.pk_fingerprint (le_bytes 4 h.crc32) v.fingerprint in
    let rest : drop 32 (h.pk_fingerprint ++ le_bytes 4 h.crc32) ≡ le_bytes 4 h.crc32 =
      drop-append 32 h.pk_fingerprint (le_bytes 4 h.crc32) v.fingerprint in
    let crc : le_value (take 4 (drop 32 (h.pk_fingerprint ++ le_bytes 4 h.crc32))) ≡ h.crc32 =
      ap (λ (t : List ℕ). le_value (take 4 t)) rest ∙ le_value-le_bytes 4 h.crc32 v.crc32 in
    λ i. record {
      magic = le_value-le_bytes 4 h.magic v.magic i;
      version = le_value-le_bytes 2 h.version v.version i;
      suite_id = le_value-le_bytes 1 h.suite_id v.suite_id i;
      alg = le_value-le_bytes 1 h.alg v.alg i;
      created_unix = le_value-le_bytes 8 h.created_unix v.created_unix i;
      pk_len = le_value-le_bytes 4 h.pk_len v.pk_len i;
      pk_fingerprint = fp i;
      crc32 = crc i;
    }
