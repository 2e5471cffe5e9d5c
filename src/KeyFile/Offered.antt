-- ===== src/KeyFile/Offered.antt =====
-- The handler of the hello message takes the header of a saved key.
use pq_key_establishment_mav.Base.{
  ℕ, ◌+◌, ◌<◌, ◌≡◌, ◌==◌, Bool, true, false, not, ◌||◌, ap, ◌∙◌, List, ◌++◌, length, take,
  length-append, arith, Option, some, ltb, get_or,
}
use pq_key_establishment_mav.Base.Bytes.{u32, le_bytes}
use pq_key_establishment_mav.Kemtls.Pdk.{
  HelloEnv, pdk_bad, pdk_magic, pdk_version, pdk_size, below_size,
}
use pq_key_establishment_mav.KeyFile.{KemtlsPkFileHdr, header_bytes, header_for, read_header}
use pq_key_establishment_mav.KeyFile.Header.{
  take-append, length-header_bytes, read_header-header_bytes,
}
use pq_key_establishment_mav.KeyFile.Save.{key_file}
use pq_key_establishment_mav.KeyFile.RoundTrip.{IsSaved, header_for-IsHeader}

or_false : (a b : Bool) → a ≡ false → b ≡ false → (a || b) ≡ false
or_false true b f g = f
or_false false b f g = g

module _ (sha256 : List ℕ → List ℕ) where
  -- The header of the file of a saved key, for suite 1, a key of 1 to 32768 bytes, a byte-sized
  -- algorithm, a time of 64 bits, a fingerprint of 32 bytes and a file that has not shrunk at the
  -- second call of `stat`, passes the checks of the handler of the hello message.
  pub pdk_bad-key_file :
      (env : HelloEnv) (pk : List ℕ) (alg created_unix : ℕ) (fingerprint32 : Option (List ℕ))
      → IsSaved sha256 pk 1 alg created_unix fingerprint32
      → 0 < length pk
      → env.header ≡ take 56 (key_file sha256 pk 1 alg created_unix fingerprint32)
      → env.stat2 ≡ some (length (key_file sha256 pk 1 alg created_unix fingerprint32))
      → pdk_bad env ≡ false
  unfolding pdk_bad header_for read_header pdk_magic pdk_version pdk_size header_bytes le_bytes
      below_size
  pdk_bad-key_file env pk alg created_unix fingerprint32 v pos h st =
      let hdr : KemtlsPkFileHdr = header_for sha256 pk 1 alg created_unix fingerprint32 in
      let len : u32 (length pk) ≡ length pk = omega (arith, v.small) in
      let own : length (header_bytes hdr) ≡ 56 = length-header_bytes hdr v.fingerprint in
      let whole : length (header_bytes hdr ++ pk) ≡ 56 + length pk =
        omega (arith, length-append (header_bytes hdr) pk, own) in
      let here : env.header ≡ header_bytes hdr = h ∙ take-append 56 (header_bytes hdr) pk own in
      let fields : read_header env.header ≡ hdr =
        ap read_header here
        ∙ read_header-header_bytes hdr
            (header_for-IsHeader sha256 pk 1 alg created_unix fingerprint32 v) in
      let its_magic : pdk_magic env.header ≡ 0x544D454B =
        ap (λ (r : KemtlsPkFileHdr). r.magic) fields in
      let its_version : pdk_version env.header ≡ 1 =
        ap (λ (r : KemtlsPkFileHdr). r.version) fields in
      let its_suite : get_or env.header 6 0 ≡ 1 = ap (λ (t : List ℕ). get_or t 6 0) here in
      let its_size : pdk_size env.header ≡ length pk =
        ap (λ (r : KemtlsPkFileHdr). r.pk_len) fields ∙ len in
      let a : (not (pdk_magic env.header == 0x544D454B)) ≡ false = ground (arith, its_magic) in
      let b : (not (pdk_version env.header == 1)) ≡ false = ground (arith, its_version) in
      let c : (not (get_or env.header 6 0 == 1)) ≡ false = ground (arith, its_suite) in
      let d : below_size env.stat2 (u32 (56 + pdk_size env.header)) ≡ false =
        ap (λ (t : Option ℕ). below_size t (u32 (56 + pdk_size env.header))) st
        ∙ ground (arith, whole, its_size, v.small) in
      let e : (pdk_size env.header == 0) ≡ false = ground (arith, its_size, pos) in
      let f : ltb 65536 (pdk_size env.header) ≡ false = ground (arith, its_size, v.small) in
      or_false _ _ a (or_false _ _ b (or_false _ _ c (or_false _ _ d (or_false _ _ e f))))
