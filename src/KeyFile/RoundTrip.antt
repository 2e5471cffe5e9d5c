-- ===== src/KeyFile/RoundTrip.antt =====
-- A key that was saved is loaded again, and the handler of the hello message takes its header.
use pq_key_establishment_mav.Base.{
  ℕ, ◌*◌, ◌^◌, ◌≤◌, ◌<◌, ◌≡◌, ◌==◌, ◌⊎◌, inl, inr, Bool, true, false, not, ◌&&◌, if◌then◌else◌,
  refl, sym, [], ◌∷◌, ap, ap₂, ◌∙◌, List, ◌++◌, length, length-append, arith, Option, none, some,
  true-false, ltb,
}
use pq_key_establishment_mav.Base.Bytes.{zeros, u32}
use pq_key_establishment_mav.Kemtls.Pdk.{bytes_eq}
use pq_key_establishment_mav.KeyFile.{
  SaveEnv, Files, save_kemtls_pk_atomic, KemtlsPkFileHdr, header_bytes, header_for, fingerprint_of,
  read_header, crc32_buf, Loaded, read_into, local_fp, check_fingerprint, check_key, load_key,
  load_kemtls_pk,
}
use pq_key_establishment_mav.KeyFile.Crc.{stored_crc, stored_crc_lt}
use pq_key_establishment_mav.KeyFile.Header.{
  take-append, drop-append, take_whole, IsHeader, length-header_bytes, read_header-header_bytes,
}
use pq_key_establishment_mav.KeyFile.Save.{key_file, kept, replaced, save_kemtls_pk_atomic-IsAtomic}
use pq_key_establishment_mav.KeyFile.Load.{bytes_eq_refl, read_whole}

else_taken {ℓ} : {A : Type ℓ} (c : Bool) (x y r : A) → c ≡ false → y ≡ r → (if c then x else y) ≡ r
else_taken true x y r f e = absurd (true-false f)
else_taken false x y r f e = e

and_false : (c : Bool) → (c && false) ≡ false
and_false true = refl
and_false false = refl

module _ (sha256 : List ℕ → List ℕ) where
  -- What the caller of a save passes.
  pub record IsSaved (pk : List ℕ) (suite_id alg created_unix : ℕ) (fingerprint32 : Option (List ℕ))
      : Type 0 where
    pub small : length pk ≤ 32768
    pub byte_suite : suite_id < 2 ^ 8
    pub byte_alg : alg < 2 ^ 8
    pub word_created : created_unix < 2 ^ 64
    pub fingerprint : length (fingerprint_of sha256 fingerprint32 pk) ≡ 32

  pub header_for-IsHeader :
      (pk : List ℕ) (suite_id alg created_unix : ℕ) (fingerprint32 : Option (List ℕ))
      → IsSaved pk suite_id alg created_unix fingerprint32
      → IsHeader (header_for sha256 pk suite_id alg created_unix fingerprint32)
  unfolding header_for
  header_for-IsHeader pk suite_id alg created_unix fingerprint32 v = record {
    magic = omega arith;
    version = omega arith;
    suite_id = v.byte_suite;
    alg = v.byte_alg;
    created_unix = v.word_created;
    pk_len = omega arith;
    fingerprint = v.fingerprint;
    crc32 = stored_crc_lt pk;
  }

  -- The load of a whole file is that of its header and its key.
  load_split :
      (hdr : KemtlsPkFileHdr) (pk : List ℕ) (out : Loaded)
      → IsHeader hdr
      → load_kemtls_pk sha256 (some (header_bytes hdr ++ pk)) out ≡ load_key sha256 hdr pk out
  unfolding load_kemtls_pk
  load_split hdr pk out v =
      let len : length (header_bytes hdr) ≡ 56 = length-header_bytes hdr v.fingerprint in
      let long : ltb (length (header_bytes hdr ++ pk)) 56 ≡ false =
        ground (arith, length-append (header_bytes hdr) pk, len) in
      rw long (
        ap₂ (λ (h : KemtlsPkFileHdr) (rest : List ℕ). load_key sha256 h rest out)
          (ap read_header (take-append 56 (header_bytes hdr) pk len)
            ∙ read_header-header_bytes hdr v)
          (drop-append 56 (header_bytes hdr) pk len))

  -- A fingerprint that the load accepts for the key: zeros, or the SHA-256 of a key that is not
  -- empty.
  abbrev pub IsFingerprint : List ℕ → List ℕ → Type 0
  IsFingerprint fp pk = (fp ≡ zeros 32) ⊎ ((0 < length pk) × (sha256 pk ≡ fp))

  local_fp_lem : (pk : List ℕ) → 0 < length pk → local_fp sha256 pk ≡ sha256 pk
  unfolding local_fp
  local_fp_lem [] h = absurd (omega (arith, h))
  local_fp_lem (b ∷ bs) h = refl

  check_fingerprint_passes :
      (hdr : KemtlsPkFileHdr) (out : Loaded)
      → IsFingerprint hdr.pk_fingerprint out.out_pk
      → check_fingerprint sha256 hdr out ≡ record { err = none; out = out }
  unfolding check_fingerprint
  check_fingerprint_passes hdr out (inl f) =
      let same : bytes_eq hdr.pk_fingerprint (zeros 32) ≡ true = rw f (bytes_eq_refl (zeros 32)) in
      rw same refl
  check_fingerprint_passes hdr out (inr (pos, f)) =
      let same : bytes_eq (local_fp sha256 out.out_pk) hdr.pk_fingerprint ≡ true =
        rw (local_fp_lem out.out_pk pos, f) (bytes_eq_refl hdr.pk_fingerprint) in
      else_taken
        (not (bytes_eq hdr.pk_fingerprint (zeros 32))
          && not (bytes_eq (local_fp sha256 out.out_pk) hdr.pk_fingerprint))
        _ _ _ (rw same (and_false (not (bytes_eq hdr.pk_fingerprint (zeros 32))))) refl

  load_key_passes :
      (hdr : KemtlsPkFileHdr) (pk : List ℕ) (out : Loaded)
      → hdr.magic ≡ 0x544D454B
      → hdr.version ≡ 1
      → hdr.pk_len ≡ length pk
      → length pk ≤ 32768
      → crc32_buf pk ≡ hdr.crc32
      → IsFingerprint hdr.pk_fingerprint pk
      → load_key sha256 hdr pk out ≡ record {
        err = none;
        out = record {
          out_pk = pk;
          out_suite_id = hdr.suite_id;
          out_alg = hdr.alg;
          out_created_unix = hdr.created_unix;
          out_fingerprint32 = hdr.pk_fingerprint;
        };
      }
  unfolding load_key check_key
  load_key_passes hdr pk out a b c d f g =
      let read : read_into hdr.pk_len pk ≡ pk =
        read_whole hdr.pk_len pk (omega (arith, c)) ∙ take_whole hdr.pk_len pk (sym c) in
      let right_magic : (hdr.magic == 0x544D454B) ≡ true = ground (arith, a) in
      let right_version : (hdr.version == 1) ≡ true = ground (arith, b) in
      let small : ltb (32 * 1024) hdr.pk_len ≡ false = ground (arith, c, d) in
      let there : ltb (length pk) hdr.pk_len ≡ false = ground (arith, c) in
      let right_crc : (crc32_buf pk == hdr.crc32) ≡ true = ground (arith, f) in
      else_taken (not (hdr.magic == 0x544D454B)) _ _ _ (ap not right_magic) (
        else_taken (not (hdr.version == 1)) _ _ _ (ap not right_version) (
          else_taken (ltb (32 * 1024) hdr.pk_len) _ _ _ small (
            else_taken (ltb (length pk) hdr.pk_len) _ _ _ there (
              ap (λ (t : List ℕ). check_key sha256 hdr (record out { out_pk = t })) read
              ∙ else_taken (not (crc32_buf pk == hdr.crc32)) _ _ _ (ap not right_crc) (
                  check_fingerprint_passes hdr
                    (record {
                      out_pk = pk;
                      out_suite_id = hdr.suite_id;
                      out_alg = hdr.alg;
                      out_created_unix = hdr.created_unix;
                      out_fingerprint32 = hdr.pk_fingerprint;
                    })
                    g)))))

  -- The load of the whole file of a key.
  pub load_kemtls_pk-key_file :
      (pk : List ℕ) (suite_id alg created_unix : ℕ) (fingerprint32 : Option (List ℕ)) (out : Loaded)
      → IsSaved pk suite_id alg created_unix fingerprint32
      → IsFingerprint (fingerprint_of sha256 fingerprint32 pk) pk
      → load_kemtls_pk sha256
          (some (key_file sha256 pk suite_id alg created_unix fingerprint32))
          out
        ≡ record {
          err = none;
          out = record {
            out_pk = pk;
            out_suite_id = suite_id;
            out_alg = alg;
            out_created_unix = created_unix;
            out_fingerprint32 = fingerprint_of sha256 fingerprint32 pk;
          };
        }
  unfolding header_for
  load_kemtls_pk-key_file pk suite_id alg created_unix fingerprint32 out v f =
      let hdr : KemtlsPkFileHdr = header_for sha256 pk suite_id alg created_unix fingerprint32 in
      let len : u32 (length pk) ≡ length pk = omega (arith, v.small) in
      load_split hdr pk out (header_for-IsHeader pk suite_id alg created_unix fingerprint32 v)
      ∙ load_key_passes hdr pk out refl refl len v.small (stored_crc pk) f

  -- After a save that succeeded, of a key of at most 32768 bytes with byte-sized suite and
  -- algorithm, a time of 64 bits and a fingerprint of 32 bytes that is zeros or, for a key that is not empty, its SHA-256, the load of the file
  -- succeeds and gives back the key and everything that was saved beside it.
  pub load_kemtls_pk-save_kemtls_pk_atomic :
      (env : SaveEnv) (files : Files) (pk : List ℕ) (suite_id alg created_unix : ℕ)
      (fingerprint32 : Option (List ℕ)) (out : Loaded)
      → IsSaved pk suite_id alg created_unix fingerprint32
      → IsFingerprint (fingerprint_of sha256 fingerprint32 pk) pk
      → (save_kemtls_pk_atomic sha256 env files pk suite_id alg created_unix fingerprint32).0 ≡ true
      → load_kemtls_pk sha256
          (save_kemtls_pk_atomic sha256 env files pk suite_id alg created_unix
            fingerprint32).1.target
          out
        ≡ record {
          err = none;
          out = record {
            out_pk = pk;
            out_suite_id = suite_id;
            out_alg = alg;
            out_created_unix = created_unix;
            out_fingerprint32 = fingerprint_of sha256 fingerprint32 pk;
          };
        }
  load_kemtls_pk-save_kemtls_pk_atomic env files pk suite_id alg created_unix fingerprint32 out v f
        saved =
      elim (save_kemtls_pk_atomic-IsAtomic sha256 env files pk suite_id alg created_unix
        fingerprint32 v.fingerprint) [
          | kept g h ↦ absurd (true-false (sym saved ∙ g))
          | replaced g h k ↦
              rw h (load_kemtls_pk-key_file pk suite_id alg created_unix fingerprint32 out v f)
        ]
