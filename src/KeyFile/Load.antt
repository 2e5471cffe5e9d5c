-- ===== src/KeyFile/Load.antt =====
-- What a load that succeeds has checked, and that it accepts a file that was saved.
use pq_key_establishment_mav.Base.{
  ℕ, ◌-◌, ◌*◌, ◌≤◌, ◌≡◌, ◌==◌, ◌⊎◌, inl, inr, Bool-cases, Bool, true, false, not, ◌&&◌,
  if◌then◌else◌, refl, sym, List, [], ◌∷◌, length, take, drop, append_nil, length-take, arith, none,
  some, none-some, ltb,
}
use pq_key_establishment_mav.Base.Bytes.{zeros}
use pq_key_establishment_mav.Kemtls.Pdk.{bytes_eq}
use pq_key_establishment_mav.Kemtls.Hello.Checked.{bytes_eq_sound}
use pq_key_establishment_mav.KeyFile.{
  KemtlsPkFileHdr, read_header, crc32_buf, LoadError, Loaded, LoadResult, load_failed, read_into,
  local_fp, check_fingerprint, check_key, load_key, load_kemtls_pk,
}

pub bytes_eq_refl : (xs : List ℕ) → bytes_eq xs xs ≡ true
unfolding bytes_eq
bytes_eq_refl [] = refl
bytes_eq_refl (x ∷ xs) = let own : (x == x) ≡ true = ground arith in rw (own, bytes_eq_refl xs) refl

pub read_whole : (n : ℕ) (rest : List ℕ) → n ≤ length rest → read_into n rest ≡ take n rest
unfolding read_into
read_whole n rest h =
    let nothing : n - length rest ≡ 0 = omega (arith, h) in rw nothing (append_nil (take n rest))

module _ (sha256 : List ℕ → List ℕ) where
  -- What success means for the bytes `rest` behind the header.
  pub record IsChecked (hdr : KemtlsPkFileHdr) (rest : List ℕ) (out : Loaded) : Type 0 where
    pub magic : hdr.magic ≡ 0x544D454B
    pub version : hdr.version ≡ 1
    pub small : hdr.pk_len ≤ 32768
    pub key : out.out_pk ≡ take hdr.pk_len rest
    pub whole : length out.out_pk ≡ hdr.pk_len
    pub crc : crc32_buf out.out_pk ≡ hdr.crc32
    pub fingerprint : (hdr.pk_fingerprint ≡ zeros 32) ⊎ (sha256 out.out_pk ≡ hdr.pk_fingerprint)
    pub suite_id : out.out_suite_id ≡ hdr.suite_id
    pub alg : out.out_alg ≡ hdr.alg
    pub created_unix : out.out_created_unix ≡ hdr.created_unix
    pub stored : out.out_fingerprint32 ≡ hdr.pk_fingerprint

  -- A result that is an error, or has property P.
  abbrev Succeeds : (Loaded → Type 0) → LoadResult → Type 0
  Succeeds P r = r.err ≡ none → P r.out

  if-Succeeds :
      (P : Loaded → Type 0) (c : Bool) (x y : LoadResult)
      → (c ≡ true → Succeeds P x)
      → (c ≡ false → Succeeds P y)
      → Succeeds P (if c then x else y)
  if-Succeeds P true x y f g = f refl
  if-Succeeds P false x y f g = g refl

  never : (P : Loaded → Type 0) (e : LoadError) (out : Loaded) → Succeeds P (load_failed e out)
  unfolding load_failed
  never P e out h = absurd (none-some (sym h))

  whole_read :
      (hdr : KemtlsPkFileHdr) (rest : List ℕ)
      → hdr.pk_len ≤ length rest
      → length (read_into hdr.pk_len rest) ≡ hdr.pk_len
  whole_read hdr rest h =
      rw (read_whole hdr.pk_len rest h) (omega (arith, length-take hdr.pk_len rest, h))

  fingerprint_of_key :
      (hdr : KemtlsPkFileHdr) (pk : List ℕ)
      → local_fp sha256 pk ≡ hdr.pk_fingerprint
      → (hdr.pk_fingerprint ≡ zeros 32) ⊎ (sha256 pk ≡ hdr.pk_fingerprint)
  unfolding local_fp
  fingerprint_of_key hdr [] e = inl (sym e)
  fingerprint_of_key hdr (b ∷ bs) e = inr e

  fingerprint_checked :
      (hdr : KemtlsPkFileHdr) (pk : List ℕ)
      → (not (bytes_eq hdr.pk_fingerprint (zeros 32))
          && not (bytes_eq (local_fp sha256 pk) hdr.pk_fingerprint))
        ≡ false
      → (hdr.pk_fingerprint ≡ zeros 32) ⊎ (sha256 pk ≡ hdr.pk_fingerprint)
  fingerprint_checked hdr pk g = elim (Bool-cases (bytes_eq hdr.pk_fingerprint (zeros 32))) [
    | inl f ↦ inl (bytes_eq_sound hdr.pk_fingerprint (zeros 32) f)
    | inr f ↦
        fingerprint_of_key hdr pk
          (bytes_eq_sound (local_fp sha256 pk) hdr.pk_fingerprint (ground (arith, f, g)))
  ]

  load_key-IsChecked :
      (hdr : KemtlsPkFileHdr) (rest : List ℕ) (out : Loaded)
      → Succeeds (IsChecked hdr rest) (load_key sha256 hdr rest out)
  unfolding load_key check_key check_fingerprint read_into
  load_key-IsChecked hdr rest out =
      let P = IsChecked hdr rest in
      if-Succeeds P (not (hdr.magic == 0x544D454B)) _ _ (λ a. never P LoadError.bad_magic out)
        (λ a.
          if-Succeeds P (not (hdr.version == 1)) _ _
            (λ b. never P LoadError.unsupported_version out)
            (λ b.
              if-Succeeds P (ltb (32 * 1024) hdr.pk_len) _ _
                (λ c. never P LoadError.pk_len_too_large out)
                (λ c.
                  if-Succeeds P (ltb (length rest) hdr.pk_len) _ _
                    (λ d. never P LoadError.read_pk_failed _)
                    (λ d.
                      if-Succeeds P (not (crc32_buf (read_into hdr.pk_len rest) == hdr.crc32)) _ _
                        (λ f. never P LoadError.crc_mismatch _)
                        (λ f.
                          if-Succeeds P
                            (not (bytes_eq hdr.pk_fingerprint (zeros 32))
                              && not (
                                  bytes_eq (local_fp sha256 (read_into hdr.pk_len rest))
                                    hdr.pk_fingerprint))
                            _ _ (λ g. never P LoadError.fingerprint_mismatch _)
                            (λ g h. record {
                              magic = ground (arith, a);
                              version = ground (arith, b);
                              small = ground (arith, c);
                              key = read_whole hdr.pk_len rest (ground (arith, d));
                              whole = whole_read hdr rest (ground (arith, d));
                              crc = ground (arith, f);
                              fingerprint = fingerprint_checked hdr (read_into hdr.pk_len rest) g;
                              suite_id = refl;
                              alg = refl;
                              created_unix = refl;
                              stored = refl;
                            }))))))

  -- A load that succeeds, whatever the file, has read a header with the right magic and version and
  -- returns the fields of this header and the key behind it, of at most 32768 bytes, whose CRC is
  -- the stored one and whose SHA-256 is the stored fingerprint, unless that is all zeros.
  pub load_kemtls_pk-IsChecked :
      (file : List ℕ) (out : Loaded)
      → (load_kemtls_pk sha256 (some file) out).err ≡ none
      → IsChecked
          (read_header (take 56 file))
          (drop 56 file)
          (load_kemtls_pk sha256 (some file) out).out
  unfolding load_kemtls_pk
  load_kemtls_pk-IsChecked file out =
      if-Succeeds (IsChecked (read_header (take 56 file)) (drop 56 file)) (ltb (length file) 56) _ _
        (λ f.
          never (IsChecked (read_header (take 56 file)) (drop 56 file)) LoadError.read_hdr_failed
            out)
        (λ f. load_key-IsChecked (read_header (take 56 file)) (drop 56 file) out)
