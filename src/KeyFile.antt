-- ===== src/KeyFile.antt =====
-- AP_KEM/ap_kem_file.h and ap_kem_file.cpp: the file of a pre-distributed public key. The
-- header is packed and its numbers are little-endian, as on the flight controller.
pub mod Header
pub mod Crc
pub mod Load
pub mod Save
pub mod RoundTrip
pub mod Offered
pub mod Bootstrap
pub mod Tests
use pq_key_establishment_mav.Base.{
  ℕ, zero, suc, ◌*◌, ◌+◌, ◌-◌, ◌/◌, ◌%◌, ◌==◌, if◌then◌else◌, ltb, List, [], ◌∷◌, ◌++◌, length,
  take, drop, get_or, Bool, true, false, ◌&&◌, not, Option, none, some, bit_xor,
}
use pq_key_establishment_mav.Base.Bytes.{u32, le_bytes, le_value, zeros}
use pq_key_establishment_mav.Kemtls.Pdk.{bytes_eq}

-- x = (x >> 1) ^ ((x & 1u) ? 0xEDB88320u : 0u), `n` times.
unfoldable pub crc32_rounds : ℕ → ℕ → ℕ
crc32_rounds zero x = x
crc32_rounds (suc n) x = crc32_rounds n (bit_xor (x / 2) (if x % 2 == 1 then 0xEDB88320 else 0))

unfoldable pub crc32_bytes : ℕ → List ℕ → ℕ
unfolding crc32_rounds
crc32_bytes crc [] = crc
crc32_bytes crc (b ∷ bs) =
    crc32_bytes (bit_xor (crc / 256) (crc32_rounds 8 (bit_xor crc b % 256))) bs

-- `crc32_buf`
unfoldable pub crc32_buf : List ℕ → ℕ
unfolding crc32_bytes
crc32_buf bytes = bit_xor (crc32_bytes 0xFFFFFFFF bytes) 0xFFFFFFFF

-- kemtls_pk_file_hdr
pub record KemtlsPkFileHdr : Type 0 where
  pub magic : ℕ
  pub version : ℕ
  pub suite_id : ℕ
  pub alg : ℕ
  pub created_unix : ℕ
  pub pk_len : ℕ
  pub pk_fingerprint : List ℕ
  pub crc32 : ℕ

-- The bytes of the packed struct, and the struct that 56 bytes are.
unfoldable pub header_bytes : KemtlsPkFileHdr → List ℕ
header_bytes h =
    le_bytes 4 h.magic
    ++ (le_bytes 2 h.version
        ++ (le_bytes 1 h.suite_id
            ++ (le_bytes 1 h.alg
                ++ (le_bytes 8 h.created_unix
                    ++ (le_bytes 4 h.pk_len ++ (h.pk_fingerprint ++ le_bytes 4 h.crc32))))))

unfoldable pub read_header : List ℕ → KemtlsPkFileHdr
read_header bs = record {
  magic = le_value (take 4 bs);
  version = le_value (take 2 (drop 4 bs));
  suite_id = le_value (take 1 (drop 6 bs));
  alg = le_value (take 1 (drop 7 bs));
  created_unix = le_value (take 8 (drop 8 bs));
  pk_len = le_value (take 4 (drop 16 bs));
  pk_fingerprint = take 32 (drop 20 bs);
  crc32 = le_value (take 4 (drop 52 bs));
}

-- What `save_kemtls_pk_atomic` meets: whether the new file opens, how many bytes the two writes take
-- (none for an error), and whether the file is synchronized and renamed.
pub record SaveEnv : Type 0 where
  pub opens : Bool
  pub header_written : Option ℕ
  pub key_written : Option ℕ
  pub syncs : Bool
  pub renames : Bool

-- The file of the key and the one beside it whose name ends in ".new".
pub record Files : Type 0 where
  pub target : Option (List ℕ)
  pub fresh : Option (List ℕ)

unfoldable pub is_whole : Option ℕ → ℕ → Bool
is_whole none n = false
is_whole (some w) n = w == n

-- What a write of the bytes leaves after `before`.
unfoldable pub written : Option ℕ → List ℕ → List ℕ → List ℕ
written none before bytes = before
written (some w) before bytes = before ++ take w bytes

-- The errors of `load_kemtls_pk`.
pub data LoadError : Type 0 where
  no_file read_hdr_failed bad_magic unsupported_version pk_len_too_large : LoadError
  read_pk_failed crc_mismatch fingerprint_mismatch : LoadError

-- The results that `load_kemtls_pk` writes through its references.
pub record Loaded : Type 0 where
  pub out_pk : List ℕ
  pub out_suite_id : ℕ
  pub out_alg : ℕ
  pub out_created_unix : ℕ
  pub out_fingerprint32 : List ℕ

-- `none` is success.
pub record LoadResult : Type 0 where
  pub err : Option LoadError
  pub out : Loaded

unfoldable pub load_failed : LoadError → Loaded → LoadResult
load_failed err out = record { err = some err; out = out }

-- A buffer of `n` bytes, zeros at first, after a read of what is there.
unfoldable pub read_into : ℕ → List ℕ → List ℕ
read_into n bytes = take n bytes ++ zeros (n - length bytes)

module _ (sha256 : List ℕ → List ℕ) where
  -- The fingerprint that is stored: the given one, that of the key, or zeros without a key.
  unfoldable pub fingerprint_of : Option (List ℕ) → List ℕ → List ℕ
  fingerprint_of (some fp) pk = fp
  fingerprint_of none [] = zeros 32
  fingerprint_of none (b ∷ bs) = sha256 (b ∷ bs)

  unfoldable pub header_for : List ℕ → ℕ → ℕ → ℕ → Option (List ℕ) → KemtlsPkFileHdr
  unfolding fingerprint_of crc32_buf
  header_for pk suite_id alg created_unix fingerprint32 = record {
    magic = 0x544D454B;
    version = 1;
    suite_id = suite_id;
    alg = alg;
    created_unix = created_unix;
    pk_len = u32 (length pk);
    pk_fingerprint = fingerprint_of fingerprint32 pk;
    crc32 = if length pk == 0 then 0 else crc32_buf pk;
  }

  -- `save_kemtls_pk_atomic`; the key is its bytes, and a null pointer goes with none.
  unfoldable pub save_kemtls_pk_atomic :
      SaveEnv → Files → List ℕ → ℕ → ℕ → ℕ → Option (List ℕ) → Bool × Files
  unfolding header_for header_bytes is_whole written
  save_kemtls_pk_atomic env files pk suite_id alg created_unix fingerprint32 =
      let hdr = header_bytes (header_for pk suite_id alg created_unix fingerprint32) in
      let with_header = written env.header_written [] hdr in
      let with_key =
        if length pk == 0 then with_header else written env.key_written with_header pk in
      if not env.opens
      then (false, files)
      else if not (is_whole env.header_written 56)
      then (false, record files { fresh = some with_header })
      else if not (length pk == 0) && not (is_whole env.key_written (length pk))
      then (false, record files { fresh = some with_key })
      else if not env.syncs
      then (false, record files { fresh = some with_key })
      else if not env.renames
      then (false, record files { fresh = some with_key })
      else (true, record { target = some with_key; fresh = none })

  -- `local_fp` of the load: `data()` of an empty vector is a null pointer, for which
  -- `compute_sha256` fails and leaves the zeros.
  unfoldable pub local_fp : List ℕ → List ℕ
  local_fp [] = zeros 32
  local_fp (b ∷ bs) = sha256 (b ∷ bs)

  unfoldable pub check_fingerprint : KemtlsPkFileHdr → Loaded → LoadResult
  unfolding load_failed local_fp
  check_fingerprint hdr out =
      if not (bytes_eq hdr.pk_fingerprint (zeros 32))
        && not (bytes_eq (local_fp out.out_pk) hdr.pk_fingerprint)
      then load_failed fingerprint_mismatch out
      else record { err = none; out = out }

  -- After the key was read.
  unfoldable pub check_key : KemtlsPkFileHdr → Loaded → LoadResult
  unfolding check_fingerprint load_failed crc32_buf
  check_key hdr out =
      if not (crc32_buf out.out_pk == hdr.crc32)
      then load_failed crc_mismatch out
      else check_fingerprint hdr (record out {
        out_suite_id = hdr.suite_id;
        out_alg = hdr.alg;
        out_created_unix = hdr.created_unix;
        out_fingerprint32 = hdr.pk_fingerprint;
      })

  -- After the header was read; `rest` is the file behind it.
  unfoldable pub load_key : KemtlsPkFileHdr → List ℕ → Loaded → LoadResult
  unfolding check_key load_failed read_into
  load_key hdr rest out =
      if not (hdr.magic == 0x544D454B)
      then load_failed bad_magic out
      else if not (hdr.version == 1)
      then load_failed unsupported_version out
      else if ltb (32 * 1024) hdr.pk_len
      then load_failed pk_len_too_large out
      else if ltb (length rest) hdr.pk_len
      then load_failed read_pk_failed (record out { out_pk = read_into hdr.pk_len rest })
      else check_key hdr (record out { out_pk = read_into hdr.pk_len rest })

  -- `load_kemtls_pk` on the bytes of the file, if it opens.
  unfoldable pub load_kemtls_pk : Option (List ℕ) → Loaded → LoadResult
  unfolding load_key load_failed read_header
  load_kemtls_pk none out = load_failed no_file out
  load_kemtls_pk (some file) out =
      if ltb (length file) 56
      then load_failed read_hdr_failed out
      else load_key (read_header (take 56 file)) (drop 56 file) out
