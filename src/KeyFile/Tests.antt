-- ===== src/KeyFile/Tests.antt =====
-- The theorems on the key file with a short key and a stand-in for the hash.
use pq_key_establishment_mav.Base.{
  ℕ, ◌≡◌, refl, ap, arith, inr, List, [], ◌∷◌, length, take, drop, none, some, true, false,
}
use pq_key_establishment_mav.Base.Bytes.{u8, zeros}
use pq_key_establishment_mav.Kemtls.Pdk.{HelloEnv, pdk_bad}
use pq_key_establishment_mav.KeyFile.{
  fingerprint_of, read_header, SaveEnv, Files, save_kemtls_pk_atomic, Loaded, LoadResult,
  load_kemtls_pk,
}
use pq_key_establishment_mav.KeyFile.Save.{key_file, IsAtomic, save_kemtls_pk_atomic-IsAtomic}
use pq_key_establishment_mav.KeyFile.Load.{IsChecked, load_kemtls_pk-IsChecked}
use pq_key_establishment_mav.KeyFile.RoundTrip.{
  IsSaved, load_kemtls_pk-key_file, load_kemtls_pk-save_kemtls_pk_atomic,
}
use pq_key_establishment_mav.KeyFile.Bootstrap.{CopyEnv, kemtls_pdk_bootstrap_copy_if_missing}
use pq_key_establishment_mav.KeyFile.Bootstrap.Copied.{IsBootstrapped, bootstrap-IsBootstrapped}
use pq_key_establishment_mav.KeyFile.Offered.{pdk_bad-key_file}

abbrev hash : List ℕ → List ℕ
hash bs = u8 (length bs) ∷ zeros 31

abbrev short_key : List ℕ
short_key = 1 ∷ 2 ∷ 3 ∷ []

abbrev nothing_loaded : Loaded
nothing_loaded = record {
  out_pk = [];
  out_suite_id = 0;
  out_alg = 0;
  out_created_unix = 0;
  out_fingerprint32 = zeros 32;
}

abbrev works : SaveEnv
works = record {
  opens = true;
  header_written = some 56;
  key_written = some 3;
  syncs = true;
  renames = true;
}

abbrev disk_full : SaveEnv
disk_full = record works { key_written = some 2 }

abbrev no_files : Files
no_files = record { target = none; fresh = none }

short_key-IsSaved : IsSaved hash short_key 1 2 1700000000 none
unfolding fingerprint_of
short_key-IsSaved = record {
  small = omega arith;
  byte_suite = omega arith;
  byte_alg = omega arith;
  word_created = omega arith;
  fingerprint = refl;
}

save_kemtls_pk_atomic-IsAtomic_example :
    IsAtomic hash none
      (key_file hash short_key 1 2 1700000000 none)
      (save_kemtls_pk_atomic hash disk_full no_files short_key 1 2 1700000000 none)
save_kemtls_pk_atomic-IsAtomic_example =
    save_kemtls_pk_atomic-IsAtomic hash disk_full no_files short_key 1 2 1700000000 none
      short_key-IsSaved.fingerprint

load_kemtls_pk-IsChecked_example :
    IsChecked hash
      (read_header (take 56 (key_file hash short_key 1 2 1700000000 none)))
      (drop 56 (key_file hash short_key 1 2 1700000000 none))
      (load_kemtls_pk hash (some (key_file hash short_key 1 2 1700000000 none)) nothing_loaded).out
unfolding fingerprint_of
load_kemtls_pk-IsChecked_example =
    load_kemtls_pk-IsChecked hash (key_file hash short_key 1 2 1700000000 none) nothing_loaded (
      ap (λ (r : LoadResult). r.err)
        (load_kemtls_pk-key_file hash short_key 1 2 1700000000 none nothing_loaded short_key-IsSaved
          (inr (omega arith, refl))))

load_kemtls_pk-save_kemtls_pk_atomic_example :
    load_kemtls_pk hash
      (save_kemtls_pk_atomic hash works no_files short_key 1 2 1700000000 none).1.target
      nothing_loaded
    ≡ record {
      err = none;
      out = record {
        out_pk = short_key;
        out_suite_id = 1;
        out_alg = 2;
        out_created_unix = 1700000000;
        out_fingerprint32 = fingerprint_of hash none short_key;
      };
    }
unfolding fingerprint_of save_kemtls_pk_atomic
load_kemtls_pk-save_kemtls_pk_atomic_example =
    load_kemtls_pk-save_kemtls_pk_atomic hash works no_files short_key 1 2 1700000000 none
      nothing_loaded short_key-IsSaved (inr (omega arith, refl)) refl

abbrev found : HelloEnv
found = record {
  now = 0;
  chan = 0;
  malloc_pke = none;
  stat = some 59;
  opens = true;
  header = take 56 (key_file hash short_key 1 2 1700000000 none);
  stat2 = some (length (key_file hash short_key 1 2 1700000000 none));
  calloc_pks = true;
  reads = short_key ∷ [];
  malloc_cts = none;
  entropy = record { coins = 0; failed_before = false; failed_after = false };
}

pdk_bad-key_file_example : pdk_bad found ≡ false
pdk_bad-key_file_example =
    pdk_bad-key_file hash found short_key 2 1700000000 none short_key-IsSaved (omega arith) refl
      refl

-- Two bytes are read and then one, and a write takes one byte at a time.
abbrev drip : CopyEnv
drip = record {
  source_exists = true;
  opens_source = true;
  opens_target = true;
  reads = some (1 ∷ 2 ∷ []) ∷ some (3 ∷ []) ∷ some [] ∷ [];
  accepts = λ written offered. 1;
  renames = true;
}

bootstrap-IsBootstrapped_example :
    IsBootstrapped drip no_files (kemtls_pdk_bootstrap_copy_if_missing drip no_files)
bootstrap-IsBootstrapped_example = bootstrap-IsBootstrapped drip no_files
