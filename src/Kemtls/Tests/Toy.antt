-- ===== src/Kemtls/Tests/Toy.antt =====
-- A toy platform, sessions on it, and messages for them.
use pq_key_establishment_mav.Base.{
  ℕ, ◌+◌, ◌*◌, ◌%◌, refl, arith, List, [], ◌∷◌, ◌++◌, ◌≤◌, replicate, true, false, none, some,
}
use pq_key_establishment_mav.Base.Bytes.{zeros, le_value}
use pq_key_establishment_mav.Kemtls.Types.{
  Platform, IsPlatform, HqcRxBuf, HqcSession, HqcState, PkChunk,
}
use pq_key_establishment_mav.Kemtls.PkChunk.{PkEnv}
use pq_key_establishment_mav.Kemtls.Types.{Hello}
use pq_key_establishment_mav.Kemtls.Pdk.{HelloEnv, pdk_size}

unfoldable pub sum_of : List ℕ → ℕ
sum_of [] = 7
sum_of (x ∷ xs) = x + 3 * sum_of xs

abbrev pub toy : Platform
toy = record {
  sha256 = λ m. sum_of m % 256 ∷ zeros 31;
  pk_bytes = 5;
  ct_bytes = 6;
  ss_bytes = 64;
  kem_enc = λ r pk. (0, replicate 6 r, replicate 64 r);
  kex_code = λ k. 0;
  alg_chacha20 = 1;
  alg_aesctr128 = 2;
}

pub toy-IsPlatform : IsPlatform toy
toy-IsPlatform = record {
  sha256_size = λ m. refl;
  ct_pos = omega arith;
  ct_small = omega arith;
  ct_size = λ r pk. refl;
  chacha20_code = refl;
  aesctr128_code = refl;
}

abbrev pub buffers : HqcRxBuf
buffers = record {
  session_id = 9;
  pk_len = 5;
  ct_len = 0;
  version = 1;
  suite_id = 1;
  flags = 0;
  salt = zeros 16;
  ss_s = replicate 64 3;
  ss_e = replicate 64 4;
  pke_crc = 0;
  cte_crc = 0;
  pke = some (zeros 5);
  cte = some (1 ∷ 2 ∷ 3 ∷ 4 ∷ 5 ∷ 6 ∷ []);
  pke_rcvd = 0;
  cte_sent = 4;
  pks = none;
  cts = some (6 ∷ 5 ∷ 4 ∷ 3 ∷ 2 ∷ 1 ∷ []);
  cts_sent = 6;
  mtu = 4;
  window = 2;
  retries = λ _. 0;
  max_retries = 3;
  ct_acked = [];
  cte_len = 6;
  cts_len = 6;
  cte_acked = true ∷ false ∷ [];
  cts_acked = true ∷ true ∷ [];
  aead_offer = 1;
  rc = zeros 32;
  rs = zeros 32;
  pke_acked = [];
}

abbrev pub sending : HqcSession
sending = record {
  state = HqcState.ct_tx;
  rx = buffers;
  suite_kem = 1;
  aead_alg = 1;
  negotiated_mtu = 4;
  negotiated_window = 2;
  th = zeros 32;
  ms = zeros 32;
  k_tx = zeros 16;
  k_rx = zeros 16;
  iv_tx = zeros 12;
  iv_rx = zeros 12;
  t_start = 1000;
  t_last_rx = 1000;
  t_last_tx = 1000;
  retries_total = 0;
  owned = true;
  chan_hs = 0;
  k_chacha_tx = replicate 32 1;
  k_chacha_rx = replicate 32 2;
}

-- Both streams are through.
abbrev pub waiting : HqcSession
waiting = record sending {
  state = HqcState.wait_cf;
  rx = record buffers { cte_acked = true ∷ true ∷ []; cte_sent = 6 };
}

abbrev pub running_session : HqcSession
running_session = record sending { state = HqcState.active }

abbrev pub key : List ℕ
key = 10 ∷ 20 ∷ 30 ∷ 40 ∷ 50 ∷ []

abbrev pub env : PkEnv
env = record {
  now = 1100;
  malloc_cte = some (zeros 6);
  entropy = record { coins = 3; failed_before = false; failed_after = false };
}

abbrev pub first_part : PkChunk
first_part = record { session_id = 9; offset = 0; count = 4; payload = 10 ∷ 20 ∷ 30 ∷ 40 ∷ [] }

abbrev pub last_part : PkChunk
last_part = record { session_id = 9; offset = 4; count = 1; payload = 50 ∷ 0 ∷ 0 ∷ 0 ∷ [] }

abbrev pub greeting : Hello
greeting = record {
  session_id = 9;
  pk_len = 5;
  version = 1;
  suite_id = 1;
  flags = 0;
  aead_offer = 1;
  handshake_salt = zeros 16;
  rc = zeros 32;
}

-- A key file with a key of 5 bytes and its fingerprint, read in two parts.
abbrev pub key_file : HelloEnv
key_file = record {
  now = 1000;
  chan = 0;
  malloc_pke = some (zeros 5);
  stat = some 61;
  opens = true;
  header = 75 ∷ 69 ∷ 77 ∷ 84 ∷ 1 ∷ 0 ∷ 1 ∷ 0 ∷ (zeros 8 ++ 5 ∷ 0 ∷ 0 ∷ 0 ∷ 3 ∷ zeros 35);
  stat2 = some 61;
  calloc_pks = true;
  reads = (10 ∷ 20 ∷ []) ∷ (30 ∷ 40 ∷ 50 ∷ []) ∷ [];
  malloc_cts = some (zeros 6);
  entropy = record { coins = 3; failed_before = false; failed_after = false };
}

pub key_file_small : pdk_size key_file.header ≤ 5
unfolding pdk_size le_value
key_file_small = omega arith
