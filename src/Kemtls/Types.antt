-- ===== src/Kemtls/Types.antt =====
-- GCS.h, `struct HqcRxBuf`, `enum class HqcState`, `struct HqcSession`, and the MAVLink records that
-- the handlers read and send. A pointer to a heap buffer is an `Option` of its bytes, a vector of
-- acknowledgement flags (0 or 1) a list of Booleans, and `retries` a function in which a missing
-- key counts 0, which is how every reader of the map treats it.
use pq_key_establishment_mav.Base.{
  ℕ, ◌+◌, ◌-◌, ◌/◌, ◌<◌, ◌≡◌, ◌^◌, List, [], Option, none, Bool, length,
}
use pq_key_establishment_mav.Base.Bytes.{zeros, u32}

-- The result codes of the handshake messages.
pub data KexStatus : Type 0 where
  kex_ok kex_rejected kex_bad_len kex_bad_seq kex_internal kex_enc_unav kex_in_progress
        kex_timeout :
      KexStatus

-- What the handlers take from outside: SHA-256 and the KEM of the vendored library (`kem_enc`
-- gives the return code, the ciphertext and the shared secret; the number stands for the
-- randomness that it draws), and constants of generated headers.
pub record Platform : Type 0 where
  pub sha256 : List ℕ → List ℕ
  pub pk_bytes : ℕ
  pub ct_bytes : ℕ
  pub ss_bytes : ℕ
  pub kem_enc : ℕ → List ℕ → ℕ × List ℕ × List ℕ
  pub kex_code : KexStatus → ℕ
  pub alg_chacha20 : ℕ
  pub alg_aesctr128 : ℕ

-- The documented sizes of what the platform returns, and the algorithm numbers that the
-- comments of `mavlink_get_crypt_config` give.
pub record IsPlatform (c : Platform) : Type 0 where
  pub sha256_size : (m : List ℕ) → length (c.sha256 m) ≡ 32
  pub ct_pos : 0 < c.ct_bytes
  pub ct_small : c.ct_bytes < 2 ^ 16
  pub ct_size : (r : ℕ) (pk : List ℕ) → length (c.kem_enc r pk).1 ≡ c.ct_bytes
  pub chacha20_code : c.alg_chacha20 ≡ 1
  pub aesctr128_code : c.alg_aesctr128 ≡ 2

pub data HqcState : Type 0 where
  idle hello_rcvd pk_rx encap_ready encap_done ct_tx wait_cf active fail : HqcState

pub record HqcRxBuf : Type 0 where
  pub session_id : ℕ
  pub pk_len : ℕ
  pub ct_len : ℕ
  pub version : ℕ
  pub suite_id : ℕ
  pub flags : ℕ
  pub salt : List ℕ
  pub ss_s : List ℕ
  pub ss_e : List ℕ
  pub pke_crc : ℕ
  pub cte_crc : ℕ
  pub pke : Option (List ℕ)
  pub cte : Option (List ℕ)
  pub pke_rcvd : ℕ
  pub cte_sent : ℕ
  pub pks : Option (List ℕ)
  pub cts : Option (List ℕ)
  pub cts_sent : ℕ
  pub mtu : ℕ
  pub window : ℕ
  pub retries : ℕ → ℕ
  pub max_retries : ℕ
  pub ct_acked : List Bool
  pub cte_len : ℕ
  pub cts_len : ℕ
  pub cte_acked : List Bool
  pub cts_acked : List Bool
  pub aead_offer : ℕ
  pub rc : List ℕ
  pub rs : List ℕ
  pub pke_acked : List Bool

-- `HqcRxBuf::reset`: `ct_acked`, `aead_offer`, `rc` and `rs` keep their values.
unfoldable pub reset_rx : HqcRxBuf → HqcRxBuf
reset_rx rx = record rx {
  session_id = 0;
  pk_len = 0;
  ct_len = 0;
  version = 1;
  suite_id = 1;
  flags = 0;
  salt = zeros 16;
  ss_s = zeros 64;
  ss_e = zeros 64;
  pke_crc = 0;
  cte_crc = 0;
  pke = none;
  cte = none;
  pks = none;
  cts = none;
  pke_rcvd = 0;
  cte_sent = 0;
  cts_sent = 0;
  mtu = 220;
  window = 8;
  retries = λ _. 0;
  max_retries = 3;
  pke_acked = [];
  cte_len = 0;
  cts_len = 0;
  cte_acked = [];
  cts_acked = [];
}

-- (len + mtu - 1) / mtu, the number of fragments of `len` bytes.
unfoldable pub chunks_of : ℕ → ℕ → ℕ
chunks_of len mtu = u32 (len + mtu - 1) / mtu

-- `HqcRxBuf::pk_chunks` and `HqcRxBuf::ct_chunks`.
unfoldable pub pk_chunks : HqcRxBuf → ℕ
unfolding chunks_of
pk_chunks rx = chunks_of rx.pk_len rx.mtu

unfoldable pub ct_chunks : HqcRxBuf → ℕ
unfolding chunks_of
ct_chunks rx = chunks_of rx.ct_len rx.mtu

-- `owned` says that `owner` is not null.
pub record HqcSession : Type 0 where
  pub state : HqcState
  pub rx : HqcRxBuf
  pub suite_kem : ℕ
  pub aead_alg : ℕ
  pub negotiated_mtu : ℕ
  pub negotiated_window : ℕ
  pub th : List ℕ
  pub ms : List ℕ
  pub k_tx : List ℕ
  pub k_rx : List ℕ
  pub iv_tx : List ℕ
  pub iv_rx : List ℕ
  pub t_start : ℕ
  pub t_last_rx : ℕ
  pub t_last_tx : ℕ
  pub retries_total : ℕ
  pub owned : Bool
  pub chan_hs : ℕ
  pub k_chacha_tx : List ℕ
  pub k_chacha_rx : List ℕ

-- mavlink_hqc_hello_t
pub record Hello : Type 0 where
  pub session_id : ℕ
  pub pk_len : ℕ
  pub version : ℕ
  pub suite_id : ℕ
  pub flags : ℕ
  pub aead_offer : ℕ
  pub handshake_salt : List ℕ
  pub rc : List ℕ

-- mavlink_hqc_hello_ack_t
pub record HelloAck : Type 0 where
  pub session_id : ℕ
  pub mtu : ℕ
  pub window : ℕ
  pub required_alg : ℕ
  pub accept : ℕ
  pub status : KexStatus
  pub ct_e_len : ℕ
  pub ct_s_len : ℕ
  pub rs : List ℕ

-- mavlink_hqc_pk_chunk_t; `payload` is its field `data`.
pub record PkChunk : Type 0 where
  pub session_id : ℕ
  pub offset : ℕ
  pub count : ℕ
  pub payload : List ℕ

-- mavlink_hqc_ct_ack_t
pub record CtAck : Type 0 where
  pub session_id : ℕ
  pub ct_kind : ℕ
  pub base : ℕ
  pub mask : ℕ

-- mavlink_hqc_finish_t
pub record Finish : Type 0 where
  pub session_id : ℕ
  pub role : ℕ
  pub tag_len : ℕ
  pub tag : List ℕ

-- What a handler sends, in order, and its call of `enable_signing_with_key` (key, timestamp,
-- persist). Status texts for the operator are left out.
pub data Out : Type 0 where
  hello_ack : HelloAck → Out
  pk_ack : ℕ → ℕ → ℕ → Out
  ct_chunk : ℕ → ℕ → ℕ → ℕ → List ℕ → Out
  hqc_status : ℕ → ℕ → KexStatus → ℕ → Out
  hqc_abort : ℕ → KexStatus → ℕ → ℕ → Out
  enable_signing : List ℕ → ℕ → Bool → Out

pub record Reply : Type 0 where
  pub session : HqcSession
  pub out : List Out
