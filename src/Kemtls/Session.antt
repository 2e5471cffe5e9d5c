-- ===== src/Kemtls/Session.antt =====
-- GCS_KEMTLS.cpp: the parts of a session that every handler uses, `ap_kem_enc` of
-- AP_KEM/ap_kem.cpp and `HqcSession::start_encap`.
pub mod Wiped
use pq_key_establishment_mav.Base.{
  ℕ, ◌-◌, List, ◌++◌, ◌==◌, if◌then◌else◌, take, ltb, min, Bool, true, false, not, Option, none,
  some, replicate,
}
use pq_key_establishment_mav.Base.Bytes.{zeros}
use pq_key_establishment_mav.Kemtls.Types.{
  Platform, HqcRxBuf, HqcSession, HqcState, reset_rx, chunks_of,
}

-- `GCS_MAVLINK::clamp_kex_params`
unfoldable pub clamp_kex_params : HqcRxBuf → HqcRxBuf
clamp_kex_params rx =
    let mtu_hi = if ltb 220 rx.mtu then 220 else rx.mtu in
    let window_hi = if ltb 8 rx.window then 8 else rx.window in
    record rx {
      mtu = if ltb mtu_hi 32 then 32 else mtu_hi;
      window = if ltb window_hi 1 then 1 else window_hi;
    }

-- `HqcSession::reset`: the owner, its channel and `t_start` stay.
unfoldable pub reset : HqcSession → HqcSession
unfolding reset_rx
reset s = record s {
  th = zeros 32;
  ms = zeros 32;
  k_tx = zeros 16;
  k_rx = zeros 16;
  iv_tx = zeros 12;
  iv_rx = zeros 12;
  k_chacha_tx = zeros 32;
  k_chacha_rx = zeros 32;
  rx = reset_rx s.rx;
  state = HqcState.idle;
  suite_kem = 1;
  aead_alg = 1;
  negotiated_mtu = 220;
  negotiated_window = 8;
  t_last_rx = 0;
  t_last_tx = 0;
  retries_total = 0;
}

-- `HqcSession::on_hello_start` and `HqcSession::note_rx`
unfoldable pub on_hello_start : HqcSession → ℕ → ℕ → HqcSession
on_hello_start s ch now = record s {
  owned = true;
  chan_hs = ch;
  t_start = now;
  t_last_rx = now;
  t_last_tx = now;
}

unfoldable pub note_rx : HqcSession → ℕ → HqcSession
note_rx s now = record s { t_last_rx = now }

-- The negotiated cipher: 0 none, 1 ChaCha20, 2 AES-CTR; anything else is 1.
unfoldable pub select_aead : ℕ → ℕ
select_aead offer = if offer == 0 then 0 else if offer == 1 then 1 else if offer == 2 then 2 else 1

-- What one call of the KEM meets: its randomness, and whether the entropy source has failed
-- before the call and after it.
pub record Entropy : Type 0 where
  pub coins : ℕ
  pub failed_before : Bool
  pub failed_after : Bool

-- The call's answer: success, and the two buffers it wrote.
pub record Encap : Type 0 where
  pub success : Bool
  pub ct : List ℕ
  pub ss : List ℕ

-- The buffer that holds the ciphertext: the old one, or what `malloc` gives.
unfoldable pub or_malloc : Option (List ℕ) → Option (List ℕ) → Option (List ℕ)
or_malloc (some ct) fresh = some ct
or_malloc none fresh = fresh

module _ (c : Platform) where
  -- `ap_kem_enc`
  unfoldable pub ap_kem_enc : Entropy → List ℕ → List ℕ → List ℕ → Encap
  ap_kem_enc e ct ss pk =
      let (rc, ct', ss') = c.kem_enc e.coins pk in
      if e.failed_before
      then record { success = false; ct = ct; ss = ss }
      else if rc == 0
      then record { success = not e.failed_after; ct = ct'; ss = ss' }
      else record { success = false; ct = ct'; ss = ss' }

  -- A 64-byte secret field, cleared and filled with what fits of the KEM's secret.
  unfoldable pub secret_field : List ℕ → List ℕ
  secret_field ss = take (min 64 c.ss_bytes) ss ++ zeros (64 - min 64 c.ss_bytes)

  unfoldable pub encap_into : HqcSession → Entropy → List ℕ → List ℕ → HqcSession
  unfolding ap_kem_enc secret_field chunks_of
  encap_into s e ct pke =
      let r = ap_kem_enc e ct (zeros c.ss_bytes) pke in
      if r.success
      then record s {
        rx = record (s.rx) {
          cte = some r.ct;
          ss_e = secret_field r.ss;
          cte_len = c.ct_bytes;
          cte_acked = replicate (chunks_of c.ct_bytes s.rx.mtu) false;
        };
        state = HqcState.encap_done;
      }
      else record s { rx = record (s.rx) { cte = some r.ct }; state = HqcState.fail }

  -- `HqcSession::start_encap`; `fresh` is what `malloc` gives if the buffer is still missing.
  unfoldable pub start_encap : HqcSession → Option (List ℕ) → Entropy → HqcSession
  unfolding encap_into or_malloc
  start_encap s fresh e = elim s.rx.pke [
    | none ↦ record s { state = HqcState.fail }
    | some pke ↦ elim (or_malloc s.rx.cte fresh) [
      | none ↦ record s { state = HqcState.fail }
      | some ct ↦ encap_into s e ct pke
    ]
  ]
