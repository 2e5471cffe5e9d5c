-- ===== src/Kemtls/Crypt.antt =====
-- GCS_KEMTLS.cpp: `mavlink_get_crypt_config` and `mavlink_is_cleartext_msg`, which the patched
-- MAVLink helpers call for each frame. The backend of a channel that does not exist is `none`.
pub mod Reuse
use pq_key_establishment_mav.Base.{
  ℕ, ◌/◌, ◌^◌, List, [], ◌∷◌, ◌++◌, ◌==◌, if◌then◌else◌, ltb, take, Bool, true, false, ◌||◌, not,
  Option, none, some,
}
use pq_key_establishment_mav.Base.Bytes.{u8}
use pq_key_establishment_mav.Kemtls.Types.{Platform, HqcSession, HqcState}

-- What the cipher is given: the bytes written to `key_out` and `nonce_out`, and `counter0`.
pub record CryptConfig : Type 0 where
  pub alg : ℕ
  pub key_out : List ℕ
  pub nonce_out : List ℕ
  pub counter0 : ℕ

unfoldable pub is_active : HqcState → Bool
is_active HqcState.active = true
is_active _ = false

-- The counter in big-endian order.
unfoldable pub counter_be : ℕ → List ℕ
counter_be seq = u8 (seq / 2 ^ 24) ∷ u8 (seq / 2 ^ 16) ∷ u8 (seq / 2 ^ 8) ∷ u8 seq ∷ []

-- The sequence number arrives in one byte.
unfoldable pub session_crypt : Platform → HqcSession → Bool → ℕ → Option CryptConfig
unfolding is_active counter_be
session_crypt c s is_tx seq =
    let iv = take 12 (if is_tx then s.iv_tx else s.iv_rx) in
    let seq8 = u8 seq in
    if not (is_active s.state)
    then none
    else if s.aead_alg == 0
    then none
    else if s.aead_alg == c.alg_chacha20
    then some (record {
      alg = s.aead_alg;
      key_out = take 32 (if is_tx then s.k_chacha_tx else s.k_chacha_rx);
      nonce_out = iv;
      counter0 = seq8;
    })
    else if s.aead_alg == c.alg_aesctr128
    then some (record {
      alg = s.aead_alg;
      key_out = take 16 (if is_tx then s.k_tx else s.k_rx);
      nonce_out = iv ++ counter_be seq8;
      counter0 = 0;
    })
    else none

-- `backends` gives the session of the link on a channel, `buffers` is MAVLINK_COMM_NUM_BUFFERS.
unfoldable pub mavlink_get_crypt_config :
    Platform → ℕ → (ℕ → Option HqcSession) → ℕ → Bool → ℕ → Option CryptConfig
unfolding session_crypt
mavlink_get_crypt_config c buffers backends chan is_tx seq =
    if ltb chan buffers
    then elim (backends chan) as (λ _. Option CryptConfig) [
      | none ↦ none
      | some s ↦ session_crypt c s is_tx seq
    ]
    else none

unfoldable pub mavlink_is_cleartext_msg : ℕ → Bool
mavlink_is_cleartext_msg msgid =
    msgid == 61000
    || (msgid == 61001
        || (msgid == 61002
            || (msgid == 61003
                || (msgid == 61004 || (msgid == 61005 || (msgid == 61006 || msgid == 61007))))))
