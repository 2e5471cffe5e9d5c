-- ===== src/Kemtls/Kdf.antt =====
-- GCS_KEMTLS.cpp: HMAC-SHA256, HKDF, the constant-time comparison of tags, and
-- `HqcSession::verify_finish_and_derive`. Wiping of local buffers is left out.
pub mod Tags
use pq_key_establishment_mav.Base.{
  ℕ, zero, suc, ◌-◌, List, [], ◌∷◌, ◌++◌, ◌==◌, if◌then◌else◌, take, ltb, length, min, map, bit_or,
  bit_xor, Bool,
}
use pq_key_establishment_mav.Base.Bytes.{zeros, codes}
use pq_key_establishment_mav.Kemtls.Types.{Platform, HqcSession}

-- The traffic keys that a verified Finished message leaves in the session.
pub record Keys : Type 0 where
  pub ms : List ℕ
  pub k_tx : List ℕ
  pub k_rx : List ℕ
  pub iv_tx : List ℕ
  pub iv_rx : List ℕ
  pub k_chacha_tx : List ℕ
  pub k_chacha_rx : List ℕ

-- diff |= a[i] ^ b[i] over the first `n` bytes, from `diff`.
unfoldable pub tag_diff : ℕ → ℕ → List ℕ → List ℕ → ℕ
tag_diff diff zero xs ys = diff
tag_diff diff (suc n) [] ys = diff
tag_diff diff (suc n) (x ∷ xs) [] = diff
tag_diff diff (suc n) (x ∷ xs) (y ∷ ys) = tag_diff (bit_or diff (bit_xor x y)) n xs ys

unfoldable pub install_keys : HqcSession → Keys → HqcSession
install_keys s k = record s {
  ms = k.ms;
  k_tx = k.k_tx;
  k_rx = k.k_rx;
  iv_tx = k.iv_tx;
  iv_rx = k.iv_rx;
  k_chacha_tx = k.k_chacha_tx;
  k_chacha_rx = k.k_chacha_rx;
}

module _ (c : Platform) where
  -- The 64-byte key block of HMAC.
  unfoldable pub hmac_block : List ℕ → List ℕ
  hmac_block key =
      if ltb 64 (length key) then c.sha256 key ++ zeros 32 else key ++ zeros (64 - length key)

  unfoldable pub hmac_sha256 : List ℕ → List ℕ → List ℕ
  unfolding hmac_block
  hmac_sha256 key msg =
      let ipad = map (λ b. bit_xor b 0x36) (hmac_block key) in
      let opad = map (λ b. bit_xor b 0x5c) (hmac_block key) in
      c.sha256 (opad ++ c.sha256 (ipad ++ msg))

  unfoldable pub hkdf_extract : List ℕ → List ℕ → List ℕ
  unfolding hmac_sha256
  hkdf_extract salt ikm = hmac_sha256 salt ikm

  -- One block of HKDF-Expand over "ardupilot-hqc-v1:" || label || context || 0x01.
  unfoldable pub hkdf_expand_label : List ℕ → List ℕ → List ℕ → ℕ → List ℕ
  unfolding hmac_sha256
  hkdf_expand_label prk label context size =
      let info = codes "ardupilot-hqc-v1:" ++ (label ++ (context ++ (0x01 ∷ []))) in
      take (min size 32) (hmac_sha256 prk info)

  -- PRK = HKDF-Extract(SHA256(salt || LE(session_id)), ss_e || ss_s)
  unfoldable pub handshake_prk : List ℕ → List ℕ → List ℕ → List ℕ → List ℕ
  unfolding hkdf_extract
  handshake_prk ss_e ss_s salt sid_le =
      hkdf_extract (c.sha256 (take 16 salt ++ sid_le))
        (take c.ss_bytes ss_e ++ take c.ss_bytes ss_s)

  unfoldable pub expected_tag : List ℕ → List ℕ → List ℕ
  unfolding hkdf_expand_label hmac_sha256
  expected_tag prk th = hmac_sha256 (hkdf_expand_label prk (codes "finished") [] 32) (take 32 th)

  unfoldable pub session_keys : List ℕ → Keys
  unfolding hkdf_expand_label
  session_keys prk = record {
    ms = hkdf_expand_label prk (codes "ms") [] 32;
    k_tx = hkdf_expand_label prk (codes "key:tx") [] 16;
    k_rx = hkdf_expand_label prk (codes "key:rx") [] 16;
    iv_tx = hkdf_expand_label prk (codes "iv:tx") [] 12;
    iv_rx = hkdf_expand_label prk (codes "iv:rx") [] 12;
    k_chacha_tx = hkdf_expand_label prk (codes "chacha:key:tx") [] 32;
    k_chacha_rx = hkdf_expand_label prk (codes "chacha:key:rx") [] 32;
  }

  -- The session with its keys if the tag is right, and whether it is.
  unfoldable pub verify_finish_and_derive :
      HqcSession → List ℕ → List ℕ → List ℕ → List ℕ → List ℕ → List ℕ → HqcSession × Bool
  unfolding handshake_prk expected_tag tag_diff session_keys install_keys
  verify_finish_and_derive s peer_tag th ss_e ss_s salt sid_le =
      let prk = handshake_prk ss_e ss_s salt sid_le in
      let ok = tag_diff 0 32 (expected_tag prk th) peer_tag == 0 in
      (if ok then install_keys s (session_keys prk) else s, ok)
