-- ===== src/Kemtls/Crypt/Reuse.antt =====
-- Which frames get the same key, nonce and counter. The sequence number of a MAVLink frame is one
-- byte: frame `n` of a direction carries `n % 256`.
use pq_key_establishment_mav.Base.{
  ℕ, ◌%◌, ◌≡◌, ◌↔◌, ◌⊎◌, inl, inr, refl, ap, List, [], ◌∷◌, ◌++◌, arith, Bool, Option, none, some,
  take, if◌then◌else◌, sym, ◌∙◌,
}
use pq_key_establishment_mav.Base.Bytes.{u8}
use pq_key_establishment_mav.Kemtls.Types.{Platform, IsPlatform, HqcSession, HqcState}
use pq_key_establishment_mav.Kemtls.Crypt.{CryptConfig, session_crypt, counter_be}

-- The last byte, and `counter0`: what the sequence number reaches.
last_of : List ℕ → ℕ
last_of [] = 0
last_of (x ∷ []) = x
last_of (x ∷ y ∷ ys) = last_of (y ∷ ys)

last_of-append : (xs : List ℕ) (a b d e : ℕ) → last_of (xs ++ a ∷ b ∷ d ∷ e ∷ []) ≡ e
unfolding last_of
last_of-append [] a b d e = refl
last_of-append (x ∷ []) a b d e = refl
last_of-append (x ∷ y ∷ ys) a b d e = last_of-append (y ∷ ys) a b d e

counters : Option CryptConfig → ℕ × ℕ
counters none = (0, 0)
counters (some cfg) = (last_of cfg.nonce_out, cfg.counter0)

module _ (c : Platform) (ok : IsPlatform c) (s : HqcSession) (is_tx : Bool) where
  abbrev iv : List ℕ
  iv = take 12 (if is_tx then s.iv_tx else s.iv_rx)

  abbrev chacha : ℕ → CryptConfig
  chacha seq = record {
    alg = s.aead_alg;
    key_out = take 32 (if is_tx then s.k_chacha_tx else s.k_chacha_rx);
    nonce_out = iv;
    counter0 = u8 seq;
  }

  abbrev aesctr : ℕ → CryptConfig
  aesctr seq = record {
    alg = s.aead_alg;
    key_out = take 16 (if is_tx then s.k_tx else s.k_rx);
    nonce_out = iv ++ counter_be (u8 seq);
    counter0 = 0;
  }

  session_crypt-chacha :
      (seq : ℕ)
      → s.state ≡ HqcState.active
      → s.aead_alg ≡ 1
      → session_crypt c s is_tx seq ≡ some (chacha seq)
  unfolding session_crypt
  session_crypt-chacha seq a e = ground (arith, ok)

  session_crypt-aesctr :
      (seq : ℕ)
      → s.state ≡ HqcState.active
      → s.aead_alg ≡ 2
      → session_crypt c s is_tx seq ≡ some (aesctr seq)
  unfolding session_crypt
  session_crypt-aesctr seq a e = ground (arith, ok)

  session_crypt-some :
      (seq : ℕ) (cfg : CryptConfig)
      → session_crypt c s is_tx seq ≡ some cfg
      → (s.state ≡ HqcState.active) × ((s.aead_alg ≡ 1) ⊎ (s.aead_alg ≡ 2))
  unfolding session_crypt
  session_crypt-some seq cfg e = ground (arith, ok)

  -- A frame is encrypted exactly while the session is active with ChaCha20 or AES-CTR chosen.
  session_crypt_iff :
      (seq : ℕ)
      → ((cfg : CryptConfig) × (session_crypt c s is_tx seq ≡ some cfg))
        ↔ ((s.state ≡ HqcState.active) × ((s.aead_alg ≡ 1) ⊎ (s.aead_alg ≡ 2)))
  session_crypt_iff seq = (
    λ (cfg, e). session_crypt-some seq cfg e,
    λ (a, k). elim k [
      | inl e ↦ (chacha seq, session_crypt-chacha seq a e)
      | inr e ↦ (aesctr seq, session_crypt-aesctr seq a e)
    ],
  )

  -- In an active session with ChaCha20 or AES-CTR, two frames of one direction get the same key, nonce and counter exactly if their numbers
  -- agree modulo 256: after 256 frames every key stream is used again.
  pub session_crypt_reuse_iff :
      (n m : ℕ)
      → s.state ≡ HqcState.active
      → (s.aead_alg ≡ 1) ⊎ (s.aead_alg ≡ 2)
      → (session_crypt c s is_tx (n % 256) ≡ session_crypt c s is_tx (m % 256))
        ↔ (n % 256 ≡ m % 256)
  unfolding counters counter_be
  session_crypt_reuse_iff n m a (inl e) = (
    λ h.
        let q : u8 (n % 256) ≡ u8 (m % 256) =
          ap (λ t. (counters t).1)
            (sym (session_crypt-chacha (n % 256) a e) ∙ (h ∙ session_crypt-chacha (m % 256) a e)) in
        omega arith,
    λ h. ap (session_crypt c s is_tx) h,
  )
  session_crypt_reuse_iff n m a (inr e) = (
    λ h.
        let p =
          ap (λ t. (counters t).0)
            (sym (session_crypt-aesctr (n % 256) a e) ∙ (h ∙ session_crypt-aesctr (m % 256) a e)) in
        let q : u8 (u8 (n % 256)) ≡ u8 (u8 (m % 256)) =
          rw (last_of-append iv, last_of-append iv) at p in
        omega arith,
    λ h. ap (session_crypt c s is_tx) h,
  )
