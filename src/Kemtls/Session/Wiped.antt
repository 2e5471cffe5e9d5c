-- ===== src/Kemtls/Session/Wiped.antt =====
-- `HqcSession::reset` leaves no secret behind.
use pq_key_establishment_mav.Base.{◌≡◌, refl, none}
use pq_key_establishment_mav.Base.Bytes.{zeros}
use pq_key_establishment_mav.Kemtls.Types.{HqcSession, HqcState}
use pq_key_establishment_mav.Kemtls.Session.{reset}

-- Every secret of a session is zero, and its buffers are gone.
pub record IsWiped (s : HqcSession) : Type 0 where
  pub transcript : s.th ≡ zeros 32
  pub master : s.ms ≡ zeros 32
  pub aes_keys : (s.k_tx ≡ zeros 16) × (s.k_rx ≡ zeros 16)
  pub ivs : (s.iv_tx ≡ zeros 12) × (s.iv_rx ≡ zeros 12)
  pub chacha_keys : (s.k_chacha_tx ≡ zeros 32) × (s.k_chacha_rx ≡ zeros 32)
  pub secrets : (s.rx.ss_e ≡ zeros 64) × (s.rx.ss_s ≡ zeros 64)
  pub buffers : (s.rx.pke ≡ none) × (s.rx.pks ≡ none) × (s.rx.cte ≡ none) × (s.rx.cts ≡ none)

pub reset-IsWiped : (s : HqcSession) → IsWiped (reset s)
unfolding reset
reset-IsWiped s = record {
  transcript = refl;
  master = refl;
  aes_keys = (refl, refl);
  ivs = (refl, refl);
  chacha_keys = (refl, refl);
  secrets = (refl, refl);
  buffers = (refl, refl, refl, refl);
}

-- The state does not matter.
pub IsWiped-state : (s : HqcSession) (st : HqcState) → IsWiped s → IsWiped (record s { state = st })
IsWiped-state s st w = record {
  transcript = w.transcript;
  master = w.master;
  aes_keys = w.aes_keys;
  ivs = w.ivs;
  chacha_keys = w.chacha_keys;
  secrets = w.secrets;
  buffers = w.buffers;
}
