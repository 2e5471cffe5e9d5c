-- ===== src/Kemtls/Hello.antt =====
-- GCS_KEMTLS.cpp, `GCS_MAVLINK::handle_hqc_hello`: the offer is checked, the pre-distributed key
-- is read from its file, the static ciphertext is made and its first window sent.
pub mod Checked
use pq_key_establishment_mav.Base.{
  ℕ, ◌+◌, ◌-◌, List, [], ◌∷◌, ◌++◌, ◌==◌, if◌then◌else◌, take, drop, ltb, length, Bool, true, false,
  ◌&&◌, ◌||◌, not, Option, none, some, replicate, get_or,
}
use pq_key_establishment_mav.Base.Bytes.{zeros, u32, le_value, write_at}
use pq_key_establishment_mav.Kemtls.Types.{
  Platform, HqcSession, HqcState, Hello, HelloAck, Reply, hello_ack, hqc_status, KexStatus,
  kex_rejected, kex_bad_len, kex_internal, kex_enc_unav, kex_in_progress, chunks_of,
}
use pq_key_establishment_mav.Kemtls.Wire.{le64, th_add_hello, th_add_hello_ack, th_add_ct_summary}
use pq_key_establishment_mav.Kemtls.Session.{
  reset, clamp_kex_params, on_hello_start, select_aead, Entropy, ap_kem_enc, secret_field,
}
use pq_key_establishment_mav.Kemtls.Stream.{send_window}
use pq_key_establishment_mav.Kemtls.Pdk.{
  HelloEnv, bytes_eq, below_size, PdkRead, full, short, overrun, read_pks, pdk_size,
  pdk_fingerprint, pdk_bad,
}

-- The lines up to the first check: a fresh session that holds the offer.
unfoldable pub hello_begin : Platform → HqcSession → Hello → HelloEnv → HqcSession
unfolding reset clamp_kex_params on_hello_start
hello_begin c s0 m env =
    let s = reset s0 in
    let rx = clamp_kex_params (record (s.rx) {
      session_id = m.session_id;
      pk_len = m.pk_len;
      version = m.version;
      suite_id = m.suite_id;
      flags = m.flags;
      aead_offer = m.aead_offer;
      salt = take 16 m.handshake_salt;
      rc = take 32 m.rc;
    }) in
    let started =
      on_hello_start (record s { rx = rx; negotiated_mtu = rx.mtu; negotiated_window = rx.window })
        env.chan env.now in
    record started { th = th_add_hello c started.th m }

-- The lambda `send_nack`.
unfoldable pub send_nack : Platform → HqcSession → KexStatus → Reply
send_nack c s status =
    let nack : HelloAck = record {
      session_id = s.rx.session_id;
      mtu = s.rx.mtu;
      window = s.rx.window;
      required_alg = s.aead_alg;
      accept = 0;
      status = status;
      ct_e_len = 0;
      ct_s_len = 0;
      rs = zeros 32;
    } in
    record { session = record s { th = th_add_hello_ack c s.th nack }; out = hello_ack nack ∷ [] }

unfoldable pub free_pke : HqcSession → HqcSession
free_pke s = record s { rx = record (s.rx) { pke = none } }

unfoldable pub free_pks_pke : HqcSession → HqcSession
free_pks_pke s = record s { rx = record (s.rx) { pke = none; pks = none } }

unfoldable pub set_aead : HqcSession → ℕ → HqcSession
set_aead s alg = record s { aead_alg = alg }

-- A nack after which the buffers are freed.
unfoldable pub nack_free : Platform → HqcSession → KexStatus → (HqcSession → HqcSession) → Reply
unfolding send_nack
nack_free c s status release =
    let r = send_nack c s status in record { session = release r.session; out = r.out }

unfoldable pub status_free : HqcSession → ℕ → (HqcSession → HqcSession) → Reply
status_free s detail release = record {
  session = release s;
  out = hqc_status s.rx.session_id 0 kex_internal detail ∷ [];
}

-- From the accepted static secret on: the response value, the transcript, the ack, and the first
-- window of the static ciphertext.
unfoldable pub hello_accept : Platform → HqcSession → HelloEnv → List ℕ → Reply
unfolding send_window
hello_accept c s env cts =
    let rs = c.sha256 (le64 s.rx.session_id ++ (s.rx.salt ++ pdk_fingerprint env.header)) in
    let th = th_add_ct_summary c s.th s.rx.session_id 1 s.rx.cts_len (c.sha256 cts) in
    let ack : HelloAck = record {
      session_id = s.rx.session_id;
      mtu = s.rx.mtu;
      window = s.rx.window;
      required_alg = s.aead_alg;
      accept = 1;
      status = kex_in_progress;
      ct_e_len = c.ct_bytes;
      ct_s_len = c.ct_bytes;
      rs = rs;
    } in
    let sent = send_window s.rx.session_id 1 cts s.rx.mtu c.ct_bytes s.rx.window 0 in
    record {
      session = record s {
        th = th_add_hello_ack c th ack;
        rx = record (s.rx) { rs = rs; cts_sent = sent.1 };
        state = HqcState.ct_tx;
      };
      out = hello_ack ack ∷ sent.0;
    }

-- From `malloc` of the static ciphertext on; `pks` is the key just read.
unfoldable pub hello_static : Platform → HqcSession → HelloEnv → List ℕ → Reply
unfolding hello_accept ap_kem_enc secret_field chunks_of nack_free free_pks_pke
hello_static c s env pks = elim env.malloc_cts [
  | none ↦ nack_free c s kex_internal free_pks_pke
  | some fresh ↦
      let r = ap_kem_enc c env.entropy fresh (zeros c.ss_bytes) pks in
      if r.success
      then hello_accept c
          (record s {
            rx = record (s.rx) {
              cts = some r.ct;
              cts_len = c.ct_bytes;
              cts_acked = replicate (chunks_of c.ct_bytes s.rx.mtu) false;
              ss_s = secret_field c r.ss;
            };
          })
          env r.ct
      else nack_free c s kex_enc_unav free_pks_pke
]

-- The fingerprint test; `s` holds the key that was read.
unfoldable pub hello_fingerprint : Platform → HqcSession → HelloEnv → List ℕ → Reply
unfolding hello_static bytes_eq pdk_fingerprint
hello_fingerprint c s env pks =
    if bytes_eq (c.sha256 (take (pdk_size env.header) pks)) (pdk_fingerprint env.header)
    then hello_static c s env pks
    else nack_free c s kex_internal free_pks_pke

-- The read of the key into `calloc(PK_BYTES, 1)`. `none` is a write past that buffer.
unfoldable pub hello_read_key : Platform → HqcSession → HelloEnv → Option Reply
unfolding hello_fingerprint status_free read_pks
hello_read_key c s env =
    if env.calloc_pks
    then elim (read_pks env.reads (pdk_size env.header) 0 (zeros c.pk_bytes))
        as (λ _. Option Reply) [
          | full pks ↦
              some
                (hello_fingerprint c (record s { rx = record (s.rx) { pks = some pks } }) env pks)
          | short ↦ some (status_free s 3 free_pks_pke)
          | overrun ↦ none
        ]
    else some (status_free s 2 free_pke)

-- The file: `stat`, `open`, the header.
unfoldable pub hello_load_pdk : Platform → HqcSession → HelloEnv → Option Reply
unfolding hello_read_key below_size pdk_bad nack_free free_pke
hello_load_pdk c s env =
    if below_size env.stat 56
    then some (nack_free c s kex_enc_unav free_pke)
    else if not env.opens
    then some (nack_free c s kex_internal free_pke)
    else if not (length env.header == 56)
    then some (nack_free c s kex_internal free_pke)
    else if pdk_bad env
    then some (nack_free c s kex_internal free_pke)
    else hello_read_key c s env

-- The checks of the offer, then the buffer of the ephemeral key.
unfoldable pub handle_hqc_hello : Platform → HqcSession → Hello → HelloEnv → Option Reply
unfolding hello_begin select_aead send_nack set_aead hello_load_pdk
handle_hqc_hello c s0 m env =
    let s = hello_begin c s0 m env in
    let agreed = set_aead s (select_aead m.aead_offer) in
    if not (m.version == 1)
    then some (send_nack c agreed kex_rejected)
    else if not (m.suite_id == 1)
    then some (send_nack c agreed kex_rejected)
    else if m.pk_len == 0 || ltb 65536 m.pk_len
    then some (send_nack c agreed kex_bad_len)
    else if ltb 2 m.aead_offer
    then some (send_nack c (set_aead s 1) kex_rejected)
    else elim env.malloc_pke [
      | none ↦ some (send_nack c agreed kex_internal)
      | some pke ↦
          hello_load_pdk c (record agreed { rx = record (agreed.rx) { pke = some pke } }) env
    ]
