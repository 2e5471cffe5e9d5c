-- ===== src/Kemtls/Finish.antt =====
-- GCS_KEMTLS.cpp, `GCS_MAVLINK::handle_hqc_finish`: the client's Finished message is checked, and a
-- right one makes the session active.
pub mod Authentic
use pq_key_establishment_mav.Base.{
  ℕ, List, [], ◌∷◌, ◌==◌, if◌then◌else◌, Bool, true, false, not, none,
}
use pq_key_establishment_mav.Base.Bytes.{codes}
use pq_key_establishment_mav.Kemtls.Types.{
  Platform, HqcSession, HqcState, Finish, Reply, hqc_status, enable_signing, kex_ok, kex_rejected,
  kex_bad_len, kex_bad_seq, kex_in_progress,
}
use pq_key_establishment_mav.Kemtls.Wire.{le64, th_add_finish, th_add_abort}
use pq_key_establishment_mav.Kemtls.Kdf.{handshake_prk, hkdf_expand_label, verify_finish_and_derive}
use pq_key_establishment_mav.Kemtls.Session.{note_rx, reset}
use pq_key_establishment_mav.Kemtls.Stream.{streams_done}
use pq_key_establishment_mav.Kemtls.PkChunk.{refuse}

unfoldable pub is_wait_cf : HqcState → Bool
is_wait_cf HqcState.wait_cf = true
is_wait_cf _ = false

-- The secret that both secrets, the salt and the session id give.
unfoldable pub session_prk : Platform → HqcSession → List ℕ
session_prk c s = handshake_prk c s.rx.ss_e s.rx.ss_s s.rx.salt (le64 s.rx.session_id)

unfoldable pub signing_key : Platform → HqcSession → List ℕ
unfolding session_prk
signing_key c s = hkdf_expand_label c (session_prk c s) (codes "sign") [] 32

-- A wrong tag: the session is wiped.
unfoldable pub finish_rejected : Platform → HqcSession → Reply
unfolding reset
finish_rejected c s =
    let wiped = reset (record s { th = th_add_abort c s.th s.rx.session_id kex_rejected 31 0 }) in
    record {
      session = record wiped { state = HqcState.fail };
      out = hqc_status s.rx.session_id 0 kex_rejected 31 ∷ [];
    }

-- A right tag; `s` holds the new keys.
unfoldable pub finish_accepted : Platform → HqcSession → Finish → Reply
unfolding signing_key
finish_accepted c s m = record {
  session = record s {
    th = th_add_finish c s.th m;
    rx = record (s.rx) { pke = none; cte = none; cts = none };
    state = HqcState.active;
  };
  out = enable_signing (signing_key c s) 0 false ∷ hqc_status s.rx.session_id 0 kex_ok 0 ∷ [];
}

-- From the verification of the tag on.
unfoldable pub finish_verify : Platform → HqcSession → Finish → Reply
unfolding verify_finish_and_derive
finish_verify c s m =
    let (derived, ok) =
      verify_finish_and_derive c s m.tag s.th s.rx.ss_e s.rx.ss_s s.rx.salt
        (le64 s.rx.session_id) in
    if ok then finish_accepted c derived m else finish_rejected c s

unfoldable pub handle_hqc_finish : Platform → HqcSession → Finish → ℕ → Reply
unfolding note_rx refuse is_wait_cf
handle_hqc_finish c s0 m now =
    let s = note_rx s0 now in
    if not (m.session_id == s.rx.session_id)
    then refuse s 0 kex_bad_seq 20
    else if not (is_wait_cf s.state)
    then refuse s 0 kex_in_progress 22
    else if not (m.role == 1)
    then refuse s m.role kex_bad_seq 23
    else if not (m.tag_len == 32)
    then refuse s m.tag_len kex_bad_len 24
    else if not (streams_done s.rx)
    then refuse s 0 kex_in_progress 21
    else finish_verify c s m
