-- ===== src/Kemtls/Finish/Authentic.antt =====
-- A Finished message makes the session active only with the right tag; a wrong tag wipes it.
use native.Mathlib.Decide.{ℕ_discrete}
use pq_key_establishment_mav.Base.{
  ℕ, ◌≡◌, ◌≢◌, ◌↔◌, refl, ap, List, [], ◌∷◌, arith, length, true, false, ◌==◌, sym, ◌∙◌,
}
use pq_key_establishment_mav.Kemtls.Types.{
  Platform, IsPlatform, HqcSession, HqcState, Finish, Reply, hqc_status, kex_rejected,
}
use pq_key_establishment_mav.Kemtls.Wire.{th_add_abort}
use pq_key_establishment_mav.Kemtls.Kdf.{tag_diff, expected_tag, session_keys, install_keys}
use pq_key_establishment_mav.Kemtls.Kdf.Tags.{tag_diff_iff, length-expected_tag}
use pq_key_establishment_mav.Kemtls.Session.{note_rx}
use pq_key_establishment_mav.Kemtls.Session.Wiped.{IsWiped, reset-IsWiped, IsWiped-state}
use pq_key_establishment_mav.Kemtls.Stream.{streams_done}
use pq_key_establishment_mav.Kemtls.Finish.{
  handle_hqc_finish, finish_verify, session_prk, finish_accepted, finish_rejected, is_wait_cf,
}

-- What the message has to say besides a right tag.
pub record IsWellTimed (s : HqcSession) (m : Finish) : Type 0 where
  pub same_session : m.session_id ≡ s.rx.session_id
  pub waiting : s.state ≡ HqcState.wait_cf
  pub client : m.role ≡ 1
  pub whole_tag : m.tag_len ≡ 32
  pub delivered : streams_done s.rx ≡ true

finish_rejected-IsWiped : (c : Platform) (s : HqcSession) → IsWiped (finish_rejected c s).session
unfolding finish_rejected
finish_rejected-IsWiped c s =
    IsWiped-state _ HqcState.fail
      (reset-IsWiped (record s { th = th_add_abort c s.th s.rx.session_id kex_rejected 31 0 }))

list_dec : Discrete (List ℕ)
list_dec = hlevel ℕ_discrete

fail≢active : HqcState.fail ≢ HqcState.active
fail≢active e = cc

not-== : {n : ℕ} → n ≢ 0 → (n == 0) ≡ false
not-== h = ground arith

-- The tag that the transcript and both secrets call for.
abbrev pub right_tag : Platform → HqcSession → List ℕ
right_tag c s = expected_tag c (session_prk c s) s.th

-- The session with the keys that the secrets give.
abbrev pub keyed : Platform → HqcSession → HqcSession
keyed c s = install_keys s (session_keys c (session_prk c s))

module _ (c : Platform) (s : HqcSession) (m : Finish) where
  pub finish_verify_eq :
      tag_diff 0 32 (right_tag c s) m.tag ≡ 0
      → finish_verify c s m ≡ finish_accepted c (keyed c s) m
  unfolding finish_verify session_prk
  finish_verify_eq e = rw e

  pub finish_verify_ne :
      tag_diff 0 32 (right_tag c s) m.tag ≢ 0 → finish_verify c s m ≡ finish_rejected c s
  unfolding finish_verify session_prk
  finish_verify_ne e = rw (not-== e) refl

module _ (c : Platform) (s : HqcSession) (m : Finish) (now : ℕ) where
  -- The code after its checks.
  finish_checked : IsWellTimed s m → handle_hqc_finish c s m now ≡ finish_verify c (note_rx s now) m
  unfolding handle_hqc_finish
  finish_checked w = ground arith

  finish_active-IsWellTimed :
      (handle_hqc_finish c s m now).session.state ≡ HqcState.active
      → s.state ≢ HqcState.active
      → IsWellTimed s m
  unfolding handle_hqc_finish
  finish_active-IsWellTimed h n = record {
    same_session = ground arith;
    waiting = ground arith;
    client = ground arith;
    whole_tag = ground arith;
    delivered = ground arith;
  }

  IsWellTimed-of_tests :
      m.session_id ≡ s.rx.session_id
      → is_wait_cf s.state ≡ true
      → m.role ≡ 1
      → m.tag_len ≡ 32
      → streams_done s.rx ≡ true
      → IsWellTimed s m
  unfolding is_wait_cf
  IsWellTimed-of_tests a b d e f = record {
    same_session = a;
    waiting = ground arith;
    client = d;
    whole_tag = e;
    delivered = f;
  }

  -- A message that comes too early, twice, from the wrong side or with a tag of another length
  -- only sets the receive clock, and is answered by one message.
  pub handle_hqc_finish_refused :
      (¬ IsWellTimed s m)
      → ((handle_hqc_finish c s m now).session ≡ note_rx s now)
        × (length (handle_hqc_finish c s m now).out ≡ 1)
  unfolding handle_hqc_finish
  handle_hqc_finish_refused w =
      let no =
        λ (a : m.session_id ≡ s.rx.session_id) (b : is_wait_cf s.state ≡ true) (d : m.role ≡ 1)
            (e : m.tag_len ≡ 32) (f : streams_done s.rx ≡ true).
          w (IsWellTimed-of_tests a b d e f) in
      (ground (arith, no), ground (arith, no))

module _ (c : Platform) (ok : IsPlatform c) (s : HqcSession) (m : Finish) (now : ℕ)
    (whole : length m.tag ≡ 32) where
  tag_right_iff : (tag_diff 0 32 (right_tag c s) m.tag ≡ 0) ↔ (right_tag c s ≡ m.tag)
  tag_right_iff =
      tag_diff_iff (right_tag c s) m.tag (length-expected_tag c ok (session_prk c s) s.th) whole

  finish_right : right_tag c s ≡ m.tag → finish_verify c s m ≡ finish_accepted c (keyed c s) m
  finish_right e = finish_verify_eq c s m (tag_right_iff.1 e)

  finish_wrong : right_tag c s ≢ m.tag → finish_verify c s m ≡ finish_rejected c s
  finish_wrong n = finish_verify_ne c s m (λ e. n (tag_right_iff.0 e))

module _ (c : Platform) (ok : IsPlatform c) (s : HqcSession) (m : Finish) (now : ℕ)
    (whole : length m.tag ≡ 32) where
  finish_now_right :
      IsWellTimed s m
      → right_tag c s ≡ m.tag
      → handle_hqc_finish c s m now ≡ finish_accepted c (keyed c (note_rx s now)) m
  unfolding session_prk note_rx
  finish_now_right w e =
      finish_checked c s m now w ∙ finish_right c ok (note_rx s now) m now whole e

  finish_now_wrong :
      IsWellTimed s m
      → right_tag c s ≢ m.tag
      → handle_hqc_finish c s m now ≡ finish_rejected c (note_rx s now)
  unfolding session_prk note_rx
  finish_now_wrong w n =
      finish_checked c s m now w ∙ finish_wrong c ok (note_rx s now) m now whole n

  -- With a tag field of 32 bytes and the documented sizes of the platform's results: a session that
  -- is not active becomes active by a Finished message exactly if the message
  -- belongs to the session, the session waits for it with both ciphertexts acknowledged, the
  -- message says it is the client's with a tag of 32 bytes, and its tag is the right one.
  pub handle_hqc_finish_active_iff :
      s.state ≢ HqcState.active
      → ((handle_hqc_finish c s m now).session.state ≡ HqcState.active)
        ↔ (IsWellTimed s m × (right_tag c s ≡ m.tag))
  unfolding finish_accepted finish_rejected
  handle_hqc_finish_active_iff n = (
    λ h.
        let w = finish_active-IsWellTimed c s m now h n in
        (
          w,
          elim (list_dec (right_tag c s) m.tag) [
            | yes e ↦ e
            | no d ↦
                absurd (
                  fail≢active
                    (ap (λ (r : Reply). r.session.state) (sym (finish_now_wrong w d)) ∙ h))
          ],
        ),
    λ (w, e). ap (λ (r : Reply). r.session.state) (finish_now_right w e),
  )

  -- With the same sizes, a message in time with a wrong tag fails the session, wipes every secret,
  -- and is answered by one status message with REJECTED and detail 31.
  pub handle_hqc_finish_wrong_tag :
      IsWellTimed s m
      → right_tag c s ≢ m.tag
      → ((handle_hqc_finish c s m now).session.state ≡ HqcState.fail)
        × IsWiped (handle_hqc_finish c s m now).session
        × ((handle_hqc_finish c s m now).out ≡ hqc_status s.rx.session_id 0 kex_rejected 31 ∷ [])
  unfolding finish_rejected note_rx
  handle_hqc_finish_wrong_tag w n =
      rw (finish_now_wrong w n) (refl, finish_rejected-IsWiped c (note_rx s now), refl)
