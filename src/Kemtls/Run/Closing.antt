-- ===== src/Kemtls/Run/Closing.antt =====
-- A Finished message keeps a session valid, and what transitions it makes.
use native.Mathlib.Decide.{ℕ_discrete}
use pq_key_establishment_mav.Base.{ℕ, ◌≡◌, ◌==◌, refl, arith, true, not, Bool-cases, inl, inr}
use pq_key_establishment_mav.Kemtls.Types.{Platform, HqcSession, HqcState, Finish, kex_rejected}
use pq_key_establishment_mav.Kemtls.Session.{note_rx}
use pq_key_establishment_mav.Kemtls.Wire.{th_add_abort}
use pq_key_establishment_mav.Kemtls.Kdf.{tag_diff, install_keys}
use pq_key_establishment_mav.Kemtls.Stream.{streams_done}
use pq_key_establishment_mav.Kemtls.Finish.{
  handle_hqc_finish, finish_verify, finish_accepted, finish_rejected, is_wait_cf,
}
use pq_key_establishment_mav.Kemtls.Finish.Authentic.{
  right_tag, keyed, finish_verify_eq, finish_verify_ne,
}
use pq_key_establishment_mav.Kemtls.Run.{on_finish}
use pq_key_establishment_mav.Kemtls.Run.Valid.{IsValid, resting, IsRest, IsNext, wiped-IsValid}

is_wait_cf_iff : (st : HqcState) → is_wait_cf st ≡ true → st ≡ HqcState.wait_cf
unfolding is_wait_cf
is_wait_cf_iff st e = ground arith

module _ (c : Platform) (m : Finish) (now : ℕ) where
  finish_accepted-IsValid :
      (s : HqcSession) → IsValid c s → IsValid c (finish_accepted c (keyed c s) m).session
  unfolding finish_accepted install_keys
  finish_accepted-IsValid s v = record {
    held = record {
      key = record {
        mtu_is = v.held.key.mtu_is;
        window_is = v.held.key.window_is;
        sized = tt;
        flags = v.held.key.flags;
      };
      eph = record { sized = tt; len_le = v.held.eph.len_le; sent_le = v.held.eph.sent_le };
      sta = record { sized = tt; len_le = v.held.sta.len_le; sent_le = v.held.sta.sent_le };
    };
    phase = resting IsRest.running (record { no_pke = refl; no_cte = refl; no_cts = refl });
  }

  finish_verify-IsNext :
      (s : HqcSession)
      → IsValid c s
      → s.state ≡ HqcState.wait_cf
      → IsNext c (on_finish m now) s (finish_verify c s m).session
  finish_verify-IsNext s v w = elim (ℕ_discrete (tag_diff 0 32 (right_tag c s) m.tag) 0) [
    | yes e ↦ rw (finish_verify_eq c s m e) (record {
      valid = finish_accepted-IsValid s v;
      move = inr (w, inl (unfold finish_accepted in refl));
    })
    | no n ↦ rw (finish_verify_ne c s m n) (record {
      valid =
          unfold finish_rejected in
          wiped-IsValid c (record s { th = th_add_abort c s.th s.rx.session_id kex_rejected 31 0 });
      move = inr (w, inr (unfold finish_rejected in refl));
    })
  ]

  pub handle_hqc_finish-IsNext :
      (s : HqcSession)
      → IsValid c s
      → IsNext c (on_finish m now) s (handle_hqc_finish c s m now).session
  unfolding handle_hqc_finish note_rx
  handle_hqc_finish-IsNext s v =
      let v' : IsValid c (record s { t_last_rx = now }) = record {
        held = v.held;
        phase = v.phase;
      } in
      let left : IsNext c (on_finish m now) s (record s { t_last_rx = now }) = record {
        valid = v';
        move = inl refl;
      } in
      elim (Bool-cases (not (m.session_id == s.rx.session_id))) [
        | inl e ↦ rw e left
        | inr e ↦ rw e (elim (Bool-cases (not (is_wait_cf s.state))) [
          | inl f ↦ rw f left
          | inr f ↦ rw f (elim (Bool-cases (not (m.role == 1))) [
            | inl g ↦ rw g left
            | inr g ↦ rw g (elim (Bool-cases (not (m.tag_len == 32))) [
              | inl h ↦ rw h left
              | inr h ↦ rw h (elim (Bool-cases (not (streams_done s.rx))) [
                | inl k ↦ rw k left
                | inr k ↦ rw k (
                    let n =
                      finish_verify-IsNext (note_rx s now) v'
                        (is_wait_cf_iff s.state (ground (arith, f))) in
                    record { valid = n.valid; move = n.move })
              ])
            ])
          ])
        ])
      ]
