-- ===== src/Kemtls/Timer/Retry.antt =====
-- Retransmission: the timeout, which fragment is sent again, and what a pump of a stream leaves.
use pq_key_establishment_mav.Base.{
  ℕ, zero, suc, ◌+◌, ◌-◌, ◌*◌, ◌≤◌, ◌<◌, ◌≡◌, refl, ◌∙◌, ap, List, [], ◌∷◌, arith, length, get_or,
  ltb, leb, ◌==◌, if◌then◌else◌, Bool, true, false, Bool-cases, inl, inr, Option, none, some,
  leb→le,
}
use pq_key_establishment_mav.Base.Bytes.{sub32}
use pq_key_establishment_mav.Kemtls.Types.{
  Platform, HqcSession, HqcState, chunks_of, hqc_abort, kex_timeout,
}
use pq_key_establishment_mav.Kemtls.Stream.{inflight_from, fit_acked}
use pq_key_establishment_mav.Kemtls.Stream.Window.{
  AllChunks, chunk_out-IsChunk, send_window-IsWindow,
}
use pq_key_establishment_mav.Kemtls.Session.Wiped.{IsWiped, reset-IsWiped, IsWiped-state}
use pq_key_establishment_mav.Kemtls.Wire.{th_add_abort}
use pq_key_establishment_mav.Kemtls.CtAck.{Stream, stream}
use pq_key_establishment_mav.Kemtls.CtAck.Answer.{IsSound}
use pq_key_establishment_mav.Kemtls.Timer.{
  rto_from, rto_for, Resend, wait, again, give_up, resend_from, Pumped, pump_window, pump_after,
  pump_ct, pump_on, pump_stream, abort_session,
}

rto_from_bounds : (n r : ℕ) → 300 ≤ r → r ≤ 7998 → (300 ≤ rto_from n r) × (rto_from n r ≤ 7998)
unfolding rto_from
rto_from_bounds zero r p q = (p, q)
rto_from_bounds (suc n) r p q = ground (arith, rto_from_bounds n (r * 2), rto_from_bounds n 4000)

-- The fragment that a resend or an abort names is one of the stream's, below `sent`, and not
-- acknowledged; it is sent again only while tries are left, and given up only when none are.
pub record IsDue (s : HqcSession) (sent i : ℕ) (acked : List Bool) (off : ℕ) : Type 0 where
  pub at : ℕ
  pub there : at < length acked
  pub offset : off ≡ (i + at) * s.rx.mtu
  pub missing : get_or acked at false ≡ false
  pub was_sent : off < sent

abbrev pub Due : HqcSession → ℕ → ℕ → List Bool → Resend → Type 0
Due s sent i acked wait = Unit {0}
Due s sent i acked (again off) = IsDue s sent i acked off × (s.rx.retries off < s.rx.max_retries)
Due s sent i acked (give_up off) = IsDue s sent i acked off × (s.rx.max_retries ≤ s.rx.retries off)

IsDue-cons :
    (s : HqcSession) (sent i : ℕ) (b : Bool) (bs : List Bool) (off : ℕ)
    → IsDue s sent (i + 1) bs off
    → IsDue s sent i (b ∷ bs) off
IsDue-cons s sent i b bs off d = record {
  at = suc d.at;
  there = omega (arith, d.there);
  offset = d.offset ∙ ap (λ (t : ℕ). t * s.rx.mtu) (omega arith);
  missing = d.missing;
  was_sent = d.was_sent;
}

Due-cons :
    (s : HqcSession) (sent i : ℕ) (b : Bool) (bs : List Bool) (r : Resend)
    → Due s sent (i + 1) bs r
    → Due s sent i (b ∷ bs) r
Due-cons s sent i b bs wait d = tt
Due-cons s sent i b bs (again off) d = (IsDue-cons s sent i b bs off d.0, d.1)
Due-cons s sent i b bs (give_up off) d = (IsDue-cons s sent i b bs off d.0, d.1)

pub resend_from-Due :
    (s : HqcSession) (now sent i : ℕ) (acked : List Bool)
    → Due s sent i acked (resend_from s now sent i acked)
unfolding resend_from
resend_from-Due s now sent i [] = tt
resend_from-Due s now sent i (true ∷ bs) = elim (Bool-cases (leb sent (i * s.rx.mtu))) [
  | inl e ↦ rw e tt
  | inr e ↦ rw e (Due-cons s sent i true bs _ (resend_from-Due s now sent (i + 1) bs))
]
resend_from-Due s now sent i (false ∷ bs) = elim (Bool-cases (leb sent (i * s.rx.mtu))) [
  | inl e ↦ rw e tt
  | inr e ↦
      rw e
        (elim (Bool-cases (ltb (sub32 now s.t_last_tx) (rto_for (s.rx.retries (i * s.rx.mtu))))) [
          | inl f ↦ rw f tt
          | inr f ↦ rw f (elim (Bool-cases (leb s.rx.max_retries (s.rx.retries (i * s.rx.mtu)))) [
            | inl g ↦ rw g (due e, leb→le s.rx.max_retries (s.rx.retries (i * s.rx.mtu)) g)
            | inr g ↦ rw g (due e, ground arith)
          ])
        ])
]
  where
    due : leb sent (i * s.rx.mtu) ≡ false → IsDue s sent i (false ∷ bs) (i * s.rx.mtu)
    due e = record {
      at = 0;
      there = omega arith;
      offset = ap (λ (t : ℕ). t * s.rx.mtu) (omega arith);
      missing = refl;
      was_sent = ground arith;
    }

-- What a pump of a stream leaves: fragments of the stream, at most a window of them, with the
-- session in its state; or one abort, with the session failed and wiped.
pub data IsPumped (s : HqcSession) (kind : ℕ) (p : Pumped) : Type 0 where
  running :
      p.alive ≡ true
      → AllChunks s.rx.session_id kind s.rx.mtu (stream s.rx kind).len p.out
      → length p.out ≤ s.rx.window
      → p.session.state ≡ s.state
      → IsPumped s kind p
  aborted :
      p.alive ≡ false
      → (off : ℕ)
      → p.out ≡ hqc_abort s.rx.session_id kex_timeout (if kind == 0 then 0 else 1) off ∷ []
      → IsDue s
          (stream s.rx kind).sent
          0
          (fit_acked (stream s.rx kind).acked (chunks_of (stream s.rx kind).len s.rx.mtu))
          off
      → s.rx.max_retries ≤ s.rx.retries off
      → p.session.state ≡ HqcState.fail
      → IsWiped p.session
      → IsPumped s kind p

pub abort_session-IsWiped :
    (c : Platform) (s : HqcSession) (detail value : ℕ)
    → IsWiped (abort_session c s detail value).session
unfolding abort_session
abort_session-IsWiped c s detail value =
    IsWiped-state _ HqcState.fail (
      reset-IsWiped
        (record s { th = th_add_abort c s.th s.rx.session_id kex_timeout detail value }))

module _ (c : Platform) (s : HqcSession) (now kind : ℕ) (ct : List ℕ) (v : IsSound s.rx kind)
    (held : (stream s.rx kind).ct ≡ some ct)
    (sent_le : (stream s.rx kind).sent ≤ (stream s.rx kind).len)
    (open_window : 0 < s.rx.window) where
  abbrev st : Stream
  st = stream s.rx kind

  pump_after-IsPumped :
      (inflight : ℕ) (r : Resend)
      → Due s st.sent 0 (fit_acked st.acked (chunks_of st.len s.rx.mtu)) r
      → IsPumped s kind (
          pump_after c s now kind ct st inflight (fit_acked st.acked (chunks_of st.len s.rx.mtu)) r)
  unfolding pump_after pump_window
  pump_after-IsPumped inflight wait d =
      let w =
        send_window-IsWindow s.rx.session_id kind ct s.rx.mtu st.len v.mtu_pos v.mtu_small
          (v.buffer ct held) (s.rx.window - inflight) st.sent sent_le in
      running refl w.in_range (omega (arith, w.at_most)) refl
  pump_after-IsPumped inflight (again off) d =
      let w =
        send_window-IsWindow s.rx.session_id kind ct s.rx.mtu st.len v.mtu_pos v.mtu_small
          (v.buffer ct held) (s.rx.window - (inflight + 1)) st.sent sent_le in
      running refl
        (
          chunk_out-IsChunk s.rx.session_id kind ct s.rx.mtu st.len v.mtu_pos v.mtu_small
              (v.buffer ct held) off (omega (arith, d.0.was_sent)),
          w.in_range,
        )
        (omega (arith, w.at_most)) refl
  pump_after-IsPumped inflight (give_up off) d =
      aborted refl off (unfold abort_session in refl) d.0 d.1 (unfold abort_session in refl)
        (abort_session-IsWiped c s (if kind == 0 then 0 else 1) off)

pump_on-IsPumped :
    (c : Platform) (s : HqcSession) (now kind : ℕ)
    → IsSound s.rx kind
    → (stream s.rx kind).sent ≤ (stream s.rx kind).len
    → 0 < s.rx.window
    → (ct : Option (List ℕ)) → (stream s.rx kind).ct ≡ ct
    → IsPumped s kind (pump_on c s now kind ct)
unfolding pump_on pump_ct
pump_on-IsPumped c s now kind v sent_le w none e = running refl tt (omega arith) refl
pump_on-IsPumped c s now kind v sent_le w (some ct) e =
    elim (Bool-cases ((stream s.rx kind).len == 0)) [
      | inl z ↦ rw z (running refl tt (omega arith) refl)
      | inr z ↦ rw z (
          pump_after-IsPumped c s now kind ct v e sent_le w
            (inflight_from s.rx.mtu (stream s.rx kind).sent 0
              (fit_acked (stream s.rx kind).acked (chunks_of (stream s.rx kind).len s.rx.mtu)))
            (resend_from s now (stream s.rx kind).sent 0
              (fit_acked (stream s.rx kind).acked (chunks_of (stream s.rx kind).len s.rx.mtu)))
            (resend_from-Due s now (stream s.rx kind).sent 0
              (fit_acked (stream s.rx kind).acked (chunks_of (stream s.rx kind).len s.rx.mtu))))
    ]

-- While a stream is no longer than its buffer, mtu is between 1 and 220, length and mtu add up to at
-- most 2 ^ 32, the cursor is within the stream and the window is not 0, pumping the stream has one of
-- two effects.
-- Either every message it sends is a fragment inside the stream, there are at most `window` of
-- them, and the state is unchanged; or a fragment that was sent, is not acknowledged and has used
-- up its tries makes it give the session up: one abort that names the fragment, the state `fail`,
-- and every secret wiped.
pub pump_stream-IsPumped :
    (c : Platform) (s : HqcSession) (now kind : ℕ)
    → IsSound s.rx kind
    → (stream s.rx kind).sent ≤ (stream s.rx kind).len
    → 0 < s.rx.window
    → IsPumped s kind (pump_stream c s now kind)
unfolding pump_stream
pump_stream-IsPumped c s now kind v sent_le w =
    pump_on-IsPumped c s now kind v sent_le w (stream s.rx kind).ct refl
