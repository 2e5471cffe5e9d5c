-- ===== src/Kemtls/Run/Clock.antt =====
-- Ticks and Finished messages keep a session valid, and what transitions they make.
use pq_key_establishment_mav.Base.{
  ℕ, ◌+◌, ◌-◌, ◌≤◌, ◌≡◌, ◌==◌, refl, sym, subst, arith, List, [], length, ltb, ◌&&◌, Bool,
  Bool-cases, inl, inr, Option, none, some,
}
use pq_key_establishment_mav.Base.Bytes.{sub32, u8}
use pq_key_establishment_mav.Kemtls.Types.{
  Platform, IsPlatform, HqcRxBuf, HqcSession, HqcState, chunks_of, Out, kex_timeout,
}
use pq_key_establishment_mav.Kemtls.Stream.{streams_done, fit_acked}
use pq_key_establishment_mav.Kemtls.Stream.Window.{send_window-IsWindow}
use pq_key_establishment_mav.Kemtls.Wire.{th_add_abort}
use pq_key_establishment_mav.Kemtls.CtAck.{stream, put_retry}
use pq_key_establishment_mav.Kemtls.Timer.{
  Resend, wait, again, give_up, pump_window, pump_after, pump_ct, pump_on, pump_stream,
  abort_session, pump_done, is_ct_tx, pump_tx, probe_send, probe_on, probe_stream, kick_acks,
  tick_live, tick, is_quiet,
}
use pq_key_establishment_mav.Kemtls.Timer.Tick.{
  IsMoved, same, all_sent, gave_up, IsQuiet, is_fail, is_idle, is_running, quiet, late, in_time,
  tick-IsTicked,
}
use pq_key_establishment_mav.Kemtls.Run.{on_tick}
use pq_key_establishment_mav.Kemtls.Run.Valid.{
  IsHeld, IsValid, IsPhase, under_way, resting, IsOpen, IsRest, IsNext, IsLive, still_sending,
  still_waiting, Fits-stream, put_stream-IsHeld, reset-IsHeld,
}
use pq_key_establishment_mav.Kemtls.Run.Streams.{stream_bounds, retries-IsHeld}

module _ (c : Platform) (ok : IsPlatform c) where
  abort_session-IsHeld :
      (s : HqcSession) (detail value : ℕ) → IsHeld c (abort_session c s detail value).session.rx
  unfolding abort_session
  abort_session-IsHeld s detail value =
      reset-IsHeld c
        (record s { th = th_add_abort c s.th s.rx.session_id kex_timeout detail value })

  -- The fresh window of a pump.
  pump_window-IsHeld :
      (s : HqcSession) (now kind : ℕ) (ct : List ℕ) (inflight : ℕ) (acked : List Bool)
      (out : List Out)
      → IsHeld c s.rx
      → (stream s.rx kind).len ≤ length ct
      → IsHeld c
          (pump_window s now kind ct
            (stream s.rx kind).len
            inflight
            acked
            (stream s.rx kind).sent
            out).session.rx
  unfolding pump_window
  pump_window-IsHeld s now kind ct inflight acked out v fits =
      let lim = stream_bounds c ok s.rx kind v in
      let w =
        send_window-IsWindow s.rx.session_id kind ct s.rx.mtu (stream s.rx kind).len lim.0 lim.1
          fits (s.rx.window - inflight) (stream s.rx kind).sent
          (Fits-stream c s.rx kind v).sent_le in
      put_stream-IsHeld c s.rx kind acked _ v w.forward.1

  pump_after-IsHeld :
      (s : HqcSession) (now kind : ℕ) (ct : List ℕ) (inflight : ℕ) (acked : List Bool) (r : Resend)
      → IsHeld c s.rx
      → (stream s.rx kind).len ≤ length ct
      → IsHeld c (pump_after c s now kind ct (stream s.rx kind) inflight acked r).session.rx
  unfolding pump_after
  pump_after-IsHeld s now kind ct inflight acked wait v fits =
      pump_window-IsHeld s now kind ct inflight acked [] v fits
  pump_after-IsHeld s now kind ct inflight acked (again off) v fits =
      let s' : HqcSession = record s {
        rx = record (s.rx) { retries = put_retry s.rx.retries off (u8 (s.rx.retries off + 1)) };
        t_last_tx = now;
      } in
      unfold stream in
      pump_window-IsHeld s' now kind ct (inflight + 1) acked _
        (retries-IsHeld c s.rx s'.rx.retries v) fits
  pump_after-IsHeld s now kind ct inflight acked (give_up off) v fits = abort_session-IsHeld s _ off

  pump_on-IsHeld :
      (s : HqcSession) (now kind : ℕ) (ct : Option (List ℕ))
      → IsHeld c s.rx
      → (stream s.rx kind).ct ≡ ct
      → IsHeld c (pump_on c s now kind ct).session.rx
  unfolding pump_on pump_ct
  pump_on-IsHeld s now kind none v e = v
  pump_on-IsHeld s now kind (some ct) v e =
      let f = Fits-stream c s.rx kind v in
      elim (Bool-cases ((stream s.rx kind).len == 0)) [
        | inl z ↦ rw z v
        | inr z ↦
            rw z
              (pump_after-IsHeld s now kind ct _ _ _ v (omega (arith, f.len_le, rw e at f.sized)))
      ]

  pump_stream-IsHeld :
      (s : HqcSession) (now kind : ℕ)
      → IsHeld c s.rx
      → IsHeld c (pump_stream c s now kind).session.rx
  unfolding pump_stream
  pump_stream-IsHeld s now kind v = pump_on-IsHeld s now kind (stream s.rx kind).ct v refl

  pump_done-IsHeld : (s : HqcSession) → IsHeld c s.rx → IsHeld c (pump_done s).rx
  unfolding pump_done
  pump_done-IsHeld s v = elim (Bool-cases (streams_done s.rx && is_ct_tx s.state)) [
    | inl e ↦ rw e v
    | inr e ↦ rw e v
  ]

  pump_tx-IsHeld :
      (s : HqcSession) (now : ℕ) → IsHeld c s.rx → IsHeld c (pump_tx c s now).session.rx
  unfolding pump_tx
  pump_tx-IsHeld s now v =
      let e = pump_stream c s now 0 in
      let ve = pump_stream-IsHeld s now 0 v in
      let vt = pump_stream-IsHeld e.session now 1 ve in
      elim (Bool-cases s.owned) [
        | inr o ↦ simp (o) v
        | inl o ↦ simp (o) (elim (Bool-cases (e.alive)) [
          | inr a ↦ rw a ve
          | inl a ↦ rw a (elim (Bool-cases (pump_stream c e.session now 1).alive) [
            | inr b ↦ rw b vt
            | inl b ↦ rw b (pump_done-IsHeld _ vt)
          ])
        ])
      ]

  probe_on-IsHeld :
      (s : HqcSession) (now kind : ℕ) (ct : Option (List ℕ))
      → IsHeld c s.rx
      → IsHeld c (probe_on s now kind ct).session.rx
  unfolding probe_on probe_send
  probe_on-IsHeld s now kind none v = v
  probe_on-IsHeld s now kind (some ct) v =
      let acked = fit_acked (stream s.rx kind).acked (chunks_of (stream s.rx kind).len s.rx.mtu) in
      elim (Bool-cases ((stream s.rx kind).len == 0)) [
        | inl z ↦ rw z v
        | inr z ↦
            rw z (
              sent _ _
                (put_stream-IsHeld c s.rx kind acked _ v (Fits-stream c s.rx kind v).sent_le))
      ]
    where
      sent :
          (t : HqcSession) (i : Option ℕ)
          → IsHeld c t.rx
          → IsHeld c (probe_send t now kind ct (stream s.rx kind).len i).session.rx
      sent t none w = w
      sent t (some i) w = w

  kick_acks-IsHeld :
      (s : HqcSession) (now : ℕ) → IsHeld c s.rx → IsHeld c (kick_acks s now).session.rx
  unfolding kick_acks probe_stream
  kick_acks-IsHeld s now v = elim (Bool-cases s.owned) [
    | inl o ↦ simp (o) (probe_on-IsHeld _ now 1 _ (probe_on-IsHeld s now 0 (stream s.rx 0).ct v))
    | inr o ↦ simp (o) v
  ]

  tick-IsHeld : (s : HqcSession) (now : ℕ) → IsHeld c s.rx → IsHeld c (tick c s now).session.rx
  unfolding tick tick_live
  tick-IsHeld s now v = elim (Bool-cases (is_quiet s.state)) [
    | inl q ↦ rw q v
    | inr q ↦ rw q (elim (Bool-cases (ltb 20000 (sub32 now s.t_start))) [
      | inl l ↦ rw l (abort_session-IsHeld s 2 0)
      | inr l ↦ rw l (
          let p = pump_tx-IsHeld s now v in
          elim (Bool-cases (ltb 1500 (sub32 now (pump_tx c s now).session.t_last_rx))) [
            | inl k ↦ rw k (kick_acks-IsHeld _ now p)
            | inr k ↦ rw k p
          ])
    ])
  ]

  open_of_phase : {st : HqcState} {rx : HqcRxBuf} → IsPhase st rx → (¬ IsQuiet st) → IsLive st
  open_of_phase (under_way IsOpen.sending) n = still_sending
  open_of_phase (under_way IsOpen.waiting) n = still_waiting
  open_of_phase (under_way IsOpen.failed) n = absurd (n is_fail)
  open_of_phase (resting IsRest.nothing_yet z) n = absurd (n is_idle)
  open_of_phase (resting IsRest.running z) n = absurd (n is_running)

  IsOpen-live : {st : HqcState} → IsLive st → IsOpen st
  IsOpen-live still_sending = IsOpen.sending
  IsOpen-live still_waiting = IsOpen.waiting

  -- How a live session moves in a tick.
  moved-IsNext :
      (s s' : HqcSession) (now : ℕ)
      → IsLive s.state
      → IsHeld c s'.rx
      → IsMoved s s'
      → IsNext c (on_tick now) s s'
  moved-IsNext s s' now l v (same e) = record {
    valid = record { held = v; phase = under_way (subst IsOpen (sym e) (IsOpen-live l)) };
    move = inl e;
  }
  moved-IsNext s s' now l v (all_sent e f) = record {
    valid = record { held = v; phase = under_way (subst IsOpen (sym f) IsOpen.waiting) };
    move = inr (inl (e, f));
  }
  moved-IsNext s s' now l v (gave_up f w) = record {
    valid = record { held = v; phase = under_way (subst IsOpen (sym f) IsOpen.failed) };
    move = inr (inr (l, f));
  }

  pub tick-IsNext :
      (s : HqcSession) (now : ℕ) → IsValid c s → IsNext c (on_tick now) s (tick c s now).session
  tick-IsNext s now v = elim (tick-IsTicked c s now) [
    | quiet q e ↦ rw e (record { valid = v; move = inl refl })
    | late n l o f w ↦
        moved-IsNext s _ now (open_of_phase v.phase n) (tick-IsHeld s now v.held) (gave_up f w)
    | in_time n l m ↦ moved-IsNext s _ now (open_of_phase v.phase n) (tick-IsHeld s now v.held) m
  ]
