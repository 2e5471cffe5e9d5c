-- ===== src/Kemtls/Timer.antt =====
-- GCS_KEMTLS.cpp: `HqcSession::tick`, `pump_tx` and `kick_acks`, which the scheduler drives.
-- Millisecond clocks are 32-bit and their differences wrap.
pub mod Retry
pub mod Tick
use pq_key_establishment_mav.Base.{
  ℕ, zero, suc, ◌+◌, ◌-◌, ◌*◌, List, [], ◌∷◌, ◌++◌, ◌==◌, if◌then◌else◌, ltb, leb, min, Bool, true,
  false, ◌&&◌, not, Option, none, some,
}
use pq_key_establishment_mav.Base.Bytes.{u8, sub32}
use pq_key_establishment_mav.Kemtls.Types.{
  Platform, HqcSession, HqcState, Out, Reply, hqc_abort, kex_timeout, chunks_of,
}
use pq_key_establishment_mav.Kemtls.Wire.{th_add_abort}
use pq_key_establishment_mav.Kemtls.Session.{reset}
use pq_key_establishment_mav.Kemtls.Stream.{
  chunk_out, fit_acked, inflight_from, send_window, streams_done,
}
use pq_key_establishment_mav.Kemtls.CtAck.{Stream, stream, put_stream, put_retry}

-- The lambda `rto_for`: doubled once for each try, until it has passed RTO_MAX_MS.
unfoldable pub rto_from : ℕ → ℕ → ℕ
rto_from zero r = r
rto_from (suc tries) r = rto_from tries (if ltb r 4000 then r * 2 else 4000)

unfoldable pub rto_for : ℕ → ℕ
unfolding rto_from
rto_for tries = rto_from tries 300

-- Abort with `detail` and `value`, after the canonical record: the session is wiped and fails.
unfoldable pub abort_session : Platform → HqcSession → ℕ → ℕ → Reply
unfolding reset
abort_session c s detail value =
    let wiped =
      reset (record s { th = th_add_abort c s.th s.rx.session_id kex_timeout detail value }) in
    record {
      session = record wiped { state = HqcState.fail };
      out = hqc_abort s.rx.session_id kex_timeout detail value ∷ [];
    }

-- What the loop over the fragments in flight decides: nothing is due, a fragment is sent again
-- at this offset, or its tries are used up.
pub data Resend : Type 0 where
  wait : Resend
  again give_up : ℕ → Resend

-- for (i = 0; i < chunks; i++) { if (off >= sent) break; if (acked[i]) continue; ... break; }
unfoldable pub resend_from : HqcSession → ℕ → ℕ → ℕ → List Bool → Resend
unfolding rto_for
resend_from s now sent i [] = wait
resend_from s now sent i (b ∷ bs) =
    let off = i * s.rx.mtu in
    let on = resend_from s now sent (i + 1) bs in
    let tries = s.rx.retries off in
    if leb sent off
    then wait
    else if b
    then on
    else if ltb (sub32 now s.t_last_tx) (rto_for tries)
    then wait
    else if leb s.rx.max_retries tries
    then give_up off
    else again off

-- What a pump of one stream leaves: the session, what is sent, and false if it was aborted.
pub record Pumped : Type 0 where
  pub session : HqcSession
  pub out : List Out
  pub alive : Bool

-- The fresh window after `inflight` fragments, the clock set if anything is sent.
unfoldable pub pump_window : HqcSession → ℕ → ℕ → List ℕ → ℕ → ℕ → List Bool → ℕ → List Out → Pumped
pump_window s now kind ct len inflight acked sent out =
    let w = send_window s.rx.session_id kind ct s.rx.mtu len (s.rx.window - inflight) sent in
    record {
      session = record s {
        rx = put_stream s.rx kind acked w.1;
        t_last_tx = elim w.0 [ [] ↦ s.t_last_tx | o ∷ os ↦ now ];
      };
      out = out ++ w.0;
      alive = true;
    }

-- What follows the loop over the fragments in flight.
unfoldable pub pump_after :
    Platform → HqcSession → ℕ → ℕ → List ℕ → Stream → ℕ → List Bool → Resend → Pumped
unfolding put_retry
pump_after c s now kind ct st inflight acked wait =
    pump_window s now kind ct st.len inflight acked st.sent []
pump_after c s now kind ct st inflight acked (again off) =
    let n = min s.rx.mtu (st.len - off) in
    let s' = record s {
      rx = record (s.rx) { retries = put_retry s.rx.retries off (u8 (s.rx.retries off + 1)) };
      t_last_tx = now;
    } in
    pump_window s' now kind ct st.len (inflight + 1) acked st.sent
      (chunk_out s.rx.session_id kind ct off n ∷ [])
pump_after c s now kind ct st inflight acked (give_up off) =
    let r = abort_session c s (if kind == 0 then 0 else 1) off in
    record { session = r.session; out = r.out; alive = false }

-- The lambda `pump_stream` on a stream whose buffer `ct` is not null and not empty.
unfoldable pub pump_ct : Platform → HqcSession → ℕ → ℕ → List ℕ → Stream → Pumped
pump_ct c s now kind ct st =
    let acked = fit_acked st.acked (chunks_of st.len s.rx.mtu) in
    pump_after c s now kind ct st (inflight_from s.rx.mtu st.sent 0 acked) acked
      (resend_from s now st.sent 0 acked)

unfoldable pub pump_on : Platform → HqcSession → ℕ → ℕ → Option (List ℕ) → Pumped
pump_on c s now kind none = record { session = s; out = []; alive = true }
pump_on c s now kind (some ct) =
    if (stream s.rx kind).len == 0
    then record { session = s; out = []; alive = true }
    else pump_ct c s now kind ct (stream s.rx kind)

unfoldable pub pump_stream : Platform → HqcSession → ℕ → ℕ → Pumped
pump_stream c s now kind = pump_on c s now kind (stream s.rx kind).ct

unfoldable pub is_ct_tx : HqcState → Bool
is_ct_tx HqcState.ct_tx = true
is_ct_tx _ = false

-- Both streams are through while the session is still sending.
unfoldable pub pump_done : HqcSession → HqcSession
unfolding streams_done is_ct_tx
pump_done s =
    if streams_done s.rx && is_ct_tx s.state then record s { state = HqcState.wait_cf } else s

-- `HqcSession::pump_tx`
unfoldable pub pump_tx : Platform → HqcSession → ℕ → Reply
pump_tx c s now =
    let e = pump_stream c s now 0 in
    let t = pump_stream c e.session now 1 in
    if not s.owned
    then record { session = s; out = [] }
    else if not e.alive
    then record { session = e.session; out = e.out }
    else if not t.alive
    then record { session = t.session; out = e.out ++ t.out }
    else record { session = pump_done t.session; out = e.out ++ t.out }

-- while (idx < chunks && acked[idx]) idx++;
unfoldable pub first_missing : ℕ → List Bool → Option ℕ
first_missing i [] = none
first_missing i (b ∷ bs) = let on = first_missing (i + 1) bs in if b then on else some i

-- The fragment that `probe_stream` found, if any; `s` has the fitted flags.
unfoldable pub probe_send : HqcSession → ℕ → ℕ → List ℕ → ℕ → Option ℕ → Reply
probe_send s now kind ct len none = record { session = s; out = [] }
probe_send s now kind ct len (some i) =
    let off = i * s.rx.mtu in
    record {
      session = record s { t_last_tx = now };
      out = chunk_out s.rx.session_id kind ct off (min s.rx.mtu (len - off)) ∷ [];
    }

unfoldable pub probe_on : HqcSession → ℕ → ℕ → Option (List ℕ) → Reply
probe_on s now kind none = record { session = s; out = [] }
probe_on s now kind (some ct) =
    let st = stream s.rx kind in
    let acked = fit_acked st.acked (chunks_of st.len s.rx.mtu) in
    let s' = record s { rx = put_stream s.rx kind acked st.sent } in
    if st.len == 0
    then record { session = s; out = [] }
    else probe_send s' now kind ct st.len (first_missing 0 acked)

-- The lambda `probe_stream`: the first fragment that is not acknowledged goes out again.
unfoldable pub probe_stream : HqcSession → ℕ → ℕ → Reply
probe_stream s now kind = probe_on s now kind (stream s.rx kind).ct

-- `HqcSession::kick_acks`; `now` is what AP_HAL::millis() gives.
unfoldable pub kick_acks : HqcSession → ℕ → Reply
kick_acks s now =
    let e = probe_stream s now 0 in
    let t = probe_stream e.session now 1 in
    if s.owned
    then record { session = t.session; out = e.out ++ t.out }
    else record { session = s; out = [] }

unfoldable pub is_quiet : HqcState → Bool
is_quiet HqcState.idle = true
is_quiet HqcState.fail = true
is_quiet HqcState.active = true
is_quiet _ = false

-- The part of `tick` after the deadline check; `now` stands for both clock readings.
unfoldable pub tick_live : Platform → HqcSession → ℕ → Reply
tick_live c s now =
    let p = pump_tx c s now in
    let k = kick_acks p.session now in
    if ltb 1500 (sub32 now p.session.t_last_rx)
    then record { session = record (k.session) { t_last_rx = now }; out = p.out ++ k.out }
    else p

-- `HqcSession::tick`
unfoldable pub tick : Platform → HqcSession → ℕ → Reply
tick c s now =
    if is_quiet s.state
    then record { session = s; out = [] }
    else if ltb 20000 (sub32 now s.t_start)
    then abort_session c s 2 0
    else tick_live c s now
