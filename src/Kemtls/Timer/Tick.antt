-- ===== src/Kemtls/Timer/Tick.antt =====
-- What a tick of the clock does to a session, on every branch.
use pq_key_establishment_mav.Base.{
  true-false, ℕ, subst, ◌<◌, ◌≤◌, ◌≡◌, refl, sym, ◌∙◌, List, [], ◌∷◌, arith, Bool, true, false,
  ◌&&◌, Bool-cases, inl, inr, Option, none, some, ltb, ltb→lt, if◌then◌else◌, ◌==◌,
}
use pq_key_establishment_mav.Base.Bytes.{sub32}
use pq_key_establishment_mav.Kemtls.Types.{
  Platform, HqcSession, HqcState, Reply, hqc_abort, kex_timeout,
}
use pq_key_establishment_mav.Kemtls.Session.Wiped.{IsWiped}
use pq_key_establishment_mav.Kemtls.CtAck.{stream}
use pq_key_establishment_mav.Kemtls.Stream.{streams_done}
use pq_key_establishment_mav.Kemtls.Timer.{
  Resend, wait, again, give_up, Pumped, pump_window, pump_after, pump_ct, pump_on, pump_stream,
  abort_session, is_ct_tx, pump_done, pump_tx, probe_send, probe_on, probe_stream, kick_acks,
  is_quiet, tick_live, tick,
}
use pq_key_establishment_mav.Kemtls.Timer.Retry.{abort_session-IsWiped}

-- How a session's state moves while no message comes in.
pub data IsMoved (s s' : HqcSession) : Type 0 where
  same : s'.state ≡ s.state → IsMoved s s'
  all_sent : s.state ≡ HqcState.ct_tx → s'.state ≡ HqcState.wait_cf → IsMoved s s'
  gave_up : s'.state ≡ HqcState.fail → IsWiped s' → IsMoved s s'

-- What a pump of one stream leaves, by its `alive` flag.
data IsPumpedOn (s : HqcSession) (p : Pumped) : Type 0 where
  going : p.alive ≡ true → p.session.state ≡ s.state → IsPumpedOn s p
  dead : p.alive ≡ false → p.session.state ≡ HqcState.fail → IsWiped p.session → IsPumpedOn s p

pump_after-IsPumpedOn :
    (c : Platform) (s : HqcSession) (now kind : ℕ) (ct : List ℕ) (inflight : ℕ) (acked : List Bool)
    (r : Resend)
    → IsPumpedOn s (pump_after c s now kind ct (stream s.rx kind) inflight acked r)
unfolding pump_after pump_window
pump_after-IsPumpedOn c s now kind ct inflight acked wait = going refl refl
pump_after-IsPumpedOn c s now kind ct inflight acked (again off) = going refl refl
pump_after-IsPumpedOn c s now kind ct inflight acked (give_up off) =
    dead refl (unfold abort_session in refl)
      (abort_session-IsWiped c s (if kind == 0 then 0 else 1) off)

pump_on-IsPumpedOn :
    (c : Platform) (s : HqcSession) (now kind : ℕ) (ct : Option (List ℕ))
    → IsPumpedOn s (pump_on c s now kind ct)
unfolding pump_on pump_ct
pump_on-IsPumpedOn c s now kind none = going refl refl
pump_on-IsPumpedOn c s now kind (some ct) = elim (Bool-cases ((stream s.rx kind).len == 0)) [
  | inl z ↦ rw z (going refl refl)
  | inr z ↦ rw z (pump_after-IsPumpedOn c s now kind ct _ _ _)
]

pump_stream-IsPumpedOn :
    (c : Platform) (s : HqcSession) (now kind : ℕ) → IsPumpedOn s (pump_stream c s now kind)
unfolding pump_stream
pump_stream-IsPumpedOn c s now kind = pump_on-IsPumpedOn c s now kind (stream s.rx kind).ct

is_ct_tx_iff : (st : HqcState) → is_ct_tx st ≡ true → st ≡ HqcState.ct_tx
unfolding is_ct_tx
is_ct_tx_iff HqcState.idle e = cc
is_ct_tx_iff HqcState.hello_rcvd e = cc
is_ct_tx_iff HqcState.pk_rx e = cc
is_ct_tx_iff HqcState.encap_ready e = cc
is_ct_tx_iff HqcState.encap_done e = cc
is_ct_tx_iff HqcState.ct_tx e = refl
is_ct_tx_iff HqcState.wait_cf e = cc
is_ct_tx_iff HqcState.active e = cc
is_ct_tx_iff HqcState.fail e = cc

pump_done-IsMoved : (s : HqcSession) → IsMoved s (pump_done s)
unfolding pump_done
pump_done-IsMoved s = elim (Bool-cases (streams_done s.rx && is_ct_tx s.state)) [
  | inl e ↦ rw e (all_sent (is_ct_tx_iff s.state (ground (arith, e))) refl)
  | inr e ↦ rw e (same refl)
]

IsMoved-from : (s t u : HqcSession) → t.state ≡ s.state → IsMoved t u → IsMoved s u
IsMoved-from s t u e (same f) = same (f ∙ e)
IsMoved-from s t u e (all_sent f g) = all_sent (sym e ∙ f) g
IsMoved-from s t u e (gave_up f w) = gave_up f w

pump_tx-IsMoved : (c : Platform) (s : HqcSession) (now : ℕ) → IsMoved s (pump_tx c s now).session
unfolding pump_tx
pump_tx-IsMoved c s now = elim (Bool-cases s.owned) [
  | inr o ↦ simp (o) (same refl)
  | inl o ↦ simp (o) (elim (pump_stream-IsPumpedOn c s now 0) [
    | dead a f w ↦ rw a (gave_up f w)
    | going a e ↦ rw a (elim (pump_stream-IsPumpedOn c (pump_stream c s now 0).session now 1) [
      | dead b f w ↦ rw b (gave_up f w)
      | going b f ↦ rw b (IsMoved-from s _ _ (f ∙ e) (pump_done-IsMoved _))
    ])
  ])
]

probe_send-state :
    (s : HqcSession) (now kind : ℕ) (ct : List ℕ) (len : ℕ) (i : Option ℕ)
    → (probe_send s now kind ct len i).session.state ≡ s.state
unfolding probe_send
probe_send-state s now kind ct len none = refl
probe_send-state s now kind ct len (some i) = refl

probe_on-state :
    (s : HqcSession) (now kind : ℕ) (ct : Option (List ℕ))
    → (probe_on s now kind ct).session.state ≡ s.state
unfolding probe_on
probe_on-state s now kind none = refl
probe_on-state s now kind (some ct) = elim (Bool-cases ((stream s.rx kind).len == 0)) [
  | inl z ↦ rw z refl
  | inr z ↦ rw z (probe_send-state _ now kind ct _ _)
]

probe_stream-state :
    (s : HqcSession) (now kind : ℕ) → (probe_stream s now kind).session.state ≡ s.state
unfolding probe_stream
probe_stream-state s now kind = probe_on-state s now kind (stream s.rx kind).ct

kick_acks-state : (s : HqcSession) (now : ℕ) → (kick_acks s now).session.state ≡ s.state
unfolding kick_acks
kick_acks-state s now = elim (Bool-cases s.owned) [
  | inl o ↦
      simp (o)
        (probe_stream-state (probe_stream s now 0).session now 1 ∙ probe_stream-state s now 0)
  | inr o ↦ simp (o) refl
]

-- A wiped session has nothing left to probe for.
probe_stream-wiped :
    (s : HqcSession) (now kind : ℕ) → IsWiped s → (probe_stream s now kind).session ≡ s
unfolding probe_stream stream
probe_stream-wiped s now kind w = elim (Bool-cases (kind == 0)) [
  | inl z ↦ simp (z, w.buffers.2) (unfold probe_on in refl)
  | inr z ↦ simp (z, w.buffers.3) (unfold probe_on in refl)
]

kick_acks-wiped : (s : HqcSession) (now : ℕ) → IsWiped s → (kick_acks s now).session ≡ s
unfolding kick_acks
kick_acks-wiped s now w = elim (Bool-cases s.owned) [
  | inl o ↦ simp (o, probe_stream-wiped s now 0 w, probe_stream-wiped s now 1 w) refl
  | inr o ↦ simp (o) refl
]

IsWiped-clock : (s : HqcSession) (now : ℕ) → IsWiped s → IsWiped (record s { t_last_rx = now })
IsWiped-clock s now w = record {
  transcript = w.transcript;
  master = w.master;
  aes_keys = w.aes_keys;
  ivs = w.ivs;
  chacha_keys = w.chacha_keys;
  secrets = w.secrets;
  buffers = w.buffers;
}

-- Probing moves a session no further than the pump before it did.
kicked-IsMoved :
    (s p : HqcSession) (now : ℕ)
    → IsMoved s p
    → IsMoved s (record ((kick_acks p now).session) { t_last_rx = now })
kicked-IsMoved s p now (same e) = same (kick_acks-state p now ∙ e)
kicked-IsMoved s p now (all_sent e f) = all_sent e (kick_acks-state p now ∙ f)
kicked-IsMoved s p now (gave_up e w) =
    gave_up (kick_acks-state p now ∙ e)
      (IsWiped-clock _ now (subst IsWiped (sym (kick_acks-wiped p now w)) w))

tick_live-IsMoved :
    (c : Platform) (s : HqcSession) (now : ℕ) → IsMoved s (tick_live c s now).session
unfolding tick_live
tick_live-IsMoved c s now =
    elim (Bool-cases (ltb 1500 (sub32 now (pump_tx c s now).session.t_last_rx))) [
      | inl e ↦ simp (e) (kicked-IsMoved s _ now (pump_tx-IsMoved c s now))
      | inr e ↦ simp (e) (pump_tx-IsMoved c s now)
    ]

-- The states in which there is no handshake to drive.
pub data IsQuiet : HqcState → Type 0 where
  is_idle : IsQuiet HqcState.idle
  is_fail : IsQuiet HqcState.fail
  is_running : IsQuiet HqcState.active

IsQuiet-of : (st : HqcState) → is_quiet st ≡ true → IsQuiet st
unfolding is_quiet
IsQuiet-of HqcState.idle e = is_idle
IsQuiet-of HqcState.fail e = is_fail
IsQuiet-of HqcState.active e = is_running
IsQuiet-of HqcState.hello_rcvd e = absurd (true-false (sym e))
IsQuiet-of HqcState.pk_rx e = absurd (true-false (sym e))
IsQuiet-of HqcState.encap_ready e = absurd (true-false (sym e))
IsQuiet-of HqcState.encap_done e = absurd (true-false (sym e))
IsQuiet-of HqcState.ct_tx e = absurd (true-false (sym e))
IsQuiet-of HqcState.wait_cf e = absurd (true-false (sym e))

IsQuiet-to : (st : HqcState) → IsQuiet st → is_quiet st ≡ true
unfolding is_quiet
IsQuiet-to _ is_idle = refl
IsQuiet-to _ is_fail = refl
IsQuiet-to _ is_running = refl

not-IsQuiet : (st : HqcState) → is_quiet st ≡ false → ¬ IsQuiet st
not-IsQuiet st e q = true-false (sym (IsQuiet-to st q) ∙ e)

-- What a tick leaves of a session, by what it finds.
pub data IsTicked (s : HqcSession) (now : ℕ) (r : Reply) : Type 0 where
  quiet : IsQuiet s.state → r ≡ record { session = s; out = [] } → IsTicked s now r
  late :
      (¬ IsQuiet s.state)
      → 20000 < sub32 now s.t_start
      → r.out ≡ hqc_abort s.rx.session_id kex_timeout 2 0 ∷ []
      → r.session.state ≡ HqcState.fail
      → IsWiped r.session
      → IsTicked s now r
  in_time :
      (¬ IsQuiet s.state) → sub32 now s.t_start ≤ 20000 → IsMoved s r.session → IsTicked s now r

-- A tick has one of three effects. A session that is idle, failed or active is left alone and
-- nothing is sent. A handshake older than 20 s is given up: one abort, the state `fail`, every
-- secret wiped. Any other keeps its state, or goes from sending to waiting for the finish, or
-- fails with every secret wiped; in particular no tick makes a session active.
pub tick-IsTicked : (c : Platform) (s : HqcSession) (now : ℕ) → IsTicked s now (tick c s now)
unfolding tick
tick-IsTicked c s now = elim (Bool-cases (is_quiet s.state)) [
  | inl q ↦ simp (q) (quiet (IsQuiet-of s.state q) refl)
  | inr q ↦ simp (q) (elim (Bool-cases (ltb 20000 (sub32 now s.t_start))) [
    | inl l ↦ simp (l) (
        late (not-IsQuiet s.state q) (ltb→lt 20000 (sub32 now s.t_start) l)
          (unfold abort_session in refl) (unfold abort_session in refl)
          (abort_session-IsWiped c s 2 0))
    | inr l ↦ simp (l) (in_time (not-IsQuiet s.state q) (ground arith) (tick_live-IsMoved c s now))
  ])
]
