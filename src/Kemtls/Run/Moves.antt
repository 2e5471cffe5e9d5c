-- ===== src/Kemtls/Run/Moves.antt =====
-- Every event, and every sequence of them, keeps a session valid; and what each does to a session
-- that is active.
use pq_key_establishment_mav.Base.{
  ℕ, ◌≡◌, ◌≢◌, ◌==◌, ◌∙◌, refl, sym, List, [], ◌∷◌, not, Bool-cases, inl, inr, none, some,
}
use pq_key_establishment_mav.Kemtls.Types.{
  Platform, IsPlatform, HqcSession, HqcState, CtAck, PkChunk, Reply,
}
use pq_key_establishment_mav.Kemtls.Session.{note_rx}
use pq_key_establishment_mav.Kemtls.PkChunk.{PkEnv, handle_hqc_pk_chunk}
use pq_key_establishment_mav.Kemtls.CtAck.{stream, ct_ack_on, handle_hqc_ct_ack}
use pq_key_establishment_mav.Kemtls.Finish.Authentic.{handle_hqc_finish_refused}
use pq_key_establishment_mav.Kemtls.Timer.{tick, is_quiet}
use pq_key_establishment_mav.Kemtls.Run.{
  Event, on_hello, on_pk_chunk, on_ct_ack, on_finish, on_tick, step, run,
}
use pq_key_establishment_mav.Kemtls.Run.Valid.{
  IsValid, IsNext, IsPossible, AllPossible, IsPhase, under_way, resting, IsOpen, IsEmptied,
}
use pq_key_establishment_mav.Kemtls.Run.Streams.{handle_hqc_ct_ack-IsNext}
use pq_key_establishment_mav.Kemtls.Run.Clock.{tick-IsNext}
use pq_key_establishment_mav.Kemtls.Run.Closing.{handle_hqc_finish-IsNext}
use pq_key_establishment_mav.Kemtls.Run.Key.{handle_hqc_pk_chunk-IsNext}
use pq_key_establishment_mav.Kemtls.Run.Greeting.{handle_hqc_hello-IsNext}

-- The event is handled without a write past a buffer, the session stays valid, and its state moves
-- as the state machine has it.
abbrev pub IsHandled : Platform → HqcSession → Event → Type 0
IsHandled c s e = (r : Reply) × (step c s e ≡ some r) × IsNext c e s r.session

-- On the documented sizes of what the platform returns, an event that can happen to a valid
-- session is answered without a write past a buffer; the session is valid again, and its state
-- has made one of the transitions of the state machine: a hello leads to idle or sending from
-- anywhere; a fragment of the key to sending or failure, an acknowledgement to waiting, both only
-- from sending, waiting or failure; a Finished message from waiting to active or failure; a tick
-- from sending to waiting, or from these two to failure; otherwise the state is kept.
pub step-IsNext :
    (c : Platform) (ok : IsPlatform c) (s : HqcSession) (e : Event)
    → IsValid c s
    → IsPossible c e
    → IsHandled c s e
unfolding step
step-IsNext c ok s (on_hello m env) v p = handle_hqc_hello-IsNext c ok s m env p
step-IsNext c ok s (on_pk_chunk m env) v p = handle_hqc_pk_chunk-IsNext c ok s m env v p
step-IsNext c ok s (on_ct_ack m now) v p = (_, refl, handle_hqc_ct_ack-IsNext c ok s m now v)
step-IsNext c ok s (on_finish m now) v p = (_, refl, handle_hqc_finish-IsNext c m now s v)
step-IsNext c ok s (on_tick now) v p = (_, refl, tick-IsNext c ok s now v)

-- On the same sizes, whatever comes to a valid session, in whatever order and number, no handler
-- writes past a buffer, and the session that is left is valid: its limits are mtu 220 and window 8,
-- the buffer of the ephemeral key and those of the two ciphertexts have the sizes asked for, lengths
-- and cursors are within them, and where no handshake is under way these three are gone.
pub run-IsValid :
    (c : Platform) (ok : IsPlatform c) (s : HqcSession) (es : List Event)
    → IsValid c s
    → AllPossible c es
    → (s' : HqcSession) × (run c s es ≡ some s') × IsValid c s'
unfolding run
run-IsValid c ok s [] v p = (s, refl, v)
run-IsValid c ok s (e ∷ es) v p =
    let (r, f, n) = step-IsNext c ok s e v p.0 in
    let (s', g, w) = run-IsValid c ok r.session es n.valid p.1 in (s', rw (f, run) g, w)

-- An event that is no hello.
abbrev pub IsOther : Event → Type 0
IsOther (on_hello m env) = ⊥
IsOther (on_pk_chunk m env) = Unit {0}
IsOther (on_ct_ack m now) = Unit {0}
IsOther (on_finish m now) = Unit {0}
IsOther (on_tick now) = Unit {0}

IsEmptied-active :
    {c : Platform} (s : HqcSession) → IsValid c s → s.state ≡ HqcState.active → IsEmptied s.rx
IsEmptied-active s v e = go s.state e v.phase
  where
    go : (st : HqcState) → st ≡ HqcState.active → IsPhase st s.rx → IsEmptied s.rx
    go st e (resting r z) = z
    go _ e (under_way IsOpen.sending) = cc
    go _ e (under_way IsOpen.waiting) = cc
    go _ e (under_way IsOpen.failed) = cc

pk_chunk_unkeyed :
    (c : Platform) (s : HqcSession) (m : PkChunk) (env : PkEnv)
    → s.rx.pke ≡ none
    → (r : Reply) × (handle_hqc_pk_chunk c s m env ≡ some r) × (r.session ≡ note_rx s env.now)
unfolding handle_hqc_pk_chunk note_rx
pk_chunk_unkeyed c s m env e = elim (Bool-cases (not (m.session_id == s.rx.session_id))) [
  | inl f ↦ rw f (_, refl, refl)
  | inr f ↦ rw f (elim (Bool-cases (s.rx.pk_len == 0)) [
    | inl g ↦ rw g (_, refl, refl)
    | inr g ↦ rw g (simp (e) (_, refl, refl))
  ])
]

ct_ack_unkeyed :
    (s : HqcSession) (m : CtAck) (now : ℕ)
    → s.rx.cte ≡ none
    → s.rx.cts ≡ none
    → (handle_hqc_ct_ack s m now).session ≡ note_rx s now
unfolding handle_hqc_ct_ack note_rx stream
ct_ack_unkeyed s m now e f = elim (Bool-cases (m.session_id == s.rx.session_id)) [
  | inr n ↦ rw n refl
  | inl n ↦ rw n (elim (Bool-cases (m.ct_kind == 0)) [
    | inl k ↦ simp (k, e) (unfold ct_ack_on in refl)
    | inr k ↦ simp (k, f) (unfold ct_ack_on in refl)
  ])
]

tick_active :
    (c : Platform) (s : HqcSession) (now : ℕ)
    → s.state ≡ HqcState.active
    → (tick c s now).session ≡ s
unfolding tick is_quiet
tick_active c s now e = simp (e, is_quiet) refl

-- A valid session that is active is changed by nothing but a hello, except for the clock of the
-- last message.
pub step_active :
    (c : Platform) (s : HqcSession) (e : Event)
    → IsValid c s
    → s.state ≡ HqcState.active
    → IsOther e
    → (r : Reply) × (t : ℕ) × (step c s e ≡ some r) × (r.session ≡ note_rx s t)
unfolding step note_rx
step_active c s (on_hello m env) v a o = absurd o
step_active c s (on_pk_chunk m env) v a o =
    let (r, e, f) = pk_chunk_unkeyed c s m env (IsEmptied-active s v a).no_pke in (r, env.now, e, f)
step_active c s (on_ct_ack m now) v a o =
    let z = IsEmptied-active s v a in (_, now, refl, ct_ack_unkeyed s m now z.no_cte z.no_cts)
step_active c s (on_finish m now) v a o =
    (_, now, refl, (handle_hqc_finish_refused c s m now (λ w. busy w.waiting)).0)
  where
    busy : s.state ≢ HqcState.wait_cf
    busy e = let f : HqcState.active ≡ HqcState.wait_cf = sym a ∙ e in cc
step_active c s (on_tick now) v a o = (_, s.t_last_rx, refl, tick_active c s now a)
