-- ===== src/Kemtls/Run/Trace.antt =====
-- How a session comes to be active: only by a Finished message with the right tag, and from then
-- on it is the session that this message made.
use pq_key_establishment_mav.Base.{
  ℕ, ◌≡◌, ◌≢◌, ◌⊎◌, ◌∙◌, refl, sym, ap, List, [], ◌∷◌, ◌++◌, inl, inr, some,
}
use pq_key_establishment_mav.Kemtls.Types.{
  Platform, IsPlatform, HqcSession, HqcState, Finish, Reply,
}
use pq_key_establishment_mav.Kemtls.Session.{note_rx}
use pq_key_establishment_mav.Kemtls.Finish.{handle_hqc_finish}
use pq_key_establishment_mav.Kemtls.Finish.Authentic.{
  IsWellTimed, right_tag, handle_hqc_finish_active_iff,
}
use pq_key_establishment_mav.Kemtls.Run.{
  Event, on_hello, on_pk_chunk, on_ct_ack, on_finish, on_tick, step, run,
}
use pq_key_establishment_mav.Kemtls.Run.Valid.{IsValid, IsMove, IsPossible, AllPossible}
use pq_key_establishment_mav.Kemtls.Run.Moves.{step-IsNext, step_active, IsOther}

-- A run's events hold a Finished message in time with the right tag, and the session at the end is
-- the one that this message made, up to the clock of the last message.
pub record IsKeyed (c : Platform) (s : HqcSession) (es : List Event) (s' : HqcSession)
    : Type 0 where
  pub before : List Event
  pub m : Finish
  pub now : ℕ
  pub after : List Event
  pub split : es ≡ before ++ (on_finish m now ∷ after)
  pub s1 : HqcSession
  pub reached : run c s before ≡ some s1
  pub timed : IsWellTimed s1 m
  pub right : right_tag c s1 ≡ m.tag
  pub clock : ℕ
  pub ends : s' ≡ note_rx (handle_hqc_finish c s1 m now).session clock

active_dec : (st : HqcState) → (st ≡ HqcState.active) ⊎ (st ≢ HqcState.active)
active_dec HqcState.idle = inr (λ e. cc)
active_dec HqcState.hello_rcvd = inr (λ e. cc)
active_dec HqcState.pk_rx = inr (λ e. cc)
active_dec HqcState.encap_ready = inr (λ e. cc)
active_dec HqcState.encap_done = inr (λ e. cc)
active_dec HqcState.ct_tx = inr (λ e. cc)
active_dec HqcState.wait_cf = inr (λ e. cc)
active_dec HqcState.active = inl refl
active_dec HqcState.fail = inr (λ e. cc)

some_inj : {A : Type 0} {x y : A} → some x ≡ some y → x ≡ y
some_inj p = cc

IsKeyed-cons :
    (c : Platform) (s : HqcSession) (e : Event) (es : List Event) (r : Reply) (s' : HqcSession)
    → step c s e ≡ some r
    → IsKeyed c r.session es s'
    → IsKeyed c s (e ∷ es) s'
unfolding run
IsKeyed-cons c s e es r s' f k = record {
  before = e ∷ k.before;
  m = k.m;
  now = k.now;
  after = k.after;
  split = ap (λ (l : List Event). e ∷ l) k.split;
  s1 = k.s1;
  reached = rw (f, run) k.reached;
  timed = k.timed;
  right = k.right;
  clock = k.clock;
  ends = k.ends;
}

IsOther-active : (e : Event) (a b : HqcState) → IsMove e a b → b ≡ HqcState.active → IsOther e
IsOther-active (on_hello m env) a b (inl f) h = cc
IsOther-active (on_hello m env) a b (inr f) h = cc
IsOther-active (on_pk_chunk m env) a b n h = tt
IsOther-active (on_ct_ack m now) a b n h = tt
IsOther-active (on_finish m now) a b n h = tt
IsOther-active (on_tick now) a b n h = tt

module _ (c : Platform) (ok : IsPlatform c) where
  -- The event that makes a session active.
  activated :
      (s : HqcSession) (e : Event) (es : List Event) (r : Reply) (s' : HqcSession) (t : ℕ)
      → IsPossible c e
      → s.state ≢ HqcState.active
      → step c s e ≡ some r
      → IsMove e s.state r.session.state
      → r.session.state ≡ HqcState.active
      → s' ≡ note_rx r.session t
      → IsKeyed c s (e ∷ es) s'
  unfolding step run
  activated s (on_hello m env) es r s' t p n f (inl g) a q = cc
  activated s (on_hello m env) es r s' t p n f (inr g) a q = cc
  activated s (on_pk_chunk m env) es r s' t p n f (inl g) a q = absurd (n (sym g ∙ a))
  activated s (on_pk_chunk m env) es r s' t p n f (inr (o, inl g)) a q = cc
  activated s (on_pk_chunk m env) es r s' t p n f (inr (o, inr g)) a q = cc
  activated s (on_ct_ack m now) es r s' t p n f (inl g) a q = absurd (n (sym g ∙ a))
  activated s (on_ct_ack m now) es r s' t p n f (inr (o, g)) a q = cc
  activated s (on_tick now) es r s' t p n f (inl g) a q = absurd (n (sym g ∙ a))
  activated s (on_tick now) es r s' t p n f (inr (inl (g, h))) a q = cc
  activated s (on_tick now) es r s' t p n f (inr (inr (l, h))) a q = cc
  activated s (on_finish m now) es r s' t p n f mv a q =
      let g : handle_hqc_finish c s m now ≡ r = some_inj f in
      let w =
        (handle_hqc_finish_active_iff c ok s m now p n).0
          (ap (λ (x : Reply). x.session.state) g ∙ a) in
      record {
        before = [];
        m = m;
        now = now;
        after = es;
        split = refl;
        s1 = s;
        reached = refl;
        timed = w.0;
        right = w.1;
        clock = t;
        ends = q ∙ ap (λ (x : Reply). note_rx x.session t) (sym g);
      }

  -- A run that ends active began active and has changed nothing but the clock, or made the session
  -- active on its way.
  run_kept :
      (s : HqcSession) (es : List Event) (s' : HqcSession)
      → IsValid c s
      → AllPossible c es
      → run c s es ≡ some s'
      → s'.state ≡ HqcState.active
      → ((s.state ≡ HqcState.active) × (t : ℕ) × (s' ≡ note_rx s t)) ⊎ IsKeyed c s es s'
  unfolding run note_rx
  run_kept s [] s' v p f a =
      let e : s ≡ s' = some_inj f in
      inl (ap (λ (x : HqcSession). x.state) e ∙ a, s.t_last_rx, sym e)
  run_kept s (e ∷ es) s' v p f a =
      let (r, g, n) = step-IsNext c ok s e v p.0 in
      elim (run_kept r.session es s' n.valid p.1 (rw (g, run) at f) a) [
        | inr k ↦ inr (IsKeyed-cons c s e es r s' g k)
        | inl (b, t, q) ↦ elim (active_dec s.state) [
          | inr d ↦ inr (activated s e es r s' t p.0 d g n.move b q)
          | inl d ↦
              let (r', t', g', h) =
                step_active c s e v d (IsOther-active e s.state r.session.state n.move b) in
              let same : r' ≡ r = some_inj (sym g' ∙ g) in
              inl (
                d,
                t,
                q
                    ∙ ap (λ (x : HqcSession). note_rx x t)
                        (ap (λ (x : Reply). x.session) (sym same) ∙ h),
              )
        ]
      ]

  -- On the documented sizes of what the platform returns: when a valid session that is not active
  -- has become active after whatever came, in whatever order, a Finished message was among it
  -- that came when the session waited for it with both ciphertexts acknowledged and that had the
  -- right tag; and the session is the one this message made, up to the clock of the last message.
  pub run_active-IsKeyed :
      (s : HqcSession) (es : List Event) (s' : HqcSession)
      → IsValid c s
      → s.state ≢ HqcState.active
      → AllPossible c es
      → run c s es ≡ some s'
      → s'.state ≡ HqcState.active
      → IsKeyed c s es s'
  run_active-IsKeyed s es s' v n p f a = elim (run_kept s es s' v p f a) [
    | inl (b, t, q) ↦ absurd (n b)
    | inr k ↦ k
  ]
