-- ===== src/Kemtls/PkChunk/Run.antt =====
-- A whole transfer of the ephemeral key: fragments in any order, each as often as it comes.
use pq_key_establishment_mav.Base.{
  ℕ, ◌*◌, ◌/◌, ◌<◌, ◌≡◌, ◌⊎◌, refl, ◌∙◌, ap, List, [], ◌∷◌, arith, get_or, Option, none, some, Bool,
  true, false, inl, inr,
}
use pq_key_establishment_mav.Kemtls.Types.{Platform, HqcRxBuf, HqcSession, PkChunk, pk_chunks}
use pq_key_establishment_mav.Kemtls.Stream.Chunks.{chunks_of_iff}
use pq_key_establishment_mav.Kemtls.PkChunk.{PkEnv, handle_hqc_pk_chunk}
use pq_key_establishment_mav.Kemtls.PkChunk.Assembly.{Receives, IsFragment}
use pq_key_establishment_mav.Kemtls.PkChunk.Base.{received_whole}
use pq_key_establishment_mav.Kemtls.PkChunk.Complete.{
  Delivered, IsCurrent, handle_hqc_pk_chunk-Delivered,
}

-- A fragment and what the handler meets with it.
abbrev pub Arrival : Type 0
Arrival = PkChunk × PkEnv

-- The fragments in the order in which they come; `none` is a fault.
unfoldable pub receive_all : Platform → HqcSession → List Arrival → Option HqcSession
receive_all c s [] = some s
receive_all c s ((m, env) ∷ ms) = elim (handle_hqc_pk_chunk c s m env) as (λ _. Option HqcSession) [
  | none ↦ none
  | some r ↦ receive_all c r.session ms
]

-- Every arrival is a fragment of the key and belongs to the session.
abbrev pub AllFragments : List ℕ → ℕ → ℕ → List Arrival → Type 0
AllFragments key mtu session_id [] = Unit {0}
AllFragments key mtu session_id ((m, env) ∷ ms) =
    IsFragment key mtu m × (m.session_id ≡ session_id) × AllFragments key mtu session_id ms

-- Some arrival is fragment `i`.
abbrev pub Contains : ℕ → ℕ → List Arrival → Type 0
Contains mtu i [] = ⊥
Contains mtu i ((m, env) ∷ ms) = (m.offset / mtu ≡ i) ⊎ Contains mtu i ms

-- What a run leaves.
record Run (key : List ℕ) (s : HqcSession) (ms : List Arrival) (r : Option HqcSession)
    : Type 0 where
  s' : HqcSession
  buf' : List ℕ
  returns : r ≡ some s'
  receives : Receives key buf' s'.rx
  current : IsCurrent s'.rx
  came :
      (i : ℕ)
      → (get_or s.rx.pke_acked i false ≡ true) ⊎ Contains s.rx.mtu i ms
      → get_or s'.rx.pke_acked i false ≡ true
  same_mtu : s'.rx.mtu ≡ s.rx.mtu
  same_len : s'.rx.pk_len ≡ s.rx.pk_len

Run-cons :
    (c : Platform) (key : List ℕ) (s : HqcSession) (m : PkChunk) (env : PkEnv) (ms : List Arrival)
    → (d : Delivered key s m (handle_hqc_pk_chunk c s m env))
    → Run key d.reply.session ms (receive_all c d.reply.session ms)
    → Run key s ((m, env) ∷ ms) (receive_all c s ((m, env) ∷ ms))
unfolding receive_all
Run-cons c key s m env ms d rest = record {
  s' = rest.s';
  buf' = rest.buf';
  returns = rw (d.returns, receive_all) rest.returns;
  receives = rest.receives;
  current = rest.current;
  came = λ i h. elim h [
    | inl e ↦ rest.came i (inl (d.earlier i e))
    | inr k ↦ elim k [
      | inl e ↦ rest.came i (inl (rw (← e) d.arrived))
      | inr k' ↦ rest.came i (inr (rw d.same_mtu k'))
    ]
  ];
  same_mtu = rest.same_mtu ∙ d.same_mtu;
  same_len = rest.same_len ∙ d.same_len;
}

receive_all-Run :
    (c : Platform) (key buf : List ℕ) (s : HqcSession) (ms : List Arrival)
    → Receives key buf s.rx
    → IsCurrent s.rx
    → AllFragments key s.rx.mtu s.rx.session_id ms
    → Run key s ms (receive_all c s ms)
unfolding receive_all
receive_all-Run c key buf s [] v cur all = record {
  s' = s;
  buf' = buf;
  returns = refl;
  receives = v;
  current = cur;
  came = λ i h. elim h [ inl e ↦ e | inr n ↦ absurd n ];
  same_mtu = refl;
  same_len = refl;
}
receive_all-Run c key buf s ((m, env) ∷ ms) v cur all =
    let d = handle_hqc_pk_chunk-Delivered c s v m env all.1 all.0 in
    Run-cons c key s m env ms d (
      receive_all-Run c key d.buf' d.reply.session ms d.receives d.current
        (rw (d.same_mtu, d.same_session) all.2))

fresh-IsCurrent :
    (key buf : List ℕ) (rx : HqcRxBuf) → Receives key buf rx → rx.pke_acked ≡ [] → IsCurrent rx
unfolding pk_chunks
fresh-IsCurrent key buf rx v e all = absurd (
    none_there rx.pke_acked e (
      all 0 (
        (chunks_of_iff rx.pk_len rx.mtu 0 v.mtu_pos (omega (arith, v.small, v.mtu_small))).1
          (omega (arith, v.pos_len)))))
  where
    none_there : (l : List Bool) → l ≡ [] → get_or l 0 false ≡ true → ⊥
    none_there [] p q = cc
    none_there (b ∷ bs) p q = cc

-- From a reception of the key in which nothing has come yet: when every fragment of it is among
-- the arrivals, in whatever order and as often as it was sent, no write has left the buffer, the
-- buffer holds exactly the key and the base stands at its end.
pub receive_all_whole :
    (c : Platform) (key buf : List ℕ) (s : HqcSession) (ms : List Arrival)
    → Receives key buf s.rx
    → s.rx.pke_acked ≡ []
    → AllFragments key s.rx.mtu s.rx.session_id ms
    → ((i : ℕ) → i * s.rx.mtu < s.rx.pk_len → Contains s.rx.mtu i ms)
    → (s' : HqcSession) × (receive_all c s ms ≡ some s')
      × (s'.rx.pke ≡ some key)
      × (s'.rx.pke_rcvd ≡ s.rx.pk_len)
unfolding pk_chunks
receive_all_whole c key buf s ms v fresh all every =
    let r = receive_all-Run c key buf s ms v (fresh-IsCurrent key buf s.rx v fresh) all in
    let done : r.s'.rx.pke_rcvd ≡ r.s'.rx.pk_len = r.current λ i p. r.came i (
      inr (
        every i (
          (chunks_of_iff s.rx.pk_len s.rx.mtu i v.mtu_pos (omega (arith, v.small, v.mtu_small))).0
            (rw (r.same_len, r.same_mtu) at p)))) in
    (
      r.s',
      r.returns,
      r.receives.buffer ∙ ap some (received_whole r.receives (omega (arith, done))),
      done ∙ r.same_len,
    )
