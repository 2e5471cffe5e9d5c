-- ===== src/Kemtls/PkChunk/Complete.antt =====
-- `handle_hqc_pk_chunk` as a whole, on the fragments of one key.
use native.Mathlib.Nat.{div-add-mod'}
use pq_key_establishment_mav.Base.{
  ℕ, ◌/◌, ◌%◌, ◌<◌, ◌≡◌, refl, sym, ◌∙◌, ap, List, arith, get_or, Option, none, some, Bool, true,
  false, leb, Bool-cases, inl, inr,
}
use pq_key_establishment_mav.Kemtls.Types.{
  Platform, HqcRxBuf, HqcSession, PkChunk, Reply, pk_chunks,
}
use pq_key_establishment_mav.Kemtls.Session.{note_rx, start_encap}
use pq_key_establishment_mav.Kemtls.Stream.Chunks.{div-lt-chunks_of}
use pq_key_establishment_mav.Kemtls.PkChunk.{
  PkEnv, handle_hqc_pk_chunk, pk_checked, pk_stored, pk_complete, pk_end, store_fragment, next_base,
  base_bytes,
}
use pq_key_establishment_mav.Kemtls.PkChunk.Assembly.{Receives, IsFragment}
use pq_key_establishment_mav.Kemtls.PkChunk.Delivery.{Stored, store_fragment-Stored}
use pq_key_establishment_mav.Kemtls.PkChunk.Base.{moved, Receives-moved, moved_complete}

-- The fields that the reception of the key is about.
pub record SameKey (a b : HqcRxBuf) : Type 0 where
  pub same_session : a.session_id ≡ b.session_id
  pub same_len : a.pk_len ≡ b.pk_len
  pub same_mtu : a.mtu ≡ b.mtu
  pub same_pke : a.pke ≡ b.pke
  pub same_acked : a.pke_acked ≡ b.pke_acked
  pub same_rcvd : a.pke_rcvd ≡ b.pke_rcvd

Receives-SameKey :
    {key buf : List ℕ} {a b : HqcRxBuf} → SameKey a b → Receives key buf b → Receives key buf a
unfolding pk_chunks
Receives-SameKey e v = record {
  whole = ground (arith, v.whole, e.same_len);
  pos_len = ground (arith, v.pos_len, e.same_len);
  small = ground (arith, v.small, e.same_len);
  mtu_pos = ground (arith, v.mtu_pos, e.same_mtu);
  mtu_small = ground (arith, v.mtu_small, e.same_mtu);
  rcvd_le = ground (arith, v.rcvd_le, e.same_len, e.same_rcvd);
  buffer = e.same_pke ∙ v.buffer;
  flags = rw (e.same_acked, e.same_len, e.same_mtu) v.flags;
  holds = rw (e.same_acked, e.same_mtu) v.holds;
  base = rw (e.same_acked, e.same_mtu, e.same_rcvd) v.base;
}

start_encap-SameKey :
    (c : Platform) (s : HqcSession) (env : PkEnv)
    → SameKey (start_encap c s env.malloc_cte env.entropy).rx s.rx
unfolding start_encap
start_encap-SameKey c s env = record {
  same_session = ground arith;
  same_len = ground arith;
  same_mtu = ground arith;
  same_pke = ground arith;
  same_acked = ground arith;
  same_rcvd = ground arith;
}

-- The encapsulation leaves the received key alone.
pk_complete-SameKey :
    (c : Platform) (s : HqcSession) (env : PkEnv) (pke : List ℕ)
    → SameKey (pk_complete c s env pke).session.rx s.rx
unfolding pk_complete
pk_complete-SameKey c s env pke = record {
  same_session = ground arith;
  same_len = ground arith;
  same_mtu = ground arith;
  same_pke = ground arith;
  same_acked = ground arith;
  same_rcvd = ground arith;
}

SameKey_refl : (rx : HqcRxBuf) → SameKey rx rx
SameKey_refl rx = record {
  same_session = refl;
  same_len = refl;
  same_mtu = refl;
  same_pke = refl;
  same_acked = refl;
  same_rcvd = refl;
}

pk_end-SameKey :
    (c : Platform) (s : HqcSession) (env : PkEnv) (pke : Option (List ℕ))
    → SameKey (pk_end c s env pke).session.rx s.rx
unfolding pk_end
pk_end-SameKey c s env none = SameKey_refl s.rx
pk_end-SameKey c s env (some pke) = pk_complete-SameKey c s env pke

pk_stored-SameKey :
    (c : Platform) (s : HqcSession) (env : PkEnv)
    → SameKey (pk_stored c s env).session.rx (moved s.rx)
unfolding pk_stored
pk_stored-SameKey c s env = elim (Bool-cases (leb s.rx.pk_len (base_bytes s.rx (next_base s.rx)))) [
  | inl e ↦ rw e (pk_end-SameKey c (record s { rx = moved s.rx }) env s.rx.pke)
  | inr e ↦ rw e (SameKey_refl (moved s.rx))
]

-- Once no fragment is missing the base stands at the end.
abbrev pub IsCurrent : HqcRxBuf → Type 0
IsCurrent rx =
    ((i : ℕ) → i < pk_chunks rx → get_or rx.pke_acked i false ≡ true) → rx.pke_rcvd ≡ rx.pk_len

-- The outcome of a fragment of `key`: an answer, after which the reception goes on with this
-- fragment there; and if none is missing any more, the base stands at the end.
pub record Delivered (key : List ℕ) (s : HqcSession) (m : PkChunk) (r : Option Reply) : Type 0 where
  pub reply : Reply
  pub buf' : List ℕ
  pub returns : r ≡ some reply
  pub receives : Receives key buf' reply.session.rx
  pub arrived : get_or reply.session.rx.pke_acked (m.offset / s.rx.mtu) false ≡ true
  pub earlier :
      (i : ℕ)
      → get_or s.rx.pke_acked i false ≡ true
      → get_or reply.session.rx.pke_acked i false ≡ true
  pub same_session : reply.session.rx.session_id ≡ s.rx.session_id
  pub same_mtu : reply.session.rx.mtu ≡ s.rx.mtu
  pub same_len : reply.session.rx.pk_len ≡ s.rx.pk_len
  pub current : IsCurrent reply.session.rx

module _ (c : Platform) {key buf : List ℕ} (s : HqcSession) (v : Receives key buf s.rx)
    (m : PkChunk) (env : PkEnv) (mine : m.session_id ≡ s.rx.session_id)
    (frag : IsFragment key s.rx.mtu m) where
  abbrev stored : Stored key s.rx m (store_fragment s.rx buf m)
  stored = store_fragment-Stored v m frag

  abbrev after : HqcSession
  after = record (note_rx s env.now) { rx = stored.rx' }

  exact_offset : m.offset % s.rx.mtu ≡ 0
  exact_offset = omega (arith, div-add-mod' m.offset s.rx.mtu, frag.aligned)

  handled : handle_hqc_pk_chunk c s m env ≡ some (pk_stored c after env)
  unfolding handle_hqc_pk_chunk pk_checked pk_chunks
  handled = ground (
    arith,
    mine,
    frag.inside,
    frag.full,
    v.whole,
    v.pos_len,
    v.mtu_pos,
    v.buffer,
    exact_offset,
    stored.returns,
    div-lt-chunks_of m.offset s.rx.pk_len s.rx.mtu v.mtu_pos (omega (arith, v.small, v.mtu_small))
        (omega (arith, v.whole, frag.inside)),
  )

  abbrev kept : SameKey (pk_stored c after env).session.rx (moved stored.rx')
  kept = pk_stored-SameKey c after env

  -- Every fragment of the key that belongs to the session is taken: no check refuses it and no
  -- write leaves the buffer. What had come before is still there, the bytes are those of the key,
  -- and once no fragment is missing the base stands at the end of the key.
  pub handle_hqc_pk_chunk-Delivered : Delivered key s m (handle_hqc_pk_chunk c s m env)
  unfolding pk_chunks
  handle_hqc_pk_chunk-Delivered = record {
    reply = pk_stored c after env;
    buf' = stored.buf';
    returns = handled;
    receives = Receives-SameKey kept (Receives-moved stored.receives);
    arrived = rw kept.same_acked stored.arrived;
    earlier = λ i g. rw kept.same_acked (stored.earlier i g);
    same_session = kept.same_session ∙ stored.same_session;
    same_mtu = kept.same_mtu ∙ stored.same_mtu;
    same_len = kept.same_len ∙ stored.same_len;
    current = λ all.
        kept.same_rcvd
        ∙ (moved_complete stored.receives (λ i p.
              ap (λ (f : List Bool). get_or f i false) (sym kept.same_acked)
              ∙ all i (rw (kept.same_len, kept.same_mtu) p))
            ∙ sym kept.same_len);
  }
