-- ===== src/Kemtls/PkChunk.antt =====
-- GCS_KEMTLS.cpp, `GCS_MAVLINK::handle_hqc_pk_chunk`: the fragments of the ephemeral public key are
-- put together; the last one missing starts the encapsulation and the ephemeral stream.
pub mod Store
pub mod Assembly
pub mod Delivery
pub mod Base
pub mod Complete
pub mod Run
use pq_key_establishment_mav.Base.{
  ℕ, zero, suc, ◌+◌, ◌-◌, ◌*◌, ◌/◌, ◌%◌, List, [], ◌∷◌, ◌==◌, if◌then◌else◌, take, ltb, leb, Bool,
  true, false, ◌&&◌, ◌||◌, not, Option, none, some, replicate, get_or, set, set_bit,
}
use pq_key_establishment_mav.Base.Bytes.{write_at}
use pq_key_establishment_mav.Kemtls.Types.{
  Platform, HqcRxBuf, HqcSession, HqcState, PkChunk, Reply, pk_ack, hqc_status, KexStatus,
  kex_bad_len, kex_bad_seq, kex_internal, pk_chunks,
}
use pq_key_establishment_mav.Kemtls.Wire.{th_add_pk_summary, th_add_ct_summary}
use pq_key_establishment_mav.Kemtls.Session.{note_rx, Entropy, start_encap}
use pq_key_establishment_mav.Kemtls.Stream.{send_window}

pub record PkEnv : Type 0 where
  pub now : ℕ
  pub malloc_cte : Option (List ℕ)
  pub entropy : Entropy

-- An answer by HQC_STATUS, and nothing else.
unfoldable pub refuse : HqcSession → ℕ → KexStatus → ℕ → Reply
refuse s value status detail = record {
  session = s;
  out = hqc_status s.rx.session_id value status detail ∷ [];
}

-- while (base_frag < total_frags && acked[base_frag]) base_frag++; with `total - base` rounds.
unfoldable pub advance : List Bool → ℕ → ℕ → ℕ
advance acked zero base = base
advance acked (suc rounds) base =
    let on = advance acked rounds (base + 1) in if get_or acked base false then on else base

-- for (i ...; i < 32; i++) if (base + i < total && acked[base + i]) mask |= (1u << i);
unfoldable pub sack_mask : List Bool → (total base rounds i mask : ℕ) → ℕ
sack_mask acked total base zero i mask = mask
sack_mask acked total base (suc rounds) i mask =
    sack_mask acked total base rounds (i + 1)
      (if ltb (base + i) total && get_or acked (base + i) false then set_bit mask i else mask)

-- The base in bytes, at most the key's length.
unfoldable pub base_bytes : HqcRxBuf → ℕ → ℕ
base_bytes rx base = if ltb rx.pk_len (base * rx.mtu) then rx.pk_len else base * rx.mtu

-- if (pke_acked.empty()) pke_acked.assign(total_frags, 0);
unfoldable pub acked_or_fresh : List Bool → ℕ → List Bool
acked_or_fresh [] total = replicate total false
acked_or_fresh (b ∷ bs) total = b ∷ bs

-- The fragment is stored unless it is a duplicate. `none` is a write past the buffer.
unfoldable pub store_fragment : HqcRxBuf → List ℕ → PkChunk → Option HqcRxBuf
store_fragment rx pke m =
    let acked = acked_or_fresh rx.pke_acked (pk_chunks rx) in
    let i = m.offset / rx.mtu in
    if get_or acked i false
    then some (record rx { pke_acked = acked })
    else elim (write_at pke m.offset (take m.count m.payload)) as (λ _. Option HqcRxBuf) [
      | none ↦ none
      | some pke' ↦ some (record rx { pke = some pke'; pke_acked = set acked i true })
    ]

-- The base after a fragment, in fragments.
unfoldable pub next_base : HqcRxBuf → ℕ
unfolding advance pk_chunks
next_base rx = let base = rx.pke_rcvd / rx.mtu in advance rx.pke_acked (pk_chunks rx - base) base

unfoldable pub hash_cte : Platform → HqcSession → List ℕ → List ℕ
hash_cte c s th = elim s.rx.cte [
  | none ↦ th
  | some cte ↦
      if s.rx.cte_len == 0
      then th
      else th_add_ct_summary c th s.rx.session_id 0 s.rx.cte_len (c.sha256 (take s.rx.cte_len cte))
]

unfoldable pub cte_bytes : HqcRxBuf → List ℕ
cte_bytes rx = elim rx.cte [ none ↦ [] | some cte ↦ cte ]

-- After a successful encapsulation: the transcript and the first window.
unfoldable pub pk_encapsulated : Platform → HqcSession → Reply
unfolding hash_cte cte_bytes send_window
pk_encapsulated c s =
    let sent = send_window s.rx.session_id 0 (cte_bytes s.rx) s.rx.mtu s.rx.cte_len s.rx.window 0 in
    record {
      session = record s {
        th = hash_cte c s s.th;
        rx = record (s.rx) { cte_sent = sent.1 };
        state = HqcState.ct_tx;
      };
      out = sent.0;
    }

unfoldable pub is_encap_done : HqcState → Bool
is_encap_done HqcState.encap_done = true
is_encap_done _ = false

-- The whole key is there; `pke` is its buffer.
unfoldable pub pk_complete : Platform → HqcSession → PkEnv → List ℕ → Reply
unfolding pk_encapsulated is_encap_done start_encap
pk_complete c s env pke =
    let th =
      th_add_pk_summary c s.th s.rx.session_id s.rx.pk_len (c.sha256 (take s.rx.pk_len pke)) in
    let s' =
      start_encap c (record s { th = th; state = HqcState.encap_ready }) env.malloc_cte
        env.entropy in
    if is_encap_done s'.state then pk_encapsulated c s' else record { session = s'; out = [] }

unfoldable pub pk_end : Platform → HqcSession → PkEnv → Option (List ℕ) → Reply
pk_end c s env none = record { session = s; out = [] }
pk_end c s env (some pke) = pk_complete c s env pke

-- From the advance of the base on.
unfoldable pub pk_stored : Platform → HqcSession → PkEnv → Reply
pk_stored c s env =
    let base = next_base s.rx in
    let rcvd = base_bytes s.rx base in
    let mask = sack_mask s.rx.pke_acked (pk_chunks s.rx) base 32 0 0 in
    let s' = record s { rx = record (s.rx) { pke_rcvd = rcvd } } in
    let ack = pk_ack s.rx.session_id rcvd mask in
    let r = pk_end c s' env s.rx.pke in
    if leb s.rx.pk_len rcvd
    then record { session = r.session; out = ack ∷ r.out }
    else record { session = s'; out = ack ∷ [] }

-- The checks of a fragment against the buffer `pke`, in order.
unfoldable pub pk_checked : Platform → HqcSession → PkChunk → PkEnv → List ℕ → Option Reply
unfolding refuse
pk_checked c s m env pke =
    if m.count == 0 || ltb s.rx.mtu m.count
    then some (refuse s m.count kex_bad_len 2)
    else if ltb s.rx.pk_len m.offset || ltb s.rx.pk_len (m.offset + m.count)
    then some (refuse s m.offset kex_bad_len 3)
    else if not (m.offset % s.rx.mtu == 0) && not (m.offset + m.count == s.rx.pk_len)
    then some (refuse s m.offset kex_bad_seq 4)
    else if leb (pk_chunks s.rx) (m.offset / s.rx.mtu)
    then some (refuse s (m.offset / s.rx.mtu) kex_bad_seq 5)
    else elim (store_fragment s.rx pke m) as (λ _. Option Reply) [
      | none ↦ none
      | some rx ↦ some (pk_stored c (record s { rx = rx }) env)
    ]

unfoldable pub handle_hqc_pk_chunk : Platform → HqcSession → PkChunk → PkEnv → Option Reply
unfolding note_rx refuse
handle_hqc_pk_chunk c s0 m env =
    let s = note_rx s0 env.now in
    if not (m.session_id == s.rx.session_id)
    then some (refuse s 0 kex_bad_seq 1)
    else if s.rx.pk_len == 0
    then some (refuse s 0 kex_internal 10)
    else elim s.rx.pke as (λ _. Option Reply) [
      | none ↦ some (refuse s 0 kex_internal 10)
      | some pke ↦ pk_checked c s m env pke
    ]
