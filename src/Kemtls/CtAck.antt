-- ===== src/Kemtls/CtAck.antt =====
-- GCS_KEMTLS.cpp, `GCS_MAVLINK::handle_hqc_ct_ack`: selective acknowledgements of the two
-- ciphertext streams, and what is sent next.
pub mod Marks
pub mod Answer
use pq_key_establishment_mav.Base.{
  ℕ, zero, suc, ◌+◌, ◌-◌, ◌*◌, ◌/◌, ◌%◌, List, [], ◌∷◌, ◌++◌, ◌==◌, if◌then◌else◌, ltb, leb, min,
  max, Bool, true, ◌&&◌, not, Option, none, some, set,
}
use pq_key_establishment_mav.Base.Bytes.{u8}
use pq_key_establishment_mav.Kemtls.Types.{
  HqcRxBuf, HqcSession, HqcState, CtAck, Out, Reply, chunks_of,
}
use pq_key_establishment_mav.Kemtls.Session.{note_rx}
use pq_key_establishment_mav.Kemtls.Stream.{chunk_out, fit_acked, inflight_from, streams_done}

-- The fields of one of the two streams: `kind` 0 is the ephemeral one, any other the static one.
pub record Stream : Type 0 where
  pub ct : Option (List ℕ)
  pub len : ℕ
  pub acked : List Bool
  pub sent : ℕ

unfoldable pub stream : HqcRxBuf → ℕ → Stream
stream rx kind =
    if kind == 0
    then record { ct = rx.cte; len = rx.cte_len; acked = rx.cte_acked; sent = rx.cte_sent }
    else record { ct = rx.cts; len = rx.cts_len; acked = rx.cts_acked; sent = rx.cts_sent }

unfoldable pub put_stream : HqcRxBuf → ℕ → List Bool → ℕ → HqcRxBuf
put_stream rx kind acked sent =
    if kind == 0
    then record rx { cte_acked = acked; cte_sent = sent }
    else record rx { cts_acked = acked; cts_sent = sent }

unfoldable pub put_retry : (ℕ → ℕ) → ℕ → ℕ → ℕ → ℕ
put_retry retries off n j = if j == off then n else retries j

-- for (i = 0; i < min(base_idx, size); i++) acked[i] = 1;
unfoldable pub mark_prefix : ℕ → List Bool → List Bool
mark_prefix zero acked = acked
mark_prefix (suc n) [] = []
mark_prefix (suc n) (b ∷ bs) = true ∷ mark_prefix n bs

-- for (i = 0; i < 32; i++) { if (idx >= chunks) break; if (mask & 1) acked[idx] = 1; mask >>= 1; }
unfoldable pub mark_mask : (rounds idx chunks mask : ℕ) → List Bool → List Bool
mark_mask zero idx chunks mask acked = acked
mark_mask (suc rounds) idx chunks mask acked =
    let on =
      mark_mask rounds (idx + 1) chunks (mask / 2)
        (if mask % 2 == 1 then set acked idx true else acked) in
    if leb chunks idx then acked else on

-- The retry counters of acknowledged fragments are dropped; the list is that of the fragments
-- from number `i` on.
unfoldable pub drop_retries : ℕ → ℕ → List Bool → (ℕ → ℕ) → ℕ → ℕ
unfolding put_retry
drop_retries mtu i [] retries = retries
drop_retries mtu i (b ∷ bs) retries =
    drop_retries mtu (i + 1) bs (if b then put_retry retries (i * mtu) 0 else retries)

-- The variables of the loop that sends.
pub record Sending : Type 0 where
  pub sent : ℕ
  pub retries : ℕ → ℕ
  pub sent_now : ℕ
  pub out : List Out

-- One fragment that is not acknowledged: skipped once its retries are used up, else sent.
unfoldable pub send_one : HqcRxBuf → ℕ → List ℕ → ℕ → ℕ → Sending → Sending
unfolding chunk_out put_retry
send_one rx kind ct len off l =
    let n = min rx.mtu (len - off) in
    let sent = max l.sent (off + n) in
    if ltb off l.sent && leb rx.max_retries (l.retries off) then l else record {
      sent = sent;
      retries =
          if ltb off sent then put_retry l.retries off (u8 (l.retries off + 1)) else l.retries;
      sent_now = l.sent_now + 1;
      out = l.out ++ (chunk_out rx.session_id kind ct off n ∷ []);
    }

-- for (i = 0; i < chunks && sent_now + inflight < window; i++) ..., the list being that of the
-- fragments from number `i` on.
unfoldable pub send_missing : HqcRxBuf → ℕ → List ℕ → ℕ → ℕ → ℕ → List Bool → Sending → Sending
unfolding send_one
send_missing rx kind ct len inflight i [] l = l
send_missing rx kind ct len inflight i (b ∷ bs) l =
    let on =
      send_missing rx kind ct len inflight (i + 1) bs
        (if b then l else send_one rx kind ct len (i * rx.mtu) l) in
    if ltb (l.sent_now + inflight) rx.window then on else l

-- The acknowledgement flags after the message.
unfoldable pub acked_after : ℕ → ℕ → CtAck → List Bool → List Bool
unfolding fit_acked mark_prefix mark_mask
acked_after mtu chunks m acked =
    let base_idx = m.base / mtu in
    mark_mask 32 base_idx chunks m.mask (mark_prefix base_idx (fit_acked acked chunks))

-- The transition at the end: both streams are through.
unfoldable pub finish_streams : HqcSession → HqcSession
unfolding streams_done
finish_streams s =
    if streams_done s.rx
    then record s { state = HqcState.wait_cf; rx = record (s.rx) { retries = λ _. 0 } }
    else s

-- The message against the stream's buffer `ct`, which is not null, up to the last test.
unfoldable pub ct_ack_sent : HqcSession → CtAck → List ℕ → Reply
ct_ack_sent s m ct =
    let rx = s.rx in
    let st = stream rx m.ct_kind in
    let acked = acked_after rx.mtu (chunks_of st.len rx.mtu) m st.acked in
    let retries = drop_retries rx.mtu 0 acked rx.retries in
    let inflight = inflight_from rx.mtu st.sent 0 acked in
    let l =
      send_missing rx m.ct_kind ct st.len inflight 0 acked
        (record { sent = st.sent; retries = retries; sent_now = 0; out = [] }) in
    let rx' = record (put_stream rx m.ct_kind acked l.sent) { retries = l.retries } in
    record { session = record s { rx = rx' }; out = l.out }

unfoldable pub ct_ack_stream : HqcSession → CtAck → List ℕ → Reply
ct_ack_stream s m ct =
    let r = ct_ack_sent s m ct in record { session = finish_streams r.session; out = r.out }

-- A stream that is not there, or empty, has nothing to acknowledge.
unfoldable pub ct_ack_on : HqcSession → CtAck → Option (List ℕ) → Reply
ct_ack_on s m none = record { session = s; out = [] }
ct_ack_on s m (some ct) =
    if (stream s.rx m.ct_kind).len == 0
    then record { session = s; out = [] }
    else ct_ack_stream s m ct

unfoldable pub handle_hqc_ct_ack : HqcSession → CtAck → ℕ → Reply
unfolding note_rx
handle_hqc_ct_ack s0 m now =
    let s = note_rx s0 now in
    if not (m.session_id == s.rx.session_id)
    then record { session = s; out = [] }
    else ct_ack_on s m (stream s.rx m.ct_kind).ct
