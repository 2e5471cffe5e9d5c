-- ===== src/Kemtls/Run/Streams.antt =====
-- Acknowledgements keep a session valid, and what transitions they make.
use pq_key_establishment_mav.Base.{
  ℕ, ◌+◌, ◌*◌, ◌^◌, ◌≤◌, ◌<◌, ◌≡◌, ◌==◌, if◌then◌else◌, refl, sym, ◌∙◌, arith, List, [], ◌∷◌,
  length, ltb, leb, ◌&&◌, Bool, true, false, Bool-cases, inl, inr, Option, none, some, none-some,
}
use pq_key_establishment_mav.Kemtls.Types.{
  Platform, IsPlatform, HqcRxBuf, HqcSession, HqcState, CtAck, chunks_of,
}
use pq_key_establishment_mav.Kemtls.Session.{note_rx}
use pq_key_establishment_mav.Kemtls.Stream.{streams_done, inflight_from}
use pq_key_establishment_mav.Kemtls.Stream.Chunks.{chunks_of_iff}
use pq_key_establishment_mav.Kemtls.CtAck.{
  stream, Sending, send_one, send_missing, acked_after, finish_streams, ct_ack_sent, ct_ack_stream,
  ct_ack_on, handle_hqc_ct_ack,
}
use pq_key_establishment_mav.Kemtls.CtAck.Marks.{length-acked_after}
use pq_key_establishment_mav.Kemtls.Run.{on_ct_ack}
use pq_key_establishment_mav.Kemtls.Run.Valid.{
  IsHeld, IsValid, IsPhase, under_way, resting, IsOpen, IsNext, Fits-stream, put_stream-IsHeld,
}

module _ (rx : HqcRxBuf) (kind : ℕ) (ct : List ℕ) (len inflight : ℕ) (pos : 0 < rx.mtu)
    (big : len + rx.mtu ≤ 2 ^ 32) where
  send_one-sent :
      (off : ℕ) (l : Sending)
      → off < len
      → l.sent ≤ len
      → (send_one rx kind ct len off l).sent ≤ len
  unfolding send_one
  send_one-sent off l below h =
      elim (Bool-cases (ltb off l.sent && leb rx.max_retries (l.retries off))) [
        | inl e ↦ rw e h
        | inr e ↦ rw e (omega arith)
      ]

  -- The loop that sends leaves the cursor within the stream.
  send_missing-sent :
      (i : ℕ) (acked : List Bool) (l : Sending)
      → i + length acked ≡ chunks_of len rx.mtu
      → l.sent ≤ len
      → (send_missing rx kind ct len inflight i acked l).sent ≤ len
  unfolding send_missing
  send_missing-sent i [] l n h = h
  send_missing-sent i (b ∷ bs) l n h = elim (Bool-cases (ltb (l.sent_now + inflight) rx.window)) [
    | inr e ↦ rw e h
    | inl e ↦ rw e (
        send_missing-sent (i + 1) bs (if b then l else send_one rx kind ct len (i * rx.mtu) l)
          (omega arith) (one b))
  ]
    where
      one : (b : Bool) → (if b then l else send_one rx kind ct len (i * rx.mtu) l).sent ≤ len
      one true = h
      one false =
          send_one-sent (i * rx.mtu) l ((chunks_of_iff len rx.mtu i pos big).0 (omega arith)) h

-- Limits that the stream lemmas ask for.
pub stream_bounds :
    (c : Platform) (ok : IsPlatform c) (rx : HqcRxBuf) (kind : ℕ)
    → IsHeld c rx
    → (0 < rx.mtu) × (rx.mtu ≤ 220) × ((stream rx kind).len + rx.mtu ≤ 2 ^ 32)
stream_bounds c ok rx kind v =
    let f = Fits-stream c rx kind v in
    (
      omega (arith, v.key.mtu_is),
      omega (arith, v.key.mtu_is),
      omega (arith, v.key.mtu_is, f.len_le, ok.ct_small),
    )

pub retries-IsHeld :
    (c : Platform) (rx : HqcRxBuf) (r : ℕ → ℕ) → IsHeld c rx → IsHeld c (record rx { retries = r })
retries-IsHeld c rx r v = record { key = v.key; eph = v.eph; sta = v.sta }

-- Where a ciphertext is there, a handshake is under way.
pub IsOpen-stream :
    {st : HqcState} {rx : HqcRxBuf} {b : List ℕ} (kind : ℕ)
    → IsPhase st rx
    → (stream rx kind).ct ≡ some b
    → IsOpen st
unfolding stream
IsOpen-stream kind (under_way o) e = o
IsOpen-stream kind (resting r z) e = elim (Bool-cases (kind == 0)) [
  | inl f ↦ absurd (none-some (sym z.no_cte ∙ rw f at e))
  | inr f ↦ absurd (none-some (sym z.no_cts ∙ rw f at e))
]

module _ (c : Platform) (ok : IsPlatform c) where
  ct_ack_sent-IsHeld :
      (s : HqcSession) (m : CtAck) (ct : List ℕ)
      → IsHeld c s.rx
      → IsHeld c (ct_ack_sent s m ct).session.rx
  unfolding ct_ack_sent
  ct_ack_sent-IsHeld s m ct v =
      let st = stream s.rx m.ct_kind in
      let acked = acked_after s.rx.mtu (chunks_of st.len s.rx.mtu) m st.acked in
      let lim = stream_bounds c ok s.rx m.ct_kind v in
      retries-IsHeld c _ _ (
        put_stream-IsHeld c s.rx m.ct_kind acked _ v (
          send_missing-sent s.rx m.ct_kind ct st.len (inflight_from s.rx.mtu st.sent 0 acked) lim.0
            lim.2 0 acked _
            (omega (arith, length-acked_after s.rx.mtu (chunks_of st.len s.rx.mtu) m st.acked))
            (Fits-stream c s.rx m.ct_kind v).sent_le))

  ct_ack_stream-IsNext :
      (s : HqcSession) (m : CtAck) (now : ℕ) (ct : List ℕ)
      → IsHeld c s.rx
      → IsOpen s.state
      → IsNext c (on_ct_ack m now) s (ct_ack_stream s m ct).session
  unfolding ct_ack_stream finish_streams
  ct_ack_stream-IsNext s m now ct v o =
      let w = ct_ack_sent-IsHeld s m ct v in
      elim (Bool-cases (streams_done (ct_ack_sent s m ct).session.rx)) [
        | inl e ↦ simp (e) (record {
          valid = record { held = retries-IsHeld c _ _ w; phase = under_way IsOpen.waiting };
          move = inr (o, refl);
        })
        | inr e ↦ simp (e) (record {
          valid = record { held = w; phase = under_way (unfold ct_ack_sent in o) };
          move = inl (unfold ct_ack_sent in refl);
        })
      ]

  ct_ack_on-IsNext :
      (s : HqcSession) (m : CtAck) (now : ℕ) (ct : Option (List ℕ))
      → IsValid c s
      → (stream s.rx m.ct_kind).ct ≡ ct
      → IsNext c (on_ct_ack m now) s (ct_ack_on s m ct).session
  unfolding ct_ack_on
  ct_ack_on-IsNext s m now none v e = record { valid = v; move = inl refl }
  ct_ack_on-IsNext s m now (some ct) v e = elim (Bool-cases ((stream s.rx m.ct_kind).len == 0)) [
    | inl z ↦ rw z (record { valid = v; move = inl refl })
    | inr z ↦ rw z (ct_ack_stream-IsNext s m now ct v.held (IsOpen-stream m.ct_kind v.phase e))
  ]

  pub handle_hqc_ct_ack-IsNext :
      (s : HqcSession) (m : CtAck) (now : ℕ)
      → IsValid c s
      → IsNext c (on_ct_ack m now) s (handle_hqc_ct_ack s m now).session
  unfolding handle_hqc_ct_ack note_rx
  handle_hqc_ct_ack-IsNext s m now v =
      let v' : IsValid c (record s { t_last_rx = now }) = record {
        held = v.held;
        phase = v.phase;
      } in
      elim (Bool-cases (m.session_id == s.rx.session_id)) [
        | inr n ↦ rw n (record { valid = v'; move = inl refl })
        | inl e ↦ rw e (
            let n = ct_ack_on-IsNext (note_rx s now) m now (stream s.rx m.ct_kind).ct v' refl in
            record { valid = n.valid; move = n.move })
      ]
