-- ===== src/Kemtls/CtAck/Answer.antt =====
-- What an acknowledgement is answered with, and the transition it makes.
use pq_key_establishment_mav.Base.{
  ℕ, ◌+◌, ◌-◌, ◌*◌, ◌^◌, ◌≤◌, ◌<◌, ◌≡◌, ◌⊎◌, ◌≢◌, refl, ◌∙◌, List, [], ◌∷◌, ◌++◌, arith, length,
  length-append, min, ltb, leb, ◌==◌, if◌then◌else◌, Bool, true, false, ◌&&◌, Bool-cases, ltb→lt,
  inl, inr, Option, none, some,
}
use pq_key_establishment_mav.Kemtls.Types.{HqcRxBuf, HqcSession, HqcState, CtAck, Out, chunks_of}
use pq_key_establishment_mav.Kemtls.Session.{note_rx}
use pq_key_establishment_mav.Kemtls.Stream.{streams_done, inflight_from, chunk_out}
use pq_key_establishment_mav.Kemtls.Stream.Chunks.{chunks_of_iff}
use pq_key_establishment_mav.Kemtls.Stream.Window.{AllChunks, chunk_out-IsChunk}
use pq_key_establishment_mav.Kemtls.CtAck.{
  Stream, stream, Sending, send_one, send_missing, acked_after, drop_retries, finish_streams,
  ct_ack_sent, ct_ack_stream, ct_ack_on, handle_hqc_ct_ack,
}
use pq_key_establishment_mav.Kemtls.CtAck.Marks.{length-acked_after}

pub AllChunks-append :
    (sid kind mtu len : ℕ) (xs ys : List Out)
    → AllChunks sid kind mtu len xs
    → AllChunks sid kind mtu len ys
    → AllChunks sid kind mtu len (xs ++ ys)
AllChunks-append sid kind mtu len [] ys p q = q
AllChunks-append sid kind mtu len (x ∷ xs) ys p q =
    (p.0, AllChunks-append sid kind mtu len xs ys p.1 q)

-- The loop's variables: the messages counted, inside the stream, and within the window.
record IsSending (rx : HqcRxBuf) (kind len inflight : ℕ) (l : Sending) : Type 0 where
  counted : length l.out ≡ l.sent_now
  in_range : AllChunks rx.session_id kind rx.mtu len l.out
  windowed : (l.sent_now ≡ 0) ⊎ (l.sent_now + inflight ≤ rx.window)

module _ (rx : HqcRxBuf) (kind : ℕ) (ct : List ℕ) (len inflight : ℕ) (pos : 0 < rx.mtu)
    (field : rx.mtu ≤ 220) (fits : len ≤ length ct) where
  send_one-IsSending :
      (off : ℕ) (l : Sending)
      → off < len
      → l.sent_now + inflight < rx.window
      → IsSending rx kind len inflight l
      → IsSending rx kind len inflight (send_one rx kind ct len off l)
  unfolding send_one
  send_one-IsSending off l below room h =
      elim (Bool-cases (ltb off l.sent && leb rx.max_retries (l.retries off))) [
        | inl e ↦ rw e h
        | inr e ↦
            let o : Out = chunk_out rx.session_id kind ct off (min rx.mtu (len - off)) in
            rw e (record {
              counted = omega (arith, length-append l.out (o ∷ []), h.counted);
              in_range =
                  AllChunks-append rx.session_id kind rx.mtu len l.out (o ∷ []) h.in_range (
                    chunk_out-IsChunk rx.session_id kind ct rx.mtu len pos field fits off below,
                    tt,
                  );
              windowed = inr (omega arith);
            })
      ]

  send_missing-IsSending :
      (i : ℕ) (acked : List Bool) (l : Sending)
      → len + rx.mtu ≤ 2 ^ 32
      → i + length acked ≡ chunks_of len rx.mtu
      → IsSending rx kind len inflight l
      → IsSending rx kind len inflight (send_missing rx kind ct len inflight i acked l)
  unfolding send_missing
  send_missing-IsSending i [] l big n h = h
  send_missing-IsSending i (b ∷ bs) l big n h =
      elim (Bool-cases (ltb (l.sent_now + inflight) rx.window)) [
        | inr e ↦ rw e h
        | inl e ↦ rw e (
            send_missing-IsSending (i + 1) bs
              (if b then l else send_one rx kind ct len (i * rx.mtu) l) big (omega arith)
              (step b (ltb→lt _ _ e)))
      ]
    where
      step :
          (b : Bool)
          → l.sent_now + inflight < rx.window
          → IsSending rx kind len inflight (if b then l else send_one rx kind ct len (i * rx.mtu) l)
      step true room = h
      step false room =
          send_one-IsSending (i * rx.mtu) l ((chunks_of_iff len rx.mtu i pos big).0 (omega arith))
            room h

finish_streams-state :
    (s : HqcSession)
    → (finish_streams s).state ≢ s.state
    → ((finish_streams s).state ≡ HqcState.wait_cf) × (streams_done (finish_streams s).rx ≡ true)
unfolding finish_streams
finish_streams-state s n = elim (Bool-cases (streams_done s.rx)) [
  | inl d ↦ rw d (refl, d)
  | inr d ↦ absurd (rw d at n refl)
]

-- The stream that an acknowledgement names lies in its buffer, and its offsets do not wrap.
pub record IsSound (rx : HqcRxBuf) (kind : ℕ) : Type 0 where
  pub mtu_pos : 0 < rx.mtu
  pub mtu_small : rx.mtu ≤ 220
  pub no_wrap : (stream rx kind).len + rx.mtu ≤ 2 ^ 32
  pub buffer : (ct : List ℕ) → (stream rx kind).ct ≡ some ct → (stream rx kind).len ≤ length ct

-- An answer that stays in the stream's buffer and within the window.
pub record IsAnswer (rx : HqcRxBuf) (kind : ℕ) (out : List Out) : Type 0 where
  pub in_range : AllChunks rx.session_id kind rx.mtu (stream rx kind).len out
  pub windowed : length out ≤ rx.window

module _ (s : HqcSession) (m : CtAck) where
  ct_ack_stream-IsAnswer :
      (ct : List ℕ)
      → IsSound s.rx m.ct_kind
      → (stream s.rx m.ct_kind).ct ≡ some ct
      → IsAnswer s.rx m.ct_kind (ct_ack_stream s m ct).out
  unfolding ct_ack_stream ct_ack_sent
  ct_ack_stream-IsAnswer ct v e = record {
    in_range = sent.in_range;
    windowed = ground (arith, sent);
  }
    where
      st : Stream
      st = stream s.rx m.ct_kind

      acked : List Bool
      acked = acked_after s.rx.mtu (chunks_of st.len s.rx.mtu) m st.acked

      inflight : ℕ
      inflight = inflight_from s.rx.mtu st.sent 0 acked

      start : Sending
      start = record {
        sent = st.sent;
        retries = drop_retries s.rx.mtu 0 acked s.rx.retries;
        sent_now = 0;
        out = [];
      }

      sent :
          IsSending s.rx m.ct_kind st.len inflight
            (send_missing s.rx m.ct_kind ct st.len inflight 0 acked start)
      sent =
          send_missing-IsSending s.rx m.ct_kind ct st.len inflight v.mtu_pos v.mtu_small
            (v.buffer ct e) 0 acked start v.no_wrap
            (omega (arith, length-acked_after s.rx.mtu (chunks_of st.len s.rx.mtu) m st.acked))
            (record { counted = refl; in_range = tt; windowed = inl refl })

  ct_ack_on-IsAnswer :
      (ct : Option (List ℕ))
      → IsSound s.rx m.ct_kind
      → (stream s.rx m.ct_kind).ct ≡ ct
      → IsAnswer s.rx m.ct_kind (ct_ack_on s m ct).out
  unfolding ct_ack_on
  ct_ack_on-IsAnswer none v e = record { in_range = tt; windowed = omega arith }
  ct_ack_on-IsAnswer (some ct) v e = elim (Bool-cases ((stream s.rx m.ct_kind).len == 0)) [
    | inl z ↦ rw z (record { in_range = tt; windowed = omega arith })
    | inr z ↦ rw z (ct_ack_stream-IsAnswer ct v e)
  ]

  ct_ack_sent-state : (ct : List ℕ) → (ct_ack_sent s m ct).session.state ≡ s.state
  unfolding ct_ack_sent
  ct_ack_sent-state ct = refl

  ct_ack_on-state :
      (ct : Option (List ℕ))
      → (ct_ack_on s m ct).session.state ≢ s.state
      → ((ct_ack_on s m ct).session.state ≡ HqcState.wait_cf)
        × (streams_done (ct_ack_on s m ct).session.rx ≡ true)
  unfolding ct_ack_on ct_ack_stream
  ct_ack_on-state none n = absurd (n refl)
  ct_ack_on-state (some ct) n = elim (Bool-cases ((stream s.rx m.ct_kind).len == 0)) [
    | inl z ↦ absurd (n (rw z refl))
    | inr z ↦ rw z (
        finish_streams-state (ct_ack_sent s m ct).session
          (λ e. n (rw z (e ∙ ct_ack_sent-state ct))))
  ]

module _ (s : HqcSession) (m : CtAck) (now : ℕ) where
  -- While a stream's length is that of its buffer at most, mtu is between 1 and 220, and length and
  -- mtu add up to at most 2 ^ 32, all that an acknowledgement of it is answered with are fragments of it inside its length, at most
  -- `window` of them.
  pub handle_hqc_ct_ack-IsAnswer :
      IsSound s.rx m.ct_kind → IsAnswer s.rx m.ct_kind (handle_hqc_ct_ack s m now).out
  unfolding handle_hqc_ct_ack
  handle_hqc_ct_ack-IsAnswer v = elim (Bool-cases (m.session_id == s.rx.session_id)) [
    | inr n ↦ rw n (record { in_range = tt; windowed = omega arith })
    | inl e ↦ rw e (ct_ack_on-IsAnswer (note_rx s now) m (stream s.rx m.ct_kind).ct v refl)
  ]

  -- If an acknowledgement changes the state, the new state is WAIT_CF and both streams are through.
  handle_hqc_ct_ack-state :
      (handle_hqc_ct_ack s m now).session.state ≢ s.state
      → ((handle_hqc_ct_ack s m now).session.state ≡ HqcState.wait_cf)
        × (streams_done (handle_hqc_ct_ack s m now).session.rx ≡ true)
  unfolding handle_hqc_ct_ack
  handle_hqc_ct_ack-state n = elim (Bool-cases (m.session_id == s.rx.session_id)) [
    | inr z ↦ absurd (n (rw z refl))
    | inl z ↦ rw z (ct_ack_on-state (note_rx s now) m (stream s.rx m.ct_kind).ct (λ e. n (rw z e)))
  ]
