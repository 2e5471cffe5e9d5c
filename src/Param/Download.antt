-- ===== src/Param/Download.antt =====
-- The download sends the parameters of the library in its order, each once.
use mathlib.Core.List.{append_assoc}
use pq_key_establishment_mav.Base.{
  ℕ, zero, suc, ◌+◌, ◌-◌, ◌≤◌, ◌<◌, ◌≡◌, ◌⊎◌, ◌==◌, if◌then◌else◌, leb, length, refl, sym, ◌∙◌, ap,
  arith, List, [], ◌∷◌, ◌++◌, true, false, not, Bool-cases, inl, inr, Option, none, some,
}
use pq_key_establishment_mav.Base.Bytes.{u16}
use pq_key_establishment_mav.Param.{
  ParamLibrary, ParamValue, ParamLink, ParamQueues, SendEnv, Async, async_replies, param_budget,
  value_message, stream_params, handle_param_request_list, Sent, send_stream, is_queued,
  queued_param_send,
}

module _ {Cursor : Type 0} (lib : ParamLibrary Cursor) (chan count : ℕ) where
  -- The messages for the parameters from a cursor on, the last one included.
  pub data Listing : Option Cursor → ℕ → List ParamValue → Type 0 where
    complete : (index : ℕ) → Listing none index []
    parameter :
        (p : Cursor) (index : ℕ) (ms : List ParamValue)
        → Listing (lib.next_scalar p) (u16 (index + 1)) ms
        → Listing (some p) index (value_message lib chan count p index ∷ ms)

  -- What was sent is the next part of the listing, and the cursor stands at the rest.
  pub record IsPart (p : Option Cursor) (index : ℕ) (ms : List ParamValue)
      (r : List ParamValue × Option Cursor × ℕ) : Type 0 where
    pub rest : List ParamValue
    pub split : ms ≡ r.0 ++ rest
    pub goes_on : Listing r.1 r.2 rest

  pub stream_params-IsPart :
      (env : SendEnv) (rounds i : ℕ) (p : Option Cursor) (index : ℕ) (ms : List ParamValue)
      → Listing p index ms
      → IsPart p index ms (stream_params lib env chan count rounds i p index)
  unfolding stream_params
  stream_params-IsPart env zero i p index ms v = record { rest = ms; split = refl; goes_on = v }
  stream_params-IsPart env (suc rounds) i _ _ _ (complete index) = record {
    rest = [];
    split = refl;
    goes_on = complete index;
  }
  stream_params-IsPart env (suc rounds) i _ _ _ (parameter p index ms v) =
      elim (Bool-cases (not (env.txbuf_ok i))) [
        | inl e ↦ rw e (record { rest = _; split = refl; goes_on = parameter p index ms v })
        | inr e ↦ rw e (elim (Bool-cases (env.slow i)) [
          | inl f ↦ rw f (record { rest = ms; split = refl; goes_on = v })
          | inr f ↦
              let k =
                stream_params-IsPart env rounds (i + 1) (lib.next_scalar p) (u16 (index + 1)) ms
                  v in
              rw f (record {
                rest = k.rest;
                split =
                    ap (λ (t : List ParamValue). value_message lib chan count p index ∷ t) k.split;
                goes_on = k.goes_on;
              })
        ])
      ]

  pub length-stream_params :
      (env : SendEnv) (rounds i : ℕ) (p : Option Cursor) (index : ℕ)
      → length (stream_params lib env chan count rounds i p index).0 ≤ rounds
  unfolding stream_params
  length-stream_params env zero i p index = omega arith
  length-stream_params env (suc rounds) i none index = omega arith
  length-stream_params env (suc rounds) i (some p) index =
      elim (Bool-cases (not (env.txbuf_ok i))) [
        | inl e ↦ rw e (omega arith)
        | inr e ↦ rw e (elim (Bool-cases (env.slow i)) [
          | inl f ↦ rw f (omega arith)
          | inr f ↦ rw f (
              omega (
                arith,
                length-stream_params env rounds (i + 1) (lib.next_scalar p) (u16 (index + 1)),
              ))
        ])
      ]

-- The replies listing_cases out from the front of their queue, five at most.
pub record IsFront (replies : List ParamValue) (rounds : ℕ) (a : Async) : Type 0 where
  pub in_order : a.sent ++ a.left ≡ replies
  pub at_most : length a.sent ≤ rounds

pub async_replies-IsFront :
    (env : SendEnv) (rounds i reserve : ℕ) (replies : List ParamValue)
    → IsFront replies rounds (async_replies env rounds i reserve replies)
unfolding async_replies
async_replies-IsFront env zero i reserve replies = record { in_order = refl; at_most = omega arith }
async_replies-IsFront env (suc rounds) i reserve [] = record {
  in_order = refl;
  at_most = omega arith;
}
async_replies-IsFront env (suc rounds) i reserve (q ∷ qs) =
    let k = async_replies-IsFront env rounds (i + 1) reserve qs in
    elim (Bool-cases (env.reply_room i)) [
      | inl e ↦ rw e (record {
        in_order = ap (λ (t : List ParamValue). q ∷ t) k.in_order;
        at_most = omega (arith, k.at_most);
      })
      | inr e ↦ rw e (record { in_order = refl; at_most = omega arith })
    ]

-- A link whose download still has these messages to send.
pub record IsSending {Cursor : Type 0} (lib : ParamLibrary Cursor) (link : ParamLink Cursor)
    (ms : List ParamValue) : Type 0 where
  pub listing : Listing lib link.chan link.count link.queued link.index ms

-- What a call sends: replies from the front of the queue and the next part of the download; and
-- without flow control five messages of the download and of the replies together at most.
pub record IsSent {Cursor : Type 0} (lib : ParamLibrary Cursor) (env : SendEnv) (q : ParamQueues)
    (ms : List ParamValue) (r : Sent lib) : Type 0 where
  pub rest : List ParamValue
  pub split : ms ≡ r.streamed ++ rest
  pub goes_on : IsSending lib r.link rest
  pub in_order : r.answers ++ r.queues.replies ≡ q.replies
  pub answers_few : length r.answers ≤ 5
  pub sent_few : env.flow_control ≡ false → length r.answers + length r.streamed ≤ 5

param_budget-few :
    (env : SendEnv) (since : ℕ) → env.flow_control ≡ false → param_budget env since ≤ 5
unfolding param_budget
param_budget-few env since e = ground arith

module _ {Cursor : Type 0} (lib : ParamLibrary Cursor) where
  send_stream-IsPart :
      (env : SendEnv) (link : ParamLink Cursor) (since answered : ℕ) (ms : List ParamValue)
      → IsSending lib link ms
      → (rest : List ParamValue) × (ms ≡ (send_stream lib env link since answered).1 ++ rest)
        × IsSending lib (send_stream lib env link since answered).0 rest
        × (env.flow_control ≡ false
            → answered ≤ 5
            → answered + length (send_stream lib env link since answered).1 ≤ 5)
  unfolding send_stream
  send_stream-IsPart env link since answered ms v =
      let count = param_budget env since in
      let p =
        stream_params-IsPart lib link.chan link.count env (count - answered) 0 link.queued
          link.index ms v.listing in
      let n =
        length-stream_params lib link.chan link.count env (count - answered) 0 link.queued
          link.index in
      elim (Bool-cases (leb count answered)) [
        | inl e ↦ rw e (ms, refl, record { listing = v.listing }, λ f h. omega (arith, h))
        | inr e ↦ rw e (
          p.rest,
          p.split,
          record { listing = p.goes_on },
          λ f h. ground (arith, n, param_budget-few env since f),
        )
      ]

  pub queued_param_send-IsSent :
      (env : SendEnv) (link : ParamLink Cursor) (q : ParamQueues) (ms : List ParamValue)
      → IsSending lib link ms
      → IsSent lib env q ms (queued_param_send lib env link q)
  unfolding queued_param_send
  queued_param_send-IsSent env link q ms v =
      let a = async_replies env 5 0 link.reserve_start q.replies in
      let front = async_replies-IsFront env 5 0 link.reserve_start q.replies in
      let since : ℕ = if length a.sent == 0 then link.send_time else env.now in
      let reserved : ParamLink Cursor = record link { reserve_start = a.reserve_start } in
      let (rest, e, w, few) =
        send_stream-IsPart env reserved since (length a.sent) ms (record { listing = v.listing }) in
      elim (Bool-cases (is_queued link.queued)) [
        | inl k ↦ rw k (record {
          rest = rest;
          split = e;
          goes_on = w;
          in_order = front.in_order;
          answers_few = front.at_most;
          sent_few = λ f. few f front.at_most;
        })
        | inr k ↦ rw k (record {
          rest = ms;
          split = refl;
          goes_on = record { listing = v.listing };
          in_order = front.in_order;
          answers_few = front.at_most;
          sent_few = λ f. omega (arith, front.at_most);
        })
      ]

  -- The calls of a download, each with the queues that it finds: the link and all that was sent.
  unfoldable pub download :
      ParamLink Cursor → List (SendEnv × ParamQueues) → ParamLink Cursor × List ParamValue
  download link [] = (link, [])
  download link ((env, q) ∷ es) =
      let r = queued_param_send lib env link q in
      let on = download r.link es in (on.0, r.streamed ++ on.1)

  download-IsPart :
      (link : ParamLink Cursor) (es : List (SendEnv × ParamQueues)) (ms : List ParamValue)
      → IsSending lib link ms
      → (rest : List ParamValue) × (ms ≡ (download link es).1 ++ rest)
        × IsSending lib (download link es).0 rest
  unfolding download
  download-IsPart link [] ms v = (ms, refl, v)
  download-IsPart link ((env, q) ∷ es) ms v =
      let s = queued_param_send-IsSent env link q ms v in
      let r = queued_param_send lib env link q in
      let (rest, e, w) = download-IsPart r.link es s.rest s.goes_on in
      (
        rest,
        s.split
            ∙ (ap (λ (t : List ParamValue). r.streamed ++ t) e
                ∙ sym (append_assoc r.streamed (download r.link es).1 rest)),
        w,
      )

  nothing_left :
      (link : ParamLink Cursor) (ms : List ParamValue)
      → IsSending lib link ms
      → ((link.queued ≡ none) × (ms ≡ []))
        ⊎ ((p : Cursor) × (link.queued ≡ some p) × (0 < length ms))
  nothing_left link ms v = listing_cases link.queued link.index ms v.listing
    where
      listing_cases :
          (p : Option Cursor) (index : ℕ) (ms : List ParamValue)
          → Listing lib link.chan link.count p index ms
          → ((p ≡ none) × (ms ≡ [])) ⊎ ((c : Cursor) × (p ≡ some c) × (0 < length ms))
      listing_cases _ _ _ (complete index) = inl (refl, refl)
      listing_cases _ _ _ (parameter p index ms v) = inr (p, refl, omega arith)

  -- What a request for all parameters starts, over any number of calls of `queued_param_send`,
  -- whatever the link allows in each of them and whatever single replies listing_cases out between: if going
  -- through the library ends, the messages sent for it are at every moment a first part of the
  -- listing of the library, in its order and with the indices counted from 0; and either no
  -- parameter is queued and they are all of it, or one is queued and some are still to be sent.
  pub download_whole :
      (link : ParamLink Cursor) (now : ℕ) (es : List (SendEnv × ParamQueues)) (ms : List ParamValue)
      → Listing lib link.chan lib.count_parameters lib.first 0 ms
      → (rest : List ParamValue) × (ms
          ≡ (download (handle_param_request_list lib true now link) es).1 ++ rest)
        × ((((download (handle_param_request_list lib true now link) es).0.queued ≡ none)
              × (rest ≡ []))
            ⊎ ((p : Cursor) × ((download (handle_param_request_list lib true now link) es).0.queued
                  ≡ some p)
                × (0 < length rest)))
  unfolding handle_param_request_list
  download_whole link now es ms v =
      let start : ParamLink Cursor = handle_param_request_list lib true now link in
      let (rest, e, w) = download-IsPart start es ms (record { listing = v }) in
      (rest, e, nothing_left (download start es).0 rest w)
