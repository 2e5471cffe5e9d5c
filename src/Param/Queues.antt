-- ===== src/Param/Queues.antt =====
-- The two queues of single requests: their bounds, and that requests are answered in order.
use pq_key_establishment_mav.Base.{
  ℕ, ◌≤◌, ◌≡◌, leb, refl, ap, arith, List, [], ◌∷◌, ◌++◌, length, length-append, Bool, Bool-cases,
  Option-cases, inl, inr, none, some,
}
use pq_key_establishment_mav.Param.{
  ParamLibrary, PendingParamRequest, ParamLink, ParamQueues, SendEnv, lookup, reply_to,
  answer_request, io_timer_on, param_io_timer, queued_param_send, handle_param_request_read,
  async_replies,
}
use pq_key_establishment_mav.Param.Download.{async_replies-IsFront}

-- At most 20 requests and 5 replies wait.
pub record IsBounded (q : ParamQueues) : Type 0 where
  pub requests_few : length q.requests ≤ 20
  pub replies_few : length q.replies ≤ 5

-- What reaches the queues: a request, the timer, or a call that sends.
pub data QueueEvent {ℓ} (Cursor : Type ℓ) : Type ℓ where
  on_read : PendingParamRequest → Bool → ℕ → QueueEvent Cursor
  on_timer : QueueEvent Cursor
  on_send : SendEnv → QueueEvent Cursor

grown :
    (l : List PendingParamRequest) (m : PendingParamRequest)
    → length l ≤ 19
    → length (l ++ (m ∷ [])) ≤ 20
grown l m h = omega (arith, length-append l (m ∷ []))

module _ {Cursor : Type 0} (lib : ParamLibrary Cursor) where
  unfoldable pub queue_step :
      QueueEvent Cursor → ParamLink Cursor × ParamQueues → ParamLink Cursor × ParamQueues
  unfolding handle_param_request_read param_io_timer queued_param_send
  queue_step (on_read m room now) (link, q) = handle_param_request_read lib m room now link q
  queue_step on_timer (link, q) = (link, param_io_timer lib q)
  queue_step (on_send env) (link, q) =
      let r = queued_param_send lib env link q in (r.link, r.queues)

  -- What the timer does: nothing while five replies wait or no request does; else the oldest request
  -- leaves, and its reply, if there is such a parameter, becomes the last one.
  pub data IsTimed (q : ParamQueues) : ParamQueues → Type 0 where
    full : 5 ≤ length q.replies → IsTimed q q
    idle : q.requests ≡ [] → IsTimed q q
    unknown :
        (req : PendingParamRequest) (rest : List PendingParamRequest)
        → q.requests ≡ req ∷ rest
        → lookup lib req ≡ none
        → IsTimed q (record q { requests = rest })
    answered :
        (req : PendingParamRequest) (rest : List PendingParamRequest) (p : Cursor)
        → q.requests ≡ req ∷ rest
        → lookup lib req ≡ some p
        → length q.replies ≤ 4
        → IsTimed q (record q { requests = rest; replies = q.replies ++ (reply_to lib req p ∷ []) })

  io_timer_on-IsTimed :
      (q : ParamQueues) (l : List PendingParamRequest)
      → q.requests ≡ l
      → length q.replies ≤ 4
      → IsTimed q (io_timer_on lib q l)
  unfolding io_timer_on answer_request
  io_timer_on-IsTimed q [] e n = idle e
  io_timer_on-IsTimed q (req ∷ rest) e n = elim (Option-cases (lookup lib req)) [
    | inl f ↦ simp (f, answer_request) (unknown req rest e f)
    | inr (p, f) ↦ simp (f, answer_request) (answered req rest p e f n)
  ]

  pub param_io_timer-IsTimed : (q : ParamQueues) → IsTimed q (param_io_timer lib q)
  unfolding param_io_timer
  param_io_timer-IsTimed q = elim (Bool-cases (leb 5 (length q.replies))) [
    | inl e ↦ rw e (full (ground (arith, e)))
    | inr e ↦ rw e (io_timer_on-IsTimed q q.requests refl (ground (arith, e)))
  ]

  timed-IsBounded : (q q' : ParamQueues) → IsTimed q q' → IsBounded q → IsBounded q'
  timed-IsBounded q _ (full n) v = v
  timed-IsBounded q _ (idle e) v = v
  timed-IsBounded q _ (unknown req rest e f) v = record {
    requests_few = omega (arith, rw e at v.requests_few);
    replies_few = v.replies_few;
  }
  timed-IsBounded q _ (answered req rest p e f n) v = record {
    requests_few = omega (arith, rw e at v.requests_few);
    replies_few = omega (arith, n, length-append q.replies (reply_to lib req p ∷ []));
  }

  read-IsBounded :
      (m : PendingParamRequest) (room : Bool) (now : ℕ) (link : ParamLink Cursor) (q : ParamQueues)
      → IsBounded q
      → IsBounded (handle_param_request_read lib m room now link q).1
  unfolding handle_param_request_read
  read-IsBounded m room now link q v = elim (Bool-cases (leb 20 (length q.requests))) [
    | inl e ↦ rw e v
    | inr e ↦ rw e (record {
      requests_few = grown q.requests _ (ground (arith, e));
      replies_few = v.replies_few;
    })
  ]

  -- Whatever requests, timers and sends come in whatever order, at most 20 requests and 5 replies
  -- wait.
  pub queue_step-IsBounded :
      (e : QueueEvent Cursor) (link : ParamLink Cursor) (q : ParamQueues)
      → IsBounded q
      → IsBounded (queue_step e (link, q)).1
  unfolding queue_step queued_param_send
  queue_step-IsBounded (on_read m room now) link q v = read-IsBounded m room now link q v
  queue_step-IsBounded on_timer link q v =
      timed-IsBounded q (param_io_timer lib q) (param_io_timer-IsTimed q) v
  queue_step-IsBounded (on_send env) link q v =
      let f = async_replies-IsFront env 5 0 link.reserve_start q.replies in
      record {
        requests_few = v.requests_few;
        replies_few = omega (
          arith,
          v.replies_few,
          ap length f.in_order,
          length-append (async_replies env 5 0 link.reserve_start q.replies).sent
              (async_replies env 5 0 link.reserve_start q.replies).left,
        );
      }
