-- ===== src/Ftp/Worker/Senders.antt =====
-- To whom the worker sends, and that every request is heard.
use pq_key_establishment_mav.Base.{
  ℕ, ◌+◌, ◌<◌, ◌≡◌, ◌⊎◌, ◌==◌, refl, arith, List, [], ◌∷◌, ◌++◌, length, length-append,
  length-replicate, Bool, true, false, Bool-cases, inl, inr, Option, none, some,
}
use pq_key_establishment_mav.Ftp.{
  Transaction, Session, Claim, found, claimed, rejected, setup_reply, error,
}
use pq_key_establishment_mav.Ftp.Request.{FileEnv, Handled, ack, handle_request}
use pq_key_establishment_mav.Ftp.Request.Replies.{
  IsDraft, IsReply, AllReplies, error-IsReply, ack-IsReply,
}
use pq_key_establishment_mav.Ftp.Request.Packets.{IsFileEnv}
use pq_key_establishment_mav.Ftp.Request.Answers.{IsAnswered, one_reply, by_burst, ignored}
use pq_key_establishment_mav.Ftp.Request.Outcome.{handle_request-IsAnswered}
use pq_key_establishment_mav.Ftp.Worker.{
  Worker, Served, is_rerequest, finish_request, serve, turn_down, serve_at, serve_claim,
  serve_reset, choose_in, worker_request, try_send,
}

-- What is sent for a request: replies to it, at least one unless the link has no room or the request
-- is an Ack or a Nack; or once more the reply that the worker still has, if it is for a request of
-- this sender and session with this number.
pub data IsServed (w : Worker) (request : Transaction) (room : Bool) (r : Served) : Type 0 where
  replied :
      AllReplies (setup_reply request) r.out
      → ((0 < length r.out) ⊎ ((room ≡ false) ⊎ ((request.opcode ≡ 128) ⊎ (request.opcode ≡ 129))))
      → IsServed w request room r
  repeated :
      r.out ≡ w.reply ∷ []
      → (w.reply.sysid ≡ request.sysid)
        × (w.reply.compid ≡ request.compid)
        × (w.reply.session ≡ request.session)
        × (w.reply.seq_number ≡ request.seq_number + 1)
      → IsServed w request room r

setup-IsDraft : (request : Transaction) → IsDraft (setup_reply request) (setup_reply request)
unfolding setup_reply
setup-IsDraft request = record {
  chan = refl;
  sysid = refl;
  compid = refl;
  session = refl;
  req_opcode = refl;
  whole = length-replicate {A = ℕ} 239 0;
}

AllReplies-append :
    (base : Transaction) (xs ys : List Transaction)
    → AllReplies base xs
    → AllReplies base ys
    → AllReplies base (xs ++ ys)
AllReplies-append base [] ys p q = q
AllReplies-append base (x ∷ xs) ys p q = (p.0, AllReplies-append base xs ys p.1 q)

module _ (w : Worker) (request : Transaction) (env : FileEnv) (room : Bool) where
  finish_request-IsServed :
      (w' : Worker) (i pushed_at : ℕ) (closed : List ℕ) (h : Handled)
      → IsAnswered (setup_reply request) request.opcode h
      → IsServed w request room (finish_request w' i pushed_at closed h)
  unfolding finish_request
  finish_request-IsServed w' i pushed_at closed h (one_reply s p a) = simp (s) (
      replied (AllReplies-append (setup_reply request) h.pushed (h.reply ∷ []) p (a, tt))
        (inl (omega (arith, length-append h.pushed (h.reply ∷ [])))))
  finish_request-IsServed w' i pushed_at closed h (by_burst s p n) = simp (s) (replied p (inl n))
  finish_request-IsServed w' i pushed_at closed h (ignored s e o) =
      simp (s) (replied (rw e tt) (inr (inr o)))

  same_request :
      is_rerequest request w.reply ≡ true
      → (w.reply.sysid ≡ request.sysid)
        × (w.reply.compid ≡ request.compid)
        × (w.reply.session ≡ request.session)
        × (w.reply.seq_number ≡ request.seq_number + 1)
  unfolding is_rerequest
  same_request e = (ground arith, ground arith, ground arith, ground arith)

  serve-IsServed :
      (w' : Worker) (i : ℕ) (s : Session) (closed : List ℕ)
      → w'.reply ≡ w.reply
      → IsFileEnv env
      → IsServed w request room (serve w' request env i s closed)
  unfolding serve setup_reply
  serve-IsServed w' i s closed e v = elim (Bool-cases (is_rerequest request w.reply)) [
    | inl k ↦ simp (e, k, serve) (repeated refl (same_request k))
    | inr k ↦
        simp (e, k, serve)
          (finish_request-IsServed w' i env.pushed_at closed
            (handle_request s request (setup_reply request) env)
            (handle_request-IsAnswered s request (setup_reply request) env (setup-IsDraft request) v
              refl (λ z. omega (arith, z)) (omega arith)))
  ]

  try_send-IsServed :
      (reply : Transaction) (r : Served)
      → r.out ≡ try_send room reply
      → IsReply (setup_reply request) reply
      → IsServed w request room r
  unfolding try_send
  try_send-IsServed reply r e a = elim (Bool-cases room) [
    | inl k ↦ replied (rw (e, k, try_send) (a, tt)) (inl (rw (e, k, try_send) (omega arith)))
    | inr k ↦ replied (rw (e, k, try_send) tt) (inr (inl k))
  ]

  turn_down-IsServed : (w' : Worker) → IsServed w request room (turn_down w' request env room)
  unfolding turn_down
  turn_down-IsServed w' =
      try_send-IsServed (error (setup_reply request) 5 env.errno) _ refl
        (error-IsReply (setup_reply request) 5 env.errno (setup-IsDraft request))

  serve_at-IsServed :
      (w' : Worker) (i : ℕ) (o : Option Session) (closed : List ℕ)
      → w'.reply ≡ w.reply
      → IsFileEnv env
      → IsServed w request room (serve_at w' request env room i o closed)
  unfolding serve_at
  serve_at-IsServed w' i none closed e v = turn_down-IsServed w'
  serve_at-IsServed w' i (some s) closed e v = serve-IsServed w' i s closed e v

  serve_claim-IsServed :
      (c : Claim) → IsFileEnv env → IsServed w request room (serve_claim w request env room c)
  unfolding serve_claim
  serve_claim-IsServed (found i) v = serve_at-IsServed w i _ [] refl v
  serve_claim-IsServed (claimed i table) v =
      serve_at-IsServed (record w { sessions = table }) i _ _ refl v
  serve_claim-IsServed rejected v = turn_down-IsServed w

  serve_reset-IsServed : IsServed w request room (serve_reset w request room)
  unfolding serve_reset
  serve_reset-IsServed = try_send-IsServed (ack (setup_reply request)) _ refl (
      ack-IsReply (setup_reply request) (setup-IsDraft request) (unfold setup_reply in omega arith))

  -- While reads fit the data, every request is heard. Unless the link has no room or the request is
  -- itself an Ack or a Nack (128 or 129), at least one message is sent for it. All that is sent are replies to
  -- it: to its sender on its channel, for its session and opcode, an Ack whose size is within the
  -- data, or a Nack with one or two bytes; or else it is the reply that the worker still has, and
  -- then this was for the same sender, session and number.
  pub worker_request-IsServed :
      IsFileEnv env → IsServed w request room (worker_request w request env room)
  unfolding worker_request
  worker_request-IsServed v = elim (Bool-cases (request.opcode == 2)) [
    | inl e ↦ rw e serve_reset-IsServed
    | inr e ↦ rw e (serve_claim-IsServed (choose_in w.sessions request env.now) v)
  ]
