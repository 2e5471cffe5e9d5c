-- ===== src/Ftp/Worker/Leaks.antt =====
-- No descriptor is lost: over the whole table, what was open and what is opened is open still or
-- was closed.
use pq_key_establishment_mav.Base.{
  ℕ, zero, suc, ◌+◌, ◌<◌, length, ◌≡◌, ◌==◌, if◌then◌else◌, refl, ap, arith, List, [], ◌∷◌, ◌++◌,
  set, get_elem?, get_elem?-set_self, ◌⊎◌, Bool, Bool-cases, inl, inr, Option, none, some,
  none-some,
}
use pq_key_establishment_mav.Ftp.{
  Transaction, Session, Claim, claimed, rejected, is_sender, reset_sessions, close, setup_reply,
  claimed_by,
}
use pq_key_establishment_mav.Ftp.Sessions.{IsChoice, own, taken, none_idle, choose_session-IsChoice}
use pq_key_establishment_mav.Ftp.Request.{FileEnv, Handled, handle_request}
use pq_key_establishment_mav.Ftp.Request.Descriptors.{held, IsBalanced, handle_request-IsBalanced}
use pq_key_establishment_mav.Ftp.Worker.{
  Worker, Served, to_list, reset_fds, push_reply, is_rerequest, finish_request, serve, turn_down,
  serve_at, serve_claim, serve_reset, choose_in, worker_request,
}

-- How many sessions hold a descriptor, and how often it is in a list.
unfoldable pub table_held : ℕ → List Session → ℕ
unfolding held
table_held f [] = 0
table_held f (s ∷ ss) = held f s.fd + table_held f ss

unfoldable pub count : ℕ → List ℕ → ℕ
count f [] = 0
count f (g ∷ gs) = (if g == f then 1 else 0) + count f gs

pub record IsKept (ss : List Session) (r : Served) : Type 0 where
  pub kept :
      (f : ℕ)
      → table_held f ss + held f r.opened ≡ table_held f r.worker.sessions + count f r.closed

count-append : (f : ℕ) (xs ys : List ℕ) → count f (xs ++ ys) ≡ count f xs + count f ys
unfolding count
count-append f [] ys = omega arith
count-append f (x ∷ xs) ys = omega (arith, count-append f xs ys)

count-to_list : (f : ℕ) (o : Option ℕ) → count f (to_list o) ≡ held f o
unfolding count held
count-to_list f none = refl
count-to_list f (some g) = omega arith

table_held-set :
    (f : ℕ) (ss : List Session) (i : ℕ) (s s' : Session)
    → get_elem? ss i ≡ some s
    → table_held f (set ss i s') + held f s.fd ≡ table_held f ss + held f s'.fd
unfolding table_held
table_held-set f [] i s s' e = absurd (none-some e)
table_held-set f (t ∷ ss) zero s s' e =
    let q : t ≡ s = some_inj e in omega (arith, ap (λ (x : Session). held f x.fd) q)
  where
    some_inj : {x y : Session} → some x ≡ some y → x ≡ y
    some_inj p = cc
table_held-set f (t ∷ ss) (suc i) s s' e = omega (arith, table_held-set f ss i s s' e)

reset_kept :
    (f : ℕ) (request : Transaction) (ss : List Session)
    → table_held f ss ≡ table_held f (reset_sessions request ss) + count f (reset_fds request ss)
unfolding table_held reset_sessions reset_fds count close held
reset_kept f request [] = refl
reset_kept f request (s ∷ ss) = elim (Bool-cases (is_sender request s)) [
  | inl e ↦ rw e (
      omega (
        arith,
        reset_kept f request ss,
        count-append f (to_list s.fd) (reset_fds request ss),
        count-to_list f s.fd,
      ))
  | inr e ↦ rw e (omega (arith, reset_kept f request ss))
]

module _ (w : Worker) (request : Transaction) (env : FileEnv) where
  finish_request-IsKept :
      (i pushed_at : ℕ) (closed : List ℕ) (s : Session) (h : Handled)
      → get_elem? w.sessions i ≡ some s
      → IsBalanced s h
      → (f : ℕ)
      → table_held f w.sessions
          + held f (finish_request w i pushed_at closed h).opened
          + count f closed
        ≡ table_held f (finish_request w i pushed_at closed h).worker.sessions
          + count f (finish_request w i pushed_at closed h).closed
  unfolding finish_request push_reply
  finish_request-IsKept i pushed_at closed s h e v f = elim (Bool-cases h.skip) [
    | inl k ↦ simp (k) (
        omega (
          arith,
          table_held-set f w.sessions i s h.session e,
          v.balance f,
          count-append f closed (to_list h.closed),
          count-to_list f h.closed,
        ))
    | inr k ↦ simp (k) (
        omega (
          arith,
          table_held-set f w.sessions i s (push_reply h.session pushed_at h.reply) e,
          v.balance f,
          count-append f closed (to_list h.closed),
          count-to_list f h.closed,
        ))
  ]

  serve_kept :
      (i : ℕ) (s : Session) (closed : List ℕ)
      → get_elem? w.sessions i ≡ some s
      → (f : ℕ)
      → table_held f w.sessions + held f (serve w request env i s closed).opened + count f closed
        ≡ table_held f (serve w request env i s closed).worker.sessions
          + count f (serve w request env i s closed).closed
  unfolding serve push_reply held
  serve_kept i s closed e f = elim (Bool-cases (is_rerequest request w.reply)) [
    | inl k ↦
        rw k (omega (arith, table_held-set f w.sessions i s (push_reply s env.pushed_at w.reply) e))
    | inr k ↦ rw k (
        finish_request-IsKept i env.pushed_at closed s
          (handle_request s request (setup_reply request) env) e
          (handle_request-IsBalanced s request (setup_reply request) env) f)
  ]

  turn_down_kept :
      (room : Bool) (f : ℕ)
      → table_held f w.sessions + held f (turn_down w request env room).opened
        ≡ table_held f (turn_down w request env room).worker.sessions
          + count f (turn_down w request env room).closed
  unfolding turn_down held count
  turn_down_kept room f = omega arith

  reset-IsKept : (room : Bool) → IsKept w.sessions (serve_reset w request room)
  unfolding serve_reset held
  reset-IsKept room = record { kept = λ f. omega (arith, reset_kept f request w.sessions) }

  found-IsKept :
      (room : Bool) (i : ℕ) (o : Option Session)
      → get_elem? w.sessions i ≡ o
      → IsKept w.sessions (serve_at w request env room i o [])
  unfolding serve_at count
  found-IsKept room i none e = record { kept = turn_down_kept room }
  found-IsKept room i (some s) e = record { kept = λ f. omega (arith, serve_kept i s [] e f) }

get_elem?-lt : (ss : List Session) (i : ℕ) (s : Session) → get_elem? ss i ≡ some s → i < length ss
get_elem?-lt [] i s e = absurd (none-some e)
get_elem?-lt (t ∷ ss) zero s e = omega arith
get_elem?-lt (t ∷ ss) (suc i) s e = omega (arith, get_elem?-lt ss i s e)

-- The table in which a session has been claimed.
claimed-IsKept :
    (w : Worker) (request : Transaction) (env : FileEnv) (room : Bool) (i : ℕ) (s s' : Session)
    → get_elem? w.sessions i ≡ some s
    → s'.fd ≡ none
    → IsKept w.sessions (serve_claim w request env room (claimed i (set w.sessions i s')))
unfolding serve_claim serve_at held
claimed-IsKept w request env room i s s' e g = record {
  kept = λ f.
      let there : get_elem? (set w.sessions i s') i ≡ some s' =
        get_elem?-set_self w.sessions i s' (get_elem?-lt w.sessions i s e) in
      rw (there, e)
        (omega (
          arith,
          serve_kept (record w { sessions = set w.sessions i s' }) request env i s' (to_list s.fd)
              there f,
          table_held-set f w.sessions i s s' e,
          ap (held f) g,
          count-to_list f s.fd,
        ));
}

choose_in-IsChoice :
    (ss : List Session) (request : Transaction) (now : ℕ)
    → (choose_in ss request now ≡ rejected) ⊎ IsChoice request now ss (choose_in ss request now)
unfolding choose_in
choose_in-IsChoice [] request now = inl refl
choose_in-IsChoice (s ∷ ss) request now = inr (choose_session-IsChoice request now s ss)

serve_claim-IsKept :
    (w : Worker) (request : Transaction) (env : FileEnv) (room : Bool) (c : Claim)
    → IsChoice request env.now w.sessions c
    → IsKept w.sessions (serve_claim w request env room c)
serve_claim-IsKept w request env room _ (own i v) =
    unfold serve_claim in found-IsKept w request env room i (get_elem? w.sessions i) refl
serve_claim-IsKept w request env room _ (taken i s a e b d g) =
    claimed-IsKept w request env room i s (claimed_by request s) e g
serve_claim-IsKept w request env room _ (none_idle a b) =
    unfold serve_claim in record { kept = turn_down_kept w request env room }

-- Whatever a request is and whatever the file system answers, no descriptor is lost and none is
-- closed that was not held: for each, the sessions that hold it before and whether it is opened
-- add up to the sessions that hold it after and how often it is closed.
pub worker_request-IsKept :
    (w : Worker) (request : Transaction) (env : FileEnv) (room : Bool)
    → IsKept w.sessions (worker_request w request env room)
unfolding worker_request
worker_request-IsKept w request env room = elim (Bool-cases (request.opcode == 2)) [
  | inl e ↦ rw e (reset-IsKept w request env room)
  | inr e ↦ rw e (elim (choose_in-IsChoice w.sessions request env.now) [
    | inl f ↦ rw f (unfold serve_claim in record { kept = turn_down_kept w request env room })
    | inr v ↦ serve_claim-IsKept w request env room _ v
  ])
]
