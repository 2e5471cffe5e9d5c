-- ===== src/Ftp/Worker.antt =====
-- GCS_FTP.cpp, `GCS_FTP::worker`: what the thread does with one request of its queue. A push waits
-- until the link takes the reply; `send_reply` alone tries once.
pub mod Leaks
pub mod Senders
use pq_key_establishment_mav.Base.{
  ℕ, zero, suc, ◌+◌, ◌==◌, if◌then◌else◌, List, [], ◌∷◌, ◌++◌, set, get_or, get_elem?, Bool, true,
  false, ◌&&◌, not, Option, none, some,
}
use pq_key_establishment_mav.Ftp.{
  Transaction, Session, Claim, found, claimed, rejected, is_sender, reset_sessions, choose_session,
  setup_reply, error,
}
use pq_key_establishment_mav.Ftp.Request.{FileEnv, Handled, ack, handle_request}

-- The sessions, and the variable `reply` of the thread.
pub record Worker : Type 0 where
  pub sessions : List Session
  pub reply : Transaction

-- What a request leaves, what is sent for it, and the descriptors opened and closed.
pub record Served : Type 0 where
  pub worker : Worker
  pub out : List Transaction
  pub opened : Option ℕ
  pub closed : List ℕ

abbrev pub to_list : Option ℕ → List ℕ
to_list none = []
to_list (some f) = f ∷ []

-- The descriptors that `ResetSessions` closes.
unfoldable pub reset_fds : Transaction → List Session → List ℕ
unfolding is_sender
reset_fds request [] = []
reset_fds request (s ∷ ss) =
    (if is_sender request s then to_list s.fd else []) ++ reset_fds request ss

-- The session after `push_reply` at time `now`.
unfoldable pub push_reply : Session → ℕ → Transaction → Session
push_reply s now reply = record s { last_send_ms = if reply.req_opcode == 1 then 0 else now }

-- The same request again, whose reply is still there. The sum is not cut to 16 bits.
unfoldable pub is_rerequest : Transaction → Transaction → Bool
is_rerequest request reply =
    request.sysid == reply.sysid
    && (request.compid == reply.compid
        && (request.session == reply.session
            && (request.seq_number + 1 == reply.seq_number && not (get_or reply.bytes 0 0 == 5))))

-- `send_reply` where a failure is ignored; `room` says that the link takes the reply.
unfoldable pub try_send : Bool → Transaction → List Transaction
try_send room reply = if room then reply ∷ [] else []

-- The rest of a request that is handled by session `i`.
unfoldable pub finish_request : Worker → ℕ → ℕ → List ℕ → Handled → Served
unfolding push_reply
finish_request w i pushed_at closed h =
    if h.skip
    then record {
      worker = record { sessions = set w.sessions i h.session; reply = h.reply };
      out = h.pushed;
      opened = h.opened;
      closed = closed ++ to_list h.closed;
    }
    else record {
      worker = record {
        sessions = set w.sessions i (push_reply h.session pushed_at h.reply);
        reply = h.reply;
      };
      out = h.pushed ++ (h.reply ∷ []);
      opened = h.opened;
      closed = closed ++ to_list h.closed;
    }

-- The session `s` of the request has index `i`; `closed` is what its claim closed.
unfoldable pub serve : Worker → Transaction → FileEnv → ℕ → Session → List ℕ → Served
unfolding is_rerequest push_reply finish_request handle_request setup_reply
serve w request env i s closed =
    if is_rerequest request w.reply
    then record {
      worker = record {
        sessions = set w.sessions i (push_reply s env.pushed_at w.reply);
        reply = w.reply;
      };
      out = w.reply ∷ [];
      opened = none;
      closed = closed;
    }
    else finish_request w i env.pushed_at closed
        (handle_request s request (setup_reply request) env)

abbrev pub fds_of : Option Session → List ℕ
fds_of none = []
fds_of (some s) = to_list s.fd

-- A request that finds every session active; an index outside the table does not occur.
unfoldable pub turn_down : Worker → Transaction → FileEnv → Bool → Served
unfolding try_send setup_reply error
turn_down w request env room =
    let reply = error (setup_reply request) 5 env.errno in
    record {
      worker = record w { reply = reply };
      out = try_send room reply;
      opened = none;
      closed = [];
    }

unfoldable pub serve_at :
    Worker → Transaction → FileEnv → Bool → ℕ → Option Session → List ℕ → Served
unfolding serve turn_down
serve_at w request env room i none closed = turn_down w request env room
serve_at w request env room i (some s) closed = serve w request env i s closed

unfoldable pub serve_claim : Worker → Transaction → FileEnv → Bool → Claim → Served
unfolding serve_at turn_down
serve_claim w request env room (found i) = serve_at w request env room i (get_elem? w.sessions i) []
serve_claim w request env room (claimed i table) =
    serve_at (record w { sessions = table }) request env room i (get_elem? table i)
      (fds_of (get_elem? w.sessions i))
serve_claim w request env room rejected = turn_down w request env room

-- The request `ResetSessions`.
unfoldable pub serve_reset : Worker → Transaction → Bool → Served
unfolding reset_sessions reset_fds try_send setup_reply ack
serve_reset w request room =
    let reply = ack (setup_reply request) in
    record {
      worker = record { sessions = reset_sessions request w.sessions; reply = reply };
      out = try_send room reply;
      opened = none;
      closed = reset_fds request w.sessions;
    }

unfoldable pub choose_in : List Session → Transaction → ℕ → Claim
unfolding choose_session
choose_in [] request now = rejected
choose_in (s ∷ ss) request now = choose_session request now s ss

-- One turn of the loop of `worker`; the table of sessions is not empty, and one clock reading
-- stands for that of the choice and that of the request.
unfoldable pub worker_request : Worker → Transaction → FileEnv → Bool → Served
unfolding serve_reset serve_claim choose_in
worker_request w request env room =
    if request.opcode == 2
    then serve_reset w request room
    else serve_claim w request env room (choose_in w.sessions request env.now)
