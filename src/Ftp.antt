-- ===== src/Ftp.antt =====
-- GCS_MAVLink/GCS_FTP.h and GCS_FTP.cpp: the messages of the file transfer, and the table of its
-- sessions. Opcodes are the bytes that the messages carry.
pub mod Payload
pub mod Sessions
pub mod Request
pub mod Worker
pub mod Tests
use pq_key_establishment_mav.Base.{
  ℕ, zero, suc, ◌+◌, ◌-◌, ◌%◌, ◌^◌, ◌==◌, if◌then◌else◌, ltb, List, [], ◌∷◌, ◌++◌, map, set, take,
  drop, get_or, Bool, true, false, ◌&&◌, not, Option, none, some,
}
use pq_key_establishment_mav.Base.Bytes.{u16, sub32, le_bytes, le_value, zeros}

-- GCS_FTP::Transaction; `bytes` are the 239 bytes of `data`.
pub record Transaction : Type 0 where
  pub offset : ℕ
  pub chan : ℕ
  pub seq_number : ℕ
  pub opcode : ℕ
  pub req_opcode : ℕ
  pub burst_complete : Bool
  pub size : ℕ
  pub session : ℕ
  pub sysid : ℕ
  pub compid : ℕ
  pub bytes : List ℕ

-- The request that `handle_file_transfer_protocol` makes of a payload.
unfoldable pub decode_request : (chan sysid compid : ℕ) → List ℕ → Transaction
decode_request chan sysid compid payload = record {
  offset = le_value (take 4 (drop 8 payload));
  chan = chan;
  seq_number = le_value (take 2 payload);
  opcode = get_or payload 3 0;
  req_opcode = get_or payload 5 0;
  burst_complete = not (get_or payload 6 0 == 0);
  size = get_or payload 4 0;
  session = get_or payload 2 0;
  sysid = sysid;
  compid = compid;
  bytes = take 239 (drop 12 payload);
}

-- The payload of 251 bytes that `send_reply` fills.
unfoldable pub encode_reply : Transaction → List ℕ
encode_reply reply =
    le_bytes 2 reply.seq_number
    ++ (reply.session
        ∷ reply.opcode
        ∷ reply.size
        ∷ reply.req_opcode
        ∷ (if reply.burst_complete then 1 else 0)
        ∷ 0
        ∷ (le_bytes 4 reply.offset ++ reply.bytes))

-- `GCS_FTP::error` with the error `FailErrno` (2) and `errno`, of which EEXIST is 17 and ENOENT is 2.
unfoldable pub error : Transaction → ℕ → ℕ → Transaction
error response code errno =
    let nack = record response { opcode = 129; bytes = set response.bytes 0 code; size = 1 } in
    if not (code == 2)
    then nack
    else if errno == 17
    then record nack { bytes = set nack.bytes 0 8 }
    else if errno == 2
    then record nack { bytes = set nack.bytes 0 10 }
    else record nack { bytes = set nack.bytes 1 (errno % 2 ^ 8); size = 2 }

-- `setup_reply`
unfoldable pub setup_reply : Transaction → Transaction
setup_reply request = record {
  offset = 0;
  chan = request.chan;
  seq_number = u16 (request.seq_number + 1);
  opcode = 0;
  req_opcode = request.opcode;
  burst_complete = false;
  size = 0;
  session = request.session;
  sysid = request.sysid;
  compid = request.compid;
  bytes = zeros 239;
}

-- GCS_FTP::FTP_FILE_MODE
pub data FtpFileMode : Type 0 where
  reading writing : FtpFileMode

unfoldable pub is_reading : FtpFileMode → Bool
is_reading reading = true
is_reading writing = false

-- GCS_FTP::Session; `fd` is none for -1.
pub record Session : Type 0 where
  pub fd : Option ℕ
  pub last_send_ms : ℕ
  pub session_id : ℕ
  pub mode : FtpFileMode
  pub chan : ℕ
  pub sysid : ℕ
  pub compid : ℕ

-- `Session::close`
unfoldable pub close : Session → Session
close s = record s { fd = none; last_send_ms = 0 }

-- The sessions without activity for 20 s, while the worker waits.
unfoldable pub kill_dead : ℕ → List Session → List Session
unfolding close
kill_dead now [] = []
kill_dead now (s ∷ ss) =
    (if not (s.last_send_ms == 0) && ltb 20000 (sub32 now s.last_send_ms) then close s else s)
    ∷ kill_dead now ss

unfoldable pub is_sender : Transaction → Session → Bool
is_sender request s =
    request.sysid == s.sysid && (request.compid == s.compid && request.chan == s.chan)

-- The request `ResetSessions` on the table.
unfoldable pub reset_sessions : Transaction → List Session → List Session
unfolding is_sender close
reset_sessions request [] = []
reset_sessions request (s ∷ ss) =
    (if is_sender request s then close s else s) ∷ reset_sessions request ss

unfoldable pub is_session : Transaction → Session → Bool
unfolding is_sender
is_session request s = is_sender request s && request.session == s.session_id

abbrev pub next_index : Option ℕ → Option ℕ
next_index none = none
next_index (some i) = some (suc i)

-- The first session of the request.
unfoldable pub find_session : Transaction → List Session → Option ℕ
unfolding is_session
find_session request [] = none
find_session request (s ∷ ss) =
    let rest = find_session request ss in if is_session request s then some 0 else next_index rest

-- The oldest of the best one so far and of the sessions from index `i` on.
unfoldable pub oldest : ℕ → List Session → ℕ → ℕ × Session → ℕ × Session
oldest now [] i best = best
oldest now (s ∷ ss) i best =
    oldest now ss (suc i)
      (if ltb (sub32 now best.1.last_send_ms) (sub32 now s.last_send_ms) then (i, s) else best)

-- How a request gets its session: it has one, it takes one over in a new table, or it is rejected.
pub data Claim : Type 0 where
  found : ℕ → Claim
  claimed : ℕ → List Session → Claim
  rejected : Claim

unfoldable pub claimed_by : Transaction → Session → Session
unfolding close
claimed_by request s = record (close s) {
  session_id = request.session;
  sysid = request.sysid;
  compid = request.compid;
  chan = request.chan;
}

unfoldable pub take_over : Transaction → ℕ → List Session → ℕ × Session → Claim
unfolding claimed_by
take_over request now sessions (i, s) =
    if not (s.last_send_ms == 0) && ltb (sub32 now s.last_send_ms) 3000
    then rejected
    else claimed i (set sessions i (claimed_by request s))

-- The choice of the session in `worker`; the table is not empty.
unfoldable pub choose_session : Transaction → ℕ → Session → List Session → Claim
unfolding find_session oldest take_over
choose_session request now first sessions = elim (find_session request (first ∷ sessions)) [
  | some i ↦ found i
  | none ↦ take_over request now (first ∷ sessions) (oldest now sessions 1 (0, first))
]

-- `get_last_send_ms`, after the sessions before.
unfoldable pub get_last_send_ms : ℕ → ℕ → List Session → ℕ
get_last_send_ms chan ret [] = ret
get_last_send_ms chan ret (s ∷ ss) =
    get_last_send_ms chan (if s.chan == chan && ltb ret s.last_send_ms then s.last_send_ms else ret)
      ss
