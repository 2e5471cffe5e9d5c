-- ===== src/Ftp/Tests.antt =====
-- The theorems on the file transfer with two sessions.
use pq_key_establishment_mav.Base.{
  refl, ℕ, zero, suc, ◌≤◌, ◌≡◌, ap, arith, true, List, [], ◌∷◌, length, Option, none, some,
}
use pq_key_establishment_mav.Base.Bytes.{zeros}
use pq_key_establishment_mav.Ftp.{
  Transaction, Session, FtpFileMode, choose_session, decode_request, encode_reply,
}
use pq_key_establishment_mav.Ftp.Payload.{decode_request-encode_reply}
use pq_key_establishment_mav.Ftp.Sessions.{IsChoice, choose_session-IsChoice}
use pq_key_establishment_mav.Ftp.Request.{FileEnv, burst}
use pq_key_establishment_mav.Ftp.Request.Packets.{IsFileEnv, IsBurst, burst-IsBurst}
use pq_key_establishment_mav.Ftp.Worker.{Worker, worker_request}
use pq_key_establishment_mav.Ftp.Worker.Leaks.{IsKept, worker_request-IsKept}
use pq_key_establishment_mav.Ftp.Worker.Senders.{IsServed, worker_request-IsServed}

abbrev open_request : Transaction
open_request = record {
  offset = 70000;
  chan = 1;
  seq_number = 300;
  opcode = 4;
  req_opcode = 0;
  burst_complete = true;
  size = 9;
  session = 3;
  sysid = 255;
  compid = 190;
  bytes = zeros 239;
}

abbrev recent : Session
recent = record {
  fd = some 4;
  last_send_ms = 9000;
  session_id = 0;
  mode = FtpFileMode.reading;
  chan = 1;
  sysid = 255;
  compid = 190;
}

abbrev silent : Session
silent = record recent { last_send_ms = 5000; session_id = 1 }

choose_session-IsChoice_example :
    IsChoice open_request 10000
      (recent ∷ silent ∷ [])
      (choose_session open_request 10000 recent (silent ∷ []))
choose_session-IsChoice_example = choose_session-IsChoice open_request 10000 recent (silent ∷ [])

-- A file of three bytes.
abbrev file_reads : ℕ → Option (List ℕ)
file_reads zero = some (7 ∷ 8 ∷ 9 ∷ [])
file_reads (suc i) = some []

abbrev small_file : FileEnv
small_file = record {
  now = 10000;
  pushed_at = 10010;
  errno = 0;
  stat = some 3;
  opens = some 5;
  seeks = true;
  reads = file_reads;
  writes = true;
  makes = true;
  unlinks = true;
  renames = true;
  crc = some 77;
  directory = none;
}

small_file-IsFileEnv : IsFileEnv small_file
small_file-IsFileEnv = record { reads_fit = fits }
  where
    size : Option (List ℕ) → ℕ
    size none = 0
    size (some b) = length b

    fits : (i : ℕ) (bytes : List ℕ) → file_reads i ≡ some bytes → length bytes ≤ 239
    fits zero bytes e = omega (arith, ap size e)
    fits (suc i) bytes e = omega (arith, ap size e)

abbrev burst_request : Transaction
burst_request = record open_request { opcode = 15; size = 3; session = 0; offset = 0 }

abbrev two_sessions : Worker
two_sessions = record { sessions = recent ∷ silent ∷ []; reply = open_request }

worker_request-IsServed_example :
    IsServed two_sessions burst_request true
      (worker_request two_sessions burst_request small_file true)
worker_request-IsServed_example =
    worker_request-IsServed two_sessions burst_request small_file true small_file-IsFileEnv

worker_request-IsKept_example :
    IsKept (recent ∷ silent ∷ []) (worker_request two_sessions open_request small_file true)
worker_request-IsKept_example = worker_request-IsKept two_sessions open_request small_file true

burst-IsBurst_example :
    (length (burst small_file 0 3 2 0 burst_request).1 ≤ 2)
    × IsBurst small_file 0 3 0 300 (burst small_file 0 3 2 0 burst_request).1
burst-IsBurst_example = burst-IsBurst small_file small_file-IsFileEnv 0 3 2 0 burst_request

decode_request-encode_reply_example :
    decode_request 1 255 190 (encode_reply open_request) ≡ open_request
decode_request-encode_reply_example =
    decode_request-encode_reply open_request (omega arith) (omega arith) refl
