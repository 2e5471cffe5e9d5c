-- ===== src/Ftp/Request.antt =====
-- GCS_FTP.cpp, `GCS_FTP::Session::handle_request`: one request on its session. What the file system
-- answers is an argument. The banner that follows the opening of the parameter file is left out.
pub mod Listing
pub mod Replies
pub mod Packets
pub mod Answers
pub mod Outcome
pub mod Descriptors
use pq_key_establishment_mav.Base.{
  ℕ, zero, suc, ◌+◌, ◌-◌, ◌*◌, ◌/◌, ◌%◌, ◌==◌, leb, if◌then◌else◌, ltb, min, List, [], ◌∷◌, ◌++◌,
  set, take, drop, get_or, length, Bool, true, false, ◌&&◌, ◌||◌, not, Option, none, some,
}
use pq_key_establishment_mav.Base.Bytes.{u8, u16, u32, sub32, le_bytes, zeros}
use pq_key_establishment_mav.Ftp.{Transaction, Session, reading, writing, is_reading, error, close}

-- An entry of a directory: its type, and the size that `stat` gives for it.
pub record DirEntry : Type 0 where
  pub name : List ℕ
  pub is_file : Bool
  pub is_dir : Bool
  pub stat_size : Option ℕ

-- What a request meets: the clock at its start and at the last reply pushed, `errno` after a call
-- that fails, and the results of the calls: the size that `stat` gives, the descriptor of `open`,
-- whether `lseek`, `write`, `mkdir`, `unlink` and `rename` succeed, the bytes of the `i`th `read`
-- (`none` is -1), and the checksum. `directory` is what `readdir` gives after a successful
-- `opendir`.
pub record FileEnv : Type 0 where
  pub now : ℕ
  pub pushed_at : ℕ
  pub errno : ℕ
  pub stat : Option ℕ
  pub opens : Option ℕ
  pub seeks : Bool
  pub reads : ℕ → Option (List ℕ)
  pub writes : Bool
  pub makes : Bool
  pub unlinks : Bool
  pub renames : Bool
  pub crc : Option ℕ
  pub directory : Option (List DirEntry)

-- What a request leaves: the session, the reply that is not sent yet, what was pushed already,
-- whether the caller skips the push, and the descriptors opened and closed.
pub record Handled : Type 0 where
  pub session : Session
  pub reply : Transaction
  pub pushed : List Transaction
  pub skip : Bool
  pub opened : Option ℕ
  pub closed : Option ℕ

-- strnlen(text, limit)
unfoldable pub strnlen : ℕ → List ℕ → ℕ
strnlen zero text = 0
strnlen (suc limit) [] = 0
strnlen (suc limit) (b ∷ bs) = let rest = strnlen limit bs in if b == 0 then 0 else suc rest

-- `check_name_len`
unfoldable pub check_name_len : Transaction → Bool
unfolding strnlen
check_name_len request =
    let file_name_len = strnlen 239 request.bytes in
    if request.size == 0
    then false
    else if file_name_len == request.size
    then true
    else request.size == file_name_len + 1 && get_or request.bytes 238 0 == 0

-- Bytes copied to the start of `data`.
unfoldable pub overwrite : List ℕ → List ℕ → List ℕ
overwrite bytes old = bytes ++ drop (length bytes) old

unfoldable pub ack : Transaction → Transaction
ack reply = record reply { opcode = 128 }

unfoldable pub answered : Session → Transaction → Handled
answered s reply = record {
  session = s;
  reply = reply;
  pushed = [];
  skip = false;
  opened = none;
  closed = none;
}

-- An acknowledgement, or the error of the call that failed.
unfoldable pub ack_if : Bool → Session → Transaction → FileEnv → Handled
unfolding answered ack error
ack_if succeeds s reply env =
    if succeeds then answered s (ack reply) else answered s (error reply 2 env.errno)

-- A request whose data has to be a path.
unfoldable pub on_path : Transaction → Session → Transaction → FileEnv → Bool → Handled
unfolding answered error ack_if
on_path request s reply env succeeds =
    if check_name_len request
    then ack_if succeeds s reply env
    else answered s (error reply 3 env.errno)

unfoldable pub has_file : Session → Bool
has_file s = elim s.fd [ none ↦ false | some f ↦ true ]

-- The last part of the two ways to open a file: the descriptor is the session's.
unfoldable pub opened_as : Session → Transaction → FileEnv → (writes : Bool) → Transaction → Handled
unfolding answered error ack
opened_as s reply env writes ok = elim env.opens [
  | none ↦ answered s (error reply 2 env.errno)
  | some f ↦ record (answered s ok) {
    session = record s { fd = some f; mode = if writes then writing else reading };
    opened = some f;
  }
]

-- OpenFileRO, from the test for an open file on.
unfoldable pub open_checked : Session → Transaction → Transaction → FileEnv → Handled
unfolding answered error ack check_name_len has_file opened_as overwrite
open_checked s request reply env =
    if has_file s
    then answered s (error reply 1 env.errno)
    else if not (check_name_len request)
    then answered s (error reply 3 env.errno)
    else elim env.stat [
      | none ↦ answered s (error reply 2 env.errno)
      | some file_size ↦
          opened_as s reply env false
            (ack (record reply { size = 4; bytes = overwrite (le_bytes 4 file_size) reply.bytes }))
    ]

-- An open file without activity for 3 s is closed first.
unfoldable pub open_ro : Session → Transaction → Transaction → FileEnv → Handled
unfolding open_checked has_file close
open_ro s request reply env =
    if has_file s && ltb 3000 (sub32 env.now s.last_send_ms)
    then record (open_checked (close s) request reply env) { closed = s.fd }
    else open_checked s request reply env

-- OpenFileWO and CreateFile
unfoldable pub open_wo : Session → Transaction → Transaction → FileEnv → Handled
unfolding answered error ack check_name_len has_file opened_as
open_wo s request reply env =
    if has_file s
    then answered s (error reply 1 env.errno)
    else if not (check_name_len request)
    then answered s (error reply 3 env.errno)
    else opened_as s reply env true (ack reply)

-- The checks before a file is read or written: it is open, in this mode, and `lseek` succeeds.
unfoldable pub on_file : Session → Transaction → FileEnv → Bool → Handled → Handled
unfolding answered error has_file
on_file s reply env right_mode next =
    if not (has_file s)
    then answered s (error reply 10 env.errno)
    else if not right_mode
    then answered s (error reply 1 env.errno)
    else if not env.seeks
    then answered s (error reply 2 env.errno)
    else next

-- ReadFile, after the checks
unfoldable pub read_bytes : Session → Transaction → Transaction → FileEnv → Handled
unfolding answered error ack overwrite
read_bytes s request reply env = elim (env.reads 0) [
  | none ↦ answered s (error reply 2 env.errno)
  | some bytes ↦
      if length bytes == 0
      then answered s (error reply 6 env.errno)
      else answered s (
          ack (record reply {
            offset = request.offset;
            size = u8 (length bytes);
            bytes = overwrite bytes reply.bytes;
          }))
]

-- WriteFile, after the checks
unfoldable pub write_bytes : Session → Transaction → Transaction → FileEnv → Handled
unfolding answered error ack
write_bytes s request reply env =
    if env.writes
    then answered s (ack (record reply { offset = request.offset }))
    else answered s (error reply 2 env.errno)

-- One full turn of the burst: what is pushed, and the reply prepared for the next.
unfoldable pub burst_packet :
    (offset max_read i : ℕ) (last : Bool) → List ℕ → Transaction → Transaction
burst_packet offset max_read i last bytes reply = record reply {
  opcode = 128;
  offset = u32 (offset + i * max_read);
  burst_complete = ltb (length bytes) max_read || last;
  size = u8 (length bytes);
  bytes = bytes ++ zeros (239 - length bytes);
}

unfoldable pub burst_next : ℕ → List ℕ → Transaction → Transaction
burst_next max_read bytes sent = record sent {
  offset = if ltb (length bytes) max_read then u32 (sent.offset + length bytes) else sent.offset;
  seq_number = u16 (sent.seq_number + 1);
}

-- for (i = 0; i < 500; i++) ..., with the rounds that are left: the reply at the end, and what was
-- pushed.
unfoldable pub burst :
    FileEnv → (offset max_read rounds i : ℕ) → Transaction → Transaction × List Transaction
unfolding error burst_packet burst_next
burst env offset max_read zero i reply = (reply, [])
burst env offset max_read (suc rounds) i reply =
    elim (env.reads i) as (λ _. Transaction × List Transaction) [
      | none ↦ (error reply 2 env.errno, [])
      | some bytes ↦
          let sent = burst_packet offset max_read i (rounds == 0) bytes reply in
          let rest = burst env offset max_read rounds (i + 1) (burst_next max_read bytes sent) in
          if length bytes == 0
          then (error (record reply { bytes = zeros 239 }) 6 env.errno, [])
          else (rest.0, sent ∷ rest.1)
    ]

-- Every reply pushed sets the clock.
unfoldable pub after_burst : Session → ℕ → List Transaction → Session
after_burst s pushed_at [] = s
after_burst s pushed_at (p ∷ ps) = record s { last_send_ms = pushed_at }

-- BurstReadFile, after the checks.
unfoldable pub burst_read : Session → Transaction → Transaction → FileEnv → Handled
unfolding burst after_burst
burst_read s request reply env =
    let max_read = if request.size == 0 then 239 else request.size in
    let r = burst env request.offset max_read 500 0 reply in
    record {
      session = after_burst s env.pushed_at r.1;
      reply = r.0;
      pushed = r.1;
      skip = not (r.0.opcode == 129);
      opened = none;
      closed = none;
    }

-- Rename: two names in the data.
unfoldable pub bad_names : Transaction → Bool
unfolding strnlen
bad_names request =
    let len1 = strnlen 237 request.bytes in
    let len2 = strnlen (239 - (len1 + 1)) (drop (len1 + 1) request.bytes) in
    let tnull = request.size == len1 + len2 + 2 && get_or request.bytes 238 0 == 0 in
    not (get_or request.bytes len1 0 == 0)
    || (not (len1 + len2 + 1 == request.size) && not tnull || request.size == 0)

unfoldable pub rename : Session → Transaction → Transaction → FileEnv → Handled
unfolding bad_names answered error ack_if
rename s request reply env =
    if bad_names request
    then answered s (error reply 3 env.errno)
    else ack_if env.renames s reply env

-- The conversion %u, with as many digits as there are rounds at most.
unfoldable pub decimal : ℕ → ℕ → List ℕ
decimal zero n = []
decimal (suc rounds) n =
    let front = decimal rounds (n / 10) in
    if ltb n 10 then (48 + n) ∷ [] else front ++ ((48 + n % 10) ∷ [])

-- The text of an entry, "F%s\t%u%c" or "D%s%c" with the character 0 at the end; `none` where
-- `gen_dir_entry` returns -1 whatever the room. The build has the types of entries
-- (AP_FILESYSTEM_HAVE_DIRENT_DTYPE).
unfoldable pub entry_text : DirEntry → Option (List ℕ)
unfolding decimal
entry_text e =
    if e.is_file
    then elim e.stat_size [
      | none ↦ none
      | some size ↦ some (70 ∷ (e.name ++ (9 ∷ (decimal 10 (u32 size) ++ (0 ∷ [])))))
    ]
    else if e.is_dir
    then some (68 ∷ (e.name ++ (0 ∷ [])))
    else none

-- What `snprintf` leaves of the data from `index` on: the text cut to the room, and a 0.
unfoldable pub print_entry : List ℕ → ℕ → Option (List ℕ) → Option ℕ × List ℕ
print_entry started index none = (none, started)
print_entry started index (some text) =
    let printed = take (239 - index - 1) text ++ (0 ∷ []) in
    (some (length text), take index started ++ (printed ++ drop (index + length printed) started))

-- `gen_dir_entry` at `data + index`, with the room that is left: the length of the text, and the
-- data after what it wrote.
unfoldable pub gen_dir_entry : List ℕ → ℕ → DirEntry → Option ℕ × List ℕ
unfolding print_entry entry_text
gen_dir_entry bytes index entry =
    if ltb (239 - index) 3
    then (none, bytes)
    else print_entry (take index bytes ++ (0 ∷ drop (index + 1) bytes)) index (entry_text entry)

-- while (request.offset > 0) ...: the entries that are left, unless there are too few.
unfoldable pub burn : ℕ → List ℕ → List DirEntry → Option (List DirEntry) × List ℕ
unfolding gen_dir_entry
burn zero bytes entries = (some entries, bytes)
burn (suc offset) bytes [] = (none, bytes)
burn (suc offset) bytes (e ∷ es) =
    let g = gen_dir_entry bytes 0 e in
    let same = burn (suc offset) g.1 es in
    let next = burn offset g.1 es in
    elim g.0 [ none ↦ same | some needed ↦ if ltb 239 needed then same else next ]

-- while ((entry = readdir(dir))) ...: the index and the data.
unfoldable pub pack : ℕ → List ℕ → List DirEntry → ℕ × List ℕ
unfolding gen_dir_entry
pack index bytes [] = (index, bytes)
pack index bytes (e ∷ es) =
    let g = gen_dir_entry bytes index e in
    let skipped = pack index g.1 es in
    elim g.0 as (λ _. ℕ × List ℕ) [
      | none ↦ skipped
      | some required ↦
          let next = pack (index + (required + 1)) g.1 es in
          if leb 239 (required + index) then (index, g.1) else next
    ]

-- From the first entry that is wanted on.
unfoldable pub list_packed : Transaction → FileEnv → List ℕ → List DirEntry → Transaction
unfolding pack error ack
list_packed response env bytes entries =
    let p = pack 0 bytes entries in
    if p.0 == 0
    then error (record response { bytes = p.1 }) 6 env.errno
    else ack (record response {
      size = p.0;
      bytes = if ltb p.0 239 then take p.0 p.1 ++ zeros (239 - p.0) else p.1;
    })

unfoldable pub list_from : Transaction → Transaction → FileEnv → List DirEntry → Transaction
unfolding burn list_packed error
list_from request response env entries =
    let b = burn request.offset response.bytes entries in
    elim b.0 [
      | none ↦ error (record response { bytes = b.1 }) 6 env.errno
      | some left ↦ list_packed response env b.1 left
    ]

-- `list_dir`
unfoldable pub list_dir : Transaction → Transaction → FileEnv → Transaction
unfolding list_from check_name_len error
list_dir request reply env =
    let response = record reply { offset = request.offset } in
    if not (check_name_len request) then error response 3 env.errno else elim env.directory [
      | none ↦ error response 2 env.errno
      | some entries ↦ list_from request response env entries
    ]

-- CalcFileCRC32
unfoldable pub calc_crc : Session → Transaction → Transaction → FileEnv → Handled
unfolding answered error ack check_name_len overwrite
calc_crc s request reply env =
    if not (check_name_len request) then answered s (error reply 3 env.errno) else elim env.crc [
      | none ↦ answered s (error reply 2 env.errno)
      | some checksum ↦
          answered s
            (ack (record reply { size = 4; bytes = overwrite (le_bytes 4 checksum) (zeros 239) }))
    ]

-- The requests that have to do with the content of an open file.
unfoldable pub file_request : Session → Transaction → Transaction → FileEnv → Handled
unfolding on_file read_bytes write_bytes burst_read is_reading
file_request s request reply env =
    if request.opcode == 5
    then on_file s reply env (is_reading s.mode) (read_bytes s request reply env)
    else if request.opcode == 7
    then on_file s reply env (not (is_reading s.mode)) (write_bytes s request reply env)
    else on_file s reply env (is_reading s.mode) (burst_read s request reply env)

-- The requests that name a path.
unfoldable pub path_request : Session → Transaction → Transaction → FileEnv → Handled
unfolding answered open_ro open_wo on_path calc_crc rename list_dir
path_request s request reply env =
    if request.opcode == 3
    then answered s (list_dir request reply env)
    else if request.opcode == 4
    then open_ro s request reply env
    else if request.opcode == 6 || request.opcode == 11
    then open_wo s request reply env
    else if request.opcode == 9
    then on_path request s reply env env.makes
    else if request.opcode == 8 || request.opcode == 10
    then on_path request s reply env env.unlinks
    else if request.opcode == 14
    then calc_crc s request reply env
    else rename s request reply env

unfoldable pub is_file_request : ℕ → Bool
is_file_request opcode = opcode == 5 || (opcode == 7 || opcode == 15)

unfoldable pub is_path_request : ℕ → Bool
is_path_request opcode =
    (leb 3 opcode && ltb opcode 5)
    || (opcode == 6 || ((leb 8 opcode && ltb opcode 12) || (leb 13 opcode && ltb opcode 15)))

unfoldable pub handle_request : Session → Transaction → Transaction → FileEnv → Handled
unfolding answered error ack close file_request path_request is_file_request is_path_request
handle_request s request reply env =
    if ltb 239 request.size
    then answered s (error reply 3 env.errno)
    else if request.opcode == 0
    then answered s (ack reply)
    else if request.opcode == 1
    then record (answered (close s) (ack reply)) { closed = s.fd }
    else if is_file_request request.opcode
    then file_request s request reply env
    else if is_path_request request.opcode
    then path_request s request reply env
    else if request.opcode == 128 || request.opcode == 129
    then record (answered s reply) { skip = true }
    else answered s (error reply 1 env.errno)
