-- ===== src/Param.antt =====
-- GCS_MAVLink/GCS_Param.cpp: the download of all parameters, the queue of single requests, and the
-- rates of the streams; and from GCS_Common.cpp the slowdown that a radio link asks for. The library
-- that holds the parameters is an argument; a value is the 32 bits of its float, an index of 65535
-- is -1. Logging and texts are left out, and so is `mav_param_type`, which renames the type.
pub mod Download
pub mod Queues
pub mod Rates
pub mod Setting
pub mod Tests
use pq_key_establishment_mav.Base.{
  ℕ, zero, suc, ◌+◌, ◌-◌, ◌*◌, ◌/◌, ◌==◌, if◌then◌else◌, ltb, leb, length, take, List, [], ◌∷◌,
  ◌++◌, Bool, true, false, ◌&&◌, not, Option, none, some,
}
use pq_key_establishment_mav.Base.Bytes.{u16, u32, sub32, zeros}

-- What the code uses of AP_Param: a cursor stands for a parameter with the token to go on from it.
pub record ParamLibrary (Cursor : Type 0) : Type 0 where
  pub first : Option Cursor
  pub next_scalar : Cursor → Option Cursor
  pub name_of : Cursor → List ℕ
  pub value_of : Cursor → ℕ
  pub type_of : Cursor → ℕ
  pub find_by_index : ℕ → Option Cursor
  pub find : List ℕ → Option Cursor
  pub count_parameters : ℕ

-- The message PARAM_VALUE, and `pending_param_reply`.
pub record ParamValue : Type 0 where
  pub chan : ℕ
  pub name : List ℕ
  pub value : ℕ
  pub p_type : ℕ
  pub count : ℕ
  pub index : ℕ

pub record PendingParamRequest : Type 0 where
  pub chan : ℕ
  pub param_index : ℕ
  pub param_name : List ℕ

-- The fields of a link.
pub record ParamLink (Cursor : Type 0) : Type 0 where
  pub chan : ℕ
  pub queued : Option Cursor
  pub index : ℕ
  pub count : ℕ
  pub send_time : ℕ
  pub reserve_start : ℕ

-- The two queues that all links share.
pub record ParamQueues : Type 0 where
  pub requests : List PendingParamRequest
  pub replies : List ParamValue
  pub timer_registered : Bool

-- What sending meets: clock, bandwidth, the size of one message, the room, flow control, whether
-- there is room for the `i`th reply, whether the radio takes the `i`th parameter, and whether
-- more than 1 ms is over after it.
pub record SendEnv : Type 0 where
  pub now : ℕ
  pub bandwidth : ℕ
  pub message_size : ℕ
  pub txspace : ℕ
  pub flow_control : Bool
  pub reply_room : ℕ → Bool
  pub txbuf_ok : ℕ → Bool
  pub slow : ℕ → Bool

pub record Async : Type 0 where
  pub sent : List ParamValue
  pub left : List ParamValue
  pub reserve_start : ℕ

-- `send_parameter_async_replies`, with the rounds of its loop that are left.
unfoldable pub async_replies : SendEnv → (rounds i reserve : ℕ) → List ParamValue → Async
async_replies env zero i reserve replies = record {
  sent = [];
  left = replies;
  reserve_start = reserve;
}
async_replies env (suc rounds) i reserve [] = record {
  sent = [];
  left = [];
  reserve_start = reserve;
}
async_replies env (suc rounds) i reserve (q ∷ qs) =
    let rest = async_replies env rounds (i + 1) reserve qs in
    if env.reply_room i
    then record { sent = q ∷ rest.sent; left = rest.left; reserve_start = rest.reserve_start }
    else record { sent = []; left = q ∷ qs; reserve_start = env.now }

-- The number of messages that the bandwidth allows, `since` being the time of the last one.
unfoldable pub param_budget : SendEnv → ℕ → ℕ
param_budget env since =
    let share = u32 (env.bandwidth * sub32 env.now since) / 3333 in
    let at_least = if ltb share env.message_size then env.message_size else share in
    let allowed = if ltb env.txspace at_least then env.txspace else at_least in
    let count = allowed / env.message_size in
    if not env.flow_control && ltb 5 count then 5 else count

unfoldable pub is_queued {ℓ} : {A : Type ℓ} → Option A → Bool
is_queued none = false
is_queued (some p) = true

-- strncpy: up to the first 0, then zeros.
unfoldable pub strncpy : ℕ → List ℕ → List ℕ
strncpy zero text = []
strncpy (suc n) [] = 0 ∷ strncpy n []
strncpy (suc n) (b ∷ bs) = let rest = strncpy n bs in if b == 0 then zeros (suc n) else b ∷ rest

module _ {Cursor : Type 0} (lib : ParamLibrary Cursor) where
  -- One parameter of the download.
  unfoldable pub value_message : ℕ → ℕ → Cursor → ℕ → ParamValue
  value_message chan count p index = record {
    chan = chan;
    name = lib.name_of p;
    value = lib.value_of p;
    p_type = lib.type_of p;
    count = count;
    index = index;
  }

  -- The loop of `queued_param_send`: what is sent, and the parameter and index it stops at.
  unfoldable pub stream_params :
      SendEnv → (chan count rounds i : ℕ) → Option Cursor → ℕ → List ParamValue × Option Cursor × ℕ
  unfolding value_message
  stream_params env chan count zero i p index = ([], p, index)
  stream_params env chan count (suc rounds) i none index = ([], none, index)
  stream_params env chan count (suc rounds) i (some p) index =
      let m = value_message chan count p index in
      let rest =
        stream_params env chan count rounds (i + 1) (lib.next_scalar p) (u16 (index + 1)) in
      if not (env.txbuf_ok i)
      then ([], some p, index)
      else if env.slow i
      then (m ∷ [], lib.next_scalar p, u16 (index + 1))
      else (m ∷ rest.0, rest.1, rest.2)

  -- `handle_param_request_list`; `ready` is what `params_ready` says.
  unfoldable pub handle_param_request_list : Bool → ℕ → ParamLink Cursor → ParamLink Cursor
  handle_param_request_list ready now link = if not ready then link else record link {
    queued = lib.first;
    index = 0;
    count = lib.count_parameters;
    send_time = now;
  }

  -- `param_io_timer`, on the request that it takes off the queue.
  unfoldable pub lookup : PendingParamRequest → Option Cursor
  lookup req =
      if not (req.param_index == 65535)
      then lib.find_by_index req.param_index
      else lib.find req.param_name

  unfoldable pub reply_to : PendingParamRequest → Cursor → ParamValue
  unfolding strncpy
  reply_to req p = record {
    chan = req.chan;
    name =
        if not (req.param_index == 65535)
        then take 16 (lib.name_of p) ++ (0 ∷ [])
        else strncpy 16 req.param_name ++ (0 ∷ []);
    value = lib.value_of p;
    p_type = lib.type_of p;
    count = lib.count_parameters;
    index = req.param_index;
  }

  unfoldable pub answer_request :
      ParamQueues → PendingParamRequest → List PendingParamRequest → ParamQueues
  unfolding lookup reply_to
  answer_request q req rest = elim (lookup req) [
    | none ↦ record q { requests = rest }
    | some p ↦ record q { requests = rest; replies = q.replies ++ (reply_to req p ∷ []) }
  ]

  unfoldable pub io_timer_on : ParamQueues → List PendingParamRequest → ParamQueues
  unfolding answer_request
  io_timer_on q [] = q
  io_timer_on q (req ∷ rest) = answer_request q req rest

  unfoldable pub param_io_timer : ParamQueues → ParamQueues
  unfolding io_timer_on
  param_io_timer q = if leb 5 (length q.replies) then q else io_timer_on q q.requests

  -- What a call of `queued_param_send` leaves, and what it sends: replies, then the download.
  pub record Sent : Type 0 where
    pub link : ParamLink Cursor
    pub queues : ParamQueues
    pub answers : List ParamValue
    pub streamed : List ParamValue

  -- After the replies; `since` is the time of the last message.
  unfoldable pub send_stream :
      SendEnv → ParamLink Cursor → ℕ → ℕ → ParamLink Cursor × List ParamValue
  unfolding stream_params param_budget
  send_stream env link since answered =
      let count = param_budget env since in
      let s = stream_params env link.chan link.count (count - answered) 0 link.queued link.index in
      if leb count answered
      then (record link { send_time = since }, [])
      else (record link { queued = s.1; index = s.2; send_time = env.now }, s.0)

  unfoldable pub queued_param_send : SendEnv → ParamLink Cursor → ParamQueues → Sent
  unfolding async_replies send_stream is_queued
  queued_param_send env link q =
      let a = async_replies env 5 0 link.reserve_start q.replies in
      let since = if length a.sent == 0 then link.send_time else env.now in
      let reserved = record link { reserve_start = a.reserve_start } in
      let s = send_stream env reserved since (length a.sent) in
      record {
        link = if is_queued link.queued then s.0 else record reserved { send_time = since };
        queues = record q { replies = a.left };
        answers = a.sent;
        streamed = if is_queued link.queued then s.1 else [];
      }

  -- `handle_param_request_read`; `room` says whether a reply would fit now.
  unfoldable pub handle_param_request_read :
      PendingParamRequest
      → Bool
      → ℕ
      → ParamLink Cursor
      → ParamQueues
      → ParamLink Cursor × ParamQueues
  handle_param_request_read m room now link q =
      let req : PendingParamRequest = record {
        chan = link.chan;
        param_index = m.param_index;
        param_name = take 16 m.param_name ++ (0 ∷ []);
      } in
      if leb 20 (length q.requests) then (link, q) else (
        if room then link else record link { reserve_start = now },
        record q { requests = q.requests ++ (req ∷ []); timer_registered = true },
      )
