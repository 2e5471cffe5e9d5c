-- ===== src/Mission/Calls.antt =====
-- The calls that reach a protocol.
use pq_key_establishment_mav.Base.{ℕ, ◌^◌, ◌<◌, Bool}
use pq_key_establishment_mav.Mission.{
  Item, Sender, Env, Backend, Protocol, Done, queued_request_send, update,
}
use pq_key_establishment_mav.Mission.Handlers.{
  handle_mission_clear_all, handle_mission_count, handle_mission_request_list,
  handle_mission_request_int, handle_mission_request, handle_mission_write_partial_list,
  receive_mission_item,
}

pub data Request : Type 0 where
  clear_all request_list : Request
  count request_int request : ℕ → Request
  write_partial : ℕ → ℕ → Request
  item : Bool → Item → Request

pub data Call : Type 0 where
  receives : Sender → Request → Call
  updates queued : Call

module _ {S : Type 0} (b : Backend S) where
  unfoldable pub answer : Env → Protocol S → Sender → Request → Done S
  answer e p m clear_all = handle_mission_clear_all b e p m
  answer e p m request_list = handle_mission_request_list b e p m
  answer e p m (count n) = handle_mission_count b e p m n
  answer e p m (request_int seq) = handle_mission_request_int b e p m seq
  answer e p m (request seq) = handle_mission_request b e p m seq
  answer e p m (write_partial first last) = handle_mission_write_partial_list b e p m first last
  answer e p m (item old cmd) = receive_mission_item b e p m old cmd

  unfoldable pub step : Env → Protocol S → Call → Done S
  unfolding answer
  step e p (receives m r) = answer e p m r
  step e p updates = update b e p
  step e p queued = queued_request_send b e p

-- The fields of a message are 16 bits wide.
abbrev pub IsRequest : Request → Type 0
IsRequest (count n) = n < 2 ^ 16
IsRequest r = Unit {0}

abbrev pub IsCall : Call → Type 0
IsCall (receives m r) = IsRequest r
IsCall c = Unit {0}
