-- ===== src/Mission.antt =====
-- GCS_MAVLink/MissionItemProtocol.h and MissionItemProtocol.cpp: the state of a transfer of mission
-- items and the messages that it answers. The virtual methods of a subclass and the items that it
-- stores are a `Backend` over a state of its own.
pub mod Handlers
pub mod Calls
pub mod Invariant
pub mod Answers
pub mod Steps
pub mod Lock
pub mod Upload
pub mod Arrival
pub mod Stored
pub mod Progress
pub mod Tests
use pq_key_establishment_mav.Base.{
  ℕ, ◌+◌, ◌==◌, if◌then◌else◌, ltb, List, [], ◌∷◌, ◌++◌, Bool, true, false, ◌&&◌, ◌||◌, not, Option,
  none, some,
}
use pq_key_establishment_mav.Base.Bytes.{u16, u32, sub32}

-- MAV_MISSION_RESULT; `failed` stands for the results that only a backend gives.
pub data MissionResult : Type 0 where
  accepted error unsupported no_space invalid_sequence denied operation_cancelled : MissionResult
  failed : ℕ → MissionResult

unfoldable pub is_accepted : MissionResult → Bool
is_accepted accepted = true
is_accepted _ = false

unfoldable pub is_invalid_sequence : MissionResult → Bool
is_invalid_sequence invalid_sequence = true
is_invalid_sequence _ = false

-- mavlink_mission_item_int_t: the number and the rest of its fields; the target stands in the
-- message that carries it.
pub record Item : Type 0 where
  pub seq : ℕ
  pub content : List ℕ

-- The header of a message and the channel it came on.
pub record Sender : Type 0 where
  pub chan : ℕ
  pub sysid : ℕ
  pub compid : ℕ

-- What the protocol sends; `next_item` queues a request, `internal_error` reports one.
pub data Out : Type 0 where
  mission_ack : (chan sysid compid : ℕ) → MissionResult → Out
  mission_count : (chan sysid compid count : ℕ) → Out
  mission_request : (chan sysid compid seq : ℕ) → Out
  mission_item_int : (chan sysid compid : ℕ) → Item → Out
  mission_item : (chan sysid compid : ℕ) → Item → Out
  next_item : ℕ → Out
  internal_error : Out

-- What the code reads outside: the clock, the room on a channel for the three messages, whether a
-- link sends MAVLink 1, its slow-down, and the conversion to the older kind of item.
pub record Env : Type 0 where
  pub now : ℕ
  pub ack_space : ℕ → Bool
  pub count_space : ℕ → Bool
  pub request_space : ℕ → Bool
  pub sending_mavlink1 : ℕ → Bool
  pub stream_slowdown_ms : ℕ → ℕ
  pub to_mission_item : Item → MissionResult × Item

-- The virtual methods of a subclass, over its state; `item_count` also reads `receiving`.
pub record Backend (S : Type 0) : Type 0 where
  pub is_mission : Bool
  pub clear_all_items : S → Bool × S
  pub truncate : ℕ → S → S
  pub get_item : ℕ → S → MissionResult × Item
  pub allocate_receive_resources : ℕ → S → MissionResult × S
  pub allocate_update_resources : S → MissionResult × S
  pub free_upload_resources : S → S
  pub item_count : Bool → S → ℕ
  pub max_items : S → ℕ
  pub replace_item : Item → S → MissionResult × S
  pub append_item : Item → S → MissionResult × S
  pub complete : S → MissionResult × S
  pub timeout : S → S

-- `link` is the channel of the link, if there is one.
pub record Protocol (S : Type 0) : Type 0 where
  pub receiving : Bool
  pub link : Option ℕ
  pub request_i : ℕ
  pub request_last : ℕ
  pub dest_sysid : ℕ
  pub dest_compid : ℕ
  pub timelast_receive_ms : ℕ
  pub timelast_request_ms : ℕ
  pub mission_request_warning_sent : Bool
  pub mission_item_warning_sent : Bool
  pub store : S

-- What an operation leaves and sends.
pub record Done (S : Type 0) : Type 0 where
  pub protocol : Protocol S
  pub out : List Out

unfoldable pub done : {S : Type 0} → Protocol S → List Out → Done S
done p out = record { protocol = p; out = out }

-- `send_mission_ack` on a link.
unfoldable pub send_mission_ack : Env → Sender → MissionResult → List Out
send_mission_ack e m result =
    if e.ack_space m.chan then mission_ack m.chan m.sysid m.compid result ∷ [] else []

-- `send_mission_ack` on the link of the transfer.
unfoldable pub ack_on_link : Env → Option ℕ → Sender → MissionResult → List Out
unfolding send_mission_ack
ack_on_link e none m result = internal_error ∷ []
ack_on_link e (some chan) m result = send_mission_ack e (record m { chan = chan }) result

module _ {S : Type 0} (b : Backend S) where
  unfoldable pub with_store : Protocol S → S → Protocol S
  with_store p s = record p { store = s }

  -- The end of a transfer: resources freed, not receiving, no link.
  unfoldable pub stop : Protocol S → Protocol S
  stop p = record p { store = b.free_upload_resources p.store; receiving = false; link = none }

  -- `mavlink2_requirement_met`
  unfoldable pub mavlink2_requirement_met : Env → Sender → Bool
  mavlink2_requirement_met e m = b.is_mission || not (e.sending_mavlink1 m.chan)

  unfoldable pub is_owner : Protocol S → Sender → Bool
  is_owner p m = m.sysid == p.dest_sysid && m.compid == p.dest_compid

  -- `cancel_upload`: the result and what it leaves.
  unfoldable pub cancel_upload : Env → Protocol S → Sender → Bool × Done S
  unfolding stop is_owner send_mission_ack done
  cancel_upload e p m =
      if not p.receiving
      then (true, done p [])
      else if not (is_owner p m)
      then (false, done p (send_mission_ack e m denied))
      else (true, done (stop p) [])

  -- `init_send_requests`
  unfoldable pub init_send_requests : Env → Protocol S → Sender → ℕ → ℕ → Done S
  unfolding done
  init_send_requests e p m first last =
      done
        (record p {
          timelast_receive_ms = e.now;
          receiving = true;
          request_i = first;
          request_last = last;
          dest_sysid = m.sysid;
          dest_compid = m.compid;
          link = some m.chan;
          timelast_request_ms = e.now;
          mission_item_warning_sent = false;
          mission_request_warning_sent = false;
        })
        (next_item m.chan ∷ [])

  -- `transfer_is_complete`
  unfoldable pub transfer_is_complete : Env → Protocol S → Sender → Done S
  unfolding done with_store stop send_mission_ack
  transfer_is_complete e p m =
      let r = b.complete p.store in done (stop (with_store p r.1)) (send_mission_ack e m r.0)

  -- The request for the next item on a channel, if it has room.
  unfoldable pub request_on : Env → Protocol S → Option ℕ → Done S
  unfolding done
  request_on e p none = done p (internal_error ∷ [])
  request_on e p (some chan) =
      if e.request_space chan
      then done (record p { timelast_request_ms = e.now })
          (mission_request chan p.dest_sysid p.dest_compid p.request_i ∷ [])
      else done p []

  -- `queued_request_send`
  unfoldable pub queued_request_send : Env → Protocol S → Done S
  unfolding request_on done
  queued_request_send e p =
      if not p.receiving
      then done p []
      else if ltb p.request_last p.request_i
      then done p []
      else request_on e p p.link

  -- `update` with a link.
  unfoldable pub update_on : Env → Protocol S → Option ℕ → Done S
  unfolding done stop with_store
  update_on e p none = done p (internal_error ∷ [])
  update_on e p (some chan) =
      if ltb 8000 (sub32 e.now p.timelast_receive_ms)
      then done (stop (with_store p (b.timeout p.store))) (
          if e.ack_space chan
          then mission_ack chan p.dest_sysid p.dest_compid operation_cancelled ∷ []
          else [])
      else if ltb (u32 (1000 + e.stream_slowdown_ms chan)) (sub32 e.now p.timelast_request_ms)
      then done (record p { timelast_request_ms = e.now }) (next_item chan ∷ [])
      else done p []

  -- `update`
  unfoldable pub update : Env → Protocol S → Done S
  unfolding update_on done
  update e p = if not p.receiving then done p [] else update_on e p p.link
