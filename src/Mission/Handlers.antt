-- ===== src/Mission/Handlers.antt =====
-- GCS_MAVLink/MissionItemProtocol.cpp: the handlers of the mission messages, and the guard before
-- `handle_mission_item` in GCS_MAVLink/GCS_Common.cpp.
use pq_key_establishment_mav.Base.{
  ℕ, ◌+◌, ◌-◌, ◌==◌, if◌then◌else◌, ltb, List, [], ◌∷◌, ◌++◌, Bool, true, ◌||◌, not, Option, none,
  some,
}
use pq_key_establishment_mav.Base.Bytes.{u16}
use pq_key_establishment_mav.Mission.{
  MissionResult, accepted, error, unsupported, no_space, invalid_sequence, denied, is_accepted,
  is_invalid_sequence, Item, Sender, Out, mission_count, mission_item_int, mission_item, next_item,
  internal_error, Env, Backend, Protocol, Done, done, send_mission_ack, ack_on_link, with_store,
  stop, mavlink2_requirement_met, cancel_upload, init_send_requests, transfer_is_complete,
  queued_request_send,
}

module _ {S : Type 0} (b : Backend S) where
  -- A message for which the link would have to send MAVLink 2.
  unfoldable pub with_mavlink2 : Env → Protocol S → Sender → Done S → Done S
  unfolding mavlink2_requirement_met done send_mission_ack
  with_mavlink2 e p m next =
      if mavlink2_requirement_met b e m then next else done p (send_mission_ack e m unsupported)

  unfoldable pub clear_cancelled : Env → Sender → Bool × Done S → Done S
  unfolding done with_store send_mission_ack
  clear_cancelled e m (cancelled, r) =
      let cleared = b.clear_all_items r.protocol.store in
      if cancelled
      then done (with_store b r.protocol cleared.1)
          (r.out ++ send_mission_ack e m (if cleared.0 then accepted else error))
      else done r.protocol (r.out ++ send_mission_ack e m error)

  -- `handle_mission_clear_all`
  unfoldable pub handle_mission_clear_all : Env → Protocol S → Sender → Done S
  unfolding clear_cancelled cancel_upload
  handle_mission_clear_all e p m = clear_cancelled e m (cancel_upload b e p m)

  -- `handle_mission_count` from the allocation on.
  unfoldable pub count_allocated : Env → Protocol S → Sender → ℕ → MissionResult × S → Done S
  unfolding done with_store send_mission_ack transfer_is_complete init_send_requests is_accepted
  count_allocated e p m count (result, s) =
      let p' = with_store b p (b.truncate count s) in
      if not (is_accepted result)
      then done (with_store b p s) (send_mission_ack e m result)
      else if count == 0
      then transfer_is_complete b e p' m
      else init_send_requests b e p' m 0 (count - 1)

  unfoldable pub count_cancelled : Env → Sender → ℕ → Bool × Done S → Done S
  unfolding count_allocated done send_mission_ack
  count_cancelled e m count (cancelled, r) =
      if not cancelled
      then r
      else if ltb (b.max_items r.protocol.store) count
      then done r.protocol (send_mission_ack e m no_space)
      else count_allocated e r.protocol m count
          (b.allocate_receive_resources count r.protocol.store)

  -- `handle_mission_count`
  unfoldable pub handle_mission_count : Env → Protocol S → Sender → ℕ → Done S
  unfolding with_mavlink2 count_cancelled cancel_upload
  handle_mission_count e p m count =
      with_mavlink2 e p m (count_cancelled e m count (cancel_upload b e p m))

  unfoldable pub send_count : Env → Protocol S → Sender → List Out
  send_count e p m =
      if e.count_space m.chan
      then mission_count m.chan m.sysid m.compid (b.item_count p.receiving p.store) ∷ []
      else []

  -- `handle_mission_request_list`
  unfoldable pub handle_mission_request_list : Env → Protocol S → Sender → Done S
  unfolding with_mavlink2 send_count done send_mission_ack
  handle_mission_request_list e p m =
      with_mavlink2 e p m
        (if p.receiving then done p (send_mission_ack e m denied) else done p (send_count e p m))

  unfoldable pub answer_item : Env → Protocol S → Sender → MissionResult × Item → Done S
  unfolding done send_count send_mission_ack is_accepted is_invalid_sequence
  answer_item e p m (result, item) =
      if is_accepted result
      then done p (mission_item_int m.chan m.sysid m.compid item ∷ [])
      else done p (
          (if is_invalid_sequence result then send_count e p m else [])
          ++ send_mission_ack e m result)

  -- `handle_mission_request_int`
  unfoldable pub handle_mission_request_int : Env → Protocol S → Sender → ℕ → Done S
  unfolding with_mavlink2 answer_item done send_mission_ack
  handle_mission_request_int e p m seq = with_mavlink2 e p m (
      if p.receiving
      then done p (send_mission_ack e m denied)
      else answer_item e p m (b.get_item seq p.store))

  unfoldable pub answer_converted : Env → Protocol S → Sender → MissionResult × Item → Done S
  unfolding done send_mission_ack is_accepted
  answer_converted e p m (result, item) =
      if is_accepted result
      then done (record p { mission_request_warning_sent = true })
          (mission_item m.chan m.sysid m.compid item ∷ [])
      else done p (send_mission_ack e m result)

  unfoldable pub answer_old : Env → Protocol S → Sender → MissionResult × Item → Done S
  unfolding answer_converted done send_mission_ack is_accepted
  answer_old e p m (result, item) =
      if is_accepted result
      then answer_converted e p m (e.to_mission_item item)
      else done p (send_mission_ack e m result)

  -- `handle_mission_request`
  unfoldable pub handle_mission_request : Env → Protocol S → Sender → ℕ → Done S
  unfolding with_mavlink2 answer_old
  handle_mission_request e p m seq = with_mavlink2 e p m (answer_old e p m (b.get_item seq p.store))

  unfoldable pub partial_allocated : Env → Protocol S → Sender → ℕ → ℕ → MissionResult × S → Done S
  unfolding done with_store send_mission_ack init_send_requests is_accepted
  partial_allocated e p m first last (result, s) =
      if is_accepted result
      then init_send_requests b e (with_store b p s) m first last
      else done (with_store b p s) (send_mission_ack e m result)

  -- The indices are 16-bit signed: a negative one, from 2 ^ 15 on, is beyond every count.
  unfoldable pub is_bad_range : ℕ → ℕ → ℕ → Bool
  is_bad_range count first last =
      (ltb 32767 first || ltb count first) || ((ltb 32767 last || ltb count last) || ltb last first)

  -- `handle_mission_write_partial_list`
  unfoldable pub handle_mission_write_partial_list : Env → Protocol S → Sender → ℕ → ℕ → Done S
  unfolding with_mavlink2 partial_allocated is_bad_range done send_mission_ack
  handle_mission_write_partial_list e p m first last = with_mavlink2 e p m (
      if p.receiving
      then done p (send_mission_ack e m denied)
      else if is_bad_range (b.item_count p.receiving p.store) first last
      then done p (send_mission_ack e m error)
      else partial_allocated e p m first last (b.allocate_update_resources p.store))

  -- Where an item goes: over an old one, to the end, or nowhere.
  unfoldable pub write_item : Bool → Item → S → MissionResult × S
  write_item receiving cmd s =
      if ltb cmd.seq (b.item_count receiving s)
      then b.replace_item cmd s
      else if cmd.seq == b.item_count receiving s
      then b.append_item cmd s
      else (error, s)

  -- After the item was written, on the link `chan`.
  unfoldable pub item_written : Env → Protocol S → Sender → ℕ → MissionResult × S → Done S
  unfolding done with_store stop send_mission_ack transfer_is_complete queued_request_send
      is_accepted
  item_written e p m chan (result, s) =
      let m' = record m { chan = chan } in
      let p' = record p {
        store = s;
        timelast_receive_ms = e.now;
        request_i = u16 (p.request_i + 1);
      } in
      if not (is_accepted result)
      then done (stop b (with_store b p s)) (send_mission_ack e m' result)
      else if ltb p'.request_last p'.request_i
      then transfer_is_complete b e p' m'
      else if e.request_space chan
      then queued_request_send b e p'
      else done p' (next_item chan ∷ [])

  unfoldable pub item_on : Env → Protocol S → Sender → Item → Option ℕ → Done S
  unfolding item_written write_item done ack_on_link
  item_on e p m cmd none = done p (internal_error ∷ [])
  item_on e p m cmd (some chan) =
      if not (cmd.seq == p.request_i)
      then done p (ack_on_link e (some chan) m invalid_sequence)
      else if not (m.sysid == p.dest_sysid)
      then done p (ack_on_link e (some chan) m denied)
      else if not (m.compid == p.dest_compid)
      then done p (ack_on_link e (some chan) m denied)
      else item_written e p m chan (write_item p.receiving cmd p.store)

  -- `MissionItemProtocol::handle_mission_item`
  unfoldable pub handle_mission_item : Env → Protocol S → Sender → Item → Done S
  unfolding item_on
  handle_mission_item e p m cmd = item_on e p m cmd p.link

  -- `GCS_MAVLINK::handle_mission_item` once the protocol is found; `old` says that the item came as
  -- a MISSION_ITEM, for which the warning of the transfer is sent once.
  unfoldable pub receive_mission_item : Env → Protocol S → Sender → Bool → Item → Done S
  unfolding handle_mission_item done send_mission_ack
  receive_mission_item e p m old cmd =
      let p' = if old then record p { mission_item_warning_sent = true } else p in
      if p.receiving then handle_mission_item e p' m cmd else done p' (send_mission_ack e m error)
