-- ===== src/Routing.antt =====
-- GCS_MAVLink/MAVLink_routing.h and MAVLink_routing.cpp: the route table, what it learns, and on
-- which links a message is sent on. A channel is its number; the array of routes up to
-- `num_routes` is a list, and the type of a slot that was never used is 0.
pub mod Links
pub mod Table
pub mod Forward
pub mod Tests
use pq_key_establishment_mav.Base.{
  ℕ, zero, suc, ◌+◌, ◌-◌, ◌==◌, if◌then◌else◌, ltb, leb, min, List, [], ◌∷◌, ◌++◌, length, Bool,
  true, false, ◌&&◌, ◌||◌, not, Option, none, some, get_or,
}

-- mavlink_message_t
pub record Message : Type 0 where
  pub msgid : ℕ
  pub sysid : ℕ
  pub compid : ℕ
  pub len : ℕ
  pub payload : List ℕ

-- mavlink_msg_entry_t; the two Booleans are the flags that say which targets a message has.
pub record MsgEntry : Type 0 where
  pub min_msg_len : ℕ
  pub max_msg_len : ℕ
  pub crc_extra : ℕ
  pub have_target_system : Bool
  pub target_system_ofs : ℕ
  pub have_target_component : Bool
  pub target_component_ofs : ℕ

-- A backend: its channel, whether that is private, and `check_payload_size`.
pub record Link : Type 0 where
  pub chan : ℕ
  pub is_private : Bool
  pub check_payload_size : ℕ → Bool

-- What the table reads from outside: the identity of the vehicle, constants and the table of
-- messages of generated headers, the backends, their masks (sets of channels) and the room of each.
-- `solo_gimbal` is the build option, `adsb` says that ADSB packets have their own stream.
pub record Net : Type 0 where
  pub sysid : ℕ
  pub compid : ℕ
  pub radio : ℕ
  pub radio_status : ℕ
  pub heartbeat : ℕ
  pub adsb_vehicle : ℕ
  pub gopro_heartbeat : ℕ
  pub msg_entry : ℕ → Option MsgEntry
  pub heartbeat_type : Message → ℕ
  pub chan : ℕ → Option Link
  pub num_buffers : ℕ
  pub active_channel_mask : ℕ → Bool
  pub private_channel_mask : ℕ → Bool
  pub txspace : ℕ → ℕ
  pub packet_overhead : ℕ → ℕ
  pub adsb : Bool
  pub solo_gimbal : Bool

pub record Route : Type 0 where
  pub sysid : ℕ
  pub compid : ℕ
  pub channel : ℕ
  pub mavtype : ℕ

pub record Routing : Type 0 where
  pub routes : List Route
  pub no_route_mask : ℕ → Bool
  pub gopro_status_check : Bool

abbrev pub max_routes : ℕ
max_routes = 20

unfoldable pub is_route : Message → ℕ → Route → Bool
is_route m ch r = r.sysid == m.sysid && (r.compid == m.compid && r.channel == ch)

-- The first route of the sender on the channel, whose unknown type a heartbeat fills in; `none`
-- if there is no such route.
unfoldable pub refresh : Net → Message → ℕ → List Route → Option (List Route)
unfolding is_route
refresh n m ch [] = none
refresh n m ch (r ∷ rs) =
    let rest = refresh n m ch rs in
    if is_route m ch r
    then (if r.mavtype == 0 && m.msgid == n.heartbeat
        then some (record r { mavtype = n.heartbeat_type m } ∷ rs)
        else some (r ∷ rs))
    else elim rest as (λ _. Option (List Route)) [ none ↦ none | some rs' ↦ some (r ∷ rs') ]

unfoldable pub append_route : Net → Message → ℕ → List Route → List Route
append_route n m ch rs =
    if ltb (length rs) max_routes
    then rs
      ++ record {
        sysid = m.sysid;
        compid = m.compid;
        channel = ch;
        mavtype = if m.msgid == n.heartbeat then n.heartbeat_type m else 0;
      }
        ∷ []
    else rs

unfoldable pub learned : Net → Message → ℕ → List Route → Option (List Route) → List Route
learned n m ch rs none = append_route n m ch rs
learned n m ch rs (some rs') = rs'

-- A sender for which no route is learned: the broadcast system, the vehicle itself, and the
-- broadcast component of its own system.
unfoldable pub is_unroutable : Net → Message → Bool
is_unroutable n m = m.sysid == 0 || (m.sysid == n.sysid && (m.compid == n.compid || m.compid == 0))

-- `MAVLink_routing::learn_route`
unfoldable pub learn_route : Net → Link → Message → Routing → Routing
unfolding is_unroutable refresh learned append_route
learn_route n l m t =
    if is_unroutable n m
    then t
    else record t { routes = learned n m l.chan t.routes (refresh n m l.chan t.routes) }

-- A target that a message names; `none` is the -1 of the code.
unfoldable pub is_broadcast : Option ℕ → Bool
is_broadcast none = true
is_broadcast (some x) = x == 0

unfoldable pub is_target : Option ℕ → ℕ → Bool
is_target none y = false
is_target (some x) y = x == y

unfoldable pub targets_of : Message → Option MsgEntry → Option ℕ × Option ℕ
targets_of m none = (none, none)
targets_of m (some e) = (
  if e.have_target_system then some (get_or m.payload e.target_system_ofs 0) else none,
  if e.have_target_component then some (get_or m.payload e.target_component_ofs 0) else none,
)

-- `MAVLink_routing::get_targets`
unfoldable pub get_targets : Net → Message → Option ℕ × Option ℕ
unfolding targets_of
get_targets n m = targets_of m (n.msg_entry m.msgid)
