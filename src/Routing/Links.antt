-- ===== src/Routing/Links.antt =====
-- GCS_MAVLink/MAVLink_routing.cpp: on which links a message is sent on.
use pq_key_establishment_mav.Base.{
  ℕ, zero, suc, ◌+◌, ◌==◌, if◌then◌else◌, ltb, leb, min, List, [], ◌∷◌, ◌++◌, Bool, true, false,
  ◌&&◌, ◌||◌, not, Option, none, some,
}
use pq_key_establishment_mav.Routing.{
  Message, MsgEntry, Link, Net, Route, Routing, learn_route, is_broadcast, is_target, get_targets,
}

-- What the loop over the routes has done: the marks `sent_to_chan`, the channels on which the
-- message was sent, and `forwarded`.
pub record Forwarding : Type 0 where
  pub sent_to_chan : ℕ → Bool
  pub out : List ℕ
  pub forwarded : Bool

unfoldable pub mark_sent : (ℕ → Bool) → ℕ → ℕ → Bool
mark_sent sent ch k = if k == ch then true else sent k

-- A link that is private takes only what is addressed to it; any other takes what is for all
-- systems, or for its system and there for all components, for its component, or not for us.
unfoldable pub wants : Net → Option ℕ → Option ℕ → Route → Link → Bool
unfolding is_broadcast is_target
wants n sys comp r out_link =
    not (out_link.is_private && (not (is_target sys r.sysid) || not (is_target comp r.compid)))
    && (is_broadcast sys
        || (is_target sys r.sysid
            && (is_broadcast comp
                || (is_target comp r.compid || not (is_broadcast sys || is_target sys n.sysid)))))

unfoldable pub forward_link :
    Net → Link → Message → Option ℕ → Option ℕ → Route → Option Link → Forwarding → Forwarding
unfolding wants mark_sent
forward_link n l m sys comp r none f = f
forward_link n l m sys comp r (some out_link) f =
    if wants n sys comp r out_link
      && (not (l.chan == out_link.chan) && not (f.sent_to_chan r.channel))
    then record {
      sent_to_chan = mark_sent f.sent_to_chan r.channel;
      out = if out_link.check_payload_size m.len then f.out ++ r.channel ∷ [] else f.out;
      forwarded = true;
    }
    else f

unfoldable pub forward_all :
    Net → Link → Message → Option ℕ → Option ℕ → List Route → Forwarding → Forwarding
unfolding forward_link
forward_all n l m sys comp [] f = f
forward_all n l m sys comp (r ∷ rs) f =
    forward_all n l m sys comp rs (forward_link n l m sys comp r (n.chan r.channel) f)

-- mask &= ~(1U<<channel)
unfoldable pub mask_out : (ℕ → Bool) → ℕ → ℕ → Bool
mask_out mask ch k = if k == ch then false else mask k

-- The channels from which a message of this sender has come are masked out.
unfoldable pub mask_sources : Message → List Route → (ℕ → Bool) → ℕ → Bool
unfolding mask_out
mask_sources m [] mask = mask
mask_sources m (r ∷ rs) mask =
    mask_sources m rs
      (if r.sysid == m.sysid && r.compid == m.compid then mask_out mask r.channel else mask)

-- for (i=0; i<MAVLINK_COMM_NUM_BUFFERS; i++), from channel `i` on, for the rounds left.
unfoldable pub heartbeat_from : Net → Message → (ℕ → Bool) → ℕ → ℕ → List ℕ
heartbeat_from n m mask zero i = []
heartbeat_from n m mask (suc rounds) i =
    let rest = heartbeat_from n m mask rounds (i + 1) in
    if mask i && leb (m.len + n.packet_overhead i) (n.txspace i) then i ∷ rest else rest

-- `MAVLink_routing::handle_heartbeat`: the channels on which the heartbeat is sent on. With an
-- empty mask the loop sends nothing, as the early return does.
unfoldable pub handle_heartbeat : Net → Link → Message → Routing → List ℕ
unfolding mask_out mask_sources heartbeat_from
handle_heartbeat n l m t =
    let mask = λ (k : ℕ).
      mask_out (λ (j : ℕ). n.active_channel_mask j && not (n.private_channel_mask j)) l.chan k
      && not (t.no_route_mask k) in
    heartbeat_from n m (mask_sources m t.routes mask) n.num_buffers 0

-- What `check_and_forward` leaves: the table, the channels it sent on, and its result.
pub record Routed : Type 0 where
  pub routing : Routing
  pub out : List ℕ
  pub process_locally : Bool

-- From the targets on.
unfoldable pub route_targets : Net → Link → Message → Routing → Option ℕ → Option ℕ → Routed
unfolding is_broadcast is_target forward_all
route_targets n l m t sys comp =
    let match_system = is_broadcast sys || is_target sys n.sysid in
    let locally = match_system && (is_broadcast comp || is_target comp n.compid) in
    let f =
      forward_all n l m sys comp t.routes
        (record { sent_to_chan = λ _. false; out = []; forwarded = false }) in
    if l.is_private && not (n.solo_gimbal && t.gopro_status_check)
    then record { routing = t; out = []; process_locally = locally }
    else if locally && (not (is_broadcast sys) && not (is_broadcast comp))
    then record { routing = t; out = []; process_locally = true }
    else record {
      routing = t;
      out = f.out;
      process_locally = locally || ((not f.forwarded && match_system) || is_broadcast sys);
    }

unfoldable pub see_gopro : Net → Message → Routing → Routing
see_gopro n m t =
    if n.solo_gimbal && m.msgid == n.gopro_heartbeat
    then record t { gopro_status_check = true }
    else t

-- `MAVLink_routing::check_and_forward`
unfoldable pub check_and_forward : Net → Link → Message → Routing → Routed
unfolding learn_route handle_heartbeat get_targets route_targets see_gopro
check_and_forward n l m t0 =
    let seen = see_gopro n m t0 in
    let t = learn_route n l m seen in
    let targets = get_targets n m in
    if m.sysid == n.sysid && m.compid == n.compid
    then record { routing = seen; out = []; process_locally = false }
    else if m.msgid == n.radio || m.msgid == n.radio_status
    then record { routing = t; out = []; process_locally = true }
    else if m.msgid == n.heartbeat
    then record {
      routing = t;
      out = if l.is_private then [] else handle_heartbeat n l m t;
      process_locally = true;
    }
    else if m.msgid == n.adsb_vehicle && n.adsb
    then record { routing = t; out = []; process_locally = true }
    else route_targets n l m t targets.0 targets.1

-- The loop of `send_to_components`: the channels, each with the length that is sent.
unfoldable pub components_from : Net → MsgEntry → ℕ → List Route → (ℕ → Bool) → List (ℕ × ℕ)
unfolding mark_sent
components_from n e pkt_len [] sent = []
components_from n e pkt_len (r ∷ rs) sent =
    let skip = components_from n e pkt_len rs sent in
    let rest = components_from n e pkt_len rs (mark_sent sent r.channel) in
    if not (r.sysid == n.sysid)
    then skip
    else if sent r.channel
    then skip
    else if ltb (n.txspace r.channel) (e.max_msg_len + n.packet_overhead r.channel)
    then skip
    else (r.channel, min e.max_msg_len pkt_len) ∷ rest

-- `MAVLink_routing::send_to_components`
unfoldable pub send_to_components : Net → Routing → ℕ → ℕ → List (ℕ × ℕ)
unfolding components_from
send_to_components n t msgid pkt_len = elim (n.msg_entry msgid) [
  | none ↦ []
  | some e ↦ components_from n e pkt_len t.routes (λ _. false)
]

-- `MAVLink_routing::find_by_mavtype` and `find_by_mavtype_and_compid`
unfoldable pub find_by_mavtype : ℕ → List Route → Option Route
find_by_mavtype mavtype [] = none
find_by_mavtype mavtype (r ∷ rs) =
    let rest = find_by_mavtype mavtype rs in if r.mavtype == mavtype then some r else rest

unfoldable pub find_by_mavtype_and_compid : ℕ → ℕ → List Route → Option Route
find_by_mavtype_and_compid mavtype compid [] = none
find_by_mavtype_and_compid mavtype compid (r ∷ rs) =
    let rest = find_by_mavtype_and_compid mavtype compid rs in
    if r.mavtype == mavtype && r.compid == compid then some r else rest
