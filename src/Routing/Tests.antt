-- ===== src/Routing/Tests.antt =====
-- A vehicle with three channels, and the theorems of the route table at concrete inputs.
use pq_key_establishment_mav.Base.{
  ℕ, refl, sym, ap, arith, [], ◌∷◌, true, false, Option, none, some,
}
use pq_key_establishment_mav.Routing.{Message, Link, Net, Route, Routing, learn_route}
use pq_key_establishment_mav.Routing.Links.{check_and_forward}
use pq_key_establishment_mav.Routing.Table.{IsTable, learn_route-IsTable}
use pq_key_establishment_mav.Routing.Forward.{IsNet, IsForward, check_and_forward-IsForward}

abbrev link : ℕ → Link
link k = record { chan = k; is_private = false; check_payload_size = λ len. true }

abbrev net : Net
net = record {
  sysid = 1;
  compid = 1;
  radio = 166;
  radio_status = 109;
  heartbeat = 0;
  adsb_vehicle = 246;
  gopro_heartbeat = 215;
  msg_entry = λ k. none;
  heartbeat_type = λ m. 2;
  chan = λ k. some (link k);
  num_buffers = 3;
  active_channel_mask = λ k. true;
  private_channel_mask = λ k. false;
  txspace = λ k. 300;
  packet_overhead = λ k. 12;
  adsb = false;
  solo_gimbal = false;
}

some_chan : Option Link → ℕ
some_chan none = 0
some_chan (some x) = x.chan

net-IsNet : IsNet net
unfolding some_chan
net-IsNet = record { own_chan = λ k x e. ap some_chan (sym e) }

abbrev station : Route
station = record { sysid = 255; compid = 190; channel = 1; mavtype = 6 }

abbrev camera : Route
camera = record { sysid = 1; compid = 100; channel = 2; mavtype = 30 }

abbrev table : Routing
table = record {
  routes = station ∷ camera ∷ [];
  no_route_mask = λ k. false;
  gopro_status_check = false;
}

abbrev command : Message
command = record { msgid = 76; sysid = 254; compid = 190; len = 33; payload = [] }

table-IsTable : IsTable net table.routes
table-IsTable = record {
  bounded = omega arith;
  routable = (refl, (refl, tt));
  distinct = (refl, (refl, tt));
}

learn_route-IsTable_example : IsTable net (learn_route net (link 0) command table).routes
learn_route-IsTable_example = learn_route-IsTable net (link 0) command table table-IsTable

check_and_forward-IsForward_example : IsForward 0 (check_and_forward net (link 0) command table).out
check_and_forward-IsForward_example =
    check_and_forward-IsForward net net-IsNet (link 0) command table
