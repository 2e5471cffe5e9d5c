-- ===== src/Mission/Tests.antt =====
-- A backend that is a list, and the theorems of the protocol applied to it.
use pq_key_establishment_mav.Base.{
  set, take, length, ltb, if◌then◌else◌, ℕ, ◌+◌, ◌≡◌, refl, List, [], ◌∷◌, ◌++◌, true, false, none,
  some, arith,
}
use pq_key_establishment_mav.Mission.{
  accepted, error, is_accepted, Sender, Env, Backend, Protocol, mavlink2_requirement_met, is_owner,
}
use pq_key_establishment_mav.Mission.Handlers.{handle_mission_count}
use pq_key_establishment_mav.Mission.Calls.{count, item, receives, answer, step}
use pq_key_establishment_mav.Mission.Invariant.{IsWell, busy, IsWellDone}
use pq_key_establishment_mav.Mission.Steps.{step-IsWellDone}
use pq_key_establishment_mav.Mission.Lock.{IsRefused, answer-IsRefused}
use pq_key_establishment_mav.Mission.Progress.{update_all, update_all_released}
use pq_key_establishment_mav.Mission.Upload.{all_placed, IsStored}
use pq_key_establishment_mav.Mission.Stored.{upload_items, opened, upload_IsStored}

abbrev listed : Backend (List (List ℕ))
listed = record {
  is_mission = true;
  clear_all_items = λ s. (true, []);
  truncate = λ n s. take n s;
  get_item = λ n s. (error, record { seq = n; content = [] });
  allocate_receive_resources = λ n s. (accepted, s);
  allocate_update_resources = λ s. (accepted, s);
  free_upload_resources = λ s. s;
  item_count = λ r s. length s;
  max_items = λ s. 100;
  replace_item = λ cmd s. (accepted, set s cmd.seq cmd.content);
  append_item =
      λ cmd s. if ltb (length s) 100 then (accepted, s ++ cmd.content ∷ []) else (error, s);
  complete = λ s. (accepted, s);
  timeout = λ s. s;
}

abbrev at : ℕ → Env
at t = record {
  now = t;
  ack_space = λ c. true;
  count_space = λ c. true;
  request_space = λ c. true;
  sending_mavlink1 = λ c. false;
  stream_slowdown_ms = λ c. 0;
  to_mission_item = λ i. (accepted, i);
}

abbrev station : Sender
station = record { chan = 1; sysid = 255; compid = 190 }

abbrev stranger : Sender
stranger = record { chan = 2; sysid = 17; compid = 1 }

abbrev idle_protocol : Protocol (List (List ℕ))
idle_protocol = record {
  receiving = false;
  link = none;
  request_i = 0;
  request_last = 0;
  dest_sysid = 0;
  dest_compid = 0;
  timelast_receive_ms = 0;
  timelast_request_ms = 0;
  mission_request_warning_sent = false;
  mission_item_warning_sent = false;
  store = (9 ∷ []) ∷ (8 ∷ []) ∷ (7 ∷ []) ∷ [];
}

abbrev busy_protocol : Protocol (List (List ℕ))
busy_protocol = record idle_protocol {
  receiving = true;
  link = some 1;
  request_last = 4;
  dest_sysid = 255;
  dest_compid = 190;
}

busy_protocol-IsWell : IsWell busy_protocol
busy_protocol-IsWell = busy 1 refl refl (omega arith) (omega arith)

step-IsWellDone_example : IsWellDone (
    step listed
      (at 50)
      busy_protocol
      (receives stranger (item true (record { seq = 0; content = [] }))))
step-IsWellDone_example =
    step-IsWellDone listed (at 50) busy_protocol
      (receives stranger (item true (record { seq = 0; content = [] }))) tt busy_protocol-IsWell

answer-IsRefused_example :
    IsRefused busy_protocol (answer listed (at 50) busy_protocol stranger (count 3))
unfolding is_owner
answer-IsRefused_example =
    answer-IsRefused listed (at 50) busy_protocol stranger (count 3) refl refl

update_all_released_example :
    (update_all listed (at 4000 ∷ at 9000 ∷ []) busy_protocol).receiving ≡ false
update_all_released_example =
    update_all_released listed (at 4000 ∷ []) (at 9000) busy_protocol busy_protocol-IsWell
      (omega arith)

abbrev two_items : List (List ℕ)
two_items = (1 ∷ []) ∷ (2 ∷ []) ∷ []

upload_IsStored_example :
    IsStored listed (all_placed listed 0 two_items (opened listed 2 idle_protocol.store)) (
      upload_items listed
        (λ k. at (20 + k))
        (λ k. false)
        station
        0
        two_items
        (handle_mission_count listed (at 10) idle_protocol station 2).protocol)
unfolding is_accepted mavlink2_requirement_met
upload_IsStored_example =
    upload_IsStored listed (λ k. at (20 + k)) (λ k. false) (at 10) station two_items idle_protocol
      (
        record { behind = omega arith; accepted = refl },
        (record { behind = omega arith; accepted = refl }, tt),
      )
      (omega arith) (omega arith) refl refl refl
