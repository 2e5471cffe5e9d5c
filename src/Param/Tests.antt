-- ===== src/Param/Tests.antt =====
-- The theorems on parameters with a library of three.
use pq_key_establishment_mav.Base.{
  ℕ, zero, suc, ◌<◌, ◌≡◌, ◌==◌, ◌⊎◌, length, arith, List, [], ◌∷◌, ◌++◌, true, false, Option, none,
  some,
}
use pq_key_establishment_mav.Param.{
  ParamLibrary, ParamLink, ParamQueues, ParamValue, SendEnv, strncpy, handle_param_request_list,
  value_message,
}
use pq_key_establishment_mav.Param.Download.{Listing, download, download_whole}
use pq_key_establishment_mav.Param.Rates.{
  RadioStatus, handle_radio_status, radio_run, IsAdapted, radio_run-IsAdapted,
}
use pq_key_establishment_mav.Param.Setting.{
  FoundParam, handle_param_set, IsParamSet, handle_param_set-IsParamSet,
}

abbrev after : ℕ → Option ℕ
after zero = some 1
after (suc zero) = some 2
after (suc (suc n)) = none

-- Three parameters, by their numbers.
abbrev three : ParamLibrary ℕ
three = record {
  first = some 0;
  next_scalar = after;
  name_of = λ p. 80 ∷ p ∷ [];
  value_of = λ p. p;
  type_of = λ p. 4;
  find_by_index = λ i. none;
  find = λ name. none;
  count_parameters = 3;
}

abbrev link : ParamLink ℕ
link = record { chan = 1; queued = none; index = 0; count = 0; send_time = 0; reserve_start = 0 }

abbrev radio_link : SendEnv
radio_link = record {
  now = 1000;
  bandwidth = 5760;
  message_size = 37;
  txspace = 80;
  flow_control = false;
  reply_room = λ i. true;
  txbuf_ok = λ i. true;
  slow = λ i. false;
}

abbrev empty : ParamQueues
empty = record { requests = []; replies = []; timer_registered = true }

abbrev calls : List (SendEnv × ParamQueues)
calls = (radio_link, empty) ∷ (radio_link, empty) ∷ []

abbrev all_three : List ParamValue
all_three =
    value_message three 1 3 0 0 ∷ value_message three 1 3 1 1 ∷ value_message three 1 3 2 2 ∷ []

three-Listing : Listing three 1 3 (some 0) 0 all_three
three-Listing =
    Listing.parameter 0 0 _ (Listing.parameter 1 1 _ (Listing.parameter 2 2 _ (Listing.complete 3)))

download_whole_example :
    (rest : List ParamValue) × (all_three
      ≡ (download three (handle_param_request_list three true 900 link) calls).1 ++ rest)
    × ((((download three (handle_param_request_list three true 900 link) calls).0.queued ≡ none)
          × (rest ≡ []))
        ⊎ ((p : ℕ) × ((download three
                (handle_param_request_list three true 900 link)
                calls).0.queued
              ≡ some p)
            × (0 < length rest)))
download_whole_example = download_whole three link 900 calls all_three three-Listing

abbrev radio : RadioStatus
radio = record { received_ms = 0; rssi = 0; remrssi_ms = 0; txbuf = 100; stream_slowdown_ms = 0 }

abbrev reports : List (ℕ × ℕ × ℕ × ℕ)
reports = (200, 190, 10, 500) ∷ (200, 190, 40, 600) ∷ []

radio_run-IsAdapted_example :
    ((radio_run reports radio).stream_slowdown_ms < 2060)
    × IsAdapted 97
        (radio_run reports radio).stream_slowdown_ms
        (handle_radio_status 200 190 97 700 (radio_run reports radio)).stream_slowdown_ms
radio_run-IsAdapted_example = radio_run-IsAdapted radio reports 200 190 97 700 (omega arith)

abbrev locked : FoundParam
locked = record { p_type = 4; old_value = 5; settable = false; enables = false }

handle_param_set-IsParamSet_example :
    IsParamSet 1 3 true
      (strncpy 16 (80 ∷ 1 ∷ []) ++ (0 ∷ []))
      7
      ◌==◌
      (some locked)
      (handle_param_set 1 3 true (80 ∷ 1 ∷ []) 7 ◌==◌ (λ key. some locked))
handle_param_set-IsParamSet_example =
    handle_param_set-IsParamSet 1 3 true (80 ∷ 1 ∷ []) 7 ◌==◌ (λ key. some locked)
