-- ===== src/Param/Rates.antt =====
-- GCS_Common.cpp, `handle_radio_status`: the slowdown that a radio with a full buffer asks for; and
-- GCS_Param.cpp, `handle_request_data_stream`: the rates of the streams.
use pq_key_establishment_mav.Base.{
  ℕ, ◌+◌, ◌-◌, ◌≤◌, ◌<◌, ◌≡◌, ◌⊎◌, ◌==◌, if◌then◌else◌, ltb, arith, List, [], ◌∷◌, Bool, true, ◌&&◌,
  not, inl, inr,
}
use pq_key_establishment_mav.Base.Bytes.{u16, sub32}

-- GCS_MAVLINK::last_radio_status, and the slowdown of the streams.
pub record RadioStatus : Type 0 where
  pub received_ms : ℕ
  pub rssi : ℕ
  pub remrssi_ms : ℕ
  pub txbuf : ℕ
  pub stream_slowdown_ms : ℕ

-- The new slowdown for a buffer that is `txbuf` percent free.
unfoldable pub slowdown : ℕ → ℕ → ℕ
slowdown txbuf ms =
    if ltb txbuf 20 && ltb ms 2000
    then u16 (ms + 60)
    else if ltb txbuf 50 && ltb ms 2000
    then u16 (ms + 20)
    else if ltb 95 txbuf && ltb 200 ms
    then ms - 40
    else if ltb 90 txbuf && not (ms == 0)
    then (if ltb 20 ms then ms - 20 else 0)
    else ms

unfoldable pub handle_radio_status : (rssi remrssi txbuf now : ℕ) → RadioStatus → RadioStatus
unfolding slowdown
handle_radio_status rssi remrssi txbuf now s = record {
  received_ms = now;
  rssi = rssi;
  remrssi_ms = if not (remrssi == 0) then now else s.remrssi_ms;
  txbuf = txbuf;
  stream_slowdown_ms = slowdown txbuf s.stream_slowdown_ms;
}

-- A report is stale after 5 s.
unfoldable pub last_txbuf_is_greater : ℕ → ℕ → RadioStatus → Bool
last_txbuf_is_greater now limit s =
    if ltb 5000 (sub32 now s.received_ms) then true else ltb limit s.txbuf

unfoldable pub radio_run : List (ℕ × ℕ × ℕ × ℕ) → RadioStatus → RadioStatus
unfolding handle_radio_status
radio_run [] s = s
radio_run ((rssi, remrssi, txbuf, now) ∷ ms) s =
    radio_run ms (handle_radio_status rssi remrssi txbuf now s)

slowdown-le : (txbuf ms : ℕ) → ms < 2060 → slowdown txbuf ms < 2060
unfolding slowdown
slowdown-le txbuf ms h = ground arith

-- A nearly full buffer slows down, a nearly empty one speeds up, and one between changes nothing.
pub data IsAdapted (txbuf ms ms' : ℕ) : Type 0 where
  slower : txbuf < 50 → ms ≤ ms' → IsAdapted txbuf ms ms'
  steady : 50 ≤ txbuf → txbuf ≤ 90 → ms' ≡ ms → IsAdapted txbuf ms ms'
  faster : 90 < txbuf → ms' < ms → IsAdapted txbuf ms ms'
  settled : 90 < txbuf → ms ≡ 0 → ms' ≡ 0 → IsAdapted txbuf ms ms'

slowdown-grows : (txbuf ms : ℕ) → ms < 2060 → txbuf < 50 → ms ≤ slowdown txbuf ms
unfolding slowdown
slowdown-grows txbuf ms h a = ground arith

slowdown-stays : (txbuf ms : ℕ) → 50 ≤ txbuf → txbuf ≤ 90 → slowdown txbuf ms ≡ ms
unfolding slowdown
slowdown-stays txbuf ms a b = ground arith

slowdown-shrinks : (txbuf ms : ℕ) → 90 < txbuf → 0 < ms → slowdown txbuf ms < ms
unfolding slowdown
slowdown-shrinks txbuf ms a b = ground arith

slowdown-settles : (txbuf ms : ℕ) → 90 < txbuf → ms ≡ 0 → slowdown txbuf ms ≡ 0
unfolding slowdown
slowdown-settles txbuf ms a e = ground arith

buffer_cases :
    (txbuf ms : ℕ)
    → (txbuf < 50) ⊎ (((50 ≤ txbuf) × (txbuf ≤ 90)) ⊎ ((90 < txbuf) × ((0 < ms) ⊎ (ms ≡ 0))))
buffer_cases txbuf ms = ground arith

slowdown-IsAdapted : (txbuf ms : ℕ) → ms < 2060 → IsAdapted txbuf ms (slowdown txbuf ms)
slowdown-IsAdapted txbuf ms h = elim (buffer_cases txbuf ms) [
  | inl a ↦ IsAdapted.slower a (slowdown-grows txbuf ms h a)
  | inr (inl (a, b)) ↦ IsAdapted.steady a b (slowdown-stays txbuf ms a b)
  | inr (inr (a, inl p)) ↦ IsAdapted.faster a (slowdown-shrinks txbuf ms a p)
  | inr (inr (a, inr e)) ↦ IsAdapted.settled a e (slowdown-settles txbuf ms a e)
]

-- Whatever a radio reports and however often, the slowdown stays below 2060 ms, so that its 16
-- bits never wrap; and each report of less than 50 never lowers it, one above 90 lowers it until it
-- is 0, and one between leaves it alone.
pub radio_run-IsAdapted :
    (s : RadioStatus) (ms : List (ℕ × ℕ × ℕ × ℕ)) (rssi remrssi txbuf now : ℕ)
    → s.stream_slowdown_ms < 2060
    → ((radio_run ms s).stream_slowdown_ms < 2060)
      × IsAdapted txbuf
          (radio_run ms s).stream_slowdown_ms
          (handle_radio_status rssi remrssi txbuf now (radio_run ms s)).stream_slowdown_ms
unfolding radio_run handle_radio_status
radio_run-IsAdapted s [] rssi remrssi txbuf now h =
    (h, slowdown-IsAdapted txbuf s.stream_slowdown_ms h)
radio_run-IsAdapted s ((a, b, d, e) ∷ ms) rssi remrssi txbuf now h =
    radio_run-IsAdapted (handle_radio_status a b d e s) ms rssi remrssi txbuf now
      (slowdown-le d s.stream_slowdown_ms h)

-- The stream of a request, by its number in the message (MAV_DATA_STREAM); 10 is NUM_STREAMS, and 8
-- STREAM_PARAMS.
unfoldable pub stream_of : ℕ → ℕ
stream_of req =
    if req == 1
    then 0
    else if req == 2
    then 1
    else if req == 3
    then 2
    else if req == 4
    then 3
    else if req == 6
    then 4
    else if req == 10
    then 5
    else if req == 11
    then 6
    else if req == 12
    then 7
    else 10

-- The rates after `handle_request_data_stream`, as the 16 bits of each; 0 is MAV_DATA_STREAM_ALL.
unfoldable pub handle_request_data_stream :
    (start_stop req_message_rate req_stream_id : ℕ) → (ℕ → ℕ) → ℕ → ℕ
unfolding stream_of
handle_request_data_stream start_stop req_message_rate req_stream_id rates i =
    let freq = if start_stop == 0 then 0 else req_message_rate in
    if ltb 1 start_stop
    then rates i
    else if req_stream_id == 0
    then (if ltb i 10 && not (i == 8) then freq else rates i)
    else if stream_of req_stream_id == i && ltb i 10
    then freq
    else rates i

-- No request touches the rate of the parameters. The rate of any stream is kept, or set to 0 by a
-- request to stop, or to the rate of the message by a request to start.
pub handle_request_data_stream-rates :
    (start_stop rate req : ℕ) (rates : ℕ → ℕ) (i : ℕ)
    → (handle_request_data_stream start_stop rate req rates 8 ≡ rates 8)
      × ((handle_request_data_stream start_stop rate req rates i ≡ rates i)
          ⊎ (((start_stop ≡ 0) × (handle_request_data_stream start_stop rate req rates i ≡ 0))
              ⊎ ((start_stop ≡ 1)
                  × (handle_request_data_stream start_stop rate req rates i ≡ rate))))
unfolding handle_request_data_stream stream_of
handle_request_data_stream-rates start_stop rate req rates i = (ground arith, ground arith)
