-- ===== src/Signing.antt =====
-- GCS_MAVLink/GCS_Signing.cpp: the signing key in storage and the signing state of the channels.
pub mod Timestamps
pub mod Tests
use pq_key_establishment_mav.Base.{
  ℕ, ◌+◌, ◌-◌, ◌*◌, ◌/◌, ◌%◌, ◌^◌, ◌==◌, if◌then◌else◌, ltb, List, [], ◌∷◌, take, map, Bool, true,
  false, ◌&&◌, ◌||◌, not, Option, none, some, get_elem?,
}
use pq_key_establishment_mav.Base.Bytes.{u8, sub32}

-- The block that is kept in storage.
pub record SigningKey : Type 0 where
  pub magic : ℕ
  pub timestamp : ℕ
  pub secret_key : List ℕ

-- A backend's `signing` and its channel status: `enabled` says that the status points to it,
-- `accept_unsigned` that the callback is set.
pub record Channel : Type 0 where
  pub secret_key : List ℕ
  pub link_id : ℕ
  pub timestamp : ℕ
  pub sign_outgoing : Bool
  pub accept_unsigned : Bool
  pub enabled : Bool

-- `channels` has one entry for each of MAVLINK_COMM_NUM_BUFFERS channels, `none` where there is no
-- backend; `stored` is what the storage block holds.
pub record Signing : Type 0 where
  pub channels : List (Option Channel)
  pub stored : SigningKey
  pub last_signing_save_ms : ℕ

-- What the code meets outside: the arming state, the option that disables signing, the clock, and
-- the storage: whether the key fits it, whether a read succeeds, and what a write of a block
-- returns and leaves.
pub record Outside : Type 0 where
  pub soft_armed : Bool
  pub signing_disabled : Bool
  pub now : ℕ
  pub fits : Bool
  pub read_block : Bool
  pub write_block : SigningKey → SigningKey → Bool × SigningKey

abbrev pub signing_key_magic : ℕ
signing_key_magic = 0x3852fcd1

-- `GCS_MAVLINK::signing_key_save`
unfoldable pub signing_key_save : Outside → SigningKey → Signing → Bool × Signing
signing_key_save o key s =
    let w = o.write_block s.stored key in
    if o.fits then (w.0, record s { stored = w.1 }) else (false, s)

-- `GCS_MAVLINK::signing_key_load`
unfoldable pub signing_key_load : Outside → Signing → Option SigningKey
signing_key_load o s =
    if not o.fits
    then none
    else if not o.read_block
    then none
    else if not (s.stored.magic == signing_key_magic)
    then none
    else some s.stored

unfoldable pub all_zero : List ℕ → Bool
all_zero [] = true
all_zero (x ∷ xs) = x == 0 && all_zero xs

-- The channel after a key was loaded; one minute is added to the stored time.
unfoldable pub use_key : ℕ → SigningKey → Channel → Channel
unfolding all_zero
use_key chan key c = record {
  secret_key = take 32 key.secret_key;
  link_id = u8 chan;
  timestamp = (key.timestamp + 60 * 100 * 1000) % 2 ^ 64;
  sign_outgoing = true;
  accept_unsigned = true;
  enabled = not (key.timestamp == 0 && all_zero (take 32 key.secret_key));
}

unfoldable pub load_from : Outside → Option SigningKey → ℕ → Channel → Channel
unfolding use_key
load_from o none chan c = c
load_from o (some key) chan c = if o.signing_disabled then c else use_key chan key c

-- `GCS_MAVLINK::load_signing_key` of the backend of `chan`.
unfoldable pub load_signing_key : Outside → Signing → ℕ → Channel → Channel
unfolding load_from signing_key_load
load_signing_key o s chan c = load_from o (signing_key_load o s) chan c

-- The loop of `handle_setup_signing`, which ends at the first channel without a backend.
unfoldable pub load_until : Outside → Signing → ℕ → List (Option Channel) → List (Option Channel)
unfolding load_signing_key
load_until o s chan [] = []
load_until o s chan (none ∷ cs) = none ∷ cs
load_until o s chan (some c ∷ cs) =
    some (load_signing_key o s chan c) ∷ load_until o s (chan + 1) cs

-- `GCS_MAVLINK::handle_setup_signing`
unfoldable pub handle_setup_signing : Outside → ℕ → List ℕ → Signing → Signing
unfolding signing_key_save load_until
handle_setup_signing o initial_timestamp secret_key s =
    let key : SigningKey = record {
      magic = signing_key_magic;
      timestamp = initial_timestamp;
      secret_key = take 32 secret_key;
    } in
    let (ok, saved) = signing_key_save o key s in
    if o.soft_armed
    then s
    else if not ok
    then saved
    else record saved { channels = load_until o saved 0 saved.channels }

-- `accept_unsigned_callback`: channel 0 accepts every message, any other only the radio's.
unfoldable pub accept_unsigned_callback : (radio_status radio : ℕ) → (chan msgid : ℕ) → Bool
accept_unsigned_callback radio_status radio chan msgid =
    chan == 0 || (radio_status == msgid || radio == msgid)

-- From microseconds since 1970 to 10 microseconds since 2015.
unfoldable pub signing_time : ℕ → ℕ
signing_time timestamp_usec =
    let t = timestamp_usec / (1000 * 1000) in
    (if ltb 1420070400 t then t - 1420070400 else t) * (100 * 1000) % 2 ^ 64

unfoldable pub raise_channel : ℕ → Option Channel → Option Channel
raise_channel t none = none
raise_channel t (some c) =
    if c.enabled && ltb c.timestamp t then some (record c { timestamp = t }) else some c

-- The greatest of `t` and the timestamps of the channels that sign.
unfoldable pub latest : ℕ → List (Option Channel) → ℕ
latest t [] = t
latest t (none ∷ cs) = latest t cs
latest t (some c ∷ cs) = latest (if c.enabled && ltb t c.timestamp then c.timestamp else t) cs

unfoldable pub save_latest : Outside → Signing → Option SigningKey → Signing
unfolding signing_key_save
save_latest o s none = s
save_latest o s (some key) =
    let t = latest key.timestamp s.channels in
    if ltb key.timestamp t then (signing_key_save o (record key { timestamp = t }) s).1 else s

-- `GCS_MAVLINK::save_signing_timestamp`
unfoldable pub save_signing_timestamp : Outside → Bool → Signing → Signing
unfolding save_latest signing_key_load
save_signing_timestamp o force_save_now s =
    let s' = record s { last_signing_save_ms = o.now } in
    if not force_save_now && ltb (sub32 o.now s.last_signing_save_ms) (30 * 1000)
    then s
    else save_latest o s' (signing_key_load o s')

-- `GCS_MAVLINK::update_signing_timestamp`
unfoldable pub update_signing_timestamp : Outside → ℕ → Signing → Signing
unfolding signing_time raise_channel save_signing_timestamp
update_signing_timestamp o timestamp_usec s =
    save_signing_timestamp o true
      (record s { channels = map (raise_channel (signing_time timestamp_usec)) s.channels })

-- `GCS_MAVLINK::signing_enabled`
unfoldable pub signing_enabled : Channel → Bool
signing_enabled c = c.enabled && c.sign_outgoing

-- The channel after a key was set for this run only.
unfoldable pub use_runtime_key : List ℕ → ℕ → ℕ → Channel → Channel
use_runtime_key key initial_timestamp_10us chan c = record {
  secret_key = take 32 key;
  link_id = u8 chan;
  timestamp = (initial_timestamp_10us + 60 * 100 * 1000) % 2 ^ 64;
  sign_outgoing = true;
  accept_unsigned = true;
  enabled = true;
}

-- The loop of `enable_signing_with_key`, which passes over channels without a backend.
unfoldable pub enable_all :
    Outside → Signing → List ℕ → ℕ → Bool → ℕ → List (Option Channel) → List (Option Channel)
unfolding load_signing_key use_runtime_key
enable_all o s key t persist chan [] = []
enable_all o s key t persist chan (none ∷ cs) = none ∷ enable_all o s key t persist (chan + 1) cs
enable_all o s key t persist chan (some c ∷ cs) =
    some (if persist then load_signing_key o s chan c else use_runtime_key key t chan c)
    ∷ enable_all o s key t persist (chan + 1) cs

-- `GCS_MAVLINK::enable_signing_with_key`
unfoldable pub enable_signing_with_key : Outside → List ℕ → ℕ → Bool → Signing → Bool × Signing
unfolding signing_key_save enable_all
enable_signing_with_key o key t persist s =
    let stored : SigningKey = record {
      magic = signing_key_magic;
      timestamp = t;
      secret_key = take 32 key;
    } in
    let (ok, saved) = if persist then signing_key_save o stored s else (true, s) in
    if o.soft_armed
    then (false, s)
    else if not ok
    then (false, saved)
    else (true, record saved { channels = enable_all o saved key t persist 0 saved.channels })

-- `GCS_MAVLINK::packet_overhead_chan`: the bytes, and the start of the reservation that is left.
-- The two sizes are constants of the MAVLink headers.
unfoldable pub packet_overhead_chan :
    (non_payload signature now reserve_start : ℕ) → Channel → ℕ × ℕ
unfolding signing_enabled
packet_overhead_chan non_payload signature now reserve_start c =
    let fresh = not (reserve_start == 0) && ltb (sub32 now reserve_start) 2000 in
    let reserved_space = if fresh then 100 else 0 in
    (
      u8 (non_payload + (if signing_enabled c then signature else 0) + reserved_space),
      if fresh then reserve_start else 0,
    )
