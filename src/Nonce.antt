-- ===== src/Nonce.antt =====
-- experiments/nonce_correction/nonce_ctr.h and nonce_ctr.c: the counter of a sender, the replay
-- window of a receiver, the nonce and the block counter.
pub mod Bits
pub mod Sender
pub mod Window
pub mod Replay
pub mod Bytes
pub mod Tests
use pq_key_establishment_mav.Base.{
  ℕ, zero, suc, ◌+◌, ◌-◌, ◌*◌, ◌/◌, ◌%◌, ◌^◌, ◌==◌, if◌then◌else◌, ltb, leb, List, [], ◌∷◌, ◌++◌,
  Bool, true, false, not, Option, none, some, test_bit, set_bit,
}
use pq_key_establishment_mav.Base.Bytes.{u8}

-- direction_t
pub data Direction : Type 0 where
  dir_tx dir_rx : Direction

-- sender_ctx_t
pub record SenderCtx : Type 0 where
  pub direction : Direction
  pub key_epoch : ℕ
  pub next_counter : ℕ
  pub exhausted : Bool

-- `sender_ctx_init`
unfoldable pub sender_ctx_init : Direction → ℕ → SenderCtx
sender_ctx_init dir epoch = record {
  direction = dir;
  key_epoch = epoch;
  next_counter = 0;
  exhausted = false;
}

-- `sender_ctx_next`: the counter, if there is one, and the context after.
unfoldable pub sender_ctx_next : SenderCtx → Option ℕ × SenderCtx
sender_ctx_next ctx =
    if ctx.exhausted
    then (none, ctx)
    else if ctx.next_counter == 2 ^ 64 - 1
    then (some ctx.next_counter, record ctx { exhausted = true })
    else (some ctx.next_counter, record ctx { next_counter = ctx.next_counter + 1 })

-- replay_window_t; bit i of `seen_bitmap` stands for the counter `highest_seen - i`.
pub record ReplayWindow : Type 0 where
  pub direction : Direction
  pub key_epoch : ℕ
  pub highest_seen : ℕ
  pub seen_bitmap : ℕ
  pub initialized : Bool

-- `replay_window_init`
unfoldable pub replay_window_init : Direction → ℕ → ReplayWindow
replay_window_init dir epoch = record {
  direction = dir;
  key_epoch = epoch;
  highest_seen = 0;
  seen_bitmap = 0;
  initialized = false;
}

-- The bitmap moved up: a 64-bit word keeps no bit past its end.
unfoldable pub shifted_bitmap : ℕ → ℕ → ℕ
shifted_bitmap bitmap shift = if leb 64 shift then 0 else bitmap * 2 ^ shift % 2 ^ 64

-- `replay_window_check_and_update` on a counter that is not above the highest one.
unfoldable pub check_old : ReplayWindow → ℕ → Bool × ReplayWindow
check_old w diff =
    if leb 64 diff
    then (false, w)
    else if test_bit w.seen_bitmap diff
    then (false, w)
    else (true, record w { seen_bitmap = set_bit w.seen_bitmap diff })

-- `replay_window_check_and_update`
unfoldable pub replay_window_check_and_update : ReplayWindow → ℕ → Bool × ReplayWindow
unfolding shifted_bitmap check_old
replay_window_check_and_update w counter =
    if not w.initialized
    then (true, record w { initialized = true; highest_seen = counter; seen_bitmap = 1 })
    else if ltb w.highest_seen counter
    then (
      true,
      record w {
        seen_bitmap = set_bit (shifted_bitmap w.seen_bitmap (counter - w.highest_seen)) 0;
        highest_seen = counter;
      },
    )
    else check_old w (w.highest_seen - counter)

-- The loop over the `n` low bytes, from the highest to the lowest.
unfoldable pub be_bytes : ℕ → ℕ → List ℕ
be_bytes zero v = []
be_bytes (suc n) v = u8 (v / 2 ^ (8 * n)) ∷ be_bytes n v

-- `assemble_nonce`: 4 bytes of the prefix and 8 of the counter.
unfoldable pub assemble_nonce : ℕ → ℕ → List ℕ
unfolding be_bytes
assemble_nonce domain_prefix counter = be_bytes 4 domain_prefix ++ be_bytes 8 counter

-- `block_counter_for_offset`
unfoldable pub block_counter_for_offset : ℕ → ℕ
block_counter_for_offset byte_offset_in_message = byte_offset_in_message / 64
