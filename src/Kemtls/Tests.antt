-- ===== src/Kemtls/Tests.antt =====
-- The theorems of the handshake at concrete inputs.
pub mod Toy
pub mod Runs
use pq_key_establishment_mav.Base.{
  ℕ, zero, suc, ◌+◌, ◌*◌, ◌/◌, ◌%◌, ◌-◌, ◌<◌, ◌≡◌, ◌≢◌, ◌↔◌, ◌⊎◌, refl, ap, inl, inr, arith, List,
  [], ◌∷◌, ◌++◌, ◌≤◌, length, get_or, replicate, true, false, ◌&&◌, ◌||◌, ltb, leb, Option, none,
  some, test_bit,
}
use pq_key_establishment_mav.Base.Bytes.{zeros, le_value}
use pq_key_establishment_mav.Kemtls.Types.{
  Platform, IsPlatform, kex_rejected, HqcRxBuf, HqcSession, HqcState, PkChunk, CtAck, Finish,
  hqc_status, chunks_of,
}
use pq_key_establishment_mav.Kemtls.Session.{note_rx}
use pq_key_establishment_mav.Kemtls.Session.Wiped.{IsWiped}
use pq_key_establishment_mav.Kemtls.Kdf.{tag_diff, expected_tag, hmac_sha256}
use pq_key_establishment_mav.Kemtls.Kdf.Tags.{tag_diff_iff, length-expected_tag}
use pq_key_establishment_mav.Kemtls.Stream.{send_window, fit_acked, streams_done, inflight_from}
use pq_key_establishment_mav.Kemtls.Stream.Window.{IsWindow, send_window-IsWindow}
use pq_key_establishment_mav.Kemtls.Finish.{handle_hqc_finish, session_prk}
use pq_key_establishment_mav.Kemtls.Finish.Authentic.{
  IsWellTimed, right_tag, handle_hqc_finish_active_iff, handle_hqc_finish_wrong_tag,
}
use pq_key_establishment_mav.Kemtls.Crypt.{CryptConfig, session_crypt}
use pq_key_establishment_mav.Kemtls.Crypt.Reuse.{session_crypt_reuse_iff}
use pq_key_establishment_mav.Kemtls.CtAck.{
  acked_after, handle_hqc_ct_ack, stream, ct_ack_on, ct_ack_stream, ct_ack_sent, finish_streams,
  put_stream, mark_mask, mark_prefix, drop_retries, send_missing, send_one,
}
use pq_key_establishment_mav.Kemtls.CtAck.Marks.{acked_after_bits}
use pq_key_establishment_mav.Kemtls.CtAck.Answer.{IsSound, IsAnswer, handle_hqc_ct_ack-IsAnswer}
use pq_key_establishment_mav.Kemtls.PkChunk.{PkEnv, sack_mask}
use pq_key_establishment_mav.Kemtls.PkChunk.Assembly.{Receives, IsFragment}
use pq_key_establishment_mav.Kemtls.PkChunk.Run.{Arrival, receive_all, Contains, receive_all_whole}
use pq_key_establishment_mav.Kemtls.Types.{Hello}
use pq_key_establishment_mav.Kemtls.Pdk.{HelloEnv, pdk_size, overrun, read_pks}
use pq_key_establishment_mav.Kemtls.Hello.{handle_hqc_hello}
use pq_key_establishment_mav.Kemtls.Hello.Checked.{
  IsGreeted, handle_hqc_hello-IsGreeted, read_pks-overrun,
}
use pq_key_establishment_mav.Kemtls.Timer.{pump_stream, tick}
use pq_key_establishment_mav.Kemtls.Timer.Retry.{IsPumped, pump_stream-IsPumped}
use pq_key_establishment_mav.Kemtls.Timer.Tick.{IsTicked, tick-IsTicked}
use pq_key_establishment_mav.Kemtls.Tests.Toy.{
  buffers, env, first_part, greeting, key, key_file, key_file_small, last_part, running_session,
  sending, toy, toy-IsPlatform, waiting,
}

abbrev good : Finish
good = record { session_id = 9; role = 1; tag_len = 32; tag = right_tag toy waiting }

abbrev forged : Finish
forged = record good { tag = 0 ∷ 1 ∷ zeros 30 }

good_whole : length good.tag ≡ 32
good_whole = length-expected_tag toy toy-IsPlatform (session_prk toy waiting) waiting.th

waiting_not_active : waiting.state ≢ HqcState.active
waiting_not_active e = cc

handle_hqc_finish_active_iff_example :
    ((handle_hqc_finish toy waiting good 2000).session.state ≡ HqcState.active)
    ↔ (IsWellTimed waiting good × (right_tag toy waiting ≡ good.tag))
handle_hqc_finish_active_iff_example =
    handle_hqc_finish_active_iff toy toy-IsPlatform waiting good 2000 good_whole waiting_not_active

forged-IsWellTimed : IsWellTimed waiting forged
unfolding streams_done
forged-IsWellTimed = record {
  same_session = refl;
  waiting = refl;
  client = refl;
  whole_tag = refl;
  delivered = refl;
}

forged_differs : right_tag toy waiting ≢ forged.tag
unfolding expected_tag hmac_sha256
forged_differs e = cc

handle_hqc_finish_wrong_tag_example :
    ((handle_hqc_finish toy waiting forged 2000).session.state ≡ HqcState.fail)
    × IsWiped (handle_hqc_finish toy waiting forged 2000).session
    × ((handle_hqc_finish toy waiting forged 2000).out ≡ hqc_status 9 0 kex_rejected 31 ∷ [])
handle_hqc_finish_wrong_tag_example =
    handle_hqc_finish_wrong_tag toy toy-IsPlatform waiting forged 2000 refl forged-IsWellTimed
      forged_differs

session_crypt_reuse_iff_example :
    (session_crypt toy running_session true (1 % 256)
      ≡ session_crypt toy running_session true (257 % 256))
    ↔ (1 % 256 ≡ 257 % 256)
session_crypt_reuse_iff_example =
    session_crypt_reuse_iff toy toy-IsPlatform running_session true 1 257 refl (inl refl)

abbrev fives : List ℕ
fives = replicate 32 5

tag_diff_iff_example : (tag_diff 0 32 (fives) (fives) ≡ 0) ↔ (fives ≡ fives)
tag_diff_iff_example = tag_diff_iff (fives) (fives) refl refl

send_window-IsWindow_example :
    IsWindow 9 0 (1 ∷ 2 ∷ 3 ∷ 4 ∷ 5 ∷ []) 2 5 2 1 (send_window 9 0 (1 ∷ 2 ∷ 3 ∷ 4 ∷ 5 ∷ []) 2 5 2 1)
send_window-IsWindow_example =
    send_window-IsWindow 9 0 (1 ∷ 2 ∷ 3 ∷ 4 ∷ 5 ∷ []) 2 5 (omega arith) (omega arith) (omega arith)
      2 1 (omega arith)

abbrev half : CtAck
half = record { session_id = 9; ct_kind = 0; base = 4; mask = 1 }

sending-IsSound : IsSound buffers 0
unfolding stream
sending-IsSound = record {
  mtu_pos = omega arith;
  mtu_small = omega arith;
  no_wrap = omega arith;
  buffer = λ ct e. omega (arith, ap (λ (o : Option (List ℕ)). size o) e);
}
  where
    size : Option (List ℕ) → ℕ
    size none = 0
    size (some l) = length l

handle_hqc_ct_ack-IsAnswer_example : IsAnswer buffers 0 (handle_hqc_ct_ack sending half 1200).out
handle_hqc_ct_ack-IsAnswer_example = handle_hqc_ct_ack-IsAnswer sending half 1200 sending-IsSound

pump_stream-IsPumped_example : IsPumped sending 0 (pump_stream toy sending 1500 0)
unfolding stream
pump_stream-IsPumped_example =
    pump_stream-IsPumped toy sending 1500 0 sending-IsSound (omega arith) (omega arith)

tick-IsTicked_example : IsTicked sending 30000 (tick toy sending 30000)
tick-IsTicked_example = tick-IsTicked toy sending 30000

-- The last fragment first, and one of them twice.
abbrev arrivals : List Arrival
arrivals = (last_part, env) ∷ (first_part, env) ∷ (last_part, env) ∷ []

abbrev receiving : HqcSession
receiving = record sending { state = HqcState.pk_rx }

first_part-IsFragment : IsFragment key 4 first_part
first_part-IsFragment = record { aligned = refl; inside = omega arith; full = refl; content = refl }

last_part-IsFragment : IsFragment key 4 last_part
last_part-IsFragment = record { aligned = refl; inside = omega arith; full = refl; content = refl }

receiving-Receives : Receives key (zeros 5) buffers
receiving-Receives = record {
  whole = refl;
  pos_len = omega arith;
  small = omega arith;
  mtu_pos = omega arith;
  mtu_small = omega arith;
  rcvd_le = omega arith;
  buffer = refl;
  flags = inl refl;
  holds = record { same_size = refl; bytes = λ i j e p q. cc };
  base = λ i p. absurd (omega arith);
}

all_come : (i : ℕ) → i * 4 < 5 → Contains 4 i arrivals
all_come zero p = inr (inl refl)
all_come (suc zero) p = inl refl
all_come (suc (suc i)) p = absurd (omega arith)

receive_all_whole_example :
    (s' : HqcSession) × (receive_all toy receiving arrivals ≡ some s')
    × (s'.rx.pke ≡ some key)
    × (s'.rx.pke_rcvd ≡ 5)
receive_all_whole_example =
    receive_all_whole toy key (zeros 5) receiving arrivals receiving-Receives refl
      ((
        last_part-IsFragment,
        refl,
        (first_part-IsFragment, refl, (last_part-IsFragment, refl, tt)),
      ))
      all_come

handle_hqc_hello-IsGreeted_example :
    IsGreeted toy greeting key_file (handle_hqc_hello toy sending greeting key_file)
handle_hqc_hello-IsGreeted_example =
    handle_hqc_hello-IsGreeted toy sending greeting key_file key_file_small

read_pks-overrun_example :
    read_pks ((10 ∷ 20 ∷ 30 ∷ 40 ∷ 50 ∷ 60 ∷ []) ∷ []) 6 0 (zeros 5) ≡ overrun
read_pks-overrun_example =
    read_pks-overrun (10 ∷ 20 ∷ 30 ∷ 40 ∷ 50 ∷ 60 ∷ []) [] 6 (zeros 5) (omega arith) (omega arith)
