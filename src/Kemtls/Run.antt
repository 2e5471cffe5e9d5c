-- ===== src/Kemtls/Run.antt =====
-- The handshake as a whole: what reaches a link's session, in the order in which it comes. The
-- message switch of `GCS_MAVLINK::handle_message` (GCS_Common.cpp) calls the four handlers, and
-- `GCS_MAVLINK::update_send` the tick. The status texts of the switch are left out.
pub mod Valid
pub mod Streams
pub mod Clock
pub mod Closing
pub mod Encap
pub mod Key
pub mod Fresh
pub mod Greeting
pub mod Moves
pub mod Trace
use pq_key_establishment_mav.Base.{ℕ, List, [], ◌∷◌, Option, none, some}
use pq_key_establishment_mav.Kemtls.Types.{
  Platform, HqcSession, Hello, PkChunk, CtAck, Finish, Reply,
}
use pq_key_establishment_mav.Kemtls.Pdk.{HelloEnv}
use pq_key_establishment_mav.Kemtls.Hello.{handle_hqc_hello}
use pq_key_establishment_mav.Kemtls.PkChunk.{PkEnv, handle_hqc_pk_chunk}
use pq_key_establishment_mav.Kemtls.CtAck.{handle_hqc_ct_ack}
use pq_key_establishment_mav.Kemtls.Finish.{handle_hqc_finish}
use pq_key_establishment_mav.Kemtls.Timer.{tick}

-- A message with what its handler meets outside, or a call of `update_send`; the number is the
-- clock in milliseconds.
pub data Event : Type 0 where
  on_hello : Hello → HelloEnv → Event
  on_pk_chunk : PkChunk → PkEnv → Event
  on_ct_ack : CtAck → ℕ → Event
  on_finish : Finish → ℕ → Event
  on_tick : ℕ → Event

-- `none` is a write past a buffer.
unfoldable pub step : Platform → HqcSession → Event → Option Reply
step c s (on_hello m env) = handle_hqc_hello c s m env
step c s (on_pk_chunk m env) = handle_hqc_pk_chunk c s m env
step c s (on_ct_ack m now) = some (handle_hqc_ct_ack s m now)
step c s (on_finish m now) = some (handle_hqc_finish c s m now)
step c s (on_tick now) = some (tick c s now)

unfoldable pub run : Platform → HqcSession → List Event → Option HqcSession
run c s [] = some s
run c s (e ∷ es) = elim (step c s e) as (λ _. Option HqcSession) [
  | none ↦ none
  | some r ↦ run c r.session es
]
