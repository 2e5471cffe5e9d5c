-- ===== src/Kemtls.antt =====
-- The KEMTLS-PDK handshake of the flight controller: libraries/GCS_MAVLink/GCS_KEMTLS.cpp and the
-- session types of GCS.h (`GCS_MAVLINK::HqcRxBuf`, `HqcState`, `HqcSession`).
pub mod Types
pub mod Wire
pub mod Kdf
pub mod Session
pub mod Stream
pub mod Pdk
pub mod Hello
pub mod PkChunk
pub mod CtAck
pub mod Finish
pub mod Timer
pub mod Crypt
pub mod Run
pub mod Tests
