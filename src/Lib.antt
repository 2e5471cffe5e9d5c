-- ===== src/Lib.antt =====
-- The flight controller's side of a post-quantum key establishment over MAVLink, as the firmware
-- fork in firmware-fork/libraries implements it: a ground station starts a KEMTLS-PDK handshake,
-- both sides encapsulate with HQC-128, and an active session gives the keys with which MAVLink
-- frames are encrypted and signed.
--
-- The parts and the files that model them. Paths are below firmware-fork/libraries; those that
-- begin with experiments are from the root.
--
-- GCS_MAVLink/GCS.h and GCS_MAVLink/GCS_KEMTLS.cpp, in Kemtls:
--   Kemtls/Types      `HqcRxBuf`, `HqcState`, `HqcSession` field by field, the decoded messages, and
--                     what a handler sends
--   Kemtls/Wire       `le32`, `le64`, `th_update` and the records that the transcript hashes
--   Kemtls/Kdf        `hmac_sha256`, `hkdf_extract`, `hkdf_expand_label`,
--                     `HqcSession::verify_finish_and_derive`
--   Kemtls/Session    `clamp_kex_params`, `HqcSession::reset`, `on_hello_start`, `note_rx`,
--                     `start_encap`, `select_aead`, and `ap_kem_enc` of AP_KEM/ap_kem.cpp
--   Kemtls/Stream     the fragments of a ciphertext and the window loop that three handlers share
--   Kemtls/Pdk        the file with the pre-distributed key
--   Kemtls/Hello      `handle_hqc_hello`
--   Kemtls/PkChunk    `handle_hqc_pk_chunk`
--   Kemtls/CtAck      `handle_hqc_ct_ack`
--   Kemtls/Finish     `handle_hqc_finish`
--   Kemtls/Timer      `HqcSession::tick`, `pump_tx`, `kick_acks`
--   Kemtls/Crypt      `mavlink_get_crypt_config`, `mavlink_is_cleartext_msg`
--   Kemtls/Run        the switch of `GCS_MAVLINK::handle_message` and the tick of `update_send`, in
--                     GCS_MAVLink/GCS_Common.cpp, as sequences of events on one session
-- The modules below these hold the proofs and are named for what they prove; Kemtls/Tests runs the
-- theorems at concrete inputs. Base holds the shared operators, lists, bits and bytes.
--
-- How the code is read. A handler is a function from the session, the decoded message and what it
-- meets outside (the clock, the results of malloc, the bytes a file read returns, the randomness of
-- the KEM) to the session it leaves and the messages it sends, in order. A buffer behind a pointer is
-- an `Option` of its bytes; a write past its end is `none`, and so is the result of a handler that
-- makes one. The retry map is a function that is 0 at a missing key. Clock differences wrap at 32
-- bits. Lambdas inside a function are functions of their own, and so are the parts of a handler that
-- follow a check which binds a value.
--
-- Every loop is structural: over the fragments of a list of flags, over the bits of a 32-bit mask, or
-- over the rounds of a window, which sends at most `window` fragments and so needs no more rounds;
-- the loop that advances the key's base has one round for each fragment above the base.
--
-- SHA-256, the KEM and the constants of generated headers are parameters (`Platform`), with their
-- documented sizes as hypotheses (`IsPlatform`); Kemtls/Tests has an instance. Texts for the operator
-- are left out. The randomness of the KEM is a number, so nothing is said about secrecy.
--
-- GCS_MAVLink/MAVLink_routing.h and MAVLink_routing.cpp, in Routing: the table and what it learns
-- (Routing), and on which channels a message is sent on (Routing/Links). The table of message
-- definitions, the backends of the channels and the room in their buffers are parameters (`Net`),
-- and that the backend found under a channel is this channel's is a hypothesis (`IsNet`). Masks of
-- channels are Boolean functions of the channel.
--
-- GCS_MAVLink/GCS_Signing.cpp, in Signing: the stored key, its activation on the channels
-- (`handle_setup_signing`, `enable_signing_with_key`, which the finish of the handshake calls), the
-- timestamps, and the bytes that a frame needs besides its payload. Storage, clock and arming state
-- are arguments (`Outside`).
--
-- GCS_MAVLink/MissionItemProtocol.h and MissionItemProtocol.cpp, in Mission: the state of a transfer
-- of mission items (`Protocol`), the handlers of its messages (Mission/Handlers), the calls that reach
-- it (Mission/Calls), and the invariant, the lock, the end and the result of an upload. The virtual
-- methods of a subclass are a record over a state of their own (`Backend`), of
-- which nothing is assumed but what a theorem names.
--
-- experiments/nonce_correction/nonce_ctr.h and nonce_ctr.c, in Nonce: the counter of a sender, the
-- replay window with its bitmap of 64 bits, the 12 bytes of a nonce and the block counter. Nothing of
-- the firmware calls it yet. Nonce/Window relates the bitmap to the counters taken so far.
--
-- AP_KEM/ap_kem_file.h and ap_kem_file.cpp, in KeyFile: the CRC, the packed header as bytes,
-- the save with the result of each system call, and the load. SHA-256 is a parameter, and
-- the data of an empty vector is taken to be a null pointer, as of a fresh one. A write either
-- takes some of the bytes or fails; the file of the key changes only by the rename.
-- GCS_MAVLink/GCS_kemtls_bootstrap.cpp is in KeyFile/Bootstrap: its loop of writes has one round for
-- each byte of a chunk, and a write takes at least one.
--
-- AP_KEM/randombytes_linux.c and ap_kem.cpp, in Random: the two loops over the attempts to
-- draw bytes, the flag, and the operations that read it (`ap_kem_enc` is in Kemtls/Session). The
-- attempts are a list, and a call that has used them all up has not returned.
--
-- GCS_MAVLink/GCS_FTP.h and GCS_FTP.cpp, in Ftp: the payload read and written (Ftp/Payload), which
-- session a request gets (Ftp/Sessions), `Session::handle_request` with the result of each call of
-- the file system (Ftp/Request), and what the thread does with a request (Ftp/Worker). A burst has
-- 500 rounds, as in the code; the size of a file has ten digits at most. A session that is closed
-- keeps its other fields. The start of the thread, its delays and the waits for room on the link are
-- left out.
--
-- GCS_MAVLink/GCS_Param.cpp, in Param: the download of all parameters (Param/Download), the queue of
-- single requests and its timer (Param/Queues), setting a parameter (Param/Setting) and the rates of
-- the streams (Param/Rates, with the slowdown that GCS_Common.cpp takes from the report of a radio).
-- The library AP_Param is a record of operations (`ParamLibrary`); a value is the 32 bits of its
-- float, and `is_equal` on floats is a parameter. The loops over replies and parameters have as many rounds as the code allows them.
--
-- Not modelled: the vendored library, sockets and files themselves, the other messages of
-- GCS_Common.cpp, the proxy under Tools, and the other experiments.
pub mod Base
pub mod Kemtls
pub mod Routing
pub mod Signing
pub mod Mission
pub mod Nonce
pub mod KeyFile
pub mod Random
pub mod Ftp
pub mod Param
