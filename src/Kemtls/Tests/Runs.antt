-- ===== src/Kemtls/Tests/Runs.antt =====
-- A whole handshake of the toy platform: the hello, the key in one fragment, the acknowledgements
-- of both ciphertexts, and the Finished message with the right tag.
use pq_key_establishment_mav.Base.{
  ℕ, ◌≡◌, ◌≢◌, refl, sym, ◌∙◌, subst, List, [], ◌∷◌, ◌++◌, length, Option, none, some,
}
use pq_key_establishment_mav.Base.Bytes.{le_value, write_at}
use pq_key_establishment_mav.Kemtls.Types.{
  HqcSession, HqcState, PkChunk, CtAck, Finish, Reply, chunks_of, pk_chunks,
}
use pq_key_establishment_mav.Kemtls.Session.{
  note_rx, reset, clamp_kex_params, on_hello_start, select_aead, ap_kem_enc, encap_into,
  start_encap, or_malloc,
}
use pq_key_establishment_mav.Kemtls.Stream.{
  send_window, fit_acked, streams_done, inflight_from, chunk_out, all_acked, every,
}
use pq_key_establishment_mav.Kemtls.Pdk.{
  read_pks, pdk_size, pdk_fingerprint, pdk_bad, below_size, bytes_eq, pdk_magic, pdk_version,
}
use pq_key_establishment_mav.Kemtls.Hello.{
  hello_begin, set_aead, hello_accept, hello_static, hello_fingerprint, hello_read_key,
  hello_load_pdk, handle_hqc_hello,
}
use pq_key_establishment_mav.Kemtls.PkChunk.{
  handle_hqc_pk_chunk, pk_checked, pk_stored, pk_complete, pk_end, pk_encapsulated, is_encap_done,
  store_fragment, acked_or_fresh, base_bytes, next_base, advance,
}
use pq_key_establishment_mav.Kemtls.CtAck.{
  acked_after, handle_hqc_ct_ack, stream, ct_ack_on, ct_ack_stream, ct_ack_sent, finish_streams,
  put_stream, mark_mask, mark_prefix, drop_retries, send_missing,
}
use pq_key_establishment_mav.Kemtls.Run.{
  Event, on_hello, on_pk_chunk, on_ct_ack, on_finish, step, run,
}
use pq_key_establishment_mav.Kemtls.Kdf.Tags.{length-expected_tag}
use pq_key_establishment_mav.Kemtls.Finish.{handle_hqc_finish, session_prk}
use pq_key_establishment_mav.Kemtls.Finish.Authentic.{
  IsWellTimed, right_tag, handle_hqc_finish_active_iff,
}
use pq_key_establishment_mav.Kemtls.Run.Valid.{IsValid, AllPossible, reset-IsValid}
use pq_key_establishment_mav.Kemtls.Run.Moves.{IsHandled, step-IsNext, run-IsValid, step_active}
use pq_key_establishment_mav.Kemtls.Run.Trace.{IsKeyed, run_active-IsKeyed}
use pq_key_establishment_mav.Kemtls.Tests.Toy.{
  key_file_small, toy, toy-IsPlatform, sending, greeting, key_file, env, sum_of,
}

abbrev session_of : Option HqcSession → HqcSession
session_of none = sending
session_of (some s) = s

abbrev whole_key : PkChunk
whole_key = record { session_id = 9; offset = 0; count = 5; payload = 10 ∷ 20 ∷ 30 ∷ 40 ∷ 50 ∷ [] }

abbrev ack_of : ℕ → CtAck
ack_of kind = record { session_id = 9; ct_kind = kind; base = 0; mask = 1 }

abbrev four : List Event
four =
    on_hello greeting key_file
    ∷ on_pk_chunk whole_key env
    ∷ on_ct_ack (ack_of 0) 1200
    ∷ on_ct_ack (ack_of 1) 1210
    ∷ []

abbrev start : HqcSession
start = reset sending

-- The session after the four messages.
abbrev acknowledged : HqcSession
acknowledged = session_of (run toy start four)

acknowledged-state : acknowledged.state ≡ HqcState.wait_cf
unfolding run step handle_hqc_hello hello_begin set_aead reset clamp_kex_params on_hello_start
    hello_load_pdk below_size pdk_bad hello_read_key read_pks hello_fingerprint bytes_eq
    pdk_fingerprint pdk_size le_value write_at pdk_magic pdk_version hello_static ap_kem_enc
    hello_accept send_window chunk_out handle_hqc_pk_chunk pk_checked pk_stored pk_complete pk_end
    pk_encapsulated is_encap_done store_fragment acked_or_fresh base_bytes next_base advance
    start_encap encap_into or_malloc handle_hqc_ct_ack ct_ack_on ct_ack_stream ct_ack_sent stream
    put_stream acked_after mark_mask mark_prefix fit_acked drop_retries send_missing inflight_from
    chunks_of pk_chunks note_rx finish_streams streams_done all_acked every sum_of select_aead
acknowledged-state = refl

acknowledged_inactive : acknowledged.state ≢ HqcState.active
acknowledged_inactive e =
    let f : HqcState.wait_cf ≡ HqcState.active = sym acknowledged-state ∙ e in cc

four-AllPossible : AllPossible toy four
four-AllPossible = ((refl, refl, key_file_small), (refl, (tt, (tt, tt))))

abbrev right_finish : Finish
right_finish = record { session_id = 9; role = 1; tag_len = 32; tag = right_tag toy acknowledged }

right_finish_whole : length right_finish.tag ≡ 32
right_finish_whole =
    length-expected_tag toy toy-IsPlatform (session_prk toy acknowledged) acknowledged.th

acknowledged-IsWellTimed : IsWellTimed acknowledged right_finish
unfolding run step handle_hqc_hello hello_begin set_aead reset clamp_kex_params on_hello_start
    hello_load_pdk below_size pdk_bad hello_read_key read_pks hello_fingerprint bytes_eq
    pdk_fingerprint pdk_size le_value write_at pdk_magic pdk_version hello_static ap_kem_enc
    hello_accept send_window chunk_out handle_hqc_pk_chunk pk_checked pk_stored pk_complete pk_end
    pk_encapsulated is_encap_done store_fragment acked_or_fresh base_bytes next_base advance
    start_encap encap_into or_malloc handle_hqc_ct_ack ct_ack_on ct_ack_stream ct_ack_sent stream
    put_stream acked_after mark_mask mark_prefix fit_acked drop_retries send_missing inflight_from
    chunks_of pk_chunks note_rx finish_streams streams_done all_acked every sum_of select_aead
acknowledged-IsWellTimed = record {
  same_session = refl;
  waiting = refl;
  client = refl;
  whole_tag = refl;
  delivered = refl;
}

abbrev handshake : List Event
handshake = four ++ (on_finish right_finish 2000 ∷ [])

abbrev finished : HqcSession
finished = (handle_hqc_finish toy acknowledged right_finish 2000).session

handshake-AllPossible : AllPossible toy handshake
handshake-AllPossible = ((refl, refl, key_file_small), (refl, (tt, (tt, (right_finish_whole, tt)))))

handshake_reached : run toy start handshake ≡ some finished
unfolding run step handle_hqc_hello hello_begin set_aead reset clamp_kex_params on_hello_start
    hello_load_pdk below_size pdk_bad hello_read_key read_pks hello_fingerprint bytes_eq
    pdk_fingerprint pdk_size le_value write_at pdk_magic pdk_version hello_static ap_kem_enc
    hello_accept send_window chunk_out handle_hqc_pk_chunk pk_checked pk_stored pk_complete pk_end
    pk_encapsulated is_encap_done store_fragment acked_or_fresh base_bytes next_base advance
    start_encap encap_into or_malloc handle_hqc_ct_ack ct_ack_on ct_ack_stream ct_ack_sent stream
    put_stream acked_after mark_mask mark_prefix fit_acked drop_retries send_missing inflight_from
    chunks_of pk_chunks note_rx finish_streams streams_done all_acked every sum_of select_aead
handshake_reached = refl

finished_active : finished.state ≡ HqcState.active
finished_active =
    (handle_hqc_finish_active_iff toy toy-IsPlatform acknowledged right_finish 2000
        right_finish_whole acknowledged_inactive).1
      (acknowledged-IsWellTimed, refl)

start_inactive : start.state ≢ HqcState.active
unfolding reset
start_inactive e = cc

finished-IsValid : IsValid toy finished
finished-IsValid =
    let (s', e, v) =
      run-IsValid toy toy-IsPlatform start handshake (reset-IsValid toy sending)
        handshake-AllPossible in
    subst (IsValid toy) (same (sym e ∙ handshake_reached)) v
  where
    same : {x y : HqcSession} → some x ≡ some y → x ≡ y
    same p = cc

step_active_example :
    (r : Reply) × (t : ℕ) × (step toy finished (on_ct_ack (ack_of 0) 3000) ≡ some r)
    × (r.session ≡ note_rx finished t)
step_active_example =
    step_active toy finished (on_ct_ack (ack_of 0) 3000) finished-IsValid finished_active tt

step-IsNext_example : IsHandled toy start (on_hello greeting key_file)
step-IsNext_example =
    step-IsNext toy toy-IsPlatform start (on_hello greeting key_file) (reset-IsValid toy sending)
      (refl, refl, key_file_small)

run-IsValid_example : (s' : HqcSession) × (run toy start four ≡ some s') × IsValid toy s'
run-IsValid_example =
    run-IsValid toy toy-IsPlatform start four (reset-IsValid toy sending) four-AllPossible

run_active-IsKeyed_example : IsKeyed toy start handshake finished
run_active-IsKeyed_example =
    run_active-IsKeyed toy toy-IsPlatform start handshake finished (reset-IsValid toy sending)
      start_inactive handshake-AllPossible handshake_reached finished_active
