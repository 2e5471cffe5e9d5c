-- ===== src/Kemtls/Wire.antt =====
-- GCS_KEMTLS.cpp: the transcript hash `th` and the canonical records that are added to it.
-- A record is a header of little-endian fields that begins with a tag, then the longer fields.
use pq_key_establishment_mav.Base.{ℕ, ◌/◌, List, [], ◌∷◌, ◌++◌, ◌==◌, if◌then◌else◌, take, ltb}
use pq_key_establishment_mav.Base.Bytes.{le_bytes, u8}
use pq_key_establishment_mav.Kemtls.Types.{Platform, KexStatus, Hello, HelloAck, Finish}

-- static inline void le32(...), le64(...)
unfoldable pub le32 : ℕ → List ℕ
unfolding le_bytes
le32 v = le_bytes 4 v

unfoldable pub le64 : ℕ → List ℕ
unfolding le_bytes
le64 v = le_bytes 8 v

-- The headers; a byte field is stored as it stands, a wider value is cut to a byte.
unfoldable pub hello_header : Hello → List ℕ
hello_header m =
    le32 61000
    ++ (le64 m.session_id
        ++ (le32 m.pk_len ++ (m.version ∷ m.suite_id ∷ m.flags ∷ m.aead_offer ∷ [])))

unfoldable pub hello_ack_header : Platform → HelloAck → List ℕ
hello_ack_header c a =
    le32 61001
    ++ (le64 a.session_id
        ++ (u8 a.mtu
            ∷ u8 (a.mtu / 256)
            ∷ a.window
            ∷ a.required_alg
            ∷ a.accept
            ∷ c.kex_code a.status
            ∷ (le32 a.ct_e_len ++ le32 a.ct_s_len)))

unfoldable pub pk_summary_header : ℕ → ℕ → List ℕ
pk_summary_header session_id pk_len = le32 61002 ++ (le64 session_id ++ le32 pk_len)

unfoldable pub ct_summary_header : ℕ → ℕ → ℕ → List ℕ
ct_summary_header session_id kind ct_len = le32 61003 ++ (le64 session_id ++ (kind ∷ le32 ct_len))

unfoldable pub finish_header : Finish → List ℕ
finish_header m = le32 61005 ++ (le64 m.session_id ++ (m.role ∷ m.tag_len ∷ []))

unfoldable pub abort_header : ℕ → ℕ → ℕ → ℕ → List ℕ
abort_header session_id status detail value =
    le32 61006 ++ (le64 session_id ++ (status ∷ detail ∷ le32 value))

module _ (c : Platform) where
  -- TH = SHA256(TH || msg)
  unfoldable pub th_update : List ℕ → List ℕ → List ℕ
  th_update th msg = c.sha256 (th ++ msg)

  unfoldable pub th_add_hello : List ℕ → Hello → List ℕ
  th_add_hello th m =
      th_update (th_update (th_update th (hello_header m)) (take 16 m.handshake_salt))
        (take 32 m.rc)

  unfoldable pub th_add_hello_ack : List ℕ → HelloAck → List ℕ
  th_add_hello_ack th a = th_update (th_update th (hello_ack_header c a)) (take 32 a.rs)

  unfoldable pub th_add_pk_summary : List ℕ → ℕ → ℕ → List ℕ → List ℕ
  th_add_pk_summary th session_id pk_len sha =
      th_update (th_update th (pk_summary_header session_id pk_len)) (take 32 sha)

  unfoldable pub th_add_ct_summary : List ℕ → ℕ → ℕ → ℕ → List ℕ → List ℕ
  th_add_ct_summary th session_id kind ct_len sha =
      th_update (th_update th (ct_summary_header session_id kind ct_len)) (take 32 sha)

  -- `tag_len` 32 and a shorter tag are added alike; an empty tag is not added.
  unfoldable pub th_add_finish : List ℕ → Finish → List ℕ
  th_add_finish th m =
      if m.tag_len == 32
      then th_update (th_update th (finish_header m)) (take 32 m.tag)
      else if ltb 0 m.tag_len
      then th_update (th_update th (finish_header m)) (take m.tag_len m.tag)
      else th_update th (finish_header m)

  unfoldable pub th_add_abort : List ℕ → ℕ → KexStatus → ℕ → ℕ → List ℕ
  th_add_abort th session_id status detail value =
      th_update th (abort_header session_id (c.kex_code status) detail value)
