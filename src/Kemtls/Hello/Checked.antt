-- ===== src/Kemtls/Hello/Checked.antt =====
-- `handle_hqc_hello` as a whole: when its read of the key stays in the buffer, and what an accepted
-- offer has passed.
use pq_key_establishment_mav.Base.{
  ℕ, ◌+◌, ◌-◌, ◌≤◌, ◌<◌, ◌≡◌, ◌⊎◌, refl, List, [], ◌∷◌, ◌==◌, take, ltb, ltb→lt, length, true,
  arith, ◌||◌, not, Option, none, some, Bool-cases, Option-cases, ap₂, inl, inr, length-take,
  length-replicate,
}
use pq_key_establishment_mav.Base.Bytes.{write_at, zeros}
use pq_key_establishment_mav.Base.Bytes.Laws.{write_at_fits, write_at_overrun, length-write_at}
use pq_key_establishment_mav.Kemtls.Types.{Platform, HqcSession, HqcState, Hello, Reply}
use pq_key_establishment_mav.Kemtls.Session.{ap_kem_enc}
use pq_key_establishment_mav.Kemtls.Pdk.{
  HelloEnv, PdkRead, full, short, overrun, read_pks, pdk_size, pdk_fingerprint, pdk_bad, below_size,
  bytes_eq,
}
use pq_key_establishment_mav.Kemtls.Hello.{
  hello_begin, send_nack, set_aead, nack_free, status_free, free_pke, free_pks_pke, hello_accept,
  hello_static, hello_fingerprint, hello_read_key, hello_load_pdk, handle_hqc_hello,
}

-- What the reads of the key give: the buffer keeps its size.
pub data IsRead (size : ℕ) : PdkRead → Type 0 where
  all_read : (pks : List ℕ) → length pks ≡ size → IsRead size (full pks)
  some_missing : IsRead size short

pub read_pks-IsRead :
    (rs : List (List ℕ)) (pksz got : ℕ) (pks : List ℕ)
    → pksz ≤ length pks
    → IsRead (length pks) (read_pks rs pksz got pks)
unfolding read_pks
read_pks-IsRead [] pksz got pks p = elim (Bool-cases (ltb got pksz)) [
  | inl e ↦ rw e some_missing
  | inr e ↦ rw e (all_read pks refl)
]
read_pks-IsRead (r ∷ rs) pksz got pks p = elim (Bool-cases (ltb got pksz)) [
  | inr e ↦ rw e (all_read pks refl)
  | inl e ↦ rw e (elim (Bool-cases (length (take (pksz - got) r) == 0)) [
    | inl z ↦ rw z some_missing
    | inr z ↦
        let (out, wrote) =
          write_at_fits pks got (take (pksz - got) r)
            (omega (arith, length-take (pksz - got) r, ltb→lt got pksz e, p)) in
        let n : length out ≡ length pks = length-write_at pks got (take (pksz - got) r) out wrote in
        let rest =
          read_pks-IsRead rs pksz (got + length (take (pksz - got) r)) out (omega (arith, n, p)) in
        rw (z, wrote) (rw n at rest)
  ])
]

-- If the header's key size is larger than the buffer and the first read gives all of it, the loop
-- writes past the buffer.
pub read_pks-overrun :
    (r : List ℕ) (rs : List (List ℕ)) (pksz : ℕ) (pks : List ℕ)
    → length pks < pksz
    → pksz ≤ length r
    → read_pks (r ∷ rs) pksz 0 pks ≡ overrun
unfolding read_pks
read_pks-overrun r rs pksz pks p q =
    let n : length (take (pksz - 0) r) ≡ pksz = omega (arith, length-take (pksz - 0) r, q) in
    let gone : write_at pks 0 (take (pksz - 0) r) ≡ none =
      write_at_overrun pks 0 (take (pksz - 0) r) (omega (arith, n, p)) (omega (arith, n, p)) in
    ground (arith, n, p, gone)

pub bytes_eq_sound : (xs ys : List ℕ) → bytes_eq xs ys ≡ true → xs ≡ ys
unfolding bytes_eq
bytes_eq_sound [] [] e = refl
bytes_eq_sound [] (y ∷ ys) e = cc
bytes_eq_sound (x ∷ xs) [] e = cc
bytes_eq_sound (x ∷ xs) (y ∷ ys) e =
    ap₂ ◌∷◌ (ground (arith, e)) (bytes_eq_sound xs ys (ground (arith, e)))

-- A session that starts to send: it holds the key that was read, and as the static ciphertext what
-- the KEM made of this key.
pub record IsSettled (c : Platform) (env : HelloEnv) (pks : List ℕ) (r : Reply) : Type 0 where
  pub sending : r.session.state ≡ HqcState.ct_tx
  pub kept : r.session.rx.pks ≡ some pks
  pub fresh : List ℕ
  pub room : env.malloc_cts ≡ some fresh
  pub encapsulated :
      r.session.rx.cts ≡ some (ap_kem_enc c env.entropy fresh (zeros c.ss_bytes) pks).ct

-- What is left of a handshake whose offer is in order.
data IsLoaded (c : Platform) (env : HelloEnv) : Option Reply → Type 0 where
  turned_down : (r : Reply) → r.session.state ≡ HqcState.idle → IsLoaded c env (some r)
  loaded :
      (r : Reply) (pks : List ℕ)
      → IsSettled c env pks r
      → read_pks env.reads (pdk_size env.header) 0 (zeros c.pk_bytes) ≡ full pks
      → length pks ≡ c.pk_bytes
      → c.sha256 (take (pdk_size env.header) pks) ≡ pdk_fingerprint env.header
      → IsLoaded c env (some r)

module _ (c : Platform) (env : HelloEnv) where
  hello_static-IsSettled :
      (s : HqcSession) (pks : List ℕ)
      → s.state ≡ HqcState.idle
      → s.rx.pks ≡ some pks
      → ((hello_static c s env pks).session.state ≡ HqcState.idle)
        ⊎ IsSettled c env pks (hello_static c s env pks)
  unfolding hello_static hello_accept nack_free send_nack free_pks_pke
  hello_static-IsSettled s pks e k = elim (Option-cases env.malloc_cts) [
    | inl f ↦ simp (f, hello_static) (inl e)
    | inr (fresh, f) ↦
        simp (f, hello_static)
          (elim (Bool-cases (ap_kem_enc c env.entropy fresh (zeros c.ss_bytes) pks).success) [
            | inr g ↦ rw g (inl e)
            | inl g ↦ rw g (
                inr (record {
                  sending = refl;
                  kept = k;
                  fresh = fresh;
                  room = f;
                  encapsulated = refl;
                }))
          ])
  ]

  hello_fingerprint-IsLoaded :
      (s : HqcSession) (pks : List ℕ)
      → s.state ≡ HqcState.idle
      → s.rx.pks ≡ some pks
      → read_pks env.reads (pdk_size env.header) 0 (zeros c.pk_bytes) ≡ full pks
      → length pks ≡ c.pk_bytes
      → IsLoaded c env (some (hello_fingerprint c s env pks))
  unfolding hello_fingerprint nack_free send_nack
  hello_fingerprint-IsLoaded s pks e k read n =
      elim (Bool-cases
        (bytes_eq (c.sha256 (take (pdk_size env.header) pks)) (pdk_fingerprint env.header))) [
          | inr f ↦ rw f (turned_down _ e)
          | inl f ↦ rw f (elim (hello_static-IsSettled s pks e k) [
            | inl i ↦ turned_down _ i
            | inr i ↦ loaded _ pks i read n (bytes_eq_sound _ _ f)
          ])
        ]

  read-IsLoaded :
      (s : HqcSession) (r : PdkRead)
      → s.state ≡ HqcState.idle
      → read_pks env.reads (pdk_size env.header) 0 (zeros c.pk_bytes) ≡ r
      → IsRead c.pk_bytes r
      → IsLoaded c env (elim r as (λ _. Option Reply) [
        | full pks ↦
            some (hello_fingerprint c (record s { rx = record (s.rx) { pks = some pks } }) env pks)
        | short ↦ some (status_free s 3 free_pks_pke)
        | overrun ↦ none
      ])
  unfolding status_free free_pks_pke
  read-IsLoaded s _ e read (all_read pks n) = hello_fingerprint-IsLoaded _ pks e refl read n
  read-IsLoaded s _ e read some_missing = turned_down _ e

  hello_read_key-IsLoaded :
      (s : HqcSession)
      → s.state ≡ HqcState.idle
      → pdk_size env.header ≤ c.pk_bytes
      → IsLoaded c env (hello_read_key c s env)
  unfolding hello_read_key status_free free_pke
  hello_read_key-IsLoaded s e p = elim (Bool-cases env.calloc_pks) [
    | inr f ↦ simp (f) (turned_down _ e)
    | inl f ↦
        let n : length (zeros c.pk_bytes) ≡ c.pk_bytes = length-replicate {A = ℕ} c.pk_bytes 0 in
        let got =
          read_pks-IsRead env.reads (pdk_size env.header) 0 (zeros c.pk_bytes)
            (omega (arith, n, p)) in
        simp (f) (read-IsLoaded s _ e refl (rw n at got))
  ]

  hello_load_pdk-IsLoaded :
      (s : HqcSession)
      → s.state ≡ HqcState.idle
      → pdk_size env.header ≤ c.pk_bytes
      → IsLoaded c env (hello_load_pdk c s env)
  unfolding hello_load_pdk nack_free send_nack free_pke
  hello_load_pdk-IsLoaded s e p = elim (Bool-cases (below_size env.stat 56)) [
    | inl f ↦ rw f (turned_down _ e)
    | inr f ↦ rw f (elim (Bool-cases (not env.opens)) [
      | inl g ↦ rw g (turned_down _ e)
      | inr g ↦ rw g (elim (Bool-cases (not (length env.header == 56))) [
        | inl h ↦ rw h (turned_down _ e)
        | inr h ↦ rw h (elim (Bool-cases (pdk_bad env)) [
          | inl k ↦ rw k (turned_down _ e)
          | inr k ↦ rw k (hello_read_key-IsLoaded s e p)
        ])
      ])
    ])
  ]

-- What a greeting is answered with.
pub data IsGreeted (c : Platform) (m : Hello) (env : HelloEnv) : Option Reply → Type 0 where
  refused : (r : Reply) → r.session.state ≡ HqcState.idle → IsGreeted c m env (some r)
  accepted :
      (r : Reply) (pks : List ℕ)
      → IsSettled c env pks r
      → read_pks env.reads (pdk_size env.header) 0 (zeros c.pk_bytes) ≡ full pks
      → (m.version ≡ 1) × (m.suite_id ≡ 1)
      → (0 < m.pk_len) × (m.pk_len ≤ 65536)
      → m.aead_offer ≤ 2
      → length pks ≡ c.pk_bytes
      → c.sha256 (take (pdk_size env.header) pks) ≡ pdk_fingerprint env.header
      → IsGreeted c m env (some r)

IsGreeted-of :
    (c : Platform) (m : Hello) (env : HelloEnv) (o : Option Reply)
    → (m.version ≡ 1) × (m.suite_id ≡ 1)
    → (0 < m.pk_len) × (m.pk_len ≤ 65536)
    → m.aead_offer ≤ 2
    → IsLoaded c env o
    → IsGreeted c m env o
IsGreeted-of c m env _ a b d (turned_down r e) = refused r e
IsGreeted-of c m env _ a b d (loaded r pks e g n f) = accepted r pks e g a b d n f

-- If the file's key is no larger than a public key, no read writes past its buffer, and a hello
-- either leaves the session idle or starts sending. It starts sending only if version, suite, key
-- length and cipher offer are in range and the SHA-256 of the key that the reads gave is the file's
-- fingerprint; the session then holds this key, and as its static ciphertext what the KEM makes of
-- this key.
pub handle_hqc_hello-IsGreeted :
    (c : Platform) (s : HqcSession) (m : Hello) (env : HelloEnv)
    → pdk_size env.header ≤ c.pk_bytes
    → IsGreeted c m env (handle_hqc_hello c s m env)
unfolding handle_hqc_hello hello_begin send_nack set_aead
handle_hqc_hello-IsGreeted c s m env p = elim (Bool-cases (not (m.version == 1))) [
  | inl f ↦ rw f (refused _ refl)
  | inr f ↦ rw f (elim (Bool-cases (not (m.suite_id == 1))) [
    | inl g ↦ rw g (refused _ refl)
    | inr g ↦ rw g (elim (Bool-cases (m.pk_len == 0 || ltb 65536 m.pk_len)) [
      | inl h ↦ rw h (refused _ refl)
      | inr h ↦ rw h (elim (Bool-cases (ltb 2 m.aead_offer)) [
        | inl k ↦ rw k (refused _ refl)
        | inr k ↦ rw k (elim (Option-cases env.malloc_pke) [
          | inl z ↦ simp (z) (refused _ refl)
          | inr (pke, z) ↦ simp (z) (
              IsGreeted-of c m env _ (ground arith, ground arith) (ground arith, ground arith)
                (ground arith) (hello_load_pdk-IsLoaded c env _ refl p))
        ])
      ])
    ])
  ])
]
