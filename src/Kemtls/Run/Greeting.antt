-- ===== src/Kemtls/Run/Greeting.antt =====
-- A hello makes the session start over: it leaves a valid session, idle or sending, and never
-- writes past a buffer.
use pq_key_establishment_mav.Base.{
  ℕ, ◌≡◌, ◌==◌, refl, arith, List, length, length-replicate, take, ltb, ◌||◌, not, Bool-cases,
  Option-cases, inl, inr, Option, none, some,
}
use pq_key_establishment_mav.Base.Bytes.{zeros}
use pq_key_establishment_mav.Kemtls.Types.{
  Platform, IsPlatform, HqcSession, Hello, Reply, KexStatus,
}
use pq_key_establishment_mav.Kemtls.Session.{select_aead}
use pq_key_establishment_mav.Kemtls.Pdk.{
  HelloEnv, full, short, overrun, PdkRead, pdk_size, pdk_fingerprint, pdk_bad, below_size, bytes_eq,
}
use pq_key_establishment_mav.Kemtls.Hello.{
  hello_begin, send_nack, set_aead, status_free, free_pke, free_pks_pke, hello_fingerprint,
  hello_read_key, hello_load_pdk, handle_hqc_hello,
}
use pq_key_establishment_mav.Kemtls.Hello.Checked.{IsRead, all_read, some_missing, read_pks-IsRead}
use pq_key_establishment_mav.Kemtls.Run.{on_hello}
use pq_key_establishment_mav.Kemtls.Run.Valid.{IsSized, IsNext, IsPossible, no_stream}
use pq_key_establishment_mav.Kemtls.Run.Fresh.{
  IsFresh, send_nack-IsNext, freed-IsFresh, free_pke-IsNext, free_pks_pke-IsNext, nack_pks-IsNext,
  hello_static-IsNext, fresh-IsNext,
}

module _ (c : Platform) (ok : IsPlatform c) (s0 : HqcSession) (m : Hello) (env : HelloEnv) where
  abbrev pub IsGreetedWell : Option Reply → Type 0
  IsGreetedWell o = (r : Reply) × (o ≡ some r) × IsNext c (on_hello m env) s0 r.session

  read_key-IsNext :
      (s : HqcSession) (p : PdkRead)
      → IsFresh c s
      → IsSized c.ct_bytes env.malloc_cts
      → IsRead c.pk_bytes p
      → IsGreetedWell (elim p as (λ _. Option Reply) [
        | full pks ↦
            some (hello_fingerprint c (record s { rx = record (s.rx) { pks = some pks } }) env pks)
        | short ↦ some (status_free s 3 free_pks_pke)
        | overrun ↦ none
      ])
  unfolding hello_fingerprint status_free
  read_key-IsNext s _ v n some_missing = (_, refl, free_pks_pke-IsNext c ok s0 m env s v)
  read_key-IsNext s _ v n (all_read pks k) =
      let s1 : HqcSession = record s { rx = record (s.rx) { pks = some pks } } in
      let v1 : IsFresh c s1 = record {
        held = record { key = v.held.key; eph = v.held.eph; sta = v.held.sta };
        at_idle = v.at_idle;
        no_cte = v.no_cte;
        no_cts = v.no_cts;
      } in
      elim (Bool-cases
        (bytes_eq (c.sha256 (take (pdk_size env.header) pks)) (pdk_fingerprint env.header))) [
          | inl e ↦ rw e (_, refl, hello_static-IsNext c ok s0 m env s1 pks v1 n)
          | inr e ↦ rw e (_, refl, nack_pks-IsNext c ok s0 m env s1 _ v1)
        ]

  hello_read_key-IsNext :
      (s : HqcSession)
      → IsFresh c s
      → IsPossible c (on_hello m env)
      → IsGreetedWell (hello_read_key c s env)
  unfolding hello_read_key status_free
  hello_read_key-IsNext s v p = elim (Bool-cases env.calloc_pks) [
    | inr e ↦ simp (e) (
      _,
      refl,
      fresh-IsNext c ok s0 m env (free_pke s) (freed-IsFresh c ok s0 m env s v)
          (unfold free_pke in refl),
    )
    | inl e ↦
        let n : length (zeros c.pk_bytes) ≡ c.pk_bytes = length-replicate {A = ℕ} c.pk_bytes 0 in
        let got =
          read_pks-IsRead env.reads (pdk_size env.header) 0 (zeros c.pk_bytes)
            (omega (arith, n, p.2)) in
        simp (e) (read_key-IsNext s _ v p.1 (rw n at got))
  ]

  hello_load_pdk-IsNext :
      (s : HqcSession)
      → IsFresh c s
      → IsPossible c (on_hello m env)
      → IsGreetedWell (hello_load_pdk c s env)
  unfolding hello_load_pdk
  hello_load_pdk-IsNext s v p = elim (Bool-cases (below_size env.stat 56)) [
    | inl f ↦ rw f (_, refl, free_pke-IsNext c ok s0 m env s _ v)
    | inr f ↦ rw f (elim (Bool-cases (not env.opens)) [
      | inl g ↦ rw g (_, refl, free_pke-IsNext c ok s0 m env s _ v)
      | inr g ↦ rw g (elim (Bool-cases (not (length env.header == 56))) [
        | inl h ↦ rw h (_, refl, free_pke-IsNext c ok s0 m env s _ v)
        | inr h ↦ rw h (elim (Bool-cases (pdk_bad env)) [
          | inl k ↦ rw k (_, refl, free_pke-IsNext c ok s0 m env s _ v)
          | inr k ↦ rw k (hello_read_key-IsNext s v p)
        ])
      ])
    ])
  ]

  -- The session with the offer, the cipher chosen, and a key buffer of this size.
  begun-IsFresh :
      (alg : ℕ) (pke : Option (List ℕ))
      → IsSized m.pk_len pke
      → IsFresh c (
          let s = set_aead (hello_begin c s0 m env) alg in
          record s { rx = record (s.rx) { pke = pke } })
  unfolding set_aead hello_begin
  begun-IsFresh alg pke n = record {
    held = record {
      key = record { mtu_is = refl; window_is = refl; sized = n; flags = inl refl };
      eph = no_stream c.ct_bytes;
      sta = no_stream c.ct_bytes;
    };
    at_idle = refl;
    no_cte = refl;
    no_cts = refl;
  }

  begun_nack :
      (alg : ℕ) (status : KexStatus)
      → IsNext c
          (on_hello m env)
          s0
          (send_nack c (set_aead (hello_begin c s0 m env) alg) status).session
  unfolding set_aead hello_begin
  begun_nack alg status =
      let f = begun-IsFresh alg none tt in
      send_nack-IsNext c ok s0 m env (set_aead (hello_begin c s0 m env) alg) status
        (record {
          held = record { key = f.held.key; eph = f.held.eph; sta = f.held.sta };
          at_idle = refl;
          no_cte = refl;
          no_cts = refl;
        })
        refl

  pub handle_hqc_hello-IsNext :
      IsPossible c (on_hello m env) → IsGreetedWell (handle_hqc_hello c s0 m env)
  unfolding handle_hqc_hello
  handle_hqc_hello-IsNext p = elim (Bool-cases (not (m.version == 1))) [
    | inl f ↦ rw f (_, refl, begun_nack _ _)
    | inr f ↦ rw f (elim (Bool-cases (not (m.suite_id == 1))) [
      | inl g ↦ rw g (_, refl, begun_nack _ _)
      | inr g ↦ rw g (elim (Bool-cases (m.pk_len == 0 || ltb 65536 m.pk_len)) [
        | inl h ↦ rw h (_, refl, begun_nack _ _)
        | inr h ↦ rw h (elim (Bool-cases (ltb 2 m.aead_offer)) [
          | inl k ↦ rw k (_, refl, begun_nack _ _)
          | inr k ↦ rw k (elim (Option-cases env.malloc_pke) [
            | inl z ↦ simp (z) (_, refl, begun_nack _ _)
            | inr (pke, z) ↦ simp (z) (
                hello_load_pdk-IsNext _
                  (begun-IsFresh (select_aead m.aead_offer) (some pke) (rw z at p.0)) p)
          ])
        ])
      ])
    ])
  ]
