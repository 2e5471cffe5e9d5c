-- ===== src/Kemtls/Run/Key.antt =====
-- A fragment of the key keeps a session valid and never leaves the buffer, and what transitions it
-- makes.
use pq_key_establishment_mav.Base.{
  ℕ, ◌+◌, ◌/◌, ◌%◌, ◌≡◌, ◌==◌, refl, sym, ◌∙◌, subst, arith, List, take, ltb, leb, ◌&&◌, ◌||◌, not,
  Bool-cases, Option-cases, inl, inr, Option, none, some, none-some,
}
use pq_key_establishment_mav.Kemtls.Types.{
  Platform, IsPlatform, HqcRxBuf, HqcSession, HqcState, PkChunk, Reply, pk_chunks,
}
use pq_key_establishment_mav.Kemtls.Session.{note_rx, start_encap}
use pq_key_establishment_mav.Kemtls.Wire.{th_add_pk_summary}
use pq_key_establishment_mav.Kemtls.PkChunk.{
  PkEnv, handle_hqc_pk_chunk, pk_checked, pk_stored, pk_complete, pk_end, pk_encapsulated,
  is_encap_done, base_bytes, next_base,
}
use pq_key_establishment_mav.Kemtls.Run.{on_pk_chunk}
use pq_key_establishment_mav.Kemtls.Run.Valid.{
  IsHeld, IsSized, IsValid, IsPhase, under_way, resting, IsOpen, IsNext,
}
use pq_key_establishment_mav.Kemtls.Run.Encap.{
  encapped, no_secret, store_fragment-IsHeld, start_encap-IsEncapped, pk_encapsulated-IsHeld,
}

module _ (c : Platform) (ok : IsPlatform c) where
  pk_complete-IsNext :
      (s : HqcSession) (m : PkChunk) (env : PkEnv) (pke : List ℕ)
      → IsHeld c s.rx
      → IsOpen s.state
      → IsSized c.ct_bytes env.malloc_cte
      → IsNext c (on_pk_chunk m env) s (pk_complete c s env pke).session
  unfolding pk_complete is_encap_done
  pk_complete-IsNext s m env pke v o n =
      let th =
        th_add_pk_summary c s.th s.rx.session_id s.rx.pk_len (c.sha256 (take s.rx.pk_len pke)) in
      let s1 : HqcSession = record s { th = th; state = HqcState.encap_ready } in
      elim (start_encap-IsEncapped c ok s1 env v n) [
        | encapped ct e f w ↦ simp (e) (record {
          valid = record {
            held = pk_encapsulated-IsHeld c ok (start_encap c s1 env.malloc_cte env.entropy) ct f w;
            phase = under_way (unfold pk_encapsulated in IsOpen.sending);
          };
          move = inr (o, inl (unfold pk_encapsulated in refl));
        })
        | no_secret e w ↦ simp (e) (record {
          valid = record { held = w; phase = under_way (subst IsOpen (sym e) IsOpen.failed) };
          move = inr (o, inr e);
        })
      ]

  pk_end-IsNext :
      (s : HqcSession) (m : PkChunk) (env : PkEnv) (pke : Option (List ℕ))
      → IsHeld c s.rx
      → IsOpen s.state
      → IsSized c.ct_bytes env.malloc_cte
      → IsNext c (on_pk_chunk m env) s (pk_end c s env pke).session
  unfolding pk_end
  pk_end-IsNext s m env none v o n = record {
    valid = record { held = v; phase = under_way o };
    move = inl refl;
  }
  pk_end-IsNext s m env (some pke) v o n = pk_complete-IsNext s m env pke v o n

  pk_stored-IsNext :
      (s : HqcSession) (m : PkChunk) (env : PkEnv)
      → IsHeld c s.rx
      → IsOpen s.state
      → IsSized c.ct_bytes env.malloc_cte
      → IsNext c (on_pk_chunk m env) s (pk_stored c s env).session
  unfolding pk_stored
  pk_stored-IsNext s m env v o n =
      let rcvd = base_bytes s.rx (next_base s.rx) in
      let w : IsHeld c (record (s.rx) { pke_rcvd = rcvd }) = record {
        key = v.key;
        eph = v.eph;
        sta = v.sta;
      } in
      elim (Bool-cases (leb s.rx.pk_len rcvd)) [
        | inl e ↦ rw e (
            let r =
              pk_end-IsNext (record s { rx = record (s.rx) { pke_rcvd = rcvd } }) m env s.rx.pke w o
                n in
            record { valid = r.valid; move = r.move })
        | inr e ↦
            rw e (record { valid = record { held = w; phase = under_way o }; move = inl refl })
      ]

  -- A fragment's outcome: an answer, and never a write past the buffer.
  abbrev pub IsAnswered : HqcSession → PkChunk → PkEnv → Option Reply → Type 0
  IsAnswered s m env o = (r : Reply) × (o ≡ some r) × IsNext c (on_pk_chunk m env) s r.session

  pk_checked-IsNext :
      (s : HqcSession) (m : PkChunk) (env : PkEnv) (pke : List ℕ)
      → IsValid c s
      → s.rx.pke ≡ some pke
      → IsOpen s.state
      → IsSized c.ct_bytes env.malloc_cte
      → IsAnswered s m env (pk_checked c s m env pke)
  unfolding pk_checked
  pk_checked-IsNext s m env pke v p o n =
      let stay : IsNext c (on_pk_chunk m env) s s = record { valid = v; move = inl refl } in
      elim (Bool-cases (m.count == 0 || ltb s.rx.mtu m.count)) [
        | inl e ↦ rw e (_, refl, stay)
        | inr e ↦
            rw e
              (elim (Bool-cases
                (ltb s.rx.pk_len m.offset || ltb s.rx.pk_len (m.offset + m.count))) [
                  | inl f ↦ rw f (_, refl, stay)
                  | inr f ↦
                      rw f
                        (elim (Bool-cases (
                          not (m.offset % s.rx.mtu == 0)
                          && not (m.offset + m.count == s.rx.pk_len))) [
                            | inl g ↦ rw g (_, refl, stay)
                            | inr g ↦
                                rw g
                                  (elim (Bool-cases (leb (pk_chunks s.rx) (m.offset / s.rx.mtu))) [
                                    | inl h ↦ rw h (_, refl, stay)
                                    | inr h ↦
                                        let (rx', e', w) =
                                          store_fragment-IsHeld c s.rx pke m v.held
                                            (rw p at v.held.key.sized) (ground (arith, f)) in
                                        let r =
                                          pk_stored-IsNext (record s { rx = rx' }) m env w o n in
                                        rw (h, e')
                                          (_, refl, record { valid = r.valid; move = r.move })
                                  ])
                          ])
                ])
      ]

  open_of_key :
      {st : HqcState} {rx : HqcRxBuf} {pke : List ℕ} → IsPhase st rx → rx.pke ≡ some pke → IsOpen st
  open_of_key (under_way o) e = o
  open_of_key (resting r z) e = absurd (none-some (sym z.no_pke ∙ e))

  pub handle_hqc_pk_chunk-IsNext :
      (s : HqcSession) (m : PkChunk) (env : PkEnv)
      → IsValid c s
      → IsSized c.ct_bytes env.malloc_cte
      → IsAnswered s m env (handle_hqc_pk_chunk c s m env)
  unfolding handle_hqc_pk_chunk note_rx
  handle_hqc_pk_chunk-IsNext s m env v n =
      let s1 : HqcSession = record s { t_last_rx = env.now } in
      let v1 : IsValid c s1 = record { held = v.held; phase = v.phase } in
      let stay : IsNext c (on_pk_chunk m env) s s1 = record { valid = v1; move = inl refl } in
      elim (Bool-cases (not (m.session_id == s.rx.session_id))) [
        | inl e ↦ rw e (_, refl, stay)
        | inr e ↦ rw e (elim (Bool-cases (s.rx.pk_len == 0)) [
          | inl f ↦ rw f (_, refl, stay)
          | inr f ↦ rw f (elim (Option-cases s.rx.pke) [
            | inl g ↦ simp (g) (_, refl, stay)
            | inr (pke, g) ↦ simp (g) (
                let (r, e', w) = pk_checked-IsNext s1 m env pke v1 g (open_of_key v.phase g) n in
                (r, e', record { valid = w.valid; move = w.move }))
          ])
        ])
      ]
