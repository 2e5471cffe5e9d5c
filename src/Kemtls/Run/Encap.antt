-- ===== src/Kemtls/Run/Encap.antt =====
-- The parts of a fragment's handling: the store of the fragment, and the encapsulation after the
-- last one, keep the buffers as they should be.
use pq_key_establishment_mav.Base.{
  ℕ, ◌+◌, ◌/◌, ◌≤◌, ◌≡◌, ◌==◌, refl, ◌∙◌, arith, List, length, take, length-take, length-set, set,
  get_or, true, false, Bool-cases, Option-cases, inl, inr, Option, none, some,
}
use pq_key_establishment_mav.Base.Bytes.{zeros}
use pq_key_establishment_mav.Base.Bytes.Laws.{write_at_fits, length-write_at}
use pq_key_establishment_mav.Kemtls.Types.{
  Platform, IsPlatform, HqcRxBuf, HqcSession, HqcState, PkChunk, chunks_of, pk_chunks,
}
use pq_key_establishment_mav.Kemtls.Session.{
  Entropy, ap_kem_enc, encap_into, start_encap, or_malloc,
}
use pq_key_establishment_mav.Kemtls.Stream.Window.{send_window-IsWindow}
use pq_key_establishment_mav.Kemtls.PkChunk.{
  PkEnv, pk_encapsulated, cte_bytes, store_fragment, acked_or_fresh,
}
use pq_key_establishment_mav.Kemtls.PkChunk.Store.{length-acked_or_fresh}
use pq_key_establishment_mav.Kemtls.Run.Valid.{IsHeld, IsSized}

-- Storing a fragment that lies in the key: the write stays in the buffer.
pub store_fragment-IsHeld :
    (c : Platform) (rx : HqcRxBuf) (pke : List ℕ) (m : PkChunk)
    → IsHeld c rx
    → length pke ≡ rx.pk_len
    → m.offset + m.count ≤ rx.pk_len
    → (rx' : HqcRxBuf) × (store_fragment rx pke m ≡ some rx') × IsHeld c rx'
unfolding store_fragment pk_chunks
store_fragment-IsHeld c rx pke m v n h =
    let acked = acked_or_fresh rx.pke_acked (chunks_of rx.pk_len rx.mtu) in
    let k : length acked ≡ chunks_of rx.pk_len rx.mtu =
      length-acked_or_fresh rx.pke_acked (chunks_of rx.pk_len rx.mtu) v.key.flags in
    let (out, wrote) =
      write_at_fits pke m.offset (take m.count m.payload)
        (omega (arith, length-take m.count m.payload)) in
    elim (Bool-cases (get_or acked (m.offset / rx.mtu) false)) [
      | inl e ↦ (
        record rx { pke_acked = acked },
        rw e refl,
        record {
          key = record {
            mtu_is = v.key.mtu_is;
            window_is = v.key.window_is;
            sized = v.key.sized;
            flags = inr k;
          };
          eph = v.eph;
          sta = v.sta;
        },
      )
      | inr e ↦ (
        record rx { pke = some out; pke_acked = set acked (m.offset / rx.mtu) true },
        rw (e, wrote) refl,
        record {
          key = record {
            mtu_is = v.key.mtu_is;
            window_is = v.key.window_is;
            sized = length-write_at pke m.offset (take m.count m.payload) out wrote ∙ n;
            flags = inr (length-set acked (m.offset / rx.mtu) true ∙ k);
          };
          eph = v.eph;
          sta = v.sta;
        },
      )
    ]

-- What an attempt to encapsulate leaves.
pub data IsEncapped (c : Platform) (s : HqcSession) : Type 0 where
  encapped :
      (ct : List ℕ)
      → s.state ≡ HqcState.encap_done
      → s.rx.cte ≡ some ct
      → IsHeld c s.rx
      → IsEncapped c s
  no_secret : s.state ≡ HqcState.fail → IsHeld c s.rx → IsEncapped c s

module _ (c : Platform) (ok : IsPlatform c) where
  pub ap_kem_enc_sized :
      (e : Entropy) (ct ss pk : List ℕ)
      → length ct ≡ c.ct_bytes
      → length (ap_kem_enc c e ct ss pk).ct ≡ c.ct_bytes
  unfolding ap_kem_enc
  ap_kem_enc_sized e ct ss pk n = elim (Bool-cases e.failed_before) [
    | inl f ↦ rw f n
    | inr f ↦ rw f (elim (Bool-cases ((c.kem_enc e.coins pk).0 == 0)) [
      | inl g ↦ rw g (ok.ct_size e.coins pk)
      | inr g ↦ rw g (ok.ct_size e.coins pk)
    ])
  ]

  encap_into-IsEncapped :
      (s : HqcSession) (e : Entropy) (ct pke : List ℕ)
      → IsHeld c s.rx
      → length ct ≡ c.ct_bytes
      → IsEncapped c (encap_into c s e ct pke)
  unfolding encap_into
  encap_into-IsEncapped s e ct pke v n =
      let r = ap_kem_enc c e ct (zeros c.ss_bytes) pke in
      let k = ap_kem_enc_sized e ct (zeros c.ss_bytes) pke n in
      elim (Bool-cases r.success) [
        | inl f ↦ rw f (
            encapped r.ct refl refl (record {
              key = v.key;
              eph = record {
                sized = k;
                len_le = omega arith;
                sent_le = omega (arith, v.eph.sent_le, v.eph.len_le);
              };
              sta = v.sta;
            }))
        | inr f ↦ rw f (
            no_secret refl (record {
              key = v.key;
              eph = record { sized = k; len_le = v.eph.len_le; sent_le = v.eph.sent_le };
              sta = v.sta;
            }))
      ]

  or_malloc_sized :
      (old fresh : Option (List ℕ)) (ct : List ℕ)
      → IsSized c.ct_bytes old
      → IsSized c.ct_bytes fresh
      → or_malloc old fresh ≡ some ct
      → length ct ≡ c.ct_bytes
  unfolding or_malloc
  or_malloc_sized none fresh ct a b e = rw e at b
  or_malloc_sized (some old) fresh ct a b e = rw (some_inj e) at a
    where
      some_inj : {x y : List ℕ} → some x ≡ some y → x ≡ y
      some_inj p = cc

  pub start_encap-IsEncapped :
      (s : HqcSession) (env : PkEnv)
      → IsHeld c s.rx
      → IsSized c.ct_bytes env.malloc_cte
      → IsEncapped c (start_encap c s env.malloc_cte env.entropy)
  unfolding start_encap
  start_encap-IsEncapped s env v n = elim (Option-cases s.rx.pke) [
    | inl e ↦ simp (e, start_encap) (no_secret refl v)
    | inr (pke, e) ↦
        simp (e, start_encap)
          (elim (Option-cases (or_malloc s.rx.cte env.malloc_cte)) [
            | inl f ↦ simp (f) (no_secret refl v)
            | inr (ct, f) ↦ simp (f) (
                encap_into-IsEncapped s env.entropy ct pke v
                  (or_malloc_sized s.rx.cte env.malloc_cte ct v.eph.sized n f))
          ])
  ]

  pub pk_encapsulated-IsHeld :
      (s : HqcSession) (ct : List ℕ)
      → s.rx.cte ≡ some ct
      → IsHeld c s.rx
      → IsHeld c (pk_encapsulated c s).session.rx
  unfolding pk_encapsulated cte_bytes
  pk_encapsulated-IsHeld s ct e v =
      let w =
        send_window-IsWindow s.rx.session_id 0 ct s.rx.mtu s.rx.cte_len
          (omega (arith, v.key.mtu_is)) (omega (arith, v.key.mtu_is))
          (omega (arith, v.eph.len_le, rw e at v.eph.sized)) s.rx.window 0 (omega arith) in
      record {
        key = v.key;
        eph = record {
          sized = v.eph.sized;
          len_le = v.eph.len_le;
          sent_le = simp (e, pk_encapsulated, cte_bytes) w.forward.1;
        };
        sta = v.sta;
      }
