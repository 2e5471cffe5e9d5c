-- ===== src/Kemtls/Run/Fresh.antt =====
-- A session whose hello is still being checked: what each way out of the checks leaves, up to the
-- accepted offer.
use pq_key_establishment_mav.Base.{
  ℕ, ◌≡◌, refl, sym, subst, arith, List, length, replicate, false, Bool-cases, Option-cases, inl,
  inr, none, some,
}
use pq_key_establishment_mav.Base.Bytes.{zeros}
use pq_key_establishment_mav.Kemtls.Types.{
  Platform, IsPlatform, HqcSession, HqcState, Hello, KexStatus, chunks_of,
}
use pq_key_establishment_mav.Kemtls.Session.{ap_kem_enc, secret_field}
use pq_key_establishment_mav.Kemtls.Stream.Window.{send_window-IsWindow}
use pq_key_establishment_mav.Kemtls.Pdk.{HelloEnv}
use pq_key_establishment_mav.Kemtls.Hello.{
  send_nack, nack_free, free_pke, free_pks_pke, hello_accept, hello_static,
}
use pq_key_establishment_mav.Kemtls.Run.{on_hello}
use pq_key_establishment_mav.Kemtls.Run.Valid.{
  IsHeld, IsSized, under_way, resting, IsOpen, IsRest, IsNext,
}
use pq_key_establishment_mav.Kemtls.Run.Encap.{ap_kem_enc_sized}

-- The session of a hello that is still being checked.
pub record IsFresh (c : Platform) (s : HqcSession) : Type 0 where
  pub held : IsHeld c s.rx
  pub at_idle : s.state ≡ HqcState.idle
  pub no_cte : s.rx.cte ≡ none
  pub no_cts : s.rx.cts ≡ none

module _ (c : Platform) (ok : IsPlatform c) (s0 : HqcSession) (m : Hello) (env : HelloEnv) where
  -- A fresh session whose key buffer is gone.
  pub fresh-IsNext :
      (s : HqcSession) → IsFresh c s → s.rx.pke ≡ none → IsNext c (on_hello m env) s0 s
  fresh-IsNext s v e = record {
    valid = record {
      held = v.held;
      phase =
          resting (subst IsRest (sym v.at_idle) IsRest.nothing_yet)
            (record { no_pke = e; no_cte = v.no_cte; no_cts = v.no_cts });
    };
    move = inl v.at_idle;
  }

  pub send_nack-IsNext :
      (s : HqcSession) (status : KexStatus)
      → IsFresh c s
      → s.rx.pke ≡ none
      → IsNext c (on_hello m env) s0 (send_nack c s status).session
  unfolding send_nack
  send_nack-IsNext s status v e =
      fresh-IsNext _
        (record { held = v.held; at_idle = v.at_idle; no_cte = v.no_cte; no_cts = v.no_cts }) e

  pub freed-IsFresh : (s : HqcSession) → IsFresh c s → IsFresh c (free_pke s)
  unfolding free_pke
  freed-IsFresh s v = record {
    held = record {
      key = record {
        mtu_is = v.held.key.mtu_is;
        window_is = v.held.key.window_is;
        sized = tt;
        flags = v.held.key.flags;
      };
      eph = v.held.eph;
      sta = v.held.sta;
    };
    at_idle = v.at_idle;
    no_cte = v.no_cte;
    no_cts = v.no_cts;
  }

  pub free_pke-IsNext :
      (s : HqcSession) (status : KexStatus)
      → IsFresh c s
      → IsNext c (on_hello m env) s0 (nack_free c s status free_pke).session
  unfolding nack_free send_nack free_pke
  free_pke-IsNext s status v =
      let f = freed-IsFresh s v in
      fresh-IsNext _
        (record { held = f.held; at_idle = f.at_idle; no_cte = f.no_cte; no_cts = f.no_cts }) refl

  pub free_pks_pke-IsNext :
      (s : HqcSession) → IsFresh c s → IsNext c (on_hello m env) s0 (free_pks_pke s)
  unfolding free_pks_pke free_pke
  free_pks_pke-IsNext s v =
      let f = freed-IsFresh s v in
      fresh-IsNext _
        (record {
          held = record { key = f.held.key; eph = f.held.eph; sta = f.held.sta };
          at_idle = f.at_idle;
          no_cte = f.no_cte;
          no_cts = f.no_cts;
        })
        refl

  pub nack_pks-IsNext :
      (s : HqcSession) (status : KexStatus)
      → IsFresh c s
      → IsNext c (on_hello m env) s0 (nack_free c s status free_pks_pke).session
  unfolding nack_free send_nack
  nack_pks-IsNext s status v =
      free_pks_pke-IsNext _
        (record { held = v.held; at_idle = v.at_idle; no_cte = v.no_cte; no_cts = v.no_cts })

  hello_accept-IsNext :
      (s : HqcSession) (cts : List ℕ)
      → IsHeld c s.rx
      → length cts ≡ c.ct_bytes
      → s.rx.cts_len ≡ c.ct_bytes
      → IsNext c (on_hello m env) s0 (hello_accept c s env cts).session
  unfolding hello_accept
  hello_accept-IsNext s cts v n e =
      let w =
        send_window-IsWindow s.rx.session_id 1 cts s.rx.mtu c.ct_bytes (omega (arith, v.key.mtu_is))
          (omega (arith, v.key.mtu_is)) (omega (arith, n)) s.rx.window 0 (omega arith) in
      record {
        valid = record {
          held = record {
            key = v.key;
            eph = v.eph;
            sta = record {
              sized = v.sta.sized;
              len_le = v.sta.len_le;
              sent_le = omega (arith, w.forward.1, e);
            };
          };
          phase = under_way IsOpen.sending;
        };
        move = inr refl;
      }

  -- The session that holds the static ciphertext and its secret.
  abbrev with_static : HqcSession → List ℕ → List ℕ → HqcSession
  with_static s ct ss = record s {
    rx = record (s.rx) {
      cts = some ct;
      cts_len = c.ct_bytes;
      cts_acked = replicate (chunks_of c.ct_bytes s.rx.mtu) false;
      ss_s = secret_field c ss;
    };
  }

  with_static-IsHeld :
      (s : HqcSession) (ct ss : List ℕ)
      → IsHeld c s.rx
      → length ct ≡ c.ct_bytes
      → IsHeld c (with_static s ct ss).rx
  with_static-IsHeld s ct ss v n = record {
    key = v.key;
    eph = v.eph;
    sta = record {
      sized = n;
      len_le = omega arith;
      sent_le = omega (arith, v.sta.sent_le, v.sta.len_le);
    };
  }

  pub hello_static-IsNext :
      (s : HqcSession) (pks : List ℕ)
      → IsFresh c s
      → IsSized c.ct_bytes env.malloc_cts
      → IsNext c (on_hello m env) s0 (hello_static c s env pks).session
  unfolding hello_static
  hello_static-IsNext s pks v n = elim (Option-cases env.malloc_cts) [
    | inl e ↦ simp (e, hello_static) (nack_pks-IsNext s _ v)
    | inr (fresh, e) ↦
        let r = ap_kem_enc c env.entropy fresh (zeros c.ss_bytes) pks in
        let sized = ap_kem_enc_sized c ok env.entropy fresh (zeros c.ss_bytes) pks (rw e at n) in
        simp (e, hello_static)
          (elim (Bool-cases r.success) [
            | inr f ↦ rw f (nack_pks-IsNext s _ v)
            | inl f ↦ rw f (
                hello_accept-IsNext (with_static s r.ct r.ss) r.ct
                  (with_static-IsHeld s r.ct r.ss v.held sized) sized refl)
          ])
  ]
