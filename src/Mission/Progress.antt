-- ===== src/Mission/Progress.antt =====
-- An upload whose owner falls silent ends.
use pq_key_establishment_mav.Base.{
  ℕ, ◌<◌, ◌≡◌, refl, if◌then◌else◌, List, [], ◌∷◌, ◌++◌, true, false, not, some, arith, inl, inr,
  ◌⊎◌, lt→ltb,
}
use pq_key_establishment_mav.Base.Bytes.{sub32}
use pq_key_establishment_mav.Mission.{
  Env, Backend, Protocol, done, stop, with_store, update, update_on,
}
use pq_key_establishment_mav.Mission.Invariant.{IsWell, idle, busy}
use pq_key_establishment_mav.Mission.Steps.{update-IsWellDone}

module _ {S : Type 0} (b : Backend S) where
  -- `update` is called again and again, and nothing is received.
  unfoldable pub update_all : List Env → Protocol S → Protocol S
  unfolding update
  update_all [] p = p
  update_all (e ∷ es) p = update_all es (update b e p).protocol

  -- Either the upload goes on, and the time of the last message stands, or it is over.
  update_on_still :
      (e : Env) (p : Protocol S) (chan : ℕ)
      → p.receiving ≡ true
      → ((update_on b e p (some chan)).protocol.receiving ≡ false)
        ⊎ ((update_on b e p (some chan)).protocol.timelast_receive_ms ≡ p.timelast_receive_ms)
  unfolding update_on stop with_store done
  update_on_still e p chan f = ground arith

  update_idle : (e : Env) (p : Protocol S) → p.receiving ≡ false → (update b e p).protocol ≡ p
  unfolding update done
  update_idle e p f = simp (f) refl

  update_all_idle : (es : List Env) (p : Protocol S) → p.receiving ≡ false → update_all es p ≡ p
  unfolding update_all
  update_all_idle [] p f = refl
  update_all_idle (e ∷ es) p f = rw (update_idle e p f) (update_all_idle es p f)

  update_busy :
      (e : Env) (p : Protocol S) (chan : ℕ)
      → p.receiving ≡ true
      → p.link ≡ some chan
      → update b e p ≡ update_on b e p (some chan)
  unfolding update
  update_busy e p chan f g = λ i. if not (f i) then done p [] else update_on b e p (g i)

  update_still :
      (e : Env) (p : Protocol S)
      → IsWell p
      → ((update b e p).protocol.receiving ≡ false)
        ⊎ ((update b e p).protocol.timelast_receive_ms ≡ p.timelast_receive_ms)
  update_still e p (idle f g) = inl (rw (update_idle e p f) f)
  update_still e p (busy chan f g h k) = rw (update_busy e p chan f g) (update_on_still e p chan f)

  update_timeout :
      (e : Env) (p : Protocol S)
      → IsWell p
      → 8000 < sub32 e.now p.timelast_receive_ms
      → (update b e p).protocol.receiving ≡ false
  unfolding update_on stop with_store done
  update_timeout e p (idle f g) late = rw (update_idle e p f) f
  update_timeout e p (busy chan f g h k) late =
      rw (update_busy e p chan f g)
        (simp (lt→ltb 8000 (sub32 e.now p.timelast_receive_ms) late) refl)

  -- From a well protocol, however often `update` runs and asks again, if a last run comes more than 8 s after the last
  -- item (clock differences modulo 2 ^ 32), the upload is over and the protocol is free.
  pub update_all_released :
      (es : List Env) (e : Env) (p : Protocol S)
      → IsWell p
      → 8000 < sub32 e.now p.timelast_receive_ms
      → (update_all (es ++ e ∷ []) p).receiving ≡ false
  unfolding update_all
  update_all_released [] e p v late = update_timeout e p v late
  update_all_released (d ∷ es) e p v late = elim (update_still d p v) [
    | inl f ↦ rw (update_all_idle (es ++ e ∷ []) (update b d p).protocol f) f
    | inr f ↦
        update_all_released es e (update b d p).protocol (update-IsWellDone b d p v).well
          (rw f late)
  ]
