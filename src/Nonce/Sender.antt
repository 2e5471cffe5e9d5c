-- ===== src/Nonce/Sender.antt =====
-- The counters that a sender hands out.
use pq_key_establishment_mav.Base.{
  ℕ, zero, suc, ◌+◌, ◌-◌, ◌^◌, ◌≤◌, ◌<◌, ◌≡◌, refl, sym, ◌∙◌, true, false, arith, Option, none,
  some, if◌then◌else◌, ltb, lt→ltb, ◌==◌, Bool-cases, inl, inr,
}
use pq_key_establishment_mav.Nonce.{Direction, SenderCtx, sender_ctx_init, sender_ctx_next}

-- The context after `k` calls.
abbrev pub after_calls : ℕ → SenderCtx → SenderCtx
after_calls zero ctx = ctx
after_calls (suc k) ctx = after_calls k (sender_ctx_next ctx).1

next_closed : (ctx : SenderCtx) → ctx.exhausted ≡ true → sender_ctx_next ctx ≡ (none, ctx)
unfolding sender_ctx_next
next_closed ctx f = simp (f) refl

next_last :
    (ctx : SenderCtx)
    → ctx.exhausted ≡ false
    → ctx.next_counter ≡ 2 ^ 64 - 1
    → sender_ctx_next ctx ≡ (some ctx.next_counter, record ctx { exhausted = true })
unfolding sender_ctx_next
next_last ctx f h =
    let last : (ctx.next_counter == 2 ^ 64 - 1) ≡ true = ground (arith, h) in simp (f, last) refl

next_open :
    (ctx : SenderCtx)
    → ctx.exhausted ≡ false
    → ctx.next_counter < 2 ^ 64 - 1
    → sender_ctx_next ctx
      ≡ (some ctx.next_counter, record ctx { next_counter = ctx.next_counter + 1 })
unfolding sender_ctx_next
next_open ctx f h =
    let more : (ctx.next_counter == 2 ^ 64 - 1) ≡ false = ground (arith, h) in simp (f, more) refl

closed_stays :
    (k : ℕ) (ctx : SenderCtx)
    → ctx.exhausted ≡ true
    → (sender_ctx_next (after_calls k ctx)).0 ≡ none
closed_stays zero ctx f = rw (next_closed ctx f) refl
closed_stays (suc k) ctx f = rw (next_closed ctx f) (closed_stays k ctx f)

abbrev counter_or_none : ℕ → Option ℕ
counter_or_none v = if ltb v (2 ^ 64) then some v else none

in_word : (n v : ℕ) → n ≡ v → n < 2 ^ 64 → some n ≡ counter_or_none v
in_word n v e h = rw (sym e) (rw (lt→ltb n (2 ^ 64) h) refl)

past_word : (v : ℕ) → 2 ^ 64 ≤ v → none ≡ counter_or_none v
past_word v h = let over : ltb v (2 ^ 64) ≡ false = ground (arith, h) in rw over refl

counts :
    (k v : ℕ) (ctx : SenderCtx)
    → ctx.exhausted ≡ false
    → ctx.next_counter < 2 ^ 64
    → ctx.next_counter + k ≡ v
    → (sender_ctx_next (after_calls k ctx)).0 ≡ counter_or_none v
counts zero v ctx f h e = elim (Bool-cases (ctx.next_counter == 2 ^ 64 - 1)) [
  | inl g ↦
      rw (next_last ctx f (ground (arith, g))) (in_word ctx.next_counter v (omega (arith, e)) h)
  | inr g ↦
      rw (next_open ctx f (ground (arith, g, h))) (in_word ctx.next_counter v (omega (arith, e)) h)
]
counts (suc k) v ctx f h e = elim (Bool-cases (ctx.next_counter == 2 ^ 64 - 1)) [
  | inl g ↦
      let last : ctx.next_counter ≡ 2 ^ 64 - 1 = ground (arith, g) in
      rw (next_last ctx f last) (
        closed_stays k (record ctx { exhausted = true }) refl
        ∙ past_word v (omega (arith, e, last)))
  | inr g ↦
      let more : ctx.next_counter < 2 ^ 64 - 1 = ground (arith, g, h) in
      rw (next_open ctx f more) (
        counts k v (record ctx { next_counter = ctx.next_counter + 1 }) f (omega (arith, more))
          (omega (arith, e)))
]

-- Of the calls after an initialization, number `k` from 0 gets the counter `k`, as long as it fits
-- in 64 bits, and every later one gets none: no counter is handed out twice, none is passed over,
-- and the end is not wrapped around.
pub sender_ctx_next_nth :
    (dir : Direction) (epoch k : ℕ)
    → (sender_ctx_next (after_calls k (sender_ctx_init dir epoch))).0
      ≡ (if ltb k (2 ^ 64) then some k else none)
unfolding sender_ctx_init
sender_ctx_next_nth dir epoch k =
    counts k k (sender_ctx_init dir epoch) refl (omega arith) (omega arith)
