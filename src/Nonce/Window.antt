-- ===== src/Nonce/Window.antt =====
-- What the replay window knows of the counters accepted so far.
use pq_key_establishment_mav.Base.{
  ℕ, zero, suc, ◌+◌, ◌-◌, ◌*◌, ◌^◌, ◌≤◌, ◌<◌, ◌≡◌, refl, sym, ap, ◌∙◌, Bool, true, false, arith,
  if◌then◌else◌, ltb, leb, ltb→lt, ◌==◌, Bool-cases, inl, inr, true-false, List, [], ◌∷◌, not, ◌&&◌,
  ◌||◌, test_bit, set_bit, test_bit-set_bit, test_bit-zero,
}
use pq_key_establishment_mav.Nonce.{
  ReplayWindow, replay_window_check_and_update, shifted_bitmap, check_old,
}
use pq_key_establishment_mav.Nonce.Bits.{test_bit-mod, test_bit-shift, test_bit-shift_low}

-- `c` is one of the counters.
abbrev pub is_seen : List ℕ → ℕ → Bool
is_seen [] c = false
is_seen (d ∷ ds) c = (d == c) || is_seen ds c

-- Some counter is 64 or more above `c`.
abbrev pub is_old : List ℕ → ℕ → Bool
is_old [] c = false
is_old (d ∷ ds) c = leb (c + 64) d || is_old ds c

-- The window holds what was seen, as far as its 64 bits reach.
pub record Knows (w : ReplayWindow) (seen : List ℕ) : Type 0 where
  pub old : (c : ℕ) → is_old seen c ≡ leb (c + 64) w.highest_seen
  pub above : (c : ℕ) → w.highest_seen < c → is_seen seen c ≡ false
  pub bits :
      (i : ℕ)
      → i < 64
      → i ≤ w.highest_seen
      → test_bit w.seen_bitmap i ≡ is_seen seen (w.highest_seen - i)

pub data Sees (w : ReplayWindow) (seen : List ℕ) : Type 0 where
  fresh : w.initialized ≡ false → seen ≡ [] → Sees w seen
  running : w.initialized ≡ true → Knows w seen → Sees w seen

first_bits : (i c : ℕ) → i ≤ c → test_bit 1 i ≡ is_seen (c ∷ []) (c - i)
unfolding test_bit
first_bits zero c k = ground arith
first_bits (suc i) c k = rw (test_bit-zero i) (ground (arith, k))

-- The bits of the old counters after the move.
shifted_bits :
    (w : ReplayWindow) (seen : List ℕ) (c i : ℕ)
    → w.highest_seen < c
    → i < 64
    → i ≤ c
    → 0 < i
    → Knows w seen
    → test_bit (shifted_bitmap w.seen_bitmap (c - w.highest_seen)) i ≡ is_seen seen (c - i)
unfolding shifted_bitmap
shifted_bits w seen c i more h k pos v =
    let shift : ℕ = c - w.highest_seen in
    elim (Bool-cases (leb 64 shift)) [
      | inl f ↦ rw f (test_bit-zero i ∙ sym (v.above (c - i) (ground (arith, f, more, h))))
      | inr f ↦ rw f (
          test_bit-mod 64 i (w.seen_bitmap * 2 ^ shift) h ∙ elim (Bool-cases (ltb i shift)) [
            | inl g ↦
                test_bit-shift_low shift i w.seen_bitmap (ltb→lt i shift g)
                ∙ sym (v.above (c - i) (ground (arith, g, more, k)))
            | inr g ↦
                let back : shift + (i - shift) ≡ i = ground (arith, g) in
                let same : w.highest_seen - (i - shift) ≡ c - i = ground (arith, g, more, k) in
                ap (λ (t : ℕ). test_bit (w.seen_bitmap * 2 ^ shift) t) (sym back)
                ∙ test_bit-shift shift (i - shift) w.seen_bitmap
                ∙ v.bits (i - shift) (omega (arith, h)) (ground (arith, g, more, k))
                ∙ ap (is_seen seen) same
          ])
    ]

first-Knows :
    (w : ReplayWindow) (c : ℕ)
    → Knows (record w { initialized = true; highest_seen = c; seen_bitmap = 1 }) (c ∷ [])
unfolding test_bit
first-Knows w c = record {
  old = λ d. ground arith;
  above = λ d h. ground (arith, h);
  bits = λ i h k. first_bits i c k;
}

shifted-Knows :
    (w : ReplayWindow) (seen : List ℕ) (c : ℕ)
    → w.highest_seen < c
    → Knows w seen
    → Knows
        (record w {
          seen_bitmap = set_bit (shifted_bitmap w.seen_bitmap (c - w.highest_seen)) 0;
          highest_seen = c;
        })
        (c ∷ seen)
shifted-Knows w seen c more v = record {
  old = λ d. rw (v.old d) (ground (arith, more));
  above = λ d h. rw (v.above d (omega (arith, h, more))) (ground (arith, h));
  bits = λ i h k.
      test_bit-set_bit (shifted_bitmap w.seen_bitmap (c - w.highest_seen)) 0 i
      ∙ elim (Bool-cases (0 == i)) [
        | inl f ↦ rw f (ground (arith, f))
        | inr f ↦
            rw (f, shifted_bits w seen c i more h k (ground (arith, f)) v) (ground (arith, f, k))
      ];
}

marked-Knows :
    (w : ReplayWindow) (seen : List ℕ) (c : ℕ)
    → c ≤ w.highest_seen
    → w.highest_seen - c < 64
    → Knows w seen
    → Knows (record w { seen_bitmap = set_bit w.seen_bitmap (w.highest_seen - c) }) (c ∷ seen)
marked-Knows w seen c less near v = record {
  old = λ d. rw (v.old d) (ground (arith, less));
  above = λ d h. rw (v.above d h) (ground (arith, h, less));
  bits = λ i h k.
      test_bit-set_bit w.seen_bitmap (w.highest_seen - c) i
      ∙ rw (v.bits i h k) (ground (arith, less, k));
}

-- What a window should do: take a counter that was not taken before and that no counter taken is
-- 64 or more above.
abbrev pub is_acceptable : List ℕ → ℕ → Bool
is_acceptable seen c = not (is_seen seen c) && not (is_old seen c)

-- The answer is right, and the window after has seen what was taken.
pub record Answers (seen : List ℕ) (c : ℕ) (r : Bool × ReplayWindow) : Type 0 where
  pub right : r.0 ≡ is_acceptable seen c
  pub after : Sees r.1 (if is_acceptable seen c then c ∷ seen else seen)

if-Answers :
    (seen : List ℕ) (c : ℕ) (t : Bool) (x y : Bool × ReplayWindow)
    → (t ≡ true → Answers seen c x)
    → (t ≡ false → Answers seen c y)
    → Answers seen c (if t then x else y)
if-Answers seen c true x y f g = f refl
if-Answers seen c false x y f g = g refl

taken :
    (seen : List ℕ) (c : ℕ) (w : ReplayWindow)
    → is_acceptable seen c ≡ true
    → Sees w (c ∷ seen)
    → Answers seen c (true, w)
taken seen c w f v = record { right = sym f; after = rw f v }

dropped :
    (seen : List ℕ) (c : ℕ) (w : ReplayWindow)
    → is_acceptable seen c ≡ false
    → Sees w seen
    → Answers seen c (false, w)
dropped seen c w f v = record { right = sym f; after = rw f v }

check_old-Answers :
    (w : ReplayWindow) (seen : List ℕ) (c : ℕ)
    → w.initialized ≡ true
    → c ≤ w.highest_seen
    → Knows w seen
    → Answers seen c (check_old w (w.highest_seen - c))
unfolding check_old
check_old-Answers w seen c on less v =
    let diff : ℕ = w.highest_seen - c in
    let w' : ReplayWindow = record w { seen_bitmap = set_bit w.seen_bitmap diff } in
    let back : w.highest_seen - diff ≡ c = omega (arith, less) in
    let bit : leb 64 diff ≡ false → is_seen seen c ≡ test_bit w.seen_bitmap diff =
      λ f. ap (is_seen seen) (sym back) ∙ sym (v.bits diff (ground (arith, f)) (omega arith)) in
    if-Answers seen c (leb 64 diff) (false, w)
      (if test_bit w.seen_bitmap diff then (false, w) else (true, w'))
      (λ f. dropped seen c w (rw (v.old c) (ground (arith, f, less))) (running on v))
      (λ f.
        if-Answers seen c (test_bit w.seen_bitmap diff) (false, w) (true, w')
          (λ g. dropped seen c w (rw (bit f, g) refl) (running on v))
          (λ g.
            taken seen c w' (rw (bit f, g, v.old c) (ground (arith, f)))
              (running on (marked-Knows w seen c less (ground (arith, f)) v))))

-- One counter.
pub check_and_update-Answers :
    (w : ReplayWindow) (seen : List ℕ) (c : ℕ)
    → Sees w seen
    → Answers seen c (replay_window_check_and_update w c)
unfolding replay_window_check_and_update
check_and_update-Answers w seen c (fresh off none_yet) =
    if-Answers seen c (not w.initialized) _ _
      (λ f. rw none_yet (taken [] c _ refl (running refl (first-Knows w c))))
      (λ f. absurd (true-false (sym (ap not off) ∙ f)))
check_and_update-Answers w seen c (running on v) =
    let moved : ReplayWindow = record w {
      seen_bitmap = set_bit (shifted_bitmap w.seen_bitmap (c - w.highest_seen)) 0;
      highest_seen = c;
    } in
    if-Answers seen c (not w.initialized) _ _ (λ f. absurd (true-false (sym f ∙ ap not on)))
      (λ f.
        if-Answers seen c (ltb w.highest_seen c) (true, moved) (check_old w (w.highest_seen - c))
          (λ g.
            taken seen c moved
              (rw (v.old c, v.above c (ltb→lt w.highest_seen c g)) (ground (arith, g)))
              (running on (shifted-Knows w seen c (ltb→lt w.highest_seen c g) v)))
          (λ g. check_old-Answers w seen c on (ground (arith, g)) v))
