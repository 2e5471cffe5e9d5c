-- ===== src/Nonce/Replay.antt =====
-- A stream of counters at the receiver, and one from a sender.
use pq_key_establishment_mav.Base.{
  ℕ, suc, ◌≤◌, ◌<◌, ◌≡◌, refl, sym, ap, ◌∙◌, true, false, arith, if◌then◌else◌, ◌==◌, Bool-cases,
  inl, inr, true-false, List, [], ◌∷◌,
}
use pq_key_establishment_mav.Nonce.{
  Direction, ReplayWindow, replay_window_init, replay_window_check_and_update,
}
use pq_key_establishment_mav.Nonce.Window.{
  is_seen, is_old, is_acceptable, Sees, fresh, Answers, check_and_update-Answers,
}

-- The counters that a window takes of a stream.
abbrev pub taken_of : ReplayWindow → List ℕ → List ℕ
taken_of w [] = []
taken_of w (c ∷ cs) =
    let r = replay_window_check_and_update w c in
    let rest = taken_of r.1 cs in if r.0 then c ∷ rest else rest

-- The same from the counters alone: what was taken before, and then the stream.
abbrev pub acceptable_of : List ℕ → List ℕ → List ℕ
acceptable_of seen [] = []
acceptable_of seen (c ∷ cs) =
    let rest = acceptable_of (if is_acceptable seen c then c ∷ seen else seen) cs in
    if is_acceptable seen c then c ∷ rest else rest

taken_from :
    (cs seen : List ℕ) (w : ReplayWindow) → Sees w seen → taken_of w cs ≡ acceptable_of seen cs
taken_from [] seen w v = refl
taken_from (c ∷ cs) seen w v =
    let a : Answers seen c (replay_window_check_and_update w c) =
      check_and_update-Answers w seen c v in
    rw
      (
        a.right,
        taken_from cs (if is_acceptable seen c then c ∷ seen else seen)
            (replay_window_check_and_update w c).1 a.after,
      )
      refl

-- From its initialization on, the window takes of any stream of counters exactly those that were
-- not taken before and that no counter taken is 64 or more above: the bitmap of 64 bits forgets
-- nothing that matters.
pub replay_window_exact :
    (dir : Direction) (epoch : ℕ) (cs : List ℕ)
    → taken_of (replay_window_init dir epoch) cs ≡ acceptable_of [] cs
unfolding replay_window_init
replay_window_exact dir epoch cs = taken_from cs [] (replay_window_init dir epoch) (fresh refl refl)

-- No counter stands twice in the list.
abbrev pub AllDistinct : List ℕ → Type 0
AllDistinct [] = Unit {0}
AllDistinct (c ∷ cs) = (is_seen cs c ≡ false) × AllDistinct cs

-- A counter that was taken is not acceptable later.
not_again :
    (cs seen : List ℕ) (c : ℕ) → is_seen seen c ≡ true → is_seen (acceptable_of seen cs) c ≡ false
not_again [] seen c f = refl
not_again (d ∷ cs) seen c f = elim (Bool-cases (is_acceptable seen d)) [
  | inl g ↦ rw g (elim (Bool-cases (d == c)) [
    | inl h ↦
        let same : d ≡ c = ground (arith, h) in absurd (true-false (sym g ∙ rw (same, f) refl))
    | inr h ↦ rw h (not_again cs (d ∷ seen) c (rw h f))
  ])
  | inr g ↦ rw g (not_again cs seen c f)
]

acceptable_distinct : (cs seen : List ℕ) → AllDistinct (acceptable_of seen cs)
acceptable_distinct [] seen = tt
acceptable_distinct (c ∷ cs) seen = elim (Bool-cases (is_acceptable seen c)) [
  | inl g ↦
      let own : (c == c) ≡ true = ground arith in
      rw g (not_again cs (c ∷ seen) c (rw own refl), acceptable_distinct cs (c ∷ seen))
  | inr g ↦ rw g (acceptable_distinct cs seen)
]

-- Whatever comes in whatever order, repeated or not, from its initialization on the window takes
-- no counter twice.
pub no_counter_twice :
    (dir : Direction) (epoch : ℕ) (cs : List ℕ)
    → AllDistinct (taken_of (replay_window_init dir epoch) cs)
no_counter_twice dir epoch cs = rw (replay_window_exact dir epoch cs) (acceptable_distinct cs [])

-- Each counter is above the ones before it, and the first is at least `b`.
abbrev pub AllAscending : ℕ → List ℕ → Type 0
AllAscending b [] = Unit {0}
AllAscending b (c ∷ cs) = (b ≤ c) × AllAscending (suc c) cs

abbrev AllBelow : ℕ → List ℕ → Type 0
AllBelow b [] = Unit {0}
AllBelow b (d ∷ ds) = (d < b) × AllBelow b ds

above_acceptable :
    (seen : List ℕ) (c b : ℕ)
    → b ≤ c
    → AllBelow b seen
    → (is_seen seen c ≡ false) × (is_old seen c ≡ false)
above_acceptable [] c b h v = (refl, refl)
above_acceptable (d ∷ seen) c b h v =
    let rest = above_acceptable seen c b h v.1 in
    (rw rest.0 (ground (arith, h, v.0)), rw rest.1 (ground (arith, h, v.0)))

AllBelow-weaken : (seen : List ℕ) (b c : ℕ) → b ≤ c → AllBelow b seen → AllBelow c seen
AllBelow-weaken [] b c h v = tt
AllBelow-weaken (d ∷ seen) b c h v = (omega (arith, h, v.0), AllBelow-weaken seen b c h v.1)

ascending_acceptable :
    (cs seen : List ℕ) (b : ℕ) → AllAscending b cs → AllBelow b seen → acceptable_of seen cs ≡ cs
ascending_acceptable [] seen b v w = refl
ascending_acceptable (c ∷ cs) seen b v w =
    let a = above_acceptable seen c b v.0 w in
    let yes : is_acceptable seen c ≡ true = rw (a.0, a.1) refl in
    rw yes (
      ap (λ (t : List ℕ). c ∷ t)
        (ascending_acceptable cs (c ∷ seen) (suc c) v.1
          (omega arith, AllBelow-weaken seen b (suc c) (omega (arith, v.0)) w)))

-- Counters that arrive in the order of the sender are all taken, however many of them were lost.
pub ascending_all_taken :
    (dir : Direction) (epoch : ℕ) (cs : List ℕ)
    → AllAscending 0 cs
    → taken_of (replay_window_init dir epoch) cs ≡ cs
ascending_all_taken dir epoch cs v =
    replay_window_exact dir epoch cs ∙ ascending_acceptable cs [] 0 v tt
