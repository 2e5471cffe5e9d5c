-- ===== src/Random/Buffer.antt =====
-- What a buffer holds after `randombytes`, and when it returns.
use pq_key_establishment_mav.Base.{
  ℕ, zero, suc, ◌+◌, ◌-◌, ◌≤◌, ◌≡◌, ◌==◌, inl, inr, Bool-cases, Bool, true, false, if◌then◌else◌,
  refl, List, [], ◌∷◌, ◌++◌, length, take, length-append, length-take, arith, Option, none, some,
}
use pq_key_establishment_mav.Base.Bytes.{zeros}
use pq_key_establishment_mav.Random.{
  Attempt, got, interrupted, failed, Fill, stopped, waiting, fill, Sources, settle, after_getrandom,
  randombytes,
}

module _ (P : ℕ → Type 0) where
  abbrev pub AllBytes : List ℕ → Type 0
  AllBytes [] = Unit {0}
  AllBytes (b ∷ bs) = P b × AllBytes bs

  -- P holds of every byte that the attempts give.
  abbrev pub AllGiven : List Attempt → Type 0
  AllGiven [] = Unit {0}
  AllGiven (got bs ∷ tries) = AllBytes bs × AllGiven tries
  AllGiven (interrupted ∷ tries) = AllGiven tries
  AllGiven (failed ∷ tries) = AllGiven tries

  AllBytes-append : (xs ys : List ℕ) → AllBytes xs → AllBytes ys → AllBytes (xs ++ ys)
  AllBytes-append [] ys v w = w
  AllBytes-append (x ∷ xs) ys v w = (v.0, AllBytes-append xs ys v.1 w)

  AllBytes-take : (n : ℕ) (xs : List ℕ) → AllBytes xs → AllBytes (take n xs)
  AllBytes-take zero xs v = tt
  AllBytes-take (suc n) [] v = tt
  AllBytes-take (suc n) (x ∷ xs) v = (v.0, AllBytes-take n xs v.1)

  -- The bytes of a loop that ended come from the attempts, and are not too many.
  abbrev IsFill : ℕ → Fill → Type 0
  IsFill want waiting = Unit {0}
  IsFill want (stopped bytes) = (length bytes ≤ want) × AllBytes bytes

  if-IsFill :
      (want : ℕ) (c : Bool) (x y : Fill)
      → (c ≡ true → IsFill want x)
      → (c ≡ false → IsFill want y)
      → IsFill want (if c then x else y)
  if-IsFill want true x y f g = f refl
  if-IsFill want false x y f g = g refl

  fill-IsFill :
      (tries : List Attempt) (want missing : ℕ) (bytes : List ℕ)
      → length bytes + missing ≡ want
      → AllBytes bytes
      → AllGiven tries
      → IsFill want (fill tries missing bytes)
  unfolding fill
  fill-IsFill [] want missing bytes h v w =
      if-IsFill want (missing == 0) _ _ (λ f. (omega (arith, h), v)) (λ f. tt)
  fill-IsFill (interrupted ∷ tries) want missing bytes h v w =
      if-IsFill want (missing == 0) _ _ (λ f. (omega (arith, h), v))
        (λ f. fill-IsFill tries want missing bytes h v w)
  fill-IsFill (failed ∷ tries) want missing bytes h v w = (omega (arith, h), v)
  fill-IsFill (got bs ∷ tries) want missing bytes h v w =
      let n : ℕ = length (take missing bs) in
      if-IsFill want (missing == 0) _ _ (λ f. (omega (arith, h), v))
        (λ f.
          if-IsFill want (n == 0) _ _ (λ g. (omega (arith, h), v))
            (λ g.
              fill-IsFill tries want (missing - n) (bytes ++ take missing bs)
                (omega (arith, h, length-append bytes (take missing bs), length-take missing bs))
                (AllBytes-append bytes (take missing bs) v (AllBytes-take missing bs w.0)) w.1))

  -- A whole buffer from the sources with the flag as it was, or zeros with the flag set.
  pub data IsRandom (want : ℕ) (before : Bool) : Option (List ℕ × Bool) → Type 0 where
    not_yet : IsRandom want before none
    whole : (y : List ℕ) → length y ≡ want → AllBytes y → IsRandom want before (some (y, before))
    wiped : IsRandom want before (some (zeros want, true))

  settle-IsRandom :
      (want : ℕ) (before : Bool) (r : Fill)
      → IsFill want r
      → IsRandom want before (settle want before r)
  unfolding settle
  settle-IsRandom want before waiting v = not_yet
  settle-IsRandom want before (stopped bytes) v = elim (Bool-cases (length bytes == want)) [
    | inl f ↦ rw f (whole bytes (ground (arith, f)) v.1)
    | inr f ↦ rw f wiped
  ]

  if-IsRandom :
      (want : ℕ) (before c : Bool) (x y : Option (List ℕ × Bool))
      → (c ≡ true → IsRandom want before x)
      → (c ≡ false → IsRandom want before y)
      → IsRandom want before (if c then x else y)
  if-IsRandom want before true x y f g = f refl
  if-IsRandom want before false x y f g = g refl

  after_getrandom-IsRandom :
      (env : Sources) (want : ℕ) (before : Bool) (r : Fill)
      → AllGiven env.urandom
      → IsFill want r
      → IsRandom want before (after_getrandom env want before r)
  unfolding after_getrandom
  after_getrandom-IsRandom env want before waiting w v = not_yet
  after_getrandom-IsRandom env want before (stopped bytes) w v =
      if-IsRandom want before (length bytes == want) _ _ (λ f. whole bytes (ground (arith, f)) v.1)
        (λ f.
          if-IsRandom want before env.opens _ _
            (λ g.
              settle-IsRandom want before (fill env.urandom (want - length bytes) bytes) (
                fill-IsFill env.urandom want (want - length bytes) bytes (omega (arith, v.0)) v.1
                  w))
            (λ g. settle-IsRandom want before (stopped bytes) v))

  -- Once it returns, `randombytes` leaves a whole buffer of bytes that the sources gave, with the
  -- flag as it was, or zeros and the flag set; whatever holds of every byte that the sources give
  -- holds of every byte of a buffer that is not zeroed. An empty buffer stays.
  pub randombytes-IsRandom :
      (env : Sources) (before : Bool) (x : List ℕ)
      → AllGiven env.getrandom
      → AllGiven env.urandom
      → IsRandom (length x) before (randombytes env before x)
  unfolding randombytes
  randombytes-IsRandom env before [] v w = whole [] refl tt
  randombytes-IsRandom env before (b ∷ x) v w =
      let want : ℕ = length (b ∷ x) in
      if-IsRandom want before (want == 0) _ _ (λ f. absurd (ground (arith, f)))
        (λ f.
          after_getrandom-IsRandom env want before (fill env.getrandom want []) w
            (fill-IsFill env.getrandom want want [] (omega arith) tt v))

-- The attempts that are not EINTR.
abbrev pub answers : List Attempt → ℕ
answers [] = 0
answers (got bs ∷ tries) = suc (answers tries)
answers (interrupted ∷ tries) = answers tries
answers (failed ∷ tries) = suc (answers tries)

data IsStopped : Fill → Type 0 where
  stops : (bytes : List ℕ) → IsStopped (stopped bytes)

if-IsStopped :
    (c : Bool) (x y : Fill)
    → IsStopped x
    → (c ≡ false → IsStopped y)
    → IsStopped (if c then x else y)
if-IsStopped true x y f g = f
if-IsStopped false x y f g = g refl

-- Each answer stops the loop or brings at least one byte.
fill-IsStopped :
    (tries : List Attempt) (missing : ℕ) (bytes : List ℕ)
    → missing ≤ answers tries
    → IsStopped (fill tries missing bytes)
unfolding fill
fill-IsStopped [] missing bytes h =
    if-IsStopped (missing == 0) _ _ (stops bytes) (λ e. absurd (ground (arith, e, h)))
fill-IsStopped (interrupted ∷ tries) missing bytes h =
    if-IsStopped (missing == 0) _ _ (stops bytes) (λ e. fill-IsStopped tries missing bytes h)
fill-IsStopped (failed ∷ tries) missing bytes h = stops bytes
fill-IsStopped (got bs ∷ tries) missing bytes h =
    let n : ℕ = length (take missing bs) in
    if-IsStopped (missing == 0) _ _ (stops bytes) (λ e.
      if-IsStopped (n == 0) _ _ (stops bytes)
        (λ f. fill-IsStopped tries (missing - n) (bytes ++ take missing bs) (ground (arith, f, h))))

pub data IsReturned : Option (List ℕ × Bool) → Type 0 where
  returns : (r : List ℕ × Bool) → IsReturned (some r)

if-IsReturned :
    (c : Bool) (x y : Option (List ℕ × Bool))
    → IsReturned x
    → IsReturned y
    → IsReturned (if c then x else y)
if-IsReturned true x y f g = f
if-IsReturned false x y f g = g

settle-IsReturned :
    (want : ℕ) (before : Bool) (r : Fill) → IsStopped r → IsReturned (settle want before r)
unfolding settle
settle-IsReturned want before waiting h = elim h [ ]
settle-IsReturned want before (stopped bytes) h =
    if-IsReturned (length bytes == want) _ _ (returns (bytes, before)) (returns (zeros want, true))

after_getrandom-IsReturned :
    (env : Sources) (want : ℕ) (before : Bool) (r : Fill)
    → want ≤ answers env.urandom
    → IsStopped r
    → IsReturned (after_getrandom env want before r)
unfolding after_getrandom
after_getrandom-IsReturned env want before waiting h k = elim k [ ]
after_getrandom-IsReturned env want before (stopped bytes) h k =
    if-IsReturned (length bytes == want) _ _ (returns (bytes, before)) (
      if-IsReturned env.opens _ _
        (settle-IsReturned want before (fill env.urandom (want - length bytes) bytes)
          (fill-IsStopped env.urandom (want - length bytes) bytes (omega (arith, h))))
        (settle-IsReturned want before (stopped bytes) (stops bytes)))

-- If each source answers at least as often as the buffer has bytes, with any error or with any
-- bytes, even none, then `randombytes` returns, however often it is interrupted by EINTR in between
-- and however few bytes it gets at a time.
pub randombytes-IsReturned :
    (env : Sources) (before : Bool) (x : List ℕ)
    → length x ≤ answers env.getrandom
    → length x ≤ answers env.urandom
    → IsReturned (randombytes env before x)
unfolding randombytes
randombytes-IsReturned env before x h k = if-IsReturned (length x == 0) _ _ (returns (x, before)) (
    after_getrandom-IsReturned env (length x) before (fill env.getrandom (length x) []) k
      (fill-IsStopped env.getrandom (length x) [] h))
