-- ===== src/Ftp/Sessions.antt =====
-- Which session a request gets.
use pq_key_establishment_mav.Base.{
  ℕ, suc, ◌+◌, ◌≤◌, ◌<◌, ◌≡◌, ◌==◌, ◌⊎◌, inl, inr, Bool-cases, refl, ap, ◌∙◌, Bool, true, false,
  not, ◌&&◌, if◌then◌else◌, ltb, ltb→lt, List, [], ◌∷◌, get_elem?, set, arith, Option, none, some,
}
use pq_key_establishment_mav.Base.Bytes.{sub32}
use pq_key_establishment_mav.Ftp.{
  Transaction, Session, is_sender, is_session, next_index, find_session, oldest, Claim, found,
  claimed, rejected, claimed_by, take_over, choose_session,
}

-- A property of every session of a table.
abbrev pub AllSessions : (Session → Type 0) → List Session → Type 0
AllSessions P [] = Unit {0}
AllSessions P (s ∷ ss) = P s × AllSessions P ss

-- The index of a session of the table that is the request's.
pub record IsFound (request : Transaction) (sessions : List Session) (i : ℕ) : Type 0 where
  pub session : Session
  pub there : get_elem? sessions i ≡ some session
  pub own : is_session request session ≡ true

data Finds (request : Transaction) (sessions : List Session) : Option ℕ → Type 0 where
  none_own : AllSessions (λ s. is_session request s ≡ false) sessions → Finds request sessions none
  one_own : (i : ℕ) → IsFound request sessions i → Finds request sessions (some i)

next-Finds :
    (request : Transaction) (s : Session) (ss : List Session) (o : Option ℕ)
    → is_session request s ≡ false
    → Finds request ss o
    → Finds request (s ∷ ss) (next_index o)
next-Finds request s ss none f (none_own v) = none_own (f, v)
next-Finds request s ss (some i) f (one_own _ v) =
    one_own (suc i) (record { session = v.session; there = v.there; own = v.own })

find_session-Finds :
    (request : Transaction) (sessions : List Session)
    → Finds request sessions (find_session request sessions)
unfolding find_session
find_session-Finds request [] = none_own tt
find_session-Finds request (s ∷ ss) = elim (Bool-cases (is_session request s)) [
  | inl f ↦ rw f (one_own 0 (record { session = s; there = refl; own = f }))
  | inr f ↦
      rw f (next-Finds request s ss (find_session request ss) f (find_session-Finds request ss))
]

-- The time since the last reply of a session.
abbrev pub age : ℕ → Session → ℕ
age now s = sub32 now s.last_send_ms

-- `r` is in the table, at least as old as the best one before and as every session of `rest`.
record IsOldest (now : ℕ) (sessions rest : List Session) (best r : ℕ × Session) : Type 0 where
  pub there : get_elem? sessions r.0 ≡ some r.1
  pub best_younger : age now best.1 ≤ age now r.1
  pub rest_younger : AllSessions (λ s. age now s ≤ age now r.1) rest

not_older : {a b c : ℕ} → ltb b a ≡ false → b ≤ c → a ≤ c
not_older f h = ground (arith, f, h)

oldest-IsOldest :
    (now : ℕ) (sessions rest : List Session) (i : ℕ) (best : ℕ × Session)
    → get_elem? sessions best.0 ≡ some best.1
    → ((k : ℕ) → get_elem? sessions (i + k) ≡ get_elem? rest k)
    → IsOldest now sessions rest best (oldest now rest i best)
unfolding oldest
oldest-IsOldest now sessions [] i best h e = record {
  there = h;
  best_younger = omega arith;
  rest_younger = tt;
}
oldest-IsOldest now sessions (s ∷ ss) i best h e =
    let later : (k : ℕ) → get_elem? sessions (suc i + k) ≡ get_elem? ss k =
      λ k. ap (get_elem? sessions) (omega arith) ∙ e (suc k) in
    elim (Bool-cases (ltb (age now best.1) (age now s))) [
      | inl f ↦
          let v =
            oldest-IsOldest now sessions ss (suc i) (i, s)
              (ap (get_elem? sessions) (omega arith) ∙ e 0) later in
          rw f (record {
            there = v.there;
            best_younger = omega (arith, v.best_younger, ltb→lt (age now best.1) (age now s) f);
            rest_younger = (v.best_younger, v.rest_younger);
          })
      | inr f ↦
          let v = oldest-IsOldest now sessions ss (suc i) best h later in
          rw f (record {
            there = v.there;
            best_younger = v.best_younger;
            rest_younger = (not_older f v.best_younger, v.rest_younger);
          })
    ]

-- What the choice of a session must be.
pub data IsChoice (request : Transaction) (now : ℕ) (sessions : List Session) : Claim → Type 0 where
  own : (i : ℕ) → IsFound request sessions i → IsChoice request now sessions (found i)
  taken :
      (i : ℕ) (s : Session)
      → AllSessions (λ t. is_session request t ≡ false) sessions
      → get_elem? sessions i ≡ some s
      → (s.last_send_ms ≡ 0) ⊎ (3000 ≤ age now s)
      → is_session request (claimed_by request s) ≡ true
      → (claimed_by request s).fd ≡ none
      → IsChoice request now sessions (claimed i (set sessions i (claimed_by request s)))
  none_idle :
      AllSessions (λ t. is_session request t ≡ false) sessions
      → AllSessions (λ t. age now t < 3000) sessions
      → IsChoice request now sessions rejected

claimed_by-is_session :
    (request : Transaction) (s : Session) → is_session request (claimed_by request s) ≡ true
unfolding is_session claimed_by is_sender
claimed_by-is_session request s = ground arith

claimed_by-fd : (request : Transaction) (s : Session) → (claimed_by request s).fd ≡ none
unfolding claimed_by
claimed_by-fd request s = refl

all_young :
    (now : ℕ) (ss : List Session) (n : ℕ)
    → n < 3000
    → AllSessions (λ t. age now t ≤ n) ss
    → AllSessions (λ t. age now t < 3000) ss
all_young now [] n h v = tt
all_young now (s ∷ ss) n h v = (omega (arith, h, v.0), all_young now ss n h v.1)

if-IsChoice :
    (request : Transaction) (now : ℕ) (sessions : List Session) (c : Bool) (x y : Claim)
    → (c ≡ true → IsChoice request now sessions x)
    → (c ≡ false → IsChoice request now sessions y)
    → IsChoice request now sessions (if c then x else y)
if-IsChoice request now sessions true x y f g = f refl
if-IsChoice request now sessions false x y f g = g refl

idle_or_old : (n a : ℕ) → (not (n == 0) && ltb a 3000) ≡ false → (n ≡ 0) ⊎ (3000 ≤ a)
idle_or_old n a f = elim (Bool-cases (n == 0)) [
  | inl g ↦ inl (ground (arith, g))
  | inr g ↦ inr (ground (arith, f, g))
]

take_over-IsChoice :
    (request : Transaction) (now : ℕ) (first : Session) (rest : List Session) (r : ℕ × Session)
    → AllSessions (λ t. is_session request t ≡ false) (first ∷ rest)
    → IsOldest now (first ∷ rest) rest (0, first) r
    → IsChoice request now (first ∷ rest) (take_over request now (first ∷ rest) r)
unfolding take_over
take_over-IsChoice request now first rest (i, s) v w =
    if-IsChoice request now (first ∷ rest) (not (s.last_send_ms == 0) && ltb (age now s) 3000) _ _
      (λ f. none_idle v (
        all_young now (first ∷ rest) (age now s) (ground (arith, f))
          (w.best_younger, w.rest_younger)))
      (λ f.
        taken i s v w.there (idle_or_old s.last_send_ms (age now s) f)
          (claimed_by-is_session request s) (claimed_by-fd request s))

chosen :
    (request : Transaction) (now : ℕ) (first : Session) (rest : List Session) (o : Option ℕ)
    → Finds request (first ∷ rest) o
    → IsChoice request now (first ∷ rest) (elim o [
      | some i ↦ found i
      | none ↦ take_over request now (first ∷ rest) (oldest now rest 1 (0, first))
    ])
chosen request now first rest none (none_own v) =
    let step : (k : ℕ) → 1 + k ≡ suc k = λ k. omega arith in
    take_over-IsChoice request now first rest (oldest now rest 1 (0, first)) v (
      oldest-IsOldest now (first ∷ rest) rest 1 (0, first) refl
        (λ k. ap (get_elem? (first ∷ rest)) (step k)))
chosen request now first rest (some i) (one_own _ v) = own i v

-- A request of a sender gets the session that is its own, if there is one. Else it takes over one
-- that is free or has been silent for 3 s, which then has no open file and is the request's own, in a
-- table that is otherwise as before; and it is rejected only if every session has been silent for
-- less than 3 s, by a clock modulo 2 ^ 32.
pub choose_session-IsChoice :
    (request : Transaction) (now : ℕ) (first : Session) (rest : List Session)
    → IsChoice request now (first ∷ rest) (choose_session request now first rest)
unfolding choose_session
choose_session-IsChoice request now first rest =
    chosen request now first rest (find_session request (first ∷ rest))
      (find_session-Finds request (first ∷ rest))
