-- ===== src/Routing/Table.antt =====
-- What holds of the route table: its size, whose routes it has, and that none stands twice.
use pq_key_establishment_mav.Base.{
  ℕ, ◌==◌, ◌≤◌, ◌<◌, ◌≡◌, refl, ◌∙◌, inl, inr, if◌then◌else◌, ltb, arith, List, [], ◌∷◌, ◌++◌,
  length, length-append, Bool, true, false, ◌&&◌, ◌||◌, not, Option, none, some, Bool-cases, ltb→lt,
}
use pq_key_establishment_mav.Routing.{
  Message, Link, Net, Route, Routing, max_routes, is_route, refresh, append_route, learned,
  is_unroutable, learn_route,
}

-- Two routes of one sender on one channel.
abbrev pub same_route : Route → Route → Bool
same_route a b = a.sysid == b.sysid && (a.compid == b.compid && a.channel == b.channel)

-- Some route is that of the sender on the channel.
abbrev pub knows : Message → ℕ → List Route → Bool
knows m ch [] = false
knows m ch (r ∷ rs) = is_route m ch r || knows m ch rs

abbrev pub has_route : Route → List Route → Bool
has_route a [] = false
has_route a (r ∷ rs) = same_route a r || has_route a rs

-- A route that may be learned.
abbrev pub is_routable : Net → Route → Bool
is_routable n r =
    not (r.sysid == 0 || (r.sysid == n.sysid && (r.compid == n.compid || r.compid == 0)))

abbrev pub AllRoutable : Net → List Route → Type 0
AllRoutable n [] = Unit {0}
AllRoutable n (r ∷ rs) = (is_routable n r ≡ true) × AllRoutable n rs

abbrev pub AllDistinct : List Route → Type 0
AllDistinct [] = Unit {0}
AllDistinct (r ∷ rs) = (has_route r rs ≡ false) × AllDistinct rs

-- A table as the vehicle keeps it.
pub record IsTable (n : Net) (rs : List Route) : Type 0 where
  pub bounded : length rs ≤ max_routes
  pub routable : AllRoutable n rs
  pub distinct : AllDistinct rs

-- What a refresh answers: the same senders and channels in the same order, the sender among them,
-- or `none`, the sender not among them.
data Refreshed (m : Message) (ch : ℕ) (rs : List Route) : Option (List Route) → Type 0 where
  unknown : knows m ch rs ≡ false → Refreshed m ch rs none
  known :
      (rs' : List Route)
      → knows m ch rs' ≡ true
      → length rs' ≡ length rs
      → ((a : Route) → has_route a rs' ≡ has_route a rs)
      → ((n : Net) → AllRoutable n rs → AllRoutable n rs')
      → (AllDistinct rs → AllDistinct rs')
      → Refreshed m ch rs (some rs')

cons_known :
    (n : Net) (m : Message) (ch : ℕ) (r : Route) (rs : List Route) (o : Option (List Route))
    → is_route m ch r ≡ false
    → Refreshed m ch rs o
    → Refreshed m ch
        (r ∷ rs)
        (elim o as (λ _. Option (List Route)) [ none ↦ none | some rs' ↦ some (r ∷ rs') ])
cons_known n m ch r rs _ e (unknown p) = unknown (ground (arith, p, e))
cons_known n m ch r rs _ e (known rs' p q h g d) =
    known (r ∷ rs') (ground (arith, p)) (omega (arith, q)) (λ a. rw (h a) refl)
      (λ k v. (v.0, g k v.1)) (λ v. (h r ∙ v.0, d v.1))

knows-here :
    (m : Message) (ch : ℕ) (r : Route) (rs : List Route)
    → is_route m ch r ≡ true
    → knows m ch (r ∷ rs) ≡ true
knows-here m ch r rs e = rw e refl

-- The type of a route does not matter.
is_route-mavtype :
    (m : Message) (ch : ℕ) (r : Route) (ty : ℕ)
    → is_route m ch (record r { mavtype = ty }) ≡ is_route m ch r
unfolding is_route
is_route-mavtype m ch r ty = refl

refresh-Refreshed :
    (n : Net) (m : Message) (ch : ℕ) (rs : List Route) → Refreshed m ch rs (refresh n m ch rs)
unfolding refresh
refresh-Refreshed n m ch [] = unknown refl
refresh-Refreshed n m ch (r ∷ rs) = elim (Bool-cases (is_route m ch r)) [
  | inr e ↦ simp (e) (cons_known n m ch r rs _ e (refresh-Refreshed n m ch rs))
  | inl e ↦ simp (e) (elim (Bool-cases (r.mavtype == 0 && m.msgid == n.heartbeat)) [
    | inl f ↦ simp (f) (
        known (record r { mavtype = n.heartbeat_type m } ∷ rs)
          (knows-here m ch (record r { mavtype = n.heartbeat_type m }) rs
            (is_route-mavtype m ch r (n.heartbeat_type m) ∙ e))
          refl (λ a. refl) (λ k v. v) (λ v. v))
    | inr f ↦
        simp (f) (known (r ∷ rs) (knows-here m ch r rs e) refl (λ a. refl) (λ k v. v) (λ v. v))
  ])
]

has_route-snoc :
    (a x : Route) (rs : List Route)
    → has_route a rs ≡ false
    → same_route a x ≡ false
    → has_route a (rs ++ x ∷ []) ≡ false
has_route-snoc a x [] h e = rw e refl
has_route-snoc a x (r ∷ rs) h e = ground (arith, h, has_route-snoc a x rs (ground (arith, h)) e)

other_route :
    (m : Message) (ch : ℕ) (a x : Route)
    → is_route m ch a ≡ false
    → is_route m ch x ≡ true
    → same_route a x ≡ false
unfolding is_route
other_route m ch a x p q = ground (arith, p, q)

AllDistinct-snoc :
    (m : Message) (ch : ℕ) (x : Route) (rs : List Route)
    → is_route m ch x ≡ true
    → knows m ch rs ≡ false
    → AllDistinct rs
    → AllDistinct (rs ++ x ∷ [])
AllDistinct-snoc m ch x [] e k d = (refl, tt)
AllDistinct-snoc m ch x (r ∷ rs) e k d = (
  has_route-snoc r x rs d.0 (other_route m ch r x (ground (arith, k)) e),
  AllDistinct-snoc m ch x rs e (ground (arith, k)) d.1,
)

AllRoutable-snoc :
    (n : Net) (x : Route) (rs : List Route)
    → is_routable n x ≡ true
    → AllRoutable n rs
    → AllRoutable n (rs ++ x ∷ [])
AllRoutable-snoc n x [] e v = (e, tt)
AllRoutable-snoc n x (r ∷ rs) e v = (v.0, AllRoutable-snoc n x rs e v.1)

knows-snoc :
    (m : Message) (ch : ℕ) (x : Route) (rs : List Route)
    → is_route m ch x ≡ true
    → knows m ch (rs ++ x ∷ []) ≡ true
knows-snoc m ch x [] e = rw e refl
knows-snoc m ch x (r ∷ rs) e = ground (arith, knows-snoc m ch x rs e)

-- What a learnable message leaves of a table.
record IsLearned (n : Net) (m : Message) (ch : ℕ) (rs rs' : List Route) : Type 0 where
  table : IsTable n rs'
  found : length rs < max_routes → knows m ch rs' ≡ true

abbrev new_route : Net → Message → ℕ → Route
new_route n m ch = record {
  sysid = m.sysid;
  compid = m.compid;
  channel = ch;
  mavtype = if m.msgid == n.heartbeat then n.heartbeat_type m else 0;
}

is_route-new_route : (n : Net) (m : Message) (ch : ℕ) → is_route m ch (new_route n m ch) ≡ true
unfolding is_route
is_route-new_route n m ch = ground arith

learned-IsLearned :
    (n : Net) (m : Message) (ch : ℕ) (rs : List Route) (o : Option (List Route))
    → is_unroutable n m ≡ false
    → IsTable n rs
    → Refreshed m ch rs o
    → IsLearned n m ch rs (learned n m ch rs o)
unfolding learned append_route is_unroutable
learned-IsLearned n m ch rs _ u v (known rs' p q h g d) = record {
  table = record {
    bounded = omega (arith, q, v.bounded);
    routable = g n v.routable;
    distinct = d v.distinct;
  };
  found = λ _. p;
}
learned-IsLearned n m ch rs _ u v (unknown k) = elim (Bool-cases (ltb (length rs) max_routes)) [
  | inr f ↦ rw f (record { table = v; found = λ p. absurd (ground (arith, f, p)) })
  | inl f ↦ rw f (record {
    table = record {
      bounded =
          omega (arith, ltb→lt (length rs) max_routes f, length-append rs (new_route n m ch ∷ []));
      routable = AllRoutable-snoc n (new_route n m ch) rs (ground (arith, u)) v.routable;
      distinct =
          AllDistinct-snoc m ch (new_route n m ch) rs (is_route-new_route n m ch) k v.distinct;
    };
    found = λ _. knows-snoc m ch (new_route n m ch) rs (is_route-new_route n m ch);
  })
]

-- Learning keeps the table a table: at most 20 routes, none to the broadcast system, to the
-- vehicle itself or to its broadcast component, and none twice.
pub learn_route-IsTable :
    (n : Net) (l : Link) (m : Message) (t : Routing)
    → IsTable n t.routes
    → IsTable n (learn_route n l m t).routes
unfolding learn_route
learn_route-IsTable n l m t v = elim (Bool-cases (is_unroutable n m)) [
  | inl u ↦ simp (u) v
  | inr u ↦
      simp (u)
        (learned-IsLearned n m l.chan t.routes _ u v (refresh-Refreshed n m l.chan t.routes)).table
]

-- While the table of distinct routes has room, a message from a sender that may be learned leaves
-- a route to this sender on the channel it came from.
pub knows-learn_route :
    (n : Net) (l : Link) (m : Message) (t : Routing)
    → IsTable n t.routes
    → length t.routes < max_routes
    → is_unroutable n m ≡ false
    → knows m l.chan (learn_route n l m t).routes ≡ true
unfolding learn_route
knows-learn_route n l m t v p u =
    simp (u) (
      (learned-IsLearned n m l.chan t.routes _ u v (refresh-Refreshed n m l.chan t.routes)).found p)
