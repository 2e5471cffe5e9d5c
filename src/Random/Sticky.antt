-- ===== src/Random/Sticky.antt =====
-- The flag over a whole run: calls of `randombytes` and of the operations that read the flag.
use pq_key_establishment_mav.Base.{
  ℕ, ◌≡◌, Bool, true, false, ◌||◌, if◌then◌else◌, refl, ap, List, [], ◌∷◌, length, Option, none,
  some,
}
use pq_key_establishment_mav.Kemtls.Types.{Platform}
use pq_key_establishment_mav.Kemtls.Session.{ap_kem_enc}
use pq_key_establishment_mav.Random.Buffer.{
  AllBytes, AllGiven, IsRandom, whole, wiped, randombytes-IsRandom,
}
use pq_key_establishment_mav.Random.{
  Attempt, got, interrupted, failed, Sources, randombytes, ap_kem_keypair, ap_kem_dec,
}

-- A call, with what it meets outside. In key generation and encapsulation the vendor's code calls
-- `randombytes`, which may set the flag (`failed_inside`) and never clears it.
pub data Operation : Type 0 where
  random : Sources → List ℕ → Operation
  keypair : (code : ℕ) (pk sk : List ℕ) (failed_inside : Bool) → Operation
  encapsulate : (coins : ℕ) (pk : List ℕ) (failed_inside : Bool) → Operation
  decapsulate : (made : ℕ × List ℕ) → Operation

-- The flag after a call of `randombytes`; before it returns, the flag is as it was.
abbrev pub flag_of : Bool → Option (List ℕ × Bool) → Bool
flag_of before none = before
flag_of before (some r) = r.1

module _ (c : Platform) where
  -- The flag after an operation, and whether it reports success; `randombytes` reports nothing.
  abbrev pub perform : Bool → Operation → Bool × Bool
  perform flag (random env x) = (flag_of flag (randombytes env flag x), false)
  perform flag (keypair code pk sk inside) =
      let after = flag || inside in
      (
        (if flag then flag else after),
        (ap_kem_keypair flag (record { code = code; pk = pk; sk = sk; failed_after = after }) []
            []).success,
      )
  perform flag (encapsulate coins pk inside) =
      let after = flag || inside in
      (
        (if flag then flag else after),
        (ap_kem_enc c (record { coins = coins; failed_before = flag; failed_after = after }) [] []
            pk).success,
      )
  perform flag (decapsulate made) = (flag, (ap_kem_dec flag made []).0)

  -- The operations that report success.
  abbrev pub successes : Bool → List Operation → List Bool
  successes flag [] = []
  successes flag (o ∷ os) = (perform flag o).1 ∷ successes (perform flag o).0 os

  abbrev pub flag_after : Bool → List Operation → Bool
  flag_after flag [] = flag
  flag_after flag (o ∷ os) = flag_after (perform flag o).0 os

-- None of them is a success.
abbrev pub AllFailed : List Bool → Type 0
AllFailed [] = Unit {0}
AllFailed (r ∷ rs) = (r ≡ false) × AllFailed rs

abbrev IsWhatever : ℕ → Type 0
IsWhatever b = Unit {0}

any_bytes : (bs : List ℕ) → AllBytes IsWhatever bs
any_bytes [] = tt
any_bytes (b ∷ bs) = (tt, any_bytes bs)

any_given : (tries : List Attempt) → AllGiven IsWhatever tries
any_given [] = tt
any_given (got bs ∷ tries) = (any_bytes bs, any_given tries)
any_given (interrupted ∷ tries) = any_given tries
any_given (failed ∷ tries) = any_given tries

flag_kept :
    (want : ℕ) (r : Option (List ℕ × Bool))
    → IsRandom IsWhatever want true r
    → flag_of true r ≡ true
flag_kept want none v = refl
flag_kept want (some (y, flag)) (whole _ h k) = refl
flag_kept want (some (y, flag)) wiped = refl

random_keeps : (env : Sources) (x : List ℕ) → flag_of true (randombytes env true x) ≡ true
random_keeps env x =
    flag_kept (length x) (randombytes env true x)
      (randombytes-IsRandom IsWhatever env true x (any_given env.getrandom) (any_given env.urandom))

module _ (c : Platform) where
  perform_failed : (o : Operation) → ((perform c true o).0 ≡ true) × ((perform c true o).1 ≡ false)
  unfolding ap_kem_keypair ap_kem_dec ap_kem_enc
  perform_failed (random env x) = (random_keeps env x, refl)
  perform_failed (keypair code pk sk inside) = (refl, refl)
  perform_failed (encapsulate coins pk inside) = (refl, refl)
  perform_failed (decapsulate made) = (refl, refl)

  failed_on :
      (os : List Operation) → AllFailed (successes c true os) × (flag_after c true os ≡ true)
  failed_on [] = (tt, refl)
  failed_on (o ∷ os) =
      let now = perform_failed o in let rest = failed_on os in rw now.0 ((now.1, rest.0), rest.1)

  -- After a call of `randombytes` that leaves the flag set, no later key generation, encapsulation or
  -- decapsulation succeeds, whatever the sources and the vendor's functions give, and the flag
  -- stays set.
  successes-AllFailed :
      (env : Sources) (before : Bool) (x y : List ℕ) (os : List Operation)
      → randombytes env before x ≡ some (y, true)
      → AllFailed (successes c before (random env x ∷ os))
        × (flag_after c before (random env x ∷ os) ≡ true)
  successes-AllFailed env before x y os h =
      let set_now : flag_of before (randombytes env before x) ≡ true = ap (flag_of before) h in
      let rest = failed_on os in rw set_now ((refl, rest.0), rest.1)
