-- ===== src/Random.antt =====
-- AP_KEM/randombytes_linux.c, the source of randomness with its flag, and the operations of
-- AP_KEM/ap_kem.cpp that read the flag. `ap_kem_enc` is in Kemtls/Session.
pub mod Buffer
pub mod Sticky
pub mod Tests
use pq_key_establishment_mav.Base.{
  ℕ, ◌-◌, ◌==◌, if◌then◌else◌, List, [], ◌∷◌, ◌++◌, length, take, Bool, true, false, not, Option,
  none, some,
}
use pq_key_establishment_mav.Base.Bytes.{zeros}

-- What a call of `getrandom` or of `read` gives: some bytes (none is no progress), EINTR, or another
-- error.
pub data Attempt : Type 0 where
  got : List ℕ → Attempt
  interrupted failed : Attempt

-- How a loop ends: with the bytes it has, or still waiting when there are no more attempts.
pub data Fill : Type 0 where
  stopped : List ℕ → Fill
  waiting : Fill

-- while (xlen > 0) { n = ...; if (n < 0) { if EINTR continue; break; } if (n == 0) break; ... }
-- with `missing` bytes to go after `bytes`.
unfoldable pub fill : List Attempt → ℕ → List ℕ → Fill
fill [] missing bytes = if missing == 0 then stopped bytes else waiting
fill (interrupted ∷ tries) missing bytes =
    let rest = fill tries missing bytes in if missing == 0 then stopped bytes else rest
fill (failed ∷ tries) missing bytes = stopped bytes
fill (got bs ∷ tries) missing bytes =
    let n = length (take missing bs) in
    let rest = fill tries (missing - n) (bytes ++ take missing bs) in
    if missing == 0 then stopped bytes else if n == 0 then stopped bytes else rest

-- What `randombytes` meets: the calls of `getrandom`, whether /dev/urandom opens, its reads.
pub record Sources : Type 0 where
  pub getrandom : List Attempt
  pub opens : Bool
  pub urandom : List Attempt

-- The end of `randombytes`: all of `want` bytes, or zeros and the flag.
unfoldable pub settle : ℕ → Bool → Fill → Option (List ℕ × Bool)
settle want failed_flag waiting = none
settle want failed_flag (stopped bytes) =
    if length bytes == want then some (bytes, failed_flag) else some (zeros want, true)

unfoldable pub after_getrandom : Sources → ℕ → Bool → Fill → Option (List ℕ × Bool)
unfolding settle fill
after_getrandom env want failed_flag waiting = none
after_getrandom env want failed_flag (stopped bytes) =
    if length bytes == want
    then some (bytes, failed_flag)
    else if env.opens
    then settle want failed_flag (fill env.urandom (want - length bytes) bytes)
    else settle want failed_flag (stopped bytes)

-- `randombytes` on a buffer: the buffer and the flag `s_entropy_failed` after, or none if it has not
-- returned when there are no more attempts.
unfoldable pub randombytes : Sources → Bool → List ℕ → Option (List ℕ × Bool)
unfolding after_getrandom fill
randombytes env failed_flag x =
    if length x == 0
    then some (x, failed_flag)
    else after_getrandom env (length x) failed_flag (fill env.getrandom (length x) [])

-- The result of an operation of ap_kem.cpp and the buffers it writes.
pub record KemResult : Type 0 where
  pub success : Bool
  pub first : List ℕ
  pub second : List ℕ

-- What the vendor's key generation does: its code, the two buffers, the flag after.
pub record Generated : Type 0 where
  pub code : ℕ
  pub pk : List ℕ
  pub sk : List ℕ
  pub failed_after : Bool

-- `ap_kem_keypair`, where `made` is what the vendor's function does if it is called.
unfoldable pub ap_kem_keypair : Bool → Generated → List ℕ → List ℕ → KemResult
ap_kem_keypair failed_before made pk sk =
    if failed_before
    then record { success = false; first = pk; second = sk }
    else if not (made.code == 0)
    then record { success = false; first = made.pk; second = made.sk }
    else record { success = not made.failed_after; first = made.pk; second = made.sk }

-- `ap_kem_dec`, where `made` is the code and the secret of the vendor's function.
unfoldable pub ap_kem_dec : Bool → ℕ × List ℕ → List ℕ → Bool × List ℕ
ap_kem_dec failed_before made ss = if failed_before then (false, ss) else (made.0 == 0, made.1)
