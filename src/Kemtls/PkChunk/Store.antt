-- ===== src/Kemtls/PkChunk/Store.antt =====
-- The parts of `handle_hqc_pk_chunk`: what a stored fragment changes, where the base goes, and
-- what the acknowledgement mask says.
use pq_key_establishment_mav.Base.{
  ℕ, zero, suc, ◌+◌, ◌≤◌, ◌<◌, ◌≡◌, refl, List, [], ◌∷◌, arith, length, get_or, set, replicate,
  Bool, true, false, ◌&&◌, ltb, leb, ◌==◌, if◌then◌else◌, Bool-cases, ◌⊎◌, inl, inr, test_bit,
  set_bit, test_bit-set_bit, length-replicate, test_bit-zero,
}
use pq_key_establishment_mav.Kemtls.PkChunk.{advance, sack_mask, acked_or_fresh}

-- The flags of an array of Booleans after a write, and of a fresh array.
pub get_or-set :
    (xs : List Bool) (i j : ℕ) (v : Bool)
    → i < length xs
    → get_or (set xs i v) j false ≡ (if i == j then v else get_or xs j false)
get_or-set [] i j v h = absurd (omega arith)
get_or-set (x ∷ xs) zero zero v h = ground arith
get_or-set (x ∷ xs) zero (suc j) v h = ground arith
get_or-set (x ∷ xs) (suc i) zero v h = ground arith
get_or-set (x ∷ xs) (suc i) (suc j) v h = ground (arith, get_or-set xs i j v)

pub get_or-replicate : (n j : ℕ) → get_or (replicate n false) j false ≡ false
get_or-replicate zero j = refl
get_or-replicate (suc n) zero = refl
get_or-replicate (suc n) (suc j) = get_or-replicate n j

pub get_or_beyond : (xs : List Bool) (j : ℕ) → get_or xs j false ≡ true → j < length xs
get_or_beyond [] j h = cc
get_or_beyond (x ∷ xs) zero h = omega arith
get_or_beyond (x ∷ xs) (suc j) h = omega (arith, get_or_beyond xs j h)

-- `advance` stops at the first fragment from `base` on that is missing, or after its rounds.
pub advance_passed :
    (acked : List Bool) (rounds base i : ℕ)
    → base ≤ i
    → i < advance acked rounds base
    → get_or acked i false ≡ true
unfolding advance
advance_passed acked zero base i p q = absurd (omega arith)
advance_passed acked (suc rounds) base i p q = elim (Bool-cases (base == i)) [
  | inl e ↦ ground arith
  | inr n ↦ ground (arith, advance_passed acked rounds (base + 1) i)
]

pub advance_bounds :
    (acked : List Bool) (rounds base : ℕ)
    → (base ≤ advance acked rounds base) × (advance acked rounds base ≤ base + rounds)
unfolding advance
advance_bounds acked zero base = (omega arith, omega arith)
advance_bounds acked (suc rounds) base = ground (arith, advance_bounds acked rounds (base + 1))

pub advance_stops :
    (acked : List Bool) (rounds base : ℕ)
    → advance acked rounds base < base + rounds
    → get_or acked (advance acked rounds base) false ≡ false
unfolding advance
advance_stops acked zero base h = absurd (omega arith)
advance_stops acked (suc rounds) base h = ground (arith, advance_stops acked rounds (base + 1))

-- Bit `j` of the mask says whether fragment `base + j` exists and is there.
sack_mask_bits :
    (acked : List Bool) (total base rounds i mask j : ℕ)
    → test_bit (sack_mask acked total base rounds i mask) j ≡ (
        if leb i j
          && (ltb j (i + rounds) && (ltb (base + j) total && get_or acked (base + j) false))
        then true
        else test_bit mask j)
unfolding sack_mask
sack_mask_bits acked total base zero i mask j = ground arith
sack_mask_bits acked total base (suc rounds) i mask j =
    elim (Bool-cases (ltb (base + i) total && get_or acked (base + i) false)) [
      | inl here ↦ rw here (
          ground (
            arith,
            sack_mask_bits acked total base rounds (i + 1) (set_bit mask i) j,
            test_bit-set_bit mask i j,
            same i j,
          ))
      | inr gone ↦
          rw gone (ground (arith, sack_mask_bits acked total base rounds (i + 1) mask j, same i j))
    ]
  where
    same : (i j : ℕ) → i ≡ j → base + i ≡ base + j
    same i j e = rw e

-- Bit `j` of the selective acknowledgement is set exactly if `j` is below 32 and fragment
-- `base + j` exists and has come.
test_bit-sack_mask :
    (acked : List Bool) (total base j : ℕ)
    → test_bit (sack_mask acked total base 32 0 0) j
      ≡ (ltb j 32 && (ltb (base + j) total && get_or acked (base + j) false))
test_bit-sack_mask acked total base j =
    ground (arith, sack_mask_bits acked total base 32 0 0 j, test_bit-zero j)

pub get_or-acked_or_fresh :
    (xs : List Bool) (total i : ℕ) → get_or (acked_or_fresh xs total) i false ≡ get_or xs i false
unfolding acked_or_fresh
get_or-acked_or_fresh [] total i = get_or-replicate total i
get_or-acked_or_fresh (b ∷ bs) total i = refl

pub length-acked_or_fresh :
    (xs : List Bool) (total : ℕ)
    → (xs ≡ []) ⊎ (length xs ≡ total)
    → length (acked_or_fresh xs total) ≡ total
unfolding acked_or_fresh
length-acked_or_fresh [] total h = length-replicate total false
length-acked_or_fresh (b ∷ bs) total (inl e) = cc
length-acked_or_fresh (b ∷ bs) total (inr e) = e
