-- ===== src/Base/Bytes/Laws.antt =====
-- Laws of checked writes and of little-endian fields, and equality of lists by their elements.
use mathlib.Core.Option.{some-injective, some-ne-none}
use native.Mathlib.Nat.{pow-suc}
use pq_key_establishment_mav.Base.{
  ℕ, zero, suc, ◌+◌, ◌-◌, ◌/◌, ◌^◌, ◌≤◌, ◌<◌, ◌≡◌, refl, sym, ap₂, List, [], ◌∷◌, arith, length,
  get_elem?, none, some, ltb, leb, ◌&&◌, if◌then◌else◌, take, drop,
}
use pq_key_establishment_mav.Base.Bytes.{le_bytes, le_value, write_at}

pub write_at_fits :
    (dst : List ℕ) (off : ℕ) (bs : List ℕ)
    → off + length bs ≤ length dst
    → (out : List ℕ) × (write_at dst off bs ≡ some out)
unfolding write_at
write_at_fits dst zero [] h = (dst, refl)
write_at_fits [] zero (b ∷ bs) h = absurd (omega arith)
write_at_fits (d ∷ dst) zero (b ∷ bs) h =
    let (out, e) = write_at_fits dst zero bs (omega arith) in (b ∷ out, rw e)
write_at_fits [] (suc off) bs h = absurd (omega arith)
write_at_fits (d ∷ dst) (suc off) bs h =
    let (out, e) = write_at_fits dst off bs (omega arith) in (d ∷ out, rw e)

pub length-write_at :
    (dst : List ℕ) (off : ℕ) (bs out : List ℕ)
    → write_at dst off bs ≡ some out
    → length out ≡ length dst
unfolding write_at
length-write_at dst zero [] out e = ground arith
length-write_at [] zero (b ∷ bs) out e = cc
length-write_at (d ∷ dst) zero (b ∷ bs) [] e = ground arith
length-write_at (d ∷ dst) zero (b ∷ bs) (x ∷ out) e =
    ground (arith, length-write_at dst zero bs out)
length-write_at [] (suc off) bs out e = cc
length-write_at (d ∷ dst) (suc off) bs [] e = ground arith
length-write_at (d ∷ dst) (suc off) bs (x ∷ out) e = ground (arith, length-write_at dst off bs out)

-- Bytes that do not fit are not written.
pub write_at_overrun :
    (dst : List ℕ) (off : ℕ) (bs : List ℕ)
    → 0 < length bs
    → length dst < off + length bs
    → write_at dst off bs ≡ none
unfolding write_at
write_at_overrun dst zero [] p h = absurd (omega arith)
write_at_overrun [] zero (b ∷ bs) p h = refl
write_at_overrun (d ∷ dst) zero (b ∷ []) p h = absurd (omega arith)
write_at_overrun (d ∷ dst) zero (b ∷ x ∷ bs) p h =
    rw (write_at_overrun dst zero (x ∷ bs) (omega arith) (omega arith)) refl
write_at_overrun [] (suc off) bs p h = refl
write_at_overrun (d ∷ dst) (suc off) bs p h = rw (write_at_overrun dst off bs p (omega arith)) refl

-- A write changes the bytes of its range only.
pub get_elem?-write_at :
    (dst : List ℕ) (off : ℕ) (bs out : List ℕ) (j : ℕ)
    → write_at dst off bs ≡ some out
    → get_elem? out j
      ≡ (if leb off j && ltb j (off + length bs) then get_elem? bs (j - off) else get_elem? dst j)
unfolding write_at
get_elem?-write_at dst zero [] out j e = ground arith
get_elem?-write_at [] zero (b ∷ bs) out j e = cc
get_elem?-write_at (d ∷ dst) zero (b ∷ bs) [] j e = ground arith
get_elem?-write_at (d ∷ dst) zero (b ∷ bs) (x ∷ out) zero e = ground arith
get_elem?-write_at (d ∷ dst) zero (b ∷ bs) (x ∷ out) (suc j) e =
    ground (arith, get_elem?-write_at dst zero bs out j)
get_elem?-write_at [] (suc off) bs out j e = cc
get_elem?-write_at (d ∷ dst) (suc off) bs [] j e = ground arith
get_elem?-write_at (d ∷ dst) (suc off) bs (x ∷ out) zero e = ground arith
get_elem?-write_at (d ∷ dst) (suc off) bs (x ∷ out) (suc j) e =
    ground (arith, get_elem?-write_at dst off bs out j)

pub get_elem?_ext {ℓ} :
    {A : Type ℓ} (xs ys : List A) → ((j : ℕ) → get_elem? xs j ≡ get_elem? ys j) → xs ≡ ys
get_elem?_ext [] [] h = refl
get_elem?_ext [] (y ∷ ys) h = absurd (some-ne-none y (sym (h 0)))
get_elem?_ext (x ∷ xs) [] h = absurd (some-ne-none x (h 0))
get_elem?_ext (x ∷ xs) (y ∷ ys) h =
    ap₂ ◌∷◌ (some-injective x y (h 0)) (get_elem?_ext xs ys (λ j. h (suc j)))

pub get_elem?-take :
    (n : ℕ) (xs : List ℕ) (j : ℕ) → j < n → get_elem? (take n xs) j ≡ get_elem? xs j
get_elem?-take zero xs j h = elim h [ ]
get_elem?-take (suc n) [] j h = refl
get_elem?-take (suc n) (x ∷ xs) zero h = refl
get_elem?-take (suc n) (x ∷ xs) (suc j) h = get_elem?-take n xs j (omega arith)

pub get_elem?-drop : (n : ℕ) (xs : List ℕ) (j : ℕ) → get_elem? (drop n xs) j ≡ get_elem? xs (n + j)
get_elem?-drop zero xs j = ground arith
get_elem?-drop (suc n) [] j = refl
get_elem?-drop (suc n) (x ∷ xs) j = ground (arith, get_elem?-drop n xs j)

pub get_elem?_beyond {ℓ} :
    {A : Type ℓ} (xs : List A) (j : ℕ) → length xs ≤ j → get_elem? xs j ≡ none
get_elem?_beyond [] j h = refl
get_elem?_beyond (x ∷ xs) zero h = absurd (omega arith)
get_elem?_beyond (x ∷ xs) (suc j) h = get_elem?_beyond xs j (omega arith)

-- Reading back a field of `n` little-endian bytes.
pub le_value-le_bytes : (n v : ℕ) → v < 256 ^ n → le_value (le_bytes n v) ≡ v
unfolding le_value le_bytes
le_value-le_bytes zero v h = omega arith
le_value-le_bytes (suc n) v h =
    omega (arith, le_value-le_bytes n (v / 256) (omega (arith, pow-suc 256 n)))
