-- ===== src/Ftp/Request/Listing.antt =====
-- The listing of a directory stays within the data of the reply.
use pq_key_establishment_mav.Base.{
  ℕ, zero, suc, ◌+◌, ◌-◌, ◌*◌, ◌/◌, ◌%◌, ◌^◌, ◌≤◌, ◌<◌, ◌≡◌, ltb, leb, refl, arith, List, [], ◌∷◌,
  ◌++◌, take, drop, length, length-append, length-take, length-drop, false, Bool-cases,
  Option-cases, inl, inr, Option, none, some,
}
use pq_key_establishment_mav.Ftp.Request.{
  DirEntry, decimal, entry_text, print_entry, gen_dir_entry, burn, pack,
}

-- Bytes put over a part of others.
length-splice :
    (index : ℕ) (part old : List ℕ)
    → index + length part ≤ length old
    → length (take index old ++ (part ++ drop (index + length part) old)) ≡ length old
length-splice index part old h = omega (
  arith,
  length-append (take index old) (part ++ drop (index + length part) old),
  length-append part (drop (index + length part) old),
  length-take index old,
  length-drop (index + length part) old,
)

print_entry_whole :
    (started : List ℕ) (index : ℕ) (o : Option (List ℕ))
    → length started ≡ 239
    → index + 3 ≤ 239
    → length (print_entry started index o).1 ≡ 239
unfolding print_entry
print_entry_whole started index none k r = k
print_entry_whole started index (some text) k r = omega (
  arith,
  k,
  length-splice index (take (239 - index - 1) text ++ (0 ∷ [])) started (
      omega (
        arith,
        k,
        length-append (take (239 - index - 1) text) (0 ∷ []),
        length-take (239 - index - 1) text,
      )),
)

-- `gen_dir_entry` writes inside the data.
pub gen_dir_entry_whole :
    (bytes : List ℕ) (index : ℕ) (e : DirEntry)
    → length bytes ≡ 239
    → index ≤ 239
    → length (gen_dir_entry bytes index e).1 ≡ 239
unfolding gen_dir_entry
gen_dir_entry_whole bytes index e n h = elim (Bool-cases (ltb (239 - index) 3)) [
  | inl f ↦ rw f n
  | inr f ↦
      let room : index + 3 ≤ 239 = ground (arith, f) in
      rw f (
        print_entry_whole (take index bytes ++ (0 ∷ drop (index + 1) bytes)) index (entry_text e)
          (omega (arith, n, length-splice index (0 ∷ []) bytes (omega (arith, n, room)))) room)
]

-- The number that decimal digits say, after `acc`.
unfoldable read_decimal : ℕ → List ℕ → ℕ
read_decimal acc [] = acc
read_decimal acc (d ∷ ds) = read_decimal (acc * 10 + (d - 48)) ds

read_decimal-append :
    (acc d : ℕ) (ds : List ℕ)
    → read_decimal acc (ds ++ (d ∷ [])) ≡ read_decimal acc ds * 10 + (d - 48)
unfolding read_decimal
read_decimal-append acc d [] = refl
read_decimal-append acc d (x ∷ ds) = read_decimal-append (acc * 10 + (x - 48)) d ds

-- Ten digits are enough for a size of 32 bits.
read_decimal-decimal :
    (rounds n : ℕ) → 0 < rounds → n < 10 ^ rounds → read_decimal 0 (decimal rounds n) ≡ n
unfolding decimal read_decimal
read_decimal-decimal zero n p h = absurd (omega (arith, p))
read_decimal-decimal (suc rounds) n p h = elim (Bool-cases (ltb n 10)) [
  | inl e ↦ rw e (omega arith)
  | inr e ↦ rw e (
      rw (read_decimal-append 0 (48 + n % 10) (decimal rounds (n / 10))) (
        omega
          (arith, read_decimal-decimal rounds (n / 10) (some_round rounds e h) (omega (arith, h)))))
]
  where
    some_round : (rounds : ℕ) → ltb n 10 ≡ false → n < 10 ^ suc rounds → 0 < rounds
    some_round zero f g = absurd (ground (arith, f, g))
    some_round (suc k) f g = omega arith

pub burn_whole :
    (offset : ℕ) (bytes : List ℕ) (es : List DirEntry)
    → length bytes ≡ 239
    → length (burn offset bytes es).1 ≡ 239
unfolding burn
burn_whole zero bytes es n = n
burn_whole (suc offset) bytes [] n = n
burn_whole (suc offset) bytes (e ∷ es) n =
    let k = gen_dir_entry_whole bytes 0 e n (omega arith) in
    let g = gen_dir_entry bytes 0 e in
    elim (Option-cases g.0) [
      | inl f ↦ simp (f, burn) (burn_whole (suc offset) g.1 es k)
      | inr (needed, f) ↦
          simp (f, burn)
            (elim (Bool-cases (ltb 239 needed)) [
              | inl p ↦ rw p (burn_whole (suc offset) g.1 es k)
              | inr p ↦ rw p (burn_whole offset g.1 es k)
            ])
    ]

pub pack_fits :
    (index : ℕ) (bytes : List ℕ) (es : List DirEntry)
    → length bytes ≡ 239
    → index ≤ 239
    → ((pack index bytes es).0 ≤ 239) × (length (pack index bytes es).1 ≡ 239)
unfolding pack
pack_fits index bytes [] n h = (h, n)
pack_fits index bytes (e ∷ es) n h =
    let g = gen_dir_entry bytes index e in
    let k = gen_dir_entry_whole bytes index e n h in
    elim (Option-cases g.0) [
      | inl f ↦ simp (f, pack) (pack_fits index g.1 es k h)
      | inr (required, f) ↦
          simp (f, pack)
            (elim (Bool-cases (leb 239 (required + index))) [
              | inl p ↦ rw p (h, k)
              | inr p ↦ rw p (pack_fits (index + (required + 1)) g.1 es k (ground arith))
            ])
    ]
