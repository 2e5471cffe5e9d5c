-- ===== src/Nonce/Bytes.antt =====
-- The bytes of a nonce.
use pq_key_establishment_mav.Base.{
  ℕ, zero, suc, ◌+◌, ◌*◌, ◌/◌, ◌^◌, ◌<◌, ◌≡◌, refl, sym, ap, ◌∙◌, arith, none, some, if◌then◌else◌,
  List, [], ◌∷◌, length, take, drop, ltb, ltb→lt, Bool-cases, inl, inr, none-some,
}
use native.Mathlib.Nat.{div-div-eq-div-mul, pow-suc}
use pq_key_establishment_mav.Base.Bytes.{u8}
use pq_key_establishment_mav.Nonce.Sender.{after_calls, sender_ctx_next_nth}
use pq_key_establishment_mav.Nonce.{
  Direction, sender_ctx_init, sender_ctx_next, be_bytes, assemble_nonce,
}

-- The number that bytes spell, the first the highest.
abbrev pub be_value : ℕ → List ℕ → ℕ
be_value v [] = v
be_value v (b ∷ bs) = be_value (v * 256 + b) bs

eight_more : (n : ℕ) → 2 ^ (8 * suc n) ≡ 2 ^ (8 * n) * 256
eight_more n =
    let step : 8 * suc n ≡ suc (suc (suc (suc (suc (suc (suc (suc (8 * n)))))))) = omega arith in
    rw step (simp (pow-suc) (omega arith))

-- A byte more is read.
byte_read : (c n : ℕ) → c / 2 ^ (8 * suc n) * 256 + u8 (c / 2 ^ (8 * n)) ≡ c / 2 ^ (8 * n)
byte_read c n =
    let step : c / 2 ^ (8 * suc n) ≡ c / 2 ^ (8 * n) / 256 =
      rw (eight_more n) (sym (div-div-eq-div-mul c (2 ^ (8 * n)) 256)) in
    omega (arith, step)

be_value-be_bytes : (n c : ℕ) → be_value (c / 2 ^ (8 * n)) (be_bytes n c) ≡ c
unfolding be_bytes
be_value-be_bytes zero c = omega arith
be_value-be_bytes (suc n) c =
    ap (λ (t : ℕ). be_value t (be_bytes n c)) (byte_read c n) ∙ be_value-be_bytes n c

be_value_prefix : (p : ℕ) → p < 2 ^ 32 → be_value 0 (be_bytes 4 p) ≡ p
be_value_prefix p h =
    let none_above : p / 2 ^ (8 * 4) ≡ 0 = omega (arith, h) in
    rw (sym none_above) (be_value-be_bytes 4 p)

be_value_counter : (c : ℕ) → c < 2 ^ 64 → be_value 0 (be_bytes 8 c) ≡ c
be_value_counter c h =
    let none_above : c / 2 ^ (8 * 8) ≡ 0 = omega (arith, h) in
    rw (sym none_above) (be_value-be_bytes 8 c)

-- A nonce has 12 bytes, of which the first 4 spell the prefix and the other 8 the counter, for a
-- prefix of 32 bits and a counter of 64.
pub assemble_nonce-be_value :
    (domain_prefix counter : ℕ)
    → domain_prefix < 2 ^ 32
    → counter < 2 ^ 64
    → (length (assemble_nonce domain_prefix counter) ≡ 12)
      × (be_value 0 (take 4 (assemble_nonce domain_prefix counter)) ≡ domain_prefix)
      × (be_value 0 (drop 4 (assemble_nonce domain_prefix counter)) ≡ counter)
unfolding assemble_nonce
assemble_nonce-be_value p c h k = (refl, be_value_prefix p h, be_value_counter c k)

given_counter :
    (dir : Direction) (epoch k c : ℕ)
    → (sender_ctx_next (after_calls k (sender_ctx_init dir epoch))).0 ≡ some c
    → (c ≡ k) × (c < 2 ^ 64)
given_counter dir epoch k c e =
    let nth : (if ltb k (2 ^ 64) then some k else none) ≡ some c =
      sym (sender_ctx_next_nth dir epoch k) ∙ e in
    elim (Bool-cases (ltb k (2 ^ 64))) [
      | inl f ↦
          let same : some k ≡ some c = rw f at nth in
          let number : c ≡ k = cc in (number, rw number (ltb→lt k (2 ^ 64) f))
      | inr f ↦ let off : none ≡ some c = rw f at nth in absurd (none-some off)
    ]

-- Under prefixes of 32 bits, the nonces of two messages, of two senders from their initialization or
-- of one, are equal only if the prefixes are equal and the messages have the same number.
pub sender_nonces_differ :
    (dir dir' : Direction) (epoch epoch' p q i j c d : ℕ)
    → p < 2 ^ 32
    → q < 2 ^ 32
    → (sender_ctx_next (after_calls i (sender_ctx_init dir epoch))).0 ≡ some c
    → (sender_ctx_next (after_calls j (sender_ctx_init dir' epoch'))).0 ≡ some d
    → assemble_nonce p c ≡ assemble_nonce q d
    → (p ≡ q) × (i ≡ j)
sender_nonces_differ dir dir' epoch epoch' p q i j c d h k e f same =
    let u : (c ≡ i) × (c < 2 ^ 64) = given_counter dir epoch i c e in
    let v : (d ≡ j) × (d < 2 ^ 64) = given_counter dir' epoch' j d f in
    let a = assemble_nonce-be_value p c h u.1 in
    let b = assemble_nonce-be_value q d k v.1 in
    (
      sym a.1 ∙ ap (λ (t : List ℕ). be_value 0 (take 4 t)) same ∙ b.1,
      sym u.0 ∙ sym a.2 ∙ ap (λ (t : List ℕ). be_value 0 (drop 4 t)) same ∙ b.2 ∙ v.0,
    )
