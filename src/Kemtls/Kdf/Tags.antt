-- ===== src/Kemtls/Kdf/Tags.antt =====
-- The comparison of Finished tags, and the sizes of what the key derivation gives.
use pq_key_establishment_mav.Base.{
  ℕ, zero, suc, ◌≡◌, ◌↔◌, refl, ap₂, List, [], ◌∷◌, arith, length, take, bit_or, bit_xor,
  bit_or-eq-zero, bit_xor-eq-zero_iff, min, length-take,
}
use pq_key_establishment_mav.Base.Bytes.{codes}
use pq_key_establishment_mav.Kemtls.Types.{Platform, IsPlatform}
use pq_key_establishment_mav.Kemtls.Kdf.{tag_diff, hmac_sha256, hkdf_expand_label, expected_tag}

tag_diff_refl : (n : ℕ) (xs : List ℕ) → tag_diff 0 n xs xs ≡ 0
unfolding tag_diff
tag_diff_refl zero xs = refl
tag_diff_refl (suc n) [] = refl
tag_diff_refl (suc n) (x ∷ xs) = rw ((bit_xor-eq-zero_iff x x).1 refl) (tag_diff_refl n xs)

tag_diff-eq-zero :
    (n d : ℕ) (xs ys : List ℕ)
    → length xs ≡ n
    → length ys ≡ n
    → tag_diff d n xs ys ≡ 0
    → (d ≡ 0) × (xs ≡ ys)
unfolding tag_diff
tag_diff-eq-zero zero d [] [] p q h = (h, refl)
tag_diff-eq-zero zero d [] (y ∷ ys) p q h = absurd (omega arith)
tag_diff-eq-zero zero d (x ∷ xs) ys p q h = absurd (omega arith)
tag_diff-eq-zero (suc n) d [] ys p q h = absurd (omega arith)
tag_diff-eq-zero (suc n) d (x ∷ xs) [] p q h = absurd (omega arith)
tag_diff-eq-zero (suc n) d (x ∷ xs) (y ∷ ys) p q h =
    let ih = tag_diff-eq-zero n (bit_or d (bit_xor x y)) xs ys (omega arith) (omega arith) h in
    let z = bit_or-eq-zero d (bit_xor x y) ih.0 in
    (z.0, ap₂ ◌∷◌ ((bit_xor-eq-zero_iff x y).0 z.1) ih.1)

-- The accumulated difference of two tags of 32 bytes is zero exactly if they are equal.
pub tag_diff_iff :
    (xs ys : List ℕ) → length xs ≡ 32 → length ys ≡ 32 → (tag_diff 0 32 xs ys ≡ 0) ↔ (xs ≡ ys)
tag_diff_iff xs ys p q =
    (λ h. (tag_diff-eq-zero 32 0 xs ys p q h).1, λ e. rw e (tag_diff_refl 32 ys))

module _ (c : Platform) (ok : IsPlatform c) where
  pub length-hmac_sha256 : (key msg : List ℕ) → length (hmac_sha256 c key msg) ≡ 32
  unfolding hmac_sha256
  length-hmac_sha256 key msg = ok.sha256_size _

  pub length-expected_tag : (prk th : List ℕ) → length (expected_tag c prk th) ≡ 32
  unfolding expected_tag
  length-expected_tag prk th =
      length-hmac_sha256 (hkdf_expand_label c prk (codes "finished") [] 32) (take 32 th)

  pub length-hkdf_expand_label :
      (prk label context : List ℕ) (size : ℕ)
      → length (hkdf_expand_label c prk label context size) ≡ min size 32
  unfolding hkdf_expand_label
  length-hkdf_expand_label prk label context size =
      omega (arith, length-take (min size 32) (hmac_sha256 c prk _), length-hmac_sha256 prk _)
