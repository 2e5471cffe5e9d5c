-- ===== src/Kemtls/Stream/Window.antt =====
-- A window of fragments: what is sent stays in the buffer, and together it is the next part of it.
use Prim.Native.Nat.add
use mathlib.Core.List.{append_assoc}
use pq_key_establishment_mav.Base.{
  ℕ, zero, suc, ◌+◌, ◌-◌, ◌≤◌, ◌<◌, ◌≡◌, ◌⊎◌, refl, sym, ◌∙◌, ap, List, [], ◌∷◌, ◌++◌, arith,
  length, take, drop, ltb, min, length-take, length-drop, length-append, length-replicate,
  Bool-cases, inl, inr, ltb→lt, take-append-drop,
}
use pq_key_establishment_mav.Base.Bytes.{zeros}
use pq_key_establishment_mav.Kemtls.Types.{
  Out, hello_ack, pk_ack, ct_chunk, hqc_status, hqc_abort, enable_signing,
}
use pq_key_establishment_mav.Kemtls.Stream.{send_window, chunk_out}

-- A fragment message that carries `n` bytes at `off`, inside `len` and the message's field.
abbrev pub IsChunk : (sid kind mtu len : ℕ) → Out → Type 0
IsChunk sid kind mtu len (ct_chunk s k off n tmp) =
    (s ≡ sid) × (k ≡ kind) × (off + n ≤ len) × (0 < n) × (n ≤ mtu) × (length tmp ≡ 220)
IsChunk sid kind mtu len (hello_ack a) = ⊥
IsChunk sid kind mtu len (pk_ack a b d) = ⊥
IsChunk sid kind mtu len (hqc_status a b d e) = ⊥
IsChunk sid kind mtu len (hqc_abort a b d e) = ⊥
IsChunk sid kind mtu len (enable_signing a b d) = ⊥

abbrev pub AllChunks : (sid kind mtu len : ℕ) → List Out → Type 0
AllChunks sid kind mtu len [] = Unit {0}
AllChunks sid kind mtu len (o ∷ os) = IsChunk sid kind mtu len o × AllChunks sid kind mtu len os

-- The ciphertext bytes that the messages carry.
abbrev pub carried : List Out → List ℕ
carried [] = []
carried (ct_chunk s k off n tmp ∷ os) = take n tmp ++ carried os
carried (hello_ack a ∷ os) = carried os
carried (pk_ack a b d ∷ os) = carried os
carried (hqc_status a b d e ∷ os) = carried os
carried (hqc_abort a b d e ∷ os) = carried os
carried (enable_signing a b d ∷ os) = carried os

drop-nil : (n : ℕ) → drop {A = ℕ} n [] ≡ []
drop-nil zero = refl
drop-nil (suc n) = refl

drop-add : (m n : ℕ) (xs : List ℕ) → drop (m + n) xs ≡ drop n (drop m xs)
drop-add zero n xs = ground arith
drop-add (suc m) n [] = drop-nil (suc m + n) ∙ sym (drop-nil n)
drop-add (suc m) n (x ∷ xs) = rw add.suc (drop-add m n xs)

take-append_length : (xs ys : List ℕ) → take (length xs) (xs ++ ys) ≡ xs
take-append_length [] ys = refl
take-append_length (x ∷ xs) ys = rw (take-append_length xs ys)

-- A window that runs from `off` to `off'`.
pub record IsWindow (sid kind : ℕ) (ct : List ℕ) (mtu len rounds off : ℕ) (w : List Out × ℕ)
    : Type 0 where
  pub in_range : AllChunks sid kind mtu len w.0
  pub at_most : length w.0 ≤ rounds
  pub ends : (length w.0 ≡ rounds) ⊎ (len ≤ w.1)
  pub forward : (off ≤ w.1) × (w.1 ≤ len)
  pub bytes : carried w.0 ++ drop w.1 ct ≡ drop off ct

module _ (sid kind : ℕ) (ct : List ℕ) (mtu len : ℕ) (pos : 0 < mtu) (field : mtu ≤ 220)
    (fits : len ≤ length ct) where
  length-part :
      (off : ℕ)
      → off < len
      → length (take (min mtu (len - off)) (drop off ct)) ≡ min mtu (len - off)
  length-part off h =
      omega (arith, length-take (min mtu (len - off)) (drop off ct), length-drop off ct)

  pub chunk_out-IsChunk :
      (off : ℕ)
      → off < len
      → IsChunk sid kind mtu len (chunk_out sid kind ct off (min mtu (len - off)))
  unfolding chunk_out
  chunk_out-IsChunk off h = (
    refl,
    refl,
    omega arith,
    omega arith,
    omega arith,
    omega (
      arith,
      length-part off h,
      length-append (take (min mtu (len - off)) (drop off ct))
          (zeros (220 - length (take (min mtu (len - off)) (drop off ct)))),
      length-replicate {A = ℕ} (220 - length (take (min mtu (len - off)) (drop off ct))) 0,
    ),
  )

  carried-chunk_out :
      (off : ℕ) (os : List Out)
      → off < len
      → carried (chunk_out sid kind ct off (min mtu (len - off)) ∷ os)
        ≡ take (min mtu (len - off)) (drop off ct) ++ carried os
  unfolding chunk_out
  carried-chunk_out off os h =
      ap (λ (t : List ℕ). t ++ carried os)
        (whole (take (min mtu (len - off)) (drop off ct)) (length-part off h))
    where
      whole :
          (part : List ℕ)
          → length part ≡ min mtu (len - off)
          → take (min mtu (len - off)) (part ++ zeros (220 - length part)) ≡ part
      whole part e = rw (← e) (take-append_length part (zeros (220 - length part)))

  -- While the length is that of the buffer at most, the cursor is within it and the fragments fit the
  -- message, the window loop sends at most its rounds of fragments, each inside the buffer and the message,
  -- stops only when the rounds or the bytes are used up, and what it sends is exactly the part of
  -- the ciphertext from the old offset to the new one.
  pub send_window-IsWindow :
      (rounds off : ℕ)
      → off ≤ len
      → IsWindow sid kind ct mtu len rounds off (send_window sid kind ct mtu len rounds off)
  unfolding send_window
  send_window-IsWindow zero off h = record {
    in_range = tt;
    at_most = omega arith;
    ends = inl refl;
    forward = (omega arith, h);
    bytes = refl;
  }
  send_window-IsWindow (suc rounds) off h = elim (Bool-cases (ltb off len)) [
    | inl e ↦
        let below : off < len = ltb→lt off len e in
        let n : ℕ = min mtu (len - off) in
        let next = send_window sid kind ct mtu len rounds (off + n) in
        let rest = send_window-IsWindow rounds (off + n) (omega arith) in
        rw e (record {
          in_range = (chunk_out-IsChunk off below, rest.in_range);
          at_most = omega (arith, rest.at_most);
          ends = elim rest.ends [ inl p ↦ inl (omega (arith, p)) | inr q ↦ inr q ];
          forward = (omega (arith, rest.forward), rest.forward.1);
          bytes =
              ap (λ (t : List ℕ). t ++ drop next.1 ct) (carried-chunk_out off next.0 below)
              ∙ (append_assoc (take n (drop off ct)) (carried next.0) (drop next.1 ct)
                  ∙ (ap (λ (t : List ℕ). take n (drop off ct) ++ t) (rest.bytes ∙ drop-add off n ct)
                      ∙ take-append-drop n (drop off ct)));
        })
    | inr e ↦ rw e (record {
      in_range = tt;
      at_most = omega arith;
      ends = inr (ground arith);
      forward = (omega arith, h);
      bytes = refl;
    })
  ]
