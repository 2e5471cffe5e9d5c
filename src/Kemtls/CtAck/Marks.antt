-- ===== src/Kemtls/CtAck/Marks.antt =====
-- Which fragments an acknowledgement marks.
use pq_key_establishment_mav.Base.{
  ℕ, zero, suc, ◌+◌, ◌-◌, ◌/◌, ◌%◌, ◌<◌, ◌≡◌, refl, ◌∙◌, ap, List, [], ◌∷◌, arith, length, get_or,
  set, length-replicate, length-set, ltb, leb, ◌==◌, Bool, true, false, ◌&&◌, ◌||◌, test_bit,
}
use pq_key_establishment_mav.Kemtls.Types.{CtAck}
use pq_key_establishment_mav.Kemtls.Stream.{fit_acked}
use pq_key_establishment_mav.Kemtls.PkChunk.Store.{get_or-set}
use pq_key_establishment_mav.Kemtls.CtAck.{mark_prefix, mark_mask, acked_after}

pub length-fit_acked : (acked : List Bool) (chunks : ℕ) → length (fit_acked acked chunks) ≡ chunks
unfolding fit_acked
length-fit_acked acked chunks = ground (arith, length-replicate {A = Bool} chunks false)

length-mark_prefix : (n : ℕ) (acked : List Bool) → length (mark_prefix n acked) ≡ length acked
unfolding mark_prefix
length-mark_prefix zero acked = refl
length-mark_prefix (suc n) [] = refl
length-mark_prefix (suc n) (b ∷ bs) = ap suc (length-mark_prefix n bs)

get_or-mark_prefix :
    (n : ℕ) (acked : List Bool) (i : ℕ)
    → i < length acked
    → get_or (mark_prefix n acked) i false ≡ (ltb i n || get_or acked i false)
unfolding mark_prefix
get_or-mark_prefix zero acked i h = ground arith
get_or-mark_prefix (suc n) [] i h = absurd (omega arith)
get_or-mark_prefix (suc n) (b ∷ bs) zero h = ground arith
get_or-mark_prefix (suc n) (b ∷ bs) (suc i) h = ground (arith, get_or-mark_prefix n bs i)

length-mark_mask :
    (rounds idx chunks mask : ℕ) (acked : List Bool)
    → length (mark_mask rounds idx chunks mask acked) ≡ length acked
unfolding mark_mask
length-mark_mask zero idx chunks mask acked = refl
length-mark_mask (suc rounds) idx chunks mask acked = ground (
  arith,
  length-mark_mask rounds (idx + 1) chunks (mask / 2) (set acked idx true),
  length-mark_mask rounds (idx + 1) chunks (mask / 2) acked,
  length-set acked idx true,
)

test_bit_next :
    (mask i idx : ℕ) → idx < i → test_bit (mask / 2) (i - (idx + 1)) ≡ test_bit mask (i - idx)
unfolding test_bit
test_bit_next mask i idx h = let e : i - idx ≡ suc (i - (idx + 1)) = omega arith in rw e

test_bit_first : (mask i idx : ℕ) → idx ≡ i → test_bit mask (i - idx) ≡ (mask % 2 == 1)
unfolding test_bit
test_bit_first mask i idx h = let e : i - idx ≡ 0 = omega arith in rw e

get_or-mark_mask :
    (rounds idx chunks mask : ℕ) (acked : List Bool) (i : ℕ)
    → length acked ≡ chunks
    → i < chunks
    → get_or (mark_mask rounds idx chunks mask acked) i false
      ≡ (get_or acked i false || (leb idx i && (ltb i (idx + rounds) && test_bit mask (i - idx))))
unfolding mark_mask
get_or-mark_mask zero idx chunks mask acked i n h = ground arith
get_or-mark_mask (suc rounds) idx chunks mask acked i n h = ground (
  arith,
  get_or-mark_mask rounds (idx + 1) chunks (mask / 2) (set acked idx true) i,
  get_or-mark_mask rounds (idx + 1) chunks (mask / 2) acked i,
  length-set acked idx true,
  get_or-set acked idx i true,
  test_bit_next mask i idx,
  test_bit_first mask i idx,
)

pub length-acked_after :
    (mtu chunks : ℕ) (m : CtAck) (acked : List Bool)
    → length (acked_after mtu chunks m acked) ≡ chunks
unfolding acked_after
length-acked_after mtu chunks m acked =
    length-mark_mask 32 (m.base / mtu) chunks m.mask
      (mark_prefix (m.base / mtu) (fit_acked acked chunks))
    ∙ (length-mark_prefix (m.base / mtu) (fit_acked acked chunks) ∙ length-fit_acked acked chunks)

-- After an acknowledgement a fragment of the stream is marked exactly if it was before, lies below
-- the base, or has its bit in the mask of the 32 fragments from the base on.
pub acked_after_bits :
    (mtu chunks : ℕ) (m : CtAck) (acked : List Bool) (i : ℕ)
    → i < chunks
    → get_or (acked_after mtu chunks m acked) i false ≡ (
        get_or (fit_acked acked chunks) i false
        || (ltb i (m.base / mtu)
            || (leb (m.base / mtu) i
                && (ltb i (m.base / mtu + 32) && test_bit m.mask (i - m.base / mtu)))))
unfolding acked_after
acked_after_bits mtu chunks m acked i h = ground (
  arith,
  get_or-mark_mask 32 b chunks m.mask (mark_prefix b fit) i,
  length-mark_prefix b fit,
  length-fit_acked acked chunks,
  get_or-mark_prefix b fit i,
)
  where
    b : ℕ
    b = m.base / mtu

    fit : List Bool
    fit = fit_acked acked chunks
