-- ===== src/Kemtls/Stream.antt =====
-- GCS_KEMTLS.cpp: the ciphertext streams. Fragment `i` of a stream starts at byte `i * mtu`; for
-- `i` below the number of fragments that product stays below the length and does not wrap.
pub mod Chunks
pub mod Window
use pq_key_establishment_mav.Base.{
  ℕ, zero, suc, ◌+◌, ◌-◌, ◌*◌, List, [], ◌∷◌, ◌++◌, ◌==◌, if◌then◌else◌, take, drop, ltb, length,
  min, Bool, true, false, ◌&&◌, not, replicate,
}
use pq_key_establishment_mav.Base.Bytes.{zeros}
use pq_key_establishment_mav.Kemtls.Types.{HqcRxBuf, Out, ct_chunk}

-- One fragment, copied into the zeroed 220-byte field of the message.
unfoldable pub chunk_out : ℕ → ℕ → List ℕ → ℕ → ℕ → Out
chunk_out sid kind ct off n =
    let part = take n (drop off ct) in ct_chunk sid kind off n (part ++ zeros (220 - length part))

-- while (off < len && sent < window) { ... off += n; sent++; } with `window - sent` rounds left:
-- what is sent, and the final offset.
unfoldable pub send_window : ℕ → ℕ → List ℕ → (mtu len rounds off : ℕ) → List Out × ℕ
unfolding chunk_out
send_window sid kind ct mtu len zero off = ([], off)
send_window sid kind ct mtu len (suc rounds) off =
    let n = min mtu (len - off) in
    let rest = send_window sid kind ct mtu len rounds (off + n) in
    if ltb off len then (chunk_out sid kind ct off n ∷ rest.0, rest.1) else ([], off)

-- The lambda `all_acked`: an empty vector is not acknowledged.
unfoldable pub every : List Bool → Bool
every [] = true
every (b ∷ bs) = b && every bs

unfoldable pub all_acked : List Bool → Bool
unfolding every
all_acked [] = false
all_acked (b ∷ bs) = b && every bs

-- if (acked.size() != chunks) acked.assign(chunks, 0);
unfoldable pub fit_acked : List Bool → ℕ → List Bool
fit_acked acked chunks = if length acked == chunks then acked else replicate chunks false

-- The fragments in flight: not acknowledged, and starting below `sent`. The list is that of the
-- fragments from number `i` on.
unfoldable pub inflight_from : ℕ → ℕ → ℕ → List Bool → ℕ
inflight_from mtu sent i [] = 0
inflight_from mtu sent i (b ∷ bs) =
    (if not b && ltb (i * mtu) sent then 1 else 0) + inflight_from mtu sent (i + 1) bs

-- (eph_done && sta_done): both streams are acknowledged to the end.
unfoldable pub streams_done : HqcRxBuf → Bool
unfolding all_acked
streams_done rx =
    (all_acked rx.cte_acked && not (rx.cte_len == 0))
    && (all_acked rx.cts_acked && not (rx.cts_len == 0))
