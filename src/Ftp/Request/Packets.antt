-- ===== src/Ftp/Request/Packets.antt =====
-- The packets of a burst: each carries what its read gave, in order, and each is a reply.
use pq_key_establishment_mav.Base.{
  ℕ, zero, suc, ◌+◌, ◌-◌, ◌*◌, ◌≤◌, ◌<◌, ◌≡◌, ◌≢◌, ◌⊎◌, ◌==◌, refl, arith, List, [], ◌∷◌, take,
  length, length-replicate, Bool, Bool-cases, Option-cases, inl, inr, some,
}
use pq_key_establishment_mav.Base.Bytes.{zeros, u8, u16, u32}
use pq_key_establishment_mav.KeyFile.Header.{take-append}
use pq_key_establishment_mav.Ftp.{Transaction}
use pq_key_establishment_mav.Ftp.Request.{FileEnv, burst, burst_packet, burst_next}
use pq_key_establishment_mav.Ftp.Request.Replies.{
  IsDraft, IsReply, AllReplies, with_bytes, error-IsReply, packet_drafts, error-opcode,
}

-- `read` gives at most the bytes that the data has room for.
pub record IsFileEnv (env : FileEnv) : Type 0 where
  pub reads_fit : (i : ℕ) (bytes : List ℕ) → env.reads i ≡ some bytes → length bytes ≤ 239

module _ {base : Transaction} (env : FileEnv) where
  -- The loop of a burst: its packets are replies, and it ends with a Nack unless it has sent a packet
  -- in every round.
  pub burst-AllReplies :
      (offset max_read rounds i : ℕ) (r : Transaction)
      → IsFileEnv env
      → IsDraft base r
      → r.opcode ≢ 129
      → AllReplies base (burst env offset max_read rounds i r).1
        × ((IsReply base (burst env offset max_read rounds i r).0
              × ((burst env offset max_read rounds i r).0.opcode ≡ 129))
            ⊎ ((length (burst env offset max_read rounds i r).1 ≡ rounds)
                × ((burst env offset max_read rounds i r).0.opcode ≢ 129)))
  unfolding burst
  burst-AllReplies offset max_read zero i r w v o = (tt, inr (refl, o))
  burst-AllReplies offset max_read (suc rounds) i r w v o = elim (Option-cases (env.reads i)) [
    | inl e ↦ simp (e, burst) (tt, inl (error-IsReply r 2 env.errno v, error-opcode r 2 env.errno))
    | inr (bytes, e) ↦
        simp (e, burst)
          (elim (Bool-cases (length bytes == 0)) [
            | inl z ↦ rw z (
              tt,
              inl (
                error-IsReply _ 6 env.errno
                    (with_bytes r (zeros 239) v (length-replicate {A = ℕ} 239 0)),
                error-opcode (record r { bytes = zeros 239 }) 6 env.errno,
              ),
            )
            | inr z ↦
                let n = w.reads_fit i bytes e in
                let sent = burst_packet offset max_read i (rounds == 0) bytes r in
                let (p, q) = packet_drafts offset max_read i (rounds == 0) bytes r v n in
                let rest =
                  burst-AllReplies offset max_read rounds (i + 1) (burst_next max_read bytes sent) w
                    q (unfold burst_next burst_packet in (λ e. omega (arith, e))) in
                rw z (
                  (p, rest.0),
                  elim rest.1 [ inl a ↦ inl a | inr b ↦ inr (omega (arith, b.0), b.1) ],
                )
          ])
  ]

-- The packets from round `i` on: each carries exactly the bytes of its read, has the offset of its
-- round, and is numbered on from the one before.
pub data IsBurst (env : FileEnv) (offset max_read : ℕ) : ℕ → ℕ → List Transaction → Type 0 where
  no_more : (i seq : ℕ) → IsBurst env offset max_read i seq []
  packet :
      (i seq : ℕ) (p : Transaction) (ps : List Transaction) (bytes : List ℕ)
      → env.reads i ≡ some bytes
      → 0 < length bytes
      → take p.size p.bytes ≡ bytes
      → p.offset ≡ u32 (offset + i * max_read)
      → p.seq_number ≡ seq
      → IsBurst env offset max_read (i + 1) (u16 (seq + 1)) ps
      → IsBurst env offset max_read i seq (p ∷ ps)

module _ (env : FileEnv) (w : IsFileEnv env) (offset max_read : ℕ) where
  burst_carries :
      (i : ℕ) (last : Bool) (bytes : List ℕ) (r : Transaction)
      → length bytes ≤ 239
      → take
          (burst_packet offset max_read i last bytes r).size
          (burst_packet offset max_read i last bytes r).bytes
        ≡ bytes
  unfolding burst_packet
  burst_carries i last bytes r h =
      let n : u8 (length bytes) ≡ length bytes = omega (arith, h) in
      rw n (take-append (length bytes) bytes (zeros (239 - length bytes)) refl)

  -- A burst sends at most one packet in each of its rounds; each carries exactly the bytes of its
  -- read, never none, with the next number, and its offset is that of the burst plus the size of a
  -- read for each round before, modulo 2 ^ 32.
  pub burst-IsBurst :
      (rounds i : ℕ) (r : Transaction)
      → (length (burst env offset max_read rounds i r).1 ≤ rounds)
        × IsBurst env offset max_read i r.seq_number (burst env offset max_read rounds i r).1
  unfolding burst
  burst-IsBurst zero i r = (omega arith, no_more _ _)
  burst-IsBurst (suc rounds) i r = elim (Option-cases (env.reads i)) [
    | inl e ↦ simp (e, burst) (omega arith, no_more _ _)
    | inr (bytes, e) ↦
        simp (e, burst)
          (elim (Bool-cases (length bytes == 0)) [
            | inl z ↦ rw z (omega arith, no_more _ _)
            | inr z ↦
                let sent = burst_packet offset max_read i (rounds == 0) bytes r in
                let rest = burst-IsBurst rounds (i + 1) (burst_next max_read bytes sent) in
                rw z (
                  omega (arith, rest.0),
                  packet _ _ sent _ bytes e (ground (arith, z))
                      (burst_carries i (rounds == 0) bytes r (w.reads_fit i bytes e))
                      (unfold burst_packet in refl) (unfold burst_packet in refl)
                      (unfold burst_next burst_packet in rest.1),
                )
          ])
  ]
