-- ===== src/Ftp/Request/Answers.antt =====
-- What a request is answered with: one Ack or Nack, or the packets of a burst; Ack and Nack
-- themselves are not answered.
use pq_key_establishment_mav.Base.{
  ℕ, ◌≤◌, ◌<◌, ◌≡◌, ◌⊎◌, ◌≢◌, ◌==◌, if◌then◌else◌, refl, ◌∙◌, arith, [], length, length-replicate,
  Bool, true, false, not, Bool-cases, Option-cases, inl, inr,
}
use pq_key_establishment_mav.Base.Bytes.{zeros, u8}
use pq_key_establishment_mav.Ftp.{Transaction, Session, error}
use pq_key_establishment_mav.Ftp.Request.{
  FileEnv, Handled, answered, ack_if, on_path, check_name_len, has_file, opened_as, open_checked,
  open_wo, on_file, read_bytes, write_bytes, burst_read, rename, bad_names, calc_crc, file_request,
  overwrite,
}
use pq_key_establishment_mav.Ftp.Request.Replies.{
  IsDraft, IsReply, AllReplies, length-overwrite, error-IsReply, ack-IsReply, ack_with, four_bytes,
}
use pq_key_establishment_mav.Ftp.Request.Packets.{IsFileEnv, burst-AllReplies}

pub data IsAnswered (base : Transaction) (opcode : ℕ) (h : Handled) : Type 0 where
  one_reply :
      h.skip ≡ false → AllReplies base h.pushed → IsReply base h.reply → IsAnswered base opcode h
  by_burst :
      h.skip ≡ true → AllReplies base h.pushed → 0 < length h.pushed → IsAnswered base opcode h
  ignored :
      h.skip ≡ true → h.pushed ≡ [] → (opcode ≡ 128) ⊎ (opcode ≡ 129) → IsAnswered base opcode h

module _ {base : Transaction} {opcode : ℕ} (s : Session) (request reply : Transaction)
    (env : FileEnv) (d : IsDraft base reply) where
  pub answered-IsAnswered :
      (r : Transaction) → IsReply base r → IsAnswered base opcode (answered s r)
  answered-IsAnswered r v =
      one_reply (unfold answered in refl) (unfold answered in tt) (unfold answered in v)

  pub failed : (code : ℕ) → IsAnswered base opcode (answered s (error reply code env.errno))
  failed code = answered-IsAnswered _ (error-IsReply reply code env.errno d)

  ack_if-IsAnswered : (b : Bool) → reply.size ≤ 239 → IsAnswered base opcode (ack_if b s reply env)
  unfolding ack_if
  ack_if-IsAnswered true n = answered-IsAnswered _ (ack-IsReply reply d n)
  ack_if-IsAnswered false n = failed 2

  pub on_path-IsAnswered :
      (b : Bool) → reply.size ≤ 239 → IsAnswered base opcode (on_path request s reply env b)
  unfolding on_path
  on_path-IsAnswered b n = elim (Bool-cases (check_name_len request)) [
    | inl e ↦ rw e (ack_if-IsAnswered b n)
    | inr e ↦ rw e (failed 3)
  ]

  opened_as-IsAnswered :
      (w : Bool) (ok : Transaction)
      → IsReply base ok
      → IsAnswered base opcode (opened_as s reply env w ok)
  unfolding opened_as
  opened_as-IsAnswered w ok v = elim (Option-cases env.opens) [
    | inl g ↦ simp (g, opened_as) (failed 2)
    | inr (f, g) ↦
        simp (g, opened_as)
          (one_reply (unfold answered in refl) (unfold answered in tt) (unfold answered in v))
  ]

  pub open_checked-IsAnswered : IsAnswered base opcode (open_checked s request reply env)
  unfolding open_checked
  open_checked-IsAnswered = elim (Bool-cases (has_file s)) [
    | inl e ↦ rw e (failed 1)
    | inr e ↦ rw e (elim (Bool-cases (not (check_name_len request))) [
      | inl g ↦ rw g (failed 3)
      | inr g ↦ rw g (elim (Option-cases env.stat) [
        | inl k ↦ simp (k, open_checked) (failed 2)
        | inr (n, k) ↦
            simp (k, open_checked)
              (opened_as-IsAnswered false _ (four_bytes reply n reply.bytes d d.whole))
      ])
    ])
  ]

  pub open_wo-IsAnswered : reply.size ≤ 239 → IsAnswered base opcode (open_wo s request reply env)
  unfolding open_wo
  open_wo-IsAnswered n = elim (Bool-cases (has_file s)) [
    | inl e ↦ rw e (failed 1)
    | inr e ↦ rw e (elim (Bool-cases (not (check_name_len request))) [
      | inl g ↦ rw g (failed 3)
      | inr g ↦ rw g (opened_as-IsAnswered true _ (ack-IsReply reply d n))
    ])
  ]

  on_file-IsAnswered :
      (b : Bool) (next : Handled)
      → IsAnswered base opcode next
      → IsAnswered base opcode (on_file s reply env b next)
  unfolding on_file
  on_file-IsAnswered b next v = elim (Bool-cases (not (has_file s))) [
    | inl e ↦ rw e (failed 10)
    | inr e ↦ rw e (elim (Bool-cases (not b)) [
      | inl g ↦ rw g (failed 1)
      | inr g ↦
          rw g (elim (Bool-cases (not env.seeks)) [ inl k ↦ rw k (failed 2) | inr k ↦ rw k v ])
    ])
  ]

  read_bytes-IsAnswered : IsFileEnv env → IsAnswered base opcode (read_bytes s request reply env)
  unfolding read_bytes
  read_bytes-IsAnswered w = elim (Option-cases (env.reads 0)) [
    | inl e ↦ simp (e, read_bytes) (failed 2)
    | inr (bytes, e) ↦
        let n = w.reads_fit 0 bytes e in
        simp (e, read_bytes)
          (elim (Bool-cases (length bytes == 0)) [
            | inl g ↦ rw g (failed 6)
            | inr g ↦ rw g (
                answered-IsAnswered _ (
                  ack_with reply request.offset (u8 (length bytes)) (overwrite bytes reply.bytes) d
                    (length-overwrite bytes reply.bytes (omega (arith, n, d.whole)) ∙ d.whole)
                    (omega (arith, n))))
          ])
  ]

  write_bytes-IsAnswered :
      reply.size ≤ 239 → IsAnswered base opcode (write_bytes s request reply env)
  unfolding write_bytes
  write_bytes-IsAnswered n = elim (Bool-cases env.writes) [
    | inl e ↦
        simp (e)
          (answered-IsAnswered _ (ack_with reply request.offset reply.size reply.bytes d d.whole n))
    | inr e ↦ simp (e) (failed 2)
  ]

  pub calc_crc-IsAnswered : IsAnswered base opcode (calc_crc s request reply env)
  unfolding calc_crc
  calc_crc-IsAnswered = elim (Bool-cases (not (check_name_len request))) [
    | inl e ↦ rw e (failed 3)
    | inr e ↦ rw e (elim (Option-cases env.crc) [
      | inl g ↦ simp (g, calc_crc) (failed 2)
      | inr (n, g) ↦
          simp (g, calc_crc)
            (answered-IsAnswered _
              (four_bytes reply n (zeros 239) d (length-replicate {A = ℕ} 239 0)))
    ])
  ]

  pub rename-IsAnswered : reply.size ≤ 239 → IsAnswered base opcode (rename s request reply env)
  unfolding rename
  rename-IsAnswered n = elim (Bool-cases (bad_names request)) [
    | inl e ↦ rw e (failed 3)
    | inr e ↦ rw e (ack_if-IsAnswered env.renames n)
  ]

  burst_read-IsAnswered :
      IsFileEnv env → reply.opcode ≢ 129 → IsAnswered base opcode (burst_read s request reply env)
  unfolding burst_read
  burst_read-IsAnswered w o =
      let max_read : ℕ = if request.size == 0 then 239 else request.size in
      let (p, e) = burst-AllReplies env request.offset max_read 500 0 reply w d o in
      elim e [
        | inl (a, b) ↦ one_reply (not_skipped _ b) p a
        | inr (a, b) ↦ by_burst (skipped _ b) p (omega (arith, a))
      ]
    where
      not_skipped : (n : ℕ) → n ≡ 129 → not (n == 129) ≡ false
      not_skipped n h = ground arith

      skipped : (n : ℕ) → n ≢ 129 → not (n == 129) ≡ true
      skipped n h = ground arith

  pub file_request-IsAnswered :
      IsFileEnv env
      → reply.opcode ≢ 129
      → reply.size ≤ 239
      → IsAnswered base opcode (file_request s request reply env)
  unfolding file_request
  file_request-IsAnswered w o n = elim (Bool-cases (request.opcode == 5)) [
    | inl e ↦ rw e (on_file-IsAnswered _ _ (read_bytes-IsAnswered w))
    | inr e ↦ rw e (elim (Bool-cases (request.opcode == 7)) [
      | inl g ↦ rw g (on_file-IsAnswered _ _ (write_bytes-IsAnswered n))
      | inr g ↦ rw g (on_file-IsAnswered _ _ (burst_read-IsAnswered w o))
    ])
  ]
