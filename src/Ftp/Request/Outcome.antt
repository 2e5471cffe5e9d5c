-- ===== src/Ftp/Request/Outcome.antt =====
-- Every request has its answer.
use pq_key_establishment_mav.Base.{
  ℕ, ◌≤◌, ◌≡◌, ◌≢◌, ◌==◌, ltb, refl, arith, ◌&&◌, ◌||◌, Bool-cases, inl, inr, Option,
}
use pq_key_establishment_mav.Base.Bytes.{sub32}
use pq_key_establishment_mav.Ftp.{Transaction, Session, close}
use pq_key_establishment_mav.Ftp.Request.{
  FileEnv, Handled, answered, has_file, open_ro, path_request, is_file_request, is_path_request,
  handle_request,
}
use pq_key_establishment_mav.Ftp.Request.Replies.{IsDraft, ack-IsReply, list_dir-IsReply}
use pq_key_establishment_mav.Ftp.Request.Packets.{IsFileEnv}
use pq_key_establishment_mav.Ftp.Request.Answers.{
  IsAnswered, one_reply, by_burst, ignored, answered-IsAnswered, failed, on_path-IsAnswered,
  open_checked-IsAnswered, open_wo-IsAnswered, calc_crc-IsAnswered, rename-IsAnswered,
  file_request-IsAnswered,
}

module _ {base : Transaction} {opcode : ℕ} (s : Session) (request reply : Transaction)
    (env : FileEnv) (d : IsDraft base reply) where
  closed_first :
      (h : Handled) (f : Option ℕ)
      → IsAnswered base opcode h
      → IsAnswered base opcode (record h { closed = f })
  closed_first h f (one_reply a b e) = one_reply a b e
  closed_first h f (by_burst a b e) = by_burst a b e
  closed_first h f (ignored a b e) = ignored a b e

  open_ro-IsAnswered : IsAnswered base opcode (open_ro s request reply env)
  unfolding open_ro
  open_ro-IsAnswered = elim (Bool-cases (has_file s && ltb 3000 (sub32 env.now s.last_send_ms))) [
    | inl e ↦ rw e (closed_first _ s.fd (open_checked-IsAnswered (close s) request reply env d))
    | inr e ↦ rw e (open_checked-IsAnswered s request reply env d)
  ]

  path_request-IsAnswered :
      reply.size ≤ 239 → IsAnswered base opcode (path_request s request reply env)
  unfolding path_request
  path_request-IsAnswered n = elim (Bool-cases (request.opcode == 3)) [
    | inl e ↦
        rw e (answered-IsAnswered s request reply env d _ (list_dir-IsReply request reply env d))
    | inr e ↦ rw e (elim (Bool-cases (request.opcode == 4)) [
      | inl a ↦ rw a open_ro-IsAnswered
      | inr a ↦ rw a (elim (Bool-cases (request.opcode == 6 || request.opcode == 11)) [
        | inl b ↦ rw b (open_wo-IsAnswered s request reply env d n)
        | inr b ↦ rw b (elim (Bool-cases (request.opcode == 9)) [
          | inl f ↦ rw f (on_path-IsAnswered s request reply env d env.makes n)
          | inr f ↦ rw f (elim (Bool-cases (request.opcode == 8 || request.opcode == 10)) [
            | inl g ↦ rw g (on_path-IsAnswered s request reply env d env.unlinks n)
            | inr g ↦ rw g (elim (Bool-cases (request.opcode == 14)) [
              | inl h ↦ rw h (calc_crc-IsAnswered s request reply env d)
              | inr h ↦ rw h (rename-IsAnswered s request reply env d n)
            ])
          ])
        ])
      ])
    ])
  ]

  -- A request that is larger than its data, that is unknown, or that fails gets a Nack. With a reply
  -- that is prepared and reads that fit the data, every request is answered in one of
  -- three ways: by one Ack or Nack to its sender, after the packets of a burst if there are any; by
  -- the packets of a burst alone, at least one; or, if it is itself an Ack or a Nack, not at all.
  pub handle_request-IsAnswered :
      IsFileEnv env
      → request.opcode ≡ opcode
      → reply.opcode ≢ 129
      → reply.size ≤ 239
      → IsAnswered base opcode (handle_request s request reply env)
  unfolding handle_request
  handle_request-IsAnswered w same o n = elim (Bool-cases (ltb 239 request.size)) [
    | inl e ↦ rw e (failed s request reply env d 3)
    | inr e ↦ rw e (elim (Bool-cases (request.opcode == 0)) [
      | inl a ↦ rw a (answered-IsAnswered s request reply env d _ (ack-IsReply reply d n))
      | inr a ↦ rw a (elim (Bool-cases (request.opcode == 1)) [
        | inl b ↦ rw b (
            closed_first _ s.fd
              (answered-IsAnswered (close s) request reply env d _ (ack-IsReply reply d n)))
        | inr b ↦ rw b (elim (Bool-cases (is_file_request request.opcode)) [
          | inl f ↦ rw f (file_request-IsAnswered s request reply env d w o n)
          | inr f ↦ rw f (elim (Bool-cases (is_path_request request.opcode)) [
            | inl g ↦ rw g (path_request-IsAnswered n)
            | inr g ↦ rw g (elim (Bool-cases (request.opcode == 128 || request.opcode == 129)) [
              | inl h ↦ rw h (ignored refl (unfold answered in refl) (ground (arith, h, same)))
              | inr h ↦ rw h (failed s request reply env d 1)
            ])
          ])
        ])
      ])
    ])
  ]
