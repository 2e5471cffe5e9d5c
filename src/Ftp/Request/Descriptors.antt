-- ===== src/Ftp/Request/Descriptors.antt =====
-- The descriptors of a request: what is opened is held or closed.
use pq_key_establishment_mav.Base.{
  ℕ, ◌+◌, ◌≡◌, ◌==◌, if◌then◌else◌, ltb, refl, arith, List, [], ◌∷◌, length, Bool, true, false,
  ◌&&◌, ◌||◌, not, Bool-cases, Option-cases, inl, inr, Option, none, some, true-false,
}
use pq_key_establishment_mav.Base.Bytes.{sub32}
use pq_key_establishment_mav.Ftp.{Transaction, Session, close}
use pq_key_establishment_mav.Ftp.Request.{
  FileEnv, Handled, answered, ack_if, on_path, check_name_len, has_file, opened_as, open_checked,
  open_ro, open_wo, on_file, read_bytes, write_bytes, burst_read, after_burst, rename, bad_names,
  calc_crc, file_request, path_request, is_file_request, is_path_request, handle_request,
}

-- How often a descriptor is held: 0 or 1.
unfoldable pub held : ℕ → Option ℕ → ℕ
held f none = 0
held f (some g) = if g == f then 1 else 0

-- The session's descriptor and the one opened are the one it has now and the one closed.
pub record IsBalanced (s : Session) (h : Handled) : Type 0 where
  pub balance : (f : ℕ) → held f s.fd + held f h.opened ≡ held f h.session.fd + held f h.closed

no_file : (s : Session) → has_file s ≡ false → s.fd ≡ none
unfolding has_file
no_file s e = elim (Option-cases s.fd) [
  | inl f ↦ f
  | inr (g, f) ↦ absurd (true-false (simp (f, has_file) at e))
]

module _ (s : Session) (request reply : Transaction) (env : FileEnv) where
  answered-IsBalanced : (r : Transaction) → IsBalanced s (answered s r)
  unfolding answered held
  answered-IsBalanced r = record { balance = λ f. omega arith }

  ack_if-IsBalanced : (b : Bool) → IsBalanced s (ack_if b s reply env)
  unfolding ack_if
  ack_if-IsBalanced true = answered-IsBalanced _
  ack_if-IsBalanced false = answered-IsBalanced _

  on_path-IsBalanced : (b : Bool) → IsBalanced s (on_path request s reply env b)
  unfolding on_path
  on_path-IsBalanced b = elim (Bool-cases (check_name_len request)) [
    | inl e ↦ rw e (ack_if-IsBalanced b)
    | inr e ↦ rw e (answered-IsBalanced _)
  ]

  opened_as-IsBalanced :
      (w : Bool) (ok : Transaction) → s.fd ≡ none → IsBalanced s (opened_as s reply env w ok)
  unfolding opened_as
  opened_as-IsBalanced w ok e = elim (Option-cases env.opens) [
    | inl g ↦ simp (g, opened_as) (answered-IsBalanced _)
    | inr (d, g) ↦
        simp (g, opened_as) (record { balance = λ f. unfold answered held in rw e (omega arith) })
  ]

  open_checked-IsBalanced : IsBalanced s (open_checked s request reply env)
  unfolding open_checked
  open_checked-IsBalanced = elim (Bool-cases (has_file s)) [
    | inl e ↦ rw e (answered-IsBalanced _)
    | inr e ↦ rw e (elim (Bool-cases (not (check_name_len request))) [
      | inl g ↦ rw g (answered-IsBalanced _)
      | inr g ↦ rw g (elim (Option-cases env.stat) [
        | inl k ↦ simp (k, open_checked) (answered-IsBalanced _)
        | inr (n, k) ↦ simp (k, open_checked) (opened_as-IsBalanced false _ (no_file s e))
      ])
    ])
  ]

  open_wo-IsBalanced : IsBalanced s (open_wo s request reply env)
  unfolding open_wo
  open_wo-IsBalanced = elim (Bool-cases (has_file s)) [
    | inl e ↦ rw e (answered-IsBalanced _)
    | inr e ↦ rw e (elim (Bool-cases (not (check_name_len request))) [
      | inl g ↦ rw g (answered-IsBalanced _)
      | inr g ↦ rw g (opened_as-IsBalanced true _ (no_file s e))
    ])
  ]

  on_file-IsBalanced :
      (b : Bool) (next : Handled) → IsBalanced s next → IsBalanced s (on_file s reply env b next)
  unfolding on_file
  on_file-IsBalanced b next v = elim (Bool-cases (not (has_file s))) [
    | inl e ↦ rw e (answered-IsBalanced _)
    | inr e ↦ rw e (elim (Bool-cases (not b)) [
      | inl g ↦ rw g (answered-IsBalanced _)
      | inr g ↦ rw g (elim (Bool-cases (not env.seeks)) [
        | inl k ↦ rw k (answered-IsBalanced _)
        | inr k ↦ rw k v
      ])
    ])
  ]

  read_bytes-IsBalanced : IsBalanced s (read_bytes s request reply env)
  unfolding read_bytes
  read_bytes-IsBalanced = elim (Option-cases (env.reads 0)) [
    | inl e ↦ simp (e, read_bytes) (answered-IsBalanced _)
    | inr (bytes, e) ↦
        simp (e, read_bytes)
          (elim (Bool-cases (length bytes == 0)) [
            | inl g ↦ rw g (answered-IsBalanced _)
            | inr g ↦ rw g (answered-IsBalanced _)
          ])
  ]

  write_bytes-IsBalanced : IsBalanced s (write_bytes s request reply env)
  unfolding write_bytes
  write_bytes-IsBalanced = elim (Bool-cases env.writes) [
    | inl e ↦ simp (e) (answered-IsBalanced _)
    | inr e ↦ simp (e) (answered-IsBalanced _)
  ]

  after_burst-fd : (t : ℕ) (ps : List Transaction) → (after_burst s t ps).fd ≡ s.fd
  unfolding after_burst
  after_burst-fd t [] = refl
  after_burst-fd t (p ∷ ps) = refl

  burst_read-IsBalanced : IsBalanced s (burst_read s request reply env)
  unfolding burst_read held
  burst_read-IsBalanced = record {
    balance = λ f. rw (after_burst-fd env.pushed_at _) (omega arith);
  }

  calc_crc-IsBalanced : IsBalanced s (calc_crc s request reply env)
  unfolding calc_crc
  calc_crc-IsBalanced = elim (Bool-cases (not (check_name_len request))) [
    | inl e ↦ rw e (answered-IsBalanced _)
    | inr e ↦ rw e (elim (Option-cases env.crc) [
      | inl g ↦ simp (g, calc_crc) (answered-IsBalanced _)
      | inr (n, g) ↦ simp (g, calc_crc) (answered-IsBalanced _)
    ])
  ]

  rename-IsBalanced : IsBalanced s (rename s request reply env)
  unfolding rename
  rename-IsBalanced = elim (Bool-cases (bad_names request)) [
    | inl e ↦ rw e (answered-IsBalanced _)
    | inr e ↦ rw e (ack_if-IsBalanced env.renames)
  ]

  file_request-IsBalanced : IsBalanced s (file_request s request reply env)
  unfolding file_request
  file_request-IsBalanced = elim (Bool-cases (request.opcode == 5)) [
    | inl e ↦ rw e (on_file-IsBalanced _ _ read_bytes-IsBalanced)
    | inr e ↦ rw e (elim (Bool-cases (request.opcode == 7)) [
      | inl g ↦ rw g (on_file-IsBalanced _ _ write_bytes-IsBalanced)
      | inr g ↦ rw g (on_file-IsBalanced _ _ burst_read-IsBalanced)
    ])
  ]

  opened_as-closed : (w : Bool) (ok : Transaction) → (opened_as s reply env w ok).closed ≡ none
  unfolding opened_as answered
  opened_as-closed w ok = elim (Option-cases env.opens) [
    | inl g ↦ simp (g, opened_as) refl
    | inr (d, g) ↦ simp (g, opened_as) refl
  ]

  open_checked-closed : (open_checked s request reply env).closed ≡ none
  unfolding open_checked answered
  open_checked-closed = elim (Bool-cases (has_file s)) [
    | inl e ↦ rw e refl
    | inr e ↦ rw e (elim (Bool-cases (not (check_name_len request))) [
      | inl g ↦ rw g refl
      | inr g ↦ rw g (elim (Option-cases env.stat) [
        | inl k ↦ simp (k, open_checked) refl
        | inr (n, k) ↦ simp (k, open_checked) (opened_as-closed false _)
      ])
    ])
  ]

-- An open file that is closed first counts as closed.
open_ro-IsBalanced :
    (s : Session) (request reply : Transaction) (env : FileEnv)
    → IsBalanced s (open_ro s request reply env)
unfolding open_ro held close
open_ro-IsBalanced s request reply env =
    elim (Bool-cases (has_file s && ltb 3000 (sub32 env.now s.last_send_ms))) [
      | inr e ↦ rw e (open_checked-IsBalanced s request reply env)
      | inl e ↦
          let v = open_checked-IsBalanced (close s) request reply env in
          rw e (record {
            balance = λ f.
                closed_first f (open_checked (close s) request reply env) s.fd
                  (open_checked-closed (close s) request reply env) (v.balance f);
          })
    ]
  where
    closed_first :
        (f : ℕ) (h : Handled) (was : Option ℕ)
        → h.closed ≡ none
        → held f (close s).fd + held f h.opened ≡ held f h.session.fd + held f h.closed
        → held f was + held f h.opened ≡ held f h.session.fd + held f was
    closed_first f h was e p = omega (arith, rw e at p)

path_request-IsBalanced :
    (s : Session) (request reply : Transaction) (env : FileEnv)
    → IsBalanced s (path_request s request reply env)
unfolding path_request
path_request-IsBalanced s request reply env = elim (Bool-cases (request.opcode == 3)) [
  | inl e ↦ rw e (answered-IsBalanced s request reply env _)
  | inr e ↦ rw e (elim (Bool-cases (request.opcode == 4)) [
    | inl a ↦ rw a (open_ro-IsBalanced s request reply env)
    | inr a ↦ rw a (elim (Bool-cases (request.opcode == 6 || request.opcode == 11)) [
      | inl b ↦ rw b (open_wo-IsBalanced s request reply env)
      | inr b ↦ rw b (elim (Bool-cases (request.opcode == 9)) [
        | inl d ↦ rw d (on_path-IsBalanced s request reply env env.makes)
        | inr d ↦ rw d (elim (Bool-cases (request.opcode == 8 || request.opcode == 10)) [
          | inl g ↦ rw g (on_path-IsBalanced s request reply env env.unlinks)
          | inr g ↦ rw g (elim (Bool-cases (request.opcode == 14)) [
            | inl h ↦ rw h (calc_crc-IsBalanced s request reply env)
            | inr h ↦ rw h (rename-IsBalanced s request reply env)
          ])
        ])
      ])
    ])
  ])
]

-- Whatever the request and whatever the file system answers: the descriptor that the session held
-- and the one that was opened are the one it holds now and the one that was closed.
pub handle_request-IsBalanced :
    (s : Session) (request reply : Transaction) (env : FileEnv)
    → IsBalanced s (handle_request s request reply env)
unfolding handle_request held
handle_request-IsBalanced s request reply env = elim (Bool-cases (ltb 239 request.size)) [
  | inl e ↦ rw e (answered-IsBalanced s request reply env _)
  | inr e ↦ rw e (elim (Bool-cases (request.opcode == 0)) [
    | inl a ↦ rw a (answered-IsBalanced s request reply env _)
    | inr a ↦ rw a (elim (Bool-cases (request.opcode == 1)) [
      | inl b ↦ rw b (record { balance = λ f. unfold answered close in omega arith })
      | inr b ↦ rw b (elim (Bool-cases (is_file_request request.opcode)) [
        | inl d ↦ rw d (file_request-IsBalanced s request reply env)
        | inr d ↦ rw d (elim (Bool-cases (is_path_request request.opcode)) [
          | inl g ↦ rw g (path_request-IsBalanced s request reply env)
          | inr g ↦ rw g (elim (Bool-cases (request.opcode == 128 || request.opcode == 129)) [
            | inl h ↦ rw h (record { balance = λ f. unfold answered in omega arith })
            | inr h ↦ rw h (answered-IsBalanced s request reply env _)
          ])
        ])
      ])
    ])
  ])
]
