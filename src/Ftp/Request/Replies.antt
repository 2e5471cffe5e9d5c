-- ===== src/Ftp/Request/Replies.antt =====
-- The replies themselves: an Ack or Nack for the sender of the request, with whole data.
use pq_key_establishment_mav.Base.{
  ℕ, ◌-◌, ◌≤◌, ◌<◌, ◌≡◌, ◌⊎◌, ◌==◌, if◌then◌else◌, ltb, refl, ◌∙◌, arith, List, [], ◌∷◌, ◌++◌, take,
  drop, length, length-append, length-take, length-drop, length-set, length-replicate, set, Bool,
  not, Bool-cases, Option-cases, inl, inr,
}
use pq_key_establishment_mav.Base.Bytes.{le_bytes, zeros}
use pq_key_establishment_mav.Ftp.{Transaction, error}
use pq_key_establishment_mav.Ftp.Request.{
  DirEntry, FileEnv, ack, check_name_len, burst_packet, burst_next, list_dir, list_from,
  list_packed, burn, pack, overwrite,
}
use pq_key_establishment_mav.Ftp.Request.Listing.{pack_fits, burn_whole}

-- A reply on its way to whom the reply `base` is for, with whole data.
pub record IsDraft (base r : Transaction) : Type 0 where
  pub chan : r.chan ≡ base.chan
  pub sysid : r.sysid ≡ base.sysid
  pub compid : r.compid ≡ base.compid
  pub session : r.session ≡ base.session
  pub req_opcode : r.req_opcode ≡ base.req_opcode
  pub whole : length r.bytes ≡ 239

-- Such a reply that says Ack, with a size within the data, or Nack, with an error of one or two
-- bytes.
pub record IsReply (base r : Transaction) : Type 0 where
  pub draft : IsDraft base r
  pub verdict :
      ((r.opcode ≡ 128) × (r.size ≤ 239)) ⊎ ((r.opcode ≡ 129) × (0 < r.size) × (r.size ≤ 2))

abbrev pub AllReplies : Transaction → List Transaction → Type 0
AllReplies base [] = Unit {0}
AllReplies base (p ∷ ps) = IsReply base p × AllReplies base ps

pub length-overwrite :
    (bytes old : List ℕ) → length bytes ≤ length old → length (overwrite bytes old) ≡ length old
unfolding overwrite
length-overwrite bytes old h =
    omega (arith, length-append bytes (drop (length bytes) old), length-drop (length bytes) old)

pub error-opcode : (r : Transaction) (code errno : ℕ) → (error r code errno).opcode ≡ 129
unfolding error
error-opcode r code errno = ground arith

module _ {base : Transaction} where
  pub with_bytes :
      (r : Transaction) (bytes : List ℕ)
      → IsDraft base r
      → length bytes ≡ 239
      → IsDraft base (record r { bytes = bytes })
  with_bytes r bytes d n = record {
    chan = d.chan;
    sysid = d.sysid;
    compid = d.compid;
    session = d.session;
    req_opcode = d.req_opcode;
    whole = n;
  }

  nack_of :
      (r : Transaction) (bytes : List ℕ) (size : ℕ)
      → IsDraft base r
      → length bytes ≡ 239
      → 0 < size
      → size ≤ 2
      → IsReply base (record r { opcode = 129; bytes = bytes; size = size })
  nack_of r bytes size d n p q = record {
    draft = record {
      chan = d.chan;
      sysid = d.sysid;
      compid = d.compid;
      session = d.session;
      req_opcode = d.req_opcode;
      whole = n;
    };
    verdict = inr (refl, p, q);
  }

  pub error-IsReply :
      (r : Transaction) (code errno : ℕ) → IsDraft base r → IsReply base (error r code errno)
  unfolding error
  error-IsReply r code errno d =
      let n : length (set r.bytes 0 code) ≡ 239 = length-set r.bytes 0 code ∙ d.whole in
      elim (Bool-cases (not (code == 2))) [
        | inl e ↦ rw e (nack_of r _ 1 d n (omega arith) (omega arith))
        | inr e ↦ rw e (elim (Bool-cases (errno == 17)) [
          | inl f ↦ rw f (
              nack_of r _ 1 d (length-set (set r.bytes 0 code) 0 8 ∙ n) (omega arith) (omega arith))
          | inr f ↦ rw f (elim (Bool-cases (errno == 2)) [
            | inl g ↦ rw g (
                nack_of r _ 1 d (length-set (set r.bytes 0 code) 0 10 ∙ n) (omega arith)
                  (omega arith))
            | inr g ↦ rw g (
                nack_of r _ 2 d (length-set (set r.bytes 0 code) 1 _ ∙ n) (omega arith)
                  (omega arith))
          ])
        ])
      ]

  pub ack-IsReply : (r : Transaction) → IsDraft base r → r.size ≤ 239 → IsReply base (ack r)
  unfolding ack
  ack-IsReply r d n = record {
    draft = record {
      chan = d.chan;
      sysid = d.sysid;
      compid = d.compid;
      session = d.session;
      req_opcode = d.req_opcode;
      whole = d.whole;
    };
    verdict = inl (refl, n);
  }

  -- An Ack with another offset, size and data.
  pub ack_with :
      (r : Transaction) (offset size : ℕ) (bytes : List ℕ)
      → IsDraft base r
      → length bytes ≡ 239
      → size ≤ 239
      → IsReply base (ack (record r { offset = offset; size = size; bytes = bytes }))
  ack_with r offset size bytes d n m =
      let r' : Transaction = record r { offset = offset; size = size; bytes = bytes } in
      ack-IsReply r'
        (record {
          chan = d.chan;
          sysid = d.sysid;
          compid = d.compid;
          session = d.session;
          req_opcode = d.req_opcode;
          whole = n;
        })
        m

  pub four_bytes :
      (r : Transaction) (v : ℕ) (old : List ℕ)
      → IsDraft base r
      → length old ≡ 239
      → IsReply base (ack (record r { size = 4; bytes = overwrite (le_bytes 4 v) old }))
  unfolding le_bytes
  four_bytes r v old d n =
      ack_with r r.offset 4 (overwrite (le_bytes 4 v) old) d
        (length-overwrite (le_bytes 4 v) old (omega (arith, n)) ∙ n) (omega arith)

-- A packet of a burst, and the draft of the next one.
pub packet_drafts :
    {base : Transaction} (offset max_read i : ℕ) (last : Bool) (bytes : List ℕ) (r : Transaction)
    → IsDraft base r
    → length bytes ≤ 239
    → IsReply base (burst_packet offset max_read i last bytes r)
      × IsDraft base (burst_next max_read bytes (burst_packet offset max_read i last bytes r))
unfolding burst_packet burst_next
packet_drafts offset max_read i last bytes r d n =
    let whole : length (bytes ++ zeros (239 - length bytes)) ≡ 239 = omega (
      arith,
      n,
      length-append bytes (zeros (239 - length bytes)),
      length-replicate {A = ℕ} (239 - length bytes) 0,
    ) in
    (
      record {
        draft = record {
          chan = d.chan;
          sysid = d.sysid;
          compid = d.compid;
          session = d.session;
          req_opcode = d.req_opcode;
          whole = whole;
        };
        verdict = inl (refl, omega (arith, n));
      },
      record {
        chan = d.chan;
        sysid = d.sysid;
        compid = d.compid;
        session = d.session;
        req_opcode = d.req_opcode;
        whole = whole;
      },
    )

module _ {base : Transaction} (request reply : Transaction) (env : FileEnv)
    (d : IsDraft base reply) where
  list_packed-IsReply :
      (response : Transaction) (bytes : List ℕ) (es : List DirEntry)
      → IsDraft base response
      → length bytes ≡ 239
      → IsReply base (list_packed response env bytes es)
  unfolding list_packed
  list_packed-IsReply response bytes es v n =
      let p = pack 0 bytes es in
      let (fits, whole) = pack_fits 0 bytes es n (omega arith) in
      elim (Bool-cases (p.0 == 0)) [
        | inl e ↦ rw e (error-IsReply _ 6 env.errno (with_bytes response p.1 v whole))
        | inr e ↦ rw e (ack_with response response.offset p.0 _ v (filled p whole fits) fits)
      ]
    where
      filled :
          (p : ℕ × List ℕ)
          → length p.1 ≡ 239
          → p.0 ≤ 239
          → length (if ltb p.0 239 then take p.0 p.1 ++ zeros (239 - p.0) else p.1) ≡ 239
      filled p n h = elim (Bool-cases (ltb p.0 239)) [
        | inr e ↦ rw e n
        | inl e ↦ rw e (
            omega (
              arith,
              n,
              h,
              length-append (take p.0 p.1) (zeros (239 - p.0)),
              length-take p.0 p.1,
              length-replicate {A = ℕ} (239 - p.0) 0,
            ))
      ]

  pub list_dir-IsReply : IsReply base (list_dir request reply env)
  unfolding list_dir list_from
  list_dir-IsReply =
      let response : Transaction = record reply { offset = request.offset } in
      let v : IsDraft base response = record {
        chan = d.chan;
        sysid = d.sysid;
        compid = d.compid;
        session = d.session;
        req_opcode = d.req_opcode;
        whole = d.whole;
      } in
      elim (Bool-cases (not (check_name_len request))) [
        | inl e ↦ rw e (error-IsReply response 3 env.errno v)
        | inr e ↦ rw e (elim (Option-cases env.directory) [
          | inl g ↦ simp (g, list_dir) (error-IsReply response 2 env.errno v)
          | inr (entries, g) ↦
              let b = burn request.offset reply.bytes entries in
              let n = burn_whole request.offset reply.bytes entries d.whole in
              simp (g, list_dir)
                (elim (Option-cases b.0) [
                  | inl h ↦
                      simp (h, list_from)
                        (error-IsReply _ 6 env.errno (with_bytes response b.1 v n))
                  | inr (left, h) ↦ simp (h, list_from) (list_packed-IsReply response b.1 left v n)
                ])
        ])
      ]
