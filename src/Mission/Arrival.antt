-- ===== src/Mission/Arrival.antt =====
-- One item of an upload: more to come, or all stored.
use pq_key_establishment_mav.Base.{
  true-false, suc, ℕ, ◌+◌, ◌<◌, ◌≡◌, ◌==◌, refl, sym, ◌∙◌, if◌then◌else◌, ltb, List, [], ◌∷◌, Bool,
  true, false, not, Option, none, some, arith, ltb→lt,
}
use pq_key_establishment_mav.Base.Bytes.{u16}
use pq_key_establishment_mav.Mission.{
  MissionResult, error, denied, invalid_sequence, is_accepted, Item, Sender, mission_request,
  next_item, Env, Backend, Protocol, Done, done, send_mission_ack, ack_on_link, with_store, stop,
  transfer_is_complete, queued_request_send, request_on,
}
use pq_key_establishment_mav.Mission.Handlers.{
  write_item, item_written, item_on, handle_mission_item, receive_mission_item,
}
use pq_key_establishment_mav.Mission.Upload.{placed, IsTaken, write_item-placed, IsUpload, IsStored}

module _ {S : Type 0} (b : Backend S) where
  -- After `sent`, of `n` items: more to come, or all stored.
  pub record IsNext (m : Sender) (n k : ℕ) (t : S) (p : Protocol S) : Type 0 where
    pub going : k < n → IsUpload b m n k t p
    pub over : k ≡ n → IsStored b t p

  pub if-IsNext :
      (m : Sender) (n k : ℕ) (t : S) (c : Bool) (x y : Done S)
      → (c ≡ true → IsNext m n k t x.protocol)
      → (c ≡ false → IsNext m n k t y.protocol)
      → IsNext m n k t (if c then x else y).protocol
  if-IsNext m n k t true x y f g = f refl
  if-IsNext m n k t false x y f g = g refl

  still-IsNext :
      (m : Sender) (n k : ℕ) (t : S) (p : Protocol S) → IsUpload b m n k t p → IsNext m n k t p
  still-IsNext m n k t p v = record {
    going = λ h. v;
    over = λ h. absurd (omega (arith, h, v.more));
  }

  -- Requests change only the time of the last one.
  requested :
      (p : Protocol S) (m : Sender) (n time k : ℕ) (t : S)
      → IsUpload b m n k t p
      → IsUpload b m n k t (record p { timelast_request_ms = time })
  requested p m n time k t v = record {
    receiving = v.receiving;
    linked = v.linked;
    sysid = v.sysid;
    compid = v.compid;
    next = v.next;
    last = v.last;
    more = v.more;
    small = v.small;
    held = v.held;
  }

  request_on-IsNext :
      (e : Env) (m : Sender) (n k : ℕ) (t : S) (p : Protocol S) (o : Option ℕ)
      → o ≡ some m.chan
      → IsUpload b m n k t p
      → IsNext m n k t (request_on b e p o).protocol
  unfolding request_on done
  request_on-IsNext e m n k t p none f v = cc
  request_on-IsNext e m n k t p (some chan) f v =
      if-IsNext m n k t (e.request_space chan)
        (done (record p { timelast_request_ms = e.now })
          (mission_request chan p.dest_sysid p.dest_compid p.request_i ∷ []))
        (done p [])
        (λ g.
          still-IsNext m n k t (record p { timelast_request_ms = e.now })
            (requested p m n e.now k t v))
        (λ g. still-IsNext m n k t p v)

  queued_request_send-IsNext :
      (e : Env) (m : Sender) (n k : ℕ) (t : S) (p : Protocol S)
      → IsUpload b m n k t p
      → IsNext m n k t (queued_request_send b e p).protocol
  unfolding queued_request_send done
  queued_request_send-IsNext e m n k t p v =
      if-IsNext m n k t (not p.receiving) (done p [])
        (if ltb p.request_last p.request_i then done p [] else request_on b e p p.link)
        (λ g. still-IsNext m n k t p v)
        (λ g.
          if-IsNext m n k t (ltb p.request_last p.request_i) (done p []) (request_on b e p p.link)
            (λ h. still-IsNext m n k t p v) (λ h. request_on-IsNext e m n k t p p.link v.linked v))

  pub completed :
      (e : Env) (m : Sender) (p : Protocol S)
      → IsStored b p.store (transfer_is_complete b e p m).protocol
  unfolding transfer_is_complete with_store stop done
  completed e m p = record { free = refl; stored = refl }

  item_written-IsNext :
      (e : Env) (m : Sender) (n k : ℕ) (t : S) (p : Protocol S) (result : MissionResult) (s : S)
      → IsUpload b m n k t p
      → is_accepted result ≡ true
      → IsNext m n (suc k) s (item_written b e p m m.chan (result, s)).protocol
  unfolding item_written transfer_is_complete with_store stop done
  item_written-IsNext e m n k t p result s v a =
      let p' : Protocol S = record p {
        store = s;
        timelast_receive_ms = e.now;
        request_i = u16 (p.request_i + 1);
      } in
      let next : u16 (p.request_i + 1) ≡ suc k = omega (arith, v.next, v.more, v.small) in
      let up : suc k < n → IsUpload b m n (suc k) s p' = λ more. record {
        receiving = v.receiving;
        linked = v.linked;
        sysid = v.sysid;
        compid = v.compid;
        next = next;
        last = v.last;
        more = more;
        small = v.small;
        held = refl;
      } in
      rw a (
        if-IsNext m n (suc k) s (ltb p.request_last (u16 (p.request_i + 1)))
          (transfer_is_complete b e p' m)
          (if e.request_space m.chan
            then queued_request_send b e p'
            else done p' (next_item m.chan ∷ []))
          (λ f. record {
            going = λ h. absurd (
                omega (
                  arith,
                  h,
                  v.last,
                  v.more,
                  next,
                  ltb→lt p.request_last (u16 (p.request_i + 1)) f,
                ));
            over = λ h. completed e m p';
          })
          (λ f.
            let h : suc k < n = ground (arith, v.last, v.more, next, f) in
            if-IsNext m n (suc k) s (e.request_space m.chan) (queued_request_send b e p')
              (done p' (next_item m.chan ∷ []))
              (λ g. queued_request_send-IsNext e m n (suc k) s p' (up h))
              (λ g. still-IsNext m n (suc k) s p' (up h))))

  owner_written-IsNext :
      (e : Env) (m : Sender) (n k : ℕ) (t : S) (c : List ℕ) (p : Protocol S) (chan : ℕ) (r : Bool)
      → m.chan ≡ chan
      → r ≡ true
      → IsUpload b m n k t p
      → IsTaken b k c t
      → IsNext m n
          (suc k)
          (placed b k c t).1
          (item_written b e p m chan
            (write_item b r (record { seq = k; content = c }) p.store)).protocol
  unfolding item_written
  owner_written-IsNext e m n k t c p chan r same f v a =
      rw (f, sym same, v.held, write_item-placed b k c t a.behind)
        (item_written-IsNext e m n k t p (placed b k c t).0 (placed b k c t).1 v a.accepted)

  item_on-IsNext :
      (e : Env) (m : Sender) (n k : ℕ) (t : S) (c : List ℕ) (p : Protocol S) (o : Option ℕ)
      → o ≡ some m.chan
      → IsUpload b m n k t p
      → IsTaken b k c t
      → IsNext m n
          (suc k)
          (placed b k c t).1
          (item_on b e p m (record { seq = k; content = c }) o).protocol
  unfolding item_on
  item_on-IsNext e m n k t c p none f v a = cc
  item_on-IsNext e m n k t c p (some chan) f v a =
      let s : S = (placed b k c t).1 in
      let cmd : Item = record { seq = k; content = c } in
      let same : m.chan ≡ chan = cc in
      let refused : Done S = done p (ack_on_link e (some chan) m denied) in
      let written : Done S = item_written b e p m chan (write_item b p.receiving cmd p.store) in
      if-IsNext m n (suc k) s (not (k == p.request_i))
        (done p (ack_on_link e (some chan) m invalid_sequence))
        (if not (m.sysid == p.dest_sysid)
          then refused
          else if not (m.compid == p.dest_compid)
          then refused
          else written)
        (λ g. absurd (ground (arith, g, v.next)))
        (λ g.
          if-IsNext m n (suc k) s (not (m.sysid == p.dest_sysid)) refused
            (if not (m.compid == p.dest_compid) then refused else written)
            (λ h. absurd (ground (arith, h, v.sysid)))
            (λ h.
              if-IsNext m n (suc k) s (not (m.compid == p.dest_compid)) refused written
                (λ j. absurd (ground (arith, j, v.compid)))
                (λ j. owner_written-IsNext e m n k t c p chan p.receiving same v.receiving v a)))

  warned :
      (m : Sender) (n k : ℕ) (t : S) (p : Protocol S) (old : Bool)
      → IsUpload b m n k t p
      → IsUpload b m n k t (if old then record p { mission_item_warning_sent = true } else p)
  warned m n k t p false v = v
  warned m n k t p true v = record {
    receiving = v.receiving;
    linked = v.linked;
    sysid = v.sysid;
    compid = v.compid;
    next = v.next;
    last = v.last;
    more = v.more;
    small = v.small;
    held = v.held;
  }

  pub receive_mission_item-IsNext :
      (e : Env) (m : Sender) (n k : ℕ) (t : S) (c : List ℕ) (p : Protocol S) (old : Bool)
      → IsUpload b m n k t p
      → IsTaken b k c t
      → IsNext m n
          (suc k)
          (placed b k c t).1
          (receive_mission_item b e p m old (record { seq = k; content = c })).protocol
  unfolding receive_mission_item handle_mission_item
  receive_mission_item-IsNext e m n k t c p old v a =
      let cmd : Item = record { seq = k; content = c } in
      let p' : Protocol S = if old then record p { mission_item_warning_sent = true } else p in
      let w : IsUpload b m n k t p' = warned m n k t p old v in
      if-IsNext m n (suc k) (placed b k c t).1 p.receiving (handle_mission_item b e p' m cmd)
        (done p' (send_mission_ack e m error))
        (λ g. item_on-IsNext e m n k t c p' p'.link w.linked w a)
        (λ g. absurd (true-false (sym v.receiving ∙ g)))
