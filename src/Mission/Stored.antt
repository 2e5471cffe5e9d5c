-- ===== src/Mission/Stored.antt =====
-- A whole upload: MISSION_COUNT and then every item in order.
use pq_key_establishment_mav.Base.{
  suc, ◌+◌, length, ℕ, ◌-◌, ◌^◌, ◌≤◌, ◌<◌, ◌≡◌, ◌≢◌, ◌==◌, refl, ltb, List, [], ◌∷◌, Bool, true,
  false, arith,
}
use pq_key_establishment_mav.Mission.{
  MissionResult, no_space, is_accepted, Sender, Env, Backend, Protocol, done, send_mission_ack,
  with_store, mavlink2_requirement_met, cancel_upload, init_send_requests, transfer_is_complete,
}
use pq_key_establishment_mav.Mission.Handlers.{
  with_mavlink2, count_allocated, count_cancelled, handle_mission_count, receive_mission_item,
}
use pq_key_establishment_mav.Mission.Upload.{placed, all_placed, AllTaken, IsUpload, IsStored}
use pq_key_establishment_mav.Mission.Arrival.{
  IsNext, if-IsNext, completed, receive_mission_item-IsNext,
}

module _ {S : Type 0} (b : Backend S) where
  -- The items from `k` on, each in its own environment, some as the older message.
  abbrev pub upload_items :
      (ℕ → Env) → (ℕ → Bool) → Sender → ℕ → List (List ℕ) → Protocol S → Protocol S
  upload_items es old m k [] p = p
  upload_items es old m k (c ∷ cs) p =
      upload_items es old m (suc k) cs
        (receive_mission_item b (es k) p m (old k) (record { seq = k; content = c })).protocol

module _ {S : Type 0} (b : Backend S) where
  -- The rest of the items, each taken at its place.
  upload_items-IsStored :
      (es : ℕ → Env) (old : ℕ → Bool) (m : Sender) (n k : ℕ) (cs : List (List ℕ)) (t : S)
      (p : Protocol S)
      → AllTaken b k cs t
      → IsUpload b m n k t p
      → k + length cs ≡ n
      → cs ≢ []
      → IsStored b (all_placed b k cs t) (upload_items b es old m k cs p)
  upload_items-IsStored es old m n k [] t p taken v h some_left = absurd (some_left refl)
  upload_items-IsStored es old m n k (c ∷ []) t p taken v h some_left =
      (receive_mission_item-IsNext b (es k) m n k t c p (old k) v taken.0).over (omega (arith, h))
  upload_items-IsStored es old m n k (c ∷ d ∷ cs) t p taken v h some_left =
      let w =
        (receive_mission_item-IsNext b (es k) m n k t c p (old k) v taken.0).going
          (omega (arith, h)) in
      upload_items-IsStored es old m n (suc k) (d ∷ cs) (placed b k c t).1 _ taken.1 w
        (omega (arith, h)) (λ e. cc)

  -- The upload that an accepted count opens.
  count_allocated-IsNext :
      (e : Env) (m : Sender) (n : ℕ) (p : Protocol S) (result : MissionResult) (s : S)
      → n < 2 ^ 16
      → is_accepted result ≡ true
      → IsNext b m n 0 (b.truncate n s) (count_allocated b e p m n (result, s)).protocol
  unfolding count_allocated init_send_requests with_store done
  count_allocated-IsNext e m n p result s small a =
      let p' : Protocol S = with_store b p (b.truncate n s) in
      rw a (
        if-IsNext b m n 0 (b.truncate n s) (n == 0) (transfer_is_complete b e p' m)
          (init_send_requests b e p' m 0 (n - 1))
          (λ f. record {
            going = λ h. absurd (ground (arith, f, h));
            over = λ h. completed b e m p';
          })
          (λ f. record {
            going = λ h. record {
              receiving = refl;
              linked = refl;
              sysid = refl;
              compid = refl;
              next = refl;
              last = refl;
              more = h;
              small = small;
              held = refl;
            };
            over = λ h. absurd (ground (arith, f, h));
          }))

  -- The state of the backend when the first item is asked for.
  abbrev pub opened : ℕ → S → S
  opened n s = b.truncate n (b.allocate_receive_resources n s).1

  count_cancelled-IsNext :
      (e : Env) (m : Sender) (n : ℕ) (p : Protocol S)
      → n < 2 ^ 16
      → n ≤ b.max_items p.store
      → is_accepted (b.allocate_receive_resources n p.store).0 ≡ true
      → IsNext b m n 0 (opened n p.store) (count_cancelled b e m n (true, done p [])).protocol
  unfolding count_cancelled done
  count_cancelled-IsNext e m n p small room a =
      let r : MissionResult × S = b.allocate_receive_resources n p.store in
      if-IsNext b m n 0 (b.truncate n r.1) (ltb (b.max_items p.store) n)
        (done p (send_mission_ack e m no_space)) (count_allocated b e p m n r)
        (λ f. absurd (ground (arith, f, room)))
        (λ f. count_allocated-IsNext e m n p r.0 r.1 small a)

  cancel_free :
      (e : Env) (p : Protocol S) (m : Sender)
      → p.receiving ≡ false
      → cancel_upload b e p m ≡ (true, done p [])
  unfolding cancel_upload
  cancel_free e p m f = simp (f) refl

  handle_mission_count_free :
      (e : Env) (m : Sender) (n : ℕ) (p : Protocol S)
      → mavlink2_requirement_met b e m ≡ true
      → p.receiving ≡ false
      → handle_mission_count b e p m n ≡ count_cancelled b e m n (true, done p [])
  unfolding handle_mission_count with_mavlink2
  handle_mission_count_free e m n p k free = simp (k, cancel_free e p m free) refl

  -- An idle protocol is told of fewer than 2 ^ 16 items by a sender that may speak to it, for which
  -- the backend has room and gives the resources, and the sender then sends each item in order on
  -- the same link, at any times and in either kind of message. Whatever the backend is: if, each
  -- time, it has at least as many items as came before and accepts the one that comes, then the
  -- protocol ends free, and what reached the backend is the truncation to the number of items, one
  -- call for each item in order, a replacement where it has an item of this number and else an
  -- addition, the completion, and the release of the resources.
  pub upload_IsStored :
      (es : ℕ → Env) (old : ℕ → Bool) (e : Env) (m : Sender) (cs : List (List ℕ)) (p : Protocol S)
      → AllTaken b 0 cs (opened (length cs) p.store)
      → length cs < 2 ^ 16
      → length cs ≤ b.max_items p.store
      → is_accepted (b.allocate_receive_resources (length cs) p.store).0 ≡ true
      → mavlink2_requirement_met b e m ≡ true
      → p.receiving ≡ false
      → IsStored b
          (all_placed b 0 cs (opened (length cs) p.store))
          (upload_items b es old m 0 cs (handle_mission_count b e p m (length cs)).protocol)
  upload_IsStored es old e m [] p taken small room a k free =
      rw (handle_mission_count_free e m 0 p k free)
        ((count_cancelled-IsNext e m 0 p small room a).over refl)
  upload_IsStored es old e m (c ∷ cs) p taken small room a k free =
      let n : ℕ = suc (length cs) in
      rw (handle_mission_count_free e m n p k free) (
        upload_items-IsStored es old m n 0 (c ∷ cs) (opened n p.store)
          (count_cancelled b e m n (true, done p [])).protocol taken
          ((count_cancelled-IsNext e m n p small room a).going (omega arith)) (omega arith)
          (λ f. cc))
