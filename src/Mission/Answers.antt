-- ===== src/Mission/Answers.antt =====
-- Every message but an item leaves a protocol well and reports no internal error.
use pq_key_establishment_mav.Base.{
  ℕ, ◌-◌, ◌^◌, ◌≤◌, ◌<◌, ◌==◌, refl, ltb, Bool, true, false, arith, Bool-cases, inl, inr,
}
use pq_key_establishment_mav.Mission.{
  MissionResult, error, denied, is_accepted, Item, Sender, Env, Backend, Protocol, Done, done,
  with_store, is_invalid_sequence,
}
use pq_key_establishment_mav.Mission.Handlers.{
  clear_cancelled, count_allocated, count_cancelled, send_count, handle_mission_request_list,
  answer_item, handle_mission_request_int, answer_converted, answer_old, partial_allocated,
  is_bad_range, handle_mission_write_partial_list,
}
use pq_key_establishment_mav.Mission.Invariant.{
  IsWell, NoError, NoError-append, IsWellDone, send_mission_ack-NoError, acked, if-IsWellDone,
  IsWell-store, IsWell-warned, with_mavlink2-IsWellDone, init_send_requests-IsWellDone,
  transfer_is_complete-IsWellDone,
}

module _ {S : Type 0} (b : Backend S) (e : Env) where
  pub clear_cancelled-IsWellDone :
      (m : Sender) (r : Bool × Done S) → IsWellDone r.1 → IsWellDone (clear_cancelled b e m r)
  unfolding clear_cancelled done
  clear_cancelled-IsWellDone m (true, r) v = record {
    well = IsWell-store b r.protocol _ v.well;
    no_error = NoError-append r.out _ v.no_error (send_mission_ack-NoError e m _);
  }
  clear_cancelled-IsWellDone m (false, r) v = record {
    well = v.well;
    no_error = NoError-append r.out _ v.no_error (send_mission_ack-NoError e m error);
  }

  pub count_allocated-IsWellDone :
      (p : Protocol S) (m : Sender) (n : ℕ) (r : MissionResult × S)
      → n < 2 ^ 16
      → IsWell p
      → IsWellDone (count_allocated b e p m n r)
  unfolding count_allocated
  count_allocated-IsWellDone p m n (result, s) small v = elim (Bool-cases (is_accepted result)) [
    | inr f ↦ rw f (acked b e (with_store b p s) m result (IsWell-store b p s v))
    | inl f ↦ rw f (elim (Bool-cases (n == 0)) [
      | inl g ↦ rw g (transfer_is_complete-IsWellDone b e (with_store b p (b.truncate n s)) m)
      | inr g ↦ rw g (
          init_send_requests-IsWellDone b e (with_store b p (b.truncate n s)) m 0 (n - 1)
            (omega arith) (omega (arith, small)))
    ])
  ]

  pub count_cancelled-IsWellDone :
      (m : Sender) (n : ℕ) (r : Bool × Done S)
      → n < 2 ^ 16
      → IsWellDone r.1
      → IsWellDone (count_cancelled b e m n r)
  unfolding count_cancelled
  count_cancelled-IsWellDone m n (false, r) small v = v
  count_cancelled-IsWellDone m n (true, r) small v =
      elim (Bool-cases (ltb (b.max_items r.protocol.store) n)) [
        | inl f ↦ rw f (acked b e r.protocol m _ v.well)
        | inr f ↦ rw f (count_allocated-IsWellDone r.protocol m n _ small v.well)
      ]

  pub send_count-NoError : (p : Protocol S) (m : Sender) → NoError (send_count b e p m)
  unfolding send_count
  send_count-NoError p m = elim (Bool-cases (e.count_space m.chan)) [
    | inl f ↦ rw f (refl, tt)
    | inr f ↦ rw f tt
  ]

  pub request_list-IsWellDone :
      (p : Protocol S) (m : Sender) → IsWell p → IsWellDone (handle_mission_request_list b e p m)
  unfolding handle_mission_request_list done
  request_list-IsWellDone p m v = with_mavlink2-IsWellDone b e p m _ v (
      if-IsWellDone b p.receiving _ _ (λ f. acked b e p m denied v)
        (λ f. record { well = v; no_error = send_count-NoError p m }))

  pub answer_item-IsWellDone :
      (p : Protocol S) (m : Sender) (r : MissionResult × Item)
      → IsWell p
      → IsWellDone (answer_item b e p m r)
  unfolding answer_item done
  answer_item-IsWellDone p m (result, cmd) v = elim (Bool-cases (is_accepted result)) [
    | inl f ↦ rw f (record { well = v; no_error = (refl, tt) })
    | inr f ↦ rw f (elim (Bool-cases (is_invalid_sequence result)) [
      | inl g ↦ rw g (record {
        well = v;
        no_error =
            NoError-append (send_count b e p m) _ (send_count-NoError p m)
              (send_mission_ack-NoError e m result);
      })
      | inr g ↦ rw g (acked b e p m result v)
    ])
  ]

  pub request_int-IsWellDone :
      (p : Protocol S) (m : Sender) (seq : ℕ)
      → IsWell p
      → IsWellDone (handle_mission_request_int b e p m seq)
  unfolding handle_mission_request_int
  request_int-IsWellDone p m seq v = with_mavlink2-IsWellDone b e p m _ v (
      if-IsWellDone b p.receiving _ _ (λ f. acked b e p m denied v)
        (λ f. answer_item-IsWellDone p m (b.get_item seq p.store) v))

  pub answer_converted-IsWellDone :
      (p : Protocol S) (m : Sender) (r : MissionResult × Item)
      → IsWell p
      → IsWellDone (answer_converted b e p m r)
  unfolding answer_converted done
  answer_converted-IsWellDone p m (result, cmd) v = elim (Bool-cases (is_accepted result)) [
    | inl f ↦ rw f (record {
      well = IsWell-warned b p true p.mission_item_warning_sent v;
      no_error = (refl, tt);
    })
    | inr f ↦ rw f (acked b e p m result v)
  ]

  pub answer_old-IsWellDone :
      (p : Protocol S) (m : Sender) (r : MissionResult × Item)
      → IsWell p
      → IsWellDone (answer_old b e p m r)
  unfolding answer_old
  answer_old-IsWellDone p m (result, cmd) v = elim (Bool-cases (is_accepted result)) [
    | inl f ↦ rw f (answer_converted-IsWellDone p m (e.to_mission_item cmd) v)
    | inr f ↦ rw f (acked b e p m result v)
  ]

  pub partial_allocated-IsWellDone :
      (p : Protocol S) (m : Sender) (first last : ℕ) (r : MissionResult × S)
      → first ≤ last
      → last < 65535
      → IsWell p
      → IsWellDone (partial_allocated b e p m first last r)
  unfolding partial_allocated
  partial_allocated-IsWellDone p m first last (result, s) f g v =
      elim (Bool-cases (is_accepted result)) [
        | inl h ↦ rw h (init_send_requests-IsWellDone b e (with_store b p s) m first last f g)
        | inr h ↦ rw h (acked b e (with_store b p s) m result (IsWell-store b p s v))
      ]

  pub write_partial-IsWellDone :
      (p : Protocol S) (m : Sender) (first last : ℕ)
      → IsWell p
      → IsWellDone (handle_mission_write_partial_list b e p m first last)
  unfolding handle_mission_write_partial_list
  write_partial-IsWellDone p m first last v = with_mavlink2-IsWellDone b e p m _ v (
      if-IsWellDone b p.receiving _ _ (λ f. acked b e p m denied v)
        (λ f.
          if-IsWellDone b (is_bad_range b (b.item_count p.receiving p.store) first last) _ _
            (λ g. acked b e p m error v)
            (λ g.
              partial_allocated-IsWellDone p m first last _
                (unfold is_bad_range in ground (arith, g))
                (unfold is_bad_range in ground (arith, g)) v)))
