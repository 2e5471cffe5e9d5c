-- ===== src/Mission/Steps.antt =====
-- Every call leaves a protocol well and reports no internal error.
use pq_key_establishment_mav.Base.{
  true-false, none-some, ℕ, ◌+◌, ◌<◌, ◌≡◌, ◌==◌, refl, sym, ◌∙◌, if◌then◌else◌, ltb, [], ◌∷◌, Bool,
  true, false, not, Option, none, some, arith,
}
use pq_key_establishment_mav.Base.Bytes.{u16, sub32}
use pq_key_establishment_mav.Mission.{
  MissionResult, error, denied, invalid_sequence, operation_cancelled, is_accepted, Item, Sender,
  mission_ack, Env, Backend, Protocol, done, ack_on_link, with_store, stop, queued_request_send,
  request_on, update, update_on,
}
use pq_key_establishment_mav.Mission.Handlers.{
  handle_mission_clear_all, handle_mission_count, handle_mission_request, item_written, item_on,
  handle_mission_item, receive_mission_item,
}
use pq_key_establishment_mav.Mission.Calls.{
  clear_all, request_list, count, request_int, request, write_partial, item, Call, receives,
  updates, queued, answer, step, IsCall,
}
use pq_key_establishment_mav.Mission.Invariant.{
  IsWell, idle, busy, NoError, IsWellDone, acked, if-IsWellDone, nothing, IsWell-warned,
  stop-IsWell, with_mavlink2-IsWellDone, cancel_upload-IsWellDone, transfer_is_complete-IsWellDone,
}
use pq_key_establishment_mav.Mission.Answers.{
  clear_cancelled-IsWellDone, count_cancelled-IsWellDone, request_list-IsWellDone,
  request_int-IsWellDone, answer_old-IsWellDone, write_partial-IsWellDone,
}

-- A protocol that receives has a link.
linked :
    {S : Type 0} (p : Protocol S)
    → not p.receiving ≡ false
    → IsWell p
    → (chan : ℕ) × (p.link ≡ some chan)
linked p f (idle g h) = absurd (true-false (ground (arith, f, g)))
linked p f (busy chan g h k l) = (chan, h)

module _ {S : Type 0} (b : Backend S) (e : Env) where
  request_on-IsWellDone :
      (p : Protocol S) (chan : ℕ) (o : Option ℕ)
      → o ≡ some chan
      → IsWell p
      → IsWellDone (request_on b e p o)
  unfolding request_on done
  request_on-IsWellDone p chan none f v = absurd (none-some f)
  request_on-IsWellDone p chan (some c) f v =
      if-IsWellDone b (e.request_space c) _ _
        (λ g. record { well = requested v; no_error = (refl, tt) }) (λ g. nothing b p v)
    where
      requested : IsWell p → IsWell (record p { timelast_request_ms = e.now })
      requested (idle f g) = idle f g
      requested (busy c f g h k) = busy c f g h k

  queued_request_send-IsWellDone :
      (p : Protocol S) → IsWell p → IsWellDone (queued_request_send b e p)
  unfolding queued_request_send
  queued_request_send-IsWellDone p v =
      if-IsWellDone b (not p.receiving) _ _ (λ f. nothing b p v)
        (λ f.
          if-IsWellDone b (ltb p.request_last p.request_i) _ _ (λ g. nothing b p v)
            (λ g. request_on-IsWellDone p (linked p f v).0 p.link (linked p f v).1 v))

  update_on-IsWellDone :
      (p : Protocol S) (chan : ℕ) (o : Option ℕ)
      → o ≡ some chan
      → IsWell p
      → IsWellDone (update_on b e p o)
  unfolding update_on done
  update_on-IsWellDone p chan none f v = absurd (none-some f)
  update_on-IsWellDone p chan (some c) f v =
      if-IsWellDone b (ltb 8000 (sub32 e.now p.timelast_receive_ms)) _ _
        (λ g. record {
          well = stop-IsWell b (with_store b p (b.timeout p.store));
          no_error = cancelled_ack (e.ack_space c);
        })
        (λ g.
          if-IsWellDone b _ _ _ (λ h. record { well = requested v; no_error = (refl, tt) })
            (λ h. nothing b p v))
    where
      requested : IsWell p → IsWell (record p { timelast_request_ms = e.now })
      requested (idle f g) = idle f g
      requested (busy c f g h k) = busy c f g h k

      cancelled_ack :
          (room : Bool)
          → NoError (
              if room
              then mission_ack c p.dest_sysid p.dest_compid operation_cancelled ∷ []
              else [])
      cancelled_ack true = (refl, tt)
      cancelled_ack false = tt

  pub update-IsWellDone : (p : Protocol S) → IsWell p → IsWellDone (update b e p)
  unfolding update
  update-IsWellDone p v =
      if-IsWellDone b (not p.receiving) _ _ (λ f. nothing b p v)
        (λ f. update_on-IsWellDone p (linked p f v).0 p.link (linked p f v).1 v)

  item_written-IsWellDone :
      (p : Protocol S) (m : Sender) (chan : ℕ) (r : MissionResult × S)
      → p.receiving ≡ true
      → p.link ≡ some chan
      → p.request_last < 65535
      → IsWellDone (item_written b e p m chan r)
  unfolding item_written done
  item_written-IsWellDone p m chan (result, s) f g h =
      let next : Protocol S = record p {
        store = s;
        timelast_receive_ms = e.now;
        request_i = u16 (p.request_i + 1);
      } in
      if-IsWellDone b (not (is_accepted result)) _ _
        (λ k.
          acked b e (stop b (with_store b p s)) (record m { chan = chan }) result
            (stop-IsWell b (with_store b p s)))
        (λ k.
          if-IsWellDone b (ltb p.request_last (u16 (p.request_i + 1))) _ _
            (λ l. transfer_is_complete-IsWellDone b e next (record m { chan = chan }))
            (λ l.
              if-IsWellDone b (e.request_space chan) _ _
                (λ n. queued_request_send-IsWellDone next (busy chan f g (ground (arith, l)) h))
                (λ n. record {
                  well = busy chan f g (ground (arith, l)) h;
                  no_error = (refl, tt);
                })))

  item_on-IsWellDone :
      (p : Protocol S) (m : Sender) (cmd : Item) (o : Option ℕ)
      → p.link ≡ o
      → p.receiving ≡ true
      → IsWell p
      → IsWellDone (item_on b e p m cmd o)
  unfolding item_on ack_on_link
  item_on-IsWellDone p m cmd o f r (idle g h) = absurd (true-false (sym r ∙ g))
  item_on-IsWellDone p m cmd none f r (busy c g h k l) = absurd (none-some (sym f ∙ h))
  item_on-IsWellDone p m cmd (some chan) f r (busy c g h k l) =
      let v = busy c g h k l in
      let m' = record m { chan = chan } in
      if-IsWellDone b (not (cmd.seq == p.request_i)) _ _ (λ x. acked b e p m' invalid_sequence v)
        (λ x.
          if-IsWellDone b (not (m.sysid == p.dest_sysid)) _ _ (λ y. acked b e p m' denied v)
            (λ y.
              if-IsWellDone b (not (m.compid == p.dest_compid)) _ _ (λ z. acked b e p m' denied v)
                (λ z. item_written-IsWellDone p m chan _ g f l)))

  receive_mission_item-IsWellDone :
      (p : Protocol S) (m : Sender) (old : Bool) (cmd : Item)
      → IsWell p
      → IsWellDone (receive_mission_item b e p m old cmd)
  unfolding receive_mission_item handle_mission_item
  receive_mission_item-IsWellDone p m true cmd v =
      let w = IsWell-warned b p p.mission_request_warning_sent true v in
      if-IsWellDone b p.receiving _ _ (λ f. item_on-IsWellDone _ m cmd p.link refl f w)
        (λ f. acked b e _ m error w)
  receive_mission_item-IsWellDone p m false cmd v =
      if-IsWellDone b p.receiving _ _ (λ f. item_on-IsWellDone p m cmd p.link refl f v)
        (λ f. acked b e p m error v)

  -- Whatever call comes, with the fields of a message within their widths: a protocol that is idle
  -- without a link or receives on one is so again, the item it waits for is in the range it asked
  -- for, and no internal error is reported.
  pub step-IsWellDone :
      (p : Protocol S) (c : Call) → IsCall c → IsWell p → IsWellDone (step b e p c)
  unfolding step answer handle_mission_clear_all handle_mission_count handle_mission_request
  step-IsWellDone p (receives m clear_all) w v =
      clear_cancelled-IsWellDone b e m _ (cancel_upload-IsWellDone b e p m v)
  step-IsWellDone p (receives m request_list) w v = request_list-IsWellDone b e p m v
  step-IsWellDone p (receives m (count n)) w v =
      with_mavlink2-IsWellDone b e p m _ v
        (count_cancelled-IsWellDone b e m n _ w (cancel_upload-IsWellDone b e p m v))
  step-IsWellDone p (receives m (request_int seq)) w v = request_int-IsWellDone b e p m seq v
  step-IsWellDone p (receives m (request seq)) w v =
      with_mavlink2-IsWellDone b e p m _ v
        (answer_old-IsWellDone b e p m (b.get_item seq p.store) v)
  step-IsWellDone p (receives m (write_partial first last)) w v =
      write_partial-IsWellDone b e p m first last v
  step-IsWellDone p (receives m (item old cmd)) w v = receive_mission_item-IsWellDone p m old cmd v
  step-IsWellDone p updates w v = update-IsWellDone p v
  step-IsWellDone p queued w v = queued_request_send-IsWellDone p v
