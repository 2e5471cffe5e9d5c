-- ===== src/Mission/Lock.antt =====
-- An upload holds the protocol: nobody else changes it, and a silent owner loses it.
use pq_key_establishment_mav.Base.{
  true-false, ℕ, ◌≡◌, ◌==◌, refl, sym, ◌∙◌, if◌then◌else◌, List, [], ◌∷◌, ◌++◌, Bool, true, false,
  not, Option, none, some, arith, Bool-cases, inl, inr,
}
use pq_key_establishment_mav.Mission.{
  MissionResult, error, denied, unsupported, invalid_sequence, is_accepted, Item, Sender, Out,
  mission_ack, mission_count, mission_request, mission_item_int, mission_item, next_item,
  internal_error, Env, Backend, Protocol, Done, done, send_mission_ack, ack_on_link,
  mavlink2_requirement_met, cancel_upload, is_owner,
}
use pq_key_establishment_mav.Mission.Handlers.{
  with_mavlink2, clear_cancelled, handle_mission_clear_all, count_cancelled, handle_mission_count,
  handle_mission_request_list, handle_mission_request_int, answer_converted, answer_old,
  handle_mission_request, handle_mission_write_partial_list, item_on, handle_mission_item,
  receive_mission_item,
}
use pq_key_establishment_mav.Mission.Calls.{
  Request, clear_all, request_list, count, request_int, request, write_partial, item, answer,
}

-- `p'` is `p` but for the two warnings that are sent once.
abbrev pub IsUnchanged : {S : Type 0} → Protocol S → Protocol S → Type 0
IsUnchanged p p' = p' ≡ record p {
  mission_request_warning_sent = p'.mission_request_warning_sent;
  mission_item_warning_sent = p'.mission_item_warning_sent;
}

-- An answer that stores nothing: no `accepted`, and no request for an item.
abbrev pub is_refusal : Out → Bool
is_refusal (mission_ack a c d r) = not (is_accepted r)
is_refusal (mission_item a c d i) = true
is_refusal internal_error = true
is_refusal (mission_count a c d n) = false
is_refusal (mission_request a c d n) = false
is_refusal (mission_item_int a c d i) = false
is_refusal (next_item n) = false

abbrev pub AllRefusals : List Out → Type 0
AllRefusals [] = Unit {0}
AllRefusals (o ∷ os) = (is_refusal o ≡ true) × AllRefusals os

pub record IsRefused {S : Type 0} (p : Protocol S) (r : Done S) : Type 0 where
  pub kept : IsUnchanged p r.protocol
  pub refusals : AllRefusals r.out

AllRefusals-append : (xs ys : List Out) → AllRefusals xs → AllRefusals ys → AllRefusals (xs ++ ys)
AllRefusals-append [] ys v w = w
AllRefusals-append (x ∷ xs) ys v w = (v.0, AllRefusals-append xs ys v.1 w)

module _ {S : Type 0} (b : Backend S) (e : Env) where
  send_mission_ack-AllRefusals :
      (m : Sender) (result : MissionResult)
      → is_accepted result ≡ false
      → AllRefusals (send_mission_ack e m result)
  unfolding send_mission_ack
  send_mission_ack-AllRefusals m result f = elim (Bool-cases (e.ack_space m.chan)) [
    | inl g ↦ rw g (rw f refl, tt)
    | inr g ↦ rw g tt
  ]

  refused :
      (p : Protocol S) (m : Sender) (result : MissionResult)
      → is_accepted result ≡ false
      → IsRefused p (done p (send_mission_ack e m result))
  unfolding done
  refused p m result f = record { kept = refl; refusals = send_mission_ack-AllRefusals m result f }

  if-IsRefused :
      (p : Protocol S) (c : Bool) (x y : Done S)
      → (c ≡ true → IsRefused p x)
      → (c ≡ false → IsRefused p y)
      → IsRefused p (if c then x else y)
  if-IsRefused p true x y f g = f refl
  if-IsRefused p false x y f g = g refl

  with_mavlink2-IsRefused :
      (p : Protocol S) (m : Sender) (next : Done S)
      → IsRefused p next
      → IsRefused p (with_mavlink2 b e p m next)
  unfolding with_mavlink2 is_accepted
  with_mavlink2-IsRefused p m next v =
      if-IsRefused p (mavlink2_requirement_met b e m) _ _ (λ f. v)
        (λ f. refused p m unsupported refl)

  cancel_upload_foreign :
      (p : Protocol S) (m : Sender)
      → p.receiving ≡ true
      → is_owner b p m ≡ false
      → cancel_upload b e p m ≡ (false, done p (send_mission_ack e m denied))
  unfolding cancel_upload
  cancel_upload_foreign p m f g = simp (f, g) refl

  answer_old-IsRefused :
      (p : Protocol S) (m : Sender) (r : MissionResult × Item) → IsRefused p (answer_old b e p m r)
  unfolding answer_old answer_converted done
  answer_old-IsRefused p m (result, cmd) = elim (Bool-cases (is_accepted result)) [
    | inr f ↦ rw f (refused p m result f)
    | inl f ↦ rw f (elim (Bool-cases (is_accepted (e.to_mission_item cmd).0)) [
      | inl g ↦ rw g (record { kept = refl; refusals = (refl, tt) })
      | inr g ↦ rw g (refused p m (e.to_mission_item cmd).0 g)
    ])
  ]

  item_on-IsRefused :
      (p : Protocol S) (m : Sender) (cmd : Item) (o : Option ℕ)
      → is_owner b p m ≡ false
      → IsRefused p (item_on b e p m cmd o)
  unfolding item_on ack_on_link done is_accepted is_owner
  item_on-IsRefused p m cmd none f = record { kept = refl; refusals = (refl, tt) }
  item_on-IsRefused p m cmd (some chan) f =
      let m' = record m { chan = chan } in
      if-IsRefused p (not (cmd.seq == p.request_i)) _ _ (λ g. refused p m' invalid_sequence refl)
        (λ g.
          if-IsRefused p (not (m.sysid == p.dest_sysid)) _ _ (λ h. refused p m' denied refl)
            (λ h.
              if-IsRefused p (not (m.compid == p.dest_compid)) _ _ (λ k. refused p m' denied refl)
                (λ k. absurd (true-false (ground (arith, f, h, k))))))

  receive_mission_item-IsRefused :
      (p : Protocol S) (m : Sender) (old : Bool) (cmd : Item)
      → p.receiving ≡ true
      → is_owner b p m ≡ false
      → IsRefused p (receive_mission_item b e p m old cmd)
  unfolding receive_mission_item handle_mission_item
  receive_mission_item-IsRefused p m false cmd f g =
      if-IsRefused p p.receiving _ _ (λ h. item_on-IsRefused p m cmd p.link g)
        (λ h. absurd (true-false (sym f ∙ h)))
  receive_mission_item-IsRefused p m true cmd f g =
      if-IsRefused p p.receiving _ _
        (λ h. warned_first (
          item_on-IsRefused (record p { mission_item_warning_sent = true }) m cmd p.link
            (unfold is_owner in g)))
        (λ h. absurd (true-false (sym f ∙ h)))
    where
      warned_first :
          IsRefused
            (record p { mission_item_warning_sent = true })
            (item_on b e (record p { mission_item_warning_sent = true }) m cmd p.link)
          → IsRefused p (item_on b e (record p { mission_item_warning_sent = true }) m cmd p.link)
      warned_first r = record { kept = r.kept; refusals = r.refusals }

  -- While a protocol receives, whatever anybody but the owner of the upload sends changes neither
  -- the upload nor the store, only the two warnings; and it is answered by refusals, except that a
  -- MISSION_REQUEST is still answered with an item.
  pub answer-IsRefused :
      (p : Protocol S) (m : Sender) (r : Request)
      → p.receiving ≡ true
      → is_owner b p m ≡ false
      → IsRefused p (answer b e p m r)
  unfolding answer handle_mission_clear_all handle_mission_count clear_cancelled count_cancelled
      handle_mission_request_list handle_mission_request_int handle_mission_request
      handle_mission_write_partial_list is_accepted done
  answer-IsRefused p m clear_all f g = rw (cancel_upload_foreign p m f g) (record {
    kept = refl;
    refusals =
        AllRefusals-append (send_mission_ack e m denied) (send_mission_ack e m error)
          (send_mission_ack-AllRefusals m denied refl) (send_mission_ack-AllRefusals m error refl);
  })
  answer-IsRefused p m (count n) f g =
      with_mavlink2-IsRefused p m _ (rw (cancel_upload_foreign p m f g) (refused p m denied refl))
  answer-IsRefused p m request_list f g = with_mavlink2-IsRefused p m _ (
      if-IsRefused p p.receiving _ _ (λ h. refused p m denied refl)
        (λ h. absurd (true-false (sym f ∙ h))))
  answer-IsRefused p m (request_int seq) f g = with_mavlink2-IsRefused p m _ (
      if-IsRefused p p.receiving _ _ (λ h. refused p m denied refl)
        (λ h. absurd (true-false (sym f ∙ h))))
  answer-IsRefused p m (request seq) f g =
      with_mavlink2-IsRefused p m _ (answer_old-IsRefused p m (b.get_item seq p.store))
  answer-IsRefused p m (write_partial first last) f g = with_mavlink2-IsRefused p m _ (
      if-IsRefused p p.receiving _ _ (λ h. refused p m denied refl)
        (λ h. absurd (true-false (sym f ∙ h))))
  answer-IsRefused p m (item old cmd) f g = receive_mission_item-IsRefused p m old cmd f g
