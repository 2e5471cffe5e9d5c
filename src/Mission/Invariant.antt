-- ===== src/Mission/Invariant.antt =====
-- What every call keeps of a protocol, and that none reports an internal error.
use pq_key_establishment_mav.Base.{
  ℕ, ◌≤◌, ◌<◌, ◌≡◌, refl, if◌then◌else◌, List, [], ◌∷◌, ◌++◌, Bool, true, false, none, some,
  Bool-cases, inl, inr,
}
use pq_key_establishment_mav.Mission.{
  MissionResult, denied, unsupported, Sender, Out, mission_ack, mission_count, mission_request,
  mission_item_int, mission_item, next_item, internal_error, Env, Backend, Protocol, Done, done,
  send_mission_ack, with_store, stop, mavlink2_requirement_met, cancel_upload, init_send_requests,
  transfer_is_complete, is_owner,
}
use pq_key_establishment_mav.Mission.Handlers.{with_mavlink2}

-- A protocol is idle without a link, or receives on a link an item of the range it asked for.
pub data IsWell {S : Type 0} (p : Protocol S) : Type 0 where
  idle : p.receiving ≡ false → p.link ≡ none → IsWell p
  busy :
      (chan : ℕ)
      → p.receiving ≡ true
      → p.link ≡ some chan
      → p.request_i ≤ p.request_last
      → p.request_last < 65535
      → IsWell p

abbrev pub is_error : Out → Bool
is_error internal_error = true
is_error (mission_ack a c d r) = false
is_error (mission_count a c d n) = false
is_error (mission_request a c d n) = false
is_error (mission_item_int a c d i) = false
is_error (mission_item a c d i) = false
is_error (next_item n) = false

abbrev pub NoError : List Out → Type 0
NoError [] = Unit {0}
NoError (o ∷ os) = (is_error o ≡ false) × NoError os

pub NoError-append : (xs ys : List Out) → NoError xs → NoError ys → NoError (xs ++ ys)
NoError-append [] ys v w = w
NoError-append (x ∷ xs) ys v w = (v.0, NoError-append xs ys v.1 w)

-- What an operation leaves is well again, and no internal error is reported.
pub record IsWellDone {S : Type 0} (r : Done S) : Type 0 where
  pub well : IsWell r.protocol
  pub no_error : NoError r.out

pub send_mission_ack-NoError :
    (e : Env) (m : Sender) (result : MissionResult) → NoError (send_mission_ack e m result)
unfolding send_mission_ack
send_mission_ack-NoError e m result = elim (Bool-cases (e.ack_space m.chan)) [
  | inl f ↦ rw f (refl, tt)
  | inr f ↦ rw f tt
]

module _ {S : Type 0} (b : Backend S) where
  -- An answer that is one acknowledgement.
  pub acked :
      (e : Env) (p : Protocol S) (m : Sender) (result : MissionResult)
      → IsWell p
      → IsWellDone (done p (send_mission_ack e m result))
  unfolding done
  acked e p m result v = record { well = v; no_error = send_mission_ack-NoError e m result }

  pub if-IsWellDone :
      (c : Bool) (x y : Done S)
      → (c ≡ true → IsWellDone x)
      → (c ≡ false → IsWellDone y)
      → IsWellDone (if c then x else y)
  if-IsWellDone true x y f g = f refl
  if-IsWellDone false x y f g = g refl

  pub nothing : (p : Protocol S) → IsWell p → IsWellDone (done p [])
  unfolding done
  nothing p v = record { well = v; no_error = tt }

  -- The store and the two warnings do not matter.
  pub IsWell-store : (p : Protocol S) (s : S) → IsWell p → IsWell (with_store b p s)
  unfolding with_store
  IsWell-store p s (idle f g) = idle f g
  IsWell-store p s (busy chan f g h k) = busy chan f g h k

  pub IsWell-warned :
      (p : Protocol S) (v w : Bool)
      → IsWell p
      → IsWell (record p { mission_request_warning_sent = v; mission_item_warning_sent = w })
  IsWell-warned p v w (idle f g) = idle f g
  IsWell-warned p v w (busy chan f g h k) = busy chan f g h k

  pub stop-IsWell : (p : Protocol S) → IsWell (stop b p)
  unfolding stop
  stop-IsWell p = idle refl refl

  pub with_mavlink2-IsWellDone :
      (e : Env) (p : Protocol S) (m : Sender) (next : Done S)
      → IsWell p
      → IsWellDone next
      → IsWellDone (with_mavlink2 b e p m next)
  unfolding with_mavlink2
  with_mavlink2-IsWellDone e p m next v w = elim (Bool-cases (mavlink2_requirement_met b e m)) [
    | inl f ↦ rw f w
    | inr f ↦ rw f (acked e p m unsupported v)
  ]

  pub cancel_upload-IsWellDone :
      (e : Env) (p : Protocol S) (m : Sender) → IsWell p → IsWellDone (cancel_upload b e p m).1
  unfolding cancel_upload
  cancel_upload-IsWellDone e p m v = elim (Bool-cases p.receiving) [
    | inr f ↦ simp (f) (nothing p v)
    | inl f ↦ simp (f) (elim (Bool-cases (is_owner b p m)) [
      | inr g ↦ simp (g) (acked e p m denied v)
      | inl g ↦ simp (g) (nothing (stop b p) (stop-IsWell p))
    ])
  ]

  pub init_send_requests-IsWellDone :
      (e : Env) (p : Protocol S) (m : Sender) (first last : ℕ)
      → first ≤ last
      → last < 65535
      → IsWellDone (init_send_requests b e p m first last)
  unfolding init_send_requests done
  init_send_requests-IsWellDone e p m first last f g = record {
    well = busy m.chan refl refl f g;
    no_error = (refl, tt);
  }

  pub transfer_is_complete-IsWellDone :
      (e : Env) (p : Protocol S) (m : Sender) → IsWellDone (transfer_is_complete b e p m)
  unfolding transfer_is_complete
  transfer_is_complete-IsWellDone e p m =
      acked e (stop b (with_store b p (b.complete p.store).1)) m (b.complete p.store).0
        (stop-IsWell (with_store b p (b.complete p.store).1))
