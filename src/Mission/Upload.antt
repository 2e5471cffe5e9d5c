-- ===== src/Mission/Upload.antt =====
-- What an upload asks of a backend: room and resources, the truncation, each item at its place, in
-- order and once, the completion, and the release of the resources.
use pq_key_establishment_mav.Base.{
  suc, ℕ, ◌-◌, ◌^◌, ◌≤◌, ◌<◌, ◌≡◌, ◌==◌, refl, ltb, List, [], ◌∷◌, true, some, arith, Bool-cases,
  inl, inr, if◌then◌else◌, false,
}
use pq_key_establishment_mav.Mission.{MissionResult, is_accepted, Sender, Backend, Protocol}
use pq_key_establishment_mav.Mission.Handlers.{write_item}

module _ {S : Type 0} (b : Backend S) where
  -- The call for an item: it replaces one that the backend has, or is appended behind the last.
  abbrev pub placed : ℕ → List ℕ → S → MissionResult × S
  placed k c s =
      if ltb k (b.item_count true s)
      then b.replace_item (record { seq = k; content = c }) s
      else b.append_item (record { seq = k; content = c }) s

  -- The state of the backend after the items from number `k` on.
  abbrev pub all_placed : ℕ → List (List ℕ) → S → S
  all_placed k [] s = s
  all_placed k (c ∷ cs) s = all_placed (suc k) cs (placed k c s).1

  -- The backend has as many items as came before, and accepts the one that comes.
  pub record IsTaken (k : ℕ) (c : List ℕ) (s : S) : Type 0 where
    pub behind : k ≤ b.item_count true s
    pub accepted : is_accepted (placed k c s).0 ≡ true

  -- Each item is taken, in the state that the items before it have left.
  abbrev pub AllTaken : ℕ → List (List ℕ) → S → Type 0
  AllTaken k [] s = Unit {0}
  AllTaken k (c ∷ cs) s = IsTaken k c s × AllTaken (suc k) cs (placed k c s).1

  pub write_item-placed :
      (k : ℕ) (c : List ℕ) (s : S)
      → k ≤ b.item_count true s
      → write_item b true (record { seq = k; content = c }) s ≡ placed k c s
  unfolding write_item
  write_item-placed k c s h = elim (Bool-cases (ltb k (b.item_count true s))) [
    | inl f ↦ rw f refl
    | inr f ↦
        let last : (k == b.item_count true s) ≡ true = ground (arith, f, h) in rw (f, last) refl
  ]

  -- An upload of `n` items under way from `m`, of which `k` have come and left the backend as `s`.
  pub record IsUpload (m : Sender) (n k : ℕ) (s : S) (p : Protocol S) : Type 0 where
    pub receiving : p.receiving ≡ true
    pub linked : p.link ≡ some m.chan
    pub sysid : p.dest_sysid ≡ m.sysid
    pub compid : p.dest_compid ≡ m.compid
    pub next : p.request_i ≡ k
    pub last : p.request_last ≡ n - 1
    pub more : k < n
    pub small : n < 2 ^ 16
    pub held : p.store ≡ s

  -- The upload is over and the protocol is free; `s` is the backend after the last item.
  pub record IsStored (s : S) (p : Protocol S) : Type 0 where
    pub free : p.receiving ≡ false
    pub stored : p.store ≡ b.free_upload_resources (b.complete s).1
