-- ===== src/Routing/Forward.antt =====
-- On which channels a message goes on: never back, and never twice on one channel.
use pq_key_establishment_mav.Base.{
  ℕ, zero, suc, ◌+◌, ◌==◌, ◌<◌, ◌≡◌, ◌≢◌, refl, if◌then◌else◌, leb, arith, List, [], ◌∷◌, ◌++◌,
  Bool, true, false, ◌&&◌, ◌||◌, not, Option, none, some, Bool-cases, inl, inr,
}
use pq_key_establishment_mav.Routing.{
  Message, Link, Net, Route, Routing, learn_route, is_broadcast, is_target, get_targets,
}
use pq_key_establishment_mav.Routing.Links.{
  Forwarding, mark_sent, wants, forward_link, forward_all, mask_out, mask_sources, heartbeat_from,
  handle_heartbeat, route_targets, see_gopro, check_and_forward,
}

-- The channel is among those sent on.
abbrev pub sends : ℕ → List ℕ → Bool
sends c [] = false
sends c (x ∷ xs) = c == x || sends c xs

abbrev pub AllOnce : List ℕ → Type 0
AllOnce [] = Unit {0}
AllOnce (x ∷ xs) = (sends x xs ≡ false) × AllOnce xs

-- The backend that is found under a channel is that of the channel.
pub record IsNet (n : Net) : Type 0 where
  pub own_chan : (k : ℕ) (x : Link) → n.chan k ≡ some x → x.chan ≡ k

-- The channels that a message from channel `ch` goes on to.
pub record IsForward (ch : ℕ) (out : List ℕ) : Type 0 where
  pub no_echo : sends ch out ≡ false
  pub once : AllOnce out

sends-snoc : (c x : ℕ) (xs : List ℕ) → sends c (xs ++ x ∷ []) ≡ (sends c xs || c == x)
sends-snoc c x [] = ground arith
sends-snoc c x (y ∷ ys) = ground (arith, sends-snoc c x ys)

AllOnce-snoc : (x : ℕ) (xs : List ℕ) → sends x xs ≡ false → AllOnce xs → AllOnce (xs ++ x ∷ [])
AllOnce-snoc x [] e v = (refl, tt)
AllOnce-snoc x (y ∷ ys) e v =
    (ground (arith, sends-snoc y x ys, v.0, e), AllOnce-snoc x ys (ground (arith, e)) v.1)

-- The loop: what was sent is marked.
record IsLoop (ch : ℕ) (f : Forwarding) : Type 0 where
  good : IsForward ch f.out
  marked : (c : ℕ) → f.sent_to_chan c ≡ false → sends c f.out ≡ false

extend-IsForward :
    (ch x : ℕ) (fits : Bool) (out : List ℕ)
    → ch ≢ x
    → sends x out ≡ false
    → IsForward ch out
    → IsForward ch (if fits then out ++ x ∷ [] else out)
extend-IsForward ch x false out e k v = v
extend-IsForward ch x true out e k v = record {
  no_echo = ground (arith, sends-snoc ch x out, v.no_echo, e);
  once = AllOnce-snoc x out k v.once;
}

extend_marked :
    (sent : ℕ → Bool) (x : ℕ) (fits : Bool) (out : List ℕ)
    → ((c : ℕ) → sent c ≡ false → sends c out ≡ false)
    → (c : ℕ) → mark_sent sent x c ≡ false
    → sends c (if fits then out ++ x ∷ [] else out) ≡ false
unfolding mark_sent
extend_marked sent x false out h c e = ground (arith, h c, e)
extend_marked sent x true out h c e = ground (arith, sends-snoc c x out, h c, e)

forward_link-IsLoop :
    (n : Net) (l : Link) (m : Message) (sys comp : Option ℕ) (r : Route) (o : Option Link)
    (f : Forwarding)
    → ((x : Link) → o ≡ some x → x.chan ≡ r.channel)
    → IsLoop l.chan f
    → IsLoop l.chan (forward_link n l m sys comp r o f)
unfolding forward_link
forward_link-IsLoop n l m sys comp r none f own v = v
forward_link-IsLoop n l m sys comp r (some x) f own v =
    elim (Bool-cases
      (wants n sys comp r x && (not (l.chan == x.chan) && not (f.sent_to_chan r.channel)))) [
        | inr e ↦ rw e v
        | inl e ↦ rw e (record {
          good =
              extend-IsForward l.chan r.channel (x.check_payload_size m.len) f.out
                (ground (arith, e, own x refl)) (v.marked r.channel (ground (arith, e))) v.good;
          marked =
              extend_marked f.sent_to_chan r.channel (x.check_payload_size m.len) f.out v.marked;
        })
      ]

forward_all-IsLoop :
    (n : Net) (ok : IsNet n) (l : Link) (m : Message) (sys comp : Option ℕ) (rs : List Route)
    (f : Forwarding)
    → IsLoop l.chan f
    → IsLoop l.chan (forward_all n l m sys comp rs f)
unfolding forward_all
forward_all-IsLoop n ok l m sys comp [] f v = v
forward_all-IsLoop n ok l m sys comp (r ∷ rs) f v =
    forward_all-IsLoop n ok l m sys comp rs _
      (forward_link-IsLoop n l m sys comp r (n.chan r.channel) f (ok.own_chan r.channel) v)

-- The heartbeat loop goes over the channels once.
heartbeat_from_below :
    (n : Net) (m : Message) (mask : ℕ → Bool) (rounds i c : ℕ)
    → c < i
    → sends c (heartbeat_from n m mask rounds i) ≡ false
unfolding heartbeat_from
heartbeat_from_below n m mask zero i c p = refl
heartbeat_from_below n m mask (suc rounds) i c p =
    ground (arith, heartbeat_from_below n m mask rounds (i + 1) c)

heartbeat_from-IsForward :
    (n : Net) (m : Message) (mask : ℕ → Bool) (ch rounds i : ℕ)
    → mask ch ≡ false
    → IsForward ch (heartbeat_from n m mask rounds i)
unfolding heartbeat_from
heartbeat_from-IsForward n m mask ch zero i e = record { no_echo = refl; once = tt }
heartbeat_from-IsForward n m mask ch (suc rounds) i e =
    elim (Bool-cases (mask i && leb (m.len + n.packet_overhead i) (n.txspace i))) [
      | inr f ↦ rw f (heartbeat_from-IsForward n m mask ch rounds (i + 1) e)
      | inl f ↦
          let rest = heartbeat_from-IsForward n m mask ch rounds (i + 1) e in
          rw f (record {
            no_echo = ground (arith, rest.no_echo, apart f);
            once = (heartbeat_from_below n m mask rounds (i + 1) i (omega arith), rest.once);
          })
    ]
  where
    apart : (mask i && leb (m.len + n.packet_overhead i) (n.txspace i)) ≡ true → ch ≢ i
    apart f p = ground (arith, f, rw p at e)

mask_sources_out :
    (m : Message) (rs : List Route) (mask : ℕ → Bool) (ch : ℕ)
    → mask ch ≡ false
    → mask_sources m rs mask ch ≡ false
unfolding mask_sources mask_out
mask_sources_out m [] mask ch e = e
mask_sources_out m (r ∷ rs) mask ch e = mask_sources_out m rs _ ch (ground (arith, e))

handle_heartbeat-IsForward :
    (n : Net) (l : Link) (m : Message) (t : Routing) → IsForward l.chan (handle_heartbeat n l m t)
unfolding handle_heartbeat mask_out
handle_heartbeat-IsForward n l m t =
    heartbeat_from-IsForward n m _ l.chan n.num_buffers 0
      (mask_sources_out m t.routes _ l.chan (ground arith))

nothing_sent : (ch : ℕ) → IsForward ch []
nothing_sent ch = record { no_echo = refl; once = tt }

module _ (n : Net) (ok : IsNet n) (l : Link) (m : Message) where
  route_targets-IsForward :
      (t : Routing) (sys comp : Option ℕ) → IsForward l.chan (route_targets n l m t sys comp).out
  unfolding route_targets
  route_targets-IsForward t sys comp =
      elim (Bool-cases (l.is_private && not (n.solo_gimbal && t.gopro_status_check))) [
        | inl e ↦ rw e (nothing_sent l.chan)
        | inr e ↦
            rw e
              (elim (Bool-cases (
                (is_broadcast sys || is_target sys n.sysid)
                && (is_broadcast comp || is_target comp n.compid)
                && (not (is_broadcast sys) && not (is_broadcast comp)))) [
                  | inl f ↦ simp (f) (nothing_sent l.chan)
                  | inr f ↦
                      simp (f)
                        (forward_all-IsLoop n ok l m sys comp t.routes _
                          (record { good = nothing_sent l.chan; marked = λ c e. refl })).good
                ])
      ]

  -- If the backend found under a channel is the one of this channel, then no message is sent back
  -- on the channel it came from, and none is sent twice on one channel.
  pub check_and_forward-IsForward : (t : Routing) → IsForward l.chan (check_and_forward n l m t).out
  unfolding check_and_forward
  check_and_forward-IsForward t0 = elim (Bool-cases (m.sysid == n.sysid && m.compid == n.compid)) [
    | inl e ↦ rw e (nothing_sent l.chan)
    | inr e ↦ rw e (elim (Bool-cases (m.msgid == n.radio || m.msgid == n.radio_status)) [
      | inl f ↦ rw f (nothing_sent l.chan)
      | inr f ↦ rw f (elim (Bool-cases (m.msgid == n.heartbeat)) [
        | inl g ↦ rw g (beat l.is_private)
        | inr g ↦ rw g (elim (Bool-cases (m.msgid == n.adsb_vehicle && n.adsb)) [
          | inl h ↦ rw h (nothing_sent l.chan)
          | inr h ↦ rw h (route_targets-IsForward t (get_targets n m).0 (get_targets n m).1)
        ])
      ])
    ])
  ]
    where
      t : Routing
      t = learn_route n l m (see_gopro n m t0)

      beat : (b : Bool) → IsForward l.chan (if b then [] else handle_heartbeat n l m t)
      beat true = nothing_sent l.chan
      beat false = handle_heartbeat-IsForward n l m t
