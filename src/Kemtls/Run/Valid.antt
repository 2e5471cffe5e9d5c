-- ===== src/Kemtls/Run/Valid.antt =====
-- What holds of a session at every moment: the sizes of the buffers of the ephemeral key and of the
-- ciphertexts, the cursors within them, and
-- which states there are between two events.
use pq_key_establishment_mav.Base.{
  ℕ, ◌≤◌, ◌≡◌, ◌⊎◌, ◌==◌, refl, arith, List, [], ◌∷◌, length, Bool, Bool-cases, inl, inr, Option,
  none, some,
}
use pq_key_establishment_mav.Kemtls.Types.{Platform, HqcRxBuf, HqcSession, HqcState, chunks_of}
use pq_key_establishment_mav.Kemtls.Session.{reset}
use pq_key_establishment_mav.Kemtls.CtAck.{stream, put_stream}
use pq_key_establishment_mav.Kemtls.Pdk.{pdk_size}
use pq_key_establishment_mav.Kemtls.Run.{
  Event, on_hello, on_pk_chunk, on_ct_ack, on_finish, on_tick,
}

-- A buffer that is there has this size.
abbrev pub IsSized : ℕ → Option (List ℕ) → Type 0
IsSized n none = Unit {0}
IsSized n (some b) = length b ≡ n

-- A ciphertext stream: its length is within its buffer and its cursor within its length.
pub record Fits (size : ℕ) (ct : Option (List ℕ)) (len sent : ℕ) : Type 0 where
  pub sized : IsSized size ct
  pub len_le : len ≤ size
  pub sent_le : sent ≤ len

-- The reception of the key, in the fields of the receive buffer. Every session runs with the
-- limits that `reset` puts in.
pub record KeyFits (mtu window : ℕ) (pke : Option (List ℕ)) (pk_len : ℕ) (acked : List Bool)
    : Type 0 where
  pub mtu_is : mtu ≡ 220
  pub window_is : window ≡ 8
  pub sized : IsSized pk_len pke
  pub flags : (acked ≡ []) ⊎ (length acked ≡ chunks_of pk_len mtu)

pub record IsHeld (c : Platform) (rx : HqcRxBuf) : Type 0 where
  pub key : KeyFits rx.mtu rx.window rx.pke rx.pk_len rx.pke_acked
  pub eph : Fits c.ct_bytes rx.cte rx.cte_len rx.cte_sent
  pub sta : Fits c.ct_bytes rx.cts rx.cts_len rx.cts_sent

-- The states in which a handshake is under way, and those in which none is.
pub data IsOpen : HqcState → Type 0 where
  sending : IsOpen HqcState.ct_tx
  waiting : IsOpen HqcState.wait_cf
  failed : IsOpen HqcState.fail

pub data IsRest : HqcState → Type 0 where
  nothing_yet : IsRest HqcState.idle
  running : IsRest HqcState.active

pub record IsEmptied (rx : HqcRxBuf) : Type 0 where
  pub no_pke : rx.pke ≡ none
  pub no_cte : rx.cte ≡ none
  pub no_cts : rx.cts ≡ none

-- The five states that an event can leave; where no handshake is under way the buffers of the
-- ephemeral key and of the ciphertexts are gone.
pub data IsPhase (st : HqcState) (rx : HqcRxBuf) : Type 0 where
  under_way : IsOpen st → IsPhase st rx
  resting : IsRest st → IsEmptied rx → IsPhase st rx

pub record IsValid (c : Platform) (s : HqcSession) : Type 0 where
  pub held : IsHeld c s.rx
  pub phase : IsPhase s.state s.rx

-- The states that the clock drives.
pub data IsLive : HqcState → Type 0 where
  still_sending : IsLive HqcState.ct_tx
  still_waiting : IsLive HqcState.wait_cf

-- The state machine: which states an event can lead to. A hello starts over from wherever the
-- session is; the other events leave the state alone or make the transitions named here.
abbrev pub IsMove : Event → HqcState → HqcState → Type 0
IsMove (on_hello m env) a b = (b ≡ HqcState.idle) ⊎ (b ≡ HqcState.ct_tx)
IsMove (on_pk_chunk m env) a b = (b ≡ a) ⊎ (IsOpen a × ((b ≡ HqcState.ct_tx) ⊎ (b ≡ HqcState.fail)))
IsMove (on_ct_ack m now) a b = (b ≡ a) ⊎ (IsOpen a × (b ≡ HqcState.wait_cf))
IsMove (on_finish m now) a b =
    (b ≡ a) ⊎ ((a ≡ HqcState.wait_cf) × ((b ≡ HqcState.active) ⊎ (b ≡ HqcState.fail)))
IsMove (on_tick now) a b =
    (b ≡ a) ⊎ (((a ≡ HqcState.ct_tx) × (b ≡ HqcState.wait_cf)) ⊎ (IsLive a × (b ≡ HqcState.fail)))

-- What an event leaves of a valid session.
pub record IsNext (c : Platform) (e : Event) (s s' : HqcSession) : Type 0 where
  pub valid : IsValid c s'
  pub move : IsMove e s.state s'.state

-- What `malloc` gives has the size it was asked for, the key file's key is no larger than a public
-- key, and the tag field of the Finished message has its 32 bytes.
abbrev pub IsPossible : Platform → Event → Type 0
IsPossible c (on_hello m env) =
    IsSized m.pk_len env.malloc_pke
    × IsSized c.ct_bytes env.malloc_cts
    × (pdk_size env.header ≤ c.pk_bytes)
IsPossible c (on_pk_chunk m env) = IsSized c.ct_bytes env.malloc_cte
IsPossible c (on_ct_ack m now) = Unit {0}
IsPossible c (on_finish m now) = length m.tag ≡ 32
IsPossible c (on_tick now) = Unit {0}

abbrev pub AllPossible : Platform → List Event → Type 0
AllPossible c [] = Unit {0}
AllPossible c (e ∷ es) = IsPossible c e × AllPossible c es

pub no_stream : (n : ℕ) → Fits n none 0 0
no_stream n = record { sized = tt; len_le = omega arith; sent_le = omega arith }

pub reset-IsHeld : (c : Platform) (s : HqcSession) → IsHeld c (reset s).rx
unfolding reset
reset-IsHeld c s = record {
  key = record { mtu_is = refl; window_is = refl; sized = tt; flags = inl refl };
  eph = no_stream c.ct_bytes;
  sta = no_stream c.ct_bytes;
}

-- A session that was wiped and failed.
pub wiped-IsValid :
    (c : Platform) (s : HqcSession) → IsValid c (record (reset s) { state = HqcState.fail })
wiped-IsValid c s = record { held = reset-IsHeld c s; phase = under_way failed }

-- A fresh session is valid.
pub reset-IsValid : (c : Platform) (s : HqcSession) → IsValid c (reset s)
unfolding reset
reset-IsValid c s = record {
  held = reset-IsHeld c s;
  phase = resting nothing_yet (record { no_pke = refl; no_cte = refl; no_cts = refl });
}

-- Each of the two streams.
pub Fits-stream :
    (c : Platform) (rx : HqcRxBuf) (kind : ℕ)
    → IsHeld c rx
    → Fits c.ct_bytes (stream rx kind).ct (stream rx kind).len (stream rx kind).sent
unfolding stream
Fits-stream c rx kind v = elim (Bool-cases (kind == 0)) [ inl e ↦ rw e v.eph | inr e ↦ rw e v.sta ]

-- A cursor within the stream may be put in.
pub put_stream-IsHeld :
    (c : Platform) (rx : HqcRxBuf) (kind : ℕ) (acked : List Bool) (sent : ℕ)
    → IsHeld c rx
    → sent ≤ (stream rx kind).len
    → IsHeld c (put_stream rx kind acked sent)
unfolding put_stream stream
put_stream-IsHeld c rx kind acked sent v le = elim (Bool-cases (kind == 0)) [
  | inl e ↦ rw e (record {
    key = v.key;
    eph = record { sized = v.eph.sized; len_le = v.eph.len_le; sent_le = rw e at le };
    sta = v.sta;
  })
  | inr e ↦ rw e (record {
    key = v.key;
    eph = v.eph;
    sta = record { sized = v.sta.sized; len_le = v.sta.len_le; sent_le = rw e at le };
  })
]
