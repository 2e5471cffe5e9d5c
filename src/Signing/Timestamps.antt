-- ===== src/Signing/Timestamps.antt =====
-- Timestamps never fall behind: what a save, a restart and a clock update leave.
use pq_key_establishment_mav.Base.{
  ℕ, ◌+◌, ◌≤◌, ◌<◌, ◌^◌, ◌%◌, ◌*◌, ◌≡◌, refl, ◌∙◌, if◌then◌else◌, ltb, arith, List, [], ◌∷◌, map,
  true, false, ◌&&◌, Option, none, some, Bool-cases, inl, inr,
}
use pq_key_establishment_mav.Signing.{
  SigningKey, Channel, Signing, Outside, signing_key_magic, signing_key_save, signing_key_load,
  use_key, load_from, load_signing_key, latest, raise_channel, signing_time, save_latest,
  save_signing_timestamp, update_signing_timestamp,
}

-- Every channel that signs has used timestamps up to `t` at most.
abbrev pub AllBelow : ℕ → List (Option Channel) → Type 0
AllBelow t [] = Unit {0}
AllBelow t (none ∷ cs) = AllBelow t cs
AllBelow t (some c ∷ cs) = (c.enabled ≡ true → c.timestamp ≤ t) × AllBelow t cs

-- Channel by channel: none has gone back, and one that signs stands at `t` at least.
abbrev pub AllRaised : ℕ → List (Option Channel) → List (Option Channel) → Type 0
AllRaised t [] [] = Unit {0}
AllRaised t [] (d ∷ ds) = ⊥
AllRaised t (c ∷ cs) [] = ⊥
AllRaised t (none ∷ cs) (none ∷ ds) = AllRaised t cs ds
AllRaised t (none ∷ cs) (some d ∷ ds) = ⊥
AllRaised t (some c ∷ cs) (none ∷ ds) = ⊥
AllRaised t (some c ∷ cs) (some d ∷ ds) =
    (c.timestamp ≤ d.timestamp)
    × (d.enabled ≡ c.enabled)
    × (d.secret_key ≡ c.secret_key)
    × (c.enabled ≡ true → t ≤ d.timestamp)
    × AllRaised t cs ds

-- A storage that holds a key and works: reads succeed, and a write leaves what was written.
pub record IsWorking (o : Outside) (s : Signing) : Type 0 where
  pub fits : o.fits ≡ true
  pub reads : o.read_block ≡ true
  pub magic : s.stored.magic ≡ signing_key_magic
  pub writes : (old new : SigningKey) → o.write_block old new ≡ (true, new)

latest_ge : (t : ℕ) (cs : List (Option Channel)) → t ≤ latest t cs
unfolding latest
latest_ge t [] = omega arith
latest_ge t (none ∷ cs) = latest_ge t cs
latest_ge t (some c ∷ cs) = elim (Bool-cases (c.enabled && ltb t c.timestamp)) [
  | inl e ↦ rw e (ground (arith, latest_ge c.timestamp cs, e))
  | inr e ↦ rw e (latest_ge t cs)
]

latest-AllBelow : (t : ℕ) (cs : List (Option Channel)) → AllBelow (latest t cs) cs
unfolding latest
latest-AllBelow t [] = tt
latest-AllBelow t (none ∷ cs) = latest-AllBelow t cs
latest-AllBelow t (some c ∷ cs) =
    let u : ℕ = if c.enabled && ltb t c.timestamp then c.timestamp else t in
    (λ f. ground (arith, f, latest_ge u cs), latest-AllBelow u cs)

load_working : (o : Outside) (s : Signing) → IsWorking o s → signing_key_load o s ≡ some s.stored
unfolding signing_key_load
load_working o s w = ground (arith, w.fits, w.reads, w.magic)

-- What a save leaves in a storage that works.
record IsSaved (s s' : Signing) : Type 0 where
  time : s'.stored.timestamp ≡ latest s.stored.timestamp s.channels
  key : s'.stored.secret_key ≡ s.stored.secret_key
  magic : s'.stored.magic ≡ s.stored.magic

save_latest-IsSaved :
    (o : Outside) (s : Signing) → IsWorking o s → IsSaved s (save_latest o s (some s.stored))
unfolding save_latest signing_key_save
save_latest-IsSaved o s w =
    elim (Bool-cases (ltb s.stored.timestamp (latest s.stored.timestamp s.channels))) [
      | inl e ↦ rw e (simp (w.fits, w.writes) (record { time = refl; key = refl; magic = refl }))
      | inr e ↦ rw e (record {
        time = ground (arith, e, latest_ge s.stored.timestamp s.channels);
        key = refl;
        magic = refl;
      })
    ]

save_forced-IsSaved :
    (o : Outside) (s : Signing) → IsWorking o s → IsSaved s (save_signing_timestamp o true s)
unfolding save_signing_timestamp
save_forced-IsSaved o s w =
    let s' : Signing = record s { last_signing_save_ms = o.now } in
    let w' : IsWorking o s' = record {
      fits = w.fits;
      reads = w.reads;
      magic = w.magic;
      writes = w.writes;
    } in
    let r = save_latest-IsSaved o s' w' in
    rw (load_working o s' w') (record { time = r.time; key = r.key; magic = r.magic })

-- Every channel that signs is a minute behind `t` at least.
abbrev pub AllBehind : ℕ → List (Option Channel) → Type 0
AllBehind t [] = Unit {0}
AllBehind t (none ∷ cs) = AllBehind t cs
AllBehind t (some c ∷ cs) = (c.enabled ≡ true → c.timestamp + 6000000 ≤ t) × AllBehind t cs

AllBelow-AllBehind :
    (t u : ℕ) (cs : List (Option Channel)) → t + 6000000 ≤ u → AllBelow t cs → AllBehind u cs
AllBelow-AllBehind t u [] p v = tt
AllBelow-AllBehind t u (none ∷ cs) p v = AllBelow-AllBehind t u cs p v
AllBelow-AllBehind t u (some c ∷ cs) p v =
    (λ e. omega (arith, v.0 e, p), AllBelow-AllBehind t u cs p v.1)

raise-AllRaised : (t : ℕ) (cs : List (Option Channel)) → AllRaised t cs (map (raise_channel t) cs)
unfolding raise_channel
raise-AllRaised t [] = tt
raise-AllRaised t (none ∷ cs) = raise-AllRaised t cs
raise-AllRaised t (some c ∷ cs) = elim (Bool-cases (c.enabled && ltb c.timestamp t)) [
  | inl e ↦ rw e (ground (arith, e), refl, refl, λ f. omega arith, raise-AllRaised t cs)
  | inr e ↦ rw e (omega arith, refl, refl, λ f. ground (arith, e, f), raise-AllRaised t cs)
]

save_latest-channels :
    (o : Outside) (s : Signing) (k : Option SigningKey) → (save_latest o s k).channels ≡ s.channels
unfolding save_latest signing_key_save
save_latest-channels o s none = refl
save_latest-channels o s (some k) =
    elim (Bool-cases (ltb k.timestamp (latest k.timestamp s.channels))) [
      | inl e ↦ rw e (elim (Bool-cases o.fits) [ inl f ↦ simp (f) refl | inr f ↦ simp (f) refl ])
      | inr e ↦ rw e refl
    ]

-- An update of the clock sets no channel's timestamp back, brings each channel that signs to the
-- new time at least, and leaves the keys and which channels sign.
pub update_signing_timestamp-AllRaised :
    (o : Outside) (usec : ℕ) (s : Signing)
    → AllRaised (signing_time usec) s.channels (update_signing_timestamp o usec s).channels
unfolding update_signing_timestamp save_signing_timestamp
update_signing_timestamp-AllRaised o usec s =
    rw (save_latest-channels o _ _) (raise-AllRaised (signing_time usec) s.channels)

load_from-timestamp :
    (o : Outside) (k : SigningKey) (chan : ℕ) (c : Channel)
    → o.signing_disabled ≡ false
    → (load_from o (some k) chan c).timestamp ≡ (k.timestamp + 60 * 100 * 1000) % 2 ^ 64
unfolding load_from use_key
load_from-timestamp o k chan c off = ground (arith, off)

-- With a storage that works, signing not disabled and no overflow, a key that is loaded after a
-- forced save starts at a time that is a minute (6,000,000 units of 10 us) past the timestamp of
-- every channel that signed at the save.
load_signing_key-AllBehind :
    (o : Outside) (s : Signing) (chan : ℕ) (c : Channel)
    → IsWorking o s
    → o.signing_disabled ≡ false
    → latest s.stored.timestamp s.channels + 6000000 < 2 ^ 64
    → AllBehind (load_signing_key o (save_signing_timestamp o true s) chan c).timestamp s.channels
unfolding load_signing_key
load_signing_key-AllBehind o s chan c w off small =
    let saved = save_forced-IsSaved o s w in
    let w' : IsWorking o (save_signing_timestamp o true s) = record {
      fits = w.fits;
      reads = w.reads;
      magic = saved.magic ∙ w.magic;
      writes = w.writes;
    } in
    let time = load_from-timestamp o (save_signing_timestamp o true s).stored chan c off in
    rw (load_working o (save_signing_timestamp o true s) w') (
      AllBelow-AllBehind (latest s.stored.timestamp s.channels) _ s.channels
        (omega (arith, time, saved.time, small)) (latest-AllBelow s.stored.timestamp s.channels))
