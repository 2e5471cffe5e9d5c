-- ===== src/KeyFile/Bootstrap/Copied.antt =====
-- The copy is whole or nothing, and it fails only if some call fails.
use pq_key_establishment_mav.Base.{
  ℕ, zero, suc, ◌≤◌, ◌<◌, ◌≡◌, ◌==◌, refl, sym, ap, ◌∙◌, Bool-cases, inl, inr, if◌then◌else◌, List,
  [], ◌∷◌, ◌++◌, length, take, drop, Bool, true, false, not, Option, none, some, append_assoc,
  append_nil, length-drop, take-append-drop, arith,
}
use pq_key_establishment_mav.KeyFile.{Files}
use pq_key_establishment_mav.KeyFile.Bootstrap.{
  CopyEnv, write_chunk, copy_all, finish_copy, vfs_copy_file, kemtls_pdk_bootstrap_copy_if_missing,
}

-- What the reads give up to the end of the file.
abbrev pub content_of : List (Option (List ℕ)) → List ℕ
content_of [] = []
content_of (none ∷ rs) = []
content_of (some [] ∷ rs) = []
content_of (some (b ∷ bs) ∷ rs) = (b ∷ bs) ++ content_of rs

-- A read fails before the end of the file.
abbrev pub is_read_failed : List (Option (List ℕ)) → Bool
is_read_failed [] = false
is_read_failed (none ∷ rs) = true
is_read_failed (some [] ∷ rs) = false
is_read_failed (some (b ∷ bs) ∷ rs) = is_read_failed rs

-- Some write that was offered bytes takes none.
pub record IsWriteRefused (env : CopyEnv) : Type 0 where
  pub written : ℕ
  pub offered : ℕ
  pub some_offered : 0 < offered
  pub refused : env.accepts written offered ≡ 0

-- Why there is no copy.
pub data IsHindered (env : CopyEnv) : Type 0 where
  no_source : env.source_exists ≡ false → IsHindered env
  source_closed : env.opens_source ≡ false → IsHindered env
  target_closed : env.opens_target ≡ false → IsHindered env
  read_failed : is_read_failed env.reads ≡ true → IsHindered env
  write_refused : IsWriteRefused env → IsHindered env
  rename_failed : env.renames ≡ false → IsHindered env

data Written (env : CopyEnv) (out bytes : List ℕ) : Option (List ℕ) → Type 0 where
  all : (o : List ℕ) → o ≡ out ++ bytes → Written env out bytes (some o)
  refused : IsWriteRefused env → Written env out bytes none

rebased :
    (env : CopyEnv) (out t d bytes : List ℕ) (r : Option (List ℕ))
    → t ++ d ≡ bytes
    → Written env (out ++ t) d r
    → Written env out bytes r
rebased env out t d bytes none e (refused v) = refused v
rebased env out t d bytes (some o) e (all _ h) =
    all o (h ∙ append_assoc out t d ∙ ap (λ (x : List ℕ). out ++ x) e)

write_chunk-Written :
    (env : CopyEnv) (fuel : ℕ) (out bytes : List ℕ)
    → length bytes ≤ fuel
    → Written env out bytes (write_chunk env.accepts fuel out bytes)
unfolding write_chunk
write_chunk-Written env fuel out [] h = all out (sym (append_nil out))
write_chunk-Written env zero out (b ∷ bs) h = absurd (omega (arith, h))
write_chunk-Written env (suc fuel) out (b ∷ bs) h =
    let n : ℕ = length (b ∷ bs) in
    let w : ℕ = env.accepts (length out) n in
    elim (Bool-cases (w == 0)) [
      | inl f ↦ rw f (
          refused (record {
            written = length out;
            offered = n;
            some_offered = omega arith;
            refused = ground (arith, f);
          }))
      | inr f ↦ rw f (
          rebased env out (take w (b ∷ bs)) (drop w (b ∷ bs)) (b ∷ bs)
            (write_chunk env.accepts fuel (out ++ take w (b ∷ bs)) (drop w (b ∷ bs)))
            (take-append-drop w (b ∷ bs))
            (write_chunk-Written env fuel (out ++ take w (b ∷ bs)) (drop w (b ∷ bs))
              (ground (arith, h, f, length-drop w (b ∷ bs)))))
    ]

data Copied (env : CopyEnv) (reads : List (Option (List ℕ))) (out : List ℕ)
    : Option (List ℕ) → Type 0 where
  copied : (o : List ℕ) → o ≡ out ++ content_of reads → Copied env reads out (some o)
  not_read : is_read_failed reads ≡ true → Copied env reads out none
  not_written : IsWriteRefused env → Copied env reads out none

next-Copied :
    (env : CopyEnv) (rs : List (Option (List ℕ))) (b : ℕ) (bs out mid : List ℕ)
    (r : Option (List ℕ))
    → mid ≡ out ++ b ∷ bs
    → Copied env rs mid r
    → Copied env (some (b ∷ bs) ∷ rs) out r
next-Copied env rs b bs out mid none e (not_read f) = not_read f
next-Copied env rs b bs out mid none e (not_written v) = not_written v
next-Copied env rs b bs out mid (some o) e (copied _ h) =
    copied o
      (h ∙ ap (λ (x : List ℕ). x ++ content_of rs) e ∙ append_assoc out (b ∷ bs) (content_of rs))

chunk-Copied :
    (env : CopyEnv) (rs : List (Option (List ℕ))) (b : ℕ) (bs out : List ℕ) (w : Option (List ℕ))
    → ((o : List ℕ) → Copied env rs o (copy_all env.accepts rs o))
    → Written env out (b ∷ bs) w
    → Copied env
        (some (b ∷ bs) ∷ rs)
        out
        (elim w [ none ↦ none | some out' ↦ copy_all env.accepts rs out' ])
chunk-Copied env rs b bs out none k (refused v) = not_written v
chunk-Copied env rs b bs out (some o) k (all _ h) =
    next-Copied env rs b bs out o (copy_all env.accepts rs o) h (k o)

copy_all-Copied :
    (env : CopyEnv) (reads : List (Option (List ℕ))) (out : List ℕ)
    → Copied env reads out (copy_all env.accepts reads out)
unfolding copy_all
copy_all-Copied env [] out = copied out (sym (append_nil out))
copy_all-Copied env (none ∷ rs) out = not_read refl
copy_all-Copied env (some [] ∷ rs) out = copied out (sym (append_nil out))
copy_all-Copied env (some (b ∷ bs) ∷ rs) out =
    chunk-Copied env rs b bs out (write_chunk env.accepts (length (b ∷ bs)) out (b ∷ bs))
      (λ o. copy_all-Copied env rs o)
      (write_chunk-Written env (length (b ∷ bs)) out (b ∷ bs) (omega arith))

-- What the start leaves of the file of the key.
pub data IsBootstrapped (env : CopyEnv) (files : Files) (r : Files) : Type 0 where
  there : (old : List ℕ) → files.target ≡ some old → r ≡ files → IsBootstrapped env files r
  whole :
      files.target ≡ none
      → r.target ≡ some (content_of env.reads)
      → r.fresh ≡ none
      → IsBootstrapped env files r
  hindered : files.target ≡ none → r.target ≡ none → IsHindered env → IsBootstrapped env files r

if-IsBootstrapped :
    (env : CopyEnv) (files : Files) (c : Bool) (x y : Bool × Files)
    → (c ≡ true → IsBootstrapped env files x.1)
    → (c ≡ false → IsBootstrapped env files y.1)
    → IsBootstrapped env files (if c then x else y).1
if-IsBootstrapped env files true x y f g = f refl
if-IsBootstrapped env files false x y f g = g refl

finish_copy-IsBootstrapped :
    (env : CopyEnv) (files : Files) (r : Option (List ℕ))
    → files.target ≡ none
    → Copied env env.reads [] r
    → IsBootstrapped env files (finish_copy env files r).1
unfolding finish_copy
finish_copy-IsBootstrapped env files none h (not_read f) = hindered h h (read_failed f)
finish_copy-IsBootstrapped env files none h (not_written v) = hindered h h (write_refused v)
finish_copy-IsBootstrapped env files (some o) h (copied _ e) =
    if-IsBootstrapped env files (not env.renames) _ _
      (λ f. hindered h h (rename_failed (ground (arith, f)))) (λ f. whole h (ap some e) refl)

bootstrapped :
    (env : CopyEnv) (files : Files) (o : Option (List ℕ))
    → files.target ≡ o
    → IsBootstrapped env files (elim o [
      | some old ↦ files
      | none ↦ if not env.source_exists then files else (vfs_copy_file env files).1
    ])
unfolding vfs_copy_file
bootstrapped env files (some old) h = there old h refl
bootstrapped env files none h = elim (Bool-cases env.source_exists) [
  | inr f ↦ simp (f) (hindered h h (no_source f))
  | inl f ↦ simp (f) (
      if-IsBootstrapped env files (not env.opens_source) _ _
        (λ a. hindered h h (source_closed (ground (arith, a))))
        (λ a.
          if-IsBootstrapped env files (not env.opens_target) _ _
            (λ c. hindered h h (target_closed (ground (arith, c))))
            (λ c.
              finish_copy-IsBootstrapped env files (copy_all env.accepts env.reads []) h
                (copy_all-Copied env env.reads []))))
]

-- At the start, a file of the key that exists is left alone. A missing one becomes a whole copy of the
-- default key, however few bytes a write takes at a time, or stays missing, and then the source is
-- missing, an open, a read, a write or the rename failed.
pub bootstrap-IsBootstrapped :
    (env : CopyEnv) (files : Files)
    → IsBootstrapped env files (kemtls_pdk_bootstrap_copy_if_missing env files)
unfolding kemtls_pdk_bootstrap_copy_if_missing
bootstrap-IsBootstrapped env files = bootstrapped env files files.target refl
