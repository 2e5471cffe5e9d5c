-- ===== src/KeyFile/Bootstrap.antt =====
-- GCS_MAVLink/GCS_kemtls_bootstrap.cpp: the default key is copied if the file of the key is missing.
pub mod Copied
use pq_key_establishment_mav.Base.{
  ℕ, zero, suc, ◌==◌, if◌then◌else◌, List, [], ◌∷◌, ◌++◌, length, take, drop, Bool, true, false,
  not, Option, none, some,
}
use pq_key_establishment_mav.KeyFile.{Files}

-- What the calls of the file system give: whether the default key exists and the two files open, the
-- results of the reads (none is an error, no bytes is the end of the file, which also follows the
-- last one), how many bytes a write takes of those that it is offered at a place of the new file (0
-- for an error), and whether the rename works. Files can be unlinked.
pub record CopyEnv : Type 0 where
  pub source_exists : Bool
  pub opens_source : Bool
  pub opens_target : Bool
  pub reads : List (Option (List ℕ))
  pub accepts : (written offered : ℕ) → ℕ
  pub renames : Bool

-- while (off < r) { w = write(out, buf + off, r - off); if (w <= 0) ...; off += w; }
-- A write takes a byte at least, so there are no more of them than bytes.
unfoldable pub write_chunk : (ℕ → ℕ → ℕ) → ℕ → List ℕ → List ℕ → Option (List ℕ)
write_chunk accepts fuel out [] = some out
write_chunk accepts zero out (b ∷ bs) = none
write_chunk accepts (suc fuel) out (b ∷ bs) =
    let w = accepts (length out) (length (b ∷ bs)) in
    let rest = write_chunk accepts fuel (out ++ take w (b ∷ bs)) (drop w (b ∷ bs)) in
    if w == 0 then none else rest

-- The loop over the reads; none is an error.
unfoldable pub copy_all : (ℕ → ℕ → ℕ) → List (Option (List ℕ)) → List ℕ → Option (List ℕ)
unfolding write_chunk
copy_all accepts [] out = some out
copy_all accepts (none ∷ rs) out = none
copy_all accepts (some [] ∷ rs) out = some out
copy_all accepts (some (b ∷ bs) ∷ rs) out =
    elim (write_chunk accepts (length (b ∷ bs)) out (b ∷ bs)) [
      | none ↦ none
      | some out' ↦ copy_all accepts rs out'
    ]

unfoldable pub finish_copy : CopyEnv → Files → Option (List ℕ) → Bool × Files
finish_copy env files none = (false, record files { fresh = none })
finish_copy env files (some out) =
    if not env.renames
    then (false, record files { fresh = none })
    else (true, record { target = some out; fresh = none })

-- `vfs_copy_file`
unfoldable pub vfs_copy_file : CopyEnv → Files → Bool × Files
unfolding finish_copy copy_all
vfs_copy_file env files =
    if not env.opens_source
    then (false, files)
    else if not env.opens_target
    then (false, files)
    else finish_copy env files (copy_all env.accepts env.reads [])

-- `kemtls_pdk_bootstrap_copy_if_missing`
unfoldable pub kemtls_pdk_bootstrap_copy_if_missing : CopyEnv → Files → Files
unfolding vfs_copy_file
kemtls_pdk_bootstrap_copy_if_missing env files = elim files.target [
  | some old ↦ files
  | none ↦ if not env.source_exists then files else (vfs_copy_file env files).1
]
