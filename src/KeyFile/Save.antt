-- ===== src/KeyFile/Save.antt =====
-- What a save leaves of the two files.
use pq_key_establishment_mav.Base.{
  ℕ, ◌≡◌, ◌==◌, Bool, true, false, not, ◌&&◌, if◌then◌else◌, refl, sym, ap, ◌∙◌, List, [], ◌∷◌,
  ◌++◌, length, append_nil, arith, Option, none, some, true-false,
}
use pq_key_establishment_mav.KeyFile.{
  header_bytes, header_for, SaveEnv, Files, is_whole, written, fingerprint_of,
  save_kemtls_pk_atomic,
}
use pq_key_establishment_mav.KeyFile.Header.{length-header_bytes, take_whole}

module _ (sha256 : List ℕ → List ℕ) where
  -- The whole file for a key.
  abbrev pub key_file : List ℕ → ℕ → ℕ → ℕ → Option (List ℕ) → List ℕ
  key_file pk suite_id alg created_unix fingerprint32 =
      header_bytes (header_for sha256 pk suite_id alg created_unix fingerprint32) ++ pk

  -- Either nothing happened to the file of the key and the call failed, or it is the new one and
  -- the call succeeded.
  pub data IsAtomic (old : Option (List ℕ)) (file : List ℕ) (r : Bool × Files) : Type 0 where
    kept : r.0 ≡ false → r.1.target ≡ old → IsAtomic old file r
    replaced : r.0 ≡ true → r.1.target ≡ some file → r.1.fresh ≡ none → IsAtomic old file r

  if-IsAtomic :
      (old : Option (List ℕ)) (file : List ℕ) (c : Bool) (x y : Bool × Files)
      → (c ≡ true → IsAtomic old file x)
      → (c ≡ false → IsAtomic old file y)
      → IsAtomic old file (if c then x else y)
  if-IsAtomic old file true x y f g = f refl
  if-IsAtomic old file false x y f g = g refl

  whole_written :
      (o : Option ℕ) (n : ℕ) (before bytes : List ℕ)
      → length bytes ≡ n
      → is_whole o n ≡ true
      → written o before bytes ≡ before ++ bytes
  unfolding is_whole written
  whole_written none n before bytes h f = absurd (true-false (sym f))
  whole_written (some w) n before bytes h f =
      ap (λ (t : List ℕ). before ++ t) (take_whole w bytes (ground (arith, h, f)))

  all_written :
      (header_part key_part : Option ℕ) (hdr pk : List ℕ)
      → length hdr ≡ 56
      → not (is_whole header_part 56) ≡ false
      → (not (length pk == 0) && not (is_whole key_part (length pk))) ≡ false
      → (if length pk == 0
          then written header_part [] hdr
          else written key_part (written header_part [] hdr) pk)
        ≡ hdr ++ pk
  all_written header_part key_part hdr [] h f g =
      whole_written header_part 56 [] hdr h (ground (arith, f)) ∙ sym (append_nil hdr)
  all_written header_part key_part hdr (b ∷ pk) h f g =
      let some_key : (length (b ∷ pk) == 0) ≡ false = ground arith in
      let key_whole : is_whole key_part (length (b ∷ pk)) ≡ true = ground (arith, g, some_key) in
      rw some_key (
        whole_written key_part (length (b ∷ pk)) (written header_part [] hdr) (b ∷ pk) refl
          key_whole
        ∙ ap (λ (t : List ℕ). t ++ b ∷ pk)
            (whole_written header_part 56 [] hdr h (ground (arith, f))))

  -- Whichever of its steps fails, a save leaves the file of the key as it was and says so, or it
  -- says that it succeeded and has left the whole new file; the fingerprint has 32 bytes.
  pub save_kemtls_pk_atomic-IsAtomic :
      (env : SaveEnv) (files : Files) (pk : List ℕ) (suite_id alg created_unix : ℕ)
      (fingerprint32 : Option (List ℕ))
      → length (fingerprint_of sha256 fingerprint32 pk) ≡ 32
      → IsAtomic files.target
          (key_file pk suite_id alg created_unix fingerprint32)
          (save_kemtls_pk_atomic sha256 env files pk suite_id alg created_unix fingerprint32)
  unfolding save_kemtls_pk_atomic
  save_kemtls_pk_atomic-IsAtomic env files pk suite_id alg created_unix fingerprint32 h =
      let hdr : List ℕ =
        header_bytes (header_for sha256 pk suite_id alg created_unix fingerprint32) in
      let old = files.target in
      let file = key_file pk suite_id alg created_unix fingerprint32 in
      if-IsAtomic old file (not env.opens) _ _ (λ a. kept refl refl)
        (λ a.
          if-IsAtomic old file (not (is_whole env.header_written 56)) _ _ (λ b. kept refl refl)
            (λ b.
              if-IsAtomic old file
                (not (length pk == 0) && not (is_whole env.key_written (length pk))) _ _
                (λ c. kept refl refl)
                (λ c.
                  if-IsAtomic old file (not env.syncs) _ _ (λ d. kept refl refl)
                    (λ d.
                      if-IsAtomic old file (not env.renames) _ _ (λ f. kept refl refl)
                        (λ f.
                          replaced refl
                            (ap some (
                              all_written env.header_written env.key_written hdr pk
                                (length-header_bytes
                                  (header_for sha256 pk suite_id alg created_unix fingerprint32) h)
                                b c))
                            refl)))))
