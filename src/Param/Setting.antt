-- ===== src/Param/Setting.antt =====
-- GCS_Param.cpp, `GCS_MAVLINK::handle_param_set`: a parameter is set by a message. Logging and the
-- warning are left out.
use pq_key_establishment_mav.Base.{
  ℕ, ◌/◌, ◌%◌, ◌^◌, ◌≡◌, ◌⊎◌, ◌==◌, if◌then◌else◌, refl, List, [], ◌∷◌, ◌++◌, Bool, true, false,
  ◌&&◌, not, Bool-cases, Option-cases, inl, inr, Option, none, some,
}
use pq_key_establishment_mav.Param.{ParamValue, strncpy}

-- The parameter that `AP_Param::find` gives: its type and value, whether it may be set by a message,
-- and whether it enables others.
pub record FoundParam : Type 0 where
  pub p_type : ℕ
  pub old_value : ℕ
  pub settable : Bool
  pub enables : Bool

-- What a message leads to: the value stored, whether the save was forced, whether the count of
-- parameters became invalid, and the answer.
pub record ParamSet : Type 0 where
  pub stored : Option ℕ
  pub saved : Option Bool
  pub count_invalid : Bool
  pub answer : List ParamValue

unfoldable pub untouched : ParamSet
untouched = record { stored = none; saved = none; count_invalid = false; answer = [] }

-- isnan or isinf of the 32 bits of a float.
unfoldable pub not_finite : ℕ → Bool
not_finite bits = bits / 2 ^ 23 % 256 == 255

-- `send_parameter_value` of a link; -1 is the index 65535.
unfoldable pub send_parameter_value : (chan count : ℕ) → Bool → List ℕ → ℕ → ℕ → List ParamValue
send_parameter_value chan count room name p_type value =
    if not room
    then []
    else record {
      chan = chan;
      name = name;
      value = value;
      p_type = p_type;
      count = count;
      index = 65535;
    }
      ∷ []

-- The message on the parameter that was found; `is_equal` compares two floats.
unfoldable pub param_set_on :
    (chan count : ℕ) → Bool → List ℕ → ℕ → (ℕ → ℕ → Bool) → FoundParam → ParamSet
unfolding untouched not_finite send_parameter_value
param_set_on chan count room key value is_equal p =
    let force_save = not (is_equal value p.old_value) in
    if not_finite value
    then untouched
    else if not p.settable
    then record untouched { answer = send_parameter_value chan count room key p.p_type p.old_value }
    else record {
      stored = some value;
      saved = some force_save;
      count_invalid = force_save && p.enables;
      answer = [];
    }

unfoldable pub handle_param_set :
    (chan count : ℕ) → Bool → List ℕ → ℕ → (ℕ → ℕ → Bool) → (List ℕ → Option FoundParam) → ParamSet
unfolding param_set_on strncpy untouched
handle_param_set chan count room param_id value is_equal find =
    let key = strncpy 16 param_id ++ (0 ∷ []) in
    elim (find key) [
      | none ↦ untouched
      | some p ↦ param_set_on chan count room key value is_equal p
    ]

-- What a message to set a parameter does: nothing, or an answer with the old value if there is room
-- for one, or the value stored.
pub data IsParamSet (chan count : ℕ) (room : Bool) (key : List ℕ) (value : ℕ)
    (is_equal : ℕ → ℕ → Bool) (o : Option FoundParam) : ParamSet → Type 0 where
  ignored :
      (o ≡ none) ⊎ (not_finite value ≡ true)
      → IsParamSet chan count room key value is_equal o untouched
  read_only :
      (p : FoundParam)
      → o ≡ some p
      → p.settable ≡ false
      → not_finite value ≡ false
      → (answer : List ParamValue)
      → ((room ≡ false) × (answer ≡ []))
        ⊎ ((room ≡ true)
            × (answer
                ≡ record {
                  chan = chan;
                  name = key;
                  value = p.old_value;
                  p_type = p.p_type;
                  count = count;
                  index = 65535;
                }
                  ∷ []))
      → IsParamSet chan count room key value is_equal o (record untouched { answer = answer })
  set_to :
      (p : FoundParam)
      → o ≡ some p
      → p.settable ≡ true
      → not_finite value ≡ false
      → IsParamSet chan count room key value is_equal o (record {
        stored = some value;
        saved = some (not (is_equal value p.old_value));
        count_invalid = not (is_equal value p.old_value) && p.enables;
        answer = [];
      })

send_parameter_value-room :
    (chan count : ℕ) (room : Bool) (key : List ℕ) (p_type value : ℕ)
    → ((room ≡ false) × (send_parameter_value chan count room key p_type value ≡ []))
      ⊎ ((room ≡ true)
          × (send_parameter_value chan count room key p_type value
              ≡ record {
                chan = chan;
                name = key;
                value = value;
                p_type = p_type;
                count = count;
                index = 65535;
              }
                ∷ []))
unfolding send_parameter_value
send_parameter_value-room chan count false key p_type value = inl (refl, refl)
send_parameter_value-room chan count true key p_type value = inr (refl, refl)

-- A message sets a parameter only if there is one of this name, a message may set it and the value
-- is a finite number; the value is then stored, its save is forced exactly if it is not equal to the
-- value before the message, and the count of parameters becomes invalid exactly if the save is
-- forced and the parameter enables others. If a message may not set the parameter and the value is
-- finite, the answer is one message with the old value, or none if the link has no room. Anything
-- else is ignored.
pub handle_param_set-IsParamSet :
    (chan count : ℕ) (room : Bool) (param_id : List ℕ) (value : ℕ) (is_equal : ℕ → ℕ → Bool)
    (find : List ℕ → Option FoundParam)
    → IsParamSet chan count room
        (strncpy 16 param_id ++ (0 ∷ []))
        value
        is_equal
        (find (strncpy 16 param_id ++ (0 ∷ [])))
        (handle_param_set chan count room param_id value is_equal find)
unfolding handle_param_set param_set_on
handle_param_set-IsParamSet chan count room param_id value is_equal find =
    let key = strncpy 16 param_id ++ (0 ∷ []) in
    elim (Option-cases (find key)) [
      | inl e ↦ simp (e, handle_param_set) (ignored (inl refl))
      | inr (p, e) ↦
          simp (e, handle_param_set)
            (elim (Bool-cases (not_finite value)) [
              | inl f ↦ rw f (ignored (inr f))
              | inr f ↦ rw f (elim (Bool-cases p.settable) [
                | inr g ↦ simp (g) (
                    read_only p refl g f _
                      (send_parameter_value-room chan count room key p.p_type p.old_value))
                | inl g ↦ simp (g) (set_to p refl g f)
              ])
            ])
    ]
