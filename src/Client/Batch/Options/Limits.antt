-- ===== src/Client/Batch/Options/Limits.antt =====
-- The limits that normalizeServiceOptions lets through.
use mathlib.Core.List.Memᴰ
use effect_opcua.Prelude.{
  ◌⊎◌, All-mem, All-of_mem, Option-cases, zero, suc, String, Option, none, some, List, [], ◌∷◌, map,
  any, All, ◌==◌, eq_iff, ◌∙◌, true, false, Bool-cases, ◌≡◌, refl, sym, ap, inl, inr, Memᴰ, mem-nil,
  ⊎_elim, arith,
}
use effect_opcua.Prelude.Int.{pos, negsuc}
use effect_opcua.Client.Effect.{failed, succeeded}
use effect_opcua.Client.Batch.{Number, integer, no_integer}
use effect_opcua.Client.Batch.Keyed.{ConfigurationError}
use effect_opcua.Client.Batch.Options.{
  FieldValue, undefined_value, other_value, number_value, text_value, ServiceValue, no_service,
  null_service, no_object, service_object, field, is_wrong_limit, limits_error,
  service_fields_error, service_options_error, unknown_keys, limit_in, first_limit,
  normalize_service_options,
}

-- An integer above 0.
abbrev pub IsPositive : Number → Type 0
IsPositive (integer (pos (suc n))) = Unit
IsPositive _ = ⊥

-- A limit that may be given: none, or an integer above 0.
abbrev pub IsLimit : FieldValue → Type 0
IsLimit undefined_value = Unit
IsLimit (number_value n) = IsPositive n
IsLimit _ = ⊥

-- No value, or an object whose keys are allowed and whose allowed keys have limits.
abbrev pub IsServiceOptions : List String → ServiceValue → Type 0
IsServiceOptions allowed no_service = Unit
IsServiceOptions allowed (service_object fields) =
    All (λ (f : String × FieldValue). Memᴰ f.0 allowed) fields
    × All (λ key. IsLimit (field key fields)) allowed
IsServiceOptions allowed _ = ⊥

-- What an options object has under a key.
abbrev pub given : ServiceValue → String → FieldValue
given (service_object fields) key = field key fields
given _ key = undefined_value

-- The limit of the call is taken if it is given, else that of the session, else the fallback.
pub data IsChosen (own session : FieldValue) (fallback n : Number) : Type 0 where
  own_limit : own ≡ number_value n → IsPositive n → IsChosen own session fallback n
  session_limit :
      own ≡ undefined_value
      → session ≡ number_value n
      → IsPositive n
      → IsChosen own session fallback n
  no_limit :
      own ≡ undefined_value
      → session ≡ undefined_value
      → n ≡ fallback
      → IsChosen own session fallback n

any-Memᴰ : (key : String) (keys : List String) → Memᴰ key keys → any (λ k. k == key) keys ≡ true
any-Memᴰ key [] m = absurd (mem-nil m)
any-Memᴰ key (k ∷ keys) m =
    ⊎_elim (λ e. let same : (k == key) ≡ true = (eq_iff k key).1 (sym e) in rw same refl)
      (λ n. let found = any-Memᴰ key keys n in ground (arith, found)) (Memᴰ.cases_cons m)

Memᴰ-any : (key : String) (keys : List String) → any (λ k. k == key) keys ≡ true → Memᴰ key keys
Memᴰ-any key [] h = absurd (ground arith)
Memᴰ-any key (k ∷ keys) h = elim (Bool-cases (k == key)) [
  | inl same ↦ Memᴰ.head (sym ((eq_iff k key).0 same))
  | inr differ ↦ Memᴰ.tail (Memᴰ-any key keys (rw differ at h))
]

not_empty : {A : Type 0} (x : A) (xs : List A) → ¬ (x ∷ xs ≡ [])
not_empty x xs h = cc

no_unknown_keys :
    (allowed : List String) (fields : List (String × FieldValue))
    → All (λ (f : String × FieldValue). Memᴰ f.0 allowed) fields
    → unknown_keys (map (λ (f : String × FieldValue). f.0) fields) allowed ≡ []
unfolding unknown_keys
no_unknown_keys allowed [] h = refl
no_unknown_keys allowed ((key, v) ∷ fields) (m, h) =
    rw (any-Memᴰ key allowed m) (no_unknown_keys allowed fields h)

known_keys :
    (allowed : List String) (fields : List (String × FieldValue))
    → unknown_keys (map (λ (f : String × FieldValue). f.0) fields) allowed ≡ []
    → All (λ (f : String × FieldValue). Memᴰ f.0 allowed) fields
unfolding unknown_keys
known_keys allowed [] h = tt
known_keys allowed ((key, v) ∷ fields) h = elim (Bool-cases (any (λ k. k == key) allowed)) [
  | inl known ↦ (Memᴰ-any key allowed known, known_keys allowed fields (rw known at h))
  | inr unknown ↦ absurd (not_empty _ _ (rw unknown at h))
]

right-IsLimit : (v : FieldValue) → IsLimit v → is_wrong_limit v ≡ false
right-IsLimit undefined_value h = refl
right-IsLimit (number_value (integer (pos zero))) h = absurd h
right-IsLimit (number_value (integer (pos (suc n)))) h = refl
right-IsLimit (number_value (integer (negsuc n))) h = absurd h
right-IsLimit (number_value no_integer) h = absurd h
right-IsLimit (text_value s) h = absurd h
right-IsLimit other_value h = absurd h

IsLimit-right : (v : FieldValue) → is_wrong_limit v ≡ false → IsLimit v
IsLimit-right undefined_value h = tt
IsLimit-right (number_value (integer (pos zero))) h = absurd (ground arith)
IsLimit-right (number_value (integer (pos (suc n)))) h = tt
IsLimit-right (number_value (integer (negsuc n))) h = absurd (ground arith)
IsLimit-right (number_value no_integer) h = absurd (ground arith)
IsLimit-right (text_value s) h = absurd (ground arith)
IsLimit-right other_value h = absurd (ground arith)

no_limits_error :
    (operation : String) (fields : List (String × FieldValue)) (keys : List String)
    → All (λ key. IsLimit (field key fields)) keys
    → limits_error operation fields keys ≡ none
unfolding limits_error
no_limits_error operation fields [] h = refl
no_limits_error operation fields (key ∷ keys) (limit, h) =
    rw (right-IsLimit (field key fields) limit) (no_limits_error operation fields keys h)

some≢none : {A : Type 0} {a : A} (o : Option A) → o ≡ some a → ¬ (o ≡ none)
some≢none o p q = cc

limits-IsLimit :
    (operation : String) (fields : List (String × FieldValue)) (keys : List String)
    → limits_error operation fields keys ≡ none
    → All (λ key. IsLimit (field key fields)) keys
unfolding limits_error
limits-IsLimit operation fields [] h = tt
limits-IsLimit operation fields (key ∷ keys) h =
    elim (Bool-cases (is_wrong_limit (field key fields))) [
      | inl wrong ↦ absurd (some≢none _ refl (rw wrong at h))
      | inr right ↦ (
        IsLimit-right (field key fields) right,
        limits-IsLimit operation fields keys (rw right at h),
      )
    ]

-- The check finds nothing exactly in options that are well-formed.
service_options_error-IsServiceOptions :
    (operation : String) (value : ServiceValue) (allowed : List String)
    → IsServiceOptions allowed value
    → service_options_error operation value allowed ≡ none
unfolding service_options_error
service_options_error-IsServiceOptions operation no_service allowed h = refl
service_options_error-IsServiceOptions operation null_service allowed h = absurd h
service_options_error-IsServiceOptions operation no_object allowed h = absurd h
service_options_error-IsServiceOptions operation (service_object fields) allowed (known, limits) =
    ap (service_fields_error operation fields allowed) (no_unknown_keys allowed fields known)
    ∙ no_limits_error operation fields allowed limits

IsServiceOptions-fields :
    (operation : String) (fields : List (String × FieldValue)) (allowed unknown : List String)
    → unknown_keys (map (λ (f : String × FieldValue). f.0) fields) allowed ≡ unknown
    → service_fields_error operation fields allowed unknown ≡ none
    → IsServiceOptions allowed (service_object fields)
IsServiceOptions-fields operation fields allowed [] e h =
    (known_keys allowed fields e, limits-IsLimit operation fields allowed h)
IsServiceOptions-fields operation fields allowed (key ∷ keys) e h = absurd (some≢none _ refl h)

IsServiceOptions-service_options_error :
    (operation : String) (value : ServiceValue) (allowed : List String)
    → service_options_error operation value allowed ≡ none
    → IsServiceOptions allowed value
unfolding service_options_error
IsServiceOptions-service_options_error operation no_service allowed h = tt
IsServiceOptions-service_options_error operation null_service allowed h =
    absurd (some≢none _ refl h)
IsServiceOptions-service_options_error operation no_object allowed h = absurd (some≢none _ refl h)
IsServiceOptions-service_options_error operation (service_object fields) allowed h =
    IsServiceOptions-fields operation fields allowed _ refl h

IsLimit-given :
    (value : ServiceValue) (allowed : List String) (key : String)
    → IsServiceOptions allowed value
    → Memᴰ key allowed
    → IsLimit (given value key)
IsLimit-given no_service allowed key h m = tt
IsLimit-given null_service allowed key h m = tt
IsLimit-given no_object allowed key h m = tt
IsLimit-given (service_object fields) allowed key (known, limits) m =
    All-mem (λ k. IsLimit (field k fields)) allowed limits m

abbrev number_in : FieldValue → Option Number
number_in (number_value n) = some n
number_in _ = none

limit_in-given :
    (value : ServiceValue) (key : String) → limit_in value key ≡ number_in (given value key)
limit_in-given no_service key = refl
limit_in-given null_service key = refl
limit_in-given no_object key = refl
limit_in-given (service_object fields) key = by_value (field key fields)
  where
    by_value : (v : FieldValue) → elim v [ number_value n ↦ some n | _ ↦ none ] ≡ number_in v
    by_value undefined_value = refl
    by_value (number_value n) = refl
    by_value (text_value s) = refl
    by_value other_value = refl

first_limit-IsChosen :
    (own session : FieldValue) (fallback : Number)
    → IsLimit own
    → IsLimit session
    → IsChosen own session fallback (first_limit (number_in own) (number_in session) fallback)
first_limit-IsChosen (number_value n) session fallback h k = own_limit refl h
first_limit-IsChosen undefined_value (number_value n) fallback h k = session_limit refl refl k
first_limit-IsChosen undefined_value undefined_value fallback h k = no_limit refl refl refl
first_limit-IsChosen undefined_value (text_value s) fallback h k = absurd k
first_limit-IsChosen undefined_value other_value fallback h k = absurd k
first_limit-IsChosen (text_value s) session fallback h k = absurd h
first_limit-IsChosen other_value session fallback h k = absurd h

-- Both checks passed.
chosen :
    (limits defaults : ServiceValue) (allowed : List String) (fallback : String → Number)
    → IsServiceOptions allowed limits
    → IsServiceOptions allowed defaults
    → All
        (λ key.
          IsChosen
            (given limits key)
            (given defaults key)
            (fallback key)
            (first_limit (limit_in limits key) (limit_in defaults key) (fallback key)))
        allowed
chosen limits defaults allowed fallback h k =
    All-of_mem
      (λ key.
        IsChosen (given limits key) (given defaults key) (fallback key)
          (first_limit (limit_in limits key) (limit_in defaults key) (fallback key)))
      allowed
      (λ key m.
        rw (limit_in-given limits key, limit_in-given defaults key)
          (first_limit-IsChosen (given limits key) (given defaults key) (fallback key)
            (IsLimit-given limits allowed key h m) (IsLimit-given defaults allowed key k m)))

module _ {World E : Type 0} (configuration_error : ConfigurationError → E) where
  -- Either the limits of the call and those of the session are both left out or an object of allowed keys with
  -- integers above 0; then normalizeServiceOptions succeeds, and gives every allowed key the limit of the call, or, where the
  -- call has none, that of the session, or, where neither has one, the fallback. Or one of them is not of
  -- this form, and it fails with a configuration error.
  pub normalize_service_options_decides :
      (limits defaults : ServiceValue) (service_operation defaults_operation : String)
      (allowed : List String) (fallback : String → Number) (w : World)
      → (IsServiceOptions allowed limits
          × IsServiceOptions allowed defaults
          × ((normalized : String → Number) × (normalize_service_options configuration_error limits
                  defaults service_operation defaults_operation allowed fallback w
                ≡ (succeeded normalized, w))
              × All
                  (λ key.
                    IsChosen
                      (given limits key)
                      (given defaults key)
                      (fallback key)
                      (normalized key))
                  allowed))
        ⊎ (¬ (IsServiceOptions allowed limits × IsServiceOptions allowed defaults)
            × ((error : ConfigurationError) × (normalize_service_options configuration_error limits
                    defaults service_operation defaults_operation allowed fallback w
                  ≡ (failed (configuration_error error), w))))
  unfolding normalize_service_options
  normalize_service_options_decides limits defaults service_operation defaults_operation allowed
        fallback w =
      elim (Option-cases (service_options_error defaults_operation defaults allowed)) [
        | inr (e, wrong) ↦ inr (
          λ (h, k).
              some≢none _ wrong
                (service_options_error-IsServiceOptions defaults_operation defaults allowed k),
          (e, rw wrong refl),
        )
        | inl right ↦ elim (Option-cases (service_options_error service_operation limits allowed)) [
          | inr (e, wrong) ↦ inr (
            λ (h, k).
                some≢none _ wrong
                  (service_options_error-IsServiceOptions service_operation limits allowed h),
            (e, rw (right, wrong) refl),
          )
          | inl right' ↦
              let h =
                IsServiceOptions-service_options_error service_operation limits allowed right' in
              let k =
                IsServiceOptions-service_options_error defaults_operation defaults allowed right in
              inl (
                h,
                k,
                (
                  λ key. first_limit (limit_in limits key) (limit_in defaults key) (fallback key),
                  rw (right, right') refl,
                  chosen limits defaults allowed fallback h k,
                ),
              )
        ]
      ]
