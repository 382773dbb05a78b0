-- ===== src/Codegen/Compile/Policy.antt =====
-- enforceIssuePolicy of packages/codegen/src/diagnostics.ts, which the generator calls on the issues of
-- a model.
use effect_opcua.Prelude.{
  List, [], ◌∷◌, map, any, Bool, true, false, if◌then◌else◌, ◌≡◌, refl, ap, ◌⊎◌, inl, inr,
  Bool-cases, arith,
}
use effect_opcua.Codegen.Issues.{Severity, info, warning, error, Issue, is_error}
use effect_opcua.Codegen.Compile.{Platform, some_error, sort_issues}

-- Accepted with the sorted issues, or rejected with the promoted ones.
pub data PolicyResult : Type 0 where
  accepted : List Issue → PolicyResult
  rejected : List Issue → PolicyResult

promote_severity : Severity → Severity
promote_severity warning = error
promote_severity s = s

promote : Issue → Issue
unfolding promote_severity
promote i = record i { severity = promote_severity i.severity }

promoted : Bool → List Issue → List Issue
unfolding promote
promoted warnings_as_errors issues = if warnings_as_errors then map promote issues else issues

judge : Platform → List Issue → PolicyResult
judge p issues = if some_error issues then rejected issues else accepted (sort_issues p issues)

unfoldable pub enforce_issue_policy : Platform → Bool → List Issue → PolicyResult
unfolding promoted judge
enforce_issue_policy p warnings_as_errors issues = judge p (promoted warnings_as_errors issues)

abbrev is_warning : Severity → Bool
is_warning warning = true
is_warning _ = false

abbrev pub some_warning : List Issue → Bool
some_warning = any (λ (i : Issue). is_warning i.severity)

-- What an answer says of the issues that were given: accepted, they stay as they are but for their
-- order, and contain no error, nor a warning where these count as errors.
abbrev pub Justified : Platform → Bool → List Issue → PolicyResult → Type 0
Justified p strict issues (accepted is) =
    (is ≡ sort_issues p issues)
    × (some_error issues ≡ false)
    × ((strict ≡ false) ⊎ (some_warning issues ≡ false))
Justified p strict issues (rejected is) =
    (some_error issues ≡ true) ⊎ ((strict ≡ true) × (some_warning issues ≡ true))

is_error-promote :
    (s : Severity) → is_error (promote_severity s) ≡ (if is_error s then true else is_warning s)
unfolding promote_severity
is_error-promote info = refl
is_error-promote warning = refl
is_error-promote error = refl

some_error-promote :
    (is : List Issue)
    → some_error (map promote is) ≡ (if some_error is then true else some_warning is)
unfolding promote
some_error-promote [] = refl
some_error-promote (i ∷ is) = ground (arith, some_error-promote is, is_error-promote i.severity)

same_severity : (s : Severity) → is_warning s ≡ false → promote_severity s ≡ s
unfolding promote_severity
same_severity info h = refl
same_severity warning h = absurd (ground arith)
same_severity error h = refl

promote-none : (is : List Issue) → some_warning is ≡ false → map promote is ≡ is
unfolding promote
promote-none [] h = refl
promote-none (i ∷ is) h = elim (Bool-cases (is_warning i.severity)) [
  | inl w ↦ absurd (ground arith)
  | inr n ↦
      let rest = promote-none is (ground arith) in
      λ j. record i { severity = same_severity i.severity n j } ∷ rest j
]

Justified-judge :
    (p : Platform) (strict : Bool) (issues given : List Issue)
    → (some_error given ≡ true → Justified p strict issues (rejected given))
    → (some_error given ≡ false → Justified p strict issues (accepted (sort_issues p given)))
    → Justified p strict issues (judge p given)
unfolding judge
Justified-judge p strict issues given bad good = elim (Bool-cases (some_error given)) [
  | inl h ↦ rw h (bad h)
  | inr h ↦ rw h (good h)
]

-- The issues are accepted only if none is an error, and none a warning where warnings count as errors,
-- and then they are only sorted; they are rejected only if one of them is of that kind.
pub enforce_issue_policy-Justified :
    (p : Platform) (strict : Bool) (issues : List Issue)
    → Justified p strict issues (enforce_issue_policy p strict issues)
unfolding enforce_issue_policy promoted
enforce_issue_policy-Justified p false issues =
    Justified-judge p false issues issues (λ h. inl h) (λ h. (refl, h, inl refl))
enforce_issue_policy-Justified p true issues =
    let found = some_error-promote issues in
    Justified-judge p true issues (map promote issues)
      (λ h. elim (Bool-cases (some_error issues)) [
        | inl e ↦ inl e
        | inr e ↦ inr (refl, ground arith)
      ])
      (λ h.
        let none_warned : some_warning issues ≡ false = ground arith in
        (ap (sort_issues p) (promote-none issues none_warned), ground arith, inr none_warned))
