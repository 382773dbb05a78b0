-- ===== src/Codegen/BuiltinTypes.antt =====
-- packages/codegen/src/compile/builtin-types.ts and policy.ts
use effect_opcua.Prelude.{
  String, Option, none, some, List, [], ◌∷◌, Bool, true, false, not, ◌&&◌, ◌||◌, ◌==◌, ◌≡◌, refl,
  if◌then◌else◌,
}
use effect_opcua.Prelude.Sets.{has}
use effect_opcua.Prelude.Text.{strip_prefix, all_digits}
use effect_opcua.Prelude.Int.{ℤ, pos, leb_ℤ, eq_ℤ}
use effect_opcua.Codegen.Issues.{Severity, warning, error}
use effect_opcua.Codegen.Types.{
  ScalarSchema, boolean, number, text, date, TypeFallback, fail, dynamic_codec,
}

abbrev pub numeric_data_type_node_ids : List String
numeric_data_type_node_ids =
    "i=2" ∷ "i=3" ∷ "i=4" ∷ "i=5" ∷ "i=6" ∷ "i=7" ∷ "i=10" ∷ "i=11" ∷ "i=26" ∷ "i=27" ∷ "i=28"
    ∷ "i=29" ∷ []

abbrev pub dynamic_scalar_data_type_node_ids : List String
dynamic_scalar_data_type_node_ids = "i=8" ∷ "i=9" ∷ []

abbrev or_self : String → Option String → String
or_self s none = s
or_self s (some rest) = rest

unfoldable pub normalize_namespace_zero_node_id : String → String
unfolding strip_prefix
normalize_namespace_zero_node_id node_id = or_self node_id (strip_prefix "ns=0;" node_id)

-- The `switch` of scalarSchema on a normalised id that is defined.
scalar_of : String → Option ScalarSchema
scalar_of id =
    if id == "i=1"
    then some boolean
    else if id == "i=12" || id == "i=21"
    then some text
    else if id == "i=13"
    then some date
    else if not (id == "") && has id numeric_data_type_node_ids
    then some number
    else none

unfoldable pub scalar_schema : Option String → Option ScalarSchema
unfolding scalar_of normalize_namespace_zero_node_id has
scalar_schema none = none
scalar_schema (some node_id) = scalar_of (normalize_namespace_zero_node_id node_id)

unfoldable pub is_dynamic_scalar_data_type : Option String → Bool
unfolding normalize_namespace_zero_node_id has
is_dynamic_scalar_data_type none = false
is_dynamic_scalar_data_type (some node_id) =
    let normalized = normalize_namespace_zero_node_id node_id in
    not (normalized == "") && has normalized dynamic_scalar_data_type_node_ids

abbrev digits_after : String → String → Bool
digits_after front node_id = elim (strip_prefix front node_id) [
  | none ↦ false
  | some s ↦ all_digits s
]

unfoldable pub is_namespace_zero_node_id : String → Bool
unfolding strip_prefix all_digits
is_namespace_zero_node_id node_id = digits_after "i=" node_id || digits_after "ns=0;i=" node_id

abbrev pub is_none {ℓ} : {A : Type ℓ} → Option A → Bool
is_none none = true
is_none (some _) = false

unfoldable pub requires_data_type_definition : String → Bool
unfolding is_namespace_zero_node_id scalar_schema is_dynamic_scalar_data_type
requires_data_type_definition id =
    not (id == "")
    && not (is_namespace_zero_node_id id)
    && is_none (scalar_schema (some id))
    && not (is_dynamic_scalar_data_type (some id))

unfoldable pub is_unsupported_array_rank : Option ℤ → Bool
is_unsupported_array_rank none = false
is_unsupported_array_rank (some rank) = leb_ℤ (pos 0) rank && not (eq_ℤ rank (pos 1))

-- typeFallbackSeverity
unfoldable pub type_fallback_severity : TypeFallback → Severity
type_fallback_severity fail = error
type_fallback_severity dynamic_codec = warning

tests :
    (requires_data_type_definition "ns=2;i=3001" ≡ true)
    × (requires_data_type_definition "ns=0;i=12" ≡ false)
    × (requires_data_type_definition "i=884" ≡ false)
    × (scalar_schema (some "ns=0;i=11") ≡ some number)
unfolding requires_data_type_definition scalar_schema
tests = (refl, refl, refl, refl)
