-- ===== src/Client/Metadata/Nodes/Attributes.antt =====
-- packages/client/src/internal/metadata/service.ts, for `nodes`: the metadata of one node from the values of
-- its attributes.
use Prim.Native.Nat.{bit_and}
use effect_opcua.Prelude.{
  ℕ, zero, suc, ◌-◌, String, Option, none, some, List, [], ◌∷◌, Bool, true, false, not, nat_eq,
  get_elem?, if◌then◌else◌,
}
use effect_opcua.Prelude.Int.{ℤ, pos, negsuc}
use effect_opcua.Prelude.Maps.{Map, get, set}
use effect_opcua.Client.Effect.{Exit}
use effect_opcua.Client.Access.{AccessLevelFlag}

-- The value of an attribute, by what the code can see of it.
pub data Value : Type 0 where
  number : ℤ → Value
  numbers : List ℤ → Value
  qualified_name : Option ℕ → Option String → Value
  localized_text : Option String → Value
  node_id_value : String → Value
  absent other_value : Value

pub record DataValue : Type 0 where
  pub status_code : ℕ
  pub value : Value

pub record AccessBits : Type 0 where
  pub readable : Bool
  pub writable : Bool

pub record NodeMetadata : Type 0 where
  pub node_id : String
  pub node_class : String
  pub browse_name : String
  pub browse_name_namespace_index : ℕ
  pub display_name : Option String
  pub description : Option String
  pub data_type : Option String
  pub value_rank : Option ℤ
  pub array_dimensions : Option (List ℤ)
  pub access_level : Option AccessBits
  pub user_access_level : Option AccessBits
  pub namespace_index : ℕ
  pub namespace_uri : Option String

pub data ReadFailure : Type 0 where
  non_good_status : String → ℕ → ReadFailure
  invalid_value : String → String → ReadFailure

pub data NodeResult : Type 0 where
  success : String → NodeMetadata → NodeResult
  failure : String → ReadFailure → NodeResult

pub data NodesError (Cause : Type 0) : Type 0 where
  service : Cause → NodesError Cause
  expected_values : ℕ → ℕ → NodesError Cause

-- What node-opcua and the server give. `namespace_of` is the namespace of the parsed node id, `read` the
-- read of attributes, which are named with their node.
pub record Session (Cause : Type 0) : Type 0 where
  pub is_good : ℕ → Bool
  pub bad_internal_error : ℕ
  pub flags : AccessLevelFlag
  pub node_class_text : ℤ → String
  pub namespace_of : String → ℕ
  pub read : List (String × String) → Exit Cause (List DataValue)

abbrev pub metadata_attributes : List String
metadata_attributes =
    "NodeClass" ∷ "BrowseName" ∷ "DisplayName" ∷ "Description" ∷ "DataType" ∷ "ValueRank"
    ∷ "ArrayDimensions" ∷ "AccessLevel" ∷ "UserAccessLevel" ∷ []

abbrev pub required_metadata_attributes : List String
required_metadata_attributes = "NodeClass" ∷ "BrowseName" ∷ []

abbrev pub max_metadata_nodes_per_read : ℕ
max_metadata_nodes_per_read = 50

-- `value & flag` on a number and a flag: the digits of -(n + 1) are those that n does not have.
and_flag : ℤ → ℕ → ℕ
and_flag (pos n) flag = bit_and n flag
and_flag (negsuc n) flag = flag - bit_and n flag

-- JavaScript's truth of a value
is_truthy : Value → Bool
is_truthy absent = false
is_truthy (number (pos zero)) = false
is_truthy _ = true

-- normalizeQualifiedName and normalizeLocalizedText
qualified : Value → ℕ × String
qualified (qualified_name i n) =
    (elim i [ none ↦ 0 | some k ↦ k ], elim n [ none ↦ "" | some s ↦ s ])
qualified _ = (0, "")

text_of : Value → String
text_of (localized_text (some s)) = s
text_of _ = ""

number_of : Value → Option ℤ
number_of (number n) = some n
number_of _ = none

numbers_of : Value → Option (List ℤ)
numbers_of (numbers ns) = some ns
numbers_of _ = none

node_id_of : Value → Option String
node_id_of (node_id_value s) = some s
node_id_of _ = none

module _ {Cause : Type 0} (session : Session Cause) where
  -- !dataValue || !isGood(dataValue.statusCode): otherwise its value
  good_value : Option DataValue → Option Value
  good_value none = none
  good_value (some v) = if session.is_good v.status_code then some v.value else none

  abbrev when_good : {A : Type 0} → (Value → Option A) → Option DataValue → Option A
  unfolding good_value
  when_good f v = elim (good_value v) [ none ↦ none | some w ↦ f w ]

  abbrev some_text : Value → Option String
  unfolding is_truthy text_of
  some_text w = if is_truthy w then some (text_of w) else none

  bits_of : ℤ → AccessBits
  unfolding and_flag
  bits_of n = record {
    readable = not (nat_eq (and_flag n session.flags.current_read) 0);
    writable = not (nat_eq (and_flag n session.flags.current_write) 0);
  }

  unfoldable pub access_bits : Option DataValue → Option AccessBits
  unfolding when_good number_of bits_of
  access_bits v = elim (when_good number_of v) [ none ↦ none | some n ↦ some (bits_of n) ]

  -- The value of an attribute, or undefined.
  abbrev pub value_of : Option DataValue → Value
  value_of none = absent
  value_of (some v) = v.value

  check_required : Option DataValue → String → Option ReadFailure → Option ReadFailure
  check_required none attribute rest = some (non_good_status attribute session.bad_internal_error)
  check_required (some v) attribute rest =
      if session.is_good v.status_code then rest else some (non_good_status attribute v.status_code)

  -- The loop over the required attributes, and what comes after it.
  failures_from : Map DataValue → Option ReadFailure → List String → Option ReadFailure
  unfolding check_required
  failures_from values last [] = last
  failures_from values last (attribute ∷ attributes) =
      check_required (get attribute values) attribute (failures_from values last attributes)

  check_browse_name : Value → Option ReadFailure
  unfolding is_truthy
  check_browse_name v =
      if is_truthy v then none else some (invalid_value "BrowseName" "BrowseName value is missing")

  check_values : Value → Value → Option ReadFailure
  unfolding check_browse_name
  check_values (number n) browse_name = check_browse_name browse_name
  check_values _ browse_name = some (invalid_value "NodeClass" "NodeClass value is not numeric")

  unfoldable pub metadata_failure : Map DataValue → Option ReadFailure
  unfolding failures_from check_values
  metadata_failure values =
      failures_from values
        (check_values (value_of (get "NodeClass" values)) (value_of (get "BrowseName" values)))
        required_metadata_attributes

  class_text : Value → String
  class_text (number n) = session.node_class_text n
  class_text _ = ""

  unfoldable pub node_metadata_from_values :
      String → ℕ → Option String → Map DataValue → NodeMetadata
  unfolding class_text qualified some_text node_id_of number_of numbers_of access_bits when_good
  node_metadata_from_values node_id namespace_index namespace_uri values =
      let (index, name) = qualified (value_of (get "BrowseName" values)) in
      record {
        node_id = node_id;
        node_class = class_text (value_of (get "NodeClass" values));
        browse_name = name;
        browse_name_namespace_index = index;
        display_name = when_good some_text (get "DisplayName" values);
        description = when_good some_text (get "Description" values);
        data_type = when_good node_id_of (get "DataType" values);
        value_rank = when_good number_of (get "ValueRank" values);
        array_dimensions = when_good numbers_of (get "ArrayDimensions" values);
        access_level = access_bits (get "AccessLevel" values);
        user_access_level = access_bits (get "UserAccessLevel" values);
        namespace_index = namespace_index;
        namespace_uri = namespace_uri;
      }

  -- The result of one entry of the plan.
  unfoldable pub node_result : List String → String → Map DataValue → NodeResult
  unfolding metadata_failure node_metadata_from_values
  node_result namespace_uris node_id values =
      let namespace = session.namespace_of node_id in
      elim (metadata_failure values) [
        | some reason ↦ failure node_id reason
        | none ↦ success node_id (
            node_metadata_from_values node_id namespace (get_elem? namespace_uris namespace) values)
      ]

  -- A missing value reads as one that is not set.
  abbrev pub set_value : String → Option DataValue → Map DataValue → Map DataValue
  set_value attribute none m = m
  set_value attribute (some v) m = set attribute v m

  -- for (const [attribute] of metadataAttributes) valuesByAttribute.set(attribute, values[offset++])
  unfoldable pub collect : List DataValue → ℕ → List String → Map DataValue → Map DataValue × ℕ
  collect values offset [] m = (m, offset)
  collect values offset (attribute ∷ attributes) m =
      collect values (suc offset) attributes (set_value attribute (get_elem? values offset) m)

  -- The values of one entry of the plan, and the offset after them.
  unfoldable pub entry_values : List DataValue → ℕ → Map DataValue × ℕ
  unfolding collect
  entry_values values offset = collect values offset metadata_attributes []
