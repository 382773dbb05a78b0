-- ===== src/Codegen/Variables.antt =====
-- packages/codegen/src/compile/variables.ts: access and codec of every variable.
pub mod Permissions
use effect_opcua.Prelude.{
  String, Option, none, some, List, [], ◌∷◌, ◌++◌, Bool, true, false, not, ◌&&◌, ◌==◌,
  if◌then◌else◌,
}
use effect_opcua.Prelude.Sets.{has}
use effect_opcua.Prelude.Maps.{Map, get}
use effect_opcua.Prelude.Text.{◌<>◌}
use effect_opcua.Codegen.Issues.{
  Issue, IssueCode, Severity, issue, said, variable_not_accessible_skipped,
  codec_unsupported_array_rank, datatype_union_unsupported, codec_dynamic_fallback,
}
use effect_opcua.Codegen.Types.{
  DiscoveredNode, SurfaceNode, AccessBits, Access, read, write, read_write, VariableCodec,
  schema_codec, schema_array, enum_codec, enum_array, structure_codec, structure_array, dynamic,
  VariableDefinition, DefinitionResult, success, structure_definition, StructureDefinition,
  EnumDefinition, ScalarSchema, number, StructureType,
}
use effect_opcua.Codegen.BuiltinTypes.{
  is_unsupported_array_rank, scalar_schema, is_dynamic_scalar_data_type,
}
use effect_opcua.Codegen.Names.{display_path}
use effect_opcua.Codegen.Structures.Schema.{is_array_rank, rank_text}

-- The result of compileReachableTypes.
pub record TypeGraph : Type 0 where
  pub enums : Map EnumDefinition
  pub structures : Map StructureDefinition
  pub invalid_enums : List String
  pub invalid_structures : List String
  pub issues : List Issue

pub data AccessChoice : Type 0 where
  emit : Access → AccessChoice
  skip : AccessChoice

-- node.userAccessLevel ?? node.accessLevel
abbrev pub effective_access : DiscoveredNode → Option AccessBits
effective_access node = elim node.user_access_level [
  | none ↦ node.access_level
  | some bits ↦ some bits
]

access_of : Option AccessBits → AccessChoice
access_of none = emit read
access_of (some bits) =
    if not bits.readable && not bits.writable
    then skip
    else emit (if bits.writable then (if bits.readable then read_write else write) else read)

unfoldable pub variable_access : DiscoveredNode → AccessChoice
unfolding access_of
variable_access node = access_of (effective_access node)

-- `dataTypeNodeId ? table.get(dataTypeNodeId) : undefined`
abbrev pub get_if {ℓ} : {V : Type ℓ} → Option String → Map V → Option V
get_if none m = none
get_if (some id) m = if id == "" then none else get id m

abbrev has_if : Option String → List String → Bool
has_if none set = false
has_if (some id) set = not (id == "") && has id set

abbrev id_text : Option String → String
id_text none = "unknown"
id_text (some id) = id

-- result._tag === "Success" and the definition is a union
abbrev is_union_result : Option DefinitionResult → Bool
is_union_result (some (success (structure_definition s))) = elim s.structure_type [
  | StructureType.union ↦ true
  | _ ↦ false
]
is_union_result _ = false

module _ (severity : Severity) (graph : TypeGraph) (results : Map DefinitionResult)
    (node : DiscoveredNode) where
  abbrev is_array : Bool
  is_array = is_array_rank node.value_rank

  codec_issue : IssueCode → String → Option Issue
  codec_issue code text = some (issue code (record (said text) { severity = some severity }))

  dynamic_fallback : VariableCodec × Option Issue
  unfolding codec_issue
  dynamic_fallback = (
    dynamic,
    if is_union_result (get_if node.data_type_node_id results)
        then codec_issue datatype_union_unsupported
            ("Variable uses unsupported union DataType " <> id_text node.data_type_node_id)
        else codec_issue codec_dynamic_fallback (
            "Variable uses dynamic codec fallback for DataType " <> id_text node.data_type_node_id),
  )

  scalar_codec : Option ScalarSchema → VariableCodec × Option Issue
  unfolding dynamic_fallback
  scalar_codec (some s) = (if is_array then schema_array s else schema_codec s, none)
  scalar_codec none =
      if is_dynamic_scalar_data_type node.data_type_node_id
      then (dynamic, none)
      else dynamic_fallback

  enum_or_scalar : Option EnumDefinition → VariableCodec × Option Issue
  unfolding scalar_codec
  enum_or_scalar (some e) = (if is_array then enum_array e.name else enum_codec e.name, none)
  enum_or_scalar none =
      if has_if node.data_type_node_id graph.invalid_enums
      then (if is_array then schema_array number else schema_codec number, none)
      else scalar_codec (scalar_schema node.data_type_node_id)

  structure_or_enum : Option StructureDefinition → VariableCodec × Option Issue
  unfolding enum_or_scalar
  structure_or_enum (some s) =
      (if is_array then structure_array s.name else structure_codec s.name, none)
  structure_or_enum none = enum_or_scalar (get_if node.data_type_node_id graph.enums)

  unfoldable pub variable_codec : VariableCodec × Option Issue
  unfolding structure_or_enum codec_issue
  variable_codec =
      if is_unsupported_array_rank node.value_rank
      then (
        dynamic,
        codec_issue codec_unsupported_array_rank
            ("Variable has unsupported array rank " <> rank_text node.value_rank),
      )
      else structure_or_enum (get_if node.data_type_node_id graph.structures)

-- What the loop pushes.
pub record Variables : Type 0 where
  pub variables : List VariableDefinition
  pub issues : List Issue

module _ (severity : Severity) (graph : TypeGraph) (results : Map DefinitionResult) where
  -- { ...codec.issue, path, generatedPath, nodeId }
  abbrev located : SurfaceNode → Option Issue → List Issue
  located v none = []
  located v (some i) =
      record i {
        path = some v.path;
        generated_path = some v.generated_path;
        node_id = some v.node.node_id;
      }
      ∷ []

  skipped_issue : SurfaceNode → Issue
  unfolding display_path
  skipped_issue v =
      issue variable_not_accessible_skipped
        (record (said ("Skipped not-accessible variable " <> display_path v.path)) {
          path = some v.path;
          generated_path = some v.generated_path;
          node_id = some v.node.node_id;
        })

  add_variable : Variables → SurfaceNode → AccessChoice → Variables
  unfolding skipped_issue
  add_variable out v skip = record out { issues = out.issues ++ skipped_issue v ∷ [] }
  add_variable out v (emit access) =
      let codec = variable_codec severity graph results v.node in
      record {
        issues = out.issues ++ located v codec.1;
        variables =
            out.variables
            ++ record {
              path = v.path;
              generated_path = v.generated_path;
              node_id = v.node.node_id;
              codec = codec.0;
              access = access;
            }
              ∷ [];
      }

  compile_from : Variables → List SurfaceNode → Variables
  unfolding add_variable
  compile_from out [] = out
  compile_from out (v ∷ vs) = compile_from (add_variable out v (variable_access v.node)) vs

  unfoldable pub compile_variables : List SurfaceNode → Variables
  unfolding compile_from
  compile_variables = compile_from (record { variables = []; issues = [] })
