-- ===== src/Codegen/Types.antt =====
-- packages/codegen/src/internal/types.ts, and the data type definitions that the client returns
-- (packages/client/src/OpcuaSession.ts). An optional property is an `Option`.
use effect_opcua.Prelude.{ℕ, String, Bool, Option, List}
use effect_opcua.Prelude.Int.{ℤ}
use effect_opcua.Codegen.Issues.{Issue}

pub data StructureType : Type 0 where
  structure structure_with_optional_fields union unknown : StructureType

pub record StructureField : Type 0 where
  pub name : String
  pub data_type_node_id : String
  pub value_rank : Option ℤ
  pub is_optional : Option Bool

pub record OpcuaStructure : Type 0 where
  pub name : String
  pub structure_type : StructureType
  pub fields : List StructureField

pub record EnumField : Type 0 where
  pub name : String
  pub value : ℤ

pub record OpcuaEnum : Type 0 where
  pub name : String
  pub fields : List EnumField

pub data DataTypeDefinition : Type 0 where
  structure_definition : OpcuaStructure → DataTypeDefinition
  enum_definition : OpcuaEnum → DataTypeDefinition

-- The four cases carry `dataTypeNodeId` too, which is the key of the map they are read from.
pub data DefinitionResult : Type 0 where
  success : DataTypeDefinition → DefinitionResult
  missing unsupported failure : String → DefinitionResult

pub data ScalarSchema : Type 0 where
  boolean number text date : ScalarSchema

-- SchemaExpression without its arrays, and with them: an array holds no array.
pub data ItemSchema : Type 0 where
  scalar : ScalarSchema → ItemSchema
  enum_ref structure_ref : String → ItemSchema
  unknown_schema : ItemSchema

pub data SchemaExpression : Type 0 where
  item : ItemSchema → SchemaExpression
  array_of : ItemSchema → SchemaExpression

pub record StructureFieldDefinition : Type 0 where
  pub name : String
  pub encoded_name : String
  pub original_name : String
  pub schema : SchemaExpression
  pub optional : Bool

pub record StructureDefinition : Type 0 where
  pub name : String
  pub data_type_node_id : String
  pub browse_name : String
  pub fields : List StructureFieldDefinition

pub record EnumMember : Type 0 where
  pub name : String
  pub value : ℤ

pub record EnumDefinition : Type 0 where
  pub name : String
  pub data_type_node_id : String
  pub browse_name : String
  pub members : List EnumMember

pub record AccessBits : Type 0 where
  pub readable : Bool
  pub writable : Bool

pub data NodeClass : Type 0 where
  object variable method data_type object_type variable_type reference_type : NodeClass

-- The properties of DiscoveredNode that the compiler reads.
pub record DiscoveredNode : Type 0 where
  pub node_id : String
  pub path : List String
  pub node_class : NodeClass
  pub data_type_node_id : Option String
  pub value_rank : Option ℤ
  pub access_level : Option AccessBits
  pub user_access_level : Option AccessBits
  pub root_index : Option ℕ

pub record DiscoveredRoot : Type 0 where
  pub root_index : ℕ
  pub path : List String
  pub export_prefix : Option String

-- A discovered node with its path below the root and the sanitised path.
pub record SurfaceNode : Type 0 where
  pub node : DiscoveredNode
  pub path : List String
  pub generated_path : List String

pub data VariableCodec : Type 0 where
  schema_codec schema_array : ScalarSchema → VariableCodec
  enum_codec enum_array structure_codec structure_array : String → VariableCodec
  dynamic : VariableCodec

pub data Access : Type 0 where
  read write read_write : Access

pub record VariableDefinition : Type 0 where
  pub path : List String
  pub generated_path : List String
  pub node_id : String
  pub codec : VariableCodec
  pub access : Access

pub record NodeIdDefinition : Type 0 where
  pub node_id : String
  pub path : List String
  pub generated_path : List String

pub record DataTypeNodeIdDefinition : Type 0 where
  pub node_id : String
  pub name : String

pub record CodegenModel : Type 0 where
  pub node_ids : List NodeIdDefinition
  pub data_type_node_ids : List DataTypeNodeIdDefinition
  pub variables : List VariableDefinition
  pub enums : List EnumDefinition
  pub structures : List StructureDefinition
  pub issues : List Issue

-- config.diagnostics.typeFallback
pub data TypeFallback : Type 0 where
  fail dynamic_codec : TypeFallback
