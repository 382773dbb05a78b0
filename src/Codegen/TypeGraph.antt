-- ===== src/Codegen/TypeGraph.antt =====
-- packages/codegen/src/compile/type-graph.ts: the worklist over the data types that the variables
-- reach. Each round takes one id off the queue; `out_of_fuel` is the model's own.
pub mod Work
pub mod Correct
use effect_opcua.Prelude.{
  ℕ, zero, suc, ◌+◌, String, Option, none, some, List, [], ◌∷◌, ◌++◌, map, filter, length, flat_map,
  if◌then◌else◌,
}
use effect_opcua.Prelude.Sets.{has, add}
use effect_opcua.Prelude.Maps.{Map, get, set}
use effect_opcua.Prelude.Text.{◌<>◌}
use effect_opcua.Codegen.Issues.{
  Severity, Issue, IssueCode, issue, said, datatype_definition_missing,
  datatype_definition_unsupported, datatype_definition_failure,
}
use effect_opcua.Codegen.Types.{
  DataTypeDefinition, structure_definition, enum_definition, DefinitionResult, success, missing,
  unsupported, failure, StructureField, SurfaceNode,
}
use effect_opcua.Codegen.BuiltinTypes.{requires_data_type_definition}

-- The variables of the loop.
pub record Walk : Type 0 where
  pub queue : List String
  pub seen : List String
  pub definitions : Map DataTypeDefinition
  pub issues : List Issue

pub data Outcome : Type 0 where
  done : Walk → Outcome
  out_of_fuel : Outcome

-- The ids that a definition adds to the queue.
unfoldable pub dependencies : DataTypeDefinition → List String
dependencies (structure_definition s) =
    filter requires_data_type_definition
      (map (λ (f : StructureField). f.data_type_node_id) s.fields)
dependencies (enum_definition e) = []

module _ (severity : Severity) where
  definition_issue : IssueCode → String → String → Issue
  definition_issue code id text =
      issue code (record (said text) { severity = some severity; node_id = some id })

  -- What a round does with an id that was not seen before, by the result that was read for it.
  unfoldable pub visit : String → Option DefinitionResult → Walk → Walk
  unfolding definition_issue
  visit id none w = record w {
    issues =
        w.issues
        ++ definition_issue datatype_definition_missing id ("Missing DataTypeDefinition for " <> id)
          ∷ [];
  }
  visit id (some (missing reason)) w = record w {
    issues =
        w.issues
        ++ definition_issue datatype_definition_missing id
            ("Missing DataTypeDefinition for " <> (id <> (": " <> reason)))
          ∷ [];
  }
  visit id (some (unsupported reason)) w = record w {
    issues =
        w.issues
        ++ definition_issue datatype_definition_unsupported id
            ("Unsupported DataTypeDefinition for " <> (id <> (": " <> reason)))
          ∷ [];
  }
  visit id (some (failure reason)) w = record w {
    issues =
        w.issues
        ++ definition_issue datatype_definition_failure id
            ("Failed to read DataTypeDefinition for " <> (id <> (": " <> reason)))
          ∷ [];
  }
  visit id (some (success definition)) w = record w {
    definitions = set id definition w.definitions;
    queue = w.queue ++ dependencies definition;
  }

  module _ (results : Map DefinitionResult) where
    -- One round, after `id` left the head of the queue.
    unfoldable pub round : String → List String → Walk → Walk
    unfolding visit
    round id rest w =
        let popped = record w { queue = rest } in
        if has id w.seen
        then popped
        else visit id (get id results) (record popped { seen = add id w.seen })

    unfoldable pub walk : ℕ → Walk → Outcome
    walk zero w = elim w.queue [ [] ↦ done w | _ ∷ _ ↦ out_of_fuel ]
    walk (suc fuel) w = elim w.queue [ [] ↦ done w | id ∷ rest ↦ walk fuel (round id rest w) ]

-- The ids that the fields of one result may add.
abbrev pub width : DefinitionResult → ℕ
width (success definition) = length (dependencies definition)
width _ = 0

unfoldable pub total_width : Map DefinitionResult → ℕ
total_width [] = 0
total_width ((_, r) ∷ results) = width r + total_width results

abbrev data_type_ids : List SurfaceNode → List String
data_type_ids =
    flat_map (λ (v : SurfaceNode). elim v.node.data_type_node_id [ none ↦ [] | some id ↦ id ∷ [] ])

-- The queue before the first round.
unfoldable pub roots : List SurfaceNode → List String
roots variables = filter requires_data_type_definition (data_type_ids variables)

abbrev pub start : List String → Walk
start queue = record { queue = queue; seen = []; definitions = []; issues = [] }

-- reachableDefinitions, with the issues that it pushes
unfoldable pub reachable_definitions : Severity → List SurfaceNode → Map DefinitionResult → Outcome
unfolding walk round roots total_width
reachable_definitions severity variables results =
    walk severity results (length (roots variables) + total_width results) (start (roots variables))
