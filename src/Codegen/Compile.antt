-- ===== src/Codegen/Compile.antt =====
-- packages/codegen/src/compile.ts, with compileReachableTypes of compile/type-graph.ts and sortIssues
-- of diagnostics.ts.
pub mod Fatal
pub mod Policy
use Prim.Native.Nat.{Ordering}
use effect_opcua.Prelude.{
  ℕ, String, Option, none, some, List, [], ◌∷◌, ◌++◌, filter, Bool, true, false, nat_eq, leb, any,
  if◌then◌else◌,
}
use effect_opcua.Prelude.Maps.{Map, set}
use effect_opcua.Prelude.Sort.{sort}
use effect_opcua.Codegen.Issues.{Severity, info, warning, error, Issue, IssueCode, is_error}
use effect_opcua.Codegen.Types.{
  DiscoveredNode, DiscoveredRoot, SurfaceNode, NodeClass, DefinitionResult, TypeFallback,
  CodegenModel,
}
use effect_opcua.Codegen.BuiltinTypes.{type_fallback_severity}
use effect_opcua.Codegen.Names.{display_path}
use effect_opcua.Codegen.Names.Surface.{surface_nodes, path_issues}
use effect_opcua.Codegen.TypeGraph.{Walk, Outcome, done, out_of_fuel, start, reachable_definitions}
use effect_opcua.Codegen.Enums.{compile_enums}
use effect_opcua.Codegen.Structures.Emit.{compile_structures}
use effect_opcua.Codegen.Variables.{TypeGraph, Variables, compile_variables}
use effect_opcua.Codegen.Assemble.{model_issues, assemble_model}

-- The properties of DiscoveryModel that the compiler reads.
pub record Discovery : Type 0 where
  pub roots : List DiscoveredRoot
  pub nodes : List DiscoveredNode
  pub data_type_definitions : List (String × DefinitionResult)
  pub issues : List Issue

-- What the compiler is given by the platform: localeCompare, the order of `sort()`, toLowerCase and
-- `split(".")`; and the text of an issue's code.
pub record Platform : Type 0 where
  pub locale_compare : String → String → Ordering
  pub text_le : String → String → Bool
  pub lower_case : String → String
  pub split_key : String → List String
  pub code_text : IssueCode → String

severity_rank : Severity → ℕ
severity_rank error = 0
severity_rank warning = 1
severity_rank info = 2

-- A chain of comparisons: the first that is not zero decides.
abbrev then_compare : Ordering → Bool → Bool
then_compare Ordering.lt rest = true
then_compare Ordering.eq rest = rest
then_compare Ordering.gt rest = false

abbrev path_text : Option (List String) → String
path_text none = ""
path_text (some path) = display_path path

abbrev text_or_empty : Option String → String
text_or_empty none = ""
text_or_empty (some s) = s

module _ (p : Platform) where
  issue_le : Issue → Issue → Bool
  unfolding severity_rank display_path
  issue_le a b =
      if nat_eq (severity_rank a.severity) (severity_rank b.severity)
      then then_compare (p.locale_compare (path_text a.path) (path_text b.path)) (
          then_compare (p.locale_compare (path_text a.generated_path) (path_text b.generated_path))
            (then_compare (p.locale_compare (text_or_empty a.file) (text_or_empty b.file)) (
              then_compare (p.locale_compare (p.code_text a.code) (p.code_text b.code)) (
                then_compare (p.locale_compare (text_or_empty a.node_id) (text_or_empty b.node_id))
                  (then_compare (p.locale_compare a.message b.message) true)))))
      else leb (severity_rank a.severity) (severity_rank b.severity)

  unfoldable pub sort_issues : List Issue → List Issue
  unfolding issue_le sort
  sort_issues = sort issue_le

-- Compiled, or refused with the issues of the error.
pub data Result : Type 0 where
  compiled : CodegenModel → Result
  refused : List Issue → Result

-- issues.some((item) => item.severity === "error")
abbrev pub some_error : List Issue → Bool
some_error = any (λ (i : Issue). is_error i.severity)

-- dataTypeResultMap
unfoldable pub data_type_result_map :
    List (String × DefinitionResult) → Map DefinitionResult → Map DefinitionResult
data_type_result_map [] m = m
data_type_result_map ((id, r) ∷ results) m = data_type_result_map results (set id r m)

-- The loop ends within its fuel, so the second case is never met.
abbrev pub walk_of : Outcome → Walk
walk_of (done w) = w
walk_of out_of_fuel = start []

unfoldable pub compile_reachable_types :
    Platform → TypeFallback → List SurfaceNode → Map DefinitionResult → TypeGraph
compile_reachable_types p fallback variables results =
    let w = walk_of (reachable_definitions (type_fallback_severity fallback) variables results) in
    let e = compile_enums p.locale_compare w.definitions in
    let s = compile_structures p.lower_case fallback w.definitions e in
    record {
      enums = e.enums;
      structures = s.structures;
      invalid_enums = e.invalid_enums;
      invalid_structures = s.invalid_structures;
      issues = w.issues ++ (e.issues ++ s.issues);
    }

abbrev is_variable : SurfaceNode → Bool
is_variable item = elim item.node.node_class [ NodeClass.variable ↦ true | _ ↦ false ]

module _ (p : Platform) (fallback : TypeFallback) where
  -- From the second check of the issues on.
  finish : List Issue → TypeGraph → Variables → Result
  finish issues graph out =
      let all =
        issues ++ (graph.issues ++ (out.issues ++ model_issues p.split_key out.variables graph)) in
      if some_error all
      then refused (sort_issues p all)
      else compiled
          (assemble_model p.locale_compare p.text_le out.variables graph (sort_issues p all))

  -- The types, the variables, and the second check.
  compile_checked : List Issue → List SurfaceNode → Map DefinitionResult → Result
  unfolding finish
  compile_checked issues variables results =
      let graph = compile_reachable_types p fallback variables results in
      finish issues graph
        (compile_variables (type_fallback_severity fallback) graph results variables)

  -- failOnFatalIssues on the issues of the discovery and of the paths, then the rest.
  compile_nodes : Discovery → List SurfaceNode → Result
  unfolding compile_checked
  compile_nodes d nodes =
      let issues = d.issues ++ path_issues nodes in
      if some_error issues
      then refused (sort_issues p issues)
      else compile_checked issues (filter is_variable nodes)
          (data_type_result_map d.data_type_definitions [])

  unfoldable pub compile : Discovery → Result
  unfolding compile_nodes
  compile d = compile_nodes d (surface_nodes p.locale_compare d.roots d.nodes)
