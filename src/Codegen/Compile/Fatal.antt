-- ===== src/Codegen/Compile/Fatal.antt =====
-- What compile does with the issues that are errors.
use mathlib.Core.List.Perm
use mathlib.Core.List.Memᴰ
use effect_opcua.Prelude.{
  List, [], ◌++◌, filter, Bool, true, false, any-append, if◌then◌else◌, ◌≡◌, refl, ◌∙◌, arith, Memᴰ,
}
use effect_opcua.Prelude.Maps.{Map}
use effect_opcua.Prelude.Sort.{sort, any-sort, mem-sort, sort-mem, sort-perm}
use effect_opcua.Codegen.Issues.{Issue, is_error}
use effect_opcua.Codegen.Types.{SurfaceNode, DefinitionResult, TypeFallback, VariableDefinition}
use effect_opcua.Codegen.Variables.{TypeGraph, Variables, compile_variables}
use effect_opcua.Codegen.Assemble.{assemble_model, model_issues}
use effect_opcua.Codegen.Assemble.Paths.{key_of, HasFreePaths, model_issues-HasFreePaths}
use effect_opcua.Codegen.Compile.{
  Platform, Discovery, Result, compiled, refused, some_error, sort_issues, finish, compile,
  compile_nodes, compile_checked, compile_reachable_types, is_variable, data_type_result_map,
}
use effect_opcua.Codegen.Names.Surface.{path_issues}
use effect_opcua.Codegen.BuiltinTypes.{type_fallback_severity}

module _ (p : Platform) where
  some_error-sort_issues : (is : List Issue) → some_error (sort_issues p is) ≡ some_error is
  unfolding sort_issues
  some_error-sort_issues is = any-sort _ _ is

-- What a result says of the issues it carries.
abbrev pub Consistent : Result → Type 0
Consistent (compiled m) = (some_error m.issues ≡ false) × HasFreePaths m.variables
Consistent (refused is) = some_error is ≡ true

some_error-append :
    (is js : List Issue)
    → some_error (is ++ js) ≡ false
    → (some_error is ≡ false) × (some_error js ≡ false)
some_error-append is js h = ground (arith, any-append (λ (i : Issue). is_error i.severity) is js)

HasFreePaths-sort :
    (le : VariableDefinition → VariableDefinition → Bool) (vs : List VariableDefinition)
    → HasFreePaths vs
    → HasFreePaths (sort le vs)
HasFreePaths-sort le vs h = record {
  distinct = (Perm.Nodup-iff (Perm.map key_of (sort-perm le vs))).1 h.distinct;
  leaves = λ v w n hv hw. h.leaves v w n (mem-sort le vs hv) (mem-sort le vs hw);
}

some_error-assemble_model :
    (p : Platform) (vs : List VariableDefinition) (graph : TypeGraph) (is : List Issue)
    → some_error is ≡ false
    → some_error (assemble_model p.locale_compare p.text_le vs graph (sort_issues p is)).issues
      ≡ false
unfolding assemble_model
some_error-assemble_model p vs graph is h = some_error-sort_issues p is ∙ h

HasFreePaths-assemble_model :
    (p : Platform) (vs : List VariableDefinition) (graph : TypeGraph) (is : List Issue)
    → HasFreePaths vs
    → HasFreePaths (assemble_model p.locale_compare p.text_le vs graph is).variables
unfolding assemble_model
HasFreePaths-assemble_model p vs graph is h = HasFreePaths-sort _ vs h

-- A property of results that holds in both cases of a test holds of the conditional.
if-elim :
    (P : Result → Type 0) (b : Bool) (r s : Result)
    → (b ≡ true → P r)
    → (b ≡ false → P s)
    → P (if b then r else s)
if-elim P true r s on_true on_false = on_true refl
if-elim P false r s on_true on_false = on_false refl

Consistent-finish :
    (p : Platform) (fallback : TypeFallback) (is : List Issue) (graph : TypeGraph) (out : Variables)
    → Consistent (finish p fallback is graph out)
unfolding finish
Consistent-finish p fallback is graph out =
    let found = model_issues p.split_key out.variables graph in
    let all = is ++ (graph.issues ++ (out.issues ++ found)) in
    if-elim Consistent (some_error all) _ _ (λ h. some_error-sort_issues p all ∙ h)
      (λ h. (
        some_error-assemble_model p out.variables graph all h,
        HasFreePaths-assemble_model p out.variables graph (sort_issues p all) (
            model_issues-HasFreePaths p.split_key out.variables graph
              (some_error-append out.issues found
                (some_error-append graph.issues (out.issues ++ found)
                  (some_error-append is (graph.issues ++ (out.issues ++ found)) h).1).1).1),
      ))

-- failOnFatalIssues, then the rest.
Consistent-refused :
    (p : Platform) (is : List Issue) (rest : Result)
    → Consistent rest
    → Consistent (if some_error is then refused (sort_issues p is) else rest)
Consistent-refused p is rest h =
    if-elim Consistent (some_error is) _ rest (λ e. some_error-sort_issues p is ∙ e) (λ e. h)

Consistent-compile_checked :
    (p : Platform) (fallback : TypeFallback) (is : List Issue) (vs : List SurfaceNode)
    (results : Map DefinitionResult)
    → Consistent (compile_checked p fallback is vs results)
unfolding compile_checked
Consistent-compile_checked p fallback is vs results =
    let graph = compile_reachable_types p fallback vs results in
    Consistent-finish p fallback is graph
      (compile_variables (type_fallback_severity fallback) graph results vs)

Consistent-compile_nodes :
    (p : Platform) (fallback : TypeFallback) (d : Discovery) (nodes : List SurfaceNode)
    → Consistent (compile_nodes p fallback d nodes)
unfolding compile_nodes
Consistent-compile_nodes p fallback d nodes =
    let issues = d.issues ++ path_issues nodes in
    Consistent-refused p issues
      (compile_checked p fallback issues (filter is_variable nodes)
        (data_type_result_map d.data_type_definitions []))
      (Consistent-compile_checked p fallback issues _ _)

-- compile gives a model only where no issue that it carries is an error and the paths of its
-- variables are free of collisions, and it refuses only where an issue that it reports is an error.
pub compile-Consistent :
    (p : Platform) (fallback : TypeFallback) (d : Discovery) → Consistent (compile p fallback d)
unfolding compile
compile-Consistent p fallback d = Consistent-compile_nodes p fallback d _

-- The issues of a result: those of the model, or those of the error.
abbrev pub issues_of : Result → List Issue
issues_of (compiled m) = m.issues
issues_of (refused is) = is

abbrev Reports : Issue → Result → Type 0
Reports i r = Memᴰ i (issues_of r)

module _ (p : Platform) where
  mem-sort_issues : {i : Issue} (is : List Issue) → Memᴰ i is → Memᴰ i (sort_issues p is)
  unfolding sort_issues
  mem-sort_issues is h = sort-mem _ is h

  Reports-refused :
      {i : Issue} (is : List Issue) (rest : Result)
      → Memᴰ i is
      → Reports i rest
      → Reports i (if some_error is then refused (sort_issues p is) else rest)
  Reports-refused {i} is rest here h =
      if-elim (Reports i) (some_error is) _ rest (λ e. mem-sort_issues is here) (λ e. h)

  Reports-assemble_model :
      {i : Issue} (vs : List VariableDefinition) (graph : TypeGraph) (is : List Issue)
      → Memᴰ i is
      → Memᴰ i (assemble_model p.locale_compare p.text_le vs graph (sort_issues p is)).issues
  unfolding assemble_model
  Reports-assemble_model vs graph is h = mem-sort_issues is h

  Reports-finish :
      {i : Issue} (fallback : TypeFallback) (is : List Issue) (graph : TypeGraph) (out : Variables)
      → Memᴰ i is
      → Reports i (finish p fallback is graph out)
  unfolding finish
  Reports-finish fallback is graph out h =
      let all =
        is ++ (graph.issues ++ (out.issues ++ model_issues p.split_key out.variables graph)) in
      let found = Memᴰ.append_left _ h in
      Reports-refused all _ found (Reports-assemble_model out.variables graph all found)

  Reports-compile_checked :
      {i : Issue} (fallback : TypeFallback) (is : List Issue) (vs : List SurfaceNode)
      (results : Map DefinitionResult)
      → Memᴰ i is
      → Reports i (compile_checked p fallback is vs results)
  unfolding compile_checked
  Reports-compile_checked fallback is vs results h =
      let graph = compile_reachable_types p fallback vs results in
      Reports-finish fallback is graph
        (compile_variables (type_fallback_severity fallback) graph results vs) h

  Reports-compile_nodes :
      (fallback : TypeFallback) (d : Discovery) (nodes : List SurfaceNode) (i : Issue)
      → Memᴰ i d.issues
      → Reports i (compile_nodes p fallback d nodes)
  unfolding compile_nodes
  Reports-compile_nodes fallback d nodes i h =
      let issues = d.issues ++ path_issues nodes in
      let found = Memᴰ.append_left (path_issues nodes) h in
      Reports-refused issues
        (compile_checked p fallback issues (filter is_variable nodes)
          (data_type_result_map d.data_type_definitions []))
        found (Reports-compile_checked fallback issues _ _ found)

-- No issue of the discovery is lost: the model or the error carries it.
pub compile-Reports :
    (p : Platform) (fallback : TypeFallback) (d : Discovery) (i : Issue)
    → Memᴰ i d.issues
    → Memᴰ i (issues_of (compile p fallback d))
unfolding compile
compile-Reports p fallback d i h = Reports-compile_nodes p fallback d _ i h
