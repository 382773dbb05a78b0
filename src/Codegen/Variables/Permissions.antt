-- ===== src/Codegen/Variables/Permissions.antt =====
-- Which variables compileVariables gives out, and with which access.
use mathlib.Core.List.{append-nil, append_assoc}
use mathlib.Core.List.Memᴰ
use effect_opcua.Prelude.{
  Option, none, some, List, [], ◌∷◌, ◌++◌, flat_map, Bool, true, false, not, ◌&&◌, if◌then◌else◌,
  ◌≡◌, refl, sym, ap, ◌∙◌, subst, ◌⊎◌, inl, inr, ⊎_elim, Memᴰ, mem-nil, mem-flat_map, flat_map-mem,
}
use effect_opcua.Prelude.Maps.{Map}
use effect_opcua.Codegen.Issues.{Issue, Severity, variable_not_accessible_skipped, issue}
use effect_opcua.Codegen.Types.{
  SurfaceNode, DiscoveredNode, AccessBits, Access, read, write, read_write, VariableDefinition,
  DefinitionResult,
}
use effect_opcua.Codegen.Variables.{
  TypeGraph, AccessChoice, emit, skip, effective_access, access_of, variable_access, Variables,
  add_variable, compile_from, compile_variables, skipped_issue,
}

abbrev pub reads : Access → Bool
reads write = false
reads _ = true

abbrev pub writes : Access → Bool
writes read = false
writes _ = true

-- The access is exactly what the server grants, and `read` where the server does not say.
abbrev pub Grants : Option AccessBits → Access → Type 0
Grants none a = a ≡ read
Grants (some bits) a = (reads a ≡ bits.readable) × (writes a ≡ bits.writable)

abbrev pub Refuses : Option AccessBits → Type 0
Refuses none = ⊥
Refuses (some bits) = (bits.readable ≡ false) × (bits.writable ≡ false)

-- The variable is the node's, with the node's permissions.
pub record IsPublished (n : SurfaceNode) (v : VariableDefinition) : Type 0 where
  pub path : v.path ≡ n.path
  pub generated_path : v.generated_path ≡ n.generated_path
  pub node_id : v.node_id ≡ n.node.node_id
  pub access : Grants (effective_access n.node) v.access

-- The issue says that the node is left out.
pub record IsSkipped (n : SurfaceNode) (i : Issue) : Type 0 where
  pub code : i.code ≡ variable_not_accessible_skipped
  pub node_id : i.node_id ≡ some n.node.node_id

abbrev Chosen : Option AccessBits → AccessChoice → Type 0
Chosen o (emit a) = Grants o a
Chosen o skip = Refuses o

Chosen-bits :
    (bits : AccessBits) (r w : Bool)
    → bits.readable ≡ r
    → bits.writable ≡ w
    → Chosen (some bits) (
        if not r && not w
        then skip
        else emit (if w then (if r then read_write else write) else read))
Chosen-bits bits true true e f = (sym e, sym f)
Chosen-bits bits true false e f = (sym e, sym f)
Chosen-bits bits false true e f = (sym e, sym f)
Chosen-bits bits false false e f = (e, f)

Chosen-access_of : (o : Option AccessBits) → Chosen o (access_of o)
unfolding access_of
Chosen-access_of none = refl
Chosen-access_of (some bits) = Chosen-bits bits bits.readable bits.writable refl refl

Chosen-variable_access : (n : DiscoveredNode) → Chosen (effective_access n) (variable_access n)
unfolding variable_access
Chosen-variable_access n = Chosen-access_of (effective_access n)

abbrev pub Given : SurfaceNode → Variables → Type 0
Given n out = (v : VariableDefinition) × Memᴰ v out.variables × IsPublished n v

abbrev pub LeftOut : SurfaceNode → Variables → Type 0
LeftOut n out = Refuses (effective_access n.node) × (i : Issue) × Memᴰ i out.issues × IsSkipped n i

abbrev nothing : Variables
nothing = record { variables = []; issues = [] }

module _ (severity : Severity) (graph : TypeGraph) (results : Map DefinitionResult) where
  abbrev add : Variables → SurfaceNode → AccessChoice → Variables
  add = add_variable severity graph results

  -- What one node adds.
  abbrev alone : SurfaceNode → Variables
  alone n = add nothing n (variable_access n.node)

  add-nothing :
      (out : Variables) (n : SurfaceNode) (c : AccessChoice)
      → ((add out n c).variables ≡ out.variables ++ (add nothing n c).variables)
        × ((add out n c).issues ≡ out.issues ++ (add nothing n c).issues)
  unfolding add_variable
  add-nothing out n skip = (sym (append-nil _), refl)
  add-nothing out n (emit a) = (refl, refl)

  from-flat_map :
      (out : Variables) (ns : List SurfaceNode)
      → ((compile_from severity graph results out ns).variables
          ≡ out.variables ++ flat_map (λ n. (alone n).variables) ns)
        × ((compile_from severity graph results out ns).issues
            ≡ out.issues ++ flat_map (λ n. (alone n).issues) ns)
  unfolding compile_from
  from-flat_map out [] = (sym (append-nil _), sym (append-nil _))
  from-flat_map out (n ∷ ns) =
      let (variables, issues) = add-nothing out n (variable_access n.node) in
      let (later, reported) = from-flat_map (add out n (variable_access n.node)) ns in
      (
        later
            ∙ ap (λ l. l ++ flat_map (λ n. (alone n).variables) ns) variables
            ∙ append_assoc out.variables (alone n).variables
                (flat_map (λ n. (alone n).variables) ns),
        reported
            ∙ ap (λ l. l ++ flat_map (λ n. (alone n).issues) ns) issues
            ∙ append_assoc out.issues (alone n).issues (flat_map (λ n. (alone n).issues) ns),
      )

  -- Every variable given out comes from such a node.
  alone-IsPublished :
      (n : SurfaceNode) (c : AccessChoice) (v : VariableDefinition)
      → Chosen (effective_access n.node) c
      → Memᴰ v (add nothing n c).variables
      → IsPublished n v
  unfolding add_variable
  alone-IsPublished n skip v h hv = absurd (mem-nil hv)
  alone-IsPublished n (emit a) v h hv =
      subst (IsPublished n) (sym (Memᴰ.eq_of_singleton hv))
        (record { path = refl; generated_path = refl; node_id = refl; access = h })

  node-Given :
      (n : SurfaceNode) (c : AccessChoice)
      → Chosen (effective_access n.node) c
      → Given n (add nothing n c) ⊎ LeftOut n (add nothing n c)
  unfolding add_variable skipped_issue issue
  node-Given n skip h = inr (h, _, Memᴰ.head refl, record { code = refl; node_id = refl })
  node-Given n (emit a) h =
      inl (
        _,
        Memᴰ.head refl,
        record { path = refl; generated_path = refl; node_id = refl; access = h },
      )

-- Every variable given out is the variable of a node, with its path, its identifier and exactly the
-- permissions that the server grants (`read` where the server states none).
pub compile_variables-IsPublished :
    (severity : Severity) (graph : TypeGraph) (results : Map DefinitionResult)
    (ns : List SurfaceNode) (v : VariableDefinition)
    → Memᴰ v (compile_variables severity graph results ns).variables
    → (n : SurfaceNode) × Memᴰ n ns × IsPublished n v
unfolding compile_variables
compile_variables-IsPublished severity graph results ns v hv =
    let (variables, _) = from-flat_map severity graph results nothing ns in
    let (n, (hn, here)) =
      mem-flat_map (λ n. (alone severity graph results n).variables) ns
        (subst (Memᴰ v) variables hv) in
    (n, hn, alone-IsPublished severity graph results n _ v (Chosen-variable_access n.node) here)

-- Every node is given out so or, where the server refuses both permissions, left out with an issue
-- that says so.
pub compile_variables-Given :
    (severity : Severity) (graph : TypeGraph) (results : Map DefinitionResult)
    (ns : List SurfaceNode) (n : SurfaceNode)
    → Memᴰ n ns
    → Given n (compile_variables severity graph results ns)
      ⊎ LeftOut n (compile_variables severity graph results ns)
unfolding compile_variables
compile_variables-Given severity graph results ns n hn =
    let (variables, issues) = from-flat_map severity graph results nothing ns in
    ⊎_elim
      (λ given.
        let (v, here, published) = given in
        let found = flat_map-mem (λ n. (alone severity graph results n).variables) ns hn here in
        inl (v, subst (Memᴰ v) (sym variables) found, published))
      (λ left_out.
        let (refused, i, here, skipped) = left_out in
        let found = flat_map-mem (λ n. (alone severity graph results n).issues) ns hn here in
        inr (refused, i, subst (Memᴰ i) (sym issues) found, skipped))
      (node-Given severity graph results n _ (Chosen-variable_access n.node))
