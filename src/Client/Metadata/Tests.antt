-- ===== src/Client/Metadata/Tests.antt =====
-- The theorems on metadata, for small servers.
use mathlib.Core.Bool.{false≢true}
use effect_opcua.Prelude.{
  ℕ, suc, String, Option, none, some, List, [], ◌∷◌, true, false, leb, nat_eq, length, ◌≡◌, refl,
  sym, ap, ◌∙◌, arith, ⊎_elim, ◌⊎◌, inl, inr, Bool-cases, if◌then◌else◌, ◌==◌, eq_iff, map,
}
use effect_opcua.Prelude.Maps.{Map, get}
use effect_opcua.Client.Effect.{Exit, succeeded}
use effect_opcua.Prelude.Int.{negsuc, pos}
use effect_opcua.Client.Access.{read, write}
use effect_opcua.Client.Metadata.Cache.{
  Answers, AttributeValue, namespaces_request, nodes_request, node_request, variable_request,
  data_type_request, Step, request, invalidation, empty_caches, serve_all,
}
use effect_opcua.Client.Metadata.Cache.Transparent.{replies_now, serve_all-replies_now}
use effect_opcua.Client.Metadata.Nodes.{
  DataValue, number, qualified_name, absent, Session, read_many_node_metadata,
}
use effect_opcua.Client.Metadata.Nodes.Batches.{node_alone, read_many-alone}
use effect_opcua.Client.Metadata.BuiltIn.{NodeId, Numbers, ResolveError, resolve_built_in_data_type}
use effect_opcua.Client.Metadata.BuiltIn.Resolved.{
  Ascends, stay, up, Explains, resolve_built_in_data_type-Explains,
}

abbrev numbers : Numbers
numbers = record { enumeration = 29; int32 = 6; diagnostic_info = 25; is_data_type = λ n. leb n 25 }

-- A custom data type below Double, which is 11.
abbrev speed : NodeId
speed = record { text = "ns=1;i=3002"; namespace = 1; numeric_value = some 3002 }

abbrev double : NodeId
double = record { text = "ns=0;i=11"; namespace = 0; numeric_value = some 11 }

abbrev browse : NodeId → Exit String (Option NodeId)
browse n = if n.text == "ns=1;i=3002" then succeeded (some double) else succeeded none

abbrev known : Map ℕ
known = ("ns=1;i=3002", 0) ∷ ("ns=0;i=11", 1) ∷ []

browse-double : (b c : NodeId) → browse b ≡ succeeded (some c) → c ≡ double
browse-double b c e = elim (Bool-cases (b.text == "ns=1;i=3002")) [
  | inl same ↦ ground arith
  | inr other ↦ absurd (ground arith)
]

browse-knows :
    (b c : NodeId) → browse b ≡ succeeded (some c) → (v : ℕ) × (get c.text known ≡ some v)
unfolding get
browse-knows b c e = (1, rw (browse-double b c e) refl)

Ascends-double : (a b : NodeId) → Ascends numbers browse a b → (b ≡ a) ⊎ (b ≡ double)
Ascends-double a b stay = inl refl
Ascends-double a b (up {b = mid} way plain e) = inr (browse-double mid b e)

two_texts : ¬ (speed.text ≡ double.text)
two_texts e = false≢true ((eq_iff speed.text double.text).1 e)

speed_texts-differ :
    (b c : NodeId)
    → Ascends numbers browse speed b
    → Ascends numbers browse speed c
    → b.text ≡ c.text
    → b ≡ c
speed_texts-differ b c h k e =
    ⊎_elim
      (λ p.
        ⊎_elim (λ q. p ∙ sym q)
          (λ q.
            absurd
              (two_texts (sym (ap (λ (n : NodeId). n.text) p) ∙ e ∙ ap (λ (n : NodeId). n.text) q)))
          (Ascends-double speed c k))
      (λ p.
        ⊎_elim
          (λ q. absurd (
            two_texts
              (sym (ap (λ (n : NodeId). n.text) q) ∙ sym e ∙ ap (λ (n : NodeId). n.text) p)))
          (λ q. p ∙ sym q) (Ascends-double speed c k))
      (Ascends-double speed b h)

resolve_built_in_data_type-Explains_example :
    (r : Exit (ResolveError String) ℕ) × (resolve_built_in_data_type numbers browse speed
        (suc (length known))
      ≡ some r)
    × Explains numbers browse speed r
unfolding get
resolve_built_in_data_type-Explains_example =
    resolve_built_in_data_type-Explains numbers browse speed known speed_texts-differ browse-knows 0
      refl

abbrev attribute : {A : Type 0} → A → Option (AttributeValue A)
attribute a = some (record { good = true; value = some a })

-- Every attribute is there; a node class is a number and a browse name a name.
abbrev test_value : String × String → DataValue
test_value (node_id, attribute) =
    if attribute == "NodeClass"
    then record { status_code = 0; value = number (pos 2) }
    else if attribute == "BrowseName"
    then record { status_code = 0; value = qualified_name (some 1) (some node_id) }
    else record { status_code = 1; value = absent }

abbrev test_session : Session String
test_session = record {
  is_good = λ status. nat_eq status 0;
  bad_internal_error = 2;
  flags = record { current_read = 1; current_write = 2 };
  node_class_text = λ n. "Variable";
  namespace_of = λ node_id. 1;
  read = λ nodes. succeeded (map test_value nodes);
}

-- Every variable is a readable Double; no codec is refused.
abbrev test_answers : Answers Unit String
test_answers = record {
  flags = record { current_read = 1; current_write = 2 };
  namespace_array = succeeded ("http://opcfoundation.org/UA/" ∷ []);
  session = test_session;
  read_variable = λ node_id. succeeded (record {
    data_type = attribute double;
    value_rank = attribute (negsuc 0);
    array_dimensions = none;
    access_level = attribute 1;
    user_access_level = none;
  });
  built_in = λ id. succeeded 11;
  requires_structure_runtime = λ codec. false;
  ensure_initialized = succeeded tt;
  validate_metadata = λ codec metadata. succeeded tt;
}

-- The server after a change: other namespaces, and other data types.
abbrev later_answers : Answers Unit String
later_answers = record test_answers {
  namespace_array = succeeded ("urn:plant" ∷ []);
  built_in = λ id. succeeded 6;
}

abbrev steps : List (Step Unit String)
steps =
    request namespaces_request
    ∷ request (node_request "ns=1;s=a")
    ∷ request (variable_request (record { node_id = "ns=1;s=a"; access = read; codec = tt }))
    ∷ request (variable_request (record { node_id = "ns=1;s=a"; access = write; codec = tt }))
    ∷ invalidation later_answers
    ∷ request (nodes_request ("ns=1;s=a" ∷ "ns=1;s=b" ∷ []))
    ∷ request (data_type_request double)
    ∷ []

serve_all-replies_now_example :
    serve_all test_answers steps empty_caches ≡ replies_now test_answers steps
serve_all-replies_now_example =
    serve_all-replies_now test_answers steps (λ a b e. refl)
      (tt, (tt, (tt, (tt, ((λ a b e. refl), (tt, (tt, tt)))))))

read_many-alone_example :
    read_many_node_metadata test_session
      (succeeded ("ua" ∷ "urn:plant" ∷ []))
      ("ns=1;s=a" ∷ "ns=1;s=b" ∷ [])
    ≡ succeeded (
        map
          (node_alone test_session test_value ("ua" ∷ "urn:plant" ∷ []))
          ("ns=1;s=a" ∷ "ns=1;s=b" ∷ []))
read_many-alone_example =
    read_many-alone test_session test_value (λ nodes. refl) ("ua" ∷ "urn:plant" ∷ [])
      ("ns=1;s=a" ∷ "ns=1;s=b" ∷ [])
