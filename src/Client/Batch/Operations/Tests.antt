-- ===== src/Client/Batch/Operations/Tests.antt =====
-- The theorems on two items, in a session that answers as those of Client.Variable.Tests do; the world
-- is the values that were written.
use effect_opcua.Prelude.Pairs.{AllPairs}
use effect_opcua.Prelude.{
  All, ◌⊎◌, ℕ, String, none, some, List, [], ◌∷◌, map, Memᴰ, ◌≡◌, refl, sym, subst, ◌==◌, nat_eq,
  if◌then◌else◌, ⊎_elim, mem-nil,
}
use mathlib.Core.List.Memᴰ
use effect_opcua.Prelude.Int.{pos}
use effect_opcua.Prelude.Maps.{Map, get}
use effect_opcua.Client.Effect.{Effect, Exit, succeeded, failed, succeed, succeeded-injective}
use effect_opcua.Client.Effect.Keeping.{FailsKeeping}
use effect_opcua.Client.Access.{read, write, read_write}
use effect_opcua.Client.Tests.{each_in_order, each_in_order-IsForEach, entries-Nodup, no_proto}
use effect_opcua.Client.Batch.{Number, integer}
use effect_opcua.Client.Batch.Keyed.{
  ConfigurationError, KeyedEntry, normalize_keyed_record, plain_record,
}
use effect_opcua.Client.Batch.Keyed.Entries.{IsIndexed, normalize_keyed_record-IsIndexed}
use effect_opcua.Client.Batch.Options.{
  number_value, ServiceValue, max_nodes_per_request, max_concurrent_requests, no_service,
  service_object, no_options, ReadManyOptions, strict, normalize_read_many_options,
  normalize_service_options, service_keys, fallback_of,
}
use effect_opcua.Client.Batch.Options.Limits.{
  IsServiceOptions, given, IsChosen, normalize_service_options_decides,
}
use effect_opcua.Client.Batch.Operations.{
  SessionError, configuration, variable_def, Definition, WriteInput, write_pair, SessionState,
  NormalizedReadItem, normalize_read_many_item, read_many_with_state, write_many_with_state,
}
use effect_opcua.Client.Batch.Operations.Reads.{IsReadFor, read_many_with_state-IsReadFor}
use effect_opcua.Client.Batch.Operations.Refused.{unencodable}
use effect_opcua.Client.Batch.Operations.Writes.{write_many_with_state-FailsKeeping}
use effect_opcua.Client.Variable.{VariableDef, ReadResult}
use effect_opcua.Client.Variable.Write.{not_encoded}
use effect_opcua.Client.Variable.Tests.{
  answer_of, content_of, platform, Answered, AllPairs-answer_of, write_services, write_of,
  encode_keeps,
}

abbrev id_of : String → Exit String ℕ
id_of text =
    if text == "i=2"
    then succeeded 2
    else if text == "i=5"
    then succeeded 5
    else failed "no node id"

abbrev session : SessionState (List ℕ) String String ℕ String ℕ ℕ ℕ String String
session = record {
  reads = record {
    platform = platform;
    read = λ ids w. (succeeded (map answer_of ids), w);
    requires_structure_runtime = λ codec. codec == "structure";
    ensure_initialized = succeed tt;
    decode = λ codec dv w. (succeeded (content_of dv), w);
  };
  writes = write_services;
  node_ids = record { coerce = id_of; text = λ id. if nat_eq id 2 then "speed" else "level" };
  metadata = λ access def. succeed (write_of "number" 0).metadata;
  read_limits = none;
  write_limits = none;
}

abbrev def_of : String → String → VariableDef String
def_of node_id codec = record { node_id = node_id; codec = codec; include_raw = none }

abbrev read_items : List (String × Definition String)
read_items =
    ("speed", variable_def read (def_of "i=2" "number"))
    ∷ ("level", variable_def read_write (def_of "i=5" "number"))
    ∷ []

abbrev defaults : ReadManyOptions
defaults = record {
  validation = strict;
  limits = record { nodes_per_request = integer (pos 250); concurrent_requests = integer (pos 1) };
}

defaults_chosen :
    normalize_read_many_options {World = List ℕ} {E = SessionError String String String}
      configuration no_options no_service []
    ≡ (succeeded defaults, [])
unfolding normalize_read_many_options
defaults_chosen = refl

read_many_with_state-IsReadFor_example :
    (out : Map (ReadResult ℕ String ℕ)) × (w' : List ℕ) × (read_many_with_state session
        each_in_order
        (plain_record read_items)
        no_options
        []
      ≡ (succeeded out, w'))
    × ((item : String × Definition String)
        → Memᴰ item read_items
        → (r : ReadResult ℕ String ℕ) × (get item.0 out ≡ some r)
          × IsReadFor session Answered item.1 r)
read_many_with_state-IsReadFor_example =
    read_many_with_state-IsReadFor session Answered each_in_order each_in_order-IsForEach
      (λ w. (w, refl))
      (λ ids dvs (w, w', e).
        subst (AllPairs Answered ids) (succeeded-injective e) (AllPairs-answer_of ids))
      (λ ids w. (map answer_of ids, w, refl)) read_items no_options defaults [] [] entries-Nodup
      no_proto entries-Nodup ((2, (refl, refl)), ((5, (refl, refl)), tt)) defaults_chosen
      (λ _ access def u. ((write_of "number" 0).metadata, u, refl, tt))

-- normalizeReadManyItem on the items above, which it takes.
abbrev normalize_read :
    String
    → Definition String
    → ℕ
    → Effect (List ℕ) (SessionError String String String) (NormalizedReadItem String)
normalize_read key input index = normalize_read_many_item session key input

normalize_read_of :
    (key : String) (input : Definition String) (i : ℕ) (v : List ℕ)
    → Memᴰ (key, input) read_items
    → (n : NormalizedReadItem String) × (v' : List ℕ) × (normalize_read key input i v
        ≡ (succeeded n, v'))
unfolding normalize_read_many_item
normalize_read_of key input i v m =
    ⊎_elim
      (λ e.
        subst
          (λ (item : String × Definition String).
            (n : NormalizedReadItem String) × (v' : List ℕ) × (normalize_read item.0 item.1 i v
              ≡ (succeeded n, v')))
          (sym e) (_, v, refl))
      (λ n.
        ⊎_elim
          (λ e.
            subst
              (λ (item : String × Definition String).
                (n : NormalizedReadItem String) × (v' : List ℕ) × (normalize_read item.0 item.1 i v
                  ≡ (succeeded n, v')))
              (sym e) (_, v, refl))
          (λ l. absurd (mem-nil l)) (Memᴰ.cases_cons n))
      (Memᴰ.cases_cons m)

normalize_keyed_record-IsIndexed_example :
    (es : List (KeyedEntry (NormalizedReadItem String))) × (w' : List ℕ) × (normalize_keyed_record
        configuration normalize_read "readMany"
        (plain_record read_items)
        []
      ≡ (succeeded es, w'))
    × IsIndexed configuration normalize_read 0 read_items es
normalize_keyed_record-IsIndexed_example =
    normalize_keyed_record-IsIndexed configuration normalize_read "readMany" read_items []
      normalize_read_of

abbrev write_items : List (String × WriteInput String ℕ)
write_items =
    ("speed", write_pair (variable_def write (def_of "i=2" "number")) 2)
    ∷ ("level", write_pair (variable_def read_write (def_of "i=5" "text")) 5)
    ∷ []

write_many_with_state-FailsKeeping_example :
    FailsKeeping
      (λ (log : List ℕ). log ≡ [])
      (write_many_with_state session each_in_order (plain_record write_items) no_options)
      []
write_many_with_state-FailsKeeping_example =
    write_many_with_state-FailsKeeping session (λ log. log ≡ []) (λ access def w i. i) (λ w i. i)
      encode_keeps each_in_order write_items no_options
      ("level", write_pair (variable_def read_write (def_of "i=5" "text")) 5) []
      (unencodable read_write (def_of "i=5" "text") 5 refl
        (λ metadata v i. (not_encoded "no text", v, refl, i)))
      (Memᴰ.tail (Memᴰ.head refl)) refl

abbrev same_error : ConfigurationError → ConfigurationError
same_error e = e

-- The call gives the one limit, the session both.
abbrev own_limits : ServiceValue
own_limits = service_object ((max_nodes_per_request, number_value (integer (pos 10))) ∷ [])

abbrev session_limits : ServiceValue
session_limits = service_object (
    (max_nodes_per_request, number_value (integer (pos 20)))
    ∷ (max_concurrent_requests, number_value (integer (pos 4)))
    ∷ [])

normalize_service_options_decides_example :
    (IsServiceOptions service_keys own_limits
      × IsServiceOptions service_keys session_limits
      × ((normalized : String → Number) × (normalize_service_options {World = ℕ} same_error
              own_limits session_limits "readMany.options.service" "OpcuaSession.batching.read"
              service_keys
              (fallback_of 250)
              0
            ≡ (succeeded normalized, 0))
          × All
              (λ key.
                IsChosen
                  (given own_limits key)
                  (given session_limits key)
                  (fallback_of 250 key)
                  (normalized key))
              service_keys))
    ⊎ (¬ (IsServiceOptions service_keys own_limits × IsServiceOptions service_keys session_limits)
        × ((error : ConfigurationError) × (normalize_service_options {World = ℕ} same_error
                own_limits session_limits "readMany.options.service" "OpcuaSession.batching.read"
                service_keys
                (fallback_of 250)
                0
              ≡ (failed (same_error error), 0))))
normalize_service_options_decides_example =
    normalize_service_options_decides same_error own_limits session_limits
      "readMany.options.service" "OpcuaSession.batching.read" service_keys (fallback_of 250) 0
