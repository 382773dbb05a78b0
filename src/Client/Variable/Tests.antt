-- ===== src/Client/Variable/Tests.antt =====
-- The theorems on reads of three variables from a server that answers a node with its number, good up
-- to the node 4 only, where the world counts the requests, and on writes, where it is a log of values.
use effect_opcua.Prelude.Pairs.{AllPairs}
use effect_opcua.Prelude.{
  ℕ, suc, ◌+◌, String, none, some, List, [], ◌∷◌, map, false, nat_eq, leb, ◌==◌, if◌then◌else◌, ◌≡◌,
  refl, subst, ◌++◌, true, Memᴰ, Bool-cases, inl, inr,
}
use effect_opcua.Client.Effect.{succeeded, failed, succeed, succeeded-injective}
use effect_opcua.Client.Batch.{chunks_from}
use effect_opcua.Client.Tests.{each_from, each_in_order, each_in_order-IsForEach}
use effect_opcua.Client.Values.{DataValue, Platform, is_good, normalize_status_code}
use effect_opcua.Client.Variable.{
  PreparedReadVariable, ReadResult, Services, read_prepared_variables, value, non_good_status,
  decode_error, sample_base,
}
use effect_opcua.Client.Access.{metadata_access}
use effect_opcua.Client.Variable.Write.{
  encode_write_value, CodecMetadata, PreparedWriteVariable, WriteValue, WriteServices, not_encoded,
  written, write_prepared_variables,
}
use effect_opcua.Client.Effect.Keeping.{FailsKeeping}
use effect_opcua.Client.Variable.Write.Unencodable.{write_prepared_variables-FailsKeeping}
use effect_opcua.Prelude.Int.{negsuc}
use effect_opcua.Client.Variable.Samples.{SampledWith, read_prepared_variables-SampledWith}

abbrev pub answer_of : ℕ → DataValue ℕ
answer_of id = record {
  status_code = record { text = "status"; value = id; good = leb id 4; bad = false };
  source_timestamp = some id;
  server_timestamp = none;
  value = some (record { data_type = 6; array_type = 0; dimensions = none; content = id + 1 });
}

abbrev pub content_of : DataValue ℕ → ℕ
content_of dv = elim dv.value [ none ↦ 0 | some v ↦ v.content ]

abbrev pub platform : Platform
platform = record {
  data_type_name = λ n. if nat_eq n 6 then some "Int32" else none;
  array_type_name = λ n. some "Scalar";
  number_text = λ n. "number";
  iso_text = λ t. "1970-01-01T00:00:00.000Z";
}

abbrev pub Answered : ℕ → DataValue ℕ → Type 0
Answered id dv = dv ≡ answer_of id

-- The codec "text" decodes no number.
abbrev services : Services ℕ String String ℕ String ℕ
services = record {
  platform = platform;
  read = λ ids w. (succeeded (map answer_of ids), suc w);
  requires_structure_runtime = λ codec. codec == "structure";
  ensure_initialized = succeed tt;
  decode = λ codec dv w.
      if codec == "text" then (failed "no text", w) else (succeeded (content_of dv), w);
}

abbrev variable_of : String → ℕ → PreparedReadVariable String
variable_of codec id = record {
  def = record { node_id = "ns=1;i=1"; codec = codec; include_raw = none };
  raw_node_id = id;
}

abbrev variables : List (PreparedReadVariable String)
variables = variable_of "number" 2 ∷ variable_of "text" 4 ∷ variable_of "number" 5 ∷ []

pub AllPairs-answer_of : (ids : List ℕ) → AllPairs Answered ids (map answer_of ids)
AllPairs-answer_of [] = tt
AllPairs-answer_of (id ∷ ids) = (refl, AllPairs-answer_of ids)

read_prepared_variables-SampledWith_example :
    (rs : List (ReadResult ℕ String ℕ)) × (w' : ℕ) × (read_prepared_variables services each_in_order
        variables none 0
      ≡ (succeeded rs, w'))
    × AllPairs (SampledWith services Answered) variables rs
read_prepared_variables-SampledWith_example =
    read_prepared_variables-SampledWith services Answered each_in_order each_in_order-IsForEach
      (λ w. (w, refl))
      (λ ids dvs (w, w', e).
        subst (AllPairs Answered ids) (succeeded-injective e) (AllPairs-answer_of ids))
      (λ ids w. (map answer_of ids, suc w, refl)) variables none 0

-- The three samples: a value, an error of the codec, and a status that is not good.
three_samples :
    (read_prepared_variables services each_in_order variables none 0).0
    ≡ succeeded (
        value (sample_base services (variable_of "number" 2).def (answer_of 2)) 3
        ∷ decode_error (sample_base services (variable_of "text" 4).def (answer_of 4)) "no text"
        ∷ non_good_status (sample_base services (variable_of "number" 5).def (answer_of 5))
        ∷ [])
unfolding read_prepared_variables is_good each_from chunks_from
three_samples = refl

-- The world is the values that were written; a text is not encoded.
abbrev pub write_services : WriteServices (List ℕ) String String ℕ ℕ String
write_services = record {
  write = λ values log. (
    succeeded (
        map (λ (v : WriteValue ℕ). record { text = "Good"; value = 0; good = true; bad = false })
          values),
    map (λ (v : WriteValue ℕ). v.value) values ++ log,
  );
  requires_structure_runtime = λ codec. codec == "structure";
  ensure_initialized = succeed tt;
  encode = λ codec n metadata log.
      if codec == "text" then (failed (not_encoded "no text"), log) else (succeeded n, log);
}

abbrev pub write_of : String → ℕ → PreparedWriteVariable String ℕ
write_of codec n = record {
  def = record { node_id = "ns=1;i=1"; codec = codec; include_raw = none };
  metadata = record {
    node_id = "ns=1;i=1";
    declared_data_type = record { text = "ns=0;i=6"; namespace = 0; numeric_value = some 6 };
    built_in_data_type = 6;
    value_rank = negsuc 0;
    array_dimensions = none;
    access_level = 3;
    user_access_level = none;
    access = metadata_access (record { current_read = 1; current_write = 2 }) 3 none;
  };
  value = n;
  raw_node_id = n;
}

pub encode_keeps :
    (codec : String) (n : ℕ) (metadata : CodecMetadata) (log : List ℕ)
    → log ≡ []
    → (write_services.encode codec n metadata log).1 ≡ []
encode_keeps codec n metadata log i = elim (Bool-cases (codec == "text")) [
  | inl e ↦ rw e i
  | inr e ↦ rw e i
]

two_writes :
    write_prepared_variables write_services each_in_order
      (write_of "number" 2 ∷ write_of "number" 5 ∷ [])
      none
      []
    ≡ (
      succeeded (
          written "ns=1;i=1" (record {
            text = "Good";
            code = 0;
            is_good = true;
            is_uncertain = false;
            is_bad = false;
          })
          ∷ written "ns=1;i=1" (record {
            text = "Good";
            code = 0;
            is_good = true;
            is_uncertain = false;
            is_bad = false;
          })
          ∷ []),
      2 ∷ 5 ∷ [],
    )
unfolding write_prepared_variables encode_write_value is_good normalize_status_code each_from
    chunks_from
two_writes = refl

write_prepared_variables-FailsKeeping_example :
    FailsKeeping
      (λ (log : List ℕ). log ≡ [])
      (write_prepared_variables write_services each_in_order
        (write_of "number" 2 ∷ write_of "text" 5 ∷ [])
        none)
      []
write_prepared_variables-FailsKeeping_example =
    write_prepared_variables-FailsKeeping write_services (λ log. log ≡ []) each_in_order (λ w i. i)
      encode_keeps (write_of "text" 5) (λ v i. (not_encoded "no text", v, refl, i))
      (write_of "number" 2 ∷ write_of "text" 5 ∷ []) none [] (Memᴰ.tail (Memᴰ.head refl)) refl
