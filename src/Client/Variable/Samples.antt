-- ===== src/Client/Variable/Samples.antt =====
-- readPreparedVariables gives one sample for every variable, each made of the data value that the
-- session read for that variable's node, however the reads are cut into requests.
use effect_opcua.Prelude.Pairs.{AllPairs, length-AllPairs, AllPairs-of_map}
use effect_opcua.Prelude.{
  ℕ, suc, ◌+◌, Option, some, List, [], ◌∷◌, map, length, true, false, Bool-cases, nat_eq, get_elem?,
  any, ◌≡◌, refl, ap, ◌∙◌, subst, arith, inl, inr,
}
use effect_opcua.Client.Effect.{
  Exit, succeeded, failed, succeed, and_then, and_then-succeeded, succeeded-and_then,
  succeeded-injective, failed-ne-succeeded,
}
use effect_opcua.Client.Batch.{BatchOptions, ForEach, run_chunked}
use effect_opcua.Client.Batch.Ordered.{Answers, IsForEach, run_chunked-ordered}
use effect_opcua.Client.Values.{DataValue, is_good}
use effect_opcua.Client.Variable.{
  VariableDef, PreparedReadVariable, SampleBase, ReadResult, value, non_good_status, decode_error,
  ReadError, service_error, Services, caught, try_promise, matched, match_effect,
  result_from_status_and_decode, sample_base, sample_from_data_value, sample_at, samples_from,
  check_count, read_chunk, initialize_for, read_prepared_variables,
}

nat_eq_refl : (n : ℕ) → nat_eq n n ≡ true
nat_eq_refl n = ground arith

module _ {World Cause Codec Payload DecodeError A : Type 0}
    (services : Services World Cause Codec Payload DecodeError A) where
  abbrev pub IsDecoded :
      SampleBase Payload → Exit DecodeError A → ReadResult Payload DecodeError A → Type 0
  IsDecoded base (succeeded a) r = r ≡ value base a
  IsDecoded base (failed e) r = r ≡ decode_error base e

  -- The sample of a data value whose status is not good keeps no value; the other is what its codec
  -- makes of it in some world.
  pub data IsSampleOf (def : VariableDef Codec) (dv : DataValue Payload)
      (r : ReadResult Payload DecodeError A) : Type 0 where
    not_good :
        is_good dv.status_code ≡ false
        → r ≡ non_good_status (sample_base services def dv)
        → IsSampleOf def dv r
    decoded :
        is_good dv.status_code ≡ true
        → (w w' : World) (e : Exit DecodeError A) → services.decode def.codec dv w ≡ (e, w')
        → IsDecoded (sample_base services def dv) e r
        → IsSampleOf def dv r

  matched-IsDecoded :
      (base : SampleBase Payload) (x : Exit DecodeError A × World)
      → (r : ReadResult Payload DecodeError A) × (w' : World) × (matched {E = ReadError Cause}
            (decode_error base)
            (value base)
            x
          ≡ (succeeded r, w'))
        × IsDecoded base x.0 r
  matched-IsDecoded base (succeeded a, w) = (value base a, w, refl, refl)
  matched-IsDecoded base (failed e, w) = (decode_error base e, w, refl, refl)

  sample_from_data_value-IsSampleOf :
      (def : VariableDef Codec) (dv : DataValue Payload) (w : World)
      → (r : ReadResult Payload DecodeError A) × (w' : World) × (sample_from_data_value services def
            dv w
          ≡ (succeeded r, w'))
        × IsSampleOf def dv r
  unfolding sample_from_data_value result_from_status_and_decode match_effect
  sample_from_data_value-IsSampleOf def dv w = elim (Bool-cases (is_good dv.status_code)) [
    | inl e ↦
        let (r, w', same, d) =
          matched-IsDecoded (sample_base services def dv) (services.decode def.codec dv w) in
        (
          r,
          w',
          rw e same,
          decoded e w (services.decode def.codec dv w).1 (services.decode def.codec dv w).0 refl d,
        )
    | inr e ↦ (non_good_status (sample_base services def dv), w, rw e refl, not_good e refl)
  ]

  abbrev pub SampledWith :
      (ℕ → DataValue Payload → Type 0)
      → PreparedReadVariable Codec
      → ReadResult Payload DecodeError A
      → Type 0
  SampledWith R item r = (dv : DataValue Payload) × R item.raw_node_id dv × IsSampleOf item.def dv r

  -- The items from an index on, whose data values are those of the whole list from there.
  samples_from-SampledWith :
      (R : ℕ → DataValue Payload → Type 0) (all : List (DataValue Payload)) (index : ℕ)
      (items : List (PreparedReadVariable Codec)) (dvs : List (DataValue Payload)) (w : World)
      → ((j : ℕ) → get_elem? all (index + j) ≡ get_elem? dvs j)
      → AllPairs (λ (item : PreparedReadVariable Codec). R item.raw_node_id) items dvs
      → (rs : List (ReadResult Payload DecodeError A)) × (w' : World) × (samples_from services all
            index items w
          ≡ (succeeded rs, w'))
        × AllPairs (SampledWith R) items rs
  unfolding samples_from sample_at
  samples_from-SampledWith R all index [] [] w at h = ([], w, refl, tt)
  samples_from-SampledWith R all index (item ∷ items) (dv ∷ dvs) w at (r, h) =
      let (s, v, e, sampled) = sample_from_data_value-IsSampleOf item.def dv w in
      let here : get_elem? all index ≡ some dv = ap (get_elem? all) (omega arith) ∙ at 0 in
      let (rs, w', es, rest) =
        samples_from-SampledWith R all (suc index) items dvs v
          (λ j. ap (get_elem? all) (omega arith) ∙ at (suc j)) h in
      (
        s ∷ rs,
        w',
        and_then-succeeded (sample_at services item.def index (get_elem? all index))
              (λ result.
                and_then (samples_from services all (suc index) items)
                  (λ results. succeed (result ∷ results)))
              w v s (ap (λ o. sample_at services item.def index o w) here ∙ e)
            ∙ and_then-succeeded (samples_from services all (suc index) items)
                (λ results. succeed (s ∷ results)) v w' rs es,
        ((dv, r, sampled), rest),
      )
  samples_from-SampledWith R all index [] (dv ∷ dvs) w at h = absurd h
  samples_from-SampledWith R all index (item ∷ items) [] w at h = absurd h

  caught-succeeded :
      {C E B : Type 0} (f : C → E) (x : Exit C B × World) (b : B) (w : World)
      → caught f x ≡ (succeeded b, w)
      → x ≡ (succeeded b, w)
  caught-succeeded f (succeeded a, v) b w h = cc
  caught-succeeded f (failed e, v) b w h = cc

  check_count-succeeded :
      (chunk : List (PreparedReadVariable Codec)) (dvs rs : List (DataValue Payload)) (w w' : World)
      → check_count services chunk dvs w ≡ (succeeded rs, w')
      → dvs ≡ rs
  unfolding check_count
  check_count-succeeded chunk dvs rs w w' h =
      elim (Bool-cases (nat_eq (length dvs) (length chunk))) [
        | inl e ↦ succeeded-injective (rw e at h)
        | inr e ↦ absurd (failed-ne-succeeded (rw e at h))
      ]

  abbrev raw_node_ids : List (PreparedReadVariable Codec) → List ℕ
  raw_node_ids = map (λ (item : PreparedReadVariable Codec). item.raw_node_id)

  module _ (R : ℕ → DataValue Payload → Type 0)
      (in_order : (ids : List ℕ) (dvs : List (DataValue Payload))
        → Answers (services.read ids) dvs
        → AllPairs R ids dvs) where
    read_chunk-AllPairs :
        (chunk : List (PreparedReadVariable Codec)) (i : ℕ) (rs : List (DataValue Payload))
        → Answers (read_chunk services chunk i) rs
        → AllPairs (λ (item : PreparedReadVariable Codec). R item.raw_node_id) chunk rs
    unfolding read_chunk try_promise
    read_chunk-AllPairs chunk i rs (w, w', e) =
        let (dvs, v, read, checked) =
          succeeded-and_then (try_promise service_error (services.read (raw_node_ids chunk)))
            (check_count services chunk) w w' rs e in
        AllPairs-of_map (λ (item : PreparedReadVariable Codec). item.raw_node_id) R chunk rs
          (subst (AllPairs R (raw_node_ids chunk)) (check_count-succeeded chunk dvs rs v w' checked)
            (in_order (raw_node_ids chunk) dvs (w, v, caught-succeeded service_error _ dvs v read)))

    read_chunk-succeeds :
        ((ids : List ℕ) (w : World)
          → (dvs : List (DataValue Payload)) × (w' : World) × (services.read ids w
              ≡ (succeeded dvs, w')))
        → (chunk : List (PreparedReadVariable Codec)) (i : ℕ) (w : World)
        → (rs : List (DataValue Payload)) × (w' : World) × (read_chunk services chunk i w
            ≡ (succeeded rs, w'))
    unfolding read_chunk try_promise check_count
    read_chunk-succeeds answers chunk i w =
        let (dvs, w', e) = answers (raw_node_ids chunk) w in
        let related =
          AllPairs-of_map (λ (item : PreparedReadVariable Codec). item.raw_node_id) R chunk dvs
            (in_order (raw_node_ids chunk) dvs (w, w', e)) in
        let same : nat_eq (length dvs) (length chunk) ≡ true =
          rw (length-AllPairs _ chunk dvs related) (nat_eq_refl (length chunk)) in
        (
          dvs,
          w',
          and_then-succeeded (try_promise service_error (services.read (raw_node_ids chunk)))
                (check_count services chunk) w w' dvs (ap (caught service_error) e)
              ∙ rw same refl,
        )

  initialize_for-succeeds :
      ((w : World) → (w' : World) × (services.ensure_initialized w ≡ (succeeded tt, w')))
      → (items : List (PreparedReadVariable Codec)) (w : World)
      → (w' : World) × (initialize_for services items w ≡ (succeeded tt, w'))
  unfolding initialize_for
  initialize_for-succeeds initialized items w =
      elim (Bool-cases (
        any
          (λ (item : PreparedReadVariable Codec).
            services.requires_structure_runtime item.def.codec)
          items)) [ inl e ↦ let (w', h) = initialized w in (w', rw e h) | inr e ↦ (w, rw e refl) ]

-- If the structure runtime initializes, and every read that the session is asked for succeeds with data
-- values that fit the node ids it was given, one for each in their order, then readPreparedVariables
-- succeeds with one sample for each variable, in the order of the variables. The sample of a variable is made of a data
-- value that fits its own node: a sample without a value when the status is not good, else what the
-- variable's codec decodes the data value to, or the error it gives.
pub read_prepared_variables-SampledWith :
    {World Cause Codec Payload DecodeError A : Type 0}
    (services : Services World Cause Codec Payload DecodeError A)
    (R : ℕ → DataValue Payload → Type 0)
    (for_each : ForEach World
      (ReadError Cause)
      (List (PreparedReadVariable Codec))
      (List (DataValue Payload)))
    → IsForEach for_each
    → ((w : World) → (w' : World) × (services.ensure_initialized w ≡ (succeeded tt, w')))
    → ((ids : List ℕ) (dvs : List (DataValue Payload))
        → Answers (services.read ids) dvs
        → AllPairs R ids dvs)
    → ((ids : List ℕ) (w : World)
        → (dvs : List (DataValue Payload)) × (w' : World) × (services.read ids w
            ≡ (succeeded dvs, w')))
    → (items : List (PreparedReadVariable Codec)) (options : Option BatchOptions) (w : World)
    → (rs : List (ReadResult Payload DecodeError A)) × (w' : World) × (read_prepared_variables
          services for_each items options w
        ≡ (succeeded rs, w'))
      × AllPairs (SampledWith services R) items rs
unfolding read_prepared_variables
read_prepared_variables-SampledWith services R for_each laws initialized in_order answers items
      options w =
    let (u, init) = initialize_for-succeeds services initialized items w in
    let (dvs, v, read, related) =
      run_chunked-ordered for_each laws (λ item. R item.raw_node_id) (read_chunk services) items
        options u (λ c i rs fit. read_chunk-AllPairs services R in_order c i rs)
        (λ c i v fit. read_chunk-succeeds services R in_order answers c i v) in
    let (rs, w', e, sampled) =
      samples_from-SampledWith services R dvs 0 items dvs v (λ j. ap (get_elem? dvs) (omega arith))
        related in
    (
      rs,
      w',
      and_then-succeeded (initialize_for services items) _ w u tt init
          ∙ and_then-succeeded (run_chunked for_each items options (read_chunk services)) _ u v dvs
              read
          ∙ e,
      sampled,
    )
