-- ===== src/Client/Batch.antt =====
-- packages/client/src/internal/batch/chunk.ts, with chunksOf of common/collections.ts and
-- positiveIntegerOrDefault of common/options.ts.
pub mod Chunks
pub mod Keyed
pub mod Operations
pub mod Options
pub mod Ordered
use effect_opcua.Prelude.{
  ℕ, zero, suc, ◌+◌, Option, none, some, List, [], ◌∷◌, length, take, drop, ltb, if◌then◌else◌,
  flat_map,
}
use effect_opcua.Prelude.Int.{ℤ, pos, negsuc}
use effect_opcua.Client.Effect.{Effect, succeed, and_then}

-- A number that may be no integer: a fraction, NaN or an infinity.
pub data Number : Type 0 where
  integer : ℤ → Number
  no_integer : Number

-- value > 0, for an integer
positive : ℕ → ℤ → ℕ
positive fallback (pos zero) = fallback
positive fallback (pos (suc n)) = suc n
positive fallback (negsuc n) = fallback

unfoldable pub positive_integer_or_default : Option Number → ℕ → ℕ
unfolding positive
positive_integer_or_default none fallback = fallback
positive_integer_or_default (some no_integer) fallback = fallback
positive_integer_or_default (some (integer z)) fallback = positive fallback z

pub record BatchOptions : Type 0 where
  pub max_items_per_request : Option Number
  pub max_concurrent_requests : Option Number

abbrev default_max_items_per_request : ℕ
default_max_items_per_request = 250

abbrev default_max_concurrent_requests : ℕ
default_max_concurrent_requests = 1

pub record NormalizedOptions : Type 0 where
  pub max_items_per_request : ℕ
  pub max_concurrent_requests : ℕ

abbrev option_of : (BatchOptions → Option Number) → Option BatchOptions → Option Number
option_of field none = none
option_of field (some o) = field o

unfoldable pub normalize_batch_options : Option BatchOptions → NormalizedOptions
unfolding positive_integer_or_default
normalize_batch_options options = record {
  max_items_per_request =
      positive_integer_or_default (option_of (λ o. o.max_items_per_request) options)
        default_max_items_per_request;
  max_concurrent_requests =
      positive_integer_or_default (option_of (λ o. o.max_concurrent_requests) options)
        default_max_concurrent_requests;
}

module _ {A : Type 0} (items : List A) (size : ℕ) where
  abbrev cons_to : List A → Option (List (List A)) → Option (List (List A))
  cons_to c none = none
  cons_to c (some cs) = some (c ∷ cs)

  -- The loop from `index` on; `none` means that the fuel ran out.
  unfoldable pub chunks_from : ℕ → ℕ → Option (List (List A))
  chunks_from zero index = if ltb index (length items) then none else some []
  chunks_from (suc fuel) index =
      let rest = chunks_from fuel (index + size) in
      if ltb index (length items) then cons_to (take size (drop index items)) rest else some []

  unfoldable pub chunks_of : Option (List (List A))
  chunks_of = chunks_from (length items) 0

-- The loop of chunks_of ends within its fuel, so the first case is never met.
abbrev pub chunks_or_nil : {A : Type 0} → Option (List (List A)) → List (List A)
chunks_or_nil none = []
chunks_or_nil (some cs) = cs

abbrev pub concat : {A : Type 0} → List (List A) → List A
concat = flat_map (λ c. c)

-- Effect.forEach with its `concurrency`: the function is given each element with its index.
abbrev pub ForEach : (World E A B : Type 0) → Type 0
ForEach World E A B = ℕ → (A → ℕ → Effect World E B) → List A → Effect World E (List B)

module _ {World E A B : Type 0} (for_each : ForEach World E (List A) (List B)) where
  unfoldable pub run_chunked :
      List A
      → Option BatchOptions
      → (List A → ℕ → Effect World E (List B))
      → Effect World E (List B)
  unfolding chunks_of normalize_batch_options and_then
  run_chunked items options f =
      let normalized = normalize_batch_options options in
      let chunks = chunks_or_nil (chunks_of items normalized.max_items_per_request) in
      and_then (for_each normalized.max_concurrent_requests f chunks)
        (λ results. succeed (concat results))
