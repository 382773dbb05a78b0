-- ===== src/Client/Batch/Ordered.antt =====
-- runChunked gives one result for every item, in the order of the items, however they are cut.
use effect_opcua.Prelude.Pairs.{AllPairs, AllPairs-append}
use effect_opcua.Prelude.{
  ℕ, zero, suc, ◌<◌, Option, none, some, List, [], ◌∷◌, ◌≡◌, ap, subst, ◌∙◌, arith, All, All-mem,
  Memᴰ,
}
use effect_opcua.Prelude.Int.{ℤ, pos, negsuc}
use effect_opcua.Client.Effect.{Effect, succeeded, succeed, and_then-succeeded}
use effect_opcua.Client.Batch.{
  Number, integer, no_integer, positive, positive_integer_or_default, BatchOptions,
  normalize_batch_options, chunks_of, chunks_or_nil, concat, ForEach, run_chunked,
}
use effect_opcua.Client.Batch.Chunks.{Fits, chunks_of-concat}

-- The program gave the value in some world.
abbrev pub Answers : {World E A : Type 0} → Effect World E A → A → Type 0
Answers {World} program a = (w : World) × (w' : World) × (program w ≡ (succeeded a, w'))

-- What Effect.forEach documents: the results stand in the order of the elements, whatever runs at
-- once, and it succeeds if the function does on every element.
pub record IsForEach {World E A B : Type 0} (for_each : ForEach World E A B) : Type 0 where
  pub ordered :
      (n : ℕ) (f : A → ℕ → Effect World E B) (xs : List A) (w w' : World) (bs : List B)
      → for_each n f xs w ≡ (succeeded bs, w')
      → AllPairs (λ x b. (i : ℕ) × Answers (f x i) b) xs bs
  pub succeeds :
      (n : ℕ) (f : A → ℕ → Effect World E B) (xs : List A) (w : World)
      → ((x : A) (i : ℕ) (v : World)
          → Memᴰ x xs
          → (b : B) × (v' : World) × (f x i v ≡ (succeeded b, v')))
      → (bs : List B) × (w' : World) × (for_each n f xs w ≡ (succeeded bs, w'))

zero_lt-positive : (fallback : ℕ) (z : ℤ) → 0 < fallback → 0 < positive fallback z
unfolding positive
zero_lt-positive fallback (pos zero) h = h
zero_lt-positive fallback (pos (suc n)) h = omega arith
zero_lt-positive fallback (negsuc n) h = h

zero_lt-positive_integer_or_default :
    (o : Option Number) (fallback : ℕ) → 0 < fallback → 0 < positive_integer_or_default o fallback
unfolding positive_integer_or_default
zero_lt-positive_integer_or_default none fallback h = h
zero_lt-positive_integer_or_default (some no_integer) fallback h = h
zero_lt-positive_integer_or_default (some (integer z)) fallback h = zero_lt-positive fallback z h

zero_lt-normalize_batch_options :
    (o : Option BatchOptions) → 0 < (normalize_batch_options o).max_items_per_request
unfolding normalize_batch_options
zero_lt-normalize_batch_options o = zero_lt-positive_integer_or_default _ 250 (omega arith)

module _ {World E A B : Type 0} (R : A → B → Type 0) (f : List A → ℕ → Effect World E (List B))
    (size : ℕ)
    (related : (c : List A) (i : ℕ) (rs : List B)
      → Fits size c
      → Answers (f c i) rs
      → AllPairs R c rs) where
  AllPairs-concat :
      (cs : List (List A)) (rss : List (List B))
      → All (Fits size) cs
      → AllPairs (λ c rs. (i : ℕ) × Answers (f c i) rs) cs rss
      → AllPairs R (concat cs) (concat rss)
  AllPairs-concat [] [] fit h = tt
  AllPairs-concat (c ∷ cs) (rs ∷ rss) (q, fit) ((i, a), h) =
      AllPairs-append R c (concat cs) rs (concat rss) (related c i rs q a)
        (AllPairs-concat cs rss fit h)
  AllPairs-concat [] (rs ∷ rss) fit h = absurd h
  AllPairs-concat (c ∷ cs) [] fit h = absurd h

-- If every request of an allowed size succeeds with one result for each of its items, in their order,
-- then runChunked succeeds with one result for each item, in the order of the items.
pub run_chunked-ordered :
    {World E A B : Type 0} (for_each : ForEach World E (List A) (List B))
    → IsForEach for_each
    → (R : A → B → Type 0) (f : List A → ℕ → Effect World E (List B)) (items : List A)
      (options : Option BatchOptions) (w : World)
    → ((c : List A) (i : ℕ) (rs : List B)
        → Fits (normalize_batch_options options).max_items_per_request c
        → Answers (f c i) rs
        → AllPairs R c rs)
    → ((c : List A) (i : ℕ) (v : World)
        → Fits (normalize_batch_options options).max_items_per_request c
        → (rs : List B) × (v' : World) × (f c i v ≡ (succeeded rs, v')))
    → (rs : List B) × (w' : World) × (run_chunked for_each items options f w ≡ (succeeded rs, w'))
      × AllPairs R items rs
unfolding run_chunked
run_chunked-ordered for_each laws R f items options w related answers =
    let o = normalize_batch_options options in
    let (cs, cut, joined, fit) =
      chunks_of-concat items o.max_items_per_request (zero_lt-normalize_batch_options options) in
    let (rss, w', e) =
      laws.succeeds o.max_concurrent_requests f cs w
        (λ c i v m. answers c i v (All-mem (Fits o.max_items_per_request) cs fit m)) in
    let same = ap chunks_or_nil cut in
    (
      concat rss,
      w',
      and_then-succeeded
          (for_each o.max_concurrent_requests f
            (chunks_or_nil (chunks_of items o.max_items_per_request)))
          (λ results. succeed (concat results)) w w' rss
          (ap (λ c. for_each o.max_concurrent_requests f c w) same ∙ e),
      subst (λ l. AllPairs R l (concat rss)) joined
          (AllPairs-concat R f o.max_items_per_request related cs rss fit
            (laws.ordered o.max_concurrent_requests f cs w w' rss e)),
    )
