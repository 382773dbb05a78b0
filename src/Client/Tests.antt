-- ===== src/Client/Tests.antt =====
-- The theorems on batches of numbers: a request doubles every item and is written to a log, which is
-- the world.
use mathlib.Core.List.{Nodup}
use effect_opcua.Prelude.Pairs.{AllPairs}
use mathlib.Core.List.Memᴰ
use mathlib.Core.Bool.{false≢true}
use effect_opcua.Prelude.{
  eq_iff, ⊎_elim, mem-nil, Memᴰ, arith, ℕ, suc, ◌+◌, String, Option, none, some, List, [], ◌∷◌, map,
  ◌≡◌, refl, ◌↔◌, All, ◌∙◌, subst, true,
}
use effect_opcua.Prelude.Int.{pos}
use effect_opcua.Prelude.Maps.{get, set}
use effect_opcua.Client.Effect.{
  Effect, succeeded, succeed, and_then, and_then-succeeded, succeeded-and_then, succeeded-injective,
}
use effect_opcua.Client.Batch.{integer, BatchOptions, chunks_of, concat, ForEach, run_chunked}
use effect_opcua.Client.Batch.Chunks.{Fits, chunks_of-concat}
use effect_opcua.Client.Batch.Ordered.{Answers, IsForEach, run_chunked-ordered}
use effect_opcua.Client.Batch.Keyed.{
  KeyedEntry, ConfigurationError, zip, rekey_ordered_results, validate_unique_targets,
  check_targets,
}
use effect_opcua.Client.Batch.Keyed.Rekeyed.{IsRekeyed, rekey_ordered_results-IsRekeyed}
use effect_opcua.Client.Batch.Keyed.Targets.{validate_unique_targets_iff}
use effect_opcua.Client.Access.{
  AccessLevelFlag, read_write, first_denied, variable_access_capabilities, metadata_access,
}
use effect_opcua.Client.Access.Granted.{grants_access, first_denied_iff}

chunks_of-concat_example :
    (cs : List (List ℕ)) × (chunks_of (1 ∷ 2 ∷ 3 ∷ 4 ∷ 5 ∷ []) 2 ≡ some cs)
    × (concat cs ≡ 1 ∷ 2 ∷ 3 ∷ 4 ∷ 5 ∷ [])
    × All (Fits 2) cs
chunks_of-concat_example = chunks_of-concat (1 ∷ 2 ∷ 3 ∷ 4 ∷ 5 ∷ []) 2 (omega arith)

abbrev Log : Type 0
Log = List (List ℕ)

module _ {World E A B : Type 0} where
  -- One after the other.
  unfoldable pub each_from : (A → ℕ → Effect World E B) → ℕ → List A → Effect World E (List B)
  unfolding and_then
  each_from f i [] = succeed []
  each_from f i (x ∷ xs) =
      and_then (f x i) (λ b. and_then (each_from f (suc i) xs) (λ bs. succeed (b ∷ bs)))

  abbrev pub each_in_order : ForEach World E A B
  each_in_order n f xs = each_from f 0 xs

  each_from-ordered :
      (f : A → ℕ → Effect World E B) (i : ℕ) (xs : List A) (w w' : World) (bs : List B)
      → each_from f i xs w ≡ (succeeded bs, w')
      → AllPairs (λ x b. (i : ℕ) × Answers (f x i) b) xs bs
  unfolding each_from
  each_from-ordered f i [] w w' bs h =
      subst (AllPairs (λ x b. (i : ℕ) × Answers (f x i) b) []) (succeeded-injective h) tt
  each_from-ordered f i (x ∷ xs) w w' bs h =
      let (b, v, e, rest) = succeeded-and_then (f x i) _ w w' bs h in
      let (cs, v', es, last) =
        succeeded-and_then (each_from f (suc i) xs) (λ bs. succeed (b ∷ bs)) v w' bs rest in
      subst (AllPairs (λ x b. (i : ℕ) × Answers (f x i) b) (x ∷ xs)) (succeeded-injective last)
        ((i, (w, v, e)), each_from-ordered f (suc i) xs v v' cs es)

  each_from-succeeds :
      (f : A → ℕ → Effect World E B) (i : ℕ) (xs : List A) (w : World)
      → ((x : A) (i : ℕ) (v : World)
          → Memᴰ x xs
          → (b : B) × (v' : World) × (f x i v ≡ (succeeded b, v')))
      → (bs : List B) × (w' : World) × (each_from f i xs w ≡ (succeeded bs, w'))
  unfolding each_from
  each_from-succeeds f i [] w h = ([], w, refl)
  each_from-succeeds f i (x ∷ xs) w h =
      let (b, v, e) = h x i w (Memᴰ.head refl) in
      let (bs, w', es) = each_from-succeeds f (suc i) xs v (λ y j u m. h y j u (Memᴰ.tail m)) in
      (
        b ∷ bs,
        w',
        and_then-succeeded (f x i) (λ b. and_then (each_from f (suc i) xs) (λ bs. succeed (b ∷ bs)))
              w v b e
            ∙ and_then-succeeded (each_from f (suc i) xs) (λ bs. succeed (b ∷ bs)) v w' bs es,
      )

pub each_in_order-IsForEach :
    {World E A B : Type 0} → IsForEach (each_in_order {World = World} {E = E} {A = A} {B = B})
each_in_order-IsForEach = record {
  ordered = λ n f xs w w' bs. each_from-ordered f 0 xs w w' bs;
  succeeds = λ n f xs w. each_from-succeeds f 0 xs w;
}

-- One request: the log has its items, and every item is doubled.
abbrev double_all : List ℕ → List ℕ
double_all = map (λ n. n + n)

abbrev request : List ℕ → ℕ → Effect Log ConfigurationError (List ℕ)
request c i log = (succeeded (double_all c), c ∷ log)

abbrev Doubled : ℕ → ℕ → Type 0
Doubled a b = b ≡ a + a

AllPairs-double_all : (c : List ℕ) → AllPairs Doubled c (double_all c)
AllPairs-double_all [] = tt
AllPairs-double_all (a ∷ c) = (refl, AllPairs-double_all c)

abbrev by_two : Option BatchOptions
by_two =
    some (record { max_items_per_request = some (integer (pos 2)); max_concurrent_requests = none })

run_chunked-ordered_example :
    (rs : List ℕ) × (w' : Log) × (run_chunked each_in_order (1 ∷ 2 ∷ 3 ∷ []) by_two request []
      ≡ (succeeded rs, w'))
    × AllPairs Doubled (1 ∷ 2 ∷ 3 ∷ []) rs
run_chunked-ordered_example =
    run_chunked-ordered each_in_order each_in_order-IsForEach Doubled request (1 ∷ 2 ∷ 3 ∷ [])
      by_two []
      (λ c i rs fit (w, w', e).
        subst (AllPairs Doubled c) (succeeded-injective e) (AllPairs-double_all c))
      (λ c i v fit. (double_all c, c ∷ v, refl))

abbrev pub entries : List (KeyedEntry ℕ)
entries =
    record { key = "speed"; index = 0; normalized = 10 }
    ∷ record { key = "level"; index = 1; normalized = 20 }
    ∷ []

abbrev same_error : ConfigurationError → ConfigurationError
same_error e = e

abbrev add_raw : KeyedEntry ℕ → ℕ → Effect Log ConfigurationError ℕ
add_raw e raw = succeed (e.normalized + raw)

validate_unique_targets_iff_example :
    (validate_unique_targets {World = Log} same_error "read"
        (λ (e : KeyedEntry ℕ). e.key)
        entries
        []
      ≡ (succeeded tt, []))
    ↔ Nodup (map (λ (e : KeyedEntry ℕ). e.key) entries)
validate_unique_targets_iff_example =
    validate_unique_targets_iff same_error "read" (λ (e : KeyedEntry ℕ). e.key) [] entries

pub entries-Nodup : Nodup (map (λ (e : KeyedEntry ℕ). e.key) entries)
unfolding validate_unique_targets check_targets get set
entries-Nodup =
    (validate_unique_targets_iff {World = Log} same_error "read" (λ (e : KeyedEntry ℕ). e.key) []
        entries).0
      refl

pub no_proto : ¬ Memᴰ {A = String} "__proto__" ("speed" ∷ "level" ∷ [])
no_proto m =
    ⊎_elim (λ e. false≢true ((eq_iff "__proto__" "speed").1 e))
      (λ n.
        ⊎_elim (λ e. false≢true ((eq_iff "__proto__" "level").1 e)) (λ l. mem-nil l)
          (Memᴰ.cases_cons n))
      (Memᴰ.cases_cons m)

rekey_ordered_results-IsRekeyed_example :
    (after : List (String × ℕ)) × (w' : Log) × (rekey_ordered_results same_error add_raw "read"
        entries
        (1 ∷ 2 ∷ [])
        []
      ≡ (succeeded after, w'))
    × IsRekeyed same_error add_raw (zip entries (1 ∷ 2 ∷ [])) [] after
rekey_ordered_results-IsRekeyed_example =
    rekey_ordered_results-IsRekeyed same_error add_raw "read" entries (1 ∷ 2 ∷ []) []
      (λ entry raw v. (entry.normalized + raw, v, refl)) refl entries-Nodup no_proto

abbrev flags : AccessLevelFlag
flags = record { current_read = 1; current_write = 2 }

-- The node may be read and written, the user may only read.
first_denied_iff_example :
    (first_denied flags "ns=1;s=a" 3 (some 1) (variable_access_capabilities read_write) ≡ none)
    ↔ (grants_access (metadata_access flags 3 (some 1)) read_write ≡ true)
first_denied_iff_example = first_denied_iff flags "ns=1;s=a" 3 (some 1) read_write
