-- ===== src/Client/Monitor/Balanced/Validation.antt =====
-- validateStartupItems of packages/client/src/internal/monitoring/runtime.ts neither loses nor doubles an
-- item.
use effect_opcua.Prelude.{
  ℕ, suc, ◌+◌, ◌<◌, String, Option, none, some, List, [], ◌∷◌, Bool-cases, ◌≡◌, ap, ◌∙◌, inl, inr,
  arith,
}
use effect_opcua.Client.Monitor.Weights.{weigh_keys, weigh-append}
use effect_opcua.Client.Effect.{Exit, succeeded, failed}
use effect_opcua.Client.Batch.{chunks_of, chunks_or_nil, concat}
use effect_opcua.Client.Access.{AccessDenied, read_capability, access_denied_error}
use effect_opcua.Client.Monitor.{
  Item, CreateOptions, Validation, unchecked, access_checked, strictly_checked, Server, Runtime,
  LevelValue, StartupFailure, ask, validated,
}
use effect_opcua.Client.Monitor.Validate.{
  Validated, check_denied, settle_strict, validate_strict, check_access, check_number, check_level,
  check_levels, fail_all, settle_chunk, validate_access_chunk, validate_chunks, validate_access,
  validate_startup_items, append_validated,
}
use effect_opcua.Client.Monitor.Balanced.{weigh_items, weigh-chunks_or_nil}

module _ {Info Cause : Type 0} where
  abbrev pub weigh_validated : (String → ℕ) → Validated Info Cause → ℕ
  weigh_validated f v = weigh_items f v.active + weigh_keys f v.failed

  weigh-append_validated :
      (f : String → ℕ) (v w : Validated Info Cause)
      → weigh_validated f (append_validated v w) ≡ weigh_validated f v + weigh_validated f w
  weigh-append_validated f v w = omega (
    arith,
    weigh-append (λ (i : Item Info). f i.key) v.active w.active,
    weigh-append (λ (p : String × StartupFailure Info Cause). f p.0) v.failed w.failed,
  )

module _ {Info Cause : Type 0} (server : Server Info Cause) (f : String → ℕ) where
  weigh-fail_all :
      (cause : Cause) (items : List (Item Info))
      → weigh_validated f (fail_all server cause items) ≡ weigh_items f items
  unfolding fail_all
  weigh-fail_all cause [] = omega arith
  weigh-fail_all cause (item ∷ items) = omega (arith, weigh-fail_all cause items)

  weigh-check_denied :
      (item : Item Info) (error : Option AccessDenied) (rest : Validated Info Cause)
      → weigh_validated f (check_denied server item error rest)
        ≡ f item.key + weigh_validated f rest
  unfolding check_denied
  weigh-check_denied item none rest = omega arith
  weigh-check_denied item (some error) rest = omega arith

  weigh-check_level :
      (item : Item Info) (level : ℕ) (user : Option ℕ) (rest : Validated Info Cause)
      → weigh_validated f (check_level server item level user rest)
        ≡ f item.key + weigh_validated f rest
  unfolding check_level
  weigh-check_level item level user rest =
      weigh-check_denied item
        (access_denied_error server.flags item.node_id read_capability level user) rest

  weigh-check_number :
      (item : Item Info) (v : LevelValue) (number : Option ℕ) (user : Option LevelValue)
      (rest : Validated Info Cause)
      → weigh_validated f (check_number server item v number user rest)
        ≡ f item.key + weigh_validated f rest
  unfolding check_number
  weigh-check_number item v none user rest = omega arith
  weigh-check_number item v (some level) user rest =
      elim (Bool-cases (server.is_good v.status_code)) [
        | inl e ↦ rw e (weigh-check_level item level _ rest)
        | inr e ↦ rw e (omega arith)
      ]

  weigh-check_access :
      (item : Item Info) (level user : Option LevelValue) (rest : Validated Info Cause)
      → weigh_validated f (check_access server item level user rest)
        ≡ f item.key + weigh_validated f rest
  unfolding check_access
  weigh-check_access item none user rest = omega arith
  weigh-check_access item (some v) user rest = weigh-check_number item v v.number user rest

  weigh-check_levels :
      (values : List (Option LevelValue)) (index : ℕ) (items : List (Item Info))
      → weigh_validated f (check_levels server values index items) ≡ weigh_items f items
  unfolding check_levels
  weigh-check_levels values index [] = omega arith
  weigh-check_levels values index (item ∷ items) =
      weigh-check_access item _ _ (check_levels server values (suc index) items)
      ∙ ap (λ n. f item.key + n) (weigh-check_levels values (suc index) items)

  weigh-settle_chunk :
      (chunk : List (Item Info)) (answer : Exit Cause (List (Option LevelValue)))
      → weigh_validated f (settle_chunk server chunk answer) ≡ weigh_items f chunk
  unfolding settle_chunk
  weigh-settle_chunk chunk (failed cause) = weigh-fail_all cause chunk
  weigh-settle_chunk chunk (succeeded values) = weigh-check_levels values 0 chunk

  weigh-validate_chunks :
      (chunks : List (List (Item Info))) (s : Runtime Info Cause)
      → weigh_validated f (validate_chunks server chunks s).0 ≡ weigh_items f (concat chunks)
  unfolding validate_chunks validate_access_chunk
  weigh-validate_chunks [] s = omega arith
  weigh-validate_chunks (chunk ∷ chunks) s =
      let answer = server.read_levels s.calls chunk in
      let first = validate_access_chunk server chunk s in
      let rest = validate_chunks server chunks first.1 in
      omega (
        arith,
        weigh-append_validated f first.0 rest.0,
        weigh-settle_chunk chunk answer,
        weigh-validate_chunks chunks first.1,
        weigh-append (λ (i : Item Info). f i.key) chunk (concat chunks),
      )

  weigh-settle_strict :
      (item : Item Info) (answer : Option Cause) (rest : Validated Info Cause)
      → weigh_validated f (settle_strict server item answer rest)
        ≡ f item.key + weigh_validated f rest
  unfolding settle_strict
  weigh-settle_strict item none rest = omega arith
  weigh-settle_strict item (some cause) rest = omega arith

  weigh-validate_strict :
      (items : List (Item Info)) (s : Runtime Info Cause)
      → weigh_validated f (validate_strict server items s).0 ≡ weigh_items f items
  unfolding validate_strict
  weigh-validate_strict [] s = omega arith
  weigh-validate_strict (item ∷ items) s =
      let answer = server.validate s.calls item in
      let next = ask (validated item answer) s in
      weigh-settle_strict item answer (validate_strict server items next).0
      ∙ ap (λ n. f item.key + n) (weigh-validate_strict items next)

  -- The validation puts every item into `active` or `failed`.
  pub weigh-validate_startup_items :
      (validation : Validation) (create : CreateOptions) (items : List (Item Info))
      (s : Runtime Info Cause)
      → 0 < create.max_items_per_request
      → weigh_validated f (validate_startup_items server validation create items s).0
        ≡ weigh_items f items
  unfolding validate_startup_items validate_access
  weigh-validate_startup_items unchecked create items s pos = omega arith
  weigh-validate_startup_items access_checked create items s pos =
      let chunks = chunks_or_nil (chunks_of items create.max_items_per_request) in
      weigh-validate_chunks chunks s ∙ weigh-chunks_or_nil f items create.max_items_per_request pos
  weigh-validate_startup_items strictly_checked create items s pos = weigh-validate_strict items s
