-- ===== src/Client/Monitor/Released.antt =====
-- packages/client/src/internal/monitoring/runtime.ts: every step up to the wiring keeps account of the
-- groups that the server gave, and the cleanup terminates what is registered.
use mathlib.Core.List.Memᴰ
use effect_opcua.Prelude.{
  ℕ, List, [], ◌∷◌, ◌++◌, Bool, true, false, nat_eq, eq_of_nat_eq, Bool-cases, ◌≡◌, refl, sym, ap,
  subst, ◌∙◌, ◌⊎◌, inl, inr, ⊎_elim, Memᴰ, mem-nil, if◌then◌else◌,
}
use effect_opcua.Client.Effect.{Exit, succeeded, failed}
use effect_opcua.Client.Batch.{chunks_of, chunks_or_nil}
use effect_opcua.Client.Monitor.{
  Item, Call, created, terminated, levels_read, validated, Group, Server, Runtime, ask,
  remove_first, terminate_monitor_group, CreateOptions, Validation, unchecked, access_checked,
  strictly_checked,
}
use effect_opcua.Client.Monitor.Validate.{
  validate_strict, validate_chunks, validate_access_chunk, validate_access, validate_startup_items,
}
use effect_opcua.Client.Monitor.Create.{
  Sorted, settle_group, settle_created, create_monitor_chunk, create_chunks,
}
use effect_opcua.Client.Monitor.Start.{terminate_groups, run_teardowns, cleanup_monitor}

mem-remove_first : (g h : ℕ) (hs : List ℕ) → Memᴰ h hs → (h ≡ g) ⊎ Memᴰ h (remove_first g hs)
unfolding remove_first
mem-remove_first g h [] m = absurd (mem-nil m)
mem-remove_first g h (k ∷ ks) m = elim (Bool-cases (nat_eq k g)) [
  | inl same ↦
      ⊎_elim (λ e. inl (e ∙ eq_of_nat_eq k g same)) (λ n. inr (rw same n)) (Memᴰ.cases_cons m)
  | inr other ↦
      ⊎_elim (λ e. inr (rw other (Memᴰ.head e)))
        (λ n. ⊎_elim inl (λ r. inr (rw other (Memᴰ.tail r))) (mem-remove_first g h ks n))
        (Memᴰ.cases_cons m)
]

module _ {Info Cause : Type 0} where
  -- Every group that the server gave is registered, or was terminated.
  abbrev pub IsAccounted : Runtime Info Cause → Type 0
  IsAccounted s =
      (chunk : List (Item Info)) (group : Group)
      → Memᴰ (created chunk (succeeded group)) s.calls
      → Memᴰ group.handle s.created_groups ⊎ Memᴰ (terminated group.handle) s.calls

  -- Every group that the server gave was terminated.
  abbrev pub IsReleased : Runtime Info Cause → Type 0
  IsReleased s =
      (chunk : List (Item Info)) (group : Group)
      → Memᴰ (created chunk (succeeded group)) s.calls
      → Memᴰ (terminated group.handle) s.calls

  -- A call that creates nothing.
  abbrev CreatesNothing : Call Info Cause → Type 0
  CreatesNothing (created chunk (succeeded group)) = ⊥
  CreatesNothing _ = Unit

  IsAccounted-ask :
      (call : Call Info Cause) (s : Runtime Info Cause)
      → CreatesNothing call
      → IsAccounted s
      → IsAccounted (ask call s)
  IsAccounted-ask call s nothing h chunk group m =
      ⊎_elim (λ old. ⊎_elim inl (λ t. inr (Memᴰ.append_left (call ∷ []) t)) (h chunk group old))
        (λ new. absurd (subst CreatesNothing (sym (Memᴰ.eq_of_singleton new)) nothing))
        (Memᴰ.append_cases s.calls m)

  -- A group that is given is registered.
  IsAccounted-created :
      (chunk : List (Item Info)) (group : Group) (s : Runtime Info Cause)
      → IsAccounted s
      → IsAccounted (record s {
        calls = s.calls ++ created chunk (succeeded group) ∷ [];
        created_groups = s.created_groups ++ group.handle ∷ [];
      })
  IsAccounted-created chunk group s h c g m =
      ⊎_elim
        (λ old.
          ⊎_elim (λ r. inl (Memᴰ.append_left (group.handle ∷ []) r))
            (λ t. inr (Memᴰ.append_left _ t)) (h c g old))
        (λ new.
          let same : g ≡ group = cc (Memᴰ.eq_of_singleton new) in
          inl (Memᴰ.append_right s.created_groups (Memᴰ.head (ap (λ (x : Group). x.handle) same))))
        (Memᴰ.append_cases s.calls m)

  -- Terminating a group and removing it keeps the account.
  IsAccounted-remove :
      (g : ℕ) (s : Runtime Info Cause)
      → IsAccounted s
      → IsAccounted (
          let gone = terminate_monitor_group g s in
          record gone { created_groups = remove_first g gone.created_groups })
  IsAccounted-remove g s h chunk group m =
      ⊎_elim
        (λ old.
          ⊎_elim
            (λ r.
              ⊎_elim (λ e. inr (Memᴰ.append_right s.calls (Memᴰ.head (ap terminated e)))) inl
                (mem-remove_first g group.handle s.created_groups r))
            (λ t. inr (Memᴰ.append_left _ t)) (h chunk group old))
        (λ new. absurd (subst CreatesNothing (sym (Memᴰ.eq_of_singleton new)) tt))
        (Memᴰ.append_cases s.calls m)

  -- terminate_groups terminates each of its groups, and keeps the calls made before.
  calls-terminate_groups :
      (groups : List ℕ) (s : Runtime Info Cause)
      → ((g : ℕ) → Memᴰ g groups → Memᴰ (terminated g) (terminate_groups groups s).calls)
        × ((c : Call Info Cause) → Memᴰ c s.calls → Memᴰ c (terminate_groups groups s).calls)
        × ((chunk : List (Item Info)) (group : Group)
            → Memᴰ (created chunk (succeeded group)) (terminate_groups groups s).calls
            → Memᴰ (created chunk (succeeded group)) s.calls)
  unfolding terminate_groups
  calls-terminate_groups [] s = (λ g m. absurd (mem-nil m), λ c m. m, λ chunk group m. m)
  calls-terminate_groups (g ∷ groups) s =
      let next = terminate_monitor_group g (record s { finalizing = g ∷ s.finalizing }) in
      let (all, kept, old) = calls-terminate_groups groups next in
      (
        λ h m.
            ⊎_elim
              (λ e. kept (terminated h) (Memᴰ.append_right s.calls (Memᴰ.head (ap terminated e))))
              (all h) (Memᴰ.cases_cons m),
        λ c m. kept c (Memᴰ.append_left _ m),
        λ chunk group m.
            ⊎_elim (λ before. before)
              (λ new. absurd (subst CreatesNothing (sym (Memᴰ.eq_of_singleton new)) tt))
              (Memᴰ.append_cases s.calls (old chunk group m)),
      )

  -- Taking listeners off changes neither the calls nor the registered groups.
  run_teardowns-keeps :
      (teardowns : List ℕ) (s : Runtime Info Cause)
      → ((run_teardowns teardowns s).calls ≡ s.calls)
        × ((run_teardowns teardowns s).created_groups ≡ s.created_groups)
  unfolding run_teardowns
  run_teardowns-keeps [] s = (refl, refl)
  run_teardowns-keeps (g ∷ teardowns) s = run_teardowns-keeps teardowns _

  -- cleanupMonitor terminates what is registered, so nothing is leaked after it.
  pub IsReleased-cleanup_monitor :
      (teardowns : List ℕ) (s : Runtime Info Cause)
      → IsAccounted s
      → IsReleased (cleanup_monitor teardowns s)
  unfolding cleanup_monitor
  IsReleased-cleanup_monitor teardowns s h chunk group m =
      let quiet = run_teardowns teardowns s in
      let (same_calls, same_groups) = run_teardowns-keeps teardowns s in
      let (all, kept, old) =
        calls-terminate_groups quiet.created_groups (record quiet { created_groups = [] }) in
      let before = subst (Memᴰ (created chunk (succeeded group))) same_calls (old chunk group m) in
      ⊎_elim
        (λ registered. all group.handle (subst (Memᴰ group.handle) (sym same_groups) registered))
        (λ t.
          kept (terminated group.handle)
            (subst (Memᴰ (terminated group.handle)) (sym same_calls) t))
        (h chunk group before)

  -- Before the wiring no group is listened to.
  abbrev pub IsQuiet : Runtime Info Cause → Type 0
  IsQuiet s = IsAccounted s × (s.listening ≡ [])

  IsQuiet-if :
      {A : Type 0} (b : Bool) (x y : A × Runtime Info Cause)
      → IsQuiet x.1
      → IsQuiet y.1
      → IsQuiet (if b then x else y).1
  IsQuiet-if true x y h k = h
  IsQuiet-if false x y h k = k

  IsQuiet-ask :
      (call : Call Info Cause) (s : Runtime Info Cause)
      → CreatesNothing call
      → IsQuiet s
      → IsQuiet (ask call s)
  IsQuiet-ask call s nothing (h, q) = (IsAccounted-ask call s nothing h, q)

  -- Nothing is left behind: every group that the server gave is terminated, and no listener is on.
  abbrev pub IsClean : Runtime Info Cause → Type 0
  IsClean s = IsReleased s × (s.listening ≡ [])

  IsClean-ask :
      (call : Call Info Cause) (s : Runtime Info Cause)
      → CreatesNothing call
      → IsClean s
      → IsClean (ask call s)
  IsClean-ask call s nothing (h, q) = (
    λ chunk group m.
        ⊎_elim (λ old. Memᴰ.append_left (call ∷ []) (h chunk group old))
          (λ new. absurd (subst CreatesNothing (sym (Memᴰ.eq_of_singleton new)) nothing))
          (Memᴰ.append_cases s.calls m),
    q,
  )

  pub IsQuiet-of_IsClean : (s : Runtime Info Cause) → IsClean s → IsQuiet s
  IsQuiet-of_IsClean s (h, q) = (λ chunk group m. inr (h chunk group m), q)

module _ {Info Cause : Type 0} (server : Server Info Cause) where
  IsQuiet-settle_group :
      (chunk : List (Item Info)) (group : Group) (sorted : Sorted Info Cause)
      (s : Runtime Info Cause)
      → IsQuiet s
      → IsQuiet (settle_group server group sorted (ask (created chunk (succeeded group)) s)).1
  unfolding settle_group
  IsQuiet-settle_group chunk group sorted s (h, q) =
      let added = record s {
        calls = s.calls ++ created chunk (succeeded group) ∷ [];
        created_groups = s.created_groups ++ group.handle ∷ [];
      } in
      let h' = IsAccounted-created chunk group s h in
      IsQuiet-if _ _ _ (IsAccounted-remove group.handle added h', q) (h', q)

  IsQuiet-settle_created :
      (chunk : List (Item Info)) (answer : Exit Cause Group) (s : Runtime Info Cause)
      → IsQuiet s
      → IsQuiet (settle_created server chunk answer (ask (created chunk answer) s)).1
  unfolding settle_created
  IsQuiet-settle_created chunk (failed cause) s h = IsQuiet-ask _ s tt h
  IsQuiet-settle_created chunk (succeeded group) s h = IsQuiet-settle_group chunk group _ s h

  pub IsQuiet-create_chunks :
      (chunks : List (List (Item Info))) (s : Runtime Info Cause)
      → IsQuiet s
      → IsQuiet (create_chunks server chunks s).1
  unfolding create_chunks create_monitor_chunk
  IsQuiet-create_chunks [] s h = h
  IsQuiet-create_chunks (chunk ∷ chunks) s h =
      IsQuiet-create_chunks chunks _
        (IsQuiet-settle_created chunk (server.create s.calls chunk) s h)

  IsClean-validate_strict :
      (items : List (Item Info)) (s : Runtime Info Cause)
      → IsClean s
      → IsClean (validate_strict server items s).1
  unfolding validate_strict
  IsClean-validate_strict [] s h = h
  IsClean-validate_strict (item ∷ items) s h =
      IsClean-validate_strict items _
        (IsClean-ask (validated item (server.validate s.calls item)) s tt h)

  IsClean-validate_chunks :
      (chunks : List (List (Item Info))) (s : Runtime Info Cause)
      → IsClean s
      → IsClean (validate_chunks server chunks s).1
  unfolding validate_chunks validate_access_chunk
  IsClean-validate_chunks [] s h = h
  IsClean-validate_chunks (chunk ∷ chunks) s h =
      IsClean-validate_chunks chunks _
        (IsClean-ask (levels_read chunk (server.read_levels s.calls chunk)) s tt h)

  pub IsClean-validate_startup_items :
      (validation : Validation) (create : CreateOptions) (items : List (Item Info))
      (s : Runtime Info Cause)
      → IsClean s
      → IsClean (validate_startup_items server validation create items s).1
  unfolding validate_startup_items validate_access
  IsClean-validate_startup_items unchecked create items s h = h
  IsClean-validate_startup_items access_checked create items s h =
      IsClean-validate_chunks (chunks_or_nil (chunks_of items create.max_items_per_request)) s h
  IsClean-validate_startup_items strictly_checked create items s h =
      IsClean-validate_strict items s h
