-- ===== src/Client/Monitor/Leaks.antt =====
-- packages/client/src/internal/monitoring/runtime.ts: what `monitor` created is terminated when it fails,
-- and when the finalizer of its scope runs.
use mathlib.Core.List.Memᴰ
use effect_opcua.Prelude.{
  ℕ, List, [], ◌∷◌, true, nat_eq, Bool-cases, length, ◌≡◌, ◌≢◌, refl, sym, subst, ◌∙◌, ◌⊎◌, inl,
  inr, ⊎_elim, Memᴰ, mem-nil, arith,
}
use effect_opcua.Client.Effect.{Exit, succeeded, failed}
use effect_opcua.Client.Monitor.{
  Item, created, terminated, Server, Runtime, CreateOptions, Startup, Validation, StartupReport,
}
use effect_opcua.Client.Monitor.Validate.{Validated, validate_startup_items}
use effect_opcua.Client.Monitor.Create.{Retained, create_monitor_chunks, chunks_to_create}
use effect_opcua.Client.Monitor.Start.{
  run_teardowns, remove_group, terminate_groups, cleanup_monitor, wire_monitor_group, wire_all,
  handles, set_all, refuses, finish_startup, start_validated, ActiveMonitor, monitor,
}
use effect_opcua.Client.Monitor.Released.{
  IsAccounted, IsQuiet, IsClean, IsQuiet-of_IsClean, IsReleased-cleanup_monitor,
  IsQuiet-create_chunks, IsClean-validate_startup_items,
}

-- What remains after one group is taken off is another group that was there.
mem-remove_group : (g h : ℕ) (hs : List ℕ) → Memᴰ h (remove_group g hs) → Memᴰ h hs × (h ≢ g)
unfolding remove_group
mem-remove_group g h [] m = absurd (mem-nil m)
mem-remove_group g h (k ∷ ks) m = elim (Bool-cases (nat_eq k g)) [
  | inl same ↦ let (old, other) = mem-remove_group g h ks (rw same at m) in (Memᴰ.tail old, other)
  | inr other ↦
      ⊎_elim (λ e. (Memᴰ.head e, λ same. ground arith))
        (λ n. let (old, apart) = mem-remove_group g h ks n in (Memᴰ.tail old, apart))
        (Memᴰ.cases_cons (rw other at m))
]

eq_nil_of_no_member : (gs : List ℕ) → ((g : ℕ) → ¬ Memᴰ g gs) → gs ≡ []
eq_nil_of_no_member [] h = refl
eq_nil_of_no_member (g ∷ gs) h = absurd (h g (Memᴰ.head refl))

module _ {Info Cause : Type 0} where
  mem-run_teardowns :
      (teardowns : List ℕ) (s : Runtime Info Cause) (g : ℕ)
      → Memᴰ g (run_teardowns teardowns s).listening
      → Memᴰ g s.listening × ¬ Memᴰ g teardowns
  unfolding run_teardowns
  mem-run_teardowns [] s g m = (m, mem-nil)
  mem-run_teardowns (t ∷ teardowns) s g m =
      let (left, apart) =
        mem-run_teardowns teardowns (record s { listening = remove_group t s.listening }) g m in
      let (old, other) = mem-remove_group t g s.listening left in
      (old, λ n. ⊎_elim other apart (Memᴰ.cases_cons n))

  listening-terminate_groups :
      (groups : List ℕ) (s : Runtime Info Cause)
      → (terminate_groups groups s).listening ≡ s.listening
  unfolding terminate_groups
  listening-terminate_groups [] s = refl
  listening-terminate_groups (g ∷ groups) s = listening-terminate_groups groups _

  listening-cleanup_monitor :
      (teardowns : List ℕ) (s : Runtime Info Cause)
      → ((g : ℕ) → Memᴰ g s.listening → Memᴰ g teardowns)
      → (cleanup_monitor teardowns s).listening ≡ []
  unfolding cleanup_monitor
  listening-cleanup_monitor teardowns s h =
      let quiet = run_teardowns teardowns s in
      listening-terminate_groups quiet.created_groups (record quiet { created_groups = [] })
      ∙ eq_nil_of_no_member _
          (λ g m. let (old, apart) = mem-run_teardowns teardowns s g m in apart (h g old))

  -- The wiring listens to the groups it is given, and neither asks nor registers anything.
  wire_all-listens :
      (retained : List (Retained Info)) (s : Runtime Info Cause)
      → ((wire_all retained s).calls ≡ s.calls)
        × ((wire_all retained s).created_groups ≡ s.created_groups)
        × ((g : ℕ)
            → Memᴰ g (wire_all retained s).listening
            → Memᴰ g s.listening ⊎ Memᴰ g (handles retained))
  unfolding wire_all wire_monitor_group
  wire_all-listens [] s = (refl, refl, λ g m. inl m)
  wire_all-listens (r ∷ rs) s =
      let (same_calls, same_groups, listens) = wire_all-listens rs (wire_monitor_group r s) in
      (
        same_calls,
        same_groups,
        λ g m.
            ⊎_elim
              (λ before.
                ⊎_elim inl (λ new. inr (Memᴰ.head (Memᴰ.eq_of_singleton new)))
                  (Memᴰ.append_cases s.listening before))
              (λ later. inr (Memᴰ.tail later)) (listens g m),
      )

  IsClean-cleanup_monitor :
      (teardowns : List ℕ) (s : Runtime Info Cause)
      → IsAccounted s
      → ((g : ℕ) → Memᴰ g s.listening → Memᴰ g teardowns)
      → IsClean (cleanup_monitor teardowns s)
  IsClean-cleanup_monitor teardowns s h listens =
      (IsReleased-cleanup_monitor teardowns s h, listening-cleanup_monitor teardowns s listens)

  -- After a failure the state is clean, after a success the finalizer makes it clean.
  abbrev pub LeavesNothing :
      Exit (StartupReport Info Cause) (ActiveMonitor Info Cause) × Runtime Info Cause → Type 0
  LeavesNothing (failed report, s) = IsClean s
  LeavesNothing (succeeded m, s) = IsClean (cleanup_monitor m.teardowns s)

  IsAccounted-same :
      (s t : Runtime Info Cause)
      → t.calls ≡ s.calls
      → t.created_groups ≡ s.created_groups
      → IsAccounted s
      → IsAccounted t
  IsAccounted-same s t same_calls same_groups h chunk group m =
      ⊎_elim (λ r. inl (subst (Memᴰ group.handle) (sym same_groups) r))
        (λ gone. inr (subst (Memᴰ (terminated group.handle)) (sym same_calls) gone))
        (h chunk group (subst (Memᴰ (created chunk (succeeded group))) same_calls m))

module _ {Info Cause : Type 0} (server : Server Info Cause) where
  LeavesNothing-finish_startup :
      (startup : Startup) (report : StartupReport Info Cause) (retained : List (Retained Info))
      (s : Runtime Info Cause)
      → IsQuiet s
      → LeavesNothing (finish_startup server startup report retained s)
  unfolding finish_startup
  LeavesNothing-finish_startup startup report retained s (h, q) =
      let (same_calls, same_groups, listens) = wire_all-listens retained s in
      let none_before : (g : ℕ) → ¬ Memᴰ g s.listening = λ g m. mem-nil (subst (Memᴰ g) q m) in
      elim (Bool-cases (refuses startup report.failed_count)) [
        | inl e ↦ rw e (IsClean-cleanup_monitor [] s h (λ g m. absurd (none_before g m)))
        | inr e ↦ rw e (
            IsClean-cleanup_monitor (handles retained) (wire_all retained s)
              (IsAccounted-same s (wire_all retained s) same_calls same_groups h)
              (λ g m. ⊎_elim (λ before. absurd (none_before g before)) (λ new. new) (listens g m)))
      ]

  LeavesNothing-start_validated :
      (requested : ℕ) (startup : Startup) (create : CreateOptions) (v : Validated Info Cause)
      (s : Runtime Info Cause)
      → IsQuiet s
      → LeavesNothing (start_validated server requested startup create v s)
  unfolding start_validated create_monitor_chunks
  LeavesNothing-start_validated requested startup create v s h =
      LeavesNothing-finish_startup startup _ _ _ (
        IsQuiet-create_chunks server (chunks_to_create server create v.active)
          (record s { queue_open = true }) h)

  -- When nothing was created and nothing is listened to before the call, `monitor` leaks no group: if it
  -- fails, every group that the server gave it is terminated and no listener is on; if it succeeds, the
  -- same holds once the finalizer of the scope, cleanupMonitor, has run. This holds for all answers of
  -- the server, for every startup mode and every validation mode.
  pub monitor-LeavesNothing :
      (startup : Startup) (validation : Validation) (create : CreateOptions)
      (items : List (Item Info)) (s : Runtime Info Cause)
      → s.calls ≡ []
      → s.listening ≡ []
      → LeavesNothing (monitor server startup validation create items s)
  unfolding monitor
  monitor-LeavesNothing startup validation create items s fresh quiet =
      let start : IsClean s = (
        λ chunk group m. absurd (mem-nil (subst (Memᴰ (created chunk (succeeded group))) fresh m)),
        quiet,
      ) in
      let checked = validate_startup_items server validation create items s in
      let h = IsClean-validate_startup_items server validation create items s start in
      elim (Bool-cases (refuses startup (length (set_all checked.0.failed [])))) [
        | inl e ↦ rw e h
        | inr e ↦ rw e (
            LeavesNothing-start_validated (length items) startup create checked.0 checked.1
              (IsQuiet-of_IsClean checked.1 h))
      ]
