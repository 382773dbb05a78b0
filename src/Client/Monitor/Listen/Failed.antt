-- ===== src/Client/Monitor/Listen/Failed.antt =====
-- How the stream of a monitor fails while the groups report, in every order of the steps.
use mathlib.Core.List.Memᴰ
use mathlib.Core.List.{append-nil}
use mathlib.Core.Option.{some-injective}
use effect_opcua.Prelude.{
  ℕ, suc, ◌+◌, Option, none, some, List, [], ◌∷◌, ◌++◌, length, length-append, any, nat_eq, true,
  false, not, ◌||◌, Bool-cases, get_elem?, Memᴰ, mem-nil, ⊎_elim, ◌≡◌, refl, sym, ap, ◌∙◌, subst,
  inl, inr, arith,
}
use effect_opcua.Client.Monitor.{
  Event, client_buffer_dropped, monitor_items_terminated, internal_error,
}
use effect_opcua.Client.Monitor.Create.{Entry, Retained}
use effect_opcua.Client.Monitor.Start.{node_ids}
use effect_opcua.Client.Monitor.Buffer.{
  BufferPolicy, Notification, will_drop, offer_monitor_notification,
}
use effect_opcua.Client.Monitor.Listen.{
  RuntimeError, Signal, changed, err, terminated, Live, FailingQueue, KeepsFailure, fail_runtime,
  with_offer, on_changed_entry, on_changed, deliver, cause_of, Step, value, ends, ignored, taken,
  torn_down, finalized, Reach, here, next, option_list,
}

-- The number of InternalError events.
unfoldable pub error_count : List Event → ℕ
error_count [] = 0
error_count (internal_error ∷ events) = suc (error_count events)
error_count (_ ∷ events) = error_count events

abbrev pub first_of : {E : Type 0} → List E → Option E
first_of [] = none
first_of (e ∷ es) = some e

error_count-append : (xs ys : List Event) → error_count (xs ++ ys) ≡ error_count xs + error_count ys
unfolding error_count
error_count-append [] ys = omega arith
error_count-append (internal_error ∷ xs) ys = omega (arith, error_count-append xs ys)
error_count-append (client_buffer_dropped n ∷ xs) ys = error_count-append xs ys
error_count-append (Event.monitor_items_created n ∷ xs) ys = error_count-append xs ys
error_count-append (monitor_items_terminated n ∷ xs) ys = error_count-append xs ys

finalizing-Memᴰ : (h : ℕ) (hs : List ℕ) → Memᴰ h hs → any (λ k. nat_eq k h) hs ≡ true
finalizing-Memᴰ h [] m = absurd (mem-nil m)
finalizing-Memᴰ h (k ∷ hs) m =
    ⊎_elim (λ e. ground arith) (λ n. let rest = finalizing-Memᴰ h hs n in ground arith)
      (Memᴰ.cases_cons m)

not_finalizing-Memᴰ : (h : ℕ) (hs : List ℕ) → ¬ Memᴰ h hs → any (λ k. nat_eq k h) hs ≡ false
not_finalizing-Memᴰ h [] absent = refl
not_finalizing-Memᴰ h (k ∷ hs) absent = elim (Bool-cases (nat_eq k h)) [
  | inl same ↦ absurd (absent (Memᴰ.head (ground arith)))
  | inr differ ↦ rw differ (not_finalizing-Memᴰ h hs (λ m. absent (Memᴰ.tail m)))
]

module _ {Info Value Cause Q : Type 0}
    (q : FailingQueue Q (Notification Info Value) (RuntimeError Cause)) (policy : BufferPolicy)
    (failure : Q → Option (RuntimeError Cause)) (laws : KeepsFailure q failure) where
  -- The queue failed with the first of the errors, and each of them was published.
  pub record IsFailed (s : Live Q) (errors : List (RuntimeError Cause)) (t : Live Q) : Type 0 where
    pub first : failure t.queue ≡ first_of errors
    pub published : error_count t.events ≡ error_count s.events + length errors

  -- A step that leaves the failure and publishes no error.
  abbrev IsQuiet : Live Q → Live Q → Type 0
  IsQuiet s t = (failure t.queue ≡ failure s.queue) × (error_count t.events ≡ error_count s.events)

  offer-IsQuiet :
      (n : Notification Info Value) (s : Live Q)
      → IsQuiet s
          (with_offer q policy s (offer_monitor_notification q.ops policy n (s.queue, s.events)))
  unfolding offer_monitor_notification error_count
  offer-IsQuiet n s =
      elim (Bool-cases (will_drop q.ops policy s.queue || not (q.ops.offer_unsafe s.queue n).0)) [
        | inl e ↦ rw e (
          laws.offered s.queue n,
          error_count-append s.events (client_buffer_dropped n.entry.node_id ∷ []) ∙ omega arith,
        )
        | inr e ↦ rw e (laws.offered s.queue n, refl)
      ]

  deliver_changed-IsQuiet :
      (group : Retained Info) (index : ℕ) (v : Value) (s : Live Q)
      → IsQuiet s (deliver q policy group (changed index v) s)
  unfolding deliver on_changed
  deliver_changed-IsQuiet group index v s = on_entry (get_elem? group.entries index)
    where
      on_entry : (e : Option (Option (Entry Info))) → IsQuiet s (on_changed_entry q policy e v s)
      on_entry none = (refl, refl)
      on_entry (some none) = (refl, refl)
      on_entry (some (some entry)) = offer-IsQuiet (record { entry = entry; data_value = v }) s

  deliver_finalizing :
      (group : Retained Info) (signal : Signal Value Cause) (cause : Cause) (s : Live Q)
      → cause_of q policy signal ≡ some cause
      → Memᴰ group.handle s.finalizing
      → deliver q policy group signal s ≡ s
  unfolding deliver fail_runtime
  deliver_finalizing group (changed i v) cause s e m = absurd (cc)
  deliver_finalizing group (err c) cause s e m =
      rw (finalizing-Memᴰ group.handle s.finalizing m) refl
  deliver_finalizing group (terminated c) cause s e m =
      rw (finalizing-Memᴰ group.handle s.finalizing m) refl

  -- The queue fails with the error if it has not failed before; one error is published.
  abbrev Fails : RuntimeError Cause → Live Q → Live Q → Type 0
  Fails e s t =
      (failure t.queue ≡ failure (q.fail_queue s.queue e))
      × (error_count t.events ≡ error_count s.events + 1)

  deliver-Fails :
      (group : Retained Info) (signal : Signal Value Cause) (cause : Cause) (s : Live Q)
      → cause_of q policy signal ≡ some cause
      → ¬ Memᴰ group.handle s.finalizing
      → Fails
          (record { node_ids = node_ids group.entries; cause = cause })
          s
          (deliver q policy group signal s)
  unfolding deliver fail_runtime error_count
  deliver-Fails group (changed i v) cause s e absent = absurd (cc)
  deliver-Fails group (err c) cause s e absent =
      rw (not_finalizing-Memᴰ group.handle s.finalizing absent) (
        ap
            (λ c.
              failure
                (q.fail_queue s.queue (record { node_ids = node_ids group.entries; cause = c })))
            (some-injective c cause e),
        error_count-append s.events (internal_error ∷ []) ∙ omega arith,
      )
  deliver-Fails group (terminated c) cause s e absent =
      rw (not_finalizing-Memᴰ group.handle s.finalizing absent) (
        ap
            (λ c.
              failure
                (q.fail_queue s.queue (record { node_ids = node_ids group.entries; cause = c })))
            (some-injective c cause e),
        error_count-append (s.events ++ monitor_items_terminated (node_ids group.entries) ∷ [])
              (internal_error ∷ [])
            ∙ omega (
              arith,
              error_count-append s.events (monitor_items_terminated (node_ids group.entries) ∷ []),
            ),
      )

  IsFailed-quiet :
      (s t u : Live Q) (errors : List (RuntimeError Cause))
      → IsFailed s errors t
      → IsQuiet t u
      → IsFailed s (errors ++ []) u
  IsFailed-quiet s t u errors h (same, count) = record {
    first = same ∙ h.first ∙ ap first_of (sym (append-nil errors));
    published =
        count ∙ h.published ∙ ap (λ l. error_count s.events + length l) (sym (append-nil errors));
  }

  failed_after :
      (errors : List (RuntimeError Cause)) (e : RuntimeError Cause) (s : Q)
      → failure s ≡ first_of errors
      → failure (q.fail_queue s e) ≡ first_of (errors ++ e ∷ [])
  failed_after [] e s h = laws.first s e h
  failed_after (f ∷ errors) e s h = laws.later s e f h

  IsFailed-Fails :
      (s t u : Live Q) (errors : List (RuntimeError Cause)) (e : RuntimeError Cause)
      → IsFailed s errors t
      → Fails e t u
      → IsFailed s (errors ++ e ∷ []) u
  IsFailed-Fails s t u errors e h (same, count) = record {
    first = same ∙ failed_after errors e t.queue h.first;
    published = omega (arith, count, h.published, length-append errors (e ∷ []));
  }

  Step-IsFailed :
      (s t u : Live Q) (errors : List (RuntimeError Cause)) (label : Option (RuntimeError Cause))
      → IsFailed s errors t
      → Step q policy failure t u label
      → IsFailed s (errors ++ option_list q policy label) u
  Step-IsFailed s t u errors label h (value group index v listens same) =
      IsFailed-quiet s t u errors h
        (subst (IsQuiet t) (sym same) (deliver_changed-IsQuiet group index v t))
  Step-IsFailed s t u errors label h (ends group signal cause listens is_cause absent same) =
      IsFailed-Fails s t u errors _ h
        (subst (Fails _ t) (sym same) (deliver-Fails group signal cause t is_cause absent))
  Step-IsFailed s t u errors label h (ignored group signal cause listens is_cause m same) =
      IsFailed-quiet s t u errors h (
        subst (IsQuiet t) (sym (same ∙ deliver_finalizing group signal cause t is_cause m))
          (refl, refl))
  Step-IsFailed s t u errors label h (taken rest kept same) =
      IsFailed-quiet s t u errors h (subst (IsQuiet t) (sym same) (kept, refl))
  Step-IsFailed s t u errors label h (torn_down handle same) =
      IsFailed-quiet s t u errors h (subst (IsQuiet t) (sym same) (refl, refl))
  Step-IsFailed s t u errors label h (finalized handle same) =
      IsFailed-quiet s t u errors h (subst (IsQuiet t) (sym same) (refl, refl))

  -- In every state that a monitor with an open queue reaches, while its groups report values, errors
  -- and terminations in any order, the consumer takes samples, and the clean-up takes listeners off and
  -- marks groups, the queue has failed exactly if an error or a termination has reached a group that was not
  -- marked, with the first of these and the nodes of its group; and each of them was published as one InternalError.
  pub Reach-IsFailed :
      (s t : Live Q) (errors : List (RuntimeError Cause))
      → failure s.queue ≡ none
      → Reach q policy failure s errors t
      → IsFailed s errors t
  Reach-IsFailed s t errors open_queue here = record { first = open_queue; published = omega arith }
  Reach-IsFailed s t errors open_queue (next {errors = before} {t = mid} _ _ label r step same) =
      subst (λ l. IsFailed s l t) (sym same)
        (Step-IsFailed s mid t before label (Reach-IsFailed s mid before open_queue r) step)
