-- ===== src/Client/Monitor/Losses.antt =====
-- packages/client/src/internal/monitoring/runtime.ts: what the buffer of a monitor keeps, and that no
-- notification is lost without an event.
use mathlib.Core.List.{append_assoc, append-nil}
use effect_opcua.Prelude.{
  ℕ, zero, suc, ◌+◌, ◌-◌, ◌≤◌, ◌<◌, String, List, [], ◌∷◌, ◌++◌, true, false, leb, drop, take,
  take_all, take-append-drop, subst, take-append_le, drop-append_le, drop-suc, Bool-cases, length,
  length-append, length-drop, ◌≡◌, refl, sym, ap, ◌∙◌, ◌⊎◌, inl, inr, arith,
}
use effect_opcua.Client.Monitor.{Event, client_buffer_dropped}
use effect_opcua.Client.Monitor.Buffer.{
  BufferPolicy, sliding, dropping, capacity, Notification, QueueOps, IsBounded, will_drop,
  offer_monitor_notification, offer_all, dropped_count,
}

dropped_count-append :
    (events : List Event) (node_id : String)
    → dropped_count (events ++ client_buffer_dropped node_id ∷ []) ≡ suc (dropped_count events)
unfolding dropped_count
dropped_count-append [] node_id = omega arith
dropped_count-append (client_buffer_dropped n ∷ events) node_id =
    omega (arith, dropped_count-append events node_id)
dropped_count-append (Event.monitor_items_created _ ∷ events) node_id =
    dropped_count-append events node_id
dropped_count-append (Event.monitor_items_terminated _ ∷ events) node_id =
    dropped_count-append events node_id
dropped_count-append (Event.internal_error ∷ events) node_id = dropped_count-append events node_id

module _ {A : Type 0} where
  -- A sliding buffer keeps the newest elements, a dropping one the oldest.
  abbrev pub kept : BufferPolicy → List A → List A
  kept (sliding n) xs = drop (length xs - n) xs
  kept (dropping n) xs = take n xs

  kept_sliding-below :
      (n : ℕ) (xs : List A) (x : A)
      → length xs < n
      → kept (sliding n) (xs ++ x ∷ []) ≡ kept (sliding n) xs ++ x ∷ []
  kept_sliding-below n xs x below =
      let before : length xs - n ≡ 0 = omega arith in
      let after : length (xs ++ x ∷ []) - n ≡ 0 = omega (arith, length-append xs (x ∷ [])) in
      rw (before, after) refl

  kept_sliding-full :
      (n : ℕ) (xs : List A) (x : A)
      → n ≤ length xs
      → kept (sliding n) (xs ++ x ∷ []) ≡ drop 1 (kept (sliding n) xs ++ x ∷ [])
  kept_sliding-full n xs x full =
      let count : length (xs ++ x ∷ []) - n ≡ suc (length xs - n) =
        omega (arith, length-append xs (x ∷ [])) in
      rw count (
        drop-suc (length xs - n) (xs ++ x ∷ [])
        ∙ ap (drop 1) (drop-append_le (length xs - n) xs (x ∷ []) (omega arith)))

  kept_dropping-below :
      (n : ℕ) (xs : List A) (x : A)
      → length xs < n
      → kept (dropping n) (xs ++ x ∷ []) ≡ kept (dropping n) xs ++ x ∷ []
  kept_dropping-below n xs x below =
      take_all n (xs ++ x ∷ []) (omega (arith, length-append xs (x ∷ [])))
      ∙ ap (λ ys. ys ++ x ∷ []) (sym (take_all n xs (omega arith)))

  kept-nil : (policy : BufferPolicy) → kept policy [] ≡ []
  kept-nil (sliding n) = let none_over : 0 - n ≡ 0 = omega arith in rw none_over refl
  kept-nil (dropping zero) = refl
  kept-nil (dropping (suc n)) = refl

  length-kept :
      (policy : BufferPolicy) (xs : List A)
      → length (kept policy xs) + (length xs - capacity policy) ≡ length xs
  length-kept (sliding n) xs = omega (arith, length-drop (length xs - n) xs)
  length-kept (dropping n) xs = omega (
    arith,
    ap length (take-append-drop n xs),
    length-append (take n xs) (drop n xs),
    length-drop n xs,
  )

module _ {Info Value Q : Type 0} (ops : QueueOps Q (Notification Info Value))
    (contents : Q → List (Notification Info Value)) where
  -- The buffer holds what is kept of the notifications, and every loss was published.
  abbrev pub IsBuffered :
      BufferPolicy → List (Notification Info Value) → ℕ → Q × List Event → Type 0
  IsBuffered policy past start (q, events) =
      (contents q ≡ kept policy past)
      × (dropped_count events ≡ start + (length past - capacity policy))

  -- An offer that is accepted without a loss.
  offer-accepted :
      (policy : BufferPolicy) (n : Notification Info Value) (q : Q) (events : List Event)
      → will_drop ops policy q ≡ false
      → (ops.offer_unsafe q n).0 ≡ true
      → offer_monitor_notification ops policy n (q, events) ≡ ((ops.offer_unsafe q n).1, events)
  unfolding offer_monitor_notification
  offer-accepted policy n q events stays offered = rw (stays, offered) refl

  -- An offer that loses an element.
  offer-lossy :
      (policy : BufferPolicy) (n : Notification Info Value) (q : Q) (events : List Event)
      → (will_drop ops policy q ≡ true) ⊎ ((ops.offer_unsafe q n).0 ≡ false)
      → offer_monitor_notification ops policy n (q, events)
        ≡ ((ops.offer_unsafe q n).1, events ++ client_buffer_dropped n.entry.node_id ∷ [])
  unfolding offer_monitor_notification
  offer-lossy policy n q events (inl drops) = rw drops refl
  offer-lossy policy n q events (inr refused) = ground arith

  IsBuffered-offer :
      (policy : BufferPolicy) (queue : IsBounded policy ops contents)
      (past : List (Notification Info Value)) (start : ℕ) (n : Notification Info Value) (q : Q)
      (events : List Event)
      → IsBuffered policy past start (q, events)
      → IsBuffered policy
          (past ++ n ∷ [])
          start
          (offer_monitor_notification ops policy n (q, events))
  IsBuffered-offer (sliding c) queue past start n q events (held, count) =
      let size : ops.size_unsafe q ≡ length (kept (sliding c) past) =
        queue.size q ∙ ap length held in
      let total = length-kept (sliding c) past in
      let longer = length-append past (n ∷ []) in
      elim (Bool-cases (leb c (length past))) [
        | inl full ↦
            let (_, slid) = queue.slides q n c refl (ground (arith, ap length held)) in
            rw (offer-lossy (sliding c) n q events (inl (ground arith))) (
              slid
                  ∙ ap (λ l. drop 1 (l ++ n ∷ [])) held
                  ∙ sym (kept_sliding-full c past n (ground arith)),
              ground (arith, dropped_count-append events n.entry.node_id),
            )
        | inr below ↦
            let (offered, grown) = queue.appends q n (ground (arith, ap length held)) in
            rw (offer-accepted (sliding c) n q events (ground arith) offered) (
              grown ∙ ap (λ l. l ++ n ∷ []) held ∙ sym (kept_sliding-below c past n (ground arith)),
              ground arith,
            )
      ]
  IsBuffered-offer (dropping c) queue past start n q events (held, count) =
      let total = length-kept (dropping c) past in
      let longer = length-append past (n ∷ []) in
      elim (Bool-cases (leb c (length past))) [
        | inl full ↦
            let (refused, same) = queue.refuses q n c refl (ground (arith, ap length held)) in
            rw (offer-lossy (dropping c) n q events (inr refused)) (
              same ∙ held ∙ sym (take-append_le c past (n ∷ []) (ground arith)),
              ground (arith, dropped_count-append events n.entry.node_id),
            )
        | inr below ↦
            let (offered, grown) = queue.appends q n (ground (arith, ap length held)) in
            rw (offer-accepted (dropping c) n q events refl offered) (
              grown
                  ∙ ap (λ l. l ++ n ∷ []) held
                  ∙ sym (kept_dropping-below c past n (ground arith)),
              ground arith,
            )
      ]

  IsBuffered-offer_all :
      (policy : BufferPolicy) (queue : IsBounded policy ops contents)
      (past : List (Notification Info Value)) (start : ℕ) (ns : List (Notification Info Value))
      (s : Q × List Event)
      → IsBuffered policy past start s
      → IsBuffered policy (past ++ ns) start (offer_all ops policy ns s)
  unfolding offer_all
  IsBuffered-offer_all policy queue past start [] s h =
      subst (λ l. IsBuffered policy l start s) (sym (append-nil past)) h
  IsBuffered-offer_all policy queue past start (n ∷ ns) (q, events) h =
      subst (λ l. IsBuffered policy l start (offer_all ops policy (n ∷ ns) (q, events)))
        (append_assoc past (n ∷ []) ns)
        (IsBuffered-offer_all policy queue (past ++ n ∷ []) start ns
          (offer_monitor_notification ops policy n (q, events))
          (IsBuffered-offer policy queue past start n q events h))

  -- With an open queue of the documented behaviour that is empty at first: after any notifications the
  -- buffer holds the newest of them where it slides and the oldest where it drops, as many as its
  -- capacity allows; it never holds more than its capacity; and as many ClientBufferDropped events
  -- were published as notifications are missing from it.
  pub offer_all-IsBuffered :
      (policy : BufferPolicy) (queue : IsBounded policy ops contents)
      (ns : List (Notification Info Value)) (q : Q) (events : List Event)
      → contents q ≡ []
      → (let (q', events') = offer_all ops policy ns (q, events) in
          (contents q' ≡ kept policy ns)
          × (length (contents q') ≤ capacity policy)
          × (dropped_count events' + length (contents q') ≡ dropped_count events + length ns))
  offer_all-IsBuffered policy queue ns q events empty =
      let (held, count) =
        IsBuffered-offer_all policy queue [] (dropped_count events) ns (q, events)
          (empty ∙ sym (kept-nil policy), omega arith) in
      let size = length-kept policy ns in
      let same = ap length held in (held, omega arith, omega arith)
