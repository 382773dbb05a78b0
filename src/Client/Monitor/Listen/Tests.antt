-- ===== src/Client/Monitor/Listen/Tests.antt =====
-- One group of two items, whose second item is not active: a value, an error, and a termination after
-- the group was marked.
use mathlib.Core.List.Memᴰ
use effect_opcua.Prelude.{
  ℕ, String, Option, none, some, List, [], ◌∷◌, ◌++◌, length, true, mem-nil, ◌≡◌, refl,
}
use effect_opcua.Client.Monitor.{internal_error}
use effect_opcua.Client.Monitor.Create.{Retained}
use effect_opcua.Client.Monitor.Start.{node_ids}
use effect_opcua.Client.Monitor.Buffer.{sliding, Notification}
use effect_opcua.Client.Monitor.Listen.{
  RuntimeError, changed, err, terminated, Live, FailingQueue, KeepsFailure, deliver, value, ends,
  ignored, finalized, Reach, here, next,
}
use effect_opcua.Client.Monitor.Listen.Failed.{IsFailed, Reach-IsFailed}

abbrev Error : Type 0
Error = RuntimeError String

abbrev Queue : Type 0
Queue = List (Notification ℕ ℕ) × Option Error

abbrev failure : Queue → Option Error
failure (_, e) = e

abbrev fail_once : Queue → Error → Queue
fail_once (items, none) e = (items, some e)
fail_once (items, some f) e = (items, some f)

abbrev queue : FailingQueue Queue (Notification ℕ ℕ) Error
queue = record {
  ops = record {
    size_unsafe = λ s. length s.0;
    offer_unsafe = λ s n. (true, (s.0 ++ n ∷ [], s.1));
  };
  fail_queue = fail_once;
}

queue-KeepsFailure : KeepsFailure queue failure
queue-KeepsFailure = record { first = first_law; later = later_law; offered = λ s a. refl }
  where
    first_law : (s : Queue) (e : Error) → failure s ≡ none → failure (fail_once s e) ≡ some e
    first_law (items, none) e h = refl
    first_law (items, some f) e h = absurd (cc)

    later_law : (s : Queue) (e f : Error) → failure s ≡ some f → failure (fail_once s e) ≡ some f
    later_law (items, none) e f h = absurd (cc)
    later_law (items, some g) e f h = h

abbrev group : Retained ℕ
group = record {
  handle = 7;
  entries = some (record { key = "speed"; node_id = "i=2"; info = 0 }) ∷ none ∷ [];
}

abbrev start : Live Queue
start = record { queue = ([], none); events = []; listening = 7 ∷ []; finalizing = [] }

abbrev lost : Error
lost = record { node_ids = node_ids group.entries; cause = "lost" }

abbrev after_value : Live Queue
after_value = deliver queue (sliding 4) group (changed 0 10) start

abbrev after_error : Live Queue
after_error = deliver queue (sliding 4) group (err "lost") after_value

abbrev after_mark : Live Queue
after_mark = record after_error { finalizing = 7 ∷ after_error.finalizing }

abbrev after_all : Live Queue
after_all = deliver queue (sliding 4) group (terminated "gone") after_mark

run : Reach queue (sliding 4) failure start (lost ∷ []) after_all
unfolding deliver
run =
    next (lost ∷ []) after_all none
      (next (lost ∷ []) after_mark none
        (next (lost ∷ []) after_error (some lost)
          (next [] after_value none here (value group 0 10 (Memᴰ.head refl) refl) refl)
          (ends group (err "lost") "lost" (Memᴰ.head refl) refl (λ m. mem-nil m) refl) refl)
        (finalized 7 refl) refl)
      (ignored group (terminated "gone") "gone" (Memᴰ.head refl) refl (Memᴰ.head refl) refl) refl

Reach-IsFailed_example :
    IsFailed queue (sliding 4) failure queue-KeepsFailure start (lost ∷ []) after_all
Reach-IsFailed_example =
    Reach-IsFailed queue (sliding 4) failure queue-KeepsFailure start after_all (lost ∷ []) refl run

-- The value is still there, behind it the first failure, and one error was published.
end_of_run :
    (after_all.queue.1 ≡ some lost)
    × (length after_all.queue.0 ≡ 1)
    × (after_all.events ≡ internal_error ∷ [])
unfolding deliver
end_of_run = (refl, refl, refl)
