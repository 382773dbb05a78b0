-- ===== src/Client/Monitor/Balanced.antt =====
-- packages/client/src/internal/monitoring/runtime.ts: a weight of the items, which no step of the
-- startup changes.
pub mod Validation
pub mod Creation
use effect_opcua.Prelude.{ℕ, ◌<◌, String, List, [], ◌≡◌, ap, inl, inr}
use effect_opcua.Client.Monitor.Weights.{weigh}
use effect_opcua.Client.Batch.{chunks_of, chunks_or_nil, concat}
use effect_opcua.Client.Batch.Chunks.{chunks_of-concat}
use effect_opcua.Client.Monitor.{Item}

abbrev pub weigh_items : {Info : Type 0} → (String → ℕ) → List (Item Info) → ℕ
weigh_items f = weigh (λ (i : Item _). f i.key)

module _ {Info : Type 0} (f : String → ℕ) where
  pub weigh-chunks_or_nil :
      (items : List (Item Info)) (size : ℕ)
      → 0 < size
      → weigh_items f (concat (chunks_or_nil (chunks_of items size))) ≡ weigh_items f items
  weigh-chunks_or_nil items size pos =
      let (cs, e, joined, _) = chunks_of-concat items size pos in rw e (ap (weigh_items f) joined)
