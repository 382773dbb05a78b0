-- ===== src/Client/Effect.antt =====
-- The part of an Effect program that the client's own code relies on: a program runs in a world,
-- changes it, and succeeds with a value or fails with an error. A `yield*` is `and_then`.
pub mod Keeping
use effect_opcua.Prelude.{◌≡◌, refl, ap}

pub data Exit {ℓ} (E A : Type ℓ) : Type ℓ where
  succeeded : A → Exit E A
  failed : E → Exit E A

module _ (World E : Type 0) where
  abbrev pub Effect : Type 0 → Type 0
  Effect A = World → Exit E A × World

abbrev pub succeed : {World E A : Type 0} → A → Effect World E A
succeed a w = (succeeded a, w)

abbrev pub fail : {World E A : Type 0} → E → Effect World E A
fail e w = (failed e, w)

unfoldable pub resume :
    {World E A B : Type 0} → (A → Effect World E B) → Exit E A × World → Exit E B × World
resume next (succeeded a, w) = next a w
resume next (failed e, w) = (failed e, w)

unfoldable pub and_then :
    {World E A B : Type 0} → Effect World E A → (A → Effect World E B) → Effect World E B
unfolding resume
and_then program next w = resume next (program w)

-- Where a union of error types is one data type, an error of a member enters it here.
unfoldable pub widen_exit : {World E F A : Type 0} → (E → F) → Exit E A × World → Exit F A × World
widen_exit f (succeeded a, w) = (succeeded a, w)
widen_exit f (failed e, w) = (failed (f e), w)

unfoldable pub widen : {World E F A : Type 0} → (E → F) → Effect World E A → Effect World F A
unfolding widen_exit
widen f program w = widen_exit f (program w)

pub widen-succeeded :
    {World E F A : Type 0} (f : E → F) (program : Effect World E A) (w w' : World) (a : A)
    → program w ≡ (succeeded a, w')
    → widen f program w ≡ (succeeded a, w')
unfolding widen
widen-succeeded f program w w' a e = ap (widen_exit f) e

pub and_then-succeeded :
    {World E A B : Type 0} (program : Effect World E A) (next : A → Effect World E B) (w w' : World)
    (a : A)
    → program w ≡ (succeeded a, w')
    → and_then program next w ≡ next a w'
unfolding and_then
and_then-succeeded program next w w' a e = ap (resume next) e

pub failed-ne-succeeded :
    {World E A : Type 0} {e : E} {a : A} {w v : World}
    → ¬ (◌≡◌ {A = Exit E A × World} (failed e, w) (succeeded a, v))
failed-ne-succeeded h = cc

resume-succeeded :
    {World E A B : Type 0} (next : A → Effect World E B) (r : Exit E A × World) (w' : World) (b : B)
    → resume next r ≡ (succeeded b, w')
    → (a : A) × (v : World) × (r ≡ (succeeded a, v)) × (next a v ≡ (succeeded b, w'))
unfolding resume
resume-succeeded next (succeeded a, v) w' b h = (a, v, refl, h)
resume-succeeded next (failed e, v) w' b h = absurd (failed-ne-succeeded h)

-- A sequence succeeds only if both of its parts do.
pub succeeded-and_then :
    {World E A B : Type 0} (program : Effect World E A) (next : A → Effect World E B) (w w' : World)
    (b : B)
    → and_then program next w ≡ (succeeded b, w')
    → (a : A) × (v : World) × (program w ≡ (succeeded a, v)) × (next a v ≡ (succeeded b, w'))
unfolding and_then
succeeded-and_then program next w w' b h = resume-succeeded next (program w) w' b h

pub succeeded-injective :
    {World E A : Type 0} {a b : A} {w v : World}
    → ◌≡◌ {A = Exit E A × World} (succeeded a, w) (succeeded b, v)
    → a ≡ b
succeeded-injective h = cc
